-- ===== src/Ruleeval/Evaluator/Stamps.antt =====
-- internal/ruleeval/eval.go and registry.go: what a whole tick does to the time of a rule's last fire.
use neurosymbolic_system.Base.{
  ℕ, ◌≡◌, refl, sym, ap, ◌∙◌, Bool, true, false, Option, none, some, List, [], ◌∷◌, ◌⊎◌, inl, inr,
  Text, ◌==◌, if◌then◌else◌, mem, All, GoMap, lookup, lookup-insert, is_some, Time, Floats, arith,
}
use mathlib.Core.Path.{subst}
use neurosymbolic_system.Tick.Engine.State.{AdmitError}
use neurosymbolic_system.Rules.Model.{Rule, Config}
use neurosymbolic_system.Ruleeval.Predicate.{View, Absent, eval}
use neurosymbolic_system.Ruleeval.Timing.{RuleState, cooling}
use neurosymbolic_system.Ruleeval.Timing.Spacing.{step_arming-last_fire, mark_fired-last_fire}
use neurosymbolic_system.Ruleeval.Ask.{
  Ask, done, crash, admit, evict, names, emit, Ensures, Ensures-bind,
}
use neurosymbolic_system.Ruleeval.Ask.Contracts.{Ensures-found}
use neurosymbolic_system.Ruleeval.Registry.{Registry}
use neurosymbolic_system.Ruleeval.Evaluator.{
  Evaluator, RuleEntry, snapshot, track_presence, absent_func,
}
use neurosymbolic_system.Ruleeval.Evaluator.Admission.{
  apply_queue, enforce_names, enforce, sustain_goals, sustain,
}
use neurosymbolic_system.Ruleeval.Evaluator.Rules.{
  inhibit_step, run_inhibit, react_step, react_each, run_react, tick_inhibited, tick_rules,
}
use neurosymbolic_system.Ruleeval.Evaluator.Judged.{
  Known, Sane, tracked, apply_queue-Ensures, run_inhibit-Ensures, react_each-Ensures,
  enforce_names-Ensures, sustain_goals-Ensures, inhibited_now-some,
}
use neurosymbolic_system.Ruleeval.Evaluator.Turns.{
  counted, Tracks, Turned, inhibit_step-Turned, react_step-Turned,
}
use neurosymbolic_system.Ruleeval.Ask.Leaves.{
  Leaves, Leaves-then, Leaves-found, Ensures-Leaves, Ensures-map,
}
use neurosymbolic_system.Ruleeval.Evaluator.Registering.{
  apply_queue-Leaves, enforce_names-Leaves, sustain_goals-Leaves,
}

Tracks-Leaves :
    {F A : Type 0} (Q : ℕ → A → Type 0) (R : A → Type 0) (n : ℕ) (code : Ask F A)
    → ((m : ℕ) (a : A) → Q m a → R a)
    → Tracks Q n code
    → Leaves R code
unfolding Tracks Leaves
Tracks-Leaves Q R n (done a) k h = k n a h
Tracks-Leaves Q R n crash k h = tt
Tracks-Leaves Q R n (admit b f) k h = λ r. Tracks-Leaves Q R n (f r) k (h r)
Tracks-Leaves Q R n (evict name f) k h = λ r. Tracks-Leaves Q R n (f r) k (h r)
Tracks-Leaves Q R n (names f) k h = λ r. Tracks-Leaves Q R n (f r) k (h r)
Tracks-Leaves Q R n (emit event m) k h = Tracks-Leaves Q R (counted event n) m k h

-- a rule with another id, or with this rule's id and its cooldown
abbrev pub Twin : (fl : Floats) → Rule fl.F → Rule fl.F → Type 0
Twin fl rule r = ((rule.id == r.id) ≡ false) ⊎ (rule.id ≡ r.id) × (r.cooldown_s ≡ rule.cooldown_s)

module _ (fl : Floats) (error_text : AdmitError → Text) (rule : Rule fl.F) (old : Option Time)
    (now : Time) where
  open fl use {F}

  -- The rule's entry has the last fire `old`, or `now`, which is then past the cooldown after `old`.
  abbrev pub Stamped : GoMap RuleEntry → Type 0
  Stamped states =
      (next : RuleEntry) × (lookup rule.id states ≡ some next)
      × ((next.timing.last_fire ≡ old)
          ⊎ (next.timing.last_fire ≡ some now) × (cooling fl rule old now ≡ false))

  abbrev LeftStamped : Evaluator F → Type 0
  LeftStamped e = Stamped e.states

  cooling-cooldown :
      (r : Rule F) (o : Option Time)
      → r.cooldown_s ≡ rule.cooldown_s
      → cooling fl r o now ≡ cooling fl rule o now
  unfolding cooling
  cooling-cooldown r none h = refl
  cooling-cooldown r (some at) h = ap (fl.f_lt (fl.seconds _)) h

  Turned-Stamped :
      (r : Rule F) (entry : RuleEntry) (matched : Bool) (states : GoMap RuleEntry) (n : ℕ)
      (e : Evaluator F)
      → Twin fl rule r
      → lookup r.id states ≡ some entry
      → Stamped states
      → Turned fl error_text r entry.timing matched now states n e
      → Stamped e.states
  Turned-Stamped r entry matched states n e (inl other) found (last, there, since) turned =
      let (next, put, t) = turned in
      (
        last,
        ap (lookup rule.id) put ∙ (ground (arith, lookup-insert r.id rule.id next states)),
        since,
      )
  Turned-Stamped r entry matched states n e (inr (same, cooldown)) found (last, there, since)
        (next, put, t) =
      let own : entry ≡ last = ground arith in
      let before : entry.timing.last_fire ≡ last.timing.last_fire =
        ap (λ (x : RuleEntry). x.timing.last_fire) own in
      let stamp = step_arming-last_fire fl r entry.timing matched now in
      let at : lookup rule.id e.states ≡ some next =
        ap (lookup rule.id) put ∙ ground (arith, lookup-insert r.id rule.id next states) in
      (
        next,
        at,
        elim t [
          | inl (quiet, kept) ↦
              let still : next.timing.last_fire ≡ last.timing.last_fire =
                ap (λ (x : RuleState). x.last_fire) kept ∙ (stamp ∙ before) in
              elim since [ inl p ↦ inl (still ∙ p) | inr (p, cold) ↦ inr (still ∙ p, cold) ]
          | inr (fire, m, armed, cold, set) ↦ inr (
            ap (λ (x : RuleState). x.last_fire) set ∙ mark_fired-last_fire fl r _ now,
            elim since [
              | inl p ↦
                  sym (cooling-cooldown r old cooldown)
                  ∙ (ap (λ o. cooling fl r o now) (sym p ∙ (sym before ∙ sym stamp)) ∙ cold)
              | inr (p, past) ↦ past
            ],
          )
        ],
      )

  run_inhibit-Leaves :
      (view : View F) (absent : Absent F) (rules : List (Rule F)) (e : Evaluator F)
      → All (Twin fl rule) rules
      → Stamped e.states
      → Leaves LeftStamped (run_inhibit fl error_text view absent now rules e)
  unfolding run_inhibit Leaves
  run_inhibit-Leaves view absent [] e twins h = h
  run_inhibit-Leaves view absent (r ∷ rest) e twins h =
      Leaves-found LeftStamped (lookup r.id e.states) _ (λ entry found.
        Leaves-found LeftStamped (eval fl view absent r.when) _ (λ matched judged.
          Leaves-then LeftStamped LeftStamped (inhibit_step fl error_text r entry matched now e) _
            (Tracks-Leaves (Turned fl error_text r entry.timing matched now e.states) LeftStamped 0
              (inhibit_step fl error_text r entry matched now e)
              (λ n e1. Turned-Stamped r entry matched e.states n e1 twins.0 found h)
              (inhibit_step-Turned fl error_text r entry matched now e.states e refl))
            (λ e1. run_inhibit-Leaves view absent rest e1 twins.1)))

  react_each-Leaves :
      (view : View F) (absent : Absent F) (by_rules active : List Text) (rules : List (Rule F))
      (e : Evaluator F)
      → All (Twin fl rule) rules
      → Stamped e.states
      → Leaves LeftStamped (react_each fl error_text view absent now by_rules active rules e)
  unfolding react_each Leaves
  react_each-Leaves view absent by_rules active [] e twins h = h
  react_each-Leaves view absent by_rules active (r ∷ rest) e twins h =
      Leaves-found LeftStamped (lookup r.id e.states) _ (λ entry found.
        Leaves-found LeftStamped (eval fl view absent r.when) _ (λ matched judged.
          Leaves-then (λ p. Stamped p.0.states) LeftStamped
            (react_step fl error_text by_rules active r entry matched now e) _
            (Tracks-Leaves (λ n p. Turned fl error_text r entry.timing matched now e.states n p.0)
              (λ p. Stamped p.0.states) 0
              (react_step fl error_text by_rules active r entry matched now e)
              (λ n p. Turned-Stamped r entry matched e.states n p.0 twins.0 found h)
              (react_step-Turned fl error_text r entry matched now e.states by_rules active e refl))
            (λ p.
              react_each-Leaves view absent by_rules (if p.1 then r.run ∷ active else active) rest
                p.0 twins.1)))

module _ (fl : Floats) (error_text : AdmitError → Text) (rule : Rule fl.F) (old : Option Time)
    (now : Time) (rules : Config fl.F) (ids inhibited by_rules : List Text) where
  open fl use {F}

  abbrev Kept : Evaluator F → Type 0
  Kept = Sane fl error_text rules ids inhibited by_rules

  abbrev Marked : Evaluator F → Type 0
  Marked e = Stamped fl error_text rule old now e.states

  abbrev Both : Evaluator F → Type 0
  Both e = Kept e × Marked e

  tick_inhibited-Stamped :
      (view : View F) (absent : Absent F) (e : Evaluator F)
      → Known ids rules.react
      → Known ids rules.inhibit
      → All (Twin fl rule) rules.react
      → All (Twin fl rule) rules.inhibit
      → Both e
      → Ensures (λ b. Unit) Both (tick_inhibited fl error_text view absent now by_rules e)
  unfolding tick_inhibited run_react enforce sustain Ensures Leaves
  tick_inhibited-Stamped view absent e known_react known_inhibit react_twins inhibit_twins h =
      Ensures-bind (λ b. Unit) Both Both _ _
        (Ensures-Leaves _ Kept Marked (apply_queue fl by_rules e)
          (apply_queue-Ensures fl error_text rules ids inhibited by_rules e h.0)
          (apply_queue-Leaves fl (Stamped fl error_text rule old now) by_rules e h.1))
        (λ e1 h1.
          Ensures-bind (λ b. Unit) Both Both _ _
            (Ensures-Leaves _ Kept Marked
              (run_inhibit fl error_text view absent now e1.rules.inhibit e1)
              (run_inhibit-Ensures fl error_text rules ids inhibited by_rules view absent now
                e1.rules.inhibit e1 h1.0
                (subst (λ (c : Config F). Known ids c.inhibit) (sym h1.0.rules_kept) known_inhibit))
              (run_inhibit-Leaves fl error_text rule old now view absent e1.rules.inhibit e1
                (subst (λ (c : Config F). All (Twin fl rule) c.inhibit) (sym h1.0.rules_kept)
                  inhibit_twins)
                h1.1))
            (λ e2 h2.
              Ensures-bind (λ b. Unit) Both Both _ _
                (λ active.
                  Ensures-Leaves _ Kept Marked
                    (react_each fl error_text view absent now by_rules active e2.rules.react e2)
                    (react_each-Ensures fl error_text rules ids inhibited by_rules view absent now
                      e2.rules.react active e2 h2.0
                      (subst (λ (c : Config F). Known ids c.react) (sym h2.0.rules_kept)
                        known_react))
                    (react_each-Leaves fl error_text rule old now view absent by_rules active
                      e2.rules.react e2
                      (subst (λ (c : Config F). All (Twin fl rule) c.react) (sym h2.0.rules_kept)
                        react_twins)
                      h2.1))
                (λ e3 h3.
                  Ensures-bind (λ b. Unit) Both Both _ _
                    (Ensures-Leaves _ Kept Marked (enforce_names fl _ e3)
                      (enforce_names-Ensures fl error_text rules ids inhibited by_rules _ e3 h3.0)
                      (enforce_names-Leaves fl (Stamped fl error_text rule old now) _ e3 h3.1))
                    (λ e4 h4.
                      Ensures-Leaves _ Kept Marked (sustain_goals fl by_rules _ e4)
                        (sustain_goals-Ensures fl error_text rules ids inhibited by_rules _ e4 h4.0)
                        (sustain_goals-Leaves fl (Stamped fl error_text rule old now) by_rules _ e4
                          h4.1)))))

module _ (fl : Floats) (error_text : AdmitError → Text) where
  open fl use {F}

  -- A tick of an evaluator whose rules all have a state and a predicate of scalars comes to its end,
  -- whatever the engine answers. The time of the last fire of a rule whose id no rule of another
  -- cooldown has is then what it was, or it is the time of the tick, which is past the rule's cooldown
  -- after what it was.
  pub tick_rules-Stamped :
      (rule : Rule F) (ids : List Text) (perceived routed : Option (View F)) (now : Time)
      (e : Evaluator F) {entry : RuleEntry}
      → Known ids e.rules.react
      → Known ids e.rules.inhibit
      → ((id : Text) → mem id ids ≡ true → is_some (lookup id e.states) ≡ true)
      → All (Twin fl rule) e.rules.react
      → All (Twin fl rule) e.rules.inhibit
      → lookup rule.id e.states ≡ some entry
      → Ensures
          (λ b. Unit)
          (λ e'. Stamped fl error_text rule entry.timing.last_fire now e'.states)
          (tick_rules fl error_text perceived routed now e)
  unfolding tick_rules
  tick_rules-Stamped rule ids perceived routed now e {entry} known_react known_inhibit states
        react_twins inhibit_twins here =
      let view = snapshot fl perceived routed in
      let e1 = track_presence fl view now e in
      let absent = absent_func fl e1 now in
      let (rules_kept, registry_kept, states_kept) = tracked fl error_text view now e in
      let (by_rules, found) =
        inhibited_now-some fl error_text ids view absent [] e1.rules.inhibit
          (subst (λ (c : Config F). Known ids c.inhibit) (sym rules_kept) known_inhibit) in
      let old = entry.timing.last_fire in
      Ensures-found (λ b. Unit) (λ e'. Stamped fl error_text rule old now e'.states)
        (λ by_rules. tick_inhibited fl error_text view absent now by_rules e1) (sym found)
        (Ensures-map (Both fl error_text rule old now e.rules ids e.registry.inhibited by_rules)
          (λ e'. Stamped fl error_text rule old now e'.states) _ (λ e2 h. h.1)
          (tick_inhibited-Stamped fl error_text rule old now e.rules ids e.registry.inhibited
            by_rules view absent e1 known_react known_inhibit react_twins inhibit_twins
            (
              record {
                rules_kept = rules_kept;
                inhibited_kept = ap (λ (r : Registry F). r.inhibited) registry_kept;
                has_state =
                    subst
                      (λ (m : GoMap RuleEntry).
                        (id : Text) → mem id ids ≡ true → is_some (lookup id m) ≡ true)
                      (sym states_kept) states;
              },
              (entry, ap (lookup rule.id) states_kept ∙ here, inl refl),
            )))
