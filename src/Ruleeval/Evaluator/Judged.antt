-- ===== src/Ruleeval/Evaluator/Judged.antt =====
-- What an evaluator asks of the engine in a tick, and that it comes to the end of it.
use neurosymbolic_system.Base.{
  ◌≡◌, refl, sym, ap, Bool, true, false, not, ◌||◌, Option, some, List, [], ◌∷◌, Text, ◌==◌,
  if◌then◌else◌, mem, All, Option-cases, inl, inr, GoMap, lookup, lookup-insert, Time, is_some,
  Floats, arith,
}
use mathlib.Core.Path.{subst}
use neurosymbolic_system.Tick.Behavior.{Behavior}
use neurosymbolic_system.Tick.Engine.State.{AdmitError}
use neurosymbolic_system.Rules.Model.{Rule, Config}
use neurosymbolic_system.Ruleeval.Predicate.{View, Absent, eval}
use neurosymbolic_system.Ruleeval.Predicate.Meaning.{Loadable, holds, eval-holds}
use neurosymbolic_system.Ruleeval.Timing.{Reason, fired, cooldown, rearming}
use neurosymbolic_system.Ruleeval.Ask.{Ask, done, Ensures, Ensures-bind}
use neurosymbolic_system.Ruleeval.Registry.{
  add_names, request_id, drain, Registry, Request, Goal, Pending, to_evict, to_admit, token_blocked,
  blocks,
}
use neurosymbolic_system.Ruleeval.Evaluator.{
  Evaluator, RuleEntry, Episode, build, track_presence, snapshot, absent_func,
}
use neurosymbolic_system.Ruleeval.Evaluator.Admission.{
  Admission, turned_down, admitted, observe, empty_request, request_name, ask_admit, admit_observed,
  apply_all, apply_queue, evict_each, enforce_names, enforce, goal_request, sustain_each,
  sustain_goals, sustain,
}
use neurosymbolic_system.Ruleeval.Evaluator.Rules.{
  suppress, release, inhibited_now, put_entry, evict_all, fire_rule, gate, open_gate,
  inhibit_judged, inhibit_step, run_inhibit, settle_fire, gate_react, react_judged, react_step,
  react_each, run_react, tick_inhibited, tick_rules,
}
use neurosymbolic_system.Ruleeval.Ask.Contracts.{Ensures-if, Ensures-or_crash, Ensures-found}

-- every rule has one of the ids, and a predicate of scalars
abbrev pub Known : {F : Type 0} → List Text → List (Rule F) → Type 0
Known ids = All (λ rule. (mem rule.id ids ≡ true) × Loadable rule.when)

module _ (fl : Floats) (error_text : AdmitError → Text) (rules : Config fl.F)
    (ids inhibited by_rules : List Text) where
  open fl use {F}

  -- neither the behavior's name nor its action is inhibited
  pub record Allowed (b : Behavior F) : Type 0 where
    pub name_free : token_blocked inhibited by_rules b.name ≡ false
    pub action_free : token_blocked inhibited by_rules b.action ≡ false

  -- an evaluator of these rules, in a tick in which these names are inhibited
  pub record Sane (e : Evaluator F) : Type 0 where
    pub rules_kept : e.rules ≡ rules
    pub inhibited_kept : e.registry.inhibited ≡ inhibited
    pub has_state : (id : Text) → mem id ids ≡ true → is_some (lookup id e.states) ≡ true

  put_entry-Sane :
      (rule : Rule F) (entry : RuleEntry) (e : Evaluator F)
      → Sane e
      → Sane (put_entry fl error_text rule entry e)
  unfolding put_entry
  put_entry-Sane rule entry e s = record {
    rules_kept = s.rules_kept;
    inhibited_kept = s.inhibited_kept;
    has_state = λ id m. ground (arith, lookup-insert rule.id id entry e.states, s.has_state id m);
  }

  build-Allowed :
      (req : Request F) (e : Evaluator F) (id : Text)
      → Sane e
      → blocks e.registry by_rules (request_name req) req.action ≡ false
      → Allowed (build fl e id (request_name req) req)
  unfolding blocks build
  build-Allowed req e id s h =
      let kept = s.inhibited_kept in
      let free : (token_blocked inhibited by_rules (request_name req)
            || token_blocked inhibited by_rules req.action)
          ≡ false =
        subst
          (λ names.
            (token_blocked names by_rules (request_name req)
              || token_blocked names by_rules req.action)
            ≡ false)
          kept h in
      record { name_free = ground arith; action_free = ground arith }

  ask_admit-Ensures :
      (req : Request F) (e : Evaluator F)
      → Sane e
      → Ensures Allowed (λ p. Sane p.0) (ask_admit fl by_rules req e)
  unfolding ask_admit request_id Ensures
  ask_admit-Ensures req e s =
      Ensures-if Allowed (λ p. Sane p.0) (blocks e.registry by_rules (request_name req) req.action)
        _ _ (λ h. s)
        (λ h. (
          build-Allowed req e _ s h,
          λ r. record {
            rules_kept = s.rules_kept;
            inhibited_kept = s.inhibited_kept;
            has_state = s.has_state;
          },
        ))

  observe-Ensures :
      {A : Type 0} (Q : A → Type 0) (a : Admission) (m : Ask F A)
      → Ensures Allowed Q m
      → Ensures Allowed Q (observe a m)
  unfolding Ensures
  observe-Ensures Q (admitted result) m h = h
  observe-Ensures Q (turned_down refusal) m h = h

  admit_observed-Ensures :
      (req : Request F) (e : Evaluator F)
      → Sane e
      → Ensures Allowed Sane (admit_observed fl by_rules req e)
  unfolding admit_observed Ensures
  admit_observed-Ensures req e s =
      Ensures-bind Allowed (λ p. Sane p.0) Sane (ask_admit fl by_rules req e) _
        (ask_admit-Ensures req e s) (λ p h. observe-Ensures Sane p.1 (done p.0) h)

  apply_all-Ensures :
      (queue : List (Pending F)) (e : Evaluator F)
      → Sane e
      → Ensures Allowed Sane (apply_all fl by_rules queue e)
  unfolding apply_all Ensures
  apply_all-Ensures [] e s = s
  apply_all-Ensures (to_evict name ∷ rest) e s =
      Ensures-if Allowed Sane (name == []) _ _
        (λ h.
          Ensures-bind Allowed Sane Sane _ _ (admit_observed-Ensures empty_request e s)
            (λ e1 s1. apply_all-Ensures rest e1 s1))
        (λ h n. apply_all-Ensures rest e s)
  apply_all-Ensures (to_admit req ∷ rest) e s =
      Ensures-bind Allowed Sane Sane _ _ (admit_observed-Ensures req e s)
        (λ e1 s1. apply_all-Ensures rest e1 s1)

  pub apply_queue-Ensures :
      (e : Evaluator F) → Sane e → Ensures Allowed Sane (apply_queue fl by_rules e)
  unfolding apply_queue drain
  apply_queue-Ensures e s =
      apply_all-Ensures e.registry.queue (record e { registry = record e.registry { queue = [] } })
        (record {
          rules_kept = s.rules_kept;
          inhibited_kept = s.inhibited_kept;
          has_state = s.has_state;
        })

  evict_each-Ensures :
      (names : List Text) (e : Evaluator F) → Sane e → Ensures Allowed Sane (evict_each fl names e)
  unfolding evict_each Ensures
  evict_each-Ensures [] e s = s
  evict_each-Ensures (name ∷ rest) e s = λ n. evict_each-Ensures rest e s

  pub enforce_names-Ensures :
      (blocked : List Text) (e : Evaluator F)
      → Sane e
      → Ensures Allowed Sane (enforce_names fl blocked e)
  unfolding enforce_names Ensures
  enforce_names-Ensures [] e s = s
  enforce_names-Ensures (b ∷ bs) e s = λ active. evict_each-Ensures _ e s

  sustain_each-Ensures :
      (active : List Text) (goals : List (Goal F)) (e : Evaluator F)
      → Sane e
      → Ensures Allowed Sane (sustain_each fl by_rules active goals e)
  unfolding sustain_each Ensures
  sustain_each-Ensures active [] e s = s
  sustain_each-Ensures active (g ∷ rest) e s =
      Ensures-if Allowed Sane (mem g.name active) _ _ (λ h. sustain_each-Ensures active rest e s)
        (λ h.
          Ensures-bind Allowed Sane Sane _ _ (admit_observed-Ensures (goal_request fl g) e s)
            (λ e1 s1. sustain_each-Ensures active rest e1 s1))

  pub sustain_goals-Ensures :
      (goals : List (Goal F)) (e : Evaluator F)
      → Sane e
      → Ensures Allowed Sane (sustain_goals fl by_rules goals e)
  unfolding sustain_goals Ensures
  sustain_goals-Ensures [] e s = s
  sustain_goals-Ensures (g ∷ gs) e s = λ active. sustain_each-Ensures active (g ∷ gs) e s

  suppress-Ensures :
      {A : Type 0} (Q : A → Type 0) (reason : Text) (ep : Episode) (next : Episode → Ask F A)
      → ((ep1 : Episode) → Ensures Allowed Q (next ep1))
      → Ensures Allowed Q (suppress reason ep next)
  unfolding suppress Ensures
  suppress-Ensures Q reason ep next h =
      Ensures-if Allowed Q (reason == ep.reason) _ _ (λ p. h _) (λ p. h _)

  open_gate-Ensures :
      {A : Type 0} (Q : A → Type 0) (entry : RuleEntry) (next : RuleEntry → Ask F A)
      → ((entry1 : RuleEntry) → Ensures Allowed Q (next entry1))
      → Ensures Allowed Q (open_gate fl error_text entry next)
  unfolding open_gate release Ensures
  open_gate-Ensures Q entry next h =
      Ensures-if Allowed Q (entry.episode.reason == []) _ _ (λ p. h _) (λ p. h _)

  gate-Ensures :
      (rule : Rule F) (entry : RuleEntry) (reason : Text) (e : Evaluator F)
      → Sane e
      → Ensures Allowed Sane (gate fl error_text rule entry reason e)
  unfolding gate Ensures
  gate-Ensures rule entry reason e s =
      suppress-Ensures Sane reason entry.episode _ (λ ep. put_entry-Sane rule _ e s)

  gate_react-Ensures :
      (rule : Rule F) (entry : RuleEntry) (reason : Text) (e : Evaluator F)
      → Sane e
      → Ensures Allowed (λ p. Sane p.0) (gate_react fl error_text rule entry reason e)
  unfolding gate_react Ensures
  gate_react-Ensures rule entry reason e s =
      Ensures-bind Allowed Sane (λ p. Sane p.0) _ _ (gate-Ensures rule entry reason e s)
        (λ e1 s1. s1)

  fire_rule-Ensures :
      (rule : Rule F) (entry : RuleEntry) (now : Time) (e : Evaluator F)
      → Sane e
      → Ensures Allowed Sane (fire_rule fl error_text rule entry now e)
  unfolding fire_rule Ensures
  fire_rule-Ensures rule entry now e s = put_entry-Sane rule _ e s

  evict_all-Ensures :
      (names : List Text) (m : Ask F (Evaluator F))
      → Ensures Allowed Sane m
      → Ensures Allowed Sane (evict_all fl error_text names m)
  unfolding evict_all Ensures
  evict_all-Ensures [] m h = h
  evict_all-Ensures (name ∷ rest) m h = λ n. evict_all-Ensures rest m h

  inhibit_judged-Ensures :
      (rule : Rule F) (entry : RuleEntry) (reason : Reason) (now : Time) (e : Evaluator F)
      → Sane e
      → Ensures Allowed Sane (inhibit_judged fl error_text rule entry reason now e)
  unfolding inhibit_judged
  inhibit_judged-Ensures rule entry rearming now e s = gate-Ensures rule entry _ e s
  inhibit_judged-Ensures rule entry cooldown now e s = gate-Ensures rule entry _ e s
  inhibit_judged-Ensures rule entry fired now e s =
      open_gate-Ensures Sane entry _
        (λ closed. evict_all-Ensures rule.disable _ (fire_rule-Ensures rule closed now e s))

  inhibit_step-Ensures :
      (rule : Rule F) (entry : RuleEntry) (matched : Bool) (now : Time) (e : Evaluator F)
      → Sane e
      → Ensures Allowed Sane (inhibit_step fl error_text rule entry matched now e)
  unfolding inhibit_step Ensures
  inhibit_step-Ensures rule entry matched now e s =
      Ensures-if Allowed Sane (not matched) _ _
        (λ h. open_gate-Ensures Sane _ _ (λ closed. put_entry-Sane rule closed e s))
        (λ h. inhibit_judged-Ensures rule _ _ now e s)

  pub eval-is_some :
      (view : View F) (absent : Absent F) (rule : Rule F)
      → Loadable rule.when
      → is_some (eval fl view absent rule.when) ≡ true
  eval-is_some view absent rule h = rw (eval-holds fl view absent rule.when h)

  pub run_inhibit-Ensures :
      (view : View F) (absent : Absent F) (now : Time) (rest : List (Rule F)) (e : Evaluator F)
      → Sane e
      → Known ids rest
      → Ensures Allowed Sane (run_inhibit fl error_text view absent now rest e)
  unfolding run_inhibit Ensures
  run_inhibit-Ensures view absent now [] e s r = s
  run_inhibit-Ensures view absent now (rule ∷ rest) e s r =
      Ensures-or_crash Allowed Sane (lookup rule.id e.states) _ (s.has_state rule.id r.0.0)
        (λ entry.
          Ensures-or_crash Allowed Sane (eval fl view absent rule.when) _
            (eval-is_some view absent rule r.0.1)
            (λ matched.
              Ensures-bind Allowed Sane Sane _ _ (inhibit_step-Ensures rule entry matched now e s)
                (λ e1 s1. run_inhibit-Ensures view absent now rest e1 s1 r.1)))

  settle_fire-Ensures :
      (rule : Rule F) (entry : RuleEntry) (now : Time) (p : Evaluator F × Admission)
      → Sane p.0
      → Ensures Allowed (λ q. Sane q.0) (settle_fire fl error_text rule entry now p)
  unfolding settle_fire Ensures
  settle_fire-Ensures rule entry now (e, turned_down refusal) s =
      Ensures-bind Allowed Sane (λ q. Sane q.0) _ _ (gate-Ensures rule entry _ e s) (λ e1 s1. s1)
  settle_fire-Ensures rule entry now (e, admitted result) s =
      open_gate-Ensures (λ q. Sane q.0) entry _
        (λ closed.
          Ensures-bind Allowed Sane (λ q. Sane q.0) _ _ (fire_rule-Ensures rule closed now e s)
            (λ e1 s1. s1))

  react_judged-Ensures :
      (active : List Text) (rule : Rule F) (entry : RuleEntry) (reason : Reason) (now : Time)
      (e : Evaluator F)
      → Sane e
      → Ensures Allowed
          (λ q. Sane q.0)
          (react_judged fl error_text by_rules active rule entry reason now e)
  unfolding react_judged
  react_judged-Ensures active rule entry rearming now e s = gate_react-Ensures rule entry _ e s
  react_judged-Ensures active rule entry cooldown now e s = gate_react-Ensures rule entry _ e s
  react_judged-Ensures active rule entry fired now e s =
      Ensures-if Allowed (λ q. Sane q.0) (mem rule.run active) _ _
        (λ h. gate_react-Ensures rule entry _ e s)
        (λ h.
          Ensures-bind Allowed (λ p. Sane p.0) (λ q. Sane q.0) _ _ (ask_admit-Ensures _ e s)
            (λ p s1. settle_fire-Ensures rule entry now p s1))

  react_step-Ensures :
      (active : List Text) (rule : Rule F) (entry : RuleEntry) (matched : Bool) (now : Time)
      (e : Evaluator F)
      → Sane e
      → Ensures Allowed
          (λ q. Sane q.0)
          (react_step fl error_text by_rules active rule entry matched now e)
  unfolding react_step Ensures
  react_step-Ensures active rule entry matched now e s =
      Ensures-if Allowed (λ q. Sane q.0) (not matched) _ _
        (λ h. open_gate-Ensures (λ q. Sane q.0) _ _ (λ closed. put_entry-Sane rule closed e s))
        (λ h.
          Ensures-if Allowed (λ q. Sane q.0) (blocks e.registry by_rules rule.run rule.run) _ _
            (λ b. gate_react-Ensures rule _ _ e s)
            (λ f. react_judged-Ensures active rule _ _ now e s))

  pub react_each-Ensures :
      (view : View F) (absent : Absent F) (now : Time) (rest : List (Rule F)) (active : List Text)
      (e : Evaluator F)
      → Sane e
      → Known ids rest
      → Ensures Allowed Sane (react_each fl error_text view absent now by_rules active rest e)
  unfolding react_each Ensures
  react_each-Ensures view absent now [] active e s r = s
  react_each-Ensures view absent now (rule ∷ rest) active e s r =
      Ensures-or_crash Allowed Sane (lookup rule.id e.states) _ (s.has_state rule.id r.0.0)
        (λ entry.
          Ensures-or_crash Allowed Sane (eval fl view absent rule.when) _
            (eval-is_some view absent rule r.0.1)
            (λ matched.
              Ensures-bind Allowed (λ q. Sane q.0) Sane _ _
                (react_step-Ensures active rule entry matched now e s)
                (λ q s1. react_each-Ensures view absent now rest _ q.0 s1 r.1)))

  tick_inhibited-Ensures :
      (view : View F) (absent : Absent F) (now : Time) (e : Evaluator F)
      → Known ids rules.react
      → Known ids rules.inhibit
      → Sane e
      → Ensures Allowed Sane (tick_inhibited fl error_text view absent now by_rules e)
  unfolding tick_inhibited run_react enforce sustain Ensures
  tick_inhibited-Ensures view absent now e known_react known_inhibit s =
      Ensures-bind Allowed Sane Sane _ _ (apply_queue-Ensures e s) (λ e1 s1.
        Ensures-bind Allowed Sane Sane _ _
          (run_inhibit-Ensures view absent now e1.rules.inhibit e1 s1
            (subst (λ (c : Config F). Known ids c.inhibit) (sym s1.rules_kept) known_inhibit))
          (λ e2 s2.
            Ensures-bind Allowed Sane Sane _ _
              (λ active.
                react_each-Ensures view absent now e2.rules.react active e2 s2
                  (subst (λ (c : Config F). Known ids c.react) (sym s2.rules_kept) known_react))
              (λ e3 s3.
                Ensures-bind Allowed Sane Sane _ _ (enforce_names-Ensures _ e3 s3)
                  (λ e4 s4. sustain_goals-Ensures _ e4 s4))))

module _ (fl : Floats) (error_text : AdmitError → Text) where
  open fl use {F}

  pub inhibited_now-some :
      (ids : List Text) (view : View F) (absent : Absent F) (blocked : List Text)
      (rules : List (Rule F))
      → Known ids rules
      → (by_rules : List Text) × (inhibited_now fl error_text view absent blocked rules
          ≡ some by_rules)
  unfolding inhibited_now
  inhibited_now-some ids view absent blocked [] k = (blocked, refl)
  inhibited_now-some ids view absent blocked (rule ∷ rest) k =
      let held = holds fl view absent rule.when in
      let (by_rules, found) =
        inhibited_now-some ids view absent
          (if held then add_names rule.disable blocked else blocked) rest k.1 in
      (by_rules, rw (eval-holds fl view absent rule.when k.0.1) found)

  pub tracked :
      (view : View F) (now : Time) (e : Evaluator F)
      → ((track_presence fl view now e).rules ≡ e.rules)
        × ((track_presence fl view now e).registry ≡ e.registry)
        × ((track_presence fl view now e).states ≡ e.states)
  unfolding track_presence
  tracked view now e = elim (Option-cases e.started_at) [
    | inl h ↦ rw (h, track_presence) (refl, refl, refl)
    | inr (at, h) ↦ rw (h, track_presence) (refl, refl, refl)
  ]

  -- A tick of an evaluator whose rules all have a state and a predicate of scalars comes to its end,
  -- whatever the engine answers, and leaves the evaluator so. It asks the engine to admit no behavior
  -- whose name or action is inhibited, be it by the registry or by a rule that matches in this tick, and
  -- whether a rule, an intent or a standing goal wants it.
  pub tick_rules-Ensures :
      (ids : List Text) (perceived routed : Option (View F)) (now : Time) (e : Evaluator F)
      → Known ids e.rules.react
      → Known ids e.rules.inhibit
      → ((id : Text) → mem id ids ≡ true → is_some (lookup id e.states) ≡ true)
      → (by_rules : List Text) × (let e1 = track_presence fl (snapshot fl perceived routed) now e in
          inhibited_now fl error_text
            (snapshot fl perceived routed)
            (absent_func fl e1 now)
            []
            e1.rules.inhibit
          ≡ some by_rules)
        × Ensures
            (Allowed fl error_text e.rules ids e.registry.inhibited by_rules)
            (Sane fl error_text e.rules ids e.registry.inhibited by_rules)
            (tick_rules fl error_text perceived routed now e)
  unfolding tick_rules
  tick_rules-Ensures ids perceived routed now e known_react known_inhibit states =
      let view = snapshot fl perceived routed in
      let e1 = track_presence fl view now e in
      let absent = absent_func fl e1 now in
      let (rules_kept, registry_kept, states_kept) = tracked view now e in
      let (by_rules, found) =
        inhibited_now-some ids view absent [] e1.rules.inhibit
          (subst (λ (c : Config F). Known ids c.inhibit) (sym rules_kept) known_inhibit) in
      (
        by_rules,
        found,
        Ensures-found _ _ _ (sym found) (
            tick_inhibited-Ensures fl error_text e.rules ids e.registry.inhibited by_rules view
              absent now e1 known_react known_inhibit
              (record {
                rules_kept = rules_kept;
                inhibited_kept = ap (λ (r : Registry F). r.inhibited) registry_kept;
                has_state =
                    subst
                      (λ (m : GoMap RuleEntry).
                        (id : Text) → mem id ids ≡ true → is_some (lookup id m) ≡ true)
                      (sym states_kept) states;
              })),
      )
