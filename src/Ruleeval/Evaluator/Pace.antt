-- ===== src/Ruleeval/Evaluator/Pace.antt =====
-- internal/ruleeval/eval.go: the turns that one rule has in `runInhibit` or `fireReact`, tick after tick,
-- and the times of its `rule.fire` events. A turn starts with
-- the timing that the one before it left.
use neurosymbolic_system.Base.{
  ℕ, zero, suc, ◌≡◌, refl, sym, ◌∙◌, ap, Bool, true, false, some, List, [], ◌∷◌, ◌++◌, ◌⊎◌, inl,
  inr, Text, if◌then◌else◌, All, lookup, lookup-insert, Time, Floats, arith,
}
use mathlib.Core.Path.{subst}
use neurosymbolic_system.Tick.Engine.State.{AdmitError}
use neurosymbolic_system.Rules.Model.{Rule}
use neurosymbolic_system.Ruleeval.Timing.{RuleState, step_arming, cooling, mark_fired}
use neurosymbolic_system.Ruleeval.Timing.Spacing.{
  Spaced, step_arming-last_fire, mark_fired-last_fire,
}
use neurosymbolic_system.Ruleeval.Ask.{Ask, done, bind}
use neurosymbolic_system.Ruleeval.Evaluator.{Evaluator, RuleEntry}
use neurosymbolic_system.Ruleeval.Evaluator.Rules.{inhibit_step, react_step}
use neurosymbolic_system.Ruleeval.Evaluator.Turns.{
  Tracks, Ends, Tracks-Ends, Tracks-bind, Turned, inhibit_step-Turned, react_step-Turned,
}

-- One turn: what the code is given, and the number of `rule.fire` events, the evaluator and the rule's
-- entry with which it ends.
pub record Turn (F : Type 0) : Type 0 where
  pub reacts : Bool
  pub by_rules : List Text
  pub active : List Text
  pub entry : RuleEntry
  pub matched : Bool
  pub now : Time
  pub before : Evaluator F
  pub fires : ℕ
  pub after : Evaluator F
  pub next : RuleEntry

abbrev pub times : ℕ → Time → List Time
times zero now = []
times (suc n) now = now ∷ times n now

unfoldable pub fire_times : {F : Type 0} → List (Turn F) → List Time
fire_times [] = []
fire_times (t ∷ rest) = times t.fires t.now ++ fire_times rest

module _ (fl : Floats) (error_text : AdmitError → Text) (rule : Rule fl.F) where
  open fl use {F, f_zero, f_lt}

  -- the code of the turn, of a react rule or of an inhibit rule
  abbrev pub code : Turn F → Ask F (Evaluator F)
  code t =
      if t.reacts
      then bind (react_step fl error_text t.by_rules t.active rule t.entry t.matched t.now t.before)
          (λ p. done p.0)
      else inhibit_step fl error_text rule t.entry t.matched t.now t.before

  -- the turns of the rule from a state, each of which ends as it says for some answers of the engine
  abbrev pub Turns : RuleState → List (Turn F) → Type 0
  Turns timing [] = Unit
  Turns timing (t ∷ rest) =
      (t.entry.timing ≡ timing)
      × Ends 0 (code t) t.fires t.after
      × (lookup rule.id t.after.states ≡ some t.next)
      × Turns t.next.timing rest

  code-Turned :
      (t : Turn F) (reacts : Bool)
      → Tracks
          (Turned fl error_text rule t.entry.timing t.matched t.now t.before.states)
          0
          (code (record t { reacts = reacts }))
  unfolding Tracks
  code-Turned t true =
      Tracks-bind (Turned fl error_text rule t.entry.timing t.matched t.now t.before.states) 0 _ _ (
        react_step-Turned fl error_text rule t.entry t.matched t.now t.before.states t.by_rules
          t.active t.before refl)
  code-Turned t false =
      inhibit_step-Turned fl error_text rule t.entry t.matched t.now t.before.states t.before refl

  -- what the turn does to the rule's timing
  turn-Turned :
      (t : Turn F)
      → Ends 0 (code t) t.fires t.after
      → lookup rule.id t.after.states ≡ some t.next
      → (t.fires ≡ 0) × (t.next.timing ≡ step_arming fl rule t.entry.timing t.matched t.now)
        ⊎ (t.fires ≡ 1)
          × (t.matched ≡ true)
          × ((step_arming fl rule t.entry.timing t.matched t.now).armed ≡ true)
          × (cooling fl rule t.entry.timing.last_fire t.now ≡ false)
          × (t.next.timing
              ≡ mark_fired fl rule (step_arming fl rule t.entry.timing t.matched t.now) t.now)
  turn-Turned t ended found =
      let stamp = step_arming-last_fire fl rule t.entry.timing t.matched t.now in
      let (next, found', turned) =
        Tracks-Ends (Turned fl error_text rule t.entry.timing t.matched t.now t.before.states) 0
          (code t) t.fires t.after (code-Turned t t.reacts) ended in
      let put : lookup rule.id t.after.states ≡ some next =
        ap (lookup rule.id) found'
        ∙ ground (arith, lookup-insert rule.id rule.id next t.before.states) in
      let same : t.next ≡ next = ground arith in
      elim turned [
        | inl (quiet, kept) ↦ inl (quiet, ap (λ (e : RuleEntry). e.timing) same ∙ kept)
        | inr (fire, matched, armed, cold, set) ↦ inr (
          fire,
          matched,
          armed,
          ap (λ o. cooling fl rule o t.now) (sym stamp) ∙ cold,
          ap (λ (e : RuleEntry). e.timing) same ∙ set,
        )
      ]

  -- Over the turns of a react rule or of an inhibit rule, whatever its predicate gives and whatever
  -- the engine answers, each `rule.fire` comes at least the rule's cooldown after the one before, the
  -- first of them after the last fire that the rule starts with.
  pub fire_times-Spaced :
      (timing : RuleState) (turns : List (Turn F))
      → Turns timing turns
      → Spaced fl rule timing.last_fire (fire_times turns)
  unfolding fire_times
  fire_times-Spaced timing [] h = tt
  fire_times-Spaced timing (t ∷ rest) (started, ended, found, later) =
      let spaced = fire_times-Spaced t.next.timing rest later in
      subst (λ (s : RuleState). Spaced fl rule s.last_fire (fire_times (t ∷ rest))) started
        (elim (turn-Turned t ended found) [
          | inl (quiet, kept) ↦
              let stamp : t.next.timing.last_fire ≡ t.entry.timing.last_fire =
                ap (λ (s : RuleState). s.last_fire) kept
                ∙ step_arming-last_fire fl rule t.entry.timing t.matched t.now in
              rw quiet (subst (λ o. Spaced fl rule o (fire_times rest)) stamp spaced)
          | inr (fire, matched, armed, cold, set) ↦
              let stamp : t.next.timing.last_fire ≡ some t.now =
                ap (λ (s : RuleState). s.last_fire) set ∙ mark_fired-last_fire fl rule _ t.now in
              rw fire (cold, subst (λ o. Spaced fl rule o (fire_times rest)) stamp spaced)
        ])

  held :
      (timing : RuleState) (turns : List (Turn F))
      → timing.armed ≡ false
      → All (λ t. t.matched ≡ true) turns
      → Turns timing turns
      → fire_times turns ≡ []
  unfolding fire_times step_arming
  held timing [] waiting matched h = refl
  held timing (t ∷ rest) waiting matched (started, ended, found, later) =
      let still : (step_arming fl rule t.entry.timing t.matched t.now).armed ≡ false =
        rw (matched.0, started) waiting in
      elim (turn-Turned t ended found) [
        | inr (fire, m, armed, cold, set) ↦ absurd (ground arith)
        | inl (quiet, kept) ↦
            rw quiet (
              held t.next.timing rest (ap (λ (s : RuleState). s.armed) kept ∙ still) matched.1
                later)
      ]

  mark_fired-armed :
      (timing : RuleState) (now : Time)
      → f_lt f_zero rule.hysteresis ≡ true
      → (mark_fired fl rule timing now).armed ≡ false
  unfolding mark_fired
  mark_fired-armed timing now h = ground arith

  -- After a turn of a rule with a hysteresis above zero that emits `rule.fire`, the turns that follow
  -- emit none for as long as the rule's predicate stays true, whatever the engine answers.
  pub fire_times-held :
      (timing : RuleState) (t : Turn F) (rest : List (Turn F))
      → f_lt f_zero rule.hysteresis ≡ true
      → Turns timing (t ∷ rest)
      → t.fires ≡ 1
      → All (λ later. later.matched ≡ true) rest
      → fire_times rest ≡ []
  fire_times-held timing t rest h (started, ended, found, later) once matched =
      elim (turn-Turned t ended found) [
        | inl (quiet, kept) ↦ absurd (omega arith)
        | inr (fire, m, armed, cold, set) ↦
            held t.next.timing rest
              (ap (λ (s : RuleState). s.armed) set ∙ mark_fired-armed _ t.now h) matched later
      ]
