-- ===== src/Ruleeval/Timing/Spacing.antt =====
-- The times at which a rule of internal/ruleeval/eval.go may fire: its cooldown and its hysteresis.
use neurosymbolic_system.Base.{
  ap, ◌∙◌, ◌≡◌, refl, Bool, true, false, ◌||◌, Option, some, List, [], ◌∷◌, any, Time, time_sub,
  Floats, if◌then◌else◌, arith,
}
use neurosymbolic_system.Rules.Model.{Rule}
use neurosymbolic_system.Ruleeval.Timing.{
  since, RuleState, step_arming, cooling, mark_fired, unmatched,
}

module _ (fl : Floats) where
  open fl use {F, f_zero, f_lt, f_le, seconds}

  -- Every time is at least the cooldown after the one before it, the first after `previous`.
  abbrev pub Spaced : Rule F → Option Time → List Time → Type 0
  Spaced rule previous [] = Unit
  Spaced rule previous (now ∷ rest) =
      (cooling fl rule previous now ≡ false) × Spaced rule (some now) rest

  pub step_arming-last_fire :
      (rule : Rule F) (state : RuleState) (matched : Bool) (now : Time)
      → (step_arming fl rule state matched now).last_fire ≡ state.last_fire
  unfolding step_arming
  step_arming-last_fire rule state true now = refl
  step_arming-last_fire rule state false now = refl

  pub mark_fired-last_fire :
      (rule : Rule F) (state : RuleState) (now : Time)
      → (mark_fired fl rule state now).last_fire ≡ some now
  unfolding mark_fired
  mark_fired-last_fire rule state now = ground arith

  unmatched-since :
      (rule : Rule F) (state : RuleState) (at : Time) (times : List Time)
      → state.false_since ≡ some at
      → (unmatched fl rule state times).armed
        ≡ (state.armed || any (λ now. f_le rule.hysteresis (seconds (time_sub now at))) times)
  unfolding unmatched step_arming any
  unmatched-since rule state at [] h = ground arith
  unmatched-since rule state at (now ∷ rest) h =
      let state1 = step_arming fl rule state false now in
      let late = f_le rule.hysteresis (seconds (time_sub now at)) in
      let began : since fl state.false_since now ≡ at = ap (λ o. since fl o now) h in
      let rearmed : state1.armed ≡ (state.armed || late) = rw began (ground arith) in
      unmatched-since rule state1 at rest (ap some began)
      ∙ (ap (λ b. b || any (λ t. f_le rule.hysteresis (seconds (time_sub t at))) rest) rearmed
          ∙ ground arith)

  -- After a fire that must re-arm, over ticks at which the predicate is false, the rule is armed again
  -- exactly if one of them comes at least the hysteresis after the first of them.
  pub unmatched-rearms :
      (rule : Rule F) (state : RuleState) (fire at : Time) (rest : List Time)
      → f_lt f_zero rule.hysteresis ≡ true
      → (unmatched fl rule (mark_fired fl rule state fire) (at ∷ rest)).armed
        ≡ any (λ now. f_le rule.hysteresis (seconds (time_sub now at))) (at ∷ rest)
  unfolding mark_fired unmatched step_arming any
  unmatched-rearms rule state fire at rest h =
      let late = f_le rule.hysteresis (seconds (time_sub at at)) in
      let state1 : RuleState = record {
        last_fire = some fire;
        false_since = some at;
        armed = if late then true else false;
      } in
      let plain : (if late then true else false) ≡ late = ground arith in
      rw h (
        unmatched-since rule state1 at rest refl
        ∙ ap (λ b. b || any (λ now. f_le rule.hysteresis (seconds (time_sub now at))) rest) plain)
