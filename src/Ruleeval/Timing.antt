-- ===== src/Ruleeval/Timing.antt =====
-- internal/ruleeval/eval.go: when a rule may fire. The suppression ledger, which no decision reads,
-- is left out.
pub mod Spacing
use neurosymbolic_system.Rules.Model.{Rule}
use neurosymbolic_system.Base.{
  Bool, true, false, not, ◌&&◌, Option, none, some, List, [], ◌∷◌, if◌then◌else◌, Time, time_sub,
  Floats,
}

-- `ruleState`: `none` where `hasFired` or `hasFalseSince` is false
pub record RuleState : Type 0 where
  pub last_fire : Option Time
  pub false_since : Option Time
  pub armed : Bool

-- the state that `New` gives a rule
abbrev pub new_state : RuleState
new_state = record { last_fire = none; false_since = none; armed = true }

pub data Reason : Type 0 where
  fired cooldown rearming : Reason

module _ (fl : Floats) where
  open fl use {F, f_zero, f_lt, f_le, seconds}

  -- when the predicate became false, at the latest now
  abbrev pub since : Option Time → Time → Time
  since none now = now
  since (some at) now = at

  unfoldable pub step_arming : Rule F → RuleState → Bool → Time → RuleState
  step_arming rule state true now = record state { false_since = none }
  step_arming rule state false now =
      let at = since state.false_since now in
      record state {
        false_since = some at;
        armed =
            if not state.armed && f_le rule.hysteresis (seconds (time_sub now at))
            then true
            else state.armed;
      }

  unfoldable pub cooling : Rule F → Option Time → Time → Bool
  cooling rule none now = false
  cooling rule (some at) now = f_lt (seconds (time_sub now at)) rule.cooldown_s

  unfoldable pub fire_reason : Rule F → RuleState → Time → Reason
  fire_reason rule state now =
      if not state.armed
      then rearming
      else if cooling rule state.last_fire now
      then cooldown
      else fired

  unfoldable pub mark_fired : Rule F → RuleState → Time → RuleState
  mark_fired rule state now =
      let state1 = record state { last_fire = some now } in
      if f_lt f_zero rule.hysteresis
      then record state1 { armed = false; false_since = none }
      else state1

  -- the state after ticks at which the predicate is false
  unfoldable pub unmatched : Rule F → RuleState → List Time → RuleState
  unmatched rule state [] = state
  unmatched rule state (now ∷ rest) = unmatched rule (step_arming rule state false now) rest
