-- ===== src/Senselog/Streak.antt =====
-- internal/senselog/streak.go. A method returns the new streak and the lines that it logs; the
-- logger, the stage, the source and the event of the lines are those of the streak.
pub mod Episodes
use neurosymbolic_system.Base.{
  ℕ, ◌+◌, Bool, true, false, not, List, [], ◌∷◌, ◌++◌, Text, ◌==◌, if◌then◌else◌, mem,
}

pub record Streak : Type 0 where
  pub is_open : Bool
  pub reason : Text
  pub reasons : List Text
  pub ticks : ℕ

-- `dropped reason=<reason>`, the summary of an episode, and a plain stage line
pub data Line : Type 0 where
  dropped : Text → Line
  summary : List Text → ℕ → Line
  stage : Text → Line

unfoldable pub new_streak : Streak
new_streak = record { is_open = false; reason = []; reasons = []; ticks = 0 }

unfoldable pub enter : Streak → Text → Streak × List Line
enter s reason =
    let s1 = record s { ticks = s.ticks + 1 } in
    if not s.is_open
    then (
      record s1 { is_open = true; reason = reason; reasons = s.reasons ++ reason ∷ [] },
      dropped reason ∷ [],
    )
    else if reason == s.reason
    then (s1, [])
    else (
      record s1 {
        reason = reason;
        reasons = if mem reason s.reasons then s.reasons else s.reasons ++ reason ∷ [];
      },
      dropped reason ∷ [],
    )

unfoldable pub end : Streak → Streak × List Line
unfolding new_streak
end s = if not s.is_open then (s, []) else (new_streak, summary s.reasons s.ticks ∷ [])

unfoldable pub fire : Streak → Text → Streak × List Line
unfolding end
fire s detail = let (s', lines) = end s in (s', lines ++ stage detail ∷ [])
