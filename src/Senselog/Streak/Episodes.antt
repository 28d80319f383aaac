-- ===== src/Senselog/Streak/Episodes.antt =====
-- What one episode of a streak logs.
use neurosymbolic_system.Base.{
  ◌+◌, ◌≡◌, refl, ◌∙◌, ap, true, List, [], ◌∷◌, ◌++◌, Text, ◌==◌, if◌then◌else◌, any, mem,
  mem-append_one, length, Bool-cases, inl, inr, arith,
}
use neurosymbolic_system.Senselog.Streak.{Streak, Line, dropped, summary, new_streak, enter, end}

-- the gated ticks of an episode, each with its reason
unfoldable pub enter_all : Streak → List Text → Streak × List Line
enter_all s [] = (s, [])
enter_all s (reason ∷ rest) =
    let (s1, lines) = enter s reason in let (s2, later) = enter_all s1 rest in (s2, lines ++ later)

-- one line for each tick whose reason is not that of the tick before
unfoldable pub changes : Text → List Text → List Line
changes reason [] = []
changes reason (next ∷ rest) =
    let later = changes next rest in if next == reason then later else dropped next ∷ later

-- the reasons in the order in which they were first seen
unfoldable pub first_seen : List Text → List Text → List Text
first_seen reasons [] = reasons
first_seen reasons (next ∷ rest) =
    first_seen (if mem next reasons then reasons else reasons ++ next ∷ []) rest

-- an open streak, whose reason is among those it has seen
record Going (s : Streak) : Type 0 where
  opened : s.is_open ≡ true
  known : mem s.reason s.reasons ≡ true

enter-Going :
    (s : Streak) (reason : Text)
    → Going s
    → Going (enter s reason).0
      × ((enter s reason).1 ≡ (if reason == s.reason then [] else dropped reason ∷ []))
      × ((enter s reason).0.reason ≡ reason)
      × ((enter s reason).0.reasons
          ≡ (if mem reason s.reasons then s.reasons else s.reasons ++ reason ∷ []))
      × ((enter s reason).0.ticks ≡ s.ticks + 1)
unfolding enter
enter-Going s reason g =
    let opened = g.opened in
    let known = g.known in
    elim (Bool-cases (reason == s.reason)) [
      | inl same ↦
          let here : reason ≡ s.reason = ground arith in
          let old : mem reason s.reasons ≡ true = rw here known in
          (
            record { opened = ground arith; known = ground arith },
            ground arith,
            ground arith,
            ground arith,
            ground arith,
          )
      | inr new ↦
          let added = mem-append_one reason reason s.reasons in
          (
            record { opened = ground arith; known = ground arith },
            ground arith,
            ground arith,
            ground arith,
            ground arith,
          )
    ]

enter_all-Going :
    (s : Streak) (reasons : List Text)
    → Going s
    → ((enter_all s reasons).1 ≡ changes s.reason reasons)
      × ((enter_all s reasons).0.is_open ≡ true)
      × ((enter_all s reasons).0.reasons ≡ first_seen s.reasons reasons)
      × ((enter_all s reasons).0.ticks ≡ s.ticks + length reasons)
unfolding enter_all changes first_seen
enter_all-Going s [] g = (refl, g.opened, refl, omega arith)
enter_all-Going s (reason ∷ rest) g =
    let (going, lines, current, reasons, ticks) = enter-Going s reason g in
    let (later, opened, all, count) = enter_all-Going (enter s reason).0 rest going in
    (
      rw (lines, later, current) (ground arith),
      opened,
      all ∙ ap (λ r. first_seen r rest) reasons,
      omega (arith, count, ticks),
    )

-- An episode logs one line when it opens and one whenever its reason changes, however long it lasts,
-- and when it ends one summary, with its reasons in the order in which they were first seen and the
-- number of its ticks. The streak is then as new.
pub episode-end :
    (reason : Text) (rest : List Text)
    → ((enter_all new_streak (reason ∷ rest)).1 ≡ dropped reason ∷ changes reason rest)
      × (end (enter_all new_streak (reason ∷ rest)).0
          ≡ (new_streak, summary (first_seen (reason ∷ []) rest) (length (reason ∷ rest)) ∷ []))
unfolding enter_all enter new_streak end mem any
episode-end reason rest =
    let s1 : Streak = record {
      is_open = true;
      reason = reason;
      reasons = reason ∷ [];
      ticks = 1;
    } in
    let (lines, opened, reasons, ticks) =
      enter_all-Going s1 rest (record { opened = refl; known = ground arith }) in
    (ap (◌∷◌ (dropped reason)) lines, rw (opened, reasons, ticks) (ground arith))
