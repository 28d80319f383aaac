-- ===== src/Senselog/Line/Newlines.antt =====
-- The newlines of a written line of internal/senselog.
use neurosymbolic_system.Base.{
  ◌≡◌, refl, ℕ, suc, ◌+◌, [], ◌∷◌, ◌++◌, Text, eqb, length, length-append, keep, keep-append, arith,
}
use neurosymbolic_system.Senselog.Line.{
  source_mark, event_mark, close_mark, is_control, sanitize, sanitize_detail, write_line,
}

-- how many lines a text ends
abbrev pub newlines : Text → ℕ
newlines s = length (keep (eqb 10) s)

newlines-append : (s t : Text) → newlines (s ++ t) ≡ newlines s + newlines t
newlines-append s t =
    rw (keep-append (eqb 10) s t) (length-append (keep (eqb 10) s) (keep (eqb 10) t))

newlines-sanitize : (s : Text) → newlines (sanitize s) ≡ newlines s
unfolding sanitize keep
newlines-sanitize [] = refl
newlines-sanitize (c ∷ s) = ground (arith, newlines-sanitize s)

newlines-sanitize_detail : (s : Text) → newlines (sanitize_detail s) ≡ 0
unfolding sanitize_detail keep is_control
newlines-sanitize_detail [] = refl
newlines-sanitize_detail (c ∷ s) = ground (arith, newlines-sanitize_detail s)

-- A written record is one line exactly where its stage, its source and its event have no newline, for each
-- newline of those ends a line more; a detail adds none, whatever it holds.
pub newlines-write_line :
    (stage source event detail : Text)
    → newlines (write_line stage source event detail)
      ≡ suc (newlines stage + newlines source + newlines event)
unfolding write_line keep
newlines-write_line stage source event detail =
    let t2 : Text = close_mark ++ (sanitize_detail detail ++ 10 ∷ []) in
    let t1 : Text = event_mark ++ (sanitize event ++ t2) in
    let t0 : Text = source_mark ++ (sanitize source ++ t1) in
    omega (
      arith,
      newlines-append (sanitize stage) t0,
      newlines-append (sanitize source) t1,
      newlines-append (sanitize event) t2,
      newlines-append (sanitize_detail detail) (10 ∷ []),
      newlines-sanitize stage,
      newlines-sanitize source,
      newlines-sanitize event,
      newlines-sanitize_detail detail,
    )
