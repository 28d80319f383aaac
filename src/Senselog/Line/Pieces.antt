-- ===== src/Senselog/Line/Pieces.antt =====
-- The pieces of a log line of internal/senselog: what is cleaned, and what `Parse` cuts.
use neurosymbolic_system.Base.{
  ◌≡◌, refl, ap, ℕ, true, false, none, some, [], ◌∷◌, ◌++◌, Text, ◌==◌, text_discrete, any, eqb,
  any-append, if◌then◌else◌, arith,
}
use neurosymbolic_system.Senselog.Line.{
  is_control, sanitize, sanitize_detail, trim_newlines, strip, prepend, cut_at, cut,
}

-- no control character
abbrev pub Clean : Text → Type 0
Clean s = any is_control s ≡ false

pub Clean-append : (s t : Text) → Clean s → Clean t → Clean (s ++ t)
Clean-append s t hs ht = rw (any-append is_control s t, hs, ht) refl

pub sanitize-Clean : (s : Text) → Clean s → Clean (sanitize s)
unfolding any sanitize is_control
sanitize-Clean [] h = refl
sanitize-Clean (c ∷ s) h = ground (arith, sanitize-Clean s)

pub sanitize_detail-Clean : (s : Text) → Clean (sanitize_detail s)
unfolding any sanitize_detail is_control
sanitize_detail-Clean [] = refl
sanitize_detail-Clean (c ∷ s) = ground (arith, sanitize_detail-Clean s)

pub trim_newlines-Clean : (s : Text) → Clean s → trim_newlines (s ++ 10 ∷ []) ≡ s
unfolding any is_control trim_newlines text_discrete
trim_newlines-Clean [] h = refl
trim_newlines-Clean (c ∷ s) h = ground (arith, trim_newlines-Clean s)

-- the character does not occur
abbrev pub Lacks : ℕ → Text → Type 0
Lacks c s = any (eqb c) s ≡ false

pub sanitize-Lacks_space : (s : Text) → Lacks b' ' (sanitize s)
unfolding any sanitize
sanitize-Lacks_space [] = refl
sanitize-Lacks_space (c ∷ s) = ground (arith, sanitize-Lacks_space s)

pub sanitize-Lacks_bracket : (s : Text) → Lacks b']' (sanitize s)
unfolding any sanitize
sanitize-Lacks_bracket [] = refl
sanitize-Lacks_bracket (c ∷ s) = ground (arith, sanitize-Lacks_bracket s)

pub eqb_refl : (c : ℕ) → eqb c c ≡ true
eqb_refl c = ground arith

pub strip-append : (mark s : Text) → strip mark (mark ++ s) ≡ some s
unfolding strip
strip-append [] s = refl
strip-append (m ∷ mark) s = rw (eqb_refl m) (strip-append mark s)

pub cut-append :
    (c : ℕ) (mark before after : Text)
    → Lacks c before
    → cut (c ∷ mark) (before ++ ((c ∷ mark) ++ after)) ≡ some (before, after)
unfolding cut cut_at prepend any strip
cut-append c mark [] after h = rw (eqb_refl c, strip-append mark after) refl
cut-append c mark (d ∷ before) after h =
    let other : eqb c d ≡ false = ground arith in
    let later : Lacks c before = ground arith in
    rw (other, cut-append c mark before after later) refl

pub cut-Lacks : (c : ℕ) (mark s : Text) → Lacks c s → cut (c ∷ mark) s ≡ none
unfolding cut cut_at prepend any strip
cut-Lacks c mark [] h = refl
cut-Lacks c mark (d ∷ s) h =
    let other : eqb c d ≡ false = ground arith in
    let later : Lacks c s = ground arith in rw (other, cut-Lacks c mark s later) refl

pub sanitize_detail-append :
    (s t : Text) → sanitize_detail (s ++ t) ≡ sanitize_detail s ++ sanitize_detail t
unfolding sanitize_detail
sanitize_detail-append [] t = refl
sanitize_detail-append (c ∷ s) t =
    ap (◌∷◌ (if is_control c then b'_' else c)) (sanitize_detail-append s t)

pub sanitize-nonempty : (s : Text) → (s == []) ≡ false → (sanitize s == []) ≡ false
unfolding sanitize text_discrete
sanitize-nonempty [] h = h
sanitize-nonempty (c ∷ s) h = refl

pub append_assoc : (a b c : Text) → (a ++ b) ++ c ≡ a ++ (b ++ c)
append_assoc [] b c = refl
append_assoc (x ∷ a) b c = ap (◌∷◌ x) (append_assoc a b c)
