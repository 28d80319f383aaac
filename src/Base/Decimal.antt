-- ===== src/Base/Decimal.antt =====
-- `%d` of the fmt package, on a number that is not negative: its decimal digits, and that they
-- determine it.
use Prim.Native.Nat.{ℕ, zero, suc, ◌+◌, ◌-◌, ◌*◌, ◌/◌, ◌%◌, ◌<◌}
use mathlib.Core.Path.{◌≡◌, refl, sym, ap, ◌∙◌}
use mathlib.Core.List.{[], ◌∷◌, ◌++◌}
use mathlib.Core.Logic.{inl, inr}
use native.Mathlib.Omega.{arith}
use neurosymbolic_system.Base.Tests.{Text, if◌then◌else◌, ltb, Bool-cases}

-- with enough fuel, which `n` itself is
unfoldable pub digits_from : ℕ → ℕ → Text
digits_from zero n = []
digits_from (suc fuel) n =
    let front = digits_from fuel (n / 10) in
    if ltb n 10 then (n + b'0') ∷ [] else front ++ (n % 10 + b'0') ∷ []

unfoldable pub decimal : ℕ → Text
unfolding digits_from
decimal n = digits_from (suc n) n

-- the number that digits stand for
value_from : ℕ → Text → ℕ
value_from acc [] = acc
value_from acc (d ∷ ds) = value_from (acc * 10 + (d - b'0')) ds

value_from-append :
    (acc : ℕ) (s : Text) (d : ℕ) → value_from acc (s ++ d ∷ []) ≡ value_from acc s * 10 + (d - b'0')
unfolding value_from
value_from-append acc [] d = refl
value_from-append acc (c ∷ s) d = value_from-append (acc * 10 + (c - b'0')) s d

value_from-digits : (fuel n : ℕ) → n < fuel → value_from 0 (digits_from fuel n) ≡ n
unfolding digits_from
value_from-digits zero n h = absurd (omega arith)
value_from-digits (suc fuel) n h = elim (Bool-cases (ltb n 10)) [
  | inl small ↦ rw small (unfold value_from in omega arith)
  | inr big ↦
      let lt : n / 10 < fuel = ground arith in
      rw (big, value_from-append, value_from-digits fuel (n / 10) lt) (omega arith)
]

pub decimal-injective : (m n : ℕ) → decimal m ≡ decimal n → m ≡ n
unfolding decimal
decimal-injective m n e =
    sym (value_from-digits (suc m) m (omega arith))
    ∙ (ap (value_from 0) e ∙ value_from-digits (suc n) n (omega arith))

drop_head : Text → Text
drop_head [] = []
drop_head (_ ∷ s) = s

pub append_cancel : (s t u : Text) → s ++ t ≡ s ++ u → t ≡ u
append_cancel [] t u e = e
append_cancel (c ∷ s) t u e = append_cancel s t u (unfold drop_head in ap drop_head e)
