-- ===== src/Base/Pigeonhole.antt =====
-- Distinct names that all stand in a list are no more than its elements.
use Prim.Native.Nat.{◌+◌, ◌≤◌}
use mathlib.Core.Path.{◌≡◌, refl}
use mathlib.Core.Logic.{inl, inr}
use mathlib.Core.Bool.{Bool, true, false, ◌||◌}
use mathlib.Core.List.{List, [], ◌∷◌, ◌++◌, map}
use native.Mathlib.Omega.{arith}
use neurosymbolic_system.Base.Tests.{Text, ◌==◌, if◌then◌else◌, Bool-cases}
use neurosymbolic_system.Base.Lists.{length, mem, any, All, All-zip, Distinct, keep}

erase : Text → List Text → List Text
erase k [] = []
erase k (x ∷ xs) = if k == x then xs else x ∷ erase k xs

length-erase : (k : Text) (xs : List Text) → mem k xs ≡ true → length (erase k xs) + 1 ≡ length xs
unfolding erase mem any
length-erase k [] h = absurd (ground arith)
length-erase k (x ∷ xs) h = ground (arith, length-erase k xs)

mem-erase :
    (j k : Text) (xs : List Text) → mem j xs ≡ true → (k == j) ≡ false → mem j (erase k xs) ≡ true
unfolding erase mem any
mem-erase j k [] h d = absurd (ground arith)
mem-erase j k (x ∷ xs) h d = ground (arith, mem-erase j k xs)

others-All : (k : Text) (xs : List Text) → mem k xs ≡ false → All (λ x. (k == x) ≡ false) xs
unfolding mem any
others-All k [] h = tt
others-All k (x ∷ xs) h = (ground arith, others-All k xs (ground arith))

pub pigeonhole :
    (xs ys : List Text) → Distinct xs → All (λ x. mem x ys ≡ true) xs → length xs ≤ length ys
pigeonhole [] ys d h = omega arith
pigeonhole (x ∷ xs) ys d h = omega (
  arith,
  length-erase x ys h.0,
  pigeonhole xs (erase x ys) d.1
      (All-zip (λ j p q. mem-erase j x ys p q) xs h.1 (others-All x xs d.0)),
)

-- Distinct lists grow at the end by a new name, and stay distinct under a filter.
pub mem-append_one : (k x : Text) (xs : List Text) → mem k (xs ++ x ∷ []) ≡ (mem k xs || k == x)
unfolding mem any
mem-append_one k x [] = ground arith
mem-append_one k x (y ∷ ys) = ground (arith, mem-append_one k x ys)

pub Distinct-append_one :
    (xs : List Text) (x : Text) → Distinct xs → mem x xs ≡ false → Distinct (xs ++ x ∷ [])
unfolding mem any
Distinct-append_one [] x d h = (refl, tt)
Distinct-append_one (y ∷ ys) x d h =
    (ground (arith, mem-append_one y x ys, d.0), Distinct-append_one ys x d.1 (ground arith))

module _ {ℓ} {A : Type ℓ} (f : A → Text) (p : A → Bool) where
  pub mem-map-keep :
      (k : Text) (xs : List A) → mem k (map f xs) ≡ false → mem k (map f (keep p xs)) ≡ false
  unfolding mem any keep
  mem-map-keep k [] h = h
  mem-map-keep k (x ∷ xs) h = ground (arith, mem-map-keep k xs)

  pub Distinct-map-keep : (xs : List A) → Distinct (map f xs) → Distinct (map f (keep p xs))
  unfolding keep
  Distinct-map-keep [] d = tt
  Distinct-map-keep (x ∷ xs) d = elim (Bool-cases (p x)) [
    | inl e ↦ rw e (mem-map-keep (f x) xs d.0, Distinct-map-keep xs d.1)
    | inr e ↦ rw e (Distinct-map-keep xs d.1)
  ]
