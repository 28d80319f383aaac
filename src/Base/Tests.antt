-- ===== src/Base/Tests.antt =====
-- Boolean tests on the native numbers and on Go strings, and the conditional.
use Prim.Native.Nat.{ℕ, compare, Ordering}
use mathlib.Core.Path.{◌≡◌, refl, ap}
use mathlib.Core.Logic.{◌↔◌, ◌⊎◌, inl, inr}
use mathlib.Core.Bool.{Bool, true, false}
use mathlib.Core.List.{List, [], ◌∷◌}
use mathlib.Core.Option.{Option, none, some}
use native.Mathlib.Decide.{ℕ_discrete}
use native.Mathlib.Omega.{arith}

abbrev pub ltb : ℕ → ℕ → Bool
ltb a b = elim (compare a b) [ Ordering.lt ↦ true | _ ↦ false ]

abbrev pub leb : ℕ → ℕ → Bool
leb a b = elim (compare a b) [ Ordering.gt ↦ false | _ ↦ true ]

abbrev pub eqb : ℕ → ℕ → Bool
eqb a b = elim (compare a b) [ Ordering.eq ↦ true | _ ↦ false ]

infix 1 if◌then◌else◌
abbrev pub if◌then◌else◌ {ℓ} : {A : Type ℓ} → Bool → A → A → A
if true then x else y = x
if false then x else y = y

-- A Go string: its bytes.
abbrev pub Text : Type 0
Text = List ℕ

tail_of : Text → Text
tail_of [] = []
tail_of (_ ∷ s) = s

pub head-eq : (a b : ℕ) (s t : Text) → a ∷ s ≡ b ∷ t → a ≡ b
head-eq a b s t e = cc

unfoldable pub text_discrete : Discrete Text
unfolding ℕ_discrete tail_of
text_discrete [] [] = yes refl
text_discrete [] (b ∷ t) = no (λ e. cc)
text_discrete (a ∷ s) [] = no (λ e. cc)
text_discrete (a ∷ s) (b ∷ t) = join (ℕ_discrete a b) (text_discrete s t)
  where
    join : Dec (a ≡ b) → Dec (s ≡ t) → Dec (a ∷ s ≡ b ∷ t)
    join (yes p) (yes q) = yes (λ i. p i ∷ q i)
    join (no p) _ = no (λ e. p (head-eq a b s t e))
    join (yes p) (no q) = no (λ e. q (ap tail_of e))

abbrev pub is_yes {ℓ} : {A : Type ℓ} → Dec A → Bool
is_yes (yes _) = true
is_yes (no _) = false

infix 50 ◌==◌
abbrev pub ◌==◌ : Text → Text → Bool
a == b = is_yes (text_discrete a b)

pub ==_iff : (a b : Text) → ((a == b) ≡ true) ↔ (a ≡ b)
==_iff a b = ground arith

pub ==_refl : (a : Text) → (a == a) ≡ true
==_refl a = ground arith

pub ==_comm : (a b : Text) → (a == b) ≡ (b == a)
==_comm a b = ground arith

-- To split on a computed value and keep the equation.
pub Bool-cases : (b : Bool) → (b ≡ true) ⊎ (b ≡ false)
Bool-cases true = inl refl
Bool-cases false = inr refl

pub Option-cases {ℓ} : {A : Type ℓ} (o : Option A) → (o ≡ none) ⊎ ((a : A) × (o ≡ some a))
Option-cases none = inl refl
Option-cases (some a) = inr (a, refl)

-- A call that may panic, and what is done with its result.
abbrev pub and_then {ℓ κ} : {A : Type ℓ} {B : Type κ} → Option A → (A → Option B) → Option B
and_then none f = none
and_then (some a) f = f a

abbrev pub is_some {ℓ} : {A : Type ℓ} → Option A → Bool
is_some none = false
is_some (some _) = true
