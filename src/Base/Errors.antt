-- ===== src/Base/Errors.antt =====
-- Functions that return `(value, error)`: the value, or the refusal.
use mathlib.Core.Path.{◌≡◌, refl, subst}
use mathlib.Core.Logic.{◌⊎◌, inl, inr}
use mathlib.Core.Bool.{Bool, true, false}
use neurosymbolic_system.Base.Tests.{if◌then◌else◌}

pub data Result {ℓ κ} (E : Type κ) (A : Type ℓ) : Type (ℓ ⊔ κ) where
  ok : A → Result E A
  err : E → Result E A

infixl 5 ◌>>=◌
abbrev pub ◌>>=◌ {ℓ κ μ} :
    {E : Type κ} {A : Type ℓ} {B : Type μ} → Result E A → (A → Result E B) → Result E B
err refusal >>= next = err refusal
ok value >>= next = next value

-- the next statement, if this check has passed
infixl 5 ◌>>◌
abbrev pub ◌>>◌ {ℓ κ} : {E : Type κ} {B : Type ℓ} → Result E (Unit {0}) → Result E B → Result E B
check >> next = check >>= (λ passed. next)

-- `if b { return e }`
abbrev pub refuse_if {κ} : {E : Type κ} → Bool → E → Result E (Unit {0})
refuse_if true e = err e
refuse_if false e = ok tt

pub Result-cases {ℓ κ} :
    {E : Type κ} {A : Type ℓ} (r : Result E A) → ((a : A) × (r ≡ ok a)) ⊎ ((e : E) × (r ≡ err e))
Result-cases (ok a) = inl (a, refl)
Result-cases (err e) = inr (e, refl)

-- what a function returns satisfies `P`, if it does not refuse
abbrev pub Accepted {ℓ κ μ} : {E : Type κ} {A : Type ℓ} → (A → Type μ) → Result E A → Type μ
Accepted P (ok a) = P a
Accepted P (err e) = Unit

module _ {ℓ κ μ ν ρ} {E : Type κ} {A : Type ℓ} {B : Type ρ} where
  pub Accepted-bind :
      (Q : A → Type μ) (P : B → Type ν) (r : Result E A) (next : A → Result E B)
      → Accepted Q r
      → ((a : A) → Q a → Accepted P (next a))
      → Accepted P (r >>= next)
  Accepted-bind Q P (ok a) next h k = k a h
  Accepted-bind Q P (err e) next h k = tt

module _ {ℓ κ ν ρ} {E : Type κ} {A : Type ℓ} {B : Type ρ} where
  pub Accepted-next :
      (P : B → Type ν) (r : Result E A) (next : A → Result E B)
      → ((a : A) → r ≡ ok a → Accepted P (next a))
      → Accepted P (r >>= next)
  Accepted-next P (ok a) next k = k a refl
  Accepted-next P (err e) next k = tt

module _ {ℓ κ ν} {E : Type κ} {B : Type ℓ} where
  pub Accepted-refuse :
      (P : B → Type ν) (b : Bool) (e : E) (rest : Result E B)
      → (b ≡ false → Accepted P rest)
      → Accepted P (refuse_if b e >> rest)
  Accepted-refuse P true e rest k = tt
  Accepted-refuse P false e rest k = k refl

  pub Accepted-ok : (P : B → Type ν) (r : Result E B) {b : B} → Accepted P r → r ≡ ok b → P b
  Accepted-ok P r h e = subst (Accepted P) e h

  pub Accepted-if :
      (P : B → Type ν) (b : Bool) (r s : Result E B)
      → (b ≡ true → Accepted P r)
      → (b ≡ false → Accepted P s)
      → Accepted P (if b then r else s)
  Accepted-if P true r s h k = h refl
  Accepted-if P false r s h k = k refl

pub Accepted-map {ℓ κ μ ν} :
    {E : Type κ} {A : Type ℓ} (Q : A → Type μ) (P : A → Type ν) (r : Result E A)
    → ((a : A) → Q a → P a)
    → Accepted Q r
    → Accepted P r
Accepted-map Q P (ok a) f h = f a h
Accepted-map Q P (err e) f h = tt
