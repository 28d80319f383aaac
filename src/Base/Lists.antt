-- ===== src/Base/Lists.antt =====
-- Go slices as lists: membership, counting, filtering by a Boolean test, and predicates on elements.
use mathlib.Core.Path.{◌≡◌, refl}
use mathlib.Core.Logic.{inl, inr}
use mathlib.Core.Bool.{Bool, true, false, ◌&&◌, ◌||◌}
use mathlib.Core.List.{List, [], ◌∷◌, ◌++◌}
use native.Mathlib.Omega.{arith}
use Prim.Native.Nat.{ℕ, suc, ◌+◌, ◌≤◌}
use neurosymbolic_system.Base.Tests.{Text, ◌==◌, ltb, eqb, if◌then◌else◌, Bool-cases}

module _ {ℓ} {A : Type ℓ} where
  abbrev pub length : List A → ℕ
  length [] = 0
  length (x ∷ xs) = suc (length xs)

  -- `for … { if p(x) { out = append(out, x) } }`
  unfoldable pub keep : (A → Bool) → List A → List A
  keep p [] = []
  keep p (x ∷ xs) = if p x then x ∷ keep p xs else keep p xs

  unfoldable pub any : (A → Bool) → List A → Bool
  any p [] = false
  any p (x ∷ xs) = p x || any p xs

  pub length-append : (xs ys : List A) → length (xs ++ ys) ≡ length xs + length ys
  length-append [] ys = omega arith
  length-append (x ∷ xs) ys = omega (arith, length-append xs ys)

  pub length-keep-le : (p : A → Bool) (xs : List A) → length (keep p xs) ≤ length xs
  unfolding keep
  length-keep-le p [] = omega arith
  length-keep-le p (x ∷ xs) = ground (arith, length-keep-le p xs)

  pub any-append : (p : A → Bool) (xs ys : List A) → any p (xs ++ ys) ≡ (any p xs || any p ys)
  unfolding any
  any-append p [] ys = refl
  any-append p (x ∷ xs) ys = ground (arith, any-append p xs ys)

  pub keep-append : (p : A → Bool) (xs ys : List A) → keep p (xs ++ ys) ≡ keep p xs ++ keep p ys
  unfolding keep
  keep-append p [] ys = refl
  keep-append p (x ∷ xs) ys = ground (arith, keep-append p xs ys)

module _ {ℓ κ} {A : Type ℓ} where
  abbrev pub All : (A → Type κ) → List A → Type κ
  All P [] = Unit
  All P (x ∷ xs) = P x × All P xs

  pub All-append : (P : A → Type κ) (xs ys : List A) → All P xs → All P ys → All P (xs ++ ys)
  All-append P [] ys hx hy = hy
  All-append P (x ∷ xs) ys hx hy = (hx.0, All-append P xs ys hx.1 hy)

pub All-map {ℓ κ μ} :
    {A : Type ℓ} {P : A → Type κ} {Q : A → Type μ} (f : (x : A) → Q x → P x) (xs : List A)
    → All Q xs
    → All P xs
All-map f [] h = tt
All-map f (x ∷ xs) h = (f x h.0, All-map f xs h.1)

module _ {ℓ κ} {A : Type ℓ} where
  pub All-keep : (P : A → Type κ) (p : A → Bool) (xs : List A) → All P xs → All P (keep p xs)
  unfolding keep
  All-keep P p [] h = tt
  All-keep P p (x ∷ xs) h = elim (Bool-cases (p x)) [
    | inl e ↦ rw e (h.0, All-keep P p xs h.1)
    | inr e ↦ rw e (All-keep P p xs h.1)
  ]

-- `containsString`, and the test of a `map[string]bool`.
unfoldable pub mem : Text → List Text → Bool
mem k xs = any (λ x. k == x) xs

-- No name twice.
abbrev pub Distinct : List Text → Type 0
Distinct [] = Unit
Distinct (x ∷ xs) = (mem x xs ≡ false) × Distinct xs

-- `sort.Strings`: bytewise order, by insertion.
unfoldable pub text_leb : Text → Text → Bool
text_leb [] t = true
text_leb (a ∷ s) [] = false
text_leb (a ∷ s) (b ∷ t) =
    let rest = text_leb s t in if ltb a b then true else if eqb a b then rest else false

unfoldable pub insert_sorted : Text → List Text → List Text
insert_sorted k [] = k ∷ []
insert_sorted k (x ∷ xs) = if text_leb k x then k ∷ x ∷ xs else x ∷ insert_sorted k xs

unfoldable pub sort : List Text → List Text
sort [] = []
sort (x ∷ xs) = insert_sorted x (sort xs)

pub mem-insert_sorted :
    (k x : Text) (xs : List Text) → mem k (insert_sorted x xs) ≡ (k == x || mem k xs)
unfolding mem any insert_sorted
mem-insert_sorted k x [] = refl
mem-insert_sorted k x (y ∷ ys) = ground (arith, mem-insert_sorted k x ys)

pub mem-sort : (k : Text) (xs : List Text) → mem k (sort xs) ≡ mem k xs
unfolding mem any sort
mem-sort k [] = refl
mem-sort k (x ∷ xs) = ground (arith, mem-insert_sorted k x (sort xs), mem-sort k xs)

pub mem-keep : (k : Text) (p : Text → Bool) (xs : List Text) → mem k (keep p xs) ≡ (p k && mem k xs)
unfolding mem any keep
mem-keep k p [] = ground arith
mem-keep k p (x ∷ xs) = ground (arith, mem-keep k p xs)

module _ {ℓ} {A : Type ℓ} where
  pub any-keep-false : (q p : A → Bool) (xs : List A) → any q xs ≡ false → any q (keep p xs) ≡ false
  unfolding any keep
  any-keep-false q p [] h = refl
  any-keep-false q p (x ∷ xs) h = ground (arith, any-keep-false q p xs)

  -- an element at a known place
  pub any-at :
      (q : A → Bool) (xs : List A) (x : A) (ys : List A) {zs : List A}
      → zs ≡ xs ++ x ∷ ys
      → q x ≡ true
      → any q zs ≡ true
  unfolding any
  any-at q xs x ys e h = rw (e, any-append q xs (x ∷ ys), h) (ground arith)

  pub any_All : (q : A → Bool) (xs : List A) → any q xs ≡ false → All (λ x. q x ≡ false) xs
  unfolding any
  any_All q [] h = tt
  any_All q (x ∷ xs) h = (ground arith, any_All q xs (ground arith))

  pub All_any : (q : A → Bool) (xs : List A) → All (λ x. q x ≡ false) xs → any q xs ≡ false
  unfolding any
  All_any q [] h = refl
  All_any q (x ∷ xs) h = ground (arith, All_any q xs h.1)

pub All-zip {ℓ κ μ ν} :
    {A : Type ℓ} {P : A → Type κ} {Q : A → Type μ} {R : A → Type ν} (f : (x : A) → P x → Q x → R x)
    (xs : List A)
    → All P xs
    → All Q xs
    → All R xs
All-zip f [] h k = tt
All-zip f (x ∷ xs) h k = (f x h.0 k.0, All-zip f xs h.1 k.1)

pub Distinct-insert_sorted :
    (k : Text) (xs : List Text) → mem k xs ≡ false → Distinct xs → Distinct (insert_sorted k xs)
unfolding insert_sorted mem any
Distinct-insert_sorted k [] new d = (refl, tt)
Distinct-insert_sorted k (x ∷ xs) new d = elim (Bool-cases (text_leb k x)) [
  | inl p ↦ rw p (new, d)
  | inr p ↦
      let later : mem k xs ≡ false = ground arith in
      rw p (ground (arith, mem-insert_sorted x k xs), Distinct-insert_sorted k xs later d.1)
]

pub Distinct-sort : (xs : List Text) → Distinct xs → Distinct (sort xs)
unfolding sort
Distinct-sort [] d = tt
Distinct-sort (x ∷ xs) d =
    Distinct-insert_sorted x (sort xs) (ground (arith, mem-sort x xs)) (Distinct-sort xs d.1)

pub Distinct-snoc :
    (xs : List Text) (k : Text) → mem k xs ≡ false → Distinct xs → Distinct (xs ++ k ∷ [])
unfolding mem any
Distinct-snoc [] k new d = (refl, tt)
Distinct-snoc (x ∷ xs) k new d =
    let later : mem k xs ≡ false = ground arith in
    (ground (arith, any-append (λ y. x == y) xs (k ∷ [])), Distinct-snoc xs k later d.1)
