-- ===== src/Rules/Load/Merging.antt =====
-- The merge of two layers of internal/rules/load.go, of rules or of events.
use neurosymbolic_system.Base.{
  ◌≡◌, refl, sym, ap, ◌∙◌, inl, inr, Bool, true, false, Option, none, some, List, [], ◌∷◌, map,
  Text, ◌==◌, if◌then◌else◌, mem, any, All, All-map, Distinct, Bool-cases, Option-cases, ==_refl,
  arith,
}
use mathlib.Core.Path.{subst}
use neurosymbolic_system.Rules.Load.{prefer, last_by, winner, cons_some, merge_by}

mem-here : (k j : Text) (seen : List Text) → (k == j) ≡ true → mem k (j ∷ seen) ≡ true
unfolding mem any
mem-here k j seen h = ground arith

mem-there : (k j : Text) (seen : List Text) → (k == j) ≡ false → mem k (j ∷ seen) ≡ mem k seen
unfolding mem any
mem-there k j seen h = ground arith

module _ {A : Type 0} (key : A → Text) where
  -- the entry of an id
  abbrev pub first_by : Text → List A → Option A
  first_by k [] = none
  first_by k (a ∷ rest) = if k == key a then some a else first_by k rest

  HasKey : Text → Option A → Type 0
  HasKey k none = Unit
  HasKey k (some a) = key a ≡ k

  last_by-HasKey : (k : Text) (xs : List A) → HasKey k (last_by key k xs)
  unfolding last_by HasKey
  last_by-HasKey k [] = tt
  last_by-HasKey k (a ∷ rest) = elim (Option-cases (last_by key k rest)) [
    | inr (b, e) ↦ rw e (subst (HasKey k) e (last_by-HasKey k rest))
    | inl e ↦ elim (Bool-cases (k == key a)) [
      | inl p ↦ rw (e, p) (ground arith)
      | inr p ↦ rw (e, p) tt
    ]
  ]

  winner-HasKey :
      (k : Text) (o : Option A) (removed : Bool) (a : A)
      → HasKey k o
      → key a ≡ k
      → HasKey k (winner o removed a)
  unfolding HasKey
  winner-HasKey k (some b) removed a h e = h
  winner-HasKey k none true a h e = tt
  winner-HasKey k none false a h e = e

  -- what a merge has for an id that an entry of the layers has, if any does
  abbrev pub resolved : List A → List Text → Text → Option A → Option A
  resolved overlay disabled k none = none
  resolved overlay disabled k (some a) = winner (last_by key k overlay) (mem k disabled) a

  first-here :
      (k : Text) (o : Option A) (rest : List A)
      → HasKey k o
      → first_by k rest ≡ none
      → first_by k (cons_some o rest) ≡ o
  unfolding HasKey
  first-here k none rest h e = e
  first-here k (some a) rest h e = rw (h, ==_refl k) refl

  first-there :
      (k j : Text) (o : Option A) (rest : List A)
      → HasKey j o
      → (k == j) ≡ false
      → first_by k (cons_some o rest) ≡ first_by k rest
  unfolding HasKey
  first-there k j none rest h e = refl
  first-there k j (some a) rest h e = rw (h, e) refl

  abbrev OptionAll : (A → Type 0) → Option A → Type 0
  OptionAll P none = Unit
  OptionAll P (some a) = P a

  prefer-All :
      (P : A → Type 0) (o p : Option A) → OptionAll P o → OptionAll P p → OptionAll P (prefer o p)
  prefer-All P none p h k = k
  prefer-All P (some a) p h k = h

  if-All : (P : A → Type 0) (b : Bool) (a : A) → P a → OptionAll P (if b then some a else none)
  if-All P true a h = h
  if-All P false a h = tt

  winner-All :
      (P : A → Type 0) (o : Option A) (removed : Bool) (a : A)
      → OptionAll P o
      → P a
      → OptionAll P (winner o removed a)
  winner-All P (some b) removed a h k = h
  winner-All P none true a h k = tt
  winner-All P none false a h k = k

  cons_some-All :
      (P : A → Type 0) (o : Option A) (rest : List A)
      → OptionAll P o
      → All P rest
      → All P (cons_some o rest)
  cons_some-All P none rest h k = k
  cons_some-All P (some a) rest h k = (h, k)

  module _ (overlay : List A) (disabled : List Text) where
    pub merge_by-first :
        (k : Text) (seen : List Text) (xs : List A)
        → first_by k (merge_by key overlay disabled seen xs)
          ≡ (if mem k seen then none else resolved overlay disabled k (first_by k xs))
    unfolding merge_by
    merge_by-first k seen [] = ground arith
    merge_by-first k seen (a ∷ rest) =
        let o = winner (last_by key (key a) overlay) (mem (key a) disabled) a in
        let named : HasKey (key a) o =
          winner-HasKey (key a) _ (mem (key a) disabled) a (last_by-HasKey (key a) overlay) refl in
        elim (Bool-cases (mem (key a) seen)) [
          | inl old ↦ elim (Bool-cases (k == key a)) [
            | inl here ↦
                let same : k ≡ key a = ground arith in
                let gone : mem k seen ≡ true = ap (λ j. mem j seen) same ∙ old in
                rw old (merge_by-first k seen rest ∙ rw gone refl)
            | inr there ↦ rw (old, there) (merge_by-first k seen rest)
          ]
          | inr new ↦ elim (Bool-cases (k == key a)) [
            | inl here ↦
                let same : k ≡ key a = ground arith in
                let fresh : mem k seen ≡ false = ap (λ j. mem j seen) same ∙ new in
                let taken : mem k (key a ∷ seen) ≡ true = mem-here k (key a) seen here in
                let after : first_by k (merge_by key overlay disabled (key a ∷ seen) rest) ≡ none =
                  merge_by-first k (key a ∷ seen) rest ∙ rw taken refl in
                rw (new, here, fresh)
                  (first-here k o _ (subst (λ j. HasKey j o) (sym same) named) after
                    ∙ ap (λ j. winner (last_by key j overlay) (mem j disabled) a) (sym same))
            | inr there ↦
                let passed : mem k (key a ∷ seen) ≡ mem k seen = mem-there k (key a) seen there in
                rw (new, there)
                  (first-there k (key a) o _ named there
                    ∙ merge_by-first k (key a ∷ seen) rest
                    ∙ rw passed refl)
          ]
        ]

    keys-fresh :
        (j : Text) (xs : List A) → All (λ a. (key a == j) ≡ false) xs → mem j (map key xs) ≡ false
    unfolding mem any
    keys-fresh j [] h = refl
    keys-fresh j (a ∷ rest) h = ground (arith, keys-fresh j rest h.1)

    -- the ids of a merge are new, and each is there once
    abbrev pub Fresh : List Text → List A → Type 0
    Fresh seen xs = Distinct (map key xs) × All (λ a. mem (key a) seen ≡ false) xs

    cons_some-Fresh :
        (j : Text) (seen : List Text) (o : Option A) (rest : List A)
        → HasKey j o
        → mem j seen ≡ false
        → Fresh (j ∷ seen) rest
        → Fresh seen (cons_some o rest)
    unfolding HasKey mem any
    cons_some-Fresh j seen none rest h new f = (f.0, All-map (λ a k. ground arith) rest f.1)
    cons_some-Fresh j seen (some a) rest h new f = (
      (rw h (keys-fresh j rest (All-map (λ a k. ground arith) rest f.1)), f.0),
      (rw h new, All-map (λ a k. ground arith) rest f.1),
    )

    pub merge_by-Fresh :
        (seen : List Text) (xs : List A) → Fresh seen (merge_by key overlay disabled seen xs)
    unfolding merge_by
    merge_by-Fresh seen [] = (tt, tt)
    merge_by-Fresh seen (a ∷ rest) = elim (Bool-cases (mem (key a) seen)) [
      | inl old ↦ rw old (merge_by-Fresh seen rest)
      | inr new ↦ rw new (
          cons_some-Fresh (key a) seen _ _
            (winner-HasKey (key a) _ (mem (key a) disabled) a (last_by-HasKey (key a) overlay) refl)
            new (merge_by-Fresh (key a ∷ seen) rest))
    ]

    last_by-All :
        (P : A → Type 0) (k : Text) (xs : List A) → All P xs → OptionAll P (last_by key k xs)
    unfolding last_by
    last_by-All P k [] h = tt
    last_by-All P k (a ∷ rest) h =
        prefer-All P (last_by key k rest) _ (last_by-All P k rest h.1) (if-All P (k == key a) a h.0)

    pub merge_by-All :
        (P : A → Type 0) (seen : List Text) (xs : List A)
        → All P overlay
        → All P xs
        → All P (merge_by key overlay disabled seen xs)
    unfolding merge_by
    merge_by-All P seen [] h k = tt
    merge_by-All P seen (a ∷ rest) h k = elim (Bool-cases (mem (key a) seen)) [
      | inl old ↦ rw old (merge_by-All P seen rest h k.1)
      | inr new ↦ rw new (
          cons_some-All P _ _
            (winner-All P _ (mem (key a) disabled) a (last_by-All P (key a) overlay h) k.0)
            (merge_by-All P (key a ∷ seen) rest h k.1))
    ]
