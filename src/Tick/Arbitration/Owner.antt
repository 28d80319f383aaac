-- ===== src/Tick/Arbitration/Owner.antt =====
-- Who owns a channel: the result of `Arbitrate` against a description that names no loop.
use neurosymbolic_system.Base.{
  ◌≤◌, ◌<◌, ◌≡◌, refl, ap, ◌⊎◌, inl, inr, Bool, true, false, not, ◌&&◌, Option, none, some, List,
  [], ◌∷◌, ◌++◌, Text, if◌then◌else◌, mem, any, All, Bool-cases, GoMap, lookup, insert,
  lookup-insert, arith,
}
use neurosymbolic_system.Tick.Behavior.{priority, Contribution, Behavior, claims}
use neurosymbolic_system.Tick.Arbitration.{
  unowned, abstains, beats, consider, best_from, id_of, arbitrate_from, arbitrate,
}

module _ {F : Type 0} (contribs : Option (GoMap (Contribution F))) (channel : Text) where
  -- the behavior claims the channel and has something to say on it
  abbrev pub contends : Behavior F → Bool
  contends b = claims b channel && not (abstains contribs channel b)

  -- `b` has the highest class of those that contend, and is the latest of its class.
  pub record Wins (behaviors : List (Behavior F)) (b : Behavior F) : Type 0 where
    pub older : List (Behavior F)
    pub newer : List (Behavior F)
    pub split : behaviors ≡ older ++ b ∷ newer
    pub contending : contends b ≡ true
    pub over_older : All (λ c. contends c ≡ true → priority c.class ≤ priority b.class) older
    pub over_newer : All (λ c. contends c ≡ true → priority c.class < priority b.class) newer

  Wins-older :
      {b : Behavior F} {behaviors : List (Behavior F)} (c : Behavior F)
      → (contends c ≡ true → priority c.class ≤ priority b.class)
      → Wins behaviors b
      → Wins (c ∷ behaviors) b
  Wins-older c h w = record {
    older = c ∷ w.older;
    newer = w.newer;
    split = ap (◌∷◌ c) w.split;
    contending = w.contending;
    over_older = (h, w.over_older);
    over_newer = w.over_newer;
  }

  Wins-first :
      {b : Behavior F} {behaviors : List (Behavior F)}
      → contends b ≡ true
      → All (λ c. contends c ≡ true → priority c.class < priority b.class) behaviors
      → Wins (b ∷ behaviors) b
  Wins-first {behaviors = behaviors} h a = record {
    older = [];
    newer = behaviors;
    split = refl;
    contending = h;
    over_older = tt;
    over_newer = a;
  }

  consider-idle :
      (best : Option (Behavior F)) (b : Behavior F)
      → contends b ≡ false
      → consider contribs channel best b ≡ best
  unfolding consider
  consider-idle best b h = ground arith

  consider-first : (b : Behavior F) → contends b ≡ true → consider contribs channel none b ≡ some b
  unfolding consider beats
  consider-first b h = ground arith

  consider-over :
      (a b : Behavior F)
      → contends b ≡ true
      → (priority a.class ≤ priority b.class) × (consider contribs channel (some a) b ≡ some b)
        ⊎ (priority b.class < priority a.class) × (consider contribs channel (some a) b ≡ some a)
  unfolding consider beats
  consider-over a b h = ground arith

  -- Either the best so far stays, or it is overtaken by the winner of the rest.
  best_from-some :
      (a : Behavior F) (behaviors : List (Behavior F))
      → (best_from contribs channel (some a) behaviors ≡ some a)
          × All (λ c. contends c ≡ true → priority c.class < priority a.class) behaviors
        ⊎ ((b : Behavior F) × (best_from contribs channel (some a) behaviors ≡ some b)
            × (priority a.class ≤ priority b.class)
            × Wins behaviors b)
  unfolding best_from
  best_from-some a [] = inl (refl, tt)
  best_from-some a (b ∷ rest) = elim (Bool-cases (contends b)) [
    | inr idle ↦ rw (consider-idle (some a) b idle) (elim (best_from-some a rest) [
      | inl (e, h) ↦ inl (e, ((λ p. cc), h))
      | inr (c, e, le, w) ↦ inr (c, e, le, Wins-older b (λ p. cc) w)
    ])
    | inl live ↦ elim (consider-over a b live) [
      | inl (le, over) ↦ rw over (elim (best_from-some b rest) [
        | inl (e, h) ↦ inr (b, e, le, Wins-first live h)
        | inr (c, e, le', w) ↦ inr (c, e, omega arith, Wins-older b (λ _. le') w)
      ])
      | inr (lt, under) ↦ rw under (elim (best_from-some a rest) [
        | inl (e, h) ↦ inl (e, ((λ _. lt), h))
        | inr (c, e, le, w) ↦ inr (c, e, le, Wins-older b (λ _. omega arith) w)
      ])
    ]
  ]

  pub best_from-none :
      (behaviors : List (Behavior F))
      → (best_from contribs channel none behaviors ≡ none) × All (λ c. contends c ≡ false) behaviors
        ⊎ ((b : Behavior F) × (best_from contribs channel none behaviors ≡ some b)
            × Wins behaviors b)
  unfolding best_from
  best_from-none [] = inl (refl, tt)
  best_from-none (b ∷ rest) = elim (Bool-cases (contends b)) [
    | inr idle ↦ rw (consider-idle none b idle) (elim (best_from-none rest) [
      | inl (e, h) ↦ inl (e, (idle, h))
      | inr (c, e, w) ↦ inr (c, e, Wins-older b (λ p. cc) w)
    ])
    | inl live ↦ rw (consider-first b live) (elim (best_from-some b rest) [
      | inl (e, h) ↦ inr (b, e, Wins-first live h)
      | inr (c, e, le, w) ↦ inr (c, e, Wins-older b (λ _. le) w)
    ])
  ]

module _ {F : Type 0} where
  lookup-arbitrate_from :
      (channel : Text) (owners : GoMap Text) (channels : List Text) (behaviors : List (Behavior F))
      (contribs : Option (GoMap (Contribution F)))
      → lookup channel (arbitrate_from owners channels behaviors contribs) ≡ (
          if mem channel channels
          then some (id_of (best_from contribs channel none behaviors))
          else lookup channel owners)
  unfolding arbitrate_from mem any
  lookup-arbitrate_from channel owners [] behaviors contribs = refl
  lookup-arbitrate_from channel owners (c ∷ rest) behaviors contribs = ground (
    arith,
    lookup-arbitrate_from channel (insert c (id_of (best_from contribs c none behaviors)) owners)
        rest behaviors contribs,
    lookup-insert c channel (id_of (best_from contribs c none behaviors)) owners,
  )

  pub lookup-arbitrate :
      (channel : Text) (channels : List Text) (behaviors : List (Behavior F))
      (contribs : Option (GoMap (Contribution F)))
      → lookup channel (arbitrate channels behaviors contribs) ≡ (
          if mem channel channels
          then some (id_of (best_from contribs channel none behaviors))
          else none)
  unfolding arbitrate lookup
  lookup-arbitrate channel channels behaviors contribs =
      lookup-arbitrate_from channel [] channels behaviors contribs

  -- Every declared channel gets one owner and no other channel gets any; the owner is the id of the
  -- contending behavior that has the highest class and, within it, was admitted last, or `unowned`
  -- where no behavior contends.
  pub arbitrate-Wins :
      (channel : Text) (channels : List Text) (behaviors : List (Behavior F))
      (contribs : Option (GoMap (Contribution F)))
      → (mem channel channels ≡ false)
          × (lookup channel (arbitrate channels behaviors contribs) ≡ none)
        ⊎ ((mem channel channels ≡ true)
            × ((lookup channel (arbitrate channels behaviors contribs) ≡ some unowned)
                  × All (λ c. contends contribs channel c ≡ false) behaviors
                ⊎ ((b : Behavior F) × (lookup channel (arbitrate channels behaviors contribs)
                      ≡ some b.id)
                    × Wins contribs channel behaviors b)))
  arbitrate-Wins channel channels behaviors contribs =
      rw (lookup-arbitrate channel channels behaviors contribs)
        (elim (Bool-cases (mem channel channels)) [
          | inr out ↦ rw out (inl (refl, refl))
          | inl declared ↦ rw declared (elim (best_from-none contribs channel behaviors) [
            | inl (e, idle) ↦ rw e (inr (refl, inl (refl, idle)))
            | inr (b, e, w) ↦ rw e (inr (refl, inr (b, refl, w)))
          ])
        ])
