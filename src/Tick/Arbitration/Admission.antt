-- ===== src/Tick/Arbitration/Admission.antt =====
-- What `Admit` removes, and which channels it says that the newcomer must wait for.
use neurosymbolic_system.Base.{
  ◌≤◌, ◌<◌, ◌≡◌, refl, sym, ap, ◌∙◌, inl, inr, Bool, true, false, not, ◌&&◌, Option, none, List, [],
  ◌∷◌, ◌++◌, map, Text, ◌==◌, ltb, mem, any, All, All-append, All-map, All-zip, Bool-cases, GoMap,
  any-keep-false, any-at, All_any, mem-sort, mem-keep, Distinct, arith,
}
use neurosymbolic_system.Tick.Behavior.{priority, Contribution, Behavior, claims}
use neurosymbolic_system.Tick.Arbitration.{
  abstains, beats, consider, best_from, id_of, arbitrate, owner_at, is_stoppable, is_stopping,
  is_passive, shares_channel, evicted_by, evictions, survivors, admit,
}
use neurosymbolic_system.Tick.Arbitration.Owner.{contends, Wins, best_from-none, lookup-arbitrate}

-- The id is that of a live behavior.
unfoldable pub has_id : {F : Type 0} → Text → List (Behavior F) → Bool
has_id id = any (λ b. b.id == id)

abbrev pub ids : {F : Type 0} → List (Behavior F) → List Text
ids = map (λ b. b.id)

true_ne_false : true ≡ false → ⊥
true_ne_false e = cc

module _ {F : Type 0} where
  -- the newcomer removes this behavior
  unfoldable pub removes : Behavior F → Behavior F → Bool
  removes new b = is_stopping new.class && (is_stoppable b.class && shares_channel b new)

  -- some behavior that stays claims the channel at a higher class than the newcomer's
  unfoldable pub outranked : Behavior F → Text → List (Behavior F) → Bool
  outranked new channel = any (λ b. claims b channel && ltb (priority new.class) (priority b.class))

  mem-evicted_by_fresh :
      (id : Text) (new : Behavior F) (behaviors : List (Behavior F))
      → mem id (ids behaviors) ≡ false
      → mem id (evicted_by new behaviors) ≡ false
  unfolding evicted_by mem any
  mem-evicted_by_fresh id new [] h = refl
  mem-evicted_by_fresh id new (b ∷ rest) h = ground (arith, mem-evicted_by_fresh id new rest)

  ids-All :
      (id : Text) (behaviors : List (Behavior F))
      → mem id (ids behaviors) ≡ false
      → All (λ b. (b.id == id) ≡ false) behaviors
  unfolding mem any
  ids-All id [] h = tt
  ids-All id (b ∷ rest) h = (ground arith, ids-All id rest (ground arith))

  evicted_by-step :
      (new b c : Behavior F) (rest : List (Behavior F))
      → (c.id == b.id) ≡ false
      → mem c.id (evicted_by new rest) ≡ (is_stoppable c.class && shares_channel c new)
      → mem c.id (evicted_by new (b ∷ rest)) ≡ (is_stoppable c.class && shares_channel c new)
  unfolding evicted_by mem any
  evicted_by-step new b c rest h k = ground arith

  evicted_by-head :
      (new b : Behavior F) (rest : List (Behavior F))
      → mem b.id (ids rest) ≡ false
      → mem b.id (evicted_by new (b ∷ rest)) ≡ (is_stoppable b.class && shares_channel b new)
  unfolding evicted_by mem any
  evicted_by-head new b rest h = ground (arith, mem-evicted_by_fresh b.id new rest h)

  evicted_by-All :
      (new : Behavior F) (behaviors : List (Behavior F))
      → Distinct (ids behaviors)
      → All
          (λ b.
            mem b.id (evicted_by new behaviors) ≡ (is_stoppable b.class && shares_channel b new))
          behaviors
  evicted_by-All new [] d = tt
  evicted_by-All new (b ∷ rest) d = (
    evicted_by-head new b rest d.0,
    All-zip (λ c h k. evicted_by-step new b c rest h k) rest (ids-All b.id rest d.0)
        (evicted_by-All new rest d.1),
  )

  -- Where the live ids are distinct, an admission removes exactly the stoppable behaviors that
  -- share a channel with a stopping newcomer: nothing else is in `evicted`.
  pub admit-evicted :
      (channels : List Text) (new : Behavior F) (behaviors : List (Behavior F))
      → Distinct (ids behaviors)
      → All (λ b. mem b.id (admit channels new behaviors).evicted ≡ removes new b) behaviors
  unfolding admit evictions removes mem any
  admit-evicted channels new behaviors d =
      All-map (λ b h. ground arith) behaviors (evicted_by-All new behaviors d)

  best_from-append :
      (contribs : Option (GoMap (Contribution F))) (channel : Text) (best : Option (Behavior F))
      (xs ys : List (Behavior F))
      → best_from contribs channel best (xs ++ ys)
        ≡ best_from contribs channel (best_from contribs channel best xs) ys
  unfolding best_from
  best_from-append contribs channel best [] ys = refl
  best_from-append contribs channel best (x ∷ xs) ys =
      best_from-append contribs channel (consider contribs channel best x) xs ys

  module _ (channel : Text) (new : Behavior F) (stay : List (Behavior F)) where
    outranked_idle :
        All (λ c. contends none channel c ≡ false) stay → outranked new channel stay ≡ false
    unfolding outranked abstains
    outranked_idle idle = All_any _ stay (All-map (λ c h. ground arith) stay idle)

    outranked_below :
        (b : Behavior F)
        → Wins none channel stay b
        → priority b.class ≤ priority new.class
        → outranked new channel stay ≡ false
    unfolding outranked abstains
    outranked_below b w le = rw w.split (
        All_any _ _ (
          All-append _ w.older (b ∷ w.newer) (All-map (λ c h. ground arith) w.older w.over_older)
            (ground arith, All-map (λ c h. ground arith) w.newer w.over_newer)))

    outranked_above :
        (b : Behavior F)
        → Wins none channel stay b
        → priority new.class < priority b.class
        → outranked new channel stay ≡ true
    unfolding outranked abstains
    outranked_above b w lt = any-at _ w.older b w.newer w.split (ground (arith, w.contending))

    Wins-id :
        (b : Behavior F)
        → Wins none channel stay b
        → has_id new.id stay ≡ false
        → (b.id == new.id) ≡ false
    unfolding has_id
    Wins-id b w fresh = elim (Bool-cases (b.id == new.id)) [
      | inr e ↦ e
      | inl e ↦ absurd (true_ne_false (sym (any-at _ w.older b w.newer w.split e) ∙ fresh))
    ]

    -- the newcomer against the winner of those that stay
    consider-last :
        claims new channel ≡ true
        → has_id new.id stay ≡ false
        → (id_of (consider none channel (best_from none channel none stay) new) == new.id)
          ≡ not (outranked new channel stay)
    unfolding consider beats abstains
    consider-last h fresh = elim (best_from-none none channel stay) [
      | inl (e, idle) ↦ rw e (ground (arith, outranked_idle idle))
      | inr (b, e, w) ↦
          rw e (ground (arith, outranked_below b w, outranked_above b w, Wins-id b w fresh))
    ]

  has_id-survivors :
      (id : Text) (evicted : List Text) (behaviors : List (Behavior F))
      → has_id id behaviors ≡ false
      → has_id id (survivors evicted behaviors) ≡ false
  unfolding has_id survivors
  has_id-survivors id evicted behaviors h = any-keep-false _ _ behaviors h

  owner-newcomer :
      (channel : Text) (channels : List Text) (new : Behavior F) (stay : List (Behavior F))
      → mem channel channels ≡ true
      → owner_at (arbitrate channels (stay ++ new ∷ []) none) channel
        ≡ id_of (consider none channel (best_from none channel none stay) new)
  unfolding owner_at best_from
  owner-newcomer channel channels new stay declared =
      rw (lookup-arbitrate channel channels (stay ++ new ∷ []) none, declared, owner_at)
        (ap id_of (best_from-append none channel none stay (new ∷ [])))

  -- A newcomer that is not passive, whose id is new and whose channels are declared, is told to wait
  -- for exactly those of its channels that a behavior which stays claims at a higher class.
  pub admit-blocked :
      (channel : Text) (channels : List Text) (new : Behavior F) (behaviors : List (Behavior F))
      → is_passive new.class ≡ false
      → has_id new.id behaviors ≡ false
      → mem channel channels ≡ true
      → mem channel (admit channels new behaviors).blocked ≡ (
          claims new channel
          && outranked new channel (survivors (admit channels new behaviors).evicted behaviors))
  unfolding admit claims
  admit-blocked channel channels new behaviors active fresh declared =
      let evicted = evictions new behaviors in
      let stay = survivors evicted behaviors in
      rw (active, mem-sort, mem-keep, owner-newcomer channel channels new stay declared)
        (ground
          (arith, consider-last channel new stay, has_id-survivors new.id evicted behaviors fresh))
