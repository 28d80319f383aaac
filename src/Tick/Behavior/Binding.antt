-- ===== src/Tick/Behavior/Binding.antt =====
-- What `Bind` guarantees of a behavior that it does not refuse.
use neurosymbolic_system.Base.{
  ◌≡◌, inl, inr, Bool, true, false, Option, none, some, List, [], ◌∷◌, Text, ◌==◌, mem, any, All,
  All-map, Distinct, All_any, Result-cases, Floats, ok, arith,
}
use neurosymbolic_system.Adaptor.Vocabulary.{Vocabulary, Action, names_of}
use neurosymbolic_system.Tick.Behavior.{
  Behavior, is_valid_class, with_name, bind_action, check_claimed, claimed_channels, bind_channels,
  bind_lifetime, bind,
}

module _ (fl : Floats) where
  open fl use {F, f_zero, f_le, is_nan, is_inf}

  -- a finite positive bound, or a declared loop
  abbrev pub Ends : Option F → Bool → Type 0
  Ends none loops = loops ≡ true
  Ends (some d) loops = (is_nan d ≡ false) × (is_inf d ≡ false) × (f_le d f_zero ≡ false)

  pub record IsBound (v : Vocabulary F) (b : Behavior F) (bound : Behavior F) : Type 0 where
    pub valid_class : is_valid_class bound.class ≡ true
    pub distinct : Distinct bound.channels
    pub declared : All (λ ch. mem ch (names_of v.channels) ≡ true) bound.channels
    pub ends : Ends bound.lifetime.duration_s bound.lifetime.loops
    pub named : (bound.name == []) ≡ false
    pub id_kept : bound.id ≡ b.id
    pub class_kept : bound.class ≡ b.class
    pub lifetime_kept : bound.lifetime ≡ b.lifetime
    pub admitted_at_kept : bound.admitted_at ≡ b.admitted_at

  claimed-cons :
      (declared seen : List Text) (ch : Text) (rest : List Text)
      → mem ch declared ≡ true
      → mem ch seen ≡ false
      → All (λ x. (mem x declared ≡ true) × (mem x (ch ∷ seen) ≡ false)) rest × Distinct rest
      → All (λ x. (mem x declared ≡ true) × (mem x seen ≡ false)) (ch ∷ rest) × Distinct (ch ∷ rest)
  unfolding mem any
  claimed-cons declared seen ch rest p q later = (
    ((p, q), All-map (λ x h. (h.0, ground arith)) rest later.0),
    (All_any (λ x. ch == x) rest (All-map (λ x h. ground arith) rest later.0), later.1),
  )

  check_claimed-All :
      (declared seen channels : List Text) {u : Unit {0}}
      → check_claimed fl declared seen channels ≡ ok u
      → All (λ ch. (mem ch declared ≡ true) × (mem ch seen ≡ false)) channels × Distinct channels
  unfolding check_claimed
  check_claimed-All declared seen [] h = (tt, tt)
  check_claimed-All declared seen (ch ∷ rest) h =
      claimed-cons declared seen ch rest (ground arith) (ground arith)
        (check_claimed-All declared (ch ∷ seen) rest (ground arith))

  bind_action-kept :
      (v : Vocabulary F) (b : Behavior F) {p : Behavior F × Option (Action F)}
      → bind_action fl v b ≡ ok p
      → (p.0 ≡ record b { name = p.0.name }) × ((p.0.name == []) ≡ false)
  unfolding bind_action with_name
  bind_action-kept v b h = ground arith

  pub bind_channels-kept :
      (v : Vocabulary F) (b : Behavior F) (action : Option (Action F)) {b' : Behavior F}
      → bind_channels fl v b action ≡ ok b'
      → (b' ≡ record b { channels = b'.channels; trajectories = b'.trajectories })
        × All (λ ch. (mem ch (names_of v.channels) ≡ true) × (mem ch [] ≡ false)) b'.channels
        × Distinct b'.channels
  unfolding bind_channels
  bind_channels-kept v b action {b'} h = elim (Result-cases (claimed_channels fl b action)) [
    | inr (e, p) ↦ ground arith
    | inl (channels, p) ↦
        let e : b'.channels ≡ channels = ground arith in
        let checked : check_claimed fl (names_of v.channels) [] channels ≡ ok tt = ground arith in
        let (all, distinct) = check_claimed-All (names_of v.channels) [] channels checked in
        (ground arith, rw e all, rw e distinct)
  ]

  bind_lifetime-Ends :
      (b : Behavior F) {u : Unit {0}}
      → bind_lifetime fl b ≡ ok u
      → Ends b.lifetime.duration_s b.lifetime.loops
  unfolding bind_lifetime
  bind_lifetime-Ends b h = ground arith

  -- A behavior that `Bind` accepts has a declared class, claims declared channels and none twice, has
  -- a name and a lifetime that ends or loops, and keeps its id, class, lifetime and origin in time.
  pub bind-IsBound :
      (v : Vocabulary F) (b : Behavior F) {b' : Behavior F}
      → bind fl (some v) b ≡ ok b'
      → IsBound v b b'
  unfolding bind
  bind-IsBound v b {b'} h = elim (Result-cases (bind_action fl v b)) [
    | inr (e, p) ↦ absurd (ground arith)
    | inl (acted, p) ↦ elim (Result-cases (bind_channels fl v acted.0 acted.1)) [
      | inr (e, q) ↦ absurd (ground arith)
      | inl (bound, q) ↦
          let (renamed, named) = bind_action-kept v b p in
          let (rechanneled, all, distinct) = bind_channels-kept v acted.0 acted.1 q in
          let e : b' ≡ bound = ground arith in
          let lived : bind_lifetime fl bound ≡ ok tt = ground arith in
          rw e (record {
            valid_class = ground arith;
            distinct = distinct;
            declared = All-map (λ ch k. k.0) bound.channels all;
            ends = bind_lifetime-Ends bound lived;
            named = ground arith;
            id_kept = ground arith;
            class_kept = ground arith;
            lifetime_kept = ground arith;
            admitted_at_kept = ground arith;
          })
    ]
  ]
