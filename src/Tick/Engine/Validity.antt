-- ===== src/Tick/Engine/Validity.antt =====
-- The invariant of an engine (internal/tick/engine.go), and the operations on its active set.
use neurosymbolic_system.Base.{
  ◌≤◌, ◌≡◌, refl, sym, ap, ◌∙◌, Bool, true, false, ◌||◌, List, [], ◌∷◌, ◌++◌, Text, ◌==◌, length,
  mem, keep, All, All-append, All-keep, Distinct, Distinct-append_one, Distinct-map-keep,
  mem-append_one, mem-map-keep, Bool-cases, inl, inr, is_zero, ==_comm, arith,
}
use mathlib.Core.List.{map-append}
use mathlib.Core.Path.{subst, subst₂, ap₂}
use neurosymbolic_system.Adaptor.Vocabulary.{Vocabulary, names_of}
use neurosymbolic_system.Tick.Behavior.{Behavior}
use neurosymbolic_system.Tick.Behavior.Sampling.{Samples, ActionsShaped}
use neurosymbolic_system.Tick.Arbitration.{admit}
use neurosymbolic_system.Tick.Engine.State.{
  World, Config, Command, Drop, ActiveBehavior, Engine, drop, behaviors,
}
use neurosymbolic_system.Tick.Engine.Commands.{
  id_is_active, evict_ids, stamped, after_stamp, install, place,
}
use neurosymbolic_system.Tick.Engine.Minting.{live_ids, mem-live_ids}

module _ {F : Type 0} where
  -- a behavior claims declared channels, none twice, and its trajectories can be sampled
  pub record ClaimsFit (declared : List Text) (b : Behavior F) : Type 0 where
    pub distinct : Distinct b.channels
    pub declared_all : All (λ ch. mem ch declared ≡ true) b.channels
    pub samples : Samples b.contribute b.trajectories

  -- Every live behavior has an id of its own, which is not empty, and fitting claims.
  pub record ActiveFit (declared : List Text) (active : List (ActiveBehavior F)) : Type 0 where
    pub distinct : Distinct (live_ids active)
    pub named : mem [] (live_ids active) ≡ false
    pub claims_fit : All (λ ab. ClaimsFit declared ab.behavior) active

  pub record IsValid (e : Engine F) : Type 0 where
    pub active_fit : ActiveFit (names_of e.voc.channels) e.active
    pub channels_kept : e.channels ≡ names_of e.voc.channels
    pub inbox_bounded : length e.inbox ≤ e.cfg.inbox_size
    pub actions_shaped : ActionsShaped e.voc.actions

  -- `e'` follows from `e` by steps that keep the invariant and leave the configuration, the sink's
  -- failures and the poses written alone.
  pub record Keeps (e e' : Engine F) : Type 0 where
    pub valid : IsValid e → IsValid e'
    pub voc_kept : e'.voc ≡ e.voc
    pub cfg_kept : e'.cfg ≡ e.cfg
    pub failures_kept : e'.sink_failures ≡ e.sink_failures
    pub written_kept : e'.written ≡ e.written

  pub Keeps-refl : (e : Engine F) → Keeps e e
  Keeps-refl e = record {
    valid = λ v. v;
    voc_kept = refl;
    cfg_kept = refl;
    failures_kept = refl;
    written_kept = refl;
  }

  pub Keeps-trans : {a b c : Engine F} → Keeps a b → Keeps b c → Keeps a c
  Keeps-trans p q = record {
    valid = λ v. q.valid (p.valid v);
    voc_kept = q.voc_kept ∙ p.voc_kept;
    cfg_kept = q.cfg_kept ∙ p.cfg_kept;
    failures_kept = q.failures_kept ∙ p.failures_kept;
    written_kept = q.written_kept ∙ p.written_kept;
  }

  -- Only counters, traces, the seam or the sink's side change.
  pub Keeps-same :
      (e e' : Engine F)
      → (e'.active ≡ e.active)
        × (e'.voc ≡ e.voc)
        × (e'.channels ≡ e.channels)
        × (e'.inbox ≡ e.inbox)
        × (e'.cfg ≡ e.cfg)
      → (e'.sink_failures ≡ e.sink_failures) × (e'.written ≡ e.written)
      → Keeps e e'
  Keeps-same e e' s t = record {
    valid = λ v. record {
      active_fit =
          subst₂ (λ (x : Vocabulary F) y. ActiveFit (names_of x.channels) y) (sym s.1) (sym s.0)
            v.active_fit;
      channels_kept =
          s.2 ∙ (v.channels_kept ∙ ap (λ (x : Vocabulary F). names_of x.channels) (sym s.1));
      inbox_bounded =
          subst₂ (λ (x : List (Command F)) (c : Config). length x ≤ c.inbox_size) (sym s.3)
            (sym s.4) v.inbox_bounded;
      actions_shaped =
          subst (λ (x : Vocabulary F). ActionsShaped x.actions) (sym s.1) v.actions_shaped;
    };
    voc_kept = s.1;
    cfg_kept = s.4;
    failures_kept = t.0;
    written_kept = t.1;
  }

  pub ActiveFit-keep :
      (declared : List Text) (p : ActiveBehavior F → Bool) (active : List (ActiveBehavior F))
      → ActiveFit declared active
      → ActiveFit declared (keep p active)
  ActiveFit-keep declared p active h = record {
    distinct = Distinct-map-keep _ p active h.distinct;
    named = mem-map-keep _ p [] active h.named;
    claims_fit = All-keep _ p active h.claims_fit;
  }

  pub ActiveFit-evict_ids :
      (declared evicted : List Text) (active : List (ActiveBehavior F))
      → ActiveFit declared active
      → ActiveFit declared (evict_ids evicted active)
  unfolding evict_ids
  ActiveFit-evict_ids declared [] active h = h
  ActiveFit-evict_ids declared (id ∷ rest) active h = ActiveFit-keep declared _ active h

  id_is_active-evict_ids :
      (id : Text) (evicted : List Text) (active : List (ActiveBehavior F))
      → mem id (live_ids active) ≡ false
      → mem id (live_ids (evict_ids evicted active)) ≡ false
  unfolding evict_ids
  id_is_active-evict_ids id [] active h = h
  id_is_active-evict_ids id (e ∷ rest) active h = mem-map-keep _ _ id active h

  pub ActiveFit-append :
      (declared : List Text) (active : List (ActiveBehavior F)) (ab : ActiveBehavior F)
      → ActiveFit declared active
      → mem ab.behavior.id (live_ids active) ≡ false
      → (ab.behavior.id == []) ≡ false
      → ClaimsFit declared ab.behavior
      → ActiveFit declared (active ++ ab ∷ [])
  ActiveFit-append declared active ab h fresh named fit = record {
    distinct =
        subst Distinct (sym (map-append _ active (ab ∷ [])))
          (Distinct-append_one (live_ids active) ab.behavior.id h.distinct fresh);
    named =
        ap (mem []) (map-append _ active (ab ∷ []))
        ∙ (mem-append_one [] ab.behavior.id (live_ids active)
            ∙ ap₂ ◌||◌ h.named (==_comm [] ab.behavior.id ∙ named));
    claims_fit = All-append _ active (ab ∷ []) h.claims_fit (fit, tt);
  }

  install-Keeps :
      (b : Behavior F) (e : Engine F)
      → id_is_active b.id e.active ≡ false
      → (b.id == []) ≡ false
      → (ActionsShaped e.voc.actions → ClaimsFit (names_of e.voc.channels) b)
      → Keeps e (install b e).0
  unfolding install
  install-Keeps b e fresh named fit = record {
    valid = λ v. record {
      active_fit =
          let evicted = (admit e.channels b (behaviors e.active)).evicted in
          ActiveFit-append (names_of e.voc.channels) (evict_ids evicted e.active) _
            (ActiveFit-evict_ids _ evicted e.active v.active_fit)
            (id_is_active-evict_ids b.id evicted e.active (mem-live_ids b.id e.active ∙ fresh))
            named (fit v.actions_shaped);
      channels_kept = v.channels_kept;
      inbox_bounded = v.inbox_bounded;
      actions_shaped = v.actions_shaped;
    };
    voc_kept = refl;
    cfg_kept = refl;
    failures_kept = refl;
    written_kept = refl;
  }

  after_stamp-Keeps : (b : Behavior F) (e : Engine F) → Keeps e (after_stamp b e)
  unfolding after_stamp
  after_stamp-Keeps b e = elim (Bool-cases (is_zero b.admitted_at)) [
    | inl h ↦ rw h (Keeps-same e _ (refl, refl, refl, refl, refl) (refl, refl))
    | inr h ↦ rw h (Keeps-refl e)
  ]

  stamped-ClaimsFit :
      (w : World) (e : Engine F) (b : Behavior F) (declared : List Text)
      → ClaimsFit declared b
      → ClaimsFit declared (stamped w e b)
  unfolding stamped
  stamped-ClaimsFit w e b declared fit = elim (Bool-cases (is_zero b.admitted_at)) [
    | inl h ↦
        rw h (record {
          distinct = fit.distinct;
          declared_all = fit.declared_all;
          samples = fit.samples;
        })
    | inr h ↦ rw h fit
  ]

  stamped-id : (w : World) (e : Engine F) (b : Behavior F) → (stamped w e b).id ≡ b.id
  unfolding stamped
  stamped-id w e b = ground arith

  after_stamp-active : (b : Behavior F) (e : Engine F) → (after_stamp b e).active ≡ e.active
  unfolding after_stamp
  after_stamp-active b e = ground arith

  pub place-Keeps :
      (w : World) (b : Behavior F) (e : Engine F)
      → id_is_active b.id e.active ≡ false
      → (b.id == []) ≡ false
      → (ActionsShaped e.voc.actions → ClaimsFit (names_of e.voc.channels) b)
      → Keeps e (place w b e).0
  unfolding place
  place-Keeps w b e fresh named fit =
      let stamp = after_stamp-Keeps b e in
      Keeps-trans stamp (
        install-Keeps (stamped w e b) (after_stamp b e)
          (ap₂ id_is_active (stamped-id w e b) (after_stamp-active b e) ∙ fresh)
          (ap (λ s. s == []) (stamped-id w e b) ∙ named)
          (λ shaped. stamped-ClaimsFit w e b _ (
            subst
              (λ (v : Vocabulary F). ActionsShaped v.actions → ClaimsFit (names_of v.channels) b)
              (sym stamp.voc_kept) fit shaped)))

  pub drop-Keeps : (d : Drop) (e : Engine F) → Keeps e (drop d e)
  unfolding drop
  drop-Keeps d e = Keeps-same e _ (refl, refl, refl, refl, refl) (refl, refl)
