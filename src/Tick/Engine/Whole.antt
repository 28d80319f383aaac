-- ===== src/Tick/Engine/Whole.antt =====
-- A run from the engine that `New` builds, with its base layer and its settling pose.
use neurosymbolic_system.Base.{
  ◌⊎◌, any, ◌≡◌, refl, sym, ◌∙◌, true, Option, none, some, List, [], length, mem, All, All-map,
  All-zip, Distinct, Bool-cases, Option-cases, inl, inr, lookup, Floats, Result, ok, err, arith,
}
use mathlib.Core.Path.{subst}
use neurosymbolic_system.Adaptor.Vocabulary.{Vocabulary, names_of, neutral, has_action}
use neurosymbolic_system.Adaptor.Vocabulary.Sound.{IsSound}
use neurosymbolic_system.Tick.Behavior.{Behavior, BindError, bind}
use neurosymbolic_system.Tick.Engine.Total.{IsSound-ActionsShaped, LoopPanics, run_loop-Runs}
use neurosymbolic_system.Tick.Arbitration.Composition.{neutral_from-outside, neutral_from-All}
use neurosymbolic_system.Tick.Engine.State.{
  World, Config, Command, Engine, drop, clock_read, fresh, new_engine, or_default,
}
use neurosymbolic_system.Tick.Engine.Minting.{mem-live_ids, next_id-fresh, next_id-ne-nil}
use neurosymbolic_system.Tick.Engine.Validity.{
  IsValid, Keeps, Keeps-refl, Keeps-trans, Keeps-same, ActiveFit-append,
}
use neurosymbolic_system.Tick.Engine.Preservation.{bind-ClaimsFit}
use neurosymbolic_system.Tick.Engine.Loop.{
  RunError, run_loop, base_behavior, seed, seed_base_layer, settles, settle, close_overrun, run,
}
use neurosymbolic_system.Tick.Engine.Outcomes.{
  IsComplete, trailing, Running, Outcome, Running-Keeps,
}
use neurosymbolic_system.Tick.Engine.Runs.{ChannelsFit}

module _ (fl : Floats) (w : World) where
  open fl use {F}

  neutral-IsComplete :
      (v : Vocabulary F)
      → Distinct (names_of v.channels)
      → All (λ c. length c.neutral ≡ c.arity) v.channels
      → IsComplete v.channels (neutral fl v)
  unfolding neutral lookup
  neutral-IsComplete v d n = record {
    at_declared =
        All-zip (λ ch e h. (ch.neutral, e, h)) v.channels (neutral_from-All fl [] v.channels d) n;
    nowhere_else = λ k h. neutral_from-outside fl k [] v.channels h;
  }

  pub fresh-Running :
      (v : Vocabulary F) (cfg : Config) → IsSound fl v → Running w v (fresh fl v cfg)
  unfolding fresh mem any trailing or_default
  fresh-Running v cfg s = record {
    valid = record {
      active_fit = record { distinct = tt; named = refl; claims_fit = tt };
      channels_kept = refl;
      inbox_bounded = omega arith;
      actions_shaped = IsSound-ActionsShaped fl v s;
    };
    voc_kept = refl;
    poses_complete = tt;
    counted = refl;
    tolerated = ground arith;
  }

  new_engine-fresh :
      (v : Vocabulary F) (cfg : Config) {e : Engine F}
      → new_engine fl (some v) cfg true ≡ ok e
      → e ≡ fresh fl v cfg
  unfolding new_engine
  new_engine-fresh v cfg h = ground arith

  seed-Keeps :
      (r : Result BindError (Behavior F)) (b : Behavior F) (e : Engine F)
      → bind fl (some e.voc) b ≡ r
      → Keeps e (seed fl w r e).0
  unfolding seed
  seed-Keeps (err x) b e h = Keeps-refl e
  seed-Keeps (ok bound) b e h = record {
    valid = λ v. record {
      active_fit =
          ActiveFit-append _ e.active _ v.active_fit
            (mem-live_ids _ e.active ∙ (next_id-fresh e.active bound.name e.seq).1)
            (next_id-ne-nil e.active bound.name e.seq)
            (let fit = bind-ClaimsFit fl w e b h v.actions_shaped in
              record {
                distinct = fit.distinct;
                declared_all = fit.declared_all;
                samples = fit.samples;
              });
      channels_kept = v.channels_kept;
      inbox_bounded = v.inbox_bounded;
      actions_shaped = v.actions_shaped;
    };
    voc_kept = refl;
    cfg_kept = refl;
    failures_kept = refl;
    written_kept = refl;
  }

  seed_base_layer-Keeps : (e : Engine F) → Keeps e (seed_base_layer fl w e).0
  unfolding seed_base_layer
  seed_base_layer-Keeps e = elim (Bool-cases e.cfg.base_layer) [
    | inr off ↦ simp off (Keeps-refl e)
    | inl on ↦ elim (Bool-cases (has_action fl e.voc e.cfg.base_action)) [
      | inr undeclared ↦ simp (on, undeclared) (Keeps-refl e)
      | inl declared ↦
          simp (on, declared)
            (Keeps-trans (Keeps-same e (clock_read e) (refl, refl, refl, refl, refl) (refl, refl))
              (seed-Keeps _ (base_behavior fl w e) (clock_read e) refl))
    ]
  ]

  -- after the loop every pose written is complete, the settling pose included
  pub record Finished (v : Vocabulary F) (e : Engine F) : Type 0 where
    pub valid : IsValid e
    pub voc_kept : e.voc ≡ v
    pub poses_complete : All (IsComplete v.channels) e.written

  close_overrun-Keeps : (e : Engine F) → Keeps e (close_overrun fl w e)
  unfolding close_overrun
  close_overrun-Keeps e =
      Keeps-same e _ (ground arith, ground arith, ground arith, ground arith, ground arith)
        (ground arith, ground arith)

  settle-Finished :
      (v : Vocabulary F) (e : Engine F) → IsSound fl v → Finished v e → Finished v (settle fl w e)
  unfolding settle drop
  settle-Finished v e s f =
      let posed : IsComplete v.channels (neutral fl e.voc) =
        subst (λ (x : Vocabulary F). IsComplete v.channels (neutral fl x)) (sym f.voc_kept)
          (neutral-IsComplete v s.names_distinct
            (All-map (λ c h. h.neutral_fits) v.channels s.channels_fit)) in
      elim (Bool-cases (settles fl w e.cfg.settle)) [
        | inr off ↦ simp off f
        | inl on ↦ elim (Bool-cases (w.accepts (length e.written))) [
          | inl h ↦
              simp (on, h)
                (record {
                  valid = record {
                    active_fit = f.valid.active_fit;
                    channels_kept = f.valid.channels_kept;
                    inbox_bounded = f.valid.inbox_bounded;
                    actions_shaped = f.valid.actions_shaped;
                  };
                  voc_kept = f.voc_kept;
                  poses_complete = (posed, f.poses_complete);
                })
          | inr h ↦
              simp (on, h)
                (record {
                  valid = record {
                    active_fit = f.valid.active_fit;
                    channels_kept = f.valid.channels_kept;
                    inbox_bounded = f.valid.inbox_bounded;
                    actions_shaped = f.valid.actions_shaped;
                  };
                  voc_kept = f.voc_kept;
                  poses_complete = (posed, f.poses_complete);
                })
        ]
      ]

  Finished-Keeps : (v : Vocabulary F) {e e' : Engine F} → Keeps e e' → Finished v e → Finished v e'
  Finished-Keeps v k f = record {
    valid = k.valid f.valid;
    voc_kept = k.voc_kept ∙ f.voc_kept;
    poses_complete = subst (All (IsComplete v.channels)) (sym k.written_kept) f.poses_complete;
  }

  IsSound-ChannelsFit : (v : Vocabulary F) → IsSound fl v → ChannelsFit v
  IsSound-ChannelsFit v s = record {
    names_distinct = s.names_distinct;
    neutrals_fit = All-map (λ c h. h.neutral_fits) v.channels s.channels_fit;
  }

  -- a loop that has ended, whichever way
  Outcome-Finished :
      (v : Vocabulary F) (q : Engine F × Option RunError) → Outcome w v q → Finished v q.0
  Outcome-Finished v (e, none) r = record {
    valid = r.valid;
    voc_kept = r.voc_kept;
    poses_complete = r.poses_complete;
  }
  Outcome-Finished v (e, some error) r = record {
    valid = r.valid;
    voc_kept = r.voc_kept;
    poses_complete = r.poses_complete;
  }

  run-settled :
      (v : Vocabulary F) (rounds : List (List (Command F))) (e : Engine F)
      → IsSound fl v
      → Running w v e
      → ((q : Engine F × Option RunError) × (run_loop fl w rounds e ≡ some q)
          × Finished v (settle fl w (close_overrun fl w q.0)))
        ⊎ LoopPanics fl w rounds e × (run_loop fl w rounds e ≡ none)
  run-settled v rounds e s r = elim (run_loop-Runs fl w v (IsSound-ChannelsFit v s) rounds e r) [
    | inr panics ↦ inr panics
    | inl (q, looped, outcome) ↦ inl (
      q,
      looped,
      settle-Finished v _ s
          (Finished-Keeps v (close_overrun-Keeps q.0) (Outcome-Finished v q outcome)),
    )
  ]

  -- On a sound vocabulary, whatever commands other goroutines send between the ticks, whatever the
  -- seams do, and whether or not writes fail: a run from a new engine comes to its end, unless in one
  -- of its ticks a live behavior's own `Contribute` panics, and then the run panics. Every pose handed
  -- to the sink of a run that ends, the settling one included, has a value of the declared width at
  -- every declared channel and at no other, and the live behaviors have distinct non-empty ids and
  -- declared claims, none twice.
  pub run-Finished :
      (v : Vocabulary F) (cfg : Config) (rounds : List (List (Command F))) {e : Engine F}
      → IsSound fl v
      → new_engine fl (some v) cfg true ≡ ok e
      → ((p : Engine F × Option RunError) × (run fl w rounds e ≡ some p) × Finished v p.0)
        ⊎ LoopPanics fl w rounds (seed_base_layer fl w e).0 × (run fl w rounds e ≡ none)
  unfolding run
  run-Finished v cfg rounds {e} s made =
      let start : Running w v e =
        subst (Running w v) (sym (new_engine-fresh v cfg made)) (fresh-Running v cfg s) in
      let e0 = (seed_base_layer fl w e).0 in
      let seeded = Running-Keeps w v (seed_base_layer-Keeps e) start in
      elim (Option-cases (seed_base_layer fl w e).1) [
        | inr (error, refused) ↦
            inl ((e0, some error), ground arith, Outcome-Finished v (e0, none) seeded)
        | inl seeds ↦ elim (run-settled v rounds e0 s seeded) [
          | inl (q, looped, finished) ↦
              inl ((settle fl w (close_overrun fl w q.0), q.1), ground arith, finished)
          | inr (panics, none_left) ↦ inr (panics, ground arith)
        ]
      ]
