-- ===== src/Tick/Engine/Outcomes.antt =====
-- How a tick can end: what holds of an engine that runs, and of one that its sink has stopped.
use neurosymbolic_system.Base.{
  ℕ, zero, suc, ◌+◌, ◌<◌, ◌≡◌, sym, ap, ◌∙◌, false, Option, none, some, List, Text, if◌then◌else◌,
  leb, length, mem, All, Bool-cases, inl, inr, lookup, Time, arith,
}
use mathlib.Core.Path.{subst, subst₂}
use neurosymbolic_system.Adaptor.Vocabulary.{Channel, Vocabulary, Pose, names_of}
use neurosymbolic_system.Tick.Engine.State.{World, Config, Engine, drop}
use neurosymbolic_system.Tick.Engine.Validity.{IsValid, Keeps, Keeps-same}
use neurosymbolic_system.Tick.Engine.Loop.{RunError, sink_failed, write, account_budget}

module _ {F : Type 0} where
  -- The pose has a value of the declared width at every declared channel, and no other channel.
  pub record IsComplete (channels : List (Channel F)) (pose : Pose F) : Type 0 where
    pub at_declared :
        All
          (λ ch.
            (values : List F) × (lookup ch.name pose ≡ some values) × (length values ≡ ch.arity))
          channels
    pub nowhere_else : (k : Text) → mem k (names_of channels) ≡ false → lookup k pose ≡ none

-- The writes that failed in a row, up to the `n`-th.
unfoldable pub trailing : World → ℕ → ℕ
trailing w zero = 0
trailing w (suc n) = let before = trailing w n in if w.accepts n then 0 else before + 1

module _ {F : Type 0} (w : World) (v : Vocabulary F) where
  -- Between two ticks the engine is valid, its count of failed writes is the sink's own and below
  -- the ceiling, and every pose written is complete.
  pub record Running (e : Engine F) : Type 0 where
    pub valid : IsValid e
    pub voc_kept : e.voc ≡ v
    pub poses_complete : All (IsComplete v.channels) e.written
    pub counted : e.sink_failures ≡ trailing w (length e.written)
    pub tolerated : e.sink_failures < e.cfg.max_errors

  -- The run ended with an error: the last `max_errors` writes failed, one after the other.
  pub record Stopped (e : Engine F) (error : RunError) : Type 0 where
    pub valid : IsValid e
    pub voc_kept : e.voc ≡ v
    pub poses_complete : All (IsComplete v.channels) e.written
    pub all_failed : trailing w (length e.written) ≡ e.cfg.max_errors
    pub reported : error ≡ sink_failed e.cfg.max_errors

  abbrev pub Outcome : Engine F × Option RunError → Type 0
  Outcome (e, none) = Running e
  Outcome (e, some error) = Stopped e error

  pub Running-Outcome : (q : Engine F × Option RunError) → q.1 ≡ none → Outcome q → Running q.0
  Running-Outcome (e, none) h o = o
  Running-Outcome (e, some error) h o = absurd (ground arith)

  pub Running-Keeps : {e e' : Engine F} → Keeps e e' → Running e → Running e'
  Running-Keeps k r = record {
    valid = k.valid r.valid;
    voc_kept = k.voc_kept ∙ r.voc_kept;
    poses_complete = subst (All (IsComplete v.channels)) (sym k.written_kept) r.poses_complete;
    counted =
        k.failures_kept
        ∙ (r.counted ∙ ap (λ (ps : List (Pose F)). trailing w (length ps)) (sym k.written_kept));
    tolerated =
        subst₂ (λ n (c : Config). n < c.max_errors) (sym k.failures_kept) (sym k.cfg_kept)
          r.tolerated;
  }

  pub account_budget-Keeps : (now : Time) (e : Engine F) → Keeps e (account_budget w now e)
  unfolding account_budget
  account_budget-Keeps now e =
      Keeps-same e _ (ground arith, ground arith, ground arith, ground arith, ground arith)
        (ground arith, ground arith)

  -- A write that fails for the `max_errors`-th time in a row ends the run, and no other does.
  pub write-Outcome :
      (pose : Pose F) (e : Engine F)
      → Running e
      → IsComplete v.channels pose
      → Outcome (write w pose e)
  unfolding write trailing drop
  write-Outcome pose e r c = elim (Bool-cases (w.accepts (length e.written))) [
    | inl h ↦ rw h (record {
      valid = record {
        active_fit = r.valid.active_fit;
        channels_kept = r.valid.channels_kept;
        inbox_bounded = r.valid.inbox_bounded;
        actions_shaped = r.valid.actions_shaped;
      };
      voc_kept = r.voc_kept;
      poses_complete = (c, r.poses_complete);
      counted = rw h;
      tolerated = omega (arith, r.tolerated);
    })
    | inr h ↦ elim (Bool-cases (leb e.cfg.max_errors (e.sink_failures + 1))) [
      | inl last ↦
          rw (h, last)
            (record {
              valid = record {
                active_fit = r.valid.active_fit;
                channels_kept = r.valid.channels_kept;
                inbox_bounded = r.valid.inbox_bounded;
                actions_shaped = r.valid.actions_shaped;
              };
              voc_kept = r.voc_kept;
              poses_complete = (c, r.poses_complete);
              all_failed = rw h (ground (arith, r.tolerated, r.counted));
              reported = ap sink_failed (ground (arith, r.tolerated));
            })
      | inr more ↦
          rw (h, more)
            (record {
              valid = record {
                active_fit = r.valid.active_fit;
                channels_kept = r.valid.channels_kept;
                inbox_bounded = r.valid.inbox_bounded;
                actions_shaped = r.valid.actions_shaped;
              };
              voc_kept = r.voc_kept;
              poses_complete = (c, r.poses_complete);
              counted = rw h (ap (λ n. n + 1) r.counted);
              tolerated = ground arith;
            })
    ]
  ]
