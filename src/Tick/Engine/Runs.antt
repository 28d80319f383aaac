-- ===== src/Tick/Engine/Runs.antt =====
-- A whole tick and a whole run: the invariant, the poses that reach the sink, and when a run fails.
use neurosymbolic_system.Base.{
  ℕ, ◌≡◌, refl, Option, none, some, List, [], ◌∷◌, Text, length, keep, All, All-map, Distinct,
  Option-cases, inl, inr, GoMap, Time, Floats, arith,
}
use neurosymbolic_system.Adaptor.Vocabulary.{Vocabulary, names_of}
use neurosymbolic_system.Tick.Behavior.{Contribution}
use neurosymbolic_system.Tick.Arbitration.{arbitrate, compose}
use neurosymbolic_system.Tick.Arbitration.Composition.{
  compose_complete, compose-undeclared, resolved,
}
use neurosymbolic_system.Tick.Engine.State.{
  World, Command, Engine, count_up, behaviors, clock_read, clock_now,
}
use neurosymbolic_system.Tick.Engine.Commands.{drain_inbox}
use neurosymbolic_system.Tick.Engine.Validity.{
  Keeps, Keeps-refl, Keeps-trans, Keeps-same, ActiveFit-keep,
}
use neurosymbolic_system.Tick.Engine.Preservation.{
  drop_all-Keeps, drain_inbox-Keeps, invoke_seam-Keeps, send-Keeps,
}
use neurosymbolic_system.Tick.Engine.Loop.{
  RunError, Composed, is_live, contribute_all, compose_live, compose_tick, after_write, finish_tick,
  tick, send_all, run_loop,
}
use neurosymbolic_system.Tick.Engine.Outcomes.{
  IsComplete, Running, Outcome, Running-Outcome, Running-Keeps, account_budget-Keeps, write-Outcome,
}

-- the vocabulary's channels, as far as a pose depends on them
pub record ChannelsFit {F : Type 0} (v : Vocabulary F) : Type 0 where
  pub names_distinct : Distinct (names_of v.channels)
  pub neutrals_fit : All (λ c. length c.neutral ≡ c.arity) v.channels

module _ (fl : Floats) (w : World) (v : Vocabulary fl.F) (fit : ChannelsFit v) where
  open fl use {F}

  pub send_all-Keeps : (sent : List (Command F)) (e : Engine F) → Keeps e (send_all fl w sent e)
  unfolding send_all
  send_all-Keeps [] e = Keeps-refl e
  send_all-Keeps (cmd ∷ rest) e = Keeps-trans (send-Keeps cmd e) (send_all-Keeps rest _)

  compose-IsComplete :
      (v' : Vocabulary F) (ownership : GoMap Text) (contribs : GoMap (Contribution F))
      → v' ≡ v
      → IsComplete v.channels (compose fl v' ownership contribs).0
  compose-IsComplete v' ownership contribs same = rw same (record {
    at_declared =
        All-map (λ ch h. (resolved ownership contribs ch, h.0, h.1)) v.channels
          (compose_complete fl v ownership contribs fit.names_distinct fit.neutrals_fit);
    nowhere_else = λ k h. compose-undeclared fl v ownership contribs k h;
  })

  compose_live-Keeps :
      (contribs : GoMap (Contribution F)) (e : Engine F) → Keeps e (compose_live fl w contribs e).0
  unfolding compose_live
  compose_live-Keeps contribs e = drop_all-Keeps _ e

  expire-Keeps :
      (now : Time) (e : Engine F) → Keeps e (record e { active = keep (is_live fl w now) e.active })
  expire-Keeps now e = record {
    valid = λ h. record {
      active_fit = ActiveFit-keep _ _ e.active h.active_fit;
      channels_kept = h.channels_kept;
      inbox_bounded = h.inbox_bounded;
      actions_shaped = h.actions_shaped;
    };
    voc_kept = refl;
    cfg_kept = refl;
    failures_kept = refl;
    written_kept = refl;
  }

  after_write-Outcome :
      (now : Time) (n : ℕ) (c : Composed F) (p : Engine F × Option RunError)
      → Outcome w v p
      → Outcome w v (after_write fl w now n c p)
  unfolding after_write
  after_write-Outcome now n c (e, some error) h = h
  after_write-Outcome now n c (e, none) h =
      Running-Keeps w v
        (Keeps-trans
          (Keeps-same e (record e { last_pose = c.pose; last_ownership = c.ownership })
            (refl, refl, refl, refl, refl) (refl, refl))
          (Keeps-trans (invoke_seam-Keeps fl w _ _) (account_budget-Keeps w v now _)))
        h

  finish_tick-Outcome :
      (now : Time) (n : ℕ) (c : Composed F) (e : Engine F)
      → Running w v e
      → IsComplete v.channels c.pose
      → Outcome w v (finish_tick fl w now n c e)
  unfolding finish_tick
  finish_tick-Outcome now n c e r h = after_write-Outcome now n c _ (write-Outcome w v c.pose e r h)

  -- what a composed tick leaves, and the pose it has for the sink
  compose_tick-fine :
      (now : Time) (e : Engine F) {p : Engine F × Composed F}
      → Running w v e
      → compose_tick fl w now e ≡ some p
      → Running w v p.0 × IsComplete v.channels p.1.pose
  unfolding compose_tick compose_live
  compose_tick-fine now e {p} r h =
      let e1 = record e { active = keep (is_live fl w now) e.active } in
      elim (Option-cases (contribute_all fl w e.reads now [] e1.active)) [
        | inl none_left ↦ absurd (ground arith)
        | inr (contribs, found) ↦
            let same : p ≡ compose_live fl w contribs e1 = ground arith in
            let kept = Keeps-trans (expire-Keeps now e) (compose_live-Keeps contribs e1) in
            let ownership = arbitrate e.channels (behaviors e1.active) (some contribs) in
            rw same
              (Running-Keeps w v kept r, compose-IsComplete e.voc ownership contribs r.voc_kept)
      ]

  -- A tick that completes leaves the engine running, or stops it because the last `max_errors`
  -- writes failed in a row.
  pub tick-Outcome :
      (e : Engine F) {p : Engine F × Option RunError}
      → Running w v e
      → tick fl w e ≡ some p
      → Outcome w v p
  unfolding tick
  tick-Outcome e {p} r h =
      let now = clock_now w e in
      let e1 = record (clock_read e) { ticks = count_up e.ticks } in
      let drained = drain_inbox fl w e1 in
      elim (Option-cases (compose_tick fl w now drained)) [
        | inl none_left ↦ absurd (ground arith)
        | inr (composed, found) ↦
            let same : p ≡ finish_tick fl w now e1.ticks composed.1 composed.0 = ground arith in
            let kept =
              Keeps-trans (Keeps-same e e1 (refl, refl, refl, refl, refl) (refl, refl))
                (drain_inbox-Keeps fl w e1) in
            let (running, fits) = compose_tick-fine now drained (Running-Keeps w v kept r) found in
            rw same (finish_tick-Outcome now e1.ticks composed.1 composed.0 running fits)
      ]

  -- From a running engine, whatever commands arrive before each tick: a loop that completes leaves a
  -- running engine whose every written pose is complete, or it stopped because the last
  -- `max_errors` writes failed in a row.
  pub run_loop-Outcome :
      (rounds : List (List (Command F))) (e : Engine F) {p : Engine F × Option RunError}
      → Running w v e
      → run_loop fl w rounds e ≡ some p
      → Outcome w v p
  unfolding run_loop
  run_loop-Outcome [] e {p} r h = let same : p ≡ (e, none) = ground arith in rw same r
  run_loop-Outcome (sent ∷ rest) e {p} r h =
      let e1 = send_all fl w sent e in
      elim (Option-cases (tick fl w e1)) [
        | inl none_left ↦ absurd (ground arith)
        | inr (q, found) ↦
            let outcome = tick-Outcome e1 (Running-Keeps w v (send_all-Keeps sent e) r) found in
            elim (Option-cases q.1) [
              | inr (error, ended) ↦ (let same : p ≡ q = ground arith in rw same outcome)
              | inl live ↦
                  run_loop-Outcome rest q.0 (Running-Outcome w v q live outcome) (ground arith)
            ]
      ]
