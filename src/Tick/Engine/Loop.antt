-- ===== src/Tick/Engine/Loop.antt =====
-- internal/tick/engine.go: one tick, and the loop of `Run`. A tick in which a `Contribute`
-- panics, or the sampling would, has no result: nothing recovers it. `OnTickDone` is an observer that is handed the elapsed time, and is left out.
use neurosymbolic_system.Base.{
  Result, ℕ, ◌+◌, Bool, true, false, not, Option, none, some, List, [], ◌∷◌, ◌++◌, map, Text,
  if◌then◌else◌, leb, ltb_ℤ, length, keep, GoMap, insert, Time, time_sub, Floats, ok, err, and_then,
}
use neurosymbolic_system.Adaptor.Vocabulary.{Pose, has_action, neutral}
use neurosymbolic_system.Senselog.Streak.{enter, end}
use neurosymbolic_system.Tick.Behavior.{
  passive, Contribution, Behavior, BindError, is_expired, contribution, local_time, bind,
}
use neurosymbolic_system.Tick.Arbitration.{arbitrate, compose}
use neurosymbolic_system.Tick.Engine.State.{
  World, Event, SeamCall, SeamView, return, panic, ask_admit, ask_evict, ask_names, emit, Command,
  Drop, wrong_arity, write_failed, settle_failed, seam_panic, event_panic, ActiveBehavior, Engine,
  count_up, drop, clock_now, clock_read, behaviors,
}
use neurosymbolic_system.Tick.Engine.Commands.{next_id, evict, send, admit_behavior, drain_inbox}

-- what ends a run with an error
pub data RunError : Type 0 where
  base_undeclared : RunError
  base_refused : BindError → RunError
  sink_failed : ℕ → RunError

-- what `composeTick` returns, beside the engine
pub record Composed (F : Type 0) : Type 0 where
  pub pose : Pose F
  pub ownership : GoMap Text
  pub contributions : GoMap (Contribution F)

abbrev overrun_reason : Text
overrun_reason = b'o' ∷ b'v' ∷ b'e' ∷ b'r' ∷ b'r' ∷ b'u' ∷ b'n' ∷ []

module _ {F : Type 0} where
  -- `recoverPanic`, when there is something to recover
  unfoldable pub recover_panic : Drop → Engine F → Engine F
  recover_panic d e = drop d (record e { seam_panics = count_up e.seam_panics })

  -- the loop of the engine's `emit`: a consumer that panics does not stop the rest
  unfoldable pub emit_to : List (Event → Bool) → Event → Engine F → Engine F
  emit_to [] event e = e
  emit_to (panics ∷ rest) event e =
      emit_to rest event (if panics event then recover_panic event_panic e else e)

  unfoldable pub drop_all : List Text → Engine F → Engine F
  drop_all [] e = e
  drop_all (channel ∷ rest) e = drop_all rest (drop (wrong_arity channel) e)

  -- `write`: the pose reaches the sink whether or not the write succeeds
  unfoldable pub write : World → Pose F → Engine F → Engine F × Option RunError
  write w pose e =
      let e1 = record e { written = pose ∷ e.written } in
      if w.accepts (length e.written)
      then (record e1 { sink_failures = 0 }, none)
      else (let e2 = drop write_failed (record e1 {
        sink_failures = e1.sink_failures + 1;
        sink_errors = count_up e1.sink_errors;
      }) in
          (
            e2,
            if leb e.cfg.max_errors e2.sink_failures
                then some (sink_failed e2.sink_failures)
                else none,
          ))

  -- `accountBudget`
  unfoldable pub account_budget : World → Time → Engine F → Engine F
  account_budget w start e =
      let elapsed = time_sub (clock_now w e) start in
      let e1 = clock_read e in
      if ltb_ℤ e1.cfg.period elapsed
      then record e1 {
        overruns = count_up e1.overruns;
        overrun = (enter e1.overrun overrun_reason).0;
        in_overrun = true;
      }
      else if e1.in_overrun
      then record e1 { overrun = (end e1.overrun).0; in_overrun = false }
      else e1

module _ (fl : Floats) (w : World) where
  open fl use {F}

  -- the calls that a seam makes, in order
  unfoldable pub run_seam : SeamCall F → Engine F → Engine F
  run_seam return e = e
  run_seam panic e = recover_panic seam_panic e
  run_seam (ask_admit b next) e =
      let (e', result) = admit_behavior fl w b e in run_seam (next result) e'
  run_seam (ask_evict name next) e = let (e', removed) = evict name e in run_seam (next removed) e'
  run_seam (ask_names next) e = run_seam (next (map (λ ab. ab.behavior.name) e.active)) e
  run_seam (emit event next) e = run_seam next (emit_to e.consumers event e)

  unfoldable pub invoke_seam : SeamView F → Engine F → Engine F
  invoke_seam view e = elim e.seam [ none ↦ e | some seam ↦ run_seam (seam view) e ]

  unfoldable pub is_live : Time → ActiveBehavior F → Bool
  is_live now ab = not (is_expired fl ab.behavior.lifetime (local_time fl ab.behavior now))

  -- The loop that fills `contribs`. `moment` is the number of clock readings before it, which differs
  -- from tick to tick.
  unfoldable pub contribute_all :
      ℕ → Time → GoMap (Contribution F) → List (ActiveBehavior F) → Option (GoMap (Contribution F))
  contribute_all moment now contribs [] = some contribs
  contribute_all moment now contribs (ab ∷ rest) =
      and_then (contribution fl ab.behavior moment (local_time fl ab.behavior now))
        (λ c. contribute_all moment now (insert ab.behavior.id c contribs) rest)

  unfoldable pub compose_live : GoMap (Contribution F) → Engine F → Engine F × Composed F
  compose_live contribs e =
      let ownership = arbitrate e.channels (behaviors e.active) (some contribs) in
      let (pose, dropped) = compose fl e.voc ownership contribs in
      (drop_all dropped e, record { pose = pose; ownership = ownership; contributions = contribs })

  unfoldable pub compose_tick : Time → Engine F → Option (Engine F × Composed F)
  compose_tick now e =
      let e1 = record e { active = keep (is_live now) e.active } in
      and_then (contribute_all e.reads now [] e1.active)
        (λ contribs. some (compose_live contribs e1))

  -- what follows the write: nothing if it ends the run, and if not the seam and the budget
  unfoldable pub after_write :
      Time → ℕ → Composed F → Engine F × Option RunError → Engine F × Option RunError
  after_write now tick_number c (e, some error) = (e, some error)
  after_write now tick_number c (e, none) =
      let view : SeamView F = record {
        now = now;
        tick_number = tick_number;
        ownership = c.ownership;
        pose = c.pose;
        contributions = c.contributions;
      } in
      let e1 = record e { last_pose = c.pose; last_ownership = c.ownership } in
      (account_budget w now (invoke_seam view e1), none)

  unfoldable pub finish_tick : Time → ℕ → Composed F → Engine F → Engine F × Option RunError
  finish_tick now tick_number c e = after_write now tick_number c (write w c.pose e)

  -- the body of the loop of `Run`
  unfoldable pub tick : Engine F → Option (Engine F × Option RunError)
  tick e =
      let now = clock_now w e in
      let e1 = record (clock_read e) { ticks = count_up e.ticks } in
      and_then (compose_tick now (drain_inbox fl w e1))
        (λ composed. some (finish_tick now e1.ticks composed.1 composed.0))

  unfoldable pub send_all : List (Command F) → Engine F → Engine F
  send_all [] e = e
  send_all (cmd ∷ rest) e = send_all rest (send cmd e).0

  -- The loop of `Run`: a round is what other goroutines send before the next tick is due. The ticker
  -- stops after the last round.
  unfoldable pub run_loop : List (List (Command F)) → Engine F → Option (Engine F × Option RunError)
  run_loop [] e = some (e, none)
  run_loop (sent ∷ rest) e =
      and_then (tick (send_all sent e))
        (λ r. elim r.1 [ some error ↦ some r | none ↦ run_loop rest r.0 ])

  -- the passive, looping behavior of the base layer
  unfoldable pub base_behavior : Engine F → Behavior F
  base_behavior e = record {
    name = [];
    id = [];
    class = passive;
    channels = [];
    lifetime = record { duration_s = none; loops = true };
    action = e.cfg.base_action;
    params = [];
    admitted_at = clock_now w e;
    trajectories = [];
    contribute = none;
  }

  unfoldable pub seed : Result BindError (Behavior F) → Engine F → Engine F × Option RunError
  seed (err x) e = (e, some (base_refused x))
  seed (ok bound) e =
      let (id, seq) = next_id e.active bound.name e.seq in
      (
        record e {
          seq = seq;
          active = e.active ++ record { behavior = record bound { id = id }; is_base = true } ∷ [];
        },
        none,
      )

  unfoldable pub seed_base_layer : Engine F → Engine F × Option RunError
  unfolding seed base_behavior
  seed_base_layer e =
      if not e.cfg.base_layer
      then (e, none)
      else if not (has_action fl e.voc e.cfg.base_action)
      then (e, some base_undeclared)
      else seed (bind fl (some e.voc) (base_behavior e)) (clock_read e)

  unfoldable pub settles : Option Bool → Bool
  settles none = true
  settles (some b) = b

  unfoldable pub settle : Engine F → Engine F
  settle e =
      let e1 = record e { written = neutral fl e.voc ∷ e.written } in
      if not (settles e.cfg.settle)
      then e
      else if w.accepts (length e.written)
      then e1
      else drop settle_failed e1

  unfoldable pub close_overrun : Engine F → Engine F
  close_overrun e =
      if e.in_overrun then record e { overrun = (end e.overrun).0; in_overrun = false } else e

  unfoldable pub run : List (List (Command F)) → Engine F → Option (Engine F × Option RunError)
  run rounds e =
      let (e0, refused) = seed_base_layer e in
      elim refused [
        | some error ↦ some (e0, some error)
        | none ↦ and_then (run_loop rounds e0) (λ r. some (settle (close_overrun r.0), r.1))
      ]
