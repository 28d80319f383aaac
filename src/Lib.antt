-- ===== src/Lib.antt =====
-- A rule engine that animates a body: every tick it composes a complete pose from the behaviors that
-- are live, hands it to a sink, and lets a seam change what is live. This library models the engine
-- and what it stands on:
--
-- - Base: texts, lists, Go maps (association lists), integers, decimals and results with an error.
--   `Base.Float64` is float64 as a record of operations of which nothing is assumed.
-- - Adaptor.Trajectory (internal/adaptor/trajectory.go): keyframes and easings, `compile` and
--   `At` (`sample`). Adaptor.Trajectory.Total: the width of what is sampled.
-- - Adaptor.Vocabulary (internal/adaptor/vocabulary.go): `parse` on a decoded document, the lookups
--   and the checks of references. Adaptor.Vocabulary.Sound, with Indexing and Claims: what an accepted
--   vocabulary satisfies.
-- - Senselog.Streak (internal/senselog/streak.go): `Enter`, `End` and `Fire`, with
--   Senselog.Streak.Episodes on what an episode logs. Senselog.Line (internal/senselog/senselog.go and
--   parse.go): the grammar of a line, `write`, `Drop` and `Parse`, with Pieces, RoundTrip
--   and Newlines on what is read of what is written.
-- - Tick.Behavior (internal/tick/behavior.go): classes, lifetimes, `Contribution` and `Bind`, with
--   Tick.Behavior.Binding and Tick.Behavior.Sampling on what `Bind` guarantees.
-- - Tick.Arbitration (internal/tick/arbitration.go): `Arbitrate`, `Admit` and `Compose`, with Owner,
--   Admission and Composition on what they compute.
-- - Tick.Engine (internal/tick/engine.go): State (the engine, `New`), Commands (`Send`, `drainInbox`,
--   `apply`, `admit`, `evict`, `nextID`), Loop (`composeTick`, `write`, `invokeSeam`,
--   `accountBudget`, `Run`), and the proofs in Minting, Validity, Preservation,
--   Draining, Outcomes, Runs, Total and Whole.
-- - Ruleeval.Predicate (internal/ruleeval/predicate.go): `Eval` and its comparisons, with
--   Ruleeval.Predicate.Meaning on what a predicate means. Ruleeval.Timing (internal/ruleeval/eval.go):
--   `stepArming`, `fireReason` and `markFired`, with Ruleeval.Timing.Spacing on when a rule may fire.
-- - Ruleeval.Ask: what the rules ask of the engine's TickContext, as a tree of calls, with
--   Ask.Contracts and Ask.Leaves. `as_seam` and Ask.Perform hand such a tree to an engine: they are how the theorems
--   join the rules and the engine, and translate no code of their own.
-- - Ruleeval.Registry (internal/ruleeval/registry.go): `RunOnce`, `StandingGoal`, `Withdraw`,
--   `Inhibit`, `Uninhibit` and `blocks`. Ruleeval.Evaluator (internal/ruleeval/eval.go): `New`,
--   `build`, `trackPresence`; Evaluator.Admission: the registry's `admit`, `apply`, `enforce` and
--   `sustain`; Evaluator.Rules: `runInhibit`, `fireReact` and `Tick`; Evaluator.Judged: what a tick
--   asks for; Evaluator.Turns and Evaluator.Pace: what one turn of a rule in them does to its state, and
--   when its turns fire; Evaluator.Stamps, with Evaluator.Registering: what a whole tick does to the
--   time of a rule's last fire. Ruleeval.Bus (internal/ruleeval/bus.go): `Add`, `Compose` and `call`.
--   Ruleeval.Enforced, with Ticks: a tick on an engine. Ruleeval.Loaded: loaded rules there.
-- - Rules.Model (internal/rules/model.go): rules, events and configurations. Rules.Document: decoded
--   TOML. Rules.Validate, with Validate.File (internal/rules/validate.go): one rule, and a whole file,
--   with Conditions, Scalars, Sound and Whole on what is accepted. Rules.Names: `applyVocabulary`. Rules.Load
--   (internal/rules/load.go): layers and their merge, with Merging and Layers on what comes of them.
-- - Events.Router (internal/events/router.go): `Route`, `admit`, `TickFields` and `renderTemplate`, with
--   Events.Router.Windows on what is routed when.
-- - Stream.Frame (internal/stream/frame.go): `encodeFrame` and `readFrame`. Stream.Session
--   (internal/stream/session.go): `dispatch` and its handlers, `enqueue`, `writeLoop` and `send`, as
--   steps of the goroutines of a session, with Stream.Session.Greeting on what is written and queued.
-- - Sense.Snapshot (internal/sense/snapshot.go): `Update`, `Get`, `AgeS`, `LastSeen` and `View`, with
--   Sense.Snapshot.Frames on what a frame does.
-- - Examples: a small body, and each theorem at it.
--
-- `Bind` is given the vocabulary that `parse` accepted; the engine binds what it is sent, arbitrates
-- and composes. The state of the engine is a record that every operation takes and returns. What the
-- engine is given from outside is explicit: the clock is a function from the number of readings, the
-- sink a function from the number of writes, a seam a tree of the calls that it makes, each of which
-- may depend on what the earlier ones returned, and the other goroutines a list of the commands that
-- they send before each tick. A panic is `none`, or a constructor where the code recovers from it. A
-- behavior's own `Contribute` may read a sensor and may panic: it is a function of the moment of the
-- call (the number of clock readings so far, another in each tick) and of the local time, and its
-- `none` is a panic, which nothing recovers and which ends the run. Commands that it sends count among
-- those of the other goroutines, for the next tick.
--
-- Bounds: the counters of `Stats` are 64 bits wide and wrap; the other counts are unbounded. The loop
-- of `nextID` runs on fuel, one round more than there are live behaviors, which the pigeonhole
-- principle makes enough. `Run` runs for as many ticks as the list of rounds has; the ticker stops
-- after the last. The loop of `drainInbox` ends after `inbox_size` rounds, as many as the inbox can
-- hold. A condition is validated by recursion on the two levels of groups that are left.
--
-- Not modelled: the texts of refusals (their kinds and labels are), the payloads of events, and the
-- decoding of JSON and TOML, which is a library's. Texts are bytes, taken to be valid UTF-8 where the
-- source goes by runes. Each method of the registry is one step, as its mutex makes it; concurrency
-- inside a tick is left out, of which the code has none but the inbox, the event consumers' lock and
-- the counters. The server of the stream, the providers and the management verbs are networks,
-- files and command lines; what they ask of the engine are commands, which here are any.
pub mod Base
pub mod Adaptor
pub mod Senselog
pub mod Tick
pub mod Rules
pub mod Events
pub mod Stream
pub mod Ruleeval
pub mod Sense
pub mod Examples
