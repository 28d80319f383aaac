-- ===== src/Ruleeval/Evaluator.antt =====
-- internal/ruleeval/eval.go: the state of an evaluator, and the behaviors that it builds. The perception
-- of a tick, and the event keys of its router, are given to the tick.
pub mod Admission
pub mod Rules
pub mod Judged
pub mod Turns
pub mod Pace
pub mod Registering
pub mod Stamps
use neurosymbolic_system.Base.{
  ℕ, ◌+◌, Bool, true, false, not, ◌&&◌, ◌||◌, Option, none, some, List, [], ◌∷◌, ◌++◌, Text, ◌==◌,
  if◌then◌else◌, mem, GoMap, lookup, insert, Time, time_sub, pos, is_some, Floats, Result, ok, err,
}
use neurosymbolic_system.Adaptor.Trajectory.{Trajectory}
use neurosymbolic_system.Adaptor.Vocabulary.{Vocabulary, Sense, Action, action_param, action_loops}
use neurosymbolic_system.Tick.Behavior.{Behavior, Lifetime, StopClass, stoppable}
use neurosymbolic_system.Senselog.Streak.{Streak, new_streak}
use neurosymbolic_system.Rules.Model.{Rule, Config}
use neurosymbolic_system.Ruleeval.Predicate.{View, Value, Absent, present}
use neurosymbolic_system.Ruleeval.Timing.{RuleState, new_state}
use neurosymbolic_system.Ruleeval.Registry.{Registry, Request, new_registry}

-- what a rule has logged and emitted of its suppression, which no decision reads
pub record Episode : Type 0 where
  pub reason : Text
  pub ticks : ℕ
  pub reasons : List Text
  pub streak : Streak

pub record RuleEntry : Type 0 where
  pub timing : RuleState
  pub episode : Episode

pub record Evaluator (F : Type 0) : Type 0 where
  pub rules : Config F
  pub voc : Vocabulary F
  pub id_prefix : Text
  pub registry : Registry F
  pub states : GoMap RuleEntry
  pub last_present : GoMap Time
  pub started_at : Option Time
  pub active_mode : Text

pub data NewError : Type 0 where
  no_rules no_vocabulary unbounded_rule : NewError

pub data ModeError : Type 0 where
  no_evaluator unknown_mode : ModeError

abbrev pub new_episode : Episode
new_episode = record { reason = []; ticks = 0; reasons = []; streak = new_streak }

abbrev pub stage_rule : Text
stage_rule = b'r' ∷ b'u' ∷ b'l' ∷ b'e' ∷ []

module _ (fl : Floats) where
  open fl use {F, f_zero, f_lt, seconds}

  unfoldable pub initial_states : GoMap RuleEntry → List (Rule F) → GoMap RuleEntry
  initial_states out [] = out
  initial_states out (rule ∷ rest) =
      initial_states (insert rule.id (record { timing = new_state; episode = new_episode }) out)
        rest

  unfoldable pub all_bounded : Vocabulary F → List (Rule F) → Bool
  all_bounded v [] = true
  all_bounded v (rule ∷ rest) =
      let later = all_bounded v rest in
      if not (is_some rule.duration_s) && action_loops fl v rule.run then false else later

  -- `New`
  unfoldable pub new_evaluator :
      Option (Config F) → Option (Vocabulary F) → Text → Result NewError (Evaluator F)
  new_evaluator none v id_prefix = err no_rules
  new_evaluator (some cfg) none id_prefix = err no_vocabulary
  new_evaluator (some cfg) (some v) id_prefix =
      if not (all_bounded v cfg.react)
      then err unbounded_rule
      else ok (record {
        rules = cfg;
        voc = v;
        id_prefix = if id_prefix == [] then stage_rule else id_prefix;
        registry = new_registry;
        states = initial_states [] (cfg.react ++ cfg.inhibit);
        last_present = [];
        started_at = none;
        active_mode = cfg.active_mode;
      })

  -- `SetActiveMode`: false for a mode that is not defined
  unfoldable pub set_active_mode : Text → Evaluator F → Evaluator F × Bool
  set_active_mode name e =
      if not (name == []) && not (is_some (lookup name e.rules.modes))
      then (e, false)
      else (record e { active_mode = name }, true)

  -- the registry's `SetMode`, for the evaluator that it is bound to
  unfoldable pub set_mode : Option (Evaluator F) → Text → Result ModeError (Evaluator F)
  set_mode none name = err no_evaluator
  set_mode (some e) name =
      let (e1, defined) = set_active_mode name e in if defined then ok e1 else err unknown_mode

  unfoldable pub mode_params : Evaluator F → GoMap F
  mode_params e =
      if e.active_mode == []
      then []
      else elim (lookup e.active_mode e.rules.modes) [ none ↦ [] | some params ↦ params ]

  -- the two loops of `mergeParams`
  unfoldable pub add_declared : Vocabulary F → Text → GoMap F → GoMap F → GoMap F
  add_declared v action out [] = out
  add_declared v action out ((key, value) ∷ rest) =
      add_declared v action
        (if is_some (action_param fl v action key) then insert key value out else out) rest

  unfoldable pub add_own : GoMap F → GoMap F → GoMap F
  add_own out [] = out
  add_own out ((key, value) ∷ rest) = add_own (insert key value out) rest

  unfoldable pub merge_params : Evaluator F → Text → GoMap F → GoMap F
  merge_params e action own = add_own (add_declared e.voc action [] (mode_params e)) own

  unfoldable pub longest : F → GoMap (Option (Trajectory F)) → F
  longest best [] = best
  longest best ((channel, none) ∷ rest) = longest best rest
  longest best ((channel, some tr) ∷ rest) =
      longest (if f_lt best tr.duration then tr.duration else best) rest

  -- `actionDuration`
  unfoldable pub action_duration : List (Action F) → Text → Option F
  action_duration [] action = none
  action_duration (a ∷ rest) action =
      let bound = longest f_zero a.trajectories in
      let later = action_duration rest action in
      if a.name == action then (if f_lt f_zero bound then some bound else none) else later

  unfoldable pub request_bound : Evaluator F → Request F → Option F
  request_bound e req = elim req.duration_s [
    | some d ↦ some d
    | none ↦ if req.loops then none else action_duration e.voc.actions req.action
  ]

  unfoldable pub build : Evaluator F → Text → Text → Request F → Behavior F
  build e id name req = record {
    name = name;
    id = id;
    class = elim req.class [ none ↦ stoppable | some c ↦ c ];
    channels = [];
    lifetime = record { duration_s = request_bound e req; loops = req.loops };
    action = req.action;
    params = merge_params e req.action req.params;
    admitted_at = pos 0;
    trajectories = [];
    contribute = none;
  }

  -- `snapshot`: the perception, if there is any, with the routed event keys, if there is a router
  unfoldable pub add_routed : View F → View F → View F
  add_routed view [] = view
  add_routed view ((key, value) ∷ rest) = add_routed (insert key value view) rest

  unfoldable pub snapshot : Option (View F) → Option (View F) → View F
  snapshot perceived routed =
      let view : View F = elim perceived [ none ↦ [] | some v ↦ v ] in
      elim routed [ none ↦ view | some fields ↦ add_routed view fields ]

  -- the two loops of `trackPresence`
  unfoldable pub seed_present : List Sense → Time → GoMap Time → GoMap Time
  seed_present [] now out = out
  seed_present (s ∷ rest) now out = seed_present rest now (insert s.name now out)

  unfoldable pub note_present : List Sense → View F → Time → GoMap Time → GoMap Time
  note_present [] view now out = out
  note_present (s ∷ rest) view now out =
      note_present rest view now (if present view s.name then insert s.name now out else out)

  unfoldable pub track_presence : View F → Time → Evaluator F → Evaluator F
  track_presence view now e =
      let seeded : Evaluator F = elim e.started_at [
        | some at ↦ e
        | none ↦ record e {
          last_present = seed_present e.voc.senses now e.last_present;
          started_at = some now;
        }
      ] in
      record seeded { last_present = note_present e.voc.senses view now seeded.last_present }

  -- `startedAt` is the zero time until the first tick
  unfoldable pub absent_for_s : Evaluator F → Time → Text → F
  absent_for_s e now field = seconds (
      time_sub now (elim (lookup field e.last_present) [
        | some at ↦ at
        | none ↦ elim e.started_at [ none ↦ pos 0 | some at ↦ at ]
      ]))

  unfoldable pub absent_func : Evaluator F → Time → Absent F
  absent_func e now = some (absent_for_s e now)
