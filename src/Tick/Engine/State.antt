-- ===== src/Tick/Engine/State.antt =====
-- internal/tick/engine.go: the state of an engine. Fields that the Go code shares with the outside
-- are made explicit: `reads` counts the readings of the clock, `written` holds the poses handed to
-- the sink (latest first) and `named` the drops that were reported. A panic and an error are values.
use neurosymbolic_system.Base.{
  ℕ, ◌+◌, ◌%◌, ◌^◌, Bool, true, false, Option, none, some, List, [], ◌∷◌, map, Text, eqb,
  if◌then◌else◌, leb_ℤ, pos, GoMap, insert, Time, Duration, Floats, Result, ok, err,
}
use neurosymbolic_system.Adaptor.Vocabulary.{Vocabulary, Pose, names_of, neutral}
use neurosymbolic_system.Senselog.Streak.{Streak, new_streak}
use neurosymbolic_system.Tick.Behavior.{Behavior, BindError, Contribution}
use neurosymbolic_system.Tick.Arbitration.{unowned, AdmitResult}

abbrev pub default_inbox_size : ℕ
default_inbox_size = 64

abbrev pub default_max_errors : ℕ
default_max_errors = 5

-- A negative MaxErrors or InboxSize is replaced by its default as 0 is.
pub record Config : Type 0 where
  pub period : Duration
  pub base_layer : Bool
  pub base_action : Text
  pub max_errors : ℕ
  pub settle : Option Bool
  pub inbox_size : ℕ

-- What the engine is given: the clock's readings, and whether each write to the sink succeeds.
pub record World : Type 0 where
  pub clock : ℕ → Time
  pub accepts : ℕ → Bool

-- An event's payload is opaque to the engine.
pub record Event : Type 0 where
  pub name : Text

-- `%w: …` of errDuplicateID, and a refusal of `Bind`
pub data AdmitError : Type 0 where
  refused : BindError → AdmitError
  duplicate_id : AdmitError

-- What a seam does with its TickContext, call by call, with what each call returns. It may panic.
pub data SeamCall (F : Type 0) : Type 0 where
  return : SeamCall F
  panic : SeamCall F
  ask_admit : Behavior F → (Result AdmitError AdmitResult → SeamCall F) → SeamCall F
  ask_evict : Text → (ℕ → SeamCall F) → SeamCall F
  ask_names : (List Text → SeamCall F) → SeamCall F
  emit : Event → SeamCall F → SeamCall F

-- What a seam can read of one tick.
pub record SeamView (F : Type 0) : Type 0 where
  pub now : Time
  pub tick_number : ℕ
  pub ownership : GoMap Text
  pub pose : Pose F
  pub contributions : GoMap (Contribution F)

abbrev pub TickSeam : Type 0 → Type 0
TickSeam F = SeamView F → SeamCall F

-- `unknown` is a command of none of the three types, such as a nil one.
pub data Command (F : Type 0) : Type 0 where
  admit_cmd : Behavior F → Command F
  evict_cmd : Text → Command F
  set_seam_cmd : Option (TickSeam F) → Command F
  unknown : Command F

-- one constructor for each call of `log.drop`
pub data Drop : Type 0 where
  admit_refused : Text → Drop
  admit_duplicate : Text → Drop
  unknown_command : Drop
  wrong_arity : Text → Drop
  write_failed : Drop
  settle_failed : Drop
  seam_panic : Drop
  event_panic : Drop

pub record ActiveBehavior (F : Type 0) : Type 0 where
  pub behavior : Behavior F
  pub is_base : Bool

pub record Engine (F : Type 0) : Type 0 where
  pub voc : Vocabulary F
  pub cfg : Config
  pub channels : List Text
  pub inbox : List (Command F)
  pub active : List (ActiveBehavior F)
  pub seq : ℕ
  pub seam : Option (TickSeam F)
  pub last_pose : Pose F
  pub last_ownership : GoMap Text
  pub overrun : Streak
  pub in_overrun : Bool
  pub sink_failures : ℕ
  pub ticks : ℕ
  pub overruns : ℕ
  pub drops : ℕ
  pub sink_errors : ℕ
  pub inbox_drops : ℕ
  pub seam_panics : ℕ
  pub consumers : List (Event → Bool)
  pub reads : ℕ
  pub written : List (Pose F)
  pub named : List Drop

-- `Add(1)` on an atomic.Uint64
unfoldable pub count_up : ℕ → ℕ
count_up n = (n + 1) % 2 ^ 64

-- `log.drop`
unfoldable pub drop : {F : Type 0} → Drop → Engine F → Engine F
drop d e = record e { drops = count_up e.drops; named = d ∷ e.named }

-- `e.clock.Now()`, and the reading counted
abbrev pub clock_now : {F : Type 0} → World → Engine F → Time
clock_now w e = w.clock e.reads

abbrev pub clock_read : {F : Type 0} → Engine F → Engine F
clock_read e = record e { reads = e.reads + 1 }

-- `behaviors`
unfoldable pub behaviors : {F : Type 0} → List (ActiveBehavior F) → List (Behavior F)
behaviors = map (λ ab. ab.behavior)

pub data NewError : Type 0 where
  no_vocabulary no_sink bad_period no_base_action : NewError

unfoldable pub or_default : ℕ → ℕ → ℕ
or_default n d = if eqb n 0 then d else n

unfoldable pub unowned_from : GoMap Text → List Text → GoMap Text
unowned_from out [] = out
unowned_from out (name ∷ rest) = unowned_from (insert name unowned out) rest

-- the engine that `New` builds once its guards have passed
unfoldable pub fresh : (fl : Floats) → Vocabulary fl.F → Config → Engine fl.F
unfolding or_default unowned_from new_streak
fresh fl v cfg = record {
  voc = v;
  cfg = record cfg {
    max_errors = or_default cfg.max_errors default_max_errors;
    inbox_size = or_default cfg.inbox_size default_inbox_size;
  };
  channels = names_of v.channels;
  inbox = [];
  active = [];
  seq = 0;
  seam = none;
  last_pose = neutral fl v;
  last_ownership = unowned_from [] (names_of v.channels);
  overrun = new_streak;
  in_overrun = false;
  sink_failures = 0;
  ticks = 0;
  overruns = 0;
  drops = 0;
  sink_errors = 0;
  inbox_drops = 0;
  seam_panics = 0;
  consumers = [];
  reads = 0;
  written = [];
  named = [];
}

unfoldable pub guard_base : Config → Bool
guard_base cfg = elim cfg.base_action [ [] ↦ cfg.base_layer | _ ∷ _ ↦ false ]

-- `New`: `has_sink` says whether the sink is not nil.
unfoldable pub new_engine :
    (fl : Floats) → Option (Vocabulary fl.F) → Config → Bool → Result NewError (Engine fl.F)
unfolding guard_base
new_engine fl none cfg has_sink = err no_vocabulary
new_engine fl (some v) cfg false = err no_sink
new_engine fl (some v) cfg true =
    if leb_ℤ cfg.period (pos 0)
    then err bad_period
    else if guard_base cfg
    then err no_base_action
    else ok (fresh fl v cfg)
