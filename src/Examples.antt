-- ===== src/Examples.antt =====
-- A small body, a wave and a nod, and an engine that plays them: the inputs of the tests. The numbers
-- are whole, so that everything here computes.
mod Tests
mod Ruleset
mod Rulebook
mod Lines
mod Riders
mod Peer
use neurosymbolic_system.Base.{
  ℕ, ◌+◌, ◌-◌, ◌*◌, ◌/◌, ◌%◌, Bool, true, false, Option, none, some, List, [], ◌∷◌, Text, ltb, leb,
  eqb, pos, pos_part, if◌then◌else◌, GoMap, Floats, Result, ok, err,
}
use neurosymbolic_system.Adaptor.Trajectory.{Keyframe, Easing, Trajectory, linear}
use neurosymbolic_system.Adaptor.Vocabulary.{Channel, Action, Config, Vocabulary, parse}
use neurosymbolic_system.Tick.Behavior.{Behavior, StopClass, stoppable, stopping, unstoppable, bind}
use neurosymbolic_system.Tick.Engine.State as State

-- whole numbers in place of float64, with as many seconds as there are thousands of nanoseconds
abbrev pub whole : Floats
whole = record {
  F = ℕ;
  f_zero = 0;
  f_half = 0;
  f_one = 1;
  f_pi = 3;
  f_add = λ a b. a + b;
  f_sub = λ a b. a - b;
  f_mul = λ a b. a * b;
  f_div = λ a b. if eqb b 0 then 0 else a / b;
  f_mod = λ a b. if eqb b 0 then 0 else a % b;
  f_cos = λ a. a;
  f_lt = ltb;
  f_le = leb;
  f_eq = eqb;
  is_nan = λ a. false;
  is_inf = λ a. false;
  seconds = λ d. pos_part d / 1000;
  of_int = pos_part;
}

abbrev pub pan : Text
pan = b'p' ∷ b'a' ∷ b'n' ∷ []

abbrev pub led : Text
led = b'l' ∷ b'e' ∷ b'd' ∷ []

abbrev pub wave : Text
wave = b'w' ∷ b'a' ∷ b'v' ∷ b'e' ∷ []

abbrev pub nod : Text
nod = b'n' ∷ b'o' ∷ b'd' ∷ []

abbrev pub swing : Trajectory ℕ
swing = record {
  keyframes = [];
  easing = some (record { kind = linear; from = 0 ∷ []; to = 8 ∷ []; duration_s = 4 });
  loops = false;
  duration = 0;
  arity = 0;
}

-- the swing once it is compiled
abbrev pub compiled : Trajectory ℕ
compiled = record swing { duration = 4; arity = 1 }

abbrev pub blink : Trajectory ℕ
blink = record {
  keyframes = record { t = 0; value = 1 ∷ 2 ∷ [] } ∷ record { t = 3; value = 4 ∷ 5 ∷ [] } ∷ [];
  easing = none;
  loops = false;
  duration = 0;
  arity = 0;
}

abbrev pub pan_channel : Channel ℕ
pan_channel = record { name = pan; arity = 1; neutral = 7 ∷ [] }

abbrev pub led_channel : Channel ℕ
led_channel = record { name = led; arity = 2; neutral = 0 ∷ 0 ∷ [] }

abbrev pub wave_action : Action ℕ
wave_action = record {
  name = wave;
  claims = pan ∷ [];
  loops = true;
  params = [];
  trajectories = (pan, some swing) ∷ [];
}

abbrev pub nod_action : Action ℕ
nod_action = record {
  name = nod;
  claims = pan ∷ led ∷ [];
  loops = false;
  params = [];
  trajectories = (pan, some swing) ∷ (led, some blink) ∷ [];
}

abbrev pub body : Config ℕ
body = record {
  channels = pan_channel ∷ led_channel ∷ [];
  senses = [];
  actions = wave_action ∷ nod_action ∷ [];
}

abbrev pub or_else {ℓ κ} : {E : Type κ} {A : Type ℓ} → A → Result E A → A
or_else d (ok a) = a
or_else d (err e) = d

abbrev pub no_body : Vocabulary ℕ
no_body = record {
  channels = [];
  senses = [];
  actions = [];
  channel_by_name = [];
  sense_by_name = [];
  action_by_name = [];
}

abbrev pub playing : Text → Text → StopClass → Behavior ℕ
playing id action class = record {
  name = action;
  id = id;
  class = class;
  channels = [];
  lifetime = record { duration_s = some 9; loops = false };
  action = action;
  params = [];
  admitted_at = pos 0;
  trajectories = [];
  contribute = none;
}

-- a behavior that has its channels already
abbrev pub on_pan : Text → StopClass → Behavior ℕ
on_pan id class = record (playing id wave class) { channels = pan ∷ [] }

abbrev pub waver : Behavior ℕ
waver = on_pan wave stoppable

abbrev pub guard : Behavior ℕ
guard = on_pan (b'g' ∷ []) unstoppable

abbrev pub nodder : Behavior ℕ
nodder = record (playing nod nod stopping) { channels = pan ∷ led ∷ [] }

abbrev pub settings : State.Config
settings = record {
  period = pos 40;
  base_layer = true;
  base_action = wave;
  max_errors = 2;
  settle = none;
  inbox_size = 3;
}

-- a clock that moves on at each reading, and a sink whose second write fails
abbrev pub room : State.World
room = record { clock = λ n. pos (1000 * n + 1); accepts = λ n. if eqb n 1 then false else true }

abbrev pub voc : Vocabulary ℕ
voc = or_else no_body (parse whole body)

abbrev pub idle : Behavior ℕ
idle = playing [] wave stoppable

abbrev pub bound : Behavior ℕ
bound = or_else idle (bind whole (some voc) idle)

abbrev pub engine : State.Engine ℕ
engine = State.fresh whole voc settings

-- a seam that admits a nod, evicts what waves and then panics
abbrev pub busy : State.TickSeam ℕ
busy view =
    State.ask_admit (playing [] nod unstoppable)
      (λ r. State.ask_evict wave (λ n. State.ask_names (λ names. State.panic)))

abbrev pub rounds : List (List (State.Command ℕ))
rounds =
    (State.admit_cmd idle ∷ State.set_seam_cmd (some busy) ∷ [])
    ∷ (State.evict_cmd nod ∷ [])
    ∷ []
    ∷ []
