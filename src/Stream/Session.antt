-- ===== src/Stream/Session.antt =====
-- internal/stream/session.go: one peer. An inbound frame is what the JSON decoder makes of it, with the body
-- as the strict decoder reads it for each kind. A goroutine moves in steps: the reader by a frame, the tick
-- goroutine by a telemetry frame that it enqueues, the writer by a frame that it takes, a management verb by
-- its end. What is written stands in `wire`, in order, while the peer's connection takes it; a telemetry frame
-- `fits`, and the result of a verb, if it can be encoded. The texts of refusals and the log are left out, the reasons of drops are kept.
pub mod Greeting
use neurosymbolic_system.Base.{
  ℕ, ◌+◌, ◌-◌, ℤ, pos, negsuc, Bool, true, false, not, ◌&&◌, ◌||◌, Option, none, some, List, [],
  ◌∷◌, ◌++◌, Text, ◌==◌, if◌then◌else◌, ltb, leb, eqb, length, GoMap, Floats, Result, ok, err,
}
use neurosymbolic_system.Adaptor.Vocabulary.{Vocabulary}
use neurosymbolic_system.Tick.Behavior.{Behavior, StopClass, stoppable}
use neurosymbolic_system.Tick.Behavior as Tick
use neurosymbolic_system.Tick.Engine.State.{Engine, Command, admit_cmd, evict_cmd}
use neurosymbolic_system.Tick.Engine.Commands as Commands
use neurosymbolic_system.Ruleeval.Predicate.{View}

abbrev pub kind_hello : Text
kind_hello = b'h' ∷ b'e' ∷ b'l' ∷ b'l' ∷ b'o' ∷ []

abbrev pub kind_sense : Text
kind_sense = b's' ∷ b'e' ∷ b'n' ∷ b's' ∷ b'e' ∷ []

abbrev pub kind_intent : Text
kind_intent = b'i' ∷ b'n' ∷ b't' ∷ b'e' ∷ b'n' ∷ b't' ∷ []

abbrev pub kind_mgmt : Text
kind_mgmt = b'm' ∷ b'g' ∷ b'm' ∷ b't' ∷ []

abbrev pub op_admit : Text
op_admit = b'a' ∷ b'd' ∷ b'm' ∷ b'i' ∷ b't' ∷ []

abbrev pub op_evict : Text
op_evict = b'e' ∷ b'v' ∷ b'i' ∷ b'c' ∷ b't' ∷ []

abbrev pub max_client_name_bytes : ℕ
max_client_name_bytes = 64

-- `intentIn`; a class that is left out is none
pub record Intent (F : Type 0) : Type 0 where
  pub op : Text
  pub name : Text
  pub action : Text
  pub class : Option StopClass
  pub channels : List Text
  pub duration_s : Option F
  pub loops : Bool
  pub params : GoMap F
  pub id : Text

-- what `decodeStrict` makes of a body, for each kind: the client's name, the fields, the intent, the id
pub record Body (F : Type 0) : Type 0 where
  pub hello : Option Text
  pub sense : Option (View F)
  pub intent : Option (Intent F)
  pub mgmt : Option Text

pub data Inbound (F : Type 0) : Type 0 where
  not_json : Inbound F
  frame : Option ℤ → Text → Body F → Inbound F

pub data Code : Type 0 where
  user_error env_error : Code

pub data Outbound : Type 0 where
  greeting : Outbound
  refused : Code → Text → Outbound
  mgmt_result : Text → Outbound
  telemetry : Text → Outbound

-- `outFrame`
pub record Queued : Type 0 where
  pub kind : Text
  pub fits : Bool

pub data DropReason : Type 0 where
  backpressure too_large mgmt_busy : DropReason

pub record Session (F : Type 0) : Type 0 where
  pub is_stdio : Bool
  pub vocabulary : Option (Vocabulary F)
  pub engine : Option (Engine F)
  pub sensed : Option (List (View F))
  pub handles_mgmt : Bool
  pub capacity : ℕ
  pub max_inflight : ℕ
  pub greeted : Bool
  pub subscribed : Bool
  pub quit : Bool
  pub reading : Bool
  pub peer_up : Bool
  pub queue : List Queued
  pub wire : List Outbound
  pub inflight : ℕ
  pub drops : List DropReason

module _ {F : Type 0} where
  -- `send`
  unfoldable pub send : Outbound → Session F → Session F
  send out s = if s.quit || not s.peer_up then s else record s { wire = s.wire ++ out ∷ [] }

  abbrev pub refuse : Code → Text → Session F → Session F
  refuse code id s = send (refused code id) s

  -- `enqueue`
  unfoldable pub enqueue_frame : Text → Bool → Session F → Session F
  enqueue_frame kind fits s =
      if not s.subscribed || s.quit
      then s
      else if ltb (length s.queue) s.capacity
      then record s { queue = s.queue ++ record { kind = kind; fits = fits } ∷ [] }
      else record s { drops = s.drops ++ backpressure ∷ [] }

  -- one round of `writeLoop`, with `writeFrame`: a connection that fails detaches the session
  unfoldable pub write_taken : Queued → List Queued → Session F → Session F
  write_taken q rest s =
      let s1 = record s { queue = rest } in
      if not q.fits
      then record s1 { drops = s.drops ++ too_large ∷ [] }
      else if not s.peer_up
      then record s1 { quit = true }
      else record s1 { wire = s.wire ++ telemetry q.kind ∷ [] }

  unfoldable pub write_next : List Queued → Session F → Session F
  write_next [] s = s
  write_next (q ∷ rest) s = write_taken q rest s

  -- `handleHello`
  unfoldable pub handle_hello : Option Text → Session F → Session F × Bool
  handle_hello none s = (refuse user_error [] s, false)
  handle_hello (some client) s =
      let s1 = record s { greeted = true } in
      if ltb max_client_name_bytes (length client)
      then (refuse user_error [] s, false)
      else if s.quit
      then (s1, false)
      else if not s.peer_up
      then (record s1 { subscribed = true }, false)
      else (record s1 { subscribed = true; wire = s.wire ++ greeting ∷ [] }, true)

  -- `handleSense`
  unfoldable pub handle_sense : Option (View F) → Option (List (View F)) → Session F → Session F
  handle_sense fields none s = refuse env_error [] s
  handle_sense none (some seen) s = refuse user_error [] s
  handle_sense (some fields) (some seen) s = record s { sensed = some (seen ++ fields ∷ []) }

  -- `sendCommand`
  unfoldable pub send_command : Command F → Text → Engine F → Session F → Session F
  send_command cmd id eng s =
      let (eng1, sent) = Commands.send cmd eng in
      let s1 = record s { engine = some eng1 } in if sent then s1 else refuse env_error id s1

  -- the behavior of `admit`
  abbrev pub intended : Intent F → Behavior F
  intended i = record {
    name = i.name;
    id = i.id;
    class = elim i.class [ none ↦ stoppable | some c ↦ c ];
    channels = i.channels;
    lifetime = record { duration_s = i.duration_s; loops = i.loops };
    action = i.action;
    params = i.params;
    admitted_at = pos 0;
    trajectories = [];
    contribute = none;
  }

  -- `handleMgmt`, up to where the verb runs
  unfoldable pub handle_mgmt : Option Text → Session F → Session F
  handle_mgmt none s = refuse user_error [] s
  handle_mgmt (some id) s =
      if not s.handles_mgmt
      then refuse env_error id s
      else if ltb s.max_inflight (s.inflight + 1)
      then refuse env_error id (record s { drops = s.drops ++ mgmt_busy ∷ [] })
      else record s { inflight = s.inflight + 1 }

  -- The end of a verb that runs. A result that does not fit a frame is not written.
  unfoldable pub finish_mgmt : Text → Bool → Session F → Session F
  finish_mgmt id fits s =
      let s1 = record s { inflight = s.inflight - 1 } in
      if eqb s.inflight 0 then s else if fits then send (mgmt_result id) s1 else s1

module _ (fl : Floats) where
  open fl use {F}

  -- `admit`
  unfoldable pub bound_or : Option (Vocabulary F) → Behavior F → Option (Behavior F)
  bound_or none b = some b
  bound_or (some v) b = elim (Tick.bind fl (some v) b) [ ok bound ↦ some bound | err e ↦ none ]

  unfoldable pub admit_bound : Option (Behavior F) → Text → Engine F → Session F → Session F
  admit_bound none id eng s = refuse user_error id s
  admit_bound (some b) id eng s = send_command (admit_cmd b) id eng s

  -- `handleIntent`
  unfoldable pub handle_intent : Option (Intent F) → Option (Engine F) → Session F → Session F
  handle_intent i none s = refuse env_error [] s
  handle_intent none (some eng) s = refuse user_error [] s
  handle_intent (some i) (some eng) s =
      if i.op == op_evict
      then (if i.name == []
          then refuse user_error i.id s
          else send_command (evict_cmd i.name) i.id eng s)
      else if i.op == op_admit
      then admit_bound (bound_or s.vocabulary (intended i)) i.id eng s
      else refuse user_error i.id s

  abbrev pub speaks : ℤ → Bool
  speaks (pos n) = eqb n 1
  speaks (negsuc n) = false

  -- the kinds of a session that has been greeted
  unfoldable pub dispatch_kind : Text → Body F → Session F → Session F × Bool
  dispatch_kind kind body s =
      if kind == kind_hello
      then (refuse user_error [] s, false)
      else if kind == kind_sense
      then (handle_sense body.sense s.sensed s, true)
      else if kind == kind_intent
      then (handle_intent body.intent s.engine s, true)
      else if kind == kind_mgmt
      then (handle_mgmt body.mgmt s, true)
      else (refuse user_error [] s, true)

  -- `dispatch`, and whether the session survives it
  unfoldable pub dispatch : Inbound F → Session F → Session F × Bool
  dispatch not_json s = (refuse user_error [] s, false)
  dispatch (frame none kind body) s = (refuse user_error [] s, false)
  dispatch (frame (some v) kind body) s =
      if not (speaks v)
      then (refuse user_error [] s, false)
      else if s.greeted
      then dispatch_kind kind body s
      else if kind == kind_hello
      then handle_hello body.hello s
      else (refuse user_error [] s, false)

  -- `readerEnded`: on a socket the session goes with its reader
  unfoldable pub reader_ended : Session F → Session F
  reader_ended s = record s { reading = false; quit = s.quit || not s.is_stdio }

  unfoldable pub after_dispatch : Session F × Bool → Session F
  after_dispatch (s, true) = s
  after_dispatch (s, false) = reader_ended s

  -- one round of `readLoop`
  unfoldable pub read_step : Inbound F → Session F → Session F
  read_step i s = if s.reading then after_dispatch (dispatch i s) else s

  pub data Step : Type 0 where
    inbound : Inbound F → Step
    telemeter : Text → Bool → Step
    write_one : Step
    mgmt_done : Text → Bool → Step
    hang_up shut_down : Step

  unfoldable pub step : Step → Session F → Session F
  step (inbound i) s = read_step i s
  step (telemeter kind fits) s = enqueue_frame kind fits s
  step write_one s = write_next s.queue s
  step (mgmt_done id fits) s = finish_mgmt id fits s
  step hang_up s = record s { peer_up = false }
  step shut_down s = record s { quit = true }

  unfoldable pub run_steps : List Step → Session F → Session F
  run_steps [] s = s
  run_steps (x ∷ rest) s = run_steps rest (step x s)

  -- `newSession`
  abbrev pub new_session :
      Bool
      → Option (Vocabulary F)
      → Option (Engine F)
      → Option (List (View F))
      → Bool
      → ℕ
      → ℕ
      → Session F
  new_session is_stdio vocabulary engine sensed handles_mgmt capacity max_inflight = record {
    is_stdio = is_stdio;
    vocabulary = vocabulary;
    engine = engine;
    sensed = sensed;
    handles_mgmt = handles_mgmt;
    capacity = capacity;
    max_inflight = max_inflight;
    greeted = false;
    subscribed = false;
    quit = false;
    reading = true;
    peer_up = true;
    queue = [];
    wire = [];
    inflight = 0;
    drops = [];
  }
