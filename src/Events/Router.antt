-- ===== src/Events/Router.antt =====
-- internal/events/router.go. The identity of an event is its source and its type. `show` renders a value of a
-- payload, as the verb %v does. The mutex and the log are left out.
pub mod Windows
use neurosymbolic_system.Base.{
  ℕ, zero, suc, ◌+◌, Bool, true, false, not, ◌&&◌, Option, none, some, List, [], ◌∷◌, ◌++◌, Text,
  ◌==◌, if◌then◌else◌, eqb, mem, GoMap, lookup, insert, Time, Duration, time_sub, ltb_ℤ,
}
use neurosymbolic_system.Rules.Model.{Config, EventDefault, event_id, default_voice, voice_none}
use neurosymbolic_system.Rules.Model as Model
use neurosymbolic_system.Ruleeval.Registry.{add_name}

pub record Incoming (V : Type 0) : Type 0 where
  pub source : Text
  pub type : Text
  pub payload : GoMap V

pub record Routed : Type 0 where
  pub source : Text
  pub type : Text
  pub priority : Text
  pub urgency : Text
  pub llm_evaluate : Bool
  pub voice : Text
  pub sense : Text
  pub inject : Text
  pub deliver : Bool

pub record Router : Type 0 where
  pub by_id : GoMap Model.Event
  pub event_default : Option EventDefault
  pub window : Duration
  pub last_at : GoMap Time
  pub tick_keys : List Text

unfoldable pub index_events : List Model.Event → GoMap Model.Event → GoMap Model.Event
index_events [] out = out
index_events (e ∷ rest) out = index_events rest (insert (event_id e.source e.type) e out)

-- `New`, with the window that its options give
unfoldable pub new_router : {F : Type 0} → Config F → Duration → Router
new_router cfg window = record {
  by_id = index_events cfg.events [];
  event_default = cfg.event_default;
  window = window;
  last_at = [];
  tick_keys = [];
}

-- `admit`: whether a key may fire now
unfoldable pub within : Duration → Time → Option Time → Bool
within window now none = false
within window now (some last) = ltb_ℤ (time_sub now last) window

unfoldable pub admit_key : Time → Text → Router → Router × Bool
admit_key now key r =
    if within r.window now (lookup key r.last_at)
    then (r, false)
    else (record r { last_at = insert key now r.last_at }, true)

module _ {V : Type 0} (show : V → Text) where
  -- the name of a placeholder that is closed
  unfoldable pub up_to_brace : Text → Option Text
  up_to_brace [] = none
  up_to_brace (c ∷ s) =
      let later = up_to_brace s in
      if eqb c b'}' then some [] else elim later [ none ↦ none | some k ↦ some (c ∷ k) ]

  unfoldable pub placeholder : GoMap V → Option Text → Option Text
  placeholder payload none = none
  placeholder payload (some key) = elim (lookup key payload) [
    | none ↦ none
    | some v ↦ some (show v)
  ]

  unfoldable pub name_length : Option Text → ℕ
  name_length none = 0
  name_length (some []) = 0
  name_length (some (c ∷ k)) = name_length (some k) + 1

  -- `renderTemplate`, past so many bytes of a placeholder that has been rendered
  unfoldable pub render_from : GoMap V → ℕ → Text → Text
  render_from payload (suc skip) [] = []
  render_from payload (suc skip) (c ∷ s) = render_from payload skip s
  render_from payload zero [] = []
  render_from payload zero (c ∷ s) =
      let name = up_to_brace s in
      let rest = render_from payload (name_length name + 1) s in
      let literal = c ∷ render_from payload zero s in
      if eqb c b'{'
      then elim (placeholder payload name) [ none ↦ literal | some t ↦ t ++ rest ]
      else literal

  unfoldable pub render_template : Text → GoMap V → Text
  render_template template payload = render_from payload 0 template

  -- what an entry, or the default, says of an event
  unfoldable pub resolve : Router → Incoming V → Option Model.Event → Routed
  resolve r ev (some entry) = record {
    source = ev.source;
    type = ev.type;
    priority = entry.priority;
    urgency = entry.urgency;
    llm_evaluate = entry.llm_evaluate;
    voice = entry.voice;
    sense = entry.sense;
    inject = render_template entry.inject_template ev.payload;
    deliver = false;
  }
  resolve r ev none = elim r.event_default [
    | none ↦ record {
      source = ev.source;
      type = ev.type;
      priority = [];
      urgency = [];
      llm_evaluate = false;
      voice = [];
      sense = [];
      inject = [];
      deliver = false;
    }
    | some d ↦ record {
      source = ev.source;
      type = ev.type;
      priority = d.priority;
      urgency = d.urgency;
      llm_evaluate = d.llm_evaluate;
      voice = d.voice;
      sense = [];
      inject = [];
      deliver = false;
    }
  ]

  unfoldable pub with_voice : Routed → Routed
  with_voice routed =
      let voice = if routed.voice == [] then default_voice else routed.voice in
      record routed { voice = voice; deliver = not (voice == voice_none) }

  unfoldable pub dedupe_key : Text → Option Model.Event → Text
  dedupe_key id none = id
  dedupe_key id (some entry) = if entry.dedupe == [] then id else entry.dedupe

  -- `Route`
  unfoldable pub route : Time → Incoming V → Router → Router × Option Routed
  route now ev r =
      let id = event_id ev.source ev.type in
      let entry = lookup id r.by_id in
      let (r1, admitted) = admit_key now (dedupe_key id entry) r in
      if not admitted then (r1, none) else (
        record r1 { tick_keys = add_name id r1.tick_keys },
        some (with_voice (resolve r ev entry)),
      )

-- `TickFields`: the keys since the last call
unfoldable pub tick_fields : Router → Router × List Text
tick_fields r = (record r { tick_keys = [] }, r.tick_keys)
