-- ===== src/Examples/Ruleset.antt =====
-- The rules of a small body, at work on its engine: a rule that nods and a rule that stops the wave.
use neurosymbolic_system.Base.{
  ◌≡◌, refl, ℕ, true, none, some, List, [], ◌∷◌, ◌==◌, Text, mem, any, lookup, insert, ok,
  text_discrete, pos, is_some, Bool-cases, inl, inr, arith,
}
use neurosymbolic_system.Tick.Engine.State.{AdmitError}
use neurosymbolic_system.Tick.Engine.Loop.{run_seam}
use neurosymbolic_system.Tick.Engine.Names.{NamesAll}
use neurosymbolic_system.Ruleeval.Predicate.{predicate, no_more, number, gt, View}
use neurosymbolic_system.Ruleeval.Predicate.Meaning.{Loadable}
use neurosymbolic_system.Rules.Model.{Rule, Config, react, inhibit}
use neurosymbolic_system.Senselog.Streak as Streak
use neurosymbolic_system.Ruleeval.Timing.{new_state, step_arming, mark_fired, fire_reason, cooling}
use neurosymbolic_system.Ruleeval.Timing.Spacing.{Spaced}
use neurosymbolic_system.Ruleeval.Ask.{as_seam, bind, Ensures}
use neurosymbolic_system.Ruleeval.Ask.Perform.{perform}
use neurosymbolic_system.Ruleeval.Evaluator.{
  Evaluator, RuleEntry, new_episode, snapshot, track_presence, absent_func,
}
use neurosymbolic_system.Ruleeval.Registry.{request_id, blocks, token_blocked}
use neurosymbolic_system.Ruleeval.Evaluator.Admission.{ask_admit, request_name}
use neurosymbolic_system.Ruleeval.Evaluator.Rules.{
  inhibited_now, tick_rules, reason_rearming, put_entry, react_step, react_judged, settle_fire,
  open_gate, release, fire_rule, gate_react, gate, suppress,
}
use neurosymbolic_system.Ruleeval.Evaluator.Turns.{Ends}
use neurosymbolic_system.Ruleeval.Evaluator.Stamps.{Stamped, tick_rules-Stamped}
use neurosymbolic_system.Ruleeval.Evaluator.Pace.{
  Turn, Turns, fire_times, fire_times-Spaced, fire_times-held,
}
use neurosymbolic_system.Ruleeval.Evaluator.Judged.{Known, Allowed, Sane, tick_rules-Ensures}
use neurosymbolic_system.Ruleeval.Enforced.{Free}
use neurosymbolic_system.Ruleeval.Enforced.Ticks.{tick_rules-clears}
use neurosymbolic_system.Examples.{whole, pan, led, wave, nod, voc, engine, room}

abbrev rule : Text → Text → Rule ℕ
rule id field = record {
  id = id;
  kind = react;
  when = predicate field gt (number 2) no_more no_more;
  run = nod;
  disable = [];
  params = [];
  cooldown_s = 5;
  hysteresis = 2;
  duration_s = some 3;
  say = [];
}

abbrev house_rules : Config ℕ
house_rules = record {
  schema_version = 1;
  active_mode = [];
  modes = [];
  react = rule nod led ∷ [];
  inhibit = record (rule wave pan) { kind = inhibit; run = []; disable = wave ∷ [] } ∷ [];
  disabled = [];
  events = [];
  event_default = none;
}

abbrev entry : RuleEntry
entry = record { timing = new_state; episode = new_episode }

abbrev evaluator : Evaluator ℕ
evaluator = record {
  rules = house_rules;
  voc = voc;
  id_prefix = pan;
  registry = record { queue = []; goals = []; goal_order = []; inhibited = []; seq = 0 };
  states = (nod, entry) ∷ (wave, entry) ∷ [];
  last_present = [];
  started_at = none;
  active_mode = [];
}

abbrev seen : View ℕ
seen = (led, number 3) ∷ (pan, number 9) ∷ []

abbrev rule_ids : List Text
rule_ids = nod ∷ wave ∷ []

abbrev text_of : AdmitError → Text
text_of x = []

react-Known : Known rule_ids house_rules.react
unfolding Loadable mem any text_discrete
react-Known = ((refl, (tt, tt, tt)), tt)

inhibit-Known : Known rule_ids house_rules.inhibit
unfolding Loadable mem any text_discrete
inhibit-Known = ((refl, (tt, tt, tt)), tt)

has_state : (id : Text) → mem id rule_ids ≡ true → is_some (lookup id evaluator.states) ≡ true
unfolding mem any lookup
has_state id h = elim (Bool-cases (id == nod)) [
  | inl p ↦ rw p refl
  | inr p ↦ elim (Bool-cases (id == wave)) [ inl q ↦ rw (p, q) refl | inr q ↦ ground arith ]
]

tick_rules-clears_example :
    (by_rules : List Text) × (let ev1 =
        track_presence whole (snapshot whole (some seen) none) (pos 1000) evaluator in
      inhibited_now whole text_of
        (snapshot whole (some seen) none)
        (absent_func whole ev1 (pos 1000))
        []
        ev1.rules.inhibit
      ≡ some by_rules)
    × (is_some
          (perform whole room
            (tick_rules whole text_of (some seen) none (pos 1000) evaluator)
            engine).1
        ≡ true)
    × NamesAll (Free whole room evaluator.registry.inhibited by_rules) (
        run_seam whole room
          (as_seam (tick_rules whole text_of (some seen) none (pos 1000) evaluator))
          engine)
tick_rules-clears_example =
    tick_rules-clears whole room text_of rule_ids (some seen) none (pos 1000) evaluator engine
      react-Known inhibit-Known has_state

tick_rules-Ensures_example :
    (by_rules : List Text) × (let ev1 =
        track_presence whole (snapshot whole (some seen) none) (pos 1000) evaluator in
      inhibited_now whole text_of
        (snapshot whole (some seen) none)
        (absent_func whole ev1 (pos 1000))
        []
        ev1.rules.inhibit
      ≡ some by_rules)
    × Ensures
        (Allowed whole text_of house_rules rule_ids [] by_rules)
        (Sane whole text_of house_rules rule_ids [] by_rules)
        (tick_rules whole text_of (some seen) none (pos 1000) evaluator)
tick_rules-Ensures_example =
    tick_rules-Ensures whole text_of rule_ids (some seen) none (pos 1000) evaluator react-Known
      inhibit-Known has_state

tick_rules-Stamped_example :
    Ensures
      (λ b. Unit)
      (λ e'. Stamped whole text_of (rule nod led) none (pos 1000) e'.states)
      (tick_rules whole text_of (some seen) none (pos 1000) evaluator)
unfolding lookup text_discrete
tick_rules-Stamped_example =
    tick_rules-Stamped whole text_of (rule nod led) rule_ids (some seen) none (pos 1000) evaluator
      react-Known inhibit-Known has_state (inr (refl, refl), tt) (inl refl, tt) refl

abbrev nodder : Rule ℕ
nodder = rule nod led

-- after the first turn, in which the engine admits the nod
abbrev fired_entry : RuleEntry
fired_entry = record {
  timing = mark_fired whole nodder (step_arming whole nodder new_state true (pos 1000)) (pos 1000);
  episode = record new_episode { streak = (Streak.fire new_episode.streak []).0 };
}

abbrev once_fired : Evaluator ℕ
once_fired =
    put_entry whole text_of nodder fired_entry
      (record evaluator { registry = (request_id evaluator.registry pan nod).1 })

-- after the second, in which the rule waits to re-arm
abbrev waiting_entry : RuleEntry
waiting_entry = record {
  timing = step_arming whole nodder fired_entry.timing true (pos 7000);
  episode = record {
    reason = reason_rearming;
    ticks = 1;
    reasons = reason_rearming ∷ [];
    streak = (Streak.enter fired_entry.episode.streak reason_rearming).0;
  };
}

abbrev fire_turn : Turn ℕ
fire_turn = record {
  reacts = true;
  by_rules = [];
  active = [];
  entry = entry;
  matched = true;
  now = pos 1000;
  before = evaluator;
  fires = 1;
  after = once_fired;
  next = fired_entry;
}

abbrev waiting_turn : Turn ℕ
waiting_turn = record {
  reacts = true;
  by_rules = [];
  active = [];
  entry = fired_entry;
  matched = true;
  now = pos 7000;
  before = once_fired;
  fires = 0;
  after = put_entry whole text_of nodder waiting_entry once_fired;
  next = waiting_entry;
}

fire_turn-Turns : Turns whole text_of nodder new_state (fire_turn ∷ waiting_turn ∷ [])
unfolding react_step ask_admit request_name request_id blocks token_blocked react_judged settle_fire
    open_gate release fire_rule put_entry gate_react gate suppress fire_reason step_arming
    mark_fired cooling bind Ends lookup insert mem any text_discrete
fire_turn-Turns = (
  refl,
  (ok (record { evicted = []; blocked = [] }), (refl, refl)),
  refl,
  (refl, (refl, refl), refl, tt),
)

fire_times-Spaced_example : Spaced whole nodder none (fire_times (fire_turn ∷ waiting_turn ∷ []))
fire_times-Spaced_example =
    fire_times-Spaced whole text_of nodder new_state (fire_turn ∷ waiting_turn ∷ []) fire_turn-Turns

fire_times-held_example : fire_times (waiting_turn ∷ []) ≡ []
fire_times-held_example =
    fire_times-held whole text_of nodder new_state fire_turn (waiting_turn ∷ []) refl
      fire_turn-Turns refl (refl, tt)
