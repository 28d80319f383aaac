-- ===== src/Ruleeval/Evaluator/Rules.antt =====
-- internal/ruleeval/eval.go: one tick of the rules, and of an evaluator. `error_text` renders an error of
-- an admission, as `err.Error()` does.
use neurosymbolic_system.Base.{
  ◌+◌, Bool, true, false, not, Option, none, some, List, [], ◌∷◌, ◌++◌, Text, ◌==◌, if◌then◌else◌,
  mem, lookup, insert, Time, and_then, Floats,
}
use neurosymbolic_system.Adaptor.Vocabulary.{action_loops}
use neurosymbolic_system.Senselog.Streak as Streak
use neurosymbolic_system.Tick.Engine.State.{AdmitError, Event}
use neurosymbolic_system.Rules.Model.{Rule}
use neurosymbolic_system.Ruleeval.Predicate.{View, Absent, eval}
use neurosymbolic_system.Ruleeval.Timing.{
  Reason, fired, cooldown, rearming, step_arming, fire_reason, mark_fired,
}
use neurosymbolic_system.Ruleeval.Ask.{Ask, done, bind, or_crash}
use neurosymbolic_system.Ruleeval.Registry.{Request, blocks, add_names}
use neurosymbolic_system.Ruleeval.Evaluator.{
  Evaluator, RuleEntry, Episode, new_episode, snapshot, track_presence, absent_func,
}
use neurosymbolic_system.Ruleeval.Evaluator.Admission.{
  Refusal, inhibited, invalid, Admission, turned_down, admitted, ask_admit, apply_queue, enforce,
  sustain,
}

abbrev pub reason_cooldown : Text
reason_cooldown = b'c' ∷ b'o' ∷ b'o' ∷ b'l' ∷ b'd' ∷ b'o' ∷ b'w' ∷ b'n' ∷ []

abbrev pub reason_rearming : Text
reason_rearming = b'r' ∷ b'e' ∷ b'a' ∷ b'r' ∷ b'm' ∷ b'i' ∷ b'n' ∷ b'g' ∷ []

abbrev pub reason_inhibited : Text
reason_inhibited = b'i' ∷ b'n' ∷ b'h' ∷ b'i' ∷ b'b' ∷ b'i' ∷ b't' ∷ b'e' ∷ b'd' ∷ []

abbrev pub reason_already_active : Text
reason_already_active =
    b'a' ∷ b'l' ∷ b'r' ∷ b'e' ∷ b'a' ∷ b'd' ∷ b'y' ∷ b'-' ∷ b'a' ∷ b'c' ∷ b't' ∷ b'i' ∷ b'v' ∷ b'e'
    ∷ []

abbrev pub reason_invalid : Text
reason_invalid = b'i' ∷ b'n' ∷ b'v' ∷ b'a' ∷ b'l' ∷ b'i' ∷ b'd' ∷ b':' ∷ b' ' ∷ []

abbrev pub event_fire : Event
event_fire = record { name = b'r' ∷ b'u' ∷ b'l' ∷ b'e' ∷ b'.' ∷ b'f' ∷ b'i' ∷ b'r' ∷ b'e' ∷ [] }

abbrev pub event_suppress : Event
event_suppress = record {
  name =
      b'r' ∷ b'u' ∷ b'l' ∷ b'e' ∷ b'.' ∷ b's' ∷ b'u' ∷ b'p' ∷ b'p' ∷ b'r' ∷ b'e' ∷ b's' ∷ b's' ∷ [];
}

-- `suppress`: an event only where the reason is new
unfoldable pub suppress : {F A : Type 0} → Text → Episode → (Episode → Ask F A) → Ask F A
suppress reason ep next =
    let ep1 = record ep { ticks = ep.ticks + 1; streak = (Streak.enter ep.streak reason).0 } in
    if reason == ep.reason
    then next ep1
    else Ask.emit event_suppress (
        next (record ep1 {
          reasons = if mem reason ep.reasons then ep.reasons else ep.reasons ++ reason ∷ [];
          reason = reason;
        }))

unfoldable pub release : {F A : Type 0} → Episode → (Episode → Ask F A) → Ask F A
release ep next =
    if ep.reason == []
    then next ep
    else Ask.emit event_suppress (next (record new_episode { streak = (Streak.end ep.streak).0 }))

module _ (fl : Floats) (error_text : AdmitError → Text) where
  open fl use {F}

  -- The actions that inhibit rules block in a tick.
  unfoldable pub inhibited_now : View F → Absent F → List Text → List (Rule F) → Option (List Text)
  inhibited_now view absent blocked [] = some blocked
  inhibited_now view absent blocked (rule ∷ rest) =
      and_then (eval fl view absent rule.when) (λ matched.
        inhibited_now view absent (if matched then add_names rule.disable blocked else blocked)
          rest)

  unfoldable pub put_entry : Rule F → RuleEntry → Evaluator F → Evaluator F
  put_entry rule entry e = record e { states = insert rule.id entry e.states }

  unfoldable pub evict_all : {A : Type 0} → List Text → Ask F A → Ask F A
  evict_all [] next = next
  evict_all (name ∷ rest) next = Ask.evict name (λ n. evict_all rest next)

  -- `markFired` and `emitFire`
  unfoldable pub fire_rule : Rule F → RuleEntry → Time → Evaluator F → Ask F (Evaluator F)
  fire_rule rule entry now e =
      let ep = entry.episode in
      Ask.emit event_fire (
        done (
          put_entry rule
            (record {
              timing = mark_fired fl rule entry.timing now;
              episode = record ep { streak = (Streak.fire ep.streak []).0 };
            })
            e))

  -- a rule that is gated, and one that is not
  unfoldable pub gate : Rule F → RuleEntry → Text → Evaluator F → Ask F (Evaluator F)
  gate rule entry reason e =
      suppress reason entry.episode (λ ep. done (put_entry rule (record entry { episode = ep }) e))

  unfoldable pub open_gate : {A : Type 0} → RuleEntry → (RuleEntry → Ask F A) → Ask F A
  open_gate entry next = release entry.episode (λ ep. next (record entry { episode = ep }))

  -- `runInhibit`, past the re-arming, for a rule that matches
  unfoldable pub inhibit_judged :
      Rule F → RuleEntry → Reason → Time → Evaluator F → Ask F (Evaluator F)
  inhibit_judged rule entry rearming now e = gate rule entry reason_rearming e
  inhibit_judged rule entry cooldown now e = gate rule entry reason_cooldown e
  inhibit_judged rule entry fired now e =
      open_gate entry (λ closed. evict_all rule.disable (fire_rule rule closed now e))

  -- one round of `runInhibit`, with the rule's state and the value of its predicate
  unfoldable pub inhibit_step : Rule F → RuleEntry → Bool → Time → Evaluator F → Ask F (Evaluator F)
  inhibit_step rule entry matched now e =
      let stepped = record entry { timing = step_arming fl rule entry.timing matched now } in
      if not matched
      then open_gate stepped (λ closed. done (put_entry rule closed e))
      else inhibit_judged rule stepped (fire_reason fl rule stepped.timing now) now e

  unfoldable pub run_inhibit :
      View F → Absent F → Time → List (Rule F) → Evaluator F → Ask F (Evaluator F)
  run_inhibit view absent now [] e = done e
  run_inhibit view absent now (rule ∷ rest) e = bind (or_crash (lookup rule.id e.states)) (λ entry.
      bind (or_crash (eval fl view absent rule.when)) (λ matched.
        bind (inhibit_step rule entry matched now e) (run_inhibit view absent now rest)))

  abbrev rule_request : Rule F → Evaluator F → Request F
  rule_request rule e = record {
    name = [];
    action = rule.run;
    params = rule.params;
    duration_s = rule.duration_s;
    loops = action_loops fl e.voc rule.run;
    class = none;
  }

  abbrev refusal_text : Refusal → Text
  refusal_text inhibited = reason_inhibited
  refusal_text (invalid x) = reason_invalid ++ error_text x

  -- what follows the admission of a react rule, and whether it admitted anything
  unfoldable pub settle_fire :
      Rule F → RuleEntry → Time → Evaluator F × Admission → Ask F (Evaluator F × Bool)
  settle_fire rule entry now (e, turned_down refusal) =
      bind (gate rule entry (refusal_text refusal) e) (λ e1. done (e1, false))
  settle_fire rule entry now (e, admitted result) =
      open_gate entry (λ closed. bind (fire_rule rule closed now e) (λ e1. done (e1, true)))

  unfoldable pub gate_react : Rule F → RuleEntry → Text → Evaluator F → Ask F (Evaluator F × Bool)
  gate_react rule entry reason e = bind (gate rule entry reason e) (λ e1. done (e1, false))

  -- `fireReact`, from the answer of `fireReason` on
  unfoldable pub react_judged :
      List Text
      → List Text
      → Rule F
      → RuleEntry
      → Reason
      → Time
      → Evaluator F
      → Ask F (Evaluator F × Bool)
  react_judged by_rules active rule entry rearming now e = gate_react rule entry reason_rearming e
  react_judged by_rules active rule entry cooldown now e = gate_react rule entry reason_cooldown e
  react_judged by_rules active rule entry fired now e =
      if mem rule.run active
      then gate_react rule entry reason_already_active e
      else bind (ask_admit fl by_rules (rule_request rule e) e) (settle_fire rule entry now)

  -- `fireReact`, with the rule's state and the value of its predicate
  unfoldable pub react_step :
      List Text
      → List Text
      → Rule F
      → RuleEntry
      → Bool
      → Time
      → Evaluator F
      → Ask F (Evaluator F × Bool)
  react_step by_rules active rule entry matched now e =
      let stepped = record entry { timing = step_arming fl rule entry.timing matched now } in
      if not matched
      then open_gate stepped (λ closed. done (put_entry rule closed e, false))
      else if blocks e.registry by_rules rule.run rule.run
      then gate_react rule stepped reason_inhibited e
      else react_judged by_rules active rule stepped (fire_reason fl rule stepped.timing now) now e

  -- the loop of `runReact`: `active` grows with what was admitted
  unfoldable pub react_each :
      View F
      → Absent F
      → Time
      → List Text
      → List Text
      → List (Rule F)
      → Evaluator F
      → Ask F (Evaluator F)
  react_each view absent now by_rules active [] e = done e
  react_each view absent now by_rules active (rule ∷ rest) e =
      bind (or_crash (lookup rule.id e.states)) (λ entry.
        bind (or_crash (eval fl view absent rule.when)) (λ matched.
          bind (react_step by_rules active rule entry matched now e) (λ p.
            react_each view absent now by_rules (if p.1 then rule.run ∷ active else active) rest
              p.0)))

  unfoldable pub run_react :
      View F → Absent F → Time → List Text → Evaluator F → Ask F (Evaluator F)
  run_react view absent now by_rules e =
      Ask.names (λ active. react_each view absent now by_rules active e.rules.react e)

  -- what follows `currentInhibited` in `Tick`
  unfoldable pub tick_inhibited :
      View F → Absent F → Time → List Text → Evaluator F → Ask F (Evaluator F)
  tick_inhibited view absent now by_rules e = bind (apply_queue fl by_rules e) (λ e1.
      bind (run_inhibit view absent now e1.rules.inhibit e1) (λ e2.
        bind (run_react view absent now by_rules e2)
          (λ e3. bind (enforce fl by_rules e3) (sustain fl by_rules))))

  -- `Tick`
  unfoldable pub tick_rules :
      Option (View F) → Option (View F) → Time → Evaluator F → Ask F (Evaluator F)
  tick_rules perceived routed now e =
      let view = snapshot fl perceived routed in
      let e1 = track_presence fl view now e in
      let absent = absent_func fl e1 now in
      bind (or_crash (inhibited_now view absent [] e1.rules.inhibit))
        (λ by_rules. tick_inhibited view absent now by_rules e1)
