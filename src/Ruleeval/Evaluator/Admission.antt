-- ===== src/Ruleeval/Evaluator/Admission.antt =====
-- internal/ruleeval/registry.go: the methods that need a TickContext. What a rule or an intent is refused
-- for is a `Refusal`; of an event only the name is kept.
use neurosymbolic_system.Base.{
  true, false, none, List, [], ◌∷◌, Text, ◌==◌, if◌then◌else◌, mem, keep, sort, Floats, Result, ok,
  err,
}
use neurosymbolic_system.Tick.Arbitration.{AdmitResult}
use neurosymbolic_system.Tick.Engine.State.{AdmitError, Event}
use neurosymbolic_system.Ruleeval.Ask.{Ask, done, bind}
use neurosymbolic_system.Ruleeval.Registry.{
  Registry, Request, Goal, Pending, to_evict, to_admit, blocks, drain, request_id, goals_in,
  add_name, add_names,
}
use neurosymbolic_system.Ruleeval.Evaluator.{Evaluator, build}

pub data Refusal : Type 0 where
  inhibited : Refusal
  invalid : AdmitError → Refusal

-- an `Admission`: refused, or admitted with what it evicted and what it waits for
pub data Admission : Type 0 where
  turned_down : Refusal → Admission
  admitted : AdmitResult → Admission

abbrev pub event_applied : Event
event_applied = record {
  name =
      b'i' ∷ b'n' ∷ b't' ∷ b'e' ∷ b'n' ∷ b't' ∷ b'.' ∷ b'a' ∷ b'p' ∷ b'p' ∷ b'l' ∷ b'i' ∷ b'e'
      ∷ b'd' ∷ [];
}

abbrev pub event_blocked : Event
event_blocked = record {
  name =
      b'i' ∷ b'n' ∷ b't' ∷ b'e' ∷ b'n' ∷ b't' ∷ b'.' ∷ b'b' ∷ b'l' ∷ b'o' ∷ b'c' ∷ b'k' ∷ b'e'
      ∷ b'd' ∷ [];
}

abbrev pub empty_request : {F : Type 0} → Request F
empty_request = record {
  name = [];
  action = [];
  params = [];
  duration_s = none;
  loops = false;
  class = none;
}

-- the name that a request is admitted under
unfoldable pub request_name : {F : Type 0} → Request F → Text
request_name req = if req.name == [] then req.action else req.name

-- what TickContext.Admit answers
abbrev pub judged : Result AdmitError AdmitResult → Admission
judged (ok result) = admitted result
judged (err x) = turned_down (invalid x)

-- `observeIntent`: one event, of either name
abbrev pub observe : {F A : Type 0} → Admission → Ask F A → Ask F A
observe (admitted result) next = Ask.emit event_applied next
observe (turned_down refusal) next = Ask.emit event_blocked next

module _ (fl : Floats) where
  open fl use {F}

  -- the registry's `admit`
  unfoldable pub ask_admit : List Text → Request F → Evaluator F → Ask F (Evaluator F × Admission)
  ask_admit by_rules req e =
      let name = request_name req in
      let (id, registry) = request_id e.registry e.id_prefix name in
      if blocks e.registry by_rules name req.action
      then done (e, turned_down inhibited)
      else Ask.admit (build fl e id name req)
          (λ r. done (record e { registry = registry }, judged r))

  -- a request judged and observed
  unfoldable pub admit_observed : List Text → Request F → Evaluator F → Ask F (Evaluator F)
  admit_observed by_rules req e = bind (ask_admit by_rules req e) (λ p. observe p.1 (done p.0))

  -- the loop of `apply`
  unfoldable pub apply_all : List Text → List (Pending F) → Evaluator F → Ask F (Evaluator F)
  apply_all by_rules [] e = done e
  apply_all by_rules (to_evict name ∷ rest) e =
      if name == []
      then bind (admit_observed by_rules empty_request e) (apply_all by_rules rest)
      else Ask.evict name (λ n. apply_all by_rules rest e)
  apply_all by_rules (to_admit req ∷ rest) e =
      bind (admit_observed by_rules req e) (apply_all by_rules rest)

  unfoldable pub apply_queue : List Text → Evaluator F → Ask F (Evaluator F)
  apply_queue by_rules e =
      let (queue, registry) = drain e.registry in
      apply_all by_rules queue (record e { registry = registry })

  -- the goals of `enforce`: an inhibition of a goal's action is one of its name
  unfoldable pub add_goals : List (Goal F) → List Text → List Text
  add_goals [] blocked = blocked
  add_goals (g ∷ rest) blocked =
      add_goals rest (if mem g.action blocked then add_name g.name blocked else blocked)

  unfoldable pub blocked_names : List Text → Registry F → List Text
  blocked_names by_rules r =
      add_goals (goals_in r.goals r.goal_order) (add_names by_rules (add_names r.inhibited []))

  -- the last loop of `enforce`
  unfoldable pub evict_each : List Text → Evaluator F → Ask F (Evaluator F)
  evict_each [] e = done e
  evict_each (name ∷ rest) e = Ask.evict name (λ n. Ask.emit event_blocked (evict_each rest e))

  -- `enforce`, for the names that are blocked
  unfoldable pub enforce_names : List Text → Evaluator F → Ask F (Evaluator F)
  enforce_names [] e = done e
  enforce_names (b ∷ bs) e =
      Ask.names (λ active. evict_each (sort (keep (λ name. mem name active) (b ∷ bs))) e)

  unfoldable pub enforce : List Text → Evaluator F → Ask F (Evaluator F)
  enforce by_rules e = enforce_names (blocked_names by_rules e.registry) e

  -- the request that keeps a goal standing
  unfoldable pub goal_request : Goal F → Request F
  goal_request g = record {
    name = g.name;
    action = g.action;
    params = g.params;
    duration_s = none;
    loops = true;
    class = g.class;
  }

  -- the loop of `sustain`
  unfoldable pub sustain_each :
      List Text → List Text → List (Goal F) → Evaluator F → Ask F (Evaluator F)
  sustain_each by_rules active [] e = done e
  sustain_each by_rules active (g ∷ rest) e =
      if mem g.name active
      then sustain_each by_rules active rest e
      else bind (admit_observed by_rules (goal_request g) e) (sustain_each by_rules active rest)

  unfoldable pub sustain_goals : List Text → List (Goal F) → Evaluator F → Ask F (Evaluator F)
  sustain_goals by_rules [] e = done e
  sustain_goals by_rules (g ∷ gs) e = Ask.names (λ active. sustain_each by_rules active (g ∷ gs) e)

  unfoldable pub sustain : List Text → Evaluator F → Ask F (Evaluator F)
  sustain by_rules e = sustain_goals by_rules (goals_in e.registry.goals e.registry.goal_order) e
