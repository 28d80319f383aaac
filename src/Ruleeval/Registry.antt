-- ===== src/Ruleeval/Registry.antt =====
-- internal/ruleeval/registry.go: the requests, the standing goals and the inhibitions. A set of names is
-- a list. The methods that need a TickContext are in Evaluator.Admission. `seq` is a Go int that counts
-- admissions, and unbounded here.
use neurosymbolic_system.Base.{
  ℕ, ◌+◌, Bool, true, false, not, ◌&&◌, ◌||◌, Option, none, some, List, [], ◌∷◌, ◌++◌, Text, ◌==◌,
  if◌then◌else◌, eqb, length, mem, keep, sort, GoMap, lookup, insert, delete, decimal, is_some,
  Floats, Result, ok, err,
}
use neurosymbolic_system.Tick.Behavior.{StopClass}

-- The kinds of intents, and the origins, which no decision reads, are left out of a request.
pub record Request (F : Type 0) : Type 0 where
  pub name : Text
  pub action : Text
  pub params : GoMap F
  pub duration_s : Option F
  pub loops : Bool
  pub class : Option StopClass

pub record Goal (F : Type 0) : Type 0 where
  pub name : Text
  pub action : Text
  pub params : GoMap F
  pub class : Option StopClass

-- `pending`: an eviction, or a request
pub data Pending (F : Type 0) : Type 0 where
  to_evict : Text → Pending F
  to_admit : Request F → Pending F

pub record Registry (F : Type 0) : Type 0 where
  pub queue : List (Pending F)
  pub goals : GoMap (Goal F)
  pub goal_order : List Text
  pub inhibited : List Text
  pub seq : ℕ

abbrev pub new_registry : {F : Type 0} → Registry F
new_registry = record { queue = []; goals = []; goal_order = []; inhibited = []; seq = 0 }

pub data RequestError : Type 0 where
  no_action not_positive unbounded no_name : RequestError

-- `set[name] = true`
unfoldable pub add_name : Text → List Text → List Text
add_name name names = if mem name names then names else name ∷ names

unfoldable pub add_names : List Text → List Text → List Text
add_names [] names = names
add_names (name ∷ rest) names = add_names rest (add_name name names)

unfoldable pub without : Text → List Text → List Text
without name = keep (λ n. not (n == name))

-- one round of the loop of `blocks`
unfoldable pub token_blocked : List Text → List Text → Text → Bool
token_blocked inhibited by_rules token =
    not (token == []) && (mem token inhibited || mem token by_rules)

module _ {F : Type 0} where
  unfoldable pub enqueue : Pending F → Registry F → Registry F
  enqueue p r = record r { queue = r.queue ++ p ∷ [] }

  unfoldable pub drain : Registry F → List (Pending F) × Registry F
  drain r = (r.queue, record r { queue = [] })

  -- `Withdraw`
  unfoldable pub withdraw : Text → Registry F → Registry F × Bool
  withdraw name r =
      if is_some (lookup name r.goals)
      then (
        enqueue (to_evict name)
            (record r { goals = delete name r.goals; goal_order = without name r.goal_order }),
        true,
      )
      else (record r { goals = delete name r.goals }, false)

  -- `Goals`
  unfoldable pub goal_names : Registry F → List Text
  goal_names r = r.goal_order

  unfoldable pub inhibit : List Text → Registry F → Registry F
  inhibit [] r = r
  inhibit (name ∷ rest) r =
      inhibit rest (if name == [] then r else record r { inhibited = add_name name r.inhibited })

  unfoldable pub uninhibit : List Text → Registry F → Registry F
  uninhibit [] r = r
  uninhibit (name ∷ rest) r = uninhibit rest (record r { inhibited = without name r.inhibited })

  unfoldable pub inhibitions : Registry F → List Text
  inhibitions r = sort r.inhibited

  unfoldable pub blocks : Registry F → List Text → Text → Text → Bool
  blocks r by_rules name action =
      token_blocked r.inhibited by_rules name || token_blocked r.inhibited by_rules action

  -- `nextID`: "%s:%s:%d"
  unfoldable pub request_id : Registry F → Text → Text → Text × Registry F
  request_id r id_prefix name =
      let seq = r.seq + 1 in
      (id_prefix ++ b':' ∷ (name ++ b':' ∷ decimal seq), record r { seq = seq })

  -- `goalsSnapshotLocked`
  unfoldable pub goals_in : GoMap (Goal F) → List Text → List (Goal F)
  goals_in goals [] = []
  goals_in goals (name ∷ rest) =
      let later = goals_in goals rest in
      elim (lookup name goals) [ none ↦ later | some g ↦ g ∷ later ]

module _ (fl : Floats) where
  open fl use {F, f_zero, f_lt, f_eq}

  unfoldable pub agree : GoMap F → GoMap F → Bool
  agree [] b = true
  agree ((key, value) ∷ rest) b =
      let later = agree rest b in
      elim (lookup key b) [ none ↦ false | some other ↦ f_eq other value && later ]

  unfoldable pub same_params : GoMap F → GoMap F → Bool
  same_params a b = eqb (length a) (length b) && agree a b

  -- `RunOnce`: `loops` says whether the evaluator's action loops, and is false when none is wired
  unfoldable pub run_once :
      Bool → Text → GoMap F → F → Registry F → Result RequestError (Registry F)
  run_once loops action params duration r =
      let request : Option F → Request F = λ bound. record {
        name = [];
        action = action;
        params = params;
        duration_s = bound;
        loops = loops;
        class = none;
      } in
      if action == []
      then err no_action
      else if f_lt f_zero duration
      then ok (enqueue (to_admit (request (some duration))) r)
      else if f_lt duration f_zero
      then err not_positive
      else if loops
      then err unbounded
      else ok (enqueue (to_admit (request none)) r)

  unfoldable pub replaced : Option (Goal F) → Text → GoMap F → Bool
  replaced none action params = false
  replaced (some previous) action params =
      not (previous.action == action) || not (same_params previous.params params)

  -- `StandingGoal`
  unfoldable pub standing_goal :
      Text → Text → GoMap F → Registry F → Result RequestError (Registry F)
  standing_goal name action params r =
      let next : Goal F = record { name = name; action = action; params = params; class = none } in
      let previous = lookup name r.goals in
      let r1 = record r {
        goals = insert name next r.goals;
        goal_order = if is_some previous then r.goal_order else r.goal_order ++ name ∷ [];
      } in
      if name == [] || action == []
      then err no_name
      else ok (if replaced previous action params then enqueue (to_evict name) r1 else r1)
