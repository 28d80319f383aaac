-- ===== src/Tick/Behavior.antt =====
-- internal/tick/behavior.go. `none` for a contribution is a panic, of the code that samples it or of a
-- behavior's own `Contribute`; a nil slice is `none` inside a `Contribution`.
pub mod Binding
pub mod Sampling
use neurosymbolic_system.Base.{
  ℕ, Bool, false, not, ◌||◌, Option, none, some, List, [], ◌∷◌, Text, ◌==◌, if◌then◌else◌, mem,
  GoMap, lookup, insert, Time, time_sub, Floats, Result, ok, err, ◌>>=◌, ◌>>◌, refuse_if, is_some,
  and_then,
}
use mathlib.Core.Option
use neurosymbolic_system.Adaptor.Trajectory.{Trajectory, sample}
use neurosymbolic_system.Adaptor.Vocabulary.{
  Vocabulary, VocabularyError, Action, names_of, has_action, validate_given,
}

-- A string that is none of the four constants is `undeclared_class`.
pub data StopClass : Type 0 where
  passive stoppable stopping unstoppable : StopClass
  undeclared_class : Text → StopClass

-- the map `priority`
unfoldable pub priority_map : StopClass → Option ℕ
priority_map passive = some 0
priority_map stoppable = some 1
priority_map stopping = some 2
priority_map unstoppable = some 3
priority_map (undeclared_class _) = none

unfoldable pub priority : StopClass → ℕ
unfolding priority_map
priority c = elim (priority_map c) [ none ↦ 0 | some n ↦ n ]

unfoldable pub is_valid_class : StopClass → Bool
unfolding priority_map
is_valid_class c = is_some (priority_map c)

pub record Lifetime (F : Type 0) : Type 0 where
  pub duration_s : Option F
  pub loops : Bool

abbrev pub Contribution : Type 0 → Type 0
Contribution F = GoMap (Option (List F))

pub record Behavior (F : Type 0) : Type 0 where
  pub name : Text
  pub id : Text
  pub class : StopClass
  pub channels : List Text
  pub lifetime : Lifetime F
  pub action : Text
  pub params : GoMap F
  pub admitted_at : Time
  pub trajectories : GoMap (Option (Trajectory F))
  -- `Contribute` may read a sensor, and may panic: what it gives (`none` for a panic) depends on the
  -- moment of the call, beside the local time
  pub contribute : Option (ℕ → F → Option (Contribution F))

pub data BindError : Type 0 where
  no_vocabulary bad_class no_action no_name undeclared_action vanished_action no_channel
        undeclared_channel claimed_twice not_finite not_positive unbounded_one_shot :
      BindError
  bad_params : VocabularyError → BindError

unfoldable pub claims : {F : Type 0} → Behavior F → Text → Bool
claims b channel = mem channel b.channels

module _ (fl : Floats) where
  open fl use {F, f_zero, f_le, is_nan, is_inf, seconds}

  unfoldable pub is_expired : Lifetime F → F → Bool
  is_expired l t_local = elim l.duration_s [ none ↦ false | some d ↦ f_le d t_local ]

  -- what one claimed channel gets: a panic, an abstention, or values
  unfoldable pub drive : Behavior F → Option (Contribution F) → F → Text → Option (Option (List F))
  drive b (some raw) t_local ch = some (elim (lookup ch raw) [ none ↦ none | some values ↦ values ])
  drive b none t_local ch = elim (lookup ch b.trajectories) [
    | none ↦ some none
    | some none ↦ some none
    | some (some tr) ↦ Option.map some (sample fl tr t_local)
  ]

  abbrev put : Text → Option (List F) → Contribution F → Contribution F
  put ch none out = out
  put ch (some values) out = insert ch (some values) out

  -- the loop of `Contribution`
  unfoldable pub drive_all :
      Behavior F
      → Option (Contribution F)
      → F
      → Contribution F
      → List Text
      → Option (Contribution F)
  drive_all b raw t_local out [] = some out
  drive_all b raw t_local out (ch ∷ rest) =
      and_then (drive b raw t_local ch) (λ s. drive_all b raw t_local (put ch s out) rest)

  unfoldable pub contribution : Behavior F → ℕ → F → Option (Contribution F)
  contribution b moment t_local = elim b.contribute [
    | none ↦ drive_all b none t_local [] b.channels
    | some f ↦ and_then (f moment t_local) (λ raw. drive_all b (some raw) t_local [] b.channels)
  ]

  -- `localTime`, of engine.go
  unfoldable pub local_time : Behavior F → Time → F
  local_time b now = seconds (time_sub now b.admitted_at)

  unfoldable pub find_action : Text → List (Action F) → Option (Action F)
  find_action name [] = none
  find_action name (a ∷ rest) = if a.name == name then some a else find_action name rest

  unfoldable pub with_name : Behavior F → Behavior F
  with_name b = if b.name == [] then record b { name = b.action } else b

  unfoldable pub check_given : Vocabulary F → Behavior F → Result BindError (Unit {0})
  check_given v b = elim b.params [
    | [] ↦ ok tt
    | _ ∷ _ ↦ elim (validate_given fl v b.action b.params) [
      | ok u ↦ ok tt
      | err e ↦ err (bad_params e)
    ]
  ]

  unfoldable pub bind_action :
      Vocabulary F → Behavior F → Result BindError (Behavior F × Option (Action F))
  bind_action v b =
      if b.action == []
      then (if not (is_some b.contribute)
          then err no_action
          else if b.name == []
          then err no_name
          else ok (b, none))
      else do
        refuse_if (not (has_action fl v b.action)) undeclared_action
        check_given v (with_name b)
        elim (find_action b.action v.actions) [
          | none ↦ err vanished_action
          | some a ↦ ok (with_name b, some a)
        ]

  -- the loop of `bindChannels`
  unfoldable pub check_claimed : List Text → List Text → List Text → Result BindError (Unit {0})
  check_claimed declared seen [] = ok tt
  check_claimed declared seen (ch ∷ rest) =
      let later = check_claimed declared (ch ∷ seen) rest in
      do
        refuse_if (not (mem ch declared)) undeclared_channel
        refuse_if (mem ch seen) claimed_twice
        later

  unfoldable pub attach :
      GoMap (Option (Trajectory F))
      → GoMap (Option (Trajectory F))
      → List Text
      → GoMap (Option (Trajectory F))
  attach from out [] = out
  attach from out (ch ∷ rest) = elim (lookup ch from) [
    | none ↦ attach from out rest
    | some none ↦ attach from out rest
    | some (some tr) ↦ attach from (insert ch (some tr) out) rest
  ]

  unfoldable pub claimed_channels : Behavior F → Option (Action F) → Result BindError (List Text)
  claimed_channels b action = elim b.channels [
    | _ ∷ _ ↦ ok b.channels
    | [] ↦ elim action [ none ↦ err no_channel | some a ↦ ok a.claims ]
  ]

  unfoldable pub bind_channels :
      Vocabulary F → Behavior F → Option (Action F) → Result BindError (Behavior F)
  bind_channels v b action = do
    channels ← claimed_channels b action
    check_claimed (names_of v.channels) [] channels
    ok (elim action [
      | none ↦ record b { channels = channels }
      | some a ↦ record b { channels = channels; trajectories = attach a.trajectories [] channels }
    ])

  unfoldable pub bind_lifetime : Behavior F → Result BindError (Unit {0})
  bind_lifetime b = elim b.lifetime.duration_s [
    | some d ↦ do
      refuse_if (is_nan d || is_inf d) not_finite
      refuse_if (f_le d f_zero) not_positive
    | none ↦ refuse_if (not b.lifetime.loops) unbounded_one_shot
  ]

  unfoldable pub bind : Option (Vocabulary F) → Behavior F → Result BindError (Behavior F)
  bind none b = err no_vocabulary
  bind (some v) b = do
    refuse_if (not (is_valid_class b.class)) bad_class
    bound ← bind_action v b
    b' ← bind_channels v bound.0 bound.1
    bind_lifetime b'
    ok b'
