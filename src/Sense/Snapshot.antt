-- ===== src/Sense/Snapshot.antt =====
-- internal/sense/snapshot.go. A frame is an association list with a value, or `none` for nil, at each
-- name. `V` is the type of the values, and `of_age` makes one of a number of seconds.
pub mod Frames
use neurosymbolic_system.Base.{
  Bool, Option, none, some, List, [], ◌∷◌, ◌++◌, Text, if◌then◌else◌, is_some, GoMap, lookup,
  insert, delete, Time, time_sub, Floats,
}

abbrev pub age_suffix : Text
age_suffix = b'_' ∷ b'a' ∷ b'g' ∷ b'e' ∷ b'_' ∷ b's' ∷ []

pub record Snapshot (V : Type 0) : Type 0 where
  pub values : GoMap V
  pub last_seen : GoMap Time

-- `New`
abbrev pub empty : {V : Type 0} → Snapshot V
empty = record { values = []; last_seen = [] }

abbrev pub Frame : Type 0 → Type 0
Frame V = GoMap (Option V)

module _ {V : Type 0} where
  -- one round of the loop of `Update`
  unfoldable pub set_field : Text → Option V → Time → Snapshot V → Snapshot V
  set_field name none now s = record s { values = delete name s.values }
  set_field name (some value) now s = record {
    values = insert name value s.values;
    last_seen = insert name now s.last_seen;
  }

  unfoldable pub update : Frame V → Time → Snapshot V → Snapshot V
  update [] now s = s
  update ((name, value) ∷ rest) now s = update rest now (set_field name value now s)

  unfoldable pub get : Snapshot V → Text → Option V
  get s field = lookup field s.values

  unfoldable pub last_seen_at : Snapshot V → Text → Option Time
  last_seen_at s field = lookup field s.last_seen

module _ (fl : Floats) {V : Type 0} (of_age : fl.F → V) where
  open fl use {F, seconds}

  unfoldable pub age_s : Snapshot V → Text → Time → Option F
  age_s s field now = elim (lookup field s.last_seen) [
    | none ↦ none
    | some at ↦ some (seconds (time_sub now at))
  ]

  -- the second loop of `View`: a reading that was fed is never overwritten
  unfoldable pub add_ages : GoMap V → GoMap Time → Time → GoMap V
  add_ages out [] now = out
  add_ages out ((name, at) ∷ rest) now =
      let key = name ++ age_suffix in
      add_ages
        (if is_some (lookup key out)
          then out
          else insert key (of_age (seconds (time_sub now at))) out)
        rest now

  unfoldable pub view : Snapshot V → Time → GoMap V
  view s now = add_ages s.values s.last_seen now
