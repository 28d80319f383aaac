-- ===== src/Adaptor/Vocabulary.antt =====
-- internal/adaptor/vocabulary.go, after the JSON or TOML document has been decoded. A `range` over a
-- map goes through its entries in the order of the association list: the order decides only which of
-- several refusals is given. A negative arity is refused by the guard that refuses 0, so an arity is
-- a natural number here.
pub mod Indexing
pub mod Claims
pub mod Sound
use neurosymbolic_system.Base.{
  ℕ, Bool, true, false, not, ◌&&◌, ◌||◌, Option, none, some, List, [], ◌∷◌, map, Text, ◌==◌,
  if◌then◌else◌, ltb, eqb, length, mem, GoMap, lookup, insert, Floats, is_finite, Result, ok, err,
  ◌>>=◌, ◌>>◌, refuse_if, is_some,
}
use neurosymbolic_system.Adaptor.Trajectory.{Trajectory, TrajectoryError, all_finite, compile}

pub data SenseType : Type 0 where
  float bool string vec3 : SenseType
  undeclared_type : Text → SenseType

unfoldable pub is_valid_sense_type : SenseType → Bool
is_valid_sense_type (undeclared_type _) = false
is_valid_sense_type _ = true

unfoldable pub is_float : SenseType → Bool
is_float float = true
is_float _ = false

pub record Channel (F : Type 0) : Type 0 where
  pub name : Text
  pub arity : ℕ
  pub neutral : List F

pub record Sense : Type 0 where
  pub name : Text
  pub type : SenseType
  pub age_field : Text

pub record Param (F : Type 0) : Type 0 where
  pub name : Text
  pub min : F
  pub max : F

-- A trajectory is a pointer, `none` where it is nil.
pub record Action (F : Type 0) : Type 0 where
  pub name : Text
  pub claims : List Text
  pub loops : Bool
  pub params : List (Param F)
  pub trajectories : GoMap (Option (Trajectory F))

pub record Config (F : Type 0) : Type 0 where
  pub channels : List (Channel F)
  pub senses : List Sense
  pub actions : List (Action F)

pub record Vocabulary (F : Type 0) : Type 0 where
  pub channels : List (Channel F)
  pub senses : List Sense
  pub actions : List (Action F)
  pub channel_by_name : GoMap (Channel F)
  pub sense_by_name : GoMap Sense
  pub action_by_name : GoMap (Action F)

abbrev pub Pose : Type 0 → Type 0
Pose F = GoMap (List F)

pub data VocabularyError : Type 0 where
  no_channels unnamed duplicate bad_arity bad_neutral non_finite bad_type bad_age_link no_claims
        undeclared_channel claimed_twice bad_bound bad_domain undeclared_trajectory
        unclaimed_trajectory missing_trajectory undeclared_field undeclared_action undeclared_param
        out_of_domain :
      VocabularyError
  bad_trajectory : TrajectoryError → VocabularyError

unfoldable pub names_of : {F : Type 0} → List (Channel F) → List Text
names_of = map (λ ch. ch.name)

module _ (fl : Floats) where
  open fl use {F, f_lt}

  unfoldable pub check_channel : GoMap (Channel F) → Channel F → Result VocabularyError (Unit {0})
  check_channel by_name ch = do
    refuse_if (ch.name == []) unnamed
    refuse_if (is_some (lookup ch.name by_name)) duplicate
    refuse_if (ltb ch.arity 1) bad_arity
    refuse_if (not (eqb (length ch.neutral) ch.arity)) bad_neutral
    refuse_if (not (all_finite fl ch.neutral)) non_finite

  -- the loop of `validateChannels`, over the index built so far
  unfoldable pub index_channels :
      GoMap (Channel F) → List (Channel F) → Result VocabularyError (GoMap (Channel F))
  index_channels by_name [] = ok by_name
  index_channels by_name (ch ∷ rest) =
      let later = index_channels (insert ch.name ch by_name) rest in
      check_channel by_name ch >> later

  unfoldable pub validate_channels : List (Channel F) → Result VocabularyError (GoMap (Channel F))
  validate_channels [] = err no_channels
  validate_channels (ch ∷ rest) = index_channels [] (ch ∷ rest)

  unfoldable pub index_senses : GoMap Sense → List Sense → Result VocabularyError (GoMap Sense)
  index_senses by_name [] = ok by_name
  index_senses by_name (s ∷ rest) =
      let later = index_senses (insert s.name s by_name) rest in
      do
        refuse_if (s.name == []) unnamed
        refuse_if (is_some (lookup s.name by_name)) duplicate
        refuse_if (not (is_valid_sense_type s.type)) bad_type
        later

  unfoldable pub is_float_sense : GoMap Sense → Text → Bool
  is_float_sense by_name age = elim (lookup age by_name) [ none ↦ false | some s ↦ is_float s.type ]

  -- the second pass of `validateSenses`
  unfoldable pub check_age_links : GoMap Sense → List Sense → Result VocabularyError (Unit {0})
  check_age_links by_name [] = ok tt
  check_age_links by_name (s ∷ rest) =
      let later = check_age_links by_name rest in
      do
        refuse_if (not (s.age_field == []) && not (is_float_sense by_name s.age_field)) bad_age_link
        later

  unfoldable pub validate_senses : List Sense → Result VocabularyError (GoMap Sense)
  validate_senses senses = do
    by_name ← index_senses [] senses
    check_age_links by_name senses
    ok by_name

  -- the loop of `validateClaims`
  unfoldable pub check_claims :
      GoMap (Channel F) → List Text → List Text → Result VocabularyError (Unit {0})
  check_claims channel_by_name seen [] = ok tt
  check_claims channel_by_name seen (channel ∷ rest) =
      let later = check_claims channel_by_name (channel ∷ seen) rest in
      do
        refuse_if (not (is_some (lookup channel channel_by_name))) undeclared_channel
        refuse_if (mem channel seen) claimed_twice
        later

  unfoldable pub validate_claims : GoMap (Channel F) → List Text → Result VocabularyError (Unit {0})
  validate_claims channel_by_name [] = err no_claims
  validate_claims channel_by_name (channel ∷ rest) =
      check_claims channel_by_name [] (channel ∷ rest)

  -- the loop of `validateParams`
  unfoldable pub validate_params : List Text → List (Param F) → Result VocabularyError (Unit {0})
  validate_params seen [] = ok tt
  validate_params seen (p ∷ rest) =
      let later = validate_params (p.name ∷ seen) rest in
      do
        refuse_if (p.name == []) unnamed
        refuse_if (mem p.name seen) duplicate
        refuse_if (not (is_finite fl p.min) || not (is_finite fl p.max)) bad_bound
        refuse_if (f_lt p.max p.min) bad_domain
        later

  -- the first loop of `validateTrajectories`
  unfoldable pub check_keys :
      GoMap (Channel F)
      → List Text
      → GoMap (Option (Trajectory F))
      → Result VocabularyError (Unit {0})
  check_keys channel_by_name claims [] = ok tt
  check_keys channel_by_name claims ((channel, _) ∷ rest) =
      let later = check_keys channel_by_name claims rest in
      do
        refuse_if (not (is_some (lookup channel channel_by_name))) undeclared_trajectory
        refuse_if (not (mem channel claims)) unclaimed_trajectory
        later

  -- `v.channelByName[channel].Arity`
  unfoldable pub arity_of : GoMap (Channel F) → Text → ℕ
  arity_of channel_by_name channel = elim (lookup channel channel_by_name) [
    | none ↦ 0
    | some ch ↦ ch.arity
  ]

  unfoldable pub compile_claim :
      GoMap (Channel F)
      → Bool
      → Text
      → Option (Option (Trajectory F))
      → Result VocabularyError (Trajectory F)
  compile_claim channel_by_name loops channel none = err missing_trajectory
  compile_claim channel_by_name loops channel (some none) = err missing_trajectory
  compile_claim channel_by_name loops channel (some (some tr)) =
      elim (compile fl tr loops (arity_of channel_by_name channel)) [
        | ok tr' ↦ ok tr'
        | err e ↦ err (bad_trajectory e)
      ]

  -- the second loop of `validateTrajectories`: `compile` writes through the pointer
  unfoldable pub compile_claims :
      GoMap (Channel F)
      → Bool
      → List Text
      → GoMap (Option (Trajectory F))
      → Result VocabularyError (GoMap (Option (Trajectory F)))
  compile_claims channel_by_name loops [] trajectories = ok trajectories
  compile_claims channel_by_name loops (channel ∷ rest) trajectories =
      compile_claim channel_by_name loops channel (lookup channel trajectories) >>= λ tr.
      compile_claims channel_by_name loops rest (insert channel (some tr) trajectories)

  unfoldable pub validate_action :
      GoMap (Channel F) → GoMap (Action F) → Action F → Result VocabularyError (Action F)
  validate_action channel_by_name by_name a = do
    refuse_if (a.name == []) unnamed
    refuse_if (is_some (lookup a.name by_name)) duplicate
    validate_claims channel_by_name a.claims
    validate_params [] a.params
    check_keys channel_by_name a.claims a.trajectories
    trajectories ← compile_claims channel_by_name a.loops a.claims a.trajectories
    ok (record a { trajectories = trajectories })

  -- the loop of `validateActions`: the actions as they are after it, and their index
  unfoldable pub validate_actions :
      GoMap (Channel F)
      → GoMap (Action F)
      → List (Action F)
      → Result VocabularyError (List (Action F) × GoMap (Action F))
  validate_actions channel_by_name by_name [] = ok ([], by_name)
  validate_actions channel_by_name by_name (a ∷ rest) = do
    a' ← validate_action channel_by_name by_name a
    done ← validate_actions channel_by_name (insert a'.name a' by_name) rest
    ok (a' ∷ done.0, done.1)

  unfoldable pub parse : Config F → Result VocabularyError (Vocabulary F)
  parse cfg = do
    channel_by_name ← validate_channels cfg.channels
    sense_by_name ← validate_senses cfg.senses
    done ← validate_actions channel_by_name [] cfg.actions
    ok (record {
      channels = cfg.channels;
      senses = cfg.senses;
      actions = done.0;
      channel_by_name = channel_by_name;
      sense_by_name = sense_by_name;
      action_by_name = done.1;
    })

  -- the loop of `Neutral`
  unfoldable pub neutral_from : Pose F → List (Channel F) → Pose F
  neutral_from out [] = out
  neutral_from out (ch ∷ rest) = neutral_from (insert ch.name ch.neutral out) rest

  unfoldable pub neutral : Vocabulary F → Pose F
  neutral v = neutral_from [] v.channels

  unfoldable pub has_field : Vocabulary F → Text → Bool
  has_field v name = is_some (lookup name v.sense_by_name)

  unfoldable pub has_action : Vocabulary F → Text → Bool
  has_action v name = is_some (lookup name v.action_by_name)

  unfoldable pub action_loops : Vocabulary F → Text → Bool
  action_loops v name = elim (lookup name v.action_by_name) [ none ↦ false | some a ↦ a.loops ]

  unfoldable pub find_param : Text → List (Param F) → Option (F × F)
  find_param name [] = none
  find_param name (p ∷ rest) = if p.name == name then some (p.min, p.max) else find_param name rest

  unfoldable pub action_param : Vocabulary F → Text → Text → Option (F × F)
  action_param v action param = elim (lookup action v.action_by_name) [
    | none ↦ none
    | some a ↦ find_param param a.params
  ]

  -- one round of the loop of `ValidateParams`
  unfoldable pub check_param : Option (F × F) → F → Result VocabularyError (Unit {0})
  check_param none value = err undeclared_param
  check_param (some (min, max)) value = do
    refuse_if (not (is_finite fl value)) non_finite
    refuse_if (f_lt value min || f_lt max value) out_of_domain

  unfoldable pub check_params : Vocabulary F → Text → GoMap F → Result VocabularyError (Unit {0})
  check_params v action [] = ok tt
  check_params v action ((key, value) ∷ rest) =
      let later = check_params v action rest in
      do check_param (action_param v action key) value; later

  unfoldable pub validate_given : Vocabulary F → Text → GoMap F → Result VocabularyError (Unit {0})
  validate_given v action params = do
    refuse_if (not (has_action v action)) undeclared_action
    check_params v action params

  -- `CheckReferences`
  unfoldable pub check_fields : Vocabulary F → List Text → Result VocabularyError (Unit {0})
  check_fields v [] = ok tt
  check_fields v (name ∷ rest) =
      let later = check_fields v rest in
      do refuse_if (not (has_field v name)) undeclared_field; later

  unfoldable pub check_actions : Vocabulary F → List Text → Result VocabularyError (Unit {0})
  check_actions v [] = ok tt
  check_actions v (name ∷ rest) =
      let later = check_actions v rest in
      do refuse_if (not (has_action v name)) undeclared_action; later

  unfoldable pub check_references :
      Vocabulary F → List Text → List Text → Result VocabularyError (Unit {0})
  check_references v fields actions = do check_fields v fields; check_actions v actions
