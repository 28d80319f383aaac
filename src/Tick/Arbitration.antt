-- ===== src/Tick/Arbitration.antt =====
-- internal/tick/arbitration.go. The best claimant is carried as the behavior itself in place of its
-- index. What `Compose` drops is returned with the pose.
pub mod Owner
pub mod Admission
pub mod Composition
use neurosymbolic_system.Base.{
  Bool, true, false, not, ◌&&◌, Option, none, some, List, [], ◌∷◌, ◌++◌, Text, ◌==◌, if◌then◌else◌,
  leb, eqb, length, mem, any, keep, sort, GoMap, lookup, insert, Floats,
}
use neurosymbolic_system.Adaptor.Vocabulary.{Channel, Vocabulary, Pose, neutral}
use neurosymbolic_system.Tick.Behavior.{
  StopClass, passive, stoppable, stopping, priority, Contribution, Behavior, claims,
}

-- the owner of a channel that no behavior owns
abbrev pub unowned : Text
unowned = []

-- The values that `contribs[id][channel]` holds: `none` for a missing id, a missing channel and a
-- nil slice alike.
unfoldable pub offered : {F : Type 0} → GoMap (Contribution F) → Text → Text → Option (List F)
offered contribs id channel = elim (lookup id contribs) [
  | none ↦ none
  | some c ↦ elim (lookup channel c) [ none ↦ none | some values ↦ values ]
]

module _ {F : Type 0} where
  -- the two `continue`s on a contribution; a nil map of contributions skips nobody
  unfoldable pub abstains : Option (GoMap (Contribution F)) → Text → Behavior F → Bool
  abstains none channel b = false
  abstains (some contribs) channel b = elim (offered contribs b.id channel) [
    | none ↦ true
    | some _ ↦ false
  ]

  unfoldable pub beats : Behavior F → Option (Behavior F) → Bool
  beats b none = true
  beats b (some best) = leb (priority best.class) (priority b.class)

  -- one round of the inner loop of `Arbitrate`
  unfoldable pub consider :
      Option (GoMap (Contribution F))
      → Text
      → Option (Behavior F)
      → Behavior F
      → Option (Behavior F)
  consider contribs channel best b =
      if not (claims b channel)
      then best
      else if abstains contribs channel b
      then best
      else if beats b best
      then some b
      else best

  unfoldable pub best_from :
      Option (GoMap (Contribution F))
      → Text
      → Option (Behavior F)
      → List (Behavior F)
      → Option (Behavior F)
  best_from contribs channel best [] = best
  best_from contribs channel best (b ∷ rest) =
      best_from contribs channel (consider contribs channel best b) rest

  abbrev pub id_of : Option (Behavior F) → Text
  id_of none = unowned
  id_of (some b) = b.id

  unfoldable pub arbitrate_from :
      GoMap Text → List Text → List (Behavior F) → Option (GoMap (Contribution F)) → GoMap Text
  arbitrate_from owners [] behaviors contribs = owners
  arbitrate_from owners (channel ∷ rest) behaviors contribs =
      arbitrate_from (insert channel (id_of (best_from contribs channel none behaviors)) owners)
        rest behaviors contribs

  unfoldable pub arbitrate :
      List Text → List (Behavior F) → Option (GoMap (Contribution F)) → GoMap Text
  arbitrate channels behaviors contribs = arbitrate_from [] channels behaviors contribs

-- `owners[channel]`: the zero value for a missing key
unfoldable pub owner_at : GoMap Text → Text → Text
owner_at owners channel = elim (lookup channel owners) [ none ↦ unowned | some id ↦ id ]

pub record AdmitResult : Type 0 where
  pub evicted : List Text
  pub blocked : List Text

abbrev pub is_stoppable : StopClass → Bool
is_stoppable stoppable = true
is_stoppable _ = false

abbrev pub is_stopping : StopClass → Bool
is_stopping stopping = true
is_stopping _ = false

abbrev pub is_passive : StopClass → Bool
is_passive passive = true
is_passive _ = false

module _ {F : Type 0} where
  unfoldable pub shares_channel : Behavior F → Behavior F → Bool
  shares_channel a b = any (claims b) a.channels

  -- the loop that fills `evicted`
  unfoldable pub evicted_by : Behavior F → List (Behavior F) → List Text
  evicted_by new [] = []
  evicted_by new (b ∷ rest) =
      if is_stoppable b.class && shares_channel b new
      then b.id ∷ evicted_by new rest
      else evicted_by new rest

  unfoldable pub evictions : Behavior F → List (Behavior F) → List Text
  evictions new behaviors = if is_stopping new.class then evicted_by new behaviors else []

  unfoldable pub survivors : List Text → List (Behavior F) → List (Behavior F)
  survivors evicted = keep (λ b. not (mem b.id evicted))

  unfoldable pub admit : List Text → Behavior F → List (Behavior F) → AdmitResult
  admit channels new behaviors =
      if is_passive new.class
      then record { evicted = []; blocked = [] }
      else (let evicted = evictions new behaviors in
          let prospective = survivors evicted behaviors ++ new ∷ [] in
          let owners = arbitrate channels prospective none in
          record {
            evicted = evicted;
            blocked = sort (keep (λ channel. not (owner_at owners channel == new.id)) new.channels);
          })

  -- the loop of `Compose`: the pose, and the channels at which a value was dropped
  unfoldable pub compose_from :
      Pose F
      → List Text
      → List (Channel F)
      → GoMap Text
      → GoMap (Contribution F)
      → Pose F × List Text
  compose_from pose dropped [] ownership contribs = (pose, dropped)
  compose_from pose dropped (ch ∷ rest) ownership contribs =
      let owner = owner_at ownership ch.name in
      let skip = compose_from pose dropped rest ownership contribs in
      if owner == unowned then skip else elim (offered contribs owner ch.name) [
        | none ↦ skip
        | some values ↦
            if not (eqb (length values) ch.arity)
            then compose_from pose (ch.name ∷ dropped) rest ownership contribs
            else compose_from (insert ch.name values pose) dropped rest ownership contribs
      ]

unfoldable pub compose :
    (fl : Floats) → Vocabulary fl.F → GoMap Text → GoMap (Contribution fl.F) → Pose fl.F × List Text
compose fl v ownership contribs = compose_from (neutral fl v) [] v.channels ownership contribs
