-- ===== src/Tick/Arbitration/Composition.antt =====
-- The pose that `Compose` of internal/tick/arbitration.go assembles, and what it drops.
use neurosymbolic_system.Base.{
  ◌≡◌, refl, sym, ◌∙◌, inl, inr, Bool, false, not, Option, none, some, List, [], ◌∷◌, Text, ◌==◌,
  if◌then◌else◌, eqb, length, mem, any, All, All-zip, Distinct, Option-cases, GoMap, lookup, insert,
  lookup-insert, Floats, arith,
}
use mathlib.Core.Path.{subst}
use neurosymbolic_system.Adaptor.Vocabulary.{
  Channel, Vocabulary, Pose, names_of, neutral, neutral_from,
}
use neurosymbolic_system.Tick.Behavior.{Contribution}
use neurosymbolic_system.Tick.Arbitration.{unowned, offered, owner_at, compose_from, compose}

names-All :
    {F : Type 0} (k : Text) (channels : List (Channel F))
    → mem k (names_of channels) ≡ false
    → All (λ c. (c.name == k) ≡ false) channels
unfolding names_of mem any
names-All k [] h = tt
names-All k (c ∷ rest) h = (ground arith, names-All k rest (ground arith))

module _ {F : Type 0} (ownership : GoMap Text) (contribs : GoMap (Contribution F)) where
  -- what the channel's owner offers on it
  unfoldable pub owner_value : Channel F → Option (List F)
  owner_value ch =
      let owner = owner_at ownership ch.name in
      if owner == unowned then none else offered contribs owner ch.name

  unfoldable pub fits : Channel F → List F → Bool
  fits ch values = eqb (length values) ch.arity

  -- the value of a channel in the pose: the owner's, if it has the declared width, or the neutral
  unfoldable pub resolved : Channel F → List F
  resolved ch = elim (owner_value ch) [
    | none ↦ ch.neutral
    | some values ↦ if fits ch values then values else ch.neutral
  ]

  -- the owner offers a value of another width
  unfoldable pub misfits : Channel F → Bool
  misfits ch = elim (owner_value ch) [ none ↦ false | some values ↦ not (fits ch values) ]

  placed : Channel F → Pose F → Pose F
  placed ch pose = elim (owner_value ch) [
    | none ↦ pose
    | some values ↦ if fits ch values then insert ch.name values pose else pose
  ]

  noted : Channel F → List Text → List Text
  noted ch dropped = if misfits ch then ch.name ∷ dropped else dropped

  compose_from-step :
      (pose : Pose F) (dropped : List Text) (ch : Channel F) (rest : List (Channel F))
      → compose_from pose dropped (ch ∷ rest) ownership contribs
        ≡ compose_from (placed ch pose) (noted ch dropped) rest ownership contribs
  unfolding compose_from placed noted owner_value fits misfits
  compose_from-step pose dropped ch rest = ground arith

  lookup-placed_self :
      (ch : Channel F) (pose : Pose F)
      → lookup ch.name pose ≡ some ch.neutral
      → lookup ch.name (placed ch pose) ≡ some (resolved ch)
  unfolding placed resolved
  lookup-placed_self ch pose h = elim (Option-cases (owner_value ch)) [
    | inl e ↦ rw (e, placed, resolved) h
    | inr (values, e) ↦
        rw (e, placed, resolved) (ground (arith, lookup-insert ch.name ch.name values pose))
  ]

  lookup-placed_other :
      (k : Text) (ch : Channel F) (pose : Pose F)
      → (k == ch.name) ≡ false
      → lookup k (placed ch pose) ≡ lookup k pose
  unfolding placed
  lookup-placed_other k ch pose h = elim (Option-cases (owner_value ch)) [
    | inl e ↦ rw (e, placed)
    | inr (values, e) ↦ rw (e, placed) (ground (arith, lookup-insert ch.name k values pose))
  ]

  compose_from_outside :
      (k : Text) (pose : Pose F) (dropped : List Text) (rest : List (Channel F))
      → mem k (names_of rest) ≡ false
      → lookup k (compose_from pose dropped rest ownership contribs).0 ≡ lookup k pose
  unfolding compose_from names_of mem any
  compose_from_outside k pose dropped [] h = refl
  compose_from_outside k pose dropped (ch ∷ rest) h = rw (compose_from-step pose dropped ch rest) (
      compose_from_outside k (placed ch pose) (noted ch dropped) rest (ground arith)
      ∙ lookup-placed_other k ch pose (ground arith))

  compose_from-All :
      (pose : Pose F) (dropped : List Text) (rest : List (Channel F))
      → Distinct (names_of rest)
      → All (λ c. lookup c.name pose ≡ some c.neutral) rest
      → All
          (λ c.
            lookup c.name (compose_from pose dropped rest ownership contribs).0 ≡ some (resolved c))
          rest
  unfolding names_of
  compose_from-All pose dropped [] d h = tt
  compose_from-All pose dropped (ch ∷ rest) d h =
      subst (λ r. All (λ c. lookup c.name r.0 ≡ some (resolved c)) (ch ∷ rest))
        (sym (compose_from-step pose dropped ch rest))
        (
          compose_from_outside ch.name (placed ch pose) (noted ch dropped) rest d.0
              ∙ lookup-placed_self ch pose h.0,
          compose_from-All (placed ch pose) (noted ch dropped) rest d.1 (
              All-zip (λ c other e. lookup-placed_other c.name ch pose other ∙ e) rest
                (names-All ch.name rest d.0) h.1),
        )

  mem-noted :
      (ch : Channel F) (dropped : List Text)
      → mem ch.name dropped ≡ false
      → mem ch.name (noted ch dropped) ≡ misfits ch
  unfolding noted mem any
  mem-noted ch dropped h = ground arith

  mem-noted_other :
      (k : Text) (ch : Channel F) (dropped : List Text)
      → (k == ch.name) ≡ false
      → mem k dropped ≡ false
      → mem k (noted ch dropped) ≡ false
  unfolding noted mem any
  mem-noted_other k ch dropped other h = ground arith

  dropped-outside :
      (k : Text) (pose : Pose F) (dropped : List Text) (rest : List (Channel F))
      → mem k (names_of rest) ≡ false
      → mem k (compose_from pose dropped rest ownership contribs).1 ≡ mem k dropped
  unfolding compose_from names_of mem any noted
  dropped-outside k pose dropped [] h = refl
  dropped-outside k pose dropped (ch ∷ rest) h =
      rw (compose_from-step pose dropped ch rest)
        (dropped-outside k (placed ch pose) (noted ch dropped) rest (ground arith) ∙ ground arith)

  dropped-All :
      (pose : Pose F) (dropped : List Text) (rest : List (Channel F))
      → Distinct (names_of rest)
      → All (λ c. mem c.name dropped ≡ false) rest
      → All (λ c. mem c.name (compose_from pose dropped rest ownership contribs).1 ≡ misfits c) rest
  unfolding names_of
  dropped-All pose dropped [] d h = tt
  dropped-All pose dropped (ch ∷ rest) d h =
      subst (λ r. All (λ c. mem c.name r.1 ≡ misfits c) (ch ∷ rest))
        (sym (compose_from-step pose dropped ch rest))
        (
          dropped-outside ch.name (placed ch pose) (noted ch dropped) rest d.0
              ∙ mem-noted ch dropped h.0,
          dropped-All (placed ch pose) (noted ch dropped) rest d.1 (
              All-zip (λ c other e. mem-noted_other c.name ch dropped other e) rest
                (names-All ch.name rest d.0) h.1),
        )

All-nowhere : {F : Type 0} (channels : List (Channel F)) → All (λ c. mem c.name [] ≡ false) channels
unfolding mem any
All-nowhere [] = tt
All-nowhere (c ∷ rest) = (refl, All-nowhere rest)

module _ (fl : Floats) where
  open fl use {F}

  pub neutral_from-outside :
      (k : Text) (out : Pose F) (channels : List (Channel F))
      → mem k (names_of channels) ≡ false
      → lookup k (neutral_from fl out channels) ≡ lookup k out
  unfolding neutral_from names_of mem any
  neutral_from-outside k out [] h = refl
  neutral_from-outside k out (ch ∷ rest) h =
      neutral_from-outside k (insert ch.name ch.neutral out) rest (ground arith)
      ∙ (lookup-insert ch.name k ch.neutral out ∙ ground arith)

  pub neutral_from-All :
      (out : Pose F) (channels : List (Channel F))
      → Distinct (names_of channels)
      → All (λ c. lookup c.name (neutral_from fl out channels) ≡ some c.neutral) channels
  unfolding neutral_from names_of
  neutral_from-All out [] d = tt
  neutral_from-All out (ch ∷ rest) d = (
    neutral_from-outside ch.name (insert ch.name ch.neutral out) rest d.0
        ∙ (lookup-insert ch.name ch.name ch.neutral out ∙ ground arith),
    neutral_from-All (insert ch.name ch.neutral out) rest d.1,
  )

  -- every declared neutral has its channel's width
  abbrev pub NeutralsFit : List (Channel F) → Type 0
  NeutralsFit = All (λ c. length c.neutral ≡ c.arity)

  length-resolved :
      (ownership : GoMap Text) (contribs : GoMap (Contribution F)) (ch : Channel F)
      → length ch.neutral ≡ ch.arity
      → length (resolved ownership contribs ch) ≡ ch.arity
  unfolding resolved fits
  length-resolved ownership contribs ch h = ground arith

  -- Over a vocabulary with distinct channel names and fitting neutrals, whatever was contributed,
  -- the pose gives each declared channel its resolved value (the owner's, if it has the declared
  -- width, and the neutral if not), which has the declared width.
  pub compose_complete :
      (v : Vocabulary F) (ownership : GoMap Text) (contribs : GoMap (Contribution F))
      → Distinct (names_of v.channels)
      → NeutralsFit v.channels
      → All
          (λ ch.
            (lookup ch.name (compose fl v ownership contribs).0
              ≡ some (resolved ownership contribs ch))
            × (length (resolved ownership contribs ch) ≡ ch.arity))
          v.channels
  unfolding compose neutral
  compose_complete v ownership contribs d n =
      All-zip (λ ch e h. (e, length-resolved ownership contribs ch h)) v.channels
        (compose_from-All ownership contribs (neutral fl v) [] v.channels d
          (neutral_from-All [] v.channels d))
        n

  -- The pose holds no channel that is not declared.
  pub compose-undeclared :
      (v : Vocabulary F) (ownership : GoMap Text) (contribs : GoMap (Contribution F)) (k : Text)
      → mem k (names_of v.channels) ≡ false
      → lookup k (compose fl v ownership contribs).0 ≡ none
  unfolding compose neutral lookup
  compose-undeclared v ownership contribs k h =
      compose_from_outside ownership contribs k (neutral fl v) [] v.channels h
      ∙ neutral_from-outside k [] v.channels h

  -- A declared channel is among the named drops exactly if its owner offers a value of another
  -- width.
  pub compose-dropped :
      (v : Vocabulary F) (ownership : GoMap Text) (contribs : GoMap (Contribution F))
      → Distinct (names_of v.channels)
      → All
          (λ ch. mem ch.name (compose fl v ownership contribs).1 ≡ misfits ownership contribs ch)
          v.channels
  unfolding compose mem any
  compose-dropped v ownership contribs d =
      dropped-All ownership contribs (neutral fl v) [] v.channels d (All-nowhere v.channels)
