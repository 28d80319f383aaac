-- ===== src/Adaptor/Vocabulary/Indexing.antt =====
-- What the channels of a vocabulary that is not refused satisfy, and the index of their names.
use neurosymbolic_system.Base.{
  ◌<◌, ◌≡◌, refl, ◌∙◌, false, none, some, List, [], ◌∷◌, Text, ◌==◌, length, mem, any, All,
  Distinct, GoMap, lookup, insert, lookup-insert, Floats, ok, arith,
}
use neurosymbolic_system.Adaptor.Vocabulary.{Channel, names_of, check_channel, index_channels}

module _ (fl : Floats) where
  open fl use {F}

  pub record ChannelFit (ch : Channel F) : Type 0 where
    pub named : (ch.name == []) ≡ false
    pub arity_positive : 0 < ch.arity
    pub neutral_fits : length ch.neutral ≡ ch.arity

  check_channel-fit :
      (by_name : GoMap (Channel F)) (ch : Channel F) {u : Unit {0}}
      → check_channel fl by_name ch ≡ ok u
      → ChannelFit ch × (lookup ch.name by_name ≡ none)
  unfolding check_channel
  check_channel-fit by_name ch h = (
    record { named = ground arith; arity_positive = ground arith; neutral_fits = ground arith },
    ground arith,
  )

  pub index-outside :
      (k : Text) (by_name : GoMap (Channel F)) (rest : List (Channel F)) {m : GoMap (Channel F)}
      → index_channels fl by_name rest ≡ ok m
      → mem k (names_of rest) ≡ false
      → lookup k m ≡ lookup k by_name
  unfolding index_channels names_of mem any
  index-outside k by_name [] h out = ground arith
  index-outside k by_name (ch ∷ rest) h out =
      index-outside k (insert ch.name ch by_name) rest (ground arith) (ground arith)
      ∙ (lookup-insert ch.name k ch by_name ∙ ground arith)

  -- a name that the index does not hold yet
  absent-others :
      (ch : Channel F) (by_name : GoMap (Channel F)) (rest : List (Channel F))
      → All (λ c. lookup c.name (insert ch.name ch by_name) ≡ none) rest
      → All (λ c. lookup c.name by_name ≡ none) rest × (mem ch.name (names_of rest) ≡ false)
  unfolding names_of mem any
  absent-others ch by_name [] h = (tt, refl)
  absent-others ch by_name (c ∷ rest) h =
      let later = absent-others ch by_name rest h.1 in
      (
        (ground (arith, lookup-insert ch.name c.name ch by_name, h.0), later.0),
        ground (arith, lookup-insert ch.name c.name ch by_name, h.0, later.1),
      )

  pub index-fit :
      (by_name : GoMap (Channel F)) (rest : List (Channel F)) {m : GoMap (Channel F)}
      → index_channels fl by_name rest ≡ ok m
      → All ChannelFit rest
        × Distinct (names_of rest)
        × All (λ c. lookup c.name by_name ≡ none) rest
        × All (λ c. lookup c.name m ≡ some c) rest
  unfolding index_channels names_of
  index-fit by_name [] h = (tt, tt, tt, tt)
  index-fit by_name (ch ∷ rest) {m} h =
      let checked : check_channel fl by_name ch ≡ ok tt = ground arith in
      let indexed : index_channels fl (insert ch.name ch by_name) rest ≡ ok m = ground arith in
      let (fit, absent) = check_channel-fit by_name ch checked in
      let later = index-fit (insert ch.name ch by_name) rest indexed in
      let (others, new) = absent-others ch by_name rest later.2 in
      (
        (fit, later.0),
        (new, later.1),
        (absent, others),
        (
          index-outside ch.name (insert ch.name ch by_name) rest indexed new
              ∙ (lookup-insert ch.name ch.name ch by_name ∙ ground arith),
          later.3,
        ),
      )
