-- ===== src/Adaptor/Vocabulary/Sound.antt =====
-- What every vocabulary that `parse` accepts satisfies.
use neurosymbolic_system.Base.{
  ◌≡◌, sym, ap, ◌∙◌, inl, inr, false, none, some, List, [], ◌∷◌, Text, mem, All, Distinct, GoMap,
  lookup, Floats, ok, Result-cases, arith,
}
use neurosymbolic_system.Adaptor.Vocabulary.{
  Channel, Config, Vocabulary, names_of, index_channels, validate_channels, validate_actions, parse,
}
use neurosymbolic_system.Adaptor.Vocabulary.Indexing.{ChannelFit, index-outside, index-fit}
use neurosymbolic_system.Adaptor.Vocabulary.Claims.{ActionFit, validate_actions-fit}

module _ (fl : Floats) where
  open fl use {F}

  -- the invariant of a loaded vocabulary
  pub record IsSound (v : Vocabulary F) : Type 0 where
    pub channels_fit : All (ChannelFit fl) v.channels
    pub names_distinct : Distinct (names_of v.channels)
    pub indexed : All (λ c. lookup c.name v.channel_by_name ≡ some c) v.channels
    pub only_indexed :
        (k : Text) → mem k (names_of v.channels) ≡ false → lookup k v.channel_by_name ≡ none
    pub actions_fit : All (ActionFit fl v.channel_by_name) v.actions

  validate_channels-index :
      (channels : List (Channel F)) {m : GoMap (Channel F)}
      → validate_channels fl channels ≡ ok m
      → index_channels fl [] channels ≡ ok m
  unfolding validate_channels
  validate_channels-index [] h = absurd (ground arith)
  validate_channels-index (ch ∷ rest) h = h

  -- A vocabulary that is not refused has channels with distinct non-empty names, positive arities and
  -- neutrals of that width, all of them and no others indexed, and every action claims declared
  -- channels, none twice and at least one, with a compiled trajectory of the right arity for each
  -- claim and no other trajectory.
  pub parse-IsSound : (cfg : Config F) {v : Vocabulary F} → parse fl cfg ≡ ok v → IsSound v
  unfolding parse lookup
  parse-IsSound cfg {v} h = elim (Result-cases (validate_channels fl cfg.channels)) [
    | inr (e, q) ↦ absurd (ground arith)
    | inl (m, q) ↦ elim (Result-cases (validate_actions fl m [] cfg.actions)) [
      | inr (e, p) ↦ absurd (ground arith)
      | inl (r, p) ↦
          let channels_kept : v.channels ≡ cfg.channels = ground arith in
          let index_kept : v.channel_by_name ≡ m = ground arith in
          let actions_kept : v.actions ≡ r.0 = ground arith in
          let indexed = validate_channels-index cfg.channels q in
          let fit = index-fit fl [] cfg.channels indexed in
          record {
            channels_fit = rw channels_kept fit.0;
            names_distinct = rw channels_kept fit.1;
            indexed = rw (channels_kept, index_kept) fit.3;
            only_indexed = λ k out.
                ap (lookup k) index_kept
                ∙ index-outside fl k [] cfg.channels indexed
                    (ap (λ cs. mem k (names_of cs)) (sym channels_kept) ∙ out);
            actions_fit =
                rw (actions_kept, index_kept) (validate_actions-fit fl m [] cfg.actions p);
          }
    ]
  ]
