-- ===== src/Rules/Load/Layers.antt =====
-- What `Load` of internal/rules/load.go makes of its layers.
use neurosymbolic_system.Base.{
  ◌≡◌, refl, ◌∙◌, inl, inr, ℕ, true, not, ◌||◌, Option, none, some, List, [], ◌∷◌, ◌++◌, Text, ◌==◌,
  if◌then◌else◌, is_some, mem, any, All, All-map, All-append, All-keep, Distinct, Bool-cases,
  Option-cases, Floats, Result, ok, err, Accepted, Accepted-bind, Accepted-next, Accepted-ok, arith,
}
use neurosymbolic_system.Rules.Model.{Rule, Config}
use neurosymbolic_system.Rules.Document.{Table}
use neurosymbolic_system.Rules.Names.{Vocabulary, apply_vocabulary}
use neurosymbolic_system.Rules.Validate.File.{File, validate, ids, event_ids}
use neurosymbolic_system.Rules.Validate.Sound.{RuleFit}
use neurosymbolic_system.Rules.Validate.Whole.{FileFit, validate-FileFit}
use neurosymbolic_system.Rules.Load.{
  LoadError, LayerResult, no_layer, lift_error, claim_ids, last_by, rule_key, event_key,
  merge_layers, is_inhibit, config, add_file, event_fields, parse_decoded, parse_file, parse_files,
  parse_layers, add_files, merge_all, load, invalid, bad_name, prefer,
}
use neurosymbolic_system.Rules.Load.Merging.{
  first_by, resolved, merge_by-first, merge_by-Fresh, merge_by-All,
}
use neurosymbolic_system.Ruleeval.Enforced.{mem-add_names}

module _ {A : Type 0} (key : A → Text) where
  first_by-append :
      (k : Text) (xs ys : List A)
      → first_by key k (xs ++ ys) ≡ prefer (first_by key k xs) (first_by key k ys)
  first_by-append k [] ys = refl
  first_by-append k (a ∷ xs) ys = elim (Bool-cases (k == key a)) [
    | inl p ↦ rw p refl
    | inr p ↦ rw p (first_by-append k xs ys)
  ]

  first_by-missing : (k : Text) (xs : List A) → last_by key k xs ≡ none → first_by key k xs ≡ none
  unfolding last_by
  first_by-missing k [] h = refl
  first_by-missing k (a ∷ xs) h = elim (Option-cases (last_by key k xs)) [
    | inl e ↦ elim (Bool-cases (k == key a)) [
      | inl p ↦ absurd (ground arith)
      | inr p ↦ rw p (first_by-missing k xs e)
    ]
    | inr (b, e) ↦ absurd (ground arith)
  ]

  first_by-present :
      (k : Text) (xs : List A) (b : A)
      → last_by key k xs ≡ some b
      → is_some (first_by key k xs) ≡ true
  unfolding last_by
  first_by-present k [] b h = absurd (ground arith)
  first_by-present k (a ∷ xs) b h = elim (Bool-cases (k == key a)) [
    | inl p ↦ rw p refl
    | inr p ↦ elim (Option-cases (last_by key k xs)) [
      | inl e ↦ absurd (ground arith)
      | inr (c, e) ↦ rw p (first_by-present k xs c e)
    ]
  ]

  -- the entry of an id in two layers: the overlay's, or the base's where no tombstone names it
  abbrev pub overridden : List A → List A → List Text → Text → Option A
  overridden base overlay disabled k =
      prefer (last_by key k overlay) (if mem k disabled then none else first_by key k base)

  unrevived :
      (k : Text) (overlay : List A) (disabled : List Text) (o : Option A)
      → last_by key k overlay ≡ none
      → resolved key overlay disabled k o ≡ (if mem k disabled then none else o)
  unrevived k overlay disabled none e = elim (Bool-cases (mem k disabled)) [
    | inl p ↦ rw p refl
    | inr p ↦ rw p refl
  ]
  unrevived k overlay disabled (some a) e = elim (Bool-cases (mem k disabled)) [
    | inl p ↦ rw (e, p) refl
    | inr p ↦ rw (e, p) refl
  ]

  revived :
      (k : Text) (overlay : List A) (disabled : List Text) (o : Option A) (b : A)
      → last_by key k overlay ≡ some b
      → is_some o ≡ true
      → resolved key overlay disabled k o ≡ some b
  revived k overlay disabled none b e h = absurd (ground arith)
  revived k overlay disabled (some a) b e h = rw e refl

  prefer-is_some : (o p : Option A) → is_some p ≡ true → is_some (prefer o p) ≡ true
  prefer-is_some none p h = h
  prefer-is_some (some a) p h = refl

  prefer-none : (o : Option A) → prefer o none ≡ o
  prefer-none none = refl
  prefer-none (some a) = refl

  resolved-overridden :
      (base overlay : List A) (disabled : List Text) (k : Text)
      → resolved key overlay disabled k (first_by key k (base ++ overlay))
        ≡ overridden base overlay disabled k
  resolved-overridden base overlay disabled k =
      rw (first_by-append k base overlay) (elim (Option-cases (last_by key k overlay)) [
        | inl e ↦
            rw
              (
                first_by-missing k overlay e,
                prefer-none (first_by key k base),
                unrevived k overlay disabled (first_by key k base) e,
                e,
              )
              refl
        | inr (b, e) ↦
            revived k overlay disabled _ b e (
              prefer-is_some (first_by key k base) (first_by key k overlay)
                (first_by-present k overlay b e))
            ∙ rw e refl
      ])

module _ {F : Type 0} where
  -- Of two layers, an id has the rule that the overlay gives it, whatever tombstones there are; else none, if a
  -- tombstone of either layer names it; else the rule of the base. No rule id is in the merge twice. The same
  -- holds of the events and their ids.
  pub merge_layers-overridden :
      (base overlay : LayerResult F) (id : Text)
      → (first_by rule_key id (merge_layers base overlay).ordered
          ≡ prefer (last_by rule_key id overlay.ordered) (
              if mem id overlay.disabled || mem id base.disabled
              then none
              else first_by rule_key id base.ordered))
        × Distinct (ids (merge_layers base overlay).ordered)
        × (first_by event_key id (merge_layers base overlay).events
            ≡ prefer (last_by event_key id overlay.events) (
                if mem id overlay.events_disabled || mem id base.events_disabled
                then none
                else first_by event_key id base.events))
        × Distinct (event_ids (merge_layers base overlay).events)
  unfolding merge_layers mem any
  merge_layers-overridden base overlay id = (
    merge_by-first rule_key overlay.ordered _ id [] (base.ordered ++ overlay.ordered)
        ∙ resolved-overridden rule_key base.ordered overlay.ordered _ id
        ∙ rw (mem-add_names id overlay.disabled base.disabled) refl,
    (merge_by-Fresh rule_key overlay.ordered _ [] (base.ordered ++ overlay.ordered)).0,
    merge_by-first event_key overlay.events _ id [] (base.events ++ overlay.events)
        ∙ resolved-overridden event_key base.events overlay.events _ id
        ∙ rw (mem-add_names id overlay.events_disabled base.events_disabled) refl,
    (merge_by-Fresh event_key overlay.events _ [] (base.events ++ overlay.events)).0,
  )

lift_error-Accepted {ℓ κ μ} :
    {E : Type κ} {A : Type ℓ} (P : A → Type μ) (f : E → LoadError) (r : Result E A)
    → ((a : A) → r ≡ ok a → P a)
    → Accepted P (lift_error f r)
lift_error-Accepted P f (ok a) h = h a refl
lift_error-Accepted P f (err e) h = tt

-- a rule that a file of some schema version may have
abbrev pub ValidRule : (fl : Floats) → Rule fl.F → Type 0
ValidRule fl rule = (version : ℕ) × RuleFit fl version rule

module _ (fl : Floats) (read : Text → Option (Table fl.F)) (vocab : Option (Vocabulary fl.F)) where
  open fl use {F}

  parse_decoded-FileFit :
      (o : Option (Table F)) → Accepted (FileFit fl) (parse_decoded fl read vocab o)
  unfolding parse_decoded
  parse_decoded-FileFit none = tt
  parse_decoded-FileFit (some t) =
      lift_error-Accepted (FileFit fl) invalid (validate fl t) (λ f h. validate-FileFit fl t h)

  parse_file-FileFit : (path : Text) → Accepted (FileFit fl) (parse_file fl read vocab path)
  unfolding parse_file
  parse_file-FileFit path = parse_decoded-FileFit (read path)

  parse_files-All :
      (paths : List Text) → Accepted (All (FileFit fl)) (parse_files fl read vocab paths)
  unfolding parse_files
  parse_files-All [] = tt
  parse_files-All (path ∷ rest) =
      Accepted-bind (FileFit fl) (All (FileFit fl)) (parse_file fl read vocab path) _
        (parse_file-FileFit path)
        (λ f fit.
          Accepted-bind (All (FileFit fl)) (All (FileFit fl)) (parse_files fl read vocab rest) _
            (parse_files-All rest) (λ fs fits. (fit, fits)))

  parse_layers-All :
      (layers : List (List Text))
      → Accepted (All (All (FileFit fl))) (parse_layers fl read vocab layers)
  unfolding parse_layers
  parse_layers-All [] = tt
  parse_layers-All (paths ∷ rest) =
      Accepted-bind (All (FileFit fl)) (All (All (FileFit fl))) (parse_files fl read vocab paths) _
        (parse_files-All paths)
        (λ files fit.
          Accepted-bind (All (All (FileFit fl))) (All (All (FileFit fl)))
            (parse_layers fl read vocab rest) _ (parse_layers-All rest) (λ more fits. (fit, fits)))

  abbrev LayerFit : LayerResult F → Type 0
  LayerFit l = All (ValidRule fl) l.ordered

  add_file-LayerFit :
      (l : LayerResult F) (f : File F) → LayerFit l → FileFit fl f → LayerFit (add_file l f)
  unfolding add_file
  add_file-LayerFit l f h k =
      All-append (ValidRule fl) l.ordered f.ordered h
        (All-map (λ rule fit. (f.schema_version, fit)) f.ordered k.rules_fit)

  add_files-LayerFit :
      (events : List Text) (layer : LayerResult F) (origin event_origin : List Text)
      (files : List (File F))
      → LayerFit layer
      → All (FileFit fl) files
      → Accepted LayerFit (add_files fl read vocab events layer origin event_origin files)
  unfolding add_files
  add_files-LayerFit events layer origin event_origin [] h k = h
  add_files-LayerFit events layer origin event_origin (f ∷ rest) h k =
      Accepted-next LayerFit (lift_error bad_name (apply_vocabulary fl vocab events f.ordered)) _
        (λ u named.
          Accepted-next LayerFit (claim_ids origin (ids f.ordered ++ f.disabled)) _ (λ origin1 o.
            Accepted-next LayerFit (claim_ids event_origin (event_ids f.events ++ f.event_disabled))
              _
              (λ event_origin1 eo.
                add_files-LayerFit events (add_file layer f) origin1 event_origin1 rest
                  (add_file-LayerFit layer f h k.0) k.1)))

  merge_layers-LayerFit :
      (base overlay : LayerResult F)
      → LayerFit base
      → LayerFit overlay
      → LayerFit (merge_layers base overlay)
  unfolding merge_layers
  merge_layers-LayerFit base overlay h k =
      merge_by-All rule_key overlay.ordered _ (ValidRule fl) [] (base.ordered ++ overlay.ordered) k
        (All-append (ValidRule fl) base.ordered overlay.ordered h k)

  merge_all-LayerFit :
      (events : List Text) (merged : LayerResult F) (layers : List (List (File F)))
      → LayerFit merged
      → All (All (FileFit fl)) layers
      → Accepted LayerFit (merge_all fl read vocab events merged layers)
  unfolding merge_all
  merge_all-LayerFit events merged [] h k = h
  merge_all-LayerFit events merged ([] ∷ rest) h k = merge_all-LayerFit events merged rest h k.1
  merge_all-LayerFit events merged ((f ∷ fs) ∷ rest) h k =
      Accepted-bind LayerFit LayerFit (add_files fl read vocab events no_layer [] [] (f ∷ fs)) _
        (add_files-LayerFit events no_layer [] [] (f ∷ fs) tt k.0)
        (λ layer fit.
          merge_all-LayerFit events (merge_layers merged layer) rest
            (merge_layers-LayerFit merged layer h fit) k.1)

  abbrev ConfigFit : Config F → Type 0
  ConfigFit cfg = All (ValidRule fl) cfg.react × All (ValidRule fl) cfg.inhibit

  load-Accepted : (layers : List (List Text)) → Accepted ConfigFit (load fl read vocab layers)
  unfolding load config
  load-Accepted layers =
      Accepted-bind (All (All (FileFit fl))) ConfigFit (parse_layers fl read vocab layers) _
        (parse_layers-All layers)
        (λ parsed fits.
          Accepted-bind LayerFit ConfigFit
            (merge_all fl read vocab (event_fields parsed) no_layer parsed) _
            (merge_all-LayerFit (event_fields parsed) no_layer parsed tt fits)
            (λ merged fit. (
              All-keep (ValidRule fl) (λ rule. not (is_inhibit rule)) merged.ordered fit,
              All-keep (ValidRule fl) is_inhibit merged.ordered fit,
            )))

  -- Every rule of a configuration that `Load` makes of any stack of layers is as a file may have it.
  pub load-ValidRule :
      (layers : List (List Text)) {cfg : Config F}
      → load fl read vocab layers ≡ ok cfg
      → All (ValidRule fl) cfg.react × All (ValidRule fl) cfg.inhibit
  load-ValidRule layers h =
      Accepted-ok ConfigFit (load fl read vocab layers) (load-Accepted layers) h
