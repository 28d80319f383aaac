-- ===== src/Rules/Load.antt =====
-- internal/rules/load.go: layers of files. `read` reads and decodes the file at a path; of a set the members
-- are kept, in a list.
pub mod Merging
pub mod Layers
use neurosymbolic_system.Base.{
  ℕ, Bool, true, false, not, ◌&&◌, ◌||◌, Option, none, some, List, [], ◌∷◌, ◌++◌, map, Text, ◌==◌,
  if◌then◌else◌, eqb, keep, mem, sort, GoMap, lookup, insert, is_some, Floats, Result, ok, err,
  ◌>>=◌, ◌>>◌, refuse_if,
}
use neurosymbolic_system.Rules.Model.{
  Rule, Kind, react, inhibit, Event, EventDefault, Config, event_id,
}
use neurosymbolic_system.Rules.Document.{Table}
use neurosymbolic_system.Rules.Validate.{Refusal}
use neurosymbolic_system.Rules.Validate.File.{File, validate, ids, event_ids}
use neurosymbolic_system.Rules.Names.{Vocabulary, NameProblem, apply_vocabulary}
use neurosymbolic_system.Ruleeval.Registry.{add_names}

pub data LoadError : Type 0 where
  unreadable : LoadError
  invalid : Refusal → LoadError
  bad_name : NameProblem → LoadError
  clash : Text → LoadError

pub record LayerResult (F : Type 0) : Type 0 where
  pub ordered : List (Rule F)
  pub disabled : List Text
  pub modes : GoMap (GoMap F)
  pub active_mode : Text
  pub schema_version : ℕ
  pub events : List Event
  pub events_disabled : List Text
  pub event_default : Option EventDefault

abbrev pub no_layer : {F : Type 0} → LayerResult F
no_layer = record {
  ordered = [];
  disabled = [];
  modes = [];
  active_mode = [];
  schema_version = 0;
  events = [];
  events_disabled = [];
  event_default = none;
}

-- the errors of the parts, as errors of `Load`
abbrev pub lift_error {ℓ κ} :
    {E : Type κ} {A : Type ℓ} → (E → LoadError) → Result E A → Result LoadError A
lift_error f (ok a) = ok a
lift_error f (err e) = err (f e)

-- the ids that a layer has seen, with those of one more file
unfoldable pub claim_ids : List Text → List Text → Result LoadError (List Text)
claim_ids seen [] = ok seen
claim_ids seen (id ∷ rest) = do refuse_if (mem id seen) (clash id); claim_ids (id ∷ seen) rest

-- a later value, if there is one
abbrev pub prefer {ℓ} : {A : Type ℓ} → Option A → Option A → Option A
prefer (some a) before = some a
prefer none before = before

abbrev pub prefer_text : Text → Text → Text
prefer_text after before = if after == [] then before else after

unfoldable pub add_modes : {F : Type 0} → GoMap (GoMap F) → GoMap (GoMap F) → GoMap (GoMap F)
add_modes out [] = out
add_modes out ((name, params) ∷ rest) = add_modes (insert name params out) rest

-- the last entry of a key, as a map that is filled in order has it
unfoldable pub last_by {ℓ} : {A : Type ℓ} → (A → Text) → Text → List A → Option A
last_by key k [] = none
last_by key k (a ∷ rest) = prefer (last_by key k rest) (if k == key a then some a else none)

-- whether an entry that no overlay has is removed
abbrev pub winner {ℓ} : {A : Type ℓ} → Option A → Bool → A → Option A
winner (some replacement) removed a = some replacement
winner none true a = none
winner none false a = some a

abbrev pub cons_some {ℓ} : {A : Type ℓ} → Option A → List A → List A
cons_some none rest = rest
cons_some (some a) rest = a ∷ rest

-- the loop over the entries of both layers: each id at its first place, as the overlay has it
unfoldable pub merge_by {ℓ} :
    {A : Type ℓ} → (A → Text) → List A → List Text → List Text → List A → List A
merge_by key overlay disabled seen [] = []
merge_by key overlay disabled seen (a ∷ rest) =
    let later = merge_by key overlay disabled (key a ∷ seen) rest in
    let skipped = merge_by key overlay disabled seen rest in
    if mem (key a) seen
    then skipped
    else cons_some (winner (last_by key (key a) overlay) (mem (key a) disabled) a) later

abbrev pub event_key : Event → Text
event_key e = event_id e.source e.type

-- the tombstones that no entry of the overlay revives
unfoldable pub remaining {ℓ} : {A : Type ℓ} → (A → Text) → List A → List Text → List Text
remaining key overlay disabled = keep (λ id. not (is_some (last_by key id overlay))) disabled

module _ {F : Type 0} where
  abbrev pub rule_key : Rule F → Text
  rule_key rule = rule.id

  -- a mode that no layer defines any more is not selected
  abbrev defined_mode : GoMap (GoMap F) → Text → Text
  defined_mode modes name = if is_some (lookup name modes) then name else []

  -- `mergeLayers`
  unfoldable pub merge_layers : LayerResult F → LayerResult F → LayerResult F
  merge_layers base overlay =
      let disabled = add_names overlay.disabled base.disabled in
      let events_disabled = add_names overlay.events_disabled base.events_disabled in
      let modes = add_modes base.modes overlay.modes in
      record {
        ordered = merge_by rule_key overlay.ordered disabled [] (base.ordered ++ overlay.ordered);
        disabled = remaining rule_key overlay.ordered disabled;
        modes = modes;
        active_mode = defined_mode modes (prefer_text overlay.active_mode base.active_mode);
        schema_version =
            if eqb overlay.schema_version 0 then base.schema_version else overlay.schema_version;
        events =
            merge_by event_key overlay.events events_disabled [] (base.events ++ overlay.events);
        events_disabled = remaining event_key overlay.events events_disabled;
        event_default = prefer overlay.event_default base.event_default;
      }

  abbrev pub is_inhibit : Rule F → Bool
  is_inhibit rule = elim rule.kind [ react ↦ false | inhibit ↦ true ]

  -- `config`
  unfoldable pub config : LayerResult F → Config F
  config l = record {
    schema_version = l.schema_version;
    active_mode = l.active_mode;
    modes = l.modes;
    react = keep (λ rule. not (is_inhibit rule)) l.ordered;
    inhibit = keep is_inhibit l.ordered;
    disabled = sort l.disabled;
    events = l.events;
    event_default = l.event_default;
  }

  -- one file more in a layer
  unfoldable pub add_file : LayerResult F → File F → LayerResult F
  add_file layer f = record {
    ordered = layer.ordered ++ f.ordered;
    disabled = add_names f.disabled layer.disabled;
    modes = add_modes layer.modes f.modes;
    active_mode = prefer_text f.active_mode layer.active_mode;
    schema_version = f.schema_version;
    events = layer.events ++ f.events;
    events_disabled = add_names f.event_disabled layer.events_disabled;
    event_default = prefer f.event_default layer.event_default;
  }

  -- `eventFieldSet`
  unfoldable pub event_fields : List (List (File F)) → List Text
  event_fields [] = []
  event_fields (files ∷ rest) = layer_fields files (event_fields rest)
    where
      layer_fields : List (File F) → List Text → List Text
      layer_fields [] out = out
      layer_fields (f ∷ fs) out = event_ids f.events ++ (f.event_disabled ++ layer_fields fs out)

module _ (fl : Floats) (read : Text → Option (Table fl.F)) (vocab : Option (Vocabulary fl.F)) where
  open fl use {F}

  unfoldable pub parse_decoded : Option (Table F) → Result LoadError (File F)
  parse_decoded none = err unreadable
  parse_decoded (some t) = lift_error invalid (validate fl t)

  -- `parseFile`
  unfoldable pub parse_file : Text → Result LoadError (File F)
  parse_file path = parse_decoded (read path)

  unfoldable pub parse_files : List Text → Result LoadError (List (File F))
  parse_files [] = ok []
  parse_files (path ∷ rest) = do f ← parse_file path; fs ← parse_files rest; ok (f ∷ fs)

  unfoldable pub parse_layers : List (List Text) → Result LoadError (List (List (File F)))
  parse_layers [] = ok []
  parse_layers (paths ∷ rest) = do
    files ← parse_files paths
    layers ← parse_layers rest
    ok (files ∷ layers)

  -- the loop of `buildLayer`, with the ids and the events that the layer has seen
  unfoldable pub add_files :
      List Text
      → LayerResult F
      → List Text
      → List Text
      → List (File F)
      → Result LoadError (LayerResult F)
  add_files events layer origin event_origin [] = ok layer
  add_files events layer origin event_origin (f ∷ rest) = do
    lift_error bad_name (apply_vocabulary fl vocab events f.ordered)
    origin1 ← claim_ids origin (ids f.ordered ++ f.disabled)
    event_origin1 ← claim_ids event_origin (event_ids f.events ++ f.event_disabled)
    add_files events (add_file layer f) origin1 event_origin1 rest

  -- the second loop of `Load`: a layer with no files is passed over
  unfoldable pub merge_all :
      List Text → LayerResult F → List (List (File F)) → Result LoadError (LayerResult F)
  merge_all events merged [] = ok merged
  merge_all events merged ([] ∷ rest) = merge_all events merged rest
  merge_all events merged ((f ∷ fs) ∷ rest) = do
    layer ← add_files events no_layer [] [] (f ∷ fs)
    merge_all events (merge_layers merged layer) rest

  -- `Load`
  unfoldable pub load : List (List Text) → Result LoadError (Config F)
  load layers = do
    parsed ← parse_layers layers
    merged ← merge_all (event_fields parsed) no_layer parsed
    ok (config merged)
