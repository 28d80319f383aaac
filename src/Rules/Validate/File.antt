-- ===== src/Rules/Validate/File.antt =====
-- internal/rules/validate.go: a whole document, with its modes and its events. A file holds what `validate`
-- returns but its path.
use neurosymbolic_system.Base.{
  ℕ, ◌+◌, Bool, true, not, ◌||◌, Option, none, some, List, [], ◌∷◌, ◌++◌, map, Text, if◌then◌else◌,
  eqb, mem, GoMap, lookup, insert, is_some, Floats, pos, Result, ok, err, ◌>>=◌, ◌>>◌, refuse_if,
}
use neurosymbolic_system.Rules.Model.{
  Rule, Kind, react, inhibit, Event, EventDefault, event_id, default_voice,
}
use neurosymbolic_system.Rules.Document.{
  Toml, Table, integer, as_table, as_text, as_bool, as_maps, has_unknown, has_missing, is_blank,
}
use neurosymbolic_system.Rules.Document.Fields as Fields
use neurosymbolic_system.Rules.Validate.{
  Refusal, refusal, require, nonblank, is_tombstone, numbers, sorted_keys, Declared, live,
  tombstone, declare, kind_name, positional, validate_rule, unexpected_field, missing_field,
  bad_version, not_tables, duplicate, modes_not_table, mode_not_table, no_active_mode,
  bad_active_mode, bad_source, bad_type, bad_enum, bad_bool, bad_string, default_not_table,
}

pub record File (F : Type 0) : Type 0 where
  pub schema_version : ℕ
  pub ordered : List (Rule F)
  pub disabled : List Text
  pub modes : GoMap (GoMap F)
  pub active_mode : Text
  pub events : List Event
  pub event_disabled : List Text
  pub event_default : Option EventDefault

abbrev pub event_ids : List Event → List Text
event_ids = map (λ e. event_id e.source e.type)

abbrev pub ids : {F : Type 0} → List (Rule F) → List Text
ids = map (λ rule. rule.id)

-- the loop of `checkDuplicateIDs`, and of `checkDuplicateEventIDs`
unfoldable pub check_duplicates : List Text → List Text → Result Refusal (Unit {0})
check_duplicates seen [] = ok tt
check_duplicates seen (id ∷ rest) = do
  refuse_if (mem id seen) (refusal id duplicate)
  check_duplicates (id ∷ seen) rest

unfoldable pub add_entry : {A : Type 0} → Declared A → List A × List Text → List A × List Text
add_entry (live a) (lives, tombstones) = (a ∷ lives, tombstones)
add_entry (tombstone id) (lives, tombstones) = (lives, id ∷ tombstones)

abbrev event_label : Text → Option Text → Option Text → Text
event_label place (some source) (some type) =
    if is_blank source || is_blank type then place else event_id source type
event_label place _ _ = place

-- `requiredEnum`, `optionalEnum`, `optionalBool` and `optionalString`
module _ {F : Type 0} where
  unfoldable pub required_enum : Text → Option (Toml F) → List Text → Result Refusal Text
  required_enum label raw domain = do
    value ← require (as_text raw) (refusal label bad_enum)
    refuse_if (not (mem value domain)) (refusal label bad_enum)
    ok value

  unfoldable pub optional_enum : Text → Option (Toml F) → List Text → Text → Result Refusal Text
  optional_enum label none domain default = ok default
  optional_enum label (some raw) domain default = required_enum label (some raw) domain

  unfoldable pub optional_bool : Text → Option (Toml F) → Bool → Result Refusal Bool
  optional_bool label none default = ok default
  optional_bool label (some raw) default = require (as_bool (some raw)) (refusal label bad_bool)

  unfoldable pub optional_string : Text → Option (Toml F) → Result Refusal Text
  optional_string label none = ok []
  optional_string label (some raw) = nonblank (as_text (some raw)) (refusal label bad_string)

  -- an event with its names that is no tombstone
  unfoldable pub live_event : Text → Text → Text → Table F → Result Refusal Event
  live_event label source type raw = do
    refuse_if (has_missing raw Fields.event_required) (refusal label missing_field)
    priority ← required_enum label (lookup Fields.key_priority raw) Fields.priorities
    urgency ← required_enum label (lookup Fields.key_urgency raw) Fields.urgencies
    llm_evaluate ← optional_bool label (lookup Fields.key_llm_evaluate raw) true
    voice ← optional_enum label (lookup Fields.key_voice raw) Fields.voices default_voice
    inject_template ← optional_string label (lookup Fields.key_inject_template raw)
    sense ← optional_string label (lookup Fields.key_sense raw)
    dedupe ← optional_string label (lookup Fields.key_dedupe raw)
    ok (record {
      source = source;
      type = type;
      priority = priority;
      urgency = urgency;
      llm_evaluate = llm_evaluate;
      inject_template = inject_template;
      voice = voice;
      sense = sense;
      dedupe = dedupe;
    })

  unfoldable pub validate_event : ℕ → Table F → Result Refusal (Declared Event)
  validate_event index raw =
      let declared_source = as_text (lookup Fields.key_source raw) in
      let declared_type = as_text (lookup Fields.key_type raw) in
      let label = event_label (positional Fields.key_event index) declared_source declared_type in
      do
        refuse_if (has_unknown raw Fields.event_fields) (refusal label unexpected_field)
        disabled ← is_tombstone label raw
        source ← nonblank declared_source (refusal label bad_source)
        type ← nonblank declared_type (refusal label bad_type)
        declare disabled (event_id source type) (live_event label source type raw)

  unfoldable pub validate_event_default : Option (Toml F) → Result Refusal (Option EventDefault)
  validate_event_default none = ok none
  validate_event_default (some raw) = do
    t ← require (as_table (some raw)) (refusal [] default_not_table)
    refuse_if (has_unknown t Fields.event_default_fields) (refusal [] unexpected_field)
    refuse_if (has_missing t Fields.event_default_required) (refusal [] missing_field)
    priority ← required_enum [] (lookup Fields.key_priority t) Fields.priorities
    urgency ← required_enum [] (lookup Fields.key_urgency t) Fields.urgencies
    llm_evaluate ← optional_bool [] (lookup Fields.key_llm_evaluate t) true
    voice ← optional_enum [] (lookup Fields.key_voice t) Fields.voices default_voice
    ok (
        some (record {
          priority = priority;
          urgency = urgency;
          llm_evaluate = llm_evaluate;
          voice = voice;
        }))

  -- `validateSchemaVersion`
  unfoldable pub schema_version_of : Option (Toml F) → Result Refusal ℕ
  schema_version_of (some (integer (pos n))) =
      if eqb n 1 || eqb n 2 then ok n else err (refusal [] bad_version)
  schema_version_of _ = err (refusal [] bad_version)

  -- `validateActiveMode`
  unfoldable pub active_mode_of : Option (Toml F) → GoMap (GoMap F) → Result Refusal Text
  active_mode_of none [] = ok []
  active_mode_of none (m ∷ modes) = err (refusal [] no_active_mode)
  active_mode_of (some raw) modes = do
    name ← require (as_text (some raw)) (refusal [] bad_active_mode)
    refuse_if (not (is_some (lookup name modes))) (refusal [] bad_active_mode)
    ok name

  -- a section that is a list of tables, or missing
  unfoldable pub section : Option (Toml F) → Result Refusal (List (Table F))
  section none = ok []
  section (some raw) = require (as_maps (some raw)) (refusal [] not_tables)

  -- the loops over the entries of a section, from an index on
  unfoldable pub each_entry :
      {A : Type 0} (check : ℕ → Table F → Result Refusal (Declared A))
      → ℕ
      → List (Table F)
      → Result Refusal (List A × List Text)
  each_entry check index [] = ok ([], [])
  each_entry check index (raw ∷ rest) = do
    d ← check index raw
    r ← each_entry check (index + 1) rest
    ok (add_entry d r)

module _ (fl : Floats) where
  open fl use {F}

  -- `validateModes`
  unfoldable pub each_mode :
      Table F → List Text → GoMap (GoMap F) → Result Refusal (GoMap (GoMap F))
  each_mode t [] out = ok out
  each_mode t (name ∷ rest) out = do
    body ← require (as_table (lookup name t)) (refusal [] mode_not_table)
    params ← numbers fl [] body (sorted_keys body) []
    each_mode t rest (insert name params out)

  unfoldable pub validate_modes : Option (Toml F) → Result Refusal (GoMap (GoMap F))
  validate_modes none = ok []
  validate_modes (some raw) = do
    t ← require (as_table (some raw)) (refusal [] modes_not_table)
    each_mode t (sorted_keys t) []

  -- the rules of one kind
  unfoldable pub rules_of : Kind → Table F → ℕ → Result Refusal (List (Rule F) × List Text)
  rules_of kind data_table version = do
    entries ← section (lookup (kind_name kind) data_table)
    each_entry (λ index raw. validate_rule fl kind index raw version) 0 entries

  -- `validate`
  unfoldable pub validate : Table F → Result Refusal (File F)
  validate data_table = do
    refuse_if (has_unknown data_table Fields.top_level_fields) (refusal [] unexpected_field)
    version ← schema_version_of (lookup Fields.key_schema_version data_table)
    reacts ← rules_of react data_table version
    inhibits ← rules_of inhibit data_table version
    check_duplicates [] (ids (reacts.0 ++ inhibits.0) ++ (reacts.1 ++ inhibits.1))
    modes ← validate_modes (lookup Fields.key_modes data_table)
    active_mode ← active_mode_of (lookup Fields.key_active_mode data_table) modes
    entries ← section (lookup Fields.key_event data_table)
    events ← each_entry validate_event 0 entries
    check_duplicates [] (event_ids events.0 ++ events.1)
    event_default ← validate_event_default (lookup Fields.key_event_default data_table)
    ok (record {
      schema_version = version;
      ordered = reacts.0 ++ inhibits.0;
      disabled = reacts.1 ++ inhibits.1;
      modes = modes;
      active_mode = active_mode;
      events = events.0;
      event_disabled = events.1;
      event_default = event_default;
    })
