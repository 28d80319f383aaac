-- ===== src/Examples/Rulebook.antt =====
-- Two layers of rules files for a small body: a rule that nods, one that stops the wave, and an overlay that
-- disables a rule and changes another.
use neurosymbolic_system.Base.{
  ◌≡◌, refl, ℕ, true, false, ◌||◌, if◌then◌else◌, Option, none, some, List, [], ◌∷◌, ◌==◌, Text,
  mem, any, lookup, insert, sort, insert_sorted, text_leb, keep, text_discrete, Distinct, pos,
  is_some, is_finite, ok,
}
use neurosymbolic_system.Tick.Engine.State.{AdmitError}
use neurosymbolic_system.Tick.Engine.Loop.{run_seam}
use neurosymbolic_system.Tick.Engine.Names.{NamesAll}
use neurosymbolic_system.Ruleeval.Predicate.{number, View}
use neurosymbolic_system.Rules.Model.{Config}
use neurosymbolic_system.Rules.Document.{
  Toml, Entries, Table, text, boolean, integer, array, tables, table, no_items, item, no_rows, row,
  no_entries, entry, entries_of, items_of, rows_of, as_table, as_text, as_bool, as_items,
  all_tables, as_maps, has_unknown, has_missing, to_float, space_width, is_blank_from, is_blank,
  rune_count, op_of,
}
use neurosymbolic_system.Rules.Document.Fields as Fields
use neurosymbolic_system.Rules.Validate.{
  nonblank, is_tombstone, number_value, no_value, predicate_value, leaf_of, each_child, group_of,
  predicate_with, predicate_at, validate_predicate, non_negative, positive, numbers,
  validate_params, disable_names, validate_disable, validate_say, declare, finish_rule, live_rule,
  validate_rule,
}
use neurosymbolic_system.Rules.Validate.File.{
  File, check_duplicates, add_entry, schema_version_of, active_mode_of, section, each_entry,
  validate_modes, each_mode, validate_event_default, rules_of, validate, ids, event_ids,
}
use neurosymbolic_system.Rules.Validate.Whole.{FileFit, validate-FileFit}
use neurosymbolic_system.Rules.Names.{apply_vocabulary}
use neurosymbolic_system.Rules.Load.{
  LayerResult, no_layer, prefer, last_by, merge_by, rule_key, event_key, remaining, merge_layers,
  config, add_file, add_modes, event_fields, claim_ids, parse_decoded, parse_file, parse_files,
  parse_layers, add_files, merge_all, load,
}
use neurosymbolic_system.Rules.Load.Merging.{first_by}
use neurosymbolic_system.Rules.Load.Layers.{merge_layers-overridden}
use neurosymbolic_system.Ruleeval.Registry.{add_name, add_names}
use neurosymbolic_system.Ruleeval.Ask.{as_seam}
use neurosymbolic_system.Ruleeval.Ask.Perform.{perform}
use neurosymbolic_system.Ruleeval.Evaluator.{
  Evaluator, new_evaluator, all_bounded, snapshot, track_presence, absent_func,
}
use neurosymbolic_system.Ruleeval.Evaluator.Rules.{inhibited_now, tick_rules}
use neurosymbolic_system.Ruleeval.Enforced.{Free}
use neurosymbolic_system.Ruleeval.Loaded.{load-clears}
use neurosymbolic_system.Examples.{whole, pan, led, wave, nod, voc, engine, room, or_else}

abbrev above : Text
above = b'g' ∷ b't' ∷ []

-- { field = <field>, op = "gt", value = 2 }
abbrev over : Text → Toml ℕ
over field = table (
    entry Fields.key_field (text field)
      (entry Fields.key_op (text above) (entry Fields.key_value (integer (pos 2)) no_entries)))

abbrev nodding : Entries ℕ
nodding = entry Fields.key_id (text nod) (
    entry Fields.key_when (over led)
      (entry Fields.key_run (text nod) (entry Fields.key_duration_s (integer (pos 3)) no_entries)))

abbrev stilling : Entries ℕ
stilling = entry Fields.key_id (text wave) (
    entry Fields.key_when (over pan)
      (entry Fields.key_disable (array (item (text wave) no_items)) no_entries))

abbrev shipped : Table ℕ
shipped =
    (Fields.key_schema_version, integer (pos 1))
    ∷ (Fields.key_react, tables (row nodding no_rows))
    ∷ (Fields.key_inhibit, tables (row stilling no_rows))
    ∷ []

-- the overlay's file has a tombstone for the rule that nods
abbrev overlay : Table ℕ
overlay =
    (Fields.key_schema_version, integer (pos 2))
    ∷ (
      Fields.key_react,
      tables (
          row (entry Fields.key_id (text nod) (entry Fields.key_enabled (boolean false) no_entries))
            no_rows),
    )
    ∷ []

abbrev disk : Text → Option (Table ℕ)
disk path = if path == led then some shipped else if path == pan then some overlay else none

abbrev paths : List (List Text)
paths = (led ∷ []) ∷ (pan ∷ []) ∷ []

abbrev no_rules : Config ℕ
no_rules = record {
  schema_version = 0;
  active_mode = [];
  modes = [];
  react = [];
  inhibit = [];
  disabled = [];
  events = [];
  event_default = none;
}

abbrev loaded : Config ℕ
loaded = or_else no_rules (load whole disk none paths)

is_loaded : load whole disk none paths ≡ ok loaded
unfolding load parse_layers parse_files parse_file parse_decoded validate has_unknown has_missing
    any mem lookup text_discrete schema_version_of section as_maps all_tables as_table entries_of
    items_of rows_of rules_of each_entry add_entry validate_rule is_tombstone nonblank is_blank
    is_blank_from space_width declare live_rule validate_predicate predicate_at predicate_with
    group_of leaf_of each_child op_of predicate_value number_value no_value to_float non_negative
    positive numbers validate_params finish_rule validate_disable disable_names validate_say
    rune_count sort insert_sorted text_leb is_finite check_duplicates validate_modes each_mode
    active_mode_of validate_event_default insert as_text as_bool as_items event_fields merge_all
    add_files apply_vocabulary claim_ids add_file add_names add_name add_modes merge_layers merge_by
    last_by remaining keep config
is_loaded = refl

-- the rules of the shipped file alone
abbrev alone : Config ℕ
alone = or_else no_rules (load whole disk none ((led ∷ []) ∷ []))

is_alone : load whole disk none ((led ∷ []) ∷ []) ≡ ok alone
unfolding load parse_layers parse_files parse_file parse_decoded validate has_unknown has_missing
    any mem lookup text_discrete schema_version_of section as_maps all_tables as_table entries_of
    items_of rows_of rules_of each_entry add_entry validate_rule is_tombstone nonblank is_blank
    is_blank_from space_width declare live_rule validate_predicate predicate_at predicate_with
    group_of leaf_of each_child op_of predicate_value number_value no_value to_float non_negative
    positive numbers validate_params finish_rule validate_disable disable_names validate_say
    rune_count sort insert_sorted text_leb is_finite check_duplicates validate_modes each_mode
    active_mode_of validate_event_default insert as_text as_bool as_items event_fields merge_all
    add_files apply_vocabulary claim_ids add_file add_names add_name add_modes merge_layers merge_by
    last_by remaining keep config
is_alone = refl

abbrev no_evaluator : Evaluator ℕ
no_evaluator = record {
  rules = no_rules;
  voc = voc;
  id_prefix = [];
  registry = record { queue = []; goals = []; goal_order = []; inhibited = []; seq = 0 };
  states = [];
  last_present = [];
  started_at = none;
  active_mode = [];
}

abbrev evaluator : Evaluator ℕ
evaluator = or_else no_evaluator (new_evaluator whole (some alone) (some voc) [])

is_made : new_evaluator whole (some alone) (some voc) [] ≡ ok evaluator
unfolding new_evaluator all_bounded load parse_layers parse_files parse_file parse_decoded validate
    has_unknown has_missing any mem lookup text_discrete schema_version_of section as_maps
    all_tables as_table entries_of items_of rows_of rules_of each_entry add_entry validate_rule
    is_tombstone nonblank is_blank is_blank_from space_width declare live_rule validate_predicate
    predicate_at predicate_with group_of leaf_of each_child op_of predicate_value number_value
    no_value to_float non_negative positive numbers validate_params finish_rule validate_disable
    disable_names validate_say rune_count sort insert_sorted text_leb is_finite check_duplicates
    validate_modes each_mode active_mode_of validate_event_default insert as_text as_bool as_items
    event_fields merge_all add_files apply_vocabulary claim_ids add_file add_names add_name
    add_modes merge_layers merge_by last_by remaining keep config
is_made = refl

abbrev seen : View ℕ
seen = (led, number 3) ∷ (pan, number 9) ∷ []

abbrev text_of : AdmitError → Text
text_of x = []

load-clears_example :
    (by_rules : List Text) × (let ev1 =
        track_presence whole (snapshot whole (some seen) none) (pos 1000) evaluator in
      inhibited_now whole text_of
        (snapshot whole (some seen) none)
        (absent_func whole ev1 (pos 1000))
        []
        ev1.rules.inhibit
      ≡ some by_rules)
    × (is_some
          (perform whole room
            (tick_rules whole text_of (some seen) none (pos 1000) evaluator)
            engine).1
        ≡ true)
    × NamesAll (Free whole room [] by_rules) (
        run_seam whole room
          (as_seam (tick_rules whole text_of (some seen) none (pos 1000) evaluator))
          engine)
load-clears_example =
    load-clears whole room text_of disk none ((led ∷ []) ∷ []) (some voc) [] (some seen) none
      (pos 1000) engine is_alone is_made

abbrev no_file : File ℕ
no_file = record {
  schema_version = 0;
  ordered = [];
  disabled = [];
  modes = [];
  active_mode = [];
  events = [];
  event_disabled = [];
  event_default = none;
}

abbrev shipped_file : File ℕ
shipped_file = or_else no_file (validate whole shipped)

is_valid : validate whole shipped ≡ ok shipped_file
unfolding load parse_layers parse_files parse_file parse_decoded validate has_unknown has_missing
    any mem lookup text_discrete schema_version_of section as_maps all_tables as_table entries_of
    items_of rows_of rules_of each_entry add_entry validate_rule is_tombstone nonblank is_blank
    is_blank_from space_width declare live_rule validate_predicate predicate_at predicate_with
    group_of leaf_of each_child op_of predicate_value number_value no_value to_float non_negative
    positive numbers validate_params finish_rule validate_disable disable_names validate_say
    rune_count sort insert_sorted text_leb is_finite check_duplicates validate_modes each_mode
    active_mode_of validate_event_default insert as_text as_bool as_items event_fields merge_all
    add_files apply_vocabulary claim_ids add_file add_names add_name add_modes merge_layers merge_by
    last_by remaining keep config
is_valid = refl

validate-FileFit_example : FileFit whole shipped_file
validate-FileFit_example = validate-FileFit whole shipped is_valid

abbrev base_layer : LayerResult ℕ
base_layer = record no_layer { ordered = shipped_file.ordered; schema_version = 1 }

abbrev overlay_layer : LayerResult ℕ
overlay_layer = record no_layer { disabled = nod ∷ []; schema_version = 2 }

merge_layers-overridden_example :
    (first_by rule_key nod (merge_layers base_layer overlay_layer).ordered
      ≡ prefer (last_by rule_key nod overlay_layer.ordered) (
          if mem nod overlay_layer.disabled || mem nod base_layer.disabled
          then none
          else first_by rule_key nod base_layer.ordered))
    × Distinct (ids (merge_layers base_layer overlay_layer).ordered)
    × (first_by event_key nod (merge_layers base_layer overlay_layer).events
        ≡ prefer (last_by event_key nod overlay_layer.events) (
            if mem nod overlay_layer.events_disabled || mem nod base_layer.events_disabled
            then none
            else first_by event_key nod base_layer.events))
    × Distinct (event_ids (merge_layers base_layer overlay_layer).events)
merge_layers-overridden_example = merge_layers-overridden base_layer overlay_layer nod
