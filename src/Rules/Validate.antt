-- ===== src/Rules/Validate.antt =====
-- internal/rules/validate.go: one rule of a document. Of a refusal the label and what it is about are kept,
-- and its wording is left out. The label of a rule is its id, once that is known.
pub mod File
pub mod Conditions
pub mod Scalars
pub mod Sound
pub mod Whole
use neurosymbolic_system.Base.{
  ℕ, zero, suc, ◌+◌, Bool, true, false, not, ◌&&◌, ◌||◌, Option, none, some, List, [], ◌∷◌, ◌++◌,
  map, Text, ◌==◌, if◌then◌else◌, ltb, leb, mem, sort, GoMap, lookup, insert, is_some, is_finite,
  decimal, Floats, ℤ, pos, Result, ok, err, ◌>>=◌, ◌>>◌, refuse_if,
}
use neurosymbolic_system.Ruleeval.Predicate.{
  Predicate, Predicates, predicate, no_more, more, Value, nothing, number, string, flag, Op, gt, lt,
  ge, le, eq, ne, is_true, is_false, absent_for, undeclared_op,
}
use neurosymbolic_system.Rules.Model.{Rule, Kind, react, inhibit}
use neurosymbolic_system.Rules.Document.{
  Toml, Table, text, boolean, entries_of, as_table, as_text, as_bool, as_items, as_maps,
  has_unknown, has_missing, to_float, is_blank, rune_count, op_of,
}
use neurosymbolic_system.Rules.Document.Fields as Fields

pub data Problem : Type 0 where
  unexpected_field missing_field bad_version not_tables bad_enabled bad_id duplicate : Problem
  when_not_table bad_field bad_op takes_no_value needs_value not_numeric not_finite negative
        not_positive :
      Problem
  group_in_v1 both_groups too_deep bad_children empty_group : Problem
  not_scalar bad_disable bad_run params_not_table bad_say long_say : Problem
  modes_not_table mode_not_table no_active_mode bad_active_mode : Problem
  bad_source bad_type bad_enum bad_bool bad_string default_not_table : Problem

-- `errf` under a label
pub record Refusal : Type 0 where
  pub label : Text
  pub problem : Problem

abbrev pub refusal : Text → Problem → Refusal
refusal label problem = record { label = label; problem = problem }

-- an assertion that has to succeed
abbrev pub require {ℓ} : {A : Type ℓ} → Option A → Refusal → Result Refusal A
require none e = err e
require (some a) e = ok a

-- a text that is not blank
unfoldable pub nonblank : Option Text → Refusal → Result Refusal Text
nonblank none e = err e
nonblank (some s) e = if is_blank s then err e else ok s

abbrev pub max_say_chars : ℕ
max_say_chars = 500

-- `isTombstone`
unfoldable pub is_tombstone : {F : Type 0} → Text → Table F → Result Refusal Bool
is_tombstone label raw = if not (is_some (lookup Fields.key_enabled raw)) then ok false else do
  enabled ← require (as_bool (lookup Fields.key_enabled raw)) (refusal label bad_enabled)
  ok (not enabled)

-- an entry, or the id of a tombstone
pub data Declared (A : Type 0) : Type 0 where
  live : A → Declared A
  tombstone : Text → Declared A

-- a tombstone is checked for its id and its fields only
unfoldable pub declare : {A : Type 0} → Bool → Text → Result Refusal A → Result Refusal (Declared A)
declare true id later = ok (tombstone id)
declare false id later = do a ← later; ok (live a)

abbrev pub kind_name : Kind → Text
kind_name react = Fields.key_react
kind_name inhibit = Fields.key_inhibit

-- "%s[%d]"
abbrev pub positional : Text → ℕ → Text
positional name index = name ++ b'[' ∷ (decimal index ++ b']' ∷ [])

abbrev pub sorted_keys {ℓ} : {V : Type ℓ} → GoMap V → List Text
sorted_keys m = sort (map (λ e. e.0) m)

abbrev pub is_empty {ℓ} : {A : Type ℓ} → List A → Bool
is_empty [] = true
is_empty (_ ∷ _) = false

module _ (fl : Floats) where
  open fl use {F, f_zero, f_lt, f_le, of_int}

  abbrev pub finite : Text → F → Result Refusal (Unit {0})
  finite label x = refuse_if (not (is_finite fl x)) (refusal label not_finite)

  abbrev pub numeric : Text → Option (Toml F) → Result Refusal F
  numeric label none = err (refusal label not_numeric)
  numeric label (some raw) = require (to_float fl raw) (refusal label not_numeric)

  -- the value of an ordered comparison, or of absent_for
  unfoldable pub number_value : Text → Option (Toml F) → Result Refusal (Value F)
  number_value label raw = do
    v ← numeric label raw
    finite label v
    refuse_if (f_lt v f_zero) (refusal label negative)
    ok (number v)

  -- the value of eq and ne
  unfoldable pub scalar_value : Text → Option (Toml F) → Result Refusal (Value F)
  scalar_value label none = err (refusal label needs_value)
  scalar_value label (some (text s)) = ok (string s)
  scalar_value label (some (boolean b)) = ok (flag b)
  scalar_value label (some raw) = do
    v ← require (to_float fl raw) (refusal label not_scalar)
    finite label v
    ok (number v)

  unfoldable pub no_value : Text → Option (Toml F) → Result Refusal (Value F)
  no_value label raw = do refuse_if (is_some raw) (refusal label takes_no_value); ok nothing

  -- `validatePredicateValue`
  unfoldable pub predicate_value : Text → Op → Option (Toml F) → Result Refusal (Value F)
  predicate_value label is_true raw = no_value label raw
  predicate_value label is_false raw = no_value label raw
  predicate_value label lt raw = number_value label raw
  predicate_value label gt raw = number_value label raw
  predicate_value label ge raw = number_value label raw
  predicate_value label le raw = number_value label raw
  predicate_value label absent_for raw = number_value label raw
  predicate_value label eq raw = scalar_value label raw
  predicate_value label ne raw = scalar_value label raw
  predicate_value label (undeclared_op s) raw = err (refusal label bad_op)

  unfoldable pub leaf_of : Text → Table F → Result Refusal (Predicate F)
  leaf_of label t = do
    refuse_if (has_unknown t Fields.predicate_fields) (refusal label unexpected_field)
    field ← nonblank (as_text (lookup Fields.key_field t)) (refusal label bad_field)
    name ← require (as_text (lookup Fields.key_op t)) (refusal label bad_op)
    op ← require (op_of name) (refusal label bad_op)
    value ← predicate_value label op (lookup Fields.key_value t)
    ok (predicate field op value no_more no_more)

  -- the children of a group, each validated by `child`
  unfoldable pub each_child :
      (Table F → Result Refusal (Predicate F)) → List (Table F) → Result Refusal (Predicates F)
  each_child child [] = ok no_more
  each_child child (t ∷ rest) = do p ← child t; ps ← each_child child rest; ok (more p ps)

  -- `validateGroup`: `deeper` validates a child, and there is none at depth 2
  unfoldable pub group_of :
      Text
      → ℕ
      → Option (Table F → Result Refusal (Predicate F))
      → Table F
      → Result Refusal (Predicate F)
  group_of label version deeper t =
      let has_all = is_some (lookup Fields.key_all t) in
      let has_any = is_some (lookup Fields.key_any t) in
      do
        refuse_if (ltb version 2) (refusal label group_in_v1)
        refuse_if (has_all && has_any) (refusal label both_groups)
        refuse_if (has_unknown t Fields.group_fields) (refusal label unexpected_field)
        child ← require deeper (refusal label too_deep)
        children ←
            require (as_maps (lookup (if has_any then Fields.key_any else Fields.key_all) t))
              (refusal label bad_children)
        refuse_if (is_empty children) (refusal label empty_group)
        ps ← each_child child children
        ok (
            if has_any
            then predicate [] (undeclared_op []) nothing no_more ps
            else predicate [] (undeclared_op []) nothing ps no_more)

  unfoldable pub predicate_with :
      Text
      → ℕ
      → Option (Table F → Result Refusal (Predicate F))
      → Table F
      → Result Refusal (Predicate F)
  predicate_with label version deeper t =
      if is_some (lookup Fields.key_all t) || is_some (lookup Fields.key_any t)
      then group_of label version deeper t
      else leaf_of label t

  -- `validatePredicate`, by how many levels of groups are left
  unfoldable pub predicate_at : Text → ℕ → ℕ → Table F → Result Refusal (Predicate F)
  predicate_at label version zero t = predicate_with label version none t
  predicate_at label version (suc levels) t =
      predicate_with label version (some (predicate_at label version levels)) t

  unfoldable pub validate_predicate : Text → ℕ → Option (Toml F) → Result Refusal (Predicate F)
  validate_predicate label version raw = do
    t ← require (as_table raw) (refusal label when_not_table)
    predicate_at label version 2 t

  -- `nonNegative` and `positive`
  unfoldable pub non_negative : Text → Option (Toml F) → F → Result Refusal F
  non_negative label none default = ok default
  non_negative label (some raw) default = do
    v ← numeric label (some raw)
    finite label v
    refuse_if (f_lt v f_zero) (refusal label negative)
    ok v

  unfoldable pub positive : Text → Option (Toml F) → Result Refusal (Option F)
  positive label none = ok none
  positive label (some raw) = do
    v ← numeric label (some raw)
    finite label v
    refuse_if (f_le v f_zero) (refusal label not_positive)
    ok (some v)

  -- a table of finite numbers, by its sorted keys
  unfoldable pub numbers : Text → Table F → List Text → GoMap F → Result Refusal (GoMap F)
  numbers label t [] out = ok out
  numbers label t (key ∷ rest) out = do
    v ← numeric label (lookup key t)
    finite label v
    numbers label t rest (insert key v out)

  unfoldable pub validate_params : Text → Option (Toml F) → Result Refusal (GoMap F)
  validate_params label none = ok []
  validate_params label (some raw) = do
    t ← require (as_table (some raw)) (refusal label params_not_table)
    numbers label t (sorted_keys t) []

  -- the loop of `validateDisable`
  unfoldable pub disable_names : Text → List (Toml F) → List Text → Result Refusal (List Text)
  disable_names label [] names = ok names
  disable_names label (value ∷ rest) names = do
    name ← nonblank (as_text (some value)) (refusal label bad_disable)
    disable_names label rest (if mem name names then names else names ++ name ∷ [])

  unfoldable pub validate_disable : Text → Option (Toml F) → Result Refusal (List Text)
  validate_disable label raw = do
    items ← require (as_items raw) (refusal label bad_disable)
    refuse_if (is_empty items) (refusal label bad_disable)
    names ← disable_names label items []
    ok (sort names)

  unfoldable pub validate_say : Text → Option (Toml F) → Result Refusal Text
  validate_say label none = ok []
  validate_say label (some raw) = do
    s ← nonblank (as_text (some raw)) (refusal label bad_say)
    refuse_if (ltb max_say_chars (rune_count s)) (refusal label long_say)
    ok s

  -- the id of a rule, or its place where it has none
  abbrev rule_label : Text → Option Text → Text
  rule_label place none = place
  rule_label place (some id) = if is_blank id then place else id

  abbrev pub allowed_fields : Kind → List Text
  allowed_fields react = Fields.react_fields
  allowed_fields inhibit = Fields.inhibit_fields

  abbrev pub required_fields : Kind → List Text
  required_fields react = Fields.react_required
  required_fields inhibit = Fields.inhibit_required

  -- what follows the timing, by the kind
  unfoldable pub finish_rule : Text → Table F → Rule F → Kind → Result Refusal (Rule F)
  finish_rule label raw rule inhibit = do
    names ← validate_disable label (lookup Fields.key_disable raw)
    ok (record rule { disable = names })
  finish_rule label raw rule react = do
    run ← nonblank (as_text (lookup Fields.key_run raw)) (refusal label bad_run)
    duration ← positive label (lookup Fields.key_duration_s raw)
    params ← validate_params label (lookup Fields.key_params raw)
    say ← validate_say label (lookup Fields.key_say raw)
    ok (record rule { run = run; duration_s = duration; params = params; say = say })

  -- what rules of both kinds have
  abbrev pub started : Text → Kind → Predicate F → F → F → Rule F
  started id kind when cooldown hysteresis = record {
    id = id;
    kind = kind;
    when = when;
    run = [];
    disable = [];
    params = [];
    cooldown_s = cooldown;
    hysteresis = hysteresis;
    duration_s = none;
    say = [];
  }

  -- a rule with its id that is no tombstone
  unfoldable pub live_rule : Text → Kind → Text → Table F → ℕ → Result Refusal (Rule F)
  live_rule label kind id raw version = do
    refuse_if (has_missing raw (required_fields kind)) (refusal label missing_field)
    when ← validate_predicate label version (lookup Fields.key_when raw)
    cooldown ← non_negative label (lookup Fields.key_cooldown_s raw) (of_int (pos 5))
    hysteresis ← non_negative label (lookup Fields.key_hysteresis raw) f_zero
    finish_rule label raw (started id kind when cooldown hysteresis) kind

  -- `validateRule`
  unfoldable pub validate_rule : Kind → ℕ → Table F → ℕ → Result Refusal (Declared (Rule F))
  validate_rule kind index raw version =
      let declared_id = as_text (lookup Fields.key_id raw) in
      let label = rule_label (positional (kind_name kind) index) declared_id in
      do
        refuse_if (has_unknown raw (allowed_fields kind)) (refusal label unexpected_field)
        disabled ← is_tombstone label raw
        id ← nonblank declared_id (refusal label bad_id)
        declare disabled id (live_rule label kind id raw version)
