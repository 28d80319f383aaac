-- ===== src/Rules/Document/Fields.antt =====
-- The names that a rules file may use: internal/rules/validate.go and model.go.
use neurosymbolic_system.Base.{List, [], ◌∷◌, Text}
use neurosymbolic_system.Rules.Model.{default_voice, voice_none}

abbrev pub key_schema_version : Text
key_schema_version =
    b's' ∷ b'c' ∷ b'h' ∷ b'e' ∷ b'm' ∷ b'a' ∷ b'_' ∷ b'v' ∷ b'e' ∷ b'r' ∷ b's' ∷ b'i' ∷ b'o' ∷ b'n'
    ∷ []

abbrev pub key_active_mode : Text
key_active_mode = b'a' ∷ b'c' ∷ b't' ∷ b'i' ∷ b'v' ∷ b'e' ∷ b'_' ∷ b'm' ∷ b'o' ∷ b'd' ∷ b'e' ∷ []

abbrev pub key_react : Text
key_react = b'r' ∷ b'e' ∷ b'a' ∷ b'c' ∷ b't' ∷ []

abbrev pub key_inhibit : Text
key_inhibit = b'i' ∷ b'n' ∷ b'h' ∷ b'i' ∷ b'b' ∷ b'i' ∷ b't' ∷ []

abbrev pub key_modes : Text
key_modes = b'm' ∷ b'o' ∷ b'd' ∷ b'e' ∷ b's' ∷ []

abbrev pub key_event : Text
key_event = b'e' ∷ b'v' ∷ b'e' ∷ b'n' ∷ b't' ∷ []

abbrev pub key_event_default : Text
key_event_default =
    b'e' ∷ b'v' ∷ b'e' ∷ b'n' ∷ b't' ∷ b'_' ∷ b'd' ∷ b'e' ∷ b'f' ∷ b'a' ∷ b'u' ∷ b'l' ∷ b't' ∷ []

abbrev pub key_id : Text
key_id = b'i' ∷ b'd' ∷ []

abbrev pub key_enabled : Text
key_enabled = b'e' ∷ b'n' ∷ b'a' ∷ b'b' ∷ b'l' ∷ b'e' ∷ b'd' ∷ []

abbrev pub key_when : Text
key_when = b'w' ∷ b'h' ∷ b'e' ∷ b'n' ∷ []

abbrev pub key_run : Text
key_run = b'r' ∷ b'u' ∷ b'n' ∷ []

abbrev pub key_params : Text
key_params = b'p' ∷ b'a' ∷ b'r' ∷ b'a' ∷ b'm' ∷ b's' ∷ []

abbrev pub key_cooldown_s : Text
key_cooldown_s = b'c' ∷ b'o' ∷ b'o' ∷ b'l' ∷ b'd' ∷ b'o' ∷ b'w' ∷ b'n' ∷ b'_' ∷ b's' ∷ []

abbrev pub key_hysteresis : Text
key_hysteresis = b'h' ∷ b'y' ∷ b's' ∷ b't' ∷ b'e' ∷ b'r' ∷ b'e' ∷ b's' ∷ b'i' ∷ b's' ∷ []

abbrev pub key_duration_s : Text
key_duration_s = b'd' ∷ b'u' ∷ b'r' ∷ b'a' ∷ b't' ∷ b'i' ∷ b'o' ∷ b'n' ∷ b'_' ∷ b's' ∷ []

abbrev pub key_say : Text
key_say = b's' ∷ b'a' ∷ b'y' ∷ []

abbrev pub key_disable : Text
key_disable = b'd' ∷ b'i' ∷ b's' ∷ b'a' ∷ b'b' ∷ b'l' ∷ b'e' ∷ []

abbrev pub key_field : Text
key_field = b'f' ∷ b'i' ∷ b'e' ∷ b'l' ∷ b'd' ∷ []

abbrev pub key_op : Text
key_op = b'o' ∷ b'p' ∷ []

abbrev pub key_value : Text
key_value = b'v' ∷ b'a' ∷ b'l' ∷ b'u' ∷ b'e' ∷ []

abbrev pub key_all : Text
key_all = b'a' ∷ b'l' ∷ b'l' ∷ []

abbrev pub key_any : Text
key_any = b'a' ∷ b'n' ∷ b'y' ∷ []

abbrev pub key_source : Text
key_source = b's' ∷ b'o' ∷ b'u' ∷ b'r' ∷ b'c' ∷ b'e' ∷ []

abbrev pub key_type : Text
key_type = b't' ∷ b'y' ∷ b'p' ∷ b'e' ∷ []

abbrev pub key_priority : Text
key_priority = b'p' ∷ b'r' ∷ b'i' ∷ b'o' ∷ b'r' ∷ b'i' ∷ b't' ∷ b'y' ∷ []

abbrev pub key_urgency : Text
key_urgency = b'u' ∷ b'r' ∷ b'g' ∷ b'e' ∷ b'n' ∷ b'c' ∷ b'y' ∷ []

abbrev pub key_llm_evaluate : Text
key_llm_evaluate =
    b'l' ∷ b'l' ∷ b'm' ∷ b'_' ∷ b'e' ∷ b'v' ∷ b'a' ∷ b'l' ∷ b'u' ∷ b'a' ∷ b't' ∷ b'e' ∷ []

abbrev pub key_inject_template : Text
key_inject_template =
    b'i' ∷ b'n' ∷ b'j' ∷ b'e' ∷ b'c' ∷ b't' ∷ b'_' ∷ b't' ∷ b'e' ∷ b'm' ∷ b'p' ∷ b'l' ∷ b'a' ∷ b't'
    ∷ b'e' ∷ []

abbrev pub key_voice : Text
key_voice = b'v' ∷ b'o' ∷ b'i' ∷ b'c' ∷ b'e' ∷ []

abbrev pub key_sense : Text
key_sense = b's' ∷ b'e' ∷ b'n' ∷ b's' ∷ b'e' ∷ []

abbrev pub key_dedupe : Text
key_dedupe = b'd' ∷ b'e' ∷ b'd' ∷ b'u' ∷ b'p' ∷ b'e' ∷ []

abbrev pub name_low : Text
name_low = b'L' ∷ b'O' ∷ b'W' ∷ []

abbrev pub name_normal : Text
name_normal = b'N' ∷ b'O' ∷ b'R' ∷ b'M' ∷ b'A' ∷ b'L' ∷ []

abbrev pub name_high : Text
name_high = b'H' ∷ b'I' ∷ b'G' ∷ b'H' ∷ []

abbrev pub name_critical : Text
name_critical = b'C' ∷ b'R' ∷ b'I' ∷ b'T' ∷ b'I' ∷ b'C' ∷ b'A' ∷ b'L' ∷ []

abbrev pub name_background : Text
name_background = b'B' ∷ b'A' ∷ b'C' ∷ b'K' ∷ b'G' ∷ b'R' ∷ b'O' ∷ b'U' ∷ b'N' ∷ b'D' ∷ []

abbrev pub name_deferrable : Text
name_deferrable = b'D' ∷ b'E' ∷ b'F' ∷ b'E' ∷ b'R' ∷ b'R' ∷ b'A' ∷ b'B' ∷ b'L' ∷ b'E' ∷ []

abbrev pub name_now : Text
name_now = b'N' ∷ b'O' ∷ b'W' ∷ []

abbrev pub name_immediate : Text
name_immediate = b'I' ∷ b'M' ∷ b'M' ∷ b'E' ∷ b'D' ∷ b'I' ∷ b'A' ∷ b'T' ∷ b'E' ∷ []

abbrev pub name_silent : Text
name_silent = b's' ∷ b'i' ∷ b'l' ∷ b'e' ∷ b'n' ∷ b't' ∷ []

abbrev pub name_brief : Text
name_brief = b'b' ∷ b'r' ∷ b'i' ∷ b'e' ∷ b'f' ∷ []

abbrev pub top_level_fields : List Text
top_level_fields =
    key_schema_version ∷ key_active_mode ∷ key_react ∷ key_inhibit ∷ key_modes ∷ key_event
    ∷ key_event_default ∷ []

abbrev pub react_fields : List Text
react_fields =
    key_id ∷ key_enabled ∷ key_when ∷ key_run ∷ key_params ∷ key_cooldown_s ∷ key_hysteresis
    ∷ key_duration_s ∷ key_say ∷ []

abbrev pub inhibit_fields : List Text
inhibit_fields =
    key_id ∷ key_enabled ∷ key_when ∷ key_disable ∷ key_cooldown_s ∷ key_hysteresis ∷ []

abbrev pub predicate_fields : List Text
predicate_fields = key_field ∷ key_op ∷ key_value ∷ []

abbrev pub group_fields : List Text
group_fields = key_all ∷ key_any ∷ []

abbrev pub event_fields : List Text
event_fields =
    key_source ∷ key_type ∷ key_enabled ∷ key_priority ∷ key_urgency ∷ key_llm_evaluate
    ∷ key_inject_template ∷ key_voice ∷ key_sense ∷ key_dedupe ∷ []

abbrev pub event_default_fields : List Text
event_default_fields = key_priority ∷ key_urgency ∷ key_llm_evaluate ∷ key_voice ∷ []

abbrev pub react_required : List Text
react_required = key_id ∷ key_run ∷ key_when ∷ []

abbrev pub inhibit_required : List Text
inhibit_required = key_id ∷ key_disable ∷ key_when ∷ []

abbrev pub event_required : List Text
event_required = key_source ∷ key_type ∷ key_priority ∷ key_urgency ∷ []

abbrev pub event_default_required : List Text
event_default_required = key_priority ∷ key_urgency ∷ []

abbrev pub priorities : List Text
priorities = name_low ∷ name_normal ∷ name_high ∷ name_critical ∷ []

abbrev pub urgencies : List Text
urgencies = name_background ∷ name_deferrable ∷ name_now ∷ name_immediate ∷ []

abbrev pub voices : List Text
voices = name_silent ∷ name_brief ∷ default_voice ∷ voice_none ∷ []
