-- ===== src/Rules/Model.antt =====
-- internal/rules/model.go: what a rules file declares once it has been loaded.
use neurosymbolic_system.Base.{
  Bool, ℕ, Option, none, List, [], ◌∷◌, ◌++◌, Text, ◌==◌, if◌then◌else◌, GoMap, lookup,
}
use neurosymbolic_system.Ruleeval.Predicate.{Predicate}

-- KindReact and KindInhibit
pub data Kind : Type 0 where
  react inhibit : Kind

-- A react rule has `run` and what follows it, an inhibit rule has `disable`.
pub record Rule (F : Type 0) : Type 0 where
  pub id : Text
  pub kind : Kind
  pub when : Predicate F
  pub run : Text
  pub disable : List Text
  pub params : GoMap F
  pub cooldown_s : F
  pub hysteresis : F
  pub duration_s : Option F
  pub say : Text

pub record Event : Type 0 where
  pub source : Text
  pub type : Text
  pub priority : Text
  pub urgency : Text
  pub llm_evaluate : Bool
  pub inject_template : Text
  pub voice : Text
  pub sense : Text
  pub dedupe : Text

-- `e.ID()`
unfoldable pub event_id : Text → Text → Text
event_id source type = source ++ b'/' ∷ type

pub record EventDefault : Type 0 where
  pub priority : Text
  pub urgency : Text
  pub llm_evaluate : Bool
  pub voice : Text

pub record Config (F : Type 0) : Type 0 where
  pub schema_version : ℕ
  pub active_mode : Text
  pub modes : GoMap (GoMap F)
  pub react : List (Rule F)
  pub inhibit : List (Rule F)
  pub disabled : List Text
  pub events : List Event
  pub event_default : Option EventDefault

-- `VoiceFree`, which is `DefaultVoice`, and `VoiceNone`
abbrev pub default_voice : Text
default_voice = b'f' ∷ b'r' ∷ b'e' ∷ b'e' ∷ []

abbrev pub voice_none : Text
voice_none = b'n' ∷ b'o' ∷ b'n' ∷ b'e' ∷ []

-- `ActiveModeParams`
unfoldable pub active_mode_params : {F : Type 0} → Config F → Option (GoMap F)
active_mode_params c = if c.active_mode == [] then none else lookup c.active_mode c.modes
