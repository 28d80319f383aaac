-- ===== src/Rules/Validate/Whole.antt =====
-- The whole files that internal/rules/validate.go accepts.
use neurosymbolic_system.Base.{
  ◌≡◌, refl, ◌⊎◌, inl, inr, ℕ, ◌+◌, true, false, not, ◌||◌, Option, none, some, List, [], ◌∷◌, ◌++◌,
  Text, ◌==◌, is_some, lookup, GoMap, mem, any, text_discrete, All, All-append, All-map, All_any,
  Distinct, Floats, pos, negsuc, eqb, Result, ok, Accepted, Accepted-bind, Accepted-next,
  Accepted-refuse, Accepted-if, Accepted-map, Accepted-ok, arith,
}
use neurosymbolic_system.Rules.Model.{Kind, react, inhibit, Event, default_voice}
use neurosymbolic_system.Rules.Document.{
  Toml, Table, as_table, as_text, as_bool, as_maps, has_unknown, has_missing,
}
use neurosymbolic_system.Rules.Document as Document
use neurosymbolic_system.Rules.Document.Fields as Fields
use neurosymbolic_system.Rules.Validate.{
  Refusal, require, nonblank, is_tombstone, Declared, live, tombstone, kind_name, validate_rule,
}
use neurosymbolic_system.Rules.Validate.File.{
  File, event_ids, ids, check_duplicates, required_enum, optional_enum, optional_bool,
  optional_string, live_event, validate_event, validate_event_default, schema_version_of,
  active_mode_of, section, add_entry, each_entry, validate_modes, rules_of, validate,
}
use neurosymbolic_system.Rules.Validate.Sound.{
  RuleFit, DeclaredFit, declare-Accepted, validate_rule-RuleFit,
}

-- no id twice, and none that has been seen
abbrev Unseen : List Text → List Text → Type 0
Unseen seen ids = Distinct ids × All (λ id. mem id seen ≡ false) ids

Unseen-cons :
    (seen : List Text) (id : Text) (rest : List Text)
    → mem id seen ≡ false
    → Unseen (id ∷ seen) rest
    → Unseen seen (id ∷ rest)
unfolding mem any
Unseen-cons seen id rest new h = (
  (All_any (λ x. id == x) rest (All-map (λ x k. ground arith) rest h.1), h.0),
  (new, All-map (λ x k. ground arith) rest h.1),
)

check_duplicates-Unseen :
    (seen ids : List Text) → Accepted (λ u. Unseen seen ids) (check_duplicates seen ids)
unfolding check_duplicates
check_duplicates-Unseen seen [] = (tt, tt)
check_duplicates-Unseen seen (id ∷ rest) =
    Accepted-refuse (λ u. Unseen seen (id ∷ rest)) (mem id seen) _ _
      (λ new.
        Accepted-map (λ u. Unseen (id ∷ seen) rest) (λ u. Unseen seen (id ∷ rest))
          (check_duplicates (id ∷ seen) rest) (λ u h. Unseen-cons seen id rest new h)
          (check_duplicates-Unseen (id ∷ seen) rest))

add_entry-All :
    {A : Type 0} (P : A → Type 0) (d : Declared A) (r : List A × List Text)
    → DeclaredFit P d
    → All P r.0
    → All P (add_entry d r).0
unfolding add_entry
add_entry-All P (live a) (lives, tombstones) fit all = (fit, all)
add_entry-All P (tombstone id) (lives, tombstones) fit all = all

each_entry-All :
    {F A : Type 0} (P : A → Type 0) (check : ℕ → Table F → Result Refusal (Declared A))
    → ((index : ℕ) (raw : Table F) → Accepted (DeclaredFit P) (check index raw))
    → (index : ℕ) (entries : List (Table F))
    → Accepted (λ r. All P r.0) (each_entry check index entries)
unfolding each_entry
each_entry-All P check h index [] = tt
each_entry-All P check h index (raw ∷ rest) =
    Accepted-bind (DeclaredFit P) (λ r. All P r.0) (check index raw) _ (h index raw)
      (λ d fit.
        Accepted-bind (λ r. All P r.0) (λ r. All P r.0) (each_entry check (index + 1) rest) _
          (each_entry-All P check h (index + 1) rest) (λ r all. add_entry-All P d r fit all))

-- the enumerations of an event
pub record EventFit (e : Event) : Type 0 where
  pub priority_declared : mem e.priority Fields.priorities ≡ true
  pub urgency_declared : mem e.urgency Fields.urgencies ≡ true
  pub voice_declared : mem e.voice Fields.voices ≡ true

default_voice-mem : mem default_voice Fields.voices ≡ true
unfolding mem any text_discrete
default_voice-mem = refl

module _ {F : Type 0} where
  required_enum-mem :
      (label : Text) (raw : Option (Toml F)) (domain : List Text)
      → Accepted (λ s. mem s domain ≡ true) (required_enum label raw domain)
  unfolding required_enum
  required_enum-mem label raw domain =
      Accepted-next (λ s. mem s domain ≡ true) (require (as_text raw) _) _
        (λ value found.
          Accepted-refuse (λ s. mem s domain ≡ true) (not (mem value domain)) _ _
            (λ h. ground arith))

  optional_enum-mem :
      (label : Text) (raw : Option (Toml F)) (domain : List Text) (default : Text)
      → mem default domain ≡ true
      → Accepted (λ s. mem s domain ≡ true) (optional_enum label raw domain default)
  unfolding optional_enum
  optional_enum-mem label none domain default h = h
  optional_enum-mem label (some raw) domain default h = required_enum-mem label (some raw) domain

  live_event-EventFit :
      (label source type : Text) (raw : Table F)
      → Accepted EventFit (live_event label source type raw)
  unfolding live_event
  live_event-EventFit label source type raw =
      Accepted-refuse EventFit (has_missing raw Fields.event_required) _ _ (λ complete.
        Accepted-bind (λ s. mem s Fields.priorities ≡ true) EventFit
          (required_enum label (lookup Fields.key_priority raw) Fields.priorities) _
          (required_enum-mem label _ _)
          (λ priority p.
            Accepted-bind (λ s. mem s Fields.urgencies ≡ true) EventFit
              (required_enum label (lookup Fields.key_urgency raw) Fields.urgencies) _
              (required_enum-mem label _ _)
              (λ urgency u.
                Accepted-next EventFit
                  (optional_bool label (lookup Fields.key_llm_evaluate raw) true) _
                  (λ llm l.
                    Accepted-bind (λ s. mem s Fields.voices ≡ true) EventFit
                      (optional_enum label (lookup Fields.key_voice raw) Fields.voices
                        default_voice)
                      _ (optional_enum-mem label _ _ default_voice default_voice-mem)
                      (λ voice v.
                        Accepted-next EventFit
                          (optional_string label (lookup Fields.key_inject_template raw)) _
                          (λ t1 e1.
                            Accepted-next EventFit
                              (optional_string label (lookup Fields.key_sense raw)) _
                              (λ t2 e2.
                                Accepted-next EventFit
                                  (optional_string label (lookup Fields.key_dedupe raw)) _
                                  (λ t3 e3. record {
                                    priority_declared = p;
                                    urgency_declared = u;
                                    voice_declared = v;
                                  }))))))))

  validate_event-EventFit :
      (index : ℕ) (raw : Table F) → Accepted (DeclaredFit EventFit) (validate_event index raw)
  unfolding validate_event
  validate_event-EventFit index raw =
      let P : Declared Event → Type 0 = DeclaredFit EventFit in
      Accepted-refuse P (has_unknown raw Fields.event_fields) _ _ (λ known.
        Accepted-next P (is_tombstone _ raw) _ (λ disabled d.
          Accepted-next P (nonblank (as_text (lookup Fields.key_source raw)) _) _ (λ source s.
            Accepted-next P (nonblank (as_text (lookup Fields.key_type raw)) _) _ (λ type t.
              declare-Accepted EventFit disabled _ _ (live_event-EventFit _ source type raw)))))

  -- a mode that is defined, unless there are none and none is selected
  abbrev pub ModeFit : GoMap (GoMap F) → Text → Type 0
  ModeFit modes name = ((modes ≡ []) × (name ≡ [])) ⊎ (is_some (lookup name modes) ≡ true)

  active_mode_of-ModeFit :
      (raw : Option (Toml F)) (modes : GoMap (GoMap F))
      → Accepted (ModeFit modes) (active_mode_of raw modes)
  unfolding active_mode_of
  active_mode_of-ModeFit none [] = inl (refl, refl)
  active_mode_of-ModeFit none (m ∷ modes) = tt
  active_mode_of-ModeFit (some raw) modes =
      Accepted-next (ModeFit modes) (require (as_text (some raw)) _) _ (λ name found.
        Accepted-refuse (ModeFit modes) (not (is_some (lookup name modes))) _ _
          (λ h. inr (ground arith)))

  schema_version_of-known :
      (raw : Option (Toml F)) → Accepted (λ n. (eqb n 1 || eqb n 2) ≡ true) (schema_version_of raw)
  unfolding schema_version_of
  schema_version_of-known none = tt
  schema_version_of-known (some (Document.integer (pos n))) =
      Accepted-if (λ n. (eqb n 1 || eqb n 2) ≡ true) (eqb n 1 || eqb n 2) _ _ (λ h. h) (λ h. tt)
  schema_version_of-known (some (Document.integer (negsuc n))) = tt
  schema_version_of-known (some (Document.text s)) = tt
  schema_version_of-known (some (Document.boolean b)) = tt
  schema_version_of-known (some (Document.float x)) = tt
  schema_version_of-known (some Document.moment) = tt
  schema_version_of-known (some (Document.array x)) = tt
  schema_version_of-known (some (Document.tables x)) = tt
  schema_version_of-known (some (Document.table x)) = tt

module _ (fl : Floats) where
  open fl use {F}

  pub record FileFit (f : File F) : Type 0 where
    pub version_known : (eqb f.schema_version 1 || eqb f.schema_version 2) ≡ true
    pub rules_fit : All (RuleFit fl f.schema_version) f.ordered
    pub ids_distinct : Distinct (ids f.ordered ++ f.disabled)
    pub mode_fits : ModeFit f.modes f.active_mode
    pub events_fit : All EventFit f.events
    pub events_distinct : Distinct (event_ids f.events ++ f.event_disabled)

  rules_of-All :
      (kind : Kind) (t : Table F) (version : ℕ)
      → Accepted (λ r. All (RuleFit fl version) r.0) (rules_of fl kind t version)
  unfolding rules_of
  rules_of-All kind t version =
      Accepted-next (λ r. All (RuleFit fl version) r.0) (section (lookup (kind_name kind) t)) _
        (λ entries found.
          each_entry-All (RuleFit fl version) (λ index raw. validate_rule fl kind index raw version)
            (λ index raw. validate_rule-RuleFit fl kind index raw version) 0 entries)

  validate-Accepted : (t : Table F) → Accepted FileFit (validate fl t)
  unfolding validate
  validate-Accepted t =
      Accepted-refuse FileFit (has_unknown t Fields.top_level_fields) _ _ (λ known.
        Accepted-bind (λ n. (eqb n 1 || eqb n 2) ≡ true) FileFit
          (schema_version_of (lookup Fields.key_schema_version t)) _
          (schema_version_of-known (lookup Fields.key_schema_version t))
          (λ version v.
            Accepted-bind (λ r. All (RuleFit fl version) r.0) FileFit (rules_of fl react t version)
              _ (rules_of-All react t version)
              (λ reacts hr.
                Accepted-bind (λ r. All (RuleFit fl version) r.0) FileFit
                  (rules_of fl inhibit t version) _ (rules_of-All inhibit t version)
                  (λ inhibits hi.
                    Accepted-bind
                      (λ u. Unseen [] (ids (reacts.0 ++ inhibits.0) ++ (reacts.1 ++ inhibits.1)))
                      FileFit
                      (check_duplicates []
                        (ids (reacts.0 ++ inhibits.0) ++ (reacts.1 ++ inhibits.1)))
                      _ (check_duplicates-Unseen [] _)
                      (λ u unseen.
                        Accepted-next FileFit (validate_modes fl (lookup Fields.key_modes t)) _
                          (λ modes m.
                            Accepted-bind (ModeFit modes) FileFit
                              (active_mode_of (lookup Fields.key_active_mode t) modes) _
                              (active_mode_of-ModeFit _ modes)
                              (λ mode fit.
                                Accepted-next FileFit (section (lookup Fields.key_event t)) _
                                  (λ entries found.
                                    Accepted-bind (λ r. All EventFit r.0) FileFit
                                      (each_entry validate_event 0 entries) _
                                      (each_entry-All EventFit validate_event
                                        validate_event-EventFit 0 entries)
                                      (λ events he.
                                        Accepted-bind
                                          (λ u. Unseen [] (event_ids events.0 ++ events.1)) FileFit
                                          (check_duplicates [] (event_ids events.0 ++ events.1)) _
                                          (check_duplicates-Unseen [] _)
                                          (λ u2 unseen2.
                                            Accepted-next FileFit
                                              (validate_event_default
                                                (lookup Fields.key_event_default t))
                                              _
                                              (λ default d. record {
                                                version_known = v;
                                                rules_fit =
                                                    All-append (RuleFit fl version) reacts.0
                                                      inhibits.0 hr hi;
                                                ids_distinct = unseen.0;
                                                mode_fits = fit;
                                                events_fit = he;
                                                events_distinct = unseen2.0;
                                              })))))))))))

  -- A document that is accepted has schema version 1 or 2, no rule id and no event twice, tombstones
  -- included, and an active mode that it defines unless it has no mode. Each rule has a condition that its
  -- version allows, a cooldown and a hysteresis that are the defaults or finite and not negative, and finite
  -- parameters; a react rule names an action, a bound that it has is finite and positive, and what it says has
  -- at most 500 characters; an inhibit rule disables no action twice. Each event has a declared priority,
  -- urgency and voice.
  pub validate-FileFit : (t : Table F) {f : File F} → validate fl t ≡ ok f → FileFit f
  validate-FileFit t h = Accepted-ok FileFit (validate fl t) (validate-Accepted t) h
