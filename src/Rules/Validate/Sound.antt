-- ===== src/Rules/Validate/Sound.antt =====
-- The documents that internal/rules/validate.go accepts.
use neurosymbolic_system.Base.{
  ◌≡◌, refl, ◌⊎◌, inl, inr, ℕ, Bool, true, false, not, Option, none, some, List, [], ◌∷◌, Text,
  ◌==◌, is_finite, lookup, insert, GoMap, mem, All, Distinct, Floats, pos, Result, Accepted,
  Accepted-bind, Accepted-next, Accepted-refuse, Accepted-if, ltb, Bool-cases, Distinct-sort,
  Distinct-snoc, arith,
}
use neurosymbolic_system.Ruleeval.Predicate.{Predicate}
use neurosymbolic_system.Rules.Model.{Rule, Kind, react, inhibit}
use neurosymbolic_system.Rules.Document.{
  Toml, Table, as_table, as_text, as_items, has_unknown, has_missing, is_blank, rune_count,
  to_float,
}
use neurosymbolic_system.Rules.Document.Fields as Fields
use neurosymbolic_system.Rules.Validate.{
  Refusal, require, nonblank, numeric, non_negative, positive, numbers, sorted_keys, started,
  validate_params, disable_names, validate_disable, is_empty, started, validate_say, max_say_chars,
  Declared, live, tombstone, declare, finish_rule, live_rule, validate_rule, is_tombstone,
  required_fields, allowed_fields, validate_predicate,
}
use neurosymbolic_system.Rules.Validate.Conditions.{
  PredicateFit, levels_for, validate_predicate-Accepted,
}

-- a value that has been read, or its default
abbrev IsDelay : (fl : Floats) → fl.F → fl.F → Type 0
IsDelay fl default x = (x ≡ default) ⊎ ((is_finite fl x ≡ true) × (fl.f_lt x fl.f_zero ≡ false))

abbrev pub FiniteMap : (fl : Floats) → GoMap fl.F → Type 0
FiniteMap fl = All (λ e. is_finite fl e.1 ≡ true)

abbrev pub DeclaredFit : {A : Type 0} → (A → Type 0) → Declared A → Type 0
DeclaredFit P (live a) = P a
DeclaredFit P (tombstone id) = Unit

pub declare-Accepted :
    {A : Type 0} (P : A → Type 0) (disabled : Bool) (id : Text) (later : Result Refusal A)
    → Accepted P later
    → Accepted (DeclaredFit P) (declare disabled id later)
unfolding declare
declare-Accepted P true id later h = tt
declare-Accepted P false id later h = Accepted-bind P (DeclaredFit P) later _ h (λ a k. k)

module _ (fl : Floats) where
  open fl use {F, f_zero, f_lt, f_le, of_int}

  -- what a rule of its kind has
  abbrev KindFit : Kind → Rule F → Type 0
  KindFit inhibit rule = (rule.run ≡ []) × Distinct rule.disable
  KindFit react rule = (is_blank rule.run ≡ false) × (rule.disable ≡ [])

  abbrev Bounded : Option F → Type 0
  Bounded none = Unit
  Bounded (some d) = (is_finite fl d ≡ true) × (f_le d f_zero ≡ false)

  pub record RuleFit (version : ℕ) (rule : Rule F) : Type 0 where
    pub condition : PredicateFit fl (levels_for fl version 2) rule.when
    pub cooldown : IsDelay fl (of_int (pos 5)) rule.cooldown_s
    pub hysteresis : IsDelay fl f_zero rule.hysteresis
    pub of_kind : KindFit rule.kind rule
    pub bounded : Bounded rule.duration_s
    pub params_finite : FiniteMap fl rule.params
    pub say_short : ltb max_say_chars (rune_count rule.say) ≡ false

  non_negative-IsDelay :
      (label : Text) (raw : Option (Toml F)) (default : F)
      → Accepted (IsDelay fl default) (non_negative fl label raw default)
  unfolding non_negative
  non_negative-IsDelay label none default = inl refl
  non_negative-IsDelay label (some raw) default =
      Accepted-next (IsDelay fl default) (require (to_float fl raw) _) _ (λ v found.
        Accepted-refuse (IsDelay fl default) (not (is_finite fl v)) _ _ (λ f.
          Accepted-refuse (IsDelay fl default) (f_lt v f_zero) _ _ (λ n. inr (ground arith, n))))

  positive-Bounded :
      (label : Text) (raw : Option (Toml F)) → Accepted Bounded (positive fl label raw)
  unfolding positive
  positive-Bounded label none = tt
  positive-Bounded label (some raw) =
      Accepted-next Bounded (require (to_float fl raw) _) _ (λ v found.
        Accepted-refuse Bounded (not (is_finite fl v)) _ _
          (λ f. Accepted-refuse Bounded (f_le v f_zero) _ _ (λ n. (ground arith, n))))

  insert-FiniteMap :
      (key : Text) (x : F) (m : GoMap F)
      → is_finite fl x ≡ true
      → FiniteMap fl m
      → FiniteMap fl (insert key x m)
  unfolding insert
  insert-FiniteMap key x [] f h = (f, tt)
  insert-FiniteMap key x ((k, y) ∷ m) f h = elim (Bool-cases (k == key)) [
    | inl p ↦ rw p (f, h.1)
    | inr p ↦ rw p (h.0, insert-FiniteMap key x m f h.1)
  ]

  pub numbers-FiniteMap :
      (label : Text) (t : Table F) (keys : List Text) (out : GoMap F)
      → FiniteMap fl out
      → Accepted (FiniteMap fl) (numbers fl label t keys out)
  unfolding numbers
  numbers-FiniteMap label t [] out h = h
  numbers-FiniteMap label t (key ∷ rest) out h =
      Accepted-next (FiniteMap fl) (numeric fl label (lookup key t)) _ (λ v found.
        Accepted-refuse (FiniteMap fl) (not (is_finite fl v)) _ _ (λ f.
          numbers-FiniteMap label t rest (insert key v out)
            (insert-FiniteMap key v out (ground arith) h)))

  validate_params-FiniteMap :
      (label : Text) (raw : Option (Toml F))
      → Accepted (FiniteMap fl) (validate_params fl label raw)
  unfolding validate_params
  validate_params-FiniteMap label none = tt
  validate_params-FiniteMap label (some raw) =
      Accepted-next (FiniteMap fl) (require (as_table (some raw)) _) _
        (λ t found. numbers-FiniteMap label t (sorted_keys t) [] tt)

  abbrev Short : Text → Type 0
  Short s = ltb max_say_chars (rune_count s) ≡ false

  validate_say-Short :
      (label : Text) (raw : Option (Toml F)) → Accepted Short (validate_say fl label raw)
  unfolding validate_say rune_count
  validate_say-Short label none = refl
  validate_say-Short label (some raw) =
      Accepted-next Short (nonblank (as_text (some raw)) _) _
        (λ s found. Accepted-refuse Short (ltb max_say_chars (rune_count s)) _ _ (λ short. short))

  nonblank-Accepted :
      (s : Option Text) (e : Refusal) → Accepted (λ t. is_blank t ≡ false) (nonblank s e)
  unfolding nonblank
  nonblank-Accepted none e = tt
  nonblank-Accepted (some s) e =
      Accepted-if (λ t. is_blank t ≡ false) (is_blank s) _ _ (λ b. tt) (λ n. n)

  disable_names-Distinct :
      (label : Text) (items : List (Toml F)) (names : List Text)
      → Distinct names
      → Accepted Distinct (disable_names fl label items names)
  unfolding disable_names
  disable_names-Distinct label [] names d = d
  disable_names-Distinct label (value ∷ rest) names d =
      Accepted-next Distinct (nonblank (as_text (some value)) _) _ (λ name found.
        disable_names-Distinct label rest _ (elim (Bool-cases (mem name names)) [
          | inl p ↦ rw p d
          | inr p ↦ rw p (Distinct-snoc names name p d)
        ]))

  validate_disable-Distinct :
      (label : Text) (raw : Option (Toml F)) → Accepted Distinct (validate_disable fl label raw)
  unfolding validate_disable
  validate_disable-Distinct label raw =
      Accepted-next Distinct (require (as_items raw) _) _ (λ items found.
        Accepted-refuse Distinct (is_empty items) _ _ (λ e.
          Accepted-bind Distinct Distinct (disable_names fl label items []) _
            (disable_names-Distinct label items [] tt) (λ names d. Distinct-sort names d)))

  finish_rule-RuleFit :
      (label : Text) (raw : Table F) (version : ℕ) (id : Text) (kind : Kind) (when : Predicate F)
      (cooldown hysteresis : F)
      → PredicateFit fl (levels_for fl version 2) when
      → IsDelay fl (of_int (pos 5)) cooldown
      → IsDelay fl f_zero hysteresis
      → Accepted
          (RuleFit version)
          (finish_rule fl label raw (started fl id kind when cooldown hysteresis) kind)
  unfolding finish_rule rune_count
  finish_rule-RuleFit label raw version id inhibit when cooldown hysteresis c d h =
      Accepted-bind Distinct (RuleFit version)
        (validate_disable fl label (lookup Fields.key_disable raw)) _
        (validate_disable-Distinct label _)
        (λ names distinct. record {
          condition = c;
          cooldown = d;
          hysteresis = h;
          of_kind = (refl, distinct);
          bounded = tt;
          params_finite = tt;
          say_short = refl;
        })
  finish_rule-RuleFit label raw version id react when cooldown hysteresis c d h =
      Accepted-bind (λ run. is_blank run ≡ false) (RuleFit version)
        (nonblank (as_text (lookup Fields.key_run raw)) _) _
        (nonblank-Accepted (as_text (lookup Fields.key_run raw)) _)
        (λ run named.
          Accepted-bind Bounded (RuleFit version)
            (positive fl label (lookup Fields.key_duration_s raw)) _ (positive-Bounded label _)
            (λ duration bounded.
              Accepted-bind (FiniteMap fl) (RuleFit version)
                (validate_params fl label (lookup Fields.key_params raw)) _
                (validate_params-FiniteMap label _)
                (λ params finite_params.
                  Accepted-bind Short (RuleFit version)
                    (validate_say fl label (lookup Fields.key_say raw)) _
                    (validate_say-Short label _)
                    (λ say short. record {
                      condition = c;
                      cooldown = d;
                      hysteresis = h;
                      of_kind = (named, refl);
                      bounded = bounded;
                      params_finite = finite_params;
                      say_short = short;
                    }))))

  live_rule-RuleFit :
      (label : Text) (kind : Kind) (id : Text) (raw : Table F) (version : ℕ)
      → Accepted (RuleFit version) (live_rule fl label kind id raw version)
  unfolding live_rule
  live_rule-RuleFit label kind id raw version =
      Accepted-refuse (RuleFit version) (has_missing raw (required_fields fl kind)) _ _ (λ complete.
        Accepted-bind (PredicateFit fl (levels_for fl version 2)) (RuleFit version)
          (validate_predicate fl label version (lookup Fields.key_when raw)) _
          (validate_predicate-Accepted fl label version _)
          (λ when c.
            Accepted-bind (IsDelay fl (of_int (pos 5))) (RuleFit version)
              (non_negative fl label (lookup Fields.key_cooldown_s raw) (of_int (pos 5))) _
              (non_negative-IsDelay label _ _)
              (λ cooldown d.
                Accepted-bind (IsDelay fl f_zero) (RuleFit version)
                  (non_negative fl label (lookup Fields.key_hysteresis raw) f_zero) _
                  (non_negative-IsDelay label _ _)
                  (λ hysteresis h.
                    finish_rule-RuleFit label raw version id kind when cooldown hysteresis c d h))))

  pub validate_rule-RuleFit :
      (kind : Kind) (index : ℕ) (raw : Table F) (version : ℕ)
      → Accepted (DeclaredFit (RuleFit version)) (validate_rule fl kind index raw version)
  unfolding validate_rule
  validate_rule-RuleFit kind index raw version =
      let P : Declared (Rule F) → Type 0 = DeclaredFit (RuleFit version) in
      Accepted-refuse P (has_unknown raw (allowed_fields fl kind)) _ _ (λ known.
        Accepted-next P (is_tombstone _ raw) _ (λ disabled d.
          Accepted-next P (nonblank (as_text (lookup Fields.key_id raw)) _) _ (λ id named.
            declare-Accepted (RuleFit version) disabled id _
              (live_rule-RuleFit _ kind id raw version))))
