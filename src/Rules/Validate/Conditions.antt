-- ===== src/Rules/Validate/Conditions.antt =====
-- The predicates that internal/rules/validate.go lets through.
use neurosymbolic_system.Base.{
  ◌≡◌, refl, ◌⊎◌, inl, inr, ℕ, zero, suc, Bool, true, false, not, ◌&&◌, ◌||◌, Option, none, some,
  List, [], ◌∷◌, Text, if◌then◌else◌, is_finite, lookup, is_some, Floats, Result, ok, ◌>>=◌, ◌>>◌,
  Accepted, Accepted-bind, Accepted-next, Accepted-refuse, Accepted-if, Accepted-map, Accepted-ok,
  ltb, arith,
}
use mathlib.Core.Path.{subst}
use neurosymbolic_system.Ruleeval.Predicate.{
  Predicate, Predicates, predicate, no_more, more, Value, nothing, number, string, flag, Op, gt, lt,
  ge, le, eq, ne, is_true, is_false, absent_for, undeclared_op,
}
use neurosymbolic_system.Rules.Document.{
  Toml, Table, as_table, as_text, as_maps, has_unknown, op_of,
}
use neurosymbolic_system.Rules.Document as Document
use neurosymbolic_system.Rules.Document.Fields as Fields
use neurosymbolic_system.Rules.Validate.{
  Refusal, require, nonblank, finite, number_value, scalar_value, no_value, predicate_value,
  leaf_of, each_child, is_empty, group_of, predicate_with, predicate_at, validate_predicate,
}

module _ (fl : Floats) where
  open fl use {F, f_zero, f_lt}

  -- the values that an operator takes
  abbrev measure : Value F → Bool
  measure (number v) = is_finite fl v && not (f_lt v f_zero)
  measure _ = false

  abbrev scalar : Value F → Bool
  scalar (number v) = is_finite fl v
  scalar (string s) = true
  scalar (flag b) = true
  scalar _ = false

  abbrev pub absent : Value F → Bool
  absent nothing = true
  absent _ = false

  abbrev pub takes : Op → Value F → Bool
  takes is_true v = absent v
  takes is_false v = absent v
  takes eq v = scalar v
  takes ne v = scalar v
  takes lt v = measure v
  takes gt v = measure v
  takes le v = measure v
  takes ge v = measure v
  takes absent_for v = measure v
  takes (undeclared_op s) v = false

  abbrev pub EachOf : (Predicate F → Type 0) → Predicates F → Type 0
  EachOf P no_more = Unit
  EachOf P (more p ps) = P p × EachOf P ps

  -- a leaf with a value that its operator takes
  abbrev pub LeafFit : Predicate F → Type 0
  LeafFit (predicate field op value no_more no_more) = takes op value ≡ true
  LeafFit (predicate field op value _ _) = ⊥

  -- a group of at least one child, of one kind
  abbrev pub GroupFit : (Predicate F → Type 0) → Predicate F → Type 0
  GroupFit P (predicate field op value (more p ps) no_more) =
      (absent value ≡ true) × P p × EachOf P ps
  GroupFit P (predicate field op value no_more (more p ps)) =
      (absent value ≡ true) × P p × EachOf P ps
  GroupFit P (predicate field op value _ _) = ⊥

  -- groups to no more than so many levels
  unfoldable pub PredicateFit : ℕ → Predicate F → Type 0
  PredicateFit zero p = LeafFit p
  PredicateFit (suc levels) p = LeafFit p ⊎ GroupFit (PredicateFit levels) p

  number_value-Accepted :
      (label : Text) (raw : Option (Toml F))
      → Accepted (λ v. measure v ≡ true) (number_value fl label raw)
  unfolding number_value
  number_value-Accepted label none = tt
  number_value-Accepted label (some raw) =
      Accepted-next (λ v. measure v ≡ true) (require (Document.to_float fl raw) _) _
        (λ v found.
          Accepted-refuse (λ v. measure v ≡ true) (not (is_finite fl v)) _ _
            (λ f. Accepted-refuse (λ v. measure v ≡ true) (f_lt v f_zero) _ _ (λ n. ground arith)))

  finite-scalar :
      (label : Text) (r : Result Refusal F)
      → Accepted (λ v. scalar v ≡ true) (r >>= (λ v. finite fl label v >> ok (number v)))
  finite-scalar label r =
      Accepted-next (λ v. scalar v ≡ true) r _
        (λ v found.
          Accepted-refuse (λ v. scalar v ≡ true) (not (is_finite fl v)) _ _ (λ f. ground arith))

  scalar_value-Accepted :
      (label : Text) (raw : Option (Toml F))
      → Accepted (λ v. scalar v ≡ true) (scalar_value fl label raw)
  unfolding scalar_value
  scalar_value-Accepted label none = tt
  scalar_value-Accepted label (some (Document.text s)) = refl
  scalar_value-Accepted label (some (Document.boolean b)) = refl
  scalar_value-Accepted label (some (Document.integer n)) = finite-scalar label _
  scalar_value-Accepted label (some (Document.float x)) = finite-scalar label _
  scalar_value-Accepted label (some Document.moment) = finite-scalar label _
  scalar_value-Accepted label (some (Document.array x)) = finite-scalar label _
  scalar_value-Accepted label (some (Document.tables x)) = finite-scalar label _
  scalar_value-Accepted label (some (Document.table x)) = finite-scalar label _

  no_value-Accepted :
      (label : Text) (raw : Option (Toml F))
      → Accepted (λ v. absent v ≡ true) (no_value fl label raw)
  unfolding no_value
  no_value-Accepted label none = refl
  no_value-Accepted label (some raw) = tt

  predicate_value-Accepted :
      (label : Text) (op : Op) (raw : Option (Toml F))
      → Accepted (λ v. takes op v ≡ true) (predicate_value fl label op raw)
  unfolding predicate_value
  predicate_value-Accepted label is_true raw = no_value-Accepted label raw
  predicate_value-Accepted label is_false raw = no_value-Accepted label raw
  predicate_value-Accepted label lt raw = number_value-Accepted label raw
  predicate_value-Accepted label gt raw = number_value-Accepted label raw
  predicate_value-Accepted label ge raw = number_value-Accepted label raw
  predicate_value-Accepted label le raw = number_value-Accepted label raw
  predicate_value-Accepted label absent_for raw = number_value-Accepted label raw
  predicate_value-Accepted label eq raw = scalar_value-Accepted label raw
  predicate_value-Accepted label ne raw = scalar_value-Accepted label raw
  predicate_value-Accepted label (undeclared_op s) raw = tt

  leaf_of-Accepted : (label : Text) (t : Table F) → Accepted LeafFit (leaf_of fl label t)
  unfolding leaf_of
  leaf_of-Accepted label t =
      Accepted-refuse LeafFit (has_unknown t Fields.predicate_fields) _ _ (λ known.
        Accepted-next LeafFit (nonblank (as_text (lookup Fields.key_field t)) _) _ (λ field f.
          Accepted-next LeafFit (require (as_text (lookup Fields.key_op t)) _) _ (λ name n.
            Accepted-next LeafFit (require (op_of name) _) _ (λ op o.
              Accepted-bind (λ v. takes op v ≡ true) LeafFit
                (predicate_value fl label op (lookup Fields.key_value t)) _
                (predicate_value-Accepted label op (lookup Fields.key_value t)) (λ value h. h)))))

  abbrev Nonempty : (Predicate F → Type 0) → Predicates F → Type 0
  Nonempty P no_more = ⊥
  Nonempty P (more p ps) = P p × EachOf P ps

  each_child-Accepted :
      (P : Predicate F → Type 0) (child : Table F → Result Refusal (Predicate F))
      → ((t : Table F) → Accepted P (child t))
      → (ts : List (Table F)) → Accepted (EachOf P) (each_child fl child ts)
  unfolding each_child
  each_child-Accepted P child h [] = tt
  each_child-Accepted P child h (t ∷ rest) = Accepted-bind P (EachOf P) (child t) _ (h t) (λ p hp.
      Accepted-bind (EachOf P) (EachOf P) (each_child fl child rest) _
        (each_child-Accepted P child h rest) (λ ps hps. (hp, hps)))

  each_child-Nonempty :
      (P : Predicate F → Type 0) (child : Table F → Result Refusal (Predicate F))
      → ((t : Table F) → Accepted P (child t))
      → (ts : List (Table F)) → is_empty ts ≡ false
      → Accepted (Nonempty P) (each_child fl child ts)
  unfolding each_child
  each_child-Nonempty P child h [] e = absurd (ground arith)
  each_child-Nonempty P child h (t ∷ rest) e =
      Accepted-bind P (Nonempty P) (child t) _ (h t) (λ p hp.
        Accepted-bind (EachOf P) (Nonempty P) (each_child fl child rest) _
          (each_child-Accepted P child h rest) (λ ps hps. (hp, hps)))

  grouped :
      (P : Predicate F → Type 0) (by_any : Bool) (ps : Predicates F)
      → Nonempty P ps
      → GroupFit P (
          if by_any
          then predicate [] (undeclared_op []) nothing no_more ps
          else predicate [] (undeclared_op []) nothing ps no_more)
  grouped P true no_more h = h
  grouped P true (more p ps) h = (refl, h.0, h.1)
  grouped P false no_more h = h
  grouped P false (more p ps) h = (refl, h.0, h.1)

  group_of-Accepted :
      (P : Predicate F → Type 0) (label : Text) (version : ℕ) (t : Table F)
      (child : Table F → Result Refusal (Predicate F))
      → ((t : Table F) → Accepted P (child t))
      → Accepted
          (λ p. GroupFit P p × (ltb version 2 ≡ false))
          (group_of fl label version (some child) t)
  unfolding group_of
  group_of-Accepted P label version t child h =
      let R : Predicate F → Type 0 = λ p. GroupFit P p × (ltb version 2 ≡ false) in
      Accepted-refuse R (ltb version 2) _ _ (λ v2.
        Accepted-refuse R (is_some (lookup Fields.key_all t) && is_some (lookup Fields.key_any t)) _
          _
          (λ one. Accepted-refuse R (has_unknown t Fields.group_fields) _ _ (λ known.
            Accepted-next R
              (require
                (as_maps (
                  lookup
                    (if is_some (lookup Fields.key_any t) then Fields.key_any else Fields.key_all)
                    t))
                _)
              _
              (λ children found. Accepted-refuse R (is_empty children) _ _ (λ e.
                Accepted-bind (Nonempty P) R (each_child fl child children) _
                  (each_child-Nonempty P child h children e)
                  (λ ps hps. (grouped P (is_some (lookup Fields.key_any t)) ps hps, v2)))))))

  group_of-deep :
      (P : Predicate F → Type 0) (label : Text) (version : ℕ) (t : Table F)
      → Accepted P (group_of fl label version none t)
  unfolding group_of
  group_of-deep P label version t = Accepted-refuse P (ltb version 2) _ _ (λ v2.
      Accepted-refuse P (is_some (lookup Fields.key_all t) && is_some (lookup Fields.key_any t)) _ _
        (λ one. Accepted-refuse P (has_unknown t Fields.group_fields) _ _ (λ known. tt)))

  -- levels of groups for a schema version
  abbrev pub levels_for : ℕ → ℕ → ℕ
  levels_for version levels = if ltb version 2 then 0 else levels

  leaf-fits : (levels : ℕ) (p : Predicate F) → LeafFit p → PredicateFit levels p
  unfolding PredicateFit
  leaf-fits zero p h = h
  leaf-fits (suc levels) p h = inl h

  group-fits :
      (version levels : ℕ) (p : Predicate F)
      → ltb version 2 ≡ false
      → GroupFit (PredicateFit (levels_for version levels)) p
      → PredicateFit (levels_for version (suc levels)) p
  unfolding PredicateFit
  group-fits version levels p v h =
      let here : levels_for version levels ≡ levels = rw v refl in
      rw v (inr (subst (λ n. GroupFit (PredicateFit n) p) here h))

  predicate_at-Accepted :
      (label : Text) (version levels : ℕ) (t : Table F)
      → Accepted (PredicateFit (levels_for version levels)) (predicate_at fl label version levels t)
  unfolding predicate_at predicate_with PredicateFit
  predicate_at-Accepted label version zero t =
      let P : Predicate F → Type 0 = PredicateFit (levels_for version zero) in
      Accepted-if P (is_some (lookup Fields.key_all t) || is_some (lookup Fields.key_any t)) _ _
        (λ group. group_of-deep P label version t)
        (λ leaf.
          Accepted-map LeafFit P (leaf_of fl label t) (leaf-fits (levels_for version zero))
            (leaf_of-Accepted label t))
  predicate_at-Accepted label version (suc levels) t =
      let P : Predicate F → Type 0 = PredicateFit (levels_for version (suc levels)) in
      let Q : Predicate F → Type 0 = PredicateFit (levels_for version levels) in
      Accepted-if P (is_some (lookup Fields.key_all t) || is_some (lookup Fields.key_any t)) _ _
        (λ group.
          Accepted-map (λ p. GroupFit Q p × (ltb version 2 ≡ false)) P
            (group_of fl label version (some (predicate_at fl label version levels)) t)
            (λ p h. group-fits version levels p h.1 h.0)
            (group_of-Accepted Q label version t (predicate_at fl label version levels)
              (predicate_at-Accepted label version levels)))
        (λ leaf.
          Accepted-map LeafFit P (leaf_of fl label t) (leaf-fits (levels_for version (suc levels)))
            (leaf_of-Accepted label t))

  pub validate_predicate-Accepted :
      (label : Text) (version : ℕ) (raw : Option (Toml F))
      → Accepted (PredicateFit (levels_for version 2)) (validate_predicate fl label version raw)
  unfolding validate_predicate
  validate_predicate-Accepted label version raw =
      Accepted-next (PredicateFit (levels_for version 2)) (require (as_table raw) _) _
        (λ t found. predicate_at-Accepted label version 2 t)

  -- A condition that is accepted is a tree of groups, none of them empty, to two levels in schema version 2
  -- and to none in version 1, each of one kind, whose leaves have a declared operator and a value that it
  -- takes: nothing for is_true and is_false, a finite number that is not negative for the ordered ones and
  -- absent_for, and a text, a flag or a finite number for eq and ne.
  pub validate_predicate-PredicateFit :
      (label : Text) (version : ℕ) (raw : Option (Toml F)) {p : Predicate F}
      → validate_predicate fl label version raw ≡ ok p
      → PredicateFit (levels_for version 2) p
  validate_predicate-PredicateFit label version raw h =
      Accepted-ok (PredicateFit (levels_for version 2)) _
        (validate_predicate-Accepted label version raw) h
