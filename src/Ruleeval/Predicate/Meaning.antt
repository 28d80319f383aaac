-- ===== src/Ruleeval/Predicate/Meaning.antt =====
-- What a predicate of internal/ruleeval/predicate.go means, without an order of evaluation.
use neurosymbolic_system.Base.{
  ◌≡◌, refl, ◌∙◌, Bool, true, false, not, ◌&&◌, ◌||◌, Option, none, some, Text, lookup,
  if◌then◌else◌, Floats, arith,
}
use neurosymbolic_system.Ruleeval.Predicate.{
  Value, nothing, number, string, flag, slice, opaque, Op, gt, lt, ge, le, eq, ne, is_true,
  is_false, absent_for, undeclared_op, Predicate, predicate, Predicates, no_more, more, View,
  Absent, is_ne, present, compare_float, compare_string, compare_flag, compare, compare_reading,
  differ, absent_long, eval_leaf, eval, eval_all, eval_any, no_children,
}

-- the values that the loader lets a predicate have
abbrev pub IsScalar : {F : Type 0} → Value F → Type 0
IsScalar slice = ⊥
IsScalar (opaque n) = ⊥
IsScalar _ = Unit

module _ {F : Type 0} where
  unfoldable mutual
    -- every value in the tree is a scalar
    pub Loadable : Predicate F → Type 0
    Loadable (predicate field op value all any) =
        IsScalar value × LoadableEach all × LoadableEach any

    pub LoadableEach : Predicates F → Type 0
    LoadableEach no_more = Unit
    LoadableEach (more p ps) = Loadable p × LoadableEach ps

module _ (fl : Floats) where
  open fl use {F}

  -- a comparison of a reading with a scalar, where types that differ are unequal
  unfoldable pub relates : Op → Value F → Value F → Bool
  relates op (number l) (number r) = compare_float fl op l r
  relates op (string l) (string r) = compare_string op l r
  relates op (flag l) (flag r) = compare_flag op l r
  relates op nothing nothing = false
  relates op l r = is_ne op

  -- A field that is missing or nil relates to nothing.
  unfoldable pub reads : Op → Option (Value F) → Value F → Bool
  reads op none value = false
  reads op (some nothing) value = false
  reads op (some left) value = relates op left value

  unfoldable pub leaf_holds : View F → Absent F → Text → Op → Value F → Bool
  leaf_holds view absent field absent_for value = absent_long fl absent field value
  leaf_holds view absent field is_true value = present view field
  leaf_holds view absent field is_false value = not (present view field)
  leaf_holds view absent field op value = reads op (lookup field view) value

  unfoldable mutual
    -- A group holds if all the children of `All` hold and, unless there are none, some child of `Any`.
    pub holds : View F → Absent F → Predicate F → Bool
    holds view absent (predicate field op value all any) =
        if no_children fl all && no_children fl any
        then leaf_holds view absent field op value
        else all_hold view absent all && (no_children fl any || any_holds view absent any)

    pub all_hold : View F → Absent F → Predicates F → Bool
    all_hold view absent no_more = true
    all_hold view absent (more p ps) = holds view absent p && all_hold view absent ps

    pub any_holds : View F → Absent F → Predicates F → Bool
    any_holds view absent no_more = false
    any_holds view absent (more p ps) = holds view absent p || any_holds view absent ps

  compare-relates :
      (op : Op) (left value : Value F)
      → IsScalar value
      → compare fl op left value ≡ some (relates op left value)
  unfolding compare relates differ
  compare-relates op left slice s = absurd s
  compare-relates op left (opaque n) s = absurd s
  compare-relates op nothing nothing s = ground arith
  compare-relates op nothing (number y) s = ground arith
  compare-relates op nothing (string y) s = ground arith
  compare-relates op nothing (flag y) s = ground arith
  compare-relates op (number x) nothing s = refl
  compare-relates op (number x) (number y) s = refl
  compare-relates op (number x) (string y) s = refl
  compare-relates op (number x) (flag y) s = refl
  compare-relates op (string x) nothing s = refl
  compare-relates op (string x) (number y) s = refl
  compare-relates op (string x) (string y) s = refl
  compare-relates op (string x) (flag y) s = refl
  compare-relates op (flag x) nothing s = refl
  compare-relates op (flag x) (number y) s = refl
  compare-relates op (flag x) (string y) s = refl
  compare-relates op (flag x) (flag y) s = refl
  compare-relates op slice nothing s = ground arith
  compare-relates op slice (number y) s = ground arith
  compare-relates op slice (string y) s = ground arith
  compare-relates op slice (flag y) s = ground arith
  compare-relates op (opaque x) nothing s = ground arith
  compare-relates op (opaque x) (number y) s = ground arith
  compare-relates op (opaque x) (string y) s = ground arith
  compare-relates op (opaque x) (flag y) s = ground arith

  compare_reading-reads :
      (op : Op) (o : Option (Value F)) (value : Value F)
      → IsScalar value
      → compare_reading fl op o value ≡ some (reads op o value)
  unfolding compare_reading reads
  compare_reading-reads op none value s = refl
  compare_reading-reads op (some nothing) value s = refl
  compare_reading-reads op (some (number l)) value s = compare-relates op (number l) value s
  compare_reading-reads op (some (string l)) value s = compare-relates op (string l) value s
  compare_reading-reads op (some (flag l)) value s = compare-relates op (flag l) value s
  compare_reading-reads op (some slice) value s = compare-relates op slice value s
  compare_reading-reads op (some (opaque n)) value s = compare-relates op (opaque n) value s

  eval_leaf-leaf_holds :
      (view : View F) (absent : Absent F) (field : Text) (op : Op) (value : Value F)
      → IsScalar value
      → eval_leaf fl view absent field op value ≡ some (leaf_holds view absent field op value)
  unfolding eval_leaf leaf_holds
  eval_leaf-leaf_holds view absent field absent_for value s = refl
  eval_leaf-leaf_holds view absent field is_true value s = refl
  eval_leaf-leaf_holds view absent field is_false value s = refl
  eval_leaf-leaf_holds view absent field gt value s =
      compare_reading-reads gt (lookup field view) value s
  eval_leaf-leaf_holds view absent field lt value s =
      compare_reading-reads lt (lookup field view) value s
  eval_leaf-leaf_holds view absent field ge value s =
      compare_reading-reads ge (lookup field view) value s
  eval_leaf-leaf_holds view absent field le value s =
      compare_reading-reads le (lookup field view) value s
  eval_leaf-leaf_holds view absent field eq value s =
      compare_reading-reads eq (lookup field view) value s
  eval_leaf-leaf_holds view absent field ne value s =
      compare_reading-reads ne (lookup field view) value s
  eval_leaf-leaf_holds view absent field (undeclared_op t) value s =
      compare_reading-reads (undeclared_op t) (lookup field view) value s

  mutual
    unfolding eval holds Loadable

    eval_means :
        (view : View F) (absent : Absent F) (p : Predicate F)
        → Loadable p
        → eval fl view absent p ≡ some (holds view absent p)
    eval_means view absent (predicate field op value no_more no_more) s =
        eval_leaf-leaf_holds view absent field op value s.0
    eval_means view absent (predicate field op value (more p ps) no_more) s =
        eval_all_means view absent (more p ps) s.1 ∙ ground arith
    eval_means view absent (predicate field op value no_more (more q qs)) s =
        eval_any_means view absent (more q qs) s.2
    eval_means view absent (predicate field op value (more p ps) (more q qs)) s =
        rw (eval_all_means view absent (more p ps) s.1, eval_any_means view absent (more q qs) s.2)
          (ground arith)

    eval_all_means :
        (view : View F) (absent : Absent F) (ps : Predicates F)
        → LoadableEach ps
        → eval_all fl view absent ps ≡ some (all_hold view absent ps)
    eval_all_means view absent no_more s = refl
    eval_all_means view absent (more p ps) s =
        rw (eval_means view absent p s.0, eval_all_means view absent ps s.1) (ground arith)

    eval_any_means :
        (view : View F) (absent : Absent F) (ps : Predicates F)
        → LoadableEach ps
        → eval_any fl view absent ps ≡ some (any_holds view absent ps)
    eval_any_means view absent no_more s = refl
    eval_any_means view absent (more p ps) s =
        rw (eval_means view absent p s.0, eval_any_means view absent ps s.1) (ground arith)

  -- Where the values of a predicate are scalars, as the loader makes sure, `Eval` does not panic, and
  -- it returns whether the predicate holds: stopping early loses nothing.
  pub eval-holds :
      (view : View F) (absent : Absent F) (p : Predicate F)
      → Loadable p
      → eval fl view absent p ≡ some (holds view absent p)
  eval-holds view absent p s = eval_means view absent p s
