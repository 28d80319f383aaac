-- ===== src/Ruleeval/Predicate.antt =====
-- internal/ruleeval/predicate.go. A value of type `any` is one of `Value`: the numeric types are one,
-- since `toFloat` widens each to a float64. Where the comparison of two values of a type that has no
-- equality panics, the result is `none`.
pub mod Meaning
use neurosymbolic_system.Base.{
  ℕ, Bool, true, false, not, ◌&&◌, ◌||◌, Option, none, some, List, [], ◌∷◌, Text, ◌==◌,
  if◌then◌else◌, eqb, text_leb, GoMap, lookup, Floats, and_then,
}

pub data Value (F : Type 0) : Type 0 where
  nothing : Value F
  number : F → Value F
  string : Text → Value F
  flag : Bool → Value F
  slice : Value F
  opaque : ℕ → Value F

pub data Op : Type 0 where
  gt lt ge le eq ne is_true is_false absent_for : Op
  undeclared_op : Text → Op

-- A predicate has a field, an operator, a value, and the children of `All` and of `Any`.
mutual
  pub data Predicate (F : Type 0) : Type 0 where
    predicate : Text → Op → Value F → Predicates F → Predicates F → Predicate F

  pub data Predicates (F : Type 0) : Type 0 where
    no_more : Predicates F
    more : Predicate F → Predicates F → Predicates F

abbrev pub View : Type 0 → Type 0
View F = GoMap (Value F)

abbrev pub is_ne : Op → Bool
is_ne ne = true
is_ne _ = false

abbrev pub Absent : Type 0 → Type 0
Absent F = Option (Text → F)

module _ {F : Type 0} where
  unfoldable pub present_value : Option (Value F) → Bool
  present_value none = false
  present_value (some nothing) = false
  present_value (some (flag b)) = b
  present_value (some (number x)) = true
  present_value (some (string s)) = true
  present_value (some slice) = true
  present_value (some (opaque n)) = true

  unfoldable pub present : View F → Text → Bool
  present view field = present_value (lookup field view)

unfoldable pub compare_string : Op → Text → Text → Bool
compare_string gt l r = not (text_leb l r)
compare_string lt l r = not (text_leb r l)
compare_string ge l r = text_leb r l
compare_string le l r = text_leb l r
compare_string eq l r = l == r
compare_string ne l r = not (l == r)
compare_string is_true l r = false
compare_string is_false l r = false
compare_string absent_for l r = false
compare_string (undeclared_op _) l r = false

abbrev same_flag : Bool → Bool → Bool
same_flag true b = b
same_flag false b = not b

unfoldable pub compare_flag : Op → Bool → Bool → Bool
compare_flag eq l r = same_flag l r
compare_flag ne l r = not (same_flag l r)
compare_flag gt l r = false
compare_flag lt l r = false
compare_flag ge l r = false
compare_flag le l r = false
compare_flag is_true l r = false
compare_flag is_false l r = false
compare_flag absent_for l r = false
compare_flag (undeclared_op _) l r = false

-- `left != right` where `left` is no number, string or boolean: two slices cannot be compared
unfoldable pub differ : {F : Type 0} → Value F → Value F → Option Bool
differ slice slice = none
differ nothing nothing = some false
differ (opaque m) (opaque n) = some (not (eqb m n))
differ _ _ = some true

module _ (fl : Floats) where
  open fl use {F, f_lt, f_le, f_eq, is_nan}

  unfoldable pub compare_ordered : Op → F → F → Bool
  compare_ordered gt l r = f_lt r l
  compare_ordered lt l r = f_lt l r
  compare_ordered ge l r = f_le r l
  compare_ordered le l r = f_le l r
  compare_ordered eq l r = f_eq l r
  compare_ordered ne l r = not (f_eq l r)
  compare_ordered is_true l r = false
  compare_ordered is_false l r = false
  compare_ordered absent_for l r = false
  compare_ordered (undeclared_op _) l r = false

  unfoldable pub compare_float : Op → F → F → Bool
  compare_float op l r = if is_nan l || is_nan r then is_ne op else compare_ordered op l r

  unfoldable pub compare : Op → Value F → Value F → Option Bool
  compare op (number l) (number r) = some (compare_float op l r)
  compare op (string l) (string r) = some (compare_string op l r)
  compare op (flag l) (flag r) = some (compare_flag op l r)
  compare op slice right = if is_ne op then differ slice right else some false
  compare op nothing right = if is_ne op then differ nothing right else some false
  compare op (opaque n) right = if is_ne op then differ (opaque n) right else some false
  compare op _ _ = some (is_ne op)

  -- a comparison with the reading of the field
  unfoldable pub compare_reading : Op → Option (Value F) → Value F → Option Bool
  compare_reading op none value = some false
  compare_reading op (some nothing) value = some false
  compare_reading op (some left) value = compare op left value

  unfoldable pub absent_long : Absent F → Text → Value F → Bool
  absent_long (some absent) field (number want) = f_le want (absent field)
  absent_long absent field value = false

  unfoldable pub eval_leaf : View F → Absent F → Text → Op → Value F → Option Bool
  eval_leaf view absent field absent_for value = some (absent_long absent field value)
  eval_leaf view absent field is_true value = some (present view field)
  eval_leaf view absent field is_false value = some (not (present view field))
  eval_leaf view absent field op value = compare_reading op (lookup field view) value

  abbrev no_children : Predicates F → Bool
  no_children no_more = true
  no_children (more _ _) = false

  unfoldable mutual
    -- `Eval`: a leaf has no children of either kind
    pub eval : View F → Absent F → Predicate F → Option Bool
    eval view absent (predicate field op value no_more no_more) =
        eval_leaf view absent field op value
    eval view absent (predicate field op value (more p ps) no_more) =
        eval_all view absent (more p ps)
    eval view absent (predicate field op value no_more (more q qs)) =
        eval_any view absent (more q qs)
    eval view absent (predicate field op value (more p ps) (more q qs)) =
        and_then (eval_all view absent (more p ps))
          (λ held. if held then eval_any view absent (more q qs) else some false)

    -- the two loops of `evalGroup`, each of which stops early
    pub eval_all : View F → Absent F → Predicates F → Option Bool
    eval_all view absent no_more = some true
    eval_all view absent (more p ps) =
        let later = eval_all view absent ps in
        and_then (eval view absent p) (λ held. if held then later else some false)

    pub eval_any : View F → Absent F → Predicates F → Option Bool
    eval_any view absent no_more = some false
    eval_any view absent (more p ps) =
        let later = eval_any view absent ps in
        and_then (eval view absent p) (λ held. if held then some true else later)
