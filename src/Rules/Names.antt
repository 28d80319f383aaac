-- ===== src/Rules/Names.antt =====
-- internal/rules/validate.go: `applyVocabulary`, the check of the names of a file. The interface of a
-- vocabulary is a record of its methods.
use neurosymbolic_system.Base.{
  Bool, true, false, not, ◌&&◌, ◌||◌, Option, none, some, List, [], ◌∷◌, Text, if◌then◌else◌, mem,
  GoMap, lookup, is_some, Floats, Result, ok, err, ◌>>◌, refuse_if,
}
use neurosymbolic_system.Adaptor.Vocabulary as Adaptor
use neurosymbolic_system.Ruleeval.Predicate.{
  Predicate, Predicates, predicate, no_more, more, Op, is_true, is_false, absent_for,
}
use neurosymbolic_system.Rules.Model.{Rule, Kind, react, inhibit}
use neurosymbolic_system.Rules.Validate.{sorted_keys}

pub record Vocabulary (F : Type 0) : Type 0 where
  pub has_field : Text → Bool
  pub has_action : Text → Bool
  pub action_loops : Text → Bool
  pub action_param : Text → Text → Option (F × F)

-- the adaptor's vocabulary, which implements it
abbrev pub of_adaptor : (fl : Floats) → Adaptor.Vocabulary fl.F → Vocabulary fl.F
of_adaptor fl v = record {
  has_field = Adaptor.has_field fl v;
  has_action = Adaptor.has_action fl v;
  action_loops = Adaptor.action_loops fl v;
  action_param = Adaptor.action_param fl v;
}

-- the refusals, of a rule that is not named here
pub data NameProblem : Type 0 where
  unknown_field event_comparison unknown_action unbounded_loop unknown_param out_of_range :
      NameProblem

-- `eventFieldOps`
abbrev pub is_event_op : Op → Bool
is_event_op is_true = true
is_event_op is_false = true
is_event_op absent_for = true
is_event_op _ = false

module _ {F : Type 0} where
  unfoldable pub check_leaf : Vocabulary F → List Text → Text → Op → Result NameProblem (Unit {0})
  check_leaf v events field op =
      if v.has_field field
      then ok tt
      else if mem field events
      then refuse_if (not (is_event_op op)) event_comparison
      else err unknown_field

  -- `checkPredicateNames`
  unfoldable mutual
    pub check_names : Vocabulary F → List Text → Predicate F → Result NameProblem (Unit {0})
    check_names v events (predicate field op value no_more no_more) = check_leaf v events field op
    check_names v events (predicate field op value (more p ps) any) =
        check_names v events p >> (check_each v events ps >> check_each v events any)
    check_names v events (predicate field op value no_more (more p ps)) =
        check_names v events p >> check_each v events ps

    pub check_each : Vocabulary F → List Text → Predicates F → Result NameProblem (Unit {0})
    check_each v events no_more = ok tt
    check_each v events (more p ps) = check_names v events p >> check_each v events ps

  unfoldable pub check_disabled : Vocabulary F → List Text → Result NameProblem (Unit {0})
  check_disabled v [] = ok tt
  check_disabled v (name ∷ rest) = do
    refuse_if (not (v.has_action name)) unknown_action
    check_disabled v rest

module _ (fl : Floats) where
  open fl use {F, f_lt}

  unfoldable pub check_range : Option (F × F) → Option F → Result NameProblem (Unit {0})
  check_range none given = err unknown_param
  check_range (some bounds) none = ok tt
  check_range (some (lo, hi)) (some value) = refuse_if (f_lt value lo || f_lt hi value) out_of_range

  unfoldable pub check_given :
      Vocabulary F → Text → GoMap F → List Text → Result NameProblem (Unit {0})
  check_given v action params [] = ok tt
  check_given v action params (key ∷ rest) = do
    check_range (v.action_param action key) (lookup key params)
    check_given v action params rest

  unfoldable pub check_run : Vocabulary F → Rule F → Kind → Result NameProblem (Unit {0})
  check_run v rule inhibit = ok tt
  check_run v rule react = do
    refuse_if (not (v.has_action rule.run)) unknown_action
    refuse_if (not (is_some rule.duration_s) && v.action_loops rule.run) unbounded_loop
    check_given v rule.run rule.params (sorted_keys rule.params)

  unfoldable pub check_rule : Vocabulary F → List Text → Rule F → Result NameProblem (Unit {0})
  check_rule v events rule = do
    check_names v events rule.when
    check_run v rule rule.kind
    check_disabled v rule.disable

  unfoldable pub check_rules :
      Vocabulary F → List Text → List (Rule F) → Result NameProblem (Unit {0})
  check_rules v events [] = ok tt
  check_rules v events (rule ∷ rest) = do check_rule v events rule; check_rules v events rest

  -- `applyVocabulary`: with no vocabulary the names go unchecked
  unfoldable pub apply_vocabulary :
      Option (Vocabulary F) → List Text → List (Rule F) → Result NameProblem (Unit {0})
  apply_vocabulary none events ordered = ok tt
  apply_vocabulary (some v) events ordered = check_rules v events ordered
