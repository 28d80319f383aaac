-- ===== src/Rules/Validate/Scalars.antt =====
-- The values in the conditions that internal/rules/validate.go lets through.
use neurosymbolic_system.Base.{◌≡◌, ◌≢◌, inl, inr, ℕ, zero, suc, true, Floats, arith}
use neurosymbolic_system.Ruleeval.Predicate.{
  Predicate, Predicates, predicate, no_more, more, Value, nothing, number, string, flag, slice,
  opaque, Op, gt, lt, ge, le, eq, ne, is_true, is_false, absent_for, undeclared_op,
}
use neurosymbolic_system.Ruleeval.Predicate.Meaning.{Loadable, LoadableEach, IsScalar}
use neurosymbolic_system.Rules.Validate.Conditions.{
  takes, absent, EachOf, LeafFit, GroupFit, PredicateFit,
}

module _ (fl : Floats) where
  open fl use {F}

  no-slice : (op : Op) → takes fl op slice ≢ true
  no-slice is_true h = cc
  no-slice is_false h = cc
  no-slice lt h = cc
  no-slice gt h = cc
  no-slice le h = cc
  no-slice ge h = cc
  no-slice eq h = cc
  no-slice ne h = cc
  no-slice absent_for h = cc
  no-slice (undeclared_op s) h = cc

  no-opaque : (op : Op) (n : ℕ) → takes fl op (opaque n) ≢ true
  no-opaque is_true n h = cc
  no-opaque is_false n h = cc
  no-opaque lt n h = cc
  no-opaque gt n h = cc
  no-opaque le n h = cc
  no-opaque ge n h = cc
  no-opaque eq n h = cc
  no-opaque ne n h = cc
  no-opaque absent_for n h = cc
  no-opaque (undeclared_op s) n h = cc

  takes-IsScalar : (op : Op) (v : Value F) → takes fl op v ≡ true → IsScalar v
  takes-IsScalar op nothing h = tt
  takes-IsScalar op (number x) h = tt
  takes-IsScalar op (string s) h = tt
  takes-IsScalar op (flag b) h = tt
  takes-IsScalar op slice h = absurd (no-slice op h)
  takes-IsScalar op (opaque n) h = absurd (no-opaque op n h)

  LeafFit-Loadable : (p : Predicate F) → LeafFit fl p → Loadable p
  unfolding Loadable
  LeafFit-Loadable (predicate field op value no_more no_more) h =
      (takes-IsScalar op value h, tt, tt)
  LeafFit-Loadable (predicate field op value no_more (more p ps)) h = absurd h
  LeafFit-Loadable (predicate field op value (more p ps) any) h = absurd h

  EachOf-LoadableEach :
      (P : Predicate F → Type 0) (ps : Predicates F)
      → ((p : Predicate F) → P p → Loadable p)
      → EachOf fl P ps
      → LoadableEach ps
  unfolding LoadableEach
  EachOf-LoadableEach P no_more f h = tt
  EachOf-LoadableEach P (more p ps) f h = (f p h.0, EachOf-LoadableEach P ps f h.1)

  absent-IsScalar : (v : Value F) → absent fl v ≡ true → IsScalar v
  absent-IsScalar nothing h = tt
  absent-IsScalar (number x) h = tt
  absent-IsScalar (string s) h = tt
  absent-IsScalar (flag b) h = tt
  absent-IsScalar slice h = absurd (ground arith)
  absent-IsScalar (opaque n) h = absurd (ground arith)

  GroupFit-Loadable :
      (P : Predicate F → Type 0) (p : Predicate F)
      → ((p : Predicate F) → P p → Loadable p)
      → GroupFit fl P p
      → Loadable p
  unfolding Loadable LoadableEach
  GroupFit-Loadable P (predicate field op value no_more no_more) f h = absurd h
  GroupFit-Loadable P (predicate field op value (more p ps) (more q qs)) f h = absurd h
  GroupFit-Loadable P (predicate field op value (more p ps) no_more) f h =
      (absent-IsScalar value h.0, (f p h.1, EachOf-LoadableEach P ps f h.2), tt)
  GroupFit-Loadable P (predicate field op value no_more (more p ps)) f h =
      (absent-IsScalar value h.0, tt, (f p h.1, EachOf-LoadableEach P ps f h.2))

  pub PredicateFit-Loadable : (levels : ℕ) (p : Predicate F) → PredicateFit fl levels p → Loadable p
  unfolding PredicateFit
  PredicateFit-Loadable zero p h = LeafFit-Loadable p h
  PredicateFit-Loadable (suc levels) p (inl leaf) = LeafFit-Loadable p leaf
  PredicateFit-Loadable (suc levels) p (inr group) =
      GroupFit-Loadable (PredicateFit fl levels) p (PredicateFit-Loadable levels) group
