-- ===== src/Ruleeval/Loaded.antt =====
-- The rules that internal/rules loads, in an evaluator of internal/ruleeval.
use neurosymbolic_system.Base.{
  ◌≡◌, refl, sym, inl, inr, true, not, ◌||◌, Option, none, some, List, [], ◌∷◌, ◌++◌, map, Text,
  ◌==◌, GoMap, lookup, lookup-insert, Time, is_some, mem, any, All, Floats, ok, Accepted,
  Accepted-if, Accepted-ok, Bool-cases, ==_refl, arith,
}
use mathlib.Core.Path.{subst}
use neurosymbolic_system.Adaptor.Vocabulary.{Vocabulary}
use neurosymbolic_system.Tick.Engine.State.{World, Engine, AdmitError}
use neurosymbolic_system.Tick.Engine.Loop.{run_seam}
use neurosymbolic_system.Tick.Engine.Names.{NamesAll}
use neurosymbolic_system.Rules.Model.{Rule, Config}
use neurosymbolic_system.Rules.Document.{Table}
use neurosymbolic_system.Rules.Names as Names
use neurosymbolic_system.Rules.Load.{load}
use neurosymbolic_system.Rules.Load.Layers.{ValidRule, load-ValidRule}
use neurosymbolic_system.Rules.Validate.Conditions.{levels_for}
use neurosymbolic_system.Rules.Validate.Scalars.{PredicateFit-Loadable}
use neurosymbolic_system.Ruleeval.Predicate.{View}
use neurosymbolic_system.Ruleeval.Ask.{as_seam}
use neurosymbolic_system.Ruleeval.Ask.Perform.{perform}
use neurosymbolic_system.Ruleeval.Evaluator.{
  Evaluator, RuleEntry, all_bounded, initial_states, new_evaluator, snapshot, track_presence,
  absent_func,
}
use neurosymbolic_system.Ruleeval.Evaluator.Rules.{tick_rules, inhibited_now}
use neurosymbolic_system.Ruleeval.Evaluator.Judged.{Known}
use neurosymbolic_system.Ruleeval.Enforced.{Free}
use neurosymbolic_system.Ruleeval.Enforced.Ticks.{tick_rules-clears}

abbrev rule_ids : {F : Type 0} → List (Rule F) → List Text
rule_ids = map (λ rule. rule.id)

module _ (fl : Floats) where
  open fl use {F}

  initial_states-kept :
      (k : Text) (rules : List (Rule F)) (out : GoMap RuleEntry)
      → is_some (lookup k out) ≡ true
      → is_some (lookup k (initial_states fl out rules)) ≡ true
  unfolding initial_states
  initial_states-kept k [] out h = h
  initial_states-kept k (rule ∷ rest) out h = initial_states-kept k rest _ (
      rw (lookup-insert rule.id k _ out)
        (elim (Bool-cases (k == rule.id)) [ inl p ↦ rw p refl | inr p ↦ rw p h ]))

  -- `New` has a state for each of its rules
  initial_states-mem :
      (k : Text) (rules : List (Rule F)) (out : GoMap RuleEntry)
      → mem k (rule_ids rules) ≡ true
      → is_some (lookup k (initial_states fl out rules)) ≡ true
  unfolding initial_states mem any
  initial_states-mem k [] out h = absurd (ground arith)
  initial_states-mem k (rule ∷ rest) out h = elim (Bool-cases (k == rule.id)) [
    | inl p ↦ initial_states-kept k rest _ (rw (lookup-insert rule.id k _ out, p) refl)
    | inr p ↦ initial_states-mem k rest _ (ground arith)
  ]

  mem-append :
      (k : Text) (xs ys : List (Rule F))
      → mem k (rule_ids (xs ++ ys)) ≡ (mem k (rule_ids xs) || mem k (rule_ids ys))
  unfolding mem any
  mem-append k [] ys = refl
  mem-append k (x ∷ xs) ys = ground (arith, mem-append k xs ys)

  ValidRule-Known :
      (rules : List (Rule F)) (known : List Text)
      → ((k : Text) → mem k (rule_ids rules) ≡ true → mem k known ≡ true)
      → All (ValidRule fl) rules
      → Known known rules
  unfolding mem any
  ValidRule-Known [] known h k = tt
  ValidRule-Known (rule ∷ rest) known h ((version, fit), k) = (
    (
      h rule.id (ground (arith, ==_refl rule.id)),
      PredicateFit-Loadable fl (levels_for fl version 2) rule.when fit.condition,
    ),
    ValidRule-Known rest known (λ j m. h j (ground arith)) k,
  )

  -- what `New` makes of its rules
  abbrev Made : Config F → Evaluator F → Type 0
  Made cfg ev =
      (ev.rules ≡ cfg)
      × (ev.states ≡ initial_states fl [] (cfg.react ++ cfg.inhibit))
      × (ev.registry.inhibited ≡ [])

  new_evaluator-Accepted :
      (cfg : Config F) (voc : Option (Vocabulary F)) (id_prefix : Text)
      → Accepted (Made cfg) (new_evaluator fl (some cfg) voc id_prefix)
  unfolding new_evaluator
  new_evaluator-Accepted cfg none id_prefix = tt
  new_evaluator-Accepted cfg (some v) id_prefix =
      Accepted-if (Made cfg) (not (all_bounded fl v cfg.react)) _ _ (λ unbounded. tt)
        (λ bounded. (refl, refl, refl))

  new_evaluator-Made :
      (cfg : Config F) (voc : Option (Vocabulary F)) (id_prefix : Text) {ev : Evaluator F}
      → new_evaluator fl (some cfg) voc id_prefix ≡ ok ev
      → Made cfg ev
  new_evaluator-Made cfg voc id_prefix made =
      Accepted-ok (Made cfg) _ (new_evaluator-Accepted cfg voc id_prefix) made

module _ (fl : Floats) (w : World) (error_text : AdmitError → Text) where
  open fl use {F}

  -- The rules of any layers that `Load` accepts, in the evaluator that `New` makes of them, run as a seam of an
  -- engine of any state: the tick does not crash, and after it no live behavior has a name that an inhibit rule
  -- that matches disables.
  pub load-clears :
      (read : Text → Option (Table F)) (names : Option (Names.Vocabulary F))
      (layers : List (List Text)) (voc : Option (Vocabulary F)) (id_prefix : Text)
      (perceived routed : Option (View F)) (now : Time) (e : Engine F) {cfg : Config F}
      {ev : Evaluator F}
      → load fl read names layers ≡ ok cfg
      → new_evaluator fl (some cfg) voc id_prefix ≡ ok ev
      → (by_rules : List Text) × (let ev1 =
            track_presence fl (snapshot fl perceived routed) now ev in
          inhibited_now fl error_text
            (snapshot fl perceived routed)
            (absent_func fl ev1 now)
            []
            ev1.rules.inhibit
          ≡ some by_rules)
        × (is_some (perform fl w (tick_rules fl error_text perceived routed now ev) e).1 ≡ true)
        × NamesAll
            (Free fl w [] by_rules)
            (run_seam fl w (as_seam (tick_rules fl error_text perceived routed now ev)) e)
  load-clears read names layers voc id_prefix perceived routed now e {cfg} {ev} loaded made =
      let (rules_kept, states_made, none_inhibited) =
        new_evaluator-Made fl cfg voc id_prefix made in
      let (react_valid, inhibit_valid) = load-ValidRule fl read names layers loaded in
      let known = rule_ids (cfg.react ++ cfg.inhibit) in
      let react_known : Known known cfg.react =
        ValidRule-Known fl cfg.react known
          (λ k m. ground (arith, mem-append fl k cfg.react cfg.inhibit)) react_valid in
      let inhibit_known : Known known cfg.inhibit =
        ValidRule-Known fl cfg.inhibit known
          (λ k m. ground (arith, mem-append fl k cfg.react cfg.inhibit)) inhibit_valid in
      let (by_rules, found, ended, free) =
        tick_rules-clears fl w error_text known perceived routed now ev e
          (subst (λ (c : Config F). Known known c.react) (sym rules_kept) react_known)
          (subst (λ (c : Config F). Known known c.inhibit) (sym rules_kept) inhibit_known)
          (subst
            (λ (m : GoMap RuleEntry).
              (id : Text) → mem id known ≡ true → is_some (lookup id m) ≡ true)
            (sym states_made) (λ id m. initial_states-mem fl id (cfg.react ++ cfg.inhibit) [] m)) in
      (
        by_rules,
        found,
        ended,
        subst
            (λ inhibited.
              NamesAll (Free fl w inhibited by_rules)
                (run_seam fl w (as_seam (tick_rules fl error_text perceived routed now ev)) e))
            none_inhibited free,
      )
