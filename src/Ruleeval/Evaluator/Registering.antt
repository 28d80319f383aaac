-- ===== src/Ruleeval/Evaluator/Registering.antt =====
-- internal/ruleeval/registry.go: the registry's part of a tick leaves the states of the rules alone.
use neurosymbolic_system.Base.{◌≡◌, refl, sym, List, [], ◌∷◌, Text, ◌==◌, mem, GoMap, Floats}
use mathlib.Core.Path.{subst}
use neurosymbolic_system.Ruleeval.Ask.{done}
use neurosymbolic_system.Ruleeval.Registry.{
  Request, Goal, Pending, to_evict, to_admit, request_id, blocks, drain,
}
use neurosymbolic_system.Ruleeval.Evaluator.{Evaluator, RuleEntry}
use neurosymbolic_system.Ruleeval.Evaluator.Admission.{
  Admission, turned_down, admitted, observe, empty_request, ask_admit, admit_observed, apply_all,
  apply_queue, evict_each, enforce_names, goal_request, sustain_each, sustain_goals,
}
use neurosymbolic_system.Ruleeval.Ask.Leaves.{Leaves, Leaves-bind, Leaves-then, Leaves-if}

-- what the registry's part of a tick keeps: anything that holds of the rules' states
module _ (fl : Floats) (J : GoMap RuleEntry → Type 0) where
  open fl use {F}

  abbrev Left : Evaluator F → Type 0
  Left e = J e.states

  ask_admit-Leaves :
      (Q : Evaluator F × Admission → Type 0) (by_rules : List Text) (req : Request F)
      (e : Evaluator F)
      → ((p : Evaluator F × Admission) → p.0.states ≡ e.states → Q p)
      → Leaves Q (ask_admit fl by_rules req e)
  unfolding ask_admit request_id Leaves
  ask_admit-Leaves Q by_rules req e h =
      Leaves-if Q (blocks e.registry by_rules _ req.action) _ _ (h _ refl) (λ r. h _ refl)

  observe-Leaves :
      (a : Admission) (e : Evaluator F) → J e.states → Leaves Left (observe {F = F} a (done e))
  unfolding Leaves
  observe-Leaves (admitted result) e h = h
  observe-Leaves (turned_down refusal) e h = h

  admit_observed-Leaves :
      (by_rules : List Text) (req : Request F) (e : Evaluator F)
      → J e.states
      → Leaves Left (admit_observed fl by_rules req e)
  unfolding admit_observed
  admit_observed-Leaves by_rules req e h =
      Leaves-bind Left (ask_admit fl by_rules req e) _ (
        ask_admit-Leaves _ by_rules req e (λ p kept. observe-Leaves p.1 p.0 (subst J (sym kept) h)))

  apply_all-Leaves :
      (by_rules : List Text) (queue : List (Pending F)) (e : Evaluator F)
      → J e.states
      → Leaves Left (apply_all fl by_rules queue e)
  unfolding apply_all Leaves
  apply_all-Leaves by_rules [] e h = h
  apply_all-Leaves by_rules (to_evict name ∷ rest) e h =
      Leaves-if Left (name == []) _ _
        (Leaves-then Left Left (admit_observed fl by_rules (empty_request) e) _
          (admit_observed-Leaves by_rules (empty_request) e h)
          (λ e1. apply_all-Leaves by_rules rest e1))
        (λ removed. apply_all-Leaves by_rules rest e h)
  apply_all-Leaves by_rules (to_admit req ∷ rest) e h =
      Leaves-then Left Left (admit_observed fl by_rules req e) _
        (admit_observed-Leaves by_rules req e h) (λ e1. apply_all-Leaves by_rules rest e1)

  pub apply_queue-Leaves :
      (by_rules : List Text) (e : Evaluator F)
      → J e.states
      → Leaves Left (apply_queue fl by_rules e)
  unfolding apply_queue drain
  apply_queue-Leaves by_rules e h = apply_all-Leaves by_rules _ _ h

  evict_each-Leaves :
      (names : List Text) (e : Evaluator F) → J e.states → Leaves Left (evict_each fl names e)
  unfolding evict_each Leaves
  evict_each-Leaves [] e h = h
  evict_each-Leaves (name ∷ rest) e h = λ removed. evict_each-Leaves rest e h

  pub enforce_names-Leaves :
      (blocked : List Text) (e : Evaluator F)
      → J e.states
      → Leaves Left (enforce_names fl blocked e)
  unfolding enforce_names Leaves
  enforce_names-Leaves [] e h = h
  enforce_names-Leaves (b ∷ bs) e h = λ active. evict_each-Leaves _ e h

  sustain_each-Leaves :
      (by_rules active : List Text) (goals : List (Goal F)) (e : Evaluator F)
      → J e.states
      → Leaves Left (sustain_each fl by_rules active goals e)
  unfolding sustain_each Leaves
  sustain_each-Leaves by_rules active [] e h = h
  sustain_each-Leaves by_rules active (g ∷ rest) e h =
      Leaves-if Left (mem g.name active) _ _ (sustain_each-Leaves by_rules active rest e h) (
        Leaves-then Left Left (admit_observed fl by_rules (goal_request fl g) e) _
          (admit_observed-Leaves by_rules (goal_request fl g) e h)
          (λ e1. sustain_each-Leaves by_rules active rest e1))

  pub sustain_goals-Leaves :
      (by_rules : List Text) (goals : List (Goal F)) (e : Evaluator F)
      → J e.states
      → Leaves Left (sustain_goals fl by_rules goals e)
  unfolding sustain_goals Leaves
  sustain_goals-Leaves by_rules [] e h = h
  sustain_goals-Leaves by_rules (g ∷ gs) e h =
      λ active. sustain_each-Leaves by_rules active (g ∷ gs) e h
