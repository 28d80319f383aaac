-- ===== src/Ruleeval/Enforced.antt =====
-- An evaluator of internal/ruleeval on the engine of internal/tick: what an inhibition does to the live
-- behaviors.
pub mod Ticks
use neurosymbolic_system.Base.{
  ◌≡◌, refl, sym, ap, ◌∙◌, ◌⊎◌, inl, inr, Bool, true, false, not, ◌&&◌, ◌||◌, Option, none, some,
  List, [], ◌∷◌, Text, ◌==◌, mem, any, keep, sort, map, mem-sort, mem-keep, All, All-map, All-keep,
  Bool-cases, if◌then◌else◌, Floats, arith,
}
use mathlib.Core.Path.{subst}
use neurosymbolic_system.Tick.Behavior.{Behavior}
use neurosymbolic_system.Tick.Engine.State.{World, Engine, ActiveBehavior}
use neurosymbolic_system.Tick.Engine.Commands.{matches}
use neurosymbolic_system.Tick.Engine.Commands as Commands
use neurosymbolic_system.Tick.Engine.Loop.{emit_to}
use neurosymbolic_system.Tick.Engine.Names.{
  NamesAll, emit_to-NamesAll, evict-NamesAll, admit_behavior-NamesAll,
}
use neurosymbolic_system.Ruleeval.Ask.{Ask, done, bind, Ensures}
use neurosymbolic_system.Ruleeval.Ask.Perform.{perform, perform-bind, Kept, perform-Ensures}
use neurosymbolic_system.Ruleeval.Registry.{
  Registry, Goal, token_blocked, add_name, add_names, goals_in,
}
use neurosymbolic_system.Ruleeval.Evaluator.{Evaluator}
use neurosymbolic_system.Ruleeval.Evaluator.Admission.{
  add_goals, blocked_names, evict_each, enforce_names, enforce, event_blocked,
}

pub mem-add_name :
    (k name : Text) (names : List Text) → mem k (add_name name names) ≡ (k == name || mem k names)
unfolding add_name mem any
mem-add_name k name names = elim (Bool-cases (mem name names)) [
  | inr new ↦ ground arith
  | inl old ↦ elim (Bool-cases (k == name)) [
    | inr other ↦ ground arith
    | inl here ↦
        let same : k ≡ name = ground arith in
        let there : mem k names ≡ true = subst (λ n. mem n names ≡ true) (sym same) old in
        ground arith
  ]
]

pub mem-add_names :
    (k : Text) (more names : List Text) → mem k (add_names more names) ≡ (mem k more || mem k names)
unfolding add_names mem any
mem-add_names k [] names = refl
mem-add_names k (name ∷ rest) names =
    ground (arith, mem-add_names k rest (add_name name names), mem-add_name k name names)

module _ (fl : Floats) where
  open fl use {F}

  -- what `enforce` looks for has every name that is inhibited
  add_goals-mem :
      (k : Text) (goals : List (Goal F)) (blocked : List Text)
      → mem k blocked ≡ true
      → mem k (add_goals fl goals blocked) ≡ true
  unfolding add_goals
  add_goals-mem k [] blocked h = h
  add_goals-mem k (g ∷ rest) blocked h =
      add_goals-mem k rest _ (elim (Bool-cases (mem g.action blocked)) [
        | inl p ↦ rw p (ground (arith, mem-add_name k g.name blocked))
        | inr p ↦ rw p h
      ])

  blocked_names-mem :
      (k : Text) (by_rules : List Text) (r : Registry F)
      → token_blocked r.inhibited by_rules k ≡ true
      → mem k (blocked_names fl by_rules r) ≡ true
  unfolding blocked_names token_blocked
  blocked_names-mem k by_rules r h = add_goals-mem k (goals_in r.goals r.goal_order) _ (
      ground (
        arith,
        mem-add_names k by_rules (add_names r.inhibited []),
        mem-add_names k r.inhibited [],
      ))

keep-All :
    {A : Type 0} (P Q : A → Type 0) (p : A → Bool) (xs : List A)
    → ((x : A) → P x → p x ≡ true → Q x)
    → All P xs
    → All Q (keep p xs)
unfolding keep
keep-All P Q p [] k h = tt
keep-All P Q p (x ∷ xs) k h = elim (Bool-cases (p x)) [
  | inl e ↦ rw e (k x h.0 e, keep-All P Q p xs k h.1)
  | inr e ↦ rw e (keep-All P Q p xs k h.1)
]

members : {A : Type 0} (f : A → Text) (xs : List A) → All (λ x. mem (f x) (map f xs) ≡ true) xs
unfolding mem any
members f [] = tt
members f (x ∷ xs) = (ground arith, All-map (λ y h. ground arith) xs (members f xs))

module _ (fl : Floats) (w : World) (inhibited by_rules : List Text) where
  open fl use {F}

  -- a name that is not inhibited
  abbrev pub Free : Text → Type 0
  Free name = token_blocked inhibited by_rules name ≡ false

  -- if it is inhibited, it is one of these
  abbrev Listed : List Text → Text → Type 0
  Listed names name = token_blocked inhibited by_rules name ≡ true → mem name names ≡ true

  not_empty :
      (name n : Text) (rest : List Text)
      → (name == []) ≡ true
      → token_blocked inhibited by_rules n ≡ true
      → mem n (name ∷ rest) ≡ true
      → mem n rest ≡ true
  unfolding token_blocked mem any
  not_empty name n rest empty t m =
      let named : name ≡ [] = ground arith in
      let given : (n == []) ≡ false = ground arith in
      let other : (n == name) ≡ false = rw named given in ground arith

  not_matched :
      (ab : ActiveBehavior F) (name : Text) (rest : List Text)
      → not (matches name ab) ≡ true
      → mem ab.behavior.name (name ∷ rest) ≡ true
      → mem ab.behavior.name rest ≡ true
  unfolding matches mem any
  not_matched ab name rest other m = ground arith

  evict-Listed :
      (name : Text) (rest : List Text) (e : Engine F)
      → NamesAll (Listed (name ∷ rest)) e
      → NamesAll (Listed rest) (Commands.evict name e).0
  unfolding Commands.evict
  evict-Listed name rest e h = elim (Bool-cases (name == [])) [
    | inl empty ↦
        rw empty (All-map (λ ab k t. not_empty name ab.behavior.name rest empty t (k t)) e.active h)
    | inr given ↦
        rw given (keep-All _ _ _ e.active (λ ab k other t. not_matched ab name rest other (k t)) h)
  ]

  unlisted : (name : Text) → Listed [] name → Free name
  unfolding mem any
  unlisted name h = elim (Bool-cases (token_blocked inhibited by_rules name)) [
    | inl t ↦ absurd (ground (arith, h t))
    | inr f ↦ f
  ]

  evict_each-Free :
      (names : List Text) (e : Engine F) (ev : Evaluator F)
      → NamesAll (Listed names) e
      → ((perform fl w (evict_each fl names ev) e).1 ≡ some ev)
        × NamesAll Free (perform fl w (evict_each fl names ev) e).0
  unfolding perform evict_each
  evict_each-Free [] e ev h = (refl, All-map (λ ab k. unlisted ab.behavior.name k) e.active h)
  evict_each-Free (name ∷ rest) e ev h =
      let e1 = (Commands.evict name e).0 in
      evict_each-Free rest (emit_to e1.consumers event_blocked e1) ev
        (emit_to-NamesAll (Listed rest) e1.consumers event_blocked e1 (evict-Listed name rest e h))

  listed :
      (blocked active : List Text) (name : Text)
      → (token_blocked inhibited by_rules name ≡ true → mem name blocked ≡ true)
      → mem name active ≡ true
      → Listed (sort (keep (λ n. mem n active) blocked)) name
  listed blocked active name h m t =
      mem-sort name _ ∙ (mem-keep name (λ n. mem n active) blocked ∙ ground (arith, h t))

  enforce_names-Free :
      (blocked : List Text) (e : Engine F) (ev : Evaluator F)
      → ((name : Text) → token_blocked inhibited by_rules name ≡ true → mem name blocked ≡ true)
      → ((perform fl w (enforce_names fl blocked ev) e).1 ≡ some ev)
        × NamesAll Free (perform fl w (enforce_names fl blocked ev) e).0
  unfolding perform enforce_names
  enforce_names-Free [] e ev h = (
    refl,
    All-map (λ ab m. unlisted ab.behavior.name (h ab.behavior.name)) e.active
        (members (λ ab. ab.behavior.name) e.active),
  )
  enforce_names-Free (b ∷ bs) e ev h =
      let active = map (λ (ab : ActiveBehavior F). ab.behavior.name) e.active in
      evict_each-Free (sort (keep (λ n. mem n active) (b ∷ bs))) e ev (
        All-map (λ ab m. listed (b ∷ bs) active ab.behavior.name (h ab.behavior.name) m) e.active
          (members (λ ab. ab.behavior.name) e.active))
