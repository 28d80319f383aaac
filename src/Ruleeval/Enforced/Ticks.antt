-- ===== src/Ruleeval/Enforced/Ticks.antt =====
-- A tick of an evaluator of internal/ruleeval on an engine of internal/tick.
use neurosymbolic_system.Base.{
  ◌≡◌, sym, ap, true, Option, some, List, [], Text, mem, GoMap, lookup, Time, is_some, Floats,
}
use mathlib.Core.Path.{subst}
use neurosymbolic_system.Tick.Behavior.{Behavior}
use neurosymbolic_system.Tick.Engine.State.{World, Engine, AdmitError}
use neurosymbolic_system.Tick.Engine.Loop.{run_seam}
use neurosymbolic_system.Tick.Engine.Names.{
  NamesAll, emit_to-NamesAll, evict-NamesAll, admit_behavior-NamesAll,
}
use neurosymbolic_system.Rules.Model.{Config}
use neurosymbolic_system.Ruleeval.Predicate.{View, Absent}
use neurosymbolic_system.Ruleeval.Ask.{Ask, bind, or_crash, as_seam, Ensures}
use neurosymbolic_system.Ruleeval.Ask.Perform.{
  perform, run_seam-perform, perform-bind, Kept, perform-Ensures,
}
use neurosymbolic_system.Ruleeval.Registry.{Registry, token_blocked, goals_in}
use neurosymbolic_system.Ruleeval.Evaluator.{
  Evaluator, RuleEntry, snapshot, track_presence, absent_func,
}
use neurosymbolic_system.Ruleeval.Evaluator.Admission.{enforce, sustain, blocked_names}
use neurosymbolic_system.Ruleeval.Evaluator.Rules.{
  inhibited_now, run_react, tick_inhibited, tick_rules,
}
use neurosymbolic_system.Ruleeval.Evaluator.Judged.{
  Known, Allowed, Sane, apply_queue-Ensures, run_inhibit-Ensures, react_each-Ensures,
  sustain_goals-Ensures, inhibited_now-some, tracked,
}
use neurosymbolic_system.Ruleeval.Enforced.{Free, blocked_names-mem, enforce_names-Free}

module _ (fl : Floats) (w : World) where
  open fl use {F}

  perform-then :
      {A B : Type 0} (P : Behavior F → Type 0) (Q : A → Type 0) (R : Engine F × Option B → Type 0)
      (m : Ask F A) (next : A → Ask F B) (e : Engine F)
      → Ensures P Q m
      → ((a : A) (e1 : Engine F) → Q a → R (perform fl w (next a) e1))
      → R (perform fl w (bind m next) e)
  perform-then P Q R m next e h k =
      let (a, found, q, u) =
        perform-Ensures fl w P Q (λ e. Unit {0}) m e
          (record { admitting = λ b e p u. tt; evicting = λ n e u. tt; emitting = λ ev e u. tt }) h
          tt in
      subst R (sym (perform-bind fl w m next e found)) (k a _ q)

module _ (fl : Floats) (w : World) (error_text : AdmitError → Text) (rules : Config fl.F)
    (ids inhibited by_rules : List Text) where
  open fl use {F}

  -- the tick has ended, and no live behavior has a name that is inhibited
  abbrev Cleared : Engine F × Option (Evaluator F) → Type 0
  Cleared r = (ev : Evaluator F) × (r.1 ≡ some ev) × NamesAll (Free fl w inhibited by_rules) r.0

  Free-Kept :
      Kept fl w
        (Allowed fl error_text rules ids inhibited by_rules)
        (NamesAll (Free fl w inhibited by_rules))
  Free-Kept = record {
    admitting = λ b e p h. admit_behavior-NamesAll fl w _ b e p.name_free p.action_free h;
    evicting = λ name e h. evict-NamesAll _ name e h;
    emitting = λ event e h. emit_to-NamesAll _ e.consumers event e h;
  }

  enforce-Cleared :
      (ev : Evaluator F) (e : Engine F)
      → Sane fl error_text rules ids inhibited by_rules ev
      → Cleared (perform fl w (bind (enforce fl by_rules ev) (sustain fl by_rules)) e)
  unfolding enforce sustain
  enforce-Cleared ev e s =
      let (same, free) =
        enforce_names-Free fl w inhibited by_rules (blocked_names fl by_rules ev.registry) e ev
          (λ name t.
            blocked_names-mem fl name by_rules ev.registry (
              subst (λ names. token_blocked names by_rules name ≡ true) (sym s.inhibited_kept)
                t)) in
      let (ev1, found, sane, kept) =
        perform-Ensures fl w _ _ _ _ _ Free-Kept
          (sustain_goals-Ensures fl error_text rules ids inhibited by_rules
            (goals_in ev.registry.goals ev.registry.goal_order) ev s)
          free in
      subst Cleared (sym (perform-bind fl w _ _ e same)) (ev1, found, kept)

  tick_inhibited-Cleared :
      (view : View F) (absent : Absent F) (now : Time) (ev : Evaluator F) (e : Engine F)
      → Known ids rules.react
      → Known ids rules.inhibit
      → Sane fl error_text rules ids inhibited by_rules ev
      → Cleared (perform fl w (tick_inhibited fl error_text view absent now by_rules ev) e)
  unfolding tick_inhibited run_react Ensures
  tick_inhibited-Cleared view absent now ev e known_react known_inhibit s =
      perform-then fl w _ _ Cleared _ _ e
        (apply_queue-Ensures fl error_text rules ids inhibited by_rules ev s)
        (λ ev1 e1 s1.
          perform-then fl w _ _ Cleared _ _ e1
            (run_inhibit-Ensures fl error_text rules ids inhibited by_rules view absent now
              ev1.rules.inhibit ev1 s1
              (subst (λ (c : Config F). Known ids c.inhibit) (sym s1.rules_kept) known_inhibit))
            (λ ev2 e2 s2.
              perform-then fl w _ _ Cleared _ _ e2
                (λ active.
                  react_each-Ensures fl error_text rules ids inhibited by_rules view absent now
                    ev2.rules.react active ev2 s2
                    (subst (λ (c : Config F). Known ids c.react) (sym s2.rules_kept) known_react))
                (λ ev3 e3 s3. enforce-Cleared ev3 e3 s3)))

perform-found :
    {A B : Type 0} (fl : Floats) (w : World) (R : Engine fl.F × Option B → Type 0) (e : Engine fl.F)
    (next : A → Ask fl.F B) {o : Option A} {a : A}
    → some a ≡ o
    → R (perform fl w (next a) e)
    → R (perform fl w (bind (or_crash o) next) e)
unfolding bind
perform-found fl w R e next found h =
    subst (λ o. R (perform fl w (bind (or_crash o) next) e)) found h

module _ (fl : Floats) (w : World) (error_text : AdmitError → Text) where
  open fl use {F}

  -- An evaluator whose rules all have a state and a predicate of scalars runs, as a seam of an engine of any
  -- state, to its end, and after it no live behavior of the engine has a name that is inhibited, be it by
  -- the registry or by an inhibit rule that matches in this tick, whatever was live before.
  pub tick_rules-clears :
      (ids : List Text) (perceived routed : Option (View F)) (now : Time) (ev : Evaluator F)
      (e : Engine F)
      → Known ids ev.rules.react
      → Known ids ev.rules.inhibit
      → ((id : Text) → mem id ids ≡ true → is_some (lookup id ev.states) ≡ true)
      → (by_rules : List Text) × (let ev1 =
            track_presence fl (snapshot fl perceived routed) now ev in
          inhibited_now fl error_text
            (snapshot fl perceived routed)
            (absent_func fl ev1 now)
            []
            ev1.rules.inhibit
          ≡ some by_rules)
        × (is_some (perform fl w (tick_rules fl error_text perceived routed now ev) e).1 ≡ true)
        × NamesAll
            (Free fl w ev.registry.inhibited by_rules)
            (run_seam fl w (as_seam (tick_rules fl error_text perceived routed now ev)) e)
  unfolding tick_rules
  tick_rules-clears ids perceived routed now ev e known_react known_inhibit states =
      let view = snapshot fl perceived routed in
      let ev1 = track_presence fl view now ev in
      let absent = absent_func fl ev1 now in
      let (rules_kept, registry_kept, states_kept) = tracked fl error_text view now ev in
      let (by_rules, found) =
        inhibited_now-some fl error_text ids view absent [] ev1.rules.inhibit
          (subst (λ (c : Config F). Known ids c.inhibit) (sym rules_kept) known_inhibit) in
      let (ev2, ended, free) =
        perform-found fl w (Cleared fl w error_text ev.rules ids ev.registry.inhibited by_rules) e
          (λ by_rules. tick_inhibited fl error_text view absent now by_rules ev1) (sym found)
          (tick_inhibited-Cleared fl w error_text ev.rules ids ev.registry.inhibited by_rules view
            absent now ev1 e known_react known_inhibit
            (record {
              rules_kept = rules_kept;
              inhibited_kept = ap (λ (r : Registry F). r.inhibited) registry_kept;
              has_state =
                  subst
                    (λ (m : GoMap RuleEntry).
                      (id : Text) → mem id ids ≡ true → is_some (lookup id m) ≡ true)
                    (sym states_kept) states;
            })) in
      (
        by_rules,
        found,
        ap is_some ended,
        subst (NamesAll (Free fl w ev.registry.inhibited by_rules))
            (sym (run_seam-perform fl w (tick_rules fl error_text perceived routed now ev) e)) free,
      )
