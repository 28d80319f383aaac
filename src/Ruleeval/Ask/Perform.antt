-- ===== src/Ruleeval/Ask/Perform.antt =====
-- The calls of a tree made on an engine of internal/tick/engine.go, with the value that they come to. No
-- code is modelled here: it is how this development states what a seam's code returns.
use neurosymbolic_system.Base.{◌≡◌, refl, ap, Option, none, some, map, Text, Floats, arith}
use neurosymbolic_system.Tick.Behavior.{Behavior}
use neurosymbolic_system.Tick.Engine.State.{World, Event, Engine, seam_panic}
use neurosymbolic_system.Tick.Engine.Commands as Commands
use neurosymbolic_system.Tick.Engine.Loop.{recover_panic, emit_to, run_seam}
use neurosymbolic_system.Ruleeval.Ask.{
  Ask, done, crash, admit, evict, names, emit, bind, as_seam, Ensures,
}

module _ (fl : Floats) (w : World) where
  open fl use {F}

  -- the engine after the calls, and the value unless the code has crashed
  unfoldable pub perform : {A : Type 0} → Ask F A → Engine F → Engine F × Option A
  perform (done a) e = (e, some a)
  perform crash e = (recover_panic seam_panic e, none)
  perform (admit b k) e =
      let (e', result) = Commands.admit_behavior fl w b e in perform (k result) e'
  perform (evict name k) e = let (e', removed) = Commands.evict name e in perform (k removed) e'
  perform (names k) e = perform (k (map (λ ab. ab.behavior.name) e.active)) e
  perform (emit event m) e = perform m (emit_to e.consumers event e)

  -- `perform` leaves the engine that the seam leaves.
  pub run_seam-perform :
      {A : Type 0} (m : Ask F A) (e : Engine F) → run_seam fl w (as_seam m) e ≡ (perform m e).0
  unfolding run_seam as_seam perform
  run_seam-perform (done a) e = refl
  run_seam-perform crash e = refl
  run_seam-perform (admit b k) e =
      run_seam-perform (k (Commands.admit_behavior fl w b e).1) (Commands.admit_behavior fl w b e).0
  run_seam-perform (evict name k) e =
      run_seam-perform (k (Commands.evict name e).1) (Commands.evict name e).0
  run_seam-perform (names k) e = run_seam-perform (k (map (λ ab. ab.behavior.name) e.active)) e
  run_seam-perform (emit event m) e = run_seam-perform m (emit_to e.consumers event e)

  pub perform-bind :
      {A B : Type 0} (m : Ask F A) (next : A → Ask F B) (e : Engine F) {a : A}
      → (perform m e).1 ≡ some a
      → perform (bind m next) e ≡ perform (next a) (perform m e).0
  unfolding perform bind
  perform-bind (done x) next e {a} h =
      let same : x ≡ a = ground arith in ap (λ y. perform (next y) e) same
  perform-bind crash next e h = absurd (ground arith)
  perform-bind (admit b k) next e h =
      perform-bind (k (Commands.admit_behavior fl w b e).1) next
        (Commands.admit_behavior fl w b e).0 h
  perform-bind (evict name k) next e h =
      perform-bind (k (Commands.evict name e).1) next (Commands.evict name e).0 h
  perform-bind (names k) next e h =
      perform-bind (k (map (λ ab. ab.behavior.name) e.active)) next e h
  perform-bind (emit event m) next e h = perform-bind m next (emit_to e.consumers event e) h

  -- what every call of the code keeps
  pub record Kept (P : Behavior F → Type 0) (I : Engine F → Type 0) : Type 0 where
    pub admitting :
        (b : Behavior F) (e : Engine F) → P b → I e → I (Commands.admit_behavior fl w b e).0
    pub evicting : (name : Text) (e : Engine F) → I e → I (Commands.evict name e).0
    pub emitting : (event : Event) (e : Engine F) → I e → I (emit_to e.consumers event e)

  -- Code that keeps its contract ends with a value on every engine, and keeps what its calls keep.
  pub perform-Ensures :
      {A : Type 0} (P : Behavior F → Type 0) (Q : A → Type 0) (I : Engine F → Type 0) (m : Ask F A)
      (e : Engine F)
      → Kept P I
      → Ensures P Q m
      → I e
      → (a : A) × ((perform m e).1 ≡ some a) × Q a × I (perform m e).0
  unfolding perform Ensures
  perform-Ensures P Q I (done a) e k h i = (a, refl, h, i)
  perform-Ensures P Q I crash e k h i = absurd h
  perform-Ensures P Q I (admit b f) e k h i =
      perform-Ensures P Q I (f (Commands.admit_behavior fl w b e).1) _ k (h.1 _)
        (k.admitting b e h.0 i)
  perform-Ensures P Q I (evict name f) e k h i =
      perform-Ensures P Q I (f (Commands.evict name e).1) _ k (h _) (k.evicting name e i)
  perform-Ensures P Q I (names f) e k h i =
      perform-Ensures P Q I (f (map (λ ab. ab.behavior.name) e.active)) e k (h _) i
  perform-Ensures P Q I (emit event m) e k h i =
      perform-Ensures P Q I m _ k h (k.emitting event e i)
