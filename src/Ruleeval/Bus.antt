-- ===== src/Ruleeval/Bus.antt =====
-- internal/ruleeval/bus.go: several drivers on the one seam of an engine. Of the log the names of the drivers
-- that panicked are kept. A driver that is nil is none.
use neurosymbolic_system.Base.{
  ◌≡◌, refl, ◌∙◌, ℕ, Bool, true, false, Option, none, some, List, [], ◌∷◌, ◌++◌, map, Text, ◌==◌,
  if◌then◌else◌, length, decimal, Floats,
}
use neurosymbolic_system.Tick.Engine.State.{
  World, Engine, SeamCall, SeamView, TickSeam, return, panic, ask_admit, ask_evict, ask_names, emit,
}
use neurosymbolic_system.Tick.Engine.Commands as Commands
use neurosymbolic_system.Tick.Engine.Loop.{run_seam, emit_to}

pub record Driver (F : Type 0) : Type 0 where
  pub name : Text
  pub driver : TickSeam F

-- "driver-%d"
abbrev auto_name : ℕ → Text
auto_name n = b'd' ∷ b'r' ∷ b'i' ∷ b'v' ∷ b'e' ∷ b'r' ∷ b'-' ∷ decimal n

module _ {F : Type 0} where
  -- `Add`
  unfoldable pub add_driver : Text → Option (TickSeam F) → List (Driver F) → List (Driver F)
  add_driver name none drivers = drivers
  add_driver name (some driver) drivers =
      drivers
      ++ record { name = if name == [] then auto_name (length drivers) else name; driver = driver }
        ∷ []

  -- the loop of `Compose` over what it appends
  unfoldable pub add_all : List (Option (TickSeam F)) → List (Driver F) → List (Driver F)
  add_all [] drivers = drivers
  add_all (driver ∷ rest) drivers = add_all rest (add_driver [] driver drivers)

  -- one driver after another: a panic ends the first alone
  unfoldable pub isolated : SeamCall F → SeamCall F → SeamCall F
  isolated return next = next
  isolated panic next = next
  isolated (ask_admit b k) next = ask_admit b (λ r. isolated (k r) next)
  isolated (ask_evict name k) next = ask_evict name (λ n. isolated (k n) next)
  isolated (ask_names k) next = ask_names (λ ns. isolated (k ns) next)
  isolated (emit event m) next = emit event (isolated m next)

  -- the seam that `Compose` returns
  unfoldable pub compose_drivers : List (Driver F) → TickSeam F
  compose_drivers [] view = return
  compose_drivers (d ∷ rest) view = isolated (d.driver view) (compose_drivers rest view)

module _ (fl : Floats) (w : World) where
  open fl use {F}

  -- a driver with the engine, and whether it panicked
  unfoldable pub run_driver : SeamCall F → Engine F → Engine F × Bool
  run_driver return e = (e, false)
  run_driver panic e = (e, true)
  run_driver (ask_admit b k) e =
      let (e1, result) = Commands.admit_behavior fl w b e in run_driver (k result) e1
  run_driver (ask_evict name k) e =
      let (e1, removed) = Commands.evict name e in run_driver (k removed) e1
  run_driver (ask_names k) e = run_driver (k (map (λ ab. ab.behavior.name) e.active)) e
  run_driver (emit event m) e = run_driver m (emit_to e.consumers event e)

  -- `call`, with the names that it has logged
  unfoldable pub call_driver : Driver F → SeamView F → Engine F × List Text → Engine F × List Text
  call_driver d view (e, logged) =
      let (e1, panicked) = run_driver (d.driver view) e in
      (e1, if panicked then logged ++ d.name ∷ [] else logged)

  unfoldable pub call_all :
      List (Driver F) → SeamView F → Engine F × List Text → Engine F × List Text
  call_all [] view s = s
  call_all (d ∷ rest) view s = call_all rest view (call_driver d view s)

  run_seam-isolated :
      (m next : SeamCall F) (e : Engine F)
      → run_seam fl w (isolated m next) e ≡ run_seam fl w next (run_driver m e).0
  unfolding run_seam isolated run_driver
  run_seam-isolated return next e = refl
  run_seam-isolated panic next e = refl
  run_seam-isolated (ask_admit b k) next e =
      run_seam-isolated (k (Commands.admit_behavior fl w b e).1) next
        (Commands.admit_behavior fl w b e).0
  run_seam-isolated (ask_evict name k) next e =
      run_seam-isolated (k (Commands.evict name e).1) next (Commands.evict name e).0
  run_seam-isolated (ask_names k) next e =
      run_seam-isolated (k (map (λ ab. ab.behavior.name) e.active)) next e
  run_seam-isolated (emit event m) next e = run_seam-isolated m next (emit_to e.consumers event e)

  -- What an engine does with a bus as its seam is that each driver has its turn, in order, on the engine as the
  -- ones before it left it, whether or not any of them panicked; no panic reaches the engine.
  pub run_seam-compose_drivers :
      (drivers : List (Driver F)) (view : SeamView F) (e : Engine F) (logged : List Text)
      → run_seam fl w (compose_drivers drivers view) e ≡ (call_all drivers view (e, logged)).0
  unfolding compose_drivers call_all call_driver run_seam
  run_seam-compose_drivers [] view e logged = refl
  run_seam-compose_drivers (d ∷ rest) view e logged =
      run_seam-isolated (d.driver view) (compose_drivers rest view) e
      ∙ run_seam-compose_drivers rest view (run_driver (d.driver view) e).0 _
