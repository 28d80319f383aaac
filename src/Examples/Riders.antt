-- ===== src/Examples/Riders.antt =====
-- A bus with two drivers that panic, and a router with a window of ten.
use neurosymbolic_system.Base.{
  ◌≡◌, refl, ℕ, List, [], ◌∷◌, ◌++◌, none, Text, mem, Time, pos, lookup,
}
use neurosymbolic_system.Tick.Engine.State.{SeamView, panic, ask_evict}
use neurosymbolic_system.Tick.Engine.Loop.{run_seam}
use neurosymbolic_system.Ruleeval.Bus.{
  Driver, compose_drivers, call_all, call_driver, run_driver, run_seam-compose_drivers,
}
use neurosymbolic_system.Events.Router.{Incoming, Router, tick_fields}
use neurosymbolic_system.Events.Router.Windows.{
  Apart, routed_at, delivered, route_all, routed_at-Apart, tick_fields-delivered,
}
use neurosymbolic_system.Examples.{whole, pan, led, wave, nod, engine, room, busy}

abbrev glimpse : SeamView ℕ
glimpse = record { now = pos 5; tick_number = 1; ownership = []; pose = []; contributions = [] }

abbrev riders : List (Driver ℕ)
riders =
    record { name = pan; driver = λ view. ask_evict wave (λ n. panic) }
    ∷ record { name = led; driver = busy }
    ∷ []

run_seam-compose_drivers_example :
    run_seam whole room (compose_drivers riders glimpse) engine
    ≡ (call_all whole room riders glimpse (engine, [])).0
run_seam-compose_drivers_example = run_seam-compose_drivers whole room riders glimpse engine []

-- what the bus logs: both drivers panic
logged : (call_all whole room riders glimpse (engine, [])).1 ≡ pan ∷ led ∷ []
unfolding call_all call_driver run_driver
logged = refl

abbrev router : Router
router = record {
  by_id = [];
  event_default = none;
  window = pos 10;
  last_at = [];
  tick_keys = led ∷ [];
}

abbrev shown : ℕ → Text
shown n = []

abbrev knock : Incoming ℕ
knock = record { source = pan; type = nod; payload = [] }

abbrev knocking : Text
knocking = pan ++ b'/' ∷ nod

abbrev heard : List (Time × Incoming ℕ)
heard = (pos 100, knock) ∷ (pos 105, knock) ∷ (pos 120, knock) ∷ []

routed_at-Apart_example : Apart (pos 10) none (routed_at shown knocking heard router)
unfolding lookup
routed_at-Apart_example = routed_at-Apart shown knocking heard router

tick_fields-delivered_example :
    (mem knocking (tick_fields (route_all shown heard (tick_fields router).0)).1
      ≡ mem knocking (delivered shown heard (tick_fields router).0))
    × ((tick_fields (route_all shown heard (tick_fields router).0)).0.tick_keys ≡ [])
tick_fields-delivered_example = tick_fields-delivered shown knocking heard router
