-- ===== src/Events/Router/Windows.antt =====
-- The windows of internal/events/router.go, and the keys of a tick.
use neurosymbolic_system.Base.{
  ◌≡◌, refl, sym, ap, ◌∙◌, ◌⊎◌, inl, inr, true, false, ◌&&◌, ◌||◌, Option, none, some, List, [],
  ◌∷◌, Text, ◌==◌, if◌then◌else◌, is_some, mem, any, lookup, insert, lookup-insert, Time, Duration,
  Bool-cases, arith,
}
use mathlib.Core.Path.{subst}
use neurosymbolic_system.Rules.Model.{event_id}
use neurosymbolic_system.Ruleeval.Registry.{add_name}
use neurosymbolic_system.Ruleeval.Enforced.{mem-add_name}
use neurosymbolic_system.Events.Router.{
  Incoming, Router, within, admit_key, dedupe_key, route, tick_fields,
}

-- each time outside the window of the one before it, the first of `previous`
abbrev pub Apart : Duration → Option Time → List Time → Type 0
Apart window previous [] = Unit
Apart window previous (now ∷ rest) =
    (within window now previous ≡ false) × Apart window (some now) rest

module _ {V : Type 0} (show : V → Text) where
  abbrev key_of : Router → Incoming V → Text
  key_of r ev =
      dedupe_key show (event_id ev.source ev.type) (lookup (event_id ev.source ev.type) r.by_id)

  -- the times at which an identity is routed, of a history of events
  abbrev pub routed_at : Text → List (Time × Incoming V) → Router → List Time
  routed_at k [] r = []
  routed_at k ((now, ev) ∷ rest) r =
      let later = routed_at k rest (route show now ev r).0 in
      if is_some (route show now ev r).1 && k == key_of r ev then now ∷ later else later

  route-outcome :
      (now : Time) (ev : Incoming V) (r : Router)
      → (((route show now ev r).1 ≡ none) × ((route show now ev r).0 ≡ r))
        ⊎ ((is_some (route show now ev r).1 ≡ true)
            × (within r.window now (lookup (key_of r ev) r.last_at) ≡ false)
            × ((route show now ev r).0 ≡ record r {
              last_at = insert (key_of r ev) now r.last_at;
              tick_keys = add_name (event_id ev.source ev.type) r.tick_keys;
            }))
  unfolding route admit_key
  route-outcome now ev r =
      elim (Bool-cases (within r.window now (lookup (key_of r ev) r.last_at))) [
        | inl early ↦ inl (rw early (refl, refl))
        | inr late ↦ inr (rw late (refl, refl, refl))
      ]

  after-Apart :
      (k : Text) (now : Time) (ev : Incoming V) (rest : List (Time × Incoming V)) (r : Router)
      → within r.window now (lookup (key_of r ev) r.last_at) ≡ false
      → (route show now ev r).0 ≡ record r {
        last_at = insert (key_of r ev) now r.last_at;
        tick_keys = add_name (event_id ev.source ev.type) r.tick_keys;
      }
      → Apart
          (route show now ev r).0.window
          (lookup k (route show now ev r).0.last_at)
          (routed_at k rest (route show now ev r).0)
      → Apart r.window (lookup k r.last_at) (
          if k == key_of r ev
          then now ∷ routed_at k rest (route show now ev r).0
          else routed_at k rest (route show now ev r).0)
  after-Apart k now ev rest r late next ih =
      let xs = routed_at k rest (route show now ev r).0 in
      let found : lookup k (route show now ev r).0.last_at
          ≡ (if k == key_of r ev then some now else lookup k r.last_at) =
        ap (λ (q : Router). lookup k q.last_at) next
        ∙ lookup-insert (key_of r ev) k now r.last_at in
      let spaced : Apart r.window (if k == key_of r ev then some now else lookup k r.last_at) xs =
        subst (λ o. Apart r.window o xs) found
          (subst (λ d. Apart d (lookup k (route show now ev r).0.last_at) xs)
            (ap (λ (q : Router). q.window) next) ih) in
      elim (Bool-cases (k == key_of r ev)) [
        | inl here ↦
            let same : k ≡ key_of r ev = ground arith in
            rw here (
              subst (λ j. within r.window now (lookup j r.last_at) ≡ false) (sym same) late,
              subst (λ b. Apart r.window (if b then some now else lookup k r.last_at) xs) here
                  spaced,
            )
        | inr there ↦ rw there (
            subst (λ b. Apart r.window (if b then some now else lookup k r.last_at) xs) there
              spaced)
      ]

  -- Two events of one identity that are both routed, with none of it routed between them, are not within the
  -- window, whatever events come in and whatever keys their entries give them.
  pub routed_at-Apart :
      (k : Text) (history : List (Time × Incoming V)) (r : Router)
      → Apart r.window (lookup k r.last_at) (routed_at k history r)
  routed_at-Apart k [] r = tt
  routed_at-Apart k ((now, ev) ∷ rest) r = elim (route-outcome now ev r) [
    | inl (dropped, same) ↦ rw dropped (
        subst (λ q. Apart q.window (lookup k q.last_at) (routed_at k rest (route show now ev r).0))
          same (routed_at-Apart k rest (route show now ev r).0))
    | inr (taken, late, next) ↦
        rw taken
          (after-Apart k now ev rest r late next (routed_at-Apart k rest (route show now ev r).0))
  ]

  -- the identities of the events that are routed
  abbrev pub delivered : List (Time × Incoming V) → Router → List Text
  delivered [] r = []
  delivered ((now, ev) ∷ rest) r =
      let later = delivered rest (route show now ev r).0 in
      if is_some (route show now ev r).1 then event_id ev.source ev.type ∷ later else later

  abbrev pub route_all : List (Time × Incoming V) → Router → Router
  route_all [] r = r
  route_all ((now, ev) ∷ rest) r = route_all rest (route show now ev r).0

  route_all-mem :
      (id : Text) (history : List (Time × Incoming V)) (r : Router)
      → mem id (route_all history r).tick_keys
        ≡ (mem id r.tick_keys || mem id (delivered history r))
  unfolding mem any
  route_all-mem id [] r = ground arith
  route_all-mem id ((now, ev) ∷ rest) r = elim (route-outcome now ev r) [
    | inl (dropped, same) ↦ rw dropped (
        route_all-mem id rest (route show now ev r).0
        ∙ ap (λ (q : Router). mem id q.tick_keys || mem id (delivered rest (route show now ev r).0))
            same)
    | inr (taken, late, next) ↦
        let grown : mem id (route show now ev r).0.tick_keys
            ≡ (id == event_id ev.source ev.type || mem id r.tick_keys) =
          ap (λ (q : Router). mem id q.tick_keys) next
          ∙ mem-add_name id (event_id ev.source ev.type) r.tick_keys in
        rw taken (route_all-mem id rest (route show now ev r).0 ∙ ground (arith, grown))
  ]

  -- The fields of a tick are the identities of the events that have been routed since the last tick, and the
  -- fields of the next tick begin empty.
  pub tick_fields-delivered :
      (id : Text) (history : List (Time × Incoming V)) (r : Router)
      → (mem id (tick_fields (route_all history (tick_fields r).0)).1
          ≡ mem id (delivered history (tick_fields r).0))
        × ((tick_fields (route_all history (tick_fields r).0)).0.tick_keys ≡ [])
  unfolding tick_fields mem any
  tick_fields-delivered id history r =
      (route_all-mem id history (record r { tick_keys = [] }), refl)
