-- ===== src/Tick/Engine/Commands.antt =====
-- internal/tick/engine.go: what changes the active set, and the bounded inbox.
use neurosymbolic_system.Base.{
  ℕ, zero, suc, ◌+◌, Bool, true, false, not, ◌||◌, Option, none, some, List, [], ◌∷◌, ◌++◌, Text,
  ◌==◌, if◌then◌else◌, ltb, length, mem, any, keep, decimal, is_zero, Floats, Result, ok, err,
}
use neurosymbolic_system.Tick.Behavior.{Behavior, bind}
use neurosymbolic_system.Tick.Arbitration.{AdmitResult, admit}
use neurosymbolic_system.Tick.Engine.State.{
  World, AdmitError, refused, duplicate_id, Command, admit_cmd, evict_cmd, set_seam_cmd, unknown,
  admit_refused, admit_duplicate, unknown_command, ActiveBehavior, Engine, count_up, drop,
  clock_now, clock_read, behaviors,
}

unfoldable pub behavior_label : {F : Type 0} → Behavior F → Text
behavior_label b =
    if not (b.id == [])
    then b.id
    else if not (b.name == [])
    then b.name
    else if not (b.action == [])
    then b.action
    else b'u' ∷ b'n' ∷ b'n' ∷ b'a' ∷ b'm' ∷ b'e' ∷ b'd' ∷ []

-- `fmt.Sprintf("%s-%d", name, seq)`
unfoldable pub format_id : Text → ℕ → Text
format_id name seq = name ++ b'-' ∷ decimal seq

module _ {F : Type 0} where
  unfoldable pub id_is_active : Text → List (ActiveBehavior F) → Bool
  id_is_active id = any (λ ab. ab.behavior.id == id)

  -- the loop of `nextID`, on fuel: the id, and the counter after it
  unfoldable pub next_id_from : ℕ → List (ActiveBehavior F) → Text → ℕ → Option (Text × ℕ)
  next_id_from zero active name seq = none
  next_id_from (suc fuel) active name seq =
      let candidate = format_id name (seq + 1) in
      let later = next_id_from fuel active name (seq + 1) in
      if id_is_active candidate active then later else some (candidate, seq + 1)

  -- `nextID`: one round more than there are live ids is enough fuel (`Minting`).
  unfoldable pub next_id : List (ActiveBehavior F) → Text → ℕ → Text × ℕ
  next_id active name seq = elim (next_id_from (suc (length active)) active name seq) [
    | none ↦ ([], seq)
    | some minted ↦ minted
  ]

  unfoldable pub evict_ids : List Text → List (ActiveBehavior F) → List (ActiveBehavior F)
  evict_ids [] active = active
  evict_ids (id ∷ rest) active = keep (λ ab. not (mem ab.behavior.id (id ∷ rest))) active

  -- a behavior with no origin in time gets a reading of the clock
  unfoldable pub stamped : World → Engine F → Behavior F → Behavior F
  stamped w e b = if is_zero b.admitted_at then record b { admitted_at = clock_now w e } else b

  unfoldable pub after_stamp : Behavior F → Engine F → Engine F
  after_stamp b e = if is_zero b.admitted_at then clock_read e else e

  -- the contention outcome applied, and the newcomer appended
  unfoldable pub install : Behavior F → Engine F → Engine F × AdmitResult
  install b e =
      let result = admit e.channels b (behaviors e.active) in
      (
        record e {
          active =
              evict_ids result.evicted e.active ++ record { behavior = b; is_base = false } ∷ [];
        },
        result,
      )

  -- `admit`, from the zero test of AdmittedAt on
  unfoldable pub place : World → Behavior F → Engine F → Engine F × AdmitResult
  place w bound e = install (stamped w e bound) (after_stamp bound e)

  -- `admit`, once the behavior is bound
  unfoldable pub admit_bound :
      World → Behavior F → Engine F → Engine F × Result AdmitError AdmitResult
  admit_bound w bound e =
      if bound.id == []
      then (let (id, seq) = next_id e.active bound.name e.seq in
          let (e', result) = place w (record bound { id = id }) (record e { seq = seq }) in
          (e', ok result))
      else if id_is_active bound.id e.active
      then (drop (admit_duplicate bound.id) e, err duplicate_id)
      else (let (e', result) = place w bound e in (e', ok result))

  unfoldable pub matches : Text → ActiveBehavior F → Bool
  matches name ab = ab.behavior.id == name || ab.behavior.name == name

  unfoldable pub count_matching : Text → List (ActiveBehavior F) → ℕ
  count_matching name [] = 0
  count_matching name (ab ∷ rest) =
      let later = count_matching name rest in if matches name ab then later + 1 else later

  unfoldable pub evict : Text → Engine F → Engine F × ℕ
  evict name e = if name == [] then (e, 0) else (
    record e { active = keep (λ ab. not (matches name ab)) e.active },
    count_matching name e.active,
  )

  -- `Send`
  unfoldable pub send : Command F → Engine F → Engine F × Bool
  send cmd e =
      if ltb (length e.inbox) e.cfg.inbox_size
      then (record e { inbox = e.inbox ++ cmd ∷ [] }, true)
      else (record e { drops = count_up e.drops; inbox_drops = count_up e.inbox_drops }, false)

module _ (fl : Floats) (w : World) where
  open fl use {F}

  -- the engine's `admit`
  unfoldable pub admit_behavior : Behavior F → Engine F → Engine F × Result AdmitError AdmitResult
  admit_behavior b e = elim (bind fl (some e.voc) b) [
    | err x ↦ (e, err (refused x))
    | ok bound ↦ admit_bound w bound e
  ]

  unfoldable pub report : Behavior F → Engine F × Result AdmitError AdmitResult → Engine F
  report b (e, ok result) = e
  report b (e, err duplicate_id) = e
  report b (e, err (refused x)) = drop (admit_refused (behavior_label b)) e

  unfoldable pub apply : Command F → Engine F → Engine F
  apply (admit_cmd b) e = report b (admit_behavior b e)
  apply (evict_cmd name) e = (evict name e).0
  apply (set_seam_cmd seam) e = record e { seam = seam }
  apply unknown e = drop unknown_command e

  -- the loop of `drainInbox`, bounded by the inbox's capacity
  unfoldable pub drain_from : ℕ → Engine F → Engine F
  drain_from zero e = e
  drain_from (suc rounds) e = elim e.inbox [
    | [] ↦ e
    | cmd ∷ rest ↦ drain_from rounds (apply cmd (record e { inbox = rest }))
  ]

  unfoldable pub drain_inbox : Engine F → Engine F
  drain_inbox e = drain_from e.cfg.inbox_size (record e { inbox_drops = 0 })
