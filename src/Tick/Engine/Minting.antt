-- ===== src/Tick/Engine/Minting.antt =====
-- The ids that `nextID` of internal/tick/engine.go mints.
use neurosymbolic_system.Base.{
  ℕ, zero, suc, ◌+◌, ◌≤◌, ◌<◌, ◌≡◌, ◌≢◌, refl, ap, true, false, none, some, List, [], ◌∷◌, map,
  Text, ◌==◌, length, mem, any, All, Distinct, decimal, decimal-injective, append_cancel,
  pigeonhole, Bool-cases, Option-cases, inl, inr, arith,
}
use neurosymbolic_system.Tick.Engine.State.{ActiveBehavior}
use neurosymbolic_system.Tick.Engine.Commands.{id_is_active, format_id, next_id_from, next_id}

format_id-injective : (name : Text) (m n : ℕ) → format_id name m ≡ format_id name n → m ≡ n
unfolding format_id
format_id-injective name m n e =
    decimal-injective m n (tail_eq (append_cancel name (b'-' ∷ decimal m) (b'-' ∷ decimal n) e))
  where
    tail_eq : {c : ℕ} {s t : Text} → c ∷ s ≡ c ∷ t → s ≡ t
    tail_eq h = cc

-- the ids of the rounds of the loop
candidates : ℕ → Text → ℕ → List Text
candidates zero name seq = []
candidates (suc fuel) name seq = format_id name (seq + 1) ∷ candidates fuel name (seq + 1)

length-candidates : (fuel : ℕ) (name : Text) (seq : ℕ) → length (candidates fuel name seq) ≡ fuel
unfolding candidates
length-candidates zero name seq = refl
length-candidates (suc fuel) name seq = ap suc (length-candidates fuel name (seq + 1))

candidates_fresh :
    (fuel : ℕ) (name : Text) (m seq : ℕ)
    → m ≤ seq
    → mem (format_id name m) (candidates fuel name seq) ≡ false
unfolding candidates mem any
candidates_fresh zero name m seq h = refl
candidates_fresh (suc fuel) name m seq h =
    elim (Bool-cases (format_id name m == format_id name (seq + 1))) [
      | inl e ↦ absurd (omega (arith, format_id-injective name m (seq + 1) (ground arith)))
      | inr e ↦ rw e (candidates_fresh fuel name m (seq + 1) (omega arith))
    ]

candidates-Distinct : (fuel : ℕ) (name : Text) (seq : ℕ) → Distinct (candidates fuel name seq)
unfolding candidates
candidates-Distinct zero name seq = tt
candidates-Distinct (suc fuel) name seq = (
  candidates_fresh fuel name (seq + 1) (seq + 1) (omega arith),
  candidates-Distinct fuel name (seq + 1),
)

module _ {F : Type 0} where
  abbrev pub live_ids : List (ActiveBehavior F) → List Text
  live_ids = map (λ ab. ab.behavior.id)

  pub mem-live_ids :
      (id : Text) (active : List (ActiveBehavior F))
      → mem id (live_ids active) ≡ id_is_active id active
  unfolding mem any id_is_active
  mem-live_ids id [] = refl
  mem-live_ids id (ab ∷ rest) = ground (arith, mem-live_ids id rest)

  -- if the fuel runs out, every candidate is the id of a live behavior
  exhausted-All :
      (fuel : ℕ) (active : List (ActiveBehavior F)) (name : Text) (seq : ℕ)
      → next_id_from fuel active name seq ≡ none
      → All (λ id. mem id (live_ids active) ≡ true) (candidates fuel name seq)
  unfolding next_id_from candidates
  exhausted-All zero active name seq h = tt
  exhausted-All (suc fuel) active name seq h = (
    ground (arith, mem-live_ids (format_id name (seq + 1)) active),
    exhausted-All fuel active name (seq + 1) (ground arith),
  )

  length-live_ids : (active : List (ActiveBehavior F)) → length (live_ids active) ≡ length active
  length-live_ids [] = refl
  length-live_ids (ab ∷ rest) = ap suc (length-live_ids rest)

  next_id_from-ne-none :
      (active : List (ActiveBehavior F)) (name : Text) (seq : ℕ)
      → next_id_from (suc (length active)) active name seq ≢ none
  next_id_from-ne-none active name seq h = omega (
    arith,
    pigeonhole (candidates (suc (length active)) name seq) (live_ids active)
        (candidates-Distinct (suc (length active)) name seq)
        (exhausted-All (suc (length active)) active name seq h),
    length-candidates (suc (length active)) name seq,
    length-live_ids active,
  )

  next_id_from-fresh :
      (fuel : ℕ) (active : List (ActiveBehavior F)) (name : Text) (seq : ℕ) (r : Text × ℕ)
      → next_id_from fuel active name seq ≡ some r
      → (id_is_active r.0 active ≡ false) × (r.0 ≡ format_id name r.1) × (seq < r.1)
  unfolding next_id_from
  next_id_from-fresh zero active name seq r h = absurd (ground arith)
  next_id_from-fresh (suc fuel) active name seq r h =
      ground (arith, next_id_from-fresh fuel active name (seq + 1) r)

  -- The search for an id ends within one round more than there are live behaviors, and the id that
  -- it returns is `<name>-<n>` for a counter `n` that has grown, and is not live.
  pub next_id-fresh :
      (active : List (ActiveBehavior F)) (name : Text) (seq : ℕ)
      → (next_id_from (suc (length active)) active name seq ≡ some (next_id active name seq))
        × (id_is_active (next_id active name seq).0 active ≡ false)
        × ((next_id active name seq).0 ≡ format_id name (next_id active name seq).1)
        × (seq < (next_id active name seq).1)
  unfolding next_id
  next_id-fresh active name seq =
      elim (Option-cases (next_id_from (suc (length active)) active name seq)) [
        | inl e ↦ absurd (next_id_from-ne-none active name seq e)
        | inr (r, e) ↦
            let same : next_id active name seq ≡ r = rw (e, next_id) in
            let (idle, shape, grown) =
              next_id_from-fresh (suc (length active)) active name seq r e in
            rw same (e, idle, shape, grown)
      ]

  pub next_id-ne-nil :
      (active : List (ActiveBehavior F)) (name : Text) (seq : ℕ)
      → ((next_id active name seq).0 == []) ≡ false
  next_id-ne-nil active name seq =
      rw ((next_id-fresh active name seq).2) (format_id-ne-nil name (next_id active name seq).1)
    where
      format_id-ne-nil : (s : Text) (n : ℕ) → (format_id s n == []) ≡ false
      format_id-ne-nil [] n = unfold format_id in ground arith
      format_id-ne-nil (c ∷ s) n = unfold format_id in ground arith
