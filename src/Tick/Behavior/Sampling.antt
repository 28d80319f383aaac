-- ===== src/Tick/Behavior/Sampling.antt =====
-- The trajectories that `Bind` of internal/tick/behavior.go gives a behavior.
use neurosymbolic_system.Base.{
  ℕ, GoMap, lookup, insert, lookup-insert, is_some, Option-cases, sym, ap, ◌∙◌, ◌⊎◌, ◌≡◌, inl, inr,
  true, Option, none, some, List, [], ◌∷◌, Text, ◌==◌, All, Bool-cases, Result-cases, Floats, ok,
  arith,
}
use mathlib.Core.Path.{subst}
use neurosymbolic_system.Adaptor.Trajectory.{Trajectory}
use neurosymbolic_system.Adaptor.Trajectory.Total.{WellShaped}
use neurosymbolic_system.Adaptor.Vocabulary.{Vocabulary, Action}
use neurosymbolic_system.Tick.Behavior.{
  Contribution, Behavior, with_name, find_action, attach, bind_action, claimed_channels,
  bind_channels, bind,
}

-- every trajectory that can be sampled can be sampled without a panic
abbrev pub Shaped : {F : Type 0} → GoMap (Option (Trajectory F)) → Type 0
Shaped {F} trajectories =
    (k : Text) (tr : Trajectory F) → lookup k trajectories ≡ some (some tr) → WellShaped tr

-- a behavior with a function of its own samples no trajectory
abbrev pub Samples :
    {F : Type 0} → Option (ℕ → F → Option (Contribution F)) → GoMap (Option (Trajectory F)) → Type 0
Samples (some f) trajectories = Unit
Samples none trajectories = Shaped trajectories

abbrev pub ActionsShaped : {F : Type 0} → List (Action F) → Type 0
ActionsShaped = All (λ a. Shaped a.trajectories)

module _ (fl : Floats) where
  open fl use {F}

  find_action-Shaped :
      (name : Text) (actions : List (Action F)) {a : Action F}
      → ActionsShaped actions
      → find_action fl name actions ≡ some a
      → Shaped a.trajectories
  unfolding find_action
  find_action-Shaped name [] s h = absurd (ground arith)
  find_action-Shaped name (x ∷ rest) {a} s h = elim (Bool-cases (x.name == name)) [
    | inl here ↦
        let same : a ≡ x = ground arith in
        λ k tr e. s.0 k tr (ap (λ (y : Action F). lookup k y.trajectories) (sym same) ∙ e)
    | inr there ↦
        let found : find_action fl name rest ≡ some a = ground arith in
        find_action-Shaped name rest s.1 found
  ]

  insert-case :
      (ch : Text) (tr : Trajectory F) (out : GoMap (Option (Trajectory F)))
      → WellShaped tr
      → Shaped out
      → Shaped (insert ch (some tr) out)
  insert-case ch tr out s t k tr' h = elim (Bool-cases (k == ch)) [
    | inl here ↦ let same : tr' ≡ tr = ground (arith, lookup-insert ch k (some tr) out) in rw same s
    | inr there ↦ t k tr' (ground (arith, lookup-insert ch k (some tr) out))
  ]

  attach-Shaped :
      (from out : GoMap (Option (Trajectory F))) (channels : List Text)
      → Shaped from
      → Shaped out
      → Shaped (attach fl from out channels)
  unfolding attach
  attach-Shaped from out [] s t = t
  attach-Shaped from out (ch ∷ rest) s t = elim (Option-cases (lookup ch from)) [
    | inl e ↦
        let same : attach fl from out (ch ∷ rest) ≡ attach fl from out rest = rw (e, attach) in
        subst Shaped (sym same) (attach-Shaped from out rest s t)
    | inr (none, e) ↦
        let same : attach fl from out (ch ∷ rest) ≡ attach fl from out rest = rw (e, attach) in
        subst Shaped (sym same) (attach-Shaped from out rest s t)
    | inr (some found, e) ↦
        let same : attach fl from out (ch ∷ rest)
            ≡ attach fl from (insert ch (some found) out) rest =
          rw (e, attach) in
        subst Shaped (sym same) (
          attach-Shaped from (insert ch (some found) out) rest s
            (insert-case ch found out (s ch found e) t))
  ]

  bind_action-Samples :
      (v : Vocabulary F) (b : Behavior F) {p : Behavior F × Option (Action F)}
      → bind_action fl v b ≡ ok p
      → (p.0.contribute ≡ b.contribute)
        × ((p.1 ≡ none) × (is_some b.contribute ≡ true)
            ⊎ ((a : Action F) × (p.1 ≡ some a) × (find_action fl b.action v.actions ≡ some a)))
  unfolding bind_action with_name
  bind_action-Samples v b {p} h = elim (Bool-cases (b.action == [])) [
    | inl idle ↦ (ground arith, inl (ground arith, ground arith))
    | inr acts ↦ elim (Option-cases (find_action fl b.action v.actions)) [
      | inl missing ↦ absurd (ground arith)
      | inr (a, found) ↦ (ground arith, inr (a, ground arith, found))
    ]
  ]

  Samples-self :
      (o : Option (ℕ → F → Option (Contribution F))) (t : GoMap (Option (Trajectory F)))
      → is_some o ≡ true
      → Samples o t
  Samples-self (some f) t h = tt
  Samples-self none t h = absurd (ground arith)

  Samples-Shaped :
      (o : Option (ℕ → F → Option (Contribution F))) (t : GoMap (Option (Trajectory F)))
      → Shaped t
      → Samples o t
  Samples-Shaped (some f) t h = tt
  Samples-Shaped none t h = h

  nothing-Shaped : Shaped {F = F} []
  unfolding lookup
  nothing-Shaped k tr h = absurd (ground arith)

  bound-Samples :
      (v : Vocabulary F) (b acted : Behavior F) (action : Option (Action F)) {b' : Behavior F}
      → ActionsShaped v.actions
      → (acted.contribute ≡ b.contribute)
        × ((action ≡ none) × (is_some b.contribute ≡ true)
            ⊎ ((a : Action F) × (action ≡ some a) × (find_action fl b.action v.actions ≡ some a)))
      → bind_channels fl v acted action ≡ ok b'
      → Samples b'.contribute b'.trajectories
  unfolding bind_channels
  bound-Samples v b acted action {b'} s h bound = elim h.1 [
    | inl (idle, own) ↦ Samples-self b'.contribute b'.trajectories (ground arith)
    | inr (a, acts, found) ↦ elim (Result-cases (claimed_channels fl acted action)) [
      | inr (e, q) ↦ absurd (ground arith)
      | inl (channels, q) ↦
          let same : b'.trajectories ≡ attach fl a.trajectories [] channels = ground arith in
          Samples-Shaped b'.contribute b'.trajectories (
            rw same (
              attach-Shaped a.trajectories [] channels
                (find_action-Shaped b.action v.actions s found) nothing-Shaped))
    ]
  ]

  pub bind-Samples :
      (v : Vocabulary F) (b : Behavior F) {b' : Behavior F}
      → ActionsShaped v.actions
      → bind fl (some v) b ≡ ok b'
      → Samples b'.contribute b'.trajectories
  unfolding bind
  bind-Samples v b {b'} s h = elim (Result-cases (bind_action fl v b)) [
    | inr (e, p) ↦ absurd (ground arith)
    | inl (acted, p) ↦
        let bound : bind_channels fl v acted.0 acted.1 ≡ ok b' = ground arith in
        bound-Samples v b acted.0 acted.1 s (bind_action-Samples v b p) bound
  ]
