-- ===== src/Tick/Engine/Names.antt =====
-- The names of the live behaviors of internal/tick/engine.go, and what each operation does to them.
use neurosymbolic_system.Base.{
  ◌≡◌, refl, sym, ◌∙◌, ◌⊎◌, inl, inr, Bool, List, [], ◌∷◌, Text, ◌==◌, All, All-keep, All-append,
  Bool-cases, Result-cases, is_zero, Floats, Option, ok, some, arith,
}
use mathlib.Core.Path.{subst}
use neurosymbolic_system.Adaptor.Vocabulary.{Vocabulary, Action}
use neurosymbolic_system.Tick.Behavior.Binding.{bind_channels-kept}
use neurosymbolic_system.Tick.Behavior.{Behavior, bind, bind_action, with_name, bind_channels}
use neurosymbolic_system.Tick.Engine.State.{World, Event, Engine, ActiveBehavior, drop}
use neurosymbolic_system.Tick.Engine.Commands.{
  id_is_active, next_id, evict_ids, stamped, after_stamp, install, place, admit_bound, evict,
  admit_behavior,
}
use neurosymbolic_system.Tick.Engine.Loop.{recover_panic, emit_to}

module _ {F : Type 0} (P : Text → Type 0) where
  -- `P` holds of the name of every live behavior.
  abbrev pub NamesAll : Engine F → Type 0
  NamesAll e = All (λ ab. P ab.behavior.name) e.active

  emit_to-active :
      (consumers : List (Event → Bool)) (event : Event) (e : Engine F)
      → (emit_to consumers event e).active ≡ e.active
  unfolding emit_to recover_panic drop
  emit_to-active [] event e = refl
  emit_to-active (panics ∷ rest) event e = elim (Bool-cases (panics event)) [
    | inl h ↦ rw (h, emit_to) (emit_to-active rest event _)
    | inr h ↦ rw (h, emit_to) (emit_to-active rest event e)
  ]

  pub emit_to-NamesAll :
      (consumers : List (Event → Bool)) (event : Event) (e : Engine F)
      → NamesAll e
      → NamesAll (emit_to consumers event e)
  emit_to-NamesAll consumers event e h =
      subst (All (λ ab. P ab.behavior.name)) (sym (emit_to-active consumers event e)) h

  pub evict-NamesAll : (name : Text) (e : Engine F) → NamesAll e → NamesAll (evict name e).0
  unfolding evict
  evict-NamesAll name e h = elim (Bool-cases (name == [])) [
    | inl p ↦ rw p h
    | inr p ↦ rw p (All-keep _ _ e.active h)
  ]

  evict_ids-All :
      (ids : List Text) (active : List (ActiveBehavior F))
      → All (λ ab. P ab.behavior.name) active
      → All (λ ab. P ab.behavior.name) (evict_ids ids active)
  unfolding evict_ids
  evict_ids-All [] active h = h
  evict_ids-All (id ∷ rest) active h = All-keep _ _ active h

  place-NamesAll :
      (w : World) (b : Behavior F) (e : Engine F) → P b.name → NamesAll e → NamesAll (place w b e).0
  unfolding place install stamped after_stamp
  place-NamesAll w b e p h = elim (Bool-cases (is_zero b.admitted_at)) [
    | inl z ↦ rw z (All-append _ _ _ (evict_ids-All _ e.active h) (p, tt))
    | inr z ↦ rw z (All-append _ _ _ (evict_ids-All _ e.active h) (p, tt))
  ]

  admit_bound-NamesAll :
      (w : World) (b : Behavior F) (e : Engine F)
      → P b.name
      → NamesAll e
      → NamesAll (admit_bound w b e).0
  unfolding admit_bound drop
  admit_bound-NamesAll w b e p h = elim (Bool-cases (b.id == [])) [
    | inl unset ↦
        let (id, seq) = next_id e.active b.name e.seq in
        rw unset (place-NamesAll w (record b { id = id }) (record e { seq = seq }) p h)
    | inr given ↦ rw given (elim (Bool-cases (id_is_active b.id e.active)) [
      | inl live ↦ rw live h
      | inr idle ↦ rw idle (place-NamesAll w b e p h)
    ])
  ]

module _ (fl : Floats) where
  open fl use {F}

  bind_action-name :
      (v : Vocabulary F) (b : Behavior F) {p : Behavior F × Option (Action F)}
      → bind_action fl v b ≡ ok p
      → (p.0.name ≡ b.name) ⊎ (p.0.name ≡ b.action)
  unfolding bind_action with_name
  bind_action-name v b h = elim (Bool-cases (b.name == [])) [
    | inr given ↦ inl (ground arith)
    | inl unset ↦ elim (Bool-cases (b.action == [])) [
      | inl own ↦ inl (ground arith)
      | inr acts ↦ inr (ground arith)
    ]
  ]

  -- A behavior that is bound keeps its name, or has that of its action.
  bind-name :
      (v : Vocabulary F) (b : Behavior F) {bound : Behavior F}
      → bind fl (some v) b ≡ ok bound
      → (bound.name ≡ b.name) ⊎ (bound.name ≡ b.action)
  unfolding bind
  bind-name v b {bound} h = elim (Result-cases (bind_action fl v b)) [
    | inr (x, p) ↦ absurd (ground arith)
    | inl (acted, p) ↦ elim (Result-cases (bind_channels fl v acted.0 acted.1)) [
      | inr (x, q) ↦ absurd (ground arith)
      | inl (channeled, q) ↦
          let kept = (bind_channels-kept fl v acted.0 acted.1 q).0 in
          let same : bound ≡ channeled = ground arith in
          let named : bound.name ≡ acted.0.name = cc in
          elim (bind_action-name v b p) [ inl e ↦ inl (named ∙ e) | inr e ↦ inr (named ∙ e) ]
    ]
  ]

module _ (fl : Floats) (w : World) (P : Text → Type 0) where
  open fl use {F}

  pub admit_behavior-NamesAll :
      (b : Behavior F) (e : Engine F)
      → P b.name
      → P b.action
      → NamesAll P e
      → NamesAll P (admit_behavior fl w b e).0
  unfolding admit_behavior
  admit_behavior-NamesAll b e p q h = elim (Result-cases (bind fl (some e.voc) b)) [
    | inl (bound, r) ↦
        let named : P bound.name = elim (bind-name fl e.voc b r) [
          | inl s ↦ subst P (sym s) p
          | inr s ↦ subst P (sym s) q
        ] in
        rw (r, admit_behavior) (admit_bound-NamesAll P w bound e named h)
    | inr (x, r) ↦ rw (r, admit_behavior) h
  ]
