-- ===== src/Tick/Engine/Draining.antt =====
-- What `drainInbox` of internal/tick/engine.go leaves in the inbox.
use neurosymbolic_system.Base.{
  ℕ, zero, suc, ◌≤◌, ◌≡◌, refl, ◌∙◌, List, [], ◌∷◌, ◌==◌, length, Bool-cases, Result-cases, inl,
  inr, Floats, Result, ok, err, some, arith,
}
use neurosymbolic_system.Tick.Behavior.{Behavior, bind}
use neurosymbolic_system.Tick.Arbitration.{AdmitResult}
use neurosymbolic_system.Tick.Engine.State.{
  World, AdmitError, refused, duplicate_id, Command, admit_cmd, evict_cmd, set_seam_cmd, unknown,
  Engine, drop,
}
use neurosymbolic_system.Tick.Engine.Commands.{
  id_is_active, next_id, after_stamp, install, place, admit_bound, evict, admit_behavior, report,
  apply, drain_from, drain_inbox,
}
use neurosymbolic_system.Tick.Engine.Validity.{IsValid}

module _ {F : Type 0} (w : World) where
  place-inbox : (b : Behavior F) (e : Engine F) → (place w b e).0.inbox ≡ e.inbox
  unfolding place install after_stamp
  place-inbox b e = ground arith

  admit_bound-inbox : (b : Behavior F) (e : Engine F) → (admit_bound w b e).0.inbox ≡ e.inbox
  unfolding admit_bound drop
  admit_bound-inbox b e = elim (Bool-cases (b.id == [])) [
    | inl unset ↦
        let (id, seq) = next_id e.active b.name e.seq in
        rw unset (place-inbox (record b { id = id }) (record e { seq = seq }))
    | inr given ↦ rw given (elim (Bool-cases (id_is_active b.id e.active)) [
      | inl live ↦ rw live refl
      | inr idle ↦ rw idle (place-inbox b e)
    ])
  ]

  evict-inbox : (name : List ℕ) (e : Engine F) → (evict name e).0.inbox ≡ e.inbox
  unfolding evict
  evict-inbox name e = ground arith

module _ (fl : Floats) (w : World) where
  open fl use {F}

  admit_behavior-inbox :
      (b : Behavior F) (e : Engine F) → (admit_behavior fl w b e).0.inbox ≡ e.inbox
  unfolding admit_behavior
  admit_behavior-inbox b e = elim (Result-cases (bind fl (some e.voc) b)) [
    | inl (bound, h) ↦ rw (h, admit_behavior) (admit_bound-inbox w bound e)
    | inr (x, h) ↦ rw (h, admit_behavior) refl
  ]

  report-inbox :
      (b : Behavior F) (r : Engine F × Result AdmitError AdmitResult)
      → (report fl w b r).inbox ≡ r.0.inbox
  unfolding report drop
  report-inbox b (e, ok result) = refl
  report-inbox b (e, err duplicate_id) = refl
  report-inbox b (e, err (refused x)) = refl

  apply-inbox : (cmd : Command F) (e : Engine F) → (apply fl w cmd e).inbox ≡ e.inbox
  unfolding apply drop
  apply-inbox (admit_cmd b) e = report-inbox b (admit_behavior fl w b e) ∙ admit_behavior-inbox b e
  apply-inbox (evict_cmd name) e = evict-inbox w name e
  apply-inbox (set_seam_cmd seam) e = refl
  apply-inbox unknown e = refl

  drain_from-inbox :
      (rounds : ℕ) (inbox : List (Command F)) (e : Engine F)
      → e.inbox ≡ inbox
      → length inbox ≤ rounds
      → (drain_from fl w rounds e).inbox ≡ []
  unfolding drain_from
  drain_from-inbox zero [] e h few = h
  drain_from-inbox zero (cmd ∷ rest) e h few = absurd (omega arith)
  drain_from-inbox (suc rounds) [] e h few = simp (h, drain_from) refl
  drain_from-inbox (suc rounds) (cmd ∷ rest) e h few =
      simp (h, drain_from)
        (drain_from-inbox rounds rest (apply fl w cmd (record e { inbox = rest }))
          (apply-inbox cmd (record e { inbox = rest })) (omega arith))

  -- Draining a valid engine leaves no command pending in its inbox.
  pub drain_inbox-inbox : (e : Engine F) → IsValid e → (drain_inbox fl w e).inbox ≡ []
  unfolding drain_inbox
  drain_inbox-inbox e valid =
      drain_from-inbox e.cfg.inbox_size e.inbox (record e { inbox_drops = 0 }) refl
        valid.inbox_bounded
