-- ===== src/Tick/Engine/Preservation.antt =====
-- The operations of internal/tick/engine.go against the invariant of Validity.
use neurosymbolic_system.Base.{
  ℕ, zero, suc, ◌≡◌, refl, ap, Bool, some, List, [], ◌∷◌, map, Text, ◌==◌, ltb, length,
  length-append, Bool-cases, Option-cases, inl, inr, Floats, Result, ok, err, Result-cases, arith,
}
use neurosymbolic_system.Tick.Behavior.{Behavior, bind}
use neurosymbolic_system.Tick.Behavior.Binding.{bind-IsBound}
use neurosymbolic_system.Tick.Behavior.Sampling.{ActionsShaped, bind-Samples}
use neurosymbolic_system.Adaptor.Vocabulary.{names_of}
use neurosymbolic_system.Tick.Arbitration.{AdmitResult}
use neurosymbolic_system.Tick.Engine.State.{
  World, Event, SeamCall, SeamView, return, panic, ask_admit, ask_evict, ask_names, emit, Command,
  admit_cmd, evict_cmd, set_seam_cmd, unknown, AdmitError, refused, duplicate_id, Drop, seam_panic,
  event_panic, wrong_arity, Engine,
}
use neurosymbolic_system.Tick.Engine.Commands.{
  id_is_active, next_id, admit_bound, evict, send, admit_behavior, report, apply, drain_from,
  drain_inbox,
}
use neurosymbolic_system.Tick.Engine.Minting.{next_id-fresh, next_id-ne-nil}
use neurosymbolic_system.Tick.Engine.Validity.{
  ClaimsFit, IsValid, Keeps, Keeps-refl, Keeps-trans, Keeps-same, ActiveFit-keep, place-Keeps,
  drop-Keeps,
}
use neurosymbolic_system.Tick.Engine.Loop.{recover_panic, emit_to, drop_all, run_seam, invoke_seam}

module _ {F : Type 0} where
  admit_bound-Keeps :
      (w : World) (b : Behavior F) (e : Engine F)
      → (ActionsShaped e.voc.actions → ClaimsFit (names_of e.voc.channels) b)
      → Keeps e (admit_bound w b e).0
  unfolding admit_bound
  admit_bound-Keeps w b e fit = elim (Bool-cases (b.id == [])) [
    | inl unset ↦ rw unset (
        let (id, seq) = next_id e.active b.name e.seq in
        Keeps-trans
          (Keeps-same e (record e { seq = seq }) (refl, refl, refl, refl, refl) (refl, refl))
          (place-Keeps w (record b { id = id }) (record e { seq = seq })
            (next_id-fresh e.active b.name e.seq).1 (next_id-ne-nil e.active b.name e.seq)
            (λ s.
              let f = fit s in
              record {
                distinct = f.distinct;
                declared_all = f.declared_all;
                samples = f.samples;
              })))
    | inr given ↦ rw given (elim (Bool-cases (id_is_active b.id e.active)) [
      | inl live ↦ rw live (drop-Keeps _ e)
      | inr idle ↦ rw idle (place-Keeps w b e idle given fit)
    ])
  ]

  evict-Keeps : (name : Text) (e : Engine F) → Keeps e (evict name e).0
  unfolding evict
  evict-Keeps name e = elim (Bool-cases (name == [])) [
    | inl h ↦ rw h (Keeps-refl e)
    | inr h ↦ rw h (record {
      valid = λ v. record {
        active_fit = ActiveFit-keep _ _ e.active v.active_fit;
        channels_kept = v.channels_kept;
        inbox_bounded = v.inbox_bounded;
        actions_shaped = v.actions_shaped;
      };
      voc_kept = refl;
      cfg_kept = refl;
      failures_kept = refl;
      written_kept = refl;
    })
  ]

  -- A full inbox refuses the command: the bound holds after every `Send`.
  pub send-Keeps : (cmd : Command F) (e : Engine F) → Keeps e (send cmd e).0
  unfolding send
  send-Keeps cmd e = elim (Bool-cases (ltb (length e.inbox) e.cfg.inbox_size)) [
    | inl h ↦ rw h (record {
      valid = λ v. record {
        active_fit = v.active_fit;
        channels_kept = v.channels_kept;
        inbox_bounded = ground (arith, length-append e.inbox (cmd ∷ []));
        actions_shaped = v.actions_shaped;
      };
      voc_kept = refl;
      cfg_kept = refl;
      failures_kept = refl;
      written_kept = refl;
    })
    | inr h ↦ rw h (Keeps-same e _ (refl, refl, refl, refl, refl) (refl, refl))
  ]

  recover_panic-Keeps : (d : Drop) (e : Engine F) → Keeps e (recover_panic d e)
  unfolding recover_panic
  recover_panic-Keeps d e =
      Keeps-trans (Keeps-same e _ (refl, refl, refl, refl, refl) (refl, refl)) (drop-Keeps d _)

  emit_to-Keeps :
      (consumers : List (Event → Bool)) (event : Event) (e : Engine F)
      → Keeps e (emit_to consumers event e)
  unfolding emit_to
  emit_to-Keeps [] event e = Keeps-refl e
  emit_to-Keeps (panics ∷ rest) event e = elim (Bool-cases (panics event)) [
    | inl h ↦ rw h (Keeps-trans (recover_panic-Keeps event_panic e) (emit_to-Keeps rest event _))
    | inr h ↦ rw h (emit_to-Keeps rest event e)
  ]

  pub drop_all-Keeps : (channels : List Text) (e : Engine F) → Keeps e (drop_all channels e)
  unfolding drop_all
  drop_all-Keeps [] e = Keeps-refl e
  drop_all-Keeps (channel ∷ rest) e =
      Keeps-trans (drop-Keeps (wrong_arity channel) e) (drop_all-Keeps rest _)

  pop-Keeps :
      (e : Engine F) (cmd : Command F) (rest : List (Command F))
      → e.inbox ≡ cmd ∷ rest
      → Keeps e (record e { inbox = rest })
  pop-Keeps e cmd rest h = record {
    valid = λ v. record {
      active_fit = v.active_fit;
      channels_kept = v.channels_kept;
      inbox_bounded = omega (arith, v.inbox_bounded, ap length h);
      actions_shaped = v.actions_shaped;
    };
    voc_kept = refl;
    cfg_kept = refl;
    failures_kept = refl;
    written_kept = refl;
  }

module _ (fl : Floats) (w : World) where
  open fl use {F}

  pub bind-ClaimsFit :
      (e : Engine F) (b : Behavior F) {bound : Behavior F}
      → bind fl (some e.voc) b ≡ ok bound
      → ActionsShaped e.voc.actions
      → ClaimsFit (names_of e.voc.channels) bound
  bind-ClaimsFit e b h s =
      let fit = bind-IsBound fl e.voc b h in
      record {
        distinct = fit.distinct;
        declared_all = fit.declared;
        samples = bind-Samples fl e.voc b s h;
      }

  admit_behavior-Keeps : (b : Behavior F) (e : Engine F) → Keeps e (admit_behavior fl w b e).0
  unfolding admit_behavior
  admit_behavior-Keeps b e = elim (Result-cases (bind fl (some e.voc) b)) [
    | inl (bound, h) ↦ rw (h, admit_behavior) (admit_bound-Keeps w bound e (bind-ClaimsFit e b h))
    | inr (x, h) ↦ rw (h, admit_behavior) (Keeps-refl e)
  ]

  report-Keeps :
      (b : Behavior F) (e : Engine F) (r : Engine F × Result AdmitError AdmitResult)
      → Keeps e r.0
      → Keeps e (report fl w b r)
  unfolding report
  report-Keeps b e (e', ok result) h = h
  report-Keeps b e (e', err duplicate_id) h = h
  report-Keeps b e (e', err (refused x)) h = Keeps-trans h (drop-Keeps _ e')

  apply-Keeps : (cmd : Command F) (e : Engine F) → Keeps e (apply fl w cmd e)
  unfolding apply
  apply-Keeps (admit_cmd b) e =
      report-Keeps b e (admit_behavior fl w b e) (admit_behavior-Keeps b e)
  apply-Keeps (evict_cmd name) e = evict-Keeps name e
  apply-Keeps (set_seam_cmd seam) e = Keeps-same e _ (refl, refl, refl, refl, refl) (refl, refl)
  apply-Keeps unknown e = drop-Keeps _ e

  drain_from-Keeps :
      (rounds : ℕ) (inbox : List (Command F)) (e : Engine F)
      → e.inbox ≡ inbox
      → Keeps e (drain_from fl w rounds e)
  unfolding drain_from
  drain_from-Keeps zero inbox e h = Keeps-refl e
  drain_from-Keeps (suc rounds) [] e h = simp (h, drain_from) (Keeps-refl e)
  drain_from-Keeps (suc rounds) (cmd ∷ rest) e h =
      simp (h, drain_from)
        (Keeps-trans (pop-Keeps e cmd rest h) (
          Keeps-trans (apply-Keeps cmd (record e { inbox = rest }))
            (drain_from-Keeps rounds _ (apply fl w cmd (record e { inbox = rest })) refl)))

  -- Draining applies every pending command, each of which keeps the invariant.
  pub drain_inbox-Keeps : (e : Engine F) → Keeps e (drain_inbox fl w e)
  unfolding drain_inbox
  drain_inbox-Keeps e =
      Keeps-trans (Keeps-same e _ (refl, refl, refl, refl, refl) (refl, refl))
        (drain_from-Keeps e.cfg.inbox_size e.inbox (record e { inbox_drops = 0 }) refl)

  run_seam-Keeps : (calls : SeamCall F) (e : Engine F) → Keeps e (run_seam fl w calls e)
  unfolding run_seam
  run_seam-Keeps return e = Keeps-refl e
  run_seam-Keeps panic e = recover_panic-Keeps seam_panic e
  run_seam-Keeps (ask_admit b next) e =
      Keeps-trans (admit_behavior-Keeps b e)
        (run_seam-Keeps (next (admit_behavior fl w b e).1) (admit_behavior fl w b e).0)
  run_seam-Keeps (ask_evict name next) e =
      Keeps-trans (evict-Keeps name e) (run_seam-Keeps (next (evict name e).1) (evict name e).0)
  run_seam-Keeps (ask_names next) e =
      run_seam-Keeps (next (map (λ ab. ab.behavior.name) e.active)) e
  run_seam-Keeps (emit event next) e =
      Keeps-trans (emit_to-Keeps e.consumers event e)
        (run_seam-Keeps next (emit_to e.consumers event e))

  -- Whatever a seam does, in whatever order, and also if it panics.
  pub invoke_seam-Keeps : (view : SeamView F) (e : Engine F) → Keeps e (invoke_seam fl w view e)
  unfolding invoke_seam
  invoke_seam-Keeps view e = elim (Option-cases e.seam) [
    | inl h ↦ simp (h, invoke_seam) (Keeps-refl e)
    | inr (seam, h) ↦ simp (h, invoke_seam) (run_seam-Keeps (seam view) e)
  ]

  -- Draining the inbox keeps the engine valid, whatever was sent: admissions that are refused, that
  -- evict or that repeat a live id, evictions, seams, and commands of no known type.
  pub drain_inbox-IsValid : (e : Engine F) → IsValid e → IsValid (drain_inbox fl w e)
  drain_inbox-IsValid e h = (drain_inbox-Keeps e).valid h

  -- A seam keeps the engine valid, whatever it calls, in whatever order, and also if it panics.
  pub invoke_seam-IsValid :
      (view : SeamView F) (e : Engine F) → IsValid e → IsValid (invoke_seam fl w view e)
  invoke_seam-IsValid view e h = (invoke_seam-Keeps view e).valid h
