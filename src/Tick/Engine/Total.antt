-- ===== src/Tick/Engine/Total.antt =====
-- Whether the sampling of a valid engine panics, and with it a tick or the loop of `Run`
-- (internal/tick/engine.go).
use neurosymbolic_system.Base.{
  ◌⊎◌, ◌∙◌, insert, keep, ℕ, ◌≡◌, refl, sym, true, Option, none, some, List, [], ◌∷◌, Text, ◌==◌,
  any, mem, All, All-map, Bool-cases, Option-cases, inl, inr, GoMap, lookup, Time, Floats, and_then,
  arith,
}
use mathlib.Core.Path.{subst}
use neurosymbolic_system.Adaptor.Trajectory.{Trajectory}
use neurosymbolic_system.Adaptor.Trajectory.Total.{WellShaped, Sampled, sample-Sampled}
use neurosymbolic_system.Adaptor.Vocabulary.{names_of, Channel, Action, Vocabulary}
use neurosymbolic_system.Adaptor.Vocabulary.Claims.{Compiled, ActionFit}
use neurosymbolic_system.Adaptor.Vocabulary.Sound.{IsSound}
use neurosymbolic_system.Tick.Behavior.{
  local_time, Contribution, Behavior, drive, drive_all, contribution,
}
use neurosymbolic_system.Tick.Behavior.Sampling.{Shaped, Samples, ActionsShaped}
use neurosymbolic_system.Tick.Engine.State.{
  World, Command, ActiveBehavior, Engine, clock_read, count_up, clock_now,
}
use neurosymbolic_system.Tick.Engine.Validity.{
  ClaimsFit, IsValid, ActiveFit-keep, Keeps-same, Keeps-trans,
}
use neurosymbolic_system.Tick.Engine.Commands.{drain_inbox}
use neurosymbolic_system.Tick.Engine.Preservation.{drain_inbox-Keeps}
use neurosymbolic_system.Tick.Engine.Loop.{
  RunError, is_live, compose_live, finish_tick, contribute_all, compose_tick, tick, send_all,
  run_loop,
}
use neurosymbolic_system.Tick.Engine.Outcomes.{Running, Outcome, Running-Keeps}
use neurosymbolic_system.Tick.Engine.Runs.{
  ChannelsFit, tick-Outcome, run_loop-Outcome, send_all-Keeps,
}

-- the code returns, and with this value
abbrev pub Returns : {A : Type 0} → Option A → Type 0
Returns {A} o = (x : A) × (o ≡ some x)

some-Returns : {A : Type 0} (x : A) → Returns (some x)
some-Returns x = (x, refl)

Sampled-Returns : {F : Type 0} (n : ℕ) (o : Option (List F)) → Sampled n o → Returns o
Sampled-Returns n none h = absurd h
Sampled-Returns n (some values) h = (values, refl)

and_then-Returns :
    {A B : Type 0} (o : Option A) (k : A → Option B)
    → Returns o
    → ((x : A) → o ≡ some x → Returns (k x))
    → Returns (and_then o k)
and_then-Returns none k h later = absurd (ground arith)
and_then-Returns (some x) k h later = later x refl

All-at : (P : Text → Type 0) (xs : List Text) (k : Text) → All P xs → mem k xs ≡ true → P k
unfolding mem any
All-at P [] k h m = absurd (ground arith)
All-at P (x ∷ xs) k h m = elim (Bool-cases (k == x)) [
  | inl here ↦ (let same : k ≡ x = ground arith in subst P (sym same) h.0)
  | inr there ↦ All-at P xs k h.1 (ground arith)
]

module _ (fl : Floats) where
  open fl use {F}

  Compiled-WellShaped :
      (n : ℕ) (o : Option (Option (Trajectory F))) (tr : Trajectory F)
      → Compiled fl n o
      → o ≡ some (some tr)
      → WellShaped tr
  Compiled-WellShaped n none tr c h = absurd c
  Compiled-WellShaped n (some none) tr c h = absurd c
  Compiled-WellShaped n (some (some found)) tr c h =
      let same : tr ≡ found = ground arith in subst WellShaped (sym same) c.0

  ActionFit-Shaped :
      (m : GoMap (Channel F)) (a : Action F) → ActionFit fl m a → Shaped a.trajectories
  ActionFit-Shaped m a f k tr h = elim (Bool-cases (mem k a.claims)) [
    | inl claimed ↦ Compiled-WellShaped _ _ tr (All-at _ a.claims k f.claims_compiled claimed) h
    | inr other ↦ absurd (ground (arith, f.nothing_else k other))
  ]

  pub IsSound-ActionsShaped : (v : Vocabulary F) → IsSound fl v → ActionsShaped v.actions
  IsSound-ActionsShaped v s = All-map (ActionFit-Shaped v.channel_by_name) v.actions s.actions_fit

  drive-own :
      (b : Behavior F) (raw : Contribution F) (t : F) (ch : Text)
      → Returns (drive fl b (some raw) t ch)
  unfolding drive
  drive-own b raw t ch = some-Returns _

  drive-sampled :
      (b : Behavior F) (t : F) (ch : Text) → Shaped b.trajectories → Returns (drive fl b none t ch)
  unfolding drive
  drive-sampled b t ch h = elim (Option-cases (lookup ch b.trajectories)) [
    | inl e ↦ (none, ground arith)
    | inr (none, e) ↦ (none, ground arith)
    | inr (some found, e) ↦
        let (values, sampled) = Sampled-Returns _ _ (sample-Sampled fl found t (h ch found e)) in
        (some values, rw (e, drive, sampled))
  ]

  drive_all-Returns :
      (b : Behavior F) (raw : Option (Contribution F)) (t : F) (channels : List Text)
      (out : Contribution F)
      → ((ch : Text) → Returns (drive fl b raw t ch))
      → Returns (drive_all fl b raw t out channels)
  unfolding drive_all
  drive_all-Returns b raw t [] out h = some-Returns out
  drive_all-Returns b raw t (ch ∷ rest) out h =
      and_then-Returns _ _ (h ch) (λ s e. drive_all-Returns b raw t rest _ h)

  -- the behavior's own `Contribute` panics at this call
  abbrev pub Panics : Behavior F → ℕ → F → Type 0
  Panics b moment t =
      (f : ℕ → F → Option (Contribution F)) × (b.contribute ≡ some f) × (f moment t ≡ none)

  answer_unique :
      {o : Option (ℕ → F → Option (Contribution F))} {raw : Contribution F}
      (f g : ℕ → F → Option (Contribution F)) (moment : ℕ) (t : F)
      → o ≡ some f
      → o ≡ some g
      → f moment t ≡ some raw
      → g moment t ≡ none
      → ⊥
  answer_unique f g moment t e e' answered panics = cc

  -- A behavior whose trajectories can be sampled contributes at every call at which no `Contribute` of
  -- its own panics; where its own one panics, so does the call.
  pub contribution-Returns :
      (b : Behavior F) (moment : ℕ) (t : F)
      → Samples b.contribute b.trajectories
      → Returns (contribution fl b moment t) × (¬ Panics b moment t)
        ⊎ Panics b moment t × (contribution fl b moment t ≡ none)
  unfolding contribution
  contribution-Returns b moment t h = elim (Option-cases b.contribute) [
    | inl e ↦
        let shaped : Shaped b.trajectories = subst (λ o. Samples o b.trajectories) e h in
        let same : contribution fl b moment t ≡ drive_all fl b none t [] b.channels =
          ground arith in
        let (c, driven) =
          drive_all-Returns b none t b.channels [] (λ ch. drive-sampled b t ch shaped) in
        inl ((c, same ∙ driven), λ p. absurd (ground (arith, p.1)))
    | inr (f, e) ↦ elim (Option-cases (f moment t)) [
      | inl panic ↦ inr ((f, e, panic), ground arith)
      | inr (raw, answered) ↦
          let same : contribution fl b moment t ≡ drive_all fl b (some raw) t [] b.channels =
            ground arith in
          let (c, driven) =
            drive_all-Returns b (some raw) t b.channels [] (λ ch. drive-own b raw t ch) in
          inl ((c, same ∙ driven), λ p. absurd (answer_unique f p.0 moment t e p.1 answered p.2))
    ]
  ]

module _ (fl : Floats) (w : World) where
  open fl use {F}

  -- one of these behaviors has a `Contribute` of its own that panics
  abbrev pub SomePanics : ℕ → Time → List (ActiveBehavior F) → Type 0
  SomePanics moment now [] = ⊥
  SomePanics moment now (ab ∷ rest) =
      Panics fl ab.behavior moment (local_time fl ab.behavior now) ⊎ SomePanics moment now rest

  contribute_all-Returns :
      (declared : List Text) (moment : ℕ) (now : Time) (active : List (ActiveBehavior F))
      (contribs : GoMap (Contribution F))
      → All (λ ab. ClaimsFit declared ab.behavior) active
      → Returns (contribute_all fl w moment now contribs active)
        ⊎ SomePanics moment now active × (contribute_all fl w moment now contribs active ≡ none)
  unfolding contribute_all
  contribute_all-Returns declared moment now [] contribs h = inl (some-Returns contribs)
  contribute_all-Returns declared moment now (ab ∷ rest) contribs h =
      elim (contribution-Returns fl ab.behavior moment (local_time fl ab.behavior now)
        h.0.samples) [
          | inr (panics, none_left) ↦ inr (inl panics, rw none_left refl)
          | inl ((c, found), quiet) ↦
              elim (contribute_all-Returns declared moment now rest
                (insert ab.behavior.id c contribs) h.1) [
                  | inl (all, later) ↦ inl (all, rw (found, later) refl)
                  | inr (panics, none_left) ↦ inr (inr panics, rw (found, none_left) refl)
                ]
        ]

  -- a behavior that is live after the drain has a `Contribute` of its own that panics in this tick
  abbrev pub TickPanics : Engine F → Type 0
  TickPanics e =
      let now = clock_now w e in
      let drained = drain_inbox fl w (record (clock_read e) { ticks = count_up e.ticks }) in
      SomePanics drained.reads now (keep (is_live fl w now) drained.active)

  compose_tick-Returns :
      (now : Time) (e : Engine F)
      → IsValid e
      → Returns (compose_tick fl w now e)
        ⊎ SomePanics e.reads now (keep (is_live fl w now) e.active)
          × (compose_tick fl w now e ≡ none)
  unfolding compose_tick
  compose_tick-Returns now e v =
      elim (contribute_all-Returns (names_of e.voc.channels) e.reads now
        (keep (is_live fl w now) e.active) []
        (ActiveFit-keep _ (is_live fl w now) e.active v.active_fit).claims_fit) [
          | inl (contribs, found) ↦ inl (
            compose_live fl w contribs (record e { active = keep (is_live fl w now) e.active }),
            ground arith,
          )
          | inr (panics, none_left) ↦ inr (panics, rw none_left refl)
        ]

  -- a tick of the loop panics, after ticks that complete
  abbrev pub LoopPanics : List (List (Command F)) → Engine F → Type 0
  LoopPanics [] e = ⊥
  LoopPanics (sent ∷ rest) e =
      let e1 = send_all fl w sent e in
      TickPanics e1 ⊎ (e2 : Engine F) × (tick fl w e1 ≡ some (e2, none)) × LoopPanics rest e2

module _ (fl : Floats) (w : World) (v : Vocabulary fl.F) (fit : ChannelsFit v) where
  open fl use {F}

  tick-Returns :
      (e : Engine F) → IsValid e → Returns (tick fl w e) ⊎ TickPanics fl w e × (tick fl w e ≡ none)
  unfolding tick
  tick-Returns e valid =
      let e1 = record (clock_read e) { ticks = count_up e.ticks } in
      let kept =
        Keeps-trans (Keeps-same e e1 (refl, refl, refl, refl, refl) (refl, refl))
          (drain_inbox-Keeps fl w e1) in
      elim (compose_tick-Returns fl w (clock_now w e) (drain_inbox fl w e1) (kept.valid valid)) [
        | inl (composed, found) ↦
            inl (finish_tick fl w (clock_now w e) e1.ticks composed.1 composed.0, ground arith)
        | inr (panics, none_left) ↦ inr (panics, ground arith)
      ]

  pub tick-Runs :
      (e : Engine F)
      → Running w v e
      → ((p : Engine F × Option RunError) × (tick fl w e ≡ some p) × Outcome w v p)
        ⊎ TickPanics fl w e × (tick fl w e ≡ none)
  tick-Runs e r = elim (tick-Returns e r.valid) [
    | inl (p, h) ↦ inl (p, h, tick-Outcome fl w v fit e r h)
    | inr panics ↦ inr panics
  ]

  run_loop-Returns :
      (rounds : List (List (Command F))) (e : Engine F)
      → Running w v e
      → Returns (run_loop fl w rounds e)
        ⊎ LoopPanics fl w rounds e × (run_loop fl w rounds e ≡ none)
  unfolding run_loop
  run_loop-Returns [] e r = inl (some-Returns (e, none))
  run_loop-Returns (sent ∷ rest) e r =
      let e1 = send_all fl w sent e in
      elim (tick-Runs e1 (Running-Keeps w v (send_all-Keeps fl w v fit sent e) r)) [
        | inr (panics, none_left) ↦ inr (inl panics, rw none_left refl)
        | inl ((q, some error), ticked, outcome) ↦ inl ((q, some error), rw ticked refl)
        | inl ((q, none), ticked, outcome) ↦ elim (run_loop-Returns rest q outcome) [
          | inl (p, looped) ↦ inl (p, rw (ticked, looped) refl)
          | inr (panics, none_left) ↦ inr (inr (q, ticked, panics), rw (ticked, none_left) refl)
        ]
      ]

  -- From a running engine, whatever commands arrive before each tick: the loop panics only in a tick
  -- in which a live behavior's own `Contribute` panics. Without such a tick it leaves a running engine
  -- whose every written pose is complete, or it stopped because the last `max_errors` writes failed in
  -- a row.
  pub run_loop-Runs :
      (rounds : List (List (Command F))) (e : Engine F)
      → Running w v e
      → ((p : Engine F × Option RunError) × (run_loop fl w rounds e ≡ some p) × Outcome w v p)
        ⊎ LoopPanics fl w rounds e × (run_loop fl w rounds e ≡ none)
  run_loop-Runs rounds e r = elim (run_loop-Returns rounds e r) [
    | inl (p, h) ↦ inl (p, h, run_loop-Outcome fl w v fit rounds e r h)
    | inr panics ↦ inr panics
  ]
