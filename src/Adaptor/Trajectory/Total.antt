-- ===== src/Adaptor/Trajectory/Total.antt =====
-- What `compile` guarantees of a trajectory, and that sampling it is then total.
use neurosymbolic_system.Base.{
  ℕ, zero, suc, ◌≡◌, refl, Bool, Option, none, some, List, [], ◌∷◌, length, All, Floats, ok, arith,
}
use neurosymbolic_system.Adaptor.Trajectory.{
  EasingKind, Keyframe, Easing, Trajectory, linear, ease_in_out, hold, undeclared_kind, lerp,
  between, scan, last_frame, sample_keyframes, eased, sample_easing, sample, check_values,
  compile_easing, check_frames, compile_keyframes, compile_shape, compile,
}

-- One shape, an easing or keyframes, and every value that a sample is made from has the width of the
-- channel.
abbrev pub Fits : {F : Type 0} → ℕ → Option (Easing F) → List (Keyframe F) → Type 0
Fits n (some e) [] = (length e.from ≡ n) × (length e.to ≡ n)
Fits n (some e) (_ ∷ _) = ⊥
Fits n none [] = ⊥
Fits n none (a ∷ rest) = All (λ frame. length frame.value ≡ n) (a ∷ rest)

abbrev pub WellShaped : {F : Type 0} → Trajectory F → Type 0
WellShaped tr = Fits tr.arity tr.easing tr.keyframes

-- A sample exists, and has the width.
abbrev pub Sampled : {F : Type 0} → ℕ → Option (List F) → Type 0
Sampled n none = ⊥
Sampled n (some values) = length values ≡ n

module _ (fl : Floats) where
  open fl use {F, f_lt, f_le}

  check_values-length :
      (n : ℕ) (values : List F) {u : Unit {0}} → check_values fl n values ≡ ok u → length values ≡ n
  unfolding check_values
  check_values-length n values h = ground arith

  check_frames-All :
      (n : ℕ) (previous : Option F) (frames : List (Keyframe F)) {u : Unit {0}}
      → check_frames fl n previous frames ≡ ok u
      → All (λ frame. length frame.value ≡ n) frames
  unfolding check_frames
  check_frames-All n previous [] h = tt
  check_frames-All n previous (frame ∷ rest) h =
      ground (arith, check_values-length n frame.value, check_frames-All n (some frame.t) rest)

  compile_shape-WellShaped :
      (tr : Trajectory F) (e : Option (Easing F)) (frames : List (Keyframe F)) {tr' : Trajectory F}
      → compile_shape fl tr tr.arity e frames ≡ ok tr'
      → (d : F) × Fits tr.arity e frames × (tr' ≡ record tr { duration = d })
  unfolding compile_shape compile_easing compile_keyframes
  compile_shape-WellShaped tr (some e) (_ ∷ _) h = cc
  compile_shape-WellShaped tr none [] h = cc
  compile_shape-WellShaped tr (some e) [] h = (
    e.duration_s,
    ground (arith, check_values-length tr.arity e.from, check_values-length tr.arity e.to),
    ground arith,
  )
  compile_shape-WellShaped tr none (frame ∷ rest) h = (
    (last_frame fl frame rest).t,
    ground (arith, check_frames-All tr.arity none (frame ∷ rest)),
    ground arith,
  )

  -- A trajectory that compiles has exactly one shape, an easing or keyframes, every sample of which has
  -- the arity asked for.
  pub compile-WellShaped :
      (tr : Trajectory F) (action_loops : Bool) (n : ℕ) {tr' : Trajectory F}
      → compile fl tr action_loops n ≡ ok tr'
      → WellShaped tr' × (tr'.arity ≡ n)
  unfolding compile
  compile-WellShaped tr action_loops n h =
      let (d, fits, e) = compile_shape-WellShaped _ tr.easing tr.keyframes h in rw e (fits, refl)

  lerp-Sampled :
      (n : ℕ) (from to : List F) (u : F)
      → length from ≡ n
      → length to ≡ n
      → Sampled n (lerp fl from to u)
  unfolding lerp
  lerp-Sampled n [] to u p q = p
  lerp-Sampled n (a ∷ from) [] u p q = absurd (omega arith)
  lerp-Sampled zero (a ∷ from) (b ∷ to) u p q = absurd (omega arith)
  lerp-Sampled (suc n) (a ∷ from) (b ∷ to) u p q = ground (arith, lerp-Sampled n from to u)

  scan-Sampled :
      (n : ℕ) (t : F) (a : Keyframe F) (rest : List (Keyframe F))
      → All (λ frame. length frame.value ≡ n) (a ∷ rest)
      → Sampled n (scan fl t a rest)
  unfolding scan between
  scan-Sampled n t a [] h = h.0
  scan-Sampled n t a (b ∷ rest) h = ground (
    arith,
    lerp-Sampled n a.value b.value (fl.f_div (fl.f_sub t a.t) (fl.f_sub b.t a.t)),
    scan-Sampled n t b rest,
  )

  last_frame-length :
      (n : ℕ) (a : Keyframe F) (rest : List (Keyframe F))
      → All (λ frame. length frame.value ≡ n) (a ∷ rest)
      → length (last_frame fl a rest).value ≡ n
  unfolding last_frame
  last_frame-length n a [] h = h.0
  last_frame-length n a (b ∷ rest) h = last_frame-length n b rest h.1

  sample_keyframes-Sampled :
      (n : ℕ) (frames : List (Keyframe F)) (t : F)
      → Fits n none frames
      → Sampled n (sample_keyframes fl frames t)
  unfolding sample_keyframes
  sample_keyframes-Sampled n [] t h = h
  sample_keyframes-Sampled n (a ∷ rest) t h =
      ground (arith, last_frame-length n a rest h, scan-Sampled n t a rest h)

  eased-Sampled :
      (n : ℕ) (kind : EasingKind) (e : Easing F) (u : F)
      → length e.from ≡ n
      → length e.to ≡ n
      → Sampled n (eased fl kind e u)
  unfolding eased
  eased-Sampled n hold e u p q = p
  eased-Sampled n ease_in_out e u p q = lerp-Sampled n e.from e.to _ p q
  eased-Sampled n linear e u p q = lerp-Sampled n e.from e.to u p q
  eased-Sampled n (undeclared_kind _) e u p q = lerp-Sampled n e.from e.to u p q

  sample_easing-Sampled :
      (n : ℕ) (e : Easing F) (t : F)
      → length e.from ≡ n
      → length e.to ≡ n
      → Sampled n (sample_easing fl e t)
  unfolding sample_easing
  sample_easing-Sampled n e t p q =
      ground (arith, eased-Sampled n e.kind e (fl.f_div t e.duration_s) p q)

  at_shape :
      (n : ℕ) (e : Option (Easing F)) (frames : List (Keyframe F)) (t : F)
      → Fits n e frames
      → Sampled n (elim e [ some e ↦ sample_easing fl e t | none ↦ sample_keyframes fl frames t ])
  at_shape n (some e) [] t h = sample_easing-Sampled n e t h.0 h.1
  at_shape n (some e) (_ ∷ _) t h = absurd h
  at_shape n none frames t h = sample_keyframes-Sampled n frames t h

  -- Sampling a well-shaped trajectory never panics, at any time, and gives as many values as its arity.
  pub sample-Sampled :
      (tr : Trajectory F) (t : F) → WellShaped tr → Sampled tr.arity (sample fl tr t)
  unfolding sample
  sample-Sampled tr t h = at_shape tr.arity tr.easing tr.keyframes _ h
