-- ===== src/Adaptor/Trajectory.antt =====
-- internal/adaptor/trajectory.go. Sampling returns `none` where the Go code would panic on an index
-- out of range; the refusals of `compile` are values.
pub mod Total
use neurosymbolic_system.Base.{
  ℕ, Bool, true, false, not, ◌&&◌, ◌||◌, Option, none, some, List, [], ◌∷◌, Text, if◌then◌else◌,
  eqb, length, Floats, is_finite, Result, ok, err, ◌>>◌, refuse_if,
}
use mathlib.Core.Option

pub data EasingKind : Type 0 where
  linear ease_in_out hold : EasingKind
  undeclared_kind : Text → EasingKind

pub record Keyframe (F : Type 0) : Type 0 where
  pub t : F
  pub value : List F

pub record Easing (F : Type 0) : Type 0 where
  pub kind : EasingKind
  pub from : List F
  pub to : List F
  pub duration_s : F

pub record Trajectory (F : Type 0) : Type 0 where
  pub keyframes : List (Keyframe F)
  pub easing : Option (Easing F)
  pub loops : Bool
  pub duration : F
  pub arity : ℕ

pub data TrajectoryError : Type 0 where
  both_shapes no_shape bad_kind wrong_arity not_finite bad_duration first_not_zero bad_time
        goes_back :
      TrajectoryError

unfoldable pub is_valid_easing_kind : EasingKind → Bool
is_valid_easing_kind (undeclared_kind _) = false
is_valid_easing_kind _ = true

module _ (fl : Floats) where
  open fl use {
    F, f_zero, f_half, f_one, f_pi, f_add, f_sub, f_mul, f_div, f_mod, f_cos, f_lt, f_le, f_eq,
    is_nan, seconds,
  }

  unfoldable pub lerp : List F → List F → F → Option (List F)
  lerp [] to u = some []
  lerp (a ∷ from) [] u = none
  lerp (a ∷ from) (b ∷ to) u =
      Option.map (λ out. f_add a (f_mul (f_sub b a) u) ∷ out) (lerp from to u)

  -- one round of the loop of `sampleKeyframes`, at the frames `a` and `b`
  unfoldable pub between : F → Keyframe F → Keyframe F → Option (List F)
  between t a b =
      let span = f_sub b.t a.t in
      if f_le span f_zero then some b.value else lerp a.value b.value (f_div (f_sub t a.t) span)

  unfoldable pub scan : F → Keyframe F → List (Keyframe F) → Option (List F)
  scan t a [] = some a.value
  scan t a (b ∷ rest) =
      let later = scan t b rest in
      if f_lt t a.t then some a.value else if f_lt t b.t then between t a b else later

  unfoldable pub last_frame : Keyframe F → List (Keyframe F) → Keyframe F
  last_frame a [] = a
  last_frame a (b ∷ rest) = last_frame b rest

  unfoldable pub sample_keyframes : List (Keyframe F) → F → Option (List F)
  sample_keyframes [] t = none
  sample_keyframes (a ∷ rest) t =
      let last = last_frame a rest in if f_le last.t t then some last.value else scan t a rest

  -- the `switch` of `sampleEasing`, at the fraction `u` of the duration
  unfoldable pub eased : EasingKind → Easing F → F → Option (List F)
  eased hold e u = some e.from
  eased ease_in_out e u = lerp e.from e.to (f_mul f_half (f_sub f_one (f_cos (f_mul f_pi u))))
  eased linear e u = lerp e.from e.to u
  eased (undeclared_kind _) e u = lerp e.from e.to u

  unfoldable pub sample_easing : Easing F → F → Option (List F)
  sample_easing e t =
      if f_le e.duration_s t then some e.to else eased e.kind e (f_div t e.duration_s)

  -- the time at which `At` samples: NaN is the start, a loop wraps, nothing is before the start
  unfoldable pub local_sample_time : Trajectory F → F → F
  local_sample_time tr t_local =
      let t0 = if is_nan t_local then f_zero else t_local in
      let wrapped = f_mod t0 tr.duration in
      let t1 =
        if tr.loops && f_lt f_zero tr.duration
        then (if f_lt wrapped f_zero then f_add wrapped tr.duration else wrapped)
        else t0 in
      if f_lt t1 f_zero then f_zero else t1

  unfoldable pub sample : Trajectory F → F → Option (List F)
  sample tr t_local =
      let t = local_sample_time tr t_local in
      elim tr.easing [ some e ↦ sample_easing e t | none ↦ sample_keyframes tr.keyframes t ]

  -- the loop over the values of one sample
  unfoldable pub all_finite : List F → Bool
  all_finite [] = true
  all_finite (x ∷ xs) = is_finite fl x && all_finite xs

  unfoldable pub check_values : ℕ → List F → Result TrajectoryError (Unit {0})
  check_values arity values = do
    refuse_if (not (eqb (length values) arity)) wrong_arity
    refuse_if (not (all_finite values)) not_finite

  unfoldable pub compile_easing :
      Trajectory F → ℕ → Easing F → Result TrajectoryError (Trajectory F)
  compile_easing tr arity e = do
    refuse_if (not (is_valid_easing_kind e.kind)) bad_kind
    check_values arity e.from
    check_values arity e.to
    refuse_if (not (is_finite fl e.duration_s) || f_le e.duration_s f_zero) bad_duration
    ok (record tr { duration = e.duration_s })

  -- the loop of `compileKeyframes`; `previous` is `none` while it is -Inf
  unfoldable pub check_frames : ℕ → Option F → List (Keyframe F) → Result TrajectoryError (Unit {0})
  check_frames arity previous [] = ok tt
  check_frames arity previous (frame ∷ rest) =
      let later = check_frames arity (some frame.t) rest in
      do
        refuse_if (not (is_finite fl frame.t) || f_lt frame.t f_zero) bad_time
        refuse_if (elim previous [ none ↦ false | some p ↦ f_lt frame.t p ]) goes_back
        check_values arity frame.value
        later

  unfoldable pub compile_keyframes :
      Trajectory F → ℕ → List (Keyframe F) → Result TrajectoryError (Trajectory F)
  compile_keyframes tr arity [] = err no_shape
  compile_keyframes tr arity (frame ∷ rest) = do
    refuse_if (not (f_eq frame.t f_zero)) first_not_zero
    check_frames arity none (frame ∷ rest)
    ok (record tr { duration = (last_frame frame rest).t })

  unfoldable pub compile_shape :
      Trajectory F
      → ℕ
      → Option (Easing F)
      → List (Keyframe F)
      → Result TrajectoryError (Trajectory F)
  compile_shape tr arity (some e) (_ ∷ _) = err both_shapes
  compile_shape tr arity none [] = err no_shape
  compile_shape tr arity (some e) [] = compile_easing tr arity e
  compile_shape tr arity none (frame ∷ rest) = compile_keyframes tr arity (frame ∷ rest)

  unfoldable pub compile : Trajectory F → Bool → ℕ → Result TrajectoryError (Trajectory F)
  compile tr action_loops arity =
      compile_shape (record tr { loops = action_loops; arity = arity }) arity tr.easing tr.keyframes
