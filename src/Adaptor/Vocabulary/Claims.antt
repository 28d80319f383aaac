-- ===== src/Adaptor/Vocabulary/Claims.antt =====
-- What the actions of a vocabulary that is not refused satisfy.
use neurosymbolic_system.Base.{
  ℕ, ◌≡◌, ◌≢◌, refl, ◌∙◌, inl, inr, Bool, true, false, Option, none, some, List, [], ◌∷◌, Text,
  ◌==◌, mem, any, All, All-map, All_any, Distinct, GoMap, lookup, insert, lookup-insert, Floats, ok,
  is_some, Result-cases, arith,
}
use neurosymbolic_system.Adaptor.Trajectory.{Trajectory, compile}
use neurosymbolic_system.Adaptor.Trajectory.Total.{WellShaped, compile-WellShaped}
use neurosymbolic_system.Adaptor.Vocabulary.{
  Channel, Action, check_claims, validate_claims, check_keys, compile_claim, compile_claims,
  arity_of, validate_action, validate_actions,
}

module _ (fl : Floats) where
  open fl use {F}

  -- the compiled trajectory of a claimed channel
  abbrev pub Compiled : ℕ → Option (Option (Trajectory F)) → Type 0
  Compiled n none = ⊥
  Compiled n (some none) = ⊥
  Compiled n (some (some tr)) = WellShaped tr × (tr.arity ≡ n)

  compile_claim-fit :
      (m : GoMap (Channel F)) (loops : Bool) (ch : Text) (o : Option (Option (Trajectory F)))
      {tr : Trajectory F}
      → compile_claim fl m loops ch o ≡ ok tr
      → WellShaped tr × (tr.arity ≡ arity_of fl m ch)
  unfolding compile_claim
  compile_claim-fit m loops ch none h = absurd (ground arith)
  compile_claim-fit m loops ch (some none) h = absurd (ground arith)
  compile_claim-fit m loops ch (some (some tr0)) {tr} h =
      let compiled : compile fl tr0 loops (arity_of fl m ch) ≡ ok tr = ground arith in
      compile-WellShaped fl tr0 loops (arity_of fl m ch) compiled

  compile_claims-fit :
      (m : GoMap (Channel F)) (loops : Bool) (claims : List Text)
      (from : GoMap (Option (Trajectory F))) {to : GoMap (Option (Trajectory F))}
      → Distinct claims
      → compile_claims fl m loops claims from ≡ ok to
      → All (λ ch. Compiled (arity_of fl m ch) (lookup ch to)) claims
        × ((k : Text) → mem k claims ≡ false → lookup k to ≡ lookup k from)
  unfolding compile_claims mem any
  compile_claims-fit m loops [] from d h = (tt, λ k out. ground arith)
  compile_claims-fit m loops (ch ∷ rest) from {to} d h =
      elim (Result-cases (compile_claim fl m loops ch (lookup ch from))) [
        | inr (e, q) ↦ absurd (ground arith)
        | inl (tr, q) ↦
            let next : compile_claims fl m loops rest (insert ch (some tr) from) ≡ ok to =
              ground arith in
            let later = compile_claims-fit m loops rest (insert ch (some tr) from) d.1 next in
            let here : lookup ch to ≡ some (some tr) =
              later.1 ch d.0 ∙ (lookup-insert ch ch (some tr) from ∙ ground arith) in
            (
              (rw here (compile_claim-fit m loops ch (lookup ch from) q), later.0),
              λ k out.
                  later.1 k (ground arith) ∙ (lookup-insert ch k (some tr) from ∙ ground arith),
            )
      ]

  check_keys-claimed :
      (m : GoMap (Channel F)) (claims : List Text) (trajectories : GoMap (Option (Trajectory F)))
      {u : Unit {0}} (k : Text)
      → check_keys fl m claims trajectories ≡ ok u
      → mem k claims ≡ false
      → lookup k trajectories ≡ none
  unfolding check_keys lookup
  check_keys-claimed m claims [] k h out = refl
  check_keys-claimed m claims ((ch, tr) ∷ rest) k h out =
      ground (arith, check_keys-claimed m claims rest k)

  claims-cons :
      (m : GoMap (Channel F)) (seen : List Text) (ch : Text) (rest : List Text)
      → is_some (lookup ch m) ≡ true
      → mem ch seen ≡ false
      → Distinct rest × All (λ x. (is_some (lookup x m) ≡ true) × (mem x (ch ∷ seen) ≡ false)) rest
      → Distinct (ch ∷ rest)
        × All (λ x. (is_some (lookup x m) ≡ true) × (mem x seen ≡ false)) (ch ∷ rest)
  unfolding mem any
  claims-cons m seen ch rest p q later = (
    (All_any (λ x. ch == x) rest (All-map (λ x h. ground arith) rest later.1), later.0),
    ((p, q), All-map (λ x h. (h.0, ground arith)) rest later.1),
  )

  check_claims-fit :
      (m : GoMap (Channel F)) (seen claims : List Text) {u : Unit {0}}
      → check_claims fl m seen claims ≡ ok u
      → Distinct claims × All (λ x. (is_some (lookup x m) ≡ true) × (mem x seen ≡ false)) claims
  unfolding check_claims
  check_claims-fit m seen [] h = (tt, tt)
  check_claims-fit m seen (ch ∷ rest) h =
      let later : check_claims fl m (ch ∷ seen) rest ≡ ok tt = ground arith in
      claims-cons m seen ch rest (ground arith) (ground arith)
        (check_claims-fit m (ch ∷ seen) rest later)

  -- An action claims channels that are declared, none twice and at least one; each of its claims has
  -- a compiled trajectory of the channel's arity, and it has no other trajectory.
  pub record ActionFit (m : GoMap (Channel F)) (a : Action F) : Type 0 where
    pub claims_some : a.claims ≢ []
    pub claims_distinct : Distinct a.claims
    pub claims_declared : All (λ ch. is_some (lookup ch m) ≡ true) a.claims
    pub claims_compiled :
        All (λ ch. Compiled (arity_of fl m ch) (lookup ch a.trajectories)) a.claims
    pub nothing_else : (k : Text) → mem k a.claims ≡ false → lookup k a.trajectories ≡ none

  validate_claims-fit :
      (m : GoMap (Channel F)) (claims : List Text) {u : Unit {0}}
      → validate_claims fl m claims ≡ ok u
      → (claims ≢ []) × Distinct claims × All (λ ch. is_some (lookup ch m) ≡ true) claims
  unfolding validate_claims
  validate_claims-fit m [] h = absurd (ground arith)
  validate_claims-fit m (ch ∷ rest) h =
      let (distinct, all) = check_claims-fit m [] (ch ∷ rest) h in
      ((λ e. ground arith), distinct, All-map (λ x k. k.0) (ch ∷ rest) all)

  validate_action-fit :
      (m : GoMap (Channel F)) (by_name : GoMap (Action F)) (a : Action F) {a' : Action F}
      → validate_action fl m by_name a ≡ ok a'
      → ActionFit m a'
  unfolding validate_action
  validate_action-fit m by_name a {a'} h =
      let claimed : validate_claims fl m a.claims ≡ ok tt = ground arith in
      let keyed : check_keys fl m a.claims a.trajectories ≡ ok tt = ground arith in
      let (nonempty, distinct, declared) = validate_claims-fit m a.claims claimed in
      elim (Result-cases (compile_claims fl m a.loops a.claims a.trajectories)) [
        | inr (e, q) ↦ absurd (ground arith)
        | inl (to, q) ↦
            let same : a' ≡ record a { trajectories = to } = ground arith in
            let (compiled, outside) =
              compile_claims-fit m a.loops a.claims a.trajectories distinct q in
            rw same (record {
              claims_some = nonempty;
              claims_distinct = distinct;
              claims_declared = declared;
              claims_compiled = compiled;
              nothing_else =
                  λ k out. outside k out ∙ check_keys-claimed m a.claims a.trajectories k keyed out;
            })
      ]

  pub validate_actions-fit :
      (m : GoMap (Channel F)) (by_name : GoMap (Action F)) (rest : List (Action F))
      {r : List (Action F) × GoMap (Action F)}
      → validate_actions fl m by_name rest ≡ ok r
      → All (ActionFit m) r.0
  unfolding validate_actions
  validate_actions-fit m by_name [] {r} h =
      let same : r ≡ ([], by_name) = ground arith in rw same tt
  validate_actions-fit m by_name (a ∷ rest) {r} h =
      elim (Result-cases (validate_action fl m by_name a)) [
        | inr (e, q) ↦ absurd (ground arith)
        | inl (a', q) ↦
            elim (Result-cases (validate_actions fl m (insert a'.name a' by_name) rest)) [
              | inr (e, p) ↦ absurd (ground arith)
              | inl (r', p) ↦
                  let same : r ≡ (a' ∷ r'.0, r'.1) = ground arith in
                  rw same (
                    validate_action-fit m by_name a q,
                    validate_actions-fit m (insert a'.name a' by_name) rest p,
                  )
            ]
      ]
