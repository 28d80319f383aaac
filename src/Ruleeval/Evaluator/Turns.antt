-- ===== src/Ruleeval/Evaluator/Turns.antt =====
-- internal/ruleeval/eval.go: one turn of a rule, in `runInhibit` or `fireReact`, and the `rule.fire`
-- events of it.
use neurosymbolic_system.Base.{
  ℕ, ◌+◌, ◌≡◌, refl, Bool, true, false, not, List, [], ◌∷◌, ◌⊎◌, inl, inr, Text, ◌==◌,
  if◌then◌else◌, mem, insert, GoMap, ap, ◌∙◌, text_discrete, Time, Floats, Result, arith,
}
use neurosymbolic_system.Tick.Arbitration.{AdmitResult}
use neurosymbolic_system.Tick.Engine.State.{AdmitError, Event}
use neurosymbolic_system.Rules.Model.{Rule}
use neurosymbolic_system.Ruleeval.Timing.{
  Reason, fired, cooldown, rearming, RuleState, step_arming, cooling, fire_reason, mark_fired,
}
use neurosymbolic_system.Ruleeval.Ask.{Ask, done, crash, admit, evict, names, emit, bind}
use neurosymbolic_system.Ruleeval.Registry.{Request, blocks, request_id}
use neurosymbolic_system.Ruleeval.Evaluator.{Evaluator, RuleEntry, Episode}
use neurosymbolic_system.Ruleeval.Evaluator.Admission.{Admission, turned_down, admitted, ask_admit}
use neurosymbolic_system.Ruleeval.Evaluator.Rules.{
  event_fire, suppress, release, put_entry, evict_all, fire_rule, gate, open_gate, inhibit_judged,
  inhibit_step, settle_fire, gate_react, react_judged, react_step,
}

abbrev pub counted : Event → ℕ → ℕ
counted event n = if event.name == event_fire.name then n + 1 else n

-- Whatever the answers are, the code ends, and `Q` holds of its value and of how many `rule.fire`
-- events it has emitted, beside the `n` before it.
unfoldable pub Tracks : {F A : Type 0} → (ℕ → A → Type 0) → ℕ → Ask F A → Type 0
Tracks Q n (done a) = Q n a
Tracks Q n crash = ⊥
Tracks Q n (admit b k) = (r : Result AdmitError AdmitResult) → Tracks Q n (k r)
Tracks Q n (evict name k) = (removed : ℕ) → Tracks Q n (k removed)
Tracks Q n (names k) = (active : List Text) → Tracks Q n (k active)
Tracks Q n (emit event m) = Tracks Q (counted event n) m

-- With some answers, the code ends with this value and this number of `rule.fire` events.
unfoldable pub Ends : {F A : Type 0} → ℕ → Ask F A → ℕ → A → Type 0
Ends n (done a) m x = (n ≡ m) × (a ≡ x)
Ends n crash m x = ⊥
Ends n (admit b k) m x = (r : Result AdmitError AdmitResult) × Ends n (k r) m x
Ends n (evict name k) m x = (removed : ℕ) × Ends n (k removed) m x
Ends n (names k) m x = (active : List Text) × Ends n (k active) m x
Ends n (emit event code) m x = Ends (counted event n) code m x

pub Tracks-Ends :
    {F A : Type 0} (Q : ℕ → A → Type 0) (n : ℕ) (code : Ask F A) (m : ℕ) (x : A)
    → Tracks Q n code
    → Ends n code m x
    → Q m x
unfolding Tracks Ends
Tracks-Ends Q n (done a) m x h e = rw (← e.0, ← e.1) h
Tracks-Ends Q n crash m x h e = absurd h
Tracks-Ends Q n (admit b k) m x h e = Tracks-Ends Q n (k e.0) m x (h e.0) e.1
Tracks-Ends Q n (evict name k) m x h e = Tracks-Ends Q n (k e.0) m x (h e.0) e.1
Tracks-Ends Q n (names k) m x h e = Tracks-Ends Q n (k e.0) m x (h e.0) e.1
Tracks-Ends Q n (emit event code) m x h e = Tracks-Ends Q (counted event n) code m x h e

pub Tracks-bind :
    {F A B : Type 0} (Q : ℕ → B → Type 0) (n : ℕ) (code : Ask F A) (next : A → Ask F B)
    → Tracks (λ m a. Tracks Q m (next a)) n code
    → Tracks Q n (bind code next)
unfolding Tracks bind
Tracks-bind Q n (done a) next h = h
Tracks-bind Q n crash next h = h
Tracks-bind Q n (admit b k) next h = λ r. Tracks-bind Q n (k r) next (h r)
Tracks-bind Q n (evict name k) next h = λ r. Tracks-bind Q n (k r) next (h r)
Tracks-bind Q n (names k) next h = λ r. Tracks-bind Q n (k r) next (h r)
Tracks-bind Q n (emit event code) next h = Tracks-bind Q (counted event n) code next h

Tracks-if :
    {F A : Type 0} (Q : ℕ → A → Type 0) (n : ℕ) (b : Bool) (x y : Ask F A)
    → (b ≡ true → Tracks Q n x)
    → (b ≡ false → Tracks Q n y)
    → Tracks Q n (if b then x else y)
Tracks-if Q n true x y h k = h refl
Tracks-if Q n false x y h k = k refl

suppress-Tracks :
    {F A : Type 0} (Q : ℕ → A → Type 0) (n : ℕ) (reason : Text) (ep : Episode)
    (next : Episode → Ask F A)
    → ((ep' : Episode) → Tracks Q n (next ep'))
    → Tracks Q n (suppress reason ep next)
unfolding suppress Tracks text_discrete
suppress-Tracks Q n reason ep next h =
    Tracks-if Q n (reason == ep.reason) _ _ (λ same. h _) (λ other. h _)

release-Tracks :
    {F A : Type 0} (Q : ℕ → A → Type 0) (n : ℕ) (ep : Episode) (next : Episode → Ask F A)
    → ((ep' : Episode) → Tracks Q n (next ep'))
    → Tracks Q n (release ep next)
unfolding release Tracks text_discrete
release-Tracks Q n ep next h = Tracks-if Q n (ep.reason == []) _ _ (λ none. h _) (λ some. h _)

module _ (fl : Floats) (error_text : AdmitError → Text) where
  open fl use {F}

  evict_all-Tracks :
      {A : Type 0} (Q : ℕ → A → Type 0) (n : ℕ) (disable : List Text) (next : Ask F A)
      → Tracks Q n next
      → Tracks Q n (evict_all fl error_text disable next)
  unfolding evict_all Tracks
  evict_all-Tracks Q n [] next h = h
  evict_all-Tracks Q n (name ∷ rest) next h = λ removed. evict_all-Tracks Q n rest next h

  ask_admit-Tracks :
      (Q : ℕ → Evaluator F × Admission → Type 0) (n : ℕ) (by_rules : List Text) (req : Request F)
      (e : Evaluator F)
      → ((p : Evaluator F × Admission) → p.0.states ≡ e.states → Q n p)
      → Tracks Q n (ask_admit fl by_rules req e)
  unfolding ask_admit request_id Tracks
  ask_admit-Tracks Q n by_rules req e h =
      Tracks-if Q n (blocks e.registry by_rules _ req.action) _ _ (λ blocked. h _ refl)
        (λ free. λ r. h _ refl)

  -- What a turn leaves of a rule that had this timing, and of the states: only the rule's own entry is
  -- replaced. A turn without a `rule.fire` only steps the
  -- arming; with one, which is then the only one, the rule matched, was armed and was past its cooldown,
  -- and its timing is that of a fire now.
  abbrev pub Turned : Rule F → RuleState → Bool → Time → GoMap RuleEntry → ℕ → Evaluator F → Type 0
  Turned rule timing matched now states n e =
      let stepped = step_arming fl rule timing matched now in
      (next : RuleEntry) × (e.states ≡ insert rule.id next states)
      × ((n ≡ 0) × (next.timing ≡ stepped)
          ⊎ (n ≡ 1)
            × (matched ≡ true)
            × (stepped.armed ≡ true)
            × (cooling fl rule stepped.last_fire now ≡ false)
            × (next.timing ≡ mark_fired fl rule stepped now))

  put_entry-states :
      (rule : Rule F) (entry : RuleEntry) (e : Evaluator F) (states : GoMap RuleEntry)
      → e.states ≡ states
      → (put_entry fl error_text rule entry e).states ≡ insert rule.id entry states
  unfolding put_entry
  put_entry-states rule entry e states kept = ap (insert rule.id entry) kept

  fire_reason-fired :
      (rule : Rule F) (timing : RuleState) (now : Time)
      → fire_reason fl rule timing now ≡ fired
      → (timing.armed ≡ true) × (cooling fl rule timing.last_fire now ≡ false)
  unfolding fire_reason
  fire_reason-fired rule timing now h = (ground arith, ground arith)

  module _ (rule : Rule F) (entry : RuleEntry) (matched : Bool) (now : Time)
      (states : GoMap RuleEntry) where
    abbrev stepped : RuleEntry
    stepped = record entry { timing = step_arming fl rule entry.timing matched now }

    abbrev After : ℕ → Evaluator F → Type 0
    After = Turned rule entry.timing matched now states

    quiet-After :
        (ep : Episode) (e : Evaluator F)
        → e.states ≡ states
        → After 0 (put_entry fl error_text rule (record stepped { episode = ep }) e)
    quiet-After ep e kept =
        (record stepped { episode = ep }, put_entry-states rule _ e states kept, inl (refl, refl))

    gate-Tracks :
        (reason : Text) (e : Evaluator F)
        → e.states ≡ states
        → Tracks After 0 (gate fl error_text rule stepped reason e)
    unfolding gate Tracks
    gate-Tracks reason e kept = suppress-Tracks After 0 reason _ _ (λ ep. quiet-After ep e kept)

    closed-Tracks :
        {A : Type 0} (Q : ℕ → A → Type 0) (next : RuleEntry → Ask F A)
        → ((ep : Episode) → Tracks Q 0 (next (record stepped { episode = ep })))
        → Tracks Q 0 (open_gate fl error_text stepped next)
    unfolding open_gate
    closed-Tracks Q next h = release-Tracks Q 0 _ _ (λ ep. h ep)

    -- the rule may fire now
    abbrev May : Type 0
    May =
        (matched ≡ true)
        × (stepped.timing.armed ≡ true)
        × (cooling fl rule stepped.timing.last_fire now ≡ false)

    fire_rule-Tracks :
        (ep : Episode) (e : Evaluator F)
        → e.states ≡ states
        → May
        → Tracks After 0 (fire_rule fl error_text rule (record stepped { episode = ep }) now e)
    unfolding fire_rule Tracks text_discrete
    fire_rule-Tracks ep e kept may =
        (_, put_entry-states rule _ e states kept, inr (refl, may.0, may.1, may.2, refl))

    inhibit_judged-Tracks :
        (reason : Reason) (e : Evaluator F)
        → e.states ≡ states
        → (reason ≡ fired → May)
        → Tracks After 0 (inhibit_judged fl error_text rule stepped reason now e)
    unfolding inhibit_judged
    inhibit_judged-Tracks rearming e kept h = gate-Tracks _ e kept
    inhibit_judged-Tracks cooldown e kept h = gate-Tracks _ e kept
    inhibit_judged-Tracks fired e kept h =
        closed-Tracks After _
          (λ ep. evict_all-Tracks After 0 rule.disable _ (fire_rule-Tracks ep e kept (h refl)))

    -- A turn of an inhibit rule, whatever the engine answers.
    pub inhibit_step-Turned :
        (e : Evaluator F)
        → e.states ≡ states
        → Tracks After 0 (inhibit_step fl error_text rule entry matched now e)
    unfolding inhibit_step Tracks
    inhibit_step-Turned e kept =
        Tracks-if After 0 (not matched) _ _
          (λ idle. closed-Tracks After _ (λ ep. quiet-After ep e kept))
          (λ active. inhibit_judged-Tracks (fire_reason fl rule stepped.timing now) e kept (λ may.
            let (armed, cold) = fire_reason-fired rule stepped.timing now may in
            (ground arith, armed, cold)))

    abbrev AfterReact : ℕ → Evaluator F × Bool → Type 0
    AfterReact n p = After n p.0

    gate_react-Tracks :
        (reason : Text) (e : Evaluator F)
        → e.states ≡ states
        → Tracks AfterReact 0 (gate_react fl error_text rule stepped reason e)
    unfolding gate_react Tracks
    gate_react-Tracks reason e kept = Tracks-bind AfterReact 0 _ _ (gate-Tracks reason e kept)

    settle_fire-Tracks :
        (p : Evaluator F × Admission)
        → p.0.states ≡ states
        → May
        → Tracks AfterReact 0 (settle_fire fl error_text rule stepped now p)
    unfolding settle_fire Tracks
    settle_fire-Tracks (e, turned_down refusal) kept may =
        Tracks-bind AfterReact 0 _ _ (gate-Tracks _ e kept)
    settle_fire-Tracks (e, admitted result) kept may =
        closed-Tracks AfterReact _
          (λ ep. Tracks-bind AfterReact 0 _ _ (fire_rule-Tracks ep e kept may))

    react_judged-Tracks :
        (by_rules active : List Text) (reason : Reason) (e : Evaluator F)
        → e.states ≡ states
        → (reason ≡ fired → May)
        → Tracks AfterReact 0 (react_judged fl error_text by_rules active rule stepped reason now e)
    unfolding react_judged
    react_judged-Tracks by_rules active rearming e kept h = gate_react-Tracks _ e kept
    react_judged-Tracks by_rules active cooldown e kept h = gate_react-Tracks _ e kept
    react_judged-Tracks by_rules active fired e kept h =
        Tracks-if AfterReact 0 (mem rule.run active) _ _ (λ there. gate_react-Tracks _ e kept)
          (λ gone. Tracks-bind AfterReact 0 (ask_admit fl by_rules _ e) _ (
            ask_admit-Tracks _ 0 by_rules _ e
              (λ p same. settle_fire-Tracks p (same ∙ kept) (h refl))))

    -- A turn of a react rule, whatever the engine answers.
    pub react_step-Turned :
        (by_rules active : List Text) (e : Evaluator F)
        → e.states ≡ states
        → Tracks AfterReact 0 (react_step fl error_text by_rules active rule entry matched now e)
    unfolding react_step Tracks
    react_step-Turned by_rules active e kept =
        Tracks-if AfterReact 0 (not matched) _ _
          (λ idle. closed-Tracks AfterReact _ (λ ep. quiet-After ep e kept))
          (λ matches.
            Tracks-if AfterReact 0 (blocks e.registry by_rules rule.run rule.run) _ _
              (λ blocked. gate_react-Tracks _ e kept)
              (λ free.
                react_judged-Tracks by_rules active (fire_reason fl rule stepped.timing now) e kept
                  (λ may.
                    let (armed, cold) = fire_reason-fired rule stepped.timing now may in
                    (ground arith, armed, cold))))
