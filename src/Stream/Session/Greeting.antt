-- ===== src/Stream/Session/Greeting.antt =====
-- What a peer of internal/stream/session.go is written, and how much waits for it.
use neurosymbolic_system.Base.{
  ◌-◌, ◌≡◌, refl, sym, ap, ◌∙◌, ℕ, ◌+◌, ◌≤◌, Bool, true, false, not, ◌&&◌, ◌||◌, Option, none, some,
  List, [], ◌∷◌, ◌++◌, Text, ◌==◌, if◌then◌else◌, length, length-append, ltb, eqb, Bool-cases, inl,
  inr, Floats, arith,
}
use neurosymbolic_system.Adaptor.Vocabulary.{Vocabulary}
use neurosymbolic_system.Tick.Behavior.{Behavior}
use neurosymbolic_system.Tick.Engine.State.{Engine, Command}
use neurosymbolic_system.Tick.Engine.Commands as Commands
use neurosymbolic_system.Ruleeval.Predicate.{View}
use neurosymbolic_system.Stream.Session.{
  Session, Outbound, greeting, refused, mgmt_result, telemetry, Queued, Inbound, not_json, frame,
  Body, Step, inbound, telemeter, write_one, mgmt_done, hang_up, shut_down, send, refuse,
  enqueue_frame, write_taken, write_next, handle_hello, handle_sense, send_command, handle_mgmt,
  finish_mgmt, admit_bound, handle_intent, dispatch_kind, dispatch, reader_ended, after_dispatch,
  read_step, step, run_steps, new_session, Intent, Code, max_client_name_bytes, bound_or, intended,
  kind_hello, kind_sense, kind_intent, kind_mgmt, op_admit, op_evict, speaks,
}

abbrev is_greeting : Outbound → Bool
is_greeting greeting = true
is_greeting _ = false

abbrev is_telemetry : Outbound → Bool
is_telemetry (telemetry k) = true
is_telemetry _ = false

-- no telemetry before the greeting
unfoldable pub greets_first : List Outbound → Bool
greets_first [] = true
greets_first (x ∷ rest) = is_greeting x || (not (is_telemetry x) && greets_first rest)

unfoldable pub has_greeting : List Outbound → Bool
has_greeting [] = false
has_greeting (x ∷ rest) = is_greeting x || has_greeting rest

greets_first-append :
    (xs : List Outbound) (x : Outbound)
    → greets_first (xs ++ x ∷ [])
      ≡ (greets_first xs && (has_greeting xs || not (is_telemetry x) || is_greeting x))
unfolding greets_first has_greeting
greets_first-append [] x = ground arith
greets_first-append (y ∷ xs) x = ground (arith, greets_first-append xs x)

has_greeting-append :
    (xs : List Outbound) (x : Outbound)
    → has_greeting (xs ++ x ∷ []) ≡ (has_greeting xs || is_greeting x)
unfolding has_greeting
has_greeting-append [] x = ground arith
has_greeting-append (y ∷ xs) x = ground (arith, has_greeting-append xs x)

abbrev is_idle : List Queued → Bool
is_idle [] = true
is_idle (_ ∷ _) = false

module _ {F : Type 0} where
  -- The greeting comes before telemetry, on the wire and in the queue; the queue and the verbs are bounded.
  pub record Orderly (s : Session F) : Type 0 where
    pub first : greets_first s.wire ≡ true
    pub after_greeting : (not s.subscribed || has_greeting s.wire || not s.peer_up) ≡ true
    pub queue_subscribed : (is_idle s.queue || s.subscribed) ≡ true
    pub queue_bounded : length s.queue ≤ s.capacity
    pub verbs_bounded : s.inflight ≤ s.max_inflight

  Orderly-if :
      (b : Bool) (s t : Session F)
      → (b ≡ true → Orderly s)
      → (b ≡ false → Orderly t)
      → Orderly (if b then s else t)
  Orderly-if true s t h k = h refl
  Orderly-if false s t h k = k refl

  Orderly-either :
      (b : Bool) (p q : Session F × Bool)
      → (b ≡ true → Orderly p.0)
      → (b ≡ false → Orderly q.0)
      → Orderly (if b then p else q).0
  Orderly-either true p q h k = h refl
  Orderly-either false p q h k = k refl

  send-Orderly :
      (out : Outbound) (s : Session F) → is_telemetry out ≡ false → Orderly s → Orderly (send out s)
  unfolding send
  send-Orderly out s plain o = elim (Bool-cases (s.quit || not s.peer_up)) [
    | inl closed ↦ rw closed o
    | inr open_wire ↦ rw open_wire (record {
      first = ground (arith, greets_first-append s.wire out, o.first);
      after_greeting = ground (arith, has_greeting-append s.wire out, o.after_greeting);
      queue_subscribed = o.queue_subscribed;
      queue_bounded = o.queue_bounded;
      verbs_bounded = o.verbs_bounded;
    })
  ]

  refuse-Orderly :
      (code : Code) (id : Text) (s : Session F) → Orderly s → Orderly (refuse code id s)
  refuse-Orderly code id s o = send-Orderly (refused code id) s refl o

  enqueue_frame-Orderly :
      (kind : Text) (fits : Bool) (s : Session F) → Orderly s → Orderly (enqueue_frame kind fits s)
  unfolding enqueue_frame
  enqueue_frame-Orderly kind fits s o = elim (Bool-cases (not s.subscribed || s.quit)) [
    | inl skipped ↦ rw skipped o
    | inr owed ↦ elim (Bool-cases (ltb (length s.queue) s.capacity)) [
      | inr full ↦
          rw (owed, full)
            (record {
              first = o.first;
              after_greeting = o.after_greeting;
              queue_subscribed = o.queue_subscribed;
              queue_bounded = o.queue_bounded;
              verbs_bounded = o.verbs_bounded;
            })
      | inl room ↦
          rw (owed, room)
            (record {
              first = o.first;
              after_greeting = o.after_greeting;
              queue_subscribed = ground arith;
              queue_bounded =
                  ground (arith, length-append s.queue (record { kind = kind; fits = fits } ∷ []));
              verbs_bounded = o.verbs_bounded;
            })
    ]
  ]

  write_taken-Orderly :
      (q : Queued) (rest : List Queued) (s : Session F)
      → s.queue ≡ q ∷ rest
      → Orderly s
      → Orderly (write_taken q rest s)
  unfolding write_taken
  write_taken-Orderly q rest s e o =
      let subscribed : s.subscribed ≡ true =
        ap (λ xs. is_idle xs || s.subscribed) (sym e) ∙ o.queue_subscribed in
      let shorter : length rest ≤ s.capacity = omega (arith, ap length e, o.queue_bounded) in
      elim (Bool-cases q.fits) [
        | inr large ↦ rw large (record {
          first = o.first;
          after_greeting = o.after_greeting;
          queue_subscribed = ground arith;
          queue_bounded = shorter;
          verbs_bounded = o.verbs_bounded;
        })
        | inl fits ↦ elim (Bool-cases s.peer_up) [
          | inr down ↦
              rw (fits, down)
                (record {
                  first = o.first;
                  after_greeting = ground (arith, o.after_greeting);
                  queue_subscribed = ground arith;
                  queue_bounded = shorter;
                  verbs_bounded = o.verbs_bounded;
                })
          | inl up ↦
              let greeted : has_greeting s.wire ≡ true = ground (arith, o.after_greeting) in
              rw (fits, up)
                (record {
                  first = ground (arith, greets_first-append s.wire (telemetry q.kind), o.first);
                  after_greeting = ground (arith, has_greeting-append s.wire (telemetry q.kind));
                  queue_subscribed = ground arith;
                  queue_bounded = shorter;
                  verbs_bounded = o.verbs_bounded;
                })
        ]
      ]

  write_next-Orderly :
      (queue : List Queued) (s : Session F)
      → s.queue ≡ queue
      → Orderly s
      → Orderly (write_next queue s)
  unfolding write_next
  write_next-Orderly [] s e o = o
  write_next-Orderly (q ∷ rest) s e o = write_taken-Orderly q rest s e o

  handle_hello-Orderly :
      (client : Option Text) (s : Session F) → Orderly s → Orderly (handle_hello client s).0
  unfolding handle_hello
  handle_hello-Orderly none s o = refuse-Orderly _ _ s o
  handle_hello-Orderly (some client) s o =
      elim (Bool-cases (ltb max_client_name_bytes (length client))) [
        | inl long ↦ rw long (refuse-Orderly _ _ s o)
        | inr short ↦ elim (Bool-cases s.quit) [
          | inl over ↦
              rw (short, over)
                (record {
                  first = o.first;
                  after_greeting = o.after_greeting;
                  queue_subscribed = o.queue_subscribed;
                  queue_bounded = o.queue_bounded;
                  verbs_bounded = o.verbs_bounded;
                })
          | inr open_session ↦ elim (Bool-cases s.peer_up) [
            | inr down ↦
                rw (short, open_session, down)
                  (record {
                    first = o.first;
                    after_greeting = ground arith;
                    queue_subscribed = ground arith;
                    queue_bounded = o.queue_bounded;
                    verbs_bounded = o.verbs_bounded;
                  })
            | inl up ↦
                rw (short, open_session, up)
                  (record {
                    first = ground (arith, greets_first-append s.wire greeting, o.first);
                    after_greeting = ground (arith, has_greeting-append s.wire greeting);
                    queue_subscribed = ground arith;
                    queue_bounded = o.queue_bounded;
                    verbs_bounded = o.verbs_bounded;
                  })
          ]
        ]
      ]

  handle_sense-Orderly :
      (fields : Option (View F)) (sensed : Option (List (View F))) (s : Session F)
      → Orderly s
      → Orderly (handle_sense fields sensed s)
  unfolding handle_sense
  handle_sense-Orderly fields none s o = refuse-Orderly _ _ s o
  handle_sense-Orderly none (some seen) s o = refuse-Orderly _ _ s o
  handle_sense-Orderly (some fields) (some seen) s o = record {
    first = o.first;
    after_greeting = o.after_greeting;
    queue_subscribed = o.queue_subscribed;
    queue_bounded = o.queue_bounded;
    verbs_bounded = o.verbs_bounded;
  }

  send_command-Orderly :
      (cmd : Command F) (id : Text) (eng : Engine F) (s : Session F)
      → Orderly s
      → Orderly (send_command cmd id eng s)
  unfolding send_command
  send_command-Orderly cmd id eng s o =
      let with_engine : Orderly (record s { engine = some (Commands.send cmd eng).0 }) = record {
        first = o.first;
        after_greeting = o.after_greeting;
        queue_subscribed = o.queue_subscribed;
        queue_bounded = o.queue_bounded;
        verbs_bounded = o.verbs_bounded;
      } in
      elim (Bool-cases (Commands.send cmd eng).1) [
        | inl sent ↦ rw sent with_engine
        | inr full ↦ rw full (refuse-Orderly _ id _ with_engine)
      ]

  handle_mgmt-Orderly : (id : Option Text) (s : Session F) → Orderly s → Orderly (handle_mgmt id s)
  unfolding handle_mgmt
  handle_mgmt-Orderly none s o = refuse-Orderly _ _ s o
  handle_mgmt-Orderly (some id) s o =
      Orderly-if (not s.handles_mgmt) _ _ (λ unhandled. refuse-Orderly _ id s o)
        (λ handled.
          Orderly-if (ltb s.max_inflight (s.inflight + 1)) _ _
            (λ busy. refuse-Orderly _ id _ (record {
              first = o.first;
              after_greeting = o.after_greeting;
              queue_subscribed = o.queue_subscribed;
              queue_bounded = o.queue_bounded;
              verbs_bounded = o.verbs_bounded;
            }))
            (λ room. record {
              first = o.first;
              after_greeting = o.after_greeting;
              queue_subscribed = o.queue_subscribed;
              queue_bounded = o.queue_bounded;
              verbs_bounded = ground arith;
            }))

  verb_ended-Orderly :
      (s : Session F) → Orderly s → Orderly (record s { inflight = s.inflight - 1 })
  verb_ended-Orderly s o = record {
    first = o.first;
    after_greeting = o.after_greeting;
    queue_subscribed = o.queue_subscribed;
    queue_bounded = o.queue_bounded;
    verbs_bounded = omega (arith, o.verbs_bounded);
  }

  finish_mgmt-Orderly :
      (id : Text) (fits : Bool) (s : Session F) → Orderly s → Orderly (finish_mgmt id fits s)
  unfolding finish_mgmt
  finish_mgmt-Orderly id fits s o =
      Orderly-if (eqb s.inflight 0) _ _ (λ idle. o)
        (λ busy.
          Orderly-if fits _ _ (λ fit. send-Orderly (mgmt_result id) _ refl (verb_ended-Orderly s o))
            (λ over. verb_ended-Orderly s o))

module _ (fl : Floats) where
  open fl use {F}

  admit_bound-Orderly :
      (b : Option (Behavior F)) (id : Text) (eng : Engine F) (s : Session F)
      → Orderly s
      → Orderly (admit_bound fl b id eng s)
  unfolding admit_bound
  admit_bound-Orderly none id eng s o = refuse-Orderly _ id s o
  admit_bound-Orderly (some b) id eng s o = send_command-Orderly _ id eng s o

  handle_intent-Orderly :
      (i : Option (Intent F)) (eng : Option (Engine F)) (s : Session F)
      → Orderly s
      → Orderly (handle_intent fl i eng s)
  unfolding handle_intent
  handle_intent-Orderly i none s o = refuse-Orderly _ _ s o
  handle_intent-Orderly none (some eng) s o = refuse-Orderly _ _ s o
  handle_intent-Orderly (some i) (some eng) s o = elim (Bool-cases (i.op == op_evict)) [
    | inl evicts ↦ elim (Bool-cases (i.name == [])) [
      | inl unnamed ↦ rw (evicts, unnamed) (refuse-Orderly _ i.id s o)
      | inr named ↦ rw (evicts, named) (send_command-Orderly _ i.id eng s o)
    ]
    | inr other ↦ elim (Bool-cases (i.op == op_admit)) [
      | inl admits ↦
          rw (other, admits)
            (admit_bound-Orderly (bound_or fl s.vocabulary (intended i)) i.id eng s o)
      | inr unknown ↦ rw (other, unknown) (refuse-Orderly _ i.id s o)
    ]
  ]

  dispatch_kind-Orderly :
      (kind : Text) (body : Body F) (s : Session F)
      → Orderly s
      → Orderly (dispatch_kind fl kind body s).0
  unfolding dispatch_kind
  dispatch_kind-Orderly kind body s o = elim (Bool-cases (kind == kind_hello)) [
    | inl a ↦ rw a (refuse-Orderly _ _ s o)
    | inr a ↦ elim (Bool-cases (kind == kind_sense)) [
      | inl b ↦ rw (a, b) (handle_sense-Orderly body.sense s.sensed s o)
      | inr b ↦ elim (Bool-cases (kind == kind_intent)) [
        | inl c ↦ rw (a, b, c) (handle_intent-Orderly body.intent s.engine s o)
        | inr c ↦ elim (Bool-cases (kind == kind_mgmt)) [
          | inl d ↦ rw (a, b, c, d) (handle_mgmt-Orderly body.mgmt s o)
          | inr d ↦ rw (a, b, c, d) (refuse-Orderly _ _ s o)
        ]
      ]
    ]
  ]

  dispatch-Orderly : (i : Inbound F) (s : Session F) → Orderly s → Orderly (dispatch fl i s).0
  unfolding dispatch
  dispatch-Orderly not_json s o = refuse-Orderly _ _ s o
  dispatch-Orderly (frame none kind body) s o = refuse-Orderly _ _ s o
  dispatch-Orderly (frame (some v) kind body) s o =
      Orderly-either (not (speaks fl v)) _ _ (λ other. refuse-Orderly _ _ s o)
        (λ ours.
          Orderly-either s.greeted _ _ (λ greeted. dispatch_kind-Orderly kind body s o)
            (λ new.
              Orderly-either (kind == kind_hello) _ _ (λ hello. handle_hello-Orderly body.hello s o)
                (λ early. refuse-Orderly _ _ s o)))

  reader_ended-Orderly : (s : Session F) → Orderly s → Orderly (reader_ended fl s)
  unfolding reader_ended
  reader_ended-Orderly s o = record {
    first = o.first;
    after_greeting = o.after_greeting;
    queue_subscribed = o.queue_subscribed;
    queue_bounded = o.queue_bounded;
    verbs_bounded = o.verbs_bounded;
  }

  after_dispatch-Orderly : (p : Session F × Bool) → Orderly p.0 → Orderly (after_dispatch fl p)
  unfolding after_dispatch
  after_dispatch-Orderly (s, true) o = o
  after_dispatch-Orderly (s, false) o = reader_ended-Orderly s o

  read_step-Orderly : (i : Inbound F) (s : Session F) → Orderly s → Orderly (read_step fl i s)
  unfolding read_step
  read_step-Orderly i s o =
      Orderly-if s.reading _ _ (λ reading. after_dispatch-Orderly _ (dispatch-Orderly i s o))
        (λ over. o)

  step-Orderly : (x : Step fl) (s : Session F) → Orderly s → Orderly (step fl x s)
  unfolding step
  step-Orderly (inbound i) s o = read_step-Orderly i s o
  step-Orderly (telemeter kind fits) s o = enqueue_frame-Orderly kind fits s o
  step-Orderly write_one s o = write_next-Orderly s.queue s refl o
  step-Orderly (mgmt_done id fits) s o = finish_mgmt-Orderly id fits s o
  step-Orderly hang_up s o = record {
    first = o.first;
    after_greeting = ground arith;
    queue_subscribed = o.queue_subscribed;
    queue_bounded = o.queue_bounded;
    verbs_bounded = o.verbs_bounded;
  }
  step-Orderly shut_down s o = record {
    first = o.first;
    after_greeting = o.after_greeting;
    queue_subscribed = o.queue_subscribed;
    queue_bounded = o.queue_bounded;
    verbs_bounded = o.verbs_bounded;
  }

  steps-Orderly :
      (steps : List (Step fl)) (s : Session F) → Orderly s → Orderly (run_steps fl steps s)
  unfolding run_steps
  steps-Orderly [] s o = o
  steps-Orderly (x ∷ rest) s o = steps-Orderly rest (step fl x s) (step-Orderly x s o)

  -- Whatever a peer sends, and in whatever order the reader, the writer, the tick goroutine and the management
  -- verbs of a session move, no telemetry is written before the greeting, no more frames than the capacity wait
  -- in the queue, and no more verbs run than the limit.
  pub run_steps-Orderly :
      (is_stdio handles_mgmt : Bool) (vocabulary : Option (Vocabulary F))
      (engine : Option (Engine F)) (sensed : Option (List (View F))) (capacity max_inflight : ℕ)
      (steps : List (Step fl))
      → Orderly (
          run_steps fl steps
            (new_session fl is_stdio vocabulary engine sensed handles_mgmt capacity max_inflight))
  unfolding greets_first has_greeting
  run_steps-Orderly is_stdio handles_mgmt vocabulary engine sensed capacity max_inflight steps =
      steps-Orderly steps _ (record {
        first = refl;
        after_greeting = refl;
        queue_subscribed = refl;
        queue_bounded = omega arith;
        verbs_bounded = omega arith;
      })
