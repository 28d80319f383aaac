-- ===== src/Examples/Peer.antt =====
-- A peer of a small engine: a frame there and back, and a session that is greeted, fed and left.
use neurosymbolic_system.Base.{
  ◌≡◌, refl, ℕ, true, false, none, some, List, [], ◌∷◌, ◌++◌, pos, ok, arith,
}
use neurosymbolic_system.Ruleeval.Predicate.{number}
use neurosymbolic_system.Stream.Frame.{
  encode_frame, put_uint32, read_frame, read_frame-encode_frame,
}
use neurosymbolic_system.Stream.Session.{
  Body, Step, inbound, frame, telemeter, write_one, mgmt_done, hang_up, new_session, run_steps,
  kind_hello, kind_sense, kind_mgmt,
}
use neurosymbolic_system.Stream.Session.Greeting.{Orderly, run_steps-Orderly}
use neurosymbolic_system.Examples.{whole, pan, led, wave, voc, engine}

written : encode_frame (some pan) ≡ ok (0 ∷ 0 ∷ 0 ∷ 3 ∷ pan)
unfolding encode_frame put_uint32
written = refl

read_frame-encode_frame_example : read_frame ((0 ∷ 0 ∷ 0 ∷ 3 ∷ pan) ++ led) ≡ ok (pan, led)
read_frame-encode_frame_example = read_frame-encode_frame pan led written (omega arith)

abbrev said : Body ℕ
said = record {
  hello = some pan;
  sense = some ((led, number 3) ∷ []);
  intent = none;
  mgmt = some wave;
}

abbrev visit : List (Step whole)
visit =
    telemeter led true
    ∷ inbound (frame (some (pos 1)) kind_hello said)
    ∷ telemeter led true
    ∷ telemeter led true
    ∷ inbound (frame (some (pos 1)) kind_sense said)
    ∷ inbound (frame (some (pos 1)) kind_mgmt said)
    ∷ write_one
    ∷ mgmt_done wave true
    ∷ hang_up
    ∷ []

run_steps-Orderly_example :
    Orderly
      (run_steps whole visit (new_session whole false (some voc) (some engine) (some []) true 1 4))
run_steps-Orderly_example =
    run_steps-Orderly whole false true (some voc) (some engine) (some []) 1 4 visit
