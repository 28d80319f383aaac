-- ===== src/Examples/Tests.antt =====
-- Each theorem at a concrete input.
use neurosymbolic_system.Base.{
  time_sub, leb, text_discrete, ℕ, ◌≡◌, refl, ◌<◌, ◌≤◌, ◌&&◌, true, false, Option, none, some, List,
  [], ◌∷◌, Text, length, any, mem, All, Distinct, GoMap, lookup, insert, is_finite, ok, pos, arith,
  ◌⊎◌,
}
use neurosymbolic_system.Adaptor.Trajectory.{
  sample, all_finite, compile, compile_shape, compile_easing, compile_keyframes, check_frames,
  check_values, last_frame, is_valid_easing_kind,
}
use neurosymbolic_system.Adaptor.Trajectory.Total.{
  WellShaped, Sampled, sample-Sampled, compile-WellShaped,
}
use neurosymbolic_system.Adaptor.Vocabulary.{
  parse, validate_channels, index_channels, check_channel, validate_senses, index_senses,
  check_age_links, validate_actions, validate_action, validate_claims, check_claims,
  validate_params, check_keys, compile_claims, compile_claim, arity_of, names_of, has_action,
}
use neurosymbolic_system.Adaptor.Vocabulary.Sound.{IsSound, parse-IsSound}
use neurosymbolic_system.Tick.Behavior.{
  Behavior, claims, priority_map, is_valid_class, bind, bind_action, bind_channels, bind_lifetime,
  claimed_channels, check_claimed, check_given, with_name, find_action, attach, contribution,
  Contribution,
}
use neurosymbolic_system.Tick.Behavior.Binding.{IsBound, bind-IsBound}
use neurosymbolic_system.Tick.Behavior.Sampling.{Samples, bind-Samples}
use neurosymbolic_system.Tick.Arbitration.{unowned, arbitrate, admit, survivors, compose}
use neurosymbolic_system.Tick.Arbitration.Owner.{contends, Wins, arbitrate-Wins}
use neurosymbolic_system.Tick.Arbitration.Admission.{
  has_id, ids, removes, outranked, admit-evicted, admit-blocked,
}
use neurosymbolic_system.Tick.Arbitration.Composition.{
  resolved, misfits, compose_complete, compose-undeclared, compose-dropped,
}
use neurosymbolic_system.Tick.Engine.State.{
  evict_cmd, fresh, or_default, Engine, new_engine, guard_base, SeamView, ActiveBehavior,
}
use neurosymbolic_system.Tick.Engine.Commands.{
  id_is_active, format_id, next_id_from, next_id, drain_inbox,
}
use neurosymbolic_system.Tick.Engine.Minting.{next_id-fresh}
use neurosymbolic_system.Tick.Engine.Validity.{IsValid}
use neurosymbolic_system.Tick.Engine.Preservation.{drain_inbox-IsValid, invoke_seam-IsValid}
use neurosymbolic_system.Tick.Engine.Loop.{RunError, invoke_seam, run_loop, run, seed_base_layer}
use neurosymbolic_system.Tick.Engine.Outcomes.{Running, Outcome}
use neurosymbolic_system.Tick.Engine.Runs.{ChannelsFit}
use neurosymbolic_system.Tick.Engine.Total.{
  Returns, Panics, LoopPanics, IsSound-ActionsShaped, contribution-Returns, run_loop-Runs,
}
use neurosymbolic_system.Tick.Engine.Whole.{Finished, fresh-Running, run-Finished}
use neurosymbolic_system.Ruleeval.Predicate.{
  Predicate, predicate, more, no_more, number, nothing, undeclared_op, is_true, gt, View, eval,
}
use neurosymbolic_system.Ruleeval.Predicate.Meaning.{Loadable, holds, eval-holds}
use neurosymbolic_system.Rules.Model.{Rule, react}
use neurosymbolic_system.Ruleeval.Timing.{new_state, mark_fired, unmatched}
use neurosymbolic_system.Ruleeval.Timing.Spacing.{unmatched-rearms}
use neurosymbolic_system.Sense.Snapshot.{Snapshot, Frame, update, get, last_seen_at}
use neurosymbolic_system.Sense.Snapshot as Snapshot
use neurosymbolic_system.Sense.Snapshot.Frames.{value_after, seen_after, update-get, view-get}
use neurosymbolic_system.Tick.Engine.Draining.{drain_inbox-inbox}
use neurosymbolic_system.Senselog.Streak.{dropped, summary, new_streak, end}
use neurosymbolic_system.Senselog.Streak.Episodes.{enter_all, changes, first_seen, episode-end}
use neurosymbolic_system.Examples.{
  whole, pan, led, wave, nod, swing, compiled, body, voc, idle, bound, waver, guard, nodder, engine,
  settings, room, rounds, busy,
}

parsed : parse whole body ≡ ok voc
unfolding parse validate_channels index_channels check_channel validate_senses index_senses
    check_age_links validate_actions validate_action validate_claims check_claims validate_params
    check_keys compile_claims compile_claim arity_of compile compile_shape compile_easing
    compile_keyframes check_frames check_values last_frame is_valid_easing_kind all_finite is_finite
    lookup insert mem any text_discrete
parsed = refl

swing-compiled : compile whole swing false 1 ≡ ok compiled
unfolding compile compile_shape compile_easing check_values is_valid_easing_kind all_finite
    is_finite
swing-compiled = refl

parse-IsSound_example : IsSound whole voc
parse-IsSound_example = parse-IsSound whole body parsed

compile-WellShaped_example : WellShaped compiled × (compiled.arity ≡ 1)
compile-WellShaped_example = compile-WellShaped whole swing false 1 swing-compiled

sample-Sampled_example : Sampled 1 (sample whole compiled 3)
sample-Sampled_example = sample-Sampled whole compiled 3 (refl, refl)

made : new_engine whole (some voc) settings true ≡ ok engine
unfolding new_engine guard_base
made = refl

run-Finished_example :
    ((p : Engine ℕ × Option RunError) × (run whole room rounds engine ≡ some p)
      × Finished whole room voc p.0)
    ⊎ LoopPanics whole room rounds (seed_base_layer whole room engine).0
      × (run whole room rounds engine ≡ none)
run-Finished_example = run-Finished whole room voc settings rounds parse-IsSound_example made

voc-ChannelsFit : ChannelsFit voc
unfolding parse validate_channels index_channels check_channel validate_senses index_senses
    check_age_links validate_actions validate_action validate_claims check_claims validate_params
    check_keys compile_claims compile_claim arity_of compile compile_shape compile_easing
    compile_keyframes check_frames check_values last_frame is_valid_easing_kind all_finite is_finite
    lookup insert mem any names_of text_discrete
voc-ChannelsFit = record { names_distinct = (refl, (refl, tt)); neutrals_fit = (refl, (refl, tt)) }

engine-Running : Running room voc engine
engine-Running = fresh-Running whole room voc settings parse-IsSound_example

run_loop-Runs_example :
    ((p : Engine ℕ × Option RunError) × (run_loop whole room rounds engine ≡ some p)
      × Outcome room voc p)
    ⊎ LoopPanics whole room rounds engine × (run_loop whole room rounds engine ≡ none)
run_loop-Runs_example = run_loop-Runs whole room voc voc-ChannelsFit rounds engine engine-Running

drain_inbox-IsValid_example : IsValid (drain_inbox whole room engine)
drain_inbox-IsValid_example = drain_inbox-IsValid whole room engine engine-Running.valid

abbrev glimpse : SeamView ℕ
glimpse = record { now = pos 5; tick_number = 1; ownership = []; pose = []; contributions = [] }

invoke_seam-IsValid_example :
    IsValid (invoke_seam whole room glimpse (record engine { seam = some busy }))
invoke_seam-IsValid_example =
    invoke_seam-IsValid whole room glimpse (record engine { seam = some busy })
      (record {
        active_fit = engine-Running.valid.active_fit;
        channels_kept = engine-Running.valid.channels_kept;
        inbox_bounded = engine-Running.valid.inbox_bounded;
        actions_shaped = engine-Running.valid.actions_shaped;
      })

is_bound : bind whole (some voc) idle ≡ ok bound
unfolding parse validate_channels index_channels check_channel validate_senses index_senses
    check_age_links validate_actions validate_action validate_claims check_claims validate_params
    check_keys compile_claims compile_claim arity_of compile compile_shape compile_easing
    compile_keyframes check_frames check_values last_frame is_valid_easing_kind all_finite is_finite
    lookup insert mem any names_of text_discrete bind bind_action bind_channels bind_lifetime
    claimed_channels check_claimed check_given with_name find_action attach is_valid_class
    priority_map has_action
is_bound = refl

bind-IsBound_example : IsBound whole voc idle bound
bind-IsBound_example = bind-IsBound whole voc idle is_bound

bind-Samples_example : Samples bound.contribute bound.trajectories
bind-Samples_example =
    bind-Samples whole voc idle (IsSound-ActionsShaped whole voc parse-IsSound_example) is_bound

contribution-Returns_example :
    Returns (contribution whole bound 1 2) × (¬ Panics whole bound 1 2)
    ⊎ Panics whole bound 1 2 × (contribution whole bound 1 2 ≡ none)
contribution-Returns_example = contribution-Returns whole bound 1 2 bind-Samples_example

abbrev live : List (ActiveBehavior ℕ)
live = record { behavior = waver; is_base = false } ∷ []

next_id-fresh_example :
    (next_id_from 2 live nod 3 ≡ some (next_id live nod 3))
    × (id_is_active (next_id live nod 3).0 live ≡ false)
    × ((next_id live nod 3).0 ≡ format_id nod (next_id live nod 3).1)
    × (3 < (next_id live nod 3).1)
next_id-fresh_example = next_id-fresh live nod 3

arbitrate-Wins_example :
    (mem pan (pan ∷ led ∷ []) ≡ false)
      × (lookup pan (arbitrate (pan ∷ led ∷ []) (waver ∷ guard ∷ []) none) ≡ none)
    ⊎ ((mem pan (pan ∷ led ∷ []) ≡ true)
        × ((lookup pan (arbitrate (pan ∷ led ∷ []) (waver ∷ guard ∷ []) none) ≡ some unowned)
              × All (λ c. contends none pan c ≡ false) (waver ∷ guard ∷ [])
            ⊎ ((b : Behavior ℕ) × (lookup pan (arbitrate (pan ∷ led ∷ []) (waver ∷ guard ∷ []) none)
                  ≡ some b.id)
                × Wins none pan (waver ∷ guard ∷ []) b)))
arbitrate-Wins_example = arbitrate-Wins pan (pan ∷ led ∷ []) (waver ∷ guard ∷ []) none

Distinct-ids : Distinct (ids (waver ∷ guard ∷ []))
unfolding mem any text_discrete
Distinct-ids = (refl, (refl, tt))

fresh_id : has_id nodder.id (waver ∷ guard ∷ []) ≡ false
unfolding has_id any text_discrete
fresh_id = refl

declared : mem pan (pan ∷ led ∷ []) ≡ true
unfolding mem any text_discrete
declared = refl

admit-evicted_example :
    All
      (λ b.
        mem b.id (admit (pan ∷ led ∷ []) nodder (waver ∷ guard ∷ [])).evicted ≡ removes nodder b)
      (waver ∷ guard ∷ [])
admit-evicted_example = admit-evicted (pan ∷ led ∷ []) nodder (waver ∷ guard ∷ []) Distinct-ids

admit-blocked_example : mem pan (admit (pan ∷ led ∷ []) nodder (waver ∷ guard ∷ [])).blocked ≡ (
    claims nodder pan
    && outranked nodder pan (
        survivors
          (admit (pan ∷ led ∷ []) nodder (waver ∷ guard ∷ [])).evicted
          (waver ∷ guard ∷ [])))
admit-blocked_example =
    admit-blocked pan (pan ∷ led ∷ []) nodder (waver ∷ guard ∷ []) refl fresh_id declared

abbrev owners : GoMap Text
owners = (pan, wave) ∷ (led, nod) ∷ []

abbrev offers : GoMap (Contribution ℕ)
offers = (wave, (pan, some (5 ∷ [])) ∷ []) ∷ (nod, (led, some (5 ∷ [])) ∷ []) ∷ []

compose_complete_example :
    All
      (λ ch.
        (lookup ch.name (compose whole voc owners offers).0 ≡ some (resolved owners offers ch))
        × (length (resolved owners offers ch) ≡ ch.arity))
      voc.channels
compose_complete_example =
    compose_complete whole voc owners offers voc-ChannelsFit.names_distinct
      voc-ChannelsFit.neutrals_fit

undeclared : mem wave (names_of voc.channels) ≡ false
unfolding parse validate_channels index_channels check_channel validate_senses index_senses
    check_age_links validate_actions validate_action validate_claims check_claims validate_params
    check_keys compile_claims compile_claim arity_of compile compile_shape compile_easing
    compile_keyframes check_frames check_values last_frame is_valid_easing_kind all_finite is_finite
    lookup insert mem any names_of text_discrete
undeclared = refl

compose-undeclared_example : lookup wave (compose whole voc owners offers).0 ≡ none
compose-undeclared_example = compose-undeclared whole voc owners offers wave undeclared

compose-dropped_example :
    All
      (λ ch. mem ch.name (compose whole voc owners offers).1 ≡ misfits owners offers ch)
      voc.channels
compose-dropped_example = compose-dropped whole voc owners offers voc-ChannelsFit.names_distinct

-- the led is above 2, and something pans or nods
abbrev condition : Predicate ℕ
condition =
    predicate [] (undeclared_op []) nothing
      (more (predicate led gt (number 2) no_more no_more) no_more)
      (more (predicate pan is_true nothing no_more no_more)
        (more (predicate nod is_true nothing no_more no_more) no_more))

abbrev seen : View ℕ
seen = (led, number 3) ∷ (nod, number 1) ∷ []

loadable : Loadable condition
unfolding Loadable
loadable = (tt, ((tt, tt, tt), tt), ((tt, tt, tt), ((tt, tt, tt), tt)))

eval-holds_example : eval whole seen none condition ≡ some (holds whole seen none condition)
eval-holds_example = eval-holds whole seen none condition loadable

abbrev rule : Rule ℕ
rule = record {
  id = nod;
  kind = react;
  when = condition;
  run = nod;
  disable = [];
  params = [];
  cooldown_s = 5;
  hysteresis = 2;
  duration_s = none;
  say = [];
}

unmatched-rearms_example :
    (unmatched whole rule
      (mark_fired whole rule new_state (pos 1000))
      (pos 2000 ∷ pos 4000 ∷ [])).armed
    ≡ any (λ now. leb 2 (whole.seconds (time_sub now (pos 2000)))) (pos 2000 ∷ pos 4000 ∷ [])
unmatched-rearms_example =
    unmatched-rearms whole rule new_state (pos 1000) (pos 2000) (pos 4000 ∷ []) refl

abbrev frame : Frame ℕ
frame = (pan, some 4) ∷ (led, none) ∷ []

abbrev perceived : Snapshot ℕ
perceived = record {
  values = (led, 3) ∷ (nod, 1) ∷ [];
  last_seen = (led, pos 1000) ∷ (nod, pos 2000) ∷ [];
}

Distinct-frame : Distinct (pan ∷ led ∷ [])
unfolding mem any text_discrete
Distinct-frame = (refl, (refl, tt))

update-get_example :
    (get (update frame (pos 3000) perceived) led
      ≡ value_after (lookup led frame) (get perceived led))
    × (last_seen_at (update frame (pos 3000) perceived) led
        ≡ seen_after (lookup led frame) (pos 3000) (last_seen_at perceived led))
update-get_example = update-get led frame (pos 3000) perceived Distinct-frame

led_seen : get perceived led ≡ some 3
unfolding get lookup text_discrete
led_seen = refl

view-get_example : lookup led (Snapshot.view whole (λ age. age) perceived (pos 3000)) ≡ some 3
view-get_example = view-get whole (λ age. age) led perceived (pos 3000) led_seen

some_room : 1 ≤ engine.cfg.inbox_size
unfolding fresh or_default
some_room = omega arith

drain_inbox-inbox_example :
    (drain_inbox whole room (record engine { inbox = evict_cmd wave ∷ [] })).inbox ≡ []
drain_inbox-inbox_example =
    drain_inbox-inbox whole room (record engine { inbox = evict_cmd wave ∷ [] })
      (record {
        active_fit = engine-Running.valid.active_fit;
        channels_kept = engine-Running.valid.channels_kept;
        inbox_bounded = some_room;
        actions_shaped = engine-Running.valid.actions_shaped;
      })

episode-end_example :
    ((enter_all new_streak (pan ∷ pan ∷ led ∷ pan ∷ [])).1
      ≡ dropped pan ∷ changes pan (pan ∷ led ∷ pan ∷ []))
    × (end (enter_all new_streak (pan ∷ pan ∷ led ∷ pan ∷ [])).0 ≡ (
      new_streak,
      summary (first_seen (pan ∷ []) (pan ∷ led ∷ pan ∷ [])) (length (pan ∷ pan ∷ led ∷ pan ∷ []))
          ∷ [],
    ))
episode-end_example = episode-end pan (pan ∷ led ∷ pan ∷ [])
