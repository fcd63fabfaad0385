-- ===== src/Tests/Attacks.antt =====
-- Runs of core/attackmode/attackmode.go, with numbers for its float64 values.
use angie_guardian.Prelude.{
  ℕ, suc, ◌+◌, ◌-◌, ◌*◌, ◌/◌, ◌≤◌, ◌≡◌, refl, arith, true, false, none, some, List, [], ◌∷◌, ltb,
  leb,
}
use angie_guardian.Prelude.Int.{pos, ◌≤ℤ◌, max_ℤ}
use angie_guardian.Prelude.Assoc.{lookup}
use angie_guardian.Prelude.Float.{Float}
use angie_guardian.Attack.State.{
  normal, attack, rank, forced, challenge_rate, State, Config, Signals, Detector, empty_bucket,
}
use angie_guardian.Attack.Signals.{attack_signal}
use angie_guardian.Attack.Machine.{
  effective_bits, evaluate, publish, resolve_pin, publish_fleet, local_decision,
}
use angie_guardian.Attack.State.{reason_eq}
use angie_guardian.Attack.Evaluate.{pin_live}
use angie_guardian.Attack.Share.{pin, new_detector, is_ok, close, store_op}
use angie_guardian.Attack.Bits.{effective_bits-window}
use angie_guardian.Attack.Publish.{Configured, Tells}
use angie_guardian.Attack.Posture.{Pinned, evaluate-Configured, evaluate-Tells, evaluate_pin}
use angie_guardian.Attack.Fleet.{evaluate_attack, evaluate_drops_once}
use angie_guardian.Attack.Dwell.{sees, evaluate_dwells}
use angie_guardian.Attack.Vote.{
  Act, do_pin, do_close, do_store_op, run_acts, run_acts_tracked, pin_withdraws,
}
use angie_guardian.Attack.Shards.{sharded_votes}
use angie_guardian.Tests.Data.{store, address}

abbrev pub numbers : Float
numbers = record {
  F = ℕ;
  of_nat = λ n. n;
  add = λ a b. a + b;
  sub = λ a b. a - b;
  mul = λ a b. a * b;
  div = λ a b. a / b;
  lt = ltb;
  le = leb;
}

abbrev config : Config numbers
config = record {
  enabled = true;
  window = pos 60_000_000_000;
  min_dwell = pos 100;
  share_posture = true;
  challenge_rate_limit = 10;
  attack_challenge_rate = 50;
  min_solve_ratio = 1;
  request_rate_limit = 100;
  store_error_limit = 0;
  store_slow_limit = 0;
  elevated_bits = pos 2;
  attack_bits = pos 4;
  cap_bits = pos 30;
  force_always = true;
  stateless = false;
}

abbrev calm : Signals numbers
calm = record {
  challenges = 0;
  requests = 0;
  solve_ratio = 1;
  store_error_ratio = 0;
  store_slow_ratio = 0;
}

abbrev flood : Signals numbers
flood = record {
  challenges = 60;
  requests = 60;
  solve_ratio = 0;
  store_error_ratio = 0;
  store_slow_ratio = 0;
}

abbrev pub alert : State
alert = record {
  level = attack;
  extra_bits = pos 4;
  cap_bits = pos 30;
  force_always = true;
  stateless = false;
  since = 900;
  reason = challenge_rate;
}

-- A replica in attack since 900, last above at 950.
abbrev replica : Detector numbers
replica = record {
  cfg = config;
  totals = empty_bucket;
  prev = empty_bucket;
  ring = empty_bucket ∷ [];
  ring_pos = 0;
  ring_full = false;
  state = alert;
  last_above = record { above_normal = 0; above_elevated = 950; above_attack = 950 };
  local_level = attack;
  pinned = false;
  pin_level = normal;
  pin_until = 0;
  sig = calm;
  vote_live = false;
  transitions = [];
}

abbrev pinned_replica : Detector numbers
pinned_replica = record replica { pinned = true; pin_level = normal; pin_until = 2000 }

effective_bits-window_example :
    (pos 20 ≤ℤ (effective_bits alert (pos 12) (pos 20) (pos 8)).1)
    × ((effective_bits alert (pos 12) (pos 20) (pos 8)).0
        ≤ℤ (effective_bits alert (pos 12) (pos 20) (pos 8)).1)
    × ((effective_bits alert (pos 12) (pos 20) (pos 8)).1 ≤ℤ max_ℤ (pos 8) (pos 20))
effective_bits-window_example =
    effective_bits-window alert (pos 12) (pos 20) (pos 8) (omega arith) (omega arith)

evaluate-Configured_example :
    Configured config (evaluate numbers replica config calm (pos 1) 1200).state
evaluate-Configured_example = evaluate-Configured replica config calm (pos 1) 1200

evaluate-Tells_example : Tells alert [] (evaluate numbers replica config calm (pos 1) 1200) 1200
evaluate-Tells_example = evaluate-Tells replica config calm (pos 1) 1200

evaluate_pin_example :
    ((evaluate numbers pinned_replica config flood (pos 2) 1200).state.level ≡ normal)
    × ((evaluate numbers pinned_replica config flood (pos 2) 1200).state.reason ≡ forced)
    × Pinned pinned_replica (evaluate numbers pinned_replica config flood (pos 2) 1200)
evaluate_pin_example = evaluate_pin pinned_replica config flood (pos 2) 1200 refl

flooded : (attack_signal numbers config flood).0 ≡ true
unfolding attack_signal
flooded = refl

evaluate_attack_example : (evaluate numbers replica config flood (pos 0) 1200).state.level ≡ attack
evaluate_attack_example = evaluate_attack replica config flood (pos 0) 1200 refl refl flooded

evaluate_drops_once_example :
    rank attack ≤ suc (rank (evaluate numbers replica config calm (pos 0) 1200).state.level)
evaluate_drops_once_example = evaluate_drops_once replica config calm (pos 0) 1200 refl refl refl

-- The replica after a flood.
abbrev stormy : Detector numbers
stormy = evaluate numbers replica config flood (pos 0) 1200

stormy_sees : sees config flood stormy.state.level ≡ true
unfolding evaluate attack_signal resolve_pin publish_fleet local_decision
stormy_sees = refl

stormy_measured : reason_eq stormy.state.reason forced ≡ false
unfolding evaluate attack_signal resolve_pin publish_fleet local_decision
stormy_measured = refl

stormy_free : pin_live stormy 1250 ≡ false
unfolding evaluate resolve_pin publish_fleet local_decision publish attack_signal
stormy_free = refl

evaluate_dwells_example :
    rank stormy.state.level ≤ rank (evaluate numbers stormy config calm (pos 0) 1250).state.level
evaluate_dwells_example =
    evaluate_dwells replica config flood calm (pos 0) (pos 0) 1200 1250 refl refl (omega arith)
      (omega arith) refl stormy_sees stormy_measured stormy_free

no_vote : sharded_votes.vote_of store address ≡ none
unfolding sharded_votes lookup
no_vote = refl

delete_ok : is_ok (sharded_votes.delete_vote store address).1 ≡ true
unfolding sharded_votes
delete_ok = refl

-- A store call that failed, a pin to attack and the shutdown.
abbrev acts : List (Act numbers × ℕ)
acts = (do_store_op true false, 10) ∷ (do_pin attack (pos 5), 20) ∷ (do_close, 30) ∷ []

acts_vote :
    (run_acts sharded_votes address (new_detector numbers config 7, store) acts).0.vote_live ≡ false
unfolding new_detector close pin resolve_pin publish store_op
acts_vote = refl

run_acts_tracked_example :
    sharded_votes.vote_of
      (run_acts sharded_votes address (new_detector numbers config 7, store) acts).1
      address
    ≡ none
run_acts_tracked_example =
    run_acts_tracked sharded_votes address config store 7 acts no_vote acts_vote

pin_withdraws_example :
    sharded_votes.vote_of
      (pin numbers
        (some sharded_votes)
        address
        (record replica { vote_live = true })
        store
        normal
        (pos 0)
        1000).1
      address
    ≡ none
pin_withdraws_example =
    pin_withdraws sharded_votes address (record replica { vote_live = true }) store normal (pos 0)
      1000 (λ e. cc) delete_ok
