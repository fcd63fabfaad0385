-- ===== src/Attack/Signals.antt =====
-- core/attackmode/attackmode.go: the window's measurements and the entry and exit signals.
use angie_guardian.Prelude.{
  ◌+◌, ◌-◌, ◌%◌, Bool, true, false, ◌&&◌, ◌||◌, List, [], ◌∷◌, if◌then◌else◌, leb, ◌=ℕ◌, length,
  set, max,
}
use angie_guardian.Prelude.Float.{Float}
use angie_guardian.Attack.State.{
  Reason, challenge_rate, request_rate, store_errors, store_slow, no_reason, Bucket, empty_bucket,
  min_store_ops, min_solve_samples, Config, Signals, Detector,
}

abbrev pub add_bucket : Bucket → Bucket → Bucket
add_bucket a b = record {
  evals = a.evals + b.evals;
  issued = a.issued + b.issued;
  redeemed = a.redeemed + b.redeemed;
  store_ops = a.store_ops + b.store_ops;
  store_errs = a.store_errs + b.store_errs;
  store_slow_ops = a.store_slow_ops + b.store_slow_ops;
}

-- The deltas since the last tick; a negative one counts as 0.
abbrev pub bucket_delta : Bucket → Bucket → Bucket
bucket_delta cur prev = record {
  evals = cur.evals - prev.evals;
  issued = cur.issued - prev.issued;
  redeemed = cur.redeemed - prev.redeemed;
  store_ops = cur.store_ops - prev.store_ops;
  store_errs = cur.store_errs - prev.store_errs;
  store_slow_ops = cur.store_slow_ops - prev.store_slow_ops;
}

unfoldable pub sum_ring : Bucket → List Bucket → Bucket
sum_ring acc [] = acc
sum_ring acc (b ∷ bs) = sum_ring (add_bucket acc b) bs

module _ (fl : Float) where
  open fl use {F, of_nat, mul, div, lt, le}

  unfoldable pub window_signals : Detector fl → Signals fl
  unfolding sum_ring
  window_signals d =
      let sum = sum_ring empty_bucket d.ring in
      let n = if d.ring_full then length d.ring else d.ring_pos in
      let secs = mul (of_nat (max n 1)) (of_nat 5) in
      let sampled = leb min_store_ops sum.store_ops in
      record {
        challenges = div (of_nat sum.issued) secs;
        requests = div (of_nat sum.evals) secs;
        solve_ratio =
            if leb min_solve_samples sum.issued
            then div (of_nat sum.redeemed) (of_nat sum.issued)
            else of_nat 1;
        store_error_ratio =
            if sampled then div (of_nat sum.store_errs) (of_nat sum.store_ops) else of_nat 0;
        store_slow_ratio =
            if sampled then div (of_nat sum.store_slow_ops) (of_nat sum.store_ops) else of_nat 0;
      }

  -- The first half of `tick`: one bucket of deltas goes into the ring.
  unfoldable pub push_bucket : Detector fl → Detector fl
  push_bucket d =
      let p = (d.ring_pos + 1) % length d.ring in
      record d {
        prev = d.totals;
        ring = set d.ring d.ring_pos (bucket_delta d.totals d.prev);
        ring_pos = p;
        ring_full = (p =ℕ 0) || d.ring_full;
      }

  abbrev pub over : F → F → Bool
  over limit value = lt (of_nat 0) limit && lt limit value

  -- At or above half of a limit that is set.
  abbrev pub half_over : F → F → Bool
  half_over limit value = lt (of_nat 0) limit && le (div limit (of_nat 2)) value

  unfoldable pub elevated_signal : Config fl → Signals fl → Bool × Reason
  elevated_signal c s =
      if over c.challenge_rate_limit s.challenges
      then (true, challenge_rate)
      else if over c.request_rate_limit s.requests
      then (true, request_rate)
      else if over c.store_error_limit s.store_error_ratio
      then (true, store_errors)
      else if over c.store_slow_limit s.store_slow_ratio
      then (true, store_slow)
      else (false, no_reason)

  unfoldable pub attack_signal : Config fl → Signals fl → Bool × Reason
  attack_signal c s =
      if over c.attack_challenge_rate s.challenges && lt s.solve_ratio c.min_solve_ratio
      then (true, challenge_rate)
      else if lt (of_nat 0) c.store_error_limit
          && lt (mul (of_nat 3) c.store_error_limit) s.store_error_ratio
      then (true, store_errors)
      else (false, no_reason)

  unfoldable pub elevated_half : Config fl → Signals fl → Bool
  elevated_half c s =
      half_over c.challenge_rate_limit s.challenges
      || (half_over c.request_rate_limit s.requests
          || (half_over c.store_error_limit s.store_error_ratio
              || half_over c.store_slow_limit s.store_slow_ratio))

  unfoldable pub attack_half : Config fl → Signals fl → Bool
  attack_half c s =
      (half_over c.attack_challenge_rate s.challenges && lt s.solve_ratio c.min_solve_ratio)
      || (lt (of_nat 0) c.store_error_limit
          && le (div (mul (of_nat 3) c.store_error_limit) (of_nat 2)) s.store_error_ratio)
