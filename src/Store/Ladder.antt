-- ===== src/Store/Ladder.antt =====
-- The repeat-offender ladder of core/store/store.go: its result for every count, and its bounds.
use native.Mathlib.Nat.{pow-suc}
use angie_guardian.Prelude.{
  ℕ, zero, suc, ◌-◌, ◌*◌, ◌^◌, ◌≤◌, ◌<◌, min, ◌≡◌, refl, ap, ◌∙◌, [], ◌∷◌, arith, All, ◌≢◌, Bytes,
}
use angie_guardian.Prelude.Int.{ℤ, pos, negsuc}
use angie_guardian.Prelude.Int64.{mul64}
use angie_guardian.Store.{
  ladder, settle, half, block_backoff_ttl, backoff_bounds, rounds_of, block_value, block_reason,
  minute, hour,
}

mul64_two : (t : ℕ) → t * 2 < 2 ^ 63 → mul64 (pos t) (pos 2) ≡ pos (t * 2)
unfolding mul64
mul64_two t h = ground arith

pow_pos : (k : ℕ) → 1 ≤ 2 ^ k
pow_pos zero = omega arith
pow_pos (suc k) = omega (arith, pow-suc 2 k, pow_pos k)

shift : (t k : ℕ) → t * 2 ^ suc k ≡ t * 2 * 2 ^ k
shift t k = rw pow-suc (grind arith)

grows : (t k : ℕ) → t ≤ t * 2 ^ k
grows t k = grind (arith, pow_pos k)

settle_pos : (c t : ℕ) → 0 < t → settle (pos c) (pos t) ≡ pos (min c t)
unfolding settle
settle_pos c t h = ground arith

-- Each round doubles the time until it meets the cap.
ladder-min : (k c t : ℕ) → 0 < t → c < 2 ^ 63 → ladder k (pos c) (pos t) ≡ pos (min c (t * 2 ^ k))
unfolding ladder half
ladder-min zero c t h b = ground (arith, settle_pos c t h)
ladder-min (suc k) c t h b =
    ground
      (arith, settle_pos c t h, shift t k, grows (t * 2) k, mul64_two t, ladder-min k c (t * 2))

-- What a bound of the ladder becomes: a positive one is kept, any other is the default.
abbrev pub positive_or : ℤ → ℕ → ℕ
positive_or (pos zero) d = d
positive_or (pos (suc n)) d = suc n
positive_or (negsuc n) d = d

bounds_lem :
    (base cap : ℤ)
    → backoff_bounds base cap
      ≡ (pos (positive_or base minute), pos (positive_or cap (30 * 24 * hour)))
unfolding backoff_bounds
bounds_lem base cap = ground arith

positive_or_pos : (z : ℤ) (d : ℕ) → 0 < d → 0 < positive_or z d
positive_or_pos (pos zero) d h = h
positive_or_pos (pos (suc n)) d h = omega arith
positive_or_pos (negsuc n) d h = h

backoff_lem :
    (base cap : ℤ) (offenses : ℤ)
    → positive_or cap (30 * 24 * hour) < 2 ^ 63
    → block_backoff_ttl base cap offenses
      ≡ pos (
          min (positive_or cap (30 * 24 * hour)) (positive_or base minute * 2 ^ rounds_of offenses))
unfolding block_backoff_ttl
backoff_lem base cap offenses h = rw (bounds_lem base cap) (
    ladder-min (rounds_of offenses) (positive_or cap (30 * 24 * hour)) (positive_or base minute)
      (positive_or_pos base minute (omega arith)) h)

-- The n-th further block of a client lasts the base time doubled n times, or the cap where that is
-- less: for bounds that are int64 values, whichever of them are not positive and so are replaced by
-- a minute and by thirty days.
pub block_backoff_ttl-doubles :
    (base cap : ℤ) (n : ℕ)
    → positive_or cap (30 * 24 * hour) < 2 ^ 63
    → block_backoff_ttl base cap (pos (suc n))
      ≡ pos (min (positive_or cap (30 * 24 * hour)) (positive_or base minute * 2 ^ n))
block_backoff_ttl-doubles base cap n h =
    let e : suc n - 1 ≡ n = omega arith in
    backoff_lem base cap (pos (suc n)) h
    ∙ ap (λ k. pos (min (positive_or cap (30 * 24 * hour)) (positive_or base minute * 2 ^ k))) e

-- Whatever the offense counter holds, negative counts included, and whatever the bounds, the time
-- is positive and at most the cap, so that no automatic block is a permanent one.
pub block_backoff_ttl_bounds :
    (base cap offenses : ℤ)
    → positive_or cap (30 * 24 * hour) < 2 ^ 63
    → (t : ℕ) × (block_backoff_ttl base cap offenses ≡ pos t)
      × (0 < t)
      × (t ≤ positive_or cap (30 * 24 * hour))
block_backoff_ttl_bounds base cap offenses h =
    let c = positive_or cap (30 * 24 * hour) in
    let b = positive_or base minute in
    let x = b * 2 ^ rounds_of offenses in
    (
      min c x,
      backoff_lem base cap offenses h,
      omega (
        arith,
        grows b (rounds_of offenses),
        positive_or_pos base minute (omega arith),
        positive_or_pos cap (30 * 24 * hour) (omega arith),
      ),
      omega arith,
    )

-- The reason is read back from a stored block value, for a reason without a NUL byte.
pub block_reason-block_value :
    (reason token : Bytes)
    → All (λ c. c ≢ 0) reason
    → block_reason (block_value reason token) ≡ reason
unfolding block_reason block_value
block_reason-block_value [] token h = refl
block_reason-block_value (c ∷ reason) token h =
    ground (arith, block_reason-block_value reason token h.1)
