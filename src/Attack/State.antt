-- ===== src/Attack/State.antt =====
-- core/attackmode/attackmode.go: the posture, the configuration and the detector's state.
-- Counters are the totals of atomic int64 counters that only grow, so that they are naturals.
use angie_guardian.Prelude.{
  ℕ, ◌/◌, Bool, true, false, List, max, if◌then◌else◌, replicate, ltb, ◌=ℕ◌,
}
use angie_guardian.Prelude.Int.{ℤ, pos, negsuc}
use angie_guardian.Prelude.Float.{Float}

pub data Level : Type 0 where
  normal elevated attack : Level

-- The int32 behind a level.
abbrev pub rank : Level → ℕ
rank normal = 0
rank elevated = 1
rank attack = 2

abbrev pub level_lt : Level → Level → Bool
level_lt a b = ltb (rank a) (rank b)

abbrev pub level_eq : Level → Level → Bool
level_eq a b = rank a =ℕ rank b

abbrev pub level_max : Level → Level → Level
level_max a b = if level_lt a b then b else a

-- The level one below.
abbrev pub lower : Level → Level
lower normal = normal
lower elevated = normal
lower attack = elevated

-- An admin string, already told apart; `auto` is the sentinel.
pub data LevelName : Type 0 where
  auto_name normal_name elevated_name attack_name other_name : LevelName

pub record ParsedLevel : Type 0 where
  pub level : Level
  pub auto : Bool
  pub valid : Bool

unfoldable pub parse_level : LevelName → ParsedLevel
parse_level auto_name = record { level = normal; auto = true; valid = true }
parse_level normal_name = record { level = normal; auto = false; valid = true }
parse_level elevated_name = record { level = elevated; auto = false; valid = true }
parse_level attack_name = record { level = attack; auto = false; valid = true }
parse_level other_name = record { level = normal; auto = false; valid = false }

unfoldable pub level_string : Level → LevelName
level_string elevated = elevated_name
level_string attack = attack_name
level_string normal = normal_name

-- The bounded reasons of a state; `no_reason` is the empty string.
pub data Reason : Type 0 where
  challenge_rate request_rate store_errors store_slow forced peer_reason no_reason : Reason

abbrev pub reason_rank : Reason → ℕ
reason_rank challenge_rate = 0
reason_rank request_rate = 1
reason_rank store_errors = 2
reason_rank store_slow = 3
reason_rank forced = 4
reason_rank peer_reason = 5
reason_rank no_reason = 6

abbrev pub reason_eq : Reason → Reason → Bool
reason_eq a b = reason_rank a =ℕ reason_rank b

abbrev pub int_eq : ℤ → ℤ → Bool
int_eq (pos a) (pos b) = a =ℕ b
int_eq (negsuc a) (negsuc b) = a =ℕ b
int_eq (pos a) (negsuc b) = false
int_eq (negsuc a) (pos b) = false

abbrev pub bool_eq : Bool → Bool → Bool
bool_eq true b = b
bool_eq false true = false
bool_eq false false = true

-- 5 s, 25 ms
abbrev pub bucket_width : ℕ
bucket_width = 5_000_000_000

abbrev pub min_store_ops : ℕ
min_store_ops = 20

abbrev pub min_solve_samples : ℕ
min_solve_samples = 50

pub record State : Type 0 where
  pub level : Level
  pub extra_bits : ℤ
  pub cap_bits : ℤ
  pub force_always : Bool
  pub stateless : Bool
  pub since : ℕ
  pub reason : Reason

-- One bucket of counts, and the running totals.
pub record Bucket : Type 0 where
  pub evals : ℕ
  pub issued : ℕ
  pub redeemed : ℕ
  pub store_ops : ℕ
  pub store_errs : ℕ
  pub store_slow_ops : ℕ

abbrev pub empty_bucket : Bucket
empty_bucket = record {
  evals = 0;
  issued = 0;
  redeemed = 0;
  store_ops = 0;
  store_errs = 0;
  store_slow_ops = 0;
}

-- The times, in nanoseconds, at which a level was last above half; 0 is never.
pub record LastAbove : Type 0 where
  pub above_normal : ℕ
  pub above_elevated : ℕ
  pub above_attack : ℕ

abbrev pub above : LastAbove → Level → ℕ
above l normal = l.above_normal
above l elevated = l.above_elevated
above l attack = l.above_attack

abbrev pub set_above : LastAbove → Level → ℕ → LastAbove
set_above l normal t = record l { above_normal = t }
set_above l elevated t = record l { above_elevated = t }
set_above l attack t = record l { above_attack = t }

module _ (fl : Float) where
  open fl use {F}

  pub record Config : Type 0 where
    pub enabled : Bool
    pub window : ℤ
    pub min_dwell : ℤ
    pub share_posture : Bool
    pub challenge_rate_limit : F
    pub attack_challenge_rate : F
    pub min_solve_ratio : F
    pub request_rate_limit : F
    pub store_error_limit : F
    pub store_slow_limit : F
    pub elevated_bits : ℤ
    pub attack_bits : ℤ
    pub cap_bits : ℤ
    pub force_always : Bool
    pub stateless : Bool

  pub record Signals : Type 0 where
    pub challenges : F
    pub requests : F
    pub solve_ratio : F
    pub store_error_ratio : F
    pub store_slow_ratio : F

  -- `transitions` are the calls of the OnTransition callback, latest first.
  pub record Detector : Type 0 where
    pub cfg : Config
    pub totals : Bucket
    pub prev : Bucket
    pub ring : List Bucket
    pub ring_pos : ℕ
    pub ring_full : Bool
    pub state : State
    pub last_above : LastAbove
    pub local_level : Level
    pub pinned : Bool
    pub pin_level : Level
    pub pin_until : ℕ
    pub sig : Signals
    pub vote_live : Bool
    pub transitions : List (Level × Level × Reason)

  -- `max(int(cfg.Window/bucketWidth), 1)`
  unfoldable pub ring_size : ℤ → ℕ
  ring_size (pos w) = max (w / bucket_width) 1
  ring_size (negsuc w) = 1

  unfoldable pub apply_config : Detector → Config → Detector
  unfolding ring_size
  apply_config d cfg = record d {
    cfg = cfg;
    ring = replicate (ring_size cfg.window) empty_bucket;
    ring_pos = 0;
    ring_full = false;
  }
