-- ===== src/Store.antt =====
-- core/store/store.go: the store's shared types, the block value, and the repeat-offender ladder.
pub mod Ladder
use angie_guardian.Prelude.{
  ℕ, zero, suc, ◌+◌, ◌-◌, ◌*◌, ◌/◌, ◌^◌, ◌≡◌, Bool, true, false, ◌||◌, not, Option, none, some,
  List, [], ◌∷◌, ◌++◌, if◌then◌else◌, ltb, ◌=ℕ◌, Bytes,
}
use angie_guardian.Prelude.Int.{ℤ, pos, negsuc, ltb_ℤ}
use angie_guardian.Prelude.Int64.{is_positive, mul64, max_int64}

-- The errors that the store's own checks return.
pub data StoreError : Type 0 where
  not_a_block_key : Bytes → StoreError
  not_a_number : StoreError
  invalid_vote : StoreError
  capability_unsupported : StoreError

pub data Result (A : Type 0) : Type 0 where
  ok : A → Result A
  err : StoreError → Result A

-- A time.Time that may be the zero time; any other is a count of nanoseconds since 1970.
abbrev pub Deadline : Type 0
Deadline = Option ℕ

-- strconv.FormatInt and strconv.ParseInt in base 10, which the counters are stored by.
pub record Decimal : Type 0 where
  pub format_int : ℤ → Bytes
  pub parse_int : Bytes → Option ℤ
  -- An int64 that was printed parses to itself.
  pub parse-format_pos :
      (n : ℕ) → ltb n (2 ^ 63) ≡ true → parse_int (format_int (pos n)) ≡ some (pos n)

pub record Kv : Type 0 where
  pub key : Bytes
  pub value : Bytes
  pub expires_at : Deadline

-- A nil byte slice, which stands for an absent key, is `none`.
pub record BlockCommit : Type 0 where
  pub block_key : Bytes
  pub expected_block : Option Bytes
  pub new_block : Bytes
  pub base_ttl : ℤ
  pub max_ttl : ℤ
  pub counter_key : Bytes
  pub counter_ttl : ℤ
  pub hold_key : Bytes
  pub guard_key : Bytes
  pub guard_value : Option Bytes

pub data BlockRefusal : Type 0 where
  refusal_none refusal_hold refusal_generation refusal_block : BlockRefusal

pub record BlockCommitResult : Type 0 where
  pub committed : Bool
  pub offenses : ℤ
  pub ttl : ℤ
  pub refusal : BlockRefusal

pub record EventCommit : Type 0 where
  pub counter_key : Bytes
  pub counter_ttl : ℤ
  pub hold_key : Bytes

pub record EventCommitResult : Type 0 where
  pub committed : Bool
  pub value : ℤ

pub record UnblockCommit : Type 0 where
  pub hold_key : Bytes
  pub hold_value : Bytes
  pub hold_ttl : ℤ
  pub generation_key : Bytes
  pub generation : Bytes
  pub generation_ttl : ℤ
  pub block_key : Bytes
  pub counter_key : Bytes
  pub reset_backoff : Bool

-- The separator is a NUL byte; the token is the random number in hexadecimal.
unfoldable pub block_value : Bytes → Bytes → Bytes
block_value reason token = reason ++ 0 ∷ token

unfoldable pub block_reason : Bytes → Bytes
block_reason [] = []
block_reason (c ∷ v) = let rest = c ∷ block_reason v in if c =ℕ 0 then [] else rest

abbrev pub second : ℕ
second = 1_000_000_000

abbrev pub minute : ℕ
minute = 60 * second

abbrev pub hour : ℕ
hour = 60 * minute

abbrev pub default_block_base_ttl : ℤ
default_block_base_ttl = pos minute

abbrev pub default_block_max_ttl : ℤ
default_block_max_ttl = pos (30 * 24 * hour)

unfoldable pub backoff_bounds : ℤ → ℤ → ℤ × ℤ
backoff_bounds base cap = (
  if is_positive base then base else default_block_base_ttl,
  if is_positive cap then cap else default_block_max_ttl,
)

-- Go's division of an int64 by 2 rounds towards zero.
unfoldable pub half : ℤ → ℤ
half (pos n) = pos (n / 2)
half (negsuc zero) = pos 0
half (negsuc (suc n)) = negsuc ((n + 2) / 2 - 1)

-- The last test of `blockBackoffTTL`.
unfoldable pub settle : ℤ → ℤ → ℤ
settle cap ttl = if ltb_ℤ cap ttl || not (is_positive ttl) then cap else ttl

-- The loop, by the rounds that `n < offenses` still allows.
unfoldable pub ladder : ℕ → ℤ → ℤ → ℤ
unfolding settle half mul64
ladder zero cap ttl = settle cap ttl
ladder (suc rounds) cap ttl = elim (ltb_ℤ ttl cap) [
  | true ↦ elim (ltb_ℤ (half cap) ttl) [
    | true ↦ cap
    | false ↦ ladder rounds cap (mul64 ttl (pos 2))
  ]
  | false ↦ settle cap ttl
]

-- `offenses - 1` rounds, none for a count that is not positive.
abbrev pub rounds_of : ℤ → ℕ
rounds_of (pos n) = n - 1
rounds_of (negsuc n) = 0

unfoldable pub block_backoff_ttl : ℤ → ℤ → ℤ → ℤ
block_backoff_ttl base cap offenses =
    let (b, c) = backoff_bounds base cap in ladder (rounds_of offenses) c b

unfoldable pub counter_value : Decimal → Bytes → ℤ
counter_value d v = elim (d.parse_int v) [
  | none ↦ pos 0
  | some (pos n) ↦ pos n
  | some (negsuc _) ↦ pos 0
]
