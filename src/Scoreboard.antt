-- ===== src/Scoreboard.antt =====
-- core/scoreboard.go over the in-memory store: counting bad events, placing and lifting blocks.
-- The addresses and the random tokens, which the standard library makes, are arguments.
pub mod Keys
pub mod Race
pub mod Placed
pub mod Threshold
use angie_guardian.Prelude.{
  ℕ, zero, suc, ◌≡◌, ◌+◌, ◌*◌, ◌/◌, max, Bool, true, false, not, Option, none, some, List, [], ◌∷◌,
  ◌++◌, if◌then◌else◌, Bytes, ◌=ℕ◌,
}
use angie_guardian.Prelude.Int.{ℤ, pos, negsuc, ◌-ℤ◌, ltb_ℤ}
use angie_guardian.Prelude.Int64.{is_positive, mul64}
use angie_guardian.Store.{
  Decimal, Result, ok, err, StoreError, BlockCommit, BlockCommitResult, EventCommit,
  EventCommitResult, UnblockCommit, block_value, second, minute, hour,
}
use angie_guardian.Memory.State.{ShardedMemory, block_prefix}
use angie_guardian.Memory.Ops.{get, set_key, delete_key}
use angie_guardian.Memory.Commit.{commit_block, commit_event, commit_unblock}

-- net/netip: the canonical text of an address, `addr.Unmap().String()`, or nothing for a text that
-- is no address. The canonical text of an address is an address, and its own canonical text.
pub record Netip : Type 0 where
  pub canonical : Bytes → Option Bytes
  pub canonical_idem : (ip a : Bytes) → canonical ip ≡ some a → canonical a ≡ some a

-- A change of the block set that the enforcement offload is told.
pub data Notice : Type 0 where
  changed : Bytes → Bytes → ℤ → Bool → Notice
  owned : Bytes → Bytes → ℤ → Bytes → Bytes → Notice

pub record Scoreboard : Type 0 where
  pub unblock_hold : ℤ

abbrev pub unblock_hold_window : ℤ
unblock_hold_window = pos (2 * second)

abbrev pub unblock_gen_retention : ℤ
unblock_gen_retention = pos (24 * hour)

unfoldable pub new_scoreboard : Scoreboard
new_scoreboard = record { unblock_hold = unblock_hold_window }

-- "blkct:", "unblk:", "unblkgen:" and "ev:"
abbrev pub count_prefix : Bytes
count_prefix = b'b' ∷ b'l' ∷ b'k' ∷ b'c' ∷ b't' ∷ b':' ∷ []

abbrev pub hold_prefix : Bytes
hold_prefix = b'u' ∷ b'n' ∷ b'b' ∷ b'l' ∷ b'k' ∷ b':' ∷ []

abbrev pub gen_prefix : Bytes
gen_prefix = b'u' ∷ b'n' ∷ b'b' ∷ b'l' ∷ b'k' ∷ b'g' ∷ b'e' ∷ b'n' ∷ b':' ∷ []

abbrev pub event_prefix : Bytes
event_prefix = b'e' ∷ b'v' ∷ b':' ∷ []

unfoldable pub block_count_key : Bytes → Bytes
block_count_key ip = count_prefix ++ ip

unfoldable pub unblock_hold_key : Bytes → Bytes
unblock_hold_key ip = hold_prefix ++ ip

unfoldable pub unblock_gen_key : Bytes → Bytes
unblock_gen_key ip = gen_prefix ++ ip

-- `now.Unix() / max(int64(window/time.Second), 1)`; the clock is in nanoseconds.
unfoldable pub event_bucket : ℕ → ℤ → ℕ
event_bucket now (pos window) = now / second / max (window / second) 1
event_bucket now (negsuc _) = now / second

abbrev colon : Bytes
colon = b':' ∷ []

abbrev generation_part : Bytes → Bytes
generation_part [] = b'0' ∷ []
generation_part (c ∷ g) = b'g' ∷ c ∷ g

unfoldable pub event_key : Decimal → Bytes → Bytes → Bytes → ℤ → Bytes
event_key d evtype ip generation bucket =
    event_prefix
    ++ (evtype
        ++ (colon
            ++ (ip ++ (colon ++ (generation_part generation ++ (colon ++ d.format_int bucket))))))

-- `var guard []byte; if admitted != "" { guard = []byte(admitted) }`
abbrev pub guard_of : Bytes → Option Bytes
guard_of [] = none
guard_of (c ∷ g) = some (c ∷ g)

module _ (n : Netip) where
  unfoldable pub canon_ip : Bytes → Bytes
  canon_ip ip = elim (n.canonical ip) [ none ↦ ip | some a ↦ a ]

  unfoldable pub block_key : Bytes → Bytes
  block_key ip = elim (n.canonical ip) [ none ↦ block_prefix ++ ip | some a ↦ block_prefix ++ a ]

  -- `notifyEnforcer` and `notifyOwnedEnforcer`: only for a text that is an address.
  abbrev notify : Bytes → Notice → List Notice
  notify ip notice = elim (n.canonical ip) [ none ↦ [] | some _ ↦ notice ∷ [] ]

  module _ (board : Scoreboard) (now : ℕ) where
    unfoldable pub hold_unblock : ShardedMemory → Bytes → Bytes → ShardedMemory
    unfolding canon_ip
    hold_unblock s ip generation =
        if is_positive board.unblock_hold
        then set_key (set_key s now (unblock_hold_key (canon_ip ip)) (b'1' ∷ []) board.unblock_hold)
            now (unblock_gen_key (canon_ip ip)) generation unblock_gen_retention
        else s

    -- The current generation of an IP; an absent key is the empty token.
    unfoldable pub unblock_token : ShardedMemory → Bytes → ShardedMemory × Bytes
    unblock_token s ip =
        if is_positive board.unblock_hold
        then (let (s', v) = get s now (unblock_gen_key ip) in
            (s', elim v [ none ↦ [] | some g ↦ g ]))
        else (s, [])

    unfoldable pub unblock : ShardedMemory → Bytes → ShardedMemory × List Notice
    unblock s ip = (delete_key s (block_key ip), notify ip (changed ip [] (pos 0) true))

    unfoldable pub reset_backoff : ShardedMemory → Bytes → ShardedMemory
    reset_backoff s ip = delete_key s (block_count_key (canon_ip ip))

    unfoldable pub unblock_commit : Bytes → Bytes → Bool → UnblockCommit
    unblock_commit ip generation reset = record {
      hold_key = unblock_hold_key ip;
      hold_value = b'1' ∷ [];
      hold_ttl = board.unblock_hold;
      generation_key = unblock_gen_key ip;
      generation = generation;
      generation_ttl = unblock_gen_retention;
      block_key = block_key ip;
      counter_key = block_count_key ip;
      reset_backoff = reset;
    }

    -- `CommitUnblock`, with the fresh generation as an argument.
    unfoldable pub commit_unblock_ip :
        ShardedMemory → Bytes → Bytes → Bool → ShardedMemory × Result (List Notice)
    unfolding unblock reset_backoff unblock_commit
    commit_unblock_ip s ip generation reset =
        let a = canon_ip ip in
        if is_positive board.unblock_hold
        then (let (s', r) = commit_unblock s now (unblock_commit a generation reset) in
            (s', elim r [ ok _ ↦ ok (notify a (changed a [] (pos 0) true)) | err e ↦ err e ]))
        else (let (s', told) = unblock (if reset then reset_backoff s a else s) a in (s', ok told))

    abbrev pub hard_max_block_ttl : ℤ
    hard_max_block_ttl = pos (30 * 24 * hour)

    -- The commit that `Block` asks for, from the generation it was admitted under and the block
    -- that it saw.
    unfoldable pub block_commit : Bytes → Bytes → Option Bytes → Bytes → ℤ → ℤ → BlockCommit
    block_commit ip admitted prev mine ttl max_ttl = record {
      block_key = block_key ip;
      expected_block = prev;
      new_block = mine;
      base_ttl = if is_positive ttl then ttl else pos minute;
      max_ttl = if is_positive max_ttl then max_ttl else hard_max_block_ttl;
      counter_key = block_count_key ip;
      counter_ttl = pos (24 * hour);
      hold_key = unblock_hold_key ip;
      guard_key = unblock_gen_key ip;
      guard_value = guard_of admitted;
    }

    module _ (d : Decimal) where
      abbrev told_of : Bytes → Bytes → Bytes → Result BlockCommitResult → Result (List Notice)
      told_of ip reason mine (err e) = err e
      told_of ip reason mine (ok r) =
          ok (if r.committed then notify ip (owned ip reason r.ttl (block_key ip) mine) else [])

      -- `Block`: the reads that admit it, then the conditional write.
      unfoldable pub block :
          ShardedMemory → Bytes → Bytes → Bytes → ℤ → ℤ → ShardedMemory × Result (List Notice)
      unfolding block_commit unblock_token
      block s ip reason random ttl max_ttl =
          let a = canon_ip ip in
          let (s1, admitted) = unblock_token s a in
          let (s2, prev) = get s1 now (block_key a) in
          let mine = block_value reason random in
          let (s3, r) = commit_block d s2 now (block_commit a admitted prev mine ttl max_ttl) in
          (s3, told_of a reason mine r)

      -- "threshold:"
      abbrev pub threshold_prefix : Bytes
      threshold_prefix = b't' ∷ b'h' ∷ b'r' ∷ b'e' ∷ b's' ∷ b'h' ∷ b'o' ∷ b'l' ∷ b'd' ∷ b':' ∷ []

      unfoldable pub event_commit : Bytes → Bytes → Bytes → ℤ → EventCommit
      event_commit evtype ip generation window = record {
        counter_key = event_key d evtype ip generation (pos (event_bucket now window));
        counter_ttl = mul64 (pos 2) window;
        hold_key = unblock_hold_key ip;
      }

      abbrev crossed : Result EventCommitResult → ℤ → Result Bool
      crossed (err e) limit = err e
      crossed (ok r) limit = ok (if r.committed then not (ltb_ℤ r.value limit) else false)

      -- `RecordEvent`: the store, whether the threshold was met, and the error or what the offload is
      -- told.
      unfoldable pub record_event :
          ShardedMemory
          → Bytes
          → Bytes
          → ℤ
          → ℤ
          → ℤ
          → ℤ
          → Bytes
          → ShardedMemory × Bool × Result (List Notice)
      unfolding block event_commit
      record_event s ip evtype limit window ttl max_ttl random =
          if is_positive limit
          then (if is_positive window
              then (let a = canon_ip ip in
                  let (s1, generation) = unblock_token s a in
                  let (s2, r) = commit_event d s1 now (event_commit evtype a generation window) in
                  elim (crossed r limit) [
                    | err e ↦ (s2, false, err e)
                    | ok false ↦ (s2, false, ok [])
                    | ok true ↦
                        (let (s3, told) =
                            block s2 a (threshold_prefix ++ evtype) random ttl max_ttl in
                          (s3, true, told))
                  ])
              else (s, false, ok []))
          else (s, false, ok [])

      -- The three buckets of one configured window, in the order the code deletes them.
      unfoldable pub delete_buckets : ShardedMemory → Bytes → Bytes → Bytes → ℤ → ShardedMemory
      delete_buckets s evtype ip generation window =
          let b = pos (event_bucket now window) in
          delete_key
            (delete_key (delete_key s (event_key d evtype ip generation (b -ℤ pos 1)))
              (event_key d evtype ip generation b))
            (event_key d evtype ip generation (pos (suc (event_bucket now window))))

      -- `ResetEventCounters`: the store, and the number of keys addressed.
      unfoldable pub reset_event_counters :
          ShardedMemory → Bytes → Bytes → List (Bytes × ℤ) → ShardedMemory × ℕ
      unfolding delete_buckets
      reset_event_counters s ip generation [] = (s, 0)
      reset_event_counters s ip generation (([], window) ∷ ws) =
          reset_event_counters s ip generation ws
      reset_event_counters s ip generation ((c ∷ ev, window) ∷ ws) =
          let (s', keys) =
            reset_event_counters
              (if is_positive window
                then delete_buckets s (c ∷ ev) (canon_ip ip) generation window
                else s)
              ip generation ws in
          (s', (if is_positive window then 3 else 0) + keys)
