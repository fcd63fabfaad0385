-- ===== src/Memory/Commit.antt =====
-- core/store/sharded_memory.go: the conditional mutations behind blocks, events and unblocks.
use angie_guardian.Prelude.{
  ℕ, Bool, true, false, Option, none, some, if◌then◌else◌, Bytes, bytes_key,
}
use angie_guardian.Prelude.Int.{ℤ, pos}
use angie_guardian.Prelude.Int64.{add64}
use angie_guardian.Prelude.Assoc.{insert, delete}
use angie_guardian.Store.{
  Deadline, Decimal, Result, ok, err, not_a_block_key, BlockCommit, BlockCommitResult, BlockRefusal,
  refusal_none, refusal_hold, refusal_generation, refusal_block, EventCommit, EventCommitResult,
  UnblockCommit, block_backoff_ttl, counter_value,
}
use angie_guardian.Memory.State.{
  Entry, ShardedMemory, expiry, is_central, shard_map, with_shard_map, get_shard, get_central,
  insert_central, delete_central,
}
use angie_guardian.Memory.Ops.{matches, incr_shard, unix_deadline}

-- A read of a key's shard: `getShard(s.shardFor(key).m, key)`.
unfoldable pub read_shard : ShardedMemory → ℕ → Bytes → ShardedMemory × Option Entry
read_shard s now key =
    let (m, e) = get_shard (shard_map s key) key now in (with_shard_map s key m, e)

abbrev pub refused : BlockRefusal → BlockCommitResult
refused r = record { committed = false; offenses = pos 0; ttl = pos 0; refusal = r }

abbrev pub is_found : Option Entry → Bool
is_found none = false
is_found (some e) = true

abbrev pub event_result : Result (ℤ × Bool) → Result EventCommitResult
event_result (ok (n, applied)) = ok (record { committed = applied; value = n })
event_result (err e) = err e

module _ (d : Decimal) where
  -- The offense that this block is, and when its counter expires.
  unfoldable pub next_offense : ℕ → ℤ → Option Entry → ℤ × Deadline
  next_offense now counter_ttl none = (pos 1, expiry now counter_ttl)
  next_offense now counter_ttl (some e) = (add64 (counter_value d e.value) (pos 1), e.expires_at)

  -- The writes of `CommitBlock`, once every comparison has passed.
  unfoldable pub write_block : ShardedMemory → ℕ → BlockCommit → ShardedMemory × BlockCommitResult
  unfolding read_shard
  write_block s now c =
      let (s', counter) = read_shard s now c.counter_key in
      let (offenses, counter_expiry) = next_offense now c.counter_ttl counter in
      let ttl = block_backoff_ttl c.base_ttl c.max_ttl offenses in
      let count : Entry = record { value = d.format_int offenses; expires_at = counter_expiry } in
      let block : Entry = record { value = c.new_block; expires_at = expiry now ttl } in
      let t =
        with_shard_map s' c.counter_key (insert c.counter_key count (shard_map s' c.counter_key)) in
      let b = insert_central t.central c.block_key block in
      (
        record t { central = record b { active_blocks = insert c.block_key tt b.active_blocks } },
        record { committed = true; offenses = offenses; ttl = ttl; refusal = refusal_none },
      )

  unfoldable pub commit_block :
      ShardedMemory → ℕ → BlockCommit → ShardedMemory × Result BlockCommitResult
  unfolding read_shard write_block
  commit_block s now c =
      if is_central c.block_key
      then (let (s1, held) = read_shard s now c.hold_key in
          if is_found held
          then (s1, ok (refused refusal_hold))
          else (let (s2, guard) = read_shard s1 now c.guard_key in
              if matches c.guard_value guard
              then (let (central, current) = get_central s2.central c.block_key now in
                  let s3 = record s2 { central = central } in
                  if matches c.expected_block current
                  then (let (s4, r) = write_block s3 now c in (s4, ok r))
                  else (s3, ok (refused refusal_block)))
              else (s2, ok (refused refusal_generation))))
      else (s, err (not_a_block_key c.block_key))

  unfoldable pub commit_event :
      ShardedMemory → ℕ → EventCommit → ShardedMemory × Result EventCommitResult
  unfolding read_shard unix_deadline
  commit_event s now c =
      let (s1, held) = read_shard s now c.hold_key in
      if is_found held
      then (s1, ok (record { committed = false; value = pos 0 }))
      else (let (m, r) =
            incr_shard d (shard_map s1 c.counter_key) now c.counter_key (pos 1)
              (unix_deadline now c.counter_ttl) in
          (with_shard_map s1 c.counter_key m, event_result r))

unfoldable pub commit_unblock :
    ShardedMemory → ℕ → UnblockCommit → ShardedMemory × Result (Unit {0})
commit_unblock s now c =
    if is_central c.block_key
    then (let hold : Entry = record { value = c.hold_value; expires_at = expiry now c.hold_ttl } in
        let generation : Entry = record {
          value = c.generation;
          expires_at = expiry now c.generation_ttl;
        } in
        let s1 = with_shard_map s c.hold_key (insert c.hold_key hold (shard_map s c.hold_key)) in
        let s2 =
          with_shard_map s1 c.generation_key
            (insert c.generation_key generation (shard_map s1 c.generation_key)) in
        let s3 = record s2 { central = delete_central s2.central c.block_key } in
        (
          if c.reset_backoff
              then with_shard_map s3 c.counter_key
                  (delete c.counter_key (shard_map s3 c.counter_key))
              else s3,
          ok tt,
        ))
    else (s, err (not_a_block_key c.block_key))
