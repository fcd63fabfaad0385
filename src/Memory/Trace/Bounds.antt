-- ===== src/Memory/Trace/Bounds.antt =====
-- The number of shards and the mask over the operations of core/store/sharded_memory.go.
use angie_guardian.Prelude.{ℕ, Option, none, some, inl, inr, Bytes, Bool-cases, bytes_key}
use angie_guardian.Prelude.Int.{ℤ}
use angie_guardian.Store.{Deadline, Decimal, BlockCommit, EventCommit, UnblockCommit}
use angie_guardian.Memory.State.{ShardedMemory, is_central, get_shard, get_central, shard_map}
use angie_guardian.Memory.Ops.{
  get, set_key, delete_key, incr_by_deadline, compare_and_swap, compare_and_delete, matches, holds,
}
use angie_guardian.Memory.Commit.{
  read_shard, is_found, write_block, commit_block, commit_event, commit_unblock,
}
use angie_guardian.Memory.Trace.{
  Op, reads, sets, deletes, adds, swaps, takes_back, commits, scores, unblocks, apply,
}
use angie_guardian.Memory.View.{Bounded, with_shard_map-Bounded}

module _ (s : ShardedMemory) (now : ℕ) (k : Bytes) (b : Bounded s) where
  pub get-Bounded : Bounded (get s now k).0
  unfolding get
  get-Bounded = elim (Bool-cases (is_central k)) [
    | inl c ↦ rw (c, get) b
    | inr c ↦ rw (c, get) (with_shard_map-Bounded s k _ b)
  ]

  set_key-Bounded : (v : Bytes) (ttl : ℤ) → Bounded (set_key s now k v ttl)
  unfolding set_key
  set_key-Bounded v ttl = elim (Bool-cases (is_central k)) [
    | inl c ↦ rw (c, set_key) b
    | inr c ↦ rw (c, set_key) (with_shard_map-Bounded s k _ b)
  ]

  delete_key-Bounded : Bounded (delete_key s k)
  unfolding delete_key
  delete_key-Bounded = elim (Bool-cases (is_central k)) [
    | inl c ↦ rw (c, delete_key) b
    | inr c ↦ rw (c, delete_key) (with_shard_map-Bounded s k _ b)
  ]

  incr-Bounded :
      (d : Decimal) (delta : ℤ) (t : Deadline) → Bounded (incr_by_deadline d s now k delta t).0
  unfolding incr_by_deadline
  incr-Bounded d delta t = elim (Bool-cases (is_central k)) [
    | inl c ↦ rw (c, incr_by_deadline) b
    | inr c ↦ rw (c, incr_by_deadline) (with_shard_map-Bounded s k _ b)
  ]

  swap-Bounded :
      (old : Option Bytes) (new : Bytes) (ttl : ℤ)
      → Bounded (compare_and_swap s now k old new ttl).0
  unfolding compare_and_swap
  swap-Bounded old new ttl = elim (Bool-cases (is_central k)) [
    | inl c ↦ elim (Bool-cases (matches old (get_central s.central k now).1)) [
      | inl m ↦ rw (c, compare_and_swap, m) b
      | inr m ↦ rw (c, compare_and_swap, m) b
    ]
    | inr c ↦ elim (Bool-cases (matches old (get_shard (shard_map s k) k now).1)) [
      | inl m ↦ rw (c, compare_and_swap, m) (with_shard_map-Bounded s k _ b)
      | inr m ↦ rw (c, compare_and_swap, m) (with_shard_map-Bounded s k _ b)
    ]
  ]

  take_back-Bounded : (old : Option Bytes) → Bounded (compare_and_delete s now k old).0
  unfolding compare_and_delete
  take_back-Bounded none = b
  take_back-Bounded (some old) = elim (Bool-cases (is_central k)) [
    | inl c ↦ elim (Bool-cases (holds old (get_central s.central k now).1)) [
      | inl m ↦ rw (c, compare_and_delete, m) b
      | inr m ↦ rw (c, compare_and_delete, m) b
    ]
    | inr c ↦ elim (Bool-cases (holds old (get_shard (shard_map s k) k now).1)) [
      | inl m ↦ rw (c, compare_and_delete, m) (with_shard_map-Bounded s k _ b)
      | inr m ↦ rw (c, compare_and_delete, m) (with_shard_map-Bounded s k _ b)
    ]
  ]

  read-Bounded : Bounded (read_shard s now k).0
  unfolding read_shard
  read-Bounded = with_shard_map-Bounded s k _ b

write_block-Bounded :
    (d : Decimal) (s : ShardedMemory) (now : ℕ) (c : BlockCommit)
    → Bounded s
    → Bounded (write_block d s now c).0
unfolding write_block
write_block-Bounded d s now c b =
    with_shard_map-Bounded (read_shard s now c.counter_key).0 c.counter_key _
      (read-Bounded s now c.counter_key b)

module _ (d : Decimal) (s : ShardedMemory) (now : ℕ) (b : Bounded s) where
  commit_event-Bounded : (c : EventCommit) → Bounded (commit_event d s now c).0
  unfolding commit_event
  commit_event-Bounded c = elim (Bool-cases (is_found (read_shard s now c.hold_key).1)) [
    | inl h ↦ rw (h, commit_event) (read-Bounded s now c.hold_key b)
    | inr h ↦
        rw (h, commit_event)
          (with_shard_map-Bounded (read_shard s now c.hold_key).0 c.counter_key _
            (read-Bounded s now c.hold_key b))
  ]

  commit_unblock-Bounded : (c : UnblockCommit) → Bounded (commit_unblock s now c).0
  unfolding commit_unblock
  commit_unblock-Bounded c = elim (Bool-cases (is_central c.block_key)) [
    | inl y ↦ elim (Bool-cases c.reset_backoff) [
      | inl r ↦
          rw (y, commit_unblock, r)
            (with_shard_map-Bounded _ c.counter_key _ (
              with_shard_map-Bounded _ c.generation_key _
                (with_shard_map-Bounded s c.hold_key _ b)))
      | inr r ↦
          rw (y, commit_unblock, r)
            (with_shard_map-Bounded _ c.generation_key _ (with_shard_map-Bounded s c.hold_key _ b))
    ]
    | inr n ↦ rw (n, commit_unblock) b
  ]

  commit_block-Bounded : (c : BlockCommit) → Bounded (commit_block d s now c).0
  unfolding commit_block
  commit_block-Bounded c = elim (Bool-cases (is_central c.block_key)) [
    | inr n ↦ rw (n, commit_block) b
    | inl y ↦
        let s1 = (read_shard s now c.hold_key).0 in
        let s2 = (read_shard s1 now c.guard_key).0 in
        let b1 : Bounded s1 = read-Bounded s now c.hold_key b in
        let b2 : Bounded s2 = read-Bounded s1 now c.guard_key b1 in
        elim (Bool-cases (is_found (read_shard s now c.hold_key).1)) [
          | inl h ↦ rw (y, commit_block, h) b1
          | inr h ↦ elim (Bool-cases (matches c.guard_value (read_shard s1 now c.guard_key).1)) [
            | inr g ↦ rw (y, commit_block, h, g) b2
            | inl g ↦
                elim (Bool-cases
                  (matches c.expected_block (get_central s2.central c.block_key now).1)) [
                    | inl x ↦
                        rw (y, commit_block, h, g, x)
                          (write_block-Bounded d
                            (record s2 { central = (get_central s2.central c.block_key now).0 }) now
                            c b2)
                    | inr x ↦ rw (y, commit_block, h, g, x) b2
                  ]
          ]
        ]
  ]

-- Every operation leaves the number of shards and the mask as they were.
pub apply-Bounded :
    (d : Decimal) (s : ShardedMemory) (now : ℕ) (op : Op) → Bounded s → Bounded (apply d s now op)
unfolding apply
apply-Bounded d s now (reads k) b = get-Bounded s now k b
apply-Bounded d s now (sets k v ttl) b = set_key-Bounded s now k b v ttl
apply-Bounded d s now (deletes k) b = delete_key-Bounded s now k b
apply-Bounded d s now (adds k delta t) b = incr-Bounded s now k b d delta t
apply-Bounded d s now (swaps k old new ttl) b = swap-Bounded s now k b old new ttl
apply-Bounded d s now (takes_back k old) b = take_back-Bounded s now k b old
apply-Bounded d s now (commits c) b = commit_block-Bounded d s now b c
apply-Bounded d s now (scores c) b = commit_event-Bounded d s now b c
apply-Bounded d s now (unblocks c) b = commit_unblock-Bounded d s now b c
