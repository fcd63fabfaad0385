-- ===== src/Memory/Trace.antt =====
-- Interleavings on the in-memory store: operations of any writers, one after another, each atomic
-- under the store's locks.
pub mod Bounds
pub mod Frame
use angie_guardian.Prelude.{
  ℕ, ◌≤◌, ◌≡◌, Bool, true, false, not, ◌&&◌, Option, List, [], ◌∷◌, Bytes, bytes_eq,
}
use angie_guardian.Prelude.Int.{ℤ}
use angie_guardian.Store.{Deadline, Decimal, BlockCommit, EventCommit, UnblockCommit}
use angie_guardian.Memory.State.{ShardedMemory, is_central}
use angie_guardian.Memory.Ops.{
  get, set_key, delete_key, incr_by_deadline, compare_and_swap, compare_and_delete,
}
use angie_guardian.Memory.Commit.{commit_block, commit_event, commit_unblock}
use angie_guardian.Memory.Blocks.{IsPlaced}
use angie_guardian.Memory.Unblocks.{IsUnblock}

-- The calls of the Store interface on single keys.
pub data Op : Type 0 where
  reads : Bytes → Op
  sets : Bytes → Bytes → ℤ → Op
  deletes : Bytes → Op
  adds : Bytes → ℤ → Deadline → Op
  swaps : Bytes → Option Bytes → Bytes → ℤ → Op
  takes_back : Bytes → Option Bytes → Op
  commits : BlockCommit → Op
  scores : EventCommit → Op
  unblocks : UnblockCommit → Op

unfoldable pub apply : Decimal → ShardedMemory → ℕ → Op → ShardedMemory
apply d s now (reads k) = (get s now k).0
apply d s now (sets k v ttl) = set_key s now k v ttl
apply d s now (deletes k) = delete_key s k
apply d s now (adds k delta t) = (incr_by_deadline d s now k delta t).0
apply d s now (swaps k old new ttl) = (compare_and_swap s now k old new ttl).0
apply d s now (takes_back k old) = (compare_and_delete s now k old).0
apply d s now (commits c) = (commit_block d s now c).0
apply d s now (scores c) = (commit_event d s now c).0
apply d s now (unblocks c) = (commit_unblock s now c).0

unfoldable pub run : Decimal → ShardedMemory → List (ℕ × Op) → ShardedMemory
run d s [] = s
run d s ((now, op) ∷ ops) = run d (apply d s now op) ops

-- The operation writes other keys only.
abbrev pub spares : Bytes → Op → Bool
spares g (reads k) = true
spares g (sets k v ttl) = not (bytes_eq k g)
spares g (deletes k) = not (bytes_eq k g)
spares g (adds k delta t) = not (bytes_eq k g)
spares g (swaps k old new ttl) = not (bytes_eq k g)
spares g (takes_back k old) = not (bytes_eq k g)
spares g (commits c) = not (bytes_eq c.block_key g) && not (bytes_eq c.counter_key g)
spares g (scores c) = not (bytes_eq c.counter_key g)
spares g (unblocks c) =
    not (bytes_eq c.block_key g)
    && (not (bytes_eq c.counter_key g)
        && (not (bytes_eq c.generation_key g) && not (bytes_eq c.hold_key g)))

-- The keys of the conditional mutations stand where the store expects them.
abbrev pub IsPlacedOp : Op → Type 0
IsPlacedOp (commits c) = IsPlaced c
IsPlacedOp (scores c) = (is_central c.hold_key ≡ false) × (is_central c.counter_key ≡ false)
IsPlacedOp (unblocks c) = IsUnblock c
IsPlacedOp _ = Unit
