-- ===== src/Tests/Commits.antt =====
-- Runs of the commits of core/store and of core/scoreboard.go.
use angie_guardian.Prelude.{
  ℕ, ◌*◌, ◌-◌, ◌≡◌, refl, arith, ◌&&◌, true, false, Option, none, some, List, [], ◌∷◌, Bytes,
  bytes_eq, if◌then◌else◌,
}
use angie_guardian.Prelude.Int.{ℤ, pos}
use angie_guardian.Prelude.Assoc.{lookup}
use angie_guardian.Store.{
  ok, minute, hour, BlockCommit, BlockCommitResult, refusal_none, EventCommit, UnblockCommit,
  block_backoff_ttl,
}
use angie_guardian.Memory.State.{
  expiry, is_central, shard_for, shard_map, fnv1a32, fnv1a, expired, passed,
}
use angie_guardian.Memory.Commit.{commit_block, commit_event, commit_unblock, is_found}
use angie_guardian.Memory.View.{view, live, entry_at, Same}
use angie_guardian.Memory.Blocks.{
  IsPlaced, allowed, offense_after, commit_block_refused, commit_block_commits,
}
use angie_guardian.Memory.Unblocks.{
  IsUnblock, commit_unblock_refines, tally, deadline_fits, commit_event_counts,
}
use angie_guardian.Memory.Trace.{Op, run, sets}
use angie_guardian.Memory.Trace.Frame.{run_frame, stale_block_refused}
use angie_guardian.Tests.Data.{cells, key, other, store, store-Bounded}

-- A first block, under a hold on `key` that is live, and one under a hold on `other` that is not.
abbrev block_at : Bytes → BlockCommit
block_at hold = record {
  block_key = b'b' ∷ b'l' ∷ b'o' ∷ b'c' ∷ b'k' ∷ b':' ∷ 49 ∷ [];
  expected_block = none;
  new_block = 119 ∷ [];
  base_ttl = pos minute;
  max_ttl = pos hour;
  counter_key = 99 ∷ [];
  counter_ttl = pos (24 * hour);
  hold_key = hold;
  guard_key = 103 ∷ [];
  guard_value = none;
}

block_at-IsPlaced : (hold : Bytes) → is_central hold ≡ false → IsPlaced (block_at hold)
unfolding is_central
block_at-IsPlaced hold h = record {
  block_central = refl;
  hold_shard = h;
  guard_shard = refl;
  counter_shard = refl;
}

key_shard : is_central key ≡ false
unfolding is_central
key_shard = refl

other_shard : is_central other ≡ false
unfolding is_central
other_shard = refl

held : allowed store 50 (block_at key) ≡ false
unfolding entry_at live is_central shard_map shard_for fnv1a32 fnv1a expired passed lookup
held = refl

free : allowed store 50 (block_at other) ≡ true
unfolding entry_at live is_central shard_map shard_for fnv1a32 fnv1a expired passed lookup
free = refl

commit_block_refused_example :
    (r : BlockCommitResult) × ((commit_block cells store 50 (block_at key)).1 ≡ ok r)
    × (r.committed ≡ false)
    × Same 50 store (commit_block cells store 50 (block_at key)).0
commit_block_refused_example =
    commit_block_refused cells store 50 (block_at key) store-Bounded
      (block_at-IsPlaced key key_shard) held

abbrev offense_of : ℤ × Option ℕ
offense_of = offense_after cells 50 (pos (24 * hour)) (view store 50 (99 ∷ []))

abbrev ttl_of : ℤ
ttl_of = block_backoff_ttl (pos minute) (pos hour) offense_of.0

commit_block_commits_example :
    ((commit_block cells store 50 (block_at other)).1
      ≡ ok (record {
        committed = true;
        offenses = offense_of.0;
        ttl = ttl_of;
        refusal = refusal_none;
      }))
    × (view (commit_block cells store 50 (block_at other)).0 60 key ≡ (
        if bytes_eq (block_at other).block_key key
        then live (some (record { value = 119 ∷ []; expires_at = expiry 50 ttl_of })) 60
        else if bytes_eq (99 ∷ []) key
        then live
            (some (record { value = cells.format_int offense_of.0; expires_at = offense_of.1 }))
            60
        else view store 60 key))
commit_block_commits_example =
    commit_block_commits cells store 50 (block_at other) store-Bounded
      (block_at-IsPlaced other other_shard) 60 key (omega arith) free

abbrev lift : UnblockCommit
lift = record {
  hold_key = 104 ∷ [];
  hold_value = 49 ∷ [];
  hold_ttl = pos (2 * minute);
  generation_key = 103 ∷ [];
  generation = 120 ∷ [];
  generation_ttl = pos (24 * hour);
  block_key = b'b' ∷ b'l' ∷ b'o' ∷ b'c' ∷ b'k' ∷ b':' ∷ 49 ∷ [];
  counter_key = 99 ∷ [];
  reset_backoff = true;
}

lift-IsUnblock : IsUnblock lift
unfolding is_central
lift-IsUnblock = record {
  block_central = refl;
  hold_shard = refl;
  generation_shard = refl;
  counter_shard = refl;
}

commit_unblock_refines_example :
    ((commit_unblock store 50 lift).1 ≡ ok tt)
    × (view (commit_unblock store 50 lift).0 60 key ≡ (
        if lift.reset_backoff && bytes_eq lift.counter_key key
        then none
        else if bytes_eq lift.block_key key
        then none
        else if bytes_eq lift.generation_key key
        then live
            (some (record { value = lift.generation; expires_at = expiry 50 lift.generation_ttl }))
            60
        else if bytes_eq lift.hold_key key
        then live
            (some (record { value = lift.hold_value; expires_at = expiry 50 lift.hold_ttl }))
            60
        else view store 60 key))
commit_unblock_refines_example =
    commit_unblock_refines store 50 lift store-Bounded lift-IsUnblock 60 key

abbrev event_at : Bytes → EventCommit
event_at hold = record { counter_key = key; counter_ttl = pos minute; hold_key = hold }

live_hold : is_found (view store 50 key) ≡ true
unfolding entry_at live is_central shard_map shard_for fnv1a32 fnv1a expired passed lookup
live_hold = refl

no_hold : is_found (view store 50 other) ≡ false
unfolding entry_at live is_central shard_map shard_for fnv1a32 fnv1a expired passed lookup
no_hold = refl

fits : deadline_fits 50 (pos minute) ≡ true
fits = refl

commit_event_counts_example :
    ((commit_event cells store 50 (event_at other)).1
      ≡ (tally cells 50 (pos minute) (view store 50 key)).1)
    × (view (commit_event cells store 50 (event_at other)).0 60 key ≡ (
        if bytes_eq key key
        then live (tally cells 50 (pos minute) (view store 50 key)).0 60
        else view store 60 key))
commit_event_counts_example =
    commit_event_counts cells store 50 (event_at other) store-Bounded other_shard key_shard 60 key
      (omega arith) no_hold fits

-- Two writes of other clients.
abbrev traffic : List (ℕ × Op)
traffic = (51, sets other (1 ∷ []) (pos 0)) ∷ (52, sets (100 ∷ []) (1 ∷ []) (pos 5)) ∷ []

run_frame_example : view (run cells store traffic) 60 key ≡ view store 60 key
run_frame_example =
    run_frame cells store traffic key 60 store-Bounded
      ((omega arith, tt, refl), ((omega arith, tt, refl), tt))

-- The block was admitted with no generation, and the unblock wrote one.
stale_block_refused_example :
    ((r : BlockCommitResult) × ((commit_block cells
          (run cells (commit_unblock store 50 lift).0 traffic)
          60
          (block_at other)).1
        ≡ ok r)
      × (r.committed ≡ false))
    × (view
          (commit_block cells
            (run cells (commit_unblock store 50 lift).0 traffic)
            60
            (block_at other)).0
          61
          key
        ≡ view (run cells (commit_unblock store 50 lift).0 traffic) 61 key)
stale_block_refused_example =
    stale_block_refused cells store 50 lift (24 * hour - 1) 60 store-Bounded lift-IsUnblock refl
      refl (omega arith) traffic (block_at other) 61 key (omega arith)
      ((omega arith, tt, refl), ((omega arith, tt, refl), tt)) (block_at-IsPlaced other other_shard)
      refl (λ e. cc)
