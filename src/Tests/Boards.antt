-- ===== src/Tests/Boards.antt =====
-- Runs of core/scoreboard.go.
use angie_guardian.Prelude.{
  ℕ, ◌+◌, ◌*◌, ◌-◌, ◌≡◌, refl, ap, arith, not, true, false, Option, none, some, List, [], ◌∷◌,
  Bytes, Bool,
}
use angie_guardian.Prelude.Int.{ℤ, pos, ltb_ℤ}
use angie_guardian.Prelude.Assoc.{lookup}
use angie_guardian.Store.{ok, minute, hour, second, BlockCommitResult}
use angie_guardian.Memory.State.{
  Entry, ShardedMemory, is_central, shard_for, shard_map, fnv1a32, fnv1a, expired, passed,
  get_shard,
}
use angie_guardian.Memory.Ops.{get}
use angie_guardian.Memory.Commit.{commit_block, commit_unblock, is_found}
use angie_guardian.Memory.View.{view, live, entry_at}
use angie_guardian.Memory.Trace.{Op, run, sets}
use angie_guardian.Scoreboard.{
  new_scoreboard, canon_ip, block_key, unblock_hold_key, unblock_gen_key, unblock_commit,
  block_commit, record_event, unblock_token, event_key, event_bucket, block_count_key,
  threshold_prefix,
}
use angie_guardian.Scoreboard.Placed.{has_token, next_block}
use angie_guardian.Prelude.{◌++◌, if◌then◌else◌}
use angie_guardian.Prelude.Int64.{is_positive}
use angie_guardian.Scoreboard.Race.{unblock_final}
use angie_guardian.Scoreboard.Threshold.{record_event_held, record_event_threshold}
use angie_guardian.Tests.Data.{cells, plain_ip, address, key, other, counted, store, store-Bounded}

abbrev traffic : List (ℕ × Op)
traffic = (51, sets other (1 ∷ []) (pos 0)) ∷ []

abbrev quiet_store : ShardedMemory
quiet_store =
    run cells
      (commit_unblock store 50
        (unblock_commit plain_ip new_scoreboard 50 address (120 ∷ []) true)).0
      traffic

-- A block that was admitted before the generation "x" of the unblock.
unblock_final_example :
    ((r : BlockCommitResult) × ((commit_block cells quiet_store 60 (
          block_commit plain_ip new_scoreboard 50 address [] none
            (119 ∷ [])
            (pos minute)
            (pos hour))).1
        ≡ ok r)
      × (r.committed ≡ false))
    × (view
          (commit_block cells quiet_store 60 (
            block_commit plain_ip new_scoreboard 50 address [] none
              (119 ∷ [])
              (pos minute)
              (pos hour))).0
          60
          (block_key plain_ip address)
        ≡ none)
unfolding unblock_gen_key block_key canon_ip
unblock_final_example =
    unblock_final cells plain_ip new_scoreboard store store-Bounded 50 address (120 ∷ []) true
      traffic 60 [] none (119 ∷ []) (pos minute) (pos hour) (omega arith) (λ e. cc)
      ((omega arith, tt, refl), tt) ((omega arith, tt, refl), tt)

abbrev held_shard : List (Bytes × Entry)
held_shard = (unblock_hold_key address, counted) ∷ []

abbrev held_store : ShardedMemory
held_store = record store { shards = held_shard ∷ held_shard ∷ [] }

hold_live : is_found (view held_store 50 (unblock_hold_key (canon_ip plain_ip address))) ≡ true
unfolding entry_at live is_central shard_map shard_for fnv1a32 fnv1a expired passed lookup
    unblock_hold_key canon_ip
hold_live = refl

record_event_held_example :
    ((record_event plain_ip new_scoreboard 50 cells held_store address
        (119 ∷ [])
        (pos 3)
        (pos (60 * second))
        (pos minute)
        (pos hour)
        (7 ∷ [])).1
      ≡ false)
    × ((record_event plain_ip new_scoreboard 50 cells held_store address
          (119 ∷ [])
          (pos 3)
          (pos (60 * second))
          (pos minute)
          (pos hour)
          (7 ∷ [])).2
        ≡ ok [])
    × (view
          (record_event plain_ip new_scoreboard 50 cells held_store address
            (119 ∷ [])
            (pos 3)
            (pos (60 * second))
            (pos minute)
            (pos hour)
            (7 ∷ [])).0
          60
          key
        ≡ view held_store 60 key)
record_event_held_example =
    record_event_held cells plain_ip new_scoreboard 50 held_store store-Bounded address (119 ∷ [])
      (pos 3) (pos minute) (pos hour) (7 ∷ []) 2 (60 * second - 1) refl 60 key (omega arith)
      hold_live

no_hold : is_found (view store 50 (unblock_hold_key (canon_ip plain_ip address))) ≡ false
unfolding entry_at live is_central shard_map shard_for fnv1a32 fnv1a expired passed lookup
    unblock_hold_key canon_ip
no_hold = refl

abbrev counter : Bytes
counter =
    event_key cells (119 ∷ []) (canon_ip plain_ip address)
      (unblock_token plain_ip new_scoreboard 50 store (canon_ip plain_ip address)).1
      (pos (event_bucket 50 (pos (60 * second))))

no_count : view store 50 counter ≡ none
unfolding entry_at live is_central shard_map shard_for fnv1a32 fnv1a expired passed lookup canon_ip
    event_key event_bucket unblock_token new_scoreboard get unblock_gen_key get_shard
no_count = refl

no_generation : has_token (view store 50 (unblock_gen_key (canon_ip plain_ip address))) ≡ true
unfolding entry_at live is_central shard_map shard_for fnv1a32 fnv1a expired passed lookup
    unblock_gen_key canon_ip
no_generation = refl

holds_on : is_positive new_scoreboard.unblock_hold ≡ true
unfolding new_scoreboard
holds_on = refl

abbrev scored : ShardedMemory × Bool
scored =
    let r =
      record_event plain_ip new_scoreboard 50 cells store address (119 ∷ []) (pos 1)
        (pos (60 * second)) (pos minute) (pos hour) (7 ∷ []) in
    (r.0, r.1)

-- The first event, with a limit of one.
record_event_threshold_example :
    (scored.1 ≡ not (ltb_ℤ (pos (0 + 1)) (pos 1)))
    × (view scored.0 60 (block_key plain_ip (canon_ip plain_ip address)) ≡ (
        if not (ltb_ℤ (pos (0 + 1)) (pos 1))
        then live
            (some (
              next_block cells 50
                (view store 50 (block_count_key (canon_ip plain_ip address)))
                (threshold_prefix plain_ip new_scoreboard 50 cells ++ (119 ∷ []))
                (7 ∷ [])
                (pos minute)
                (pos hour)))
            60
        else view store 60 (block_key plain_ip (canon_ip plain_ip address))))
record_event_threshold_example =
    record_event_threshold cells plain_ip new_scoreboard 50 store store-Bounded address (119 ∷ [])
      (pos 1) (pos minute) (pos hour) (7 ∷ []) 0 (60 * second - 1) refl 0 60 (omega arith)
      (omega arith) (omega arith) holds_on no_hold no_generation
      (ap
        (λ (o : Option Entry). elim o as (λ _. Option ℤ) [
          | none ↦ some (pos 0)
          | some e ↦ cells.parse_int e.value
        ])
        no_count)
