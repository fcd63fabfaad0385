-- ===== src/Tests/Stores.antt =====
-- Runs of core/store.
use angie_guardian.Prelude.{
  ◌*◌, ◌^◌, min, ◌≡◌, refl, arith, ◌&&◌, true, none, some, [], ◌∷◌, bytes_eq, if◌then◌else◌,
}
use angie_guardian.Prelude.Int.{pos}
use angie_guardian.Store.{ok, minute, hour, block_backoff_ttl}
use angie_guardian.Store.Ladder.{positive_or, block_backoff_ttl-doubles}
use angie_guardian.Prelude.Assoc.{lookup}
use angie_guardian.Prelude.Int64.{add64}
use angie_guardian.Memory.State.{
  expiry, is_central, shard_for, shard_map, fnv1a32, fnv1a, expired, passed,
}
use angie_guardian.Memory.Ops.{compare_and_swap, matches, incr_by_deadline}
use angie_guardian.Memory.View.{view, live, entry_at}
use angie_guardian.Memory.Reads.{compare_and_swap_refines}
use angie_guardian.Memory.Counters.{incr_by_deadline_adds}
use angie_guardian.Tests.Data.{cells, key, other, counted, store, store-Bounded}

block_backoff_ttl-doubles_example :
    block_backoff_ttl (pos minute) (pos hour) (pos 3)
    ≡ pos (min (positive_or (pos hour) (30 * 24 * hour)) (positive_or (pos minute) minute * 2 ^ 2))
block_backoff_ttl-doubles_example =
    block_backoff_ttl-doubles (pos minute) (pos hour) 2 (omega arith)

seen : view store 50 key ≡ some counted
unfolding entry_at live is_central shard_map shard_for fnv1a32 fnv1a expired passed lookup
seen = refl

unseen : view store 50 other ≡ none
unfolding entry_at live is_central shard_map shard_for fnv1a32 fnv1a expired passed lookup
unseen = refl

compare_and_swap_refines_example :
    ((compare_and_swap store 50 key (some (3 ∷ [])) (4 ∷ []) (pos 0)).1
      ≡ matches (some (3 ∷ [])) (view store 50 key))
    × (view (compare_and_swap store 50 key (some (3 ∷ [])) (4 ∷ []) (pos 0)).0 60 key ≡ (
        if bytes_eq key key && matches (some (3 ∷ [])) (view store 50 key)
        then live (some (record { value = 4 ∷ []; expires_at = expiry 50 (pos 0) })) 60
        else view store 60 key))
compare_and_swap_refines_example =
    compare_and_swap_refines store 50 key store-Bounded (some (3 ∷ [])) (4 ∷ []) (pos 0) 60 key
      (omega arith)

incr_by_deadline_adds_example :
    ((incr_by_deadline cells store 50 key (pos 2) (some 70)).1 ≡ ok (add64 (pos 3) (pos 2), true))
    × (view (incr_by_deadline cells store 50 key (pos 2) (some 70)).0 60 key ≡ (
        if bytes_eq key key
        then live (some (record counted { value = cells.format_int (add64 (pos 3) (pos 2)) })) 60
        else view store 60 key))
incr_by_deadline_adds_example =
    incr_by_deadline_adds cells store 50 key store-Bounded (pos 2) (pos 3) counted 70 60 key
      (omega arith) seen refl
