-- ===== src/Tests/Rings.antt =====
-- Runs of core/recent.go, core/enforce/mirror.go and core/pow/tokencache.go.
use angie_guardian.Prelude.{
  ℕ, ◌+◌, ◌≤◌, ◌≡◌, refl, arith, min, max, true, false, none, List, [], ◌∷◌, Bytes, bytes_key, ltb,
  length, take,
}
use angie_guardian.Prelude.Int.{pos, pos_part}
use angie_guardian.Prelude.Assoc.{Map, lookup, insert, size}
use angie_guardian.Recent.{RecentDecision, blank, new_recent_ring, add_all, snapshot, wanted}
use angie_guardian.Recent.Ring.{newest_first, capacity_of, snapshot_newest}
use angie_guardian.Enforce.{
  BlockEntry, new_mirror, sets, removes, reconciles, count, run_mirror, shard_count, get, remove,
  bury, max_tombstones, cleans, checks, prunes,
}
use angie_guardian.Enforce.Pass.{Pass, begin_pass, Section, own, foreign, puts, buries, play}
use angie_guardian.Enforce.Sizes.{run_mirror_bounded}
use angie_guardian.Enforce.Reconcile.{is_writing, burials, play-remove}
use angie_guardian.Pow.TokenCache.{
  TokenCache, CacheOp, puts, claims, resets, run_cache, new_token_cache, claim, max_cache_entries,
}
use angie_guardian.Pow.TokenCache as Cache
use angie_guardian.Pow.TokenCache.Claims.{Granted, run_cache-Granted, run_cache_bounded}
use angie_guardian.Tests.Data.{key, other}

abbrev denial : ℕ → ℕ × RecentDecision
denial now = (now, record blank { time = now; uri = 47 ∷ [] })

-- Three decisions in a ring of two.
abbrev busy : List (ℕ × RecentDecision)
busy = denial 5 ∷ denial 6 ∷ denial 7 ∷ []

snapshot_newest_example :
    let shown = snapshot (add_all (new_recent_ring (pos 2) 1) busy) (pos 1) in
    let kept = min (length (newest_first busy [])) (capacity_of (pos 2)) in
    (shown.decisions ≡ take (wanted (pos 1) kept) (newest_first busy []))
    × (shown.is_full ≡ ltb (capacity_of (pos 2)) (length (newest_first busy [])))
    × (shown.capacity ≡ capacity_of (pos 2))
snapshot_newest_example = snapshot_newest (pos 2) (pos 1) 1 busy

abbrev as16 : Bytes → Bytes
as16 a = a

abbrev blocked : BlockEntry
blocked = record { why = 119 ∷ []; expires_at = 0; inserted_at = 40 }

abbrev scanned : Map Bytes BlockEntry
scanned = (key, blocked) ∷ (other, blocked) ∷ []

run_mirror_bounded_example :
    count (
      run_mirror as16 (new_mirror (pos 64)) (
        sets key blocked
        ∷ reconciles scanned 41 true
        ∷ cleans 3 scanned 45
        ∷ removes key 50
        ∷ checks key 45
        ∷ prunes 45
        ∷ []))
    ≤ max (pos_part (pos 64)) shard_count
run_mirror_bounded_example = run_mirror_bounded as16 (pos 64) (
    sets key blocked
    ∷ reconciles scanned 41 true
    ∷ cleans 3 scanned 45
    ∷ removes key 50
    ∷ checks key 45
    ∷ prunes 45
    ∷ [])

-- The checks of both entries of a partial scan and the write of the other one, with a write-through
-- and half a removal of another client between them.
abbrev course : List Section
course = own ∷ foreign (puts other blocked) ∷ own ∷ foreign (buries other 51) ∷ own ∷ own ∷ own ∷ []

abbrev pass : Pass
pass = begin_pass scanned 41 false

not_writing : is_writing key pass.turn ≡ false
unfolding begin_pass
not_writing = refl

pass_start : pass.scan_start ≡ 41
unfolding begin_pass
pass_start = refl

room_left : size (remove as16 (new_mirror (pos 64)) key 50).tombs + burials course ≤ max_tombstones
unfolding remove new_mirror bury insert
room_left = omega arith

shards_made : length (new_mirror (pos 64)).shards ≡ shard_count
unfolding new_mirror
shards_made = refl

play-remove_example :
    get as16 (play as16 (remove as16 (new_mirror (pos 64)) key 50) pass course).0 key 60 ≡ none
play-remove_example =
    play-remove as16 (new_mirror (pos 64)) pass key 50 60 course shards_made
      (omega (arith, pass_start)) not_writing room_left
      (tt, (refl, (tt, (refl, (tt, (tt, (tt, tt)))))))

abbrev claimed : List (ℕ × CacheOp)
claimed = (1, resets) ∷ (5, claims key 20) ∷ []

run_cache-Granted_example : Granted key 10 claimed
unfolding Cache.get run_cache new_token_cache lookup insert
run_cache-Granted_example = run_cache-Granted claimed key 10 refl

run_cache_bounded_example : size (run_cache new_token_cache claimed).m ≤ max_cache_entries
run_cache_bounded_example = run_cache_bounded claimed
