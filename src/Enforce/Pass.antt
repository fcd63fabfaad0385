-- ===== src/Enforce/Pass.antt =====
-- core/enforce/mirror.go: a reconcile as its locked sections, with the calls of other goroutines
-- between them.
use angie_guardian.Prelude.{ℕ, ◌+◌, Bool, ◌&&◌, List, [], ◌∷◌, Bytes, bytes_key, ltb, if◌then◌else◌}
use angie_guardian.Prelude.Assoc.{Map, delete}
use angie_guardian.Enforce.{
  BlockEntry, Mirror, shard_count, shard, with_shard, clean_shard, set_block, removed_since,
  prune_tombstones, bury,
}

-- Where a reconcile stands: before the shard to clean next, before the next entry of the scan, after
-- the check of an entry and before its write, before the cleaning of the log, at the end.
pub data Turn : Type 0 where
  cleaning : ℕ → Turn
  checking : Map Bytes BlockEntry → Turn
  writing : Bytes → BlockEntry → Map Bytes BlockEntry → Turn
  pruning : Turn
  finished : Turn

pub record Pass : Type 0 where
  pub active : Map Bytes BlockEntry
  pub scan_start : ℕ
  pub turn : Turn
  pub complete : Bool

unfoldable pub begin_pass : Map Bytes BlockEntry → ℕ → Bool → Pass
begin_pass active scan_start scanned_all = record {
  active = active;
  scan_start = scan_start;
  turn = if scanned_all then cleaning 0 else checking active;
  complete = scanned_all;
}

-- A section of another goroutine: a write-through, and the two of a removal.
pub data Call : Type 0 where
  puts : Bytes → BlockEntry → Call
  deletes : Bytes → Call
  buries : Bytes → ℕ → Call

-- A section of the reconcile, or of another goroutine.
pub data Section : Type 0 where
  own : Section
  foreign : Call → Section

module _ (as16 : Bytes → Bytes) where
  unfoldable pub advance : Mirror → Pass → Turn → Mirror × Pass
  unfolding clean_shard set_block removed_since prune_tombstones
  advance mr p (cleaning i) =
      if ltb i shard_count
      then (clean_shard mr p.active p.scan_start i, record p { turn = cleaning (i + 1) })
      else (mr, record p { turn = checking p.active })
  advance mr p (checking []) = (mr, record p { turn = pruning })
  advance mr p (checking ((k, e) ∷ others)) =
      let (seen, vetoed) = removed_since mr k p.scan_start in
      (seen, record p { turn = if vetoed then checking others else writing k e others })
  advance mr p (writing k e others) =
      let (written, fits) = set_block as16 mr k e in
      (written, record p { turn = checking others; complete = fits && p.complete })
  advance mr p pruning = (prune_tombstones mr p.scan_start, record p { turn = finished })
  advance mr p finished = (mr, record p { turn = finished })

  unfoldable pub call : Mirror → Call → Mirror
  unfolding set_block bury
  call mr (puts k e) = (set_block as16 mr k e).0
  call mr (deletes k) = with_shard as16 mr k (delete k (shard as16 mr k))
  call mr (buries k now) = record mr { tombs = bury mr.tombs k now }

  unfoldable pub play : Mirror → Pass → List Section → Mirror × Pass
  unfolding advance call
  play mr p [] = (mr, p)
  play mr p (own ∷ rest) = let (next, after) = advance mr p p.turn in play next after rest
  play mr p (foreign c ∷ rest) = play (call mr c) p rest
