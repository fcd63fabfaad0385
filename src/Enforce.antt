-- ===== src/Enforce.antt =====
-- core/enforce/mirror.go: the bounded in-process view of the active blocks.
pub mod Sizes
pub mod Pass
pub mod Absent
pub mod Solo
pub mod Reconcile
use angie_guardian.Prelude.{
  ℕ, zero, suc, ◌+◌, ◌/◌, ◌%◌, max, Bool, true, false, not, ◌&&◌, Option, none, some, List, [], ◌∷◌,
  map, Bytes, bytes_key, ltb, leb, ◌=ℕ◌, if◌then◌else◌, length, get_or, set, replicate,
}
use angie_guardian.Prelude.Int.{ℤ, pos, negsuc}
use angie_guardian.Prelude.Assoc.{Map, lookup, insert, delete, retain, size}
use angie_guardian.Memory.State.{fnv1a}

abbrev pub shard_count : ℕ
shard_count = 32

-- The times are nanoseconds since 1970; an expiry of 0 is none.
pub record BlockEntry : Type 0 where
  pub why : Bytes
  pub expires_at : ℕ
  pub inserted_at : ℕ

pub record Mirror : Type 0 where
  pub shards : List (Map Bytes BlockEntry)
  pub max_per_shard : ℕ
  pub dropped : ℕ
  pub tombs : Map Bytes ℕ

abbrev pub max_tombstones : ℕ
max_tombstones = 4096

unfoldable pub new_mirror : ℤ → Mirror
new_mirror (pos n) = record {
  shards = replicate shard_count [];
  max_per_shard = max (n / shard_count) 1;
  dropped = 0;
  tombs = [];
}
new_mirror (negsuc n) = record {
  shards = replicate shard_count [];
  max_per_shard = 1;
  dropped = 0;
  tombs = [];
}

-- `old.expiresAt != 0 && old.expiresAt <= now`
abbrev pub is_dead : BlockEntry → ℕ → Bool
is_dead e now = not (e.expires_at =ℕ 0) && leb e.expires_at now

-- `remove` of the tombstones: the oldest of a full log goes, by the entries older than now.
unfoldable pub oldest_of : Map Bytes ℕ → Bytes → ℕ → Bytes
oldest_of [] at time = at
oldest_of ((k, t) ∷ others) at time =
    let (oldest, since) = if ltb t time then (k, t) else (at, time) in oldest_of others oldest since

unfoldable pub bury : Map Bytes ℕ → Bytes → ℕ → Map Bytes ℕ
unfolding oldest_of
bury tombs a now =
    if leb max_tombstones (size tombs)
    then insert a now (delete (oldest_of tombs a now) tombs)
    else insert a now tombs

-- The tombstone of an address, unless the scan is newer: then it is dropped.
unfoldable pub removed_since : Mirror → Bytes → ℕ → Mirror × Bool
removed_since mr a scan_start = elim (lookup a mr.tombs) [
  | none ↦ (mr, false)
  | some t ↦
      if ltb t scan_start then (record mr { tombs = delete a mr.tombs }, false) else (mr, true)
]

unfoldable pub prune_tombstones : Mirror → ℕ → Mirror
prune_tombstones mr scan_start = record mr {
  tombs = retain (λ k t. not (ltb t scan_start)) mr.tombs;
}

abbrev pub is_present : Option BlockEntry → Bool
is_present none = false
is_present (some e) = true

-- The shard after a full one shed its expired entries, and whether the entry may go in.
unfoldable pub make_room :
    Map Bytes BlockEntry → Bytes → BlockEntry → ℕ → Map Bytes BlockEntry × Bool
make_room m a e most =
    if not (is_present (lookup a m)) && leb most (size m)
    then (let shed = retain (λ k old. not (is_dead old e.inserted_at)) m in
        (shed, not (leb most (size shed))))
    else (m, true)

abbrev pub is_stale : Map Bytes BlockEntry → ℕ → Bytes → BlockEntry → Bool
is_stale active scan_start k e = not (is_present (lookup k active)) && ltb e.inserted_at scan_start

-- The first loop of `reconcile`, over every shard.
unfoldable pub drop_stale : Mirror → Map Bytes BlockEntry → ℕ → Mirror
drop_stale mr active scan_start = record mr {
  shards = map (retain (λ k e. not (is_stale active scan_start k e))) mr.shards;
}

-- The first loop's section on one shard.
unfoldable pub clean_shard : Mirror → Map Bytes BlockEntry → ℕ → ℕ → Mirror
clean_shard mr active scan_start i = record mr {
  shards =
      set mr.shards i
        (retain (λ k e. not (is_stale active scan_start k e)) (get_or mr.shards i []));
}

-- The sixteen bytes of an address, by netip.Addr.As16; the addresses are the map's keys.
module _ (as16 : Bytes → Bytes) where
  unfoldable pub shard_of : Bytes → ℕ
  shard_of a = fnv1a 2166136261 (as16 a) % shard_count

  abbrev pub shard : Mirror → Bytes → Map Bytes BlockEntry
  shard mr a = get_or mr.shards (shard_of a) []

  abbrev pub with_shard : Mirror → Bytes → Map Bytes BlockEntry → Mirror
  with_shard mr a m = record mr { shards = set mr.shards (shard_of a) m }

  unfoldable pub get : Mirror → Bytes → ℕ → Option Bytes
  get mr a now = elim (lookup a (shard mr a)) [
    | none ↦ none
    | some e ↦ if is_dead e now then none else some e.why
  ]

  unfoldable pub set_block : Mirror → Bytes → BlockEntry → Mirror × Bool
  unfolding make_room
  set_block mr a e =
      let (m, fits) = make_room (shard mr a) a e mr.max_per_shard in
      if fits
      then (with_shard mr a (insert a e m), true)
      else (record (with_shard mr a m) { dropped = mr.dropped + 1 }, false)

  unfoldable pub remove : Mirror → Bytes → ℕ → Mirror
  unfolding bury
  remove mr a now = record (with_shard mr a (delete a (shard mr a))) { tombs = bury mr.tombs a now }

  -- The second loop, over the entries of the scan: one round, and all of them.
  unfoldable pub upsert : Mirror → Bytes → BlockEntry → ℕ → Bool → Mirror × Bool
  unfolding removed_since set_block
  upsert mr k e scan_start complete =
      let (seen, vetoed) = removed_since mr k scan_start in
      let (written, fits) = set_block seen k e in
      if vetoed then (seen, complete) else (written, fits && complete)

  unfoldable pub upsert_all : Mirror → Map Bytes BlockEntry → ℕ → Bool → Mirror × Bool
  unfolding upsert
  upsert_all mr [] scan_start complete = (mr, complete)
  upsert_all mr ((k, e) ∷ others) scan_start complete =
      let (next, so_far) = upsert mr k e scan_start complete in
      upsert_all next others scan_start so_far

  unfoldable pub reconcile : Mirror → Map Bytes BlockEntry → ℕ → Bool → Mirror × Bool
  unfolding drop_stale upsert_all prune_tombstones
  reconcile mr active scan_start scanned_all =
      let base = if scanned_all then drop_stale mr active scan_start else mr in
      let (after, complete) = upsert_all base active scan_start scanned_all in
      (prune_tombstones after scan_start, complete)

abbrev pub count_all : List (Map Bytes BlockEntry) → ℕ
count_all [] = 0
count_all (m ∷ ms) = size m + count_all ms

unfoldable pub count : Mirror → ℕ
count mr = count_all mr.shards

-- The calls of the mirror, by its manager, and the sections of a removal and of a reconcile under
-- their own locks.
pub data MirrorOp : Type 0 where
  sets : Bytes → BlockEntry → MirrorOp
  removes : Bytes → ℕ → MirrorOp
  reconciles : Map Bytes BlockEntry → ℕ → Bool → MirrorOp
  deletes_block : Bytes → MirrorOp
  buries_block : Bytes → ℕ → MirrorOp
  cleans : ℕ → Map Bytes BlockEntry → ℕ → MirrorOp
  checks : Bytes → ℕ → MirrorOp
  prunes : ℕ → MirrorOp

module _ (as16 : Bytes → Bytes) where
  unfoldable pub act : Mirror → MirrorOp → Mirror
  act mr (sets a e) = (set_block as16 mr a e).0
  act mr (removes a now) = remove as16 mr a now
  act mr (reconciles active scan_start scanned_all) =
      (reconcile as16 mr active scan_start scanned_all).0
  act mr (deletes_block a) = with_shard as16 mr a (delete a (shard as16 mr a))
  act mr (buries_block a now) = record mr { tombs = bury mr.tombs a now }
  act mr (cleans i active scan_start) = clean_shard mr active scan_start i
  act mr (checks a scan_start) = (removed_since mr a scan_start).0
  act mr (prunes scan_start) = prune_tombstones mr scan_start

  unfoldable pub run_mirror : Mirror → List MirrorOp → Mirror
  unfolding act
  run_mirror mr [] = mr
  run_mirror mr (op ∷ ops) = run_mirror (act mr op) ops
