-- ===== src/Memory/Scan.antt =====
-- core/store/sharded_memory.go: the janitor, the scans and the posture votes.
-- A Go map is read in an order that the language leaves open; here it is the list's.
use angie_guardian.Prelude.{
  ℕ, ◌+◌, Bool, true, false, not, ◌&&◌, ◌||◌, Option, none, some, List, [], ◌∷◌, ◌++◌, map,
  if◌then◌else◌, ltb, Bytes, bytes_eq, bytes_key, length, take, ◌=ℕ◌,
}
use angie_guardian.Prelude.Int.{ℤ}
use angie_guardian.Prelude.Int64.{is_positive}
use angie_guardian.Prelude.Assoc.{Map, lookup, insert, delete, retain}
use angie_guardian.Store.{Kv, Result, ok, err, invalid_vote, capability_unsupported, StoreError}
use angie_guardian.Memory.State.{
  Entry, PostureVote, ShardedMemory, ShardCentral, expired, passed, expiry, has_prefix,
  block_prefix, delete_central,
}

-- The active-block index without the keys of the entries that the sweep removes.
unfoldable pub unindex : ℕ → Map Bytes Entry → Map Bytes (Unit {0}) → Map Bytes (Unit {0})
unindex now [] index = index
unindex now ((k, e) ∷ m) index = unindex now m (if expired e now then delete k index else index)

-- One round of the janitor's loop.
unfoldable pub sweep : ShardedMemory → ℕ → ShardedMemory
unfolding unindex expired
sweep s now = record s {
  shards = map (retain (λ _ e. not (expired e now))) s.shards;
  central = record {
    m = retain (λ _ e. not (expired e now)) s.central.m;
    active_blocks = unindex now s.central.m s.central.active_blocks;
    posture_votes =
        retain (λ _ (v : PostureVote). not (passed v.expires_at now)) s.central.posture_votes;
  };
}

-- strings.Compare(a, b) <= 0
unfoldable pub bytes_le : Bytes → Bytes → Bool
bytes_le [] b = true
bytes_le (x ∷ a) [] = false
bytes_le (x ∷ a) (y ∷ b) = ltb x y || ((x =ℕ y) && bytes_le a b)

unfoldable pub insert_sorted : Kv → List Kv → List Kv
insert_sorted x [] = x ∷ []
insert_sorted x (y ∷ ys) =
    let rest = y ∷ insert_sorted x ys in if bytes_le x.key y.key then x ∷ y ∷ ys else rest

-- slices.SortFunc by key.
unfoldable pub sort_by_key : List Kv → List Kv
unfolding insert_sorted bytes_le
sort_by_key [] = []
sort_by_key (x ∷ xs) = insert_sorted x (sort_by_key xs)

abbrev pub kv_of : Bytes → Entry → Kv
kv_of k e = record { key = k; value = e.value; expires_at = e.expires_at }

-- The closure `gather` of `ScanLimit`.
unfoldable pub gather : Bytes → ℕ → Map Bytes Entry → List Kv
unfolding expired
gather prefix now [] = []
gather prefix now ((k, e) ∷ m) =
    let rest = gather prefix now m in
    if not (has_prefix k prefix) || expired e now then rest else kv_of k e ∷ rest

unfoldable pub gather_all : Bytes → ℕ → List (Map Bytes Entry) → List Kv
unfolding gather
gather_all prefix now [] = []
gather_all prefix now (m ∷ ms) = gather prefix now m ++ gather_all prefix now ms

-- A limit that is not positive is 0.
unfoldable pub scan_limit : ShardedMemory → ℕ → Bytes → ℕ → List Kv × Bool
unfolding gather_all sort_by_key
scan_limit s now prefix limit =
    let out = sort_by_key (gather_all prefix now s.shards ++ gather prefix now s.central.m) in
    if ltb 0 limit && ltb limit (length out) then (take limit out, false) else (out, true)

unfoldable pub scan : ShardedMemory → ℕ → Bytes → List Kv
unfolding scan_limit
scan s now prefix = (scan_limit s now prefix 0).0

-- The loop of `ScanActiveBlocks` over the index: the store's central part, what was collected, and
-- whether it is complete.
unfoldable pub scan_index :
    ℕ → ℕ → Map Bytes (Unit {0}) → ShardCentral → List Kv → ShardCentral × List Kv × Bool
unfolding expired delete_central
scan_index now limit [] c out = (c, out, true)
scan_index now limit ((k, _) ∷ index) c out = elim (lookup k c.m) [
  | none ↦ scan_index now limit index (delete_central c k) out
  | some e ↦ elim (expired e now) [
    | true ↦ scan_index now limit index (delete_central c k) out
    | false ↦ elim (ltb 0 limit && ltb limit (length out + 1)) [
      | true ↦ (c, take limit (out ++ kv_of k e ∷ []), false)
      | false ↦ scan_index now limit index c (out ++ kv_of k e ∷ [])
    ]
  ]
]

unfoldable pub scan_active_blocks :
    ShardedMemory → ℕ → Bytes → ℕ → ShardedMemory × Result (List Kv × Bool)
unfolding scan_index sort_by_key
scan_active_blocks s now prefix limit =
    if bytes_eq prefix block_prefix
    then (let (c, out, complete) = scan_index now limit s.central.active_blocks s.central [] in
        (record s { central = c }, ok (sort_by_key out, complete)))
    else (s, err capability_unsupported)

abbrev with_votes : ShardedMemory → Map Bytes PostureVote → ShardedMemory
with_votes s v = record s { central = record (s.central) { posture_votes = v } }

unfoldable pub set_posture_vote :
    ShardedMemory → ℕ → Bytes → ℕ → ℤ → ShardedMemory × Option StoreError
unfolding expiry
set_posture_vote s now id level ttl =
    if ltb level 1 || ltb 2 level || not (is_positive ttl) then (s, some invalid_vote) else (
      with_votes s (
          insert id (record { level = level; expires_at = expiry now ttl })
            s.central.posture_votes),
      none,
    )

unfoldable pub delete_posture_vote : ShardedMemory → Bytes → ShardedMemory
delete_posture_vote s id = with_votes s (delete id s.central.posture_votes)

-- The loop of `MaxPostureVote` over the votes that are live.
unfoldable pub max_vote : ℕ → Bytes → Map Bytes PostureVote → ℕ → ℕ
unfolding passed
max_vote now exclude [] best = best
max_vote now exclude ((id, v) ∷ votes) best = max_vote now exclude votes (
    if passed v.expires_at now
    then best
    else if not (bytes_eq id exclude) && ltb best v.level
    then v.level
    else best)

unfoldable pub max_posture_vote : ShardedMemory → ℕ → Bytes → ShardedMemory × ℕ
unfolding max_vote
max_posture_vote s now exclude = (
  with_votes s (retain (λ _ v. not (passed v.expires_at now)) s.central.posture_votes),
  max_vote now exclude s.central.posture_votes 0,
)
