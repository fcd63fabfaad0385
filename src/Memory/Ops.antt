-- ===== src/Memory/Ops.antt =====
-- core/store/sharded_memory.go: the operations on one key.
use angie_guardian.Prelude.{
  ℕ, Bool, true, false, Option, none, some, if◌then◌else◌, leb, ltb, ◌^◌, Bytes, bytes_eq,
  bytes_key,
}
use angie_guardian.Prelude.Int.{ℤ, pos}
use angie_guardian.Prelude.Int64.{add64}
use angie_guardian.Prelude.Assoc.{Map, insert, delete}
use angie_guardian.Store.{Deadline, Decimal, Result, ok, err, not_a_number}
use angie_guardian.Memory.State.{
  Entry, ShardedMemory, ShardCentral, expiry, is_central, shard_map, with_shard_map, get_shard,
  get_central, insert_central, index_block, delete_central,
}

-- `time.Now().Add(ttl).UnixNano()` of a positive ttl, none for any other. A sum that an int64 does not
-- hold wraps to a negative time, which has passed at any clock, as 0 has.
unfoldable pub unix_deadline : ℕ → ℤ → Deadline
unfolding expiry
unix_deadline now ttl = elim (expiry now ttl) [
  | none ↦ none
  | some t ↦ if ltb t (2 ^ 63) then some t else some 0
]

-- The value of an entry that a read found.
abbrev pub value_of : Option Entry → Option Bytes
value_of none = none
value_of (some e) = some e.value

unfoldable pub get : ShardedMemory → ℕ → Bytes → ShardedMemory × Option Bytes
get s now key =
    if is_central key
    then (let (c, e) = get_central s.central key now in (record s { central = c }, value_of e))
    else (let (m, e) = get_shard (shard_map s key) key now in (with_shard_map s key m, value_of e))

unfoldable pub set_key : ShardedMemory → ℕ → Bytes → Bytes → ℤ → ShardedMemory
set_key s now key value ttl =
    let e : Entry = record { value = value; expires_at = expiry now ttl } in
    if is_central key
    then record s { central = index_block (insert_central s.central key e) key }
    else with_shard_map s key (insert key e (shard_map s key))

unfoldable pub delete_key : ShardedMemory → Bytes → ShardedMemory
delete_key s key =
    if is_central key
    then record s { central = delete_central s.central key }
    else with_shard_map s key (delete key (shard_map s key))

-- The write that a counter's map takes, if any.
abbrev pub write_shard : Map Bytes Entry → Bytes → Option Entry → Map Bytes Entry
write_shard m key none = m
write_shard m key (some e) = insert key e m

abbrev pub write_central : ShardCentral → Bytes → Option Entry → ShardCentral
write_central c key none = c
write_central c key (some e) = record c { m = insert key e c.m }

module _ (d : Decimal) where
  -- What `incrByDeadline` does with the entry that `get` returned: the entry to write, if any, the
  -- value and whether it was applied.
  unfoldable pub bump : ℕ → ℤ → Deadline → Option Entry → Option Entry × Result (ℤ × Bool)
  unfolding add64
  bump now delta (some deadline) found =
      if leb deadline now
      then (
        none,
        elim found [
          | some e ↦ (elim (d.parse_int e.value) [
            | none ↦ err not_a_number
            | some n ↦ ok (n, false)
          ])
          | none ↦ ok (pos 0, false)
        ],
      )
      else (elim found [
        | none ↦ (
          some (record { value = d.format_int delta; expires_at = some deadline }),
          ok (delta, true),
        )
        | some e ↦ (elim (d.parse_int e.value) [
          | none ↦ (none, err not_a_number)
          | some n ↦
              (some (record e { value = d.format_int (add64 n delta) }), ok (add64 n delta, true))
        ])
      ])
  bump now delta none found = elim found [
    | none ↦ (some (record { value = d.format_int delta; expires_at = none }), ok (delta, true))
    | some e ↦ (elim (d.parse_int e.value) [
      | none ↦ (none, err not_a_number)
      | some n ↦
          (some (record e { value = d.format_int (add64 n delta) }), ok (add64 n delta, true))
    ])
  ]

  -- `incrByDeadline` over one shard.
  unfoldable pub incr_shard :
      Map Bytes Entry → ℕ → Bytes → ℤ → Deadline → Map Bytes Entry × Result (ℤ × Bool)
  incr_shard m now key delta deadline =
      let (m', found) = get_shard m key now in
      let (w, r) = bump now delta deadline found in (write_shard m' key w, r)

  unfoldable pub incr_central :
      ShardCentral → ℕ → Bytes → ℤ → Deadline → ShardCentral × Result (ℤ × Bool)
  incr_central c now key delta deadline =
      let (c', found) = get_central c key now in
      let (w, r) = bump now delta deadline found in (write_central c' key w, r)

  unfoldable pub incr_by_deadline :
      ShardedMemory → ℕ → Bytes → ℤ → Deadline → ShardedMemory × Result (ℤ × Bool)
  unfolding incr_shard incr_central
  incr_by_deadline s now key delta deadline =
      if is_central key
      then (let (c, r) = incr_central s.central now key delta deadline in
          (record s { central = c }, r))
      else (let (m, r) = incr_shard (shard_map s key) now key delta deadline in
          (with_shard_map s key m, r))

  abbrev first : ShardedMemory × Result (ℤ × Bool) → ShardedMemory × Result ℤ
  first (s, ok (n, _)) = (s, ok n)
  first (s, err e) = (s, err e)

  -- `IncrBy`: the deadline is the ttl from now, or none.
  unfoldable pub incr_by : ShardedMemory → ℕ → Bytes → ℤ → ℤ → ShardedMemory × Result ℤ
  unfolding incr_by_deadline unix_deadline
  incr_by s now key delta ttl = first (incr_by_deadline s now key delta (unix_deadline now ttl))

  unfoldable pub incr : ShardedMemory → ℕ → Bytes → ℤ → ShardedMemory × Result ℤ
  unfolding incr_by
  incr s now key ttl = incr_by s now key (pos 1) ttl

-- Whether a found entry is what `CompareAndSwap` expects; no old value means "must be absent".
abbrev pub matches : Option Bytes → Option Entry → Bool
matches none none = true
matches none (some e) = false
matches (some old) none = false
matches (some old) (some e) = bytes_eq e.value old

unfoldable pub compare_and_swap :
    ShardedMemory → ℕ → Bytes → Option Bytes → Bytes → ℤ → ShardedMemory × Bool
compare_and_swap s now key old new ttl =
    let e : Entry = record { value = new; expires_at = expiry now ttl } in
    if is_central key
    then (let (c, found) = get_central s.central key now in
        if matches old found
        then (record s { central = index_block (insert_central c key e) key }, true)
        else (record s { central = c }, false))
    else (let (m, found) = get_shard (shard_map s key) key now in
        if matches old found
        then (with_shard_map s key (insert key e m), true)
        else (with_shard_map s key m, false))

abbrev pub holds : Bytes → Option Entry → Bool
holds old none = false
holds old (some e) = bytes_eq e.value old

unfoldable pub compare_and_delete : ShardedMemory → ℕ → Bytes → Option Bytes → ShardedMemory × Bool
compare_and_delete s now key none = (s, false)
compare_and_delete s now key (some old) =
    if is_central key
    then (let (c, found) = get_central s.central key now in
        if holds old found
        then (record s { central = delete_central c key }, true)
        else (record s { central = c }, false))
    else (let (m, found) = get_shard (shard_map s key) key now in
        if holds old found
        then (with_shard_map s key (delete key m), true)
        else (with_shard_map s key m, false))

-- `GetWithExpiry` of core/store/expiry.go: the value and its deadline.
unfoldable pub get_with_expiry : ShardedMemory → ℕ → Bytes → ShardedMemory × Option Entry
get_with_expiry s now key =
    if is_central key
    then (let (c, e) = get_central s.central key now in (record s { central = c }, e))
    else (let (m, e) = get_shard (shard_map s key) key now in (with_shard_map s key m, e))

abbrev deadline : Option Entry → Option Deadline
deadline none = none
deadline (some e) = some e.expires_at

-- `ExpiresAt`: the deadline of a live key.
unfoldable pub deadline_of : ShardedMemory → ℕ → Bytes → ShardedMemory × Option Deadline
deadline_of s now key =
    if is_central key
    then (let (c, e) = get_central s.central key now in (record s { central = c }, deadline e))
    else (let (m, e) = get_shard (shard_map s key) key now in (with_shard_map s key m, deadline e))
