-- ===== src/Memory/Reads.antt =====
-- Get, Set, Delete and CompareAndSwap of core/store/sharded_memory.go, as a change of the one map that readers see.
use angie_guardian.Prelude.{
  ℕ, ◌≤◌, ◌≡◌, refl, ap, ◌∙◌, Option, none, some, inl, inr, arith, if◌then◌else◌, Bytes, bytes_eq,
  bytes_key, bytes_eq_iff, Bool-cases, ◌&&◌,
}
use angie_guardian.Prelude.Int.{ℤ}
use angie_guardian.Memory.State.{
  Entry, ShardedMemory, ShardCentral, expiry, is_central, insert_central, index_block,
  delete_central,
}
use angie_guardian.Memory.Ops.{value_of, get, set_key, delete_key, compare_and_swap, matches}
use angie_guardian.Memory.View.{
  entry_at, view, live, live-live, Bounded, Puts, Touches, insert-Puts, delete-Puts,
  with_shard_map-Touches, central-Touches, found_central, found_shard, read_central-Puts,
  read_shard-Puts, Puts-trans, Touches-view, Touches-view_same,
}

module _ (s : ShardedMemory) (now : ℕ) (k : Bytes) (b : Bounded s) where
  get_lem : ((get s now k).1 ≡ value_of (view s now k)) × Touches k (view s now k) s (get s now k).0
  unfolding get
  get_lem = elim (Bool-cases (is_central k)) [
    | inl c ↦
        rw (c, get)
          (
            ap value_of (found_central s now k c),
            central-Touches s k _ _ c (read_central-Puts s now k c),
          )
    | inr c ↦
        rw (c, get)
          (
            ap value_of (found_shard s now k c),
            with_shard_map-Touches s k _ b _ c (read_shard-Puts s now k c),
          )
  ]

  -- A read returns the value that is live under the key, and no reader of any key, then or later,
  -- sees a change.
  pub get_refines :
      (later : ℕ) (j : Bytes)
      → now ≤ later
      → ((get s now k).1 ≡ value_of (view s now k))
        × (view (get s now k).0 later j ≡ view s later j)
  get_refines later j le = (get_lem.0, Touches-view_same k now s _ get_lem.1 later j le)

index_block_m : (c : ShardCentral) (k : Bytes) → (index_block c k).m ≡ c.m
unfolding index_block
index_block_m c k = ground arith

pub indexed-Puts :
    (c : ShardCentral) (k : Bytes) (e : Entry)
    → Puts k (some e) c.m (index_block (insert_central c k e) k).m
unfolding insert_central
indexed-Puts c k e = rw (index_block_m (insert_central c k e) k) (insert-Puts k e c.m)

module _ (s : ShardedMemory) (now : ℕ) (k : Bytes) (b : Bounded s) where
  set_key-Touches :
      (v : Bytes) (ttl : ℤ)
      → Touches k
          (some (record { value = v; expires_at = expiry now ttl }))
          s
          (set_key s now k v ttl)
  unfolding set_key
  set_key-Touches v ttl = elim (Bool-cases (is_central k)) [
    | inl c ↦ rw (c, set_key) (central-Touches s k _ _ c (indexed-Puts s.central k _))
    | inr c ↦ rw (c, set_key) (with_shard_map-Touches s k _ b _ c (insert-Puts k _ _))
  ]

  -- After a write, readers of the key see the new value until its deadline, and readers of any
  -- other key see what they saw.
  pub set_key_refines :
      (v : Bytes) (ttl : ℤ) (later : ℕ) (j : Bytes)
      → view (set_key s now k v ttl) later j ≡ (
          if bytes_eq k j
          then live (some (record { value = v; expires_at = expiry now ttl })) later
          else view s later j)
  set_key_refines v ttl = Touches-view k _ s _ (set_key-Touches v ttl)

  delete_key-Touches : Touches k none s (delete_key s k)
  unfolding delete_key delete_central
  delete_key-Touches = elim (Bool-cases (is_central k)) [
    | inl c ↦ rw (c, delete_key) (central-Touches s k none _ c (delete-Puts k s.central.m))
    | inr c ↦ rw (c, delete_key) (with_shard_map-Touches s k none b _ c (delete-Puts k _))
  ]

  -- After a delete the key reads as absent, and every other key as before.
  pub delete_key_refines :
      (later : ℕ) (j : Bytes)
      → view (delete_key s k) later j ≡ (if bytes_eq k j then none else view s later j)
  unfolding live
  delete_key_refines later j = Touches-view k none s _ delete_key-Touches later j ∙ ground arith

  -- The writes that CompareAndSwap makes, by what a reader sees: nothing changes unless the live
  -- value is the expected one.
  abbrev swap_entry : Option Bytes → Bytes → ℤ → Option Entry
  swap_entry old new ttl =
      if matches old (view s now k)
      then some (record { value = new; expires_at = expiry now ttl })
      else view s now k

  compare_and_swap_lem :
      (old : Option Bytes) (new : Bytes) (ttl : ℤ)
      → ((compare_and_swap s now k old new ttl).1 ≡ matches old (view s now k))
        × Touches k (swap_entry old new ttl) s (compare_and_swap s now k old new ttl).0
  unfolding compare_and_swap
  compare_and_swap_lem old new ttl = elim (Bool-cases (is_central k)) [
    | inl c ↦ elim (Bool-cases (matches old (view s now k))) [
      | inl m ↦
          rw (c, compare_and_swap, found_central s now k c, m)
            (
              refl,
              central-Touches s k _ _ c
                  (Puts-trans k _ _ _ _ _ (read_central-Puts s now k c) (indexed-Puts _ k _)),
            )
      | inr m ↦
          rw (c, compare_and_swap, found_central s now k c, m)
            (refl, central-Touches s k _ _ c (read_central-Puts s now k c))
    ]
    | inr c ↦ elim (Bool-cases (matches old (view s now k))) [
      | inl m ↦
          rw (c, compare_and_swap, found_shard s now k c, m)
            (
              refl,
              with_shard_map-Touches s k _ b _ c
                  (Puts-trans k _ _ _ _ _ (read_shard-Puts s now k c) (insert-Puts k _ _)),
            )
      | inr m ↦
          rw (c, compare_and_swap, found_shard s now k c, m)
            (refl, with_shard_map-Touches s k _ b _ c (read_shard-Puts s now k c))
    ]
  ]

  -- CompareAndSwap reports whether the live value is the expected one (absent, for no old value).
  -- If it is, readers of the key see the new value; if not, no reader sees a change.
  pub compare_and_swap_refines :
      (old : Option Bytes) (new : Bytes) (ttl : ℤ) (later : ℕ) (j : Bytes)
      → now ≤ later
      → ((compare_and_swap s now k old new ttl).1 ≡ matches old (view s now k))
        × (view (compare_and_swap s now k old new ttl).0 later j ≡ (
            if bytes_eq k j && matches old (view s now k)
            then live (some (record { value = new; expires_at = expiry now ttl })) later
            else view s later j))
  compare_and_swap_refines old new ttl later j le = (
    (compare_and_swap_lem old new ttl).0,
    rw (Touches-view k _ s _ (compare_and_swap_lem old new ttl).1 later j)
        (ground (arith, bytes_eq_iff k j, live-live (entry_at s k) now later, ap (entry_at s))),
  )
