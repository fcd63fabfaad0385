-- ===== src/Memory/Counters.antt =====
-- CompareAndDelete and the counters of core/store/sharded_memory.go, as changes of the one map that readers see.
use angie_guardian.Prelude.{
  ℕ, ◌≤◌, ◌<◌, ◌≡◌, refl, ap, ◌∙◌, true, false, Option, none, some, inl, inr, arith, if◌then◌else◌,
  Bytes, bytes_eq, bytes_key, bytes_eq_iff, Bool-cases, ◌&&◌,
}
use angie_guardian.Prelude.Int.{ℤ, pos}
use angie_guardian.Prelude.Int64.{add64}
use angie_guardian.Store.{Deadline, Decimal, ok}
use angie_guardian.Memory.State.{
  Entry, ShardedMemory, is_central, shard_map, get_shard, get_central, delete_central,
}
use angie_guardian.Memory.Ops.{
  compare_and_delete, holds, bump, incr_by_deadline, incr_shard, incr_central, write_shard,
  write_central,
}
use angie_guardian.Memory.View.{
  entry_at, view, live, live-live, Bounded, Puts, Touches, insert-Puts, delete-Puts,
  with_shard_map-Touches, central-Touches, found_central, found_shard, read_central-Puts,
  read_shard-Puts, Puts-trans, Touches-view, Touches-view_same,
}

module _ (s : ShardedMemory) (now : ℕ) (k : Bytes) (b : Bounded s) where
  compare_and_delete_lem :
      (old : Bytes)
      → ((compare_and_delete s now k (some old)).1 ≡ holds old (view s now k))
        × Touches k
            (if holds old (view s now k) then none else view s now k)
            s
            (compare_and_delete s now k (some old)).0
  unfolding compare_and_delete delete_central
  compare_and_delete_lem old = elim (Bool-cases (is_central k)) [
    | inl c ↦ elim (Bool-cases (holds old (view s now k))) [
      | inl m ↦
          rw (c, compare_and_delete, found_central s now k c, m)
            (
              refl,
              central-Touches s k _ _ c
                  (Puts-trans k _ _ _ _ _ (read_central-Puts s now k c) (delete-Puts k _)),
            )
      | inr m ↦
          rw (c, compare_and_delete, found_central s now k c, m)
            (refl, central-Touches s k _ _ c (read_central-Puts s now k c))
    ]
    | inr c ↦ elim (Bool-cases (holds old (view s now k))) [
      | inl m ↦
          rw (c, compare_and_delete, found_shard s now k c, m)
            (
              refl,
              with_shard_map-Touches s k _ b _ c
                  (Puts-trans k _ _ _ _ _ (read_shard-Puts s now k c) (delete-Puts k _)),
            )
      | inr m ↦
          rw (c, compare_and_delete, found_shard s now k c, m)
            (refl, with_shard_map-Touches s k _ b _ c (read_shard-Puts s now k c))
    ]
  ]

  -- CompareAndDelete reports whether the live value is the given one. If it is, the key reads as
  -- absent from then on; if not, no reader sees a change.
  pub compare_and_delete_refines :
      (old : Bytes) (later : ℕ) (j : Bytes)
      → now ≤ later
      → ((compare_and_delete s now k (some old)).1 ≡ holds old (view s now k))
        × (view (compare_and_delete s now k (some old)).0 later j
            ≡ (if bytes_eq k j && holds old (view s now k) then none else view s later j))
  compare_and_delete_refines old later j le = (
    (compare_and_delete_lem old).0,
    rw (Touches-view k _ s _ (compare_and_delete_lem old).1 later j) (
        ground (
          arith,
          bytes_eq_iff k j,
          live-live (entry_at s k) now later,
          ap (entry_at s),
          live_none later,
        )),
  )
    where
      live_none : (t : ℕ) → live none t ≡ none
      live_none t = unfold live in refl

-- What stands under a key once an increment wrote `w` over the `found` entry.
abbrev pub written : Option Entry → Option Entry → Option Entry
written none found = found
written (some e) found = some e

module _ (d : Decimal) (s : ShardedMemory) (now : ℕ) (k : Bytes) (b : Bounded s) where
  shard-Puts :
      (w : Option Entry)
      → is_central k ≡ false
      → Puts k
          (written w (view s now k))
          (shard_map s k)
          (write_shard (get_shard (shard_map s k) k now).0 k w)
  shard-Puts none c = read_shard-Puts s now k c
  shard-Puts (some e) c = Puts-trans k _ _ _ _ _ (read_shard-Puts s now k c) (insert-Puts k e _)

  central-Puts :
      (w : Option Entry)
      → is_central k ≡ true
      → Puts k
          (written w (view s now k))
          s.central.m
          (write_central (get_central s.central k now).0 k w).m
  central-Puts none c = read_central-Puts s now k c
  central-Puts (some e) c = Puts-trans k _ _ _ _ _ (read_central-Puts s now k c) (insert-Puts k e _)

  pub incr_by_deadline_lem :
      (delta : ℤ) (t : Deadline)
      → ((incr_by_deadline d s now k delta t).1 ≡ (bump d now delta t (view s now k)).1)
        × Touches k
            (written (bump d now delta t (view s now k)).0 (view s now k))
            s
            (incr_by_deadline d s now k delta t).0
  unfolding incr_by_deadline incr_shard incr_central
  incr_by_deadline_lem delta t = elim (Bool-cases (is_central k)) [
    | inl c ↦
        rw (c, incr_by_deadline, incr_central, found_central s now k c)
          (refl, central-Touches s k _ _ c (central-Puts _ c))
    | inr c ↦
        rw (c, incr_by_deadline, incr_shard, found_shard s now k c)
          (refl, with_shard_map-Touches s k _ b _ c (shard-Puts _ c))
  ]

  -- The number that a reader finds under the key: 0 for an absent key, none for other text.
  abbrev counted : Option Entry → Option ℤ
  counted none = some (pos 0)
  counted (some e) = d.parse_int e.value

  -- From the deadline on, an increment of a key that is absent or holds a number writes nothing:
  -- it reports the stored count, 0 for an absent key, as not applied, and no reader sees a change.
  pub incr_by_deadline_late :
      (delta n : ℤ) (t later : ℕ) (j : Bytes)
      → t ≤ now
      → now ≤ later
      → counted (view s now k) ≡ some n
      → ((incr_by_deadline d s now k delta (some t)).1 ≡ ok (n, false))
        × (view (incr_by_deadline d s now k delta (some t)).0 later j ≡ view s later j)
  unfolding bump
  incr_by_deadline_late delta n t later j le now_later found = (
    (incr_by_deadline_lem delta (some t)).0 ∙ ground arith,
    Touches-view_same k now s _ (λ i. (incr_by_deadline_lem delta (some t)).1 i ∙ ground arith)
        later j now_later,
  )

  -- Before the deadline an increment creates an absent key at the delta, to expire exactly at the
  -- deadline; every other key reads as before.
  pub incr_by_deadline_creates :
      (delta : ℤ) (t later : ℕ) (j : Bytes)
      → now < t
      → view s now k ≡ none
      → ((incr_by_deadline d s now k delta (some t)).1 ≡ ok (delta, true))
        × (view (incr_by_deadline d s now k delta (some t)).0 later j ≡ (
            if bytes_eq k j
            then live (some (record { value = d.format_int delta; expires_at = some t })) later
            else view s later j))
  unfolding bump
  incr_by_deadline_creates delta t later j lt absent = (
    (incr_by_deadline_lem delta (some t)).0 ∙ ground arith,
    Touches-view k _ s _ (λ i. (incr_by_deadline_lem delta (some t)).1 i ∙ ground arith) later j,
  )

  -- Before the deadline an increment of a live number adds the delta, with int64 wrap-around, and
  -- keeps the expiry that the key already had; every other key reads as before.
  pub incr_by_deadline_adds :
      (delta n : ℤ) (e : Entry) (t later : ℕ) (j : Bytes)
      → now < t
      → view s now k ≡ some e
      → d.parse_int e.value ≡ some n
      → ((incr_by_deadline d s now k delta (some t)).1 ≡ ok (add64 n delta, true))
        × (view (incr_by_deadline d s now k delta (some t)).0 later j ≡ (
            if bytes_eq k j
            then live (some (record e { value = d.format_int (add64 n delta) })) later
            else view s later j))
  unfolding bump
  incr_by_deadline_adds delta n e t later j lt found parsed = (
    (incr_by_deadline_lem delta (some t)).0 ∙ ground arith,
    Touches-view k _ s _ (λ i. (incr_by_deadline_lem delta (some t)).1 i ∙ ground arith) later j,
  )
