-- ===== src/Memory/Unblocks.antt =====
-- CommitUnblock and CommitEvent of core/store/sharded_memory.go, by what readers see.
use native.Mathlib.Nat.{le_refl}
use angie_guardian.Prelude.{
  ℕ, ◌+◌, ◌^◌, ltb, zero, suc, ◌≤◌, ◌≡◌, refl, sym, ap, ◌∙◌, Bool, true, false, ◌&&◌, Option, none,
  some, inl, inr, arith, if◌then◌else◌, Bytes, bytes_eq, bytes_key, Bool-cases,
}
use angie_guardian.Prelude.Int.{ℤ, pos, negsuc, pos_part}
use angie_guardian.Prelude.Int64.{add64, is_positive}
use angie_guardian.Prelude.Assoc.{insert}
use angie_guardian.Store.{
  Decimal, Result, ok, err, not_a_number, Deadline, UnblockCommit, EventCommit, EventCommitResult,
}
use angie_guardian.Memory.State.{
  Entry, ShardedMemory, expiry, is_central, shard_map, with_shard_map, delete_central,
}
use angie_guardian.Memory.Ops.{bump, unix_deadline, incr_by_deadline, incr_shard}
use angie_guardian.Memory.Commit.{read_shard, is_found, event_result, commit_unblock, commit_event}
use angie_guardian.Memory.View.{
  view, live, Bounded, Touches, delete-Puts, with_shard_map-Touches, central-Touches, Touches-view,
  with_shard_map-Bounded,
}
use angie_guardian.Memory.Blocks.{
  read_shard_found, read_shard-Same, read_shard-Bounded, insert_shard-Touches,
}
use angie_guardian.Memory.Counters.{incr_by_deadline_lem, written}

pub record IsUnblock (c : UnblockCommit) : Type 0 where
  pub block_central : is_central c.block_key ≡ true
  pub hold_shard : is_central c.hold_key ≡ false
  pub generation_shard : is_central c.generation_key ≡ false
  pub counter_shard : is_central c.counter_key ≡ false

module _ (s : ShardedMemory) (now : ℕ) (c : UnblockCommit) (b : Bounded s)
    (placed : IsUnblock c) where
  abbrev pub hold_entry : Entry
  hold_entry = record { value = c.hold_value; expires_at = expiry now c.hold_ttl }

  abbrev pub generation_entry : Entry
  generation_entry = record { value = c.generation; expires_at = expiry now c.generation_ttl }

  abbrev with_hold : ShardedMemory
  with_hold = with_shard_map s c.hold_key (insert c.hold_key hold_entry (shard_map s c.hold_key))

  abbrev with_generation : ShardedMemory
  with_generation =
      with_shard_map with_hold c.generation_key
        (insert c.generation_key generation_entry (shard_map with_hold c.generation_key))

  abbrev lifted : ShardedMemory
  lifted = record with_generation { central = delete_central with_generation.central c.block_key }

  hold-Bounded : Bounded with_hold
  hold-Bounded = with_shard_map-Bounded s c.hold_key _ b

  lifted-Bounded : Bounded lifted
  lifted-Bounded = with_shard_map-Bounded with_hold c.generation_key _ hold-Bounded

  lifted-Touches : Touches c.block_key none with_generation lifted
  unfolding delete_central
  lifted-Touches =
      central-Touches with_generation c.block_key none _ placed.block_central
        (delete-Puts c.block_key with_generation.central.m)

  lifted-view :
      (later : ℕ) (j : Bytes)
      → view lifted later j ≡ (
          if bytes_eq c.block_key j
          then none
          else if bytes_eq c.generation_key j
          then live (some generation_entry) later
          else if bytes_eq c.hold_key j
          then live (some hold_entry) later
          else view s later j)
  unfolding live
  lifted-view later j = ground (
    arith,
    Touches-view c.block_key none with_generation lifted lifted-Touches later j,
    Touches-view c.generation_key (some generation_entry) with_hold with_generation
        (insert_shard-Touches with_hold now c.generation_key hold-Bounded placed.generation_shard
          generation_entry)
        later j,
    Touches-view c.hold_key (some hold_entry) s with_hold
        (insert_shard-Touches s now c.hold_key b placed.hold_shard hold_entry) later j,
  )

  -- An unblock succeeds whatever stood in the store. From then on the block reads as absent, the
  -- generation and the hold as the fresh ones until they expire, the offense counter as absent if
  -- its reset was asked for, and every other key as before.
  pub commit_unblock_refines :
      (later : ℕ) (j : Bytes)
      → ((commit_unblock s now c).1 ≡ ok tt)
        × (view (commit_unblock s now c).0 later j ≡ (
            if c.reset_backoff && bytes_eq c.counter_key j
            then none
            else if bytes_eq c.block_key j
            then none
            else if bytes_eq c.generation_key j
            then live (some generation_entry) later
            else if bytes_eq c.hold_key j
            then live (some hold_entry) later
            else view s later j))
  unfolding commit_unblock
  commit_unblock_refines later j = elim (Bool-cases c.reset_backoff) [
    | inl y ↦
        rw (placed.block_central, commit_unblock, y)
          (
            refl,
            ground (
              arith,
              Touches-view c.counter_key none lifted _
                  (with_shard_map-Touches lifted c.counter_key none lifted-Bounded _
                    placed.counter_shard
                    (delete-Puts c.counter_key (shard_map lifted c.counter_key)))
                  later j,
              lifted-view later j,
              live_none later,
            ),
          )
    | inr n ↦ rw (placed.block_central, commit_unblock, n) (refl, lifted-view later j)
  ]
    where
      live_none : (t : ℕ) → live none t ≡ none
      live_none t = unfold live in refl

-- The end of a counter that starts now with the given ttl stays under 2 ^ 63.
abbrev pub deadline_fits : ℕ → ℤ → Bool
deadline_fits now (pos n) = ltb (now + n) (2 ^ 63)
deadline_fits now (negsuc n) = true

-- The end of a counter that starts now: never, for a ttl that is not positive.
abbrev pub counter_end : ℕ → ℤ → Deadline
counter_end now ttl = if is_positive ttl then some (now + pos_part ttl) else none

-- One more on a counter that readers find: what stands there after it, and what it reports.
abbrev pub tally : Decimal → ℕ → ℤ → Option Entry → Option Entry × Result EventCommitResult
tally d now ttl none = (
  some (record { value = d.format_int (pos 1); expires_at = counter_end now ttl }),
  ok (record { committed = true; value = pos 1 }),
)
tally d now ttl (some e) = elim (d.parse_int e.value) [
  | none ↦ (some e, err not_a_number)
  | some n ↦ (
    some (record e { value = d.format_int (add64 n (pos 1)) }),
    ok (record { committed = true; value = add64 n (pos 1) }),
  )
]

deadline_lem :
    (now : ℕ) (ttl : ℤ) → deadline_fits now ttl ≡ true → unix_deadline now ttl ≡ counter_end now ttl
unfolding unix_deadline expiry
deadline_lem now (pos zero) h = refl
deadline_lem now (pos (suc n)) h = ground (arith, h)
deadline_lem now (negsuc n) h = refl

counted_lem :
    (d : Decimal) (now : ℕ) (ttl : ℤ) (found : Option Entry)
    → let bumped_by = bump d now (pos 1) (counter_end now ttl) found in
      (event_result bumped_by.1 ≡ (tally d now ttl found).1)
      × (written bumped_by.0 found ≡ (tally d now ttl found).0)
unfolding bump
counted_lem d now (pos zero) none = (refl, refl)
counted_lem d now (pos (suc n)) none = (ground arith, ground arith)
counted_lem d now (negsuc n) none = (refl, refl)
counted_lem d now (pos zero) (some e) = (ground arith, ground arith)
counted_lem d now (pos (suc n)) (some e) = (ground arith, ground arith)
counted_lem d now (negsuc n) (some e) = (ground arith, ground arith)

module _ (d : Decimal) (s : ShardedMemory) (now : ℕ) (c : EventCommit) (b : Bounded s)
    (hold_shard : is_central c.hold_key ≡ false)
    (counter_shard : is_central c.counter_key ≡ false) where
  incr_shard_lem :
      (t : ShardedMemory)
      → incr_by_deadline d t now c.counter_key (pos 1) (unix_deadline now c.counter_ttl) ≡ (
          let (m, r) =
            incr_shard d
              (shard_map t c.counter_key)
              now
              c.counter_key
              (pos 1)
              (unix_deadline now c.counter_ttl) in
          (with_shard_map t c.counter_key m, r))
  unfolding incr_by_deadline
  incr_shard_lem t = rw (counter_shard, incr_by_deadline)

  abbrev read_hold : ShardedMemory
  read_hold = (read_shard s now c.hold_key).0

  -- What the increment of the counter that readers see would write and report.
  abbrev pub bumped : Option Entry × Result (ℤ × Bool)
  bumped = bump d now (pos 1) (unix_deadline now c.counter_ttl) (view s now c.counter_key)

  -- While an unblock's hold is live an event is not counted and no reader sees a change.
  pub commit_event_held :
      (later : ℕ) (j : Bytes)
      → now ≤ later
      → is_found (view s now c.hold_key) ≡ true
      → ((commit_event d s now c).1 ≡ ok (record { committed = false; value = pos 0 }))
        × (view (commit_event d s now c).0 later j ≡ view s later j)
  unfolding commit_event
  commit_event_held later j le h =
      let f = read_shard_found s now c.hold_key b hold_shard in
      (rw (f, h) refl, rw (f, h) (read_shard-Same s now c.hold_key b hold_shard later j le))

  incremented : ShardedMemory × Result (ℤ × Bool)
  incremented =
      incr_by_deadline d read_hold now c.counter_key (pos 1) (unix_deadline now c.counter_ttl)

  seen : view read_hold now c.counter_key ≡ view s now c.counter_key
  seen = read_shard-Same s now c.hold_key b hold_shard now c.counter_key (le_refl now)

  incremented-Touches :
      Touches c.counter_key (written bumped.0 (view s now c.counter_key)) read_hold incremented.0
  unfolding incremented
  incremented-Touches =
      let l =
        incr_by_deadline_lem d read_hold now c.counter_key
          (read_shard-Bounded s now c.hold_key b hold_shard) (pos 1)
          (unix_deadline now c.counter_ttl) in
      rw seen at (l.1)

  incremented_result : incremented.1 ≡ bumped.1
  unfolding incremented
  incremented_result =
      let l =
        incr_by_deadline_lem d read_hold now c.counter_key
          (read_shard-Bounded s now c.hold_key b hold_shard) (pos 1)
          (unix_deadline now c.counter_ttl) in
      rw seen at (l.0)

  -- With no hold live the event increments what readers see of its counter.
  pub commit_event_bumps :
      (later : ℕ) (j : Bytes)
      → now ≤ later
      → is_found (view s now c.hold_key) ≡ false
      → ((commit_event d s now c).1 ≡ event_result bumped.1)
        × (view (commit_event d s now c).0 later j ≡ (
            if bytes_eq c.counter_key j
            then live (written bumped.0 (view s now c.counter_key)) later
            else view s later j))
  unfolding commit_event incremented
  commit_event_bumps later j le h =
      let f = read_shard_found s now c.hold_key b hold_shard in
      let l = incr_shard_lem read_hold in
      (
        rw (f, h)
            (ap (λ (x : ShardedMemory × Result (ℤ × Bool)). event_result x.1) (sym l)
              ∙ ap event_result incremented_result),
        rw (f, h)
            (ap (λ (x : ShardedMemory × Result (ℤ × Bool)). view x.0 later j) (sym l)
              ∙ Touches-view c.counter_key _ read_hold _ incremented-Touches later j
              ∙ ap
                  (λ o.
                    if bytes_eq c.counter_key j
                    then live (written bumped.0 (view s now c.counter_key)) later
                    else o)
                  (read_shard-Same s now c.hold_key b hold_shard later j le)),
      )

  -- With no hold live, an event whose counter's deadline fits an int64 counts as one more: an absent
  -- counter starts at 1 and ends its ttl from now, if that is positive, and never otherwise; a live
  -- number takes one more, with int64 wrap-around, and keeps its expiry; other text stays and is an
  -- error. Every other key reads as before.
  pub commit_event_counts :
      (later : ℕ) (j : Bytes)
      → now ≤ later
      → is_found (view s now c.hold_key) ≡ false
      → deadline_fits now c.counter_ttl ≡ true
      → let after = tally d now c.counter_ttl (view s now c.counter_key) in
        ((commit_event d s now c).1 ≡ after.1)
        × (view (commit_event d s now c).0 later j
            ≡ (if bytes_eq c.counter_key j then live after.0 later else view s later j))
  commit_event_counts later j le h fits =
      let (result, seen_after) = commit_event_bumps later j le h in
      let (same_result, same_entry) =
        (rw (sym (deadline_lem now c.counter_ttl fits)) at
          (counted_lem d now c.counter_ttl (view s now c.counter_key))) in
      (result ∙ same_result, rw same_entry at seen_after)
