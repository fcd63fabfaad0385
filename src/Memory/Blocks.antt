-- ===== src/Memory/Blocks.antt =====
-- CommitBlock of core/store/sharded_memory.go: what it compares, and what it writes.
use native.Mathlib.Nat.{le_refl}
use angie_guardian.Prelude.{
  ℕ, ◌≤◌, ◌≡◌, refl, ap, ◌∙◌, Bool, true, false, not, ◌&&◌, Option, none, some, inl, inr, arith,
  if◌then◌else◌, Bytes, bytes_eq, bytes_key, Bool-cases,
}
use angie_guardian.Prelude.Int.{ℤ, pos, negsuc}
use angie_guardian.Prelude.Int64.{add64, add64_pos}
use angie_guardian.Prelude.Assoc.{insert}
use angie_guardian.Store.{
  Deadline, Decimal, ok, BlockCommit, BlockCommitResult, refusal_none, refusal_hold,
  refusal_generation, refusal_block, block_backoff_ttl, counter_value,
}
use angie_guardian.Memory.State.{
  Entry, ShardedMemory, expiry, is_central, shard_map, with_shard_map, get_central, insert_central,
}
use angie_guardian.Memory.Ops.{matches}
use angie_guardian.Memory.Commit.{
  read_shard, refused, is_found, next_offense, write_block, commit_block,
}
use angie_guardian.Memory.View.{
  view, live, Bounded, Touches, Same, Same-trans, insert-Puts, with_shard_map-Touches,
  central-Touches, found_central, found_shard, read_central-Puts, read_shard-Puts, Touches-view,
  Touches-view_same, with_shard_map-Bounded,
}

module _ (s : ShardedMemory) (now : ℕ) (k : Bytes) (b : Bounded s)
    (shard : is_central k ≡ false) where
  pub read_shard_found : (read_shard s now k).1 ≡ view s now k
  unfolding read_shard
  read_shard_found = found_shard s now k shard

  pub read_shard-Same : Same now s (read_shard s now k).0
  unfolding read_shard
  read_shard-Same =
      Touches-view_same k now s _
        (with_shard_map-Touches s k _ b _ shard (read_shard-Puts s now k shard))

  pub read_shard-Bounded : Bounded (read_shard s now k).0
  unfolding read_shard
  read_shard-Bounded = with_shard_map-Bounded s k _ b

  pub insert_shard-Touches :
      (e : Entry) → Touches k (some e) s (with_shard_map s k (insert k e (shard_map s k)))
  insert_shard-Touches e = with_shard_map-Touches s k (some e) b _ shard (insert-Puts k e _)

-- The keys of a commit stand where the store expects them, and differ.
pub record IsPlaced (c : BlockCommit) : Type 0 where
  pub block_central : is_central c.block_key ≡ true
  pub hold_shard : is_central c.hold_key ≡ false
  pub guard_shard : is_central c.guard_key ≡ false
  pub counter_shard : is_central c.counter_key ≡ false

-- The number of the offense after what readers find under its counter, and when that counter ends.
abbrev pub offense_after : Decimal → ℕ → ℤ → Option Entry → ℤ × Deadline
offense_after d now ttl none = (pos 1, expiry now ttl)
offense_after d now ttl (some e) = (
  elim (d.parse_int e.value) [
    | none ↦ pos 1
    | some (pos n) ↦ add64 (pos n) (pos 1)
    | some (negsuc n) ↦ pos 1
  ],
  e.expires_at,
)

one_more :
    (n : Option ℤ)
    → add64
        (elim n as (λ _. ℤ) [ none ↦ pos 0 | some (pos m) ↦ pos m | some (negsuc _) ↦ pos 0 ])
        (pos 1)
      ≡ (elim n as (λ _. ℤ) [
        | none ↦ pos 1
        | some (pos m) ↦ add64 (pos m) (pos 1)
        | some (negsuc _) ↦ pos 1
      ])
one_more none = add64_pos 0 1 (omega arith)
one_more (some (pos n)) = refl
one_more (some (negsuc n)) = add64_pos 0 1 (omega arith)

next_offense_lem :
    (d : Decimal) (now : ℕ) (ttl : ℤ) (found : Option Entry)
    → next_offense d now ttl found ≡ offense_after d now ttl found
unfolding next_offense counter_value
next_offense_lem d now ttl none = refl
next_offense_lem d now ttl (some e) = ap (λ n. (n, e.expires_at)) (one_more (d.parse_int e.value))

-- The three comparisons, on what readers see.
abbrev pub allowed : ShardedMemory → ℕ → BlockCommit → Bool
allowed s now c =
    not (is_found (view s now c.hold_key))
    && (matches c.guard_value (view s now c.guard_key)
        && matches c.expected_block (view s now c.block_key))

module _ (d : Decimal) (s : ShardedMemory) (now : ℕ) (c : BlockCommit) (b : Bounded s)
    (placed : IsPlaced c) where
  abbrev s1 : ShardedMemory
  s1 = (read_shard s now c.hold_key).0

  abbrev s2 : ShardedMemory
  s2 = (read_shard s1 now c.guard_key).0

  abbrev s3 : ShardedMemory
  s3 = record s2 { central = (get_central s2.central c.block_key now).0 }

  b1 : Bounded s1
  b1 = read_shard-Bounded s now c.hold_key b placed.hold_shard

  b2 : Bounded s2
  b2 = read_shard-Bounded s1 now c.guard_key b1 placed.guard_shard

  same1 : Same now s s1
  same1 = read_shard-Same s now c.hold_key b placed.hold_shard

  same2 : Same now s s2
  same2 = Same-trans now s s1 s2 same1 (read_shard-Same s1 now c.guard_key b1 placed.guard_shard)

  same3 : Same now s s3
  same3 = Same-trans now s s2 s3 same2 (
      Touches-view_same c.block_key now s2 s3 (
        central-Touches s2 c.block_key _ _ placed.block_central
          (read_central-Puts s2 now c.block_key placed.block_central)))

  held : (read_shard s now c.hold_key).1 ≡ view s now c.hold_key
  held = read_shard_found s now c.hold_key b placed.hold_shard

  guarded : (read_shard s1 now c.guard_key).1 ≡ view s now c.guard_key
  guarded =
      read_shard_found s1 now c.guard_key b1 placed.guard_shard
      ∙ same1 now c.guard_key (le_refl now)

  current : (get_central s2.central c.block_key now).1 ≡ view s now c.block_key
  current =
      found_central s2 now c.block_key placed.block_central ∙ same2 now c.block_key (le_refl now)

  -- A commit that a comparison refuses reports so and changes nothing that any reader sees.
  pub commit_block_refused :
      allowed s now c ≡ false
      → (r : BlockCommitResult) × ((commit_block d s now c).1 ≡ ok r)
        × (r.committed ≡ false)
        × Same now s (commit_block d s now c).0
  unfolding commit_block
  commit_block_refused no_match = elim (Bool-cases (is_found (view s now c.hold_key))) [
    | inl y ↦ (
      refused refusal_hold,
      rw (placed.block_central, commit_block, held, y) refl,
      refl,
      rw (placed.block_central, commit_block, held, y) same1,
    )
    | inr n ↦ elim (Bool-cases (matches c.guard_value (view s now c.guard_key))) [
      | inl g ↦
          let x : matches c.expected_block (view s now c.block_key) ≡ false = ground arith in
          (
            refused refusal_block,
            rw (placed.block_central, commit_block, held, n, guarded, g, current, x) refl,
            refl,
            rw (placed.block_central, commit_block, held, n, guarded, g, current, x) same3,
          )
      | inr g ↦ (
        refused refusal_generation,
        rw (placed.block_central, commit_block, held, n, guarded, g) refl,
        refl,
        rw (placed.block_central, commit_block, held, n, guarded, g) same2,
      )
    ]
  ]

  abbrev s4 : ShardedMemory
  s4 = (read_shard s3 now c.counter_key).0

  counted : (read_shard s3 now c.counter_key).1 ≡ view s now c.counter_key
  counted =
      read_shard_found s3 now c.counter_key b2 placed.counter_shard
      ∙ same3 now c.counter_key (le_refl now)

  same4 : Same now s s4
  same4 =
      Same-trans now s s3 s4 same3 (read_shard-Same s3 now c.counter_key b2 placed.counter_shard)

  b4 : Bounded s4
  b4 = read_shard-Bounded s3 now c.counter_key b2 placed.counter_shard

  -- The offense number, its expiry and the block's time, from what readers see of the counter.
  abbrev offense : ℤ × Deadline
  offense = offense_after d now c.counter_ttl (view s now c.counter_key)

  abbrev block_ttl : ℤ
  block_ttl = block_backoff_ttl c.base_ttl c.max_ttl offense.0

  write_block_result :
      (write_block d s3 now c).1
      ≡ record { committed = true; offenses = offense.0; ttl = block_ttl; refusal = refusal_none }
  unfolding write_block
  write_block_result = rw (counted, write_block, next_offense_lem d now c.counter_ttl) refl

  abbrev count_entry : Entry
  count_entry = record { value = d.format_int offense.0; expires_at = offense.1 }

  abbrev block_entry : Entry
  block_entry = record { value = c.new_block; expires_at = expiry now block_ttl }

  abbrev with_count : ShardedMemory
  with_count =
      with_shard_map s4 c.counter_key
        (insert c.counter_key count_entry (shard_map s4 c.counter_key))

  write_block-Touches : Touches c.block_key (some block_entry) with_count (write_block d s3 now c).0
  unfolding write_block insert_central
  write_block-Touches =
      rw (counted, write_block, next_offense_lem d now c.counter_ttl)
        (central-Touches with_count c.block_key _ _ placed.block_central
          (insert-Puts c.block_key block_entry with_count.central.m))

  -- A commit that every comparison admits writes the block, for the time of its offense, and the
  -- offense count. The first offense is number 1, and its counter ends the counter's ttl from now; on
  -- a live counter the number is one more than the count in it, with int64 wrap-around, where text
  -- and negative counts are 0, and the expiry is kept. The commit reports the number and the time of
  -- the block, and every other key reads as before.
  pub commit_block_commits :
      (later : ℕ) (j : Bytes)
      → now ≤ later
      → allowed s now c ≡ true
      → ((commit_block d s now c).1
          ≡ ok (record {
            committed = true;
            offenses = offense.0;
            ttl = block_ttl;
            refusal = refusal_none;
          }))
        × (view (commit_block d s now c).0 later j ≡ (
            if bytes_eq c.block_key j
            then live (some block_entry) later
            else if bytes_eq c.counter_key j
            then live (some count_entry) later
            else view s later j))
  unfolding commit_block
  commit_block_commits later j le all_match =
      let n : is_found (view s now c.hold_key) ≡ false = ground arith in
      let g : matches c.guard_value (view s now c.guard_key) ≡ true = ground arith in
      let x : matches c.expected_block (view s now c.block_key) ≡ true = ground arith in
      (
        rw (placed.block_central, commit_block, held, n, guarded, g, current, x)
            (ap ok write_block_result),
        rw (placed.block_central, commit_block, held, n, guarded, g, current, x)
            (ground (
              arith,
              Touches-view c.block_key (some block_entry) with_count _ write_block-Touches later j,
              Touches-view c.counter_key (some count_entry) s4 with_count
                  (insert_shard-Touches s4 now c.counter_key b4 placed.counter_shard count_entry)
                  later j,
              same4 later j le,
            )),
      )
