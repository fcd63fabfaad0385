-- ===== src/Scoreboard/Threshold.antt =====
-- RecordEvent of core/scoreboard.go: when an event crosses its threshold, and when it is not scored.
use native.Mathlib.Nat.{le_refl}
use angie_guardian.Prelude.{
  ℕ, suc, ◌+◌, ◌*◌, ◌^◌, ◌<◌, ◌≤◌, ◌≡◌, refl, ap, ◌∙◌, true, false, not, Option, none, some, [],
  inl, inr, arith, Bytes, bytes_eq, Bool-cases, ◌++◌, if◌then◌else◌, sym,
}
use angie_guardian.Prelude.Int.{ℤ, pos, ltb_ℤ, ◌*ℤ◌}
use angie_guardian.Prelude.Int64.{is_positive, add64_pos, mul64, wrap64}
use angie_guardian.Store.{Decimal, ok}
use angie_guardian.Memory.State.{Entry, ShardedMemory}
use angie_guardian.Memory.Trace.{apply, scores}
use angie_guardian.Memory.Commit.{commit_event, is_found}
use angie_guardian.Memory.View.{view, live, Bounded}
use angie_guardian.Memory.Unblocks.{
  commit_event_held, commit_event_counts, commit_event_bumps, tally, deadline_fits,
}
use angie_guardian.Memory.Trace.Bounds.{apply-Bounded}
use angie_guardian.Scoreboard.{
  Netip, Scoreboard, canon_ip, unblock_token, unblock_hold_key, unblock_gen_key, event_key,
  event_bucket, event_commit, record_event, block_key, block_count_key, block, threshold_prefix,
}
use angie_guardian.Scoreboard.Keys.{
  hold_key-shard, event_key-shard, event_key-hold_key, event_key-gen_key, event_key-count_key,
  event_key-block_key, canon_ip-canon_ip,
}
use angie_guardian.Scoreboard.Placed.{
  token-Same, token-Bounded, has_token, next_block, block_places,
}

-- The count that readers find under a key: 0 if it is absent.
abbrev count_at : Decimal → Option Entry → Option ℤ
count_at d none = some (pos 0)
count_at d (some e) = d.parse_int e.value

window_fits :
    (now w : ℕ) → now + 2 * suc w < 2 ^ 63 → deadline_fits now (mul64 (pos 2) (pos (suc w))) ≡ true
unfolding mul64 wrap64 ◌*ℤ◌
window_fits now w h = ground (arith, h)

tally_counts :
    (d : Decimal) (now : ℕ) (ttl : ℤ) (m : ℕ) (found : Option Entry)
    → m + 1 < 2 ^ 63
    → count_at d found ≡ some (pos m)
    → (tally d now ttl found).1 ≡ ok (record { committed = true; value = pos (m + 1) })
tally_counts d now ttl m none small counted = ground arith
tally_counts d now ttl m (some e) small counted =
    let parsed : d.parse_int e.value ≡ some (pos m) = counted in
    rw (tally, parsed) (rw (add64_pos m 1 small) refl)

is_positive-suc : (m : ℕ) → is_positive (pos (suc m)) ≡ true
is_positive-suc m = ground arith

module _ (d : Decimal) (n : Netip) (board : Scoreboard) (now : ℕ) (s : ShardedMemory)
    (b : Bounded s) (ip evtype : Bytes) (limit ttl max_ttl : ℤ) (random : Bytes) (l w : ℕ)
    (limited : limit ≡ pos (suc l)) where
  abbrev a : Bytes
  a = canon_ip n ip

  abbrev admitted : ShardedMemory
  admitted = (unblock_token n board now s a).0

  abbrev generation : Bytes
  generation = (unblock_token n board now s a).1

  abbrev counter_key : Bytes
  counter_key = event_key d evtype a generation (pos (event_bucket now (pos (suc w))))

  ok_shard : Bounded admitted
  ok_shard = token-Bounded n board now s b a

  -- While the hold of an unblock is live, an event of the address is not scored: no block is asked
  -- for, nothing is told to the offload, and no reader of any key sees a change.
  pub record_event_held :
      (later : ℕ) (j : Bytes)
      → now ≤ later
      → is_found (view s now (unblock_hold_key a)) ≡ true
      → let r = record_event n board now d s ip evtype limit (pos (suc w)) ttl max_ttl random in
        (r.1 ≡ false) × (r.2 ≡ ok []) × (view r.0 later j ≡ view s later j)
  unfolding record_event event_commit
  record_event_held later j le h =
      let c = event_commit n board now d evtype a generation (pos (suc w)) in
      let held : is_found (view admitted now (unblock_hold_key a)) ≡ true =
        ap is_found (token-Same n board now s b a now (unblock_hold_key a) (le_refl now)) ∙ h in
      let e =
        commit_event_held d admitted now c ok_shard (hold_key-shard a)
          (event_key-shard d evtype a generation _) later j le held in
      rw (limited, is_positive-suc l, is_positive-suc w, e.0)
        (refl, refl, e.1 ∙ token-Same n board now s b a later j le)

  abbrev scored : ShardedMemory
  scored =
      (commit_event d admitted now (event_commit n board now d evtype a generation (pos (suc w)))).0

  unheld :
      is_found (view s now (unblock_hold_key a)) ≡ false
      → is_found (view admitted now (unblock_hold_key a)) ≡ false
  unheld free =
      ap is_found (token-Same n board now s b a now (unblock_hold_key a) (le_refl now)) ∙ free

  event_counted :
      (m : ℕ)
      → now + 2 * suc w < 2 ^ 63
      → m + 1 < 2 ^ 63
      → is_found (view s now (unblock_hold_key a)) ≡ false
      → count_at d (view s now counter_key) ≡ some (pos m)
      → (commit_event d admitted now
          (event_commit n board now d evtype a generation (pos (suc w)))).1
        ≡ ok (record { committed = true; value = pos (m + 1) })
  unfolding event_commit
  event_counted m wide small free seen =
      (commit_event_counts d admitted now
        (event_commit n board now d evtype a generation (pos (suc w))) ok_shard (hold_key-shard a)
        (event_key-shard d evtype a generation _) now counter_key (le_refl now) (unheld free)
        (window_fits now w wide)).0
      ∙ tally_counts d now (mul64 (pos 2) (pos (suc w))) m (view admitted now counter_key) small
          (ap (count_at d) (token-Same n board now s b a now counter_key (le_refl now)) ∙ seen)

  -- The event touches no other key than its counter.
  scored-Same :
      (later : ℕ) (j : Bytes)
      → now ≤ later
      → is_found (view s now (unblock_hold_key a)) ≡ false
      → bytes_eq counter_key j ≡ false
      → view scored later j ≡ view s later j
  unfolding event_commit
  scored-Same later j le free other =
      (commit_event_bumps d admitted now
        (event_commit n board now d evtype a generation (pos (suc w))) ok_shard (hold_key-shard a)
        (event_key-shard d evtype a generation _) later j le (unheld free)).1
      ∙ (rw other (token-Same n board now s b a later j le))

  scored-Bounded : Bounded scored
  unfolding apply
  scored-Bounded =
      apply-Bounded d admitted now
        (scores (event_commit n board now d evtype a generation (pos (suc w)))) ok_shard

  -- The block that a threshold places, at the address's own canonical text.
  placed :
      (later : ℕ)
      → now ≤ later
      → is_positive board.unblock_hold ≡ true
      → is_found (view s now (unblock_hold_key a)) ≡ false
      → has_token (view s now (unblock_gen_key a)) ≡ true
      → view
          (block n board now d scored a
            (threshold_prefix n board now d ++ evtype)
            random
            ttl
            max_ttl).0
          later
          (block_key n a)
        ≡ live
            (some (
              next_block d now
                (view s now (block_count_key a))
                (threshold_prefix n board now d ++ evtype)
                random
                ttl
                max_ttl))
            later
  placed later le on free token =
      let same : (j : Bytes) → bytes_eq counter_key j ≡ false → view scored now j ≡ view s now j =
        λ j other. scored-Same now j (le_refl now) free other in
      let again = canon_ip-canon_ip n ip in
      let bucket = pos (event_bucket now (pos (suc w))) in
      let reason = threshold_prefix n board now d ++ evtype in
      let unhold : is_found (view scored now (unblock_hold_key (canon_ip n a))) ≡ false =
        ap (λ x. is_found (view scored now (unblock_hold_key x))) again
        ∙ (ap is_found
              (same (unblock_hold_key a) (event_key-hold_key d evtype a generation bucket a))
            ∙ free) in
      let well : has_token (view scored now (unblock_gen_key (canon_ip n a))) ≡ true =
        ap (λ x. has_token (view scored now (unblock_gen_key x))) again
        ∙ (ap has_token
              (same (unblock_gen_key a) (event_key-gen_key d evtype a generation bucket a))
            ∙ token) in
      ap
        (λ x. view (block n board now d scored a reason random ttl max_ttl).0 later (block_key n x))
        (sym again)
      ∙ (block_places d n board now scored scored-Bounded a reason random ttl max_ttl later le on
            unhold well
          ∙ ap (λ v. live (some (next_block d now v reason random ttl max_ttl)) later)
              (ap (λ x. view scored now (block_count_key x)) again
                ∙ same (block_count_key a) (event_key-count_key d evtype a generation bucket a)))

  -- While no hold is live, an event that finds the count `m` under its window's bucket and generation
  -- places a block exactly when `m + 1` reaches the limit: then it reports so, and the address's key
  -- holds the block of its next offense, with the reason "threshold:" and the event's type; below the
  -- limit it reports no block, and the block of the address reads as before. For a positive limit and
  -- window, with the end of the counter and the count within int64, holds switched on, and a
  -- generation that is absent or not empty.
  pub record_event_threshold :
      (m later : ℕ)
      → now ≤ later
      → now + 2 * suc w < 2 ^ 63
      → m + 1 < 2 ^ 63
      → is_positive board.unblock_hold ≡ true
      → is_found (view s now (unblock_hold_key a)) ≡ false
      → has_token (view s now (unblock_gen_key a)) ≡ true
      → count_at d (view s now counter_key) ≡ some (pos m)
      → let r = record_event n board now d s ip evtype limit (pos (suc w)) ttl max_ttl random in
        let over = not (ltb_ℤ (pos (m + 1)) limit) in
        (r.1 ≡ over)
        × (view r.0 later (block_key n a) ≡ (
            if over
            then live
                (some (
                  next_block d now
                    (view s now (block_count_key a))
                    (threshold_prefix n board now d ++ evtype)
                    random
                    ttl
                    max_ttl))
                later
            else view s later (block_key n a)))
  unfolding record_event
  record_event_threshold m later le wide small on free token counted =
      let x = event_counted m wide small free counted in
      let bucket = pos (event_bucket now (pos (suc w))) in
      elim (Bool-cases (ltb_ℤ (pos (m + 1)) (pos (suc l)))) [
        | inl y ↦
            rw (limited, is_positive-suc l, is_positive-suc w, x, y)
              (
                refl,
                scored-Same later (block_key n a) le free
                    (event_key-block_key d evtype a generation bucket a n),
              )
        | inr o ↦
            rw (limited, is_positive-suc l, is_positive-suc w, x, o)
              (refl, placed later le on free token)
      ]
