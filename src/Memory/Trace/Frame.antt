-- ===== src/Memory/Trace/Frame.antt =====
-- What one operation leaves alone, and the race of an automatic block with an unblock.
use angie_guardian.Prelude.{
  ℕ, suc, ◌+◌, ◌≤◌, ◌≡◌, ◌≢◌, refl, sym, ap, ◌∙◌, Bool, true, false, not, Option, none, some, List,
  [], ◌∷◌, inl, inr, arith, Bytes, bytes_eq, bytes_eq_iff, Bool-cases, All,
}
use angie_guardian.Prelude.Int.{pos}
use angie_guardian.Store.{Decimal, ok, BlockCommit, BlockCommitResult, EventCommit, UnblockCommit}
use angie_guardian.Memory.State.{Entry, ShardedMemory, expiry, expired, is_central}
use angie_guardian.Memory.Ops.{matches, compare_and_delete}
use angie_guardian.Memory.Commit.{commit_block, commit_unblock, is_found}
use angie_guardian.Memory.Trace.{
  Op, reads, sets, deletes, adds, swaps, takes_back, commits, scores, unblocks, apply, run, spares,
  IsPlacedOp,
}
use angie_guardian.Memory.Trace.Bounds.{apply-Bounded}
use angie_guardian.Memory.View.{view, live, Bounded, Touches-view}
use angie_guardian.Memory.Reads.{
  get_refines, set_key_refines, delete_key_refines, compare_and_swap_refines,
}
use angie_guardian.Memory.Counters.{compare_and_delete_refines, incr_by_deadline_lem}
use angie_guardian.Memory.Blocks.{IsPlaced, allowed, commit_block_refused, commit_block_commits}
use angie_guardian.Memory.Unblocks.{
  IsUnblock, commit_unblock_refines, commit_event_held, commit_event_bumps,
}

not_eq : (b : Bool) → not b ≡ true → b ≡ false
not_eq true h = cc
not_eq false h = refl

commits_frame :
    (d : Decimal) (s : ShardedMemory) (now later : ℕ) (c : BlockCommit) (g : Bytes)
    → Bounded s
    → IsPlaced c
    → spares g (commits c) ≡ true
    → now ≤ later
    → view (commit_block d s now c).0 later g ≡ view s later g
commits_frame d s now later c g b p h le = elim (Bool-cases (allowed s now c)) [
  | inl y ↦ (commit_block_commits d s now c b p later g le y).1 ∙ ground arith
  | inr n ↦ (commit_block_refused d s now c b p n).3 later g le
]

scores_frame :
    (d : Decimal) (s : ShardedMemory) (now later : ℕ) (c : EventCommit) (g : Bytes)
    → Bounded s
    → IsPlacedOp (scores c)
    → spares g (scores c) ≡ true
    → now ≤ later
    → view (apply d s now (scores c)) later g ≡ view s later g
unfolding apply
scores_frame d s now later c g b p h le = elim (Bool-cases (is_found (view s now c.hold_key))) [
  | inl y ↦ (commit_event_held d s now c b p.0 p.1 later g le y).1
  | inr n ↦ (commit_event_bumps d s now c b p.0 p.1 later g le n).1 ∙ rw (not_eq _ h) refl
]

-- A reader of a key that an operation does not write sees no change from it.
pub apply_frame :
    (d : Decimal) (s : ShardedMemory) (now later : ℕ) (op : Op) (g : Bytes)
    → Bounded s
    → IsPlacedOp op
    → spares g op ≡ true
    → now ≤ later
    → view (apply d s now op) later g ≡ view s later g
unfolding apply
apply_frame d s now later (reads k) g b p h le = (get_refines s now k b later g le).1
apply_frame d s now later (sets k v ttl) g b p h le =
    set_key_refines s now k b v ttl later g ∙ rw (not_eq _ h) refl
apply_frame d s now later (deletes k) g b p h le =
    delete_key_refines s now k b later g ∙ rw (not_eq _ h) refl
apply_frame d s now later (adds k delta t) g b p h le =
    Touches-view k _ s _ (incr_by_deadline_lem d s now k b delta t).1 later g ∙ rw (not_eq _ h) refl
apply_frame d s now later (swaps k old new ttl) g b p h le =
    (compare_and_swap_refines s now k b old new ttl later g le).1 ∙ rw (not_eq _ h) refl
apply_frame d s now later (takes_back k none) g b p h le = unfold compare_and_delete in refl
apply_frame d s now later (takes_back k (some old)) g b p h le =
    (compare_and_delete_refines s now k b old later g le).1 ∙ rw (not_eq _ h) refl
apply_frame d s now later (commits c) g b p h le = commits_frame d s now later c g b p h le
apply_frame d s now later (scores c) g b p h le = scores_frame d s now later c g b p h le
apply_frame d s now later (unblocks c) g b p h le =
    (commit_unblock_refines s now c b p later g).1 ∙ ground arith

-- A timed operation that keeps off a key, is well placed, and comes no later than a time.
abbrev pub KeepsOff : Bytes → ℕ → ℕ × Op → Type 0
KeepsOff g t (now, op) = (now ≤ t) × IsPlacedOp op × (spares g op ≡ true)

pub run-Bounded :
    (d : Decimal) (s : ShardedMemory) (ops : List (ℕ × Op)) → Bounded s → Bounded (run d s ops)
unfolding run
run-Bounded d s [] b = b
run-Bounded d s ((now, op) ∷ ops) b =
    run-Bounded d (apply d s now op) ops (apply-Bounded d s now op b)

-- Whatever other writers do to other keys, in any order, a reader of this key sees no change.
pub run_frame :
    (d : Decimal) (s : ShardedMemory) (ops : List (ℕ × Op)) (g : Bytes) (later : ℕ)
    → Bounded s
    → All (KeepsOff g later) ops
    → view (run d s ops) later g ≡ view s later g
unfolding run
run_frame d s [] g later b h = refl
run_frame d s ((now, op) ∷ ops) g later b h =
    run_frame d (apply d s now op) ops g later (apply-Bounded d s now op b) h.1
    ∙ apply_frame d s now later op g b h.0.1 h.0.2 h.0.0

guard_fails : (old : Option Bytes) (e : Entry) → old ≢ some e.value → matches old (some e) ≡ false
guard_fails none e h = refl
guard_fails (some v) e h = elim (Bool-cases (bytes_eq e.value v)) [
  | inl y ↦ absurd (h (ap some (sym ((bytes_eq_iff e.value v).0 y))))
  | inr n ↦ n
]

central_apart : (k g : Bytes) → is_central k ≡ true → is_central g ≡ false → bytes_eq k g ≡ false
central_apart k g h i = elim (Bool-cases (bytes_eq k g)) [
  | inl y ↦ cc (ap is_central ((bytes_eq_iff k g).0 y))
  | inr n ↦ n
]

module _ (d : Decimal) (s : ShardedMemory) (now : ℕ) (u : UnblockCommit) (n t : ℕ) (b : Bounded s)
    (placed : IsUnblock u) (ttl : u.generation_ttl ≡ pos (suc n))
    (apart : bytes_eq u.counter_key u.generation_key ≡ false) (retained : t ≤ now + suc n) where
  fresh : Entry
  fresh = record { value = u.generation; expires_at = some (now + suc n) }

  generation_seen : view (commit_unblock s now u).0 t u.generation_key ≡ some fresh
  unfolding fresh live expired expiry
  generation_seen =
      (commit_unblock_refines s now u b placed t u.generation_key).1
      ∙ ground (
        arith,
        ttl,
        central_apart u.block_key u.generation_key placed.block_central placed.generation_shard,
        bytes_eq_iff u.generation_key u.generation_key,
      )

  -- An unblock wins against every automatic block that was admitted before it. Take any store, an
  -- unblock, any run of operations that keep off the generation key, and then a block commit
  -- guarded by another generation than the unblock's, all while that generation is retained: the
  -- commit is refused, and no reader of any key sees a change from it.
  pub stale_block_refused :
      (ops : List (ℕ × Op)) (c : BlockCommit) (later : ℕ) (j : Bytes)
      → t ≤ later
      → All (KeepsOff u.generation_key t) ops
      → IsPlaced c
      → c.guard_key ≡ u.generation_key
      → c.guard_value ≢ some u.generation
      → let before = run d (commit_unblock s now u).0 ops in
        ((r : BlockCommitResult) × ((commit_block d before t c).1 ≡ ok r) × (r.committed ≡ false))
        × (view (commit_block d before t c).0 later j ≡ view before later j)
  unfolding fresh
  stale_block_refused ops c later j le off p key other =
      let before = run d (commit_unblock s now u).0 ops in
      let bu : Bounded (commit_unblock s now u).0 =
        unfold apply in apply-Bounded d s now (unblocks u) b in
      let seen : view before t c.guard_key ≡ some fresh =
        rw key (run_frame d _ ops u.generation_key t bu off ∙ generation_seen) in
      let no_match : matches c.guard_value (view before t c.guard_key) ≡ false =
        rw seen (guard_fails c.guard_value fresh other) in
      let refusal = commit_block_refused d before t c (run-Bounded d _ ops bu) p (ground arith) in
      ((refusal.0, refusal.1, refusal.2), refusal.3 later j le)
