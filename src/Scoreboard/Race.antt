-- ===== src/Scoreboard/Race.antt =====
-- Blocks and unblocks of one address racing on the store (core/scoreboard.go).
use native.Mathlib.Nat.{le_refl}
use angie_guardian.Prelude.{
  ℕ, ◌+◌, ◌-◌, ◌*◌, ◌≤◌, ◌≡◌, ◌≢◌, refl, ◌∙◌, Bool, false, Option, none, some, List, [], ◌∷◌, arith,
  Bytes, bytes_eq_iff, All,
}
use angie_guardian.Prelude.Int.{ℤ}
use angie_guardian.Store.{Decimal, ok, BlockCommitResult, hour}
use angie_guardian.Memory.State.{ShardedMemory}
use angie_guardian.Memory.Commit.{commit_block, commit_unblock}
use angie_guardian.Memory.View.{view, Bounded}
use angie_guardian.Memory.Unblocks.{commit_unblock_refines}
use angie_guardian.Memory.Trace.{Op, run, apply, unblocks}
use angie_guardian.Memory.Trace.Frame.{KeepsOff, stale_block_refused, run_frame}
use angie_guardian.Memory.Trace.Bounds.{apply-Bounded}
use angie_guardian.Scoreboard.{
  Netip, Scoreboard, block_key, unblock_gen_key, unblock_commit, block_commit, guard_of,
}
use angie_guardian.Scoreboard.Keys.{
  unblock_commit-IsUnblock, block_commit-IsPlaced, count_key-gen_key,
}

guard_of-ne :
    (admitted generation : Bytes) → admitted ≢ generation → guard_of admitted ≢ some generation
guard_of-ne [] g h e = cc
guard_of-ne (c ∷ a) g h e = h (ground arith)

module _ (d : Decimal) (n : Netip) (board : Scoreboard) (s : ShardedMemory) (b : Bounded s)
    (now : ℕ) (ip generation : Bytes) (reset : Bool) where
  unblocked : ShardedMemory
  unblocked = (commit_unblock s now (unblock_commit n board now ip generation reset)).0

  unblocked-Bounded : Bounded unblocked
  unfolding unblocked apply
  unblocked-Bounded =
      apply-Bounded d s now (unblocks (unblock_commit n board now ip generation reset)) b

  unblocked_block : (later : ℕ) → view unblocked later (block_key n ip) ≡ none
  unfolding unblocked unblock_commit
  unblocked_block later =
      (commit_unblock_refines s now (unblock_commit n board now ip generation reset) b
        (unblock_commit-IsUnblock n board now ip generation reset) later (block_key n ip)).1
      ∙ ground (arith, bytes_eq_iff (block_key n ip) (block_key n ip))

  -- An operator's unblock is final against the automatic blocks that were already on their way.
  -- Take any store, the unblock of an address under a fresh generation, any operations of other
  -- writers that keep off the address's generation and block, and then the commit of a block that
  -- was admitted under another generation, at most a day later. It is refused, and the address
  -- reads as not blocked.
  pub unblock_final :
      (ops : List (ℕ × Op)) (t : ℕ) (admitted : Bytes) (prev : Option Bytes) (mine : Bytes)
      (ttl max_ttl : ℤ)
      → t ≤ now + 24 * hour
      → admitted ≢ generation
      → All (KeepsOff (unblock_gen_key ip) t) ops
      → All (KeepsOff (block_key n ip) t) ops
      → let before =
          run d (commit_unblock s now (unblock_commit n board now ip generation reset)).0 ops in
        let c = block_commit n board now ip admitted prev mine ttl max_ttl in
        ((r : BlockCommitResult) × ((commit_block d before t c).1 ≡ ok r) × (r.committed ≡ false))
        × (view (commit_block d before t c).0 t (block_key n ip) ≡ none)
  unfolding unblocked unblock_commit block_commit
  unblock_final ops t admitted prev mine ttl max_ttl retained other off_gen off_block =
      let u = unblock_commit n board now ip generation reset in
      let c = block_commit n board now ip admitted prev mine ttl max_ttl in
      let r =
        stale_block_refused d s now u (24 * hour - 1) t b
          (unblock_commit-IsUnblock n board now ip generation reset) refl (count_key-gen_key ip)
          (omega arith) ops c t (block_key n ip) (le_refl t) off_gen
          (block_commit-IsPlaced n board now ip admitted prev mine ttl max_ttl) refl
          (guard_of-ne admitted generation other) in
      (
        r.0,
        r.1
            ∙ run_frame d unblocked ops (block_key n ip) t unblocked-Bounded off_block
            ∙ unblocked_block t,
      )
