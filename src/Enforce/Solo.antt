-- ===== src/Enforce/Solo.antt =====
-- core/enforce/mirror.go: a reconcile with no other call between its sections, one section at a time
-- and as one step.
use angie_guardian.Prelude.{ℕ, ◌≡◌, Bool, not, List, Bytes, bytes_key, replicate}
use angie_guardian.Prelude.Assoc.{Map, retain}
use angie_guardian.Enforce.{BlockEntry, Mirror, is_stale, prune_tombstones}
use angie_guardian.Enforce.Pass.{Turn, finished, Pass, own, play}

module _ (as16 : Bytes → Bytes) (active : Map Bytes BlockEntry) (scan_start : ℕ) where
  abbrev at_turn : Turn → Bool → Pass
  at_turn turn complete = record {
    active = active;
    scan_start = scan_start;
    turn = turn;
    complete = complete;
  }

  -- The sections of the reconcile alone end with these entries, the log cleaned, and this answer.
  Ends : Mirror × Pass → Mirror × Bool → Type 0
  Ends (mr, p) r =
      (n : ℕ) × (play as16 mr p (replicate n own)
        ≡ (prune_tombstones r.0 scan_start, at_turn finished r.1))

  abbrev kept : Map Bytes BlockEntry → Map Bytes BlockEntry
  kept = retain (λ k e. not (is_stale active scan_start k e))

  abbrev sharded : Mirror → List (Map Bytes BlockEntry) → Mirror
  sharded mr ms = record mr { shards = ms }
