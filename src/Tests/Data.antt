-- ===== src/Tests/Data.antt =====
-- Concrete collaborators and a small store of core/store/sharded_memory.go.
use angie_guardian.Prelude.{◌<◌, refl, arith, Option, none, some, [], ◌∷◌, Bytes}
use angie_guardian.Prelude.Int.{ℤ, pos, negsuc}
use angie_guardian.Store.{Decimal}
use angie_guardian.Memory.State.{Entry, ShardedMemory}
use angie_guardian.Scoreboard.{Netip}

abbrev pub parse_cell : Bytes → Option ℤ
parse_cell [] = none
parse_cell (n ∷ []) = some (pos n)
parse_cell (n ∷ m ∷ rest) = none

-- A number as one cell.
abbrev pub cells : Decimal
cells = record {
  format_int = λ z. elim z [ pos n ↦ n ∷ [] | negsuc n ↦ 45 ∷ n ∷ [] ];
  parse_int = parse_cell;
  parse-format_pos = λ n h. refl;
}

abbrev pub plain_ip : Netip
plain_ip = record { canonical = λ ip. some ip; canonical_idem = λ ip a h. refl }

abbrev pub address : Bytes
address = 49 ∷ 46 ∷ 50 ∷ []

-- "a", with the count 3 until time 100.
abbrev pub key : Bytes
key = 97 ∷ []

abbrev pub other : Bytes
other = 98 ∷ []

abbrev pub counted : Entry
counted = record { value = 3 ∷ []; expires_at = some 100 }

-- Two shards; every one holds the entry, so that the reading of it does not depend on the hash.
abbrev pub store : ShardedMemory
store = record {
  shards = ((key, counted) ∷ []) ∷ ((key, counted) ∷ []) ∷ [];
  mask = 1;
  central = record { m = []; active_blocks = []; posture_votes = [] };
}

abbrev pub store-Bounded : 1 < 2
store-Bounded = omega arith
