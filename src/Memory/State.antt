-- ===== src/Memory/State.antt =====
-- core/store/sharded_memory.go: the state of the in-memory store, and access to one key.
-- The clock is an argument of each operation, which reads it once; the locks make each
-- operation one step.
use Prim.Native.Nat.{bit_and, bit_xor}
use angie_guardian.Prelude.{
  ℕ, zero, suc, ◌+◌, ◌-◌, ◌*◌, ◌%◌, ◌^◌, Bool, true, false, ◌&&◌, Option, none, some, List, [], ◌∷◌,
  if◌then◌else◌, ltb, ◌=ℕ◌, Bytes, get_or, set, replicate, bytes_key,
}
use angie_guardian.Prelude.Int.{ℤ, pos, negsuc}
use angie_guardian.Prelude.Assoc.{Map, lookup, insert, delete}
use angie_guardian.Store.{Deadline}

pub record Entry : Type 0 where
  pub value : Bytes
  pub expires_at : Deadline

-- `!t.IsZero() && now.After(t)`
unfoldable pub passed : Deadline → ℕ → Bool
passed none now = false
passed (some t) now = ltb t now

unfoldable pub expired : Entry → ℕ → Bool
unfolding passed
expired e now = passed e.expires_at now

pub record PostureVote : Type 0 where
  pub level : ℕ
  pub expires_at : Deadline

-- `expiry(ttl)` at the clock `now`: a ttl of at most 0 means no expiry.
unfoldable pub expiry : ℕ → ℤ → Deadline
expiry now (pos zero) = none
expiry now (pos (suc n)) = some (now + suc n)
expiry now (negsuc n) = none

pub record ShardCentral : Type 0 where
  pub m : Map Bytes Entry
  pub active_blocks : Map Bytes (Unit {0})
  pub posture_votes : Map Bytes PostureVote

pub record ShardedMemory : Type 0 where
  pub shards : List (Map Bytes Entry)
  pub mask : ℕ
  pub central : ShardCentral

abbrev pub default_shards : ℕ
default_shards = 256

-- `for p < n { p <<= 1 }`, with as many rounds as the first argument.
unfoldable pub double_until : ℕ → ℕ → ℕ → ℕ
double_until zero n p = p
double_until (suc fuel) n p = elim (ltb p n) [ true ↦ double_until fuel n (p * 2) | false ↦ p ]

unfoldable pub next_pow2 : ℤ → ℕ
unfolding double_until
next_pow2 (pos zero) = double_until default_shards default_shards 1
next_pow2 (pos (suc n)) = double_until (suc n) (suc n) 1
next_pow2 (negsuc n) = double_until default_shards default_shards 1

unfoldable pub new_sharded_memory : ℤ → ShardedMemory
unfolding next_pow2
new_sharded_memory shards =
    let n = next_pow2 shards in
    record {
      shards = replicate n [];
      mask = (n - 1) % 2 ^ 32;
      central = record { m = []; active_blocks = []; posture_votes = [] };
    }

-- The loop of `fnv1a32` over uint32.
unfoldable pub fnv1a : ℕ → Bytes → ℕ
fnv1a h [] = h
fnv1a h (c ∷ s) = fnv1a (bit_xor h c * 16777619 % 2 ^ 32) s

unfoldable pub fnv1a32 : Bytes → ℕ
unfolding fnv1a
fnv1a32 = fnv1a 2166136261

abbrev pub has_prefix : Bytes → Bytes → Bool
has_prefix s [] = true
has_prefix [] (c ∷ p) = false
has_prefix (d ∷ s) (c ∷ p) = (d =ℕ c) && has_prefix s p

-- "block:"
abbrev pub block_prefix : Bytes
block_prefix = b'b' ∷ b'l' ∷ b'o' ∷ b'c' ∷ b'k' ∷ b':' ∷ []

unfoldable pub is_central : Bytes → Bool
is_central key = has_prefix key block_prefix

unfoldable pub shard_for : ShardedMemory → Bytes → ℕ
unfolding fnv1a32
shard_for s key = bit_and (fnv1a32 key) s.mask

-- `s.shardFor(key).m`, and a write of that map.
unfoldable pub shard_map : ShardedMemory → Bytes → Map Bytes Entry
shard_map s key = get_or s.shards (shard_for s key) []

unfoldable pub with_shard_map : ShardedMemory → Bytes → Map Bytes Entry → ShardedMemory
with_shard_map s key m = record s { shards = set s.shards (shard_for s key) m }

-- A read: the map, and the entry if it is live; a dead one is removed.
unfoldable pub get_shard : Map Bytes Entry → Bytes → ℕ → Map Bytes Entry × Option Entry
unfolding expired
get_shard m key now = elim (lookup key m) [
  | none ↦ (delete key m, none)
  | some e ↦ if expired e now then (delete key m, none) else (m, some e)
]

unfoldable pub get_central : ShardCentral → Bytes → ℕ → ShardCentral × Option Entry
unfolding expired
get_central c key now = elim (lookup key c.m) [
  | none ↦ (record c { m = delete key c.m; active_blocks = delete key c.active_blocks }, none)
  | some e ↦
      if expired e now
      then (record c { m = delete key c.m; active_blocks = delete key c.active_blocks }, none)
      else (c, some e)
]

unfoldable pub insert_central : ShardCentral → Bytes → Entry → ShardCentral
insert_central c key e = record c { m = insert key e c.m }

-- `if strings.HasPrefix(key, "block:") { activeBlocks[key] = struct{}{} }`
unfoldable pub index_block : ShardCentral → Bytes → ShardCentral
index_block c key =
    if has_prefix key block_prefix
    then record c { active_blocks = insert key tt c.active_blocks }
    else c

unfoldable pub delete_central : ShardCentral → Bytes → ShardCentral
delete_central c key = record c { m = delete key c.m; active_blocks = delete key c.active_blocks }
