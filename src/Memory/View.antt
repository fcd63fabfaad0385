-- ===== src/Memory/View.antt =====
-- The in-memory store seen as one map: where a key's entry stands, and how a write of its shard or
-- of the central map changes what stands under every key.
use Prim.Native.Nat.{bit_and, digits, bit_and-bitwise}
use angie_guardian.Prelude.{
  ℕ, zero, suc, ◌/◌, ◌≤◌, ◌<◌, min, ◌≡◌, refl, sym, ap, ◌∙◌, ◌≢◌, true, false, Option, none, some,
  [], inl, inr, arith, if◌then◌else◌, Bytes, bytes_eq, bytes_key, bytes_eq_iff, Bool-cases,
  Option-cases, length, length-set, get_or-set_self, get_or-set_ne, ◌=ℕ◌, =ℕ_iff,
}
use angie_guardian.Prelude.Assoc.{Map, lookup, insert, delete, lookup-insert, lookup-delete}
use angie_guardian.Memory.State.{
  Entry, ShardedMemory, ShardCentral, expired, is_central, shard_for, shard_map, with_shard_map,
  get_shard, get_central,
}

-- The mask keeps the index of a shard within the mask.
digits-le : (n a b : ℕ) → digits (λ _. zero) min n a b ≤ b
digits-le zero zero b = omega arith
digits-le zero (suc a) b = omega arith
digits-le (suc n) zero b = omega arith
digits-le (suc n) (suc a) b = omega (arith, digits-le n (suc a / 2) (b / 2))

bit_and-le : (a b : ℕ) → bit_and a b ≤ b
bit_and-le a b = omega (arith, bit_and-bitwise a b, digits-le a a b)

-- The entry under a key, expired or not.
unfoldable pub entry_at : ShardedMemory → Bytes → Option Entry
entry_at s key = if is_central key then lookup key s.central.m else lookup key (shard_map s key)

unfoldable pub live : Option Entry → ℕ → Option Entry
live none now = none
live (some e) now = if expired e now then none else some e

-- What a reader sees under a key at a time.
abbrev pub view : ShardedMemory → ℕ → Bytes → Option Entry
view s now key = live (entry_at s key) now

abbrev pub Bounded : ShardedMemory → Type 0
Bounded s = s.mask < length s.shards

-- `m'` is `m` with `o` under `k`.
abbrev pub Puts : Bytes → Option Entry → Map Bytes Entry → Map Bytes Entry → Type 0
Puts k o m m' = (j : Bytes) → lookup j m' ≡ (if bytes_eq k j then o else lookup j m)

-- The store `s'` is `s` with `o` under `k`.
abbrev pub Touches : Bytes → Option Entry → ShardedMemory → ShardedMemory → Type 0
Touches k o s s' = (j : Bytes) → entry_at s' j ≡ (if bytes_eq k j then o else entry_at s j)

pub live-live : (o : Option Entry) (now t : ℕ) → now ≤ t → live (live o now) t ≡ live o t
unfolding live expired
live-live none now t h = refl
live-live (some e) now t h = elim (Option-cases e.expires_at) [
  | inl n ↦ ground arith
  | inr (d, n) ↦ ground arith
]

pub insert-Puts : (k : Bytes) (e : Entry) (m : Map Bytes Entry) → Puts k (some e) m (insert k e m)
insert-Puts k e m j = lookup-insert k j e m

pub delete-Puts : (k : Bytes) (m : Map Bytes Entry) → Puts k none m (delete k m)
delete-Puts k m j = lookup-delete k j m

pub get_shard_found :
    (m : Map Bytes Entry) (k : Bytes) (now : ℕ) → (get_shard m k now).1 ≡ live (lookup k m) now
unfolding get_shard live
get_shard_found m k now = ground arith

pub get_shard-Puts :
    (m : Map Bytes Entry) (k : Bytes) (now : ℕ)
    → Puts k (live (lookup k m) now) m (get_shard m k now).0
unfolding get_shard live
get_shard-Puts m k now j =
    ground (arith, lookup-delete k j m, bytes_eq_iff k j, ap (λ x. lookup x m))

pub get_central_found :
    (c : ShardCentral) (k : Bytes) (now : ℕ) → (get_central c k now).1 ≡ live (lookup k c.m) now
unfolding get_central live
get_central_found c k now = ground arith

pub get_central-Puts :
    (c : ShardCentral) (k : Bytes) (now : ℕ)
    → Puts k (live (lookup k c.m) now) c.m (get_central c k now).0.m
unfolding get_central live
get_central-Puts c k now j =
    ground (arith, lookup-delete k j c.m, bytes_eq_iff k j, ap (λ x. lookup x c.m))

pub shard_for-lt : (s : ShardedMemory) (k : Bytes) → Bounded s → shard_for s k < length s.shards
unfolding shard_for
shard_for-lt s k b = omega (arith, bit_and-le _ s.mask)

module _ (s : ShardedMemory) (k : Bytes) (o : Option Entry) (bounded : Bounded s) where
  shard_map-with :
      (m : Map Bytes Entry) (j : Bytes)
      → Puts k o (shard_map s k) m
      → lookup j (shard_map (with_shard_map s k m) j)
        ≡ (if bytes_eq k j then o else lookup j (shard_map s j))
  unfolding shard_map with_shard_map shard_for
  shard_map-with m j p = elim (Bool-cases (shard_for s k =ℕ shard_for s j)) [
    | inl same ↦
        let q : shard_for s k ≡ shard_for s j = (=ℕ_iff _ _).0 same in
        rw (← q, get_or-set_self s.shards (shard_for s k) m [] (shard_for-lt s k bounded)) (p j)
    | inr other ↦
        let n : shard_for s k ≢ shard_for s j = ground arith in
        rw (get_or-set_ne s.shards (shard_for s k) (shard_for s j) m [] n)
          (ground (arith, bytes_eq_iff k j, ap (shard_for s)))
  ]

  pub with_shard_map-Touches :
      (m : Map Bytes Entry)
      → is_central k ≡ false
      → Puts k o (shard_map s k) m
      → Touches k o s (with_shard_map s k m)
  unfolding entry_at with_shard_map
  with_shard_map-Touches m h p j = elim (Bool-cases (is_central j)) [
    | inl c ↦ rw c (ground (arith, bytes_eq_iff k j, ap is_central))
    | inr d ↦ rw d (shard_map-with m j p)
  ]

pub central-Touches :
    (s : ShardedMemory) (k : Bytes) (o : Option Entry) (c : ShardCentral)
    → is_central k ≡ true
    → Puts k o s.central.m c.m
    → Touches k o s (record s { central = c })
unfolding entry_at shard_map shard_for
central-Touches s k o c h p j = elim (Bool-cases (is_central j)) [
  | inl c ↦ rw c (p j)
  | inr d ↦ rw d (ground (arith, bytes_eq_iff k j, ap is_central))
]

-- Two writes of one key: the later one stands.
pub Touches-trans :
    (k : Bytes) (o p : Option Entry) (s t u : ShardedMemory)
    → Touches k o s t
    → Touches k p t u
    → Touches k p s u
Touches-trans k o p s t u h i j = ground (arith, h j, i j)

-- A write of what a reader sees under the key is no change for a reader from then on.
pub Touches-view_same :
    (k : Bytes) (now : ℕ) (s t : ShardedMemory)
    → Touches k (view s now k) s t
    → (later : ℕ) (j : Bytes) → now ≤ later
    → view t later j ≡ view s later j
Touches-view_same k now s t h later j le =
    rw (h j) (ground (arith, bytes_eq_iff k j, live-live (entry_at s k) now later, ap (entry_at s)))

pub Touches-view :
    (k : Bytes) (o : Option Entry) (s t : ShardedMemory)
    → Touches k o s t
    → (later : ℕ) (j : Bytes)
    → view t later j ≡ (if bytes_eq k j then live o later else view s later j)
Touches-view k o s t h later j = rw (h j) (ground arith)

pub entry_at_central :
    (s : ShardedMemory) (k : Bytes) → is_central k ≡ true → entry_at s k ≡ lookup k s.central.m
unfolding entry_at
entry_at_central s k h = rw h

pub entry_at_shard :
    (s : ShardedMemory) (k : Bytes) → is_central k ≡ false → entry_at s k ≡ lookup k (shard_map s k)
unfolding entry_at
entry_at_shard s k h = rw h

-- What a read of a key's own map returns and leaves, in terms of the view.
module _ (s : ShardedMemory) (now : ℕ) (k : Bytes) where
  pub found_central : is_central k ≡ true → (get_central s.central k now).1 ≡ view s now k
  found_central c =
      get_central_found s.central k now ∙ ap (λ o. live o now) (sym (entry_at_central s k c))

  pub found_shard : is_central k ≡ false → (get_shard (shard_map s k) k now).1 ≡ view s now k
  found_shard c =
      get_shard_found (shard_map s k) k now ∙ ap (λ o. live o now) (sym (entry_at_shard s k c))

  pub read_central-Puts :
      is_central k ≡ true → Puts k (view s now k) s.central.m (get_central s.central k now).0.m
  read_central-Puts c = rw (entry_at_central s k c) (get_central-Puts s.central k now)

  pub read_shard-Puts :
      is_central k ≡ false
      → Puts k (view s now k) (shard_map s k) (get_shard (shard_map s k) k now).0
  read_shard-Puts c = rw (entry_at_shard s k c) (get_shard-Puts (shard_map s k) k now)

pub Puts-trans :
    (k : Bytes) (o p : Option Entry) (l m n : Map Bytes Entry)
    → Puts k o l m
    → Puts k p m n
    → Puts k p l n
Puts-trans k o p l m n h i j = ground (arith, h j, i j)

-- No reader sees a difference from `now` on.
abbrev pub Same : ℕ → ShardedMemory → ShardedMemory → Type 0
Same now s t = (later : ℕ) (j : Bytes) → now ≤ later → view t later j ≡ view s later j

pub Same-trans : (now : ℕ) (s t u : ShardedMemory) → Same now s t → Same now t u → Same now s u
Same-trans now s t u h i later j le = i later j le ∙ h later j le

pub with_shard_map-Bounded :
    (s : ShardedMemory) (k : Bytes) (m : Map Bytes Entry)
    → Bounded s
    → Bounded (with_shard_map s k m)
unfolding with_shard_map
with_shard_map-Bounded s k m b = omega (arith, length-set s.shards (shard_for s k) m)
