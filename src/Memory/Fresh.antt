-- ===== src/Memory/Fresh.antt =====
-- NewShardedMemory and nextPow2 of core/store/sharded_memory.go: the shards and the mask.
use native.Mathlib.Nat.{pow-suc}
use angie_guardian.Prelude.{
  ℕ, zero, suc, ◌-◌, ◌*◌, ◌%◌, ◌^◌, ◌≤◌, ◌<◌, ◌≡◌, arith, [], length, length-replicate, Bytes,
}
use angie_guardian.Prelude.Int.{ℤ, pos, negsuc}
use angie_guardian.Prelude.Assoc.{Map}
use angie_guardian.Memory.State.{Entry, double_until, next_pow2, new_sharded_memory, default_shards}
use angie_guardian.Memory.View.{Bounded}

shift : (p f : ℕ) → p * 2 ^ suc f ≡ p * 2 * 2 ^ f
shift p f = rw pow-suc (grind arith)

double_until-le : (fuel n p : ℕ) → p ≤ double_until fuel n p
unfolding double_until
double_until-le zero n p = omega arith
double_until-le (suc fuel) n p = ground (arith, double_until-le fuel n (p * 2))

-- Enough fuel takes the loop to its end.
double_until_enough : (fuel n p : ℕ) → n ≤ p * 2 ^ fuel → n ≤ double_until fuel n p
unfolding double_until
double_until_enough zero n p h = omega arith
double_until_enough (suc fuel) n p h =
    ground (arith, shift p fuel, double_until_enough fuel n (p * 2))

pow_pos : (k : ℕ) → 1 ≤ 2 ^ k
pow_pos zero = omega arith
pow_pos (suc k) = omega (arith, pow-suc 2 k, pow_pos k)

le_pow : (n : ℕ) → n ≤ 2 ^ n
le_pow zero = omega arith
le_pow (suc n) = omega (arith, pow-suc 2 n, le_pow n, pow_pos n)

-- The number of shards that is asked for, or the default.
abbrev pub requested : ℤ → ℕ
requested (pos zero) = default_shards
requested (pos (suc n)) = suc n
requested (negsuc n) = default_shards

one : (x : ℕ) → 1 * x ≡ x
one x = omega arith

masked : (n : ℕ) → 1 ≤ n → (n - 1) % 2 ^ 32 < n
masked n h = omega arith

next_pow2_enough : (z : ℤ) → (requested z ≤ next_pow2 z) × (1 ≤ next_pow2 z)
unfolding next_pow2
next_pow2_enough (pos zero) =
    (double_until_enough 256 256 1 (rw one (le_pow 256)), double_until-le 256 256 1)
next_pow2_enough (pos (suc n)) = (
  double_until_enough (suc n) (suc n) 1 (rw one (le_pow (suc n))),
  double_until-le (suc n) (suc n) 1,
)
next_pow2_enough (negsuc n) =
    (double_until_enough 256 256 1 (rw one (le_pow 256)), double_until-le 256 256 1)

-- A new store has at least as many shards as were asked for, 256 where the number asked for is not
-- positive, and it is well formed: every key's shard is one of them.
pub new_sharded_memory_lem :
    (z : ℤ) → (requested z ≤ length (new_sharded_memory z).shards) × Bounded (new_sharded_memory z)
unfolding new_sharded_memory
new_sharded_memory_lem z =
    let (enough, some_shard) = next_pow2_enough z in
    rw (length-replicate {A = Map Bytes Entry} (next_pow2 z) [])
      (enough, masked (next_pow2 z) some_shard)
