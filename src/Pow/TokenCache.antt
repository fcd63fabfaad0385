-- ===== src/Pow/TokenCache.antt =====
-- core/pow/tokencache.go: the bounded cache of verified tokens and of local claims. Expired entries
-- stay until the whole cache is cleared.
pub mod Claims
use angie_guardian.Prelude.{
  ℕ, ◌+◌, ◌*◌, ◌^◌, Bool, true, false, Option, none, some, List, [], ◌∷◌, Bytes, bytes_key, ltb,
  leb, if◌then◌else◌,
}
use angie_guardian.Prelude.Assoc.{Map, lookup, insert, size}
use angie_guardian.Store.{minute}

-- The keys are digests; an entry is its expiry in nanoseconds since 1970.
pub record TokenCache : Type 0 where
  pub m : Map Bytes ℕ

abbrev pub max_cache_entries : ℕ
max_cache_entries = 2 ^ 17

abbrev pub cache_max_validity : ℕ
cache_max_validity = 15 * minute

unfoldable pub new_token_cache : TokenCache
new_token_cache = record { m = [] }

-- A live entry: `ok && now.UnixNano() < exp`.
abbrev pub is_live : Option ℕ → ℕ → Bool
is_live none now = false
is_live (some at) now = ltb now at

unfoldable pub get : TokenCache → Bytes → ℕ → Bool
get c key now = is_live (lookup key c.m) now

unfoldable pub reset : TokenCache → TokenCache
reset c = record { m = [] }

-- The write, after a clear of a full cache.
unfoldable pub write : TokenCache → Bytes → ℕ → TokenCache
write c key at =
    if leb max_cache_entries (size c.m)
    then record { m = insert key at [] }
    else record { m = insert key at c.m }

unfoldable pub put : TokenCache → Bytes → ℕ → ℕ → TokenCache
unfolding write
put c key token_expiry now =
    let bound = now + cache_max_validity in
    write c key (if ltb token_expiry bound then token_expiry else bound)

unfoldable pub claim : TokenCache → Bytes → ℕ → ℕ → TokenCache × Bool
unfolding write
claim c key at now = if is_live (lookup key c.m) now then (c, false) else (write c key at, true)

pub data CacheOp : Type 0 where
  puts : Bytes → ℕ → CacheOp
  claims : Bytes → ℕ → CacheOp
  resets : CacheOp

unfoldable pub step : TokenCache → ℕ × CacheOp → TokenCache
unfolding put claim reset
step c (now, puts key at) = put c key at now
step c (now, claims key at) = (claim c key at now).0
step c (now, resets) = reset c

unfoldable pub run_cache : TokenCache → List (ℕ × CacheOp) → TokenCache
unfolding step
run_cache c [] = c
run_cache c (op ∷ ops) = run_cache (step c op) ops
