-- ===== src/Pow/TokenCache/Claims.antt =====
-- core/pow/tokencache.go: the cache stays bounded, holds what was put, and grants a live key once.
use angie_guardian.Prelude.{
  ℕ, ◌+◌, ◌≤◌, ◌<◌, ◌≡◌, refl, sym, ap, ◌∙◌, ◌⊎◌, true, false, not, none, some, inl, inr, List, [],
  ◌∷◌, arith, Bytes, bytes_eq, bytes_eq_iff, bytes_key, ltb, leb, Bool-cases, if◌then◌else◌,
}
use angie_guardian.Prelude.Assoc.{lookup, size, lookup-insert, size-insert}
use angie_guardian.Pow.TokenCache.{
  TokenCache, max_cache_entries, cache_max_validity, is_live, get, reset, write, put, claim,
  CacheOp, puts, claims, resets, step, run_cache, new_token_cache,
}

abbrev pub IsSmall : TokenCache → Type 0
IsSmall c = size c.m ≤ max_cache_entries

write-IsSmall : (c : TokenCache) (key : Bytes) (at : ℕ) → IsSmall c → IsSmall (write c key at)
unfolding write
write-IsSmall c key at h = ground (arith, size-insert key at c.m, size-insert key at [])

step-IsSmall : (c : TokenCache) (op : ℕ × CacheOp) → IsSmall c → IsSmall (step c op)
unfolding step put claim reset
step-IsSmall c (now, puts key at) h = write-IsSmall c key _ h
step-IsSmall c (now, claims key at) h = elim (Bool-cases (is_live (lookup key c.m) now)) [
  | inl y ↦ rw (step, claim, y) h
  | inr n ↦ rw (step, claim, n) (write-IsSmall c key at h)
]
step-IsSmall c (now, resets) h = omega arith

run_cache-IsSmall :
    (c : TokenCache) (ops : List (ℕ × CacheOp)) → IsSmall c → IsSmall (run_cache c ops)
unfolding run_cache
run_cache-IsSmall c [] h = h
run_cache-IsSmall c (op ∷ ops) h = run_cache-IsSmall (step c op) ops (step-IsSmall c op h)

-- What an operation on the cache may make live at a time: a claim until its expiry, a token until
-- the sooner of its expiry and fifteen minutes from now.
abbrev pub Grants : Bytes → ℕ → ℕ × CacheOp → Type 0
Grants key t (now, puts k at) = (k ≡ key) × (t < at) × (t < now + cache_max_validity)
Grants key t (now, claims k at) = (k ≡ key) × (t < at)
Grants key t (now, resets) = ⊥

abbrev pub Granted : Bytes → ℕ → List (ℕ × CacheOp) → Type 0
Granted key t [] = ⊥
Granted key t (op ∷ ops) = Grants key t op ⊎ Granted key t ops

-- After a write the key has its entry, and any other key what it had, or nothing after a clear.
lookup-write :
    (c : TokenCache) (k key : Bytes) (at : ℕ)
    → lookup key (write c k at).m ≡ (
        if bytes_eq k key
        then some at
        else if leb max_cache_entries (size c.m)
        then none
        else lookup key c.m)
unfolding write
lookup-write c k key at = elim (Bool-cases (leb max_cache_entries (size c.m))) [
  | inl full ↦ rw (full, write) (lookup-insert k key at [] ∙ unfold lookup in refl)
  | inr room ↦ rw (room, write) (lookup-insert k key at c.m)
]

get-write :
    (c : TokenCache) (k key : Bytes) (at t : ℕ)
    → get (write c k at) key t ≡ true
    → (get c key t ≡ true) ⊎ ((k ≡ key) × (t < at))
unfolding get
get-write c k key at t h =
    let seen = ap (λ o. is_live o t) (lookup-write c k key at) in
    elim (Bool-cases (bytes_eq k key)) [
      | inl y ↦ inr ((bytes_eq_iff k key).0 y, ground (arith, rw y at seen, h))
      | inr n ↦ (elim (Bool-cases (leb max_cache_entries (size c.m))) [
        | inl full ↦ absurd (cc (sym h ∙ rw (n, full) at seen))
        | inr room ↦ inl (sym (rw (n, room) at seen) ∙ h)
      ])
    ]

step_granted :
    (c : TokenCache) (op : ℕ × CacheOp) (key : Bytes) (t : ℕ)
    → get (step c op) key t ≡ true
    → (get c key t ≡ true) ⊎ Grants key t op
unfolding step put claim reset get lookup
step_granted c (now, puts k at) key t h = elim (get-write c k key _ t h) [
  | inl before ↦ inl before
  | inr (same, early) ↦ inr (same, ground (arith, early), ground (arith, early))
]
step_granted c (now, claims k at) key t h = elim (Bool-cases (is_live (lookup k c.m) now)) [
  | inl y ↦ inl (rw (step, claim, y) at h)
  | inr n ↦ get-write c k key at t (rw (step, claim, n) at h)
]
step_granted c (now, resets) key t h = absurd (cc h)

Granted-from :
    (c : TokenCache) (ops : List (ℕ × CacheOp)) (key : Bytes) (t : ℕ)
    → get (run_cache c ops) key t ≡ true
    → (get c key t ≡ true) ⊎ Granted key t ops
unfolding run_cache
Granted-from c [] key t h = inl h
Granted-from c (op ∷ ops) key t h = elim (Granted-from (step c op) ops key t h) [
  | inr later ↦ inr (inr later)
  | inl live ↦ (elim (step_granted c op key t live) [
    | inl before ↦ inl before
    | inr here ↦ inr (inl here)
  ])
]

-- Start from a new cache and take any operations. A key that reads as live was put or claimed by one
-- of them, and its expiry has not passed; a token's entry is live at most fifteen minutes after the
-- time it was put.
pub run_cache-Granted :
    (ops : List (ℕ × CacheOp)) (key : Bytes) (t : ℕ)
    → get (run_cache new_token_cache ops) key t ≡ true
    → Granted key t ops
unfolding new_token_cache get lookup
run_cache-Granted ops key t h = elim (Granted-from new_token_cache ops key t h) [
  | inl before ↦ absurd (cc before)
  | inr here ↦ here
]

-- Start from a new cache and take any operations: there are never more than 131072 entries.
pub run_cache_bounded :
    (ops : List (ℕ × CacheOp)) → size (run_cache new_token_cache ops).m ≤ max_cache_entries
unfolding new_token_cache
run_cache_bounded ops = run_cache-IsSmall new_token_cache ops (omega arith)

-- A key with no live entry is granted to the first claim, and the next claim of the key is granted
-- exactly when the expiry of the first has passed.
pub claim-claim :
    (c : TokenCache) (key : Bytes) (first_end second_end now later : ℕ)
    → get c key now ≡ false
    → ((claim c key first_end now).1 ≡ true)
      × ((claim (claim c key first_end now).0 key second_end later).1 ≡ not (ltb later first_end))
unfolding claim get
claim-claim c key first_end second_end now later free =
    let mine : lookup key (write c key first_end).m ≡ some first_end =
      lookup-write c key key first_end ∙ rw ((bytes_eq_iff key key).1 refl) refl in
    rw (free, claim) (refl, rw (mine, claim) (ground arith))

-- After a claim of a free key, the key is live until the expiry of the claim.
pub get-claim :
    (c : TokenCache) (key : Bytes) (at now later : ℕ)
    → get c key now ≡ false
    → get (claim c key at now).0 key later ≡ ltb later at
unfolding claim get
get-claim c key at now later free =
    let mine : lookup key (write c key at).m ≡ some at =
      lookup-write c key key at ∙ rw ((bytes_eq_iff key key).1 refl) refl in
    rw (free, claim) (rw (get, mine) refl)
