-- ===== src/Scoreboard/Placed.antt =====
-- `Block` of core/scoreboard.go, with no other writer between its reads and its commit: the block
-- that it places.
use native.Mathlib.Nat.{le_refl}
use angie_guardian.Prelude.{
  ℕ, ◌*◌, ◌≤◌, ◌≡◌, refl, ap, ◌∙◌, Bool, true, false, not, ◌&&◌, Option, none, some, inl, inr, [],
  ◌∷◌, arith, Bytes, bytes_eq, bytes_eq_iff, Bool-cases, if◌then◌else◌,
}
use angie_guardian.Prelude.Int.{ℤ, pos}
use angie_guardian.Prelude.Int64.{is_positive}
use angie_guardian.Store.{Decimal, block_value, block_backoff_ttl, minute, hour}
use angie_guardian.Memory.State.{Entry, ShardedMemory, expiry}
use angie_guardian.Memory.Ops.{get, matches, value_of}
use angie_guardian.Memory.Commit.{is_found}
use angie_guardian.Memory.View.{view, live, Bounded}
use angie_guardian.Memory.Reads.{get_refines}
use angie_guardian.Memory.Blocks.{offense_after, allowed, commit_block_commits}
use angie_guardian.Memory.Trace.Bounds.{get-Bounded}
use angie_guardian.Scoreboard.{
  Netip, Scoreboard, canon_ip, unblock_token, unblock_hold_key, unblock_gen_key, block_count_key,
  block_key, guard_of, block_commit, block,
}
use angie_guardian.Scoreboard.Keys.{block_commit-IsPlaced}

module _ (n : Netip) (board : Scoreboard) (now : ℕ) (s : ShardedMemory) (b : Bounded s)
    (ip : Bytes) where
  pub token-Same :
      (later : ℕ) (j : Bytes)
      → now ≤ later
      → view (unblock_token n board now s ip).0 later j ≡ view s later j
  unfolding unblock_token
  token-Same later j le = elim (Bool-cases (is_positive board.unblock_hold)) [
    | inl y ↦ rw (y, unblock_token) ((get_refines s now (unblock_gen_key ip) b later j le).1)
    | inr m ↦ rw (m, unblock_token) refl
  ]

  pub token-Bounded : Bounded (unblock_token n board now s ip).0
  unfolding unblock_token
  token-Bounded = elim (Bool-cases (is_positive board.unblock_hold)) [
    | inl y ↦ rw (y, unblock_token) (get-Bounded s now (unblock_gen_key ip) b)
    | inr m ↦ rw (m, unblock_token) b
  ]

  token_value :
      is_positive board.unblock_hold ≡ true
      → (unblock_token n board now s ip).1
        ≡ (elim (value_of (view s now (unblock_gen_key ip))) [ none ↦ [] | some g ↦ g ])
  unfolding unblock_token
  token_value h =
      rw (h, unblock_token)
        (ap (λ v. elim v as (λ _. Bytes) [ none ↦ [] | some g ↦ g ])
          (get_refines s now (unblock_gen_key ip) b now [] (le_refl now)).0)

-- The generation that readers find is absent or a token, which is not empty.
abbrev pub has_token : Option Entry → Bool
has_token none = true
has_token (some e) = not (bytes_eq e.value [])

token_matches :
    (g : Bytes) (e : Entry)
    → not (bytes_eq g []) ≡ true
    → matches (guard_of g) (some (record e { value = g })) ≡ true
token_matches [] e h = cc
token_matches (c ∷ g) e h = (bytes_eq_iff (c ∷ g) (c ∷ g)).1 refl

own_matches : (v : Option Entry) → matches (value_of v) v ≡ true
own_matches none = refl
own_matches (some e) = (bytes_eq_iff e.value e.value).1 refl

all_pass :
    (held guard seen : Bool)
    → held ≡ false
    → guard ≡ true
    → seen ≡ true
    → not held && (guard && seen) ≡ true
all_pass held guard seen h g k = ground arith

guard_matches :
    (v : Option Entry)
    → has_token v ≡ true
    → matches (guard_of (elim (value_of v) as (λ _. Bytes) [ none ↦ [] | some g ↦ g ])) v ≡ true
guard_matches none h = refl
guard_matches (some e) h = token_matches e.value e h

-- The block of the offense that follows what readers find under the offense counter.
abbrev pub next_block : Decimal → ℕ → Option Entry → Bytes → Bytes → ℤ → ℤ → Entry
next_block d now counter reason random ttl max_ttl = record {
  value = block_value reason random;
  expires_at = expiry now (
      block_backoff_ttl (if is_positive ttl then ttl else pos minute)
        (if is_positive max_ttl then max_ttl else pos (30 * 24 * hour))
        (offense_after d now (pos (24 * hour)) counter).0);
}

module _ (d : Decimal) (n : Netip) (board : Scoreboard) (now : ℕ) (s : ShardedMemory)
    (b : Bounded s) (ip reason random : Bytes) (ttl max_ttl : ℤ) where
  abbrev a : Bytes
  a = canon_ip n ip

  s1 : ShardedMemory
  s1 = (unblock_token n board now s a).0

  s2 : ShardedMemory
  s2 = (get s1 now (block_key n a)).0

  -- With no hold live and a well-formed generation, `Block` leaves its block under the address's key.
  pub block_places :
      (later : ℕ)
      → now ≤ later
      → is_positive board.unblock_hold ≡ true
      → is_found (view s now (unblock_hold_key a)) ≡ false
      → has_token (view s now (unblock_gen_key a)) ≡ true
      → view (block n board now d s ip reason random ttl max_ttl).0 later (block_key n a)
        ≡ live
            (some (next_block d now (view s now (block_count_key a)) reason random ttl max_ttl))
            later
  unfolding block block_commit s1 s2
  block_places later le on free token =
      let b1 : Bounded s1 = token-Bounded n board now s b a in
      let b2 : Bounded s2 = get-Bounded s1 now (block_key n a) b1 in
      let same : (j : Bytes) → view s2 now j ≡ view s now j = λ j.
        (get_refines s1 now (block_key n a) b1 now j (le_refl now)).1
        ∙ token-Same n board now s b a now j (le_refl now) in
      let c =
        block_commit n board now a (unblock_token n board now s a).1 (get s1 now (block_key n a)).1
          (block_value reason random) ttl max_ttl in
      let admits : allowed s2 now c ≡ true =
        all_pass (is_found (view s2 now c.hold_key))
          (matches c.guard_value (view s2 now c.guard_key))
          (matches c.expected_block (view s2 now c.block_key))
          (ap is_found (same (unblock_hold_key a)) ∙ free)
          (ap (matches c.guard_value) (same (unblock_gen_key a))
            ∙ (ap (λ g. matches (guard_of g) (view s now (unblock_gen_key a)))
                  (token_value n board now s b a on)
                ∙ guard_matches (view s now (unblock_gen_key a)) token))
          (let (read, kept) =
              get_refines s1 now (block_key n a) b1 now (block_key n a) (le_refl now) in
            ap (λ v. matches v (view s2 now (block_key n a))) read
            ∙ (ap (matches (value_of (view s1 now (block_key n a)))) kept
                ∙ own_matches (view s1 now (block_key n a)))) in
      let seen =
        commit_block_commits d s2 now c b2 (block_commit-IsPlaced n board now a _ _ _ ttl max_ttl)
          later (block_key n a) le admits in
      seen.1
      ∙ (rw ((bytes_eq_iff (block_key n a) (block_key n a)).1 refl) (
          ap
            (λ v.
              live
                (some (record {
                  value = block_value reason random;
                  expires_at = expiry now (
                      block_backoff_ttl c.base_ttl c.max_ttl
                        (offense_after d now (pos (24 * hour)) v).0);
                }))
                later)
            (same (block_count_key a))))
