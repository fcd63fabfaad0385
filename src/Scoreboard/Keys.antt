-- ===== src/Scoreboard/Keys.antt =====
-- The store keys of core/scoreboard.go: which map of the store each stands in, and that they differ.

use angie_guardian.Prelude.{
  ℕ, ◌≡◌, refl, sym, ap, ◌∙◌, Bool, true, false, Option, inl, inr, Bytes, bytes_eq, Option-cases,
}
use angie_guardian.Prelude.Int.{ℤ}
use angie_guardian.Store.{Decimal}
use angie_guardian.Memory.State.{is_central}
use angie_guardian.Memory.Blocks.{IsPlaced}
use angie_guardian.Memory.Unblocks.{IsUnblock}
use angie_guardian.Scoreboard.{
  Netip, Scoreboard, block_key, block_count_key, unblock_hold_key, unblock_gen_key, event_key,
  unblock_commit, block_commit, canon_ip,
}

pub block_key-central : (n : Netip) (ip : Bytes) → is_central (block_key n ip) ≡ true
unfolding block_key is_central
block_key-central n ip = elim (Option-cases (n.canonical ip)) [
  | inl e ↦ rw (e, block_key)
  | inr (a, e) ↦ rw (e, block_key)
]

module _ (ip : Bytes) where
  pub gen_key-shard : is_central (unblock_gen_key ip) ≡ false
  unfolding is_central unblock_gen_key
  gen_key-shard = refl

  pub hold_key-shard : is_central (unblock_hold_key ip) ≡ false
  unfolding is_central unblock_hold_key
  hold_key-shard = refl

  pub count_key-shard : is_central (block_count_key ip) ≡ false
  unfolding is_central block_count_key
  count_key-shard = refl

  pub count_key-gen_key : bytes_eq (block_count_key ip) (unblock_gen_key ip) ≡ false
  unfolding block_count_key unblock_gen_key
  count_key-gen_key = refl

  pub gen_key-hold_key : bytes_eq (unblock_gen_key ip) (unblock_hold_key ip) ≡ false
  unfolding unblock_gen_key unblock_hold_key
  gen_key-hold_key = refl

  pub count_key-hold_key : bytes_eq (block_count_key ip) (unblock_hold_key ip) ≡ false
  unfolding block_count_key unblock_hold_key
  count_key-hold_key = refl

pub event_key-shard :
    (d : Decimal) (evtype ip generation : Bytes) (bucket : ℤ)
    → is_central (event_key d evtype ip generation bucket) ≡ false
unfolding is_central event_key
event_key-shard d evtype ip generation bucket = refl

-- An event's counter is none of the keys of a block.
module _ (d : Decimal) (evtype ip generation : Bytes) (bucket : ℤ) (other : Bytes) where
  pub event_key-hold_key :
      bytes_eq (event_key d evtype ip generation bucket) (unblock_hold_key other) ≡ false
  unfolding event_key unblock_hold_key
  event_key-hold_key = refl

  pub event_key-gen_key :
      bytes_eq (event_key d evtype ip generation bucket) (unblock_gen_key other) ≡ false
  unfolding event_key unblock_gen_key
  event_key-gen_key = refl

  pub event_key-count_key :
      bytes_eq (event_key d evtype ip generation bucket) (block_count_key other) ≡ false
  unfolding event_key block_count_key
  event_key-count_key = refl

  pub event_key-block_key :
      (n : Netip) → bytes_eq (event_key d evtype ip generation bucket) (block_key n other) ≡ false
  unfolding event_key block_key
  event_key-block_key n = elim (Option-cases (n.canonical other)) [
    | inl e ↦ rw (e, block_key) refl
    | inr (a, e) ↦ rw (e, block_key) refl
  ]

pub canon_ip-canon_ip : (n : Netip) (ip : Bytes) → canon_ip n (canon_ip n ip) ≡ canon_ip n ip
unfolding canon_ip
canon_ip-canon_ip n ip = elim (Option-cases (n.canonical ip)) [
  | inl e ↦ let same : canon_ip n ip ≡ ip = rw (canon_ip, e) refl in ap (canon_ip n) same
  | inr (a, e) ↦
      let same : canon_ip n ip ≡ a = rw (canon_ip, e) refl in
      let again : canon_ip n a ≡ a = rw (canon_ip, n.canonical_idem ip a e) refl in
      ap (canon_ip n) same ∙ (again ∙ sym same)
]

module _ (n : Netip) (board : Scoreboard) (now : ℕ) (ip : Bytes) where
  pub unblock_commit-IsUnblock :
      (generation : Bytes) (reset : Bool)
      → IsUnblock (unblock_commit n board now ip generation reset)
  unfolding unblock_commit
  unblock_commit-IsUnblock generation reset = record {
    block_central = block_key-central n ip;
    hold_shard = hold_key-shard ip;
    generation_shard = gen_key-shard ip;
    counter_shard = count_key-shard ip;
  }

  pub block_commit-IsPlaced :
      (admitted : Bytes) (prev : Option Bytes) (mine : Bytes) (ttl max_ttl : ℤ)
      → IsPlaced (block_commit n board now ip admitted prev mine ttl max_ttl)
  unfolding block_commit
  block_commit-IsPlaced admitted prev mine ttl max_ttl = record {
    block_central = block_key-central n ip;
    hold_shard = hold_key-shard ip;
    guard_shard = gen_key-shard ip;
    counter_shard = count_key-shard ip;
  }
