-- ===== src/Enforce/Absent.antt =====
-- core/enforce/mirror.go: an address that is absent from the mirror, over its locked sections.
use angie_guardian.Prelude.{
  ℕ, suc, ◌≤◌, ◌<◌, ◌≡◌, ◌≢◌, refl, ◌∙◌, Bool, true, false, not, Option, none, some, inl, inr, [],
  ◌∷◌, arith, Bytes, bytes_key, bytes_eq, bytes_eq_iff, leb, ltb, ◌=ℕ◌, =ℕ_iff, Bool-cases, length,
  length-set, get_or, get_or-set_self, get_or-set_ne,
}
use angie_guardian.Prelude.Assoc.{
  Map, lookup, insert, delete, retain, size, lookup-insert, lookup-delete, size-insert,
}
use angie_guardian.Enforce.{
  BlockEntry, Mirror, shard_count, shard_of, shard, with_shard, is_dead, make_room, set_block,
  removed_since, clean_shard, is_stale, bury, max_tombstones,
}

retain-none :
    (keep : Bytes → BlockEntry → Bool) (a : Bytes) (m : Map Bytes BlockEntry)
    → lookup a m ≡ none
    → lookup a (retain keep m) ≡ none
unfolding lookup retain
retain-none keep a [] h = refl
retain-none keep a ((k, e) ∷ m) h = ground (arith, retain-none keep a m)

make_room-none :
    (m : Map Bytes BlockEntry) (k : Bytes) (e : BlockEntry) (most : ℕ) (a : Bytes)
    → lookup a m ≡ none
    → lookup a (make_room m k e most).0 ≡ none
unfolding make_room
make_room-none m k e most a h =
    ground (arith, h, retain-none (λ j old. not (is_dead old e.inserted_at)) a m h)

module _ (as16 : Bytes → Bytes) (a : Bytes) where
  abbrev pub under : Mirror → Option BlockEntry
  under mr = lookup a (shard as16 mr a)

  pub shard_of-lt : (k : Bytes) → shard_of as16 k < shard_count
  unfolding shard_of
  shard_of-lt k = omega arith

  -- A write of the shard of any key, which leaves the address absent there.
  pub with_shard-none :
      (mr : Mirror) (k : Bytes) (m : Map Bytes BlockEntry)
      → length mr.shards ≡ shard_count
      → under mr ≡ none
      → (shard_of as16 k ≡ shard_of as16 a → lookup a m ≡ none)
      → under (with_shard as16 mr k m) ≡ none
  with_shard-none mr k m len h same = elim (Bool-cases (shard_of as16 k =ℕ shard_of as16 a)) [
    | inl y ↦
        let q = (=ℕ_iff _ _).0 y in
        rw
          (
            ← q,
            get_or-set_self mr.shards (shard_of as16 k) m [] (omega (arith, len, shard_of-lt k)),
          )
          (same q)
    | inr n ↦
        rw
          (get_or-set_ne mr.shards (shard_of as16 k) (shard_of as16 a) m []
            (λ q. ground (arith, n, q)))
          h
  ]

  pub set_block-none :
      (mr : Mirror) (k : Bytes) (e : BlockEntry)
      → length mr.shards ≡ shard_count
      → k ≢ a
      → under mr ≡ none
      → under (set_block as16 mr k e).0 ≡ none
  unfolding set_block
  set_block-none mr k e len other h =
      let room = make_room (shard as16 mr k) k e mr.max_per_shard in
      let apart : bytes_eq k a ≡ false = ground (arith, bytes_eq_iff k a) in
      let shed : shard_of as16 k ≡ shard_of as16 a → lookup a room.0 ≡ none =
        λ q. make_room-none (shard as16 mr k) k e mr.max_per_shard a (rw q h) in
      elim (Bool-cases room.1) [
        | inl y ↦
            rw (y, set_block)
              (with_shard-none mr k (insert k e room.0) len h
                (λ q. lookup-insert k a e room.0 ∙ rw apart (shed q)))
        | inr n ↦ rw (n, set_block) (with_shard-none mr k room.0 len h shed)
      ]

  -- The rest of a mirror that a write leaves alone.
  pub set_block_rest :
      (mr : Mirror) (k : Bytes) (e : BlockEntry)
      → ((set_block as16 mr k e).0.tombs ≡ mr.tombs)
        × (length (set_block as16 mr k e).0.shards ≡ length mr.shards)
  unfolding set_block
  set_block_rest mr k e =
      let room = make_room (shard as16 mr k) k e mr.max_per_shard in
      elim (Bool-cases room.1) [
        | inl y ↦ rw (y, set_block) (refl, length-set mr.shards _ _)
        | inr n ↦ rw (n, set_block) (refl, length-set mr.shards _ _)
      ]

  pub removed_since_veto :
      (scan_start : ℕ) (mr : Mirror) (t : ℕ)
      → lookup a mr.tombs ≡ some t
      → scan_start ≤ t
      → removed_since mr a scan_start ≡ (mr, true)
  unfolding removed_since
  removed_since_veto scan_start mr t h le =
      let newer : ltb t scan_start ≡ false = ground arith in rw (h, removed_since, newer) refl

  pub removed_since_other :
      (scan_start : ℕ) (mr : Mirror) (k : Bytes)
      → k ≢ a
      → lookup a (removed_since mr k scan_start).0.tombs ≡ lookup a mr.tombs
  unfolding removed_since
  removed_since_other scan_start mr k other =
      let apart : bytes_eq k a ≡ false = ground (arith, bytes_eq_iff k a) in
      let gone : lookup a (delete k mr.tombs) ≡ lookup a mr.tombs =
        lookup-delete k a mr.tombs ∙ rw apart refl in
      ground (arith, gone)

  pub bury_found : (tombs : Map Bytes ℕ) (now : ℕ) → lookup a (bury tombs a now) ≡ some now
  unfolding bury
  bury_found tombs now =
      let same = (bytes_eq_iff a a).1 refl in
      elim (Bool-cases (leb max_tombstones (size tombs))) [
        | inl y ↦ rw (y, bury) (lookup-insert a a now _ ∙ rw same refl)
        | inr n ↦ rw (n, bury) (lookup-insert a a now tombs ∙ rw same refl)
      ]

  pub bury_other :
      (tombs : Map Bytes ℕ) (k : Bytes) (now : ℕ)
      → size tombs < max_tombstones
      → bytes_eq k a ≡ false
      → (lookup a (bury tombs k now) ≡ lookup a tombs)
        × (size (bury tombs k now) ≤ suc (size tombs))
  unfolding bury
  bury_other tombs k now small apart =
      let roomy : leb max_tombstones (size tombs) ≡ false = ground (arith, small) in
      rw (roomy, bury)
        (lookup-insert k a now tombs ∙ rw apart refl, ground (arith, size-insert k now tombs))

  pub clean_shard-none :
      (mr : Mirror) (active : Map Bytes BlockEntry) (scan_start i : ℕ)
      → length mr.shards ≡ shard_count
      → under mr ≡ none
      → under (clean_shard mr active scan_start i) ≡ none
  unfolding clean_shard
  clean_shard-none mr active scan_start i len h =
      let keep = λ (k : Bytes) (e : BlockEntry). not (is_stale active scan_start k e) in
      elim (Bool-cases (i =ℕ shard_of as16 a)) [
        | inl y ↦
            rw
              (
                (=ℕ_iff _ _).0 y,
                get_or-set_self mr.shards (shard_of as16 a) (retain keep (shard as16 mr a)) []
                    (omega (arith, len, shard_of-lt a)),
              )
              (retain-none keep a (shard as16 mr a) h)
        | inr n ↦
            rw
              (get_or-set_ne mr.shards i (shard_of as16 a) (retain keep (get_or mr.shards i [])) []
                (λ q. ground (arith, n, q)))
              h
      ]
