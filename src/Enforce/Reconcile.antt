-- ===== src/Enforce/Reconcile.antt =====
-- core/enforce/mirror.go: a reconcile does not bring back a block that was removed while it ran.
use angie_guardian.Prelude.{
  ℕ, suc, ◌+◌, ◌≤◌, ◌≡◌, ◌≢◌, refl, ap, ◌∙◌, Bool, true, false, not, none, some, inl, inr, List, [],
  ◌∷◌, arith, All, Bytes, bytes_key, bytes_eq, bytes_eq_iff, ltb, Bool-cases, if◌then◌else◌, length,
  length-set, get_or-set_self,
}
use angie_guardian.Prelude.Assoc.{
  Map, lookup, delete, size, lookup-delete, size-delete-le, size-retain-le,
}
use angie_guardian.Enforce.{
  BlockEntry, Mirror, shard_count, shard_of, shard, set_block, remove, removed_since,
  prune_tombstones, clean_shard, get, max_tombstones,
}
use angie_guardian.Enforce.Sizes.{removed_since_same}
use angie_guardian.Enforce.Pass.{
  Turn, cleaning, checking, writing, pruning, finished, Pass, Call, puts, deletes, buries, Section,
  own, foreign, advance, call, play,
}
use angie_guardian.Enforce.Absent.{
  under, shard_of-lt, with_shard-none, set_block-none, set_block_rest, removed_since_veto,
  removed_since_other, bury_found, bury_other, clean_shard-none,
}

-- The burials among the sections.
abbrev pub burials : List Section → ℕ
burials [] = 0
burials (own ∷ rest) = burials rest
burials (foreign (puts k e) ∷ rest) = burials rest
burials (foreign (deletes k) ∷ rest) = burials rest
burials (foreign (buries k now) ∷ rest) = suc (burials rest)

-- A section of another goroutine that neither writes the address nor buries it again.
abbrev pub Spares : Bytes → Section → Type 0
Spares a own = Unit
Spares a (foreign (puts k e)) = bytes_eq k a ≡ false
Spares a (foreign (deletes k)) = Unit
Spares a (foreign (buries k now)) = bytes_eq k a ≡ false

-- The reconcile has checked the address and writes it next.
abbrev pub is_writing : Bytes → Turn → Bool
is_writing a (writing k e others) = bytes_eq k a
is_writing a (cleaning i) = false
is_writing a (checking others) = false
is_writing a pruning = false
is_writing a finished = false

abbrev is_over : Turn → Bool
is_over finished = true
is_over (writing k e others) = false
is_over (cleaning i) = false
is_over (checking others) = false
is_over pruning = false

module _ (as16 : Bytes → Bytes) (a : Bytes) where
  -- The address is absent and the reconcile is not about to write it; until the reconcile ends, the
  -- log remembers a removal that is not older than the scan, with room for the burials to come.
  record Safe (scan_start : ℕ) (turn : Turn) (left : ℕ) (mr : Mirror) : Type 0 where
    shard_total : length mr.shards ≡ shard_count
    absent : under as16 a mr ≡ none
    free : is_writing a turn ≡ false
    tomb : ℕ
    buried : is_over turn ≡ false → lookup a mr.tombs ≡ some tomb
    recent : scan_start ≤ tomb
    room : size mr.tombs + left ≤ max_tombstones

  removed_since-size :
      (mr : Mirror) (k : Bytes) (t : ℕ) → size (removed_since mr k t).0.tombs ≤ size mr.tombs
  unfolding removed_since
  removed_since-size mr k t = ground (arith, size-delete-le k mr.tombs)

  missing :
      (m : Map Bytes BlockEntry) (b : Bool)
      → lookup a m ≡ none
      → (if b then none else lookup a m) ≡ none
  missing m true h = refl
  missing m false h = h

  not_writing :
      (vetoed : Bool) (k : Bytes) (e : BlockEntry) (others : Map Bytes BlockEntry)
      → bytes_eq k a ≡ false
      → is_writing a (if vetoed then checking others else writing k e others) ≡ false
  not_writing true k e others n = refl
  not_writing false k e others n = n

  clean_shard_rest :
      (mr : Mirror) (active : Map Bytes BlockEntry) (scan_start i : ℕ)
      → length (clean_shard mr active scan_start i).shards ≡ length mr.shards
  unfolding clean_shard
  clean_shard_rest mr active scan_start i = length-set mr.shards i _

  clean_shard_tombs :
      (mr : Mirror) (active : Map Bytes BlockEntry) (scan_start i : ℕ)
      → lookup a (clean_shard mr active scan_start i).tombs ≡ lookup a mr.tombs
  unfolding clean_shard
  clean_shard_tombs mr active scan_start i = refl

  clean_shard_room :
      (mr : Mirror) (active : Map Bytes BlockEntry) (scan_start i left : ℕ)
      → size mr.tombs + left ≤ max_tombstones
      → size (clean_shard mr active scan_start i).tombs + left ≤ max_tombstones
  unfolding clean_shard
  clean_shard_room mr active scan_start i left h = h

  -- The checks leave the mirror's shards alone and the log of the address as it is.
  checked-Safe :
      (mr : Mirror) (k : Bytes) (e : BlockEntry) (others : Map Bytes BlockEntry)
      (scan_start left : ℕ)
      → Safe scan_start (checking ((k, e) ∷ others)) left mr
      → Safe scan_start
          (if (removed_since mr k scan_start).1 then checking others else writing k e others)
          left
          (removed_since mr k scan_start).0
  checked-Safe mr k e others scan_start left g = elim (Bool-cases (bytes_eq k a)) [
    | inl y ↦
        rw
          (
            (bytes_eq_iff k a).0 y,
            removed_since_veto as16 a scan_start mr g.tomb (g.buried refl) g.recent,
          )
          (record {
            shard_total = g.shard_total;
            absent = g.absent;
            free = refl;
            tomb = g.tomb;
            buried = g.buried;
            recent = g.recent;
            room = g.room;
          })
    | inr n ↦
        let other : k ≢ a = λ q. ground (arith, n, bytes_eq_iff k a) in
        let (_, shards) = removed_since_same mr k scan_start in
        record {
          shard_total = rw shards g.shard_total;
          absent = rw shards g.absent;
          free = not_writing (removed_since mr k scan_start).1 k e others n;
          tomb = g.tomb;
          buried = λ _. removed_since_other as16 a scan_start mr k other ∙ g.buried refl;
          recent = g.recent;
          room = omega (arith, removed_since-size mr k scan_start, g.room);
        }
  ]

  put-Safe :
      (mr : Mirror) (k : Bytes) (e : BlockEntry) (scan_start left : ℕ) (turn turn' : Turn)
      → bytes_eq k a ≡ false
      → is_writing a turn' ≡ false
      → (is_over turn' ≡ false → is_over turn ≡ false)
      → Safe scan_start turn left mr
      → Safe scan_start turn' left (set_block as16 mr k e).0
  put-Safe mr k e scan_start left turn turn' apart free goes g =
      let other : k ≢ a = λ q. ground (arith, apart, bytes_eq_iff k a) in
      let (same_tombs, same_length) = set_block_rest as16 a mr k e in
      record {
        shard_total = same_length ∙ g.shard_total;
        absent = set_block-none as16 a mr k e g.shard_total other g.absent;
        free = free;
        tomb = g.tomb;
        buried = λ o. ap (lookup a) same_tombs ∙ g.buried (goes o);
        recent = g.recent;
        room = rw same_tombs g.room;
      }

  advance-Safe :
      (mr : Mirror) (p : Pass) (turn : Turn) (left : ℕ)
      → Safe p.scan_start turn left mr
      → Safe
          (advance as16 mr p turn).1.scan_start
          (advance as16 mr p turn).1.turn
          left
          (advance as16 mr p turn).0
  unfolding advance prune_tombstones
  advance-Safe mr p (cleaning i) left g = elim (Bool-cases (ltb i shard_count)) [
    | inl y ↦
        rw (y, advance)
          (record {
            shard_total = clean_shard_rest mr p.active p.scan_start i ∙ g.shard_total;
            absent = clean_shard-none as16 a mr p.active p.scan_start i g.shard_total g.absent;
            free = refl;
            tomb = g.tomb;
            buried = λ _. clean_shard_tombs mr p.active p.scan_start i ∙ g.buried refl;
            recent = g.recent;
            room = clean_shard_room mr p.active p.scan_start i left g.room;
          })
    | inr n ↦
        rw (n, advance)
          (record {
            shard_total = g.shard_total;
            absent = g.absent;
            free = refl;
            tomb = g.tomb;
            buried = λ _. g.buried refl;
            recent = g.recent;
            room = g.room;
          })
  ]
  advance-Safe mr p (checking []) left g = record {
    shard_total = g.shard_total;
    absent = g.absent;
    free = refl;
    tomb = g.tomb;
    buried = λ _. g.buried refl;
    recent = g.recent;
    room = g.room;
  }
  advance-Safe mr p (checking ((k, e) ∷ others)) left g =
      checked-Safe mr k e others p.scan_start left g
  advance-Safe mr p (writing k e others) left g =
      put-Safe mr k e p.scan_start left (writing k e others) (checking others) g.free refl
        (λ _. refl) g
  advance-Safe mr p pruning left g = record {
    shard_total = g.shard_total;
    absent = g.absent;
    free = refl;
    tomb = g.tomb;
    buried = λ o. cc;
    recent = g.recent;
    room =
        omega (
          arith,
          size-retain-le (λ (k : Bytes) (t : ℕ). not (ltb t p.scan_start)) mr.tombs,
          g.room,
        );
  }
  advance-Safe mr p finished left g = record {
    shard_total = g.shard_total;
    absent = g.absent;
    free = refl;
    tomb = g.tomb;
    buried = g.buried;
    recent = g.recent;
    room = g.room;
  }

  call-Safe :
      (mr : Mirror) (c : Call) (scan_start : ℕ) (turn : Turn) (rest : List Section)
      → Spares a (foreign c)
      → Safe scan_start turn (burials (foreign c ∷ rest)) mr
      → Safe scan_start turn (burials rest) (call as16 mr c)
  unfolding call
  call-Safe mr (puts k e) scan_start turn rest h g =
      put-Safe mr k e scan_start (burials rest) turn turn h g.free (λ o. o) g
  call-Safe mr (deletes k) scan_start turn rest h g = record {
    shard_total = length-set mr.shards _ _ ∙ g.shard_total;
    absent = with_shard-none as16 a mr k (delete k (shard as16 mr k)) g.shard_total g.absent (λ q.
        lookup-delete k a (shard as16 mr k)
        ∙ missing (shard as16 mr k) (bytes_eq k a) (rw q g.absent));
    free = g.free;
    tomb = g.tomb;
    buried = g.buried;
    recent = g.recent;
    room = g.room;
  }
  call-Safe mr (buries k now) scan_start turn rest h g =
      let (same, bound) = bury_other as16 a mr.tombs k now (omega (arith, g.room)) h in
      record {
        shard_total = g.shard_total;
        absent = g.absent;
        free = g.free;
        tomb = g.tomb;
        buried = λ o. same ∙ g.buried o;
        recent = g.recent;
        room = omega (arith, bound, g.room);
      }

  play-Safe :
      (mr : Mirror) (p : Pass) (sections : List Section)
      → All (Spares a) sections
      → Safe p.scan_start p.turn (burials sections) mr
      → under as16 a (play as16 mr p sections).0 ≡ none
  unfolding play
  play-Safe mr p [] h g = g.absent
  play-Safe mr p (own ∷ rest) h g =
      play-Safe (advance as16 mr p p.turn).0 (advance as16 mr p p.turn).1 rest h.1
        (advance-Safe mr p p.turn (burials rest) g)
  play-Safe mr p (foreign c ∷ rest) h g =
      play-Safe (call as16 mr c) p rest h.1 (call-Safe mr c p.scan_start p.turn rest h.0 g)

  remove-Safe :
      (mr : Mirror) (scan_start now left : ℕ) (turn : Turn)
      → length mr.shards ≡ shard_count
      → scan_start ≤ now
      → is_writing a turn ≡ false
      → size (remove as16 mr a now).tombs + left ≤ max_tombstones
      → Safe scan_start turn left (remove as16 mr a now)
  unfolding remove
  remove-Safe mr scan_start now left turn len le free room = record {
    shard_total = length-set mr.shards _ _ ∙ len;
    absent =
        rw
          (get_or-set_self mr.shards (shard_of as16 a) (delete a (shard as16 mr a)) []
            (omega (arith, len, shard_of-lt as16 a a)))
          (lookup-delete a a (shard as16 mr a) ∙ rw ((bytes_eq_iff a a).1 refl) refl);
    free = free;
    tomb = now;
    buried = λ _. bury_found as16 a mr.tombs now;
    recent = le;
    room = room;
  }

get-none :
    (as16 : Bytes → Bytes) (mr : Mirror) (a : Bytes) (t : ℕ)
    → lookup a (shard as16 mr a) ≡ none
    → get as16 mr a t ≡ none
unfolding get
get-none as16 mr a t h = rw (h, get) refl

-- A block that is removed while a reconcile runs, at the start of its scan or later, is not brought
-- back by it: wherever the reconcile stands, except between its check of this address and its write,
-- and whatever sections of the reconcile and of other goroutines follow, in any order, the address
-- reads as not blocked at any time. For sections that neither block the address anew nor remove it
-- again, and where the log has room for the removals among them; the two sections of the removal
-- itself have no other between them.
pub play-remove :
    (as16 : Bytes → Bytes) (mr : Mirror) (p : Pass) (a : Bytes) (now t : ℕ)
    (sections : List Section)
    → length mr.shards ≡ shard_count
    → p.scan_start ≤ now
    → is_writing a p.turn ≡ false
    → size (remove as16 mr a now).tombs + burials sections ≤ max_tombstones
    → All (Spares a) sections
    → get as16 (play as16 (remove as16 mr a now) p sections).0 a t ≡ none
play-remove as16 mr p a now t sections len le free room spared =
    get-none as16 (play as16 (remove as16 mr a now) p sections).0 a t (
      play-Safe as16 a (remove as16 mr a now) p sections spared
        (remove-Safe as16 a mr p.scan_start now (burials sections) p.turn len le free room))
