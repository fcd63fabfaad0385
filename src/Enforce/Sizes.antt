-- ===== src/Enforce/Sizes.antt =====
-- core/enforce/mirror.go: no shard outgrows its share of the capacity.
use angie_guardian.Prelude.{
  ℕ, zero, suc, ◌*◌, ◌/◌, ◌≤◌, ◌<◌, max, ◌≡◌, refl, ap, ◌∙◌, Bool, true, false, not, inl, inr, List,
  [], ◌∷◌, map, arith, Bytes, bytes_key, leb, Bool-cases, length, get_or, set, length-set, All,
}
use angie_guardian.Prelude.Int.{ℤ, pos, negsuc, pos_part}
use angie_guardian.Prelude.Assoc.{
  Map, lookup, insert, delete, retain, size, size-insert, size-retain-le, size-delete-le,
}
use angie_guardian.Enforce.{
  BlockEntry, Mirror, new_mirror, shard_count, shard_of, shard, with_shard, is_dead, is_present,
  make_room, set_block, remove, removed_since, prune_tombstones, drop_stale, upsert, upsert_all,
  reconcile, count, count_all, clean_shard, is_stale, MirrorOp, sets, removes, reconciles,
  deletes_block, buries_block, cleans, checks, prunes, act, run_mirror,
}

abbrev Fits : ℕ → Map Bytes BlockEntry → Type 0
Fits most m = size m ≤ most

All-set :
    (most : ℕ) (ms : List (Map Bytes BlockEntry)) (i : ℕ) (m : Map Bytes BlockEntry)
    → All (Fits most) ms
    → Fits most m
    → All (Fits most) (set ms i m)
All-set most [] i m a h = tt
All-set most (x ∷ ms) zero m a h = (h, a.1)
All-set most (x ∷ ms) (suc i) m a h = (a.0, All-set most ms i m a.1 h)

All-get :
    (most : ℕ) (ms : List (Map Bytes BlockEntry)) (i : ℕ)
    → All (Fits most) ms
    → Fits most (get_or ms i [])
All-get most [] i a = omega arith
All-get most (x ∷ ms) zero a = a.0
All-get most (x ∷ ms) (suc i) a = All-get most ms i a.1

All-retain :
    (most : ℕ) (keep : Bytes → BlockEntry → Bool) (ms : List (Map Bytes BlockEntry))
    → All (Fits most) ms
    → All (Fits most) (map (retain keep) ms)
All-retain most keep [] a = tt
All-retain most keep (m ∷ ms) a =
    (omega (arith, size-retain-le keep m, a.0), All-retain most keep ms a.1)

pub length-map :
    (keep : Map Bytes BlockEntry → Map Bytes BlockEntry) (ms : List (Map Bytes BlockEntry))
    → length (map keep ms) ≡ length ms
length-map keep [] = refl
length-map keep (m ∷ ms) = ap suc (length-map keep ms)

pub removed_since_same :
    (mr : Mirror) (a : Bytes) (t : ℕ)
    → ((removed_since mr a t).0.max_per_shard ≡ mr.max_per_shard)
      × ((removed_since mr a t).0.shards ≡ mr.shards)
unfolding removed_since
removed_since_same mr a t = (ground arith, ground arith)

-- A mirror of this capacity, every shard of it within the capacity.
record Holds (most : ℕ) (mr : Mirror) : Type 0 where
  same_cap : mr.max_per_shard ≡ most
  shard_total : length mr.shards ≡ shard_count
  each : All (Fits most) mr.shards

-- What a full shard sheds leaves no more than the capacity, with the new entry or without it.
shed_le :
    (m : Map Bytes BlockEntry) (a : Bytes) (e : BlockEntry) (most : ℕ)
    → size m ≤ most
    → size (make_room m a e most).0 ≤ most
unfolding make_room
shed_le m a e most h = ground (arith, size-retain-le (λ k old. not (is_dead old e.inserted_at)) m)

insert_le :
    (m : Map Bytes BlockEntry) (a : Bytes) (e : BlockEntry) (most : ℕ)
    → size m < most
    → size (insert a e m) ≤ most
insert_le m a e most h = ground (arith, size-insert a e m)

insert_present :
    (m : Map Bytes BlockEntry) (a : Bytes) (e : BlockEntry)
    → is_present (lookup a m) ≡ true
    → size (insert a e m) ≡ size m
insert_present m a e h = ground (arith, size-insert a e m)

fits_le :
    (m : Map Bytes BlockEntry) (a : Bytes) (e : BlockEntry) (most : ℕ)
    → size m ≤ most
    → (make_room m a e most).1 ≡ true
    → size (insert a e (make_room m a e most).0) ≤ most
unfolding make_room
fits_le m a e most h fits = elim (Bool-cases (is_present (lookup a m))) [
  | inl y ↦ rw (y, make_room) (omega (arith, insert_present m a e y))
  | inr n ↦ (elim (Bool-cases (leb most (size m))) [
    | inr room ↦ rw (n, room, make_room) (insert_le m a e most (ground arith))
    | inl full ↦
        rw (n, full, make_room)
          (insert_le _ a e most (ground (arith, rw (n, full, make_room) at fits)))
  ])
]

module _ (as16 : Bytes → Bytes) (most : ℕ) where
  with_shard-Holds :
      (mr : Mirror) (a : Bytes) (m : Map Bytes BlockEntry)
      → Holds most mr
      → size m ≤ most
      → Holds most (with_shard as16 mr a m)
  with_shard-Holds mr a m h k = record {
    same_cap = h.same_cap;
    shard_total = length-set mr.shards _ m ∙ h.shard_total;
    each = All-set most mr.shards _ m h.each k;
  }

  fits_here : (mr : Mirror) (a : Bytes) → Holds most mr → size (shard as16 mr a) ≤ mr.max_per_shard
  fits_here mr a h = omega (arith, h.same_cap, All-get most mr.shards (shard_of as16 a) h.each)

  set_block-Holds :
      (mr : Mirror) (a : Bytes) (e : BlockEntry)
      → Holds most mr
      → Holds most (set_block as16 mr a e).0
  unfolding set_block
  set_block-Holds mr a e h =
      let here = fits_here mr a h in
      let room = make_room (shard as16 mr a) a e mr.max_per_shard in
      elim (Bool-cases room.1) [
        | inl y ↦
            rw (y, set_block)
              (with_shard-Holds mr a (insert a e room.0) h
                (omega (arith, h.same_cap, fits_le (shard as16 mr a) a e mr.max_per_shard here y)))
        | inr n ↦
            let kept =
              with_shard-Holds mr a room.0 h
                (omega (arith, h.same_cap, shed_le (shard as16 mr a) a e mr.max_per_shard here)) in
            rw (n, set_block)
              (record {
                same_cap = kept.same_cap;
                shard_total = kept.shard_total;
                each = kept.each;
              })
      ]

  remove-Holds :
      (mr : Mirror) (a : Bytes) (now : ℕ) → Holds most mr → Holds most (remove as16 mr a now)
  unfolding remove
  remove-Holds mr a now h =
      let kept =
        with_shard-Holds mr a (delete a (shard as16 mr a)) h
          (omega (arith, h.same_cap, size-delete-le a (shard as16 mr a), fits_here mr a h)) in
      record { same_cap = kept.same_cap; shard_total = kept.shard_total; each = kept.each }

  removed_since-Holds :
      (mr : Mirror) (a : Bytes) (t : ℕ) → Holds most mr → Holds most (removed_since mr a t).0
  removed_since-Holds mr a t h =
      let (caps, shards) = removed_since_same mr a t in
      record {
        same_cap = caps ∙ h.same_cap;
        shard_total = ap length shards ∙ h.shard_total;
        each = rw shards h.each;
      }

  upsert-Holds :
      (mr : Mirror) (k : Bytes) (e : BlockEntry) (t : ℕ) (complete : Bool)
      → Holds most mr
      → Holds most (upsert as16 mr k e t complete).0
  unfolding upsert
  upsert-Holds mr k e t complete h =
      let seen = removed_since-Holds mr k t h in
      elim (Bool-cases (removed_since mr k t).1) [
        | inl y ↦ rw (y, upsert) seen
        | inr n ↦ rw (n, upsert) (set_block-Holds (removed_since mr k t).0 k e seen)
      ]

  upsert_all-Holds :
      (mr : Mirror) (active : Map Bytes BlockEntry) (t : ℕ) (complete : Bool)
      → Holds most mr
      → Holds most (upsert_all as16 mr active t complete).0
  unfolding upsert_all
  upsert_all-Holds mr [] t complete h = h
  upsert_all-Holds mr ((k, e) ∷ others) t complete h =
      upsert_all-Holds (upsert as16 mr k e t complete).0 others t (upsert as16 mr k e t complete).1
        (upsert-Holds mr k e t complete h)

  drop_stale-Holds :
      (mr : Mirror) (active : Map Bytes BlockEntry) (t : ℕ)
      → Holds most mr
      → Holds most (drop_stale mr active t)
  unfolding drop_stale
  drop_stale-Holds mr active t h = record {
    same_cap = h.same_cap;
    shard_total = length-map _ mr.shards ∙ h.shard_total;
    each = All-retain most _ mr.shards h.each;
  }

  reconcile-Holds :
      (mr : Mirror) (active : Map Bytes BlockEntry) (t : ℕ) (scanned_all : Bool)
      → Holds most mr
      → Holds most (reconcile as16 mr active t scanned_all).0
  unfolding reconcile prune_tombstones
  reconcile-Holds mr active t true h =
      let kept =
        upsert_all-Holds (drop_stale mr active t) active t true (drop_stale-Holds mr active t h) in
      record { same_cap = kept.same_cap; shard_total = kept.shard_total; each = kept.each }
  reconcile-Holds mr active t false h =
      let kept = upsert_all-Holds mr active t false h in
      record { same_cap = kept.same_cap; shard_total = kept.shard_total; each = kept.each }

  kept-Holds :
      (mr : Mirror) (tombs : Map Bytes ℕ) → Holds most mr → Holds most (record mr { tombs = tombs })
  kept-Holds mr tombs h = record {
    same_cap = h.same_cap;
    shard_total = h.shard_total;
    each = h.each;
  }

  clean_shard-Holds :
      (mr : Mirror) (active : Map Bytes BlockEntry) (t i : ℕ)
      → Holds most mr
      → Holds most (clean_shard mr active t i)
  unfolding clean_shard
  clean_shard-Holds mr active t i h = record {
    same_cap = h.same_cap;
    shard_total = length-set mr.shards i _ ∙ h.shard_total;
    each = All-set most mr.shards i _ h.each (
        omega (
          arith,
          size-retain-le (λ (k : Bytes) (e : BlockEntry). not (is_stale active t k e))
              (get_or mr.shards i []),
          All-get most mr.shards i h.each,
        ));
  }

  act-Holds : (mr : Mirror) (op : MirrorOp) → Holds most mr → Holds most (act as16 mr op)
  unfolding act prune_tombstones
  act-Holds mr (sets a e) h = set_block-Holds mr a e h
  act-Holds mr (removes a now) h = remove-Holds mr a now h
  act-Holds mr (reconciles active t scanned_all) h = reconcile-Holds mr active t scanned_all h
  act-Holds mr (deletes_block a) h =
      with_shard-Holds mr a (delete a (shard as16 mr a)) h
        (omega (arith, size-delete-le a (shard as16 mr a), fits_here mr a h, h.same_cap))
  act-Holds mr (buries_block a now) h = kept-Holds mr _ h
  act-Holds mr (cleans i active t) h = clean_shard-Holds mr active t i h
  act-Holds mr (checks a t) h = removed_since-Holds mr a t h
  act-Holds mr (prunes t) h = kept-Holds mr _ h

  run_mirror-Holds :
      (mr : Mirror) (ops : List MirrorOp) → Holds most mr → Holds most (run_mirror as16 mr ops)
  unfolding run_mirror
  run_mirror-Holds mr [] h = h
  run_mirror-Holds mr (op ∷ ops) h = run_mirror-Holds (act as16 mr op) ops (act-Holds mr op h)

new_mirror-Holds : (n : ℤ) → Holds (max (pos_part n / shard_count) 1) (new_mirror n)
unfolding new_mirror
new_mirror-Holds (pos n) = record { same_cap = refl; shard_total = refl; each = ground arith }
new_mirror-Holds (negsuc n) = record { same_cap = refl; shard_total = refl; each = ground arith }

count_all_le :
    (most : ℕ) (ms : List (Map Bytes BlockEntry))
    → All (Fits most) ms
    → count_all ms ≤ length ms * most
count_all_le most [] a = omega arith
count_all_le most (m ∷ ms) a = grind (arith, a.0, count_all_le most ms a.1)

-- Start from a new mirror and take any sets, removals and reconciles, and the sections of removals and
-- reconciles in any order between them: it never holds more blocks than the configured number, or than
-- one for each of its 32 shards if that is more.
pub run_mirror_bounded :
    (as16 : Bytes → Bytes) (entries : ℤ) (ops : List MirrorOp)
    → count (run_mirror as16 (new_mirror entries) ops) ≤ max (pos_part entries) shard_count
unfolding count
run_mirror_bounded as16 entries ops =
    let most = max (pos_part entries / shard_count) 1 in
    let h = run_mirror-Holds as16 most (new_mirror entries) ops (new_mirror-Holds entries) in
    let total = count_all_le most (run_mirror as16 (new_mirror entries) ops).shards h.each in
    let capped : count_all (run_mirror as16 (new_mirror entries) ops).shards ≤ shard_count * most =
      rw h.shard_total at total in
    omega (arith, capped)
