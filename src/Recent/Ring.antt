-- ===== src/Recent/Ring.antt =====
-- core/recent.go: the ring against the list of all decisions, the newest first.
use angie_guardian.Prelude.{
  ℕ, zero, suc, ◌+◌, ◌-◌, ◌%◌, ◌≤◌, ◌<◌, min, ◌≡◌, ◌≢◌, refl, sym, ap, ◌∙◌, false, inl, inr, List,
  [], ◌∷◌, arith, ltb, ◌=ℕ◌, if◌then◌else◌, Bool-cases, length, get_or, set, take, drop, length-set,
  get_or-set_self, get_or-set_ne, length-replicate,
}
use angie_guardian.Prelude.Int.{ℤ, pos, negsuc}
use angie_guardian.Recent.{
  RecentDecision, blank, RecentRing, new_recent_ring, truncated, ready, put, add, gather, wanted,
  snapshot, add_all, default_recent_decisions_capacity,
}
use angie_guardian.Recent.Index.{back_index}

-- The ring holds the newest of these decisions, as many as fit.
record Shows (r : RecentRing) (newest : List RecentDecision) : Type 0 where
  room : 0 < length r.buf
  next_in : r.next < length r.buf
  counted : r.count ≡ min (length newest) (length r.buf)
  overwritten : r.full ≡ ltb (length r.buf) (length newest)
  cells :
      (i : ℕ)
      → i < r.count
      → get_or r.buf ((r.next + length r.buf - suc i) % length r.buf) blank ≡ get_or newest i blank

abbrev advance : ℕ → ℕ → ℕ
advance next n = if next + 1 =ℕ n then 0 else next + 1

newest_index : (next n : ℕ) → next < n → (advance next n + n - 1) % n ≡ next
newest_index next n h = elim (Bool-cases (next + 1 =ℕ n)) [
  | inl y ↦ rw y (back_index 0 1 n (ground arith) (ground arith) ∙ ground arith)
  | inr m ↦ rw m (back_index (next + 1) 1 n (ground arith) (ground arith) ∙ ground arith)
]

older_index :
    (next n i : ℕ)
    → next < n
    → suc i < n
    → (advance next n + n - suc (suc i)) % n ≡ (next + n - suc i) % n
older_index next n i h k = elim (Bool-cases (next + 1 =ℕ n)) [
  | inl y ↦ rw y (
      back_index 0 (suc (suc i)) n (ground arith) (ground arith)
      ∙ (ground arith ∙ sym (back_index next (suc i) n h (ground arith))))
  | inr m ↦ rw m (
      back_index (next + 1) (suc (suc i)) n (ground arith) (ground arith)
      ∙ (ground arith ∙ sym (back_index next (suc i) n h (ground arith))))
]

apart_index : (next n i : ℕ) → next < n → suc i < n → next ≢ (next + n - suc i) % n
apart_index next n i h k = ground (arith, back_index next (suc i) n h)

put_cells :
    (r : RecentRing) (newest : List RecentDecision) (d : RecentDecision)
    → Shows r newest
    → (i : ℕ) → i < (if r.count =ℕ length r.buf then r.count else r.count + 1)
    → get_or
        (set r.buf r.next d)
        ((advance r.next (length r.buf) + length r.buf - suc i) % length r.buf)
        blank
      ≡ get_or (d ∷ newest) i blank
put_cells r newest d s zero h =
    rw (newest_index r.next (length r.buf) s.next_in)
      (get_or-set_self r.buf r.next d blank s.next_in)
put_cells r newest d s (suc i) h =
    let small : suc i < length r.buf = ground (arith, s.counted) in
    let old : i < r.count = ground (arith, s.counted) in
    rw (older_index r.next (length r.buf) i s.next_in small) (
      get_or-set_ne r.buf r.next _ d blank (apart_index r.next (length r.buf) i s.next_in small)
      ∙ s.cells i old)

put-Shows :
    (r : RecentRing) (newest : List RecentDecision) (d : RecentDecision)
    → Shows r newest
    → Shows (put r d) (d ∷ newest)
unfolding put
put-Shows r newest d s =
    let size = length-set r.buf r.next d in
    record {
      room = omega (arith, size, s.room);
      next_in = ground (arith, size, s.next_in);
      counted = rw size (ground (arith, s.counted));
      overwritten = rw size (ground (arith, s.counted, s.overwritten));
      cells = rw size (put_cells r newest d s);
    }

ready-Shows :
    (r : RecentRing) (newest : List RecentDecision) (now : ℕ)
    → Shows r newest
    → Shows (ready r now) newest
unfolding ready
ready-Shows r newest now s =
    let used : (length r.buf =ℕ 0) ≡ false = ground (arith, s.room) in rw (used, ready) s

-- The decisions of a history, the newest first, on top of older ones.
abbrev pub newest_first : List (ℕ × RecentDecision) → List RecentDecision → List RecentDecision
newest_first [] older = older
newest_first ((now, d) ∷ ds) older = newest_first ds (truncated d ∷ older)

add_all-Shows :
    (r : RecentRing) (older : List RecentDecision) (ds : List (ℕ × RecentDecision))
    → Shows r older
    → Shows (add_all r ds) (newest_first ds older)
unfolding add_all add
add_all-Shows r older [] s = s
add_all-Shows r older ((now, d) ∷ ds) s =
    add_all-Shows (add r now d) (truncated d ∷ older) ds
      (put-Shows (ready r now) older (truncated d) (ready-Shows r older now s))

put-length :
    (r : RecentRing) (now : ℕ) (d : RecentDecision)
    → 0 < length r.buf
    → length (add r now d).buf ≡ length r.buf
unfolding add put ready
put-length r now d h =
    let used : (length r.buf =ℕ 0) ≡ false = ground (arith, h) in
    rw (used, ready) (length-set r.buf r.next (truncated d))

add_all-length :
    (r : RecentRing) (ds : List (ℕ × RecentDecision))
    → 0 < length r.buf
    → length (add_all r ds).buf ≡ length r.buf
unfolding add_all
add_all-length r [] h = refl
add_all-length r ((now, d) ∷ ds) h =
    let same = put-length r now d h in add_all-length (add r now d) ds (omega (arith, same)) ∙ same

drop-head :
    (i : ℕ) (xs : List RecentDecision)
    → i < length xs
    → drop i xs ≡ get_or xs i blank ∷ drop (suc i) xs
drop-head i [] h = absurd (omega arith)
drop-head zero (x ∷ xs) h = refl
drop-head (suc i) (x ∷ xs) h = drop-head i xs (omega arith)

gather-Shows :
    (r : RecentRing) (newest : List RecentDecision) (i k : ℕ)
    → Shows r newest
    → i + k ≤ r.count
    → gather r i k ≡ take k (drop i newest)
unfolding gather
gather-Shows r newest i zero s h = refl
gather-Shows r newest i (suc k) s h =
    rw (drop-head i newest (omega (arith, s.counted)), s.cells i (omega arith))
      (ap (get_or newest i blank ∷◌) (gather-Shows r newest (suc i) k s (omega arith)))

abbrev pub capacity_of : ℤ → ℕ
capacity_of (pos zero) = default_recent_decisions_capacity
capacity_of (pos (suc n)) = suc n
capacity_of (negsuc n) = default_recent_decisions_capacity

new-length : (size : ℤ) (now : ℕ) → length (new_recent_ring size now).buf ≡ capacity_of size
unfolding new_recent_ring
new-length (pos zero) now = length-replicate _ blank
new-length (pos (suc n)) now = length-replicate _ blank ∙ ground arith
new-length (negsuc n) now = length-replicate _ blank

capacity_pos : (size : ℤ) → 0 < capacity_of size
capacity_pos (pos zero) = omega arith
capacity_pos (pos (suc n)) = omega arith
capacity_pos (negsuc n) = omega arith

new-Shows : (size : ℤ) (now : ℕ) → Shows (new_recent_ring size now) []
unfolding new_recent_ring
new-Shows size now =
    let room : 0 < length (new_recent_ring size now).buf =
      rw (new-length size now) (capacity_pos size) in
    record {
      room = room;
      next_in = room;
      counted = omega arith;
      overwritten = ground arith;
      cells = λ i h. absurd (omega arith);
    }

wanted-le : (limit : ℤ) (count : ℕ) → wanted limit count ≤ count
wanted-le (pos n) count = ground arith
wanted-le (negsuc n) count = omega arith

-- Make a ring of any size and add any decisions. A snapshot then shows the newest of them, the newest
-- first and each with its texts cut: as many as the limit asks for (all, for a limit that is not
-- positive) and the ring still holds. It says that the ring is full exactly when a decision was lost.
pub snapshot_newest :
    (size limit : ℤ) (start : ℕ) (ds : List (ℕ × RecentDecision))
    → let shown = snapshot (add_all (new_recent_ring size start) ds) limit in
      let kept = min (length (newest_first ds [])) (capacity_of size) in
      (shown.decisions ≡ take (wanted limit kept) (newest_first ds []))
      × (shown.is_full ≡ ltb (capacity_of size) (length (newest_first ds [])))
      × (shown.capacity ≡ capacity_of size)
unfolding snapshot
snapshot_newest size limit start ds =
    let r = new_recent_ring size start in
    let s = add_all-Shows r [] ds (new-Shows size start) in
    let room : 0 < length r.buf = rw (new-length size start) (capacity_pos size) in
    let size_kept = add_all-length r ds room ∙ new-length size start in
    let counted = rw size_kept at s.counted in
    (
      gather-Shows (add_all r ds) _ 0 _ s (omega (arith, wanted-le limit (add_all r ds).count))
          ∙ rw counted refl,
      rw size_kept at s.overwritten,
      ground (arith, size_kept, capacity_pos size),
    )
