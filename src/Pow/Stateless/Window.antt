-- ===== src/Pow/Stateless/Window.antt =====
-- core/pow/stateless_challenge.go: the retention of the spent marker against the freshness window.
use angie_guardian.Prelude.{
  ℕ, ◌+◌, ◌-◌, ◌*◌, ◌^◌, ◌<◌, ◌≡◌, refl, sym, ap, ◌∙◌, true, none, some, inl, inr, arith,
  Bool-cases, if◌then◌else◌,
}
use angie_guardian.Prelude.Int.{
  ℤ, pos, negsuc, pos_part, neg_part, ◌≤ℤ◌, ◌-ℤ◌, ◌+ℤ◌, ◌*ℤ◌, +ℤ_parts, -ℤ_parts,
}
use angie_guardian.Prelude.Int64.{wrap64, wrap64_pos, max_int64, is_positive}
use angie_guardian.Store.{minute}
use angie_guardian.Memory.State.{expiry}
use angie_guardian.Pow.Manager.{Services, Manager, millisecond}
use angie_guardian.Pow.Redeem.{RedeemRequest, ttls_for}
use angie_guardian.Pow.Stateless.{StatelessPayload, stateless_skew}
use angie_guardian.Pow.Stateless.Redeem.{saturated, elapsed, ahead, is_fresh, remaining, admit}
use angie_guardian.Pow.Stateless.Open.{Opened}

-- The longest time to live whose marker fits an int64.
abbrev pub longest : ℕ
longest = max_int64 - 2 * stateless_skew

saturated_under : (x t : ℤ) → saturated x ≤ℤ t → t ≤ℤ pos longest → x ≤ℤ t
unfolding saturated
saturated_under x t h le = ground (arith, h, le)

saturated_id : (x : ℤ) → x ≤ℤ pos longest → negsuc longest ≤ℤ x → saturated x ≡ x
unfolding saturated
saturated_id x h l = ground (arith, h, l)

abbrev pub issued_ns : StatelessPayload → ℤ
issued_ns p = p.ts *ℤ pos millisecond

age_of :
    (now : ℕ) (i ttl e : ℤ)
    → e ≡ saturated (pos now -ℤ i)
    → e ≤ℤ ttl
    → ttl ≤ℤ pos longest
    → saturated (i -ℤ pos now) ≤ℤ pos stateless_skew
    → (e ≡ pos now -ℤ i) × (negsuc (stateless_skew - 1) ≤ℤ e)
age_of now i ttl e q h le s =
    let young : pos now -ℤ i ≤ℤ ttl = saturated_under (pos now -ℤ i) ttl (rw q at h) le in
    let near : i -ℤ pos now ≤ℤ pos stateless_skew =
      saturated_under (i -ℤ pos now) (pos stateless_skew) s (omega arith) in
    let same : e ≡ pos now -ℤ i =
      q
      ∙ saturated_id (pos now -ℤ i) (omega (arith, young, le))
          (omega (arith, -ℤ_parts (pos now) i, -ℤ_parts i (pos now))) in
    (same, rw same (omega (arith, near, -ℤ_parts (pos now) i, -ℤ_parts i (pos now))))

pos_of : (x : ℤ) → pos 0 ≤ℤ x → x ≡ pos (pos_part x)
pos_of x h = ground (arith, h)

part_small : (x : ℤ) → pos 0 ≤ℤ x → x ≤ℤ pos max_int64 → pos_part x < 2 ^ 63
part_small (pos n) h l = omega (arith, h, l)
part_small (negsuc n) h l = absurd (omega (arith, h, l))

wrap64_small : (x : ℤ) → pos 0 ≤ℤ x → x ≤ℤ pos max_int64 → wrap64 x ≡ x
wrap64_small x h l =
    ap wrap64 (pos_of x h) ∙ (wrap64_pos (pos_part x) (part_small x h l) ∙ sym (pos_of x h))

pub expiry_pos : (now n : ℕ) → 0 < n → expiry now (pos n) ≡ some (now + n)
unfolding expiry
expiry_pos now n h = ground arith

-- The marker's time to live, for a challenge in its window.
left_lem :
    (e ttl x : ℤ)
    → e ≤ℤ ttl
    → ttl ≤ℤ pos longest
    → negsuc (stateless_skew - 1) ≤ℤ e
    → x ≡ wrap64 (wrap64 (ttl -ℤ e) +ℤ pos stateless_skew)
    → (n : ℕ) × (0 < n)
      × (x ≡ pos n)
      × (n + pos_part e + neg_part ttl ≡ pos_part ttl + neg_part e + stateless_skew)
left_lem e ttl x h le old q =
    let d = ttl -ℤ e in
    let wd : wrap64 d ≡ d =
      wrap64_small d (omega (arith, -ℤ_parts ttl e)) (omega (arith, -ℤ_parts ttl e)) in
    let l = d +ℤ pos stateless_skew in
    let parts = +ℤ_parts d (pos stateless_skew) in
    let lower : pos 0 ≤ℤ l = omega (arith, -ℤ_parts ttl e, parts) in
    let wl : wrap64 l ≡ l = wrap64_small l lower (omega (arith, -ℤ_parts ttl e, parts)) in
    let shape : l ≡ pos (pos_part l) = pos_of l lower in
    let none_below : neg_part l ≡ 0 = ap neg_part shape in
    (
      pos_part l,
      omega (arith, -ℤ_parts ttl e, parts, none_below),
      q ∙ (ap (λ y. wrap64 (y +ℤ pos stateless_skew)) wd ∙ (wl ∙ shape)),
      omega (arith, -ℤ_parts ttl e, parts, none_below),
    )

fresh_lem :
    (now : ℕ) (req : RedeemRequest) (o : Opened)
    → is_fresh now req o ≡ true
    → (elapsed now o.payload ≤ℤ (ttls_for req o.payload.uri).1)
      × (ahead now o.payload ≤ℤ pos stateless_skew)
unfolding is_fresh
fresh_lem now req o h = (ground (arith, h), ground (arith, h))

admit-is_fresh :
    {C : Type 0} (sv : Services) (m : Manager C) (now : ℕ) (req : RedeemRequest) (o : Opened)
    → admit sv m now req o ≡ none
    → is_fresh now req o ≡ true
unfolding admit
admit-is_fresh sv m now req o h = elim (Bool-cases (is_fresh now req o)) [
  | inl y ↦ y
  | inr n ↦ absurd (cc (rw (n, admit) at h))
]

-- The age of an admitted challenge, which no end of int64 cuts.
pub admitted_age :
    {C : Type 0} (sv : Services) (m : Manager C) (now : ℕ) (req : RedeemRequest) (o : Opened)
    → (ttls_for req o.payload.uri).1 ≤ℤ pos longest
    → admit sv m now req o ≡ none
    → (elapsed now o.payload ≡ pos now -ℤ issued_ns o.payload)
      × (elapsed now o.payload ≤ℤ (ttls_for req o.payload.uri).1)
      × (negsuc (stateless_skew - 1) ≤ℤ elapsed now o.payload)
unfolding elapsed ahead
admitted_age sv m now req o le h =
    let (young, near) = fresh_lem now req o (admit-is_fresh sv m now req o h) in
    let (same, old) =
      age_of now (issued_ns o.payload) (ttls_for req o.payload.uri).1 (elapsed now o.payload) refl
        young le near in
    (same, young, old)

-- The marker that a claim leaves outlives the freshness window of a clock that is behind by the skew.
pub remaining_lem :
    {C : Type 0} (sv : Services) (m : Manager C) (now : ℕ) (req : RedeemRequest) (o : Opened)
    → (ttls_for req o.payload.uri).1 ≤ℤ pos longest
    → admit sv m now req o ≡ none
    → let ttl = (ttls_for req o.payload.uri).1 in
      (n : ℕ) × (0 < n)
      × (remaining now ttl o.payload ≡ pos n)
      × (n + now + neg_part (issued_ns o.payload) + neg_part ttl
          ≡ pos_part ttl + pos_part (issued_ns o.payload) + stateless_skew)
unfolding remaining
remaining_lem sv m now req o le h =
    let ttl = (ttls_for req o.payload.uri).1 in
    let e = elapsed now o.payload in
    let (same, young, old) = admitted_age sv m now req o le h in
    let (n, some_left, shape, parts) =
      left_lem e ttl (wrap64 (wrap64 (ttl -ℤ e) +ℤ pos stateless_skew)) young le old refl in
    let exact : pos now -ℤ issued_ns o.payload ≡ e = sym same in
    (
      n,
      some_left,
      ap (λ left. if is_positive left then left else pos minute) shape ∙ ground (arith, some_left),
      omega (
        arith,
        parts,
        ap pos_part exact,
        ap neg_part exact,
        -ℤ_parts (pos now) (issued_ns o.payload),
      ),
    )
