-- ===== src/Pow/Redeem/Once.antt =====
-- core/pow/challenge.go: a stored challenge is redeemed at most once.
use angie_guardian.Prelude.{
  ℕ, ◌≤◌, ◌≡◌, refl, sym, ap, ◌∙◌, ◌&&◌, true, false, none, some, inl, inr, List, [], arith, Bytes,
  bytes_eq, bytes_eq_iff, get_or, Bool-cases, if◌then◌else◌, All,
}
use angie_guardian.Store.{Decimal}
use angie_guardian.Memory.State.{Entry, expiry, expired, passed}
use angie_guardian.Memory.Ops.{compare_and_swap, matches}
use angie_guardian.Memory.View.{view, live, Bounded}
use angie_guardian.Memory.Reads.{compare_and_swap_refines}
use angie_guardian.Memory.Trace.{Op, swaps, apply, run}
use angie_guardian.Memory.Trace.Bounds.{apply-Bounded}
use angie_guardian.Memory.Trace.Frame.{KeepsOff, run_frame, run-Bounded}
use angie_guardian.Pow.Words.{done, Attempt-cases}
use angie_guardian.Pow.Record.{Record, issued, spent, encode, decode, logical_record_state}
use angie_guardian.Pow.Record.States.{spent_byte, state_byte}
use angie_guardian.Pow.Manager.{Manager, PowError, challenge_key, challenge_unknown, invalid_record}
use angie_guardian.Pow.Redeem.{RedeemRequest, spend, ttls_for}

-- Bytes that decode to an issued record are not those of a spent one.
unlike :
    (raw marker : Bytes) (r old : Record)
    → encode (record old { state = spent }) ≡ done marker
    → decode raw ≡ done r
    → r.state ≡ issued
    → bytes_eq marker raw ≡ false
unlike raw marker r old sp dec iss = elim (Bool-cases (bytes_eq marker raw)) [
  | inr n ↦ n
  | inl y ↦
      let same : marker ≡ raw = (bytes_eq_iff marker raw).0 y in
      let two : get_or raw 5 0 ≡ 2 = ap (λ b. get_or b 5 0) (sym same) ∙ spent_byte old marker sp in
      let one : logical_record_state (get_or raw 5 0) ≡ some issued =
        rw (← iss) (state_byte raw r dec) in
      absurd (unfold logical_record_state in cc (rw two at one))
]

-- A swap that does not find the bytes that were read is refused, and no reader sees a change.
pub spend_loses :
    {C : Type 0} (m : Manager C) (now : ℕ) (req : RedeemRequest) (raw : Bytes) (r : Record)
    → Bounded m.store
    → matches (some raw) (view m.store now (challenge_key req.challenge_id)) ≡ false
    → (e : PowError) × ((spend m now req raw r).1 ≡ some e)
unfolding spend
spend_loses m now req raw r b other = elim (Attempt-cases (encode (record r { state = spent }))) [
  | inl (e, n) ↦ (invalid_record e, rw (n, spend) refl)
  | inr (marker, y) ↦
      let (found, _) =
        compare_and_swap_refines m.store now (challenge_key req.challenge_id) b (some raw) marker
          (ttls_for req r.uri).1 now [] (omega arith) in
      (challenge_unknown, rw (y, spend, found ∙ other) refl)
]

-- A redemption whose swap is refused leaves what every reader sees.
pub spend_keeps :
    {C : Type 0} (m : Manager C) (now : ℕ) (req : RedeemRequest) (raw : Bytes) (r : Record)
    → Bounded m.store
    → (e : PowError) → (spend m now req raw r).1 ≡ some e
    → (later : ℕ) (j : Bytes) → now ≤ later
    → (view (spend m now req raw r).0.store later j ≡ view m.store later j)
      × ((spend m now req raw r).0.counters ≡ m.counters)
unfolding spend
spend_keeps m now req raw r b e lost later j le =
    elim (Attempt-cases (encode (record r { state = spent }))) [
      | inl (f, n) ↦ rw (n, spend) (refl, refl)
      | inr (marker, y) ↦
          let key = challenge_key req.challenge_id in
          let (found, views) =
            compare_and_swap_refines m.store now key b (some raw) marker (ttls_for req r.uri).1
              later j le in
          (elim (Bool-cases (matches (some raw) (view m.store now key))) [
            | inl won ↦ absurd (cc (rw (y, spend, found ∙ won) at lost))
            | inr other ↦ rw (y, spend) (views ∙ ground (arith, other), refl)
          ])
    ]

module _ {C : Type 0} (m : Manager C) (now : ℕ) (req : RedeemRequest) (raw : Bytes) (r : Record)
    (bounded : Bounded m.store) (won : (spend m now req raw r).1 ≡ none) where
  pub marker_of : (marker : Bytes) × (encode (record r { state = spent }) ≡ done marker)
  unfolding spend
  marker_of = elim (Attempt-cases (encode (record r { state = spent }))) [
    | inl (e, n) ↦ absurd (cc (rw (n, spend) at won))
    | inr marker ↦ marker
  ]

  abbrev pub marker_entry : Entry
  marker_entry = record { value = marker_of.0; expires_at = expiry now (ttls_for req r.uri).1 }

  abbrev pub key : Bytes
  key = challenge_key req.challenge_id

  swap :
      (later : ℕ) (j : Bytes)
      → now ≤ later
      → ((compare_and_swap m.store now key (some raw) marker_of.0 (ttls_for req r.uri).1).1
          ≡ matches (some raw) (view m.store now key))
        × (view
              (compare_and_swap m.store now key (some raw) marker_of.0 (ttls_for req r.uri).1).0
              later
              j
            ≡ (if bytes_eq key j && matches (some raw) (view m.store now key)
                then live (some marker_entry) later
                else view m.store later j))
  swap later j le =
      compare_and_swap_refines m.store now key bounded (some raw) marker_of.0 (ttls_for req r.uri).1
        later j le

  -- The winner found the bytes that it had read.
  pub matched : matches (some raw) (view m.store now key) ≡ true
  unfolding spend
  matched = elim (Bool-cases (matches (some raw) (view m.store now key))) [
    | inl y ↦ y
    | inr n ↦ absurd (cc (rw (marker_of.1, (swap now key (omega arith)).0 ∙ n, spend) at won))
  ]

  -- It leaves the spent record under the challenge's key, and changes no other.
  pub spend_seen :
      (later : ℕ) (j : Bytes)
      → now ≤ later
      → view (spend m now req raw r).0.store later j
        ≡ (if bytes_eq key j then live (some marker_entry) later else view m.store later j)
  unfolding spend
  spend_seen later j le = rw (marker_of.1, spend) ((swap later j le).1 ∙ ground (arith, matched))

  pub marker_stays :
      (later : ℕ)
      → passed (expiry now (ttls_for req r.uri).1) later ≡ false
      → live (some marker_entry) later ≡ some marker_entry
  unfolding live expired
  marker_stays later kept = rw kept refl

  pub spend-Bounded : Decimal → Bounded (spend m now req raw r).0.store
  unfolding spend apply
  spend-Bounded d =
      rw (marker_of.1, spend)
        (apply-Bounded d m.store now (swaps key (some raw) marker_of.0 (ttls_for req r.uri).1)
          bounded)

  -- Take a redemption that won the swap, any operations of others that keep off the challenge's key,
  -- and a second redemption of the same challenge that had read an issued record, at any time before,
  -- whatever bytes it read. While the spent record is retained, the second one's swap is refused: of
  -- any redemptions of one challenge, however they interleave, one at most gets past the swap.
  pub spend_once :
      (d : Decimal) (ops : List (ℕ × Op)) (later : ℕ) (second : RedeemRequest) (old : Bytes)
      (seen : Record)
      → now ≤ later
      → passed (expiry now (ttls_for req r.uri).1) later ≡ false
      → All (KeepsOff key later) ops
      → second.challenge_id ≡ req.challenge_id
      → decode old ≡ done seen
      → seen.state ≡ issued
      → let after = record (spend m now req raw r).0 {
        store = run d (spend m now req raw r).0.store ops;
      } in
        (e : PowError) × ((spend after later second old seen).1 ≡ some e)
  spend_once d ops later second old seen le kept off same dec iss =
      let s = run d (spend m now req raw r).0.store ops in
      let b : Bounded s = run-Bounded d _ ops (spend-Bounded d) in
      let held : view s later key ≡ some marker_entry =
        run_frame d _ ops key later (spend-Bounded d) off
        ∙ (spend_seen later key le
            ∙ (rw ((bytes_eq_iff key key).1 refl) (marker_stays later kept))) in
      let differs : matches (some old) (view s later (challenge_key second.challenge_id)) ≡ false =
        rw (same, held) (unlike old marker_of.0 seen r marker_of.1 dec iss) in
      spend_loses (record (spend m now req raw r).0 { store = s }) later second old seen b differs
