-- ===== src/Pow/Redeem/Checks.antt =====
-- core/pow/challenge.go: what the checks of a redemption establish.
use angie_guardian.Prelude.{
  ℕ, ◌≡◌, ◌≢◌, ◌⊎◌, refl, sym, ◌∙◌, ◌&&◌, not, true, false, none, some, inl, inr, ◌++◌, arith,
  Bytes, bytes_eq, Bool-cases, Option-cases,
}
use angie_guardian.Prelude.Int.{pos, ◌-ℤ◌, ◌*ℤ◌, ◌≤ℤ◌, ltb_ℤ}
use angie_guardian.Pow.Words.{done, hex_encode, Attempt-cases}
use angie_guardian.Pow.Proof.{Algorithm, unset, sha256, argon2id, unknown, verify_argon2id}
use angie_guardian.Pow.Record.{Record, RecordState, issued, spent, other_state, decode, proof_spec}
use angie_guardian.Pow.Manager.{Services, Manager, millisecond}
use angie_guardian.Pow.Redeem.{
  RedeemRequest, bound_record, waited, filled, searched, proved, leading_zero_bits, asked, flat,
}

-- The work that stands behind a redemption: the wait of a challenge that allows it, the Argon2id
-- result of the issued policy, or a hash with the issued number of leading zero bits.
pub data Worked {C : Type 0} (sv : Services) (m : Manager C) (now : ℕ) (req : RedeemRequest)
    (r : Record) : Type 0 where
  has_waited :
      req.no_js ≡ true
      → r.no_js ≡ true
      → m.no_js_min_delay ≤ℤ (pos now -ℤ r.issued_at *ℤ pos millisecond)
      → Worked sv m now req r
  has_filled :
      req.no_js ≡ false
      → r.algorithm ≡ argon2id
      → verify_argon2id sv.id_key (hex_encode r.challenge_digest) (proof_spec r) req.proof ≡ true
      → Worked sv m now req r
  has_searched :
      req.no_js ≡ false
      → r.algorithm ≢ argon2id
      → r.difficulty
        ≤ℤ pos (leading_zero_bits (sv.sum256 (hex_encode r.challenge_digest ++ req.nonce)))
      → Worked sv m now req r

module _ {C : Type 0} (sv : Services) (m : Manager C) (now : ℕ) (req : RedeemRequest)
    (r : Record) where
  pub waited_lem : req.no_js ≡ true → waited m now req r ≡ none → Worked sv m now req r
  unfolding waited
  waited_lem js h = elim (Bool-cases r.no_js) [
    | inr n ↦ absurd (cc (rw (n, waited) at h))
    | inl y ↦ (elim (Option-cases (asked req.acquire_no_js r.uri)) [
      | inr (e, a) ↦ absurd (cc (rw (y, a, waited) at h))
      | inl a ↦
          (elim (Bool-cases (ltb_ℤ (pos now -ℤ r.issued_at *ℤ pos millisecond) m.no_js_min_delay)) [
            | inl l ↦ absurd (cc (rw (y, a, l, waited) at h))
            | inr l ↦ has_waited js y (ground arith)
          ])
    ])
  ]

  filled_lem :
      req.no_js ≡ false → r.algorithm ≡ argon2id → filled sv req r ≡ none → Worked sv m now req r
  unfolding filled
  filled_lem js a h = elim (Option-cases (flat req.acquire_argon)) [
    | inr (e, b) ↦ absurd (cc (rw (b, filled) at h))
    | inl b ↦
        (elim (Bool-cases
          (verify_argon2id sv.id_key (hex_encode r.challenge_digest) (proof_spec r) req.proof)) [
            | inl y ↦ has_filled js a y
            | inr n ↦ absurd (cc (rw (b, n, filled) at h))
          ])
  ]

  searched_lem :
      req.no_js ≡ false → r.algorithm ≢ argon2id → searched sv req r ≡ none → Worked sv m now req r
  unfolding searched
  searched_lem js a h =
      let sum = sv.sum256 (hex_encode r.challenge_digest ++ req.nonce) in
      elim (Bool-cases (ltb_ℤ (pos (leading_zero_bits sum)) r.difficulty)) [
        | inl y ↦ absurd (cc (rw (y, searched) at h))
        | inr n ↦ has_searched js a (ground arith)
      ]

  proved_by :
      (a : Algorithm)
      → r.algorithm ≡ a
      → ((r.algorithm ≡ argon2id) × (proved sv req r ≡ filled sv req r))
        ⊎ ((r.algorithm ≢ argon2id) × (proved sv req r ≡ searched sv req r))
  unfolding proved proof_spec verify_argon2id
  proved_by unset q = inr ((λ e. cc), rw (q, proved) refl)
  proved_by sha256 q = inr ((λ e. cc), rw (q, proved) refl)
  proved_by argon2id q = inl (q, rw (q, proved) refl)
  proved_by (unknown name) q = inr ((λ e. cc), rw (q, proved) refl)

  pub proved_lem : req.no_js ≡ false → proved sv req r ≡ none → Worked sv m now req r
  proved_lem js h = elim (proved_by r.algorithm refl) [
    | inl (a, e) ↦ filled_lem js a (sym e ∙ h)
    | inr (a, e) ↦ searched_lem js a (sym e ∙ h)
  ]

-- The record that the bytes hold, issued and bound to the client of the request.
pub record Bound (sv : Services) (req : RedeemRequest) (raw : Bytes) (r : Record) : Type 0 where
  pub decodes : decode raw ≡ done r
  pub is_issued : r.state ≡ issued
  pub same_host : sv.equal_fold r.host req.host ≡ true
  pub same_address : (not (bytes_eq r.ip req.ip) && req.no_js) ≡ false

module _ (sv : Services) (req : RedeemRequest) (raw : Bytes) (r : Record) where
  Bound-by :
      (q : Record) (state : RecordState)
      → decode raw ≡ done q
      → q.state ≡ state
      → bound_record sv req (some raw) ≡ done r
      → Bound sv req raw r
  unfolding bound_record
  Bound-by q spent dec st h = absurd (cc (rw (dec, st, bound_record) at h))
  Bound-by q (other_state name) dec st h = absurd (cc (rw (dec, st, bound_record) at h))
  Bound-by q issued dec st h = elim (Bool-cases (sv.equal_fold q.host req.host)) [
    | inr n ↦ absurd (cc (rw (dec, st, n, bound_record) at h))
    | inl y ↦ (elim (Bool-cases (not (bytes_eq q.ip req.ip) && req.no_js)) [
      | inl n ↦ absurd (cc (rw (dec, st, y, n, bound_record) at h))
      | inr a ↦
          let same : q ≡ r = cc (rw (dec, st, y, a, bound_record) at h) in
          let checked_q : Bound sv req raw q = record {
            decodes = dec;
            is_issued = st;
            same_host = y;
            same_address = a;
          } in
          rw same at checked_q
    ])
  ]

  pub bound_lem : bound_record sv req (some raw) ≡ done r → Bound sv req raw r
  unfolding bound_record
  bound_lem h = elim (Attempt-cases (decode raw)) [
    | inl (e, n) ↦ absurd (cc (rw (n, bound_record) at h))
    | inr (q, dec) ↦ Bound-by q q.state dec refl h
  ]
