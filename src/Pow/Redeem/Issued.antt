-- ===== src/Pow/Redeem/Issued.antt =====
-- core/pow/challenge.go: a challenge that was issued redeems, for the client that solves it in time.
use angie_guardian.Prelude.{
  ℕ, ◌≤◌, ◌<◌, ◌^◌, ◌≡◌, refl, sym, ap, ◌∙◌, Bool, true, false, none, some, inl, inr, List, [],
  ◌++◌, arith, Bytes, bytes_eq_iff, length, Bool-cases, Option-cases, All,
}
use angie_guardian.Prelude.Int.{ℤ, pos, ◌≤ℤ◌, ltb_ℤ}
use angie_guardian.Store.{Decimal}
use angie_guardian.Memory.State.{ShardedMemory, expiry, expired, passed}
use angie_guardian.Memory.Ops.{compare_and_swap, matches}
use angie_guardian.Memory.View.{view, live, Bounded}
use angie_guardian.Memory.Reads.{compare_and_swap_refines}
use angie_guardian.Memory.Trace.{Op, swaps, apply, run}
use angie_guardian.Memory.Trace.Bounds.{apply-Bounded}
use angie_guardian.Memory.Trace.Frame.{KeepsOff, run_frame, run-Bounded}
use angie_guardian.Pow.Words.{done, hex_encode, Attempt-cases}
use angie_guardian.Pow.Proof.{unset, sha256, ProofSpec, effective, validate, validate-sha256}
use angie_guardian.Pow.Record.{
  Record, RecordState, issued, spent, encode, decode, proof_spec, max_field_size,
  binary_record_state, zero_salt,
}
use angie_guardian.Pow.Record.Parsed.{Fits}
use angie_guardian.Pow.Record.RoundTrip.{stored, decode-encode}
use angie_guardian.Pow.Escalation.{Names, Counters}
use angie_guardian.Pow.Manager.{Services, Manager, challenge_key}
use angie_guardian.Pow.Issue.{
  Challenge, Draws, issue_with_spec, issued_record, digest_of, challenge_from_spec, with_salt,
}
use angie_guardian.Pow.Redeem.Accepts.{redeem_accepts}
use angie_guardian.Pow.Redeem.{
  RedeemRequest, RedeemResult, redeem_solved, redeemed, redeem, proved, searched, canonical,
  leading_zero_bits, ttls_for,
}

module _ {C : Type 0} (sv : Services) (m : Manager C) (now : ℕ) (draws : Draws)
    (host ip uri : Bytes) (spec : ProofSpec) (ttl : ℤ) (allow : Bool) where
  abbrev r : Record
  r = issued_record sv m now draws host ip uri (with_salt spec draws.salt) allow

  abbrev key : Bytes
  key = challenge_key draws.id

  -- An issue that succeeded had a valid policy, stored the encoded record, and answers with the text
  -- of its digest.
  record Stored (m' : Manager C) (ch : Challenge) : Type 0 where
    valid : validate spec ≡ none
    raw : Bytes
    encoded : encode r ≡ done raw
    store : m'.store ≡ (compare_and_swap m.store now key none raw ttl).0
    created : (compare_and_swap m.store now key none raw ttl).1 ≡ true
    answer :
        ch
        ≡ challenge_from_spec draws.id (hex_encode r.challenge_digest) (with_salt spec draws.salt)

  issue_done :
      (m' : Manager C) (ch : Challenge)
      → issue_with_spec sv m now draws host ip uri spec ttl allow ≡ (m', done ch)
      → Stored m' ch
  unfolding issue_with_spec
  issue_done m' ch h = elim (Option-cases (validate spec)) [
    | inr (e, n) ↦ absurd (cc (rw (n, issue_with_spec) at h))
    | inl y ↦ (elim (Attempt-cases (encode r)) [
      | inl (e, n) ↦ absurd (cc (rw (y, n, issue_with_spec) at h))
      | inr (raw, q) ↦ (elim (Bool-cases (compare_and_swap m.store now key none raw ttl).1) [
        | inr n ↦ absurd (cc (rw (y, q, n, issue_with_spec) at h))
        | inl c ↦
            let made = rw (y, q, c, issue_with_spec) at h in
            record {
              valid = y;
              raw = raw;
              encoded = q;
              store = ap (λ p. p.0.store) (sym made);
              created = c;
              answer = cc made;
            }
      ])
    ])
  ]

module _ {C : Type 0} (sv : Services) (m : Manager C) (now : ℕ) (draws : Draws)
    (host ip uri : Bytes) (spec : ProofSpec) (allow : Bool)
    (kind : effective spec.algorithm ≡ sha256) (salt : length spec.salt ≡ 16) (clock : now < 2 ^ 63)
    (host_size : length (sv.to_lower host) ≤ max_field_size) (ip_size : length ip ≤ max_field_size)
    (uri_size : length uri ≤ max_field_size) (valid : validate spec ≡ none) where
  abbrev made : Record
  made = issued_record sv m now draws host ip uri spec allow

  made-Fits : (state : RecordState) → Fits (record made { state = state })
  unfolding issued_record digest_of
  made-Fits state = record {
    digest_size = sv.hmac_size _ _;
    salt_size = salt;
    time_range = omega arith;
    host_size = host_size;
    ip_size = ip_size;
    uri_size = uri_size;
  }

  made_valid : (state : RecordState) → validate (proof_spec (record made { state = state })) ≡ none
  unfolding issued_record proof_spec
  made_valid state =
      validate-sha256 (proof_spec (record made { state = state })) (ap effective kind)
      ∙ (sym (validate-sha256 spec kind) ∙ valid)

  -- The record as the decoder gives it back, in a state.
  abbrev back : RecordState → Record
  back state = record made {
    state = state;
    algorithm = unset;
    memory_kib = 0;
    iterations = 0;
    salt = zero_salt;
  }

  stored-made : stored made ≡ back issued
  unfolding stored issued_record
  stored-made = rw (kind, stored) refl

  decodes : (raw : Bytes) → encode made ≡ done raw → decode raw ≡ done (back issued)
  unfolding issued_record binary_record_state
  decodes raw q =
      let (again, same, result) =
        decode-encode made 1 (made-Fits issued) refl (made_valid issued) in
      let equal : again ≡ raw = cc (sym same ∙ q) in rw equal at (result ∙ ap done stored-made)

  back-Fits : Fits (back spent)
  unfolding issued_record digest_of
  back-Fits = record {
    digest_size = sv.hmac_size _ _;
    salt_size = refl;
    time_range = omega arith;
    host_size = host_size;
    ip_size = ip_size;
    uri_size = uri_size;
  }

  back_valid : validate (proof_spec (back spent)) ≡ none
  unfolding issued_record proof_spec
  back_valid =
      validate-sha256 (proof_spec (back spent)) refl ∙ (sym (validate-sha256 spec kind) ∙ valid)

  spends : (marker : Bytes) × (encode (back spent) ≡ done marker)
  unfolding binary_record_state
  spends =
      let (marker, q, _) = decode-encode (back spent) 2 back-Fits refl back_valid in (marker, q)

pub with_salt-sha256 :
    (spec : ProofSpec) (salt : Bytes)
    → effective spec.algorithm ≡ sha256
    → with_salt spec salt ≡ spec
with_salt-sha256 spec salt kind = rw (kind, with_salt) refl

pub text-sha256 :
    (id text : Bytes) (spec : ProofSpec)
    → effective spec.algorithm ≡ sha256
    → (challenge_from_spec id text spec).text ≡ text
unfolding challenge_from_spec
text-sha256 id text spec kind = rw (kind, challenge_from_spec) refl

solved_lem :
    (sv : Services) (req : RedeemRequest) (r : Record)
    → r.algorithm ≡ unset
    → r.difficulty
      ≤ℤ pos (leading_zero_bits (sv.sum256 (hex_encode r.challenge_digest ++ req.nonce)))
    → proved sv req r ≡ none
unfolding proved searched
solved_lem sv req r plain work =
    let sum = sv.sum256 (hex_encode r.challenge_digest ++ req.nonce) in
    let enough : ltb_ℤ (pos (leading_zero_bits sum)) r.difficulty ≡ false = ground (arith, work) in
    rw (plain, proved, enough) refl

-- What the issue leaves under the challenge's key, through the operations of others.
pub raw_held :
    (s : ShardedMemory) (now later : ℕ) (key raw : Bytes) (ttl : ℤ) (d : Decimal)
    (ops : List (ℕ × Op))
    → Bounded s
    → (compare_and_swap s now key none raw ttl).1 ≡ true
    → now ≤ later
    → passed (expiry now ttl) later ≡ false
    → All (KeepsOff key later) ops
    → let after = run d (compare_and_swap s now key none raw ttl).0 ops in
      Bounded after
      × (view after later key ≡ some (record { value = raw; expires_at = expiry now ttl }))
unfolding live expired apply
raw_held s now later key raw ttl d ops b created le kept off =
    let written = (compare_and_swap s now key none raw ttl).0 in
    let bounded : Bounded written = apply-Bounded d s now (swaps key none raw ttl) b in
    let (found, seen) = compare_and_swap_refines s now key b none raw ttl later key le in
    let won : matches none (view s now key) ≡ true = sym found ∙ created in
    (
      run-Bounded d written ops bounded,
      run_frame d written ops key later bounded off
          ∙ (seen ∙ rw (won, (bytes_eq_iff key key).1 refl, kept) refl),
    )

module _ {C : Type 0} (sv : Services) (names : Names) (cs : Counters C) where
  -- Take an issued SHA-256 challenge, any operations that keep off its key, and the client at the
  -- address and host that it was issued for, on any replica over the same store. If the client answers
  -- while the record is retained, with a nonce whose hash with the challenge's text has the required
  -- leading zero bits, then it is redeemed, for the token that is minted and the URI that was asked.
  pub issued_redeems :
      (m n m' : Manager C) (now later : ℕ) (draws : Draws) (host ip uri : Bytes) (spec : ProofSpec)
      (ttl : ℤ) (allow : Bool) (ch : Challenge) (d : Decimal) (ops : List (ℕ × Op))
      (req : RedeemRequest) (token : Bytes)
      → Bounded m.store
      → effective spec.algorithm ≡ sha256
      → length spec.salt ≡ 16
      → now < 2 ^ 63
      → length (sv.to_lower host) ≤ max_field_size
      → length ip ≤ max_field_size
      → length uri ≤ max_field_size
      → issue_with_spec sv m now draws host ip uri spec ttl allow ≡ (m', done ch)
      → now ≤ later
      → passed (expiry now ttl) later ≡ false
      → All (KeepsOff (challenge_key draws.id) later) ops
      → n.store ≡ run d m'.store ops
      → canonical sv draws.id ≡ true
      → req.challenge_id ≡ draws.id
      → req.no_js ≡ false
      → sv.equal_fold (sv.to_lower host) req.host ≡ true
      → req.ip ≡ ip
      → spec.difficulty ≤ℤ pos (leading_zero_bits (sv.sum256 (ch.text ++ req.nonce)))
      → ((policy : ProofSpec) (life : ℤ)
          → sv.mint (sv.to_lower host) req.ip req.user_agent req.challenge_id policy life
            ≡ some token)
      → (res : RedeemResult) × ((redeem sv names cs n later req).1 ≡ done res)
        × (res.outcome ≡ redeem_solved)
        × (res.token ≡ token)
        × (res.redirect_uri ≡ uri)
  unfolding issued_record
  issued_redeems m n m' now later draws host ip uri spec ttl allow ch d ops req token b kind salt
        clock host_size ip_size uri_size issue le kept off same_store id_ok same_id js fold same_ip
        work mints =
      let st = issue_done sv m now draws host ip uri spec ttl allow m' ch issue in
      let encoded = rw (with_salt-sha256 spec draws.salt kind) at st.encoded in
      let (bounded, held) =
        raw_held m.store now later (challenge_key draws.id) st.raw ttl d ops b st.created le kept
          off in
      let stored_here : n.store
          ≡ run d (compare_and_swap m.store now (challenge_key draws.id) none st.raw ttl).0 ops =
        rw (← st.store) same_store in
      let text : ch.text ≡ hex_encode (digest_of sv m now (sv.to_lower host) ip draws.id) =
        rw (st.answer, with_salt-sha256 spec draws.salt kind) (text-sha256 draws.id _ spec kind) in
      let r =
        back sv m now draws host ip uri spec allow kind salt clock host_size ip_size uri_size
          st.valid issued in
      let dec =
        decodes sv m now draws host ip uri spec allow kind salt clock host_size ip_size uri_size
          st.valid st.raw encoded in
      let (marker, q) =
        spends sv m now draws host ip uri spec allow kind salt clock host_size ip_size uri_size
          st.valid in
      let solved : proved sv req r ≡ none = solved_lem sv req r refl (rw text at work) in
      let result =
        redeem_accepts sv names cs n later req r
          (record { value = st.raw; expires_at = expiry now ttl }) (rw stored_here bounded)
          (rw (stored_here, same_id) held) dec refl marker token (rw same_id id_ok) js fold
          (sym same_ip) solved q (mints _ _) in
      (redeemed redeem_solved token (ttls_for req r.uri).0 [] r, result, refl, refl, refl)
