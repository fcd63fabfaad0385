-- ===== src/Pow/Stateless/Redeems.antt =====
-- core/pow/stateless_challenge.go: a stateless challenge that was issued redeems.
use angie_guardian.Prelude.{
  ℕ, ◌=ℕ◌, ◌≡◌, refl, sym, ap, ◌∙◌, Bool, true, false, none, some, List, [], ◌∷◌, ◌++◌, Bytes,
  bytes_eq_iff, arith,
}
use angie_guardian.Prelude.Int.{pos, ◌≤ℤ◌, ltb_ℤ}
use angie_guardian.Memory.Ops.{matches}
use angie_guardian.Memory.View.{view, Bounded}
use angie_guardian.Memory.Reads.{compare_and_swap_refines}
use angie_guardian.Pow.Words.{done}
use angie_guardian.Pow.Proof.{sha256, ProofSpec, effective}
use angie_guardian.Pow.TokenCache.{get}
use angie_guardian.Pow.Escalation.{Names, Counters}
use angie_guardian.Pow.Manager.{Services}
use angie_guardian.Pow.Issue.{Challenge}
use angie_guardian.Pow.Redeem.{RedeemRequest, redeem_solved, leading_zero_bits, ttls_for}
use angie_guardian.Pow.Stateless.{
  Codec, SigningKey, encode_stateless, payload_of, payload_spec, issue_stateless, stateless_skew,
}
use angie_guardian.Pow.Stateless.Opens.{IsBase64, open_id-encode}
use angie_guardian.Pow.Stateless.Redeem.{
  Replica, Claimed, shared_claim, elapsed, ahead, is_fresh, remaining, admit, proved_stateless,
  take_spend, claim_shared, settle_claim, finish_stateless, solved, spent_key, spent_digest,
  redeem_stateless,
}
use angie_guardian.Pow.Stateless.Open.{Refreshes, Opened, open_id}
use angie_guardian.Pow.Stateless.Issued.{carried, carried_lem, issue_done, payload_of-sha256}

module _ {C : Type 0} (sv : Services) where
  -- A fresh challenge, for its host and address, with a nonce that meets the difficulty, is admitted.
  admit_lem :
      (a : Replica C) (now : ℕ) (req : RedeemRequest) (o : Opened)
      → o.key.retired_at ≡ none
      → effective o.spec.algorithm ≡ sha256
      → elapsed now o.payload ≤ℤ (ttls_for req o.payload.uri).1
      → ahead now o.payload ≤ℤ pos stateless_skew
      → sv.equal_fold o.payload.host req.host ≡ true
      → o.payload.ip ≡ req.ip
      → req.no_js ≡ false
      → o.payload.bits ≤ℤ pos (leading_zero_bits (sv.sum256 (o.challenge ++ req.nonce)))
      → admit sv a.manager now req o ≡ none
  unfolding admit is_fresh proved_stateless
  admit_lem a now req o live kind young near same_host same_ip js work =
      let not_stale : ltb_ℤ (ttls_for req o.payload.uri).1 (elapsed now o.payload) ≡ false =
        ground (arith, young) in
      let not_ahead : ltb_ℤ (pos stateless_skew) (ahead now o.payload) ≡ false =
        ground (arith, near) in
      let enough : ltb_ℤ (pos (leading_zero_bits (sv.sum256 (o.challenge ++ req.nonce))))
            o.payload.bits
          ≡ false =
        ground (arith, work) in
      rw
        (
          admit,
          is_fresh,
          not_stale,
          not_ahead,
          live,
          same_host,
          js,
          proved_stateless,
          kind,
          enough,
          (bytes_eq_iff o.payload.ip req.ip).1 same_ip,
        )
        refl

  -- An unspent challenge is claimed.
  take_lem :
      (a : Replica C) (now at : ℕ) (req : RedeemRequest) (o : Opened)
      → Bounded a.manager.store
      → view a.manager.store at (spent_key sv o.challenge) ≡ none
      → get a.spent (spent_digest sv o.challenge) now ≡ false
      → (take_spend sv a true now at req o).1 ≡ shared_claim
  unfolding take_spend claim_shared
  take_lem a now at req o b absent unclaimed =
      let ttl = remaining now (ttls_for req o.payload.uri).1 o.payload in
      let (found, _) =
        compare_and_swap_refines a.manager.store at (spent_key sv o.challenge) b none (1 ∷ []) ttl
          at [] (omega arith) in
      rw (take_spend, unclaimed, claim_shared, found ∙ ap (matches none) absent) refl

  -- A claimed challenge of an unchanged address ends with the token.
  settled_lem :
      (names : Names) (cs : Counters C) (req : RedeemRequest) (o : Opened) (a : Replica C)
      (c : Claimed) (token : Bytes)
      → c ≡ shared_claim
      → o.payload.ip ≡ req.ip
      → sv.mint o.payload.host req.ip req.user_agent [] o.spec (ttls_for req o.payload.uri).0
        ≡ some token
      → (settle_claim sv names cs req o (a, c)).1
        ≡ done
            (solved redeem_solved token (ttls_for req o.payload.uri).0 [] o.payload o.spec, false)
  unfolding settle_claim finish_stateless
  settled_lem names cs req o a c token won same minted =
      rw (won, settle_claim, (bytes_eq_iff o.payload.ip req.ip).1 same, finish_stateless, minted)
        refl

module _ {C : Type 0} (sv : Services) (cd : Codec) (names : Names) (cs : Counters C) where
  -- Take a SHA-256 challenge issued with no write to the store, and a replica whose current key is
  -- the issuing one, whose JSON decodes the payload and whose base64 decodes what it encoded. If
  -- the client at the address and host that the challenge was issued for answers within the
  -- challenge's time to live, by a clock behind the issuer's by thirty seconds at most, with a
  -- nonce whose hash with the challenge's text has the required leading zero bits, and no marker
  -- says that it is spent in the local cache or in the store, which is reached and whose mask is in
  -- range, then it is redeemed, for the token that is minted and the URI that the payload carries.
  pub stateless_redeems :
      (current : SigningKey) (others : List SigningKey) (now : ℕ) (random salt host ip uri : Bytes)
      (spec : ProofSpec) (allow : Bool) (ch : Challenge) (a : Replica C) (keys : Refreshes)
      (ks : List SigningKey) (later at : ℕ) (req : RedeemRequest) (token : Bytes)
      → IsBase64 cd
      → effective spec.algorithm ≡ sha256
      → issue_stateless sv cd (some (current, others)) now random salt host ip uri spec allow
        ≡ done ch
      → let p = payload_of sv host ip uri spec allow now random in
        ((text : Bytes) → cd.marshal p ≡ some text → cd.unmarshal text ≡ some p)
        → keys.at_first ≡ some (current ∷ ks)
        → current.retired_at ≡ none
        → req.challenge_id ≡ ch.id
        → req.ip ≡ ip
        → req.no_js ≡ false
        → sv.equal_fold p.host req.host ≡ true
        → elapsed later p ≤ℤ (ttls_for req p.uri).1
        → ahead later p ≤ℤ pos stateless_skew
        → spec.difficulty ≤ℤ pos (leading_zero_bits (sv.sum256 (ch.text ++ req.nonce)))
        → Bounded a.manager.store
        → view a.manager.store at (spent_key sv ch.text) ≡ none
        → get a.spent (spent_digest sv ch.text) later ≡ false
        → sv.mint p.host req.ip req.user_agent [] (carried spec) (ttls_for req p.uri).0 ≡ some token
        → (redeem_stateless sv cd names cs a keys true later at req).1
          ≡ done (solved redeem_solved token (ttls_for req p.uri).0 [] p (carried spec), false)
  unfolding redeem_stateless encode_stateless
  stateless_redeems current others now random salt host ip uri spec allow ch a keys ks later at req
        token base kind issue read first live same_id same_ip js same_host young near work bounded
        absent unclaimed minted =
      let p = payload_of sv host ip uri spec allow now random in
      let is_plain = payload_of-sha256 sv cd now random salt host ip uri spec allow kind in
      let (text, marshalled, id, solve, valid) =
        issue_done sv cd now random salt host ip uri spec allow kind current others ch issue in
      let o : Opened = record {
        payload = p;
        spec = carried spec;
        key = current;
        challenge = (encode_stateless sv cd current.secret text 1).1;
      } in
      let carries =
        ap payload_spec is_plain
        ∙ carried_lem sv cd now random salt host ip uri spec allow kind valid in
      let opens : open_id sv cd keys later req.challenge_id ≡ done o =
        ap (open_id sv cd keys later) (same_id ∙ id)
        ∙ open_id-encode sv cd base keys current ks later text p o.spec first live
            (read text marshalled) (ap (λ x. x.v =ℕ 1) is_plain) carries in
      let admits : admit sv a.manager later req o ≡ none =
        admit_lem sv a later req o live refl young near same_host
          (ap (λ x. x.ip) is_plain ∙ sym same_ip) js
          (rw (ap (λ x. x.bits) is_plain) (rw solve at work)) in
      let takes : (take_spend sv a true later at req o).1 ≡ shared_claim =
        take_lem sv a later at req o bounded
          (ap (λ t. view a.manager.store at (spent_key sv t)) (sym solve) ∙ absent)
          (ap (λ t. get a.spent (spent_digest sv t) later) (sym solve) ∙ unclaimed) in
      rw (redeem_stateless, opens, admits)
        (settled_lem sv names cs req o (take_spend sv a true later at req o).0
          (take_spend sv a true later at req o).1 token takes
          (ap (λ x. x.ip) is_plain ∙ sym same_ip) minted)
