-- ===== src/Pow/Stateless/Issued.antt =====
-- core/pow/stateless_challenge.go: what a SHA-256 issue carries.
use angie_guardian.Prelude.{
  ℕ, ◌/◌, ◌≡◌, refl, sym, ap, ◌∙◌, Bool, none, some, inl, inr, List, [], ◌∷◌, Bytes, Option-cases,
  length, ltb, if◌then◌else◌,
}
use angie_guardian.Prelude.Int.{pos}
use angie_guardian.Pow.Words.{done, hex_encode}
use angie_guardian.Pow.Proof.{unset, sha256, ProofSpec, effective, validate, validate-sha256}
use angie_guardian.Pow.Record.{zero_salt}
use angie_guardian.Pow.Manager.{Services, millisecond}
use angie_guardian.Pow.Issue.{Challenge, challenge_from_spec}
use angie_guardian.Pow.Redeem.Issued.{with_salt-sha256, text-sha256}
use angie_guardian.Pow.Stateless.{
  StatelessPayload, Codec, SigningKey, encode_stateless, payload_of, payload_spec, checked_spec,
  issue_stateless, stateless_max_uri,
}

id-sha256 :
    (id text : Bytes) (spec : ProofSpec)
    → effective spec.algorithm ≡ sha256
    → (challenge_from_spec id text spec).id ≡ id
unfolding challenge_from_spec
id-sha256 id text spec kind = rw (kind, challenge_from_spec) refl

-- The policy that a SHA-256 payload carries.
abbrev pub carried : ProofSpec → ProofSpec
carried spec = record {
  algorithm = unset;
  difficulty = spec.difficulty;
  memory_kib = 0;
  iterations = 0;
  salt = zero_salt;
}

module _ (sv : Services) (cd : Codec) (now : ℕ) (random salt host ip uri : Bytes) (spec : ProofSpec)
    (allow : Bool) (kind : effective spec.algorithm ≡ sha256) where
  abbrev p : StatelessPayload
  p = payload_of sv host ip uri spec allow now random

  abbrev plain : StatelessPayload
  plain = record {
    v = 1;
    host = sv.to_lower host;
    ip = ip;
    bits = spec.difficulty;
    uri = if ltb stateless_max_uri (length uri) then b'/' ∷ [] else uri;
    no_js = if allow then 1 else 0;
    ts = pos (now / millisecond);
    rand = hex_encode random;
    alg = unset;
    mem = 0;
    iter = 0;
    salt = [];
  }

  pub payload_of-sha256 : p ≡ plain
  unfolding payload_of
  payload_of-sha256 = rw (payload_of, kind) refl

  pub carried_lem : validate spec ≡ none → payload_spec plain ≡ done (carried spec)
  unfolding payload_spec checked_spec
  carried_lem valid =
      let same : validate (carried spec) ≡ none =
        validate-sha256 (carried spec) refl ∙ (sym (validate-sha256 spec kind) ∙ valid) in
      rw (payload_spec, checked_spec, same) refl

  pub issue_done :
      (current : SigningKey) (others : List SigningKey) (ch : Challenge)
      → issue_stateless sv cd (some (current, others)) now random salt host ip uri spec allow
        ≡ done ch
      → (text : Bytes) × (cd.marshal p ≡ some text)
        × (ch.id ≡ (encode_stateless sv cd current.secret text 1).0)
        × (ch.text ≡ (encode_stateless sv cd current.secret text 1).1)
        × (validate spec ≡ none)
  unfolding issue_stateless
  issue_done current others ch h = elim (Option-cases (validate spec)) [
    | inr (e, n) ↦ absurd (cc (rw (issue_stateless, n) at h))
    | inl y ↦ (elim (Option-cases (cd.marshal p)) [
      | inl n ↦ absurd (cc (rw (issue_stateless, y, with_salt-sha256 spec salt kind, n) at h))
      | inr (text, q) ↦
          let version : p.v ≡ 1 = ap (λ x. x.v) payload_of-sha256 in
          let made = encode_stateless sv cd current.secret text 1 in
          let same : ch ≡ challenge_from_spec made.0 made.1 spec = cc (
            rw
              (
                issue_stateless,
                y,
                with_salt-sha256 spec salt kind,
                q,
                with_salt-sha256 spec salt kind,
                version,
              )
              at h) in
          (
            text,
            q,
            ap (λ c. c.id) same ∙ id-sha256 made.0 made.1 spec kind,
            ap (λ c. c.text) same ∙ text-sha256 made.0 made.1 spec kind,
            y,
          )
    ])
  ]
