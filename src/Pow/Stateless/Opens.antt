-- ===== src/Pow/Stateless/Opens.antt =====
-- core/pow/stateless_challenge.go: an issued id opens to what it was issued for, and redeems.
use angie_guardian.Prelude.{
  ℕ, ◌=ℕ◌, ◌≡◌, refl, true, false, none, some, List, [], ◌∷◌, ◌++◌, Bytes, bytes_eq_iff, arith, All,
}
use angie_guardian.Pow.Words.{done}
use angie_guardian.Pow.Proof.{ProofSpec}
use angie_guardian.Pow.Manager.{Services}
use angie_guardian.Pow.Stateless.{
  StatelessPayload, Codec, SigningKey, cut, cut_prefix, version_of, match_secret, encode_stateless,
  stateless_mac, stateless_solve, payload_spec, auth_domain_v1, solve_domain_v1,
}
use angie_guardian.Pow.Stateless.Open.{Refreshes, unpack, matched_key, opened_with, open_id}

-- What base64 is relied on for: it decodes what it encoded, and its alphabet has no dot.
pub record IsBase64 (cd : Codec) : Type 0 where
  pub decodes : (bs : Bytes) → cd.b64_decode (cd.b64_encode bs) ≡ some bs
  pub dotless : (bs : Bytes) → All (λ c. (c =ℕ b'.') ≡ false) (cd.b64_encode bs)

cut-append :
    (c : ℕ) (before after : Bytes)
    → All (λ b. (b =ℕ c) ≡ false) before
    → cut c (before ++ (c ∷ after)) ≡ some (before, after)
unfolding cut
cut-append c [] after h = ground arith
cut-append c (b ∷ bs) after h = rw (h.0, cut-append c bs after h.1) refl

module _ (sv : Services) (cd : Codec) (base : IsBase64 cd) where
  abbrev mac : Bytes → Bytes → Bytes
  mac secret text = stateless_mac sv secret text auth_domain_v1

  unpack-encode :
      (secret text : Bytes)
      → unpack cd (encode_stateless sv cd secret text 1).0 ≡ some (1, text, mac secret text)
  unfolding unpack encode_stateless version_of cut_prefix
  unpack-encode secret text =
      rw
        (
          unpack,
          cut-append b'.' (cd.b64_encode text) (cd.b64_encode (mac secret text))
              (base.dotless text),
          base.decodes text,
          base.decodes (mac secret text),
        )
        refl

  match_first :
      (k : SigningKey) (ks : List SigningKey) (now : ℕ) (text : Bytes)
      → k.retired_at ≡ none
      → match_secret sv (k ∷ ks) now (mac k.secret text) text auth_domain_v1 ≡ some k
  unfolding match_secret
  match_first k ks now text live =
      rw (live, match_secret, (bytes_eq_iff (mac k.secret text) (mac k.secret text)).1 refl) refl

  -- The id that a SHA-256 payload is given opens with its key.
  pub open_id-encode :
      (keys : Refreshes) (k : SigningKey) (ks : List SigningKey) (now : ℕ) (text : Bytes)
      (p : StatelessPayload) (spec : ProofSpec)
      → keys.at_first ≡ some (k ∷ ks)
      → k.retired_at ≡ none
      → cd.unmarshal text ≡ some p
      → (p.v =ℕ 1) ≡ true
      → payload_spec p ≡ done spec
      → open_id sv cd keys now (encode_stateless sv cd k.secret text 1).0
        ≡ done (record {
          payload = p;
          spec = spec;
          key = k;
          challenge = stateless_solve sv k.secret text solve_domain_v1;
        })
  unfolding open_id matched_key opened_with
  open_id-encode keys k ks now text p spec current live read version valid =
      rw
        (
          open_id,
          unpack-encode k.secret text,
          matched_key,
          current,
          match_first k ks now text live,
          opened_with,
          read,
          version,
          valid,
        )
        refl
