-- ===== src/Pow/Stateless/Open.antt =====
-- core/pow/stateless_challenge.go: the opening of a stateless id. A refresh of the keys is its answer
-- and the keys that it leaves.
use angie_guardian.Prelude.{ℕ, not, Option, none, some, List, Bytes, ◌=ℕ◌, if◌then◌else◌}
use angie_guardian.Pow.Words.{Attempt, done, failed}
use angie_guardian.Pow.Proof.{ProofSpec}
use angie_guardian.Pow.Manager.{Services, PowError, challenge_unknown, refresh_failed}
use angie_guardian.Pow.Stateless.{
  StatelessPayload, Codec, SigningKey, version_of, cut, match_secret, stateless_solve, auth_domain,
  solve_domain, payload_spec,
}

-- What the two refreshes do: the keys after the first, or none when it fails; after a miss none when
-- it fails, and the keys where it read any.
pub record Refreshes : Type 0 where
  pub at_first : Option (List SigningKey)
  pub after_miss : Option (Option (List SigningKey))

-- An authenticated id: the version it was read as, the payload, the key and the solve text.
pub record Opened : Type 0 where
  pub payload : StatelessPayload
  pub spec : ProofSpec
  pub key : SigningKey
  pub challenge : Bytes

-- The version, the payload's text and its MAC.
unfoldable pub unpack : Codec → Bytes → Option (ℕ × Bytes × Bytes)
unfolding version_of cut
unpack cd id = elim (version_of id) [
  | none ↦ none
  | some (version, rest) ↦ (elim (cut b'.' rest) [
    | none ↦ none
    | some (payload, mac) ↦ (elim (cd.b64_decode payload) [
      | none ↦ none
      | some text ↦ (elim (cd.b64_decode mac) [
        | none ↦ none
        | some got ↦ some (version, text, got)
      ])
    ])
  ])
]

module _ (sv : Services) where
  unfoldable pub opened_with : Codec → ℕ → Bytes → SigningKey → Attempt PowError Opened
  opened_with cd version text key = elim (cd.unmarshal text) [
    | none ↦ failed challenge_unknown
    | some p ↦ if not (p.v =ℕ version) then failed challenge_unknown else elim (payload_spec p) [
      | failed e ↦ failed e
      | done spec ↦ done (record {
        payload = p;
        spec = spec;
        key = key;
        challenge = stateless_solve sv key.secret text (solve_domain version);
      })
    ]
  ]

  -- The key after a miss of the first match.
  unfoldable pub matched_again : Refreshes → ℕ → Bytes → Bytes → Bytes → Attempt PowError SigningKey
  unfolding match_secret
  matched_again keys now got text domain = elim keys.after_miss [
    | none ↦ failed refresh_failed
    | some none ↦ failed challenge_unknown
    | some (some ks) ↦ (elim (match_secret sv ks now got text domain) [
      | none ↦ failed challenge_unknown
      | some k ↦ done k
    ])
  ]

  unfoldable pub matched_key : Refreshes → ℕ → Bytes → Bytes → Bytes → Attempt PowError SigningKey
  unfolding match_secret matched_again
  matched_key keys now got text domain = elim keys.at_first [
    | none ↦ failed refresh_failed
    | some ks ↦ (elim (match_secret sv ks now got text domain) [
      | some k ↦ done k
      | none ↦ matched_again keys now got text domain
    ])
  ]

  -- The id of a request, authenticated.
  unfoldable pub open_id : Codec → Refreshes → ℕ → Bytes → Attempt PowError Opened
  unfolding unpack matched_key opened_with
  open_id cd keys now id = elim (unpack cd id) [
    | none ↦ failed challenge_unknown
    | some (version, text, got) ↦ (elim (matched_key keys now got text (auth_domain version)) [
      | failed e ↦ failed e
      | done key ↦ opened_with cd version text key
    ])
  ]
