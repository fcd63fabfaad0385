-- ===== src/Pow/Stateless.antt =====
-- core/pow/stateless_challenge.go: a challenge whose id carries its own authenticated state, and its
-- issue, which writes nothing to the store.
pub mod Open
pub mod Redeem
pub mod Issued
pub mod Opens
pub mod Redeems
pub mod Window
pub mod Once
pub mod Down
use angie_guardian.Prelude.{
  ℕ, suc, ◌+◌, ◌*◌, ◌/◌, Bool, true, false, not, Option, none, some, List, [], ◌∷◌, ◌++◌, Bytes,
  bytes_eq, ltb, ◌=ℕ◌, ◌&&◌, ◌||◌, if◌then◌else◌, length, take,
}
use angie_guardian.Prelude.Int.{ℤ, pos}
use angie_guardian.Store.{second}
use angie_guardian.Pow.Words.{Attempt, done, failed, hex_encode, hex_decode}
use angie_guardian.Pow.Proof.{
  Algorithm, unset, argon2id, ProofSpec, effective, validate, argon2_salt_size,
}
use angie_guardian.Pow.Record.{zero_salt}
use angie_guardian.Pow.Manager.{
  Services, PowError, challenge_unknown, invalid_spec, refresh_failed, marshal_failed, millisecond,
}
use angie_guardian.Pow.Issue.{Challenge, challenge_from_spec, with_salt}

-- "s1." and "s2."
abbrev pub stateless_prefix : Bytes
stateless_prefix = b's' ∷ b'1' ∷ b'.' ∷ []

abbrev pub stateless_prefix_v2 : Bytes
stateless_prefix_v2 = b's' ∷ b'2' ∷ b'.' ∷ []

-- "guardian-stateless-v1", "guardian-stateless-v2" and the two of the solve text, each with a NUL.
abbrev pub auth_domain_v1 : Bytes
auth_domain_v1 =
    b'g' ∷ b'u' ∷ b'a' ∷ b'r' ∷ b'd' ∷ b'i' ∷ b'a' ∷ b'n' ∷ b'-' ∷ b's' ∷ b't' ∷ b'a' ∷ b't' ∷ b'e'
    ∷ b'l' ∷ b'e' ∷ b's' ∷ b's' ∷ b'-' ∷ b'v' ∷ b'1' ∷ 0 ∷ []

abbrev pub auth_domain_v2 : Bytes
auth_domain_v2 =
    b'g' ∷ b'u' ∷ b'a' ∷ b'r' ∷ b'd' ∷ b'i' ∷ b'a' ∷ b'n' ∷ b'-' ∷ b's' ∷ b't' ∷ b'a' ∷ b't' ∷ b'e'
    ∷ b'l' ∷ b'e' ∷ b's' ∷ b's' ∷ b'-' ∷ b'v' ∷ b'2' ∷ 0 ∷ []

abbrev pub solve_domain_v1 : Bytes
solve_domain_v1 =
    b'g' ∷ b'u' ∷ b'a' ∷ b'r' ∷ b'd' ∷ b'i' ∷ b'a' ∷ b'n' ∷ b'-' ∷ b's' ∷ b't' ∷ b'a' ∷ b't' ∷ b'e'
    ∷ b'l' ∷ b'e' ∷ b's' ∷ b's' ∷ b'-' ∷ b'c' ∷ b'h' ∷ b'a' ∷ b'l' ∷ b'-' ∷ b'v' ∷ b'1' ∷ 0 ∷ []

abbrev pub solve_domain_v2 : Bytes
solve_domain_v2 =
    b'g' ∷ b'u' ∷ b'a' ∷ b'r' ∷ b'd' ∷ b'i' ∷ b'a' ∷ b'n' ∷ b'-' ∷ b's' ∷ b't' ∷ b'a' ∷ b't' ∷ b'e'
    ∷ b'l' ∷ b'e' ∷ b's' ∷ b's' ∷ b'-' ∷ b'c' ∷ b'h' ∷ b'a' ∷ b'l' ∷ b'-' ∷ b'v' ∷ b'2' ∷ 0 ∷ []

abbrev pub auth_domain : ℕ → Bytes
auth_domain version = if version =ℕ 1 then auth_domain_v1 else auth_domain_v2

abbrev pub solve_domain : ℕ → Bytes
solve_domain version = if version =ℕ 1 then solve_domain_v1 else solve_domain_v2

abbrev pub prefix_of : ℕ → Bytes
prefix_of version = if version =ℕ 1 then stateless_prefix else stateless_prefix_v2

abbrev pub stateless_max_uri : ℕ
stateless_max_uri = 512

abbrev pub stateless_skew : ℕ
stateless_skew = 30 * second

abbrev pub key_refresh_interval : ℕ
key_refresh_interval = 250 * millisecond

abbrev pub stateless_retirement_grace : ℕ
stateless_retirement_grace = stateless_skew + key_refresh_interval + second

abbrev pub max_accepted_token_lifetime : ℕ
max_accepted_token_lifetime = 30 * 24 * 3600 * second

pub record StatelessPayload : Type 0 where
  pub v : ℕ
  pub host : Bytes
  pub ip : Bytes
  pub bits : ℤ
  pub uri : Bytes
  pub no_js : ℕ
  pub ts : ℤ
  pub rand : Bytes
  pub alg : Algorithm
  pub mem : ℕ
  pub iter : ℕ
  pub salt : Bytes

-- encoding/json of a payload, with unknown members rejected, and base64.RawURLEncoding.
pub record Codec : Type 0 where
  pub marshal : StatelessPayload → Option Bytes
  pub unmarshal : Bytes → Option StatelessPayload
  pub b64_encode : Bytes → Bytes
  pub b64_decode : Bytes → Option Bytes

abbrev payload_salt : StatelessPayload → Option Bytes
payload_salt p = if not (length p.salt =ℕ 2 * argon2_salt_size) then none else hex_decode p.salt

unfoldable pub checked_spec : ProofSpec → Attempt PowError ProofSpec
checked_spec spec = elim (validate spec) [ some e ↦ failed challenge_unknown | none ↦ done spec ]

-- `statelessPayload.proofSpec`
unfoldable pub payload_spec : StatelessPayload → Attempt PowError ProofSpec
unfolding checked_spec
payload_spec p =
    let spec : ProofSpec = record {
      algorithm = p.alg;
      difficulty = p.bits;
      memory_kib = p.mem;
      iterations = p.iter;
      salt = zero_salt;
    } in
    elim (effective p.alg) [
      | argon2id ↦ (elim (payload_salt p) [
        | none ↦ failed challenge_unknown
        | some salt ↦ checked_spec (record spec { salt = salt })
      ])
      | _ ↦ checked_spec spec
    ]

-- A signing key: its HMAC secret, and when it was retired.
pub record SigningKey : Type 0 where
  pub secret : Bytes
  pub retired_at : Option ℕ

-- strings.Cut at a byte, and strings.CutPrefix.
unfoldable pub cut : ℕ → Bytes → Option (Bytes × Bytes)
cut c [] = none
cut c (b ∷ bs) =
    let rest = cut c bs in
    if b =ℕ c
    then some ([], bs)
    else elim rest [ none ↦ none | some (before, after) ↦ some (b ∷ before, after) ]

unfoldable pub cut_prefix : Bytes → Bytes → Option Bytes
cut_prefix [] s = some s
cut_prefix (c ∷ cs) [] = none
cut_prefix (c ∷ cs) (b ∷ bs) = let rest = cut_prefix cs bs in if b =ℕ c then rest else none

-- The version of an id, and what stands after its prefix.
unfoldable pub version_of : Bytes → Option (ℕ × Bytes)
unfolding cut_prefix
version_of id = elim (cut_prefix stateless_prefix id) [
  | some rest ↦ some (1, rest)
  | none ↦ (elim (cut_prefix stateless_prefix_v2 id) [ some rest ↦ some (2, rest) | none ↦ none ])
]

unfoldable pub is_stateless_id : Bytes → Bool
unfolding version_of
is_stateless_id id = elim (version_of id) [ none ↦ false | some _ ↦ true ]

module _ (sv : Services) where
  unfoldable pub stateless_mac : Bytes → Bytes → Bytes → Bytes
  stateless_mac secret payload domain = take 16 (sv.hmac secret (domain ++ payload))

  unfoldable pub stateless_solve : Bytes → Bytes → Bytes → Bytes
  stateless_solve secret payload domain = hex_encode (sv.hmac secret (domain ++ payload))

  -- A key whose last tokens have run out is passed over.
  abbrev pub outlived : SigningKey → ℕ → Bool
  outlived k now = elim k.retired_at [
    | none ↦ false
    | some t ↦ ltb (t + max_accepted_token_lifetime) now
  ]

  unfoldable pub match_secret : List SigningKey → ℕ → Bytes → Bytes → Bytes → Option SigningKey
  unfolding stateless_mac
  match_secret [] now got payload domain = none
  match_secret (k ∷ ks) now got payload domain =
      let rest = match_secret ks now got payload domain in
      if not (outlived k now) && bytes_eq got (stateless_mac k.secret payload domain)
      then some k
      else rest

  -- The id and the solve text of a marshalled payload.
  unfoldable pub encode_stateless : Codec → Bytes → Bytes → ℕ → Bytes × Bytes
  unfolding stateless_mac stateless_solve
  encode_stateless cd secret payload version = (
    prefix_of version
        ++ (cd.b64_encode payload
            ++ (b'.' ∷ cd.b64_encode (stateless_mac secret payload (auth_domain version)))),
    stateless_solve secret payload (solve_domain version),
  )

  unfoldable pub payload_of :
      Bytes → Bytes → Bytes → ProofSpec → Bool → ℕ → Bytes → StatelessPayload
  payload_of host ip uri spec allow_no_js now random =
      let p : StatelessPayload = record {
        v = 1;
        host = sv.to_lower host;
        ip = ip;
        bits = spec.difficulty;
        uri = if ltb stateless_max_uri (length uri) then b'/' ∷ [] else uri;
        no_js = if allow_no_js then 1 else 0;
        ts = pos (now / millisecond);
        rand = hex_encode random;
        alg = unset;
        mem = 0;
        iter = 0;
        salt = [];
      } in
      elim (effective spec.algorithm) [
        | argon2id ↦ record p {
          v = 2;
          alg = argon2id;
          mem = spec.memory_kib;
          iter = spec.iterations;
          salt = hex_encode spec.salt;
        }
        | _ ↦ p
      ]

  -- `IssueStatelessWithSpec`: the keys are those that the refresh leaves, the current one first, or
  -- none when it fails; the random bytes and salt are arguments.
  unfoldable pub issue_stateless :
      Codec
      → Option (SigningKey × List SigningKey)
      → ℕ
      → Bytes
      → Bytes
      → Bytes
      → Bytes
      → Bytes
      → ProofSpec
      → Bool
      → Attempt PowError Challenge
  unfolding encode_stateless payload_of challenge_from_spec
  issue_stateless cd refreshed now random salt host ip uri spec allow_no_js = elim (validate spec) [
    | some refused ↦ failed (invalid_spec refused)
    | none ↦ (elim refreshed [
      | none ↦ failed refresh_failed
      | some (current, others) ↦
          let salted = with_salt spec salt in
          let p = payload_of host ip uri salted allow_no_js now random in
          (elim (cd.marshal p) [
            | none ↦ failed marshal_failed
            | some text ↦
                let made = encode_stateless cd current.secret text p.v in
                done (challenge_from_spec made.0 made.1 salted)
          ])
    ])
  ]
