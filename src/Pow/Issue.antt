-- ===== src/Pow/Issue.antt =====
-- core/pow/challenge.go: the issue of a stored challenge. The clock and the random draws are arguments.
use angie_guardian.Prelude.{ℕ, ◌/◌, Bool, none, some, [], ◌∷◌, ◌++◌, Bytes, if◌then◌else◌}
use angie_guardian.Prelude.Int.{ℤ, pos}
use angie_guardian.Store.{second}
use angie_guardian.Memory.Ops.{compare_and_swap}
use angie_guardian.Pow.Words.{Attempt, done, failed, hex_encode}
use angie_guardian.Pow.Proof.{Algorithm, argon2id, ProofSpec, effective, validate}
use angie_guardian.Pow.Record.{Record, issued, encode}
use angie_guardian.Pow.Manager.{
  Services, Manager, PowError, id_collision, invalid_spec, invalid_record, challenge_key,
  millisecond,
}

pub record Challenge : Type 0 where
  pub id : Bytes
  pub text : Bytes
  pub algorithm : Algorithm
  pub difficulty : ℤ
  pub memory_kib : ℕ
  pub iterations : ℕ
  pub salt : Bytes

unfoldable pub challenge_from_spec : Bytes → Bytes → ProofSpec → Challenge
challenge_from_spec id text spec =
    let plain : Challenge = record {
      id = id;
      text = text;
      algorithm = effective spec.algorithm;
      difficulty = spec.difficulty;
      memory_kib = 0;
      iterations = 0;
      salt = [];
    } in
    elim (effective spec.algorithm) [
      | argon2id ↦ record plain {
        difficulty = pos 0;
        memory_kib = spec.memory_kib;
        iterations = spec.iterations;
        salt = hex_encode spec.salt;
      }
      | _ ↦ plain
    ]

-- The random id, and the random salt that a memory-hard policy is given.
pub record Draws : Type 0 where
  pub id : Bytes
  pub salt : Bytes

abbrev pub with_salt : ProofSpec → Bytes → ProofSpec
with_salt spec salt = elim (effective spec.algorithm) [
  | argon2id ↦ record spec { salt = salt }
  | _ ↦ spec
]

module _ {C : Type 0} (sv : Services) where
  -- The HMAC of host, address, hour and id, with NUL bytes between them.
  unfoldable pub digest_of : Manager C → ℕ → Bytes → Bytes → Bytes → Bytes
  digest_of m now host ip id =
      let bucket = sv.format_int (pos (now / second / 3600)) in
      sv.hmac m.secret (host ++ (0 ∷ ip ++ (0 ∷ bucket ++ (0 ∷ id))))

  unfoldable pub issued_record :
      Manager C → ℕ → Draws → Bytes → Bytes → Bytes → ProofSpec → Bool → Record
  unfolding digest_of
  issued_record m now draws host ip uri spec allow_no_js = record {
    state = issued;
    host = sv.to_lower host;
    ip = ip;
    challenge_digest = digest_of m now (sv.to_lower host) ip draws.id;
    algorithm = effective spec.algorithm;
    difficulty = spec.difficulty;
    memory_kib = spec.memory_kib;
    iterations = spec.iterations;
    salt = spec.salt;
    uri = uri;
    no_js = allow_no_js;
    issued_at = pos (now / millisecond);
  }

  -- `IssueWithSpec`
  unfoldable pub issue_with_spec :
      Manager C
      → ℕ
      → Draws
      → Bytes
      → Bytes
      → Bytes
      → ProofSpec
      → ℤ
      → Bool
      → Manager C × Attempt PowError Challenge
  unfolding issued_record challenge_from_spec
  issue_with_spec m now draws host ip uri spec ttl allow_no_js = elim (validate spec) [
    | some refused ↦ (m, failed (invalid_spec refused))
    | none ↦
        let salted = with_salt spec draws.salt in
        let r = issued_record m now draws host ip uri salted allow_no_js in
        let text = hex_encode r.challenge_digest in
        elim (encode r) [
          | failed e ↦ (m, failed (invalid_record e))
          | done raw ↦
              let (store, created) =
                compare_and_swap m.store now (challenge_key draws.id) none raw ttl in
              let after = record m { store = store } in
              if created
              then (after, done (challenge_from_spec draws.id text salted))
              else (after, failed id_collision)
        ]
  ]
