-- ===== src/Pow/Manager.antt =====
-- core/pow/challenge.go: the state of the manager of challenges, and what it calls.
use angie_guardian.Prelude.{ℕ, ◌≡◌, Bool, Option, [], ◌∷◌, ◌++◌, Bytes, length}
use angie_guardian.Prelude.Int.{ℤ}
use angie_guardian.Memory.State.{ShardedMemory}
use angie_guardian.Pow.Proof.{ProofSpec, SpecError, IdKey}
use angie_guardian.Pow.Record.{RecordError}

-- What the manager calls outside this model: uuid.Parse with the canonical text of the result,
-- strings.EqualFold and ToLower, the hashes, and the signing of a token (host, address, user agent,
-- challenge id, policy and lifetime).
pub record Services : Type 0 where
  pub uuid_text : Bytes → Option Bytes
  pub equal_fold : Bytes → Bytes → Bool
  pub to_lower : Bytes → Bytes
  pub format_int : ℤ → Bytes
  pub sum256 : Bytes → Bytes
  pub hmac : Bytes → Bytes → Bytes
  pub hmac_size : (secret message : Bytes) → length (hmac secret message) ≡ 32
  pub id_key : IdKey
  pub mint : Bytes → Bytes → Bytes → Bytes → ProofSpec → ℤ → Option Bytes

pub record Manager (C : Type 0) : Type 0 where
  pub store : ShardedMemory
  pub counters : C
  pub secret : Bytes
  pub no_js_min_delay : ℤ

pub data PowError : Type 0 where
  challenge_unknown bad_solution host_mismatch client_address_mismatch : PowError
  too_fast no_js_disabled id_collision mint_failed : PowError
  refresh_failed marshal_failed store_failed : PowError
  invalid_spec : SpecError → PowError
  invalid_record : RecordError → PowError
  -- An error of the caller's rate limiter.
  limited : Bytes → PowError

-- "challenge:"
abbrev pub challenge_key_prefix : Bytes
challenge_key_prefix = b'c' ∷ b'h' ∷ b'a' ∷ b'l' ∷ b'l' ∷ b'e' ∷ b'n' ∷ b'g' ∷ b'e' ∷ b':' ∷ []

unfoldable pub challenge_key : Bytes → Bytes
challenge_key id = challenge_key_prefix ++ id

abbrev pub millisecond : ℕ
millisecond = 1_000_000
