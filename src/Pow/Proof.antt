-- ===== src/Pow/Proof.antt =====
-- core/pow/proof.go: the work that a challenge asks for, and the check of a memory-hard proof.
use angie_guardian.Prelude.{
  ℕ, ◌*◌, Bool, false, not, ◌||◌, ◌≡◌, refl, ◌⊎◌, inl, inr, Option, none, some, Bytes, bytes_eq,
  ltb, ◌=ℕ◌, if◌then◌else◌, length,
}
use angie_guardian.Prelude.Int.{ℤ, pos, ltb_ℤ}
use angie_guardian.Pow.Words.{hex_decode}

-- The Go strings "", "sha256" and "argon2id", and any other.
pub data Algorithm : Type 0 where
  unset sha256 argon2id : Algorithm
  unknown : Bytes → Algorithm

pub record ProofSpec : Type 0 where
  pub algorithm : Algorithm
  pub difficulty : ℤ
  pub memory_kib : ℕ
  pub iterations : ℕ
  pub salt : Bytes

abbrev pub argon2_salt_size : ℕ
argon2_salt_size = 16

abbrev pub argon2_proof_size : ℕ
argon2_proof_size = 32

-- `ProofSpec.algorithm`: the empty string stands for SHA-256.
abbrev pub effective : Algorithm → Algorithm
effective unset = sha256
effective sha256 = sha256
effective argon2id = argon2id
effective (unknown name) = unknown name

pub Algorithm-cases :
    (a : Algorithm)
    → (effective a ≡ sha256) ⊎ ((a ≡ argon2id) ⊎ ((name : Bytes) × (a ≡ unknown name)))
Algorithm-cases unset = inl refl
Algorithm-cases sha256 = inl refl
Algorithm-cases argon2id = inr (inl refl)
Algorithm-cases (unknown name) = inr (inr (name, refl))

pub data SpecError : Type 0 where
  difficulty_outside memory_outside iterations_outside unknown_algorithm : SpecError

-- The error, or none.
unfoldable pub validate : ProofSpec → Option SpecError
validate s = elim (effective s.algorithm) [
  | unset ↦ some unknown_algorithm
  | sha256 ↦
      if ltb_ℤ s.difficulty (pos 0) || ltb_ℤ (pos 32) s.difficulty
      then some difficulty_outside
      else none
  | argon2id ↦
      if ltb s.memory_kib (8 * 1024) || ltb (32 * 1024) s.memory_kib
      then some memory_outside
      else if ltb s.iterations 1 || ltb 3 s.iterations
      then some iterations_outside
      else none
  | unknown name ↦ some unknown_algorithm
]

-- golang.org/x/crypto/argon2: the password, the salt, the iterations and the memory in KiB, with
-- one thread and 32 bytes of key.
abbrev pub IdKey : Type 0
IdKey = Bytes → Bytes → ℕ → ℕ → Bytes

unfoldable pub verify_argon2id : IdKey → Bytes → ProofSpec → Bytes → Bool
verify_argon2id id_key challenge spec proof_hex =
    if not (length proof_hex =ℕ 2 * argon2_proof_size) then false else elim (hex_decode proof_hex) [
      | none ↦ false
      | some got ↦ bytes_eq got (id_key challenge spec.salt spec.iterations spec.memory_kib)
    ]

pub validate-sha256 :
    (s : ProofSpec)
    → effective s.algorithm ≡ sha256
    → validate s ≡ (
        if ltb_ℤ s.difficulty (pos 0) || ltb_ℤ (pos 32) s.difficulty
        then some difficulty_outside
        else none)
unfolding validate
validate-sha256 s h = rw (h, validate) refl

pub validate-argon2id :
    (s : ProofSpec)
    → s.algorithm ≡ argon2id
    → validate s ≡ (
        if ltb s.memory_kib (8 * 1024) || ltb (32 * 1024) s.memory_kib
        then some memory_outside
        else if ltb s.iterations 1 || ltb 3 s.iterations
        then some iterations_outside
        else none)
unfolding validate
validate-argon2id s h = rw h refl

pub validate-unknown :
    (s : ProofSpec) (name : Bytes)
    → s.algorithm ≡ unknown name
    → validate s ≡ some unknown_algorithm
unfolding validate
validate-unknown s name h = rw h refl
