-- ===== src/Pow/Words.antt =====
-- The big-endian integers and the hexadecimal text of core/pow, and an operation that may fail.
use angie_guardian.Prelude.{
  ℕ, ◌+◌, ◌-◌, ◌*◌, ◌/◌, ◌%◌, ◌^◌, ◌<◌, ◌≡◌, refl, ◌⊎◌, inl, inr, Bool, Option, none, some, [], ◌∷◌,
  arith, Bytes, ltb, leb, ◌&&◌, if◌then◌else◌,
}
use angie_guardian.Prelude.Int.{ℤ, pos, negsuc}
use angie_guardian.Prelude.Int64.{wrap64}

-- Go's (value, error) pair.
pub data Attempt (E A : Type 0) : Type 0 where
  done : A → Attempt E A
  failed : E → Attempt E A

pub Attempt-cases :
    {E A : Type 0} (a : Attempt E A) → ((e : E) × (a ≡ failed e)) ⊎ ((x : A) × (a ≡ done x))
Attempt-cases (failed e) = inl (e, refl)
Attempt-cases (done x) = inr (x, refl)

-- binary.BigEndian.AppendUint32 and Uint32.
unfoldable pub append_uint32 : ℕ → Bytes → Bytes
append_uint32 n rest = n / 2 ^ 24 % 256 ∷ n / 2 ^ 16 % 256 ∷ n / 2 ^ 8 % 256 ∷ n % 256 ∷ rest

unfoldable pub uint32_of : Bytes → ℕ
uint32_of (a ∷ b ∷ c ∷ d ∷ rest) = a * 2 ^ 24 + b * 2 ^ 16 + c * 2 ^ 8 + d
uint32_of _ = 0

-- binary.BigEndian.AppendUint64 and Uint64.
unfoldable pub append_uint64 : ℕ → Bytes → Bytes
unfolding append_uint32
append_uint64 n rest = append_uint32 (n / 2 ^ 32) (append_uint32 (n % 2 ^ 32) rest)

unfoldable pub uint64_of : Bytes → ℕ
unfolding uint32_of
uint64_of (a ∷ b ∷ c ∷ d ∷ low) = uint32_of (a ∷ b ∷ c ∷ d ∷ []) * 2 ^ 32 + uint32_of low
uint64_of _ = 0

-- `uint64(v)` of an int64.
unfoldable pub unsigned : ℤ → ℕ
unsigned (pos n) = n % 2 ^ 64
unsigned (negsuc n) = 2 ^ 64 - 1 - n % 2 ^ 64

abbrev pub IsInt64 : ℤ → Type 0
IsInt64 (pos n) = n < 2 ^ 63
IsInt64 (negsuc n) = n < 2 ^ 63

pub wrap64-unsigned : (v : ℤ) → IsInt64 v → wrap64 (pos (unsigned v)) ≡ v
unfolding wrap64 unsigned
wrap64-unsigned (pos n) h = ground arith
wrap64-unsigned (negsuc n) h = ground arith

pub unsigned-lt : (v : ℤ) → unsigned v < 2 ^ 64
unfolding unsigned
unsigned-lt (pos n) = omega arith
unsigned-lt (negsuc n) = omega arith

pub uint32_of-append : (n : ℕ) (rest : Bytes) → n < 2 ^ 32 → uint32_of (append_uint32 n rest) ≡ n
unfolding uint32_of append_uint32
uint32_of-append n rest h = omega arith

pub uint64_of-append : (n : ℕ) (rest : Bytes) → n < 2 ^ 64 → uint64_of (append_uint64 n rest) ≡ n
unfolding uint64_of append_uint64 uint32_of append_uint32
uint64_of-append n rest h = omega arith

-- encoding/hex: two lowercase digits for each byte.
unfoldable pub digit : ℕ → ℕ
digit n = if ltb n 10 then b'0' + n else b'a' + (n - 10)

unfoldable pub hex_encode : Bytes → Bytes
unfolding digit
hex_encode [] = []
hex_encode (b ∷ bs) = digit (b / 16) ∷ digit (b % 16) ∷ hex_encode bs

abbrev between : ℕ → ℕ → ℕ → Bool
between low high c = leb low c && leb c high

-- A digit of either case.
unfoldable pub from_digit : ℕ → Option ℕ
from_digit c =
    if between b'0' b'9' c
    then some (c - b'0')
    else if between b'a' b'f' c
    then some (c - b'a' + 10)
    else if between b'A' b'F' c
    then some (c - b'A' + 10)
    else none

unfoldable pub hex_decode : Bytes → Option Bytes
unfolding from_digit
hex_decode [] = some []
hex_decode (c ∷ []) = none
hex_decode (c ∷ d ∷ rest) =
    let more = hex_decode rest in
    elim (from_digit c) [
      | none ↦ none
      | some high ↦ elim (from_digit d) [
        | none ↦ none
        | some low ↦ elim more [ none ↦ none | some bytes ↦ some ((high * 16 + low) ∷ bytes) ]
      ]
    ]
