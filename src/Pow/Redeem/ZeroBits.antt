-- ===== src/Pow/Redeem/ZeroBits.antt =====
-- core/pow/challenge.go: `leadingZeroBits` against the bits of the hash.
use angie_guardian.Prelude.{
  ℕ, suc, ◌/◌, ◌%◌, ◌<◌, ◌≡◌, refl, sym, false, inl, inr, List, [], ◌∷◌, ◌++◌, arith, Bytes, leb,
  not, =ℕ_iff, ◌=ℕ◌, if◌then◌else◌, Bool-cases, All,
}
use angie_guardian.Pow.Redeem.{leading_zeros8, leading_zero_bits}

-- The bits of a byte, the highest first.
abbrev pub bits_of : ℕ → List ℕ
bits_of b =
    b / 128 % 2
    ∷ b / 64 % 2
    ∷ b / 32 % 2
    ∷ b / 16 % 2
    ∷ b / 8 % 2
    ∷ b / 4 % 2
    ∷ b / 2 % 2
    ∷ b % 2
    ∷ []

abbrev pub bits : Bytes → List ℕ
bits [] = []
bits (b ∷ bs) = bits_of b ++ bits bs

-- The zeros before the first one.
abbrev pub zeros : List ℕ → ℕ
zeros [] = 0
zeros (b ∷ bs) = if b =ℕ 0 then suc (zeros bs) else 0

bit7 : (b : ℕ) → b < 256 → (b / 128 % 2 =ℕ 0) ≡ not (leb 128 b)
bit7 b h = ground arith

bit6 : (b : ℕ) → leb 128 b ≡ false → (b / 64 % 2 =ℕ 0) ≡ not (leb 64 b)
bit6 b h = ground arith

bit5 : (b : ℕ) → leb 64 b ≡ false → (b / 32 % 2 =ℕ 0) ≡ not (leb 32 b)
bit5 b h = ground arith

bit4 : (b : ℕ) → leb 32 b ≡ false → (b / 16 % 2 =ℕ 0) ≡ not (leb 16 b)
bit4 b h = ground arith

bit3 : (b : ℕ) → leb 16 b ≡ false → (b / 8 % 2 =ℕ 0) ≡ not (leb 8 b)
bit3 b h = ground arith

bit2 : (b : ℕ) → leb 8 b ≡ false → (b / 4 % 2 =ℕ 0) ≡ not (leb 4 b)
bit2 b h = ground arith

bit1 : (b : ℕ) → leb 4 b ≡ false → (b / 2 % 2 =ℕ 0) ≡ not (leb 2 b)
bit1 b h = ground arith

bit0 : (b : ℕ) → leb 2 b ≡ false → (b % 2 =ℕ 0) ≡ not (leb 1 b)
bit0 b h = ground arith

byte_zeros :
    (b : ℕ) (rest : List ℕ)
    → b < 256
    → (b =ℕ 0) ≡ false
    → zeros (bits_of b ++ rest) ≡ leading_zeros8 b
unfolding leading_zeros8
byte_zeros b rest h n = elim (Bool-cases (leb 128 b)) [
  | inl y ↦ rw (bit7 b h, y, leading_zeros8) refl
  | inr m128 ↦ (elim (Bool-cases (leb 64 b)) [
    | inl y ↦ rw (bit7 b h, m128, bit6 b m128, y, leading_zeros8) refl
    | inr m64 ↦ (elim (Bool-cases (leb 32 b)) [
      | inl y ↦ rw (bit7 b h, m128, bit6 b m128, m64, bit5 b m64, y, leading_zeros8) refl
      | inr m32 ↦ (elim (Bool-cases (leb 16 b)) [
        | inl y ↦
            rw (bit7 b h, m128, bit6 b m128, m64, bit5 b m64, m32, bit4 b m32, y, leading_zeros8)
              refl
        | inr m16 ↦ (elim (Bool-cases (leb 8 b)) [
          | inl y ↦
              rw
                (
                  bit7 b h,
                  m128,
                  bit6 b m128,
                  m64,
                  bit5 b m64,
                  m32,
                  bit4 b m32,
                  m16,
                  bit3 b m16,
                  y,
                  leading_zeros8,
                )
                refl
          | inr m8 ↦ (elim (Bool-cases (leb 4 b)) [
            | inl y ↦
                rw
                  (
                    bit7 b h,
                    m128,
                    bit6 b m128,
                    m64,
                    bit5 b m64,
                    m32,
                    bit4 b m32,
                    m16,
                    bit3 b m16,
                    m8,
                    bit2 b m8,
                    y,
                    leading_zeros8,
                  )
                  refl
            | inr m4 ↦ (elim (Bool-cases (leb 2 b)) [
              | inl y ↦
                  rw
                    (
                      bit7 b h,
                      m128,
                      bit6 b m128,
                      m64,
                      bit5 b m64,
                      m32,
                      bit4 b m32,
                      m16,
                      bit3 b m16,
                      m8,
                      bit2 b m8,
                      m4,
                      bit1 b m4,
                      y,
                      leading_zeros8,
                    )
                    refl
              | inr m2 ↦ (elim (Bool-cases (leb 1 b)) [
                | inl y ↦
                    rw
                      (
                        bit7 b h,
                        m128,
                        bit6 b m128,
                        m64,
                        bit5 b m64,
                        m32,
                        bit4 b m32,
                        m16,
                        bit3 b m16,
                        m8,
                        bit2 b m8,
                        m4,
                        bit1 b m4,
                        m2,
                        bit0 b m2,
                        y,
                        leading_zeros8,
                      )
                      refl
                | inr m1 ↦ (absurd (ground (arith, h, n, m1)))
              ])
            ])
          ])
        ])
      ])
    ])
  ])
]

-- For bytes, the count is the number of zeros before the first one in the bits of the hash, the
-- highest bit of each byte first.
pub leading_zero_bits-zeros :
    (sum : Bytes) → All (λ b. b < 256) sum → leading_zero_bits sum ≡ zeros (bits sum)
unfolding leading_zero_bits
leading_zero_bits-zeros [] h = refl
leading_zero_bits-zeros (b ∷ bs) h = elim (Bool-cases (b =ℕ 0)) [
  | inl y ↦ rw ((=ℕ_iff b 0).0 y, leading_zero_bits) (omega (arith, leading_zero_bits-zeros bs h.1))
  | inr n ↦ rw (n, leading_zero_bits) (sym (byte_zeros b (bits bs) h.0 n))
]
