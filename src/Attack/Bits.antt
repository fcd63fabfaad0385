-- ===== src/Attack/Bits.antt =====
-- `EffectiveBits` of core/attackmode/attackmode.go: the raise of a domain's difficulty window.
use angie_guardian.Prelude.{inl, inr, arith, Bool-cases}
use angie_guardian.Prelude.Int.{ℤ, pos, ◌+ℤ◌, ◌≤ℤ◌, min_ℤ, max_ℤ, +ℤ_parts}
use angie_guardian.Attack.State.{State, int_eq}
use angie_guardian.Attack.Machine.{effective_bits}

-- The window for any raised floor x and raised ceiling y, under the cap c.
floor_lem : (b c x : ℤ) → b ≤ℤ max_ℤ (min_ℤ x c) b
floor_lem b c x = ground arith

below_lem : (x y : ℤ) → y ≤ℤ max_ℤ x y
below_lem x y = ground arith

ceiling_lem : (b m c x y : ℤ) → m ≤ℤ c → m ≤ℤ y → (m ≤ℤ max_ℤ (min_ℤ y c) (max_ℤ (min_ℤ x c) b))
ceiling_lem b m c x y h k = ground arith

cap_lem : (b c x y : ℤ) → b ≤ℤ c → max_ℤ (min_ℤ y c) (max_ℤ (min_ℤ x c) b) ≤ℤ c
cap_lem b c x y h = ground arith

ceil_max : (c m : ℤ) → m ≤ℤ max_ℤ c m
ceil_max c m = ground arith

trans_le : (a b c : ℤ) → a ≤ℤ b → b ≤ℤ c → a ≤ℤ c
trans_le a b c h k = omega arith

grows : (m e : ℤ) → pos 0 ≤ℤ e → m ≤ℤ m +ℤ e
grows m e h = omega (arith, +ℤ_parts m e)

-- The raised floor is never under the domain's own base, which is what the token check demands; for
-- any raise, cap and window, negative ones and an inverted window included.
pub effective_bits-base :
    (st : State) (base_bits max_bits cap_bits : ℤ)
    → base_bits ≤ℤ (effective_bits st base_bits max_bits cap_bits).0
unfolding effective_bits
effective_bits-base st base_bits max_bits cap_bits =
    elim (Bool-cases (int_eq st.extra_bits (pos 0))) [
      | inl y ↦ rw (y, effective_bits) (omega arith)
      | inr n ↦
          rw (n, effective_bits)
            (floor_lem base_bits (max_ℤ cap_bits max_bits) (base_bits +ℤ st.extra_bits))
    ]

-- For a raise that is not negative and a window in order, the raised ceiling is at least the domain's
-- own, at least the raised floor, and at most the larger of the configured cap and the domain's
-- ceiling.
pub effective_bits-window :
    (st : State) (base_bits max_bits cap_bits : ℤ)
    → pos 0 ≤ℤ st.extra_bits
    → base_bits ≤ℤ max_bits
    → (max_bits ≤ℤ (effective_bits st base_bits max_bits cap_bits).1)
      × ((effective_bits st base_bits max_bits cap_bits).0
          ≤ℤ (effective_bits st base_bits max_bits cap_bits).1)
      × ((effective_bits st base_bits max_bits cap_bits).1 ≤ℤ max_ℤ cap_bits max_bits)
unfolding effective_bits
effective_bits-window st base_bits max_bits cap_bits e h =
    elim (Bool-cases (int_eq st.extra_bits (pos 0))) [
      | inl y ↦ rw (y, effective_bits) (omega arith, h, ceil_max cap_bits max_bits)
      | inr n ↦
          rw (n, effective_bits)
            (
              ceiling_lem base_bits max_bits (max_ℤ cap_bits max_bits) (base_bits +ℤ st.extra_bits)
                  (max_bits +ℤ st.extra_bits) (ceil_max cap_bits max_bits)
                  (grows max_bits st.extra_bits e),
              below_lem (min_ℤ (max_bits +ℤ st.extra_bits) (max_ℤ cap_bits max_bits))
                  (max_ℤ (min_ℤ (base_bits +ℤ st.extra_bits) (max_ℤ cap_bits max_bits)) base_bits),
              cap_lem base_bits (max_ℤ cap_bits max_bits) (base_bits +ℤ st.extra_bits)
                  (max_bits +ℤ st.extra_bits)
                  (trans_le base_bits max_bits (max_ℤ cap_bits max_bits) h
                    (ceil_max cap_bits max_bits)),
            )
    ]
