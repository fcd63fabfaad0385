-- ===== src/Prelude/Float.antt =====
-- Go's float64 as an interface: what the code does with its values.
use angie_guardian.Prelude.{ℕ, Bool}

pub record Float : Type 1 where
  pub F : Type 0
  pub of_nat : ℕ → F
  pub add : F → F → F
  pub sub : F → F → F
  pub mul : F → F → F
  pub div : F → F → F
  pub lt : F → F → Bool
  pub le : F → F → Bool
