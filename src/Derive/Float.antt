-- ===== src/Derive/Float.antt =====
-- Floating-point numbers, which the program takes from the machine: the three operations of `f64`
-- that it uses, with no law. A theorem names the facts that it needs.
use thundercrab.Prelude.{Bool}
use thundercrab.Prelude.Int.{ℤ}

pub record F64 : Type 1 where
  pub F : Type 0
  -- `n as f64`
  pub of_i64 : ℤ → F
  -- `a / b`
  pub div : F → F → F
  -- `a < b`
  pub lt : F → F → Bool
