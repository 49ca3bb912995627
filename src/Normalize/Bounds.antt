-- ===== src/Normalize/Bounds.antt =====
-- Bounds of what the normalisers of dev/src/index.js return.
use bananabreadwasm.Prelude.{ℕ, ◌≤◌, arith}
use bananabreadwasm.Js.{Value, Engine}
use bananabreadwasm.Normalize.{normalize_integer}

module _ (engine : Engine) where
  -- Whatever the value, the result lies between the bounds.
  pub normalize_integer_bounds :
      (v : Value) (fallback lo hi : ℕ)
      → lo ≤ hi
      → (lo ≤ normalize_integer engine v fallback lo hi)
        × (normalize_integer engine v fallback lo hi ≤ hi)
  unfolding normalize_integer
  normalize_integer_bounds v fallback lo hi h = (omega arith, omega arith)
