-- ===== src/Common/Int.antt =====
-- Python's int where the program takes one from outside, such as a cursor that starts at -1.
use Prim.Native.Nat.{ℕ}
use mathlib.Core.Bool.{Bool, true}
use fastapi_langgraph_templa.Common.Tests.{ltb}

-- `negsuc n` is -(n + 1).
pub data ℤ : Type 0 where
  pos : ℕ → ℤ
  negsuc : ℕ → ℤ

-- `z < n` for a number n that is not negative
abbrev pub below : ℤ → ℕ → Bool
below (pos m) n = ltb m n
below (negsuc _) n = true
