-- ===== src/Prelude/Int.antt =====
-- Go's `int`: an integer with its range, as a predicate.
use Prim.Native.Nat.{ℕ, ◌^◌, ◌<◌}

-- `negsuc n` is -(n + 1).
pub data ℤ : Type 0 where
  pos : ℕ → ℤ
  negsuc : ℕ → ℤ

-- The values of a 64-bit `int`.
abbrev pub InInt : ℤ → Type 0
InInt (pos n) = n < 2 ^ 63
InInt (negsuc n) = n < 2 ^ 63
