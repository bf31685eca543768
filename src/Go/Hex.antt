-- ===== src/Go/Hex.antt =====
-- `hex.EncodeToString`.
use elastic_gpu_agent.Prelude.{
  ℕ, ◌+◌, ◌-◌, ◌/◌, ◌%◌, ◌≤◌, ◌<◌, ◌⊎◌, [], ◌∷◌, arith, Text, ltb, if◌then◌else◌,
}

unfoldable pub nibble : ℕ → ℕ
nibble n = if ltb n 10 then b'0' + n else b'a' + (n - 10)

unfoldable pub encode_to_string : Text → Text
unfolding nibble
encode_to_string [] = []
encode_to_string (b ∷ bs) = nibble (b / 16) ∷ nibble (b % 16) ∷ encode_to_string bs

-- `0` to `9` and `a` to `f`
abbrev pub IsHexDigit : ℕ → Type 0
IsHexDigit c = ((b'0' ≤ c) × (c ≤ b'9')) ⊎ ((b'a' ≤ c) × (c ≤ b'f'))

pub nibble-IsHexDigit : (n : ℕ) → n < 16 → IsHexDigit (nibble n)
unfolding nibble
nibble-IsHexDigit n h = ground arith
