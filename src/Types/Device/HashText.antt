-- ===== src/Types/Device/HashText.antt =====
-- The text of a hash: what makes it fit to stand in a file name.
use elastic_gpu_agent.Prelude.{
  ℕ, ◌/◌, ◌%◌, ◌≤◌, ◌<◌, ◌≡◌, refl, List, [], ◌∷◌, arith, Text, length, All, Lacks,
}
use elastic_gpu_agent.Go.Hex.{encode_to_string, nibble, IsHexDigit, nibble-IsHexDigit}
use elastic_gpu_agent.Go.Sha256
use elastic_gpu_agent.Go.Sha256.{length-sum256, sum256-bytes}
use elastic_gpu_agent.Go.Strings
use elastic_gpu_agent.Types.Device.{first_eight, hash}

high : (b : ℕ) → b < 256 → IsHexDigit (nibble (b / 16))
high b h = nibble-IsHexDigit (b / 16) (omega arith)

low : (b : ℕ) → IsHexDigit (nibble (b % 16))
low b = nibble-IsHexDigit (b % 16) (omega arith)

encoded :
    (s : Text)
    → 4 ≤ length s
    → All (λ b. b < 256) s
    → (length (first_eight (encode_to_string s)) ≡ 8)
      × All IsHexDigit (first_eight (encode_to_string s))
unfolding encode_to_string first_eight
encoded [] h b = absurd (omega arith)
encoded (x ∷ []) h b = absurd (omega arith)
encoded (x ∷ y ∷ []) h b = absurd (omega arith)
encoded (x ∷ y ∷ z ∷ []) h b = absurd (omega arith)
encoded (x ∷ y ∷ z ∷ w ∷ s) h (bx, (by_, (bz, (bw, bs)))) = (
  refl,
  (high x bx, (low x, (high y by_, (low y, (high z bz, (low z, (high w bw, (low w, tt)))))))),
)

-- A hash is eight hexadecimal digits, whatever the ids.
pub hash-IsHex : (l : List Text) → (length (hash l) ≡ 8) × All IsHexDigit (hash l)
unfolding hash
hash-IsHex l =
    let digest = Sha256.sum256 (Strings.join l b':') in
    encoded digest (omega (arith, length-sum256 (Strings.join l b':')))
      (sum256-bytes (Strings.join l b':'))

hex-Lacks : (sep : ℕ) (s : Text) → sep < b'0' → All IsHexDigit s → Lacks sep s
hex-Lacks sep [] h d = tt
hex-Lacks sep (c ∷ s) h (dc, ds) = (omega arith, hex-Lacks sep s h ds)

-- A hash holds neither a dash nor a slash.
pub hash-Lacks : (sep : ℕ) (l : List Text) → sep < b'0' → Lacks sep (hash l)
hash-Lacks sep l h = hex-Lacks sep (hash l) h (hash-IsHex l).1
