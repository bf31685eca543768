-- ===== src/Go/Sha256.antt =====
-- `sha256.Sum256`, as FIPS 180-4 defines it, on a message of bytes.
use Prim.Native.Nat.{bit_and, bit_xor}
use elastic_gpu_agent.Prelude.{
  ℕ, zero, suc, ◌+◌, ◌-◌, ◌*◌, ◌/◌, ◌%◌, ◌^◌, ◌<◌, ◌≡◌, refl, List, [], ◌∷◌, ◌++◌, arith, Text,
  codes, length, All,
}

abbrev word : ℕ
word = 2 ^ 32

get_word : List ℕ → ℕ → ℕ
get_word [] i = 0
get_word (w ∷ ws) zero = w
get_word (w ∷ ws) (suc i) = get_word ws i

drop_words : ℕ → List ℕ → List ℕ
drop_words zero ws = ws
drop_words (suc n) [] = []
drop_words (suc n) (w ∷ ws) = drop_words n ws

take_words : ℕ → List ℕ → List ℕ
take_words zero ws = []
take_words (suc n) [] = []
take_words (suc n) (w ∷ ws) = w ∷ take_words n ws

zeros : ℕ → List ℕ
zeros zero = []
zeros (suc n) = 0 ∷ zeros n

rotr : ℕ → ℕ → ℕ
rotr x n = x / 2 ^ n + x % 2 ^ n * 2 ^ (32 - n)

xor3 : ℕ → ℕ → ℕ → ℕ
xor3 x y z = bit_xor (bit_xor x y) z

big_sigma0 : ℕ → ℕ
unfolding xor3 rotr
big_sigma0 x = xor3 (rotr x 2) (rotr x 13) (rotr x 22)

big_sigma1 : ℕ → ℕ
unfolding xor3 rotr
big_sigma1 x = xor3 (rotr x 6) (rotr x 11) (rotr x 25)

small_sigma0 : ℕ → ℕ
unfolding xor3 rotr
small_sigma0 x = xor3 (rotr x 7) (rotr x 18) (x / 2 ^ 3)

small_sigma1 : ℕ → ℕ
unfolding xor3 rotr
small_sigma1 x = xor3 (rotr x 17) (rotr x 19) (x / 2 ^ 10)

choose : ℕ → ℕ → ℕ → ℕ
choose x y z = bit_xor (bit_and x y) (bit_and (word - 1 - x) z)

majority : ℕ → ℕ → ℕ → ℕ
unfolding xor3
majority x y z = xor3 (bit_and x y) (bit_and x z) (bit_and y z)

round_constants : List ℕ
round_constants =
    0x428a2f98 ∷ 0x71374491 ∷ 0xb5c0fbcf ∷ 0xe9b5dba5 ∷ 0x3956c25b ∷ 0x59f111f1 ∷ 0x923f82a4
    ∷ 0xab1c5ed5 ∷ 0xd807aa98 ∷ 0x12835b01 ∷ 0x243185be ∷ 0x550c7dc3 ∷ 0x72be5d74 ∷ 0x80deb1fe
    ∷ 0x9bdc06a7 ∷ 0xc19bf174 ∷ 0xe49b69c1 ∷ 0xefbe4786 ∷ 0x0fc19dc6 ∷ 0x240ca1cc ∷ 0x2de92c6f
    ∷ 0x4a7484aa ∷ 0x5cb0a9dc ∷ 0x76f988da ∷ 0x983e5152 ∷ 0xa831c66d ∷ 0xb00327c8 ∷ 0xbf597fc7
    ∷ 0xc6e00bf3 ∷ 0xd5a79147 ∷ 0x06ca6351 ∷ 0x14292967 ∷ 0x27b70a85 ∷ 0x2e1b2138 ∷ 0x4d2c6dfc
    ∷ 0x53380d13 ∷ 0x650a7354 ∷ 0x766a0abb ∷ 0x81c2c92e ∷ 0x92722c85 ∷ 0xa2bfe8a1 ∷ 0xa81a664b
    ∷ 0xc24b8b70 ∷ 0xc76c51a3 ∷ 0xd192e819 ∷ 0xd6990624 ∷ 0xf40e3585 ∷ 0x106aa070 ∷ 0x19a4c116
    ∷ 0x1e376c08 ∷ 0x2748774c ∷ 0x34b0bcb5 ∷ 0x391c0cb3 ∷ 0x4ed8aa4a ∷ 0x5b9cca4f ∷ 0x682e6ff3
    ∷ 0x748f82ee ∷ 0x78a5636f ∷ 0x84c87814 ∷ 0x8cc70208 ∷ 0x90befffa ∷ 0xa4506ceb ∷ 0xbef9a3f7
    ∷ 0xc67178f2 ∷ []

initial_hash : List ℕ
initial_hash =
    0x6a09e667 ∷ 0xbb67ae85 ∷ 0x3c6ef372 ∷ 0xa54ff53a ∷ 0x510e527f ∷ 0x9b05688c ∷ 0x1f83d9ab
    ∷ 0x5be0cd19 ∷ []

record Registers : Type 0 where
  a : ℕ
  b : ℕ
  c : ℕ
  d : ℕ
  e : ℕ
  f : ℕ
  g : ℕ
  h : ℕ

registers : List ℕ → Registers
unfolding get_word
registers ws = record {
  a = get_word ws 0;
  b = get_word ws 1;
  c = get_word ws 2;
  d = get_word ws 3;
  e = get_word ws 4;
  f = get_word ws 5;
  g = get_word ws 6;
  h = get_word ws 7;
}

round : ℕ → ℕ → Registers → Registers
unfolding big_sigma0 big_sigma1 choose majority
round k w r =
    let t1 = (r.h + big_sigma1 r.e + choose r.e r.f r.g + k + w) % word in
    let t2 = (big_sigma0 r.a + majority r.a r.b r.c) % word in
    record {
      a = (t1 + t2) % word;
      b = r.a;
      c = r.b;
      d = r.c;
      e = (r.d + t1) % word;
      f = r.e;
      g = r.f;
      h = r.g;
    }

-- The window holds the next sixteen words of the message schedule.
rounds : List ℕ → List ℕ → Registers → Registers
unfolding round get_word drop_words small_sigma0 small_sigma1
rounds [] window r = r
rounds (k ∷ ks) window r =
    let next =
      (small_sigma1 (get_word window 14)
        + get_word window 9
        + small_sigma0 (get_word window 1)
        + get_word window 0)
      % word in
    rounds ks (drop_words 1 window ++ next ∷ []) (round k (get_word window 0) r)

add_words : List ℕ → Registers → List ℕ
unfolding get_word
add_words ws r =
    ((get_word ws 0 + r.a) % word)
    ∷ ((get_word ws 1 + r.b) % word)
    ∷ ((get_word ws 2 + r.c) % word)
    ∷ ((get_word ws 3 + r.d) % word)
    ∷ ((get_word ws 4 + r.e) % word)
    ∷ ((get_word ws 5 + r.f) % word)
    ∷ ((get_word ws 6 + r.g) % word)
    ∷ ((get_word ws 7 + r.h) % word)
    ∷ []

-- One call for each block of sixteen words.
blocks : ℕ → List ℕ → List ℕ → List ℕ
unfolding rounds add_words registers take_words drop_words round_constants
blocks zero ws hash = hash
blocks (suc n) ws hash =
    blocks n (drop_words 16 ws)
      (add_words hash (rounds round_constants (take_words 16 ws) (registers hash)))

to_words : Text → List ℕ
to_words (a ∷ b ∷ c ∷ d ∷ s) = (a * 2 ^ 24 + b * 2 ^ 16 + c * 2 ^ 8 + d) ∷ to_words s
to_words _ = []

word_bytes : ℕ → Text
word_bytes w = (w / 2 ^ 24 % 256) ∷ (w / 2 ^ 16 % 256) ∷ (w / 2 ^ 8 % 256) ∷ (w % 256) ∷ []

pad : Text → Text
unfolding zeros word_bytes
pad s =
    s
    ++ 0x80
      ∷ (zeros ((119 - length s % 64) % 64)
          ++ (word_bytes (length s * 8 / 2 ^ 32) ++ word_bytes (length s * 8 % 2 ^ 32)))

eight_words : List ℕ → Text
unfolding word_bytes get_word
eight_words ws =
    word_bytes (get_word ws 0)
    ++ (word_bytes (get_word ws 1)
        ++ (word_bytes (get_word ws 2)
            ++ (word_bytes (get_word ws 3)
                ++ (word_bytes (get_word ws 4)
                    ++ (word_bytes (get_word ws 5)
                        ++ (word_bytes (get_word ws 6) ++ word_bytes (get_word ws 7)))))))

unfoldable pub sum256 : Text → Text
unfolding pad blocks to_words eight_words initial_hash
sum256 s = eight_words (blocks (length (pad s) / 64) (to_words (pad s)) initial_hash)

-- A digest has 32 elements, and each is a byte.
pub length-sum256 : (s : Text) → length (sum256 s) ≡ 32
unfolding sum256
length-sum256 s = refl

pub sum256-bytes : (s : Text) → All (λ b. b < 256) (sum256 s)
unfolding sum256
sum256-bytes s = omega arith

sum256_abc :
    sum256 (codes "abc")
    ≡ 186 ∷ 120 ∷ 22 ∷ 191 ∷ 143 ∷ 1 ∷ 207 ∷ 234 ∷ 65 ∷ 65 ∷ 64 ∷ 222 ∷ 93 ∷ 174 ∷ 34 ∷ 35 ∷ 176 ∷ 3
      ∷ 97 ∷ 163 ∷ 150 ∷ 23 ∷ 122 ∷ 156 ∷ 180 ∷ 16 ∷ 255 ∷ 97 ∷ 242 ∷ 0 ∷ 21 ∷ 173 ∷ []
unfolding sum256
sum256_abc = refl

-- a message of two blocks
sum256_long :
    sum256 (codes "abcdbcdecdefdefgefghfghighijhijkijkljklmklmnlmnomnopnopq")
    ≡ 36 ∷ 141 ∷ 106 ∷ 97 ∷ 210 ∷ 6 ∷ 56 ∷ 184 ∷ 229 ∷ 192 ∷ 38 ∷ 147 ∷ 12 ∷ 62 ∷ 96 ∷ 57 ∷ 163 ∷ 60
      ∷ 228 ∷ 89 ∷ 100 ∷ 255 ∷ 33 ∷ 103 ∷ 246 ∷ 236 ∷ 237 ∷ 212 ∷ 25 ∷ 219 ∷ 6 ∷ 193 ∷ []
unfolding sum256
sum256_long = refl
