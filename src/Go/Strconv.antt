-- ===== src/Go/Strconv.antt =====
-- `strconv.Itoa`, `strconv.Atoi`, and the verbs `%d` and `%02d` of `fmt.Sprintf`.
use elastic_gpu_agent.Prelude.{
  subst, ℕ, zero, suc, ◌+◌, ◌-◌, ◌*◌, ◌/◌, ◌%◌, ◌^◌, ◌≤◌, ◌<◌, ◌≡◌, ◌≢◌, refl, ◌&&◌, Option, none,
  some, [], ◌∷◌, arith, Text, length, ltb, leb, ◌==◌, if◌then◌else◌, All, Lacks, ℤ, pos, negsuc,
  InInt, inl, inr, Bool-cases,
}

-- The digits of `n` before `out`. The fuel `suc n` is enough, since `n` falls to `n / 10`.
digits : ℕ → ℕ → Text → Text
digits zero n out = out
digits (suc f) n out =
    let rest = digits f (n / 10) ((b'0' + n % 10) ∷ out) in
    if ltb n 10 then (b'0' + n) ∷ out else rest

unfoldable pub format_uint : ℕ → Text
unfolding digits
format_uint n = digits (suc n) n []

unfoldable pub itoa : ℤ → Text
unfolding format_uint
itoa (pos n) = format_uint n
itoa (negsuc n) = b'-' ∷ format_uint (suc n)

-- `%02d` of a number that is not negative
unfoldable pub pad2 : ℕ → Text
unfolding format_uint
pad2 n = let s = format_uint n in if ltb (length s) 2 then b'0' ∷ s else s

scan : Text → ℕ → Option ℕ
scan [] n = some n
scan (c ∷ s) n =
    let rest = scan s (n * 10 + (c - b'0')) in if leb b'0' c && leb c b'9' then rest else none

-- digits alone, at least one, with a value below the bound
unsigned : ℕ → Text → Option ℕ
unfolding scan
unsigned bound [] = none
unsigned bound (c ∷ s) = elim (scan (c ∷ s) 0) [
  | none ↦ none
  | some n ↦ if ltb n bound then some n else none
]

negate : Option ℕ → Option ℤ
negate none = none
negate (some zero) = some (pos 0)
negate (some (suc n)) = some (negsuc n)

keep : Option ℕ → Option ℤ
keep none = none
keep (some n) = some (pos n)

-- `none` is an error: of the syntax or of the range of a 64-bit `int`.
unfoldable pub atoi : Text → Option ℤ
unfolding unsigned negate keep
atoi [] = none
atoi (c ∷ s) =
    if c == b'-'
    then negate (unsigned (2 ^ 63 + 1) s)
    else if c == b'+'
    then keep (unsigned (2 ^ 63) s)
    else keep (unsigned (2 ^ 63) (c ∷ s))

abbrev pub IsDigit : ℕ → Type 0
IsDigit c = (b'0' ≤ c) × (c ≤ b'9')

digits-IsDigit : (f n : ℕ) (out : Text) → All IsDigit out → All IsDigit (digits f n out)
unfolding digits
digits-IsDigit zero n out h = h
digits-IsDigit (suc f) n out h = elim (Bool-cases (ltb n 10)) [
  | inl e ↦ rw e (ground arith, h)
  | inr e ↦ rw e (digits-IsDigit f (n / 10) _ (omega arith, h))
]

pub format_uint-IsDigit : (n : ℕ) → All IsDigit (format_uint n)
unfolding format_uint
format_uint-IsDigit n = digits-IsDigit (suc n) n [] tt

scan-digits : (f n : ℕ) (out : Text) → n < f → scan (digits f n out) 0 ≡ scan out n
unfolding digits scan
scan-digits zero n out h = absurd (omega arith)
scan-digits (suc f) n out h = ground (arith, scan-digits f (n / 10) ((b'0' + n % 10) ∷ out))

scan-format_uint : (n : ℕ) → scan (format_uint n) 0 ≡ some n
unfolding format_uint scan
scan-format_uint n = scan-digits (suc n) n [] (omega arith)

digits-ne-nil : (f n : ℕ) (out : Text) → out ≢ [] → digits f n out ≢ []
unfolding digits
digits-ne-nil zero n out h = h
digits-ne-nil (suc f) n out h = ground (arith, digits-ne-nil f (n / 10) ((b'0' + n % 10) ∷ out))

format_uint-ne-nil : (n : ℕ) → format_uint n ≢ []
unfolding format_uint digits
format_uint-ne-nil n = ground (arith, digits-ne-nil n (n / 10) ((b'0' + n % 10) ∷ []))

unsigned-scan :
    (bound n : ℕ) (s : Text) → s ≢ [] → scan s 0 ≡ some n → n < bound → unsigned bound s ≡ some n
unfolding unsigned
unsigned-scan bound n [] h e lt = absurd (h refl)
unsigned-scan bound n (c ∷ s) h e lt = ground arith

unsigned-format_uint : (bound n : ℕ) → n < bound → unsigned bound (format_uint n) ≡ some n
unsigned-format_uint bound n h =
    unsigned-scan bound n (format_uint n) (format_uint-ne-nil n) (scan-format_uint n) h

atoi_of_digits : (s : Text) → s ≢ [] → All IsDigit s → atoi s ≡ keep (unsigned (2 ^ 63) s)
unfolding atoi
atoi_of_digits [] h d = absurd (h refl)
atoi_of_digits (c ∷ s) h d = ground arith

-- Every `int` is read back from its print.
pub atoi-itoa : (z : ℤ) → InInt z → atoi (itoa z) ≡ some z
unfolding itoa keep
atoi-itoa (pos n) h = rw (
  atoi_of_digits _ (format_uint-ne-nil n) (format_uint-IsDigit n),
  unsigned-format_uint (2 ^ 63) n h,
)
atoi-itoa (negsuc n) h = unfold atoi in rw (unsigned-format_uint (2 ^ 63 + 1) (suc n) (omega arith))

pub format_uint-injective : (m n : ℕ) → format_uint m ≡ format_uint n → m ≡ n
format_uint-injective m n e = cc (scan-format_uint m, scan-format_uint n)

IsDigit-Lacks : (sep : ℕ) (s : Text) → sep < b'0' → All IsDigit s → Lacks sep s
IsDigit-Lacks sep [] h d = tt
IsDigit-Lacks sep (c ∷ s) h d = (omega arith, IsDigit-Lacks sep s h d.1)

-- A print of digits holds no separator below the digits: no dash, no comma, no slash.
pub format_uint-Lacks : (sep n : ℕ) → sep < b'0' → Lacks sep (format_uint n)
format_uint-Lacks sep n h = IsDigit-Lacks sep (format_uint n) h (format_uint-IsDigit n)

scan-pad2 : (n : ℕ) → scan (pad2 n) 0 ≡ some n
unfolding pad2 scan
scan-pad2 n = ground (arith, scan-format_uint n)

pub pad2-injective : (m n : ℕ) → pad2 m ≡ pad2 n → m ≡ n
pad2-injective m n e = cc (scan-pad2 m, scan-pad2 n)

unsigned-below : (bound n : ℕ) (s : Text) → unsigned bound s ≡ some n → n < bound
unfolding unsigned
unsigned-below bound n [] e = absurd (cc)
unsigned-below bound n (c ∷ s) e = go (scan (c ∷ s) 0) e
  where
    go :
        (o : Option ℕ)
        → (elim o as (λ x. Option ℕ) [
          | none ↦ none
          | some m ↦ if ltb m bound then some m else none
        ])
          ≡ some n
        → n < bound
    go none f = absurd (cc)
    go (some m) f = ground (arith, f)

some_inner : (y z : ℤ) → ◌≡◌ {A = Option ℤ} (some y) (some z) → y ≡ z
some_inner y z e = cc

negate-InInt :
    (o : Option ℕ) (z : ℤ) → ((n : ℕ) → o ≡ some n → n < 2 ^ 63 + 1) → negate o ≡ some z → InInt z
unfolding negate
negate-InInt none z h e = absurd (cc)
negate-InInt (some zero) z h e = subst InInt (some_inner (pos 0) z e) (omega arith)
negate-InInt (some (suc n)) z h e =
    subst InInt (some_inner (negsuc n) z e) (omega (arith, h (suc n) refl))

keep-InInt :
    (o : Option ℕ) (z : ℤ) → ((n : ℕ) → o ≡ some n → n < 2 ^ 63) → keep o ≡ some z → InInt z
unfolding keep
keep-InInt none z h e = absurd (cc)
keep-InInt (some n) z h e = subst InInt (some_inner (pos n) z e) (h n refl)

-- What is parsed is an `int`.
pub atoi-InInt : (s : Text) (z : ℤ) → atoi s ≡ some z → InInt z
unfolding atoi
atoi-InInt [] z e = absurd (cc)
atoi-InInt (c ∷ s) z e = elim (Bool-cases (c == b'-')) [
  | inl minus ↦ negate-InInt _ z (λ n. unsigned-below (2 ^ 63 + 1) n s) (rw minus at e)
  | inr other ↦ elim (Bool-cases (c == b'+')) [
    | inl plus ↦ keep-InInt _ z (λ n. unsigned-below (2 ^ 63) n s) (rw (other, plus) at e)
    | inr digit ↦ keep-InInt _ z (λ n. unsigned-below (2 ^ 63) n (c ∷ s)) (rw (other, digit) at e)
  ]
]
