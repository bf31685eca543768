-- ===== src/Go/Strings.antt =====
-- `strings.Split`, `strings.Join` (with a separator of one byte), `strings.HasPrefix`.
use elastic_gpu_agent.Prelude.{
  ℕ, ◌≡◌, ◌≢◌, refl, true, false, ◌&&◌, Bool, List, [], ◌∷◌, ◌++◌, arith, Text, ◌==◌, if◌then◌else◌,
  All, Lacks,
}

-- `c` before the first part
push : ℕ → List Text → List Text
push c [] = (c ∷ []) ∷ []
push c (p ∷ ps) = (c ∷ p) ∷ ps

unfoldable pub split : Text → ℕ → List Text
unfolding push
split [] sep = [] ∷ []
split (c ∷ s) sep = let rest = split s sep in if c == sep then [] ∷ rest else push c rest

unfoldable pub join : List Text → ℕ → Text
join [] sep = []
join (p ∷ []) sep = p
join (p ∷ q ∷ ps) sep = p ++ sep ∷ join (q ∷ ps) sep

unfoldable pub has_prefix : Text → Text → Bool
has_prefix s [] = true
has_prefix [] (c ∷ p) = false
has_prefix (d ∷ s) (c ∷ p) = d == c && has_prefix s p

trim_left : (ℕ → Bool) → Text → Text
trim_left cut [] = []
trim_left cut (c ∷ s) = let rest = trim_left cut s in if cut c then rest else c ∷ s

keep_end : Bool → ℕ → Text → Text
keep_end dropped c [] = if dropped then [] else c ∷ []
keep_end dropped c (d ∷ s) = c ∷ d ∷ s

trim_right : (ℕ → Bool) → Text → Text
unfolding keep_end
trim_right cut [] = []
trim_right cut (c ∷ s) = keep_end (cut c) c (trim_right cut s)

-- `strings.Trim`, of the bytes that `cut` is true of
unfoldable pub trim : (ℕ → Bool) → Text → Text
unfolding trim_left trim_right
trim cut s = trim_right cut (trim_left cut s)

trim_right_none : (cut : ℕ → Bool) (s : Text) → All (λ c. cut c ≡ false) s → trim_right cut s ≡ s
unfolding trim_right keep_end
trim_right_none cut [] h = refl
trim_right_none cut (c ∷ []) h = rw h.0
trim_right_none cut (c ∷ d ∷ s) h = rw (trim_right_none cut (d ∷ s) h.1)

-- What stands between bytes to cut and holds none of them is what is left.
pub trim_front :
    (cut : ℕ → Bool) (p s : Text)
    → All (λ c. cut c ≡ true) p
    → All (λ c. cut c ≡ false) s
    → trim cut (p ++ s) ≡ s
unfolding trim trim_left
trim_front cut [] [] k h = refl
trim_front cut [] (c ∷ s) k h = rw h.0 (trim_right_none cut (c ∷ s) h)
trim_front cut (c ∷ p) s k h = rw k.0 (trim_front cut p s k.1 h)

-- A text without the separator is one part.
pub split_one : (p : Text) (sep : ℕ) → Lacks sep p → split p sep ≡ p ∷ []
unfolding split
split_one [] sep h = refl
split_one (c ∷ p) sep h = ground (arith, split_one p sep)

-- The part before the first separator is the first part.
pub split-append : (p s : Text) (sep : ℕ) → Lacks sep p → split (p ++ sep ∷ s) sep ≡ p ∷ split s sep
unfolding split
split-append [] s sep h = ground arith
split-append (c ∷ p) s sep h = ground (arith, split-append p s sep)

-- Splitting a join gives the parts back, if there is a part and none holds the separator.
pub split-join :
    (ps : List Text) (sep : ℕ) → ps ≢ [] → All (Lacks sep) ps → split (join ps sep) sep ≡ ps
unfolding join
split-join [] sep h d = absurd (h refl)
split-join (p ∷ []) sep h d = split_one p sep d.0
split-join (p ∷ q ∷ ps) sep h d =
    rw (split-append p (join (q ∷ ps) sep) sep d.0, split-join (q ∷ ps) sep (λ e. cc) d.1)

pub has_prefix-append : (p s : Text) → has_prefix (p ++ s) p ≡ true
unfolding has_prefix
has_prefix-append [] [] = refl
has_prefix-append [] (d ∷ s) = refl
has_prefix-append (c ∷ p) s = ground (arith, has_prefix-append p s)
