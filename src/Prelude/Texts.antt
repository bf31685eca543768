-- ===== src/Prelude/Texts.antt =====
-- Go's strings and byte slices: lists of bytes.
use Prim.Native.Nat.{ℕ}
use Prim.Native.Char.{code}
use Prim.Native.String.{String}
use mathlib.Core.Path.{◌≡◌, refl}
use mathlib.Core.Logic.{◌↔◌, ◌≢◌}
use mathlib.Core.Bool.{Bool, true, false, ◌&&◌}
use mathlib.Core.List.{List, [], ◌∷◌, ◌++◌}
use native.Mathlib.Omega.{arith}
use elastic_gpu_agent.Prelude.Tests.{◌==◌}
use elastic_gpu_agent.Prelude.Lists.{Lacks}

abbrev pub Text : Type 0
Text = List ℕ

-- The code points of a literal: its bytes, since every literal of the program is ASCII.
abbrev pub codes : String → Text
codes String.[] = []
codes (String.◌∷◌ c s) = code c ∷ codes s

-- `a == b` on strings.
unfoldable pub text_eq : Text → Text → Bool
text_eq [] [] = true
text_eq (x ∷ xs) (y ∷ ys) = x == y && text_eq xs ys
text_eq _ _ = false

pub text_eq_sound : (a b : Text) → text_eq a b ≡ true → a ≡ b
unfolding text_eq
text_eq_sound [] [] h = refl
text_eq_sound (x ∷ xs) (y ∷ ys) h = ground (arith, text_eq_sound xs ys)
text_eq_sound [] (y ∷ ys) h = ground arith
text_eq_sound (x ∷ xs) [] h = ground arith

pub text_eq_refl : (a : Text) → text_eq a a ≡ true
unfolding text_eq
text_eq_refl [] = refl
text_eq_refl (x ∷ xs) = ground (arith, text_eq_refl xs)

pub text_eq_iff : (a b : Text) → (text_eq a b ≡ true) ↔ (a ≡ b)
text_eq_iff a b = (text_eq_sound a b, λ e. rw e (text_eq_refl b))

pub text_eq_of_ne : (a b : Text) → a ≢ b → text_eq a b ≡ false
text_eq_of_ne a b h = ground (arith, text_eq_iff a b)

-- The parts round the first separator are determined by the text.
pub sep_cancel :
    (sep : ℕ) (a b c d : Text)
    → Lacks sep a
    → Lacks sep b
    → a ++ sep ∷ c ≡ b ++ sep ∷ d
    → (a ≡ b) × (c ≡ d)
sep_cancel sep [] [] c d ha hb e = ground arith
sep_cancel sep [] (y ∷ b) c d ha hb e = ground arith
sep_cancel sep (x ∷ a) [] c d ha hb e = ground arith
sep_cancel sep (x ∷ a) (y ∷ b) c d ha hb e = ground (arith, sep_cancel sep a b c d)

pub append_cancel_left : (p a b : Text) → p ++ a ≡ p ++ b → a ≡ b
append_cancel_left [] a b e = e
append_cancel_left (c ∷ p) a b e = append_cancel_left p a b (cc)
