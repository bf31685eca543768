-- ===== src/Prelude/Lists.antt =====
-- Lists measured by native numbers, and predicates on their elements.
use Prim.Native.Nat.{ℕ, zero, suc, ◌+◌, ◌≤◌, ◌<◌}
use mathlib.Core.Path.{◌≡◌, refl, ap, subst}
use mathlib.Core.Logic.{◌≢◌, ◌⊎◌, inl, inr}
use mathlib.Core.List.{List, [], ◌∷◌, ◌++◌, map}
use mathlib.Core.Option.{Option, none, some}
use native.Mathlib.Omega.{arith}

module _ {ℓ} {A : Type ℓ} where
  abbrev pub length : List A → ℕ
  length [] = 0
  length (x ∷ xs) = suc (length xs)

  abbrev pub get_elem? : List A → ℕ → Option A
  get_elem? [] i = none
  get_elem? (x ∷ xs) zero = some x
  get_elem? (x ∷ xs) (suc i) = get_elem? xs i

  abbrev pub take : ℕ → List A → List A
  take zero xs = []
  take (suc n) [] = []
  take (suc n) (x ∷ xs) = x ∷ take n xs

  pub length-take : (n : ℕ) (xs : List A) → length (take n xs) ≤ length xs
  length-take zero xs = omega arith
  length-take (suc n) [] = omega arith
  length-take (suc n) (x ∷ xs) = omega (arith, length-take n xs)

  -- A prefix that is shorter than asked for is the whole list.
  pub take_whole : (n : ℕ) (xs : List A) → length (take n xs) < n → take n xs ≡ xs
  take_whole zero xs h = absurd (omega arith)
  take_whole (suc n) [] h = refl
  take_whole (suc n) (x ∷ xs) h = ap (λ r. x ∷ r) (take_whole n xs (omega arith))

  pub length-take_le : (n : ℕ) (xs : List A) → length (take n xs) ≤ n
  length-take_le zero xs = omega arith
  length-take_le (suc n) [] = omega arith
  length-take_le (suc n) (x ∷ xs) = omega (arith, length-take_le n xs)

  pub length-append : (xs ys : List A) → length (xs ++ ys) ≡ length xs + length ys
  length-append [] ys = omega arith
  length-append (x ∷ xs) ys = omega (arith, length-append xs ys)

module _ {ℓ κ} {A : Type ℓ} {B : Type κ} where
  pub length-map : (xs : List A) (f : A → B) → length (map f xs) ≡ length xs
  length-map [] f = refl
  length-map (x ∷ xs) f = ap suc (length-map xs f)

-- The numbers from `i` on, `n` of them: the values of a counted loop's variable.
abbrev pub range_from : ℕ → ℕ → List ℕ
range_from i zero = []
range_from i (suc n) = i ∷ range_from (suc i) n

module _ {ℓ κ} {A : Type ℓ} (P : A → Type κ) where
  abbrev pub All : List A → Type κ
  All [] = Unit
  All (x ∷ xs) = P x × All xs

  pub All-append : (xs ys : List A) → All xs → All ys → All (xs ++ ys)
  All-append [] ys _ hy = hy
  All-append (x ∷ xs) ys (px, hx) hy = (px, All-append xs ys hx hy)

-- No element of the list is `x`; no two elements are equal.
module _ {ℓ} {A : Type ℓ} where
  abbrev pub Lacks : A → List A → Type ℓ
  Lacks x = All (λ y. y ≢ x)

  abbrev pub Distinct : List A → Type ℓ
  Distinct [] = Unit
  Distinct (x ∷ xs) = Lacks x xs × Distinct xs

  -- An element of the list, with its place.
  pub data Member (x : A) : List A → Type ℓ where
    first : {xs : List A} → Member x (x ∷ xs)
    later : {y : A} {xs : List A} → Member x xs → Member x (y ∷ xs)

  pub Member-cases : {x y : A} {xs : List A} → Member x (y ∷ xs) → (x ≡ y) ⊎ Member x xs
  Member-cases first = inl refl
  Member-cases (later m) = inr m

  pub Member-of_eq : {x y : A} (xs : List A) → x ≡ y → Member x (y ∷ xs)
  Member-of_eq {x} xs e = subst (λ z. Member x (z ∷ xs)) e first

  pub Member-append_left : {x : A} (xs ys : List A) → Member x xs → Member x (xs ++ ys)
  Member-append_left [] ys m = elim m [ ]
  Member-append_left (x ∷ xs) ys first = first
  Member-append_left (x ∷ xs) ys (later m) = later (Member-append_left xs ys m)

  pub Member-append_right : {x : A} (xs ys : List A) → Member x ys → Member x (xs ++ ys)
  Member-append_right [] ys m = m
  Member-append_right (x ∷ xs) ys m = later (Member-append_right xs ys m)

  pub Member-append : {x : A} (xs ys : List A) → Member x (xs ++ ys) → (Member x xs) ⊎ (Member x ys)
  Member-append [] ys m = inr m
  Member-append (x ∷ xs) ys m = elim (Member-cases m) [
    | inl e ↦ inl (Member-of_eq xs e)
    | inr n ↦ elim (Member-append xs ys n) [ inl k ↦ inl (later k) | inr k ↦ inr k ]
  ]
