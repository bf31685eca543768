-- ===== src/Go/Sort.antt =====
-- `sort.Strings`: the result is the one ascending list with the elements of the argument, so any
-- sorting algorithm returns it; this is an insertion sort.
use mathlib.Core.Logic.{∥∥₁_elim}
use mathlib.Core.List.{Perm, Permᴰ}
use mathlib.Core.List.Perm
use elastic_gpu_agent.Prelude.{
  ◌≡◌, refl, ◌∙◌, true, List, [], ◌∷◌, arith, All, Text, if◌then◌else◌, Bool-cases, inl, inr,
}
use elastic_gpu_agent.Prelude.Order.{text_le, text_le_total, text_le_antisymm, text_le_trans}

insert : Text → List Text → List Text
insert x [] = x ∷ []
insert x (y ∷ ys) = if text_le x y then x ∷ y ∷ ys else y ∷ insert x ys

unfoldable pub strings : List Text → List Text
unfolding insert
strings [] = []
strings (x ∷ xs) = insert x (strings xs)

insert-insert : (x y : Text) (l : List Text) → insert x (insert y l) ≡ insert y (insert x l)
unfolding insert
insert-insert x y [] = ground (arith, text_le_total x y, text_le_total y x, text_le_antisymm x y)
insert-insert x y (z ∷ l) = ground (
  arith,
  insert-insert x y l,
  text_le_total x y,
  text_le_total y x,
  text_le_antisymm x y,
  text_le_trans x y z,
  text_le_trans y x z,
  text_le_total x z,
  text_le_total y z,
  text_le_trans x z y,
  text_le_trans y z x,
)

insert-perm : (x : Text) (l : List Text) → Perm (insert x l) (x ∷ l)
unfolding insert
insert-perm x [] = Perm.refl (x ∷ [])
insert-perm x (y ∷ l) = elim (Bool-cases (text_le x y)) [
  | inl e ↦ rw e (Perm.refl (x ∷ y ∷ l))
  | inr e ↦ rw e (Perm.trans (Perm.cons y (insert-perm x l)) (Perm.swap x y l))
]

-- Sorting keeps the elements.
pub strings-perm : (l : List Text) → Perm (strings l) l
unfolding strings
strings-perm [] = Perm.refl []
strings-perm (x ∷ l) = Perm.trans (insert-perm x (strings l)) (Perm.cons x (strings-perm l))

strings_of_permᴰ : {l m : List Text} → Permᴰ l m → strings l ≡ strings m
unfolding strings
strings_of_permᴰ Permᴰ.nil = refl
strings_of_permᴰ (Permᴰ.cons {a = a} {l₁ = l} e p) = rw (← e, strings_of_permᴰ p)
strings_of_permᴰ (Permᴰ.swap {a = a} {b = b} {l = l} e k) =
    rw (← e, ← k) (insert-insert a b (strings l))
strings_of_permᴰ (Permᴰ.trans p q) = strings_of_permᴰ p ∙ strings_of_permᴰ q

Texts-set : IsSet (List Text)
Texts-set = hlevel

-- Lists with the same elements are sorted to the same list.
pub strings_of_perm : {l m : List Text} → Perm l m → strings l ≡ strings m
strings_of_perm p = ∥∥₁_elim p (Texts-set _ _) strings_of_permᴰ

-- The result is ascending.
abbrev pub IsAscending : List Text → Type 0
IsAscending [] = Unit
IsAscending (x ∷ []) = Unit
IsAscending (x ∷ y ∷ l) = (text_le x y ≡ true) × IsAscending (y ∷ l)

insert-IsAscending : (x : Text) (l : List Text) → IsAscending l → IsAscending (insert x l)
unfolding insert
insert-IsAscending x [] h = tt
insert-IsAscending x (y ∷ []) h = ground (arith, text_le_total x y)
insert-IsAscending x (y ∷ z ∷ l) h = ground (arith, text_le_total x y, insert-IsAscending x (z ∷ l))

pub strings-IsAscending : (l : List Text) → IsAscending (strings l)
unfolding strings
strings-IsAscending [] = tt
strings-IsAscending (x ∷ l) = insert-IsAscending x (strings l) (strings-IsAscending l)

-- Sorting keeps what holds of every element.
module _ (P : Text → Type 0) where
  insert-All : (x : Text) (l : List Text) → P x → All P l → All P (insert x l)
  unfolding insert
  insert-All x [] p h = (p, tt)
  insert-All x (y ∷ l) p (py, h) = elim (Bool-cases (text_le x y)) [
    | inl e ↦ rw e (p, (py, h))
    | inr e ↦ rw e (py, insert-All x l p h)
  ]

  pub strings-All : (l : List Text) → All P l → All P (strings l)
  unfolding strings
  strings-All [] h = tt
  strings-All (x ∷ l) (p, h) = insert-All x (strings l) p (strings-All l h)
