-- ===== src/Prelude/Maps.antt =====
-- Go's maps with string keys, as association lists in the order of the keys, so that
-- two maps with the same entries are the same list. Go leaves the order of an iteration open; the
-- model iterates in this order.
use mathlib.Core.Path.{◌≡◌, ◌∙◌, refl, sym, subst}
use mathlib.Core.Bool.{true, false}
use mathlib.Core.Logic.{◌⊎◌, ◌≢◌, inl, inr}
use mathlib.Core.List.{List, [], ◌∷◌}
use mathlib.Core.Option.{Option, none, some}
use native.Mathlib.Omega.{arith}
use elastic_gpu_agent.Prelude.Tests.{if◌then◌else◌, Bool-cases}
use elastic_gpu_agent.Prelude.Lists.{Member, later, Member-cases, Member-of_eq}
use elastic_gpu_agent.Prelude.Texts.{Text, text_eq, text_eq_iff, text_eq_refl}
use elastic_gpu_agent.Prelude.Order.{text_le, text_le_total, text_le_antisymm, text_le_trans}

abbrev pub Dict {ℓ} : Type ℓ → Type ℓ
Dict V = List (Text × V)

module _ {ℓ} {V : Type ℓ} where
  -- `m[k]` with its `ok`
  unfoldable pub lookup : Text → Dict V → Option V
  lookup k [] = none
  lookup k ((j, v) ∷ m) = if text_eq j k then some v else lookup k m

  -- `m[k] = v`
  unfoldable pub insert : Text → V → Dict V → Dict V
  insert k v [] = (k, v) ∷ []
  insert k v ((j, w) ∷ m) =
      if text_eq j k
      then (k, v) ∷ m
      else if text_le k j
      then (k, v) ∷ (j, w) ∷ m
      else (j, w) ∷ insert k v m

  -- `delete(m, k)`
  unfoldable pub erase : Text → Dict V → Dict V
  erase k [] = []
  erase k ((j, w) ∷ m) = let rest = erase k m in if text_eq j k then rest else (j, w) ∷ rest

  pub lookup-insert :
      (k j : Text) (v : V) (m : Dict V)
      → lookup j (insert k v m) ≡ (if text_eq k j then some v else lookup j m)
  unfolding lookup insert
  lookup-insert k j v [] = refl
  lookup-insert k j v ((i, w) ∷ m) =
      ground (arith, text_eq_iff k j, text_eq_iff i k, text_eq_iff i j, lookup-insert k j v m)

  pub lookup-erase :
      (k j : Text) (m : Dict V) → lookup j (erase k m) ≡ (if text_eq k j then none else lookup j m)
  unfolding lookup erase
  lookup-erase k j [] = ground arith
  lookup-erase k j ((i, w) ∷ m) =
      ground (arith, text_eq_iff k j, text_eq_iff i k, text_eq_iff i j, lookup-erase k j m)

  -- The keys of `m` come after `k`.
  abbrev pub After : Text → Dict V → Type 0
  After k [] = Unit
  After k ((j, w) ∷ m) = (text_le k j ≡ true) × (text_eq k j ≡ false) × After k m

  -- The keys ascend, so no key stands twice.
  abbrev pub IsMap : Dict V → Type 0
  IsMap [] = Unit
  IsMap ((j, w) ∷ m) = After j m × IsMap m

  After-insert :
      (i k : Text) (v : V) (m : Dict V)
      → text_le i k ≡ true
      → text_eq i k ≡ false
      → After i m
      → After i (insert k v m)
  unfolding insert
  After-insert i k v [] h e a = (h, e, tt)
  After-insert i k v ((j, w) ∷ m) h e a = ground (arith, After-insert i k v m)

  After-trans :
      (i k : Text) (m : Dict V) → text_le i k ≡ true → text_eq i k ≡ false → After k m → After i m
  After-trans i k [] h e a = tt
  After-trans i k ((j, w) ∷ m) h e (le, ne, a) = (
    text_le_trans i k j h le,
    ground (arith, text_eq_iff i j, text_eq_iff i k, text_le_antisymm i k),
    After-trans i k m h e a,
  )

  -- Writing an entry keeps the order.
  pub insert-IsMap : (k : Text) (v : V) (m : Dict V) → IsMap m → IsMap (insert k v m)
  unfolding insert
  insert-IsMap k v [] h = (tt, tt)
  insert-IsMap k v ((j, w) ∷ m) (a, h) = ground (
    arith,
    text_eq_iff j k,
    text_eq_iff k j,
    text_le_total k j,
    After-insert j k v m,
    After-trans k j m,
    insert-IsMap k v m,
  )

  lookup-After :
      (k c : Text) (d : V) (m : Dict V) → After k m → Member (c, d) m → text_eq k c ≡ false
  lookup-After k c d [] a h = elim h [ ]
  lookup-After k c d ((j, w) ∷ m) (le, ne, a) h = elim (Member-cases h) [
    | inl e ↦ subst (λ (x : Text × V). text_eq k x.0 ≡ false) (sym e) ne
    | inr later_one ↦ lookup-After k c d m a later_one
  ]

  -- An entry of a map is what its key finds.
  lookup-Member : (c : Text) (d : V) (m : Dict V) → IsMap m → Member (c, d) m → lookup c m ≡ some d
  unfolding lookup
  lookup-Member c d [] h k = elim k [ ]
  lookup-Member c d ((j, w) ∷ m) (a, h) k = elim (Member-cases k) [
    | inl e ↦
        subst (λ (x : Text × V). lookup x.0 ((j, w) ∷ m) ≡ some x.1) (sym e)
          (rw (text_eq_refl j) refl)
    | inr n ↦ rw (lookup-After j c d m a n) (lookup-Member c d m h n)
  ]

  -- What a key finds is an entry.
  Member-lookup : (c : Text) (d : V) (m : Dict V) → lookup c m ≡ some d → Member (c, d) m
  unfolding lookup
  Member-lookup c d [] e = absurd (cc)
  Member-lookup c d ((j, w) ∷ m) e = elim (Bool-cases (text_eq j c)) [
    | inl same ↦ Member-of_eq m (ground (arith, same, e, text_eq_iff j c))
    | inr other ↦ later (Member-lookup c d m (ground (arith, other, e)))
  ]

  -- An entry after a write is the one written, or one from before with another key.
  pub Member-insert :
      (k c : Text) (v d : V) (m : Dict V)
      → IsMap m
      → Member (c, d) (insert k v m)
      → ((c ≡ k) × (d ≡ v)) ⊎ ((c ≢ k) × Member (c, d) m)
  Member-insert k c v d m h e =
      let looked =
        sym (lookup-insert k c v m) ∙ lookup-Member c d (insert k v m) (insert-IsMap k v m h) e in
      elim (Bool-cases (text_eq k c)) [
        | inl same ↦ inl (sym ((text_eq_iff k c).0 same), same_value (rw same at looked))
        | inr other ↦ inr (
          λ f. ground (arith, other, f, text_eq_iff k c),
          Member-lookup c d m (rw other at looked),
        )
      ]
    where
      same_value : {x y : V} → ◌≡◌ {A = Option V} (some x) (some y) → y ≡ x
      same_value e = cc
