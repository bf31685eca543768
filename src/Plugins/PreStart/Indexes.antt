-- ===== src/Plugins/PreStart/Indexes.antt =====
-- The indexes that an annotation gives.
use elastic_gpu_agent.Prelude.{
  ◌≡◌, refl, subst, Option, none, some, List, [], ◌∷◌, ◌++◌, Text, All, All-append, Result, ok, err,
  ℤ, InInt,
}
use elastic_gpu_agent.Go.Strconv.{atoi, atoi-InInt}
use elastic_gpu_agent.Plugins.PreStart.{not_gpu_index, indexes_of, parse_indexes}

indexes_of-InInt :
    (v : Text) (ss : List Text) (acc zs : List ℤ)
    → All InInt acc
    → indexes_of v ss acc ≡ ok zs
    → All InInt zs
unfolding indexes_of
indexes_of-InInt v [] acc zs h e = subst (All InInt) (cc) h
indexes_of-InInt v (s ∷ ss) acc zs h e =
    go (atoi s) refl e (λ z k f. indexes_of-InInt v ss (acc ++ z ∷ []) zs k f)
  where
    go :
        (o : Option ℤ)
        → atoi s ≡ o
        → (elim o as (λ x. Result (List ℤ)) [
          | none ↦ err (not_gpu_index v)
          | some z ↦ indexes_of v ss (acc ++ z ∷ [])
        ])
          ≡ ok zs
        → ((z : ℤ)
            → All InInt (acc ++ z ∷ [])
            → indexes_of v ss (acc ++ z ∷ []) ≡ ok zs
            → All InInt zs)
        → All InInt zs
    go none g f more = absurd (cc)
    go (some z) g f more = more z (All-append InInt acc (z ∷ []) h (atoi-InInt s z g, tt)) f

-- Each of them is an `int`.
pub parse_indexes-InInt : (v : Text) (zs : List ℤ) → parse_indexes v ≡ ok zs → All InInt zs
unfolding parse_indexes
parse_indexes-InInt v zs e = indexes_of-InInt v _ [] zs tt e
