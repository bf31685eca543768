-- ===== src/Prelude/Results.antt =====
-- Calls that return a value or an error, and calls that also change a state: what was written
-- before an error stays written, so the state comes back beside the error too.
use mathlib.Core.Path.{◌≡◌, refl}
use mathlib.Core.Logic.{◌⊎◌, inl, inr}
use elastic_gpu_agent.Prelude.Texts.{Text}

-- The errors of the program: its own, each for one `fmt.Errorf`, those of the libraries, and the
-- panic of a write to a nil map.
pub data Error : Type 0 where
  not_found : Error
  file_exists : Error
  file_not_exist : Error
  external : Text → Error
  devices_empty : Error
  empty_device_list : Error
  no_such_pod : Error
  no_such_key : Text → Error
  error_key_format : Text → Error
  error_val_format : Error → Error
  not_assumed : Error
  container_not_assumed : Text → Error
  not_gpu_index : Text → Error
  cannot_find_plugin : Text → Error
  nil_map_write : Error
  nvml_failed : Text → Text → Error
  stacks_not_opened : Error → Error
  stacks_not_written : Error → Error
  no_stdin_pipe : Error → Error
  prestart_failed : Error → Error

pub data Result {ℓ} (A : Type ℓ) : Type ℓ where
  ok : A → Result A
  err : Error → Result A

abbrev pub Exec {ℓ κ} : Type ℓ → Type κ → Type (ℓ ⊔ κ)
Exec S A = S → Result A × S

module _ {ℓ κ λ'} {S : Type ℓ} {A : Type κ} {B : Type λ'} where
  abbrev pub continue : Result A → (A → Exec S B) → Exec S B
  continue (ok a) f s = f a s
  continue (err e) f s = (err e, s)

  infixl 5 ◌>>=◌ ◌>>◌
  abbrev pub ◌>>=◌ : Exec S A → (A → Exec S B) → Exec S B
  ◌>>=◌ m f s = let (r, s') = m s in continue r f s'

  abbrev pub ◌>>◌ : Exec S A → Exec S B → Exec S B
  m >> n = m >>= λ _. n

module _ {ℓ κ} {S : Type ℓ} {A : Type κ} where
  abbrev pub pure : A → Exec S A
  pure a s = (ok a, s)

  abbrev pub lift : Result A → Exec S A
  lift r s = (r, s)

-- The two steps of a sequence that returned a value.
pub >>=-ok {ℓ κ ν} :
    {S : Type ℓ} {A : Type κ} {B : Type ν} (m : Exec S A) (f : A → Exec S B) (s t : S) {b : B}
    → (m >>= f) s ≡ (ok b, t)
    → (a : A) × (u : S) × (m s ≡ (ok a, u)) × (f a u ≡ (ok b, t))
>>=-ok {S = S} {A = A} {B = B} m f s t {b} e = go (m s) refl e
  where
    go :
        (r : Result A × S)
        → m s ≡ r
        → continue r.0 f r.1 ≡ (ok b, t)
        → (a : A) × (u : S) × (m s ≡ (ok a, u)) × (f a u ≡ (ok b, t))
    go (ok a, u) g h = (a, u, g, h)
    go (err x, u) g h = absurd (cc)

-- Where a sequence that returned an error stopped.
pub >>=-err {ℓ κ ν} :
    {S : Type ℓ} {A : Type κ} {B : Type ν} (m : Exec S A) (f : A → Exec S B) (s t : S) {e : Error}
    → (m >>= f) s ≡ (err e, t)
    → (m s ≡ (err e, t)) ⊎ ((a : A) × (u : S) × (m s ≡ (ok a, u)) × (f a u ≡ (err e, t)))
>>=-err {S = S} {A = A} {B = B} m f s t {e} h = go (m s) refl h
  where
    go :
        (r : Result A × S)
        → m s ≡ r
        → continue r.0 f r.1 ≡ (err e, t)
        → (m s ≡ (err e, t)) ⊎ ((a : A) × (u : S) × (m s ≡ (ok a, u)) × (f a u ≡ (err e, t)))
    go (ok a, u) g h = inr (a, u, g, h)
    go (err x, u) g h = inl (cc)

-- What holds after the first part of a sequence, and which the second part keeps, holds at the end.
pub >>=-keeps {ℓ κ ν μ} :
    {S : Type ℓ} {A : Type κ} {B : Type ν} (P : S → Type μ) (m : Exec S A) (f : A → Exec S B)
    (s : S)
    → P (m s).1
    → ((a : A) (u : S) → m s ≡ (ok a, u) → P u → P (f a u).1)
    → P ((m >>= f) s).1
>>=-keeps {S = S} {A = A} P m f s h k = go (m s) refl h
  where
    go : (r : Result A × S) → m s ≡ r → P r.1 → P (continue r.0 f r.1).1
    go (ok a, u) e p = k a u e p
    go (err x, u) e p = p
