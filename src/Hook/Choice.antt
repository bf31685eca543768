-- ===== src/Hook/Choice.antt =====
-- Which GPUs the hook chooses.
use elastic_gpu_agent.Prelude.{
  ℕ, suc, ◌<◌, ◌≡◌, ◌≢◌, refl, sym, Option, none, some, List, [], ◌∷◌, ◌++◌, arith, Text, text_eq,
  All, Lacks, ok, ℤ, pos, negsuc, InInt, Dict, lookup,
}
use elastic_gpu_agent.Go.Strconv.{itoa, atoi-itoa, format_uint-Lacks}
use elastic_gpu_agent.Go.Strings
use elastic_gpu_agent.Go.Strings.{split_one, split-join, has_prefix-append}
use elastic_gpu_agent.Operator.Gpushare.{gpu_path}
use elastic_gpu_agent.Hook.{done, after_byte, find_env, get_env_from_spec, get_gpu_index}

-- The variables of an environment, as the runtime writes them.
abbrev pub env_of : Dict Text → List Text
env_of [] = []
env_of ((k, v) ∷ m) = (k ++ b'=' ∷ v) ∷ env_of m

abbrev pub or_empty : Option Text → Text
or_empty none = []
or_empty (some v) = v

after_byte-append : (k v : Text) → Lacks b'=' k → after_byte b'=' (k ++ b'=' ∷ v) ≡ some v
unfolding after_byte
after_byte-append [] v h = refl
after_byte-append (c ∷ k) v h = ground (arith, after_byte-append k v)

-- A variable starts with `name=` exactly if that is its name.
has_prefix-variable :
    (name k v : Text)
    → Lacks b'=' name
    → Lacks b'=' k
    → Strings.has_prefix (k ++ b'=' ∷ v) (name ++ b'=' ∷ []) ≡ text_eq k name
unfolding Strings.has_prefix text_eq
has_prefix-variable [] [] v h g = ground arith
has_prefix-variable [] (c ∷ k) v h g = ground arith
has_prefix-variable (d ∷ name) [] v h g = ground arith
has_prefix-variable (d ∷ name) (c ∷ k) v h g = ground (arith, has_prefix-variable name k v)

-- `getEnvFromSpec` reads an environment as a map: in a list of variables it finds the value of the
-- first one with the name, and the empty text if there is none. No name holds an equals sign.
pub get_env_from_spec_lem :
    (name : Text) (m : Dict Text)
    → Lacks b'=' name
    → All (λ (e : Text × Text). Lacks b'=' e.0) m
    → get_env_from_spec name (env_of m) ≡ or_empty (lookup name m)
unfolding get_env_from_spec find_env lookup
get_env_from_spec_lem name [] h g = refl
get_env_from_spec_lem name ((k, v) ∷ m) h (gk, g) =
    rw (has_prefix-variable name k v h gk, after_byte-append k v gk)
      (ground (arith, get_env_from_spec_lem name m h g))

pub itoa-Lacks : (sep : ℕ) (z : ℤ) → sep < b'0' → sep ≢ b'-' → Lacks sep (itoa z)
unfolding itoa
itoa-Lacks sep (pos n) h g = format_uint-Lacks sep n h
itoa-Lacks sep (negsuc n) h g = (λ e. g (sym e), format_uint-Lacks sep (suc n) h)

-- The target of a share's link is read back to the GPU's index.
pub get_gpu_index-gpu_path : (z : ℤ) → InInt z → get_gpu_index (ok (gpu_path z)) ≡ done z
unfolding get_gpu_index gpu_path Strings.split
get_gpu_index-gpu_path z h =
    rw (split_one (itoa z) b'/' (itoa-Lacks b'/' z (omega arith) (omega arith)), atoi-itoa z h) refl
