-- ===== src/Hook.antt =====
-- cmd/elastic-gpu-hook/main.go: the prestart hook of the container runtime, which tells NVIDIA's
-- toolkit which GPUs the links of the container name. The proofs are in the modules below.
pub mod Choice
pub mod Shares
pub mod Minors
pub mod Process
use elastic_gpu_agent.Prelude.{
  ℕ, Bool, true, false, ◌&&◌, ◌==◌, Option, none, some, List, [], ◌∷◌, ◌++◌, Text, codes, text_eq,
  if◌then◌else◌, map, Result, ok, err, ℤ,
}
use elastic_gpu_agent.Go.Strconv.{atoi, itoa}
use elastic_gpu_agent.Go.Strings

-- How a call ends: with a value, with an error, or with the end of the process, by `log.Fatal` or by
-- a panic.
pub data Outcome (A : Type 0) : Type 0 where
  done : A → Outcome A
  failed : Outcome A
  crashed : Outcome A

-- `s[strings.Index(s, c)+1:]`, if there is the byte
after_byte : ℕ → Text → Option Text
after_byte c [] = none
after_byte c (d ∷ s) = let rest = after_byte c s in if d == c then some s else rest

or_rest : Option Text → Text → Text
or_rest none rest = rest
or_rest (some v) rest = v

find_env : Text → List Text → Text
unfolding after_byte or_rest
find_env env_name [] = []
find_env env_name (env ∷ envs) =
    let rest = find_env env_name envs in
    if Strings.has_prefix env env_name then or_rest (after_byte b'=' env) rest else rest

-- `getEnvFromSpec`
unfoldable pub get_env_from_spec : Text → List Text → Text
unfolding find_env
get_env_from_spec env_name envs = find_env (env_name ++ b'=' ∷ []) envs

-- `nvidiaIndex[6:]`, which panics on a shorter text
after_six : Text → Option Text
after_six (a ∷ b ∷ c ∷ d ∷ e ∷ f ∷ s) = some s
after_six s = none

parsed : Option ℤ → Outcome ℤ
parsed none = failed
parsed (some z) = done z

index_of_name : Option Text → Outcome ℤ
unfolding parsed
index_of_name none = crashed
index_of_name (some s) = parsed (atoi s)

-- `strings.Split(nvidiaPath, "/")[2]`, which panics if there are fewer parts
third_part : List Text → Outcome ℤ
unfolding after_six index_of_name
third_part (a ∷ b ∷ c ∷ rest) = index_of_name (after_six c)
third_part parts = crashed

-- `getGPUIndex`, of what `os.Readlink` returns
unfoldable pub get_gpu_index : Result Text → Outcome ℤ
unfolding third_part
get_gpu_index (ok nvidia_path) = third_part (Strings.split nvidia_path b'/')
get_gpu_index (err e) = crashed

-- `fs.DirEntry`: its name, and whether it is a symbolic link
pub record DirEntry : Type 0 where
  pub name : Text
  pub is_symlink : Bool

unfoldable pub is_gpu_symlink : Text → DirEntry → Bool
is_gpu_symlink gpu f = f.is_symlink && Strings.has_prefix f.name (codes "elastic-gpu-" ++ gpu)

-- a link that does not parse is skipped
add_index : Outcome ℤ → Outcome (List ℤ) → Outcome (List ℤ)
add_index (done z) (done zs) = done (z ∷ zs)
add_index (done z) failed = failed
add_index (done z) crashed = crashed
add_index failed rest = rest
add_index crashed rest = crashed

module _ (readlink : Text → Result Text) where
  -- the loop over the entries of /dev
  indexes_in : Text → List DirEntry → Outcome (List ℤ)
  unfolding add_index
  indexes_in gpu [] = done []
  indexes_in gpu (f ∷ fs) =
      let rest = indexes_in gpu fs in
      if is_gpu_symlink gpu f
      then add_index (get_gpu_index (readlink (codes "/dev/" ++ f.name))) rest
      else rest

  -- `findGPUIndexes`, of what `os.ReadDir` returns
  unfoldable pub find_gpu_indexes : Text → Result (List DirEntry) → Outcome (List ℤ)
  unfolding indexes_in
  find_gpu_indexes gpu (ok dev_files) = indexes_in gpu dev_files
  find_gpu_indexes gpu (err e) = failed

-- `doPreStart`: the arguments of the toolkit
unfoldable pub toolkit_args : List ℤ → List Text
toolkit_args [] = codes "prestart" ∷ []
toolkit_args (z ∷ zs) = codes "prestart" ∷ Strings.join (map itoa (z ∷ zs)) b',' ∷ []

-- of the OCI spec, what the hook reads; a missing process is `none`
pub record ContainerSpec : Type 0 where
  pub version : Text
  pub env : Option (List Text)
  pub has_root : Bool

with_process : Bool → Option (List Text) → Outcome (List Text)
with_process has_root none = failed
with_process has_root (some env) = if has_root then done env else failed

-- `loadSpec`, from the decoded file on; a file that cannot be opened or decoded is a panic
unfoldable pub load_spec : Option ContainerSpec → Outcome (List Text)
unfolding with_process
load_spec none = crashed
load_spec (some spec) =
    if text_eq spec.version [] then failed else with_process spec.has_root spec.env

-- What `main` runs the toolkit with, `failed` if it does not run it.
with_indexes : Outcome (List ℤ) → Outcome (List Text)
with_indexes (done zs) = done (toolkit_args zs)
with_indexes failed = failed
with_indexes crashed = crashed

module _ (readlink : Text → Result Text) (dev : Result (List DirEntry)) where
  with_env : Outcome (List Text) → Outcome (List Text)
  unfolding with_indexes
  with_env (done env) =
      let gpu = get_env_from_spec (codes "GPU") env in
      if text_eq gpu []
      then done (toolkit_args [])
      else with_indexes (find_gpu_indexes readlink gpu dev)
  with_env failed = failed
  with_env crashed = crashed

  with_bundle : (Text → Option ContainerSpec) → Option Text → Outcome (List Text)
  unfolding with_env
  with_bundle config none = failed
  with_bundle config (some bundle) = with_env (load_spec (config bundle))

  -- `main`, of what was read from standard input: the text of its member `bundle`, if it has one
  -- that is a text
  unfoldable pub prestart :
      (Text → Option ContainerSpec) → Result (Option Text) → Outcome (List Text)
  unfolding with_bundle
  prestart config (ok bundle) = with_bundle config bundle
  prestart config (err e) = failed
