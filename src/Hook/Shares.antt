-- ===== src/Hook/Shares.antt =====
-- The links in /dev that the hook takes for those of a container, and what it passes on.
use elastic_gpu_agent.Prelude.{
  ℕ, ◌≡◌, refl, ap, ◌∙◌, true, false, List, [], ◌∷◌, ◌++◌, arith, Text, codes, text_eq,
  if◌then◌else◌, All, Lacks, map, Result, ok, ℤ, InInt, length, append_assoc, append-nil,
}
use elastic_gpu_agent.Go.Strconv.{itoa, atoi-itoa}
use elastic_gpu_agent.Go.Strings
use elastic_gpu_agent.Go.Strings.{split-join}
use elastic_gpu_agent.Operator.Gpushare.{gpu_path}
use elastic_gpu_agent.Plugins.PreStart.{indexes_of, parse_indexes}
use elastic_gpu_agent.Plugins.Share.{share_id}
use elastic_gpu_agent.Hook.{
  done, DirEntry, is_gpu_symlink, indexes_in, find_gpu_indexes, toolkit_args,
}
use elastic_gpu_agent.Hook.Choice.{itoa-Lacks, get_gpu_index-gpu_path}

-- A share: the hash of its device, its number, and the GPU that its link points to.
pub record ShareLink : Type 0 where
  pub hash : Text
  pub number : ℕ
  pub gpu : ℤ

-- What may stand in /dev: the two links of a share, other links, and files that are no links.
pub data Node : Type 0 where
  gpu_link : ShareLink → Node
  control_link : ShareLink → Node
  other_link : Text → Node
  plain_file : Text → Node

abbrev pub dir_entry : Node → DirEntry
dir_entry (gpu_link s) = record {
  name = codes "elastic-gpu-" ++ share_id s.hash s.number;
  is_symlink = true;
}
dir_entry (control_link s) = record {
  name = codes "elastic-gpuctl-" ++ share_id s.hash s.number;
  is_symlink = true;
}
dir_entry (other_link name) = record { name = name; is_symlink = true }
dir_entry (plain_file name) = record { name = name; is_symlink = false }

-- The GPUs of the shares of one device, in the order of the directory.
unfoldable pub gpus_of : Text → List Node → List ℤ
gpus_of hash [] = []
gpus_of hash (gpu_link s ∷ ns) =
    if text_eq hash s.hash then s.gpu ∷ gpus_of hash ns else gpus_of hash ns
gpus_of hash (control_link s ∷ ns) = gpus_of hash ns
gpus_of hash (other_link name ∷ ns) = gpus_of hash ns
gpus_of hash (plain_file name ∷ ns) = gpus_of hash ns

-- A prefix of the same length as a text that is followed by more is that text.
has_prefix_same_length :
    (h g s : Text) → length g ≡ length h → Strings.has_prefix (h ++ s) g ≡ text_eq g h
unfolding Strings.has_prefix text_eq
has_prefix_same_length [] [] [] e = refl
has_prefix_same_length [] [] (c ∷ s) e = refl
has_prefix_same_length [] (d ∷ g) s e = absurd (omega arith)
has_prefix_same_length (c ∷ h) [] s e = absurd (omega arith)
has_prefix_same_length (c ∷ h) (d ∷ g) s e = ground (arith, has_prefix_same_length h g s)

is_gpu_symlink-share :
    (g : Text) (s : ShareLink)
    → length g ≡ length s.hash
    → is_gpu_symlink g (dir_entry (gpu_link s)) ≡ text_eq g s.hash
unfolding is_gpu_symlink share_id Strings.has_prefix
is_gpu_symlink-share g s e = has_prefix_same_length s.hash g _ e

is_gpu_symlink-control :
    (g : Text) (s : ShareLink) → is_gpu_symlink g (dir_entry (control_link s)) ≡ false
unfolding is_gpu_symlink Strings.has_prefix
is_gpu_symlink-control g s = refl

is_gpu_symlink-plain : (g name : Text) → is_gpu_symlink g (dir_entry (plain_file name)) ≡ false
unfolding is_gpu_symlink
is_gpu_symlink-plain g name = refl

-- A longer prefix is none where a shorter one is none.
has_prefix_shorter :
    (s a b : Text) → Strings.has_prefix s a ≡ false → Strings.has_prefix s (a ++ b) ≡ false
unfolding Strings.has_prefix
has_prefix_shorter s [] b e = absurd (ground (arith, e))
has_prefix_shorter [] (d ∷ a) b e = refl
has_prefix_shorter (c ∷ s) (d ∷ a) b e = ground (arith, e, has_prefix_shorter s a b)

is_gpu_symlink-other :
    (g name : Text)
    → Strings.has_prefix name (codes "elastic-gpu-") ≡ false
    → is_gpu_symlink g (dir_entry (other_link name)) ≡ false
unfolding is_gpu_symlink
is_gpu_symlink-other g name e = has_prefix_shorter name (codes "elastic-gpu-") g e

-- A well-formed directory for the wanted hash: hashes have one length, each link of a share points to
-- its GPU, and no other link is named like one.
abbrev pub IsShareOf : (Text → Result Text) → Text → Node → Type 0
IsShareOf readlink hash (gpu_link s) =
    (length hash ≡ length s.hash)
    × InInt s.gpu
    × (readlink (codes "/dev/" ++ codes "elastic-gpu-" ++ share_id s.hash s.number)
        ≡ ok (gpu_path s.gpu))
IsShareOf readlink hash (control_link s) = Unit
IsShareOf readlink hash (other_link name) = Strings.has_prefix name (codes "elastic-gpu-") ≡ false
IsShareOf readlink hash (plain_file name) = Unit

module _ (readlink : Text → Result Text) (hash : Text) where
  indexes_in_lem :
      (ns : List Node)
      → All (IsShareOf readlink hash) ns
      → indexes_in readlink hash (map dir_entry ns) ≡ done (gpus_of hash ns)
  unfolding indexes_in gpus_of
  indexes_in_lem [] h = refl
  indexes_in_lem (gpu_link s ∷ ns) ((len, rng, target), h) =
      rw
        (
          is_gpu_symlink-share hash s len,
          target,
          get_gpu_index-gpu_path s.gpu rng,
          indexes_in_lem ns h,
        )
        (ground arith)
  indexes_in_lem (control_link s ∷ ns) (u, h) =
      rw (is_gpu_symlink-control hash s) (indexes_in_lem ns h)
  indexes_in_lem (other_link name ∷ ns) (e, h) =
      rw (is_gpu_symlink-other hash name e) (indexes_in_lem ns h)
  indexes_in_lem (plain_file name ∷ ns) (u, h) =
      rw (is_gpu_symlink-plain hash name) (indexes_in_lem ns h)

  -- In a directory with links of shares, their control links, links that are not named like those,
  -- and files that are no links, the hook finds exactly the GPUs of the shares of the wanted hash, if all hashes have the length of the
  -- wanted one and each link of a share points to its GPU.
  pub find_gpu_indexes_lem :
      (ns : List Node)
      → All (IsShareOf readlink hash) ns
      → find_gpu_indexes readlink hash (ok (map dir_entry ns)) ≡ done (gpus_of hash ns)
  unfolding find_gpu_indexes
  find_gpu_indexes_lem ns h = indexes_in_lem ns h

All-Lacks : (zs : List ℤ) → All (Lacks b',') (map itoa zs)
All-Lacks [] = tt
All-Lacks (z ∷ zs) = (itoa-Lacks b',' z (omega arith) (omega arith), All-Lacks zs)

indexes_of-itoa :
    (v : Text) (zs acc : List ℤ) → All InInt zs → indexes_of v (map itoa zs) acc ≡ ok (acc ++ zs)
unfolding indexes_of
indexes_of-itoa v [] acc h = rw append-nil refl
indexes_of-itoa v (z ∷ zs) acc (hz, h) =
    rw (atoi-itoa z hz, indexes_of)
      (indexes_of-itoa v zs (acc ++ z ∷ []) h ∙ ap ok (append_assoc acc (z ∷ []) zs))

-- The argument that the hook makes of a list of GPUs is in the form of the annotation: the core
-- plugin's handler reads the GPUs back from it.
pub toolkit_args-parse_indexes :
    (z : ℤ) (zs : List ℤ)
    → All InInt (z ∷ zs)
    → (arg : Text) × (toolkit_args (z ∷ zs) ≡ codes "prestart" ∷ arg ∷ [])
      × (parse_indexes arg ≡ ok (z ∷ zs))
unfolding toolkit_args parse_indexes
toolkit_args-parse_indexes z zs h = (
  Strings.join (map itoa (z ∷ zs)) b',',
  refl,
  rw (split-join (map itoa (z ∷ zs)) b',' (λ e. cc) (All-Lacks (z ∷ zs)))
      (indexes_of-itoa _ (z ∷ zs) [] h),
)
