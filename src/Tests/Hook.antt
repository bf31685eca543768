-- ===== src/Tests/Hook.antt =====
-- The hook in a container with one share.
use elastic_gpu_agent.Prelude.{
  Dict, lookup, map, some, ◌≡◌, refl, arith, ◌∷◌, [], List, Text, codes, Result, ok, err,
  file_not_exist, pos, text_eq, if◌then◌else◌,
}
use elastic_gpu_agent.Go.Strconv.{atoi, itoa, format_uint}
use elastic_gpu_agent.Operator.Gpushare.{gpu_path}
use elastic_gpu_agent.Plugins.PreStart.{parse_indexes}
use elastic_gpu_agent.Plugins.Share.{share_id}
use elastic_gpu_agent.Hook.{
  get_env_from_spec, done, get_gpu_index, is_gpu_symlink, find_gpu_indexes, toolkit_args,
}
use elastic_gpu_agent.Go.Strings.{split, has_prefix, trim}
use elastic_gpu_agent.Hook.Minors.{get_nvidia_dev_minor_and_index_mapping, scan_lines}
use elastic_gpu_agent.Hook.Choice.{env_of, or_empty, get_env_from_spec_lem}
use elastic_gpu_agent.Hook.Shares.{
  dir_entry, ShareLink, Node, gpu_link, control_link, plain_file, toolkit_args-parse_indexes,
}

abbrev env : Dict Text
env = (codes "PATH", codes "/bin") ∷ (codes "GPU", codes "0a1b2c3d") ∷ []

get_env_from_spec_lem_example :
    get_env_from_spec (codes "GPU") (env_of env) ≡ or_empty (lookup (codes "GPU") env)
get_env_from_spec_lem_example = get_env_from_spec_lem (codes "GPU") env (omega arith) (omega arith)

abbrev share : ShareLink
share = record { hash = codes "0a1b2c3d"; number = 0; gpu = pos 3 }

abbrev other_share : ShareLink
other_share = record { hash = codes "4e5f6a7b"; number = 0; gpu = pos 1 }

abbrev nodes : List Node
nodes = gpu_link share ∷ gpu_link other_share ∷ control_link share ∷ plain_file (codes "null") ∷ []

abbrev readlink : Text → Result Text
readlink path =
    if text_eq path (codes "/dev/elastic-gpu-0a1b2c3d-0")
    then ok (gpu_path (pos 3))
    else if text_eq path (codes "/dev/elastic-gpu-4e5f6a7b-0")
    then ok (gpu_path (pos 1))
    else err file_not_exist

-- Only the share of the wanted hash is found.
one_found :
    find_gpu_indexes readlink (codes "0a1b2c3d") (ok (map dir_entry nodes)) ≡ done (pos 3 ∷ [])
unfolding find_gpu_indexes is_gpu_symlink get_gpu_index text_eq share_id itoa format_uint gpu_path
    split has_prefix atoi
one_found = refl

toolkit_args-parse_indexes_example :
    (arg : Text) × (toolkit_args (pos 3 ∷ pos 1 ∷ []) ≡ codes "prestart" ∷ arg ∷ [])
    × (parse_indexes arg ≡ ok (pos 3 ∷ pos 1 ∷ []))
toolkit_args-parse_indexes_example = toolkit_args-parse_indexes (pos 3) (pos 1 ∷ []) (omega arith)

abbrev information : Text
information = codes "Model:\t GPU\nDevice Minor:\t 7\n"

-- The minor number of the one GPU.
one_minor :
    get_nvidia_dev_minor_and_index_mapping
      (some (codes "0000:00:1e.0" ∷ []))
      (λ path. some information)
    ≡ some (pos 7 ∷ [])
unfolding get_nvidia_dev_minor_and_index_mapping scan_lines split has_prefix atoi text_eq trim
one_minor = refl
