-- ===== src/Hook/Process.antt =====
-- `main` of the hook as a process: its log, its standard input, and the toolkit that it runs.
use elastic_gpu_agent.Prelude.{
  ℕ, ◌≡◌, ap, ◌∙◌, arith, true, false, Option, some, List, [], ◌∷◌, Text, codes, text_eq, All,
  Lacks, Dict, lookup, Result, ok, err, no_stdin_pipe, prestart_failed, ℤ,
}
use elastic_gpu_agent.Go.FilePath.{join_path}
use elastic_gpu_agent.Hook.{
  Outcome, done, failed, crashed, DirEntry, ContainerSpec, find_gpu_indexes, get_env_from_spec,
  load_spec, toolkit_args, prestart,
}
use elastic_gpu_agent.Hook.Choice.{env_of, or_empty, get_env_from_spec_lem}

-- A process that the hook starts, with all that it is fed.
pub record Run : Type 0 where
  pub program : Text
  pub args : List Text
  pub stdin : Text

-- How the hook ends: `main` returns, or the log's `Fatal` or a panic ends the process.
pub data Exit : Type 0 where
  returns : Exit
  dies : Exit

-- What the system answers: the log file can be opened, the standard input, the member `bundle` of
-- the decoded input if it has one that is a text, the spec of a file if it can be opened and decoded,
-- the links and the entries of /dev, the pipe, and the output of a process.
pub record Host : Type 0 where
  pub open_log : Result (Unit {0})
  pub read_stdin : Result Text
  pub bundle_of : Text → Option Text
  pub read_spec : Text → Option ContainerSpec
  pub readlink : Text → Result Text
  pub read_dev : Result (List DirEntry)
  pub stdin_pipe : Result (Unit {0})
  pub combined_output : Run → Result Text

abbrev pub toolkit_run : List Text → Text → Run
toolkit_run args buf = record {
  program = codes "/usr/bin/nvidia-container-toolkit";
  args = args;
  stdin = buf;
}

-- `xmountSgpuDev`, of `syscall.Mount` and its flag `MS_BIND`; nothing calls it
xmount_sgpu_dev :
    (Text → Text → Text → ℕ → Text → Result (Unit {0})) → ℕ → Text → Text → Result (Unit {0})
xmount_sgpu_dev mount ms_bind abs_src abs_dst = mount abs_src abs_dst (codes "bind") ms_bind []

module _ (host : Host) where
  output_of : Result Text → Result (Unit {0})
  output_of (ok output) = ok tt
  output_of (err e) = err (prestart_failed e)

  with_pipe : Result (Unit {0}) → Run → Result (Unit {0}) × List Run
  unfolding output_of
  with_pipe (ok u) run = (output_of (host.combined_output run), run ∷ [])
  with_pipe (err e) run = (err (no_stdin_pipe e), [])

  -- `doPreStart`, of the toolkit's arguments, with the processes that it starts
  unfoldable pub do_pre_start : List Text → Text → Result (Unit {0}) × List Run
  unfolding with_pipe
  do_pre_start args buf = with_pipe host.stdin_pipe (toolkit_run args buf)

  -- The error of the toolkit is only logged.
  run_chosen : Outcome (List Text) → Text → Exit × List Run
  run_chosen (done args) buf = (returns, (do_pre_start args buf).1)
  run_chosen failed buf = (returns, [])
  run_chosen crashed buf = (dies, [])

  chosen : Text → Outcome (List Text)
  chosen buf =
      prestart host.readlink host.read_dev
        (λ bundle. host.read_spec (join_path bundle (codes "config.json")))
        (ok (host.bundle_of buf))

  with_stdin : Result Text → Exit × List Run
  unfolding run_chosen chosen
  with_stdin (ok buf) = run_chosen (chosen buf) buf
  with_stdin (err e) = (returns, [])

  with_log : Result (Unit {0}) → Exit × List Run
  unfolding with_stdin
  with_log (ok u) = with_stdin host.read_stdin
  with_log (err e) = (dies, [])

  -- `main`, with `setLog`
  unfoldable pub main : Exit × List Run
  unfolding with_log
  main = with_log host.open_log

  -- The hook was started for a container with these variables, and can run the toolkit: no step
  -- before the choice of the GPUs fails.
  pub record IsStartedFor (env : Dict Text) (buf : Text) : Type 0 where
    pub log : host.open_log ≡ ok tt
    pub stdin : host.read_stdin ≡ ok buf
    pub bundle : Text
    pub has_bundle : host.bundle_of buf ≡ some bundle
    pub version : Text
    pub has_version : text_eq version [] ≡ false
    pub spec :
        host.read_spec (join_path bundle (codes "config.json"))
        ≡ some (record { version = version; env = some (env_of env); has_root = true })
    pub names : All (λ (e : Text × Text). Lacks b'=' e.0) env
    pub pipe : host.stdin_pipe ≡ ok tt

  -- In a container with a GPU variable the hook runs the toolkit once, feeds it the whole of its
  -- input, and tells it the GPUs that are found for the value.
  pub main-gpus :
      (env : Dict Text) (buf hash : Text) (gpus : List ℤ)
      → IsStartedFor env buf
      → lookup (codes "GPU") env ≡ some hash
      → text_eq hash [] ≡ false
      → find_gpu_indexes host.readlink hash host.read_dev ≡ done gpus
      → main ≡ (returns, toolkit_run (toolkit_args gpus) buf ∷ [])
  unfolding main prestart do_pre_start load_spec
  main-gpus env buf hash gpus h g n f =
      let value : get_env_from_spec (codes "GPU") (env_of env) ≡ hash =
        get_env_from_spec_lem (codes "GPU") env (omega arith) h.names ∙ ap or_empty g in
      ground (arith, h.log, h.stdin, h.has_bundle, h.spec, h.has_version, h.pipe, value, n, f)
