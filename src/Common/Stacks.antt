-- ===== src/Common/Stacks.antt =====
-- `DumpStacks` (pkg/common/util.go): the stacks of all goroutines, written to a file or to the
-- standard error. `runtime.Stack` and the files are parameters.
use elastic_gpu_agent.Prelude.{
  length-take, subst, take_whole, length-take_le, ℕ, zero, suc, ◌*◌, ◌<◌, ◌≤◌, ◌≡◌, refl, ap, ◌∙◌,
  false, Option, none, some, [], ◌∷◌, ◌++◌, arith, Text, codes, text_eq, length, take, ltb, ◌==◌,
  if◌then◌else◌, Result, ok, err, stacks_not_opened, stacks_not_written, Exec, Bool-cases, inl, inr,
}
use elastic_gpu_agent.Go.FilePath.{join_path}

-- The largest `int` of 64 bits. A longer `bufferLen` is negative, and `make` panics.
abbrev max_int : ℕ
max_int = 9223372036854775807

-- `buf` is what the last call wrote into a buffer of `buf_len` bytes, so `stackSize` is its length.
pub record Dump : Type 0 where
  pub calls : ℕ
  pub buf_len : ℕ
  pub buf : Text
  pub buffer_len : ℕ

abbrev new_dump : Dump
new_dump = record { calls = 0; buf_len = 0; buf = []; buffer_len = 16384 }

-- A buffer after `n` doublings.
unfoldable pub doubled : ℕ → ℕ → ℕ
doubled zero b = b
doubled (suc n) b = doubled n (b * 2)

-- What all stacks are at each call: `runtime.Stack` writes as much of it as the buffer holds.
module _ (trace : ℕ → Text) where
  -- the loop's body
  grow : Dump → Dump
  grow d = record {
    calls = suc d.calls;
    buf_len = d.buffer_len;
    buf = take d.buffer_len (trace d.calls);
    buffer_len = d.buffer_len * 2;
  }

  -- The loop: while the buffer is full. It has no result without fuel, and none where `make` panics.
  unfoldable pub collect_stacks : ℕ → Dump → Option Text
  unfolding grow
  collect_stacks zero d = none
  collect_stacks (suc n) d =
      let rest = collect_stacks n (grow d) in
      if length d.buf == d.buf_len
      then (if ltb max_int d.buffer_len then none else rest)
      else some d.buf

  -- Before each test of the loop behind the first: the buffer holds what a call wrote, and the next
  -- buffer is twice as long.
  record IsGrown (d : Dump) : Type 0 where
    call : ℕ
    written : d.buf ≡ take d.buf_len (trace call)
    next : d.buffer_len ≡ d.buf_len * 2

  -- A buffer that is not full holds a whole trace.
  IsGrown-whole :
      (d : Dump) (g : IsGrown d) → (length d.buf == d.buf_len) ≡ false → d.buf ≡ trace g.call
  IsGrown-whole d g short =
      let at_most : length d.buf ≤ d.buf_len =
        rw g.written (length-take_le d.buf_len (trace g.call)) in
      let less : length d.buf < d.buf_len = ground (arith, at_most) in
      g.written
      ∙ take_whole d.buf_len (trace g.call) (subst (λ s. length s < d.buf_len) g.written less)

  IsGrown-length : (d : Dump) (g : IsGrown d) → length d.buf ≤ length (trace g.call)
  IsGrown-length d g = rw g.written (length-take d.buf_len (trace g.call))

  -- Where the buffer is larger than every trace after `n` doublings, the loop ends with a whole trace.
  collect-ends :
      (n bound : ℕ) (d : Dump)
      → ((i : ℕ) → length (trace i) < bound)
      → bound ≤ 2305843009213693952
      → bound ≤ doubled n d.buf_len
      → IsGrown d
      → (i : ℕ) × (collect_stacks (suc n) d ≡ some (trace i))
  unfolding collect_stacks doubled
  collect-ends zero bound d h top b g = elim (Bool-cases (length d.buf == d.buf_len)) [
    | inr short ↦ (g.call, rw short (ap some (IsGrown-whole d g short)))
    | inl full ↦ absurd (ground (arith, b, full, IsGrown-length d g, h g.call))
  ]
  collect-ends (suc n) bound d h top b g =
      let next =
        collect-ends n bound (grow d) h top (rw g.next b)
          (record { call = d.calls; written = refl; next = refl }) in
      elim (Bool-cases (length d.buf == d.buf_len)) [
        | inr short ↦ (g.call, rw short (ap some (IsGrown-whole d g short)))
        | inl full ↦
            (next.0, ground (arith, next.1, full, g.next, IsGrown-length d g, h g.call, top))
      ]

-- `strings.Replace(s, ":", "", -1)`
without_colons : Text → Text
without_colons [] = []
without_colons (c ∷ s) = let rest = without_colons s in if c == b':' then rest else c ∷ rest

-- What `os` does: a file is opened, written, and synced and closed; the standard error is written.
pub record Output : Type 1 where
  pub State : Type 0
  pub open_file : Text → Exec State (Unit {0})
  pub write_file : Text → Text → Exec State (Unit {0})
  pub close_file : Text → State → State
  pub write_stderr : Text → Exec State (Unit {0})

module _ (output : Output) where
  open output use {State, open_file, write_file, close_file, write_stderr}

  -- the end of the function: the name of the file, or the error
  named : Text → Result (Unit {0}) → Result Text
  named name (ok u) = ok name
  named name (err e) = err (stacks_not_written e)

  -- The deferred calls run after an error too.
  to_file : Text → Text → Result (Unit {0}) × State → Result Text × State
  unfolding named
  to_file path buf (err e, s) = (err (stacks_not_opened e), s)
  to_file path buf (ok u, s) =
      let (r, s') = write_file path buf s in (named path r, close_file path s')

  -- `now` is the time in the format RFC3339.
  file_path : Text → Text → Text
  unfolding without_colons
  file_path dir now =
      join_path dir (codes "goroutine-stacks-" ++ without_colons now ++ codes ".log")

  unfoldable pub write_stacks : Text → Text → Text → Exec State Text
  unfolding to_file file_path named
  write_stacks dir now buf s =
      if text_eq dir []
      then (let (r, s') = write_stderr buf s in (named (codes "/dev/stderr") r, s'))
      else to_file (file_path dir now) buf (open_file (file_path dir now) s)

  after_loop : Text → Text → Option Text → State → Option (Result Text × State)
  after_loop dir now none s = none
  after_loop dir now (some buf) s = some (write_stacks dir now buf s)

  -- No result where the fuel ends or `make` panics.
  unfoldable pub dump_stacks : (ℕ → Text) → ℕ → Text → Text → State → Option (Result Text × State)
  unfolding after_loop
  dump_stacks trace fuel dir now s = after_loop dir now (collect_stacks trace fuel new_dump) s

  -- If no trace of the stacks is as long as 16384 bytes doubled `n` times, and none is as long as
  -- 2 ^ 61 bytes, then `DumpStacks` returns after at most `n + 1` calls of `runtime.Stack`, and what
  -- it writes is a whole trace, never one that the buffer cut off.
  pub dump_stacks-doubled :
      (trace : ℕ → Text) (n bound : ℕ) (dir now : Text) (s : State)
      → ((i : ℕ) → length (trace i) < bound)
      → bound ≤ 2305843009213693952
      → bound ≤ doubled n 16384
      → (i : ℕ) × (dump_stacks trace (suc (suc n)) dir now s
          ≡ some (write_stacks dir now (trace i) s))
  unfolding dump_stacks collect_stacks after_loop grow
  dump_stacks-doubled trace n bound dir now s h top b =
      let (i, e) =
        collect-ends trace n bound (grow trace new_dump) h top b
          (record { call = 0; written = refl; next = refl }) in
      (i, ap (λ o. after_loop dir now o s) e)
