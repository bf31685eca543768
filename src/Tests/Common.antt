-- ===== src/Tests/Common.antt =====
-- The stacks, and the watcher of files, in memory.
use elastic_gpu_agent.Prelude.{
  sym, subst, ap, Error, ℕ, ◌+◌, ◌-◌, ◌≤◌, ◌<◌, ◌≡◌, refl, arith, some, List, [], ◌∷◌, Text, codes,
  length, Member, first, later, Result, ok, err,
}
use elastic_gpu_agent.Common.Stacks.{
  Output, doubled, write_stacks, dump_stacks, dump_stacks-doubled,
}
use elastic_gpu_agent.Common.Watcher.{Notify, new_fs_watcher, Watching, new_fs_watcher-Watching}

-- What is written, in order.
abbrev pub output : Output
output = record {
  State = List Text;
  open_file = λ path s. (ok tt, s);
  write_file = λ path buf s. (ok tt, buf ∷ s);
  close_file = λ path s. s;
  write_stderr = λ buf s. (ok tt, buf ∷ s);
}

abbrev pub trace : ℕ → Text
trace i = codes "goroutine 1"

pub short : (i : ℕ) → length (trace i) < 16384
short i = omega arith

room : 16384 ≤ doubled 0 16384
unfolding doubled
room = omega arith

dump_stacks-doubled_example :
    (i : ℕ) × (dump_stacks output trace 2 (codes "/var/log") (codes "12:00") []
      ≡ some (write_stacks output (codes "/var/log") (codes "12:00") (trace i) []))
dump_stacks-doubled_example =
    dump_stacks-doubled output trace 0 16384 (codes "/var/log") (codes "12:00") [] short
      (omega arith) room

abbrev Watched : Type 0
Watched = ℕ × List Text

added :
    (f : Text) (s s' : Watched)
    → ◌≡◌ {A = Result (Unit {0}) × Watched} (ok tt, (s.0, f ∷ s.1)) (ok tt, s')
    → Member f s'.1
added f s s' e = subst (λ (r : Result (Unit {0}) × Watched). Member f r.1.1) e first

made_watcher :
    (s s' : Watched) (r r' : Result (Unit {0}))
    → ◌≡◌ {A = Result (Unit {0}) × Watched} (r, (s.0 + 1, s.1)) (r', s')
    → s'.0 ≡ s.0 + 1
made_watcher s s' r r' e = ap (λ (x : Result (Unit {0}) × Watched). x.1.0) (sym e)

not_failed :
    (s s' : Watched) (e : Error)
    → ◌≡◌ {A = Result (Unit {0}) × Watched} (ok tt, (s.0 + 1, s.1)) (err e, s')
    → s'.0 ≡ s.0
not_failed s s' e h = absurd (cc)

abbrev notify : Notify
notify = record {
  State = Watched;
  Handle = Unit;
  open_watchers = λ s. s.0;
  Watches = λ s w f. Member f s.1;
  new_watcher = λ s. (ok tt, (s.0 + 1, s.1));
  add = λ w f s. (ok tt, (s.0, f ∷ s.1));
  close = λ w s. (s.0 - 1, s.1);
  new_watcher-ok = λ s s' w e. made_watcher s s' _ _ e;
  new_watcher-err = λ s s' e h. not_failed s s' e h;
  add-open = λ w f s. refl;
  add-Watches = λ w f s s' e. added f s s' e;
  add-keeps = λ w f g s m. later m;
  close-open = λ w s. refl;
}

abbrev files : List Text
files = codes "/var/lib/kubelet/device-plugins/" ∷ []

new_fs_watcher-Watching_example :
    Watching notify files (0, []) (new_fs_watcher notify files (0, []))
new_fs_watcher-Watching_example = new_fs_watcher-Watching notify files (0, [])
