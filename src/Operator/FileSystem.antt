-- ===== src/Operator/FileSystem.antt =====
-- The file system, as the agent uses it through package `os`: `Stat`, `Symlink`, `Remove`, with the
-- laws that the calls document. A call may fail for a reason of its own, and then changes nothing.
use elastic_gpu_agent.Prelude.{
  ◌≡◌, ◌≢◌, Option, none, some, Text, text_eq, if◌then◌else◌, Result, ok, err, file_not_exist,
}

-- What a directory entry is: a symbolic link with its text, or anything else.
pub data Entry : Type 0 where
  link : Text → Entry
  other : Entry

pub record Files : Type 1 where
  pub State : Type 0
  -- the directory entry at a path, as `Lstat` and `Readlink` see it
  pub entry : State → Text → Option Entry
  pub stat : State → Text → Result (Unit {0})
  -- `Symlink(target, path)`
  pub symlink : State → Text → Text → Result State
  pub remove : State → Text → Result State
  pub stat_absent : (s : State) (p : Text) → entry s p ≡ none → stat s p ≡ err file_not_exist
  pub symlink_fresh : (s s' : State) (t p : Text) → symlink s t p ≡ ok s' → entry s p ≡ none
  pub entry-symlink :
      (s s' : State) (t p q : Text)
      → symlink s t p ≡ ok s'
      → entry s' q ≡ (if text_eq p q then some (link t) else entry s q)
  pub remove_present : (s s' : State) (p : Text) → remove s p ≡ ok s' → entry s p ≢ none
  pub entry-remove :
      (s s' : State) (p q : Text)
      → remove s p ≡ ok s'
      → entry s' q ≡ (if text_eq p q then none else entry s q)
