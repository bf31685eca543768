-- ===== src/Common/Watcher.antt =====
-- `NewFSWatcher` (pkg/common/util.go). The library fsnotify is a parameter.
use elastic_gpu_agent.Prelude.{
  subst, ℕ, ◌+◌, ◌-◌, ◌≡◌, refl, ◌∙◌, ap, sym, List, [], ◌∷◌, arith, Text, All, Result, ok, err,
  Error, Exec, ◌>>=◌, continue,
}

-- fsnotify: a watcher holds files of the system open until it is closed.
pub record Notify : Type 1 where
  pub State : Type 0
  pub Handle : Type 0
  pub open_watchers : State → ℕ
  pub Watches : State → Handle → Text → Type 0
  pub new_watcher : Exec State Handle
  pub add : Handle → Text → Exec State (Unit {0})
  pub close : Handle → State → State
  pub new_watcher-ok :
      (s s' : State) (w : Handle)
      → new_watcher s ≡ (ok w, s')
      → open_watchers s' ≡ open_watchers s + 1
  pub new_watcher-err :
      (s s' : State) (e : Error) → new_watcher s ≡ (err e, s') → open_watchers s' ≡ open_watchers s
  pub add-open : (w : Handle) (f : Text) (s : State) → open_watchers (add w f s).1 ≡ open_watchers s
  pub add-Watches :
      (w : Handle) (f : Text) (s s' : State) → add w f s ≡ (ok tt, s') → Watches s' w f
  pub add-keeps : (w : Handle) (f g : Text) (s : State) → Watches s w g → Watches (add w f s).1 w g
  pub close-open : (w : Handle) (s : State) → open_watchers (close w s) ≡ open_watchers s - 1

module _ (notify : Notify) where
  open notify use {
    State, Handle, open_watchers, Watches, new_watcher, add, close, new_watcher-ok, new_watcher-err,
    add-open, add-Watches, add-keeps, close-open,
  }

  -- The loop over the files, which closes the watcher at the first error.
  add_files : Handle → List Text → Exec State Handle
  add_files w [] s = (ok w, s)
  add_files w (f ∷ fs) s =
      let (r, s') = add w f s in elim r [ ok u ↦ add_files w fs s' | err e ↦ (err e, close w s') ]

  unfoldable pub new_fs_watcher : List Text → Exec State Handle
  unfolding add_files
  new_fs_watcher files = new_watcher >>= λ w. add_files w files

  -- What `NewFSWatcher` does: on success a watcher is open that watches every file; after an error
  -- no more watchers are open than before.
  pub data Watching (files : List Text) (s : State) : Result Handle × State → Type 0 where
    watching :
        (w : Handle) (s' : State)
        → open_watchers s' ≡ open_watchers s + 1
        → All (Watches s' w) files
        → Watching files s (ok w, s')
    failed :
        (e : Error) (s' : State) → open_watchers s' ≡ open_watchers s → Watching files s (err e, s')

  -- What `add_files` does, for files that are watched already.
  data Added (w : Handle) (files : List Text) (s : State) : Result Handle × State → Type 0 where
    added :
        (s' : State)
        → open_watchers s' ≡ open_watchers s
        → ((f : Text) → Watches s w f → Watches s' w f)
        → All (Watches s' w) files
        → Added w files s (ok w, s')
    closed :
        (e : Error) (s' : State)
        → open_watchers s' ≡ open_watchers s - 1
        → Added w files s (err e, s')

  add_files-Added :
      (w : Handle) (files : List Text) (s : State) → Added w files s (add_files w files s)
  unfolding add_files
  add_files-Added w [] s = added s refl (λ f h. h) tt
  add_files-Added w (f ∷ fs) s = go (add w f s) refl (λ t. add_files-Added w fs t)
    where
      then_ :
          (t : State) (r : Result Handle × State)
          → add w f s ≡ (ok tt, t)
          → Added w fs t r
          → Added w (f ∷ fs) s r
      then_ t r e (added s' o k a) =
          let same : open_watchers t ≡ open_watchers s =
            ap (λ x. open_watchers x.1) (sym e) ∙ add-open w f s in
          added s' (o ∙ same)
            (λ g h. k g (subst (λ x. Watches x w g) (ap (λ x. x.1) e) (add-keeps w f g s h)))
            (k f (add-Watches w f s t e), a)
      then_ t r e (closed x s' o) =
          let same : open_watchers t ≡ open_watchers s =
            ap (λ x. open_watchers x.1) (sym e) ∙ add-open w f s in
          closed x s' (o ∙ ap (λ n. n - 1) same)

      go :
          (r : Result (Unit {0}) × State)
          → add w f s ≡ r
          → ((t : State) → Added w fs t (add_files w fs t))
          → Added w
              (f ∷ fs)
              s
              (elim r.0 [ ok u ↦ add_files w fs r.1 | err e ↦ (err e, close w r.1) ])
      go (ok u, t) e ih = then_ t _ e (ih t)
      go (err x, t) e ih = closed x _ (
          close-open w t
          ∙ ap (λ y. open_watchers y.1 - 1) (sym e)
          ∙ ap (λ n. n - 1) (add-open w f s))

  -- `NewFSWatcher` leaks no watcher: either it returns one that watches every file, and one more is
  -- open than before, or it returns an error, and as many are open as before.
  pub new_fs_watcher-Watching :
      (files : List Text) (s : State) → Watching files s (new_fs_watcher files s)
  unfolding new_fs_watcher
  new_fs_watcher-Watching files s = go (new_watcher s) refl
    where
      then_ :
          (w : Handle) (t : State) (r : Result Handle × State)
          → open_watchers t ≡ open_watchers s + 1
          → Added w files t r
          → Watching files s r
      then_ w t r o (added s' p k a) = watching w s' (p ∙ o) a
      then_ w t r o (closed e s' p) = failed e s' (omega (arith, o, p))

      go :
          (r : Result Handle × State)
          → new_watcher s ≡ r
          → Watching files s (continue r.0 (λ w. add_files w files) r.1)
      go (ok w, t) e = then_ w t _ (new_watcher-ok s t w e) (add_files-Added w files t)
      go (err x, t) e = failed x t (new_watcher-err s t x e)
