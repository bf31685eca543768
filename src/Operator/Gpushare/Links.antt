-- ===== src/Operator/Gpushare/Links.antt =====
-- What `Create` and `Delete` do to the directory entries.
use elastic_gpu_agent.Prelude.{
  ◌≡◌, ◌≢◌, ◌⊎◌, inl, inr, refl, ◌∙◌, true, false, Bool, none, some, ◌∷◌, arith, Text, codes,
  text_eq, text_eq_iff, append_cancel_left, text_eq_refl, subst, text_eq_sound, Result, ok, err, ℤ,
  Bool-cases,
}
use elastic_gpu_agent.Operator.FileSystem.{Files, Entry, link}
use elastic_gpu_agent.Operator.Gpushare.{
  gpu_path, gpu_ctl_path, sym_path, sym_ctl_path, is_exist, call, create_ctl, after_link, create,
}

pub sym_path-injective : (a b : Text) → sym_path a ≡ sym_path b → a ≡ b
unfolding sym_path
sym_path-injective a b e = append_cancel_left (codes "/host/dev/elastic-gpu-") a b e

pub sym_ctl_path-injective : (a b : Text) → sym_ctl_path a ≡ sym_ctl_path b → a ≡ b
unfolding sym_ctl_path
sym_ctl_path-injective a b e = append_cancel_left (codes "/host/dev/elastic-gpuctl-") a b e

-- A share's first link is no share's control link: the names differ in their eleventh byte.
pub sym_path-ne-sym_ctl_path : (a b : Text) → sym_path a ≢ sym_ctl_path b
unfolding sym_path sym_ctl_path
sym_path-ne-sym_ctl_path a b e =
    let tails : b'-' ∷ a ≡ b'c' ∷ b't' ∷ b'l' ∷ b'-' ∷ b =
      append_cancel_left (codes "/host/dev/elastic-gpu") _ _ e in
    cc

-- The two links of a share.
abbrev pub IsLinkOf : Text → Text → Type 0
IsLinkOf id q = (q ≡ sym_path id) ⊎ (q ≡ sym_ctl_path id)

module _ (files : Files) where
  open files use {
    State, entry, stat, symlink, remove, stat_absent, symlink_fresh, entry-symlink, remove_present,
    entry-remove,
  }

  -- From `s` to `t` no entry is changed or removed, and those that are new stand at paths of `P`.
  pub record Extends (P : Text → Type 0) (s t : State) : Type 0 where
    pub keeps : (q : Text) (x : Entry) → entry s q ≡ some x → entry t q ≡ some x
    pub frame : (q : Text) → ¬ P q → entry t q ≡ entry s q

  pub Extends-refl : (P : Text → Type 0) (s : State) → Extends P s s
  Extends-refl P s = record { keeps = λ q x h. h; frame = λ q h. refl }

  pub Extends-trans :
      (P : Text → Type 0) (s t u : State) → Extends P s t → Extends P t u → Extends P s u
  Extends-trans P s t u g h = record {
    keeps = λ q x e. h.keeps q x (g.keeps q x e);
    frame = λ q n. h.frame q n ∙ g.frame q n;
  }

  pub Extends-weaken :
      (P Q : Text → Type 0) (s t : State) → ((q : Text) → P q → Q q) → Extends P s t → Extends Q s t
  Extends-weaken P Q s t w g = record { keeps = g.keeps; frame = λ q n. g.frame q (λ p. n (w q p)) }

  symlink-Extends :
      (P : Text → Type 0) (s s' : State) (t p : Text) → P p → symlink s t p ≡ ok s' → Extends P s s'
  symlink-Extends P s s' t p hp e = record {
    keeps = λ q x h.
        ground (arith, entry-symlink s s' t p q e, symlink_fresh s s' t p e, text_eq_iff p q);
    frame = λ q n. elim (Bool-cases (text_eq p q)) [
      | inl same ↦ absurd (n (subst P (text_eq_sound p q same) hp))
      | inr differ ↦ ground (arith, entry-symlink s s' t p q e)
    ];
  }

  is_exist-entry : (s : State) (p : Text) → is_exist files s p ≡ true → entry s p ≢ none
  unfolding is_exist
  is_exist-entry s p h e = ground (arith, stat_absent s p e)

  -- A link that was just made is there.
  entry-symlink_self :
      (s s' : State) (t p : Text) → symlink s t p ≡ ok s' → entry s' p ≡ some (link t)
  entry-symlink_self s s' t p e = ground (arith, entry-symlink s s' t p p e, text_eq_refl p)

  -- The outcome of a step that makes a link unless one is there.
  record Ensured (P : Text → Type 0) (p t : Text) (s : State) (r : Result (Unit {0}) × State)
      : Type 0 where
    extends : Extends P s r.1
    present : r.0 ≡ ok tt → entry r.1 p ≢ none
    fresh : r.0 ≡ ok tt → entry s p ≡ none → entry r.1 p ≡ some (link t)

  create_ctl-Ensured :
      (P : Text → Type 0) (p : Text) (s : State)
      → P p
      → Ensured P p gpu_ctl_path s (create_ctl files p s)
  create_ctl-Ensured P p s hp = go (is_exist files s p) (symlink s gpu_ctl_path p) refl refl
    where
      go :
          (b : Bool) (r : Result State)
          → is_exist files s p ≡ b
          → symlink s gpu_ctl_path p ≡ r
          → Ensured P p gpu_ctl_path s (create_ctl files p s)
      go true r e _ =
          unfold create_ctl in
          rw e (record {
            extends = Extends-refl P s;
            present = λ _. is_exist-entry s p e;
            fresh = λ _ n. absurd (is_exist-entry s p e n);
          })
      go false (err x) e g =
          unfold create_ctl call in
          rw (e, g) (record { extends = Extends-refl P s; present = λ h. cc; fresh = λ h. cc })
      go false (ok s') e g =
          unfold create_ctl call in
          rw (e, g)
            (record {
              extends = symlink-Extends P s s' gpu_ctl_path p hp g;
              present = λ _ n. cc (entry-symlink_self s s' gpu_ctl_path p g);
              fresh = λ _ _. entry-symlink_self s s' gpu_ctl_path p g;
            })

  -- What `Create` does: entries that were there stay as they were, and only the two links of the
  -- share are new. If it returns no error the first link is there; it has the GPU for its target and
  -- the control link is there too, unless the first link stood there before.
  pub record Created (index : ℤ) (id : Text) (s : State) (r : Result (Unit {0}) × State)
      : Type 0 where
    pub extends : Extends (IsLinkOf id) s r.1
    pub present : r.0 ≡ ok tt → entry r.1 (sym_path id) ≢ none
    pub target :
        r.0 ≡ ok tt
        → entry s (sym_path id) ≡ none
        → entry r.1 (sym_path id) ≡ some (link (gpu_path index))
    pub control : r.0 ≡ ok tt → entry s (sym_path id) ≡ none → entry r.1 (sym_ctl_path id) ≢ none

  -- `Create`, on each of its branches, keeps every entry that was there and adds at most the two
  -- links of the share. If it returns no error the first link is there; unless it stood there before
  -- it points to the GPU, and the control link is there too.
  pub create-Created :
      (index : ℤ) (id : Text) (s : State) → Created index id s (create files index id s)
  create-Created index id s = go (is_exist files s p) (symlink s (gpu_path index) p) refl refl
    where
      p : Text
      p = sym_path id

      go :
          (b : Bool) (r : Result State)
          → is_exist files s p ≡ b
          → symlink s (gpu_path index) p ≡ r
          → Created index id s (create files index id s)
      go true r e _ =
          unfold create in
          rw e (record {
            extends = Extends-refl (IsLinkOf id) s;
            present = λ _. is_exist-entry s p e;
            target = λ _ n. absurd (is_exist-entry s p e n);
            control = λ _ n. absurd (is_exist-entry s p e n);
          })
      go false (err x) e g =
          unfold create after_link in
          rw (e, g)
            (record {
              extends = Extends-refl (IsLinkOf id) s;
              present = λ h. cc;
              target = λ h. cc;
              control = λ h. cc;
            })
      go false (ok s') e g =
          unfold create after_link in
          rw (e, g)
            (let made = entry-symlink_self s s' (gpu_path index) p g in
              let c = create_ctl-Ensured (IsLinkOf id) (sym_ctl_path id) s' (inr refl) in
              let kept = c.extends.keeps p (link (gpu_path index)) made in
              record {
                extends =
                    Extends-trans (IsLinkOf id) s s' _
                      (symlink-Extends (IsLinkOf id) s s' (gpu_path index) p (inl refl) g)
                      c.extends;
                present = λ _ n. cc (kept);
                target = λ _ _. kept;
                control = λ h _. c.present h;
              })
