-- ===== src/Plugins/Gc/Shares.antt =====
-- The shares of one device, deleted in a row.
use elastic_gpu_agent.Prelude.{
  ℕ, zero, suc, ◌+◌, ◌<◌, ◌≡◌, refl, sym, ap, ◌∙◌, inl, inr, subst, arith, none, Text, Lacks, ok,
  continue, sep_cancel,
}
use elastic_gpu_agent.Common.{useless_number}
use elastic_gpu_agent.Operator.FileSystem.{Files}
use elastic_gpu_agent.Operator.Gpushare
use elastic_gpu_agent.Operator.Gpushare.{sym_path, sym_ctl_path}
use elastic_gpu_agent.Operator.Gpushare.Links.{
  IsLinkOf, sym_path-injective, sym_ctl_path-injective, sym_path-ne-sym_ctl_path,
}
use elastic_gpu_agent.Operator.Gpushare.Removal.{
  IsPresent, IsAbsent, IsRemovable, delete-IsPresent, delete-none, delete-frame,
}
use elastic_gpu_agent.Plugins.Share.{share_id, share_id-injective}
use elastic_gpu_agent.Plugins.Gc.{delete_more}

-- A path is a link of one share at most.
pub one_share : (a b q : Text) → IsLinkOf a q → IsLinkOf b q → a ≡ b
one_share a b q (inl e) (inl f) = sym_path-injective a b (sym e ∙ f)
one_share a b q (inl e) (inr f) = absurd (sym_path-ne-sym_ctl_path a b (sym e ∙ f))
one_share a b q (inr e) (inl f) = absurd (sym_path-ne-sym_ctl_path b a (sym f ∙ e))
one_share a b q (inr e) (inr f) = sym_ctl_path-injective a b (sym e ∙ f)

-- Shares with one name are of one device, where the hashes have no dash.
pub hash_of_share :
    (g h : Text) (i j : ℕ) → Lacks b'-' g → Lacks b'-' h → share_id g i ≡ share_id h j → g ≡ h
unfolding share_id
hash_of_share g h i j lg lh e = (sep_cancel b'-' g h _ _ lg lh e).0

module _ (files : Files) where
  open files use {State, entry}

  -- An entry that is none of a share's links is the same before and after.
  pub kept_IsPresent :
      (id : Text) (s t : State)
      → ((q : Text) → IsLinkOf id q → entry t q ≡ entry s q)
      → IsPresent files id s
      → IsPresent files id t
  kept_IsPresent id s t k (h, g) = (
    λ e. h (sym (k (sym_path id) (inl refl)) ∙ e),
    λ e. g (sym (k (sym_ctl_path id) (inr refl)) ∙ e),
  )

  -- The `n` shares from `i` on are deleted, and nothing else.
  pub record Cleared (hash : Text) (i n : ℕ) (s s' : State) : Type 0 where
    pub gone : (k : ℕ) → k < n → IsAbsent files (share_id hash (i + k)) s'
    pub frame : (q : Text) → ((k : ℕ) → ¬ IsLinkOf (share_id hash k) q) → entry s' q ≡ entry s q
    pub stays : (q : Text) → entry s q ≡ none → entry s' q ≡ none

  pub Cleared-refl : (hash : Text) (i : ℕ) (s : State) → Cleared hash i 0 s s
  Cleared-refl hash i s = record {
    gone = λ k h. absurd (omega (arith, h));
    frame = λ q h. refl;
    stays = λ q h. h;
  }

  -- One more share in front.
  pub Cleared-suc :
      (hash : Text) (i n : ℕ) (s t u : State)
      → Gpushare.delete files useless_number (share_id hash i) s ≡ (ok tt, t)
      → IsAbsent files (share_id hash i) t
      → Cleared hash (suc i) n t u
      → Cleared hash i (suc n) s u
  Cleared-suc hash i n s t u e g c = record {
    gone = gone_at;
    frame = λ q h.
        c.frame q h
        ∙ ap (λ r. entry r.1 q) (sym e)
        ∙ delete-frame files useless_number (share_id hash i) q s (h i);
    stays = λ q h.
        c.stays q (
          ap (λ r. entry r.1 q) (sym e) ∙ delete-none files useless_number (share_id hash i) q s h);
  }
    where
      gone_at : (k : ℕ) → k < suc n → IsAbsent files (share_id hash (i + k)) u
      gone_at zero h =
          subst (λ j. IsAbsent files (share_id hash j) u) (omega arith)
            (c.stays _ g.0, c.stays _ g.1)
      gone_at (suc k) h =
          subst (λ j. IsAbsent files (share_id hash j) u) (omega arith)
            (c.gone k (omega (arith, h)))

  abbrev pub ArePresent : Text → ℕ → ℕ → State → Type 0
  ArePresent hash i n s = (k : ℕ) → k < n → IsPresent files (share_id hash (i + k)) s

  -- Behind the first of some shares that stand, the others stand once it is deleted.
  pub ArePresent-rest :
      (hash : Text) (i n : ℕ) (s t : State)
      → Gpushare.delete files useless_number (share_id hash i) s ≡ (ok tt, t)
      → ArePresent hash i (suc n) s
      → ArePresent hash (suc i) n t
  ArePresent-rest hash i n s t e h k l =
      kept_IsPresent (share_id hash (suc i + k)) s t
        (λ q m.
          ap (λ r. entry r.1 q) (sym e)
          ∙ delete-frame files useless_number (share_id hash i) q s
              (λ m'. absurd (omega (arith, share_id-injective hash _ _ (one_share _ _ q m' m)))))
        (subst (λ j. IsPresent files (share_id hash j) s) (omega arith)
          (h (suc k) (omega (arith, l))))

  pub delete_more-Cleared :
      (hash : Text) (i n : ℕ) (s : State)
      → IsRemovable files
      → ArePresent hash i n s
      → (s' : State) × (delete_more files hash i n s ≡ (ok tt, s')) × Cleared hash i n s s'
  unfolding delete_more
  delete_more-Cleared hash i zero s r h = (s, refl, Cleared-refl hash i s)
  delete_more-Cleared hash i (suc n) s r h =
      let first_one : IsPresent files (share_id hash i) s =
        subst (λ j. IsPresent files (share_id hash j) s) (omega arith) (h 0 (omega arith)) in
      let (t, e, g) = delete-IsPresent files useless_number (share_id hash i) s r first_one in
      let (u, f, c) = delete_more-Cleared hash (suc i) n t r (ArePresent-rest hash i n s t e h) in
      (
        u,
        ap (λ x. continue x.0 (λ _. delete_more files hash (suc i) n) x.1) e ∙ f,
        Cleared-suc hash i n s t u e g c,
      )
