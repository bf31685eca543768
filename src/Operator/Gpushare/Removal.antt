-- ===== src/Operator/Gpushare/Removal.antt =====
-- What `Delete` does to the directory entries, on each of its branches.
use elastic_gpu_agent.Prelude.{
  ◌⊎◌, text_eq_refl, ◌≢◌, sym, false, ◌≡◌, inl, inr, refl, ◌∙◌, none, arith, Text, text_eq,
  text_eq_iff, if◌then◌else◌, ◌||◌, Result, ok, err, Error, ℤ, Bool-cases, subst,
}
use elastic_gpu_agent.Operator.FileSystem.{Files}
use elastic_gpu_agent.Operator.Gpushare.{sym_path, sym_ctl_path, call, create, delete}
use elastic_gpu_agent.Operator.Gpushare.Links.{sym_path-ne-sym_ctl_path, IsLinkOf, create-Created}

module _ (files : Files) where
  open files use {State, entry, remove, remove_present, entry-remove}

  -- The removals that a `Delete` makes.
  pub data Removed (id : Text) (s : State) : Result (Unit {0}) × State → Type 0 where
    nothing : (e : Error) → remove s (sym_path id) ≡ err e → Removed id s (err e, s)
    half :
        (e : Error) (t : State)
        → remove s (sym_path id) ≡ ok t
        → remove t (sym_ctl_path id) ≡ err e
        → Removed id s (err e, t)
    both :
        (t u : State)
        → remove s (sym_path id) ≡ ok t
        → remove t (sym_ctl_path id) ≡ ok u
        → Removed id s (ok tt, u)

  pub delete-Removed : (index : ℤ) (id : Text) (s : State) → Removed id s (delete files index id s)
  delete-Removed index id s = first_step (remove s (sym_path id)) refl
    where
      second_step :
          (t : State) (r : Result State)
          → remove s (sym_path id) ≡ ok t
          → remove t (sym_ctl_path id) ≡ r
          → Removed id s (delete files index id s)
      second_step t (ok u) g h = unfold delete call in rw (g, h) (both t u g h)
      second_step t (err e) g h = unfold delete call in rw (g, h) (half e t g h)

      first_step :
          (r : Result State) → remove s (sym_path id) ≡ r → Removed id s (delete files index id s)
      first_step (ok t) g = second_step t (remove t (sym_ctl_path id)) g refl
      first_step (err e) g = unfold delete in rw g (nothing e g)

  -- After a `Delete` that succeeds the two links are gone and the other entries are as before; both
  -- links had been there.
  entry-delete :
      (index : ℤ) (id q : Text) (s s' : State)
      → delete files index id s ≡ (ok tt, s')
      → entry s' q
        ≡ (if text_eq (sym_path id) q || text_eq (sym_ctl_path id) q then none else entry s q)
  entry-delete index id q s s' e = invert _ (delete-Removed index id s) e
    where
      invert :
          (r : Result (Unit {0}) × State)
          → Removed id s r
          → r ≡ (ok tt, s')
          → entry s' q
            ≡ (if text_eq (sym_path id) q || text_eq (sym_ctl_path id) q then none else entry s q)
      invert r (nothing x g) eq = cc
      invert r (half x t g h) eq = cc
      invert r (both t u g h) eq =
          ground (arith, entry-remove s t (sym_path id) q g, entry-remove t u (sym_ctl_path id) q h)

  -- A share whose two links stand, and one whose two links are gone.
  abbrev pub IsPresent : Text → State → Type 0
  IsPresent id s = (entry s (sym_path id) ≢ none) × (entry s (sym_ctl_path id) ≢ none)

  abbrev pub IsAbsent : Text → State → Type 0
  IsAbsent id s = (entry s (sym_path id) ≡ none) × (entry s (sym_ctl_path id) ≡ none)

  -- What stands can be removed.
  abbrev pub IsRemovable : Type 0
  IsRemovable = (s : State) (p : Text) → entry s p ≢ none → (s' : State) × (remove s p ≡ ok s')

  pub delete-IsPresent :
      (index : ℤ) (id : Text) (s : State)
      → IsRemovable
      → IsPresent id s
      → (s' : State) × (delete files index id s ≡ (ok tt, s')) × IsAbsent id s'
  delete-IsPresent index id s r (h, k) =
      let (t, g) = r s (sym_path id) h in
      let ctl : entry t (sym_ctl_path id) ≢ none = λ e. k (
        ground (
          arith,
          e,
          entry-remove s t (sym_path id) (sym_ctl_path id) g,
          text_eq_iff (sym_path id) (sym_ctl_path id),
          sym_path-ne-sym_ctl_path id id,
        )) in
      let (u, f) = r t (sym_ctl_path id) ctl in
      let run : delete files index id s ≡ (ok tt, u) = unfold delete call in rw (g, f) refl in
      (
        u,
        run,
        (
          ground (arith, entry-delete index id (sym_path id) s u run, text_eq_refl (sym_path id)),
          ground (
            arith,
            entry-delete index id (sym_ctl_path id) s u run,
            text_eq_refl (sym_ctl_path id),
          ),
        ),
      )

  -- A delete brings no entry back, whatever fails.
  pub delete-none :
      (index : ℤ) (id q : Text) (s : State)
      → entry s q ≡ none
      → entry (delete files index id s).1 q ≡ none
  delete-none index id q s n = invert _ (delete-Removed index id s)
    where
      invert : (r : Result (Unit {0}) × State) → Removed id s r → entry r.1 q ≡ none
      invert r (nothing e g) = n
      invert r (half e t g h) = ground (arith, n, entry-remove s t (sym_path id) q g)
      invert r (both t u g h) =
          ground
            (arith, n, entry-remove s t (sym_path id) q g, entry-remove t u (sym_ctl_path id) q h)

  -- If a share is created without an error where neither of its links stood, and is deleted without
  -- an error, every entry is as it was before the creation.
  pub delete-create :
      (index index' : ℤ) (id q : Text) (s t u : State)
      → entry s (sym_path id) ≡ none
      → entry s (sym_ctl_path id) ≡ none
      → create files index id s ≡ (ok tt, t)
      → delete files index' id t ≡ (ok tt, u)
      → entry u q ≡ entry s q
  delete-create index index' id q s t u h k c d =
      let made = create-Created files index id s in
      elim (Bool-cases (text_eq (sym_path id) q || text_eq (sym_ctl_path id) q)) [
        | inl gone ↦ ground (
          arith,
          entry-delete index' id q t u d,
          text_eq_iff (sym_path id) q,
          text_eq_iff (sym_ctl_path id) q,
        )
        | inr stays ↦
            entry-delete index' id q t u d
            ∙ rw stays (
                subst (λ r. entry r.1 q ≡ entry s q) c
                  (made.extends.frame q (λ l.
                    ground
                      (arith, l, text_eq_iff (sym_path id) q, text_eq_iff (sym_ctl_path id) q))))
      ]

  -- `Delete` touches no entry but the two links, whatever fails.
  pub delete-frame :
      (index : ℤ) (id q : Text) (s : State)
      → ¬ IsLinkOf id q
      → entry (delete files index id s).1 q ≡ entry s q
  delete-frame index id q s n = invert _ (delete-Removed index id s)
    where
      not_first : text_eq (sym_path id) q ≡ false
      not_first = elim (Bool-cases (text_eq (sym_path id) q)) [
        | inl e ↦ absurd (n (inl (sym ((text_eq_iff (sym_path id) q).0 e))))
        | inr e ↦ e
      ]

      not_second : text_eq (sym_ctl_path id) q ≡ false
      not_second = elim (Bool-cases (text_eq (sym_ctl_path id) q)) [
        | inl e ↦ absurd (n (inr (sym ((text_eq_iff (sym_ctl_path id) q).0 e))))
        | inr e ↦ e
      ]

      invert : (r : Result (Unit {0}) × State) → Removed id s r → entry r.1 q ≡ entry s q
      invert r (nothing e g) = refl
      invert r (half e t g h) = ground (arith, entry-remove s t (sym_path id) q g, not_first)
      invert r (both t u g h) = ground (
        arith,
        entry-remove s t (sym_path id) q g,
        entry-remove t u (sym_ctl_path id) q h,
        not_first,
        not_second,
      )

  -- What `Delete` leaves: it returns no error only if both links stood, and then both are gone; if it
  -- returns an error, either every entry is as before, or the first link stood and is gone and the
  -- control link is as before. No other entry changes.
  pub record Deleted (id : Text) (s : State) (r : Result (Unit {0}) × State) : Type 0 where
    pub done : r.0 ≡ ok tt → IsPresent id s × IsAbsent id r.1
    pub failed :
        (e : Error)
        → r.0 ≡ err e
        → ((q : Text) → entry r.1 q ≡ entry s q)
          ⊎ ((entry s (sym_path id) ≢ none)
              × (entry r.1 (sym_path id) ≡ none)
              × (entry r.1 (sym_ctl_path id) ≡ entry s (sym_ctl_path id)))
    pub frame : (q : Text) → ¬ IsLinkOf id q → entry r.1 q ≡ entry s q

  apart : (id : Text) → text_eq (sym_path id) (sym_ctl_path id) ≡ false
  apart id =
      ground (arith, text_eq_iff (sym_path id) (sym_ctl_path id), sym_path-ne-sym_ctl_path id id)

  -- What `Delete` does to the entries, on all its branches: it returns no error only if both links
  -- stood, and then both are gone; if it returns an error, either every entry is as before, or the
  -- first link stood and is gone and the control link is as before. In any case no other entry
  -- changes.
  pub delete-Deleted : (index : ℤ) (id : Text) (s : State) → Deleted id s (delete files index id s)
  delete-Deleted index id s =
      leaves _ (delete-Removed index id s) (λ q n. delete-frame index id q s n)
    where
      leaves :
          (r : Result (Unit {0}) × State)
          → Removed id s r
          → ((q : Text) → ¬ IsLinkOf id q → entry r.1 q ≡ entry s q)
          → Deleted id s r
      leaves r (nothing e g) f = record {
        done = λ h. absurd (cc (h));
        failed = λ x h. inl (λ q. refl);
        frame = f;
      }
      leaves r (half e t g h) f = record {
        done = λ k. absurd (cc (k));
        failed = λ x k. inr (
          remove_present s t (sym_path id) g,
          entry-remove s t (sym_path id) (sym_path id) g ∙ rw (text_eq_refl (sym_path id)) refl,
          entry-remove s t (sym_path id) (sym_ctl_path id) g ∙ rw (apart id) refl,
        );
        frame = f;
      }
      leaves r (both t u g h) f = record {
        done = λ k. (
          (
            remove_present s t (sym_path id) g,
            λ n.
                remove_present t u (sym_ctl_path id) h
                  (entry-remove s t (sym_path id) (sym_ctl_path id) g ∙ rw (apart id) n),
          ),
          (
            ground (
              arith,
              entry-remove s t (sym_path id) (sym_path id) g,
              entry-remove t u (sym_ctl_path id) (sym_path id) h,
              text_eq_refl (sym_path id),
            ),
            entry-remove t u (sym_ctl_path id) (sym_ctl_path id) h
                ∙ rw (text_eq_refl (sym_ctl_path id)) refl,
          ),
        );
        failed = λ x k. absurd (cc (k));
        frame = f;
      }
