-- ===== src/Plugins/PreStart/Shares.antt =====
-- What the loop over the indexes does to the directory entries.
use elastic_gpu_agent.Prelude.{
  length, ◌≤◌, ℕ, zero, suc, ◌+◌, ◌≡◌, ◌≢◌, inl, inr, refl, sym, ap, ◌∙◌, Option, none, some, List,
  [], ◌∷◌, arith, Text, get_elem?, Result, ok, err, continue, ℤ, subst,
}
use elastic_gpu_agent.Operator.FileSystem.{Files, Entry, link}
use elastic_gpu_agent.Operator.Gpushare.{gpu_path, sym_path, create}
use elastic_gpu_agent.Operator.Gpushare.Links.{
  IsLinkOf, Extends, Extends-refl, Extends-trans, Extends-weaken, Created, create-Created,
  sym_path-injective, sym_path-ne-sym_ctl_path,
}
use elastic_gpu_agent.Plugins.Share.{share_id, share_id-injective}
use elastic_gpu_agent.Plugins.PreStart.{create_all}

-- A link of one of the shares of a device.
pub data IsShareLink (hash q : Text) : Type 0 where
  of_share : (k : ℕ) → IsLinkOf (share_id hash k) q → IsShareLink hash q

module _ (files : Files) where
  open files use {State, entry}

  -- The outcome of making the shares of `ids`, from the number `i` on: no entry is changed or
  -- removed, and what is new are links of shares of the device, none behind the last of `ids`. If
  -- there was no error each share has its link, with the GPU of its index for a target unless the
  -- link stood there before.
  pub record AllCreated (hash : Text) (i : ℕ) (ids : List ℤ) (s : State)
      (r : Result (Unit {0}) × State) : Type 0 where
    pub extends : Extends files (IsShareLink hash) s r.1
    pub beyond :
        (k : ℕ)
        → length ids ≤ k
        → entry r.1 (sym_path (share_id hash (i + k))) ≡ entry s (sym_path (share_id hash (i + k)))
    pub present :
        r.0 ≡ ok tt
        → (k : ℕ) (id : ℤ) → get_elem? ids k ≡ some id
        → entry r.1 (sym_path (share_id hash (i + k))) ≢ none
    pub target :
        r.0 ≡ ok tt
        → (k : ℕ) (id : ℤ) → get_elem? ids k ≡ some id
        → entry s (sym_path (share_id hash (i + k))) ≡ none
        → entry r.1 (sym_path (share_id hash (i + k))) ≡ some (link (gpu_path id))

  pub create-Extends :
      (hash : Text) (i : ℕ) (id : ℤ) (s : State)
      → Extends files (IsShareLink hash) s (create files id (share_id hash i) s).1
  create-Extends hash i id s =
      Extends-weaken files (IsLinkOf (share_id hash i)) (IsShareLink hash) s _ (λ q l. of_share i l)
        (create-Created files id (share_id hash i) s).extends

  kept_present :
      (P : Text → Type 0) (s t : State) (q : Text)
      → Extends files P s t
      → entry s q ≢ none
      → entry t q ≢ none
  kept_present P s t q x h n = go (entry s q) refl
    where
      go : (o : Option Entry) → entry s q ≡ o → ⊥
      go none e = h e
      go (some v) e = cc (x.keeps q v e)

  other_share :
      (hash : Text) (i k : ℕ) → ¬ IsLinkOf (share_id hash i) (sym_path (share_id hash (i + suc k)))
  other_share hash i k (inl e) =
      absurd (omega (arith, share_id-injective hash _ _ (sym_path-injective _ _ e)))
  other_share hash i k (inr e) = sym_path-ne-sym_ctl_path _ _ e

  -- Making a share touches no later share.
  untouched :
      (hash : Text) (i : ℕ) (id : ℤ) (n k : ℕ) (s : State) (r : Result (Unit {0}) × State)
      → Created files id (share_id hash i) s r
      → suc n ≤ k
      → entry r.1 (sym_path (share_id hash (i + k))) ≡ entry s (sym_path (share_id hash (i + k)))
  untouched hash i id n zero s r c h = absurd (omega (arith, h))
  untouched hash i id n (suc k) s r c h = c.extends.frame _ (other_share hash i k)

  pub create_all-AllCreated :
      (hash : Text) (i : ℕ) (ids : List ℤ) (s : State)
      → AllCreated hash i ids s (create_all files hash i ids s)
  unfolding create_all
  create_all-AllCreated hash i [] s = record {
    extends = Extends-refl files (IsShareLink hash) s;
    beyond = λ k h. refl;
    present = λ h k id g. cc;
    target = λ h k id g. cc;
  }
  create_all-AllCreated hash i (id ∷ ids) s =
      after (create files id (share_id hash i) s) (create-Created files id (share_id hash i) s)
        (create-Extends hash i id s) (λ t. create_all-AllCreated hash (suc i) ids t)
    where
      after :
          (r : Result (Unit {0}) × State)
          → Created files id (share_id hash i) s r
          → Extends files (IsShareLink hash) s r.1
          → ((t : State) → AllCreated hash (suc i) ids t (create_all files hash (suc i) ids t))
          → AllCreated hash i
              (id ∷ ids)
              s
              (continue r.0 (λ _. create_all files hash (suc i) ids) r.1)
      after (err e, t) c x ih = record {
        extends = x;
        beyond = λ k h. untouched hash i id (length ids) k s _ c h;
        present = λ h. absurd (cc);
        target = λ h. absurd (cc);
      }
      after (ok u, t) c x ih = record {
        extends = Extends-trans files (IsShareLink hash) s t _ x (ih t).extends;
        beyond = beyond_at;
        present = present_at;
        target = target_at;
      }
        where
          rest : AllCreated hash (suc i) ids t (create_all files hash (suc i) ids t)
          rest = ih t

          at_ : ℕ → Text
          at_ k = sym_path (share_id hash k)

          beyond_at :
              (k : ℕ)
              → length (id ∷ ids) ≤ k
              → entry (create_all files hash (suc i) ids t).1 (at_ (i + k)) ≡ entry s (at_ (i + k))
          beyond_at zero h = absurd (omega (arith, h))
          beyond_at (suc k) h =
              subst (λ n. entry (create_all files hash (suc i) ids t).1 (at_ n) ≡ entry t (at_ n))
                (omega arith) (rest.beyond k (omega (arith, h)))
              ∙ untouched hash i id (length ids) (suc k) s _ c h

          present_at :
              (create_all files hash (suc i) ids t).0 ≡ ok tt
              → (k : ℕ) (j : ℤ) → get_elem? (id ∷ ids) k ≡ some j
              → entry (create_all files hash (suc i) ids t).1 (at_ (i + k)) ≢ none
          present_at h zero j g =
              subst (λ n. entry (create_all files hash (suc i) ids t).1 (at_ n) ≢ none)
                (omega arith)
                (kept_present (IsShareLink hash) t _ (at_ i) rest.extends (c.present refl))
          present_at h (suc k) j g =
              subst (λ n. entry (create_all files hash (suc i) ids t).1 (at_ n) ≢ none)
                (omega arith) (rest.present h k j g)

          target_at :
              (create_all files hash (suc i) ids t).0 ≡ ok tt
              → (k : ℕ) (j : ℤ) → get_elem? (id ∷ ids) k ≡ some j
              → entry s (at_ (i + k)) ≡ none
              → entry (create_all files hash (suc i) ids t).1 (at_ (i + k))
                ≡ some (link (gpu_path j))
          target_at h zero j g e =
              let same : id ≡ j = cc in
              let made : entry t (at_ i) ≡ some (link (gpu_path j)) =
                c.target refl (subst (λ n. entry s (at_ n) ≡ none) (omega arith) e)
                ∙ ap (λ z. some (link (gpu_path z))) same in
              subst
                (λ n.
                  entry (create_all files hash (suc i) ids t).1 (at_ n) ≡ some (link (gpu_path j)))
                (omega arith) (rest.extends.keeps (at_ i) _ made)
          target_at h (suc k) j g e =
              let shift : i + suc k ≡ suc i + k = omega arith in
              let absent : entry t (at_ (suc i + k)) ≡ none =
                subst (λ n. entry t (at_ n) ≡ none) shift
                  (c.extends.frame (at_ (i + suc k)) (other_share hash i k) ∙ e) in
              subst
                (λ n.
                  entry (create_all files hash (suc i) ids t).1 (at_ n) ≡ some (link (gpu_path j)))
                (sym shift) (rest.target h k j g absent)
