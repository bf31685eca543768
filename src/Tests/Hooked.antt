-- ===== src/Tests/Hooked.antt =====
-- The hook on the node where the agent has started the container.
use elastic_gpu_agent.Prelude.{
  Option, ℕ, ◌≡◌, ◌⊎◌, refl, sym, ap₂, subst, arith, inl, inr, Bool-cases, none, some, List, [],
  ◌∷◌, ◌++◌, Text, codes, lookup, text_eq, text_eq_iff, text_eq_refl, if◌then◌else◌, Member,
  Member-cases, Member-of_eq, Result, ok, err, file_not_exist, ℤ, pos, InInt,
}
use elastic_gpu_agent.Go.Strings.{has_prefix}
use elastic_gpu_agent.Common.{resource_gpu_core}
use elastic_gpu_agent.Types.Device.{new_device}
use elastic_gpu_agent.Operator.FileSystem.{Entry, link}
use elastic_gpu_agent.Operator.Gpushare.{gpu_path, sym_path}
use elastic_gpu_agent.Operator.Gpushare.Links.{sym_path-injective, sym_path-ne-sym_ctl_path}
use elastic_gpu_agent.Plugins.Share.{share_id, share_id-injective}
use elastic_gpu_agent.Hook.Shares.{plain_file, other_link, ShareLink, Node, gpu_link}
use elastic_gpu_agent.System.Hooked.{Mirrors, gpu_path-injective}
use elastic_gpu_agent.Tests.Platform.{Disk, memory_files}
use elastic_gpu_agent.Tests.Kube.{unit}
use elastic_gpu_agent.Tests.Plugins.{idle, core_started, core_fs}

abbrev pub gpu_hash : Text
gpu_hash = (new_device unit resource_gpu_core).hash

abbrev share : ShareLink
share = record { hash = gpu_hash; number = 0; gpu = pos 0 }

abbrev pub nodes : List Node
nodes = gpu_link share ∷ other_link (codes "stdin") ∷ plain_file (codes "null") ∷ []

abbrev pub readlink : Text → Result Text
readlink path =
    if text_eq path (codes "/dev/" ++ codes "elastic-gpu-" ++ share_id gpu_hash 0)
    then ok (gpu_path (pos 0))
    else err file_not_exist

pub no_links : (k : ℕ) → lookup (sym_path (share_id gpu_hash k)) idle.fs ≡ none
unfolding lookup
no_links k = refl

lookup-two :
    (q a b : Text) (x y v : Entry)
    → lookup q ((a, x) ∷ (b, y) ∷ []) ≡ some v
    → ((a ≡ q) × (x ≡ v)) ⊎ (b ≡ q)
unfolding lookup
lookup-two q a b x y v e = elim (Bool-cases (text_eq a q)) [
  | inl same ↦ inl ((text_eq_iff a q).0 same, inner x v (rw same at e))
  | inr differ ↦ elim (Bool-cases (text_eq b q)) [
    | inl same ↦ inr ((text_eq_iff b q).0 same)
    | inr neither ↦ absurd (ground (arith, differ, neither, e))
  ]
]
  where
    inner : (x v : Entry) → ◌≡◌ {A = Option Entry} (some x) (some v) → x ≡ v
    inner x v e = cc

same_link : (p q : Text) → link p ≡ link q → p ≡ q
same_link p q e = cc

listed :
    (k : ℕ) (z : ℤ)
    → InInt z
    → lookup (sym_path (share_id gpu_hash k)) core_started.fs ≡ some (link (gpu_path z))
    → Member (gpu_link (record { hash = gpu_hash; number = k; gpu = z })) nodes
listed k z hz e =
    elim (lookup-two _ _ _ _ _ _ (
      subst (λ (d : Disk). lookup (sym_path (share_id gpu_hash k)) d ≡ some (link (gpu_path z)))
        core_fs e)) [
          | inl (a, x) ↦
              (let number : 0 ≡ k = share_id-injective gpu_hash 0 k (sym_path-injective _ _ a) in
                let gpu : pos 0 ≡ z =
                  gpu_path-injective (pos 0) z (omega arith) hz (same_link _ _ x) in
                Member-of_eq _ (
                  ap₂
                    (λ (i : ℕ) (y : ℤ). gpu_link (record { hash = gpu_hash; number = i; gpu = y }))
                    (sym number) (sym gpu)))
          | inr b ↦ absurd (sym_path-ne-sym_ctl_path _ _ (sym b))
        ]

there_first :
    lookup (sym_path (share_id gpu_hash 0)) core_started.fs ≡ some (link (gpu_path (pos 0)))
unfolding lookup
there_first =
    subst (λ (d : Disk). lookup (sym_path (share_id gpu_hash 0)) d ≡ some (link (gpu_path (pos 0))))
      (sym core_fs) (rw (text_eq_refl (sym_path (share_id gpu_hash 0))) refl)

there :
    (s : ShareLink)
    → Member (gpu_link s) nodes
    → s.hash ≡ gpu_hash
    → lookup (sym_path (share_id gpu_hash s.number)) core_started.fs ≡ some (link (gpu_path s.gpu))
there s m h = elim (Member-cases m) [
  | inl e ↦
      (let same : s ≡ share = cc in
        subst
          (λ (x : ShareLink).
            lookup (sym_path (share_id gpu_hash x.number)) core_started.fs
            ≡ some (link (gpu_path x.gpu)))
          (sym same) there_first)
  | inr n ↦ absurd (not_more n)
]
  where
    not_more : Member (gpu_link s) (other_link (codes "stdin") ∷ plain_file (codes "null") ∷ []) → ⊥
    not_more n = elim (Member-cases n) [
      | inl e ↦ cc
      | inr k ↦ elim (Member-cases k) [ inl e ↦ cc | inr l ↦ elim l [ ] ]
    ]

pub dev_Mirrors : Mirrors memory_files readlink gpu_hash nodes core_started.fs
unfolding has_prefix
dev_Mirrors = record {
  shares = (
    (
      refl,
      omega arith,
      rw (text_eq_refl (codes "/dev/" ++ codes "elastic-gpu-" ++ share_id gpu_hash 0)) refl,
    ),
    (refl, (tt, tt)),
  );
  there = there;
  listed = listed;
}
