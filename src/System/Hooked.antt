-- ===== src/System/Hooked.antt =====
-- The hook behind `PreStartContainer`: the GPUs that it finds in /dev.
use elastic_gpu_agent.Prelude.{
  err, Error, ℕ, zero, suc, ◌+◌, ◌≤◌, ◌≡◌, ◌↔◌, ◌⊎◌, refl, sym, ap, ◌∙◌, inl, inr, subst, arith,
  Bool-cases, text_eq, text_eq_iff, text_eq_refl, if◌then◌else◌, none, some, Option, List, [], ◌∷◌,
  Text, length, get_elem?, All, Member, first, later, Member-cases, Member-of_eq, map, Result, ok,
  ℤ, InInt,
}
use elastic_gpu_agent.Operator.FileSystem.{Entry, Files, link}
use elastic_gpu_agent.Operator.Gpushare.{gpu_path, sym_path}
use elastic_gpu_agent.Plugins.Share.{share_id}
use elastic_gpu_agent.Plugins.PreStart.Shares.{AllCreated}
use elastic_gpu_agent.Common.{resource_gpu_core}
use elastic_gpu_agent.Types.Json.{Json}
use elastic_gpu_agent.Types.Device.{new_device}
use elastic_gpu_agent.Types.Pod.{PodContainer, PodInfo}
use elastic_gpu_agent.Storage.{save}
use elastic_gpu_agent.Storage.Bolt.{BoltDb}
use elastic_gpu_agent.Kube.Sitter.{PodSitter}
use elastic_gpu_agent.Kube.PodResources.{Kubelet}
use elastic_gpu_agent.Plugins.PreStart.{Assumed, parse_indexes, pre_start_core}
use elastic_gpu_agent.Plugins.PreStart.Assignment.{IsAssigned}
use elastic_gpu_agent.Plugins.PreStart.Indexes.{parse_indexes-InInt}
use elastic_gpu_agent.Plugins.PreStart.Record.{Writes}
use elastic_gpu_agent.Plugins.PreStart.Outcome.{Started, kept, undone, pre_start_core-Started}
use elastic_gpu_agent.System.{Agent}
use elastic_gpu_agent.Hook.{done, find_gpu_indexes, get_gpu_index}
use elastic_gpu_agent.Hook.Choice.{get_gpu_index-gpu_path}
use elastic_gpu_agent.Hook.Shares.{
  ShareLink, Node, gpu_link, control_link, other_link, plain_file, dir_entry, gpus_of, IsShareOf,
  find_gpu_indexes_lem,
}

-- Where an index stands in a list.
get_elem?-Member : (zs : List ℤ) (k : ℕ) (z : ℤ) → get_elem? zs k ≡ some z → Member z zs
get_elem?-Member [] k z e = absurd (cc)
get_elem?-Member (x ∷ zs) zero z e = Member-of_eq zs (cc)
get_elem?-Member (x ∷ zs) (suc k) z e = later (get_elem?-Member zs k z e)

Member-get_elem? : (zs : List ℤ) (z : ℤ) → Member z zs → (k : ℕ) × (get_elem? zs k ≡ some z)
Member-get_elem? [] z m = elim m [ ]
Member-get_elem? (x ∷ zs) z m = elim (Member-cases m) [
  | inl e ↦ (0, ap some (sym e))
  | inr n ↦ (let (k, g) = Member-get_elem? zs z n in (suc k, g))
]

get_elem?_inside : (zs : List ℤ) (k : ℕ) → (length zs ≤ k) ⊎ ((z : ℤ) × (get_elem? zs k ≡ some z))
get_elem?_inside [] k = inl (omega arith)
get_elem?_inside (x ∷ zs) zero = inr (x, refl)
get_elem?_inside (x ∷ zs) (suc k) = elim (get_elem?_inside zs k) [
  | inl h ↦ inl (omega (arith, h))
  | inr g ↦ inr g
]

-- The targets of links tell GPUs apart.
pub gpu_path-injective : (y z : ℤ) → InInt y → InInt z → gpu_path y ≡ gpu_path z → y ≡ z
gpu_path-injective y z hy hz e =
    let same =
      sym (get_gpu_index-gpu_path y hy)
      ∙ ap (λ p. get_gpu_index (ok p)) e
      ∙ get_gpu_index-gpu_path z hz in
    cc (same)

-- A GPU that is found is that of a link of the hash, and the other way round.
gpus_of-Member :
    (hash : Text) (ns : List Node) (z : ℤ)
    → Member z (gpus_of hash ns)
    → (s : ShareLink) × Member (gpu_link s) ns × (s.hash ≡ hash) × (s.gpu ≡ z)
unfolding gpus_of
gpus_of-Member hash [] z m = elim m [ ]
gpus_of-Member hash (gpu_link s ∷ ns) z m = elim (Bool-cases (text_eq hash s.hash)) [
  | inl same ↦ elim (Member-cases (rw same at m)) [
    | inl e ↦ (s, first, sym ((text_eq_iff hash s.hash).0 same), sym e)
    | inr n ↦ (let (t, k, h, g) = gpus_of-Member hash ns z n in (t, later k, h, g))
  ]
  | inr differ ↦
      (let (t, k, h, g) = gpus_of-Member hash ns z (rw differ at m) in (t, later k, h, g))
]
gpus_of-Member hash (control_link s ∷ ns) z m =
    let (t, k, h, g) = gpus_of-Member hash ns z m in (t, later k, h, g)
gpus_of-Member hash (other_link name ∷ ns) z m =
    let (t, k, h, g) = gpus_of-Member hash ns z m in (t, later k, h, g)
gpus_of-Member hash (plain_file name ∷ ns) z m =
    let (t, k, h, g) = gpus_of-Member hash ns z m in (t, later k, h, g)

Member-gpus_of :
    (ns : List Node) (s : ShareLink) → Member (gpu_link s) ns → Member s.gpu (gpus_of s.hash ns)
unfolding gpus_of
Member-gpus_of [] s m = elim m [ ]
Member-gpus_of (gpu_link t ∷ ns) s m = elim (Member-cases m) [
  | inl e ↦
      (let same : s ≡ t = cc in
        subst
          (λ (x : ShareLink).
            Member s.gpu
              (if text_eq s.hash x.hash then x.gpu ∷ gpus_of s.hash ns else gpus_of s.hash ns))
          same (rw (text_eq_refl s.hash) first))
  | inr n ↦ elim (Bool-cases (text_eq s.hash t.hash)) [
    | inl same ↦ rw same (later (Member-gpus_of ns s n))
    | inr differ ↦ rw differ (Member-gpus_of ns s n)
  ]
]
Member-gpus_of (control_link t ∷ ns) s m = elim (Member-cases m) [
  | inl e ↦ absurd (cc)
  | inr n ↦ Member-gpus_of ns s n
]
Member-gpus_of (other_link name ∷ ns) s m = elim (Member-cases m) [
  | inl e ↦ absurd (cc)
  | inr n ↦ Member-gpus_of ns s n
]
Member-gpus_of (plain_file name ∷ ns) s m = elim (Member-cases m) [
  | inl e ↦ absurd (cc)
  | inr n ↦ Member-gpus_of ns s n
]

All-Member : {A : Type 0} (P : A → Type 0) (x : A) (l : List A) → All P l → Member x l → P x
All-Member P x [] h m = elim m [ ]
All-Member P x (y ∷ l) h first = h.0
All-Member P x (y ∷ l) h (later m) = All-Member P x l h.1 m

some_link : (p q : Text) → ◌≡◌ {A = Option Entry} (some (link p)) (some (link q)) → p ≡ q
some_link p q e = cc

-- The save of the pod's record, with the core plugin's device for the container, failed.
pub data IsUnsaved (bolt : BoltDb) (json : Json) (ids : List Text) (curr : PodContainer)
    (db db' : bolt.Db) : Type 0 where
  unsaved :
      (p : PodInfo) (e : Error)
      → Writes bolt json db curr (new_device ids resource_gpu_core) p
      → save bolt json p db ≡ (err e, db')
      → IsUnsaved bolt json ids curr db db'

-- The hook finds exactly the GPUs of a list.
pub record Finds (readlink : Text → Result Text) (hash : Text) (ns : List Node) (indexes : List ℤ)
    : Type 0 where
  pub gpus : List ℤ
  pub found : find_gpu_indexes readlink hash (ok (map dir_entry ns)) ≡ done gpus
  pub exact : (z : ℤ) → Member z gpus ↔ Member z indexes

module _ (files : Files) where
  open files use {State, entry}

  -- The directory /dev, as the hook reads it in a state, shows the links of the shares of a hash: it
  -- lists those that point to GPUs, and what it lists is there.
  pub record Mirrors (readlink : Text → Result Text) (hash : Text) (ns : List Node) (t : State)
      : Type 0 where
    pub shares : All (IsShareOf readlink hash) ns
    pub there :
        (s : ShareLink)
        → Member (gpu_link s) ns
        → s.hash ≡ hash
        → entry t (sym_path (share_id hash s.number)) ≡ some (link (gpu_path s.gpu))
    pub listed :
        (k : ℕ) (z : ℤ)
        → InInt z
        → entry t (sym_path (share_id hash k)) ≡ some (link (gpu_path z))
        → Member (gpu_link (record { hash = hash; number = k; gpu = z })) ns

  module _ (readlink : Text → Result Text) (hash : Text) (ns : List Node) (indexes : List ℤ)
      (s t : State) where
    linked :
        AllCreated files hash 0 indexes s (ok tt, t)
        → ((k : ℕ) → entry s (sym_path (share_id hash k)) ≡ none)
        → (k : ℕ) (z : ℤ) → get_elem? indexes k ≡ some z
        → entry t (sym_path (share_id hash k)) ≡ some (link (gpu_path z))
    linked c fresh k z g =
        subst (λ j. entry t (sym_path (share_id hash j)) ≡ some (link (gpu_path z))) (omega arith)
          (c.target refl k z g (fresh (0 + k)))

    found_in :
        AllCreated files hash 0 indexes s (ok tt, t)
        → ((k : ℕ) → entry s (sym_path (share_id hash k)) ≡ none)
        → All InInt indexes
        → (y : ℤ) (k : ℕ) → InInt y
        → entry t (sym_path (share_id hash k)) ≡ some (link (gpu_path y))
        → Member y indexes
    found_in c fresh small y k hy e = elim (get_elem?_inside indexes k) [
      | inl h ↦
          (let unmade : entry t (sym_path (share_id hash k))
                ≡ entry s (sym_path (share_id hash k)) =
              subst
                (λ j. entry t (sym_path (share_id hash j)) ≡ entry s (sym_path (share_id hash j)))
                (omega arith) (c.beyond k h) in
            absurd (cc (unmade, fresh k, e)))
      | inr (z, g) ↦
          (let m = get_elem?-Member indexes k z g in
            let same : y ≡ z =
              gpu_path-injective y z hy (All-Member InInt z indexes small m)
                (some_link _ _ (sym e ∙ linked c fresh k z g)) in
            subst (λ x. Member x indexes) (sym same) m)
    ]

    AllCreated-Finds :
        AllCreated files hash 0 indexes s (ok tt, t)
        → ((k : ℕ) → entry s (sym_path (share_id hash k)) ≡ none)
        → All InInt indexes
        → Mirrors readlink hash ns t
        → Finds readlink hash ns indexes
    AllCreated-Finds c fresh small m = record {
      gpus = gpus_of hash ns;
      found = find_gpu_indexes_lem readlink hash ns m.shares;
      exact = λ z. (
        λ k.
            let (l, here, eh, ez) = gpus_of-Member hash ns z k in
            let range = (All-Member (IsShareOf readlink hash) (gpu_link l) ns m.shares here).1 in
            subst (λ x. Member x indexes) ez
              (found_in c fresh small l.gpu l.number range (m.there l here eh)),
        λ k.
            let (i, g) = Member-get_elem? indexes z k in
            Member-gpus_of ns (record { hash = hash; number = i; gpu = z })
              (m.listed i z (All-Member InInt z indexes small k) (linked c fresh i z g)),
      );
    }

module _ (files : Files) (bolt : BoltDb) (json : Json) where
  open files use {entry}

  -- What the agent links, the hook finds. If a call of the core plugin's `PreStartContainer` returns
  -- no error, where no link of the device's hash stood before, and /dev, as the hook reads it, shows
  -- the links that the call left, then the container that the kubelet lists with the ids was found
  -- in an assumed pod, with a list of indexes in its annotation; and either the hook, for the hash,
  -- finds exactly the GPUs of these indexes, or the save of the pod's record with the device failed.
  pub pre_start_core-find_gpu_indexes :
      (kubelet : Kubelet) (sitter : PodSitter) (ids : List Text) (readlink : Text → Result Text)
      (ns : List Node) (w w' : Agent files bolt json)
      → w.core_locator.resource ≡ resource_gpu_core
      → pre_start_core files bolt json kubelet sitter ids w ≡ (ok tt, w')
      → ((k : ℕ)
          → entry w.fs (sym_path (share_id (new_device ids resource_gpu_core).hash k)) ≡ none)
      → Mirrors files readlink (new_device ids resource_gpu_core).hash ns w'.fs
      → (a : Assumed) × (indexes : List ℤ) × IsAssigned kubelet sitter resource_gpu_core ids a
        × (parse_indexes a.assumed ≡ ok indexes)
        × (Finds readlink (new_device ids resource_gpu_core).hash ns indexes
            ⊎ IsUnsaved bolt json ids a.curr w.db w'.db)
  pre_start_core-find_gpu_indexes kubelet sitter ids readlink ns w w' locates runs fresh m =
      let (a, indexes, g, reads, started) =
        pre_start_core-Started files bolt json kubelet sitter ids w w' locates runs in
      (
        a,
        indexes,
        g,
        reads,
        outcome a indexes (parse_indexes-InInt a.assumed indexes reads) started,
      )
    where
      outcome :
          (a : Assumed) (indexes : List ℤ)
          → All InInt indexes
          → Started files bolt json ids resource_gpu_core a indexes w w'
          → Finds readlink (new_device ids resource_gpu_core).hash ns indexes
            ⊎ IsUnsaved bolt json ids a.curr w.db w'.db
      outcome a indexes small (kept p c wr sv) =
          inl (AllCreated-Finds files readlink _ ns indexes w.fs w'.fs c fresh small m)
      outcome a indexes small (undone p e t c wr sv u) = inr (unsaved p e wr sv)
