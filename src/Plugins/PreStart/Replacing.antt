-- ===== src/Plugins/PreStart/Replacing.antt =====
-- What a `PreStartContainer` call that saves a record replaces: the container's device before.
use elastic_gpu_agent.Prelude.{
  ◌≡◌, refl, sym, ap, ap₂, ◌∙◌, subst, some, inl, inr, Text, arith, Dict, insert, Option,
  Member-insert, Member, ◌≢◌, [], text_eq_iff, Bool-cases, Result, ok, err, IsMap,
}
use elastic_gpu_agent.Go.FilePath.{IsSegment}
use elastic_gpu_agent.Types.Json.{Json}
use elastic_gpu_agent.Types.Device.{Device}
use elastic_gpu_agent.Types.Pod.{new_pi, PodContainer, PodInfo}
use elastic_gpu_agent.Types.Pod.RoundTrip.{IsValid, IsStorable}
use elastic_gpu_agent.Storage.{save, load, load_or_create}
use elastic_gpu_agent.Storage.Bolt.{BoltDb}
use elastic_gpu_agent.Storage.Iteration.{IsStore}
use elastic_gpu_agent.Storage.Loading.{load_or_create-IsValid}
use elastic_gpu_agent.Storage.Records.{load-save, same_pod}
use elastic_gpu_agent.Plugins.PreStart.Record.{Writes, load_or_create-names}
use elastic_gpu_agent.Plugins.PreStart.Shares.{IsShareLink}

module _ (bolt : BoltDb) (json : Json) (path : Text) where
  open bolt use {Db}

  -- No record of the database lists a device that has the path for a link of a share.
  abbrev pub IsUnlisted : Db → Type 0
  IsUnlisted db =
      (p : PodInfo) (m : Dict Device) (c : Text) (d : Device)
      → IsValid p
      → load bolt json p.namespace p.name db ≡ ok p
      → p.container_device_map ≡ some m
      → Member (c, d) m
      → ¬ IsShareLink d.hash path

  -- Only the record of the container's pod lists a device that has the path for a link, and only for
  -- the container.
  abbrev pub IsOnlyAt : PodContainer → Db → Type 0
  IsOnlyAt curr db =
      (p : PodInfo) (m : Dict Device) (c : Text) (d : Device)
      → IsValid p
      → load bolt json p.namespace p.name db ≡ ok p
      → p.container_device_map ≡ some m
      → Member (c, d) m
      → IsShareLink d.hash path
      → (p.namespace ≡ curr.namespace) × (p.name ≡ curr.name) × (c ≡ curr.container)

  -- A device that a record lists.
  record Lists (db : Db) (c : Text) (d : Device) (p : PodInfo) : Type 0 where
    valid : IsValid p
    loads : load bolt json p.namespace p.name db ≡ ok p
    map : Dict Device
    has_map : p.container_device_map ≡ some map
    member : Member (c, d) map

  -- A device that is listed after a save: the one saved, or one that was listed before for another
  -- container or pod.
  data Listed (db : Db) (curr : PodContainer) (devices : Device) (c : Text) (d : Device)
      (q : PodInfo) : Type 0 where
    written :
        q.namespace ≡ curr.namespace
        → q.name ≡ curr.name
        → c ≡ curr.container
        → d ≡ devices
        → Listed db curr devices c d q
    before :
        (p : PodInfo)
        → Lists db c d p
        → (p.namespace ≡ curr.namespace → p.name ≡ curr.name → c ≢ curr.container)
        → Listed db curr devices c d q

  -- What is created has no device, so a device of the pod's record stood there before.
  old-Lists :
      (db : Db) (curr : PodContainer) (m : Dict Device) (c : Text) (d : Device)
      → IsValid (load_or_create bolt json curr.namespace curr.name db)
      → (load_or_create bolt json curr.namespace curr.name db).container_device_map ≡ some m
      → Member (c, d) m
      → Lists db c d (load_or_create bolt json curr.namespace curr.name db)
  unfolding load_or_create
  old-Lists db curr m c d hp e k = go (load bolt json curr.namespace curr.name db) refl
    where
      names :
          ((load_or_create bolt json curr.namespace curr.name db).namespace ≡ curr.namespace)
          × ((load_or_create bolt json curr.namespace curr.name db).name ≡ curr.name)
      names = load_or_create-names bolt json curr.namespace curr.name db

      go :
          (r : Result PodInfo)
          → load bolt json curr.namespace curr.name db ≡ r
          → Lists db c d (load_or_create bolt json curr.namespace curr.name db)
      go (ok p) f =
          let loaded : load_or_create bolt json curr.namespace curr.name db ≡ p =
            rw (f, load_or_create) refl in
          record {
            valid = hp;
            loads =
                ap₂ (λ (x : Text) (y : Text). load bolt json x y db) names.0 names.1
                ∙ f
                ∙ ap ok (sym loaded);
            map = m;
            has_map = e;
            member = k;
          }
      go (err x) f =
          let fresh : load_or_create bolt json curr.namespace curr.name db
              ≡ new_pi curr.namespace curr.name =
            rw (f, load_or_create) refl in
          let nothing : [] ≡ m = unfold new_pi in cc (rw fresh at e) in
          elim (subst (λ x. Member (c, d) x) (sym nothing) k) [ ]

  module _ (db db' : Db) (curr : PodContainer) (devices : Device) (p : PodInfo)
      (wr : Writes bolt json db curr devices p) (inv : IsStore bolt json db) (hp : IsValid p)
      (saved : save bolt json p db ≡ (ok tt, db')) where
    of_same :
        (c : Text) (d : Device) (q : PodInfo)
        → Lists db' c d q
        → p ≡ q
        → Listed db curr devices c d q
    of_same c d q ls same =
        let old_valid =
          load_or_create-IsValid bolt json curr.namespace curr.name db inv
            (subst IsSegment (ap (λ (x : PodInfo). x.namespace) wr.written) hp.namespace)
            (subst IsSegment (ap (λ (x : PodInfo). x.name) wr.written) hp.name) in
        let ordered : IsMap wr.old_map = (subst IsStorable wr.old old_valid.storable).0 in
        let same_map : ls.map ≡ insert curr.container devices wr.old_map =
          same_value (
            sym ls.has_map
            ∙ ap (λ (x : PodInfo). x.container_device_map) (sym same ∙ wr.written)) in
        elim (Member-insert curr.container c devices d wr.old_map ordered
          (subst (λ m. Member (c, d) m) same_map ls.member)) [
            | inl (here, this) ↦
                written (ap (λ (x : PodInfo). x.namespace) (sym same ∙ wr.written))
                  (ap (λ (x : PodInfo). x.name) (sym same ∙ wr.written)) here this
            | inr (other, k) ↦
                before _ (old-Lists db curr wr.old_map c d old_valid wr.old k) (λ es en. other)
          ]
      where
        same_value : {x y : Dict Device} → ◌≡◌ {A = Option (Dict Device)} (some x) (some y) → x ≡ y
        same_value e = cc

    save-Listed :
        (c : Text) (d : Device) (q : PodInfo) → Lists db' c d q → Listed db curr devices c d q
    save-Listed c d q ls =
        let loads =
          load-save bolt json p q.namespace q.name db db' hp ls.valid.namespace ls.valid.name
            saved in
        elim (Bool-cases (same_pod p.namespace p.name q.namespace q.name)) [
          | inl same ↦ of_same c d q ls (same_pods (sym (rw (ls.loads, same) at loads)))
          | inr differ ↦
              before q
                (record {
                  valid = ls.valid;
                  loads = sym (rw differ at loads) ∙ ls.loads;
                  map = ls.map;
                  has_map = ls.has_map;
                  member = ls.member;
                })
                (λ es en ec. ground (
                  arith,
                  differ,
                  es,
                  en,
                  ap (λ (x : PodInfo). x.namespace) wr.written,
                  ap (λ (x : PodInfo). x.name) wr.written,
                  text_eq_iff p.namespace q.namespace,
                  text_eq_iff p.name q.name,
                ))
        ]
      where
        same_pods : {x y : PodInfo} → ◌≡◌ {A = Result PodInfo} (ok x) (ok y) → x ≡ y
        same_pods e = cc

    -- If the device saved has not the path for a link, and only the container's device before had,
    -- no record lists one that has.
    pub save-IsUnlisted : ¬ IsShareLink devices.hash path → IsOnlyAt curr db → IsUnlisted db'
    save-IsUnlisted clean only q m c d hq e f k l =
        go (save-Listed c d q (record { valid = hq; loads = e; map = m; has_map = f; member = k }))
      where
        go : Listed db curr devices c d q → ⊥
        go (written es en ec ed) = clean (subst (λ (x : Device). IsShareLink x.hash path) ed l)
        go (before o ls differ) =
            let (es, en, ec) = only o ls.map c d ls.valid ls.loads ls.has_map ls.member l in
            differ es en ec

    -- If no record listed a device that has the path for a link, only the container's does.
    pub save-IsOnlyAt : IsUnlisted db → IsOnlyAt curr db'
    save-IsOnlyAt none_before q m c d hq e f k l =
        go (save-Listed c d q (record { valid = hq; loads = e; map = m; has_map = f; member = k }))
      where
        go :
            Listed db curr devices c d q
            → (q.namespace ≡ curr.namespace) × (q.name ≡ curr.name) × (c ≡ curr.container)
        go (written es en ec ed) = (es, en, ec)
        go (before o ls differ) =
            absurd (none_before o ls.map c d ls.valid ls.loads ls.has_map ls.member l)
