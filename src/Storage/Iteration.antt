-- ===== src/Storage/Iteration.antt =====
-- What `ForEach` visits: each record of the database, read back to its pod.
use elastic_gpu_agent.Prelude.{
  ◌≡◌, refl, Option, none, some, List, [], ◌∷◌, ◌++◌, arith, Text, text_eq, text_eq_iff, Result, ok,
  err, Exec, Member, first, later, All, map, continue, pure, ◌>>◌, ap, sym, subst, ◌↔◌, ◌∙◌,
  text_eq_refl, Bool-cases, inl, inr,
}
use elastic_gpu_agent.Types.Json.{Json}
use elastic_gpu_agent.Types.Pod.{PodInfo, new_pi, key, val}
use elastic_gpu_agent.Types.Pod.RoundTrip.{
  IsValid, new_pi_from_raw_lem, key-injective, unmarshal-val, key_of_segments,
}
use elastic_gpu_agent.Storage.{save, delete, load, found, for_each, for_each_entry}
use elastic_gpu_agent.Storage.Bolt.{BoltDb}
use elastic_gpu_agent.Storage.Records.{load-found, found_self, put_of_save, remove_of_delete}

-- A loop over pods that stops at the first error of its body.
unfoldable pub visit :
    {S : Type 0} → (PodInfo → Exec S (Unit {0})) → List PodInfo → Exec S (Unit {0})
visit f [] = pure tt
visit f (p ∷ ps) = do f p; visit f ps

continue_cong :
    {S : Type 0} {A B : Type 0} {g h : S → Result B × S} (r : Result A) (s : S)
    → ((s' : S) → g s' ≡ h s')
    → continue r (λ _. g) s ≡ continue r (λ _. h) s
continue_cong (ok u) s e = e s
continue_cong (err x) s e = refl

module _ (bolt : BoltDb) (json : Json) where
  open bolt use {Db, get, put, remove, entries, get-put, get-remove, get_of_entry, entry_of_get}

  abbrev raw : PodInfo → Text × Text
  raw p = (key p, val json p)

  -- The record `v` under the key `k` is that of a valid pod.
  pub data IsRecord (k v : Text) : Type 0 where
    record_of : (p : PodInfo) → IsValid p → k ≡ key p → v ≡ val json p → IsRecord k v

  -- Every record of the database is that of a valid pod.
  abbrev pub IsStore : Db → Type 0
  IsStore db = (k v : Text) → get db k ≡ some v → IsRecord k v

  -- A `Save` of a valid pod that succeeds, in a database whose records are all of valid pods, keeps
  -- the records so.
  pub save-IsStore :
      (p : PodInfo) (db db' : Db)
      → IsValid p
      → IsStore db
      → save bolt json p db ≡ (ok tt, db')
      → IsStore db'
  save-IsStore p db db' h inv e k v g =
      let law = get-put db db' (key p) k (val json p) (put_of_save bolt json p db db' e) in
      elim (Bool-cases (text_eq (key p) k)) [
        | inl same ↦ record_of p h (ground (arith, text_eq_iff (key p) k)) (ground arith)
        | inr other ↦ inv k v (ground arith)
      ]

  -- A `Delete` that succeeds, in a database whose records are all of valid pods, keeps the records
  -- so.
  pub delete-IsStore :
      (s n : Text) (db db' : Db) → IsStore db → delete bolt json s n db ≡ (ok tt, db') → IsStore db'
  delete-IsStore s n db db' inv e k v g =
      let law = get-remove db db' (s ++ b'/' ∷ n) k (remove_of_delete bolt json s n db db' e) in
      inv k v (ground arith)

  -- A delete, whether it succeeds or not, keeps a store.
  pub delete-IsStore_always :
      (s n : Text) (db : Db) → IsStore db → IsStore (delete bolt json s n db).1
  delete-IsStore_always s n db inv = go (remove db (s ++ b'/' ∷ n)) refl
    where
      go : (r : Result Db) → remove db (s ++ b'/' ∷ n) ≡ r → IsStore (delete bolt json s n db).1
      go (ok db') e =
          let deleted : delete bolt json s n db ≡ (ok tt, db') = unfold delete in rw e in
          rw deleted (delete-IsStore s n db db' inv deleted)
      go (err x) e = unfold delete in rw e inv

  -- A save of a valid pod, whether it succeeds or not, keeps a store.
  pub save-IsStore_always :
      (p : PodInfo) (db : Db) → IsValid p → IsStore db → IsStore (save bolt json p db).1
  save-IsStore_always p db h inv = go (put db (key p) (val json p)) refl
    where
      go : (r : Result Db) → put db (key p) (val json p) ≡ r → IsStore (save bolt json p db).1
      go (ok db') e =
          let saved : save bolt json p db ≡ (ok tt, db') = unfold save in rw e in
          rw saved (save-IsStore p db db' h inv saved)
      go (err x) e = unfold save in rw e inv

  -- The pods of a list of entries that are all records.
  record Read (l : List (Text × Text)) : Type 0 where
    pods : List PodInfo
    valid : All IsValid pods
    raws : map raw pods ≡ l

  read : (l : List (Text × Text)) → ((k v : Text) → Member (k, v) l → IsRecord k v) → Read l
  read [] h = record { pods = []; valid = tt; raws = refl }
  read ((k, v) ∷ l) h = add (h k v first) (read l (λ j w m. h j w (later m)))
    where
      add : IsRecord k v → Read l → Read ((k, v) ∷ l)
      add (record_of p hp ek ev) r = record {
        pods = p ∷ r.pods;
        valid = (hp, r.valid);
        raws = cc (r.raws, ek, ev);
      }

  for_each_entry-visit :
      {S : Type 0} (f : PodInfo → Exec S (Unit {0})) (ps : List PodInfo) (s : S)
      → All IsValid ps
      → for_each_entry bolt json f (map raw ps) s ≡ visit f ps s
  unfolding for_each_entry visit
  for_each_entry-visit f [] s h = refl
  for_each_entry-visit f (p ∷ ps) s h =
      rw (new_pi_from_raw_lem json p h.0)
        (continue_cong (f p s).0 (f p s).1 (λ s'. for_each_entry-visit f ps s' h.1))

  raw-injective : (p q : PodInfo) → IsValid p → IsValid q → raw p ≡ raw q → p ≡ q
  raw-injective p q hp hq e =
      let keys = key-injective p q hp hq (ap (λ (r : Text × Text). r.0) e) in
      let vals : val json p ≡ val json q = ap (λ (r : Text × Text). r.1) e in
      ground (
        arith,
        keys.0,
        keys.1,
        vals,
        unmarshal-val json p hp.storable,
        unmarshal-val json q hq.storable,
      )

  Member-raw : (p : PodInfo) (ps : List PodInfo) → Member p ps → Member (raw p) (map raw ps)
  Member-raw p [] m = elim m [ ]
  Member-raw p (q ∷ ps) first = first
  Member-raw p (q ∷ ps) (later m) = later (Member-raw p ps m)

  Member-of_raw :
      (p : PodInfo) (ps : List PodInfo)
      → IsValid p
      → All IsValid ps
      → (r : Text × Text) → r ≡ raw p
      → Member r (map raw ps)
      → Member p ps
  Member-of_raw p [] hp hs r e m = elim m [ ]
  Member-of_raw p (q ∷ ps) hp hs r e first =
      subst (λ x. Member x (q ∷ ps)) (raw-injective q p hs.0 hp e) first
  Member-of_raw p (q ∷ ps) hp hs r e (later m) = later (Member-of_raw p ps hp hs.1 r e m)

  load_of_get :
      (p : PodInfo) (db : Db)
      → IsValid p
      → get db (key p) ≡ some (val json p)
      → load bolt json p.namespace p.name db ≡ ok p
  load_of_get p db h g =
      rw
        (
          load-found bolt json p.namespace p.name db h.namespace h.name,
          ← key_of_segments p h.namespace h.name,
          g,
        )
        (found_self bolt json p p.namespace p.name h
          (ground (arith, text_eq_refl p.namespace, text_eq_refl p.name)))

  -- What `Load` finds is a record of the database.
  get_of_load :
      (p : PodInfo) (db : Db)
      → IsStore db
      → IsValid p
      → load bolt json p.namespace p.name db ≡ ok p
      → get db (key p) ≡ some (val json p)
  get_of_load p db inv h e = go (get db (key p)) refl
    where
      loaded :
          (o : Option Text)
          → get db (key p) ≡ o
          → found bolt json (new_pi p.namespace p.name) o ≡ ok p
      loaded o g = cc (
        load-found bolt json p.namespace p.name db h.namespace h.name,
        key_of_segments p h.namespace h.name,
        g,
        e,
      )

      known : (v : Text) → get db (key p) ≡ some v → IsRecord (key p) v → some v ≡ some (val json p)
      known v g (record_of q hq ek ev) =
          let names = key-injective p q h hq ek in
          let same : found bolt json (new_pi p.namespace p.name) (some v) ≡ ok q =
            rw (names.0, names.1, ev)
              (found_self bolt json q q.namespace q.name hq
                (ground (arith, text_eq_refl q.namespace, text_eq_refl q.name))) in
          cc (loaded (some v) g, same, ev)

      go : (o : Option Text) → get db (key p) ≡ o → get db (key p) ≡ some (val json p)
      go none g = absurd (unfold found in cc (loaded none g))
      go (some v) g = g ∙ known v g (inv (key p) v g)

  -- The pods that `ForEach` visits: those that `Load` gives, each at its own name, in an order that
  -- does not depend on the callback.
  pub record Visits (db : Db) : Type 1 where
    pub pods : List PodInfo
    pub valid : All IsValid pods
    pub exact :
        (p : PodInfo) → IsValid p → Member p pods ↔ (load bolt json p.namespace p.name db ≡ ok p)
    pub run :
        {S : Type 0} (f : PodInfo → Exec S (Unit {0})) (s : S)
        → for_each bolt json f db s ≡ visit f pods s

  -- In a database whose records are all of valid pods, `ForEach` runs its callback on a list of valid
  -- pods until the first error: exactly those that `Load` gives at their own names, whatever the
  -- callback is.
  pub for_each-Visits : (db : Db) → IsStore db → Visits db
  unfolding for_each
  for_each-Visits db inv =
      let r = read (entries db) (λ k v m. inv k v (get_of_entry db k v m)) in
      record {
        pods = r.pods;
        valid = r.valid;
        exact = λ p h. (
          λ m. load_of_get p db h (
              get_of_entry db (key p) (val json p)
                (subst (λ l. Member (raw p) l) r.raws (Member-raw p r.pods m))),
          λ e. Member-of_raw p r.pods h r.valid (raw p) refl (
              subst (λ l. Member (raw p) l) (sym r.raws)
                (entry_of_get db (key p) (val json p) (get_of_load p db inv h e))),
        );
        run = λ f s. rw (← r.raws) (for_each_entry-visit f r.pods s r.valid);
      }
