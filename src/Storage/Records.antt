-- ===== src/Storage/Records.antt =====
-- What is loaded after a save or a delete: the database is a map from pods to their records.
use elastic_gpu_agent.Prelude.{
  ◌≡◌, refl, true, false, Bool, none, some, ◌∷◌, ◌++◌, arith, Text, text_eq, text_eq_iff,
  if◌then◌else◌, Error, sym, ap, Result, ok, err, no_such_key, ◌&&◌, ◌∙◌, Bool-cases, inl, inr,
}
use elastic_gpu_agent.Go.FilePath.{IsSegment}
use elastic_gpu_agent.Types.Json.{Json}
use elastic_gpu_agent.Types.Pod.{PodInfo, new_pi, key, val}
use elastic_gpu_agent.Types.Pod.RoundTrip.{IsValid, set_val-val, key_of_segments}
use elastic_gpu_agent.Storage.{save, load, delete, found}
use elastic_gpu_agent.Storage.Bolt.{BoltDb}
use elastic_gpu_agent.Prelude.{sep_cancel}

-- Two pods, by their namespaces and names, which are segments of a path.
pub record ArePods (s n s' n' : Text) : Type 0 where
  pub namespace : IsSegment s
  pub name : IsSegment n
  pub namespace' : IsSegment s'
  pub name' : IsSegment n'

abbrev pub same_pod : Text → Text → Text → Text → Bool
same_pod s n s' n' = text_eq s s' && text_eq n n'

path_eq :
    (s n s' n' : Text)
    → ArePods s n s' n'
    → text_eq (s ++ b'/' ∷ n) (s' ++ b'/' ∷ n') ≡ same_pod s n s' n'
path_eq s n s' n' h = ground (
  arith,
  text_eq_iff (s ++ b'/' ∷ n) (s' ++ b'/' ∷ n'),
  text_eq_iff s s',
  text_eq_iff n n',
  sep_cancel b'/' s s' n n' h.namespace.no_slash h.namespace'.no_slash,
)

pub key-new_pi : (s n : Text) → IsSegment s → IsSegment n → key (new_pi s n) ≡ s ++ b'/' ∷ n
unfolding new_pi
key-new_pi s n hs hn = key_of_segments (new_pi s n) hs hn

module _ (bolt : BoltDb) (json : Json) where
  open bolt use {Db, get, put, remove, get-put, get-remove}

  pub put_of_save :
      (p : PodInfo) (db db' : Db)
      → save bolt json p db ≡ (ok tt, db')
      → put db (key p) (val json p) ≡ ok db'
  unfolding save
  put_of_save p db db' e = ground arith

  pub remove_of_delete :
      (s n : Text) (db db' : Db)
      → delete bolt json s n db ≡ (ok tt, db')
      → remove db (s ++ b'/' ∷ n) ≡ ok db'
  unfolding delete
  remove_of_delete s n db db' e = ground arith

  pub found-none :
      (s n : Text)
      → IsSegment s
      → IsSegment n
      → found bolt json (new_pi s n) none ≡ err (no_such_key (s ++ b'/' ∷ n))
  unfolding found
  found-none s n hs hn = rw (key-new_pi s n hs hn)

  pub load-found :
      (s n : Text) (db : Db)
      → IsSegment s
      → IsSegment n
      → load bolt json s n db ≡ found bolt json (new_pi s n) (get db (s ++ b'/' ∷ n))
  unfolding load
  load-found s n db hs hn = rw (key-new_pi s n hs hn)

  get-save :
      (p : PodInfo) (s n : Text) (db db' : Db)
      → IsValid p
      → IsSegment s
      → IsSegment n
      → save bolt json p db ≡ (ok tt, db')
      → get db' (s ++ b'/' ∷ n)
        ≡ (if same_pod p.namespace p.name s n then some (val json p) else get db (s ++ b'/' ∷ n))
  get-save p s n db db' h hs hn e =
      let pods : ArePods p.namespace p.name s n = record {
        namespace = h.namespace;
        name = h.name;
        namespace' = hs;
        name' = hn;
      } in
      rw (← path_eq p.namespace p.name s n pods, ← key_of_segments p h.namespace h.name)
        (get-put db db' (key p) (s ++ b'/' ∷ n) (val json p) (put_of_save p db db' e))

  pub found_self :
      (p : PodInfo) (s n : Text)
      → IsValid p
      → same_pod p.namespace p.name s n ≡ true
      → found bolt json (new_pi s n) (some (val json p)) ≡ ok p
  unfolding found
  found_self p s n h e =
      let es : p.namespace ≡ s = ground (arith, text_eq_iff p.namespace s) in
      let en : p.name ≡ n = ground (arith, text_eq_iff p.name n) in
      rw (← es, ← en) (set_val-val json p h.storable)

  -- After a `Save` of a valid pod that succeeds, loading the pod gives it back, and every other pod,
  -- with path segments for its names, loads as before.
  pub load-save :
      (p : PodInfo) (s n : Text) (db db' : Db)
      → IsValid p
      → IsSegment s
      → IsSegment n
      → save bolt json p db ≡ (ok tt, db')
      → load bolt json s n db'
        ≡ (if same_pod p.namespace p.name s n then ok p else load bolt json s n db)
  load-save p s n db db' h hs hn e =
      rw (load-found s n db' hs hn, load-found s n db hs hn, get-save p s n db db' h hs hn e)
        (elim (Bool-cases (same_pod p.namespace p.name s n)) [
          | inl same ↦ rw same (found_self p s n h same)
          | inr other ↦ rw other
        ])

  -- After a `Delete` that succeeds the pod's record is missing, and every other pod loads as before,
  -- for names that are path segments.
  pub load-delete :
      (s n s' n' : Text) (db db' : Db)
      → ArePods s n s' n'
      → delete bolt json s n db ≡ (ok tt, db')
      → load bolt json s' n' db' ≡ (
          if same_pod s n s' n'
          then err (no_such_key (s' ++ b'/' ∷ n'))
          else load bolt json s' n' db)
  load-delete s n s' n' db db' h e =
      rw
        (
          load-found s' n' db' h.namespace' h.name',
          load-found s' n' db h.namespace' h.name',
          get-remove db db' (s ++ b'/' ∷ n) (s' ++ b'/' ∷ n') (remove_of_delete s n db db' e),
          path_eq s n s' n' h,
        )
        (elim (Bool-cases (same_pod s n s' n')) [
          | inl same ↦ rw same (found-none s' n' h.namespace' h.name')
          | inr other ↦ rw other
        ])

  -- A delete, whether it succeeds or not, leaves what every other pod loads.
  pub load-delete_other :
      (s n s' n' : Text) (db : Db)
      → ArePods s n s' n'
      → same_pod s n s' n' ≡ false
      → load bolt json s' n' (delete bolt json s n db).1 ≡ load bolt json s' n' db
  load-delete_other s n s' n' db h other = go (remove db (s ++ b'/' ∷ n)) refl
    where
      go :
          (r : Result Db)
          → remove db (s ++ b'/' ∷ n) ≡ r
          → load bolt json s' n' (delete bolt json s n db).1 ≡ load bolt json s' n' db
      go (ok db') e =
          let deleted : delete bolt json s n db ≡ (ok tt, db') = unfold delete in rw e in
          rw deleted (load-delete s n s' n' db db' h deleted ∙ rw other)
      go (err x) e = unfold delete in rw e

  -- A save that fails leaves the database.
  pub failed_save :
      (p : PodInfo) (db db' : Db) (e : Error) → save bolt json p db ≡ (err e, db') → db' ≡ db
  failed_save p db db' e f = go (bolt.put db (key p) (val json p)) refl
    where
      go : (r : Result Db) → bolt.put db (key p) (val json p) ≡ r → db' ≡ db
      go (ok s) g =
          let done : save bolt json p db ≡ (ok tt, s) = unfold save in rw g refl in
          absurd (cc (f, done))
      go (err x) g =
          let left : save bolt json p db ≡ (err x, db) = unfold save in rw g refl in
          ap (λ (r : Result (Unit {0}) × Db). r.1) (sym f ∙ left)

  -- A deletion, whether it succeeds or not, adds no record.
  pub load_after_delete :
      (s n s' n' : Text) (p : PodInfo) (db : Db)
      → IsSegment s'
      → IsSegment n'
      → load bolt json s' n' (delete bolt json s n db).1 ≡ ok p
      → load bolt json s' n' db ≡ ok p
  load_after_delete s n s' n' p db hs hn e = go (remove db (s ++ b'/' ∷ n)) refl
    where
      go : (r : Result Db) → remove db (s ++ b'/' ∷ n) ≡ r → load bolt json s' n' db ≡ ok p
      go (ok db') f =
          let deleted : delete bolt json s n db ≡ (ok tt, db') = unfold delete in rw f refl in
          let here : load bolt json s' n' db' ≡ ok p = rw deleted at e in
          let law = get-remove db db' (s ++ b'/' ∷ n) (s' ++ b'/' ∷ n') f in
          elim (Bool-cases (text_eq (s ++ b'/' ∷ n) (s' ++ b'/' ∷ n'))) [
            | inl same ↦
                (let missing =
                    load-found s' n' db' hs hn
                    ∙ ap (found bolt json (new_pi s' n')) (law ∙ rw same refl)
                    ∙ found-none s' n' hs hn in
                  absurd (cc (here, missing)))
            | inr other ↦
                load-found s' n' db hs hn
                ∙ ap (found bolt json (new_pi s' n')) (sym (law ∙ rw other refl))
                ∙ sym (load-found s' n' db' hs hn)
                ∙ here
          ]
      go (err x) f =
          let stays : (delete bolt json s n db).1 ≡ db = unfold delete in rw f refl in rw stays at e
