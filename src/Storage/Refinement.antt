-- ===== src/Storage/Refinement.antt =====
-- Any sequence of saves and deletes, against a map from pods to their records.
use elastic_gpu_agent.Prelude.{
  ◌≡◌, refl, ◌∙◌, Option, none, some, List, [], ◌∷◌, ◌++◌, Text, if◌then◌else◌, Result, ok, err,
  Bool-cases, inl, inr,
}
use elastic_gpu_agent.Go.FilePath.{IsSegment}
use elastic_gpu_agent.Types.Json.{Json}
use elastic_gpu_agent.Types.Pod.{PodInfo, key, val}
use elastic_gpu_agent.Types.Pod.RoundTrip.{IsValid}
use elastic_gpu_agent.Storage.{save, load, delete}
use elastic_gpu_agent.Storage.Bolt.{BoltDb}
use elastic_gpu_agent.Storage.Records.{load-save, load-delete, same_pod, ArePods}

pub data Operation : Type 0 where
  saves : PodInfo → Operation
  deletes : Text → Text → Operation

-- The pods of the operations are valid, and their names path segments.
abbrev pub AreFit : List Operation → Type 0
AreFit [] = Unit
AreFit (saves p ∷ os) = IsValid p × AreFit os
AreFit (deletes s n ∷ os) = (IsSegment s × IsSegment n) × AreFit os

-- The abstract store: the record of a pod, if it has one.
abbrev pub View : Type 0
View = Text → Text → Option PodInfo

-- What an operation with an outcome does to the abstract store.
apply : Operation → Result (Unit {0}) → View → View
apply (saves p) (ok u) v s n = if same_pod p.namespace p.name s n then some p else v s n
apply (deletes s' n') (ok u) v s n = if same_pod s' n' s n then none else v s n
apply o (err e) v s n = v s n

unfoldable pub apply_all : List Operation → List (Result (Unit {0})) → View → View
unfolding apply
apply_all (o ∷ os) (r ∷ rs) v = apply_all os rs (apply o r v)
apply_all os rs v = v

apply_cong :
    (o : Operation) (r : Result (Unit {0})) (v w : View) (s n : Text)
    → v s n ≡ w s n
    → apply o r v s n ≡ apply o r w s n
unfolding apply
apply_cong (saves p) (ok u) v w s n h = rw h
apply_cong (deletes s' n') (ok u) v w s n h = rw h
apply_cong (saves p) (err e) v w s n h = h
apply_cong (deletes s' n') (err e) v w s n h = h

apply_all_cong :
    (os : List Operation) (rs : List (Result (Unit {0}))) (v w : View) (s n : Text)
    → v s n ≡ w s n
    → apply_all os rs v s n ≡ apply_all os rs w s n
unfolding apply_all
apply_all_cong [] [] v w s n h = h
apply_all_cong [] (r ∷ rs) v w s n h = h
apply_all_cong (o ∷ os) [] v w s n h = h
apply_all_cong (o ∷ os) (r ∷ rs) v w s n h =
    apply_all_cong os rs (apply o r v) (apply o r w) s n (apply_cong o r v w s n h)

found_record : Result PodInfo → Option PodInfo
found_record (ok p) = some p
found_record (err e) = none

module _ (bolt : BoltDb) (json : Json) where
  open bolt use {Db, put, remove}

  -- The abstract store that a database stands for.
  unfoldable pub view : Db → View
  unfolding found_record
  view db s n = found_record (load bolt json s n db)

  perform : Operation → Db → Result (Unit {0}) × Db
  perform (saves p) db = save bolt json p db
  perform (deletes s n) db = delete bolt json s n db

  -- The outcomes of a sequence of operations, and the database after them.
  unfoldable pub perform_all : List Operation → Db → List (Result (Unit {0})) × Db
  unfolding perform
  perform_all [] db = ([], db)
  perform_all (o ∷ os) db =
      let (r, db') = perform o db in let (rs, db'') = perform_all os db' in (r ∷ rs, db'')

  save-apply :
      (p : PodInfo) (db : Db) (s n : Text)
      → IsValid p
      → IsSegment s
      → IsSegment n
      → view (save bolt json p db).1 s n ≡ apply (saves p) (save bolt json p db).0 (view db) s n
  unfolding view apply found_record
  save-apply p db s n h hs hn = go (put db (key p) (val json p)) refl
    where
      go :
          (r : Result Db)
          → put db (key p) (val json p) ≡ r
          → view (save bolt json p db).1 s n ≡ apply (saves p) (save bolt json p db).0 (view db) s n
      go (ok db') e =
          let saved : save bolt json p db ≡ (ok tt, db') = unfold save in rw e in
          rw (saved, load-save bolt json p s n db db' h hs hn saved)
            (elim (Bool-cases (same_pod p.namespace p.name s n)) [
              | inl same ↦ rw same
              | inr other ↦ rw other
            ])
      go (err x) e = unfold save in rw e

  delete-apply :
      (s' n' : Text) (db : Db) (s n : Text)
      → ArePods s' n' s n
      → view (delete bolt json s' n' db).1 s n
        ≡ apply (deletes s' n') (delete bolt json s' n' db).0 (view db) s n
  unfolding view apply found_record
  delete-apply s' n' db s n h = go (remove db (s' ++ b'/' ∷ n')) refl
    where
      go :
          (r : Result Db)
          → remove db (s' ++ b'/' ∷ n') ≡ r
          → view (delete bolt json s' n' db).1 s n
            ≡ apply (deletes s' n') (delete bolt json s' n' db).0 (view db) s n
      go (ok db') e =
          let deleted : delete bolt json s' n' db ≡ (ok tt, db') = unfold delete in rw e in
          rw (deleted, load-delete bolt json s' n' s n db db' h deleted)
            (elim (Bool-cases (same_pod s' n' s n)) [ inl same ↦ rw same | inr other ↦ rw other ])
      go (err x) e = unfold delete in rw e

  -- The storage implements a map from pods to records: after any sequence of saves of valid pods and
  -- deletes of pods with path segments for their names, some of which may fail, every pod with path
  -- segments for its names has the record that the operations that succeeded give it, from what the
  -- database held before.
  pub perform_all-apply_all :
      (os : List Operation) (db : Db) (s n : Text)
      → AreFit os
      → IsSegment s
      → IsSegment n
      → view (perform_all os db).1 s n ≡ apply_all os (perform_all os db).0 (view db) s n
  unfolding perform_all apply_all
  perform_all-apply_all [] db s n h hs hn = refl
  perform_all-apply_all (saves p ∷ os) db s n (h, hos) hs hn =
      perform_all-apply_all os (save bolt json p db).1 s n hos hs hn
      ∙ apply_all_cong os _ _ _ s n (save-apply p db s n h hs hn)
  perform_all-apply_all (deletes s' n' ∷ os) db s n (h, hos) hs hn =
      perform_all-apply_all os (delete bolt json s' n' db).1 s n hos hs hn
      ∙ apply_all_cong os _ _ _ s n (
          delete-apply s' n' db s n
            (record { namespace = h.0; name = h.1; namespace' = hs; name' = hn }))
