-- ===== src/Storage/Loading.antt =====
-- What `Load` and `LoadOrCreate` return in a database of valid pods.
use elastic_gpu_agent.Prelude.{
  ◌≡◌, refl, sym, ap, ◌∙◌, arith, Option, none, some, ◌∷◌, ◌++◌, Text, text_eq_refl, ok, err,
  no_such_key,
}
use elastic_gpu_agent.Go.FilePath.{IsSegment}
use elastic_gpu_agent.Types.Json.{Json}
use elastic_gpu_agent.Types.Pod.{PodInfo, new_pi}
use elastic_gpu_agent.Types.Pod.RoundTrip.{IsValid, key-injective}
use elastic_gpu_agent.Storage.{load, load_or_create, found}
use elastic_gpu_agent.Storage.Bolt.{BoltDb}
use elastic_gpu_agent.Storage.Records.{load-found, found_self, found-none, key-new_pi}
use elastic_gpu_agent.Storage.Iteration.{IsStore, IsRecord, record_of}

pub new_pi-IsValid : (s n : Text) → IsSegment s → IsSegment n → IsValid (new_pi s n)
unfolding new_pi
new_pi-IsValid s n hs hn = record { namespace = hs; name = hn; storable = (tt, tt) }

module _ (bolt : BoltDb) (json : Json) where
  open bolt use {Db, get}

  -- A pod has no record, or the record of a valid pod with its names.
  pub data Loads (s n : Text) (db : Db) : Type 0 where
    missing :
        get db (s ++ b'/' ∷ n) ≡ none
        → load bolt json s n db ≡ err (no_such_key (s ++ b'/' ∷ n))
        → Loads s n db
    recorded :
        (p : PodInfo)
        → IsValid p
        → p.namespace ≡ s
        → p.name ≡ n
        → load bolt json s n db ≡ ok p
        → Loads s n db

  pub load-Loads :
      (s n : Text) (db : Db) → IsStore bolt json db → IsSegment s → IsSegment n → Loads s n db
  unfolding new_pi
  load-Loads s n db inv hs hn = go (get db (s ++ b'/' ∷ n)) refl
    where
      of_record :
          (v : Text)
          → get db (s ++ b'/' ∷ n) ≡ some v
          → IsRecord bolt json (s ++ b'/' ∷ n) v
          → Loads s n db
      of_record v g (record_of p hp ek ev) =
          let names =
            key-injective (new_pi s n) p (new_pi-IsValid s n hs hn) hp
              (key-new_pi s n hs hn ∙ ek) in
          recorded p hp (sym names.0) (sym names.1) (
            load-found bolt json s n db hs hn
            ∙ ap (found bolt json (new_pi s n)) (g ∙ ap some ev)
            ∙ found_self bolt json p s n hp
                (ground (arith, names.0, names.1, text_eq_refl s, text_eq_refl n)))

      go : (o : Option Text) → get db (s ++ b'/' ∷ n) ≡ o → Loads s n db
      go none g = missing g (
          load-found bolt json s n db hs hn
          ∙ ap (found bolt json (new_pi s n)) g
          ∙ found-none bolt json s n hs hn)
      go (some v) g = of_record v g (inv (s ++ b'/' ∷ n) v g)

  -- `LoadOrCreate` gives a valid pod with the names.
  pub load_or_create-IsValid :
      (s n : Text) (db : Db)
      → IsStore bolt json db
      → IsSegment s
      → IsSegment n
      → IsValid (load_or_create bolt json s n db)
  unfolding load_or_create
  load_or_create-IsValid s n db inv hs hn = go (load-Loads s n db inv hs hn)
    where
      go : Loads s n db → IsValid (load_or_create bolt json s n db)
      go (missing g e) = rw (e, load_or_create) (new_pi-IsValid s n hs hn)
      go (recorded p hp es en e) = rw (e, load_or_create) hp
