-- ===== src/Tests/Platform.antt =====
-- A file system and a database in memory, with the laws of `Files` and `BoltDb`.
use elastic_gpu_agent.Prelude.{
  ◌≡◌, ◌≢◌, refl, ap, sym, false, Option, none, some, List, [], ◌∷◌, arith, Text, text_eq,
  text_eq_iff, if◌then◌else◌, Result, ok, err, file_exists, file_not_exist, Dict, lookup, insert,
  erase, lookup-insert, lookup-erase, Member, later, Bool-cases, inl, inr, Member-cases,
  Member-of_eq, ap₂,
}
use elastic_gpu_agent.Operator.FileSystem.{Files, Entry, link}
use elastic_gpu_agent.Storage.Bolt.{BoltDb}

abbrev pub Disk : Type 0
Disk = Dict Entry

unfoldable pub make_link : Option Entry → Disk → Text → Text → Result Disk
make_link none s t p = ok (insert p (link t) s)
make_link (some e) s t p = err file_exists

unfoldable pub drop_entry : Option Entry → Disk → Text → Result Disk
drop_entry none s p = err file_not_exist
drop_entry (some e) s p = ok (erase p s)

unfoldable pub stat_entry : Option Entry → Result (Unit {0})
stat_entry none = err file_not_exist
stat_entry (some e) = ok tt

pub make_link-fresh :
    (o : Option Entry) (s s' : Disk) (t p : Text) → make_link o s t p ≡ ok s' → o ≡ none
unfolding make_link
make_link-fresh none s s' t p e = refl
make_link-fresh (some x) s s' t p e = absurd (cc)

pub make_link-entry :
    (o : Option Entry) (s s' : Disk) (t p q : Text)
    → make_link o s t p ≡ ok s'
    → lookup q s' ≡ (if text_eq p q then some (link t) else lookup q s)
unfolding make_link
make_link-entry none s s' t p q e =
    let same : insert p (link t) s ≡ s' = cc in rw (← same) (lookup-insert p q (link t) s)
make_link-entry (some x) s s' t p q e = absurd (cc)

pub drop_entry-present :
    (o : Option Entry) (s s' : Disk) (p : Text) → drop_entry o s p ≡ ok s' → o ≢ none
unfolding drop_entry
drop_entry-present none s s' p e h = cc
drop_entry-present (some x) s s' p e h = cc

pub drop_entry-entry :
    (o : Option Entry) (s s' : Disk) (p q : Text)
    → drop_entry o s p ≡ ok s'
    → lookup q s' ≡ (if text_eq p q then none else lookup q s)
unfolding drop_entry
drop_entry-entry none s s' p q e = absurd (cc)
drop_entry-entry (some x) s s' p q e =
    let same : erase p s ≡ s' = cc in rw (← same) (lookup-erase p q s)

pub stat_entry-absent : (o : Option Entry) → o ≡ none → stat_entry o ≡ err file_not_exist
stat_entry-absent o e = rw e (unfold stat_entry in refl)

abbrev pub memory_files : Files
memory_files = record {
  State = Disk;
  entry = λ s p. lookup p s;
  stat = λ s p. stat_entry (lookup p s);
  symlink = λ s t p. make_link (lookup p s) s t p;
  remove = λ s p. drop_entry (lookup p s) s p;
  stat_absent = λ s p e. stat_entry-absent (lookup p s) e;
  symlink_fresh = λ s s' t p e. make_link-fresh (lookup p s) s s' t p e;
  entry-symlink = λ s s' t p q e. make_link-entry (lookup p s) s s' t p q e;
  remove_present = λ s s' p e. drop_entry-present (lookup p s) s s' p e;
  entry-remove = λ s s' p q e. drop_entry-entry (lookup p s) s s' p q e;
}

pub same_lookup :
    (d d' : Dict Text) (k : Text)
    → ◌≡◌ {A = Result (Dict Text)} (ok d) (ok d')
    → lookup k d' ≡ lookup k d
same_lookup d d' k e = let same : d ≡ d' = cc in rw same

pub put_lookup :
    (d d' : Dict Text) (k j v : Text)
    → ok (insert k v d) ≡ ok d'
    → lookup j d' ≡ (if text_eq k j then some v else lookup j d)
put_lookup d d' k j v e = let same : insert k v d ≡ d' = cc in rw (← same) (lookup-insert k j v d)

pub remove_lookup :
    (d d' : Dict Text) (k j : Text)
    → ok (erase k d) ≡ ok d'
    → lookup j d' ≡ (if text_eq k j then none else lookup j d)
remove_lookup d d' k j e = let same : erase k d ≡ d' = cc in rw (← same) (lookup-erase k j d)

-- the first entry of each key
unfoldable pub first_entries : Dict Text → List (Text × Text)
unfolding erase
first_entries [] = []
first_entries ((k, v) ∷ m) = (k, v) ∷ erase k (first_entries m)

lookup-first_entries : (k : Text) (m : Dict Text) → lookup k (first_entries m) ≡ lookup k m
unfolding first_entries lookup
lookup-first_entries k [] = refl
lookup-first_entries k ((j, v) ∷ m) =
    ground (arith, lookup-erase j k (first_entries m), lookup-first_entries k m)

Member-of_erase :
    (j : Text) (x : Text × Text) (m : Dict Text)
    → Member x (erase j m)
    → (text_eq j x.0 ≡ false) × Member x m
unfolding erase
Member-of_erase j x [] h = elim h [ ]
Member-of_erase j x ((i, v) ∷ m) h = elim (Bool-cases (text_eq i j)) [
  | inl same ↦ let (ne, k) = Member-of_erase j x m (rw same at h) in (ne, later k)
  | inr differ ↦ elim (Member-cases (rw differ at h)) [
    | inl e ↦ (
      ground (arith, text_eq_iff i j, text_eq_iff j x.0, ap (λ (y : Text × Text). y.0) e),
      Member-of_eq m e,
    )
    | inr k ↦ let (ne, k') = Member-of_erase j x m k in (ne, later k')
  ]
]

pub get_of_first :
    (m : Dict Text) (k v : Text) → Member (k, v) (first_entries m) → lookup k m ≡ some v
unfolding first_entries lookup
get_of_first [] k v h = elim h [ ]
get_of_first ((j, w) ∷ m) k v h = elim (Member-cases h) [
  | inl e ↦
      ground
        (arith, text_eq_iff j k, ap (λ (y : Text × Text). y.0) e, ap (λ (y : Text × Text). y.1) e)
  | inr k' ↦
      let (ne, h') = Member-of_erase j (k, v) (first_entries m) k' in rw ne (get_of_first m k v h')
]

Member-erase :
    (j : Text) (x : Text × Text) (m : Dict Text)
    → text_eq j x.0 ≡ false
    → Member x m
    → Member x (erase j m)
unfolding erase
Member-erase j x [] e h = elim h [ ]
Member-erase j x ((i, v) ∷ m) e h = elim (Bool-cases (text_eq i j)) [
  | inl same ↦ rw same (elim (Member-cases h) [
    | inl x' ↦
        absurd
          (ground (arith, text_eq_iff i j, text_eq_iff j x.0, ap (λ (y : Text × Text). y.0) x'))
    | inr k ↦ Member-erase j x m e k
  ])
  | inr differ ↦ rw differ (elim (Member-cases h) [
    | inl x' ↦ Member-of_eq (erase j m) x'
    | inr k ↦ later (Member-erase j x m e k)
  ])
]

pub first_of_get :
    (m : Dict Text) (k v : Text) → lookup k m ≡ some v → Member (k, v) (first_entries m)
unfolding first_entries lookup
first_of_get [] k v e = absurd (cc)
first_of_get ((j, w) ∷ m) k v e = elim (Bool-cases (text_eq j k)) [
  | inl same ↦
      Member-of_eq (erase j (first_entries m))
        (ap₂ (λ a b. (a, b)) (sym ((text_eq_iff j k).0 same)) (ground arith))
  | inr differ ↦
      later (Member-erase j (k, v) (first_entries m) differ (first_of_get m k v (ground arith)))
]

abbrev pub memory_bolt : BoltDb
memory_bolt = record {
  Db = Dict Text;
  open_file = λ f. ok [];
  create_bucket = λ d b. ok d;
  get = λ d k. lookup k d;
  put = λ d k v. ok (insert k v d);
  remove = λ d k. ok (erase k d);
  close = λ d. (ok tt, d);
  entries = first_entries;
  get-create_bucket = λ d d' b k e. same_lookup d d' k e;
  get-put = λ d d' k j v e. put_lookup d d' k j v e;
  get-remove = λ d d' k j e. remove_lookup d d' k j e;
  get_of_entry = get_of_first;
  entry_of_get = first_of_get;
}
