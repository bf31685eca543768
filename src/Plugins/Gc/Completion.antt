-- ===== src/Plugins/Gc/Completion.antt =====
-- What a round of the collector achieves where no call fails.
use elastic_gpu_agent.Prelude.{
  if◌then◌else◌, length, ℕ, suc, ◌+◌, ◌<◌, ◌≡◌, refl, sym, subst, arith, none, ◌++◌, List, [], ◌∷◌,
  Text, text_eq, text_eq_refl, Lacks, Result, ok, err, All, map, Distinct,
}
use elastic_gpu_agent.Common.{useless_number, resource_gpu_core}
use elastic_gpu_agent.Types.Device.{Device}
use elastic_gpu_agent.Plugins.Allocate.{core_shares}
use elastic_gpu_agent.Types.Json.{Json}
use elastic_gpu_agent.Storage
use elastic_gpu_agent.Storage.Bolt.{BoltDb}
use elastic_gpu_agent.Operator.FileSystem.{Files}
use elastic_gpu_agent.Operator.Gpushare.Removal.{
  IsAbsent, IsRemovable, delete-IsPresent, delete-none,
}
use elastic_gpu_agent.Plugins.Share.{share_id}
use elastic_gpu_agent.Plugins.World.{World}
use elastic_gpu_agent.Plugins.Gc.{Line, further_shares, delete_lines, drop_record, after_first}
use elastic_gpu_agent.Plugins.Gc.Shares.{
  one_share, hash_of_share, kept_IsPresent, Cleared, Cleared-suc, ArePresent, ArePresent-rest,
  delete_more-Cleared,
}
use elastic_gpu_agent.Plugins.Gc.Steps.{delete_lines-keeps}

-- How many shares `Allocate` mounts for a device.
abbrev pub allocated : Device → ℕ
allocated d = if text_eq d.resource_name resource_gpu_core then core_shares (length d.list) else 1

abbrev pub shares_of : Line → ℕ
shares_of l = allocated l.device

-- The collector deletes as many.
further_shares-allocated : (d : Device) → suc (further_shares d) ≡ allocated d
unfolding further_shares core_shares
further_shares-allocated d = ground arith

-- A bucket from which any key can be deleted, one that it does not hold too.
abbrev pub IsDroppable : BoltDb → Type 0
IsDroppable bolt = (db : bolt.Db) (k : Text) → (db' : bolt.Db) × (bolt.remove db k ≡ ok db')

module _ (files : Files) (bolt : BoltDb) (json : Json) where
  open files use {State, entry}
  open bolt use {Db, get, remove, get-remove}

  -- Every line's shares stand, and no two lines are of devices with one hash, which has no dash.
  pub record AreIntact (ls : List Line) (s : State) : Type 0 where
    pub present : All (λ l. ArePresent files l.device.hash 0 (shares_of l) s) ls
    pub dashless : All (λ l. Lacks b'-' l.device.hash) ls
    pub distinct : Distinct (map (λ l. l.device.hash) ls)

  -- A line whose shares and record are gone.
  pub record IsCleared (l : Line) (w : World files bolt) : Type 0 where
    pub shares : (k : ℕ) → k < shares_of l → IsAbsent files (share_id l.device.hash k) w.fs
    pub dropped : get w.db (l.namespace ++ b'/' ∷ l.name) ≡ none

  All-units : (l : List Line) → All (λ x. Unit {0}) l
  All-units [] = tt
  All-units (x ∷ l) = (tt, All-units l)

  -- What is gone stays gone.
  none_stays :
      (ls : List Line) (w : World files bolt) (q : Text)
      → entry w.fs q ≡ none
      → entry (delete_lines files bolt json ls w).fs q ≡ none
  none_stays ls w q h =
      delete_lines-keeps files bolt json (λ l. Unit) (λ v. entry v.fs q ≡ none) ls w
        (record {
          share = λ l i v u g. delete-none files useless_number (share_id l.device.hash i) q v.fs g;
          record_of = λ l v u g. g;
        })
        (All-units ls) h

  delete-get :
      (s n k : Text) (db : Db) → get db k ≡ none → get (Storage.delete bolt json s n db).1 k ≡ none
  unfolding Storage.delete
  delete-get s n k db h = go (remove db (s ++ b'/' ∷ n)) refl
    where
      go :
          (r : Result Db)
          → remove db (s ++ b'/' ∷ n) ≡ r
          → get (Storage.update bolt json r db).1 k ≡ none
      go (ok db') e = ground (arith, h, get-remove db db' (s ++ b'/' ∷ n) k e)
      go (err x) e = h

  get_stays :
      (ls : List Line) (w : World files bolt) (k : Text)
      → get w.db k ≡ none
      → get (delete_lines files bolt json ls w).db k ≡ none
  get_stays ls w k h =
      delete_lines-keeps files bolt json (λ l. Unit) (λ v. get v.db k ≡ none) ls w
        (record {
          share = λ l i v u g. g;
          record_of = λ l v u g. delete-get l.namespace l.name k v.db g;
        })
        (All-units ls) h

  IsCleared-stays :
      (l : Line) (ls : List Line) (w : World files bolt)
      → IsCleared l w
      → IsCleared l (delete_lines files bolt json ls w)
  IsCleared-stays l ls w c = record {
    shares = λ k h. (none_stays ls w _ (c.shares k h).0, none_stays ls w _ (c.shares k h).1);
    dropped = get_stays ls w _ c.dropped;
  }

  -- What the loop has done behind its first line: the rest of it goes on from `next`.
  record Behind (l : Line) (ls : List Line) (w : World files bolt) : Type 0 where
    next : World files bolt
    goes_on : delete_lines files bolt json (l ∷ ls) w ≡ delete_lines files bolt json ls next
    cleared : Cleared files l.device.hash 0 (shares_of l) w.fs next.fs
    dropped : get next.db (l.namespace ++ b'/' ∷ l.name) ≡ none

  drops :
      (s n : Text) (db : Db)
      → IsDroppable bolt
      → get (Storage.delete bolt json s n db).1 (s ++ b'/' ∷ n) ≡ none
  unfolding Storage.delete
  drops s n db d =
      let (db', e) = d db (s ++ b'/' ∷ n) in
      rw e (
        ground (
          arith,
          get-remove db db' (s ++ b'/' ∷ n) (s ++ b'/' ∷ n) e,
          text_eq_refl (s ++ b'/' ∷ n),
        ))

  delete_lines-Behind :
      (l : Line) (ls : List Line) (w : World files bolt)
      → IsRemovable files
      → IsDroppable bolt
      → ArePresent files l.device.hash 0 (shares_of l) w.fs
      → Behind l ls w
  unfolding delete_lines after_first drop_record
  delete_lines-Behind l ls w r d h' =
      let hash = l.device.hash in
      let count = further_shares-allocated l.device in
      let h : ArePresent files hash 0 (suc (further_shares l.device)) w.fs =
        subst (λ n. ArePresent files hash 0 n w.fs) (sym count) h' in
      let (t, e, g) =
        delete-IsPresent files useless_number (share_id hash 0) w.fs r (h 0 (omega arith)) in
      let (u, f, c) =
        delete_more-Cleared files hash 1 (further_shares l.device) t r
          (ArePresent-rest files hash 0 (further_shares l.device) w.fs t e h) in
      record {
        next = record w { fs = u; db = (Storage.delete bolt json l.namespace l.name w.db).1 };
        goes_on = rw (e, f) refl;
        cleared =
            subst (λ n. Cleared files hash 0 n w.fs u) count
              (Cleared-suc files hash 0 (further_shares l.device) w.fs t u e g c);
        dropped = drops l.namespace l.name w.db d;
      }

  still_present :
      (hash : Text) (n : ℕ) (s t : State) (ls : List Line)
      → Cleared files hash 0 n s t
      → Lacks b'-' hash
      → Lacks hash (map (λ l. l.device.hash) ls)
      → All (λ l. Lacks b'-' l.device.hash) ls
      → All (λ l. ArePresent files l.device.hash 0 (shares_of l) s) ls
      → All (λ l. ArePresent files l.device.hash 0 (shares_of l) t) ls
  still_present hash n s t [] c d o ds ps = tt
  still_present hash n s t (l ∷ ls) c d (o, os) (dl, ds) (p, ps) = (
    λ k h.
        kept_IsPresent files (share_id l.device.hash (0 + k)) s t
          (λ q m.
            c.frame q
              (λ i m'. o (hash_of_share l.device.hash hash (0 + k) i dl d (one_share _ _ q m m'))))
          (p k h),
    still_present hash n s t ls c d os ds ps,
  )

  pub delete_lines-IsCleared :
      (ls : List Line) (w : World files bolt)
      → IsRemovable files
      → IsDroppable bolt
      → AreIntact ls w.fs
      → All (λ l. IsCleared l (delete_lines files bolt json ls w)) ls
  delete_lines-IsCleared [] w r d i = tt
  delete_lines-IsCleared (l ∷ ls) w r d i =
      let b = delete_lines-Behind l ls w r d i.present.0 in
      subst (λ v. All (λ x. IsCleared x v) (l ∷ ls)) (sym b.goes_on)
        (
          IsCleared-stays l ls b.next (record {
            shares = λ k h.
                subst (λ j. IsAbsent files (share_id l.device.hash j) b.next.fs) (omega arith)
                  (b.cleared.gone k h);
            dropped = b.dropped;
          }),
          delete_lines-IsCleared ls b.next r d (record {
            present =
                still_present l.device.hash (shares_of l) w.fs b.next.fs ls b.cleared i.dashless.0
                  i.distinct.0 i.dashless.1 i.present.1;
            dashless = i.dashless.1;
            distinct = i.distinct.1;
          }),
        )
