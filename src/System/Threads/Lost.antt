-- ===== src/System/Threads/Lost.antt =====
-- What is lost where handlers of the two plugins take turns.
use elastic_gpu_agent.Prelude.{
  ℕ, zero, suc, ◌⊎◌, inl, inr, Bool-cases, Option, [], ◌∷◌, err, Result, ◌≡◌, ◌≢◌, refl, sym, ap,
  ◌∙◌, subst, some, List, Dict, insert, lookup, lookup-insert, text_eq_of_ne, Text, ok, ℤ,
}
use elastic_gpu_agent.Types.Json.{Json}
use elastic_gpu_agent.Types.Device.{Device}
use elastic_gpu_agent.Types.Pod.{PodInfo}
use elastic_gpu_agent.Storage.{save, load, load_or_create}
use elastic_gpu_agent.Storage.Bolt.{BoltDb}
use elastic_gpu_agent.Storage.Iteration.{IsStore}
use elastic_gpu_agent.Storage.Records.{load-save, same_pod, failed_save, load_after_delete}
use elastic_gpu_agent.Operator.FileSystem.{Files}
use elastic_gpu_agent.Plugins.PreStart.Record.{Writes-of, Writes-IsValid}
use elastic_gpu_agent.Go.FilePath.{IsSegment}
use elastic_gpu_agent.Types.Pod.RoundTrip.{IsValid}
use elastic_gpu_agent.Operator.Gpushare
use elastic_gpu_agent.Common.{useless_number}
use elastic_gpu_agent.Kube.Sitter.{PodSitter}
use elastic_gpu_agent.Plugins.Gc.{Event}
use elastic_gpu_agent.Plugins.Share.{share_id}
use elastic_gpu_agent.System.{Agent}
use elastic_gpu_agent.System.Threads.{
  Job, Thread, making, undoing, loading, saving, returned, Sweep, resting, sweeping, clearing,
  dropping, sweep, after_first_share, after_share, collector_next, after_load, after_save, move,
  Pair, Woven, start, core_next, memory_next,
}
use elastic_gpu_agent.System.Threads.Interleaved.{IsFitJob}

-- Where a handler is that has read the record and saves `p`.
abbrev IsPast : PodInfo → Thread → Type 0
IsPast p (making j i ids) = ⊥
IsPast p (loading j) = ⊥
IsPast p (saving j q) = q ≡ p
IsPast p (undoing j i ids) = Unit
IsPast p (returned r) = r ≡ ok tt

module _ (files : Files) (bolt : BoltDb) (json : Json) where
  open bolt use {Db}

  -- The record that a handler saves after it has read one with the map.
  abbrev written : Job → Agent files bolt json → Dict Device → PodInfo
  written j w m = record (load_or_create bolt json j.curr.namespace j.curr.name w.db) {
    container_device_map = some (insert j.curr.container j.devices m);
  }

  written-IsValid :
      (j : Job) (w : Agent files bolt json) (m : Dict Device)
      → IsStore bolt json w.db
      → IsFitJob j
      → (load_or_create bolt json j.curr.namespace j.curr.name w.db).container_device_map ≡ some m
      → IsValid (written j w m)
  written-IsValid j w m inv fit e =
      Writes-IsValid bolt json w.db j.curr j.devices (written j w m)
        (Writes-of bolt json w.db j.curr j.devices m e) inv fit.namespace fit.name fit.container
        fit.devices

  -- A save, whether it succeeds or not, adds no record but its own.
  load_after_save :
      (p q : PodInfo) (s n : Text) (db : Db)
      → IsValid p
      → IsSegment s
      → IsSegment n
      → load bolt json s n (save bolt json p db).1 ≡ ok q
      → (q ≡ p) ⊎ (load bolt json s n db ≡ ok q)
  load_after_save p q s n db hp hs hn e = go (save bolt json p db) refl
    where
      same_pod_eq : {x y : PodInfo} → ◌≡◌ {A = Result PodInfo} (ok x) (ok y) → y ≡ x
      same_pod_eq e = cc

      go :
          (r : Result (Unit {0}) × Db)
          → save bolt json p db ≡ r
          → (q ≡ p) ⊎ (load bolt json s n db ≡ ok q)
      go (err x, db') f = inr (
          subst (λ y. load bolt json s n y ≡ ok q) (failed_save bolt json p db db' x f) (rw f at e))
      go (ok u, db') f =
          let law = sym (load-save bolt json p s n db db' hp hs hn f) ∙ (rw f at e) in
          elim (Bool-cases (same_pod p.namespace p.name s n)) [
            | inl here ↦ inl (same_pod_eq (rw here at law))
            | inr other ↦ inr (rw other at law)
          ]

  -- Two handlers of the one pod that have made their links: the core plugin's for the container `c`,
  -- the memory plugin's for the container `c'`.
  module _ (s n c c' : Text) (d d' : Device) (indexes indexes' : List ℤ)
      (w : Agent files bolt json) where
    abbrev pub core_job : Job
    core_job = record {
      curr = record { namespace = s; name = n; container = c };
      devices = d;
      indexes = indexes;
    }

    abbrev pub memory_job : Job
    memory_job = record {
      curr = record { namespace = s; name = n; container = c' };
      devices = d';
      indexes = indexes';
    }

    -- Both have read the record, one after the other; the collector is anywhere in a round.
    abbrev pub both_read : Sweep → Pair files bolt json
    both_read collector = record {
      agent = w;
      core = (move files bolt json (loading core_job) w).0;
      memory = (move files bolt json (loading memory_job) w).0;
      collector = collector;
    }

    -- A device is lost: no handler that has returned did so with an error, and the record of the pod,
    -- if there is one, has not the devices of both.
    pub record IsLost (t : Pair files bolt json) : Type 0 where
      pub core_ok : (r : Result (Unit {0})) → t.core ≡ returned r → r ≡ ok tt
      pub memory_ok : (r : Result (Unit {0})) → t.memory ≡ returned r → r ≡ ok tt
      pub not_both :
          (q : PodInfo) (devices : Dict Device)
          → load bolt json s n t.agent.db ≡ ok q
          → q.container_device_map ≡ some devices
          → lookup c devices ≡ some d
          → lookup c' devices ≢ some d'

    module _ (m : Dict Device) (inv : IsStore bolt json w.db) (fit : IsFitJob core_job)
        (fit' : IsFitJob memory_job)
        (reads : (load_or_create bolt json s n w.db).container_device_map ≡ some m) where
      -- The record of the pod is what was read, or what one of the handlers saves.
      abbrev IsOneOf : PodInfo → Type 0
      IsOneOf q =
          (q ≡ written core_job w m)
          ⊎ (q ≡ written memory_job w m)
          ⊎ (q.container_device_map ≡ some m)

      record IsApart (t : Pair files bolt json) : Type 0 where
        core : IsPast (written core_job w m) t.core
        memory : IsPast (written memory_job w m) t.memory
        one_of : (q : PodInfo) → load bolt json s n t.agent.db ≡ ok q → IsOneOf q

      -- A call of a handler that is past its read.
      move-IsPast :
          (p : PodInfo) (t : Thread) (v : Agent files bolt json)
          → IsValid p
          → ((q : PodInfo) → q ≡ p → IsOneOf q)
          → IsPast p t
          → ((q : PodInfo) → load bolt json s n v.db ≡ ok q → IsOneOf q)
          → IsPast p (move files bolt json t v).0
            × ((q : PodInfo)
                → load bolt json s n (move files bolt json t v).1.db ≡ ok q
                → IsOneOf q)
      unfolding move after_save
      move-IsPast p (making j i ids) v hp own h k = absurd h
      move-IsPast p (loading j) v hp own h k = absurd h
      move-IsPast p (saving j p') v hp own h k = go (save bolt json p' v.db) (λ q e.
          elim (load_after_save p' q s n v.db (subst IsValid (sym h) hp) fit.namespace fit.name e) [
            | inl f ↦ own q (f ∙ h)
            | inr f ↦ k q f
          ])
        where
          go :
              (r : Result (Unit {0}) × Db)
              → ((q : PodInfo) → load bolt json s n r.1 ≡ ok q → IsOneOf q)
              → IsPast p (after_save files bolt json j r v).0
                × ((q : PodInfo)
                    → load bolt json s n (after_save files bolt json j r v).1.db ≡ ok q
                    → IsOneOf q)
          go (ok u, db') l = (refl, l)
          go (err e, db') l = (tt, l)
      move-IsPast p (undoing j i []) v hp own h k = (refl, k)
      move-IsPast p (undoing j i (id ∷ ids)) v hp own h k = (tt, k)
      move-IsPast p (returned r) v hp own h k = (h, k)

      sweep-IsOneOf :
          (sitter : PodSitter) (event : Event) (x : Sweep) (v : Agent files bolt json)
          → ((q : PodInfo) → load bolt json s n v.db ≡ ok q → IsOneOf q)
          → (q : PodInfo) → load bolt json s n (sweep files bolt json sitter event x v).1.db ≡ ok q
          → IsOneOf q
      unfolding sweep after_first_share after_share
      sweep-IsOneOf sitter event resting v k = k
      sweep-IsOneOf sitter event (sweeping []) v k = k
      sweep-IsOneOf sitter event (sweeping (l ∷ ls)) v k =
          go (Gpushare.delete files useless_number (share_id l.device.hash 0) v.fs)
        where
          go :
              (r : Result (Unit {0}) × files.State) (q : PodInfo)
              → load bolt json s n (after_first_share files bolt json l ls r v).1.db ≡ ok q
              → IsOneOf q
          go (ok u, fs) = k
          go (err e, fs) = k
      sweep-IsOneOf sitter event (clearing l i zero ls) v k = k
      sweep-IsOneOf sitter event (clearing l i (suc z) ls) v k =
          go (Gpushare.delete files useless_number (share_id l.device.hash i) v.fs)
        where
          go :
              (r : Result (Unit {0}) × files.State) (q : PodInfo)
              → load bolt json s n (after_share files bolt json l i z ls r v).1.db ≡ ok q
              → IsOneOf q
          go (ok u, fs) = k
          go (err e, fs) = k
      sweep-IsOneOf sitter event (dropping l ls) v k = λ q e.
          k q (load_after_delete bolt json l.namespace l.name s n q v.db fit.namespace fit.name e)

      move-loading :
          (j : Job)
          → (load_or_create bolt json j.curr.namespace j.curr.name w.db).container_device_map
            ≡ some m
          → (move files bolt json (loading j) w).0 ≡ saving j (written j w m)
      unfolding move
      move-loading j e = rw (e, after_load) refl

      read-IsOneOf : (q : PodInfo) → load bolt json s n w.db ≡ ok q → IsOneOf q
      unfolding load_or_create
      read-IsOneOf q e =
          let same : load_or_create bolt json s n w.db ≡ q = rw (e, load_or_create) refl in
          inr (inr (ap (λ (x : PodInfo). x.container_device_map) (sym same) ∙ reads))

      Woven-IsApart :
          (x : Sweep) (t : Pair files bolt json) (i k : ℕ)
          → Woven files bolt json (both_read x) i k t
          → IsApart t
      Woven-IsApart x t i k start = record {
        core = subst (IsPast (written core_job w m)) (sym (move-loading core_job reads)) refl;
        memory = subst (IsPast (written memory_job w m)) (sym (move-loading memory_job reads)) refl;
        one_of = read-IsOneOf;
      }
      Woven-IsApart x t i k (core_next {n = i'} {t = u} r) =
          let g = Woven-IsApart x u i' k r in
          let moved =
            move-IsPast (written core_job w m) u.core u.agent
              (written-IsValid core_job w m inv fit reads) (λ q e. inl e) g.core g.one_of in
          record { core = moved.0; memory = g.memory; one_of = moved.1 }
      Woven-IsApart x t i k (memory_next {m = k'} {t = u} r) =
          let g = Woven-IsApart x u i k' r in
          let moved =
            move-IsPast (written memory_job w m) u.memory u.agent
              (written-IsValid memory_job w m inv fit' reads) (λ q e. inr (inl e)) g.memory
              g.one_of in
          record { core = g.core; memory = moved.0; one_of = moved.1 }
      Woven-IsApart x t i k (collector_next {t = u} sitter event r) =
          let g = Woven-IsApart x u i k r in
          record {
            core = g.core;
            memory = g.memory;
            one_of = sweep-IsOneOf sitter event u.collector u.agent g.one_of;
          }

    -- The handlers of the two plugins do not exclude each other where they read and save a record. If
    -- two containers of one pod are started at the same time, the one with core units and the other
    -- with memory units, and both handlers have read the record before one of them saves it, then a
    -- device is lost: in whatever order they and the collector go on, whatever calls fail, no handler
    -- returns an error, and at no time does the pod's record have the devices of both. The record
    -- that was read has neither of the devices for its container, the database is one of valid pods,
    -- and the names and the devices of the jobs can be recorded.
    pub both_load-IsLost :
        (m : Dict Device) (t : Pair files bolt json) (x : Sweep) (i k : ℕ)
        → IsStore bolt json w.db
        → IsFitJob core_job
        → IsFitJob memory_job
        → c ≢ c'
        → (load_or_create bolt json s n w.db).container_device_map ≡ some m
        → lookup c m ≢ some d
        → lookup c' m ≢ some d'
        → Woven files bolt json (both_read x) i k t
        → IsLost t
    both_load-IsLost m t x i k inv fit fit' ne e unread unread' r =
        let g = Woven-IsApart m inv fit fit' e x t i k r in
        record {
          core_ok = λ o f. past_ok (written core_job w m) t.core o f g.core;
          memory_ok = λ o f. past_ok (written memory_job w m) t.memory o f g.memory;
          not_both = λ q ds l has here there. apart q ds (g.one_of q l) has here there;
        }
      where
        past_ok :
            (p : PodInfo) (u : Thread) (o : Result (Unit {0}))
            → u ≡ returned o
            → IsPast p u
            → o ≡ ok tt
        past_ok p u o f h = subst (IsPast p) f h

        same_map : {a b : Dict Device} → ◌≡◌ {A = Option (Dict Device)} (some a) (some b) → b ≡ a
        same_map e = cc

        apart :
            (q : PodInfo) (ds : Dict Device)
            → (q ≡ written core_job w m)
              ⊎ (q ≡ written memory_job w m)
              ⊎ (q.container_device_map ≡ some m)
            → q.container_device_map ≡ some ds
            → lookup c ds ≡ some d
            → lookup c' ds ≡ some d'
            → ⊥
        apart q ds (inl f) has here there =
            let eq : ds ≡ insert c d m =
              same_map (sym (ap (λ (y : PodInfo). y.container_device_map) f) ∙ has) in
            unread' (
              sym (lookup-insert c c' d m ∙ rw (text_eq_of_ne c c' ne) refl)
              ∙ ap (lookup c') (sym eq)
              ∙ there)
        apart q ds (inr (inl f)) has here there =
            let eq : ds ≡ insert c' d' m =
              same_map (sym (ap (λ (y : PodInfo). y.container_device_map) f) ∙ has) in
            unread (
              sym (lookup-insert c' c d' m ∙ rw (text_eq_of_ne c' c (λ z. ne (sym z))) refl)
              ∙ ap (lookup c) (sym eq)
              ∙ here)
        apart q ds (inr (inr f)) has here there =
            unread (ap (lookup c) (same_map (sym has ∙ f)) ∙ here)
