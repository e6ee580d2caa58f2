-- ===== src/WorkerPool/Laws.antt =====
-- Which jobs the workers of pkg/workerpool/workerpool.go run, and how many at once.
use osm_edge.WorkerPool.{
  WorkerPool, new_worker_pool, Turn, adds, takes, finishes, stops, sees_stop, take_out, add_job,
  take_job, finish_job, work, run,
}
use mathlib.Core.List.{Perm, perm_middle}
use mathlib.Core.List.Perm
use osm_edge.Base.{
  append_nil, ℕ, zero, suc, ◌+◌, ◌≤◌, not, ◌&&◌, Option, none, some, List, [], ◌∷◌, ◌++◌, ◌≡◌, refl,
  sym, ap, ◌∙◌, subst, inl, inr, arith, ◌==◌, nat_comparable, bool_comparable, string_comparable,
  option_comparable, list_comparable, pair_comparable, ltb, Bool-cases, Option-cases, length,
  length-append, append_assoc,
}

module _ {J : Type 0} where
  -- Jobs start in the order in which they were added and none is lost or started twice; each worker is
  -- idle, busy or stopped; the channel keeps to its capacity; the started jobs are those that run and
  -- those that have finished, as often as they were started.
  pub record IsSound (p : WorkerPool J) : Type 0 where
    pub in_order : p.added ≡ p.started ++ p.jobs
    pub workers : p.idle + length p.busy + p.stopped ≡ p.n_workers
    pub capacity : length p.jobs ≤ p.n_workers
    pub accounted : Perm p.started (p.busy ++ p.finished)

  perm_append_one : (j : J) (js : List J) → Perm (js ++ j ∷ []) (j ∷ js)
  perm_append_one j js =
      subst (λ l. Perm (js ++ j ∷ []) (j ∷ l)) (append_nil js) (perm_middle js [])

  -- What `take_out` takes and what it leaves are the jobs that were there.
  abbrev IsSplit : List J → Option (J × List J) → Type 0
  IsSplit js none = Unit {0}
  IsSplit js (some (j, others)) = Perm js (j ∷ others) × (length js ≡ length others + 1)

  take_out-IsSplit : (k : ℕ) (js : List J) → IsSplit js (take_out k js)
  take_out-IsSplit k [] = tt
  take_out-IsSplit zero (j ∷ js) = (Perm.refl (j ∷ js), omega arith)
  take_out-IsSplit (suc k) (j ∷ js) =
      let rest = take_out-IsSplit k js in
      elim (Option-cases (take_out k js)) [
        | inl n ↦ rw n tt
        | inr ((found, others), e) ↦
            let split : Perm js (found ∷ others) × (length js ≡ length others + 1) =
              subst (IsSplit js) e rest in
            rw e
              (Perm.trans (Perm.cons j split.0) (Perm.swap found j others), omega (arith, split.1))
      ]

  add_job-IsSound : (j : J) (p : WorkerPool J) → IsSound p → IsSound (add_job j p)
  add_job-IsSound j p s = elim (Bool-cases (ltb (length p.jobs) p.n_workers)) [
    | inr f ↦ rw f s
    | inl t ↦ rw t (record {
      in_order = ap (λ js. js ++ j ∷ []) s.in_order ∙ append_assoc p.started p.jobs (j ∷ []);
      workers = s.workers;
      capacity = ground (arith, length-append p.jobs (j ∷ []));
      accounted = s.accounted;
    })
  ]

  take_job-IsSound :
      (js : List J) (p : WorkerPool J) → p.jobs ≡ js → IsSound p → IsSound (take_job js p)
  take_job-IsSound [] p e s = s
  take_job-IsSound (j ∷ js) p e s = elim (Bool-cases (p.idle == 0)) [
    | inl t ↦ rw t s
    | inr f ↦ rw f (record {
      in_order =
          s.in_order ∙ ap (λ js. p.started ++ js) e ∙ sym (append_assoc p.started (j ∷ []) js);
      workers = ground (arith, s.workers);
      capacity = omega (arith, s.capacity, ap length e);
      accounted = Perm.trans (perm_append_one j p.started) (Perm.cons j s.accounted);
    })
  ]

  finish_job-IsSound :
      (o : Option (J × List J)) (k : ℕ) (p : WorkerPool J)
      → take_out k p.busy ≡ o
      → IsSound p
      → IsSound (finish_job o p)
  finish_job-IsSound none k p e s = s
  finish_job-IsSound (some (j, others)) k p e s =
      let split : IsSplit p.busy (some (j, others)) =
        subst (IsSplit p.busy) e (take_out-IsSplit k p.busy) in
      record {
        in_order = s.in_order;
        workers = omega (arith, s.workers, split.1);
        capacity = s.capacity;
        accounted = Perm.trans s.accounted (
            Perm.trans (Perm.append_right p.finished split.0) (
              subst (Perm (j ∷ (others ++ p.finished))) (append_assoc others p.finished (j ∷ []))
                (Perm.symm (perm_append_one j (others ++ p.finished)))));
      }

  work-IsSound : (t : Turn J) (p : WorkerPool J) → IsSound p → IsSound (work t p)
  unfolding work
  work-IsSound (adds j) p s = add_job-IsSound j p s
  work-IsSound takes p s = take_job-IsSound p.jobs p refl s
  work-IsSound (finishes k) p s = finish_job-IsSound (take_out k p.busy) k p refl s
  work-IsSound stops p s = record {
    in_order = s.in_order;
    workers = s.workers;
    capacity = s.capacity;
    accounted = s.accounted;
  }
  work-IsSound sees_stop p s = elim (Bool-cases (p.stop_closed && not (p.idle == 0))) [
    | inr f ↦ rw f s
    | inl t ↦ rw t (record {
      in_order = s.in_order;
      workers = ground (arith, s.workers);
      capacity = s.capacity;
      accounted = s.accounted;
    })
  ]

  run-IsSound : (ts : List (Turn J)) (p : WorkerPool J) → IsSound p → IsSound (run ts p)
  unfolding run
  run-IsSound [] p s = s
  run-IsSound (t ∷ ts) p s = run-IsSound ts (work t p) (work-IsSound t p s)

  -- After any sequence of turns of a new pool, the jobs have started in the order in which they were
  -- added, none lost or started twice; each worker is idle, busy or stopped; no more jobs wait than
  -- there are workers; and the started jobs are those that run and those that have finished, each as
  -- often as it was started.
  pub run-new_worker_pool-IsSound :
      (max_procs n : ℕ) (ts : List (Turn J)) → IsSound (run ts (new_worker_pool J max_procs n))
  unfolding new_worker_pool
  run-new_worker_pool-IsSound max_procs n ts =
      run-IsSound ts (new_worker_pool J max_procs n) (record {
        in_order = refl;
        workers = omega arith;
        capacity = omega arith;
        accounted = Perm.refl [];
      })
