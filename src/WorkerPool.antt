-- ===== src/WorkerPool.antt =====
-- pkg/workerpool/workerpool.go: workers that run the jobs of one buffered channel. The goroutines are
-- turns of one machine: a caller adds a job, a worker takes one, finishes it or sees the stop.
pub mod Laws
use osm_edge.Base.{
  ℕ, zero, suc, ◌+◌, ◌-◌, Bool, true, false, not, ◌&&◌, Option, none, some, List, [], ◌∷◌, ◌++◌,
  ◌==◌, nat_comparable, bool_comparable, string_comparable, option_comparable, list_comparable,
  pair_comparable, if◌then◌else◌, ltb, length,
}

-- `n_workers` is the number of workers and the capacity of the channel. `added`, `started` and
-- `finished` are what has happened so far, in order; `busy` are the jobs that run.
pub record WorkerPool (J : Type 0) : Type 0 where
  pub n_workers : ℕ
  pub jobs : List J
  pub idle : ℕ
  pub busy : List J
  pub stop_closed : Bool
  pub stopped : ℕ
  pub added : List J
  pub started : List J
  pub finished : List J

-- Without a number of workers it is the number of processors, a parameter.
unfoldable pub new_worker_pool : (J : Type 0) → ℕ → ℕ → WorkerPool J
new_worker_pool J max_procs n =
    let workers = if n == 0 then max_procs else n in
    record {
      n_workers = workers;
      jobs = [];
      idle = workers;
      busy = [];
      stop_closed = false;
      stopped = 0;
      added = [];
      started = [];
      finished = [];
    }

pub data Turn (J : Type 0) : Type 0 where
  adds : J → Turn J
  takes : Turn J
  finishes : ℕ → Turn J
  stops sees_stop : Turn J

module _ {J : Type 0} where
  -- The job at a place, and the others.
  abbrev pub take_out : ℕ → List J → Option (J × List J)
  take_out k [] = none
  take_out zero (j ∷ js) = some (j, js)
  take_out (suc k) (j ∷ js) = elim (take_out k js) [
    | none ↦ none
    | some (found, others) ↦ some (found, j ∷ others)
  ]

  -- `AddJob`: the send waits while the channel is full.
  abbrev pub add_job : J → WorkerPool J → WorkerPool J
  add_job j p =
      if ltb (length p.jobs) p.n_workers
      then record p { jobs = p.jobs ++ j ∷ []; added = p.added ++ j ∷ [] }
      else p

  abbrev pub take_job : List J → WorkerPool J → WorkerPool J
  take_job [] p = p
  take_job (j ∷ js) p = if p.idle == 0 then p else record p {
    jobs = js;
    idle = p.idle - 1;
    busy = j ∷ p.busy;
    started = p.started ++ j ∷ [];
  }

  abbrev pub finish_job : Option (J × List J) → WorkerPool J → WorkerPool J
  finish_job none p = p
  finish_job (some (j, others)) p = record p {
    idle = p.idle + 1;
    busy = others;
    finished = p.finished ++ j ∷ [];
  }

  -- A case that is not ready is passed over.
  unfoldable pub work : Turn J → WorkerPool J → WorkerPool J
  work (adds j) p = add_job j p
  work takes p = take_job p.jobs p
  work (finishes k) p = finish_job (take_out k p.busy) p
  work stops p = record p { stop_closed = true }
  work sees_stop p =
      if p.stop_closed && not (p.idle == 0)
      then record p { idle = p.idle - 1; stopped = p.stopped + 1 }
      else p

  unfoldable pub run : List (Turn J) → WorkerPool J → WorkerPool J
  unfolding work
  run [] p = p
  run (t ∷ ts) p = run ts (work t p)
