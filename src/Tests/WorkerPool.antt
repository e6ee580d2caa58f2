-- ===== src/Tests/WorkerPool.antt =====
-- Two workers and three jobs.
use osm_edge.WorkerPool.{Turn, adds, takes, finishes, stops, sees_stop, new_worker_pool, run}
use osm_edge.WorkerPool.Laws.{IsSound, run-new_worker_pool-IsSound}
use osm_edge.Base.{
  String, List, [], ◌∷◌, nat_comparable, bool_comparable, string_comparable, option_comparable,
  list_comparable, pair_comparable,
}

abbrev three_jobs : List (Turn String)
three_jobs =
    adds "a"
    ∷ takes
    ∷ adds "b"
    ∷ adds "c"
    ∷ takes
    ∷ takes
    ∷ finishes 1
    ∷ takes
    ∷ stops
    ∷ sees_stop
    ∷ finishes 0
    ∷ sees_stop
    ∷ []

pool_example : IsSound (run three_jobs (new_worker_pool String 8 2))
pool_example = run-new_worker_pool-IsSound 8 2 three_jobs
