-- ===== src/Tests/Threads.antt =====
-- A thread pool with one thread, which waits, and a job, which wakes it.
use greenis.Prelude.{◌≡◌, refl, [], ◌∷◌, arith, ok}
use greenis.ThreadPool.{
  ready, waiting, ThreadPool, pool, thread_pool_init, lock, signal, Reachable, started_with, worker,
  queue_job,
}
use greenis.ThreadPool.Order.{IsSound, Reachable-IsSound}
use greenis.ThreadPool.Drain.{Drained, Reachable-Drained}

started : thread_pool_init 1 ≡ ok (pool (ready ∷ []) [] [] [])
unfolding thread_pool_init
started = refl

abbrev with_job : ThreadPool
with_job = pool (ready ∷ []) (7 ∷ []) (7 ∷ []) []

with_job-Reachable : Reachable 1 with_job
with_job-Reachable =
    queue_job (pool (waiting ∷ []) [] [] []) with_job
      (worker (pool (ready ∷ []) [] [] []) _ (started_with _ started) (lock [] [] [] [] []))
      (signal [] [] 7 [] [] [])

Reachable-IsSound_example : IsSound 1 with_job
Reachable-IsSound_example = Reachable-IsSound 1 with_job with_job-Reachable

Reachable-Drained_example : Drained with_job
Reachable-Drained_example = Reachable-Drained 1 with_job (omega arith) with_job-Reachable
