-- ===== src/ThreadPool.antt =====
-- The thread pool of lib/server/thread_pool.cpp and inc/server/thread_pool.h as steps of its threads. What a thread
-- does while it holds the mutex is one step; a call of `pthread_cond_signal` wakes one thread that waits, if any
-- does, and a wait may end on its own. A job is a number. `submitted` and `started` record the jobs that were queued and
-- those that a worker took, in order; no step reads them.
pub mod Order
pub mod Drain
use greenis.Prelude.{ℕ, zero, suc, ◌≡◌, List, [], ◌∷◌, ◌++◌, Run, ok, ◌>>◌, assert, ltb}

-- A worker is before the lock of the mutex, in the wait for the condition, or at a job.
pub data Worker : Type 0 where
  ready : Worker
  waiting : Worker
  running : ℕ → Worker

pub record ThreadPool : Type 0 where
  pub threads : List Worker
  pub queue : List ℕ
  pub submitted : List ℕ
  pub started : List ℕ

abbrev pub pool : List Worker → List ℕ → List ℕ → List ℕ → ThreadPool
pool threads queue submitted started = record {
  threads = threads;
  queue = queue;
  submitted = submitted;
  started = started;
}

abbrev pub workers : ℕ → List Worker
workers zero = []
workers (suc n) = ready ∷ workers n

unfoldable pub thread_pool_init : ℕ → Run ThreadPool
thread_pool_init num_threads = do
  assert (ltb 0 num_threads)
  ok (pool (workers num_threads) [] [] [])

-- What a worker that has the mutex becomes: it waits, or it has the first job.
abbrev pub take_job : List ℕ → Worker
take_job [] = waiting
take_job (w ∷ q) = running w

abbrev pub rest_of : List ℕ → List ℕ
rest_of [] = []
rest_of (w ∷ q) = q

abbrev pub taken : List ℕ → List ℕ
taken [] = []
taken (w ∷ q) = w ∷ []

abbrev pub count_waiting : List Worker → ℕ
count_waiting [] = 0
count_waiting (ready ∷ ws) = count_waiting ws
count_waiting (waiting ∷ ws) = suc (count_waiting ws)
count_waiting (running w ∷ ws) = count_waiting ws

abbrev pub count_ready : List Worker → ℕ
count_ready [] = 0
count_ready (ready ∷ ws) = suc (count_ready ws)
count_ready (waiting ∷ ws) = count_ready ws
count_ready (running w ∷ ws) = count_ready ws

-- A step of a worker between the threads `us` and `vs`.
pub data WorkerStep : ThreadPool → ThreadPool → Type 0 where
  lock :
      (us vs : List Worker) (q sub st : List ℕ)
      → WorkerStep
          (pool (us ++ ready ∷ vs) q sub st)
          (pool (us ++ take_job q ∷ vs) (rest_of q) sub (st ++ taken q))
  finish :
      (us vs : List Worker) (w : ℕ) (q sub st : List ℕ)
      → WorkerStep (pool (us ++ running w ∷ vs) q sub st) (pool (us ++ ready ∷ vs) q sub st)

-- A wait that ends with no signal, which `pthread_cond_wait` allows. No worker can count on it.
pub data WakeStep : ThreadPool → ThreadPool → Type 0 where
  wake :
      (us vs : List Worker) (q sub st : List ℕ)
      → WakeStep (pool (us ++ waiting ∷ vs) q sub st) (pool (us ++ ready ∷ vs) q sub st)

-- A call of `thread_pool_queue`, which wakes a worker or finds none that waits.
pub data QueueStep : ThreadPool → ThreadPool → Type 0 where
  signal :
      (us vs : List Worker) (w : ℕ) (q sub st : List ℕ)
      → QueueStep
          (pool (us ++ waiting ∷ vs) q sub st)
          (pool (us ++ ready ∷ vs) (q ++ w ∷ []) (sub ++ w ∷ []) st)
  signal_none :
      (ws : List Worker) (w : ℕ) (q sub st : List ℕ)
      → count_waiting ws ≡ 0
      → QueueStep (pool ws q sub st) (pool ws (q ++ w ∷ []) (sub ++ w ∷ []) st)

-- What a pool of `n` threads can come to.
pub data Reachable (n : ℕ) : ThreadPool → Type 0 where
  started_with : (tp : ThreadPool) → thread_pool_init n ≡ ok tp → Reachable n tp
  worker : (tp tp' : ThreadPool) → Reachable n tp → WorkerStep tp tp' → Reachable n tp'
  woken : (tp tp' : ThreadPool) → Reachable n tp → WakeStep tp tp' → Reachable n tp'
  queue_job : (tp tp' : ThreadPool) → Reachable n tp → QueueStep tp tp' → Reachable n tp'

-- Steps of the workers one after the other, with no wait that ends on its own.
pub data WorkerSteps : ThreadPool → ThreadPool → Type 0 where
  stay : (tp : ThreadPool) → WorkerSteps tp tp
  next : (tp tp' tp'' : ThreadPool) → WorkerStep tp tp' → WorkerSteps tp' tp'' → WorkerSteps tp tp''
