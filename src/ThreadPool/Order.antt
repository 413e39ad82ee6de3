-- ===== src/ThreadPool/Order.antt =====
-- What holds of a thread pool after any steps.
use greenis.Prelude.{
  length-append, subst, ok-injective, Bool, fault, ◌>>◌, assert, ℕ, zero, suc, ◌+◌, ◌≤◌, ◌<◌, ◌≡◌,
  refl, sym, ap, ◌∙◌, List, [], ◌∷◌, ◌++◌, append_assoc, append-nil, arith, Run, ok, ltb, true,
  false, length,
}
use greenis.ThreadPool.{
  Worker, ready, waiting, running, ThreadPool, pool, workers, thread_pool_init, count_waiting,
  count_ready, WorkerStep, lock, WakeStep, wake, woken, finish, QueueStep, signal, signal_none,
  Reachable, started_with, worker, queue_job,
}

-- Every job is queued or was started, in the order of the calls; a worker waits only if the ready workers are
-- enough for the queue; there are `n` threads.
pub record IsSound (n : ℕ) (tp : ThreadPool) : Type 0 where
  pub order : tp.started ++ tp.queue ≡ tp.submitted
  pub awake : 0 < count_waiting tp.threads → length tp.queue ≤ count_ready tp.threads
  pub count : length tp.threads ≡ n

count_waiting-append :
    (us : List Worker) (x : Worker) (vs : List Worker)
    → count_waiting (us ++ x ∷ vs) ≡ count_waiting us + count_waiting (x ∷ vs)
count_waiting-append [] x vs = omega arith
count_waiting-append (ready ∷ us) x vs = count_waiting-append us x vs
count_waiting-append (waiting ∷ us) x vs = omega (arith, count_waiting-append us x vs)
count_waiting-append (running w ∷ us) x vs = count_waiting-append us x vs

count_ready-append :
    (us : List Worker) (x : Worker) (vs : List Worker)
    → count_ready (us ++ x ∷ vs) ≡ count_ready us + count_ready (x ∷ vs)
count_ready-append [] x vs = omega arith
count_ready-append (ready ∷ us) x vs = omega (arith, count_ready-append us x vs)
count_ready-append (waiting ∷ us) x vs = count_ready-append us x vs
count_ready-append (running w ∷ us) x vs = count_ready-append us x vs

workers-IsSound : (n : ℕ) → IsSound n (pool (workers n) [] [] [])
workers-IsSound n = record { order = refl; awake = λ h. omega arith; count = length-workers n }
  where
    length-workers : (k : ℕ) → length (workers k) ≡ k
    length-workers zero = refl
    length-workers (suc k) = ap suc (length-workers k)

-- A thread changes from `x` to `y`, and the queue may lose its first job or get one more.
replaced :
    (n : ℕ) (us : List Worker) (x y : Worker) (vs : List Worker) (q sub st q' sub' st' : List ℕ)
    → IsSound n (pool (us ++ x ∷ vs) q sub st)
    → st' ++ q' ≡ sub'
    → (0 < count_waiting us + count_waiting (y ∷ vs)
        → (0 < count_waiting us + count_waiting (x ∷ vs)
            → length q ≤ count_ready us + count_ready (x ∷ vs))
        → length q' ≤ count_ready us + count_ready (y ∷ vs))
    → IsSound n (pool (us ++ y ∷ vs) q' sub' st')
replaced n us x y vs q sub st q' sub' st' h e f = record {
  order = e;
  awake = λ a. omega (
    arith,
    count_ready-append us y vs,
    f (omega (arith, count_waiting-append us y vs, a)) (λ b. omega (
      arith,
      count_ready-append us x vs,
      h.awake (omega (arith, count_waiting-append us x vs, b)),
    )),
  );
  count = length-append us (y ∷ vs) ∙ sym (length-append us (x ∷ vs)) ∙ h.count;
}

pub worker-IsSound :
    (n : ℕ) (tp tp' : ThreadPool) → IsSound n tp → WorkerStep tp tp' → IsSound n tp'
worker-IsSound n _ _ h (lock us vs [] sub st) =
    replaced n us ready waiting vs [] sub st [] sub (st ++ []) h (append-nil (st ++ []) ∙ h.order)
      (λ a b. omega arith)
worker-IsSound n _ _ h (lock us vs (w ∷ q) sub st) =
    replaced n us ready (running w) vs (w ∷ q) sub st q sub (st ++ w ∷ []) h
      (append_assoc st (w ∷ []) q ∙ h.order) (λ a b. omega (arith, b a))
worker-IsSound n _ _ h (finish us vs w q sub st) =
    replaced n us (running w) ready vs q sub st q sub st h h.order (λ a b. omega (arith, b a))

woken-IsSound : (n : ℕ) (tp tp' : ThreadPool) → IsSound n tp → WakeStep tp tp' → IsSound n tp'
woken-IsSound n _ _ h (wake us vs q sub st) =
    replaced n us waiting ready vs q sub st q sub st h h.order
      (λ a b. omega (arith, b (omega arith)))

queue_job-IsSound : (n : ℕ) (tp tp' : ThreadPool) → IsSound n tp → QueueStep tp tp' → IsSound n tp'
queue_job-IsSound n _ _ h (signal us vs w q sub st) =
    replaced n us waiting ready vs q sub st (q ++ w ∷ []) (sub ++ w ∷ []) st h
      (sym (append_assoc st q (w ∷ [])) ∙ ap (λ l. l ++ w ∷ []) h.order)
      (λ a b. omega (arith, b (omega arith), length-append q (w ∷ [])))
queue_job-IsSound n _ _ h (signal_none ws w q sub st none_waits) = record {
  order = sym (append_assoc st q (w ∷ [])) ∙ ap (λ l. l ++ w ∷ []) h.order;
  awake = λ a. absurd (omega arith);
  count = h.count;
}

passed :
    (b : Bool) (made tp : ThreadPool)
    → ◌≡◌ {A = Run ThreadPool} (assert b >> ok made) (ok tp)
    → made ≡ tp
passed true made tp e = ok-injective made tp e
passed false made tp e = absurd (refused e)
  where
    refused : ◌≡◌ {A = Run ThreadPool} fault (ok tp) → ⊥
    refused h = cc

-- In a pool of `n` threads, whatever steps were taken, the jobs that were started and then those in the queue are the
-- jobs that were submitted, in this order, and a thread waits only while the threads that are about to take a job are
-- enough for the queue.
pub Reachable-IsSound : (n : ℕ) (tp : ThreadPool) → Reachable n tp → IsSound n tp
unfolding thread_pool_init
Reachable-IsSound n _ (started_with tp e) =
    subst (IsSound n) (passed (ltb 0 n) _ tp e) (workers-IsSound n)
Reachable-IsSound n _ (worker old tp r step) =
    worker-IsSound n old tp (Reachable-IsSound n old r) step
Reachable-IsSound n _ (woken old tp r step) =
    woken-IsSound n old tp (Reachable-IsSound n old r) step
Reachable-IsSound n _ (queue_job old tp r step) =
    queue_job-IsSound n old tp (Reachable-IsSound n old r) step
