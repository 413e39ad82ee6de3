-- ===== src/ThreadPool/Drain.antt =====
-- The workers of a thread pool come to every job.
use greenis.Prelude.{
  ℕ, suc, ◌<◌, ◌≡◌, refl, sym, ap, ◌∙◌, List, [], ◌∷◌, ◌++◌, append-nil, arith, length,
}
use greenis.ThreadPool.{
  Worker, ready, waiting, running, ThreadPool, pool, count_waiting, count_ready, WorkerStep, lock,
  finish, WorkerSteps, stay, next, Reachable,
}
use greenis.ThreadPool.Order.{IsSound, worker-IsSound, Reachable-IsSound}

-- A thread that does not wait, or none.
data Found : List Worker → Type 0 where
  at_ready : (us vs : List Worker) → Found (us ++ ready ∷ vs)
  at_running : (us vs : List Worker) (w : ℕ) → Found (us ++ running w ∷ vs)
  all_wait : (ws : List Worker) → count_ready ws ≡ 0 → count_waiting ws ≡ length ws → Found ws

find_awake : (ws : List Worker) → Found ws
find_awake [] = all_wait [] refl refl
find_awake (ready ∷ ws) = at_ready [] ws
find_awake (running w ∷ ws) = at_running [] ws w
find_awake (waiting ∷ ws) = after_waiting (find_awake ws)
  where
    after_waiting : {vs : List Worker} → Found vs → Found (waiting ∷ vs)
    after_waiting (at_ready us vs) = at_ready (waiting ∷ us) vs
    after_waiting (at_running us vs w) = at_running (waiting ∷ us) vs w
    after_waiting (all_wait vs a b) = all_wait (waiting ∷ vs) a (ap suc b)

-- Steps of the workers, with no wait that ends on its own, after which nothing is queued and all that was submitted has been started.
pub record Drained (tp : ThreadPool) : Type 0 where
  pub last : ThreadPool
  pub steps : WorkerSteps tp last
  pub empty : last.queue ≡ []
  pub all_started : last.started ≡ tp.submitted

before_step :
    (tp tp' : ThreadPool)
    → tp'.submitted ≡ tp.submitted
    → WorkerStep tp tp'
    → Drained tp'
    → Drained tp
before_step tp tp' e step d = record {
  last = d.last;
  steps = next tp tp' d.last step d.steps;
  empty = d.empty;
  all_started = d.all_started ∙ e;
}

IsSound-Drained :
    (n : ℕ) (ws : List Worker) (q sub st : List ℕ)
    → 0 < n
    → IsSound n (pool ws q sub st)
    → Drained (pool ws q sub st)
IsSound-Drained n ws [] sub st some_worker h = record {
  last = pool ws [] sub st;
  steps = stay (pool ws [] sub st);
  empty = refl;
  all_started = sym (append-nil st) ∙ h.order;
}
IsSound-Drained n ws (w ∷ q) sub st some_worker h =
    go (find_awake ws) h (λ ws' k. IsSound-Drained n ws' q sub (st ++ w ∷ []) some_worker k)
  where
    Rest : Type 0
    Rest =
        (ws' : List Worker)
        → IsSound n (pool ws' q sub (st ++ w ∷ []))
        → Drained (pool ws' q sub (st ++ w ∷ []))

    go :
        {vs : List Worker}
        → Found vs
        → IsSound n (pool vs (w ∷ q) sub st)
        → Rest
        → Drained (pool vs (w ∷ q) sub st)
    go (at_ready us vs) k rest =
        let step = lock us vs (w ∷ q) sub st in
        before_step _ _ refl step (rest (us ++ running w ∷ vs) (worker-IsSound n _ _ k step))
    go (at_running us vs v) k rest =
        let step = finish us vs v (w ∷ q) sub st in
        let k' = worker-IsSound n _ _ k step in
        let step' = lock us vs (w ∷ q) sub st in
        before_step _ _ refl step
          (before_step _ _ refl step' (rest (us ++ running w ∷ vs) (worker-IsSound n _ _ k' step')))
    go (all_wait vs a b) k rest =
        absurd (omega (arith, k.awake (omega (arith, b, k.count, some_worker)), a))

-- From every state of a pool with at least one thread, the steps of its workers alone, with no wait that ends on
-- its own, can lead to a state with no job in the queue, where every job that was submitted has been started in its order.
pub Reachable-Drained : (n : ℕ) (tp : ThreadPool) → 0 < n → Reachable n tp → Drained tp
Reachable-Drained n tp some_worker r =
    IsSound-Drained n tp.threads tp.queue tp.submitted tp.started some_worker
      (Reachable-IsSound n tp r)
