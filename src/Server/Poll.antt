-- ===== src/Server/Poll.antt =====
-- The time that the event loop gives to `poll`.
use greenis.Prelude.{
  ℕ, ◌+◌, ◌-◌, ◌^◌, ◌≤◌, ◌<◌, ◌≡◌, refl, true, List, [], ◌∷◌, arith, Returns, returns, length,
  get_elem?, some,
}
use greenis.Prelude.Int.{from_u32, is_negative}
use greenis.Heap.{HeapItem, item, val}
use greenis.Heap.Order.{IsValid}
use greenis.Heap.Update.{root_least}
use greenis.Conn.{Conn}
use greenis.IdleList.Ring.{dlist_empty-IsRing, dlist_empty-cons}
use greenis.Server.{
  Server, idle_list, idle_node, idle_deadline, first_expiry, timeout, next_timer_ms,
}
use greenis.Server.Live.{IsLive}
use greenis.Server.Expiry.{first_idle-ok, first_idle-conn}

-- A moment for which the server has a timer: the value of an entry of the heap, or the deadline of the
-- first connection of the idle list.
pub data IsTimer (g : Server) (l : List ℕ) (t : ℕ) : Type 0 where
  heap_timer : (i : ℕ) → i < length g.heap.items → t ≡ val g.heap.items i → IsTimer g l t
  idle_timer :
      (x : ℕ) (m : List ℕ) (fd : ℕ) (conn : Conn)
      → l ≡ x ∷ m
      → x ≡ idle_node fd
      → get_elem? g.fd2conn fd ≡ some (some conn)
      → t ≡ idle_deadline conn
      → IsTimer g l t

first_expiry-le : (items : List HeapItem) (d : ℕ) → first_expiry items d ≤ d
first_expiry-le [] d = omega arith
first_expiry-le (x ∷ items) d = ground arith

first_expiry-le_first :
    (items : List HeapItem) (d : ℕ) → 0 < length items → first_expiry items d ≤ val items 0
unfolding item
first_expiry-le_first [] d p = absurd (omega arith)
first_expiry-le_first (x ∷ items) d p = ground arith

heap_soon :
    (g : Server) (d t : ℕ)
    → IsValid g.heap
    → (i : ℕ) → i < length g.heap.items
    → t ≡ val g.heap.items i
    → first_expiry g.heap.items d ≤ t
heap_soon g d t h i p e =
    omega (arith, root_least g.heap i h p, first_expiry-le_first g.heap.items d (omega arith), e)

timeout-soon :
    (now_ms next_ms t : ℕ)
    → next_ms ≤ t
    → t < now_ms + 2 ^ 31
    → now_ms < 2 ^ 63
    → (timeout now_ms next_ms < 2 ^ 31) × (timeout now_ms next_ms ≤ t - now_ms)
timeout-soon now_ms next_ms t p q r = ground arith

-- For a timer less than 2 ^ 31 milliseconds ahead, `next_timer_ms` returns a timeout that is not
-- negative as an `int32_t`, and not longer than until that timer.
pub next_timer_ms_wakes :
    (now_ms : ℕ) (g : Server) (l : List ℕ) (t : ℕ)
    → IsLive g l
    → IsValid g.heap
    → IsTimer g l t
    → t < now_ms + 2 ^ 31
    → now_ms < 2 ^ 63
    → Returns (λ r. (r < 2 ^ 31) × (r ≤ t - now_ms)) (next_timer_ms now_ms g)
unfolding next_timer_ms
next_timer_ms_wakes now_ms g [] t v h (heap_timer i p e) q r =
    let never = 2 ^ 64 - 1 in
    rw ((dlist_empty-IsRing g.idle idle_list [] v.ring).1 refl)
      (returns (timeout-soon now_ms _ t (heap_soon g never t h i p e) q r))
next_timer_ms_wakes now_ms g (y ∷ l) t v h (heap_timer i p e) q r =
    rw (dlist_empty-cons g.idle idle_list y l v.ring, first_idle-ok g y l v.nodes.0 v)
      (returns
        (timeout-soon now_ms _ t (heap_soon g (idle_deadline v.nodes.0.held.conn) t h i p e) q r))
next_timer_ms_wakes now_ms g l t v h (idle_timer x m fd conn k p f e) q r =
    let live = rw k at v in
    rw (dlist_empty-cons g.idle idle_list x m live.ring, first_idle-conn g x m fd conn live p f)
      (returns (
        timeout-soon now_ms (first_expiry g.heap.items (idle_deadline conn)) t
          (omega (arith, first_expiry-le g.heap.items (idle_deadline conn), e)) q r))

-- With no connection and a first key that expires 2 ^ 31 to 2 ^ 32 milliseconds ahead, the timeout is
-- negative as an `int32_t`: `poll` waits with no limit.
pub next_timer_ms_far :
    (now_ms : ℕ) (g : Server) (x : HeapItem) (items : List HeapItem)
    → IsLive g []
    → g.heap.items ≡ x ∷ items
    → now_ms + 2 ^ 31 ≤ x.val
    → x.val < now_ms + 2 ^ 32
    → now_ms < 2 ^ 63
    → Returns (λ r. is_negative (from_u32 r) ≡ true) (next_timer_ms now_ms g)
unfolding next_timer_ms
next_timer_ms_far now_ms g x items v e p q r =
    rw ((dlist_empty-IsRing g.idle idle_list [] v.ring).1 refl, e) (returns (ground arith))
