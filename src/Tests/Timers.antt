-- ===== src/Tests/Timers.antt =====
-- The timer heap, the idle list and the server's timers, on small data.
use greenis.Prelude.{
  Apart, ℕ, zero, suc, ◌-◌, ◌≤◌, ◌<◌, ◌^◌, ◌≡◌, ◌≢◌, refl, true, false, [], ◌∷◌, some, arith,
  Returns, ◌==◌, if◌then◌else◌, get_elem?,
}
use greenis.Prelude.Int.{pos, from_u32, is_negative}
use greenis.Heap.{HeapItem, Heap, item, val, ref, heap_parent, heap_upsert, heap_delete}
use greenis.Heap.Order.{IsValid}
use greenis.Heap.Upsert.{Upserted, heap_upsert-Upserted}
use greenis.Heap.Delete.{Deleted, heap_delete-Deleted}
use greenis.IdleList.{Nodes, DList, dlist_init, dlist_detach, dlist_insert_before}
use greenis.IdleList.Ring.{IsRing, dlist_init-IsRing, dlist_insert_before-dlist_detach}
use greenis.Conn.{Conn, new_conn}
use greenis.Server.{Server, idle_node, handle_accept, conn_destroy, process_idle, next_timer_ms}
use greenis.Server.Live.{IsLive}
use greenis.Server.Steps.{Closed, handle_accept-IsLive, conn_destroy-IsLive}
use greenis.Server.Expiry.{Swept, process_idle-Swept}
use greenis.Server.Poll.{idle_timer, next_timer_ms_wakes, next_timer_ms_far}

abbrev at_ms : ℕ → ℕ → HeapItem
at_ms val ref = record { val = val; ref = ref }

-- Entries 1 and 2 expire at 10 and 20; the others have no place.
abbrev two : Heap
two = record {
  items = at_ms 10 1 ∷ at_ms 20 2 ∷ [];
  idx = λ r. if r == 1 then 0 else if r == 2 then 1 else 2 ^ 64 - 1;
}

two-IsValid : IsValid two
unfolding item
two-IsValid = record { ordered = ordered; linked = linked }
  where
    ordered : (c : ℕ) → 0 < c → c < 2 → val two.items (heap_parent c) ≤ val two.items c
    ordered zero p q = absurd (omega arith)
    ordered (suc zero) p q = omega arith
    ordered (suc (suc c)) p q = absurd (omega arith)

    linked : (i : ℕ) → i < 2 → two.idx (ref two.items i) ≡ i
    linked zero p = refl
    linked (suc zero) p = refl
    linked (suc (suc i)) p = absurd (omega arith)

heap_upsert-Upserted_example :
    Returns (Upserted two (2 ^ 64 - 1) (at_ms 5 3)) (heap_upsert two (2 ^ 64 - 1) (at_ms 5 3))
heap_upsert-Upserted_example = heap_upsert-Upserted two (2 ^ 64 - 1) (at_ms 5 3) two-IsValid refl

heap_delete-Deleted_example : Returns (Deleted two 0) (heap_delete two 0)
heap_delete-Deleted_example = heap_delete-Deleted two 0 two-IsValid (omega arith)

abbrev link : ℕ → ℕ → DList
link prev next = record { prev = prev; next = next }

-- The head 0 and the nodes 6, 9 and 4.
abbrev ring : Nodes
ring q =
    if q == 0 then link 4 6 else if q == 6 then link 0 9 else if q == 9 then link 6 4 else link 9 0

ring-IsRing : IsRing ring 0 (6 ∷ 9 ∷ 4 ∷ [])
ring-IsRing = record {
  linked = (refl, refl, (refl, refl, (refl, refl, (refl, refl))));
  apart = (ground arith, (ground arith, (ground arith, tt)));
  distinct = ((ground arith, (ground arith, tt)), ((ground arith, tt), (tt, tt)));
}

dlist_insert_before-dlist_detach_example :
    IsRing (dlist_insert_before (dlist_detach ring 9) 0 9) 0 (6 ∷ 4 ∷ 9 ∷ [])
dlist_insert_before-dlist_detach_example =
    dlist_insert_before-dlist_detach ring 0 (6 ∷ []) 9 (4 ∷ []) ring-IsRing

abbrev no_timers : Heap
no_timers = record { items = []; idx = λ r. 2 ^ 64 - 1 }

abbrev pub conn : Conn
conn = record {
  fd = 0;
  want_read = true;
  want_write = false;
  want_close = false;
  incoming = [];
  outgoing = [];
  last_active_ms = 100;
}

-- One connection, with descriptor 0.
abbrev pub server : Server
server = record {
  fd2conn = some conn ∷ [];
  idle = λ q. if q == 0 then link 1 1 else link 0 0;
  heap = no_timers;
}

pub server-IsLive : IsLive server (1 ∷ [])
server-IsLive = record {
  ring = record {
    linked = (refl, refl, (refl, refl));
    apart = (ground arith, tt);
    distinct = (tt, tt);
  };
  nodes =
      (record { fd = 0; place = refl; held = record { conn = conn; here = refl; own = refl } }, tt);
  listed = listed;
}
  where
    listed :
        (fd : ℕ) (c : Conn)
        → Apart (idle_node fd) (1 ∷ [])
        → get_elem? server.fd2conn fd ≢ some (some c)
    listed zero c p e = p.0 refl
    listed (suc fd) c p e = ground arith

handle_accept-IsLive_example :
    Returns
      (λ r.
        (r.0 ≡ pos 0)
        × (get_elem? r.1.fd2conn 3 ≡ some (some (new_conn 3 200)))
        × IsLive r.1 (1 ∷ 4 ∷ []))
      (handle_accept (some 3) 200 server)
handle_accept-IsLive_example = handle_accept-IsLive 3 200 server (1 ∷ []) server-IsLive vacant
  where
    vacant : (c : Conn) → get_elem? server.fd2conn 3 ≢ some (some c)
    vacant c e = ground arith

conn_destroy-IsLive_example : Returns (Closed server 0 []) (conn_destroy 0 server)
conn_destroy-IsLive_example = conn_destroy-IsLive 0 server [] [] server-IsLive

process_idle-Swept_example : Returns (Swept server 6000 (1 ∷ [])) (process_idle 2 6000 server)
process_idle-Swept_example = process_idle-Swept 2 6000 server (1 ∷ []) server-IsLive (omega arith)

no_timers-IsValid : IsValid no_timers
no_timers-IsValid = record {
  ordered = λ c p q. absurd (omega arith);
  linked = λ i p. absurd (omega arith);
}

next_timer_ms_wakes_example :
    Returns (λ r. (r < 2 ^ 31) × (r ≤ 5100 - 200)) (next_timer_ms 200 server)
next_timer_ms_wakes_example =
    next_timer_ms_wakes 200 server (1 ∷ []) 5100 server-IsLive no_timers-IsValid
      (idle_timer 1 [] 0 conn refl refl refl refl) (omega arith) (omega arith)

-- No connection, and a key that expires in 2 ^ 31 milliseconds.
abbrev sleeper : Server
sleeper = record {
  fd2conn = [];
  idle = dlist_init (λ q. link 0 0) 0;
  heap = record { items = at_ms (2 ^ 31) 1 ∷ []; idx = λ r. 0 };
}

sleeper-IsLive : IsLive sleeper []
sleeper-IsLive = record {
  ring = dlist_init-IsRing (λ q. link 0 0) 0;
  nodes = tt;
  listed = λ fd c p e. ground arith;
}

next_timer_ms_far_example : Returns (λ r. is_negative (from_u32 r) ≡ true) (next_timer_ms 0 sleeper)
next_timer_ms_far_example =
    next_timer_ms_far 0 sleeper (at_ms (2 ^ 31) 1) [] sleeper-IsLive refl (omega arith)
      (omega arith) (omega arith)
