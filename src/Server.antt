-- ===== src/Server.antt =====
-- The connections of the server together: `g_data` of inc/server/global.h, `handle_accept` and
-- `conn_destroy` of lib/server/conn.cpp, the timers of lib/server/timer.cpp that are not keys, and what
-- the loop of server.cpp does with one ready socket. The results of `accept`, `read`, `write` and the
-- clock are arguments. A `Conn *` is the connection's descriptor: the code finds the object in
-- `fd2conn`, or by `container_of` from its node in the idle list. Messages to the log are left out.
pub mod Live
pub mod Steps
pub mod Expiry
pub mod Poll
pub mod Ready
pub mod Args
use greenis.Prelude.{
  ℕ, zero, suc, ◌+◌, ◌-◌, ◌%◌, ◌^◌, ◌≡◌, Bool, true, false, List, [], ◌∷◌, ◌++◌, ◌||◌, Option, none,
  some, Run, ok, fault, out_of_fuel, ◌>>=◌, ◌>>◌, assert, require, ltb, leb, ◌==◌, if◌then◌else◌,
  length, get_elem?, set, replicate,
}
use greenis.Prelude.Int.{ℤ, pos, negsuc, from_u32}
use greenis.Heap.{Heap, HeapItem}
use greenis.IdleList.{Nodes, dlist_empty, dlist_detach, dlist_insert_before}
use greenis.App.{App}
use greenis.Conn.{Conn, new_conn, ReadResult, WriteResult, handle_read, handle_write}
use greenis.Bytes.{Bytes}

pub record Server : Type 0 where
  pub fd2conn : List (Option Conn)
  pub idle : Nodes
  pub heap : Heap

-- `&g_data.idle_list`
abbrev pub idle_list : ℕ
idle_list = 0

-- `&conn->idle_node` of the connection with this descriptor
abbrev pub idle_node : ℕ → ℕ
idle_node fd = suc fd

-- `g_data.fd2conn[fd]`, which must be a connection.
unfoldable pub find_conn : Server → ℕ → Run Conn
find_conn g fd = require (get_elem? g.fd2conn fd) >>= λ slot. require slot

-- `resize` when the table has no slot for the descriptor
abbrev pub with_slot : List (Option Conn) → ℕ → List (Option Conn)
with_slot table fd =
    if leb (length table) fd then table ++ replicate (fd + 1 - length table) none else table

abbrev pub is_none : Option Conn → Bool
is_none none = true
is_none (some conn) = false

unfoldable pub handle_accept : Option ℕ → ℕ → Server → Run (ℤ × Server)
unfolding new_conn
handle_accept none now_ms g = ok (negsuc 0, g)
handle_accept (some connfd) now_ms g = do
  let table = with_slot g.fd2conn connfd
  slot ← require (get_elem? table connfd)
  assert (is_none slot)
  ok (
    pos 0,
    record g {
      fd2conn = set table connfd (some (new_conn connfd now_ms));
      idle = dlist_insert_before g.idle idle_list (idle_node connfd);
    },
  )

unfoldable pub conn_destroy : ℕ → Server → Run Server
conn_destroy fd g =
    if ltb fd (length g.fd2conn)
    then ok
        (record g { fd2conn = set g.fd2conn fd none; idle = dlist_detach g.idle (idle_node fd) })
    else fault

abbrev pub k_idle_timeout_ms : ℕ
k_idle_timeout_ms = 5000

-- The moment at which a connection counts as idle, in 64 bits.
abbrev pub idle_deadline : Conn → ℕ
idle_deadline conn = (conn.last_active_ms + k_idle_timeout_ms) % 2 ^ 64

-- `container_of(g_data.idle_list.next, Conn, idle_node)`
unfoldable pub first_idle : Server → Run Conn
first_idle g = find_conn g ((g.idle idle_list).next - 1)

-- The smaller of `next_ms` and the first value of the heap.
abbrev pub first_expiry : List HeapItem → ℕ → ℕ
first_expiry [] next_ms = next_ms
first_expiry (x ∷ items) next_ms = if ltb x.val next_ms then x.val else next_ms

abbrev pub timeout : ℕ → ℕ → ℕ
timeout now_ms next_ms =
    if next_ms == 2 ^ 64 - 1
    then 2 ^ 32 - 1
    else if leb next_ms now_ms
    then 0
    else (next_ms - now_ms) % 2 ^ 32

-- The `uint32_t` that `next_timer_ms` returns.
unfoldable pub next_timer_ms : ℕ → Server → Run ℕ
next_timer_ms now_ms g =
    let never = 2 ^ 64 - 1 in
    let idle_ms : Run ℕ =
      if dlist_empty g.idle idle_list
      then ok never
      else first_idle g >>= λ conn. ok (idle_deadline conn) in
    idle_ms >>= λ idle. ok (timeout now_ms (first_expiry g.heap.items idle))

-- The first loop of `process_timers`, for at most `fuel` rounds.
unfoldable pub process_idle : ℕ → ℕ → Server → Run Server
process_idle zero now_ms g = out_of_fuel
process_idle (suc fuel) now_ms g =
    let round : Run Server = first_idle g >>= λ conn.
    if leb now_ms (idle_deadline conn)
    then ok g
    else conn_destroy conn.fd g >>= λ h. process_idle fuel now_ms h in
    if dlist_empty g.idle idle_list then ok g else round

-- `conn->last_active_ms = now; dlist_detach(...); dlist_insert_before(...)`
unfoldable pub touch : ℕ → ℕ → Server → Run Server
touch fd now_ms g = find_conn g fd >>= λ conn. ok (record g {
  fd2conn = set g.fd2conn fd (some (record conn { last_active_ms = now_ms }));
  idle = dlist_insert_before (dlist_detach g.idle (idle_node fd)) idle_list (idle_node fd);
})

-- The events that `poll` is asked for.
pub record PollFd : Type 0 where
  pub fd : ℕ
  pub pollin : Bool
  pub pollout : Bool
  pub pollerr : Bool

abbrev pub conn_pollfd : Conn → PollFd
conn_pollfd conn = record {
  fd = conn.fd;
  pollin = conn.want_read;
  pollout = conn.want_write;
  pollerr = true;
}

-- The loop over `g_data.fd2conn`.
abbrev pub poll_conns : List (Option Conn) → List PollFd
poll_conns [] = []
poll_conns (none ∷ table) = poll_conns table
poll_conns (some conn ∷ table) = conn_pollfd conn ∷ poll_conns table

-- The listening socket `fd` is the first.
unfoldable pub poll_args : ℕ → Server → List PollFd
poll_args fd g =
    record { fd = fd; pollin = true; pollout = false; pollerr = false } ∷ poll_conns g.fd2conn

-- What `poll` reports of a socket.
pub record Events : Type 0 where
  pub readable : Bool
  pub writable : Bool
  pub broken : Bool

module _ (app : App) where
  open app use {State}

  -- Reading from and writing to a socket as `poll` reported it.
  unfoldable pub handle_events :
      Events → ReadResult → (Bytes → WriteResult) → State → Conn → Run (Conn × State)
  unfolding handle_read handle_write
  handle_events ev read write s conn = do
    (after_read, s') ←
        (if ev.readable
          then assert conn.want_read >> handle_read app read write s conn
          else ok (conn, s))
    after_write ←
        (if ev.writable
          then assert after_read.want_write >> handle_write write after_read
          else ok after_read)
    ok (after_write, s')

  -- The body of the loop over the connected sockets.
  unfoldable pub handle_ready :
      Events → ReadResult → (Bytes → WriteResult) → ℕ → ℕ → State → Server → Run (Server × State)
  unfolding touch find_conn handle_events conn_destroy
  handle_ready ev read write fd now_ms s g = do
    h ← touch fd now_ms g
    conn ← find_conn h fd
    (after_write, s') ← handle_events ev read write s conn
    let stored = record h { fd2conn = set h.fd2conn fd (some after_write) }
    closed ← (if ev.broken || after_write.want_close then conn_destroy fd stored else ok stored)
    ok (closed, s')
