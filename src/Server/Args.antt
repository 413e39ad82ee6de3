-- ===== src/Server/Args.antt =====
-- The arguments of `poll` in the event loop.
use greenis.Prelude.{
  subst, ℕ, zero, suc, ◌≡◌, refl, true, false, List, [], ◌∷◌, Option, none, some, arith, All,
  All-map, get_elem?, some-injective,
}
use greenis.Conn.{Conn}
use greenis.Server.{Server, PollFd, conn_pollfd, poll_conns, poll_args}

-- The entry asks for errors of this connection, and for reading and writing just as it wants them.
pub record Asks (conn : Conn) (p : PollFd) : Type 0 where
  pub fd : p.fd ≡ conn.fd
  pub read : p.pollin ≡ conn.want_read
  pub write : p.pollout ≡ conn.want_write
  pub error : p.pollerr ≡ true

-- The entry is that of a connection in the table.
pub record IsWanted (table : List (Option Conn)) (p : PollFd) : Type 0 where
  pub slot : ℕ
  pub conn : Conn
  pub here : get_elem? table slot ≡ some (some conn)
  pub asks : Asks conn p

-- There is an entry for this connection.
pub record IsPolled (args : List PollFd) (conn : Conn) : Type 0 where
  pub place : ℕ
  pub entry : PollFd
  pub there : get_elem? args place ≡ some entry
  pub asks : Asks conn entry

conn_pollfd-Asks : (conn : Conn) → Asks conn (conn_pollfd conn)
conn_pollfd-Asks conn = record { fd = refl; read = refl; write = refl; error = refl }

later_slot :
    (o : Option Conn) (table : List (Option Conn)) (p : PollFd)
    → IsWanted table p
    → IsWanted (o ∷ table) p
later_slot o table p w = record { slot = suc w.slot; conn = w.conn; here = w.here; asks = w.asks }

poll_conns-IsWanted : (table : List (Option Conn)) → All (IsWanted table) (poll_conns table)
poll_conns-IsWanted [] = tt
poll_conns-IsWanted (none ∷ table) =
    All-map (poll_conns table) (later_slot none table) (poll_conns-IsWanted table)
poll_conns-IsWanted (some conn ∷ table) = (
  record { slot = 0; conn = conn; here = refl; asks = conn_pollfd-Asks conn },
  All-map (poll_conns table) (later_slot (some conn) table) (poll_conns-IsWanted table),
)

poll_conns-IsPolled :
    (table : List (Option Conn)) (slot : ℕ) (conn : Conn)
    → get_elem? table slot ≡ some (some conn)
    → IsPolled (poll_conns table) conn
poll_conns-IsPolled [] slot conn e = absurd (ground arith)
poll_conns-IsPolled (none ∷ table) zero conn e = absurd (ground arith)
poll_conns-IsPolled (none ∷ table) (suc slot) conn e = poll_conns-IsPolled table slot conn e
poll_conns-IsPolled (some c ∷ table) zero conn e = record {
  place = 0;
  entry = conn_pollfd c;
  there = refl;
  asks =
      subst (λ x. Asks x (conn_pollfd c)) (some-injective c conn (some-injective _ _ e))
        (conn_pollfd-Asks c);
}
poll_conns-IsPolled (some c ∷ table) (suc slot) conn e =
    let rest = poll_conns-IsPolled table slot conn e in
    record { place = suc rest.place; entry = rest.entry; there = rest.there; asks = rest.asks }

-- The entries of `poll` are the listening socket, for reading, and then exactly the connections of the table, each for
-- what it wants.
pub record IsExact (fd : ℕ) (g : Server) (args : List PollFd) : Type 0 where
  pub rest : List PollFd
  pub listening : args ≡ record { fd = fd; pollin = true; pollout = false; pollerr = false } ∷ rest
  pub wanted : All (IsWanted g.fd2conn) rest
  pub polled :
      (slot : ℕ) (conn : Conn) → get_elem? g.fd2conn slot ≡ some (some conn) → IsPolled rest conn

-- The loop of the server asks `poll` for the listening socket, for reading, and then for exactly the connections of
-- the table, each for what it wants.
pub poll_args-IsExact : (fd : ℕ) (g : Server) → IsExact fd g (poll_args fd g)
unfolding poll_args
poll_args-IsExact fd g = record {
  rest = poll_conns g.fd2conn;
  listening = refl;
  wanted = poll_conns-IsWanted g.fd2conn;
  polled = poll_conns-IsPolled g.fd2conn;
}
