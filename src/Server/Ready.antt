-- ===== src/Server/Ready.antt =====
-- One ready socket of the event loop: the connection is served and stays at the end of the idle list, or
-- it is closed.
use greenis.Prelude.{
  ℕ, ◌≡◌, inl, inr, refl, ap, sym, ◌∙◌, Bool, true, false, ◌||◌, List, [], ◌∷◌, ◌++◌, some, none,
  arith, append-nil, Run, ok, ◌>>◌, assert, Returns, returns, Returns-bind, Returns-map, Returns-if,
  Returns-inv, ◌⊎◌, Bool-cases, if◌then◌else◌, ltb→lt, get_elem?, get_elem?-some, get_elem?-set,
}
use greenis.Bytes.{Bytes}
use greenis.App.{App}
use greenis.Conn.{Conn, ReadResult, WriteResult, got, handle_read, handle_write}
use greenis.Conn.Ready.{
  IsReady, IsWrite, StaysReady, Runs, handle_write-IsReady, handle_read-IsReady,
}
use greenis.Server.{Server, Events, idle_node, find_conn, touch, handle_events, handle_ready}
use greenis.Server.Live.{IsLive}
use greenis.Server.Steps.{touched, own_fd, touched-IsLive, stored-IsLive, conn_destroy-IsLive}

asserted :
    {A : Type 0} {P : A → Type 0} {call : Run A} (b : Bool)
    → b ≡ true
    → Returns P call
    → Returns P (assert b >> call)
asserted true e r = r
asserted false e r = absurd (ground (arith, e))

-- `poll` reports a socket as readable or writable only if that was asked.
pub record IsAsked (ev : Events) (conn : Conn) : Type 0 where
  pub read : ev.readable ≡ true → conn.want_read ≡ true
  pub write : ev.writable ≡ true → conn.want_write ≡ true

-- What a ready socket leaves, where `served` is the result of its reading and writing: if poll reported
-- no error and the connection does not want to be closed, it is last in the idle list, with its
-- intentions in order; otherwise it is gone. The store is the one that `served` has.
pub data Round {S : Type 0} (ev : Events) (served : Run (Conn × S)) (fd : ℕ) (l m : List ℕ)
    (r : Server × S) : Type 0 where
  open_still :
      (conn : Conn)
      → served ≡ ok (conn, r.1)
      → ev.broken ≡ false
      → conn.want_close ≡ false
      → get_elem? r.0.fd2conn fd ≡ some (some conn)
      → IsReady conn
      → IsLive r.0 ((l ++ m) ++ idle_node fd ∷ [])
      → Round ev served fd l m r
  closed :
      (conn : Conn)
      → served ≡ ok (conn, r.1)
      → (ev.broken ≡ true) ⊎ (conn.want_close ≡ true)
      → get_elem? r.0.fd2conn fd ≡ some none
      → IsLive r.0 (l ++ m)
      → Round ev served fd l m r

||-false : (a b : Bool) → (a || b) ≡ false → (a ≡ false) × (b ≡ false)
||-false false false e = (refl, refl)
||-false true b e = absurd (ground (arith, e))
||-false false true e = absurd (ground (arith, e))

||-true : (a b : Bool) → (a || b) ≡ true → (a ≡ true) ⊎ (b ≡ true)
||-true true b e = inl refl
||-true false b e = inr e

module _ (app : App) where
  open app use {State}

  -- The requests that `read` completes are answered without a fault.
  abbrev pub WillRun : ReadResult → State → Conn → Type 0
  WillRun read s conn =
      (bytes : Bytes) → read ≡ got bytes → Runs app s (conn.incoming ++ bytes) conn.outgoing

  read_part :
      (ev : Events) (read : ReadResult) (write : Bytes → WriteResult) (s : State) (conn : Conn)
      → IsWrite write
      → IsAsked ev conn
      → IsReady conn
      → (ev.readable ≡ true → WillRun read s conn)
      → Returns
          (λ r. StaysReady conn r.0 × (ev.readable ≡ false → r.0 ≡ conn))
          (if ev.readable
            then assert conn.want_read >> handle_read app read write s conn
            else ok (conn, s))
  read_part ev read write s conn w a v runs = elim (Bool-cases ev.readable) [
    | inl b ↦ rw b (
        asserted conn.want_read (a.read b) (
          Returns-map (handle_read-IsReady app read write s conn w v (runs b))
            λ r k. (k, λ e. absurd (ground (arith, e)))))
    | inr b ↦ rw b (returns (record { ready = v; own = refl }, λ e. refl))
  ]

  write_part :
      (ev : Events) (write : Bytes → WriteResult) (conn c : Conn)
      → IsWrite write
      → IsAsked ev conn
      → IsReady conn
      → StaysReady conn c
      → (ev.readable ≡ false → c ≡ conn)
      → Returns
          (StaysReady conn)
          (if ev.writable then assert c.want_write >> handle_write write c else ok c)
  write_part ev write conn c w a v k same = elim (Bool-cases ev.writable) [
    | inl b ↦
        let idle : ev.readable ≡ false = ground (arith, a.read, a.write b, v.one) in
        let wants : c.want_write ≡ true = ap (λ x. x.want_write) (same idle) ∙ a.write b in
        rw b (
          asserted c.want_write wants (
            Returns-map
              (handle_write-IsReady write c w k.ready (ltb→lt _ _ (sym k.ready.pending ∙ wants)))
              λ d j. record { ready = j.ready; own = j.own ∙ k.own }))
    | inr b ↦ rw b (returns k)
  ]

  handle_events-IsReady :
      (ev : Events) (read : ReadResult) (write : Bytes → WriteResult) (s : State) (conn : Conn)
      → IsWrite write
      → IsAsked ev conn
      → IsReady conn
      → (ev.readable ≡ true → WillRun read s conn)
      → Returns (λ r. StaysReady conn r.0) (handle_events app ev read write s conn)
  unfolding handle_events
  handle_events-IsReady ev read write s conn w a v runs =
      Returns-bind (read_part ev read write s conn w a v runs)
        λ r (k, same). Returns-bind (write_part ev write conn r.0 w a v k same) λ c j. returns j

  -- A ready connection that is in the table with its intentions in order is served without a fault, if
  -- the requests that are then complete are answered without one. If poll reported no error and the
  -- connection that reading and writing leave does not want to be closed, it is then last in the idle
  -- list with its intentions in order; otherwise its slot is empty and its node is gone. The other
  -- connections keep their places, and the table and the list stay together.
  pub handle_ready-Round :
      (ev : Events) (read : ReadResult) (write : Bytes → WriteResult) (fd now_ms : ℕ) (s : State)
      (g : Server) (conn : Conn) (l m : List ℕ)
      → IsWrite write
      → IsLive g (l ++ idle_node fd ∷ m)
      → get_elem? g.fd2conn fd ≡ some (some conn)
      → IsAsked ev conn
      → IsReady conn
      → (ev.readable ≡ true → WillRun read s conn)
      → Returns
          (Round ev
            (handle_events app ev read write s (record conn { last_active_ms = now_ms }))
            fd
            l
            m)
          (handle_ready app ev read write fd now_ms s g)
  unfolding handle_ready touch find_conn
  handle_ready-Round ev read write fd now_ms s g conn l m w v here a ready runs =
      let stamped = record conn { last_active_ms = now_ms } in
      let inside = get_elem?-some g.fd2conn fd (some conn) here in
      let put = get_elem?-set g.fd2conn fd (some stamped) inside in
      let own = own_fd fd conn g l m v here in
      let live = touched-IsLive fd now_ms conn g l m v here in
      let asked : IsAsked ev stamped = record { read = a.read; write = a.write } in
      let ready' : IsReady stamped = record { one = ready.one; pending = ready.pending } in
      let h = touched g fd conn now_ms in
      let ((c, s'), served, j) =
        Returns-inv (handle_events-IsReady ev read write s stamped w asked ready' runs) in
      let stored =
        stored-IsLive fd stamped c h ((l ++ m) ++ idle_node fd ∷ []) live put (j.own ∙ own) in
      let slot =
        get_elem?-set h.fd2conn fd (some c) (get_elem?-some h.fd2conn fd (some stamped) put) in
      rw (here, put, served)
        (Returns-bind
          (Returns-if {P = λ x. Round ev (ok (c, s')) fd l m (x, s')} (ev.broken || c.want_close)
            (λ close. Returns-map (conn_destroy-IsLive fd _ (l ++ m) [] stored) λ x d.
              closed c refl (||-true ev.broken c.want_close close) d.slot (rw append-nil at d.live))
            (λ stay.
              let (unbroken, wanted) = ||-false ev.broken c.want_close stay in
              returns (open_still c refl unbroken wanted slot j.ready stored)))
          λ x round. returns round)
