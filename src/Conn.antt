-- ===== src/Conn.antt =====
-- A connection: `Conn` of inc/server/conn.h and its handlers in lib/server/conn.cpp. The result of
-- `read` is an argument, and that of `write` a function of the bytes that are offered. The store is an
-- `App`. The messages to the log are left out.
pub mod Frames
pub mod Serve
pub mod Ready
pub mod Commands
use greenis.Prelude.{
  ℕ, zero, suc, ◌+◌, ◌≤◌, ◌≡◌, Bool, true, false, List, [], ◌∷◌, ◌++◌, Option, none, some, Run, ok,
  fault, out_of_fuel, ◌>>=◌, ◌>>◌, assert, ltb, ◌==◌, if◌then◌else◌, length, take, drop,
}
use greenis.Bytes.{Bytes, le_word}
use greenis.Buffer.{Buffer, buf_append, buf_consume}
use greenis.Message.{k_max_msg}
use greenis.Request.{parse_req}
use greenis.Response.{response_begin, response_end}
use greenis.App.{App}

-- `idle_node` is the connection's place in the list of idle connections.
pub record Conn : Type 0 where
  pub fd : ℕ
  pub want_read : Bool
  pub want_write : Bool
  pub want_close : Bool
  pub incoming : Buffer
  pub outgoing : Buffer
  pub last_active_ms : ℕ

-- `EAGAIN`, another error, or the bytes that were read: none at the end of the stream.
pub data ReadResult : Type 0 where
  again failed : ReadResult
  got : Bytes → ReadResult

-- `EAGAIN`, another error, or the number of bytes that were written.
pub data WriteResult : Type 0 where
  again failed : WriteResult
  wrote : ℕ → WriteResult

-- The connection that `handle_accept` makes.
unfoldable pub new_conn : ℕ → ℕ → Conn
new_conn connfd now_ms = record {
  fd = connfd;
  want_read = true;
  want_write = false;
  want_close = false;
  incoming = [];
  outgoing = [];
  last_active_ms = now_ms;
}

unfoldable pub handle_write : (Bytes → WriteResult) → Conn → Run Conn
unfolding buf_consume
handle_write write conn = do
  assert (ltb 0 (length conn.outgoing))
  elim (write conn.outgoing) [
    | again ↦ ok conn
    | failed ↦ ok (record conn { want_close = true })
    | wrote rv ↦ do
      left ← buf_consume conn.outgoing rv
      if length left == 0
          then ok (record conn { outgoing = left; want_read = true; want_write = false })
          else ok (record conn { outgoing = left })
  ]

module _ (app : App) where
  open app use {State, do_request}

  -- `true` if a request was served. The operand of `assert` is the access `conn->incoming[4]`.
  unfoldable pub try_one_request : State → Conn → Run (Bool × Conn × State)
  unfolding parse_req response_begin response_end buf_consume
  try_one_request s conn =
      if ltb (length conn.incoming) 4
      then ok (false, conn, s)
      else let len = le_word (take 4 conn.incoming) in
        if ltb k_max_msg len
        then ok (false, record conn { want_close = true }, s)
        else if ltb (length conn.incoming) (4 + len)
        then ok (false, conn, s)
        else let request : Run (Bool × Conn × State) =
            elim (parse_req (take len (drop 4 conn.incoming)) []) [
              | none ↦ ok (false, record conn { want_close = true }, s)
              | some cmd ↦ do
                let (begun, header_pos) = response_begin conn.outgoing
                (s', filled) ← do_request s cmd begun
                out ← response_end filled header_pos
                rest ← buf_consume conn.incoming (4 + len)
                ok (true, record conn { incoming = rest; outgoing = out }, s')
            ] in
          assert (ltb 4 (length conn.incoming)) >> request

  -- `while (try_one_request(conn)) {}`, for at most `fuel` calls.
  unfoldable pub serve : ℕ → State → Conn → Run (Conn × State)
  unfolding try_one_request
  serve zero s conn = out_of_fuel
  serve (suc fuel) s conn = do
    (more, conn', s') ← try_one_request s conn
    elim more [ true ↦ serve fuel s' conn' | false ↦ ok (conn', s') ]

  -- Each request takes four bytes or more out of `incoming`.
  unfoldable pub handle_read :
      ReadResult → (Bytes → WriteResult) → State → Conn → Run (Conn × State)
  unfolding serve handle_write buf_append
  handle_read again write s conn = ok (conn, s)
  handle_read failed write s conn = ok (record conn { want_close = true }, s)
  handle_read (got []) write s conn = ok (record conn { want_close = true }, s)
  handle_read (got (b ∷ bytes)) write s conn = do
    let filled = record conn {
      incoming = buf_append conn.incoming (b ∷ bytes) (length (b ∷ bytes));
    }
    (served, s') ← serve (length filled.incoming + 1) s filled
    if ltb 0 (length served.outgoing)
        then (do
          written ← handle_write write (record served { want_read = false; want_write = true })
          ok (written, s'))
        else ok (served, s')
