-- ===== src/Conn/Ready.antt =====
-- The readiness intentions of a connection, which the event loop turns into the flags of `poll`.
use greenis.Prelude.{
  ℕ, zero, suc, ◌+◌, ◌≤◌, ◌<◌, ◌≡◌, ◌⊎◌, refl, sym, ◌∙◌, true, false, not, [], ◌∷◌, ◌++◌, arith,
  ltb, ltb→lt, le→leb, lt→ltb, inl, inr, length, drop, length-append, Returns, returns,
  Returns-bind, Returns-map, Returns-if, ◌==◌, List, Run, ok, fault, bind-ok, ok-injective, ap, leb,
  leb→le, length-take, take, take-length_self, Bool-cases,
}
use greenis.Bytes.{Bytes, le_bytes, length-le_bytes}
use greenis.Buffer.{Buffer, buf_consume, buf_append, write_u32}
use greenis.App.{App}
use greenis.Message.{k_max_msg}
use greenis.Response.{response_begin, response_end, response_size}
use greenis.Conn.Frames.{incomplete, bad, request, next_request, respond}
use greenis.Conn.Serve.{next_request-Shrinks, continue_with, go_on, serve_step}
use greenis.Conn.{
  Conn, ReadResult, WriteResult, again, failed, got, wrote, new_conn, handle_write, serve,
  handle_read,
}

-- Exactly one of `want_read` and `want_write` is set, and `want_write` while bytes are to be sent.
pub record IsReady (conn : Conn) : Type 0 where
  pub one : conn.want_read ≡ not conn.want_write
  pub pending : conn.want_write ≡ ltb 0 (length conn.outgoing)

-- `write` sends at most the bytes that it is offered.
abbrev pub IsWrite : (Bytes → WriteResult) → Type 0
IsWrite write = (bytes : Bytes) (n : ℕ) → write bytes ≡ wrote n → n ≤ length bytes

new_conn-IsReady : (connfd now_ms : ℕ) → IsReady (new_conn connfd now_ms)
unfolding new_conn
new_conn-IsReady connfd now_ms = record { one = refl; pending = refl }

-- A ready connection with the descriptor of `conn`.
pub record StaysReady (conn c : Conn) : Type 0 where
  pub ready : IsReady c
  pub own : c.fd ≡ conn.fd

WriteResult-cases : (r : WriteResult) → (r ≡ again) ⊎ ((r ≡ failed) ⊎ ((n : ℕ) × (r ≡ wrote n)))
WriteResult-cases again = inl refl
WriteResult-cases failed = inr (inl refl)
WriteResult-cases (wrote n) = inr (inr (n, refl))

-- Called when bytes are pending, `handle_write` returns, and the intentions still fit.
pub handle_write-IsReady :
    (write : Bytes → WriteResult) (conn : Conn)
    → IsWrite write
    → IsReady conn
    → 0 < length conn.outgoing
    → Returns (StaysReady conn) (handle_write write conn)
unfolding handle_write buf_consume
handle_write-IsReady write conn bounded v h =
    rw (lt→ltb 0 (length conn.outgoing) h) (elim (WriteResult-cases (write conn.outgoing)) [
      | inl e ↦ rw e (returns (record { ready = v; own = refl }))
      | inr (inl e) ↦
          rw e
            (returns (record { ready = record { one = v.one; pending = v.pending }; own = refl }))
      | inr (inr (n, e)) ↦
          rw (e, le→leb n (length conn.outgoing) (bounded _ n e))
            (Returns-if (length (drop n conn.outgoing) == 0)
              (λ empty.
                let sent = record conn {
                  outgoing = drop n conn.outgoing;
                  want_read = true;
                  want_write = false;
                } in
                let ready : IsReady sent = record { one = refl; pending = ground arith } in
                returns (record { ready = ready; own = refl }))
              (λ some_left.
                let part = record conn { outgoing = drop n conn.outgoing } in
                let ready : IsReady part = record {
                  one = v.one;
                  pending = ground (arith, v.pending);
                } in
                returns (record { ready = ready; own = refl })))
    ])

-- A length that is written lies inside of the buffer.
write_u32-length :
    (out : Buffer) (at word : ℕ) (o : Buffer) → write_u32 out at word ≡ ok o → at + 4 ≤ length o
unfolding write_u32
write_u32-length out at word o h = elim (Bool-cases (leb (at + 4) (length out))) [
  | inl room ↦
      let whole = take at out ++ (le_bytes 4 word ++ drop (at + 4) out) in
      let same : length whole ≡ length o = ap length (ok-injective whole o (rw room at h)) in
      omega (
        arith,
        same,
        leb→le _ _ room,
        length-append (take at out) (le_bytes 4 word ++ drop (at + 4) out),
        length-append (le_bytes 4 word) (drop (at + 4) out),
        length-le_bytes 4 word,
        length-take at out,
      )
  | inr none ↦ let failing : ◌≡◌ {A = Run Buffer} fault (ok o) = rw none at h in cc
]

response_end-length :
    (out : Buffer) (header : ℕ) (o : Buffer)
    → response_end out header ≡ ok o
    → header + 4 ≤ length o
unfolding response_end
response_end-length out header o h = elim (Bool-cases (ltb k_max_msg (response_size out header))) [
  | inl large ↦ write_u32-length _ header _ o (rw large at h)
  | inr small ↦ write_u32-length out header _ o (rw small at h)
]

module _ (app : App) where
  open app use {State}

  -- The requests that stand in `bytes` are answered one after the other without a fault, each by `respond`
  -- with the output so far, up to a request that is not yet complete or one that is refused.
  pub data Runs : State → Bytes → Buffer → Type 0 where
    waits :
        {s : State} {bytes : Bytes} {out : Buffer}
        → next_request bytes ≡ incomplete
        → Runs s bytes out
    closes :
        {s : State} {bytes : Bytes} {out : Buffer} → next_request bytes ≡ bad → Runs s bytes out
    serves :
        {s : State} {bytes : Bytes} {out : Buffer} (cmd : List Bytes) (rest : Bytes) (s' : State)
        (out' : Buffer)
        → next_request bytes ≡ request cmd rest
        → respond app s cmd out ≡ ok (s', out')
        → Runs s' rest out'
        → Runs s bytes out

  respond-grows :
      (s : State) (cmd : List Bytes) (out : Buffer) (r : State × Buffer)
      → respond app s cmd out ≡ ok r
      → length out ≤ length r.1
  unfolding respond response_begin
  respond-grows s cmd out r h =
      let ((s', filled), called, ended) =
        bind-ok (app.do_request s cmd (response_begin out).0) _ r h in
      let (o, closed, same) = bind-ok (response_end filled (length out)) _ r ended in
      let grown = response_end-length filled (length out) o closed in
      let out_is : o ≡ r.1 = ap (λ (x : State × Buffer). x.1) (ok-injective (s', o) r same) in
      omega (arith, grown, ap length out_is)

  -- What serving leaves alone. It only adds to what is to be sent.
  record Kept (conn : Conn) (r : Conn × State) : Type 0 where
    read : r.0.want_read ≡ conn.want_read
    write : r.0.want_write ≡ conn.want_write
    own : r.0.fd ≡ conn.fd
    grown : length conn.outgoing ≤ length r.0.outgoing

  serve-Kept :
      (fuel : ℕ) (s : State) (conn : Conn)
      → length conn.incoming < fuel
      → Runs s conn.incoming conn.outgoing
      → Returns (Kept conn) (serve app fuel s conn)
  unfolding continue_with go_on
  serve-Kept zero s conn h runs = absurd (omega arith)
  serve-Kept (suc fuel) s conn h (waits i) =
      rw (serve_step app fuel s conn, i)
        (returns (record { read = refl; write = refl; own = refl; grown = omega arith }))
  serve-Kept (suc fuel) s conn h (closes b) =
      rw (serve_step app fuel s conn, b)
        (returns (record { read = refl; write = refl; own = refl; grown = omega arith }))
  serve-Kept (suc fuel) s conn h (serves cmd rest s' out' q answered runs) =
      let shorter : length rest + 4 ≤ length conn.incoming =
        rw q at (next_request-Shrinks conn.incoming) in
      rw (serve_step app fuel s conn, q, answered)
        (Returns-map
          (serve-Kept fuel s' (record conn { incoming = rest; outgoing = out' }) (omega arith) runs)
          (λ r k. record {
            read = k.read;
            write = k.write;
            own = k.own;
            grown = omega (arith, k.grown, respond-grows s cmd conn.outgoing (s', out') answered);
          }))

  -- If the requests that are then complete are answered without a fault, `handle_read` returns, whatever
  -- was read and whatever `write` does, the intentions still fit, and the descriptor is the same: the
  -- loop over the requests ends, and `handle_write` is called only with bytes to send.
  pub handle_read-IsReady :
      (result : ReadResult) (write : Bytes → WriteResult) (s : State) (conn : Conn)
      → IsWrite write
      → IsReady conn
      → ((bytes : Bytes) → result ≡ got bytes → Runs s (conn.incoming ++ bytes) conn.outgoing)
      → Returns (λ r. StaysReady conn r.0) (handle_read app result write s conn)
  unfolding handle_read buf_append
  handle_read-IsReady again write s conn bounded v runs = returns (record { ready = v; own = refl })
  handle_read-IsReady failed write s conn bounded v runs =
      returns (record { ready = record { one = v.one; pending = v.pending }; own = refl })
  handle_read-IsReady (got []) write s conn bounded v runs =
      returns (record { ready = record { one = v.one; pending = v.pending }; own = refl })
  handle_read-IsReady (got (b ∷ bytes)) write s conn bounded v runs =
      let filled = record conn {
        incoming = buf_append conn.incoming (b ∷ bytes) (length (b ∷ bytes));
      } in
      let all_runs : Runs s filled.incoming filled.outgoing =
        rw (take-length_self (b ∷ bytes)) (runs (b ∷ bytes) refl) in
      Returns-bind (serve-Kept (length filled.incoming + 1) s filled (omega arith) all_runs) λ r k.
        Returns-if (ltb 0 (length r.0.outgoing))
          (λ pending.
            Returns-bind
              (handle_write-IsReady write (record r.0 { want_read = false; want_write = true })
                bounded (record { one = refl; pending = sym pending }) (ltb→lt _ _ pending))
              λ written w. returns (record { ready = w.ready; own = w.own ∙ k.own }))
          (λ idle. returns (record {
            ready = record {
              one = ground (arith, k.read, k.write, v.one);
              pending = ground (arith, k.write, v.pending, k.grown);
            };
            own = k.own;
          }))
