-- ===== src/Conn/Serve.antt =====
-- The loop over the requests of one read, `while (try_one_request(conn)) {}` of lib/server/conn.cpp:
-- pipelines, and streams that are cut into several reads.
use greenis.Prelude.{
  ℕ, zero, suc, ◌+◌, ◌≤◌, ◌<◌, ◌≡◌, refl, sym, ap, ◌∙◌, Bool, true, false, List, [], ◌∷◌, ◌++◌,
  Option, none, some, Run, ok, fault, out_of_fuel, bind-ok, bind-cong, bind-after, ok-injective,
  subst, ◌>>=◌, arith, append_assoc, ltb, ltb→le, Bool-cases, inl, inr, length, take, drop,
  length-append, length-drop, All,
}
use greenis.Bytes.{Bytes, le_word}
use greenis.Buffer.{Buffer}
use greenis.Message.{k_max_msg, message}
use greenis.Request.{parse_req}
use greenis.Request.Format.{encode_req, IsCommand}
use greenis.App.{App}
use greenis.Conn.{Conn, serve}
use greenis.Conn.Frames.{
  Next, extend, respond, parsed, after_header, next_request, next_request-append,
  next_request-message, outcome, try_one_request-outcome,
}

-- A request takes at least its header.
abbrev pub Shrinks : Next → Bytes → Type 0
Shrinks (Next.request cmd rest) bytes = length rest + 4 ≤ length bytes
Shrinks _ bytes = Unit

parsed-Shrinks :
    (o : Option (List Bytes)) (rest bytes : Bytes)
    → length rest + 4 ≤ length bytes
    → Shrinks (parsed o rest) bytes
unfolding parsed
parsed-Shrinks none rest bytes h = tt
parsed-Shrinks (some cmd) rest bytes h = h

pub next_request-Shrinks : (bytes : Bytes) → Shrinks (next_request bytes) bytes
unfolding next_request after_header
next_request-Shrinks bytes = elim (Bool-cases (ltb (length bytes) 4)) [
  | inl short ↦ rw short tt
  | inr long ↦
      let len = le_word (take 4 bytes) in
      elim (Bool-cases (ltb k_max_msg len)) [
        | inl large ↦ rw (long, large) tt
        | inr small ↦ elim (Bool-cases (ltb (length bytes) (4 + len))) [
          | inl part ↦ rw (long, small, part) tt
          | inr whole ↦ elim (Bool-cases (ltb 4 (length bytes))) [
            | inr edge ↦ rw (long, small, whole, edge) tt
            | inl beyond ↦
                rw (long, small, whole, beyond)
                  (parsed-Shrinks (parse_req (take len (drop 4 bytes)) []) (drop (4 + len) bytes)
                    bytes (omega (arith, length-drop (4 + len) bytes, ltb→le _ _ whole)))
          ]
        ]
      ]
]

pub data Front (n : Next) : Type 0 where
  incomplete : n ≡ Next.incomplete → Front n
  bad : n ≡ Next.bad → Front n
  overrun : n ≡ Next.overrun → Front n
  request : (cmd : List Bytes) (rest : Bytes) → n ≡ Next.request cmd rest → Front n

pub front : (n : Next) → Front n
front Next.incomplete = Front.incomplete refl
front Next.bad = Front.bad refl
front Next.overrun = Front.overrun refl
front (Next.request cmd rest) = Front.request cmd rest refl

-- A command whose message the protocol allows.
abbrev pub IsSendable : List Bytes → Type 0
IsSendable cmd = IsCommand cmd × (length (encode_req cmd) ≤ k_max_msg)

-- The messages of a pipeline.
unfoldable pub stream : List (List Bytes) → Bytes
stream [] = []
stream (cmd ∷ cmds) = message (encode_req cmd) ++ stream cmds

-- More bytes arrive.
abbrev pub receive : Conn → Bytes → Conn
receive conn more = record conn { incoming = conn.incoming ++ more }

module _ (app : App) where
  open app use {State}

  -- The loop goes on after a request was served.
  unfoldable pub go_on : ℕ → Conn → Bytes → State × Buffer → Run (Conn × State)
  unfolding serve
  go_on fuel conn rest (s', out) =
      serve app fuel s' (record conn { incoming = rest; outgoing = out })

  -- The loop by what stands in front.
  unfoldable pub continue_with : Next → ℕ → State → Conn → Run (Conn × State)
  unfolding respond go_on
  continue_with Next.incomplete fuel s conn = ok (conn, s)
  continue_with Next.bad fuel s conn = ok (record conn { want_close = true }, s)
  continue_with Next.overrun fuel s conn = fault
  continue_with (Next.request cmd rest) fuel s conn =
      respond app s cmd conn.outgoing >>= go_on fuel conn rest

  pub serve_step :
      (fuel : ℕ) (s : State) (conn : Conn)
      → serve app (suc fuel) s conn ≡ continue_with (next_request conn.incoming) fuel s conn
  unfolding serve
  serve_step fuel s conn =
      rw (try_one_request-outcome app s conn) (by_next (next_request conn.incoming))
    where
      by_next :
          (n : Next)
          → ◌≡◌ {A = Run (Conn × State)}
              (outcome app n s conn >>= λ (more, conn', s'). elim more [
                | true ↦ serve app fuel s' conn'
                | false ↦ ok (conn', s')
              ])
              (continue_with n fuel s conn)
      by_next Next.incomplete = unfold outcome continue_with in refl
      by_next Next.bad = unfold outcome continue_with in refl
      by_next Next.overrun = unfold outcome continue_with in refl
      by_next (Next.request cmd rest) =
          unfold outcome continue_with go_on in answered (respond app s cmd conn.outgoing)
        where
          answered :
              (r : Run (State × Buffer))
              → ◌≡◌ {A = Run (Conn × State)}
                  (◌>>=◌ {A = Bool × Conn × State}
                    (r >>= λ (s', out).
                      ok (true, record conn { incoming = rest; outgoing = out }, s'))
                    (λ (more, conn', s'). elim more [
                      | true ↦ serve app fuel s' conn'
                      | false ↦ ok (conn', s')
                    ]))
                  (r >>= λ (s', out).
                    serve app fuel s' (record conn { incoming = rest; outgoing = out }))
          answered fault = refl
          answered out_of_fuel = refl
          answered (ok (s', out)) = refl

  -- The commands of a pipeline, one after the other, each with its message header.
  unfoldable pub run_all : State → List (List Bytes) → Buffer → Run (State × Buffer)
  unfolding respond
  run_all s [] out = ok (s, out)
  run_all s (cmd ∷ cmds) out = respond app s cmd out >>= λ (s', o). run_all s' cmds o

  pub serve_fuel :
      (f g : ℕ) (s : State) (conn : Conn)
      → length conn.incoming < f
      → length conn.incoming < g
      → serve app f s conn ≡ serve app g s conn
  unfolding continue_with go_on
  serve_fuel zero g s conn h k = absurd (omega arith)
  serve_fuel (suc f) zero s conn h k = absurd (omega arith)
  serve_fuel (suc f) (suc g) s conn h k =
      rw (serve_step f s conn, serve_step g s conn)
        (elim (front (next_request conn.incoming)) [
          | Front.incomplete i ↦ rw i
          | Front.bad b ↦ rw b
          | Front.overrun o ↦ rw o
          | Front.request cmd rest q ↦
              let shorter : length rest + 4 ≤ length conn.incoming =
                rw q at (next_request-Shrinks conn.incoming) in
              rw q (
                bind-cong (respond app s cmd conn.outgoing) (go_on f conn rest) (go_on g conn rest)
                  λ (s', out).
                    serve_fuel f g s' (record conn { incoming = rest; outgoing = out })
                      (omega arith) (omega arith))
        ])

  -- A pipeline of commands that is read at once is served as running the commands in order does, each with
  -- the output of the ones before it; the bytes of a request that is not yet complete stay.
  pub serve_pipeline :
      (cmds : List (List Bytes)) (tail : Bytes) (fuel : ℕ) (s : State) (conn : Conn)
      → All IsSendable cmds
      → next_request tail ≡ Next.incomplete
      → length cmds < fuel
      → serve app fuel s (record conn { incoming = stream cmds ++ tail }) ≡ (
          run_all s cmds conn.outgoing >>= λ (s', out).
          ok (record conn { incoming = tail; outgoing = out }, s'))
  unfolding continue_with run_all stream go_on
  serve_pipeline cmds tail zero s conn c t f = absurd (omega arith)
  serve_pipeline [] tail (suc fuel) s conn c t f =
      serve_step fuel s (record conn { incoming = tail }) ∙ rw t
  serve_pipeline (cmd ∷ cmds) tail (suc fuel) s conn c t f =
      serve_step fuel s (record conn { incoming = stream (cmd ∷ cmds) ++ tail })
      ∙ rw
          (
            append_assoc (message (encode_req cmd)) (stream cmds) tail,
            next_request-message cmd (stream cmds ++ tail) c.0.0 c.0.1,
          )
          (bind-after (respond app s cmd conn.outgoing) (go_on fuel conn (stream cmds ++ tail))
            (λ (s', o). run_all s' cmds o)
            (λ (s', out). ok (record conn { incoming = tail; outgoing = out }, s'))
            (λ (s', o).
              serve_pipeline cmds tail fuel s' (record conn { outgoing = o }) c.1 t (omega arith)))

  -- As long as no request is refused, serving what has arrived and then what arrives later is the
  -- same as serving all of it at once.
  pub serve_in_chunks :
      (fuel : ℕ) (s : State) (conn : Conn) (more : Bytes) (r : Conn × State) (g h : ℕ)
      → serve app fuel s conn ≡ ok r
      → r.0.want_close ≡ false
      → length r.0.incoming + length more < g
      → length conn.incoming + length more < h
      → serve app g r.1 (receive r.0 more) ≡ serve app h s (receive conn more)
  unfolding continue_with extend go_on
  serve_in_chunks zero s conn more r g h e w p q = unfold serve in cc
  serve_in_chunks (suc fuel) s conn more r g zero e w p q = absurd (omega arith)
  serve_in_chunks (suc fuel) s conn more r g (suc h) e w p q =
      let step = sym (serve_step fuel s conn) ∙ e in
      elim (front (next_request conn.incoming)) [
        | Front.incomplete i ↦
            let same = ok-injective (conn, s) r (rw i at step) in
            subst
              (λ (x : Conn × State).
                length x.0.incoming + length more < g
                → serve app g x.1 (receive x.0 more) ≡ serve app (suc h) s (receive conn more))
              same
              (λ k.
                serve_fuel g (suc h) s (receive conn more)
                  (omega (arith, length-append conn.incoming more))
                  (omega (arith, length-append conn.incoming more)))
              p
        | Front.bad b ↦
            let same = ok-injective (record conn { want_close = true }, s) r (rw b at step) in
            let closing : true ≡ r.0.want_close = ap (λ (x : Conn × State). x.0.want_close) same in
            cc
        | Front.overrun o ↦
            let failing : ◌≡◌ {A = Run (Conn × State)} fault (ok r) = rw o at step in cc
        | Front.request cmd rest n ↦
            let shorter : length rest + 4 ≤ length conn.incoming =
              rw n at (next_request-Shrinks conn.incoming) in
            let ((s', out), called, left) =
              bind-ok (respond app s cmd conn.outgoing) (go_on fuel conn rest) r (rw n at step) in
            elim (next_request-append conn.incoming more) [
              | inl (inl i) ↦ cc
              | inl (inr o) ↦ cc
              | inr ahead ↦
                  let ahead' : next_request (conn.incoming ++ more)
                      ≡ Next.request cmd (rest ++ more) =
                    rw n at ahead in
                  let conn' = record conn { incoming = rest; outgoing = out } in
                  serve_in_chunks fuel s' conn' more r g h left w p (omega arith)
                  ∙ sym (
                      (serve_step h s (receive conn more))
                      ∙ (rw ahead'
                          (ap (λ m. m >>= go_on h (receive conn more) (rest ++ more)) called)))
            ]
      ]
