-- ===== src/Conn/Frames.antt =====
-- What stands at the front of the received bytes: not yet a request, no request, a header that is followed
-- by nothing and asks for nothing, or a request.
use greenis.Prelude.{
  ℕ, ◌+◌, ◌≤◌, ◌<◌, ◌≡◌, ◌⊎◌, refl, sym, Bool, true, false, List, [], ◌++◌, Option, none, some, Run,
  ok, fault, out_of_fuel, ◌>>=◌, arith, append_assoc, ltb, le→leb, ltb→le, le→ltb, ltb→lt, lt→ltb,
  Bool-cases, Option-cases, inl, inr, if◌then◌else◌, length, take, drop, length-append,
  take-append-le, drop-append-le, length-drop, take-append, drop-append, drop-add,
}
use greenis.Bytes.{Bytes, le_bytes, le_word, length-le_bytes, le_word-le_bytes_four}
use greenis.Buffer.{Buffer, buf_consume}
use greenis.Message.{k_max_msg, message}
use greenis.Request.{parse_req}
use greenis.Request.Format.{encode_req, encode_strs, IsCommand, parse_req-encode_req}
use greenis.Response.{response_begin, response_end}
use greenis.App.{App}
use greenis.Conn.{Conn, try_one_request}

pub data Next : Type 0 where
  incomplete bad overrun : Next
  request : List Bytes → Bytes → Next

unfoldable pub parsed : Option (List Bytes) → Bytes → Next
parsed none rest = bad
parsed (some cmd) rest = request cmd rest

unfoldable pub after_header : ℕ → Bytes → Next
unfolding parsed
after_header len bytes =
    if ltb k_max_msg len
    then bad
    else if ltb (length bytes) (4 + len)
    then incomplete
    else if ltb 4 (length bytes)
    then parsed (parse_req (take len (drop 4 bytes)) []) (drop (4 + len) bytes)
    else overrun

unfoldable pub next_request : Bytes → Next
unfolding after_header
next_request bytes =
    if ltb (length bytes) 4 then incomplete else after_header (le_word (take 4 bytes)) bytes

-- More bytes behind a request or behind bytes that are refused do not change what is in front.
unfoldable pub extend : Next → Bytes → Next
extend incomplete more = incomplete
extend bad more = bad
extend overrun more = overrun
extend (request cmd rest) more = request cmd (rest ++ more)

-- What more bytes may still change.
abbrev pub IsUnsettled : Next → Type 0
IsUnsettled n = (n ≡ incomplete) ⊎ (n ≡ overrun)

extend-parsed :
    (o : Option (List Bytes)) (rest more : Bytes)
    → extend (parsed o rest) more ≡ parsed o (rest ++ more)
unfolding extend parsed
extend-parsed none rest more = refl
extend-parsed (some cmd) rest more = refl

after_header-append :
    (len : ℕ) (bytes more : Bytes)
    → IsUnsettled (after_header len bytes)
      ⊎ (after_header len (bytes ++ more) ≡ extend (after_header len bytes) more)
unfolding after_header
after_header-append len bytes more = elim (Bool-cases (ltb k_max_msg len)) [
  | inl large ↦ inr (rw large (unfold extend in refl))
  | inr small ↦ elim (Bool-cases (ltb (length bytes) (4 + len))) [
    | inl short ↦ inl (inl (rw (small, short)))
    | inr long ↦
        let room : 4 + len ≤ length bytes = ltb→le _ _ long in
        elim (Bool-cases (ltb 4 (length bytes))) [
          | inr edge ↦ inl (inr (rw (small, long, edge)))
          | inl beyond ↦ inr (
              rw (
                small,
                long,
                beyond,
                le→ltb (length (bytes ++ more)) (4 + len) (omega (arith, length-append bytes more)),
                lt→ltb 4 (length (bytes ++ more))
                    (omega (arith, length-append bytes more, ltb→lt _ _ beyond)),
                drop-append-le 4 bytes more (omega arith),
                take-append-le len (drop 4 bytes) more (omega (arith, length-drop 4 bytes)),
                drop-append-le (4 + len) bytes more room,
                extend-parsed (parse_req (take len (drop 4 bytes)) []) (drop (4 + len) bytes) more,
              ))
        ]
  ]
]

pub next_request-append :
    (bytes more : Bytes)
    → IsUnsettled (next_request bytes)
      ⊎ (next_request (bytes ++ more) ≡ extend (next_request bytes) more)
unfolding next_request
next_request-append bytes more = elim (Bool-cases (ltb (length bytes) 4)) [
  | inl short ↦ inl (inl (rw short))
  | inr long ↦
      rw
        (
          long,
          le→ltb (length (bytes ++ more)) 4
              (omega (arith, length-append bytes more, ltb→le _ _ long)),
          take-append-le 4 bytes more (ltb→le _ _ long),
        )
        (after_header-append (le_word (take 4 bytes)) bytes more)
]

-- A message of a command is a request, with what follows it left.
pub next_request-message :
    (cmd : List Bytes) (rest : Bytes)
    → IsCommand cmd
    → length (encode_req cmd) ≤ k_max_msg
    → next_request (message (encode_req cmd) ++ rest) ≡ request cmd rest
unfolding next_request after_header message parsed encode_req
next_request-message cmd rest c h = rw (
  append_assoc (le_bytes 4 (length body)) body rest,
  le→ltb (length (le_bytes 4 (length body) ++ (body ++ rest))) 4 (omega (arith, size, size', word)),
  take-append 4 (le_bytes 4 (length body)) (body ++ rest) (sym word),
  len,
  le→ltb k_max_msg (length body) h,
  le→ltb (length (le_bytes 4 (length body) ++ (body ++ rest))) (4 + length body)
      (omega (arith, size, size', word)),
  lt→ltb 4 (length (le_bytes 4 (length body) ++ (body ++ rest)))
      (omega (arith, size, size', word, some_body)),
  drop-add 4 (length body) (le_bytes 4 (length body) ++ (body ++ rest)),
  drop-append 4 (le_bytes 4 (length body)) (body ++ rest) (sym word),
  take-append (length body) body rest refl,
  drop-append (length body) body rest refl,
  parse_req-encode_req cmd c.few c.short,
)
  where
    body : Bytes
    body = encode_req cmd

    word : length (le_bytes 4 (length body)) ≡ 4
    word = length-le_bytes 4 (length body)

    size :
        length (le_bytes 4 (length body) ++ (body ++ rest))
        ≡ length (le_bytes 4 (length body)) + length (body ++ rest)
    size = length-append (le_bytes 4 (length body)) (body ++ rest)

    size' : length (body ++ rest) ≡ length body + length rest
    size' = length-append body rest

    some_body : 0 < length body
    some_body = omega (
      arith,
      length-append (le_bytes 4 (length cmd)) (encode_strs cmd),
      length-le_bytes 4 (length cmd),
    )

    len : le_word (le_bytes 4 (length body)) ≡ length body
    len = omega (arith, le_word-le_bytes_four (length body))

module _ (app : App) where
  open app use {State, do_request}

  -- One command with its message header, as `try_one_request` runs it.
  unfoldable pub respond : State → List Bytes → Buffer → Run (State × Buffer)
  respond s cmd out = do
    (s', filled) ← do_request s cmd (response_begin out).0
    o ← response_end filled (response_begin out).1
    ok (s', o)

  -- What one call of `try_one_request` does, by what stands in front.
  unfoldable pub outcome : Next → State → Conn → Run (Bool × Conn × State)
  unfolding respond
  outcome incomplete s conn = ok (false, conn, s)
  outcome bad s conn = ok (false, record conn { want_close = true }, s)
  outcome overrun s conn = fault
  outcome (request cmd rest) s conn = respond s cmd conn.outgoing >>= λ (s', out).
      ok (true, record conn { incoming = rest; outgoing = out }, s')

  -- The request is consumed after its response is complete.
  consumed :
      (called : Run (State × Buffer)) (conn : Conn) (pos : ℕ) (rest : Bytes)
      → ◌≡◌ {A = Run (Bool × Conn × State)}
          (called >>= λ (s', filled). response_end filled pos >>= λ out.
            ok (true, record conn { incoming = rest; outgoing = out }, s'))
          (◌>>=◌ {A = State × Buffer}
            (called >>= λ (s', filled). response_end filled pos >>= λ o. ok (s', o))
            (λ (s', out). ok (true, record conn { incoming = rest; outgoing = out }, s')))
  consumed fault conn pos rest = refl
  consumed out_of_fuel conn pos rest = refl
  consumed (ok (s', filled)) conn pos rest = ended (response_end filled pos)
    where
      ended :
          (e : Run Buffer)
          → ◌≡◌ {A = Run (Bool × Conn × State)}
              (e >>= λ out. ok (true, record conn { incoming = rest; outgoing = out }, s'))
              (◌>>=◌ {A = State × Buffer}
                (e >>= λ o. ok (s', o))
                (λ (s', out). ok (true, record conn { incoming = rest; outgoing = out }, s')))
      ended fault = refl
      ended out_of_fuel = refl
      ended (ok o) = refl

  pub try_one_request-outcome :
      (s : State) (conn : Conn)
      → try_one_request app s conn ≡ outcome (next_request conn.incoming) s conn
  unfolding try_one_request next_request outcome after_header parsed buf_consume respond
  try_one_request-outcome s conn = elim (Bool-cases (ltb (length conn.incoming) 4)) [
    | inl short ↦ simp short
    | inr long ↦
        let len = le_word (take 4 conn.incoming) in
        elim (Bool-cases (ltb k_max_msg len)) [
          | inl large ↦ simp (long, large)
          | inr small ↦ elim (Bool-cases (ltb (length conn.incoming) (4 + len))) [
            | inl part ↦ simp (long, small, part)
            | inr whole ↦ elim (Bool-cases (ltb 4 (length conn.incoming))) [
              | inr edge ↦ simp (long, small, whole, edge)
              | inl beyond ↦ elim (Option-cases (parse_req (take len (drop 4 conn.incoming)) [])) [
                | inl n ↦ simp (long, small, whole, beyond, n)
                | inr (cmd, e) ↦
                    simp
                      (
                        long,
                        small,
                        whole,
                        beyond,
                        e,
                        le→leb (4 + len) (length conn.incoming) (ltb→le _ _ whole),
                      )
                      (consumed (do_request s cmd (response_begin conn.outgoing).0) conn
                        (response_begin conn.outgoing).1 (drop (4 + len) conn.incoming))
              ]
            ]
          ]
        ]
  ]
