-- ===== src/Client/Send.antt =====
-- `send_req` of lib/client/query.cpp: a command as one message. The array `wbuf` is the bytes that are
-- written into it, each write behind the one before; past its end that is a fault.
use greenis.Prelude.{
  ℕ, ◌+◌, ◌%◌, ◌^◌, ◌≤◌, ◌<◌, ◌≡◌, sym, ap, ◌∙◌, Bool, false, List, [], ◌∷◌, ◌++◌, arith, Run, ok,
  fault, append_assoc, append-nil, ltb, lt→ltb, le→ltb, if◌then◌else◌, length, length-append,
}
use greenis.Prelude.Int.{ℤ}
use greenis.Bytes.{Bytes, le_bytes, length-le_bytes}
use greenis.Message.{k_max_msg, message, length-message}
use greenis.Request.Format.{encode_strs, encode_req}
use greenis.Client.Io.{write_all}

-- `len += 4 + s.size()`, in `uint32_t`.
unfoldable pub message_size : ℕ → List Bytes → ℕ
message_size len [] = len
message_size len (s ∷ cmd) = message_size ((len + (4 + length s)) % 2 ^ 32) cmd

-- The strings, each behind its length.
unfoldable pub fill : Bytes → List Bytes → Bytes
fill wbuf [] = wbuf
fill wbuf (s ∷ cmd) = fill ((wbuf ++ le_bytes 4 (length s)) ++ s) cmd

-- `false` is -1. The bytes are those that went out.
unfoldable pub send_req : List ℤ → List Bytes → Run (Bool × Bytes)
unfolding message_size fill
send_req os cmd =
    let len = message_size 4 cmd in
    if ltb k_max_msg len
    then ok (false, [])
    else let wbuf = fill (le_bytes 4 len ++ le_bytes 4 (length cmd)) cmd in
      if ltb (4 + k_max_msg) (length wbuf) then fault else write_all os wbuf (4 + len)

message_size-encode_strs :
    (cmd : List Bytes) (len : ℕ)
    → len + length (encode_strs cmd) < 2 ^ 32
    → message_size len cmd ≡ len + length (encode_strs cmd)
unfolding message_size encode_strs
message_size-encode_strs [] len h = omega arith
message_size-encode_strs (s ∷ cmd) len h =
    let size = length-append (le_bytes 4 (length s)) (s ++ encode_strs cmd) in
    let size' = length-append s (encode_strs cmd) in
    let word = length-le_bytes 4 (length s) in
    let step : (len + (4 + length s)) % 2 ^ 32 ≡ len + (4 + length s) =
      omega (arith, size, size', word) in
    rw step (
      message_size-encode_strs cmd (len + (4 + length s)) (omega (arith, size, size', word))
      ∙ omega (arith, size, size', word))

fill-encode_strs : (cmd : List Bytes) (wbuf : Bytes) → fill wbuf cmd ≡ wbuf ++ encode_strs cmd
unfolding fill encode_strs
fill-encode_strs [] wbuf = sym (append-nil wbuf)
fill-encode_strs (s ∷ cmd) wbuf =
    fill-encode_strs cmd ((wbuf ++ le_bytes 4 (length s)) ++ s)
    ∙ append_assoc (wbuf ++ le_bytes 4 (length s)) s (encode_strs cmd)
    ∙ append_assoc wbuf (le_bytes 4 (length s)) (s ++ encode_strs cmd)

message_size-encode_req :
    (cmd : List Bytes)
    → length (encode_req cmd) < 2 ^ 32
    → message_size 4 cmd ≡ length (encode_req cmd)
unfolding encode_req
message_size-encode_req cmd h =
    let size = length-append (le_bytes 4 (length cmd)) (encode_strs cmd) in
    let word = length-le_bytes 4 (length cmd) in
    message_size-encode_strs cmd 4 (omega (arith, size, word)) ∙ omega (arith, size, word)

fill-message :
    (cmd : List Bytes)
    → fill (le_bytes 4 (length (encode_req cmd)) ++ le_bytes 4 (length cmd)) cmd
      ≡ message (encode_req cmd)
unfolding message encode_req
fill-message cmd =
    fill-encode_strs cmd _
    ∙ append_assoc (le_bytes 4 (length (encode_req cmd))) (le_bytes 4 (length cmd))
        (encode_strs cmd)

-- A command whose message body fits is written as that one message.
pub send_req-message :
    (os : List ℤ) (cmd : List Bytes)
    → length (encode_req cmd) ≤ k_max_msg
    → send_req os cmd ≡ write_all os (message (encode_req cmd)) (length (message (encode_req cmd)))
unfolding send_req
send_req-message os cmd h =
    rw
      (
        message_size-encode_req cmd (omega arith),
        le→ltb k_max_msg (length (encode_req cmd)) h,
        fill-message cmd,
        le→ltb (4 + k_max_msg) (length (message (encode_req cmd)))
            (omega (arith, length-message (encode_req cmd))),
      )
      (ap (write_all os (message (encode_req cmd))) (sym (length-message (encode_req cmd))))

-- A command that is too long is refused, and nothing is written.
pub send_req-too_long :
    (os : List ℤ) (cmd : List Bytes)
    → k_max_msg < length (encode_req cmd)
    → length (encode_req cmd) < 2 ^ 32
    → send_req os cmd ≡ ok (false, [])
unfolding send_req
send_req-too_long os cmd h small =
    rw (message_size-encode_req cmd small, lt→ltb k_max_msg (length (encode_req cmd)) h)
