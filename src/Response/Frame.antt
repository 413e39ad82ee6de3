-- ===== src/Response/Frame.antt =====
-- Around any reply, `response_begin` and `response_end` make one message of the protocol.
use greenis.Prelude.{
  ◌+◌, ◌≡◌, ◌++◌, arith, ok, append_assoc, ltb, le→leb, if◌then◌else◌, Bool-cases, inl, inr, length,
  length-append, take-append,
}
use greenis.Bytes.{Bytes, le_bytes, length-le_bytes}
use greenis.Buffer.{Buffer, err_too_big, out_err, write_u32, write_u32-append}
use greenis.Reply.{err, encode, buf_append_u32-le_bytes, out_err-encode}
use greenis.Message.{k_max_msg, message}
use greenis.Response.{literal, response_begin, response_size, resize, response_end}

-- The body that is sent for a reply.
unfoldable pub limited : Bytes → Bytes
limited reply =
    if ltb k_max_msg (length reply) then encode (err 2 (literal "response is too big.")) else reply

response_size-append :
    (out reply : Buffer)
    → response_size ((out ++ le_bytes 4 0) ++ reply) (length out) ≡ length reply
unfolding response_size
response_size-append out reply = omega (
  arith,
  length-append (out ++ le_bytes 4 0) reply,
  length-append out (le_bytes 4 0),
  length-le_bytes 4 0,
)

resize-append :
    (out reply : Buffer)
    → resize ((out ++ le_bytes 4 0) ++ reply) (length out + 4) ≡ out ++ le_bytes 4 0
unfolding resize
resize-append out reply =
    let kept : length out + 4 ≡ length (out ++ le_bytes 4 0) =
      omega (arith, length-append out (le_bytes 4 0), length-le_bytes 4 0) in
    rw (
      le→leb (length out + 4) (length ((out ++ le_bytes 4 0) ++ reply))
          (omega (arith, kept, length-append (out ++ le_bytes 4 0) reply)),
      take-append (length out + 4) (out ++ le_bytes 4 0) reply kept,
    )

header_filled :
    (out body : Buffer)
    → write_u32 ((out ++ le_bytes 4 0) ++ body) (length out) (length body)
      ≡ ok (out ++ message body)
unfolding message
header_filled out body =
    rw (append_assoc out (le_bytes 4 0) body)
      (write_u32-append out (le_bytes 4 0) body (length body) (length-le_bytes 4 0))

-- Whatever the command appended, the buffer has behind its old bytes exactly one message: the reply,
-- or in place of one above the limit the error that says so.
pub response_frame :
    (out reply : Buffer)
    → response_end ((response_begin out).0 ++ reply) (response_begin out).1
      ≡ ok (out ++ message (limited reply))
unfolding response_begin response_end limited
response_frame out reply = elim (Bool-cases (ltb k_max_msg (length reply))) [
  | inl large ↦
      let body = encode (err 2 (literal "response is too big.")) in
      let cut : out_err (resize ((out ++ le_bytes 4 0) ++ reply) (length out + 4)) err_too_big
            (literal "response is too big.")
          ≡ (out ++ le_bytes 4 0) ++ body =
        rw (resize-append out reply)
          (out_err-encode (out ++ le_bytes 4 0) err_too_big (literal "response is too big.")) in
      rw
        (
          buf_append_u32-le_bytes out 0,
          response_size-append out reply,
          large,
          cut,
          response_size-append out body,
        )
        (header_filled out body)
  | inr small ↦
      rw (buf_append_u32-le_bytes out 0, response_size-append out reply, small)
        (header_filled out reply)
]
