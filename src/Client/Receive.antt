-- ===== src/Client/Receive.antt =====
-- `read_res` of lib/client/query.cpp: one reply message. `err` and `rv` are the `int32_t` results.
use greenis.Prelude.{
  ◌≤◌, ◌≡◌, List, [], ◌++◌, none, some, Run, ok, ◌>>=◌, arith, append-nil, ltb, le→ltb, ◌==◌,
  ==_refl, not, ◌&&◌, if◌then◌else◌, length, All,
}
use greenis.Prelude.Int.{ℤ, pos, negsuc}
use greenis.Bytes.{Bytes, le_bytes, le_word, length-le_bytes, le_word-le_bytes_four}
use greenis.Message.{k_max_msg}
use greenis.Reply.{Reply, encode}
use greenis.Client.Io.{ReadOutcome, read_full, chunks, joined, IsChunk, read_full-chunks}
use greenis.Client.Print.{Line, print_response}
use greenis.Client.Meaning.{render, IsReply}
use greenis.Client.RoundTrip.{print_response-encode}

-- The bytes of `rbuf` behind the body hold no reply; `print_response` is handed the body.
unfoldable pub read_res : List ReadOutcome → Run (List Line × ℤ)
unfolding read_full print_response
read_res os = do
  (header, os') ← read_full os 4
  elim header [
    | none ↦ ok ([], negsuc 0)
    | some bytes ↦
        let len = le_word bytes in
        let rest : Run (List Line × ℤ) = do
          (body, _) ← read_full os' len
          elim body [
            | none ↦ ok ([], negsuc 0)
            | some reply ↦ do
              (lines, rv) ← print_response reply len
              elim rv [
                | negsuc n ↦ ok (lines, negsuc n)
                | pos n ↦ ok (lines, if ltb 0 n && not (n == len) then negsuc 0 else pos n)
              ]
          ]
        in if ltb k_max_msg len then ok ([], negsuc 0) else rest
  ]

-- A reply message within the limit is printed as what it means, however the stream is cut.
pub read_res-message :
    (r : Reply) (header body : List Bytes) (os : List ReadOutcome)
    → IsReply r
    → length (encode r) ≤ k_max_msg
    → All IsChunk header
    → All IsChunk body
    → joined header ≡ le_bytes 4 (length (encode r))
    → joined body ≡ encode r
    → read_res (chunks header ++ (chunks body ++ os)) ≡ ok (render r, pos (length (encode r)))
unfolding read_res
read_res-message r header body os i h hc bc hj bj =
    rw
      (
        head_read,
        len,
        le→ltb k_max_msg (length (encode r)) h,
        body_read,
        len,
        printed,
        len,
        ==_refl (length (encode r)),
      )
      (ground arith)
  where
    head_read :
        read_full (chunks header ++ (chunks body ++ os)) 4
        ≡ ok (some (le_bytes 4 (length (encode r))), chunks body ++ os)
    head_read =
        rw (hj, length-le_bytes 4 (length (encode r))) at
          (read_full-chunks header (chunks body ++ os) hc)

    len : le_word (le_bytes 4 (length (encode r))) ≡ length (encode r)
    len = omega (arith, le_word-le_bytes_four (length (encode r)))

    body_read : read_full (chunks body ++ os) (length (encode r)) ≡ ok (some (encode r), os)
    body_read = rw bj at (read_full-chunks body os bc)

    printed : print_response (encode r) (length (encode r)) ≡ ok (render r, pos (length (encode r)))
    printed =
        rw (append-nil (encode r)) at
          (print_response-encode r [] (length (encode r)) i (omega arith) (omega arith))
