-- ===== src/Response.antt =====
-- Message framing of replies: `response_begin`, `response_size`, `response_end` of
-- lib/server/response.cpp.
pub mod Frame
use Prim.Native.String.{String}
use Prim.Native.Char.{code}
use greenis.Prelude.{
  ℕ, ◌+◌, ◌-◌, List, [], ◌∷◌, ◌++◌, Run, ok, fault, ◌>>=◌, ltb, leb, if◌then◌else◌, length, take,
  replicate,
}
use greenis.Bytes.{Bytes}
use greenis.Message.{k_max_msg}
use greenis.Buffer.{Buffer, err_too_big, buf_append_u32, out_err, write_u32}

-- The bytes of an ASCII literal.
abbrev pub literal : String → Bytes
literal String.[] = []
literal (String.◌∷◌ c s) = code c ∷ literal s

-- The buffer, and the position of the message header.
unfoldable pub response_begin : Buffer → Buffer × ℕ
unfolding buf_append_u32
response_begin out = (buf_append_u32 out 0, length out)

unfoldable pub response_size : Buffer → ℕ → ℕ
response_size out header = length out - header - 4

-- `out.resize(n)`
unfoldable pub resize : Buffer → ℕ → Buffer
resize out n = if leb n (length out) then take n out else out ++ replicate (n - length out) 0

unfoldable pub response_end : Buffer → ℕ → Run Buffer
unfolding response_size resize out_err write_u32
response_end out header =
    if ltb k_max_msg (response_size out header)
    then (let cut =
          out_err (resize out (header + 4)) err_too_big (literal "response is too big.") in
        write_u32 cut header (response_size cut header))
    else write_u32 out header (response_size out header)
