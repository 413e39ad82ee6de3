-- ===== src/Buffer/Defs.antt =====
-- inc/server/buffer.h and lib/server/buffer.cpp: the growing byte buffer and the serialization of
-- replies, with the tags and error codes of inc/defs.h.
-- A `Buffer` is its bytes; a function that appends to `buf` or `out` returns the new bytes. A
-- `double` is the 64-bit pattern that its eight bytes hold: the buffer only copies it.

use greenis.Prelude.{
  ℕ, ◌+◌, ◌-◌, ◌%◌, [], ◌∷◌, ◌++◌, Run, ok, fault, ◌>>=◌, ◌>>◌, assert, require, leb, ◌==◌,
  if◌then◌else◌, length, take, drop, get_elem?,
}
use greenis.Prelude.Int.{ℤ, to_u64}
use greenis.Bytes.{Bytes, le_bytes}

abbrev pub Buffer : Type 0
Buffer = Bytes

-- The pattern of an IEEE 754 double.
abbrev pub Double : Type 0
Double = ℕ

pub data ErrorCode : Type 0 where
  err_unknown err_too_big err_bad_typ err_bad_arg : ErrorCode

abbrev pub error_code : ErrorCode → ℕ
error_code err_unknown = 1
error_code err_too_big = 2
error_code err_bad_typ = 3
error_code err_bad_arg = 4

pub data QueryTag : Type 0 where
  tag_nil tag_err tag_str tag_int tag_dbl tag_arr : QueryTag

abbrev pub query_tag : QueryTag → ℕ
query_tag tag_nil = 0
query_tag tag_err = 1
query_tag tag_str = 2
query_tag tag_int = 3
query_tag tag_dbl = 4
query_tag tag_arr = 5

-- `data` is what stands at the pointer; each caller passes the length of its array.
unfoldable pub buf_append : Buffer → Bytes → ℕ → Buffer
buf_append buf bytes len = buf ++ take len bytes

-- `erase` of the first `n` bytes; past the end that is undefined.
unfoldable pub buf_consume : Buffer → ℕ → Run Buffer
buf_consume buf n = if leb n (length buf) then ok (drop n buf) else fault

unfoldable pub buf_append_u8 : Buffer → ℕ → Buffer
buf_append_u8 buf byte = buf ++ (byte % 256) ∷ []

unfoldable pub buf_append_u32 : Buffer → ℕ → Buffer
unfolding buf_append
buf_append_u32 buf word = buf_append buf (le_bytes 4 word) 4

unfoldable pub buf_append_i64 : Buffer → ℤ → Buffer
unfolding buf_append
buf_append_i64 buf val = buf_append buf (le_bytes 8 (to_u64 val)) 8

unfoldable pub buf_append_dbl : Buffer → Double → Buffer
unfolding buf_append
buf_append_dbl buf val = buf_append buf (le_bytes 8 val) 8

unfoldable pub out_nil : Buffer → Buffer
unfolding buf_append_u8
out_nil out = buf_append_u8 out (query_tag tag_nil)

unfoldable pub out_str : Buffer → Bytes → ℕ → Buffer
unfolding buf_append_u8 buf_append_u32 buf_append
out_str out s size =
    let tagged = buf_append_u8 out (query_tag tag_str) in
    buf_append (buf_append_u32 tagged size) s size

unfoldable pub out_int : Buffer → ℤ → Buffer
unfolding buf_append_u8 buf_append_i64
out_int out val = buf_append_i64 (buf_append_u8 out (query_tag tag_int)) val

unfoldable pub out_dbl : Buffer → Double → Buffer
unfolding buf_append_u8 buf_append_dbl
out_dbl out val = buf_append_dbl (buf_append_u8 out (query_tag tag_dbl)) val

unfoldable pub out_err : Buffer → ErrorCode → Bytes → Buffer
unfolding buf_append_u8 buf_append_u32 buf_append
out_err out code msg =
    let tagged = buf_append_u8 out (query_tag tag_err) in
    let sized = buf_append_u32 (buf_append_u32 tagged (error_code code)) (length msg) in
    buf_append sized msg (length msg)

unfoldable pub out_arr : Buffer → ℕ → Buffer
unfolding buf_append_u8 buf_append_u32
out_arr out n = buf_append_u32 (buf_append_u8 out (query_tag tag_arr)) n

-- The buffer, and the position of the array's length: the `ctx` argument of `out_end_arr`.
unfoldable pub out_begin_arr : Buffer → Buffer × ℕ
unfolding buf_append_u8 buf_append_u32
out_begin_arr out =
    let opened = buf_append_u32 (buf_append_u8 out (query_tag tag_arr)) 0 in
    (opened, length opened - 4)

-- `memcpy(&out[pos], &word, 4)`; past the end that is undefined.
unfoldable pub write_u32 : Buffer → ℕ → ℕ → Run Buffer
write_u32 out at word =
    if leb (at + 4) (length out)
    then ok (take at out ++ (le_bytes 4 word ++ drop (at + 4) out))
    else fault

unfoldable pub out_end_arr : Buffer → ℕ → ℕ → Run Buffer
unfolding write_u32
out_end_arr out ctx n = do
  tag ← require (get_elem? out (ctx - 1))
  assert (tag == query_tag tag_arr)
  write_u32 out ctx n
