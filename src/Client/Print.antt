-- ===== src/Client/Print.antt =====
-- `print_response` of lib/client/query.cpp. What it prints is a list of lines, the messages about a
-- bad response included. `bytes` is what stands at the pointer `data`; reading behind it is a fault.
use greenis.Prelude.{
  ℕ, zero, suc, ◌+◌, ◌-◌, ◌%◌, ◌^◌, List, [], ◌∷◌, ◌++◌, Run, ok, fault, out_of_fuel, ◌>>=◌,
  require, ltb, leb, ◌==◌, if◌then◌else◌, length, take, drop, get_elem?,
}
use greenis.Prelude.Int.{ℤ, pos, negsuc, from_u64, from_u32}
use greenis.Bytes.{Bytes, le_word}
use greenis.Buffer.{Double, query_tag, tag_nil, tag_err, tag_str, tag_int, tag_dbl, tag_arr}

pub data Line : Type 0 where
  nil : Line
  err : ℤ → Bytes → Line
  str : Bytes → Line
  int : ℤ → Line
  dbl : Double → Line
  arr_begin : ℕ → Line
  arr_end : Line
  bad_response : Line

abbrev pub Printed : Type 0
Printed = Run (List Line × ℤ)

-- `msg("bad response"); return -1;`
abbrev pub rejected : Printed
rejected = ok (bad_response ∷ [], negsuc 0)

-- `memcpy(&word, &data[at], n)`
unfoldable pub peek : Bytes → ℕ → ℕ → Run ℕ
peek bytes at n =
    if leb (at + n) (length bytes) then ok (le_word (take n (drop at bytes))) else fault

-- `printf("%.*s")`: up to `n` characters, or up to a NUL.
unfoldable pub chars : ℕ → Bytes → Run Bytes
chars zero bytes = ok []
chars (suc n) [] = fault
chars (suc n) (b ∷ bytes) =
    let rest = chars n bytes >>= λ cs. ok (b ∷ cs) in if b == 0 then ok [] else rest

-- The precision is an `int`: a `uint32_t` of 2 ^ 31 or more is negative, and then there is none.
unfoldable pub printf_str : ℕ → Bytes → Run Bytes
unfolding chars
printf_str len bytes = if ltb len (2 ^ 31) then chars len bytes else chars (length bytes + 1) bytes

-- `1 + 8 + len` and `1 + 4 + len` in `uint32_t`.
abbrev pub add32 : ℕ → ℕ → ℕ
add32 a b = (a + b) % 2 ^ 32

-- `size - arr_bytes` in `size_t`.
abbrev pub sub64 : ℕ → ℕ → ℕ
sub64 a b = (a + 2 ^ 64 - b) % 2 ^ 64

unfoldable pub print_err : Bytes → ℕ → Printed
unfolding peek printf_str
print_err bytes size = if ltb size (1 + 8) then rejected else do
  code ← peek bytes 1 4
  len ← peek bytes (1 + 4) 4
  if ltb size (add32 (1 + 8) len) then rejected else do
    text ← printf_str len (drop (1 + 8) bytes)
    ok (err (from_u32 code) text ∷ [], from_u32 (add32 (1 + 8) len))

unfoldable pub print_str : Bytes → ℕ → Printed
unfolding peek printf_str
print_str bytes size = if ltb size (1 + 4) then rejected else do
  len ← peek bytes 1 4
  if ltb size (add32 (1 + 4) len) then rejected else do
    text ← printf_str len (drop (1 + 4) bytes)
    ok (str text ∷ [], from_u32 (add32 (1 + 4) len))

unfoldable pub print_int : Bytes → ℕ → Printed
unfolding peek
print_int bytes size =
    if ltb size (1 + 8)
    then rejected
    else do word ← peek bytes 1 8; ok (int (from_u64 word) ∷ [], pos (1 + 8))

unfoldable pub print_dbl : Bytes → ℕ → Printed
unfolding peek
print_dbl bytes size =
    if ltb size (1 + 8) then rejected else do word ← peek bytes 1 8; ok (dbl word ∷ [], pos (1 + 8))

-- The rest of the loop over an array, from the element at `arr_bytes`; `print` is the recursive
-- call.
unfoldable pub print_items : (Bytes → ℕ → Printed) → ℕ → Bytes → ℕ → ℕ → Printed
print_items print zero bytes size arr_bytes = ok (arr_end ∷ [], from_u32 (arr_bytes % 2 ^ 32))
print_items print (suc left) bytes size arr_bytes = do
  (lines, rv) ← print (drop arr_bytes bytes) (sub64 size arr_bytes)
  elim rv [
    | negsuc n ↦ ok (lines, negsuc n)
    | pos n ↦ do
      (more, total) ← print_items print left bytes size (arr_bytes + n)
      ok (lines ++ more, total)
  ]

unfoldable pub print_arr : (Bytes → ℕ → Printed) → Bytes → ℕ → Printed
unfolding peek print_items
print_arr print bytes size = if ltb size (1 + 4) then rejected else do
  len ← peek bytes 1 4
  (lines, total) ← print_items print len bytes size (1 + 4)
  ok (arr_begin len ∷ lines, total)

-- The `switch` on the tag.
unfoldable pub print_tagged : (Bytes → ℕ → Printed) → ℕ → Bytes → ℕ → Printed
unfolding print_err print_str print_int print_dbl print_arr
print_tagged print tag bytes size =
    if tag == query_tag tag_nil
    then ok (nil ∷ [], pos 1)
    else if tag == query_tag tag_err
    then print_err bytes size
    else if tag == query_tag tag_str
    then print_str bytes size
    else if tag == query_tag tag_int
    then print_int bytes size
    else if tag == query_tag tag_dbl
    then print_dbl bytes size
    else if tag == query_tag tag_arr
    then print_arr print bytes size
    else rejected

-- Each level of nesting takes one unit of `fuel`.
unfoldable pub print_nested : ℕ → Bytes → ℕ → Printed
unfolding print_tagged
print_nested zero bytes size = out_of_fuel
print_nested (suc fuel) bytes size =
    if ltb size 1
    then rejected
    else do tag ← require (get_elem? bytes 0); print_tagged (print_nested fuel) tag bytes size

unfoldable pub print_response : Bytes → ℕ → Printed
unfolding print_nested
print_response bytes size = print_nested (size + 1) bytes size
