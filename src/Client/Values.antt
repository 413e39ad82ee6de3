-- ===== src/Client/Values.antt =====
-- `print_response` reads back the replies that hold no others.
use greenis.Prelude.{
  ℕ, suc, ◌+◌, ◌%◌, ◌^◌, ◌≤◌, ◌<◌, ◌≡◌, refl, sym, ap, ◌∙◌, [], ◌∷◌, ◌++◌, arith, ok, append_assoc,
  lt→ltb, le→ltb, le→leb, length, drop, length-append, take-append, drop-append,
}
use greenis.Prelude.Int.{ℤ, pos, from_u32, to_u64, to_u64-lt, from_u64-to_u64, IsInt64}
use greenis.Bytes.{
  Bytes, le_bytes, le_word, length-le_bytes, le_word-le_bytes_four, le_word-le_bytes_eight,
}
use greenis.Reply.{err, str, int, dbl, encode}
use greenis.Client.Print.{Line, peek, chars, printf_str, print_err, print_str, print_int, print_dbl}
use greenis.Client.Meaning.{until_nul}

pub peek-le_bytes :
    (n at : ℕ) (before behind : Bytes) (w : ℕ)
    → at ≡ length before
    → peek (before ++ (le_bytes n w ++ behind)) at n ≡ ok (le_word (le_bytes n w))
unfolding peek
peek-le_bytes n at before behind w h = rw (
  le→leb (at + n) (length (before ++ (le_bytes n w ++ behind))) (
      omega (
        arith,
        length-append before (le_bytes n w ++ behind),
        length-append (le_bytes n w) behind,
        length-le_bytes n w,
      )),
  drop-append at before (le_bytes n w ++ behind) h,
  take-append n (le_bytes n w) behind (sym (length-le_bytes n w)),
)

chars-append : (s behind : Bytes) → chars (length s) (s ++ behind) ≡ ok (until_nul s)
unfolding chars until_nul
chars-append [] behind = refl
chars-append (b ∷ s) behind = rw (chars-append s behind) (ground arith)

printf_str-append :
    (s behind : Bytes) → length s < 2 ^ 31 → printf_str (length s) (s ++ behind) ≡ ok (until_nul s)
unfolding printf_str
printf_str-append s behind h = rw (lt→ltb (length s) (2 ^ 31) h) (chars-append s behind)

pub print_str-encode :
    (s behind : Bytes) (size : ℕ)
    → 5 + length s ≤ size
    → size < 2 ^ 31
    → print_str (encode (str s) ++ behind) size
      ≡ ok (Line.str (until_nul s) ∷ [], pos (5 + length s))
unfolding print_str encode
print_str-encode s behind size h small = rw (
  le→ltb size 5 (omega arith),
  append_assoc (le_bytes 4 (length s)) s behind,
  peek-le_bytes 4 1 (2 ∷ []) (s ++ behind) (length s) refl,
  word,
  sum,
  le→ltb size (5 + length s) h,
  drop-append 4 (le_bytes 4 (length s)) (s ++ behind) (sym (length-le_bytes 4 (length s))),
  printf_str-append s behind (omega arith),
  lt→ltb (5 + length s) (2 ^ 31) (omega arith),
)
  where
    word : le_word (le_bytes 4 (length s)) ≡ length s
    word = omega (arith, le_word-le_bytes_four (length s))

    sum : (5 + length s) % 2 ^ 32 ≡ 5 + length s
    sum = omega arith

pub print_err-encode :
    (code : ℕ) (msg behind : Bytes) (size : ℕ)
    → code < 2 ^ 32
    → 9 + length msg ≤ size
    → size < 2 ^ 31
    → print_err (encode (err code msg) ++ behind) size
      ≡ ok (Line.err (from_u32 code) (until_nul msg) ∷ [], pos (9 + length msg))
unfolding print_err encode
print_err-encode code msg behind size c h small = rw (
  le→ltb size 9 (omega arith),
  append_assoc (le_bytes 4 code) (le_bytes 4 (length msg) ++ msg) behind,
  append_assoc (le_bytes 4 (length msg)) msg behind,
  peek-le_bytes 4 1 (1 ∷ []) (le_bytes 4 (length msg) ++ (msg ++ behind)) code refl,
  code_read,
  peek-le_bytes 4 5 (1 ∷ le_bytes 4 code) (msg ++ behind) (length msg) past_code,
  size_read,
  sum,
  le→ltb size (9 + length msg) h,
  text_at,
  printf_str-append msg behind (omega arith),
  lt→ltb (9 + length msg) (2 ^ 31) (omega arith),
)
  where
    code_read : le_word (le_bytes 4 code) ≡ code
    code_read = omega (arith, le_word-le_bytes_four code)

    size_read : le_word (le_bytes 4 (length msg)) ≡ length msg
    size_read = omega (arith, le_word-le_bytes_four (length msg))

    past_code : 5 ≡ suc (length (le_bytes 4 code))
    past_code = omega (arith, length-le_bytes 4 code)

    sum : (9 + length msg) % 2 ^ 32 ≡ 9 + length msg
    sum = omega arith

    text_at :
        drop 8 (le_bytes 4 code ++ (le_bytes 4 (length msg) ++ (msg ++ behind))) ≡ msg ++ behind
    text_at =
        ap (drop 8) (sym (append_assoc (le_bytes 4 code) (le_bytes 4 (length msg)) (msg ++ behind)))
        ∙ drop-append 8 (le_bytes 4 code ++ le_bytes 4 (length msg)) (msg ++ behind) (
            omega (
              arith,
              length-append (le_bytes 4 code) (le_bytes 4 (length msg)),
              length-le_bytes 4 code,
              length-le_bytes 4 (length msg),
            ))

pub print_int-encode :
    (v : ℤ) (behind : Bytes) (size : ℕ)
    → IsInt64 v
    → 9 ≤ size
    → print_int (encode (int v) ++ behind) size ≡ ok (Line.int v ∷ [], pos 9)
unfolding print_int encode
print_int-encode v behind size i h =
    rw (
      le→ltb size 9 h,
      peek-le_bytes 8 1 (3 ∷ []) behind (to_u64 v) refl,
      word,
      from_u64-to_u64 v i,
    )
  where
    word : le_word (le_bytes 8 (to_u64 v)) ≡ to_u64 v
    word = omega (arith, le_word-le_bytes_eight (to_u64 v), to_u64-lt v)

pub print_dbl-encode :
    (d : ℕ) (behind : Bytes) (size : ℕ)
    → d < 2 ^ 64
    → 9 ≤ size
    → print_dbl (encode (dbl d) ++ behind) size ≡ ok (Line.dbl d ∷ [], pos 9)
unfolding print_dbl encode
print_dbl-encode d behind size i h =
    rw (le→ltb size 9 h, peek-le_bytes 8 1 (4 ∷ []) behind d refl, word)
  where
    word : le_word (le_bytes 8 d) ≡ d
    word = omega (arith, le_word-le_bytes_eight d)
