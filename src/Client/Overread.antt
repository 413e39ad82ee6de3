-- ===== src/Client/Overread.antt =====
-- `size < 1 + 8 + len` and `size < 1 + 4 + len` are computed in `uint32_t`.
use greenis.Prelude.{
  ℕ, ◌+◌, ◌-◌, ◌%◌, ◌^◌, ◌≤◌, ◌<◌, ◌≡◌, refl, sym, ◌∙◌, [], ◌∷◌, ok, fault, arith, append-nil,
  le→ltb, drop, drop-append,
}
use greenis.Bytes.{le_bytes, le_word, length-le_bytes, le_word-le_bytes_four}
use greenis.Client.Print.{peek, print_str, print_tagged, print_response}
use greenis.Client.Values.{peek-le_bytes}
use greenis.Client.RoundTrip.{print_nested_step}

print_str-wraps :
    (len : ℕ) → 2 ^ 32 - 5 ≤ len → len < 2 ^ 32 → print_str (2 ∷ le_bytes 4 len) 5 ≡ fault
unfolding print_str
print_str-wraps len lo hi = rw (
  declared,
  word,
  le→ltb 5 ((5 + len) % 2 ^ 32) (omega arith),
  nothing_left,
  le→ltb len (2 ^ 31) (omega arith),
)
  where
    declared : peek (2 ∷ le_bytes 4 len) 1 4 ≡ ok (le_word (le_bytes 4 len))
    declared = rw (append-nil (le_bytes 4 len)) at (peek-le_bytes 4 1 (2 ∷ []) [] len refl)

    word : le_word (le_bytes 4 len) ≡ len
    word = omega (arith, le_word-le_bytes_four len)

    nothing_left : drop 4 (le_bytes 4 len) ≡ []
    nothing_left =
        rw (append-nil (le_bytes 4 len)) at
          (drop-append 4 (le_bytes 4 len) [] (sym (length-le_bytes 4 len)))

-- A string reply that declares 2 ^ 32 - 5 bytes or more and has none passes the length check, and
-- `printf` reads behind the reply.
pub print_response-overread :
    (len : ℕ) → 2 ^ 32 - 5 ≤ len → len < 2 ^ 32 → print_response (2 ∷ le_bytes 4 len) 5 ≡ fault
unfolding print_response print_tagged
print_response-overread len lo hi =
    print_nested_step 5 2 (le_bytes 4 len) 5 (omega arith) ∙ print_str-wraps len lo hi
