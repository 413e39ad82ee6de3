-- ===== src/Client/RoundTrip.antt =====
-- `print_response` reads the reply format back, nested arrays included.
use greenis.Prelude.{
  ℕ, zero, suc, ◌+◌, ◌%◌, ◌^◌, ◌≤◌, ◌<◌, ◌≡◌, refl, sym, ap, ◌∙◌, [], ◌∷◌, ◌++◌, arith, ok,
  append_assoc, lt→ltb, le→ltb, length, drop, length-append, drop-append, drop-add,
}
use greenis.Prelude.Int.{pos, to_u64}
use greenis.Bytes.{Bytes, le_bytes, le_word, length-le_bytes, le_word-le_bytes_four}
use greenis.Reply.{
  Reply, Items, nil, err, str, int, dbl, arr, end, item, count, encode, encode_items,
}
use greenis.Client.Print.{
  Line, Printed, sub64, print_items, print_arr, print_tagged, print_nested, print_response,
}
use greenis.Client.Meaning.{render, render_items, IsReply, AreReplies}
use greenis.Client.Values.{
  peek-le_bytes, print_str-encode, print_err-encode, print_int-encode, print_dbl-encode,
}

-- What the recursive call owes on replies shorter than `size`.
abbrev Reads : (Bytes → ℕ → Printed) → ℕ → Type 0
Reads print size =
    (r : Reply) (behind : Bytes) (n : ℕ)
    → IsReply r
    → length (encode r) ≤ n
    → n < size
    → print (encode r ++ behind) n ≡ ok (render r, pos (length (encode r)))

print_items-encode :
    (print : Bytes → ℕ → Printed) (rs : Items) (bytes behind : Bytes) (size at : ℕ)
    → Reads print size
    → drop at bytes ≡ encode_items rs ++ behind
    → AreReplies rs
    → at + length (encode_items rs) ≤ size
    → 0 < at
    → size < 2 ^ 31
    → print_items print (count rs) bytes size at
      ≡ ok (render_items rs ++ Line.arr_end ∷ [], pos (at + length (encode_items rs)))
unfolding print_items encode render count
print_items-encode print end bytes behind size at reads e i h p small =
    rw (total, lt→ltb at (2 ^ 31) (omega arith))
      (ap (λ n. ok (Line.arr_end ∷ [], pos n)) (omega arith))
  where
    total : at % 2 ^ 32 ≡ at
    total = omega arith
print_items-encode print (item r rs) bytes behind size at reads e i h p small =
    let len = length-append (encode r) (encode_items rs) in
    rw
      (
        first,
        reads r (encode_items rs ++ behind) (sub64 size at) i.0 (omega (arith, len))
            (omega (arith, len)),
        print_items-encode print rs bytes behind size (at + length (encode r)) reads next i.1
            (omega (arith, len)) (omega arith) small,
        append_assoc (render r) (render_items rs) (Line.arr_end ∷ []),
      )
      (ap (λ n. ok (render r ++ (render_items rs ++ Line.arr_end ∷ []), pos n))
        (omega (arith, len)))
  where
    first : drop at bytes ≡ encode r ++ (encode_items rs ++ behind)
    first = e ∙ append_assoc (encode r) (encode_items rs) behind

    next : drop (at + length (encode r)) bytes ≡ encode_items rs ++ behind
    next =
        drop-add at (length (encode r)) bytes
        ∙ ap (drop (length (encode r))) first
        ∙ drop-append (length (encode r)) (encode r) (encode_items rs ++ behind) refl

print_arr-encode :
    (print : Bytes → ℕ → Printed) (rs : Items) (behind : Bytes) (size : ℕ)
    → Reads print size
    → IsReply (arr rs)
    → 5 + length (encode_items rs) ≤ size
    → size < 2 ^ 31
    → print_arr print (encode (arr rs) ++ behind) size
      ≡ ok (render (arr rs), pos (5 + length (encode_items rs)))
unfolding print_arr encode render
print_arr-encode print rs behind size reads i h small = rw (
  le→ltb size 5 (omega arith),
  append_assoc (le_bytes 4 (count rs)) (encode_items rs) behind,
  peek-le_bytes 4 1 (5 ∷ []) (encode_items rs ++ behind) (count rs) refl,
  counted,
  print_items-encode print rs (5 ∷ (le_bytes 4 (count rs) ++ (encode_items rs ++ behind))) behind
      size 5 reads items i.1 h (omega arith) small,
)
  where
    counted : le_word (le_bytes 4 (count rs)) ≡ count rs
    counted = omega (arith, le_word-le_bytes_four (count rs))

    items :
        drop 4 (le_bytes 4 (count rs) ++ (encode_items rs ++ behind)) ≡ encode_items rs ++ behind
    items = drop-append 4 (le_bytes 4 (count rs)) _ (sym (length-le_bytes 4 (count rs)))

pub print_nested_step :
    (fuel tag : ℕ) (behind : Bytes) (size : ℕ)
    → 0 < size
    → print_nested (suc fuel) (tag ∷ behind) size
      ≡ print_tagged (print_nested fuel) tag (tag ∷ behind) size
unfolding print_nested
print_nested_step fuel tag behind size h = rw (le→ltb size 1 h)

length-encode_err : (code : ℕ) (msg : Bytes) → length (encode (err code msg)) ≡ 9 + length msg
unfolding encode
length-encode_err code msg = omega (
  arith,
  length-append (le_bytes 4 code) (le_bytes 4 (length msg) ++ msg),
  length-append (le_bytes 4 (length msg)) msg,
  length-le_bytes 4 code,
  length-le_bytes 4 (length msg),
)

length-encode_str : (s : Bytes) → length (encode (str s)) ≡ 5 + length s
unfolding encode
length-encode_str s =
    omega (arith, length-append (le_bytes 4 (length s)) s, length-le_bytes 4 (length s))

length-encode_arr : (rs : Items) → length (encode (arr rs)) ≡ 5 + length (encode_items rs)
unfolding encode
length-encode_arr rs =
    omega
      (arith, length-append (le_bytes 4 (count rs)) (encode_items rs), length-le_bytes 4 (count rs))

print_nested-encode :
    (fuel : ℕ) (r : Reply) (behind : Bytes) (size : ℕ)
    → IsReply r
    → length (encode r) ≤ size
    → size < 2 ^ 31
    → size < fuel
    → print_nested fuel (encode r ++ behind) size ≡ ok (render r, pos (length (encode r)))
unfolding print_tagged encode render
print_nested-encode zero r behind size i h small f = absurd (omega arith)
print_nested-encode (suc fuel) nil behind size i h small f =
    print_nested_step fuel 0 behind size (omega arith)
print_nested-encode (suc fuel) (err code msg) behind size i h small f =
    let len = length-encode_err code msg in
    print_nested_step fuel 1 _ size (omega arith)
    ∙ print_err-encode code msg behind size i (omega (arith, len)) small
    ∙ ap (λ n. ok (render (err code msg), pos n)) (sym len)
print_nested-encode (suc fuel) (str s) behind size i h small f =
    let len = length-encode_str s in
    print_nested_step fuel 2 _ size (omega arith)
    ∙ print_str-encode s behind size (omega (arith, len)) small
    ∙ ap (λ n. ok (render (str s), pos n)) (sym len)
print_nested-encode (suc fuel) (int v) behind size i h small f =
    let len = length-le_bytes 8 (to_u64 v) in
    print_nested_step fuel 3 _ size (omega arith)
    ∙ print_int-encode v behind size i (omega (arith, len))
    ∙ ap (λ n. ok (render (int v), pos (suc n))) (sym len)
print_nested-encode (suc fuel) (dbl d) behind size i h small f =
    let len = length-le_bytes 8 d in
    print_nested_step fuel 4 _ size (omega arith)
    ∙ print_dbl-encode d behind size i (omega (arith, len))
    ∙ ap (λ n. ok (render (dbl d), pos (suc n))) (sym len)
print_nested-encode (suc fuel) (arr rs) behind size i h small f =
    let len = length-encode_arr rs in
    print_nested_step fuel 5 _ size (omega arith)
    ∙ print_arr-encode (print_nested fuel) rs behind size
        (λ r after n j k m. print_nested-encode fuel r after n j k (omega arith) (omega arith)) i
        (omega (arith, len)) small
    ∙ ap (λ n. ok (render (arr rs), pos n)) (sym len)

-- On a reply of the format, nested arrays included, with anything behind it, `print_response` prints
-- what the reply means and returns its length.
pub print_response-encode :
    (r : Reply) (behind : Bytes) (size : ℕ)
    → IsReply r
    → length (encode r) ≤ size
    → size < 2 ^ 31
    → print_response (encode r ++ behind) size ≡ ok (render r, pos (length (encode r)))
unfolding print_response
print_response-encode r behind size i h small =
    print_nested-encode (size + 1) r behind size i h small (omega arith)
