-- ===== src/Buffer/Patch.antt =====
-- Filling in a length field that was reserved: `out_end_arr`, and `response_end` after it.
use greenis.Prelude.{
  ℕ, ◌+◌, ◌≤◌, ◌≡◌, refl, ap, ap₂, ◌∙◌, sym, ◌++◌, arith, ok, append_assoc, length, drop,
  length-append, take-append, drop-append, le→leb,
}
use greenis.Bytes.{Bytes, le_bytes}
use greenis.Buffer.Defs.{write_u32}

-- A write over four bytes replaces them, and nothing before or behind them.
pub write_u32-append :
    (xs ys zs : Bytes) (word : ℕ)
    → length ys ≡ 4
    → write_u32 (xs ++ (ys ++ zs)) (length xs) word ≡ ok (xs ++ (le_bytes 4 word ++ zs))
unfolding write_u32
write_u32-append xs ys zs word h = rw (le→leb (length xs + 4) (length (xs ++ (ys ++ zs))) room) (
    ap₂ (λ a b. ok (a ++ (le_bytes 4 word ++ b))) (take-append (length xs) xs (ys ++ zs) refl)
      behind)
  where
    room : length xs + 4 ≤ length (xs ++ (ys ++ zs))
    room = omega (arith, length-append xs (ys ++ zs), length-append ys zs)

    behind : drop (length xs + 4) (xs ++ (ys ++ zs)) ≡ zs
    behind =
        ap (drop (length xs + 4)) (sym (append_assoc xs ys zs))
        ∙ drop-append (length xs + 4) (xs ++ ys) zs (omega (arith, length-append xs ys))
