-- ===== src/Reply/Append.antt =====
-- Each serialization function appends exactly one reply of the format.
use greenis.Prelude.{
  ℕ, ◌-◌, ◌≡◌, refl, ap₂, sym, [], ◌∷◌, ◌++◌, arith, ok, append_assoc, length, take-length,
  take-length_self, length-append, get_elem?, get_elem?-append, some,
}
use greenis.Prelude.Int.{ℤ}
use greenis.Bytes.{Bytes, le_bytes, length-le_bytes}
use greenis.Buffer.{
  Buffer, Double, ErrorCode, error_code, buf_append_u32, out_nil, out_str, out_int, out_dbl,
  out_err, out_arr, out_begin_arr, out_end_arr, write_u32-append,
}
use greenis.Reply.Defs.{nil, err, str, int, dbl, encode}

pub buf_append_u32-le_bytes : (buf : Buffer) (w : ℕ) → buf_append_u32 buf w ≡ buf ++ le_bytes 4 w
unfolding buf_append_u32
buf_append_u32-le_bytes buf w = rw (take-length 4 (le_bytes 4 w) (sym (length-le_bytes 4 w)))

pub out_nil-encode : (out : Buffer) → out_nil out ≡ out ++ encode nil
unfolding out_nil encode
out_nil-encode out = refl

pub out_str-encode : (out : Buffer) (s : Bytes) → out_str out s (length s) ≡ out ++ encode (str s)
unfolding out_str encode buf_append_u32 le_bytes
out_str-encode out s = simp (append_assoc, take-length_self)

pub out_int-encode : (out : Buffer) (v : ℤ) → out_int out v ≡ out ++ encode (int v)
unfolding out_int encode le_bytes
out_int-encode out v = simp (append_assoc)

pub out_dbl-encode : (out : Buffer) (d : Double) → out_dbl out d ≡ out ++ encode (dbl d)
unfolding out_dbl encode le_bytes
out_dbl-encode out d = simp (append_assoc)

pub out_err-encode :
    (out : Buffer) (code : ErrorCode) (msg : Bytes)
    → out_err out code msg ≡ out ++ encode (err (error_code code) msg)
unfolding out_err encode buf_append_u32 le_bytes
out_err-encode out code msg = simp (append_assoc, take-length_self)

pub out_arr-le_bytes : (out : Buffer) (n : ℕ) → out_arr out n ≡ out ++ 5 ∷ le_bytes 4 n
unfolding out_arr le_bytes
out_arr-le_bytes out n = simp (append_assoc)

opened_lem :
    (out : Buffer) → out_begin_arr out ≡ ((out ++ 5 ∷ []) ++ le_bytes 4 0, length (out ++ 5 ∷ []))
unfolding out_begin_arr le_bytes
opened_lem out =
    ap₂ (λ b n. (b, n)) refl (omega (arith, length-append (out ++ 5 ∷ []) (0 ∷ 0 ∷ 0 ∷ 0 ∷ [])))

-- An array that is opened, filled and closed: the length that `out_end_arr` writes stands in front
-- of what was appended in between, whatever that is.
pub out_end_arr-out_begin_arr :
    (out items : Buffer) (n : ℕ)
    → out_end_arr ((out_begin_arr out).0 ++ items) (out_begin_arr out).1 n
      ≡ ok (out ++ 5 ∷ (le_bytes 4 n ++ items))
unfolding out_end_arr
out_end_arr-out_begin_arr out items n = rw (
  opened_lem out,
  append_assoc (out ++ 5 ∷ []) (le_bytes 4 0) items,
  tag_at,
  write_u32-append (out ++ 5 ∷ []) (le_bytes 4 0) items n (length-le_bytes 4 0),
  append_assoc out (5 ∷ []) (le_bytes 4 n ++ items),
)
  where
    before : length (out ++ 5 ∷ []) - 1 ≡ length out
    before = omega (arith, length-append out (5 ∷ []))

    tag_at :
        get_elem? ((out ++ 5 ∷ []) ++ (le_bytes 4 0 ++ items)) (length (out ++ 5 ∷ []) - 1) ≡ some 5
    tag_at =
        rw (before, append_assoc out (5 ∷ []) (le_bytes 4 0 ++ items))
          (get_elem?-append out 5 (le_bytes 4 0 ++ items))
