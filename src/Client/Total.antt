-- ===== src/Client/Total.antt =====
-- How `print_response` of lib/client/query.cpp ends on any reply.
use greenis.Prelude.{
  ℕ, zero, suc, ◌+◌, ◌-◌, ◌%◌, ◌^◌, ◌≤◌, ◌<◌, ◌≡◌, ◌⊎◌, refl, List, [], ◌∷◌, arith, Run, ok, fault,
  out_of_fuel, ◌>>=◌, require, Bool, Bool-cases, inl, inr, true, false, ltb, ltb→le, ltb→lt, le→leb,
  ◌++◌, ◌==◌, if◌then◌else◌, length, take, drop, drop-add, length-drop, get_elem?,
}
use greenis.Prelude.Int.{pos, negsuc, from_u32}
use greenis.Bytes.{Bytes, le_word}
use greenis.Client.Print.{
  Line, Printed, peek, chars, printf_str, add32, sub64, print_err, print_str, print_int, print_dbl,
  print_items, print_arr, print_tagged, print_nested, print_response,
}

-- Somewhere in the reply stand four bytes that, read as a length, make `1 + 8 + len` wrap.
pub record Wraps (bytes : Bytes) : Type 0 where
  pub at : ℕ
  pub inside : at + 4 ≤ length bytes
  pub large : 2 ^ 32 - 9 ≤ le_word (take 4 (drop at bytes))

Wraps-drop : (n : ℕ) (bytes : Bytes) → n ≤ length bytes → Wraps (drop n bytes) → Wraps bytes
Wraps-drop n bytes h w = record {
  at = n + w.at;
  inside = omega (arith, w.inside, length-drop n bytes);
  large = rw (drop-add n w.at bytes) w.large;
}

-- The run ends: with -1, with a length of at most `size`, or, if a length wraps, by a read behind the
-- reply.
data Ends (bytes : Bytes) (size : ℕ) : Printed → Type 0 where
  faults : Wraps bytes → Ends bytes size fault
  rejects : {lines : List Line} → Ends bytes size (ok (lines, negsuc 0))
  accepts : {lines : List Line} {n : ℕ} → n ≤ size → Ends bytes size (ok (lines, pos n))

Ends-if :
    {bytes : Bytes} {size : ℕ} (b : Bool) {x y : Printed}
    → (b ≡ true → Ends bytes size x)
    → (b ≡ false → Ends bytes size y)
    → Ends bytes size (if b then x else y)
Ends-if true p q = p refl
Ends-if false p q = q refl

-- A step that cannot run out of fuel, and faults only if `P`.
data Steps {A : Type 0} (P : Type 0) : Run A → Type 0 where
  stops : P → Steps P fault
  gives : {a : A} → Steps P (ok a)

Ends-bind :
    {A : Type 0} {bytes : Bytes} {size : ℕ} {m : Run A} {f : A → Printed}
    → Steps (Wraps bytes) m
    → ((a : A) → Ends bytes size (f a))
    → Ends bytes size (m >>= f)
Ends-bind (stops w) k = faults w
Ends-bind gives k = k _

Steps-if :
    {A P : Type 0} (b : Bool) {x y : Run A}
    → (b ≡ true → Steps P x)
    → (b ≡ false → Steps P y)
    → Steps P (if b then x else y)
Steps-if true p q = p refl
Steps-if false p q = q refl

Steps-map : {A B P : Type 0} {m : Run A} (f : A → B) → Steps P m → Steps P (m >>= λ a. ok (f a))
Steps-map f (stops p) = stops p
Steps-map f gives = gives

peek-inside :
    (bytes : Bytes) (at n : ℕ)
    → at + n ≤ length bytes
    → peek bytes at n ≡ ok (le_word (take n (drop at bytes)))
unfolding peek
peek-inside bytes at n h = rw (le→leb (at + n) (length bytes) h)

chars-Steps :
    {P : Type 0} (n : ℕ) (bytes : Bytes) → P ⊎ (n ≤ length bytes) → Steps P (chars n bytes)
unfolding chars
chars-Steps zero bytes h = gives
chars-Steps (suc n) [] (inl p) = stops p
chars-Steps (suc n) [] (inr h) = absurd (omega arith)
chars-Steps (suc n) (b ∷ bytes) (inl p) =
    Steps-if (b == 0) (λ _. gives) (λ _. Steps-map _ (chars-Steps n bytes (inl p)))
chars-Steps (suc n) (b ∷ bytes) (inr h) =
    Steps-if (b == 0) (λ _. gives) (λ _. Steps-map _ (chars-Steps n bytes (inr (omega arith))))

printf_str-Steps :
    {P : Type 0} (len : ℕ) (bytes : Bytes)
    → P ⊎ ((len < 2 ^ 31) × (len ≤ length bytes))
    → Steps P (printf_str len bytes)
unfolding printf_str
printf_str-Steps len bytes (inl p) =
    Steps-if (ltb len (2 ^ 31)) (λ _. chars-Steps len bytes (inl p))
      (λ _. chars-Steps (length bytes + 1) bytes (inl p))
printf_str-Steps len bytes (inr (low, inside)) =
    Steps-if (ltb len (2 ^ 31)) (λ _. chars-Steps len bytes (inr inside))
      (λ high. absurd (omega (arith, ltb→le _ _ high)))

from_u32-Ends :
    (lines : List Line) (bytes : Bytes) (w size : ℕ)
    → w ≤ size
    → size < 2 ^ 31
    → Ends bytes size (ok (lines, from_u32 w))
from_u32-Ends lines bytes w size h small = elim (Bool-cases (ltb w (2 ^ 31))) [
  | inl low ↦ rw low (accepts h)
  | inr high ↦ absurd (omega (arith, ltb→le _ _ high))
]

-- A text of the declared length, behind a head of `head` bytes that ends with the length.
text-Ends :
    (bytes : Bytes) (size head at : ℕ) (line : Bytes → Line)
    → size ≤ length bytes
    → size < 2 ^ 31
    → at + 4 ≤ size
    → head ≤ 9
    → (let len = le_word (take 4 (drop at bytes)) in
        Ends bytes size (
          if ltb size (add32 head len)
          then ok (Line.bad_response ∷ [], negsuc 0)
          else printf_str len (drop head bytes) >>= λ text.
              ok (line text ∷ [], from_u32 (add32 head len))))
text-Ends bytes size head at line inside small room short =
    let len = le_word (take 4 (drop at bytes)) in
    Ends-if (ltb size (add32 head len)) (λ _. rejects)
      λ fits.
        Ends-bind
          (printf_str-Steps len (drop head bytes) (elim (Bool-cases (ltb len (2 ^ 32 - 9))) [
            | inl low ↦ inr (
              omega (arith, ltb→lt _ _ low, ltb→le _ _ fits),
              omega (arith, ltb→lt _ _ low, ltb→le _ _ fits, length-drop head bytes),
            )
            | inr wraps ↦ inl (record { at = at; inside = omega arith; large = ltb→le _ _ wraps })
          ]))
          λ text. from_u32-Ends _ bytes (add32 head len) size (ltb→le _ _ fits) small

module _ (bytes : Bytes) (size : ℕ) (inside : size ≤ length bytes) (small : size < 2 ^ 31) where
  print_err-Ends : Ends bytes size (print_err bytes size)
  unfolding print_err
  print_err-Ends =
      Ends-if (ltb size (1 + 8)) (λ _. rejects)
        λ full.
          let long : 9 ≤ size = ltb→le _ _ full in
          rw (peek-inside bytes 1 4 (omega arith), peek-inside bytes 5 4 (omega arith))
            (text-Ends bytes size 9 5 _ inside small (omega arith) (omega arith))

  print_str-Ends : Ends bytes size (print_str bytes size)
  unfolding print_str
  print_str-Ends =
      Ends-if (ltb size (1 + 4)) (λ _. rejects)
        λ full.
          let long : 5 ≤ size = ltb→le _ _ full in
          rw (peek-inside bytes 1 4 (omega arith))
            (text-Ends bytes size 5 1 _ inside small (omega arith) (omega arith))

  print_int-Ends : Ends bytes size (print_int bytes size)
  unfolding print_int
  print_int-Ends =
      Ends-if (ltb size (1 + 8)) (λ _. rejects)
        λ full.
          let long : 9 ≤ size = ltb→le _ _ full in
          rw (peek-inside bytes 1 8 (omega arith)) (accepts long)

  print_dbl-Ends : Ends bytes size (print_dbl bytes size)
  unfolding print_dbl
  print_dbl-Ends =
      Ends-if (ltb size (1 + 8)) (λ _. rejects)
        λ full.
          let long : 9 ≤ size = ltb→le _ _ full in
          rw (peek-inside bytes 1 8 (omega arith)) (accepts long)

Ends-append :
    (lines : List Line) {bytes : Bytes} {size : ℕ} {r : Printed}
    → Ends bytes size r
    → Ends bytes size (r >>= λ (more, total). ok (lines ++ more, total))
Ends-append lines (faults w) = faults w
Ends-append lines rejects = rejects
Ends-append lines (accepts h) = accepts h

Ends-item :
    {part bytes : Bytes} {inner size : ℕ} {r : Printed} {next : ℕ → Printed}
    → (Wraps part → Wraps bytes)
    → Ends part inner r
    → ((n : ℕ) → n ≤ inner → Ends bytes size (next n))
    → Ends bytes size (
        r >>= λ (lines, rv). elim rv [
          | negsuc n ↦ ok (lines, negsuc n)
          | pos n ↦ next n >>= λ (more, total). ok (lines ++ more, total)
        ])
Ends-item out (faults w) k = faults (out w)
Ends-item out rejects k = rejects
Ends-item out (accepts {lines = lines} {n = n} h) k = Ends-append lines (k n h)

module _ (print : Bytes → ℕ → Printed) (bytes : Bytes) (size : ℕ) (inside : size ≤ length bytes)
    (small : size < 2 ^ 31)
    (inner : (part : Bytes) (n : ℕ) → n < size → n ≤ length part → Ends part n (print part n)) where
  print_items-Ends :
      (left arr_bytes : ℕ)
      → 0 < arr_bytes
      → arr_bytes ≤ size
      → Ends bytes size (print_items print left bytes size arr_bytes)
  unfolding print_items
  print_items-Ends zero arr_bytes p h =
      from_u32-Ends _ bytes (arr_bytes % 2 ^ 32) size (omega arith) small
  print_items-Ends (suc left) arr_bytes p h =
      Ends-item (Wraps-drop arr_bytes bytes (omega arith))
        (inner (drop arr_bytes bytes) (sub64 size arr_bytes) (omega arith)
          (omega (arith, length-drop arr_bytes bytes)))
        λ n below. print_items-Ends left (arr_bytes + n) (omega arith) (omega arith)

  print_arr-Ends : Ends bytes size (print_arr print bytes size)
  unfolding print_arr
  print_arr-Ends =
      Ends-if (ltb size (1 + 4)) (λ _. rejects)
        λ full.
          let long : 5 ≤ size = ltb→le _ _ full in
          rw (peek-inside bytes 1 4 (omega arith)) (
            Ends-append (Line.arr_begin (le_word (take 4 (drop 1 bytes))) ∷ [])
              (print_items-Ends (le_word (take 4 (drop 1 bytes))) 5 (omega arith) long))

  print_tagged-Ends : (tag : ℕ) → 0 < size → Ends bytes size (print_tagged print tag bytes size)
  unfolding print_tagged
  print_tagged-Ends tag p =
      Ends-if (tag == 0) (λ _. accepts p)
        λ _.
          Ends-if (tag == 1) (λ _. print_err-Ends bytes size inside small)
            λ _.
              Ends-if (tag == 2) (λ _. print_str-Ends bytes size inside small)
                λ _.
                  Ends-if (tag == 3) (λ _. print_int-Ends bytes size inside small)
                    λ _.
                      Ends-if (tag == 4) (λ _. print_dbl-Ends bytes size inside small)
                        λ _. Ends-if (tag == 5) (λ _. print_arr-Ends) λ _. rejects

first-Steps :
    {P : Type 0} (bytes : Bytes) → 0 < length bytes → Steps P (require (get_elem? bytes 0))
first-Steps [] h = absurd (omega arith)
first-Steps (b ∷ bytes) h = gives

print_nested-Ends :
    (fuel : ℕ) (bytes : Bytes) (size : ℕ)
    → size < fuel
    → size ≤ length bytes
    → size < 2 ^ 31
    → Ends bytes size (print_nested fuel bytes size)
unfolding print_nested
print_nested-Ends zero bytes size f inside small = absurd (omega arith)
print_nested-Ends (suc fuel) bytes size f inside small =
    Ends-if (ltb size 1) (λ _. rejects)
      λ full.
        let some_byte : 1 ≤ size = ltb→le _ _ full in
        Ends-bind (first-Steps bytes (omega arith)) λ tag.
          print_tagged-Ends (print_nested fuel) bytes size inside small
            (λ part n below room. print_nested-Ends fuel part n (omega arith) room (omega arith))
            tag some_byte

-- How `print_response` may end on a reply of `size` bytes: with a number of bytes that is at most `size`,
-- with -1, or, where a length of the reply wraps, at a read outside of the array.
abbrev pub IsBounded : Bytes → ℕ → Printed → Type 0
IsBounded bytes size fault = Wraps bytes
IsBounded bytes size out_of_fuel = ⊥
IsBounded bytes size (ok (lines, negsuc n)) = n ≡ 0
IsBounded bytes size (ok (lines, pos n)) = n ≤ size

Ends-IsBounded :
    {bytes : Bytes} {size : ℕ} {r : Printed} → Ends bytes size r → IsBounded bytes size r
Ends-IsBounded (faults w) = w
Ends-IsBounded rejects = refl
Ends-IsBounded (accepts h) = h

-- On a reply of fewer than 2 ^ 31 bytes, the nesting never uses up the fuel, which is the size and one,
-- and `print_response` returns -1 or a number of bytes that is at most the size of the reply. It reads
-- outside of the reply only if four bytes of it, read as a length, are 2 ^ 32 - 9 or more.
pub print_response_total :
    (bytes : Bytes) (size : ℕ)
    → size ≤ length bytes
    → size < 2 ^ 31
    → IsBounded bytes size (print_response bytes size)
unfolding print_response
print_response_total bytes size inside small =
    Ends-IsBounded (print_nested-Ends (size + 1) bytes size (omega arith) inside small)
