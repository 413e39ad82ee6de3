-- ===== src/Bytes.antt =====
-- Little-endian words, as `memcpy` of an integer to and from a byte array writes and reads them on
-- the machines that the sources assume (lib/client/query.cpp: "assume little endian").
use greenis.Prelude.{
  ℕ, zero, suc, ◌+◌, ◌*◌, ◌/◌, ◌%◌, ◌^◌, ◌<◌, ◌≡◌, refl, ap, List, [], ◌∷◌, arith, length, All,
}

abbrev pub Bytes : Type 0
Bytes = List ℕ

abbrev pub IsByte : ℕ → Type 0
IsByte b = b < 256

abbrev pub AreBytes : Bytes → Type 0
AreBytes = All IsByte

-- The low `n` bytes of a word, the lowest first.
unfoldable pub le_bytes : ℕ → ℕ → Bytes
le_bytes zero w = []
le_bytes (suc n) w = (w % 256) ∷ le_bytes n (w / 256)

-- The word that a byte sequence stands for.
unfoldable pub le_word : Bytes → ℕ
le_word [] = 0
le_word (b ∷ bs) = b + 256 * le_word bs

pub length-le_bytes : (n w : ℕ) → length (le_bytes n w) ≡ n
unfolding le_bytes
length-le_bytes zero w = refl
length-le_bytes (suc n) w = ap suc (length-le_bytes n (w / 256))

pub le_bytes-AreBytes : (n w : ℕ) → AreBytes (le_bytes n w)
unfolding le_bytes
le_bytes-AreBytes zero w = tt
le_bytes-AreBytes (suc n) w = (omega arith, le_bytes-AreBytes n (w / 256))

-- Four bytes hold a `uint32_t`, and eight a `uint64_t`.
pub le_word-le_bytes_four : (w : ℕ) → le_word (le_bytes 4 w) ≡ w % 2 ^ 32
unfolding le_word le_bytes
le_word-le_bytes_four w = omega arith

pub le_word-le_bytes_eight : (w : ℕ) → le_word (le_bytes 8 w) ≡ w % 2 ^ 64
unfolding le_word le_bytes
le_word-le_bytes_eight w = omega arith

pub le_bytes-le_word : (bs : Bytes) → AreBytes bs → le_bytes (length bs) (le_word bs) ≡ bs
unfolding le_word le_bytes
le_bytes-le_word [] h = refl
le_bytes-le_word (b ∷ bs) h = ground (arith, le_bytes-le_word bs h.1, tail_lem)
  where
    tail_lem : (b + 256 * le_word bs) / 256 ≡ le_word bs
    tail_lem = omega arith

pub le_word-lt_four : (bs : Bytes) → AreBytes bs → length bs ≡ 4 → le_word bs < 2 ^ 32
unfolding le_word
le_word-lt_four (a ∷ b ∷ c ∷ d ∷ []) h e = omega arith
le_word-lt_four _ h e = absurd (omega arith)
