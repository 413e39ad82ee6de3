-- ===== src/Request.antt =====
-- The request format: `read_u32` and `read_str` of lib/utils.cpp, `parse_req` of
-- lib/server/response.cpp. The pair of pointers `cur`, `end` is the list of the bytes between them;
-- a `false` or a -1 is `none`.
pub mod Format
use greenis.Prelude.{
  ℕ, zero, suc, ◌-◌, ◌*◌, Bool, true, false, List, [], ◌∷◌, ◌++◌, Option, none, some, ltb,
  if◌then◌else◌, length, take, drop,
}
use greenis.Bytes.{Bytes, le_word}

abbrev pub k_max_args : ℕ
k_max_args = 200 * 1000

infixl 5 ◌>>=◌
abbrev pub ◌>>=◌ {ℓ κ} : {A : Type ℓ} {B : Type κ} → Option A → (A → Option B) → Option B
none >>= f = none
some a >>= f = f a

abbrev is_empty {ℓ} : {A : Type ℓ} → List A → Bool
is_empty [] = true
is_empty (x ∷ xs) = false

-- The word, and the bytes behind it.
read_u32 : Bytes → Option (ℕ × Bytes)
read_u32 cur = if ltb (length cur) 4 then none else some (le_word (take 4 cur), drop 4 cur)

read_str : Bytes → ℕ → Option (Bytes × Bytes)
read_str cur n = if ltb (length cur) n then none else some (take n cur, drop n cur)

-- `while (out.size() < nstr)`: each round adds one string, so there are `nstr - out.size()` rounds.
parse_strs : ℕ → Bytes → List Bytes → Option (Bytes × List Bytes)
parse_strs zero cur out = some (cur, out)
parse_strs (suc rounds) cur out = do
  (len, behind) ← read_u32 cur
  (s, rest) ← read_str behind len
  parse_strs rounds rest (out ++ s ∷ [])

unfoldable pub parse_req : Bytes → List Bytes → Option (List Bytes)
unfolding read_u32 read_str parse_strs
parse_req bytes out = do
  (nstr, cur) ← read_u32 bytes
  if ltb k_max_args nstr then none else do
    (rest, strs) ← parse_strs (nstr - length out) cur out
    if is_empty rest then some strs else none
