-- ===== src/Reply/Defs.antt =====
-- The reply format: what a serialized reply means, written apart from the code that builds it in
-- lib/server/buffer.cpp and from the code that prints it in lib/client/query.cpp.

use greenis.Prelude.{ℕ, suc, [], ◌∷◌, ◌++◌, length}
use greenis.Prelude.Int.{ℤ, to_u64}
use greenis.Bytes.{Bytes, le_bytes}
use greenis.Buffer.{Double}

mutual
  pub data Reply : Type 0 where
    nil : Reply
    err : ℕ → Bytes → Reply
    str : Bytes → Reply
    int : ℤ → Reply
    dbl : Double → Reply
    arr : Items → Reply

  pub data Items : Type 0 where
    end : Items
    item : Reply → Items → Items

unfoldable pub count : Items → ℕ
count end = 0
count (item r rs) = suc (count rs)

unfoldable mutual
  pub encode : Reply → Bytes
  encode nil = 0 ∷ []
  encode (err code msg) = 1 ∷ (le_bytes 4 code ++ (le_bytes 4 (length msg) ++ msg))
  encode (str s) = 2 ∷ (le_bytes 4 (length s) ++ s)
  encode (int v) = 3 ∷ le_bytes 8 (to_u64 v)
  encode (dbl d) = 4 ∷ le_bytes 8 d
  encode (arr rs) = 5 ∷ (le_bytes 4 (count rs) ++ encode_items rs)

  pub encode_items : Items → Bytes
  encode_items end = []
  encode_items (item r rs) = encode r ++ encode_items rs
