-- ===== src/Client/Meaning.antt =====
-- What the client should print for a reply of the format, written apart from `print_response`.
use greenis.Prelude.{◌^◌, ◌<◌, List, [], ◌∷◌, ◌++◌, ◌==◌, if◌then◌else◌}
use greenis.Prelude.Int.{from_u32, IsInt64}
use greenis.Bytes.{Bytes}
use greenis.Reply.{Reply, Items, nil, err, str, int, dbl, arr, end, item, count}
use greenis.Client.Print.{Line}

-- A C string ends at its first NUL.
unfoldable pub until_nul : Bytes → Bytes
until_nul [] = []
until_nul (b ∷ bytes) = if b == 0 then [] else b ∷ until_nul bytes

unfoldable mutual
  pub render : Reply → List Line
  render nil = Line.nil ∷ []
  render (err code msg) = Line.err (from_u32 code) (until_nul msg) ∷ []
  render (str s) = Line.str (until_nul s) ∷ []
  render (int v) = Line.int v ∷ []
  render (dbl d) = Line.dbl d ∷ []
  render (arr rs) = Line.arr_begin (count rs) ∷ (render_items rs ++ Line.arr_end ∷ [])

  pub render_items : Items → List Line
  render_items end = []
  render_items (item r rs) = render r ++ render_items rs

-- The values of a reply lie in the ranges of their C types.
abbrev mutual
  pub IsReply : Reply → Type 0
  IsReply nil = Unit
  IsReply (err code msg) = code < 2 ^ 32
  IsReply (str s) = Unit
  IsReply (int v) = IsInt64 v
  IsReply (dbl d) = d < 2 ^ 64
  IsReply (arr rs) = (count rs < 2 ^ 32) × AreReplies rs

  pub AreReplies : Items → Type 0
  AreReplies end = Unit
  AreReplies (item r rs) = IsReply r × AreReplies rs
