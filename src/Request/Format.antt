-- ===== src/Request/Format.antt =====
-- The request format as a grammar, and `parse_req` as its exact inverse.
use greenis.Prelude.{
  ℕ, zero, suc, ◌-◌, ◌^◌, ◌≤◌, ◌<◌, ◌≡◌, refl, ap, ap₂, sym, ◌∙◌, ◌↔◌, List, [], ◌∷◌, ◌++◌, inl,
  inr, none, some, arith, append_assoc, append-nil, ltb, ltb→le, le→ltb, Bool-cases, Option-cases,
  if◌then◌else◌, length, take, drop, All, length-append, length-take, take-append, drop-append,
  take-append-drop, All-take, All-drop,
}
use native.Mathlib.Nat.{sub-zero}
use greenis.Bytes.{
  Bytes, AreBytes, le_bytes, le_word, length-le_bytes, le_word-le_bytes_four, le_bytes-le_word,
  le_word-lt_four,
}
use greenis.Request.{k_max_args, is_empty, read_u32, read_str, parse_strs, parse_req}

-- Each string behind its length.
unfoldable pub encode_strs : List Bytes → Bytes
encode_strs [] = []
encode_strs (s ∷ strs) = le_bytes 4 (length s) ++ (s ++ encode_strs strs)

-- The number of strings, then the strings.
unfoldable pub encode_req : List Bytes → Bytes
unfolding encode_strs
encode_req cmd = le_bytes 4 (length cmd) ++ encode_strs cmd

-- A length field holds the length.
abbrev pub IsShort : Bytes → Type 0
IsShort s = length s < 2 ^ 32

read_u32-le_bytes :
    (w : ℕ) (rest : Bytes) → w < 2 ^ 32 → read_u32 (le_bytes 4 w ++ rest) ≡ some (w, rest)
unfolding read_u32
read_u32-le_bytes w rest h =
    rw
      (
        le→ltb (length (le_bytes 4 w ++ rest)) 4
            (omega (arith, length-append (le_bytes 4 w) rest, length-le_bytes 4 w)),
        take-append 4 (le_bytes 4 w) rest (sym (length-le_bytes 4 w)),
        drop-append 4 (le_bytes 4 w) rest (sym (length-le_bytes 4 w)),
        le_word-le_bytes_four w,
      )
      (ap (λ v. some (v, rest)) (omega arith))

read_str-append : (s rest : Bytes) → read_str (s ++ rest) (length s) ≡ some (s, rest)
unfolding read_str
read_str-append s rest = rw (
  le→ltb (length (s ++ rest)) (length s) (omega (arith, length-append s rest)),
  take-append (length s) s rest refl,
  drop-append (length s) s rest refl,
)

parse_strs-encode_strs :
    (strs : List Bytes) (rest : Bytes) (out : List Bytes)
    → All IsShort strs
    → parse_strs (length strs) (encode_strs strs ++ rest) out ≡ some (rest, out ++ strs)
unfolding parse_strs encode_strs
parse_strs-encode_strs [] rest out h = rw (append-nil out)
parse_strs-encode_strs (s ∷ strs) rest out h = rw (
  append_assoc (le_bytes 4 (length s)) (s ++ encode_strs strs) rest,
  append_assoc s (encode_strs strs) rest,
  read_u32-le_bytes (length s) (s ++ (encode_strs strs ++ rest)) h.0,
  read_str-append s (encode_strs strs ++ rest),
  parse_strs-encode_strs strs rest (out ++ s ∷ []) h.1,
  append_assoc out (s ∷ []) strs,
)

-- What the server parses from the wire form of a command is the command.
pub parse_req-encode_req :
    (cmd : List Bytes)
    → length cmd ≤ k_max_args
    → All IsShort cmd
    → parse_req (encode_req cmd) [] ≡ some cmd
unfolding parse_req encode_req
parse_req-encode_req cmd few short = rw (
  read_u32-le_bytes (length cmd) (encode_strs cmd) (omega arith),
  le→ltb k_max_args (length cmd) few,
  sub-zero (length cmd),
  all_read,
)
  where
    all_read : parse_strs (length cmd) (encode_strs cmd) [] ≡ some ([], cmd)
    all_read = rw (append-nil (encode_strs cmd)) at (parse_strs-encode_strs cmd [] [] short)

read_u32-inv :
    (cur : Bytes) {w : ℕ} {rest : Bytes}
    → AreBytes cur
    → read_u32 cur ≡ some (w, rest)
    → (cur ≡ le_bytes 4 w ++ rest) × (w < 2 ^ 32) × AreBytes rest
unfolding read_u32
read_u32-inv cur {w} {rest} h e = elim (Bool-cases (ltb (length cur) 4)) [
  | inl short ↦ cc (rw short at e)
  | inr long ↦
      let size : length (take 4 cur) ≡ 4 = omega (arith, length-take 4 cur, ltb→le _ _ long) in
      let taken = All-take (λ b. b < 256) 4 cur h in
      let found : some (le_word (take 4 cur), drop 4 cur) ≡ some (w, rest) = rw long at e in
      let word : le_word (take 4 cur) ≡ w = ground arith in
      let behind : drop 4 cur ≡ rest = ground arith in
      let back : le_bytes 4 (le_word (take 4 cur)) ≡ take 4 cur =
        rw size at (le_bytes-le_word (take 4 cur) taken) in
      (
        sym (take-append-drop 4 cur) ∙ ap₂ ◌++◌ (sym back ∙ ap (le_bytes 4) word) behind,
        rw (← word) (le_word-lt_four (take 4 cur) taken size),
        rw (← behind) (All-drop (λ b. b < 256) 4 cur h),
      )
]

read_str-inv :
    (cur : Bytes) (n : ℕ) {s rest : Bytes}
    → AreBytes cur
    → read_str cur n ≡ some (s, rest)
    → (cur ≡ s ++ rest) × (length s ≡ n) × AreBytes s × AreBytes rest
unfolding read_str
read_str-inv cur n {s} {rest} h e = elim (Bool-cases (ltb (length cur) n)) [
  | inl short ↦ cc (rw short at e)
  | inr long ↦
      let found : some (take n cur, drop n cur) ≡ some (s, rest) = rw long at e in
      let taken : take n cur ≡ s = ground arith in
      let behind : drop n cur ≡ rest = ground arith in
      (
        sym (take-append-drop n cur) ∙ ap₂ ◌++◌ taken behind,
        omega (arith, ap length taken, length-take n cur, ltb→le _ _ long),
        rw (← taken) (All-take (λ b. b < 256) n cur h),
        rw (← behind) (All-drop (λ b. b < 256) n cur h),
      )
]

-- What a run of the loop has read.
record Read (rounds : ℕ) (cur : Bytes) (out : List Bytes) (rest : Bytes) (strs : List Bytes)
    : Type 0 where
  more : List Bytes
  rounds_done : length more ≡ rounds
  added : strs ≡ out ++ more
  consumed : cur ≡ encode_strs more ++ rest
  short : All IsShort more
  bytes : All AreBytes more

parse_strs-inv :
    (rounds : ℕ) (cur : Bytes) (out : List Bytes) {rest : Bytes} {strs : List Bytes}
    → AreBytes cur
    → parse_strs rounds cur out ≡ some (rest, strs)
    → Read rounds cur out rest strs
unfolding parse_strs encode_strs
parse_strs-inv zero cur out {rest} {strs} h e = record {
  more = [];
  rounds_done = refl;
  added = ground (arith, append-nil out);
  consumed = ground arith;
  short = tt;
  bytes = tt;
}
parse_strs-inv (suc rounds) cur out {rest} {strs} h e = elim (Option-cases (read_u32 cur)) [
  | inl n ↦ cc (rw n at e)
  | inr ((len, behind), p) ↦
      let f = read_u32-inv cur h p in
      elim (Option-cases (read_str behind len)) [
        | inl n ↦ cc (rw (p, n) at e)
        | inr ((s, left), q) ↦
            let g = read_str-inv behind len f.2 q in
            let r = parse_strs-inv rounds left (out ++ s ∷ []) g.3 (rw (p, q) at e) in
            record {
              more = s ∷ r.more;
              rounds_done = omega (arith, r.rounds_done);
              added = r.added ∙ append_assoc out (s ∷ []) r.more;
              consumed = cc (
                f.0,
                g.0,
                g.1,
                r.consumed,
                append_assoc (le_bytes 4 len) (s ++ encode_strs r.more) rest,
                append_assoc s (encode_strs r.more) rest,
              );
              short = (omega (arith, g.1, f.1), r.short);
              bytes = (g.2, r.bytes);
            }
      ]
]

-- A command that the format can carry.
pub record IsCommand (cmd : List Bytes) : Type 0 where
  pub few : length cmd ≤ k_max_args
  pub short : All IsShort cmd
  pub bytes : All AreBytes cmd

nothing_behind :
    (rest : Bytes) {strs cmd : List Bytes}
    → (if is_empty rest then some strs else none) ≡ some cmd
    → (rest ≡ []) × (strs ≡ cmd)
nothing_behind [] h = (refl, ground arith)
nothing_behind (b ∷ rest) h = cc

parse_req-inv :
    (request : Bytes) {cmd : List Bytes}
    → AreBytes request
    → parse_req request [] ≡ some cmd
    → (request ≡ encode_req cmd) × IsCommand cmd
unfolding parse_req encode_req
parse_req-inv request {cmd} h e = elim (Option-cases (read_u32 request)) [
  | inl n ↦ cc (rw n at e)
  | inr ((nstr, cur), p) ↦
      let f = read_u32-inv request h p in
      elim (Bool-cases (ltb k_max_args nstr)) [
        | inl many ↦ cc (rw (p, many) at e)
        | inr few ↦ elim (Option-cases (parse_strs (nstr - 0) cur [])) [
          | inl n ↦ cc (rw (p, few, n) at e)
          | inr ((rest, strs), q) ↦
              let r = parse_strs-inv (nstr - 0) cur [] f.2 q in
              let g = nothing_behind rest {strs = strs} {cmd = cmd} (rw (p, few, q) at e) in
              let same : r.more ≡ cmd = sym r.added ∙ g.1 in
              let size : nstr ≡ length cmd = omega (arith, r.rounds_done, ap length same) in
              (
                cc (f.0, r.consumed, g.0, same, size, append-nil (encode_strs cmd)),
                record {
                  few = omega (arith, size, ltb→le _ _ few);
                  short = rw same at r.short;
                  bytes = rw same at r.bytes;
                },
              )
        ]
      ]
]

-- The parser accepts exactly the wire forms of commands: no other bytes, nothing behind.
pub parse_req_exact :
    (request : Bytes) (cmd : List Bytes)
    → AreBytes request
    → (parse_req request [] ≡ some cmd) ↔ ((request ≡ encode_req cmd) × IsCommand cmd)
parse_req_exact request cmd h =
    (parse_req-inv request h, λ (e, c). rw e (parse_req-encode_req cmd c.few c.short))
