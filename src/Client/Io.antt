-- ===== src/Client/Io.antt =====
-- `read_full` and `write_all` of lib/client/query.cpp. The outcomes of the successive calls of
-- `read` and `write` are a list that the environment gives; a loop that would make one more call than
-- the list has is `out_of_fuel`.
use greenis.Prelude.{
  ℕ, zero, suc, ◌-◌, ◌<◌, ◌≡◌, refl, sym, ◌∙◌, Bool, true, false, List, [], ◌∷◌, ◌++◌, Option, none,
  some, arith, Run, ok, out_of_fuel, ◌>>◌, assert, append_assoc, append-nil, leb, ◌==◌,
  if◌then◌else◌, Bool-cases, inl, inr, length, take, drop, All, length-append, take-append-drop,
  length-drop,
}
use greenis.Prelude.Int.{ℤ, pos, negsuc}
use greenis.Bytes.{Bytes}

-- A negative result, or the bytes that were read: none at the end of the stream.
pub data ReadOutcome : Type 0 where
  failed : ReadOutcome
  got : Bytes → ReadOutcome

-- The buffer, or -1, and the outcomes that are left.
pub read_loop : List ReadOutcome → ℕ → Bytes → Run (Option Bytes × List ReadOutcome)
read_loop [] n buf = if n == 0 then ok (some buf, []) else out_of_fuel
read_loop (failed ∷ os) n buf = if n == 0 then ok (some buf, failed ∷ os) else ok (none, os)
read_loop (got [] ∷ os) n buf = if n == 0 then ok (some buf, got [] ∷ os) else ok (none, os)
read_loop (got (b ∷ bs) ∷ os) n buf =
    let more : Run (Option Bytes × List ReadOutcome) = do
      assert (leb (length (b ∷ bs)) n)
      read_loop os (n - length (b ∷ bs)) (buf ++ b ∷ bs)
    in if n == 0 then ok (some buf, got (b ∷ bs) ∷ os) else more

unfoldable pub read_full : List ReadOutcome → ℕ → Run (Option Bytes × List ReadOutcome)
unfolding read_loop
read_full os n = read_loop os n []

-- Whether all was written, and the bytes that went out.
pub write_loop : List ℤ → Bytes → ℕ → Bytes → Run (Bool × Bytes)
write_loop [] buf n sent = if n == 0 then ok (true, sent) else out_of_fuel
write_loop (negsuc _ ∷ os) buf n sent = if n == 0 then ok (true, sent) else ok (false, sent)
write_loop (pos zero ∷ os) buf n sent = if n == 0 then ok (true, sent) else ok (false, sent)
write_loop (pos (suc rv) ∷ os) buf n sent =
    let more : Run (Bool × Bytes) = do
      assert (leb (suc rv) n)
      write_loop os (drop (suc rv) buf) (n - suc rv) (sent ++ take (suc rv) buf)
    in if n == 0 then ok (true, sent) else more

unfoldable pub write_all : List ℤ → Bytes → ℕ → Run (Bool × Bytes)
unfolding write_loop
write_all os buf n = write_loop os buf n []

-- The chunks that a stream comes in, none of them empty.
unfoldable pub chunks : List Bytes → List ReadOutcome
chunks [] = []
chunks (c ∷ cs) = got c ∷ chunks cs

unfoldable pub joined : List Bytes → Bytes
joined [] = []
joined (c ∷ cs) = c ++ joined cs

abbrev pub IsChunk : Bytes → Type 0
IsChunk c = 0 < length c

read_loop-chunks :
    (cs : List Bytes) (os : List ReadOutcome) (n : ℕ) (buf : Bytes)
    → All IsChunk cs
    → n ≡ length (joined cs)
    → read_loop (chunks cs ++ os) n buf ≡ ok (some (buf ++ joined cs), os)
unfolding read_loop chunks joined
read_loop-chunks [] [] n buf h e = rw (e, append-nil buf)
read_loop-chunks [] (failed ∷ os) n buf h e = rw (e, append-nil buf)
read_loop-chunks [] (got [] ∷ os) n buf h e = rw (e, append-nil buf)
read_loop-chunks [] (got (b ∷ bs) ∷ os) n buf h e = rw (e, append-nil buf)
read_loop-chunks ([] ∷ cs) os n buf h e = absurd (omega (arith, h.0))
read_loop-chunks ((b ∷ bs) ∷ cs) os n buf h e = ground (
  arith,
  length-append bs (joined cs),
  append_assoc buf (b ∷ bs) (joined cs),
  read_loop-chunks cs os (n - length (b ∷ bs)) (buf ++ b ∷ bs) h.1,
)

-- However a stream is cut into chunks, `read_full` puts exactly the bytes together.
pub read_full-chunks :
    (cs : List Bytes) (os : List ReadOutcome)
    → All IsChunk cs
    → read_full (chunks cs ++ os) (length (joined cs)) ≡ ok (some (joined cs), os)
unfolding read_full
read_full-chunks cs os h = read_loop-chunks cs os (length (joined cs)) [] h refl

write_loop-zero :
    (os : List ℤ) (buf sent : Bytes) (n : ℕ) → n ≡ 0 → write_loop os buf n sent ≡ ok (true, sent)
unfolding write_loop
write_loop-zero [] buf sent n h = ground arith
write_loop-zero (negsuc m ∷ os) buf sent n h = ground arith
write_loop-zero (pos zero ∷ os) buf sent n h = ground arith
write_loop-zero (pos (suc rv) ∷ os) buf sent n h = ground arith

-- What went out is a first part of what was to go out, and all of it if the result is 0.
record Sent (buf sent : Bytes) (done : Bool) (total : Bytes) : Type 0 where
  unsent : Bytes
  in_order : sent ++ buf ≡ total ++ unsent
  all_sent : done ≡ true → unsent ≡ []

Sent-at_end :
    {buf sent total : Bytes} {done : Bool}
    → buf ≡ []
    → ◌≡◌ {A = Run (Bool × Bytes)} (ok (true, sent)) (ok (done, total))
    → Sent buf sent done total
Sent-at_end {buf} {sent} {total} h e = record {
  unsent = [];
  in_order = rw h (ground arith);
  all_sent = λ _. refl;
}

write_loop-Sent :
    (os : List ℤ) (buf : Bytes) (n : ℕ) (sent : Bytes) {done : Bool} {total : Bytes}
    → n ≡ length buf
    → write_loop os buf n sent ≡ ok (done, total)
    → Sent buf sent done total
unfolding write_loop
write_loop-Sent os [] n sent e h = Sent-at_end refl (sym (write_loop-zero os [] sent n e) ∙ h)
write_loop-Sent [] (b ∷ buf) n sent e h = absurd (ground arith)
write_loop-Sent (negsuc m ∷ os) (b ∷ buf) n sent e h = record {
  unsent = b ∷ buf;
  in_order = ground arith;
  all_sent = λ t. ground arith;
}
write_loop-Sent (pos zero ∷ os) (b ∷ buf) n sent e h = record {
  unsent = b ∷ buf;
  in_order = ground arith;
  all_sent = λ t. ground arith;
}
write_loop-Sent (pos (suc rv) ∷ os) (b ∷ buf) n sent {done} {total} e h =
    elim (Bool-cases (leb (suc rv) n)) [
      | inl fits ↦
          let next : write_loop os (drop rv buf) (n - suc rv) (sent ++ b ∷ take rv buf)
              ≡ ok (done, total) =
            ground arith in
          let r =
            write_loop-Sent os (drop rv buf) (n - suc rv) (sent ++ b ∷ take rv buf)
              (omega (arith, length-drop rv buf)) next in
          record {
            unsent = r.unsent;
            in_order = cc (
              r.in_order,
              append_assoc sent (b ∷ take rv buf) (drop rv buf),
              take-append-drop rv buf,
            );
            all_sent = r.all_sent;
          }
      | inr long ↦ absurd (ground arith)
    ]

-- `write_all` sends the buffer from its start, with nothing left out or repeated, and returns 0 only
-- when all of it has gone out.
pub write_all_sends :
    (os : List ℤ) (buf : Bytes) {done : Bool} {sent : Bytes}
    → write_all os buf (length buf) ≡ ok (done, sent)
    → (unsent : Bytes) × (buf ≡ sent ++ unsent) × (done ≡ true → unsent ≡ [])
unfolding write_all
write_all_sends os buf h =
    let r = write_loop-Sent os buf (length buf) [] refl h in (r.unsent, r.in_order, r.all_sent)
