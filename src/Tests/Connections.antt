-- ===== src/Tests/Connections.antt =====
-- Connections, with the program's commands on a database of one string, "v" under "k".
use greenis.Prelude.{
  ℕ, ◌≤◌, ◌≡◌, refl, true, false, List, [], ◌∷◌, ◌++◌, ok, arith, length, Returns, none, subst, ap,
  ◌>>=◌, bytes_eq, All, Bool, not, ◌==◌, ltb,
}
use greenis.Bytes.{Bytes, le_bytes, le_word}
use greenis.Request.Format.{encode_req}
use greenis.Response.{literal}
use greenis.Buffer.{out_str, out_arr}
use greenis.Request.{parse_req}
use greenis.HashTable.{hm_foreach, hm_size}
use greenis.KeyValue.{do_request}
use greenis.Response.{response_begin, response_end}
use greenis.Tests.Keys.{one, one-IsStore}
use greenis.App.{App, store_app}
use greenis.Conn.{Conn, WriteResult, again, failed, got, wrote, serve, handle_read}
use greenis.Conn.Frames.{next_request, incomplete, respond}
use greenis.Conn.Serve.{IsSendable, stream, run_all, serve_pipeline, serve_in_chunks}
use greenis.Conn.Commands.{get_key, set_key, stream-Runs}
use greenis.Conn.Ready.{IsReady, Runs, serves, waits, StaysReady, handle_read-IsReady}

abbrev ne : ℕ → ℕ → Bool
ne a b = not (a == b)

abbrev pub app : App
app = store_app ne ltb (λ word. none) (λ word. none) 200

abbrev keys : List Bytes
keys = literal "keys" ∷ []

-- The message of `keys`, in two parts.
abbrev pub first_part : Bytes
first_part = 12 ∷ 0 ∷ 0 ∷ 0 ∷ 1 ∷ 0 ∷ 0 ∷ 0 ∷ 4 ∷ 0 ∷ 0 ∷ 0 ∷ 107 ∷ 101 ∷ []

abbrev pub second_part : Bytes
second_part = 121 ∷ 115 ∷ []

abbrev idle : Conn
idle = record {
  fd = 5;
  want_read = true;
  want_write = false;
  want_close = false;
  incoming = [];
  outgoing = [];
  last_active_ms = 0;
}

-- The message of an array of one string, "k".
abbrev pub keys_reply : Bytes
keys_reply = 11 ∷ 0 ∷ 0 ∷ 0 ∷ 5 ∷ 1 ∷ 0 ∷ 0 ∷ 0 ∷ 2 ∷ 1 ∷ 0 ∷ 0 ∷ 0 ∷ 107 ∷ []

keys_answered : respond app one keys [] ≡ ok (one, keys_reply)
unfolding bytes_eq respond response_begin response_end do_request le_bytes hm_foreach hm_size
    out_str out_arr
keys_answered = refl

pub whole-Runs : Runs app one (first_part ++ second_part) []
unfolding next_request le_word parse_req
whole-Runs = serves keys [] one keys_reply refl keys_answered (waits refl)

part :
    serve app 20 one (record idle { incoming = first_part })
    ≡ ok (record idle { incoming = first_part }, one)
unfolding serve le_word
part = refl

serve_in_chunks_example :
    serve app 20 one (record idle { incoming = first_part ++ second_part })
    ≡ serve app 30 one (record idle { incoming = first_part ++ second_part })
serve_in_chunks_example =
    serve_in_chunks app 20 one (record idle { incoming = first_part }) second_part
      (record idle { incoming = first_part }, one) 20 30 part refl (omega arith) (omega arith)

keys-IsSendable : IsSendable keys
unfolding encode_req le_bytes
keys-IsSendable =
    (record { few = omega arith; short = omega arith; bytes = omega arith }, omega arith)

first_part-incomplete : next_request first_part ≡ incomplete
unfolding next_request le_word parse_req
first_part-incomplete = refl

serve_pipeline_example :
    serve app 3 one (record idle { incoming = stream (keys ∷ keys ∷ []) ++ first_part }) ≡ (
      run_all app one (keys ∷ keys ∷ []) [] >>= λ (st, out).
      ok (record idle { incoming = first_part; outgoing = out }, st))
serve_pipeline_example =
    serve_pipeline app (keys ∷ keys ∷ []) first_part 3 one idle
      (keys-IsSendable, (keys-IsSendable, tt)) first_part-incomplete (omega arith)

abbrev pub write_one : Bytes → WriteResult
write_one [] = wrote 0
write_one (b ∷ bytes) = wrote 1

pub write_one-IsWrite : (bytes : Bytes) (n : ℕ) → write_one bytes ≡ wrote n → n ≤ length bytes
write_one-IsWrite [] n h = ground arith
write_one-IsWrite (b ∷ bytes) n h = ground arith

idle-IsReady : IsReady idle
idle-IsReady = record { one = refl; pending = refl }

got_bytes : {xs ys : Bytes} → got xs ≡ got ys → xs ≡ ys
got_bytes e = ap (λ r. elim r [ got bytes ↦ bytes | again ↦ [] | failed ↦ [] ]) e

pub will_run :
    (bytes : Bytes) → got (first_part ++ second_part) ≡ got bytes → Runs app one ([] ++ bytes) []
will_run bytes e = subst (λ bytes. Runs app one ([] ++ bytes) []) (got_bytes e) whole-Runs

-- `set` and then `get` of the same key.
abbrev set_then_get : List (List Bytes)
set_then_get =
    (literal "set" ∷ literal "k" ∷ literal "w" ∷ []) ∷ (literal "get" ∷ literal "k" ∷ []) ∷ []

set_then_get-IsSendable : All IsSendable set_then_get
unfolding encode_req le_bytes
set_then_get-IsSendable = (
  (record { few = omega arith; short = omega arith; bytes = omega arith }, omega arith),
  ((record { few = omega arith; short = omega arith; bytes = omega arith }, omega arith), tt),
)

set_then_get-Runs : Runs app one (stream set_then_get ++ first_part) []
set_then_get-Runs =
    stream-Runs ne ltb (λ word. none) (λ word. none) 200 set_then_get first_part one []
      (set_key (literal "k") (literal "w"), (get_key (literal "k"), tt)) set_then_get-IsSendable
      first_part-incomplete one-IsStore

handle_read-IsReady_example :
    Returns
      (λ r. StaysReady idle r.0)
      (handle_read app (got (stream set_then_get ++ first_part)) write_one one idle)
handle_read-IsReady_example =
    handle_read-IsReady app (got (stream set_then_get ++ first_part)) write_one one idle
      write_one-IsWrite idle-IsReady
      λ bytes e. subst (λ bytes. Runs app one ([] ++ bytes) []) (got_bytes e) set_then_get-Runs
