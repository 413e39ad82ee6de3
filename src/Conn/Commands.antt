-- ===== src/Conn/Commands.antt =====
-- The program's `get` and `set` on a database in order, as the handlers of lib/server/conn.cpp run them.
use greenis.Prelude.{
  Bool, ℕ, ◌≡◌, ◌∙◌, List, [], ◌∷◌, ◌++◌, Option, All, append_assoc, Returns, returns, Returns-bind,
  Returns-map, Returns-inv, bytes_eq, Bool-cases, inl, inr,
}
use greenis.Prelude.Int.{ℤ}
use greenis.Bytes.{Bytes}
use greenis.Buffer.{Buffer, err_bad_typ}
use greenis.Reply.{nil, encode, out_nil-encode, out_str-encode, out_err-encode}
use greenis.Response.{literal}
use greenis.Response.Frame.{response_frame}
use greenis.KeyValue.{Store, Entry, is_str, do_request}
use greenis.KeyValue.Get.{IsStore, get_reply, Got, got_entry, got_nil, do_get-Got}
use greenis.KeyValue.Change.{Moved-IsStore}
use greenis.KeyValue.Set.{Stored, stored, refused, do_set-Stored}
use greenis.Message.{message}
use greenis.Request.Format.{encode_req}
use greenis.KeyValue.SetCommands.{sorted_sets}
use greenis.Zset.{ZSet}
use greenis.App.{App, store_app}
use greenis.Conn.Frames.{incomplete, next_request, next_request-message, respond}
use greenis.Conn.Serve.{IsSendable, stream}
use greenis.Conn.Ready.{Runs, waits, serves}

-- A `get` or a `set` with its words.
pub data GetOrSet : List Bytes → Type 0 where
  get_key : (key : Bytes) → GetOrSet (literal "get" ∷ key ∷ [])
  set_key : (key value : Bytes) → GetOrSet (literal "set" ∷ key ∷ value ∷ [])

-- The database stays in order, and something is appended to the output.
record Replied {Z : Type 0} (out : Buffer) (r : Store Z × Buffer) : Type 0 where
  order : IsStore r.0
  reply : Bytes
  added : r.1 ≡ out ++ reply

get_reply-Appends :
    {Z : Type 0} (ent : Entry Z) (out : Buffer)
    → (reply : Bytes) × (get_reply ent out ≡ out ++ reply)
get_reply-Appends ent out = elim (Bool-cases (is_str ent.type)) [
  | inl s ↦ rw s (_, out_str-encode out ent.str)
  | inr s ↦ rw s (_, out_err-encode out err_bad_typ (literal "not a string value"))
]

Got-Replied :
    {Z : Type 0} {st : Store Z} {key : Bytes} {out : Buffer} (r : Store Z × Buffer)
    → IsStore st
    → Got st key out r
    → Replied out r
Got-Replied {out = out} r v (got_entry id ent h e m) =
    let (reply, a) = get_reply-Appends ent out in
    record { order = Moved-IsStore v m; reply = reply; added = e ∙ a }
Got-Replied {out = out} r v (got_nil absent e m) = record {
  order = Moved-IsStore v m;
  reply = encode nil;
  added = e ∙ out_nil-encode out;
}

Stored-Replied :
    {Z : Type 0} {st : Store Z} {key value : Bytes} {out : Buffer} (r : Store Z × Buffer)
    → IsStore st
    → Stored st key value out r
    → Replied out r
Stored-Replied {out = out} r v (stored id ent before h val kind e order others) = record {
  order = order;
  reply = encode nil;
  added = e ∙ out_nil-encode out;
}
Stored-Replied {out = out} r v (refused id ent h s e m) = record {
  order = Moved-IsStore v m;
  reply = _;
  added = e ∙ out_err-encode out err_bad_typ (literal "a non-string value exists");
}

module _ (ne lt : ℕ → ℕ → Bool) (str2dbl : Bytes → Option ℕ) (str2int : Bytes → Option ℤ)
    (now_ms : ℕ) where
  abbrev store : App
  store = store_app ne lt str2dbl str2int now_ms

  do_request-Replied :
      (cmd : List Bytes) (st : Store ZSet) (out : Buffer)
      → GetOrSet cmd
      → IsStore st
      → Returns (Replied out) (store.do_request st cmd out)
  unfolding do_request bytes_eq
  do_request-Replied cmd st out (get_key key) v =
      Returns-map (do_get-Got (literal "get") key st out v) λ r got. Got-Replied r v got
  do_request-Replied cmd st out (set_key key value) v =
      Returns-map (do_set-Stored sorted_sets (literal "set") key value st out v)
        λ r s. Stored-Replied r v s

  -- With its message header the reply is complete, and the database stays in order.
  respond-IsStore :
      (cmd : List Bytes) (st : Store ZSet) (out : Buffer)
      → GetOrSet cmd
      → IsStore st
      → Returns (λ r. IsStore r.0) (respond store st cmd out)
  unfolding respond
  respond-IsStore cmd st out g v =
      Returns-bind (do_request-Replied cmd st _ g v)
        λ r k. rw (k.added, response_frame out k.reply) (returns k.order)

  -- A pipeline of `get` and `set` commands whose messages the protocol allows, with the start of a further
  -- request behind it, is answered without a fault on a database in order.
  pub stream-Runs :
      (cmds : List (List Bytes)) (tail : Bytes) (st : Store ZSet) (out : Buffer)
      → All GetOrSet cmds
      → All IsSendable cmds
      → next_request tail ≡ incomplete
      → IsStore st
      → Runs store st (stream cmds ++ tail) out
  unfolding stream
  stream-Runs [] tail st out g c t v = waits t
  stream-Runs (cmd ∷ cmds) tail st out g c t v =
      let ((st', out'), answered, order) = Returns-inv (respond-IsStore cmd st out g.0 v) in
      rw (append_assoc (message (encode_req cmd)) (stream cmds) tail) (
        serves cmd (stream cmds ++ tail) st' out'
          (next_request-message cmd (stream cmds ++ tail) c.0.0 c.0.1) answered
          (stream-Runs cmds tail st' out' g.1 c.1 t order))
