-- ===== src/KeyValue.antt =====
-- The commands on keys: inc/server/key_value.h, lib/server/key_value.cpp and `do_request` of
-- lib/server/response.cpp. An `Entry *` is a number, and the entries stand in a store; a freed entry is
-- not in it. The field `heap_idx` of an entry is where the references of the timer heap point, so it
-- stands in the heap. The sorted sets and their commands are an interface here, which SetCommands fills. The clock is an
-- argument, and a command comes with its words.

pub mod Get
pub mod Change
pub mod Added
pub mod Set
pub mod Expired
pub mod SetCommands
use greenis.Prelude.{
  ℕ, zero, suc, ◌+◌, ◌-◌, ◌%◌, ◌^◌, Bool, true, false, not, ◌&&◌, List, [], ◌∷◌, Option, none, some,
  Run, ok, fault, ◌>>=◌, ◌>>◌, require, ltb, ◌==◌, if◌then◌else◌, length, get_elem?, bytes_eq, ◌++◌,
}
use greenis.Prelude.Int.{ℤ, pos, negsuc, is_negative, to_u64, from_u64}
use greenis.Bytes.{Bytes}
use greenis.Buffer.{
  Buffer, out_nil, out_str, out_int, out_err, out_arr, err_bad_typ, err_bad_arg, err_unknown,
}
use greenis.Response.{literal}
use greenis.Heap.{Heap, HeapItem, heap_upsert, heap_delete}
use greenis.HashTable.{HNode, HMap, str_hash, hm_lookup, hm_insert, hm_delete, hm_size, hm_foreach}

-- What an entry asks of lib/server/zset.cpp: an empty set, and `hm_size(&zset.hmap)`.
pub record SortedSets : Type 1 where
  pub ZSet : Type 0
  pub empty_zset : ZSet
  pub zset_size : ZSet → ℕ

pub data ValueType : Type 0 where
  t_init t_str t_zset : ValueType

abbrev pub is_str : ValueType → Bool
is_str t_str = true
is_str t_init = false
is_str t_zset = false

pub record Entry (Z : Type 0) : Type 0 where
  pub key : Bytes
  pub type : ValueType
  pub str : Bytes
  pub zset : Z

-- The data that the commands share, `jobs` being the entries that the thread pool is to free. `fresh`
-- is an address that no entry has had.
pub record Store (Z : Type 0) : Type 0 where
  pub db : HMap ℕ
  pub entries : ℕ → Option (Entry Z)
  pub heap : Heap
  pub jobs : List ℕ
  pub fresh : ℕ

-- `heap_idx` of an entry without a timer
abbrev pub no_idx : ℕ
no_idx = 2 ^ 64 - 1

abbrev pub at_entry {ℓ} : {A : Type ℓ} → (ℕ → A) → ℕ → A → ℕ → A
at_entry f ent v q = if q == ent then v else f q

abbrev pub lookup_key : Bytes → HNode Bytes
lookup_key key = record { hcode = str_hash key; owner = key }

-- `str2int` and the clock's `get_monotonic_msec` are called with these results.
module _ {Z : Type 0} where
  -- A freed entry is in no table, so that its key is not read.
  unfoldable pub entry_eq : Store Z → HNode ℕ → HNode Bytes → Bool
  entry_eq st node key = elim (st.entries node.owner) [
    | none ↦ false
    | some ent ↦ bytes_eq ent.key key.owner
  ]

  -- `hm_lookup(&g_data.db, &key.node, &entry_eq)`
  unfoldable pub find_entry : Bytes → Store Z → Run (Option ℕ × Store Z)
  find_entry key st = do
    (node, db) ← hm_lookup st.db (lookup_key key) (entry_eq st)
    ok (elim node [ none ↦ none | some n ↦ some n.owner ], record st { db = db })

  unfoldable pub entry_set_ttl : ℕ → ℤ → ℕ → Store Z → Run (Store Z)
  entry_set_ttl ent ttl_ms now_ms st =
      let idx = st.heap.idx ent in
      let expire_at = (now_ms + to_u64 ttl_ms) % 2 ^ 64 in
      let remove : Run (Store Z) = do
        heap ← heap_delete st.heap idx
        ok (record st { heap = record heap { idx = at_entry heap.idx ent no_idx } })
      in let update : Run (Store Z) = do
        heap ← heap_upsert st.heap idx (record { val = expire_at; ref = ent })
        ok (record st { heap = heap })
        in if is_negative ttl_ms && not (idx == no_idx)
          then remove
          else if not (is_negative ttl_ms)
          then update
          else ok st

  unfoldable pub do_get : List Bytes → Store Z → Buffer → Run (Store Z × Buffer)
  unfolding find_entry
  do_get cmd st out = do
    key ← require (get_elem? cmd 1)
    (found, st') ← find_entry key st
    elim found [
      | none ↦ ok (st', out_nil out)
      | some id ↦ do
        ent ← require (st'.entries id)
        ok (
          st',
          if is_str ent.type
              then out_str out ent.str (length ent.str)
              else out_err out err_bad_typ (literal "not a string value"),
        )
    ]

  unfoldable pub do_expire : Option ℤ → ℕ → List Bytes → Store Z → Buffer → Run (Store Z × Buffer)
  unfolding find_entry entry_set_ttl
  do_expire none now_ms cmd st out = ok (st, out_err out err_bad_arg (literal "expect int64"))
  do_expire (some ttl_ms) now_ms cmd st out = do
    key ← require (get_elem? cmd 1)
    (found, st') ← find_entry key st
    elim found [
      | none ↦ ok (st', out_int out (pos 0))
      | some id ↦ do st'' ← entry_set_ttl id ttl_ms now_ms st'; ok (st'', out_int out (pos 1))
    ]

  unfoldable pub do_ttl : ℕ → List Bytes → Store Z → Buffer → Run (Store Z × Buffer)
  unfolding find_entry
  do_ttl now_ms cmd st out = do
    key ← require (get_elem? cmd 1)
    (found, st') ← find_entry key st
    elim found [
      | none ↦ ok (st', out_int out (negsuc 1))
      | some id ↦
          (let idx = st'.heap.idx id in
            let left : Run (Store Z × Buffer) = do
              item ← require (get_elem? st'.heap.items idx)
              ok (
                st',
                out_int out (if ltb now_ms item.val then from_u64 (item.val - now_ms) else pos 0),
              )
            in if idx == no_idx then ok (st', out_int out (negsuc 0)) else left)
    ]

  unfoldable pub cb_keys : Store Z → HNode ℕ → Run Buffer → Bool × Run Buffer
  cb_keys st node arg = (
    true,
    (do
      out ← arg
      ent ← require (st.entries node.owner)
      ok (out_str out ent.key (length ent.key))),
  )

  unfoldable pub do_keys : List Bytes → Store Z → Buffer → Run (Store Z × Buffer)
  unfolding cb_keys
  do_keys cmd st out = do
    walked ← hm_foreach (cb_keys st) st.db (ok (out_arr out (hm_size st.db % 2 ^ 32)))
    filled ← walked
    ok (st, filled)

module _ (sets : SortedSets) where
  open sets use {ZSet, empty_zset, zset_size}

  -- `new Entry()` with its type set
  unfoldable pub entry_new : ValueType → Store ZSet → ℕ × Store ZSet
  entry_new type st =
      let ent : Entry ZSet = record { key = []; type = type; str = []; zset = empty_zset } in
      (
        st.fresh,
        record st {
          entries = at_entry st.entries st.fresh (some ent);
          heap = record { items = st.heap.items; idx = at_entry st.heap.idx st.fresh no_idx };
          fresh = st.fresh + 1;
        },
      )

  -- Frees the entry, after `zset_clear` if it has a sorted set.
  unfoldable pub entry_del_sync : ℕ → Store ZSet → Store ZSet
  entry_del_sync ent st = record st { entries = at_entry st.entries ent none }

  abbrev set_size : Entry ZSet → ℕ
  set_size ent = elim ent.type [ t_zset ↦ zset_size ent.zset | t_init ↦ 0 | t_str ↦ 0 ]

  unfoldable pub entry_del : ℕ → Store ZSet → Run (Store ZSet)
  unfolding entry_set_ttl entry_del_sync
  entry_del id st = do
    st' ← entry_set_ttl id (negsuc 0) 0 st
    ent ← require (st'.entries id)
    let queued = record st' { jobs = st'.jobs ++ id ∷ [] }
    ok (if ltb 1000 (set_size ent) then queued else entry_del_sync id st')

  unfoldable pub do_set : List Bytes → Store ZSet → Buffer → Run (Store ZSet × Buffer)
  unfolding find_entry entry_new
  do_set cmd st out = do
    key ← require (get_elem? cmd 1)
    value ← require (get_elem? cmd 2)
    (found, st') ← find_entry key st
    elim found [
      | some id ↦ do
        ent ← require (st'.entries id)
        let updated = record st' {
          entries = at_entry st'.entries id (some (record ent { str = value }));
        }
        let refused : Store ZSet × Buffer =
            (st', out_err out err_bad_typ (literal "a non-string value exists"))
        ok (if is_str ent.type then (updated, out_nil out) else refused)
      | none ↦ do
        let (id, made) = entry_new t_str st'
        ent ← require (made.entries id)
        db ← hm_insert made.db (record { hcode = str_hash key; owner = id })
        let named = at_entry made.entries id (some (record ent { key = key; str = value }))
        ok (record made { db = db; entries = named }, out_nil out)
    ]

  unfoldable pub do_del : List Bytes → Store ZSet → Buffer → Run (Store ZSet × Buffer)
  unfolding entry_del
  do_del cmd st out = do
    key ← require (get_elem? cmd 1)
    (node, db) ← hm_delete st.db (lookup_key key) (entry_eq st)
    elim node [
      | none ↦ ok (record st { db = db }, out_int out (pos 0))
      | some n ↦ do st' ← entry_del n.owner (record st { db = db }); ok (st', out_int out (pos 1))
    ]

-- The commands on sorted sets, as `do_request` calls them.
pub record ZCommands (Z : Type 0) : Type 0 where
  pub do_zadd : List Bytes → Store Z → Buffer → Run (Store Z × Buffer)
  pub do_zrem : List Bytes → Store Z → Buffer → Run (Store Z × Buffer)
  pub do_zscore : List Bytes → Store Z → Buffer → Run (Store Z × Buffer)
  pub do_zquery : List Bytes → Store Z → Buffer → Run (Store Z × Buffer)

-- `cmd.size() == n && cmd[0] == name`
abbrev pub is_command : ℕ → Bytes → List Bytes → Bool
is_command n name [] = false
is_command n name (word ∷ words) = (length (word ∷ words) == n) && bytes_eq word name

-- What `str2int` makes of a word, or nothing if it refuses it.
abbrev int_at : (Bytes → Option ℤ) → List Bytes → ℕ → Option ℤ
int_at str2int cmd i = elim (get_elem? cmd i) [ none ↦ none | some word ↦ str2int word ]

module _ (sets : SortedSets) (zset : ZCommands sets.ZSet) (str2int : Bytes → Option ℤ) where
  open sets use {ZSet}

  -- The words are printed before; the clock shows `now_ms`.
  unfoldable pub do_request : ℕ → List Bytes → Store ZSet → Buffer → Run (Store ZSet × Buffer)
  unfolding do_get do_set do_del do_expire do_ttl do_keys
  do_request now_ms cmd st out =
      if is_command 2 (literal "get") cmd
      then do_get cmd st out
      else if is_command 3 (literal "set") cmd
      then do_set sets cmd st out
      else if is_command 2 (literal "del") cmd
      then do_del sets cmd st out
      else if is_command 3 (literal "pexpire") cmd
      then do_expire (int_at str2int cmd 2) now_ms cmd st out
      else if is_command 2 (literal "pttl") cmd
      then do_ttl now_ms cmd st out
      else if is_command 1 (literal "keys") cmd
      then do_keys cmd st out
      else if is_command 4 (literal "zadd") cmd
      then zset.do_zadd cmd st out
      else if is_command 3 (literal "zrem") cmd
      then zset.do_zrem cmd st out
      else if is_command 3 (literal "zscore") cmd
      then zset.do_zscore cmd st out
      else if is_command 6 (literal "zquery") cmd
      then zset.do_zquery cmd st out
      else ok (st, out_err out err_unknown (literal "unknown command."))
