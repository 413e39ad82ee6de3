-- ===== src/KeyValue/SetCommands.antt =====
-- The commands on sorted sets: expect_zset, do_zadd, do_zrem, do_zscore and do_zquery of
-- lib/server/key_value.cpp, over the sorted sets of lib/server/zset.cpp. What `!=` and `<` say of two
-- doubles, `str2dbl` and `str2int` are parameters: they are the processor's and the C library's.
use greenis.Prelude.{
  ℕ, zero, suc, ◌+◌, ◌%◌, ◌^◌, Bool, true, false, not, ◌||◌, List, Option, none, some, Run, ok,
  out_of_fuel, ◌>>=◌, require, ltb, ◌==◌, if◌then◌else◌, length, get_elem?,
}
use greenis.Prelude.Int.{ℤ, pos, negsuc}
use greenis.Bytes.{Bytes}
use greenis.Buffer.{
  Buffer, out_nil, out_str, out_int, out_dbl, out_err, out_arr, out_begin_arr, out_end_arr,
  err_bad_typ, err_bad_arg,
}
use greenis.Response.{literal}
use greenis.HashTable.{str_hash, empty_map, hm_insert, hm_size}
use greenis.Avl.{null}
use greenis.Zset.{ZSet, zset_lookup, zset_delete, zset_insert, zset_seekge, znode_offset, rounds}
use greenis.KeyValue.{
  SortedSets, ZCommands, ValueType, t_init, t_str, t_zset, Store, at_entry, find_entry, entry_new,
}

-- A set that nothing was put into; its nodes hold no links yet.
abbrev pub k_empty_zset : ZSet
k_empty_zset = record {
  root = null;
  hmap = empty_map;
  nodes = λ q. record { parent = null; left = null; right = null; height = 0; cnt = 0 };
  members = λ q. none;
  fresh = 1;
}

abbrev pub sorted_sets : SortedSets
sorted_sets = record {
  ZSet = ZSet;
  empty_zset = k_empty_zset;
  zset_size = λ zset. hm_size zset.hmap;
}

abbrev pub is_zset : ValueType → Bool
is_zset t_zset = true
is_zset t_init = false
is_zset t_str = false

-- The results of `expect_zset`: `k_empty_zset`, the set of an entry, or `NULL`.
pub data Expected : Type 0 where
  empty_set : Expected
  set_of : ℕ → ZSet → Expected
  no_set : Expected

unfoldable pub expect_zset : Bytes → Store ZSet → Run (Expected × Store ZSet)
unfolding find_entry
expect_zset key st = do
  (found, st') ← find_entry key st
  elim found [
    | none ↦ ok (empty_set, st')
    | some id ↦ do
      ent ← require (st'.entries id)
      ok (if is_zset ent.type then set_of id ent.zset else no_set, st')
  ]

-- The set of the entry, after an operation has changed it.
unfoldable pub store_zset : ℕ → ZSet → Store ZSet → Run (Store ZSet)
store_zset id zset st = do
  ent ← require (st.entries id)
  ok (record st { entries = at_entry st.entries id (some (record ent { zset = zset })) })

unfoldable pub do_zrem : List Bytes → Store ZSet → Buffer → Run (Store ZSet × Buffer)
unfolding expect_zset store_zset
do_zrem cmd st out = do
  key ← require (get_elem? cmd 1)
  name ← require (get_elem? cmd 2)
  (expected, st') ← expect_zset key st
  elim expected [
    | no_set ↦ ok (st', out_err out err_bad_typ (literal "expect zset"))
    | empty_set ↦ ok (st', out_int out (pos 0))
    | set_of id zset ↦ do
      (found, looked) ← zset_lookup zset name
      elim found [
        | none ↦ do kept ← store_zset id looked st'; ok (kept, out_int out (pos 0))
        | some znode ↦ do
          left ← zset_delete looked znode
          deleted ← store_zset id left st'
          ok (deleted, out_int out (pos 1))
      ]
  ]

unfoldable pub do_zscore : List Bytes → Store ZSet → Buffer → Run (Store ZSet × Buffer)
unfolding expect_zset store_zset
do_zscore cmd st out = do
  key ← require (get_elem? cmd 1)
  name ← require (get_elem? cmd 2)
  (expected, st') ← expect_zset key st
  elim expected [
    | no_set ↦ ok (st', out_err out err_bad_typ (literal "expect zset"))
    | empty_set ↦ ok (st', out_nil out)
    | set_of id zset ↦ do
      (found, looked) ← zset_lookup zset name
      kept ← store_zset id looked st'
      elim found [
        | none ↦ ok (kept, out_nil out)
        | some znode ↦ do z ← require (looked.members znode); ok (kept, out_dbl out z.score)
      ]
  ]

-- The loop of `do_zquery`; each round goes one member further.
unfoldable pub query_loop : ℕ → ZSet → ℕ → ℕ → ℕ → Buffer → Run (ℕ × Buffer)
query_loop zero zset znode limit n out = out_of_fuel
query_loop (suc fuel) zset znode limit n out = elim (znode == null || not (ltb n limit)) [
  | true ↦ ok (n, out)
  | false ↦ do
    z ← require (zset.members znode)
    next ← znode_offset zset znode (pos 1)
    query_loop fuel zset next limit (n + 2) (out_dbl (out_str out z.name (length z.name)) z.score)
]

module _ (ne lt : ℕ → ℕ → Bool) (str2dbl : Bytes → Option ℕ) (str2int : Bytes → Option ℤ) where
  -- `zset_insert` on the set of the entry
  unfoldable pub add_member : ℕ → Bytes → ℕ → Store ZSet → Buffer → Run (Store ZSet × Buffer)
  unfolding store_zset
  add_member id name score st out = do
    ent ← require (st.entries id)
    (added, zset) ← zset_insert ne lt ent.zset name score
    st' ← store_zset id zset st
    ok (st', out_int out (if added then pos 1 else pos 0))

  unfoldable pub do_zadd : List Bytes → Store ZSet → Buffer → Run (Store ZSet × Buffer)
  unfolding find_entry entry_new add_member
  do_zadd cmd st out = do
    word ← require (get_elem? cmd 2)
    elim (str2dbl word) [
      | none ↦ ok (st, out_err out err_bad_arg (literal "expect float"))
      | some score ↦ do
        key ← require (get_elem? cmd 1)
        name ← require (get_elem? cmd 3)
        (found, st') ← find_entry key st
        elim found [
          | none ↦ do
            let (id, made) = entry_new sorted_sets t_zset st'
            ent ← require (made.entries id)
            db ← hm_insert made.db (record { hcode = str_hash key; owner = id })
            let named = at_entry made.entries id (some (record ent { key = key }))
            add_member id name score (record made { db = db; entries = named }) out
          | some id ↦ do
            ent ← require (st'.entries id)
            let refused = out_err out err_bad_typ (literal "expect zset")
            elim (is_zset ent.type) [
              | true ↦ add_member id name score st' out
              | false ↦ ok (st', refused)
            ]
        ]
    ]

  -- The members from the first that is not below the score and the name, `offset` further.
  unfoldable pub query_members : ZSet → ℕ → Bytes → ℤ → ℕ → Buffer → Run Buffer
  unfolding query_loop
  query_members zset score name offset limit out = do
    first ← zset_seekge ne lt zset score name
    znode ← znode_offset zset first offset
    let (opened, ctx) = out_begin_arr out
    (n, filled) ← query_loop (rounds zset) zset znode limit 0 opened
    out_end_arr filled ctx (n % 2 ^ 32)

  -- `limit <= 0` is answered by an empty array.
  unfoldable pub query_set : ZSet → ℕ → Bytes → ℤ → ℤ → Buffer → Run Buffer
  unfolding query_members
  query_set zset score name offset (negsuc n) out = ok (out_arr out 0)
  query_set zset score name offset (pos limit) out = elim (limit == 0) [
    | true ↦ ok (out_arr out 0)
    | false ↦ query_members zset score name offset limit out
  ]

  unfoldable pub do_zquery : List Bytes → Store ZSet → Buffer → Run (Store ZSet × Buffer)
  unfolding expect_zset query_set
  do_zquery cmd st out = do
    key ← require (get_elem? cmd 1)
    score_word ← require (get_elem? cmd 2)
    name ← require (get_elem? cmd 3)
    offset_word ← require (get_elem? cmd 4)
    limit_word ← require (get_elem? cmd 5)
    elim (str2dbl score_word) [
      | none ↦ ok (st, out_err out err_bad_arg (literal "expect fp number"))
      | some score ↦ elim (str2int offset_word) [
        | none ↦ ok (st, out_err out err_bad_arg (literal "expect int"))
        | some offset ↦ elim (str2int limit_word) [
          | none ↦ ok (st, out_err out err_bad_arg (literal "expect int"))
          | some limit ↦ do
            (expected, st') ← expect_zset key st
            elim expected [
              | no_set ↦ ok (st', out_err out err_bad_typ (literal "expect zset"))
              | empty_set ↦ do
                filled ← query_set k_empty_zset score name offset limit out
                ok (st', filled)
              | set_of id zset ↦ do
                filled ← query_set zset score name offset limit out
                ok (st', filled)
            ]
        ]
      ]
    ]

  -- The commands that `do_request` calls.
  abbrev pub zcommands : ZCommands ZSet
  zcommands = record {
    do_zadd = do_zadd;
    do_zrem = do_zrem;
    do_zscore = do_zscore;
    do_zquery = do_zquery;
  }
