-- ===== src/KeyValue/Expired.antt =====
-- The second loop of `process_timers` in lib/server/timer.cpp: the keys that have expired. The hash of an entry's key
-- is what its node has.
use greenis.Prelude.{
  ℕ, zero, suc, Bool, true, false, List, [], ◌∷◌, Option, none, some, Run, ok, ◌>>=◌, ◌>>◌, assert,
  require, ltb, ◌==◌,
}
use greenis.Heap.{HeapItem}
use greenis.HashTable.{HNode, str_hash, hm_delete}
use greenis.KeyValue.{SortedSets, Store, entry_del}

-- Two nodes are one.
abbrev pub hnode_same : HNode ℕ → HNode ℕ → Bool
hnode_same node key = node.owner == key.owner

abbrev pub k_max_works : ℕ
k_max_works = 2000

-- The first item of the heap has a time before this.
abbrev pub is_expired : ℕ → List HeapItem → Option ℕ
is_expired now_ms [] = none
is_expired now_ms (item ∷ items) = elim (ltb item.val now_ms) [
  | true ↦ some item.ref
  | false ↦ none
]

module _ (sets : SortedSets) where
  open sets use {ZSet}

  -- One round, for the entry of the first item.
  unfoldable pub expire_entry : ℕ → Store ZSet → Run (Store ZSet)
  expire_entry id st = do
    ent ← require (st.entries id)
    (node, db) ← hm_delete st.db (record { hcode = str_hash ent.key; owner = id }) hnode_same
    assert (elim node [ none ↦ false | some n ↦ n.owner == id ])
    entry_del sets id (record st { db = db })

  -- At most `left` rounds and one.
  unfoldable pub expire_keys : ℕ → ℕ → Store ZSet → Run (Store ZSet)
  expire_keys zero now_ms st = elim (is_expired now_ms st.heap.items) [
    | none ↦ ok st
    | some id ↦ expire_entry id st
  ]
  expire_keys (suc left) now_ms st = elim (is_expired now_ms st.heap.items) [
    | none ↦ ok st
    | some id ↦ expire_entry id st >>= λ st'. expire_keys left now_ms st'
  ]

  -- The loop, which counts to K_MAX_WORKS.
  unfoldable pub process_keys : ℕ → Store ZSet → Run (Store ZSet)
  process_keys now_ms st = expire_keys k_max_works now_ms st
