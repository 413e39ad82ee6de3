-- ===== src/KeyValue/Get.antt =====
-- Looking up a key: what the commands find, and the reply of `get`.
use greenis.Prelude.{
  and_right, and_true, ℕ, ◌<◌, ◌≡◌, refl, sym, ap, ◌∙◌, true, false, [], ◌∷◌, Perm, Mem, Option,
  none, some, arith, Returns, returns, Returns-bind, length, bytes_eq_iff, ==_iff, if◌then◌else◌,
  inl, inr, Option-cases,
}
use greenis.Bytes.{Bytes}
use greenis.Buffer.{Buffer, out_nil, out_str, out_err, err_bad_typ}
use greenis.Response.{literal}
use greenis.HashTable.{HNode, is_null, str_hash, matches}
use greenis.HashTable.Rehash.{IsMap, map_nodes}
use greenis.HashTable.Lookup.{Answers, hit, miss, hm_lookup-Answers}
use greenis.KeyValue.{Entry, Store, is_str, entry_eq, lookup_key, find_entry, do_get}

module _ {Z : Type 0} where
  -- The database: a map in order whose nodes belong to entries that are not freed, each under the hash
  -- of its key, and no two entries under one key.
  pub record IsStore (st : Store Z) : Type 0 where
    pub table : IsMap st.db
    pub alive :
        (node : HNode ℕ) → Mem node (map_nodes st.db) → is_null (st.entries node.owner) ≡ false
    pub hashed :
        (node : HNode ℕ) (ent : Entry Z)
        → Mem node (map_nodes st.db)
        → st.entries node.owner ≡ some ent
        → node.hcode ≡ str_hash ent.key
    pub old : (node : HNode ℕ) → Mem node (map_nodes st.db) → node.owner < st.fresh
    pub unique :
        (n m : HNode ℕ) (e f : Entry Z)
        → Mem n (map_nodes st.db)
        → Mem m (map_nodes st.db)
        → st.entries n.owner ≡ some e
        → st.entries m.owner ≡ some f
        → e.key ≡ f.key
        → n.owner ≡ m.owner

  -- The entry `ent` at `id` is in the database under `key`.
  pub record HasKey (st : Store Z) (key : Bytes) (id : ℕ) (ent : Entry Z) : Type 0 where
    pub node : HNode ℕ
    pub inside : Mem node (map_nodes st.db)
    pub owner : node.owner ≡ id
    pub here : st.entries id ≡ some ent
    pub same : ent.key ≡ key

  -- A store that differs in the order of its nodes and in its rehashing only.
  pub record Moved (st st' : Store Z) : Type 0 where
    pub table : IsMap st'.db
    pub nodes : Perm (map_nodes st'.db) (map_nodes st.db)
    pub rest : st' ≡ record st { db = st'.db }

  -- What a lookup of `key` finds: an entry under it, or nothing if none is.
  pub data Found (st : Store Z) (key : Bytes) : Option ℕ → Type 0 where
    hit_entry : (id : ℕ) (ent : Entry Z) → HasKey st key id ent → Found st key (some id)
    no_entry : ((id : ℕ) (ent : Entry Z) → ¬ HasKey st key id ent) → Found st key none

  entry_eq_lem :
      (st : Store Z) (node : HNode ℕ) (key : Bytes)
      → entry_eq st node (lookup_key key) ≡ true
      → (ent : Entry Z) × (st.entries node.owner ≡ some ent) × (ent.key ≡ key)
  unfolding entry_eq
  entry_eq_lem st node key h = elim (Option-cases (st.entries node.owner)) [
    | inl e ↦ absurd (ground (arith, rw (entry_eq, e) at h))
    | inr (ent, e) ↦ (ent, e, (bytes_eq_iff ent.key key).0 (rw (entry_eq, e) at h))
  ]

  entry_eq-same :
      (st : Store Z) (node : HNode ℕ) (key : Bytes) (ent : Entry Z)
      → st.entries node.owner ≡ some ent
      → ent.key ≡ key
      → entry_eq st node (lookup_key key) ≡ true
  unfolding entry_eq
  entry_eq-same st node key ent e same = rw (entry_eq, e) ((bytes_eq_iff ent.key key).1 same)

  Answers-Found :
      (st : Store Z) (key : Bytes)
      → IsStore st
      → (o : Option (HNode ℕ)) → Answers (lookup_key key) (entry_eq st) (map_nodes st.db) o
      → Found st key (elim o [ none ↦ none | some n ↦ some n.owner ])
  Answers-Found st key v o (hit node inside t) =
      let (ent, here, same) = entry_eq_lem st node key (and_right _ _ t) in
      hit_entry node.owner ent
        (record { node = node; inside = inside; owner = refl; here = here; same = same })
  Answers-Found st key v o (miss none_matches) = no_entry λ id ent h.
      let node = h.node in
      let here = ap st.entries h.owner ∙ h.here in
      let code : node.hcode ≡ str_hash key = v.hashed node ent h.inside here ∙ ap str_hash h.same in
      let fits : matches (lookup_key key) (entry_eq st) node ≡ true =
        and_true _ _ ((==_iff _ _).1 code) (entry_eq-same st node key ent here h.same) in
      absurd (ground (arith, sym fits ∙ none_matches node h.inside))

  pub Found-none :
      {st : Store Z} {key : Bytes}
      → Found st key none
      → (id : ℕ) (ent : Entry Z) → ¬ HasKey st key id ent
  Found-none (no_entry h) = h

  pub Found-some :
      {st : Store Z} {key : Bytes} (id : ℕ)
      → Found st key (some id)
      → (ent : Entry Z) × HasKey st key id ent
  Found-some id (hit_entry _ ent h) = (ent, h)

  -- What a lookup leaves and finds.
  pub record Looked (st : Store Z) (key : Bytes) (r : Option ℕ × Store Z) : Type 0 where
    pub found : Found st key r.0
    pub moved : Moved st r.1

  pub find_entry-Looked :
      (key : Bytes) (st : Store Z) → IsStore st → Returns (Looked st key) (find_entry key st)
  unfolding find_entry
  find_entry-Looked key st v =
      Returns-bind (hm_lookup-Answers (lookup_key key) (entry_eq st) st.db v.table)
        λ r (answers, helped). returns (record {
          found = Answers-Found st key v r.0 answers;
          moved = record { table = helped.valid; nodes = helped.same; rest = refl };
        })

  -- The reply of `get` to an entry.
  abbrev pub get_reply : Entry Z → Buffer → Buffer
  get_reply ent out =
      if is_str ent.type
      then out_str out ent.str (length ent.str)
      else out_err out err_bad_typ (literal "not a string value")

  -- What `get` replies to a key: the value of an entry under it, or nil if there is none.
  pub data Got (st : Store Z) (key : Bytes) (out : Buffer) (r : Store Z × Buffer) : Type 0 where
    got_entry :
        (id : ℕ) (ent : Entry Z)
        → HasKey st key id ent
        → r.1 ≡ get_reply ent out
        → Moved st r.0
        → Got st key out r
    got_nil :
        ((id : ℕ) (ent : Entry Z) → ¬ HasKey st key id ent)
        → r.1 ≡ out_nil out
        → Moved st r.0
        → Got st key out r

  -- `get` returns on a database in order, replies with the value of the entry under the key, with an
  -- error if that is not a string, and with nil if there is no entry, and changes no entry.
  pub do_get-Got :
      (name key : Bytes) (st : Store Z) (out : Buffer)
      → IsStore st
      → Returns (Got st key out) (do_get (name ∷ key ∷ []) st out)
  unfolding do_get
  do_get-Got name key st out v = Returns-bind (find_entry-Looked key st v) λ r l.
      elim (Option-cases r.0) [
        | inl e ↦ rw e (returns (got_nil (Found-none (rw e at l.found)) refl l.moved))
        | inr (id, e) ↦
            let (ent, h) = Found-some id (rw e at l.found) in
            let kept : r.1.entries id ≡ some ent = ap (λ s. s.entries id) l.moved.rest ∙ h.here in
            rw (e, kept) (returns (got_entry id ent h refl l.moved))
      ]
