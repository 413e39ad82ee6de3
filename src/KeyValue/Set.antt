-- ===== src/KeyValue/Set.antt =====
-- What `set` makes of the database, and what a `get` then replies.
use greenis.Prelude.{
  some-injective, ℕ, ◌≡◌, ◌≢◌, ◌↔◌, refl, sym, ap, ◌∙◌, true, false, [], ◌∷◌, Option, some, arith,
  ◌>>=◌, Returns, returns, Returns-bind, Returns-map, length, inl, inr, Option-cases, Bool-cases,
}
use greenis.Bytes.{Bytes}
use greenis.Buffer.{Buffer, out_nil, out_str, out_err, err_bad_typ}
use greenis.Response.{literal}
use greenis.HashTable.{str_hash}
use greenis.HashTable.Insert.{hm_insert-Grown}
use greenis.KeyValue.{SortedSets, Entry, Store, is_str, at_entry, entry_new, do_set, do_get}
use greenis.KeyValue.Get.{
  IsStore, HasKey, Moved, Found-none, Found-some, find_entry-Looked, Got, got_entry, got_nil,
  do_get-Got,
}
use greenis.KeyValue.Change.{
  at_entry-other, at_entry-same, Moved-IsStore, Moved-HasKey, updated, updated-IsStore,
  updated-HasKey, updated_others,
}
use greenis.KeyValue.Added.{string_entry, Added, Added-IsStore, Added-HasKey, Added_others}

-- What `set` makes of a database: the key had no entry, or strings only, and now has the value, with
-- the other keys as they were; or the key has an entry that is not a string, which stays.
pub data Stored {Z : Type 0} (st : Store Z) (key value : Bytes) (out : Buffer)
    (r : Store Z × Buffer) : Type 0 where
  stored :
      (id : ℕ) (ent : Entry Z)
      → ((i : ℕ) (e : Entry Z) → HasKey st key i e → is_str e.type ≡ true)
      → HasKey r.0 key id ent
      → ent.str ≡ value
      → is_str ent.type ≡ true
      → r.1 ≡ out_nil out
      → IsStore r.0
      → ((k : Bytes) (i : ℕ) (e : Entry Z) → k ≢ key → HasKey st k i e ↔ HasKey r.0 k i e)
      → Stored st key value out r
  refused :
      (id : ℕ) (ent : Entry Z)
      → HasKey st key id ent
      → is_str ent.type ≡ false
      → r.1 ≡ out_err out err_bad_typ (literal "a non-string value exists")
      → Moved st r.0
      → Stored st key value out r

↔-trans : {A B C : Type 0} → A ↔ B → B ↔ C → A ↔ C
↔-trans f g = ((λ a. g.0 (f.0 a)), (λ c. f.1 (g.1 c)))

module _ (sets : SortedSets) where
  open sets use {ZSet, empty_zset}

  -- What `entry_new` makes for `set`.
  abbrev blank : Entry ZSet
  blank = string_entry [] [] empty_zset

  one_entry :
      (key : Bytes) (st : Store ZSet) (id id' : ℕ) (ent ent' : Entry ZSet)
      → IsStore st
      → HasKey st key id ent
      → HasKey st key id' ent'
      → ent' ≡ ent
  one_entry key st id id' ent ent' v h h' =
      let here = ap st.entries h.owner ∙ h.here in
      let here' = ap st.entries h'.owner ∙ h'.here in
      let place : id ≡ id' =
        sym h.owner
        ∙ v.unique h.node h'.node ent ent' h.inside h'.inside here here' (h.same ∙ sym h'.same)
        ∙ h'.owner in
      some-injective ent' ent (sym h'.here ∙ sym (ap st.entries place) ∙ h.here)

  module _ (key value : Bytes) (st : Store ZSet) (out : Buffer) (st' : Store ZSet) (v : IsStore st)
      (m : Moved st st') where
    v' : IsStore st'
    v' = Moved-IsStore v m

    -- The key is new.
    Added-Stored :
        (r : Store ZSet)
        → ((id : ℕ) (e : Entry ZSet) → ¬ HasKey st key id e)
        → Added st' key (string_entry key value empty_zset) r
        → Stored st key value out (r, out_nil out)
    Added-Stored r absent a =
        let ent = string_entry key value empty_zset in
        let absent' : (id : ℕ) (e : Entry ZSet) → ¬ HasKey st' key id e =
          λ id e h. absent id e ((Moved-HasKey key id e m).1 h) in
        stored st'.fresh ent (λ i e h. absurd (absent i e h))
          (Added-HasKey st' key ent r v' refl a absent') refl refl refl
          (Added-IsStore st' key ent r v' refl a absent')
          (λ k i e other.
            ↔-trans (Moved-HasKey k i e m)
              (Added_others st' key ent r v' refl a absent' k i e other))

    -- The key has an entry.
    updated-Stored :
        (id : ℕ) (ent : Entry ZSet)
        → HasKey st key id ent
        → is_str ent.type ≡ true
        → Stored st key value out (updated st' id ent value, out_nil out)
    updated-Stored id ent h s =
        let h' = (Moved-HasKey key id ent m).0 h in
        let strings : (i : ℕ) (e : Entry ZSet) → HasKey st key i e → is_str e.type ≡ true =
          λ i e k. ap (λ x. is_str x.type) (one_entry key st id i ent e v h k) ∙ s in
        stored id (record ent { str = value }) strings (updated-HasKey st' key id ent value h') refl
          s refl (updated-IsStore st' key id ent value h' v')
          (λ k i e other.
            ↔-trans (Moved-HasKey k i e m) (updated_others st' key id ent value h' k i e other))

    made_others :
        (f : ℕ → Option (Entry ZSet)) (x y : Option (Entry ZSet)) (q : ℕ)
        → q ≢ st'.fresh
        → at_entry (at_entry f st'.fresh x) st'.fresh y q ≡ f q
    made_others f x y q apart =
        at_entry-other (at_entry f st'.fresh x) st'.fresh y q apart
        ∙ at_entry-other f st'.fresh x q apart

  -- `set` returns on a database in order. If the key has no entry, or a string, it then has the value, the
  -- other keys have what they had, and the database is in order; a key with another value is refused with
  -- an error, and nothing changes.
  pub do_set-Stored :
      (name key value : Bytes) (st : Store ZSet) (out : Buffer)
      → IsStore st
      → Returns (Stored st key value out) (do_set sets (name ∷ key ∷ value ∷ []) st out)
  unfolding do_set entry_new
  do_set-Stored name key value st out v = Returns-bind (find_entry-Looked key st v) λ r l.
      elim (Option-cases r.0) [
        | inl e ↦
            rw (e, at_entry-same r.1.entries r.1.fresh)
              (Returns-bind
                (hm_insert-Grown r.1.db (record { hcode = str_hash key; owner = r.1.fresh })
                  l.moved.table)
                λ db g. returns (
                  Added-Stored key value st out r.1 v l.moved _ (Found-none (rw e at l.found))
                    (record {
                      table = g.valid;
                      nodes = g.one_more;
                      others = made_others key value st out r.1 v l.moved r.1.entries _ _;
                      new = at_entry-same (at_entry r.1.entries r.1.fresh (some blank)) r.1.fresh _;
                      next = refl;
                    })))
        | inr (id, e) ↦
            let (ent, h) = Found-some id (rw e at l.found) in
            let kept : r.1.entries id ≡ some ent = ap (λ s. s.entries id) l.moved.rest ∙ h.here in
            elim (Bool-cases (is_str ent.type)) [
              | inl s ↦
                  rw (e, kept, s)
                    (returns (updated-Stored key value st out r.1 v l.moved id ent h s))
              | inr s ↦ rw (e, kept, s) (returns (refused id ent h s refl l.moved))
            ]
      ]

  replied :
      (key value : Bytes) (st : Store ZSet) (out : Buffer) (id : ℕ) (ent : Entry ZSet)
      (r : Store ZSet × Buffer)
      → IsStore st
      → HasKey st key id ent
      → ent.str ≡ value
      → is_str ent.type ≡ true
      → Got st key out r
      → r.1 ≡ out_str out value (length value)
  replied key value st out id ent r v h str s (got_nil absent e m) = absurd (absent id ent h)
  replied key value st out id ent r v h str s (got_entry id' ent' h' e m) =
      let same : ent' ≡ ent = one_entry key st id id' ent ent' v h h' in rw (e, same, s, str)

  -- After a `set` of a key that has no entry, or a string, a `get` of the key replies with the value.
  pub do_get-do_set :
      (name name' key value : Bytes) (st : Store ZSet) (out out' : Buffer)
      → IsStore st
      → ((id : ℕ) (ent : Entry ZSet) → HasKey st key id ent → is_str ent.type ≡ true)
      → Returns
          (λ r. r.1 ≡ out_str out' value (length value))
          (do_set sets (name ∷ key ∷ value ∷ []) st out >>= λ r. do_get (name' ∷ key ∷ []) r.0 out')
  do_get-do_set name name' key value st out out' v strings =
      Returns-bind (do_set-Stored name key value st out v) λ r s. then_get r s
    where
      then_get :
          (r : Store ZSet × Buffer)
          → Stored st key value out r
          → Returns
              (λ g. g.1 ≡ out_str out' value (length value))
              (do_get (name' ∷ key ∷ []) r.0 out')
      then_get r (stored id ent before h str s reply order others) =
          Returns-map (do_get-Got name' key r.0 out' order)
            λ g got. replied key value r.0 out' id ent g order h str s got
      then_get r (refused id ent h s reply m) = absurd (ground (arith, sym s ∙ strings id ent h))
