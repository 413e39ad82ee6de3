-- ===== src/KeyValue/Change.antt =====
-- A change of one entry, and a lookup, keep the database in order.
use mathlib.Core.List.Perm
use greenis.Prelude.{
  some-injective, ℕ, ◌≡◌, ◌≢◌, ◌⊎◌, ◌↔◌, refl, sym, ap, subst, ◌∙◌, Mem, Option, some, arith,
  ==_iff, ==_refl, ◌==◌, inl, inr, Bool-cases,
}
use greenis.Bytes.{Bytes}
use greenis.HashTable.{HNode, str_hash}
use greenis.HashTable.Rehash.{map_nodes}
use greenis.KeyValue.{Entry, Store, at_entry}
use greenis.KeyValue.Get.{IsStore, HasKey, Moved}

pub at_entry-cases {ℓ} :
    {A : Type ℓ} (f : ℕ → Option A) (id : ℕ) (v : A) (q : ℕ) (e : A)
    → at_entry f id (some v) q ≡ some e
    → ((q ≡ id) × (e ≡ v)) ⊎ ((q ≢ id) × (f q ≡ some e))
at_entry-cases f id v q e h = elim (Bool-cases (q == id)) [
  | inl b ↦ inl ((==_iff q id).0 b, some-injective e v (sym (rw b at h)))
  | inr b ↦ inr (ground arith, rw b at h)
]

pub at_entry-other {ℓ} :
    {A : Type ℓ} (f : ℕ → A) (id : ℕ) (v : A) (q : ℕ) → q ≢ id → at_entry f id v q ≡ f q
at_entry-other f id v q h = ground arith

pub at_entry-same {ℓ} : {A : Type ℓ} (f : ℕ → A) (id : ℕ) (v : A) → at_entry f id v id ≡ v
at_entry-same f id v = rw (==_refl id)

module _ {Z : Type 0} where
  pub Moved-IsStore : {st st' : Store Z} → IsStore st → Moved st st' → IsStore st'
  Moved-IsStore {st} {st'} v m = subst IsStore (sym m.rest) (record {
    table = m.table;
    alive = λ n i. v.alive n (back i);
    hashed = λ n e i. v.hashed n e (back i);
    old = λ n i. v.old n (back i);
    unique = λ n k e f i j. v.unique n k e f (back i) (back j);
  })
    where
      back : {n : HNode ℕ} → Mem n (map_nodes st'.db) → Mem n (map_nodes st.db)
      back i = (Perm.mem_iff m.nodes).0 i

  pub Moved-HasKey :
      {st st' : Store Z} (key : Bytes) (id : ℕ) (ent : Entry Z)
      → Moved st st'
      → HasKey st key id ent ↔ HasKey st' key id ent
  Moved-HasKey {st} {st'} key id ent m = (
    (λ h. record {
      node = h.node;
      inside = (Perm.mem_iff m.nodes).1 h.inside;
      owner = h.owner;
      here = ap (λ s. s.entries id) m.rest ∙ h.here;
      same = h.same;
    }),
    (λ h. record {
      node = h.node;
      inside = (Perm.mem_iff m.nodes).0 h.inside;
      owner = h.owner;
      here = sym (ap (λ s. s.entries id) m.rest) ∙ h.here;
      same = h.same;
    }),
  )

  -- The store in which the entry at `id` has a new value.
  abbrev pub updated : Store Z → ℕ → Entry Z → Bytes → Store Z
  updated st id ent value = record st {
    entries = at_entry st.entries id (some (record ent { str = value }));
  }

  module _ (st : Store Z) (key : Bytes) (id : ℕ) (ent : Entry Z) (value : Bytes)
      (h : HasKey st key id ent) where
    updated_before :
        (q : ℕ) (e : Entry Z)
        → (updated st id ent value).entries q ≡ some e
        → (e' : Entry Z) × (st.entries q ≡ some e') × (e'.key ≡ e.key)
    updated_before q e k = elim (at_entry-cases st.entries id (record ent { str = value }) q e k) [
      | inl (same, new) ↦ (ent, ap st.entries same ∙ h.here, sym (ap (λ x. x.key) new))
      | inr (other, old) ↦ (e, old, refl)
    ]

    pub updated-IsStore : IsStore st → IsStore (updated st id ent value)
    updated-IsStore v = record {
      table = v.table;
      alive = λ n i. elim (Bool-cases (n.owner == id)) [
        | inl b ↦ rw b refl
        | inr b ↦ rw b (v.alive n i)
      ];
      hashed = λ n e i k.
          let (e', old, same) = updated_before n.owner e k in
          v.hashed n e' i old ∙ ap str_hash same;
      old = v.old;
      unique = λ n m e f i j k l same.
          let (e', e_old, e_key) = updated_before n.owner e k in
          let (f', f_old, f_key) = updated_before m.owner f l in
          v.unique n m e' f' i j e_old f_old (e_key ∙ same ∙ sym f_key);
    }

    pub updated-HasKey : HasKey (updated st id ent value) key id (record ent { str = value })
    updated-HasKey = record {
      node = h.node;
      inside = h.inside;
      owner = h.owner;
      here = at_entry-same st.entries id _;
      same = h.same;
    }

    -- An entry under another key is not the one that changed.
    pub updated_others :
        (k : Bytes) (i : ℕ) (e : Entry Z)
        → k ≢ key
        → HasKey st k i e ↔ HasKey (updated st id ent value) k i e
    updated_others k i e other = (
      (λ g.
          let apart : i ≢ id = λ same. other (
            sym g.same
            ∙ ap (λ x. x.key) (some-injective e ent (sym g.here ∙ ap st.entries same ∙ h.here))
            ∙ h.same) in
          record {
            node = g.node;
            inside = g.inside;
            owner = g.owner;
            here = at_entry-other st.entries id _ i apart ∙ g.here;
            same = g.same;
          }),
      (λ g. elim (at_entry-cases st.entries id (record ent { str = value }) i e g.here) [
        | inl (same, new) ↦ absurd (other (sym g.same ∙ ap (λ x. x.key) new ∙ h.same))
        | inr (apart, old) ↦ record {
          node = g.node;
          inside = g.inside;
          owner = g.owner;
          here = old;
          same = g.same;
        }
      ]),
    )
