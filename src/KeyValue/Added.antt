-- ===== src/KeyValue/Added.antt =====
-- A new entry keeps the database in order.
use mathlib.Core.List.{mem-cons_self, mem-cons_of_mem, eq-or-mem_of_mem-cons, mem_of_ne_of_mem}
use mathlib.Core.List.Perm
use mathlib.Core.Logic.Or
use mathlib.Core.Logic.{◌∨₁◌}
use mathlib.Core.Bool.{Bool-set}
use native.Mathlib.Nat.{ℕ_set}
use native.Mathlib.Bridge.{le_prop}
use greenis.Prelude.{
  some-injective, ℕ, ◌+◌, ◌<◌, ◌≡◌, ◌≢◌, ◌↔◌, refl, sym, ap, ◌∙◌, ◌∷◌, Perm, Mem, some, arith,
}
use greenis.Bytes.{Bytes}
use greenis.HashTable.{HNode, str_hash}
use greenis.HashTable.Rehash.{IsMap, map_nodes}
use greenis.KeyValue.{Entry, Store, t_str}
use greenis.KeyValue.Get.{IsStore, HasKey}

module _ {Z : Type 0} where
  -- The entry that `set` makes.
  abbrev pub string_entry : Bytes → Bytes → Z → Entry Z
  string_entry key value zset = record { key = key; type = t_str; str = value; zset = zset }

  -- A store with one node more, for a new entry at the fresh address.
  pub record Added (st : Store Z) (key : Bytes) (ent : Entry Z) (st' : Store Z) : Type 0 where
    pub table : IsMap st'.db
    pub nodes :
        Perm
          (map_nodes st'.db)
          (record { hcode = str_hash key; owner = st.fresh } ∷ map_nodes st.db)
    pub others : (q : ℕ) → q ≢ st.fresh → st'.entries q ≡ st.entries q
    pub new : st'.entries st.fresh ≡ some ent
    pub next : st'.fresh ≡ st.fresh + 1

  module _ (st : Store Z) (key : Bytes) (ent : Entry Z) (st' : Store Z) where
    new_node : HNode ℕ
    new_node = record { hcode = str_hash key; owner = st.fresh }

    module _ (v : IsStore st) (own : ent.key ≡ key) (a : Added st key ent st')
        (absent : (id : ℕ) (e : Entry Z) → ¬ HasKey st key id e) where
      old_entry : (n : HNode ℕ) → Mem n (map_nodes st.db) → st'.entries n.owner ≡ st.entries n.owner
      old_entry n i = a.others n.owner (λ e. lt_irrefl (v.old n i) e)
        where
          lt_irrefl : n.owner < st.fresh → n.owner ≢ st.fresh
          lt_irrefl p e = omega arith

      inside_cases :
          (n : HNode ℕ) → Mem n (map_nodes st'.db) → (n ≡ new_node) ∨₁ Mem n (map_nodes st.db)
      unfolding new_node
      inside_cases n i = eq-or-mem_of_mem-cons ((Perm.mem_iff a.nodes).0 i)

      new_entry : (n : HNode ℕ) → n ≡ new_node → st'.entries n.owner ≡ some ent
      unfolding new_node
      new_entry n e = ap (λ x. st'.entries x.owner) e ∙ a.new

      -- No older entry has the key of the new one.
      key_apart :
          (n m : HNode ℕ) (e f : Entry Z)
          → n ≡ new_node
          → Mem m (map_nodes st.db)
          → st'.entries n.owner ≡ some e
          → st'.entries m.owner ≡ some f
          → e.key ≢ f.key
      key_apart n m e f new i k l same = absent m.owner f (record {
        node = m;
        inside = i;
        owner = refl;
        here = sym (old_entry m i) ∙ l;
        same = sym same ∙ ap (λ x. x.key) (some-injective e ent (sym k ∙ new_entry n new)) ∙ own;
      })

      pub Added-IsStore : IsStore st'
      unfolding new_node
      Added-IsStore = record {
        table = a.table;
        alive = λ n i.
            Or.elim (Bool-set _ _) (inside_cases n i) (λ e. rw (new_entry n e) refl)
              (λ o. rw (old_entry n o) (v.alive n o));
        hashed = λ n e i k.
            Or.elim (ℕ_set _ _) (inside_cases n i)
              (λ new.
                ap (λ x. x.hcode) new
                ∙ ap str_hash
                    (sym own ∙ ap (λ x. x.key) (some-injective ent e (sym (new_entry n new) ∙ k))))
              (λ o. v.hashed n e o (sym (old_entry n o) ∙ k));
        old = λ n i.
            Or.elim le_prop (inside_cases n i) (λ new. omega (arith, ap (λ x. x.owner) new, a.next))
              (λ o. omega (arith, v.old n o, a.next));
        unique = λ n m e f i j k l same.
            Or.elim (ℕ_set _ _) (inside_cases n i)
              (λ n_new.
                Or.elim (ℕ_set _ _) (inside_cases m j)
                  (λ m_new. ap (λ x. x.owner) n_new ∙ sym (ap (λ x. x.owner) m_new))
                  (λ m_old. absurd (key_apart n m e f n_new m_old k l same)))
              (λ n_old.
                Or.elim (ℕ_set _ _) (inside_cases m j)
                  (λ m_new. absurd (key_apart m n f e m_new n_old l k (sym same)))
                  (λ m_old.
                    v.unique n m e f n_old m_old (sym (old_entry n n_old) ∙ k)
                      (sym (old_entry m m_old) ∙ l) same));
      }

      pub Added-HasKey : HasKey st' key st.fresh ent
      unfolding new_node
      Added-HasKey = record {
        node = new_node;
        inside = (Perm.mem_iff a.nodes).1 mem-cons_self;
        owner = refl;
        here = a.new;
        same = own;
      }

      pub Added_others :
          (k : Bytes) (i : ℕ) (e : Entry Z) → k ≢ key → HasKey st k i e ↔ HasKey st' k i e
      unfolding new_node
      Added_others k i e other = (
        (λ g. record {
          node = g.node;
          inside = (Perm.mem_iff a.nodes).1 (mem-cons_of_mem _ g.inside);
          owner = g.owner;
          here =
              sym (ap st'.entries g.owner)
              ∙ old_entry g.node g.inside
              ∙ ap st.entries g.owner
              ∙ g.here;
          same = g.same;
        }),
        (λ g.
            let apart : i ≢ st.fresh = λ same. other (
              sym g.same
              ∙ ap (λ x. x.key) (some-injective e ent (sym g.here ∙ ap st'.entries same ∙ a.new))
              ∙ own) in
            record {
              node = g.node;
              inside =
                  mem_of_ne_of_mem (λ same. apart (sym g.owner ∙ ap (λ x. x.owner) same))
                    ((Perm.mem_iff a.nodes).0 g.inside);
              owner = g.owner;
              here = sym (a.others i apart) ∙ g.here;
              same = g.same;
            }),
      )
