-- ===== src/HashTable/Rehash.antt =====
-- Progressive rehashing moves nodes from the older table to the newer one and loses none.
use mathlib.Core.List.{perm_middle}
use mathlib.Core.List.Perm
use greenis.Prelude.{
  ℕ, zero, suc, ◌+◌, ◌-◌, ◌<◌, ◌≡◌, ◌⊎◌, refl, ap, subst, false, not, ◌&&◌, List, [], ◌∷◌, ◌++◌,
  Perm, none, some, Option, true, arith, ok, ◌>>=◌, Returns, returns, Returns-map, Returns-bind,
  Bool-cases, Option-cases, List-cases, inl, inr, ltb, lt→ltb, ◌==◌, length, get_elem?,
  length-eq-zero, length-append, length-perm,
}
use greenis.HashTable.{
  HNode, HMap, is_null, empty_tab, k_rehashing_work, slot_count, h_insert, h_detach, help_loop,
  hm_help_rehashing,
}
use greenis.HashTable.Slots.{lt-get_elem?, PrefixEmpty-lt, PrefixEmpty-suc}
use greenis.HashTable.Tab.{
  tab_nodes, slots_nodes, IsTab, HasSlots, Drained, h_insert-Inserted, Place, h_detach-Detached,
}

pub is_null-none {ℓ} : {B : Type ℓ} (o : Option B) → is_null o ≡ true → o ≡ none
is_null-none none h = refl
is_null-none (some b) h = cc

module _ {ℓ} {A : Type ℓ} where
  -- Both tables are in order; while the older one has its array, the newer one has too.
  pub record IsMap (m : HMap A) : Type ℓ where
    pub newer : IsTab m.newer
    pub older : IsTab m.older
    pub drained : Drained m.migrate_pos m.older.tab
    pub paired : (m.older.tab ≡ none) ⊎ HasSlots m.newer

  -- All nodes of the map.
  abbrev pub map_nodes : HMap A → List (HNode A)
  map_nodes m = tab_nodes m.newer ++ tab_nodes m.older

  -- One node less to move, or one slot less to pass.
  abbrev to_do : ℕ → HMap A → ℕ
  to_do nwork m = (k_rehashing_work - nwork) + (slot_count m.older.tab - m.migrate_pos)

  module _ (fuel nwork : ℕ) (m : HMap A) {slots : List (List (HNode A))}
      (few : nwork < k_rehashing_work) (full : 0 < m.older.size)
      (e : m.older.tab ≡ some slots) where
    round_passes :
        get_elem? slots m.migrate_pos ≡ some []
        → help_loop (suc fuel) nwork m
          ≡ help_loop fuel nwork (record m { migrate_pos = m.migrate_pos + 1 })
    unfolding help_loop
    round_passes c = simp (lt→ltb nwork k_rehashing_work few, lt→ltb 0 m.older.size full, e, c)

    round_moves :
        (node : HNode A) (chain : List (HNode A))
        → get_elem? slots m.migrate_pos ≡ some (node ∷ chain)
        → help_loop (suc fuel) nwork m ≡ (
            h_detach m.older (m.migrate_pos, 0) >>= λ (moved, older).
            h_insert m.newer moved >>= λ newer.
            help_loop fuel (nwork + 1) (record m { newer = newer; older = older }))
    unfolding help_loop
    round_moves node chain c =
        simp (lt→ltb nwork k_rehashing_work few, lt→ltb 0 m.older.size full, e, c)

  stops :
      (fuel nwork : ℕ) (m : HMap A)
      → (ltb nwork k_rehashing_work && ltb 0 m.older.size) ≡ false
      → help_loop (suc fuel) nwork m ≡ ok m
  unfolding help_loop
  stops fuel nwork m h = simp h

  -- What rehashing promises.
  pub record Helped (m m' : HMap A) : Type ℓ where
    pub valid : IsMap m'
    pub same : Perm (map_nodes m') (map_nodes m)

  -- The loop with `left` nodes to move at most: it moves as many, or all that there are.
  record Worked (left : ℕ) (m m' : HMap A) : Type ℓ where
    helped : Helped m m'
    left_over : m'.older.size ≡ m.older.size - left

  moved_over :
      (node : HNode A) {newer newer' older older' : List (HNode A)}
      → Perm newer' (node ∷ newer)
      → Perm (node ∷ older') older
      → Perm (newer' ++ older') (newer ++ older)
  moved_over node {newer} {newer'} {older} {older'} p q =
      Perm.trans (Perm.append_right older' p)
        (Perm.trans (Perm.symm (perm_middle newer older')) (Perm.append_left newer q))

  pub newer_slots :
      (m : HMap A) {slots : List (List (HNode A))}
      → IsMap m
      → m.older.tab ≡ some slots
      → HasSlots m.newer
  newer_slots m v e = elim v.paired [ inl n ↦ cc | inr s ↦ s ]

  help_loop-Worked :
      (fuel nwork : ℕ) (m : HMap A)
      → IsMap m
      → to_do nwork m < fuel
      → Returns (Worked (k_rehashing_work - nwork) m) (help_loop fuel nwork m)
  help_loop-Worked zero nwork m v h = absurd (omega arith)
  help_loop-Worked (suc fuel) nwork m v h =
      elim (Bool-cases (ltb nwork k_rehashing_work && ltb 0 m.older.size)) [
        | inr stop ↦ rw (stops fuel nwork m stop) (
            returns (record {
              helped = record { valid = v; same = Perm.refl _ };
              left_over = ground arith;
            }))
        | inl go ↦
            let few : nwork < k_rehashing_work = ground arith in
            let full : 0 < m.older.size = ground arith in
            elim (Option-cases m.older.tab) [
              | inl n ↦ absurd (omega (arith, v.older.counted, ap (λ o. length (slots_nodes o)) n))
              | inr (slots, e) ↦
                  let inside : m.migrate_pos < length slots =
                    PrefixEmpty-lt m.migrate_pos slots (rw e at v.drained)
                      (omega (arith, v.older.counted, ap (λ o. length (slots_nodes o)) e)) in
                  let (chain, c) = lt-get_elem? slots m.migrate_pos inside in
                  elim (List-cases chain) [
                    | inl empty ↦
                        let here = rw empty at c in
                        let m' = record m { migrate_pos = m.migrate_pos + 1 } in
                        let valid : IsMap m' = record {
                          newer = v.newer;
                          older = v.older;
                          drained =
                              rw e (PrefixEmpty-suc m.migrate_pos slots here (rw e at v.drained));
                          paired = v.paired;
                        } in
                        rw (round_passes fuel nwork m few full e here) (
                          Returns-map
                            (help_loop-Worked fuel nwork m' valid
                              (omega (arith, inside, ap slot_count e)))
                            (λ r k. record {
                              helped = record { valid = k.helped.valid; same = k.helped.same };
                              left_over = k.left_over;
                            }))
                    | inr ((node, rest), k) ↦
                        let here = rw k at c in
                        let place : Place m.older (m.migrate_pos, 0) node = record {
                          slots = slots;
                          chain = node ∷ rest;
                          tab = e;
                          slot = here;
                          entry = refl;
                        } in
                        rw (round_moves fuel nwork m few full e node rest here) (
                          Returns-bind
                            (h_detach-Detached m.older (m.migrate_pos, 0) node v.older place)
                            λ (moved, older) (is_node, d).
                              Returns-bind
                                (h_insert-Inserted m.newer moved v.newer (newer_slots m v e))
                                λ newer i.
                                  let m' = record m { newer = newer; older = older } in
                                  let valid : IsMap m' = record {
                                    newer = i.valid;
                                    older = d.valid;
                                    drained = d.drained m.migrate_pos v.drained;
                                    paired = inr i.slots;
                                  } in
                                  Returns-map
                                    (help_loop-Worked fuel (nwork + 1) m' valid
                                      (omega (arith, inside, ap slot_count e, d.length_kept)))
                                    (λ r k. record {
                                      helped = record {
                                        valid = k.helped.valid;
                                        same =
                                            Perm.trans k.helped.same (
                                              moved_over node (rw is_node at i.one_more)
                                                d.one_less);
                                      };
                                      left_over = omega (
                                        arith,
                                        k.left_over,
                                        d.valid.counted,
                                        v.older.counted,
                                        length-perm d.one_less,
                                      );
                                    }))
                  ]
            ]
      ]

  pub empty_tab-IsTab : IsTab {A = A} empty_tab
  empty_tab-IsTab = record { laid = refl; counted = refl }

  Helped-discard :
      (m moved : HMap A)
      → Helped m moved
      → moved.older.size ≡ 0
      → Helped m (record moved { older = empty_tab })
  Helped-discard m moved h e =
      let no_nodes : tab_nodes moved.older ≡ [] =
        length-eq-zero _ (omega (arith, h.valid.older.counted)) in
      record {
        valid = record {
          newer = h.valid.newer;
          older = empty_tab-IsTab;
          drained = tt;
          paired = inl refl;
        };
        same = subst (λ ns. Perm (tab_nodes moved.newer ++ ns) (map_nodes m)) no_nodes h.same;
      }

  -- What one call of `hm_help_rehashing` does: it moves `k_rehashing_work` nodes out of the older table,
  -- or all that there are, into the newer one, and frees an older table that has none left.
  pub record Migrated (m m' : HMap A) : Type ℓ where
    pub helped : Helped m m'
    pub left_over : m'.older.size ≡ m.older.size - k_rehashing_work
    pub moved : m'.newer.size + m'.older.size ≡ m.newer.size + m.older.size
    pub freed : m'.older.size ≡ 0 → m'.older.tab ≡ none

  Migrated-Helped :
      (m m' : HMap A)
      → IsMap m
      → Helped m m'
      → m'.older.size ≡ m.older.size - k_rehashing_work
      → (m'.older.size ≡ 0 → m'.older.tab ≡ none)
      → Migrated m m'
  Migrated-Helped m m' v h left freed = record {
    helped = h;
    left_over = left;
    moved = omega (
      arith,
      v.newer.counted,
      v.older.counted,
      h.valid.newer.counted,
      h.valid.older.counted,
      length-perm h.same,
      length-append (tab_nodes m.newer) (tab_nodes m.older),
      length-append (tab_nodes m'.newer) (tab_nodes m'.older),
    );
    freed = freed;
  }

  -- Rehashing ends within its rounds, keeps the map in order, and moves `k_rehashing_work` nodes from the
  -- older table to the newer one, or all that are left, without losing, repeating or inventing any; an
  -- older table that is then empty is freed.
  pub hm_help_rehashing-Migrated :
      (m : HMap A) → IsMap m → Returns (Migrated m) (hm_help_rehashing m)
  unfolding hm_help_rehashing
  hm_help_rehashing-Migrated m v =
      Returns-bind
        (help_loop-Worked (k_rehashing_work + slot_count m.older.tab + 1) 0 m v (omega arith))
        λ moved h. elim (Bool-cases (moved.older.size == 0 && not (is_null moved.older.tab))) [
          | inl c ↦
              let none_left : moved.older.size ≡ 0 = ground arith in
              rw c (
                returns (
                  Migrated-Helped m _ v (Helped-discard m moved h.helped none_left)
                    (omega (arith, h.left_over, none_left)) (λ e. refl)))
          | inr c ↦ rw c (
              returns (
                Migrated-Helped m moved v h.helped (omega (arith, h.left_over))
                  (λ e. is_null-none moved.older.tab (ground (arith, e)))))
        ]

  pub hm_help_rehashing-Helped : (m : HMap A) → IsMap m → Returns (Helped m) (hm_help_rehashing m)
  hm_help_rehashing-Helped m v = Returns-map (hm_help_rehashing-Migrated m v) λ r k. k.helped
