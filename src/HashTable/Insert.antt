-- ===== src/HashTable/Insert.antt =====
-- Insertion, clearing and counting, against a collection of nodes in no order.
use native.Mathlib.Nat.{pow-suc}
use mathlib.Core.List.Perm
use greenis.Prelude.{
  suc, ◌+◌, ◌*◌, ◌^◌, ◌≡◌, refl, Bool, ◌&&◌, [], ◌∷◌, Perm, append-nil, none, arith, ok, Returns,
  returns, Returns-map, Returns-bind, Returns-if, Option-cases, inl, inr, leb, if◌then◌else◌,
  length, length-append,
}
use greenis.HashTable.{
  HNode, HTab, HMap, is_null, empty_map, h_init, hm_trigger_rehashing, hm_insert, hm_clear, hm_size,
}
use greenis.HashTable.Tab.{tab_nodes, IsTab, HasSlots, h_init-Made, h_insert-Inserted}
use greenis.HashTable.Rehash.{
  is_null-none, IsMap, map_nodes, Helped, hm_help_rehashing-Helped, empty_tab-IsTab,
}

module _ {ℓ} {A : Type ℓ} where
  pub empty_map-IsMap : IsMap {A = A} empty_map
  empty_map-IsMap = record {
    newer = empty_tab-IsTab;
    older = empty_tab-IsTab;
    drained = tt;
    paired = inl refl;
  }

  -- A map with the nodes of `m` and one more.
  pub record Grown (m : HMap A) (node : HNode A) (m' : HMap A) : Type ℓ where
    pub valid : IsMap m'
    pub one_more : Perm (map_nodes m') (node ∷ map_nodes m)

  -- `hm_trigger_rehashing` on a map with one table in use.
  hm_trigger_rehashing-Helped :
      (m : HMap A)
      → IsMap m
      → m.older.tab ≡ none
      → HasSlots m.newer
      → Returns (Helped m) (hm_trigger_rehashing m)
  unfolding hm_trigger_rehashing
  hm_trigger_rehashing-Helped m v e (slots, s) =
      let laid = rw s at v.newer.laid in
      let pow : (m.newer.mask + 1) * 2 ≡ 2 ^ (suc laid.2.0) =
        omega (arith, laid.2.1, pow-suc 2 laid.2.0) in
      rw e (
        Returns-bind (h_init-Made (suc laid.2.0) ((m.newer.mask + 1) * 2) pow) λ fresh made.
          returns (record {
            valid = record {
              newer = made.valid;
              older = v.newer;
              drained = rw s tt;
              paired = inr made.slots;
            };
            same = rw (made.no_nodes, append-nil (tab_nodes m.newer)) (Perm.refl _);
          }))

  -- The newer table, made if it is not there.
  record Opened (t t' : HTab A) : Type ℓ where
    valid : IsTab t'
    slots : HasSlots t'
    same : tab_nodes t' ≡ tab_nodes t

  opened : (t : HTab A) → IsTab t → Returns (Opened t) (if is_null t.tab then h_init 4 else ok t)
  opened t v = elim (Option-cases t.tab) [
    | inl n ↦ rw n (
        Returns-map (h_init-Made 2 4 refl)
          (λ fresh made. record { valid = made.valid; slots = made.slots; same = made.no_nodes }))
    | inr (slots, s) ↦
        rw s (returns (record { valid = rw s at v; slots = (slots, refl); same = refl }))
  ]

  triggered :
      (m : HMap A) (heavy : Bool)
      → IsMap m
      → HasSlots m.newer
      → Returns (Helped m) (if is_null m.older.tab && heavy then hm_trigger_rehashing m else ok m)
  triggered m heavy v s =
      Returns-if (is_null m.older.tab && heavy)
        (λ c. hm_trigger_rehashing-Helped m v (is_null-none m.older.tab (ground arith)) s)
        (λ c. returns (record { valid = v; same = Perm.refl _ }))

  -- `hm_insert` adds exactly the node.
  pub hm_insert-Grown :
      (m : HMap A) (node : HNode A) → IsMap m → Returns (Grown m node) (hm_insert m node)
  unfolding hm_insert
  hm_insert-Grown m node v = Returns-bind (opened m.newer v.newer) λ first o.
      Returns-bind (h_insert-Inserted first node o.valid o.slots) λ filled i.
        let held = record m { newer = filled } in
        let valid : IsMap held = record {
          newer = i.valid;
          older = v.older;
          drained = v.drained;
          paired = inr i.slots;
        } in
        Returns-bind (triggered held (leb ((filled.mask + 1) * 8) filled.size) valid i.slots)
          λ grown t. Returns-map (hm_help_rehashing-Helped grown t.valid) λ m' h. record {
            valid = h.valid;
            one_more = Perm.trans h.same (
                Perm.trans t.same
                  (Perm.append_right (tab_nodes m.older) (rw o.same at i.one_more)));
          }

  -- `hm_clear` leaves the empty map.
  pub hm_clear-empty : (m : HMap A) → IsMap (hm_clear m) × (map_nodes (hm_clear m) ≡ [])
  unfolding hm_clear
  hm_clear-empty m = (empty_map-IsMap, refl)

  -- `hm_size` counts the nodes.
  pub hm_size-map_nodes : (m : HMap A) → IsMap m → hm_size m ≡ length (map_nodes m)
  unfolding hm_size
  hm_size-map_nodes m v = omega (
    arith,
    v.newer.counted,
    v.older.counted,
    length-append (tab_nodes m.newer) (tab_nodes m.older),
  )
