-- ===== src/HashTable/Tab.antt =====
-- One table: `h_init`, `h_insert`, `h_lookup` and `h_detach` keep it in order.
use Prim.Native.Nat.{bit_and}
use mathlib.Core.List.{not-mem-nil}
use mathlib.Core.Bool.{Bool-set}
use greenis.Prelude.{
  ℕ, suc, ◌-◌, ◌^◌, ◌<◌, ◌≡◌, ◌≢◌, refl, sym, ap, Bool, true, false, List, [], ◌∷◌, Perm, Mem,
  Option, none, some, arith, ok, Returns, returns, Bool-cases, Option-cases, inl, inr, ltb, lt→ltb,
  ◌==◌, ==_iff, length, get_elem?, set, replicate, length-set, length-replicate, length-perm,
  All-Mem,
}
use greenis.Prelude.Bits.{bit_and-le, bit_and-pow, pow_pos}
use greenis.HashTable.{
  HNode, HTab, slot_of, h_init, h_insert, find_in, remove_at, node_at, h_detach, slot_count,
  matches, h_lookup,
}
use greenis.HashTable.Slots.{
  nodes, PrefixEmpty, PrefixEmpty-remove_at, PlacedFrom, lt-get_elem?, nodes-cons, nodes-remove_at,
  PlacedFrom-set, PlacedFrom-get, All-remove_at, PlacedFrom-replicate, nodes-replicate,
  find_in-some, find_in-none, nodes-fail,
}

module _ {ℓ} {A : Type ℓ} where
  abbrev pub slots_nodes : Option (List (List (HNode A))) → List (HNode A)
  slots_nodes none = []
  slots_nodes (some slots) = nodes slots

  abbrev pub tab_nodes : HTab A → List (HNode A)
  tab_nodes t = slots_nodes t.tab

  -- A power of two of slots, each node on the slot of its hash code.
  abbrev pub Laid : ℕ → Option (List (List (HNode A))) → Type 0
  Laid mask none = mask ≡ 0
  Laid mask (some slots) =
      (length slots ≡ suc mask) × PlacedFrom mask 0 slots × ((k : ℕ) × (suc mask ≡ 2 ^ k))

  pub record IsTab (t : HTab A) : Type ℓ where
    pub laid : Laid t.mask t.tab
    pub counted : t.size ≡ length (tab_nodes t)

  -- The table has its array.
  abbrev pub HasSlots : HTab A → Type ℓ
  HasSlots t = (slots : List (List (HNode A))) × (t.tab ≡ some slots)

  pub record Made (n : ℕ) (t : HTab A) : Type ℓ where
    pub valid : IsTab t
    pub slots : HasSlots t
    pub mask : t.mask ≡ n - 1
    pub no_nodes : tab_nodes t ≡ []

  pub h_init-Made : (k n : ℕ) → n ≡ 2 ^ k → Returns (Made n) (h_init n)
  unfolding h_init
  h_init-Made k n e =
      rw (positive, masked)
        (returns (record {
          valid = record {
            laid = (
              omega (arith, length-replicate {ℓ} {A = List (HNode A)} n [], pow),
              PlacedFrom-replicate A (n - 1) 0 n,
              (k, omega (arith, pow)),
            );
            counted = ap length (sym (nodes-replicate n));
          };
          slots = (replicate n [], refl);
          mask = refl;
          no_nodes = nodes-replicate n;
        }))
    where
      pow : 0 < n
      pow = rw e (pow_pos k)

      positive : ltb 0 n ≡ true
      positive = lt→ltb 0 n pow

      masked : bit_and (n - 1) n == 0 ≡ true
      masked = (==_iff _ 0).1 (rw e (bit_and-pow k))

  pub record Inserted (t : HTab A) (node : HNode A) (t' : HTab A) : Type ℓ where
    pub valid : IsTab t'
    pub slots : HasSlots t'
    pub mask : t'.mask ≡ t.mask
    pub one_more : Perm (tab_nodes t') (node ∷ tab_nodes t)

  pub h_insert-Inserted :
      (t : HTab A) (node : HNode A)
      → IsTab t
      → HasSlots t
      → Returns (Inserted t node) (h_insert t node)
  unfolding h_insert
  h_insert-Inserted t node v (slots, e) =
      let laid = rw e at v.laid in
      let at = slot_of t node.hcode in
      let inside : at < length slots = omega (arith, bit_and-le node.hcode t.mask, laid.0) in
      let (chain, found) = lt-get_elem? slots at inside in
      let added = nodes-cons slots at node found in
      rw (e, found)
        (returns (record {
          valid = record {
            laid = (
              rw length-set laid.0,
              PlacedFrom-set t.mask 0 slots at (node ∷ chain) laid.1
                  (omega arith, PlacedFrom-get t.mask 0 slots at laid.1 found),
              laid.2,
            );
            counted =
                omega (arith, length-perm added, v.counted, ap (λ o. length (slots_nodes o)) e);
          };
          slots = (set slots at (node ∷ chain), refl);
          mask = refl;
          one_more = added;
        }))

  -- The slots that rehashing has passed are empty.
  abbrev pub Drained : ℕ → Option (List (List (HNode A))) → Type ℓ
  Drained p none = Unit
  Drained p (some slots) = PrefixEmpty p slots

  pub record Detached (t : HTab A) (node : HNode A) (t' : HTab A) : Type ℓ where
    pub valid : IsTab t'
    pub slots : HasSlots t'
    pub mask : t'.mask ≡ t.mask
    pub length_kept : slot_count t'.tab ≡ slot_count t.tab
    pub drained : (p : ℕ) → Drained p t.tab → Drained p t'.tab
    pub one_less : Perm (node ∷ tab_nodes t') (tab_nodes t)

  -- A place in the table, with the node that stands there.
  pub record Place (t : HTab A) (from : ℕ × ℕ) (node : HNode A) : Type ℓ where
    pub slots : List (List (HNode A))
    pub chain : List (HNode A)
    pub tab : t.tab ≡ some slots
    pub slot : get_elem? slots from.0 ≡ some chain
    pub entry : get_elem? chain from.1 ≡ some node

  pub node_at-Place :
      (t : HTab A) (from : ℕ × ℕ) (node : HNode A) → Place t from node → node_at t from ≡ ok node
  unfolding node_at
  node_at-Place t from node p = rw (p.tab, p.slot, p.entry)

  pub h_detach-Detached :
      (t : HTab A) (from : ℕ × ℕ) (node : HNode A)
      → IsTab t
      → Place t from node
      → Returns (λ r. (r.0 ≡ node) × Detached t node r.1) (h_detach t from)
  unfolding h_detach
  h_detach-Detached t (at, i) node v p =
      let laid = rw p.tab at v.laid in
      let less = nodes-remove_at p.slots at i p.slot p.entry in
      rw (p.tab, p.slot, p.entry)
        (returns (
          refl,
          record {
            valid = record {
              laid = (
                rw length-set laid.0,
                PlacedFrom-set t.mask 0 p.slots at (remove_at p.chain i) laid.1
                    (All-remove_at _ p.chain i (PlacedFrom-get t.mask 0 p.slots at laid.1 p.slot)),
                laid.2,
              );
              counted =
                  omega
                    (arith, length-perm less, v.counted, ap (λ o. length (slots_nodes o)) p.tab);
            };
            slots = (set p.slots at (remove_at p.chain i), refl);
            mask = refl;
            length_kept = length-set p.slots at (remove_at p.chain i);
            drained = λ k. PrefixEmpty-remove_at k p.slots at i p.slot;
            one_less = less;
          },
        ))

module _ {ℓ κ} {A : Type ℓ} {K : Type κ} (key : HNode K) (eq : HNode A → HNode K → Bool) where
  -- What a lookup says of the nodes of the table.
  pub data Looked (t : HTab A) : Option (ℕ × ℕ) → Type ℓ where
    found :
        {from : ℕ × ℕ} (node : HNode A)
        → Place t from node
        → matches key eq node ≡ true
        → Looked t (some from)
    missing :
        ((node : HNode A) → Mem node (tab_nodes t) → matches key eq node ≡ false) → Looked t none

  other_slot :
      (mask : ℕ) (n : HNode A)
      → bit_and n.hcode mask ≢ bit_and key.hcode mask
      → matches key eq n ≡ false
  other_slot mask n h = elim (Bool-cases (n.hcode == key.hcode)) [
    | inl same ↦ absurd (h (ap (λ c. bit_and c mask) ((==_iff _ _).0 same)))
    | inr differ ↦ rw differ
  ]

  pub h_lookup-Looked : (t : HTab A) → IsTab t → Returns (Looked t) (h_lookup t key eq)
  unfolding h_lookup
  h_lookup-Looked t v = elim (Option-cases t.tab) [
    | inl e ↦ rw e (returns (missing (λ node m. absurd (not-mem-nil m))))
    | inr (slots, e) ↦
        let laid = rw e at v.laid in
        let at = slot_of t key.hcode in
        let inside : at < length slots = omega (arith, bit_and-le key.hcode t.mask, laid.0) in
        let (chain, slot) = lt-get_elem? slots at inside in
        elim (Option-cases (find_in (matches key eq) chain)) [
          | inl n ↦
              let fails =
                nodes-fail (matches key eq) t.mask 0 at slots at laid.1 (omega arith) slot
                  (find_in-none (matches key eq) chain n) (other_slot t.mask) in
              rw (e, slot, n)
                (returns (
                  missing
                    (λ node m. All-Mem (λ n. matches key eq n ≡ false) (Bool-set _ _) fails m)))
          | inr (i, f) ↦
              let (node, entry, passes) = find_in-some (matches key eq) chain f in
              rw (e, slot, f)
                (returns (
                  found node
                    (record {
                      slots = slots;
                      chain = chain;
                      tab = refl;
                      slot = slot;
                      entry = entry;
                    })
                    passes))
        ]
  ]
