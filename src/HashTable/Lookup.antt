-- ===== src/HashTable/Lookup.antt =====
-- Lookup, against a collection of nodes in no order.
use mathlib.Core.List.{mem-append, mem-append_left, mem-append_right, mem-cons_self}
use mathlib.Core.List.Perm
use mathlib.Core.Logic.Or
use mathlib.Core.Bool.{Bool-set}
use greenis.Prelude.{
  ℕ, ◌≡◌, refl, Bool, true, false, List, Perm, Mem, Option, none, some, ok, ◌>>=◌, Returns, returns,
  Returns-map, Returns-bind,
}
use greenis.HashTable.{HNode, HTab, HMap, node_at, h_lookup, matches, hm_lookup}
use greenis.HashTable.Slots.{nodes-remove_at}
use greenis.HashTable.Tab.{tab_nodes, Place, node_at-Place, Looked, found, missing, h_lookup-Looked}
use greenis.HashTable.Rehash.{IsMap, map_nodes, Helped, hm_help_rehashing-Helped}

Place-Mem {ℓ} :
    {A : Type ℓ} (t : HTab A) (from : ℕ × ℕ) (node : HNode A)
    → Place t from node
    → Mem node (tab_nodes t)
Place-Mem t from node p =
    rw p.tab ((Perm.mem_iff (nodes-remove_at p.slots from.0 from.1 p.slot p.entry)).0 mem-cons_self)

module _ {ℓ κ} {A : Type ℓ} {K : Type κ} (key : HNode K) (eq : HNode A → HNode K → Bool) where
  abbrev Found : Type ℓ
  Found = Option (HNode A) × HMap A

  -- A lookup among `ns`: a node that matches the key, or none does.
  pub data Answers (ns : List (HNode A)) : Option (HNode A) → Type ℓ where
    hit : (node : HNode A) → Mem node ns → matches key eq node ≡ true → Answers ns (some node)
    miss : ((node : HNode A) → Mem node ns → matches key eq node ≡ false) → Answers ns none

  Answers-perm :
      {ns ns' : List (HNode A)} {o : Option (HNode A)} → Perm ns ns' → Answers ns o → Answers ns' o
  Answers-perm p (hit node m t) = hit node ((Perm.mem_iff p).0 m) t
  Answers-perm p (miss h) = miss (λ node m. h node ((Perm.mem_iff p).1 m))

  -- The two tables together, when neither holds a match.
  pub none_in_both :
      (m : HMap A)
      → ((node : HNode A) → Mem node (tab_nodes m.newer) → matches key eq node ≡ false)
      → ((node : HNode A) → Mem node (tab_nodes m.older) → matches key eq node ≡ false)
      → (node : HNode A) → Mem node (map_nodes m)
      → matches key eq node ≡ false
  none_in_both m newer older node in_map =
      Or.elim (Bool-set _ _) (mem-append.0 in_map) (newer node) (older node)

  look_older :
      (m : HMap A)
      → ((node : HNode A) → Mem node (tab_nodes m.newer) → matches key eq node ≡ false)
      → {o : Option (ℕ × ℕ)} → Looked key eq m.older o
      → Returns
          (λ (r : Found). Answers (map_nodes m) r.0 × (r.1 ≡ m))
          (elim o [
            | some from ↦ node_at m.older from >>= λ node. ok (some node, m)
            | none ↦ ok (none, m)
          ])
  look_older m newer (found {from = from} node place passes) =
      rw (node_at-Place m.older from node place) (
        returns (
          hit node (mem-append_right (tab_nodes m.newer) (Place-Mem m.older from node place))
              passes,
          refl,
        ))
  look_older m newer (missing older) = returns (miss (none_in_both m newer older), refl)

  look_newer :
      (m : HMap A)
      → IsMap m
      → {o : Option (ℕ × ℕ)} → Looked key eq m.newer o
      → Returns
          (λ (r : Found). Answers (map_nodes m) r.0 × (r.1 ≡ m))
          (elim o [
            | some from ↦ node_at m.newer from >>= λ node. ok (some node, m)
            | none ↦ h_lookup m.older key eq >>= λ in_older. elim in_older [
              | some from ↦ node_at m.older from >>= λ node. ok (some node, m)
              | none ↦ ok (none, m)
            ]
          ])
  look_newer m v (found {from = from} node place passes) =
      rw (node_at-Place m.newer from node place) (
        returns (
          hit node (mem-append_left (tab_nodes m.older) (Place-Mem m.newer from node place)) passes,
          refl,
        ))
  look_newer m v (missing newer) =
      Returns-bind (h_lookup-Looked key eq m.older v.older) λ o looked. look_older m newer looked

  -- `hm_lookup` finds a node that matches the key if there is one, and changes no content.
  pub hm_lookup-Answers :
      (m : HMap A)
      → IsMap m
      → Returns (λ r. Answers (map_nodes m) r.0 × Helped m r.1) (hm_lookup m key eq)
  unfolding hm_lookup
  hm_lookup-Answers m v = Returns-bind (hm_help_rehashing-Helped m v) λ helped h.
      Returns-bind (h_lookup-Looked key eq helped.newer h.valid.newer) λ o looked.
        Returns-map (look_newer helped h.valid looked)
          λ r (answers, same). (Answers-perm h.same answers, rw same h)
