-- ===== src/HashTable/Delete.antt =====
-- Deletion, against a collection of nodes in no order.
use mathlib.Core.List.{perm_middle}
use mathlib.Core.List.Perm
use greenis.Prelude.{
  ℕ, ◌≡◌, Bool, true, false, List, ◌∷◌, Perm, Mem, Option, none, some, ok, ◌>>=◌, Returns, returns,
  Returns-map, Returns-bind, inr,
}
use greenis.HashTable.{HNode, HMap, h_detach, h_lookup, matches, hm_delete}
use greenis.HashTable.Tab.{tab_nodes, h_detach-Detached, Looked, found, missing, h_lookup-Looked}
use greenis.HashTable.Rehash.{IsMap, map_nodes, newer_slots, hm_help_rehashing-Helped}
use greenis.HashTable.Lookup.{none_in_both}

module _ {ℓ κ} {A : Type ℓ} {K : Type κ} (key : HNode K) (eq : HNode A → HNode K → Bool) where
  abbrev Found : Type ℓ
  Found = Option (HNode A) × HMap A

  -- What a deletion makes of the nodes `ns`.
  pub data Deletes (ns : List (HNode A)) (ns' : List (HNode A)) : Option (HNode A) → Type ℓ where
    hit :
        (node : HNode A)
        → matches key eq node ≡ true
        → Perm (node ∷ ns') ns
        → Deletes ns ns' (some node)
    miss :
        ((node : HNode A) → Mem node ns → matches key eq node ≡ false)
        → Perm ns' ns
        → Deletes ns ns' none

  Deletes-perm :
      {ns ms ns' : List (HNode A)} {o : Option (HNode A)}
      → Perm ns ms
      → Deletes ns ns' o
      → Deletes ms ns' o
  Deletes-perm p (hit node t q) = hit node t (Perm.trans q p)
  Deletes-perm p (miss h q) = miss (λ node m. h node ((Perm.mem_iff p).1 m)) (Perm.trans q p)

  delete_older :
      (m : HMap A)
      → IsMap m
      → ((node : HNode A) → Mem node (tab_nodes m.newer) → matches key eq node ≡ false)
      → {o : Option (ℕ × ℕ)} → Looked key eq m.older o
      → Returns
          (λ (r : Found). Deletes (map_nodes m) (map_nodes r.1) r.0 × IsMap r.1)
          (elim o [
            | some from ↦ h_detach m.older from >>= λ (node, older).
                ok (some node, record m { older = older })
            | none ↦ ok (none, m)
          ])
  delete_older m v newer (found {from = from} node place passes) =
      Returns-bind (h_detach-Detached m.older from node v.older place) λ (gone, older) (e, d).
        returns (
          hit gone (rw e passes) (
              rw e (
                Perm.trans (Perm.symm (perm_middle (tab_nodes m.newer) (tab_nodes older)))
                  (Perm.append_left (tab_nodes m.newer) d.one_less))),
          record {
            newer = v.newer;
            older = d.valid;
            drained = d.drained m.migrate_pos v.drained;
            paired = inr (newer_slots m v place.tab);
          },
        )
  delete_older m v newer (missing older) =
      returns (miss (none_in_both key eq m newer older) (Perm.refl _), v)

  delete_newer :
      (m : HMap A)
      → IsMap m
      → {o : Option (ℕ × ℕ)} → Looked key eq m.newer o
      → Returns
          (λ (r : Found). Deletes (map_nodes m) (map_nodes r.1) r.0 × IsMap r.1)
          (elim o [
            | some from ↦ h_detach m.newer from >>= λ (node, newer).
                ok (some node, record m { newer = newer })
            | none ↦ h_lookup m.older key eq >>= λ in_older. elim in_older [
              | some from ↦ h_detach m.older from >>= λ (node, older).
                  ok (some node, record m { older = older })
              | none ↦ ok (none, m)
            ]
          ])
  delete_newer m v (found {from = from} node place passes) =
      Returns-bind (h_detach-Detached m.newer from node v.newer place) λ (gone, newer) (e, d).
        returns (
          hit gone (rw e passes) (rw e (Perm.append_right (tab_nodes m.older) d.one_less)),
          record { newer = d.valid; older = v.older; drained = v.drained; paired = inr d.slots },
        )
  delete_newer m v (missing newer) =
      Returns-bind (h_lookup-Looked key eq m.older v.older)
        λ o looked. delete_older m v newer looked

  -- `hm_delete` takes out exactly one node that matches the key, if there is one.
  pub hm_delete-Deletes :
      (m : HMap A)
      → IsMap m
      → Returns (λ r. Deletes (map_nodes m) (map_nodes r.1) r.0 × IsMap r.1) (hm_delete m key eq)
  unfolding hm_delete
  hm_delete-Deletes m v = Returns-bind (hm_help_rehashing-Helped m v) λ helped h.
      Returns-bind (h_lookup-Looked key eq helped.newer h.valid.newer) λ o looked.
        Returns-map (delete_newer helped h.valid looked)
          λ r (deletes, valid). (Deletes-perm h.same deletes, valid)
