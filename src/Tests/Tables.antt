-- ===== src/Tests/Tables.antt =====
-- A hash map in the middle of rehashing.
use greenis.Prelude.{ℕ, ◌≡◌, refl, Bool, [], ◌∷◌, some, ok, ◌>>=◌, arith, inr, ◌==◌, Returns}
use greenis.HashTable.{HNode, HTab, HMap, hm_insert, hm_lookup, hm_delete, hm_help_rehashing}
use greenis.HashTable.Slots.{nodes}
use greenis.HashTable.Rehash.{IsMap, map_nodes, Helped, Migrated, hm_help_rehashing-Migrated}
use greenis.HashTable.Insert.{Grown, hm_insert-Grown}
use greenis.HashTable.Lookup.{Answers, hm_lookup-Answers}
use greenis.HashTable.Delete.{Deletes, hm_delete-Deletes}

abbrev node : ℕ → HNode ℕ
node h = record { hcode = h; owner = h }

abbrev newer : HTab ℕ
newer = record {
  tab = some ((node 8 ∷ []) ∷ [] ∷ [] ∷ [] ∷ [] ∷ (node 13 ∷ node 5 ∷ []) ∷ [] ∷ [] ∷ []);
  mask = 7;
  size = 3;
}

abbrev older : HTab ℕ
older = record {
  tab = some ([] ∷ [] ∷ (node 6 ∷ node 2 ∷ []) ∷ (node 3 ∷ []) ∷ []);
  mask = 3;
  size = 3;
}

abbrev halfway : HMap ℕ
halfway = record { newer = newer; older = older; migrate_pos = 1 }

halfway-IsMap : IsMap halfway
unfolding nodes
halfway-IsMap = record {
  newer = record { laid = (refl, omega arith, (3, refl)); counted = refl };
  older = record { laid = (refl, omega arith, (2, refl)); counted = refl };
  drained = (refl, tt);
  paired = inr (_, refl);
}

abbrev same_owner : HNode ℕ → HNode ℕ → Bool
same_owner n key = n.owner == key.owner

-- The lookup first moves the three nodes of the older table, which is then gone.
found_in_older : (hm_lookup halfway (node 2) same_owner >>= λ (o, m). ok o) ≡ ok (some (node 2))
unfolding hm_lookup
found_in_older = refl

hm_help_rehashing-Migrated_example : Returns (Migrated halfway) (hm_help_rehashing halfway)
hm_help_rehashing-Migrated_example = hm_help_rehashing-Migrated halfway halfway-IsMap

hm_insert-Grown_example : Returns (Grown halfway (node 4)) (hm_insert halfway (node 4))
hm_insert-Grown_example = hm_insert-Grown halfway (node 4) halfway-IsMap

hm_lookup-Answers_example :
    Returns
      (λ r. Answers (node 13) same_owner (map_nodes halfway) r.0 × Helped halfway r.1)
      (hm_lookup halfway (node 13) same_owner)
hm_lookup-Answers_example = hm_lookup-Answers (node 13) same_owner halfway halfway-IsMap

hm_delete-Deletes_example :
    Returns
      (λ r. Deletes (node 3) same_owner (map_nodes halfway) (map_nodes r.1) r.0 × IsMap r.1)
      (hm_delete halfway (node 3) same_owner)
hm_delete-Deletes_example = hm_delete-Deletes (node 3) same_owner halfway halfway-IsMap
