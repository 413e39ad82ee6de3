-- ===== src/Zset/Delete.antt =====
-- `zset_delete` takes a member out of both indexes.
use mathlib.Core.List.{mem-cons_self}
use mathlib.Core.List.Perm
use greenis.Zset.Lookup.{hcmp_lem, hcmp-same}
use greenis.Prelude.{
  and_right, and_true, ℕ, ◌^◌, ◌≤◌, ◌<◌, ◌≡◌, refl, sym, ap, ◌∙◌, subst, true, false, List, ◌∷◌,
  ◌++◌, arith, Perm, Mem, Option, none, some, Run, ok, ◌>>=◌, ◌>>◌, assert, require, Distinct,
  Returns, returns, Returns-bind, Returns-inv, fault, length, ==_iff,
}
use greenis.HashTable.{HNode, HMap, str_hash, matches, hm_delete}
use greenis.HashTable.Rehash.{IsMap, map_nodes}
use greenis.HashTable.Delete.{Deletes, hit, miss, hm_delete-Deletes}
use greenis.Avl.{avl_del}
use greenis.Avl.Delete.{avl_del-Becomes}
use greenis.Zset.{ZNode, ZSet, set_member, rounds, hkey, hcmp, zset_delete}
use greenis.Zset.Update.{IsOrder}

-- The member `p` is under its name in the hash table, and no other member has this name.
pub record IsNamed (zset : ZSet) (p : ℕ) (z : ZNode) : Type 0 where
  pub here : zset.members p ≡ some z
  pub node : HNode ℕ
  pub inside : Mem node (map_nodes zset.hmap)
  pub owner : node.owner ≡ p
  pub code : node.hcode ≡ str_hash z.name
  pub unique :
      (n : HNode ℕ) (e : ZNode)
      → Mem n (map_nodes zset.hmap)
      → zset.members n.owner ≡ some e
      → e.name ≡ z.name
      → n.owner ≡ p

-- What is left without the member `p`.
pub record Removed (zset : ZSet) (p : ℕ) (l : List ℕ) (made : ZSet) : Type 0 where
  pub order : IsOrder made l
  pub table : IsMap made.hmap
  pub node : HNode ℕ
  pub owner : node.owner ≡ p
  pub one_less : Perm (node ∷ map_nodes made.hmap) (map_nodes zset.hmap)
  pub freed : made.members ≡ set_member zset.members p none

-- What `zset_delete` does after the hash table.
abbrev detach : ZSet → ℕ → Option (HNode ℕ) → HMap ℕ → Run ZSet
detach zset p found hmap =
    assert (elim found [ none ↦ false | some n ↦ true ])
    >> (avl_del (rounds zset) zset.nodes p >>= λ (root, nodes). ok (record zset {
      root = root;
      hmap = hmap;
      nodes = nodes;
      members = set_member zset.members p none;
    }))

delete_step :
    (zset : ZSet) (p : ℕ) (z : ZNode)
    → zset.members p ≡ some z
    → zset_delete zset p ≡ (
        hm_delete zset.hmap (hkey z.name) (hcmp zset.members) >>= λ (found, hmap).
        detach zset p found hmap)
unfolding zset_delete
delete_step zset p z e =
    ap
      (λ m. require m >>= λ z'.
        hm_delete zset.hmap (hkey z'.name) (hcmp zset.members) >>= λ (found, hmap).
        detach zset p found hmap)
      e

detach-Removed :
    (zset : ZSet) (p : ℕ) (z : ZNode) (xs ys : List ℕ) (found : Option (HNode ℕ)) (hmap : HMap ℕ)
    → IsNamed zset p z
    → IsOrder zset (xs ++ p ∷ ys)
    → Distinct (xs ++ p ∷ ys)
    → length (xs ++ p ∷ ys) < 2 ^ 31
    → length (xs ++ p ∷ ys) ≤ rounds zset
    → Deletes (hkey z.name) (hcmp zset.members) (map_nodes zset.hmap) (map_nodes hmap) found
    → IsMap hmap
    → Returns (Removed zset p (xs ++ ys)) (detach zset p found hmap)
detach-Removed zset p z xs ys _ hmap named held distinct small enough (hit n t perm) table =
    let (e, here, same) = hcmp_lem zset.members n z.name (and_right _ _ t) in
    let owner = named.unique n e ((Perm.mem_iff perm).0 mem-cons_self) here same in
    Returns-bind
      (avl_del-Becomes (rounds zset) zset.nodes zset.root xs p ys held distinct small enough)
      λ (root, nodes) w. returns (record {
        order = w.held;
        table = table;
        node = n;
        owner = owner;
        one_less = perm;
        freed = refl;
      })
detach-Removed zset p z xs ys _ hmap named held distinct small enough (miss none_matches perm)
      table =
    let fits : matches (hkey z.name) (hcmp zset.members) named.node ≡ true =
      and_true _ _ ((==_iff _ _).1 named.code)
        (hcmp-same zset.members named.node z (ap zset.members named.owner ∙ named.here)) in
    absurd (ground (arith, sym fits ∙ none_matches named.node named.inside))

-- `zset_delete` of a member takes it out of the hash table and out of the tree, whose other nodes keep their order, and frees
-- it and nothing else. The member is under its name in a hash table in order, no other has the name, and the set has
-- less than 2^31 members and no more than its hash table counts.
pub zset_delete-Removed :
    (zset : ZSet) (p : ℕ) (z : ZNode) (xs ys : List ℕ)
    → IsMap zset.hmap
    → IsNamed zset p z
    → IsOrder zset (xs ++ p ∷ ys)
    → Distinct (xs ++ p ∷ ys)
    → length (xs ++ p ∷ ys) < 2 ^ 31
    → length (xs ++ p ∷ ys) ≤ rounds zset
    → Returns (Removed zset p (xs ++ ys)) (zset_delete zset p)
zset_delete-Removed zset p z xs ys table named held distinct small enough =
    subst (Returns (Removed zset p (xs ++ ys))) (sym (delete_step zset p z named.here)) (
      Returns-bind (hm_delete-Deletes (hkey z.name) (hcmp zset.members) zset.hmap table)
        λ (found, hmap) (d, m).
          detach-Removed zset p z xs ys found hmap named held distinct small enough d m)

refused :
    (zset : ZSet) (p : ℕ) (z : ZNode) (found : Option (HNode ℕ)) (hmap : HMap ℕ)
    → ((n : HNode ℕ)
        → Mem n (map_nodes zset.hmap)
        → matches (hkey z.name) (hcmp zset.members) n ≡ false)
    → Deletes (hkey z.name) (hcmp zset.members) (map_nodes zset.hmap) (map_nodes hmap) found
    → detach zset p found hmap ≡ fault
refused zset p z _ hmap none_matches (hit n t perm) =
    absurd (ground (arith, sym t ∙ none_matches n ((Perm.mem_iff perm).0 mem-cons_self)))
refused zset p z _ hmap none_matches (miss h perm) = refl

-- `zset_delete` of a node whose name no node of the hash table has fails its assertion.
pub zset_delete-fault :
    (zset : ZSet) (p : ℕ) (z : ZNode)
    → IsMap zset.hmap
    → zset.members p ≡ some z
    → ((n : HNode ℕ)
        → Mem n (map_nodes zset.hmap)
        → matches (hkey z.name) (hcmp zset.members) n ≡ false)
    → zset_delete zset p ≡ fault
zset_delete-fault zset p z table here none_matches =
    let (r, e, k) =
      Returns-inv (hm_delete-Deletes (hkey z.name) (hcmp zset.members) zset.hmap table) in
    delete_step zset p z here
    ∙ ap (λ m. m >>= λ (found, hmap). detach zset p found hmap) e
    ∙ refused zset p z r.0 r.1 none_matches k.0
