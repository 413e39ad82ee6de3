-- ===== src/Zset/Lookup.antt =====
-- `zset_lookup` finds a member by its name.
use mathlib.Core.List.Perm
use greenis.Prelude.{
  and_right, and_true, ℕ, ◌≡◌, ◌≢◌, inl, inr, refl, sym, ap, ◌∙◌, subst, true, arith, Perm, Mem,
  Option, none, some, Option-cases, Bool-cases, ok, Returns, returns, Returns-bind, branch-true,
  branch-false, bytes_eq_iff, ==_iff, ◌==◌,
}
use greenis.Bytes.{Bytes}
use greenis.HashTable.{HNode, str_hash, matches}
use greenis.HashTable.Rehash.{IsMap, map_nodes}
use greenis.HashTable.Lookup.{Answers, hit, miss, hm_lookup-Answers}
use greenis.Zset.{ZNode, ZSet, Members, hkey, hcmp, zset_lookup}

pub hcmp_lem :
    (ms : Members) (n : HNode ℕ) (name : Bytes)
    → hcmp ms n (hkey name) ≡ true
    → (e : ZNode) × (ms n.owner ≡ some e) × (e.name ≡ name)
unfolding hcmp
hcmp_lem ms n name h = elim (Option-cases (ms n.owner)) [
  | inl e ↦ absurd (ground (arith, rw (hcmp, e) at h))
  | inr (z, e) ↦ (z, e, (bytes_eq_iff z.name name).0 (rw (hcmp, e) at h))
]

pub hcmp-same :
    (ms : Members) (n : HNode ℕ) (z : ZNode) → ms n.owner ≡ some z → hcmp ms n (hkey z.name) ≡ true
unfolding hcmp
hcmp-same ms n z e = rw (hcmp, e) ((bytes_eq_iff z.name z.name).1 refl)

-- The hash table has each member under the hash of its name, and is empty when the tree is.
pub record IsIndexed (zset : ZSet) : Type 0 where
  pub table : IsMap zset.hmap
  pub coded :
      (n : HNode ℕ) (z : ZNode)
      → Mem n (map_nodes zset.hmap)
      → zset.members n.owner ≡ some z
      → n.hcode ≡ str_hash z.name
  pub empty : zset.root ≡ 0 → (n : HNode ℕ) → ¬ Mem n (map_nodes zset.hmap)

-- A member with the name, or none has it.
pub data Found (zset : ZSet) (name : Bytes) : Option ℕ → Type 0 where
  named :
      (n : HNode ℕ) (z : ZNode)
      → Mem n (map_nodes zset.hmap)
      → zset.members n.owner ≡ some z
      → z.name ≡ name
      → Found zset name (some n.owner)
  unnamed :
      ((n : HNode ℕ) (z : ZNode)
        → Mem n (map_nodes zset.hmap)
        → zset.members n.owner ≡ some z
        → z.name ≢ name)
      → Found zset name none

-- What a lookup finds and leaves: the same members, in a hash table in order.
pub record Looked (zset : ZSet) (name : Bytes) (r : Option ℕ × ZSet) : Type 0 where
  pub found : Found zset name r.0
  pub indexed : IsIndexed r.1
  pub nodes : Perm (map_nodes r.1.hmap) (map_nodes zset.hmap)
  pub rest : r.1 ≡ record zset { hmap = r.1.hmap }

Answers-Found :
    (zset : ZSet) (name : Bytes)
    → IsIndexed zset
    → (o : Option (HNode ℕ)) → Answers (hkey name) (hcmp zset.members) (map_nodes zset.hmap) o
    → Found zset name (elim o [ none ↦ none | some n ↦ some n.owner ])
Answers-Found zset name v o (hit n inside t) =
    let (z, here, same) = hcmp_lem zset.members n name (and_right _ _ t) in
    named n z inside here same
Answers-Found zset name v o (miss none_matches) = unnamed λ n z inside here same.
    let code = (==_iff _ _).1 (v.coded n z inside here ∙ ap str_hash same) in
    let fits : matches (hkey name) (hcmp zset.members) n ≡ true =
      and_true _ _ code
        (subst (λ k. hcmp zset.members n (hkey k) ≡ true) same (hcmp-same zset.members n z here)) in
    absurd (ground (arith, sym fits ∙ none_matches n inside))

-- On a set whose hash table has every member under the hash of its name, `zset_lookup` returns a member with the name if
-- there is one and none otherwise, and changes no member.
pub zset_lookup-Looked :
    (zset : ZSet) (name : Bytes)
    → IsIndexed zset
    → Returns (Looked zset name) (zset_lookup zset name)
unfolding zset_lookup
zset_lookup-Looked zset name v = elim (Bool-cases (zset.root == 0)) [
  | inl e ↦
      subst (Returns (Looked zset name)) (sym (branch-true (zset.root == 0) (ok (none, zset)) _ e))
        (returns (record {
          found = unnamed λ n z inside here same. v.empty ((==_iff _ _).0 e) n inside;
          indexed = v;
          nodes = Perm.refl _;
          rest = refl;
        }))
  | inr e ↦
      subst (Returns (Looked zset name)) (sym (branch-false (zset.root == 0) (ok (none, zset)) _ e))
        (Returns-bind (hm_lookup-Answers (hkey name) (hcmp zset.members) zset.hmap v.table)
          λ r (answers, helped). returns (record {
            found = Answers-Found zset name v r.0 answers;
            indexed = record {
              table = helped.valid;
              coded = λ n z m h. v.coded n z ((Perm.mem_iff helped.same).0 m) h;
              empty = λ k n m. v.empty k n ((Perm.mem_iff helped.same).0 m);
            };
            nodes = helped.same;
            rest = refl;
          }))
]
