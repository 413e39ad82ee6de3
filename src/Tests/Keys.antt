-- ===== src/Tests/Keys.antt =====
-- A database with one string, "v" under "k", and a sorted set with one member.
use mathlib.Core.Bool.{Bool-set}
use native.Mathlib.Nat.{ℕ_set}
use native.Mathlib.Bridge.{le_prop}
use mathlib.Core.List.{mem-cons_self}
use greenis.Avl.Tree
use greenis.Avl.Tree.{leaf}
use greenis.Zset.Lookup.{IsIndexed, Looked, zset_lookup-Looked}
use greenis.Zset.{zset_lookup, ZNode, ZSet, hkey, hcmp, zset_delete}
use greenis.Zset.Update.{IsOrder}
use greenis.Zset.Delete.{IsNamed, Removed, zset_delete-Removed, zset_delete-fault}
use greenis.Prelude.{
  fault, some-injective, true, ◌>>=◌, sym, ap, ◌∙◌, ℕ, ◌<◌, ◌≡◌, refl, [], ◌∷◌, Mem, none, some,
  arith, inl, Returns, All-Mem, false, ◌==◌, if◌then◌else◌,
}
use greenis.Bytes.{Bytes}
use greenis.HashTable.{HNode, HTab, hm_size, matches, empty_tab, str_hash, hash_from, is_null}
use greenis.HashTable.Slots.{nodes}
use greenis.HashTable.Rehash.{IsMap, empty_tab-IsTab}
use greenis.KeyValue.{Entry, Store, t_str, is_str, do_get, do_set, no_idx}
use greenis.KeyValue.SetCommands.{k_empty_zset, sorted_sets}
use greenis.KeyValue.Set.{Stored, do_set-Stored, do_get-do_set}
use greenis.Buffer.{out_str}
use greenis.KeyValue.Get.{IsStore, HasKey, Got, do_get-Got}
use greenis.Response.{literal}

abbrev key : Bytes
key = 107 ∷ []

abbrev entry : Entry ZSet
entry = record { key = key; type = t_str; str = 118 ∷ []; zset = k_empty_zset }

abbrev node : HNode ℕ
node = record { hcode = str_hash key; owner = 7 }

abbrev table : HTab ℕ
table = record { tab = some ((node ∷ []) ∷ [] ∷ [] ∷ [] ∷ []); mask = 3; size = 1 }

abbrev pub one : Store ZSet
one = record {
  db = record { newer = table; older = empty_tab; migrate_pos = 0 };
  entries = λ q. if q == 7 then some entry else none;
  heap = record { items = []; idx = λ q. no_idx };
  jobs = [];
  fresh = 8;
}

one-IsMap : IsMap one.db
unfolding nodes str_hash hash_from
one-IsMap = record {
  newer = record { laid = (refl, omega arith, (2, refl)); counted = refl };
  older = empty_tab-IsTab;
  drained = tt;
  paired = inl refl;
}

only : (P : HNode ℕ → Type 0) {n : HNode ℕ} → IsProp (P n) → P node → Mem n (node ∷ []) → P n
only P c p m = All-Mem P c (p, tt) m

pub one-IsStore : IsStore one
unfolding nodes
one-IsStore = record {
  table = one-IsMap;
  alive = λ n m. only (λ n. is_null (one.entries n.owner) ≡ false) (Bool-set _ _) refl m;
  hashed = λ n ent m e.
      only (λ n. (ent : Entry ZSet) → one.entries n.owner ≡ some ent → n.hcode ≡ str_hash ent.key)
        (λ f g. λ i ent e. ℕ_set _ _ (f ent e) (g ent e) i)
        (λ ent e. ap (λ x. str_hash x.key) (some-injective entry ent e)) m ent e;
  old = λ n m. only (λ n. n.owner < 8) le_prop (omega arith) m;
  unique = λ n m e f p q a b c. owner n p ∙ sym (owner m q);
}
  where
    owner : (n : HNode ℕ) → Mem n (node ∷ []) → n.owner ≡ 7
    owner n m = only (λ n. n.owner ≡ 7) (ℕ_set _ _) refl m

do_get-Got_example : Returns (Got one key []) (do_get (literal "get" ∷ key ∷ []) one [])
do_get-Got_example = do_get-Got (literal "get") key one [] one-IsStore

do_set-Stored_example :
    Returns
      (Stored one key (119 ∷ []) [])
      (do_set sorted_sets (literal "set" ∷ key ∷ (119 ∷ []) ∷ []) one [])
do_set-Stored_example = do_set-Stored sorted_sets (literal "set") key (119 ∷ []) one [] one-IsStore

strings : (id : ℕ) (ent : Entry ZSet) → HasKey one key id ent → is_str ent.type ≡ true
unfolding nodes
strings id ent h =
    let place : id ≡ 7 = sym h.owner ∙ only (λ n. n.owner ≡ 7) (ℕ_set _ _) refl h.inside in
    let same : entry ≡ ent = some-injective entry ent (sym (ap one.entries place) ∙ h.here) in
    ap (λ x. is_str x.type) (sym same)

do_get-do_set_example :
    Returns
      (λ r. r.1 ≡ out_str [] (119 ∷ []) 1)
      (do_set sorted_sets (literal "set" ∷ key ∷ (119 ∷ []) ∷ []) one [] >>= λ r.
        do_get (literal "get" ∷ key ∷ []) r.0 [])
do_get-do_set_example =
    do_get-do_set sorted_sets (literal "set") (literal "get") key (119 ∷ []) one [] [] one-IsStore
      strings

-- A sorted set with the one member 7, which has the name "k" and the score 5.
abbrev lone : ZSet
lone = record {
  root = 7;
  hmap = one.db;
  nodes = λ q. record { parent = 0; left = 0; right = 0; height = 1; cnt = 1 };
  members = λ q. if q == 7 then some (record { score = 5; name = key }) else none;
  fresh = 8;
}

lone-IsOrder : IsOrder lone (7 ∷ [])
lone-IsOrder = record {
  tree = Tree.node leaf 7 leaf;
  top = refl;
  rep = (
    record { ne_null = omega arith; parent = refl; left = refl; right = refl },
    refl,
    refl,
    tt,
    tt,
  );
  balanced = (tt, tt, omega arith, omega arith);
  order = refl;
}

lone-IsNamed : IsNamed lone 7 (record { score = 5; name = key })
unfolding nodes
lone-IsNamed = record {
  here = refl;
  node = node;
  inside = mem-cons_self;
  owner = refl;
  code = refl;
  unique = λ n e m f g. only (λ n. n.owner ≡ 7) (ℕ_set _ _) refl m;
}

zset_delete-Removed_example : Returns (Removed lone 7 []) (zset_delete lone 7)
unfolding hm_size
zset_delete-Removed_example =
    zset_delete-Removed lone 7 (record { score = 5; name = key }) [] [] one-IsMap lone-IsNamed
      lone-IsOrder (tt, tt) (omega arith) (omega arith)

-- The member 8 is not in the hash table.
abbrev stray : ZSet
stray = record lone {
  members = λ q. if q == 8 then some (record { score = 5; name = [] }) else none;
}

zset_delete-fault_example : zset_delete stray 8 ≡ fault
unfolding nodes hcmp str_hash
zset_delete-fault_example =
    zset_delete-fault stray 8 (record { score = 5; name = [] }) one-IsMap refl
      λ n m. only (λ n. matches (hkey []) (hcmp stray.members) n ≡ false) (Bool-set _ _) refl m

lone-IsIndexed : IsIndexed lone
unfolding nodes
lone-IsIndexed = record {
  table = one-IsMap;
  coded = λ n z m e.
      only (λ n. (z : ZNode) → lone.members n.owner ≡ some z → n.hcode ≡ str_hash z.name)
        (λ f g. λ i z e. ℕ_set _ _ (f z e) (g z e) i)
        (λ z e. ap (λ x. str_hash x.name) (some-injective (record { score = 5; name = key }) z e)) m
        z e;
  empty = λ e n m. absurd (omega (arith, e));
}

zset_lookup-Looked_example : Returns (Looked lone key) (zset_lookup lone key)
zset_lookup-Looked_example = zset_lookup-Looked lone key lone-IsIndexed
