-- ===== src/HashTable.antt =====
-- The hash table with progressive rehashing: inc/server/HashTable.h and lib/server/HashTable.cpp.
-- A chain that hangs on a slot is the list of its nodes, so the `next` pointer is the position in it.
-- The pointer to a pointer that `h_lookup` returns is the slot and the index in its chain. A node
-- carries the pointer to what it is embedded in. The counts of nodes and slots are bounded by memory
-- and do not overflow; `size--` is reached only with a node in the table. `calloc` does not fail.
pub mod Slots
pub mod Tab
pub mod Rehash
pub mod Insert
pub mod Lookup
pub mod Delete
use Prim.Native.Nat.{bit_and}
use greenis.Prelude.{
  ℕ, zero, suc, ◌+◌, ◌-◌, ◌*◌, ◌%◌, ◌^◌, Bool, true, false, not, ◌&&◌, List, [], ◌∷◌, Option, none,
  some, Run, ok, fault, out_of_fuel, ◌>>=◌, ◌>>◌, assert, require, ltb, leb, ◌==◌, if◌then◌else◌,
  length, get_elem?, set, replicate,
}
use greenis.Bytes.{Bytes}

abbrev pub k_max_load_factor : ℕ
k_max_load_factor = 8

abbrev pub k_rehashing_work : ℕ
k_rehashing_work = 128

-- `uint32_t h`, returned as `uint64_t`.
unfoldable pub hash_from : ℕ → Bytes → ℕ
hash_from h [] = h
hash_from h (b ∷ bytes) = hash_from ((h + b) * 0x01000193 % 2 ^ 32) bytes

unfoldable pub str_hash : Bytes → ℕ
unfolding hash_from
str_hash bytes = hash_from 0x811C9DC5 bytes

pub record HNode {ℓ} (A : Type ℓ) : Type ℓ where
  pub hcode : ℕ
  pub owner : A

-- `tab` is `none` for NULL.
pub record HTab {ℓ} (A : Type ℓ) : Type ℓ where
  pub tab : Option (List (List (HNode A)))
  pub mask : ℕ
  pub size : ℕ

pub record HMap {ℓ} (A : Type ℓ) : Type ℓ where
  pub newer : HTab A
  pub older : HTab A
  pub migrate_pos : ℕ

abbrev pub is_null {ℓ} : {A : Type ℓ} → Option A → Bool
is_null none = true
is_null (some a) = false

abbrev pub is_empty {ℓ} : {A : Type ℓ} → List A → Bool
is_empty [] = true
is_empty (x ∷ xs) = false

module _ {ℓ} {A : Type ℓ} where
  abbrev pub empty_tab : HTab A
  empty_tab = record { tab = none; mask = 0; size = 0 }

  abbrev pub empty_map : HMap A
  empty_map = record { newer = empty_tab; older = empty_tab; migrate_pos = 0 }

  -- The slot of a hash code.
  abbrev pub slot_of : HTab A → ℕ → ℕ
  slot_of htab hcode = bit_and hcode htab.mask

  unfoldable pub h_init : ℕ → Run (HTab A)
  h_init n = do
    assert (ltb 0 n && bit_and (n - 1) n == 0)
    ok (record { tab = some (replicate n []); mask = n - 1; size = 0 })

  unfoldable pub h_insert : HTab A → HNode A → Run (HTab A)
  h_insert htab node = do
    slots ← require htab.tab
    let at = slot_of htab node.hcode
    chain ← require (get_elem? slots at)
    ok (record htab { tab = some (set slots at (node ∷ chain)); size = htab.size + 1 })

  unfoldable pub find_in : (HNode A → Bool) → List (HNode A) → Option ℕ
  find_in test [] = none
  find_in test (node ∷ chain) =
      if test node
      then some 0
      else elim (find_in test chain) [ none ↦ none | some i ↦ some (suc i) ]

  unfoldable pub remove_at : List (HNode A) → ℕ → List (HNode A)
  remove_at [] i = []
  remove_at (node ∷ chain) zero = chain
  remove_at (node ∷ chain) (suc i) = node ∷ remove_at chain i

  -- `*from`
  unfoldable pub node_at : HTab A → ℕ × ℕ → Run (HNode A)
  node_at htab (at, i) = do
    slots ← require htab.tab
    chain ← require (get_elem? slots at)
    require (get_elem? chain i)

  unfoldable pub h_detach : HTab A → ℕ × ℕ → Run (HNode A × HTab A)
  unfolding remove_at
  h_detach htab (at, i) = do
    slots ← require htab.tab
    chain ← require (get_elem? slots at)
    node ← require (get_elem? chain i)
    ok (node, record htab { tab = some (set slots at (remove_at chain i)); size = htab.size - 1 })

  -- The loop of `hm_help_rehashing`, for at most `fuel` rounds.
  unfoldable pub help_loop : ℕ → ℕ → HMap A → Run (HMap A)
  unfolding h_detach h_insert
  help_loop zero nwork m = out_of_fuel
  help_loop (suc fuel) nwork m =
      let work : Run (HMap A) = do
        slots ← require m.older.tab
        chain ← require (get_elem? slots m.migrate_pos)
        elim (is_empty chain) [
          | true ↦ help_loop fuel nwork (record m { migrate_pos = m.migrate_pos + 1 })
          | false ↦ do
            (node, older) ← h_detach m.older (m.migrate_pos, 0)
            newer ← h_insert m.newer node
            help_loop fuel (nwork + 1) (record m { newer = newer; older = older })
        ]
      in if ltb nwork k_rehashing_work && ltb 0 m.older.size then work else ok m

  abbrev pub slot_count : Option (List (List (HNode A))) → ℕ
  slot_count none = 0
  slot_count (some slots) = length slots

  -- A round moves a node or passes a slot.
  unfoldable pub hm_help_rehashing : HMap A → Run (HMap A)
  unfolding help_loop
  hm_help_rehashing m = do
    moved ← help_loop (k_rehashing_work + slot_count m.older.tab + 1) 0 m
    ok (
        if moved.older.size == 0 && not (is_null moved.older.tab)
        then record moved { older = empty_tab }
        else moved)

  unfoldable pub hm_trigger_rehashing : HMap A → Run (HMap A)
  unfolding h_init
  hm_trigger_rehashing m = do
    assert (is_null m.older.tab)
    fresh ← h_init ((m.newer.mask + 1) * 2)
    ok (record { newer = fresh; older = m.newer; migrate_pos = 0 })

  unfoldable pub hm_insert : HMap A → HNode A → Run (HMap A)
  unfolding h_init h_insert hm_trigger_rehashing hm_help_rehashing
  hm_insert m node = do
    first ← if is_null m.newer.tab then h_init 4 else ok m.newer
    filled ← h_insert first node
    let held = record m { newer = filled }
    grown ←
        if is_null m.older.tab && leb ((filled.mask + 1) * k_max_load_factor) filled.size
        then hm_trigger_rehashing held
        else ok held
    hm_help_rehashing grown

  unfoldable pub hm_clear : HMap A → HMap A
  hm_clear m = empty_map

  unfoldable pub hm_size : HMap A → ℕ
  hm_size m = m.newer.size + m.older.size

module _ {ℓ κ} {A : Type ℓ} {K : Type κ} where
  -- The test of `h_lookup` on a node.
  abbrev pub matches : HNode K → (HNode A → HNode K → Bool) → HNode A → Bool
  matches key eq node = (node.hcode == key.hcode) && eq node key

  unfoldable pub h_lookup : HTab A → HNode K → (HNode A → HNode K → Bool) → Run (Option (ℕ × ℕ))
  unfolding find_in
  h_lookup htab key eq = elim htab.tab [
    | none ↦ ok none
    | some slots ↦ do
      let at = slot_of htab key.hcode
      chain ← require (get_elem? slots at)
      ok (elim (find_in (matches key eq) chain) [ none ↦ none | some i ↦ some (at, i) ])
  ]

  unfoldable pub hm_lookup :
      HMap A → HNode K → (HNode A → HNode K → Bool) → Run (Option (HNode A) × HMap A)
  unfolding hm_help_rehashing h_lookup node_at
  hm_lookup m key eq = do
    helped ← hm_help_rehashing m
    in_newer ← h_lookup helped.newer key eq
    elim in_newer [
      | some from ↦ do node ← node_at helped.newer from; ok (some node, helped)
      | none ↦ do
        in_older ← h_lookup helped.older key eq
        elim in_older [
          | some from ↦ do node ← node_at helped.older from; ok (some node, helped)
          | none ↦ ok (none, helped)
        ]
    ]

  unfoldable pub hm_delete :
      HMap A → HNode K → (HNode A → HNode K → Bool) → Run (Option (HNode A) × HMap A)
  unfolding hm_help_rehashing h_lookup h_detach
  hm_delete m key eq = do
    helped ← hm_help_rehashing m
    in_newer ← h_lookup helped.newer key eq
    elim in_newer [
      | some from ↦ do
        (node, newer) ← h_detach helped.newer from
        ok (some node, record helped { newer = newer })
      | none ↦ do
        in_older ← h_lookup helped.older key eq
        elim in_older [
          | some from ↦ do
            (node, older) ← h_detach helped.older from
            ok (some node, record helped { older = older })
          | none ↦ ok (none, helped)
        ]
    ]

-- The callback changes the state behind `arg`, and stops the walk by `false`.
module _ {ℓ κ} {A : Type ℓ} {S : Type κ} (f : HNode A → S → Bool × S) where
  unfoldable pub chain_foreach : List (HNode A) → S → Bool × S
  chain_foreach [] arg = (true, arg)
  chain_foreach (node ∷ chain) arg =
      let (more, arg') = f node arg in
      elim more [ true ↦ chain_foreach chain arg' | false ↦ (false, arg') ]

  -- The slots from `i` on, `left` of them up to the mask.
  unfoldable pub slots_foreach : List (List (HNode A)) → ℕ → ℕ → S → Run (Bool × S)
  unfolding chain_foreach
  slots_foreach slots i zero arg = ok (true, arg)
  slots_foreach slots i (suc left) arg = do
    chain ← require (get_elem? slots i)
    let (more, arg') = chain_foreach chain arg
    elim more [ true ↦ slots_foreach slots (i + 1) left arg' | false ↦ ok (false, arg') ]

  unfoldable pub h_foreach : HTab A → S → Run (Bool × S)
  unfolding slots_foreach
  h_foreach htab arg =
      let walk : Run (Bool × S) = do
        slots ← require htab.tab
        slots_foreach slots 0 (htab.mask + 1) arg
      in if htab.mask == 0 then ok (true, arg) else walk

  unfoldable pub hm_foreach : HMap A → S → Run S
  unfolding h_foreach
  hm_foreach m arg = do
    (more, arg') ← h_foreach m.newer arg
    elim more [ true ↦ do (_, arg'') ← h_foreach m.older arg'; ok arg'' | false ↦ ok arg' ]
