-- ===== src/HashTable/Slots.antt =====
-- The nodes that hang on the slots, and what a change of one chain does to them.
use Prim.Native.Nat.{bit_and}
use mathlib.Core.List.{perm_append_comm}
use mathlib.Core.List.Perm
use greenis.Prelude.{
  ℕ, zero, suc, ◌+◌, ◌<◌, ◌≡◌, refl, sym, ap, subst, ◌∙◌, Bool, true, false, List, [], ◌∷◌, ◌++◌,
  Perm, none, some, arith, append_assoc, Bool-cases, Option-cases, inl, inr, ◌≢◌, length, get_elem?,
  set, All, replicate, All-append,
}
use greenis.HashTable.{HNode, find_in, remove_at}

module _ {ℓ} {A : Type ℓ} where
  unfoldable pub nodes : List (List (HNode A)) → List (HNode A)
  nodes [] = []
  nodes (chain ∷ slots) = chain ++ nodes slots

  -- Each node hangs on the slot of its hash code; the slots count from `i`.
  abbrev pub PlacedFrom : ℕ → ℕ → List (List (HNode A)) → Type 0
  PlacedFrom mask i [] = Unit
  PlacedFrom mask i (chain ∷ slots) =
      All (λ (n : HNode A). bit_and n.hcode mask ≡ i) chain × PlacedFrom mask (suc i) slots

  rotate_out : (xs ys zs : List (HNode A)) → Perm (xs ++ (ys ++ zs)) (ys ++ (xs ++ zs))
  rotate_out xs ys zs =
      rw (append_assoc xs ys zs, append_assoc ys xs zs) at
        (Perm.append_right zs (perm_append_comm xs ys))

  -- The nodes are those of one chain and the others.
  pub nodes-set :
      (slots : List (List (HNode A))) (i : ℕ) (chain : List (HNode A))
      → i < length slots
      → Perm (nodes (set slots i chain)) (chain ++ nodes (set slots i []))
  unfolding nodes
  nodes-set [] i chain h = elim h [ ]
  nodes-set (c ∷ slots) zero chain h = Perm.refl _
  nodes-set (c ∷ slots) (suc i) chain h =
      Perm.trans (Perm.append_left c (nodes-set slots i chain (omega arith)))
        (rotate_out c chain (nodes (set slots i [])))

  pub set-get_elem? :
      (slots : List (List (HNode A))) (i : ℕ) {chain : List (HNode A)}
      → get_elem? slots i ≡ some chain
      → set slots i chain ≡ slots
  set-get_elem? [] i h = cc
  set-get_elem? (c ∷ slots) zero h = ground arith
  set-get_elem? (c ∷ slots) (suc i) h = ap (◌∷◌ c) (set-get_elem? slots i h)

  pub get_elem?-lt :
      (slots : List (List (HNode A))) (i : ℕ) {chain : List (HNode A)}
      → get_elem? slots i ≡ some chain
      → i < length slots
  get_elem?-lt [] i h = cc
  get_elem?-lt (c ∷ slots) zero h = omega arith
  get_elem?-lt (c ∷ slots) (suc i) h = omega (arith, get_elem?-lt slots i h)

  pub lt-get_elem? :
      (slots : List (List (HNode A))) (i : ℕ)
      → i < length slots
      → (chain : List (HNode A)) × (get_elem? slots i ≡ some chain)
  lt-get_elem? [] i h = elim h [ ]
  lt-get_elem? (c ∷ slots) zero h = (c, refl)
  lt-get_elem? (c ∷ slots) (suc i) h = lt-get_elem? slots i (omega arith)

  -- A node in front of a chain is one node more, and one taken out is one less.
  pub nodes-cons :
      (slots : List (List (HNode A))) (i : ℕ) (node : HNode A) {chain : List (HNode A)}
      → get_elem? slots i ≡ some chain
      → Perm (nodes (set slots i (node ∷ chain))) (node ∷ nodes slots)
  nodes-cons slots i node {chain} h =
      let inside = get_elem?-lt slots i h in
      let kept = rw (set-get_elem? slots i h) at (nodes-set slots i chain inside) in
      Perm.trans (nodes-set slots i (node ∷ chain) inside) (Perm.cons node (Perm.symm kept))

  remove_at-perm :
      (chain : List (HNode A)) (j : ℕ) {node : HNode A}
      → get_elem? chain j ≡ some node
      → Perm (node ∷ remove_at chain j) chain
  unfolding remove_at
  remove_at-perm [] j h = cc
  remove_at-perm (n ∷ chain) zero {node} h = let e : n ≡ node = ground arith in rw e (Perm.refl _)
  remove_at-perm (n ∷ chain) (suc j) {node} h =
      Perm.trans (Perm.swap n node _) (Perm.cons n (remove_at-perm chain j h))

  pub nodes-remove_at :
      (slots : List (List (HNode A))) (i j : ℕ) {chain : List (HNode A)} {node : HNode A}
      → get_elem? slots i ≡ some chain
      → get_elem? chain j ≡ some node
      → Perm (node ∷ nodes (set slots i (remove_at chain j))) (nodes slots)
  nodes-remove_at slots i j {chain} {node} h k =
      let inside = get_elem?-lt slots i h in
      let kept = rw (set-get_elem? slots i h) at (nodes-set slots i chain inside) in
      Perm.trans (Perm.cons node (nodes-set slots i (remove_at chain j) inside))
        (Perm.trans (Perm.append_right _ (remove_at-perm chain j k)) (Perm.symm kept))

  pub PlacedFrom-set :
      (mask base : ℕ) (slots : List (List (HNode A))) (i : ℕ) (chain : List (HNode A))
      → PlacedFrom mask base slots
      → All (λ (n : HNode A). bit_and n.hcode mask ≡ base + i) chain
      → PlacedFrom mask base (set slots i chain)
  PlacedFrom-set mask base [] i chain p h = tt
  PlacedFrom-set mask base (c ∷ slots) zero chain p h =
      (subst (λ k. All (λ (n : HNode A). bit_and n.hcode mask ≡ k) chain) (omega arith) h, p.1)
  PlacedFrom-set mask base (c ∷ slots) (suc i) chain p h = (
    p.0,
    PlacedFrom-set mask (suc base) slots i chain p.1
        (subst (λ k. All (λ (n : HNode A). bit_and n.hcode mask ≡ k) chain) (omega arith) h),
  )

  pub PlacedFrom-get :
      (mask base : ℕ) (slots : List (List (HNode A))) (i : ℕ) {chain : List (HNode A)}
      → PlacedFrom mask base slots
      → get_elem? slots i ≡ some chain
      → All (λ (n : HNode A). bit_and n.hcode mask ≡ base + i) chain
  PlacedFrom-get mask base [] i p h = cc
  PlacedFrom-get mask base (c ∷ slots) zero {chain} p h =
      let e : c ≡ chain = ground arith in
      subst (λ k. All (λ (n : HNode A). bit_and n.hcode mask ≡ k) chain) (omega arith) (rw e at p.0)
  PlacedFrom-get mask base (c ∷ slots) (suc i) {chain} p h =
      subst (λ k. All (λ (n : HNode A). bit_and n.hcode mask ≡ k) chain) (omega arith)
        (PlacedFrom-get mask (suc base) slots i p.1 h)

  pub All-remove_at {κ} :
      (P : HNode A → Type κ) (chain : List (HNode A)) (j : ℕ)
      → All P chain
      → All P (remove_at chain j)
  unfolding remove_at
  All-remove_at P [] j h = tt
  All-remove_at P (n ∷ chain) zero h = h.1
  All-remove_at P (n ∷ chain) (suc j) h = (h.0, All-remove_at P chain j h.1)

  pub nodes-replicate : (n : ℕ) → nodes (replicate n []) ≡ []
  unfolding nodes
  nodes-replicate zero = refl
  nodes-replicate (suc n) = nodes-replicate n

  -- `find_in` finds an entry that passes the test, or there is none.
  pub find_in-some :
      (test : HNode A → Bool) (chain : List (HNode A)) {i : ℕ}
      → find_in test chain ≡ some i
      → (node : HNode A) × (get_elem? chain i ≡ some node) × (test node ≡ true)
  unfolding find_in
  find_in-some test [] h = cc
  find_in-some test (n ∷ chain) {i} h = elim (Bool-cases (test n)) [
    | inl t ↦ let e : i ≡ 0 = ground arith in (n, rw e refl, t)
    | inr f ↦ elim (Option-cases (find_in test chain)) [
      | inl none_left ↦ cc (rw (f, none_left) at h)
      | inr (j, found) ↦
          let e : i ≡ suc j = ground arith in
          let r = find_in-some test chain found in (r.0, rw e r.1, r.2)
    ]
  ]

  pub find_in-none :
      (test : HNode A → Bool) (chain : List (HNode A))
      → find_in test chain ≡ none
      → All (λ n. test n ≡ false) chain
  unfolding find_in
  find_in-none test [] h = tt
  find_in-none test (n ∷ chain) h = elim (Bool-cases (test n)) [
    | inl t ↦ cc (rw t at h)
    | inr f ↦ elim (Option-cases (find_in test chain)) [
      | inl none_left ↦ (f, find_in-none test chain none_left)
      | inr (j, found) ↦ cc (rw (f, found) at h)
    ]
  ]

  other_fail :
      (test : HNode A → Bool) (mask at k : ℕ) (chain : List (HNode A))
      → ((n : HNode A) → bit_and n.hcode mask ≢ at → test n ≡ false)
      → k ≢ at
      → All (λ (n : HNode A). bit_and n.hcode mask ≡ k) chain
      → All (λ n. test n ≡ false) chain
  other_fail test mask at k [] other ne h = tt
  other_fail test mask at k (n ∷ chain) other ne h =
      (other n (λ e. ne (sym h.0 ∙ e)), other_fail test mask at k chain other ne h.1)

  later_fail :
      (test : HNode A → Bool) (mask base at : ℕ) (slots : List (List (HNode A)))
      → ((n : HNode A) → bit_and n.hcode mask ≢ at → test n ≡ false)
      → at < base
      → PlacedFrom mask base slots
      → All (λ n. test n ≡ false) (nodes slots)
  unfolding nodes
  later_fail test mask base at [] other h p = tt
  later_fail test mask base at (c ∷ slots) other h p =
      All-append (λ n. test n ≡ false) c (nodes slots)
        (other_fail test mask at base c other (omega arith) p.0)
        (later_fail test mask (suc base) at slots other (omega arith) p.1)

  -- A test that only nodes of one slot can pass fails on all nodes if it fails in that slot.
  pub nodes-fail :
      (test : HNode A → Bool) (mask base at : ℕ) (slots : List (List (HNode A)))
      {chain : List (HNode A)} (i : ℕ)
      → PlacedFrom mask base slots
      → base + i ≡ at
      → get_elem? slots i ≡ some chain
      → All (λ n. test n ≡ false) chain
      → ((n : HNode A) → bit_and n.hcode mask ≢ at → test n ≡ false)
      → All (λ n. test n ≡ false) (nodes slots)
  unfolding nodes
  nodes-fail test mask base at [] i p e h fails other = cc
  nodes-fail test mask base at (c ∷ slots) {chain} zero p e h fails other =
      let same : c ≡ chain = ground arith in
      All-append (λ n. test n ≡ false) c (nodes slots) (rw same fails)
        (later_fail test mask (suc base) at slots other (omega arith) p.1)
  nodes-fail test mask base at (c ∷ slots) (suc i) p e h fails other =
      All-append (λ n. test n ≡ false) c (nodes slots)
        (other_fail test mask at base c other (omega arith) p.0)
        (nodes-fail test mask (suc base) at slots i p.1 (omega arith) h fails other)

-- The slots below `p` are empty.
module _ {ℓ} {A : Type ℓ} where
  abbrev pub PrefixEmpty : ℕ → List (List (HNode A)) → Type ℓ
  PrefixEmpty zero slots = Unit
  PrefixEmpty (suc p) [] = Unit
  PrefixEmpty (suc p) (chain ∷ slots) = (chain ≡ []) × PrefixEmpty p slots

  pub PrefixEmpty-remove_at :
      (p : ℕ) (slots : List (List (HNode A))) (at i : ℕ) {chain : List (HNode A)}
      → get_elem? slots at ≡ some chain
      → PrefixEmpty p slots
      → PrefixEmpty p (set slots at (remove_at chain i))
  unfolding remove_at
  PrefixEmpty-remove_at zero slots at i e h = tt
  PrefixEmpty-remove_at (suc p) [] at i e h = tt
  PrefixEmpty-remove_at (suc p) (c ∷ slots) zero i {chain} e h =
      let same : chain ≡ [] = ground (arith, h.0) in (rw same, h.1)
  PrefixEmpty-remove_at (suc p) (c ∷ slots) (suc at) i e h =
      (h.0, PrefixEmpty-remove_at p slots at i e h.1)

  pub PrefixEmpty-suc :
      (p : ℕ) (slots : List (List (HNode A)))
      → get_elem? slots p ≡ some []
      → PrefixEmpty p slots
      → PrefixEmpty (p + 1) slots
  PrefixEmpty-suc p [] e h = cc
  PrefixEmpty-suc zero (c ∷ slots) e h =
      let one : 1 ≡ 0 + 1 = omega arith in
      subst (λ k. PrefixEmpty k (c ∷ slots)) one (ground arith, tt)
  PrefixEmpty-suc (suc p) (c ∷ slots) e h =
      let next : suc (p + 1) ≡ suc p + 1 = omega arith in
      subst (λ k. PrefixEmpty k (c ∷ slots)) next (h.0, PrefixEmpty-suc p slots e h.1)

  -- As long as nodes are left, some slot is still to be passed.
  pub PrefixEmpty-lt :
      (p : ℕ) (slots : List (List (HNode A)))
      → PrefixEmpty p slots
      → 0 < length (nodes slots)
      → p < length slots
  unfolding nodes
  PrefixEmpty-lt p [] h k = absurd (omega arith)
  PrefixEmpty-lt zero (c ∷ slots) h k = omega arith
  PrefixEmpty-lt (suc p) (c ∷ slots) h k = omega (arith, PrefixEmpty-lt p slots h.1 (rw h.0 at k))

pub PlacedFrom-replicate {ℓ} :
    (A : Type ℓ) (mask base n : ℕ) → PlacedFrom {A = A} mask base (replicate n [])
PlacedFrom-replicate A mask base zero = tt
PlacedFrom-replicate A mask base (suc n) = (tt, PlacedFrom-replicate A mask (suc base) n)
