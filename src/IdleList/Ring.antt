-- ===== src/IdleList/Ring.antt =====
-- A head and its list as a ring of nodes, and what the functions do to the list.
use greenis.Prelude.{
  ℕ, ◌≡◌, ◌≢◌, refl, true, false, List, [], ◌∷◌, ◌++◌, arith, All, All-append, All-left, All-right,
  All-without, ◌↔◌, Apart, Distinct, Distinct-without, Distinct-Apart,
}
use greenis.IdleList.{
  Nodes, dlist_init, dlist_empty, dlist_detach, dlist_insert_before, set_prev, set_next,
}

-- The nodes of `l` stand between `a` and `b`, each linked to its neighbours in both directions.
abbrev pub Chain : Nodes → ℕ → List ℕ → ℕ → Type 0
Chain s a [] b = ((s a).next ≡ b) × ((s b).prev ≡ a)
Chain s a (x ∷ l) b = ((s a).next ≡ x) × ((s x).prev ≡ a) × Chain s x l b

-- The list of `head` holds the nodes `l` in this order.
pub record IsRing (s : Nodes) (head : ℕ) (l : List ℕ) : Type 0 where
  pub linked : Chain s head l head
  pub apart : Apart head l
  pub distinct : Distinct l

-- A list that differs at other nodes only.
Chain-kept :
    (s t : Nodes) (a : ℕ) (l : List ℕ) (b : ℕ)
    → Chain s a l b
    → (t a).next ≡ (s a).next
    → All (λ x. (t x).next ≡ (s x).next) l
    → All (λ x. (t x).prev ≡ (s x).prev) l
    → (t b).prev ≡ (s b).prev
    → Chain t a l b
Chain-kept s t a [] b c e n p f = ground arith
Chain-kept s t a (x ∷ l) b c e n p f =
    (ground arith, ground arith, Chain-kept s t x l b c.2 n.0 n.1 p.1 f)

-- What stands before the end of a chain.
before-Apart :
    (s : Nodes) (a : ℕ) (l : List ℕ) (b y : ℕ) → Chain s a l b → y ≢ a → Apart y l → y ≢ (s b).prev
before-Apart s a [] b y c p q = ground arith
before-Apart s a (x ∷ l) b y c p q = before-Apart s x l b y c.2 (ground arith) q.1

insert-Chain :
    (s : Nodes) (a : ℕ) (l : List ℕ) (b rookie : ℕ)
    → Chain s a l b
    → Apart a l
    → Distinct l
    → Apart b l
    → Apart rookie l
    → rookie ≢ a
    → rookie ≢ b
    → Chain (dlist_insert_before s b rookie) a (l ++ rookie ∷ []) b
unfolding dlist_insert_before
insert-Chain s a [] b rookie c p q r u v w = ground arith
insert-Chain s a (x ∷ l) b rookie c p q r u v w =
    let rest = insert-Chain s x l b rookie c.2 q.0 q.1 r.1 u.1 (ground arith) w in
    let other = before-Apart s x l b a c.2 (ground arith) p.1 in (ground arith, ground arith, rest)

-- The node that follows `x` is not one of the others.
after-Apart :
    (s : Nodes) (x : ℕ) (l : List ℕ) (b y : ℕ) → Chain s x l b → Apart y l → y ≢ b → y ≢ (s x).next
after-Apart s x [] b y c p q = ground arith
after-Apart s x (z ∷ l) b y c p q = ground arith

Chain-right :
    (s : Nodes) (a : ℕ) (l : List ℕ) (x : ℕ) (m : List ℕ) (b : ℕ)
    → Chain s a (l ++ x ∷ m) b
    → Chain s x m b
Chain-right s a [] x m b c = c.2
Chain-right s a (z ∷ l) x m b c = Chain-right s z l x m b c.2

Chain-left :
    (s : Nodes) (a : ℕ) (l : List ℕ) (x : ℕ) (m : List ℕ) (b : ℕ)
    → Chain s a (l ++ x ∷ m) b
    → Chain s a l x
Chain-left s a [] x m b c = (c.0, c.1)
Chain-left s a (z ∷ l) x m b c = (c.0, c.1, Chain-left s z l x m b c.2)

-- A write of one link leaves the nodes that it does not name.
next-kept :
    (s : Nodes) (node n : ℕ) (p m : ℕ) (l : List ℕ)
    → Apart p l
    → All (λ x. (set_prev (set_next s p n) node m x).next ≡ (s x).next) l
next-kept s node n p m [] h = tt
next-kept s node n p m (x ∷ l) h = (ground arith, next-kept s node n p m l h.1)

prev-kept :
    (s : Nodes) (node n : ℕ) (p m : ℕ) (l : List ℕ)
    → Apart node l
    → All (λ x. (set_prev (set_next s p n) node m x).prev ≡ (s x).prev) l
prev-kept s node n p m [] h = tt
prev-kept s node n p m (x ∷ l) h = (ground arith, prev-kept s node n p m l h.1)

detach-Chain :
    (s : Nodes) (a : ℕ) (l : List ℕ) (x : ℕ) (m : List ℕ) (b : ℕ)
    → Chain s a (l ++ x ∷ m) b
    → Apart a (l ++ x ∷ m)
    → Distinct (l ++ x ∷ m)
    → Apart b (l ++ x ∷ m)
    → Chain (dlist_detach s x) a (l ++ m) b
unfolding dlist_detach
detach-Chain s a [] x [] b c p q r = ground arith
detach-Chain s a [] x (y ∷ m) b c p q r =
    let before = (s x).prev in
    let after = (s x).next in
    let nexts = next-kept s after after before before m (rw c.1 p.1.1) in
    let prevs = prev-kept s after after before before m (rw c.2.0 q.1.0) in
    let rest =
      Chain-kept s (dlist_detach s x) y m b c.2.2 (ground arith) nexts prevs (ground arith) in
    (ground arith, ground arith, rest)
detach-Chain s a (z ∷ l) x m b c p q r =
    let rest = detach-Chain s z l x m b c.2 q.0 q.1 r.1 in
    let before =
      before-Apart s z l x a (Chain-left s z l x m b c.2) (ground arith)
        (All-left (λ k. k ≢ a) l (x ∷ m) p.1) in
    let after =
      after-Apart s x m b z (Chain-right s z l x m b c.2) (All-right (λ k. k ≢ z) l (x ∷ m) q.0).1
        (ground arith) in
    (ground arith, ground arith, rest)

Distinct-append_one : (l : List ℕ) (x : ℕ) → Distinct l → Apart x l → Distinct (l ++ x ∷ [])
Distinct-append_one [] x p q = (tt, tt)
Distinct-append_one (y ∷ l) x p q =
    (All-append (λ k. k ≢ y) l (x ∷ []) p.0 (ground arith, tt), Distinct-append_one l x p.1 q.1)

pub dlist_init-IsRing : (s : Nodes) (head : ℕ) → IsRing (dlist_init s head) head []
unfolding dlist_init
dlist_init-IsRing s head = record {
  linked = (ground arith, ground arith);
  apart = tt;
  distinct = tt;
}

-- A node that is inserted before the head becomes the last of the list.
pub dlist_insert_before-IsRing :
    (s : Nodes) (head : ℕ) (l : List ℕ) (rookie : ℕ)
    → IsRing s head l
    → rookie ≢ head
    → Apart rookie l
    → IsRing (dlist_insert_before s head rookie) head (l ++ rookie ∷ [])
dlist_insert_before-IsRing s head l rookie r p q = record {
  linked = insert-Chain s head l head rookie r.linked r.apart r.distinct r.apart q p p;
  apart = All-append (λ k. k ≢ head) l (rookie ∷ []) r.apart (p, tt);
  distinct = Distinct-append_one l rookie r.distinct q;
}

-- A node that is detached leaves the others in their order.
pub dlist_detach-IsRing :
    (s : Nodes) (head : ℕ) (l : List ℕ) (x : ℕ) (m : List ℕ)
    → IsRing s head (l ++ x ∷ m)
    → IsRing (dlist_detach s x) head (l ++ m)
dlist_detach-IsRing s head l x m r = record {
  linked = detach-Chain s head l x m head r.linked r.apart r.distinct r.apart;
  apart = All-without (λ k. k ≢ head) l x m r.apart;
  distinct = Distinct-without l x m r.distinct;
}

-- The event loop's update of the idle timer: a node that is detached and inserted before the head
-- becomes the last of the list, and the others keep their order.
pub dlist_insert_before-dlist_detach :
    (s : Nodes) (head : ℕ) (l : List ℕ) (x : ℕ) (m : List ℕ)
    → IsRing s head (l ++ x ∷ m)
    → IsRing (dlist_insert_before (dlist_detach s x) head x) head ((l ++ m) ++ x ∷ [])
dlist_insert_before-dlist_detach s head l x m r =
    dlist_insert_before-IsRing (dlist_detach s x) head (l ++ m) x
      (dlist_detach-IsRing s head l x m r) (All-right (λ k. k ≢ head) l (x ∷ m) r.apart).0
      (Distinct-Apart l x m r.distinct)

pub dlist_empty-IsRing :
    (s : Nodes) (head : ℕ) (l : List ℕ) → IsRing s head l → (dlist_empty s head ≡ true) ↔ (l ≡ [])
unfolding dlist_empty
dlist_empty-IsRing s head [] r = (λ e. refl, λ e. ground (arith, r.linked))
dlist_empty-IsRing s head (x ∷ l) r =
    (λ e. absurd (ground (arith, r.linked, r.apart)), λ e. ground arith)

pub dlist_empty-cons :
    (s : Nodes) (head x : ℕ) (l : List ℕ) → IsRing s head (x ∷ l) → dlist_empty s head ≡ false
unfolding dlist_empty
dlist_empty-cons s head x l r = ground (arith, r.linked, r.apart)
