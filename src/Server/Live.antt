-- ===== src/Server/Live.antt =====
-- The table of connections and the idle list hold the same connections.
use greenis.Prelude.{
  Apart, ℕ, zero, suc, ◌+◌, ◌-◌, ◌<◌, ◌≡◌, ◌≢◌, inl, inr, ◌∙◌, List, [], ◌∷◌, ◌++◌, Option, none,
  some, arith, All, leb, length, length-append, length-replicate, get_elem?, set, get_elem?-left,
  get_elem?-set_other, replicate, Bool-cases, leb→le,
}
use greenis.IdleList.Ring.{IsRing}
use greenis.Conn.{Conn}
use greenis.Server.{Server, idle_list, idle_node, with_slot}

-- The slot of the table holds a connection, which knows its descriptor.
pub record Holds (table : List (Option Conn)) (fd : ℕ) : Type 0 where
  pub conn : Conn
  pub here : get_elem? table fd ≡ some (some conn)
  pub own : conn.fd ≡ fd

-- The node of a connection in the table.
pub record IsNode (table : List (Option Conn)) (x : ℕ) : Type 0 where
  pub fd : ℕ
  pub place : x ≡ idle_node fd
  pub held : Holds table fd

-- The idle list holds the nodes `l` in this order: each the node of a connection in the table, and
-- every connection in the table has its node there.
pub record IsLive (g : Server) (l : List ℕ) : Type 0 where
  pub ring : IsRing g.idle idle_list l
  pub nodes : All (IsNode g.fd2conn) l
  pub listed :
      (fd : ℕ) (conn : Conn) → Apart (idle_node fd) l → get_elem? g.fd2conn fd ≢ some (some conn)

pub free-Apart :
    (table : List (Option Conn)) (fd : ℕ) (l : List ℕ)
    → ((conn : Conn) → get_elem? table fd ≢ some (some conn))
    → All (IsNode table) l
    → Apart (idle_node fd) l
free-Apart table fd [] free h = tt
free-Apart table fd (x ∷ l) free h =
    (λ e. free h.0.held.conn (rw (same h.0 e) at h.0.held.here), free-Apart table fd l free h.1)
  where
    same : (n : IsNode table x) → x ≡ idle_node fd → n.fd ≡ fd
    same n e = omega (arith, n.place)

nil-get : (n j : ℕ) (conn : Conn) → get_elem? (replicate n none) j ≢ some (some conn)
nil-get zero j conn h = ground arith
nil-get (suc n) zero conn h = ground arith
nil-get (suc n) (suc j) conn h = nil-get n j conn h

grown-get :
    (table : List (Option Conn)) (n j : ℕ) (conn : Conn)
    → get_elem? (table ++ replicate n none) j ≡ some (some conn)
    → get_elem? table j ≡ some (some conn)
grown-get [] n j conn h = absurd (nil-get n j conn h)
grown-get (x ∷ table) n zero conn h = h
grown-get (x ∷ table) n (suc j) conn h = grown-get table n j conn h

-- A larger table holds the same connections, and has the slot.
pub record Widened (table wide : List (Option Conn)) (fd : ℕ) : Type 0 where
  pub slot : fd < length wide
  pub kept :
      (j : ℕ) (conn : Conn)
      → get_elem? table j ≡ some (some conn)
      → get_elem? wide j ≡ some (some conn)
  pub only :
      (j : ℕ) (conn : Conn)
      → get_elem? wide j ≡ some (some conn)
      → get_elem? table j ≡ some (some conn)

pub with_slot-Widened :
    (table : List (Option Conn)) (fd : ℕ) → Widened table (with_slot table fd) fd
with_slot-Widened table fd = elim (Bool-cases (leb (length table) fd)) [
  | inl b ↦ rw b (record {
    slot = omega (
      arith,
      leb→le _ _ b,
      length-append table (replicate (fd + 1 - length table) none),
      length-replicate {A = Option Conn} (fd + 1 - length table) none,
    );
    kept = λ j conn h. get_elem?-left table _ j _ h;
    only = λ j conn h. grown-get table _ j conn h;
  })
  | inr b ↦ rw b (record { slot = ground arith; kept = λ j conn h. h; only = λ j conn h. h })
]

pub kept-IsNode :
    (table other : List (Option Conn)) (x : ℕ)
    → ((fd : ℕ) (conn : Conn)
        → x ≡ idle_node fd
        → get_elem? table fd ≡ some (some conn)
        → get_elem? other fd ≡ some (some conn))
    → IsNode table x
    → IsNode other x
kept-IsNode table other x keep n = record {
  fd = n.fd;
  place = n.place;
  held = record {
    conn = n.held.conn;
    here = keep n.fd n.held.conn n.place n.held.here;
    own = n.held.own;
  };
}

-- The write of one slot keeps the nodes of the others.
pub set-nodes :
    (table : List (Option Conn)) (fd : ℕ) (slot : Option Conn) (l : List ℕ)
    → Apart (idle_node fd) l
    → All (IsNode table) l
    → All (IsNode (set table fd slot)) l
set-nodes table fd slot [] p h = tt
set-nodes table fd slot (x ∷ l) p h = (
  kept-IsNode table (set table fd slot) x
      (λ j conn e k. get_elem?-set_other table fd j slot (λ q. p.0 (omega arith)) ∙ k) h.0,
  set-nodes table fd slot l p.1 h.1,
)
