-- ===== src/Server/Expiry.antt =====
-- The first loop of `process_timers` closes the connections that have been idle for too long.
use greenis.Prelude.{
  ℕ, zero, suc, ◌-◌, ◌≤◌, ◌<◌, ◌≡◌, ◌≢◌, refl, ap, sym, ◌∙◌, List, [], ◌∷◌, ◌++◌, Option, none,
  some, arith, ok, Returns, returns, Returns-if, Returns-bind, Returns-map, All, All-map, leb,
  length, get_elem?, leb→le,
}
use native.Mathlib.Decide.{ℕ_discrete}
use greenis.Conn.{Conn}
use greenis.Server.{
  Server, idle_list, idle_node, find_conn, first_idle, idle_deadline, process_idle,
}
use greenis.IdleList.Ring.{dlist_empty-IsRing, dlist_empty-cons}
use greenis.Server.Live.{IsNode, IsLive}
use greenis.Server.Steps.{Closed, conn_destroy-IsLive}

-- The node of a connection whose deadline has passed.
pub record IsOverdue (g : Server) (now_ms x : ℕ) : Type 0 where
  pub fd : ℕ
  pub conn : Conn
  pub place : x ≡ idle_node fd
  pub here : get_elem? g.fd2conn fd ≡ some (some conn)
  pub late : idle_deadline conn < now_ms

-- The nodes `l` are those of `dead`, all overdue, and then those that `h` keeps, of which the first is
-- not overdue.
pub record Swept (g : Server) (now_ms : ℕ) (l : List ℕ) (h : Server) : Type 0 where
  pub dead : List ℕ
  pub rest : List ℕ
  pub parts : l ≡ dead ++ rest
  pub overdue : All (IsOverdue g now_ms) dead
  pub live : IsLive h rest
  pub first : (x : ℕ) (m : List ℕ) → rest ≡ x ∷ m → ¬ IsOverdue h now_ms x

before-IsOverdue :
    (g h : Server) (fd now_ms x : ℕ) (rest : List ℕ)
    → Closed g fd rest h
    → IsOverdue h now_ms x
    → IsOverdue g now_ms x
before-IsOverdue g h fd now_ms x rest c o = elim (ℕ_discrete fd o.fd) [
  | yes q ↦ absurd (gone {conn = o.conn} (sym c.slot ∙ ap (get_elem? h.fd2conn) q ∙ o.here))
  | no q ↦ record {
    fd = o.fd;
    conn = o.conn;
    place = o.place;
    here = sym (c.others o.fd q) ∙ o.here;
    late = o.late;
  }
]
  where
    gone : {conn : Conn} → ◌≢◌ {A = Option (Option Conn)} (some none) (some (some conn))
    gone h = ground arith

Swept-before :
    {g h k : Server} {fd now_ms x : ℕ} {l : List ℕ}
    → Closed g fd l h
    → IsOverdue g now_ms x
    → Swept h now_ms l k
    → Swept g now_ms (x ∷ l) k
Swept-before {g} {h} {k} {fd} {now_ms} {x} {l} c o s = record {
  dead = x ∷ s.dead;
  rest = s.rest;
  parts = ap (◌∷◌ x) s.parts;
  overdue = (o, All-map s.dead (λ y. before-IsOverdue g h fd now_ms y l c) s.overdue);
  live = s.live;
  first = s.first;
}

-- The first connection of the list, from the ring and the table.
pub first_idle-conn :
    (g : Server) (x : ℕ) (l : List ℕ) (fd : ℕ) (conn : Conn)
    → IsLive g (x ∷ l)
    → x ≡ idle_node fd
    → get_elem? g.fd2conn fd ≡ some (some conn)
    → first_idle g ≡ ok conn
unfolding first_idle find_conn
first_idle-conn g x l fd conn v p h =
    let place : (g.idle idle_list).next - 1 ≡ fd = omega (arith, v.ring.linked.0, p) in
    rw (place, h)

pub first_idle-ok :
    (g : Server) (x : ℕ) (l : List ℕ) (n : IsNode g.fd2conn x)
    → IsLive g (x ∷ l)
    → first_idle g ≡ ok n.held.conn
first_idle-ok g x l n v = first_idle-conn g x l n.fd n.held.conn v n.place n.held.here

stay-Swept :
    (g : Server) (now_ms x : ℕ) (l : List ℕ) (n : IsNode g.fd2conn x)
    → IsLive g (x ∷ l)
    → now_ms ≤ idle_deadline n.held.conn
    → Swept g now_ms (x ∷ l) g
stay-Swept g now_ms x l n v p = record {
  dead = [];
  rest = x ∷ l;
  parts = refl;
  overdue = tt;
  live = v;
  first = λ y m e o.
      let same : o.fd ≡ n.fd = ground (arith, o.place, n.place, e) in
      let conn : o.conn ≡ n.held.conn =
        ground (arith, sym o.here ∙ ap (get_elem? g.fd2conn) same ∙ n.held.here) in
      ground (arith, o.late, p, ap idle_deadline conn);
}

-- `process_timers` closes the connections at the front of the idle list whose deadline has passed, up
-- to the first one whose deadline has not; rounds for all nodes of the list and one are enough.
pub process_idle-Swept :
    (fuel now_ms : ℕ) (g : Server) (l : List ℕ)
    → IsLive g l
    → length l < fuel
    → Returns (Swept g now_ms l) (process_idle fuel now_ms g)
unfolding process_idle
process_idle-Swept zero now_ms g l v p = absurd (omega arith)
process_idle-Swept (suc fuel) now_ms g [] v p =
    rw ((dlist_empty-IsRing g.idle idle_list [] v.ring).1 refl) (
      returns (record {
        dead = [];
        rest = [];
        parts = refl;
        overdue = tt;
        live = v;
        first = λ x m e. absurd (ground (arith, e));
      }))
process_idle-Swept (suc fuel) now_ms g (x ∷ l) v p =
    let n = v.nodes.0 in
    let conn = n.held.conn in
    rw (dlist_empty-cons g.idle idle_list x l v.ring, first_idle-ok g x l n v)
      (Returns-if (leb now_ms (idle_deadline conn))
        (λ b. returns (stay-Swept g now_ms x l n v (leb→le _ _ b)))
        (λ b.
          let late : idle_deadline conn < now_ms = ground arith in
          let o : IsOverdue g now_ms x = record {
            fd = n.fd;
            conn = conn;
            place = n.place;
            here = n.held.here;
            late = late;
          } in
          let closed = conn_destroy-IsLive n.fd g [] l (rw n.place at v) in
          rw n.held.own (
            Returns-bind closed λ h c.
              Returns-map (process_idle-Swept fuel now_ms h l c.live (omega arith))
                λ k s. Swept-before c o s)))
