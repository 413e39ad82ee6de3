-- ===== src/Server/Steps.antt =====
-- Accepting, closing and using a connection keep the table and the idle list together.
use greenis.Prelude.{
  Distinct-Apart, some-injective, ℕ, suc, ◌≡◌, ◌≢◌, refl, ap, sym, ◌∙◌, true, List, [], ◌∷◌, ◌++◌,
  Option, none, some, arith, Returns, returns, All, All-append, All-left, All-right, All-without,
  All-with, All-map, lt→ltb, length, get_elem?, set, get_elem?-lt, get_elem?-some, get_elem?-set,
  get_elem?-set_other,
}
use native.Mathlib.Decide.{ℕ_discrete}
use greenis.Prelude.Int.{pos}
use greenis.IdleList.{dlist_detach, dlist_insert_before}
use greenis.IdleList.Ring.{
  dlist_insert_before-IsRing, dlist_detach-IsRing, dlist_insert_before-dlist_detach,
}
use greenis.Conn.{Conn, new_conn}
use greenis.Server.{Server, idle_list, idle_node, with_slot, is_none, handle_accept, conn_destroy}
use greenis.Server.Live.{
  Holds, IsNode, IsLive, with_slot-Widened, kept-IsNode, set-nodes, free-Apart,
}

-- `handle_accept` of a descriptor that no connection has returns 0, and the new connection is in the
-- table and last in the idle list.
pub handle_accept-IsLive :
    (fd now_ms : ℕ) (g : Server) (l : List ℕ)
    → IsLive g l
    → ((conn : Conn) → get_elem? g.fd2conn fd ≢ some (some conn))
    → Returns
        (λ r.
          (r.0 ≡ pos 0)
          × (get_elem? r.1.fd2conn fd ≡ some (some (new_conn fd now_ms)))
          × IsLive r.1 (l ++ idle_node fd ∷ []))
        (handle_accept (some fd) now_ms g)
unfolding handle_accept
handle_accept-IsLive fd now_ms g l v free =
    let w = with_slot-Widened g.fd2conn fd in
    let wide = with_slot g.fd2conn fd in
    let away = free-Apart g.fd2conn fd l free v.nodes in
    let put = get_elem?-set wide fd (some (new_conn fd now_ms)) w.slot in
    let there = get_elem?-lt wide fd w.slot in
    let empty : is_none there.0 ≡ true =
      vacant fd there.0 λ conn e. free conn (w.only fd conn (there.1 ∙ ap some e)) in
    rw (there.1, empty)
      (returns (
        refl,
        put,
        record {
          ring =
              dlist_insert_before-IsRing g.idle idle_list l (idle_node fd) v.ring (ground arith)
                away;
          nodes =
              All-append (IsNode _) l (idle_node fd ∷ [])
                (set-nodes wide fd _ l away
                  (All-map l (λ x. kept-IsNode g.fd2conn wide x λ j conn e. w.kept j conn) v.nodes))
                (
                  record {
                    fd = fd;
                    place = refl;
                    held = record { conn = new_conn fd now_ms; here = put; own = refl };
                  },
                  tt,
                );
          listed = λ j conn p e.
              let other : fd ≢ j =
                λ q. (All-right (λ k. k ≢ idle_node j) l (idle_node fd ∷ []) p).0 (ap suc q) in
              v.listed j conn (All-left (λ k. k ≢ idle_node j) l (idle_node fd ∷ []) p)
                (w.only j conn (sym (get_elem?-set_other wide fd j _ other) ∙ e));
        },
      ))
  where
    vacant :
        (fd : ℕ) (slot : Option Conn) → ((conn : Conn) → slot ≢ some conn) → is_none slot ≡ true
    vacant fd none h = refl
    vacant fd (some conn) h = absurd (h conn refl)

held_at :
    (table : List (Option Conn)) (fd : ℕ) (l m : List ℕ)
    → All (IsNode table) (l ++ idle_node fd ∷ m)
    → Holds table fd
held_at table fd l m h = held_here (All-right (IsNode table) l (idle_node fd ∷ m) h).0
  where
    held_here : IsNode table (idle_node fd) → Holds table fd
    held_here n = let same : n.fd ≡ fd = omega (arith, n.place) in rw same at n.held

-- What `conn_destroy` leaves: an empty slot, the other slots, and the other nodes `rest`.
pub record Closed (g : Server) (fd : ℕ) (rest : List ℕ) (h : Server) : Type 0 where
  pub slot : get_elem? h.fd2conn fd ≡ some none
  pub others : (j : ℕ) → fd ≢ j → get_elem? h.fd2conn j ≡ get_elem? g.fd2conn j
  pub live : IsLive h rest

-- `conn_destroy` of a connection empties its slot and takes its node out of the idle list.
pub conn_destroy-IsLive :
    (fd : ℕ) (g : Server) (l m : List ℕ)
    → IsLive g (l ++ idle_node fd ∷ m)
    → Returns (Closed g fd (l ++ m)) (conn_destroy fd g)
unfolding conn_destroy
conn_destroy-IsLive fd g l m v =
    let held = held_at g.fd2conn fd l m v.nodes in
    let inside = get_elem?-some g.fd2conn fd (some held.conn) held.here in
    let away = Distinct-Apart l (idle_node fd) m v.ring.distinct in
    rw (lt→ltb fd (length g.fd2conn) inside) (
      returns (record {
        slot = get_elem?-set g.fd2conn fd none inside;
        others = λ j q. get_elem?-set_other g.fd2conn fd j none q;
        live = record {
          ring = dlist_detach-IsRing g.idle idle_list l (idle_node fd) m v.ring;
          nodes =
              set-nodes g.fd2conn fd none (l ++ m) away
                (All-without (IsNode g.fd2conn) l (idle_node fd) m v.nodes);
          listed = λ j conn p e. elim (ℕ_discrete fd j) [
            | yes q ↦ absurd (
                gone {conn = conn} (
                  sym (get_elem?-set g.fd2conn fd none inside)
                  ∙ ap (get_elem? (set g.fd2conn fd none)) q
                  ∙ e))
            | no q ↦
                v.listed j conn
                  (All-with (λ k. k ≢ idle_node j) l (idle_node fd) m (λ r. q (omega arith)) p)
                  (sym (get_elem?-set_other g.fd2conn fd j none q) ∙ e)
          ];
        };
      }))
  where
    gone : {conn : Conn} → ◌≢◌ {A = Option (Option Conn)} (some none) (some (some conn))
    gone h = ground arith

-- The state after `touch`.
abbrev pub touched : Server → ℕ → Conn → ℕ → Server
touched g fd conn now_ms = record g {
  fd2conn = set g.fd2conn fd (some (record conn { last_active_ms = now_ms }));
  idle = dlist_insert_before (dlist_detach g.idle (idle_node fd)) idle_list (idle_node fd);
}

pub own_fd :
    (fd : ℕ) (conn : Conn) (g : Server) (l m : List ℕ)
    → IsLive g (l ++ idle_node fd ∷ m)
    → get_elem? g.fd2conn fd ≡ some (some conn)
    → conn.fd ≡ fd
own_fd fd conn g l m v here =
    let held = held_at g.fd2conn fd l m v.nodes in
    let same : some held.conn ≡ some conn = some-injective _ _ (sym held.here ∙ here) in
    ap (λ c. c.fd) (sym (some-injective _ _ same)) ∙ held.own

-- A ready connection is stamped with the time and moves to the end of the idle list.
pub touched-IsLive :
    (fd now_ms : ℕ) (conn : Conn) (g : Server) (l m : List ℕ)
    → IsLive g (l ++ idle_node fd ∷ m)
    → get_elem? g.fd2conn fd ≡ some (some conn)
    → IsLive (touched g fd conn now_ms) ((l ++ m) ++ idle_node fd ∷ [])
touched-IsLive fd now_ms conn g l m v here =
    let inside = get_elem?-some g.fd2conn fd (some conn) here in
    let away = Distinct-Apart l (idle_node fd) m v.ring.distinct in
    let stamped = record conn { last_active_ms = now_ms } in
    let put = get_elem?-set g.fd2conn fd (some stamped) inside in
    record {
      ring = dlist_insert_before-dlist_detach g.idle idle_list l (idle_node fd) m v.ring;
      nodes =
          All-append (IsNode _) (l ++ m) (idle_node fd ∷ [])
            (set-nodes g.fd2conn fd _ (l ++ m) away
              (All-without (IsNode g.fd2conn) l (idle_node fd) m v.nodes))
            (
              record {
                fd = fd;
                place = refl;
                held = record { conn = stamped; here = put; own = own_fd fd conn g l m v here };
              },
              tt,
            );
      listed = λ j c p e.
          let rest = All-left (λ k. k ≢ idle_node j) (l ++ m) (idle_node fd ∷ []) p in
          let other : fd ≢ j =
            λ q. (All-right (λ k. k ≢ idle_node j) (l ++ m) (idle_node fd ∷ []) p).0 (ap suc q) in
          v.listed j c
            (All-with (λ k. k ≢ idle_node j) l (idle_node fd) m (λ r. other (omega arith)) rest)
            (sym (get_elem?-set_other g.fd2conn fd j _ other) ∙ e);
    }

-- The write of a connection back into its own slot.
pub stored-IsLive :
    (fd : ℕ) (old new : Conn) (g : Server) (l : List ℕ)
    → IsLive g l
    → get_elem? g.fd2conn fd ≡ some (some old)
    → new.fd ≡ fd
    → IsLive (record g { fd2conn = set g.fd2conn fd (some new) }) l
stored-IsLive fd old new g l v here own =
    let inside = get_elem?-some g.fd2conn fd (some old) here in
    let put = get_elem?-set g.fd2conn fd (some new) inside in
    record {
      ring = v.ring;
      nodes =
          All-map l
            (λ x n. elim (ℕ_discrete fd n.fd) [
              | yes q ↦ record {
                fd = fd;
                place = n.place ∙ ap suc (sym q);
                held = record { conn = new; here = put; own = own };
              }
              | no q ↦ record {
                fd = n.fd;
                place = n.place;
                held = record {
                  conn = n.held.conn;
                  here = get_elem?-set_other g.fd2conn fd n.fd (some new) q ∙ n.held.here;
                  own = n.held.own;
                };
              }
            ])
            v.nodes;
      listed = λ j c p e. elim (ℕ_discrete fd j) [
        | yes q ↦ v.listed j old p (ap (get_elem? g.fd2conn) (sym q) ∙ here)
        | no q ↦ v.listed j c p (sym (get_elem?-set_other g.fd2conn fd j (some new) q) ∙ e)
      ];
    }
