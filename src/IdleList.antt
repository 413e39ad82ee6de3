-- ===== src/IdleList.antt =====
-- The intrusive list of inc/server/list.h. A pointer to a node is a number, and the nodes stand in a
-- store. The names keep the prefix of the C++ functions.
pub mod Ring
use greenis.Prelude.{ℕ, Bool, ◌==◌, if◌then◌else◌}

pub record DList : Type 0 where
  pub prev : ℕ
  pub next : ℕ

abbrev pub Nodes : Type 0
Nodes = ℕ → DList

-- `node->prev = p`
abbrev pub set_prev : Nodes → ℕ → ℕ → Nodes
set_prev s node p q = if q == node then record { prev = p; next = (s q).next } else s q

-- `node->next = n`
abbrev pub set_next : Nodes → ℕ → ℕ → Nodes
set_next s node n q = if q == node then record { prev = (s q).prev; next = n } else s q

unfoldable pub dlist_init : Nodes → ℕ → Nodes
dlist_init s node = set_prev (set_next s node node) node node

unfoldable pub dlist_empty : Nodes → ℕ → Bool
dlist_empty s node = (s node).next == node

unfoldable pub dlist_detach : Nodes → ℕ → Nodes
dlist_detach s node =
    let before = (s node).prev in
    let after = (s node).next in set_prev (set_next s before after) after before

unfoldable pub dlist_insert_before : Nodes → ℕ → ℕ → Nodes
dlist_insert_before s target rookie =
    let before = (s target).prev in
    let s1 : Nodes = set_next s before rookie in
    let s2 : Nodes = set_prev s1 rookie before in
    let s3 : Nodes = set_next s2 rookie target in set_prev s3 target rookie
