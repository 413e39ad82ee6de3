-- ===== src/Avl/Offset.antt =====
-- `avl_offset` of lib/server/avl.cpp, a walk by ranks. The counts are far below the range of `int64_t`, so that its
-- additions there do not wrap around; `avl_cnt(...) + 1` is in `uint32_t`.
use greenis.Prelude.{
  ℕ, zero, suc, ◌+◌, ◌%◌, ◌^◌, true, false, not, ◌&&◌, ◌||◌, Run, ok, out_of_fuel, ◌>>=◌, ◌==◌,
  if◌then◌else◌,
}
use greenis.Prelude.Int.{ℤ, pos, add_nat, sub_nat, less}
use greenis.Avl.{Nodes, null, deref, avl_cnt}

-- One round: the next node and its rank from the start, or NULL above the root.
unfoldable pub offset_round : Nodes → ℕ → ℤ → ℤ → Run (ℕ × ℤ)
offset_round s node at offset = do
  n ← deref s node
  if less at offset && not (less (add_nat at (avl_cnt s n.right)) offset)
      then (deref s n.right >>= λ m. ok (n.right, add_nat at ((avl_cnt s m.left + 1) % 2 ^ 32)))
      else if less offset at && not (less offset (sub_nat at (avl_cnt s n.left)))
      then (deref s n.left >>= λ m. ok (n.left, sub_nat at ((avl_cnt s m.right + 1) % 2 ^ 32)))
      else if n.parent == null
      then ok (null, at)
      else (deref s n.parent >>= λ q. ok (
        n.parent,
        if q.right == node
            then sub_nat at ((avl_cnt s n.left + 1) % 2 ^ 32)
            else add_nat at ((avl_cnt s n.right + 1) % 2 ^ 32),
      ))

-- The loop, from a node with this rank.
unfoldable pub offset_loop : ℕ → Nodes → ℕ → ℤ → ℤ → Run ℕ
offset_loop zero s node at offset = out_of_fuel
offset_loop (suc fuel) s node at offset = elim (less at offset || less offset at) [
  | true ↦ do
    (next, rank) ← offset_round s node at offset
    elim (next == null) [ true ↦ ok null | false ↦ offset_loop fuel s next rank offset ]
  | false ↦ ok node
]

unfoldable pub avl_offset : ℕ → Nodes → ℕ → ℤ → Run ℕ
avl_offset fuel s node offset = offset_loop fuel s node (pos 0) offset
