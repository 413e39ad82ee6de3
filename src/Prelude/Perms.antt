-- ===== src/Prelude/Perms.antt =====
-- Permutations and membership, against the native lengths and predicates on all entries.
use mathlib.Core.Logic.{∥∥₁_elim}
use mathlib.Core.List.{Permᴰ, Memᴰ, Mem}
use native.Mathlib.Nat.{ℕ_set}
use Prim.Native.Nat.{suc}
use mathlib.Core.Path.{◌≡◌, refl, ap, ◌∙◌, subst, sym}
use mathlib.Core.List.{List, Perm}
use greenis.Prelude.Lists.{length, All}

module _ {ℓ} {A : Type ℓ} where
  Permᴰ-length : {xs ys : List A} → Permᴰ xs ys → length xs ≡ length ys
  Permᴰ-length (Permᴰ.trans first second) = Permᴰ-length first ∙ Permᴰ-length second
  Permᴰ-length (Permᴰ.swap _ _) = refl
  Permᴰ-length (Permᴰ.cons _ rest) = ap suc (Permᴰ-length rest)
  Permᴰ-length Permᴰ.nil = refl

  pub length-perm : {xs ys : List A} → Perm xs ys → length xs ≡ length ys
  length-perm same = ∥∥₁_elim same (ℕ_set _ _) Permᴰ-length

  All-Memᴰ {κ} : (P : A → Type κ) {x : A} {xs : List A} → All P xs → Memᴰ x xs → P x
  All-Memᴰ P h (Memᴰ.head e) = subst P (sym e) h.0
  All-Memᴰ P h (Memᴰ.tail m) = All-Memᴰ P h.1 m

  -- What holds of all entries holds of each.
  pub All-Mem {κ} :
      (P : A → Type κ) {x : A} {xs : List A} → IsProp (P x) → All P xs → Mem x xs → P x
  All-Mem P c h m = ∥∥₁_elim m c (All-Memᴰ P h)
