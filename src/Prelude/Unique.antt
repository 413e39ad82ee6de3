-- ===== src/Prelude/Unique.antt =====
-- Lists of distinct numbers.
use greenis.Prelude.Lists.{All, All-right, All-without}
use Prim.Native.Nat.{ℕ}
use mathlib.Core.Path.{sym}
use mathlib.Core.Logic.{◌≢◌}
use native.Mathlib.Omega.{arith}
use mathlib.Core.List.{List, [], ◌∷◌, ◌++◌}

abbrev pub Apart : ℕ → List ℕ → Type 0
Apart a l = All (λ x. x ≢ a) l

abbrev pub Distinct : List ℕ → Type 0
Distinct [] = Unit
Distinct (x ∷ l) = Apart x l × Distinct l

pub Distinct-without : (l : List ℕ) (x : ℕ) (m : List ℕ) → Distinct (l ++ x ∷ m) → Distinct (l ++ m)
Distinct-without [] x m h = h.1
Distinct-without (z ∷ l) x m h = (All-without (λ k. k ≢ z) l x m h.0, Distinct-without l x m h.1)

pub Distinct-Apart : (l : List ℕ) (x : ℕ) (m : List ℕ) → Distinct (l ++ x ∷ m) → Apart x (l ++ m)
Distinct-Apart [] x m h = h.0
Distinct-Apart (z ∷ l) x m h =
    let other = (All-right (λ k. k ≢ z) l (x ∷ m) h.0).0 in (ground arith, Distinct-Apart l x m h.1)

Apart-insert :
    (x : ℕ) (l : List ℕ) (y : ℕ) (m : List ℕ) → Apart x (l ++ m) → y ≢ x → Apart x (l ++ y ∷ m)
Apart-insert x [] y m h n = (n, h)
Apart-insert x (z ∷ l) y m h n = (h.0, Apart-insert x l y m h.1 n)

pub Distinct-insert :
    (l : List ℕ) (x : ℕ) (m : List ℕ) → Distinct (l ++ m) → Apart x (l ++ m) → Distinct (l ++ x ∷ m)
Distinct-insert [] x m h a = (a, h)
Distinct-insert (z ∷ l) x m h a =
    (Apart-insert z l x m h.0 (λ e. a.0 (sym e)), Distinct-insert l x m h.1 a.1)
