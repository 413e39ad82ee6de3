-- ===== src/Prelude/Outcome.antt =====
-- How a call ends: with a value, by a failed assertion or an access out of range, or because the
-- rounds that a loop of the model was given ran out.
use mathlib.Core.Path.{◌≡◌, refl, ap}
use mathlib.Core.Bool.{Bool, true, false}
use greenis.Prelude.Tests.{if◌then◌else◌}
use mathlib.Core.Option.{Option, none, some}

pub data Run {ℓ} (A : Type ℓ) : Type ℓ where
  ok : A → Run A
  fault : Run A
  out_of_fuel : Run A

infixl 5 ◌>>=◌ ◌>>◌
abbrev pub ◌>>=◌ {ℓ κ} : {A : Type ℓ} {B : Type κ} → Run A → (A → Run B) → Run B
ok a >>= f = f a
fault >>= f = fault
out_of_fuel >>= f = out_of_fuel

abbrev pub ◌>>◌ {ℓ} : {B : Type ℓ} → Run (Unit {0}) → Run B → Run B
m >> k = m >>= λ _. k

-- `assert(b)`
abbrev pub assert : Bool → Run (Unit {0})
assert true = ok tt
assert false = fault

-- A pointer or an index that must be there.
abbrev pub require {ℓ} : {A : Type ℓ} → Option A → Run A
require none = fault
require (some a) = ok a

-- The call ends normally, in a value that satisfies `P`.
pub data Returns {ℓ κ} {A : Type ℓ} (P : A → Type κ) : Run A → Type (ℓ ⊔ κ) where
  returns : {a : A} → P a → Returns P (ok a)

pub Returns-inv {ℓ κ} :
    {A : Type ℓ} {P : A → Type κ} {call : Run A} → Returns P call → (a : A) × (call ≡ ok a) × P a
Returns-inv (returns holds) = (_, refl, holds)

pub Returns-if {ℓ κ} :
    {A : Type ℓ} {P : A → Type κ} {yes no : Run A} (test : Bool)
    → (test ≡ true → Returns P yes)
    → (test ≡ false → Returns P no)
    → Returns P (if test then yes else no)
Returns-if true on_yes on_no = on_yes refl
Returns-if false on_yes on_no = on_no refl

pub Returns-bind {ℓ κ ℓ' κ'} :
    {A : Type ℓ} {P : A → Type κ} {B : Type ℓ'} {Q : B → Type κ'} {call : Run A} {next : A → Run B}
    → Returns P call
    → ((a : A) → P a → Returns Q (next a))
    → Returns Q (call >>= next)
Returns-bind (returns holds) step = step _ holds

pub Returns-map {ℓ κ κ'} :
    {A : Type ℓ} {P : A → Type κ} {Q : A → Type κ'} {call : Run A}
    → Returns P call
    → ((a : A) → P a → Q a)
    → Returns Q call
Returns-map (returns holds) step = returns (step _ holds)

pub ok-injective {ℓ} : {A : Type ℓ} (a b : A) → ◌≡◌ {A = Run A} (ok a) (ok b) → a ≡ b
ok-injective {A} a b h = ap value h
  where
    value : Run A → A
    value (ok x) = x
    value fault = a
    value out_of_fuel = a

-- A chain that ends in a value has one after its first call.
pub bind-ok {ℓ κ} :
    {A : Type ℓ} {B : Type κ} (call : Run A) (next : A → Run B) (b : B)
    → (call >>= next) ≡ ok b
    → (a : A) × (call ≡ ok a) × (next a ≡ ok b)
bind-ok (ok a) next b e = (a, refl, e)
bind-ok fault next b e = cc
bind-ok out_of_fuel next b e = cc

pub bind-cong {ℓ κ} :
    {A : Type ℓ} {B : Type κ} (call : Run A) (next other : A → Run B)
    → ((a : A) → next a ≡ other a)
    → (call >>= next) ≡ (call >>= other)
bind-cong (ok a) next other e = e a
bind-cong fault next other e = refl
bind-cong out_of_fuel next other e = refl

-- Two chains that agree after their first call.
pub bind-after {ℓ} :
    {A B C : Type ℓ} (call : Run A) (whole : A → Run C) (step : A → Run B) (last : B → Run C)
    → ((a : A) → whole a ≡ (step a >>= last))
    → (call >>= whole) ≡ ((call >>= step) >>= last)
bind-after (ok a) whole step last e = e a
bind-after fault whole step last e = refl
bind-after out_of_fuel whole step last e = refl

abbrev pub branch {ℓ} : {A : Type ℓ} → Bool → Run A → Run A → Run A
branch test one two = elim test [ true ↦ one | false ↦ two ]

pub branch-true {ℓ} :
    {A : Type ℓ} (test : Bool) (one two : Run A) → test ≡ true → branch test one two ≡ one
branch-true test one two e = rw e

pub branch-false {ℓ} :
    {A : Type ℓ} (test : Bool) (one two : Run A) → test ≡ false → branch test one two ≡ two
branch-false test one two e = rw e
