-- ===== src/Base/Tests.antt =====
-- Boolean tests on the native numbers, the conditional, and splits that keep an equation.
use Prim.Native.Nat.{ℕ, ◌≤◌, ◌<◌, compare, Ordering}
use mathlib.Core.Path.{◌≡◌, refl}
use mathlib.Core.Logic.{◌↔◌, ◌⊎◌, inl, inr}
use mathlib.Core.Bool.{Bool, true, false}
use mathlib.Core.Option.{Option, none, some}
use native.Mathlib.Omega.{arith}

abbrev pub ltb : ℕ → ℕ → Bool
ltb a b = elim (compare a b) [ Ordering.lt ↦ true | _ ↦ false ]

abbrev pub leb : ℕ → ℕ → Bool
leb a b = elim (compare a b) [ Ordering.gt ↦ false | _ ↦ true ]

infix 50 ◌==◌
abbrev pub ◌==◌ : ℕ → ℕ → Bool
a == b = elim (compare a b) [ Ordering.eq ↦ true | _ ↦ false ]

infix 1 if◌then◌else◌
abbrev pub if◌then◌else◌ {ℓ} : {A : Type ℓ} → Bool → A → A → A
if true then x else y = x
if false then x else y = y

pub ==_iff : (a b : ℕ) → ((a == b) ≡ true) ↔ (a ≡ b)
==_iff a b = ground arith

pub ltb→lt : (a b : ℕ) → ltb a b ≡ true → a < b
ltb→lt a b h = ground arith

pub Bool-cases : (b : Bool) → (b ≡ true) ⊎ (b ≡ false)
Bool-cases true = inl refl
Bool-cases false = inr refl

pub Option-cases {ℓ} : {A : Type ℓ} (o : Option A) → (o ≡ none) ⊎ ((a : A) × (o ≡ some a))
Option-cases none = inl refl
Option-cases (some a) = inr (a, refl)

pub ltb→le : (a b : ℕ) → ltb a b ≡ false → b ≤ a
ltb→le a b h = ground arith

pub if_true {ℓ} :
    {A : Type ℓ} (b : Bool) {x x' : A} (y : A) → b ≡ true → x ≡ x' → (if b then x else y) ≡ x'
if_true true y h e = e
if_true false y h e = cc

-- A property of both branches is one of the conditional, and so for a chain of three.
module _ {ℓ κ} {A : Type ℓ} (P : A → Type κ) where
  pub if_intro :
      (b : Bool) (x y : A) → (b ≡ true → P x) → (b ≡ false → P y) → P (if b then x else y)
  if_intro true x y hx hy = hx refl
  if_intro false x y hx hy = hy refl

  pub if_both : (b : Bool) (x y : A) → P x → P y → P (if b then x else y)
  if_both true x y hx hy = hx
  if_both false x y hx hy = hy

  pub if_three :
      (b c : Bool) (x y z : A)
      → P x
      → P y
      → (b ≡ false → c ≡ false → P z)
      → P (if b then x else if c then y else z)
  if_three true c x y z hx hy hz = hx
  if_three false true x y z hx hy hz = hy
  if_three false false x y z hx hy hz = hz refl refl
