-- ===== src/Prelude/Tests.antt =====
-- Boolean tests on the native numbers, the conditional, and case splits that keep an equation.
use Prim.Native.Nat.{ℕ, ◌≤◌, ◌<◌, compare, Ordering}
use mathlib.Core.Path.{◌≡◌, refl, ap}
use mathlib.Core.Logic.{◌⊎◌, inl, inr}
use mathlib.Core.Bool.{Bool, true, false}
use mathlib.Core.Option.{Option, none, some}
use native.Mathlib.Omega.{arith}

abbrev pub ltb : ℕ → ℕ → Bool
ltb a b = elim (compare a b) [ Ordering.lt ↦ true | _ ↦ false ]

abbrev pub leb : ℕ → ℕ → Bool
leb a b = elim (compare a b) [ Ordering.gt ↦ false | _ ↦ true ]

infix 50 ◌==◌
abbrev pub ◌==◌ : ℕ → ℕ → Bool
a == b = elim (compare a b) [ Ordering.eq ↦ true | _ ↦ false ]

infix 1 if◌then◌else◌
abbrev pub if◌then◌else◌ {ℓ} : {A : Type ℓ} → Bool → A → A → A
if true then x else y = x
if false then x else y = y

pub Bool-cases : (b : Bool) → (b ≡ true) ⊎ (b ≡ false)
Bool-cases true = inl refl
Bool-cases false = inr refl

pub Option-cases {ℓ} : {A : Type ℓ} (o : Option A) → (o ≡ none) ⊎ ((a : A) × (o ≡ some a))
Option-cases none = inl refl
Option-cases (some a) = inr (a, refl)

pub le-cases : (a b : ℕ) → (a ≤ b) ⊎ (b < a)
le-cases a b = grind arith

pub eq-cases : (a b : ℕ) → (a ≡ b) ⊎ ((a < b) ⊎ (b < a))
eq-cases a b = grind arith

pub eqb-true : (a b : ℕ) → a ≡ b → (a == b) ≡ true
eqb-true a b h = ground arith

pub eqb-false : (a b : ℕ) → ¬ (a ≡ b) → (a == b) ≡ false
eqb-false a b h = ground arith

pub eqb-holds : (a b : ℕ) → (a == b) ≡ true → a ≡ b
eqb-holds a b h = ground arith

-- What holds of both branches holds of a conditional.
pub if-elim {ℓ κ} :
    {A : Type ℓ} (P : A → Type κ) (c : Bool) (x y : A) → P x → P y → P (if c then x else y)
if-elim P true x y h k = h
if-elim P false x y h k = k

pub if-cases {ℓ κ} :
    {A : Type ℓ} (P : A → Type κ) (c : Bool) (x y : A)
    → (c ≡ true → P x)
    → (c ≡ false → P y)
    → P (if c then x else y)
if-cases P true x y h k = h refl
if-cases P false x y h k = k refl

pub some-injective {ℓ} : {A : Type ℓ} (x y : A) → some x ≡ some y → x ≡ y
some-injective x y e = ap (λ o. elim o [ none ↦ x | some z ↦ z ]) e

pub none-some {ℓ} : {A : Type ℓ} (o : Option A) (x : A) → o ≡ none → ¬ (o ≡ some x)
none-some o x p q = absurd (cc)

pub eqb-differs : (a b : ℕ) → (a == b) ≡ false → ¬ (a ≡ b)
eqb-differs a b h e = ground arith
