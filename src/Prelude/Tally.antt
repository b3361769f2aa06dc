-- ===== src/Prelude/Tally.antt =====
-- How many numbers below a bound pass a test.
use Prim.Native.Nat.{ℕ, zero, suc, ◌+◌, ◌<◌, ◌≤◌}
use mathlib.Core.Path.{◌≡◌, subst}
use mathlib.Core.Logic.{◌≢◌, inl, inr}
use mathlib.Core.Bool.{Bool, true, false, ◌&&◌}
use native.Mathlib.Omega.{arith}
use linkerepc.Prelude.Tests.{if◌then◌else◌, Bool-cases, le-cases}
use native.Mathlib.Decide.{ℕ_discrete}

abbrev pub tally : ℕ → (ℕ → Bool) → ℕ
tally zero f = 0
tally (suc n) f = (if f n then 1 else 0) + tally n f

pub tally-bounded : (n : ℕ) (f : ℕ → Bool) → tally n f ≤ n
tally-bounded zero f = omega arith
tally-bounded (suc n) f = elim (Bool-cases (f n)) [
  | inl e ↦ rw e (omega (arith, tally-bounded n f))
  | inr e ↦ rw e (omega (arith, tally-bounded n f))
]

pub tally-none : (n : ℕ) (f : ℕ → Bool) → ((i : ℕ) → f i ≡ false) → tally n f ≡ 0
tally-none zero f h = omega arith
tally-none (suc n) f h = ground (arith, h n, tally-none n f h)

pub tally-ext : (n : ℕ) (f g : ℕ → Bool) → ((i : ℕ) → i < n → g i ≡ f i) → tally n g ≡ tally n f
tally-ext zero f g h = omega arith
tally-ext (suc n) f g h =
    ground (arith, h n (omega arith), tally-ext n f g (λ i p. h i (omega arith)))

-- One more number passes.
pub tally-set :
    (n : ℕ) (f g : ℕ → Bool) (s : ℕ)
    → s < n
    → f s ≡ false
    → g s ≡ true
    → ((i : ℕ) → i ≢ s → g i ≡ f i)
    → tally n g ≡ suc (tally n f)
tally-set zero f g s l p q h = absurd (omega arith)
tally-set (suc n) f g s l p q h = elim (ℕ_discrete s n) [
  | yes e ↦ ground (arith, tally-ext n f g (λ i b. h i (omega arith)))
  | no e ↦ ground (arith, h n, tally-set n f g s (omega arith) p q h)
]

pub tally-le :
    (n : ℕ) (f g : ℕ → Bool) → ((i : ℕ) → f i ≡ true → g i ≡ true) → tally n f ≤ tally n g
tally-le zero f g h = omega arith
tally-le (suc n) f g h = elim (Bool-cases (f n)) [
  | inl e ↦ ground (arith, h n e, tally-le n f g h)
  | inr e ↦ ground (arith, tally-le n f g h)
]

-- If no more numbers pass the weaker test, they pass the stronger one too.
pub tally-full :
    (n : ℕ) (f g : ℕ → Bool)
    → ((i : ℕ) → f i ≡ true → g i ≡ true)
    → tally n f ≡ tally n g
    → (i : ℕ) → i < n
    → g i ≡ true
    → f i ≡ true
tally-full zero f g h e i l q = absurd (omega arith)
tally-full (suc n) f g h e i l q = elim (Bool-cases (f n)) [
  | inl p ↦ elim (ℕ_discrete i n) [
    | yes s ↦ ground arith
    | no s ↦ tally-full n f g h (ground (arith, h n p)) i (omega arith) q
  ]
  | inr p ↦ elim (Bool-cases (g n)) [
    | inl r ↦ absurd (ground (arith, tally-le n f g h))
    | inr r ↦ elim (ℕ_discrete i n) [
      | yes s ↦ absurd (ground arith)
      | no s ↦ tally-full n f g h (ground arith) i (omega arith) q
    ]
  ]
]

-- A test of every number below `n`, for facts on single bytes.
abbrev pub all_below : ℕ → (ℕ → Bool) → Bool
all_below zero p = true
all_below (suc n) p = p n && all_below n p

pub all_below-holds : (n : ℕ) (p : ℕ → Bool) → all_below n p ≡ true → (x : ℕ) → x < n → p x ≡ true
all_below-holds zero p h x l = absurd (omega arith)
all_below-holds (suc n) p h x l = elim (Bool-cases (p n)) [
  | inl e ↦ elim (le-cases n x) [
    | inl g ↦ subst (λ y. p y ≡ true) (omega arith) e
    | inr g ↦ all_below-holds n p (ground arith) x g
  ]
  | inr e ↦ ground arith
]
