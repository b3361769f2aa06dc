-- ===== src/Prelude/Stores.antt =====
-- Stores of objects, as functions of the pointers, with a write to one.
use Prim.Native.Nat.{ℕ}
use mathlib.Core.Path.{◌≡◌, refl, ap}
use mathlib.Core.Logic.{◌≢◌}
use linkerepc.Prelude.Tests.{if◌then◌else◌, ◌==◌, eqb-true, eqb-false}

abbrev pub set {ℓ} : {A : Type ℓ} → (ℕ → A) → ℕ → A → ℕ → A
set f i v j = if i == j then v else f j

pub set-here {ℓ} : {A : Type ℓ} (f : ℕ → A) (i j : ℕ) (v : A) → i ≡ j → set f i v j ≡ v
set-here f i j v e = ap (λ c. if c then v else f j) (eqb-true i j e)

pub set-there {ℓ} : {A : Type ℓ} (f : ℕ → A) (i j : ℕ) (v : A) → i ≢ j → set f i v j ≡ f j
set-there f i j v e = ap (λ c. if c then v else f j) (eqb-false i j e)

pub set-same {ℓ} : {A : Type ℓ} (f : ℕ → A) (i : ℕ) (v : A) → set f i v i ≡ v
set-same f i v = set-here f i i v refl
