-- ===== src/IpPool/Chain.antt =====
-- The linked list of free descriptors as a list of indices.
use linkerepc.Prelude.{
  ℕ, zero, suc, ◌+◌, ◌<◌, ◌≡◌, refl, List, [], ◌∷◌, Option, none, some, arith, Absent, All,
  countdown, ap, ◌∙◌,
}
use linkerepc.IpPool.{update, fill}
use native.Mathlib.Nat.{zero-add}

-- From the pointer `head`, following `next`, the list runs through `xs` and ends in NULL.
abbrev pub Chain : (ℕ → Option ℕ) → Option ℕ → List ℕ → Type 0
Chain next head [] = head ≡ none
Chain next head (x ∷ xs) = (head ≡ some x) × Chain next (next x) xs

-- A write to a descriptor that is not on the list leaves the list.
pub Chain-update :
    (next : ℕ → Option ℕ) (y : ℕ) (v head : Option ℕ) (xs : List ℕ)
    → Absent y xs
    → Chain next head xs
    → Chain (update next y v) head xs
Chain-update next y v head [] a c = c
Chain-update next y v head (x ∷ xs) a c =
    (c.0, ground (arith, Chain-update next y v (next x) xs a.1 c.1))

Absent-of_bounded : (y : ℕ) (xs : List ℕ) → All (λ x. x < y) xs → Absent y xs
Absent-of_bounded y [] h = tt
Absent-of_bounded y (x ∷ xs) h = (omega arith, Absent-of_bounded y xs h.1)

-- The list that the loop of `new` builds.
abbrev pub pushed : ℕ → ℕ → List ℕ → List ℕ
pushed zero i xs = xs
pushed (suc k) i xs = pushed k (suc i) (i ∷ xs)

All-suc : (i : ℕ) (xs : List ℕ) → All (λ x. x < i) xs → All (λ x. x < suc i) xs
All-suc i [] h = tt
All-suc i (x ∷ xs) h = (omega arith, All-suc i xs h.1)

pub Chain-fill :
    (k i : ℕ) (next : ℕ → Option ℕ) (head : Option ℕ) (xs : List ℕ)
    → All (λ x. x < i) xs
    → Chain next head xs
    → Chain (fill k i next head).0 (fill k i next head).1 (pushed k i xs)
unfolding fill
Chain-fill zero i next head xs b c = c
Chain-fill (suc k) i next head xs b c =
    Chain-fill k (suc i) (update next i head) (some i) (i ∷ xs) (omega arith, All-suc i xs b)
      (refl, ground (arith, Chain-update next i head head xs (Absent-of_bounded i xs b) c))

pub pushed-countdown : (k i : ℕ) → pushed k i (countdown i) ≡ countdown (k + i)
pushed-countdown zero i = simp zero-add
pushed-countdown (suc k) i = pushed-countdown k (suc i) ∙ ap countdown (omega arith)
