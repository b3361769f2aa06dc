-- ===== src/Gtpv2c/TmrHeap/Sift.antt =====
-- The loops of the timer heap: what holds of the array while one slot, the hole, is unused.
use linkerepc.Prelude.{ℕ, ◌<◌, ◌≡◌, ◌≢◌, arith}
use linkerepc.Gtpv2c.TmrHeap.Timeval.{NotAfter}
use linkerepc.Gtpv2c.TmrHeap.{TmrHeap, parent, place, index_invalid}

-- The timeouts of two timers are in order.
abbrev pub Before : TmrHeap → ℕ → ℕ → Type 0
Before h t u = NotAfter (h.tv t) (h.tv u)

-- The slots below `n` but for `hole` are a heap, with the edges past the hole in order, and every
-- timer in a slot knows its index.
pub record Holed (n : ℕ) (h : TmrHeap) (hole : ℕ) : Type 0 where
  pub edges :
      (c : ℕ) → 0 < c → c < n → c ≢ hole → parent c ≢ hole → Before h (h.slot (parent c)) (h.slot c)
  pub bridged :
      (c : ℕ)
      → 0 < c
      → c < n
      → parent c ≡ hole
      → 0 < hole
      → Before h (h.slot (parent hole)) (h.slot c)
  pub back : (i : ℕ) → i < n → i ≢ hole → h.index (h.slot i) ≡ i
  pub nonnull : (i : ℕ) → i < n → i ≢ hole → h.slot i ≢ 0
  pub small : n < index_invalid

-- The timer `t` is in a slot below `n` other than the hole.
abbrev pub Present : ℕ → TmrHeap → ℕ → ℕ → Type 0
Present n h hole t = (h.index t < n) × (h.index t ≢ hole) × (h.slot (h.index t) ≡ t)

-- The hole moves to `m`, whose timer goes into the old hole.
abbrev pub moved : TmrHeap → ℕ → ℕ → TmrHeap
moved h hole m = place h hole (h.slot m)

module _ (n : ℕ) (h : TmrHeap) (hole m : ℕ) (v : Holed n h hole) (inside : hole < n) (child : m < n)
    (apart : m ≢ hole) where
  pub moved-back : (i : ℕ) → i < n → i ≢ m → (moved h hole m).index ((moved h hole m).slot i) ≡ i
  moved-back i p q = ground (arith, v.back i p, v.back m child apart)

  pub moved-nonnull : (i : ℕ) → i < n → i ≢ m → (moved h hole m).slot i ≢ 0
  moved-nonnull i p q = ground (arith, v.nonnull i p, v.nonnull m child apart)

  -- The timers in the slots are the same.
  pub moved-Present : (t : ℕ) → Present n h hole t → Present n (moved h hole m) m t
  moved-Present t (p, q, r) = ground (arith, v.back m child apart)

  pub Present-moved : (t : ℕ) → Present n (moved h hole m) m t → Present n h hole t
  Present-moved t (p, q, r) = ground (arith, v.back m child apart)

  -- A timer that is marked as removed stays marked.
  pub moved-invalid : (t : ℕ) → h.index t ≡ index_invalid → (moved h hole m).index t ≡ index_invalid
  moved-invalid t e = ground (arith, v.back m child apart, v.small)
