-- ===== src/Gtpv2c/TmrHeap/Contract.antt =====
-- What the timer heap promises: a set of timers from which the earliest can be read, and in which
-- every timer can be found by the index that it stores.
mod Fill
pub mod Cut
pub mod Insert
pub mod Remove
use linkerepc.Prelude.{
  ℕ, zero, suc, ◌+◌, ◌-◌, ◌/◌, ◌<◌, ◌≤◌, ◌≡◌, ◌≢◌, refl, arith, subst, ◌⊎◌, inl, inr, ◌==◌,
  if◌then◌else◌,
}
use linkerepc.Gtpv2c.TmrHeap.Timeval.{Time, timer_gt, NotAfter, NotAfter-refl, NotAfter-trans}
use linkerepc.Gtpv2c.TmrHeap.{TmrHeap, parent, new, peek}
use linkerepc.Gtpv2c.TmrHeap.Sift.{Before}

-- The heap order, the stored indices, and the size.
pub record IsHeap (h : TmrHeap) : Type 0 where
  pub order : (c : ℕ) → 0 < c → c < h.curr_size → Before h (h.slot (parent c)) (h.slot c)
  pub back : (i : ℕ) → i < h.curr_size → h.index (h.slot i) ≡ i
  pub nonnull : (i : ℕ) → i < h.curr_size → h.slot i ≢ 0
  pub bounded : h.curr_size < h.max_size
  pub limited : h.max_size ≤ 2147483647

-- The timer `t` is in the heap, where its index says.
abbrev pub Member : TmrHeap → ℕ → Type 0
Member h t = (h.index t < h.curr_size) × (h.slot (h.index t) ≡ t)

-- A new heap of a positive size that an `int` holds is valid, whatever the memory held.
pub new-IsHeap :
    (max_size : ℕ) (slot index : ℕ → ℕ) (tv : ℕ → Time)
    → 0 < max_size
    → max_size ≤ 2147483647
    → IsHeap (new max_size slot index tv)
unfolding new
new-IsHeap max_size slot index tv pos fits = record {
  order = λ c a b. absurd (omega arith);
  back = λ i a. absurd (omega arith);
  nonnull = λ i a. absurd (omega arith);
  bounded = pos;
  limited = fits;
}

root_below :
    (h : TmrHeap) (v : IsHeap h) (k i : ℕ)
    → i ≤ k
    → i < h.curr_size
    → Before h (h.slot 0) (h.slot i)
root_below h v k zero f p = NotAfter-refl (h.tv (h.slot 0))
root_below h v zero (suc i) f p = absurd (omega arith)
root_below h v (suc k) (suc i) f p =
    NotAfter-trans (h.tv (h.slot 0)) (h.tv (h.slot (parent (suc i)))) (h.tv (h.slot (suc i)))
      (root_below h v k (parent (suc i)) (omega arith) (omega arith))
      (v.order (suc i) (omega arith) p)

-- `peek` returns NULL exactly for the empty heap, and otherwise a timer of the heap that no timer of
-- the heap precedes.
pub peek_least :
    (h : TmrHeap)
    → IsHeap h
    → ((h.curr_size ≡ 0) × (peek h ≡ 0))
      ⊎ (Member h (peek h) × (peek h ≢ 0) × ((t : ℕ) → Member h t → Before h (peek h) t))
unfolding peek
peek_least h v = go (h.curr_size) refl
  where
    go :
        (n : ℕ)
        → h.curr_size ≡ n
        → ((h.curr_size ≡ 0) × (peek h ≡ 0))
          ⊎ (Member h (peek h) × (peek h ≢ 0) × ((t : ℕ) → Member h t → Before h (peek h) t))
    go zero e = inl (e, ground arith)
    go (suc n) e =
        let top : peek h ≡ h.slot 0 = ground arith in
        rw top (
          inr (
            ground (arith, v.back 0),
            ground (arith, v.nonnull 0),
            λ t (p, q).
                subst (λ u. Before h (h.slot 0) u) q
                  (root_below h v (h.index t) (h.index t) (omega arith) p),
          ))
