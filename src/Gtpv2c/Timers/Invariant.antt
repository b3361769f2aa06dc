-- ===== src/Gtpv2c/Timers/Invariant.antt =====
-- What the timers keep: the active timer is the earliest.
use linkerepc.Prelude.{ℕ, ◌≡◌, ◌≢◌, ◌<◌, arith, ap, ap₂, sym, ◌∙◌, subst, set, set-there}
use linkerepc.Gtpv2c.TmrHeap.{TmrHeap, Time, timer_gt, parent}
use linkerepc.Gtpv2c.TmrHeap.Sift.{Before}
use linkerepc.Gtpv2c.TmrHeap.Contract.{IsHeap, Member}
use linkerepc.Gtpv2c.Timers.{Timers}

-- The heap is valid, and no timer runs with the timer manager only if the heap is empty; otherwise the one that
-- runs is in the heap, and no timer of the heap is due before it.
pub record IsArmed (s : Timers) : Type 0 where
  pub valid : IsHeap s.heap
  pub idle : s.active ≡ 0 → s.heap.curr_size ≡ 0
  pub held : s.active ≢ 0 → Member s.heap s.active
  pub least : s.active ≢ 0 → (u : ℕ) → Member s.heap u → Before s.heap s.active u

-- A slot's timer is a member.
pub slot-Member : (h : TmrHeap) (i : ℕ) → IsHeap h → i < h.curr_size → Member h (h.slot i)
slot-Member h i v l = (omega (arith, v.back i l), ap h.slot (v.back i l))

-- The timeout of a timer that is not in the heap can change.
pub retimed-IsHeap :
    (h : TmrHeap) (t : ℕ) (x : Time)
    → IsHeap h
    → ¬ Member h t
    → IsHeap (record h { tv = set h.tv t x })
retimed-IsHeap h t x v out =
    let same : (i : ℕ) → i < h.curr_size → set h.tv t x (h.slot i) ≡ h.tv (h.slot i) = λ i l.
      set-there h.tv t (h.slot i) x (λ e. out (subst (Member h) (sym e) (slot-Member h i v l))) in
    record {
      order = λ c a b. ap₂ timer_gt (same (parent c) (omega arith)) (same c b) ∙ v.order c a b;
      back = v.back;
      nonnull = v.nonnull;
      bounded = v.bounded;
      limited = v.limited;
    }
