-- ===== src/Gtpv2c/TmrHeap/Contract/Cut.antt =====
-- `nwGtpv2cTmrMinHeapRemove`: its first and its last statements, and the contract between them.
use linkerepc.Prelude.{ℕ, suc, ◌-◌, ◌<◌, ◌≡◌, ◌≢◌, ◌↔◌, refl, sym, arith, ap, ◌∙◌}
use linkerepc.Gtpv2c.TmrHeap.Timeval.{NotAfter-trans}
use linkerepc.Gtpv2c.TmrHeap.{TmrHeap, parent, update, index_invalid}
use linkerepc.Gtpv2c.TmrHeap.Sift.{Before, Holed, Present}
use linkerepc.Gtpv2c.TmrHeap.Down.{DownInv}
use linkerepc.Gtpv2c.TmrHeap.Contract.{IsHeap, Member}

-- The heap after the first statements: one slot less, and the removed timer marked.
abbrev pub cut : TmrHeap → ℕ → TmrHeap
cut h i = record h { curr_size = h.curr_size - 1; index = update h.index (h.slot i) index_invalid }

module _ (h : TmrHeap) (i : ℕ) (v : IsHeap h) (inside : i < h.curr_size) where
  slots_differ : (j : ℕ) → j < h.curr_size → j ≢ i → h.slot i ≢ h.slot j
  slots_differ j p q e = q (sym (v.back j p) ∙ ap h.index (sym e) ∙ v.back i inside)

  pub cut-Holed : Holed (suc (h.curr_size - 1)) (cut h i) i
  cut-Holed = record {
    edges = λ c a b q r. v.order c a (omega arith);
    bridged = λ c a b q r. ground (
      arith,
      v.order c a,
      v.order i r,
      NotAfter-trans (h.tv (h.slot (parent i))) (h.tv (h.slot i)) (h.tv (h.slot c)),
    );
    back = λ j p q. ground (arith, v.back j, slots_differ j);
    nonnull = λ j p q. v.nonnull j (omega arith);
    small = omega (arith, v.bounded, v.limited);
  }

  pub cut-DownInv : DownInv (h.slot (h.curr_size - 1)) (cut h i) i
  cut-DownInv = record {
    holed = cut-Holed;
    inside = omega arith;
    at_end = λ q. refl;
    over_end = λ q r. ground (arith, v.order i r inside);
  }

  -- The timers that are left.
  pub left_before :
      (u : ℕ) → Member h u → u ≢ h.slot i → Present (suc (h.curr_size - 1)) (cut h i) i u
  left_before u (p, q) d = ground arith

  pub before_left :
      (u : ℕ) → Present (suc (h.curr_size - 1)) (cut h i) i u → Member h u × (u ≢ h.slot i)
  before_left u (p, q, r) = ground (arith, v.bounded, v.limited)

-- What removal makes of a heap: `q` is a heap of the timers of `h` but for `t`, which is marked.
pub record Removed (h : TmrHeap) (t : ℕ) (q : TmrHeap) : Type 0 where
  pub valid : IsHeap q
  pub members : (u : ℕ) → Member q u ↔ (Member h u × (u ≢ t))
  pub gone : q.index t ≡ index_invalid
  pub tv : q.tv ≡ h.tv
  pub size : suc q.curr_size ≡ h.curr_size
  pub max_size : q.max_size ≡ h.max_size

-- The heap before the last statement, which clears the slot behind the end.
pub record Settled (h : TmrHeap) (t : ℕ) (q : TmrHeap) : Type 0 where
  pub order : (c : ℕ) → 0 < c → c < h.curr_size - 1 → Before q (q.slot (parent c)) (q.slot c)
  pub back : (i : ℕ) → i < h.curr_size - 1 → q.index (q.slot i) ≡ i
  pub nonnull : (i : ℕ) → i < h.curr_size - 1 → q.slot i ≢ 0
  pub member_old :
      (u : ℕ) → q.index u < h.curr_size - 1 → q.slot (q.index u) ≡ u → Member h u × (u ≢ t)
  pub old_member :
      (u : ℕ) → Member h u → u ≢ t → (q.index u < h.curr_size - 1) × (q.slot (q.index u) ≡ u)
  pub gone : q.index t ≡ index_invalid
  pub curr_size : q.curr_size ≡ h.curr_size - 1
  pub max_size : q.max_size ≡ h.max_size
  pub tv : q.tv ≡ h.tv

abbrev pub clear : TmrHeap → ℕ → TmrHeap
clear q last = record q { slot = update q.slot last 0 }

module _ (h : TmrHeap) (t : ℕ) (q : TmrHeap) (s : Settled h t q) where
  cleared_before : (u : ℕ) → Member (clear q (h.curr_size - 1)) u → Member h u × (u ≢ t)
  cleared_before u (a, b) =
      s.member_old u (omega (arith, s.curr_size)) (ground (arith, s.curr_size))

  before_cleared : (u : ℕ) → Member h u → u ≢ t → Member (clear q (h.curr_size - 1)) u
  before_cleared u m d = let (a, b) = s.old_member u m d in ground (arith, s.curr_size)

  pub Removed-clear : IsHeap h → 0 < h.curr_size → Removed h t (clear q (h.curr_size - 1))
  Removed-clear v pos = record {
    valid = record {
      order = λ c a b. ground (arith, s.curr_size, s.order c a);
      back = λ j a. ground (arith, s.curr_size, s.back j);
      nonnull = λ j a. ground (arith, s.curr_size, s.nonnull j);
      bounded = omega (arith, s.curr_size, s.max_size, v.bounded);
      limited = omega (arith, s.max_size, v.limited);
    };
    members = λ u. (cleared_before u, λ (m, d). before_cleared u m d);
    gone = s.gone;
    tv = s.tv;
    size = omega (arith, s.curr_size);
    max_size = s.max_size;
  }
