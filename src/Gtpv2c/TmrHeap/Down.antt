-- ===== src/Gtpv2c/TmrHeap/Down.antt =====
-- The loop that moves the hole towards the leaves. It runs over the slots up to `curr_size`, where
-- the last timer still stands.
use linkerepc.Prelude.{
  ℕ, zero, suc, ◌+◌, ◌*◌, ◌<◌, ◌≤◌, ◌≡◌, ◌≢◌, sym, true, false, arith, leb, Bool-cases, inl, inr,
  ◌⊎◌, subst,
}
use linkerepc.Gtpv2c.TmrHeap.Timeval.{
  timer_lt, NotAfter-refl, NotAfter-trans, NotAfter-of_gt, NotAfter-of_lt,
}
use linkerepc.Gtpv2c.TmrHeap.{TmrHeap, parent, sift_down, smaller_child}
use linkerepc.Gtpv2c.TmrHeap.Sift.{Before, Holed, moved, moved-back, moved-nonnull}
use linkerepc.Gtpv2c.TmrHeap.Up.{Below, Kept, Kept-refl, Kept-moved}

-- The hole, and where the timer `ev` of the last slot is.
pub record DownInv (ev : ℕ) (h : TmrHeap) (hole : ℕ) : Type 0 where
  pub holed : Holed (suc h.curr_size) h hole
  pub inside : hole < suc h.curr_size
  pub at_end : hole ≢ h.curr_size → h.slot h.curr_size ≡ ev
  pub over_end : hole ≡ h.curr_size → 0 < hole → Before h (h.slot (parent hole)) ev

module _ (h : TmrHeap) (hole : ℕ) where
  child-cases : (smaller_child h hole ≡ 2 * hole + 1) ⊎ (smaller_child h hole ≡ 2 * hole + 2)
  child-cases = ground arith

  child-left : Before h (h.slot (smaller_child h hole)) (h.slot (2 * hole + 1))
  child-left = ground (
    arith,
    NotAfter-refl (h.tv (h.slot (2 * hole + 1))),
    NotAfter-of_gt (h.tv (h.slot (2 * hole + 1))) (h.tv (h.slot (2 * hole + 2))),
  )

  child-right : Before h (h.slot (smaller_child h hole)) (h.slot (2 * hole + 2))
  child-right = ground (arith, NotAfter-refl (h.tv (h.slot (2 * hole + 2))))

  child-le : (c : ℕ) → 0 < c → parent c ≡ hole → Before h (h.slot (smaller_child h hole)) (h.slot c)
  child-le c p e =
      let side : (c ≡ 2 * hole + 1) ⊎ (c ≡ 2 * hole + 2) = grind arith in
      elim side [ inl q ↦ rw q child-left | inr q ↦ rw q child-right ]

module _ (ev : ℕ) (h : TmrHeap) (hole m : ℕ) (v : DownInv ev h hole)
    (at : (m ≡ 2 * hole + 1) ⊎ (m ≡ 2 * hole + 2)) (fits : 2 * hole + 2 ≤ h.curr_size)
    (least : (c : ℕ) → 0 < c → parent c ≡ hole → Before h (h.slot m) (h.slot c)) where
  down-inside : m < suc h.curr_size
  down-inside = ground arith

  down-apart : m ≢ hole
  down-apart e = ground arith

  down-parent : parent m ≡ hole
  down-parent = ground arith

  down-Holed : Holed (suc h.curr_size) (moved h hole m) m
  down-Holed = record {
    edges = λ c a b q r.
        ground (arith, down-parent, down-inside, v.holed.edges c a b, v.holed.bridged m, least c a);
    bridged = λ c a b q r. ground (arith, down-parent, v.holed.edges c a b);
    back = moved-back (suc h.curr_size) h hole m v.holed v.inside down-inside down-apart;
    nonnull = moved-nonnull (suc h.curr_size) h hole m v.holed v.inside down-inside down-apart;
    small = v.holed.small;
  }

  down-DownInv : DownInv ev (moved h hole m) m
  down-DownInv = record {
    holed = down-Holed;
    inside = down-inside;
    at_end = λ q. ground (arith, v.at_end);
    over_end = λ q r. ground (arith, down-parent, v.at_end, NotAfter-refl (h.tv ev));
  }

-- How the loop ends.
pub record Sunk (ev : ℕ) (h : TmrHeap) (hole : ℕ) (r : TmrHeap × ℕ) : Type 0 where
  pub inv : DownInv ev r.0 r.1
  pub below : Below (suc h.curr_size) ev r.0 r.1
  pub kept : Kept (suc h.curr_size) h hole r.0 r.1

Sunk-stop :
    (ev : ℕ) (h : TmrHeap) (hole : ℕ)
    → DownInv ev h hole
    → Below (suc h.curr_size) ev h hole
    → Sunk ev h hole (h, hole)
Sunk-stop ev h hole v b = record { inv = v; below = b; kept = Kept-refl (suc h.curr_size) h hole }

module _ (ev : ℕ) (h : TmrHeap) (hole : ℕ) (v : DownInv ev h hole) where
  -- Without two children the only possible child is the last slot, where `ev` is.
  Below-leaf : leb (2 * hole + 2) h.curr_size ≡ false → Below (suc h.curr_size) ev h hole
  Below-leaf e c a b q = ground (arith, v.at_end, NotAfter-refl (h.tv ev))

  Below-break :
      timer_lt (h.tv ev) (h.tv (h.slot (smaller_child h hole))) ≡ true
      → Below (suc h.curr_size) ev h hole
  Below-break e c a b q =
      NotAfter-trans (h.tv ev) (h.tv (h.slot (smaller_child h hole))) (h.tv (h.slot c))
        (NotAfter-of_lt (h.tv ev) (h.tv (h.slot (smaller_child h hole))) e) (child-le h hole c a q)

module _ (k ev : ℕ) (h : TmrHeap) (hole : ℕ) where
  sift_down_leaf : leb (2 * hole + 2) h.curr_size ≡ false → sift_down (suc k) ev h hole ≡ (h, hole)
  unfolding sift_down
  sift_down_leaf e = rw e

  sift_down_break :
      leb (2 * hole + 2) h.curr_size ≡ true
      → timer_lt (h.tv ev) (h.tv (h.slot (smaller_child h hole))) ≡ true
      → sift_down (suc k) ev h hole ≡ (h, hole)
  unfolding sift_down
  sift_down_break e l = rw (e, l)

  sift_down_step :
      leb (2 * hole + 2) h.curr_size ≡ true
      → timer_lt (h.tv ev) (h.tv (h.slot (smaller_child h hole))) ≡ false
      → sift_down (suc k) ev h hole
        ≡ sift_down k ev (moved h hole (smaller_child h hole)) (smaller_child h hole)
  unfolding sift_down
  sift_down_step e l = rw (e, l)

leb-true : (a b : ℕ) → leb a b ≡ true → a ≤ b
leb-true a b e = ground arith

pub sift_down-Sunk :
    (k ev : ℕ) (h : TmrHeap) (hole : ℕ)
    → suc h.curr_size ≤ k + hole
    → DownInv ev h hole
    → Sunk ev h hole (sift_down k ev h hole)
sift_down-Sunk zero ev h hole f v = absurd (omega (arith, v.inside))
sift_down-Sunk (suc k) ev h hole f v = elim (Bool-cases (leb (2 * hole + 2) h.curr_size)) [
  | inr e ↦
      subst (Sunk ev h hole) (sym (sift_down_leaf k ev h hole e))
        (Sunk-stop ev h hole v (Below-leaf ev h hole v e))
  | inl e ↦ elim (Bool-cases (timer_lt (h.tv ev) (h.tv (h.slot (smaller_child h hole))))) [
    | inl l ↦
        subst (Sunk ev h hole) (sym (sift_down_break k ev h hole e l))
          (Sunk-stop ev h hole v (Below-break ev h hole v l))
    | inr l ↦
        let m = smaller_child h hole in
        let at = child-cases h hole in
        let fits = leb-true (2 * hole + 2) h.curr_size e in
        let least = child-le h hole in
        let lower : m ≢ hole = down-apart ev h hole m v at fits least in
        let ih =
          sift_down-Sunk k ev (moved h hole m) m (omega arith)
            (down-DownInv ev h hole m v at fits least) in
        subst (Sunk ev h hole) (sym (sift_down_step k ev h hole e l)) (record {
          inv = ih.inv;
          below = ih.below;
          kept =
              Kept-moved (suc h.curr_size) h hole m _ _ v.holed v.inside
                (down-inside ev h hole m v at fits least) lower ih.kept;
        })
  ]
]
