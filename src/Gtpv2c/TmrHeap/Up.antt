-- ===== src/Gtpv2c/TmrHeap/Up.antt =====
-- The loop that moves the hole towards the root.
use linkerepc.Prelude.{
  ℕ, zero, suc, ◌<◌, ◌≤◌, ◌≡◌, ◌≢◌, refl, sym, Bool, true, false, arith, ltb, ◌&&◌, Bool-cases, inl,
  inr, subst,
}
use linkerepc.Gtpv2c.TmrHeap.Timeval.{timer_gt, NotAfter-trans, NotAfter-of_gt}
use linkerepc.Gtpv2c.TmrHeap.{TmrHeap, parent, index_invalid, sift_up}
use linkerepc.Gtpv2c.TmrHeap.Sift.{
  Before, Holed, Present, moved, moved-back, moved-nonnull, moved-Present, Present-moved,
  moved-invalid,
}

-- `ev` may stand in the hole as far as the slots below it go.
abbrev pub Below : ℕ → ℕ → TmrHeap → ℕ → Type 0
Below n ev h hole = (c : ℕ) → 0 < c → c < n → parent c ≡ hole → Before h ev (h.slot c)

-- `ev` may stand in the hole as far as the slot above it goes.
abbrev pub Above : ℕ → TmrHeap → ℕ → Type 0
Above ev h hole = 0 < hole → Before h (h.slot (parent hole)) ev

-- What a loop keeps from `(h, hole)` to `(h', hole')`.
pub record Kept (n : ℕ) (h : TmrHeap) (hole : ℕ) (h' : TmrHeap) (hole' : ℕ) : Type 0 where
  pub present : (t : ℕ) → Present n h hole t → Present n h' hole' t
  pub present_before : (t : ℕ) → Present n h' hole' t → Present n h hole t
  pub invalid : (t : ℕ) → h.index t ≡ index_invalid → h'.index t ≡ index_invalid
  pub curr_size : h'.curr_size ≡ h.curr_size
  pub max_size : h'.max_size ≡ h.max_size
  pub tv : h'.tv ≡ h.tv

pub Kept-refl : (n : ℕ) (h : TmrHeap) (hole : ℕ) → Kept n h hole h hole
Kept-refl n h hole = record {
  present = λ t p. p;
  present_before = λ t p. p;
  invalid = λ t e. e;
  curr_size = refl;
  max_size = refl;
  tv = refl;
}

pub Kept-moved :
    (n : ℕ) (h : TmrHeap) (hole m : ℕ) (h' : TmrHeap) (hole' : ℕ)
    → Holed n h hole
    → hole < n
    → m < n
    → m ≢ hole
    → Kept n (moved h hole m) m h' hole'
    → Kept n h hole h' hole'
Kept-moved n h hole m h' hole' v inside child apart k = record {
  present = λ t p. k.present t (moved-Present n h hole m v inside child apart t p);
  present_before = λ t p. Present-moved n h hole m v inside child apart t (k.present_before t p);
  invalid = λ t e. k.invalid t (moved-invalid n h hole m v inside child apart t e);
  curr_size = k.curr_size;
  max_size = k.max_size;
  tv = k.tv;
}

module _ (n ev : ℕ) (h : TmrHeap) (hole : ℕ) (v : Holed n h hole) (inside : hole < n)
    (pos : 0 < hole) (late : timer_gt (h.tv (h.slot (parent hole))) (h.tv ev) ≡ true)
    (below : Below n ev h hole) where
  abbrev p : ℕ
  p = parent hole

  up-Holed : Holed n (moved h hole (parent hole)) (parent hole)
  up-Holed = record {
    edges = λ c a b q r. ground (arith, v.edges c a b, v.bridged c a b);
    bridged = λ c a b q r. ground (
      arith,
      v.edges p,
      v.edges c a b,
      NotAfter-trans (h.tv (h.slot (parent p))) (h.tv (h.slot p)) (h.tv (h.slot c)),
    );
    back = moved-back n h hole (parent hole) v inside (omega arith) (omega arith);
    nonnull = moved-nonnull n h hole (parent hole) v inside (omega arith) (omega arith);
    small = v.small;
  }

  up-Below : Below n ev (moved h hole (parent hole)) (parent hole)
  up-Below c a b q = ground (
    arith,
    v.edges c a b,
    NotAfter-of_gt (h.tv (h.slot p)) (h.tv ev) late,
    NotAfter-trans (h.tv ev) (h.tv (h.slot p)) (h.tv (h.slot c)),
  )

-- How the loop ends.
pub record Risen (n ev : ℕ) (h : TmrHeap) (hole : ℕ) (r : TmrHeap × ℕ) : Type 0 where
  pub holed : Holed n r.0 r.1
  pub inside : r.1 < n
  pub below : Below n ev r.0 r.1
  pub above : Above ev r.0 r.1
  pub kept : Kept n h hole r.0 r.1

abbrev rises : ℕ → TmrHeap → ℕ → Bool
rises ev h hole = ltb 0 hole && timer_gt (h.tv (h.slot (parent hole))) (h.tv ev)

module _ (k ev : ℕ) (h : TmrHeap) (hole : ℕ) where
  sift_up_stop : rises ev h hole ≡ false → sift_up (suc k) ev h hole ≡ (h, hole)
  unfolding sift_up
  sift_up_stop e = rw e

  sift_up_step :
      rises ev h hole ≡ true
      → sift_up (suc k) ev h hole ≡ sift_up k ev (moved h hole (parent hole)) (parent hole)
  unfolding sift_up
  sift_up_step e = rw e

pub Risen-stop :
    (n ev : ℕ) (h : TmrHeap) (hole : ℕ)
    → hole < n
    → Holed n h hole
    → Below n ev h hole
    → Above ev h hole
    → Risen n ev h hole (h, hole)
Risen-stop n ev h hole i v b a = record {
  holed = v;
  inside = i;
  below = b;
  above = a;
  kept = Kept-refl n h hole;
}

not_rises : (ev : ℕ) (h : TmrHeap) (hole : ℕ) → rises ev h hole ≡ false → Above ev h hole
not_rises ev h hole e pos = ground arith

rises-pos : (ev : ℕ) (h : TmrHeap) (hole : ℕ) → rises ev h hole ≡ true → 0 < hole
rises-pos ev h hole e = ground arith

rises-late :
    (ev : ℕ) (h : TmrHeap) (hole : ℕ)
    → rises ev h hole ≡ true
    → timer_gt (h.tv (h.slot (parent hole))) (h.tv ev) ≡ true
rises-late ev h hole e = ground arith

pub sift_up-Risen :
    (k n ev : ℕ) (h : TmrHeap) (hole : ℕ)
    → hole ≤ k
    → hole < n
    → Holed n h hole
    → Below n ev h hole
    → Risen n ev h hole (sift_up k ev h hole)
sift_up-Risen zero n ev h hole f i v b =
    unfold sift_up in Risen-stop n ev h hole i v b (λ pos. absurd (omega arith))
sift_up-Risen (suc k) n ev h hole f i v b = elim (Bool-cases (rises ev h hole)) [
  | inl e ↦
      let pos = rises-pos ev h hole e in
      let late = rises-late ev h hole e in
      let m = parent hole in
      let ih =
        sift_up-Risen k n ev (moved h hole m) m (omega arith) (omega arith)
          (up-Holed n ev h hole v i pos late b) (up-Below n ev h hole v i pos late b) in
      subst (Risen n ev h hole) (sym (sift_up_step k ev h hole e)) (record {
        holed = ih.holed;
        inside = ih.inside;
        below = ih.below;
        above = ih.above;
        kept = Kept-moved n h hole m _ _ v i (omega arith) (omega arith) ih.kept;
      })
  | inr e ↦
      subst (Risen n ev h hole) (sym (sift_up_stop k ev h hole e))
        (Risen-stop n ev h hole i v b (not_rises ev h hole e))
]

-- A hole that may take `ev` already does not rise.
pub sift_up_stays :
    (ev : ℕ) (h : TmrHeap) (hole : ℕ) → Above ev h hole → sift_up hole ev h hole ≡ (h, hole)
sift_up_stays ev h zero a = unfold sift_up in refl
sift_up_stays ev h (suc k) a = sift_up_stop k ev h (suc k) (ground (arith, a (omega arith)))
