-- ===== src/Gtpv2c/TmrHeap/Contract/Insert.antt =====
-- Starting a timer: `nwGtpv2cTmrMinHeapInsert`.
use linkerepc.Prelude.{
  ℕ, suc, ◌+◌, ◌<◌, ◌≤◌, ◌≡◌, ◌≢◌, ◌↔◌, sym, arith, subst, ◌⊎◌, inl, inr, some, none,
}
use linkerepc.Gtpv2c.TmrHeap.{TmrHeap, place, update, insert, sift_up}
use linkerepc.Gtpv2c.TmrHeap.Sift.{Holed, Present}
use linkerepc.Gtpv2c.TmrHeap.Up.{Risen, sift_up-Risen}
use linkerepc.Gtpv2c.TmrHeap.Contract.{IsHeap, Member}
use linkerepc.Gtpv2c.TmrHeap.Contract.Fill.{
  fill-order, fill-back, fill-nonnull, fill-member, member-fill,
}

abbrev grown : TmrHeap → TmrHeap
grown h = record h { curr_size = h.curr_size + 1 }

grown-Holed : (h : TmrHeap) → IsHeap h → Holed (suc h.curr_size) (grown h) h.curr_size
grown-Holed h v = record {
  edges = λ c a b q r. v.order c a (omega arith);
  bridged = λ c a b q r. absurd (omega arith);
  back = λ i p q. v.back i (omega arith);
  nonnull = λ i p q. v.nonnull i (omega arith);
  small = omega (arith, v.bounded, v.limited);
}

-- What insertion makes of a heap: `q` is a heap of the timers of `h` and of `t`.
pub record Inserted (h : TmrHeap) (t : ℕ) (q : TmrHeap) : Type 0 where
  pub valid : IsHeap q
  pub members : (u : ℕ) → Member q u ↔ (Member h u ⊎ (u ≡ t))
  pub tv : q.tv ≡ h.tv
  pub size : q.curr_size ≡ suc h.curr_size

module _ (h : TmrHeap) (t : ℕ) (v : IsHeap h) (some_timer : t ≢ 0) (out : ¬ Member h t)
    (room : suc h.curr_size < h.max_size) where
  run :
      Risen (suc h.curr_size) t (grown h) h.curr_size (sift_up h.curr_size t (grown h) h.curr_size)
  run =
      sift_up-Risen h.curr_size (suc h.curr_size) t (grown h) h.curr_size (omega arith)
        (omega arith) (grown-Holed h v) (λ c a b q. absurd (omega arith))

  abbrev r : TmrHeap × ℕ
  r = sift_up h.curr_size t (grown h) h.curr_size

  absent : ¬ Present (suc h.curr_size) r.0 r.1 t
  absent p = let (a, b, c) = run.kept.present_before t p in out (omega arith, c)

  before_risen : (u : ℕ) → Member h u → Present (suc h.curr_size) r.0 r.1 u
  before_risen u (p, q) = run.kept.present u (omega arith, omega arith, q)

  risen_before : (u : ℕ) → Present (suc h.curr_size) r.0 r.1 u → Member h u
  risen_before u p = let (a, b, c) = run.kept.present_before u p in (omega arith, c)

  size : r.0.curr_size ≡ suc h.curr_size
  size = omega (arith, run.kept.curr_size)

  members_old : (u : ℕ) → Member (place r.0 r.1 t) u → Member h u ⊎ (u ≡ t)
  members_old u (p, q) =
      let k = run in
      let n = suc h.curr_size in
      let known =
        member-fill n t r.0 r.1 k.holed k.inside k.below k.above absent u
          (subst (λ c. update r.0.index t r.1 u < c) size p, q) in
      elim known [ inl m ↦ inl (risen_before u m) | inr e ↦ inr e ]

  members_new : (u : ℕ) → Member h u ⊎ (u ≡ t) → Member (place r.0 r.1 t) u
  members_new u m =
      let k = run in
      let n = suc h.curr_size in
      let kept : Present n r.0 r.1 u ⊎ (u ≡ t) = elim m [
        | inl o ↦ inl (before_risen u o)
        | inr e ↦ inr e
      ] in
      let (p, q) = fill-member n t r.0 r.1 k.holed k.inside k.below k.above absent u kept in
      (subst (λ c. update r.0.index t r.1 u < c) (sym size) p, q)

  inserted : Inserted h t (place r.0 r.1 t)
  inserted =
      let n = suc h.curr_size in
      let k = run in
      record {
        valid = record {
          order = λ c a b.
              fill-order n t r.0 r.1 k.holed k.inside k.below k.above absent c a
                (omega (arith, size));
          back = λ i a.
              fill-back n t r.0 r.1 k.holed k.inside k.below k.above absent i (omega (arith, size));
          nonnull = λ i a.
              fill-nonnull n t r.0 r.1 k.holed k.inside k.below k.above absent some_timer i
                (omega (arith, size));
          bounded = omega (arith, size, k.kept.max_size);
          limited = omega (arith, k.kept.max_size, v.limited);
        };
        members = λ u. (members_old u, members_new u);
        tv = k.kept.tv;
        size = size;
      }

  -- A timer that is not in the heap, inserted where the size stays below the maximum, joins the heap:
  -- its timers are the old ones and the new one, at valid indices and in heap order, and no timeout
  -- changes.
  pub insert-Inserted : (q : TmrHeap) × (i : ℕ) × (insert h t ≡ some (q, i)) × Inserted h t q
  unfolding insert
  insert-Inserted = (place r.0 r.1 t, r.1, ground arith, inserted)

-- A heap that is one below its maximum is full: the assertion of the insertion fails.
pub insert-full : (h : TmrHeap) (t : ℕ) → h.max_size ≤ suc h.curr_size → insert h t ≡ none
unfolding insert
insert-full h t full = ground arith
