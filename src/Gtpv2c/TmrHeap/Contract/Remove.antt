-- ===== src/Gtpv2c/TmrHeap/Contract/Remove.antt =====
-- Stopping a timer: `nwGtpv2cTmrMinHeapRemove`.
use linkerepc.Prelude.{
  ℕ, suc, ◌-◌, ◌<◌, ◌≡◌, ◌≢◌, refl, sym, arith, subst, ◌⊎◌, inl, inr, if◌then◌else◌, ltb, ap, ◌∙◌,
  le-cases,
}
use native.Mathlib.Decide.{ℕ_discrete}
use linkerepc.Gtpv2c.TmrHeap.{
  TmrHeap, place, sift_up, sift_down, index_invalid, remove_at, remove, removed, not_found,
}
use linkerepc.Gtpv2c.TmrHeap.Sift.{Holed, Present}
use linkerepc.Gtpv2c.TmrHeap.Up.{Risen, sift_up-Risen, sift_up_stays}
use linkerepc.Gtpv2c.TmrHeap.Down.{Sunk, sift_down-Sunk}
use linkerepc.Gtpv2c.TmrHeap.Contract.{IsHeap, Member}
use linkerepc.Gtpv2c.TmrHeap.Contract.Fill.{
  fill-order, fill-back, fill-nonnull, fill-member, member-fill,
}
use linkerepc.Gtpv2c.TmrHeap.Contract.Cut.{
  cut, cut-DownInv, left_before, before_left, Removed, Settled, clear, Removed-clear,
}

module _ (h : TmrHeap) (i : ℕ) (v : IsHeap h) (inside : i < h.curr_size) where
  abbrev last : ℕ
  last = h.curr_size - 1

  abbrev ev : ℕ
  ev = h.slot last

  abbrev sunk : TmrHeap × ℕ
  sunk = sift_down h.curr_size ev (cut h i) i

  sank : Sunk ev (cut h i) i sunk
  sank = sift_down-Sunk h.curr_size ev (cut h i) i (omega arith) (cut-DownInv h i v inside)

  sunk-size : sunk.0.curr_size ≡ last
  sunk-size = sank.kept.curr_size

  sunk-Holed : Holed (suc last) sunk.0 sunk.1
  sunk-Holed = subst (λ n. Holed (suc n) sunk.0 sunk.1) sunk-size sank.inv.holed

  low-Holed : Holed last sunk.0 sunk.1
  low-Holed =
      let k = sunk-Holed in
      record {
        edges = λ c a b. k.edges c a (omega arith);
        bridged = λ c a b. k.bridged c a (omega arith);
        back = λ j a. k.back j (omega arith);
        nonnull = λ j a. k.nonnull j (omega arith);
        small = omega (arith, k.small);
      }

  sunk-old : (u : ℕ) → Present (suc last) sunk.0 sunk.1 u → Member h u × (u ≢ h.slot i)
  sunk-old u p = before_left h i v inside u (sank.kept.present_before u p)

  old-sunk : (u : ℕ) → Member h u → u ≢ h.slot i → Present (suc last) sunk.0 sunk.1 u
  old-sunk u m d = sank.kept.present u (left_before h i v inside u m d)

  sunk-gone : sunk.0.index (h.slot i) ≡ index_invalid
  sunk-gone = sank.kept.invalid (h.slot i) (ground arith)

  module _ (low : sunk.1 < last) where
    end-slot : sunk.0.slot last ≡ ev
    end-slot =
        subst (λ n. sunk.0.slot n ≡ ev) sunk-size
          (sank.inv.at_end λ e. absurd (omega (arith, sunk-size)))

    end-index : sunk.0.index ev ≡ last
    end-index =
        subst (λ t. sunk.0.index t ≡ last) end-slot
          (sunk-Holed.back last (omega arith) λ e. absurd (omega arith))

    abbrev up : TmrHeap × ℕ
    up = sift_up sunk.1 ev sunk.0 sunk.1

    rose : Risen last ev sunk.0 sunk.1 up
    rose =
        sift_up-Risen sunk.1 last ev sunk.0 sunk.1 (omega arith) low low-Holed
          λ c a b. sank.below c a (omega arith)

    up-absent : ¬ Present last up.0 up.1 ev
    up-absent p = let (a, b, c) = rose.kept.present_before ev p in absurd (omega (arith, end-index))

    low-old : (u : ℕ) → Present last up.0 up.1 u ⊎ (u ≡ ev) → Member h u × (u ≢ h.slot i)
    low-old u (inl p) =
        let (a, b, c) = rose.kept.present_before u p in sunk-old u (omega arith, b, c)
    low-old u (inr e) = sunk-old u (
        subst (Present (suc last) sunk.0 sunk.1) (sym e) (
          omega (arith, end-index),
          λ q. absurd (omega (arith, end-index)),
          ap sunk.0.slot end-index ∙ end-slot,
        ))

    old-low : (u : ℕ) → Member h u → u ≢ h.slot i → Present last up.0 up.1 u ⊎ (u ≡ ev)
    old-low u m d = elim (ℕ_discrete u ev) [
      | yes e ↦ inr e
      | no e ↦
          let (a, b, c) = old-sunk u m d in
          let before : sunk.0.index u ≢ last = λ q. e (sym c ∙ ap sunk.0.slot q ∙ end-slot) in
          inl (rose.kept.present u (omega arith, b, c))
    ]

    low-gone : (place up.0 up.1 ev).index (h.slot i) ≡ index_invalid
    low-gone =
        ground
          (arith, rose.kept.invalid (h.slot i) sunk-gone, sunk-gone, end-index, sunk-Holed.small)

    low-Settled : Settled h (h.slot i) (place up.0 up.1 ev)
    low-Settled =
        let k = rose in
        record {
          order = fill-order last ev up.0 up.1 k.holed k.inside k.below k.above up-absent;
          back = fill-back last ev up.0 up.1 k.holed k.inside k.below k.above up-absent;
          nonnull =
              fill-nonnull last ev up.0 up.1 k.holed k.inside k.below k.above up-absent
                (v.nonnull last (omega arith));
          member_old = λ u a b.
              low-old u
                (member-fill last ev up.0 up.1 k.holed k.inside k.below k.above up-absent u (a, b));
          old_member = λ u m d.
              fill-member last ev up.0 up.1 k.holed k.inside k.below k.above up-absent u
                (old-low u m d);
          gone = low-gone;
          curr_size = k.kept.curr_size ∙ sunk-size;
          max_size = k.kept.max_size ∙ sank.kept.max_size;
          tv = k.kept.tv ∙ sank.kept.tv;
        }

  module _ (end : sunk.1 ≡ last) where
    end-Settled : Settled h (h.slot i) sunk.0
    end-Settled =
        let k = sunk-Holed in
        record {
          order = λ c a b.
              k.edges c a (omega arith) (λ e. absurd (omega arith)) (λ e. absurd (omega arith));
          back = λ j a. k.back j (omega arith) (λ e. absurd (omega arith));
          nonnull = λ j a. k.nonnull j (omega arith) (λ e. absurd (omega arith));
          member_old = λ u a b. sunk-old u (omega arith, (λ e. absurd (omega arith)), b);
          old_member = λ u m d. let (a, b, c) = old-sunk u m d in (omega arith, c);
          gone = sunk-gone;
          curr_size = sunk-size;
          max_size = sank.kept.max_size;
          tv = sank.kept.tv;
        }

    -- The hole is behind the end, under a timer that is not later: it does not rise.
    end-stays : sift_up sunk.1 ev sunk.0 sunk.1 ≡ (sunk.0, sunk.1)
    end-stays = sift_up_stays ev sunk.0 sunk.1 (sank.inv.over_end (omega (arith, sunk-size)))

  -- The last statements, by the place of the hole.
  abbrev refilled : TmrHeap × ℕ → TmrHeap
  refilled r = if ltb r.1 last then place r.0 r.1 ev else r.0

  remove_at-steps : remove_at h i ≡ clear (refilled (sift_up sunk.1 ev sunk.0 sunk.1)) last
  unfolding remove_at
  remove_at-steps = refl

  refilled-Settled : Settled h (h.slot i) (refilled (sift_up sunk.1 ev sunk.0 sunk.1))
  refilled-Settled = elim (le-cases last sunk.1) [
    | inl e ↦
        let end : sunk.1 ≡ last = omega (arith, sank.inv.inside, sunk-size) in
        let kept : refilled (sunk.0, sunk.1) ≡ sunk.0 = ground arith in
        subst (Settled h (h.slot i)) (sym (ap refilled (end-stays end) ∙ kept)) (end-Settled end)
    | inr low ↦
        let rises : refilled (up low) ≡ place (up low).0 (up low).1 ev =
          ground (arith, (rose low).inside) in
        subst (Settled h (h.slot i)) (sym rises) (low-Settled low)
  ]

  remove_at-Removed : Removed h (h.slot i) (remove_at h i)
  remove_at-Removed =
      subst (Removed h (h.slot i)) (sym remove_at-steps)
        (Removed-clear h (h.slot i) _ refilled-Settled v (omega arith))

-- A timer of the heap, removed at the index that it stores, leaves a heap of exactly the other
-- timers; it is marked as being in no heap, and neither a timeout nor the maximum changes.
pub remove-Removed :
    (h : TmrHeap) (t : ℕ)
    → IsHeap h
    → Member h t
    → (q : TmrHeap) × (remove h (h.index t) ≡ removed q) × Removed h t q
unfolding remove
remove-Removed h t v (p, e) = (
  remove_at h (h.index t),
  ground (arith, v.bounded, v.limited),
  subst (λ u. Removed h u (remove_at h (h.index t))) e (remove_at-Removed h (h.index t) v p),
)

-- Once removed, a timer can be removed again without effect.
pub remove_twice :
    (h q : TmrHeap) (t : ℕ)
    → IsHeap h
    → Member h t
    → remove h (h.index t) ≡ removed q
    → remove q (q.index t) ≡ not_found
unfolding remove
remove_twice h q t v m e =
    let (r, f, k) = remove-Removed h t v m in
    let same : r ≡ q = ground arith in
    let gone : q.index t ≡ index_invalid = subst (λ x. x.index t ≡ index_invalid) same k.gone in
    rw gone
