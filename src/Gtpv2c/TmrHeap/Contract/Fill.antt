-- ===== src/Gtpv2c/TmrHeap/Contract/Fill.antt =====
-- The hole of a sifted heap is filled.
use linkerepc.Prelude.{ℕ, ◌<◌, ◌≡◌, ◌≢◌, arith, subst, ◌⊎◌, inl, inr, ap, sym, ◌∙◌}
use native.Mathlib.Decide.{ℕ_discrete}
use linkerepc.Gtpv2c.TmrHeap.{TmrHeap, parent, place}
use linkerepc.Gtpv2c.TmrHeap.Sift.{Before, Holed, Present}
use linkerepc.Gtpv2c.TmrHeap.Up.{Below, Above}

module _ (n ev : ℕ) (h : TmrHeap) (hole : ℕ) (v : Holed n h hole) (inside : hole < n)
    (below : Below n ev h hole) (above : Above ev h hole) (absent : ¬ Present n h hole ev) where
  pub fill-order :
      (c : ℕ)
      → 0 < c
      → c < n
      → Before (place h hole ev) ((place h hole ev).slot (parent c)) ((place h hole ev).slot c)
  fill-order c a b = ground (arith, v.edges c a b, below c a b)

  apart : (i : ℕ) → i < n → i ≢ hole → h.slot i ≢ ev
  apart i p q e =
      let known = v.back i p q in
      let at : h.index ev ≡ i = ap h.index (sym e) ∙ known in
      absent (ground arith, ground arith, ground arith)

  pub fill-back : (i : ℕ) → i < n → (place h hole ev).index ((place h hole ev).slot i) ≡ i
  fill-back i p = ground (arith, v.back i p, apart i p)

  pub fill-nonnull : ev ≢ 0 → (i : ℕ) → i < n → (place h hole ev).slot i ≢ 0
  fill-nonnull e i p = ground (arith, v.nonnull i p)

  abbrev Filled : ℕ → Type 0
  Filled u =
      ((place h hole ev).index u < n) × ((place h hole ev).slot ((place h hole ev).index u) ≡ u)

  pub fill-member : (u : ℕ) → Present n h hole u ⊎ (u ≡ ev) → Filled u
  fill-member u (inl (p, q, r)) = elim (ℕ_discrete ev u) [
    | yes e ↦ absurd (absent (subst (Present n h hole) (sym e) (p, q, r)))
    | no e ↦ ground arith
  ]
  fill-member u (inr e) = ground arith

  pub member-fill : (u : ℕ) → Filled u → Present n h hole u ⊎ (u ≡ ev)
  member-fill u (p, q) = elim (ℕ_discrete ev u) [
    | yes e ↦ inr (sym e)
    | no e ↦ elim (ℕ_discrete (h.index u) hole) [
      | yes at ↦ absurd (ground arith)
      | no away ↦ inl (ground arith, away, ground arith)
    ]
  ]
