-- ===== src/Gtpv2c/Timers/Quiet.antt =====
-- The loop over the timers that are due, where callbacks leave the timers alone.
use linkerepc.Prelude.{
  ℕ, zero, suc, ◌<◌, ◌≡◌, ◌⊎◌, inl, inr, refl, arith, ◌∷◌, ◌==◌, if-cases, eqb-holds, eqb-differs,
  Bool-cases, ap, sym, ◌∙◌, subst,
}
use linkerepc.Gtpv2c.TmrHeap.{TmrHeap, Time, timer_gt, peek}
use linkerepc.Gtpv2c.TmrHeap.Contract.{IsHeap, Member, peek_least}
use linkerepc.Gtpv2c.TmrHeap.Contract.Cut.{Removed}
use linkerepc.Gtpv2c.Timers.{and_then, Timers, Outcome, finished, expire_due, call_back, expired}
use linkerepc.Gtpv2c.Timers.Expiry.{IsDue, released}

-- Callbacks that start and stop no timer.
pub record IsQuiet (fire : ℕ → ℕ → Timers → Timers) : Type 0 where
  pub heap : (c a : ℕ) (s : Timers) → (fire c a s).heap ≡ s.heap
  pub active : (c a : ℕ) (s : Timers) → (fire c a s).active ≡ s.active

-- `q` has timers of `h` only, with their timeouts, and all that are not due.
pub record IsThinned (now : Time) (h q : TmrHeap) : Type 0 where
  pub valid : IsHeap q
  pub tv : q.tv ≡ h.tv
  pub fewer : (u : ℕ) → Member q u → Member h u
  pub rest : (u : ℕ) → Member h u → Member q u ⊎ IsDue h now u

pub IsThinned-refl : (now : Time) (h : TmrHeap) → IsHeap h → IsThinned now h h
IsThinned-refl now h v = record { valid = v; tv = refl; fewer = λ u m. m; rest = λ u m. inl m }

pub IsThinned-trans :
    (now : Time) (g h q : TmrHeap) → IsThinned now g h → IsThinned now h q → IsThinned now g q
IsThinned-trans now g h q a b = record {
  valid = b.valid;
  tv = b.tv ∙ a.tv;
  fewer = λ u m. a.fewer u (b.fewer u m);
  rest = λ u m. elim (a.rest u m) [
    | inr d ↦ inr d
    | inl n ↦ elim (b.rest u n) [
      | inl k ↦ inl k
      | inr d ↦ inr (sym (ap (λ (f : ℕ → Time). timer_gt (f u) now) a.tv) ∙ d)
    ]
  ];
}

pub Removed-IsThinned :
    (now : Time) (h q : TmrHeap) (t : ℕ) → IsDue h now t → Removed h t q → IsThinned now h q
Removed-IsThinned now h q t due r = record {
  valid = r.valid;
  tv = r.tv;
  fewer = λ u m. ((r.members u).0 m).0;
  rest = λ u m. elim (Bool-cases (u == t)) [
    | inl e ↦ inr (subst (IsDue h now) (sym (eqb-holds u t e)) due)
    | inr e ↦ inl ((r.members u).1 (m, eqb-differs u t e))
  ];
}

module _ (fire : ℕ → ℕ → Timers → Timers) (now : Time) (quiet : IsQuiet fire) where
  -- A run that ends with the active timer as it was.
  abbrev pub Thins : Timers → Outcome → Type 0
  Thins s x = (r : Timers) × (x ≡ finished r) × (r.active ≡ s.active) × IsThinned now s.heap r.heap

  pub expire_due-Thins :
      (k : ℕ) (s : Timers)
      → s.heap.curr_size < k
      → IsHeap s.heap
      → Thins s (expire_due fire k now s)
  unfolding expire_due
  expire_due-Thins zero s fuel v = absurd (omega arith)
  expire_due-Thins (suc k) s fuel v =
      let t = peek s.heap in
      elim (peek_least s.heap v) [
        | inl (none_left, e) ↦
            if-cases (Thins s) (t == 0) _ _ (λ h. (s, refl, refl, IsThinned-refl now s.heap v))
              (λ h. absurd (eqb-differs t 0 h e))
        | inr (m, d, least) ↦
            if-cases (Thins s) (t == 0) _ _ (λ h. absurd (d (eqb-holds t 0 h)))
              (λ z.
                if-cases (Thins s) (timer_gt (s.heap.tv t) now) _ _
                  (λ g. (s, refl, refl, IsThinned-refl now s.heap v))
                  (λ due.
                    let (h, e, removal) = released s t v m in
                    let r : Timers = record s { heap = h; pool = t ∷ s.pool } in
                    let b : Timers = record r {
                      out = expired (s.callback t) (s.timeout_arg t) ∷ s.out;
                    } in
                    let same = quiet.heap (s.callback t) (s.timeout_arg t) b in
                    let (x, ends, active, thin) =
                      expire_due-Thins k (call_back fire r t)
                        (omega (arith, ap (λ (g : TmrHeap). g.curr_size) same, removal.size))
                        (subst IsHeap (sym same) removal.valid) in
                    subst
                      (λ y. Thins s (and_then (λ r. expire_due fire k now (call_back fire r t)) y))
                      (sym e)
                      (
                        x,
                        ends,
                        active ∙ quiet.active _ _ b,
                        IsThinned-trans now s.heap h x.heap
                            (Removed-IsThinned now s.heap h t due removal)
                            (subst (λ g. IsThinned now g x.heap) same thin),
                      )))
      ]
