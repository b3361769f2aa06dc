-- ===== src/Gtpv2c/Timers/Timeout.antt =====
-- What a timeout leaves: `nwGtpv2cProcessTimeout`.
use linkerepc.Prelude.{ℕ, ◌≡◌, ◌≢◌, inl, inr, ◌==◌, if-cases, eqb-holds, eqb-differs}
use linkerepc.Gtpv2c.TmrHeap.{Time, peek}
use linkerepc.Gtpv2c.TmrHeap.Contract.{IsHeap, Member, peek_least}
use linkerepc.Gtpv2c.Timers.{Timers, Environment, start_next}
use linkerepc.Gtpv2c.Timers.Invariant.{IsArmed}
use linkerepc.Gtpv2c.Timers.Expiry.{IsLater, IsOpen}

-- After a timeout at `now`, no timer of the heap is due, and if there is one, some timer of the heap
-- runs with the timer manager.
pub record IsServed (now : Time) (s : Timers) : Type 0 where
  pub valid : IsHeap s.heap
  pub idle : s.active ≡ 0 → s.heap.curr_size ≡ 0
  pub held : s.active ≢ 0 → Member s.heap s.active
  pub later : (u : ℕ) → Member s.heap u → IsLater s.heap now u

-- The earliest timer is started if none runs.
module _ (fire : ℕ → ℕ → Timers → Timers) (now : Time) (env : Environment) (r : Timers)
    (o : IsOpen now r) where
  pub start_next-IsArmed : r.active ≡ 0 → IsArmed (start_next fire r env now)
  start_next-IsArmed e =
      let t = peek r.heap in
      if-cases IsArmed (r.active == 0) _ _
        (λ _.
          if-cases IsArmed (t == 0) _ _
            (λ z. record {
              valid = o.valid;
              idle = λ k. elim (peek_least r.heap o.valid) [
                | inl (none_left, q) ↦ none_left
                | inr (m, d, least) ↦ absurd (d (eqb-holds t 0 z))
              ];
              held = λ k. absurd (k e);
              least = λ k. absurd (k e);
            })
            (λ z. elim (peek_least r.heap o.valid) [
              | inl (none_left, q) ↦ absurd (eqb-differs t 0 z q)
              | inr (m, d, least) ↦ record {
                valid = o.valid;
                idle = λ k. absurd (d k);
                held = λ k. m;
                least = λ k. least;
              }
            ]))
        (λ d. absurd (eqb-differs r.active 0 d e))
