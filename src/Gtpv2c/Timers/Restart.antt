-- ===== src/Gtpv2c/Timers/Restart.antt =====
-- nw-gtpv2c/src/NwGtpv2c.c: a callback that starts its timer again while the timers that are due expire.
use linkerepc.Prelude.{
  ℕ, ◌≡◌, ◌⊎◌, inl, inr, refl, true, some, if◌then◌else◌, ◌==◌, if-elim, eqb-false, ap, sym, ◌∙◌,
  subst, set, set-there, set-same,
}
use linkerepc.Gtpv2c.TmrHeap.{TmrHeap, Time, timer_gt, insert}
use linkerepc.Gtpv2c.TmrHeap.Contract.{IsHeap, Member}
use linkerepc.Gtpv2c.TmrHeap.Contract.Insert.{Inserted, insert-Inserted}
use linkerepc.Gtpv2c.Timers.{
  Timers, Request, Environment, filled, activate, inserted, start_timer, from_pool, timer_add,
}
use linkerepc.Gtpv2c.Timers.Invariant.{retimed-IsHeap}
use linkerepc.Gtpv2c.Timers.Expiry.{IsLater, IsOpen, IsCalled}

-- The timer `t` joins the heap of an open state at the time `x`, which is later than `now`.
module _ (now : Time) (s : Timers) (t : ℕ) (x : Time) (h : TmrHeap) (o : IsOpen now s)
    (out : ¬ Member s.heap t) (ins : Inserted (record s.heap { tv = set s.heap.tv t x }) t h)
    (future : timer_gt x now ≡ true) where
  old-tv : (u : ℕ) → Member s.heap u → h.tv u ≡ s.heap.tv u
  old-tv u m =
      ap (λ (f : ℕ → Time). f u) ins.tv
      ∙ set-there s.heap.tv t u x λ e. out (subst (Member s.heap) (sym e) m)

  new-IsLater : IsLater h now t
  new-IsLater =
      ap (λ z. timer_gt z now) (ap (λ (f : ℕ → Time). f t) ins.tv ∙ set-same s.heap.tv t x) ∙ future

  joined-IsOpen : (r : Timers) → r.heap ≡ h → (r.active ≡ t) ⊎ (r.active ≡ s.active) → IsOpen now r
  joined-IsOpen r e k = record {
    valid = subst IsHeap (sym e) ins.valid;
    held = λ d.
        subst (λ (g : TmrHeap). Member g r.active × IsLater g now r.active) (sym e)
          (elim k [
            | inl n ↦
                subst (λ u. Member h u × IsLater h now u) (sym n)
                  ((ins.members t).1 (inr refl), new-IsLater)
            | inr n ↦
                let (m, l) = o.held (λ z. d (n ∙ z)) in
                subst (λ u. Member h u × IsLater h now u) (sym n)
                  (
                    (ins.members s.active).1 (inl m),
                    ap (λ z. timer_gt z now) (old-tv s.active m) ∙ l,
                  )
          ]);
  }

  joined-IsLater :
      (u : ℕ) → Member h u → IsLater h now u ⊎ (Member s.heap u × (h.tv u ≡ s.heap.tv u))
  joined-IsLater u m = elim ((ins.members u).0 m) [
    | inl k ↦ inr (k, old-tv u k)
    | inr e ↦ inl (subst (IsLater h now) (sym e) new-IsLater)
  ]

-- What a patient callback may do with its timer `t`: start it again for a time that is later.
pub start_timer-IsOpen :
    (s : Timers) (env : Environment) (now : Time) (q : Request) (t : ℕ)
    → IsCalled now t s
    → timer_gt (timer_add now (record { tv_sec = q.timeout_sec; tv_usec = q.timeout_usec })) now
      ≡ true
    → (r : Timers) × (start_timer s env now q ≡ some (t, r))
      × IsOpen now r
      × ((u : ℕ)
          → Member r.heap u
          → IsLater r.heap now u ⊎ (Member s.heap u × (r.heap.tv u ≡ s.heap.tv u)))
unfolding start_timer
start_timer-IsOpen s env now q t c future =
    let x = timer_add now (record { tv_sec = q.timeout_sec; tv_usec = q.timeout_usec }) in
    let f = filled s t c.rest now q in
    let (h, i, eq, ins) =
      insert-Inserted f.heap t (retimed-IsHeap s.heap t x c.opened.valid c.absent) c.nonnull
        c.absent c.room in
    let z : Timers = record f { heap = h } in
    let r = activate z env t q in
    let same : r.heap ≡ h =
      if-elim (λ (y : Timers). y.heap ≡ h) (z.active == 0) _ _ refl
        (if-elim (λ (y : Timers). y.heap ≡ h) (timer_gt (h.tv s.active) (h.tv t)) _ _ refl refl) in
    let runs : (r.active ≡ t) ⊎ (r.active ≡ s.active) =
      if-elim (λ (y : Timers). (y.active ≡ t) ⊎ (y.active ≡ s.active)) (z.active == 0) _ _
        (inl refl)
        (if-elim (λ (y : Timers). (y.active ≡ t) ⊎ (y.active ≡ s.active))
          (timer_gt (h.tv s.active) (h.tv t)) _ _ (inl refl) (inr refl)) in
    (
      r,
      ap
            (λ p.
              let (k, pool) = from_pool p env.new_info in
              let g = filled s k pool now q in
              if k == 0
              then some (0, record s { pool = pool })
              else inserted g env k q (insert g.heap k))
            c.pool
          ∙ ap
              (λ b.
                if b
                then some (0, record s { pool = c.rest })
                else inserted f env t q (insert f.heap t))
              (eqb-false t 0 c.nonnull)
          ∙ ap (inserted f env t q) eq,
      joined-IsOpen now s t x h c.opened c.absent ins future r same runs,
      subst
          (λ (g : TmrHeap).
            (u : ℕ) → Member g u → IsLater g now u ⊎ (Member s.heap u × (g.tv u ≡ s.heap.tv u)))
          (sym same) (joined-IsLater now s t x h c.opened c.absent ins future),
    )
