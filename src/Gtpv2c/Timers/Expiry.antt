-- ===== src/Gtpv2c/Timers/Expiry.antt =====
-- The loop over the timers that are due, in `nwGtpv2cProcessTimeout`.
use linkerepc.Prelude.{
  ℕ, zero, suc, ◌<◌, ◌≤◌, ◌≡◌, ◌≢◌, ◌⊎◌, inl, inr, refl, arith, Bool, true, false, some, List, [],
  ◌∷◌, if◌then◌else◌, ◌==◌, if-cases, if-elim, eqb-holds, eqb-differs, Bool-cases, ap, sym, ◌∙◌,
  subst, length,
}
use linkerepc.Gtpv2c.TmrHeap.{TmrHeap, Time, timer_gt, peek}
use linkerepc.Gtpv2c.TmrHeap.Timeval.{NotAfter}
use linkerepc.Gtpv2c.TmrHeap.Contract.{IsHeap, Member, peek_least}
use linkerepc.Gtpv2c.TmrHeap.Contract.Cut.{Removed}
use linkerepc.Gtpv2c.TmrHeap.Contract.Remove.{remove-Removed}
use linkerepc.Gtpv2c.Timers.{
  and_then, Timers, Outcome, finished, expire_due, call_back, release, drop_timer, expired,
}

-- A timer that is due at `now`, and one that is not.
abbrev pub IsDue : TmrHeap → Time → ℕ → Type 0
IsDue h now u = timer_gt (h.tv u) now ≡ false

abbrev pub IsLater : TmrHeap → Time → ℕ → Type 0
IsLater h now u = timer_gt (h.tv u) now ≡ true

-- While timers expire, the heap is valid, and a timer that a callback has made active is in it and is
-- not due.
pub record IsOpen (now : Time) (s : Timers) : Type 0 where
  pub valid : IsHeap s.heap
  pub held : s.active ≢ 0 → Member s.heap s.active × IsLater s.heap now s.active

-- The state in which the callback of the timer `t` is called: `t` has left the heap, which has room for it again, and
-- is the next one that the pool gives.
pub record IsCalled (now : Time) (t : ℕ) (s : Timers) : Type 0 where
  pub opened : IsOpen now s
  pub absent : ¬ Member s.heap t
  pub nonnull : t ≢ 0
  pub rest : List ℕ
  pub pool : s.pool ≡ t ∷ rest
  pub room : suc s.heap.curr_size < s.heap.max_size

-- Callbacks that, where they are called, keep the timers valid, and start none that is due at `now` already.
pub record IsPatient (fire : ℕ → ℕ → Timers → Timers) (now : Time) : Type 0 where
  pub keeps : (c a t : ℕ) (s : Timers) → IsCalled now t s → IsOpen now (fire c a s)
  pub later :
      (c a t : ℕ) (s : Timers)
      → IsCalled now t s
      → (u : ℕ) → Member (fire c a s).heap u
      → IsLater (fire c a s).heap now u ⊎ (Member s.heap u × ((fire c a s).heap.tv u ≡ s.heap.tv u))

-- A number in a list, and the list without it.
abbrev Occurs : ℕ → List ℕ → Type 0
Occurs u [] = u ≢ u
Occurs u (x ∷ xs) = (u ≡ x) ⊎ Occurs u xs

abbrev without : ℕ → List ℕ → List ℕ
without t [] = []
without t (x ∷ xs) = if t == x then without t xs else x ∷ without t xs

without_short : (t : ℕ) (l : List ℕ) → length (without t l) ≤ length l
without_short t [] = omega arith
without_short t (x ∷ xs) =
    if-elim (λ r. length r ≤ suc (length xs)) (t == x) _ _ (omega (arith, without_short t xs))
      (omega (arith, without_short t xs))

without_shorter : (t : ℕ) (l : List ℕ) → Occurs t l → length (without t l) < length l
without_shorter t [] o = absurd (o refl)
without_shorter t (x ∷ xs) (inl e) =
    if-cases (λ r. length r < suc (length xs)) (t == x) _ _ (λ h. omega (arith, without_short t xs))
      (λ h. absurd (eqb-differs t x h e))
without_shorter t (x ∷ xs) (inr o) =
    if-elim (λ r. length r < suc (length xs)) (t == x) _ _ (omega (arith, without_short t xs))
      (omega (arith, without_shorter t xs o))

without_others : (t u : ℕ) (l : List ℕ) → u ≢ t → Occurs u l → Occurs u (without t l)
without_others t u [] d o = o
without_others t u (x ∷ xs) d (inl e) =
    if-cases (Occurs u) (t == x) _ _ (λ h. absurd (d (e ∙ sym (eqb-holds t x h)))) (λ h. inl e)
without_others t u (x ∷ xs) d (inr o) =
    if-elim (Occurs u) (t == x) _ _ (without_others t u xs d o) (inr (without_others t u xs d o))

-- The timers in the first slots.
abbrev pub slots : TmrHeap → ℕ → List ℕ
slots h zero = []
slots h (suc n) = h.slot n ∷ slots h n

pub length-slots : (h : TmrHeap) (n : ℕ) → length (slots h n) ≡ n
length-slots h zero = refl
length-slots h (suc n) = omega (arith, length-slots h n)

Occurs-slot : (h : TmrHeap) (n i : ℕ) → i < n → Occurs (h.slot i) (slots h n)
Occurs-slot h zero i l = absurd (omega arith)
Occurs-slot h (suc n) i l = elim (Bool-cases (i == n)) [
  | inl e ↦ inl (ap h.slot (eqb-holds i n e))
  | inr e ↦ let d = eqb-differs i n e in inr (Occurs-slot h n i (omega arith))
]

-- The due timers are among those of the list.
abbrev pub IsCovered : Time → List ℕ → TmrHeap → Type 0
IsCovered now l h = (u : ℕ) → Member h u → IsDue h now u → Occurs u l

pub slots-cover : (now : Time) (h : TmrHeap) → IsCovered now (slots h h.curr_size) h
slots-cover now h u m d =
    subst (λ x. Occurs x (slots h h.curr_size)) m.1 (Occurs-slot h h.curr_size (h.index u) m.0)

-- A timer of the heap is released.
pub released :
    (s : Timers) (t : ℕ)
    → IsHeap s.heap
    → Member s.heap t
    → (h : TmrHeap) × (release s t ≡ some (record s { heap = h; pool = t ∷ s.pool }))
      × Removed s.heap t h
unfolding release
released s t v m = let (h, e, r) = remove-Removed s.heap t v m in (h, ap (drop_timer s t) e, r)

pub Member-nonnull : (h : TmrHeap) (t : ℕ) → IsHeap h → Member h t → t ≢ 0
Member-nonnull h t v m e = v.nonnull (h.index t) m.0 (m.1 ∙ e)

later_than : (a b now : Time) → NotAfter a b → timer_gt a now ≡ true → timer_gt b now ≡ true
unfolding timer_gt
later_than a b now h g = ground arith

true-false : (c : Bool) → c ≡ true → ¬ (c ≡ false)
true-false c p q = absurd (cc)

module _ (fire : ℕ → ℕ → Timers → Timers) (now : Time) (patient : IsPatient fire now) where
  -- A due timer is released and its callback called.
  module _ (s : Timers) (t : ℕ) (h : TmrHeap) (o : IsOpen now s) (due : IsDue s.heap now t)
      (m : Member s.heap t) (r : Removed s.heap t h) where
    abbrev called : Timers
    called = call_back fire (record s { heap = h; pool = t ∷ s.pool }) t

    before_call : IsOpen now (record s {
      heap = h;
      pool = t ∷ s.pool;
      out = expired (s.callback t) (s.timeout_arg t) ∷ s.out;
    })
    before_call = record {
      valid = r.valid;
      held = λ d.
          let (m, l) = o.held d in
          (
            (r.members s.active).1
                (m, λ e. true-false _ l (subst (λ u. IsDue s.heap now u) (sym e) due)),
            ap (λ (f : ℕ → Time). timer_gt (f s.active) now) r.tv ∙ l,
          );
    }

    calls_it : IsCalled now t (record s {
      heap = h;
      pool = t ∷ s.pool;
      out = expired (s.callback t) (s.timeout_arg t) ∷ s.out;
    })
    calls_it = record {
      opened = before_call;
      absent = λ k. ((r.members t).0 k).1 refl;
      nonnull = Member-nonnull s.heap t o.valid m;
      rest = s.pool;
      pool = refl;
      room = omega (arith, r.size, r.max_size, o.valid.bounded);
    }

    called-IsOpen : IsOpen now called
    called-IsOpen = patient.keeps _ _ t _ calls_it

    called-IsCovered :
        (l : List ℕ) → IsCovered now l s.heap → IsCovered now (without t l) called.heap
    called-IsCovered l c u n d = elim (patient.later _ _ t _ calls_it u n) [
      | inl g ↦ absurd (true-false _ g d)
      | inr (k, e) ↦
          let (old, other) = (r.members u).0 k in
          let time : called.heap.tv u ≡ s.heap.tv u = e ∙ ap (λ (f : ℕ → Time). f u) r.tv in
          without_others t u l other (c u old (sym (ap (λ x. timer_gt x now) time) ∙ d))
    ]

  -- How the loop ends.
  abbrev pub Ends : Outcome → Type 0
  Ends x =
      (r : Timers) × (x ≡ finished r)
      × IsOpen now r
      × ((u : ℕ) → Member r.heap u → IsLater r.heap now u)

  pub expire_due-Ends :
      (k : ℕ) (s : Timers) (l : List ℕ)
      → length l < k
      → IsOpen now s
      → IsCovered now l s.heap
      → Ends (expire_due fire k now s)
  unfolding expire_due
  expire_due-Ends zero s l short o c = absurd (omega arith)
  expire_due-Ends (suc k) s l short o c = elim (peek_least s.heap o.valid) [
    | inl (none_left, e) ↦
        if-cases Ends (peek s.heap == 0) _ _
          (λ h. (s, refl, o, λ u m. absurd (omega (arith, none_left, m.0))))
          (λ h. absurd (eqb-differs (peek s.heap) 0 h e))
    | inr (m, d, least) ↦
        let t = peek s.heap in
        if-cases Ends (t == 0) _ _ (λ h. absurd (d (eqb-holds t 0 h)))
          (λ z.
            if-cases Ends (timer_gt (s.heap.tv t) now) _ _
              (λ g. (s, refl, o, λ u n. later_than (s.heap.tv t) (s.heap.tv u) now (least u n) g))
              (λ due.
                let (h, e, r) = released s t o.valid m in
                subst (λ x. Ends (and_then (λ r. expire_due fire k now (call_back fire r t)) x))
                  (sym e)
                  (expire_due-Ends k (called s t h o due m r) (without t l)
                    (omega (arith, without_shorter t l (c t m due))) (called-IsOpen s t h o due m r)
                    (called-IsCovered s t h o due m r l c))))
  ]
