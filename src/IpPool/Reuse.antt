-- ===== src/IpPool/Reuse.antt =====
-- Histories of the pool: what its clients, the UE sessions, see over many calls.
use linkerepc.Prelude.{
  ℕ, ◌+◌, ◌-◌, ◌<◌, ◌≤◌, ◌≡◌, refl, List, [], ◌∷◌, ◌++◌, map, some, arith, Absent, IsDistinct, All,
  countdown, inl, inr, true, ap, ◌∙◌, sym, subst,
}
use linkerepc.IpPool.{IpPool, new, granted, exhausted, alloc, is_usable, address, free, index_of}
use linkerepc.IpPool.Ledger.{Ledger, new-Ledger}
use linkerepc.IpPool.Ledger.Lending.{alloc-Allocated, popped, alloc-grant}
use linkerepc.IpPool.Ledger.Freeing.{
  Present, strike, free-Ledger, index_of-address, returned, free-returned, next-returned,
}

-- A call on the pool, with the list of the descriptors whose addresses the clients hold.
pub data Call : IpPool → List ℕ → IpPool → List ℕ → Type 0 where
  allocates :
      {p q : IpPool} {ys : List ℕ} (i : ℕ)
      → i < p.size
      → alloc p ≡ granted (address p i) q
      → Call p ys q (i ∷ ys)
  fails : {p q : IpPool} {ys : List ℕ} → alloc p ≡ exhausted q → Call p ys q ys
  frees :
      {p q : IpPool} {ys : List ℕ} (y : ℕ)
      → Present y ys
      → free p (address p y) ≡ some q
      → Call p ys q (strike y ys)

pub data Calls (p : IpPool) : IpPool → List ℕ → Type 0 where
  start : Calls p p []
  after : {q r : IpPool} {ys zs : List ℕ} → Calls p q ys → Call q ys r zs → Calls p r zs

pub address-injective :
    (p : IpPool) (i j : ℕ)
    → p.start_ip + p.size ≤ 4294967296
    → i < p.size
    → j < p.size
    → address p i ≡ address p j
    → i ≡ j
address-injective p i j f hi hj e =
    sym (index_of-address p i hi f) ∙ ap (index_of p) e ∙ index_of-address p j hj f

abbrev pub Kept : IpPool → List ℕ → Type 0
Kept p ys = (xs : List ℕ) × Ledger p xs ys

pub All-middle {κ} :
    (P : ℕ → Type κ) (xs : List ℕ) (y : ℕ) (zs : List ℕ) → All P (xs ++ y ∷ zs) → P y
All-middle P [] y zs h = h.0
All-middle P (x ∷ xs) y zs h = All-middle P xs y zs h.1

granted-pool : {a b : ℕ} {q r : IpPool} → granted a q ≡ granted b r → (a ≡ b) × (q ≡ r)
granted-pool e = (cc, cc)

exhausted-pool : {q r : IpPool} → exhausted q ≡ exhausted r → q ≡ r
exhausted-pool e = cc

allocates-Kept :
    (p q : IpPool) (xs ys : List ℕ) (i : ℕ)
    → i < p.size
    → alloc p ≡ granted (address p i) q
    → Ledger p xs ys
    → Kept q (i ∷ ys)
allocates-Kept p q xs ys i h e l = elim (alloc-Allocated p xs ys l) [
  | inl (j, skipped, zs, r, split, s, u, g, k, l') ↦
      let (same, pool) = granted-pool (sym g ∙ e) in
      let inside =
        All-middle (λ x. x < p.size) skipped j zs
          (subst (All (λ x. x < p.size)) split l.free_inside) in
      let index : j ≡ i = address-injective p j i l.fits inside h same in
      (zs, subst (λ x. Ledger q zs (x ∷ ys)) index (subst (λ x. Ledger x zs (j ∷ ys)) pool l'))
  | inr (r, s, g, k, l') ↦ cc
]

fails-Kept : (p q : IpPool) (xs ys : List ℕ) → alloc p ≡ exhausted q → Ledger p xs ys → Kept q ys
fails-Kept p q xs ys e l = elim (alloc-Allocated p xs ys l) [
  | inl (j, skipped, zs, r, split, s, u, g, k, l') ↦ cc
  | inr (r, s, g, k, l') ↦ ([], subst (λ x. Ledger x [] ys) (exhausted-pool (sym g ∙ e)) l')
]

frees-Kept :
    (p q : IpPool) (xs ys : List ℕ) (y : ℕ)
    → Present y ys
    → free p (address p y) ≡ some q
    → Ledger p xs ys
    → Kept q (strike y ys)
frees-Kept p q xs ys y m e l =
    let (r, g, k, l') = free-Ledger p y xs ys l m in
    let pool : r ≡ q = cc in (y ∷ xs, subst (λ x. Ledger x (y ∷ xs) (strike y ys)) pool l')

Call-Kept : {p q : IpPool} {ys zs : List ℕ} → Call p ys q zs → Kept p ys → Kept q zs
Call-Kept {p} {q} {ys} (allocates i h e) (xs, l) = allocates-Kept p q xs ys i h e l
Call-Kept {p} {q} {ys} (fails e) (xs, l) = fails-Kept p q xs ys e l
Call-Kept {p} {q} {ys} (frees y m e) (xs, l) = frees-Kept p q xs ys y m e l

Calls-Kept : {p q : IpPool} {ys : List ℕ} → Calls p q ys → Kept p [] → Kept q ys
Calls-Kept start k = k
Calls-Kept (after cs c) k = Call-Kept c (Calls-Kept cs k)

-- The addresses of the lent descriptors, and lists of numbers without repetition.
abbrev pub addresses : IpPool → List ℕ → List ℕ
addresses p = map (address p)

Absent-addresses :
    (p : IpPool) (i : ℕ) (ys : List ℕ)
    → p.start_ip + p.size ≤ 4294967296
    → i < p.size
    → All (λ y. y < p.size) ys
    → Absent i ys
    → Absent (address p i) (addresses p ys)
Absent-addresses p i [] f h b a = tt
Absent-addresses p i (y ∷ ys) f h b a =
    (λ e. a.0 (address-injective p i y f h b.0 e), Absent-addresses p i ys f h b.1 a.1)

addresses-IsDistinct :
    (p : IpPool) (ys : List ℕ)
    → p.start_ip + p.size ≤ 4294967296
    → All (λ y. y < p.size) ys
    → IsDistinct ys
    → IsDistinct (addresses p ys)
addresses-IsDistinct p [] f b d = tt
addresses-IsDistinct p (y ∷ ys) f b d =
    (Absent-addresses p y ys f b.0 b.1 d.0, addresses-IsDistinct p ys f b.1 d.1)

-- From a new pool over a range that does not wrap, after any sequence of calls in which clients
-- free only addresses that they hold, no two holders have the same address.
pub Calls-IsDistinct :
    (start_ip end_ip mask : ℕ) (p q : IpPool) (ys : List ℕ)
    → start_ip ≤ end_ip
    → end_ip < 4294967296
    → new true start_ip end_ip mask ≡ some p
    → Calls p q ys
    → IsDistinct (addresses q ys)
Calls-IsDistinct start_ip end_ip mask p q ys h e made cs =
    let (r, g, k, l) = new-Ledger start_ip end_ip mask h e in
    let pool : r ≡ p = cc in
    let (xs, kept) = Calls-Kept cs (
      countdown (end_ip + 1 - start_ip),
      subst (λ x. Ledger x (countdown (end_ip + 1 - start_ip)) []) pool l,
    ) in
    addresses-IsDistinct q ys kept.fits kept.lent_inside kept.lent_distinct

returned_twice :
    (p : IpPool) (y : ℕ)
    → is_usable (address p y) ≡ true
    → let r = returned (returned p y) y in
      (alloc r ≡ granted (address p y) (popped r y))
      × (alloc (popped r y) ≡ granted (address p y) (popped r y))
unfolding returned
returned_twice p y good =
    let r = returned (returned p y) y in
    let loops : r.next y ≡ some y = next-returned (returned p y) y in
    (
      alloc-grant r y refl good,
      alloc-grant (popped r y) y loops good ∙ ap (granted (address p y)) (ground arith),
    )

-- A session that frees its address twice breaks the pool: from then on every allocation returns
-- that one address, and leaves the pool as it is.
pub free_twice_cycles :
    (p q r : IpPool) (y : ℕ)
    → p.start_ip + p.size ≤ 4294967296
    → y < p.size
    → is_usable (address p y) ≡ true
    → free p (address p y) ≡ some q
    → free q (address p y) ≡ some r
    → (s : IpPool) × (alloc r ≡ granted (address p y) s) × (alloc s ≡ granted (address p y) s)
unfolding returned
free_twice_cycles p q r y fits h good e f =
    let first : returned p y ≡ q = ground (arith, free-returned p y fits h good) in
    let second : returned (returned p y) y ≡ r =
      ground (arith, free-returned (returned p y) y fits h good) in
    (
      popped (returned (returned p y) y) y,
      subst (λ z. alloc z ≡ granted (address p y) (popped (returned (returned p y) y) y)) second
          (returned_twice p y good).0,
      (returned_twice p y good).1,
    )
