-- ===== src/IpPool/Ledger/Lending.antt =====
-- What nwIpv4PoolMgrAlloc does with the free list and the addresses that are lent.
use linkerepc.Prelude.{
  ℕ, zero, suc, ◌<◌, ◌≡◌, refl, List, [], ◌∷◌, ◌++◌, some, arith, Bool-cases, length, Absent, All,
  inl, inr, true, false, ◌⊎◌, ap, subst, sym,
}
use linkerepc.IpPool.{IpPool, Alloc, granted, exhausted, alloc_loop, alloc, is_usable, address}
use linkerepc.IpPool.Ledger.{Ledger}

abbrev pub popped : IpPool → ℕ → IpPool
popped p i = record p { free_pool = p.next i }

-- Taking the first descriptor off the free list, to drop it or to lend it.
Ledger-dropped :
    (p : IpPool) (i : ℕ) (xs ys : List ℕ) → Ledger p (i ∷ xs) ys → Ledger (popped p i) xs ys
Ledger-dropped p i xs ys l = record {
  chain = l.chain.1;
  free_distinct = l.free_distinct.1;
  lent_distinct = l.lent_distinct;
  apart = l.apart.1;
  free_inside = l.free_inside.1;
  lent_inside = l.lent_inside;
  lent_usable = l.lent_usable;
  room = omega (arith, l.room);
  fits = l.fits;
}

apart-cons :
    (i : ℕ) (xs ys : List ℕ)
    → Absent i xs
    → All (λ x. Absent x ys) xs
    → All (λ x. Absent x (i ∷ ys)) xs
apart-cons i [] ys a h = tt
apart-cons i (x ∷ xs) ys a h = ((λ e. a.0 (sym e), h.0), apart-cons i xs ys a.1 h.1)

Ledger-lent :
    (p : IpPool) (i : ℕ) (xs ys : List ℕ)
    → is_usable (address p i) ≡ true
    → Ledger p (i ∷ xs) ys
    → Ledger (popped p i) xs (i ∷ ys)
Ledger-lent p i xs ys good l = record {
  chain = l.chain.1;
  free_distinct = l.free_distinct.1;
  lent_distinct = (l.apart.0, l.lent_distinct);
  apart = apart-cons i xs ys l.free_distinct.0 l.apart.1;
  free_inside = l.free_inside.1;
  lent_inside = (l.free_inside.0, l.lent_inside);
  lent_usable = (good, l.lent_usable);
  room = omega (arith, l.room);
  fits = l.fits;
}

-- The first usable descriptor of the free list `xs` is lent, and those before it are dropped; or
-- there is none.
abbrev pub Allocated : IpPool → List ℕ → List ℕ → Alloc → Type 0
Allocated p xs ys r =
    ((i : ℕ) × (skipped : List ℕ) × (zs : List ℕ) × (q : IpPool) × (xs ≡ skipped ++ i ∷ zs)
      × All (λ x. is_usable (address p x) ≡ false) skipped
      × (is_usable (address p i) ≡ true)
      × (r ≡ granted (address p i) q)
      × (q.start_ip ≡ p.start_ip)
      × Ledger q zs (i ∷ ys))
    ⊎ ((q : IpPool) × All (λ x. is_usable (address p x) ≡ false) xs
        × (r ≡ exhausted q)
        × (q.start_ip ≡ p.start_ip)
        × Ledger q [] ys)

Allocated-skip :
    (p : IpPool) (x : ℕ) (xs ys : List ℕ) (r : Alloc)
    → is_usable (address p x) ≡ false
    → Allocated (popped p x) xs ys r
    → Allocated p (x ∷ xs) ys r
Allocated-skip p x xs ys r bad (inl (i, skipped, zs, q, e, s, u, g, k, l)) =
    inl (i, x ∷ skipped, zs, q, ap (◌∷◌ x) e, (bad, s), u, g, k, l)
Allocated-skip p x xs ys r bad (inr (q, s, g, k, l)) = inr (q, (bad, s), g, k, l)

module _ (k : ℕ) (p : IpPool) (i : ℕ) (head : p.free_pool ≡ some i) where
  alloc_loop-grant :
      is_usable (address p i) ≡ true → alloc_loop (suc k) p ≡ granted (address p i) (popped p i)
  unfolding alloc_loop
  alloc_loop-grant good = ground arith

  alloc_loop-skip :
      is_usable (address p i) ≡ false → alloc_loop (suc k) p ≡ alloc_loop k (popped p i)
  unfolding alloc_loop
  alloc_loop-skip bad = ground arith

alloc_loop-Allocated :
    (k : ℕ) (p : IpPool) (xs ys : List ℕ)
    → Ledger p xs ys
    → length xs < k
    → Allocated p xs ys (alloc_loop k p)
unfolding alloc_loop
alloc_loop-Allocated zero p xs ys l h = absurd (omega arith)
alloc_loop-Allocated (suc k) p [] ys l h = inr (p, tt, ground arith, refl, l)
alloc_loop-Allocated (suc k) p (x ∷ xs) ys l h = elim (Bool-cases (is_usable (address p x))) [
  | inl good ↦ inl (
    x,
    [],
    xs,
    popped p x,
    refl,
    tt,
    good,
    alloc_loop-grant k p x l.chain.0 good,
    refl,
    Ledger-lent p x xs ys good l,
  )
  | inr bad ↦ subst (Allocated p (x ∷ xs) ys) (sym (alloc_loop-skip k p x l.chain.0 bad)) (
      Allocated-skip p x xs ys _ bad
        (alloc_loop-Allocated k (popped p x) xs ys (Ledger-dropped p x xs ys l) (omega arith)))
]

pub alloc-Allocated : (p : IpPool) (xs ys : List ℕ) → Ledger p xs ys → Allocated p xs ys (alloc p)
unfolding alloc
alloc-Allocated p xs ys l = alloc_loop-Allocated (suc p.size) p xs ys l (omega (arith, l.room))

pub alloc-grant :
    (p : IpPool) (i : ℕ)
    → p.free_pool ≡ some i
    → is_usable (address p i) ≡ true
    → alloc p ≡ granted (address p i) (popped p i)
unfolding alloc
alloc-grant p i head good = alloc_loop-grant p.size p i head good
