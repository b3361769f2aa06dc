-- ===== src/IpPool/Ledger/Freeing.antt =====
-- What nwIpv4PoolMgrFree does with the free list and the addresses that are lent.
use linkerepc.Prelude.{
  ℕ, zero, suc, ◌+◌, ◌%◌, ◌<◌, ◌≤◌, ◌≡◌, refl, List, [], ◌∷◌, some, arith, ◌==◌, Bool-cases,
  if◌then◌else◌, length, Absent, IsDistinct, All, All-imp, inl, inr, true, false, ◌⊎◌, htonl,
  htonl-htonl, subst, ◌≢◌, sym,
}
use linkerepc.IpPool.{IpPool, update, is_usable, address, free, index_of}
use linkerepc.IpPool.Chain.{Chain-update}
use linkerepc.IpPool.Ledger.{Ledger}

-- The entry `y` of the ledger of lent descriptors is struck out.
abbrev pub strike : ℕ → List ℕ → List ℕ
strike y [] = []
strike y (x ∷ xs) = if x == y then xs else x ∷ strike y xs

All-strike {κ} : (P : ℕ → Type κ) (y : ℕ) (xs : List ℕ) → All P xs → All P (strike y xs)
All-strike P y [] h = tt
All-strike P y (x ∷ xs) h = ground (arith, All-strike P y xs h.1)

strike-IsDistinct : (y : ℕ) (xs : List ℕ) → IsDistinct xs → IsDistinct (strike y xs)
strike-IsDistinct y [] h = tt
strike-IsDistinct y (x ∷ xs) h =
    ground (arith, All-strike (λ z. x ≢ z) y xs h.0, strike-IsDistinct y xs h.1)

strike-Absent : (y : ℕ) (xs : List ℕ) → IsDistinct xs → Absent y (strike y xs)
strike-Absent y [] h = tt
strike-Absent y (x ∷ xs) h = elim (Bool-cases (x == y)) [
  | inl e ↦ rw e (subst (λ z. Absent z xs) (ground arith) h.0)
  | inr e ↦ rw e (ground arith, strike-Absent y xs h.1)
]

-- `y` occurs in the list.
abbrev pub Present : ℕ → List ℕ → Type 0
Present y [] = ⊥
Present y (x ∷ xs) = (x ≡ y) ⊎ Present y xs

length-strike : (y : ℕ) (xs : List ℕ) → Present y xs → length xs ≡ suc (length (strike y xs))
length-strike y [] h = absurd h
length-strike y (x ∷ xs) h = ground (arith, length-strike y xs)

pub All-present {κ} : (P : ℕ → Type κ) (y : ℕ) (xs : List ℕ) → All P xs → Present y xs → P y
All-present P y [] h m = absurd m
All-present P y (x ∷ xs) h (inl e) = subst P e h.0
All-present P y (x ∷ xs) h (inr m) = All-present P y xs h.1 m

Absent-apart : (y : ℕ) (xs ys : List ℕ) → All (λ x. Absent x ys) xs → Present y ys → Absent y xs
Absent-apart y [] ys h m = tt
Absent-apart y (x ∷ xs) ys h m =
    (λ e. All-present (λ z. x ≢ z) y ys h.0 m (sym e), Absent-apart y xs ys h.1 m)

pub index_of-address :
    (p : IpPool) (y : ℕ)
    → y < p.size
    → p.start_ip + p.size ≤ 4294967296
    → index_of p (address p y) ≡ y
index_of-address p y h f = omega (arith, htonl-htonl ((p.start_ip + y) % 4294967296) (omega arith))

pub usable-ne-zero : (addr : ℕ) → is_usable addr ≡ true → (addr == 0) ≡ false
unfolding is_usable htonl
usable-ne-zero zero h = cc
usable-ne-zero (suc a) h = ground arith

Absent-strike : (x y : ℕ) (ys : List ℕ) → Absent x ys → Absent x (strike y ys)
Absent-strike x y ys = All-strike (λ z. x ≢ z) y ys

unfoldable pub returned : IpPool → ℕ → IpPool
returned p y = record p { next = update p.next y p.free_pool; free_pool = some y }

Ledger-returned :
    (p : IpPool) (y : ℕ) (xs ys : List ℕ)
    → Ledger p xs ys
    → Present y ys
    → Ledger (returned p y) (y ∷ xs) (strike y ys)
unfolding returned
Ledger-returned p y xs ys l m =
    let off = Absent-apart y xs ys l.apart m in
    record {
      chain = (refl, ground (arith, Chain-update p.next y p.free_pool p.free_pool xs off l.chain));
      free_distinct = (off, l.free_distinct);
      lent_distinct = strike-IsDistinct y ys l.lent_distinct;
      apart = (strike-Absent y ys l.lent_distinct, All-imp (λ x. Absent-strike x y ys) xs l.apart);
      free_inside = (All-present (λ z. z < p.size) y ys l.lent_inside m, l.free_inside);
      lent_inside = All-strike (λ z. z < p.size) y ys l.lent_inside;
      lent_usable = All-strike (λ z. is_usable (address p z) ≡ true) y ys l.lent_usable;
      room = omega (arith, length-strike y ys m, l.room);
      fits = l.fits;
    }

pub free-returned :
    (p : IpPool) (y : ℕ)
    → p.start_ip + p.size ≤ 4294967296
    → y < p.size
    → is_usable (address p y) ≡ true
    → free p (address p y) ≡ some (returned p y)
unfolding free returned
free-returned p y fits inside good =
    ground (arith, usable-ne-zero (address p y) good, index_of-address p y inside fits)

pub next-returned : (p : IpPool) (y : ℕ) → (returned p y).next y ≡ p.free_pool
unfolding returned
next-returned p y = ground arith

pub head-returned : (p : IpPool) (y : ℕ) → (returned p y).free_pool ≡ some y
unfolding returned
head-returned p y = refl

-- Freeing the address of a lent descriptor succeeds, strikes it out of the lent ones and puts it at
-- the head of the free list, so that it is the next to be tried.
pub free-Ledger :
    (p : IpPool) (y : ℕ) (xs ys : List ℕ)
    → Ledger p xs ys
    → Present y ys
    → (q : IpPool) × (free p (address p y) ≡ some q)
      × (q.start_ip ≡ p.start_ip)
      × Ledger q (y ∷ xs) (strike y ys)
unfolding returned
free-Ledger p y xs ys l m =
    let inside : y < p.size = All-present (λ z. z < p.size) y ys l.lent_inside m in
    let good = All-present (λ z. is_usable (address p z) ≡ true) y ys l.lent_usable m in
    (returned p y, free-returned p y l.fits inside good, refl, Ledger-returned p y xs ys l m)
