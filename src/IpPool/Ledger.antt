-- ===== src/IpPool/Ledger.antt =====
-- The pool of NwIpv4PoolMgr.c against its contract: which addresses are free and which are lent.
pub mod Lending
pub mod Freeing
use linkerepc.Prelude.{
  ℕ, zero, suc, ◌+◌, ◌-◌, ◌%◌, ◌<◌, ◌≤◌, ◌≡◌, refl, List, [], ◌∷◌, ◌++◌, none, some, arith, ◌==◌,
  Bool-cases, if◌then◌else◌, length, Absent, IsDistinct, All, All-imp, countdown, countdown-bounded,
  countdown-IsDistinct, inl, inr, true, false, ◌⊎◌, ap, ◌∙◌, htonl, htonl-htonl, subst, ◌≢◌, sym,
}
use linkerepc.IpPool.{
  IpPool, update, fill, entries, new, Alloc, granted, exhausted, alloc_loop, alloc, is_usable,
  address, free, index_of,
}
use linkerepc.IpPool.Chain.{Chain, Chain-update, Chain-fill, pushed, pushed-countdown}

-- The free list of `p` is `xs`, the descriptors `ys` are lent, and none is on both or twice on one.
pub record Ledger (p : IpPool) (xs ys : List ℕ) : Type 0 where
  pub chain : Chain p.next p.free_pool xs
  pub free_distinct : IsDistinct xs
  pub lent_distinct : IsDistinct ys
  pub apart : All (λ x. Absent x ys) xs
  pub free_inside : All (λ x. x < p.size) xs
  pub lent_inside : All (λ y. y < p.size) ys
  pub lent_usable : All (λ y. is_usable (address p y) ≡ true) ys
  pub room : length xs + length ys ≤ p.size
  pub fits : p.start_ip + p.size ≤ 4294967296

length-countdown : (n : ℕ) → length (countdown n) ≡ n
length-countdown zero = refl
length-countdown (suc n) = ap suc (length-countdown n)

nothing_lent : (xs : List ℕ) → All (λ x. Absent x []) xs
nothing_lent [] = tt
nothing_lent (x ∷ xs) = (tt, nothing_lent xs)

-- A new pool over a range that does not wrap has every address of the range on its free list, the
-- last one first, and has lent none.
pub new-Ledger :
    (start_ip end_ip mask : ℕ)
    → start_ip ≤ end_ip
    → end_ip < 4294967296
    → (p : IpPool) × (new true start_ip end_ip mask ≡ some p)
      × (p.start_ip ≡ start_ip)
      × Ledger p (countdown (end_ip + 1 - start_ip)) []
unfolding new
new-Ledger start_ip end_ip mask h e =
    let n = entries start_ip end_ip in
    let built = fill n 0 (λ _. none) none in
    let count : n ≡ end_ip + 1 - start_ip = omega arith in
    let listed : pushed n 0 [] ≡ countdown (end_ip + 1 - start_ip) =
      pushed-countdown n 0 ∙ ap countdown (omega arith) in
    (
      record {
        start_ip = start_ip;
        end_ip = end_ip;
        mask = mask;
        size = n;
        next = built.0;
        free_pool = built.1;
      },
      refl,
      refl,
      record {
        chain = subst (Chain built.0 built.1) listed (Chain-fill n 0 (λ _. none) none [] tt refl);
        free_distinct = countdown-IsDistinct (end_ip + 1 - start_ip);
        lent_distinct = tt;
        apart = nothing_lent (countdown (end_ip + 1 - start_ip));
        free_inside = countdown-bounded (end_ip + 1 - start_ip) n (omega arith);
        lent_inside = tt;
        lent_usable = tt;
        room = omega (arith, length-countdown (end_ip + 1 - start_ip));
        fits = omega arith;
      },
    )
