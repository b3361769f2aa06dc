-- ===== src/IpPool/Tests.antt =====
-- The pool of NwIpv4PoolMgr.c on a small range, 10.0.0.254 to 10.0.1.2.
use linkerepc.Prelude.{
  htonl, ℕ, ◌-◌, ◌≡◌, refl, [], ◌∷◌, some, arith, IsDistinct, inl, none, ◌==◌, if◌then◌else◌,
}
use linkerepc.IpPool.{IpPool, new, granted, alloc, is_usable, address, free, fill, alloc_loop}
use linkerepc.IpPool.Ledger.{Ledger}
use linkerepc.IpPool.Ledger.Lending.{popped}
use linkerepc.IpPool.Ledger.Freeing.{free-Ledger, returned}
use linkerepc.IpPool.Reuse.{allocates, start, after, Calls-IsDistinct, free_twice_cycles, addresses}

abbrev first_ip : ℕ
first_ip = 167772414

abbrev last_ip : ℕ
last_ip = 167772418

abbrev pool : IpPool
pool = record {
  start_ip = first_ip;
  end_ip = last_ip;
  mask = 0;
  size = 5;
  next = λ i. if i == 0 then none else some (i - 1);
  free_pool = some 4;
}

abbrev lent : IpPool
lent = popped pool 4

lent-Ledger : Ledger lent (3 ∷ 2 ∷ 1 ∷ 0 ∷ []) (4 ∷ [])
unfolding is_usable htonl
lent-Ledger = record {
  chain = (refl, (refl, (refl, (refl, refl))));
  free_distinct = ground arith;
  lent_distinct = (tt, tt);
  apart = ground arith;
  free_inside = ground arith;
  lent_inside = ground arith;
  lent_usable = (refl, tt);
  room = omega arith;
  fits = omega arith;
}

free-Ledger_example :
    (q : IpPool) × (free lent (address lent 4) ≡ some q)
    × (q.start_ip ≡ lent.start_ip)
    × Ledger q (4 ∷ 3 ∷ 2 ∷ 1 ∷ 0 ∷ []) []
free-Ledger_example = free-Ledger lent 4 (3 ∷ 2 ∷ 1 ∷ 0 ∷ []) (4 ∷ []) lent-Ledger (inl refl)

-- The pool as `new` makes it.
abbrev made : IpPool
unfolding fill
made = record {
  start_ip = first_ip;
  end_ip = last_ip;
  mask = 0;
  size = 5;
  next = (fill 5 0 (λ _. none) none).0;
  free_pool = some 4;
}

made_grants : alloc made ≡ granted (address made 4) (popped made 4)
unfolding alloc alloc_loop is_usable htonl made
made_grants = refl

Calls-IsDistinct_example : IsDistinct (addresses (popped made 4) (4 ∷ []))
unfolding new fill
Calls-IsDistinct_example =
    Calls-IsDistinct first_ip last_ip 0 made (popped made 4) (4 ∷ []) (omega arith) (omega arith)
      refl (after start (allocates 4 (omega arith) made_grants))

free_twice_cycles_example :
    (s : IpPool) × (alloc (returned (returned lent 4) 4) ≡ granted (address lent 4) s)
    × (alloc s ≡ granted (address lent 4) s)
unfolding is_usable htonl free returned
free_twice_cycles_example =
    free_twice_cycles lent (returned lent 4) (returned (returned lent 4) 4) 4 (omega arith)
      (omega arith) refl refl refl
