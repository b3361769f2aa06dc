-- ===== src/SaeGw/Sessions/Registry.antt =====
-- nw-sae-gw/NwSaeGwUlp.c: the sessions of a PGW with their addresses, when UEs come and go.
use linkerepc.Prelude.{
  ℕ, ◌<◌, ◌≡◌, ◌≢◌, refl, sym, ap, ◌∙◌, subst, ◌⊎◌, inl, inr, Bool, true, false, List, [], ◌∷◌,
  Option, none, some, arith, set, set-same, ◌==◌, All,
}
use linkerepc.Trees.{Key, TreeOps, IsMap}
use linkerepc.IpPool.{IpPool, Alloc, alloc, address}
use linkerepc.IpPool.Ledger.{Ledger}
use linkerepc.IpPool.Ledger.Lending.{alloc-Allocated, Allocated}
use linkerepc.IpPool.Ledger.Freeing.{All-present, usable-ne-zero}
use linkerepc.IpPool.Reuse.{address-injective, All-middle}
use linkerepc.SaeGw.{Gw, Ue, Ulp, imsi_key, set_ue, set_ulp}
use linkerepc.SaeGw.Sessions.{register_pgw, enter_pgw, with_address, registered_pgw, of_pgw}
use linkerepc.SaeGw.Sessions.Leases.{
  Lease, Leased, Leased-enter, Lease-more, Lease-same, address-kept,
}

module _ {t : TreeOps} where
  -- The sessions of the PGW `h` of the gateway.
  abbrev pub Sessions : Gw t → ℕ → List ℕ → List ℕ → Type 0
  Sessions s h xs ys = Leased t (s.ulp h).pool (s.ulp h).ue_pgw_session s.ue xs ys

  -- With success the UE is in the tree and has an address; without, nothing has changed or it is there with none.
  abbrev pub Registration : Gw t → ℕ → ℕ → Bool → Gw t → Type 0
  Registration s h u true r =
      (t.find (r.ulp h).ue_pgw_session (imsi_key (s.ue u).imsi) ≡ some u)
      × ((r.ue u).paa.ipv4_addr ≢ 0)
  Registration s h u false r =
      (r ≡ s)
      ⊎ ((t.find (r.ulp h).ue_pgw_session (imsi_key (s.ue u).imsi) ≡ some u)
          × ((r.ue u).paa.ipv4_addr ≡ 0))

  abbrev pub Registered : Gw t → ℕ → ℕ → Option (Bool × Gw t) → Type 0
  Registered s h u o =
      (done : Bool) × (r : Gw t) × (xs : List ℕ) × (ys : List ℕ) × (o ≡ some (done, r))
      × Sessions r h xs ys
      × Registration s h u done r

  -- The gateway after an answer of the pool.
  abbrev pub after : Gw t → ℕ → ℕ → IpPool → ℕ → Gw t
  after s h u q a =
      set_ue u (of_pgw s h (s.ue u) a) (set_ulp h (record (registered_pgw s h u) { pool = q }) s)

  address-after :
      (s : Gw t) (h u : ℕ) (q : IpPool) (a : ℕ) → ((after s h u q a).ue u).paa.ipv4_addr ≡ a
  address-after s h u q a = ap (λ (x : Ue). x.paa.ipv4_addr) (set-same s.ue u _)

  module _ (law : IsMap t) (s : Gw t) (h u : ℕ) where
    abbrev pool : IpPool
    pool = (s.ulp h).pool

    abbrev tree : t.Tree
    tree = (s.ulp h).ue_pgw_session

    in_tree :
        (q : IpPool) (a : ℕ)
        → t.find ((after s h u q a).ulp h).ue_pgw_session (imsi_key (s.ue u).imsi) ≡ some u
    in_tree q a =
        subst (λ (z : Ulp t). t.find z.ue_pgw_session (imsi_key (s.ue u).imsi) ≡ some u)
          (sym (set-same s.ulp h _)) (law.found tree (imsi_key (s.ue u).imsi) u)

    module _ (xs ys : List ℕ) (l : Sessions s h xs ys) where
      module _ (absent : (k : Key) → t.find tree k ≢ some u) where
        after-Sessions :
            (q : IpPool) (a : ℕ) (xs2 ys2 : List ℕ)
            → Ledger q xs2 ys2
            → ((b : ℕ) → Lease pool ys b → Lease q ys2 b)
            → Lease q ys2 a
            → ((b : ℕ) → Lease pool ys b → b ≡ a → b ≡ 0)
            → Sessions (after s h u q a) h xs2 ys2
        after-Sessions q a xs2 ys2 good keep mine fresh =
            let x = of_pgw s h (s.ue u) a in
            subst (λ (z : Ulp t). Leased t z.pool z.ue_pgw_session (set s.ue u x) xs2 ys2)
              (sym (set-same s.ulp h _))
              (Leased-enter law pool q tree s.ue xs ys l u x xs2 ys2 good absent refl keep mine
                fresh)

        -- A descriptor that the pool lends anew is none of those that it has lent.
        lent_anew :
            (q : IpPool) (i : ℕ) (zs : List ℕ)
            → i < pool.size
            → Ledger q zs (i ∷ ys)
            → (b : ℕ) → Lease pool ys b
            → b ≡ address pool i
            → b ≡ 0
        lent_anew q i zs inside l2 b (inl z) e = z
        lent_anew q i zs inside l2 b (inr (y, m, k)) e =
            let within = All-present (λ z. z < pool.size) y ys l.ledger.lent_inside m in
            let same = address-injective pool i y l.ledger.fits inside within (sym e ∙ k) in
            absurd (All-present (λ z. i ≢ z) y ys l2.lent_distinct.0 m same)

        alloc-Registered :
            (o : Alloc) → Allocated pool xs ys o → Registered s h u (with_address s h u o)
        alloc-Registered o (inl (i, skipped, zs, q, split, bad, usable, g, k, l2)) =
            let a = address pool i in
            let inside =
              All-middle (λ x. x < pool.size) skipped i zs
                (subst (All (λ x. x < pool.size)) split l.ledger.free_inside) in
            (
              true,
              after s h u q a,
              zs,
              i ∷ ys,
              ap (with_address s h u) g,
              after-Sessions q a zs (i ∷ ys) l2 (λ b. Lease-more pool q ys k i b)
                  (inr (i, inl refl, address-kept pool q i k)) (lent_anew q i zs inside l2),
              (
                in_tree q a,
                λ e. nonzero (sym (address-after s h u q a) ∙ e) (usable-ne-zero a usable),
              ),
            )
          where
            nonzero : {n : ℕ} → n ≡ 0 → (n == 0) ≡ false → ⊥
            nonzero e f = ground arith
        alloc-Registered o (inr (q, bad, g, k, l2)) = (
          false,
          after s h u q 0,
          [],
          ys,
          ap (with_address s h u) g,
          after-Sessions q 0 [] ys l2 (λ b. Lease-same pool q ys k b) (inl refl) (λ b c e. e),
          inr (in_tree q 0, address-after s h u q 0),
        )

        enter_pgw-Registered : (o : Option ℕ) → Registered s h u (enter_pgw s h u o)
        enter_pgw-Registered (some c) = (false, s, xs, ys, refl, l, inl refl)
        enter_pgw-Registered none =
            alloc-Registered (alloc pool) (alloc-Allocated pool xs ys l.ledger)

  -- In a PGW whose sessions are in order, a UE that is in none of its sessions is registered, always with a result,
  -- and the sessions are in order afterwards: no two of them have one address. With success the tree has the UE under
  -- its IMSI, and it has an address that is not 0. Without, either nothing has changed, or the UE is in the tree and
  -- its address is 0.
  pub register_pgw-Registered :
      (law : IsMap t) (s : Gw t) (h u : ℕ) (xs ys : List ℕ)
      → Sessions s h xs ys
      → ((k : Key) → t.find (s.ulp h).ue_pgw_session k ≢ some u)
      → Registered s h u (register_pgw s h u)
  unfolding register_pgw
  register_pgw-Registered law s h u xs ys l absent =
      enter_pgw-Registered law s h u xs ys l absent
        (t.find (s.ulp h).ue_pgw_session (imsi_key (s.ue u).imsi))
