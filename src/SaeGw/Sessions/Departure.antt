-- ===== src/SaeGw/Sessions/Departure.antt =====
-- nw-sae-gw/NwSaeGwUlp.c: a UE leaves a PGW, and gives its address back.
use linkerepc.Prelude.{
  ℕ, ◌≡◌, ◌≢◌, refl, sym, ap, ◌∙◌, subst, ◌⊎◌, inl, inr, false, List, ◌∷◌, Option, none, some, set,
  set-same, eqb-false,
}
use linkerepc.Trees.{TreeOps, IsMap}
use linkerepc.IpPool.{IpPool, free, address}
use linkerepc.IpPool.Ledger.{Ledger}
use linkerepc.IpPool.Ledger.Freeing.{Present, strike, free-Ledger}
use linkerepc.SaeGw.{Gw, Ue, Ulp, ◌>>=◌}
use linkerepc.SaeGw.Sessions.{deregister_pgw, left_pgw}
use linkerepc.SaeGw.Sessions.Leases.{Lease, Leased, Leased-leave, Lease-struck}
use linkerepc.SaeGw.Sessions.Registry.{Sessions}

free-none : (p : IpPool) → free p 0 ≡ some p
unfolding free
free-none p = refl

module _ {t : TreeOps} where
  -- The address was 0 and the pool is as it was, or the address was lent and is the next that the pool tries.
  abbrev pub GivenBack : Gw t → ℕ → ℕ → List ℕ → Gw t → List ℕ → List ℕ → Type 0
  GivenBack s h u xs r xs2 ys =
      (((s.ue u).paa.ipv4_addr ≡ 0) × ((r.ulp h).pool ≡ (s.ulp h).pool))
      ⊎ ((y : ℕ) × Present y ys
          × ((s.ue u).paa.ipv4_addr ≡ address (s.ulp h).pool y)
          × (xs2 ≡ y ∷ xs))

  abbrev pub HasLeft : Gw t → ℕ → ℕ → List ℕ → List ℕ → Option (Gw t) → Type 0
  HasLeft s h u xs ys o =
      (r : Gw t) × (xs2 : List ℕ) × (ys2 : List ℕ) × (o ≡ some r)
      × Sessions r h xs2 ys2
      × (t.find (r.ulp h).ue_pgw_session (s.ue u).pgw_node ≡ none)
      × ((r.ue u).is_pgw ≡ false)
      × ((r.ue u).is_sgw ≡ (s.ue u).is_sgw)
      × (r.sent ≡ s.sent)
      × GivenBack s h u xs r xs2 ys

  module _ (s : Gw t) (h u : ℕ) where
    abbrev pool : IpPool
    pool = (s.ulp h).pool

    deregister-freed :
        (q : IpPool)
        → h ≢ 0
        → free pool (s.ue u).paa.ipv4_addr ≡ some q
        → deregister_pgw s h u ≡ some (left_pgw s h u q)
    unfolding deregister_pgw
    deregister-freed q d e =
        rw (eqb-false h 0 d) (ap (λ (o : Option IpPool). o >>= λ q. some (left_pgw s h u q)) e)

    pool-left : (q : IpPool) → ((left_pgw s h u q).ulp h).pool ≡ q
    pool-left q = ap (λ (z : Ulp t). z.pool) (set-same s.ulp h _)

    module _ (law : IsMap t) (xs ys : List ℕ) (l : Sessions s h xs ys) where
      abbrev tree : t.Tree
      tree = (s.ulp h).ue_pgw_session

      gone-left :
          (q : IpPool) → t.find ((left_pgw s h u q).ulp h).ue_pgw_session (s.ue u).pgw_node ≡ none
      gone-left q =
          subst (λ (z : Ulp t). t.find z.ue_pgw_session (s.ue u).pgw_node ≡ none)
            (sym (set-same s.ulp h _)) (law.gone tree (s.ue u).pgw_node)

      module _ (there : t.find tree (s.ue u).pgw_node ≡ some u) (d : h ≢ 0) where
        left-Sessions :
            (q : IpPool) (xs2 ys2 : List ℕ)
            → Ledger q xs2 ys2
            → ((b : ℕ) → Lease pool ys b → (b ≡ (s.ue u).paa.ipv4_addr → b ≡ 0) → Lease q ys2 b)
            → Sessions (left_pgw s h u q) h xs2 ys2
        left-Sessions q xs2 ys2 good keep =
            let x = record (s.ue u) { is_pgw = false } in
            subst (λ (z : Ulp t). Leased t z.pool z.ue_pgw_session (set s.ue u x) xs2 ys2)
              (sym (set-same s.ulp h _))
              (Leased-leave law pool q tree s.ue xs ys l u x xs2 ys2 good (s.ue u).pgw_node there
                keep)

        freed-HasLeft :
            (q : IpPool) (xs2 ys2 : List ℕ)
            → free pool (s.ue u).paa.ipv4_addr ≡ some q
            → Ledger q xs2 ys2
            → ((b : ℕ) → Lease pool ys b → (b ≡ (s.ue u).paa.ipv4_addr → b ≡ 0) → Lease q ys2 b)
            → GivenBack s h u xs (left_pgw s h u q) xs2 ys
            → HasLeft s h u xs ys (deregister_pgw s h u)
        freed-HasLeft q xs2 ys2 e good keep back = (
          left_pgw s h u q,
          xs2,
          ys2,
          deregister-freed q d e,
          left-Sessions q xs2 ys2 good keep,
          gone-left q,
          ap (λ (x : Ue). x.is_pgw) (set-same s.ue u _),
          ap (λ (x : Ue). x.is_sgw) (set-same s.ue u _),
          refl,
          back,
        )

        owner-HasLeft :
            Lease pool ys (s.ue u).paa.ipv4_addr → HasLeft s h u xs ys (deregister_pgw s h u)
        owner-HasLeft (inl z) =
            freed-HasLeft pool xs ys (ap (free pool) z ∙ free-none pool) l.ledger (λ b k c. k)
              (inl (z, pool-left pool))
        owner-HasLeft (inr (y, m, e)) =
            let (q, freed, k, l2) = free-Ledger pool y xs ys l.ledger m in
            freed-HasLeft q (y ∷ xs) (strike y ys) (ap (free pool) e ∙ freed) l2
              (λ b c f. Lease-struck pool q ys k y b (λ g. f (g ∙ sym e)) c) (inr (y, m, e, refl))

  -- From a PGW whose sessions are in order, a UE that is in its tree leaves without an access outside of the table
  -- of the pool. Afterwards the sessions are in order, the tree has nothing at the place of the UE, the UE is
  -- no longer marked as registered there, and its address has gone back: it was 0 and the pool is the same, or it
  -- was lent and stands first on the free list. Nothing is sent.
  pub deregister_pgw-HasLeft :
      (law : IsMap t) (s : Gw t) (h u : ℕ) (xs ys : List ℕ)
      → Sessions s h xs ys
      → t.find (s.ulp h).ue_pgw_session (s.ue u).pgw_node ≡ some u
      → h ≢ 0
      → HasLeft s h u xs ys (deregister_pgw s h u)
  deregister_pgw-HasLeft law s h u xs ys l there d =
      owner-HasLeft s h u law xs ys l there d (l.lease (s.ue u).pgw_node u there)
