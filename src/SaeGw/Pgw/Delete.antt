-- ===== src/SaeGw/Pgw/Delete.antt =====
-- nw-sae-gw/NwSaeGwUeStatePgwSessionCreated.c with NwSaeGwUlp.c: the end of a session in a PGW.
use linkerepc.Prelude.{
  ℕ, ◌≡◌, ◌≢◌, refl, sym, ap, ◌∙◌, subst, true, false, List, ◌∷◌, none, some, set-same, ◌⊎◌, inl,
  inr,
}
use linkerepc.Trees.{TreeOps, IsMap}
use linkerepc.Gtpv2c.Msg.{Msg, init}
use linkerepc.SaeGw.{Gw, Ue, Environment, set_state, state_end, request, triggered_rsp, pgw_s5, Ulp}
use linkerepc.SaeGw.Sessions.{deregister_pgw, destroy_ue_session, ue_delete}
use linkerepc.IpPool.{address}
use linkerepc.IpPool.Ledger.Freeing.{Present}
use linkerepc.SaeGw.Sessions.Leases.{Leased, Leased-alike, field-alike}
use linkerepc.SaeGw.Sessions.Registry.{Sessions}
use linkerepc.SaeGw.Sessions.Departure.{HasLeft, GivenBack, deregister_pgw-HasLeft}
use linkerepc.SaeGw.Sessions.Deletion.{destroy_ue_session-left, ue_delete-same}
use linkerepc.SaeGw.Bearers.{remove_uplink, remove_downlink}
use linkerepc.SaeGw.Bearers.Removal.{remove_uplink-Replaced, remove_downlink-Replaced}
use linkerepc.SaeGw.Send.{Error, only_cause, put_cause, send_delete_session_response_to_sgw}
use linkerepc.SaeGw.Pgw.{Indication, accepted, handle_pgw_s5_delete_session_request}

module _ {t : TreeOps} where
  response-sent :
      (s : Gw t) (env : Environment) (p tunnel h_trxn : ℕ) (e : Error) (m0 : Msg)
      → env.storage ≡ some m0
      → env.answer ≡ some tunnel
      → send_delete_session_response_to_sgw s env p h_trxn e
        ≡ some (
            request
              (triggered_rsp pgw_s5 h_trxn false p
                (put_cause env e (init m0 1 37 (s.ue p).s5s8c_sgw.teid_or_gre_key 0)))
              s)
  unfolding send_delete_session_response_to_sgw
  response-sent s env p tunnel h_trxn e m0 stored answer = simp (stored, answer)

  -- What is left of the session of `p`: its address has gone back, and the tree has nothing at its place.
  abbrev pub Over : Gw t → ℕ → ℕ → List ℕ → List ℕ → Gw t → Type 0
  Over s h p xs ys r =
      (xs2 : List ℕ) × (ys2 : List ℕ) × Sessions r h xs2 ys2
      × (t.find (r.ulp h).ue_pgw_session (s.ue p).pgw_node ≡ none)
      × GivenBack s h p xs r xs2 ys

  module _ (s r : Gw t) (h p : ℕ) (xs ys : List ℕ) where
    -- The last steps change nothing of it.
    Over-alike :
        (r2 : Gw t)
        → r2.ulp ≡ r.ulp
        → ((u : ℕ) → (r2.ue u).pgw_node ≡ (r.ue u).pgw_node)
        → ((u : ℕ) → (r2.ue u).is_pgw ≡ (r.ue u).is_pgw)
        → ((u : ℕ) → (r2.ue u).paa.ipv4_addr ≡ (r.ue u).paa.ipv4_addr)
        → Over s h p xs ys r
        → Over s h p xs ys r2
    Over-alike r2 e nodes flags addrs (xs2, ys2, l, gone, back) = (
      xs2,
      ys2,
      subst (λ (z : ℕ → Ulp t). Leased t (z h).pool (z h).ue_pgw_session r2.ue xs2 ys2) (sym e)
          (Leased-alike (r.ulp h).pool (r.ulp h).ue_pgw_session r.ue r2.ue xs2 ys2 nodes flags addrs
            l),
      subst (λ (z : ℕ → Ulp t). t.find (z h).ue_pgw_session (s.ue p).pgw_node ≡ none) (sym e) gone,
      given_back (sym e) back,
    )
      where
        given_back :
            {u v : ℕ → Ulp t} {zs : List ℕ}
            → u ≡ v
            → (((s.ue p).paa.ipv4_addr ≡ 0) × ((u h).pool ≡ (s.ulp h).pool))
              ⊎ ((y : ℕ) × Present y ys
                  × ((s.ue p).paa.ipv4_addr ≡ address (s.ulp h).pool y)
                  × (zs ≡ y ∷ xs))
            → (((s.ue p).paa.ipv4_addr ≡ 0) × ((v h).pool ≡ (s.ulp h).pool))
              ⊎ ((y : ℕ) × Present y ys
                  × ((s.ue p).paa.ipv4_addr ≡ address (s.ulp h).pool y)
                  × (zs ≡ y ∷ xs))
        given_back e2 (inl (z, k)) = inl (z, ap (λ (w : ℕ → Ulp t). (w h).pool) (sym e2) ∙ k)
        given_back e2 (inr k) = inr k

  module _ (env : Environment) (p tunnel : ℕ) (ind : Indication) (m0 : Msg) where
    -- The message that confirms the end of a session.
    abbrev confirmation : Gw t → Msg
    confirmation c =
        put_cause env (only_cause env 16) (init m0 1 37 (c.ue p).s5s8c_sgw.teid_or_gre_key 0)

    -- The gateway that has answered, in which the UE ends.
    abbrev answered : Gw t → Gw t
    answered c =
        set_state p state_end (request (triggered_rsp pgw_s5 ind.h_trxn false p (confirmation c)) c)

    handle-deleted :
        (s a b c : Gw t)
        → accepted ind ≡ true
        → remove_downlink s (s.ue p).h_pgw p 5 ≡ some a
        → remove_uplink a (s.ue p).h_pgw p 5 ≡ some b
        → deregister_pgw b (s.ue p).h_pgw p ≡ some c
        → env.storage ≡ some m0
        → env.answer ≡ some tunnel
        → handle_pgw_s5_delete_session_request s env p ind ≡ some (answered c)
    unfolding handle_pgw_s5_delete_session_request
    handle-deleted s a b c ok down up out stored answer = simp (
      ok,
      down,
      up,
      out,
      response-sent c env p tunnel ind.h_trxn (only_cause env 16) m0 stored answer,
    )

    purged :
        (s c : Gw t) (h : ℕ) (xs ys : List ℕ)
        → (c.ue p).is_pgw ≡ false
        → (c.ue p).is_sgw ≡ false
        → Over s h p xs ys c
        → (r2 : Gw t) × (destroy_ue_session (answered c) p ≡ some r2) × Over s h p xs ys r2
    purged s c h xs ys f g over =
        let r = answered c in
        let (e1, e2) = ue_delete-same r p in
        (
          ue_delete r p,
          destroy_ue_session-left r p (ap (λ (z : Ue). z.is_pgw) (set-same c.ue p _) ∙ f)
              (ap (λ (z : Ue). z.is_sgw) (set-same c.ue p _) ∙ g),
          Over-alike s c h p xs ys (ue_delete r p) e1
              (λ u.
                ap (λ (z : ℕ → Ue). (z u).pgw_node) e2
                ∙ field-alike (λ x. x.pgw_node) c.ue p _ u refl)
              (λ u.
                ap (λ (z : ℕ → Ue). (z u).is_pgw) e2 ∙ field-alike (λ x. x.is_pgw) c.ue p _ u refl)
              (λ u.
                ap (λ (z : ℕ → Ue). (z u).paa.ipv4_addr) e2
                ∙ field-alike (λ x. x.paa.ipv4_addr) c.ue p _ u refl)
              over,
        )

  -- In a PGW whose sessions are in order, a well-formed request to delete the session of a registered UE, which has
  -- none in an SGW, is carried out when the flows of its bearer 5 can be removed and a message and the stack are to
  -- be had. The request is answered with the cause that accepts it, the UE ends, and its session is then deleted
  -- without a second release: the sessions are in order, the tree has nothing at the place of the UE, and its address
  -- was 0 and the pool is the same, or it was lent and is the next that the pool tries.
  pub delete_session :
      (law : IsMap t) (s a b : Gw t) (env : Environment) (p tunnel : ℕ) (xs ys : List ℕ)
      (ind : Indication) (m0 : Msg)
      → Sessions s (s.ue p).h_pgw xs ys
      → t.find (s.ulp (s.ue p).h_pgw).ue_pgw_session (s.ue p).pgw_node ≡ some p
      → (s.ue p).h_pgw ≢ 0
      → (s.ue p).is_sgw ≡ false
      → accepted ind ≡ true
      → remove_downlink s (s.ue p).h_pgw p 5 ≡ some a
      → remove_uplink a (s.ue p).h_pgw p 5 ≡ some b
      → env.storage ≡ some m0
      → env.answer ≡ some tunnel
      → (r : Gw t) × (r2 : Gw t) × (m : Msg) × (handle_pgw_s5_delete_session_request s env p ind
          ≡ some r)
        × (r.sent
            ≡ triggered_rsp pgw_s5 ind.h_trxn false p (put_cause env (only_cause env 16) m)
              ∷ s.sent)
        × ((r.ue p).state ≡ state_end)
        × (destroy_ue_session r p ≡ some r2)
        × Over s (s.ue p).h_pgw p xs ys r2
  delete_session law s a b env p tunnel xs ys ind m0 l there local alone ok down up stored answer =
      let h = (s.ue p).h_pgw in
      let (d, ea) = remove_downlink-Replaced s a h p 5 down in
      let (d2, eb) = remove_uplink-Replaced a b h p 5 up in
      let same : b ≡ record s { sdp = d2 } = eb ∙ ap (λ (z : Gw t). record z { sdp = d2 }) ea in
      let (c, xs2, ys2, out, l2, gone, f, g, quiet, back) =
        subst (λ (z : Gw t). HasLeft s h p xs ys (deregister_pgw z h p)) (sym same)
          (deregister_pgw-HasLeft law (record s { sdp = d2 }) h p xs ys l there local) in
      let (r2, purge, over) =
        purged env p tunnel ind m0 s c h xs ys f (g ∙ alone) (xs2, ys2, l2, gone, back) in
      (
        answered env p tunnel ind m0 c,
        r2,
        init m0 1 37 (c.ue p).s5s8c_sgw.teid_or_gre_key 0,
        handle-deleted env p tunnel ind m0 s a b c ok down up out stored answer,
        ap (λ q. triggered_rsp pgw_s5 ind.h_trxn false p (confirmation env p tunnel ind m0 c) ∷ q)
            quiet,
        ap (λ (z : Ue). z.state) (set-same c.ue p _),
        purge,
        over,
      )
