-- ===== src/SaeGw/Sae/Exhausted.antt =====
-- nw-sae-gw/NwSaeGwUeStateInit.c with NwSaeGwUlp.c: a collocated PGW without a free address.
use linkerepc.Prelude.{
  ℕ, ◌≡◌, ◌≢◌, refl, sym, ap, ◌∙◌, true, false, ◌∷◌, none, some, set-same, ◌==◌, eqb-false,
  eqb-true,
}
use linkerepc.Trees.{TreeOps}
use linkerepc.Gtpv2c.Msg.{Msg, init}
use linkerepc.IpPool.{IpPool, alloc, exhausted}
use linkerepc.SaeGw.{
  Gw, Ue, EpsBearer, Environment, ◌>>=◌, imsi_key, set_ue, set_state, set_ulp, state_end, request,
  triggered_rsp, sgw_s11,
}
use linkerepc.SaeGw.Sessions.{
  register_pgw, enter_pgw, with_address, registered_pgw, of_pgw, left_sgw, deregister_pgw,
  destroy_ue_session,
}
use linkerepc.SaeGw.Sessions.Deletion.{deregister_sgw-left}
use linkerepc.SaeGw.Parse.{Reading}
use linkerepc.SaeGw.Send.{Error, only_cause, put_cause, send_create_session_response_to_mme}
use linkerepc.SaeGw.Pgw.{Indication}
use linkerepc.SaeGw.Sae.{relocated, sgw_registered, sae_admit, sgw_refuse}

module _ {t : TreeOps} where
  -- The gateway in which the UE is in the tree of the PGW with no address, and has left the SGW again.
  abbrev pub without_address : Gw t → ℕ → ℕ → IpPool → Gw t
  without_address s h p q =
      set_ue p (of_pgw s h (s.ue p) 0) (set_ulp h (record (registered_pgw s h p) { pool = q }) s)

  abbrev pub refused_again : Gw t → ℕ → Gw t
  refused_again s p = set_state p state_end (left_sgw s (s.ue p).h_sgw p)

  module _ (s : Gw t) (env : Environment) (p h : ℕ) where
    register_pgw-exhausted :
        (q : IpPool)
        → t.find (s.ulp h).ue_pgw_session (imsi_key (s.ue p).imsi) ≡ none
        → alloc (s.ulp h).pool ≡ exhausted q
        → register_pgw s h p ≡ some (false, without_address s h p q)
    unfolding register_pgw
    register_pgw-exhausted q f a = ap (enter_pgw s h p) f ∙ ap (with_address s h p) a

  deregister_pgw-null : (s : Gw t) (h p : ℕ) → h ≡ 0 → deregister_pgw s h p ≡ none
  unfolding deregister_pgw
  deregister_pgw-null s h p z = simp z

  destroy_ue_session-null :
      (s : Gw t) (p : ℕ)
      → (s.ue p).is_pgw ≡ true
      → (s.ue p).h_pgw ≡ 0
      → destroy_ue_session s p ≡ none
  unfolding destroy_ue_session
  destroy_ue_session-null s p f z = simp (f, deregister_pgw-null s (s.ue p).h_pgw p z)

  response-refused :
      (s : Gw t) (env : Environment) (p tunnel h_trxn : ℕ) (e : Error) (ebi : ℕ) (m0 : Msg)
      → env.storage ≡ some m0
      → env.answer ≡ some tunnel
      → (e.cause == 16) ≡ false
      → send_create_session_response_to_mme s env p h_trxn e ebi
        ≡ some (
            request
              (triggered_rsp sgw_s11 h_trxn false p
                (put_cause env e (init m0 1 33 (s.ue p).s11c_mme.teid_or_gre_key 0)))
              s)
  unfolding send_create_session_response_to_mme
  response-refused s env p tunnel h_trxn e ebi m0 stored answer c = simp (stored, answer, c)

  module _ (s : Gw t) (p h : ℕ) (q : IpPool) where
    abbrev r : Gw t
    r = refused_again (without_address s h p q) p

    refused_ue : (r.ue p).is_pgw ≡ true
    refused_ue = rw (eqb-true p p refl) refl

    refused_pgw : (r.ue p).h_pgw ≡ (s.ue p).h_pgw
    refused_pgw = rw (eqb-true p p refl) refl

    refused_state : (r.ue p).state ≡ state_end
    refused_state = rw (eqb-true p p refl) refl

  module _ (s : Gw t) (env : Environment) (p h tunnel : ℕ) (q : IpPool) (ind : Indication)
      (m0 : Msg) where
    -- The answer that refuses the UE.
    abbrev refusal : Msg
    refusal =
        put_cause env (only_cause env 94) (
          init m0 1 33 ((refused_again (without_address s h p q) p).ue p).s11c_mme.teid_or_gre_key
            0)

    module _ (stored : env.storage ≡ some m0) (answer : env.answer ≡ some tunnel)
        (known : (s.ue p).h_sgw ≢ 0) where
      admit-refused :
          (x : EpsBearer)
          → sae_admit env p ind x h (false, without_address s h p q)
            ≡ some (
                request
                  (triggered_rsp sgw_s11 ind.h_trxn false p refusal)
                  (refused_again (without_address s h p q) p))
      admit-refused x =
          let s2 = without_address s h p q in
          let own : (s2.ue p).h_sgw ≡ (s.ue p).h_sgw =
            ap (λ (z : Ue). z.h_sgw) (set-same s.ue p _) in
          ap (λ o. o >>= λ r. sgw_refuse r env p ind x)
            (deregister_sgw-left s2 (s2.ue p).h_sgw p (λ e. known (sym own ∙ e)))
          ∙ response-refused (refused_again s2 p) env p tunnel ind.h_trxn (only_cause env 94) x.ebi
              m0 stored answer refl

      registered-refused :
          (x : Reading)
          → h ≢ 0
          → relocated x.indication ≡ false
          → register_pgw s h p ≡ some (false, without_address s h p q)
          → sgw_registered env p ind x (true, h, s)
            ≡ some (
                request
                  (triggered_rsp sgw_s11 ind.h_trxn false p refusal)
                  (refused_again (without_address s h p q) p))
      registered-refused x local here e =
          simp (here, eqb-false h 0 local, e) (admit-refused x.eps_bearer)

  -- A UE that has got into the SGW, for which a PGW of the same gateway is found, is refused when this PGW, which
  -- does not know the IMSI, has no address left: the answer says so and the UE ends. But the UE, which is marked as
  -- registered in the PGW, has no pointer to it: deleting its session, the next step, goes through NULL.
  pub sgw_registered_exhausted :
      (s : Gw t) (env : Environment) (p h tunnel : ℕ) (q : IpPool) (ind : Indication) (m0 : Msg)
      (x : Reading)
      → t.find (s.ulp h).ue_pgw_session (imsi_key (s.ue p).imsi) ≡ none
      → alloc (s.ulp h).pool ≡ exhausted q
      → h ≢ 0
      → (s.ue p).h_sgw ≢ 0
      → (s.ue p).h_pgw ≡ 0
      → relocated x.indication ≡ false
      → env.storage ≡ some m0
      → env.answer ≡ some tunnel
      → (r : Gw t) × (m : Msg) × (sgw_registered env p ind x (true, h, s) ≡ some r)
        × (r.sent
            ≡ triggered_rsp sgw_s11 ind.h_trxn false p (put_cause env (only_cause env 94) m)
              ∷ s.sent)
        × ((r.ue p).state ≡ state_end)
        × (destroy_ue_session r p ≡ none)
  sgw_registered_exhausted s env p h tunnel q ind m0 x new_imsi full local known unset here stored
        answer =
      let s2 = refused_again (without_address s h p q) p in
      let r =
        request (triggered_rsp sgw_s11 ind.h_trxn false p (refusal s env p h tunnel q ind m0)) s2 in
      (
        r,
        init m0 1 33 (s2.ue p).s11c_mme.teid_or_gre_key 0,
        registered-refused s env p h tunnel q ind m0 stored answer known x local here
            (register_pgw-exhausted s env p h q new_imsi full),
        refl,
        refused_state s p h q,
        destroy_ue_session-null r p (refused_ue s p h q) (refused_pgw s p h q ∙ unset),
      )
