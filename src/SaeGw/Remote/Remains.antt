-- ===== src/SaeGw/Remote/Remains.antt =====
-- nw-sae-gw/NwSaeGwUeStateSgwSessionEstablished.c: the end of a session in an SGW whose PGW is remote.
use linkerepc.Prelude.{
  ℕ, ◌≡◌, ◌≢◌, refl, sym, ap, ◌∙◌, subst, true, false, ◌∷◌, none, some, set-same, eqb-true,
}
use linkerepc.Trees.{TreeOps, IsMap}
use linkerepc.Gtpv2c.Msg.{Msg, init}
use linkerepc.Gtpv2c.Msg.Decode.{missing, get_ie_tv2}
use linkerepc.SaeGw.{
  Gw, Ue, Ulp, Environment, bind-some, set_state, request, triggered_rsp, sgw_s11,
  pgw_session_created,
}
use linkerepc.SaeGw.Sessions.{left_sgw}
use linkerepc.SaeGw.Sessions.Deletion.{deregister_sgw-left}
use linkerepc.SaeGw.Bearers.{remove_uplink, remove_downlink}
use linkerepc.SaeGw.Bearers.Removal.{Replaced, remove_uplink-Replaced, remove_downlink-Replaced}
use linkerepc.SaeGw.Send.{Error, only_cause, put_cause, send_delete_session_response_to_mme}
use linkerepc.SaeGw.Pgw.{Indication, accepted}
use linkerepc.SaeGw.Remote.{flows_removed, left_alone, next_state, handle_delete_of_established}

module _ {t : TreeOps} where
  response-sent :
      (s : Gw t) (env : Environment) (p tunnel h_trxn : ℕ) (e : Error) (m0 : Msg)
      → env.storage ≡ some m0
      → env.answer ≡ some tunnel
      → send_delete_session_response_to_mme s env p h_trxn e
        ≡ some (
            request
              (triggered_rsp sgw_s11 h_trxn false p
                (put_cause env e (init m0 1 37 (s.ue p).s11c_mme.teid_or_gre_key 0)))
              s)
  unfolding send_delete_session_response_to_mme
  response-sent s env p tunnel h_trxn e m0 stored answer = simp (stored, answer)

  module _ (b : Gw t) (env : Environment) (p tunnel : ℕ) (ind : Indication) (m0 : Msg) where
    abbrev gone : Gw t
    gone = left_sgw b (b.ue p).h_sgw p

    abbrev confirmation : Msg
    confirmation =
        put_cause env (only_cause env 16) (init m0 1 37 (gone.ue p).s11c_mme.teid_or_gre_key 0)

    abbrev answered : Gw t
    answered = request (triggered_rsp sgw_s11 ind.h_trxn false p confirmation) gone

    next_state-gone : next_state (answered.ue p) ≡ pgw_session_created
    next_state-gone = rw (eqb-true p p refl) refl

    left_alone-answered :
        (b.ue p).h_sgw ≢ 0
        → env.storage ≡ some m0
        → env.answer ≡ some tunnel
        → left_alone b env p ind ≡ some (set_state p (next_state (answered.ue p)) answered)
    left_alone-answered d stored answer = simp (
      deregister_sgw-left b (b.ue p).h_sgw p d,
      response-sent gone env p tunnel ind.h_trxn (only_cause env 16) m0 stored answer,
    )

  flows_removed-Replaced : (s b : Gw t) (p : ℕ) → flows_removed s p ≡ some b → Replaced s b
  flows_removed-Replaced s b p e =
      let h = (s.ue p).h_sgw in
      let (a, e1, e2) =
        bind-some (remove_downlink s h p 5) (λ (z : Gw t). remove_uplink z h p 5) b e in
      let (d, ea) = remove_downlink-Replaced s a h p 5 e1 in
      let (d2, eb) = remove_uplink-Replaced a b h p 5 e2 in
      (d2, eb ∙ ap (λ (z : Gw t). record z { sdp = d2 }) ea)

  handle-answered :
      (s b : Gw t) (env : Environment) (p tunnel : ℕ) (ind : Indication) (m0 : Msg)
      → accepted ind ≡ true
      → get_ie_tv2 ind.msg 77 0 ≡ missing
      → flows_removed s p ≡ some b
      → (b.ue p).h_sgw ≢ 0
      → env.storage ≡ some m0
      → env.answer ≡ some tunnel
      → handle_delete_of_established s env p ind
        ≡ some (
            set_state p
              (next_state ((answered b env p tunnel ind m0).ue p))
              (answered b env p tunnel ind m0))
  unfolding handle_delete_of_established
  handle-answered s b env p tunnel ind m0 ok flag removed d stored answer =
      simp (ok, flag, removed, left_alone-answered b env p tunnel ind m0 d stored answer)

  -- A well-formed request of the MME to delete an established session, without an indication, is accepted: when the
  -- flows of the bearer 5 can be removed and a message and the stack are to be had, the request is answered and the
  -- session leaves the tree of the SGW. But the UE does not end: its state becomes that of a session created in a
  -- PGW, which is asked of the type of the session after the SGW has taken its mark away.
  pub session_remains :
      (law : IsMap t) (s b : Gw t) (env : Environment) (p tunnel : ℕ) (ind : Indication) (m0 : Msg)
      → accepted ind ≡ true
      → get_ie_tv2 ind.msg 77 0 ≡ missing
      → flows_removed s p ≡ some b
      → (s.ue p).h_sgw ≢ 0
      → env.storage ≡ some m0
      → env.answer ≡ some tunnel
      → (r : Gw t) × (m : Msg) × (handle_delete_of_established s env p ind ≡ some r)
        × (r.sent
            ≡ triggered_rsp sgw_s11 ind.h_trxn false p (put_cause env (only_cause env 16) m)
              ∷ s.sent)
        × (t.find (r.ulp (s.ue p).h_sgw).ue_sgw_session (s.ue p).sgw_node ≡ none)
        × ((r.ue p).state ≡ pgw_session_created)
  session_remains law s b env p tunnel ind m0 ok flag removed d stored answer =
      let (plane, e) = flows_removed-Replaced s b p removed in
      let b2 : Gw t = record s { sdp = plane } in
      let c = answered b2 env p tunnel ind m0 in
      (
        set_state p (next_state (c.ue p)) c,
        init m0 1 37 ((gone b2 env p tunnel ind m0).ue p).s11c_mme.teid_or_gre_key 0,
        handle-answered s b2 env p tunnel ind m0 ok flag (removed ∙ ap some e) d stored answer,
        refl,
        subst (λ (z : Ulp t). t.find z.ue_sgw_session (s.ue p).sgw_node ≡ none)
            (sym (set-same s.ulp (s.ue p).h_sgw _))
            (law.gone (s.ulp (s.ue p).h_sgw).ue_sgw_session (s.ue p).sgw_node),
        ap (λ (z : Ue). z.state) (set-same c.ue p _) ∙ next_state-gone b2 env p tunnel ind m0,
      )
