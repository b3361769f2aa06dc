-- ===== src/SaeGw/Remote/Responses.antt =====
-- nw-sae-gw/NwSaeGwUeStateAwaitPgwCreateSessionRsp.c: a remote PGW refuses a session.
use linkerepc.Prelude.{
  ℕ, ◌≡◌, ◌≢◌, ◌<◌, refl, ap, ◌∙◌, true, ◌∷◌, Option, some, arith, set-same, ltb, eqb-false,
}
use linkerepc.Trees.{TreeOps}
use linkerepc.Gtpv2c.Msg.{Msg, init, set_teid}
use linkerepc.Gtpv2c.Msg.Decode.{found, get_ie_cause}
use linkerepc.SaeGw.{
  Gw, Ue, EpsBearer, Environment, set_ue, set_state, request, triggered_rsp, sgw_s11,
  sgw_session_created,
}
use linkerepc.SaeGw.Bearers.{install_uplink}
use linkerepc.SaeGw.Parse.{ie_ok, Reading}
use linkerepc.SaeGw.Send.{put_cause, with_s11_tunnel}
use linkerepc.SaeGw.Pgw.{Indication, accepted, reading}
use linkerepc.SaeGw.Remote.{
  decode_created_bearer_context, parse_create_session_response, with_cause, response_read,
  response_parsed, with_pgw, tell_mme, created_by_pgw, handle_pgw_create_session_response,
}

-- The answer to the MME that a session is accepted.
abbrev pub acceptance : Environment → Ue → ℕ → Msg → Option Msg
acceptance env x p m0 = created_by_pgw env x p 16 (
    put_cause env (record { cause = 16; offending_type = 0; offending_instance = 0 })
      (init m0 1 33 0 0))

parse-refused :
    (m : Msg) (r : Reading) (cause flags : ℕ) (offending : Option ℕ) (x : EpsBearer)
    → get_ie_cause m 0 ≡ found (cause, flags, offending)
    → cause ≢ 16
    → decode_created_bearer_context m r.eps_bearer ≡ (ie_ok, x)
    → parse_create_session_response m r ≡ (ie_ok, record r { eps_bearer = x })
unfolding parse_create_session_response
parse-refused m r cause flags offending x e d k =
    ap (with_cause m r) e ∙ ap (response_read m cause r) k ∙ simp (eqb-false cause 16 d)

module _ {t : TreeOps} where
  -- The gateway after the answer `m` to the MME, with a tunnel.
  abbrev pub told : Gw t → ℕ → ℕ → ℕ → Msg → Gw t
  told s p h_trxn h m = set_state p sgw_session_created (
      with_s11_tunnel p (
        h,
        request (triggered_rsp sgw_s11 h_trxn true p (set_teid m (s.ue p).s11c_mme.teid_or_gre_key))
            s,
      ))

  module _ (env : Environment) (p h : ℕ) (m0 m : Msg) (stored : env.storage ≡ some m0)
      (answer : env.answer ≡ some h) where
    tell_mme-accepted :
        (s : Gw t) (h_trxn : ℕ)
        → acceptance env (s.ue p) p m0 ≡ some m
        → tell_mme s env p h_trxn 16 ≡ some (told s p h_trxn h m)
    unfolding tell_mme
    tell_mme-accepted s h_trxn k = simp (stored, answer, k)

    module _ (s b : Gw t) (ind : Indication) (x : EpsBearer) where
      response_parsed-told :
          x.ebi < 16
          → install_uplink (with_pgw (set_ue p (s.ue p) s) p x) env (s.ue p).h_sgw p x.ebi ≡ some b
          → acceptance env (b.ue p) p m0 ≡ some m
          → response_parsed s env p ind (ie_ok, record (reading s env p) { eps_bearer = x })
            ≡ some (told b p ind.h_trxn h m)
      response_parsed-told i up k =
          let inside : ltb x.ebi 16 ≡ true = ground arith in
          simp (inside, up, tell_mme-accepted b ind.h_trxn k)

  -- A response of the PGW that refuses the session with a cause of its own, and that has a bearer context with an
  -- EBI below 16, is told to the MME as an acceptance: the flow of the bearer is made, the answer `m` is that of an
  -- accepted session, with a local tunnel, and the UE goes on as one whose session is created. (This is when the flow
  -- can be made and a message and a tunnel are to be had.)
  pub refusal_told_as_acceptance :
      (env : Environment) (p h : ℕ) (m0 m : Msg) (s b : Gw t) (ind : Indication) (cause flags : ℕ)
      (offending : Option ℕ) (x : EpsBearer)
      → ind.error.cause ≡ 16
      → get_ie_cause ind.msg 0 ≡ found (cause, flags, offending)
      → cause ≢ 16
      → decode_created_bearer_context ind.msg env.unset_bearer ≡ (ie_ok, x)
      → x.ebi < 16
      → install_uplink (with_pgw (set_ue p (s.ue p) s) p x) env (s.ue p).h_sgw p x.ebi ≡ some b
      → env.storage ≡ some m0
      → env.answer ≡ some h
      → acceptance env (b.ue p) p m0 ≡ some m
      → (r : Gw t) × (handle_pgw_create_session_response s env p ind ≡ some r)
        × (r.sent
            ≡ triggered_rsp sgw_s11 ind.h_trxn true p (set_teid m (b.ue p).s11c_mme.teid_or_gre_key)
              ∷ b.sent)
        × ((r.ue p).state ≡ sgw_session_created)
        × (r.sdp ≡ b.sdp)
  unfolding handle_pgw_create_session_response
  refusal_told_as_acceptance env p h m0 m s b ind cause flags offending x c e d k i up stored answer
        full =
      let code : accepted ind ≡ true = ground arith in
      let parsed = parse-refused ind.msg (reading s env p) cause flags offending x e d k in
      (
        told b p ind.h_trxn h m,
        simp (code, parsed, response_parsed-told env p h m0 m stored answer s b ind x i up full),
        refl,
        ap (λ (z : Ue). z.state) (set-same (with_s11_tunnel p (h, b)).ue p _),
        refl,
      )
