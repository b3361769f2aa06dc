-- ===== src/SaeGw/Pgw/Unparsed.antt =====
-- nw-sae-gw/NwSaeGwUeStateInit.c: a request for a session that the PGW cannot read.
use linkerepc.Prelude.{
  ℕ, ◌≡◌, ◌≢◌, ◌<◌, refl, ap, ◌∙◌, true, ◌∷◌, Option, some, arith, set-same, ◌==◌, if◌then◌else◌,
  ltb,
}
use linkerepc.Trees.{TreeOps}
use linkerepc.Gtpv2c.Msg.{Msg, init}
use linkerepc.SaeGw.{
  Gw, Ue, Environment, ◌>>=◌, set_ue, set_state, state_end, request, triggered_rsp, pgw_s5,
}
use linkerepc.SaeGw.Parse.{
  IeRc, ie_ok, ie_missing, ie_incorrect, ie_failure, ie_aborts, Reading,
  pgw_parse_create_session_request,
}
use linkerepc.SaeGw.Send.{
  Error, put_cause, accepted_by_pgw, with_pgw_tunnel, send_create_session_response_to_sgw,
}
use linkerepc.SaeGw.Pgw.{
  Indication, accepted, reading, ended, pgw_parsed, pgw_unparsed,
  handle_pgw_s5_create_session_request,
}

-- The answer to an accepted request, for a UE and a bearer: the message in the storage `m0` with its IEs.
abbrev pub acceptance : Environment → Ue → ℕ → Error → ℕ → Msg → Option Msg
acceptance env x p e ebi m0 =
    accepted_by_pgw env x p e ebi (x.eps_bearer ebi)
      (put_cause env e (init m0 1 33 x.s5s8c_sgw.teid_or_gre_key 0))

module _ {t : TreeOps} where
  -- The gateway after an answer with a tunnel `h` about the UE `p`, which ends.
  abbrev pub given_up : Gw t → ℕ → Ue → ℕ → ℕ → Msg → Gw t
  given_up s p x h_trxn h m =
      set_state p state_end
        (with_pgw_tunnel p (h, request (triggered_rsp pgw_s5 h_trxn true p m) (set_ue p x s)))

  module _ (env : Environment) (p h : ℕ) (m0 m : Msg) (stored : env.storage ≡ some m0)
      (answer : env.answer ≡ some h) where
    response-accepted :
        (s : Gw t) (h_trxn : ℕ) (e : Error) (ebi : ℕ)
        → e.cause ≡ 16
        → ebi < 16
        → acceptance env (s.ue p) p e ebi m0 ≡ some m
        → send_create_session_response_to_sgw s env p h_trxn e ebi
          ≡ some (with_pgw_tunnel p (h, request (triggered_rsp pgw_s5 h_trxn true p m) s))
    unfolding send_create_session_response_to_sgw
    response-accepted s h_trxn e ebi c i k =
        let code : (e.cause == 16) ≡ true = ground arith in
        let inside : ltb ebi 16 ≡ true = ground arith in simp (stored, answer, code, inside, k)

    module _ (s : Gw t) (ind : Indication) (x : Reading) where
      abbrev s2 : Gw t
      s2 = set_ue p x.ue s

      module _ (c : ind.error.cause ≡ 16) (i : x.eps_bearer.ebi < 16)
          (k : acceptance env x.ue p ind.error x.eps_bearer.ebi m0 ≡ some m) where
        pgw_unparsed_accepted :
            pgw_unparsed s2 env p ind x.eps_bearer ≡ some (given_up s p x.ue ind.h_trxn h m)
        pgw_unparsed_accepted =
            let own = set-same s.ue p x.ue in
            let k2 = ap (λ (z : Ue). acceptance env z p ind.error x.eps_bearer.ebi m0) own ∙ k in
            ap (λ o. o >>= ended p)
              (response-accepted s2 ind.h_trxn ind.error x.eps_bearer.ebi c i k2)

        pgw_parsed_accepted :
            (rc : IeRc)
            → rc ≢ ie_ok
            → rc ≢ ie_aborts
            → pgw_parsed s env p ind (rc, x) ≡ some (given_up s p x.ue ind.h_trxn h m)
        pgw_parsed_accepted ie_ok n n2 = absurd (n refl)
        pgw_parsed_accepted ie_missing n n2 = pgw_unparsed_accepted
        pgw_parsed_accepted ie_incorrect n n2 = pgw_unparsed_accepted
        pgw_parsed_accepted ie_failure n n2 = pgw_unparsed_accepted
        pgw_parsed_accepted ie_aborts n n2 = absurd (n2 refl)

  -- A request for a session that the stack passes on as well-formed and that the PGW cannot read, since an IE is
  -- missing or incorrect, is answered like one that is granted, by the message `m` and with a local tunnel, while
  -- no session, address or flow is made and the UE ends. (This is when the bearer that it read is inside of
  -- `epsBearer` and a message and a tunnel are to be had.)
  pub create_session_request_unreadable :
      (env : Environment) (p h : ℕ) (m0 m : Msg) (s : Gw t) (ind : Indication) (rc : IeRc)
      (x : Reading)
      → ind.error.cause ≡ 16
      → pgw_parse_create_session_request ind.msg (reading s env p) ≡ (rc, x)
      → rc ≢ ie_ok
      → rc ≢ ie_aborts
      → x.eps_bearer.ebi < 16
      → env.storage ≡ some m0
      → env.answer ≡ some h
      → acceptance env x.ue p ind.error x.eps_bearer.ebi m0 ≡ some m
      → (r : Gw t) × (handle_pgw_s5_create_session_request s env p ind ≡ some r)
        × (r.sent ≡ triggered_rsp pgw_s5 ind.h_trxn true p m ∷ s.sent)
        × ((r.ue p).state ≡ state_end)
        × (r.ulp ≡ s.ulp)
        × (r.sdp ≡ s.sdp)
  unfolding handle_pgw_s5_create_session_request
  create_session_request_unreadable env p h m0 m s ind rc x c e n n2 i stored answer k =
      let code : accepted ind ≡ true = ground arith in
      (
        given_up s p x.ue ind.h_trxn h m,
        ap
              (λ b.
                if b
                then pgw_parsed s env p ind
                    (pgw_parse_create_session_request ind.msg (reading s env p))
                else pgw_unparsed s env p ind env.unset_bearer)
              code
            ∙ ap (pgw_parsed s env p ind) e
            ∙ pgw_parsed_accepted env p h m0 m stored answer s ind x c i k rc n n2,
        refl,
        ap (λ (z : Ue). z.state) (set-same (with_pgw_tunnel p (h, set_ue p x.ue s)).ue p _),
        refl,
        refl,
      )
