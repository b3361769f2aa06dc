-- ===== src/SaeGw/Pgw.antt =====
-- nw-sae-gw/NwSaeGwUeStateInit.c and NwSaeGwUeStatePgwSessionCreated.c: the UE in a PGW.
pub mod Unparsed
pub mod Delete
use linkerepc.Prelude.{
  ℕ, Bool, true, false, Option, none, some, ◌==◌, if◌then◌else◌, ltb, not, ◌&&◌,
}
use linkerepc.Trees.{TreeOps}
use linkerepc.Gtpv2c.Msg.{Msg}
use linkerepc.SaeGw.{
  Gw, Ue, EpsBearer, Environment, ◌>>=◌, set_ue, set_state, set_bearer, state_end,
  pgw_session_created,
}
use linkerepc.SaeGw.Sessions.{register_pgw, deregister_pgw}
use linkerepc.SaeGw.Bearers.{install_uplink, install_downlink, remove_uplink, remove_downlink}
use linkerepc.SaeGw.Parse.{
  IeRc, ie_ok, ie_missing, ie_incorrect, ie_failure, ie_aborts, Reading, read_imsi,
  pgw_parse_create_session_request,
}
use linkerepc.SaeGw.Send.{
  Error, only_cause, bearer_at, send_create_session_response_to_sgw,
  send_delete_session_response_to_sgw,
}

-- `initialReqIndInfo` with the message.
pub record Indication : Type 0 where
  pub error : Error
  pub h_trxn : ℕ
  pub msg : Msg

abbrev pub accepted : Indication → Bool
accepted ind = ind.error.cause == 16

module _ {t : TreeOps} where
  abbrev pub reading : Gw t → Environment → ℕ → Reading
  reading s env p = record {
    ue = s.ue p;
    eps_bearer = env.unset_bearer;
    indication = none;
    offending = env.unset_offending;
  }

  abbrev pub ended : ℕ → Gw t → Option (Gw t)
  ended p s = some (set_state p state_end s)

  -- `nwSaeGwUeHandlePgwS5CreateSessionRequest`. The bearer that is asked for is made with its flows; a
  -- request that could not be parsed is answered with the error of the indication.
  abbrev pub pgw_bearer : ℕ → EpsBearer → Gw t → Gw t
  pgw_bearer p x s =
      set_bearer p x.ebi
        (record ((s.ue p).eps_bearer x.ebi) { is_valid = true; s5s8u_sgw = x.s5s8u_sgw }) s

  abbrev pub pgw_install : Gw t → Environment → ℕ → EpsBearer → Option (Gw t)
  pgw_install s env p x = install_uplink (pgw_bearer p x s) env (s.ue p).h_pgw p x.ebi >>= λ r.
      install_downlink r env p x.ebi

  abbrev pub pgw_answer : Gw t → Environment → ℕ → Indication → EpsBearer → ℕ → Option (Gw t)
  pgw_answer s env p ind x cause =
      send_create_session_response_to_sgw s env p ind.h_trxn (only_cause env cause) x.ebi

  abbrev pub pgw_admit : Environment → ℕ → Indication → EpsBearer → Bool × Gw t → Option (Gw t)
  pgw_admit env p ind x (false, s) = pgw_answer (set_state p state_end s) env p ind x 94
  pgw_admit env p ind x (true, s) =
      let installed = pgw_install s env p x >>= λ r.
      pgw_answer (set_state p pgw_session_created r) env p ind x 16 in
      let refused = pgw_answer (set_state p state_end s) env p ind x 94 in
      let new_bearer =
        bearer_at (s.ue p) x.ebi >>= λ b. if b.is_valid then refused else installed in
      if ltb 4 x.ebi then new_bearer else refused

  abbrev pub pgw_unparsed : Gw t → Environment → ℕ → Indication → EpsBearer → Option (Gw t)
  pgw_unparsed s env p ind x =
      send_create_session_response_to_sgw s env p ind.h_trxn ind.error x.ebi >>= ended p

  abbrev pub pgw_parsed : Gw t → Environment → ℕ → Indication → IeRc × Reading → Option (Gw t)
  pgw_parsed s env p ind (ie_ok, x) =
      let r = set_ue p x.ue s in register_pgw r x.ue.h_pgw p >>= pgw_admit env p ind x.eps_bearer
  pgw_parsed s env p ind (ie_missing, x) = pgw_unparsed (set_ue p x.ue s) env p ind x.eps_bearer
  pgw_parsed s env p ind (ie_incorrect, x) = pgw_unparsed (set_ue p x.ue s) env p ind x.eps_bearer
  pgw_parsed s env p ind (ie_failure, x) = pgw_unparsed (set_ue p x.ue s) env p ind x.eps_bearer
  pgw_parsed s env p ind (ie_aborts, x) = none

  unfoldable pub handle_pgw_s5_create_session_request :
      Gw t → Environment → ℕ → Indication → Option (Gw t)
  handle_pgw_s5_create_session_request s env p ind =
      if accepted ind
      then pgw_parsed s env p ind (pgw_parse_create_session_request ind.msg (reading s env p))
      else pgw_unparsed s env p ind env.unset_bearer

  -- `nwSaeGwUeHandlePgwS5DeleteSessionRequest`: the flows of the bearer 5 are removed. The IMSI of a request
  -- with an error replaces that of the UE.
  abbrev pub with_imsi : Gw t → Environment → ℕ → Msg → Gw t
  with_imsi s env p m = set_ue p (read_imsi m (reading s env p)).1.ue s

  unfoldable pub handle_pgw_s5_delete_session_request :
      Gw t → Environment → ℕ → Indication → Option (Gw t)
  handle_pgw_s5_delete_session_request s env p ind =
      let h = (s.ue p).h_pgw in
      let deleted = remove_downlink s h p 5 >>= λ a. remove_uplink a h p 5 >>= λ b.
      deregister_pgw b h p >>= λ c.
      send_delete_session_response_to_sgw c env p ind.h_trxn (only_cause env 16) >>= ended p in
      if accepted ind
      then deleted
      else send_delete_session_response_to_sgw (with_imsi s env p ind.msg) env p ind.h_trxn
          ind.error
        >>= ended p
