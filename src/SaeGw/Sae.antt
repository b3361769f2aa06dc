-- ===== src/SaeGw/Sae.antt =====
-- nw-sae-gw/NwSaeGwUeStateInit.c, NwSaeGwUeStateSaeSessionCreated.c and NwSaeGwUeStateSaeSessionEstablished.c: the
-- UE in an SGW, and in a gateway that is its SGW and its PGW. `none` is a failed assertion or an access outside of
-- `epsBearer`.
pub mod Exhausted
use linkerepc.Prelude.{
  ℕ, ◌/◌, ◌%◌, Bool, true, false, Option, none, some, ◌==◌, if◌then◌else◌, ltb, not, ◌&&◌,
}
use linkerepc.Trees.{TreeOps}
use linkerepc.SaeGw.{
  Gw, Ue, Bearer, EpsBearer, Environment, ◌>>=◌, set_ue, set_state, set_bearer, state_end,
  sae_session_created, sae_session_established, sgw_session_established,
}
use linkerepc.SaeGw.Sessions.{register_sgw, register_pgw, deregister_sgw, deregister_pgw}
use linkerepc.SaeGw.Bearers.{
  allocate_keys, install_uplink, install_downlink, modify_downlink, remove_uplink, remove_downlink,
}
use linkerepc.SaeGw.Parse.{
  IeRc, ie_ok, ie_missing, ie_incorrect, ie_failure, ie_aborts, Reading,
  sgw_parse_create_session_request, parse_modify_bearer_request,
}
use linkerepc.SaeGw.Send.{
  Error, only_cause, bearer_at, send_create_session_response_to_mme,
  send_create_session_request_to_pgw, send_modify_bearer_request_to_pgw,
  send_modify_bearer_response_to_mme, send_delete_session_response_to_mme,
}
use linkerepc.SaeGw.Pgw.{Indication, accepted, reading, ended, with_imsi}

-- The cause for a result of parsing.
abbrev pub cause_of : IeRc → ℕ
cause_of ie_missing = 103
cause_of ie_incorrect = 69
cause_of ie_ok = 0
cause_of ie_failure = 0
cause_of ie_aborts = 0

-- The flag NW_GTPV2C_INDICATION_FLAG_OI in the indication.
abbrev pub relocated : Option ℕ → Bool
relocated none = false
relocated (some n) = not (n / 2048 % 2 == 0)

module _ {t : TreeOps} where
  abbrev pub sgw_answer : Gw t → Environment → ℕ → Indication → Error → EpsBearer → Option (Gw t)
  sgw_answer s env p ind e x = send_create_session_response_to_mme s env p ind.h_trxn e x.ebi

  abbrev pub sgw_refuse : Gw t → Environment → ℕ → Indication → EpsBearer → Option (Gw t)
  sgw_refuse s env p ind x = sgw_answer (set_state p state_end s) env p ind (only_cause env 94) x

  -- `nwSaeGwUeHandleSgwS11CreateSessionRequest`: `h_pgw` is the collocated PGW. A session that is not
  -- registered there is taken out of the SGW again.
  abbrev pub collocated : Gw t → ℕ → ℕ → Gw t
  collocated s p h_pgw =
      let x = s.ue p in
      set_ue p
        (record x {
          h_pgw = h_pgw;
          s5s8c_pgw = record x.s5s8c_pgw { teid_or_gre_key = p };
          state = sae_session_created;
        })
        s

  abbrev pub sae_admit : Environment → ℕ → Indication → EpsBearer → ℕ → Bool × Gw t → Option (Gw t)
  sae_admit env p ind x h_pgw (false, s) =
      deregister_sgw s (s.ue p).h_sgw p >>= λ r. sgw_refuse r env p ind x
  sae_admit env p ind x h_pgw (true, s) =
      allocate_keys (collocated s p h_pgw) env h_pgw p x.ebi >>= λ r.
      install_uplink r env h_pgw p x.ebi >>= λ r2. sgw_answer r2 env p ind (only_cause env 16) x

  abbrev relocate : Gw t → ℕ → EpsBearer → Gw t
  relocate s p x =
      set_bearer p x.ebi (record ((s.ue p).eps_bearer x.ebi) { s5s8u_pgw = x.s5s8u_pgw }) s

  abbrev pub sgw_registered :
      Environment → ℕ → Indication → Reading → Bool × ℕ × Gw t → Option (Gw t)
  sgw_registered env p ind x (false, h_pgw, s) = sgw_refuse s env p ind x.eps_bearer
  sgw_registered env p ind x (true, h_pgw, s) =
      let moved =
        send_modify_bearer_request_to_pgw (relocate s p x.eps_bearer) env p ind.h_trxn >>= λ r.
        some (set_state p 8 r) in
      let remote = send_create_session_request_to_pgw (set_state p 6 s) env p ind.h_trxn in
      let local = register_pgw s h_pgw p >>= sae_admit env p ind x.eps_bearer h_pgw in
      if relocated x.indication then moved else if h_pgw == 0 then remote else local

  abbrev pub sgw_marked : Gw t → ℕ → ℕ → Gw t
  sgw_marked s p ebi = set_bearer p ebi (record ((s.ue p).eps_bearer ebi) { is_valid = true }) s

  abbrev pub sgw_admit : Gw t → Environment → ℕ → Indication → Reading → Option (Gw t)
  sgw_admit s env p ind x =
      let h = (s.ue p).h_sgw in
      let ebi = x.eps_bearer.ebi in
      let refused = sgw_refuse s env p ind x.eps_bearer in
      let admitted = allocate_keys (sgw_marked s p ebi) env h p ebi >>= λ r.
      sgw_registered env p ind x (register_sgw r h p (r.ue p).s5s8c_pgw.ipv4_addr) in
      let new_bearer = bearer_at (s.ue p) ebi >>= λ b. if b.is_valid then refused else admitted in
      if ltb ebi 4 then refused else new_bearer

  abbrev pub sgw_unparsed : Gw t → Environment → ℕ → Indication → IeRc → Reading → Option (Gw t)
  sgw_unparsed s env p ind rc x =
      let e : Error = record {
        cause = cause_of rc;
        offending_type = x.offending.0;
        offending_instance = x.offending.1;
      } in
      sgw_answer (set_state p state_end (set_ue p x.ue s)) env p ind e x.eps_bearer

  abbrev pub sgw_parsed : Gw t → Environment → ℕ → Indication → IeRc × Reading → Option (Gw t)
  sgw_parsed s env p ind (ie_ok, x) = sgw_admit (set_ue p x.ue s) env p ind x
  sgw_parsed s env p ind (ie_missing, x) = sgw_unparsed s env p ind ie_missing x
  sgw_parsed s env p ind (ie_incorrect, x) = sgw_unparsed s env p ind ie_incorrect x
  sgw_parsed s env p ind (ie_failure, x) = sgw_unparsed s env p ind ie_failure x
  sgw_parsed s env p ind (ie_aborts, x) = none

  unfoldable pub handle_sgw_s11_create_session_request :
      Gw t → Environment → ℕ → Indication → Option (Gw t)
  handle_sgw_s11_create_session_request s env p ind =
      if accepted ind
      then sgw_parsed s env p ind (sgw_parse_create_session_request ind.msg (reading s env p))
      else sgw_answer (set_state p state_end (with_imsi s env p ind.msg)) env p ind ind.error
          env.unset_bearer

  -- `nwSaeGwUeHandleSgwS11ModifyBearerRequest`, which answers every request with the error of the indication; in
  -- the states with an established session the flow is modified and the state stays.
  abbrev pub modify_answer : Gw t → Environment → ℕ → Indication → EpsBearer → Option (Gw t)
  modify_answer s env p ind x =
      send_modify_bearer_response_to_mme s env p ind.h_trxn ind.error x.ebi

  abbrev pub with_enodeb : Gw t → ℕ → EpsBearer → Gw t
  with_enodeb s p x =
      set_bearer p x.ebi (record ((s.ue p).eps_bearer x.ebi) { s1u_enodeb = x.s1u_enodeb }) s

  abbrev pub established : ℕ → Gw t → Gw t
  established p s =
      let x = s.ue p in
      set_state p
        (if x.is_sgw && x.is_pgw then sae_session_established else sgw_session_established) s

  abbrev pub modify_parsed :
      Bool → Gw t → Environment → ℕ → Indication → IeRc × Reading → Option (Gw t)
  modify_parsed first s env p ind (ie_ok, x) =
      let ebi = x.eps_bearer.ebi in
      let r = with_enodeb s p x.eps_bearer in
      let flow = if first then install_downlink r env p ebi else modify_downlink r env p ebi in
      let done = flow >>= λ r2.
      let r3 = with_enodeb r2 p x.eps_bearer in
      modify_answer (if first then established p r3 else r3) env p ind x.eps_bearer in
      let refused = modify_answer s env p ind x.eps_bearer >>= ended p in
      let known = bearer_at (s.ue p) ebi >>= λ b. if b.is_valid then done else refused in
      if ltb ebi 4 then refused else known
  modify_parsed first s env p ind (ie_missing, x) =
      modify_answer s env p ind x.eps_bearer >>= ended p
  modify_parsed first s env p ind (ie_incorrect, x) =
      modify_answer s env p ind x.eps_bearer >>= ended p
  modify_parsed first s env p ind (ie_failure, x) =
      modify_answer s env p ind x.eps_bearer >>= ended p
  modify_parsed first s env p ind (ie_aborts, x) = none

  unfoldable pub handle_sgw_s11_modify_bearer_request :
      Bool → Gw t → Environment → ℕ → Indication → Option (Gw t)
  handle_sgw_s11_modify_bearer_request first s env p ind =
      if accepted ind
      then modify_parsed first s env p ind (parse_modify_bearer_request ind.msg (reading s env p))
      else modify_answer (with_imsi s env p ind.msg) env p ind env.unset_bearer >>= ended p

  -- `nwSaeGwUeHandleSgwS11DeleteSessionRequest` of these states.
  abbrev pub leave_pgw : ℕ → Gw t → Option (Gw t)
  leave_pgw p s = if (s.ue p).h_pgw == 0 then some s else deregister_pgw s (s.ue p).h_pgw p

  unfoldable pub handle_sgw_s11_delete_session_request :
      Gw t → Environment → ℕ → Indication → Option (Gw t)
  handle_sgw_s11_delete_session_request s env p ind =
      let h = (s.ue p).h_sgw in
      let deleted = remove_downlink s h p 5 >>= λ a. remove_uplink a h p 5 >>= λ b.
      deregister_sgw b h p >>= λ c. leave_pgw p c >>= λ d.
      send_delete_session_response_to_mme d env p ind.h_trxn (only_cause env 16) >>= ended p in
      if accepted ind
      then deleted
      else send_delete_session_response_to_mme (with_imsi s env p ind.msg) env p ind.h_trxn
          ind.error
        >>= ended p
