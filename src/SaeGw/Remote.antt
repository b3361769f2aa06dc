-- ===== src/SaeGw/Remote.antt =====
-- nw-sae-gw/NwSaeGwUeStateAwaitPgwCreateSessionRsp.c, NwSaeGwUeStateAwaitPgwDeleteSessionRsp.c,
-- NwSaeGwUeStateSgwSessionCreated.c and NwSaeGwUeStateSgwSessionEstablished.c: the UE in an SGW whose PGW is remote.
-- The transaction of an indication is that of the MME. `none` is a failed assertion or an access outside of
-- `epsBearer`.
pub mod Responses
pub mod Remains
use linkerepc.Prelude.{
  ℕ, zero, suc, ◌+◌, Bool, true, false, Option, none, some, ◌==◌, if◌then◌else◌, ltb, not, ◌&&◌,
  htonl,
}
use linkerepc.Trees.{TreeOps}
use linkerepc.Bytes.{Buffer}
use linkerepc.Gtpv2c.Msg.{Msg, set_teid}
use linkerepc.Gtpv2c.Msg.Encode.{add_ie, add_ie_tv1, grouped_ie_start, grouped_ie_end}
use linkerepc.Gtpv2c.Msg.Decode.{
  Get, found, missing, incorrect, aborts, get_ie_tv2, get_ie_tlv_p, get_ie_fteid, get_ie_cause,
}
use linkerepc.SaeGw.{
  Gw, Ue, Bearer, EpsBearer, Environment, ◌>>=◌, set_ue, set_state, set_bearer, state_end,
  sgw_session_created, pgw_session_created, sgw_s11, sgw_s5, triggered_rsp, initial_req,
}
use linkerepc.SaeGw.Sessions.{deregister_sgw}
use linkerepc.SaeGw.Bearers.{install_uplink, remove_uplink, remove_downlink}
use linkerepc.SaeGw.Parse.{
  IeRc, ie_ok, ie_missing, ie_incorrect, ie_failure, ie_aborts, decode_fteid, Decoding,
  context_length, or_aborts, Reading, stored, check, fteid_of, decode_paa,
}
use linkerepc.SaeGw.Send.{
  Error, only_cause, new_msg, put_cause, put_fteid, put_own_fteid, paa_value, bearer_at, ask,
  with_s11_tunnel, with_s5_tunnel, send_delete_session_response_to_mme,
}
use linkerepc.SaeGw.Pgw.{Indication, accepted, reading, ended}
use linkerepc.SaeGw.Sae.{relocated}

-- `nwSaeGwDecodeBearerContextToBeCreated` for a response, which reads the FTEID of instance 2.
abbrev pub created_take_ie : Buffer → ℕ → Decoding → Decoding
created_take_ie b off d =
    let t = b off in
    let x = d.eps_bearer in
    let f = record (decode_fteid b (off + 4) x.s5s8u_pgw) { is_valid = x.s5s8u_pgw.is_valid } in
    if t == 73
    then record d { ebi_flag = true; eps_bearer = record x { ebi = b (off + 4) } }
    else if t == 87
    then (if b (off + 3) == 2 then record d { eps_bearer = record x { s5s8u_pgw = f } } else d)
    else if t == 80
    then record d { qos_flag = true }
    else d

unfoldable pub created_loop : ℕ → Buffer → ℕ → ℕ → ℕ → Decoding → Option (IeRc × EpsBearer)
created_loop zero b length end off d = none
created_loop (suc k) b length end off d =
    let l = context_length b off in
    let rest = created_loop k b length end (off + (l + 4)) (created_take_ie b off d) in
    if ltb off end
    then (if ltb (length + 4) l then some (ie_incorrect, d.eps_bearer) else rest)
    else some (if d.ebi_flag then ie_ok else ie_incorrect, d.eps_bearer)

abbrev pub created_context : Msg → EpsBearer → Get (ℕ × ℕ) → IeRc × EpsBearer
created_context m x (found (off, length)) = or_aborts x (
    created_loop (suc length) m.msg_buf length (off + length) off
      (record { eps_bearer = x; ebi_flag = false; qos_flag = false }))
created_context m x missing = (ie_missing, x)
created_context m x incorrect = (ie_incorrect, x)
created_context m x aborts = (ie_aborts, x)

unfoldable pub decode_created_bearer_context : Msg → EpsBearer → IeRc × EpsBearer
decode_created_bearer_context m x = created_context m x (get_ie_tlv_p m 93 0)

-- `nwSaeGwUeSgwParseCreateSessionResponse`, without the IE that is reported, which nothing reads. A response that
-- refuses the session is read up to the bearer context.
abbrev pub response_rest : Msg → Reading → IeRc × Reading
response_rest m =
    check 87 0 (stored (get_ie_fteid m 1) λ v x. record x { s5s8c_pgw = fteid_of v x.s5s8c_pgw })
      (check 79 0 (decode_paa m) λ r. (ie_ok, r))

abbrev pub response_read : Msg → ℕ → Reading → IeRc × EpsBearer → IeRc × Reading
response_read m cause r (ie_ok, x) =
    let full = response_rest m (record r { eps_bearer = x }) in
    if cause == 16 then full else (ie_ok, record r { eps_bearer = x })
response_read m cause r (ie_missing, x) = (ie_missing, record r { eps_bearer = x })
response_read m cause r (ie_incorrect, x) = (ie_incorrect, record r { eps_bearer = x })
response_read m cause r (ie_failure, x) = (ie_failure, record r { eps_bearer = x })
response_read m cause r (ie_aborts, x) = (ie_aborts, record r { eps_bearer = x })

abbrev pub with_cause : Msg → Reading → Get (ℕ × ℕ × Option ℕ) → IeRc × Reading
with_cause m r (found (cause, flags, offending)) =
    response_read m cause r (decode_created_bearer_context m r.eps_bearer)
with_cause m r missing = (ie_missing, r)
with_cause m r incorrect = (ie_incorrect, r)
with_cause m r aborts = (ie_aborts, r)

unfoldable pub parse_create_session_response : Msg → Reading → IeRc × Reading
parse_create_session_response m r = with_cause m r (get_ie_cause m 0)

-- What the answer to the MME has behind the cause, for the bearer 5.
abbrev pub created_by_pgw : Environment → Ue → ℕ → ℕ → Msg → Option Msg
created_by_pgw env x p cause m =
    let b = x.eps_bearer 5 in
    let e : Error = record { cause = cause; offending_type = 0; offending_instance = 0 } in
    let m1 = put_own_fteid env 0 11 p x.s11c_sgw (add_ie m 79 5 0 (paa_value x.paa)) in
    grouped_ie_start (add_ie_tv1 (put_own_fteid env 1 7 p x.s5s8c_pgw m1) 127 0 0) 93 0 >>= λ g.
    grouped_ie_end (
      put_fteid env 2 5 b.s5s8u_pgw
        (put_fteid env 0 1 b.s1u_sgw (put_cause env e (add_ie_tv1 g 73 0 5))))

-- The state after a session is deleted, which depends on the session type that is left.
abbrev pub next_state : Ue → ℕ
next_state x = if x.is_sgw && not x.is_pgw then state_end else pgw_session_created

module _ {t : TreeOps} where
  -- `nwSaeGwUeSgwSendCreateSessionResponseToMme` (NwSaeGwUeStateAwaitPgwCreateSessionRsp.c), which moves the UE on
  -- whatever the cause is
  abbrev pub told_mme : Environment → ℕ → ℕ → Bool → Msg → Gw t → Option (Gw t)
  told_mme env p h_trxn tunnel m s =
      ask env (triggered_rsp sgw_s11 h_trxn tunnel p (set_teid m (s.ue p).s11c_mme.teid_or_gre_key))
        s
      >>= λ r. some (set_state p sgw_session_created (with_s11_tunnel p r))

  unfoldable pub tell_mme : Gw t → Environment → ℕ → ℕ → ℕ → Option (Gw t)
  tell_mme s env p h_trxn cause =
      let e : Error = record { cause = cause; offending_type = 0; offending_instance = 0 } in
      new_msg env 33 0 >>= λ m.
      let full = created_by_pgw env (s.ue p) p cause (put_cause env e m) >>= λ m2.
      told_mme env p h_trxn true m2 s in
      if cause == 16 then full else told_mme env p h_trxn false (put_cause env e m) s

  -- `nwSaeGwUeHandlePgwCreateSessionResponse`; a response with an error, or that cannot be read, is dropped.
  abbrev pub with_pgw : Gw t → ℕ → EpsBearer → Gw t
  with_pgw s p x =
      set_bearer p x.ebi (record ((s.ue p).eps_bearer x.ebi) { s5s8u_pgw = x.s5s8u_pgw }) s

  abbrev pub response_parsed : Gw t → Environment → ℕ → Indication → IeRc × Reading → Option (Gw t)
  response_parsed s env p ind (ie_ok, x) =
      let r = set_ue p x.ue s in
      bearer_at x.ue x.eps_bearer.ebi >>= λ b.
      install_uplink (with_pgw r p x.eps_bearer) env x.ue.h_sgw p x.eps_bearer.ebi >>= λ r2.
      tell_mme r2 env p ind.h_trxn 16
  response_parsed s env p ind (ie_missing, x) = some (set_ue p x.ue s)
  response_parsed s env p ind (ie_incorrect, x) = some (set_ue p x.ue s)
  response_parsed s env p ind (ie_failure, x) = some (set_ue p x.ue s)
  response_parsed s env p ind (ie_aborts, x) = none

  unfoldable pub handle_pgw_create_session_response :
      Gw t → Environment → ℕ → Indication → Option (Gw t)
  handle_pgw_create_session_response s env p ind =
      if accepted ind
      then response_parsed s env p ind (parse_create_session_response ind.msg (reading s env p))
      else some s

  -- `nwSaeGwUeHandlePgwCreateSessionResponseNack`
  unfoldable pub handle_pgw_create_session_response_nack :
      Gw t → Environment → ℕ → Indication → Option (Gw t)
  handle_pgw_create_session_response_nack s env p ind = tell_mme s env p ind.h_trxn 100

  -- `nwSaeGwUeHandleSgwS11DeleteSessionRequest` of NwSaeGwUeStateSgwSessionCreated.c; the flows of the bearer 5 are
  -- removed.
  abbrev pub flows_removed : Gw t → ℕ → Option (Gw t)
  flows_removed s p =
      remove_downlink s (s.ue p).h_sgw p 5 >>= λ a. remove_uplink a (s.ue p).h_sgw p 5

  abbrev pub delete_refused : Gw t → Environment → ℕ → Indication → Option (Gw t)
  delete_refused s env p ind =
      send_delete_session_response_to_mme s env p ind.h_trxn ind.error >>= ended p

  unfoldable pub handle_delete_of_created : Gw t → Environment → ℕ → Indication → Option (Gw t)
  handle_delete_of_created s env p ind =
      let removed = flows_removed s p >>= λ r. some (set_state p 7 r) in
      if accepted ind then removed else delete_refused s env p ind

  abbrev pub left_alone : Gw t → Environment → ℕ → Indication → Option (Gw t)
  left_alone s env p ind = deregister_sgw s (s.ue p).h_sgw p >>= λ r.
      send_delete_session_response_to_mme r env p ind.h_trxn (only_cause env 16) >>= λ r2.
      some (set_state p (next_state (r2.ue p)) r2)

  -- `nwSaeGwUeHandleSgwS11DeleteSessionRequest` of NwSaeGwUeStateSgwSessionEstablished.c
  abbrev pub deleted_by_mme : Gw t → Environment → ℕ → Indication → Option ℕ → Option (Gw t)
  deleted_by_mme s env p ind flag =
      let remote = flows_removed s p >>= λ r. some (set_state p 7 r) in
      let local = flows_removed s p >>= λ r. left_alone r env p ind in
      if relocated flag then remote else local

  abbrev pub with_flag : Gw t → Environment → ℕ → Indication → Get ℕ → Option (Gw t)
  with_flag s env p ind (found n) = deleted_by_mme s env p ind (some n)
  with_flag s env p ind missing = deleted_by_mme s env p ind none
  with_flag s env p ind incorrect = deleted_by_mme s env p ind none
  with_flag s env p ind aborts = none

  unfoldable pub handle_delete_of_established : Gw t → Environment → ℕ → Indication → Option (Gw t)
  handle_delete_of_established s env p ind =
      if accepted ind
      then with_flag s env p ind (get_ie_tv2 ind.msg 77 0)
      else delete_refused s env p ind

  -- `nwSaeGwStateAwaitPgwDeleteSessionEntryAction`. The UE of the request is not assigned; the stack reads it
  -- only where it makes a tunnel.
  unfoldable pub await_pgw_delete_session_entry_action :
      Gw t → Environment → ℕ → Indication → Option (Gw t)
  await_pgw_delete_session_entry_action s env p ind =
      let x = s.ue p in
      new_msg env 36 x.s5s8c_pgw.teid_or_gre_key >>= λ m.
      ask env
        (initial_req sgw_s5 x.h_s5s8c_sgw_tunnel ind.h_trxn (htonl x.s5s8c_pgw.ipv4_addr) false 0
          (add_ie_tv1 m 73 0 0))
        s
      >>= λ r. some (r.1)

  -- `nwSaeGwUeHandleSgwS5DeleteSessionResponse`
  unfoldable pub handle_sgw_s5_delete_session_response :
      Gw t → Environment → ℕ → Indication → Option (Gw t)
  handle_sgw_s5_delete_session_response s env p ind = deregister_sgw s (s.ue p).h_sgw p >>= λ r.
      send_delete_session_response_to_mme r env p ind.h_trxn ind.error >>= ended p
