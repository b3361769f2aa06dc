-- ===== src/SaeGw/Send.antt =====
-- nw-sae-gw/NwSaeGwUeState*.c: the messages that the states of a UE send. `none` is a failed assertion, a failure of
-- a stack among them, or an access outside of `epsBearer`. The TEID of a UE on the control plane is its pointer.
use linkerepc.Prelude.{ℕ, true, false, Option, none, some, ◌==◌, if◌then◌else◌, ltb, u32, htonl}
use linkerepc.Trees.{TreeOps}
use linkerepc.Bytes.{Buffer, store8, store32}
use linkerepc.Gtpv2c.Msg.{Msg, init}
use linkerepc.Gtpv2c.Msg.Encode.{
  add_ie, add_ie_tv1, add_ie_cause, add_ie_fteid, grouped_ie_start, grouped_ie_end,
}
use linkerepc.SaeGw.{
  Gw, Ue, Paa, Fteid, Bearer, Environment, ◌>>=◌, set_ue, request, Request, Interface, sgw_s11,
  sgw_s5, pgw_s5, triggered_rsp, initial_req,
}

-- `NwGtpv2cErrorT`, without the flags, which the gateway does not read
pub record Error : Type 0 where
  pub cause : ℕ
  pub offending_type : ℕ
  pub offending_instance : ℕ

-- An `error` of which only the cause was assigned.
abbrev pub only_cause : Environment → ℕ → Error
only_cause env cause = record {
  cause = cause;
  offending_type = env.unset_offending.0;
  offending_instance = env.unset_offending.1;
}

abbrev pub new_msg : Environment → ℕ → ℕ → Option Msg
new_msg env type teid = env.storage >>= λ m. some (init m 1 type teid 0)

abbrev pub put_cause : Environment → Error → Msg → Msg
put_cause env e m = add_ie_cause m 0 e.cause 0 e.offending_type e.offending_instance env.unset_bytes

abbrev pub put_fteid : Environment → ℕ → ℕ → Fteid → Msg → Msg
put_fteid env i type f m = add_ie_fteid m i type f.teid_or_gre_key f.ipv4_addr none env.unset_bytes

abbrev pub put_own_fteid : Environment → ℕ → ℕ → ℕ → Fteid → Msg → Msg
put_own_fteid env i type p f m = add_ie_fteid m i type (u32 p) f.ipv4_addr none env.unset_bytes

-- The five bytes of a PAA, and the 22 bytes of the quality of service that every bearer has.
abbrev pub paa_value : Paa → Buffer
paa_value a = store32 (store8 (λ _. 0) 0 a.pdn_type) 1 a.ipv4_addr

abbrev qos_value : Buffer
qos_value k = if ltb k 2 then 1 else 0

abbrev pub bearer_at : Ue → ℕ → Option Bearer
bearer_at x ebi = if ltb ebi 16 then some (x.eps_bearer ebi) else none

-- What the messages have behind the first IEs.
abbrev pub accepted_by_pgw : Environment → Ue → ℕ → Error → ℕ → Bearer → Msg → Option Msg
accepted_by_pgw env x p e ebi b m =
    let m1 = add_ie_tv1 (add_ie m 79 5 0 (paa_value x.paa)) 127 0 x.apn_res in
    grouped_ie_start (put_own_fteid env 1 7 p x.s5s8c_pgw m1) 93 0 >>= λ g. grouped_ie_end (
      put_fteid env 2 5 b.s5s8u_pgw (
        put_cause env (record { cause = e.cause; offending_type = 0; offending_instance = 0 })
          (add_ie_tv1 g 73 0 ebi)))

abbrev pub accepted_by_sgw : Environment → Ue → ℕ → Error → Bearer → Msg → Option Msg
accepted_by_sgw env x p e b m =
    let m1 = add_ie m 79 5 0 (paa_value x.paa) in
    let m2 = put_own_fteid env 1 7 p x.s5s8c_pgw (put_own_fteid env 0 11 p x.s11c_sgw m1) in
    grouped_ie_start m2 93 0 >>= λ g. grouped_ie_end (
      put_fteid env 2 5 b.s5s8u_pgw (
        put_fteid env 0 1 b.s1u_sgw (
          put_cause env (record { cause = e.cause; offending_type = 0; offending_instance = 0 })
            (add_ie_tv1 g 73 0 5))))

abbrev pub identity : Ue → Msg → Msg
identity x m =
    let m1 = add_ie (add_ie (add_ie m 1 8 0 x.imsi) 76 8 0 x.ms_isdn) 75 8 0 x.mei in
    add_ie (add_ie_tv1 m1 82 0 x.rat_type) 83 3 0 x.serving_network

abbrev pub pdn : Ue → Msg → Msg
pdn x m =
    let m1 = add_ie (add_ie_tv1 (add_ie_tv1 m 128 0 2) 99 0 1) 79 5 0 (paa_value x.paa) in
    add_ie_tv1 (add_ie m1 71 x.apn_length 0 x.apn) 127 0 x.apn_res

abbrev pub sgw_address : Ue → Option Fteid
sgw_address x = let f = (x.eps_bearer 5).s5s8u_sgw in if f.ipv4_addr == 0 then none else some f

abbrev pub modified : Environment → Error → Bearer → Msg → Option Msg
modified env e b m = grouped_ie_start m 93 0 >>= λ g. grouped_ie_end (
    put_fteid env 0 1 b.s1u_sgw (
      put_cause env (record { cause = e.cause; offending_type = 0; offending_instance = 0 })
        (add_ie_tv1 g 73 0 0)))

module _ {t : TreeOps} where
  -- A request to a stack, which answers with the tunnel.
  abbrev pub ask : Environment → Request → Gw t → Option (ℕ × Gw t)
  ask env r s = env.answer >>= λ h. some (h, request r s)

  abbrev pub respond : Gw t → Environment → Interface → ℕ → ℕ → Msg → Option (Gw t)
  respond s env i p h_trxn m = ask env (triggered_rsp i h_trxn false p m) s >>= λ r. some (r.1)

  -- `nwSaeGwUePgwSendCreateSessionResponseToSgw`
  abbrev pub with_pgw_tunnel : ℕ → ℕ × Gw t → Gw t
  with_pgw_tunnel p (h, s) = set_ue p (record (s.ue p) { h_s5s8c_pgw_tunnel = h }) s

  unfoldable pub send_create_session_response_to_sgw :
      Gw t → Environment → ℕ → ℕ → Error → ℕ → Option (Gw t)
  send_create_session_response_to_sgw s env p h_trxn e ebi =
      let x = s.ue p in
      new_msg env 33 x.s5s8c_sgw.teid_or_gre_key >>= λ m.
      let m1 = put_cause env e m in
      let full = bearer_at x ebi >>= λ b. accepted_by_pgw env x p e ebi b m1 >>= λ m2.
      ask env (triggered_rsp pgw_s5 h_trxn true p m2) s >>= λ r. some (with_pgw_tunnel p r) in
      if e.cause == 16 then full else respond s env pgw_s5 p h_trxn m1

  -- `nwSaeGwUeSgwSendCreateSessionResponseToMme` (NwSaeGwUeStateInit.c)
  abbrev pub with_s11_tunnel : ℕ → ℕ × Gw t → Gw t
  with_s11_tunnel p (h, s) = set_ue p (record (s.ue p) { h_s11c_sgw_tunnel = h }) s

  unfoldable pub send_create_session_response_to_mme :
      Gw t → Environment → ℕ → ℕ → Error → ℕ → Option (Gw t)
  send_create_session_response_to_mme s env p h_trxn e ebi =
      let x = s.ue p in
      new_msg env 33 x.s11c_mme.teid_or_gre_key >>= λ m.
      let m1 = put_cause env e m in
      let full = bearer_at x ebi >>= λ b. accepted_by_sgw env x p e b m1 >>= λ m2.
      ask env (triggered_rsp sgw_s11 h_trxn true p m2) s >>= λ r. some (with_s11_tunnel p r) in
      if e.cause == 16 then full else respond s env sgw_s11 p h_trxn m1

  -- `nwSaeGwUeSgwSendCreateSessionRequestToPgw`
  abbrev pub with_s5_tunnel : ℕ → ℕ × Gw t → Gw t
  with_s5_tunnel p (h, s) = set_ue p (record (s.ue p) { h_s5s8c_sgw_tunnel = h }) s

  unfoldable pub send_create_session_request_to_pgw : Gw t → Environment → ℕ → ℕ → Option (Gw t)
  send_create_session_request_to_pgw s env p h_trxn =
      let x = s.ue p in
      new_msg env 32 0 >>= λ m.
      grouped_ie_start (pdn x (put_own_fteid env 0 6 p x.s5s8c_sgw (identity x m))) 93 0 >>= λ g.
      sgw_address x >>= λ f.
      grouped_ie_end (add_ie (put_fteid env 2 4 f (add_ie_tv1 g 73 0 5)) 80 22 0 qos_value)
      >>= λ m2.
          ask env (initial_req sgw_s5 0 h_trxn (htonl x.s5s8c_pgw.ipv4_addr) true p m2) s >>= λ r.
          some (with_s5_tunnel p r)

  -- `nwSaeGwUeSgwSendModifyBearerRequestToPgw`
  unfoldable pub send_modify_bearer_request_to_pgw : Gw t → Environment → ℕ → ℕ → Option (Gw t)
  send_modify_bearer_request_to_pgw s env p h_trxn =
      let x = s.ue p in
      new_msg env 34 x.s5s8c_pgw.teid_or_gre_key >>= λ m.
      let m1 =
        put_own_fteid env 0 6 p x.s5s8c_sgw
          (add_ie_tv1 (add_ie m 83 3 0 x.serving_network) 82 0 x.rat_type) in
      grouped_ie_start m1 93 0 >>= λ g. sgw_address x >>= λ f.
      grouped_ie_end (put_fteid env 1 4 f (add_ie_tv1 g 73 0 5)) >>= λ m2.
      ask env (initial_req sgw_s5 0 h_trxn (htonl x.s5s8c_pgw.ipv4_addr) true p m2) s >>= λ r.
      some (with_s5_tunnel p r)

  -- `nwSaeGwUeSgwSendModifyBearerResponseToMme` (NwSaeGwUeStateSaeSessionCreated.c)
  unfoldable pub send_modify_bearer_response_to_mme :
      Gw t → Environment → ℕ → ℕ → Error → ℕ → Option (Gw t)
  send_modify_bearer_response_to_mme s env p h_trxn e ebi =
      let x = s.ue p in
      new_msg env 35 x.s11c_mme.teid_or_gre_key >>= λ m.
      let m1 = put_cause env e m in
      let full = bearer_at x ebi >>= λ b. modified env e b m1 in
      let built = if e.cause == 16 then full else some m1 in
      built >>= respond s env sgw_s11 p h_trxn

  -- `nwSaeGwUePgwSendDeleteSessionResponseToSgw`, `nwSaeGwUeSgwSendDeleteSessionResponseToMme`
  unfoldable pub send_delete_session_response_to_sgw :
      Gw t → Environment → ℕ → ℕ → Error → Option (Gw t)
  send_delete_session_response_to_sgw s env p h_trxn e =
      new_msg env 37 (s.ue p).s5s8c_sgw.teid_or_gre_key >>= λ m.
      respond s env pgw_s5 p h_trxn (put_cause env e m)

  unfoldable pub send_delete_session_response_to_mme :
      Gw t → Environment → ℕ → ℕ → Error → Option (Gw t)
  send_delete_session_response_to_mme s env p h_trxn e =
      new_msg env 37 (s.ue p).s11c_mme.teid_or_gre_key >>= λ m.
      respond s env sgw_s11 p h_trxn (put_cause env e m)
