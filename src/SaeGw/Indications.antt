-- ===== src/SaeGw/Indications.antt =====
-- nw-sae-gw/NwSaeGwUlp.c: what the GTPv2-C stacks indicate, and the handlers of the states of a UE that are
-- installed for it. Deleting the message of the indication is not in the model.
pub mod Relocation
use linkerepc.Prelude.{ℕ, Bool, true, false, Option, none, some, ◌==◌, if◌then◌else◌}
use linkerepc.Trees.{TreeOps}
use linkerepc.UeFsm as Fsm
use linkerepc.UeFsm.{Handler, UeState, fsm_new, run}
use linkerepc.SaeGw.{
  Gw, Environment, ◌>>=◌, set_state, state_init, state_end, sae_session_created,
  sgw_session_created, sgw_session_established, pgw_session_created, sae_session_established,
  Interface, sgw_s11, sgw_s5, pgw_s5,
}
use linkerepc.SaeGw.Sessions.{create_ue_session, destroy_ue_session}
use linkerepc.SaeGw.Pgw.{
  Indication, handle_pgw_s5_create_session_request, handle_pgw_s5_delete_session_request,
}
use linkerepc.SaeGw.Sae.{
  handle_sgw_s11_create_session_request, handle_sgw_s11_modify_bearer_request,
  handle_sgw_s11_delete_session_request,
}
use linkerepc.SaeGw.Remote.{
  handle_pgw_create_session_response, handle_pgw_create_session_response_nack,
  handle_delete_of_created, handle_delete_of_established, await_pgw_delete_session_entry_action,
  handle_sgw_s5_delete_session_response,
}

-- `gSgwS11GtpcMsgToUeEventMap`, `gSgwS5GtpcMsgToUeEventMap` and `gPgwS5GtpcMsgToUeEventMap`, with the numbers of
-- `NwSaeGwUeEventT`
unfoldable pub event_of : Interface → ℕ → ℕ
event_of sgw_s11 n =
    if n == 32 then 1 else if n == 34 then 2 else if n == 36 then 3 else if n == 37 then 4 else 0
event_of sgw_s5 n =
    if n == 33 then 5 else if n == 35 then 6 else if n == 36 then 7 else if n == 37 then 8 else 0
event_of pgw_s5 n =
    if n == 32 then 9 else if n == 34 then 10 else if n == 36 then 11 else if n == 37 then 12 else 0

-- `NW_SAE_GW_UE_EVENT_NACK`
abbrev pub nack : ℕ
nack = 14

-- `apiType` with the handles of the UEs that it has: `hUlpTunnel`, and `hUlpTrxn` of a failure.
pub data Api : Type 0 where
  initial_req_ind : ℕ → Api
  triggered_rsp_ind : ℕ → Api
  triggered_req_ind : ℕ → Api
  rsp_failure_ind : ℕ → ℕ → Api
  unknown_api : Api

-- The type of the entity that has the stack.
abbrev pub type_of : Interface → ℕ
type_of sgw_s11 = 1
type_of sgw_s5 = 1
type_of pgw_s5 = 2

abbrev pub Action : TreeOps → Type 0
Action t = Gw t → Environment → ℕ → Indication → Option (Gw t)

-- A UE for the state machine: its pointer and the gateway, `none` when the program has stopped.
abbrev pub Machine : TreeOps → Type 0
Machine t = Option (ℕ × Gw t)

-- The UE that a failure is for.
abbrev pub failed_ue : Interface → ℕ → ℕ → ℕ
failed_ue sgw_s11 p trxn = trxn
failed_ue sgw_s5 p trxn = p
failed_ue pgw_s5 p trxn = p

module _ {t : TreeOps} where
  abbrev pub acted : Fsm.Ue (Machine t) → Option (Gw t) → ℕ → Bool × Fsm.Ue (Machine t)
  acted x none p = (true, record { state = x.state; rest = none })
  acted x (some s) p = (true, record { state = (s.ue p).state; rest = some (p, s) })

  abbrev pub lift : Action t → Handler (Machine t) (Environment × Indication)
  lift f x ev = elim x.rest [
    | none ↦ (true, x)
    | some (p, s) ↦ acted x (f (set_state p x.state s) ev.info.0 p ev.info.1) p
  ]

  -- What `nwSaeGwStateInitNew` and its like install: the handler of an event in a state, and the entry action.
  abbrev pub initial_handler : ℕ → Option (Action t)
  initial_handler event =
      if event == 1
      then some handle_sgw_s11_create_session_request
      else if event == 9
      then some handle_pgw_s5_create_session_request
      else none

  abbrev pub sae_created_handler : ℕ → Option (Action t)
  sae_created_handler event =
      if event == 2
      then some (handle_sgw_s11_modify_bearer_request true)
      else if event == 3
      then some handle_sgw_s11_delete_session_request
      else none

  abbrev pub sae_established_handler : ℕ → Option (Action t)
  sae_established_handler event =
      if event == 2
      then some (handle_sgw_s11_modify_bearer_request false)
      else if event == 3
      then some handle_sgw_s11_delete_session_request
      else none

  abbrev pub sgw_established_handler : ℕ → Option (Action t)
  sgw_established_handler event =
      if event == 2
      then some (handle_sgw_s11_modify_bearer_request false)
      else if event == 3
      then some handle_delete_of_established
      else none

  abbrev pub await_create_handler : ℕ → Option (Action t)
  await_create_handler event =
      if event == 5
      then some handle_pgw_create_session_response
      else if event == nack
      then some handle_pgw_create_session_response_nack
      else none

  abbrev pub handler_for : ℕ → ℕ → Option (Action t)
  handler_for state event =
      if state == state_init
      then initial_handler event
      else if state == sae_session_created
      then sae_created_handler event
      else if state == sgw_session_created
      then (if event == 3 then some handle_delete_of_created else none)
      else if state == pgw_session_created
      then (if event == 11 then some handle_pgw_s5_delete_session_request else none)
      else if state == sae_session_established
      then sae_established_handler event
      else if state == sgw_session_established
      then sgw_established_handler event
      else if state == 6
      then await_create_handler event
      else if state == 7
      then (if event == 8 then some handle_sgw_s5_delete_session_response else none)
      else none

  abbrev pub entry_of : ℕ → Option (Action t)
  entry_of state = if state == 7 then some await_pgw_delete_session_entry_action else none

  abbrev pub lifted : Option (Action t) → Option (Handler (Machine t) (Environment × Indication))
  lifted none = none
  lifted (some f) = some (lift f)

  -- The states of the gateway
  abbrev pub ue_states : ℕ → UeState (Machine t) (Environment × Indication)
  ue_states state = record {
    p_parent_state = none;
    enter = lifted (entry_of state);
    exit = none;
    event_handler = λ event. lifted (handler_for state event);
  }

  -- The gateway after `nwSaeGwUeFsmRun`, and the state of the UE
  abbrev pub machine_out : Option (Bool × Fsm.Ue (Machine t)) → Option (ℕ × Gw t)
  machine_out none = none
  machine_out (some (rc, x)) = x.rest >>= λ (p, s). some (x.state, set_state p x.state s)

  unfoldable pub run_ue : Gw t → Environment → ℕ → ℕ → Indication → Option (ℕ × Gw t)
  run_ue s env p event ind = machine_out (
      run (fsm_new (ue_states)) (record { state = (s.ue p).state; rest = some (p, s) })
        (record { event = event; info = (env, ind) }))

  -- A UE whose machine has ended is deleted.
  abbrev pub purge : ℕ → ℕ × Gw t → Option (Gw t)
  purge p (n, s) = if n == state_end then destroy_ue_session s p else some s

  -- The machine of the UE `q` is run, and `p` is the one that is deleted; there may be none.
  abbrev pub on_ue : Environment → ℕ → Indication → ℕ → ℕ → Gw t → Option (Gw t)
  on_ue env event ind q p s = if p == 0 then some s else run_ue s env q event ind >>= purge p

  abbrev pub on_new_ue : Environment → ℕ → Indication → ℕ × Gw t → Option (Gw t)
  on_new_ue env event ind (p, s) = on_ue env event ind p p s

  -- `nwSaeGwUlpSgwS11GtpcStackIndication`, `nwSaeGwUlpSgwS5GtpcStackIndication` and
  -- `nwSaeGwUlpPgwS5GtpcStackIndication`. Of a request on an existing transaction S11 has no UE and S5 of a PGW does
  -- nothing; of a failure S11 takes the transaction for the UE.
  abbrev pub on_triggered_req : Interface → Environment → ℕ → Indication → ℕ → Gw t → Option (Gw t)
  on_triggered_req sgw_s11 env event ind p s = none
  on_triggered_req sgw_s5 env event ind p s =
      if p == 0 then none else run_ue s env p event ind >>= λ r. some (r.1)
  on_triggered_req pgw_s5 env event ind p s = some s

  abbrev pub on_api : Interface → Environment → ℕ → ℕ → Indication → Api → Gw t → Option (Gw t)
  on_api i env h event ind (initial_req_ind p) s =
      if p == 0
      then on_new_ue env event ind (create_ue_session s env h)
      else on_ue env event ind p p s
  on_api i env h event ind (triggered_rsp_ind p) s = on_ue env event ind p p s
  on_api i env h event ind (triggered_req_ind p) s = on_triggered_req i env event ind p s
  on_api i env h event ind (rsp_failure_ind p trxn) s = on_ue env nack ind (failed_ue i p trxn) p s
  on_api i env h event ind unknown_api s = some s

  unfoldable pub stack_indication :
      Interface → Gw t → Environment → ℕ → ℕ → Indication → Api → Option (Gw t)
  stack_indication i s env h msg_type ind api =
      if (s.ulp h).sae_gw_type == type_of i
      then on_api i env h (event_of i msg_type) ind api s
      else none
