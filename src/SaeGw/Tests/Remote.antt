-- ===== src/SaeGw/Tests/Remote.antt =====
-- The UE of an SGW whose PGW is remote: a move that is answered, a session that is deleted, one that is refused.
use linkerepc.Prelude.{◌≡◌, refl, arith, true, false, none, some, [], ◌∷◌, ◌==◌, if◌then◌else◌}
use linkerepc.Trees.{trees, trees-IsMap}
use linkerepc.Gtpv2c.Msg.{Msg, init}
use linkerepc.Gtpv2c.Msg.Encode.{
  add_ie_fteid, add_ie_tv1, add_ie_cause, grouped_ie_start, grouped_ie_end,
}
use linkerepc.Gtpv2c.Msg.Decode.{get_ie_tv2, missing}
use linkerepc.SaeGw.{Gw, Environment, imsi_key, triggered_rsp, sgw_s11, sgw_s5, pgw_session_created}
use linkerepc.SaeGw.Sessions.{no_fteid}
use linkerepc.SaeGw.Send.{only_cause, put_cause}
use linkerepc.SaeGw.Bearers.{remove_uplink, remove_downlink}
use linkerepc.SaeGw.Sessions.Deletion.{OnlyDeletions}
use linkerepc.SaeGw.Indications.{triggered_rsp_ind, stack_indication}
use linkerepc.SaeGw.Indications.Relocation.{relocation_never_completes}
use linkerepc.SaeGw.Remote.{flows_removed, handle_delete_of_established}
use linkerepc.SaeGw.Remote.Remains.{session_remains}
use linkerepc.SaeGw.Tests.Data.{plane, blank, env, ind, at_sgw}
use linkerepc.Bytes.{load16}
use linkerepc.Prelude.{htons}
use linkerepc.SaeGw.Parse.{ie_ok}
use linkerepc.SaeGw.Flows.{create_gtpu_gtpu_flow}
use linkerepc.Sdp.{create_flow}
use linkerepc.Gtpv1u.Stack.Ulp.{create_tunnel_end_point}
use linkerepc.SaeGw.Remote.Responses.{acceptance, refusal_told_as_acceptance}
use linkerepc.SaeGw.Remote.{
  decode_created_bearer_context, with_pgw, handle_pgw_create_session_response, created_loop,
}
use linkerepc.SaeGw.Bearers.{install_uplink}
use linkerepc.Gtpv2c.Msg.Decode.{found, get_ie_cause, get_ie_tlv_p}
use linkerepc.Gtpv2c.Msg.{set_teid}
use linkerepc.SaeGw.{set_ue, sgw_session_created}

relocation_never_completes_example :
    (r : Gw trees) × (stack_indication sgw_s5 (at_sgw 8) env 7 35 ind (triggered_rsp_ind 9)
      ≡ some r)
    × ((r.ulp 7).ue_sgw_session (imsi_key (λ _. 0)) ≡ none)
    × OnlyDeletions [] r.sent
    × (r.sdp ≡ plane)
relocation_never_completes_example =
    relocation_never_completes trees-IsMap (at_sgw 8) env 7 9 35 ind refl (λ e. omega arith)
      (omega arith) refl refl (λ e. omega arith)

no_flag : get_ie_tv2 blank 77 0 ≡ missing
unfolding get_ie_tv2
no_flag = refl

no_flows : flows_removed (at_sgw 5) 9 ≡ some (at_sgw 5)
unfolding remove_downlink remove_uplink
no_flows = refl

session_remains_example :
    (r : Gw trees) × (m : Msg) × (handle_delete_of_established (at_sgw 5) env 9 ind ≡ some r)
    × (r.sent ≡ triggered_rsp sgw_s11 6 false 9 (put_cause env (only_cause env 16) m) ∷ [])
    × ((r.ulp 7).ue_sgw_session (imsi_key (λ _. 0)) ≡ none)
    × ((r.ue 9).state ≡ pgw_session_created)
session_remains_example =
    session_remains trees-IsMap (at_sgw 5) (at_sgw 5) env 9 77 ind blank refl no_flag no_flows
      (λ e. omega arith) refl refl

-- A response with the cause 94 and a bearer context that has the EBI 5.
abbrev response : Msg
response = record blank {
  is_ie_valid = λ i. if i == 8 then true else i == 372;
  p_ie = λ i. if i == 8 then 20 else 40;
  msg_buf = λ k.
      if k == 22
      then 2
      else if k == 24
      then 94
      else if k == 42
      then 5
      else if k == 44
      then 73
      else if k == 46
      then 1
      else if k == 48
      then 5
      else 0;
}

abbrev around : Environment
around = record env {
  unset_bearer = record env.unset_bearer {
    s5s8u_pgw = record no_fteid { teid_or_gre_key = 3; ipv4_addr = 17 };
  };
}

cause_read : get_ie_cause response 0 ≡ found (94, 0, none)
unfolding get_ie_cause load16
cause_read = refl

context_read :
    decode_created_bearer_context response around.unset_bearer ≡ (ie_ok, around.unset_bearer)
unfolding decode_created_bearer_context get_ie_tlv_p created_loop htons load16
context_read = refl

abbrev asked : Gw trees
asked = with_pgw (set_ue 9 ((at_sgw 6).ue 9) (at_sgw 6)) 9 around.unset_bearer

abbrev installed : Gw trees
installed = elim (install_uplink asked around 7 9 5) [ none ↦ asked | some s ↦ s ]

install-asked : install_uplink asked around 7 9 5 ≡ some installed
unfolding install_uplink create_gtpu_gtpu_flow create_flow create_tunnel_end_point
install-asked = refl

abbrev answer : Msg
answer = elim (acceptance around (installed.ue 9) 9 blank) [ none ↦ blank | some m ↦ m ]

answer-installed : acceptance around (installed.ue 9) 9 blank ≡ some answer
unfolding grouped_ie_start grouped_ie_end add_ie_fteid add_ie_tv1 add_ie_cause init
answer-installed = refl

refusal_told_as_acceptance_example :
    (r : Gw trees) × (handle_pgw_create_session_response
        (at_sgw 6)
        around
        9
        (record ind { msg = response })
      ≡ some r)
    × (r.sent
        ≡ triggered_rsp sgw_s11 6 true 9 (set_teid answer (installed.ue 9).s11c_mme.teid_or_gre_key)
          ∷ installed.sent)
    × ((r.ue 9).state ≡ sgw_session_created)
    × (r.sdp ≡ installed.sdp)
refusal_told_as_acceptance_example =
    refusal_told_as_acceptance around 9 77 blank answer (at_sgw 6) installed
      (record ind { msg = response }) 94 0 none around.unset_bearer refl cause_read
      (λ e. omega arith) context_read (omega arith) install-asked refl refl answer-installed
