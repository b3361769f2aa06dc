-- ===== src/Sdp.antt =====
-- nw-sdp/src: the service data plane (NwSdp.c and NwSdpFlowContext.c), which forwards packets between its GTPv1-U
-- and IPv4 stacks. It has both services and no GRE service. Flow contexts are pointers with 0 for NULL; the static
-- pool stands with the state. `none` is a failed assertion. The stacks call the data plane back as the
-- last step of what they do with a packet: what they put out for it is taken from their outputs and
-- handled next.
pub mod Downlink
pub mod Uplink
mod Reply
pub mod Ping
mod Tests
use linkerepc.Prelude.{
  ℕ, Bool, true, not, Option, none, some, List, [], ◌∷◌, ◌++◌, ◌+◌, ltb, ◌==◌, if◌then◌else◌, u16,
  set,
}
use linkerepc.Trees.{TreeOps}
use linkerepc.Bytes.{Buffer, copy}
use linkerepc.Gtpv1u.Msg.{get_tpdu_handle, get_tpdu_length}
use linkerepc.Gtpv1u.Stack as Gtpu
use linkerepc.Gtpv1u.Stack.{
  Rc, ok, failure, unset, Output, udp, start_timer, stop_timer, recv_tpdu, recv_msg, rsp_failure,
}
use linkerepc.Gtpv1u.Stack.Storage.{from_pool, gpdu_msg_new, msg_from_msg_new, msg_delete}
use linkerepc.Gtpv1u.Stack.Ulp.{create_tunnel_end_point, destroy_tunnel_end_point, sendto}
use linkerepc.Gtpv1u.Stack.Udp.{process_udp_req}
use linkerepc.Ipv4

-- `NwSdpFlowEndPointTypeT`, and any other number.
pub data FlowType : Type 0 where
  ipv4 gre gtpu udp_port unknown : FlowType

-- `NwSdpFlowEndPointT`: the key is a TEID, a GRE key or an address.
pub record EndPoint : Type 0 where
  pub ipv4_addr : ℕ
  pub flow_type : FlowType
  pub flow_key : ℕ
  pub h_tunnel_end_point : ℕ

-- `NwSdpFlowContextT`
pub record FlowContext : Type 0 where
  pub ingress : EndPoint
  pub egress : EndPoint

-- `NwSdpT`
pub record Sdp (t : TreeOps) : Type 0 where
  pub gtpu_stack : Gtpu.Stack t
  pub ipv4_stack : Ipv4.Stack t
  pub flow : ℕ → FlowContext
  pub flow_pool : List ℕ

-- The pointer of the allocator for a flow, and the environments of the calls of the stacks: the one that a
-- packet comes from, and the one that it is sent with.
pub record Environment : Type 0 where
  pub new_flow : ℕ
  pub from_gtpu : Gtpu.Environment
  pub to_gtpu : Gtpu.Environment
  pub from_ipv4 : Ipv4.Environment
  pub to_ipv4 : Ipv4.Environment

-- `nwSdpCreateFlowEndPoint` for the flow `f`: the handle, and the state. What the IPv4 and GTPv1-U stacks
-- return is not looked at; the end point of another type is not made, and its handle stays.
abbrev pub with_gtpu : {t : TreeOps} → Sdp t → Option (Rc × ℕ × Gtpu.Stack t) → Option (ℕ × Sdp t)
with_gtpu s none = none
with_gtpu s (some (rc, h, g)) = some (h, record s { gtpu_stack = g })

abbrev pub create_flow_end_point :
    {t : TreeOps} → Sdp t → Environment → ℕ → EndPoint → FlowType → Option (ℕ × Sdp t)
create_flow_end_point s env f e ipv4 =
    let (rc, h, i) = Ipv4.create_tunnel_end_point s.ipv4_stack env.to_ipv4 e.flow_key f in
    some (h, record s { ipv4_stack = i })
create_flow_end_point s env f e gtpu =
    with_gtpu s (create_tunnel_end_point s.gtpu_stack env.to_gtpu e.flow_key f)
create_flow_end_point s env f e gre = some (e.h_tunnel_end_point, s)
create_flow_end_point s env f e udp_port = some (e.h_tunnel_end_point, s)
create_flow_end_point s env f e unknown = none

-- `nwSdpCreateFlow`: the handle of the flow.
abbrev pub bind {ℓ κ} : {A : Type ℓ} {B : Type κ} → Option A → (A → Option B) → Option B
bind none f = none
bind (some a) f = f a

-- A GTP-U end point must have an address.
abbrev pub has_address : EndPoint → FlowType → Bool
has_address e gtpu = not (e.ipv4_addr == 0)
has_address e ipv4 = true
has_address e gre = true
has_address e udp_port = true
has_address e unknown = true

unfoldable pub create_flow :
    {t : TreeOps} → Sdp t → Environment → EndPoint → EndPoint → Option (ℕ × Sdp t)
create_flow s env ingress egress =
    let (f, pool) = from_pool s.flow_pool env.new_flow in
    let x : FlowContext = record { ingress = ingress; egress = egress } in
    let s1 : Sdp _ = record s { flow_pool = pool; flow = set s.flow f x } in
    if f == 0
    then none
    else if has_address egress egress.flow_type
    then bind (create_flow_end_point s1 env f ingress ingress.flow_type) (λ (h, s2). some (
      f,
      record s2 {
        flow = set s2.flow f (record x { ingress = record ingress { h_tunnel_end_point = h } });
      },
    ))
    else none

-- `nwSdpDestroyFlowEndPoint`, `nwSdpDestroyFlow`
abbrev pub with_ipv4 : {t : TreeOps} → Sdp t → Option (Ipv4.Stack t) → Option (Sdp t)
with_ipv4 s none = none
with_ipv4 s (some i) = some (record s { ipv4_stack = i })

abbrev pub destroy_flow_end_point : {t : TreeOps} → Sdp t → ℕ → FlowType → Option (Sdp t)
destroy_flow_end_point s h ipv4 =
    if h == 0 then some s else with_ipv4 s (Ipv4.destroy_tunnel_end_point s.ipv4_stack h)
destroy_flow_end_point s h gtpu =
    some (record s { gtpu_stack = destroy_tunnel_end_point s.gtpu_stack h })
destroy_flow_end_point s h gre = some s
destroy_flow_end_point s h udp_port = some s
destroy_flow_end_point s h unknown = none

unfoldable pub destroy_flow : {t : TreeOps} → Sdp t → ℕ → Option (Sdp t)
destroy_flow s f =
    let e = (s.flow f).ingress in
    bind (destroy_flow_end_point s e.h_tunnel_end_point e.flow_type)
      λ r. some (record r { flow_pool = f ∷ r.flow_pool })

-- A message is sent over the GTPv1-U or the IPv4 stack and deleted; a result other than OK is a failed
-- assertion.
abbrev pub sent_gtpu : {t : TreeOps} → Sdp t → ℕ → Rc × Gtpu.Stack t → Option (Sdp t)
sent_gtpu s h (ok, g) = some (record s { gtpu_stack = msg_delete g h })
sent_gtpu s h (failure, g) = none
sent_gtpu s h (unset, g) = none

abbrev pub send_over_gtpu :
    {t : TreeOps} → Sdp t → Environment → EndPoint → ℕ × Gtpu.Stack t → Option (Sdp t)
send_over_gtpu s env e (h, g) =
    if h == 0 then none else sent_gtpu s h (sendto g env.to_gtpu e.flow_key e.ipv4_addr h)

abbrev pub sent_ipv4 : {t : TreeOps} → Sdp t → ℕ → Rc × Ipv4.Stack t → Option (Sdp t)
sent_ipv4 s h (ok, i) = some (record s { ipv4_stack = Ipv4.msg_delete i h })
sent_ipv4 s h (failure, i) = none
sent_ipv4 s h (unset, i) = none

-- `nwSdpProcessIpv4DataIndication`: a packet of the IPv4 stack for an egress end point.
abbrev pub process_ipv4_data_indication :
    {t : TreeOps} → Sdp t → Environment → EndPoint → ℕ → FlowType → Option (Sdp t)
process_ipv4_data_indication s env e h_msg gtpu =
    let m = s.ipv4_stack.msg h_msg in
    if e.ipv4_addr == 0
    then none
    else send_over_gtpu s env e
        (gpdu_msg_new s.gtpu_stack env.to_gtpu e.flow_key 0 0 m.msg_buf (u16 m.msg_len))
process_ipv4_data_indication s env e h_msg ipv4 = some s
process_ipv4_data_indication s env e h_msg gre = some s
process_ipv4_data_indication s env e h_msg udp_port = some s
process_ipv4_data_indication s env e h_msg unknown = some s

-- `nwSdpProcessIpv4StackReqCallback`, which deletes the message. A call without a message deletes a handle that is
-- not set.
abbrev pub ipv4_called : {t : TreeOps} → Environment → Ipv4.Output → Sdp t → Option (Sdp t)
ipv4_called env (Ipv4.recv_tpdu f (some h)) s =
    let e = (s.flow f).egress in
    bind (process_ipv4_data_indication s env e h e.flow_type)
      λ r. some (record r { ipv4_stack = Ipv4.msg_delete r.ipv4_stack h })
ipv4_called env (Ipv4.recv_tpdu f none) s = none
ipv4_called env (Ipv4.data_req b n) s = some s
ipv4_called env (Ipv4.arp_req op target sender) s = some s

-- The calls that a stack has put out, the last one first, are made.
abbrev pub calls {ℓ} :
    {t : TreeOps} {A : Type ℓ} → (A → Sdp t → Option (Sdp t)) → List A → Sdp t → Option (Sdp t)
calls f [] s = some s
calls f (o ∷ os) s = bind (calls f os s) (f o)

-- `nwSdpProcessIpv4DataInd`
unfoldable pub process_ipv4_data_ind :
    {t : TreeOps} → Sdp t → Environment → ℕ → Buffer → ℕ → Option (Sdp t)
process_ipv4_data_ind s env buf_addr buf len =
    let i =
      (Ipv4.process_pdu (record s.ipv4_stack { out = [] }) env.from_ipv4 buf_addr buf len).1 in
    calls (ipv4_called env) i.out
      (record s { ipv4_stack = record i { out = i.out ++ s.ipv4_stack.out } })

-- The answer to a ping (NW_SDP_RESPOND_ICMP_PING is defined): the type of the ICMP message, byte 20 of an IPv4
-- header without options, becomes 0, in the message too, the addresses are swapped, and up to 1024 bytes of it
-- are handled as a frame from the IPv4 side. Bytes 0 to 11 of the frame are not set, and not read; its address is
-- read for the ARP only.
abbrev pub ping_packet : Ipv4.Msg → Buffer
ping_packet m = λ k. if k == 20 then 0 else m.msg_buf k

abbrev pub ping_length : Ipv4.Msg → ℕ
ping_length m = if ltb m.msg_len 1024 then m.msg_len else 1024

abbrev pub ping_frame : Ipv4.Msg → Buffer
ping_frame m =
    let typed : Buffer = λ k. if k == 12 then 8 else 0 in
    let filled = copy typed 14 (ping_packet m) (ping_length m) in
    copy (copy filled 30 (λ k. ping_packet m (12 + k)) 4) 26 (λ k. ping_packet m (16 + k)) 4

abbrev pub answer_ping : {t : TreeOps} → Sdp t → Environment → ℕ → Ipv4.Stack t → Option (Sdp t)
answer_ping s env h i =
    let m = i.msg h in
    let zeroed : Ipv4.Msg = record m { msg_buf = ping_packet m } in
    bind
      (process_ipv4_data_ind (record s { ipv4_stack = record i { msg = set i.msg h zeroed } }) env 0
        (ping_frame m) (ping_length m + 14))
      λ z. some (record z { ipv4_stack = Ipv4.msg_delete z.ipv4_stack h })

-- A message is answered, if its byte 20 is that of a ping, or sent, and it is deleted.
abbrev pub send_over_ipv4 : {t : TreeOps} → Sdp t → Environment → ℕ × Ipv4.Stack t → Option (Sdp t)
send_over_ipv4 s env (h, i) =
    if h == 0
    then none
    else if (i.msg h).msg_buf 20 == 8
    then answer_ping s env h i
    else sent_ipv4 s h (Ipv4.sendto i env.to_ipv4 h)

-- `nwSdpProcessGtpuDataIndication`: a payload of the GTPv1-U stack for an egress end point.
abbrev pub process_gtpu_data_indication :
    {t : TreeOps} → Sdp t → Environment → EndPoint → ℕ → FlowType → Option (Sdp t)
process_gtpu_data_indication s env e h_msg ipv4 =
    let m = s.gtpu_stack.msg h_msg in
    send_over_ipv4 s env
      (Ipv4.msg_from_buffer_new s.ipv4_stack env.to_ipv4 (get_tpdu_handle m) (get_tpdu_length m))
process_gtpu_data_indication s env e h_msg gtpu =
    send_over_gtpu s env e (msg_from_msg_new s.gtpu_stack env.to_gtpu h_msg)
process_gtpu_data_indication s env e h_msg gre = some s
process_gtpu_data_indication s env e h_msg udp_port = some s
process_gtpu_data_indication s env e h_msg unknown = some s

-- `nwSdpProcessGtpv1uStackReqCallback`, in the same way.
abbrev pub gtpu_called : {t : TreeOps} → Environment → Output → Sdp t → Option (Sdp t)
gtpu_called env (recv_tpdu f teid h) s =
    let e = (s.flow f).egress in
    bind (process_gtpu_data_indication s env e h e.flow_type)
      λ r. some (record r { gtpu_stack = msg_delete r.gtpu_stack h })
gtpu_called env (recv_msg type ip port (some h)) s =
    some (record s { gtpu_stack = msg_delete s.gtpu_stack h })
gtpu_called env (recv_msg type ip port none) s = none
gtpu_called env (rsp_failure type trxn ip port) s = none
gtpu_called env (udp b n ip port) s = some s
gtpu_called env (start_timer sec trxn) s = some s
gtpu_called env (stop_timer h) s = some s

-- `nwSdpProcessGtpuDataInd`
unfoldable pub process_gtpu_data_ind :
    {t : TreeOps} → Sdp t → Environment → Buffer → ℕ → ℕ → ℕ → Option (Sdp t)
process_gtpu_data_ind s env buf len peer_port peer_ip =
    bind
      (process_udp_req (record s.gtpu_stack { out = [] }) env.from_gtpu buf len peer_port peer_ip)
      λ (rc, g).
        calls (gtpu_called env) g.out
          (record s { gtpu_stack = record g { out = g.out ++ s.gtpu_stack.out } })
