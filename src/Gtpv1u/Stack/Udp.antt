-- ===== src/Gtpv1u/Stack/Udp.antt =====
-- nw-gtpv1u/src/NwGtpv1u.c: the messages of peers. `none` is a failed assertion.
use linkerepc.Prelude.{ℕ, ◌/◌, ◌%◌, Option, none, some, ◌==◌, if◌then◌else◌, u16, htons, htonl}
use linkerepc.Bytes.{Buffer, load16, load32}
use linkerepc.Gtpv1u.Msg.{NewMsg, add_ie_tv1}
use linkerepc.Gtpv1u.Stack.{
  Stack, TreeOps, Rc, ok, failure, unset, recv_tpdu, recv_msg, Environment, emit, tunnel_key,
}
use linkerepc.Gtpv1u.Stack.Storage.{msg_new, msg_from_buffer_new, msg_delete, set_msg}
use linkerepc.Gtpv1u.Stack.Ulp.{create_and_send_msg}

-- `nwGtpv1uSendUlpMessageIndication`: the length is cut to 16 bits.
unfoldable pub send_ulp_message_indication :
    {t : TreeOps} → Stack t → Environment → ℕ → ℕ → ℕ → Buffer → ℕ → Option (Rc × Stack t)
send_ulp_message_indication s env msg_type peer_ip peer_port buf len =
    let (h, s1) = msg_from_buffer_new s env buf (u16 len) in
    if u16 len == 0
    then some (ok, emit (recv_msg msg_type peer_ip peer_port none) s)
    else if h == 0
    then none
    else some (ok, emit (recv_msg msg_type peer_ip peer_port (some h)) s1)

-- `nwGtpSessionSendMsgApiToUlpEntity`
abbrev pub send_msg_to_ulp : {t : TreeOps} → Stack t → ℕ → ℕ → Stack t
send_msg_to_ulp s p h_msg = let x = s.tunnel p in emit (recv_tpdu x.h_ulp_session x.teid h_msg) s

-- `nwGtpv1uProcessGpdu`: without a tunnel the result is not set.
abbrev pub deliver : {t : TreeOps} → Stack t → Environment → Buffer → ℕ → Option ℕ → Rc × Stack t
deliver s env gpdu len none = (unset, s)
deliver s env gpdu len (some p) =
    let (h, s1) = msg_from_buffer_new s env gpdu len in
    if h == 0 then (failure, s1) else (ok, send_msg_to_ulp s1 p h)

unfoldable pub process_gpdu : {t : TreeOps} → Stack t → Environment → Buffer → ℕ → Rc × Stack t
process_gpdu {t} s env gpdu len =
    deliver s env gpdu len (t.find s.teid_map (tunnel_key (htonl (load32 gpdu 4))))

-- `nwGtpv1uHandleEchoReq`: the sequence number that is answered, the response, and the function.
abbrev pub echo_seq : Buffer → ℕ
echo_seq buf = htons (load16 buf (if buf 0 / 2 % 2 == 0 then 4 else 8))

abbrev pub echo_rsp : ℕ → NewMsg
echo_rsp seq_num = record {
  seq_num_flag = 1;
  npdu_num_flag = 0;
  ext_hdr_flag = 0;
  msg_type = 2;
  teid = 0;
  seq_num = seq_num;
  npdu_num = 0;
  next_ext_header = 0;
}

unfoldable pub handle_echo_req :
    {t : TreeOps} → Stack t → Environment → Buffer → ℕ → ℕ → Option (Rc × Stack t)
handle_echo_req s env buf peer_port peer_ip =
    let (h, s1) = msg_new s env (echo_rsp (echo_seq buf)) in
    let filled = set_msg h (add_ie_tv1 (s1.msg h) 14 0) s1 in
    if h == 0
    then none
    else some (ok, msg_delete (create_and_send_msg filled peer_ip peer_port h) h)

-- `nwGtpv1uProcessUdpReq`
unfoldable pub process_udp_req :
    {t : TreeOps} → Stack t → Environment → Buffer → ℕ → ℕ → ℕ → Option (Rc × Stack t)
process_udp_req s env buf len peer_port peer_ip =
    if buf 1 == 1
    then handle_echo_req s env buf peer_port peer_ip
    else if buf 1 == 26
    then send_ulp_message_indication s env 26 peer_ip peer_port buf len
    else if buf 1 == 2
    then some (ok, s)
    else if buf 1 == 255
    then some (process_gpdu s env buf len)
    else none
