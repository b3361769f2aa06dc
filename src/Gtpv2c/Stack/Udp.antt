-- ===== src/Gtpv2c/Stack/Udp.antt =====
-- nw-gtpv2c/src/NwGtpv2c.c: the messages of the peers. `none` is a failed assertion.
use linkerepc.Prelude.{
  ℕ, ◌+◌, ◌/◌, ◌%◌, Bool, ◌||◌, not, Option, none, some, ◌==◌, if◌then◌else◌, ltb, u8, htons, htonl,
}
use linkerepc.Bytes.{Buffer, load16, load32}
use linkerepc.Gtpv2c.Msg.{Msg, from_buffer_new}
use linkerepc.Gtpv2c.Msg.Encode.{add_ie_tv1}
use linkerepc.Gtpv2c.ParseInfo.{
  Parsed, accepted, rejected, aborted, read_behind_row, never_ends, ParseInfo, parse,
  parse_info_new,
}
use linkerepc.Gtpv2c.Stack.{
  Stack, TreeOps, initial_req_ind, triggered_rsp_ind, Memory, emit, tx_key, tunnel_key,
}
use linkerepc.Gtpv2c.Stack.Transactions.{delete, outstanding_rx_new, ulp_tunnel}
use linkerepc.Gtpv2c.Stack.Ulp.{create_and_send_msg}

-- `ntohl(*((NwU32T*)(msgBuf + ...))) >> 8`, and whether the TEID is present.
abbrev pub has_teid : Buffer → Bool
has_teid b = not (b 0 / 8 % 2 == 0)

abbrev pub seq_word : Buffer → ℕ
seq_word b = load32 b (if has_teid b then 8 else 4)

unfoldable pub seq_of : Buffer → ℕ
seq_of b = htonl (seq_word b) / 256

-- `nwGtpv2cMsgNew`, a change of the message, sending it and `nwGtpv2cMsgDelete`, as the two answers below do.
abbrev answer : {t : TreeOps} → Stack t → Memory → ℕ → ℕ → (Msg → Msg) → ℕ → ℕ → Option (Stack t)
answer s mem msg_type seq_num fill peer_ip peer_port =
    let (made, pool) = linkerepc.Gtpv2c.Msg.new s.msg_pool mem.new_msg 0 msg_type 0 seq_num in
    elim made [
      | none ↦ none
      | some m ↦
          let (sent, s1) = create_and_send_msg s seq_num peer_ip peer_port (fill m) in
          some (record s1 { msg_pool = linkerepc.Gtpv2c.Msg.delete pool sent })
    ]

-- `nwGtpv2cSendVersionNotSupportedInd`
unfoldable pub send_version_not_supported_ind :
    {t : TreeOps} → Stack t → Memory → ℕ → ℕ → ℕ → Option (Stack t)
send_version_not_supported_ind s mem peer_ip peer_port seq_num =
    answer s mem 3 seq_num (λ m. m) peer_ip peer_port

-- `nwGtpv2cHandleEchoReq`
unfoldable pub handle_echo_req :
    {t : TreeOps} → Stack t → Memory → Buffer → ℕ → ℕ → Option (Stack t)
handle_echo_req s mem b peer_port peer_ip =
    answer s mem 2 (seq_of b) (λ m. add_ie_tv1 m 3 0 (u8 s.restart_counter)) peer_ip peer_port

-- `nwGtpv2cMsgFromBufferNew` and `nwGtpv2cMsgIeParse` with the parse info of the type. Without memory for
-- the message, or without a parse info, or where the parser fails an assertion, there is none.
abbrev settled : Parsed → Option Parsed
settled (accepted q) = some (accepted q)
settled (rejected c y i q) = some (rejected c y i q)
settled aborted = none
settled read_behind_row = none
settled never_ends = none

abbrev parse_as : Option Msg → Option ParseInfo → Option Parsed
parse_as none info = none
parse_as (some m) none = none
parse_as (some m) (some info) = settled (parse info m)

abbrev pub with_state : {t : TreeOps} → Stack t → Option Parsed → Option (Parsed × Stack t)
with_state s none = none
with_state s (some r) = some (r, s)

unfoldable pub received :
    {t : TreeOps} → Stack t → Memory → ℕ → Buffer → ℕ → Option (Parsed × Stack t)
received s mem msg_type b len =
    let (made, pool) = from_buffer_new s.msg_pool mem.new_msg b len in
    with_state (record s { msg_pool = pool }) (parse_as made (parse_info_new msg_type))

-- The tunnel of a request: `none` if its TEID is not of a tunnel with the peer; the handle of the upper
-- layer, 0 without TEID.
unfoldable pub request_target : {t : TreeOps} → Stack t → Buffer → ℕ → Option ℕ
request_target {t} s b peer_ip =
    let teid_local = load32 b 4 in
    if teid_local == 0
    then some 0
    else elim (t.find s.tunnel_map (tunnel_key (htonl teid_local) peer_ip)) [
      | none ↦ none
      | some p ↦ some (s.tunnel p).h_ulp_tunnel
    ]

-- `nwGtpv2cHandleInitialReq`
unfoldable pub handle_initial_req :
    {t : TreeOps} → Stack t → Memory → ℕ → Buffer → ℕ → ℕ → ℕ → Option (Stack t)
handle_initial_req s mem msg_type b len peer_port peer_ip = elim (request_target s b peer_ip) [
  | none ↦ some s
  | some target ↦
      let (p, s1) = outstanding_rx_new s mem peer_ip peer_port (seq_of b) in
      if p == 0 then some s1 else elim (received s1 mem msg_type b len) [
        | none ↦ none
        | some (r, s2) ↦ some (emit (initial_req_ind msg_type p target peer_ip peer_port r) s2)
      ]
]

-- `nwGtpv2cHandleTriggeredRsp`: telling the upper layer, the branch of a response that matches the
-- transaction `p`, and the function.
abbrev pub tell_rsp : {t : TreeOps} → ℕ → ℕ → ℕ → Option (Parsed × Stack t) → Option (Stack t)
tell_rsp y h_ulp_trxn h_ulp_tunnel none = none
tell_rsp y h_ulp_trxn h_ulp_tunnel (some (r, s)) =
    some (emit (triggered_rsp_ind y h_ulp_trxn h_ulp_tunnel r) s)

abbrev pub unlink : {t : TreeOps} → Stack t → ℕ → Stack t
unlink {t} s p = delete (record s { tx_map = t.remove s.tx_map (tx_key (s.trxn p)) }) p

abbrev pub match_rsp :
    {t : TreeOps} → Stack t → Memory → ℕ → Buffer → ℕ → Option ℕ → Option (Stack t)
match_rsp s mem y b len none = some s
match_rsp s mem y b len (some p) =
    tell_rsp y (s.trxn p).h_ulp_trxn (ulp_tunnel s (s.trxn p).h_tunnel)
      (received (unlink s p) mem y b len)

unfoldable pub handle_triggered_rsp :
    {t : TreeOps} → Stack t → Memory → ℕ → Buffer → ℕ → ℕ → Option (Stack t)
handle_triggered_rsp {t} s mem msg_type b len peer_ip =
    match_rsp s mem msg_type b len
      (t.find s.tx_map (record { number = seq_of b; peer_ip = peer_ip; peer_port = 0 }))

abbrev pub is_initial_req : ℕ → Bool
is_initial_req y = (y == 32) || (y == 34) || (y == 36) || (y == 95) || (y == 97) || (y == 99)

abbrev pub is_triggered_rsp : ℕ → Bool
is_triggered_rsp y =
    (y == 2) || (y == 33) || (y == 35) || (y == 37) || (y == 96) || (y == 98) || (y == 100)

-- `nwGtpv2cProcessUdpReq`
unfoldable pub process_udp_req :
    {t : TreeOps} → Stack t → Memory → Buffer → ℕ → ℕ → ℕ → Option (Stack t)
process_udp_req s mem b len peer_port peer_ip =
    let msg_type = b 1 in
    if ltb len 8
    then some s
    else if ltb len (htons (load16 b 2) + (if has_teid b then 4 else 0))
    then some s
    else if not (b 0 / 32 % 8 == 2)
    then send_version_not_supported_ind s mem peer_ip peer_port (seq_word b)
    else if msg_type == 1
    then handle_echo_req s mem b peer_port peer_ip
    else if is_initial_req msg_type
    then handle_initial_req s mem msg_type b len peer_port peer_ip
    else if is_triggered_rsp msg_type
    then handle_triggered_rsp s mem msg_type b len peer_ip
    else some s
