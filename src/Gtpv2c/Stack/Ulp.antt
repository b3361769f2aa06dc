-- ===== src/Gtpv2c/Stack/Ulp.antt =====
-- nw-gtpv2c/src/NwGtpv2c.c and NwGtpv2cTunnel.c: tunnels, and the requests of the upper layer.
-- `none` is a failed assertion or a NULL that is used. The types of requests carry their flags in the top byte.
use Prim.Native.Nat.{bit_or}
use linkerepc.Prelude.{ℕ, ◌%◌, Option, none, some, ◌∷◌, ◌==◌, if◌then◌else◌, set}
use linkerepc.Gtpv2c.Msg.{Msg, write_header, set_seq_number}
use linkerepc.Gtpv2c.Stack.{
  Stack, TreeOps, Trxn, Tunnel, udp, Memory, emit, set_trxn, tx_key, tunnel_key,
}
use linkerepc.Gtpv2c.Stack.Transactions.{
  from_pool, new, with_seq_num_new, start_peer_rsp_wait_timer, start_duplicate_request_wait_timer,
}

-- `nwGtpv2cCreateAndSendMsg`: the header is written into the message.
unfoldable pub create_and_send_msg : {t : TreeOps} → Stack t → ℕ → ℕ → ℕ → Msg → Msg × Stack t
create_and_send_msg s seq_num peer_ip peer_port m =
    let sent = write_header m seq_num in
    (sent, emit (udp sent.msg_buf sent.msg_len peer_ip peer_port) s)

-- `nwGtpv2cTunnelNew`, with 0 for NULL, and `nwGtpv2cTunnelDelete`
unfoldable pub tunnel_new : {t : TreeOps} → Stack t → Memory → ℕ → ℕ → ℕ → ℕ × Stack t
tunnel_new s mem teid ipv4_addr_remote h_ulp_tunnel =
    let (p, pool) = from_pool s.tunnel_pool mem.new_tunnel in
    let x : Tunnel = record {
      teid = teid;
      ipv4_addr_remote = ipv4_addr_remote;
      h_ulp_tunnel = h_ulp_tunnel;
    } in
    if p == 0
    then (0, record s { tunnel_pool = pool })
    else (p, record s { tunnel_pool = pool; tunnel = set s.tunnel p x })

unfoldable pub tunnel_delete : {t : TreeOps} → Stack t → ℕ → Stack t
tunnel_delete s p = record s { tunnel_pool = p ∷ s.tunnel_pool }

-- `nwGtpv2cCreateLocalTunnel`: the handle, 0 without memory. A tunnel that exists is a failed assertion.
unfoldable pub create_local_tunnel :
    {t : TreeOps} → Stack t → Memory → ℕ → ℕ → ℕ → Option (ℕ × Stack t)
create_local_tunnel {t} s mem teid ipv4_remote h_ulp_tunnel =
    let (p, s1) = tunnel_new s mem teid ipv4_remote h_ulp_tunnel in
    let key = tunnel_key teid ipv4_remote in
    if p == 0 then some (0, s1) else elim (t.find s.tunnel_map key) [
      | none ↦ some (p, record s1 { tunnel_map = t.insert s.tunnel_map key p })
      | some c ↦ none
    ]

-- `nwGtpv2cDeleteLocalTunnel` of a tunnel that is in the tree.
unfoldable pub delete_local_tunnel : {t : TreeOps} → Stack t → ℕ → Stack t
delete_local_tunnel {t} s p =
    let x = s.tunnel p in
    tunnel_delete
      (record s { tunnel_map = t.remove s.tunnel_map (tunnel_key x.teid x.ipv4_addr_remote) }) p

-- `nwGtpv2cHandleUlpCreateLocalTunnel`: NW_FAILURE with the handle 0 for a tunnel that exists.
unfoldable pub handle_ulp_create_local_tunnel :
    {t : TreeOps} → Stack t → Memory → ℕ → ℕ → ℕ → Option (ℕ × Stack t)
handle_ulp_create_local_tunnel {t} s mem teid_local peer_ip h_ulp_tunnel =
    let (p, s1) = tunnel_new s mem teid_local peer_ip h_ulp_tunnel in
    let key = tunnel_key teid_local peer_ip in
    if p == 0 then none else elim (t.find s.tunnel_map key) [
      | none ↦ some (p, record s1 { tunnel_map = t.insert s.tunnel_map key p })
      | some c ↦ some (0, tunnel_delete s1 p)
    ]

-- `NwGtpv2cUlpApiT` of an initial request and its flags.
pub record InitialReq : Type 0 where
  pub flags : ℕ
  pub msg : Msg
  pub h_tunnel : ℕ
  pub teid_local : ℕ
  pub peer_ip : ℕ
  pub h_ulp_trxn : ℕ
  pub h_ulp_tunnel : ℕ

-- The tunnel of an initial request: the given one, or a new one.
abbrev pub request_tunnel : {t : TreeOps} → Stack t → Memory → InitialReq → Option (ℕ × Stack t)
request_tunnel s mem r =
    if r.h_tunnel == 0
    then create_local_tunnel s mem r.teid_local r.peer_ip r.h_ulp_tunnel
    else some (r.h_tunnel, s)

-- The sequence number that goes out. Any bit of the two lowest flags takes it for that of a command.
unfoldable pub command_seq : ℕ → ℕ → ℕ
command_seq flags seq_num = if flags % 4 == 0 then seq_num else bit_or seq_num 1048576

-- The transaction is sent, guarded and inserted. An outstanding one of the same key is a failed assertion.
unfoldable pub send_request : {t : TreeOps} → Stack t → ℕ → Trxn → Msg → ℕ → Option (Stack t)
send_request {t} s p x m timer =
    let (sent, s1) = create_and_send_msg s x.seq_num x.peer_ip x.peer_port m in
    let s2 = start_peer_rsp_wait_timer (set_trxn p (record x { p_msg = some sent }) s1) p timer in
    elim (t.find s.tx_map (tx_key x)) [
      | none ↦ some (record s2 { tx_map = t.insert s.tx_map (tx_key x) p })
      | some c ↦ none
    ]

-- `nwGtpv2cHandleUlpInitialReq`: whether it returns NW_OK, the tunnel's handle, and the state.
unfoldable pub handle_ulp_initial_req :
    {t : TreeOps} → Stack t → Memory → InitialReq → Option (ℕ × Stack t)
handle_ulp_initial_req {t} s mem r =
    let (p, s1) = new s mem in
    if p == 0 then some (0, s1) else elim (request_tunnel s1 mem r) [
      | none ↦ none
      | some (h, s2) ↦
          let x : Trxn = record (s2.trxn p) {
            h_tunnel = h;
            h_ulp_trxn = r.h_ulp_trxn;
            peer_ip = (s2.tunnel h).ipv4_addr_remote;
            peer_port = 2123;
            seq_num = command_seq r.flags (s2.trxn p).seq_num;
          } in
          if h == 0 then none else elim (send_request s2 p x r.msg mem.new_timer) [
            | none ↦ none
            | some s3 ↦ some (h, s3)
          ]
    ]

-- `nwGtpv2cHandleUlpTriggeredRsp` for the request `p`: the message is kept for duplicates of the
-- request. `flags` is the top byte of the type.
unfoldable pub handle_ulp_triggered_rsp :
    {t : TreeOps} → Stack t → Memory → ℕ → ℕ → Msg → ℕ → ℕ → Option (ℕ × Stack t)
handle_ulp_triggered_rsp {t} s mem flags p m teid_local h_ulp_tunnel =
    let x = s.trxn p in
    let named = if m.seq_num == 0 then set_seq_number m x.seq_num else m in
    let (sent, s1) = create_and_send_msg s x.seq_num x.peer_ip x.peer_port named in
    let s2 =
      start_duplicate_request_wait_timer (set_trxn p (record x { p_msg = some sent }) s1) p
        mem.new_timer in
    if p == 0
    then none
    else if flags == 1
    then create_local_tunnel s2 mem teid_local x.peer_ip h_ulp_tunnel
    else some (0, s2)

-- `nwGtpv2cHandleUlpTriggeredReq` for the request `req`, with the tunnel's handle. The result of the
-- insertion is not read.
unfoldable pub handle_ulp_triggered_req :
    {t : TreeOps} → Stack t → Memory → ℕ → InitialReq → Option (ℕ × Stack t)
handle_ulp_triggered_req {t} s mem req r =
    let (p, s1) = with_seq_num_new s mem r.msg.seq_num in
    let x : Trxn = record (s1.trxn p) {
      h_ulp_trxn = r.h_ulp_trxn;
      peer_ip = (s1.trxn req).peer_ip;
      peer_port = (s1.trxn req).peer_port;
    } in
    let (sent, s2) = create_and_send_msg s1 x.seq_num x.peer_ip x.peer_port r.msg in
    let s3 =
      start_peer_rsp_wait_timer (set_trxn p (record x { p_msg = some sent }) s2) p mem.new_timer in
    let inserted : Stack t = elim (t.find s.tx_map (tx_key x)) [
      | none ↦ record s3 { tx_map = t.insert s.tx_map (tx_key x) p }
      | some c ↦ s3
    ] in
    if p == 0
    then some (0, s1)
    else if r.h_tunnel == 0
    then create_local_tunnel inserted mem r.teid_local (s3.trxn req).peer_ip r.h_ulp_tunnel
    else some (r.h_tunnel, inserted)

-- `NwGtpv2cUlpApiT` as its type tells it apart, the flags in the top byte.
pub data UlpReq : Type 0 where
  initial_req : InitialReq → UlpReq
  triggered_req : ℕ → InitialReq → UlpReq
  triggered_rsp : ℕ → ℕ → Msg → ℕ → ℕ → UlpReq
  create_tunnel : ℕ → ℕ → ℕ → UlpReq
  delete_tunnel : ℕ → UlpReq
  other : UlpReq

-- `nwGtpv2cProcessUlpReq`: the handle of the tunnel that the request gets back, and the state. An
-- unknown request is NW_FAILURE and changes nothing.
unfoldable pub process_ulp_req : {t : TreeOps} → Stack t → Memory → UlpReq → Option (ℕ × Stack t)
process_ulp_req s mem (initial_req r) = handle_ulp_initial_req s mem r
process_ulp_req s mem (triggered_req req r) = handle_ulp_triggered_req s mem req r
process_ulp_req s mem (triggered_rsp flags p m teid_local h_ulp_tunnel) =
    handle_ulp_triggered_rsp s mem flags p m teid_local h_ulp_tunnel
process_ulp_req s mem (create_tunnel teid_local peer_ip h_ulp_tunnel) =
    handle_ulp_create_local_tunnel s mem teid_local peer_ip h_ulp_tunnel
process_ulp_req s mem (delete_tunnel h) = some (h, delete_local_tunnel s h)
process_ulp_req s mem other = some (0, s)
