-- ===== src/Sdp/Tests.antt =====
-- The data plane over functions as trees: a packet to a user, and one from it.
use linkerepc.Prelude.{
  ℕ, ◌+◌, ◌-◌, ◌≡◌, ◌<◌, refl, arith, none, some, [], ◌∷◌, ◌==◌, true, leb, if◌then◌else◌, htons,
  htonl, set,
}
use linkerepc.Trees.{trees}
use linkerepc.Bytes.{Buffer, load16, load32}
use linkerepc.Gtpv1u.Msg.{Msg, receive}
use linkerepc.Gtpv1u.Msg.Payload.{Carried}
use linkerepc.Gtpv1u.Stack as Gtpu
use linkerepc.Gtpv1u.Stack.{ok, Trxn, tunnel_key, udp, recv_tpdu}
use linkerepc.Gtpv1u.Stack.Ulp.{create_tunnel_end_point}
use linkerepc.Ipv4
use linkerepc.Sdp.{
  Sdp, Environment, EndPoint, ipv4, gtpu, create_flow, process_ipv4_data_ind, process_gtpu_data_ind,
}
use linkerepc.Sdp.Downlink.{downlink_forwarded}
use linkerepc.Sdp.Reply.{reply_of}
use linkerepc.Sdp.Ping.{ping_answered}
use linkerepc.Sdp.Uplink.{header_of, uplink_forwarded}

abbrev message : Msg
message = record {
  version = 1;
  protocol_type = 1;
  ext_hdr_flag = 0;
  seq_num_flag = 0;
  npdu_num_flag = 0;
  msg_type = 255;
  msg_len = 8;
  teid = 0;
  seq_num = 0;
  npdu_num = 0;
  next_ext_hdr_type = 0;
  msg_buf = λ _. 0;
}

abbrev no_trxn : Trxn
no_trxn = record {
  seq_num = 0;
  peer_ip = 0;
  peer_port = 0;
  max_retries = 0;
  t3_timer = 0;
  h_rsp_tmr = 0;
  h_ulp_trxn = 0;
  p_msg = 0;
}

abbrev gtpu_stack : Gtpu.Stack trees
gtpu_stack = record {
  seq = 0;
  tx_map = λ _. none;
  teid_map = λ _. none;
  msg = λ _. message;
  trxn = λ _. no_trxn;
  tunnel = λ _. record { teid = 0; h_ulp_session = 0 };
  msg_pool = [];
  trxn_pool = [];
  tunnel_pool = [];
  out = [];
}

abbrev ipv4_stack : Ipv4.Stack trees
ipv4_stack = record {
  is_downlink = true;
  addr_map = λ _. none;
  msg = λ _. record { msg_buf = λ _. 0; msg_len = 0 };
  tunnel = λ _. record { ipv4_addr = 0; h_ulp_session = 0 };
  msg_pool = [];
  tunnel_pool = [];
  out = [];
}

-- The address of the user, the TEID of the gateway, and the TEID and the address of the base station.
abbrev user : EndPoint
user = record { ipv4_addr = 0; flow_type = ipv4; flow_key = 17; h_tunnel_end_point = 0 }

abbrev gateway : EndPoint
gateway = record { ipv4_addr = 0; flow_type = gtpu; flow_key = 9; h_tunnel_end_point = 0 }

abbrev station : EndPoint
station = record { ipv4_addr = 167772161; flow_type = gtpu; flow_key = 5; h_tunnel_end_point = 0 }

abbrev empty : Sdp trees
empty = record {
  gtpu_stack = gtpu_stack;
  ipv4_stack = ipv4_stack;
  flow = λ _. record { ingress = user; egress = user };
  flow_pool = [];
}

abbrev env : ℕ → Environment
env f = record {
  new_flow = f;
  from_gtpu = record { new_msg = 1; new_trxn = 2; new_tunnel = 3; new_timer = 4; udp_rc = ok };
  to_gtpu = record { new_msg = 5; new_trxn = 6; new_tunnel = 7; new_timer = 8; udp_rc = ok };
  from_ipv4 = record { new_msg = 1; new_tunnel = 2; llp_rc = ok };
  to_ipv4 = record { new_msg = 3; new_tunnel = 4; llp_rc = ok };
}

-- The flow 40 to the user, and the flow 41 from it.
abbrev down : Sdp trees
down = record empty {
  flow =
      set (set empty.flow 40 (record { ingress = user; egress = station })) 40
        (record { ingress = record user { h_tunnel_end_point = 4 }; egress = station });
  ipv4_stack = record ipv4_stack {
    tunnel = set ipv4_stack.tunnel 4 (record { ipv4_addr = 17; h_ulp_session = 40 });
    addr_map = trees.insert ipv4_stack.addr_map (Ipv4.addr_key 17) 4;
    out = Ipv4.arp_req 1 17 17 ∷ [];
  };
}

down-created : create_flow empty (env 40) user station ≡ some (40, down)
unfolding create_flow Ipv4.create_tunnel_end_point
down-created = refl

abbrev up : Sdp trees
up = record empty {
  flow =
      set (set empty.flow 41 (record { ingress = gateway; egress = user })) 41
        (record { ingress = record gateway { h_tunnel_end_point = 7 }; egress = user });
  gtpu_stack = record gtpu_stack {
    tunnel = set gtpu_stack.tunnel 7 (record { teid = 9; h_ulp_session = 41 });
    teid_map = trees.insert gtpu_stack.teid_map (tunnel_key 9) 7;
  };
}

up-created :
    create_flow empty
      (record (env 41) { to_gtpu = record (env 41).to_gtpu { new_tunnel = 7 } })
      gateway
      user
    ≡ some (41, up)
unfolding create_flow create_tunnel_end_point
up-created = refl

-- The address 17 is in the frame; the TEID 9 is in the datagram.
abbrev frame : Buffer
frame = λ k. if k == 12 then 8 else if k == 30 then 17 else 0

abbrev datagram : Buffer
datagram = λ k.
    if k == 0 then 48 else if k == 1 then 255 else if k == 7 then 9 else if leb 8 k then k else 0

frame-type : load16 frame 12 ≡ htons 2048
unfolding load16 htons
frame-type = refl

frame-addr : trees.find down.ipv4_stack.addr_map (Ipv4.addr_key (load32 frame 30)) ≡ some 4
unfolding load32
frame-addr = refl

datagram-teid : trees.find up.gtpu_stack.teid_map (tunnel_key (htonl (load32 datagram 4))) ≡ some 7
unfolding load32 htonl
datagram-teid = refl

downlink_forwarded_example :
    (r : Sdp trees) × (b : Buffer) × (l : ℕ) × (process_ipv4_data_ind down (env 0) 0 frame 100
      ≡ some r)
    × (r.gtpu_stack.out ≡ udp b l 167772161 2152 ∷ [])
    × ((m : Msg) → Carried 5 m.seq_num 86 (λ k. frame (14 + k)) (receive m b l))
    × (r.gtpu_stack.msg_pool ≡ 5 ∷ [])
    × (r.ipv4_stack.msg_pool ≡ 1 ∷ [])
downlink_forwarded_example =
    downlink_forwarded down (env 0) 0 frame 100 4 frame-type refl frame-addr refl (omega arith)
      (omega arith) (omega arith) (omega arith) (omega arith) (omega arith) refl

uplink_forwarded_example :
    (r : Sdp trees) × (b : Buffer) × (process_gtpu_data_ind up (env 0) datagram 100 2152 167772161
      ≡ some r)
    × (r.ipv4_stack.out ≡ Ipv4.data_req b (100 - header_of datagram) ∷ [])
    × ((k : ℕ) → k < 100 - header_of datagram → b k ≡ datagram (header_of datagram + k))
    × (r.gtpu_stack.msg_pool ≡ 1 ∷ [])
    × (r.ipv4_stack.msg_pool ≡ 3 ∷ [])
uplink_forwarded_example =
    uplink_forwarded up (env 0) datagram 100 2152 167772161 7 refl datagram-teid refl (omega arith)
      (omega arith) (omega arith) (omega arith) refl (λ l e. absurd (omega arith))
      (λ l e. absurd (omega arith))

-- Both flows at once, and a ping of the user through the gateway.
abbrev both : Sdp trees
both = record up {
  flow =
      set up.flow 40
        (record { ingress = record user { h_tunnel_end_point = 4 }; egress = station });
  ipv4_stack = down.ipv4_stack;
}

abbrev ping : Buffer
ping = λ k.
    if k == 0
    then 48
    else if k == 1
    then 255
    else if k == 7
    then 9
    else if k == 20
    then 17
    else if k == 28
    then 8
    else if leb 24 k
    then k
    else 0

ping-teid : trees.find both.gtpu_stack.teid_map (tunnel_key (htonl (load32 ping 4))) ≡ some 7
unfolding load32 htonl
ping-teid = refl

ping-source :
    trees.find both.ipv4_stack.addr_map (Ipv4.addr_key (load32 (λ k. ping (header_of ping + k)) 12))
    ≡ some 4
unfolding load32
ping-source = refl

ping_answered_example :
    (r : Sdp trees) × (b : Buffer) × (l : ℕ) × (process_gtpu_data_ind both
        (env 0)
        ping
        100
        2152
        167772161
      ≡ some r)
    × (r.gtpu_stack.out ≡ udp b l 167772161 2152 ∷ recv_tpdu 41 9 1 ∷ [])
    × ((m : Msg) → Carried 5 m.seq_num 92 (reply_of (λ k. ping (8 + k))) (receive m b l))
    × (r.gtpu_stack.msg_pool ≡ 1 ∷ 5 ∷ [])
    × (r.ipv4_stack.msg_pool ≡ 3 ∷ 1 ∷ [])
ping_answered_example =
    ping_answered both (env 0) ping 100 2152 167772161 7 4 refl ping-teid refl (omega arith)
      (omega arith) refl refl ping-source refl (λ e. absurd (omega arith)) (omega arith)
      (λ e. absurd (omega arith)) (λ e. absurd (omega arith)) (λ e. absurd (omega arith))
      (λ e. absurd (omega arith)) refl
