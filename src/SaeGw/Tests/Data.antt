-- ===== src/SaeGw/Tests/Data.antt =====
-- The gateway over functions as trees: its pool, its UEs, the messages of its stacks, and what is around it.
use linkerepc.Prelude.{◌+◌, ℕ, true, false, none, some, Option, [], htonl}
use linkerepc.Trees.{Key, trees}
use linkerepc.Gtpv1u.Msg as User
use linkerepc.Gtpv1u.Stack as Gtpu
use linkerepc.Gtpv1u.Stack.{ok, Trxn}
use linkerepc.Ipv4
use linkerepc.Sdp.{Sdp, EndPoint, ipv4}
use linkerepc.Gtpv2c.Msg.{Msg}
use linkerepc.IpPool.{IpPool}
use linkerepc.SaeGw.{Gw, Ue, Ulp, Environment, imsi_key}
use linkerepc.SaeGw.Sessions.{new_ue, no_fteid, no_bearer}
use linkerepc.SaeGw.Send.{only_cause}
use linkerepc.SaeGw.Pgw.{Indication}

abbrev pub user_message : User.Msg
user_message = record {
  version = 1;
  protocol_type = 1;
  ext_hdr_flag = 0;
  seq_num_flag = 0;
  npdu_num_flag = 0;
  msg_type = 255;
  msg_len = 8;
  teid = 0;
  seq_num = 0;
  npdu_num = 0;
  next_ext_hdr_type = 0;
  msg_buf = λ _. 0;
}

abbrev pub no_trxn : Trxn
no_trxn = record {
  seq_num = 0;
  peer_ip = 0;
  peer_port = 0;
  max_retries = 0;
  t3_timer = 0;
  h_rsp_tmr = 0;
  h_ulp_trxn = 0;
  p_msg = 0;
}

abbrev pub gtpu_stack : Gtpu.Stack trees
gtpu_stack = record {
  seq = 0;
  tx_map = λ _. none;
  teid_map = λ _. none;
  msg = λ _. user_message;
  trxn = λ _. no_trxn;
  tunnel = λ _. record { teid = 0; h_ulp_session = 0 };
  msg_pool = [];
  trxn_pool = [];
  tunnel_pool = [];
  out = [];
}

abbrev pub ipv4_stack : Ipv4.Stack trees
ipv4_stack = record {
  is_downlink = true;
  addr_map = λ _. none;
  msg = λ _. record { msg_buf = λ _. 0; msg_len = 0 };
  tunnel = λ _. record { ipv4_addr = 0; h_ulp_session = 0 };
  msg_pool = [];
  tunnel_pool = [];
  out = [];
}

abbrev pub user : EndPoint
user = record { ipv4_addr = 0; flow_type = ipv4; flow_key = 17; h_tunnel_end_point = 0 }

abbrev pub plane : Sdp trees
plane = record {
  gtpu_stack = gtpu_stack;
  ipv4_stack = ipv4_stack;
  flow = λ _. record { ingress = user; egress = user };
  flow_pool = [];
}

-- The pool over 10 to 12, with the address 11 free, or lent, or neither.
abbrev pub pool : Option ℕ → IpPool
pool head = record {
  start_ip = 10;
  end_ip = 12;
  mask = 0;
  size = 3;
  next = λ _. none;
  free_pool = head;
}

-- The UE 9 of the PGW 7, before and after it gets the address.
abbrev pub ue_9 : Ue
ue_9 = record (new_ue 0 7) { imsi = λ k. k }

abbrev pub ue_9_in : Ue
ue_9_in = record ue_9 {
  is_pgw = true;
  pgw_node = imsi_key (λ k. k);
  paa = record { pdn_type = 1; ipv4_addr = htonl 11 };
  state = 3;
  eps_bearer = λ _. record no_bearer { is_valid = true };
}

abbrev pub ulp : IpPool → (Key → Option ℕ) → Ulp trees
ulp p m = record {
  sae_gw_type = 2;
  pool = p;
  s11c_addr = 1;
  sgw_s5c_addr = 2;
  pgw_s5c_addr = 3;
  ue_sgw_session = λ _. none;
  ue_pgw_session = m;
  collocated_pgws = [];
}

abbrev pub gateway : Ulp trees → Ue → Gw trees
gateway u x = record { ulp = λ _. u; ue = λ _. x; sdp = plane; gtpu_addr = 4; sent = [] }

abbrev pub before : Gw trees
before = gateway (ulp (pool (some 1)) (λ _. none)) ue_9

abbrev pub session : Key → Option ℕ
session = trees.insert (λ _. none) (imsi_key (λ k. k)) 9

abbrev pub during : Gw trees
during = gateway (ulp (pool none) session) ue_9_in

-- A message of the stack with no IE in it, and what is around the gateway.
abbrev pub blank : Msg
blank = record {
  version = 2;
  teid_present = 1;
  msg_type = 32;
  msg_len = 12;
  teid = 0;
  seq_num = 5;
  open_ie = λ _. 0;
  top = 0;
  is_ie_valid = λ _. false;
  p_ie = λ _. 0;
  msg_buf = λ _. 0;
}

abbrev pub env : Environment
env = record {
  s1u_sgw_at = λ p ebi. 100;
  s5s8u_sgw_at = λ p ebi. 101;
  s5s8u_pgw_at = λ p ebi. 102;
  new_ue = 9;
  plane = λ f. record {
    new_flow = f + 40;
    from_gtpu = record { new_msg = 1; new_trxn = 2; new_tunnel = 3; new_timer = 4; udp_rc = ok };
    to_gtpu = record { new_msg = 5; new_trxn = 6; new_tunnel = 7; new_timer = 8; udp_rc = ok };
    from_ipv4 = record { new_msg = 1; new_tunnel = 2; llp_rc = ok };
    to_ipv4 = record { new_msg = 3; new_tunnel = 4; llp_rc = ok };
  };
  unset_end_point = user;
  unset_bearer = record {
    ebi = 5;
    s1u_enodeb = no_fteid;
    s5s8u_pgw = no_fteid;
    s5s8u_sgw = no_fteid;
  };
  unset_offending = (0, 0);
  unset_bytes = λ _. 0;
  storage = some blank;
  answer = some 77;
}

abbrev pub ind : Indication
ind = record { error = only_cause env 16; h_trxn = 6; msg = blank }

-- The UE 9 of the SGW 7, which has moved to it, and one whose session is established there.
abbrev pub at_sgw : ℕ → Gw trees
at_sgw state =
    gateway (record (ulp (pool none) (λ _. none)) { sae_gw_type = 1 })
      (record (new_ue 7 0) { is_sgw = true; state = state })
