-- ===== src/Gtpv1u/Stack/Tests.antt =====
-- The stack over functions as trees: a payload between two stacks, an echo, and a request.
use linkerepc.Prelude.{
  ℕ, ◌≡◌, ◌≢◌, refl, ap, arith, Option, none, some, [], ◌∷◌, ◌==◌, if◌then◌else◌, htonl, htons, set,
}
use linkerepc.Trees.{trees, trees-IsMap}
use linkerepc.Bytes.{Buffer, load16, load32}
use linkerepc.Gtpv1u.Msg.{Msg, receive, write_header}
use linkerepc.Gtpv1u.Msg.Header.{IsSendable, header_read_back}
use linkerepc.Gtpv1u.Msg.Payload.{Carried}
use linkerepc.Gtpv1u.Stack.{
  Stack, ok, unset, Trxn, Environment, tunnel_key, tx_key, recv_tpdu, udp, rsp_failure, start_timer,
}
use linkerepc.Gtpv1u.Stack.Storage.{gpdu_msg_new, msg_from_buffer_new, msg_new}
use linkerepc.Gtpv1u.Stack.Transactions.{trxn_new}
use linkerepc.Gtpv1u.Stack.Ulp.{sendto, create_tunnel_end_point, initial_req}
use linkerepc.Gtpv1u.Stack.Udp.{process_udp_req, process_gpdu, echo_rsp, echo_seq}
use linkerepc.Gtpv1u.Stack.Sessions.{History, begins, creates, after_create}
use linkerepc.Gtpv1u.Stack.Delivery.{Holds, sent_gpdu, process_gpdu-refines, tpdu_delivered}
use linkerepc.Gtpv1u.Stack.Expiry.{datagram}
use linkerepc.Gtpv1u.Stack.Failure.{Failed, request_trxn, request_msg, initial_req_fails}
use linkerepc.Gtpv1u.Stack.Echo.{IsEchoRsp, process_udp_req_echo}

abbrev message : Msg
message = record {
  version = 1;
  protocol_type = 1;
  ext_hdr_flag = 0;
  seq_num_flag = 1;
  npdu_num_flag = 1;
  msg_type = 1;
  msg_len = 12;
  teid = 77;
  seq_num = 300;
  npdu_num = 9;
  next_ext_hdr_type = 0;
  msg_buf = λ _. 0;
}

abbrev no_trxn : Trxn
no_trxn = record {
  seq_num = 0;
  peer_ip = 0;
  peer_port = 0;
  max_retries = 0;
  t3_timer = 0;
  h_rsp_tmr = 0;
  h_ulp_trxn = 55;
  p_msg = 0;
}

abbrev stack : Stack trees
stack = record {
  seq = 5;
  tx_map = λ _. none;
  teid_map = λ _. none;
  msg = λ _. message;
  trxn = λ _. no_trxn;
  tunnel = λ _. record { teid = 0; h_ulp_session = 0 };
  msg_pool = [];
  trxn_pool = [];
  tunnel_pool = [];
  out = [];
}

abbrev env : Environment
env = record { new_msg = 1; new_trxn = 2; new_tunnel = 3; new_timer = 4; udp_rc = ok }

-- The stack with the session 40 under the TEID 9.
abbrev tunnelled : Stack trees
tunnelled = record stack {
  tunnel = set stack.tunnel 3 (record { teid = 9; h_ulp_session = 40 });
  teid_map = trees.insert stack.teid_map (tunnel_key 9) 3;
}

abbrev sessions : ℕ → Option ℕ
sessions = after_create (λ _. none) 9 40 ok

creation : create_tunnel_end_point stack env 9 40 ≡ some (ok, 3, tunnelled)
unfolding create_tunnel_end_point
creation = refl

none-env : (p : ℕ) → ¬ (none ≡ some p)
none-env p e = absurd (cc)

one_session : History tunnelled sessions
one_session =
    creates stack tunnelled (λ _. none) env 9 40 3 ok (begins stack (λ k. refl) refl)
      (λ k e. none-env 3 e) creation

message-IsSendable : IsSendable message
message-IsSendable = record {
  version = omega arith;
  protocol_type = omega arith;
  ext_hdr_flag = omega arith;
  seq_num_flag = omega arith;
  npdu_num_flag = omega arith;
  msg_type = omega arith;
  teid = omega arith;
  seq_num = omega arith;
  npdu_num = omega arith;
  next_ext_hdr_type = omega arith;
}

header_read_back_example :
    let got = receive message (write_header message).msg_buf 12 in
    (got.version ≡ 1)
    × (got.protocol_type ≡ 1)
    × (got.ext_hdr_flag ≡ 0)
    × (got.seq_num_flag ≡ 1)
    × (got.npdu_num_flag ≡ 1)
    × (got.msg_type ≡ 1)
    × (got.teid ≡ 77)
    × (got.seq_num ≡ 300)
    × (got.npdu_num ≡ 0)
    × (got.next_ext_hdr_type ≡ 0)
header_read_back_example = header_read_back message message 12 message-IsSendable

-- A G-PDU for the TEID 9.
abbrev datagram9 : Buffer
datagram9 = λ k. if k == 0 then 48 else if k == 1 then 255 else if k == 7 then 9 else 0

datagram9-teid : htonl (load32 datagram9 4) ≡ 9
unfolding htonl load32
datagram9-teid = refl

has_memory : (buf : Buffer) (len : ℕ) → (msg_from_buffer_new tunnelled env buf len).0 ≢ 0
unfolding msg_from_buffer_new
has_memory buf len e = absurd (omega arith)

process_gpdu-refines_example :
    (sessions (htonl (load32 datagram9 4)) ≡ none
      → process_gpdu tunnelled env datagram9 8 ≡ (unset, tunnelled))
    × ((session : ℕ)
        → sessions (htonl (load32 datagram9 4)) ≡ some session
        → (x : Stack trees) × (process_gpdu tunnelled env datagram9 8 ≡ (ok, x))
          × (x.out ≡ recv_tpdu session (htonl (load32 datagram9 4)) 1 ∷ [])
          × Holds datagram9 8 (x.msg 1)
          × ((k : ℕ) → 1 ≢ k → x.msg k ≡ message)
          × (x.msg_pool ≡ [])
          × (x.teid_map ≡ tunnelled.teid_map)
          × (x.tx_map ≡ tunnelled.tx_map))
process_gpdu-refines_example =
    process_gpdu-refines trees-IsMap tunnelled sessions env datagram9 8 one_session (omega arith)
      (λ e. absurd (omega arith))

-- The TEID of the datagram has a session.
datagram9_live : sessions (htonl (load32 datagram9 4)) ≡ some 40
datagram9_live = ap sessions datagram9-teid

gpdu_memory : (gpdu_msg_new stack env 0 1 300 (λ k. k) 20).0 ≢ 0
unfolding gpdu_msg_new
gpdu_memory e = absurd (omega arith)

tpdu_delivered_example :
    let (h, s1) = gpdu_msg_new stack env 0 1 300 (λ k. k) 20 in
    let m = sent_gpdu stack env 9 167772161 1 300 (λ k. k) 20 h in
    let g = (msg_from_buffer_new tunnelled env m.msg_buf m.msg_len).0 in
    ((sendto s1 env 9 167772161 h).1.out ≡ udp m.msg_buf m.msg_len 167772161 2152 ∷ [])
    × (x : Stack trees) × (process_udp_req tunnelled env m.msg_buf m.msg_len 2152 167772162
        ≡ some (ok, x))
    × (x.out ≡ recv_tpdu 40 9 g ∷ [])
    × Carried 9 300 20 (λ k. k) (x.msg g)
tpdu_delivered_example =
    tpdu_delivered trees-IsMap stack tunnelled sessions env env 9 167772161 1 300 (λ k. k) 20 40
      2152 167772162 (omega arith) (omega arith) (omega arith) one_session refl gpdu_memory
      (has_memory _ _)

request_memory : (trxn_new stack env).0 ≢ 0
unfolding trxn_new
request_memory e = absurd (omega arith)

initial_req_fails_example :
    let x = request_trxn stack env 167772161 2152 1 in
    let m = request_msg stack 1 in
    let again = datagram x m in
    let starts = start_timer 2 2 in
    (r : Stack trees) × (initial_req stack env 167772161 2152 1 ≡ (ok, r))
    × ((env2 : Environment) (buf : Buffer) (len port ip : ℕ)
        → buf 1 ≡ 2
        → process_udp_req r env2 buf len port ip ≡ some (ok, r))
    × (f : Failed r 2 6 7 8 x m) × (f.third.out
        ≡ rsp_failure m.msg_type 55 167772161 2152
          ∷ again
          ∷ starts
          ∷ again
          ∷ starts
          ∷ again
          ∷ starts
          ∷ again
          ∷ [])
    × (f.third.tx_map (tx_key x) ≡ some 2)
    × (f.third.trxn_pool ≡ 2 ∷ [])
initial_req_fails_example =
    initial_req_fails trees-IsMap stack env 167772161 2152 1 6 7 8 request_memory refl
      (λ e. absurd (omega arith)) refl

-- An echo request with the sequence number 7.
abbrev echo : Buffer
echo = λ k. if k == 0 then 50 else if k == 1 then 1 else if k == 9 then 7 else 0

echo_memory : (n : ℕ) → (msg_new stack env (echo_rsp n)).0 ≢ 0
unfolding msg_new
echo_memory n e = absurd (omega arith)

process_udp_req_echo_example :
    (r : Stack trees) × (b : Buffer) × (process_udp_req stack env echo 12 2152 167772161
      ≡ some (ok, r))
    × (r.out ≡ udp b 14 167772161 2152 ∷ [])
    × IsEchoRsp b (htons (load16 echo 8)) 77
    × (r.msg_pool ≡ 1 ∷ [])
    × (r.teid_map ≡ stack.teid_map)
    × (r.tx_map ≡ stack.tx_map)
    × (r.trxn ≡ stack.trxn)
process_udp_req_echo_example =
    process_udp_req_echo stack env echo 12 2152 167772161 refl (echo_memory (echo_seq echo))
      (omega arith)
