-- ===== src/Gtpv2c/Stack/Tests.antt =====
-- The stack over functions as trees: a request without an answer, one with an answer, and a request
-- that comes twice.
use linkerepc.Prelude.{
  ◌≡◌, ◌≢◌, refl, arith, false, Option, none, some, [], ◌∷◌, ◌==◌, if◌then◌else◌, htonl, htons,
}
use linkerepc.Trees.{same_key, trees, trees-IsMap}
use linkerepc.Bytes.{Buffer, load32, load16}
use linkerepc.Gtpv2c.Msg.{Msg, from_buffer_new, receive}
use linkerepc.Gtpv2c.ParseInfo.{
  Parsed, parse, parse_info_new, parse_info_update, scan, handle_ie, conclude, find_missing,
}
use linkerepc.Gtpv2c.Stack.{
  Stack, Key, Trxn, Memory, udp, start_timer, stop_timer, peer_rsp_wait, rsp_failure_ind,
  triggered_rsp_ind, tx_key, rx_key,
}
use linkerepc.Gtpv2c.Stack.Transactions.{
  new, peer_rsp_wait_timeout, outstanding_rx_new, delete, stop_peer_rsp_timer,
}
use linkerepc.Gtpv2c.Stack.Udp.{process_udp_req, handle_triggered_rsp, received, seq_of}
use linkerepc.Gtpv2c.Stack.Discard.{process_udp_req-IsDiscarded, no_tunnel}
use linkerepc.Gtpv2c.Stack.Expiry.{request_expires}
use linkerepc.Gtpv2c.Stack.Numbering.{new-seq_num}
use linkerepc.Gtpv2c.Stack.Matching.{
  handle_triggered_rsp_once, rsp_key, req_key, outstanding_rx_new_fresh,
  outstanding_rx_new_duplicate,
}

abbrev request : Msg
request = record {
  version = 2;
  teid_present = 0;
  msg_type = 1;
  msg_len = 8;
  teid = 0;
  seq_num = 5;
  open_ie = λ _. 0;
  top = 0;
  is_ie_valid = λ _. false;
  p_ie = λ _. 0;
  msg_buf = λ k. if k == 6 then 5 else 0;
}

abbrev trxn5 : Trxn
trxn5 = record {
  seq_num = 5;
  peer_ip = 167772161;
  peer_port = 2123;
  t3_timer = 2;
  max_retries = 2;
  p_msg = some request;
  h_rsp_tmr = 44;
  h_tunnel = 0;
  h_ulp_trxn = 77;
}

-- Transaction 9 is outstanding for sending and, in `rx_map`, for receiving.
abbrev stack : Stack trees
stack = record {
  seq_num = 6;
  restart_counter = 1;
  tunnel_map = λ _. none;
  tx_map = λ k. if same_key (tx_key trxn5) k then some 9 else none;
  rx_map = λ k. if same_key (rx_key trxn5) k then some 9 else none;
  trxn = λ _. trxn5;
  tunnel = λ _. record { teid = 0; ipv4_addr_remote = 0; h_ulp_tunnel = 0 };
  trxn_pool = [];
  tunnel_pool = [];
  msg_pool = [];
  out = [];
}

abbrev memory : Memory
memory = record { new_trxn = 10; new_tunnel = 20; new_msg = some request; new_timer = 45 }

request_expires_example :
    let starts = start_timer 2 peer_rsp_wait 9 in
    let again = udp request.msg_buf 8 167772161 2123 in
    (s1 : Stack trees) × (s2 : Stack trees) × (s3 : Stack trees) × (peer_rsp_wait_timeout stack 9 50
      ≡ some s1)
    × (peer_rsp_wait_timeout s1 9 51 ≡ some s2)
    × (peer_rsp_wait_timeout s2 9 52 ≡ some s3)
    × (s3.out ≡ rsp_failure_ind 77 0 ∷ starts ∷ again ∷ starts ∷ again ∷ [])
    × (s3.tx_map (tx_key trxn5) ≡ none)
    × ((k : Key) → tx_key trxn5 ≢ k → s3.tx_map k ≡ stack.tx_map k)
request_expires_example = request_expires trees-IsMap stack 9 50 51 52 request refl refl

new-seq_num_example :
    let p = (new stack memory).0 in
    let r = (new stack memory).1 in
    ((r.trxn p).seq_num ≡ 6)
    × ((r.trxn p).max_retries ≡ 2)
    × ((r.trxn p).p_msg ≡ none)
    × (r.seq_num ≡ 7)
    × (r.tx_map ≡ stack.tx_map)
    × (r.rx_map ≡ stack.rx_map)
    × (r.tunnel_map ≡ stack.tunnel_map)
    × (r.out ≡ [])
unfolding new
new-seq_num_example = new-seq_num stack memory (omega arith) (λ e. absurd (omega arith))

outstanding_rx_new_duplicate_example :
    let r = (outstanding_rx_new stack memory 167772161 2123 5).1 in
    ((outstanding_rx_new stack memory 167772161 2123 5).0 ≡ 0)
    × (r.rx_map ≡ stack.rx_map)
    × (r.tx_map ≡ stack.tx_map)
    × (r.tunnel_map ≡ stack.tunnel_map)
    × (r.out ≡ udp request.msg_buf 8 167772161 2123 ∷ [])
outstanding_rx_new_duplicate_example =
    outstanding_rx_new_duplicate stack memory 167772161 2123 5 9 (λ e. absurd (omega arith))
      (λ e. absurd (omega arith)) refl

outstanding_rx_new_fresh_example :
    let p = (outstanding_rx_new stack memory 167772161 2123 6).0 in
    let r = (outstanding_rx_new stack memory 167772161 2123 6).1 in
    (p ≢ 0)
    × (r.rx_map (req_key 167772161 2123 6) ≡ some p)
    × ((k : Key) → req_key 167772161 2123 6 ≢ k → r.rx_map k ≡ stack.rx_map k)
    × (rx_key (r.trxn p) ≡ req_key 167772161 2123 6)
    × ((r.trxn p).p_msg ≡ none)
    × (r.out ≡ [])
outstanding_rx_new_fresh_example =
    outstanding_rx_new_fresh trees-IsMap stack memory 167772161 2123 6 (λ e. absurd (omega arith))
      refl

-- An echo response with the sequence number 5 and the recovery IE.
abbrev response : Buffer
response = λ k.
    if k == 0
    then 64
    else if k == 1
    then 2
    else if k == 3
    then 9
    else if k == 6
    then 5
    else if k == 8
    then 3
    else if k == 10
    then 1
    else 0

abbrev unwrap : Option (Stack trees) → Stack trees
unwrap none = stack
unwrap (some s) = s

abbrev after : Stack trees
after = unwrap (handle_triggered_rsp stack memory 2 response 13 167772161)

is_handled : handle_triggered_rsp stack memory 2 response 13 167772161 ≡ some after
unfolding handle_triggered_rsp received from_buffer_new parse_info_new parse seq_of delete
    parse_info_update scan handle_ie conclude find_missing htonl load32 receive load16 htons
    stop_peer_rsp_timer
is_handled = refl

matches : stack.tx_map (rsp_key response 167772161) ≡ some 9
unfolding seq_of htonl load32
matches = refl

key_matches : tx_key trxn5 ≡ rsp_key response 167772161
unfolding seq_of htonl load32
key_matches = refl

handle_triggered_rsp_once_example :
    ((x : Parsed) × (after.out ≡ triggered_rsp_ind 2 77 0 x ∷ stop_timer 44 ∷ []))
    × (after.tx_map (rsp_key response 167772161) ≡ none)
    × ((k : Key) → rsp_key response 167772161 ≢ k → after.tx_map k ≡ stack.tx_map k)
    × (handle_triggered_rsp after memory 2 response 13 167772161 ≡ some after)
handle_triggered_rsp_once_example =
    handle_triggered_rsp_once trees-IsMap stack after memory memory 2 response 13 167772161 9
      matches key_matches is_handled

-- A create session request with the TEID 7.
abbrev stray : Buffer
stray = λ k. if k == 0 then 72 else if k == 1 then 32 else if k == 7 then 7 else 0

stray_teid : load32 stray 4 ≢ 0
unfolding load32
stray_teid e = absurd (omega arith)

process_udp_req-IsDiscarded_example :
    process_udp_req stack memory stray 12 2123 167772161 ≡ some stack
process_udp_req-IsDiscarded_example =
    process_udp_req-IsDiscarded stack memory stray 12 2123 167772161
      (no_tunnel refl refl stray_teid refl)
