-- ===== src/Gtpv2c/Stack/Transactions.antt =====
-- nw-gtpv2c/src/NwGtpv2cTrxn.c: transactions. `none` is a failed assertion.
use linkerepc.Prelude.{ℕ, ◌+◌, ◌*◌, Option, none, some, List, [], ◌∷◌, ◌==◌, if◌then◌else◌, u8, set}
use linkerepc.Gtpv2c.Msg.{Msg}
use linkerepc.Gtpv2c.Stack.{
  Stack, TreeOps, Key, Trxn, peer_rsp_wait, duplicate_request_wait, udp, start_timer, stop_timer,
  rsp_failure_ind, Memory, emit, set_trxn, tx_key, rx_key,
}

-- The head of a pool, or what the allocator returns, and the rest of the pool.
abbrev pub from_pool : List ℕ → ℕ → ℕ × List ℕ
from_pool [] fresh = (fresh, [])
from_pool (p ∷ ps) fresh = (p, ps)

-- `nwGtpv2cTrxnSendMsgRetransmission`
abbrev pub retransmit : {t : TreeOps} → Stack t → ℕ → Trxn → Option Msg → Option (Stack t)
retransmit s p x none = none
retransmit s p x (some m) = some (
    set_trxn p (record x { max_retries = u8 (x.max_retries + 255) })
      (emit (udp m.msg_buf m.msg_len x.peer_ip x.peer_port) s))

unfoldable pub send_msg_retransmission : {t : TreeOps} → Stack t → ℕ → Option (Stack t)
send_msg_retransmission s p = retransmit s p (s.trxn p) (s.trxn p).p_msg

-- `nwGtpv2cTrxnStartPeerRspWaitTimer` and `nwGtpv2cTrxnStartDulpicateRequestWaitTimer`, with the
-- handle that the timer gets.
unfoldable pub start_peer_rsp_wait_timer : {t : TreeOps} → Stack t → ℕ → ℕ → Stack t
start_peer_rsp_wait_timer s p timer =
    let x = s.trxn p in
    set_trxn p (record x { h_rsp_tmr = timer }) (emit (start_timer x.t3_timer peer_rsp_wait p) s)

unfoldable pub start_duplicate_request_wait_timer : {t : TreeOps} → Stack t → ℕ → ℕ → Stack t
start_duplicate_request_wait_timer s p timer =
    let x = s.trxn p in
    set_trxn p (record x { h_rsp_tmr = timer })
      (emit (start_timer (x.t3_timer * x.max_retries) duplicate_request_wait p) s)

-- `nwGtpv2cTrxnStopPeerRspTimer`
unfoldable pub stop_peer_rsp_timer : {t : TreeOps} → Stack t → ℕ → Stack t
stop_peer_rsp_timer s p =
    let x = s.trxn p in set_trxn p (record x { h_rsp_tmr = 0 }) (emit (stop_timer x.h_rsp_tmr) s)

abbrev pub release_msg : {t : TreeOps} → Option Msg → Stack t → Stack t
release_msg none s = s
release_msg (some m) s = record s { msg_pool = m ∷ s.msg_pool }

-- `nwGtpv2cTrxnDelete`
unfoldable pub delete : {t : TreeOps} → Stack t → ℕ → Stack t
delete s p =
    let stopped = if (s.trxn p).h_rsp_tmr == 0 then s else stop_peer_rsp_timer s p in
    let freed = release_msg (s.trxn p).p_msg stopped in
    record freed { trxn_pool = p ∷ freed.trxn_pool }

-- `nwGtpv2cTrxnNew`: the fields that are not set keep what is in the storage. The pointer is 0 if
-- the allocation fails.
abbrev pub next_seq : ℕ → ℕ
next_seq n = if n + 1 == 8388608 then 0 else n + 1

abbrev pub numbered : {t : TreeOps} → Stack t → List ℕ → ℕ → Stack t
numbered s pool p = record s {
  trxn_pool = pool;
  trxn =
      set s.trxn p
        (record (s.trxn p) { p_msg = none; max_retries = 2; t3_timer = 2; seq_num = s.seq_num });
  seq_num = next_seq s.seq_num;
}

unfoldable pub new : {t : TreeOps} → Stack t → Memory → ℕ × Stack t
new s mem =
    let (p, pool) = from_pool s.trxn_pool mem.new_trxn in
    if p == 0 then (0, record s { trxn_pool = pool }) else (p, numbered s pool p)

-- `nwGtpv2cTrxnWithSeqNumNew`
unfoldable pub with_seq_num_new : {t : TreeOps} → Stack t → Memory → ℕ → ℕ × Stack t
with_seq_num_new s mem seq_num =
    let (p, pool) = from_pool s.trxn_pool mem.new_trxn in
    let x = s.trxn p in
    if p == 0 then (0, record s { trxn_pool = pool }) else (
      p,
      record s {
        trxn_pool = pool;
        trxn =
            set s.trxn p
              (record x { p_msg = none; max_retries = 2; t3_timer = 2; seq_num = seq_num });
      },
    )

-- The response of an outstanding request, sent again.
abbrev pub resend : {t : TreeOps} → Trxn → Option Msg → Stack t → Stack t
resend x none s = s
resend x (some m) s = emit (udp m.msg_buf m.msg_len x.peer_ip x.peer_port) s

abbrev pub retransmit_response : {t : TreeOps} → Trxn → Stack t → Stack t
retransmit_response x s = resend x x.p_msg s

-- `nwGtpv2cTrxnOutstandingRxNew`: the new object, its insertion, which finds a request that is already
-- outstanding, and the function. The pointer is 0 for such a request.
abbrev pub outstanding : {t : TreeOps} → Stack t → List ℕ → ℕ → ℕ → ℕ → ℕ → Stack t
outstanding s pool p peer_ip peer_port seq_num = record s {
  trxn_pool = pool;
  trxn = set s.trxn p (record (s.trxn p) {
    max_retries = 2;
    t3_timer = 2;
    seq_num = seq_num;
    peer_ip = peer_ip;
    peer_port = peer_port;
    p_msg = none;
    h_rsp_tmr = 0;
  });
}

abbrev pub insert_rx : {t : TreeOps} → Stack t → ℕ → Key → Option ℕ → ℕ × Stack t
insert_rx {t} s p key none = (p, record s { rx_map = t.insert s.rx_map key p })
insert_rx s p key (some c) = (0, delete (retransmit_response (s.trxn c) s) p)

unfoldable pub outstanding_rx_new : {t : TreeOps} → Stack t → Memory → ℕ → ℕ → ℕ → ℕ × Stack t
outstanding_rx_new {t} s mem peer_ip peer_port seq_num =
    let (p, pool) = from_pool s.trxn_pool mem.new_trxn in
    let key : Key = record { number = seq_num; peer_ip = peer_ip; peer_port = peer_port } in
    if p == 0
    then (0, record s { trxn_pool = pool })
    else insert_rx (outstanding s pool p peer_ip peer_port seq_num) p key (t.find s.rx_map key)

-- The handle of the upper layer for the tunnel of a transaction.
abbrev pub ulp_tunnel : {t : TreeOps} → Stack t → ℕ → ℕ
ulp_tunnel s h = if h == 0 then 0 else (s.tunnel h).h_ulp_tunnel

-- `thiz->hRspTmr = 0`
abbrev pub fired : {t : TreeOps} → Stack t → ℕ → Stack t
fired s p = set_trxn p (record (s.trxn p) { h_rsp_tmr = 0 }) s

-- `nwGtpv2cTrxnPeerRspWaitTimeout`: the two branches, and the function.
unfoldable pub give_up : {t : TreeOps} → Stack t → ℕ → Stack t
give_up {t} s p =
    let x = s.trxn p in
    emit (rsp_failure_ind x.h_ulp_trxn (ulp_tunnel s x.h_tunnel))
      (delete (record s { tx_map = t.remove s.tx_map (tx_key x) }) p)

abbrev pub resume : {t : TreeOps} → ℕ → ℕ → Option (Stack t) → Option (Stack t)
resume p timer none = none
resume p timer (some s) = some (start_peer_rsp_wait_timer s p timer)

unfoldable pub peer_rsp_wait_timeout : {t : TreeOps} → Stack t → ℕ → ℕ → Option (Stack t)
peer_rsp_wait_timeout s p timer =
    if (s.trxn p).max_retries == 0
    then some (give_up (fired s p) p)
    else resume p timer (send_msg_retransmission (fired s p) p)

-- `nwGtpv2cTrxnDuplicateRequestWaitTimeout`
unfoldable pub duplicate_request_wait_timeout : {t : TreeOps} → Stack t → ℕ → Stack t
duplicate_request_wait_timeout {t} s p =
    let s1 = fired s p in delete (record s1 { rx_map = t.remove s.rx_map (rx_key (s.trxn p)) }) p
