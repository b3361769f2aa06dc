-- ===== src/Gtpv1u/Stack/Transactions.antt =====
-- nw-gtpv1u/src/NwGtpv1uTrxn.c: the transactions of requests. `none` is a failed assertion.
use linkerepc.Prelude.{ℕ, ◌+◌, Option, none, some, ◌∷◌, ◌==◌, if◌then◌else◌, u8, u32, set}
use linkerepc.Gtpv1u.Msg.{write_trxn_header}
use linkerepc.Gtpv1u.Stack.{
  Stack, TreeOps, Trxn, Rc, ok, failure, unset, udp, start_timer, stop_timer, rsp_failure,
  Environment, emit,
}
use linkerepc.Gtpv1u.Stack.Storage.{from_pool, msg_delete, set_msg}

abbrev pub set_trxn : {t : TreeOps} → ℕ → Trxn → Stack t → Stack t
set_trxn p x s = record s { trxn = set s.trxn p x }

-- `nwGtpv1uTrxnSendMsgRetransmission`
unfoldable pub send_msg_retransmission : {t : TreeOps} → Stack t → ℕ → Option (Stack t)
send_msg_retransmission s p =
    let x = s.trxn p in
    let m = s.msg x.p_msg in
    if x.p_msg == 0 then none else some (emit (udp m.msg_buf m.msg_len x.peer_ip x.peer_port) s)

-- `nwGtpv1uTrxnStartPeerRspTimer`, `nwGtpv1uTrxnStopPeerRspTimer`
abbrev pub start_peer_rsp_timer : {t : TreeOps} → Stack t → ℕ → ℕ → Stack t
start_peer_rsp_timer s p timer =
    let x = s.trxn p in
    set_trxn p (record x { h_rsp_tmr = timer }) (emit (start_timer x.t3_timer p) s)

abbrev pub stop_peer_rsp_timer : {t : TreeOps} → Stack t → ℕ → Stack t
stop_peer_rsp_timer s p =
    let x = s.trxn p in set_trxn p (record x { h_rsp_tmr = 0 }) (emit (stop_timer x.h_rsp_tmr) s)

-- `nwGtpv1uTrxnNew`: the message and the timer are not set. The sequence number of the stack goes on.
abbrev pub next_seq : ℕ → ℕ
next_seq n = if u32 (n + 1) == 8388608 then 0 else u32 (n + 1)

abbrev pub numbered : {t : TreeOps} → Stack t → Environment → ℕ × Stack t
numbered s env =
    let (p, pool) = from_pool s.trxn_pool env.new_trxn in
    (
      p,
      record s {
        trxn_pool = pool;
        trxn = set s.trxn p (record (s.trxn p) { max_retries = 2; t3_timer = 2; seq_num = s.seq });
        seq = next_seq s.seq;
      },
    )

unfoldable pub trxn_new : {t : TreeOps} → Stack t → Environment → ℕ × Stack t
trxn_new s env =
    let (p, pool) = from_pool s.trxn_pool env.new_trxn in
    if p == 0 then (0, record s { trxn_pool = pool }) else numbered s env

-- `nwGtpv1uTrxnWithSeqNew`
unfoldable pub trxn_with_seq_new : {t : TreeOps} → Stack t → Environment → ℕ → ℕ × Stack t
trxn_with_seq_new s env seq_num =
    let (p, pool) = from_pool s.trxn_pool env.new_trxn in
    let x : Trxn = record (s.trxn p) {
      max_retries = 2;
      t3_timer = 2;
      seq_num = seq_num;
      p_msg = 0;
    } in
    if p == 0
    then (0, record s { trxn_pool = pool })
    else (p, record s { trxn_pool = pool; trxn = set s.trxn p x })

-- `nwGtpv1uTrxnDelete`: the pointer to the message stays in the storage.
unfoldable pub trxn_delete : {t : TreeOps} → Stack t → ℕ → Stack t
trxn_delete s p =
    let x = s.trxn p in
    let stopped = if x.h_rsp_tmr == 0 then s else stop_peer_rsp_timer s p in
    let freed = if x.p_msg == 0 then stopped else msg_delete stopped x.p_msg in
    record freed { trxn_pool = p ∷ freed.trxn_pool }

-- `nwGtpv1uTrxnCreateAndSendMsg`: what follows what the UDP callback returned, and the function.
abbrev pub keep_msg : {t : TreeOps} → Stack t → Environment → ℕ → ℕ → ℕ → ℕ → Rc → Rc × Stack t
keep_msg s env p peer_ip peer_port h_msg ok =
    let x : Trxn = record (s.trxn p) { p_msg = h_msg; peer_ip = peer_ip; peer_port = peer_port } in
    (ok, start_peer_rsp_timer (set_trxn p x s) p env.new_timer)
keep_msg s env p peer_ip peer_port h_msg failure = (failure, s)
keep_msg s env p peer_ip peer_port h_msg unset = (unset, s)

unfoldable pub trxn_create_and_send_msg :
    {t : TreeOps} → Stack t → Environment → ℕ → ℕ → ℕ → ℕ → Rc × Stack t
trxn_create_and_send_msg s env p peer_ip peer_port h_msg =
    let m = write_trxn_header (s.msg h_msg) (s.trxn p).seq_num in
    keep_msg (emit (udp m.msg_buf m.msg_len peer_ip peer_port) (set_msg h_msg m s)) env p peer_ip
      peer_port h_msg env.udp_rc

-- `nwGtpv1uTrxnPeerRspTimeout`: the two branches after the retransmission, and the function. A transaction
-- that is given up stays in the tree.
abbrev pub restart : {t : TreeOps} → Stack t → ℕ → ℕ → Stack t
restart s p timer =
    let x = s.trxn p in
    set_trxn p (record x { h_rsp_tmr = timer; max_retries = u8 (x.max_retries + 255) })
      (emit (start_timer x.t3_timer p) s)

abbrev pub give_up : {t : TreeOps} → Stack t → ℕ → Stack t
give_up s p =
    let x = s.trxn p in
    emit (rsp_failure (s.msg x.p_msg).msg_type x.h_ulp_trxn x.peer_ip x.peer_port)
      (trxn_delete (set_trxn p (record x { h_rsp_tmr = 0 }) s) p)

abbrev pub after_resend : {t : TreeOps} → ℕ → ℕ → Option (Stack t) → Option (Stack t)
after_resend p timer none = none
after_resend p timer (some s) =
    some (if (s.trxn p).max_retries == 0 then give_up s p else restart s p timer)

unfoldable pub trxn_peer_rsp_timeout : {t : TreeOps} → Stack t → ℕ → ℕ → Option (Stack t)
trxn_peer_rsp_timeout s p timer = after_resend p timer (send_msg_retransmission s p)
