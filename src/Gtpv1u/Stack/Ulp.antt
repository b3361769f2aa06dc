-- ===== src/Gtpv1u/Stack/Ulp.antt =====
-- nw-gtpv1u/src/NwGtpv1u.c: the requests of the upper layer. `none` is a failed assertion.
use linkerepc.Prelude.{ℕ, Option, none, some, ◌==◌, if◌then◌else◌, set}
use linkerepc.Gtpv1u.Msg.{write_header, set_teid}
use linkerepc.Gtpv1u.Stack.{
  Stack, TreeOps, Key, Rc, ok, failure, unset, TunnelEndPoint, udp, Environment, emit, tunnel_key,
  tx_key,
}
use linkerepc.Gtpv1u.Stack.Storage.{tunnel_end_point_new, tunnel_end_point_destroy, set_msg}
use linkerepc.Gtpv1u.Stack.Transactions.{trxn_new, trxn_delete, trxn_create_and_send_msg}

-- `nwGtpv1uCreateAndSendMsg`: the header is written into the message.
unfoldable pub create_and_send_msg : {t : TreeOps} → Stack t → ℕ → ℕ → ℕ → Stack t
create_and_send_msg s peer_ip peer_port h_msg =
    let m = write_header (s.msg h_msg) in
    emit (udp m.msg_buf m.msg_len peer_ip peer_port) (set_msg h_msg m s)

-- `RB_INSERT`: an element with the key is kept, and found.
abbrev pub insert_new : (t : TreeOps) → t.Tree → Key → ℕ → Option ℕ → t.Tree
insert_new t m k p none = t.insert m k p
insert_new t m k p (some c) = m

-- `NwGtpv1uCreateTunnelEndPoint`: the result and the handle. A TEID that is in use is a failed assertion.
abbrev pub enter_tunnel : {t : TreeOps} → Stack t → ℕ → ℕ → ℕ → Option ℕ → Option (Rc × ℕ × Stack t)
enter_tunnel {t} s p teid h_ulp_session none =
    let x : TunnelEndPoint = record { teid = teid; h_ulp_session = h_ulp_session } in
    some (
      ok,
      p,
      record s { tunnel = set s.tunnel p x; teid_map = t.insert s.teid_map (tunnel_key teid) p },
    )
enter_tunnel s p teid h_ulp_session (some c) = none

unfoldable pub create_tunnel_end_point :
    {t : TreeOps} → Stack t → Environment → ℕ → ℕ → Option (Rc × ℕ × Stack t)
create_tunnel_end_point {t} s env teid h_ulp_session =
    let (p, s1) = tunnel_end_point_new s env in
    if p == 0
    then some (failure, 0, s1)
    else enter_tunnel s1 p teid h_ulp_session (t.find s.teid_map (tunnel_key teid))

-- `nwGtpv1uDestroyTunnelEndPoint`: RB_REMOVE of an element that is in the tree; NULL is passed over.
unfoldable pub destroy_tunnel_end_point : {t : TreeOps} → Stack t → ℕ → Stack t
destroy_tunnel_end_point {t} s p =
    if p == 0
    then s
    else tunnel_end_point_destroy
        (record s { teid_map = t.remove s.teid_map (tunnel_key (s.tunnel p).teid) }) p

-- `nwGtpv1uInitialReq`: what follows what the transaction's message returned, and the function. A message that
-- could not be sent is NW_GTPV1U_OK.
abbrev pub after_send : {t : TreeOps} → ℕ → Rc × Stack t → Rc × Stack t
after_send {t} p (ok, s) =
    let key = tx_key (s.trxn p) in
    (ok, record s { tx_map = insert_new t s.tx_map key p (t.find s.tx_map key) })
after_send p (failure, s) = (ok, trxn_delete s p)
after_send p (unset, s) = (ok, trxn_delete s p)

unfoldable pub initial_req : {t : TreeOps} → Stack t → Environment → ℕ → ℕ → ℕ → Rc × Stack t
initial_req s env peer_ip peer_port h_msg =
    let (p, s1) = trxn_new s env in
    if p == 0
    then (failure, s1)
    else after_send p (trxn_create_and_send_msg s1 env p peer_ip peer_port h_msg)

-- `nwGtpv1uSendto`
unfoldable pub sendto : {t : TreeOps} → Stack t → Environment → ℕ → ℕ → ℕ → Rc × Stack t
sendto s env teid ip_addr h_msg = (
  env.udp_rc,
  create_and_send_msg (set_msg h_msg (set_teid (s.msg h_msg) teid) s) ip_addr 2152 h_msg,
)

-- `NwGtpv1uUlpApiT`
pub data UlpReq : Type 0 where
  -- TEID and session of the upper layer
  create_tunnel : ℕ → ℕ → UlpReq
  -- handle
  destroy_tunnel : ℕ → UlpReq
  -- address, port and message
  initial_request : ℕ → ℕ → ℕ → UlpReq
  -- TEID, address and message
  send_tpdu : ℕ → ℕ → ℕ → UlpReq
  unsupported : UlpReq

abbrev pub without_handle : {t : TreeOps} → Option (Rc × ℕ × Stack t) → Option (Rc × Stack t)
without_handle none = none
without_handle (some (rc, h, s)) = some (rc, s)

-- `nwGtpv1uProcessUlpReq`
unfoldable pub process_ulp_req :
    {t : TreeOps} → Stack t → Environment → UlpReq → Option (Rc × Stack t)
process_ulp_req s env (create_tunnel teid h_ulp_session) =
    without_handle (create_tunnel_end_point s env teid h_ulp_session)
process_ulp_req s env (destroy_tunnel h) = some (ok, destroy_tunnel_end_point s h)
process_ulp_req s env (initial_request peer_ip peer_port h_msg) =
    some (initial_req s env peer_ip peer_port h_msg)
process_ulp_req s env (send_tpdu teid ip_addr h_msg) = some (sendto s env teid ip_addr h_msg)
process_ulp_req s env unsupported = some (failure, s)
