-- ===== src/Gtpv1u/Stack/Sessions/Frames.antt =====
-- What leaves the tunnel end points of the stack as they are: the messages of peers, requests to peers,
-- and timeouts.
use linkerepc.Prelude.{
  ℕ, ◌≡◌, refl, subst, ◌∙◌, Option, none, some, List, ◌==◌, if◌then◌else◌, if-elim, u16,
}
use linkerepc.Bytes.{Buffer}
use linkerepc.Gtpv1u.Msg.{Msg, init, receive, write_trxn_header}
use linkerepc.Gtpv1u.Stack.{
  udp, emit, Stack, TreeOps, Rc, ok, failure, unset, TunnelEndPoint, Environment,
}
use linkerepc.Gtpv1u.Stack.Storage.{set_msg, from_pool, make_msg, msg_new, msg_from_buffer_new}
use linkerepc.Gtpv1u.Stack.Transactions.{
  trxn_new, trxn_delete, keep_msg, trxn_create_and_send_msg, stop_peer_rsp_timer,
  send_msg_retransmission, after_resend, trxn_peer_rsp_timeout, restart, give_up,
}
use linkerepc.Gtpv1u.Stack.Ulp.{after_send, initial_req, sendto, create_and_send_msg}
use linkerepc.Gtpv1u.Stack.Udp.{
  echo_rsp, echo_seq, process_udp_req, process_gpdu, deliver, handle_echo_req,
  send_ulp_message_indication,
}

-- What the table of the end points is made of.
abbrev pub tunnels : {t : TreeOps} → Stack t → t.Tree × (ℕ → TunnelEndPoint) × List ℕ
tunnels s = (s.teid_map, s.tunnel, s.tunnel_pool)

make_msg-tunnels :
    {t : TreeOps} (s : Stack t) (env : Environment) (f : Msg → Msg)
    → tunnels (make_msg s env f).1 ≡ tunnels s
make_msg-tunnels s env f =
    if-elim (λ (x : ℕ × Stack _). tunnels x.1 ≡ tunnels s)
      ((from_pool s.msg_pool env.new_msg).0 == 0) _ _ refl refl

trxn_delete-tunnels : {t : TreeOps} (s : Stack t) (p : ℕ) → tunnels (trxn_delete s p) ≡ tunnels s
unfolding trxn_delete
trxn_delete-tunnels {t} s p =
    let halted =
      if-elim (λ (r : Stack t). tunnels r ≡ tunnels s) ((s.trxn p).h_rsp_tmr == 0) s
        (stop_peer_rsp_timer s p) refl refl in
    if-elim (λ (r : Stack t). tunnels r ≡ tunnels s) ((s.trxn p).p_msg == 0) _ _ halted halted

-- A call that returns leaves the table.
abbrev pub Keeps : {t : TreeOps} → Stack t → Option (Rc × Stack t) → Type 0
Keeps s none = Unit
Keeps s (some (rc, r)) = tunnels r ≡ tunnels s

abbrev KeepsTimer : {t : TreeOps} → Stack t → Option (Stack t) → Type 0
KeepsTimer s none = Unit
KeepsTimer s (some r) = tunnels r ≡ tunnels s

pub received-tunnels :
    {t : TreeOps} (s : Stack t) (env : Environment) (gpdu : Buffer) (len : ℕ)
    → tunnels (msg_from_buffer_new s env gpdu len).1 ≡ tunnels s
unfolding msg_from_buffer_new
received-tunnels s env gpdu len = make_msg-tunnels s env (λ r. receive r gpdu len)

deliver-tunnels :
    {t : TreeOps} (s : Stack t) (env : Environment) (gpdu : Buffer) (len : ℕ) (o : Option ℕ)
    → tunnels (deliver s env gpdu len o).1 ≡ tunnels s
deliver-tunnels s env gpdu len none = refl
deliver-tunnels s env gpdu len (some p) =
    let got = received-tunnels s env gpdu len in
    if-elim (λ (x : Rc × Stack _). tunnels x.1 ≡ tunnels s)
      ((msg_from_buffer_new s env gpdu len).0 == 0) _ _ got got

gpdu-tunnels :
    {t : TreeOps} (s : Stack t) (env : Environment) (buf : Buffer) (len : ℕ)
    → tunnels (process_gpdu s env buf len).1 ≡ tunnels s
unfolding process_gpdu
gpdu-tunnels {t} s env buf len = deliver-tunnels s env buf len _

told-Keeps :
    {t : TreeOps} (s : Stack t) (env : Environment) (msg_type peer_ip peer_port : ℕ) (buf : Buffer)
    (len : ℕ)
    → Keeps s (send_ulp_message_indication s env msg_type peer_ip peer_port buf len)
unfolding send_ulp_message_indication
told-Keeps s env msg_type peer_ip peer_port buf len = if-elim (Keeps s) (u16 len == 0) _ _ refl (
    if-elim (Keeps s) ((msg_from_buffer_new s env buf (u16 len)).0 == 0) _ _ tt
      (received-tunnels s env buf (u16 len)))

echo-Keeps :
    {t : TreeOps} (s : Stack t) (env : Environment) (buf : Buffer) (peer_port peer_ip : ℕ)
    → Keeps s (handle_echo_req s env buf peer_port peer_ip)
unfolding handle_echo_req msg_new create_and_send_msg
echo-Keeps s env buf peer_port peer_ip =
    let kept = make_msg-tunnels s env (λ r. init r (echo_rsp (echo_seq buf))) in
    if-elim (Keeps s) ((msg_new s env (echo_rsp (echo_seq buf))).0 == 0) _ _ tt kept

-- Whatever a peer sends, the table stays.
pub process_udp_req-Keeps :
    {t : TreeOps} (s : Stack t) (env : Environment) (buf : Buffer) (len peer_port peer_ip : ℕ)
    → Keeps s (process_udp_req s env buf len peer_port peer_ip)
unfolding process_udp_req
process_udp_req-Keeps s env buf len peer_port peer_ip =
    if-elim (Keeps s) (buf 1 == 1) _ _ (echo-Keeps s env buf peer_port peer_ip) (
      if-elim (Keeps s) (buf 1 == 26) _ _ (told-Keeps s env 26 peer_ip peer_port buf len) (
        if-elim (Keeps s) (buf 1 == 2) _ _ refl
          (if-elim (Keeps s) (buf 1 == 255) _ _ (gpdu-tunnels s env buf len) tt)))

keep_msg-tunnels :
    {t : TreeOps} (s : Stack t) (env : Environment) (p peer_ip peer_port h_msg : ℕ) (rc : Rc)
    → tunnels (keep_msg s env p peer_ip peer_port h_msg rc).1 ≡ tunnels s
keep_msg-tunnels s env p peer_ip peer_port h_msg ok = refl
keep_msg-tunnels s env p peer_ip peer_port h_msg failure = refl
keep_msg-tunnels s env p peer_ip peer_port h_msg unset = refl

after_send-tunnels :
    {t : TreeOps} (p : ℕ) (r : Rc × Stack t) → tunnels (after_send p r).1 ≡ tunnels r.1
after_send-tunnels p (ok, s) = refl
after_send-tunnels p (failure, s) = trxn_delete-tunnels s p
after_send-tunnels p (unset, s) = trxn_delete-tunnels s p

trxn_new-tunnels :
    {t : TreeOps} (s : Stack t) (env : Environment) → tunnels (trxn_new s env).1 ≡ tunnels s
unfolding trxn_new
trxn_new-tunnels s env =
    if-elim (λ (x : ℕ × Stack _). tunnels x.1 ≡ tunnels s)
      ((from_pool s.trxn_pool env.new_trxn).0 == 0) _ _ refl refl

send-tunnels :
    {t : TreeOps} (s : Stack t) (env : Environment) (p peer_ip peer_port h_msg : ℕ)
    → tunnels (trxn_create_and_send_msg s env p peer_ip peer_port h_msg).1 ≡ tunnels s
unfolding trxn_create_and_send_msg
send-tunnels s env p peer_ip peer_port h_msg =
    let m = write_trxn_header (s.msg h_msg) (s.trxn p).seq_num in
    keep_msg-tunnels (emit (udp m.msg_buf m.msg_len peer_ip peer_port) (set_msg h_msg m s)) env p
      peer_ip peer_port h_msg env.udp_rc

-- A request to a peer leaves the table.
pub initial_req-tunnels :
    {t : TreeOps} (s : Stack t) (env : Environment) (peer_ip peer_port h_msg : ℕ)
    → tunnels (initial_req s env peer_ip peer_port h_msg).1 ≡ tunnels s
unfolding initial_req
initial_req-tunnels {t} s env peer_ip peer_port h_msg =
    let made = trxn_new-tunnels s env in
    let p = (trxn_new s env).0 in
    let s1 = (trxn_new s env).1 in
    if-elim (λ (x : Rc × Stack t). tunnels x.1 ≡ tunnels s) (p == 0) _ _ made
      (after_send-tunnels p (trxn_create_and_send_msg s1 env p peer_ip peer_port h_msg)
        ∙ send-tunnels s1 env p peer_ip peer_port h_msg
        ∙ made)

-- So does a T-PDU, and a timeout.
pub sendto-tunnels :
    {t : TreeOps} (s : Stack t) (env : Environment) (teid ip_addr h_msg : ℕ)
    → tunnels (sendto s env teid ip_addr h_msg).1 ≡ tunnels s
unfolding sendto create_and_send_msg
sendto-tunnels s env teid ip_addr h_msg = refl

pub timeout-tunnels :
    {t : TreeOps} (s r : Stack t) (p timer : ℕ)
    → trxn_peer_rsp_timeout s p timer ≡ some r
    → tunnels r ≡ tunnels s
unfolding trxn_peer_rsp_timeout send_msg_retransmission
timeout-tunnels {t} s r p timer e =
    let x = s.trxn p in
    let m = s.msg x.p_msg in
    let again : Stack t = emit (udp m.msg_buf m.msg_len x.peer_ip x.peer_port) s in
    let both : tunnels
          (if (again.trxn p).max_retries == 0 then give_up again p else restart again p timer)
        ≡ tunnels s =
      if-elim (λ (r : Stack t). tunnels r ≡ tunnels s) ((again.trxn p).max_retries == 0) _ _
        (trxn_delete-tunnels _ p) refl in
    subst (KeepsTimer s) e (
      if-elim (λ (o : Option (Stack t)). KeepsTimer s (after_resend p timer o)) (x.p_msg == 0) none
        (some again) tt both)
