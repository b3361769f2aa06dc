-- ===== src/Gtpv1u/Stack/Failure.antt =====
-- What becomes of every request to a peer.
use linkerepc.Prelude.{ℕ, ◌≡◌, ◌≢◌, refl, ap, ◌∙◌, arith, none, some, ◌∷◌}
use linkerepc.Bytes.{Buffer}
use linkerepc.Gtpv1u.Msg.{Msg, write_trxn_header}
use linkerepc.Gtpv1u.Stack.{
  Stack, TreeOps, IsMap, ok, Trxn, Environment, tx_key, start_timer, rsp_failure,
}
use linkerepc.Gtpv1u.Stack.Storage.{from_pool}
use linkerepc.Gtpv1u.Stack.Transactions.{trxn_new, trxn_peer_rsp_timeout}
use linkerepc.Gtpv1u.Stack.Ulp.{initial_req}
use linkerepc.Gtpv1u.Stack.Udp.{process_udp_req}
use linkerepc.Gtpv1u.Stack.Expiry.{Awaits, datagram, retried, retries, expires}
use linkerepc.Gtpv1u.Stack.Requests.{entered, enters, put_out, put_out-parts, dispatches}

echo_response :
    {t : TreeOps} (s : Stack t) (env : Environment) (buf : Buffer) (len peer_port peer_ip : ℕ)
    → buf 1 ≡ 2
    → process_udp_req s env buf len peer_port peer_ip ≡ some (ok, s)
unfolding process_udp_req
echo_response s env buf len peer_port peer_ip e = rw e refl

-- The history of a request, from the transaction and message that it is put out with.
pub record Failed {t : TreeOps} (r : Stack t) (p timer1 timer2 timer3 : ℕ) (x : Trxn) (m : Msg)
    : Type 0 where
  pub first : Stack t
  pub second : Stack t
  pub third : Stack t
  pub timeout1 : trxn_peer_rsp_timeout r p timer1 ≡ some first
  pub timeout2 : trxn_peer_rsp_timeout first p timer2 ≡ some second
  pub timeout3 : trxn_peer_rsp_timeout second p timer3 ≡ some third
  pub out :
      third.out
      ≡ rsp_failure m.msg_type x.h_ulp_trxn x.peer_ip x.peer_port
        ∷ datagram x m
        ∷ start_timer x.t3_timer p
        ∷ datagram x m
        ∷ start_timer x.t3_timer p
        ∷ datagram x m
        ∷ r.out
  pub still : t.find third.tx_map (tx_key x) ≡ t.find r.tx_map (tx_key x)
  pub pooled : third.trxn_pool ≡ p ∷ r.trxn_pool
  pub freed : (third.trxn p).p_msg ≡ x.p_msg

fails :
    {t : TreeOps} (r : Stack t) (p timer1 timer2 timer3 : ℕ) (x : Trxn) (m : Msg)
    → Awaits r p x m
    → x.max_retries ≡ 2
    → Failed r p timer1 timer2 timer3 x m
fails {t} r p timer1 timer2 timer3 x m w e =
    let (s1, t1, w1, o1, m1, p1) = retries r p timer1 x m w (omega arith) in
    let x1 = retried x timer1 in
    let (s2, t2, w2, o2, m2, p2) = retries s1 p timer2 x1 m w1 (omega arith) in
    let x2 = retried x1 timer2 in
    let (s3, t3, o3, m3, p3, q3, k3, y3) = expires s2 p timer3 x2 m w2 (omega arith) in
    record {
      first = s1;
      second = s2;
      third = s3;
      timeout1 = t1;
      timeout2 = t2;
      timeout3 = t3;
      out =
          o3
          ∙ ap (λ o. rsp_failure m.msg_type x.h_ulp_trxn x.peer_ip x.peer_port ∷ datagram x m ∷ o)
              o2
          ∙ ap
              (λ o.
                rsp_failure m.msg_type x.h_ulp_trxn x.peer_ip x.peer_port
                ∷ datagram x m
                ∷ start_timer x.t3_timer p
                ∷ datagram x m
                ∷ o)
              o1;
      still = ap (λ n. t.find n (tx_key x)) (m3 ∙ m2 ∙ m1);
      pooled = p3 ∙ ap (λ l. p ∷ l) (p2 ∙ p1);
      freed = k3;
    }

-- The transaction and the message of a request that is put out.
abbrev pub request_trxn : {t : TreeOps} → Stack t → Environment → ℕ → ℕ → ℕ → Trxn
request_trxn s env peer_ip peer_port h_msg =
    record (s.trxn (from_pool s.trxn_pool env.new_trxn).0) {
      max_retries = 2;
      t3_timer = 2;
      seq_num = s.seq;
      p_msg = h_msg;
      peer_ip = peer_ip;
      peer_port = peer_port;
      h_rsp_tmr = env.new_timer;
    }

abbrev pub request_msg : {t : TreeOps} → Stack t → ℕ → Msg
request_msg s h_msg = write_trxn_header (s.msg h_msg) s.seq

-- A request that was put out, under a key that no request has, always fails. A message of the type echo response
-- does not change the state, whatever is in it. At each of three timeouts the request is sent again, and with
-- the third the upper layer is told that it failed, with the transaction of the upper layer that the storage
-- happens to hold. The transaction is then in its pool, but also still outstanding in the tree under its key,
-- and its storage still names its message.
pub initial_req_fails :
    {t : TreeOps} (laws : IsMap t) (s : Stack t) (env : Environment)
    (peer_ip peer_port h_msg timer1 timer2 timer3 : ℕ)
    → (trxn_new s env).0 ≢ 0
    → env.udp_rc ≡ ok
    → h_msg ≢ 0
    → let p = (from_pool s.trxn_pool env.new_trxn).0 in
      let x = request_trxn s env peer_ip peer_port h_msg in
      let m = request_msg s h_msg in
      t.find s.tx_map (tx_key x) ≡ none
      → (r : Stack t) × (initial_req s env peer_ip peer_port h_msg ≡ (ok, r))
        × ((env2 : Environment) (buf : Buffer) (len port ip : ℕ)
            → buf 1 ≡ 2
            → process_udp_req r env2 buf len port ip ≡ some (ok, r))
        × (f : Failed r p timer1 timer2 timer3 x m) × (f.third.out
            ≡ rsp_failure m.msg_type (s.trxn p).h_ulp_trxn peer_ip peer_port
              ∷ datagram x m
              ∷ start_timer 2 p
              ∷ datagram x m
              ∷ start_timer 2 p
              ∷ datagram x m
              ∷ start_timer 2 p
              ∷ datagram x m
              ∷ s.out)
        × (t.find f.third.tx_map (tx_key x) ≡ some p)
        × (f.third.trxn_pool ≡ p ∷ (from_pool s.trxn_pool env.new_trxn).1)
initial_req_fails {t} laws s env peer_ip peer_port h_msg timer1 timer2 timer3 dp rc dh free =
    let p = (from_pool s.trxn_pool env.new_trxn).0 in
    let x = request_trxn s env peer_ip peer_port h_msg in
    let m = request_msg s h_msg in
    let out = put_out s env peer_ip peer_port h_msg in
    let (own, msg, put, map, pool) = put_out-parts s env peer_ip peer_port h_msg in
    let (_, w, started, inserted, rest) =
      enters out env p peer_ip peer_port h_msg _ own dh
        (ap (λ n. t.find n (tx_key x)) map ∙ free) in
    let r = (entered out env p peer_ip peer_port h_msg _ own).1 in
    let f =
      fails r p timer1 timer2 timer3 x m
        (record { trxn = w.trxn; msg = w.msg ∙ msg; sent = w.sent }) refl in
    let told = rsp_failure m.msg_type (s.trxn p).h_ulp_trxn peer_ip peer_port in
    let starts = start_timer 2 p in
    let d = datagram x m in
    (
      r,
      dispatches s env peer_ip peer_port h_msg dp rc,
      λ env2 buf len port ip e. echo_response r env2 buf len port ip e,
      f,
      f.out ∙ ap (λ o. told ∷ d ∷ starts ∷ d ∷ starts ∷ d ∷ o) (started ∙ ap (λ o. starts ∷ o) put),
      f.still
          ∙ ap (λ n. t.find n (tx_key x)) (inserted ∙ ap (λ n. t.insert n (tx_key x) p) map)
          ∙ laws.found s.tx_map (tx_key x) p,
      f.pooled ∙ ap (λ l. p ∷ l) (rest ∙ pool),
    )
