-- ===== src/Gtpv2c/Stack/Expiry.antt =====
-- nw-gtpv2c/src/NwGtpv2cTrxn.c: how a request is sent again and given up.
use linkerepc.Prelude.{
  ℕ, ◌+◌, ◌<◌, ◌≡◌, ◌≢◌, refl, ap, ◌∙◌, arith, none, some, ◌∷◌, ◌==◌, if◌then◌else◌, u8, eqb-false,
  eqb-true, set-same,
}
use linkerepc.Gtpv2c.Msg.{Msg}
use linkerepc.Gtpv2c.Stack.{
  Stack, TreeOps, IsMap, Key, Trxn, Tunnel, peer_rsp_wait, udp, start_timer, rsp_failure_ind, emit,
  set_trxn, tx_key,
}
use linkerepc.Gtpv2c.Stack.Transactions.{
  fired, retransmit, resume, give_up, delete, send_msg_retransmission, peer_rsp_wait_timeout,
  start_peer_rsp_wait_timer, ulp_tunnel,
}
use linkerepc.Gtpv2c.Stack.Deletion.{delete-tx_map, delete-out}

-- A request `p` was sent again: what was put out, and what has changed.
pub record Retried {t : TreeOps} (s r : Stack t) (p timer : ℕ) (m : Msg) : Type 0 where
  pub out :
      r.out
      ≡ start_timer (s.trxn p).t3_timer peer_rsp_wait p
        ∷ udp m.msg_buf m.msg_len (s.trxn p).peer_ip (s.trxn p).peer_port
        ∷ s.out
  pub trxn :
      r.trxn p
      ≡ (record (s.trxn p) { h_rsp_tmr = timer; max_retries = u8 ((s.trxn p).max_retries + 255) })
  pub tx_map : r.tx_map ≡ s.tx_map
  pub tunnel : r.tunnel ≡ s.tunnel

module _ {t : TreeOps} (s : Stack t) (p timer : ℕ) where
  abbrev waked : Trxn
  waked = record (s.trxn p) { h_rsp_tmr = 0 }

  abbrev sent : Msg → Stack t
  sent m =
      set_trxn p (record waked { max_retries = u8 (waked.max_retries + 255) })
        (emit (udp m.msg_buf m.msg_len waked.peer_ip waked.peer_port) (fired s p))

  sends :
      (m : Msg) → (s.trxn p).p_msg ≡ some m → send_msg_retransmission (fired s p) p ≡ some (sent m)
  unfolding send_msg_retransmission
  sends m q =
      ap (λ x. retransmit (fired s p) p x x.p_msg) (set-same s.trxn p waked)
      ∙ ap (retransmit (fired s p) p waked) q

  retries :
      (m : Msg)
      → 0 < (s.trxn p).max_retries
      → (s.trxn p).p_msg ≡ some m
      → peer_rsp_wait_timeout s p timer ≡ some (start_peer_rsp_wait_timer (sent m) p timer)
  unfolding peer_rsp_wait_timeout
  retries m l q =
      ap
        (λ c.
          if c
          then some (give_up (fired s p) p)
          else resume p timer (send_msg_retransmission (fired s p) p))
        (eqb-false (s.trxn p).max_retries 0 λ e. absurd (omega arith))
      ∙ ap (resume p timer) (sends m q)

  retried : (m : Msg) → Retried s (start_peer_rsp_wait_timer (sent m) p timer) p timer m
  unfolding start_peer_rsp_wait_timer
  retried m =
      let here =
        set-same (fired s p).trxn p (record waked { max_retries = u8 (waked.max_retries + 255) }) in
      record {
        out = ap (λ x. start_timer x.t3_timer peer_rsp_wait p ∷ (sent m).out) here;
        trxn = set-same (sent m).trxn p _ ∙ ap (λ (x : Trxn). record x { h_rsp_tmr = timer }) here;
        tx_map = refl;
        tunnel = refl;
      }

  gives_up :
      (s.trxn p).max_retries ≡ 0 → peer_rsp_wait_timeout s p timer ≡ some (give_up (fired s p) p)
  unfolding peer_rsp_wait_timeout
  gives_up e =
      ap
        (λ c.
          if c
          then some (give_up (fired s p) p)
          else resume p timer (send_msg_retransmission (fired s p) p))
        (eqb-true (s.trxn p).max_retries 0 e)

-- A request was given up.
pub record GivenUp {t : TreeOps} (s r : Stack t) (p : ℕ) : Type 0 where
  pub out : r.out ≡ rsp_failure_ind (s.trxn p).h_ulp_trxn (ulp_tunnel s (s.trxn p).h_tunnel) ∷ s.out
  pub tx_map : r.tx_map ≡ t.remove s.tx_map (tx_key (s.trxn p))

module _ {t : TreeOps} (s : Stack t) (p : ℕ) where
  abbrev unlinked : Stack t
  unlinked = record (fired s p) { tx_map = t.remove s.tx_map (tx_key ((fired s p).trxn p)) }

  fired-trxn : (fired s p).trxn p ≡ record (s.trxn p) { h_rsp_tmr = 0 }
  fired-trxn = set-same s.trxn p (record (s.trxn p) { h_rsp_tmr = 0 })

  given_up : GivenUp s (give_up (fired s p) p) p
  unfolding give_up
  given_up = record {
    out =
        ap
          (λ (x : Trxn).
            rsp_failure_ind x.h_ulp_trxn (ulp_tunnel s x.h_tunnel) ∷ (delete unlinked p).out)
          fired-trxn
        ∙ ap (λ o. rsp_failure_ind (s.trxn p).h_ulp_trxn (ulp_tunnel s (s.trxn p).h_tunnel) ∷ o)
            (delete-out unlinked p (ap (λ (x : Trxn). x.h_rsp_tmr) fired-trxn));
    tx_map = delete-tx_map unlinked p ∙ ap (λ x. t.remove s.tx_map (tx_key x)) fired-trxn;
  }

-- A request that no one answers is sent twice more, each time with a new timer. At the third timeout the
-- upper layer is told once that it failed, with its handles of the transaction and the tunnel, and the
-- transaction is no longer outstanding, while all others still are.
pub request_expires :
    {t : TreeOps} (laws : IsMap t) (s : Stack t) (p timer1 timer2 timer3 : ℕ) (m : Msg)
    → (s.trxn p).max_retries ≡ 2
    → (s.trxn p).p_msg ≡ some m
    → let x = s.trxn p in
      let starts = start_timer x.t3_timer peer_rsp_wait p in
      let again = udp m.msg_buf m.msg_len x.peer_ip x.peer_port in
      (s1 : Stack t) × (s2 : Stack t) × (s3 : Stack t) × (peer_rsp_wait_timeout s p timer1
        ≡ some s1)
      × (peer_rsp_wait_timeout s1 p timer2 ≡ some s2)
      × (peer_rsp_wait_timeout s2 p timer3 ≡ some s3)
      × (s3.out
          ≡ rsp_failure_ind x.h_ulp_trxn (ulp_tunnel s x.h_tunnel)
            ∷ starts
            ∷ again
            ∷ starts
            ∷ again
            ∷ s.out)
      × (t.find s3.tx_map (tx_key x) ≡ none)
      × ((k : Key) → tx_key x ≢ k → t.find s3.tx_map k ≡ t.find s.tx_map k)
request_expires {t} laws s p timer1 timer2 timer3 m e q =
    let x = s.trxn p in
    let told = rsp_failure_ind x.h_ulp_trxn (ulp_tunnel s x.h_tunnel) in
    let s1 = start_peer_rsp_wait_timer (sent s p timer1 m) p timer1 in
    let r1 = retried s p timer1 m in
    let e1 : (s1.trxn p).max_retries ≡ 1 =
      ap (λ (x : Trxn). x.max_retries) r1.trxn ∙ ap (λ n. u8 (n + 255)) e in
    let q1 : (s1.trxn p).p_msg ≡ some m = ap (λ (x : Trxn). x.p_msg) r1.trxn ∙ q in
    let s2 = start_peer_rsp_wait_timer (sent s1 p timer2 m) p timer2 in
    let r2 = retried s1 p timer2 m in
    let e2 : (s2.trxn p).max_retries ≡ 0 =
      ap (λ (x : Trxn). x.max_retries) r2.trxn ∙ ap (λ n. u8 (n + 255)) e1 in
    let g = given_up s2 p in
    let both =
      r2.trxn
      ∙ ap (λ (x : Trxn). record x { h_rsp_tmr = timer2; max_retries = u8 (x.max_retries + 255) })
          r1.trxn in
    let removed : (give_up (fired s2 p) p).tx_map ≡ t.remove s.tx_map (tx_key (s.trxn p)) =
      g.tx_map
      ∙ ap (λ n. t.remove n (tx_key (s2.trxn p))) (r2.tx_map ∙ r1.tx_map)
      ∙ ap (λ x. t.remove s.tx_map (tx_key x)) both in
    (
      s1,
      s2,
      give_up (fired s2 p) p,
      retries s p timer1 m (omega arith) q,
      retries s1 p timer2 m (omega arith) q1,
      gives_up s2 p timer3 e2,
      g.out
          ∙ ap (λ (y : Trxn). rsp_failure_ind y.h_ulp_trxn (ulp_tunnel s2 y.h_tunnel) ∷ s2.out) both
          ∙ ap
              (λ (f : ℕ → Tunnel).
                rsp_failure_ind x.h_ulp_trxn
                  (if x.h_tunnel == 0 then 0 else (f x.h_tunnel).h_ulp_tunnel)
                ∷ s2.out)
              (r2.tunnel ∙ r1.tunnel)
          ∙ ap (λ o. told ∷ o) r2.out
          ∙ ap
              (λ (y : Trxn).
                told
                ∷ start_timer y.t3_timer peer_rsp_wait p
                ∷ udp m.msg_buf m.msg_len y.peer_ip y.peer_port
                ∷ s1.out)
              r1.trxn
          ∙ ap
              (λ o.
                told
                ∷ start_timer x.t3_timer peer_rsp_wait p
                ∷ udp m.msg_buf m.msg_len x.peer_ip x.peer_port
                ∷ o)
              r1.out,
      ap (λ n. t.find n (tx_key (s.trxn p))) removed ∙ laws.gone s.tx_map (tx_key (s.trxn p)),
      λ k d. ap (λ n. t.find n k) removed ∙ laws.left s.tx_map (tx_key (s.trxn p)) k d,
    )
