-- ===== src/Gtpv1u/Stack/Expiry.antt =====
-- A request to a peer, from its sending to its failure.
use linkerepc.Prelude.{
  ℕ, ◌+◌, ◌<◌, ◌≡◌, ◌≢◌, refl, ap, ap₂, sym, subst, ◌∙◌, arith, Bool, none, some, ◌∷◌, ◌==◌,
  if◌then◌else◌, eqb-false, eqb-true, u8, set-here,
}
use linkerepc.Gtpv1u.Msg.{Msg}
use linkerepc.Gtpv1u.Stack.{
  Stack, TreeOps, Trxn, tx_key, udp, start_timer, rsp_failure, emit, Output,
}
use linkerepc.Gtpv1u.Stack.Storage.{msg_delete}
use linkerepc.Gtpv1u.Stack.Transactions.{
  trxn_delete, stop_peer_rsp_timer, send_msg_retransmission, after_resend, restart, give_up,
  trxn_peer_rsp_timeout, set_trxn,
}

-- The transaction `p` is `x`, and its message is `m`.
pub record Awaits {t : TreeOps} (s : Stack t) (p : ℕ) (x : Trxn) (m : Msg) : Type 0 where
  pub trxn : s.trxn p ≡ x
  pub msg : s.msg x.p_msg ≡ m
  pub sent : x.p_msg ≢ 0

-- The message of a transaction goes to its peer.
abbrev pub datagram : Trxn → Msg → Output
datagram x m = udp m.msg_buf m.msg_len x.peer_ip x.peer_port

abbrev again : {t : TreeOps} → Stack t → ℕ → Stack t
again s p = emit (datagram (s.trxn p) (s.msg (s.trxn p).p_msg)) s

abbrev pub retried : Trxn → ℕ → Trxn
retried x timer = record x { h_rsp_tmr = timer; max_retries = u8 (x.max_retries + 255) }

module _ {t : TreeOps} (s : Stack t) (p timer : ℕ) (x : Trxn) (m : Msg) (w : Awaits s p x m) where
  times_out :
      trxn_peer_rsp_timeout s p timer
      ≡ some (if x.max_retries == 0 then give_up (again s p) p else restart (again s p) p timer)
  unfolding trxn_peer_rsp_timeout send_msg_retransmission
  times_out =
      ap (λ c. after_resend p timer (if c then none else some (again s p)))
        (ap (λ (y : Trxn). y.p_msg == 0) w.trxn ∙ eqb-false x.p_msg 0 w.sent)
      ∙ ap
          (λ (y : Trxn).
            some
              (if y.max_retries == 0 then give_up (again s p) p else restart (again s p) p timer))
          w.trxn

  resent : datagram (s.trxn p) (s.msg (s.trxn p).p_msg) ≡ datagram x m
  resent = ap (λ (y : Trxn). datagram y (s.msg y.p_msg)) w.trxn ∙ ap (datagram x) w.msg

  -- With retries left, the message is sent again and the timer started again.
  pub retries :
      0 < x.max_retries
      → (r : Stack t) × (trxn_peer_rsp_timeout s p timer ≡ some r)
        × Awaits r p (retried x timer) m
        × (r.out ≡ start_timer x.t3_timer p ∷ datagram x m ∷ s.out)
        × (r.tx_map ≡ s.tx_map)
        × (r.trxn_pool ≡ s.trxn_pool)
  retries l = (
    restart (again s p) p timer,
    times_out
        ∙ ap (λ c. some (if c then give_up (again s p) p else restart (again s p) p timer))
            (eqb-false x.max_retries 0 λ e. absurd (omega arith)),
    record {
      trxn = set-here s.trxn p p (retried (s.trxn p) timer) refl ∙ ap (λ y. retried y timer) w.trxn;
      msg = w.msg;
      sent = w.sent;
    },
    ap₂ (λ (y : Trxn) o. start_timer y.t3_timer p ∷ o ∷ s.out) w.trxn resent,
    refl,
    refl,
  )

-- A transaction without a timer is deleted with its message.
deletes :
    {t : TreeOps} (s : Stack t) (p : ℕ)
    → (s.trxn p).h_rsp_tmr ≡ 0
    → (s.trxn p).p_msg ≢ 0
    → trxn_delete s p
      ≡ (record s { msg_pool = (s.trxn p).p_msg ∷ s.msg_pool; trxn_pool = p ∷ s.trxn_pool })
unfolding trxn_delete
deletes {t} s p e d =
    let x = s.trxn p in
    let freed : Bool → Stack t → Stack t = λ c r. if c then r else msg_delete r x.p_msg in
    let pooled : Stack t → Stack t = λ r. record r { trxn_pool = p ∷ r.trxn_pool } in
    ap (λ c. pooled (freed (x.p_msg == 0) (if c then s else stop_peer_rsp_timer s p)))
      (eqb-true x.h_rsp_tmr 0 e)
    ∙ ap (λ c. pooled (freed c s)) (eqb-false x.p_msg 0 d)

module _ {t : TreeOps} (s : Stack t) (p timer : ℕ) (x : Trxn) (m : Msg) (w : Awaits s p x m) where
  abbrev halted : Stack t
  halted = set_trxn p (record (s.trxn p) { h_rsp_tmr = 0 }) (again s p)

  -- Without retries left, the message is sent once more, and the upper layer is told. The transaction is in
  -- its pool and in the tree.
  pub expires :
      x.max_retries ≡ 0
      → (r : Stack t) × (trxn_peer_rsp_timeout s p timer ≡ some r)
        × (r.out ≡ rsp_failure m.msg_type x.h_ulp_trxn x.peer_ip x.peer_port ∷ datagram x m ∷ s.out)
        × (r.tx_map ≡ s.tx_map)
        × (r.trxn_pool ≡ p ∷ s.trxn_pool)
        × (r.msg_pool ≡ x.p_msg ∷ s.msg_pool)
        × ((r.trxn p).p_msg ≡ x.p_msg)
        × (tx_key (r.trxn p) ≡ tx_key x)
  expires e =
      let told : Trxn → Output =
        λ y. rsp_failure (s.msg y.p_msg).msg_type y.h_ulp_trxn y.peer_ip y.peer_port in
      let here : halted.trxn p ≡ record (s.trxn p) { h_rsp_tmr = 0 } =
        set-here s.trxn p p (record (s.trxn p) { h_rsp_tmr = 0 }) refl in
      let whole : halted.trxn p ≡ record x { h_rsp_tmr = 0 } =
        here ∙ ap (λ (y : Trxn). record y { h_rsp_tmr = 0 }) w.trxn in
      let gone =
        deletes halted p (ap (λ (y : Trxn). y.h_rsp_tmr) whole)
          (subst (λ (y : Trxn). y.p_msg ≢ 0) (sym whole) w.sent) in
      (
        give_up (again s p) p,
        times_out s p timer x m w
            ∙ ap (λ c. some (if c then give_up (again s p) p else restart (again s p) p timer))
                (eqb-true x.max_retries 0 e),
        ap (λ (r : Stack t). told (s.trxn p) ∷ r.out) gone
            ∙ ap (λ y. told y ∷ datagram (s.trxn p) (s.msg (s.trxn p).p_msg) ∷ s.out) w.trxn
            ∙ ap₂
                (λ (n : Msg) o.
                  rsp_failure n.msg_type x.h_ulp_trxn x.peer_ip x.peer_port ∷ o ∷ s.out)
                w.msg (resent s p timer x m w),
        ap (λ (r : Stack t). r.tx_map) gone,
        ap (λ (r : Stack t). r.trxn_pool) gone,
        ap (λ (r : Stack t). r.msg_pool) gone ∙ ap (λ (y : Trxn). y.p_msg ∷ s.msg_pool) whole,
        ap (λ (r : Stack t). (r.trxn p).p_msg) gone ∙ ap (λ (y : Trxn). y.p_msg) whole,
        ap (λ (r : Stack t). tx_key (r.trxn p)) gone ∙ ap tx_key whole,
      )
