-- ===== src/Gtpv1u/Stack/Requests.antt =====
-- A request to a peer that is put out.
use linkerepc.Prelude.{
  ℕ, ◌≡◌, ◌≢◌, refl, ap, subst, ◌∙◌, none, ◌∷◌, ◌==◌, if◌then◌else◌, if-elim, eqb-false, set,
  set-here,
}
use linkerepc.Gtpv1u.Msg.{Msg, write_trxn_header}
use linkerepc.Gtpv1u.Stack.{
  Stack, TreeOps, Rc, ok, failure, Trxn, Environment, tx_key, udp, start_timer, emit,
}
use linkerepc.Gtpv1u.Stack.Storage.{from_pool, set_msg}
use linkerepc.Gtpv1u.Stack.Transactions.{numbered, trxn_new, trxn_create_and_send_msg, keep_msg}
use linkerepc.Gtpv1u.Stack.Ulp.{initial_req, after_send, insert_new}
use linkerepc.Gtpv1u.Stack.Expiry.{Awaits}

trxn_new-numbered :
    {t : TreeOps} (s : Stack t) (env : Environment)
    → (trxn_new s env).0 ≢ 0
    → trxn_new s env ≡ numbered s env
unfolding trxn_new
trxn_new-numbered s env =
    let (p, pool) = from_pool s.trxn_pool env.new_trxn in
    if-elim (λ (x : ℕ × Stack _). x.0 ≢ 0 → x ≡ numbered s env) (p == 0)
      (0, record s { trxn_pool = pool }) (numbered s env) (λ d. absurd (d refl)) (λ d. refl)

module _ {t : TreeOps} (S : Stack t) (env : Environment) (p peer_ip peer_port h_msg : ℕ) (x : Trxn)
    (e : S.trxn p ≡ x) where
  abbrev pub kept : Trxn
  kept = record x {
    p_msg = h_msg;
    peer_ip = peer_ip;
    peer_port = peer_port;
    h_rsp_tmr = env.new_timer;
  }

  abbrev pub entered : Rc × Stack t
  entered = after_send p (keep_msg S env p peer_ip peer_port h_msg ok)

  pub enters :
      h_msg ≢ 0
      → t.find S.tx_map (tx_key kept) ≡ none
      → (entered.0 ≡ ok)
        × Awaits entered.1 p kept (S.msg h_msg)
        × (entered.1.out ≡ start_timer x.t3_timer p ∷ S.out)
        × (entered.1.tx_map ≡ t.insert S.tx_map (tx_key kept) p)
        × (entered.1.trxn_pool ≡ S.trxn_pool)
  enters d f =
      let filled : Trxn = record (S.trxn p) {
        p_msg = h_msg;
        peer_ip = peer_ip;
        peer_port = peer_port;
      } in
      let first : set S.trxn p filled p
          ≡ record x { p_msg = h_msg; peer_ip = peer_ip; peer_port = peer_port } =
        set-here S.trxn p p filled refl
        ∙ ap (λ (y : Trxn). record y { p_msg = h_msg; peer_ip = peer_ip; peer_port = peer_port })
            e in
      let own : entered.1.trxn p ≡ kept =
        set-here (set S.trxn p filled) p p _ refl
        ∙ ap (λ (y : Trxn). record y { h_rsp_tmr = env.new_timer }) first in
      (
        refl,
        record { trxn = own; msg = refl; sent = d },
        ap (λ (y : Trxn). start_timer y.t3_timer p ∷ S.out) first,
        ap (λ y. insert_new t S.tx_map (tx_key y) p (t.find S.tx_map (tx_key y))) own
            ∙ ap (insert_new t S.tx_map (tx_key kept) p) f,
        refl,
      )

module _ {t : TreeOps} (s : Stack t) (env : Environment) (peer_ip peer_port h_msg : ℕ) where
  abbrev p : ℕ
  p = (from_pool s.trxn_pool env.new_trxn).0

  abbrev x : Trxn
  x = record (s.trxn p) { max_retries = 2; t3_timer = 2; seq_num = s.seq }

  abbrev m : Msg
  m = write_trxn_header (s.msg h_msg) s.seq

  -- The state in which the message of a request has been put out.
  unfoldable pub put_out : Stack t
  put_out =
      let s1 = (numbered s env).1 in
      let m = write_trxn_header (s1.msg h_msg) (s1.trxn p).seq_num in
      emit (udp m.msg_buf m.msg_len peer_ip peer_port) (set_msg h_msg m s1)

  pub put_out-parts :
      (put_out.trxn p ≡ x)
      × (put_out.msg h_msg ≡ m)
      × (put_out.out ≡ udp m.msg_buf m.msg_len peer_ip peer_port ∷ s.out)
      × (put_out.tx_map ≡ s.tx_map)
      × (put_out.trxn_pool ≡ (from_pool s.trxn_pool env.new_trxn).1)
  unfolding put_out
  put_out-parts =
      let own = set-here s.trxn p p x refl in
      let same = ap (λ (y : Trxn). write_trxn_header (s.msg h_msg) y.seq_num) own in
      (
        own,
        set-here s.msg h_msg h_msg _ refl ∙ same,
        ap (λ (n : Msg). udp n.msg_buf n.msg_len peer_ip peer_port ∷ s.out) same,
        refl,
        refl,
      )

  pub dispatches :
      (trxn_new s env).0 ≢ 0
      → env.udp_rc ≡ ok
      → initial_req s env peer_ip peer_port h_msg
        ≡ after_send p (keep_msg put_out env p peer_ip peer_port h_msg ok)
  unfolding initial_req trxn_create_and_send_msg put_out
  dispatches d e =
      let q = trxn_new-numbered s env d in
      ap
        (λ (y : ℕ × Stack t).
          if y.0 == 0
          then (failure, y.1)
          else after_send y.0 (trxn_create_and_send_msg y.1 env y.0 peer_ip peer_port h_msg))
        q
      ∙ ap
          (λ c.
            if c
            then (failure, (numbered s env).1)
            else after_send p
                (trxn_create_and_send_msg (numbered s env).1 env p peer_ip peer_port h_msg))
          (eqb-false p 0 (subst (λ (y : ℕ × Stack t). y.0 ≢ 0) q d))
      ∙ ap (λ rc. after_send p (keep_msg put_out env p peer_ip peer_port h_msg rc)) e
