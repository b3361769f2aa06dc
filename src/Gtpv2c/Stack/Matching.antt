-- ===== src/Gtpv2c/Stack/Matching.antt =====
-- Messages of the peers against what is outstanding: a response is matched once, and a request that comes again
-- is not handled again.
use linkerepc.Prelude.{
  ℕ, ◌≡◌, ◌≢◌, refl, sym, ap, ◌∙◌, Option, none, some, List, ◌∷◌, ◌==◌, if◌then◌else◌, eqb-false,
  set-same, set-there,
}
use linkerepc.Bytes.{Buffer}
use linkerepc.Gtpv2c.Msg.{Msg}
use linkerepc.Gtpv2c.ParseInfo.{Parsed}
use linkerepc.Gtpv2c.Stack.{
  Stack, TreeOps, IsMap, Key, Trxn, Output, udp, stop_timer, Memory, emit, tx_key, rx_key,
}
use linkerepc.Gtpv2c.Stack.Transactions.{
  resend, insert_rx, outstanding, retransmit_response, from_pool, outstanding_rx_new, ulp_tunnel,
}
use linkerepc.Gtpv2c.Stack.Udp.{
  with_state, match_rsp, tell_rsp, unlink, handle_triggered_rsp, received, seq_of,
}
use linkerepc.Gtpv2c.Stack.Deletion.{
  delete-tx_map, delete-rx_map, delete-tunnel_map, delete-stop_timer, delete-out,
}
use linkerepc.Gtpv2c.Stack.{triggered_rsp_ind}

with_state-same :
    {t : TreeOps} (s r : Stack t) (o : Option Parsed) (x : Parsed)
    → with_state s o ≡ some (x, r)
    → s ≡ r
with_state-same s r none x e = absurd cc
with_state-same s r (some y) x e = cc

received-tx_map :
    {t : TreeOps} (s r : Stack t) (mem : Memory) (y : ℕ) (b : Buffer) (len : ℕ) (x : Parsed)
    → received s mem y b len ≡ some (x, r)
    → (s.tx_map ≡ r.tx_map) × (s.out ≡ r.out)
unfolding received
received-tx_map {t} s r mem y b len x e =
    let same = with_state-same _ r _ x e in
    (ap (λ (z : Stack t). z.tx_map) same, ap (λ (z : Stack t). z.out) same)

abbrev pub rsp_key : Buffer → ℕ → Key
rsp_key b peer_ip = record { number = seq_of b; peer_ip = peer_ip; peer_port = 0 }

-- What follows from a response that matches `p` and that was handled.
matched :
    {t : TreeOps} (s r : Stack t) (mem : Memory) (y : ℕ) (b : Buffer) (len p : ℕ)
    (o : Option (Parsed × Stack t))
    → received (unlink s p) mem y b len ≡ o
    → tell_rsp y (s.trxn p).h_ulp_trxn (ulp_tunnel s (s.trxn p).h_tunnel) o ≡ some r
    → (x : Parsed) × (r.out
        ≡ triggered_rsp_ind y (s.trxn p).h_ulp_trxn (ulp_tunnel s (s.trxn p).h_tunnel) x
          ∷ (if (s.trxn p).h_rsp_tmr == 0 then s.out else stop_timer (s.trxn p).h_rsp_tmr ∷ s.out))
      × (r.tx_map ≡ t.remove s.tx_map (tx_key (s.trxn p)))
matched s r mem y b len p none c e = absurd cc
matched {t} s r mem y b len p (some (x, s2)) c e =
    let kept = received-tx_map (unlink s p) s2 mem y b len x c in
    let told = triggered_rsp_ind y (s.trxn p).h_ulp_trxn (ulp_tunnel s (s.trxn p).h_tunnel) x in
    let same : emit told s2 ≡ r = cc in
    (
      x,
      ap (λ (z : Stack t). z.out) (sym same)
          ∙ ap (λ o. told ∷ o)
              (sym kept.1
                ∙ delete-stop_timer (record s { tx_map = t.remove s.tx_map (tx_key (s.trxn p)) })
                    p),
      ap (λ (z : Stack t). z.tx_map) (sym same) ∙ sym kept.0 ∙ delete-tx_map _ p,
    )

-- A response to the outstanding request `p` that is handled is told to the upper layer once, with the handles
-- of that request; but for the stop of the request's timer, if it has one, nothing else is put out. The request
-- is then no longer outstanding, while all others still are, and the same response is discarded when it comes again.
pub handle_triggered_rsp_once :
    {t : TreeOps} (laws : IsMap t) (s r : Stack t) (mem mem2 : Memory) (y : ℕ) (b : Buffer)
    (len peer_ip p : ℕ)
    → t.find s.tx_map (rsp_key b peer_ip) ≡ some p
    → tx_key (s.trxn p) ≡ rsp_key b peer_ip
    → handle_triggered_rsp s mem y b len peer_ip ≡ some r
    → ((x : Parsed) × (r.out
          ≡ triggered_rsp_ind y (s.trxn p).h_ulp_trxn (ulp_tunnel s (s.trxn p).h_tunnel) x
            ∷ (if (s.trxn p).h_rsp_tmr == 0
                then s.out
                else stop_timer (s.trxn p).h_rsp_tmr ∷ s.out)))
      × (t.find r.tx_map (rsp_key b peer_ip) ≡ none)
      × ((k : Key) → rsp_key b peer_ip ≢ k → t.find r.tx_map k ≡ t.find s.tx_map k)
      × (handle_triggered_rsp r mem2 y b len peer_ip ≡ some r)
unfolding handle_triggered_rsp
handle_triggered_rsp_once {t} laws s r mem mem2 y b len peer_ip p f k e =
    let handled = sym (ap (match_rsp s mem y b len) f) ∙ e in
    let (x, o, m) = matched s r mem y b len p _ refl handled in
    let removed : r.tx_map ≡ t.remove s.tx_map (rsp_key b peer_ip) = m ∙ ap (t.remove s.tx_map) k in
    let absent : t.find r.tx_map (rsp_key b peer_ip) ≡ none =
      ap (λ n. t.find n (rsp_key b peer_ip)) removed ∙ laws.gone s.tx_map (rsp_key b peer_ip) in
    (
      (x, o),
      absent,
      (λ l d. ap (λ n. t.find n l) removed ∙ laws.left s.tx_map (rsp_key b peer_ip) l d),
      ap (match_rsp r mem2 y b len) absent,
    )

abbrev pub req_key : ℕ → ℕ → ℕ → Key
req_key peer_ip peer_port seq_num = record {
  number = seq_num;
  peer_ip = peer_ip;
  peer_port = peer_port;
}

module _ {t : TreeOps} (s : Stack t) (mem : Memory) (peer_ip peer_port seq_num : ℕ) where
  abbrev storage : ℕ
  storage = (from_pool s.trxn_pool mem.new_trxn).0

  abbrev made : Stack t
  made = outstanding s (from_pool s.trxn_pool mem.new_trxn).1 storage peer_ip peer_port seq_num

  steps :
      (o : Option ℕ)
      → storage ≢ 0
      → t.find s.rx_map (req_key peer_ip peer_port seq_num) ≡ o
      → outstanding_rx_new s mem peer_ip peer_port seq_num
        ≡ insert_rx made storage (req_key peer_ip peer_port seq_num) o
  unfolding outstanding_rx_new
  steps o d f =
      rw (eqb-false storage 0 d) (ap (insert_rx made storage (req_key peer_ip peer_port seq_num)) f)

resend-kept :
    {t : TreeOps} (x : Trxn) (o : Option Msg) (z : Stack t)
    → ((resend x o z).rx_map ≡ z.rx_map)
      × ((resend x o z).tx_map ≡ z.tx_map)
      × ((resend x o z).tunnel_map ≡ z.tunnel_map)
      × ((resend x o z).trxn ≡ z.trxn)
resend-kept x none z = (refl, refl, refl, refl)
resend-kept x (some m) z = (refl, refl, refl, refl)

-- The outputs with a stored response, if there is one, sent again to a peer before them.
abbrev pub sent_again : Option Msg → ℕ → ℕ → List Output → List Output
sent_again none ip port out = out
sent_again (some m) ip port out = udp m.msg_buf m.msg_len ip port ∷ out

resend-out :
    {t : TreeOps} (x : Trxn) (o : Option Msg) (z : Stack t)
    → (resend x o z).out ≡ sent_again o x.peer_ip x.peer_port z.out
resend-out x none z = refl
resend-out x (some m) z = refl

-- A request that is not outstanding gets a transaction, which is then found under the sender and the
-- sequence number, while all others are found as before. Nothing is put out.
pub outstanding_rx_new_fresh :
    {t : TreeOps} (laws : IsMap t) (s : Stack t) (mem : Memory) (peer_ip peer_port seq_num : ℕ)
    → storage s mem peer_ip peer_port seq_num ≢ 0
    → t.find s.rx_map (req_key peer_ip peer_port seq_num) ≡ none
    → let p = (outstanding_rx_new s mem peer_ip peer_port seq_num).0 in
      let r = (outstanding_rx_new s mem peer_ip peer_port seq_num).1 in
      (p ≢ 0)
      × (t.find r.rx_map (req_key peer_ip peer_port seq_num) ≡ some p)
      × ((k : Key) → req_key peer_ip peer_port seq_num ≢ k → t.find r.rx_map k ≡ t.find s.rx_map k)
      × (rx_key (r.trxn p) ≡ req_key peer_ip peer_port seq_num)
      × ((r.trxn p).p_msg ≡ none)
      × (r.out ≡ s.out)
outstanding_rx_new_fresh {t} laws s mem peer_ip peer_port seq_num d f =
    let p = storage s mem peer_ip peer_port seq_num in
    let key = req_key peer_ip peer_port seq_num in
    let here = set-same s.trxn p _ in
    rw (steps s mem peer_ip peer_port seq_num none d f) (
      d,
      laws.found s.rx_map key p,
      (λ k n. laws.kept s.rx_map key k p n),
      ap rx_key here,
      ap (λ (x : Trxn). x.p_msg) here,
      refl,
    )

-- A request that is outstanding gets no transaction and no tree changes, with memory for a new object, other than
-- that of the first request: all that is put out is the response, if there is one already, to the peer of the
-- first request.
pub outstanding_rx_new_duplicate :
    {t : TreeOps} (s : Stack t) (mem : Memory) (peer_ip peer_port seq_num c : ℕ)
    → storage s mem peer_ip peer_port seq_num ≢ 0
    → storage s mem peer_ip peer_port seq_num ≢ c
    → t.find s.rx_map (req_key peer_ip peer_port seq_num) ≡ some c
    → let r = (outstanding_rx_new s mem peer_ip peer_port seq_num).1 in
      ((outstanding_rx_new s mem peer_ip peer_port seq_num).0 ≡ 0)
      × (r.rx_map ≡ s.rx_map)
      × (r.tx_map ≡ s.tx_map)
      × (r.tunnel_map ≡ s.tunnel_map)
      × (r.out ≡ sent_again (s.trxn c).p_msg (s.trxn c).peer_ip (s.trxn c).peer_port s.out)
outstanding_rx_new_duplicate {t} s mem peer_ip peer_port seq_num c d n f =
    let p = storage s mem peer_ip peer_port seq_num in
    let m = made s mem peer_ip peer_port seq_num in
    let x = m.trxn c in
    let kept = resend-kept x x.p_msg m in
    let first : x ≡ s.trxn c = set-there s.trxn p c _ n in
    let idle : ((retransmit_response x m).trxn p).h_rsp_tmr ≡ 0 =
      ap (λ (g : ℕ → Trxn). (g p).h_rsp_tmr) kept.3
      ∙ ap (λ (z : Trxn). z.h_rsp_tmr) (set-same s.trxn p _) in
    rw (steps s mem peer_ip peer_port seq_num (some c) d f) (
      refl,
      delete-rx_map (retransmit_response x m) p ∙ kept.0,
      delete-tx_map (retransmit_response x m) p ∙ kept.1,
      delete-tunnel_map (retransmit_response x m) p ∙ kept.2,
      delete-out (retransmit_response x m) p idle
          ∙ resend-out x x.p_msg m
          ∙ ap (λ (z : Trxn). sent_again z.p_msg z.peer_ip z.peer_port s.out) first,
    )
