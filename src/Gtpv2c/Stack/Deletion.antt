-- ===== src/Gtpv2c/Stack/Deletion.antt =====
-- nw-gtpv2c/src/NwGtpv2cTrxn.c: what deleting a transaction leaves as it was.
use linkerepc.Prelude.{
  Bool, ℕ, ◌∷◌, ◌≡◌, refl, ap, ◌∙◌, Option, none, some, ◌==◌, if◌then◌else◌, true, false, eqb-true,
}
use linkerepc.Gtpv2c.Msg.{Msg}
use linkerepc.Gtpv2c.Stack.{Stack, TreeOps, stop_timer}
use linkerepc.Gtpv2c.Stack.Transactions.{release_msg, delete, stop_peer_rsp_timer}

release_msg-maps :
    {t : TreeOps} (o : Option Msg) (s : Stack t)
    → ((release_msg o s).tx_map ≡ s.tx_map)
      × ((release_msg o s).rx_map ≡ s.rx_map)
      × ((release_msg o s).tunnel_map ≡ s.tunnel_map)
      × ((release_msg o s).out ≡ s.out)
release_msg-maps none s = (refl, refl, refl, refl)
release_msg-maps (some m) s = (refl, refl, refl, refl)

-- Deleting a transaction leaves the trees, and a timer that does not run is not stopped.
pub delete-tx_map : {t : TreeOps} (s : Stack t) (p : ℕ) → (delete s p).tx_map ≡ s.tx_map
unfolding delete stop_peer_rsp_timer
delete-tx_map s p = (release_msg-maps (s.trxn p).p_msg _).0 ∙ go ((s.trxn p).h_rsp_tmr == 0)
  where
    go : (c : Bool) → (if c then s else stop_peer_rsp_timer s p).tx_map ≡ s.tx_map
    go true = refl
    go false = refl

pub delete-rx_map : {t : TreeOps} (s : Stack t) (p : ℕ) → (delete s p).rx_map ≡ s.rx_map
unfolding delete stop_peer_rsp_timer
delete-rx_map s p = (release_msg-maps (s.trxn p).p_msg _).1 ∙ go ((s.trxn p).h_rsp_tmr == 0)
  where
    go : (c : Bool) → (if c then s else stop_peer_rsp_timer s p).rx_map ≡ s.rx_map
    go true = refl
    go false = refl

pub delete-tunnel_map : {t : TreeOps} (s : Stack t) (p : ℕ) → (delete s p).tunnel_map ≡ s.tunnel_map
unfolding delete stop_peer_rsp_timer
delete-tunnel_map s p = (release_msg-maps (s.trxn p).p_msg _).2 ∙ go ((s.trxn p).h_rsp_tmr == 0)
  where
    go : (c : Bool) → (if c then s else stop_peer_rsp_timer s p).tunnel_map ≡ s.tunnel_map
    go true = refl
    go false = refl

-- A timer that runs is stopped, and nothing else is put out.
pub delete-stop_timer :
    {t : TreeOps} (s : Stack t) (p : ℕ)
    → (delete s p).out
      ≡ (if (s.trxn p).h_rsp_tmr == 0 then s.out else stop_timer (s.trxn p).h_rsp_tmr ∷ s.out)
unfolding delete stop_peer_rsp_timer
delete-stop_timer s p = (release_msg-maps (s.trxn p).p_msg _).3 ∙ go ((s.trxn p).h_rsp_tmr == 0)
  where
    go :
        (c : Bool)
        → (if c then s else stop_peer_rsp_timer s p).out
          ≡ (if c then s.out else stop_timer (s.trxn p).h_rsp_tmr ∷ s.out)
    go true = refl
    go false = refl

pub delete-out :
    {t : TreeOps} (s : Stack t) (p : ℕ) → (s.trxn p).h_rsp_tmr ≡ 0 → (delete s p).out ≡ s.out
unfolding delete
delete-out s p e =
    (release_msg-maps (s.trxn p).p_msg _).3
    ∙ ap (λ c. (if c then s else stop_peer_rsp_timer s p).out) (eqb-true (s.trxn p).h_rsp_tmr 0 e)
