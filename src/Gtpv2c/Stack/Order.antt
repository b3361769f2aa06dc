-- ===== src/Gtpv2c/Stack/Order.antt =====
-- nw-gtpv2c/src/NwGtpv2c.c: the comparators of the trees. Positive, negative and 0 are `above`, `below`
-- and `same`.
use linkerepc.Prelude.{ℕ, ◌≡◌, refl, ap, arith, ltb, if◌then◌else◌}
use linkerepc.Gtpv2c.Stack.{Trxn, Tunnel, Key, tx_key, rx_key, tunnel_key}

pub data Sign : Type 0 where
  above below same : Sign

-- `if(a > b) return 1; if(a < b) return -1;` and what follows.
abbrev pub by : ℕ → ℕ → Sign → Sign
by a b rest = if ltb b a then above else if ltb a b then below else rest

-- `nwGtpv2cCompareTunnel`
unfoldable pub compare_tunnel : Tunnel → Tunnel → Sign
compare_tunnel a b = by a.teid b.teid (by a.ipv4_addr_remote b.ipv4_addr_remote same)

-- `nwGtpv2cCompareOutstandingTxSeqNumTrxn`
unfoldable pub compare_tx : Trxn → Trxn → Sign
compare_tx a b = by a.seq_num b.seq_num (by a.peer_ip b.peer_ip same)

-- `nwGtpv2cCompareOutstandingRxSeqNumTrxn`
unfoldable pub compare_rx : Trxn → Trxn → Sign
compare_rx a b = by a.seq_num b.seq_num (by a.peer_ip b.peer_ip (by a.peer_port b.peer_port same))

-- A comparator is a strict order in which exactly the objects with one key are the same: what a search
-- tree needs.
pub record IsOrder {A : Type 0} (compare : A → A → Sign) (key : A → Key) : Type 0 where
  pub equal : (a b : A) → compare a b ≡ same → key a ≡ key b
  pub reflexive : (a b : A) → key a ≡ key b → compare a b ≡ same
  pub turned : (a b : A) → compare a b ≡ above → compare b a ≡ below
  pub turned_back : (a b : A) → compare a b ≡ below → compare b a ≡ above
  pub transitive : (a b c : A) → compare a b ≡ below → compare b c ≡ below → compare a c ≡ below

key-ext :
    (k l : Key) → k.number ≡ l.number → k.peer_ip ≡ l.peer_ip → k.peer_port ≡ l.peer_port → k ≡ l
key-ext k l a b c = λ i. record { number = a i; peer_ip = b i; peer_port = c i }

compare_rx-same :
    (a b : Trxn)
    → compare_rx a b ≡ same
    → (a.seq_num ≡ b.seq_num) × (a.peer_ip ≡ b.peer_ip) × (a.peer_port ≡ b.peer_port)
unfolding compare_rx
compare_rx-same a b e = ground arith

compare_tx-same :
    (a b : Trxn) → compare_tx a b ≡ same → (a.seq_num ≡ b.seq_num) × (a.peer_ip ≡ b.peer_ip)
unfolding compare_tx
compare_tx-same a b e = ground arith

compare_tunnel-same :
    (a b : Tunnel)
    → compare_tunnel a b ≡ same
    → (a.teid ≡ b.teid) × (a.ipv4_addr_remote ≡ b.ipv4_addr_remote)
unfolding compare_tunnel
compare_tunnel-same a b e = ground arith

same-by3 : (a b c d e f : ℕ) → a ≡ b → c ≡ d → e ≡ f → by a b (by c d (by e f same)) ≡ same
same-by3 a b c d e f p q r = ground arith

same-by2 : (a b c d : ℕ) → a ≡ b → c ≡ d → by a b (by c d same) ≡ same
same-by2 a b c d p q = ground arith

-- The outstanding requests of the peers are in order, and exactly those with one sequence number, address and
-- port are the same.
compare_rx-IsOrder : IsOrder compare_rx rx_key
unfolding compare_rx
compare_rx-IsOrder = record {
  equal = λ a b e. let (p, q, r) = compare_rx-same a b e in key-ext (rx_key a) (rx_key b) p q r;
  reflexive = λ a b e.
      same-by3 a.seq_num b.seq_num a.peer_ip b.peer_ip a.peer_port b.peer_port
        (ap (λ (k : Key). k.number) e) (ap (λ (k : Key). k.peer_ip) e)
        (ap (λ (k : Key). k.peer_port) e);
  turned = λ a b e. ground arith;
  turned_back = λ a b e. ground arith;
  transitive = λ a b c e f. ground arith;
}

-- The outstanding requests to the peers are in order, and exactly those with one sequence number and address are
-- the same, whatever their ports.
compare_tx-IsOrder : IsOrder compare_tx tx_key
unfolding compare_tx
compare_tx-IsOrder = record {
  equal = λ a b e. let (p, q) = compare_tx-same a b e in key-ext (tx_key a) (tx_key b) p q refl;
  reflexive = λ a b e.
      same-by2 a.seq_num b.seq_num a.peer_ip b.peer_ip (ap (λ (k : Key). k.number) e)
        (ap (λ (k : Key). k.peer_ip) e);
  turned = λ a b e. ground arith;
  turned_back = λ a b e. ground arith;
  transitive = λ a b c e f. ground arith;
}

abbrev pub key_of_tunnel : Tunnel → Key
key_of_tunnel x = tunnel_key x.teid x.ipv4_addr_remote

-- The tunnels are in order, and exactly those with one TEID and one remote address are the same.
compare_tunnel-IsOrder : IsOrder compare_tunnel key_of_tunnel
unfolding compare_tunnel
compare_tunnel-IsOrder = record {
  equal = λ a b e.
      let (p, q) = compare_tunnel-same a b e in
      key-ext (key_of_tunnel a) (key_of_tunnel b) p q refl;
  reflexive = λ a b e.
      same-by2 a.teid b.teid a.ipv4_addr_remote b.ipv4_addr_remote (ap (λ (k : Key). k.number) e)
        (ap (λ (k : Key). k.peer_ip) e);
  turned = λ a b e. ground arith;
  turned_back = λ a b e. ground arith;
  transitive = λ a b c e f. ground arith;
}

-- The outstanding requests of the peers, those to the peers, and the tunnels are each in order. Exactly those are the
-- same that have one sequence number, address and port; one sequence number and address, whatever the ports; one TEID
-- and remote address.
pub stack_comparators-IsOrder :
    IsOrder compare_rx rx_key × IsOrder compare_tx tx_key × IsOrder compare_tunnel key_of_tunnel
stack_comparators-IsOrder = (compare_rx-IsOrder, compare_tx-IsOrder, compare_tunnel-IsOrder)
