-- ===== src/Gtpv2c/Stack/Numbering.antt =====
-- nw-gtpv2c/src/NwGtpv2cTrxn.c: the sequence numbers of requests.
use linkerepc.Prelude.{
  ◌+◌, ◌%◌, ◌<◌, ◌≡◌, ◌≢◌, inl, inr, refl, ap, arith, none, ◌==◌, Bool-cases, set-same,
}
use linkerepc.Gtpv2c.Stack.{Stack, TreeOps, Trxn, Memory}
use linkerepc.Gtpv2c.Stack.Transactions.{from_pool, new}

-- The number of the next request is taken for a new transaction, with memory for it, which may be sent twice more; the
-- numbers run through the 23 bits that the sequence number of a request has, and begin again. Nothing is put
-- out, and no tree changes.
pub new-seq_num :
    {t : TreeOps} (s : Stack t) (mem : Memory)
    → s.seq_num < 8388608
    → (new s mem).0 ≢ 0
    → let p = (new s mem).0 in
      let r = (new s mem).1 in
      ((r.trxn p).seq_num ≡ s.seq_num)
      × ((r.trxn p).max_retries ≡ 2)
      × ((r.trxn p).p_msg ≡ none)
      × (r.seq_num ≡ (s.seq_num + 1) % 8388608)
      × (r.tx_map ≡ s.tx_map)
      × (r.rx_map ≡ s.rx_map)
      × (r.tunnel_map ≡ s.tunnel_map)
      × (r.out ≡ s.out)
unfolding new
new-seq_num s mem l d =
    let (p, pool) = from_pool s.trxn_pool mem.new_trxn in
    elim (Bool-cases (p == 0)) [
      | inl e ↦ absurd (d (rw e refl))
      | inr e ↦
          let here = set-same s.trxn p (record (s.trxn p) {
            p_msg = none;
            max_retries = 2;
            t3_timer = 2;
            seq_num = s.seq_num;
          }) in
          rw e (
            ap (λ (x : Trxn). x.seq_num) here,
            ap (λ (x : Trxn). x.max_retries) here,
            ap (λ (x : Trxn). x.p_msg) here,
            ground arith,
            refl,
            refl,
            refl,
            refl,
          )
    ]
