-- ===== src/Sdp/Downlink.antt =====
-- An IPv4 packet to a user, from the frame to the GTPv1-U datagram.
use linkerepc.Prelude.{
  ℕ, ◌+◌, ◌-◌, ◌<◌, ◌≤◌, ◌≡◌, ◌≢◌, refl, ap, ap₂, sym, subst, ◌∙◌, arith, true, none, some, [], ◌∷◌,
  ◌++◌, ◌==◌, if◌then◌else◌, eqb-true, eqb-false, u16, u32, htons, set-here,
}
use linkerepc.Trees.{TreeOps}
use linkerepc.Bytes.{Buffer, load16, load32, copy}
use linkerepc.Gtpv1u.Msg.{Msg, init_gpdu, write_header, set_teid, receive}
use linkerepc.Gtpv1u.Msg.Payload.{gpdu_of, carried, Carried}
use linkerepc.Gtpv1u.Stack as Gtpu
use linkerepc.Gtpv1u.Stack.{Rc, ok, failure, unset, udp}
use linkerepc.Gtpv1u.Stack.Storage.{from_pool, made, make_msg-made, gpdu_msg_new, msg_delete}
use linkerepc.Gtpv1u.Stack.Ulp.{sendto, create_and_send_msg}
use linkerepc.Ipv4
use linkerepc.Sdp.{
  Sdp, Environment, EndPoint, gtpu, bind, sent_gtpu, send_over_gtpu, process_ipv4_data_indication,
  ipv4_called, calls, process_ipv4_data_ind,
}

-- A payload that is sent over the GTPv1-U stack.
module _ {t : TreeOps} (G : Gtpu.Stack t) (env : Gtpu.Environment) (teid ip : ℕ) (tpdu : Buffer)
    (n : ℕ) where
  abbrev h : ℕ
  h = (from_pool G.msg_pool env.new_msg).0

  abbrev datagram : Msg
  datagram = write_header (gpdu_of (G.msg h) teid 0 0 tpdu n)

  abbrev Sent : ℕ × Gtpu.Stack t → Type 0
  Sent x =
      (x.0 ≡ h)
      × ((sendto x.1 env teid ip x.0).1.out ≡ udp datagram.msg_buf datagram.msg_len ip 2152 ∷ G.out)
      × ((sendto x.1 env teid ip x.0).1.msg_pool ≡ (from_pool G.msg_pool env.new_msg).1)

  made_nonnull : h ≢ 0 → (gpdu_msg_new G env teid 0 0 tpdu n).0 ≢ 0
  unfolding gpdu_msg_new
  made_nonnull d =
      subst
        (λ c.
          (if c
            then (0, record G { msg_pool = (from_pool G.msg_pool env.new_msg).1 })
            else made G env (λ r. init_gpdu r teid 0 0 tpdu n)).0
          ≢ 0)
        (sym (eqb-false h 0 d)) d

  pub sends_gpdu : h ≢ 0 → Sent (gpdu_msg_new G env teid 0 0 tpdu n)
  unfolding sendto create_and_send_msg gpdu_msg_new init_gpdu
  sends_gpdu d =
      let f : Msg → Msg = λ r. init_gpdu r teid 0 0 tpdu n in
      let held = set-here G.msg h h (f (G.msg h)) refl in
      let S = (made G env f).1.msg in
      subst Sent (sym (make_msg-made G env f (made_nonnull d))) (
        refl,
        ap (λ m. udp (write_header m).msg_buf (write_header m).msg_len ip 2152 ∷ G.out)
            (set-here S h h (set_teid (S h) teid) refl ∙ ap (λ m. set_teid m teid) held),
        refl,
      )

-- A packet of the IPv4 stack is forwarded to an egress end point.
module _ {t : TreeOps} (s : Sdp t) (env : Environment) (e : EndPoint) (g : ℕ)
    (typed : e.flow_type ≡ gtpu) (addressed : e.ipv4_addr ≢ 0) (rc : env.to_gtpu.udp_rc ≡ ok)
    (memory : (from_pool s.gtpu_stack.msg_pool env.to_gtpu.new_msg).0 ≢ 0) where
  abbrev stored : ℕ × Gtpu.Stack t
  stored =
      gpdu_msg_new s.gtpu_stack env.to_gtpu e.flow_key 0 0 (s.ipv4_stack.msg g).msg_buf
        (u16 (s.ipv4_stack.msg g).msg_len)

  abbrev forwarded : Sdp t
  forwarded = record s {
    gtpu_stack =
        msg_delete (sendto stored.1 env.to_gtpu e.flow_key e.ipv4_addr stored.0).1 stored.0;
  }

  forwards : process_ipv4_data_indication s env e g e.flow_type ≡ some forwarded
  unfolding sendto
  forwards =
      let G = s.gtpu_stack in
      let parts =
        sends_gpdu G env.to_gtpu e.flow_key e.ipv4_addr (s.ipv4_stack.msg g).msg_buf
          (u16 (s.ipv4_stack.msg g).msg_len) memory in
      ap (process_ipv4_data_indication s env e g) typed
      ∙ ap (λ c. if c then none else send_over_gtpu s env e stored)
          (eqb-false e.ipv4_addr 0 addressed)
      ∙ ap
          (λ c.
            if c
            then none
            else sent_gtpu s stored.0 (sendto stored.1 env.to_gtpu e.flow_key e.ipv4_addr stored.0))
          (eqb-false stored.0 0 (subst (λ x. x ≢ 0) (sym parts.0) memory))
      ∙ ap
          (λ c.
            sent_gtpu s stored.0
              (c, (sendto stored.1 env.to_gtpu e.flow_key e.ipv4_addr stored.0).1))
          rc

-- A frame with a packet for an end point becomes a message for its session.
module _ {t : TreeOps} (I : Ipv4.Stack t) (env : Ipv4.Environment) (buf_addr : ℕ) (buf : Buffer)
    (len p : ℕ) (typed : load16 buf 12 ≡ htons 2048) (mode : I.is_downlink ≡ true)
    (found : t.find I.addr_map (Ipv4.addr_key (load32 buf 30)) ≡ some p)
    (memory : (from_pool I.msg_pool env.new_msg).0 ≢ 0) where
  abbrev packet : Buffer
  packet k = buf (14 + k)

  abbrev taken : ℕ → Rc × Ipv4.Stack t
  taken n =
      let (g, J) = Ipv4.filled I env packet n in
      (ok, Ipv4.emit (Ipv4.recv_tpdu (I.tunnel p).h_ulp_session (some g)) J)

  takes : 14 ≤ len → len < 65536 → Ipv4.process_pdu I env buf_addr buf len ≡ taken (len - 14)
  unfolding Ipv4.process_pdu Ipv4.send_msg_to_ulp Ipv4.msg_from_buffer_new
  takes low high =
      let n = u32 (len + 4294967296 - 14) in
      let whole : n ≡ len - 14 = omega arith in
      let session = (I.tunnel p).h_ulp_session in
      let (g, pool) = from_pool I.msg_pool env.new_msg in
      let none_left : ℕ × Ipv4.Stack t = (0, record I { msg_pool = pool }) in
      let present = eqb-false g 0 memory in
      let tell : ℕ × Ipv4.Stack t → Rc × Ipv4.Stack t = λ x.
        if x.0 == 0
        then (failure, Ipv4.emit (Ipv4.recv_tpdu session none) x.1)
        else (ok, Ipv4.emit (Ipv4.recv_tpdu session (some x.0)) x.1) in
      let other : Rc × Ipv4.Stack t =
        if load16 buf 12 == htons 2054
        then Ipv4.to_arp I env buf (t.find I.addr_map (Ipv4.addr_key (u32 (buf_addr + 38))))
        else (unset, I) in
      ap
        (λ c.
          if c
          then Ipv4.to_session I env buf len (t.find I.addr_map (Ipv4.pdu_addr_key I buf))
          else other)
        (eqb-true (load16 buf 12) (htons 2048) typed)
      ∙ ap
          (λ c.
            Ipv4.to_session I env buf len
              (t.find I.addr_map (Ipv4.addr_key (if c then load32 buf 30 else load32 buf 26))))
          mode
      ∙ ap (Ipv4.to_session I env buf len) found
      ∙ ap (λ c. tell (if c then none_left else Ipv4.filled I env packet n)) present
      ∙ ap
          (λ c.
            if c
            then (failure, Ipv4.emit (Ipv4.recv_tpdu session none) (Ipv4.filled I env packet n).1)
            else taken n)
          present
      ∙ ap taken whole

pub copied : (dst src : Buffer) (n k : ℕ) → k < n → copy dst 0 src n k ≡ src k
copied dst src n k l = ground arith

-- In downlink mode, a frame with an IPv4 packet for the address of an end point, whose flow leaves through a
-- GTP-U end point with an address, and which fits the buffers of 4096 bytes, goes out as one datagram to this
-- address, with memory for the two messages and where UDP accepts it. A stack that reads the datagram finds in
-- it the TEID of the flow and exactly the packet, without the 14 bytes before it. Both messages are back in
-- their pools.
pub downlink_forwarded :
    {t : TreeOps} (s : Sdp t) (env : Environment) (buf_addr : ℕ) (buf : Buffer) (len p : ℕ)
    → load16 buf 12 ≡ htons 2048
    → s.ipv4_stack.is_downlink ≡ true
    → t.find s.ipv4_stack.addr_map (Ipv4.addr_key (load32 buf 30)) ≡ some p
    → let e = (s.flow (s.ipv4_stack.tunnel p).h_ulp_session).egress in
      let g = (from_pool s.ipv4_stack.msg_pool env.from_ipv4.new_msg).0 in
      let h = (from_pool s.gtpu_stack.msg_pool env.to_gtpu.new_msg).0 in
      e.flow_type ≡ gtpu
      → e.ipv4_addr ≢ 0
      → e.flow_key < 4294967296
      → 14 ≤ len
      → len ≤ 4102
      → g ≢ 0
      → h ≢ 0
      → env.to_gtpu.udp_rc ≡ ok
      → (r : Sdp t) × (b : Buffer) × (l : ℕ) × (process_ipv4_data_ind s env buf_addr buf len
          ≡ some r)
        × (r.gtpu_stack.out ≡ udp b l e.ipv4_addr 2152 ∷ s.gtpu_stack.out)
        × ((m : Msg) → Carried e.flow_key m.seq_num (len - 14) (λ k. buf (14 + k)) (receive m b l))
        × (r.gtpu_stack.msg_pool ≡ h ∷ (from_pool s.gtpu_stack.msg_pool env.to_gtpu.new_msg).1)
        × (r.ipv4_stack.msg_pool ≡ g ∷ (from_pool s.ipv4_stack.msg_pool env.from_ipv4.new_msg).1)
unfolding process_ipv4_data_ind
downlink_forwarded {t} s env buf_addr buf len p typed mode found kind addressed key low high dg dh
      rc =
    let I : Ipv4.Stack t = record s.ipv4_stack { out = [] } in
    let e = (s.flow (s.ipv4_stack.tunnel p).h_ulp_session).egress in
    let n = len - 14 in
    let g = (from_pool s.ipv4_stack.msg_pool env.from_ipv4.new_msg).0 in
    let J = (taken I env.from_ipv4 buf_addr buf len p typed mode found dg n).1 in
    let s1 : Sdp t = record s { ipv4_stack = record J { out = J.out ++ s.ipv4_stack.out } } in
    let held =
      set-here I.msg g g
        (record { msg_buf = copy (I.msg g).msg_buf 0 (λ k. buf (14 + k)) n; msg_len = u16 n })
        refl in
    let tpdu = (s1.ipv4_stack.msg g).msg_buf in
    let length = u16 (s1.ipv4_stack.msg g).msg_len in
    let size : length ≡ n = ap (λ (m : Ipv4.Msg). u16 m.msg_len) held ∙ omega arith in
    let byte : (k : ℕ) → k < n → tpdu k ≡ buf (14 + k) = λ k l.
      ap (λ (m : Ipv4.Msg). m.msg_buf k) held
      ∙ copied (I.msg g).msg_buf (λ k. buf (14 + k)) n k l in
    let (stored_at, out, pool) =
      sends_gpdu s.gtpu_stack env.to_gtpu e.flow_key e.ipv4_addr tpdu length dh in
    let d = datagram s.gtpu_stack env.to_gtpu e.flow_key e.ipv4_addr tpdu length in
    let c = λ (m : Msg).
      carried (s.gtpu_stack.msg (from_pool s.gtpu_stack.msg_pool env.to_gtpu.new_msg).0) e.flow_key
        0 0 tpdu length key (omega arith) (omega arith) m in
    let f = forwarded s1 env e g kind addressed rc dh in
    (
      record f { ipv4_stack = Ipv4.msg_delete f.ipv4_stack g },
      d.msg_buf,
      d.msg_len,
      ap
            (λ (x : Rc × Ipv4.Stack t).
              calls (ipv4_called env) x.1.out
                (record s { ipv4_stack = record x.1 { out = x.1.out ++ s.ipv4_stack.out } }))
            (takes I env.from_ipv4 buf_addr buf len p typed mode found dg low (omega arith))
          ∙ ap
              (λ o.
                bind o
                  (λ (r : Sdp t). some (record r { ipv4_stack = Ipv4.msg_delete r.ipv4_stack g })))
              (forwards s1 env e g kind addressed rc dh),
      out,
      λ m. record {
        msg_type = (c m).msg_type;
        teid = (c m).teid;
        seq_num = (c m).seq_num;
        length = (c m).length ∙ size;
        bytes = λ k l. (c m).bytes k (omega arith) ∙ byte k l;
      },
      ap₂ (λ x y. x ∷ y) stored_at pool,
      refl,
    )
