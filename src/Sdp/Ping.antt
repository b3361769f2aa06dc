-- ===== src/Sdp/Ping.antt =====
-- A ping of a user, from the GTPv1-U datagram to the datagram with the answer.
use linkerepc.Prelude.{
  ℕ, ◌+◌, ◌-◌, ◌<◌, ◌≤◌, ◌≡◌, ◌≢◌, refl, ap, ◌∙◌, arith, true, none, some, ◌∷◌, ◌++◌, ◌==◌,
  if◌then◌else◌, Option, List, [], set, eqb-true, eqb-false, u16, htonl, set-here,
}
use linkerepc.Trees.{TreeOps}
use linkerepc.Bytes.{Buffer, load32, copy}
use linkerepc.Gtpv1u.Msg.{Msg, receive, get_tpdu_length, get_tpdu_handle}
use linkerepc.Gtpv1u.Msg.Payload.{Carried}
use linkerepc.Gtpv1u.Stack as Gtpu
use linkerepc.Gtpv1u.Stack.{Rc, ok, udp, recv_tpdu, tunnel_key}
use linkerepc.Gtpv1u.Stack.Storage.{from_pool, msg_delete}
use linkerepc.Gtpv1u.Stack.Udp.{send_msg_to_ulp}
use linkerepc.Ipv4
use linkerepc.Sdp.{
  Sdp, Environment, EndPoint, ipv4, gtpu, bind, sent_ipv4, ping_packet, ping_length, ping_frame,
  answer_ping, send_over_ipv4, process_gtpu_data_indication, gtpu_called, calls,
  process_gtpu_data_ind,
}
use linkerepc.Sdp.Downlink.{copied, downlink_forwarded}
use linkerepc.Sdp.Uplink.{header_of, payload_length, payload_bytes, stored, takes}
use linkerepc.Sdp.Reply.{
  reply_of, reply_length, frame-type, frame-target, frame-length, frame-reply,
}

-- A payload that is taken for a ping is answered.
module _ {t : TreeOps} (s : Sdp t) (env : Environment) (e : EndPoint) (g : ℕ)
    (typed : e.flow_type ≡ ipv4)
    (memory : (from_pool s.ipv4_stack.msg_pool env.to_ipv4.new_msg).0 ≢ 0) where
  abbrev packed : ℕ × Ipv4.Stack t
  packed =
      Ipv4.filled s.ipv4_stack env.to_ipv4 (get_tpdu_handle (s.gtpu_stack.msg g))
        (get_tpdu_length (s.gtpu_stack.msg g))

  answers :
      (packed.1.msg packed.0).msg_buf 20 ≡ 8
      → process_gtpu_data_indication s env e g e.flow_type ≡ answer_ping s env packed.0 packed.1
  unfolding Ipv4.msg_from_buffer_new
  answers ping =
      let I = s.ipv4_stack in
      let (q, pool) = from_pool I.msg_pool env.to_ipv4.new_msg in
      let none_left : ℕ × Ipv4.Stack t = (0, record I { msg_pool = pool }) in
      let present = eqb-false q 0 memory in
      ap (process_gtpu_data_indication s env e g) typed
      ∙ ap (λ c. send_over_ipv4 s env (if c then none_left else packed)) present
      ∙ ap
          (λ c.
            if c
            then none
            else if (packed.1.msg q).msg_buf 20 == 8
            then answer_ping s env q packed.1
            else sent_ipv4 s q (Ipv4.sendto packed.1 env.to_ipv4 q))
          present
      ∙ ap
          (λ c.
            if c
            then answer_ping s env q packed.1
            else sent_ipv4 s q (Ipv4.sendto packed.1 env.to_ipv4 q))
          (eqb-true ((packed.1.msg q).msg_buf 20) 8 ping)

-- The answer to the ping in the message `g` goes the way of a packet to the user `q`.
module _ {t : TreeOps} (s : Sdp t) (env : Environment) (g : ℕ) (i : Ipv4.Stack t) (packet : Buffer)
    (n q : ℕ) where
  abbrev to_user : EndPoint
  to_user = (s.flow (i.tunnel q).h_ulp_session).egress

  abbrev reply_message : ℕ × List ℕ
  reply_message = from_pool i.msg_pool env.from_ipv4.new_msg

  abbrev reply_gpdu : ℕ × List ℕ
  reply_gpdu = from_pool s.gtpu_stack.msg_pool env.to_gtpu.new_msg

  -- The answer is put out, and the messages are back in their pools.
  abbrev Answers : Option (Sdp t) → Type 0
  Answers o =
      (r : Sdp t) × (b : Buffer) × (l : ℕ) × (o ≡ some r)
      × (r.gtpu_stack.out ≡ udp b l to_user.ipv4_addr 2152 ∷ s.gtpu_stack.out)
      × ((m : Msg)
          → Carried to_user.flow_key m.seq_num (reply_length n) (reply_of packet) (receive m b l))
      × (r.gtpu_stack.msg_pool ≡ reply_gpdu.0 ∷ reply_gpdu.1)
      × (r.ipv4_stack.msg_pool ≡ g ∷ reply_message.0 ∷ reply_message.1)

  answer_ping-Answers :
      20 < n
      → (i.msg g).msg_len ≡ n
      → ((k : ℕ) → k < n → (i.msg g).msg_buf k ≡ packet k)
      → i.is_downlink ≡ true
      → t.find i.addr_map (Ipv4.addr_key (load32 packet 12)) ≡ some q
      → to_user.flow_type ≡ gtpu
      → to_user.ipv4_addr ≢ 0
      → to_user.flow_key < 4294967296
      → reply_message.0 ≢ 0
      → reply_gpdu.0 ≢ 0
      → env.to_gtpu.udp_rc ≡ ok
      → Answers (answer_ping s env g i)
  answer_ping-Answers long size bytes mode found kind addressed key dg dh rc =
      let x = i.msg g in
      let zeroed : Ipv4.Msg = record x { msg_buf = ping_packet x } in
      let s2 : Sdp t = record s { ipv4_stack = record i { msg = set i.msg g zeroed } } in
      let total = frame-length x packet n long size bytes in
      let short : reply_length n ≤ 1024 = ground arith in
      let (r, b, l, eq, out, c, gpdus, messages) =
        downlink_forwarded s2 env 0 (ping_frame x) (ping_length x + 14) q
          (frame-type x packet n long size bytes) mode
          (ap (λ a. t.find i.addr_map (Ipv4.addr_key a)) (frame-target x packet n long size bytes)
            ∙ found)
          kind addressed key (omega arith) (omega (arith, total, short)) dg dh rc in
      (
        record r { ipv4_stack = Ipv4.msg_delete r.ipv4_stack g },
        b,
        l,
        ap
            (λ o.
              bind o
                (λ (z : Sdp t). some (record z { ipv4_stack = Ipv4.msg_delete z.ipv4_stack g })))
            eq,
        out,
        λ m. record {
          msg_type = (c m).msg_type;
          teid = (c m).teid;
          seq_num = (c m).seq_num;
          length = (c m).length ∙ omega (arith, total);
          bytes = λ k a.
              (c m).bytes k (omega (arith, total)) ∙ frame-reply x packet n long size bytes k a;
        },
        gpdus,
        ap (λ p. g ∷ p) messages,
      )

-- A datagram of up to 4096 bytes with a G-PDU for an end point, whose flow leaves through an IPv4 end point,
-- with a packet of more than 20 bytes whose byte 20 is 8, is answered where, in downlink mode, the packet's
-- source address is that of an end point whose flow leaves through a GTP-U end point with an address: one
-- datagram goes out to this address, with memory for the four messages and where UDP accepts it. A stack that
-- reads the datagram finds in it the TEID of that flow and the first 1024 bytes of the packet with the two
-- addresses swapped and 0 in byte 20. All messages are back in their pools.
pub ping_answered :
    {t : TreeOps} (s : Sdp t) (env : Environment) (buf : Buffer) (len peer_port peer_ip p q : ℕ)
    → buf 1 ≡ 255
    → t.find s.gtpu_stack.teid_map (tunnel_key (htonl (load32 buf 4))) ≡ some p
    → let e = s.gtpu_stack.tunnel p in
      let packet : Buffer = λ k. buf (header_of buf + k) in
      let n = len - header_of buf in
      let (h, gpdus) = from_pool s.gtpu_stack.msg_pool env.from_gtpu.new_msg in
      let (g, messages) = from_pool s.ipv4_stack.msg_pool env.to_ipv4.new_msg in
      let (h2, gpdus2) = from_pool gpdus env.to_gtpu.new_msg in
      let (g2, messages2) = from_pool messages env.from_ipv4.new_msg in
      let user = (s.flow (s.ipv4_stack.tunnel q).h_ulp_session).egress in
      (s.flow e.h_ulp_session).egress.flow_type ≡ ipv4
      → 20 < n
      → len ≤ 4096
      → packet 20 ≡ 8
      → s.ipv4_stack.is_downlink ≡ true
      → t.find s.ipv4_stack.addr_map (Ipv4.addr_key (load32 packet 12)) ≡ some q
      → user.flow_type ≡ gtpu
      → user.ipv4_addr ≢ 0
      → user.flow_key < 4294967296
      → h ≢ 0
      → g ≢ 0
      → h2 ≢ 0
      → g2 ≢ 0
      → env.to_gtpu.udp_rc ≡ ok
      → (r : Sdp t) × (b : Buffer) × (l : ℕ) × (process_gtpu_data_ind s env buf len peer_port
            peer_ip
          ≡ some r)
        × (r.gtpu_stack.out
            ≡ udp b l user.ipv4_addr 2152 ∷ recv_tpdu e.h_ulp_session e.teid h ∷ s.gtpu_stack.out)
        × ((m : Msg)
            → Carried user.flow_key m.seq_num (reply_length n) (reply_of packet) (receive m b l))
        × (r.gtpu_stack.msg_pool ≡ h ∷ h2 ∷ gpdus2)
        × (r.ipv4_stack.msg_pool ≡ g ∷ g2 ∷ messages2)
unfolding process_gtpu_data_ind
ping_answered {t} s env buf len peer_port peer_ip p q typed found kind long high ping mode source
      user_kind addressed key dh dg dh2 dg2 rc =
    let G : Gtpu.Stack t = record s.gtpu_stack { out = [] } in
    let e = (s.flow (s.gtpu_stack.tunnel p).h_ulp_session).egress in
    let h = (from_pool s.gtpu_stack.msg_pool env.from_gtpu.new_msg).0 in
    let g = (from_pool s.ipv4_stack.msg_pool env.to_ipv4.new_msg).0 in
    let n = len - header_of buf in
    let low : header_of buf ≤ len = omega arith in
    let U : Gtpu.Stack t =
      send_msg_to_ulp (stored G env.from_gtpu buf len peer_port peer_ip p typed found dh) p h in
    let s1 : Sdp t = record s { gtpu_stack = record U { out = U.out ++ s.gtpu_stack.out } } in
    let got = receive (G.msg h) buf len in
    let held : s1.gtpu_stack.msg h ≡ got = set-here G.msg h h got refl in
    let sent = s1.gtpu_stack.msg h in
    let m : Ipv4.Msg = record {
      msg_buf = copy (s.ipv4_stack.msg g).msg_buf 0 (get_tpdu_handle sent) (get_tpdu_length sent);
      msg_len = u16 (get_tpdu_length sent);
    } in
    let i = (packed s1 env e h kind dg).1 in
    let kept : i.msg g ≡ m = set-here s.ipv4_stack.msg g g m refl in
    let size : get_tpdu_length sent ≡ n =
      ap get_tpdu_length held ∙ payload_length (G.msg h) buf len low (omega arith) in
    let bytes : (k : ℕ) → k < n → (i.msg g).msg_buf k ≡ buf (header_of buf + k) = λ k l.
      ap (λ (z : Ipv4.Msg). z.msg_buf k) kept
      ∙ copied (s.ipv4_stack.msg g).msg_buf (get_tpdu_handle sent) (get_tpdu_length sent) k
          (omega arith)
      ∙ ap (λ z. get_tpdu_handle z k) held
      ∙ payload_bytes (G.msg h) buf len low (omega arith) k l in
    let (r, b, l, eq, out, c, gpdus, messages) =
      answer_ping-Answers s1 env g i (λ k. buf (header_of buf + k)) n q long
        (ap (λ (z : Ipv4.Msg). z.msg_len) kept ∙ ap u16 size ∙ omega arith) bytes mode source
        user_kind addressed key dg2 dh2 rc in
    (
      record r { gtpu_stack = msg_delete r.gtpu_stack h },
      b,
      l,
      ap
            (λ o. bind o (λ (x : Rc × Gtpu.Stack t).
              calls (gtpu_called env) x.1.out
                (record s { gtpu_stack = record x.1 { out = x.1.out ++ s.gtpu_stack.out } })))
            (takes G env.from_gtpu buf len peer_port peer_ip p typed found dh)
          ∙ ap
              (λ o.
                bind o (λ (z : Sdp t). some (record z { gtpu_stack = msg_delete z.gtpu_stack h })))
              (answers s1 env e h kind dg (bytes 20 long ∙ ping) ∙ eq),
      out,
      c,
      ap (λ x. h ∷ x) gpdus,
      messages,
    )
