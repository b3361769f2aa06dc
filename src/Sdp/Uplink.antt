-- ===== src/Sdp/Uplink.antt =====
-- A packet of a user, from the GTPv1-U datagram to the lower layer of the IPv4 stack.
use linkerepc.Prelude.{
  ℕ, ◌+◌, ◌-◌, ◌/◌, ◌%◌, ◌<◌, ◌≤◌, ◌≡◌, ◌≢◌, refl, ap, sym, subst, ◌∙◌, arith, none, some, [], ◌∷◌,
  ◌++◌, ◌==◌, if◌then◌else◌, eqb-false, u16, htonl, ltb, Bool-cases, inl, inr, set-here,
}
use linkerepc.Trees.{TreeOps}
use linkerepc.Bytes.{Buffer, load32, copy}
use linkerepc.Gtpv1u.Msg.{Msg, receive, header_size, get_tpdu_length, get_tpdu_handle}
use linkerepc.Gtpv1u.Stack as Gtpu
use linkerepc.Gtpv1u.Stack.{Rc, ok, failure, unset, tunnel_key}
use linkerepc.Gtpv1u.Stack.Storage.{
  from_pool, made, make_msg, make_msg-made, msg_from_buffer_new, msg_delete,
}
use linkerepc.Gtpv1u.Stack.Udp.{process_udp_req, process_gpdu, deliver, send_msg_to_ulp}
use linkerepc.Gtpv1u.Stack.Delivery.{dispatch_gpdu}
use linkerepc.Ipv4
use linkerepc.Sdp.{
  Sdp, Environment, EndPoint, ipv4, bind, answer_ping, sent_ipv4, send_over_ipv4,
  process_gtpu_data_indication, gtpu_called, calls, process_gtpu_data_ind,
}
use linkerepc.Sdp.Downlink.{copied}

-- The size of the header that a datagram starts with.
abbrev pub header_of : Buffer → ℕ
header_of buf = header_size (buf 0 / 2 % 2) (buf 0 % 2) (buf 0 / 4 % 2)

module _ (r : Msg) (buf : Buffer) (len : ℕ) (low : header_of buf ≤ len) (high : len < 65536) where
  pub payload_length : get_tpdu_length (receive r buf len) ≡ len - header_of buf
  unfolding get_tpdu_length receive
  payload_length = ground arith

  pub payload_bytes :
      (k : ℕ)
      → k < len - header_of buf
      → get_tpdu_handle (receive r buf len) k ≡ buf (header_of buf + k)
  unfolding get_tpdu_handle receive
  payload_bytes k l = ground arith

-- A G-PDU for an end point becomes a message for its session.
module _ {t : TreeOps} (G : Gtpu.Stack t) (env : Gtpu.Environment) (buf : Buffer)
    (len peer_port peer_ip p : ℕ) (typed : buf 1 ≡ 255)
    (found : t.find G.teid_map (tunnel_key (htonl (load32 buf 4))) ≡ some p)
    (memory : (from_pool G.msg_pool env.new_msg).0 ≢ 0) where
  abbrev h : ℕ
  h = (from_pool G.msg_pool env.new_msg).0

  abbrev pub stored : Gtpu.Stack t
  stored = (made G env (λ r. receive r buf len)).1

  made_nonnull : (make_msg G env (λ r. receive r buf len)).0 ≢ 0
  made_nonnull =
      subst
        (λ c.
          (if c
            then (0, record G { msg_pool = (from_pool G.msg_pool env.new_msg).1 })
            else made G env (λ r. receive r buf len)).0
          ≢ 0)
        (sym (eqb-false h 0 memory)) memory

  pub takes :
      process_udp_req G env buf len peer_port peer_ip ≡ some (ok, send_msg_to_ulp stored p h)
  unfolding process_gpdu msg_from_buffer_new
  takes =
      dispatch_gpdu G env buf len peer_port peer_ip typed
      ∙ ap some (
          ap (deliver G env buf len) found
          ∙ ap
              (λ (x : ℕ × Gtpu.Stack t).
                if x.0 == 0 then (failure, x.1) else (ok, send_msg_to_ulp x.1 p x.0))
              (make_msg-made G env (λ r. receive r buf len) made_nonnull)
          ∙ ap (λ c. if c then (failure, stored) else (ok, send_msg_to_ulp stored p h))
              (eqb-false h 0 memory))

-- A payload of the GTPv1-U stack is forwarded to an egress end point.
module _ {t : TreeOps} (s : Sdp t) (env : Environment) (e : EndPoint) (g : ℕ)
    (typed : e.flow_type ≡ ipv4) (rc : env.to_ipv4.llp_rc ≡ ok)
    (memory : (from_pool s.ipv4_stack.msg_pool env.to_ipv4.new_msg).0 ≢ 0)
    (no_ping : let (q, i) =
        Ipv4.filled s.ipv4_stack env.to_ipv4
          (get_tpdu_handle (s.gtpu_stack.msg g))
          (get_tpdu_length (s.gtpu_stack.msg g)) in
      (i.msg q).msg_buf 20 ≢ 8) where
  abbrev packet : ℕ × Ipv4.Stack t
  packet =
      Ipv4.filled s.ipv4_stack env.to_ipv4 (get_tpdu_handle (s.gtpu_stack.msg g))
        (get_tpdu_length (s.gtpu_stack.msg g))

  abbrev forwarded : Sdp t
  forwarded = record s {
    ipv4_stack = Ipv4.msg_delete (Ipv4.sendto packet.1 env.to_ipv4 packet.0).1 packet.0;
  }

  forwards : process_gtpu_data_indication s env e g e.flow_type ≡ some forwarded
  unfolding Ipv4.msg_from_buffer_new
  forwards =
      let I = s.ipv4_stack in
      let (q, pool) = from_pool I.msg_pool env.to_ipv4.new_msg in
      let none_left : ℕ × Ipv4.Stack t = (0, record I { msg_pool = pool }) in
      let present = eqb-false q 0 memory in
      ap (process_gtpu_data_indication s env e g) typed
      ∙ ap (λ c. send_over_ipv4 s env (if c then none_left else packet)) present
      ∙ ap
          (λ c.
            if c
            then none
            else if (packet.1.msg q).msg_buf 20 == 8
            then answer_ping s env q packet.1
            else sent_ipv4 s q (Ipv4.sendto packet.1 env.to_ipv4 q))
          present
      ∙ ap
          (λ c.
            if c
            then answer_ping s env q packet.1
            else sent_ipv4 s q (Ipv4.sendto packet.1 env.to_ipv4 q))
          (eqb-false ((packet.1.msg q).msg_buf 20) 8 no_ping)
      ∙ ap (λ c. sent_ipv4 s q (c, (Ipv4.sendto packet.1 env.to_ipv4 q).1)) rc

-- The byte that decides on a ping, in a payload that is long enough and in one that is not.
not_ping :
    (b c d n : ℕ)
    → (20 < n → b ≡ c)
    → (n ≤ 20 → b ≡ d)
    → (20 < n → c ≢ 8)
    → (n ≤ 20 → d ≢ 8)
    → b ≢ 8
not_ping b c d n in_payload in_storage p q e = elim (Bool-cases (ltb 20 n)) [
  | inl l ↦ let long : 20 < n = ground arith in p long (sym (in_payload long) ∙ e)
  | inr l ↦ let short : n ≤ 20 = ground arith in q short (sym (in_storage short) ∙ e)
]

behind : (dst src : Buffer) (n k : ℕ) → n ≤ k → copy dst 0 src n k ≡ dst k
behind dst src n k l = ground arith

-- A datagram of up to 4096 bytes with a G-PDU for an end point, whose flow leaves through an IPv4 end point, is
-- handed to the lower layer of the IPv4 stack as exactly its payload, the bytes behind a header of 8 or 12
-- bytes, with memory for the two messages and where the lower layer accepts it, unless it is taken for a ping:
-- byte 20 of the payload or, if the payload ends before, of what its storage held, must not be 8. Both messages
-- are back in their pools.
pub uplink_forwarded :
    {t : TreeOps} (s : Sdp t) (env : Environment) (buf : Buffer) (len peer_port peer_ip p : ℕ)
    → buf 1 ≡ 255
    → t.find s.gtpu_stack.teid_map (tunnel_key (htonl (load32 buf 4))) ≡ some p
    → let e = (s.flow (s.gtpu_stack.tunnel p).h_ulp_session).egress in
      let h = (from_pool s.gtpu_stack.msg_pool env.from_gtpu.new_msg).0 in
      let g = (from_pool s.ipv4_stack.msg_pool env.to_ipv4.new_msg).0 in
      e.flow_type ≡ ipv4
      → header_of buf ≤ len
      → len ≤ 4096
      → h ≢ 0
      → g ≢ 0
      → env.to_ipv4.llp_rc ≡ ok
      → (20 < len - header_of buf → buf (header_of buf + 20) ≢ 8)
      → (len - header_of buf ≤ 20 → (s.ipv4_stack.msg g).msg_buf 20 ≢ 8)
      → (r : Sdp t) × (b : Buffer) × (process_gtpu_data_ind s env buf len peer_port peer_ip
          ≡ some r)
        × (r.ipv4_stack.out ≡ Ipv4.data_req b (len - header_of buf) ∷ s.ipv4_stack.out)
        × ((k : ℕ) → k < len - header_of buf → b k ≡ buf (header_of buf + k))
        × (r.gtpu_stack.msg_pool ≡ h ∷ (from_pool s.gtpu_stack.msg_pool env.from_gtpu.new_msg).1)
        × (r.ipv4_stack.msg_pool ≡ g ∷ (from_pool s.ipv4_stack.msg_pool env.to_ipv4.new_msg).1)
unfolding process_gtpu_data_ind
uplink_forwarded {t} s env buf len peer_port peer_ip p typed found kind low high dh dg rc other
      stale =
    let G : Gtpu.Stack t = record s.gtpu_stack { out = [] } in
    let e = (s.flow (s.gtpu_stack.tunnel p).h_ulp_session).egress in
    let h = (from_pool s.gtpu_stack.msg_pool env.from_gtpu.new_msg).0 in
    let g = (from_pool s.ipv4_stack.msg_pool env.to_ipv4.new_msg).0 in
    let n = len - header_of buf in
    let U : Gtpu.Stack t =
      send_msg_to_ulp (stored G env.from_gtpu buf len peer_port peer_ip p typed found dh) p h in
    let s1 : Sdp t = record s { gtpu_stack = record U { out = U.out ++ s.gtpu_stack.out } } in
    let got = receive (G.msg h) buf len in
    let held : s1.gtpu_stack.msg h ≡ got = set-here G.msg h h got refl in
    let m : Ipv4.Msg = record {
      msg_buf =
          copy (s.ipv4_stack.msg g).msg_buf 0 (get_tpdu_handle (s1.gtpu_stack.msg h))
            (get_tpdu_length (s1.gtpu_stack.msg h));
      msg_len = u16 (get_tpdu_length (s1.gtpu_stack.msg h));
    } in
    let filled =
      Ipv4.filled s.ipv4_stack env.to_ipv4 (get_tpdu_handle (s1.gtpu_stack.msg h))
        (get_tpdu_length (s1.gtpu_stack.msg h)) in
    let kept : filled.1.msg g ≡ m = set-here s.ipv4_stack.msg g g m refl in
    let size : get_tpdu_length (s1.gtpu_stack.msg h) ≡ n =
      ap get_tpdu_length held ∙ payload_length (G.msg h) buf len low (omega arith) in
    let length : m.msg_len ≡ n = ap u16 size ∙ omega arith in
    let bytes : (k : ℕ) → k < n → m.msg_buf k ≡ buf (header_of buf + k) = λ k l.
      copied (s.ipv4_stack.msg g).msg_buf (get_tpdu_handle (s1.gtpu_stack.msg h))
        (get_tpdu_length (s1.gtpu_stack.msg h)) k (omega arith)
      ∙ ap (λ x. get_tpdu_handle x k) held
      ∙ payload_bytes (G.msg h) buf len low (omega arith) k l in
    let no_ping : (filled.1.msg g).msg_buf 20 ≢ 8 = λ q.
      not_ping (m.msg_buf 20) (buf (header_of buf + 20)) ((s.ipv4_stack.msg g).msg_buf 20) n
        (bytes 20)
        (λ l.
          behind (s.ipv4_stack.msg g).msg_buf (get_tpdu_handle (s1.gtpu_stack.msg h))
            (get_tpdu_length (s1.gtpu_stack.msg h)) 20 (omega arith))
        other stale (sym (ap (λ (x : Ipv4.Msg). x.msg_buf 20) kept) ∙ q) in
    let f = forwarded s1 env e h kind rc dg no_ping in
    (
      record f { gtpu_stack = msg_delete f.gtpu_stack h },
      m.msg_buf,
      ap
            (λ o. bind o (λ (x : Rc × Gtpu.Stack t).
              calls (gtpu_called env) x.1.out
                (record s { gtpu_stack = record x.1 { out = x.1.out ++ s.gtpu_stack.out } })))
            (takes G env.from_gtpu buf len peer_port peer_ip p typed found dh)
          ∙ ap
              (λ o.
                bind o (λ (r : Sdp t). some (record r { gtpu_stack = msg_delete r.gtpu_stack h })))
              (forwards s1 env e h kind rc dg no_ping),
      ap (λ (x : Ipv4.Msg). Ipv4.data_req x.msg_buf x.msg_len ∷ s.ipv4_stack.out) kept
          ∙ ap (λ l. Ipv4.data_req m.msg_buf l ∷ s.ipv4_stack.out) length,
      bytes,
      refl,
      refl,
    )
