-- ===== src/Gtpv1u/Stack/Delivery.antt =====
-- What a stack does with a G-PDU, from the payload that the upper layer of another stack hands over.
use linkerepc.Prelude.{
  ℕ, ◌+◌, ◌/◌, ◌%◌, ◌<◌, ◌≤◌, ◌≡◌, arith, ◌≢◌, refl, ap, sym, subst, ◌∙◌, inl, inr, Option, none,
  some, ◌∷◌, ◌==◌, if◌then◌else◌, eqb-false, Option-cases, htonl, htons, set-here, set-there,
}
use linkerepc.Bytes.{Buffer, load32, load16}
use linkerepc.Gtpv1u.Msg.Payload.{gpdu_of, carried, Carried}
use linkerepc.Gtpv1u.Msg.{write_header, receive, init_gpdu, set_teid, Msg}
use linkerepc.Gtpv1u.Stack.{
  Stack, TreeOps, IsMap, Key, Rc, ok, failure, unset, TunnelEndPoint, Environment, tunnel_key,
  recv_tpdu, udp,
}
use linkerepc.Gtpv1u.Stack.Storage.{
  msg_from_buffer_new, gpdu_msg_new, from_pool, make_msg-made, make_msg-drawn, made,
}
use linkerepc.Gtpv1u.Stack.Ulp.{sendto, create_and_send_msg}
use linkerepc.Gtpv1u.Stack.Udp.{process_udp_req, process_gpdu, deliver, send_msg_to_ulp}
use linkerepc.Gtpv1u.Stack.Sessions.{History, session_of}
use linkerepc.Gtpv1u.Stack.Sessions.Frames.{received-tunnels}
use linkerepc.Gtpv1u.Stack.Sessions.Refinement.{History-IsTable}

-- What becomes of a G-PDU for a session.
abbrev handed : {t : TreeOps} → Stack t → Environment → Buffer → ℕ → ℕ → Option ℕ → Rc × Stack t
handed s env buf len teid none = (unset, s)
handed s env buf len teid (some session) =
    let (h, s1) = msg_from_buffer_new s env buf len in
    (ok, record s1 { out = recv_tpdu session teid h ∷ s1.out })

-- A G-PDU for an end point of the table `v`, and one for none.
process_gpdu-handed :
    {t : TreeOps} (laws : IsMap t) (s : Stack t) (v : ℕ → Option ℕ) (env : Environment)
    (buf : Buffer) (len : ℕ)
    → History s v
    → (msg_from_buffer_new s env buf len).0 ≢ 0
    → let teid = htonl (load32 buf 4) in
      process_gpdu s env buf len ≡ handed s env buf len teid (v teid)
unfolding process_gpdu
process_gpdu-handed {t} laws s v env buf len before memory =
    let teid = htonl (load32 buf 4) in
    let table = History-IsTable laws s v before in
    let (h, s1) = msg_from_buffer_new s env buf len in
    elim (Option-cases (t.find s.teid_map (tunnel_key teid))) [
      | inl e ↦
          ap (deliver s env buf len) e
          ∙ ap (handed s env buf len teid) (sym (ap (session_of s.tunnel) e) ∙ table.view teid)
      | inr (p, e) ↦
          ap (deliver s env buf len) e
          ∙ ap (λ c. if c then (failure, s1) else (ok, send_msg_to_ulp s1 p h))
              (eqb-false h 0 memory)
          ∙ ap
              (λ (f : ℕ → TunnelEndPoint).
                (ok, record s1 { out = recv_tpdu (f p).h_ulp_session (f p).teid h ∷ s1.out }))
              (ap (λ x. x.1) (received-tunnels s env buf len))
          ∙ ap (λ n. (ok, record s1 { out = recv_tpdu (s.tunnel p).h_ulp_session n h ∷ s1.out }))
              (ap (λ (k : Key). k.number) (table.own (tunnel_key teid) p e))
          ∙ ap (handed s env buf len teid) (sym (ap (session_of s.tunnel) e) ∙ table.view teid)
    ]

-- A message that has been read from the first `len` bytes of a buffer.
pub record Holds (buf : Buffer) (len : ℕ) (m : Msg) : Type 0 where
  pub length : m.msg_len ≡ len
  pub bytes : (k : ℕ) → k < len → m.msg_buf k ≡ buf k
  pub msg_type : m.msg_type ≡ buf 1
  pub teid : m.teid ≡ htonl (load32 buf 4)
  pub seq_num_flag : m.seq_num_flag ≡ buf 0 / 2 % 2
  pub seq_num : buf 0 / 2 % 2 ≡ 1 → m.seq_num ≡ htons (load16 buf 8)

receive-Holds : (m : Msg) (buf : Buffer) (len : ℕ) → len ≤ 4096 → Holds buf len (receive m buf len)
unfolding receive
receive-Holds m buf len l = record {
  length = omega arith;
  bytes = λ k g. ground arith;
  msg_type = refl;
  teid = refl;
  seq_num_flag = refl;
  seq_num = λ e. ground arith;
}

-- Whatever the stack has done since it began, a G-PDU of up to 4096 bytes is handed to the session whose end point
-- was created last under its TEID, with memory for a message, as a message that holds its bytes and their number,
-- and the type, the TEID and, if there is one, the sequence number of its header; the other messages and the trees
-- stay as they are. It is dropped, with a result that is not set, if there was no such end point, or it was
-- destroyed.
pub process_gpdu-refines :
    {t : TreeOps} (laws : IsMap t) (s : Stack t) (v : ℕ → Option ℕ) (env : Environment)
    (buf : Buffer) (len : ℕ)
    → History s v
    → len ≤ 4096
    → let teid = htonl (load32 buf 4) in
      let (g, pool) = from_pool s.msg_pool env.new_msg in
      g ≢ 0
      → (v teid ≡ none → process_gpdu s env buf len ≡ (unset, s))
        × ((session : ℕ)
            → v teid ≡ some session
            → (x : Stack t) × (process_gpdu s env buf len ≡ (ok, x))
              × (x.out ≡ recv_tpdu session teid g ∷ s.out)
              × Holds buf len (x.msg g)
              × ((k : ℕ) → g ≢ k → x.msg k ≡ s.msg k)
              × (x.msg_pool ≡ pool)
              × (x.teid_map ≡ s.teid_map)
              × (x.tx_map ≡ s.tx_map))
unfolding msg_from_buffer_new
process_gpdu-refines {t} laws s v env buf len before short memory =
    let teid = htonl (load32 buf 4) in
    let (g, pool) = from_pool s.msg_pool env.new_msg in
    let f : Msg → Msg = λ m. receive m buf len in
    let drawn : msg_from_buffer_new s env buf len ≡ made s env f = make_msg-drawn s env f memory in
    let steps =
      process_gpdu-handed laws s v env buf len before
        (subst (λ (x : ℕ × Stack t). x.0 ≢ 0) (sym drawn) memory) in
    (
      λ e. steps ∙ ap (handed s env buf len teid) e,
      λ session e.
          let y = (made s env f).1 in
          (
            record y { out = recv_tpdu session teid g ∷ y.out },
            steps
                ∙ ap (handed s env buf len teid) e
                ∙ ap
                    (λ (x : ℕ × Stack t).
                      (ok, record x.1 { out = recv_tpdu session teid x.0 ∷ x.1.out }))
                    drawn,
            refl,
            subst (Holds buf len) (sym (set-here s.msg g g (f (s.msg g)) refl))
                (receive-Holds (s.msg g) buf len short),
            (λ k d. set-there s.msg g k (f (s.msg g)) d),
            refl,
            refl,
            refl,
          ),
    )

module _ {t : TreeOps} (s : Stack t) (env : Environment) (teid ip_addr seq_num_flag seq_num : ℕ)
    (tpdu : Buffer) (n : ℕ) where
  abbrev stored : ℕ × Stack t
  stored = gpdu_msg_new s env 0 seq_num_flag seq_num tpdu n

  abbrev pub sent_gpdu : ℕ → Msg
  sent_gpdu h = write_header (gpdu_of (s.msg h) teid seq_num_flag seq_num tpdu n)

  -- What is put out for a G-PDU that is stored at `x`.
  abbrev Sent : ℕ × Stack t → Type 0
  Sent x =
      (sendto x.1 env teid ip_addr x.0).1.out
      ≡ udp (sent_gpdu x.0).msg_buf (sent_gpdu x.0).msg_len ip_addr 2152 ∷ s.out

  sends : stored.0 ≢ 0 → Sent stored
  unfolding sendto create_and_send_msg gpdu_msg_new
  sends d =
      let f : Msg → Msg = λ r. init_gpdu r 0 seq_num_flag seq_num tpdu n in
      let p = (from_pool s.msg_pool env.new_msg).0 in
      let held = set-here s.msg p p (f (s.msg p)) refl in
      let S = (made s env f).1.msg in
      subst Sent (sym (make_msg-made s env f d)) (
        ap (λ m. udp (write_header m).msg_buf (write_header m).msg_len ip_addr 2152 ∷ s.out)
          (set-here S p p (set_teid (S p) teid) refl ∙ ap (λ m. set_teid m teid) held))

-- A message from a buffer, in the storage that is found.
received_msg :
    {t : TreeOps} (r : Stack t) (env : Environment) (buf : Buffer) (len : ℕ)
    → (msg_from_buffer_new r env buf len).0 ≢ 0
    → let (h, x) = msg_from_buffer_new r env buf len in
      (x.msg h ≡ receive (r.msg h) buf len) × (x.out ≡ r.out)
unfolding msg_from_buffer_new
received_msg {t} r env buf len d =
    let f : Msg → Msg = λ m. receive m buf len in
    let p = (from_pool r.msg_pool env.new_msg).0 in
    subst (λ (x : ℕ × Stack t). (x.1.msg x.0 ≡ receive (r.msg x.0) buf len) × (x.1.out ≡ r.out))
      (sym (make_msg-made r env f d)) (set-here r.msg p p (f (r.msg p)) refl, refl)

-- The bytes that are read before the message is stored.
receive-type : (m : Msg) (buf : Buffer) (len : ℕ) → (receive m buf len).msg_type ≡ buf 1
unfolding receive
receive-type m buf len = refl

receive-teid : (m : Msg) (buf : Buffer) (len : ℕ) → (receive m buf len).teid ≡ htonl (load32 buf 4)
unfolding receive
receive-teid m buf len = refl

pub dispatch_gpdu :
    {t : TreeOps} (s : Stack t) (env : Environment) (buf : Buffer) (len peer_port peer_ip : ℕ)
    → buf 1 ≡ 255
    → process_udp_req s env buf len peer_port peer_ip ≡ some (process_gpdu s env buf len)
unfolding process_udp_req
dispatch_gpdu s env buf len peer_port peer_ip e = rw e refl

-- A payload of up to 4084 bytes that is sent under a TEID goes out as one datagram to port 2152. A stack that
-- receives the datagram, and whose upper layer made a session with that TEID last, hands to this session a
-- message with the TEID, the payload's length and its bytes, and with the sequence number if it was sent.
pub tpdu_delivered :
    {t : TreeOps} (laws : IsMap t) (s r : Stack t) (v : ℕ → Option ℕ) (env env2 : Environment)
    (teid ip_addr seq_num_flag seq_num : ℕ) (tpdu : Buffer) (n session peer_port peer_ip : ℕ)
    → teid < 4294967296
    → seq_num < 65536
    → n + 12 ≤ 4096
    → History r v
    → v teid ≡ some session
    → let (h, s1) = gpdu_msg_new s env 0 seq_num_flag seq_num tpdu n in
      let m = sent_gpdu s env teid ip_addr seq_num_flag seq_num tpdu n h in
      let g = (msg_from_buffer_new r env2 m.msg_buf m.msg_len).0 in
      h ≢ 0
      → g ≢ 0
      → ((sendto s1 env teid ip_addr h).1.out ≡ udp m.msg_buf m.msg_len ip_addr 2152 ∷ s.out)
        × (x : Stack t) × (process_udp_req r env2 m.msg_buf m.msg_len peer_port peer_ip
            ≡ some (ok, x))
        × (x.out ≡ recv_tpdu session teid g ∷ r.out)
        × Carried teid (if seq_num_flag == 0 then (r.msg g).seq_num else seq_num) n tpdu (x.msg g)
tpdu_delivered {t} laws s r v env env2 teid ip_addr seq_num_flag seq_num tpdu n session peer_port
      peer_ip ht hs hn before live dh dg =
    let h = (gpdu_msg_new s env 0 seq_num_flag seq_num tpdu n).0 in
    let m = sent_gpdu s env teid ip_addr seq_num_flag seq_num tpdu n h in
    let buf = m.msg_buf in
    let len = m.msg_len in
    let (g, r1) = msg_from_buffer_new r env2 buf len in
    let c = carried (s.msg h) teid seq_num_flag seq_num tpdu n ht hs (omega arith) (r.msg g) in
    let (held, quiet) = received_msg r env2 buf len dg in
    let number : htonl (load32 buf 4) ≡ teid = sym (receive-teid (r.msg g) buf len) ∙ c.teid in
    (
      sends s env teid ip_addr seq_num_flag seq_num tpdu n dh,
      (handed r env2 buf len teid (some session)).1,
      dispatch_gpdu r env2 buf len peer_port peer_ip
            (sym (receive-type (r.msg g) buf len) ∙ c.msg_type)
          ∙ ap some (
              process_gpdu-handed laws r v env2 buf len before dg
              ∙ ap (λ k. handed r env2 buf len k (v k)) number
              ∙ ap (handed r env2 buf len teid) live),
      ap (λ o. recv_tpdu session teid g ∷ o) quiet,
      subst (Carried teid (if seq_num_flag == 0 then (r.msg g).seq_num else seq_num) n tpdu)
          (sym held) c,
    )
