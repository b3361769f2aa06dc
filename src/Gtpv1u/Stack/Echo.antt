-- ===== src/Gtpv1u/Stack/Echo.antt =====
-- The answer to an echo request.
use linkerepc.Prelude.{
  ℕ, ◌/◌, ◌%◌, ◌<◌, ◌≡◌, ◌≢◌, refl, ap, subst, ◌∙◌, arith, Option, none, some, ◌∷◌, ◌==◌,
  if◌then◌else◌, eqb-false, htons, htonl, set, set-here,
}
use linkerepc.Bytes.{Buffer, load16, load32, store16, store32}
use linkerepc.Gtpv1u.Msg.{Msg, init, add_ie_tv1, write_header}
use linkerepc.Gtpv1u.Stack.{Stack, TreeOps, Rc, ok, Environment, udp}
use linkerepc.Gtpv1u.Stack.Storage.{from_pool, made, make_msg-made, msg_new, set_msg, msg_delete}
use linkerepc.Gtpv1u.Stack.Ulp.{create_and_send_msg}
use linkerepc.Gtpv1u.Stack.Udp.{process_udp_req, handle_echo_req, echo_seq, echo_rsp}

-- The response that is made in the storage `m` for the sequence number `n`.
abbrev pub response : Msg → ℕ → Msg
response m n = write_header (add_ie_tv1 (init m (echo_rsp n)) 14 0)

-- The bytes of an echo response.
pub record IsEchoRsp (b : Buffer) (n teid : ℕ) : Type 0 where
  pub flags : b 0 ≡ 50
  pub type : b 1 ≡ 2
  pub length : htons (load16 b 2) ≡ 14
  pub key : htonl (load32 b 4) ≡ teid
  pub number : htons (load16 b 8) ≡ n
  pub recovery : (b 12 ≡ 14) × (b 13 ≡ 0)

response-IsEchoRsp :
    (m : Msg) (n : ℕ) → n < 65536 → m.teid < 4294967296 → IsEchoRsp (response m n).msg_buf n m.teid
unfolding write_header add_ie_tv1 init store16 store32 load16 load32 htons htonl
response-IsEchoRsp m n l k = record {
  flags = ground arith;
  type = ground arith;
  length = ground arith;
  key = ground arith;
  number = ground arith;
  recovery = (ground arith, ground arith);
}

response-len : (m : Msg) (n : ℕ) → (response m n).msg_len ≡ 14
unfolding write_header add_ie_tv1 init
response-len m n = refl

echo_seq-bound : (b : Buffer) → echo_seq b < 65536
unfolding htons
echo_seq-bound b = omega arith

dispatch_echo :
    {t : TreeOps} (s : Stack t) (env : Environment) (buf : Buffer) (len peer_port peer_ip : ℕ)
    → buf 1 ≡ 1
    → process_udp_req s env buf len peer_port peer_ip ≡ handle_echo_req s env buf peer_port peer_ip
unfolding process_udp_req
dispatch_echo s env buf len peer_port peer_ip e = rw e refl

module _ {t : TreeOps} (s : Stack t) (env : Environment) (buf : Buffer)
    (peer_port peer_ip : ℕ) where
  abbrev p : ℕ
  p = (from_pool s.msg_pool env.new_msg).0

  abbrev answered : ℕ × Stack t → Option (Rc × Stack t)
  answered (h, s1) =
      let filled = set_msg h (add_ie_tv1 (s1.msg h) 14 0) s1 in
      if h == 0
      then none
      else some (ok, msg_delete (create_and_send_msg filled peer_ip peer_port h) h)

  -- The state after the response.
  unfoldable replied : Stack t
  replied =
      let s1 = (made s env (λ r. init r (echo_rsp (echo_seq buf)))).1 in
      msg_delete
        (create_and_send_msg (set_msg p (add_ie_tv1 (s1.msg p) 14 0) s1) peer_ip peer_port p) p

  answers :
      (msg_new s env (echo_rsp (echo_seq buf))).0 ≢ 0
      → handle_echo_req s env buf peer_port peer_ip ≡ some (ok, replied)
  unfolding handle_echo_req msg_new replied
  answers d =
      let q = make_msg-made s env (λ r. init r (echo_rsp (echo_seq buf))) d in
      ap answered q
      ∙ ap (λ c. if c then none else some (ok, replied))
          (eqb-false p 0 (subst (λ (y : ℕ × Stack t). y.0 ≢ 0) q d))

  replied-parts :
      (replied.out ≡ udp (response (s.msg p) (echo_seq buf)).msg_buf 14 peer_ip peer_port ∷ s.out)
      × (replied.msg_pool ≡ p ∷ (from_pool s.msg_pool env.new_msg).1)
      × (replied.teid_map ≡ s.teid_map)
      × (replied.tx_map ≡ s.tx_map)
      × (replied.trxn ≡ s.trxn)
  unfolding replied create_and_send_msg
  replied-parts =
      let n = echo_seq buf in
      let held = set-here s.msg p p (init (s.msg p) (echo_rsp n)) refl in
      let S = set s.msg p (init (s.msg p) (echo_rsp n)) in
      let sent = set-here S p p (add_ie_tv1 (S p) 14 0) refl ∙ ap (λ m. add_ie_tv1 m 14 0) held in
      (
        ap (λ m. udp (write_header m).msg_buf (write_header m).msg_len peer_ip peer_port ∷ s.out)
              sent
            ∙ ap (λ l. udp (response (s.msg p) n).msg_buf l peer_ip peer_port ∷ s.out)
                (response-len (s.msg p) n),
        refl,
        refl,
        refl,
        refl,
      )

-- An echo request is answered at once, to the address and port that it came from, with an echo response of
-- 14 bytes with the sequence number of the request and a zero restart counter; the sequence number is the
-- word behind the header's fixed part, or in place of the TEID without the flag. The message goes back to the pool,
-- and the tunnels and transactions stay. The TEID of the response is whatever its storage held.
pub process_udp_req_echo :
    {t : TreeOps} (s : Stack t) (env : Environment) (buf : Buffer) (len peer_port peer_ip : ℕ)
    → buf 1 ≡ 1
    → (msg_new s env (echo_rsp (echo_seq buf))).0 ≢ 0
    → let (p, pool) = from_pool s.msg_pool env.new_msg in
      (s.msg p).teid < 4294967296
      → (r : Stack t) × (b : Buffer) × (process_udp_req s env buf len peer_port peer_ip
          ≡ some (ok, r))
        × (r.out ≡ udp b 14 peer_ip peer_port ∷ s.out)
        × IsEchoRsp b (htons (load16 buf (if buf 0 / 2 % 2 == 0 then 4 else 8))) (s.msg p).teid
        × (r.msg_pool ≡ p ∷ pool)
        × (r.teid_map ≡ s.teid_map)
        × (r.tx_map ≡ s.tx_map)
        × (r.trxn ≡ s.trxn)
process_udp_req_echo s env buf len peer_port peer_ip e d l =
    let p = (from_pool s.msg_pool env.new_msg).0 in
    let (out, pool, tunnels, requests, trxns) = replied-parts s env buf peer_port peer_ip in
    (
      replied s env buf peer_port peer_ip,
      (response (s.msg p) (echo_seq buf)).msg_buf,
      dispatch_echo s env buf len peer_port peer_ip e ∙ answers s env buf peer_port peer_ip d,
      out,
      response-IsEchoRsp (s.msg p) (echo_seq buf) (echo_seq-bound buf) l,
      pool,
      tunnels,
      requests,
      trxns,
    )
