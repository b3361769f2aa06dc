-- ===== src/Ipv4.antt =====
-- nw-ipv4/src: the IPv4 stack of the data plane (NwIpv4.c, NwIpv4Msg.c and NwIpv4TunnelEndPoint.c). End points and
-- messages are pointers, given as numbers with 0 for NULL; the pools, static variables of the source, stand with the
-- state. `none` is a failed assertion.
use linkerepc.Prelude.{
  ℕ, ◌+◌, ◌-◌, Bool, Option, none, some, List, ◌∷◌, ◌==◌, if◌then◌else◌, u16, u32, htons, set,
}
use linkerepc.Trees.{Key, TreeOps}
use linkerepc.Bytes.{Buffer, load16, load32, copy}
use linkerepc.Gtpv1u.Stack.{Rc, ok, failure, unset}
use linkerepc.Gtpv1u.Stack.Storage.{from_pool}

-- `NwIpv4MsgT`
pub record Msg : Type 0 where
  pub msg_buf : Buffer
  pub msg_len : ℕ

-- `NwIpv4TunnelEndPointT`
pub record TunnelEndPoint : Type 0 where
  pub ipv4_addr : ℕ
  pub h_ulp_session : ℕ

pub data Output : Type 0 where
  -- bytes and their number, to the lower layer
  data_req : Buffer → ℕ → Output
  -- operation and the two addresses, to the lower layer; the hardware address is left out
  arp_req : ℕ → ℕ → ℕ → Output
  -- session and, if there was memory for it, message, to the upper layer
  recv_tpdu : ℕ → Option ℕ → Output

-- `NwIpv4StackT`
pub record Stack (t : TreeOps) : Type 0 where
  pub is_downlink : Bool
  pub addr_map : t.Tree
  pub msg : ℕ → Msg
  pub tunnel : ℕ → TunnelEndPoint
  pub msg_pool : List ℕ
  pub tunnel_pool : List ℕ
  pub out : List Output

-- The pointers of the allocator, and what the lower layer returns.
pub record Environment : Type 0 where
  pub new_msg : ℕ
  pub new_tunnel : ℕ
  pub llp_rc : Rc

-- The key of `nwIpv4CompareTeid`.
abbrev pub addr_key : ℕ → Key
addr_key ipv4_addr = record { number = ipv4_addr; peer_ip = 0; peer_port = 0 }

abbrev pub emit : {t : TreeOps} → Output → Stack t → Stack t
emit o s = record s { out = o ∷ s.out }

-- `nwIpv4MsgFromBufferNew`, with 0 without memory, and `nwIpv4MsgDelete`
abbrev pub filled : {t : TreeOps} → Stack t → Environment → Buffer → ℕ → ℕ × Stack t
filled s env buf len =
    let (p, pool) = from_pool s.msg_pool env.new_msg in
    let m : Msg = record { msg_buf = copy (s.msg p).msg_buf 0 buf len; msg_len = u16 len } in
    (p, record s { msg_pool = pool; msg = set s.msg p m })

unfoldable pub msg_from_buffer_new :
    {t : TreeOps} → Stack t → Environment → Buffer → ℕ → ℕ × Stack t
msg_from_buffer_new s env buf len =
    let (p, pool) = from_pool s.msg_pool env.new_msg in
    if p == 0 then (0, record s { msg_pool = pool }) else filled s env buf len

abbrev pub msg_delete : {t : TreeOps} → Stack t → ℕ → Stack t
msg_delete s p = record s { msg_pool = p ∷ s.msg_pool }

-- `NwIpv4CreateTunnelEndPoint`: the result and the handle, 0 for an address that is in use. The ARP
-- operation 1 is a request.
abbrev pub enter_tunnel :
    {t : TreeOps} → Stack t → Environment → ℕ → ℕ → ℕ → Option ℕ → Rc × ℕ × Stack t
enter_tunnel {t} s env p ipv4_addr h_ulp_session none =
    let x : TunnelEndPoint = record { ipv4_addr = ipv4_addr; h_ulp_session = h_ulp_session } in
    (
      env.llp_rc,
      p,
      emit (arp_req 1 ipv4_addr ipv4_addr) (record s {
        tunnel = set s.tunnel p x;
        addr_map = t.insert s.addr_map (addr_key ipv4_addr) p;
      }),
    )
enter_tunnel s env p ipv4_addr h_ulp_session (some c) =
    (failure, 0, record s { tunnel_pool = p ∷ s.tunnel_pool })

unfoldable pub create_tunnel_end_point :
    {t : TreeOps} → Stack t → Environment → ℕ → ℕ → Rc × ℕ × Stack t
create_tunnel_end_point {t} s env ipv4_addr h_ulp_session =
    let (p, pool) = from_pool s.tunnel_pool env.new_tunnel in
    let s1 : Stack t = record s { tunnel_pool = pool } in
    if p == 0
    then (failure, 0, s1)
    else enter_tunnel s1 env p ipv4_addr h_ulp_session (t.find s.addr_map (addr_key ipv4_addr))

-- `nwIpv4DestroyTunnelEndPoint` of an end point that is in the tree.
unfoldable pub destroy_tunnel_end_point : {t : TreeOps} → Stack t → ℕ → Option (Stack t)
destroy_tunnel_end_point {t} s p =
    if p == 0
    then none
    else some (record s {
      addr_map = t.remove s.addr_map (addr_key (s.tunnel p).ipv4_addr);
      tunnel_pool = p ∷ s.tunnel_pool;
    })

-- `nwIpv4Sendto`
abbrev pub sendto : {t : TreeOps} → Stack t → Environment → ℕ → Rc × Stack t
sendto s env h_msg = (env.llp_rc, emit (data_req (s.msg h_msg).msg_buf (s.msg h_msg).msg_len) s)

-- `nwIpv4SessionSendMsgApiToUlpEntity`: the upper layer is called even without memory for the message.
unfoldable pub send_msg_to_ulp :
    {t : TreeOps} → Stack t → Environment → ℕ → Buffer → ℕ → Rc × Stack t
send_msg_to_ulp s env p buf len =
    let session = (s.tunnel p).h_ulp_session in
    let (h, s1) = msg_from_buffer_new s env buf len in
    if h == 0
    then (failure, emit (recv_tpdu session none) s1)
    else (ok, emit (recv_tpdu session (some h)) s1)

-- `nwIpv4ProcessPdu` of a frame whose bytes stand at `pdu_addr`. The end point of an ARP request is looked up
-- under the address, in memory, of the target's address. The ARP operation 2 is a reply.
abbrev pub to_session : {t : TreeOps} → Stack t → Environment → Buffer → ℕ → Option ℕ → Rc × Stack t
to_session s env pdu len none = (unset, s)
to_session s env pdu len (some p) =
    send_msg_to_ulp s env p (λ k. pdu (14 + k)) (u32 (len + 4294967296 - 14))

abbrev pub to_arp : {t : TreeOps} → Stack t → Environment → Buffer → Option ℕ → Rc × Stack t
to_arp s env pdu none = (unset, s)
to_arp s env pdu (some p) = (env.llp_rc, emit (arp_req 2 (load32 pdu 38) (load32 pdu 28)) s)

abbrev pub pdu_addr_key : {t : TreeOps} → Stack t → Buffer → Key
pdu_addr_key s pdu = addr_key (if s.is_downlink then load32 pdu 30 else load32 pdu 26)

unfoldable pub process_pdu : {t : TreeOps} → Stack t → Environment → ℕ → Buffer → ℕ → Rc × Stack t
process_pdu {t} s env pdu_addr pdu len =
    if load16 pdu 12 == htons 2048
    then to_session s env pdu len (t.find s.addr_map (pdu_addr_key s pdu))
    else if load16 pdu 12 == htons 2054
    then to_arp s env pdu (t.find s.addr_map (addr_key (u32 (pdu_addr + 38))))
    else (unset, s)
