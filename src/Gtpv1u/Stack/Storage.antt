-- ===== src/Gtpv1u/Stack/Storage.antt =====
-- nw-gtpv1u/src: the objects of the stack, from their pools or from the allocator. A constructor gives 0
-- with the state as it was if there is no memory.
use linkerepc.Prelude.{
  ◌≡◌, ◌≢◌, refl, ap, eqb-false, if-elim, ℕ, List, [], ◌∷◌, ◌==◌, if◌then◌else◌, set,
}
use linkerepc.Bytes.{Buffer}
use linkerepc.Gtpv1u.Msg.{Msg, NewMsg, init, init_gpdu, receive}
use linkerepc.Gtpv1u.Stack.{Stack, TreeOps, Environment}

-- The head of a pool, or what the allocator returns, and the rest of the pool.
abbrev pub from_pool : List ℕ → ℕ → ℕ × List ℕ
from_pool [] fresh = (fresh, [])
from_pool (p ∷ ps) fresh = (p, ps)

-- A message made from the storage that is found.
abbrev pub made : {t : TreeOps} → Stack t → Environment → (Msg → Msg) → ℕ × Stack t
made s env f =
    let (p, pool) = from_pool s.msg_pool env.new_msg in
    (p, record s { msg_pool = pool; msg = set s.msg p (f (s.msg p)) })

abbrev pub make_msg : {t : TreeOps} → Stack t → Environment → (Msg → Msg) → ℕ × Stack t
make_msg s env f =
    let (p, pool) = from_pool s.msg_pool env.new_msg in
    if p == 0 then (0, record s { msg_pool = pool }) else made s env f

pub make_msg-made :
    {t : TreeOps} (s : Stack t) (env : Environment) (f : Msg → Msg)
    → (make_msg s env f).0 ≢ 0
    → make_msg s env f ≡ made s env f
make_msg-made s env f =
    let (p, pool) = from_pool s.msg_pool env.new_msg in
    if-elim (λ (x : ℕ × Stack _). x.0 ≢ 0 → x ≡ made s env f) (p == 0)
      (0, record s { msg_pool = pool }) (made s env f) (λ d. absurd (d refl)) (λ d. refl)

pub make_msg-drawn :
    {t : TreeOps} (s : Stack t) (env : Environment) (f : Msg → Msg)
    → (from_pool s.msg_pool env.new_msg).0 ≢ 0
    → make_msg s env f ≡ made s env f
make_msg-drawn s env f d =
    let (p, pool) = from_pool s.msg_pool env.new_msg in
    ap (λ c. if c then (0, record s { msg_pool = pool }) else made s env f) (eqb-false p 0 d)

-- `nwGtpv1uMsgNew`, `nwGtpv1uGpduMsgNew`, `nwGtpv1uMsgFromMsgNew`, `nwGtpv1uMsgFromBufferNew`,
-- `nwGtpv1uMsgDelete`
unfoldable pub msg_new : {t : TreeOps} → Stack t → Environment → NewMsg → ℕ × Stack t
msg_new s env a = make_msg s env (λ r. init r a)

unfoldable pub gpdu_msg_new :
    {t : TreeOps} → Stack t → Environment → ℕ → ℕ → ℕ → Buffer → ℕ → ℕ × Stack t
gpdu_msg_new s env teid seq_num_flag seq_num tpdu tpdu_length =
    make_msg s env (λ r. init_gpdu r teid seq_num_flag seq_num tpdu tpdu_length)

unfoldable pub msg_from_msg_new : {t : TreeOps} → Stack t → Environment → ℕ → ℕ × Stack t
msg_from_msg_new s env h_msg = make_msg s env (λ r. s.msg h_msg)

unfoldable pub msg_from_buffer_new :
    {t : TreeOps} → Stack t → Environment → Buffer → ℕ → ℕ × Stack t
msg_from_buffer_new s env buf len = make_msg s env (λ r. receive r buf len)

abbrev pub msg_delete : {t : TreeOps} → Stack t → ℕ → Stack t
msg_delete s p = record s { msg_pool = p ∷ s.msg_pool }

abbrev pub set_msg : {t : TreeOps} → ℕ → Msg → Stack t → Stack t
set_msg p m s = record s { msg = set s.msg p m }

-- `nwGtpTunnelEndPointNew`, `nwGtpTunnelEndPointDestroy`
abbrev pub tunnel_end_point_new : {t : TreeOps} → Stack t → Environment → ℕ × Stack t
tunnel_end_point_new s env =
    let (p, pool) = from_pool s.tunnel_pool env.new_tunnel in (p, record s { tunnel_pool = pool })

abbrev pub tunnel_end_point_destroy : {t : TreeOps} → Stack t → ℕ → Stack t
tunnel_end_point_destroy s p = record s { tunnel_pool = p ∷ s.tunnel_pool }
