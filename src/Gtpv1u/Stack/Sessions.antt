-- ===== src/Gtpv1u/Stack/Sessions.antt =====
-- The tunnel end points as a table from TEIDs to the sessions of the upper layer, over all that the stack
-- does.
pub mod Frames
pub mod Table
pub mod Refinement
use linkerepc.Prelude.{
  ℕ, ◌≡◌, ◌≢◌, refl, ap, sym, subst, ◌∙◌, arith, Bool, true, false, inl, inr, Option, none, some,
  List, [], ◌∷◌, ◌==◌, if◌then◌else◌, if-cases, eq-cases, eqb-false, eqb-true, some-injective,
  none-some, All, All-imp, Absent, IsDistinct, Bool-cases, Option-cases, set,
}
use linkerepc.Trees.{Key-cases}
use linkerepc.Bytes.{Buffer}
use linkerepc.Gtpv1u.Stack.{
  Stack, TreeOps, IsMap, Key, Rc, ok, failure, unset, TunnelEndPoint, Environment, tunnel_key,
}
use linkerepc.Gtpv1u.Stack.Storage.{from_pool}
use linkerepc.Gtpv1u.Stack.Ulp.{
  create_tunnel_end_point, enter_tunnel, destroy_tunnel_end_point, initial_req, sendto,
}
use linkerepc.Gtpv1u.Stack.Transactions.{trxn_peer_rsp_timeout}
use linkerepc.Gtpv1u.Stack.Udp.{process_udp_req}
use linkerepc.Gtpv1u.Stack.Sessions.Frames.{tunnels}

-- The session of an end point that was looked up.
abbrev pub session_of : (ℕ → TunnelEndPoint) → Option ℕ → Option ℕ
session_of tunnel none = none
session_of tunnel (some p) = some (tunnel p).h_ulp_session

-- The end points are the table `v`: each stands under its own TEID, and none is in the pool.
pub record IsTable (t : TreeOps) (x : t.Tree × (ℕ → TunnelEndPoint) × List ℕ) (v : ℕ → Option ℕ)
    : Type 0 where
  pub own : (k : Key) (p : ℕ) → t.find x.0 k ≡ some p → tunnel_key (x.1 p).teid ≡ k
  pub apart : (k : Key) (p : ℕ) → t.find x.0 k ≡ some p → Absent p x.2
  pub valid : (k : Key) (p : ℕ) → t.find x.0 k ≡ some p → p ≢ 0
  pub pooled : All (λ p. p ≢ 0) x.2
  pub once : IsDistinct x.2
  pub view : (teid : ℕ) → session_of x.1 (t.find x.0 (tunnel_key teid)) ≡ v teid

-- The pointer is not that of an end point: what the documentation of malloc promises.
abbrev pub IsUnused : {t : TreeOps} → Stack t → ℕ → Type 0
IsUnused {t} s p = (k : Key) → t.find s.teid_map k ≢ some p

-- The table after the creation of an end point.
abbrev pub after_create : (ℕ → Option ℕ) → ℕ → ℕ → Rc → ℕ → Option ℕ
after_create v teid h_ulp_session ok = set v teid (some h_ulp_session)
after_create v teid h_ulp_session failure = v
after_create v teid h_ulp_session unset = v

-- What the stack has done since it began, and the table that its upper layer made.
pub data History {t : TreeOps} : Stack t → (ℕ → Option ℕ) → Type 0 where
  begins :
      (s : Stack t)
      → ((k : Key) → t.find s.teid_map k ≡ none)
      → s.tunnel_pool ≡ []
      → History s (λ _. none)
  creates :
      (s r : Stack t) (v : ℕ → Option ℕ) (env : Environment) (teid h_ulp_session h : ℕ) (rc : Rc)
      → History s v
      → IsUnused s env.new_tunnel
      → create_tunnel_end_point s env teid h_ulp_session ≡ some (rc, h, r)
      → History r (after_create v teid h_ulp_session rc)
  destroys :
      (s : Stack t) (v : ℕ → Option ℕ) (teid h : ℕ)
      → History s v
      → t.find s.teid_map (tunnel_key teid) ≡ some h
      → History (destroy_tunnel_end_point s h) (set v teid none)
  requests :
      (s : Stack t) (v : ℕ → Option ℕ) (env : Environment) (peer_ip peer_port h_msg : ℕ)
      → History s v
      → History (initial_req s env peer_ip peer_port h_msg).1 v
  sends :
      (s : Stack t) (v : ℕ → Option ℕ) (env : Environment) (teid ip_addr h_msg : ℕ)
      → History s v
      → History (sendto s env teid ip_addr h_msg).1 v
  receives :
      (s r : Stack t) (v : ℕ → Option ℕ) (env : Environment) (buf : Buffer)
      (len peer_port peer_ip : ℕ) (rc : Rc)
      → History s v
      → process_udp_req s env buf len peer_port peer_ip ≡ some (rc, r)
      → History r v
  expires :
      (s r : Stack t) (v : ℕ → Option ℕ) (p timer : ℕ)
      → History s v
      → trxn_peer_rsp_timeout s p timer ≡ some r
      → History r v
