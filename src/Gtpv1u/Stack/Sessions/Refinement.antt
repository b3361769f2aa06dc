-- ===== src/Gtpv1u/Stack/Sessions/Refinement.antt =====
-- The stack implements the table of its sessions.
use linkerepc.Prelude.{
  ℕ, ◌≡◌, ◌≢◌, ap, sym, subst, inl, inr, Option, none, some, ◌==◌, if-cases, eqb-holds, eqb-differs,
  none-some, All, IsDistinct, Option-cases, set,
}
use linkerepc.Gtpv1u.Stack.{Stack, TreeOps, IsMap, Rc, Environment, tunnel_key}
use linkerepc.Gtpv1u.Stack.Storage.{from_pool}
use linkerepc.Gtpv1u.Stack.Ulp.{create_tunnel_end_point, enter_tunnel, destroy_tunnel_end_point}
use linkerepc.Gtpv1u.Stack.Sessions.{
  IsTable, IsUnused, History, begins, creates, destroys, requests, sends, receives, expires,
  session_of, after_create,
}
use linkerepc.Gtpv1u.Stack.Sessions.Frames.{
  tunnels, Keeps, process_udp_req-Keeps, initial_req-tunnels, sendto-tunnels, timeout-tunnels,
}
use linkerepc.Gtpv1u.Stack.Sessions.Table.{takes, enters, leaves}

-- What a creation leaves.
abbrev Created : {t : TreeOps} → (ℕ → Option ℕ) → ℕ → ℕ → Option (Rc × ℕ × Stack t) → Type 0
Created v teid h_ulp_session none = Unit
Created {t} v teid h_ulp_session (some (rc, h, r)) =
    IsTable t (tunnels r) (after_create v teid h_ulp_session rc)

creates-IsTable :
    {t : TreeOps} (laws : IsMap t) (s : Stack t) (v : ℕ → Option ℕ) (env : Environment)
    (teid h_ulp_session : ℕ)
    → IsTable t (tunnels s) v
    → IsUnused s env.new_tunnel
    → Created v teid h_ulp_session (create_tunnel_end_point s env teid h_ulp_session)
unfolding create_tunnel_end_point
creates-IsTable {t} laws s v env teid h_ulp_session table unused =
    let p = (from_pool s.tunnel_pool env.new_tunnel).0 in
    let rest = (from_pool s.tunnel_pool env.new_tunnel).1 in
    let taken = takes t s.teid_map s.tunnel s.tunnel_pool v env.new_tunnel table unused in
    if-cases (Created v teid h_ulp_session) (p == 0) _ _
      (λ e. record {
        own = table.own;
        apart = taken.apart;
        valid = table.valid;
        pooled = taken.pooled;
        once = taken.once;
        view = table.view;
      })
      (λ e. elim (Option-cases (t.find s.teid_map (tunnel_key teid))) [
        | inl f ↦
            subst
              (λ o.
                Created v teid h_ulp_session
                  (enter_tunnel (record s { tunnel_pool = rest }) p teid h_ulp_session o))
              (sym f)
              (enters t laws s.teid_map s.tunnel v s.tunnel_pool rest p teid h_ulp_session table
                taken (eqb-differs p 0 e))
        | inr (q, f) ↦
            subst
              (λ o.
                Created v teid h_ulp_session
                  (enter_tunnel (record s { tunnel_pool = rest }) p teid h_ulp_session o))
              (sym f) tt
      ])

destroys-IsTable :
    {t : TreeOps} (laws : IsMap t) (s : Stack t) (v : ℕ → Option ℕ) (teid h : ℕ)
    → IsTable t (tunnels s) v
    → t.find s.teid_map (tunnel_key teid) ≡ some h
    → IsTable t (tunnels (destroy_tunnel_end_point s h)) (set v teid none)
unfolding destroy_tunnel_end_point
destroys-IsTable {t} laws s v teid h table live =
    if-cases (λ (r : Stack t). IsTable t (tunnels r) (set v teid none)) (h == 0) _ _
      (λ e. absurd (table.valid (tunnel_key teid) h live (eqb-holds h 0 e)))
      (λ e. leaves t laws s.teid_map s.tunnel v s.tunnel_pool h teid table live)

-- Whatever the stack has done since it began, its end points are the table that the upper layer made.
pub History-IsTable :
    {t : TreeOps} (laws : IsMap t) (s : Stack t) (v : ℕ → Option ℕ)
    → History s v
    → IsTable t (tunnels s) v
History-IsTable {t} laws _ _ (begins s empty pool) = record {
  own = λ k p e. absurd (none-some (t.find s.teid_map k) p (empty k) e);
  apart = λ k p e. absurd (none-some (t.find s.teid_map k) p (empty k) e);
  valid = λ k p e. absurd (none-some (t.find s.teid_map k) p (empty k) e);
  pooled = subst (All (λ p. p ≢ 0)) (sym pool) tt;
  once = subst IsDistinct (sym pool) tt;
  view = λ n. ap (session_of s.tunnel) (empty (tunnel_key n));
}
History-IsTable {t} laws _ _ (creates s r w env teid session h rc before unused e) =
    subst (Created w teid session) e
      (creates-IsTable laws s w env teid session (History-IsTable laws s w before) unused)
History-IsTable {t} laws _ _ (destroys s w teid h before live) =
    destroys-IsTable laws s w teid h (History-IsTable laws s w before) live
History-IsTable {t} laws _ _ (requests s w env peer_ip peer_port h_msg before) =
    subst (λ x. IsTable t x w) (sym (initial_req-tunnels s env peer_ip peer_port h_msg))
      (History-IsTable laws s w before)
History-IsTable {t} laws _ _ (sends s w env teid ip_addr h_msg before) =
    subst (λ x. IsTable t x w) (sym (sendto-tunnels s env teid ip_addr h_msg))
      (History-IsTable laws s w before)
History-IsTable {t} laws _ _ (receives s r w env buf len peer_port peer_ip rc before e) =
    subst (λ x. IsTable t x w)
      (sym (subst (Keeps s) e (process_udp_req-Keeps s env buf len peer_port peer_ip)))
      (History-IsTable laws s w before)
History-IsTable {t} laws _ _ (expires s r w p timer before e) =
    subst (λ x. IsTable t x w) (sym (timeout-tunnels s r p timer e))
      (History-IsTable laws s w before)
