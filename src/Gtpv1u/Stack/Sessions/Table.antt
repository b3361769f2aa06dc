-- ===== src/Gtpv1u/Stack/Sessions/Table.antt =====
-- An end point that is entered into the table of the sessions, and one that is taken out.
use linkerepc.Prelude.{
  ℕ, ◌≡◌, ◌≢◌, refl, ap, sym, subst, ◌∙◌, inl, inr, Option, none, some, List, [], ◌∷◌,
  some-injective, none-some, All, Absent, IsDistinct, Option-cases, set, set-here, set-there,
}
use linkerepc.Trees.{Key-cases}
use linkerepc.Gtpv1u.Stack.{TreeOps, IsMap, Key, TunnelEndPoint, tunnel_key}
use linkerepc.Gtpv1u.Stack.Storage.{from_pool}
use linkerepc.Gtpv1u.Stack.Sessions.{IsTable, session_of}

key-injective : (a b : ℕ) → tunnel_key a ≡ tunnel_key b → a ≡ b
key-injective a b e = ap (λ (k : Key). k.number) e

-- The pointer of a new end point, and the rest of the pool.
pub record Taken (t : TreeOps) (m : t.Tree) (p : ℕ) (pool : List ℕ) : Type 0 where
  pub unused : (k : Key) → t.find m k ≢ some p
  pub apart : (k : Key) (q : ℕ) → t.find m k ≡ some q → Absent q pool
  pub fresh : Absent p pool
  pub once : IsDistinct pool
  pub pooled : All (λ p. p ≢ 0) pool

pub takes :
    (t : TreeOps) (m : t.Tree) (tunnel : ℕ → TunnelEndPoint) (pool : List ℕ) (v : ℕ → Option ℕ)
    (fresh : ℕ)
    → IsTable t (m, tunnel, pool) v
    → ((k : Key) → t.find m k ≢ some fresh)
    → Taken t m (from_pool pool fresh).0 (from_pool pool fresh).1
takes t m tunnel [] v fresh h u = record {
  unused = u;
  apart = λ k q e. tt;
  fresh = tt;
  once = tt;
  pooled = tt;
}
takes t m tunnel (p ∷ ps) v fresh h u = record {
  unused = λ k e. (h.apart k p e).0 refl;
  apart = λ k q e. (h.apart k q e).1;
  fresh = h.once.0;
  once = h.once.1;
  pooled = h.pooled.1;
}

module _ (t : TreeOps) (laws : IsMap t) (m : t.Tree) (tunnel : ℕ → TunnelEndPoint)
    (v : ℕ → Option ℕ) where
  -- A new end point under a TEID that has none.
  pub enters :
      (pool rest : List ℕ) (p teid h_ulp_session : ℕ)
      → IsTable t (m, tunnel, pool) v
      → Taken t m p rest
      → p ≢ 0
      → IsTable t
          (
            t.insert m (tunnel_key teid) p,
            set tunnel p (record { teid = teid; h_ulp_session = h_ulp_session }),
            rest,
          )
          (set v teid (some h_ulp_session))
  enters pool rest p teid h_ulp_session h taken nonnull =
      let x : TunnelEndPoint = record { teid = teid; h_ulp_session = h_ulp_session } in
      let key = tunnel_key teid in
      let found = laws.found m key p in
      let old : (k : Key) (q : ℕ)
          → key ≢ k
          → t.find (t.insert m key p) k ≡ some q
          → t.find m k ≡ some q =
        λ k q d e. sym (laws.kept m key k p d) ∙ e in
      let same : (k : Key) (q : ℕ) → key ≡ k → t.find (t.insert m key p) k ≡ some q → p ≡ q =
        λ k q d e.
          some-injective p q
            (sym (subst (λ k. t.find (t.insert m key p) k ≡ some p) d found) ∙ e) in
      let other : (k : Key) (q : ℕ) → t.find m k ≡ some q → p ≢ q =
        λ k q e d. taken.unused k (e ∙ ap some (sym d)) in
      record {
        own = λ k q e. elim (Key-cases key k) [
          | inl d ↦
              ap (λ (y : TunnelEndPoint). tunnel_key y.teid) (set-here tunnel p q x (same k q d e))
              ∙ d
          | inr d ↦
              ap (λ (y : TunnelEndPoint). tunnel_key y.teid)
                (set-there tunnel p q x (other k q (old k q d e)))
              ∙ h.own k q (old k q d e)
        ];
        apart = λ k q e. elim (Key-cases key k) [
          | inl d ↦ subst (λ z. Absent z rest) (same k q d e) taken.fresh
          | inr d ↦ taken.apart k q (old k q d e)
        ];
        valid = λ k q e. elim (Key-cases key k) [
          | inl d ↦ subst (λ z. z ≢ 0) (same k q d e) nonnull
          | inr d ↦ h.valid k q (old k q d e)
        ];
        pooled = taken.pooled;
        once = taken.once;
        view = λ n. elim (Key-cases key (tunnel_key n)) [
          | inl d ↦
              ap (session_of (set tunnel p x))
                (subst (λ k. t.find (t.insert m key p) k ≡ some p) d found)
              ∙ ap (λ (y : TunnelEndPoint). some y.h_ulp_session) (set-here tunnel p p x refl)
              ∙ sym (set-here v teid n (some h_ulp_session) (key-injective teid n d))
          | inr d ↦
              ap (session_of (set tunnel p x)) (laws.kept m key (tunnel_key n) p d)
              ∙ untouched x n (λ q e. other (tunnel_key n) q e)
              ∙ h.view n
              ∙ sym (set-there v teid n (some h_ulp_session) λ e. d (ap tunnel_key e))
        ];
      }
    where
      untouched :
          (x : TunnelEndPoint) (n : ℕ)
          → ((q : ℕ) → t.find m (tunnel_key n) ≡ some q → p ≢ q)
          → session_of (set tunnel p x) (t.find m (tunnel_key n))
            ≡ session_of tunnel (t.find m (tunnel_key n))
      untouched x n f = elim (Option-cases (t.find m (tunnel_key n))) [
        | inl e ↦ ap (session_of (set tunnel p x)) e ∙ sym (ap (session_of tunnel) e)
        | inr (q, e) ↦
            ap (session_of (set tunnel p x)) e
            ∙ ap (λ (y : TunnelEndPoint). some y.h_ulp_session) (set-there tunnel p q x (f q e))
            ∙ sym (ap (session_of tunnel) e)
      ]

  -- An end point that is taken out.
  pub leaves :
      (pool : List ℕ) (h teid : ℕ)
      → IsTable t (m, tunnel, pool) v
      → t.find m (tunnel_key teid) ≡ some h
      → IsTable t (t.remove m (tunnel_key (tunnel h).teid), tunnel, h ∷ pool) (set v teid none)
  leaves pool h teid table live =
      let key = tunnel_key (tunnel h).teid in
      let own : key ≡ tunnel_key teid = table.own (tunnel_key teid) h live in
      let number : (tunnel h).teid ≡ teid = key-injective (tunnel h).teid teid own in
      let differs : (k : Key) (q : ℕ) → t.find (t.remove m key) k ≡ some q → key ≢ k = λ k q e d.
        none-some (t.find (t.remove m key) k) q
          (subst (λ k. t.find (t.remove m key) k ≡ none) d (laws.gone m key)) e in
      let old : (k : Key) (q : ℕ) → t.find (t.remove m key) k ≡ some q → t.find m k ≡ some q =
        λ k q e. sym (laws.left m key k (differs k q e)) ∙ e in
      record {
        own = λ k q e. table.own k q (old k q e);
        apart = λ k q e. (
          λ d.
              differs k q e
                (sym (ap (λ z. tunnel_key (tunnel z).teid) d) ∙ table.own k q (old k q e)),
          table.apart k q (old k q e),
        );
        valid = λ k q e. table.valid k q (old k q e);
        pooled = (table.valid (tunnel_key teid) h live, table.pooled);
        once = (table.apart (tunnel_key teid) h live, table.once);
        view = λ n. elim (Key-cases key (tunnel_key n)) [
          | inl d ↦
              ap (session_of tunnel)
                (subst (λ k. t.find (t.remove m key) k ≡ none) d (laws.gone m key))
              ∙ sym (set-here v teid n none (sym number ∙ key-injective (tunnel h).teid n d))
          | inr d ↦
              ap (session_of tunnel) (laws.left m key (tunnel_key n) d)
              ∙ table.view n
              ∙ sym (set-there v teid n none λ e. d (own ∙ ap tunnel_key e))
        ];
      }
