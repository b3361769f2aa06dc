-- ===== src/SaeGw/Bearers/Removal.antt =====
-- nw-sae-gw/NwSaeGwUlp.c: removing the flows of a bearer touches the data plane and nothing else.
use linkerepc.Prelude.{
  ℕ, ◌≡◌, sym, ap, ◌∙◌, Bool, true, false, Option, none, some, ◌==◌, if◌then◌else◌,
}
use linkerepc.Trees.{TreeOps}
use linkerepc.Sdp.{Sdp, destroy_flow}
use linkerepc.SaeGw.{Gw, ◌>>=◌, bind-some}
use linkerepc.SaeGw.Flows.{remove_flow}
use linkerepc.SaeGw.Bearers.{bearer, remove_if, remove_uplink, remove_downlink}

module _ {t : TreeOps} where
  -- The gateway with another data plane.
  abbrev pub Replaced : Gw t → Gw t → Type 0
  Replaced s r = (d : Sdp t) × (r ≡ record s { sdp = d })

  some-gw : {s r : Gw t} → ◌≡◌ {A = Option (Gw t)} (some s) (some r) → s ≡ r
  some-gw e = cc

  remove_flow-Replaced : (s r : Gw t) (h : ℕ) → remove_flow s h ≡ some r → Replaced s r
  unfolding remove_flow
  remove_flow-Replaced s r h e =
      let (d, e1, e2) =
        bind-some (destroy_flow s.sdp h) (λ (d : Sdp t). some (record s { sdp = d })) r e in
      (d, sym (some-gw e2))

  unchanged : (s r : Gw t) → ◌≡◌ {A = Option (Gw t)} (some s) (some r) → Replaced s r
  unchanged s r e = (s.sdp, sym (some-gw e))

  if-Replaced :
      (c : Bool) (s r : Gw t) (x y : Option (Gw t))
      → (x ≡ some r → Replaced s r)
      → (y ≡ some r → Replaced s r)
      → (if c then x else y) ≡ some r
      → Replaced s r
  if-Replaced true s r x y f g e = f e
  if-Replaced false s r x y f g e = g e

  remove_if-Replaced : (h : ℕ) (s r : Gw t) → remove_if h s ≡ some r → Replaced s r
  remove_if-Replaced h s r e =
      if-Replaced (h == 0) s r (some s) (remove_flow s h) (unchanged s r)
        (remove_flow-Replaced s r h) e

  then-Replaced : (s a r : Gw t) → Replaced s a → Replaced a r → Replaced s r
  then-Replaced s a r (d, e) (d2, e2) = (d2, e2 ∙ ap (λ (z : Gw t). record z { sdp = d2 }) e)

  both-Replaced : (s r : Gw t) (h k : ℕ) → remove_if h s >>= remove_if k ≡ some r → Replaced s r
  both-Replaced s r h k e =
      let (a, e1, e2) = bind-some (remove_if h s) (remove_if k) r e in
      then-Replaced s a r (remove_if-Replaced h s a e1) (remove_if-Replaced k a r e2)

  no_gw : (s r : Gw t) → ◌≡◌ {A = Option (Gw t)} none (some r) → Replaced s r
  no_gw s r e = cc

  module _ (s r : Gw t) (h p ebi : ℕ) where
    pub remove_uplink-Replaced : remove_uplink s h p ebi ≡ some r → Replaced s r
    unfolding remove_uplink
    remove_uplink-Replaced e =
        let b = bearer s p ebi in
        if-Replaced (h == 0) s r none _ (no_gw s r)
          (if-Replaced b.is_valid s r _ (some s) (both-Replaced s r b.h_sgw_uplink b.h_pgw_uplink)
            (unchanged s r))
          e

    pub remove_downlink-Replaced : remove_downlink s h p ebi ≡ some r → Replaced s r
    unfolding remove_downlink
    remove_downlink-Replaced e =
        let b = bearer s p ebi in
        if-Replaced (h == 0) s r none _ (no_gw s r)
          (if-Replaced b.is_valid s r _ (some s)
            (both-Replaced s r b.h_sgw_downlink b.h_pgw_downlink) (unchanged s r))
          e
