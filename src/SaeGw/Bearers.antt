-- ===== src/SaeGw/Bearers.antt =====
-- nw-sae-gw/NwSaeGwUlp.c: the flows of a bearer. `ebi` is inside `epsBearer`; `none` is a failed assertion.
pub mod Removal
use linkerepc.Prelude.{ℕ, Bool, true, false, Option, none, some, ◌==◌, if◌then◌else◌}
use linkerepc.Trees.{TreeOps}
use linkerepc.SaeGw.{Gw, Ue, Bearer, Fteid, Environment, ◌>>=◌, set_ue, set_bearer}
use linkerepc.SaeGw.Flows.{
  create_gtpu_ipv4_flow, create_ipv4_gtpu_flow, create_gtpu_gtpu_flow, remove_flow,
}

-- The session types `NW_SAE_GW_UE_SESSION_TYPE_SAE`, `..._SGW` and `..._PGW`; `idle` is 0.
pub data SessionType : Type 0 where
  sae sgw pgw idle : SessionType

abbrev pub flags_type : Bool → Bool → SessionType
flags_type true true = sae
flags_type true false = sgw
flags_type false true = pgw
flags_type false false = idle

abbrev pub session_type : Ue → SessionType
session_type x = flags_type x.is_sgw x.is_pgw

-- A key and the address of the data plane, as the creation of a flow writes them back.
abbrev pub keyed : Fteid → ℕ → ℕ → Fteid
keyed f teid addr = record f { teid_or_gre_key = teid; ipv4_addr = addr }

module _ {t : TreeOps} where
  abbrev pub bearer : Gw t → ℕ → ℕ → Bearer
  bearer s p ebi = (s.ue p).eps_bearer ebi

  -- `nwSaeGwUlpAllocateTeidOrGreKeys`
  unfoldable pub allocate_keys : Gw t → Environment → ℕ → ℕ → ℕ → Option (Gw t)
  allocate_keys s env h p ebi =
      let b = bearer s p ebi in
      let type = (s.ulp h).sae_gw_type in
      if type == 1
      then some (
          set_bearer p ebi
            (record b {
              s1u_sgw = keyed b.s1u_sgw (env.s1u_sgw_at p ebi) s.gtpu_addr;
              s5s8u_sgw = keyed b.s5s8u_sgw (env.s5s8u_sgw_at p ebi) s.gtpu_addr;
            })
            s)
      else if type == 2
      then some (
          set_bearer p ebi
            (record b { s5s8u_pgw = keyed b.s5s8u_pgw (env.s5s8u_pgw_at p ebi) s.gtpu_addr }) s)
      else none

  -- `nwSaeGwUlpInstallUplinkEpsBearer`
  abbrev sgw_uplink : ℕ → ℕ → ℕ → ℕ × Gw t → Gw t
  sgw_uplink p ebi teid (h, s) =
      let b = bearer s p ebi in
      set_bearer p ebi (record b { s1u_sgw = keyed b.s1u_sgw teid s.gtpu_addr; h_sgw_uplink = h }) s

  abbrev pub pgw_uplink : ℕ → ℕ → ℕ → ℕ × Gw t → Gw t
  pgw_uplink p ebi teid (h, s) =
      let b = bearer s p ebi in
      set_bearer p ebi
        (record b { s5s8u_pgw = keyed b.s5s8u_pgw teid s.gtpu_addr; h_pgw_uplink = h }) s

  abbrev pub install_pgw_uplink : Gw t → Environment → ℕ → ℕ → ℕ → Option (Gw t)
  install_pgw_uplink s env i p ebi =
      create_gtpu_ipv4_flow s (env.plane i) env.unset_end_point (env.s5s8u_pgw_at p ebi) >>= λ r.
      some (pgw_uplink p ebi (env.s5s8u_pgw_at p ebi) r)

  unfoldable pub install_uplink : Gw t → Environment → ℕ → ℕ → ℕ → Option (Gw t)
  install_uplink s env h p ebi =
      let b = bearer s p ebi in
      if h == 0 then none else elim (session_type (s.ue p)) [
        | sae ↦
            create_gtpu_ipv4_flow s (env.plane 0) env.unset_end_point (env.s1u_sgw_at p ebi)
            >>= λ r. install_pgw_uplink (sgw_uplink p ebi (env.s1u_sgw_at p ebi) r) env 1 p ebi
        | sgw ↦
            create_gtpu_gtpu_flow s (env.plane 0) env.unset_end_point (env.s1u_sgw_at p ebi)
              b.s5s8u_pgw.teid_or_gre_key b.s5s8u_pgw.ipv4_addr
            >>= λ r. some (sgw_uplink p ebi (env.s1u_sgw_at p ebi) r)
        | pgw ↦ install_pgw_uplink s env 0 p ebi
        | idle ↦ none
      ]

  -- A flow of a bearer is removed, if there is one; its handle stays.
  abbrev pub remove_if : ℕ → Gw t → Option (Gw t)
  remove_if h s = if h == 0 then some s else remove_flow s h

  -- `nwSaeGwUlpRemoveUplinkEpsBearer` and `nwSaeGwUlpRemoveDownlinkEpsBearer`
  unfoldable pub remove_uplink : Gw t → ℕ → ℕ → ℕ → Option (Gw t)
  remove_uplink s h p ebi =
      let b = bearer s p ebi in
      if h == 0
      then none
      else if b.is_valid
      then remove_if b.h_sgw_uplink s >>= remove_if b.h_pgw_uplink
      else some s

  unfoldable pub remove_downlink : Gw t → ℕ → ℕ → ℕ → Option (Gw t)
  remove_downlink s h p ebi =
      let b = bearer s p ebi in
      if h == 0
      then none
      else if b.is_valid
      then remove_if b.h_sgw_downlink s >>= remove_if b.h_pgw_downlink
      else some s

  -- `nwSaeGwUlpInstallDownlinkEpsBearer`. In the PGW the flow that must not be there yet is the SGW's.
  abbrev sgw_downlink : ℕ → ℕ → ℕ × Gw t → Gw t
  sgw_downlink p ebi (h, s) = set_bearer p ebi (record (bearer s p ebi) { h_sgw_downlink = h }) s

  abbrev sgw_relay : ℕ → ℕ → ℕ → ℕ × Gw t → Gw t
  sgw_relay p ebi teid (h, s) =
      let b = bearer s p ebi in
      set_bearer p ebi
        (record b { s5s8u_sgw = keyed b.s5s8u_sgw teid s.gtpu_addr; h_sgw_downlink = h }) s

  abbrev pub pgw_downlink : ℕ → ℕ → ℕ × Gw t → Gw t
  pgw_downlink p ebi (h, s) = set_bearer p ebi (record (bearer s p ebi) { h_pgw_downlink = h }) s

  abbrev pub make_downlink : Gw t → Environment → ℕ → ℕ → Option (Gw t)
  make_downlink s env p ebi =
      let b = bearer s p ebi in
      let addr = (s.ue p).paa.ipv4_addr in
      elim (session_type (s.ue p)) [
        | sae ↦
            create_ipv4_gtpu_flow s (env.plane 2) env.unset_end_point b.s1u_enodeb.teid_or_gre_key
              b.s1u_enodeb.ipv4_addr addr
            >>= λ r. some (sgw_downlink p ebi r)
        | sgw ↦
            create_gtpu_gtpu_flow s (env.plane 2) env.unset_end_point (env.s5s8u_sgw_at p ebi)
              b.s1u_enodeb.teid_or_gre_key b.s1u_enodeb.ipv4_addr
            >>= λ r. some (sgw_relay p ebi (env.s5s8u_sgw_at p ebi) r)
        | pgw ↦
            create_ipv4_gtpu_flow s (env.plane 2) env.unset_end_point b.s5s8u_sgw.teid_or_gre_key
              b.s5s8u_sgw.ipv4_addr addr
            >>= λ r. some (pgw_downlink p ebi r)
        | idle ↦ none
      ]

  unfoldable pub install_downlink : Gw t → Environment → ℕ → ℕ → Option (Gw t)
  install_downlink s env p ebi =
      let made = make_downlink s env p ebi in
      if (bearer s p ebi).h_sgw_downlink == 0 then made else none

  -- `nwSaeGwUlpModifyDownlinkEpsBearer`
  abbrev old_downlink : Gw t → ℕ → ℕ → ℕ
  old_downlink s p ebi = elim (session_type (s.ue p)) [
    | sae ↦ (bearer s p ebi).h_sgw_downlink
    | sgw ↦ (bearer s p ebi).h_sgw_downlink
    | pgw ↦ (bearer s p ebi).h_pgw_downlink
    | idle ↦ 0
  ]

  unfoldable pub modify_downlink : Gw t → Environment → ℕ → ℕ → Option (Gw t)
  modify_downlink s env p ebi =
      remove_if (old_downlink s p ebi) s >>= λ r. make_downlink r env p ebi
