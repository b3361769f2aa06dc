-- ===== src/SaeGw/Flows.antt =====
-- nw-sae-gw/NwSaeGwDpe.c: the flows that the gateway makes in the data plane. `none` is a failed assertion.
use linkerepc.Prelude.{ℕ, Option, none, some, ◌==◌, if◌then◌else◌}
use linkerepc.Trees.{TreeOps}
use linkerepc.Sdp as Plane
use linkerepc.Sdp.{Sdp, EndPoint, gtpu, ipv4, create_flow, destroy_flow}
use linkerepc.SaeGw.{Gw, ◌>>=◌}

module _ {t : TreeOps} where
  abbrev with_flow : Gw t → Option (ℕ × Sdp t) → Option (ℕ × Gw t)
  with_flow s o = o >>= λ (h, d). some (h, record s { sdp = d })

  -- `nwSaeGwDpeCreateGtpuIpv4Flow`: the flow. The TEID and the address that it writes back are those that
  -- it was called with and `gtpuIf.ipAddr`. The egress end point has a type and nothing else.
  unfoldable pub create_gtpu_ipv4_flow : Gw t → Plane.Environment → EndPoint → ℕ → Option (ℕ × Gw t)
  create_gtpu_ipv4_flow s env unset teid = with_flow s (
      create_flow s.sdp env
        (record unset { ipv4_addr = s.gtpu_addr; flow_type = gtpu; flow_key = teid })
        (record unset { flow_type = ipv4 }))

  -- `nwSaeGwDpeCreateIpv4GtpuFlow`
  unfoldable pub create_ipv4_gtpu_flow :
      Gw t → Plane.Environment → EndPoint → ℕ → ℕ → ℕ → Option (ℕ × Gw t)
  create_ipv4_gtpu_flow s env unset teid_egress ipv4_egress ipv4_ingress = with_flow s (
      create_flow s.sdp env (record unset { flow_type = ipv4; flow_key = ipv4_ingress })
        (record unset { ipv4_addr = ipv4_egress; flow_type = gtpu; flow_key = teid_egress }))

  -- `nwSaeGwDpeCreateGtpuGtpuFlow`
  unfoldable pub create_gtpu_gtpu_flow :
      Gw t → Plane.Environment → EndPoint → ℕ → ℕ → ℕ → Option (ℕ × Gw t)
  create_gtpu_gtpu_flow s env unset teid_ingress teid_egress ipv4_egress =
      if teid_egress == 0
      then none
      else with_flow s (
          create_flow s.sdp env
            (record unset { ipv4_addr = s.gtpu_addr; flow_type = gtpu; flow_key = teid_ingress })
            (record unset { ipv4_addr = ipv4_egress; flow_type = gtpu; flow_key = teid_egress }))

  -- `nwSaeGwDpeDestroyFlow`
  unfoldable pub remove_flow : Gw t → ℕ → Option (Gw t)
  remove_flow s h = destroy_flow s.sdp h >>= λ d. some (record s { sdp = d })
