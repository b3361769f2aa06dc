-- ===== src/SaeGw/Sessions.antt =====
-- nw-sae-gw/NwSaeGwUlp.c and NwSaeGwUe.c: UE sessions, their registration by IMSI and their addresses.
pub mod Leases
pub mod Registry
pub mod Departure
pub mod Deletion
use linkerepc.Prelude.{
  ℕ, Bool, true, false, Option, none, some, List, [], ◌∷◌, ◌++◌, ◌==◌, if◌then◌else◌, set,
}
use linkerepc.Trees.{TreeOps}
use linkerepc.IpPool.{IpPool, Alloc, granted, exhausted, out_of_fuel, alloc, free}
use linkerepc.SaeGw.{
  Gw, Ue, Ulp, Bearer, Fteid, Environment, ◌>>=◌, set_ue, set_ulp, request, Interface, sgw_s11,
  sgw_s5, pgw_s5, delete_local_tunnel, imsi_key, state_init,
}

-- `nwSaeGwUeNew` with the memory set to 0: the UE of an SGW or of a PGW.
abbrev pub no_fteid : Fteid
no_fteid = record {
  is_valid = false;
  is_ipv4 = false;
  is_ipv6 = false;
  if_type = 0;
  teid_or_gre_key = 0;
  ipv4_addr = 0;
  ipv6_addr = λ _. 0;
}

abbrev pub no_bearer : Bearer
no_bearer = record {
  is_valid = false;
  h_sgw_uplink = 0;
  h_sgw_downlink = 0;
  h_pgw_uplink = 0;
  h_pgw_downlink = 0;
  s1u_enodeb = no_fteid;
  s1u_sgw = no_fteid;
  s5s8u_pgw = no_fteid;
  s5s8u_sgw = no_fteid;
}

abbrev pub new_ue : ℕ → ℕ → Ue
new_ue h_sgw h_pgw = record {
  imsi = λ _. 0;
  ms_isdn = λ _. 0;
  mei = λ _. 0;
  serving_network = λ _. 0;
  rat_type = 0;
  sel_mode = 0;
  pdn_type = 0;
  apn = λ _. 0;
  apn_length = 0;
  apn_res = 0;
  paa = record { pdn_type = 0; ipv4_addr = 0 };
  is_sgw = false;
  is_pgw = false;
  h_sgw = h_sgw;
  h_pgw = h_pgw;
  state = state_init;
  s11c_mme = no_fteid;
  s11c_sgw = no_fteid;
  h_s11c_sgw_tunnel = 0;
  s5s8c_pgw = no_fteid;
  s5s8c_sgw = no_fteid;
  h_s5s8c_sgw_tunnel = 0;
  h_s5s8c_pgw_tunnel = 0;
  eps_bearer = λ _. no_bearer;
  sgw_node = imsi_key (λ _. 0);
  pgw_node = imsi_key (λ _. 0);
}

-- `TAILQ_REMOVE`
abbrev pub without : ℕ → List ℕ → List ℕ
without h [] = []
without h (k ∷ ks) = if k == h then ks else k ∷ without h ks

module _ {t : TreeOps} where
  -- `nwSaeGwUlpRegisterCollocatedPgw` and `nwSaeGwUlpDeregisterCollocatedPgw` of an entity that is in the list.
  unfoldable pub register_collocated_pgw : Gw t → ℕ → ℕ → Gw t
  register_collocated_pgw s h h_pgw =
      set_ulp h (record (s.ulp h) { collocated_pgws = (s.ulp h).collocated_pgws ++ (h_pgw ∷ []) }) s

  unfoldable pub deregister_collocated_pgw : Gw t → ℕ → ℕ → Gw t
  deregister_collocated_pgw s h h_pgw =
      set_ulp h (record (s.ulp h) { collocated_pgws = without h_pgw (s.ulp h).collocated_pgws }) s

  -- `nwSaeGwUlpRegisterSgwUeSession`: whether it succeeds, and the collocated PGW with the address, 0 if there
  -- is none.
  unfoldable pub find_pgw : Gw t → ℕ → List ℕ → ℕ
  find_pgw s addr [] = 0
  find_pgw s addr (h ∷ hs) =
      let rest = find_pgw s addr hs in if (s.ulp h).pgw_s5c_addr == addr then h else rest

  abbrev enter_sgw : Gw t → ℕ → ℕ → ℕ → Option ℕ → Bool × ℕ × Gw t
  enter_sgw s h p pgw_addr (some c) = (false, 0, s)
  enter_sgw s h p pgw_addr none =
      let u = s.ulp h in
      let x = s.ue p in
      let r =
        set_ulp h (record u { ue_sgw_session = t.insert u.ue_sgw_session (imsi_key x.imsi) p }) s in
      (
        true,
        find_pgw s pgw_addr u.collocated_pgws,
        set_ue p
            (record x {
              s11c_sgw = record x.s11c_sgw { ipv4_addr = u.s11c_addr };
              s5s8c_sgw = record x.s5s8c_sgw { ipv4_addr = u.sgw_s5c_addr };
              is_sgw = true;
              sgw_node = imsi_key x.imsi;
            })
            r,
      )

  unfoldable pub register_sgw : Gw t → ℕ → ℕ → ℕ → Bool × ℕ × Gw t
  register_sgw s h p pgw_addr =
      enter_sgw s h p pgw_addr (t.find (s.ulp h).ue_sgw_session (imsi_key (s.ue p).imsi))

  -- `nwSaeGwUlpRegisterPgwUeSession`: whether it succeeds. Without an address the UE stays registered, and
  -- has the address 0.
  abbrev pub registered_pgw : Gw t → ℕ → ℕ → Ulp t
  registered_pgw s h p = record (s.ulp h) {
    ue_pgw_session = t.insert (s.ulp h).ue_pgw_session (imsi_key (s.ue p).imsi) p;
  }

  abbrev pub of_pgw : Gw t → ℕ → Ue → ℕ → Ue
  of_pgw s h x addr = record x {
    paa = record { pdn_type = 1; ipv4_addr = addr };
    s5s8c_pgw = record x.s5s8c_pgw { ipv4_addr = (s.ulp h).pgw_s5c_addr };
    is_pgw = true;
    pgw_node = imsi_key x.imsi;
  }

  abbrev pub with_address : Gw t → ℕ → ℕ → Alloc → Option (Bool × Gw t)
  with_address s h p (granted addr q) = some (
    true,
    set_ue p (of_pgw s h (s.ue p) addr) (set_ulp h (record (registered_pgw s h p) { pool = q }) s),
  )
  with_address s h p (exhausted q) = some (
    false,
    set_ue p (of_pgw s h (s.ue p) 0) (set_ulp h (record (registered_pgw s h p) { pool = q }) s),
  )
  with_address s h p out_of_fuel = none

  abbrev pub enter_pgw : Gw t → ℕ → ℕ → Option ℕ → Option (Bool × Gw t)
  enter_pgw s h p (some c) = some (false, s)
  enter_pgw s h p none = with_address s h p (alloc (s.ulp h).pool)

  unfoldable pub register_pgw : Gw t → ℕ → ℕ → Option (Bool × Gw t)
  register_pgw s h p = enter_pgw s h p (t.find (s.ulp h).ue_pgw_session (imsi_key (s.ue p).imsi))

  -- `nwSaeGwUlpSgwDeregisterUeSession` and `nwSaeGwUlpPgwDeregisterUeSession` of a UE that is registered;
  -- `none` is an access through NULL.
  abbrev pub left_sgw : Gw t → ℕ → ℕ → Gw t
  left_sgw s h p =
      let u = s.ulp h in
      let x = s.ue p in
      set_ue p (record x { is_sgw = false })
        (set_ulp h (record u { ue_sgw_session = t.remove u.ue_sgw_session x.sgw_node }) s)

  unfoldable pub deregister_sgw : Gw t → ℕ → ℕ → Option (Gw t)
  deregister_sgw s h p = if h == 0 then none else some (left_sgw s h p)

  abbrev pub left_pgw : Gw t → ℕ → ℕ → IpPool → Gw t
  left_pgw s h p q =
      let u = s.ulp h in
      let x = s.ue p in
      set_ue p (record x { is_pgw = false })
        (set_ulp h (record u { ue_pgw_session = t.remove u.ue_pgw_session x.pgw_node; pool = q }) s)

  unfoldable pub deregister_pgw : Gw t → ℕ → ℕ → Option (Gw t)
  deregister_pgw s h p =
      if h == 0
      then none
      else free (s.ulp h).pool (s.ue p).paa.ipv4_addr >>= λ q. some (left_pgw s h p q)

  -- `nwSaeGwUlpCreateUeSession`: the UE, 0 for an entity of neither type.
  unfoldable pub create_ue_session : Gw t → Environment → ℕ → ℕ × Gw t
  create_ue_session s env h =
      let type = (s.ulp h).sae_gw_type in
      if type == 1
      then (env.new_ue, set_ue env.new_ue (new_ue h 0) s)
      else if type == 2
      then (env.new_ue, set_ue env.new_ue (new_ue 0 h) s)
      else (0, s)

  -- `nwSaeGwUeDelete`
  abbrev pub drop_tunnel : Interface → ℕ → Gw t → Gw t
  drop_tunnel i h s = if h == 0 then s else request (delete_local_tunnel i h) s

  unfoldable pub ue_delete : Gw t → ℕ → Gw t
  ue_delete s p =
      let x = s.ue p in
      drop_tunnel pgw_s5 x.h_s5s8c_pgw_tunnel
        (drop_tunnel sgw_s5 x.h_s5s8c_sgw_tunnel (drop_tunnel sgw_s11 x.h_s11c_sgw_tunnel s))

  -- `nwSaeGwUlpDestroyUeSession`
  unfoldable pub destroy_ue_session : Gw t → ℕ → Option (Gw t)
  destroy_ue_session s p =
      let first = if (s.ue p).is_pgw then deregister_pgw s (s.ue p).h_pgw p else some s in
      first >>= λ r.
      let second = if (r.ue p).is_sgw then deregister_sgw r (r.ue p).h_sgw p else some r in
      second >>= λ r2. some (ue_delete r2 p)
