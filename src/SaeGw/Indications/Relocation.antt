-- ===== src/SaeGw/Indications/Relocation.antt =====
-- nw-sae-gw/NwSaeGwUlp.c with NwSaeGwUeFsm.c: the answer of a PGW to an SGW that a UE has moved to.
use linkerepc.Prelude.{
  ℕ, ◌≡◌, ◌≢◌, ◌≤◌, sym, ap, ◌∙◌, subst, true, false, none, some, set-same, eqb-true, eqb-false,
}
use linkerepc.Trees.{TreeOps, IsMap}
use linkerepc.UeFsm.Dispatch.{run-missing}
use linkerepc.SaeGw.{Gw, Ue, Ulp, Environment, ◌>>=◌, set_state, state_end, Interface, sgw_s5}
use linkerepc.SaeGw.Sessions.{left_sgw, destroy_ue_session, ue_delete}
use linkerepc.SaeGw.Sessions.Deletion.{
  OnlyDeletions, ue_delete-same, ue_delete-plane, ue_delete-OnlyDeletions, destroy_ue_session-sgw,
}
use linkerepc.SaeGw.Pgw.{Indication}
use linkerepc.SaeGw.Indications.{
  ue_states, machine_out, run_ue, purge, event_of, type_of, triggered_rsp_ind, stack_indication,
}

module _ {t : TreeOps} where
  run_ue-missing :
      (s : Gw t) (env : Environment) (p event : ℕ) (ind : Indication)
      → 8 ≤ (s.ue p).state
      → run_ue s env p event ind ≡ some (state_end, set_state p state_end s)
  unfolding run_ue
  run_ue-missing s env p event ind l = ap machine_out (
      run-missing ue_states (record { state = (s.ue p).state; rest = some (p, s) })
        (record { event = event; info = (env, ind) }) l)

  stack_indication-missing :
      (i : Interface) (s : Gw t) (env : Environment) (h p msg_type : ℕ) (ind : Indication)
      → (s.ulp h).sae_gw_type ≡ type_of i
      → p ≢ 0
      → 8 ≤ (s.ue p).state
      → stack_indication i s env h msg_type ind (triggered_rsp_ind p)
        ≡ destroy_ue_session (set_state p state_end s) p
  unfolding stack_indication
  stack_indication-missing i s env h p msg_type ind e d l =
      rw (eqb-true (s.ulp h).sae_gw_type (type_of i) e, eqb-false p 0 d)
        (ap (λ o. o >>= purge p) (run_ue-missing s env p (event_of i msg_type) ind l))

  module _ (law : IsMap t) (s : Gw t) (p : ℕ) where
    abbrev ending : Gw t
    ending = set_state p state_end s

    abbrev left : Gw t
    left = left_sgw ending (ending.ue p).h_sgw p

    ended-sgw :
        (s.ue p).is_sgw ≡ true
        → (s.ue p).is_pgw ≡ false
        → (s.ue p).h_sgw ≢ 0
        → destroy_ue_session ending p ≡ some (ue_delete left p)
    ended-sgw g f d =
        let own = λ (h : (s.ue p).h_sgw ≢ 0) (e : (ending.ue p).h_sgw ≡ 0).
          h (sym (ap (λ (z : Ue). z.h_sgw) (set-same s.ue p _)) ∙ e) in
        destroy_ue_session-sgw ending p (ap (λ (z : Ue). z.is_pgw) (set-same s.ue p _) ∙ f)
          (ap (λ (z : Ue). z.is_sgw) (set-same s.ue p _) ∙ g) (own d)

    gone-left : t.find (left.ulp (ending.ue p).h_sgw).ue_sgw_session (ending.ue p).sgw_node ≡ none
    gone-left =
        subst (λ (z : Ulp t). t.find z.ue_sgw_session (ending.ue p).sgw_node ≡ none)
          (sym (set-same s.ulp (ending.ue p).h_sgw _))
          (law.gone (s.ulp (ending.ue p).h_sgw).ue_sgw_session (ending.ue p).sgw_node)

    gone-deleted :
        t.find ((ue_delete left p).ulp (s.ue p).h_sgw).ue_sgw_session (s.ue p).sgw_node ≡ none
    gone-deleted =
        let own = set-same s.ue p (record (s.ue p) { state = state_end }) in
        subst (λ (z : Ue). t.find ((ue_delete left p).ulp z.h_sgw).ue_sgw_session z.sgw_node ≡ none)
          own
          (subst
            (λ (u : ℕ → Ulp t).
              t.find (u (ending.ue p).h_sgw).ue_sgw_session (ending.ue p).sgw_node ≡ none)
            (sym (ue_delete-same left p).0) gone-left)

  -- When a UE has moved to an SGW without a collocated PGW, it is in one of two states that wait for the
  -- PGW to answer. Whatever response of the PGW comes, also the one that accepts the move, the UE is
  -- deleted: its session leaves the tree of the SGW, nothing but deletions of tunnels is asked of the
  -- stacks, so that the MME gets no answer, and the flows of the UE stay in the data plane.
  pub relocation_never_completes :
      (law : IsMap t) (s : Gw t) (env : Environment) (h p msg_type : ℕ) (ind : Indication)
      → (s.ulp h).sae_gw_type ≡ 1
      → p ≢ 0
      → 8 ≤ (s.ue p).state
      → (s.ue p).is_sgw ≡ true
      → (s.ue p).is_pgw ≡ false
      → (s.ue p).h_sgw ≢ 0
      → (r : Gw t) × (stack_indication sgw_s5 s env h msg_type ind (triggered_rsp_ind p) ≡ some r)
        × (t.find (r.ulp (s.ue p).h_sgw).ue_sgw_session (s.ue p).sgw_node ≡ none)
        × OnlyDeletions s.sent r.sent
        × (r.sdp ≡ s.sdp)
  relocation_never_completes law s env h p msg_type ind e d l g f k = (
    ue_delete (left law s p) p,
    stack_indication-missing sgw_s5 s env h p msg_type ind e d l ∙ ended-sgw law s p g f k,
    gone-deleted law s p,
    ue_delete-OnlyDeletions (left law s p) p,
    ue_delete-plane (left law s p) p,
  )
