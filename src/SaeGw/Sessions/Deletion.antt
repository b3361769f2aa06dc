-- ===== src/SaeGw/Sessions/Deletion.antt =====
-- nw-sae-gw/NwSaeGwUlp.c and NwSaeGwUe.c: deleting a UE that is in no tree of a PGW.
use linkerepc.Prelude.{
  ℕ, ◌≡◌, ◌≢◌, refl, ap, ◌∙◌, Bool, true, false, List, [], ◌∷◌, ◌++◌, some, ◌==◌, eqb-false, All,
  Bool-cases, inl, inr,
}
use linkerepc.Trees.{TreeOps}
use linkerepc.SaeGw.{
  Gw, Request, triggered_rsp, initial_req, delete_local_tunnel, Interface, sgw_s11, sgw_s5, pgw_s5,
}
use linkerepc.SaeGw.Sessions.{deregister_sgw, left_sgw, destroy_ue_session, ue_delete, drop_tunnel}

-- Whether a request only deletes a tunnel.
abbrev pub is_deletion : Request → Bool
is_deletion (triggered_rsp i trxn tunnel p m) = false
is_deletion (initial_req i h trxn peer tunnel p m) = false
is_deletion (delete_local_tunnel i h) = true

-- The later list has deletions of tunnels in front of the earlier one.
abbrev pub OnlyDeletions : List Request → List Request → Type 0
OnlyDeletions old new =
    (front : List Request) × (new ≡ front ++ old) × All (λ q. is_deletion q ≡ true) front

module _ {t : TreeOps} where
  pub deregister_sgw-left :
      (s : Gw t) (h p : ℕ) → h ≢ 0 → deregister_sgw s h p ≡ some (left_sgw s h p)
  unfolding deregister_sgw
  deregister_sgw-left s h p d = simp (eqb-false h 0 d)

  pub destroy_ue_session-left :
      (s : Gw t) (p : ℕ)
      → (s.ue p).is_pgw ≡ false
      → (s.ue p).is_sgw ≡ false
      → destroy_ue_session s p ≡ some (ue_delete s p)
  unfolding destroy_ue_session
  destroy_ue_session-left s p f g = simp (f, g)

  drop_tunnel-same :
      (i : Interface) (h : ℕ) (s : Gw t)
      → ((drop_tunnel i h s).ulp ≡ s.ulp) × ((drop_tunnel i h s).ue ≡ s.ue)
  drop_tunnel-same i h s = elim (Bool-cases (h == 0)) [
    | inl e ↦ rw e (refl, refl)
    | inr e ↦ rw e (refl, refl)
  ]

  pub ue_delete-same :
      (s : Gw t) (p : ℕ) → ((ue_delete s p).ulp ≡ s.ulp) × ((ue_delete s p).ue ≡ s.ue)
  unfolding ue_delete
  ue_delete-same s p =
      let x = s.ue p in
      let s1 = drop_tunnel sgw_s11 x.h_s11c_sgw_tunnel s in
      let s2 = drop_tunnel sgw_s5 x.h_s5s8c_sgw_tunnel s1 in
      let (a1, b1) = drop_tunnel-same sgw_s11 x.h_s11c_sgw_tunnel s in
      let (a2, b2) = drop_tunnel-same sgw_s5 x.h_s5s8c_sgw_tunnel s1 in
      let (a3, b3) = drop_tunnel-same pgw_s5 x.h_s5s8c_pgw_tunnel s2 in (a3 ∙ a2 ∙ a1, b3 ∙ b2 ∙ b1)

  module _ (i : Interface) (h : ℕ) (s : Gw t) where
    drop_tunnel-plane : (drop_tunnel i h s).sdp ≡ s.sdp
    drop_tunnel-plane = elim (Bool-cases (h == 0)) [ inl e ↦ rw e refl | inr e ↦ rw e refl ]

    drop_tunnel-OnlyDeletions :
        (old : List Request) → OnlyDeletions old s.sent → OnlyDeletions old (drop_tunnel i h s).sent
    drop_tunnel-OnlyDeletions old (front, e, all) = elim (Bool-cases (h == 0)) [
      | inl z ↦ rw z (front, e, all)
      | inr z ↦
          rw z
            (delete_local_tunnel i h ∷ front, ap (λ q. delete_local_tunnel i h ∷ q) e, (refl, all))
    ]

  pub ue_delete-plane : (s : Gw t) (p : ℕ) → (ue_delete s p).sdp ≡ s.sdp
  unfolding ue_delete
  ue_delete-plane s p =
      let x = s.ue p in
      let s1 = drop_tunnel sgw_s11 x.h_s11c_sgw_tunnel s in
      let s2 = drop_tunnel sgw_s5 x.h_s5s8c_sgw_tunnel s1 in
      drop_tunnel-plane pgw_s5 x.h_s5s8c_pgw_tunnel s2
      ∙ drop_tunnel-plane sgw_s5 x.h_s5s8c_sgw_tunnel s1
      ∙ drop_tunnel-plane sgw_s11 x.h_s11c_sgw_tunnel s

  pub ue_delete-OnlyDeletions : (s : Gw t) (p : ℕ) → OnlyDeletions s.sent (ue_delete s p).sent
  unfolding ue_delete
  ue_delete-OnlyDeletions s p =
      let x = s.ue p in
      let s1 = drop_tunnel sgw_s11 x.h_s11c_sgw_tunnel s in
      let s2 = drop_tunnel sgw_s5 x.h_s5s8c_sgw_tunnel s1 in
      drop_tunnel-OnlyDeletions pgw_s5 x.h_s5s8c_pgw_tunnel s2 s.sent (
        drop_tunnel-OnlyDeletions sgw_s5 x.h_s5s8c_sgw_tunnel s1 s.sent
          (drop_tunnel-OnlyDeletions sgw_s11 x.h_s11c_sgw_tunnel s s.sent ([], refl, tt)))

  pub destroy_ue_session-sgw :
      (s : Gw t) (p : ℕ)
      → (s.ue p).is_pgw ≡ false
      → (s.ue p).is_sgw ≡ true
      → (s.ue p).h_sgw ≢ 0
      → destroy_ue_session s p ≡ some (ue_delete (left_sgw s (s.ue p).h_sgw p) p)
  unfolding destroy_ue_session
  destroy_ue_session-sgw s p f g d = simp (f, g, deregister_sgw-left s (s.ue p).h_sgw p d)
