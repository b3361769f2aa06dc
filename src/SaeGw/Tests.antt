-- ===== src/SaeGw/Tests.antt =====
-- A PGW that hands out and takes back the address 11, one with no address left, and requests that lack their IEs.
pub mod Data
mod Remote
use linkerepc.Prelude.{
  ℕ, ◌≡◌, refl, arith, true, false, none, some, Option, [], ◌∷◌, ◌==◌, if◌then◌else◌, inl, inr, sym,
  ◌∙◌, ◌+◌, htonl,
}
use linkerepc.Trees.{Key, trees, trees-IsMap, Key-cases}
use linkerepc.Gtpv1u.Msg as User
use linkerepc.Gtpv1u.Stack as Gtpu
use linkerepc.Gtpv1u.Stack.{ok, Trxn}
use linkerepc.Ipv4
use linkerepc.Sdp.{Sdp, EndPoint, ipv4}
use linkerepc.Gtpv2c.Msg.{Msg, init}
use linkerepc.Gtpv2c.Msg.Encode.{
  add_ie_fteid, add_ie_tv1, add_ie_cause, grouped_ie_start, grouped_ie_end,
}
use linkerepc.Gtpv2c.Msg.Decode.{get_ie_tlv, get_ie_tv2, missing}
use linkerepc.IpPool.{IpPool, alloc, alloc_loop, exhausted, is_usable}
use linkerepc.IpPool.Ledger.{Ledger}
use linkerepc.SaeGw.{
  Gw, Ue, Ulp, Environment, imsi_key, triggered_rsp, pgw_s5, sgw_s11, sgw_s5, state_end,
  pgw_session_created,
}
use linkerepc.SaeGw.Sessions.{
  new_ue, no_fteid, no_bearer, register_pgw, deregister_pgw, destroy_ue_session,
}
use linkerepc.SaeGw.Sessions.Registry.{Sessions, Registered, register_pgw-Registered}
use linkerepc.SaeGw.Sessions.Departure.{HasLeft, deregister_pgw-HasLeft}
use linkerepc.SaeGw.Parse.{
  ie_missing, Reading, Decoding, decode_loop, removed_loop, modify_loop,
  pgw_parse_create_session_request,
}
use linkerepc.SaeGw.Remote.{created_loop}
use linkerepc.SaeGw.Parse.Rounds.{Ends, bearer_context-Ends}
use linkerepc.SaeGw.Send.{only_cause, put_cause}
use linkerepc.SaeGw.Pgw.{
  Indication, reading, handle_pgw_s5_create_session_request, handle_pgw_s5_delete_session_request,
}
use linkerepc.SaeGw.Pgw.Unparsed.{acceptance, create_session_request_unreadable}
use linkerepc.SaeGw.Pgw.Delete.{Over, delete_session}
use linkerepc.SaeGw.Bearers.{remove_uplink, remove_downlink}
use linkerepc.SaeGw.Sessions.Deletion.{OnlyDeletions}
use linkerepc.SaeGw.Indications.{triggered_rsp_ind, stack_indication}
use linkerepc.SaeGw.Indications.Relocation.{relocation_never_completes}
use linkerepc.SaeGw.Remote.{flows_removed, handle_delete_of_established}
use linkerepc.SaeGw.Remote.Remains.{session_remains}
use linkerepc.SaeGw.Sae.{sgw_registered}
use linkerepc.SaeGw.Sae.Exhausted.{sgw_registered_exhausted}
use linkerepc.SaeGw.Tests.Data.{
  user_message, no_trxn, gtpu_stack, ipv4_stack, user, plane, pool, ue_9, ue_9_in, ulp, gateway,
  before, session, during, blank, env, ind, at_sgw,
}

free-Ledger : Ledger (pool (some 1)) (1 ∷ []) []
free-Ledger = record {
  chain = (refl, refl);
  free_distinct = (tt, tt);
  lent_distinct = tt;
  apart = (tt, tt);
  free_inside = (omega arith, tt);
  lent_inside = tt;
  lent_usable = tt;
  room = omega arith;
  fits = omega arith;
}

lent-Ledger : Ledger (pool none) [] (1 ∷ [])
unfolding is_usable htonl
lent-Ledger = record {
  chain = refl;
  free_distinct = tt;
  lent_distinct = (tt, tt);
  apart = tt;
  free_inside = tt;
  lent_inside = (omega arith, tt);
  lent_usable = (refl, tt);
  room = omega arith;
  fits = omega arith;
}

before-Sessions : Sessions before 7 (1 ∷ []) []
before-Sessions = record {
  ledger = free-Ledger;
  node = λ k u h. cc;
  flag = λ k u h. cc;
  lease = λ k u h. cc;
  alone = λ k l u v h h2 e. cc;
}

session-only : (k : Key) (u : ℕ) → session k ≡ some u → imsi_key (λ k. k) ≡ k
session-only k u h = elim (Key-cases (imsi_key (λ k. k)) k) [
  | inl e ↦ e
  | inr d ↦
      let other = sym (trees-IsMap.kept (λ _. none) (imsi_key (λ k. k)) k 9 d) ∙ h in
      absurd (nowhere other)
]
  where
    nowhere : {a : ℕ} → ◌≡◌ {A = Option ℕ} none (some a) → ⊥
    nowhere e = cc

during-Sessions : Sessions during 7 [] (1 ∷ [])
during-Sessions = record {
  ledger = lent-Ledger;
  node = λ k u h. session-only k u h;
  flag = λ k u h. refl;
  lease = λ k u h. inr (1, inl refl, refl);
  alone = λ k l u v h h2 e. inr (sym (session-only k u h) ∙ session-only l v h2);
}

register_pgw-Registered_example : Registered before 7 9 (register_pgw before 7 9)
register_pgw-Registered_example =
    register_pgw-Registered trees-IsMap before 7 9 (1 ∷ []) [] before-Sessions (λ k e. cc)

no_downlink : remove_downlink during 7 9 5 ≡ some during
unfolding remove_downlink
no_downlink = refl

no_uplink : remove_uplink during 7 9 5 ≡ some during
unfolding remove_uplink
no_uplink = refl

delete_session_example :
    (r : Gw trees) × (r2 : Gw trees) × (m : Msg) × (handle_pgw_s5_delete_session_request during env
        9 ind
      ≡ some r)
    × (r.sent ≡ triggered_rsp pgw_s5 6 false 9 (put_cause env (only_cause env 16) m) ∷ [])
    × ((r.ue 9).state ≡ state_end)
    × (destroy_ue_session r 9 ≡ some r2)
    × Over during 7 9 [] (1 ∷ []) r2
delete_session_example =
    delete_session trees-IsMap during during during env 9 77 [] (1 ∷ []) ind blank during-Sessions
      refl (λ e. omega arith) refl refl no_downlink no_uplink refl refl

-- The request without an IMSI, and the answer to it.
abbrev read : Reading
read = record (reading before env 9) { offending = (1, 0) }

not_found : pgw_parse_create_session_request blank (reading before env 9) ≡ (ie_missing, read)
unfolding pgw_parse_create_session_request get_ie_tlv
not_found = refl

abbrev answer : Msg
answer = elim (acceptance env ue_9 9 ind.error 5 blank) [ none ↦ blank | some m ↦ m ]

answer_lem : acceptance env ue_9 9 ind.error 5 blank ≡ some answer
unfolding grouped_ie_start grouped_ie_end add_ie_fteid add_ie_tv1 add_ie_cause init
answer_lem = refl

create_session_request_unreadable_example :
    (r : Gw trees) × (handle_pgw_s5_create_session_request before env 9 ind ≡ some r)
    × (r.sent ≡ triggered_rsp pgw_s5 6 true 9 answer ∷ [])
    × ((r.ue 9).state ≡ state_end)
    × (r.ulp ≡ before.ulp)
    × (r.sdp ≡ before.sdp)
create_session_request_unreadable_example =
    create_session_request_unreadable env 9 77 blank answer before ind ie_missing read refl
      not_found (λ e. cc) (λ e. cc) (omega arith) refl refl answer_lem

-- A gateway whose PGW has no address left.
abbrev full : Gw trees
full = gateway (ulp (pool none) (λ _. none)) (record (new_ue 7 0) { imsi = λ k. k })

none_left : alloc (full.ulp 7).pool ≡ exhausted (full.ulp 7).pool
unfolding alloc alloc_loop
none_left = refl

sgw_registered_exhausted_example :
    (r : Gw trees) × (m : Msg) × (sgw_registered env 9 ind (reading full env 9) (true, 7, full)
      ≡ some r)
    × (r.sent ≡ triggered_rsp sgw_s11 6 false 9 (put_cause env (only_cause env 94) m) ∷ [])
    × ((r.ue 9).state ≡ state_end)
    × (destroy_ue_session r 9 ≡ none)
sgw_registered_exhausted_example =
    sgw_registered_exhausted full env 9 7 77 (full.ulp 7).pool ind blank (reading full env 9) refl
      none_left (λ e. omega arith) (λ e. omega arith) refl refl refl refl

-- A bearer context of nine bytes: an EBI, and an IE whose length is 0.
abbrev nothing_read : Decoding
nothing_read = record { eps_bearer = env.unset_bearer; ebi_flag = false; qos_flag = false }

abbrev context : ℕ → ℕ
context k = if k == 2 then 1 else if k == 0 then 73 else 0

bearer_context-Ends_example :
    Ends (decode_loop 10 context 9 (0 + 9) 0 nothing_read)
    × Ends (created_loop 10 context 9 (0 + 9) 0 nothing_read)
    × Ends (modify_loop 10 context 9 (0 + 9) 0 env.unset_bearer)
    × Ends (removed_loop 10 context 9 (0 + 9) 0 false 0)
bearer_context-Ends_example = bearer_context-Ends context 0 9 nothing_read env.unset_bearer false 0
