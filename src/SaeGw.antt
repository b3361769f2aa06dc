-- ===== src/SaeGw.antt =====
-- nw-sae-gw: the state of the gateway (NwSaeGwUe.h, NwSaeGwUlp.h and NwSaeGwDpe.h). UEs and entities are pointers
-- into stores, with 0 for NULL. The entities share one data plane, as NwSaeGwMain.c makes them. The two bits of
-- `sessionType` are flags. What the gateway asks of its GTPv2-C stacks is a list of requests, the last one first; a
-- stack is named by its interface. `none` is a failed assertion or an access outside of `epsBearer`.
pub mod Flows
pub mod Sessions
pub mod Bearers
pub mod Parse
pub mod Send
pub mod Pgw
pub mod Sae
pub mod Remote
pub mod Indications
mod Tests
use linkerepc.Prelude.{ℕ, ◌+◌, ◌*◌, ◌≡◌, refl, Bool, Option, none, some, List, ◌∷◌, set}
use linkerepc.Trees.{Key, TreeOps}
use linkerepc.Bytes.{Buffer}
use linkerepc.IpPool.{IpPool}
use linkerepc.Gtpv2c.Msg.{Msg}
use linkerepc.Sdp as Plane
use linkerepc.Sdp.{Sdp, EndPoint}

-- A chain of steps that may fail.
infixl 5 ◌>>=◌
abbrev pub ◌>>=◌ {ℓ κ} : {A : Type ℓ} {B : Type κ} → Option A → (A → Option B) → Option B
none >>= f = none
some a >>= f = f a

-- What a chain that succeeds went through.
pub bind-some {ℓ κ} :
    {A : Type ℓ} {B : Type κ} (o : Option A) (f : A → Option B) (b : B)
    → o >>= f ≡ some b
    → (a : A) × (o ≡ some a) × (f a ≡ some b)
bind-some none f b e = cc
bind-some (some a) f b e = (a, refl, e)

-- `NwSaeGwFteidT`
pub record Fteid : Type 0 where
  pub is_valid : Bool
  pub is_ipv4 : Bool
  pub is_ipv6 : Bool
  pub if_type : ℕ
  pub teid_or_gre_key : ℕ
  pub ipv4_addr : ℕ
  pub ipv6_addr : Buffer

-- `NwSaeGwPaaT`, with the bytes of the address as the word that they are on the host.
pub record Paa : Type 0 where
  pub pdn_type : ℕ
  pub ipv4_addr : ℕ

-- `NwSaeGwEpsBearerT`, without what is never read.
pub record EpsBearer : Type 0 where
  pub ebi : ℕ
  pub s1u_enodeb : Fteid
  pub s5s8u_pgw : Fteid
  pub s5s8u_sgw : Fteid

-- An entry of `epsBearer` in `NwSaeGwUeT`
pub record Bearer : Type 0 where
  pub is_valid : Bool
  pub h_sgw_uplink : ℕ
  pub h_sgw_downlink : ℕ
  pub h_pgw_uplink : ℕ
  pub h_pgw_downlink : ℕ
  pub s1u_enodeb : Fteid
  pub s1u_sgw : Fteid
  pub s5s8u_pgw : Fteid
  pub s5s8u_sgw : Fteid

-- `NwSaeGwUeT`, without the handles of the stacks
pub record Ue : Type 0 where
  pub imsi : Buffer
  pub ms_isdn : Buffer
  pub mei : Buffer
  pub serving_network : Buffer
  pub rat_type : ℕ
  pub sel_mode : ℕ
  pub pdn_type : ℕ
  pub apn : Buffer
  pub apn_length : ℕ
  pub apn_res : ℕ
  pub paa : Paa
  pub is_sgw : Bool
  pub is_pgw : Bool
  pub h_sgw : ℕ
  pub h_pgw : ℕ
  pub state : ℕ
  pub s11c_mme : Fteid
  pub s11c_sgw : Fteid
  pub h_s11c_sgw_tunnel : ℕ
  pub s5s8c_pgw : Fteid
  pub s5s8c_sgw : Fteid
  pub h_s5s8c_sgw_tunnel : ℕ
  pub h_s5s8c_pgw_tunnel : ℕ
  pub eps_bearer : ℕ → Bearer
  -- `ueSgwSessionRbtNode` and `uePgwSessionRbtNode`: where the trees have the UE
  pub sgw_node : Key
  pub pgw_node : Key

-- `NW_SAE_GW_UE_STATE_...`
abbrev pub state_init : ℕ
state_init = 0

abbrev pub sae_session_created : ℕ
sae_session_created = 1

abbrev pub sgw_session_created : ℕ
sgw_session_created = 2

abbrev pub pgw_session_created : ℕ
pgw_session_created = 3

abbrev pub sae_session_established : ℕ
sae_session_established = 4

abbrev pub sgw_session_established : ℕ
sgw_session_established = 5

abbrev pub state_end : ℕ
state_end = 10

-- `NwSaeGwUlpT`: an SGW has the type 1, a PGW the type 2.
pub record Ulp (t : TreeOps) : Type 0 where
  pub sae_gw_type : ℕ
  pub pool : IpPool
  pub s11c_addr : ℕ
  pub sgw_s5c_addr : ℕ
  pub pgw_s5c_addr : ℕ
  pub ue_sgw_session : t.Tree
  pub ue_pgw_session : t.Tree
  pub collocated_pgws : List ℕ

-- The interface of a GTPv2-C stack.
pub data Interface : Type 0 where
  sgw_s11 sgw_s5 pgw_s5 : Interface

pub data Request : Type 0 where
  -- stack, transaction, whether a local tunnel is created, UE, message
  triggered_rsp : Interface → ℕ → Bool → ℕ → Msg → Request
  -- stack, tunnel, transaction, peer, whether a local tunnel is created, UE, message
  initial_req : Interface → ℕ → ℕ → ℕ → Bool → ℕ → Msg → Request
  delete_local_tunnel : Interface → ℕ → Request

pub record Gw (t : TreeOps) : Type 0 where
  pub ulp : ℕ → Ulp t
  pub ue : ℕ → Ue
  pub sdp : Sdp t
  -- `gtpuIf.ipAddr` of the data plane
  pub gtpu_addr : ℕ
  pub sent : List Request

-- What a call finds around it: where the TEID fields of a bearer of a UE stand in memory, whose addresses
-- are the TEIDs; the environments of the data plane, one for each flow of the call; what memory and
-- local variables hold that nothing was assigned to; the storage of a message; and the answer of a stack, a tunnel or
-- a failure.
pub record Environment : Type 0 where
  pub s1u_sgw_at : ℕ → ℕ → ℕ
  pub s5s8u_sgw_at : ℕ → ℕ → ℕ
  pub s5s8u_pgw_at : ℕ → ℕ → ℕ
  pub new_ue : ℕ
  pub plane : ℕ → Plane.Environment
  pub unset_end_point : EndPoint
  pub unset_bearer : EpsBearer
  pub unset_offending : ℕ × ℕ
  pub unset_bytes : Buffer
  pub storage : Option Msg
  pub answer : Option ℕ

module _ {t : TreeOps} where
  abbrev pub set_ue : ℕ → Ue → Gw t → Gw t
  set_ue p x s = record s { ue = set s.ue p x }

  abbrev pub set_bearer : ℕ → ℕ → Bearer → Gw t → Gw t
  set_bearer p ebi b s = set_ue p (record (s.ue p) { eps_bearer = set (s.ue p).eps_bearer ebi b }) s

  abbrev pub set_ulp : ℕ → Ulp t → Gw t → Gw t
  set_ulp h u s = record s { ulp = set s.ulp h u }

  abbrev pub set_state : ℕ → ℕ → Gw t → Gw t
  set_state p n s = set_ue p (record (s.ue p) { state = n }) s

  abbrev pub request : Request → Gw t → Gw t
  request r s = record s { sent = r ∷ s.sent }

-- The key of `nwSaeGwUlpCompareUeSession`: `memcmp` of eight bytes orders them as one number.
abbrev pub imsi_key : Buffer → Key
imsi_key b = record {
  number =
      ((((((b 0 * 256 + b 1) * 256 + b 2) * 256 + b 3) * 256 + b 4) * 256 + b 5) * 256 + b 6) * 256
      + b 7;
  peer_ip = 0;
  peer_port = 0;
}
