-- ===== src/Gtpv1u/Stack.antt =====
-- nw-gtpv1u: the state of the stack (`NwGtpv1uStackT` of include/NwGtpv1uPrivate.h) with the objects
-- that it owns. Messages, transactions and tunnel end points are pointers, given as numbers with 0 for NULL, into
-- stores; the pools, which are static variables of the source, stand with the state. What the stack asks
-- of its callbacks is a list of outputs, the last one first.
pub mod Storage
pub mod Transactions
pub mod Ulp
pub mod Udp
pub mod Sessions
pub mod Delivery
pub mod Expiry
pub mod Requests
pub mod Failure
pub mod Echo
mod Tests
use linkerepc.Prelude.{
  ◌≡◌, ◌≢◌, ap, eqb-true, eqb-false, ℕ, Option, List, [], ◌∷◌, ◌==◌, if◌then◌else◌,
}
use linkerepc.Bytes.{Buffer}
use linkerepc.Gtpv1u.Msg.{Msg}
pub use linkerepc.Trees.{Key, TreeOps, IsMap}

-- `NwGtpv1uRcT`; `unset` is the value of a variable that nothing was assigned to.
pub data Rc : Type 0 where
  ok failure unset : Rc

-- `NwGtpv1uTrxnT`
pub record Trxn : Type 0 where
  pub seq_num : ℕ
  pub peer_ip : ℕ
  pub peer_port : ℕ
  pub max_retries : ℕ
  pub t3_timer : ℕ
  pub h_rsp_tmr : ℕ
  pub h_ulp_trxn : ℕ
  pub p_msg : ℕ

-- `NwGtpv1uTunnelEndPointT`
pub record TunnelEndPoint : Type 0 where
  pub teid : ℕ
  pub h_ulp_session : ℕ

pub data Output : Type 0 where
  -- bytes, their number, address and port
  udp : Buffer → ℕ → ℕ → ℕ → Output
  -- seconds and transaction
  start_timer : ℕ → ℕ → Output
  stop_timer : ℕ → Output
  -- session of the upper layer, TEID and message
  recv_tpdu : ℕ → ℕ → ℕ → Output
  -- type, address, port and, if there is one, message
  recv_msg : ℕ → ℕ → ℕ → Option ℕ → Output
  -- type, transaction of the upper layer, address and port
  rsp_failure : ℕ → ℕ → ℕ → ℕ → Output

pub record Stack (t : TreeOps) : Type 0 where
  pub seq : ℕ
  pub tx_map : t.Tree
  pub teid_map : t.Tree
  pub msg : ℕ → Msg
  pub trxn : ℕ → Trxn
  pub tunnel : ℕ → TunnelEndPoint
  pub msg_pool : List ℕ
  pub trxn_pool : List ℕ
  pub tunnel_pool : List ℕ
  pub out : List Output

-- What the environment does in a call: the pointers that the allocator returns if a pool is empty, the
-- timer that is started, and what the UDP callback returns.
pub record Environment : Type 0 where
  pub new_msg : ℕ
  pub new_trxn : ℕ
  pub new_tunnel : ℕ
  pub new_timer : ℕ
  pub udp_rc : Rc

abbrev pub emit : {t : TreeOps} → Output → Stack t → Stack t
emit o s = record s { out = o ∷ s.out }

-- The keys of `nwGtpv1uCompareTeid` and `nwGtpv1uCompareSeqNum`.
abbrev pub tunnel_key : ℕ → Key
tunnel_key teid = record { number = teid; peer_ip = 0; peer_port = 0 }

abbrev pub tx_key : Trxn → Key
tx_key x = record { number = x.seq_num; peer_ip = x.peer_ip; peer_port = 0 }
