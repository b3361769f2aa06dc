-- ===== src/Gtpv2c/Stack.antt =====
-- nw-gtpv2c: the state of the stack (`NwGtpv2cStackT` of include/NwGtpv2cPrivate.h) with the objects
-- that it owns. Transactions and tunnels are pointers, given as numbers with 0 for NULL, into stores;
-- the red-black trees of tree.h are taken as maps from keys to pointers. What the stack asks of its
-- callbacks, for UDP, timers and the upper layer, is a list of outputs, the last one first; the callbacks
-- return NW_OK.
pub mod Transactions
pub mod Udp
pub mod Ulp
pub mod Deletion
pub mod Expiry
pub mod Numbering
pub mod Matching
pub mod Order
pub mod Discard
mod Tests
use linkerepc.Prelude.{ℕ, Option, none, some, List, [], ◌∷◌, ◌≡◌, ◌≢◌, ◌==◌, if◌then◌else◌, set}
use linkerepc.Bytes.{Buffer}
use linkerepc.Gtpv2c.Msg.{Msg}
use linkerepc.Gtpv2c.ParseInfo.{Parsed}
pub use linkerepc.Trees.{Key, TreeOps, IsMap}

-- `NwGtpv2cTrxnT`
pub record Trxn : Type 0 where
  pub seq_num : ℕ
  pub peer_ip : ℕ
  pub peer_port : ℕ
  pub t3_timer : ℕ
  pub max_retries : ℕ
  pub p_msg : Option Msg
  pub h_rsp_tmr : ℕ
  pub h_tunnel : ℕ
  pub h_ulp_trxn : ℕ

-- `NwGtpv2cTunnelT`
pub record Tunnel : Type 0 where
  pub teid : ℕ
  pub ipv4_addr_remote : ℕ
  pub h_ulp_tunnel : ℕ

-- The callbacks that a transaction gives to a timer.
pub data Timeout : Type 0 where
  peer_rsp_wait duplicate_request_wait : Timeout

pub data Output : Type 0 where
  -- bytes, their number, address and port
  udp : Buffer → ℕ → ℕ → ℕ → Output
  -- seconds, callback, transaction
  start_timer : ℕ → Timeout → ℕ → Output
  stop_timer : ℕ → Output
  -- transaction and tunnel of the upper layer
  rsp_failure_ind : ℕ → ℕ → Output
  -- type, transaction, tunnel of the upper layer, address, port, message and result of the parser
  initial_req_ind : ℕ → ℕ → ℕ → ℕ → ℕ → Parsed → Output
  -- type, transaction and tunnel of the upper layer, and result of the parser
  triggered_rsp_ind : ℕ → ℕ → ℕ → Parsed → Output

pub record Stack (t : TreeOps) : Type 0 where
  pub seq_num : ℕ
  pub restart_counter : ℕ
  pub tunnel_map : t.Tree
  pub tx_map : t.Tree
  pub rx_map : t.Tree
  pub trxn : ℕ → Trxn
  pub tunnel : ℕ → Tunnel
  pub trxn_pool : List ℕ
  pub tunnel_pool : List ℕ
  pub msg_pool : List Msg
  pub out : List Output

-- What the allocator returns in a call, if a pool is empty: a transaction, a tunnel, a message and a
-- timer. `none` and 0 are NULL.
pub record Memory : Type 0 where
  pub new_trxn : ℕ
  pub new_tunnel : ℕ
  pub new_msg : Option Msg
  pub new_timer : ℕ

abbrev pub emit : {t : TreeOps} → Output → Stack t → Stack t
emit o s = record s { out = o ∷ s.out }

abbrev pub set_trxn : {t : TreeOps} → ℕ → Trxn → Stack t → Stack t
set_trxn p x s = record s { trxn = set s.trxn p x }

-- The keys of `nwGtpv2cCompareOutstandingTxSeqNumTrxn`, `nwGtpv2cCompareOutstandingRxSeqNumTrxn` and
-- `nwGtpv2cCompareTunnel`.
abbrev pub tx_key : Trxn → Key
tx_key x = record { number = x.seq_num; peer_ip = x.peer_ip; peer_port = 0 }

abbrev pub rx_key : Trxn → Key
rx_key x = record { number = x.seq_num; peer_ip = x.peer_ip; peer_port = x.peer_port }

abbrev pub tunnel_key : ℕ → ℕ → Key
tunnel_key teid peer_ip = record { number = teid; peer_ip = peer_ip; peer_port = 0 }
