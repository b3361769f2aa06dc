-- ===== src/Lib.antt =====
-- nwEPC, an LTE evolved packet core: the GTPv2-C control-plane stack (nw-gtpv2c), the pool of UE
-- addresses (utils/nw-ippool), its SAE gateway (nw-sae-gw), an SGW, a PGW or both, and its data
-- plane (nw-sdp) over the GTPv1-U and IPv4 stacks (nw-gtpv1u, nw-ipv4).
-- The gateway takes the address of a UE from the pool. Its signalling goes through the stack: a
-- request or response is built as a message of information elements (IEs), sent over UDP, guarded
-- by a timer, and matched with the messages of the peer; a received message is checked against the
-- table of the IEs of its type. The data plane has a flow for each way of a tunnel, and forwards
-- packets between GTP-U and IPv4 end points.
-- IpPool: utils/nw-ippool/NwIpv4PoolMgr.c. nwIpv4PoolMgrNew, nwIpv4PoolMgrAlloc and
-- nwIpv4PoolMgrFree are new, alloc and free; the linked list of free descriptors is a store of
-- next pointers. The loop of alloc runs on fuel, one round for each descriptor and one more, which
-- the invariant shows to be enough.
-- Gtpv2c/TmrHeap: the heap of the running timers in nw-gtpv2c/src/NwGtpv2c.c.
-- nwGtpv2cTmrMinHeapNew, Insert, Remove and Peek are new, insert, remove and peek; a timer is a
-- number with a timeout and the index that it stores. The fuel of each loop is the height or the
-- size it can climb, and the theorems hold without any condition on it.
-- Gtpv2c/Msg: nw-gtpv2c/src/NwGtpv2cMsg.c, on a little-endian host. Encode has the functions that
-- add IEs, Decode those that read them; the table of the IEs found is indexed by type * 4 +
-- instance, as the source's two-dimensional arrays are laid out. write_header is the part of
-- nwGtpv2cCreateAndSendMsg (NwGtpv2c.c) that fills in the header.
-- Gtpv2c/ParseInfo: nw-gtpv2c/src/NwGtpv2cMsgIeParseInfo.c. The tables are copied row by row. The
-- loop over a message of n bytes runs on fuel n + 1; every round takes four bytes or more, so it
-- does not run out.
-- Gtpv2c/Timers: nwGtpv2cStartTimer, nwGtpv2cStopTimer and nwGtpv2cProcessTimeout of NwGtpv2c.c
-- are start_timer, stop_timer and process_timeout, over the heap of TmrHeap. What the callbacks of
-- the timers do is a function that is given. The two callbacks of the timer manager are taken to
-- succeed, which the source asserts, and stop_timer has one time for the two readings of the clock
-- that the source makes where it runs into a timeout. The loop over the timers that are due runs
-- on fuel; if callbacks keep the timers valid and start none that is due already, one round for
-- each timer of the heap and one more is enough.
-- Gtpv2c/Stack: nw-gtpv2c/src/NwGtpv2cTrxn.c, NwGtpv2cTunnel.c and the rest of NwGtpv2c.c.
-- Transactions has the functions of transactions, Udp those that handle messages of the peers
-- (process_udp_req is nwGtpv2cProcessUdpReq), Ulp those that handle requests of the upper layer
-- (process_ulp_req is nwGtpv2cProcessUlpReq). Transactions and tunnels are pointers into stores,
-- so that a transaction found in a tree is the one that was sent. What the callbacks for UDP,
-- timers and the upper layer are asked to do is a list of outputs.
-- UeFsm: nw-sae-gw/NwSaeGwUeFsm.c and NwSaeGwUeState.c, the state machine of a UE. NwSaeGwUeFsmNew
-- is fsm_new, nwSaeGwUeFsmRun is run and nwSaeGwStateHandleEvent is handle_event, which looks for
-- the handler of an event in a state and in its parents; the handlers of the states are given;
-- those of the gateway are in SaeGw/Indications. Two calls are enough, since no parent has a
-- parent.
-- Trees and Bytes: what the stacks share. The red-black trees of common/tree.h are a parameter,
-- TreeOps, whose documented behaviour is IsMap; a buffer is a function from offsets to bytes.
-- Gtpv1u: nw-gtpv1u/src, the stack of the user plane. Gtpv1u/Msg is NwGtpv1uMsg.c with the headers
-- that NwGtpv1u.c and NwGtpv1uTrxn.c write; Gtpv1u/Stack has the state, Storage the objects and
-- their pools, Transactions NwGtpv1uTrxn.c, Ulp and Udp the requests of the upper layer and the
-- messages of peers (process_ulp_req is nwGtpv1uProcessUlpReq, process_udp_req is
-- nwGtpv1uProcessUdpReq). Messages, transactions and tunnel end points are pointers into stores,
-- so that what a pool hands out again keeps what was in it. The buffer of a message, of 4096 bytes
-- in the source and written without a check, is a function from offsets: the theorems on the bytes
-- of packets bound their lengths so that the source stays inside it. Sessions is the abstract view
-- of the tunnels: the table that the upper layer made, over any history of calls.
-- Ipv4: nw-ipv4/src, the stack for the packets of users and for ARP. Its lower layer, which sends
-- frames, is a result that is given and a list of outputs; process_pdu is nwIpv4ProcessPdu, called
-- by nwIpv4ProcessLlpDataInd.
-- Sdp: nw-sdp/src/NwSdp.c and NwSdpFlowContext.c, the service data plane over a GTPv1-U and an
-- IPv4 stack. create_flow and destroy_flow are the requests of the gateway, process_ipv4_data_ind
-- and process_gtpu_data_ind the two ways of a packet, with the callbacks of the stacks in them;
-- answer_ping is the branch that NW_SDP_RESPOND_ICMP_PING compiles in. A message buffer is a
-- function, so that a write behind its 4096 bytes is not caught; the theorems on packets bound
-- their lengths.
-- SaeGw: nw-sae-gw/NwSaeGwUlp.c, NwSaeGwDpe.c, NwSaeGwUe.c and the UE states, the gateway that has
-- all of these parts: its state in SaeGw.antt; Flows, the data plane as it calls it; Sessions, the
-- registration of UEs by IMSI with their addresses from the pool; Bearers, the flows of a bearer;
-- Parse and Send, the requests that it reads and the messages that it sends; Pgw and Sae, the
-- handlers of a PGW and of an SGW with a collocated PGW; Remote, those of an SGW with a remote
-- PGW; Indications, the events of the three interfaces with the machine of UeFsm. UEs and entities
-- are pointers into stores. What it asks of its GTPv2-C stacks is a list of requests, and the
-- answer of a stack, the storage of a message and uninitialised memory come from an environment.
-- The loops over a bearer context of n bytes run on fuel n + 1.
-- Locks are left out: each operation runs alone. Logs are left out, and the time of day is an
-- argument. An assertion that fails is a value of the result.
-- Not modelled: the older copies of the timer functions (names in Old), the message printers;
-- nw-gre, whose end points are built as those of nw-gtpv1u; nw-event, the sockets and the test
-- applications, which are input and output; the making of the stack objects and the setters of
-- their callbacks; the making of the entities of the gateway and their stacks, and the UE states
-- that its machine never installs; nwGtpv2cMsgGetIeTV8; and the parser of NwGtpv2cMsgParser.c.
pub mod Prelude
pub mod Bytes
pub mod Gtpv1u
pub mod Gtpv2c
pub mod IpPool
pub mod Ipv4
pub mod SaeGw
pub mod Sdp
pub mod Trees
pub mod UeFsm
