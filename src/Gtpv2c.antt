-- ===== src/Gtpv2c.antt =====
-- nw-gtpv2c/src: the GTPv2-C protocol stack.
pub mod TmrHeap
pub mod Msg
pub mod ParseInfo
pub mod Stack
pub mod Timers
