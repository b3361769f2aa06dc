-- ===== src/Gtpv1u.antt =====
-- nw-gtpv1u/src: the GTPv1-U stack, which carries the packets of the users in tunnels.
pub mod Msg
pub mod Stack
