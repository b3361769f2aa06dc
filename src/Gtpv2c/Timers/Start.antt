-- ===== src/Gtpv2c/Timers/Start.antt =====
-- Starting a timer: `nwGtpv2cStartTimer`.
use linkerepc.Gtpv2c.TmrHeap.{TmrHeap}
use linkerepc.Gtpv2c.Timers.{Timers}
