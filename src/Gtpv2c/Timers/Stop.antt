-- ===== src/Gtpv2c/Timers/Stop.antt =====
-- Stopping a timer, `nwGtpv2cStopTimer`, where callbacks leave the timers alone.
use linkerepc.Prelude.{ℕ, ◌≡◌}
use linkerepc.Gtpv2c.TmrHeap.{TmrHeap, Time}
use linkerepc.Gtpv2c.Timers.{Timers, Outcome, finished}
use linkerepc.Gtpv2c.Timers.Invariant.{IsArmed}
use linkerepc.Gtpv2c.Timers.Quiet.{IsQuiet, IsThinned}

module _ (fire : ℕ → ℕ → Timers → Timers) (now : Time) (quiet : IsQuiet fire) where
  -- A run that ends with the earliest timer active.
  abbrev Rearms : TmrHeap → Outcome → Type 0
  Rearms h x = (r : Timers) × (x ≡ finished r) × IsArmed r × IsThinned now h r.heap
