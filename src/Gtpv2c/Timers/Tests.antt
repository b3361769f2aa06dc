-- ===== src/Gtpv2c/Timers/Tests.antt =====
-- The timers 7 and 8, of which 7 runs with the timer manager.
use linkerepc.Prelude.{ℕ, ◌+◌, ◌≡◌, ◌⊎◌, refl, Option, none, some, [], if◌then◌else◌, ◌==◌}
use linkerepc.Gtpv2c.TmrHeap.{TmrHeap, Time, timer_gt, timer_lt, insert, remove, remove_at, peek}
use linkerepc.Gtpv2c.TmrHeap.Contract.{Member}
use linkerepc.Gtpv2c.Timers.{
  Timers, Request, Environment, Outcome, finished, crashed, exhausted, start_timer, timer_add,
  process_timeout, release, expire_due,
}
use linkerepc.Gtpv2c.Timers.Expiry.{IsLater, IsOpen}

abbrev at_time : ℕ → Time
at_time n = record { tv_sec = n; tv_usec = 0 }

abbrev two : TmrHeap
two = record {
  curr_size = 2;
  max_size = 8;
  slot = λ i. if i == 0 then 7 else if i == 1 then 8 else 0;
  index = λ t. if t == 7 then 0 else if t == 8 then 1 else 4294967295;
  tv = λ t. at_time (100 + t);
}

abbrev timers : Timers
timers = record {
  heap = two;
  active = 7;
  handle = λ t. t;
  tmr_type = λ _. 0;
  callback = λ t. t;
  timeout_arg = λ _. 0;
  pool = [];
  out = [];
}

abbrev env : Environment
env = record { new_info = 9; new_handle = 30 }

abbrev request : Request
request = record { timeout_sec = 2; timeout_usec = 0; tmr_type = 0; callback = 1; timeout_arg = 5 }

-- Callbacks that do nothing.
abbrev idle_callback : ℕ → ℕ → Timers → Timers
idle_callback c a s = s

-- A callback of 7 that starts a timer of a minute, as a retransmission does.
abbrev unwrap : Timers → Option (ℕ × Timers) → Timers
unwrap s none = s
unwrap s (some (t, r)) = r

abbrev minute : Request
minute = record { timeout_sec = 60; timeout_usec = 0; tmr_type = 0; callback = 7; timeout_arg = 0 }

abbrev restart : ℕ → ℕ → Timers → Timers
restart c a s = if c == 7 then unwrap s (start_timer s env (at_time 107) minute) else s

-- What a patient callback leaves.
abbrev Leaves : Timers → Timers → Type 0
Leaves s r =
    IsOpen (at_time 107) r
    × ((u : ℕ)
        → Member r.heap u
        → IsLater r.heap (at_time 107) u ⊎ (Member s.heap u × (r.heap.tv u ≡ s.heap.tv u)))

abbrev left : Outcome → Timers
left (finished s) = s
left crashed = timers
left exhausted = timers

abbrev after : Timers
after = left (process_timeout restart 3 timers env (at_time 107) 7)

-- The new timer is then the one that runs, although 8, in the heap, is due a minute earlier.
restart_masks :
    (after.active ≡ 7)
    × (peek after.heap ≡ 8)
    × (after.heap.tv 8 ≡ at_time 108)
    × (after.heap.tv 7 ≡ at_time 167)
unfolding process_timeout release expire_due start_timer remove remove_at insert peek timer_add
    timer_gt timer_lt
restart_masks = (refl, refl, refl, refl)
