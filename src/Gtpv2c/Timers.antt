-- ===== src/Gtpv2c/Timers.antt =====
-- nw-gtpv2c/src/NwGtpv2c.c: the timers of the stack over one timer of the timer manager, the active one. A
-- timer is a `NwGtpv2cTimeoutInfoT`, given as a number with 0 for NULL; `handle`, `tmr_type`, `callback` and
-- `timeout_arg` are its fields. The time that gettimeofday gives is an argument; `stop_timer` has one for the two
-- readings that it makes where it runs into a timeout. The start and stop callbacks of the timer manager are taken to
-- succeed, which the source asserts.
pub mod Invariant
pub mod Start
pub mod Stop
pub mod Expiry
pub mod Timeout
pub mod Restart
pub mod Quiet
mod Tests
use linkerepc.Prelude.{
  ℕ, zero, suc, ◌+◌, ◌-◌, Option, none, some, List, [], ◌∷◌, ltb, leb, ◌==◌, if◌then◌else◌, set,
}
use linkerepc.Gtpv2c.TmrHeap.{
  TmrHeap, Time, timer_gt, timer_lt, insert, remove, peek, Removal, removed, not_found,
  out_of_bounds,
}

-- What the timer manager is asked for, and the callbacks that are called: seconds, microseconds, type
-- and timer; handle; callback and argument.
pub data Output : Type 0 where
  start : ℕ → ℕ → ℕ → ℕ → Output
  stop : ℕ → Output
  expired : ℕ → ℕ → Output

pub record Timers : Type 0 where
  pub heap : TmrHeap
  pub active : ℕ
  pub handle : ℕ → ℕ
  pub tmr_type : ℕ → ℕ
  pub callback : ℕ → ℕ
  pub timeout_arg : ℕ → ℕ
  pub pool : List ℕ
  pub out : List Output

-- The arguments of `nwGtpv2cStartTimer`.
pub record Request : Type 0 where
  pub timeout_sec : ℕ
  pub timeout_usec : ℕ
  pub tmr_type : ℕ
  pub callback : ℕ
  pub timeout_arg : ℕ

-- What the environment gives: the pointer of the allocator if the pool is empty, and the handle of
-- the timer manager.
pub record Environment : Type 0 where
  pub new_info : ℕ
  pub new_handle : ℕ

-- NW_GTPV2C_TIMER_ADD, and NW_GTPV2C_TIMER_SUB of a time that is not later.
unfoldable pub timer_add : Time → Time → Time
timer_add a b =
    let usec = a.tv_usec + b.tv_usec in
    if leb 1000000 usec
    then record { tv_sec = a.tv_sec + b.tv_sec + 1; tv_usec = usec - 1000000 }
    else record { tv_sec = a.tv_sec + b.tv_sec; tv_usec = usec }

unfoldable pub timer_sub : Time → Time → Time
timer_sub a b =
    if ltb a.tv_usec b.tv_usec
    then record { tv_sec = a.tv_sec - b.tv_sec - 1; tv_usec = a.tv_usec + 1000000 - b.tv_usec }
    else record { tv_sec = a.tv_sec - b.tv_sec; tv_usec = a.tv_usec - b.tv_usec }

-- `tmrStartCallback`, after which the timer is the active one; `tmrStopCallback` of the active one.
abbrev pub launch : Timers → Environment → ℕ → ℕ → ℕ → Timers
launch s env sec usec t = record s {
  active = t;
  handle = set s.handle t env.new_handle;
  out = start sec usec (s.tmr_type t) t ∷ s.out;
}

abbrev pub stop_active : Timers → Timers
stop_active s = record s { out = stop (s.handle s.active) ∷ s.out }

-- The head of the pool, or what the allocator returns, and the rest of the pool.
abbrev pub from_pool : List ℕ → ℕ → ℕ × List ℕ
from_pool [] fresh = (fresh, [])
from_pool (p ∷ ps) fresh = (p, ps)

-- `nwGtpv2cStartTimer`: the fields of the timer, what follows its insertion, and the function, with the
-- handle, which is 0 without memory. `none` is the failed assertion of the insertion.
abbrev pub filled : Timers → ℕ → List ℕ → Time → Request → Timers
filled s t pool now r = record s {
  heap = record s.heap {
    tv =
        set s.heap.tv t
          (timer_add now (record { tv_sec = r.timeout_sec; tv_usec = r.timeout_usec }));
  };
  tmr_type = set s.tmr_type t r.tmr_type;
  callback = set s.callback t r.callback;
  timeout_arg = set s.timeout_arg t r.timeout_arg;
  pool = pool;
}

abbrev pub activate : Timers → Environment → ℕ → Request → Timers
activate s env t r =
    if s.active == 0
    then launch s env r.timeout_sec r.timeout_usec t
    else if timer_gt (s.heap.tv s.active) (s.heap.tv t)
    then launch (stop_active s) env r.timeout_sec r.timeout_usec t
    else s

abbrev pub inserted :
    Timers → Environment → ℕ → Request → Option (TmrHeap × ℕ) → Option (ℕ × Timers)
inserted s env t r none = none
inserted s env t r (some (h, i)) = some (t, activate (record s { heap = h }) env t r)

unfoldable pub start_timer : Timers → Environment → Time → Request → Option (ℕ × Timers)
start_timer s env now r =
    let (t, pool) = from_pool s.pool env.new_info in
    let f = filled s t pool now r in
    if t == 0 then some (0, record s { pool = pool }) else inserted f env t r (insert f.heap t)

-- A timer is removed from the heap and given back to the pool. `none` is an access out of bounds.
abbrev pub drop_timer : Timers → ℕ → Removal → Option Timers
drop_timer s t (removed h) = some (record s { heap = h; pool = t ∷ s.pool })
drop_timer s t not_found = some (record s { pool = t ∷ s.pool })
drop_timer s t out_of_bounds = none

unfoldable pub release : Timers → ℕ → Option Timers
release s t = drop_timer s t (remove s.heap (s.heap.index t))

-- How a call ends: with a state, in an access out of bounds, or with its fuel used up.
pub data Outcome : Type 0 where
  finished : Timers → Outcome
  crashed exhausted : Outcome

-- What follows a release.
abbrev pub and_then : (Timers → Outcome) → Option Timers → Outcome
and_then f none = crashed
and_then f (some s) = f s

-- What the callbacks of timers do, by the callback, its argument and the state in which it is called.
module _ (fire : ℕ → ℕ → Timers → Timers) where
  abbrev pub call_back : Timers → ℕ → Timers
  call_back s t =
      fire (s.callback t) (s.timeout_arg t)
        (record s { out = expired (s.callback t) (s.timeout_arg t) ∷ s.out })

  -- The loop of `nwGtpv2cProcessTimeout` over the timers that are due.
  pub expire_due : ℕ → Time → Timers → Outcome
  expire_due zero now s = exhausted
  expire_due (suc k) now s =
      let t = peek s.heap in
      if t == 0
      then finished s
      else if timer_gt (s.heap.tv t) now
      then finished s
      else and_then (λ r. expire_due k now (call_back r t)) (release s t)

  -- The last statements of `nwGtpv2cProcessTimeout`.
  abbrev pub start_next : Timers → Environment → Time → Timers
  start_next s env now =
      let t = peek s.heap in
      let left = timer_sub (s.heap.tv t) now in
      if s.active == 0 then (if t == 0 then s else launch s env left.tv_sec left.tv_usec t) else s

  abbrev pub started_next : Environment → Time → Outcome → Outcome
  started_next env now (finished s) = finished (start_next s env now)
  started_next env now crashed = crashed
  started_next env now exhausted = exhausted

  -- `nwGtpv2cProcessTimeout`: the time is read after the first callback.
  unfoldable pub process_timeout : ℕ → Timers → Environment → Time → ℕ → Outcome
  process_timeout k s env now t =
      if s.active == t
      then and_then (λ r. started_next env now (expire_due k now (call_back r t)))
          (release (record s { active = 0 }) t)
      else finished s

  -- `nwGtpv2cStopTimer`
  abbrev pub stop_next : ℕ → Timers → Environment → Time → Outcome
  stop_next k s env now =
      let t = peek s.heap in
      let left = timer_sub (s.heap.tv t) now in
      if t == 0
      then finished s
      else if timer_lt (s.heap.tv t) now
      then process_timeout k (record s { active = t }) env now t
      else finished (launch s env left.tv_sec left.tv_usec t)

  unfoldable pub stop_timer : ℕ → Timers → Environment → Time → ℕ → Outcome
  stop_timer k s env now t =
      and_then
        (λ r.
          if r.active == t
          then stop_next k (record r { active = 0; out = stop (r.handle t) ∷ r.out }) env now
          else finished r)
        (release s t)
