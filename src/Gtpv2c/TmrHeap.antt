-- ===== src/Gtpv2c/TmrHeap.antt =====
-- nw-gtpv2c/src/NwGtpv2c.c: the binary min-heap of the running timers.
-- Timers are pointers, given as numbers with 0 for NULL. `slot` is the array `pHeap`, `index` the
-- field `timerMinHeapIndex` and `tv` the field `tvTimeout` of every timer.
pub mod Timeval
pub mod Sift
mod Up
mod Down
pub mod Contract
mod Tests
use linkerepc.Prelude.{
  ℕ, zero, suc, ◌+◌, ◌-◌, ◌*◌, ◌/◌, ◌<◌, ◌≤◌, Bool, true, false, Option, none, some, ◌&&◌, ◌||◌,
  ltb, leb, ◌==◌, if◌then◌else◌,
}
pub use Timeval.{Time}
unfoldable pub use Timeval.{timer_gt, timer_lt}

pub record TmrHeap : Type 0 where
  pub curr_size : ℕ
  pub max_size : ℕ
  pub slot : ℕ → ℕ
  pub index : ℕ → ℕ
  pub tv : ℕ → Time

-- NW_MIN_HEAP_INDEX_INVALID
abbrev pub index_invalid : ℕ
index_invalid = 4294967295

-- `nwGtpv2cTmrMinHeapNew`: the entries of the arrays are not initialised.
unfoldable pub new : ℕ → (ℕ → ℕ) → (ℕ → ℕ) → (ℕ → Time) → TmrHeap
new max_size slot index tv = record {
  curr_size = 0;
  max_size = max_size;
  slot = slot;
  index = index;
  tv = tv;
}

abbrev pub parent : ℕ → ℕ
parent child = (child - 1) / 2

-- `pHeap[hole] = t; t->timerMinHeapIndex = hole`
abbrev pub update : (ℕ → ℕ) → ℕ → ℕ → ℕ → ℕ
update f i v j = if i == j then v else f j

abbrev pub place : TmrHeap → ℕ → ℕ → TmrHeap
place h hole t = record h { slot = update h.slot hole t; index = update h.index t hole }

-- The loop that moves the hole towards the root, shared in shape by insertion and removal. It ends
-- at the root at the latest: `hole` rounds are enough, and with none left the hole is the root.
pub sift_up : ℕ → ℕ → TmrHeap → ℕ → TmrHeap × ℕ
sift_up zero ev h hole = (h, hole)
sift_up (suc k) ev h hole =
    let up = h.slot (parent hole) in
    let rest = sift_up k ev (place h hole up) (parent hole) in
    if ltb 0 hole && timer_gt (h.tv up) (h.tv ev) then rest else (h, hole)

-- `nwGtpv2cTmrMinHeapInsert`: the heap and the index of the timer. `none` is the failed assertion
-- that the size stays below the maximum.
unfoldable pub insert : TmrHeap → ℕ → Option (TmrHeap × ℕ)
unfolding sift_up
insert h ev =
    let grown : TmrHeap = record h { curr_size = h.curr_size + 1 } in
    let (risen, hole) = sift_up h.curr_size ev grown h.curr_size in
    if ltb grown.curr_size h.max_size then some (place risen hole ev, hole) else none

-- The child to which the hole moves, of the two at `min_child` and after it.
abbrev pub smaller_child : TmrHeap → ℕ → ℕ
smaller_child h hole =
    let left = 2 * hole + 1 in
    if timer_gt (h.tv (h.slot left)) (h.tv (h.slot (left + 1))) then left + 1 else left

-- The loop that moves the hole towards the leaves.
pub sift_down : ℕ → ℕ → TmrHeap → ℕ → TmrHeap × ℕ
sift_down zero ev h hole = (h, hole)
sift_down (suc k) ev h hole =
    let child = smaller_child h hole in
    let rest = sift_down k ev (place h hole (h.slot child)) child in
    if leb (2 * hole + 2) h.curr_size
    then (if timer_lt (h.tv ev) (h.tv (h.slot child)) then (h, hole) else rest)
    else (h, hole)

-- How a removal ends: NW_OK, NW_FAILURE, or an access outside of the array, at an index that is
-- negative as an `int`.
pub data Removal : Type 0 where
  removed : TmrHeap → Removal
  not_found out_of_bounds : Removal

-- The body of `nwGtpv2cTmrMinHeapRemove` for an index below the size.
unfoldable pub remove_at : TmrHeap → ℕ → TmrHeap
unfolding sift_up sift_down
remove_at h i =
    let last = h.curr_size - 1 in
    let ev = h.slot last in
    let cut : TmrHeap = record h {
      curr_size = last;
      index = update h.index (h.slot i) index_invalid;
    } in
    let (sunk, low) = sift_down h.curr_size ev cut i in
    let (risen, hole) = sift_up low ev sunk low in
    let filled = if ltb hole last then place risen hole ev else risen in
    record filled { slot = update filled.slot last 0 }

unfoldable pub remove : TmrHeap → ℕ → Removal
unfolding remove_at
remove h i =
    if i == index_invalid
    then not_found
    else if leb 2147483648 i
    then out_of_bounds
    else if ltb i h.curr_size
    then removed (remove_at h i)
    else not_found

-- `nwGtpv2cTmrMinHeapPeek`
unfoldable pub peek : TmrHeap → ℕ
peek h = if h.curr_size == 0 then 0 else h.slot 0
