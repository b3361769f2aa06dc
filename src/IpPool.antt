-- ===== src/IpPool.antt =====
-- utils/nw-ippool/NwIpv4PoolMgr.c: the pool of IPv4 addresses for the UEs.
-- Descriptor `i` of `pIpAddrTbl` is its index; `next` holds the `next` pointers of all of them, and
-- `free_pool` is the head `pFreePool`, with `none` for NULL. Addresses of callers are in network
-- byte order. The mutex only serialises the calls and is left out.
pub mod Chain
pub mod Ledger
pub mod Reuse
mod Tests
use linkerepc.Prelude.{
  ℕ, zero, suc, ◌+◌, ◌-◌, ◌%◌, Bool, Option, none, some, ◌&&◌, not, ltb, ◌==◌, if◌then◌else◌, u32,
  htonl,
}

pub record IpPool : Type 0 where
  pub start_ip : ℕ
  pub end_ip : ℕ
  pub mask : ℕ
  -- the number of entries of `pIpAddrTbl`
  pub size : ℕ
  pub next : ℕ → Option ℕ
  pub free_pool : Option ℕ

-- The store of the `next` pointers after a write.
abbrev pub update : (ℕ → Option ℕ) → ℕ → Option ℕ → ℕ → Option ℕ
update f i v j = if i == j then v else f j

-- The loop of `nwIpv4PoolMgrNew`: the rounds left, `i`, the pointers written and the head.
pub fill : ℕ → ℕ → (ℕ → Option ℕ) → Option ℕ → (ℕ → Option ℕ) × Option ℕ
fill zero i next free = (next, free)
fill (suc k) i next free = fill k (suc i) (update next i free) (some i)

-- The number of entries, for which the loop runs: `endIp - startIp` is a 32-bit difference. (For the
-- difference 2^32 - 1 the loop of the source never ends.)
abbrev pub entries : ℕ → ℕ → ℕ
entries start_ip end_ip = u32 (end_ip + 4294967296 - start_ip) + 1

-- `nwIpv4PoolMgrNew`. `memory` says whether the first `malloc` succeeds; the results of the others
-- are used unchecked and are taken to be good. The pointers of the store before are not read.
unfoldable pub new : Bool → ℕ → ℕ → ℕ → Option IpPool
unfolding fill
new memory start_ip end_ip mask =
    let (next, free) = fill (entries start_ip end_ip) 0 (λ _. none) none in
    if memory
    then some (record {
      start_ip = start_ip;
      end_ip = end_ip;
      mask = mask;
      size = entries start_ip end_ip;
      next = next;
      free_pool = free;
    })
    else none

-- The address of descriptor `i`, in network byte order.
abbrev pub address : IpPool → ℕ → ℕ
address p i = htonl (u32 (p.start_ip + i))

-- The test on the last byte of a fetched address.
unfoldable pub is_usable : ℕ → Bool
is_usable addr = not (htonl addr % 256 == 0) && not (htonl addr % 256 == 255)

-- How a call ends: `NW_OK` or `NW_FAILURE` with the address that is written, or never.
pub data Alloc : Type 0 where
  granted : ℕ → IpPool → Alloc
  exhausted : IpPool → Alloc
  out_of_fuel : Alloc

-- The loop `while(thiz->pFreePool)` of `nwIpv4PoolMgrAlloc`.
unfoldable pub alloc_loop : ℕ → IpPool → Alloc
alloc_loop zero p = out_of_fuel
alloc_loop (suc k) p = elim p.free_pool [
  | none ↦ exhausted p
  | some i ↦
      let popped : IpPool = record p { free_pool = p.next i } in
      let rest = alloc_loop k popped in
      if is_usable (address p i) then granted (address p i) popped else rest
]

-- One round for each descriptor and one for the test that ends the loop.
unfoldable pub alloc : IpPool → Alloc
unfolding alloc_loop is_usable
alloc p = alloc_loop (suc p.size) p

-- The index that `nwIpv4PoolMgrFree` computes from an address, a 32-bit difference.
abbrev pub index_of : IpPool → ℕ → ℕ
index_of p addr = u32 (htonl addr + 4294967296 - p.start_ip)

-- `nwIpv4PoolMgrFree`. `none` is an access outside of the table; the source does not check the index.
unfoldable pub free : IpPool → ℕ → Option IpPool
free p addr =
    let i = index_of p addr in
    if addr == 0
    then some p
    else if ltb i p.size
    then some (record p { next = update p.next i p.free_pool; free_pool = some i })
    else none
