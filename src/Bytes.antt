-- ===== src/Bytes.antt =====
-- Buffers of bytes, as functions of the offset, with the little-endian accesses of the host.
use linkerepc.Prelude.{
  ℕ, ◌+◌, ◌-◌, ◌*◌, ◌/◌, ◌%◌, ◌<◌, ◌≤◌, ◌≡◌, ◌≢◌, ◌⊎◌, arith, ◌==◌, if◌then◌else◌, leb, ltb, ◌&&◌,
  htons, htonl,
}

abbrev pub Buffer : Type 0
Buffer = ℕ → ℕ

abbrev pub store8 : Buffer → ℕ → ℕ → Buffer
store8 b off v j = if off == j then v else b j

-- A 16-bit and a 32-bit store through a cast pointer.
unfoldable pub store16 : Buffer → ℕ → ℕ → Buffer
store16 b off w = store8 (store8 b off (w % 256)) (off + 1) (w / 256 % 256)

unfoldable pub store32 : Buffer → ℕ → ℕ → Buffer
store32 b off w =
    store8
      (store8 (store8 (store8 b off (w % 256)) (off + 1) (w / 256 % 256)) (off + 2)
        (w / 65536 % 256))
      (off + 3) (w / 16777216 % 256)

unfoldable pub load16 : Buffer → ℕ → ℕ
load16 b off = b off + 256 * b (off + 1)

unfoldable pub load32 : Buffer → ℕ → ℕ
load32 b off = b off + 256 * b (off + 1) + 65536 * b (off + 2) + 16777216 * b (off + 3)

-- `memcpy(b + off, src, n)`
abbrev pub copy : Buffer → ℕ → Buffer → ℕ → Buffer
copy b off src n j = if leb off j && ltb j (off + n) then src (j - off) else b j

-- Numbers in network byte order read back as they were written.
pub load16-store16 :
    (b : Buffer) (off w : ℕ) → w < 65536 → htons (load16 (store16 b off (htons w)) off) ≡ w
unfolding load16 store16 htons
load16-store16 b off w h = ground arith

pub load32-store32 :
    (b : Buffer) (off w : ℕ) → w < 4294967296 → htonl (load32 (store32 b off (htonl w)) off) ≡ w
unfolding load32 store32 htonl
load32-store32 b off w h = ground arith

-- A store does not change the bytes around it.
pub store16-away : (b : Buffer) (off w j : ℕ) → j ≢ off → j ≢ off + 1 → store16 b off w j ≡ b j
unfolding store16
store16-away b off w j p q = ground arith

pub store32-away : (b : Buffer) (off w j : ℕ) → (j < off) ⊎ (off + 4 ≤ j) → store32 b off w j ≡ b j
unfolding store32
store32-away b off w j p = ground arith
