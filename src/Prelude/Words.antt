-- ===== src/Prelude/Words.antt =====
-- Machine words: casts, and the byte order of a little-endian host (x86).
use Prim.Native.Nat.{ℕ, ◌+◌, ◌*◌, ◌/◌, ◌%◌, ◌<◌}
use mathlib.Core.Path.{◌≡◌}
use native.Mathlib.Omega.{arith}

abbrev pub u8 : ℕ → ℕ
u8 n = n % 256

abbrev pub u16 : ℕ → ℕ
u16 n = n % 65536

abbrev pub u32 : ℕ → ℕ
u32 n = n % 4294967296

-- `htons` and `htonl`, which are also `ntohs` and `ntohl`: they reverse the bytes of the word.
unfoldable pub htons : ℕ → ℕ
htons x = x % 256 * 256 + x / 256 % 256

unfoldable pub htonl : ℕ → ℕ
htonl x = x % 256 * 16777216 + x / 256 % 256 * 65536 + x / 65536 % 256 * 256 + x / 16777216 % 256

pub htons-htons : (x : ℕ) → x < 65536 → htons (htons x) ≡ x
unfolding htons
htons-htons x h = omega arith

pub htonl-htonl : (x : ℕ) → x < 4294967296 → htonl (htonl x) ≡ x
unfolding htonl
htonl-htonl x h = omega arith
