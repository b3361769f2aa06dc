-- ===== src/Gtpv2c/Msg.antt =====
-- nw-gtpv2c/src/NwGtpv2cMsg.c: messages. A message owns its buffer `msgBuf`, a function of the offset;
-- pointers into it are offsets. The tables `isIeValid` and `pIe` are indexed by type * 4 + instance.
-- `pMsgStart` is never used, and `hStack` only finds the allocator and the log.
pub mod Encode
pub mod Decode
pub mod Header
pub mod Grouped
mod Tests
use Prim.Native.Nat.{bit_or}
use linkerepc.Prelude.{
  ℕ, ◌+◌, ◌-◌, ◌*◌, ◌/◌, ◌%◌, Bool, true, false, Option, none, some, List, [], ◌∷◌, ◌==◌,
  if◌then◌else◌, u8, u16, u32, htons, htonl, map,
}
use linkerepc.Bytes.{Buffer, store8, store16, store32, load32, copy}

pub record Msg : Type 0 where
  pub version : ℕ
  pub teid_present : ℕ
  pub msg_type : ℕ
  pub msg_len : ℕ
  pub teid : ℕ
  pub seq_num : ℕ
  -- `groupedIeEncodeStack`: the offsets of the open grouped IEs and how many there are
  pub open_ie : ℕ → ℕ
  pub top : ℕ
  pub is_ie_valid : ℕ → Bool
  pub p_ie : ℕ → ℕ
  pub msg_buf : Buffer

-- The storage of a message: the head of the free list `gpGtpv2cMsgPool`, with what the last message
-- left in it, or what the allocator returns, `none` for NULL.
abbrev pub storage : List Msg → Option Msg → Option Msg × List Msg
storage [] fresh = (fresh, [])
storage (m ∷ pool) fresh = (some m, pool)

-- `nwGtpv2cMsgNew`, for the storage: the other fields keep what is in it.
unfoldable pub init : Msg → ℕ → ℕ → ℕ → ℕ → Msg
init m teid_present msg_type teid seq_num = record m {
  version = 2;
  teid_present = teid_present;
  msg_type = msg_type;
  teid = teid;
  seq_num = seq_num;
  msg_len = 12 - (if teid_present == 0 then 4 else 0);
  top = 0;
}

abbrev pub map_first : (Msg → Msg) → Option Msg × List Msg → Option Msg × List Msg
map_first f (none, pool) = (none, pool)
map_first f (some m, pool) = (some (f m), pool)

-- The message, `none` for NW_FAILURE, and the pool.
unfoldable pub new : List Msg → Option Msg → ℕ → ℕ → ℕ → ℕ → Option Msg × List Msg
unfolding init
new pool fresh teid_present msg_type teid seq_num =
    map_first (λ m. init m teid_present msg_type teid seq_num) (storage pool fresh)

-- The offset of the sequence number in a message whose first byte is `flags`.
abbrev pub seq_offset : ℕ → ℕ
seq_offset flags = if flags / 8 % 2 == 0 then 4 else 8

-- `nwGtpv2cMsgFromBufferNew`, for the storage. The three bytes of the sequence number are copied to
-- the addresses after the first byte of `seqNum`, which keeps what is in it; the TEID keeps it too,
-- if the header has none.
unfoldable pub receive : Msg → Buffer → ℕ → Msg
receive m buf len =
    let flags = buf 0 in
    let off = seq_offset flags in
    record m {
      msg_buf = copy m.msg_buf 0 buf len;
      msg_len = u16 len;
      version = flags / 32 % 8;
      teid_present = flags / 8 % 2;
      msg_type = buf 1;
      teid = if flags / 8 % 2 == 0 then m.teid else htonl (load32 buf 4);
      seq_num =
          htonl
            (m.seq_num % 256 + 256 * buf off + 65536 * buf (off + 1) + 16777216 * buf (off + 2));
    }

unfoldable pub from_buffer_new : List Msg → Option Msg → Buffer → ℕ → Option Msg × List Msg
unfolding receive
from_buffer_new pool fresh buf len = map_first (λ m. receive m buf len) (storage pool fresh)

-- `nwGtpv2cMsgDelete`: the message goes to the head of the pool.
unfoldable pub delete : List Msg → Msg → List Msg
delete pool m = m ∷ pool

-- `nwGtpv2cMsgSetTeid`, `nwGtpv2cMsgSetTeidPresent` and `nwGtpv2cMsgSetSeqNumber`
unfoldable pub set_teid : Msg → ℕ → Msg
set_teid m teid = record m { teid = teid }

unfoldable pub set_teid_present : Msg → ℕ → Msg
set_teid_present m teid_present = record m { teid_present = teid_present }

unfoldable pub set_seq_number : Msg → ℕ → Msg
set_seq_number m seq_num = record m { seq_num = seq_num }

-- The header that `nwGtpv2cCreateAndSendMsg` (NwGtpv2c.c) writes before it sends `msg_len` bytes of
-- the buffer. `msgLen - 4` is cut to 16 bits.
unfoldable pub write_header : Msg → ℕ → Msg
write_header m seq_num =
    let b1 = store8 m.msg_buf 0 (u8 (bit_or (m.version * 32) (m.teid_present * 8))) in
    let b2 = store8 b1 1 m.msg_type in
    let b3 = store16 b2 2 (htons (u16 (m.msg_len + 65532))) in
    let seq = htonl (u32 (seq_num * 256)) in
    record m {
      msg_buf =
          if m.teid_present == 0
          then store32 b3 4 seq
          else store32 (store32 b3 4 (htonl m.teid)) 8 seq;
    }
