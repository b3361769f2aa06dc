-- ===== src/Gtpv2c/Msg/Decode.antt =====
-- nw-gtpv2c/src/NwGtpv2cMsg.c: reading a message and the IEs that the parser found in it.
pub mod RoundTrip
use linkerepc.Prelude.{
  ℕ, zero, suc, ◌+◌, ◌-◌, ◌*◌, ◌/◌, ◌%◌, Bool, true, false, Option, none, some, ◌==◌, if◌then◌else◌,
  ltb, leb, not, u8, u16, u32, htons, htonl,
}
use linkerepc.Bytes.{Buffer, load16, load32, copy}
use linkerepc.Gtpv2c.Msg.{Msg}

-- `nwGtpv2cMsgGetTeid`, `nwGtpv2cMsgGetTeidPresent`, `nwGtpv2cMsgGetSeqNumber`,
-- `nwGtpv2cMsgGetMsgType` and `nwGtpv2cMsgGetLength`
unfoldable pub get_teid : Msg → ℕ
get_teid m = m.teid

unfoldable pub get_teid_present : Msg → ℕ
get_teid_present m = m.teid_present

unfoldable pub get_seq_number : Msg → ℕ
get_seq_number m = m.seq_num

unfoldable pub get_msg_type : Msg → ℕ
get_msg_type m = m.msg_type

unfoldable pub get_length : Msg → ℕ
get_length m = m.msg_len

-- NW_OK with what is written to the caller, NW_GTPV2C_IE_MISSING, NW_GTPV2C_IE_INCORRECT, and the
-- failed assertion that the instance is at most 4.
pub data Get (A : Type 0) : Type 0 where
  found : A → Get A
  missing incorrect aborts : Get A

-- `pIe[type][instance]`, the offset of the IE (0 for NULL), and the flag beside it.
abbrev pub slot : ℕ → ℕ → ℕ
slot type instance_no = type * 4 + instance_no

abbrev pub ie_at : Msg → ℕ → ℕ → ℕ
ie_at m type instance_no = m.p_ie (slot type instance_no)

abbrev pub ie_length : Msg → ℕ → ℕ
ie_length m off = htons (load16 m.msg_buf (off + 1))

-- `nwGtpv2cMsgIsIePresent`, which reads the pointer and not the flag.
unfoldable pub is_ie_present : Msg → ℕ → ℕ → Bool
is_ie_present m type instance_no = not (ie_at m type instance_no == 0)

-- What the getters share: the assertion and the test of the flag.
abbrev pub with_ie : {A : Type 0} → Msg → ℕ → ℕ → (ℕ → Get A) → Get A
with_ie m type instance_no read =
    if leb instance_no 4
    then (if m.is_ie_valid (slot type instance_no)
        then read (ie_at m type instance_no)
        else missing)
    else aborts

-- `nwGtpv2cMsgGetIeTV1`, `nwGtpv2cMsgGetIeTV2` and `nwGtpv2cMsgGetIeTV4`
unfoldable pub get_ie_tv1 : Msg → ℕ → ℕ → Get ℕ
get_ie_tv1 m type instance_no =
    with_ie m type instance_no
      λ off. if ie_length m off == 1 then found (m.msg_buf (off + 4)) else incorrect

unfoldable pub get_ie_tv2 : Msg → ℕ → ℕ → Get ℕ
get_ie_tv2 m type instance_no =
    with_ie m type instance_no
      λ off. if ie_length m off == 2 then found (htons (load16 m.msg_buf (off + 4))) else incorrect

unfoldable pub get_ie_tv4 : Msg → ℕ → ℕ → Get ℕ
get_ie_tv4 m type instance_no =
    with_ie m type instance_no
      λ off. if ie_length m off == 4 then found (htonl (load32 m.msg_buf (off + 4))) else incorrect

-- `nwGtpv2cMsgGetIeTlv`: the bytes that are copied to `pVal` are those of the message from the
-- offset on, as many as the length.
unfoldable pub get_ie_tlv : Msg → ℕ → ℕ → ℕ → Buffer → Get (Buffer × ℕ)
get_ie_tlv m type instance_no max_len val = with_ie m type instance_no λ off.
    if leb (ie_length m off) max_len
    then found (copy val 0 (λ k. m.msg_buf (off + 4 + k)) (ie_length m off), ie_length m off)
    else missing

-- `nwGtpv2cMsgGetIeTlvP`: the offset of the value and the length.
unfoldable pub get_ie_tlv_p : Msg → ℕ → ℕ → Get (ℕ × ℕ)
get_ie_tlv_p m type instance_no = with_ie m type instance_no λ off. found (off + 4, ie_length m off)

-- `nwGtpv2cMsgGetIeCause`: cause, flags, and what is written to `offendingIeType`, if anything is.
-- Nothing is ever written to `offendingIeInstance`. The length is compared as it is stored.
unfoldable pub get_ie_cause : Msg → ℕ → Get (ℕ × ℕ × Option ℕ)
get_ie_cause m instance_no = with_ie m 2 instance_no λ off. found (
  m.msg_buf (off + 4),
  m.msg_buf (off + 5),
  (if load16 m.msg_buf (off + 1) == 6 then some (m.msg_buf (off + 8)) else none),
)

-- `nwGtpv2cMsgGetIeFteid`: interface type, TEID, and what is written to `ipv4Addr`, if anything is.
-- Nothing is ever written to `pIpv6Addr`, and the length is not read.
unfoldable pub get_ie_fteid : Msg → ℕ → Get (ℕ × ℕ × Option ℕ)
get_ie_fteid m instance_no = with_ie m 87 instance_no λ off. found (
  m.msg_buf (off + 4) % 32,
  htonl (load32 m.msg_buf (off + 5)),
  (if m.msg_buf (off + 4) / 128 % 2 == 0 then none else some (htonl (load32 m.msg_buf (off + 9)))),
)
