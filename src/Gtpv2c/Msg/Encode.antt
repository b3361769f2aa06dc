-- ===== src/Gtpv2c/Msg/Encode.antt =====
-- nw-gtpv2c/src/NwGtpv2cMsg.c: adding information elements (IEs) to a message. An IE is its type,
-- its length in network order, its instance, and the value. The source does not check that an IE
-- fits into the 1024 bytes of the buffer.
use Prim.Native.Nat.{bit_or}
use linkerepc.Prelude.{
  ℕ, ◌+◌, ◌-◌, ◌%◌, Option, none, some, ◌==◌, if◌then◌else◌, ltb, u16, htons, htonl,
}
use linkerepc.Bytes.{Buffer, store8, store16, store32, load16, copy}
use linkerepc.Gtpv2c.Msg.{Msg}

-- The type, the length field and the instance of an IE at an offset. `l` is the word that is stored.
abbrev pub ie_header : Buffer → ℕ → ℕ → ℕ → ℕ → Buffer
ie_header b off type l instance_no =
    store8 (store16 (store8 b off type) (off + 1) l) (off + 3) (instance_no % 256)

-- `nwGtpv2cMsgAddIeTV1`
unfoldable pub add_ie_tv1 : Msg → ℕ → ℕ → ℕ → Msg
add_ie_tv1 m type instance_no value = record m {
  msg_buf = store8 (ie_header m.msg_buf m.msg_len type (htons 1) instance_no) (m.msg_len + 4) value;
  msg_len = u16 (m.msg_len + 5);
}

-- `nwGtpv2cMsgAddIeTV2`
unfoldable pub add_ie_tv2 : Msg → ℕ → ℕ → ℕ → Msg
add_ie_tv2 m type instance_no value = record m {
  msg_buf =
      store16 (ie_header m.msg_buf m.msg_len type (htons 2) instance_no) (m.msg_len + 4)
        (htons value);
  msg_len = u16 (m.msg_len + 6);
}

-- `nwGtpv2cMsgAddIeTV4`
unfoldable pub add_ie_tv4 : Msg → ℕ → ℕ → ℕ → Msg
add_ie_tv4 m type instance_no value = record m {
  msg_buf =
      store32 (ie_header m.msg_buf m.msg_len type (htons 4) instance_no) (m.msg_len + 4)
        (htonl value);
  msg_len = u16 (m.msg_len + 8);
}

-- `nwGtpv2cMsgAddIe`, with the value's bytes behind `pVal`.
unfoldable pub add_ie : Msg → ℕ → ℕ → ℕ → Buffer → Msg
add_ie m type length instance_no value = record m {
  msg_buf =
      copy (ie_header m.msg_buf m.msg_len type (htons length) instance_no) (m.msg_len + 4) value
        length;
  msg_len = u16 (m.msg_len + 4 + length);
}

-- `nwGtpv2cMsgGroupedIeStart`: the length field holds the message's length, in host order, until the
-- end. `none` is the failed assertion on the depth, which is at most 2.
unfoldable pub grouped_ie_start : Msg → ℕ → ℕ → Option Msg
grouped_ie_start m type instance_no =
    let len = u16 (m.msg_len + 4) in
    if ltb m.top 2
    then some (record m {
      msg_buf = ie_header m.msg_buf m.msg_len type len instance_no;
      msg_len = len;
      open_ie = λ k. if m.top == k then m.msg_len else m.open_ie k;
      top = m.top + 1;
    })
    else none

-- `nwGtpv2cMsgGroupedIeEnd`. `none` is the failed assertion that a grouped IE is open.
unfoldable pub grouped_ie_end : Msg → Option Msg
grouped_ie_end m =
    let off = m.open_ie (m.top - 1) in
    if ltb 0 m.top
    then some (record m {
      top = m.top - 1;
      msg_buf =
          store16 m.msg_buf (off + 1)
            (htons (u16 (m.msg_len + 65536 - load16 m.msg_buf (off + 1))));
    })
    else none

-- `nwGtpv2cMsgAddIeCause`: the bytes on the stack are not initialised.
unfoldable pub add_ie_cause : Msg → ℕ → ℕ → ℕ → ℕ → ℕ → Buffer → Msg
unfolding add_ie
add_ie_cause m instance_no cause_value bit_flags offending_type offending_instance stack =
    let short = store8 (store8 stack 0 cause_value) 1 bit_flags in
    let long =
      store8 (store8 (store8 (store8 short 2 offending_type) 3 0) 4 0) 5
        (offending_instance % 16) in
    if offending_type == 0 then add_ie m 2 2 instance_no short else add_ie m 2 6 instance_no long

-- The bytes of a fully qualified TEID and their number. `ipv6` is `none` for NULL.
abbrev pub fteid_value : ℕ → ℕ → ℕ → Option Buffer → Buffer → Buffer × ℕ
fteid_value if_type teid_or_gre_key ipv4_addr ipv6 stack =
    let v4 = if ipv4_addr == 0 then 0 else 128 in
    let after_v4 = if ipv4_addr == 0 then 5 else 9 in
    let b1 = store32 (store8 stack 0 (bit_or (if_type % 32) v4)) 1 (htonl teid_or_gre_key) in
    let b2 = if ipv4_addr == 0 then b1 else store32 b1 5 (htonl ipv4_addr) in
    elim ipv6 [
      | none ↦ (b2, after_v4)
      | some addr ↦ (
        copy (store8 b2 0 (bit_or (bit_or (if_type % 32) v4) 64)) after_v4 addr 16,
        after_v4 + 16,
      )
    ]

-- `nwGtpv2cMsgAddIeFteid`
unfoldable pub add_ie_fteid : Msg → ℕ → ℕ → ℕ → ℕ → Option Buffer → Buffer → Msg
unfolding add_ie
add_ie_fteid m instance_no if_type teid_or_gre_key ipv4_addr ipv6 stack =
    let (value, length) = fteid_value if_type teid_or_gre_key ipv4_addr ipv6 stack in
    add_ie m 87 length instance_no value
