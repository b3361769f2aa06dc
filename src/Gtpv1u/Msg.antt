-- ===== src/Gtpv1u/Msg.antt =====
-- nw-gtpv1u/src/NwGtpv1uMsg.c: messages, on a little-endian host, and the headers that NwGtpv1u.c and
-- NwGtpv1uTrxn.c write.
pub mod Header
pub mod Payload
use Prim.Native.Nat.{bit_or}
use linkerepc.Prelude.{
  ℕ, ◌+◌, ◌-◌, ◌*◌, ◌/◌, ◌%◌, Bool, true, ◌==◌, if◌then◌else◌, ◌&&◌, not, u8, u16, htons, htonl,
}
use linkerepc.Bytes.{Buffer, store8, store16, store32, load16, load32, copy}

-- `NwGtpv1uMsgT`
pub record Msg : Type 0 where
  pub version : ℕ
  pub protocol_type : ℕ
  pub ext_hdr_flag : ℕ
  pub seq_num_flag : ℕ
  pub npdu_num_flag : ℕ
  pub msg_type : ℕ
  pub msg_len : ℕ
  pub teid : ℕ
  pub seq_num : ℕ
  pub npdu_num : ℕ
  pub next_ext_hdr_type : ℕ
  pub msg_buf : Buffer

-- The header has four more bytes if one of the flags is set.
abbrev pub header_size : ℕ → ℕ → ℕ → ℕ
header_size s n e = if (s == 0) && ((n == 0) && (e == 0)) then 8 else 12

abbrev pub header_length : Msg → ℕ
header_length m = header_size m.seq_num_flag m.npdu_num_flag m.ext_hdr_flag

-- The arguments of `nwGtpv1uMsgNew`.
pub record NewMsg : Type 0 where
  pub seq_num_flag : ℕ
  pub npdu_num_flag : ℕ
  pub ext_hdr_flag : ℕ
  pub msg_type : ℕ
  pub teid : ℕ
  pub seq_num : ℕ
  pub npdu_num : ℕ
  pub next_ext_header : ℕ

-- `nwGtpv1uMsgNew` on the storage `r`: the TEID is not set, and the optional fields are only with their flag.
unfoldable pub init : Msg → NewMsg → Msg
init r a = record {
  version = 1;
  protocol_type = 1;
  ext_hdr_flag = a.ext_hdr_flag;
  seq_num_flag = a.seq_num_flag;
  npdu_num_flag = a.npdu_num_flag;
  msg_type = a.msg_type;
  msg_len = header_size a.seq_num_flag a.npdu_num_flag a.ext_hdr_flag;
  teid = r.teid;
  seq_num = if a.seq_num_flag == 0 then r.seq_num else a.seq_num;
  npdu_num = if a.npdu_num_flag == 0 then r.npdu_num else a.npdu_num;
  next_ext_hdr_type = if a.ext_hdr_flag == 0 then r.next_ext_hdr_type else a.next_ext_header;
  msg_buf = r.msg_buf;
}

-- `nwGtpv1uGpduMsgNew` on the storage `r`
unfoldable pub init_gpdu : Msg → ℕ → ℕ → ℕ → Buffer → ℕ → Msg
init_gpdu r teid seq_num_flag seq_num tpdu tpdu_length =
    let flag = if seq_num_flag == 0 then 0 else 1 in
    let header = header_size flag 0 0 in
    record {
      version = 1;
      protocol_type = 1;
      ext_hdr_flag = 0;
      seq_num_flag = flag;
      npdu_num_flag = 0;
      msg_type = 255;
      msg_len = u16 (header + tpdu_length);
      teid = teid;
      seq_num = seq_num;
      npdu_num = 0;
      next_ext_hdr_type = 0;
      msg_buf = copy r.msg_buf header tpdu tpdu_length;
    }

-- `nwGtpv1uMsgFromBufferNew` on the storage `r`
unfoldable pub receive : Msg → Buffer → ℕ → Msg
receive r buf len =
    let bare = (buf 0 / 4 % 2 == 0) && ((buf 0 / 2 % 2 == 0) && (buf 0 % 2 == 0)) in
    record {
      version = buf 0 / 32 % 8;
      protocol_type = buf 0 / 16 % 2;
      ext_hdr_flag = buf 0 / 4 % 2;
      seq_num_flag = buf 0 / 2 % 2;
      npdu_num_flag = buf 0 % 2;
      msg_type = buf 1;
      msg_len = u16 len;
      teid = htonl (load32 buf 4);
      seq_num = if bare then r.seq_num else htons (load16 buf 8);
      npdu_num = if bare then r.npdu_num else buf 10;
      next_ext_hdr_type = if bare then r.next_ext_hdr_type else buf 11;
      msg_buf = copy r.msg_buf 0 buf len;
    }

-- `nwGtpv1uMsgSetTeid`, `nwGtpv1uMsgSetSeqNumber`, whose field has 16 bits, and the getters.
abbrev pub set_teid : Msg → ℕ → Msg
set_teid m teid = record m { teid = teid }

abbrev pub set_seq_number : Msg → ℕ → Msg
set_seq_number m seq_num = record m { seq_num = u16 seq_num }

abbrev pub get_teid : Msg → ℕ
get_teid m = m.teid

abbrev pub get_seq_number : Msg → ℕ
get_seq_number m = m.seq_num

abbrev pub get_msg_type : Msg → ℕ
get_msg_type m = m.msg_type

-- `nwGtpv1uMsgGetTpduLength`: the difference of the lengths, as an unsigned word of 32 bits.
unfoldable pub get_tpdu_length : Msg → ℕ
get_tpdu_length m = (m.msg_len + 4294967296 - header_length m) % 4294967296

-- `nwGtpv1uMsgGetTpduHandle`: the bytes from the payload on.
unfoldable pub get_tpdu_handle : Msg → Buffer
get_tpdu_handle m k = m.msg_buf (header_length m + k)

-- `nwGtpv1uMsgGetTpdu` into `dst`: the bytes, and their number.
unfoldable pub get_tpdu : Msg → Buffer → Buffer × ℕ
get_tpdu m dst = (copy dst 0 (get_tpdu_handle m) (get_tpdu_length m), get_tpdu_length m)

-- `nwGtpv1uMsgAddIeTV1`, `nwGtpv1uMsgAddIeTV2`, whose value has only one byte, `nwGtpv1uMsgAddIeTV4`
unfoldable pub add_ie_tv1 : Msg → ℕ → ℕ → Msg
add_ie_tv1 m type value = record m {
  msg_buf = store8 (store8 m.msg_buf m.msg_len type) (m.msg_len + 1) value;
  msg_len = u16 (m.msg_len + 2);
}

unfoldable pub add_ie_tv2 : Msg → ℕ → ℕ → Msg
add_ie_tv2 m type value = record m {
  msg_buf = store8 (store8 m.msg_buf m.msg_len type) (m.msg_len + 1) (u8 (htons value));
  msg_len = u16 (m.msg_len + 2);
}

unfoldable pub add_ie_tv4 : Msg → ℕ → ℕ → Msg
add_ie_tv4 m type value = record m {
  msg_buf = store32 (store8 m.msg_buf m.msg_len type) (m.msg_len + 1) (htonl value);
  msg_len = u16 (m.msg_len + 5);
}

-- `nwGtpv1uMsgAddIe`: `pIe + 4` is four structures of three bytes behind the start of the IE.
unfoldable pub add_ie : Msg → ℕ → ℕ → Buffer → Msg
add_ie m type length value = record m {
  msg_buf =
      copy (store16 (store8 m.msg_buf m.msg_len type) (m.msg_len + 1) (htons length))
        (m.msg_len + 12) value length;
  msg_len = u16 (m.msg_len + (4 + length));
}

-- The first byte of a header.
abbrev pub first_byte : Msg → ℕ
first_byte m = u8 (
    bit_or
      (bit_or (bit_or (bit_or (m.version * 32) (m.protocol_type * 16)) (m.ext_hdr_flag * 4))
        (m.seq_num_flag * 2))
      m.npdu_num_flag)

-- The last four bytes of a header.
abbrev pub write_options : Buffer → Bool → ℕ → ℕ → ℕ → Buffer
write_options b bare seq_num npdu_num ext =
    if bare then b else store8 (store8 (store16 b 8 seq_num) 10 npdu_num) 11 ext

abbrev pub fixed_header : Msg → Buffer
fixed_header m =
    store32
      (store16 (store8 (store8 m.msg_buf 0 (first_byte m)) 1 (u8 m.msg_type)) 2 (htons m.msg_len)) 4
      (htonl m.teid)

abbrev pub is_bare : Msg → Bool
is_bare m = (m.seq_num_flag == 0) && ((m.ext_hdr_flag == 0) && (m.npdu_num_flag == 0))

-- The header that `nwGtpv1uCreateAndSendMsg` writes into the message. The swapped numbers of N-PDU and
-- extension header are cut to a byte.
unfoldable pub write_header : Msg → Msg
write_header m = record m {
  msg_buf =
      write_options (fixed_header m) (is_bare m)
        (if m.seq_num_flag == 0 then 0 else htons m.seq_num)
        (if m.npdu_num_flag == 0 then 0 else u8 (htons m.npdu_num))
        (if m.ext_hdr_flag == 0 then 0 else u8 (htons m.next_ext_hdr_type));
}

-- The header that `nwGtpv1uTrxnCreateAndSendMsg` writes, with the number of the transaction; the bytes for
-- N-PDU and extension header are the flags.
unfoldable pub write_trxn_header : Msg → ℕ → Msg
write_trxn_header m seq_num = record m {
  msg_buf =
      write_options (fixed_header m) (is_bare m) (if m.seq_num_flag == 0 then 0 else htons seq_num)
        (if m.npdu_num_flag == 0 then 0 else u8 m.npdu_num_flag)
        (if m.ext_hdr_flag == 0 then 0 else m.ext_hdr_flag);
}
