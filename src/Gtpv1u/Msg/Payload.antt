-- ===== src/Gtpv1u/Msg/Payload.antt =====
-- The payload of a G-PDU, from the sender's buffer to the receiver's.
use linkerepc.Prelude.{ℕ, ◌+◌, ◌<◌, ◌≤◌, ◌≡◌, refl, arith, ◌==◌, if◌then◌else◌, u16, ap, ap₂, ◌∙◌}
use linkerepc.Bytes.{Buffer, store16, store32}
use linkerepc.Gtpv1u.Msg.{
  is_bare, Msg, write_header, receive, init_gpdu, set_teid, get_tpdu_length, get_tpdu_handle,
  header_length, header_size,
}
use linkerepc.Gtpv1u.Msg.Header.{IsSendable, header_read_back}

-- A payload of `n` bytes that has been received under the TEID `key`.
pub record Carried (key number n : ℕ) (tpdu : Buffer) (got : Msg) : Type 0 where
  pub msg_type : got.msg_type ≡ 255
  pub teid : got.teid ≡ key
  pub seq_num : got.seq_num ≡ number
  pub length : get_tpdu_length got ≡ n
  pub bytes : (k : ℕ) → k < n → get_tpdu_handle got k ≡ tpdu k

tpdu_length-of :
    (got : Msg) (n : ℕ)
    → got.msg_len ≡ header_length got + n
    → got.msg_len < 65536
    → get_tpdu_length got ≡ n
unfolding get_tpdu_length
tpdu_length-of got n e l = ground arith

tpdu-at :
    (got : Msg) (h k : ℕ) → header_length got ≡ h → get_tpdu_handle got k ≡ got.msg_buf (h + k)
unfolding get_tpdu_handle
tpdu-at got h k e = ap (λ x. got.msg_buf (x + k)) e

-- Writing the header does not change what is behind it.
pub write_header-body :
    (m : Msg) (j : ℕ) → header_length m ≤ j → (write_header m).msg_buf j ≡ m.msg_buf j
unfolding write_header store16 store32
write_header-body m j l = ground arith

-- A G-PDU whose TEID is set when it is sent.
abbrev pub gpdu_of : Msg → ℕ → ℕ → ℕ → Buffer → ℕ → Msg
gpdu_of r teid seq_num_flag seq_num tpdu n =
    set_teid (init_gpdu r 0 seq_num_flag seq_num tpdu n) teid

module _ (r : Msg) (teid seq_num_flag seq_num : ℕ) (tpdu : Buffer) (n : ℕ) (ht : teid < 4294967296)
    (hs : seq_num < 65536) (hn : n + 12 < 65536) where
  abbrev gpdu : Msg
  gpdu = gpdu_of r teid seq_num_flag seq_num tpdu n

  flag_low : (if seq_num_flag == 0 then 0 else 1) < 2
  flag_low = ground arith

  gpdu-IsSendable : IsSendable gpdu
  unfolding init_gpdu
  gpdu-IsSendable = record {
    version = omega arith;
    protocol_type = omega arith;
    ext_hdr_flag = omega arith;
    seq_num_flag = flag_low;
    npdu_num_flag = omega arith;
    msg_type = omega arith;
    teid = ht;
    seq_num = hs;
    npdu_num = omega arith;
    next_ext_hdr_type = omega arith;
  }

  gpdu-len : gpdu.msg_len ≡ header_length gpdu + n
  unfolding init_gpdu
  gpdu-len = ground arith

  gpdu-body : (k : ℕ) → k < n → gpdu.msg_buf (header_length gpdu + k) ≡ tpdu k
  unfolding init_gpdu
  gpdu-body k l = ground arith

  abbrev sent : Msg
  sent = write_header gpdu

  header-same :
      (got : Msg)
      → got.seq_num_flag ≡ gpdu.seq_num_flag
      → got.npdu_num_flag ≡ gpdu.npdu_num_flag
      → got.ext_hdr_flag ≡ gpdu.ext_hdr_flag
      → header_length got ≡ header_length gpdu
  header-same got p q s =
      ap (λ x. header_size x got.npdu_num_flag got.ext_hdr_flag) p
      ∙ ap₂ (λ x y. header_size gpdu.seq_num_flag x y) q s

  read_buf :
      (r1 : Msg) (j : ℕ)
      → j < sent.msg_len
      → (receive r1 sent.msg_buf sent.msg_len).msg_buf j ≡ sent.msg_buf j
  unfolding receive
  read_buf r1 j l = ground arith

  read_len : (r1 : Msg) → (receive r1 sent.msg_buf sent.msg_len).msg_len ≡ u16 sent.msg_len
  unfolding receive
  read_len r1 = refl

  sent_len : sent.msg_len ≡ gpdu.msg_len
  unfolding write_header
  sent_len = refl

  gpdu_type : gpdu.msg_type ≡ 255
  unfolding init_gpdu
  gpdu_type = refl

  number_of :
      (r1 : Msg)
      → (if is_bare gpdu then r1.seq_num else if gpdu.seq_num_flag == 0 then 0 else gpdu.seq_num)
        ≡ (if seq_num_flag == 0 then r1.seq_num else seq_num)
  unfolding init_gpdu
  number_of r1 = ground arith

  -- The receiver's message.
  pub carried :
      (r1 : Msg)
      → Carried teid
          (if seq_num_flag == 0 then r1.seq_num else seq_num)
          n
          tpdu
          (receive r1 sent.msg_buf sent.msg_len)
  carried r1 =
      let got = receive r1 sent.msg_buf sent.msg_len in
      let (v, p, e, s, q, t, d, number, npdu, ext) =
        header_read_back gpdu r1 sent.msg_len gpdu-IsSendable in
      let header = header-same got s q e in
      let room : header_length gpdu ≤ 12 = ground arith in
      let total : gpdu.msg_len ≡ header_length gpdu + n = gpdu-len in
      let same : sent.msg_len ≡ gpdu.msg_len = sent_len in
      let len : got.msg_len ≡ header_length gpdu + n = read_len r1 ∙ omega arith in
      record {
        msg_type = t ∙ gpdu_type;
        teid = d;
        seq_num = number ∙ number_of r1;
        length = tpdu_length-of got n (omega arith) (omega arith);
        bytes = λ k l.
            tpdu-at got (header_length gpdu) k header
            ∙ read_buf r1 (header_length gpdu + k) (omega arith)
            ∙ write_header-body gpdu (header_length gpdu + k) (omega arith)
            ∙ gpdu-body k l;
      }
