-- ===== src/Gtpv1u/Msg/Header.antt =====
-- The header of a message, written by one stack and read by another.
use Prim.Native.Nat.{bit_or}
use linkerepc.Prelude.{
  ℕ, ◌+◌, ◌*◌, ◌/◌, ◌%◌, ◌<◌, ◌≡◌, refl, arith, ◌==◌, if◌then◌else◌, u8, htons, htonl, ap, ap₂,
  ◌&&◌, ◌∙◌, all_below, all_below-holds, eqb-holds, Bool, true, false,
}
use linkerepc.Bytes.{Buffer, load16, load32, store16, store32}
use linkerepc.Gtpv1u.Msg.{Msg, write_header, receive, is_bare}

abbrev sums : ℕ → ℕ → ℕ → ℕ → ℕ → Bool
sums v p e s n =
    u8 (bit_or (bit_or (bit_or (bit_or (v * 32) (p * 16)) (e * 4)) (s * 2)) n)
    == v * 32 + p * 16 + e * 4 + s * 2 + n

-- The fields of the first byte do not overlap.
flags-sum :
    (v p e s n : ℕ)
    → v < 8
    → p < 2
    → e < 2
    → s < 2
    → n < 2
    → u8 (bit_or (bit_or (bit_or (bit_or (v * 32) (p * 16)) (e * 4)) (s * 2)) n)
      ≡ v * 32 + p * 16 + e * 4 + s * 2 + n
flags-sum v p e s n hv hp he hs hn =
    let a =
      all_below-holds 8
        (λ v. all_below 2 λ p. all_below 2 λ e. all_below 2 λ s. all_below 2 λ n. sums v p e s n)
        refl v hv in
    let b =
      all_below-holds 2 (λ p. all_below 2 λ e. all_below 2 λ s. all_below 2 λ n. sums v p e s n) a p
        hp in
    let c = all_below-holds 2 (λ e. all_below 2 λ s. all_below 2 λ n. sums v p e s n) b e he in
    let d = all_below-holds 2 (λ s. all_below 2 λ n. sums v p e s n) c s hs in
    eqb-holds _ _ (all_below-holds 2 (λ n. sums v p e s n) d n hn)

-- A message whose fields fit into their places in the header.
pub record IsSendable (m : Msg) : Type 0 where
  pub version : m.version < 8
  pub protocol_type : m.protocol_type < 2
  pub ext_hdr_flag : m.ext_hdr_flag < 2
  pub seq_num_flag : m.seq_num_flag < 2
  pub npdu_num_flag : m.npdu_num_flag < 2
  pub msg_type : m.msg_type < 256
  pub teid : m.teid < 4294967296
  pub seq_num : m.seq_num < 65536
  pub npdu_num : m.npdu_num < 256
  pub next_ext_hdr_type : m.next_ext_hdr_type < 256

module _ (m : Msg) (h : IsSendable m) where
  abbrev sent : Buffer
  sent = (write_header m).msg_buf

  sent-first :
      sent 0
      ≡ m.version * 32
        + m.protocol_type * 16
        + m.ext_hdr_flag * 4
        + m.seq_num_flag * 2
        + m.npdu_num_flag
  unfolding write_header store16 store32
  sent-first = ground (
    arith,
    flags-sum m.version m.protocol_type m.ext_hdr_flag m.seq_num_flag m.npdu_num_flag h.version
        h.protocol_type h.ext_hdr_flag h.seq_num_flag h.npdu_num_flag,
  )

  sent-type : sent 1 ≡ m.msg_type
  unfolding write_header store16 store32
  sent-type = ground (arith, h.msg_type)

  sent-teid : htonl (load32 sent 4) ≡ m.teid
  unfolding write_header store16 store32 load32 htonl
  sent-teid = ground (arith, h.teid)

  sent-seq :
      is_bare m ≡ false → htons (load16 sent 8) ≡ (if m.seq_num_flag == 0 then 0 else m.seq_num)
  unfolding write_header store16 load16 htons
  sent-seq e = ground (arith, h.seq_num)

  sent-npdu : is_bare m ≡ false → sent 10 ≡ 0
  unfolding write_header store16 htons
  sent-npdu e = ground (arith, h.npdu_num)

  sent-ext : is_bare m ≡ false → sent 11 ≡ 0
  unfolding write_header store16 htons
  sent-ext e = ground (arith, h.next_ext_hdr_type)

  sent-flags :
      (sent 0 / 32 % 8 ≡ m.version)
      × (sent 0 / 16 % 2 ≡ m.protocol_type)
      × (sent 0 / 4 % 2 ≡ m.ext_hdr_flag)
      × (sent 0 / 2 % 2 ≡ m.seq_num_flag)
      × (sent 0 % 2 ≡ m.npdu_num_flag)
  sent-flags =
      let e = sent-first in
      let l = h.version in
      let p = h.protocol_type in
      let q = h.ext_hdr_flag in
      let s = h.seq_num_flag in
      let n = h.npdu_num_flag in (omega arith, omega arith, omega arith, omega arith, omega arith)

bare-order :
    (e s n : ℕ) → ((e == 0) && ((s == 0) && (n == 0))) ≡ ((s == 0) && ((e == 0) && (n == 0)))
bare-order e s n = ground arith

-- A receiver reads the flags, the type and the TEID of a message as they were sent, and its sequence
-- number, which is 0 if it has none but another option; but whatever the number of the N-PDU and the type
-- of the extension header were, it reads 0. Without options it leaves the three as its storage held
-- them.
pub header_read_back :
    (m r : Msg) (len : ℕ)
    → IsSendable m
    → let got = receive r (write_header m).msg_buf len in
      (got.version ≡ m.version)
      × (got.protocol_type ≡ m.protocol_type)
      × (got.ext_hdr_flag ≡ m.ext_hdr_flag)
      × (got.seq_num_flag ≡ m.seq_num_flag)
      × (got.npdu_num_flag ≡ m.npdu_num_flag)
      × (got.msg_type ≡ m.msg_type)
      × (got.teid ≡ m.teid)
      × (got.seq_num
          ≡ (if is_bare m then r.seq_num else if m.seq_num_flag == 0 then 0 else m.seq_num))
      × (got.npdu_num ≡ (if is_bare m then r.npdu_num else 0))
      × (got.next_ext_hdr_type ≡ (if is_bare m then r.next_ext_hdr_type else 0))
unfolding receive
header_read_back m r len h =
    let (v, p, e, s, n) = sent-flags m h in
    let b = (write_header m).msg_buf in
    let bare : ((b 0 / 4 % 2 == 0) && ((b 0 / 2 % 2 == 0) && (b 0 % 2 == 0))) ≡ is_bare m =
      ap₂ (λ x y. (x == 0) && y) e (ap₂ (λ x y. (x == 0) && (y == 0)) s n)
      ∙ bare-order m.ext_hdr_flag m.seq_num_flag m.npdu_num_flag in
    let read : (stale got want : ℕ)
        → (is_bare m ≡ false → got ≡ want)
        → (if ((b 0 / 4 % 2 == 0) && ((b 0 / 2 % 2 == 0) && (b 0 % 2 == 0))) then stale else got)
          ≡ (if is_bare m then stale else want) =
      λ stale got want f.
        ap (λ c. if c then stale else got) bare ∙ choose (is_bare m) stale got want f in
    (
      v,
      p,
      e,
      s,
      n,
      sent-type m h,
      sent-teid m h,
      read r.seq_num _ _ (sent-seq m h),
      read r.npdu_num _ _ (sent-npdu m h),
      read r.next_ext_hdr_type _ _ (sent-ext m h),
    )
  where
    choose :
        (c : Bool) (stale got want : ℕ)
        → (c ≡ false → got ≡ want)
        → (if c then stale else got) ≡ (if c then stale else want)
    choose true stale got want f = refl
    choose false stale got want f = f refl
