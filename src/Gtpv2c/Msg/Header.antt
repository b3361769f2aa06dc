-- ===== src/Gtpv2c/Msg/Header.antt =====
-- The header of a message, written by one stack and read by another.
use Prim.Native.Nat.{bit_or}
use linkerepc.Prelude.{
  ℕ, ◌+◌, ◌*◌, ◌/◌, ◌%◌, ◌<◌, ◌≡◌, refl, arith, ◌==◌, if◌then◌else◌, u8, htonl, ap, ◌∙◌, subst, inl,
  inr, all_below-holds, le-cases, eqb-holds, Bool-cases,
}
use linkerepc.Bytes.{Buffer, load32, store16, store32}
use linkerepc.Gtpv2c.Msg.{Msg, write_header, receive, seq_offset}

abbrev flags : ℕ → ℕ → ℕ
flags version present = u8 (bit_or (version * 32) (present * 8))

flags-version : (v p : ℕ) → v < 8 → p < 2 → flags v p / 32 % 8 ≡ v
flags-version v p h l =
    let zero_bit = all_below-holds 8 (λ x. flags x 0 / 32 % 8 == x) refl v h in
    let one_bit = all_below-holds 8 (λ x. flags x 1 / 32 % 8 == x) refl v h in
    elim (le-cases p 0) [
      | inl z ↦
          let e : 0 ≡ p = omega arith in
          subst (λ x. flags v x / 32 % 8 ≡ v) e (eqb-holds _ _ zero_bit)
      | inr o ↦
          let e : 1 ≡ p = omega arith in
          subst (λ x. flags v x / 32 % 8 ≡ v) e (eqb-holds _ _ one_bit)
    ]

flags-present : (v p : ℕ) → v < 8 → p < 2 → flags v p / 8 % 2 ≡ p
flags-present v p h l =
    let zero_bit = all_below-holds 8 (λ x. flags x 0 / 8 % 2 == 0) refl v h in
    let one_bit = all_below-holds 8 (λ x. flags x 1 / 8 % 2 == 1) refl v h in
    elim (le-cases p 0) [
      | inl z ↦
          let e : 0 ≡ p = omega arith in
          subst (λ x. flags v x / 8 % 2 ≡ x) e (eqb-holds _ _ zero_bit)
      | inr o ↦
          let e : 1 ≡ p = omega arith in
          subst (λ x. flags v x / 8 % 2 ≡ x) e (eqb-holds _ _ one_bit)
    ]

module _ (m r : Msg) (seq_num len : ℕ) where
  abbrev sent : Buffer
  sent = (write_header m seq_num).msg_buf

  sent-flags : sent 0 ≡ flags m.version m.teid_present
  unfolding write_header store16 store32
  sent-flags = ground arith

  sent-type : sent 1 ≡ m.msg_type
  unfolding write_header store16 store32
  sent-type = ground arith

  sent-teid : m.teid_present ≡ 1 → m.teid < 4294967296 → htonl (load32 sent 4) ≡ m.teid
  unfolding write_header store32 load32 htonl
  sent-teid h l = ground arith

  -- The sequence number's bytes, the highest first.
  sent-seq :
      (off : ℕ)
      → off ≡ (if m.teid_present == 0 then 4 else 8)
      → seq_num < 16777216
      → (sent off ≡ seq_num / 65536)
        × (sent (off + 1) ≡ seq_num / 256 % 256)
        × (sent (off + 2) ≡ seq_num % 256)
  unfolding write_header store16 store32 htonl
  sent-seq off e l = elim (Bool-cases (m.teid_present == 0)) [
    | inl t ↦ (ground arith, ground arith, ground arith)
    | inr t ↦ (ground arith, ground arith, ground arith)
  ]

teid_read :
    (m r : Msg) (seq_num len : ℕ)
    → m.teid_present < 2
    → m.teid < 4294967296
    → (if m.teid_present == 0 then r.teid else htonl (load32 (write_header m seq_num).msg_buf 4))
      ≡ (if m.teid_present == 0 then r.teid else m.teid)
teid_read m r seq_num len h l = elim (Bool-cases (m.teid_present == 0)) [
  | inl e ↦ rw e refl
  | inr e ↦ rw e (sent-teid m r seq_num len (ground arith) l)
]

seq-value :
    (stale a b c n : ℕ)
    → n < 16777216
    → stale < 256
    → a ≡ n / 65536
    → b ≡ n / 256 % 256
    → c ≡ n % 256
    → htonl (stale + 256 * a + 65536 * b + 16777216 * c) ≡ n + stale * 16777216
unfolding htonl
seq-value stale a b c n h s p q r = omega arith

-- A receiver reads the version, the flag, the type, the TEID if there is one, and the sequence number
-- as they were sent, but for the top byte of the sequence number, in which the low byte of the last
-- sequence number that the storage held is left.
pub receive-write_header :
    (m r : Msg) (seq_num len : ℕ)
    → m.version < 8
    → m.teid_present < 2
    → m.teid < 4294967296
    → seq_num < 16777216
    → let got = receive r (write_header m seq_num).msg_buf len in
      (got.version ≡ m.version)
      × (got.teid_present ≡ m.teid_present)
      × (got.msg_type ≡ m.msg_type)
      × (got.teid ≡ (if m.teid_present == 0 then r.teid else m.teid))
      × (got.seq_num ≡ seq_num + r.seq_num % 256 * 16777216)
unfolding receive
receive-write_header m r seq_num len hv ht hd hs =
    let b = (write_header m seq_num).msg_buf in
    let flag : b 0 / 8 % 2 ≡ m.teid_present =
      ap (λ x. x / 8 % 2) (sent-flags m r seq_num len)
      ∙ flags-present m.version m.teid_present hv ht in
    let (x, y, z) =
      sent-seq m r seq_num len (seq_offset (b 0)) (ap (λ x. if x == 0 then 4 else 8) flag) hs in
    (
      ap (λ x. x / 32 % 8) (sent-flags m r seq_num len)
          ∙ flags-version m.version m.teid_present hv ht,
      flag,
      sent-type m r seq_num len,
      ap (λ x. if x == 0 then r.teid else htonl (load32 b 4)) flag
          ∙ teid_read m r seq_num len ht hd,
      seq-value (r.seq_num % 256) (b (seq_offset (b 0))) (b (seq_offset (b 0) + 1))
          (b (seq_offset (b 0) + 2)) seq_num hs (omega arith) x y z,
    )
