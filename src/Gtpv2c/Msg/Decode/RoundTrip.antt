-- ===== src/Gtpv2c/Msg/Decode/RoundTrip.antt =====
-- An IE that is added to a message and found by the parser is read back.
use Prim.Native.Nat.{bit_or}
use native.Mathlib.Nat.{add-zero}
use linkerepc.Prelude.{
  all_below-holds, ℕ, ◌+◌, ◌-◌, ◌/◌, ◌%◌, ◌<◌, ◌≤◌, ◌≡◌, refl, arith, Bool, true, false, none, some,
  ◌==◌, if◌then◌else◌, htons, htonl, ap, ◌∙◌,
}
use linkerepc.Bytes.{Buffer, load16, load32, store16, store32}
use linkerepc.Gtpv2c.Msg.{Msg}
use linkerepc.Gtpv2c.Msg.Encode.{
  add_ie_tv1, add_ie_tv2, add_ie_tv4, add_ie, add_ie_cause, add_ie_fteid, fteid_value,
}
use linkerepc.Gtpv2c.Msg.Decode.{
  found, slot, get_ie_tv1, get_ie_tv2, get_ie_tv4, get_ie_cause, get_ie_fteid,
}

-- A receiver of the bytes of `m`, whose parser found the IE of a type and an instance at `off`.
pub record Received (m r : Msg) (type instance_no off : ℕ) : Type 0 where
  pub same : (k : ℕ) → r.msg_buf k ≡ m.msg_buf k
  pub valid : r.is_ie_valid (slot type instance_no) ≡ true
  pub at : r.p_ie (slot type instance_no) ≡ off
  pub low : instance_no ≤ 4

-- A one-byte value is read as it was added.
get_ie_tv1-add_ie_tv1 :
    (m r : Msg) (type instance_no value : ℕ)
    → Received (add_ie_tv1 m type instance_no value) r type instance_no m.msg_len
    → get_ie_tv1 r type instance_no ≡ found value
unfolding get_ie_tv1 add_ie_tv1 store16 load16 htons
get_ie_tv1-add_ie_tv1 m r type instance_no value s = ground (
  arith,
  s.valid,
  s.at,
  s.low,
  s.same (m.msg_len + 1),
  s.same (m.msg_len + 1 + 1),
  s.same (m.msg_len + 4),
)

-- A two-byte value is read as it was added.
get_ie_tv2-add_ie_tv2 :
    (m r : Msg) (type instance_no value : ℕ)
    → value < 65536
    → Received (add_ie_tv2 m type instance_no value) r type instance_no m.msg_len
    → get_ie_tv2 r type instance_no ≡ found value
unfolding get_ie_tv2 add_ie_tv2 store16 load16 htons
get_ie_tv2-add_ie_tv2 m r type instance_no value h s = ground (
  arith,
  s.valid,
  s.at,
  s.low,
  s.same (m.msg_len + 1),
  s.same (m.msg_len + 1 + 1),
  s.same (m.msg_len + 4),
  s.same (m.msg_len + 4 + 1),
)

-- A four-byte value is read as it was added.
get_ie_tv4-add_ie_tv4 :
    (m r : Msg) (type instance_no value : ℕ)
    → value < 4294967296
    → Received (add_ie_tv4 m type instance_no value) r type instance_no m.msg_len
    → get_ie_tv4 r type instance_no ≡ found value
unfolding get_ie_tv4 add_ie_tv4 store16 load16 htons store32 load32 htonl
get_ie_tv4-add_ie_tv4 m r type instance_no value h s = ground (
  arith,
  s.valid,
  s.at,
  s.low,
  s.same (m.msg_len + 1),
  s.same (m.msg_len + 1 + 1),
  s.same (m.msg_len + 4),
  s.same (m.msg_len + 4 + 1),
  s.same (m.msg_len + 4 + 2),
  s.same (m.msg_len + 4 + 3),
)

-- A value of one, two or four bytes is read as it was added, from a message with the bytes of the one that it was
-- added to, in which the IE was found; one of two or four bytes when it fits.
pub tv_round_trips :
    (m r1 r2 r4 : Msg) (type instance_no v1 v2 v4 : ℕ)
    → v2 < 65536
    → v4 < 4294967296
    → Received (add_ie_tv1 m type instance_no v1) r1 type instance_no m.msg_len
    → Received (add_ie_tv2 m type instance_no v2) r2 type instance_no m.msg_len
    → Received (add_ie_tv4 m type instance_no v4) r4 type instance_no m.msg_len
    → (get_ie_tv1 r1 type instance_no ≡ found v1)
      × (get_ie_tv2 r2 type instance_no ≡ found v2)
      × (get_ie_tv4 r4 type instance_no ≡ found v4)
tv_round_trips m r1 r2 r4 type instance_no v1 v2 v4 h2 h4 s1 s2 s4 = (
  get_ie_tv1-add_ie_tv1 m r1 type instance_no v1 s1,
  get_ie_tv2-add_ie_tv2 m r2 type instance_no v2 h2 s2,
  get_ie_tv4-add_ie_tv4 m r4 type instance_no v4 h4 s4,
)

-- The cause and its flags are read as they were added, but the offending IE is lost, whatever it was.
pub get_ie_cause-add_ie_cause :
    (m r : Msg) (instance_no cause_value bit_flags offending_type offending_instance : ℕ)
    (stack : Buffer)
    → Received
        (add_ie_cause m instance_no cause_value bit_flags offending_type offending_instance stack)
        r
        2
        instance_no
        m.msg_len
    → get_ie_cause r instance_no ≡ found (cause_value, bit_flags, none)
unfolding get_ie_cause add_ie_cause add_ie store16 load16 htons
get_ie_cause-add_ie_cause m r instance_no cause_value bit_flags offending_type offending_instance
      stack s =
    ground (
      arith,
      s.valid,
      s.at,
      s.low,
      s.same (m.msg_len + 1),
      s.same (m.msg_len + 1 + 1),
      s.same (m.msg_len + 4),
      s.same (m.msg_len + 5),
    )

flag_v4 : (x : ℕ) → x < 32 → bit_or x 128 ≡ x + 128
flag_v4 x l = let test = all_below-holds 32 (λ y. bit_or y 128 == y + 128) refl x l in ground arith

flag_none : (x : ℕ) → x < 32 → bit_or x 0 ≡ x
flag_none x l = let test = all_below-holds 32 (λ y. bit_or y 0 == y) refl x l in ground arith

-- The bytes of an added IE's value.
add_ie-value :
    (m : Msg) (type length instance_no : ℕ) (value : Buffer) (k : ℕ)
    → k < length
    → (add_ie m type length instance_no value).msg_buf (m.msg_len + 4 + k) ≡ value k
unfolding add_ie
add_ie-value m type length instance_no value k h =
    let back : m.msg_len + 4 + k - (m.msg_len + 4) ≡ k = omega arith in ground arith

module _ (if_type teid ipv4_addr : ℕ) (stack : Buffer) (h : if_type < 32) (t : teid < 4294967296)
    (l : ipv4_addr < 4294967296) where
  abbrev value : Buffer × ℕ
  value = fteid_value if_type teid ipv4_addr none stack

  value-type : value.0 0 % 32 ≡ if_type
  unfolding store32
  value-type = ground (arith, flag_v4 if_type h, flag_none if_type h)

  value-flag : (value.0 0 / 128 % 2 == 0) ≡ (ipv4_addr == 0)
  unfolding store32
  value-flag = ground (arith, flag_v4 if_type h, flag_none if_type h)

  value-teid : htonl (load32 value.0 1) ≡ teid
  unfolding store32 load32 htonl
  value-teid = ground arith

  value-ipv4 : (ipv4_addr == 0) ≡ false → htonl (load32 value.0 5) ≡ ipv4_addr
  unfolding store32 load32 htonl
  value-ipv4 e = ground arith

load32-ext :
    (a b : Buffer) (i j : ℕ) → ((k : ℕ) → k < 4 → a (i + k) ≡ b (j + k)) → load32 a i ≡ load32 b j
unfolding load32
load32-ext a b i j h = omega (
  arith,
  h 0 (omega arith),
  h 1 (omega arith),
  h 2 (omega arith),
  h 3 (omega arith),
  ap a (add-zero i),
  ap b (add-zero j),
)

get_ie_fteid-parts :
    (r : Msg) (i off a b c : ℕ) (d : Bool)
    → i ≤ 4
    → r.is_ie_valid (slot 87 i) ≡ true
    → r.p_ie (slot 87 i) ≡ off
    → r.msg_buf (off + 4) % 32 ≡ a
    → (r.msg_buf (off + 4) / 128 % 2 == 0) ≡ d
    → htonl (load32 r.msg_buf (off + 5)) ≡ b
    → (d ≡ false → htonl (load32 r.msg_buf (off + 9)) ≡ c)
    → get_ie_fteid r i ≡ found (a, b, if d then none else some c)
unfolding get_ie_fteid
get_ie_fteid-parts r i off a b c true low valid at p q g w = ground arith
get_ie_fteid-parts r i off a b c false low valid at p q g w = ground (arith, w refl)

-- A fully qualified TEID without an IPv6 address is read as it was added; the address 0 is one that
-- is absent.
pub get_ie_fteid-add_ie_fteid :
    (m r : Msg) (instance_no if_type teid_or_gre_key ipv4_addr : ℕ) (stack : Buffer)
    → if_type < 32
    → teid_or_gre_key < 4294967296
    → ipv4_addr < 4294967296
    → Received
        (add_ie_fteid m instance_no if_type teid_or_gre_key ipv4_addr none stack)
        r
        87
        instance_no
        m.msg_len
    → get_ie_fteid r instance_no
      ≡ found (if_type, teid_or_gre_key, if ipv4_addr == 0 then none else some ipv4_addr)
unfolding get_ie_fteid add_ie_fteid
get_ie_fteid-add_ie_fteid m r instance_no if_type teid_or_gre_key ipv4_addr stack h k l s =
    let v = fteid_value if_type teid_or_gre_key ipv4_addr none stack in
    let byte : (j : ℕ) → j < v.1 → r.msg_buf (m.msg_len + 4 + j) ≡ v.0 j =
      λ j b. s.same (m.msg_len + 4 + j) ∙ add_ie-value m 87 v.1 instance_no v.0 j b in
    let first : r.msg_buf (m.msg_len + 4) ≡ v.0 0 =
      ap r.msg_buf (omega arith) ∙ byte 0 (ground arith) in
    let key : load32 r.msg_buf (m.msg_len + 5) ≡ load32 v.0 1 =
      load32-ext r.msg_buf v.0 (m.msg_len + 5) 1
        λ j b. ap r.msg_buf (omega arith) ∙ byte (1 + j) (ground arith) in
    let addr : (ipv4_addr == 0) ≡ false → load32 r.msg_buf (m.msg_len + 9) ≡ load32 v.0 5 = λ e.
      load32-ext r.msg_buf v.0 (m.msg_len + 9) 5
        λ j b. ap r.msg_buf (omega arith) ∙ byte (5 + j) (ground arith) in
    get_ie_fteid-parts r instance_no m.msg_len if_type teid_or_gre_key ipv4_addr (ipv4_addr == 0)
      s.low s.valid s.at
      (ap (λ x. x % 32) first ∙ value-type if_type teid_or_gre_key ipv4_addr stack h k l)
      (ap (λ x. x / 128 % 2 == 0) first ∙ value-flag if_type teid_or_gre_key ipv4_addr stack h k l)
      (ap htonl key ∙ value-teid if_type teid_or_gre_key ipv4_addr stack h k l)
      (λ e. ap htonl (addr e) ∙ value-ipv4 if_type teid_or_gre_key ipv4_addr stack h k l e)
