-- ===== src/Gtpv2c/Stack/Discard.antt =====
-- `nwGtpv2cProcessUdpReq`: messages that are discarded.
use linkerepc.Prelude.{
  ℕ, ◌+◌, ◌/◌, ◌%◌, ◌<◌, ◌≡◌, ◌≢◌, ◌⊎◌, inl, inr, refl, arith, true, false, Option, none, some,
  ◌==◌, if◌then◌else◌, ltb, htons, htonl, Bool-cases, eqb-true, eqb-false,
}
use linkerepc.Bytes.{Buffer, load16, load32}
use linkerepc.Gtpv2c.Stack.{Stack, TreeOps, Memory, tunnel_key}
use linkerepc.Gtpv2c.Stack.Udp.{
  process_udp_req, has_teid, is_initial_req, is_triggered_rsp, request_target, handle_initial_req,
  handle_echo_req, handle_triggered_rsp,
}

-- What the length field asks for.
abbrev pub expected_length : Buffer → ℕ
expected_length b = htons (load16 b 2) + (if has_teid b then 4 else 0)

abbrev pub IsKnown : ℕ → Type 0
IsKnown y = (y ≡ 1) ⊎ ((is_initial_req y ≡ true) ⊎ (is_triggered_rsp y ≡ true))

-- A message is discarded for one of these reasons: no header, a length beyond the bytes received, an
-- unknown type, or a request with the TEID of no tunnel with its sender.
pub data IsDiscarded {t : TreeOps} (s : Stack t) (b : Buffer) (len peer_ip : ℕ) : Type 0 where
  short : len < 8 → IsDiscarded s b len peer_ip
  overlong : len < expected_length b → IsDiscarded s b len peer_ip
  unknown : b 0 / 32 % 8 ≡ 2 → (¬ IsKnown (b 1)) → IsDiscarded s b len peer_ip
  no_tunnel :
      b 0 / 32 % 8 ≡ 2
      → is_initial_req (b 1) ≡ true
      → load32 b 4 ≢ 0
      → t.find s.tunnel_map (tunnel_key (htonl (load32 b 4)) peer_ip) ≡ none
      → IsDiscarded s b len peer_ip

ltb-true : (a b : ℕ) → a < b → ltb a b ≡ true
ltb-true a b l = ground arith

initial_not_echo : (y : ℕ) → is_initial_req y ≡ true → (y == 1) ≡ false
initial_not_echo y e = elim (Bool-cases (y == 1)) [ inl c ↦ ground arith | inr c ↦ c ]

module _ {t : TreeOps} (s : Stack t) (mem : Memory) (b : Buffer) (len peer_port peer_ip : ℕ) where
  target-none :
      load32 b 4 ≢ 0
      → t.find s.tunnel_map (tunnel_key (htonl (load32 b 4)) peer_ip) ≡ none
      → request_target s b peer_ip ≡ none
  unfolding request_target
  target-none d f = rw (eqb-false (load32 b 4) 0 d) (rw f refl)

  handle_initial_req-none :
      request_target s b peer_ip ≡ none
      → handle_initial_req s mem (b 1) b len peer_port peer_ip ≡ some s
  unfolding handle_initial_req
  handle_initial_req-none e = rw (e, handle_initial_req) refl

  ends_short : len < 8 → process_udp_req s mem b len peer_port peer_ip ≡ some s
  unfolding process_udp_req
  ends_short l = let c : ltb len 8 ≡ true = ground arith in rw c refl

  ends_overlong : len < expected_length b → process_udp_req s mem b len peer_port peer_ip ≡ some s
  unfolding process_udp_req
  ends_overlong l =
      let c : ltb len (expected_length b) ≡ true = ltb-true len (expected_length b) l in
      elim (Bool-cases (ltb len 8)) [ inl d ↦ rw d refl | inr d ↦ rw d (rw c refl) ]

  -- A message of version 2 that passes the tests of lengths is handled by its type.
  abbrev by_type : Option (Stack t)
  by_type =
      if b 1 == 1
      then handle_echo_req s mem b peer_port peer_ip
      else if is_initial_req (b 1)
      then handle_initial_req s mem (b 1) b len peer_port peer_ip
      else if is_triggered_rsp (b 1)
      then handle_triggered_rsp s mem (b 1) b len peer_ip
      else some s

  ends_by_type :
      b 0 / 32 % 8 ≡ 2 → by_type ≡ some s → process_udp_req s mem b len peer_port peer_ip ≡ some s
  unfolding process_udp_req
  ends_by_type v e = elim (Bool-cases (ltb len 8)) [
    | inl d ↦ rw d refl
    | inr d ↦ elim (Bool-cases (ltb len (expected_length b))) [
      | inl c ↦ rw d (rw c refl)
      | inr c ↦ rw d (rw c (rw (eqb-true (b 0 / 32 % 8) 2 v) e))
    ]
  ]

  unknown_type : (¬ IsKnown (b 1)) → by_type ≡ some s
  unknown_type u =
      let c = eqb-false (b 1) 1 (λ e. u (inl e)) in
      elim (Bool-cases (is_initial_req (b 1))) [
        | inl i ↦ absurd (u (inr (inl i)))
        | inr i ↦ elim (Bool-cases (is_triggered_rsp (b 1))) [
          | inl r ↦ absurd (u (inr (inr r)))
          | inr r ↦ rw c (rw i (rw r refl))
        ]
      ]

  initial_type :
      is_initial_req (b 1) ≡ true
      → handle_initial_req s mem (b 1) b len peer_port peer_ip ≡ some s
      → by_type ≡ some s
  initial_type i e = let c : (b 1 == 1) ≡ false = initial_not_echo (b 1) i in rw c (rw i e)

-- A message without a whole header, one whose length is beyond the bytes received, one of version 2 and an
-- unknown type, and a request of version 2 with the TEID of no tunnel with its sender are discarded: the stack stays
-- as it is, and nothing is sent or told.
pub process_udp_req-IsDiscarded :
    {t : TreeOps} (s : Stack t) (mem : Memory) (b : Buffer) (len peer_port peer_ip : ℕ)
    → IsDiscarded s b len peer_ip
    → process_udp_req s mem b len peer_port peer_ip ≡ some s
process_udp_req-IsDiscarded s mem b len peer_port peer_ip (short l) =
    ends_short s mem b len peer_port peer_ip l
process_udp_req-IsDiscarded s mem b len peer_port peer_ip (overlong l) =
    ends_overlong s mem b len peer_port peer_ip l
process_udp_req-IsDiscarded s mem b len peer_port peer_ip (unknown v u) =
    ends_by_type s mem b len peer_port peer_ip v (unknown_type s mem b len peer_port peer_ip u)
process_udp_req-IsDiscarded s mem b len peer_port peer_ip (no_tunnel v i d f) =
    ends_by_type s mem b len peer_port peer_ip v (
      initial_type s mem b len peer_port peer_ip i (
        handle_initial_req-none s mem b len peer_port peer_ip
          (target-none s mem b len peer_port peer_ip d f)))
