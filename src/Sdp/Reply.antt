-- ===== src/Sdp/Reply.antt =====
-- The frame that answers a ping, in nwSdpProcessGtpuDataIndication of nw-sdp/src/NwSdp.c.
use linkerepc.Prelude.{
  ℕ, ◌+◌, ◌-◌, ◌<◌, ◌≡◌, ap, ◌∙◌, arith, ◌&&◌, ◌==◌, if◌then◌else◌, htons, leb, ltb,
}
use linkerepc.Bytes.{Buffer, load16, load32}
use linkerepc.Ipv4
use linkerepc.Sdp.{ping_length, ping_frame}

-- The byte of a ping that its answer has at an offset: the addresses at 12 and 16 are swapped, and the type of the
-- ICMP message, at 20, is 0.
abbrev pub swapped : ℕ → ℕ
swapped j = if leb 12 j && ltb j 16 then j + 4 else if leb 16 j && ltb j 20 then j - 4 else j

abbrev pub reply_of : Buffer → Buffer
reply_of packet j = if j == 20 then 0 else packet (swapped j)

-- The answer has at most 1024 bytes.
abbrev pub reply_length : ℕ → ℕ
reply_length n = if ltb n 1024 then n else 1024

module _ (x : Ipv4.Msg) (packet : Buffer) (n : ℕ) (long : 20 < n) (size : x.msg_len ≡ n)
    (bytes : (k : ℕ) → k < n → x.msg_buf k ≡ packet k) where
  pub frame-type : load16 (ping_frame x) 12 ≡ htons 2048
  unfolding load16 htons
  frame-type = ground arith

  pub frame-target : load32 (ping_frame x) 30 ≡ load32 packet 12
  unfolding load32
  frame-target = ground (
    arith,
    bytes 12 (omega arith),
    bytes 13 (omega arith),
    bytes 14 (omega arith),
    bytes 15 (omega arith),
  )

  pub frame-length : ping_length x ≡ reply_length n
  frame-length = ap reply_length size

  frame-byte : (j : ℕ) → j < ping_length x → ping_frame x (14 + j) ≡ reply_of x.msg_buf j
  frame-byte j l = ground arith

  swapped-below : (j : ℕ) → j < n → swapped j < n
  swapped-below j l = ground arith

  reply-below : (j : ℕ) → j < reply_length n → j < n
  reply-below j l = ground arith

  pub frame-reply : (j : ℕ) → j < reply_length n → ping_frame x (14 + j) ≡ reply_of packet j
  frame-reply j l =
      frame-byte j (omega (arith, frame-length))
      ∙ ap (λ b. if j == 20 then 0 else b) (bytes (swapped j) (swapped-below j (reply-below j l)))
