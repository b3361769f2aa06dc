-- ===== src/Gtpv2c/Msg/Grouped.antt =====
-- Grouped IEs: the length of a group is patched when it is closed.
use linkerepc.Prelude.{
  ℕ, ◌+◌, ◌-◌, ◌/◌, ◌%◌, ◌<◌, ◌≤◌, ◌≡◌, refl, arith, true, some, ◌==◌, if◌then◌else◌, ltb, u16,
  htons, sym, ap, ◌∙◌, subst, ◌⊎◌, inl, inr,
}
use linkerepc.Bytes.{Buffer, load16, store16, load16-store16, store16-away}
use linkerepc.Gtpv2c.Msg.{Msg}
use linkerepc.Gtpv2c.Msg.Encode.{ie_header, add_ie, grouped_ie_start, grouped_ie_end}

-- What happens to a message while a group is open: IEs are added, and groups inside are opened and
-- closed, all within the 65535 bytes that `msgLen` counts.
pub data Fills : Msg → Msg → Type 0 where
  empty : {m : Msg} → Fills m m
  adds :
      {m n : Msg} (type length instance_no : ℕ) (value : Buffer)
      → n.msg_len + 4 + length < 65536
      → Fills m n
      → Fills m (add_ie n type length instance_no value)
  nests :
      {m n o p q : Msg} (type instance_no : ℕ)
      → n.msg_len + 4 < 65536
      → Fills m n
      → grouped_ie_start n type instance_no ≡ some o
      → Fills o p
      → grouped_ie_end p ≡ some q
      → Fills m q

-- The bytes below `m`'s end and its open groups are kept.
pub record Kept (m n : Msg) : Type 0 where
  pub bytes : (k : ℕ) → k < m.msg_len → n.msg_buf k ≡ m.msg_buf k
  pub top : n.top ≡ m.top
  pub open_ie : (k : ℕ) → k < m.top → n.open_ie k ≡ m.open_ie k
  pub longer : m.msg_len ≤ n.msg_len
  pub small : m.msg_len < 65536 → n.msg_len < 65536

Kept-refl : (m : Msg) → Kept m m
Kept-refl m = record {
  bytes = λ k l. refl;
  top = refl;
  open_ie = λ k l. refl;
  longer = omega arith;
  small = λ l. l;
}

Kept-trans : {m n o : Msg} → Kept m n → Kept n o → Kept m o
Kept-trans p q = record {
  bytes = λ k l. q.bytes k (omega (arith, p.longer)) ∙ p.bytes k l;
  top = q.top ∙ p.top;
  open_ie = λ k l. q.open_ie k (omega (arith, p.top)) ∙ p.open_ie k l;
  longer = omega (arith, p.longer, q.longer);
  small = λ l. q.small (p.small l);
}

Kept-add :
    (n : Msg) (type length instance_no : ℕ) (value : Buffer)
    → n.msg_len + 4 + length < 65536
    → Kept n (add_ie n type length instance_no value)
unfolding add_ie store16
Kept-add n type length instance_no value h = record {
  bytes = λ k l. ground arith;
  top = refl;
  open_ie = λ k l. refl;
  longer = omega arith;
  small = λ l. omega arith;
}

-- A message with a group opened at the end of `m`, and the bytes of the group's header.
pub record Opened (m o : Msg) (type instance_no : ℕ) : Type 0 where
  pub below : (k : ℕ) → k < m.msg_len → o.msg_buf k ≡ m.msg_buf k
  pub type_byte : o.msg_buf m.msg_len ≡ type
  pub low_byte : o.msg_buf (m.msg_len + 1) ≡ (m.msg_len + 4) % 256
  pub high_byte : o.msg_buf (m.msg_len + 1 + 1) ≡ (m.msg_len + 4) / 256 % 256
  pub instance_byte : o.msg_buf (m.msg_len + 3) ≡ instance_no % 256
  pub len : o.msg_len ≡ m.msg_len + 4
  pub top : o.top ≡ m.top + 1
  pub innermost : o.open_ie m.top ≡ m.msg_len
  pub outer : (k : ℕ) → k < m.top → o.open_ie k ≡ m.open_ie k

module _ (m : Msg) (type instance_no : ℕ) (h : m.msg_len + 4 < 65536) where
  abbrev opened : Msg
  opened = record m {
    msg_buf = ie_header m.msg_buf m.msg_len type (u16 (m.msg_len + 4)) instance_no;
    msg_len = u16 (m.msg_len + 4);
    open_ie = λ k. if m.top == k then m.msg_len else m.open_ie k;
    top = m.top + 1;
  }

  opened-Opened : Opened m opened type instance_no
  unfolding store16
  opened-Opened = record {
    below = λ k l. ground arith;
    type_byte = ground arith;
    low_byte = ground arith;
    high_byte = ground arith;
    instance_byte = ground arith;
    len = omega arith;
    top = refl;
    innermost = ground arith;
    outer = λ k l. ground arith;
  }

  start-Opened :
      (o : Msg) → grouped_ie_start m type instance_no ≡ some o → Opened m o type instance_no
  unfolding grouped_ie_start
  start-Opened o e =
      let same : opened ≡ o = ground arith in
      subst (λ x. Opened m x type instance_no) same opened-Opened

-- The message with its innermost group, which began at the end of `m`, closed.
abbrev closed : Msg → Msg → Msg
closed m p = record p {
  top = p.top - 1;
  msg_buf =
      store16 p.msg_buf (m.msg_len + 1)
        (htons (u16 (p.msg_len + 65536 - load16 p.msg_buf (m.msg_len + 1))));
}

module _ (m o p : Msg) (type instance_no : ℕ) (h : m.msg_len + 4 < 65536)
    (s : Opened m o type instance_no) (k : Kept o p) where
  at_group : p.open_ie (p.top - 1) ≡ m.msg_len
  at_group =
      let last : p.top - 1 ≡ m.top = omega (arith, k.top, s.top) in
      ap p.open_ie last ∙ k.open_ie m.top (omega (arith, s.top)) ∙ s.innermost

  end-closed : grouped_ie_end p ≡ some (closed m p)
  unfolding grouped_ie_end
  end-closed =
      let some_open : ltb 0 p.top ≡ true = ground (arith, k.top, s.top) in
      rw at_group (rw some_open refl)

  patched : load16 p.msg_buf (m.msg_len + 1) ≡ m.msg_len + 4
  unfolding load16
  patched = omega (
    arith,
    k.bytes (m.msg_len + 1) (omega (arith, s.len)),
    k.bytes (m.msg_len + 1 + 1) (omega (arith, s.len)),
    s.low_byte,
    s.high_byte,
  )

  closed-Kept : Kept m (closed m p)
  closed-Kept = record {
    bytes = λ j l.
        store16-away p.msg_buf (m.msg_len + 1) _ j (λ e. absurd (omega arith))
          (λ e. absurd (omega arith))
        ∙ k.bytes j (omega (arith, s.len))
        ∙ s.below j l;
    top = omega (arith, k.top, s.top);
    open_ie = λ j l. k.open_ie j (omega (arith, s.top)) ∙ s.outer j l;
    longer = omega (arith, s.len, k.longer);
    small = λ l. k.small (omega (arith, s.len));
  }

  closed-length : htons (load16 (closed m p).msg_buf (m.msg_len + 1)) ≡ p.msg_len - (m.msg_len + 4)
  closed-length =
      let small = k.small (omega (arith, s.len)) in
      let longer = k.longer in
      rw patched (load16-store16 p.msg_buf (m.msg_len + 1) _ (omega arith) ∙ omega (arith, s.len))

  closed-away :
      (j : ℕ) → (j ≡ m.msg_len) ⊎ (j ≡ m.msg_len + 3) → (closed m p).msg_buf j ≡ o.msg_buf j
  closed-away j c =
      store16-away p.msg_buf (m.msg_len + 1) _ j (λ e. absurd (omega arith))
        (λ e. absurd (omega arith))
      ∙ k.bytes j (omega (arith, s.len))

some-same : {m n : Msg} → some m ≡ some n → m ≡ n
some-same e = cc

-- Whatever fills a group leaves the bytes before it and the groups around it as they are.
Fills-Kept : {m n : Msg} → Fills m n → Kept m n
Fills-Kept {m} empty = Kept-refl m
Fills-Kept (adds {n = n} type length instance_no value h f) =
    Kept-trans (Fills-Kept f) (Kept-add n type length instance_no value h)
Fills-Kept (nests {n = n} {o = o} {p = p} {q = q} type instance_no h f e g d) =
    let kept =
      closed-Kept n o p type instance_no h (start-Opened n type instance_no h o e) (Fills-Kept g) in
    let same : closed n p ≡ q = some-same (
      sym
        (end-closed n o p type instance_no h (start-Opened n type instance_no h o e) (Fills-Kept g))
      ∙ d) in
    Kept-trans (Fills-Kept f) (subst (Kept n) same kept)

-- A group that is opened can be closed after IEs and whole groups have been added, and it is closed
-- with the length of what was added, at the place where it was opened; its type and instance, the bytes before it
-- and the groups around it are kept.
pub grouped_ie_end-length :
    (m o p : Msg) (type instance_no : ℕ)
    → m.msg_len + 4 < 65536
    → grouped_ie_start m type instance_no ≡ some o
    → Fills o p
    → (q : Msg) × (grouped_ie_end p ≡ some q)
      × (htons (load16 q.msg_buf (m.msg_len + 1)) ≡ p.msg_len - (m.msg_len + 4))
      × (q.msg_buf m.msg_len ≡ type)
      × (q.msg_buf (m.msg_len + 3) ≡ instance_no % 256)
      × (q.msg_len ≡ p.msg_len)
      × Kept m q
grouped_ie_end-length m o p type instance_no h e f =
    let s = start-Opened m type instance_no h o e in
    let k = Fills-Kept f in
    (
      closed m p,
      end-closed m o p type instance_no h s k,
      closed-length m o p type instance_no h s k,
      closed-away m o p type instance_no h s k m.msg_len (inl refl) ∙ s.type_byte,
      closed-away m o p type instance_no h s k (m.msg_len + 3) (inr refl) ∙ s.instance_byte,
      refl,
      closed-Kept m o p type instance_no h s k,
    )
