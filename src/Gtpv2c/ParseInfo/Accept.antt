-- ===== src/Gtpv2c/ParseInfo/Accept.antt =====
-- `nwGtpv2cMsgIeParse`: what its result says of the message.
use linkerepc.Prelude.{
  ℕ, zero, suc, ◌+◌, ◌/◌, ◌%◌, ◌<◌, ◌≤◌, ◌≡◌, ◌≢◌, refl, sym, ◌∙◌, subst, arith, ◌⊎◌, inl, inr,
  Bool, true, false, none, some, ◌&&◌, not, Bool-cases, Option-cases, tally-full, tally-none,
  eqb-true, eqb-false, tally-ext,
}
use native.Mathlib.Decide.{ℕ_discrete}
use linkerepc.Gtpv2c.Msg.{Msg}
use linkerepc.Gtpv2c.ParseInfo.Tables.{mandatory}
use linkerepc.Gtpv2c.ParseInfo.{
  ParseInfo, Progress, slot_of, Scan, finished, bad_ie, aborts, behind_row, out_of_fuel,
  instance_at, slot_at, find_missing, mandatory_ie_missing, Parsed, accepted, rejected, aborted,
  read_behind_row, never_ends, found_in, conclude, first_ie, nothing_found, parse,
}
use linkerepc.Gtpv2c.ParseInfo.Loop.{Scanned, scan-Scanned, Faulty}
use linkerepc.Gtpv2c.ParseInfo.Loop.Rounds.{ie_offset, Found, Acceptable, required, met}
use linkerepc.Gtpv2c.ParseInfo.Wellformed.{IsCounted}

none-some : {j : ℕ} → none ≡ some j → ⊥
none-some e = absurd cc

some-same : {i j : ℕ} → some i ≡ some j → i ≡ j
some-same e = cc

module _ (k i : ℕ) (info : ParseInfo) (valid : ℕ → Bool) where
  find_missing-here :
      (info.ie_presence i ≡ mandatory)
      → valid i ≡ false
      → find_missing (suc k) info valid i ≡ some i
  unfolding find_missing
  find_missing-here r v = ground arith

  find_missing-next :
      (required info i && not (valid i)) ≡ false
      → find_missing (suc k) info valid i ≡ find_missing k info valid (suc i)
  unfolding find_missing
  find_missing-next e = rw e refl

  find_missing-cases :
      ((info.ie_presence i ≡ mandatory) × (valid i ≡ false))
      ⊎ ((required info i && not (valid i)) ≡ false)
  find_missing-cases = elim (Bool-cases (required info i && not (valid i))) [
    | inl e ↦ inl (ground arith, ground arith)
    | inr e ↦ inr e
  ]

  not_missing : (required info i && not (valid i)) ≡ false → required info i ≡ true → valid i ≡ true
  not_missing e r = ground arith

find_missing-none :
    (k i : ℕ) (info : ParseInfo) (valid : ℕ → Bool)
    → find_missing k info valid i ≡ none
    → (j : ℕ) → i ≤ j
    → j < i + k
    → required info j ≡ true
    → valid j ≡ true
find_missing-none zero i info valid e j l h r = absurd (omega arith)
find_missing-none (suc k) i info valid e j l h r = elim (find_missing-cases k i info valid) [
  | inl (p, v) ↦ absurd (none-some (sym e ∙ find_missing-here k i info valid p v))
  | inr n ↦ elim (ℕ_discrete i j) [
    | yes s ↦
        subst (λ x. valid x ≡ true) s
          (not_missing k i info valid n (subst (λ x. required info x ≡ true) (sym s) r))
    | no s ↦
        find_missing-none k (suc i) info valid (sym (find_missing-next k i info valid n) ∙ e) j
          (omega arith) (omega arith) r
  ]
]

find_missing-some :
    (k i : ℕ) (info : ParseInfo) (valid : ℕ → Bool) (j : ℕ)
    → find_missing k info valid i ≡ some j
    → (info.ie_presence j ≡ mandatory) × (valid j ≡ false)
unfolding find_missing
find_missing-some zero i info valid j e = absurd (none-some e)
find_missing-some (suc k) i info valid j e = elim (find_missing-cases k i info valid) [
  | inl (p, v) ↦
      let same : i ≡ j = some-same (sym (find_missing-here k i info valid p v) ∙ e) in
      subst (λ x. (info.ie_presence x ≡ mandatory) × (valid x ≡ false)) same (p, v)
  | inr n ↦ find_missing-some k (suc i) info valid j (sym (find_missing-next k i info valid n) ∙ e)
]

met-required :
    (info : ParseInfo) (valid : ℕ → Bool) (i : ℕ) → met info valid i ≡ true → required info i ≡ true
met-required info valid i e = elim (Bool-cases (required info i)) [
  | inl r ↦ r
  | inr r ↦ ground arith
]

met-valid : (info : ParseInfo) (valid : ℕ → Bool) (i : ℕ) → met info valid i ≡ true → valid i ≡ true
met-valid info valid i e = elim (Bool-cases (valid i)) [ inl r ↦ r | inr r ↦ ground arith ]

required-met :
    (info : ParseInfo) (valid : ℕ → Bool) (i : ℕ)
    → (required info i ≡ true → valid i ≡ true)
    → met info valid i ≡ required info i
required-met info valid i h = elim (Bool-cases (required info i)) [
  | inl r ↦ ground (arith, h r)
  | inr r ↦ ground arith
]

never : (info : ParseInfo) (i : ℕ) → met info (λ _. false) i ≡ false
never info i = elim (Bool-cases (required info i)) [ inl r ↦ rw r refl | inr r ↦ rw r refl ]

-- What the result of the parser says of the message `m`.
abbrev pub Verdict : ParseInfo → Msg → Parsed → Type 0
Verdict info m (accepted q) =
    (p : Progress) × (rounds : ℕ) × (q ≡ found_in m p)
    × Found info m.msg_buf m.msg_len (first_ie m) rounds p
    × (m.msg_len ≤ ie_offset m.msg_buf (first_ie m) rounds)
    × ((i : ℕ) → i < 1024 → info.ie_presence i ≡ mandatory → p.valid i ≡ true)
Verdict info m (rejected cause type instance_no q) =
    (p : Progress) × (rounds : ℕ) × (q ≡ found_in m p)
    × Found info m.msg_buf m.msg_len (first_ie m) rounds p
    × (Faulty info m.msg_buf m.msg_len (ie_offset m.msg_buf (first_ie m) rounds) cause type
          instance_no
        ⊎ ((cause ≡ mandatory_ie_missing)
            × (m.msg_len ≤ ie_offset m.msg_buf (first_ie m) rounds)
            × (info.ie_presence (slot_of type instance_no) ≡ mandatory)
            × ((n : ℕ)
                → n < rounds
                → slot_at m.msg_buf (ie_offset m.msg_buf (first_ie m) n) ≡ slot_of type instance_no
                → ¬ Acceptable info m.msg_buf (ie_offset m.msg_buf (first_ie m) n))))
Verdict info m aborted =
    (n : ℕ) × (ie_offset m.msg_buf (first_ie m) n < m.msg_len)
    × (4 < instance_at m.msg_buf (ie_offset m.msg_buf (first_ie m) n))
Verdict info m read_behind_row =
    (n : ℕ) × (ie_offset m.msg_buf (first_ie m) n < m.msg_len)
    × (instance_at m.msg_buf (ie_offset m.msg_buf (first_ie m) n) ≡ 4)
Verdict info m never_ends = ⊥

module _ (info : ParseInfo) (m : Msg) (c : IsCounted info) where
  abbrev start : ℕ
  start = first_ie m

  module _ (rounds : ℕ) (p : Progress) (f : Found info m.msg_buf m.msg_len start rounds p)
      (e : m.msg_len ≤ ie_offset m.msg_buf start rounds) where
    all_met :
        p.mandatory_found ≡ info.mandatory_ie_count
        → (i : ℕ) → i < 1024
        → info.ie_presence i ≡ mandatory
        → p.valid i ≡ true
    all_met h i l r = met-valid info p.valid i (
        tally-full 1024 (met info p.valid) (required info) (met-required info p.valid)
          (sym f.counted ∙ h ∙ c.count) i l (ground arith))

    none_missing :
        find_missing 1024 info p.valid 0 ≡ none → p.mandatory_found ≡ info.mandatory_ie_count
    none_missing h =
        f.counted
        ∙ tally-ext 1024 (required info) (met info p.valid) (λ i l.
          required-met info p.valid i
            (find_missing-none 1024 0 info p.valid h i (omega arith) (omega arith)))
        ∙ sym c.count

    conclude-accepts :
        p.mandatory_found ≡ info.mandatory_ie_count
        → conclude info m (finished p) ≡ accepted (found_in m p)
    unfolding conclude
    conclude-accepts h = rw (eqb-true p.mandatory_found info.mandatory_ie_count h) refl

    conclude-missing :
        (i : ℕ)
        → p.mandatory_found ≢ info.mandatory_ie_count
        → find_missing 1024 info p.valid 0 ≡ some i
        → conclude info m (finished p)
          ≡ rejected mandatory_ie_missing (i / 4) (i % 4) (found_in m p)
    unfolding conclude
    conclude-missing i h g = rw (eqb-false p.mandatory_found info.mandatory_ie_count h) (rw g refl)

    absent :
        (i n : ℕ)
        → p.valid i ≡ false
        → n < rounds
        → slot_at m.msg_buf (ie_offset m.msg_buf start n) ≡ slot_of (i / 4) (i % 4)
        → ¬ Acceptable info m.msg_buf (ie_offset m.msg_buf start n)
    absent i n v l s a =
        let same : slot_at m.msg_buf (ie_offset m.msg_buf start n) ≡ i = omega arith in
        let valid = subst (λ x. p.valid x ≡ true) same (f.complete n l a) in ground arith

    finished-Verdict : Verdict info m (conclude info m (finished p))
    finished-Verdict = elim (ℕ_discrete p.mandatory_found info.mandatory_ie_count) [
      | yes h ↦ subst (Verdict info m) (sym (conclude-accepts h)) (p, rounds, refl, f, e, all_met h)
      | no h ↦ elim (Option-cases (find_missing 1024 info p.valid 0)) [
        | inl g ↦ absurd (h (none_missing g))
        | inr (i, g) ↦
            let (r, v) = find_missing-some 1024 0 info p.valid i g in
            let index : i ≡ slot_of (i / 4) (i % 4) = omega arith in
            subst (Verdict info m) (sym (conclude-missing i h g)) (
              p,
              rounds,
              refl,
              f,
              inr (
                refl,
                e,
                subst (λ x. info.ie_presence x ≡ mandatory) index r,
                λ n l s. absent i n v l s,
              ),
            )
      ]
    ]

  conclude-Verdict :
      (s : Scan) → Scanned info m.msg_buf m.msg_len start s → Verdict info m (conclude info m s)
  unfolding conclude
  conclude-Verdict (finished p) (rounds, f, e) = finished-Verdict rounds p f e
  conclude-Verdict (bad_ie cause type instance_no p) (rounds, f, b) = (p, rounds, refl, f, inl b)
  conclude-Verdict aborts (n, l, i) = (n, l, i)
  conclude-Verdict behind_row (n, l, i) = (n, l, i)
  conclude-Verdict out_of_fuel b = absurd b

  nothing-Found : Found info m.msg_buf m.msg_len start 0 (nothing_found m)
  nothing-Found = record {
    sound = λ i e. absurd cc;
    fits = λ n l. absurd (omega arith);
    sized = λ n l. absurd (omega arith);
    complete = λ n l a. absurd (omega arith);
    counted = sym (tally-none 1024 (met info (λ _. false)) λ i. never info i);
  }

-- The parser always ends. If it accepts a message, every IE up to its end is inside the message and
-- none that the table wants is too short; every slot that is marked holds the first acceptable IE of
-- its type and instance, no acceptable IE is left out, and every mandatory slot is marked. If it rejects a
-- message, the IEs before are like that, and the reported one is longer than the message, or wanted and too
-- short, or it is a mandatory IE that no acceptable IE of the message is. It fails otherwise only on an
-- instance above 3.
pub parse-Verdict :
    (info : ParseInfo) (m : Msg)
    → IsCounted info
    → ((k : ℕ) → m.msg_buf k < 256)
    → Verdict info m (parse info m)
unfolding parse
parse-Verdict info m c bytes = conclude-Verdict info m c _ (
    scan-Scanned info m.msg_buf m.msg_len (first_ie m) bytes (suc m.msg_len) 0 (nothing_found m)
      (omega arith) (omega arith) (nothing-Found info m c))
