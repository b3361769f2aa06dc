-- ===== src/Gtpv2c/ParseInfo/Loop.antt =====
-- The loop of `nwGtpv2cMsgIeParse`: how it ends.
pub mod Counting
pub mod Rounds
use linkerepc.Prelude.{
  ℕ, zero, suc, ◌+◌, ◌-◌, ◌*◌, ◌/◌, ◌%◌, ◌<◌, ◌≤◌, ◌≡◌, ◌≢◌, refl, sym, ap, ◌∙◌, subst, arith, ◌⊎◌,
  inl, inr, Bool, true, false, Option, none, some, ◌==◌, if◌then◌else◌, ◌&&◌, not, ltb, u8, u16,
  htons, Bool-cases, Option-cases, le-cases, tally, tally-set, tally-bounded, tally-ext,
}
use native.Mathlib.Decide.{ℕ_discrete}
use linkerepc.Bytes.{Buffer, load16}
use linkerepc.Gtpv2c.Msg.{Msg}
use linkerepc.Gtpv2c.ParseInfo.Tables.{mandatory, optional}
use linkerepc.Gtpv2c.ParseInfo.{
  ParseInfo, Progress, update, slot_of, handle_ie, Scan, finished, bad_ie, aborts, behind_row,
  out_of_fuel, type_at, length_at, instance_at, slot_at, scan, invalid_length,
  mandatory_ie_incorrect,
}
use Rounds.{ie_offset, Found, Found-round, handle_ie-none}

-- The IE at `o` is the reason for an error: it is longer than the message, or a wanted IE is too short.
abbrev pub Faulty : ParseInfo → Buffer → ℕ → ℕ → ℕ → ℕ → ℕ → Type 0
Faulty info b end o cause type instance_no =
    (o < end)
    × (type ≡ type_at b o)
    × (instance_no ≡ instance_at b o)
    × (((cause ≡ invalid_length) × (end < o + 4 + length_at b o))
        ⊎ ((cause ≡ mandatory_ie_incorrect)
            × (o + 4 + length_at b o ≤ end)
            × (info.ie_presence (slot_at b o) ≢ 0)
            × (info.ie_presence (slot_at b o) ≢ optional)
            × (length_at b o < info.ie_min_length (slot_at b o))))

-- What the end of the loop says of the message.
abbrev pub Scanned : ParseInfo → Buffer → ℕ → ℕ → Scan → Type 0
Scanned info b end start (finished p) =
    (rounds : ℕ) × Found info b end start rounds p × (end ≤ ie_offset b start rounds)
Scanned info b end start (bad_ie cause type instance_no p) =
    (rounds : ℕ) × Found info b end start rounds p
    × Faulty info b end (ie_offset b start rounds) cause type instance_no
Scanned info b end start aborts =
    (rounds : ℕ) × (ie_offset b start rounds < end) × (4 < instance_at b (ie_offset b start rounds))
Scanned info b end start behind_row =
    (rounds : ℕ) × (ie_offset b start rounds < end) × (instance_at b (ie_offset b start rounds) ≡ 4)
Scanned info b end start out_of_fuel = ⊥

module _ (info : ParseInfo) (b : Buffer) (end start rounds k : ℕ) (p : Progress) where
  abbrev off : ℕ
  off = ie_offset b start rounds

  scan-end : end ≤ off → scan (suc k) info b end off p ≡ finished p
  unfolding scan
  scan-end h = ground arith

  scan-aborts : off < end → 4 < instance_at b off → scan (suc k) info b end off p ≡ aborts
  unfolding scan
  scan-aborts h i = ground arith

  scan-overruns :
      off < end
      → instance_at b off ≤ 4
      → end < off + 4 + length_at b off
      → scan (suc k) info b end off p ≡ bad_ie invalid_length (type_at b off) (instance_at b off) p
  unfolding scan
  scan-overruns h i l = ground arith

  scan-behind_row :
      off < end
      → instance_at b off ≡ 4
      → off + 4 + length_at b off ≤ end
      → scan (suc k) info b end off p ≡ behind_row
  unfolding scan
  scan-behind_row h i l = ground arith

  module _ (h : off < end) (i : instance_at b off < 4) (l : off + 4 + length_at b off ≤ end) where
    scan-none :
        handle_ie info p (slot_at b off) (length_at b off) off ≡ none
        → scan (suc k) info b end off p
          ≡ bad_ie mandatory_ie_incorrect (type_at b off) (instance_at b off) p
    unfolding scan
    scan-none e = ground arith

    scan-some :
        (q : Progress)
        → handle_ie info p (slot_at b off) (length_at b off) off ≡ some q
        → scan (suc k) info b end off p ≡ scan k info b end (ie_offset b start (suc rounds)) q
    unfolding scan
    scan-some q e = ground arith

module _ (info : ParseInfo) (b : Buffer) (end start : ℕ) (bytes : (k : ℕ) → b k < 256) where
  slot-low : (o : ℕ) → instance_at b o < 4 → slot_at b o < 1024
  slot-low o h = omega (arith, bytes o)

  round-Scanned :
      (k rounds : ℕ) (p : Progress)
      → ((q : Progress)
          → Found info b end start (suc rounds) q
          → Scanned info b end start (scan k info b end (ie_offset b start (suc rounds)) q))
      → Found info b end start rounds p
      → ie_offset b start rounds < end
      → instance_at b (ie_offset b start rounds) < 4
      → ie_offset b start rounds + 4 + length_at b (ie_offset b start rounds) ≤ end
      → Scanned info b end start (scan (suc k) info b end (ie_offset b start rounds) p)
  round-Scanned k rounds p rest f h i l =
      let o = ie_offset b start rounds in
      elim (Option-cases (handle_ie info p (slot_at b o) (length_at b o) o)) [
        | inl e ↦
            let (known, wanted, short) = handle_ie-none info p (slot_at b o) (length_at b o) o e in
            subst (Scanned info b end start) (sym (scan-none info b end start rounds k p h i l e))
              (rounds, f, (h, refl, refl, inr (refl, l, known, wanted, short)))
        | inr (q, e) ↦
            subst (Scanned info b end start) (sym (scan-some info b end start rounds k p h i l q e))
              (rest q (Found-round info b end start rounds p q f (slot-low o i) l e))
      ]

  -- The loop, from any round on, with enough fuel.
  pub scan-Scanned :
      (k rounds : ℕ) (p : Progress)
      → 0 < k
      → end < ie_offset b start rounds + k
      → Found info b end start rounds p
      → Scanned info b end start (scan k info b end (ie_offset b start rounds) p)
  unfolding scan
  scan-Scanned zero rounds p some_fuel fuel f = absurd (omega arith)
  scan-Scanned (suc k) rounds p some_fuel fuel f =
      let o = ie_offset b start rounds in
      elim (le-cases end o) [
        | inl h ↦
            subst (Scanned info b end start) (sym (scan-end info b end start rounds k p h))
              (rounds, f, h)
        | inr h ↦ elim (le-cases (instance_at b o) 4) [
          | inr i ↦
              subst (Scanned info b end start) (sym (scan-aborts info b end start rounds k p h i))
                (rounds, h, i)
          | inl i ↦ elim (le-cases (o + 4 + length_at b o) end) [
            | inr l ↦
                subst (Scanned info b end start)
                  (sym (scan-overruns info b end start rounds k p h i l))
                  (rounds, f, (h, refl, refl, inl (refl, l)))
            | inl l ↦ elim (le-cases 4 (instance_at b o)) [
              | inl j ↦
                  subst (Scanned info b end start)
                    (sym (scan-behind_row info b end start rounds k p h (omega arith) l))
                    (rounds, h, omega arith)
              | inr j ↦
                  round-Scanned k rounds p
                    (λ q g. scan-Scanned k (suc rounds) q (omega arith) (omega arith) g) f h j l
            ]
          ]
        ]
      ]
