-- ===== src/Gtpv2c/ParseInfo/Loop/Rounds.antt =====
-- `nwGtpv2cMsgIeParse`: what its loop has found after a number of rounds.
use linkerepc.Prelude.{
  ℕ, zero, suc, ◌+◌, ◌<◌, ◌≤◌, ◌≡◌, ◌≢◌, refl, sym, ◌∙◌, subst, arith, ◌⊎◌, inl, inr, Bool, true,
  false, none, some, ◌==◌, if◌then◌else◌, ◌&&◌, ltb, u16, Bool-cases, tally,
}
use native.Mathlib.Decide.{ℕ_discrete}
use linkerepc.Bytes.{Buffer}
use linkerepc.Gtpv2c.ParseInfo.Tables.{mandatory, optional}
use linkerepc.Gtpv2c.ParseInfo.{ParseInfo, Progress, update, handle_ie, length_at, slot_at}
use linkerepc.Gtpv2c.ParseInfo.Loop.Counting.{update-same, update-other, counted-update}

-- The offset of the IE `n` of the message, where each follows the one before.
abbrev pub ie_offset : Buffer → ℕ → ℕ → ℕ
ie_offset b start zero = start
ie_offset b start (suc n) = ie_offset b start n + (length_at b (ie_offset b start n) + 4)

-- The IE at an offset may be used: its slot is in the table, and it is as long as the table asks.
pub record Acceptable (info : ParseInfo) (b : Buffer) (o : ℕ) : Type 0 where
  pub known : info.ie_presence (slot_at b o) ≢ 0
  pub long : info.ie_min_length (slot_at b o) ≤ length_at b o

-- The IE at an offset is in the table and not optional, and it is shorter than the table asks.
pub record TooShort (info : ParseInfo) (b : Buffer) (o : ℕ) : Type 0 where
  pub known : info.ie_presence (slot_at b o) ≢ 0
  pub wanted : info.ie_presence (slot_at b o) ≢ optional
  pub short : length_at b o < info.ie_min_length (slot_at b o)

-- `o` is where the first acceptable IE of slot `i` among the first `rounds` is, inside the message.
pub record Located (info : ParseInfo) (b : Buffer) (end start rounds i o : ℕ) : Type 0 where
  pub nth : ℕ
  pub before : nth < rounds
  pub at : o ≡ ie_offset b start nth
  pub inside : o + 4 + length_at b o ≤ end
  pub slot : slot_at b o ≡ i
  pub acceptable : Acceptable info b o
  pub first :
      (n : ℕ)
      → n < nth
      → slot_at b (ie_offset b start n) ≡ i
      → ¬ Acceptable info b (ie_offset b start n)

abbrev pub required : ParseInfo → ℕ → Bool
required info i = info.ie_presence i == mandatory

abbrev pub met : ParseInfo → (ℕ → Bool) → ℕ → Bool
met info valid i = required info i && valid i

-- What the tables hold after `rounds` IEs.
pub record Found (info : ParseInfo) (b : Buffer) (end start rounds : ℕ) (p : Progress)
    : Type 0 where
  pub sound : (i : ℕ) → p.valid i ≡ true → Located info b end start rounds i (p.ie i)
  pub complete :
      (n : ℕ)
      → n < rounds
      → Acceptable info b (ie_offset b start n)
      → p.valid (slot_at b (ie_offset b start n)) ≡ true
  pub fits :
      (n : ℕ) → n < rounds → ie_offset b start n + 4 + length_at b (ie_offset b start n) ≤ end
  pub sized : (n : ℕ) → n < rounds → ¬ TooShort info b (ie_offset b start n)
  pub counted : p.mandatory_found ≡ tally 1024 (met info p.valid)

-- The progress after an IE is taken into the tables.
abbrev pub taken : ParseInfo → Progress → ℕ → ℕ → Progress
taken info p i off = record {
  valid = update p.valid i true;
  ie = update p.ie i off;
  mandatory_found =
      if info.ie_presence i == mandatory then u16 (p.mandatory_found + 1) else p.mandatory_found;
}

module _ (info : ParseInfo) (p : Progress) (i len off : ℕ) where
  handle_ie-cases :
      (q : Progress)
      → handle_ie info p i len off ≡ some q
      → ((q ≡ p) × (info.ie_presence i ≢ 0 → info.ie_min_length i ≤ len → p.valid i ≡ true))
        ⊎ ((q ≡ taken info p i off)
            × (info.ie_presence i ≢ 0)
            × (info.ie_min_length i ≤ len)
            × (p.valid i ≡ false))
  unfolding handle_ie
  handle_ie-cases q e = elim (Bool-cases (info.ie_presence i == 0)) [
    | inl known ↦ inl (ground arith, λ k l. absurd (ground arith))
    | inr known ↦ elim (Bool-cases (ltb len (info.ie_min_length i))) [
      | inl short ↦ inl (ground arith, λ k l. absurd (ground arith))
      | inr short ↦ elim (Bool-cases (p.valid i)) [
        | inl v ↦ inl (ground arith, λ k l. v)
        | inr v ↦ inr (ground arith, ground arith, ground arith, v)
      ]
    ]
  ]

  handle_ie-some :
      (q : Progress)
      → handle_ie info p i len off ≡ some q
      → info.ie_presence i ≢ 0
      → info.ie_presence i ≢ optional
      → info.ie_min_length i ≤ len
  unfolding handle_ie
  handle_ie-some q e k w = ground arith

  pub handle_ie-none :
      handle_ie info p i len off ≡ none
      → (info.ie_presence i ≢ 0) × (info.ie_presence i ≢ optional) × (len < info.ie_min_length i)
  unfolding handle_ie
  handle_ie-none e = ground arith

le_lt : {a b : ℕ} → a ≤ b → b < a → ⊥
le_lt h l = omega arith

module _ (info : ParseInfo) (b : Buffer) (end start rounds : ℕ) (p : Progress) where
  abbrev here : ℕ
  here = ie_offset b start rounds

  abbrev set : Progress
  set = taken info p (slot_at b here) here

  later :
      (i o : ℕ) → Located info b end start rounds i o → Located info b end start (suc rounds) i o
  later i o l = record {
    nth = l.nth;
    before = omega (arith, l.before);
    at = l.at;
    inside = l.inside;
    slot = l.slot;
    acceptable = l.acceptable;
    first = l.first;
  }

  -- The IE of this round is inside the message and long enough.
  module _ (inside : here + 4 + length_at b here ≤ end) (long : ¬ TooShort info b here)
      (f : Found info b end start rounds p) where
    fits_here :
        (n : ℕ) → n < suc rounds → ie_offset b start n + 4 + length_at b (ie_offset b start n) ≤ end
    fits_here n l = elim (ℕ_discrete n rounds) [
      | yes e ↦
          subst (λ k. ie_offset b start k + 4 + length_at b (ie_offset b start k) ≤ end) (sym e)
            inside
      | no e ↦ f.fits n (omega arith)
    ]

    sized_here : (n : ℕ) → n < suc rounds → ¬ TooShort info b (ie_offset b start n)
    sized_here n l = elim (ℕ_discrete n rounds) [
      | yes e ↦ subst (λ k. ¬ TooShort info b (ie_offset b start k)) (sym e) long
      | no e ↦ f.sized n (omega arith)
    ]

  Found-kept :
      Found info b end start rounds p
      → (Acceptable info b here → p.valid (slot_at b here) ≡ true)
      → here + 4 + length_at b here ≤ end
      → (¬ TooShort info b here)
      → Found info b end start (suc rounds) p
  Found-kept f g inside long = record {
    fits = fits_here inside long f;
    sized = sized_here inside long f;
    sound = λ i e. later i (p.ie i) (f.sound i e);
    complete = λ n l a. elim (ℕ_discrete n rounds) [
      | yes e ↦
          subst (λ k. p.valid (slot_at b (ie_offset b start k)) ≡ true) (sym e)
            (g (subst (λ k. Acceptable info b (ie_offset b start k)) e a))
      | no e ↦ f.complete n (omega arith) a
    ];
    counted = f.counted;
  }

  module _ (f : Found info b end start rounds p) (a : Acceptable info b here)
      (free : p.valid (slot_at b here) ≡ false) (low : slot_at b here < 1024)
      (inside : here + 4 + length_at b here ≤ end) (long : ¬ TooShort info b here) where
    located : Located info b end start (suc rounds) (slot_at b here) here
    located = record {
      nth = rounds;
      before = omega arith;
      at = refl;
      inside = inside;
      slot = refl;
      acceptable = a;
      first = λ n l e c. absurd (ground (arith, f.complete n l c));
    }

    set_here : set.ie (slot_at b here) ≡ here
    set_here = update-same p.ie (slot_at b here) here

    set-valid : set.valid (slot_at b here) ≡ true
    set-valid = update-same p.valid (slot_at b here) true

    set_sound : (i : ℕ) → set.valid i ≡ true → Located info b end start (suc rounds) i (set.ie i)
    set_sound i e = elim (ℕ_discrete (slot_at b here) i) [
      | yes s ↦
          subst (λ j. Located info b end start (suc rounds) j (set.ie j)) s (rw set_here located)
      | no s ↦
          let old : p.valid i ≡ true = sym (update-other p.valid (slot_at b here) true i s) ∙ e in
          let kept : set.ie i ≡ p.ie i = update-other p.ie (slot_at b here) here i s in
          rw kept (later i (p.ie i) (f.sound i old))
    ]

    set-counted : set.mandatory_found ≡ tally 1024 (met info set.valid)
    set-counted =
        counted-update info.ie_presence p.valid (slot_at b here) p.mandatory_found low free
          f.counted

    Found-set : Found info b end start (suc rounds) set
    Found-set = record {
      fits = fits_here inside long f;
      sized = sized_here inside long f;
      sound = set_sound;
      complete = λ n l c. elim (ℕ_discrete n rounds) [
        | yes e ↦ subst (λ k. set.valid (slot_at b (ie_offset b start k)) ≡ true) (sym e) set-valid
        | no e ↦ ground (arith, f.complete n (omega arith) c)
      ];
      counted = set-counted;
    }

  long_enough :
      (q : Progress)
      → handle_ie info p (slot_at b here) (length_at b here) here ≡ some q
      → ¬ TooShort info b here
  long_enough q e t =
      let h = handle_ie-some info p (slot_at b here) (length_at b here) here q e t.known t.wanted in
      absurd (le_lt h t.short)

  pub Found-round :
      (q : Progress)
      → Found info b end start rounds p
      → slot_at b here < 1024
      → here + 4 + length_at b here ≤ end
      → handle_ie info p (slot_at b here) (length_at b here) here ≡ some q
      → Found info b end start (suc rounds) q
  Found-round q f low inside e =
      elim (handle_ie-cases info p (slot_at b here) (length_at b here) here q e) [
        | inl (same, known) ↦
            subst (Found info b end start (suc rounds)) (sym same)
              (Found-kept f (λ a. known a.known a.long) inside (long_enough q e))
        | inr (new, k, l, free) ↦
            subst (Found info b end start (suc rounds)) (sym new)
              (Found-set f (record { known = k; long = l }) free low inside (long_enough q e))
      ]
