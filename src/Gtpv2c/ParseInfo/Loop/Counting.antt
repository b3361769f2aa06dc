-- ===== src/Gtpv2c/ParseInfo/Loop/Counting.antt =====
-- `nwGtpv2cMsgIeParse`: how the number of mandatory IEs found follows the table of the slots filled.
use linkerepc.Prelude.{
  ℕ, suc, ◌+◌, ◌<◌, ◌≤◌, ◌≡◌, ◌≢◌, sym, ap, ◌∙◌, subst, arith, inl, inr, Bool, true, false, ◌==◌,
  if◌then◌else◌, ◌&&◌, u16, Bool-cases, tally, tally-set, tally-bounded, tally-ext,
}
use native.Mathlib.Decide.{ℕ_discrete}
use linkerepc.Gtpv2c.ParseInfo.Tables.{mandatory}
use linkerepc.Gtpv2c.ParseInfo.{update}

pub update-same {ℓ} : {A : Type ℓ} (f : ℕ → A) (i : ℕ) (v : A) → update f i v i ≡ v
update-same f i v = ground arith

pub update-other {ℓ} :
    {A : Type ℓ} (f : ℕ → A) (i : ℕ) (v : A) (j : ℕ) → i ≢ j → update f i v j ≡ f j
update-other f i v j d = ground arith

u16-bump : (m t g : ℕ) → m ≡ t → g ≡ suc t → t ≤ 1024 → u16 (m + 1) ≡ g
u16-bump m t g e f h = omega arith

not_required :
    (presence : ℕ → ℕ) (valid : ℕ → Bool) (s : ℕ)
    → (presence s == mandatory) ≡ false
    → (i : ℕ)
    → ((presence i == mandatory) && update valid s true i) ≡ ((presence i == mandatory) && valid i)
not_required presence valid s c i = elim (ℕ_discrete s i) [
  | yes e ↦
      subst
        (λ j.
          ((presence j == mandatory) && update valid s true j)
          ≡ ((presence j == mandatory) && valid j))
        e (ap (λ x. x && update valid s true s) c ∙ sym (ap (λ x. x && valid s) c))
  | no d ↦ ap (λ v. (presence i == mandatory) && v) (update-other valid s true i d)
]

-- A slot that is filled is one more, if it is mandatory.
pub counted-update :
    (presence : ℕ → ℕ) (valid : ℕ → Bool) (s m : ℕ)
    → s < 1024
    → valid s ≡ false
    → m ≡ tally 1024 (λ i. (presence i == mandatory) && valid i)
    → (if presence s == mandatory then u16 (m + 1) else m)
      ≡ tally 1024 (λ i. (presence i == mandatory) && update valid s true i)
counted-update presence valid s m low free e = elim (Bool-cases (presence s == mandatory)) [
  | inl c ↦
      let grown =
        tally-set 1024 (λ i. (presence i == mandatory) && valid i)
          (λ i. (presence i == mandatory) && update valid s true i) s low
          (ap (λ v. (presence s == mandatory) && v) free ∙ ap (λ x. x && false) c)
          (ap (λ v. (presence s == mandatory) && v) (update-same valid s true)
            ∙ ap (λ x. x && true) c)
          (λ i d.
            ap (λ v. (presence i == mandatory) && v)
              (update-other valid s true i λ e. d (sym e))) in
      let room = tally-bounded 1024 (λ i. (presence i == mandatory) && valid i) in
      rw c (u16-bump _ _ _ e grown room)
  | inr c ↦
      let same =
        tally-ext 1024 (λ i. (presence i == mandatory) && valid i)
          (λ i. (presence i == mandatory) && update valid s true i)
          (λ i l. not_required presence valid s c i) in
      rw c (e ∙ sym same)
]
