-- ===== src/Gtpv2c/TmrHeap/Timeval.antt =====
-- `struct timeval` and the comparisons by NW_GTPV2C_TIMER_CMP_P.
use linkerepc.Prelude.{ℕ, ◌≡◌, Bool, true, false, ltb, ◌==◌, if◌then◌else◌, arith}

pub record Time : Type 0 where
  pub tv_sec : ℕ
  pub tv_usec : ℕ

unfoldable pub timer_gt : Time → Time → Bool
timer_gt a b = if a.tv_sec == b.tv_sec then ltb b.tv_usec a.tv_usec else ltb b.tv_sec a.tv_sec

unfoldable pub timer_lt : Time → Time → Bool
timer_lt a b = if a.tv_sec == b.tv_sec then ltb a.tv_usec b.tv_usec else ltb a.tv_sec b.tv_sec

-- `a` is not after `b`.
abbrev pub NotAfter : Time → Time → Type 0
NotAfter a b = timer_gt a b ≡ false

pub NotAfter-refl : (a : Time) → NotAfter a a
unfolding timer_gt
NotAfter-refl a = ground arith

pub NotAfter-trans : (a b c : Time) → NotAfter a b → NotAfter b c → NotAfter a c
unfolding timer_gt
NotAfter-trans a b c p q = ground arith

pub NotAfter-of_gt : (a b : Time) → timer_gt a b ≡ true → NotAfter b a
unfolding timer_gt
NotAfter-of_gt a b p = ground arith

pub NotAfter-of_lt : (a b : Time) → timer_lt a b ≡ true → NotAfter a b
unfolding timer_gt timer_lt
NotAfter-of_lt a b p = ground arith

pub NotAfter-of_ge : (a b : Time) → timer_lt a b ≡ false → NotAfter b a
unfolding timer_gt timer_lt
NotAfter-of_ge a b p = ground arith
