-- ===== src/Gtpv2c/TmrHeap/Tests.antt =====
-- The timer heap of NwGtpv2c.c with room for three timers, and with two in it.
use linkerepc.Prelude.{ℕ, ◌≡◌, ◌≢◌, refl, arith, ◌⊎◌, ◌==◌, if◌then◌else◌, some}
use linkerepc.Gtpv2c.TmrHeap.{TmrHeap, Time, timer_gt, peek, insert, remove, removed, remove_at}
use linkerepc.Gtpv2c.TmrHeap.Sift.{Before}
use linkerepc.Gtpv2c.TmrHeap.Contract.{IsHeap, Member, peek_least}
use linkerepc.Gtpv2c.TmrHeap.Contract.Insert.{Inserted, insert-Inserted}
use linkerepc.Gtpv2c.TmrHeap.Contract.Cut.{Removed}
use linkerepc.Gtpv2c.TmrHeap.Contract.Remove.{remove-Removed}

-- Timer 7 is due first, then 8, then 9.
abbrev due : ℕ → Time
due t = record { tv_sec = 100; tv_usec = t }

abbrev empty : TmrHeap
empty = record { curr_size = 0; max_size = 4; slot = λ _. 0; index = λ _. 0; tv = due }

abbrev two : TmrHeap
two = record {
  curr_size = 2;
  max_size = 4;
  slot = λ i. if i == 0 then 7 else if i == 1 then 8 else 0;
  index = λ t. if t == 8 then 1 else if t == 9 then 4294967295 else 0;
  tv = due;
}

two-IsHeap : IsHeap two
unfolding timer_gt
two-IsHeap = record {
  order = λ c a b. ground arith;
  back = λ i a. ground arith;
  nonnull = λ i a. ground arith;
  bounded = omega arith;
  limited = omega arith;
}

two-without-9 : ¬ Member two 9
two-without-9 m = absurd (ground arith)

peek_least_example :
    ((two.curr_size ≡ 0) × (peek two ≡ 0))
    ⊎ (Member two (peek two) × (peek two ≢ 0) × ((t : ℕ) → Member two t → Before two (peek two) t))
peek_least_example = peek_least two two-IsHeap

insert-Inserted_example : (q : TmrHeap) × (i : ℕ) × (insert two 9 ≡ some (q, i)) × Inserted two 9 q
insert-Inserted_example = insert-Inserted two 9 two-IsHeap (omega arith) two-without-9 (omega arith)

remove-Removed_example : (q : TmrHeap) × (remove two 0 ≡ removed q) × Removed two 7 q
remove-Removed_example = remove-Removed two 7 two-IsHeap (omega arith, refl)

remove-two : remove two 0 ≡ removed (remove_at two 0)
unfolding remove
remove-two = refl
