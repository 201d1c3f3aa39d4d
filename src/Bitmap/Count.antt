-- ===== src/Bitmap/Count.antt =====
-- comm/shm_bitmap_manager.cpp: count_bit.
use teaf.Prelude.{
  ℕ, zero, suc, ◌+◌, ◌-◌, ◌≤◌, ◌<◌, ◌≡◌, ◌∙◌, true, false, arith, ◌==◌, if◌then◌else◌, pos, u32_mod,
  add32, Bool,
}
use teaf.Bitmap.{Bitmap, bit_now, count_loop, count_bit, to_int, max_uin_default}
use teaf.Bitmap.Refine.{Uins, as_bit, Represents}

-- How many of the `n` numbers from `first` are in a set.
abbrev pub members : Uins → ℕ → ℕ → ℕ
members u zero first = 0
members u (suc n) first = as_bit (u first) + members u n (first + 1)

as_bit-le : (b : Bool) → as_bit b ≤ 1
as_bit-le true = omega arith
as_bit-le false = omega arith

pub members-le : (u : Uins) (n first : ℕ) → members u n first ≤ n
members-le u zero first = omega arith
members-le u (suc n) first = omega (arith, members-le u n (first + 1), as_bit-le (u first))

counted :
    (b : Bool) (num : ℕ)
    → num + 1 < u32_mod
    → (if as_bit b == 1 then add32 num 1 else num) ≡ num + as_bit b
counted true num h = omega arith
counted false num h = omega arith

-- The counter does not wrap: it is at most the number of rounds.
count_loop-members :
    (a : ℕ → ℕ) (u : Uins) (max_uin n uin num : ℕ)
    → ((v : ℕ) → v < max_uin → bit_now a v ≡ as_bit (u v))
    → n ≤ max_uin - uin
    → num + n < u32_mod
    → count_loop a n uin num ≡ num + members u n uin
unfolding count_loop
count_loop-members a u max_uin zero uin num bits within small = omega arith
count_loop-members a u max_uin (suc n) uin num bits within small =
    let le = as_bit-le (u uin) in
    rw (bits uin (omega arith), counted (u uin) num (omega arith))
      (count_loop-members a u max_uin n (uin + 1) (num + as_bit (u uin)) bits (omega arith)
          (omega arith)
        ∙ omega arith)

to_int-small : (n : ℕ) → n < max_uin_default → to_int n ≡ pos n
to_int-small n h = ground arith

-- On the bitmap of a set, with a limit of at most 2 ^ 31, count_bit answers how many numbers from
-- 10000 up to the limit are in the set.
pub count_bit-members :
    (m : Bitmap) (a : ℕ → ℕ) (u : Uins)
    → Represents m a u
    → m.max_uin ≤ max_uin_default
    → count_bit m ≡ pos (members u (m.max_uin - 10000) 10000)
unfolding count_bit
count_bit-members m a u r h =
    let le = members-le u (m.max_uin - 10000) 10000 in
    let num : count_loop a (m.max_uin - 10000) 10000 0 ≡ members u (m.max_uin - 10000) 10000 =
      count_loop-members a u m.max_uin (m.max_uin - 10000) 10000 0 r.bits (omega arith)
        (omega arith)
      ∙ omega arith in
    rw (count_bit, r.memory, num) (to_int-small (members u (m.max_uin - 10000) 10000) (omega arith))
