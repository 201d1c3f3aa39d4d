-- ===== src/Bitmap/Refine.antt =====
-- comm/shm_bitmap_manager.cpp as a set of numbers: what each operation does to the set, and what it
-- returns.
use Prim.Native.Nat.{bit_and, bit_or}
use teaf.Prelude.{
  ℕ, ◌-◌, ◌/◌, ◌%◌, ◌^◌, ◌<◌, ◌≡◌, ◌≢◌, ◌∙◌, refl, sym, ap, subst, Bool, true, false, some, List,
  [], ◌∷◌, arith, ltb, ◌==◌, if◌then◌else◌, pos, inl, inr, Bool-cases, ==_iff,
}
use teaf.Bitmap.{
  Bitmap, Flag, bitmap_chk, bitmap_set, bitmap_clr, read_byte, test_bit, uin_bit, bit_now, store,
  handle_shm_bit_i, guarded, get_bit, open_shm, limit, get_share_memory, Shm, absent, clear,
}
use teaf.Bitmap.Bits.{test_bit-bit_or, test_bit-bit_and, test_bit-zero}

-- The byte that an operation leaves.
abbrev apply : Flag → ℕ → ℕ → ℕ
apply bitmap_chk byte bit = byte
apply bitmap_set byte bit = bit_or byte bit
apply bitmap_clr byte bit = bit_and byte (255 - bit)

-- What an operation makes of a bit.
abbrev pub effect : Flag → ℕ → ℕ
effect bitmap_chk b = b
effect bitmap_set b = 1
effect bitmap_clr b = 0

test_bit-apply :
    (flag : Flag) (i j b : ℕ)
    → i < 8
    → j < 8
    → b < 256
    → test_bit (apply flag b (2 ^ i) % 256) (2 ^ j)
      ≡ (if j == i then effect flag (test_bit b (2 ^ i)) else test_bit b (2 ^ j))
test_bit-apply bitmap_chk i j b hi hj hb =
    let small : b % 256 ≡ b = omega arith in
    rw small (elim (Bool-cases (j == i)) [
      | inl same ↦ let eq : j ≡ i = ground arith in rw (same, eq) refl
      | inr other ↦ rw other refl
    ])
test_bit-apply bitmap_set i j b hi hj hb = test_bit-bit_or i j b hi hj hb
test_bit-apply bitmap_clr i j b hi hj hb = test_bit-bit_and i j b hi hj hb

store-byte :
    (flag : Flag) (a : ℕ → ℕ) (uin : ℕ)
    → read_byte (store flag a uin) (uin / 8)
      ≡ apply flag (read_byte a (uin / 8)) (uin_bit uin) % 256
unfolding store
store-byte bitmap_chk a uin = omega arith
store-byte bitmap_set a uin = let here : (uin / 8 == uin / 8) ≡ true = ground arith in rw here refl
store-byte bitmap_clr a uin = let here : (uin / 8 == uin / 8) ≡ true = ground arith in rw here refl

store-elsewhere :
    (flag : Flag) (a : ℕ → ℕ) (uin i : ℕ)
    → i ≢ uin / 8
    → read_byte (store flag a uin) i ≡ read_byte a i
unfolding store
store-elsewhere bitmap_chk a uin i h = refl
store-elsewhere bitmap_set a uin i h =
    let apart : (i == uin / 8) ≡ false = ground arith in rw apart refl
store-elsewhere bitmap_clr a uin i h =
    let apart : (i == uin / 8) ≡ false = ground arith in rw apart refl

same_test : (v uin : ℕ) → v / 8 ≡ uin / 8 → (v % 8 == uin % 8) ≡ (v == uin)
same_test v uin h = ground arith

-- The bits of other numbers keep their value, those of the same byte included.
pub bit_now-store :
    (flag : Flag) (a : ℕ → ℕ) (uin v : ℕ)
    → bit_now (store flag a uin) v ≡ (if v == uin then effect flag (bit_now a uin) else bit_now a v)
unfolding bit_now
bit_now-store flag a uin v = elim (Bool-cases (v / 8 == uin / 8)) [
  | inl same ↦
      let eq : v / 8 ≡ uin / 8 = (==_iff (v / 8) (uin / 8)).0 same in
      rw (eq, store-byte flag a uin, sym (same_test v uin eq))
        (test_bit-apply flag (uin % 8) (v % 8) (read_byte a (uin / 8)) (omega arith) (omega arith)
          (omega arith))
  | inr other ↦
      let differ : (v == uin) ≡ false = ground arith in
      rw (differ, store-elsewhere flag a uin (v / 8) (ground arith)) refl
]

-- The set that a bitmap stands for.
abbrev pub Uins : Type 0
Uins = ℕ → Bool

abbrev pub as_bit : Bool → ℕ
as_bit true = 1
as_bit false = 0

abbrev pub chosen : Flag → Bool → Bool
chosen bitmap_chk b = b
chosen bitmap_set b = true
chosen bitmap_clr b = false

-- Only a number below the limit can enter or leave the set.
abbrev pub after : ℕ → Flag → ℕ → Uins → Uins
after max_uin flag uin u v =
    if ltb uin max_uin then (if v == uin then chosen flag (u v) else u v) else u v

-- `m` is mapped to `a`, and its bits below the limit are those of `u`.
pub record Represents (m : Bitmap) (a : ℕ → ℕ) (u : Uins) : Type 0 where
  pub memory : m.shm_addr ≡ some a
  pub bits : (v : ℕ) → v < m.max_uin → bit_now a v ≡ as_bit (u v)

as_bit-chosen : (flag : Flag) (b : Bool) → effect flag (as_bit b) ≡ as_bit (chosen flag b)
as_bit-chosen bitmap_chk b = refl
as_bit-chosen bitmap_set b = refl
as_bit-chosen bitmap_clr b = refl

store-bits :
    (flag : Flag) (max_uin uin : ℕ) (a : ℕ → ℕ) (u : Uins)
    → uin < max_uin
    → ((v : ℕ) → v < max_uin → bit_now a v ≡ as_bit (u v))
    → (v : ℕ) → v < max_uin
    → bit_now (store flag a uin) v ≡ as_bit (after max_uin flag uin u v)
store-bits flag max_uin uin a u below bits v hv =
    let within : ltb uin max_uin ≡ true = ground arith in
    rw (bit_now-store flag a uin v, within)
      (elim (Bool-cases (v == uin)) [
        | inl same ↦
            let eq : v ≡ uin = (==_iff v uin).0 same in
            rw (same, bits uin below, eq) (as_bit-chosen flag (u uin))
        | inr other ↦ rw other (bits v hv)
      ])

store_self :
    (flag : Flag) (uin : ℕ) (a : ℕ → ℕ) (u : Uins)
    → bit_now a uin ≡ as_bit (u uin)
    → bit_now (store flag a uin) uin ≡ as_bit (chosen flag (u uin))
store_self flag uin a u bit =
    let here : (uin == uin) ≡ true = ground arith in
    rw (bit_now-store flag a uin uin, here, bit) (as_bit-chosen flag (u uin))

-- The memory and the set that the operation on `uin` leaves.
abbrev pub memory_after : Bitmap → Flag → (ℕ → ℕ) → ℕ → ℕ → ℕ
memory_after m flag a uin = if ltb uin m.max_uin then store flag a uin else a

-- get_bit, set_bit and clr_bit on the bitmap of a set, for any number, leave the bitmap of the same
-- set with that number untouched, entered or removed; a number that is not below the limit changes
-- nothing. What they return is the number's bit after the call, and 0 beyond the limit.
pub guarded-Represents :
    (flag : Flag) (m : Bitmap) (uin : ℕ) (a : ℕ → ℕ) (u : Uins)
    → Represents m a u
    → Represents (guarded flag m uin).0 (memory_after m flag a uin) (after m.max_uin flag uin u)
      × ((guarded flag m uin).1
          ≡ (if ltb uin m.max_uin then pos (as_bit (chosen flag (u uin))) else pos 0))
unfolding guarded handle_shm_bit_i
guarded-Represents flag m uin a u r = elim (Bool-cases (ltb uin m.max_uin)) [
  | inl within ↦
      let below : uin < m.max_uin = ground arith in
      let kept = store-bits flag m.max_uin uin a u below r.bits in
      rw (guarded, within, handle_shm_bit_i, r.memory)
        (record { memory = refl; bits = kept }, ap pos (store_self flag uin a u (r.bits uin below)))
  | inr beyond ↦
      rw (guarded, beyond)
        (record { memory = r.memory; bits = λ v hv. rw beyond (r.bits v hv) }, refl)
]

-- Where `open_shm` creates the segment, and the limit is a multiple of 8, the bitmap is that of the
-- empty set.
pub open_shm-Represents :
    (key max_uin : ℕ) (shm : Shm) (a : ℕ → ℕ)
    → shm.lookup ≡ absent
    → shm.creates ≡ true
    → shm.attached ≡ some a
    → limit key max_uin % 8 ≡ 0
    → Represents (open_shm key max_uin shm).0 (clear (limit key max_uin / 8) a) (λ v. false)
      × ((open_shm key max_uin shm).1 ≡ pos 0)
unfolding open_shm get_share_memory bit_now
open_shm-Represents key max_uin shm a new creates attached whole =
    rw (open_shm, get_share_memory, new, creates, attached)
      (
        record {
          memory = refl;
          bits = λ v hv.
              let inside : ltb (v / 8) (limit key max_uin / 8) ≡ true = ground arith in
              rw inside (test_bit-zero (v % 8) (omega arith));
        },
        refl,
      )

-- A call of one of the three operations.
pub record Call : Type 0 where
  pub flag : Flag
  pub uin : ℕ

abbrev pub run : Bitmap → List Call → Bitmap
run m [] = m
run m (c ∷ cs) = run (guarded c.flag m c.uin).0 cs

abbrev pub set_of : ℕ → Uins → List Call → Uins
set_of max_uin u [] = u
set_of max_uin u (c ∷ cs) = set_of max_uin (after max_uin c.flag c.uin u) cs

pub guarded-max_uin :
    (flag : Flag) (m : Bitmap) (uin : ℕ) → (guarded flag m uin).0.max_uin ≡ m.max_uin
unfolding guarded handle_shm_bit_i
guarded-max_uin flag m uin = ground arith

-- After any calls of get_bit, set_bit and clr_bit the memory holds the bits of the set that the
-- calls make of the set before them.
pub run-Represents :
    (m : Bitmap) (cs : List Call) (a : ℕ → ℕ) (u : Uins)
    → Represents m a u
    → (b : ℕ → ℕ) × Represents (run m cs) b (set_of m.max_uin u cs)
run-Represents m [] a u r = (a, r)
run-Represents m (c ∷ cs) a u r =
    subst
      (λ n.
        (b : ℕ → ℕ) × Represents (run (guarded c.flag m c.uin).0 cs) b
          (set_of n (after m.max_uin c.flag c.uin u) cs))
      (guarded-max_uin c.flag m c.uin)
      (run-Represents (guarded c.flag m c.uin).0 cs _ _ (guarded-Represents c.flag m c.uin a u r).0)

run-max_uin : (m : Bitmap) (cs : List Call) → (run m cs).max_uin ≡ m.max_uin
run-max_uin m [] = refl
run-max_uin m (c ∷ cs) = run-max_uin (guarded c.flag m c.uin).0 cs ∙ guarded-max_uin c.flag m c.uin

pos-member :
    (below b : Bool)
    → (if below then pos (as_bit b) else pos 0) ≡ pos (as_bit (if below then b else false))
pos-member true b = refl
pos-member false b = refl

abbrev pub member : Uins → List Call → ℕ → ℕ → Bool
member u cs max_uin v = if ltb v max_uin then set_of max_uin u cs v else false

-- On the bitmap of a set, `get_bit` after any calls answers whether the number is in the set that
-- the calls make of it, and 0 for a number that is not below the limit.
pub get_bit-run :
    (m : Bitmap) (cs : List Call) (v : ℕ) (a : ℕ → ℕ) (u : Uins)
    → Represents m a u
    → (get_bit (run m cs) v).1 ≡ pos (as_bit (member u cs m.max_uin v))
get_bit-run m cs v a u r =
    let answer = (guarded-Represents bitmap_chk (run m cs) v _ _ (run-Represents m cs a u r).1).1 in
    answer ∙ rw (run-max_uin m cs) (pos-member (ltb v m.max_uin) (set_of m.max_uin u cs v))
