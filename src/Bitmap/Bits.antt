-- ===== src/Bitmap/Bits.antt =====
-- comm/shm_bitmap_manager.cpp: the bits of one byte, checked for every byte and pair of bits.
use Prim.Native.Nat.{bit_and, bit_or}
use teaf.Prelude.{
  ℕ, ◌-◌, ◌%◌, ◌^◌, ◌<◌, ◌≡◌, refl, Bool, true, ◌==◌, ==_iff, if◌then◌else◌, each, each-at,
}
use teaf.Bitmap.{test_bit}

abbrev Table : (ℕ → ℕ → ℕ → Bool) → Type 0
Table p = each (λ i. each (λ j. each (p i j) 256) 8) 8 ≡ true

Table-at : (p : ℕ → ℕ → ℕ → Bool) (i j b : ℕ) → Table p → i < 8 → j < 8 → b < 256 → p i j b ≡ true
Table-at p i j b all hi hj hb =
    each-at (p i j) 256 b
      (each-at (λ k. each (p i k) 256) 8 j
        (each-at (λ k. each (λ l. each (p k l) 256) 8) 8 i all hi) hj)
      hb

abbrev sets : ℕ → ℕ → ℕ → Bool
sets i j b = test_bit (bit_or b (2 ^ i) % 256) (2 ^ j) == (if j == i then 1 else test_bit b (2 ^ j))

abbrev clears : ℕ → ℕ → ℕ → Bool
clears i j b =
    test_bit (bit_and b (255 - 2 ^ i) % 256) (2 ^ j) == (if j == i then 0 else test_bit b (2 ^ j))

sets-Table : Table sets
unfolding each
sets-Table = refl

clears-Table : Table clears
unfolding each
clears-Table = refl

pub test_bit-bit_or :
    (i j b : ℕ)
    → i < 8
    → j < 8
    → b < 256
    → test_bit (bit_or b (2 ^ i) % 256) (2 ^ j) ≡ (if j == i then 1 else test_bit b (2 ^ j))
test_bit-bit_or i j b hi hj hb = (==_iff _ _).0 (Table-at sets i j b sets-Table hi hj hb)

pub test_bit-bit_and :
    (i j b : ℕ)
    → i < 8
    → j < 8
    → b < 256
    → test_bit (bit_and b (255 - 2 ^ i) % 256) (2 ^ j) ≡ (if j == i then 0 else test_bit b (2 ^ j))
test_bit-bit_and i j b hi hj hb = (==_iff _ _).0 (Table-at clears i j b clears-Table hi hj hb)

blank : ℕ → Bool
blank i = test_bit 0 (2 ^ i) == 0

blank-each : each blank 8 ≡ true
unfolding each blank
blank-each = refl

pub test_bit-zero : (i : ℕ) → i < 8 → test_bit 0 (2 ^ i) ≡ 0
unfolding blank
test_bit-zero i hi = (==_iff _ _).0 (each-at blank 8 i blank-each hi)
