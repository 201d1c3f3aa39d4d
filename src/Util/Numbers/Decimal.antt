-- ===== src/Util/Numbers/Decimal.antt =====
-- A number that is printed is read back.
use teaf.Prelude.{
  ℕ, zero, suc, ◌+◌, ◌-◌, ◌*◌, ◌/◌, ◌%◌, ◌^◌, ◌<◌, ◌≡◌, ◌∙◌, refl, ap, Bool, true, false, [], ◌∷◌,
  ◌++◌, All, arith, ltb, ◌==◌, Bytes, is_digit, pos, u32_mod, to_u32, Bool-cases, inl, inr,
}
use teaf.Util.Hex.{is_space}
use teaf.Util.Numbers.{digits_value, atoi, to_unsigned, decimal_loop, decimal}

abbrev pub AreDigits : Bytes → Type 0
AreDigits = All (λ c. is_digit c ≡ true)

abbrev pub starts_number : Bytes → Bool
starts_number [] = false
starts_number (c ∷ s) = is_digit c

digit_char : (n : ℕ) → n < 10 → is_digit (b'0' + n) ≡ true
digit_char n h = ground arith

decimal_loop-AreDigits : (f n : ℕ) (acc : Bytes) → AreDigits acc → AreDigits (decimal_loop f n acc)
decimal_loop-AreDigits zero n acc h = h
decimal_loop-AreDigits (suc f) n acc h = elim (Bool-cases (ltb n 10)) [
  | inl small ↦ rw small (digit_char n (ground arith), h)
  | inr large ↦ rw large (
      decimal_loop-AreDigits f (n / 10) ((b'0' + n % 10) ∷ acc)
        (digit_char (n % 10) (omega arith), h))
]

pub decimal-AreDigits : (n : ℕ) → AreDigits (decimal n)
unfolding decimal
decimal-AreDigits n = decimal_loop-AreDigits 10 n [] tt

digits_value-digit :
    (d : ℕ) (s : Bytes) (acc : ℕ)
    → d < 10
    → digits_value ((b'0' + d) ∷ s) acc ≡ digits_value s (acc * 10 + d)
unfolding digits_value
digits_value-digit d s acc h =
    let value : b'0' + d - b'0' ≡ d = omega arith in rw (digit_char d h, value) refl

digits_value-loop :
    (f n : ℕ) (acc : Bytes)
    → n < 10 ^ f
    → digits_value (decimal_loop f n acc) 0 ≡ digits_value acc n
digits_value-loop zero n acc h = let zero_n : n ≡ 0 = omega arith in rw zero_n refl
digits_value-loop (suc f) n acc h = elim (Bool-cases (ltb n 10)) [
  | inl small ↦
      rw small (digits_value-digit n acc 0 (ground arith) ∙ ap (digits_value acc) (omega arith))
  | inr large ↦
      let whole : n / 10 * 10 + n % 10 ≡ n = omega arith in
      rw large (
        digits_value-loop f (n / 10) ((b'0' + n % 10) ∷ acc) (ground arith)
        ∙ (digits_value-digit (n % 10) acc (n / 10) (omega arith) ∙ ap (digits_value acc) whole))
]

-- The digits of a number, with any text behind them.
decimal_loop-append :
    (f n : ℕ) (acc rest : Bytes) → decimal_loop f n acc ++ rest ≡ decimal_loop f n (acc ++ rest)
decimal_loop-append zero n acc rest = refl
decimal_loop-append (suc f) n acc rest = elim (Bool-cases (ltb n 10)) [
  | inl small ↦ rw small refl
  | inr large ↦ rw large (decimal_loop-append f (n / 10) ((b'0' + n % 10) ∷ acc) rest)
]

digits_value-stop : (rest : Bytes) (n : ℕ) → starts_number rest ≡ false → digits_value rest n ≡ n
unfolding digits_value
digits_value-stop [] n h = refl
digits_value-stop (c ∷ s) n h = rw h refl

digits_value-decimal :
    (n : ℕ) (rest : Bytes)
    → n < u32_mod
    → starts_number rest ≡ false
    → digits_value (decimal n ++ rest) 0 ≡ n
unfolding decimal
digits_value-decimal n rest h stop =
    ap (λ s. digits_value s 0) (decimal_loop-append 10 n [] rest)
    ∙ (digits_value-loop 10 n rest (omega arith) ∙ digits_value-stop rest n stop)

starts_loop :
    (f n : ℕ) (acc : Bytes) → starts_number acc ≡ true → starts_number (decimal_loop f n acc) ≡ true
starts_loop zero n acc h = h
starts_loop (suc f) n acc h = elim (Bool-cases (ltb n 10)) [
  | inl small ↦ rw small (digit_char n (ground arith))
  | inr large ↦
      rw large (starts_loop f (n / 10) ((b'0' + n % 10) ∷ acc) (digit_char (n % 10) (omega arith)))
]

starts-decimal : (n : ℕ) → starts_number (decimal n) ≡ true
unfolding decimal
starts-decimal n = elim (Bool-cases (ltb n 10)) [
  | inl small ↦ rw small (digit_char n (ground arith))
  | inr large ↦
      rw large (starts_loop 9 (n / 10) ((b'0' + n % 10) ∷ []) (digit_char (n % 10) (omega arith)))
]

atoi-digit : (s : Bytes) → starts_number s ≡ true → atoi s ≡ pos (digits_value s 0)
unfolding atoi
atoi-digit [] h = absurd (cc)
atoi-digit (c ∷ s) h =
    let no_space : is_space c ≡ false = ground arith in
    let no_minus : (c == b'-') ≡ false = ground arith in
    let no_plus : (c == b'+') ≡ false = ground arith in rw (no_space, no_minus, no_plus) refl

starts-append : (s rest : Bytes) → starts_number s ≡ true → starts_number (s ++ rest) ≡ true
starts-append [] rest h = absurd (cc)
starts-append (c ∷ s) rest h = h

-- A 32-bit number that is printed, with no digit behind it, is read back.
pub atoi-decimal :
    (n : ℕ) (rest : Bytes)
    → n < u32_mod
    → starts_number rest ≡ false
    → atoi (decimal n ++ rest) ≡ pos n
atoi-decimal n rest h stop =
    atoi-digit (decimal n ++ rest) (starts-append (decimal n) rest (starts-decimal n))
    ∙ ap pos (digits_value-decimal n rest h stop)

pub to_unsigned-decimal :
    (n : ℕ) (rest : Bytes)
    → n < u32_mod
    → starts_number rest ≡ false
    → to_unsigned (decimal n ++ rest) ≡ n
unfolding to_unsigned
to_unsigned-decimal n rest h stop = ap to_u32 (atoi-decimal n rest h stop) ∙ omega arith
