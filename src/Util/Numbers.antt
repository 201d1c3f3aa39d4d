-- ===== src/Util/Numbers.antt =====
-- Numbers in text, as the helpers of comm/sys_comm.cpp read and print them: atoi, atoll and strtoul,
-- and `%u`. A number that does not fit the type of atoi or atoll is left out.
pub mod Decimal
use teaf.Prelude.{
  ℕ, zero, suc, ◌+◌, ◌-◌, ◌*◌, ◌/◌, ◌%◌, Bool, true, false, ◌&&◌, ◌||◌, List, [], ◌∷◌, ltb, leb,
  ◌==◌, if◌then◌else◌, Bytes, is_digit, ℤ, pos, negsuc, to_u32,
}
use teaf.Util.Hex.{is_space}

unfoldable pub digits_value : Bytes → ℕ → ℕ
digits_value [] acc = acc
digits_value (c ∷ s) acc =
    let more = digits_value s (acc * 10 + (c - b'0')) in if is_digit c then more else acc

-- -n.
abbrev pub neg_ℕ : ℕ → ℤ
neg_ℕ zero = pos 0
neg_ℕ (suc n) = negsuc n

abbrev pub signed_value : Bytes → ℤ
signed_value [] = pos 0
signed_value (c ∷ s) =
    if c == b'-'
    then neg_ℕ (digits_value s 0)
    else if c == b'+'
    then pos (digits_value s 0)
    else pos (digits_value (c ∷ s) 0)

abbrev pub skip_spaces : Bytes → Bytes
skip_spaces [] = []
skip_spaces (c ∷ s) = let r = skip_spaces s in if is_space c then r else c ∷ s

unfoldable pub atoi : Bytes → ℤ
atoi s = signed_value (skip_spaces s)

-- `unsigned u = atoll(...)`.
unfoldable pub to_unsigned : Bytes → ℕ
unfolding atoi
to_unsigned s = to_u32 (atoi s)

abbrev pub decimal_loop : ℕ → ℕ → Bytes → Bytes
decimal_loop zero n acc = acc
decimal_loop (suc f) n acc =
    if ltb n 10 then (b'0' + n) ∷ acc else decimal_loop f (n / 10) ((b'0' + n % 10) ∷ acc)

-- Ten digits are enough for 32 bits.
unfoldable pub decimal : ℕ → Bytes
decimal n = decimal_loop 10 n []
