-- ===== src/Util/Hex.antt =====
-- The hexadecimal forms of EASY_UTIL in comm/sys_comm.cpp: Base64Encode and Base64Decode (which are
-- hexadecimal, too), bin2hex, hex2bin, hex2str and str2hex.
pub mod RoundTrip
pub mod Stride
use teaf.Prelude.{
  ℕ, zero, suc, ◌+◌, ◌-◌, ◌*◌, ◌/◌, ◌%◌, Bool, true, false, not, ◌&&◌, ◌||◌, Option, none, some,
  List, [], ◌∷◌, ◌++◌, ltb, leb, ◌==◌, if◌then◌else◌, Bytes, is_digit, is_xdigit, length, set, ℤ,
  pos, negsuc,
}
use teaf.Util.Url.{hex_upper}

-- `sprintf(buff, "%02X", c)` for each byte.
unfoldable pub base64_encode : Bytes → Bytes
base64_encode [] = []
base64_encode (c ∷ s) = hex_upper (c / 16) ∷ hex_upper (c % 16) ∷ base64_encode s

-- The value of a hexadecimal digit of either case.
abbrev pub xdigit_value : ℕ → ℕ
xdigit_value c =
    if leb c b'9' then c - b'0' else if leb c b'F' then c - b'A' + 10 else c - b'a' + 10

abbrev pub is_space : ℕ → Bool
is_space c = c == 32 || leb 9 c && leb c 13

-- `int c = 0; sscanf(s, "%02X", &c)` for a string of two characters, and the low byte of `c`: a space
-- before the number is skipped, a sign and a prefix 0x are part of it, and `c` stays 0 without a digit.
abbrev pub scan_hex : ℕ → ℕ → ℕ
scan_hex a b =
    if is_xdigit a
    then (if is_xdigit b then xdigit_value a * 16 + xdigit_value b else xdigit_value a)
    else if (is_space a || a == b'+') && is_xdigit b
    then xdigit_value b
    else if a == b'-' && is_xdigit b
    then (256 - xdigit_value b) % 256
    else 0

abbrev pub scan_pairs : Bytes → Bytes
scan_pairs [] = []
scan_pairs (a ∷ []) = []
scan_pairs (a ∷ b ∷ s) = scan_hex a b ∷ scan_pairs s

unfoldable pub base64_decode : Bytes → Bytes
base64_decode s = if length s % 2 == 0 then scan_pairs s else []

-- DIG2CHR, and the `hexmap` of bin2hex.
abbrev pub hex_lower : ℕ → ℕ
hex_lower n = if leb n 9 then b'0' + n else b'a' + (n - 10)

unfoldable pub hex2str : Bytes → Bytes
hex2str [] = []
hex2str (c ∷ s) = hex_lower (c / 16 % 16) ∷ hex_lower (c % 16) ∷ hex2str s

-- `(data[i] & 0xF0) >> 4`; a negative length gives the empty string, as the empty list does.
unfoldable pub bin2hex : Bytes → Bytes
bin2hex [] = []
bin2hex (c ∷ s) = hex_lower (c / 16 % 16) ∷ hex_lower (c % 16) ∷ bin2hex s

-- CHR2DIG, an `int`; its low byte.
abbrev pub chr2dig : ℕ → ℕ
chr2dig c =
    if leb b'0' c && leb c b'9'
    then c - b'0'
    else if leb b'a' c && leb c b'f'
    then c - b'a' + 10
    else (c + 256 - b'A' + 10) % 256

-- The `len` bytes that are stored for `2 * len` characters. `(dig << 4) & 0xf0` is the low digit of
-- `dig`, shifted.
unfoldable pub str2hex : Bytes → Bytes
str2hex [] = []
str2hex (a ∷ []) = []
str2hex (a ∷ b ∷ s) = (chr2dig a % 16 * 16 + chr2dig b) % 256 ∷ str2hex s

-- The digit that hex2bin reads in `c`, or `continue`.
abbrev pub hex_value : ℕ → Option ℕ
hex_value c =
    if ltb 47 c && ltb c 58
    then some (c - 48)
    else if ltb 64 c && ltb c 71
    then some (c - 55)
    else if ltb 96 c && ltb c 103
    then some (c - 87)
    else none

-- `first`, `b` and the output of the loop.
pub record Hex2bin : Type 0 where
  pub first : Bool
  pub b : ℕ
  pub output : List ℕ

-- One round at the index `k = i / 2`, for `c = src[i]`.
unfoldable pub hex2bin_round : ℕ → ℕ → Hex2bin → Hex2bin
hex2bin_round c k s = elim (hex_value c) [
  | none ↦ s
  | some v ↦
      (if s.first
        then record s { first = false; b = v * 16 }
        else record s { first = true; output = set s.output k ((s.b + v) % 256) })
]

-- `i` goes up by two, so that every other character is read.
unfoldable pub hex2bin_loop : Bytes → ℕ → Hex2bin → Hex2bin
hex2bin_loop [] k s = s
hex2bin_loop (c ∷ []) k s = hex2bin_round c k s
hex2bin_loop (c ∷ d ∷ cs) k s = hex2bin_loop cs (k + 1) (hex2bin_round c k s)

-- `output` is the caller's buffer of `len` bytes; `b` has no value at first, and is not read before it
-- has one.
unfoldable pub hex2bin : Bytes → List ℕ → ℕ → List ℕ × ℤ
hex2bin src output len =
    if not (length src % 2 == 0) || leb (2 * len) (length src)
    then (output, negsuc 0)
    else ((hex2bin_loop src 0 (record { first = true; b = 0; output = output })).output, pos 0)
