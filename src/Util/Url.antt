-- ===== src/Util/Url.antt =====
-- The escapes of EASY_UTIL: Encode, Decode, Encode_ex and Decode_ex of comm/sys_comm.cpp, prot_encode
-- and prot_strim of comm/isgw_comm.cpp.
pub mod RoundTrip
use teaf.Prelude.{
  ℕ, zero, suc, ◌+◌, ◌-◌, ◌*◌, ◌/◌, ◌%◌, Bool, true, false, not, ◌&&◌, ◌||◌, List, [], ◌∷◌, ◌++◌,
  ltb, leb, ◌==◌, if◌then◌else◌, Bytes, is_digit, is_xdigit, get_or, length, take,
}

-- The digit for a number below 16, in MAPX and by `%X`.
abbrev pub hex_upper : ℕ → ℕ
hex_upper n = if ltb n 10 then b'0' + n else b'A' + (n - 10)

abbrev pub char_to_hex : ℕ → Bytes
char_to_hex c = hex_upper (c / 16 % 16) ∷ hex_upper (c % 16) ∷ []

abbrev pub to_upper : ℕ → ℕ
to_upper c = if leb b'a' c && leb c b'z' then c - 32 else c

abbrev pub to_lower : ℕ → ℕ
to_lower c = if leb b'A' c && leb c b'Z' then c + 32 else c

-- `c2` of HexToChar, an unsigned char.
abbrev pub hex_digit : ℕ → ℕ
hex_digit c =
    if leb b'A' (to_upper c) then to_upper c - (b'A' - 10) else (to_upper c + 256 - b'0') % 256

abbrev pub hex_fold : Bytes → ℕ → ℕ
hex_fold [] c = c
hex_fold (x ∷ xs) c = hex_fold xs ((c * 16 + hex_digit x) % 256)

abbrev pub hex_to_char : Bytes → ℕ
hex_to_char s = hex_fold (take 2 s) 0

-- `"%" + CharToHex(c)`, and `"%%%02X"` for a character below 128.
abbrev pub escape_char : ℕ → Bytes
escape_char c = b'%' ∷ char_to_hex c

abbrev pub is_alnum : ℕ → Bool
is_alnum c = is_digit c || leb b'A' c && leb c b'Z' || leb b'a' c && leb c b'z'

unfoldable pub escape : (ℕ → Bool) → Bytes → Bytes
escape p [] = []
escape p (c ∷ s) = (if p c then escape_char c else c ∷ []) ++ escape p s

abbrev pub one_of : Bytes → ℕ → Bool
one_of [] c = false
one_of (x ∷ xs) c = c == x || one_of xs c

unfoldable pub encode : Bytes → Bytes
encode = escape (λ c. not (is_alnum c))

-- The cases of the `switch` in Encode_ex.
abbrev pub specials : Bytes
specials =
    b'~' ∷ b'`' ∷ b'!' ∷ b'@' ∷ b'#' ∷ b'$' ∷ b'%' ∷ b'^' ∷ b'&' ∷ b'*' ∷ b'(' ∷ b')' ∷ b'-' ∷ b'_'
    ∷ b'+' ∷ b'=' ∷ b'{' ∷ b'}' ∷ b'[' ∷ b']' ∷ b'|' ∷ b'\\' ∷ b';' ∷ b':' ∷ 34 ∷ 39 ∷ b',' ∷ b'<'
    ∷ b'>' ∷ b'.' ∷ b'?' ∷ b'/' ∷ b' ' ∷ 10 ∷ 13 ∷ []

unfoldable pub encode_ex : Bytes → Bytes
encode_ex = escape (one_of specials)

-- What `strlen` and the loops over a C string see.
abbrev pub c_str : Bytes → Bytes
c_str [] = []
c_str (c ∷ s) = if c == 0 then [] else c ∷ c_str s

-- Each case appends the escape of its character, written out in the source.
abbrev pub prot_specials : Bytes
prot_specials = b'&' ∷ b'=' ∷ b'|' ∷ b' ' ∷ b',' ∷ b':' ∷ b'%' ∷ b'~' ∷ []

unfoldable pub prot_encode : Bytes → Bytes
prot_encode src = escape (one_of prot_specials) (c_str src)

abbrev pub strim_specials : Bytes
strim_specials = b'&' ∷ b'=' ∷ b'|' ∷ b'%' ∷ b' ' ∷ b':' ∷ []

abbrev pub strim : Bytes → Bytes
strim [] = []
strim (c ∷ s) = if one_of strim_specials c then strim s else c ∷ strim s

unfoldable pub prot_strim : Bytes → Bytes
prot_strim src = strim (c_str src)

-- What a round of Decode appends at `c`, with `rest` behind it, and how many characters more it takes.
-- `%uABCD` appends the two bytes of a little-endian short.
unfoldable pub decode_at : ℕ → Bytes → Bytes × ℕ
decode_at c rest =
    let at = get_or rest in
    if c == b'%' && ltb 1 (length rest)
    then (if to_lower (at 0 0) == b'u'
          && ltb 4 (length rest)
          && is_xdigit (at 1 0)
          && is_xdigit (at 2 0)
          && is_xdigit (at 3 0)
          && is_xdigit (at 4 0)
        then (hex_to_char (at 3 0 ∷ at 4 0 ∷ []) ∷ hex_to_char (at 1 0 ∷ at 2 0 ∷ []) ∷ [], 5)
        else if is_xdigit (at 0 0) && is_xdigit (at 1 0)
        then (hex_to_char (at 0 0 ∷ at 1 0 ∷ []) ∷ [], 2)
        else (b'%' ∷ [], 0))
    else (c ∷ [], 0)

-- For a string of one character, `len - 2` wraps, and the terminator is read, which is no digit.
unfoldable pub decode_ex_at : ℕ → Bytes → Bytes × ℕ
decode_ex_at c rest =
    if c == b'%'
      && ltb 1 (length rest)
      && is_xdigit (get_or rest 0 0)
      && is_xdigit (get_or rest 1 0)
    then (hex_to_char (get_or rest 0 0 ∷ get_or rest 1 0 ∷ []) ∷ [], 2)
    else (c ∷ [], 0)

-- The loop of a decoder. `skip` counts the characters that its last round took.
unfoldable pub decode_from : (ℕ → Bytes → Bytes × ℕ) → ℕ → Bytes → Bytes
decode_from round skip [] = []
decode_from round (suc skip) (c ∷ s) = decode_from round skip s
decode_from round zero (c ∷ s) = (round c s).0 ++ decode_from round (round c s).1 s

unfoldable pub decode : Bytes → Bytes
decode = decode_from decode_at 0

unfoldable pub decode_ex : Bytes → Bytes
decode_ex = decode_from decode_ex_at 0
