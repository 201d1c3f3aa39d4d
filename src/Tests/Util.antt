-- ===== src/Tests/Util.antt =====
-- comm/sys_comm.cpp: short texts.
use teaf.Prelude.{ℕ, ◌*◌, ◌≡◌, refl, some, List, [], ◌∷◌, ◌++◌, arith, Bytes, get_elem?, drop, pos}
use teaf.Util.Url.{escape, encode, encode_ex, prot_strim, decode_from, decode_at, decode, decode_ex}
use teaf.Util.Url.RoundTrip.{decode-encode}
use teaf.Util.Hex.{
  base64_encode, base64_decode, bin2hex, hex2str, str2hex, hex2bin, hex2bin_loop, hex2bin_round,
}
use teaf.Util.Hex.RoundTrip.{base64_decode-base64_encode}
use teaf.Util.Hex.Stride.{hex2bin-evens}
use teaf.Util.Split.{break_at, skip_all, split, split_loop, split_ign, split_ign_loop}
use teaf.Util.Split.Pieces.{filled, split_ign-split}
use teaf.Util.Maps.{string_to_map, map_to_string, string_to_numbers, numbers_to_string}
use teaf.Util.Maps.RoundTrip.{string_to_map-map_to_string, string_to_numbers-numbers_to_string}
use teaf.Util.Replace.{strip_prefix, find, replace_loop, replace, strip_loop, replace_tag, or_input}
use teaf.Util.Replace.Tags.{HasNoPair, replace_tag-ends, strip_loop-overcut}

-- "a%b=".
abbrev sample : Bytes
sample = b'a' ∷ b'%' ∷ b'b' ∷ b'=' ∷ []

encoded : encode sample ≡ b'a' ∷ b'%' ∷ b'2' ∷ b'5' ∷ b'b' ∷ b'%' ∷ b'3' ∷ b'D' ∷ []
unfolding encode escape
encoded = refl

-- "%u4F60", two bytes of a little-endian short.
decoded_word : decode (b'%' ∷ b'u' ∷ b'4' ∷ b'F' ∷ b'6' ∷ b'0' ∷ []) ≡ 0x60 ∷ 0x4F ∷ []
unfolding decode decode_from decode_at
decoded_word = refl

strimmed : prot_strim sample ≡ b'a' ∷ b'b' ∷ []
unfolding prot_strim
strimmed = refl

decode-encode_example :
    (decode (encode sample) ≡ sample)
    × (decode_ex (encode_ex sample) ≡ sample)
    × (decode_ex (encode sample) ≡ sample)
    × (decode (encode_ex sample) ≡ sample)
decode-encode_example = decode-encode sample (omega arith)

base64_decode-base64_encode_example :
    (base64_decode (base64_encode sample) ≡ sample)
    × (base64_decode (bin2hex sample) ≡ sample)
    × (str2hex (hex2str sample) ≡ sample)
base64_decode-base64_encode_example = base64_decode-base64_encode sample (omega arith)

-- "3456" into four bytes: the second one becomes 0x35.
hex2bin_of_3456 :
    hex2bin (b'3' ∷ b'4' ∷ b'5' ∷ b'6' ∷ []) (1 ∷ 2 ∷ 3 ∷ 4 ∷ []) 4 ≡ (1 ∷ 0x35 ∷ 3 ∷ 4 ∷ [], pos 0)
unfolding hex2bin hex2bin_loop hex2bin_round
hex2bin_of_3456 = refl

hex2bin-evens_example :
    get_elem? (hex2bin (b'3' ∷ b'4' ∷ []) (7 ∷ 8 ∷ []) 2).0 (2 * 0) ≡ get_elem? (7 ∷ 8 ∷ []) (2 * 0)
hex2bin-evens_example = hex2bin-evens (b'3' ∷ b'4' ∷ []) (7 ∷ 8 ∷ []) 2 0 (refl, (refl, tt))

-- ",a,,b".
abbrev listed : Bytes
listed = b',' ∷ b'a' ∷ b',' ∷ b',' ∷ b'b' ∷ []

split-listed : split listed (b',' ∷ []) ≡ [] ∷ (b'a' ∷ []) ∷ [] ∷ (b'b' ∷ []) ∷ []
unfolding split split_loop break_at
split-listed = refl

split_ign-listed : split_ign listed (b',' ∷ []) ≡ (b'a' ∷ []) ∷ (b'b' ∷ []) ∷ []
unfolding split_ign split_ign_loop skip_all break_at
split_ign-listed = refl

split_ign-split_example : split_ign listed (b',' ∷ []) ≡ filled (split listed (b',' ∷ []))
split_ign-split_example = split_ign-split listed (b',' ∷ [])

abbrev named : List (Bytes × Bytes)
named = (b'a' ∷ [], b'x' ∷ []) ∷ (b'b' ∷ [], []) ∷ []

string_to_map-map_to_string_example :
    string_to_map (map_to_string [] named 0) [] 0 b',' b'|' ≡ named
string_to_map-map_to_string_example =
    string_to_map-map_to_string named (tt, ((refl, tt), tt))
      (((refl, tt), (refl, tt)), (((refl, tt), tt), tt))

abbrev numbered : List (ℕ × ℕ)
numbered = (3, 12) ∷ (40, 0) ∷ []

string_to_numbers-numbers_to_string_example :
    string_to_numbers (numbers_to_string numbered) [] ≡ numbered
string_to_numbers-numbers_to_string_example =
    string_to_numbers-numbers_to_string numbered (tt, ((refl, tt), tt)) (omega arith)

replaced :
    replace listed (b',' ∷ []) (b';' ∷ b';' ∷ [])
    ≡ some (b';' ∷ b';' ∷ b'a' ∷ b';' ∷ b';' ∷ b';' ∷ b';' ∷ b'b' ∷ [])
unfolding replace replace_loop find strip_prefix
replaced = refl

abbrev comma : Bytes
comma = b',' ∷ []

abbrev semicolon : Bytes
semicolon = b';' ∷ []

replace_tag-ends_example :
    (t : Bytes) × (replace_tag listed [] (b'a' ∷ []) (b'b' ∷ []) (b'!' ∷ [])
      ≡ some (or_input listed t))
    × HasNoPair (b'a' ∷ []) (b'b' ∷ []) t
replace_tag-ends_example = replace_tag-ends listed [] (b'a' ∷ []) (b'b' ∷ []) (b'!' ∷ []) refl

-- "xy<>zwv": with the pair, the `z` and the `w` go.
abbrev tagged : Bytes
tagged = b'x' ∷ b'y' ∷ b'<' ∷ b'>' ∷ b'z' ∷ b'w' ∷ b'v' ∷ []

stripped : strip_loop 9 (b'<' ∷ []) (b'>' ∷ []) tagged ≡ some (b'x' ∷ b'y' ∷ b'v' ∷ [])
unfolding strip_loop find strip_prefix
stripped = refl

abbrev parts : Bytes × Bytes
parts = (b'x' ∷ b'y' ∷ [], b'>' ∷ b'z' ∷ b'w' ∷ b'v' ∷ [])

opens : find (b'<' ∷ []) tagged ≡ some parts
unfolding find strip_prefix
opens = refl

closes : find (b'>' ∷ []) parts.1 ≡ some ([], b'z' ∷ b'w' ∷ b'v' ∷ [])
unfolding find strip_prefix
closes = refl

strip_loop-overcut_example :
    (tagged ≡ parts.0 ++ ((b'<' ∷ []) ++ ([] ++ ((b'>' ∷ []) ++ (b'z' ∷ b'w' ∷ b'v' ∷ [])))))
    × (strip_loop 9 (b'<' ∷ []) (b'>' ∷ []) tagged
        ≡ strip_loop 8 (b'<' ∷ []) (b'>' ∷ []) (parts.0 ++ drop 2 (b'z' ∷ b'w' ∷ b'v' ∷ [])))
strip_loop-overcut_example =
    strip_loop-overcut 8 (b'<' ∷ []) (b'>' ∷ []) tagged parts.0 parts.1 [] (b'z' ∷ b'w' ∷ b'v' ∷ [])
      opens closes
