-- ===== src/Util/Hex/RoundTrip.antt =====
-- The hexadecimal forms that are read back as they were written.
use teaf.Prelude.{
  ℕ, ◌+◌, ◌*◌, ◌/◌, ◌%◌, ◌≡◌, ◌∙◌, refl, ap, Bool, true, [], ◌∷◌, arith, ◌==◌, ==_iff, Bytes,
  AreBytes, each, each-at, length,
}
use teaf.Util.Url.{hex_upper}
use teaf.Util.Hex.{
  base64_encode, base64_decode, scan_hex, scan_pairs, hex_lower, hex2str, bin2hex, chr2dig, str2hex,
}

abbrev upper_fits : ℕ → Bool
upper_fits c = scan_hex (hex_upper (c / 16)) (hex_upper (c % 16)) == c

abbrev lower_fits : ℕ → Bool
lower_fits c = scan_hex (hex_lower (c / 16 % 16)) (hex_lower (c % 16)) == c

abbrev dig_fits : ℕ → Bool
dig_fits c = (chr2dig (hex_lower (c / 16 % 16)) % 16 * 16 + chr2dig (hex_lower (c % 16))) % 256 == c

upper_fits-each : each upper_fits 256 ≡ true
unfolding each
upper_fits-each = refl

lower_fits-each : each lower_fits 256 ≡ true
unfolding each
lower_fits-each = refl

dig_fits-each : each dig_fits 256 ≡ true
unfolding each
dig_fits-each = refl

scan_pairs-base64_encode : (s : Bytes) → AreBytes s → scan_pairs (base64_encode s) ≡ s
unfolding base64_encode
scan_pairs-base64_encode [] h = refl
scan_pairs-base64_encode (c ∷ s) (small, h) =
    rw ((==_iff _ _).0 (each-at upper_fits 256 c upper_fits-each small))
      (ap (λ l. c ∷ l) (scan_pairs-base64_encode s h))

scan_pairs-bin2hex : (s : Bytes) → AreBytes s → scan_pairs (bin2hex s) ≡ s
unfolding bin2hex
scan_pairs-bin2hex [] h = refl
scan_pairs-bin2hex (c ∷ s) (small, h) =
    rw ((==_iff _ _).0 (each-at lower_fits 256 c lower_fits-each small))
      (ap (λ l. c ∷ l) (scan_pairs-bin2hex s h))

str2hex-hex2str : (s : Bytes) → AreBytes s → str2hex (hex2str s) ≡ s
unfolding hex2str str2hex
str2hex-hex2str [] h = refl
str2hex-hex2str (c ∷ s) (small, h) =
    rw ((==_iff _ _).0 (each-at dig_fits 256 c dig_fits-each small))
      (ap (λ l. c ∷ l) (str2hex-hex2str s h))

length-base64_encode : (s : Bytes) → length (base64_encode s) ≡ 2 * length s
unfolding base64_encode
length-base64_encode [] = refl
length-base64_encode (c ∷ s) = omega (arith, length-base64_encode s)

length-bin2hex : (s : Bytes) → length (bin2hex s) ≡ 2 * length s
unfolding bin2hex
length-bin2hex [] = refl
length-bin2hex (c ∷ s) = omega (arith, length-bin2hex s)

base64_decode-even : (s : Bytes) (n : ℕ) → length s ≡ 2 * n → base64_decode s ≡ scan_pairs s
unfolding base64_decode
base64_decode-even s n e =
    let even : (length s % 2 == 0) ≡ true = ground arith in rw (base64_decode, even) refl

-- Base64Decode gives back the bytes of which Base64Encode or bin2hex made a string, and str2hex those
-- of which hex2str did.
pub base64_decode-base64_encode :
    (s : Bytes)
    → AreBytes s
    → (base64_decode (base64_encode s) ≡ s)
      × (base64_decode (bin2hex s) ≡ s)
      × (str2hex (hex2str s) ≡ s)
base64_decode-base64_encode s h = (
  base64_decode-even (base64_encode s) (length s) (length-base64_encode s)
      ∙ scan_pairs-base64_encode s h,
  base64_decode-even (bin2hex s) (length s) (length-bin2hex s) ∙ scan_pairs-bin2hex s h,
  str2hex-hex2str s h,
)
