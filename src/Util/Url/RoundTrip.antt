-- ===== src/Util/Url/RoundTrip.antt =====
-- Decoding what was encoded, for any set of escaped characters that holds `%`.
use teaf.Prelude.{
  ℕ, ◌/◌, ◌%◌, ◌<◌, ◌≡◌, ◌∙◌, refl, sym, ap, Bool, true, false, not, ◌&&◌, [], ◌∷◌, ◌++◌, arith,
  ltb, ◌==◌, Bytes, AreBytes, each, each-at, is_xdigit, length, Bool-cases, inl, inr, ==_iff,
}
use teaf.Util.Url.{
  hex_upper, char_to_hex, to_lower, hex_to_char, escape, encode, encode_ex, prot_encode, one_of,
  specials, prot_specials, is_alnum, c_str, decode_at, decode_ex_at, decode_from, decode, decode_ex,
}

-- The two digits of a byte are hexadecimal, the first one is no `u`, and they give the byte back.
abbrev digits_fit : ℕ → Bool
digits_fit c =
    is_xdigit (hex_upper (c / 16 % 16))
    && is_xdigit (hex_upper (c % 16))
    && not (to_lower (hex_upper (c / 16 % 16)) == b'u')
    && hex_to_char (char_to_hex c) == c

digits_fit-each : each digits_fit 256 ≡ true
unfolding each
digits_fit-each = refl

pub record Fits (c : ℕ) : Type 0 where
  pub high : is_xdigit (hex_upper (c / 16 % 16)) ≡ true
  pub low : is_xdigit (hex_upper (c % 16)) ≡ true
  pub no_u : (to_lower (hex_upper (c / 16 % 16)) == b'u') ≡ false
  pub value : hex_to_char (char_to_hex c) ≡ c

split_fit :
    (a b d e : Bool)
    → (a && b && not d && e) ≡ true
    → (a ≡ true) × (b ≡ true) × (d ≡ false) × (e ≡ true)
split_fit a b d e h = ground arith

pub byte-Fits : (c : ℕ) → c < 256 → Fits c
byte-Fits c h =
    let (p, q, r, s) = split_fit _ _ _ _ (each-at digits_fit 256 c digits_fit-each h) in
    record { high = p; low = q; no_u = r; value = (==_iff _ _).0 s }

-- A round of a decoder undoes the escape, and copies any other character.
pub record Undoes (round : ℕ → Bytes → Bytes × ℕ) : Type 0 where
  pub escaped : (c : ℕ) (rest : Bytes) → c < 256 → round b'%' (char_to_hex c ++ rest) ≡ (c ∷ [], 2)
  pub copied : (c : ℕ) (rest : Bytes) → (c == b'%') ≡ false → round c rest ≡ (c ∷ [], 0)

decode_at-digits :
    (hi lo : ℕ) (rest : Bytes)
    → is_xdigit hi ≡ true
    → is_xdigit lo ≡ true
    → (to_lower hi == b'u') ≡ false
    → decode_at b'%' (hi ∷ lo ∷ rest) ≡ (hex_to_char (hi ∷ lo ∷ []) ∷ [], 2)
unfolding decode_at
decode_at-digits hi lo rest p q r =
    let long : ltb 1 (length (hi ∷ lo ∷ rest)) ≡ true = ground arith in
    rw (decode_at, long, r, p, q) refl

decode_ex_at-digits :
    (hi lo : ℕ) (rest : Bytes)
    → is_xdigit hi ≡ true
    → is_xdigit lo ≡ true
    → decode_ex_at b'%' (hi ∷ lo ∷ rest) ≡ (hex_to_char (hi ∷ lo ∷ []) ∷ [], 2)
unfolding decode_ex_at
decode_ex_at-digits hi lo rest p q =
    let long : ltb 1 (length (hi ∷ lo ∷ rest)) ≡ true = ground arith in
    rw (decode_ex_at, long, p, q) refl

decode_at-Undoes : Undoes decode_at
unfolding decode_at
decode_at-Undoes = record {
  escaped = λ c rest h.
      let f = byte-Fits c h in
      decode_at-digits (hex_upper (c / 16 % 16)) (hex_upper (c % 16)) rest f.high f.low f.no_u
      ∙ ap (λ v. (v ∷ [], 2)) f.value;
  copied = λ c rest h. rw (decode_at, h) refl;
}

decode_ex_at-Undoes : Undoes decode_ex_at
unfolding decode_ex_at
decode_ex_at-Undoes = record {
  escaped = λ c rest h.
      let f = byte-Fits c h in
      decode_ex_at-digits (hex_upper (c / 16 % 16)) (hex_upper (c % 16)) rest f.high f.low
      ∙ ap (λ v. (v ∷ [], 2)) f.value;
  copied = λ c rest h. rw (decode_ex_at, h) refl;
}

module _ (round : ℕ → Bytes → Bytes × ℕ) (undoes : Undoes round) (p : ℕ → Bool)
    (marked : p b'%' ≡ true) where
  unmarked : (c : ℕ) → p c ≡ false → (c == b'%') ≡ false
  unmarked c h = elim (Bool-cases (c == b'%')) [
    | inl same ↦
        let eq : c ≡ b'%' = (==_iff c b'%').0 same in
        let bad : p b'%' ≡ false = ap p (sym eq) ∙ h in absurd (cc)
    | inr other ↦ other
  ]

  decode_from-escape : (s : Bytes) → AreBytes s → decode_from round 0 (escape p s) ≡ s
  unfolding decode_from escape
  decode_from-escape [] h = refl
  decode_from-escape (c ∷ s) (small, h) = elim (Bool-cases (p c)) [
    | inl hit ↦
        rw (hit, undoes.escaped c (escape p s) small) (ap (λ l. c ∷ l) (decode_from-escape s h))
    | inr miss ↦
        rw (miss, undoes.copied c (escape p s) (unmarked c miss))
          (ap (λ l. c ∷ l) (decode_from-escape s h))
  ]

-- Decode and Decode_ex both give back, for every string of bytes, what Encode or Encode_ex made of it.
pub decode-encode :
    (s : Bytes)
    → AreBytes s
    → (decode (encode s) ≡ s)
      × (decode_ex (encode_ex s) ≡ s)
      × (decode_ex (encode s) ≡ s)
      × (decode (encode_ex s) ≡ s)
unfolding decode decode_ex encode encode_ex
decode-encode s h = (
  decode_from-escape decode_at decode_at-Undoes (λ c. not (is_alnum c)) refl s h,
  decode_from-escape decode_ex_at decode_ex_at-Undoes (one_of specials) refl s h,
  decode_from-escape decode_ex_at decode_ex_at-Undoes (λ c. not (is_alnum c)) refl s h,
  decode_from-escape decode_at decode_at-Undoes (one_of specials) refl s h,
)

-- Decode and Decode_ex undo prot_encode on any C string, which ends at its first NUL.
pub decode-prot_encode :
    (s : Bytes)
    → AreBytes (c_str s)
    → (decode (prot_encode s) ≡ c_str s) × (decode_ex (prot_encode s) ≡ c_str s)
unfolding decode decode_ex prot_encode
decode-prot_encode s h = (
  decode_from-escape decode_at decode_at-Undoes (one_of prot_specials) refl (c_str s) h,
  decode_from-escape decode_ex_at decode_ex_at-Undoes (one_of prot_specials) refl (c_str s) h,
)
