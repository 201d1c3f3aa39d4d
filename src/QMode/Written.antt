-- ===== src/QMode/Written.antt =====
-- A text of fields, taken apart at the separators.
use teaf.Prelude.{
  ℕ, zero, suc, ◌-◌, ◌≤◌, ◌≡◌, ◌∙◌, refl, sym, ap, Bool, true, false, ◌&&◌, List, [], ◌∷◌, ◌++◌,
  All, arith, ltb, ◌==◌, if◌then◌else◌, Bytes, length, take, get_or, Bool-cases, inl, inr, if_intro,
  length-take,
}
use teaf.Util.Url.{one_of}
use teaf.Util.Split.Pieces.{to_first, pieces, filled, split-pieces, split_ign-split}
use teaf.Util.Split.Join.{is_nil, pieces_filled}
use teaf.Util.Maps.RoundTrip.{Lacks, break_at-Lacks}
use teaf.QMode.{separators, chop, fields_of, read_fields}

-- A field as it is sent: its name, its value and the separator that ends it.
pub record Field : Type 0 where
  pub name : Bytes
  pub value : Bytes
  pub ending : ℕ

abbrev pub is_separator : ℕ → Bool
is_separator = one_of separators

-- No character of the text is a separator.
abbrev pub HasNone : Bytes → Type 0
HasNone = All (λ c. is_separator c ≡ false)

pub record IsWellFormed (f : Field) : Type 0 where
  pub plain_name : HasNone f.name
  pub no_equals : Lacks b'=' f.name
  pub short_name : length f.name ≤ 63
  pub plain_value : HasNone f.value
  pub ended : is_separator f.ending ≡ true

abbrev pub print_field : Field → Bytes → Bytes
print_field f rest = (f.name ++ (b'=' ∷ f.value)) ++ (f.ending ∷ rest)

abbrev pub print : List Field → Bytes
print [] = []
print (f ∷ fs) = print_field f (print fs)

abbrev pub entries : List Field → List (Bytes × Bytes)
entries [] = []
entries (f ∷ fs) = (f.name, f.value) ∷ entries fs

pieces-word :
    (p : ℕ → Bool) (w rest : Bytes) (d : ℕ)
    → All (λ c. p c ≡ false) w
    → p d ≡ true
    → pieces p (w ++ (d ∷ rest)) ≡ w ∷ pieces p rest
unfolding pieces
pieces-word p [] rest d h hit = rw hit refl
pieces-word p (c ∷ w) rest d (miss, h) hit =
    rw miss (ap (to_first c) (pieces-word p w rest d h hit))

HasNone-append : (v w : Bytes) → HasNone v → HasNone w → HasNone (v ++ w)
HasNone-append [] w h k = k
HasNone-append (c ∷ v) w (miss, h) k = (miss, HasNone-append v w h k)

filled-name :
    (name value : Bytes) (ws : List Bytes)
    → filled ((name ++ (b'=' ∷ value)) ∷ ws) ≡ (name ++ (b'=' ∷ value)) ∷ filled ws
filled-name [] value ws = refl
filled-name (c ∷ name) value ws = refl

pub take-all : (n : ℕ) (s : Bytes) → length s ≤ n → take n s ≡ s
take-all zero [] h = refl
take-all zero (c ∷ s) h = absurd (omega arith)
take-all (suc n) [] h = refl
take-all (suc n) (c ∷ s) h = ap (λ l. c ∷ l) (take-all n s (omega arith))

pub fields_of-print :
    (fs : List Field)
    → All IsWellFormed fs
    → fields_of (filled (pieces is_separator (print fs))) ≡ entries fs
unfolding pieces
fields_of-print [] h = refl
fields_of-print (f ∷ fs) (good, h) =
    rw
      (
        pieces-word is_separator (f.name ++ (b'=' ∷ f.value)) (print fs) f.ending
            (HasNone-append f.name (b'=' ∷ f.value) good.plain_name (refl, good.plain_value))
            good.ended,
        filled-name f.name f.value (pieces is_separator (print fs)),
        break_at-Lacks b'=' f.name f.value good.no_equals,
        take-all 63 f.name good.short_name,
      )
      (ap (λ l. (f.name, f.value) ∷ l) (fields_of-print fs h))

-- The loop over strtok_r, in terms of the pieces.
pub read_fields-pieces :
    (text : Bytes) → read_fields text ≡ fields_of (filled (pieces is_separator text))
unfolding read_fields
read_fields-pieces text =
    ap fields_of (split_ign-split text separators ∙ ap filled (split-pieces text separators))

to_first-append :
    (c : ℕ) (ws : List Bytes)
    → is_nil ws ≡ false
    → to_first c (ws ++ ([] ∷ [])) ≡ to_first c ws ++ ([] ∷ [])
to_first-append c [] h = absurd (cc)
to_first-append c (w ∷ ws) h = refl

pieces-last :
    (p : ℕ → Bool) (s : Bytes) (d : ℕ)
    → p d ≡ true
    → pieces p (s ++ (d ∷ [])) ≡ pieces p s ++ ([] ∷ [])
unfolding pieces
pieces-last p [] d hit = rw hit refl
pieces-last p (c ∷ s) d hit = elim (Bool-cases (p c)) [
  | inl here ↦ rw here (ap (λ l. [] ∷ l) (pieces-last p s d hit))
  | inr miss ↦
      rw miss (
        ap (to_first c) (pieces-last p s d hit)
        ∙ to_first-append c (pieces p s) (pieces_filled p s))
]

filled-last : (ws : List Bytes) → filled (ws ++ ([] ∷ [])) ≡ filled ws
filled-last [] = refl
filled-last ([] ∷ ws) = filled-last ws
filled-last ((c ∷ w) ∷ ws) = ap (λ l. (c ∷ w) ∷ l) (filled-last ws)

take-last : (n : ℕ) (s : Bytes) → length s ≡ suc n → s ≡ take n s ++ (get_or s n 0 ∷ [])
take-last zero [] h = absurd (omega arith)
take-last zero (c ∷ []) h = refl
take-last zero (c ∷ d ∷ s) h = absurd (omega arith)
take-last (suc n) [] h = absurd (omega arith)
take-last (suc n) (c ∷ s) h = ap (λ l. c ∷ l) (take-last n s (omega arith))

chop_lem :
    (text : Bytes) (n : ℕ)
    → chop text (suc n) ≡ (if get_or text n 0 == 13 then take n text else text)
chop_lem text n =
    let less : suc n - 1 ≡ n = omega arith in
    let positive : ltb 0 (suc n) ≡ true = ground arith in rw (chop, positive, less) refl

-- The carriage return that parse_msg takes off the end is a separator: the fields are the same.
pub chop-fields :
    (text : Bytes)
    → filled (pieces is_separator (chop text (length text))) ≡ filled (pieces is_separator text)
chop-fields [] = refl
chop-fields (c ∷ s) = elim (Bool-cases (get_or (c ∷ s) (length s) 0 == 13)) [
  | inl cr ↦
      let last = get_or (c ∷ s) (length s) 0 in
      let start = take (length s) (c ∷ s) in
      let is_cr : is_separator last ≡ true = ground arith in
      let cut : chop (c ∷ s) (suc (length s)) ≡ start = chop_lem (c ∷ s) (length s) ∙ rw cr refl in
      ap (λ t. filled (pieces is_separator t)) cut
      ∙ (sym (filled-last (pieces is_separator start))
          ∙ (ap filled (sym (pieces-last is_separator start last is_cr))
              ∙ ap (λ t. filled (pieces is_separator t)) (sym (take-last (length s) (c ∷ s) refl))))
  | inr other ↦
      let kept : chop (c ∷ s) (suc (length s)) ≡ c ∷ s =
        chop_lem (c ∷ s) (length s) ∙ rw other refl in
      ap (λ t. filled (pieces is_separator t)) kept
]

pub chop-le : (text : Bytes) (n : ℕ) → length text ≤ n → length (chop text n) ≤ n
chop-le text n h =
    if_intro (λ (t : Bytes). length t ≤ n) (ltb 0 n && get_or text (n - 1) 0 == 13)
      (omega (arith, length-take (n - 1) text)) h
