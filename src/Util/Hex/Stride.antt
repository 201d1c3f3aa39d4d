-- ===== src/Util/Hex/Stride.antt =====
-- hex2bin of comm/sys_comm.cpp reads every other character and stores every other byte.
use teaf.Prelude.{
  ℕ, ◌+◌, ◌-◌, ◌*◌, ◌%◌, ◌≡◌, ◌∙◌, refl, true, false, some, List, [], ◌∷◌, All, arith, leb, ◌==◌,
  if_intro, Bytes, is_xdigit, get_elem?, get_elem?-set_ne, ℤ, Bool-cases, inl, inr,
}
use teaf.Util.Hex.{hex_value, Hex2bin, hex2bin_round, hex2bin_loop, hex2bin}

abbrev pub AreXdigits : Bytes → Type 0
AreXdigits = All (λ c. is_xdigit c ≡ true)

hex_value-some : (c : ℕ) → is_xdigit c ≡ true → (v : ℕ) × (hex_value c ≡ some v)
hex_value-some c h = elim (Bool-cases (leb c 57)) [
  | inl d ↦ (c - 48, ground arith)
  | inr e ↦ elim (Bool-cases (leb c 70)) [
    | inl u ↦ (c - 55, ground arith)
    | inr l ↦ (c - 87, ground arith)
  ]
]

-- What a round keeps: `first` tells whether the index is even, and the bytes at even indices stay.
pub record Kept (k : ℕ) (output : List ℕ) (s : Hex2bin) : Type 0 where
  pub parity : s.first ≡ (k % 2 == 0)
  pub evens : (j : ℕ) → get_elem? s.output (2 * j) ≡ get_elem? output (2 * j)

round-Kept :
    (c k : ℕ) (output : List ℕ) (s : Hex2bin)
    → is_xdigit c ≡ true
    → Kept k output s
    → Kept (k + 1) output (hex2bin_round c k s)
unfolding hex2bin_round
round-Kept c k output s x kept =
    let (v, valid) = hex_value-some c x in
    elim (Bool-cases (k % 2 == 0)) [
      | inl even ↦
          let starts : s.first ≡ true = kept.parity ∙ even in
          rw (hex2bin_round, valid, starts) (record { parity = ground arith; evens = kept.evens })
      | inr odd ↦
          let ends : s.first ≡ false = kept.parity ∙ odd in
          rw (hex2bin_round, valid, ends)
            (record {
              parity = ground arith;
              evens = λ j. get_elem?-set_ne s.output k (2 * j) _ (ground arith) ∙ kept.evens j;
            })
    ]

loop-Kept :
    (src : Bytes) (k : ℕ) (output : List ℕ) (s : Hex2bin)
    → AreXdigits src
    → Kept k output s
    → (j : ℕ) → get_elem? (hex2bin_loop src k s).output (2 * j) ≡ get_elem? output (2 * j)
unfolding hex2bin_loop
loop-Kept [] k output s x kept = kept.evens
loop-Kept (c ∷ []) k output s (x, xs) kept = (round-Kept c k output s x kept).evens
loop-Kept (c ∷ d ∷ cs) k output s (x, (y, xs)) kept =
    loop-Kept cs (k + 1) output (hex2bin_round c k s) xs (round-Kept c k output s x kept)

-- Whatever string of hexadecimal digits hex2bin is given, it leaves the bytes at the even indices of
-- the buffer as they were.
pub hex2bin-evens :
    (src : Bytes) (output : List ℕ) (len j : ℕ)
    → AreXdigits src
    → get_elem? (hex2bin src output len).0 (2 * j) ≡ get_elem? output (2 * j)
unfolding hex2bin
hex2bin-evens src output len j xs =
    if_intro (λ (r : List ℕ × ℤ). get_elem? r.0 (2 * j) ≡ get_elem? output (2 * j)) _ refl
      (loop-Kept src 0 output (record { first = true; b = 0; output = output }) xs
        (record { parity = refl; evens = λ i. refl }) j)
