-- ===== src/Util/Maps/RoundTrip.antt =====
-- string_to_map gives back the map that map_to_string printed.
use Prim.Native.Nat.{compare}
use mathlib.Core.List.{append-nil}
use teaf.Prelude.{
  ℕ, zero, suc, ◌<◌, ◌≡◌, ◌∙◌, refl, sym, ap, true, false, not, ◌&&◌, List, [], ◌∷◌, ◌++◌, All,
  All-mono, arith, ◌==◌, Bytes, length, length-append, is_digit, u32_mod,
}
use teaf.Util.Split.{break_at}
use teaf.Util.Numbers.{digits_value, to_unsigned, decimal}
use teaf.Util.Numbers.Decimal.{decimal-AreDigits, to_unsigned-decimal, AreDigits}
use teaf.Util.Maps.{
  pairs, stored_all, string_to_map, is_zero_text, number_pairs, string_to_numbers, print_pairs,
  map_to_string, print_numbers, numbers_to_string,
}
use teaf.Util.Maps.Dict.{lex, IsSortedFrom, insert_all-sorted}

-- No character of the text is `d`.
abbrev pub Lacks : ℕ → Bytes → Type 0
Lacks d = All (λ c. (c == d) ≡ false)

pub break_at-Lacks :
    (d : ℕ) (w rest : Bytes) → Lacks d w → break_at (λ x. x == d) (w ++ (d ∷ rest)) ≡ (w, d ∷ rest)
unfolding break_at
break_at-Lacks d [] rest h = let here : (d == d) ≡ true = ground arith in rw here refl
break_at-Lacks d (c ∷ w) rest (miss, h) = rw (miss, break_at-Lacks d w rest h) refl

-- An entry whose printed form can be told apart.
abbrev pub IsPlain : Bytes × Bytes → Type 0
IsPlain (name, value) = Lacks b',' name × Lacks b'|' value

pairs-print_pairs :
    (fuel : ℕ) (es : List (Bytes × Bytes))
    → length (print_pairs es) < fuel
    → All IsPlain es
    → pairs fuel b',' b'|' (print_pairs es) ≡ es
unfolding pairs break_at
pairs-print_pairs zero es h plain = absurd (omega arith)
pairs-print_pairs (suc fuel) [] h plain = refl
pairs-print_pairs (suc fuel) ((name, value) ∷ es) h ((p, q), plain) =
    let sizes = length-append name (b',' ∷ (value ++ (b'|' ∷ print_pairs es))) in
    let sizes' = length-append value (b'|' ∷ print_pairs es) in
    rw
      (
        break_at-Lacks b',' name (value ++ (b'|' ∷ print_pairs es)) p,
        break_at-Lacks b'|' value (print_pairs es) q,
      )
      (ap (λ l. (name, value) ∷ l) (pairs-print_pairs fuel es (omega arith) plain))

stored_all_0 : (sep1 : ℕ) (es : List (Bytes × Bytes)) → stored_all 0 sep1 es ≡ es
stored_all_0 sep1 [] = refl
stored_all_0 sep1 ((name, value) ∷ es) = ap (λ l. (name, value) ∷ l) (stored_all_0 sep1 es)

-- For a map, which is sorted, whose names hold no comma and whose values hold no bar, string_to_map
-- gives back from an empty map what map_to_string printed, both with flag 0 and the usual separators.
pub string_to_map-map_to_string :
    (m : List (Bytes × Bytes))
    → IsSortedFrom lex [] m
    → All IsPlain m
    → string_to_map (map_to_string [] m 0) [] 0 b',' b'|' ≡ m
unfolding string_to_map map_to_string
string_to_map-map_to_string m sorted plain =
    rw (pairs-print_pairs (suc (length (print_pairs m))) m (omega arith) plain, stored_all_0 b',' m)
      (insert_all-sorted lex m [] sorted)

-- Entries of 32-bit numbers.
abbrev pub AreSmall : ℕ × ℕ → Type 0
AreSmall (key, value) = (key < u32_mod) × (value < u32_mod)

pub digits-Lacks : (d : ℕ) (s : Bytes) → is_digit d ≡ false → AreDigits s → Lacks d s
digits-Lacks d s other = All-mono s (λ c digit. ground arith)

pub to_unsigned-name : (n : ℕ) → n < u32_mod → to_unsigned (decimal n) ≡ n
to_unsigned-name n h =
    ap to_unsigned (sym (append-nil (decimal n))) ∙ to_unsigned-decimal n [] h refl

taken :
    (n : ℕ) → n < u32_mod → (to_unsigned (decimal n) == 0 && not (is_zero_text (decimal n))) ≡ false
unfolding decimal to_unsigned digits_value
taken zero h = refl
taken (suc n) h =
    let nonzero : (suc n == 0) ≡ false = ground arith in
    rw (to_unsigned-name (suc n) h, nonzero) refl

number_pairs-print :
    (fuel : ℕ) (es : List (ℕ × ℕ))
    → length (print_numbers es) < fuel
    → All AreSmall es
    → number_pairs fuel (print_numbers es) ≡ es
unfolding number_pairs break_at
number_pairs-print zero es h small = absurd (omega arith)
number_pairs-print (suc fuel) [] h small = refl
number_pairs-print (suc fuel) ((key, value) ∷ es) h ((p, q), small) =
    let sizes = length-append (decimal key) (b',' ∷ (decimal value ++ (b'|' ∷ print_numbers es))) in
    let sizes' = length-append (decimal value) (b'|' ∷ print_numbers es) in
    rw
      (
        break_at-Lacks b',' (decimal key) (decimal value ++ (b'|' ∷ print_numbers es))
            (digits-Lacks b',' (decimal key) refl (decimal-AreDigits key)),
        taken key p,
        break_at-Lacks b'|' (decimal value) (print_numbers es)
            (digits-Lacks b'|' (decimal value) refl (decimal-AreDigits value)),
        to_unsigned-name key p,
        to_unsigned-name value q,
      )
      (ap (λ l. (key, value) ∷ l) (number_pairs-print fuel es (omega arith) small))

-- For a map of 32-bit numbers, the overload of string_to_map for numbers gives it back from what that
-- of map_to_string printed.
pub string_to_numbers-numbers_to_string :
    (m : List (ℕ × ℕ))
    → IsSortedFrom compare [] m
    → All AreSmall m
    → string_to_numbers (numbers_to_string m) [] ≡ m
unfolding string_to_numbers numbers_to_string
string_to_numbers-numbers_to_string m sorted small =
    rw (number_pairs-print (suc (length (print_numbers m))) m (omega arith) small)
      (insert_all-sorted compare m [] sorted)
