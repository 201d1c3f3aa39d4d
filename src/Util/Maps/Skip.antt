-- ===== src/Util/Maps/Skip.antt =====
-- A flaw of string_to_map for numbers, at a record whose name is no number.
use Prim.Native.Nat.{compare}
use mathlib.Core.List.{append_assoc}
use teaf.Prelude.{
  ℕ, suc, ◌+◌, ◌<◌, ◌≡◌, ◌∙◌, refl, sym, ap, false, [], ◌∷◌, ◌++◌, arith, ◌==◌, Bytes, length,
  length-append, u32_mod,
}
use teaf.Util.Split.{break_at}
use teaf.Util.Numbers.{to_unsigned, decimal}
use teaf.Util.Numbers.Decimal.{decimal-AreDigits, to_unsigned-decimal}
use teaf.Util.Maps.{is_zero_text, number_pairs, string_to_numbers}
use teaf.Util.Maps.Dict.{insert, insert_all}
use teaf.Util.Maps.RoundTrip.{digits-Lacks, Lacks, break_at-Lacks}

break_at-none : (d : ℕ) (w : Bytes) → Lacks d w → break_at (λ x. x == d) w ≡ (w, [])
unfolding break_at
break_at-none d [] h = refl
break_at-none d (c ∷ w) (miss, h) = rw (miss, break_at-none d w h) refl

Lacks-append : (d : ℕ) (v w : Bytes) → Lacks d v → Lacks d w → Lacks d (v ++ w)
Lacks-append d [] w h k = k
Lacks-append d (c ∷ v) w (miss, h) k = (miss, Lacks-append d v w h k)

number_pairs-last :
    (fuel : ℕ) (key w : Bytes)
    → Lacks b',' key
    → Lacks b'|' w
    → (to_unsigned key == 0) ≡ false
    → number_pairs (suc fuel) (key ++ (b',' ∷ w)) ≡ (to_unsigned key, to_unsigned w) ∷ []
unfolding number_pairs
number_pairs-last fuel key w p q nonzero =
    rw (break_at-Lacks b',' key w p, nonzero, break_at-none b'|' w q) refl

number_pairs-skips :
    (fuel : ℕ) (name rest : Bytes)
    → Lacks b',' name
    → to_unsigned name ≡ 0
    → is_zero_text name ≡ false
    → number_pairs (suc fuel) (name ++ (b',' ∷ rest)) ≡ number_pairs fuel rest
unfolding number_pairs
number_pairs-skips fuel name rest p zero_name no_zero =
    rw (break_at-Lacks b',' name rest p, zero_name, no_zero) refl

-- Where string_to_map for numbers meets a name that is no number, it takes the value of that record,
-- here a number n above 0, for the key of the next one: "name,n|key,w" gives the entry from n to w,
-- whatever the second record's key is.
pub string_to_numbers-shift :
    (name key w : Bytes) (n : ℕ)
    → Lacks b',' name
    → to_unsigned name ≡ 0
    → is_zero_text name ≡ false
    → 0 < n
    → n < u32_mod
    → Lacks b',' key
    → Lacks b'|' w
    → string_to_numbers (name ++ (b',' ∷ (decimal n ++ (b'|' ∷ (key ++ (b',' ∷ w)))))) []
      ≡ (n, to_unsigned w) ∷ []
unfolding string_to_numbers insert insert_all
string_to_numbers-shift name key w n p zero_name no_zero positive small q r =
    let tail = decimal n ++ (b'|' ∷ (key ++ (b',' ∷ w))) in
    let glued = decimal n ++ (b'|' ∷ key) in
    let sizes = length-append name (b',' ∷ tail) in
    let more : length (name ++ (b',' ∷ tail)) ≡ suc (length name + length tail) = omega arith in
    let same : tail ≡ glued ++ (b',' ∷ w) =
      sym (append_assoc (decimal n) (b'|' ∷ key) (b',' ∷ w)) in
    let plain : Lacks b',' glued =
      Lacks-append b',' (decimal n) (b'|' ∷ key)
        (digits-Lacks b',' (decimal n) refl (decimal-AreDigits n)) (refl, q) in
    let value : to_unsigned glued ≡ n = to_unsigned-decimal n (b'|' ∷ key) small refl in
    let nonzero : (to_unsigned glued == 0) ≡ false = ground arith in
    let read : number_pairs (suc (length (name ++ (b',' ∷ tail)))) (name ++ (b',' ∷ tail))
        ≡ (n, to_unsigned w) ∷ [] =
      number_pairs-skips (length (name ++ (b',' ∷ tail))) name tail p zero_name no_zero
      ∙ (ap (λ f. number_pairs f tail) more
          ∙ (ap (number_pairs (suc (length name + length tail))) same
              ∙ (number_pairs-last (length name + length tail) glued w plain r nonzero
                  ∙ ap (λ k. (k, to_unsigned w) ∷ []) value))) in
    ap (λ es. insert_all compare es []) read
