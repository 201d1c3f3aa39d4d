-- ===== src/Util/Split/Join.antt =====
-- split undone by joining the pieces, and its overload for numbers.
use mathlib.Core.List.{map}
use teaf.Prelude.{
  ℕ, zero, suc, ◌+◌, ◌≤◌, ◌<◌, ◌≡◌, ◌∙◌, refl, sym, ap, Bool, true, false, List, [], ◌∷◌, ◌++◌,
  arith, Bytes, length, Bool-cases, inl, inr,
}
use teaf.Util.Url.{one_of}
use teaf.Util.Split.{break_at, split_after, split, numbers_after, split_numbers_loop, split_numbers}
use teaf.Util.Split.Pieces.{to_first, pieces, pieces-break_at, break_at-le, filled, split-pieces}

-- `d` stands before each of the pieces.
abbrev behind : ℕ → List Bytes → Bytes
behind d [] = []
behind d (w ∷ ws) = d ∷ (w ++ behind d ws)

-- `d` stands between the pieces.
abbrev pub join : ℕ → List Bytes → Bytes
join d [] = []
join d (w ∷ ws) = w ++ behind d ws

join-to_first : (d c : ℕ) (ws : List Bytes) → join d (to_first c ws) ≡ c ∷ join d ws
join-to_first d c [] = refl
join-to_first d c (w ∷ ws) = refl

abbrev pub is_nil : List Bytes → Bool
is_nil [] = true
is_nil (w ∷ ws) = false

to_first_filled : (c : ℕ) (ws : List Bytes) → is_nil (to_first c ws) ≡ false
to_first_filled c [] = refl
to_first_filled c (w ∷ ws) = refl

pub pieces_filled : (p : ℕ → Bool) (s : Bytes) → is_nil (pieces p s) ≡ false
unfolding pieces
pieces_filled p [] = refl
pieces_filled p (c ∷ s) = elim (Bool-cases (p c)) [
  | inl hit ↦ rw hit refl
  | inr miss ↦ rw miss (to_first_filled c (pieces p s))
]

behind-join : (d : ℕ) (ws : List Bytes) → is_nil ws ≡ false → behind d ws ≡ d ∷ join d ws
behind-join d [] h = absurd (cc)
behind-join d (w ∷ ws) h = refl

join-pieces : (d : ℕ) (s : Bytes) → join d (pieces (one_of (d ∷ [])) s) ≡ s
unfolding pieces
join-pieces d [] = refl
join-pieces d (c ∷ s) = elim (Bool-cases (one_of (d ∷ []) c)) [
  | inl hit ↦
      let same : c ≡ d = ground arith in
      rw hit (
        behind-join d (pieces (one_of (d ∷ [])) s) (pieces_filled (one_of (d ∷ [])) s)
        ∙ (ap (λ l. d ∷ l) (join-pieces d s) ∙ ap (λ x. x ∷ s) (sym same)))
  | inr miss ↦
      rw miss (join-to_first d c (pieces (one_of (d ∷ [])) s) ∙ ap (λ l. c ∷ l) (join-pieces d s))
]

-- The pieces of split at one character, joined by that character, are the string.
pub join-split : (src : Bytes) (d : ℕ) → join d (split src (d ∷ [])) ≡ src
join-split src d = ap (join d) (split-pieces src (d ∷ [])) ∙ join-pieces d src

numbers_after-map :
    (p : ℕ → Bool) (convert : Bytes → ℕ) (go : Bytes → List ℕ) (r : Bytes × Bytes)
    → (1 ≤ length r.0 + length r.1)
    → ((rest : Bytes) → length rest < length r.1 → go rest ≡ map convert (filled (pieces p rest)))
    → numbers_after convert go r ≡ map convert (filled (split_after (pieces p) r))
numbers_after-map p convert go ([], []) some h = absurd (omega arith)
numbers_after-map p convert go (d ∷ w, []) some h = refl
numbers_after-map p convert go ([], c ∷ rest) some h = h rest (omega arith)
numbers_after-map p convert go (d ∷ w, c ∷ rest) some h =
    ap (λ l. convert (d ∷ w) ∷ l) (h rest (omega arith))

break_at-length :
    (p : ℕ → Bool) (s : Bytes) → length (break_at p s).0 + length (break_at p s).1 ≡ length s
unfolding break_at
break_at-length p [] = refl
break_at-length p (c ∷ s) = elim (Bool-cases (p c)) [
  | inl hit ↦ rw hit (omega arith)
  | inr miss ↦ rw miss (omega (arith, break_at-length p s))
]

split_numbers_loop-map :
    (fuel : ℕ) (p : ℕ → Bool) (convert : Bytes → ℕ) (s : Bytes)
    → length s < fuel
    → split_numbers_loop fuel p convert s ≡ map convert (filled (pieces p s))
unfolding split_numbers_loop pieces
split_numbers_loop-map zero p convert s h = absurd (omega arith)
split_numbers_loop-map (suc fuel) p convert [] h = refl
split_numbers_loop-map (suc fuel) p convert (c ∷ t) h =
    let short = break_at-le p (c ∷ t) in
    let both = break_at-length p (c ∷ t) in
    rw (pieces-break_at p (c ∷ t)) (
      numbers_after-map p convert (split_numbers_loop fuel p convert) (break_at p (c ∷ t))
        (omega arith) (λ rest less. split_numbers_loop-map fuel p convert rest (omega arith)))

-- The overload of split for numbers converts the pieces of split, the empty ones left out.
pub split_numbers-split :
    (convert : Bytes → ℕ) (src delim : Bytes)
    → split_numbers convert src delim ≡ map convert (filled (split src delim))
unfolding split_numbers
split_numbers-split convert src delim =
    split_numbers_loop-map (suc (length src)) (one_of delim) convert src (omega arith)
    ∙ ap (λ ws. map convert (filled ws)) (sym (split-pieces src delim))
