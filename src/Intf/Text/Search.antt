-- ===== src/Intf/Text/Search.antt =====
-- Searching for the separator with more text behind, as the reader does that looks at the whole
-- buffer.
use mathlib.Core.Option
use teaf.Prelude.{
  HasNoNul, ℕ, ◌+◌, ◌<◌, ◌≤◌, ◌≡◌, refl, ap, none, some, [], ◌∷◌, ◌++◌, arith, leb, ◌⊎◌, ◌==◌,
  Bytes, length, length-append, take, drop, Bool-cases, Option-cases, inl, inr,
}
use teaf.Util.Url.{c_str}
use teaf.Util.Replace.{strip_prefix, find}
use teaf.Util.Replace.Ends.{find-append}

strip_prefix-more :
    (needle s r t : Bytes)
    → strip_prefix needle s ≡ some r
    → strip_prefix needle (s ++ t) ≡ some (r ++ t)
unfolding strip_prefix
strip_prefix-more [] s r t h = ap (λ o. Option.map (λ l. l ++ t) o) h
strip_prefix-more (x ∷ xs) [] r t h = absurd (cc)
strip_prefix-more (x ∷ xs) (y ∷ ys) r t h = elim (Bool-cases (x == y)) [
  | inl same ↦ rw (same, strip_prefix) (strip_prefix-more xs ys r t (rw (strip_prefix, same) at h))
  | inr other ↦ let bad : none ≡ some r = rw (strip_prefix, other) at h in absurd (cc)
]

strip_prefix-short :
    (needle s t : Bytes)
    → strip_prefix needle s ≡ none
    → length needle ≤ length s
    → strip_prefix needle (s ++ t) ≡ none
unfolding strip_prefix
strip_prefix-short [] s t h le = absurd (cc)
strip_prefix-short (x ∷ xs) [] t h le = absurd (omega arith)
strip_prefix-short (x ∷ xs) (y ∷ ys) t h le = elim (Bool-cases (x == y)) [
  | inl same ↦
      rw (same, strip_prefix)
        (strip_prefix-short xs ys t (rw (strip_prefix, same) at h) (omega arith))
  | inr other ↦ rw (other, strip_prefix) refl
]

pub find-length :
    (needle s before behind : Bytes)
    → find needle s ≡ some (before, behind)
    → length s ≡ length before + length needle + length behind
find-length needle s before behind h = omega (
  arith,
  ap length (find-append needle s before behind h),
  length-append before (needle ++ behind),
  length-append needle behind,
)

-- Text behind an occurrence does not change it.
pub find-more :
    (needle s t before behind : Bytes)
    → 0 < length needle
    → find needle s ≡ some (before, behind)
    → find needle (s ++ t) ≡ some (before, behind ++ t)
unfolding find strip_prefix
find-more [] s t before behind some_text h = absurd (omega arith)
find-more (x ∷ xs) [] t before behind some_text h = absurd (cc)
find-more needle (c ∷ s) t before behind some_text h =
    elim (Option-cases (strip_prefix needle (c ∷ s))) [
      | inl absent ↦ elim (Option-cases (find needle s)) [
        | inl nowhere ↦
            let bad : none ≡ some (before, behind) = rw (find, absent, nowhere) at h in absurd (cc)
        | inr ((b, r), later) ↦
            let same : some (c ∷ b, r) ≡ some (before, behind) = rw (find, absent, later) at h in
            let long = find-length needle s b r later in
            let still = strip_prefix-short needle (c ∷ s) t absent (omega arith) in
            rw (find, still, find-more needle s t b r some_text later)
              (ap (λ o. Option.map (λ (q : Bytes × Bytes). (q.0, q.1 ++ t)) o) same)
      ]
      | inr (r, present) ↦
          let same : some ([], r) ≡ some (before, behind) = rw (find, present) at h in
          rw (find, strip_prefix-more needle (c ∷ s) r t present)
            (ap (λ o. Option.map (λ (q : Bytes × Bytes). (q.0, q.1 ++ t)) o) same)
    ]

le_or_lt : (m n : ℕ) → (m ≤ n) ⊎ (n < m)
le_or_lt m n = elim (Bool-cases (leb m n)) [
  | inl le ↦ inl (ground arith)
  | inr gt ↦ inr (ground arith)
]

prefix-late :
    (needle s t r : Bytes)
    → strip_prefix needle s ≡ none
    → strip_prefix needle (s ++ t) ≡ some r
    → length s < length needle
prefix-late needle s t r h k = elim (le_or_lt (length needle) (length s)) [
  | inl le ↦ let still = strip_prefix-short needle s t h le in absurd (cc)
  | inr lt ↦ lt
]

-- An occurrence that is there only with the text behind ends in this text.
pub find-late :
    (needle s t before behind : Bytes)
    → 0 < length needle
    → find needle s ≡ none
    → find needle (s ++ t) ≡ some (before, behind)
    → length s < length before + length needle
unfolding find
find-late needle [] t before behind some_text h k = omega arith
find-late needle (c ∷ s) t before behind some_text h k =
    elim (Option-cases (strip_prefix needle (c ∷ s))) [
      | inr (r, present) ↦ let bad : some ([], r) ≡ none = rw (find, present) at h in absurd (cc)
      | inl absent ↦ elim (Option-cases (find needle s)) [
        | inr ((b, r), later) ↦
            let bad : some (c ∷ b, r) ≡ none = rw (find, absent, later) at h in absurd (cc)
        | inl nowhere ↦ elim (Option-cases (strip_prefix needle (c ∷ (s ++ t)))) [
          | inr (r, present) ↦
              let less = prefix-late needle (c ∷ s) t r absent present in omega arith
          | inl still ↦ elim (Option-cases (find needle (s ++ t))) [
            | inl never ↦
                let bad : none ≡ some (before, behind) = rw (find, still, never) at k in absurd (cc)
            | inr ((b, r), later) ↦
                let same : some (c ∷ b, r) ≡ some (before, behind) = rw (find, still, later) at k in
                let less = find-late needle s t b r some_text nowhere later in
                let head : c ∷ b ≡ before = cc in omega (arith, ap length head)
          ]
        ]
      ]
    ]

pub c_str-append : (s t : Bytes) → HasNoNul s → c_str (s ++ t) ≡ s ++ c_str t
c_str-append [] t h = refl
c_str-append (c ∷ s) t (more, h) = rw more (ap (λ l. c ∷ l) (c_str-append s t h))

pub take-exact : (s t : Bytes) → take (length s) (s ++ t) ≡ s
take-exact [] t = refl
take-exact (c ∷ s) t = ap (λ l. c ∷ l) (take-exact s t)

pub drop-exact : (s t : Bytes) → drop (length s) (s ++ t) ≡ t
drop-exact [] t = refl
drop-exact (c ∷ s) t = drop-exact s t
