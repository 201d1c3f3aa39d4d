-- ===== src/Util/Replace/Ends.antt =====
-- Replace: it ends where there is something to look for, and never where there is nothing.
use teaf.Prelude.{
  ℕ, zero, suc, ◌<◌, ◌≡◌, ◌∙◌, refl, sym, ap, Bool, true, false, none, some, [], ◌∷◌, ◌++◌, arith,
  ◌==◌, ==_iff, Bytes, length, length-append, Bool-cases, Option-cases, inl, inr,
}
use teaf.Util.Replace.{strip_prefix, find, replace_loop, replace}

strip_prefix-append : (needle s r : Bytes) → strip_prefix needle s ≡ some r → s ≡ needle ++ r
unfolding strip_prefix
strip_prefix-append [] s r h = cc
strip_prefix-append (x ∷ xs) [] r h = absurd (cc)
strip_prefix-append (x ∷ xs) (y ∷ ys) r h = elim (Bool-cases (x == y)) [
  | inl same ↦
      let eq : x ≡ y = (==_iff x y).0 same in
      let tail = strip_prefix-append xs ys r (rw same at h) in
      ap (λ z. z ∷ ys) (sym eq) ∙ ap (λ l. x ∷ l) tail
  | inr other ↦ let bad : none ≡ some r = rw other at h in absurd (cc)
]

-- What `find` gives are the parts of the text round the needle.
pub find-append :
    (needle s before behind : Bytes)
    → find needle s ≡ some (before, behind)
    → s ≡ before ++ (needle ++ behind)
unfolding find
find-append needle [] before behind h = elim (Option-cases (strip_prefix needle [])) [
  | inl absent ↦ let bad : none ≡ some (before, behind) = rw (find, absent) at h in absurd (cc)
  | inr (r, present) ↦
      let same : some ([], r) ≡ some (before, behind) = rw (find, present) at h in
      let tail = strip_prefix-append needle [] r present in ground (arith)
]
find-append needle (c ∷ s) before behind h = elim (Option-cases (strip_prefix needle (c ∷ s))) [
  | inl absent ↦ elim (Option-cases (find needle s)) [
    | inl nowhere ↦
        let bad : none ≡ some (before, behind) = rw (find, absent, nowhere) at h in absurd (cc)
    | inr ((b, r), later) ↦
        let same : some (c ∷ b, r) ≡ some (before, behind) = rw (find, absent, later) at h in
        let tail = find-append needle s b r later in
        let whole : c ∷ s ≡ c ∷ (b ++ (needle ++ r)) = ap (λ l. c ∷ l) tail in ground (arith)
  ]
  | inr (r, present) ↦
      let same : some ([], r) ≡ some (before, behind) = rw (find, present) at h in
      let tail = strip_prefix-append needle (c ∷ s) r present in ground (arith)
]

abbrev pub is_empty : Bytes → Bool
is_empty [] = true
is_empty (c ∷ s) = false

behind-lt :
    (needle s before behind : Bytes)
    → is_empty needle ≡ false
    → find needle s ≡ some (before, behind)
    → length behind < length s
behind-lt [] s before behind some_text h = absurd (cc)
behind-lt (x ∷ xs) s before behind some_text h = omega (
  arith,
  ap length (find-append (x ∷ xs) s before behind h),
  length-append before (x ∷ (xs ++ behind)),
  length-append xs behind,
)

-- The loop ends, and gives the text back where the replacement is what is replaced.
replace_loop-total :
    (fuel : ℕ) (src dest rest : Bytes)
    → is_empty src ≡ false
    → length rest < fuel
    → (ret : Bytes) × (replace_loop fuel src dest rest ≡ some ret) × (dest ≡ src → ret ≡ rest)
unfolding replace_loop
replace_loop-total zero src dest rest some_text h = absurd (omega arith)
replace_loop-total (suc fuel) src dest rest some_text h = elim (Option-cases (find src rest)) [
  | inl absent ↦ (rest, rw (replace_loop, absent) refl, λ e. refl)
  | inr ((before, behind), present) ↦
      let (ret, ends, same) =
        replace_loop-total fuel src dest behind some_text
          (omega (arith, behind-lt src rest before behind some_text present)) in
      (
        before ++ (dest ++ ret),
        rw (replace_loop, present, ends) refl,
        λ e.
            ap (λ l. before ++ (l ++ ret)) e
            ∙ (ap (λ l. before ++ (src ++ l)) (same e)
                ∙ sym (find-append src rest before behind present)),
      )
]

-- Replace of a text that is not empty ends. Where the text is replaced by itself, or does not occur,
-- the string stays as it is.
pub replace-ends :
    (value src dest : Bytes)
    → is_empty src ≡ false
    → (ret : Bytes) × (replace value src dest ≡ some ret)
      × (dest ≡ src → ret ≡ value)
      × (find src value ≡ none → ret ≡ value)
unfolding replace replace_loop
replace-ends value src dest some_text =
    let (ret, ends, same) =
      replace_loop-total (suc (length value)) src dest value some_text (omega arith) in
    (
      ret,
      ends,
      same,
      λ absent. let e : some ret ≡ some value = sym ends ∙ rw (replace_loop, absent) refl in cc,
    )

-- Replace of the empty text never ends: no number of rounds is enough.
pub replace_loop-never : (fuel : ℕ) (dest rest : Bytes) → replace_loop fuel [] dest rest ≡ none
unfolding replace_loop find strip_prefix
replace_loop-never zero dest rest = refl
replace_loop-never (suc fuel) dest [] = rw (replace_loop-never fuel dest []) refl
replace_loop-never (suc fuel) dest (c ∷ s) = rw (replace_loop-never fuel dest (c ∷ s)) refl
