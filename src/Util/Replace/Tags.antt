-- ===== src/Util/Replace/Tags.antt =====
-- replace_tag: it ends with no pair of tags left, and erases more than the pairs.
use teaf.Prelude.{
  ℕ, zero, suc, ◌<◌, ◌≡◌, ◌∙◌, refl, ap, false, none, some, [], ◌∷◌, ◌++◌, ◌⊎◌, arith, Bytes,
  length, length-append, drop, length-drop, Option-cases, inl, inr,
}
use teaf.Util.Replace.{find, cut_first, erased, strip_loop, or_input, replace_tag}
use teaf.Util.Replace.Ends.{find-append, is_empty}

-- No start tag is left, or no end tag behind the first one.
abbrev pub HasNoPair : Bytes → Bytes → Bytes → Type 0
HasNoPair start_tag end_tag s =
    (find start_tag s ≡ none)
    ⊎ ((parts : Bytes × Bytes) × (find start_tag s ≡ some parts) × (find end_tag parts.1 ≡ none))

erased-lt :
    (start_tag end_tag output before inner between behind : Bytes)
    → is_empty start_tag ≡ false
    → find start_tag output ≡ some (before, inner)
    → find end_tag inner ≡ some (between, behind)
    → length (erased before behind) < length output
erased-lt [] end_tag output before inner between behind tag s e = absurd (cc)
erased-lt (x ∷ xs) end_tag output before inner between behind tag s e = omega (
  arith,
  ap length (find-append (x ∷ xs) output before inner s),
  ap length (find-append end_tag inner between behind e),
  length-append before (x ∷ (xs ++ inner)),
  length-append xs inner,
  length-append between (end_tag ++ behind),
  length-append end_tag behind,
  length-append before (drop (length before) behind),
  length-drop (length before) behind,
)

strip_loop-ends :
    (fuel : ℕ) (start_tag end_tag output : Bytes)
    → is_empty start_tag ≡ false
    → length output < fuel
    → (t : Bytes) × (strip_loop fuel start_tag end_tag output ≡ some t)
      × HasNoPair start_tag end_tag t
unfolding strip_loop
strip_loop-ends zero start_tag end_tag output tag h = absurd (omega arith)
strip_loop-ends (suc fuel) start_tag end_tag output tag h =
    elim (Option-cases (find start_tag output)) [
      | inl absent ↦ (output, rw (strip_loop, absent) refl, inl absent)
      | inr ((before, inner), s) ↦ elim (Option-cases (find end_tag inner)) [
        | inl absent ↦ (output, rw (strip_loop, s, absent) refl, inr ((before, inner), s, absent))
        | inr ((between, behind), e) ↦
            let less = erased-lt start_tag end_tag output before inner between behind tag s e in
            let (t, ends, clear) =
              strip_loop-ends fuel start_tag end_tag (erased before behind) tag (omega arith) in
            (t, rw (strip_loop, s, e) ends, clear)
      ]
    ]

-- With a start tag that is not empty replace_tag ends, and what it gives holds no pair of tags, unless
-- nothing was left: then it is the input.
pub replace_tag-ends :
    (input output start_tag end_tag tag : Bytes)
    → is_empty start_tag ≡ false
    → (t : Bytes) × (replace_tag input output start_tag end_tag tag ≡ some (or_input input t))
      × HasNoPair start_tag end_tag t
unfolding replace_tag
replace_tag-ends input output start_tag end_tag tag h =
    let first = cut_first input output start_tag end_tag tag in
    let (t, ends, clear) =
      strip_loop-ends (suc (length first)) start_tag end_tag first h (omega arith) in
    (t, rw ends refl, clear)

-- A round of the second loop of replace_tag erases, together with a pair of tags and what is between
-- them, as many characters behind the pair as stand before it.
pub strip_loop-overcut :
    (fuel : ℕ) (start_tag end_tag output before inner between behind : Bytes)
    → find start_tag output ≡ some (before, inner)
    → find end_tag inner ≡ some (between, behind)
    → (output ≡ before ++ (start_tag ++ (between ++ (end_tag ++ behind))))
      × (strip_loop (suc fuel) start_tag end_tag output
          ≡ strip_loop fuel start_tag end_tag (before ++ drop (length before) behind))
unfolding strip_loop
strip_loop-overcut fuel start_tag end_tag output before inner between behind s e = (
  find-append start_tag output before inner s
      ∙ ap (λ l. before ++ (start_tag ++ l)) (find-append end_tag inner between behind e),
  rw (strip_loop, s, e) refl,
)
