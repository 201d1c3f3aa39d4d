-- ===== src/Util/Split/Pieces.antt =====
-- split against a description by recursion on the string: it cuts at each delimiter, and the other
-- overloads leave the empty pieces out.
use teaf.Prelude.{
  ℕ, zero, suc, ◌≤◌, ◌<◌, ◌≡◌, ◌∙◌, refl, sym, ap, subst, Bool, true, false, List, [], ◌∷◌, arith,
  if◌then◌else◌, Bytes, length, Bool-cases, inl, inr,
}
use teaf.Util.Url.{one_of}
use teaf.Util.Split.{
  break_at, skip_all, split_after, split_loop, split, ign_after, ign_start, split_ign_loop,
  split_ign,
}

abbrev pub to_first : ℕ → List Bytes → List Bytes
to_first c [] = (c ∷ []) ∷ []
to_first c (w ∷ ws) = (c ∷ w) ∷ ws

-- The pieces between the delimiters: one more than there are delimiters.
unfoldable pub pieces : (ℕ → Bool) → Bytes → List Bytes
pieces p [] = [] ∷ []
pieces p (c ∷ s) = let ws = pieces p s in if p c then [] ∷ ws else to_first c ws

abbrev pub filled : List Bytes → List Bytes
filled [] = []
filled ([] ∷ ws) = filled ws
filled ((c ∷ w) ∷ ws) = (c ∷ w) ∷ filled ws

to_first-split_after :
    (go : Bytes → List Bytes) (c : ℕ) (r : Bytes × Bytes)
    → to_first c (split_after go r) ≡ split_after go (c ∷ r.0, r.1)
to_first-split_after go c (w, []) = refl
to_first-split_after go c (w, d ∷ rest) = refl

pub pieces-break_at :
    (p : ℕ → Bool) (s : Bytes) → pieces p s ≡ split_after (pieces p) (break_at p s)
unfolding pieces break_at
pieces-break_at p [] = refl
pieces-break_at p (c ∷ s) = elim (Bool-cases (p c)) [
  | inl hit ↦ rw hit refl
  | inr miss ↦
      rw miss
        (ap (to_first c) (pieces-break_at p s) ∙ to_first-split_after (pieces p) c (break_at p s))
]

break_at-miss :
    (p : ℕ → Bool) (c : ℕ) (s : Bytes)
    → p c ≡ false
    → break_at p (c ∷ s) ≡ (c ∷ (break_at p s).0, (break_at p s).1)
unfolding break_at
break_at-miss p c s miss = rw miss refl

pub break_at-hit :
    (p : ℕ → Bool) (s : Bytes) (d : ℕ) (rest : Bytes) → (break_at p s).1 ≡ d ∷ rest → p d ≡ true
unfolding break_at
break_at-hit p [] d rest h = absurd (cc)
break_at-hit p (c ∷ s) d rest h = elim (Bool-cases (p c)) [
  | inl hit ↦
      let same : c ∷ s ≡ d ∷ rest = rw hit at h in
      let eq : c ≡ d = cc in subst (λ x. p x ≡ true) eq hit
  | inr miss ↦ break_at-hit p s d rest (rw miss at h)
]

skip_all-le : (p : ℕ → Bool) (s : Bytes) → length (skip_all p s) ≤ length s
unfolding skip_all
skip_all-le p [] = omega arith
skip_all-le p (c ∷ s) = elim (Bool-cases (p c)) [
  | inl hit ↦ rw hit (omega (arith, skip_all-le p s))
  | inr miss ↦ rw miss (omega arith)
]

skip_all-head : (p : ℕ → Bool) (s : Bytes) (d : ℕ) (t : Bytes) → skip_all p s ≡ d ∷ t → p d ≡ false
unfolding skip_all
skip_all-head p [] d t h = absurd (cc)
skip_all-head p (c ∷ s) d t h = elim (Bool-cases (p c)) [
  | inl hit ↦ skip_all-head p s d t (rw hit at h)
  | inr miss ↦
      let same : c ∷ s ≡ d ∷ t = rw miss at h in
      let eq : c ≡ d = cc in subst (λ x. p x ≡ false) eq miss
]

pub break_at-le : (p : ℕ → Bool) (s : Bytes) → length (break_at p s).1 ≤ length s
unfolding break_at
break_at-le p [] = omega arith
break_at-le p (c ∷ s) = elim (Bool-cases (p c)) [
  | inl hit ↦ rw hit (omega arith)
  | inr miss ↦ rw miss (omega (arith, break_at-le p s))
]

split_after-eq :
    (go next : Bytes → List Bytes) (r : Bytes × Bytes)
    → ((rest : Bytes) → length rest < length r.1 → go rest ≡ next rest)
    → split_after go r ≡ split_after next r
split_after-eq go next (w, []) h = refl
split_after-eq go next (w, c ∷ rest) h = ap (λ l. w ∷ l) (h rest (omega arith))

split_loop-pieces :
    (fuel : ℕ) (p : ℕ → Bool) (s : Bytes) → length s < fuel → split_loop fuel p s ≡ pieces p s
unfolding split_loop
split_loop-pieces zero p s h = absurd (omega arith)
split_loop-pieces (suc fuel) p s h =
    let short = break_at-le p s in
    rw (pieces-break_at p s) (
      split_after-eq (split_loop fuel p) (pieces p) (break_at p s)
        (λ rest less. split_loop-pieces fuel p rest (omega arith)))

-- The loop of `split` ends, with the pieces between the delimiters.
pub split-pieces : (src delim : Bytes) → split src delim ≡ pieces (one_of delim) src
unfolding split
split-pieces src delim = split_loop-pieces (suc (length src)) (one_of delim) src (omega arith)

pieces-hit :
    (p : ℕ → Bool) (c : ℕ) (s : Bytes)
    → p c ≡ true
    → filled (pieces p (c ∷ s)) ≡ filled (pieces p s)
unfolding pieces
pieces-hit p c s hit = rw hit refl

filled-skip_all :
    (p : ℕ → Bool) (s : Bytes) → filled (pieces p (skip_all p s)) ≡ filled (pieces p s)
unfolding skip_all
filled-skip_all p [] = refl
filled-skip_all p (c ∷ s) = elim (Bool-cases (p c)) [
  | inl hit ↦ rw hit (filled-skip_all p s ∙ sym (pieces-hit p c s hit))
  | inr miss ↦ rw miss refl
]

ign_after-filled :
    (p : ℕ → Bool) (go : Bytes → List Bytes) (c : ℕ) (r : Bytes × Bytes)
    → ((d : ℕ) (rest : Bytes) → r.1 ≡ d ∷ rest → p d ≡ true)
    → ((rest : Bytes) → length rest ≤ length r.1 → go rest ≡ filled (pieces p rest))
    → ign_after go (c ∷ r.0, r.1) ≡ filled (split_after (pieces p) (c ∷ r.0, r.1))
ign_after-filled p go c (w, []) hits h = refl
ign_after-filled p go c (w, d ∷ rest) hits h =
    ap (λ l. (c ∷ w) ∷ l) (h (d ∷ rest) (omega arith) ∙ pieces-hit p d rest (hits d rest refl))

ign_start-filled :
    (p : ℕ → Bool) (go : Bytes → List Bytes) (t : Bytes)
    → ((d : ℕ) (rest : Bytes) → t ≡ d ∷ rest → p d ≡ false)
    → ((rest : Bytes) → length rest < length t → go rest ≡ filled (pieces p rest))
    → ign_start p go t ≡ filled (pieces p t)
unfolding pieces
ign_start-filled p go [] misses h = refl
ign_start-filled p go (c ∷ t) misses h =
    let miss = misses c t refl in
    let short = break_at-le p t in
    rw (pieces-break_at p (c ∷ t), break_at-miss p c t miss)
      (ign_after-filled p go c (break_at p t) (break_at-hit p t)
        (λ rest less. h rest (omega arith)))

split_ign_loop-filled :
    (fuel : ℕ) (p : ℕ → Bool) (s : Bytes)
    → length s < fuel
    → split_ign_loop fuel p s ≡ filled (pieces p s)
unfolding split_ign_loop
split_ign_loop-filled zero p s h = absurd (omega arith)
split_ign_loop-filled (suc fuel) p s h =
    let short = skip_all-le p s in
    ign_start-filled p (split_ign_loop fuel p) (skip_all p s) (skip_all-head p s)
      (λ rest less. split_ign_loop-filled fuel p rest (omega arith))
    ∙ filled-skip_all p s

-- split_ign gives the pieces of split, the empty ones left out.
pub split_ign-split : (src delim : Bytes) → split_ign src delim ≡ filled (split src delim)
unfolding split_ign
split_ign-split src delim =
    split_ign_loop-filled (suc (length src)) (one_of delim) src (omega arith)
    ∙ ap filled (sym (split-pieces src delim))
