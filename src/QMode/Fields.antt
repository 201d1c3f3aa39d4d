-- ===== src/QMode/Fields.antt =====
-- The map of a message: each name has the value that stands last for it.
use Prim.Native.Nat.{Ordering, compare}
use teaf.Prelude.{
  ◌≡◌, ◌∙◌, refl, sym, ap, Bool, true, false, Option, none, some, List, [], ◌∷◌, arith,
  if◌then◌else◌, Bytes, Bool-cases, Option-cases, inl, inr, ◌⊎◌,
}
use teaf.Util.Maps.Dict.{lex, insert, insert_all, lookup}
use teaf.QMode.{or_empty, value_of, touch}

abbrev pub is_eq : Ordering → Bool
is_eq Ordering.eq = true
is_eq Ordering.lt = false
is_eq Ordering.gt = false

abbrev pub same : Bytes → Bytes → Bool
same a b = is_eq (lex a b)

lex_refl : (a : Bytes) → lex a a ≡ Ordering.eq
lex_refl [] = refl
lex_refl (x ∷ xs) =
    let same_x : compare x x ≡ Ordering.eq = ground arith in rw (same_x, lex) (lex_refl xs)

same-eq : (a b : Bytes) → same a b ≡ true → a ≡ b
same-eq [] [] h = refl
same-eq [] (y ∷ ys) h = absurd (cc)
same-eq (x ∷ xs) [] h = absurd (cc)
same-eq (x ∷ xs) (y ∷ ys) h = ground (arith, same-eq xs ys)

-- The value that stands last for a name.
abbrev pub last_value : Bytes → List (Bytes × Bytes) → Option Bytes
last_value k [] = none
last_value k ((name, v) ∷ es) =
    let later = last_value k es in
    elim later [ some w ↦ some w | none ↦ (if same k name then some v else none) ]

Ordering-cases : (o : Ordering) → (o ≡ Ordering.lt) ⊎ ((o ≡ Ordering.eq) ⊎ (o ≡ Ordering.gt))
Ordering-cases Ordering.lt = inl refl
Ordering-cases Ordering.eq = inr (inl refl)
Ordering-cases Ordering.gt = inr (inr refl)

lookup-cons :
    (j i w : Bytes) (m : List (Bytes × Bytes))
    → lookup lex j ((i, w) ∷ m) ≡ (if same j i then some w else lookup lex j m)
unfolding lookup
lookup-cons j i w m = elim (Ordering-cases (lex j i)) [
  | inl e ↦ rw (lookup, e) refl
  | inr (inl e) ↦ rw (lookup, e) refl
  | inr (inr e) ↦ rw (lookup, e) refl
]

shadow :
    {A : Type 0} (b : Bool) (x y z : A)
    → (if b then x else z) ≡ (if b then x else if b then y else z)
shadow true x y z = refl
shadow false x y z = refl

swap_tests :
    {A : Type 0} (b c : Bool) (x y z : A)
    → (b ≡ true → c ≡ true → ⊥)
    → (if b then x else if c then y else z) ≡ (if c then y else if b then x else z)
swap_tests true true x y z h = absurd (h refl refl)
swap_tests true false x y z h = refl
swap_tests false true x y z h = refl
swap_tests false false x y z h = refl

apart : (j k i : Bytes) → lex k i ≡ Ordering.gt → same j i ≡ true → same j k ≡ true → ⊥
apart j k i above p q =
    let e : j ≡ i = same-eq j i p in
    let f : j ≡ k = same-eq j k q in
    let bad : lex i i ≡ Ordering.gt = ap (λ x. lex x i) (sym e ∙ f) ∙ above in
    let equal = lex_refl i in absurd (cc)

-- `m[k] = v`, seen through a search for any name.
lookup-insert :
    (j k v : Bytes) (m : List (Bytes × Bytes))
    → lookup lex j (insert lex k v m) ≡ (if same j k then some v else lookup lex j m)
unfolding insert
lookup-insert j k v [] = lookup-cons j k v []
lookup-insert j k v ((i, w) ∷ m) = elim (Ordering-cases (lex k i)) [
  | inl below ↦ rw (insert, below) (lookup-cons j k v ((i, w) ∷ m))
  | inr (inl equal) ↦
      let e : k ≡ i = same-eq k i (ap is_eq equal) in
      rw (insert, equal, lookup-cons j i v m, lookup-cons j i w m, e)
        (shadow (same j i) (some v) (some w) (lookup lex j m))
  | inr (inr above) ↦
      rw
        (
          insert,
          above,
          lookup-cons j i w (insert lex k v m),
          lookup-insert j k v m,
          lookup-cons j i w m,
        )
        (swap_tests (same j i) (same j k) (some w) (some v) (lookup lex j m) (apart j k i above))
]

abbrev pub or_else : Option Bytes → Option Bytes → Option Bytes
or_else none o = o
or_else (some v) o = some v

last_value-cons :
    (o : Option Bytes) (b : Bool) (v : Bytes) (rest : Option Bytes)
    → or_else o (if b then some v else rest)
      ≡ or_else (elim o [ some w ↦ some w | none ↦ (if b then some v else none) ]) rest
last_value-cons none true v rest = refl
last_value-cons none false v rest = refl
last_value-cons (some w) b v rest = refl

lookup-insert_all :
    (j : Bytes) (es m : List (Bytes × Bytes))
    → lookup lex j (insert_all lex es m) ≡ or_else (last_value j es) (lookup lex j m)
unfolding insert_all
lookup-insert_all j [] m = refl
lookup-insert_all j ((k, v) ∷ es) m =
    lookup-insert_all j es (insert lex k v m)
    ∙ (ap (or_else (last_value j es)) (lookup-insert j k v m)
        ∙ last_value-cons (last_value j es) (same j k) v (lookup lex j m))

abbrev pub last_or_empty : Bytes → List (Bytes × Bytes) → Bytes
last_or_empty k es = or_empty (last_value k es)

or_else-none : (o : Option Bytes) → or_else o none ≡ o
or_else-none none = refl
or_else-none (some v) = refl

pub value_of-insert_all :
    (k : Bytes) (es : List (Bytes × Bytes)) → value_of k (insert_all lex es []) ≡ last_or_empty k es
unfolding lookup
value_of-insert_all k es = ap or_empty (lookup-insert_all k es [] ∙ or_else-none (last_value k es))

-- Entering an empty value for a name that is not there changes no value.
pub value_of-touch :
    (k name : Bytes) (m : List (Bytes × Bytes)) → value_of k (touch name m) ≡ value_of k m
value_of-touch k name m = elim (Option-cases (lookup lex name m)) [
  | inl absent ↦
      rw (touch, absent)
        (ap or_empty (lookup-insert k name [] m) ∙ elim (Bool-cases (same k name)) [
          | inl equal ↦ let e : k ≡ name = same-eq k name equal in rw (equal, e, absent) refl
          | inr other ↦ rw other refl
        ])
  | inr (v, present) ↦ rw (touch, present) refl
]
