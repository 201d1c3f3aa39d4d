-- ===== src/Util/Maps/Dict.antt =====
-- std::map as the list of its entries in the order of the keys, as an iterator visits them.
use Prim.Native.Nat.{compare, Ordering}
use mathlib.Core.List.{append_assoc, append-nil}
use teaf.Prelude.{
  ◌+◌, ◌≡◌, ◌∙◌, refl, sym, Option, none, some, List, [], ◌∷◌, ◌++◌, All, Bytes, ℤ, pos_part,
  neg_part, ap,
}

-- The order of std::string, by the bytes.
abbrev pub lex : Bytes → Bytes → Ordering
lex [] [] = Ordering.eq
lex [] (y ∷ ys) = Ordering.lt
lex (x ∷ xs) [] = Ordering.gt
lex (x ∷ xs) (y ∷ ys) =
    let rest = lex xs ys in
    elim (compare x y) [
      | Ordering.lt ↦ Ordering.lt
      | Ordering.eq ↦ rest
      | Ordering.gt ↦ Ordering.gt
    ]

abbrev pub compare_ℤ : ℤ → ℤ → Ordering
compare_ℤ a b = compare (pos_part a + neg_part b) (pos_part b + neg_part a)

module _ {K V : Type 0} (cmp : K → K → Ordering) where
  -- `m[k] = v`.
  unfoldable pub insert : K → V → List (K × V) → List (K × V)
  insert k v [] = (k, v) ∷ []
  insert k v ((j, w) ∷ m) =
      let rest = insert k v m in
      elim (cmp k j) [
        | Ordering.lt ↦ (k, v) ∷ (j, w) ∷ m
        | Ordering.eq ↦ (j, v) ∷ m
        | Ordering.gt ↦ (j, w) ∷ rest
      ]

  unfoldable pub insert_all : List (K × V) → List (K × V) → List (K × V)
  insert_all [] m = m
  insert_all ((k, v) ∷ es) m = insert_all es (insert k v m)

  -- `k` is above every key of `m`.
  abbrev pub IsAbove : List (K × V) → K → Type 0
  IsAbove m k = All (λ e. cmp k e.0 ≡ Ordering.gt) m

  -- Each key of `es` is above those before it, and above those of `m`.
  abbrev pub IsSortedFrom : List (K × V) → List (K × V) → Type 0
  IsSortedFrom m [] = Unit
  IsSortedFrom m ((k, v) ∷ es) = IsAbove m k × IsSortedFrom (m ++ ((k, v) ∷ [])) es

  pub insert-IsAbove :
      (k : K) (v : V) (m : List (K × V)) → IsAbove m k → insert k v m ≡ m ++ ((k, v) ∷ [])
  unfolding insert
  insert-IsAbove k v [] h = refl
  insert-IsAbove k v ((j, w) ∷ m) (above, h) =
      rw (above, insert) (ap (λ l. (j, w) ∷ l) (insert-IsAbove k v m h))

  -- The entries of a map, stored one after the other, give the map.
  pub insert_all-sorted : (es m : List (K × V)) → IsSortedFrom m es → insert_all es m ≡ m ++ es
  unfolding insert_all
  insert_all-sorted [] m h = sym (append-nil m)
  insert_all-sorted ((k, v) ∷ es) m (above, h) =
      rw (insert-IsAbove k v m above)
        (insert_all-sorted es (m ++ ((k, v) ∷ [])) h ∙ append_assoc m ((k, v) ∷ []) es)

  -- `find`. On a map, whose keys are in order and apart, it is a search for the key.
  unfoldable pub lookup : K → List (K × V) → Option V
  lookup k [] = none
  lookup k ((j, w) ∷ m) =
      let rest = lookup k m in elim (cmp k j) [ Ordering.eq ↦ some w | _ ↦ rest ]
