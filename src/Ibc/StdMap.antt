-- ===== src/Ibc/StdMap.antt =====
-- comm/ibc_prot.h, IBCR_MAP: a std::map under IBCR_COMP, which is no strict weak order on keys with one
-- `msg_seq`. Where no two such keys have met the map is ordered; where they have, what it does is
-- undefined.
use teaf.Prelude.{
  ℕ, zero, suc, ◌≤◌, ◌≡◌, refl, ap, Bool, true, false, not, ◌&&◌, Option, none, some, List, [], ◌∷◌,
  arith, ltb, ◌==◌, if◌then◌else◌, if_intro, length,
}
use teaf.Ibc.Records.{
  Key, Value, is_same, search, place, put_key, erase_key, length-put_key, length-erase_key,
  length-place,
}

-- No other key of the map has this `msg_seq`.
unfoldable pub is_clear : Key → List (Key × Value) → Bool
is_clear k [] = true
is_clear k ((j, v) ∷ m) =
    let rest = is_clear k m in if k.msg_seq == j.msg_seq && not (is_same k j) then false else rest

-- Every key of the map has a smaller `msg_seq` than n.
unfoldable pub is_below : ℕ → List (Key × Value) → Bool
is_below n [] = true
is_below n ((j, v) ∷ m) = let rest = is_below n m in if ltb j.msg_seq n then rest else false

-- The entries stand from the greatest `msg_seq` down to the least, as IBCR_COMP is meant to sort them.
unfoldable pub is_ordered : List (Key × Value) → Bool
is_ordered [] = true
is_ordered ((j, v) ∷ m) = let rest = is_ordered m in is_below j.msg_seq m && rest

-- IBCR_COMP is an order on the keys of the map and `k`, and the map stands in it.
unfoldable pub is_apart : Key → List (Key × Value) → Bool
is_apart k m = is_clear k m && is_ordered m

-- What a map does that is not ordered: at which place `find` ends, if at any; at which place `insert`
-- puts a new entry, or that it answers one that is there; and at which place the iterator stands.
pub record Wild : Type 0 where
  pub found : Key → List (Key × Value) → Option ℕ
  pub placed : Key → List (Key × Value) → Option ℕ
  pub stands : Key → List (Key × Value) → ℕ

abbrev pub value_at : ℕ → List (Key × Value) → Option Value
value_at i [] = none
value_at zero ((j, v) ∷ m) = some v
value_at (suc i) (e ∷ m) = value_at i m

abbrev pub insert_at : ℕ → Key × Value → List (Key × Value) → List (Key × Value)
insert_at i e [] = e ∷ []
insert_at zero e (f ∷ m) = e ∷ f ∷ m
insert_at (suc i) e (f ∷ m) = f ∷ insert_at i e m

abbrev pub put_at : ℕ → Value → List (Key × Value) → List (Key × Value)
put_at i v [] = []
put_at zero v ((j, w) ∷ m) = (j, v) ∷ m
put_at (suc i) v (e ∷ m) = e ∷ put_at i v m

abbrev pub erase_at : ℕ → List (Key × Value) → List (Key × Value)
erase_at i [] = []
erase_at zero (e ∷ m) = m
erase_at (suc i) (e ∷ m) = e ∷ erase_at i m

abbrev pub value_there : Option ℕ → List (Key × Value) → Option Value
value_there none m = none
value_there (some i) m = value_at i m

abbrev pub placed_at : Option ℕ → Key × Value → List (Key × Value) → List (Key × Value)
placed_at none e m = m
placed_at (some i) e m = insert_at i e m

abbrev pub entry_of : Value → Option ℕ → Option Value → Value
entry_of v (some i) there = v
entry_of v none none = v
entry_of v none (some w) = w

-- `find`.
unfoldable pub find : Wild → Key → List (Key × Value) → Option Value
find w k m = if is_apart k m then search k m else value_there (w.found k m) m

-- `insert`, and the value of the entry that it answers: the new one, or one that is there.
unfoldable pub insert : Wild → Key → Value → List (Key × Value) → List (Key × Value)
insert w k v m = if is_apart k m then place k v m else placed_at (w.placed k m) (k, v) m

unfoldable pub entry : Wild → Key → Value → List (Key × Value) → Value
entry w k v m = if is_apart k m then v else entry_of v (w.placed k m) (value_at (w.stands k m) m)

-- The entry at the iterator changed, and erased.
unfoldable pub put : Wild → Key → Value → List (Key × Value) → List (Key × Value)
put w k v m = if is_apart k m then put_key k v m else put_at (w.stands k m) v m

unfoldable pub erase : Wild → Key → List (Key × Value) → List (Key × Value)
erase w k m = if is_apart k m then erase_key k m else erase_at (w.stands k m) m

length-put_at : (i : ℕ) (v : Value) (m : List (Key × Value)) → length (put_at i v m) ≡ length m
length-put_at i v [] = refl
length-put_at zero v (e ∷ m) = refl
length-put_at (suc i) v (e ∷ m) = ap suc (length-put_at i v m)

length-erase_at : (i : ℕ) (m : List (Key × Value)) → length (erase_at i m) ≤ length m
length-erase_at i [] = omega arith
length-erase_at zero (e ∷ m) = omega arith
length-erase_at (suc i) (e ∷ m) = omega (arith, length-erase_at i m)

length-insert_at :
    (i : ℕ) (e : Key × Value) (m : List (Key × Value)) → length (insert_at i e m) ≡ suc (length m)
length-insert_at i e [] = refl
length-insert_at zero e (f ∷ m) = refl
length-insert_at (suc i) e (f ∷ m) = ap suc (length-insert_at i e m)

length-placed_at :
    (o : Option ℕ) (e : Key × Value) (m : List (Key × Value))
    → length (placed_at o e m) ≤ suc (length m)
length-placed_at none e m = omega arith
length-placed_at (some i) e m = omega (arith, length-insert_at i e m)

pub length-put :
    (w : Wild) (k : Key) (v : Value) (m : List (Key × Value)) → length (put w k v m) ≡ length m
unfolding put
length-put w k v m =
    if_intro (λ (l : List (Key × Value)). length l ≡ length m) (is_apart k m) (length-put_key k v m)
      (length-put_at (w.stands k m) v m)

pub length-erase : (w : Wild) (k : Key) (m : List (Key × Value)) → length (erase w k m) ≤ length m
unfolding erase
length-erase w k m =
    if_intro (λ (l : List (Key × Value)). length l ≤ length m) (is_apart k m) (length-erase_key k m)
      (length-erase_at (w.stands k m) m)

pub length-insert :
    (w : Wild) (k : Key) (v : Value) (m : List (Key × Value))
    → length (insert w k v m) ≤ suc (length m)
unfolding insert
length-insert w k v m =
    if_intro (λ (l : List (Key × Value)). length l ≤ suc (length m)) (is_apart k m)
      (omega (arith, length-place k v m)) (length-placed_at (w.placed k m) (k, v) m)
