-- ===== src/Ibc/Owned.antt =====
-- Where each sequence number belongs to one key, the map of batch requests is ordered.
use teaf.Prelude.{
  ℕ, ◌<◌, ◌≡◌, ◌∙◌, refl, sym, ap, subst, true, false, none, some, arith, ltb, All-mono, List, [],
  ◌∷◌, All, ◌==◌, ==_iff, if_intro, Bool-cases, inl, inr,
}
use teaf.Ibc.Records.{
  Key, Value, is_same, is_same_refl, ibcr_comp, search, place, put_key, erase_key,
}
use teaf.Ibc.StdMap.{
  Wild, is_clear, is_below, is_ordered, is_apart, find, insert, entry, put, erase,
}

module _ (owner : ℕ → Key) where
  -- The key is the one that its `msg_seq` belongs to.
  abbrev pub IsOwned : Key → Type 0
  IsOwned k = k ≡ owner k.msg_seq

  abbrev IsBelow : ℕ → List (Key × Value) → Type 0
  IsBelow n = All (λ e. e.0.msg_seq < n)

  -- So is each key of the map, which stands in the order of IBCR_COMP.
  abbrev pub AreOwned : List (Key × Value) → Type 0
  AreOwned [] = Unit
  AreOwned ((j, v) ∷ m) = IsOwned j × IsBelow j.msg_seq m × AreOwned m

  same_key :
      (k j : Key) → IsOwned k → IsOwned j → (k.msg_seq == j.msg_seq) ≡ true → is_same k j ≡ true
  same_key k j mine theirs same =
      let e : k ≡ j = mine ∙ (ap owner ((==_iff k.msg_seq j.msg_seq).0 same) ∙ sym theirs) in
      ap (is_same k) (sym e) ∙ is_same_refl k

  is_clear-owned : (k : Key) (m : List (Key × Value)) → IsOwned k → AreOwned m → is_clear k m ≡ true
  unfolding is_clear
  is_clear-owned k [] mine owned = refl
  is_clear-owned k ((j, v) ∷ m) mine (theirs, below, owned) =
      elim (Bool-cases (k.msg_seq == j.msg_seq)) [
        | inl e ↦ rw (e, same_key k j mine theirs e) (is_clear-owned k m mine owned)
        | inr e ↦ rw e (is_clear-owned k m mine owned)
      ]

  is_below-IsBelow : (n : ℕ) (m : List (Key × Value)) → IsBelow n m → is_below n m ≡ true
  unfolding is_below
  is_below-IsBelow n [] h = refl
  is_below-IsBelow n ((j, v) ∷ m) (less, h) =
      let yes : ltb j.msg_seq n ≡ true = ground arith in rw yes (is_below-IsBelow n m h)

  is_ordered-owned : (m : List (Key × Value)) → AreOwned m → is_ordered m ≡ true
  unfolding is_ordered
  is_ordered-owned [] owned = refl
  is_ordered-owned ((j, v) ∷ m) (theirs, below, owned) =
      rw (is_below-IsBelow j.msg_seq m below) (is_ordered-owned m owned)

  is_apart-owned : (k : Key) (m : List (Key × Value)) → IsOwned k → AreOwned m → is_apart k m ≡ true
  unfolding is_apart
  is_apart-owned k m mine owned = rw (is_clear-owned k m mine owned) (is_ordered-owned m owned)

  place-IsBelow :
      (n : ℕ) (k : Key) (v : Value) (m : List (Key × Value))
      → k.msg_seq < n
      → IsBelow n m
      → IsBelow n (place k v m)
  unfolding place
  place-IsBelow n k v [] less h = (less, tt)
  place-IsBelow n k v ((j, w) ∷ m) less (first, h) =
      if_intro (IsBelow n) (ibcr_comp k j) (less, (first, h)) (first, place-IsBelow n k v m less h)

  put_key-IsBelow :
      (n : ℕ) (k : Key) (v : Value) (m : List (Key × Value))
      → IsBelow n m
      → IsBelow n (put_key k v m)
  unfolding put_key
  put_key-IsBelow n k v [] h = tt
  put_key-IsBelow n k v ((j, w) ∷ m) (first, h) =
      if_intro (IsBelow n) (is_same k j) (first, put_key-IsBelow n k v m h)
        (first, put_key-IsBelow n k v m h)

  erase_key-IsBelow :
      (n : ℕ) (k : Key) (m : List (Key × Value)) → IsBelow n m → IsBelow n (erase_key k m)
  unfolding erase_key
  erase_key-IsBelow n k [] h = tt
  erase_key-IsBelow n k ((j, w) ∷ m) (first, h) =
      if_intro (IsBelow n) (is_same k j) (erase_key-IsBelow n k m h)
        (first, erase_key-IsBelow n k m h)

  comp-gt :
      (k j : Key) → (k.msg_seq == j.msg_seq) ≡ false → ibcr_comp k j ≡ true → j.msg_seq < k.msg_seq
  unfolding ibcr_comp
  comp-gt k j apart h = ground arith

  comp-lt :
      (k j : Key) → (k.msg_seq == j.msg_seq) ≡ false → ibcr_comp k j ≡ false → k.msg_seq < j.msg_seq
  unfolding ibcr_comp
  comp-lt k j apart h = ground arith

  -- Owned keys that are not the same have different numbers.
  seq-apart :
      (k j : Key) → IsOwned k → IsOwned j → is_same k j ≡ false → (k.msg_seq == j.msg_seq) ≡ false
  seq-apart k j mine theirs other = elim (Bool-cases (k.msg_seq == j.msg_seq)) [
    | inl e ↦ let same = same_key k j mine theirs e in absurd (cc)
    | inr e ↦ e
  ]

  place-AreOwned :
      (k : Key) (v : Value) (m : List (Key × Value))
      → IsOwned k
      → AreOwned m
      → search k m ≡ none
      → AreOwned (place k v m)
  unfolding place search
  place-AreOwned k v [] mine owned fresh = (mine, tt, tt)
  place-AreOwned k v ((j, w) ∷ m) mine (theirs, below, owned) fresh =
      elim (Bool-cases (is_same k j)) [
        | inl same ↦ let bad : some w ≡ none = rw same at fresh in absurd (cc)
        | inr other ↦
            let apart = seq-apart k j mine theirs other in
            elim (Bool-cases (ibcr_comp k j)) [
              | inl first ↦
                  let less = comp-gt k j apart first in
                  rw first
                    (mine, (less, All-mono m (λ e h. omega arith) below), (theirs, below, owned))
              | inr later ↦ rw later (
                theirs,
                place-IsBelow j.msg_seq k v m (comp-lt k j apart later) below,
                place-AreOwned k v m mine owned (rw other at fresh),
              )
            ]
      ]

  put_key-AreOwned :
      (k : Key) (v : Value) (m : List (Key × Value)) → AreOwned m → AreOwned (put_key k v m)
  unfolding put_key
  put_key-AreOwned k v [] owned = tt
  put_key-AreOwned k v ((j, w) ∷ m) (theirs, below, owned) =
      let less = put_key-IsBelow j.msg_seq k v m below in
      let rest = put_key-AreOwned k v m owned in
      if_intro AreOwned (is_same k j) (theirs, less, rest) (theirs, less, rest)

  erase_key-AreOwned : (k : Key) (m : List (Key × Value)) → AreOwned m → AreOwned (erase_key k m)
  unfolding erase_key
  erase_key-AreOwned k [] owned = tt
  erase_key-AreOwned k ((j, w) ∷ m) (theirs, below, owned) =
      if_intro AreOwned (is_same k j) (erase_key-AreOwned k m owned)
        (theirs, erase_key-IsBelow j.msg_seq k m below, erase_key-AreOwned k m owned)

  module _ (w : Wild) (k : Key) (m : List (Key × Value)) (mine : IsOwned k)
      (owned : AreOwned m) where
    pub find-search : find w k m ≡ search k m
    unfolding find
    find-search = rw (is_apart-owned k m mine owned) refl

    pub insert-place : (v : Value) → insert w k v m ≡ place k v m
    unfolding insert
    insert-place v = rw (is_apart-owned k m mine owned) refl

    pub entry_new : (v : Value) → entry w k v m ≡ v
    unfolding entry
    entry_new v = rw (is_apart-owned k m mine owned) refl

    pub put-put_key : (v : Value) → put w k v m ≡ put_key k v m
    unfolding put
    put-put_key v = rw (is_apart-owned k m mine owned) refl

    pub erase-erase_key : erase w k m ≡ erase_key k m
    unfolding erase
    erase-erase_key = rw (is_apart-owned k m mine owned) refl

    pub insert-AreOwned : (v : Value) → search k m ≡ none → AreOwned (insert w k v m)
    insert-AreOwned v fresh =
        subst AreOwned (sym (insert-place v)) (place-AreOwned k v m mine owned fresh)

    pub put-AreOwned : (v : Value) → AreOwned (put w k v m)
    put-AreOwned v = subst AreOwned (sym (put-put_key v)) (put_key-AreOwned k v m owned)

    pub erase-AreOwned : AreOwned (erase w k m)
    erase-AreOwned = subst AreOwned (sym erase-erase_key) (erase_key-AreOwned k m owned)
