-- ===== src/Ibc/Records.antt =====
-- comm/ibc_prot.h: the records of batch requests, and the map IBCR_MAP from their keys. A map is the
-- list of its entries in the order of an iterator.
use teaf.Prelude.{
  ℕ, suc, ◌≤◌, ◌≡◌, ◌∙◌, refl, sym, ap, Bool, true, false, not, ◌&&◌, Option, none, some, List, [],
  ◌∷◌, arith, ltb, ◌==◌, if◌then◌else◌, if_intro, Bool-cases, inl, inr, Bytes, length, ℤ,
}

-- IBCRKey.
pub record Key : Type 0 where
  pub sock_fd : ℕ
  pub sock_seq : ℕ
  pub msg_seq : ℕ

-- IBCRValue. The fields for another gateway in front have `front_` for the underscore of the source.
-- `msg_len` and `msg_num` are not used.
pub record Value : Type 0 where
  pub time : ℕ
  pub cmd : ℕ
  pub uin : ℕ
  pub total : ℕ
  pub cnum : ℕ
  pub snum : ℕ
  pub front_sock_fd : ℕ
  pub front_sock_seq : ℕ
  pub front_msg_seq : ℕ
  pub front_prot : ℕ
  pub front_time : ℕ
  pub front_rflag : ℤ
  pub endflag : ℤ
  pub msg : Bytes
  pub msg_list : List Bytes

-- IBCR_COMP.
unfoldable pub ibcr_comp : Key → Key → Bool
ibcr_comp x y =
    if x.sock_fd == y.sock_fd && x.sock_seq == y.sock_seq && x.msg_seq == y.msg_seq
    then false
    else if x.msg_seq == y.msg_seq
    then true
    else ltb y.msg_seq x.msg_seq

-- Neither is less: for std::map the keys are the same.
unfoldable pub is_same : Key → Key → Bool
unfolding ibcr_comp
is_same x y = not (ibcr_comp x y) && not (ibcr_comp y x)

-- The search for a key.
unfoldable pub search : Key → List (Key × Value) → Option Value
search k [] = none
search k ((j, v) ∷ m) = let rest = search k m in if is_same k j then some v else rest

-- A new entry, before the first that it is less than.
unfoldable pub place : Key → Value → List (Key × Value) → List (Key × Value)
place k v [] = (k, v) ∷ []
place k v ((j, w) ∷ m) =
    let rest = place k v m in if ibcr_comp k j then (k, v) ∷ (j, w) ∷ m else (j, w) ∷ rest

-- The entry of a key changed where it stands.
unfoldable pub put_key : Key → Value → List (Key × Value) → List (Key × Value)
put_key k v [] = []
put_key k v ((j, w) ∷ m) =
    let rest = put_key k v m in if is_same k j then (j, v) ∷ rest else (j, w) ∷ rest

-- The entry of a key taken out; an ordered map has one at most.
unfoldable pub erase_key : Key → List (Key × Value) → List (Key × Value)
erase_key k [] = []
erase_key k ((j, w) ∷ m) = let rest = erase_key k m in if is_same k j then rest else (j, w) ∷ rest

-- The entry before `end()`.
unfoldable pub last : List (Key × Value) → Option (Key × Value)
last [] = none
last (e ∷ []) = some e
last (e ∷ f ∷ m) = last (f ∷ m)

unfoldable pub erase_last : List (Key × Value) → List (Key × Value)
erase_last [] = []
erase_last (e ∷ []) = []
erase_last (e ∷ f ∷ m) = e ∷ erase_last (f ∷ m)

pub is_same_refl : (k : Key) → is_same k k ≡ true
unfolding is_same ibcr_comp
is_same_refl k = ground (arith)

pub is_same-eq : (x y : Key) → is_same x y ≡ true → x ≡ y
unfolding is_same ibcr_comp
is_same-eq x y h = ground (arith)

same_trans : (k i j : Key) → is_same k i ≡ true → is_same k j ≡ false → is_same j i ≡ false
same_trans k i j p q = elim (Bool-cases (is_same j i)) [
  | inr r ↦ r
  | inl r ↦
      let e : k ≡ i = is_same-eq k i p in
      let f : j ≡ i = is_same-eq j i r in
      let own : is_same k k ≡ true = is_same_refl k in
      let bad : is_same k k ≡ false = ap (is_same k) (e ∙ sym f) ∙ q in absurd (cc)
]

pub search-put_key_other :
    (k j : Key) (v : Value) (m : List (Key × Value))
    → is_same k j ≡ false
    → search k (put_key j v m) ≡ search k m
unfolding search put_key
search-put_key_other k j v [] h = refl
search-put_key_other k j v ((i, w) ∷ m) h = elim (Bool-cases (is_same k i)) [
  | inl p ↦ rw (same_trans k i j p h, p) refl
  | inr p ↦ elim (Bool-cases (is_same j i)) [
    | inl q ↦ rw (q, p) (search-put_key_other k j v m h)
    | inr q ↦ rw (q, p) (search-put_key_other k j v m h)
  ]
]

pub search-put_key :
    (k : Key) (v w : Value) (m : List (Key × Value))
    → search k m ≡ some w
    → search k (put_key k v m) ≡ some v
unfolding search put_key
search-put_key k v w [] h = absurd (cc)
search-put_key k v w ((i, u) ∷ m) h = elim (Bool-cases (is_same k i)) [
  | inl p ↦ rw (p, search, p) refl
  | inr p ↦ rw (p, search, p) (search-put_key k v w m (rw p at h))
]

pub search-erase_key_other :
    (k j : Key) (m : List (Key × Value))
    → is_same k j ≡ false
    → search k (erase_key j m) ≡ search k m
unfolding search erase_key
search-erase_key_other k j [] h = refl
search-erase_key_other k j ((i, w) ∷ m) h = elim (Bool-cases (is_same k i)) [
  | inl p ↦ rw (same_trans k i j p h, p) refl
  | inr p ↦ elim (Bool-cases (is_same j i)) [
    | inl q ↦ rw (q, p) (search-erase_key_other k j m h)
    | inr q ↦ rw (q, p) (search-erase_key_other k j m h)
  ]
]

pub search-erase_key : (k : Key) (m : List (Key × Value)) → search k (erase_key k m) ≡ none
unfolding search erase_key
search-erase_key k [] = refl
search-erase_key k ((i, w) ∷ m) = elim (Bool-cases (is_same k i)) [
  | inl p ↦ rw p (search-erase_key k m)
  | inr p ↦ rw (p, search, p) (search-erase_key k m)
]

pub search-place_other :
    (k j : Key) (v : Value) (m : List (Key × Value))
    → is_same k j ≡ false
    → search k (place j v m) ≡ search k m
unfolding search place
search-place_other k j v [] h = rw h refl
search-place_other k j v ((i, w) ∷ m) h = elim (Bool-cases (ibcr_comp j i)) [
  | inl q ↦ rw (q, search, h) refl
  | inr q ↦ rw (q, search, search-place_other k j v m h) refl
]

pub search-place :
    (k : Key) (v : Value) (m : List (Key × Value))
    → search k m ≡ none
    → search k (place k v m) ≡ some v
unfolding search place
search-place k v [] h = rw (is_same_refl k) refl
search-place k v ((i, w) ∷ m) h = elim (Bool-cases (is_same k i)) [
  | inl p ↦ let bad : some w ≡ none = rw p at h in absurd (cc)
  | inr p ↦ elim (Bool-cases (ibcr_comp k i)) [
    | inl q ↦ rw (q, search, is_same_refl k) refl
    | inr q ↦ rw (q, search, p) (search-place k v m (rw p at h))
  ]
]

pub length-put_key :
    (k : Key) (v : Value) (m : List (Key × Value)) → length (put_key k v m) ≡ length m
unfolding put_key
length-put_key k v [] = refl
length-put_key k v ((j, w) ∷ m) =
    if_intro (λ (l : List (Key × Value)). length l ≡ suc (length m)) (is_same k j)
      (ap suc (length-put_key k v m)) (ap suc (length-put_key k v m))

pub length-erase_key : (k : Key) (m : List (Key × Value)) → length (erase_key k m) ≤ length m
unfolding erase_key
length-erase_key k [] = omega arith
length-erase_key k ((j, w) ∷ m) =
    let shorter = length-erase_key k m in
    if_intro (λ (l : List (Key × Value)). length l ≤ suc (length m)) (is_same k j) (omega arith)
      (omega arith)

pub length-place :
    (k : Key) (v : Value) (m : List (Key × Value)) → length (place k v m) ≡ suc (length m)
unfolding place
length-place k v [] = refl
length-place k v ((j, w) ∷ m) =
    if_intro (λ (l : List (Key × Value)). length l ≡ suc (suc (length m))) (ibcr_comp k j) refl
      (ap suc (length-place k v m))

pub length-erase_last :
    (e : Key × Value) (m : List (Key × Value)) → length (erase_last (e ∷ m)) ≡ length m
unfolding erase_last
length-erase_last e [] = refl
length-erase_last e (f ∷ m) = ap suc (length-erase_last f m)
