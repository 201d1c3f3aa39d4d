-- ===== src/Ibc/Shows.antt =====
-- What is known of the state about one batch request, and that it is kept where a record is settled.
use teaf.Prelude.{
  ℕ, suc, ◌≤◌, ◌≡◌, refl, sym, ap, ◌∙◌, Bool, true, false, Option, none, some, List, [], ◌∷◌, ◌++◌,
  arith, length, Bool-cases, inl, inr, map,
}
use mathlib.Core.List.{append-nil}
use teaf.Ibc.Records.{
  Key, Value, is_same, is_same_refl, search, search-put_key, search-put_key_other, search-erase_key,
  search-erase_key_other,
}
use teaf.Ibc.StdMap.{put, length-put, length-erase}
use teaf.Ibc.Owned.{IsOwned, AreOwned, put-put_key, put-AreOwned, erase-erase_key, erase-AreOwned}
use teaf.Ibc.Encode.{Config, Reply, Buffer, encode_text, encode_ppack}
use teaf.Ibc.{at_hand, Oper, Ibc, Limits, finished, answer_with, settle_when, send}
use teaf.Ibc.Alone.{addressee, texts, closed_when}

texts-append_own :
    (k : Key) (c : Config) (v : Value) (index : ℕ) (rs : List Reply)
    → texts k (rs ++ (encode_ppack c k v index ∷ [])) ≡ texts k rs ++ (encode_text c v ∷ [])
unfolding encode_ppack
texts-append_own k c v index [] = rw (is_same_refl k) refl
texts-append_own k c v index (r ∷ rs) = elim (Bool-cases (is_same k (addressee r))) [
  | inl e ↦ rw e (ap (λ l. (r.msg, r.msg_len) ∷ l) (texts-append_own k c v index rs))
  | inr e ↦ rw e (texts-append_own k c v index rs)
]

texts-append_other :
    (k j : Key) (c : Config) (v : Value) (index : ℕ) (rs : List Reply)
    → is_same k j ≡ false
    → texts k (rs ++ (encode_ppack c j v index ∷ [])) ≡ texts k rs
unfolding encode_ppack
texts-append_other k j c v index [] h = rw h refl
texts-append_other k j c v index (r ∷ rs) h = elim (Bool-cases (is_same k (addressee r))) [
  | inl e ↦ rw e (ap (λ l. (r.msg, r.msg_len) ∷ l) (texts-append_other k j c v index rs h))
  | inr e ↦ rw e (texts-append_other k j c v index rs h)
]

abbrev pub is_some : {A : Type 0} → Option A → Bool
is_some none = false
is_some (some a) = true

-- What is known of `s` about the request of a key: its record, that each
-- sequence number belongs to one key, the texts of its answers, that the pool never fails, and a bound on the number of records.
pub record Shows (owner : ℕ → Key) (k : Key) (n : ℕ) (s : Ibc) (o : Option Value) (ts : List Buffer)
    : Type 0 where
  pub kept : search k s.ibcr_map ≡ o
  pub owned : AreOwned owner s.ibcr_map
  pub told : texts k s.replies ≡ ts
  pub memory : (i : ℕ) → is_some (s.supply i) ≡ true
  pub few : length s.ibcr_map ≤ n

pub weaken :
    (owner : ℕ → Key) (k : Key) (n : ℕ) (s : Ibc) (o : Option Value) (ts : List Buffer)
    → Shows owner k n s o ts
    → Shows owner k (suc n) s o ts
weaken owner k n s o ts sh = record {
  kept = sh.kept;
  owned = sh.owned;
  told = sh.told;
  memory = sh.memory;
  few = let bound = sh.few in omega arith;
}

module _ (c : Config) (l : Limits) (create_oper : ℕ → Option Oper) (owner : ℕ → Key) where
  abbrev pub sent : Ibc × Option Reply → Ibc
  sent done = send c l create_oper done.0 done.1

  answer_with-own :
      (k : Key) (v : Value) (n : ℕ) (s : Ibc) (o : Option Value) (ts : List Buffer) (a : Option ℕ)
      → IsOwned owner k
      → Shows owner k n s o ts
      → is_some a ≡ true
      → Shows owner k n (sent (answer_with c l k v s a)) none (ts ++ (encode_text c v ∷ []))
  answer_with-own k v n s o ts none mine sh h = absurd (cc)
  answer_with-own k v n s o ts (some index) mine sh h = record {
    kept =
        ap (search k) (erase-erase_key owner (at_hand s) k s.ibcr_map mine sh.owned)
        ∙ search-erase_key k s.ibcr_map;
    owned = erase-AreOwned owner (at_hand s) k s.ibcr_map mine sh.owned;
    told = texts-append_own k c v index s.replies ∙ ap (λ t. t ++ (encode_text c v ∷ [])) sh.told;
    memory = sh.memory;
    few = let fewer = length-erase (at_hand s) k s.ibcr_map in let bound = sh.few in omega arith;
  }

  pub settle_when-own :
      (b : Bool) (oper : Oper) (k : Key) (v u : Value) (n : ℕ) (s : Ibc) (ts : List Buffer)
      → IsOwned owner k
      → Shows owner k n s (some u) ts
      → Shows owner k n
          (sent (settle_when c l b oper k v s))
          (closed_when b oper v).0
          (ts ++ map (encode_text c) (closed_when b oper v).1)
  settle_when-own true oper k v u n s ts mine sh =
      answer_with-own k (finished oper v) n
        (record s {
          ibcr_map = put (at_hand s) k (finished oper v) s.ibcr_map;
          asked = suc s.asked;
        })
        (some (finished oper v)) ts (s.supply s.asked) mine
        (record {
          kept =
              ap (search k)
                (put-put_key owner (at_hand s) k s.ibcr_map mine sh.owned (finished oper v))
              ∙ search-put_key k (finished oper v) u s.ibcr_map sh.kept;
          owned = put-AreOwned owner (at_hand s) k s.ibcr_map mine sh.owned (finished oper v);
          told = sh.told;
          memory = sh.memory;
          few =
              let same = length-put (at_hand s) k (finished oper v) s.ibcr_map in
              let bound = sh.few in omega arith;
        })
        (sh.memory s.asked)
  settle_when-own false oper k v u n s ts mine sh = record {
    kept =
        ap (search k) (put-put_key owner (at_hand s) k s.ibcr_map mine sh.owned v)
        ∙ search-put_key k v u s.ibcr_map sh.kept;
    owned = put-AreOwned owner (at_hand s) k s.ibcr_map mine sh.owned v;
    told = sh.told ∙ sym (append-nil ts);
    memory = sh.memory;
    few = let same = length-put (at_hand s) k v s.ibcr_map in let bound = sh.few in omega arith;
  }

  answer_with-other :
      (k j : Key) (v : Value) (n : ℕ) (s : Ibc) (o : Option Value) (ts : List Buffer) (a : Option ℕ)
      → is_same k j ≡ false
      → IsOwned owner j
      → Shows owner k n s o ts
      → Shows owner k n (sent (answer_with c l j v s a)) o ts
  answer_with-other k j v n s o ts none apart theirs sh = record {
    kept = sh.kept;
    owned = sh.owned;
    told = sh.told;
    memory = sh.memory;
    few = sh.few;
  }
  answer_with-other k j v n s o ts (some index) apart theirs sh = record {
    kept =
        ap (search k) (erase-erase_key owner (at_hand s) j s.ibcr_map theirs sh.owned)
        ∙ (search-erase_key_other k j s.ibcr_map apart ∙ sh.kept);
    owned = erase-AreOwned owner (at_hand s) j s.ibcr_map theirs sh.owned;
    told = texts-append_other k j c v index s.replies apart ∙ sh.told;
    memory = sh.memory;
    few = let fewer = length-erase (at_hand s) j s.ibcr_map in let bound = sh.few in omega arith;
  }

  pub settle_when-other :
      (b : Bool) (oper : Oper) (k j : Key) (v : Value) (n : ℕ) (s : Ibc) (o : Option Value)
      (ts : List Buffer)
      → is_same k j ≡ false
      → IsOwned owner j
      → Shows owner k n s o ts
      → Shows owner k n (sent (settle_when c l b oper j v s)) o ts
  settle_when-other true oper k j v n s o ts apart theirs sh =
      answer_with-other k j (finished oper v) n
        (record s {
          ibcr_map = put (at_hand s) j (finished oper v) s.ibcr_map;
          asked = suc s.asked;
        })
        o ts (s.supply s.asked) apart theirs
        (record {
          kept =
              ap (search k)
                (put-put_key owner (at_hand s) j s.ibcr_map theirs sh.owned (finished oper v))
              ∙ (search-put_key_other k j (finished oper v) s.ibcr_map apart ∙ sh.kept);
          owned = put-AreOwned owner (at_hand s) j s.ibcr_map theirs sh.owned (finished oper v);
          told = sh.told;
          memory = sh.memory;
          few =
              let same = length-put (at_hand s) j (finished oper v) s.ibcr_map in
              let bound = sh.few in omega arith;
        })
  settle_when-other false oper k j v n s o ts apart theirs sh = record {
    kept =
        ap (search k) (put-put_key owner (at_hand s) j s.ibcr_map theirs sh.owned v)
        ∙ (search-put_key_other k j v s.ibcr_map apart ∙ sh.kept);
    owned = put-AreOwned owner (at_hand s) j s.ibcr_map theirs sh.owned v;
    told = sh.told;
    memory = sh.memory;
    few = let same = length-put (at_hand s) j v s.ibcr_map in let bound = sh.few in omega arith;
  }
