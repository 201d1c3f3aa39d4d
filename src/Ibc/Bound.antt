-- ===== src/Ibc/Bound.antt =====
-- The number of records of batch requests that are kept.
use teaf.Prelude.{
  ℕ, suc, ◌≤◌, ◌<◌, ◌≡◌, refl, Bool, true, false, Option, none, some, List, [], ◌∷◌, arith, ltb,
  length, ℤ, Bytes, ltb→lt,
}
use teaf.Ibc.Records.{Key, Value, last, length-erase_last}
use teaf.Ibc.StdMap.{insert, entry, put, find, length-put, length-erase, length-insert}
use teaf.Ibc.Encode.{Config, Reply}
use teaf.Ibc.{
  at_hand, Part, Oper, Ibc, Limits, key_of, new_value, is_late, answer_with, settle_when, settle,
  join, evict, admit, admit_evicting, admit_when, absorb, serve_when, process_with, process, send,
  round, rounds, finished,
}

last-cons : (e : Key × Value) (m : List (Key × Value)) → (f : Key × Value) × (last (e ∷ m) ≡ some f)
unfolding last
last-cons e [] = (e, refl)
last-cons e (f ∷ m) = last-cons f m

nonempty :
    (m : List (Key × Value))
    → 0 < length m
    → (e : Key × Value) × (n : List (Key × Value)) × (m ≡ e ∷ n)
nonempty [] h = absurd (omega arith)
nonempty (e ∷ n) h = (e, n, refl)

module _ (c : Config) (l : Limits) where
  answer_with-le :
      (k : Key) (v : Value) (s : Ibc) (a : Option ℕ)
      → length (answer_with c l k v s a).0.ibcr_map ≤ length s.ibcr_map
  answer_with-le k v s none = omega arith
  answer_with-le k v s (some index) = length-erase (at_hand s) k s.ibcr_map

  settle-le :
      (b : Bool) (oper : Oper) (k : Key) (v : Value) (s : Ibc)
      → length (settle_when c l b oper k v s).0.ibcr_map ≤ length s.ibcr_map
  settle-le true oper k v s =
      let same = length-put (at_hand s) k (finished oper v) s.ibcr_map in
      let fewer =
        answer_with-le k (finished oper v)
          (record s {
            ibcr_map = put (at_hand s) k (finished oper v) s.ibcr_map;
            asked = suc s.asked;
          })
          (s.supply s.asked) in
      omega arith
  settle-le false oper k v s = let same = length-put (at_hand s) k v s.ibcr_map in omega arith

  pub join-le :
      (oper : Oper) (k : Key) (result : ℤ × Bytes) (v : Value) (s : Ibc)
      → length (join c l oper k result v s).0.ibcr_map ≤ length s.ibcr_map
  unfolding join settle
  join-le oper k result v s = settle-le _ oper k _ s

  pub admit-le :
      (oper : Oper) (p : Part) (result : ℤ × Bytes) (s : Ibc)
      → length (admit c l oper p result s).0.ibcr_map ≤ suc (length s.ibcr_map)
  admit-le oper p result s =
      let more = length-insert (at_hand s) (key_of p) (new_value p) s.ibcr_map in
      let joined =
        join-le oper (key_of p) result (entry (at_hand s) (key_of p) (new_value p) s.ibcr_map)
          (record s { ibcr_map = insert (at_hand s) (key_of p) (new_value p) s.ibcr_map }) in
      omega arith

  evict-le :
      (s : Ibc) (m : List (Key × Value)) (e : Key × Value) (index : ℕ)
      → s.ibcr_map ≡ e ∷ m
      → suc (length (evict c l s (last s.ibcr_map) index).ibcr_map) ≤ length s.ibcr_map
  evict-le s m e index full =
      let ((k, v), found) = last-cons e m in
      let shorter = length-erase_last e m in rw (full, found) (omega arith)

  admit_evicting-le :
      (oper : Oper) (p : Part) (result : ℤ × Bytes) (s : Ibc) (a : Option ℕ)
      → 0 < length s.ibcr_map
      → length (admit_evicting c l oper p result s a).0.ibcr_map ≤ length s.ibcr_map
  admit_evicting-le oper p result s none some_left = omega arith
  admit_evicting-le oper p result s (some index) some_left =
      let (e, m, full) = nonempty s.ibcr_map some_left in
      let fewer = evict-le s m e index full in
      let more = admit-le oper p result (evict c l s (last s.ibcr_map) index) in omega arith

  admit_when-le :
      (b : Bool) (oper : Oper) (p : Part) (result : ℤ × Bytes) (s : Ibc)
      → ltb l.max_ibcr_record (length s.ibcr_map) ≡ b
      → length s.ibcr_map ≤ suc l.max_ibcr_record
      → length (admit_when c l b oper p result s).0.ibcr_map ≤ suc l.max_ibcr_record
  admit_when-le true oper p result s full bound =
      let big = ltb→lt l.max_ibcr_record (length s.ibcr_map) full in
      let more =
        admit_evicting-le oper p result (record s { asked = suc s.asked }) (s.supply s.asked)
          (omega arith) in
      omega arith
  admit_when-le false oper p result s room bound =
      let small : length s.ibcr_map ≤ l.max_ibcr_record = ground arith in
      let more = admit-le oper p result s in omega arith

  absorb-le :
      (oper : Oper) (p : Part) (result : ℤ × Bytes) (s : Ibc) (found : Option Value)
      → length s.ibcr_map ≤ suc l.max_ibcr_record
      → length (absorb c l oper p result s found).0.ibcr_map ≤ suc l.max_ibcr_record
  unfolding absorb
  absorb-le oper p result s (some v) bound =
      let fewer = join-le oper (key_of p) result v s in omega arith
  absorb-le oper p result s none bound = admit_when-le _ oper p result s refl bound

  module _ (create_oper : ℕ → Option Oper) where
    serve_when-le :
        (b : Bool) (oper : Oper) (p : Part) (s : Ibc)
        → length s.ibcr_map ≤ suc l.max_ibcr_record
        → length (serve_when c l b oper p s).0.ibcr_map ≤ suc l.max_ibcr_record
    serve_when-le true oper p s bound = bound
    serve_when-le false oper p s bound =
        absorb-le oper p (oper.process p) (record s { oper_made = suc s.oper_made })
          (find (s.wild (suc s.oper_made)) (key_of p) s.ibcr_map) bound

    process_with-le :
        (now : ℕ) (s : Ibc) (p : Part) (made : Option Oper)
        → length s.ibcr_map ≤ suc l.max_ibcr_record
        → length (process_with c l create_oper now s p made).0.ibcr_map ≤ suc l.max_ibcr_record
    process_with-le now s p none bound = bound
    process_with-le now s p (some oper) bound = serve_when-le (is_late l now p) oper p s bound

    send-map : (s : Ibc) (r : Option Reply) → (send c l create_oper s r).ibcr_map ≡ s.ibcr_map
    send-map s none = refl
    send-map s (some r) = refl

    -- At most max_ibcr_record + 1 records are kept, whatever parts arrive, whatever the pool answers and
    -- whatever the map does on keys that it does not order.
    pub rounds-le :
        (s : Ibc) (ps : List (ℕ × Part))
        → length s.ibcr_map ≤ suc l.max_ibcr_record
        → length (rounds c l create_oper s ps).ibcr_map ≤ suc l.max_ibcr_record
    unfolding rounds round process
    rounds-le s [] bound = bound
    rounds-le s ((now, p) ∷ ps) bound =
        let done = process c l create_oper now s p in
        rounds-le (send c l create_oper done.0 done.1) ps
          (rw (send-map done.0 done.1) (process_with-le now s p (create_oper p.req.cmd) bound))
