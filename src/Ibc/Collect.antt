-- ===== src/Ibc/Collect.antt =====
-- What becomes of a batch request, whatever parts of other requests arrive between its own, is what its
-- own parts make of it.
use teaf.Prelude.{
  ℕ, suc, ◌+◌, ◌≤◌, ◌≡◌, refl, sym, ap, ◌∙◌, Bool, true, false, Option, none, some, List, [], ◌∷◌,
  ◌++◌, arith, ltb, leb, length, Bool-cases, inl, inr, map, subst, ltb→lt, All,
}
use mathlib.Core.List.{append-nil, append_assoc, map-append}
use teaf.Ibc.Records.{Key, Value, is_same, search, search-place, search-place_other, is_same-eq}
use teaf.Ibc.StdMap.{find, insert, length-insert}
use teaf.Ibc.Owned.{IsOwned, find-search, insert-place, insert-AreOwned, entry_new}
use teaf.Ibc.Encode.{Config, Buffer, encode_text}
use teaf.Ibc.{
  at_hand, Part, Oper, Ibc, Limits, key_of, new_value, is_late, counted, settle, join, admit_when,
  absorb, serve_when, process_with, process, round, rounds,
}
use teaf.Ibc.Alone.{own, closed_when, taken_when, part_with, part, parts}
use teaf.Ibc.Shows.{Shows, sent, weaken, settle_when-own, settle_when-other}

module _ (c : Config) (l : Limits) (create_oper : ℕ → Option Oper) (owner : ℕ → Key) where
  -- The request of `k` after `p`, where `o` and `d` say what becomes of it.
  abbrev pub Turns : Key → Ibc → List Buffer → ℕ → Option Value × List Value → Type 0
  Turns k s ts n d = Shows owner k n s d.0 (ts ++ map (encode_text c) d.1)

  abbrev joins : Oper → Part → Value → Option Value × List Value
  joins oper p v =
      let w = oper.merge (counted (oper.process p).0 v) (oper.process p).1 in
      closed_when (leb w.total w.cnum) oper w

  admit_when-own :
      (b : Bool) (oper : Oper) (p : Part) (n : ℕ) (s : Ibc) (ts : List Buffer)
      → ltb l.max_ibcr_record (length s.ibcr_map) ≡ b
      → n ≤ l.max_ibcr_record
      → IsOwned owner (key_of p)
      → Shows owner (key_of p) n s none ts
      → Turns
          (key_of p)
          (sent c l create_oper owner (admit_when c l b oper p (oper.process p) s))
          ts
          (suc n)
          (joins oper p (new_value p))
  unfolding join settle
  admit_when-own true oper p n s ts full room mine sh =
      let bound = sh.few in
      let big = ltb→lt l.max_ibcr_record (length s.ibcr_map) full in absurd (omega arith)
  admit_when-own false oper p n s ts full room mine sh =
      rw (entry_new owner (at_hand s) (key_of p) s.ibcr_map mine sh.owned (new_value p)) (
        settle_when-own c l create_oper owner _ oper (key_of p) _ (new_value p) (suc n)
          (record s { ibcr_map = insert (at_hand s) (key_of p) (new_value p) s.ibcr_map }) ts mine
          (record {
            kept =
                ap (search (key_of p))
                  (insert-place owner (at_hand s) (key_of p) s.ibcr_map mine sh.owned (new_value p))
                ∙ search-place (key_of p) (new_value p) s.ibcr_map sh.kept;
            owned =
                insert-AreOwned owner (at_hand s) (key_of p) s.ibcr_map mine sh.owned (new_value p)
                  sh.kept;
            told = sh.told;
            memory = sh.memory;
            few =
                let more = length-insert (at_hand s) (key_of p) (new_value p) s.ibcr_map in
                let bound = sh.few in omega arith;
          }))

  absorb-own :
      (oper : Oper) (p : Part) (n : ℕ) (s : Ibc) (o : Option Value) (ts : List Buffer)
      → n ≤ l.max_ibcr_record
      → IsOwned owner (key_of p)
      → Shows owner (key_of p) n s o ts
      → Turns
          (key_of p)
          (sent c l create_oper owner (absorb c l oper p (oper.process p) s o))
          ts
          (suc n)
          (taken_when false oper p o)
  unfolding absorb join settle
  absorb-own oper p n s none ts room mine sh = admit_when-own _ oper p n s ts refl room mine sh
  absorb-own oper p n s (some v) ts room mine sh =
      settle_when-own c l create_oper owner _ oper (key_of p) _ v (suc n) s ts mine
        (weaken owner (key_of p) n s (some v) ts sh)

  admit_when-other :
      (b : Bool) (oper : Oper) (k : Key) (p : Part) (n : ℕ) (s : Ibc) (o : Option Value)
      (ts : List Buffer)
      → ltb l.max_ibcr_record (length s.ibcr_map) ≡ b
      → n ≤ l.max_ibcr_record
      → is_same k (key_of p) ≡ false
      → IsOwned owner (key_of p)
      → search (key_of p) s.ibcr_map ≡ none
      → Shows owner k n s o ts
      → Shows owner k
          (suc n)
          (sent c l create_oper owner (admit_when c l b oper p (oper.process p) s))
          o
          ts
  unfolding join settle
  admit_when-other true oper k p n s o ts full room apart mine fresh sh =
      let bound = sh.few in
      let big = ltb→lt l.max_ibcr_record (length s.ibcr_map) full in absurd (omega arith)
  admit_when-other false oper k p n s o ts full room apart mine fresh sh =
      settle_when-other c l create_oper owner _ oper k (key_of p) _ (suc n)
        (record s { ibcr_map = insert (at_hand s) (key_of p) (new_value p) s.ibcr_map }) o ts apart
        mine
        (record {
          kept =
              ap (search k)
                (insert-place owner (at_hand s) (key_of p) s.ibcr_map mine sh.owned (new_value p))
              ∙ (search-place_other k (key_of p) (new_value p) s.ibcr_map apart ∙ sh.kept);
          owned =
              insert-AreOwned owner (at_hand s) (key_of p) s.ibcr_map mine sh.owned (new_value p)
                fresh;
          told = sh.told;
          memory = sh.memory;
          few =
              let more = length-insert (at_hand s) (key_of p) (new_value p) s.ibcr_map in
              let bound = sh.few in omega arith;
        })

  absorb-other :
      (oper : Oper) (k : Key) (p : Part) (n : ℕ) (s : Ibc) (o found : Option Value)
      (ts : List Buffer)
      → n ≤ l.max_ibcr_record
      → is_same k (key_of p) ≡ false
      → IsOwned owner (key_of p)
      → search (key_of p) s.ibcr_map ≡ found
      → Shows owner k n s o ts
      → Shows owner k
          (suc n)
          (sent c l create_oper owner (absorb c l oper p (oper.process p) s found))
          o
          ts
  unfolding absorb join settle
  absorb-other oper k p n s o none ts room apart mine there sh =
      admit_when-other _ oper k p n s o ts refl room apart mine there sh
  absorb-other oper k p n s o (some v) ts room apart mine there sh =
      settle_when-other c l create_oper owner _ oper k (key_of p) _ (suc n) s o ts apart mine
        (weaken owner k n s o ts sh)

  serve_when-own :
      (b : Bool) (oper : Oper) (p : Part) (n : ℕ) (s : Ibc) (o : Option Value) (ts : List Buffer)
      → n ≤ l.max_ibcr_record
      → IsOwned owner (key_of p)
      → Shows owner (key_of p) n s o ts
      → Turns
          (key_of p)
          (sent c l create_oper owner (serve_when c l b oper p s))
          ts
          (suc n)
          (taken_when b oper p o)
  serve_when-own true oper p n s o ts room mine sh =
      let later = weaken owner (key_of p) n s o ts sh in
      record {
        kept = later.kept;
        owned = later.owned;
        told = later.told ∙ sym (append-nil ts);
        memory = later.memory;
        few = later.few;
      }
  serve_when-own false oper p n s o ts room mine sh =
      subst
        (λ found.
          Turns (key_of p)
            (sent c l create_oper owner
              (absorb c l oper p (oper.process p) (record s { oper_made = suc s.oper_made }) found))
            ts (suc n) (taken_when false oper p o))
        (sym (
          find-search owner (s.wild (suc s.oper_made)) (key_of p) s.ibcr_map mine sh.owned
          ∙ sh.kept))
        (absorb-own oper p n (record s { oper_made = suc s.oper_made }) o ts room mine
          (record {
            kept = sh.kept;
            owned = sh.owned;
            told = sh.told;
            memory = sh.memory;
            few = sh.few;
          }))

  serve_when-other :
      (b : Bool) (oper : Oper) (k : Key) (p : Part) (n : ℕ) (s : Ibc) (o : Option Value)
      (ts : List Buffer)
      → n ≤ l.max_ibcr_record
      → is_same k (key_of p) ≡ false
      → IsOwned owner (key_of p)
      → Shows owner k n s o ts
      → Shows owner k (suc n) (sent c l create_oper owner (serve_when c l b oper p s)) o ts
  serve_when-other true oper k p n s o ts room apart mine sh =
      let later = weaken owner k n s o ts sh in
      record {
        kept = later.kept;
        owned = later.owned;
        told = later.told;
        memory = later.memory;
        few = later.few;
      }
  serve_when-other false oper k p n s o ts room apart mine sh =
      absorb-other oper k p n (record s { oper_made = suc s.oper_made }) o
        (find (s.wild (suc s.oper_made)) (key_of p) s.ibcr_map) ts room apart mine
        (sym (find-search owner (s.wild (suc s.oper_made)) (key_of p) s.ibcr_map mine sh.owned))
        (record {
          kept = sh.kept;
          owned = sh.owned;
          told = sh.told;
          memory = sh.memory;
          few = sh.few;
        })

  process_with-own :
      (now : ℕ) (p : Part) (n : ℕ) (s : Ibc) (o : Option Value) (ts : List Buffer)
      (made : Option Oper)
      → n ≤ l.max_ibcr_record
      → IsOwned owner (key_of p)
      → Shows owner (key_of p) n s o ts
      → Turns
          (key_of p)
          (sent c l create_oper owner (process_with c l create_oper now s p made))
          ts
          (suc n)
          (part_with l create_oper now p o made)
  process_with-own now p n s o ts none room mine sh =
      let later = weaken owner (key_of p) n s o ts sh in
      record {
        kept = later.kept;
        owned = later.owned;
        told = later.told ∙ sym (append-nil ts);
        memory = later.memory;
        few = later.few;
      }
  process_with-own now p n s o ts (some oper) room mine sh =
      serve_when-own (is_late l now p) oper p n s o ts room mine sh

  process_with-other :
      (now : ℕ) (k : Key) (p : Part) (n : ℕ) (s : Ibc) (o : Option Value) (ts : List Buffer)
      (made : Option Oper)
      → n ≤ l.max_ibcr_record
      → is_same k (key_of p) ≡ false
      → IsOwned owner (key_of p)
      → Shows owner k n s o ts
      → Shows owner k
          (suc n)
          (sent c l create_oper owner (process_with c l create_oper now s p made))
          o
          ts
  process_with-other now k p n s o ts none room apart mine sh =
      let later = weaken owner k n s o ts sh in
      record {
        kept = later.kept;
        owned = later.owned;
        told = later.told;
        memory = later.memory;
        few = later.few;
      }
  process_with-other now k p n s o ts (some oper) room apart mine sh =
      serve_when-other (is_late l now p) oper k p n s o ts room apart mine sh

  round-own :
      (now : ℕ) (k : Key) (p : Part) (n : ℕ) (s : Ibc) (o : Option Value) (ts : List Buffer)
      → n ≤ l.max_ibcr_record
      → is_same k (key_of p) ≡ true
      → IsOwned owner (key_of p)
      → Shows owner k n s o ts
      → Turns k (round c l create_oper s (now, p)) ts (suc n) (part l create_oper o (now, p))
  unfolding round process
  round-own now k p n s o ts room mine held sh =
      let e = is_same-eq k (key_of p) mine in
      subst
        (λ j. Turns j (round c l create_oper s (now, p)) ts (suc n) (part l create_oper o (now, p)))
        (sym e)
        (process_with-own now p n s o ts (create_oper p.req.cmd) room held
          (subst (λ j. Shows owner j n s o ts) e sh))

  then_own :
      (k : Key) (n : ℕ) (s : Ibc) (ts : List Buffer) (d e : Option Value × List Value)
      → Turns k s (ts ++ map (encode_text c) d.1) n e
      → Turns k s ts n (e.0, d.1 ++ e.1)
  then_own k n s ts d e sh = record {
    kept = sh.kept;
    owned = sh.owned;
    told =
        sh.told
        ∙ (append_assoc ts (map (encode_text c) d.1) (map (encode_text c) e.1)
            ∙ ap (λ t. ts ++ t) (sym (map-append (encode_text c) d.1 e.1)));
    memory = sh.memory;
    few = sh.few;
  }

  -- Whatever parts of other requests arrive between those of a request, and if the pool does not fail
  -- and there is room for a record for each part, its record and the texts of its answers are what its
  -- own parts alone make them.
  pub rounds-parts :
      (k : Key) (ps : List (ℕ × Part)) (n : ℕ) (s : Ibc) (o : Option Value) (ts : List Buffer)
      → n + length ps ≤ suc l.max_ibcr_record
      → All (λ p. IsOwned owner (key_of p.1)) ps
      → Shows owner k n s o ts
      → Turns k (rounds c l create_oper s ps) ts (n + length ps) (parts l create_oper o (own k ps))
  unfolding rounds round process
  rounds-parts k [] n s o ts room held sh = record {
    kept = sh.kept;
    owned = sh.owned;
    told = sh.told ∙ sym (append-nil ts);
    memory = sh.memory;
    few = let bound = sh.few in omega arith;
  }
  rounds-parts k ((now, p) ∷ ps) n s o ts room (theirs, held) sh =
      elim (Bool-cases (is_same k (key_of p))) [
        | inl mine ↦
            let d = part l create_oper o (now, p) in
            let e = parts l create_oper d.0 (own k ps) in
            let s' = round c l create_oper s (now, p) in
            let step = round-own now k p n s o ts (omega arith) mine theirs sh in
            let rest =
              rounds-parts k ps (suc n) s' d.0 (ts ++ map (encode_text c) d.1) (omega arith) held
                step in
            rw mine (
              subst (λ m. Turns k (rounds c l create_oper s' ps) ts m (e.0, d.1 ++ e.1))
                (omega arith)
                (then_own k (suc n + length ps) (rounds c l create_oper s' ps) ts d e rest))
        | inr apart ↦
            let s' = round c l create_oper s (now, p) in
            let step =
              process_with-other now k p n s o ts (create_oper p.req.cmd) (omega arith) apart theirs
                sh in
            let rest = rounds-parts k ps (suc n) s' o ts (omega arith) held step in
            rw apart (
              subst
                (λ m.
                  Turns k (rounds c l create_oper s' ps) ts m (parts l create_oper o (own k ps)))
                (omega arith) rest)
      ]
