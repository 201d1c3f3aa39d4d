-- ===== src/ObjectQue/Places.antt =====
-- Every object that was made is in one place: in the queue, lent to a caller, or deleted.
use teaf.Prelude.{
  ℕ, zero, suc, ◌+◌, ◌≡◌, ap, ◌∙◌, Bool, true, false, Option, none, some, List, [], ◌∷◌, ◌++◌,
  arith, ltb, ◌==◌, if◌then◌else◌, if_intro,
}
use teaf.ObjectQue.{ObjectQue, enqueue, dequeue, fill, init, fresh}

abbrev pub count : ℕ → List ℕ → ℕ
count x [] = 0
count x (y ∷ l) = let rest = count x l in if x == y then suc rest else rest

pub count-append : (x : ℕ) (a b : List ℕ) → count x (a ++ b) ≡ count x a + count x b
count-append x [] b = omega arith
count-append x (y ∷ a) b = ground (arith, count-append x a b)

-- The queue, and the objects that callers hold.
pub record Ledger : Type 0 where
  pub objects : ObjectQue
  pub lent : List ℕ

abbrev holds : List ℕ → Option ℕ → List ℕ
holds lent none = lent
holds lent (some x) = x ∷ lent

-- The calls of dequeue and enqueue, by any threads in any order: a caller gives back what it holds.
pub data Calls : Ledger → Ledger → Type 0 where
  stop : {g : Ledger} → Calls g g
  take_one :
      {g h : Ledger} (memory : Bool)
      → Calls
          (record {
            objects = (dequeue memory g.objects).0;
            lent = holds g.lent (dequeue memory g.objects).1;
          })
          h
      → Calls g h
  give_back :
      {g h : Ledger} (fits : Bool) (pre post : List ℕ) (x : ℕ)
      → g.lent ≡ pre ++ (x ∷ post)
      → Calls (record { objects = (enqueue fits g.objects (some x)).0; lent = pre ++ post }) h
      → Calls g h

-- How many places hold `x`.
abbrev pub places : Ledger → ℕ → ℕ
places g x = count x g.objects.que + (count x g.lent + count x g.objects.deleted)

pub record IsPlaced (g : Ledger) : Type 0 where
  pub once : (x : ℕ) → places g x ≡ (if ltb x g.objects.made then 1 else 0)

fill-IsPlaced :
    (fits : ℕ → Bool) (n : ℕ) (s : ObjectQue)
    → IsPlaced (record { objects = s; lent = [] })
    → IsPlaced (record { objects = fill fits n s; lent = [] })
unfolding fill
fill-IsPlaced fits zero s p = p
fill-IsPlaced fits (suc n) s p =
    if_intro (λ (t : ObjectQue). IsPlaced (record { objects = t; lent = [] })) (fits n)
      (fill-IsPlaced fits n (record s { que = s.que ++ (s.made ∷ []); made = suc s.made })
        (record { once = λ x. ground (arith, p.once x, count-append x s.que (s.made ∷ [])) }))
      (record { once = λ x. ground (arith, p.once x) })

dequeue-IsPlaced :
    (memory : Bool) (q : List ℕ) (made : ℕ) (deleted lent : List ℕ)
    → IsPlaced
        (record { objects = record { que = q; made = made; deleted = deleted }; lent = lent })
    → IsPlaced (record {
      objects = (dequeue memory (record { que = q; made = made; deleted = deleted })).0;
      lent = holds lent (dequeue memory (record { que = q; made = made; deleted = deleted })).1;
    })
unfolding dequeue
dequeue-IsPlaced true [] made deleted lent p = record { once = λ x. ground (arith, p.once x) }
dequeue-IsPlaced false [] made deleted lent p = p
dequeue-IsPlaced memory (y ∷ q) made deleted lent p = record {
  once = λ x. ground (arith, p.once x);
}

enqueue-IsPlaced :
    (fits : Bool) (g : Ledger) (pre post : List ℕ) (y : ℕ)
    → g.lent ≡ pre ++ (y ∷ post)
    → IsPlaced g
    → IsPlaced (record { objects = (enqueue fits g.objects (some y)).0; lent = pre ++ post })
unfolding enqueue
enqueue-IsPlaced true g pre post y held p = record {
  once = λ x.
      let together = ap (count x) held ∙ count-append x pre (y ∷ post) in
      let kept = count-append x pre post in
      let queued = count-append x g.objects.que (y ∷ []) in ground (arith, p.once x, together);
}
enqueue-IsPlaced false g pre post y held p = record {
  once = λ x.
      let together = ap (count x) held ∙ count-append x pre (y ∷ post) in
      let kept = count-append x pre post in ground (arith, p.once x, together);
}

calls-IsPlaced : {g h : Ledger} → Calls g h → IsPlaced g → IsPlaced h
calls-IsPlaced stop p = p
calls-IsPlaced (take_one {g = g} memory calls) p =
    calls-IsPlaced calls
      (dequeue-IsPlaced memory g.objects.que g.objects.made g.objects.deleted g.lent p)
calls-IsPlaced (give_back {g = g} fits pre post x held calls) p =
    calls-IsPlaced calls (enqueue-IsPlaced fits g pre post x held p)

cleared-IsPlaced :
    (b : Bool)
    → IsPlaced (record { objects = if b then record fresh { que = [] } else fresh; lent = [] })
cleared-IsPlaced true = record { once = λ x. ground arith }
cleared-IsPlaced false = record { once = λ x. ground arith }

-- After init and any calls of dequeue and enqueue, by callers that give back what they hold, every
-- object that was made stands in exactly one place, once: in the queue, lent to one caller, or
-- deleted. So no object is lent twice, and none is lost.
pub calls-init-IsPlaced :
    (fits : ℕ → Bool) (msg_counts : ℕ) {h : Ledger}
    → Calls (record { objects = init fits msg_counts fresh; lent = [] }) h
    → (x : ℕ)
    → count x h.objects.que + (count x h.lent + count x h.objects.deleted)
      ≡ (if ltb x h.objects.made then 1 else 0)
unfolding init
calls-init-IsPlaced fits msg_counts calls =
    (calls-IsPlaced calls (fill-IsPlaced fits _ _ (cleared-IsPlaced (ltb 0 msg_counts)))).once
