-- ===== src/ObjectArray/Lending.antt =====
-- easyace/ace_object_array.h: an object is lent to one caller at a time, and each in its turn.
use teaf.Prelude.{
  ℕ, zero, suc, ◌+◌, ◌%◌, ◌≤◌, ◌<◌, ◌≡◌, ◌≢◌, ◌∙◌, refl, sym, ap, Bool, true, false, Option, none,
  some, List, [], ◌∷◌, All, arith, ltb, ◌==◌, if◌then◌else◌, pos, add32, Bool-cases, inl, inr,
  ==_iff, if_intro, replicate,
}
use teaf.ObjectArray.{ObjectArray, msg_counts, write_flag, init, enqueue, dequeue}

-- The callers' calls: to take an object, and to give back the one of an index.
pub data Call : Type 0 where
  take_one : Call
  give_back : ℕ → Call

abbrev pub is_return : ℕ → Call → Bool
is_return i take_one = false
is_return i (give_back j) = j == i

-- The `n` numbers from `first`.
abbrev pub upto : ℕ → ℕ → List ℕ
upto zero first = []
upto (suc n) first = first ∷ upto n (first + 1)

module _ {ℓ} {A : Type ℓ} where
  -- Whether `dequeue` will lend an object.
  abbrev pub lends : ObjectArray A → Bool
  lends a = a.flag (a.cindex % msg_counts) == 0

  unfoldable pub step : ObjectArray A → Call → ObjectArray A
  step a take_one = (dequeue a none).0
  step a (give_back i) = elim (enqueue a (pos i)) [ none ↦ a | some r ↦ r.0 ]

  -- The indices of the objects that calls lend, in order.
  abbrev pub lent_by : ObjectArray A → Call → List ℕ → List ℕ
  lent_by a take_one rest = if lends a then (dequeue a none).2 ∷ rest else rest
  lent_by a (give_back i) rest = rest

  abbrev pub lent : ObjectArray A → List Call → List ℕ
  lent a [] = []
  lent a (c ∷ cs) = lent_by a c (lent (step a c) cs)

  dequeue-index : (a : ObjectArray A) (item : Option A) → (dequeue a item).2 ≡ a.cindex % msg_counts
  unfolding dequeue
  dequeue-index a item = elim (Bool-cases (lends a)) [
    | inl free ↦ rw (dequeue, free) refl
    | inr used ↦ rw (dequeue, used) refl
  ]

  step-held :
      (a : ObjectArray A) (c : Call) (i : ℕ)
      → a.flag i ≡ 1
      → is_return i c ≡ false
      → (step a c).flag i ≡ 1
  unfolding step dequeue enqueue
  step-held a take_one i held other = elim (Bool-cases (lends a)) [
    | inl free ↦
        rw (step, dequeue, free) (if_intro (λ n. n ≡ 1) (i == a.cindex % msg_counts) refl held)
    | inr used ↦ rw (step, dequeue, used) held
  ]
  step-held a (give_back j) i held other =
      let differ : (i == j) ≡ false = ground arith in
      if_intro (λ b. b.flag i ≡ 1) (ltb j msg_counts) {x = write_flag a j 0} {y = a}
        (rw differ held) held

  step-lent :
      (a : ObjectArray A) → lends a ≡ true → (step a take_one).flag (a.cindex % msg_counts) ≡ 1
  unfolding step dequeue
  step-lent a free =
      let here : (a.cindex % msg_counts == a.cindex % msg_counts) ≡ true = ground arith in
      rw (step, dequeue, free, here) refl

  -- While an object is lent and not given back, no call lends it.
  lent-held :
      (a : ObjectArray A) (cs : List Call) (i : ℕ)
      → a.flag i ≡ 1
      → All (λ c. is_return i c ≡ false) cs
      → All (λ k. k ≢ i) (lent a cs)
  lent-held a [] i held others = tt
  lent-held a (take_one ∷ cs) i held (other, others) =
      let rest = lent-held (step a take_one) cs i (step-held a take_one i held other) others in
      elim (Bool-cases (lends a)) [
        | inl free ↦
            let differ : (dequeue a none).2 ≢ i = λ same.
              let zero_flag : a.flag (a.cindex % msg_counts) ≡ 0 = (==_iff _ 0).0 free in
              let one_flag : a.flag (a.cindex % msg_counts) ≡ 1 =
                ap a.flag (sym (dequeue-index a none) ∙ same) ∙ held in
              absurd (omega arith) in
            rw free (differ, rest)
        | inr used ↦ rw used rest
      ]
  lent-held a (give_back j ∷ cs) i held (other, others) =
      lent-held (step a (give_back j)) cs i (step-held a (give_back j) i held other) others

  -- Where dequeue lends an object, no later dequeue lends the same one before it is given back,
  -- whatever other objects are taken and given back between.
  pub lent-apart :
      (a : ObjectArray A) (cs : List Call)
      → lends a ≡ true
      → All (λ c. is_return (dequeue a none).2 c ≡ false) cs
      → All (λ k. k ≢ (dequeue a none).2) (lent (step a take_one) cs)
  lent-apart a cs free others =
      lent-held (step a take_one) cs (dequeue a none).2
        (rw (dequeue-index a none) (step-lent a free)) others

  step-cindex : (a : ObjectArray A) → (step a take_one).cindex ≡ add32 a.cindex 1
  unfolding step dequeue
  step-cindex a = elim (Bool-cases (lends a)) [
    | inl free ↦ rw (step, dequeue, free) refl
    | inr used ↦ rw (step, dequeue, used) refl
  ]

  step-elsewhere :
      (a : ObjectArray A) (i : ℕ) → i ≢ a.cindex % msg_counts → (step a take_one).flag i ≡ a.flag i
  unfolding step dequeue
  step-elsewhere a i other =
      let differ : (i == a.cindex % msg_counts) ≡ false = ground arith in
      elim (Bool-cases (lends a)) [
        | inl free ↦ rw (step, dequeue, free, differ) refl
        | inr used ↦ rw (step, dequeue, used) refl
      ]

  lent-turns :
      (n : ℕ) (a : ObjectArray A)
      → a.cindex + n ≤ msg_counts
      → ((i : ℕ) → a.cindex ≤ i → i < msg_counts → a.flag i ≡ 0)
      → lent a (replicate n take_one) ≡ upto n a.cindex
  lent-turns zero a fits unused = refl
  lent-turns (suc n) a fits unused =
      let small : a.cindex % msg_counts ≡ a.cindex = omega arith in
      let free : lends a ≡ true = rw (small, unused a.cindex (omega arith) (omega arith)) refl in
      let next : (step a take_one).cindex ≡ a.cindex + 1 = step-cindex a ∙ omega arith in
      let rest =
        lent-turns n (step a take_one) (omega arith)
          (λ i from below. step-elsewhere a i (omega arith) ∙ unused i (omega arith) below) in
      rw (free, dequeue-index a none, small)
        (ap (λ l. a.cindex ∷ l) (rest ∙ ap (λ k. upto n k) next))

  -- After init the first calls of dequeue, up to one for each place of the ring, lend the objects
  -- in the order of their places.
  pub init-turns :
      (a : ObjectArray A) (allocate : ℕ → Option A) (n : ℕ)
      → n ≤ msg_counts
      → lent (init a allocate) (replicate n take_one) ≡ upto n 0
  unfolding init
  init-turns a allocate n fits = lent-turns n (init a allocate) (omega arith) (λ i from below.
      let inside : ltb i msg_counts ≡ true = ground arith in rw (init, inside) refl)

  abbrev pub run : ObjectArray A → List Call → ObjectArray A
  run a [] = a
  run a (c ∷ cs) = run (step a c) cs

  step-que_imp : (a : ObjectArray A) (c : Call) → (step a c).que_imp ≡ a.que_imp
  unfolding step dequeue enqueue
  step-que_imp a take_one = elim (Bool-cases (lends a)) [
    | inl free ↦ rw (step, dequeue, free) refl
    | inr used ↦ rw (step, dequeue, used) refl
  ]
  step-que_imp a (give_back j) =
      if_intro (λ b. b.que_imp ≡ a.que_imp) (ltb j msg_counts) {x = write_flag a j 0} {y = a} refl
        refl

  run-que_imp : (a : ObjectArray A) (cs : List Call) → (run a cs).que_imp ≡ a.que_imp
  run-que_imp a [] = refl
  run-que_imp a (c ∷ cs) = run-que_imp (step a c) cs ∙ step-que_imp a c

  init-que_imp :
      (a : ObjectArray A) (allocate : ℕ → Option A) (i : ℕ)
      → i < msg_counts
      → (init a allocate).que_imp i ≡ allocate i
  unfolding init
  init-que_imp a allocate i below =
      let inside : ltb i msg_counts ≡ true = ground arith in rw (init, inside) refl

  dequeue-item :
      (a : ObjectArray A) (item : Option A)
      → (dequeue a item).1 ≡ (if lends a then a.que_imp (a.cindex % msg_counts) else item)
  unfolding dequeue
  dequeue-item a item = elim (Bool-cases (lends a)) [
    | inl free ↦ rw (dequeue, free) refl
    | inr used ↦ rw (dequeue, used) refl
  ]

  item_of :
      (b : ObjectArray A) (allocate : ℕ → Option A) (item : Option A)
      → ((i : ℕ) → i < msg_counts → b.que_imp i ≡ allocate i)
      → ((dequeue b item).2 < msg_counts)
        × ((dequeue b item).1 ≡ (if lends b then allocate (dequeue b item).2 else item))
  item_of b allocate item made =
      let within : b.cindex % msg_counts < msg_counts = omega arith in
      rw (dequeue-index b item) (
        within,
        dequeue-item b item
            ∙ ap (λ o. if lends b then o else item) (made (b.cindex % msg_counts) within),
      )

  -- After init and any calls, dequeue answers an index of the ring. The caller's pointer is then the
  -- object that init made for this index, or what it was before where that object is lent.
  pub dequeue-object :
      (a : ObjectArray A) (allocate : ℕ → Option A) (cs : List Call) (item : Option A)
      → ((dequeue (run (init a allocate) cs) item).2 < msg_counts)
        × ((dequeue (run (init a allocate) cs) item).1 ≡ (
            if lends (run (init a allocate) cs)
            then allocate (dequeue (run (init a allocate) cs) item).2
            else item))
  dequeue-object a allocate cs item = item_of (run (init a allocate) cs) allocate item (λ i below.
      ap (λ q. q i) (run-que_imp (init a allocate) cs) ∙ init-que_imp a allocate i below)
