-- ===== src/Tests/ObjectArray.antt =====
-- easyace/ace_object_array.h: a ring whose i-th object is the number 100 + i.
use teaf.Prelude.{ℕ, ◌+◌, ◌≡◌, ◌≢◌, refl, true, Option, none, some, List, [], ◌∷◌, All}
use teaf.ObjectArray.{ObjectArray, init, dequeue}
use teaf.ObjectArray.Lending.{Call, take_one, give_back, step, lends, lent, lent-apart}

abbrev blank : ObjectArray ℕ
blank = record { cindex = 7; flag = λ i. 9; que_imp = λ i. none }

abbrev numbered : ℕ → Option ℕ
numbered i = some (100 + i)

abbrev ring : ObjectArray ℕ
ring = init blank numbered

-- The object of the turn is lent already: its index comes back, and the pointer is kept.
lent_ring : ObjectArray ℕ → Option ℕ × ℕ
lent_ring a = ((dequeue a (some 1)).1, (dequeue a (some 1)).2)

lent_ring_at_0 : lent_ring (record (step ring take_one) { cindex = 5000 }) ≡ (some 1, 0)
unfolding init step dequeue lent_ring
lent_ring_at_0 = refl

ring-lends : lends ring ≡ true
unfolding init
ring-lends = refl

abbrev later : List Call
later = take_one ∷ give_back 1 ∷ take_one ∷ []

lent-apart_example : All (λ k. k ≢ (dequeue ring none).2) (lent (step ring take_one) later)
unfolding init dequeue
lent-apart_example = lent-apart ring later ring-lends (refl, (refl, (refl, tt)))
