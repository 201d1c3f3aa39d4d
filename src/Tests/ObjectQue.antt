-- ===== src/Tests/ObjectQue.antt =====
-- easyace/ace_object_que.h: two objects are made, both and a third are taken, and two are given back to
-- a queue that takes one.
use teaf.Prelude.{◌+◌, ◌≡◌, refl, true, false, [], ◌∷◌, if◌then◌else◌, ltb}
use teaf.ObjectQue.{init, fresh, fill, enqueue, dequeue}
use teaf.ObjectQue.Places.{Ledger, Calls, stop, take_one, give_back, count, calls-init-IsPlaced}

abbrev start : Ledger
start = record { objects = init (λ n. true) 2 fresh; lent = [] }

abbrev finish : Ledger
finish = record { objects = record { que = 1 ∷ []; made = 3; deleted = 0 ∷ [] }; lent = 2 ∷ [] }

calls : Calls start finish
unfolding init fill enqueue dequeue
calls = take_one true (
    take_one false (
      take_one true
        (give_back true (2 ∷ []) (0 ∷ []) 1 refl (give_back false (2 ∷ []) [] 0 refl stop))))

calls-init-IsPlaced_example :
    count 2 finish.objects.que + (count 2 finish.lent + count 2 finish.objects.deleted)
    ≡ (if ltb 2 finish.objects.made then 1 else 0)
calls-init-IsPlaced_example = calls-init-IsPlaced (λ n. true) 2 calls 2
