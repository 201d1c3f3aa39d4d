-- ===== src/ObjectQue.antt =====
-- easyace/ace_object_que.h, class ACE_Object_Que: the queue of blank message objects that the
-- interfaces, the workers and the acknowledgement queue take their objects from and give them back to.
pub mod Places
use teaf.Prelude.{
  ℕ, zero, suc, ◌+◌, ◌-◌, Bool, true, false, Option, none, some, List, [], ◌∷◌, ◌++◌, ltb,
  if◌then◌else◌, length, ℤ, pos, negsuc,
}

-- `que` is the ACE queue, as a list of objects; an object is the number that `new` gave it. `made`
-- counts the calls of `new` that gave one, and `deleted` holds those deleted.
pub record ObjectQue : Type 0 where
  pub que : List ℕ
  pub made : ℕ
  pub deleted : List ℕ

-- `fits` says whether the ACE queue takes another object within the timeout.
unfoldable pub enqueue : Bool → ObjectQue → Option ℕ → ObjectQue × ℤ
enqueue fits s none = (s, negsuc 0)
enqueue fits s (some item) =
    if fits
    then (record s { que = s.que ++ (item ∷ []) }, pos 0)
    else (record s { deleted = item ∷ s.deleted }, negsuc 0)

-- An empty queue times out; `memory` says whether `new` succeeds. The object is NULL if it does not.
unfoldable pub dequeue : Bool → ObjectQue → ObjectQue × Option ℕ × ℤ
dequeue memory s = elim s.que [
  | [] ↦
      (if memory
        then (record s { made = suc s.made }, some s.made, negsuc 0)
        else (s, none, negsuc 0))
  | x ∷ xs ↦ (record s { que = xs }, some x, pos 0)
]

-- The loop of init: `new`, enqueue, and the object deleted at the first that does not fit. `fits` is
-- asked with the number of rounds that are left. `new` is taken to succeed.
unfoldable pub fill : (ℕ → Bool) → ℕ → ObjectQue → ObjectQue
fill fits zero s = s
fill fits (suc n) s =
    let next : ObjectQue = record s { que = s.que ++ (s.made ∷ []); made = suc s.made } in
    let rest = fill fits n next in
    if fits n then rest else record s { made = suc s.made; deleted = s.made ∷ s.deleted }

-- `close` empties the ACE queue where it is too small; the objects in it are not deleted.
unfoldable pub init : (ℕ → Bool) → ℕ → ObjectQue → ObjectQue
unfolding fill
init fits msg_counts s =
    let t : ObjectQue = if ltb (length s.que) msg_counts then record s { que = [] } else s in
    fill fits (msg_counts - length t.que) t

-- The constructor.
abbrev pub fresh : ObjectQue
fresh = record { que = []; made = 0; deleted = [] }
