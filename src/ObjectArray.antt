-- ===== src/ObjectArray.antt =====
-- easyace/ace_object_array.h: a ring of objects that are lent and given back, `ObjectArray`.
pub mod Lending
use teaf.Prelude.{
  ℕ, suc, ◌+◌, ◌%◌, Bool, Option, none, some, List, [], ◌∷◌, ltb, ◌==◌, if◌then◌else◌, ℤ, pos,
  negsuc, add32,
}

-- msg_counts_.
abbrev pub msg_counts : ℕ
msg_counts = 5000

module _ {ℓ} (A : Type ℓ) where
  -- `flag` is 1 for an object that is lent. An element of `que_imp` is an object or NULL.
  pub record ObjectArray : Type ℓ where
    pub cindex : ℕ
    pub flag : ℕ → ℕ
    pub que_imp : ℕ → Option A

module _ {ℓ} {A : Type ℓ} where
  abbrev pub write_flag : ObjectArray A → ℕ → ℕ → ObjectArray A
  write_flag a i v = record a { flag = λ j. if j == i then v else a.flag j }

  -- `allocate i` is the i-th object made, or NULL where there is no memory.
  unfoldable pub init : ObjectArray A → (ℕ → Option A) → ObjectArray A
  init a allocate = record {
    cindex = 0;
    flag = λ i. if ltb i msg_counts then 0 else a.flag i;
    que_imp = λ i. if ltb i msg_counts then allocate i else a.que_imp i;
  }

  -- An index below 0 passes the test and is written outside of the array, which has no result.
  unfoldable pub enqueue : ObjectArray A → ℤ → Option (ObjectArray A × ℤ)
  enqueue a (pos i) = some (if ltb i msg_counts then write_flag a i 0 else a, pos 0)
  enqueue a (negsuc i) = none

  -- `item` is what the caller's pointer holds before the call.
  unfoldable pub dequeue : ObjectArray A → Option A → ObjectArray A × Option A × ℕ
  dequeue a item =
      let index = a.cindex % msg_counts in
      let next : ObjectArray A = record a { cindex = add32 a.cindex 1 } in
      if a.flag index == 0
      then (write_flag next index 1, a.que_imp index, index)
      else (next, item, index)
