-- ===== src/Ibc/Answer.antt =====
-- The one answer of a batch request.
use teaf.Prelude.{
  ℕ, suc, ◌≤◌, ◌≡◌, false, Option, some, List, [], ◌∷◌, arith, if◌then◌else◌, length, pos, ◌==ℤ◌,
  Bytes, if_intro,
}
use teaf.Ibc.Records.{Value}
use teaf.Ibc.{Part, Oper, Ibc, Limits, is_late, counted}

-- The results of the parts joined to a record, in order.
abbrev pub joined_one : Oper → Value → Part → Value
joined_one oper v p = oper.merge (counted (oper.process p).0 v) (oper.process p).1

abbrev pub joined_all : Oper → Value → List (ℕ × Part) → Value
joined_all oper v [] = v
joined_all oper v (p ∷ ps) = joined_all oper (joined_one oper v p.1) ps

-- How many parts had a result of 0.
abbrev pub successes : Oper → List (ℕ × Part) → ℕ
successes oper [] = 0
successes oper (p ∷ ps) =
    let rest = successes oper ps in if (oper.process p.1).0 ==ℤ pos 0 then suc rest else rest

-- `merge` leaves the counts to the framework.
pub record KeepsCounts (oper : Oper) : Type 0 where
  pub cnum : (v : Value) (item : Bytes) → (oper.merge v item).cnum ≡ v.cnum
  pub snum : (v : Value) (item : Bytes) → (oper.merge v item).snum ≡ v.snum
  pub total : (v : Value) (item : Bytes) → (oper.merge v item).total ≡ v.total

module _ (l : Limits) (create_oper : ℕ → Option Oper) (oper : Oper) where
  -- The part's command has the operator, and it is not too late.
  abbrev pub IsServed : ℕ × Part → Type 0
  IsServed (now, p) = (create_oper p.req.cmd ≡ some oper) × (is_late l now p ≡ false)

-- What `joined_all` holds of a list.
pub record Counts (oper : Oper) (ps : List (ℕ × Part)) (v : Value) : Type 0 where
  pub cnum : v.cnum ≡ length ps
  pub total : v.total ≡ length ps
  pub snum : v.snum ≡ successes oper ps

successes-le : (oper : Oper) (ps : List (ℕ × Part)) → successes oper ps ≤ length ps
successes-le oper [] = omega arith
successes-le oper (p ∷ ps) =
    let fewer = successes-le oper ps in
    if_intro (λ (n : ℕ). n ≤ suc (length ps)) ((oper.process p.1).0 ==ℤ pos 0) (omega arith)
      (omega arith)
