-- ===== src/Amount/Window.antt =====
-- comm/cmd_amount_contrl.cpp as a limiter: what a server that asks before each request, and
-- counts it afterwards, lets through in one interval.
use teaf.Prelude.{
  ℕ, suc, ◌+◌, ◌-◌, ◌≤◌, ◌<◌, ◌≡◌, refl, Bool, true, false, some, List, [], ◌∷◌, arith, All,
  All-mono, leb_ℤ, ◌⊎◌, if◌then◌else◌, ℤ, pos, ◌==ℤ◌, to_u32, Bool-cases, inl, inr,
}
use teaf.Amount.{Cntrl, node_of, get_status, amount_inc}
use teaf.Amount.Access.{
  get_status_entry, node_of-get_status, time_now-get_status, node_of-amount_inc,
}
use teaf.Amount.Entry.{Node, elapsed, reopen, count, roll, tally}

-- One request at time `now` that ends with `result`: `ISGWMgrSvc::check` asks for the status, and
-- `process` counts the request if it was served.
unfoldable pub request : Cntrl → ℤ → ℕ → ℤ → Cntrl × Bool
request c cmd now result =
    let (c', status) = get_status c cmd now in
    if status ==ℤ pos 0 then (amount_inc c' cmd result, true) else (c', false)

-- How many of a sequence of requests are served.
unfoldable pub admitted : Cntrl → ℤ → List (ℕ × ℤ) → ℕ
admitted c cmd [] = 0
admitted c cmd ((now, result) ∷ reqs) =
    let (c', served) = request c cmd now result in (if served then 1 else 0) + admitted c' cmd reqs

abbrev pub entry_request : ℕ → ℤ → Node → Node × Bool
entry_request now result n =
    if (reopen now n).status ==ℤ pos 0
    then (count now result (reopen now n), true)
    else (reopen now n, false)

request-entry :
    (c : Cntrl) (cmd : ℤ) (now : ℕ) (result : ℤ) (n : Node)
    → node_of c cmd ≡ some n
    → (node_of (request c cmd now result).0 cmd ≡ some (entry_request now result n).0)
      × ((request c cmd now result).1 ≡ (entry_request now result n).1)
unfolding request
request-entry c cmd now result n here =
    let asked = get_status_entry c cmd now n here in
    let left = node_of-get_status c cmd now n here in
    elim (Bool-cases ((reopen now n).status ==ℤ pos 0)) [
      | inl open' ↦
          rw (asked, open', request)
            (
              rw (time_now-get_status c cmd now n here) at
                  (node_of-amount_inc (get_status c cmd now).0 cmd now (reopen now n) left result),
              refl,
            )
      | inr shut ↦ rw (asked, shut, request) (left, refl)
    ]

abbrev pub budget : ℕ → Node → ℕ
budget limit n = if n.status ==ℤ pos 0 then suc limit - n.cur_req else 0

-- The entry of a command that may serve up to `limit` more requests than it has.
pub record Fits (limit : ℕ) (n : Node) : Type 0 where
  pub bound : n.max_req_limit ≡ pos limit
  pub room : (n.status ==ℤ pos 0) ≡ true → n.cur_req ≤ limit

abbrev pub InInterval : Node → ℕ × ℤ → Type 0
InInterval n (now, result) = elapsed now n < to_u32 n.time_intvl

pub reopen_within : (now : ℕ) (n : Node) → elapsed now n < to_u32 n.time_intvl → reopen now n ≡ n
unfolding reopen
reopen_within now n h = ground arith

-- Within the interval the first part of `amount_inc` only compares the count with the limit.
roll_within :
    (now : ℕ) (n : Node)
    → elapsed now n < to_u32 n.time_intvl
    → roll now n
      ≡ (if leb_ℤ n.max_req_limit (pos n.cur_req) then record n { status = pos 1 } else n)
unfolding roll
roll_within now n h = ground arith

record Tallied (n n' : Node) : Type 0 where
  one : n'.cur_req ≡ n.cur_req + 1
  limit : n'.max_req_limit ≡ n.max_req_limit
  start : n'.time_start ≡ n.time_start
  intvl : n'.time_intvl ≡ n.time_intvl
  state : (n'.status ≡ n.status) ⊎ (n'.status ≡ pos 1)

tally-Tallied : (result : ℤ) (n : Node) → Tallied n (tally result n)
unfolding tally
tally-Tallied result n = ground arith

below-limit : (limit cur : ℕ) (l : ℤ) → l ≡ pos limit → leb_ℤ l (pos cur) ≡ false → cur < limit
below-limit limit cur l e h = ground arith

-- After one more request the entry still fits, and its budget has fallen by what was served.
pub record Spent (limit served : ℕ) (n n' : Node) : Type 0 where
  pub fits : Fits limit n'
  pub start : n'.time_start ≡ n.time_start
  pub intvl : n'.time_intvl ≡ n.time_intvl
  pub budget_le : served + budget limit n' ≤ budget limit n

tripped-Spent :
    (limit : ℕ) (n n' : Node)
    → n.max_req_limit ≡ pos limit
    → (n.status ==ℤ pos 0) ≡ true
    → n.cur_req ≤ limit
    → Tallied (record n { status = pos 1 }) n'
    → Spent limit 1 n n'
tripped-Spent limit n n' b z room t = ground arith

counted-Spent :
    (limit : ℕ) (n n' : Node)
    → n.max_req_limit ≡ pos limit
    → (n.status ==ℤ pos 0) ≡ true
    → n.cur_req < limit
    → Tallied n n'
    → Spent limit 1 n n'
counted-Spent limit n n' b z room t = ground arith

pub entry_request-Spent :
    (limit now : ℕ) (result : ℤ) (n : Node)
    → Fits limit n
    → elapsed now n < to_u32 n.time_intvl
    → let (n', served) = entry_request now result n in Spent limit (if served then 1 else 0) n n'
unfolding count
entry_request-Spent limit now result n f h =
    rw (reopen_within now n h) (elim (Bool-cases (n.status ==ℤ pos 0)) [
      | inr shut ↦
          rw shut (record { fits = f; start = refl; intvl = refl; budget_le = omega arith })
      | inl serving ↦
          rw (serving, roll_within now n h, count)
            (elim (Bool-cases (leb_ℤ n.max_req_limit (pos n.cur_req))) [
              | inl over ↦ rw over (
                  tripped-Spent limit n (tally result (record n { status = pos 1 })) f.bound serving
                    (f.room serving) (tally-Tallied result _))
              | inr under ↦ rw under (
                  counted-Spent limit n (tally result n) f.bound serving
                    (below-limit limit n.cur_req n.max_req_limit f.bound under)
                    (tally-Tallied result n))
            ])
    ])

admitted-le-budget :
    (c : Cntrl) (cmd : ℤ) (reqs : List (ℕ × ℤ)) (limit : ℕ) (n : Node)
    → node_of c cmd ≡ some n
    → Fits limit n
    → All (InInterval n) reqs
    → admitted c cmd reqs ≤ budget limit n
unfolding admitted
admitted-le-budget c cmd [] limit n here f h = omega arith
admitted-le-budget c cmd ((now, result) ∷ reqs) limit n here f (h, hs) =
    let r = request-entry c cmd now result n here in
    let s = entry_request-Spent limit now result n f h in
    let rest =
      admitted-le-budget (request c cmd now result).0 cmd reqs limit (entry_request now result n).0
        r.0 s.fits (All-mono reqs (λ q i. rw (s.start, s.intvl) i) hs) in
    rw (r.1, admitted) (omega (arith, s.budget_le, rest))

-- Within one interval at most `max_req_limit + 1` requests of a command are served, whatever they
-- return and however many come: of an entry that serves, with `cur_req` of them counted, at most
-- `max_req_limit + 1 - cur_req` more.
pub admitted-le :
    (c : Cntrl) (cmd : ℤ) (reqs : List (ℕ × ℤ)) (limit : ℕ) (n : Node)
    → node_of c cmd ≡ some n
    → n.max_req_limit ≡ pos limit
    → n.status ≡ pos 0
    → n.cur_req ≤ limit
    → All (InInterval n) reqs
    → admitted c cmd reqs ≤ limit + 1 - n.cur_req
admitted-le c cmd reqs limit n here b z room h =
    ground
      (arith, admitted-le-budget c cmd reqs limit n here (record { bound = b; room = λ _. room }) h)
