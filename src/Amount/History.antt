-- ===== src/Amount/History.antt =====
-- What holds of the counters of comm/cmd_amount_contrl.cpp after any history of calls.
use mathlib.Core.Option
use teaf.Prelude.{
  ℕ, zero, suc, ◌+◌, ◌*◌, ◌/◌, ◌≤◌, ◌≡◌, ◌≢◌, refl, ◌∙◌, sym, subst, ◌&&◌, ltb, leb_ℤ, pos_part,
  Option, none, some, List, [], ◌∷◌, arith, All, update_at, update_at-All, ℤ, pos, offset,
  Bool-cases, Option-cases, if_intro, inl, inr,
}
use teaf.Amount.{
  Cntrl, Key, in_range, index, node_of, modify, set_time, get_status, set_status, amount_inc,
  init_nodes, allocate, with_limits, blank, create,
}
use teaf.Amount.Access.{
  node_of-modify_ne, node_of-set_time, modify_within, modify_outside, get_status-none,
  get_status-some,
}
use teaf.Amount.Entry.{Node, reopen, set_status_of, roll, tally, count}

pub record IsSound (n : Node) : Type 0 where
  pub fails : n.cur_fail_req ≤ n.cur_req
  pub total_fails : n.total_fail_req ≤ n.total_req
  pub current : n.cur_req ≤ n.total_req
  pub current_fails : n.cur_fail_req ≤ n.total_fail_req
  pub peak : n.max_req ≤ n.total_req
  pub ratio : n.cur_fail_ratio ≤ 100
  pub peak_ratio : n.max_fail_ratio ≤ 100

percent-le : (a b : ℕ) → a ≤ b → 100 * a / b ≤ 100
percent-le a b h = grind arith

reopen-IsSound : (now : ℕ) (n : Node) → IsSound n → IsSound (reopen now n)
unfolding reopen
reopen-IsSound now n v = ground arith

set_status_of-IsSound : (status : ℤ) (n : Node) → IsSound n → IsSound (set_status_of status n)
unfolding set_status_of
set_status_of-IsSound status n v = ground arith

roll-IsSound : (now : ℕ) (n : Node) → IsSound n → IsSound (roll now n)
unfolding roll
roll-IsSound now n v = ground arith

tally-IsSound : (result : ℤ) (n : Node) → IsSound n → IsSound (tally result n)
unfolding tally
tally-IsSound result n v = ground (arith, percent-le (n.cur_fail_req + 1) (n.cur_req + 1))

count-IsSound : (now : ℕ) (result : ℤ) (n : Node) → IsSound n → IsSound (count now result n)
unfolding count
count-IsSound now result n v = tally-IsSound result (roll now n) (roll-IsSound now n v)

-- Every entry of the controller.
abbrev pub AreSound : Option (List Node) → Type 0
AreSound none = Unit
AreSound (some ns) = All IsSound ns

-- The calls of a running server, and their effect on the state.
pub data Call : Type 0 where
  asks : ℤ → ℕ → Call
  sets : ℤ → ℤ → Call
  ticks : ℕ → Call
  counts : ℤ → ℤ → Call

pub step : Cntrl → Call → Cntrl
step c (asks cmd now) = (get_status c cmd now).0
step c (sets cmd status) = set_status c cmd status
step c (ticks now) = set_time c now
step c (counts cmd result) = amount_inc c cmd result

pub run : Cntrl → List Call → Cntrl
run c [] = c
run c (call ∷ calls) = run (step c call) calls

modify-AreSound :
    (c : Cntrl) (cmd : ℤ) (f : Node → Node)
    → ((n : Node) → IsSound n → IsSound (f n))
    → AreSound c.nodes
    → AreSound (modify c cmd f).nodes
modify-AreSound c cmd f keep v = elim (Bool-cases (in_range c cmd)) [
  | inl within ↦ rw (modify_within c cmd f within) (inside c.nodes v)
  | inr outside ↦ rw (modify_outside c cmd f outside) v
]
  where
    inside :
        (ns : Option (List Node))
        → AreSound ns
        → AreSound (Option.map (λ l. update_at l (index c cmd) f) ns)
    inside none h = h
    inside (some l) h = update_at-All l (index c cmd) f keep h

step-AreSound : (c : Cntrl) (call : Call) → AreSound c.nodes → AreSound (step c call).nodes
unfolding step set_status amount_inc set_time
step-AreSound c (asks cmd now) v = elim (Option-cases (node_of (set_time c now) cmd)) [
  | inl e ↦ subst state (sym (get_status-none c cmd now e)) v
  | inr (n, e) ↦
      subst state (sym (get_status-some c cmd now n e))
        (modify-AreSound (set_time c now) cmd (reopen now) (reopen-IsSound now) v)
]
  where
    state : Cntrl × ℤ → Type 0
    state r = AreSound r.0.nodes
step-AreSound c (sets cmd status) v =
    modify-AreSound c cmd (set_status_of status) (set_status_of-IsSound status) v
step-AreSound c (ticks now) v = v
step-AreSound c (counts cmd result) v =
    modify-AreSound c cmd (count c.time_now result) (count-IsSound c.time_now result) v

init_nodes-All : (conf : Key → Option ℤ) (cmd k : ℕ) → All IsSound (init_nodes conf cmd k)
unfolding init_nodes
init_nodes-All conf cmd zero = tt
init_nodes-All conf cmd (suc k) = (omega arith, init_nodes-All conf (suc cmd) k)

create-AreSound : (conf : Key → Option ℤ) (now : ℕ) → AreSound (create conf now).nodes
unfolding create
create-AreSound conf now =
    let c = with_limits conf (blank now) in
    if_intro (λ (k : Cntrl). AreSound k.nodes)
      (leb_ℤ (pos 0) c.cmd_no_start && ltb 0 (offset c.cmd_no_end c.cmd_no_start))
      {x = allocate conf c} {y = c}
      (init_nodes-All conf (pos_part c.cmd_no_start) (suc (offset c.cmd_no_end c.cmd_no_start))) tt

run-AreSound : (c : Cntrl) (calls : List Call) → AreSound c.nodes → AreSound (run c calls).nodes
unfolding run
run-AreSound c [] v = v
run-AreSound c (call ∷ calls) v = run-AreSound (step c call) calls (step-AreSound c call v)

-- After any calls on a controller made from any configuration, every entry has failures among
-- its requests, the current interval among the totals, peaks that were reached, and percentages
-- of at most 100.
pub run-create-AreSound :
    (conf : Key → Option ℤ) (now : ℕ) (calls : List Call)
    → AreSound (run (create conf now) calls).nodes
run-create-AreSound conf now calls = run-AreSound (create conf now) calls (create-AreSound conf now)

-- The call is about another command.
abbrev pub IsOther : ℤ → Call → Type 0
IsOther cmd (asks cmd' now) = cmd' ≢ cmd
IsOther cmd (sets cmd' status) = cmd' ≢ cmd
IsOther cmd (ticks now) = Unit
IsOther cmd (counts cmd' result) = cmd' ≢ cmd

pub node_of-step :
    (c : Cntrl) (call : Call) (cmd : ℤ)
    → IsOther cmd call
    → node_of (step c call) cmd ≡ node_of c cmd
unfolding step set_status amount_inc
node_of-step c (asks cmd' now) cmd ne = elim (Option-cases (node_of (set_time c now) cmd')) [
  | inl e ↦ subst state (sym (get_status-none c cmd' now e)) (node_of-set_time c cmd now)
  | inr (n, e) ↦
      subst state (sym (get_status-some c cmd' now n e))
        (node_of-modify_ne (set_time c now) cmd' cmd (reopen now) ne ∙ node_of-set_time c cmd now)
]
  where
    state : Cntrl × ℤ → Type 0
    state r = node_of r.0 cmd ≡ node_of c cmd
node_of-step c (sets cmd' status) cmd ne = node_of-modify_ne c cmd' cmd (set_status_of status) ne
node_of-step c (ticks now) cmd ne = node_of-set_time c cmd now
node_of-step c (counts cmd' result) cmd ne =
    node_of-modify_ne c cmd' cmd (count c.time_now result) ne

-- The history of a command does not depend on what happens to the others: calls about other
-- commands, in any number and order, leave its entry as it was.
pub node_of-run :
    (c : Cntrl) (calls : List Call) (cmd : ℤ)
    → All (IsOther cmd) calls
    → node_of (run c calls) cmd ≡ node_of c cmd
unfolding run
node_of-run c [] cmd other = refl
node_of-run c (call ∷ calls) cmd (ne, other) =
    node_of-run (step c call) calls cmd other ∙ node_of-step c call cmd ne
