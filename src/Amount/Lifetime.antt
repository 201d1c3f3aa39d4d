-- ===== src/Amount/Lifetime.antt =====
-- comm/cmd_amount_contrl.cpp: what `set_status(cmd, 2)` promises, and the destructor.
use teaf.Prelude.{
  ℕ, zero, suc, ◌+◌, ◌≤◌, ◌<◌, ◌≡◌, refl, true, false, ◌&&◌, Option, some, List, [], arith, length,
  get_elem?, get_elem?-lt, ltb, leb_ℤ, ℤ, pos, pos_part, offset, to_u32, if_intro, Option-cases,
  inl, inr,
}
use teaf.Amount.{
  Cntrl, Key, node_of, get_status, amount_inc, init_nodes, allocate, with_limits, blank, create,
  frees, destroy, rounds, get_conf_int, start_cmd, end_cmd,
}
use teaf.Amount.Access.{get_status_entry, node_of-amount_inc}
use teaf.Amount.Entry.{Node, elapsed, reopen, roll, tally, count}

over_reopens :
    (now later : ℕ) (result : ℤ) (n : Node)
    → elapsed now n < to_u32 n.time_intvl
    → leb_ℤ n.max_req_limit (pos n.cur_req) ≡ true
    → to_u32 n.time_intvl < elapsed later n
    → (reopen later (count now result n)).status ≡ pos 0
unfolding reopen count roll tally
over_reopens now later result n h over late = ground arith

-- A command that was stopped for good (status 2), and whose interval has reached the limit on
-- requests, is served again: if a request of it that is still being processed is counted within
-- the interval, the first call of `get_status` after the interval returns 0.
pub stopped_reopens :
    (c : Cntrl) (cmd : ℤ) (n : Node) (result : ℤ) (later : ℕ)
    → node_of c cmd ≡ some n
    → n.status ≡ pos 2
    → elapsed c.time_now n < to_u32 n.time_intvl
    → leb_ℤ n.max_req_limit (pos n.cur_req) ≡ true
    → to_u32 n.time_intvl < elapsed later n
    → (get_status (amount_inc c cmd result) cmd later).1 ≡ pos 0
stopped_reopens c cmd n result later here stop h over late =
    rw
      (get_status_entry (amount_inc c cmd result) cmd later (count c.time_now result n)
        (node_of-amount_inc c cmd later n here result))
      (over_reopens c.time_now later result n h over late)

length-init_nodes : (conf : Key → Option ℤ) (cmd k : ℕ) → length (init_nodes conf cmd k) ≡ k
unfolding init_nodes
length-init_nodes conf cmd zero = refl
length-init_nodes conf cmd (suc k) = omega (arith, length-init_nodes conf (suc cmd) k)

frees_past : (k i : ℕ) (ns : List Node) → i ≤ length ns → length ns < i + k → frees k i ns ≡ false
unfolding frees
frees_past zero i ns h l = absurd (omega arith)
frees_past (suc k) i ns h l = elim (Option-cases (get_elem? ns i)) [
  | inl e ↦ rw (e, frees)
  | inr (n, e) ↦
      rw (e, frees) (frees_past k (suc i) ns (omega (arith, get_elem?-lt ns i n e)) (omega arith))
]

-- Where the configured range of commands is not empty, the destructor reads an entry outside the
-- array: its loop runs to `cmd_no_end_ - cmd_no_start_ + 1`, one past the last entry, and it runs
-- where there is no array.
pub destroy-create :
    (conf : Key → Option ℤ) (now : ℕ)
    → leb_ℤ (get_conf_int conf start_cmd (pos 0)) (get_conf_int conf end_cmd (pos 0)) ≡ true
    → destroy (create conf now) ≡ false
unfolding create destroy
destroy-create conf now h =
    let c = with_limits conf (blank now) in
    let size = suc (offset c.cmd_no_end c.cmd_no_start) in
    let made = init_nodes conf (pos_part c.cmd_no_start) size in
    let past : size < rounds c = ground arith in
    if_intro (λ (k : Cntrl). destroy k ≡ false)
      (leb_ℤ (pos 0) c.cmd_no_start && ltb 0 (offset c.cmd_no_end c.cmd_no_start))
      {x = allocate conf c} {y = c}
      (frees_past (rounds c) 0 made (omega arith)
        (omega (arith, length-init_nodes conf (pos_part c.cmd_no_start) size, past)))
      (frees_past (rounds c) 0 [] (omega arith) (omega (arith, past)))
