-- ===== src/Amount/Entry.antt =====
-- comm/cmd_amount_contrl.h and .cpp: the entry of one command, `CmdStaticsNode`, and what the
-- operations of the controller do to it.
use teaf.Prelude.{
  ℕ, ◌+◌, ◌*◌, ◌/◌, ◌&&◌, ltb, leb, if◌then◌else◌, ℤ, pos, ltb_ℤ, leb_ℤ, ◌==ℤ◌, sub32, to_u32,
}

pub record Node : Type 0 where
  pub cmd : ℤ
  pub status : ℤ
  pub total_req : ℕ
  pub total_fail_req : ℕ
  pub time_intvl : ℤ
  pub time_start : ℕ
  pub cur_req : ℕ
  pub cur_fail_req : ℕ
  pub cur_fail_ratio : ℕ
  pub max_req : ℕ
  pub max_req_limit : ℤ
  pub max_fail_ratio : ℕ
  pub max_fail_ratio_limit : ℤ

abbrev pub fresh_node : Node
fresh_node = record {
  cmd = pos 0;
  status = pos 0;
  total_req = 0;
  total_fail_req = 0;
  time_intvl = pos 0;
  time_start = 0;
  cur_req = 0;
  cur_fail_req = 0;
  cur_fail_ratio = 0;
  max_req = 0;
  max_req_limit = pos 0;
  max_fail_ratio = 0;
  max_fail_ratio_limit = pos 0;
}

-- Seconds since the interval began, as the `unsigned` difference.
abbrev pub elapsed : ℕ → Node → ℕ
elapsed now n = sub32 now n.time_start

-- The counters of the current interval are cleared together.
abbrev pub clear : Node → Node
clear n = record n { cur_req = 0; cur_fail_req = 0; cur_fail_ratio = 0 }

-- `get_status`: an entry that rejects for the rest of its interval opens again after it.
unfoldable pub reopen : ℕ → Node → Node
reopen now n =
    if n.status ==ℤ pos 1 && ltb (to_u32 n.time_intvl) (elapsed now n)
    then record (clear n) { time_start = now; status = pos 0 }
    else n

-- `set_status`, behind its test.
unfoldable pub set_status_of : ℤ → Node → Node
set_status_of status n =
    let n' = record n { status = status } in if status ==ℤ pos 0 then clear n' else n'

abbrev pub max_of : ℕ → ℕ → ℕ
max_of new old = if ltb old new then new else old

-- `amount_inc`, first part: a new interval, or the limit on requests.
unfoldable pub roll : ℕ → Node → Node
unfolding set_status_of
roll now n =
    if leb (to_u32 n.time_intvl) (elapsed now n)
    then clear (record n {
      time_start = now;
      max_req = max_of n.cur_req n.max_req;
      max_fail_ratio = max_of n.cur_fail_ratio n.max_fail_ratio;
    })
    else if leb_ℤ n.max_req_limit (pos n.cur_req)
    then set_status_of (pos 1) n
    else n

-- `amount_inc`, second part: the request is counted, and so is its failure.
unfoldable pub tally : ℤ → Node → Node
unfolding set_status_of
tally result n =
    let total = record n { total_req = n.total_req + 1; cur_req = n.cur_req + 1 } in
    if ltb_ℤ result (pos 0)
    then (let fails = n.cur_fail_req + 1 in
        let ratio = 100 * fails / (n.cur_req + 1) in
        let failed = record total {
          total_fail_req = n.total_fail_req + 1;
          cur_fail_req = fails;
          cur_fail_ratio = ratio;
        } in
        if ltb_ℤ n.max_fail_ratio_limit (pos ratio) && ltb 10 fails
        then set_status_of (pos 1) failed
        else failed)
    else total

unfoldable pub count : ℕ → ℤ → Node → Node
unfolding roll tally
count now result n = tally result (roll now n)
