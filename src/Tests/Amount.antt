-- ===== src/Tests/Amount.antt =====
-- comm/cmd_amount_contrl.cpp at a concrete configuration.
use teaf.Prelude.{
  ℕ, ◌+◌, ◌-◌, ◌≤◌, ◌≡◌, ◌≢◌, refl, Option, none, some, List, [], ◌∷◌, arith, ℤ, pos, negsuc,
}
use teaf.Amount.{
  Cntrl, Key, start_cmd, end_cmd, max_req, create, modify, node_of, get_status, amount_inc,
}
use teaf.Amount.Entry.{Node, reopen, count, fresh_node}
use teaf.Amount.History.{Call, asks, sets, counts, run, AreSound, run-create-AreSound, node_of-run}
use teaf.Amount.Window.{request, admitted, admitted-le}
use teaf.Amount.Lifetime.{stopped_reopens}

-- Commands 1000 to 1002, two requests in each interval of 30 seconds.
abbrev conf : Key → Option ℤ
conf start_cmd = some (pos 1000)
conf end_cmd = some (pos 1002)
conf max_req = some (pos 2)
conf k = none

abbrev made : Cntrl
made = create conf 50

abbrev calls : List Call
calls =
    asks (pos 1000) 60
    ∷ counts (pos 1000) (negsuc 0)
    ∷ asks (pos 1000) 70
    ∷ counts (pos 1000) (pos 0)
    ∷ sets (pos 1000) (pos 2)
    ∷ []

-- The entry of command 1000 in the interval that the request at time 60 began.
abbrev begun : Node
begun = record fresh_node {
  cmd = pos 1000;
  time_intvl = pos 30;
  max_req_limit = pos 2;
  max_fail_ratio_limit = pos 80;
  time_start = 60;
  total_req = 1;
  cur_req = 1;
}

abbrev serving : Cntrl
serving = (request made (pos 1000) 60 (pos 0)).0

serving-entry : node_of serving (pos 1000) ≡ some begun
unfolding request create get_status amount_inc modify node_of reopen count
serving-entry = refl

abbrev later_requests : List (ℕ × ℤ)
later_requests = (61, pos 0) ∷ (62, negsuc 0) ∷ (63, pos 0) ∷ (64, pos 0) ∷ []

-- Two more are served.
admits_two : admitted serving (pos 1000) later_requests ≡ 2
unfolding admitted request create get_status amount_inc modify node_of reopen count
admits_two = refl

run-create-AreSound_example : AreSound (run (create conf 50) calls).nodes
run-create-AreSound_example = run-create-AreSound conf 50 calls

other : pos 1000 ≢ pos 1001
other e = ground arith

node_of-run_example : node_of (run made calls) (pos 1001) ≡ node_of made (pos 1001)
node_of-run_example =
    node_of-run made calls (pos 1001) (other, (other, (other, (other, (other, tt)))))

admitted-le_example : admitted serving (pos 1000) later_requests ≤ 2 + 1 - 1
admitted-le_example =
    admitted-le serving (pos 1000) later_requests 2 begun serving-entry refl refl (omega arith)
      (omega arith, (omega arith, (omega arith, (omega arith, tt))))

-- The entry at its limit, stopped for good.
abbrev stopped : Node
stopped = record begun { status = pos 2; total_req = 2; cur_req = 2 }

abbrev halted : Cntrl
halted = record {
  nodes = some (stopped ∷ []);
  cmd_no_start = pos 1000;
  cmd_no_end = pos 1000;
  time_now = 70;
}

stopped_reopens_example :
    (get_status (amount_inc halted (pos 1000) (pos 0)) (pos 1000) 95).1 ≡ pos 0
unfolding node_of
stopped_reopens_example =
    stopped_reopens halted (pos 1000) stopped (pos 0) 95 refl refl (omega arith) refl (omega arith)
