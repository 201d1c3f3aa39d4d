-- ===== src/Tests/Svc.antt =====
-- frm/isgw_mgr_svc.cpp: a service with flow control and two routers.
use teaf.Prelude.{
  ℕ, ◌+◌, ◌-◌, ◌≤◌, ◌<◌, ◌≡◌, ◌⊎◌, refl, true, false, Option, none, some, List, [], ◌∷◌, arith,
  ◌==◌, if◌then◌else◌, ℤ, pos, negsuc, ltb_ℤ,
}
use teaf.Amount.{node_of, get_status, amount_inc, modify}
use teaf.Amount.Entry.{Node, fresh_node, reopen, count}
use teaf.Stat.{create}
use teaf.Svc.{Svc, Request, Handled, Dest, named, router, process, forward, check, proc_flag}
use teaf.Svc.Owned.{Settled, process-Settled}
use teaf.Svc.Forward.{refusals, forward_errors, forward-refusals}
use teaf.Svc.Limited.{processes, processes-le}

abbrev entry : Node
entry = record fresh_node {
  cmd = pos 101;
  time_intvl = pos 30;
  time_start = 1000;
  max_req_limit = pos 2;
  max_fail_ratio_limit = pos 80;
}

abbrev svc : Svc
svc = record {
  control_flag = pos 1;
  discard_flag = pos 1;
  discard_time = pos 2;
  rflag = pos 0;
  rtnum = 2;
  local_port = pos 5693;
  freq = record {
    nodes = some (entry ∷ entry ∷ []);
    cmd_no_start = pos 101;
    cmd_no_end = pos 102;
    time_now = 1000;
  };
  stat = create;
  routes = [];
  free_msgs = 0;
}

abbrev request : Request
request = record {
  cmd = pos 101;
  uin = 10001;
  rflag = pos 0;
  body = 99 ∷ [];
  appname = [];
  sockfd = 0;
  sock_seq = 0;
  msg_seq = 0;
  prot = 0;
  time = 0;
  seqstr = [];
}

-- A handler that succeeds and counts its calls.
abbrev handler : ℕ → Request → ℕ × Handled
handler w q = (w + 1, record { ret = pos 0; ack_buf = []; ack_len = pos 8400 })

-- The second router takes a message.
abbrev sends : Dest → ℤ
sends (named app) = pos 0
sends (router i) = if i == 1 then pos 0 else negsuc 0

abbrev no_ports : List ℕ → Option ℤ
no_ports app = none

abbrev forwarded : Request
forwarded = record request { rflag = pos 1 }

process-Settled_example :
    let (s', w', r) = process handler handler sends no_ports svc 0 forwarded 1001 5 in
    Settled svc s' r
process-Settled_example = process-Settled handler handler sends no_ports svc 0 forwarded 1001 5

forward-refusals_example :
    ((forward sends svc request).0.stat ≡ forward_errors (refusals sends 0 2) create)
    × ((((forward sends svc request).1 ≡ pos 0)
          × ((i : ℕ) × (i < 2) × (ltb_ℤ (sends (router i)) (pos 0) ≡ false)))
        ⊎ (((forward sends svc request).1 ≡ negsuc 0)
            × ((i : ℕ) → i < 2 → ltb_ℤ (sends (router i)) (pos 0) ≡ true)))
forward-refusals_example = forward-refusals sends svc request refl

-- Six requests in five seconds, the last one too old.
abbrev burst : List (ℕ × ℕ × Request)
burst =
    (1001, 5, request)
    ∷ (1002, 5, request)
    ∷ (1003, 5, request)
    ∷ (1003, 5, request)
    ∷ (1004, 5, request)
    ∷ (1005, 30000, request)
    ∷ []

svc-entry : node_of svc.freq (pos 101) ≡ some entry
unfolding node_of
svc-entry = refl

three_calls : processes handler handler sends no_ports svc 0 burst ≡ 3
unfolding process check get_status node_of reopen proc_flag amount_inc modify count
three_calls = refl

processes-le_example : processes handler handler sends no_ports svc 0 burst ≤ 0 + (2 + 1 - 0)
processes-le_example =
    processes-le handler handler sends no_ports (λ w. w) (λ w q. refl) (pos 101) refl burst 2 svc 0
      entry refl svc-entry refl refl (omega arith)
      (
        (refl, omega arith),
        (
          (refl, omega arith),
          (
            (refl, omega arith),
            ((refl, omega arith), ((refl, omega arith), ((refl, omega arith), tt))),
          ),
        ),
      )
