-- ===== src/Tests/ConnMgr.antt =====
-- comm/plat_conn_mgr_ex.cpp: a pool of two servers with two slots each, at concrete calls.
use teaf.Prelude.{
  ℕ, ◌+◌, ◌-◌, ◌≤◌, ◌≡◌, refl, true, false, none, some, List, [], ◌∷◌, arith, ◌==◌, if◌then◌else◌,
  length, pos,
}
use teaf.ConnMgr.{Mgr, put₂, get_conn, get_index, init_conn, connect, close_old, fini}
use teaf.ConnMgr.Calls.{failed, got, send_recv_ex_locked, refresh, receive_ex, recv_until, strstr}
use teaf.ConnMgr.Choice.{IsChoice, get_index-IsChoice}
use teaf.ConnMgr.Locked.{Released, send_recv_ex_locked-Released}
use teaf.ConnMgr.Release.{Under, Call, of_send, of_send_recv, Around, performs, performs-Under}
use teaf.ConnMgr.Backoff.{attempts, attempts-le}
use teaf.ConnMgr.Init.{Conf, create, init, init_servers, init_slots, connect_all}

abbrev addr1 : List ℕ
addr1 = 49 ∷ []

abbrev addr2 : List ℕ
addr2 = 50 ∷ []

-- Slot 0 of server 0 is open and in use.
abbrev pool : Mgr
pool = record create {
  conn = put₂ create.conn 0 0 true;
  conn_use_flag = put₂ create.conn_use_flag 0 0 1;
  ip = λ i. if i == 0 then addr1 else if i == 1 then addr2 else [];
  port = pos 80;
  conn_nums = pos 2;
}

abbrev busy : ℕ → ℕ → ℕ
busy = put₂ (λ i j. 0) 0 0 1

takes_free : (get_index pool 0 0 4).1 ≡ 1
unfolding get_index
takes_free = refl

-- The answer so far is `A`, yet the separator 10 is found: it stands in the buffer since the socket
-- was emptied.
stale_separator :
    (send_recv_ex_locked 0 4
      (0 ∷ 0 ∷ 0 ∷ 0 ∷ [])
      (some (10 ∷ []))
      (got 66 (10 ∷ []))
      false
      false
      (pos 1)
      (got 65 [])
      (got 67 (10 ∷ []) ∷ [])
      pool
      0
      0).1
    ≡ (pos 1, 65 ∷ 10 ∷ 0 ∷ 0 ∷ [])
unfolding send_recv_ex_locked refresh receive_ex recv_until strstr
stale_separator = refl

get_index-IsChoice_example : IsChoice pool 0 2 7 (get_index pool 0 7 4)
get_index-IsChoice_example = get_index-IsChoice pool 0 7 4 2 refl (omega arith) (omega arith)

send_recv_ex_locked-Released_example :
    Released 0 0 pool
      (send_recv_ex_locked 0 4 [] none (failed 0) false true (pos 1) (got 65 []) [] pool 0 0).0
      (send_recv_ex_locked 0 4 [] none (failed 0) false true (pos 1) (got 65 []) [] pool 0 0).1.0
send_recv_ex_locked-Released_example =
    send_recv_ex_locked-Released 0 0 0 refl 4 [] none (failed 0) false true (pos 1) (got 65 []) []
      pool refl (omega arith)

abbrev calm : ℕ → Around
calm now = record { now = now; rand1 = 4; rand2 = 1; connects = true; meanwhile = λ m. m }

-- A call that succeeds, and one whose connection breaks.
abbrev calls : List (Around × Call)
calls =
    (calm 1, of_send 0 (pos 3))
    ∷ (calm 2, of_send_recv 3 (failed 0) false false (pos 3) (got 65 []))
    ∷ []

pool-Under : Under 2 busy pool
pool-Under = record { ip_num_pos = refl; flag_le = λ i j. omega arith }

performs-Under_example : Under 2 busy (performs calls pool)
performs-Under_example =
    performs-Under 2 busy calls pool ((λ m h. h), ((λ m h. h), tt)) pool-Under (omega arith)
      (omega arith)

-- Server 1 cannot be reached: seven calls within ten seconds.
abbrev seven : List (ℕ × ℕ)
seven = (1, 0) ∷ (2, 1) ∷ (3, 0) ∷ (4, 1) ∷ (5, 0) ∷ (6, 1) ∷ (7, 0) ∷ []

six_attempts : length (attempts 1 seven pool).alarms ≡ 6
unfolding get_conn init_conn connect close_old fini
six_attempts = refl

attempts-le_example : length (attempts 1 seven pool).alarms ≤ 0 + (5 + 1 - 0)
attempts-le_example =
    attempts-le 1 5 10 0 seven pool
      (
        (omega arith, omega arith),
        (
          (omega arith, omega arith),
          (
            (omega arith, omega arith),
            (
              (omega arith, omega arith),
              (
                (omega arith, omega arith),
                ((omega arith, omega arith), ((omega arith, omega arith), tt)),
              ),
            ),
          ),
        ),
      )
      (record { in_use = refl; max_fails = refl; recon = refl; address = refl; has_port = refl })
      (omega arith)

abbrev conf : Conf
conf = record {
  conf_ip_num = some (pos 3);
  conf_ip = λ i. if i == 0 then some addr1 else if i == 1 then some addr2 else none;
  conf_conn_nums = some (pos 2);
  conf_port = some (pos 80);
  conf_use_strategy = none;
  conf_max_fail_times = none;
  conf_recon_interval = none;
}

-- The third address is missing, so that two servers are left.
init_two : (init 0 (λ i j. true) conf [] create).0.ip_num ≡ pos 2
unfolding init init_servers init_slots init_conn connect close_old fini connect_all
init_two = refl

-- No test rejects a number of connections that is 0, by which `get_index` divides.
init_no_slots :
    let (m, ret) = init 0 (λ i j. true) (record conf { conf_conn_nums = some (pos 0) }) [] create in
    (ret ≡ pos 0) × (m.conn_nums ≡ pos 0)
unfolding init init_servers init_slots connect_all
init_no_slots = (refl, refl)

init_ok : (init 0 (λ i j. true) conf [] create).1 ≡ pos 0
unfolding init
init_ok = refl
