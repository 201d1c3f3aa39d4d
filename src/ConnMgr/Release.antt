-- ===== src/ConnMgr/Release.antt =====
-- comm/plat_conn_mgr_ex.cpp: the flags `conn_use_flag_` over sequences of calls.
use teaf.Prelude.{
  ℕ, suc, ◌+◌, ◌≤◌, ◌<◌, ◌≡◌, ◌∙◌, Bool, true, false, ◌&&◌, ◌||◌, ◌==ℤ◌, Option, none, List, [],
  ◌∷◌, arith, ◌==◌, ℤ, pos, negsuc, Bool-cases, Option-cases, if_intro, All, ltb_ℤ, pos_part, inl,
  inr,
}
use teaf.ConnMgr.{
  Mgr, Alarm, conn_fail, alarm, is_empty, put₂, in_bounds, fini, connect, close_old, init_conn,
  backs_off, get_conn, ip_num_max, get_ip_idx, get_ip_idx_of, get_index, mod_int, find_free,
  tcp_conn_runout,
}
use teaf.ConnMgr.Calls.{
  Recv, with_conn, send, send_to, send_recv, recv, send_recv_ex, send_locked, recv_locked,
  send_recv_locked, send_recv_ex_locked,
}
use teaf.ConnMgr.Choice.{index-lt}
use teaf.ConnMgr.Locked.{
  Released, send_locked-Released, recv_locked-Released, send_recv_locked-Released,
  send_recv_ex_locked-Released,
}

-- There are `servers` addresses, and no flag is above that of `others`: the slots that other
-- threads work on.
pub record Under (servers : ℕ) (others : ℕ → ℕ → ℕ) (m : Mgr) : Type 0 where
  pub ip_num_pos : m.ip_num ≡ pos servers
  pub flag_le : (i j : ℕ) → m.conn_use_flag i j ≤ others i j

abbrev next : ℕ → Mgr → ℕ
next ip_idx m = mod_int (ip_idx + 1) m.ip_num

next-bound :
    (index ip_idx : ℕ) (m : Mgr) {servers : ℕ}
    → m.ip_num ≡ pos servers
    → in_bounds index ip_idx ≡ true
    → 0 < servers
    → servers ≤ ip_num_max
    → in_bounds index (next ip_idx m) ≡ true
next-bound index ip_idx m e inside some_server few =
    let lt = index-lt (ip_idx + 1) _ m.ip_num e some_server in ground (arith, lt)

own-le : (f : ℕ → ℕ → ℕ) (i j a b n : ℕ) → (i == a && j == b) ≡ true → f a b ≡ 0 → f i j ≤ n
own-le f i j a b n here z = grind arith

module _ (servers : ℕ) (others : ℕ → ℕ → ℕ) where
  reset-le :
      (m : Mgr) (i j a b : ℕ) → Under servers others m → put₂ m.conn_use_flag i j 0 a b ≤ others a b
  reset-le m i j a b h =
      if_intro (λ v. v ≤ others a b) (a == i && b == j) (omega arith) (h.flag_le a b)

  alarm-Under :
      (code : Alarm) (m : Mgr) → Under servers others m → Under servers others (alarm code m)
  alarm-Under code m h = record { ip_num_pos = h.ip_num_pos; flag_le = h.flag_le }

  module _ (now index ip_idx : ℕ) where
    fini-Under :
        (m : Mgr) → Under servers others m → Under servers others (fini now m index ip_idx).0
    unfolding fini
    fini-Under m h = elim (Bool-cases (in_bounds index ip_idx)) [
      | inl e ↦
          rw e
            (record { ip_num_pos = h.ip_num_pos; flag_le = λ a b. reset-le m ip_idx index a b h })
      | inr e ↦ rw e h
    ]

    connect-Under :
        (m : Mgr) (connects : Bool)
        → Under servers others m
        → Under servers others (connect now m index ip_idx connects).0
    unfolding connect
    connect-Under m connects h =
        let opened = record m { conn = put₂ m.conn ip_idx index true } in
        let shut = (fini now opened index ip_idx).0 in
        if_intro (λ (r : Mgr × ℤ). Under servers others r.0)
          (is_empty now (m.ip ip_idx) || (m.port ==ℤ pos 0)) {x = (alarm conn_fail m, negsuc 1)}
          (alarm-Under conn_fail m h)
          (if_intro (λ (r : Mgr × ℤ). Under servers others r.0) connects
            {y = (alarm conn_fail shut, negsuc 0)}
            (record { ip_num_pos = h.ip_num_pos; flag_le = λ a b. reset-le m ip_idx index a b h })
            (alarm-Under conn_fail shut
              (fini-Under opened (record { ip_num_pos = h.ip_num_pos; flag_le = h.flag_le }))))

    init_conn-Under :
        (m : Mgr) (connects : Bool)
        → Under servers others m
        → Under servers others (init_conn now m index ip_idx none (pos 0) connects).0
    unfolding init_conn close_old
    init_conn-Under m connects h =
        let closed = if_intro (Under servers others) (m.conn ip_idx index) (fini-Under m h) h in
        elim (Bool-cases (in_bounds index ip_idx)) [
          | inl e ↦ rw e (connect-Under (close_old now m index ip_idx) connects closed)
          | inr e ↦ rw e (alarm-Under conn_fail m h)
        ]

    get_conn-Under :
        (m : Mgr) (connects : Bool)
        → Under servers others m
        → Under servers others (get_conn now m index ip_idx connects).0
    unfolding get_conn
    get_conn-Under m connects h =
        let made = (init_conn now m index ip_idx none (pos 0) connects).0 in
        if_intro (λ (r : Mgr × ℕ × Bool). Under servers others r.0) (in_bounds index ip_idx)
          {y = (m, ip_idx, false)}
          (if_intro (λ (r : Mgr × ℕ × Bool). Under servers others r.0) (backs_off now m ip_idx)
            {x = (m, next ip_idx m, m.conn (next ip_idx m) index)} h
            (if_intro (λ (r : Mgr × ℕ × Bool). Under servers others r.0) (m.conn ip_idx index)
              {x = (m, ip_idx, true)} {y = (made, ip_idx, made.conn ip_idx index)} h
              (init_conn-Under m connects h)))
          h

    -- A connection that is handed out stands in range.
    get_conn-bound :
        (m : Mgr) (connects : Bool)
        → Under servers others m
        → 0 < servers
        → servers ≤ ip_num_max
        → (get_conn now m index ip_idx connects).2 ≡ true
        → in_bounds index (get_conn now m index ip_idx connects).1 ≡ true
    unfolding get_conn
    get_conn-bound m connects h some_server few live = elim (Bool-cases (in_bounds index ip_idx)) [
      | inr e ↦ absurd (ground (arith, rw e at live))
      | inl e ↦ elim (Bool-cases (backs_off now m ip_idx)) [
        | inl b ↦ rw (e, b) (next-bound index ip_idx m h.ip_num_pos e some_server few)
        | inr b ↦ elim (Bool-cases (m.conn ip_idx index)) [
          | inl c ↦ rw (e, b, c) e
          | inr c ↦ rw (e, b, c) e
        ]
      ]
    ]

  -- The part under the lock leaves its slot free, so that its mark is gone.
  Released-Under :
      (m m' : Mgr) (index ip_idx : ℕ) (ret : ℤ)
      → Under servers others m
      → Released ip_idx index
          (record m { conn_use_flag = put₂ m.conn_use_flag ip_idx index 1 })
          m'
          ret
      → Under servers others m'
  Released-Under m m' index ip_idx ret h r = record {
    ip_num_pos = r.elsewhere.1 ∙ h.ip_num_pos;
    flag_le = λ i j. elim (Bool-cases (i == ip_idx && j == index)) [
      | inl here ↦ own-le m'.conn_use_flag i j ip_idx index (others i j) here r.free
      | inr other ↦ rw ((r.elsewhere.0 i j other).1, other) (h.flag_le i j)
    ];
  }

  module _ {ℓ} {A : Type ℓ} (now index ip_idx : ℕ) (connects : Bool) (meanwhile : Mgr → Mgr)
      (quiet : (m : Mgr) → Under servers others m → Under servers others (meanwhile m)) (fail : A)
      (body : Mgr → ℕ → ℕ → Mgr × A) (ret : A → ℤ)
      (releases : (m : Mgr) (ip_idx' : ℕ)
        → in_bounds index ip_idx' ≡ true
        → m.conn ip_idx' index ≡ true
        → Released ip_idx' index m (body m index ip_idx').0 (ret (body m index ip_idx').1)) where
    with_conn-Under :
        (m : Mgr)
        → Under servers others m
        → 0 < servers
        → servers ≤ ip_num_max
        → Under servers others (with_conn now m index ip_idx connects meanwhile fail body).0
    unfolding with_conn
    with_conn-Under m h some_server few =
        let (m1, i, live) = get_conn now m index ip_idx connects in
        let h1 = get_conn-Under now index ip_idx m connects h in
        let m2 = meanwhile m1 in
        let h2 = quiet m1 h1 in
        elim (Bool-cases live) [
          | inr e ↦ rw e h1
          | inl e ↦ elim (Bool-cases (m2.conn i index)) [
            | inr c ↦ rw (e, c) h2
            | inl c ↦
                rw (e, c)
                  (Released-Under m2 _ index i _ h2 (
                    releases (record m2 { conn_use_flag = put₂ m2.conn_use_flag i index 1 }) i
                      (get_conn-bound now index ip_idx m connects h some_server few e) c))
          ]
        ]

-- The public calls, and what surrounds one: the clock, `rand`, whether a new connection is made,
-- and what other threads do before the slot's lock is taken.
pub data Call : Type 0 where
  of_send : ℕ → ℤ → Call
  of_send_to : List ℕ → ℤ → Call
  of_send_recv : ℕ → Recv → Bool → Bool → ℤ → Recv → Call
  of_recv : ℕ → Recv → Call
  of_send_recv_ex :
      ℕ → ℕ → List ℕ → Option (List ℕ) → Recv → Bool → Bool → ℤ → Recv → List Recv → Call

pub record Around : Type 0 where
  pub now : ℕ
  pub rand1 : ℕ
  pub rand2 : ℕ
  pub connects : Bool
  pub meanwhile : Mgr → Mgr

abbrev pub perform : Around → Call → Mgr → Mgr
perform e (of_send uin sent) m = (send e.now e.rand1 e.rand2 e.connects e.meanwhile m uin sent).0
perform e (of_send_to addr sent) m =
    (send_to e.now e.rand1 e.rand2 e.connects e.meanwhile m addr sent).0
perform e (of_send_recv uin peek timeout again sent r) m =
    (send_recv e.now e.rand1 e.rand2 e.connects e.meanwhile m uin peek timeout again sent r).0
perform e (of_recv uin r) m = (recv e.now e.rand1 e.rand2 e.connects e.meanwhile m uin r).0
perform e (of_send_recv_ex uin room buf sep peek timeout again sent r rs) m =
    (send_recv_ex e.now e.rand1 e.rand2 e.connects e.meanwhile m uin (suc room) buf sep peek timeout
      again sent r rs).0

abbrev pub performs : List (Around × Call) → Mgr → Mgr
performs [] m = m
performs ((e, c) ∷ cs) m = performs cs (perform e c m)

module _ (servers : ℕ) (others : ℕ → ℕ → ℕ) where
  abbrev pub IsQuiet : Around × Call → Type 0
  IsQuiet (e, c) = (m : Mgr) → Under servers others m → Under servers others (e.meanwhile m)

  get_index-Under :
      (m : Mgr) (ip_idx uin rand : ℕ)
      → Under servers others m
      → Under servers others (get_index m ip_idx uin rand).0
  unfolding get_index
  get_index-Under m ip_idx uin rand h =
      let flags = m.conn_use_flag (mod_int ip_idx m.ip_num) in
      elim (Bool-cases (uin == 0)) [
        | inr e ↦ rw e h
        | inl e ↦ elim (Bool-cases (flags (mod_int rand m.conn_nums) == 0)) [
          | inl f ↦ rw (e, f) h
          | inr f ↦ elim (Option-cases (find_free flags 0 (pos_part m.conn_nums))) [
            | inr (i, o) ↦ rw (e, f, o) h
            | inl o ↦
                rw (e, f, o)
                  (if_intro (Under servers others) (ltb_ℤ m.conn_nums (pos 0)) h
                    (alarm-Under servers others tcp_conn_runout m h))
          ]
        ]
      ]

  perform-Under :
      (e : Around) (c : Call) (m : Mgr)
      → IsQuiet (e, c)
      → Under servers others m
      → 0 < servers
      → servers ≤ ip_num_max
      → Under servers others (perform e c m)
  unfolding send send_to send_recv recv send_recv_ex
  perform-Under e (of_send uin sent) m q h some_server few =
      let ip_idx = get_ip_idx m uin e.rand1 in
      let (m', index) = get_index m ip_idx uin e.rand2 in
      with_conn-Under servers others e.now index ip_idx e.connects e.meanwhile q (negsuc 0)
        (send_locked e.now sent) (λ r. r)
        (λ m i inside c. send_locked-Released e.now index i inside m sent c) m'
        (get_index-Under m ip_idx uin e.rand2 h) some_server few
  perform-Under e (of_send_to addr sent) m q h some_server few =
      let ip_idx = get_ip_idx_of m addr e.rand1 in
      let (m', index) = get_index m ip_idx 0 e.rand2 in
      with_conn-Under servers others e.now index ip_idx e.connects e.meanwhile q (negsuc 0)
        (send_locked e.now sent) (λ r. r)
        (λ m i inside c. send_locked-Released e.now index i inside m sent c) m'
        (get_index-Under m ip_idx 0 e.rand2 h) some_server few
  perform-Under e (of_send_recv uin peek timeout again sent r) m q h some_server few =
      let ip_idx = get_ip_idx m uin e.rand1 in
      let (m', index) = get_index m ip_idx uin e.rand2 in
      with_conn-Under servers others e.now index ip_idx e.connects e.meanwhile q (negsuc 0)
        (send_recv_locked e.now peek timeout again sent r) (λ r. r)
        (λ m i inside c.
          send_recv_locked-Released e.now index i inside peek timeout again sent r m c)
        m' (get_index-Under m ip_idx uin e.rand2 h) some_server few
  perform-Under e (of_recv uin r) m q h some_server few =
      let ip_idx = get_ip_idx m uin e.rand1 in
      let (m', index) = get_index m ip_idx 0 e.rand2 in
      with_conn-Under servers others e.now index ip_idx e.connects e.meanwhile q (negsuc 0)
        (recv_locked e.now r) (λ r. r)
        (λ m i inside c. recv_locked-Released e.now index i inside m r c) m'
        (get_index-Under m ip_idx 0 e.rand2 h) some_server few
  perform-Under e (of_send_recv_ex uin room buf sep peek timeout again sent r rs) m q h some_server
        few =
      let ip_idx = get_ip_idx m uin e.rand1 in
      let (m', index) = get_index m ip_idx uin e.rand2 in
      with_conn-Under servers others e.now index ip_idx e.connects e.meanwhile q (negsuc 0, buf)
        (send_recv_ex_locked e.now (suc room) buf sep peek timeout again sent r rs)
        (λ (r : ℤ × List ℕ). r.0)
        (λ m i inside c.
          send_recv_ex_locked-Released e.now index i inside (suc room) buf sep peek timeout again
            sent r rs m c (omega arith))
        m' (get_index-Under m ip_idx uin e.rand2 h) some_server few

  -- Take a manager of `servers` addresses, 1 to 20, in which only slots that other threads work on
  -- are marked as in use, and let the other threads mark no others meanwhile. Then the same holds
  -- after any sequence of the five public calls, whatever the network answers: each call takes
  -- back its mark on every path, errors included.
  pub performs-Under :
      (calls : List (Around × Call)) (m : Mgr)
      → All IsQuiet calls
      → Under servers others m
      → 0 < servers
      → servers ≤ ip_num_max
      → Under servers others (performs calls m)
  performs-Under [] m q h some_server few = h
  performs-Under ((e, c) ∷ cs) m (q, qs) h some_server few =
      performs-Under cs (perform e c m) qs (perform-Under e c m q h some_server few) some_server few
