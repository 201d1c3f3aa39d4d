-- ===== src/ConnMgr/Init.antt =====
-- comm/plat_conn_mgr_ex.cpp: the constructors, the destructor and `init`. An address is a string of
-- fewer than INET6_ADDRSTRLEN characters; a longer one is cut.
pub mod Bounds
use teaf.Prelude.{
  ℕ, zero, suc, ◌+◌, Bool, true, false, ◌&&◌, Option, none, some, List, [], ◌∷◌, ltb, if◌then◌else◌,
  length, take, ℤ, pos, negsuc, ltb_ℤ, ◌==ℤ◌, pos_part, min,
}
use teaf.ConnMgr.{Mgr, put, fini, init_conn, ip_num_max, pool_conn_max, is_empty}

abbrev pub ip_num_def : ℤ
ip_num_def = pos 2

abbrev pub pool_conn_def : ℤ
pool_conn_def = pos 20

-- What the constructors share.
abbrev pub blank : Mgr
blank = record {
  conn = λ i j. false;
  conn_use_flag = λ i j. 0;
  fail_times = λ i. 0;
  last_fail_time = λ i. 0;
  ip = λ i. [];
  port = pos 0;
  ip_num = ip_num_def;
  conn_nums = pool_conn_def;
  use_strategy = pos 1;
  max_fail_times = pos 5;
  recon_interval = pos 10;
  alarms = [];
}

abbrev pub to_ip : List ℕ → List ℕ
to_ip s = take 45 s

abbrev pub create : Mgr
create = blank

unfoldable pub create_for : List ℕ → ℤ → ℤ → Mgr
create_for host_ip port' conn_num = record blank {
  ip_num = pos 1;
  ip = put blank.ip 0 (to_ip host_ip);
  port = port';
  conn_nums = conn_num;
}

-- The destructor closes what is open; only there it resets the flag.
unfoldable pub destroy : Mgr → Mgr
destroy m = record m {
  conn = λ i j. if ltb i ip_num_max && ltb j pool_conn_max then false else m.conn i j;
  conn_use_flag = λ i j.
      if ltb i ip_num_max && ltb j pool_conn_max && m.conn i j then 0 else m.conn_use_flag i j;
}

-- The section of the configuration: each value is that of the key, if it is there.
pub record Conf : Type 0 where
  pub conf_ip_num : Option ℤ
  pub conf_ip : ℕ → Option (List ℕ)
  pub conf_conn_nums : Option ℤ
  pub conf_port : Option ℤ
  pub conf_use_strategy : Option ℤ
  pub conf_max_fail_times : Option ℤ
  pub conf_recon_interval : Option ℤ

abbrev pub or_else : Option ℤ → ℤ → ℤ
or_else none v = v
or_else (some x) v = x

-- The addresses given, from number `i` on.
pub assign_ips : List (List ℕ) → ℕ → (ℕ → List ℕ) → ℕ → List ℕ
assign_ips [] i ips = ips
assign_ips (a ∷ as') i ips = assign_ips as' (suc i) (put ips i (to_ip a))

-- The addresses configured, `k` of them left from `i` on, up to the first that is missing.
unfoldable pub load_ips : (ℕ → Option (List ℕ)) → ℕ → ℕ → Mgr → Mgr
load_ips conf i zero m = m
load_ips conf i (suc k) m = elim (conf i) [
  | none ↦ record m { ip_num = pos i }
  | some a ↦ load_ips conf (suc i) k (record m { ip = put m.ip i (to_ip a) })
]

-- A number of the configuration: `above` where it exceeds the limit, `missing` where it is not set.
abbrev pub limited : Option ℤ → ℤ → ℤ → ℤ → ℤ
limited none limit above missing = missing
limited (some x) limit above missing = if ltb_ℤ limit x then above else x

abbrev pub set_servers : Conf → List (List ℕ) → Mgr → Mgr
set_servers conf [] m =
    let n = limited conf.conf_ip_num (pos ip_num_max) ip_num_def ip_num_def in
    load_ips conf.conf_ip 0 (pos_part n) (record m { ip_num = n })
set_servers conf (a ∷ as') m =
    let n = min ip_num_max (length (a ∷ as')) in
    record m { ip_num = pos n; ip = assign_ips (take n (a ∷ as')) 0 m.ip }

abbrev pub set_conn_nums : Conf → Mgr → Mgr
set_conn_nums conf m = record m {
  conn_nums = limited conf.conf_conn_nums (pos pool_conn_max) (pos pool_conn_max) pool_conn_def;
}

abbrev pub set_strategy : Conf → Mgr → Mgr
set_strategy conf m = elim conf.conf_use_strategy [
  | none ↦ m
  | some x ↦ record m {
    use_strategy = x;
    max_fail_times = or_else conf.conf_max_fail_times m.max_fail_times;
    recon_interval = or_else conf.conf_recon_interval m.recon_interval;
  }
]

-- The clock reads `now`, and `connects i j` is whether the connection for slot `j` of server `i` is
-- made.
module _ (now : ℕ) (connects : ℕ → ℕ → Bool) where
  -- The loops over the slots of a server and over the servers.
  unfoldable pub init_slots : ℕ → ℕ → ℕ → Mgr → Mgr
  init_slots i j zero m = m
  init_slots i j (suc k) m =
      init_slots i (suc j) k (init_conn now m j i none (pos 0) (connects i j)).0

  unfoldable pub init_servers : ℕ → ℕ → ℕ → Mgr → Mgr
  init_servers i zero slots m = m
  init_servers i (suc k) slots m = init_servers (suc i) k slots (init_slots i 0 slots m)

  unfoldable pub connect_all : Mgr → Mgr
  unfolding init_servers init_slots
  connect_all m = init_servers 0 (pos_part m.ip_num) (pos_part m.conn_nums) m

  -- `ip_vec` is empty where the source has NULL or an empty vector.
  unfoldable pub init : Conf → List (List ℕ) → Mgr → Mgr × ℤ
  unfolding load_ips assign_ips
  init conf ip_vec m =
      let m1 = set_servers conf ip_vec m in
      let m2 = set_conn_nums conf m1 in
      if m1.ip_num ==ℤ pos 0
      then (record m1 { ip_num = ip_num_def }, negsuc 0)
      else elim conf.conf_port [
        | none ↦ (m2, negsuc 0)
        | some p ↦ (connect_all (set_strategy conf (record m2 { port = p })), pos 0)
      ]
