-- ===== src/ConnMgr.antt =====
-- comm/plat_conn_mgr_ex.{h,cpp}: the pool of connections to back-end servers, `PlatConnMgrEx`.
-- A socket is open or NULL; what the network, the clock and `rand` answer are arguments.
pub mod Calls
pub mod Choice
pub mod Locked
pub mod Release
pub mod Init
pub mod Backoff
use teaf.Prelude.{
  ℕ, zero, suc, ◌+◌, ◌%◌, Bool, true, false, not, ◌&&◌, ◌||◌, Option, none, some, List, [], ◌∷◌,
  ltb, leb, ◌==◌, if◌then◌else◌, ℤ, pos, negsuc, pos_part, neg_part, ltb_ℤ, ◌==ℤ◌, to_u32,
}

abbrev pub ip_num_max : ℕ
ip_num_max = 20

abbrev pub pool_conn_max : ℕ
pool_conn_max = 100

-- STAT_CODE_RECV_FAIL, _CONN_FAIL, _SEND_FAIL and _TCP_CONN_RUNOUT of comm/stat.h.
pub data Alarm : Type 0 where
  recv_fail conn_fail send_fail tcp_conn_runout : Alarm

-- `conn i j` is whether `conn_[i][j]` is not NULL. `alarms` are the calls of `incre_stat`, the last
-- one first.
pub record Mgr : Type 0 where
  pub conn : ℕ → ℕ → Bool
  pub conn_use_flag : ℕ → ℕ → ℕ
  pub fail_times : ℕ → ℕ
  pub last_fail_time : ℕ → ℕ
  pub ip : ℕ → List ℕ
  pub port : ℤ
  pub ip_num : ℤ
  pub conn_nums : ℤ
  pub use_strategy : ℤ
  pub max_fail_times : ℤ
  pub recon_interval : ℤ
  pub alarms : List Alarm

-- `a[i] = v` and `a[i][j] = v`.
abbrev pub put {ℓ} : {A : Type ℓ} → (ℕ → A) → ℕ → A → ℕ → A
put f i v a = if a == i then v else f a

abbrev pub put₂ {ℓ} : {A : Type ℓ} → (ℕ → ℕ → A) → ℕ → ℕ → A → ℕ → ℕ → A
put₂ f i j v a b = if a == i && b == j then v else f a b

abbrev pub alarm : Alarm → Mgr → Mgr
alarm code m = record m { alarms = code ∷ m.alarms }

-- The test on its arguments that each operation on a slot makes. An `int` that is negative is
-- above both limits as the number that it was converted from.
abbrev pub in_bounds : ℕ → ℕ → Bool
in_bounds index ip_idx = ltb index pool_conn_max && ltb ip_idx ip_num_max

-- The clock reads `now`.
module _ (now : ℕ) where
  unfoldable pub fini : Mgr → ℕ → ℕ → Mgr × ℤ
  fini m index ip_idx =
      if in_bounds index ip_idx
      then (
        record m {
          fail_times = put m.fail_times ip_idx (m.fail_times ip_idx + 1);
          last_fail_time = put m.last_fail_time ip_idx now;
          conn = put₂ m.conn ip_idx index false;
          conn_use_flag = put₂ m.conn_use_flag ip_idx index 0;
        },
        pos 0,
      )
      else (m, negsuc 0)

  abbrev pub is_empty : List ℕ → Bool
  is_empty [] = true
  is_empty (c ∷ cs) = false

  abbrev pub with_address : Mgr → ℕ → Option (List ℕ) → ℤ → Mgr
  with_address m ip_idx ip' port' = record m {
    ip = elim ip' [ none ↦ m.ip | some a ↦ put m.ip ip_idx a ];
    port = if port' ==ℤ pos 0 then m.port else port';
  }

  -- The slot is NULL here. `connects` is whether `connector.connect` returns 0.
  unfoldable pub connect : Mgr → ℕ → ℕ → Bool → Mgr × ℤ
  connect m index ip_idx connects =
      if is_empty (m.ip ip_idx) || (m.port ==ℤ pos 0)
      then (alarm conn_fail m, negsuc 1)
      else (let m' = record m { conn = put₂ m.conn ip_idx index true } in
          if connects
          then (
            record m' {
              fail_times = put m'.fail_times ip_idx 0;
              conn_use_flag = put₂ m'.conn_use_flag ip_idx index 0;
            },
            pos 0,
          )
          else (alarm conn_fail (fini m' index ip_idx).0, negsuc 0))

  unfoldable pub close_old : Mgr → ℕ → ℕ → Mgr
  close_old m index ip_idx = if m.conn ip_idx index then (fini m index ip_idx).0 else m

  unfoldable pub init_conn : Mgr → ℕ → ℕ → Option (List ℕ) → ℤ → Bool → Mgr × ℤ
  init_conn m index ip_idx ip' port' connects =
      if in_bounds index ip_idx
      then connect (close_old (with_address m ip_idx ip' port') index ip_idx) index ip_idx connects
      else (alarm conn_fail m, negsuc 0)

  -- The connection strategy: the server failed too often, and not long enough ago.
  abbrev pub backs_off : Mgr → ℕ → Bool
  backs_off m ip_idx =
      (m.use_strategy ==ℤ pos 1)
      && ltb_ℤ m.max_fail_times (pos (m.fail_times ip_idx))
      && ltb (now + neg_part m.recon_interval) (m.last_fail_time ip_idx + pos_part m.recon_interval)

  -- The new state, the server's index, which may change, and whether the connection is not NULL.
  unfoldable pub get_conn : Mgr → ℕ → ℕ → Bool → Mgr × ℕ × Bool
  get_conn m index ip_idx connects =
      if in_bounds index ip_idx
      then (if backs_off m ip_idx
          then (let next = (ip_idx + 1) % (pos_part m.ip_num + neg_part m.ip_num) in
              (m, next, m.conn next index))
          else if m.conn ip_idx index
          then (m, ip_idx, true)
          else (let m' = (init_conn m index ip_idx none (pos 0) connects).0 in
              (m', ip_idx, m'.conn ip_idx index)))
      else (m, ip_idx, false)

-- An `unsigned`, and a number that `rand` returned, modulo an `int`.
abbrev pub mod_unsigned : ℕ → ℤ → ℕ
mod_unsigned x n = x % to_u32 n

abbrev pub mod_int : ℕ → ℤ → ℕ
mod_int x n = x % (pos_part n + neg_part n)

unfoldable pub get_ip_idx : Mgr → ℕ → ℕ → ℕ
get_ip_idx m uin rand = if uin == 0 then mod_int rand m.ip_num else mod_unsigned uin m.ip_num

-- `ip.compare(a) == 0`.
pub same : List ℕ → List ℕ → Bool
same [] [] = true
same (a ∷ s) (b ∷ t) = a == b && same s t
same _ _ = false

-- The loop over the addresses, `k` of them left from `i` on.
pub find_ip : (ℕ → List ℕ) → List ℕ → ℕ → ℕ → Option ℕ
find_ip ips addr i zero = none
find_ip ips addr i (suc k) =
    let rest = find_ip ips addr (suc i) k in if same addr (ips i) then some i else rest

unfoldable pub get_ip_idx_of : Mgr → List ℕ → ℕ → ℕ
unfolding find_ip same
get_ip_idx_of m addr rand = elim (find_ip m.ip addr 0 (pos_part m.ip_num)) [
  | some i ↦ i
  | none ↦ mod_int rand m.ip_num
]

-- The loop over the flags of `get_index`, `k` connections left from `i` on.
pub find_free : (ℕ → ℕ) → ℕ → ℕ → Option ℕ
find_free flags i zero = none
find_free flags i (suc k) =
    let rest = find_free flags (suc i) k in if flags i == 0 then some i else rest

unfoldable pub get_index : Mgr → ℕ → ℕ → ℕ → Mgr × ℕ
unfolding find_free
get_index m ip_idx uin rand =
    let flags = m.conn_use_flag (mod_int ip_idx m.ip_num) in
    let index = mod_int rand m.conn_nums in
    if uin == 0
    then (if flags index == 0 then (m, index) else elim (find_free flags 0 (pos_part m.conn_nums)) [
      | some i ↦ (m, i)
      | none ↦ (if ltb_ℤ m.conn_nums (pos 0) then m else alarm tcp_conn_runout m, index)
    ])
    else (m, mod_unsigned uin m.conn_nums)
