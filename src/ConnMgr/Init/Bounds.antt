-- ===== src/ConnMgr/Init/Bounds.antt =====
-- comm/plat_conn_mgr_ex.cpp: the ranges of the numbers of servers and slots after `init`, and the
-- flags.
use teaf.Prelude.{
  ℕ, zero, suc, ◌+◌, ◌≤◌, ◌≡◌, ◌≢◌, ◌∙◌, refl, Bool, true, false, ◌||◌, Option, none, some, List,
  [], ◌∷◌, arith, ◌==ℤ◌, ℤ, pos, negsuc, leb_ℤ, pos_part, Bool-cases, Option-cases, if_intro, inl,
  inr, sym, subst,
}
use teaf.ConnMgr.{
  Mgr, conn_fail, alarm, is_empty, put, put₂, in_bounds, fini, connect, close_old, init_conn,
  ip_num_max, pool_conn_max,
}
use teaf.ConnMgr.Init.{
  Conf, limited, load_ips, set_servers, set_conn_nums, set_strategy, init_slots, init_servers,
  connect_all, init, ip_num_def, pool_conn_def, to_ip,
}

-- The number of servers and of slots are the same.
record Limits (m m' : Mgr) : Type 0 where
  ips : m'.ip_num ≡ m.ip_num
  conns : m'.conn_nums ≡ m.conn_nums

Limits-trans : (a b c : Mgr) → Limits a b → Limits b c → Limits a c
Limits-trans a b c f g = record { ips = g.ips ∙ f.ips; conns = g.conns ∙ f.conns }

module _ (now index ip_idx : ℕ) where
  fini-Limits : (m : Mgr) → Limits m (fini now m index ip_idx).0
  unfolding fini
  fini-Limits m =
      if_intro (λ (r : Mgr × ℤ). Limits m r.0) (in_bounds index ip_idx) {y = (m, negsuc 0)}
        (record { ips = refl; conns = refl }) (record { ips = refl; conns = refl })

  connect-Limits : (m : Mgr) (connects : Bool) → Limits m (connect now m index ip_idx connects).0
  unfolding connect
  connect-Limits m connects =
      let opened = record m { conn = put₂ m.conn ip_idx index true } in
      let shut = (fini now opened index ip_idx).0 in
      let f = fini-Limits opened in
      if_intro (λ (r : Mgr × ℤ). Limits m r.0) (is_empty now (m.ip ip_idx) || (m.port ==ℤ pos 0))
        {x = (alarm conn_fail m, negsuc 1)} (record { ips = refl; conns = refl })
        (if_intro (λ (r : Mgr × ℤ). Limits m r.0) connects {y = (alarm conn_fail shut, negsuc 0)}
          (record { ips = refl; conns = refl }) (record { ips = f.ips; conns = f.conns }))

  init_conn-Limits :
      (m : Mgr) (connects : Bool) → Limits m (init_conn now m index ip_idx none (pos 0) connects).0
  unfolding init_conn close_old
  init_conn-Limits m connects =
      let old = close_old now m index ip_idx in
      let closed : Limits m old =
        if_intro (Limits m) (m.conn ip_idx index) (fini-Limits m)
          (record { ips = refl; conns = refl }) in
      if_intro (λ (r : Mgr × ℤ). Limits m r.0) (in_bounds index ip_idx)
        {y = (alarm conn_fail m, negsuc 0)}
        (Limits-trans m old _ closed (connect-Limits old connects))
        (record { ips = refl; conns = refl })

module _ (now : ℕ) (connects : ℕ → ℕ → Bool) where
  init_slots-Limits : (i j k : ℕ) (m : Mgr) → Limits m (init_slots now connects i j k m)
  unfolding init_slots
  init_slots-Limits i j zero m = record { ips = refl; conns = refl }
  init_slots-Limits i j (suc k) m =
      Limits-trans m _ _ (init_conn-Limits now j i m (connects i j))
        (init_slots-Limits i (suc j) k _)

  init_servers-Limits : (i k slots : ℕ) (m : Mgr) → Limits m (init_servers now connects i k slots m)
  unfolding init_servers
  init_servers-Limits i zero slots m = record { ips = refl; conns = refl }
  init_servers-Limits i (suc k) slots m =
      Limits-trans m _ _ (init_slots-Limits i 0 slots m) (init_servers-Limits (suc i) k slots _)

limited-AtMost :
    (o : Option ℤ) (limit : ℕ) (above missing : ℤ)
    → leb_ℤ above (pos limit) ≡ true
    → leb_ℤ missing (pos limit) ≡ true
    → leb_ℤ (limited o (pos limit) above missing) (pos limit) ≡ true
limited-AtMost none limit above missing ha hm = hm
limited-AtMost (some x) limit above missing ha hm = ground arith

load_ips-AtMost :
    (conf : ℕ → Option (List ℕ)) (i k : ℕ) (m : Mgr)
    → i + k ≤ ip_num_max
    → leb_ℤ m.ip_num (pos ip_num_max) ≡ true
    → leb_ℤ (load_ips conf i k m).ip_num (pos ip_num_max) ≡ true
unfolding load_ips
load_ips-AtMost conf i zero m b h = h
load_ips-AtMost conf i (suc k) m b h = elim (Option-cases (conf i)) [
  | inl e ↦ rw (load_ips, e) (ground arith)
  | inr (a, e) ↦
      rw (load_ips, e)
        (load_ips-AtMost conf (suc i) k (record m { ip = put m.ip i (to_ip a) }) (omega arith) h)
]

pos_part-le : (x : ℤ) (n : ℕ) → leb_ℤ x (pos n) ≡ true → pos_part x ≤ n
pos_part-le (pos x) n h = ground arith
pos_part-le (negsuc x) n h = omega arith

set_servers-AtMost :
    (conf : Conf) (ips : List (List ℕ)) (m : Mgr)
    → leb_ℤ (set_servers conf ips m).ip_num (pos ip_num_max) ≡ true
set_servers-AtMost conf [] m =
    let n = limited conf.conf_ip_num (pos ip_num_max) ip_num_def ip_num_def in
    let h = limited-AtMost conf.conf_ip_num ip_num_max ip_num_def ip_num_def refl refl in
    load_ips-AtMost conf.conf_ip 0 (pos_part n) (record m { ip_num = n })
      (omega (arith, pos_part-le n _ h)) h
set_servers-AtMost conf (a ∷ as') m = ground arith

set_strategy-Limits : (conf : Conf) (m : Mgr) → Limits m (set_strategy conf m)
set_strategy-Limits conf m = elim (Option-cases conf.conf_use_strategy) [
  | inl e ↦ rw e (record { ips = refl; conns = refl })
  | inr (x, e) ↦ rw e (record { ips = refl; conns = refl })
]

negsuc-ne-pos : {a b : ℕ} → negsuc a ≢ pos b
negsuc-ne-pos e = ground arith

-- Where `init` returns 0, the numbers of servers and of slots are within the arrays, and there is
-- some server: at most IP_NUM_MAX servers, a number that is not 0, and at most POOL_CONN_MAX slots.
pub init-bounds :
    (now : ℕ) (connects : ℕ → ℕ → Bool) (conf : Conf) (ips : List (List ℕ)) (m : Mgr)
    → (init now connects conf ips m).1 ≡ pos 0
    → let m' = (init now connects conf ips m).0 in
      (leb_ℤ m'.ip_num (pos ip_num_max) ≡ true)
      × ((m'.ip_num ==ℤ pos 0) ≡ false)
      × (leb_ℤ m'.conn_nums (pos pool_conn_max) ≡ true)
unfolding init connect_all
init-bounds now connects conf ips m ok =
    let m1 = set_servers conf ips m in
    let m2 = set_conn_nums conf m1 in
    elim (Bool-cases (m1.ip_num ==ℤ pos 0)) [
      | inl e ↦ absurd (negsuc-ne-pos (rw (init, e) at ok))
      | inr e ↦ elim (Option-cases conf.conf_port) [
        | inl f ↦ absurd (negsuc-ne-pos (rw (init, e, f) at ok))
        | inr (p, f) ↦
            let s = set_strategy conf (record m2 { port = p }) in
            let l : Limits (record m2 { port = p }) (connect_all now connects s) =
              Limits-trans (record m2 { port = p }) s _ (set_strategy-Limits conf _)
                (init_servers-Limits now connects 0 (pos_part s.ip_num) (pos_part s.conn_nums) s) in
            rw (init, e, f)
              (
                subst (λ x. leb_ℤ x (pos ip_num_max) ≡ true) (sym l.ips)
                    (set_servers-AtMost conf ips m),
                subst (λ x. (x ==ℤ pos 0) ≡ false) (sym l.ips) e,
                subst (λ x. leb_ℤ x (pos pool_conn_max) ≡ true) (sym l.conns)
                    (limited-AtMost conf.conf_conn_nums pool_conn_max (pos pool_conn_max)
                      pool_conn_def refl refl),
              )
      ]
    ]
