-- ===== src/ConnMgr/Backoff.antt =====
-- comm/plat_conn_mgr_ex.cpp: the connection strategy of `get_conn`, over many calls to a server that
-- cannot be reached.
use teaf.Prelude.{
  ℕ, ◌+◌, ◌-◌, ◌≤◌, ◌<◌, ◌≡◌, ◌⊎◌, inl, inr, refl, sym, subst, true, false, ◌&&◌, ◌==ℤ◌, List, [],
  ◌∷◌, arith, ltb, length, ℤ, pos, Bool-cases, All, ltb_ℤ, pos_part, neg_part,
}
use teaf.ConnMgr.{
  Mgr, is_empty, in_bounds, fini, connect, close_old, init_conn, backs_off, get_conn,
}

-- Calls of `get_conn` at the times given and for the slots given, none of which reaches the server.
abbrev pub attempts : ℕ → List (ℕ × ℕ) → Mgr → Mgr
attempts ip_idx [] m = m
attempts ip_idx ((now, index) ∷ calls) m =
    attempts ip_idx calls (get_conn now m index ip_idx false).0

-- The address is set, and the strategy is on, with the limit and the interval given.
pub record Strategy (limit interval ip_idx : ℕ) (m : Mgr) : Type 0 where
  pub in_use : m.use_strategy ≡ pos 1
  pub max_fails : m.max_fail_times ≡ pos limit
  pub recon : m.recon_interval ≡ pos interval
  pub address : is_empty 0 (m.ip ip_idx) ≡ false
  pub has_port : (m.port ==ℤ pos 0) ≡ false

-- One more attempt was made, and failed.
record Attempted (limit interval now ip_idx : ℕ) (m m' : Mgr) : Type 0 where
  strategy : Strategy limit interval ip_idx m'
  fails : m'.fail_times ip_idx ≡ m.fail_times ip_idx + 1
  last : m'.last_fail_time ip_idx ≡ now
  counted : length m'.alarms ≡ length m.alarms + 1

-- In the terms of the numbers alone.
allowed-le :
    (now start fails last limit interval : ℕ) (strategy max recon : ℤ)
    → strategy ≡ pos 1
    → max ≡ pos limit
    → recon ≡ pos interval
    → (strategy ==ℤ pos 1)
        && ltb_ℤ max (pos fails)
        && ltb (now + neg_part recon) (last + pos_part recon)
      ≡ false
    → now < start + interval
    → (fails ≤ limit) ⊎ (start ≤ last)
    → fails ≤ limit
allowed-le now start fails last limit interval strategy max recon u x r b h (inl few) = few
allowed-le now start fails last limit interval strategy max recon u x r b h (inr recent) =
    ground arith

module _ (now index ip_idx limit interval : ℕ) where
  connect-Attempted :
      (m : Mgr)
      → in_bounds index ip_idx ≡ true
      → Strategy limit interval ip_idx m
      → Attempted limit interval now ip_idx m (connect now m index ip_idx false).0
  unfolding connect fini
  connect-Attempted m inside h =
      rw (h.address, h.has_port, inside)
        (record {
          strategy = record {
            in_use = h.in_use;
            max_fails = h.max_fails;
            recon = h.recon;
            address = h.address;
            has_port = h.has_port;
          };
          fails = ground arith;
          last = ground arith;
          counted = omega arith;
        })

  -- The strategy lets a call attempt a connection, or the call changes nothing.
  get_conn-cases :
      (m : Mgr)
      → Strategy limit interval ip_idx m
      → ((get_conn now m index ip_idx false).0 ≡ m)
        ⊎ ((backs_off now m ip_idx ≡ false)
            × Attempted limit interval now ip_idx m (get_conn now m index ip_idx false).0)
  unfolding get_conn init_conn close_old
  get_conn-cases m h = elim (Bool-cases (in_bounds index ip_idx)) [
    | inr e ↦ rw e (inl refl)
    | inl e ↦ elim (Bool-cases (backs_off now m ip_idx)) [
      | inl b ↦ rw (e, b) (inl refl)
      | inr b ↦ elim (Bool-cases (m.conn ip_idx index)) [
        | inl c ↦ rw (e, b, c) (inl refl)
        | inr c ↦ rw (e, b, c) (inr (refl, connect-Attempted m e h))
      ]
    ]
  ]

abbrev pub Within : ℕ → ℕ → ℕ × ℕ → Type 0
Within start interval (now, index) = (start ≤ now) × (now < start + interval)

module _ (ip_idx limit interval start : ℕ) where
  attempts_lem :
      (calls : List (ℕ × ℕ)) (m : Mgr)
      → All (Within start interval) calls
      → Strategy limit interval ip_idx m
      → (m.fail_times ip_idx ≤ limit) ⊎ (start ≤ m.last_fail_time ip_idx)
      → length (attempts ip_idx calls m).alarms
        ≤ length m.alarms + (limit + 1 - m.fail_times ip_idx)
  attempts_lem [] m w h k = omega arith
  attempts_lem ((now, index) ∷ calls) m ((lo, hi), ws) h k =
      let m' = (get_conn now m index ip_idx false).0 in
      elim (get_conn-cases now index ip_idx limit interval m h) [
        | inl same ↦
            subst
              (λ (s : Mgr).
                length (attempts ip_idx calls s).alarms
                ≤ length m.alarms + (limit + 1 - m.fail_times ip_idx))
              (sym same) (attempts_lem calls m ws h k)
        | inr (b, t) ↦
            let few =
              allowed-le now start (m.fail_times ip_idx) (m.last_fail_time ip_idx) limit interval
                m.use_strategy m.max_fail_times m.recon_interval h.in_use h.max_fails h.recon b hi
                k in
            let rest = attempts_lem calls m' ws t.strategy (inr (rw t.last lo)) in
            omega (arith, rest, t.fails, t.counted, few)
      ]

  -- While a server cannot be reached, the strategy bounds the attempts to connect to it: of any
  -- calls of `get_conn` within one reconnection interval, at most `max_fail_times` + 1 try, less
  -- the failures counted before, where no more than `max_fail_times` were. Each attempt counts
  -- one STAT_CODE_CONN_FAIL, and the other calls none.
  pub attempts-le :
      (calls : List (ℕ × ℕ)) (m : Mgr)
      → All (Within start interval) calls
      → Strategy limit interval ip_idx m
      → m.fail_times ip_idx ≤ limit
      → length (attempts ip_idx calls m).alarms
        ≤ length m.alarms + (limit + 1 - m.fail_times ip_idx)
  attempts-le calls m w h few = attempts_lem calls m w h (inl few)
