-- ===== src/ConnMgr/Locked.antt =====
-- comm/plat_conn_mgr_ex.cpp: what a call leaves of the slot that it worked on.
use teaf.Prelude.{
  ℕ, zero, suc, ◌+◌, ◌-◌, ◌<◌, ◌≡◌, refl, ◌∙◌, Bool, true, false, not, ◌&&◌, ◌||◌, ◌==ℤ◌, Option,
  none, some, List, [], ◌∷◌, arith, ltb, ◌==◌, length, take, length-take, ℤ, pos, negsuc,
  Bool-cases, if_intro, inl, inr,
}
use teaf.ConnMgr.{
  Mgr, Alarm, conn_fail, is_empty, recv_fail, send_fail, alarm, put, put₂, in_bounds, fini,
  init_conn, connect, close_old,
}
use teaf.ConnMgr.Calls.{
  Recv, failed, got, ret_of, is_failure, strstr, release, drop_conn, send_locked, recv_locked,
  conn_lost, refresh, send_recv_locked, recv_until, receive_ex, send_recv_ex_locked, overlay,
  received,
}

-- The other slots and the number of servers are untouched.
abbrev pub Elsewhere : ℕ → ℕ → Mgr → Mgr → Type 0
Elsewhere ip_idx index m m' =
    ((i j : ℕ)
      → (i == ip_idx && j == index) ≡ false
      → (m'.conn i j ≡ m.conn i j) × (m'.conn_use_flag i j ≡ m.conn_use_flag i j))
    × (m'.ip_num ≡ m.ip_num)

-- The slot is free afterwards, it is open exactly if the call succeeded, and the other slots are
-- as they were.
pub record Released (ip_idx index : ℕ) (m m' : Mgr) (ret : ℤ) : Type 0 where
  pub free : m'.conn_use_flag ip_idx index ≡ 0
  pub alive : m'.conn ip_idx index ≡ not (is_failure ret)
  pub elsewhere : Elsewhere ip_idx index m m'

-- A slot without a connection is free.
record NullFree (ip_idx index : ℕ) (m : Mgr) : Type 0 where
  when_null : m.conn ip_idx index ≡ false → m.conn_use_flag ip_idx index ≡ 0

put₂_self {ℓ} : {A : Type ℓ} (f : ℕ → ℕ → A) (i j : ℕ) (v : A) → put₂ f i j v i j ≡ v
put₂_self f i j v = ground arith

put₂_other {ℓ} :
    {A : Type ℓ} (f : ℕ → ℕ → A) (i j : ℕ) (v : A) (a b : ℕ)
    → (a == i && b == j) ≡ false
    → put₂ f i j v a b ≡ f a b
put₂_other f i j v a b h = rw h refl

module _ (now index ip_idx : ℕ) (inside : in_bounds index ip_idx ≡ true) where
  slot-Elsewhere :
      (m : Mgr) (b : Bool)
      → Elsewhere ip_idx index m (record m {
        conn = put₂ m.conn ip_idx index b;
        conn_use_flag = put₂ m.conn_use_flag ip_idx index 0;
      })
  slot-Elsewhere m b = (
    λ i j e.
        (put₂_other m.conn ip_idx index b i j e, put₂_other m.conn_use_flag ip_idx index 0 i j e),
    refl,
  )

  drop_conn-Released :
      (code : Alarm) (m : Mgr) (ret : ℤ)
      → is_failure ret ≡ true
      → Released ip_idx index m (drop_conn now code m index ip_idx) ret
  unfolding fini
  drop_conn-Released code m ret h = rw inside (record {
    free = put₂_self m.conn_use_flag ip_idx index 0;
    alive = rw h (put₂_self m.conn ip_idx index false);
    elsewhere = slot-Elsewhere m false;
  })

  release-Released :
      (m : Mgr) (ret : ℤ)
      → m.conn ip_idx index ≡ true
      → is_failure ret ≡ false
      → Released ip_idx index m (release m index ip_idx) ret
  release-Released m ret c h = record {
    free = put₂_self m.conn_use_flag ip_idx index 0;
    alive = rw (h, c) refl;
    elsewhere = (λ i j e. (refl, put₂_other m.conn_use_flag ip_idx index 0 i j e), refl);
  }

  pub send_locked-Released :
      (m : Mgr) (sent : ℤ)
      → m.conn ip_idx index ≡ true
      → let (m', ret) = send_locked now sent m index ip_idx in Released ip_idx index m m' ret
  unfolding send_locked
  send_locked-Released m sent c = elim (Bool-cases (is_failure sent)) [
    | inl f ↦ rw f (drop_conn-Released send_fail m sent f)
    | inr f ↦ rw f (release-Released m sent c f)
  ]

  pub recv_locked-Released :
      (m : Mgr) (r : Recv)
      → m.conn ip_idx index ≡ true
      → let (m', ret) = recv_locked now r m index ip_idx in Released ip_idx index m m' ret
  unfolding recv_locked
  recv_locked-Released m r c = elim (Bool-cases (is_failure (ret_of r))) [
    | inl f ↦ rw f (drop_conn-Released recv_fail m (ret_of r) f)
    | inr f ↦ rw f (release-Released m (ret_of r) c f)
  ]

  fini-Elsewhere : (m : Mgr) → Elsewhere ip_idx index m (fini now m index ip_idx).0
  unfolding fini
  fini-Elsewhere m = rw inside (slot-Elsewhere m false)

  fini-NullFree : (m : Mgr) → NullFree ip_idx index (fini now m index ip_idx).0
  unfolding fini
  fini-NullFree m = rw inside (record { when_null = λ e. put₂_self m.conn_use_flag ip_idx index 0 })

  open-Elsewhere :
      (m : Mgr) → Elsewhere ip_idx index m (record m { conn = put₂ m.conn ip_idx index true })
  open-Elsewhere m = (λ i j e. (put₂_other m.conn ip_idx index true i j e, refl), refl)

  Elsewhere-trans :
      (a b c : Mgr)
      → Elsewhere ip_idx index a b
      → Elsewhere ip_idx index b c
      → Elsewhere ip_idx index a c
  Elsewhere-trans a b c (f, p) (g, q) =
      (λ i j e. ((g i j e).0 ∙ (f i j e).0, (g i j e).1 ∙ (f i j e).1), q ∙ p)

  Elsewhere-refl : (m : Mgr) → Elsewhere ip_idx index m m
  Elsewhere-refl m = (λ i j e. (refl, refl), refl)

  connect-Elsewhere :
      (m : Mgr) (connects : Bool) → Elsewhere ip_idx index m (connect now m index ip_idx connects).0
  unfolding connect
  connect-Elsewhere m connects =
      let opened = record m { conn = put₂ m.conn ip_idx index true } in
      if_intro (λ (r : Mgr × ℤ). Elsewhere ip_idx index m r.0) _ (Elsewhere-refl m)
        (if_intro (λ (r : Mgr × ℤ). Elsewhere ip_idx index m r.0) connects (slot-Elsewhere m true)
          (Elsewhere-trans m opened (fini now opened index ip_idx).0 (open-Elsewhere m)
            (fini-Elsewhere opened)))

  alarm-NullFree :
      (code : Alarm) (m : Mgr) → NullFree ip_idx index m → NullFree ip_idx index (alarm code m)
  alarm-NullFree code m h = record { when_null = h.when_null }

  set_open-NullFree :
      (m : Mgr)
      → NullFree ip_idx index (record m {
        conn = put₂ m.conn ip_idx index true;
        fail_times = put m.fail_times ip_idx 0;
        conn_use_flag = put₂ m.conn_use_flag ip_idx index 0;
      })
  set_open-NullFree m = record { when_null = λ e. put₂_self m.conn_use_flag ip_idx index 0 }

  connect-NullFree :
      (m : Mgr) (connects : Bool)
      → NullFree ip_idx index m
      → NullFree ip_idx index (connect now m index ip_idx connects).0
  unfolding connect
  connect-NullFree m connects h =
      let opened = record m { conn = put₂ m.conn ip_idx index true } in
      let shut = (fini now opened index ip_idx).0 in
      if_intro (λ (r : Mgr × ℤ). NullFree ip_idx index r.0)
        (is_empty now (m.ip ip_idx) || (m.port ==ℤ pos 0)) {x = (alarm conn_fail m, negsuc 1)}
        (alarm-NullFree conn_fail m h)
        (if_intro (λ (r : Mgr × ℤ). NullFree ip_idx index r.0) connects
          {y = (alarm conn_fail shut, negsuc 0)} (set_open-NullFree m)
          (alarm-NullFree conn_fail shut (fini-NullFree opened)))

  -- A slot that is NULL in the end is free.
  record Fresh (m m' : Mgr) : Type 0 where
    elsewhere : Elsewhere ip_idx index m m'
    null_free : NullFree ip_idx index m'

  init_conn-Fresh :
      (m : Mgr) (connects : Bool)
      → Fresh m (init_conn now (fini now m index ip_idx).0 index ip_idx none (pos 0) connects).0
  unfolding init_conn close_old
  init_conn-Fresh m connects =
      let m1 = (fini now m index ip_idx).0 in
      let m2 = close_old now m1 index ip_idx in
      let after : Fresh m m2 =
        if_intro (Fresh m) (m1.conn ip_idx index)
          (record {
            elsewhere =
                Elsewhere-trans m m1 (fini now m1 index ip_idx).0 (fini-Elsewhere m)
                  (fini-Elsewhere m1);
            null_free = fini-NullFree m1;
          })
          (record { elsewhere = fini-Elsewhere m; null_free = fini-NullFree m }) in
      rw inside (record {
        elsewhere =
            Elsewhere-trans m m2 (connect now m2 index ip_idx connects).0 after.elsewhere
              (connect-Elsewhere m2 connects);
        null_free = connect-NullFree m2 connects after.null_free;
      })

  refresh-Fresh :
      (peek : Recv) (timeout connects : Bool) (m : Mgr)
      → m.conn ip_idx index ≡ true
      → Fresh m (refresh now peek timeout connects m index ip_idx)
  unfolding refresh
  refresh-Fresh peek timeout connects m c =
      if_intro (Fresh m) (conn_lost now peek timeout) (init_conn-Fresh m connects) (record {
        elsewhere = Elsewhere-refl m;
        null_free = record { when_null = λ e. absurd (ground arith) };
      })

  after-Released :
      (m m' m'' : Mgr) (ret : ℤ)
      → Fresh m m'
      → Released ip_idx index m' m'' ret
      → Released ip_idx index m m'' ret
  after-Released m m' m'' ret f r = record {
    free = r.free;
    alive = r.alive;
    elsewhere = Elsewhere-trans m m' m'' f.elsewhere r.elsewhere;
  }

  lost-Released :
      (m m' : Mgr) (ret : ℤ)
      → Fresh m m'
      → m'.conn ip_idx index ≡ false
      → is_failure ret ≡ true
      → Released ip_idx index m m' ret
  lost-Released m m' ret f c e = record {
    free = f.null_free.when_null c;
    alive = rw (e, c) refl;
    elsewhere = f.elsewhere;
  }

  pub send_recv_locked-Released :
      (peek : Recv) (timeout connects : Bool) (sent : ℤ) (r : Recv) (m : Mgr)
      → m.conn ip_idx index ≡ true
      → let (m', ret) = send_recv_locked now peek timeout connects sent r m index ip_idx in
        Released ip_idx index m m' ret
  unfolding send_recv_locked
  send_recv_locked-Released peek timeout connects sent r m c =
      let m' = refresh now peek timeout connects m index ip_idx in
      let f = refresh-Fresh peek timeout connects m c in
      elim (Bool-cases (m'.conn ip_idx index)) [
        | inr lost ↦ rw lost (lost-Released m m' (negsuc 0) f lost (ground arith))
        | inl live ↦ elim (Bool-cases (is_failure sent)) [
          | inl e ↦
              rw (live, e)
                (after-Released m m' (drop_conn now send_fail m' index ip_idx) sent f
                  (drop_conn-Released send_fail m' sent e))
          | inr e ↦ rw (live, e) (after-Released m m' _ _ f (recv_locked-Released m' r live))
        ]
      ]

  failed_lem : (n : ℕ) → is_failure (ret_of (failed n)) ≡ true
  failed_lem zero = refl
  failed_lem (suc n) = ground arith

  recv_until-Released :
      (sep : List ℕ) (room : ℕ) (rs : List Recv) (buf : List ℕ) (len : ℕ) (m : Mgr)
      → m.conn ip_idx index ≡ true
      → 0 < len
      → let (m', (ret, out)) = recv_until now sep room rs buf len m index ip_idx in
        Released ip_idx index m m' ret
  unfolding recv_until
  recv_until-Released sep room [] buf len m c some_bytes =
      elim (Bool-cases (not (strstr buf sep) && ltb len room)) [
        | inl more ↦ rw more (drop_conn-Released recv_fail m (negsuc 0) (ground arith))
        | inr done ↦ rw done (release-Released m (pos len) c (ground arith))
      ]
  recv_until-Released sep room (failed n ∷ rs) buf len m c some_bytes =
      elim (Bool-cases (not (strstr buf sep) && ltb len room)) [
        | inl more ↦ rw more (drop_conn-Released recv_fail m (ret_of (failed n)) (failed_lem n))
        | inr done ↦ rw done (release-Released m (pos len) c (ground arith))
      ]
  recv_until-Released sep room (got b bs ∷ rs) buf len m c some_bytes =
      let bytes = take (room - len) (b ∷ bs) in
      let rest =
        recv_until-Released sep room rs (overlay buf len bytes) (len + length bytes) m c
          (omega arith) in
      elim (Bool-cases (not (strstr buf sep) && ltb len room)) [
        | inl more ↦ rw more rest
        | inr done ↦ rw done (release-Released m (pos len) c (ground arith))
      ]

  some_received :
      (room b : ℕ) (bs : List ℕ) → 0 < room → is_failure (pos (length (take room (b ∷ bs)))) ≡ false
  some_received zero b bs h = elim h [ ]
  some_received (suc room) b bs h = ground arith

  receive_ex-Released :
      (room : ℕ) (buf : List ℕ) (sep : Option (List ℕ)) (r : Recv) (rs : List Recv) (m : Mgr)
      → m.conn ip_idx index ≡ true
      → 0 < room
      → let (m', (ret, out)) = receive_ex now room buf sep r rs m index ip_idx in
        Released ip_idx index m m' ret
  unfolding receive_ex
  receive_ex-Released room buf sep (failed n) rs m c some_room =
      drop_conn-Released recv_fail m (ret_of (failed n)) (failed_lem n)
  receive_ex-Released room buf none (got b bs) rs m c some_room =
      release-Released m (pos (length (take room (b ∷ bs)))) c (some_received room b bs some_room)
  receive_ex-Released room buf (some s) (got b bs) rs m c some_room =
      recv_until-Released s room rs (received now room buf (got b bs)) (length (take room (b ∷ bs)))
        m c (omega (arith, length-take room (b ∷ bs)))

  pub send_recv_ex_locked-Released :
      (room : ℕ) (buf : List ℕ) (sep : Option (List ℕ)) (peek : Recv) (timeout connects : Bool)
      (sent : ℤ) (r : Recv) (rs : List Recv) (m : Mgr)
      → m.conn ip_idx index ≡ true
      → 0 < room
      → let (m', (ret, out)) =
          send_recv_ex_locked now room buf sep peek timeout connects sent r rs m index ip_idx in
        Released ip_idx index m m' ret
  unfolding send_recv_ex_locked
  send_recv_ex_locked-Released room buf sep peek timeout connects sent r rs m c some_room =
      let m' = refresh now peek timeout connects m index ip_idx in
      let buf' = received now room buf peek in
      let f = refresh-Fresh peek timeout connects m c in
      elim (Bool-cases (m'.conn ip_idx index)) [
        | inr lost ↦ rw lost (lost-Released m m' (negsuc 0) f lost (ground arith))
        | inl live ↦ elim (Bool-cases (is_failure sent)) [
          | inl e ↦
              rw (live, e)
                (after-Released m m' (drop_conn now send_fail m' index ip_idx) sent f
                  (drop_conn-Released send_fail m' sent e))
          | inr e ↦
              rw (live, e)
                (after-Released m m' _ _ f
                  (receive_ex-Released room buf' sep r rs m' live some_room))
        ]
      ]
