-- ===== src/ConnMgr/Calls.antt =====
-- comm/plat_conn_mgr_ex.cpp: sending and receiving over a pooled connection. Each call chooses a
-- server and a slot, takes the slot's lock, and works on the socket; the part under the lock is a
-- function of its own.
use teaf.Prelude.{
  ℕ, zero, suc, ◌+◌, ◌-◌, Bool, true, false, not, ◌&&◌, ◌||◌, Option, none, some, List, [], ◌∷◌,
  ◌++◌, ltb, ◌==◌, if◌then◌else◌, length, take, drop, ℤ, pos, negsuc, leb_ℤ, ltb_ℤ, ◌==ℤ◌,
}
use teaf.ConnMgr.{
  Mgr, Alarm, recv_fail, send_fail, alarm, put₂, fini, init_conn, get_conn, get_ip_idx,
  get_ip_idx_of, get_index,
}

-- What `recv` returns: -n, so 0 or less, or bytes, of which there is one at least.
pub data Recv : Type 0 where
  failed : ℕ → Recv
  got : ℕ → List ℕ → Recv

abbrev pub ret_of : Recv → ℤ
ret_of (failed zero) = pos 0
ret_of (failed (suc n)) = negsuc n
ret_of (got b bs) = pos (suc (length bs))

-- A count of 0 or less is not above 0.
abbrev pub is_failure : ℤ → Bool
is_failure ret = leb_ℤ ret (pos 0)

-- `memcpy` into a buffer at an offset.
abbrev pub overlay : List ℕ → ℕ → List ℕ → List ℕ
overlay buf off bytes = take off buf ++ (bytes ++ drop (off + length bytes) buf)

-- The text that `strstr` looks at ends at the first 0.
pub until_nul : List ℕ → List ℕ
until_nul [] = []
until_nul (c ∷ cs) = if c == 0 then [] else c ∷ until_nul cs

pub is_prefix : List ℕ → List ℕ → Bool
is_prefix [] s = true
is_prefix (c ∷ cs) [] = false
is_prefix (c ∷ cs) (d ∷ ds) = c == d && is_prefix cs ds

pub contains : List ℕ → List ℕ → Bool
contains sep [] = is_prefix sep []
contains sep (c ∷ cs) = is_prefix sep (c ∷ cs) || contains sep cs

-- `strstr(buf, sep) != NULL`.
unfoldable pub strstr : List ℕ → List ℕ → Bool
unfolding contains is_prefix until_nul
strstr buf sep = contains sep (until_nul buf)

abbrev pub release : Mgr → ℕ → ℕ → Mgr
release m index ip_idx = record m { conn_use_flag = put₂ m.conn_use_flag ip_idx index 0 }

-- The clock reads `now`.
module _ (now : ℕ) where
  -- An error on the socket closes it, and is counted.
  abbrev pub drop_conn : Alarm → Mgr → ℕ → ℕ → Mgr
  drop_conn code m index ip_idx = alarm code (fini now m index ip_idx).0

  unfoldable pub send_locked : ℤ → Mgr → ℕ → ℕ → Mgr × ℤ
  send_locked sent m index ip_idx =
      if is_failure sent
      then (drop_conn send_fail m index ip_idx, sent)
      else (release m index ip_idx, sent)

  unfoldable pub recv_locked : Recv → Mgr → ℕ → ℕ → Mgr × ℤ
  recv_locked r m index ip_idx =
      if is_failure (ret_of r)
      then (drop_conn recv_fail m index ip_idx, ret_of r)
      else (release m index ip_idx, ret_of r)

  -- The first `recv` empties the socket; where it finds the connection closed, the connection is
  -- made anew. `timeout` is `errno == ETIME`.
  abbrev pub conn_lost : Recv → Bool → Bool
  conn_lost peek timeout = (ltb_ℤ (ret_of peek) (pos 0) && not timeout) || (ret_of peek ==ℤ pos 0)

  unfoldable pub refresh : Recv → Bool → Bool → Mgr → ℕ → ℕ → Mgr
  refresh peek timeout connects m index ip_idx =
      if conn_lost peek timeout
      then (init_conn now (fini now m index ip_idx).0 index ip_idx none (pos 0) connects).0
      else m

  unfoldable pub send_recv_locked : Recv → Bool → Bool → ℤ → Recv → Mgr → ℕ → ℕ → Mgr × ℤ
  unfolding recv_locked
  send_recv_locked peek timeout connects sent r m index ip_idx =
      let m' = refresh peek timeout connects m index ip_idx in
      if m'.conn ip_idx index
      then (if is_failure sent
          then (drop_conn send_fail m' index ip_idx, sent)
          else recv_locked r m' index ip_idx)
      else (m', negsuc 0)

  -- The loop that receives up to the separator: `rs` is what the calls of `recv` return (and -1
  -- behind its end), `len` what has been received of at most `room`.
  unfoldable pub recv_until : List ℕ → ℕ → List Recv → List ℕ → ℕ → Mgr → ℕ → ℕ → Mgr × (ℤ × List ℕ)
  recv_until sep room [] buf len m index ip_idx =
      if not (strstr buf sep) && ltb len room
      then (drop_conn recv_fail m index ip_idx, (negsuc 0, buf))
      else (release m index ip_idx, (pos len, buf))
  recv_until sep room (failed n ∷ rs) buf len m index ip_idx =
      if not (strstr buf sep) && ltb len room
      then (drop_conn recv_fail m index ip_idx, (ret_of (failed n), buf))
      else (release m index ip_idx, (pos len, buf))
  recv_until sep room (got b bs ∷ rs) buf len m index ip_idx =
      let bytes = take (room - len) (b ∷ bs) in
      let rest =
        recv_until sep room rs (overlay buf len bytes) (len + length bytes) m index ip_idx in
      if not (strstr buf sep) && ltb len room
      then rest
      else (release m index ip_idx, (pos len, buf))

  -- What a `recv` into `room` bytes from the start of the buffer leaves there.
  abbrev pub received : ℕ → List ℕ → Recv → List ℕ
  received room buf (failed n) = buf
  received room buf (got b bs) = overlay buf 0 (take room (b ∷ bs))

  unfoldable pub receive_ex :
      ℕ → List ℕ → Option (List ℕ) → Recv → List Recv → Mgr → ℕ → ℕ → Mgr × (ℤ × List ℕ)
  unfolding recv_until
  receive_ex room buf sep (failed n) rs m index ip_idx =
      (drop_conn recv_fail m index ip_idx, (ret_of (failed n), buf))
  receive_ex room buf sep (got b bs) rs m index ip_idx =
      let len = length (take room (b ∷ bs)) in
      let buf' = received room buf (got b bs) in
      elim sep [
        | none ↦ (release m index ip_idx, (pos len, buf'))
        | some s ↦ recv_until s room rs buf' len m index ip_idx
      ]

  unfoldable pub send_recv_ex_locked :
      ℕ
      → List ℕ
      → Option (List ℕ)
      → Recv
      → Bool
      → Bool
      → ℤ
      → Recv
      → List Recv
      → Mgr
      → ℕ
      → ℕ
      → Mgr × (ℤ × List ℕ)
  unfolding receive_ex
  send_recv_ex_locked room buf sep peek timeout connects sent r rs m index ip_idx =
      let m' = refresh peek timeout connects m index ip_idx in
      let buf' = received room buf peek in
      if m'.conn ip_idx index
      then (if is_failure sent
          then (drop_conn send_fail m' index ip_idx, (sent, buf'))
          else receive_ex room buf' sep r rs m' index ip_idx)
      else (m', (negsuc 0, buf'))

  -- The start that the calls share. Between `get_conn` and the lock other threads may do anything
  -- (`meanwhile`), so that the connection is tested once more.
  unfoldable pub with_conn {ℓ} :
      {A : Type ℓ} → Mgr → ℕ → ℕ → Bool → (Mgr → Mgr) → A → (Mgr → ℕ → ℕ → Mgr × A) → Mgr × A
  with_conn m index ip_idx connects meanwhile fail body =
      let (m1, ip_idx', alive) = get_conn now m index ip_idx connects in
      if alive
      then (let m2 = meanwhile m1 in
          if m2.conn ip_idx' index
          then body (record m2 { conn_use_flag = put₂ m2.conn_use_flag ip_idx' index 1 }) index
              ip_idx'
          else (m2, fail))
      else (m1, fail)

  -- `rand1` and `rand2` are what `rand` returns, in this order.
  module _ (rand1 rand2 : ℕ) (connects : Bool) (meanwhile : Mgr → Mgr) where
    unfoldable pub send : Mgr → ℕ → ℤ → Mgr × ℤ
    send m uin sent =
        let ip_idx = get_ip_idx m uin rand1 in
        let (m', index) = get_index m ip_idx uin rand2 in
        with_conn m' index ip_idx connects meanwhile (negsuc 0) (send_locked sent)

    unfoldable pub send_to : Mgr → List ℕ → ℤ → Mgr × ℤ
    send_to m addr sent =
        let ip_idx = get_ip_idx_of m addr rand1 in
        let (m', index) = get_index m ip_idx 0 rand2 in
        with_conn m' index ip_idx connects meanwhile (negsuc 0) (send_locked sent)

    unfoldable pub send_recv : Mgr → ℕ → Recv → Bool → Bool → ℤ → Recv → Mgr × ℤ
    send_recv m uin peek timeout reconnects sent r =
        let ip_idx = get_ip_idx m uin rand1 in
        let (m', index) = get_index m ip_idx uin rand2 in
        with_conn m' index ip_idx connects meanwhile (negsuc 0)
          (send_recv_locked peek timeout reconnects sent r)

    unfoldable pub recv : Mgr → ℕ → Recv → Mgr × ℤ
    recv m uin r =
        let ip_idx = get_ip_idx m uin rand1 in
        let (m', index) = get_index m ip_idx 0 rand2 in
        with_conn m' index ip_idx connects meanwhile (negsuc 0) (recv_locked r)

    unfoldable pub send_recv_ex :
        Mgr
        → ℕ
        → ℕ
        → List ℕ
        → Option (List ℕ)
        → Recv
        → Bool
        → Bool
        → ℤ
        → Recv
        → List Recv
        → Mgr × (ℤ × List ℕ)
    send_recv_ex m uin room buf sep peek timeout reconnects sent r rs =
        let ip_idx = get_ip_idx m uin rand1 in
        let (m', index) = get_index m ip_idx uin rand2 in
        with_conn m' index ip_idx connects meanwhile (negsuc 0, buf)
          (send_recv_ex_locked room buf sep peek timeout reconnects sent r rs)
