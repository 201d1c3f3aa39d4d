-- ===== src/Svc.antt =====
-- frm/isgw_mgr_svc.cpp: what a worker thread does with a request, `ISGWMgrSvc` (built without
-- MSG_LEN_SIZE, ISGW_USE_DLL and ISGW_USE_LUA). Messages are taken apart and put together outside
-- of the model: a request is its fields, and a reply the parts that are printed into it.
pub mod Owned
pub mod Forward
pub mod Limited
use teaf.Prelude.{
  ℕ, zero, suc, ◌+◌, ◌-◌, ◌*◌, Bool, true, false, not, ◌&&◌, ◌||◌, Option, none, some, List, [],
  ◌∷◌, ltb, ◌==◌, if◌then◌else◌, take, ℤ, pos, negsuc, ltb_ℤ, leb_ℤ, ◌==ℤ◌, to_u32, pos_part,
}
use teaf.Amount.{Cntrl, get_status, amount_inc}
use teaf.Stat.{Stat, ReprtInfo, add_stat, incre_stat}
use teaf.ConnMgr.{same}

abbrev pub max_inner_msg_len : ℕ
max_inner_msg_len = 8400

abbrev pub error_reject : ℤ
error_reject = negsuc 5

abbrev pub error_timeout_frm : ℤ
error_timeout_frm = negsuc 2

-- STAT_CODE_SVC_REJECT, _SVC_TIMEOUT and _SVC_FORWARD of comm/stat.h.
abbrev pub svc_reject : ℤ
svc_reject = pos 20246

abbrev pub svc_timeout : ℤ
svc_timeout = pos 20242

abbrev pub svc_forward : ℤ
svc_forward = pos 20248

-- The fields of a `QModeMsg`; the last seven are looked up in its map.
pub record Request : Type 0 where
  pub cmd : ℤ
  pub uin : ℕ
  pub rflag : ℤ
  pub body : List ℕ
  pub appname : List ℕ
  pub sockfd : ℕ
  pub sock_seq : ℕ
  pub msg_seq : ℕ
  pub prot : ℕ
  pub time : ℕ
  pub seqstr : List ℕ

-- `routes` are the names in `route_conn_mgr_map_` beside the `rtnum` configured routers, and
-- `free_msgs` counts the objects given back to the queue of `PPMsg`.
pub record Svc : Type 0 where
  pub control_flag : ℤ
  pub discard_flag : ℤ
  pub discard_time : ℤ
  pub rflag : ℤ
  pub rtnum : ℕ
  pub local_port : ℤ
  pub freq : Cntrl
  pub stat : Stat
  pub routes : List (List ℕ)
  pub free_msgs : ℕ

pub data Reply : Type 0 where
  -- An internal command's result and text.
  internal : ℤ → ℤ → List ℕ → Reply
  -- The result of the check, and the request's body.
  refused : ℤ → List ℕ → Reply
  -- What is passed through, and the route flag; the command, the result, the text and `_seqstr`.
  framed : Option (ℕ × ℕ × ℕ × ℕ × ℕ × ℤ) → ℤ → ℤ → List ℕ → List ℕ → Reply
  -- The handler's own bytes.
  raw : List ℕ → Reply

-- What a handler leaves: its result, the content of the buffer and the length it asks for.
pub record Handled : Type 0 where
  pub ret : ℤ
  pub ack_buf : List ℕ
  pub ack_len : ℤ

abbrev pub count_error : ℤ → Svc → Svc
count_error code s = record s { stat = incre_stat s.stat code (pos 1) }

-- `discard_time_*10000`, compared as `unsigned`.
abbrev pub discard_span : ℤ → ℕ
discard_span (pos n) = to_u32 (pos (n * 10000))
discard_span (negsuc n) = to_u32 (negsuc (suc n * 10000 - 1))

-- `span` is the age of the request in units of 0.1 ms.
abbrev pub check_age : Svc → ℕ → Svc × ℤ
check_age s span =
    if (s.discard_flag ==ℤ pos 1) && ltb (discard_span s.discard_time) span
    then (count_error svc_timeout s, error_timeout_frm)
    else (s, pos 0)

unfoldable pub check : Svc → Request → ℕ → ℕ → Svc × ℤ
check s q now span =
    if s.control_flag ==ℤ pos 1
    then (let (freq', status) = get_status s.freq q.cmd now in
        let s' = record s { freq = freq' } in
        if status ==ℤ pos 0 then check_age s' span else (count_error svc_reject s', error_reject))
    else check_age s span

pub data Dest : Type 0 where
  named : List ℕ → Dest
  router : ℕ → Dest

abbrev pub knows : List (List ℕ) → List ℕ → Bool
knows [] app = false
knows (r ∷ rs) app = same app r || knows rs app

-- The loop over the configured routers, `k` of them left from `idx` on, with the failures counted.
unfoldable pub forward_all : (Dest → ℤ) → ℕ → ℕ → Svc → Svc × ℕ
forward_all sends idx zero s = (s, 0)
forward_all sends idx (suc k) s =
    let (s', fails) =
      forward_all sends (suc idx) k
        (if ltb_ℤ (sends (router idx)) (pos 0) then count_error svc_forward s else s) in
    (s', (if ltb_ℤ (sends (router idx)) (pos 0) then 1 else 0) + fails)

abbrev pub is_empty : List ℕ → Bool
is_empty [] = true
is_empty (c ∷ cs) = false

abbrev pub add_route : List ℕ → Svc → Svc
add_route app s = if knows s.routes app then s else record s { routes = app ∷ s.routes }

-- `sends` is what the asynchronous connection manager of a destination returns.
unfoldable pub forward : (Dest → ℤ) → Svc → Request → Svc × ℤ
unfolding forward_all
forward sends s q =
    let app = take 32 q.appname in
    if is_empty app
    then (let (s', fails) = forward_all sends 0 s.rtnum s in
        (s', if (s.rtnum == 0) || (fails == s.rtnum) then negsuc 0 else pos 0))
    else (let s' = add_route app s in
        if ltb_ℤ (sends (named app)) (pos 0)
        then (count_error svc_forward s', negsuc 0)
        else (s', pos 0))

-- The request's own flag goes before the configured one.
abbrev pub route_flag : Svc → Request → ℤ
route_flag s q = if q.rflag ==ℤ pos 0 then s.rflag else q.rflag

-- A request for this server itself is not forwarded: its destination has no port configured, or
-- the one that this server listens to.
abbrev pub is_local : (List ℕ → Option ℤ) → ℤ → List ℕ → Bool
is_local ports local_port app = elim (ports app) [ none ↦ true | some p ↦ p ==ℤ local_port ]

unfoldable pub proc_flag : (List ℕ → Option ℤ) → Svc → Request → ℤ
proc_flag ports s q =
    let flag = route_flag s q in
    if not (flag ==ℤ pos 0) && not (is_empty q.appname) && is_local ports s.local_port q.appname
    then pos 0
    else flag

-- "forward msg failed"
abbrev pub forward_failed : List ℕ
forward_failed =
    102 ∷ 111 ∷ 114 ∷ 119 ∷ 97 ∷ 114 ∷ 100 ∷ 32 ∷ 109 ∷ 115 ∷ 103 ∷ 32 ∷ 102 ∷ 97 ∷ 105 ∷ 108 ∷ 101
    ∷ 100 ∷ []

-- The request is answered, or its object is given back.
pub data Result : Type 0 where
  answered : Reply → ℤ → Result
  recycled : Result

abbrev pub give_back : Svc → Svc
give_back s = record s { free_msgs = suc s.free_msgs }

abbrev pub passed_through : ℤ → Request → Option (ℕ × ℕ × ℕ × ℕ × ℕ × ℤ)
passed_through flag q =
    if not (flag ==ℤ pos 0) || not (q.sockfd == 0) || not (q.sock_seq == 0) || not (q.msg_seq == 0)
    then some (q.sockfd, q.sock_seq, q.msg_seq, q.prot, q.time, flag)
    else none

-- The reply that `ack_len` asks for.
unfoldable pub answer : ℤ → Svc → Request → Handled → Svc × Result
answer flag s q h =
    if ltb_ℤ h.ack_len (pos 0)
    then (give_back s, recycled)
    else if (h.ack_len ==ℤ pos 0) || (h.ack_len ==ℤ pos max_inner_msg_len)
    then (s, answered (framed (passed_through flag q) q.cmd h.ret h.ack_buf q.seqstr) h.ret)
    else (s, answered (raw (take (pos_part h.ack_len) (take max_inner_msg_len h.ack_buf))) h.ret)

abbrev pub report : Request → ReprtInfo
report q = record {
  cmd = to_u32 q.cmd;
  total_count = 1;
  failed_count = 0;
  total_span = 0;
  procss_span = 0;
}

abbrev pub count_amount : Request → ℤ → Svc → Svc
count_amount q ret' s =
    if s.control_flag ==ℤ pos 1 then record s { freq = amount_inc s.freq q.cmd ret' } else s

abbrev pub is_internal : Request → Bool
is_internal q = ltb_ℤ q.cmd (pos 100) && ltb_ℤ (pos 0) q.cmd

-- `handler` is `IsgwOperBase::process`, `inner` its `internal_process`, `ports` the port that is
-- configured for a server.
module _ {W : Type 0} (handler inner : W → Request → W × Handled) (sends : Dest → ℤ)
    (ports : List ℕ → Option ℤ) where
  unfoldable pub dispatch : Svc → W → Request → Svc × W × Handled
  unfolding forward
  dispatch s w q =
      let flag = proc_flag ports s q in
      if flag ==ℤ pos 0
      then (let (w', h) = handler w q in (s, w', h))
      else if flag ==ℤ pos 1
      then (let (s', ret') = forward sends s q in
          (
            s',
            w,
            if ret' ==ℤ pos 0
                then record { ret = ret'; ack_buf = []; ack_len = negsuc 0 }
                else record {
                  ret = ret';
                  ack_buf = forward_failed;
                  ack_len = pos max_inner_msg_len;
                },
          ))
      else (let (w', h) = handler w q in ((forward sends s q).0, w', h))

  unfoldable pub serve : Svc → W → Request → Svc × W × Result
  unfolding dispatch answer
  serve s w q =
      let (s1, w1, h) = dispatch s w q in
      let (s2, r) = answer (route_flag s q) s1 q h in (count_amount q h.ret s2, w1, r)

  unfoldable pub process_internal : Svc → W → Request → Svc × W × Result
  process_internal s w q =
      let (w', h) = inner w q in
      if ltb_ℤ h.ack_len (pos 0)
      then (give_back s, w', recycled)
      else (s, w', answered (internal q.cmd h.ret h.ack_buf) (pos 0))

  unfoldable pub process : Svc → W → Request → ℕ → ℕ → Svc × W × Result
  unfolding serve process_internal
  process s w q now span =
      let s0 = record s { stat = add_stat s.stat (report q) } in
      if is_internal q
      then process_internal s0 w q
      else (let (s1, ret') = check s0 q now span in
          if ret' ==ℤ pos 0 then serve s1 w q else (s1, w, answered (refused ret' q.body) ret'))
