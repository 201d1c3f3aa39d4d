-- ===== src/Ack.antt =====
-- frm/isgw_ack.cpp and frm/ace_sock_hdr_base.cpp: the queue of answers, `ISGWAck`, and how an answer
-- gets to its connection (built without ISGW_ACK_USE_TIMER and MSG_LEN_SIZE).
pub mod Drain
pub mod Owner
pub mod Late
use teaf.Prelude.{
  ℕ, zero, suc, ◌+◌, ◌*◌, Bool, true, false, ◌||◌, Option, none, some, List, [], ◌∷◌, ◌++◌, ltb,
  ◌==◌, if◌then◌else◌, length, take, ℤ, pos, negsuc, ltb_ℤ, to_u32,
}
use teaf.Stat.{Stat, ReprtInfo, add_stat, incre_stat}
use teaf.ConnMgr.{put}
use teaf.ConnMgr.Calls.{until_nul}
use teaf.Svc.{max_inner_msg_len}

-- STAT_CODE_PUT_ACK_TOOLATE, _ACK_NOOWNER, _ACK_DISCONN, _ACK_BLOCK, _ACK_ABNOR, _ACK_UNCOMP.
abbrev pub put_ack_toolate : ℤ
put_ack_toolate = pos 20232

abbrev pub ack_noowner : ℤ
ack_noowner = pos 20251

abbrev pub ack_disconn : ℤ
ack_disconn = pos 20252

abbrev pub ack_block : ℤ
ack_block = pos 20253

abbrev pub ack_abnor : ℤ
ack_abnor = pos 20254

abbrev pub ack_uncomp : ℤ
ack_uncomp = pos 20255

-- A `PPMsg` with an answer. `is_udp` is `protocol == PROT_UDP_IP`.
pub record Ack : Type 0 where
  pub cmd : ℕ
  pub ret : ℤ
  pub is_udp : Bool
  pub sock_fd : ℕ
  pub sock_seq : ℕ
  pub sock_ip : ℕ
  pub sock_port : ℕ
  pub msg : List ℕ
  pub msg_len : ℕ
  pub procs_span : ℕ

-- Bytes handed to the connection `seq` on descriptor `fd`.
pub record Delivery : Type 0 where
  pub fd : ℕ
  pub seq : ℕ
  pub bytes : List ℕ

-- `conns` is the sequence number of the `AceSockHdrBase` that the reactor finds for a descriptor.
-- `sent` and `sent_udp` are what has been handed to the sockets, the last one first, and `free_msgs`
-- counts the objects given back.
pub record Acks : Type 0 where
  pub msg_queue : List Ack
  pub conns : ℕ → Option ℕ
  pub stat : Stat
  pub sent : List Delivery
  pub sent_udp : List (ℕ × ℕ × List ℕ)
  pub free_msgs : ℕ

abbrev pub count_error : ℤ → Acks → Acks
count_error code s = record s { stat = incre_stat s.stat code (pos 1) }

-- `time_diff` is the age of the request in units of 0.1 ms; ALARM_TIMEOUT is 1.
unfoldable pub putq : Acks → Ack → ℕ → Acks
putq s ack time_diff =
    let s' = record s { msg_queue = s.msg_queue ++ (ack ∷ []) } in
    if ltb (1 * 10000) time_diff then count_error put_ack_toolate s' else s'

-- `total_span` is the age of the request when it is answered.
unfoldable pub report : Ack → ℕ → ReprtInfo
report ack total_span = record {
  cmd = ack.cmd;
  total_count = 0;
  failed_count = if ltb_ℤ ack.ret (pos 0) then 1 else 0;
  total_span = total_span;
  procss_span = ack.procs_span;
}

-- What `peer().send_n` returns: the number of bytes sent, or -1 with an errno that says "try again"
-- or not.
pub data SendN : Type 0 where
  wrote : ℕ → SendN
  failed : Bool → SendN

-- The error that `send_n` counts, where it returns -1.
abbrev pub send_error : ℕ → SendN → Option ℤ
send_error len (wrote n) =
    if n == 0 then some ack_disconn else if n == len then none else some ack_uncomp
send_error len (failed again) = some (if again then ack_block else ack_abnor)

-- The length of the string, where none is given.
abbrev pub send_len : Ack → ℕ
send_len ack =
    if (ack.msg_len == 0) || ltb max_inner_msg_len ack.msg_len
    then length (until_nul ack.msg)
    else ack.msg_len

abbrev pub bytes_of : Ack → List ℕ
bytes_of ack = take (send_len ack) ack.msg

abbrev pub give_back : Acks → Acks
give_back s = record s { free_msgs = suc s.free_msgs }

abbrev pub is_owner : Option ℕ → ℕ → Bool
is_owner none seq = false
is_owner (some seq') seq = seq' == seq

-- The answer of a TCP request: to the connection that it came from, if that still exists. Where
-- sending fails the connection is closed.
unfoldable pub send_tcp : SendN → Acks → Ack → Acks
send_tcp r s ack =
    if is_owner (s.conns ack.sock_fd) ack.sock_seq
    then (let d : Delivery = record {
      fd = ack.sock_fd;
      seq = ack.sock_seq;
      bytes = bytes_of ack;
    } in
        let s' = record s { sent = d ∷ s.sent } in
        give_back (elim (send_error (send_len ack) r) [
          | none ↦ s'
          | some code ↦ count_error code (record s' { conns = put s'.conns ack.sock_fd none })
        ]))
    else count_error ack_noowner (give_back s)

abbrev pub send_udp : Acks → Ack → Acks
send_udp s ack =
    give_back (record s { sent_udp = (ack.sock_ip, ack.sock_port, bytes_of ack) ∷ s.sent_udp })

-- `sends` is what the socket answers, and `spans` how old the request is, at the state reached.
module _ (sends : Acks → Ack → SendN) (spans : Acks → Ack → ℕ) where
  abbrev pub answer_one : Acks → Ack → Acks
  answer_one s ack =
      let s' = record s { stat = add_stat s.stat (report ack (spans s ack)) } in
      if ack.is_udp then send_udp s' ack else send_tcp (sends s' ack) s' ack

  -- The number that is returned is that of the messages left.
  unfoldable pub process : Acks → Acks × ℕ
  unfolding send_tcp
  process s = elim s.msg_queue [
    | [] ↦ (s, 0)
    | ack ∷ rest ↦
        let s' = answer_one (record s { msg_queue = rest }) ack in (s', length s'.msg_queue)
  ]

  -- `while (process() != 0)`.
  unfoldable pub handle_input : ℕ → Acks → Acks
  unfolding process
  handle_input zero s = s
  handle_input (suc fuel) s =
      let (s', left) = process s in
      let rest = handle_input fuel s' in if left == 0 then s' else rest
