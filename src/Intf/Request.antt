-- ===== src/Intf/Request.antt =====
-- frm/isgw_intf.cpp: a message that the reader took becomes a request in the queue of ISGWMgrSvc
-- (`process`), and when a connection is admitted (`open`, `is_auth`) and closed for idleness
-- (`handle_timeout`).
pub mod Access
pub mod Pool
pub mod Datagram
use mathlib.Core.Option
use teaf.Prelude.{
  ℕ, suc, ◌+◌, ◌-◌, Bool, true, false, ◌&&◌, Option, none, some, List, [], ◌∷◌, ◌++◌, ltb, ◌==◌,
  if◌then◌else◌, Bytes, ℤ, pos, negsuc, ◌==ℤ◌, add32,
}
use teaf.Stat.{Stat, incre_stat, svc_enqueue}
use teaf.Util.Replace.{find}

-- PROT_TCP_IP and PROT_UDP_IP.
abbrev pub prot_tcp_ip : ℕ
prot_tcp_ip = 0

abbrev pub prot_udp_ip : ℕ
prot_udp_ip = 1

-- What `process` fills in: `cmd` and the rest stay 0. `msg_len`, the length of `msg`, and
-- `tv_time`, the time of the message, are left out.
pub record PpMsg : Type 0 where
  pub index : ℕ
  pub seq_no : ℕ
  pub sock_fd : ℕ
  pub protocol : ℕ
  pub sock_ip : ℕ
  pub sock_port : ℕ
  pub sock_seq : ℕ
  pub msg : Bytes

pub record Peer : Type 0 where
  pub sock_fd : ℕ
  pub sock_ip : ℕ
  pub sock_port : ℕ
  pub sock_seq : ℕ

-- What an interface shares with the rest: its `msg_seq_`, one for all connections, the queue of ISGWMgrSvc, the
-- objects given back to the pool and the statistics. `supply` is what the pool and the queue will
-- answer: an object with its index or NULL, and whether putq succeeds. `taken` holds the
-- objects that came from the pool.
pub record Gate : Type 0 where
  pub msg_seq : ℕ
  pub queue : List PpMsg
  pub given_back : List ℕ
  pub stat : Stat
  pub supply : List (Option ℕ × Bool)
  pub taken : List ℕ

abbrev pub request_of : ℕ → Peer → Gate → ℕ → Bytes → PpMsg
request_of protocol c g index msg = record {
  index = index;
  seq_no = g.msg_seq;
  sock_fd = c.sock_fd;
  protocol = protocol;
  sock_ip = c.sock_ip;
  sock_port = c.sock_port;
  sock_seq = c.sock_seq;
  msg = msg;
}

-- The object of `index` is in hand.
unfoldable pub hand_on : ℕ → Peer → Gate → ℕ → Bool → Bytes → Gate × Bool
hand_on protocol c g index queued msg =
    let next : Gate = record g { msg_seq = add32 g.msg_seq 1; taken = index ∷ g.taken } in
    if queued
    then (record next { queue = g.queue ++ (request_of protocol c g index msg ∷ []) }, true)
    else (
      record next {
        given_back = index ∷ g.given_back;
        stat = incre_stat g.stat (pos svc_enqueue) (pos 1);
      },
      false,
    )

unfoldable pub process_with : ℕ → Peer → Gate → List (Option ℕ × Bool) → Bytes → Gate × Bool
unfolding hand_on
process_with protocol c g [] msg = (g, false)
process_with protocol c g ((none, queued) ∷ rest) msg = (record g { supply = rest }, false)
process_with protocol c g ((some index, queued) ∷ rest) msg =
    hand_on protocol c (record g { supply = rest }) index queued msg

-- `true` is a result of 0. Without an answer in `supply` the pool has no memory.
unfoldable pub process : Peer → Gate → Bytes → Gate × Bool
unfolding process_with
process c g msg = process_with prot_tcp_ip c g g.supply msg

-- `max_idle` is MAX_IDLE_TIME_SEC; a result of -1 closes the connection.
unfoldable pub handle_timeout : ℕ → ℕ → ℕ → ℤ
handle_timeout max_idle now lastrtime =
    if ltb lastrtime now && ltb max_idle (now - lastrtime) then negsuc 0 else pos 0

-- `allow_flag` and `allow_ip` are the configuration's, `host` the peer's address as text.
unfoldable pub is_auth : ℤ → Bytes → Bytes → ℤ
is_auth allow_flag allow_ip host =
    if allow_flag ==ℤ pos 0
    then pos 0
    else elim (find host allow_ip) [ none ↦ negsuc 0 | some parts ↦ pos 0 ]

-- `opened` is what AceSockHdrBase::open returns.
unfoldable pub open_conn : ℤ → ℤ → Bytes → Bytes → ℤ
unfolding is_auth
open_conn opened allow_flag allow_ip host =
    if (opened ==ℤ pos 0) && (is_auth allow_flag allow_ip host ==ℤ pos 0) then pos 0 else negsuc 0
