-- ===== src/Tests/Ack.antt =====
-- frm/isgw_ack.cpp: three answers, one for a connection whose descriptor has been taken over.
use teaf.Prelude.{
  ℕ, ◌+◌, ◌≡◌, refl, true, false, none, some, [], ◌∷◌, ◌==◌, if◌then◌else◌, All, pos,
}
use teaf.Stat.{create}
use teaf.Ack.{Ack, Acks, SendN, failed, process, handle_input, send_tcp}
use teaf.Ack.Drain.{handle_input-drains}
use teaf.Ack.Owner.{WasOpen, handle_input-owner}

-- From connection 7 on descriptor 3.
abbrev ack : Ack
ack = record {
  cmd = 101;
  ret = pos 0;
  is_udp = false;
  sock_fd = 3;
  sock_seq = 7;
  sock_ip = 0;
  sock_port = 0;
  msg = 1 ∷ 2 ∷ [];
  msg_len = 2;
  procs_span = 5;
}

-- Connection 7 is on descriptor 3, and connection 9 on descriptor 4, which was that of 8.
abbrev acks : Acks
acks = record {
  msg_queue = ack ∷ record ack { sock_fd = 4; sock_seq = 8 } ∷ ack ∷ [];
  conns = λ fd. if fd == 3 then some 7 else if fd == 4 then some 9 else none;
  stat = create;
  sent = [];
  sent_udp = [];
  free_msgs = 0;
}

-- The socket would block.
abbrev blocks : Acks → Ack → SendN
blocks s a = failed true

abbrev spans : Acks → Ack → ℕ
spans s a = 10

-- The first answer closes the connection, so that the last one has no owner.
sends_one :
    (handle_input blocks spans 3 acks).sent ≡ record { fd = 3; seq = 7; bytes = 1 ∷ 2 ∷ [] } ∷ []
unfolding handle_input process send_tcp
sends_one = refl

handle_input-drains_example :
    let s' = handle_input blocks spans 3 acks in (s'.msg_queue ≡ []) × (s'.free_msgs ≡ 0 + 3)
handle_input-drains_example = handle_input-drains blocks spans acks

handle_input-owner_example : All (WasOpen acks.conns) (handle_input blocks spans 2 acks).sent
handle_input-owner_example = handle_input-owner blocks spans 2 acks refl
