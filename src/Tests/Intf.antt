-- ===== src/Tests/Intf.antt =====
-- frm/isgw_intf.cpp with the separator "\n" and a buffer of 24 bytes, and frm/isgw_uintf.cpp.
use teaf.Prelude.{
  ◌≡◌, refl, inr, Bool, true, some, List, [], ◌∷◌, ◌++◌, arith, Bytes, HasNoNul, replicate, pos,
}
use teaf.Util.Replace.{find, strip_prefix}
use teaf.QMode.{cmd_name}
use teaf.Intf.Frames.{kept, got}
use teaf.Intf.Frames.Spec.{Verdict}
use teaf.Intf.Text.{
  TextProto, TextIntf, received_at, is_legal, text_loop, text_settle, text_received, text_input,
}
use teaf.Intf.Text.Spec.{Lines}
use teaf.Intf.Text.Refine.{Leaves, text_input-Lines}
use teaf.Intf.Request.{Peer, Gate, is_auth, process}
use teaf.Intf.Request.Access.{is_auth-part}
use teaf.Intf.Request.Pool.{IsSettled, Left, text_input-IsSettled}
use teaf.Stat.{create}

abbrev proto : TextProto
proto = record { max_recv = 24; separator = 10 ∷ []; cmd_field = cmd_name }

-- The messages are collected.
abbrev collect : List Bytes → Bytes → List Bytes × Bool
collect w msg = (msg ∷ w, true)

abbrev empty_intf : TextIntf
empty_intf = record { recv_buf = replicate 25 0; recv_len = 0; msg_len = 0; lastrtime = 0 }

-- "cmd=5&x\n".
abbrev five : Bytes
five = cmd_name ++ (b'=' ∷ b'5' ∷ b'&' ∷ b'x' ∷ 10 ∷ [])

-- The reader behind the message "cmd=5&x\n".
abbrev after_five : TextIntf
after_five = record { recv_buf = five ++ replicate 17 0; recv_len = 0; msg_len = 8; lastrtime = 3 }

reads_five : text_input proto collect 3 [] empty_intf (got five) ≡ kept (five ∷ []) after_five
unfolding text_input text_received text_loop text_settle find strip_prefix
reads_five = refl

-- "u=1&cmd=7\nu".
abbrev more : Bytes
more = b'u' ∷ b'=' ∷ b'1' ∷ b'&' ∷ (cmd_name ++ (b'=' ∷ b'7' ∷ 10 ∷ b'u' ∷ []))

more-HasNoNul : HasNoNul more
more-HasNoNul = (search (tt))

legal_more : is_legal proto (received_at after_five.recv_buf 0 more) ≡ true
unfolding find strip_prefix
legal_more = refl

text_input-Lines_example :
    (v : Verdict (List Bytes)) × Lines proto.separator collect [] more v
    × Leaves (text_input proto collect 4 [] after_five (got more)) v
text_input-Lines_example =
    text_input-Lines proto collect (omega arith) 4 [] after_five more (omega arith) more-HasNoNul
      (omega arith) (inr legal_more)

-- "1.1.1.1", and the rest of "11.1.1.12".
abbrev host : Bytes
host = b'1' ∷ b'.' ∷ b'1' ∷ b'.' ∷ b'1' ∷ b'.' ∷ b'1' ∷ []

is_auth-part_example : is_auth (pos 1) ((b'1' ∷ []) ++ (host ++ (b'2' ∷ []))) host ≡ pos 0
is_auth-part_example = is_auth-part (pos 1) (b'1' ∷ []) host (b'2' ∷ [])

abbrev peer : Peer
peer = record { sock_fd = 5; sock_ip = 1; sock_port = 2; sock_seq = 3 }

-- The pool has an object for one message.
abbrev gate : Gate
gate = record {
  msg_seq = 0;
  queue = [];
  given_back = [];
  stat = create;
  supply = (some 4, true) ∷ [];
  taken = [];
}

text_input-IsSettled_example :
    Left IsSettled (text_input proto (process peer) 4 gate after_five (got more))
text_input-IsSettled_example =
    text_input-IsSettled proto peer 4 gate after_five (got more) (omega arith)
      (record { settled = λ x. refl })

-- "cmd=1&cmd=2&" in a datagram, with objects for both messages.
abbrev datagram : Bytes
datagram = b'c' ∷ b'm' ∷ b'd' ∷ b'=' ∷ b'1' ∷ b'&' ∷ b'c' ∷ b'm' ∷ b'd' ∷ b'=' ∷ b'2' ∷ b'&' ∷ []

abbrev full_gate : Gate
full_gate = record gate { supply = (some 4, true) ∷ (some 5, true) ∷ [] }
