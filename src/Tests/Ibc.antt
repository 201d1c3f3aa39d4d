-- ===== src/Tests/Ibc.antt =====
-- frm/ibc_mgr_svc.cpp: two batch requests of two parts each, whose parts arrive in turn.
use teaf.Prelude.{
  take, ℕ, ◌≤◌, ◌≡◌, refl, Option, none, some, List, [], ◌∷◌, ◌++◌, arith, ◌==◌, if◌then◌else◌,
  Bytes, pos, length,
}
use teaf.Stat.{create}
use teaf.QMode.{QModeMsg, fresh_msg}
use teaf.Ibc.Records.{Key, Value}
use teaf.Util.Numbers.{decimal}
use teaf.Ibc.Encode.{Config, encode_text}
use teaf.Ibc.Encode.Fits.{reply_body, encode_text-fits}
use teaf.Ibc.{Part, Oper, Ibc, Limits, info_name, oper_base, rounds}
use teaf.Ibc.Bound.{rounds-le}

abbrev config : Config
config = record { max_len = 8400; res_len = 192; separator = 13 ∷ 10 ∷ [] }

abbrev limits : Limits
limits = record { discard_flag = pos 1; discard_time = 2; max_ibcr_record = 1024 }

abbrev key1 : Key
key1 = record { sock_fd = 5; sock_seq = 1; msg_seq = 7 }

-- A part with a total of 2 and the field info.
abbrev request : Bytes → QModeMsg
request info = record fresh_msg {
  cmd = 101;
  msg_map = (info_name, info) ∷ (b't' ∷ b'o' ∷ b't' ∷ b'a' ∷ b'l' ∷ [], b'2' ∷ []) ∷ [];
}

abbrev part_of : ℕ → Bytes → ℕ × Part
part_of msg_seq info =
    (50, record { req = request info; handle = 5; sock_seq = 1; msg_seq = msg_seq; time = 49 })

abbrev arriving : List (ℕ × Part)
arriving =
    part_of 7 (b'a' ∷ [])
    ∷ part_of 8 (b'x' ∷ [])
    ∷ part_of 7 (b'b' ∷ [])
    ∷ part_of 8 (b'y' ∷ [])
    ∷ []

abbrev operators : ℕ → Option Oper
operators cmd = if cmd == 101 then some (oper_base 8400) else none

abbrev empty : Ibc
empty = record {
  ibcr_map = [];
  wild = λ i. record { found = λ k m. none; placed = λ k m. some 0; stands = λ k m. 0 };
  supply = λ i. some i;
  asked = 0;
  replies = [];
  stat = create;
  req_deleted = 0;
  oper_made = 0;
  oper_deleted = 0;
}

rounds-le_example : length (rounds config limits operators empty arriving).ibcr_map ≤ 1025
rounds-le_example = rounds-le config limits operators empty arriving (omega arith)

-- Each sequence number belongs to the one connection.
abbrev owner : ℕ → Key
owner n = record { sock_fd = 5; sock_seq = 1; msg_seq = n }

-- A complete record with the results of three parts, two of which succeeded, for a gateway in front.
abbrev complete : Value
complete = record {
  time = 49;
  cmd = 101;
  uin = 10000;
  total = 3;
  cnum = 3;
  snum = 2;
  front_sock_fd = 9;
  front_sock_seq = 4;
  front_msg_seq = 1;
  front_prot = 0;
  front_time = 49;
  front_rflag = pos 0;
  endflag = pos 0;
  msg = b'a' ∷ b'|' ∷ b'b' ∷ b'|' ∷ [];
  msg_list = [];
}

length-reply_body : length (reply_body complete) ≡ 117
unfolding decimal
length-reply_body = refl

encode_text-fits_example :
    take (encode_text config complete).1 (encode_text config complete).0
    ≡ reply_body complete ++ config.separator
encode_text-fits_example =
    encode_text-fits config complete (omega arith) (omega arith) (omega (arith, length-reply_body))
