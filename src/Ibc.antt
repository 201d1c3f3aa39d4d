-- ===== src/Ibc.antt =====
-- frm/ibc_mgr_svc.cpp, class IBCMgrSvc, with the default operator of comm/ibc_oper_base.cpp: the parts
-- of a batch request are processed one by one, and their results are joined to one answer.
pub mod Records
pub mod StdMap
pub mod Encode
pub mod Owned
pub mod Bound
pub mod Alone
pub mod Shows
pub mod Collect
pub mod Answer
use teaf.Prelude.{
  ℕ, suc, ◌+◌, ◌-◌, ◌%◌, Bool, true, false, ◌&&◌, Option, none, some, List, [], ◌∷◌, ◌++◌, ltb, leb,
  ◌==◌, if◌then◌else◌, Bytes, length, take, ℤ, pos, negsuc, ◌==ℤ◌, add32, to_u32, u32_mod,
}
use teaf.Stat.{Stat, incre_stat}
use teaf.Util.Numbers.{atoi, to_unsigned}
use teaf.QMode.{QModeMsg, value_of, rflag_name}
use teaf.Ibc.Records.{Key, Value, last, erase_last}
use teaf.Ibc.StdMap.{Wild, find, insert, entry, put, erase}
use teaf.Ibc.Encode.{Config, Reply, encode_ppack}

-- STAT_CODE_IBCSVC_TIMEOUT and STAT_CODE_IBCSVC_FAC.
abbrev pub ibcsvc_timeout : ℕ
ibcsvc_timeout = 20247

abbrev pub ibcsvc_fac : ℕ
ibcsvc_fac = 20249

-- A part of a batch request: the QModeMsg, with its fields about the connection.
pub record Part : Type 0 where
  pub req : QModeMsg
  pub handle : ℕ
  pub sock_seq : ℕ
  pub msg_seq : ℕ
  pub time : ℕ

-- What an IBCOperBase does: `finish` is `end`. What `end` and `merge` return is not used.
pub record Oper : Type 0 where
  pub process : Part → ℤ × Bytes
  pub merge : Value → Bytes → Value
  pub finish : Value → Value

-- `wild` is what the map will do, while each operator is at work, where IBCR_COMP does not order its
-- keys. `supply` is what the pool of messages will answer, at each call an index or NULL. `replies` is what
-- was handed to ISGWAck. The last three count requests deleted, and operators made and deleted.
pub record Ibc : Type 0 where
  pub ibcr_map : List (Key × Value)
  pub wild : ℕ → Wild
  pub supply : ℕ → Option ℕ
  pub asked : ℕ
  pub replies : List Reply
  pub stat : Stat
  pub req_deleted : ℕ
  pub oper_made : ℕ
  pub oper_deleted : ℕ

abbrev pub info_name : Bytes
info_name = b'i' ∷ b'n' ∷ b'f' ∷ b'o' ∷ []

-- IBCOperBase, with `max_len` for MAX_INNER_MSG_LEN: the field info of the part, and a bar. `strncat`
-- appends up to `sizeof(msg) - strlen(msg)` characters, and then a NUL.
abbrev pub oper_base : ℕ → Oper
oper_base max_len = record {
  process = λ p. (pos 0, take (max_len - 1) (value_of info_name p.req.msg_map ++ (b'|' ∷ [])));
  merge = λ v item. record v { msg = v.msg ++ take (suc max_len - length v.msg) item };
  finish = λ v. v;
}

abbrev pub key_of : Part → Key
key_of p = record { sock_fd = p.handle; sock_seq = p.sock_seq; msg_seq = p.msg_seq }

-- `text` reads a field of the part; the names are those of the source.
abbrev pub text : Part → Bytes → Bytes
text p name = value_of name p.req.msg_map

unfoldable pub new_value : Part → Value
new_value p = record {
  time = p.time;
  cmd = p.req.cmd;
  uin = p.req.uin;
  total = to_u32 (atoi (text p (b't' ∷ b'o' ∷ b't' ∷ b'a' ∷ b'l' ∷ [])));
  cnum = 0;
  snum = 0;
  front_sock_fd = to_unsigned (text p (b'_' ∷ b's' ∷ b'o' ∷ b'c' ∷ b'k' ∷ b'f' ∷ b'd' ∷ []));
  front_sock_seq =
      to_unsigned (text p (b'_' ∷ b's' ∷ b'o' ∷ b'c' ∷ b'k' ∷ b'_' ∷ b's' ∷ b'e' ∷ b'q' ∷ []));
  front_msg_seq = to_unsigned (text p (b'_' ∷ b'm' ∷ b's' ∷ b'g' ∷ b'_' ∷ b's' ∷ b'e' ∷ b'q' ∷ []));
  front_prot = to_unsigned (text p (b'_' ∷ b'p' ∷ b'r' ∷ b'o' ∷ b't' ∷ []));
  front_time = to_unsigned (text p (b'_' ∷ b't' ∷ b'i' ∷ b'm' ∷ b'e' ∷ []));
  front_rflag = atoi (text p rflag_name);
  endflag = atoi (text p (b'e' ∷ b'n' ∷ b'd' ∷ b'f' ∷ b'l' ∷ b'a' ∷ b'g' ∷ []));
  msg = [];
  msg_list = [];
}

-- `discard_flag`, `discard_time` and `max_ibcr_record` of the configuration.
pub record Limits : Type 0 where
  pub discard_flag : ℤ
  pub discard_time : ℕ
  pub max_ibcr_record : ℕ

abbrev pub is_late : Limits → ℕ → Part → Bool
is_late l now p =
    (l.discard_flag ==ℤ pos 1) && ltb l.discard_time ((now + u32_mod - p.time) % u32_mod)

-- `delete req; delete oper;`.
abbrev pub release : Ibc → Ibc
release s = record s { req_deleted = suc s.req_deleted; oper_deleted = suc s.oper_deleted }

abbrev pub counted : ℤ → Value → Value
counted ret v = record v {
  cnum = add32 v.cnum 1;
  snum = if ret ==ℤ pos 0 then add32 v.snum 1 else v.snum;
}

-- `end` is called on a complete record that asks for it.
abbrev pub finished : Oper → Value → Value
finished oper v = if v.endflag ==ℤ pos 1 then oper.finish v else v

abbrev pub at_hand : Ibc → Wild
at_hand s = s.wild s.oper_made

module _ (c : Config) (l : Limits) where
  -- The pool has answered; the answer is returned, and the record of `k` erased.
  abbrev pub answer_with : Key → Value → Ibc → Option ℕ → Ibc × Option Reply
  answer_with k v s none = (release s, none)
  answer_with k v s (some index) = (
    release (record s { ibcr_map = erase (at_hand s) k s.ibcr_map }),
    some (encode_ppack c k v index),
  )

  -- The record `v` of `k` with a part's result joined, which is answered once it is complete.
  abbrev pub settle_when : Bool → Oper → Key → Value → Ibc → Ibc × Option Reply
  settle_when true oper k v s =
      answer_with k (finished oper v)
        (record s {
          ibcr_map = put (at_hand s) k (finished oper v) s.ibcr_map;
          asked = suc s.asked;
        })
        (s.supply s.asked)
  settle_when false oper k v s =
      (release (record s { ibcr_map = put (at_hand s) k v s.ibcr_map }), none)

  unfoldable pub settle : Oper → Key → Value → Ibc → Ibc × Option Reply
  settle oper k v s = settle_when (leb v.total v.cnum) oper k v s

  unfoldable pub join : Oper → Key → ℤ × Bytes → Value → Ibc → Ibc × Option Reply
  unfolding settle
  join oper k result v s = settle oper k (oper.merge (counted result.0 v) result.1) s

  -- The last record of the map is answered as it is, and erased.
  abbrev pub evict : Ibc → Option (Key × Value) → ℕ → Ibc
  evict s none index = s
  evict s (some (k, v)) index = record s {
    ibcr_map = erase_last s.ibcr_map;
    replies = s.replies ++ (encode_ppack c k v index ∷ []);
  }

  abbrev pub admit : Oper → Part → ℤ × Bytes → Ibc → Ibc × Option Reply
  admit oper p result s =
      join oper (key_of p) result (entry (at_hand s) (key_of p) (new_value p) s.ibcr_map)
        (record s { ibcr_map = insert (at_hand s) (key_of p) (new_value p) s.ibcr_map })

  abbrev pub admit_evicting : Oper → Part → ℤ × Bytes → Ibc → Option ℕ → Ibc × Option Reply
  admit_evicting oper p result s none = (release s, none)
  admit_evicting oper p result s (some index) =
      admit oper p result (evict s (last s.ibcr_map) index)

  -- A new record, `full` if there are more records than the limit.
  abbrev pub admit_when : Bool → Oper → Part → ℤ × Bytes → Ibc → Ibc × Option Reply
  admit_when true oper p result s =
      admit_evicting oper p result (record s { asked = suc s.asked }) (s.supply s.asked)
  admit_when false oper p result s = admit oper p result s

  -- A part whose operator has given its result, with the record of its key.
  unfoldable pub absorb : Oper → Part → ℤ × Bytes → Ibc → Option Value → Ibc × Option Reply
  unfolding join
  absorb oper p result s (some v) = join oper (key_of p) result v s
  absorb oper p result s none =
      admit_when (ltb l.max_ibcr_record (length s.ibcr_map)) oper p result s

  -- The operator is made, and the part is `late` or not.
  abbrev pub serve_when : Bool → Oper → Part → Ibc → Ibc × Option Reply
  serve_when true oper p s = (
    record s { oper_made = suc s.oper_made; stat = incre_stat s.stat (pos ibcsvc_timeout) (pos 1) },
    none,
  )
  serve_when false oper p s =
      absorb oper p (oper.process p) (record s { oper_made = suc s.oper_made })
        (find (s.wild (suc s.oper_made)) (key_of p) s.ibcr_map)

  module _ (create_oper : ℕ → Option Oper) where
    abbrev pub process_with : ℕ → Ibc → Part → Option Oper → Ibc × Option Reply
    process_with now s p none =
        (record s { stat = incre_stat s.stat (pos ibcsvc_fac) (pos 1) }, none)
    process_with now s p (some oper) = serve_when (is_late l now p) oper p s

    unfoldable pub process : ℕ → Ibc → Part → Ibc × Option Reply
    unfolding absorb
    process now s p = process_with now s p (create_oper p.req.cmd)

    abbrev pub send : Ibc → Option Reply → Ibc
    send s none = s
    send s (some r) = record s { replies = s.replies ++ (r ∷ []) }

    -- A round of ACESvc::svc for a part taken from the queue at a time.
    unfoldable pub round : Ibc → ℕ × Part → Ibc
    unfolding process
    round s (now, p) = let done = process now s p in send done.0 done.1

    unfoldable pub rounds : Ibc → List (ℕ × Part) → Ibc
    unfolding round
    rounds s [] = s
    rounds s (p ∷ ps) = rounds (round s p) ps
