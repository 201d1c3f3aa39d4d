-- ===== src/Ibc/Encode.antt =====
-- frm/ibc_mgr_svc.cpp, encode_ppack: the answer of a batch request as text.
pub mod Fits
use teaf.Prelude.{
  ℕ, zero, suc, ◌+◌, ◌-◌, ◌*◌, ◌%◌, ◌^◌, Bool, true, false, ◌&&◌, List, [], ◌∷◌, ◌++◌, ltb, leb,
  ◌==◌, if◌then◌else◌, Bytes, length, take, drop, add32, to_u32, u32_mod,
}
use teaf.Util.Url.{c_str}
use teaf.Util.Numbers.{decimal}
use teaf.QMode.{cmd_name, uin_name, result_name}
use teaf.Ibc.Records.{Key, Value}

-- MAX_INNER_MSG_LEN, INNER_RES_MSG_LEN and MSG_SEPARATOR.
pub record Config : Type 0 where
  pub max_len : ℕ
  pub res_len : ℕ
  pub separator : Bytes

-- What `encode_ppack` and its caller fill in of a PPMsg.
pub record Reply : Type 0 where
  pub index : ℕ
  pub sock_fd : ℕ
  pub sock_seq : ℕ
  pub seq_no : ℕ
  pub cmd : ℕ
  pub msg : Bytes
  pub msg_len : ℕ

-- `%d` of a 32-bit pattern.
abbrev pub signed : ℕ → Bytes
signed n = if ltb n (2 ^ 31) then decimal n else b'-' ∷ decimal (u32_mod - n)

-- `name=` and what is behind.
abbrev pub field : Bytes → Bytes → Bytes
field name value = name ++ (b'=' ∷ value)

abbrev pub ampersand : Bytes → Bytes → Bytes
ampersand a b = a ++ (b'&' ∷ b)

-- The fields for the gateway in front, which end with an ampersand.
unfoldable pub front_text : Value → Bytes
front_text v =
    ampersand (field (b'_' ∷ b's' ∷ b'o' ∷ b'c' ∷ b'k' ∷ b'f' ∷ b'd' ∷ []) (signed v.front_sock_fd))
      (ampersand
        (field (b'_' ∷ b's' ∷ b'o' ∷ b'c' ∷ b'k' ∷ b'_' ∷ b's' ∷ b'e' ∷ b'q' ∷ [])
          (signed v.front_sock_seq))
        (ampersand
          (field (b'_' ∷ b'm' ∷ b's' ∷ b'g' ∷ b'_' ∷ b's' ∷ b'e' ∷ b'q' ∷ [])
            (signed v.front_msg_seq))
          (ampersand (field (b'_' ∷ b'p' ∷ b'r' ∷ b'o' ∷ b't' ∷ []) (signed v.front_prot)) (
            ampersand (field (b'_' ∷ b't' ∷ b'i' ∷ b'm' ∷ b'e' ∷ []) (signed v.front_time)) (
              ampersand
                (field (b'_' ∷ b'r' ∷ b'f' ∷ b'l' ∷ b'a' ∷ b'g' ∷ [])
                  (signed (to_u32 v.front_rflag)))
                [])))))

-- The head of the answer: the command, a result of 0, the uin and the counts.
unfoldable pub head_text : Value → Bytes
head_text v = ampersand (field cmd_name (signed v.cmd)) (
    ampersand (field result_name (b'0' ∷ [])) (
      ampersand (field uin_name (decimal v.uin)) (
        ampersand (field (b't' ∷ b'o' ∷ b't' ∷ b'a' ∷ b'l' ∷ []) (signed v.total)) (
          ampersand (field (b'c' ∷ b'n' ∷ b'u' ∷ b'm' ∷ []) (signed v.cnum))
            (field (b's' ∷ b'n' ∷ b'u' ∷ b'm' ∷ []) (signed v.snum))))))

abbrev pub info_text : Bytes
info_text = b'&' ∷ b'i' ∷ b'n' ∷ b'f' ∷ b'o' ∷ b'=' ∷ []

-- The bytes of `msg` and `msg_len`.
abbrev pub Buffer : Type 0
Buffer = Bytes × ℕ

-- `msg_len += snprintf(msg + msg_len, room, "%s", text)`: at most `room - 1` characters and a NUL are
-- written, and the whole length is added. A list that grows is a write behind the array.
abbrev pub print_at : ℕ → Bytes → Buffer → Buffer
print_at room text (buf, len) =
    let cut = take (room - 1) text ++ (0 ∷ []) in
    (
      if room == 0 then buf else take len buf ++ (cut ++ drop (len + length cut) buf),
      add32 len (length text),
    )

-- `MAX_INNER_MSG_LEN-pp_ack->msg_len`, less `res`: unsigned, so that it can wrap.
abbrev pub room_for : Config → ℕ → ℕ → ℕ
room_for c res len = (c.max_len + u32_mod - (len + res) % u32_mod) % u32_mod

unfoldable pub items_loop : Config → List Bytes → Buffer → Buffer
items_loop c [] b = b
items_loop c (i ∷ is) b =
    let rest = items_loop c is (print_at (room_for c c.res_len b.1) (c_str i ++ (b'|' ∷ [])) b) in
    if leb c.max_len (add32 b.1 (c.res_len * 4)) then b else rest

abbrev pub is_nonempty : List Bytes → Bool
is_nonempty [] = false
is_nonempty (i ∷ is) = true

unfoldable pub front_part : Config → Value → Buffer → Buffer
front_part c v b =
    if v.front_sock_fd == 0 && v.front_sock_seq == 0 && v.front_msg_seq == 0
    then b
    else print_at (room_for c 0 b.1) (front_text v) b

unfoldable pub info_part : Config → Value → Buffer → Buffer
info_part c v b =
    if is_nonempty v.msg_list
    then items_loop c v.msg_list (print_at (room_for c c.res_len b.1) info_text b)
    else print_at (room_for c c.res_len b.1) (info_text ++ c_str v.msg) b

-- `sizeof(MSG_SEPARATOR)` counts the terminator.
unfoldable pub end_part : Config → Buffer → Buffer
end_part c (buf, len) =
    let most = c.max_len - suc (length c.separator) in
    let at = if ltb most len then most else len in print_at (room_for c 0 at) c.separator (buf, at)

abbrev pub zeros : ℕ → Bytes
zeros zero = []
zeros (suc n) = 0 ∷ zeros n

unfoldable pub encode_text : Config → Value → Buffer
encode_text c v =
    let front = front_part c v (zeros (suc c.max_len), 0) in
    end_part c (info_part c v (print_at (room_for c 0 front.1) (head_text v) front))

unfoldable pub encode_ppack : Config → Key → Value → ℕ → Reply
encode_ppack c k v index = record {
  index = index;
  sock_fd = k.sock_fd;
  sock_seq = k.sock_seq;
  seq_no = k.msg_seq;
  cmd = v.cmd;
  msg = (encode_text c v).0;
  msg_len = (encode_text c v).1;
}
