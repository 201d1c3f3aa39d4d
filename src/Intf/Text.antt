-- ===== src/Intf/Text.antt =====
-- frm/isgw_intf.cpp, `handle_input` with MSG_LEN_SIZE not defined: messages that end with a
-- separator, taken from a TCP stream.
pub mod Spec
pub mod Search
pub mod Loop
pub mod Refine
use mathlib.Core.Option
use teaf.Prelude.{
  ℕ, zero, suc, ◌+◌, ◌-◌, Bool, true, false, Option, none, some, List, [], ◌∷◌, ◌++◌, ltb, leb,
  ◌==◌, if◌then◌else◌, Bytes, length, take, drop,
}
use teaf.Util.Url.{c_str}
use teaf.Util.Replace.{find}
use teaf.Intf.Frames.{Recv, failed, hung_up, got, Outcome, kept, closed, spin, and_then}

-- MAX_RECV_BUF_LEN, MSG_SEPARATOR and FIELD_NAME_CMD.
pub record TextProto : Type 0 where
  pub max_recv : ℕ
  pub separator : Bytes
  pub cmd_field : Bytes

-- `recv_buf` is the whole array, its bytes behind the first `recv_len` included: the searches look at
-- them too. It is not initialised. Its end is taken for the end of the string.
pub record TextIntf : Type 0 where
  pub recv_buf : Bytes
  pub recv_len : ℕ
  pub msg_len : ℕ
  pub lastrtime : ℕ

-- `recv` writes behind the bytes that are there.
abbrev pub received_at : Bytes → ℕ → Bytes → Bytes
received_at buf len bytes = take len buf ++ (bytes ++ drop (len + length bytes) buf)

module _ (p : TextProto) where
  -- `strstr(msg, FIELD_NAME_CMD) == NULL` makes a message illegal.
  abbrev pub is_legal : Bytes → Bool
  is_legal buf = elim (find p.cmd_field (c_str buf)) [ none ↦ false | some parts ↦ true ]

  -- What stands before the separator in the C string at `msg_start`.
  abbrev pub find_end : Bytes → Option Bytes
  find_end msg_start = Option.map (λ parts. parts.0) (find p.separator (c_str msg_start))

  -- `memmove` of what is left to the front, unless nothing was taken.
  abbrev pub moved : Bytes → Bytes → ℕ → ℕ → Bytes
  moved buf msg_start proced pend =
      if proced == 0 then buf else take pend msg_start ++ drop pend buf

-- A message that `process` refuses closes the connection.
abbrev pub if_done : {W S : Type 0} → W × Bool → (W → Outcome W S) → Outcome W S
if_done (w, true) next = next w
if_done (w, false) next = closed w

-- `process` hands a message on, and says whether it returned 0.
module _ (p : TextProto) {W : Type 0} (process : W → Bytes → W × Bool) where
  -- Its result is `msg_start`, `proced_len` and `msg_len_` behind the loop.
  unfoldable pub text_loop : ℕ → ℕ → W → Bytes → ℕ → ℕ → Outcome W (Bytes × ℕ × ℕ)
  text_loop recv_len zero w msg_start proced msg_len = spin w
  text_loop recv_len (suc fuel) w msg_start proced msg_len = elim (find_end p msg_start) [
    | none ↦ kept w (msg_start, proced, msg_len)
    | some before ↦
        let n = length before + length p.separator in
        elim (ltb proced recv_len) [
          | false ↦ kept w (msg_start, proced, msg_len)
          | true ↦ elim (ltb recv_len (proced + n)) [
            | true ↦ kept w (msg_start, proced, n)
            | false ↦ elim (ltb (length p.separator) n) [
              | false ↦ text_loop recv_len fuel w (drop n msg_start) (proced + n) n
              | true ↦
                  if_done (process w (take n msg_start))
                    (λ w'. text_loop recv_len fuel w' (drop n msg_start) (proced + n) n)
            ]
          ]
        ]
  ]

  unfoldable pub text_settle : Bytes → ℕ → ℕ → Outcome W (Bytes × ℕ × ℕ) → Outcome W TextIntf
  text_settle buf recv_len now (kept w (msg_start, proced, msg_len)) = kept w (record {
    recv_buf = moved p buf msg_start proced (recv_len - proced);
    recv_len = recv_len - proced;
    msg_len = msg_len;
    lastrtime = now;
  })
  text_settle buf recv_len now (closed w) = closed w
  text_settle buf recv_len now (spin w) = spin w

  -- What is done where `recv_len` bytes of `buf` have been received.
  unfoldable pub text_received : ℕ → W → Bytes → ℕ → ℕ → Outcome W TextIntf
  text_received now w buf recv_len msg_len =
      let waits : TextIntf = record {
        recv_buf = buf;
        recv_len = recv_len;
        msg_len = msg_len;
        lastrtime = now;
      } in
      elim (find_end p buf) [
        | none ↦ (if ltb recv_len p.max_recv then kept w waits else closed w)
        | some before ↦
            (if is_legal p buf
              then text_settle buf recv_len now (text_loop recv_len (suc recv_len) w buf 0 msg_len)
              else kept w (record waits { recv_len = 0 }))
      ]

  unfoldable pub text_input : ℕ → W → TextIntf → Recv → Outcome W TextIntf
  text_input now w s (failed again) =
      if again then kept w (record s { lastrtime = now }) else closed w
  text_input now w s hung_up = closed w
  text_input now w s (got bytes) =
      text_received now w (received_at s.recv_buf s.recv_len bytes) (s.recv_len + length bytes)
        s.msg_len
