-- ===== src/Intf/Frames.antt =====
-- frm/isgw_intf.cpp, `handle_input` with MSG_LEN_SIZE defined: reassembly of length-prefixed
-- messages from a TCP stream.
pub mod Spec
pub mod Refine
pub mod Oversize
use teaf.Prelude.{
  ℕ, zero, suc, ◌+◌, ◌-◌, ◌*◌, ◌≡◌, Bool, true, false, ◌||◌, List, [], ◌∷◌, ◌++◌, ltb, leb, ◌==◌,
  if◌then◌else◌, length, take, drop,
}

-- MSG_LEN_SIZE, `len_field_extra_size` (0 under NO_EXTRA_SIZE, MSG_LEN_SIZE otherwise) and
-- MAX_RECV_BUF_LEN.
pub record Proto : Type 0 where
  pub len_size : ℕ
  pub extra : ℕ
  pub max_recv : ℕ

-- `recv_buf` holds the first `recv_len_` bytes of the buffer, all that this reader looks at.
pub record Intf : Type 0 where
  pub recv_buf : List ℕ
  pub msg_len : ℕ
  pub lastrtime : ℕ

-- The constructor of `ISGWIntf`.
abbrev pub fresh : Intf
fresh = record { recv_buf = []; msg_len = 0; lastrtime = 0 }

-- What `peer().recv` returns: -1 with an errno that means "try again" or not, 0, or bytes.
pub data Recv : Type 0 where
  failed : Bool → Recv
  hung_up : Recv
  got : List ℕ → Recv

-- The return value: 0 keeps the connection, -1 closes it. `spin` marks exhausted fuel.
pub data Outcome (W S : Type 0) : Type 0 where
  kept : W → S → Outcome W S
  closed : W → Outcome W S
  spin : W → Outcome W S

abbrev pub and_then : {W S : Type 0} → Outcome W S → (W → S → Outcome W S) → Outcome W S
and_then (kept w s) next = next w s
and_then (closed w) next = closed w
and_then (spin w) next = spin w

-- `memcpy` of the length bytes and `ntohs` or `ntohl`: the network order number.
abbrev pub big_endian : ℕ → List ℕ → ℕ
big_endian acc [] = acc
big_endian acc (b ∷ bs) = big_endian (acc * 256 + b) bs

module _ (p : Proto) where
  unfoldable pub header : List ℕ → ℕ
  header s = big_endian 0 (take p.len_size s)

  abbrev pub illegal : ℕ → Bool
  illegal n = ltb p.max_recv n || leb n p.len_size

  -- The message that a complete frame of length `n` holds.
  abbrev pub payload : ℕ → List ℕ → List ℕ
  payload n s = take n (drop p.extra s)

  -- What `peer().recv` returns where `pending` bytes stand in the socket: it is asked for the
  -- room left in the buffer, and returns 0 if asked for 0 bytes.
  unfoldable pub peer_recv : Intf → List ℕ → Recv
  peer_recv s pending =
      let room = p.max_recv - length s.recv_buf in
      if room == 0 then hung_up else got (take room pending)

-- `process` hands a message on, and says whether it returned 0.
module _ (p : Proto) {W : Type 0} (process : W → List ℕ → W × Bool) where
  -- The loop over complete messages: `pend` are the bytes not yet processed.
  pub drain : ℕ → W → List ℕ → ℕ → Outcome W (List ℕ × ℕ)
  drain zero w pend n = spin w
  drain (suc fuel) w pend n = elim (leb (p.extra + n) (length pend)) [
    | false ↦ kept w (pend, n)
    | true ↦
        let (w', done) = process w (payload p n pend) in
        let rest = drop (p.extra + n) pend in
        elim done [
          | false ↦ closed w'
          | true ↦ elim (ltb (length rest) p.len_size) [
            | true ↦ kept w' (rest, 0)
            | false ↦ elim (illegal p (header p rest)) [
              | true ↦ closed w'
              | false ↦ drain fuel w' rest (header p rest)
            ]
          ]
        ]
  ]

  -- What is left goes to the front of the buffer.
  pub settle : ℕ → Outcome W (List ℕ × ℕ) → Outcome W Intf
  settle now (kept w (rest, n)) =
      if length rest == 0
      then kept w (record { recv_buf = []; msg_len = 0; lastrtime = now })
      else kept w (record { recv_buf = rest; msg_len = n; lastrtime = now })
  settle now (closed w) = closed w
  settle now (spin w) = spin w

  -- The length of the first message is known.
  pub complete : ℕ → W → List ℕ → ℕ → Outcome W Intf
  complete now w buf n =
      if ltb (length buf) (p.extra + n)
      then kept w (record { recv_buf = buf; msg_len = n; lastrtime = now })
      else settle now (drain (suc (length buf)) w buf n)

  unfoldable pub handle_input : ℕ → W → Intf → Recv → Outcome W Intf
  unfolding complete settle drain
  handle_input now w s (failed again) =
      if again then kept w (record s { lastrtime = now }) else closed w
  handle_input now w s hung_up = closed w
  handle_input now w s (got bytes) =
      let buf = s.recv_buf ++ bytes in
      if s.msg_len == 0
      then (if ltb (length buf) p.len_size
          then kept w (record { recv_buf = buf; msg_len = 0; lastrtime = now })
          else if illegal p (header p buf)
          then closed w
          else complete now w buf (header p buf))
      else complete now w buf s.msg_len

  -- Successive reads of one connection, each with the time of its call.
  unfoldable pub handle_inputs : W → Intf → List (ℕ × Recv) → Outcome W Intf
  handle_inputs w s [] = kept w s
  handle_inputs w s ((now, r) ∷ rs) =
      and_then (handle_input now w s r) (λ w' s'. handle_inputs w' s' rs)
