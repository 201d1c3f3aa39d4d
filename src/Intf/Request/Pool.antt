-- ===== src/Intf/Request/Pool.antt =====
-- The reader and `process` together: no object of the pool is lost.
use mathlib.Core.List.{map-append}
use teaf.Prelude.{
  ℕ, zero, suc, ◌+◌, ◌<◌, ◌≡◌, ap, ◌∙◌, Bool, true, false, Option, none, some, List, [], ◌∷◌, arith,
  ltb, Bytes, length, take, drop, map, Bool-cases, Option-cases, inl, inr,
}
use teaf.ObjectQue.Places.{count, count-append}
use teaf.Intf.Frames.{Recv, failed, hung_up, got, Outcome, kept, closed, spin}
use teaf.Intf.Text.{
  TextProto, TextIntf, find_end, is_legal, received_at, if_done, text_loop, text_settle,
  text_received, text_input,
}
use teaf.Intf.Request.{PpMsg, Peer, Gate, request_of, hand_on, process_with, process, prot_tcp_ip}

abbrev indexes : List PpMsg → List ℕ
indexes = map (λ r. r.index)

-- Each object stands in the queue or was given back as often as it came from the pool.
pub record IsSettled (g : Gate) : Type 0 where
  pub settled :
      (x : ℕ) → count x (map (λ r. r.index) g.queue) + count x g.given_back ≡ count x g.taken

hand_on-IsSettled :
    (protocol : ℕ) (c : Peer) (g : Gate) (index : ℕ) (queued : Bool) (msg : Bytes)
    → IsSettled g
    → IsSettled (hand_on protocol c g index queued msg).0
unfolding hand_on
hand_on-IsSettled protocol c g index true msg s = record {
  settled = λ x.
      let more =
        ap (count x)
          (map-append (λ (r : PpMsg). r.index) g.queue (request_of protocol c g index msg ∷ []))
        ∙ count-append x (indexes g.queue) (index ∷ []) in
      ground (arith, s.settled x, more);
}
hand_on-IsSettled protocol c g index false msg s = record {
  settled = λ x. ground (arith, s.settled x);
}

pub process_with-IsSettled :
    (protocol : ℕ) (c : Peer) (g : Gate) (supply : List (Option ℕ × Bool)) (msg : Bytes)
    → IsSettled g
    → IsSettled (process_with protocol c g supply msg).0
unfolding process_with
process_with-IsSettled protocol c g [] msg s = s
process_with-IsSettled protocol c g ((none, queued) ∷ rest) msg s = record { settled = s.settled }
process_with-IsSettled protocol c g ((some index, queued) ∷ rest) msg s =
    hand_on-IsSettled protocol c (record g { supply = rest }) index queued msg
      (record { settled = s.settled })

process-IsSettled :
    (c : Peer) (g : Gate) (msg : Bytes) → IsSettled g → IsSettled (process c g msg).0
unfolding process
process-IsSettled c g msg s = process_with-IsSettled prot_tcp_ip c g g.supply msg s

-- Kept or closed, it is left with `P`.
abbrev pub Left : {W S : Type 0} → (W → Type 0) → Outcome W S → Type 0
Left P (kept g s) = P g
Left P (closed g) = P g
Left P (spin g) = ⊥

if_done-Left :
    {W S : Type 0} (P : W → Type 0) (d : W × Bool) (next : W → Outcome W S)
    → P d.0
    → ((w : W) → P w → Left P (next w))
    → Left P (if_done d next)
if_done-Left P (w, true) next h later = later w h
if_done-Left P (w, false) next h later = h

module _ (p : TextProto) {W : Type 0} (process : W → Bytes → W × Bool) (P : W → Type 0)
    (keep : (w : W) (msg : Bytes) → P w → P (process w msg).0) where
  -- What `process` preserves the loop preserves, and it ends.
  text_loop-Left :
      (recv_len fuel : ℕ) (w : W) (msg_start : Bytes) (proced n : ℕ)
      → 0 < length p.separator
      → proced < recv_len + 1
      → recv_len < proced + fuel
      → P w
      → Left P (text_loop p process recv_len fuel w msg_start proced n)
  unfolding text_loop
  text_loop-Left recv_len zero w ms proced n some_sep within enough h = absurd (omega arith)
  text_loop-Left recv_len (suc fuel) w ms proced n some_sep within enough h =
      elim (Option-cases (find_end p ms)) [
        | inl absent ↦ rw (text_loop, absent) h
        | inr (before, present) ↦
            let size = length before + length p.separator in
            elim (Bool-cases (ltb proced recv_len)) [
              | inr ends ↦ rw (text_loop, present, ends) h
              | inl goes ↦ elim (Bool-cases (ltb recv_len (proced + size))) [
                | inl over ↦ rw (text_loop, present, goes, over) h
                | inr whole ↦
                    let inside : proced + size < recv_len + 1 = ground arith in
                    let later : (w' : W)
                        → P w'
                        → Left P (
                            text_loop p process recv_len fuel w' (drop size ms) (proced + size)
                              size) =
                      λ w' h'.
                        text_loop-Left recv_len fuel w' (drop size ms) (proced + size) size some_sep
                          inside (omega arith) h' in
                    elim (Bool-cases (ltb (length p.separator) size)) [
                      | inl text ↦
                          rw (text_loop, present, goes, whole, text)
                            (if_done-Left P (process w (take size ms)) _ (keep w (take size ms) h)
                              later)
                      | inr blank ↦ rw (text_loop, present, goes, whole, blank) (later w h)
                    ]
              ]
            ]
      ]

  text_settle-Left :
      (buf : Bytes) (recv_len now : ℕ) (o : Outcome W (Bytes × ℕ × ℕ))
      → Left P o
      → Left P (text_settle p process buf recv_len now o)
  unfolding text_settle
  text_settle-Left buf recv_len now (kept w (msg_start, proced, n)) h = h
  text_settle-Left buf recv_len now (closed w) h = h
  text_settle-Left buf recv_len now (spin w) h = h

  text_received-Left :
      (now : ℕ) (w : W) (buf : Bytes) (recv_len n : ℕ)
      → 0 < length p.separator
      → P w
      → Left P (text_received p process now w buf recv_len n)
  unfolding text_received
  text_received-Left now w buf recv_len n some_sep h = elim (Option-cases (find_end p buf)) [
    | inl absent ↦ elim (Bool-cases (ltb recv_len p.max_recv)) [
      | inl room ↦ rw (text_received, absent, room) h
      | inr full ↦ rw (text_received, absent, full) h
    ]
    | inr (before, present) ↦ elim (Bool-cases (is_legal p buf)) [
      | inr illegal ↦ rw (text_received, present, illegal) h
      | inl legal ↦
          rw (text_received, present, legal)
            (text_settle-Left buf recv_len now _ (
              text_loop-Left recv_len (suc recv_len) w buf 0 n some_sep (omega arith) (omega arith)
                h))
    ]
  ]

  text_input-Left :
      (now : ℕ) (w : W) (s : TextIntf) (r : Recv)
      → 0 < length p.separator
      → P w
      → Left P (text_input p process now w s r)
  unfolding text_input
  text_input-Left now w s (failed true) some_sep h = h
  text_input-Left now w s (failed false) some_sep h = h
  text_input-Left now w s hung_up some_sep h = h
  text_input-Left now w s (got bytes) some_sep h =
      text_received-Left now w (received_at s.recv_buf s.recv_len bytes) (s.recv_len + length bytes)
        s.msg_len some_sep h

-- For each read of the text reader whose messages go to ISGWIntf::process, whatever the read brings
-- and the buffer holds, and whatever the pool and the queue answer: the read ends, and where each
-- object taken from the pool before stood in the queue of ISGWMgrSvc or was given back, as often as it
-- was taken, this holds of each object after it, whether the connection is kept or closed. The
-- separator is not empty.
pub text_input-IsSettled :
    (p : TextProto) (c : Peer) (now : ℕ) (g : Gate) (s : TextIntf) (r : Recv)
    → 0 < length p.separator
    → IsSettled g
    → Left IsSettled (text_input p (process c) now g s r)
text_input-IsSettled p c now g s r some_sep h =
    text_input-Left p (process c) IsSettled (process-IsSettled c) now g s r some_sep h
