-- ===== src/Intf/Frames/Oversize.antt =====
-- frm/isgw_intf.cpp: a frame of legal length that the receive buffer cannot hold.
use teaf.Prelude.{
  ℕ, ◌+◌, ◌≤◌, ◌<◌, ◌≡◌, Bool, false, List, arith, length, take, length-take, take-take,
}
use teaf.Intf.Frames.{
  Proto, Intf, fresh, Outcome, kept, closed, hung_up, got, header, illegal, handle_input, peer_recv,
  and_then,
}

module _ (p : Proto) {W : Type 0} (process : W → List ℕ → W × Bool) where
  -- Two reads of a socket on which `pending` waits.
  pub read_twice : ℕ → W → Intf → List ℕ → Outcome W Intf
  read_twice now w s pending =
      and_then (handle_input p process now w s (peer_recv p s pending))
        (λ w' s'. handle_input p process now w' s' (peer_recv p s' pending))

  module _ (stream : List ℕ) (pos : 0 < p.len_size) (room : p.len_size ≤ p.max_recv)
      (legal : illegal p (header p stream) ≡ false) (big : p.max_recv < p.extra + header p stream)
      (whole : p.extra + header p stream ≤ length stream) where
    first_recv : peer_recv p fresh stream ≡ got (take p.max_recv stream)
    unfolding peer_recv
    first_recv = ground arith

    header_lem : header p (take p.max_recv stream) ≡ header p stream
    unfolding header
    header_lem = rw (take-take p.len_size p.max_recv stream room)

    full : Intf
    full = record { recv_buf = take p.max_recv stream; msg_len = header p stream; lastrtime = 0 }

    first_input :
        (now : ℕ) (w : W)
        → handle_input p process now w fresh (got (take p.max_recv stream))
          ≡ kept w (record full { lastrtime = now })
    unfolding handle_input full
    first_input now w = rw header_lem (ground (arith, length-take p.max_recv stream))

    second_recv : (now : ℕ) → peer_recv p (record full { lastrtime = now }) stream ≡ hung_up
    unfolding peer_recv full
    second_recv now = ground (arith, length-take p.max_recv stream)

    -- A whole frame stands in the socket, of a length that passes the check and that with its
    -- length field exceeds the buffer. The message is not processed: the first read fills the
    -- buffer, the second one is asked for no bytes, returns 0, and the connection is closed.
    pub oversize-closed : (now : ℕ) (w : W) → read_twice now w fresh stream ≡ closed w
    unfolding read_twice handle_input
    oversize-closed now w = rw (first_recv, first_input now w, second_recv now)
