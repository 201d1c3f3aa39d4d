-- ===== src/Ack/Owner.antt =====
-- frm/isgw_ack.cpp: an answer goes to the connection that asked, and to no later one on the same
-- descriptor.
use teaf.Prelude.{
  ℕ, zero, suc, ◌≡◌, refl, true, Option, none, some, List, [], ◌∷◌, arith, ◌==◌, if_intro,
  Bool-cases, inl, inr, Option-cases, All,
}
use teaf.Stat.{add_stat}
use teaf.ConnMgr.{put}
use teaf.Ack.{
  Ack, Acks, Delivery, SendN, report, send_error, send_len, is_owner, send_tcp, answer_one, process,
  handle_input,
}
use teaf.Ack.Drain.{process-cons, process-nil}

module _ (open_conns : ℕ → Option ℕ) where
  -- The connection existed under that sequence number.
  abbrev pub WasOpen : Delivery → Type 0
  WasOpen d = open_conns d.fd ≡ some d.seq

  -- Connections are only closed, and what was sent went to such a connection.
  pub record Honest (s : Acks) : Type 0 where
    pub only_closed : (fd seq : ℕ) → s.conns fd ≡ some seq → open_conns fd ≡ some seq
    pub delivered : All WasOpen s.sent

  put-none : (f : ℕ → Option ℕ) (i fd seq : ℕ) → put f i none fd ≡ some seq → f fd ≡ some seq
  put-none f i fd seq h = elim (Bool-cases (fd == i)) [
    | inl e ↦ absurd (ground arith)
    | inr e ↦ rw e at h
  ]

  owner-some : (o : Option ℕ) (seq : ℕ) → is_owner o seq ≡ true → o ≡ some seq
  owner-some none seq h = absurd (ground arith)
  owner-some (some x) seq h = ground arith

  send_tcp-Honest : (r : SendN) (s : Acks) (ack : Ack) → Honest s → Honest (send_tcp r s ack)
  unfolding send_tcp
  send_tcp-Honest r s ack h = elim (Bool-cases (is_owner (s.conns ack.sock_fd) ack.sock_seq)) [
    | inr e ↦ rw e (record { only_closed = h.only_closed; delivered = h.delivered })
    | inl e ↦
        let own =
          h.only_closed ack.sock_fd ack.sock_seq
            (owner-some (s.conns ack.sock_fd) ack.sock_seq e) in
        elim (Option-cases (send_error (send_len ack) r)) [
          | inl ok ↦
              rw (e, ok) (record { only_closed = h.only_closed; delivered = (own, h.delivered) })
          | inr (code, bad) ↦
              rw (e, bad)
                (record {
                  only_closed =
                      λ fd seq o. h.only_closed fd seq (put-none s.conns ack.sock_fd fd seq o);
                  delivered = (own, h.delivered);
                })
        ]
  ]

  module _ (sends : Acks → Ack → SendN) (spans : Acks → Ack → ℕ) where
    answer_one-Honest : (s : Acks) (ack : Ack) → Honest s → Honest (answer_one sends spans s ack)
    answer_one-Honest s ack h =
        let s' = record s { stat = add_stat s.stat (report ack (spans s ack)) } in
        let counted : Honest s' = record { only_closed = h.only_closed; delivered = h.delivered } in
        if_intro Honest ack.is_udp (record { only_closed = h.only_closed; delivered = h.delivered })
          (send_tcp-Honest (sends s' ack) s' ack counted)

    process-Honest :
        (s : Acks) (queue : List Ack)
        → s.msg_queue ≡ queue
        → Honest s
        → Honest (process sends spans s).0
    process-Honest s [] e h = rw (process-nil sends spans s e) h
    process-Honest s (ack ∷ rest) e h = rw (process-cons sends spans s ack rest e) (
        answer_one-Honest (record s { msg_queue = rest }) ack
          (record { only_closed = h.only_closed; delivered = h.delivered }))

    handle_input-Honest :
        (fuel : ℕ) (s : Acks) → Honest s → Honest (handle_input sends spans fuel s)
    unfolding handle_input
    handle_input-Honest zero s h = h
    handle_input-Honest (suc fuel) s h =
        let (s', left) = process sends spans s in
        let once = process-Honest s s.msg_queue refl h in
        if_intro Honest (left == 0) once (handle_input-Honest fuel s' once)

-- Whatever the sockets answer and however long the loop runs: where nothing was sent before, each
-- delivery goes to a descriptor whose connection, at the start, had the sequence number of the
-- request. An answer to a connection that was closed is never given to another one that has taken
-- its descriptor.
pub handle_input-owner :
    (sends : Acks → Ack → SendN) (spans : Acks → Ack → ℕ) (fuel : ℕ) (s : Acks)
    → s.sent ≡ []
    → All (WasOpen s.conns) (handle_input sends spans fuel s).sent
handle_input-owner sends spans fuel s e =
    (handle_input-Honest s.conns sends spans fuel s
      (record { only_closed = λ fd seq o. o; delivered = rw e tt })).delivered
