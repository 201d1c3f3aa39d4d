-- ===== src/Ack/Drain.antt =====
-- frm/isgw_ack.cpp: the loop over the queue ends, and gives every message object back.
use teaf.Prelude.{
  ℕ, zero, suc, ◌+◌, ◌≤◌, ◌≡◌, ◌∙◌, refl, List, [], ◌∷◌, arith, ◌==◌, length, if_intro, Bool-cases,
  inl, inr, Option-cases,
}
use teaf.Stat.{add_stat}
use teaf.Ack.{
  Ack, Acks, SendN, report, send_error, send_len, is_owner, send_tcp, answer_one, process,
  handle_input,
}

-- One object is given back, and the queue stays.
pub record Settled (s s' : Acks) : Type 0 where
  pub queue : s'.msg_queue ≡ s.msg_queue
  pub once : s'.free_msgs ≡ suc s.free_msgs

send_tcp-Settled : (r : SendN) (s : Acks) (ack : Ack) → Settled s (send_tcp r s ack)
unfolding send_tcp
send_tcp-Settled r s ack = elim (Bool-cases (is_owner (s.conns ack.sock_fd) ack.sock_seq)) [
  | inr e ↦ rw e (record { queue = refl; once = refl })
  | inl e ↦ elim (Option-cases (send_error (send_len ack) r)) [
    | inl ok ↦ rw (e, ok) (record { queue = refl; once = refl })
    | inr (code, bad) ↦ rw (e, bad) (record { queue = refl; once = refl })
  ]
]

length-zero : {A : Type 0} (xs : List A) → length xs ≡ 0 → xs ≡ []
length-zero [] h = refl
length-zero (x ∷ xs) h = absurd (omega arith)

module _ (sends : Acks → Ack → SendN) (spans : Acks → Ack → ℕ) where
  pub answer_one-Settled : (s : Acks) (ack : Ack) → Settled s (answer_one sends spans s ack)
  answer_one-Settled s ack =
      let s' = record s { stat = add_stat s.stat (report ack (spans s ack)) } in
      let tcp = send_tcp-Settled (sends s' ack) s' ack in
      if_intro (Settled s) ack.is_udp (record { queue = refl; once = refl })
        (record { queue = tcp.queue; once = tcp.once })

  -- What one round does where the queue is not empty.
  pub process-cons :
      (s : Acks) (ack : Ack) (rest : List Ack)
      → s.msg_queue ≡ ack ∷ rest
      → process sends spans s
        ≡ (answer_one sends spans (record s { msg_queue = rest }) ack, length rest)
  unfolding process
  process-cons s ack rest e =
      let t = answer_one-Settled (record s { msg_queue = rest }) ack in
      rw (process, e, t.queue) refl

  pub process-nil : (s : Acks) → s.msg_queue ≡ [] → process sends spans s ≡ (s, 0)
  unfolding process
  process-nil s e = simp (process, e) refl

  handle_input-lem :
      (fuel : ℕ) (s : Acks) (queue : List Ack)
      → s.msg_queue ≡ queue
      → length queue ≤ fuel
      → let s' = handle_input sends spans fuel s in
        (s'.msg_queue ≡ []) × (s'.free_msgs ≡ s.free_msgs + length queue)
  unfolding handle_input
  handle_input-lem zero s [] e h = (e, omega arith)
  handle_input-lem zero s (ack ∷ rest) e h = absurd (omega arith)
  handle_input-lem (suc fuel) s [] e h = rw (process-nil s e) (e, omega arith)
  handle_input-lem (suc fuel) s (ack ∷ rest) e h =
      let s1 = answer_one sends spans (record s { msg_queue = rest }) ack in
      let t = answer_one-Settled (record s { msg_queue = rest }) ack in
      rw (process-cons s ack rest e) (elim (Bool-cases (length rest == 0)) [
        | inl last ↦
            let count : length rest ≡ 0 = ground arith in
            rw last (t.queue ∙ length-zero rest count, omega (arith, t.once, count))
        | inr more ↦
            let (empty, all) = handle_input-lem fuel s1 rest t.queue (omega arith) in
            rw more (empty, omega (arith, all, t.once))
      ])

  -- The loop ends: with as many rounds as there are messages the queue is empty, and as many message
  -- objects have been given back, each message's one.
  pub handle_input-drains :
      (s : Acks)
      → let s' = handle_input sends spans (length s.msg_queue) s in
        (s'.msg_queue ≡ []) × (s'.free_msgs ≡ s.free_msgs + length s.msg_queue)
  handle_input-drains s = handle_input-lem (length s.msg_queue) s s.msg_queue refl (omega arith)
