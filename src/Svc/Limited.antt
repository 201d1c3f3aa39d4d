-- ===== src/Svc/Limited.antt =====
-- frm/isgw_mgr_svc.cpp with comm/cmd_amount_contrl.cpp: how many requests of a command reach its
-- handler.
use teaf.Prelude.{
  ℕ, ◌+◌, ◌-◌, ◌≤◌, ◌<◌, ◌≡◌, ◌∙◌, refl, sym, ap, subst, true, false, ◌&&◌, ◌||◌, Option, some,
  List, [], ◌∷◌, arith, All, All-mono, ltb, ltb_ℤ, if◌then◌else◌, ℤ, pos, negsuc, ◌==ℤ◌, to_u32,
  Bool-cases, inl, inr, if_intro, pos_part, take,
}
use teaf.Amount.{Cntrl, node_of, get_status, amount_inc}
use teaf.Amount.Access.{
  get_status_entry, node_of-get_status, time_now-get_status, node_of-amount_inc,
}
use teaf.Amount.Entry.{Node, elapsed, reopen, count}
use teaf.Amount.Window.{entry_request-Spent, budget, Fits, Spent, reopen_within}
use teaf.Stat.{add_stat}
use teaf.Svc.{
  Svc, Request, Handled, Dest, Result, answered, recycled, framed, raw, passed_through,
  max_inner_msg_len, check, check_age, count_error, svc_timeout, error_timeout_frm, answer,
  route_flag, dispatch, serve, process, proc_flag, forward, is_internal, give_back, discard_span,
  report, forward_failed,
}
use teaf.Svc.Owned.{dispatch-Steady}

-- What the flow control looks at.
record Same (s s' : Svc) : Type 0 where
  freq : s'.freq ≡ s.freq
  flag : s'.control_flag ≡ s.control_flag

answer-Same : (flag : ℤ) (s : Svc) (q : Request) (h : Handled) → Same s (answer flag s q h).0
unfolding answer
answer-Same flag s q h =
    let framed_reply = framed (passed_through flag q) q.cmd h.ret h.ack_buf q.seqstr in
    let raw_reply = raw (take (pos_part h.ack_len) (take max_inner_msg_len h.ack_buf)) in
    if_intro (λ (p : Svc × Result). Same s p.0) (ltb_ℤ h.ack_len (pos 0))
      {x = (give_back s, recycled)} (record { freq = refl; flag = refl })
      (if_intro (λ (p : Svc × Result). Same s p.0)
        ((h.ack_len ==ℤ pos 0) || (h.ack_len ==ℤ pos max_inner_msg_len))
        {x = (s, answered framed_reply h.ret)} {y = (s, answered raw_reply h.ret)}
        (record { freq = refl; flag = refl }) (record { freq = refl; flag = refl }))

check_age-Same : (s : Svc) (span : ℕ) → Same s (check_age s span).0
check_age-Same s span =
    if_intro (λ (r : Svc × ℤ). Same s r.0)
      ((s.discard_flag ==ℤ pos 1) && ltb (discard_span s.discard_time) span)
      {x = (count_error svc_timeout s, error_timeout_frm)} {y = (s, pos 0)}
      (record { freq = refl; flag = refl }) (record { freq = refl; flag = refl })

-- With flow control on, the check asks it, and passes only what it lets through.
record Checked (s s' : Svc) (q : Request) (now : ℕ) (ret : ℤ) : Type 0 where
  asked : s'.freq ≡ (get_status s.freq q.cmd now).0
  flag : s'.control_flag ≡ s.control_flag
  passed : (ret ==ℤ pos 0) ≡ true → ((get_status s.freq q.cmd now).1 ==ℤ pos 0) ≡ true

check-Checked :
    (s : Svc) (q : Request) (now span : ℕ)
    → s.control_flag ≡ pos 1
    → let (s', ret) = check s q now span in Checked s s' q now ret
unfolding check
check-Checked s q now span on =
    let (freq', status) = get_status s.freq q.cmd now in
    let s' = record s { freq = freq' } in
    let age = check_age-Same s' span in
    let controls : (s.control_flag ==ℤ pos 1) ≡ true = ap (λ f. f ==ℤ pos 1) on in
    elim (Bool-cases (status ==ℤ pos 0)) [
      | inl e ↦ rw (controls, e) (record { asked = age.freq; flag = age.flag; passed = λ _. e })
      | inr e ↦
          rw (controls, e)
            (record { asked = refl; flag = refl; passed = λ r. absurd (ground arith) })
    ]

module _ {W : Type 0} (handler inner : W → Request → W × Handled) (sends : Dest → ℤ)
    (ports : List ℕ → Option ℤ) where
  -- Requests, each with the time and its age.
  abbrev pub processes : Svc → W → List (ℕ × ℕ × Request) → W
  processes s w [] = w
  processes s w ((now, span, q) ∷ qs) =
      let (s', w', r) = process handler inner sends ports s w q now span in processes s' w' qs

  -- `calls` counts the calls of the handler.
  module _ (calls : W → ℕ)
      (counts : (w : W) (q : Request) → calls (handler w q).0 ≡ calls w + 1) where
    dispatch-calls :
        (s : Svc) (w : W) (q : Request)
        → calls (dispatch handler inner sends ports s w q).1 ≤ calls w + 1
    unfolding dispatch
    dispatch-calls s w q =
        let flag = proc_flag ports s q in
        let (w', h) = handler w q in
        let (s', ret') = forward sends s q in
        let reply : Handled =
          if ret' ==ℤ pos 0
          then record { ret = ret'; ack_buf = []; ack_len = negsuc 0 }
          else record { ret = ret'; ack_buf = forward_failed; ack_len = pos max_inner_msg_len } in
        if_intro (λ (p : Svc × W × Handled). calls p.1 ≤ calls w + 1) (flag ==ℤ pos 0)
          {x = (s, w', h)} (omega (arith, counts w q))
          (if_intro (λ (p : Svc × W × Handled). calls p.1 ≤ calls w + 1) (flag ==ℤ pos 1)
            {x = (s', w, reply)} {y = (s', w', h)} (omega arith) (omega (arith, counts w q)))

    -- With flow control on, a request that is served is counted once.
    serve-counted :
        (s : Svc) (w : W) (q : Request)
        → s.control_flag ≡ pos 1
        → let (s', w', r) = serve handler inner sends ports s w q in
          (s'.freq ≡ amount_inc s.freq q.cmd (dispatch handler inner sends ports s w q).2.ret)
          × (s'.control_flag ≡ pos 1)
          × (calls w' ≤ calls w + 1)
    unfolding serve
    serve-counted s w q on =
        let (s1, w1, h) = dispatch handler inner sends ports s w q in
        let d = dispatch-Steady handler inner sends ports s w q in
        let a = answer-Same (route_flag s q) s1 q h in
        let s2 = (answer (route_flag s q) s1 q h).0 in
        let still : s2.control_flag ≡ pos 1 = a.flag ∙ (d.same_flag ∙ on) in
        let controls : (s2.control_flag ==ℤ pos 1) ≡ true = ap (λ f. f ==ℤ pos 1) still in
        let same : s2.freq ≡ s.freq = a.freq ∙ d.same_freq in
        rw controls (ap (λ f. amount_inc f q.cmd h.ret) same, still, dispatch-calls s w q)

    -- The command's entry after a request in terms of the entry before.
    record After (limit : ℕ) (n : Node) (cmd : ℤ) (s' : Svc) (w w' : W) : Type 0 where
      node : Node
      served : ℕ
      here : node_of s'.freq cmd ≡ some node
      on : s'.control_flag ≡ pos 1
      spent : Spent limit served n node
      called : calls w' ≤ calls w + served

    unspent :
        (limit now : ℕ) (n : Node)
        → Fits limit n
        → elapsed now n < to_u32 n.time_intvl
        → Spent limit 0 n (reopen now n)
    unspent limit now n f el =
        rw (reopen_within now n el)
          (record { fits = f; start = refl; intvl = refl; budget_le = omega arith })

    process-After :
        (limit : ℕ) (s : Svc) (w : W) (q : Request) (now span : ℕ) (n : Node)
        → s.control_flag ≡ pos 1
        → is_internal q ≡ false
        → node_of s.freq q.cmd ≡ some n
        → Fits limit n
        → elapsed now n < to_u32 n.time_intvl
        → let (s', w', r) = process handler inner sends ports s w q now span in
          After limit n q.cmd s' w w'
    unfolding process
    process-After limit s w q now span n on ext here f el =
        let s0 = record s { stat = add_stat s.stat (report q) } in
        let (s1, ret') = check s0 q now span in
        let c = check-Checked s0 q now span on in
        let asked = get_status_entry s.freq q.cmd now n here in
        let left : node_of s1.freq q.cmd ≡ some (reopen now n) =
          ap (λ x. node_of x q.cmd) c.asked ∙ node_of-get_status s.freq q.cmd now n here in
        elim (Bool-cases (ret' ==ℤ pos 0)) [
          | inr refusal ↦
              rw (ext, refusal)
                (record {
                  node = reopen now n;
                  served = 0;
                  here = left;
                  on = c.flag ∙ on;
                  spent = unspent limit now n f el;
                  called = omega arith;
                })
          | inl passed ↦
              let (counted, still, called) = serve-counted s1 w q (c.flag ∙ on) in
              let h = (dispatch handler inner sends ports s1 w q).2 in
              let clock : s1.freq.time_now ≡ now =
                ap (λ (x : Cntrl). x.time_now) c.asked
                ∙ time_now-get_status s.freq q.cmd now n here in
              let open' : ((reopen now n).status ==ℤ pos 0) ≡ true =
                subst (λ x. (x ==ℤ pos 0) ≡ true) asked (c.passed passed) in
              rw (ext, passed)
                (record {
                  node = count now h.ret (reopen now n);
                  served = 1;
                  here =
                      ap (λ x. node_of x q.cmd) counted
                      ∙ (node_of-amount_inc s1.freq q.cmd now (reopen now n) left h.ret
                          ∙ ap (λ t. some (count t h.ret (reopen now n))) clock);
                  on = still;
                  spent = rw open' at (entry_request-Spent limit now h.ret n f el);
                  called = called;
                })
        ]

    -- A request of the command, within the interval of its entry.
    abbrev pub IsFor : ℤ → Node → ℕ × ℕ × Request → Type 0
    IsFor cmd n (now, span, q) = (q.cmd ≡ cmd) × (elapsed now n < to_u32 n.time_intvl)

    processes-budget :
        (cmd : ℤ)
        → (ltb_ℤ cmd (pos 100) && ltb_ℤ (pos 0) cmd) ≡ false
        → (qs : List (ℕ × ℕ × Request)) (limit : ℕ) (s : Svc) (w : W) (n : Node)
        → s.control_flag ≡ pos 1
        → node_of s.freq cmd ≡ some n
        → Fits limit n
        → All (IsFor cmd n) qs
        → calls (processes s w qs) ≤ calls w + budget limit n
    processes-budget cmd ext [] limit s w n on here f h = omega arith
    processes-budget cmd ext ((now, span, q) ∷ qs) limit s w n on here f ((e, el), hs) =
        let (s', w', r) = process handler inner sends ports s w q now span in
        let a =
          process-After limit s w q now span n on
            (ap (λ x. ltb_ℤ x (pos 100) && ltb_ℤ (pos 0) x) e ∙ ext) (ap (node_of s.freq) e ∙ here)
            f el in
        let rest =
          processes-budget cmd ext qs limit s' w' a.node a.on
            (ap (node_of s'.freq) (sym e) ∙ a.here) a.spent.fits
            (All-mono qs (λ x i. rw (a.spent.start, a.spent.intvl) i) hs) in
        omega (arith, rest, a.called, a.spent.budget_le)

    -- With flow control on, the handler of a command that is not internal is called at most
    -- `max_req_limit + 1 - cur_req` times within one interval of an entry that serves and has
    -- `cur_req` requests counted, up to its limit: however many requests of the command arrive, of
    -- whatever age, and whatever the handler and the routers answer.
    pub processes-le :
        (cmd : ℤ)
        → (ltb_ℤ cmd (pos 100) && ltb_ℤ (pos 0) cmd) ≡ false
        → (qs : List (ℕ × ℕ × Request)) (limit : ℕ) (s : Svc) (w : W) (n : Node)
        → s.control_flag ≡ pos 1
        → node_of s.freq cmd ≡ some n
        → n.max_req_limit ≡ pos limit
        → n.status ≡ pos 0
        → n.cur_req ≤ limit
        → All (IsFor cmd n) qs
        → calls (processes s w qs) ≤ calls w + (limit + 1 - n.cur_req)
    processes-le cmd ext qs limit s w n on here b z room h =
        let bound =
          processes-budget cmd ext qs limit s w n on here (record { bound = b; room = λ _. room })
            h in
        ground (arith, bound)
