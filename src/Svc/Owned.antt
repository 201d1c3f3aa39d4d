-- ===== src/Svc/Owned.antt =====
-- frm/isgw_mgr_svc.cpp: the message object of a request.
use teaf.Prelude.{
  ℕ, zero, suc, ◌+◌, ◌≡◌, refl, ap, pos_part, [], ◌∙◌, ◌&&◌, ◌||◌, Option, List, arith, ltb,
  if◌then◌else◌, take, ℤ, pos, negsuc, ltb_ℤ, ◌==ℤ◌, if_intro,
}
use teaf.Amount.{get_status}
use teaf.Stat.{add_stat}
use teaf.Svc.{
  Svc, Request, internal, framed, raw, passed_through, max_inner_msg_len, forward_failed, report,
  refused, Handled, Dest, router, named, Result, answered, recycled, check, check_age, count_error,
  error_reject, error_timeout_frm, svc_reject, svc_timeout, svc_forward, forward_all, forward,
  add_route, knows, is_empty, proc_flag, route_flag, dispatch, answer, serve, process_internal,
  process, is_internal, count_amount, give_back, discard_span,
}

-- The objects that a worker still holds for a request.
abbrev pub held : Result → ℕ
held (answered reply ret) = 1
held recycled = 0

-- No object is given back or taken.
record Even (s s' : Svc) : Type 0 where
  even : s'.free_msgs ≡ s.free_msgs

-- Nor does anything change that the flow control looks at.
pub record Steady (s s' : Svc) : Type 0 where
  pub free : s'.free_msgs ≡ s.free_msgs
  pub same_freq : s'.freq ≡ s.freq
  pub same_flag : s'.control_flag ≡ s.control_flag

Steady-trans : (a b c : Svc) → Steady a b → Steady b c → Steady a c
Steady-trans a b c f g = record {
  free = g.free ∙ f.free;
  same_freq = g.same_freq ∙ f.same_freq;
  same_flag = g.same_flag ∙ f.same_flag;
}

count_error-Steady : (code : ℤ) (s : Svc) → Steady s (count_error code s)
count_error-Steady code s = record { free = refl; same_freq = refl; same_flag = refl }

Steady-refl : (s : Svc) → Steady s s
Steady-refl s = record { free = refl; same_freq = refl; same_flag = refl }

forward_all-Steady :
    (sends : Dest → ℤ) (idx k : ℕ) (s : Svc) → Steady s (forward_all sends idx k s).0
unfolding forward_all
forward_all-Steady sends idx zero s = Steady-refl s
forward_all-Steady sends idx (suc k) s =
    let s' = if ltb_ℤ (sends (router idx)) (pos 0) then count_error svc_forward s else s in
    let one : Steady s s' =
      if_intro (Steady s) (ltb_ℤ (sends (router idx)) (pos 0)) (count_error-Steady svc_forward s)
        (Steady-refl s) in
    Steady-trans s s' _ one (forward_all-Steady sends (suc idx) k s')

forward-Steady : (sends : Dest → ℤ) (s : Svc) (q : Request) → Steady s (forward sends s q).0
unfolding forward
forward-Steady sends s q =
    let app = take 32 q.appname in
    let s' = add_route app s in
    let one : Steady s s' =
      if_intro (Steady s) (knows s.routes app) (Steady-refl s)
        (record { free = refl; same_freq = refl; same_flag = refl }) in
    if_intro (λ (r : Svc × ℤ). Steady s r.0) (is_empty app) (forward_all-Steady sends 0 s.rtnum s)
      (if_intro (λ (r : Svc × ℤ). Steady s r.0) (ltb_ℤ (sends (named app)) (pos 0))
        {x = (count_error svc_forward s', negsuc 0)} {y = (s', pos 0)}
        (Steady-trans s s' (count_error svc_forward s') one (count_error-Steady svc_forward s'))
        one)

check_age-Even : (s : Svc) (span : ℕ) → Even s (check_age s span).0
check_age-Even s span =
    if_intro (λ (r : Svc × ℤ). Even s r.0)
      ((s.discard_flag ==ℤ pos 1) && ltb (discard_span s.discard_time) span)
      {x = (count_error svc_timeout s, error_timeout_frm)} {y = (s, pos 0)} (record { even = refl })
      (record { even = refl })

check-Even : (s : Svc) (q : Request) (now span : ℕ) → Even s (check s q now span).0
unfolding check
check-Even s q now span =
    let (freq', status) = get_status s.freq q.cmd now in
    let s' = record s { freq = freq' } in
    if_intro (λ (r : Svc × ℤ). Even s r.0) (s.control_flag ==ℤ pos 1)
      (if_intro (λ (r : Svc × ℤ). Even s r.0) (status ==ℤ pos 0)
        {y = (count_error svc_reject s', error_reject)}
        (record { even = (check_age-Even s' span).even }) (record { even = refl }))
      (check_age-Even s span)

-- The object stands in the result or in the queue.
pub record Settled (s s' : Svc) (r : Result) : Type 0 where
  pub once : s'.free_msgs + held r ≡ s.free_msgs + 1

answer-Settled :
    (flag : ℤ) (s : Svc) (q : Request) (h : Handled)
    → let (s', r) = answer flag s q h in Settled s s' r
unfolding answer
answer-Settled flag s q h =
    let framed_reply = framed (passed_through flag q) q.cmd h.ret h.ack_buf q.seqstr in
    let raw_reply = raw (take (pos_part h.ack_len) (take max_inner_msg_len h.ack_buf)) in
    if_intro (λ (p : Svc × Result). Settled s p.0 p.1) (ltb_ℤ h.ack_len (pos 0))
      {x = (give_back s, recycled)} (record { once = omega arith })
      (if_intro (λ (p : Svc × Result). Settled s p.0 p.1)
        ((h.ack_len ==ℤ pos 0) || (h.ack_len ==ℤ pos max_inner_msg_len))
        {x = (s, answered framed_reply h.ret)} {y = (s, answered raw_reply h.ret)}
        (record { once = refl }) (record { once = refl }))

after-Settled :
    (s s1 s2 s3 : Svc) (r : Result) → Even s s1 → Settled s1 s2 r → Even s2 s3 → Settled s s3 r
after-Settled s s1 s2 s3 r e t f = record { once = omega (arith, e.even, t.once, f.even) }

module _ {W : Type 0} (handler inner : W → Request → W × Handled) (sends : Dest → ℤ)
    (ports : List ℕ → Option ℤ) where
  pub dispatch-Steady :
      (s : Svc) (w : W) (q : Request) → Steady s (dispatch handler inner sends ports s w q).0
  unfolding dispatch
  dispatch-Steady s w q =
      let flag = proc_flag ports s q in
      let (w', h) = handler w q in
      let (s', ret') = forward sends s q in
      let reply : Handled =
        if ret' ==ℤ pos 0
        then record { ret = ret'; ack_buf = []; ack_len = negsuc 0 }
        else record { ret = ret'; ack_buf = forward_failed; ack_len = pos max_inner_msg_len } in
      if_intro (λ (p : Svc × W × Handled). Steady s p.0) (flag ==ℤ pos 0) {x = (s, w', h)}
        (Steady-refl s)
        (if_intro (λ (p : Svc × W × Handled). Steady s p.0) (flag ==ℤ pos 1) {x = (s', w, reply)}
          {y = (s', w', h)} (forward-Steady sends s q) (forward-Steady sends s q))

  count_amount-Even : (q : Request) (ret : ℤ) (s : Svc) → Even s (count_amount q ret s)
  count_amount-Even q ret s =
      if_intro (Even s) (s.control_flag ==ℤ pos 1) (record { even = refl }) (record { even = refl })

  serve-Settled :
      (s : Svc) (w : W) (q : Request)
      → let (s', w', r) = serve handler inner sends ports s w q in Settled s s' r
  unfolding serve
  serve-Settled s w q =
      let (s1, w1, h) = dispatch handler inner sends ports s w q in
      let (s2, r) = answer (route_flag s q) s1 q h in
      after-Settled s s1 s2 (count_amount q h.ret s2) r
        (record { even = (dispatch-Steady s w q).free }) (answer-Settled (route_flag s q) s1 q h)
        (count_amount-Even q h.ret s2)

  process_internal-Settled :
      (s : Svc) (w : W) (q : Request)
      → let (s', w', r) = process_internal handler inner sends ports s w q in Settled s s' r
  unfolding process_internal
  process_internal-Settled s w q =
      let (w', h) = inner w q in
      if_intro (λ (p : Svc × W × Result). Settled s p.0 p.2) (ltb_ℤ h.ack_len (pos 0))
        {x = (give_back s, w', recycled)}
        {y = (s, w', answered (internal q.cmd h.ret h.ack_buf) (pos 0))}
        (record { once = omega arith }) (record { once = refl })

  -- `process` neither loses nor doubles the object of a message: on every path, refusals and
  -- forwarding included, it either hands the object on as the answer or gives it back, once.
  pub process-Settled :
      (s : Svc) (w : W) (q : Request) (now span : ℕ)
      → let (s', w', r) = process handler inner sends ports s w q now span in Settled s s' r
  unfolding process
  process-Settled s w q now span =
      let s0 = record s { stat = add_stat s.stat (report q) } in
      let (s1, ret') = check s0 q now span in
      let refusal = answered (refused ret' q.body) ret' in
      let counted : Even s s0 = record { even = refl } in
      let inside = process_internal-Settled s0 w q in
      let checked = check-Even s0 q now span in
      let served = serve-Settled s1 w q in
      if_intro (λ (p : Svc × W × Result). Settled s p.0 p.2) (is_internal q)
        (record { once = inside.once })
        (if_intro (λ (p : Svc × W × Result). Settled s p.0 p.2) (ret' ==ℤ pos 0)
          {y = (s1, w, refusal)} (record { once = served.once ∙ ap (λ n. n + 1) checked.even })
          (record { once = ap (λ n. n + 1) checked.even }))
