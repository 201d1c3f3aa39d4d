-- ===== src/Intf/Frames/Refine.antt =====
-- `handle_input` of frm/isgw_intf.cpp reads the stream as the wire format says, however the
-- network cuts it into reads.
use mathlib.Core.List.{append_assoc, append-nil}
use teaf.Prelude.{
  ℕ, zero, suc, ◌+◌, ◌≤◌, ◌<◌, ◌≡◌, refl, sym, subst, ap, ◌∙◌, ◌⊎◌, inl, inr, Bool, true, false,
  List, [], ◌∷◌, ◌++◌, arith, ltb, leb, ◌==◌, length, drop, length-append, length-drop, Bool-cases,
  leb→le, ltb→lt,
}
use teaf.Intf.Frames.{
  Proto, Intf, Recv, failed, hung_up, got, Outcome, kept, closed, spin, and_then, header, illegal,
  payload, drain, settle, complete, handle_input, handle_inputs,
}
use teaf.Intf.Frames.Spec.{
  Verdict, waiting, broken, Reads, short, bad, partial, refused, message, Reads-append,
  Reads-functional, header-append,
}

-- What the reader keeps between two calls: fewer bytes than a header, or a legal header and
-- fewer bytes than its frame, with the length remembered.
abbrev pub IsWaiting : Proto → List ℕ → ℕ → Type 0
IsWaiting p buf n =
    ((n ≡ 0) × (length buf < p.len_size))
    ⊎ ((p.len_size ≤ length buf)
        × (n ≡ header p buf)
        × (illegal p n ≡ false)
        × (length buf < p.extra + n))

suc_ne-zero : (k : ℕ) → (suc k == 0) ≡ false
suc_ne-zero k = ground arith

IsWaiting-functional :
    (p : Proto) (s : List ℕ) {n n' : ℕ} → IsWaiting p s n → IsWaiting p s n' → n ≡ n'
IsWaiting-functional p s (inl (e, few)) (inl (e', few')) = e ∙ sym e'
IsWaiting-functional p s (inl (e, few)) (inr (a, e', b, few')) = absurd (omega arith)
IsWaiting-functional p s (inr (a, e, b, few)) (inl (e', few')) = absurd (omega arith)
IsWaiting-functional p s (inr (a, e, b, few)) (inr (a', e', b', few')) = e ∙ sym e'

abbrev world_of : {W : Type 0} → Verdict W → W
world_of (waiting w s) = w
world_of (broken w) = w

abbrev rest_of : {W : Type 0} → Verdict W → List ℕ
rest_of (waiting w s) = s
rest_of (broken w) = []

module _ (p : Proto) {W : Type 0} (process : W → List ℕ → W × Bool) where
  -- An outcome after the stream `s` is the one that the wire format gives.
  abbrev pub Follows : W → List ℕ → Outcome W Intf → Type 0
  Follows w s (kept w' t) =
      Reads p process w s (waiting w' t.recv_buf) × IsWaiting p t.recv_buf t.msg_len
  Follows w s (closed w') = Reads p process w s (broken w')
  Follows w s (spin w') = ⊥

  abbrev Drained : W → List ℕ → Outcome W (List ℕ × ℕ) → Type 0
  Drained w s (kept w' (rest, n)) = Reads p process w s (waiting w' rest) × IsWaiting p rest n
  Drained w s (closed w') = Reads p process w s (broken w')
  Drained w s (spin w') = ⊥

  Drained-lift :
      (w w' : W) (s s' : List ℕ) (o : Outcome W (List ℕ × ℕ))
      → ((v : Verdict W) → Reads p process w' s' v → Reads p process w s v)
      → Drained w' s' o
      → Drained w s o
  Drained-lift w w' s s' (kept u (rest, n)) lift (r, i) = (lift (waiting u rest) r, i)
  Drained-lift w w' s s' (closed u) lift r = lift (broken u) r
  Drained-lift w w' s s' (spin u) lift r = r

  drain-Drained :
      (fuel : ℕ) (w : W) (s : List ℕ)
      → 0 < p.len_size
      → length s < fuel
      → p.len_size ≤ length s
      → illegal p (header p s) ≡ false
      → Drained w s (drain p process fuel w s (header p s))
  unfolding drain
  drain-Drained zero w s pos h a b = elim h [ ]
  drain-Drained (suc fuel) w s pos h a b =
      elim (Bool-cases (leb (p.extra + header p s) (length s))) [
        | inr few ↦
            let few' : length s < p.extra + header p s = ground arith in
            rw (few, drain) (partial a b few', inr (a, refl, b, few'))
        | inl enough ↦
            let fits = leb→le (p.extra + header p s) (length s) enough in
            elim (Bool-cases accepted.1) [
              | inr failed' ↦
                  rw (enough, failed', drain) (refused a b fits (λ i. (accepted.0, failed' i)))
              | inl done ↦
                  let big : p.len_size < header p s = ground arith in
                  let read = λ (v : Verdict W) (r : Reads p process accepted.0 rest v).
                    message {w = w} {s = s} a b fits (λ i. (accepted.0, done i)) r in
                  elim (Bool-cases (ltb (length rest) p.len_size)) [
                    | inl few ↦
                        let few' = ltb→lt (length rest) p.len_size few in
                        rw (enough, done, few, drain)
                          (read (waiting accepted.0 rest) (short few'), inl (refl, few'))
                    | inr more ↦ elim (Bool-cases (illegal p (header p rest))) [
                      | inl wrong ↦
                          rw (enough, done, more, wrong, drain)
                            (read (broken accepted.0) (bad (ground arith) wrong))
                      | inr right ↦
                          rw (enough, done, more, right, drain)
                            (Drained-lift w accepted.0 s rest
                              (drain p process fuel accepted.0 rest (header p rest)) read
                              (drain-Drained fuel accepted.0 rest pos
                                (omega (arith, length-drop (p.extra + header p s) s, big))
                                (ground arith) right))
                    ]
                  ]
            ]
      ]
    where
      accepted : W × Bool
      accepted = process w (payload p (header p s) s)

      rest : List ℕ
      rest = drop (p.extra + header p s) s

  settle-Follows :
      (now : ℕ) (w : W) (s : List ℕ) (o : Outcome W (List ℕ × ℕ))
      → 0 < p.len_size
      → Drained w s o
      → Follows w s (settle p process now o)
  unfolding settle
  settle-Follows now w s (kept u ([], n)) pos (r, i) = (r, inl (refl, pos))
  settle-Follows now w s (kept u (b ∷ rest, n)) pos (r, i) =
      rw (suc_ne-zero (length rest), settle) (r, i)
  settle-Follows now w s (closed u) pos r = r
  settle-Follows now w s (spin u) pos r = r

  complete-Follows :
      (now : ℕ) (w : W) (s : List ℕ)
      → 0 < p.len_size
      → p.len_size ≤ length s
      → illegal p (header p s) ≡ false
      → Follows w s (complete p process now w s (header p s))
  unfolding complete
  complete-Follows now w s pos a b = elim (Bool-cases (ltb (length s) (p.extra + header p s))) [
    | inl few ↦
        let few' = ltb→lt (length s) (p.extra + header p s) few in
        rw (few, complete) (partial a b few', inr (a, refl, b, few'))
    | inr enough ↦
        rw (enough, complete)
          (settle-Follows now w s (drain p process (suc (length s)) w s (header p s)) pos
            (drain-Drained (suc (length s)) w s pos (omega arith) a b))
  ]

  -- One read of `bytes` takes the reader from the stream before them to the stream with them.
  pub handle_input-Follows :
      (now : ℕ) (w : W) (s : Intf) (bytes : List ℕ)
      → 0 < p.len_size
      → IsWaiting p s.recv_buf s.msg_len
      → Follows w (s.recv_buf ++ bytes) (handle_input p process now w s (got bytes))
  unfolding handle_input
  handle_input-Follows now w s bytes pos (inl (e, few)) =
      let buf = s.recv_buf ++ bytes in
      let fresh : (s.msg_len == 0) ≡ true = ground arith in
      elim (Bool-cases (ltb (length buf) p.len_size)) [
        | inl less ↦
            let less' = ltb→lt (length buf) p.len_size less in
            rw (fresh, less, handle_input) (short less', inl (refl, less'))
        | inr more ↦ elim (Bool-cases (illegal p (header p buf))) [
          | inl wrong ↦ rw (fresh, more, wrong, handle_input) (bad (ground arith) wrong)
          | inr right ↦
              rw (fresh, more, right, handle_input)
                (complete-Follows now w buf pos (ground arith) right)
        ]
      ]
  handle_input-Follows now w s bytes pos (inr (a, e, b, few)) =
      let buf = s.recv_buf ++ bytes in
      let same : s.msg_len ≡ header p buf = e ∙ sym (header-append p s.recv_buf bytes a) in
      let known : (s.msg_len == 0) ≡ false = ground arith in
      rw (known, handle_input)
        (subst (λ n. Follows w buf (complete p process now w buf n)) (sym same)
          (complete-Follows now w buf pos (omega (arith, length-append s.recv_buf bytes))
            (subst (λ n. illegal p n ≡ false) same b)))

  -- The bytes that a sequence of reads brings, where none of them ends the connection.
  abbrev pub received : List (ℕ × Recv) → List ℕ
  received [] = []
  received ((now, got bytes) ∷ rs) = bytes ++ received rs
  received ((now, failed again) ∷ rs) = received rs
  received ((now, hung_up) ∷ rs) = received rs

  abbrev pub IsOpen : List (ℕ × Recv) → Type 0
  IsOpen [] = Unit
  IsOpen ((now, got bytes) ∷ rs) = IsOpen rs
  IsOpen ((now, failed again) ∷ rs) = (again ≡ true) × IsOpen rs
  IsOpen ((now, hung_up) ∷ rs) = ⊥

  IsWaiting-Reads :
      (w : W) (s : List ℕ) (n : ℕ) → IsWaiting p s n → Reads p process w s (waiting w s)
  IsWaiting-Reads w s n (inl (e, few)) = short few
  IsWaiting-Reads w s n (inr (a, e, b, few)) =
      partial a (subst (λ k. illegal p k ≡ false) e b) (omega arith)

  Follows-and_then :
      (w : W) (s more : List ℕ) (o : Outcome W Intf) (next : W → Intf → Outcome W Intf)
      → Follows w s o
      → ((u : W) (t : Intf)
          → IsWaiting p t.recv_buf t.msg_len
          → Follows u (t.recv_buf ++ more) (next u t))
      → Follows w (s ++ more) (and_then o next)
  Follows-and_then w s more (kept u t) next (r, i) h = lift (next u t) (h u t i)
    where
      lift : (o : Outcome W Intf) → Follows u (t.recv_buf ++ more) o → Follows w (s ++ more) o
      lift (kept u' t') (r', i') = (Reads-append p process more (waiting u' t'.recv_buf) r r', i')
      lift (closed u') r' = Reads-append p process more (broken u') r r'
      lift (spin u') r' = r'
  Follows-and_then w s more (closed u) next r h = Reads-append p process more (broken u) r refl
  Follows-and_then w s more (spin u) next r h = absurd r

  -- However the network cuts a stream into reads, the messages that the loop processes, the
  -- bytes that it keeps and the error that it stops at are those of the whole stream.
  pub handle_inputs-Follows :
      (w : W) (s : Intf) (rs : List (ℕ × Recv))
      → 0 < p.len_size
      → IsWaiting p s.recv_buf s.msg_len
      → IsOpen rs
      → Follows w (s.recv_buf ++ received rs) (handle_inputs p process w s rs)
  unfolding handle_inputs handle_input
  handle_inputs-Follows w s [] pos i live =
      rw (append-nil s.recv_buf) (IsWaiting-Reads w s.recv_buf s.msg_len i, i)
  handle_inputs-Follows w s ((now, failed again) ∷ rs) pos i (retry, live) =
      rw (retry, handle_input)
        (handle_inputs-Follows w (record s { lastrtime = now }) rs pos i live)
  handle_inputs-Follows w s ((now, hung_up) ∷ rs) pos i live = elim live [ ]
  handle_inputs-Follows w s ((now, got bytes) ∷ rs) pos i live =
      rw (← append_assoc s.recv_buf bytes (received rs)) (
        Follows-and_then w (s.recv_buf ++ bytes) (received rs)
          (handle_input p process now w s (got bytes)) (λ u t. handle_inputs p process u t rs)
          (handle_input-Follows now w s bytes pos i)
          (λ u t i'. handle_inputs-Follows u t rs pos i' live))

  -- Two outcomes that nothing tells apart but the times of the calls.
  abbrev pub Same : Outcome W Intf → Outcome W Intf → Type 0
  Same (kept u s) (kept v t) = (u ≡ v) × (s.recv_buf ≡ t.recv_buf) × (s.msg_len ≡ t.msg_len)
  Same (closed u) (closed v) = u ≡ v
  Same _ _ = ⊥

  Follows-Same :
      (w : W) (s : List ℕ) (o o' : Outcome W Intf) → Follows w s o → Follows w s o' → Same o o'
  Follows-Same w s (kept u a) (kept v b) (r, i) (r', i') =
      let e = Reads-functional p process r r' in
      let same : a.recv_buf ≡ b.recv_buf = ap rest_of e in
      (
        ap world_of e,
        same,
        IsWaiting-functional p a.recv_buf i (subst (λ l. IsWaiting p l b.msg_len) (sym same) i'),
      )
  Follows-Same w s (kept u a) (closed v) (r, i) r' = cc (Reads-functional p process r r')
  Follows-Same w s (closed u) (kept v b) r (r', i') = cc (Reads-functional p process r r')
  Follows-Same w s (closed u) (closed v) r r' = ap world_of (Reads-functional p process r r')
  Follows-Same w s (spin u) o' r r' = elim r [ ]
  Follows-Same w s (kept u a) (spin v) r r' = elim r' [ ]
  Follows-Same w s (closed u) (spin v) r r' = elim r' [ ]

  -- How the network cuts the bytes is of no consequence: two sequences of reads that bring the
  -- same bytes, and do not end the connection, leave the same world, buffer and message length,
  -- or both close.
  pub handle_inputs-Same :
      (w : W) (s : Intf) (rs qs : List (ℕ × Recv))
      → 0 < p.len_size
      → IsWaiting p s.recv_buf s.msg_len
      → IsOpen rs
      → IsOpen qs
      → received rs ≡ received qs
      → Same (handle_inputs p process w s rs) (handle_inputs p process w s qs)
  handle_inputs-Same w s rs qs pos i live live' e =
      Follows-Same w (s.recv_buf ++ received rs) (handle_inputs p process w s rs)
        (handle_inputs p process w s qs) (handle_inputs-Follows w s rs pos i live)
        (rw e (handle_inputs-Follows w s qs pos i live'))
