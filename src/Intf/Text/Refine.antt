-- ===== src/Intf/Text/Refine.antt =====
-- `handle_input` for messages that end with a separator, against the wire format.
use mathlib.Core.List.{append_assoc}
use teaf.Prelude.{
  HasNoNul, ℕ, suc, ◌+◌, ◌-◌, ◌<◌, ◌≤◌, ◌≡◌, refl, sym, ap, subst, Bool, true, none, [], ◌∷◌, ◌++◌,
  arith, ltb, ◌==◌, Bytes, length, length-append, length-take, take, drop, Bool-cases, Option-cases,
  inl, inr, ◌⊎◌,
}
use teaf.Intf.Frames.{Outcome, kept, closed, spin, got}
use teaf.Intf.Frames.Spec.{Verdict, waiting, broken}
use teaf.Intf.Text.{
  TextProto, TextIntf, find_end, is_legal, moved, received_at, text_settle, text_received,
  text_input,
}
use teaf.Intf.Text.Spec.{Lines, partial, blank, refused, message}
use teaf.Intf.Text.Search.{find-length, take-exact}
use teaf.Intf.Text.Loop.{Stops, no_end, text_loop-Lines}

module _ {W : Type 0} where
  -- The rest is the whole, or shorter.
  abbrev Shrinks : Bytes → Verdict W → Type 0
  Shrinks b (waiting w r) = (r ≡ b) ⊎ (length r < length b)
  Shrinks b (broken w) = Unit

  Shrinks-behind :
      (b behind : Bytes) (v : Verdict W) → length behind < length b → Shrinks behind v → Shrinks b v
  Shrinks-behind b behind (waiting w r) less (inl same) = inr (omega (arith, ap length same))
  Shrinks-behind b behind (waiting w r) less (inr shorter) = inr (omega arith)
  Shrinks-behind b behind (broken w) less h = tt

  -- The reader keeps the verdict's rest as the first bytes of its buffer, or closes.
  abbrev pub Leaves : Outcome W TextIntf → Verdict W → Type 0
  Leaves (kept w s) (waiting w' r) =
      (w ≡ w') × (take s.recv_len s.recv_buf ≡ r) × (s.recv_len ≡ length r)
  Leaves (closed w) (broken w') = w ≡ w'
  Leaves o v = ⊥

Lines-Shrinks :
    (separator : Bytes) {W : Type 0} (process : W → Bytes → W × Bool)
    → 0 < length separator
    → {w : W} {b : Bytes} {v : Verdict W} → Lines separator process w b v
    → Shrinks b v
Lines-Shrinks separator process some_sep (partial h) = inl refl
Lines-Shrinks separator process some_sep (blank {s = s} {behind = behind} {v = v} h lines) =
    Shrinks-behind s behind v (omega (arith, find-length separator s [] behind h))
      (Lines-Shrinks separator process some_sep lines)
Lines-Shrinks separator process some_sep (refused h d) = tt
Lines-Shrinks separator process some_sep
      (message {s = s} {before = before} {behind = behind} {c = c} {v = v} h d lines) =
    Shrinks-behind s behind v (omega (arith, find-length separator s (c ∷ before) behind h))
      (Lines-Shrinks separator process some_sep lines)

moved-take :
    (p : TextProto) (b g r : Bytes) (proced : ℕ)
    → (r ≡ b) ⊎ (length r < length b)
    → proced + length r ≡ length b
    → take (length r) (moved p (b ++ g) (r ++ g) proced (length r)) ≡ r
moved-take p b g r proced shrinks fits = elim (Bool-cases (proced == 0)) [
  | inl none_taken ↦
      rw none_taken
        (elim shrinks [ inl same ↦ rw same (take-exact b g) | inr shorter ↦ absurd (ground arith) ])
  | inr some_taken ↦ rw (some_taken, take-exact r g) (take-exact r (drop (length r) (b ++ g)))
]

text_settle-Leaves :
    (p : TextProto) {W : Type 0} (process : W → Bytes → W × Bool) (b g : Bytes) (now : ℕ)
    (o : Outcome W (Bytes × ℕ × ℕ)) (v : Verdict W)
    → Shrinks b v
    → Stops (length b) g o v
    → Leaves (text_settle p process (b ++ g) (length b) now o) v
unfolding text_settle
text_settle-Leaves p process b g now (kept w (ms, proced, n)) (waiting w' r) shrinks
      (same, start, fits) =
    let left : length b - proced ≡ length r = omega arith in
    rw (left, start) (same, moved-take p b g r proced shrinks fits, refl)
text_settle-Leaves p process b g now (kept w (ms, proced, n)) (broken w') shrinks h = h
text_settle-Leaves p process b g now (closed w) (waiting w' r) shrinks h = h
text_settle-Leaves p process b g now (closed w) (broken w') shrinks h = h
text_settle-Leaves p process b g now (spin w) v shrinks h = h

module _ (p : TextProto) {W : Type 0} (process : W → Bytes → W × Bool)
    (some_sep : 0 < length p.separator) where
  text_received-Lines :
      (now : ℕ) (w : W) (b g : Bytes) (n : ℕ)
      → HasNoNul b
      → length b < p.max_recv
      → (find_end p (b ++ g) ≡ none) ⊎ (is_legal p (b ++ g) ≡ true)
      → (v : Verdict W) × Lines p.separator process w b v
        × Leaves (text_received p process now w (b ++ g) (length b) n) v
  unfolding text_received
  text_received-Lines now w b g n h room ok = elim (Option-cases (find_end p (b ++ g))) [
    | inl absent ↦
        let fits : ltb (length b) p.max_recv ≡ true = ground arith in
        (
          waiting w b,
          partial (no_end p process some_sep b g h absent),
          rw (text_received, absent, fits) (refl, take-exact b g, refl),
        )
    | inr (x, present) ↦ elim ok [
      | inl absent ↦ absurd (cc)
      | inr legal ↦
          let (v, lines, stops) =
            text_loop-Lines p process some_sep (suc (length b)) (length b) w b g 0 n (omega arith) h
              (omega arith) in
          (
            v,
            lines,
            rw (text_received, present, legal)
                (text_settle-Leaves p process b g now _ v
                  (Lines-Shrinks p.separator process some_sep lines) stops),
          )
    ]
  ]

  -- A read that leaves room in the buffer, where the bytes received so far have no NUL, the separator is
  -- not empty and recv_len is within the buffer: unless the separator is found in the buffer and the
  -- command's name is not, handle_input processes the messages that the bytes received
  -- so far hold by the wire format, in order, and keeps what is behind the last separator as the first
  -- bytes of the buffer, or closes at the first message that is refused. What stands in the buffer
  -- behind the bytes received has no effect on it.
  pub text_input-Lines :
      (now : ℕ) (w : W) (s : TextIntf) (bytes : Bytes)
      → s.recv_len ≤ length s.recv_buf
      → HasNoNul (take s.recv_len s.recv_buf ++ bytes)
      → s.recv_len + length bytes < p.max_recv
      → (find_end p (received_at s.recv_buf s.recv_len bytes) ≡ none)
        ⊎ (is_legal p (received_at s.recv_buf s.recv_len bytes) ≡ true)
      → (v : Verdict W) × Lines p.separator process w (take s.recv_len s.recv_buf ++ bytes) v
        × Leaves (text_input p process now w s (got bytes)) v
  unfolding text_input
  text_input-Lines now w s bytes inside h room ok =
      let held = take s.recv_len s.recv_buf in
      let g = drop (s.recv_len + length bytes) s.recv_buf in
      let whole : received_at s.recv_buf s.recv_len bytes ≡ (held ++ bytes) ++ g =
        sym (append_assoc held bytes g) in
      let size : s.recv_len + length bytes ≡ length (held ++ bytes) =
        omega (arith, length-append held bytes, length-take s.recv_len s.recv_buf) in
      let (v, lines, leaves) =
        text_received-Lines now w (held ++ bytes) g s.msg_len h (omega arith)
          (subst (λ l. (find_end p l ≡ none) ⊎ (is_legal p l ≡ true)) whole ok) in
      (
        v,
        lines,
        subst
            (λ l. Leaves (text_received p process now w l (s.recv_len + length bytes) s.msg_len) v)
            (sym whole)
            (subst
              (λ k. Leaves (text_received p process now w ((held ++ bytes) ++ g) k s.msg_len) v)
              (sym size) leaves),
      )
