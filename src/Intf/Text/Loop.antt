-- ===== src/Intf/Text/Loop.antt =====
-- The loop of `handle_input` for messages that end with a separator, against the wire format.
use mathlib.Core.Option
use mathlib.Core.List.{append_assoc}
use teaf.Prelude.{
  HasNoNul, ℕ, zero, suc, ◌+◌, ◌<◌, ◌≡◌, ◌∙◌, refl, sym, ap, subst, Bool, true, false, none, some,
  [], ◌∷◌, ◌++◌, arith, ltb, Bytes, length, length-append, take, drop, Bool-cases, Option-cases,
  inl, inr, ◌⊎◌,
}
use teaf.Util.Url.{c_str}
use teaf.Util.Replace.{find}
use teaf.Util.Replace.Ends.{find-append}
use teaf.Intf.Frames.{Outcome, kept, closed}
use teaf.Intf.Frames.Spec.{Verdict, waiting, broken}
use teaf.Intf.Text.{TextProto, find_end, text_loop}
use teaf.Intf.Text.Spec.{Lines, partial, blank, refused, message}
use teaf.Intf.Text.Search.{find-length, find-more, find-late, c_str-append, take-exact, drop-exact}

module _ {W : Type 0} where
  -- The loop stops with the verdict's rest, and the bytes behind it, still to come.
  abbrev pub Stops : ℕ → Bytes → Outcome W (Bytes × ℕ × ℕ) → Verdict W → Type 0
  Stops recv_len garbage (kept w (msg_start, proced, n)) (waiting w' r) =
      (w ≡ w') × (msg_start ≡ r ++ garbage) × (proced + length r ≡ recv_len)
  Stops recv_len garbage (closed w) (broken w') = w ≡ w'
  Stops recv_len garbage o v = ⊥

find_end-valid :
    (p : TextProto) (b g : Bytes)
    → HasNoNul b
    → find_end p (b ++ g)
      ≡ Option.map (λ (q : Bytes × Bytes). q.0) (find p.separator (b ++ c_str g))
find_end-valid p b g h = rw (c_str-append b g h) refl

HasNoNul-behind : (u y : Bytes) → HasNoNul (u ++ y) → HasNoNul y
HasNoNul-behind [] y h = h
HasNoNul-behind (c ∷ u) y (more, h) = HasNoNul-behind u y h

Bytes-cases : (x : Bytes) → (x ≡ []) ⊎ ((c : ℕ) × (t : Bytes) × (x ≡ c ∷ t))
Bytes-cases [] = inl refl
Bytes-cases (c ∷ t) = inr (c, t, refl)

cut_at :
    (separator b g x y : Bytes)
    → find separator b ≡ some (x, y)
    → (take (length x + length separator) (b ++ g) ≡ x ++ separator)
      × (drop (length x + length separator) (b ++ g) ≡ y ++ g)
cut_at separator b g x y h =
    let whole : b ++ g ≡ (x ++ separator) ++ (y ++ g) =
      ap (λ l. l ++ g) (find-append separator b x y h ∙ sym (append_assoc x separator y))
      ∙ append_assoc (x ++ separator) y g in
    rw (← length-append x separator, whole)
      (take-exact (x ++ separator) (y ++ g), drop-exact (x ++ separator) (y ++ g))

module _ (p : TextProto) {W : Type 0} (process : W → Bytes → W × Bool)
    (some_sep : 0 < length p.separator) where
  -- What a message's end, found in the whole buffer, says of the bytes received.
  pub no_end : (b g : Bytes) → HasNoNul b → find_end p (b ++ g) ≡ none → find p.separator b ≡ none
  no_end b g h e = elim (Option-cases (find p.separator b)) [
    | inl absent ↦ absent
    | inr ((x, y), present) ↦
        let still = find-more p.separator b (c_str g) x y some_sep present in
        let bad : some x ≡ none =
          sym (find_end-valid p b g h ∙ ap (Option.map (λ (q : Bytes × Bytes). q.0)) still) ∙ e in
        absurd (cc)
  ]

  pub end_late :
      (b g x : Bytes)
      → HasNoNul b
      → find p.separator b ≡ none
      → find_end p (b ++ g) ≡ some x
      → length b < length x + length p.separator
  end_late b g x h absent e = elim (Option-cases (find p.separator (b ++ c_str g))) [
    | inl never ↦
        let bad : none ≡ some x = rw never at (sym (find_end-valid p b g h) ∙ e) in absurd (cc)
    | inr ((u, y), late) ↦
        let same : some u ≡ some x = rw late at (sym (find_end-valid p b g h) ∙ e) in
        let eq : u ≡ x = cc in
        omega (arith, find-late p.separator b (c_str g) u y some_sep absent late, ap length eq)
  ]

  end_here :
      (b g x y : Bytes)
      → HasNoNul b
      → find p.separator b ≡ some (x, y)
      → find_end p (b ++ g) ≡ some x
  end_here b g x y h here =
      find_end-valid p b g h
      ∙ ap (Option.map (λ (q : Bytes × Bytes). q.0))
          (find-more p.separator b (c_str g) x y some_sep here)

  pub text_loop-Lines :
      (fuel recv_len : ℕ) (w : W) (b g : Bytes) (proced n : ℕ)
      → proced + length b ≡ recv_len
      → HasNoNul b
      → length b < fuel
      → (v : Verdict W) × Lines p.separator process w b v
        × Stops recv_len g (text_loop p process recv_len fuel w (b ++ g) proced n) v
  unfolding text_loop
  text_loop-Lines zero recv_len w b g proced n fits h more = absurd (omega arith)
  text_loop-Lines (suc fuel) recv_len w b g proced n fits h more =
      elim (Option-cases (find p.separator b)) [
        | inl nowhere ↦ elim (Option-cases (find_end p (b ++ g))) [
          | inl absent ↦ (waiting w b, partial nowhere, rw (text_loop, absent) (refl, refl, fits))
          | inr (x, present) ↦
              let late = end_late b g x h nowhere present in
              elim (Bool-cases (ltb proced recv_len)) [
                | inl goes ↦
                    let over : ltb recv_len (proced + (length x + length p.separator)) ≡ true =
                      ground arith in
                    (
                      waiting w b,
                      partial nowhere,
                      rw (text_loop, present, goes, over) (refl, refl, fits),
                    )
                | inr ends ↦
                    (waiting w b, partial nowhere, rw (text_loop, present, ends) (refl, refl, fits))
              ]
        ]
        | inr ((x, y), here) ↦
            let size = find-length p.separator b x y here in
            let n' = length x + length p.separator in
            let found = end_here b g x y h here in
            let (takes, drops) = cut_at p.separator b g x y here in
            let goes : ltb proced recv_len ≡ true = ground arith in
            let over : ltb recv_len (proced + n') ≡ false = ground arith in
            let rest_fits : proced + n' + length y ≡ recv_len = omega arith in
            let behind : HasNoNul y = HasNoNul-behind (x ++ p.separator) y (
              subst HasNoNul
                (find-append p.separator b x y here ∙ sym (append_assoc x p.separator y)) h) in
            elim (Bytes-cases x) [
              | inl empty ↦
                  let plain : ltb (length p.separator) n' ≡ false =
                    ground (arith, ap length empty) in
                  let (v, lines, stops) =
                    text_loop-Lines fuel recv_len w y g (proced + n') n' rest_fits behind
                      (omega arith) in
                  (
                    v,
                    blank (here ∙ ap (λ k. some (k, y)) empty) lines,
                    rw (text_loop, found, goes, over, plain, drops) stops,
                  )
              | inr (c, t, filled) ↦
                  let long : ltb (length p.separator) n' ≡ true =
                    ground (arith, ap length filled) in
                  let here' = here ∙ ap (λ k. some (k, y)) filled in
                  let sent : take n' (b ++ g) ≡ (c ∷ t) ++ p.separator =
                    takes ∙ ap (λ k. k ++ p.separator) filled in
                  let msg = (c ∷ t) ++ p.separator in
                  elim (Bool-cases (process w msg).1) [
                    | inl done ↦
                        let handled : process w msg ≡ ((process w msg).0, true) =
                          ap (λ d. ((process w msg).0, d)) done in
                        let (v, lines, stops) =
                          text_loop-Lines fuel recv_len (process w msg).0 y g (proced + n') n'
                            rest_fits behind (omega arith) in
                        (
                          v,
                          message here' handled lines,
                          rw (text_loop, found, goes, over, long, sent, drops, handled) stops,
                        )
                    | inr failed ↦
                        let handled : process w msg ≡ ((process w msg).0, false) =
                          ap (λ d. ((process w msg).0, d)) failed in
                        (
                          broken (process w msg).0,
                          refused here' handled,
                          rw (text_loop, found, goes, over, long, sent, handled) refl,
                        )
                  ]
            ]
      ]
