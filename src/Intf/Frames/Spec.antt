-- ===== src/Intf/Frames/Spec.antt =====
-- The wire format of length-prefixed messages, as a relation on the whole stream. It is the
-- specification of `handle_input` in frm/isgw_intf.cpp, and knows of no buffer and no reads.
use teaf.Prelude.{
  ℕ, ◌+◌, ◌≤◌, ◌<◌, ◌≡◌, sym, subst, ap, ◌∙◌, Bool, true, false, List, ◌++◌, arith, length, drop,
  length-drop, length-append, take-append, drop-append,
}
use teaf.Intf.Frames.{Proto, header, illegal, payload}

-- A stream is read up to a rest that is no complete message, or up to an error.
pub data Verdict (W : Type 0) : Type 0 where
  waiting : W → List ℕ → Verdict W
  broken : W → Verdict W

module _ (p : Proto) {W : Type 0} (process : W → List ℕ → W × Bool) where
  pub data Reads : W → List ℕ → Verdict W → Type 0 where
    short : {w : W} {s : List ℕ} → length s < p.len_size → Reads w s (waiting w s)
    bad :
        {w : W} {s : List ℕ}
        → p.len_size ≤ length s
        → illegal p (header p s) ≡ true
        → Reads w s (broken w)
    partial :
        {w : W} {s : List ℕ}
        → p.len_size ≤ length s
        → illegal p (header p s) ≡ false
        → length s < p.extra + header p s
        → Reads w s (waiting w s)
    refused :
        {w w' : W} {s : List ℕ}
        → p.len_size ≤ length s
        → illegal p (header p s) ≡ false
        → p.extra + header p s ≤ length s
        → process w (payload p (header p s) s) ≡ (w', false)
        → Reads w s (broken w')
    message :
        {w w' : W} {s : List ℕ} {v : Verdict W}
        → p.len_size ≤ length s
        → illegal p (header p s) ≡ false
        → p.extra + header p s ≤ length s
        → process w (payload p (header p s) s) ≡ (w', true)
        → Reads w' (drop (p.extra + header p s) s) v
        → Reads w s v

-- More bytes behind a frame change nothing in it.
module _ (p : Proto) (s more : List ℕ) where
  pub header-append : p.len_size ≤ length s → header p (s ++ more) ≡ header p s
  unfolding header
  header-append h = rw (take-append p.len_size s more h)

  payload-append : (n : ℕ) → p.extra + n ≤ length s → payload p n (s ++ more) ≡ payload p n s
  payload-append n h =
      rw (drop-append p.extra s more (omega arith))
        (take-append n (drop p.extra s) more (omega (arith, length-drop p.extra s)))

module _ (p : Proto) {W : Type 0} (process : W → List ℕ → W × Bool) where
  -- The format leaves no choice: a stream has one reading.
  pub Reads-functional :
      {w : W} {s : List ℕ} {v v' : Verdict W}
      → Reads p process w s v
      → Reads p process w s v'
      → v ≡ v'
  Reads-functional (message {w' = x} {s = s} {v = v} a b c e r)
        (message {w' = y} {v = v'} a' b' c' e' r') =
      let same : y ≡ x = ap (λ (q : W × Bool). q.0) (sym e' ∙ e) in
      Reads-functional r (subst (λ u. Reads p process u (drop (p.extra + header p s) s) v') same r')
  Reads-functional (short a) (short a') = ground arith
  Reads-functional (short a) (bad a' b') = ground arith
  Reads-functional (short a) (partial a' b' c') = ground arith
  Reads-functional (short a) (refused a' b' c' e') = ground arith
  Reads-functional (short a) (message a' b' c' e' r') = ground arith
  Reads-functional (bad a b) (short a') = ground arith
  Reads-functional (bad a b) (bad a' b') = ground arith
  Reads-functional (bad a b) (partial a' b' c') = ground arith
  Reads-functional (bad a b) (refused a' b' c' e') = ground arith
  Reads-functional (bad a b) (message a' b' c' e' r') = ground arith
  Reads-functional (partial a b c) (short a') = ground arith
  Reads-functional (partial a b c) (bad a' b') = ground arith
  Reads-functional (partial a b c) (partial a' b' c') = ground arith
  Reads-functional (partial a b c) (refused a' b' c' e') = ground arith
  Reads-functional (partial a b c) (message a' b' c' e' r') = ground arith
  Reads-functional (refused a b c e) (short a') = ground arith
  Reads-functional (refused a b c e) (bad a' b') = ground arith
  Reads-functional (refused a b c e) (partial a' b' c') = ground arith
  Reads-functional (refused a b c e) (refused a' b' c' e') = ground arith
  Reads-functional (refused a b c e) (message a' b' c' e' r') = ground arith
  Reads-functional (message a b c e r) (short a') = ground arith
  Reads-functional (message a b c e r) (bad a' b') = ground arith
  Reads-functional (message a b c e r) (partial a' b' c') = ground arith
  Reads-functional (message a b c e r) (refused a' b' c' e') = ground arith

  -- What more bytes make of a reading.
  abbrev pub Extends : List ℕ → Verdict W → Verdict W → Type 0
  Extends more (waiting w rest) v = Reads p process w (rest ++ more) v
  Extends more (broken w) v = v ≡ broken w

  -- Reading a stream in two parts is reading it at once.
  pub Reads-append :
      {w : W} {s : List ℕ} {u : Verdict W} (more : List ℕ) (v : Verdict W)
      → Reads p process w s u
      → Extends more u v
      → Reads p process w (s ++ more) v
  Reads-append more v (short a) h = h
  Reads-append {s} more v (bad {w = w} a b) h =
      subst (Reads p process w (s ++ more)) (sym h)
        (bad (omega (arith, length-append s more)) (rw (header-append p s more a) b))
  Reads-append more v (partial a b c) h = h
  Reads-append {s} more v (refused {w = w} {w' = w'} a b c e) h =
      let same = header-append p s more a in
      subst (Reads p process w (s ++ more)) (sym h) (
        refused (omega (arith, length-append s more)) (rw same b)
          (rw same (omega (arith, length-append s more)))
          (rw (same, payload-append p s more (header p s) c) e))
  Reads-append {s} more v (message {w' = w'} a b c e r) h =
      let same = header-append p s more a in
      message {w' = w'} (omega (arith, length-append s more)) (rw same b)
        (rw same (omega (arith, length-append s more)))
        (rw (same, payload-append p s more (header p s) c) e)
        (rw (same, drop-append (p.extra + header p s) s more c) (Reads-append more v r h))
