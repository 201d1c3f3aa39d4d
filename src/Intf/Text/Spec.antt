-- ===== src/Intf/Text/Spec.antt =====
-- The wire format of messages that end with a separator, as a relation on the bytes received. It
-- knows of no buffer and of nothing behind these bytes.
use teaf.Prelude.{ℕ, ◌≡◌, Bool, true, false, none, some, [], ◌∷◌, ◌++◌, Bytes}
use teaf.Util.Replace.{find}
use teaf.Intf.Frames.Spec.{Verdict, waiting, broken}

module _ (separator : Bytes) {W : Type 0} (process : W → Bytes → W × Bool) where
  -- A line that is empty is passed over.
  pub data Lines : W → Bytes → Verdict W → Type 0 where
    partial : {w : W} {s : Bytes} → find separator s ≡ none → Lines w s (waiting w s)
    blank :
        {w : W} {s behind : Bytes} {v : Verdict W}
        → find separator s ≡ some ([], behind)
        → Lines w behind v
        → Lines w s v
    refused :
        {w w' : W} {s before behind : Bytes} {c : ℕ}
        → find separator s ≡ some (c ∷ before, behind)
        → process w ((c ∷ before) ++ separator) ≡ (w', false)
        → Lines w s (broken w')
    message :
        {w w' : W} {s before behind : Bytes} {c : ℕ} {v : Verdict W}
        → find separator s ≡ some (c ∷ before, behind)
        → process w ((c ∷ before) ++ separator) ≡ (w', true)
        → Lines w' behind v
        → Lines w s v
