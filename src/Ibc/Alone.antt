-- ===== src/Ibc/Alone.antt =====
-- A batch request by itself: its own parts, its answers, and what becomes of its record.
use teaf.Prelude.{ℕ, Bool, true, false, Option, none, some, List, [], ◌∷◌, ◌++◌, leb, if◌then◌else◌}
use teaf.Ibc.Records.{Key, Value, is_same}
use teaf.Ibc.Encode.{Reply, Buffer}
use teaf.Ibc.{Part, Oper, Limits, key_of, new_value, is_late, counted, finished}

abbrev pub addressee : Reply → Key
addressee r = record { sock_fd = r.sock_fd; sock_seq = r.sock_seq; msg_seq = r.seq_no }

-- The texts of the answers to a key.
abbrev pub texts : Key → List Reply → List Buffer
texts k [] = []
texts k (r ∷ rs) =
    let rest = texts k rs in if is_same k (addressee r) then (r.msg, r.msg_len) ∷ rest else rest

-- The parts of the request with a key.
abbrev pub own : Key → List (ℕ × Part) → List (ℕ × Part)
own k [] = []
own k (p ∷ ps) = let rest = own k ps in if is_same k (key_of p.1) then p ∷ rest else rest

-- A request by itself: its record, and the records that were answered.
abbrev pub closed_when : Bool → Oper → Value → Option Value × List Value
closed_when true oper v = (none, finished oper v ∷ [])
closed_when false oper v = (some v, [])

-- A part's result joined to what is there.
abbrev pub joined : Oper → Part → Option Value → Value
joined oper p none = oper.merge (counted (oper.process p).0 (new_value p)) (oper.process p).1
joined oper p (some v) = oper.merge (counted (oper.process p).0 v) (oper.process p).1

abbrev pub taken_when : Bool → Oper → Part → Option Value → Option Value × List Value
taken_when true oper p o = (o, [])
taken_when false oper p o = let v = joined oper p o in closed_when (leb v.total v.cnum) oper v

module _ (l : Limits) (create_oper : ℕ → Option Oper) where
  abbrev pub part_with : ℕ → Part → Option Value → Option Oper → Option Value × List Value
  part_with now p o none = (o, [])
  part_with now p o (some oper) = taken_when (is_late l now p) oper p o

  abbrev pub part : Option Value → ℕ × Part → Option Value × List Value
  part o (now, p) = part_with now p o (create_oper p.req.cmd)

  abbrev pub parts : Option Value → List (ℕ × Part) → Option Value × List Value
  parts o [] = (o, [])
  parts o (p ∷ ps) = ((parts (part o p).0 ps).0, (part o p).1 ++ (parts (part o p).0 ps).1)
