-- ===== src/Tests/Frames.antt =====
-- frm/isgw_intf.cpp, the reader of length-prefixed messages, at concrete streams.
use teaf.Prelude.{ℕ, ◌≡◌, refl, inl, Bool, true, List, [], ◌∷◌, ◌++◌, arith}
use teaf.Intf.Frames.{
  Proto, fresh, Recv, failed, got, kept, closed, handle_input, handle_inputs, header,
}
use teaf.Intf.Frames.Refine.{Follows, Same, received, handle_inputs-Follows, handle_inputs-Same}
use teaf.Intf.Frames.Oversize.{read_twice, oversize-closed}

-- MSG_LEN_SIZE 4, the length not counted in itself, a buffer of 16 bytes.
abbrev proto : Proto
proto = record { len_size = 4; extra = 4; max_recv = 16 }

-- A world that keeps the messages.
abbrev log : List (List ℕ) → List ℕ → List (List ℕ) × Bool
log w m = (w ++ (m ∷ []), true)

abbrev message_bytes : List ℕ
message_bytes = 0 ∷ 0 ∷ 0 ∷ 5 ∷ 1 ∷ 2 ∷ 3 ∷ 4 ∷ 5 ∷ []

-- One message and the head of the next, in one read and in three.
abbrev at_once : List (ℕ × Recv)
at_once = (1, got (0 ∷ 0 ∷ 0 ∷ 5 ∷ 1 ∷ 2 ∷ 3 ∷ 4 ∷ 5 ∷ 0 ∷ 0 ∷ [])) ∷ []

abbrev in_pieces : List (ℕ × Recv)
in_pieces =
    (1, got (0 ∷ 0 ∷ []))
    ∷ (2, got (0 ∷ 5 ∷ 1 ∷ 2 ∷ []))
    ∷ (3, failed true)
    ∷ (4, got (3 ∷ 4 ∷ 5 ∷ 0 ∷ 0 ∷ []))
    ∷ []

reads_at_once :
    handle_inputs proto log [] fresh at_once
    ≡ kept
        ((1 ∷ 2 ∷ 3 ∷ 4 ∷ 5 ∷ []) ∷ [])
        (record { recv_buf = 0 ∷ 0 ∷ []; msg_len = 0; lastrtime = 1 })
unfolding handle_inputs handle_input header
reads_at_once = refl

reads_in_pieces :
    handle_inputs proto log [] fresh in_pieces
    ≡ kept
        ((1 ∷ 2 ∷ 3 ∷ 4 ∷ 5 ∷ []) ∷ [])
        (record { recv_buf = 0 ∷ 0 ∷ []; msg_len = 0; lastrtime = 4 })
unfolding handle_inputs handle_input header
reads_in_pieces = refl

handle_inputs-Follows_example :
    Follows proto log [] (received proto log in_pieces) (handle_inputs proto log [] fresh in_pieces)
handle_inputs-Follows_example =
    handle_inputs-Follows proto log [] fresh in_pieces (omega arith) (inl (refl, omega arith))
      (refl, tt)

handle_inputs-Same_example :
    Same proto log
      (handle_inputs proto log [] fresh at_once)
      (handle_inputs proto log [] fresh in_pieces)
handle_inputs-Same_example =
    handle_inputs-Same proto log [] fresh at_once in_pieces (omega arith) (inl (refl, omega arith))
      tt (refl, tt) refl

-- A message of 14 bytes is legal in a buffer of 16, and does not fit with its length.
abbrev long_message : List ℕ
long_message = 0 ∷ 0 ∷ 0 ∷ 14 ∷ 1 ∷ 2 ∷ 3 ∷ 4 ∷ 5 ∷ 6 ∷ 7 ∷ 8 ∷ 9 ∷ 10 ∷ 11 ∷ 12 ∷ 13 ∷ 14 ∷ []

oversize-closed_example : read_twice proto log 7 [] fresh long_message ≡ closed []
unfolding header
oversize-closed_example =
    oversize-closed proto log long_message (omega arith) (omega arith) refl (omega arith)
      (omega arith) 7 []
