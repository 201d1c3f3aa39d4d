-- ===== src/Ack/Late.antt =====
-- frm/isgw_ack.cpp with comm/stat.cpp: answers that come too late.
use teaf.Prelude.{ℕ, ◌*◌, ◌≡◌, ◌++◌, refl, [], ◌∷◌, arith, ltb, inl, Bool-cases, inr, ap}
use teaf.Stat.Totals.{incre_stat-lost}
use teaf.Ack.{Ack, Acks, putq}
use teaf.Prelude.{pos}

-- `putq` adds the answer at the end of the queue, and that is all: however late it comes, no counter
-- changes, since `incre_stat` ignores STAT_CODE_PUT_ACK_TOOLATE.
pub putq-uncounted :
    (s : Acks) (ack : Ack) (time_diff : ℕ)
    → putq s ack time_diff ≡ record s { msg_queue = s.msg_queue ++ (ack ∷ []) }
unfolding putq
putq-uncounted s ack time_diff = elim (Bool-cases (ltb (1 * 10000) time_diff)) [
  | inr early ↦ rw early refl
  | inl late ↦ rw late (
      ap (λ st. record s { msg_queue = s.msg_queue ++ (ack ∷ []); stat = st })
        (incre_stat-lost s.stat 20232 (pos 1) (inl (omega arith, omega arith))))
]
