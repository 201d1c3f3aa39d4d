-- ===== src/Tests/Bitmap.antt =====
-- comm/shm_bitmap_manager.cpp: a new segment for 10016 numbers.
use teaf.Prelude.{
  ℕ, ◌-◌, ◌/◌, ◌≤◌, ◌≡◌, refl, true, false, some, List, [], ◌∷◌, arith, ltb, if◌then◌else◌, pos,
}
use teaf.Bitmap.{
  Bitmap, Shm, bitmap_set, bitmap_clr, absent, clear, limit, max_uin_default, open_shm, guarded,
  get_bit, get_share_memory, handle_shm_bit_i, store, bit_now, count_bit, count_loop,
}
use teaf.Bitmap.Refine.{
  Represents, Call, run, set_of, after, member, memory_after, as_bit, guarded-Represents,
  open_shm-Represents, run-Represents, get_bit-run,
}
use teaf.Bitmap.Count.{members, count_bit-members}

abbrev dirty : ℕ → ℕ
dirty j = 255

abbrev segment : Shm
segment = record { lookup = absent; creates = true; attached = some dirty }

abbrev opened : Bitmap
opened = (open_shm 7 10016 segment).0

abbrev calls : List Call
calls =
    record { flag = bitmap_set; uin = 10001 }
    ∷ record { flag = bitmap_set; uin = 10003 }
    ∷ record { flag = bitmap_clr; uin = 10001 }
    ∷ []

kept_number : (get_bit (run opened calls) 10003).1 ≡ pos 1
unfolding open_shm get_share_memory limit guarded handle_shm_bit_i store bit_now
kept_number = refl

removed_number : (get_bit (run opened calls) 10001).1 ≡ pos 0
unfolding open_shm get_share_memory limit guarded handle_shm_bit_i store bit_now
removed_number = refl

count_of_calls : count_bit (run opened calls) ≡ pos 1
unfolding open_shm get_share_memory limit guarded handle_shm_bit_i store bit_now count_bit
    count_loop
count_of_calls = refl

opened-Represents : Represents opened (clear (limit 7 10016 / 8) dirty) (λ v. false)
unfolding limit
opened-Represents = (open_shm-Represents 7 10016 segment dirty refl refl refl refl).0

guarded-Represents_example :
    Represents
      (guarded bitmap_set opened 10001).0
      (memory_after opened bitmap_set (clear (limit 7 10016 / 8) dirty) 10001)
      (after opened.max_uin bitmap_set 10001 (λ v. false))
    × ((guarded bitmap_set opened 10001).1
        ≡ (if ltb 10001 opened.max_uin then pos (as_bit true) else pos 0))
guarded-Represents_example =
    guarded-Represents bitmap_set opened 10001 (clear (limit 7 10016 / 8) dirty) (λ v. false)
      opened-Represents

get_bit-run_example :
    (get_bit (run opened calls) 10003).1
    ≡ pos (as_bit (member (λ v. false) calls opened.max_uin 10003))
get_bit-run_example =
    get_bit-run opened calls 10003 (clear (limit 7 10016 / 8) dirty) (λ v. false) opened-Represents

run_limit : (run opened calls).max_uin ≤ max_uin_default
unfolding open_shm limit guarded handle_shm_bit_i get_share_memory
run_limit = omega arith

count_bit-members_example :
    count_bit (run opened calls)
    ≡ pos (
        members
          (set_of opened.max_uin (λ v. false) calls)
          ((run opened calls).max_uin - 10000)
          10000)
count_bit-members_example =
    count_bit-members (run opened calls) _ (set_of opened.max_uin (λ v. false) calls)
      (run-Represents opened calls (clear (limit 7 10016 / 8) dirty) (λ v. false)
        opened-Represents).1
      run_limit
