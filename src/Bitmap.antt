-- ===== src/Bitmap.antt =====
-- comm/shm_bitmap_manager.{h,cpp}: one bit for each number (`uin`) in shared memory, `Bitmap`.
pub mod Bits
pub mod Refine
pub mod Count
use Prim.Native.Nat.{bit_and, bit_or}
use mathlib.Core.Option
use teaf.Prelude.{
  ℕ, zero, suc, ◌+◌, ◌-◌, ◌/◌, ◌%◌, ◌^◌, Bool, ◌||◌, Option, none, some, ltb, ◌==◌, if◌then◌else◌,
  ℤ, pos, negsuc, u32_mod, add32,
}

-- MAX_UIN.
abbrev pub max_uin_default : ℕ
max_uin_default = 0x80000000

-- `shm_addr` is the shared memory by byte offset, or NULL. The value -1 is never stored in it.
pub record Bitmap : Type 0 where
  pub shm_addr : Option (ℕ → ℕ)
  pub max_uin : ℕ

-- What the calls of the operating system in `get_share_memory` return: the first `shmget`, whether
-- the one with IPC_CREAT succeeds, and `shmat`.
pub data Lookup : Type 0 where
  found : Lookup
  absent : Lookup
  refused : Lookup

pub record Shm : Type 0 where
  pub lookup : Lookup
  pub creates : Bool
  pub attached : Option (ℕ → ℕ)

-- `memset(shm_addr, 0, size)`.
abbrev pub clear : ℕ → (ℕ → ℕ) → ℕ → ℕ
clear size a j = if ltb j size then 0 else a j

abbrev pub get_segment : Lookup → ℕ → Shm → Option (ℕ → ℕ)
get_segment found size shm = shm.attached
get_segment absent size shm = if shm.creates then Option.map (clear size) shm.attached else none
get_segment refused size shm = none

unfoldable pub get_share_memory : ℕ → Shm → Option (ℕ → ℕ)
get_share_memory size shm = get_segment shm.lookup size shm

-- The number that `open` stores, and the size in bytes that it asks for.
unfoldable pub limit : ℕ → ℕ → ℕ
limit key max_uin = if key == 0 || max_uin == 0 then max_uin_default else max_uin

unfoldable pub open_shm : ℕ → ℕ → Shm → Bitmap × ℤ
open_shm key max_uin shm =
    let memory = get_share_memory (limit key max_uin / 8) shm in
    (
      record { shm_addr = memory; max_uin = limit key max_uin },
      elim memory [ none ↦ negsuc 0 | some a ↦ pos 0 ],
    )

-- `detached` is what `shmdt` returns.
unfoldable pub close : Bitmap → ℤ → Bitmap × ℤ
close m detached =
    (record m { shm_addr = none }, elim m.shm_addr [ none ↦ pos 0 | some a ↦ detached ])

pub data Flag : Type 0 where
  bitmap_chk : Flag
  bitmap_set : Flag
  bitmap_clr : Flag

-- `1 << (uin & 0x07)`.
abbrev pub uin_bit : ℕ → ℕ
uin_bit uin = 2 ^ (uin % 8)

-- `(byte & bit) ? 1 : 0`.
abbrev pub test_bit : ℕ → ℕ → ℕ
test_bit byte bit = if bit_and byte bit == 0 then 0 else 1

-- A byte of the memory.
abbrev pub read_byte : (ℕ → ℕ) → ℕ → ℕ
read_byte a i = a i % 256

abbrev pub write_byte : (ℕ → ℕ) → ℕ → ℕ → ℕ → ℕ
write_byte a i v j = if j == i then v else a j

-- The bit of `uin` in the memory.
unfoldable pub bit_now : (ℕ → ℕ) → ℕ → ℕ
bit_now a uin = test_bit (read_byte a (uin / 8)) (uin_bit uin)

-- `~bit`, an `int`, has the low byte 255 - bit.
unfoldable pub store : Flag → (ℕ → ℕ) → ℕ → ℕ → ℕ
store bitmap_chk a uin = a
store bitmap_set a uin = write_byte a (uin / 8) (bit_or (read_byte a (uin / 8)) (uin_bit uin))
store bitmap_clr a uin =
    write_byte a (uin / 8) (bit_and (read_byte a (uin / 8)) (255 - uin_bit uin))

unfoldable pub handle_shm_bit_i : Bitmap → ℕ → Flag → Bitmap × ℤ
handle_shm_bit_i m uin flag = elim m.shm_addr [
  | none ↦ (m, negsuc 0)
  | some a ↦ (record m { shm_addr = some (store flag a uin) }, pos (bit_now (store flag a uin) uin))
]

-- The three operations, which have the same guard.
unfoldable pub guarded : Flag → Bitmap → ℕ → Bitmap × ℤ
guarded flag m uin = if ltb uin m.max_uin then handle_shm_bit_i m uin flag else (m, pos 0)

abbrev pub get_bit : Bitmap → ℕ → Bitmap × ℤ
get_bit = guarded bitmap_chk

abbrev pub set_bit : Bitmap → ℕ → Bitmap × ℤ
set_bit = guarded bitmap_set

abbrev pub clr_bit : Bitmap → ℕ → Bitmap × ℤ
clr_bit = guarded bitmap_clr

-- `rounds` rounds of the loop from `uin`, with `num` counted so far.
unfoldable pub count_loop : (ℕ → ℕ) → ℕ → ℕ → ℕ → ℕ
count_loop a zero uin num = num
count_loop a (suc rounds) uin num =
    count_loop a rounds (uin + 1) (if bit_now a uin == 1 then add32 num 1 else num)

-- An `unsigned` returned as an `int`.
abbrev pub to_int : ℕ → ℤ
to_int n = if ltb n 0x80000000 then pos n else negsuc (u32_mod - 1 - n)

-- The loop runs while `uin < max_uin_`.
unfoldable pub count_bit : Bitmap → ℤ
count_bit m = elim m.shm_addr [
  | none ↦ pos 0
  | some a ↦ to_int (count_loop a (m.max_uin - 10000) 10000 0)
]
