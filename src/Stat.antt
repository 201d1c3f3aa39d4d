-- ===== src/Stat.antt =====
-- comm/stat.{h,cpp}: request statistics in a mapped file of 32-bit words, `Stat`. Word 0 is a magic
-- number, four words follow for each command, and one for each error of the framework.
pub mod Items
pub mod Totals
pub mod Restart
use teaf.Prelude.{
  ℕ, ◌+◌, ◌-◌, ◌*◌, ◌/◌, Bool, true, false, ◌&&◌, not, Option, none, some, ltb, leb, ◌==◌,
  if◌then◌else◌, ℤ, pos, negsuc, leb_ℤ, ltb_ℤ, ◌==ℤ◌, pos_part, add32, to_u32,
}

abbrev pub max_stat_index : ℕ
max_stat_index = 10239

abbrev pub max_isgw_failed_item : ℕ
max_isgw_failed_item = 1024

-- STAT_CODE_SVC_ENQUEUE, the first of the errors.
abbrev pub svc_enqueue : ℕ
svc_enqueue = 20241

-- The counters are 32-bit patterns, and so is an `int` among them.
pub record ReprtInfo : Type 0 where
  pub cmd : ℕ
  pub total_count : ℕ
  pub failed_count : ℕ
  pub total_span : ℕ
  pub procss_span : ℕ

-- `sizeof(int)`, `sizeof(ReprtInfo)` and `offsetof(ReprtInfo, total_count)`.
abbrev pub int_size : ℕ
int_size = 4

abbrev pub reprt_size : ℕ
reprt_size = 20

abbrev pub total_offset : ℕ
total_offset = 4

-- `addr` is the mapped file, as a function of the word's index, or NULL.
pub record Stat : Type 0 where
  pub addr : Option (ℕ → ℕ)
  pub file_size : ℕ
  pub isgw_failed_offset : ℕ
  pub state : ℕ

unfoldable pub create : Stat
create = record {
  addr = none;
  file_size = (reprt_size - int_size) * (max_stat_index + 1) + int_size + 1024 * int_size;
  isgw_failed_offset = (reprt_size - int_size) * (max_stat_index + 1) + int_size;
  state = 0;
}

-- The word at a byte offset: all that the code uses are multiples of four.
abbrev pub word : ℕ → ℕ
word at_byte = at_byte / int_size

abbrev pub write : (ℕ → ℕ) → ℕ → ℕ → ℕ → ℕ
write a i v j = if j == i then v else a j

-- `memset(stat_array + from, 0, ...)` up to the end of the file.
abbrev pub clear_from : ℕ → ℕ → (ℕ → ℕ) → ℕ → ℕ
clear_from from file_size a j = if leb from j && ltb j (word file_size) then 0 else a j

-- What `map` makes of the file: its content, or an error and the mapping that is left then.
pub data Mapping : Type 0 where
  mapped : (ℕ → ℕ) → Mapping
  map_failed : Option (ℕ → ℕ) → Mapping

abbrev pub format : ℕ → (ℕ → ℕ) → ℕ → ℕ
format file_size a =
    if a 0 == max_stat_index + 1 then a else write (clear_from 0 file_size a) 0 (max_stat_index + 1)

unfoldable pub init : Stat → ℕ → Mapping → Stat × ℤ
init s flag (map_failed left) =
    if s.state == 1 && flag == 0 then (s, pos 0) else (record s { addr = left }, negsuc 0)
init s flag (mapped a) =
    if s.state == 1 && flag == 0
    then (s, pos 0)
    else (record s { addr = some (format s.file_size a); state = 1 }, pos 0)

unfoldable pub init_check : Stat → Mapping → Stat × ℤ
init_check s (map_failed left) = (record s { addr = left }, negsuc 0)
init_check s (mapped a) = (record s { addr = some a }, pos 0)

-- The byte offset of the counter that `incre_stat` increments, if there is one.
unfoldable pub incre_pos : Stat → ℤ → Option ℕ
incre_pos s index =
    if leb_ℤ index (pos max_stat_index) && leb_ℤ (pos 0) index
    then some (pos_part index * (reprt_size - int_size) + int_size + total_offset)
    else if leb_ℤ (pos svc_enqueue) index && ltb_ℤ index (pos (svc_enqueue + max_isgw_failed_item))
    then some (s.isgw_failed_offset + (pos_part index - svc_enqueue) * int_size)
    else none

unfoldable pub bump : (ℕ → ℕ) → ℕ → ℕ → ℕ → ℕ
bump a i v = write a i (add32 (a i) v)

unfoldable pub incre_stat : Stat → ℤ → ℤ → Stat
incre_stat s index incre = elim (incre_pos s index) [
  | none ↦ s
  | some at_byte ↦ elim s.addr [
    | none ↦ s
    | some a ↦
        (if s.state == 1
          then record s { addr = some (bump a (word at_byte) (to_u32 incre)) }
          else s)
  ]
]

-- The item at word `i` is read and written as a `ReprtInfo`, whose `cmd` is not touched.
unfoldable pub add_item : ReprtInfo → ℕ → (ℕ → ℕ) → ℕ → ℕ
add_item info i a =
    bump
      (bump (bump (bump a (i + 1) info.total_count) (i + 2) info.failed_count) (i + 3)
        info.total_span)
      (i + 4) info.procss_span

unfoldable pub add_stat : Stat → ReprtInfo → Stat
add_stat s info = if ltb max_stat_index info.cmd then s else elim s.addr [
  | none ↦ s
  | some a ↦ record s {
    addr = some (add_item info (word (info.cmd * (reprt_size - int_size) + int_size)) a);
  }
]

-- `now` is `time(NULL)`.
unfoldable pub reset_stat : Stat → ℕ → Stat
reset_stat s now = elim s.addr [
  | none ↦ s
  | some a ↦ record s { addr = some (write (clear_from 1 s.file_size a) 0 now) }
]

-- What `get_statstr` reads of a command's item, which is all but its `cmd`, and of an error.
pub record Row : Type 0 where
  pub total : ℕ
  pub failed : ℕ
  pub span : ℕ
  pub procss : ℕ

unfoldable pub item : (ℕ → ℕ) → ℕ → Row
item a i = record {
  total = a (1 + 4 * i + 1);
  failed = a (1 + 4 * i + 2);
  span = a (1 + 4 * i + 3);
  procss = a (1 + 4 * i + 4);
}

unfoldable pub error : Stat → (ℕ → ℕ) → ℕ → ℕ
error s a i = a (word (s.isgw_failed_offset + int_size * i))
