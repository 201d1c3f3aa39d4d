-- ===== src/Util/Replace.antt =====
-- Replace and replace_tag of EASY_UTIL in comm/sys_comm.cpp. A position in the string is the rest
-- behind it; `none` means that the fuel ran out.
pub mod Ends
pub mod Tags
use mathlib.Core.Option
use teaf.Prelude.{
  ℕ, zero, suc, ◌+◌, Bool, Option, none, some, List, [], ◌∷◌, ◌++◌, ◌==◌, if◌then◌else◌, Bytes,
  length, drop,
}

-- The rest behind a prefix.
unfoldable pub strip_prefix : Bytes → Bytes → Option Bytes
strip_prefix [] s = some s
strip_prefix (x ∷ xs) [] = none
strip_prefix (x ∷ xs) (y ∷ ys) = let r = strip_prefix xs ys in if x == y then r else none

abbrev pub with_head : ℕ → Bytes × Bytes → Bytes × Bytes
with_head c (before, behind) = (c ∷ before, behind)

-- `find`: what stands before the first occurrence, and behind it.
unfoldable pub find : Bytes → Bytes → Option (Bytes × Bytes)
find needle [] = Option.map (λ r. ([], r)) (strip_prefix needle [])
find needle (c ∷ s) = elim (strip_prefix needle (c ∷ s)) [
  | some r ↦ some ([], r)
  | none ↦ Option.map (with_head c) (find needle s)
]

unfoldable pub replace_loop : ℕ → Bytes → Bytes → Bytes → Option Bytes
replace_loop zero src dest rest = none
replace_loop (suc fuel) src dest rest = elim (find src rest) [
  | none ↦ some rest
  | some (before, behind) ↦
      Option.map (λ ret. before ++ (dest ++ ret)) (replace_loop fuel src dest behind)
]

unfoldable pub replace : Bytes → Bytes → Bytes → Option Bytes
replace value src dest = replace_loop (suc (length value)) src dest value

-- The first pair of tags and what is between them, cut out; the caller's `output` if there is none.
unfoldable pub cut_first : Bytes → Bytes → Bytes → Bytes → Bytes → Bytes
cut_first input output start_tag end_tag replace_tag = elim (find start_tag input) [
  | none ↦ output
  | some (before, inner) ↦ elim (find end_tag inner) [
    | none ↦ output
    | some (between, behind) ↦ replace_tag ++ (before ++ behind)
  ]
]

-- `output.replace(pos, rightoldPos, "")` erases as many characters from `pos` on as stand before
-- `rightoldPos`, which are those up to `behind` and `pos` more.
abbrev pub erased : Bytes → Bytes → Bytes
erased before behind = before ++ drop (length before) behind

unfoldable pub strip_loop : ℕ → Bytes → Bytes → Bytes → Option Bytes
strip_loop zero start_tag end_tag output = none
strip_loop (suc fuel) start_tag end_tag output = elim (find start_tag output) [
  | none ↦ some output
  | some (before, inner) ↦ elim (find end_tag inner) [
    | none ↦ some output
    | some (between, behind) ↦ strip_loop fuel start_tag end_tag (erased before behind)
  ]
]

abbrev pub or_input : Bytes → Bytes → Bytes
or_input input [] = input
or_input input (c ∷ output) = c ∷ output

unfoldable pub replace_tag : Bytes → Bytes → Bytes → Bytes → Bytes → Option Bytes
replace_tag input output start_tag end_tag tag =
    let first = cut_first input output start_tag end_tag tag in
    Option.map (or_input input) (strip_loop (suc (length first)) start_tag end_tag first)
