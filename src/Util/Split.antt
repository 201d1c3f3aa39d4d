-- ===== src/Util/Split.antt =====
-- split and split_ign of EASY_UTIL in comm/sys_comm.cpp. A position in the string is the rest behind
-- it.
pub mod Pieces
pub mod Join
use teaf.Prelude.{
  ℕ, zero, suc, ◌+◌, ◌-◌, Bool, true, false, List, [], ◌∷◌, ◌++◌, if◌then◌else◌, Bytes, length,
}
use teaf.Util.Url.{one_of}

-- `find_first_of`: what stands before the first hit, and the rest from it on, empty if there is none.
unfoldable pub break_at : (ℕ → Bool) → Bytes → Bytes × Bytes
break_at p [] = ([], [])
break_at p (c ∷ s) = let r = break_at p s in if p c then ([], c ∷ s) else (c ∷ r.0, r.1)

-- `find_first_not_of`: the rest from the first character that is no hit.
unfoldable pub skip_all : (ℕ → Bool) → Bytes → Bytes
skip_all p [] = []
skip_all p (c ∷ s) = let r = skip_all p s in if p c then r else c ∷ s

-- A round of a loop, where `go` is the loop for what is left.
abbrev pub split_after : (Bytes → List Bytes) → Bytes × Bytes → List Bytes
split_after go (w, []) = w ∷ []
split_after go (w, c ∷ rest) = w ∷ go rest

unfoldable pub split_loop : ℕ → (ℕ → Bool) → Bytes → List Bytes
split_loop zero p s = []
split_loop (suc fuel) p s = split_after (split_loop fuel p) (break_at p s)

unfoldable pub split : Bytes → Bytes → List Bytes
split src delim = split_loop (suc (length src)) (one_of delim) src

abbrev pub ign_after : (Bytes → List Bytes) → Bytes × Bytes → List Bytes
ign_after go (w, []) = w ∷ []
ign_after go (w, c ∷ rest) = w ∷ go (c ∷ rest)

abbrev pub ign_start : (ℕ → Bool) → (Bytes → List Bytes) → Bytes → List Bytes
ign_start p go [] = []
ign_start p go (c ∷ t) = ign_after go (break_at p (c ∷ t))

unfoldable pub split_ign_loop : ℕ → (ℕ → Bool) → Bytes → List Bytes
split_ign_loop zero p s = []
split_ign_loop (suc fuel) p s = ign_start p (split_ign_loop fuel p) (skip_all p s)

-- The overload that fills a vector of strings; those for numbers convert each piece.
unfoldable pub split_ign : Bytes → Bytes → List Bytes
split_ign src delim = split_ign_loop (suc (length src)) (one_of delim) src

abbrev pub numbers_after : (Bytes → ℕ) → (Bytes → List ℕ) → Bytes × Bytes → List ℕ
numbers_after convert go (w, []) = convert w ∷ []
numbers_after convert go ([], c ∷ rest) = go rest
numbers_after convert go (d ∷ w, c ∷ rest) = convert (d ∷ w) ∷ go rest

-- The overload of `split` for numbers, with `convert` for `atoll`: an empty piece is passed over.
unfoldable pub split_numbers_loop : ℕ → (ℕ → Bool) → (Bytes → ℕ) → Bytes → List ℕ
split_numbers_loop zero p convert s = []
split_numbers_loop (suc fuel) p convert [] = []
split_numbers_loop (suc fuel) p convert (c ∷ t) =
    numbers_after convert (split_numbers_loop fuel p convert) (break_at p (c ∷ t))

unfoldable pub split_numbers : (Bytes → ℕ) → Bytes → Bytes → List ℕ
split_numbers convert src delim = split_numbers_loop (suc (length src)) (one_of delim) convert src
