-- ===== src/Stat/Restart.antt =====
-- comm/stat.cpp: what a process that starts again finds in the file.
use mathlib.Core.Option
use teaf.Prelude.{
  ℕ, ◌+◌, ◌*◌, ◌<◌, ◌≡◌, ◌≢◌, ◌∙◌, refl, sym, ap, true, false, none, some, List, [], ◌∷◌, arith,
  ◌==◌, All, ◌⊎◌, inl, inr, Bool-cases,
}
use teaf.Stat.{
  Stat, ReprtInfo, Mapping, mapped, map_failed, create, init, format, reset_stat, add_stat, write,
  max_stat_index, clear_from, word,
}
use teaf.Stat.Items.{add_stat-addr, add_item-apart}
use teaf.Stat.Totals.{add_stats, InRange}

-- The file of a process, as the next one maps it.
abbrev pub file_of : Stat → Mapping
file_of s = elim s.addr [ none ↦ map_failed none | some a ↦ mapped a ]

-- The next process, which initialises the statistics from that file.
unfoldable pub restart : Stat → Stat
restart s = (init create 0 (file_of s)).0

add_stats-word0 :
    (infos : List ReprtInfo) (s : Stat) (a : ℕ → ℕ)
    → s.addr ≡ some a
    → All InRange infos
    → (b : ℕ → ℕ) × ((add_stats s infos).addr ≡ some b) × (b 0 ≡ a 0)
add_stats-word0 [] s a e h = (a, e, refl)
add_stats-word0 (info ∷ infos) s a e (h, hs) =
    let (b, f, z) = add_stats-word0 infos (add_stat s info) _ (add_stat-addr s a info e h) hs in
    (b, f, z ∙ add_item-apart info (1 + 4 * info.cmd) a 0 (inl (omega arith)))

restart-addr :
    (s : Stat) (b : ℕ → ℕ) → s.addr ≡ some b → (restart s).addr ≡ some (format create.file_size b)
unfolding restart init create
restart-addr s b e = rw (restart, e) refl

format-magic : (n : ℕ) (b : ℕ → ℕ) → b 0 ≡ max_stat_index + 1 → format n b ≡ b
format-magic n b z = let same : (b 0 == max_stat_index + 1) ≡ true = ground arith in rw same refl

format-other :
    (n : ℕ) (b : ℕ → ℕ) (j : ℕ) → b 0 ≢ max_stat_index + 1 → 0 < j → j < word n → format n b j ≡ 0
format-other n b j z lo hi =
    let other : (b 0 == max_stat_index + 1) ≡ false = ground arith in rw other (ground arith)

-- Of the file of `s`, that was `a` at first, the next process finds all, where the first word was the
-- magic number, and else a file whose counters are all 0.
abbrev pub Finds : (ℕ → ℕ) → Stat → Type 0
Finds a s =
    ((a 0 ≡ max_stat_index + 1) × ((restart s).addr ≡ s.addr))
    ⊎ ((a 0 ≢ max_stat_index + 1)
        × ((j : ℕ)
            → 0 < j
            → j < word create.file_size
            → Option.map (λ b. b j) (restart s).addr ≡ some 0))

-- After any calls of add_stat for commands in range, the next process finds the file as it was left,
-- if the first word is the magic number (init has written it, and no reset_stat since), and otherwise
-- every counter of the file at 0.
pub restart-add_stats :
    (infos : List ReprtInfo) (s : Stat) (a : ℕ → ℕ)
    → s.addr ≡ some a
    → All InRange infos
    → Finds a (add_stats s infos)
restart-add_stats infos s a e h =
    let (b, f, z) = add_stats-word0 infos s a e h in
    let left = restart-addr (add_stats s infos) b f in
    elim (Bool-cases (a 0 == max_stat_index + 1)) [
      | inl set ↦
          let same : a 0 ≡ max_stat_index + 1 = ground arith in
          inl (same, rw (left, f) (ap some (format-magic create.file_size b (z ∙ same))))
      | inr unset ↦
          let other : a 0 ≢ max_stat_index + 1 = ground arith in
          inr (
            other,
            λ j lo hi.
                rw left
                  (ap some (format-other create.file_size b j (λ m. other (sym z ∙ m)) lo hi)),
          )
    ]

reset_stat-addr :
    (s : Stat) (a : ℕ → ℕ) (now : ℕ)
    → s.addr ≡ some a
    → (reset_stat s now).addr ≡ some (write (clear_from 1 s.file_size a) 0 now)
unfolding reset_stat
reset_stat-addr s a now e = rw e refl

-- The first word after a reset is the time: `reset_stat` writes it over the magic number. Whatever is
-- reported from then on, for commands in range, the next process clears every counter of the file.
pub restart-cleared :
    (infos : List ReprtInfo) (s : Stat) (a : ℕ → ℕ) (now j : ℕ)
    → s.addr ≡ some a
    → now ≢ max_stat_index + 1
    → All InRange infos
    → 0 < j
    → j < word create.file_size
    → Option.map (λ b. b j) (restart (add_stats (reset_stat s now) infos)).addr ≡ some 0
restart-cleared infos s a now j e late h lo hi =
    elim (restart-add_stats infos (reset_stat s now) _ (reset_stat-addr s a now e) h) [
      | inl (same, kept) ↦ absurd (late same)
      | inr (other, cleared) ↦ cleared j lo hi
    ]
