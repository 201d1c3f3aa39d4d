-- ===== src/Stat/Totals.antt =====
-- comm/stat.cpp: the counts after many calls, and the errors of comm/plat_conn_mgr_ex.cpp.
use mathlib.Core.Option
use teaf.Prelude.{
  ℕ, ◌+◌, ◌*◌, ap, ◌∙◌, ◌%◌, ◌≤◌, ◌<◌, ◌≡◌, ◌⊎◌, refl, none, some, List, [], ◌∷◌, arith, ◌==◌,
  if◌then◌else◌, All, u32_mod, Bool-cases, inl, inr, ℤ, pos,
}
use teaf.Stat.{
  Stat, ReprtInfo, add_stat, add_item, incre_stat, incre_pos, item, max_stat_index, svc_enqueue,
}
use teaf.Stat.Items.{add_stat-addr, add_item-row}

-- `add_stat` for each of a list of reports.
abbrev pub add_stats : Stat → List ReprtInfo → Stat
add_stats s [] = s
add_stats s (info ∷ infos) = add_stats (add_stat s info) infos

-- The requests of one command, as numbers without bound.
pub total_of : ℕ → List ReprtInfo → ℕ
total_of c [] = 0
total_of c (info ∷ infos) =
    let rest = total_of c infos in if c == info.cmd then info.total_count + rest else rest

abbrev pub InRange : ReprtInfo → Type 0
InRange info = info.cmd ≤ max_stat_index

total-step :
    (info : ReprtInfo) (infos : List ReprtInfo) (c : ℕ) (a : ℕ → ℕ)
    → ((item (add_item info (1 + 4 * info.cmd) a) c).total + total_of c infos) % u32_mod
      ≡ ((item a c).total + total_of c (info ∷ infos)) % u32_mod
unfolding total_of
total-step info infos c a = rw (add_item-row info c a) (elim (Bool-cases (c == info.cmd)) [
  | inl same ↦ rw same (omega arith)
  | inr other ↦ rw other refl
])

-- After any reports for commands in range, the total of a command is the sum of what was reported
-- for it, modulo 2 ^ 32, on top of what it was.
pub add_stats-total :
    (infos : List ReprtInfo) (s : Stat) (a : ℕ → ℕ) (c : ℕ)
    → s.addr ≡ some a
    → All InRange infos
    → Option.map (λ b. (item b c).total % u32_mod) (add_stats s infos).addr
      ≡ some (((item a c).total + total_of c infos) % u32_mod)
unfolding total_of
add_stats-total [] s a c e h = rw e (ap some (omega arith))
add_stats-total (info ∷ infos) s a c e (h, hs) =
    let a' = add_item info (1 + 4 * info.cmd) a in
    let rest = add_stats-total infos (add_stat s info) a' c (add_stat-addr s a info e h) hs in
    rest ∙ ap some (total-step info infos c a)

incre_pos-lost :
    (s : Stat) (index : ℕ)
    → ((max_stat_index < index) × (index < svc_enqueue)) ⊎ (svc_enqueue + 1024 ≤ index)
    → incre_pos s (pos index) ≡ none
unfolding incre_pos
incre_pos-lost s index h = ground arith

-- An error with a code that is neither a command nor from STAT_CODE_SVC_ENQUEUE to
-- STAT_CODE_SVC_ENQUEUE + 1023 is not counted at all.
pub incre_stat-lost :
    (s : Stat) (index : ℕ) (incre : ℤ)
    → ((max_stat_index < index) × (index < svc_enqueue)) ⊎ (svc_enqueue + 1024 ≤ index)
    → incre_stat s (pos index) incre ≡ s
unfolding incre_stat
incre_stat-lost s index incre h = rw (incre_stat, incre_pos-lost s index h) refl
