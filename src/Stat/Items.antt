-- ===== src/Stat/Items.antt =====
-- comm/stat.cpp: which words an operation changes. The counters of different commands are apart; the
-- last word of the last command is the first error.
use mathlib.Core.Option
use teaf.Prelude.{
  ℕ, ◌+◌, ◌-◌, ◌*◌, ◌/◌, ◌≤◌, ◌<◌, ◌≡◌, ◌≢◌, ◌∙◌, refl, subst, ap, ◌&&◌, true, false, some, arith,
  ltb, ◌==◌, if◌then◌else◌, ℤ, pos, add32, to_u32, Bool-cases, inl, inr, ◌⊎◌,
}
use teaf.Stat.{
  Stat, ReprtInfo, create, bump, add_item, add_stat, incre_pos, incre_stat, Row, item, error,
  max_stat_index, max_isgw_failed_item, svc_enqueue,
}

-- An initialised file with content `a`.
pub record Ready (s : Stat) (a : ℕ → ℕ) : Type 0 where
  pub mapping : s.addr ≡ some a
  pub ready : s.state ≡ 1
  pub offset : s.isgw_failed_offset ≡ create.isgw_failed_offset

pub bump_self : (a : ℕ → ℕ) (i v : ℕ) → bump a i v i ≡ add32 (a i) v
unfolding bump
bump_self a i v = ground arith

pub bump_ne : (a : ℕ → ℕ) (i v j : ℕ) → j ≢ i → bump a i v j ≡ a j
unfolding bump
bump_ne a i v j h = ground arith

module _ (info : ReprtInfo) (i : ℕ) (a : ℕ → ℕ) where
  abbrev a1 : ℕ → ℕ
  a1 = bump a (i + 1) info.total_count

  abbrev a2 : ℕ → ℕ
  a2 = bump a1 (i + 2) info.failed_count

  abbrev a3 : ℕ → ℕ
  a3 = bump a2 (i + 3) info.total_span

  add_item-total : add_item info i a (i + 1) ≡ add32 (a (i + 1)) info.total_count
  unfolding add_item
  add_item-total =
      bump_ne a3 (i + 4) info.procss_span (i + 1) (omega arith)
      ∙ (bump_ne a2 (i + 3) info.total_span (i + 1) (omega arith)
          ∙ (bump_ne a1 (i + 2) info.failed_count (i + 1) (omega arith)
              ∙ bump_self a (i + 1) info.total_count))

  add_item-failed : add_item info i a (i + 2) ≡ add32 (a (i + 2)) info.failed_count
  unfolding add_item
  add_item-failed =
      bump_ne a3 (i + 4) info.procss_span (i + 2) (omega arith)
      ∙ (bump_ne a2 (i + 3) info.total_span (i + 2) (omega arith)
          ∙ (bump_self a1 (i + 2) info.failed_count
              ∙ ap (λ x. add32 x info.failed_count)
                  (bump_ne a (i + 1) info.total_count (i + 2) (omega arith))))

  add_item-span : add_item info i a (i + 3) ≡ add32 (a (i + 3)) info.total_span
  unfolding add_item
  add_item-span =
      bump_ne a3 (i + 4) info.procss_span (i + 3) (omega arith)
      ∙ (bump_self a2 (i + 3) info.total_span
          ∙ ap (λ x. add32 x info.total_span)
              (bump_ne a1 (i + 2) info.failed_count (i + 3) (omega arith)
                ∙ bump_ne a (i + 1) info.total_count (i + 3) (omega arith)))

  add_item-procss : add_item info i a (i + 4) ≡ add32 (a (i + 4)) info.procss_span
  unfolding add_item
  add_item-procss =
      bump_self a3 (i + 4) info.procss_span
      ∙ ap (λ x. add32 x info.procss_span)
          (bump_ne a2 (i + 3) info.total_span (i + 4) (omega arith)
            ∙ (bump_ne a1 (i + 2) info.failed_count (i + 4) (omega arith)
                ∙ bump_ne a (i + 1) info.total_count (i + 4) (omega arith)))

  pub add_item-apart : (j : ℕ) → (j ≤ i) ⊎ (i + 5 ≤ j) → add_item info i a j ≡ a j
  unfolding add_item
  add_item-apart j h =
      bump_ne a3 (i + 4) info.procss_span j (omega arith)
      ∙ (bump_ne a2 (i + 3) info.total_span j (omega arith)
          ∙ (bump_ne a1 (i + 2) info.failed_count j (omega arith)
              ∙ bump_ne a (i + 1) info.total_count j (omega arith)))

-- The sum that `add_stat` is to form.
abbrev pub plus : Row → ReprtInfo → Row
plus r info = record {
  total = add32 r.total info.total_count;
  failed = add32 r.failed info.failed_count;
  span = add32 r.span info.total_span;
  procss = add32 r.procss info.procss_span;
}

item-add_item :
    (info : ReprtInfo) (c : ℕ) (a : ℕ → ℕ)
    → item (add_item info (1 + 4 * c) a) c ≡ plus (item a c) info
unfolding item
item-add_item info c a =
    rw
      (
        add_item-total info (1 + 4 * c) a,
        add_item-failed info (1 + 4 * c) a,
        add_item-span info (1 + 4 * c) a,
        add_item-procss info (1 + 4 * c) a,
      )
      refl

-- The words of two items are apart, save the first one, which no operation reads.
item-apart :
    (info : ReprtInfo) (c d : ℕ) (a : ℕ → ℕ)
    → c ≢ d
    → item (add_item info (1 + 4 * d) a) c ≡ item a c
unfolding item
item-apart info c d a h =
    let keep = add_item-apart info (1 + 4 * d) a in
    rw
      (
        keep (1 + 4 * c + 1) (omega arith),
        keep (1 + 4 * c + 2) (omega arith),
        keep (1 + 4 * c + 3) (omega arith),
        keep (1 + 4 * c + 4) (omega arith),
      )
      refl

-- The content of the file after `add_stat`.
pub add_stat-addr :
    (s : Stat) (a : ℕ → ℕ) (info : ReprtInfo)
    → s.addr ≡ some a
    → info.cmd ≤ max_stat_index
    → (add_stat s info).addr ≡ some (add_item info (1 + 4 * info.cmd) a)
unfolding add_stat
add_stat-addr s a info e h =
    let within : ltb max_stat_index info.cmd ≡ false = ground arith in
    let start : (info.cmd * 16 + 4) / 4 ≡ 1 + 4 * info.cmd = omega arith in
    rw (within, e, start) refl

pub add_item-row :
    (info : ReprtInfo) (c : ℕ) (a : ℕ → ℕ)
    → item (add_item info (1 + 4 * info.cmd) a) c
      ≡ (if c == info.cmd then plus (item a c) info else item a c)
add_item-row info c a = elim (Bool-cases (c == info.cmd)) [
  | inl same ↦
      let eq : c ≡ info.cmd = ground arith in
      rw same (
        subst (λ d. item (add_item info (1 + 4 * d) a) c ≡ plus (item a c) info) eq
          (item-add_item info c a))
  | inr other ↦ rw other (item-apart info c info.cmd a (ground arith))
]

-- `add_stat` for a command in range adds to each of the command's four counters, modulo 2 ^ 32, and
-- leaves the counters of every other command as they are.
pub add_stat-item :
    (s : Stat) (a : ℕ → ℕ) (info : ReprtInfo) (c : ℕ)
    → s.addr ≡ some a
    → info.cmd ≤ max_stat_index
    → Option.map (λ b. item b c) (add_stat s info).addr
      ≡ some (if c == info.cmd then plus (item a c) info else item a c)
add_stat-item s a info c e h = rw (add_stat-addr s a info e h) (ap some (add_item-row info c a))

-- Where the errors of the framework begin.
pub error-word :
    (s : Stat) (a : ℕ → ℕ) (k : ℕ)
    → s.isgw_failed_offset ≡ create.isgw_failed_offset
    → error s a k ≡ a (40961 + k)
unfolding error create
error-word s a k f =
    let at_word : (163844 + 4 * k) / 4 ≡ 40961 + k = omega arith in rw (f, at_word) refl

beyond :
    (cmd k : ℕ)
    → cmd ≤ max_stat_index
    → (cmd == max_stat_index && k == 0) ≡ false
    → (40961 + k ≤ 1 + 4 * cmd) ⊎ (1 + 4 * cmd + 5 ≤ 40961 + k)
beyond cmd k h apart = ground arith

add_item-last :
    (info : ReprtInfo) (k : ℕ) (a : ℕ → ℕ)
    → (info.cmd == max_stat_index && k == 0) ≡ true
    → add_item info (1 + 4 * info.cmd) a (40961 + k) ≡ add32 (a (40961 + k)) info.procss_span
add_item-last info k a spills =
    let place : 40961 + k ≡ 1 + 4 * info.cmd + 4 = ground arith in
    rw place (add_item-procss info (1 + 4 * info.cmd) a)

-- The errors of the framework keep their counts under `add_stat` for every command but the last.
-- Where that one is added, its fourth counter is added to the first error, STAT_CODE_SVC_ENQUEUE:
-- they are the same word of the file.
pub add_stat-error :
    (s : Stat) (a : ℕ → ℕ) (info : ReprtInfo) (k : ℕ)
    → s.addr ≡ some a
    → s.isgw_failed_offset ≡ create.isgw_failed_offset
    → info.cmd ≤ max_stat_index
    → Option.map (λ b. error s b k) (add_stat s info).addr
      ≡ some (
          if info.cmd == max_stat_index && k == 0
          then add32 (error s a k) info.procss_span
          else error s a k)
add_stat-error s a info k e f h =
    rw (add_stat-addr s a info e h, error-word s a k f, error-word s _ k f)
      (ap some (elim (Bool-cases (info.cmd == max_stat_index && k == 0)) [
        | inl spills ↦ rw spills (add_item-last info k a spills)
        | inr apart ↦
            rw apart
              (add_item-apart info (1 + 4 * info.cmd) a (40961 + k) (beyond info.cmd k h apart))
      ]))

incre_pos-cmd :
    (s : Stat) (cmd : ℕ) → cmd ≤ max_stat_index → incre_pos s (pos cmd) ≡ some (cmd * 16 + 4 + 4)
unfolding incre_pos
incre_pos-cmd s cmd h = ground arith

incre_pos-error :
    (s : Stat) (k : ℕ)
    → k < max_isgw_failed_item
    → incre_pos s (pos (svc_enqueue + k))
      ≡ some (s.isgw_failed_offset + (svc_enqueue + k - svc_enqueue) * 4)
unfolding incre_pos
incre_pos-error s k h = ground arith

incre_stat-addr :
    (s : Stat) (a : ℕ → ℕ) (index incre : ℤ) (p : ℕ)
    → Ready s a
    → incre_pos s index ≡ some p
    → (incre_stat s index incre).addr ≡ some (bump a (p / 4) (to_u32 incre))
unfolding incre_stat bump
incre_stat-addr s a index incre p r e = rw (incre_stat, e, r.mapping, r.ready) refl

error_place :
    (s : Stat) (k : ℕ)
    → s.isgw_failed_offset ≡ create.isgw_failed_offset
    → (s.isgw_failed_offset + (svc_enqueue + k - svc_enqueue) * 4) / 4 ≡ 40961 + k
unfolding create
error_place s k f =
    let at_word : (163844 + (svc_enqueue + k - svc_enqueue) * 4) / 4 ≡ 40961 + k = omega arith in
    rw (f, at_word) refl

item-bump_self :
    (a : ℕ → ℕ) (c v : ℕ)
    → item (bump a (4 * c + 2) v) c ≡ record (item a c) { total = add32 (item a c).total v }
unfolding item
item-bump_self a c v =
    let at_total : 1 + 4 * c + 1 ≡ 4 * c + 2 = omega arith in
    rw
      (
        at_total,
        bump_self a (4 * c + 2) v,
        bump_ne a (4 * c + 2) v (1 + 4 * c + 2) (omega arith),
        bump_ne a (4 * c + 2) v (1 + 4 * c + 3) (omega arith),
        bump_ne a (4 * c + 2) v (1 + 4 * c + 4) (omega arith),
      )
      refl

item-bump_ne : (a : ℕ → ℕ) (c d v : ℕ) → c ≢ d → item (bump a (4 * d + 2) v) c ≡ item a c
unfolding item
item-bump_ne a c d v h =
    let keep = bump_ne a (4 * d + 2) v in
    rw
      (
        keep (1 + 4 * c + 1) (omega arith),
        keep (1 + 4 * c + 2) (omega arith),
        keep (1 + 4 * c + 3) (omega arith),
        keep (1 + 4 * c + 4) (omega arith),
      )
      refl

-- `incre_stat` with a command in range, for a file that is initialised, adds to that command's total
-- modulo 2 ^ 32, and leaves its other counters and those of the other commands as they are.
pub incre_stat-item :
    (s : Stat) (a : ℕ → ℕ) (cmd c : ℕ) (incre : ℤ)
    → Ready s a
    → cmd ≤ max_stat_index
    → Option.map (λ b. item b c) (incre_stat s (pos cmd) incre).addr
      ≡ some (
          if c == cmd
          then record (item a c) { total = add32 (item a c).total (to_u32 incre) }
          else item a c)
incre_stat-item s a cmd c incre r h =
    let at_word : (cmd * 16 + 4 + 4) / 4 ≡ 4 * cmd + 2 = omega arith in
    rw (incre_stat-addr s a (pos cmd) incre _ r (incre_pos-cmd s cmd h), at_word)
      (ap some (elim (Bool-cases (c == cmd)) [
        | inl same ↦
            let eq : c ≡ cmd = ground arith in
            rw same (
              subst
                (λ d.
                  item (bump a (4 * d + 2) (to_u32 incre)) c
                  ≡ record (item a c) { total = add32 (item a c).total (to_u32 incre) })
                eq (item-bump_self a c (to_u32 incre)))
        | inr other ↦ rw other (item-bump_ne a c cmd (to_u32 incre) (ground arith))
      ]))

-- `incre_stat` with an error of the framework, STAT_CODE_SVC_ENQUEUE + k with k below 1024, for a
-- file that is initialised, adds to that error's count modulo 2 ^ 32 and leaves the counts of the
-- other errors as they are.
pub incre_stat-error :
    (s : Stat) (a : ℕ → ℕ) (k j : ℕ) (incre : ℤ)
    → Ready s a
    → k < max_isgw_failed_item
    → Option.map (λ b. error s b j) (incre_stat s (pos (svc_enqueue + k)) incre).addr
      ≡ some (if j == k then add32 (error s a j) (to_u32 incre) else error s a j)
incre_stat-error s a k j incre r h =
    let at_word : (s.isgw_failed_offset + (svc_enqueue + k - svc_enqueue) * 4) / 4 ≡ 40961 + k =
      error_place s k r.offset in
    rw
      (
        incre_stat-addr s a (pos (svc_enqueue + k)) incre _ r (incre_pos-error s k h),
        at_word,
        error-word s a j r.offset,
        error-word s (bump a (40961 + k) (to_u32 incre)) j r.offset,
      )
      (ap some (elim (Bool-cases (j == k)) [
        | inl same ↦
            let eq : j ≡ k = ground arith in
            rw same (
              subst
                (λ i.
                  bump a (40961 + i) (to_u32 incre) (40961 + j)
                  ≡ add32 (a (40961 + j)) (to_u32 incre))
                eq (bump_self a (40961 + j) (to_u32 incre)))
        | inr other ↦ rw other (bump_ne a (40961 + k) (to_u32 incre) (40961 + j) (ground arith))
      ]))
