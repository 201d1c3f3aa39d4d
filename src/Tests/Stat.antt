-- ===== src/Tests/Stat.antt =====
-- comm/stat.cpp: a file with a few reports.
use mathlib.Core.Option
use teaf.Prelude.{ℕ, ◌+◌, ◌%◌, ◌≡◌, refl, some, List, [], ◌∷◌, arith, ◌==◌, if◌then◌else◌, u32_mod}
use teaf.Stat.{Stat, ReprtInfo, create, add_stat, item, error, bump, add_item}
use teaf.Stat.Items.{Ready}
use teaf.Stat.Totals.{add_stats, total_of, add_stats-total}
use teaf.Stat.Restart.{Finds, restart-add_stats}

abbrev empty_file : ℕ → ℕ
empty_file j = if j == 0 then 10240 else 0

-- A process that has mapped an empty file.
abbrev started : Stat
started = record create { addr = some empty_file; state = 1 }

started-Ready : Ready started empty_file
started-Ready = record { mapping = refl; ready = refl; offset = refl }

-- Two requests for command 101, one of which failed.
abbrev report : ReprtInfo
report = record { cmd = 101; total_count = 2; failed_count = 1; total_span = 30; procss_span = 20 }

abbrev last_report : ReprtInfo
last_report = record report { cmd = 10239 }

-- The last command's time is counted as an error of the framework, too.
spilled : Option.map (λ b. error started b 0) (add_stat started last_report).addr ≡ some 20
unfolding add_stat add_item bump error create
spilled = refl

abbrev reports : List ReprtInfo
reports = report ∷ last_report ∷ report ∷ []

add_stats-total_example :
    Option.map (λ b. (item b 101).total % u32_mod) (add_stats started reports).addr
    ≡ some (((item empty_file 101).total + total_of 101 reports) % u32_mod)
add_stats-total_example =
    add_stats-total reports started empty_file 101 refl
      (omega arith, (omega arith, (omega arith, tt)))

restart-add_stats_example : Finds empty_file (add_stats started reports)
restart-add_stats_example =
    restart-add_stats reports started empty_file refl
      (omega arith, (omega arith, (omega arith, tt)))
