-- ===== src/Tests/Logs.antt =====
-- A small log for crates/lm-resizer-core/src/transforms/diagnostic_gate.rs, with toy patterns.
use lm_resizer.Gate.Lost.{key_count, key_count-lost_failure_lines}
use lm_resizer.Gate.{
  Patterns, lines_of, add_one, take_one, is_failure_signal, indent_of, reports_failure, explains,
  run_at, next_run, kept_lines, count_present, not_present, lost_failure_lines,
  reinject_lost_failure_lines,
}
use lm_resizer.Base.{
  ◌≤◌, ◌≡◌, refl, not, none, [], ◌∷◌, filter, Bytes, codes, contains, ◌==◌, if◌then◌else◌, arith,
  ◌++◌,
}
use lm_resizer.Gate.Lines.{chomp}
use lm_resizer.Gate.Restored.{reinject_lost_failure_lines_lem}

abbrev drop_returns : Bytes → Bytes
drop_returns = filter (λ c. not (c == 13))

abbrev skip_spaces : Bytes → Bytes
skip_spaces [] = []
skip_spaces (c ∷ s) = let rest = skip_spaces s in if c == 32 then rest else c ∷ s

abbrev toy : Patterns
toy = record {
  failure_signal = contains (codes "error");
  labelled = contains (codes ": ");
  strip_sgr = λ line. line;
  trim = drop_returns;
  trim_start = skip_spaces;
}

drop_returns-chomp : (line : Bytes) → drop_returns (chomp line) ≡ drop_returns line
drop_returns-chomp [] = refl
drop_returns-chomp (c ∷ []) = ground arith
drop_returns-chomp (c ∷ d ∷ line) = ground (arith, drop_returns-chomp (d ∷ line))

abbrev newline : Bytes
newline = 10 ∷ []

abbrev log : Bytes
log =
    codes "start"
    ++ (newline
        ++ (codes "error 7"
            ++ (newline
                ++ (codes "want: 2"
                    ++ (newline ++ (codes "done" ++ (newline ++ codes "error 7")))))))

-- A failure, its explanation, and the same failure once more.
kept_of_log :
    kept_lines toy none (lines_of log) ≡ codes "error 7" ∷ codes "want: 2" ∷ codes "error 7" ∷ []
unfolding kept_lines lines_of next_run run_at reports_failure is_failure_signal explains indent_of
kept_of_log = refl

lost_of_log : lost_failure_lines toy log (codes "error 7") ≡ codes "want: 2" ∷ codes "error 7" ∷ []
unfolding lost_failure_lines count_present add_one not_present take_one kept_lines lines_of next_run
    run_at reports_failure is_failure_signal explains indent_of
lost_of_log = refl

lost_example : key_count toy (codes "error 7") (lost_failure_lines toy log (codes "error 7")) ≡ 1
unfolding key_count kept_lines lines_of next_run run_at reports_failure is_failure_signal explains
    indent_of
lost_example = key_count-lost_failure_lines toy log (codes "error 7") (codes "error 7")

reinject_example :
    2
    ≤ key_count toy
        (codes "error 7")
        (lines_of (reinject_lost_failure_lines toy log (codes "error 7")).0)
unfolding key_count kept_lines next_run run_at reports_failure is_failure_signal explains indent_of
    lines_of
reinject_example =
    reinject_lost_failure_lines_lem toy drop_returns-chomp log (codes "error 7") (codes "error 7")
