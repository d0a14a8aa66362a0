-- ===== src/Gate/Lost.antt =====
-- Which failure lines count as lost, by how often each is there.
use lm_resizer.Gate.{
  Patterns, Run, lines_of, Counts, add_one, take_one, next_run, kept_lines, key, count_present,
  not_present, lost_failure_lines,
}
use lm_resizer.Base.{
  ℕ, ◌+◌, ◌-◌, ◌≤◌, ◌≡◌, refl, inl, inr, true, Option, none, List, [], ◌∷◌, Bytes, bytes_eq, ltb,
  if◌then◌else◌, is_some, Bool-cases, arith, suc, ap, subst,
}

same_bytes : (k q : Bytes) → bytes_eq k q ≡ true → k ≡ q
same_bytes [] [] h = refl
same_bytes [] (d ∷ t) h = cc
same_bytes (c ∷ s) [] h = cc
same_bytes (c ∷ s) (d ∷ t) h = ground (arith, same_bytes s t)

module _ (p : Patterns) where
  -- How often a line with that key is there.
  unfoldable pub key_count : Bytes → List Bytes → ℕ
  key_count q [] = 0
  key_count q (line ∷ lines) =
      let rest = key_count q lines in if bytes_eq (key p line) q then suc rest else rest

  count_present-key_count :
      (present : Counts) (lines : List Bytes) (q : Bytes)
      → count_present p present lines q ≡ present q + key_count q lines
  unfolding count_present add_one key_count
  count_present-key_count present [] q = omega arith
  count_present-key_count present (line ∷ lines) q =
      ground (arith, count_present-key_count (add_one present (key p line)) lines q)

  key_count-not_present :
      (present : Counts) (lines : List Bytes) (q : Bytes)
      → key_count q (not_present p present lines) ≡ key_count q lines - present q
  unfolding not_present take_one key_count
  key_count-not_present present [] q = omega arith
  key_count-not_present present (line ∷ lines) q = elim (Bool-cases (bytes_eq (key p line) q)) [
    | inl same ↦
        let one : present (key p line) ≡ present q = ap present (same_bytes (key p line) q same) in
        elim (Bool-cases (ltb 0 (present (key p line)))) [
          | inl there ↦
              rw (there, not_present)
                (ground (
                  arith,
                  same,
                  one,
                  there,
                  key_count-not_present (take_one present (key p line)) lines q,
                ))
          | inr gone ↦
              rw (gone, not_present)
                (ground (arith, same, one, gone, key_count-not_present present lines q))
        ]
    | inr other ↦ elim (Bool-cases (ltb 0 (present (key p line)))) [
      | inl there ↦
          rw (there, not_present)
            (ground (arith, other, key_count-not_present (take_one present (key p line)) lines q))
      | inr gone ↦
          rw (gone, not_present) (ground (arith, other, key_count-not_present present lines q))
    ]
  ]

  key_count-kept_lines :
      (run : Option Run) (lines : List Bytes) (q : Bytes)
      → key_count q (kept_lines p run lines) ≤ key_count q lines
  unfolding kept_lines key_count
  key_count-kept_lines run [] q = omega arith
  key_count-kept_lines run (line ∷ lines) q = elim (Bool-cases (is_some (next_run p run line))) [
    | inl kept ↦
        rw (kept, kept_lines) (ground (arith, key_count-kept_lines (next_run p run line) lines q))
    | inr past ↦
        rw (past, kept_lines) (ground (arith, key_count-kept_lines (next_run p run line) lines q))
  ]

  -- Trimmed and without colours, a line is lost as often as the kept lines of the original show it
  -- more often than the lines of the compressed text do.
  pub key_count-lost_failure_lines :
      (before after q : Bytes)
      → key_count q (lost_failure_lines p before after)
        ≡ key_count q (kept_lines p none (lines_of before)) - key_count q (lines_of after)
  unfolding lost_failure_lines key_count
  key_count-lost_failure_lines before after q = elim (Bool-cases (bytes_eq before after)) [
    | inl same ↦ rw (same) (
        subst
          (λ t. 0 ≡ key_count q (kept_lines p none (lines_of before)) - key_count q (lines_of t))
          (same_bytes before after same)
          (omega (arith, key_count-kept_lines none (lines_of before) q)))
    | inr other ↦ rw (other) (
        omega (
          arith,
          key_count-not_present (count_present p (λ k. 0) (lines_of after))
              (kept_lines p none (lines_of before)) q,
          count_present-key_count (λ k. 0) (lines_of after) q,
        ))
  ]
