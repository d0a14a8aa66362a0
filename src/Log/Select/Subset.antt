-- ===== src/Log/Select/Subset.antt =====
-- log_compressor.rs: whatever holds of all lines holds of those that the parts of `select_lines` give.
use lm_resizer.Base.{
  ℕ, zero, suc, ◌≡◌, sym, ap, ◌∙◌, ◌⊎◌, subst, inl, inr, true, false, Option, none, some, List, [],
  ◌∷◌, ◌++◌, length, take, get_elem?, leb, if◌then◌else◌, All, All-append, All-take, Bool-cases,
  Option-cases,
}
use lm_resizer.Base.TreeSet.{add, add_all}
use lm_resizer.Base.TreeSet.Laws.{All-add, All-add_all}
use lm_resizer.Log.{LogLine}
use lm_resizer.Log.Select.{
  number, first, last, unless_empty, stack_runs, has_number, push_line, push_some, fill_lines,
  add_context_line, add_context, add_stacks,
}

pub All-get_elem? :
    {A : Type 0} (P : A → Type 0) (xs : List A) (i : ℕ) (x : A)
    → All P xs
    → get_elem? xs i ≡ some x
    → P x
All-get_elem? P [] i x h e = cc
All-get_elem? P (y ∷ xs) zero x (hy, h) e = let same : y ≡ x = cc in subst P same hy
All-get_elem? P (y ∷ xs) (suc i) x (hy, h) e = All-get_elem? P xs i x h e

module _ {F : Type 0} where
  add_some :
      (chosen : List (LogLine F)) (idx : ℕ) (selected : List (LogLine F))
      → Option (LogLine F)
      → List (LogLine F)
  add_some chosen idx selected o = elim o [
    | none ↦ selected
    | some line ↦ if has_number chosen idx then selected else add number line selected
  ]

  -- A line of context is not there, or is selected, or is added.
  pub add_context_line-cases :
      (log_lines chosen : List (LogLine F)) (idx : ℕ) (selected : List (LogLine F))
      → (((get_elem? log_lines idx ≡ none) ⊎ (has_number chosen idx ≡ true))
          × (add_context_line log_lines chosen idx selected ≡ selected))
        ⊎ ((line : LogLine F) × (get_elem? log_lines idx ≡ some line)
            × (add_context_line log_lines chosen idx selected ≡ add number line selected))
  unfolding add_context_line add_some
  add_context_line-cases log_lines chosen idx selected =
      elim (Option-cases (get_elem? log_lines idx)) [
        | inl missing ↦ inl (inl missing, ap (add_some chosen idx selected) missing)
        | inr (line, at) ↦ elim (Bool-cases (has_number chosen idx)) [
          | inl old ↦ inl (
            inr old,
            ap (add_some chosen idx selected) at
                ∙ ap (λ b. if b then selected else add number line selected) old,
          )
          | inr new ↦ inr (
            line,
            at,
            ap (add_some chosen idx selected) at
                ∙ ap (λ b. if b then selected else add number line selected) new,
          )
        ]
      ]

module _ {F : Type 0} (P : LogLine F → Type 0) where
  All-unless_empty :
      (current : List (LogLine F)) (stacks : List (List (LogLine F)))
      → All P current
      → All (All P) stacks
      → All (All P) (unless_empty current stacks)
  All-unless_empty [] stacks hc h = h
  All-unless_empty (l ∷ ls) stacks hc h = (hc, h)

  pub All-stack_runs :
      (current ls : List (LogLine F))
      → All P current
      → All P ls
      → All (All P) (stack_runs current ls)
  unfolding stack_runs
  All-stack_runs current [] hc h = All-unless_empty current [] hc tt
  All-stack_runs current (l ∷ ls) hc (hl, h) =
      elim l.is_stack_trace
        as (λ b. All (All P) (
          if b
          then stack_runs (current ++ (l ∷ [])) ls
          else unless_empty current (stack_runs [] ls))) [
            | true ↦
                All-stack_runs (current ++ (l ∷ [])) ls (All-append P current (l ∷ []) hc (hl, tt))
                  h
            | false ↦ All-unless_empty current (stack_runs [] ls) hc (All-stack_runs [] ls tt h)
          ]

  All-push_line :
      (line : LogLine F) (out : List (LogLine F)) → P line → All P out → All P (push_line line out)
  unfolding push_line
  All-push_line line out hl h =
      elim (has_number out line.line_number)
        as (λ b. All P (if b then out else out ++ (line ∷ []))) [
          | true ↦ h
          | false ↦ All-append P out (line ∷ []) h (hl, tt)
        ]

  pub All-push_first :
      (lines out : List (LogLine F)) → All P lines → All P out → All P (push_some (first lines) out)
  All-push_first [] out hl h = h
  All-push_first (l ∷ ls) out hl h = All-push_line l out hl.0 h

  pub All-push_last :
      (lines out : List (LogLine F)) → All P lines → All P out → All P (push_some (last lines) out)
  All-push_last [] out hl h = h
  All-push_last (l ∷ []) out hl h = All-push_line l out hl.0 h
  All-push_last (l ∷ k ∷ ls) out hl h = All-push_last (k ∷ ls) out hl.1 h

  pub All-fill_lines :
      (n : ℕ) (lines out : List (LogLine F))
      → All P lines
      → All P out
      → All P (fill_lines n lines out)
  unfolding fill_lines
  All-fill_lines n [] out hl h = h
  All-fill_lines n (l ∷ ls) out (hl, hls) h = elim (Bool-cases (has_number out l.line_number)) [
    | inl old ↦ rw (old) (All-fill_lines n ls out hls h)
    | inr new ↦
        let h' = All-push_line l out hl h in
        rw (new) (elim (Bool-cases (leb n (length (push_line l out)))) [
          | inl full ↦ rw (full) h'
          | inr room ↦ rw (room) (All-fill_lines n ls (push_line l out) hls h')
        ])
  ]

  All-add_context_line :
      (log_lines chosen : List (LogLine F)) (idx : ℕ) (selected : List (LogLine F))
      → All P log_lines
      → All P selected
      → All P (add_context_line log_lines chosen idx selected)
  All-add_context_line log_lines chosen idx selected hl h =
      elim (add_context_line-cases log_lines chosen idx selected) [
        | inl (why, e) ↦ subst (All P) (sym e) h
        | inr (line, at, e) ↦
            subst (All P) (sym e)
              (All-add number P line selected (All-get_elem? P log_lines idx line hl at) h)
      ]

  pub All-add_context :
      (log_lines chosen : List (LogLine F)) (indices : List ℕ) (selected : List (LogLine F))
      → All P log_lines
      → All P selected
      → All P (add_context log_lines chosen indices selected)
  unfolding add_context
  All-add_context log_lines chosen [] selected hl h = h
  All-add_context log_lines chosen (idx ∷ indices) selected hl h =
      All-add_context log_lines chosen indices (add_context_line log_lines chosen idx selected) hl
        (All-add_context_line log_lines chosen idx selected hl h)

  pub All-add_stacks :
      (n : ℕ) (stacks : List (List (LogLine F))) (set : List (LogLine F))
      → All (All P) stacks
      → All P set
      → All P (add_stacks n stacks set)
  unfolding add_stacks
  All-add_stacks n [] set hs h = h
  All-add_stacks n (stack ∷ stacks) set (hs, hss) h =
      All-add_stacks n stacks (add_all number (take n stack) set) hss
        (All-add_all number P (take n stack) set (All-take P n stack hs) h)
