-- ===== src/Log/Select/Near.antt =====
-- log_compressor.rs: the numbers that are near those of the selected lines.
use lm_resizer.Base.{
  ℕ, zero, suc, ◌+◌, ◌-◌, ◌≤◌, ◌<◌, min, ◌≡◌, ◌≢◌, ◌⊎◌, inl, inr, List, [], ◌∷◌, ◌==◌, ==_iff,
  Bool-cases, arith,
}
use lm_resizer.Base.TreeSet.{add_all}
use lm_resizer.Base.TreeSet.Laws.{HasKey, HasKey-add_all, add_all-HasKey}
use lm_resizer.Log.{LogLine}
use lm_resizer.Log.Select.{number, others, context_of, context_indices}

abbrev pub id : ℕ → ℕ
id i = i

-- `others` has the numbers of its range but the one.
HasKey-others : (k idx lo n : ℕ) → HasKey id k (others idx lo n) → (lo ≤ k) × (k < lo + n)
unfolding others
HasKey-others k idx lo zero h = absurd h
HasKey-others k idx lo (suc n) h = elim (Bool-cases (lo == idx)) [
  | inl same ↦
      let (above, below) = HasKey-others k idx (suc lo) n (rw (same) at h) in
      (omega arith, omega arith)
  | inr other ↦
      let cases : (lo ≡ k) ⊎ HasKey id k (others idx (suc lo) n) = rw (other) at h in
      elim cases [
        | inl e ↦ (omega arith, omega arith)
        | inr later ↦
            let (above, below) = HasKey-others k idx (suc lo) n later in (omega arith, omega arith)
      ]
]

others-HasKey : (k idx lo n : ℕ) → lo ≤ k → k < lo + n → k ≢ idx → HasKey id k (others idx lo n)
unfolding others
others-HasKey k idx lo zero above below ne = absurd (omega arith)
others-HasKey k idx lo (suc n) above below ne = elim (Bool-cases (lo == idx)) [
  | inl same ↦ rw (same) (others-HasKey k idx (suc lo) n (ground arith) (omega arith) ne)
  | inr other ↦ rw (other) (elim (Bool-cases (lo == k)) [
    | inl here ↦ inl ((==_iff lo k).0 here)
    | inr later ↦ inr (others-HasKey k idx (suc lo) n (ground arith) (omega arith) ne)
  ])
]

HasKey-context_of :
    (c len idx k : ℕ)
    → HasKey id k (context_of c len idx)
    → (idx ≤ k + c) × (k ≤ idx + c) × (k < len)
unfolding context_of
HasKey-context_of c len idx k h =
    let (above, below) = HasKey-others k idx (idx - c) (min (idx + c + 1) len - (idx - c)) h in
    (omega arith, omega arith, omega arith)

context_of-HasKey :
    (c len idx k : ℕ)
    → idx ≤ k + c
    → k ≤ idx + c
    → k < len
    → k ≢ idx
    → HasKey id k (context_of c len idx)
unfolding context_of
context_of-HasKey c len idx k below above inside ne =
    others-HasKey k idx (idx - c) (min (idx + c + 1) len - (idx - c)) (omega arith) (omega arith) ne

module _ {F : Type 0} where
  -- Some of the lines is no further from `k` than the context reaches.
  abbrev pub Near : ℕ → ℕ → List (LogLine F) → Type 0
  Near context_lines k [] = ⊥
  Near context_lines k (l ∷ ls) =
      ((l.line_number ≤ k + context_lines) × (k ≤ l.line_number + context_lines))
      ⊎ Near context_lines k ls

  pub HasKey-Near : (c k : ℕ) (ls : List (LogLine F)) → HasKey number k ls → Near c k ls
  HasKey-Near c k [] h = absurd h
  HasKey-Near c k (l ∷ ls) (inl e) = inl (omega arith, omega arith)
  HasKey-Near c k (l ∷ ls) (inr h) = inr (HasKey-Near c k ls h)

  pub HasKey-context_indices :
      (c len k : ℕ) (ls : List (LogLine F)) (set : List ℕ)
      → HasKey id k (context_indices c len ls set)
      → (Near c k ls × (k < len)) ⊎ HasKey id k set
  unfolding context_indices
  HasKey-context_indices c len k [] set h = inr h
  HasKey-context_indices c len k (l ∷ ls) set h = elim (HasKey-context_indices c len k ls _ h) [
    | inl (near, inside) ↦ inl (inr near, inside)
    | inr at ↦ elim (HasKey-add_all id k (context_of c len l.line_number) set at) [
      | inl here ↦
          let (below, above, inside) = HasKey-context_of c len l.line_number k here in
          inl (inl (below, above), inside)
      | inr old ↦ inr old
    ]
  ]

  set-HasKey :
      (c len k : ℕ) (ls : List (LogLine F)) (set : List ℕ)
      → HasKey id k set
      → HasKey id k (context_indices c len ls set)
  unfolding context_indices
  set-HasKey c len k [] set h = h
  set-HasKey c len k (l ∷ ls) set h =
      set-HasKey c len k ls _ (add_all-HasKey id k (context_of c len l.line_number) set (inr h))

  pub Near-HasKey :
      (c len k : ℕ) (ls : List (LogLine F)) (set : List ℕ)
      → Near c k ls
      → k < len
      → HasKey number k ls ⊎ HasKey id k (context_indices c len ls set)
  unfolding context_indices
  Near-HasKey c len k [] set h inside = absurd h
  Near-HasKey c len k (l ∷ ls) set (inl (below, above)) inside =
      elim (Bool-cases (l.line_number == k)) [
        | inl here ↦ inl (inl ((==_iff l.line_number k).0 here))
        | inr other ↦ inr (
            set-HasKey c len k ls _ (
              add_all-HasKey id k (context_of c len l.line_number) set (
                inl (
                  context_of-HasKey c len l.line_number k below above inside (λ e. ground arith)))))
      ]
  Near-HasKey c len k (l ∷ ls) set (inr h) inside =
      elim (Near-HasKey c len k ls (add_all id (context_of c len l.line_number) set) h inside) [
        | inl at ↦ inl (inr at)
        | inr at ↦ inr at
      ]
