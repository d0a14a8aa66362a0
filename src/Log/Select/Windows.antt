-- ===== src/Log/Select/Windows.antt =====
-- log_compressor.rs: the lines around the selected ones.
use lm_resizer.Base.{
  ℕ, zero, suc, ◌<◌, ◌≡◌, ◌↔◌, refl, sym, subst, ◌⊎◌, inl, inr, true, some, List, [], ◌∷◌, length,
  get_elem?, All, ◌==◌, ==_iff, Bool-cases, arith,
}
use lm_resizer.Base.TreeSet.Laws.{HasKey, HasKey-add, add-HasKey}
use lm_resizer.Log.{LogLine}
use lm_resizer.Log.Lines.Numbered.{IsLineOf, Numbered, Numbered-number}
use lm_resizer.Log.Select.{number, has_number, add_context_line, add_context, with_context}
use lm_resizer.Log.Select.Subset.{add_context_line-cases}
use lm_resizer.Log.Select.Near.{id, Near, HasKey-Near, HasKey-context_indices, Near-HasKey}

lookup_inside :
    {A : Type 0} (xs : List A) (i : ℕ) → i < length xs → (x : A) × (get_elem? xs i ≡ some x)
lookup_inside [] i h = absurd (omega arith)
lookup_inside (x ∷ xs) zero h = (x, refl)
lookup_inside (x ∷ xs) (suc i) h = lookup_inside xs i (omega arith)

inside_lookup : {A : Type 0} (xs : List A) (i : ℕ) (x : A) → get_elem? xs i ≡ some x → i < length xs
inside_lookup [] i x h = cc
inside_lookup (y ∷ xs) zero x h = omega arith
inside_lookup (y ∷ xs) (suc i) x h = omega (arith, inside_lookup xs i x h)

module _ {F : Type 0} where
  has_number-HasKey : (ls : List (LogLine F)) (k : ℕ) → has_number ls k ≡ true → HasKey number k ls
  has_number-HasKey [] k h = cc
  has_number-HasKey (l ∷ ls) k h = elim (Bool-cases (l.line_number == k)) [
    | inl here ↦ inl ((==_iff l.line_number k).0 here)
    | inr other ↦ inr (has_number-HasKey ls k (ground arith))
  ]

  module _ (log_lines : List (LogLine F)) (numbered : Numbered 0 log_lines)
      (chosen : List (LogLine F)) where
    step-HasKey :
        (k idx : ℕ) (selected : List (LogLine F))
        → HasKey number k (add_context_line log_lines chosen idx selected)
        → (idx ≡ k) ⊎ HasKey number k selected
    step-HasKey k idx selected h = elim (add_context_line-cases log_lines chosen idx selected) [
      | inl (why, e) ↦ inr (subst (HasKey number k) e h)
      | inr (line, at, e) ↦ elim (HasKey-add number k line selected (subst (HasKey number k) e h)) [
        | inl same ↦ inl (omega (arith, same, Numbered-number 0 idx log_lines line numbered at))
        | inr before ↦ inr before
      ]
    ]

    HasKey-add_context :
        (k : ℕ) (indices : List ℕ) (selected : List (LogLine F))
        → HasKey number k (add_context log_lines chosen indices selected)
        → HasKey id k indices ⊎ HasKey number k selected
    unfolding add_context
    HasKey-add_context k [] selected h = inr h
    HasKey-add_context k (idx ∷ indices) selected h =
        elim (HasKey-add_context k indices (add_context_line log_lines chosen idx selected) h) [
          | inl later ↦ inl (inr later)
          | inr at ↦ elim (step-HasKey k idx selected at) [
            | inl e ↦ inl (inl e)
            | inr before ↦ inr before
          ]
        ]

    selected-step :
        (k idx : ℕ) (selected : List (LogLine F))
        → HasKey number k selected
        → HasKey number k (add_context_line log_lines chosen idx selected)
    selected-step k idx selected h = elim (add_context_line-cases log_lines chosen idx selected) [
      | inl (why, e) ↦ subst (HasKey number k) (sym e) h
      | inr (line, at, e) ↦
          subst (HasKey number k) (sym e) (add-HasKey number k line selected (inr h))
    ]

    selected-HasKey :
        (k : ℕ) (indices : List ℕ) (selected : List (LogLine F))
        → HasKey number k selected
        → HasKey number k (add_context log_lines chosen indices selected)
    unfolding add_context
    selected-HasKey k [] selected h = h
    selected-HasKey k (idx ∷ indices) selected h =
        selected-HasKey k indices (add_context_line log_lines chosen idx selected)
          (selected-step k idx selected h)

    index-step :
        (k : ℕ) (selected : List (LogLine F))
        → k < length log_lines
        → (HasKey number k chosen → HasKey number k selected)
        → HasKey number k (add_context_line log_lines chosen k selected)
    index-step k selected inside old = elim (add_context_line-cases log_lines chosen k selected) [
      | inl (inl missing, e) ↦ let (line, at) = lookup_inside log_lines k inside in absurd (cc)
      | inl (inr there, e) ↦
          subst (HasKey number k) (sym e) (old (has_number-HasKey chosen k there))
      | inr (line, at, e) ↦ subst (HasKey number k) (sym e) (
          add-HasKey number k line selected
            (inl (omega (arith, Numbered-number 0 k log_lines line numbered at))))
    ]

    indices-HasKey :
        (k : ℕ) (indices : List ℕ) (selected : List (LogLine F))
        → k < length log_lines
        → (HasKey number k chosen → HasKey number k selected)
        → HasKey id k indices
        → HasKey number k (add_context log_lines chosen indices selected)
    unfolding add_context
    indices-HasKey k [] selected inside old h = absurd h
    indices-HasKey k (idx ∷ indices) selected inside old (inl e) =
        selected-HasKey k indices (add_context_line log_lines chosen idx selected) (
          subst (λ i. HasKey number k (add_context_line log_lines chosen i selected)) (sym e)
            (index-step k selected inside old))
    indices-HasKey k (idx ∷ indices) selected inside old (inr h) =
        indices-HasKey k indices (add_context_line log_lines chosen idx selected) inside
          (λ at. selected-step k idx selected (old at)) h

  HasKey-inside :
      (log_lines selected : List (LogLine F)) (k : ℕ)
      → All (IsLineOf log_lines) selected
      → HasKey number k selected
      → k < length log_lines
  HasKey-inside log_lines [] k h at = absurd at
  HasKey-inside log_lines (l ∷ ls) k (hl, h) (inl e) =
      omega (arith, e, inside_lookup log_lines l.line_number l hl)
  HasKey-inside log_lines (l ∷ ls) k (hl, h) (inr at) = HasKey-inside log_lines ls k h at

  -- With its context, a selection of lines of a log has exactly the lines of the log that are no further
  -- from a selected one than the context reaches.
  pub with_context_iff :
      (c : ℕ) (log_lines selected : List (LogLine F)) (k : ℕ)
      → Numbered 0 log_lines
      → All (IsLineOf log_lines) selected
      → HasKey number k (with_context c log_lines selected)
        ↔ (Near c k selected × (k < length log_lines))
  unfolding with_context
  with_context_iff c log_lines selected k numbered h = (
    λ at. elim (HasKey-add_context log_lines numbered selected k _ selected at) [
      | inl index ↦ elim (HasKey-context_indices c (length log_lines) k selected [] index) [
        | inl near ↦ near
        | inr nothing ↦ absurd nothing
      ]
      | inr old ↦ (HasKey-Near c k selected old, HasKey-inside log_lines selected k h old)
    ],
    λ (near, inside). elim (Near-HasKey c (length log_lines) k selected [] near inside) [
      | inl old ↦ selected-HasKey log_lines numbered selected k _ selected old
      | inr index ↦
          indices-HasKey log_lines numbered selected k _ selected inside (λ old. old) index
    ],
  )
