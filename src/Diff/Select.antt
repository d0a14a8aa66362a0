-- ===== src/Diff/Select.antt =====
-- `select_hunks`: the cap on the hunks of a file. A hunk's index in the file, which the code carries
-- along and does not use, is left out. `greater` is the strict order of the `f64` scores, and
-- `digit_width` the digits of Patterns.
use mathlib.Core.List.{Perm, perm_append_comm}
use mathlib.Core.List.Perm
use lm_resizer.Base.{
  append_nil, append_assoc, ℕ, ◌+◌, ◌-◌, ◌≤◌, ◌<◌, max, min, ◌≡◌, refl, sym, ap, ◌⊎◌, inl, inr,
  Bool, Bytes, Option, none, some, List, [], ◌∷◌, ◌++◌, length, take, drop, leb, ltb, if◌then◌else◌,
  Bool-cases, arith, subst, length-append, length-take, length-drop, take-append-drop,
}
use lm_resizer.Base.Sort.{sort_by, sort_by-Perm, length-sort_by}
use lm_resizer.Diff.{DiffHunk}
use lm_resizer.Diff.Patterns.{extract_line_number}

-- `pop`: the elements before the last, and the last.
unfoldable pub split_last : {A : Type 0} → List A → Option (List A × A)
split_last [] = none
split_last (x ∷ xs) = elim (split_last xs) [
  | none ↦ some ([], x)
  | some (init, last) ↦ some (x ∷ init, last)
]

module _ {F : Type 0} (digit_width : Bytes → ℕ) (greater : F → F → Bool) where
  abbrev higher_score : DiffHunk F → DiffHunk F → Bool
  higher_score a b = greater a.score b.score

  abbrev earlier : DiffHunk F → DiffHunk F → Bool
  earlier a b =
      ltb (extract_line_number digit_width a.header) (extract_line_number digit_width b.header)

  -- The first and the last hunk with the best ones between them, as many as there are slots.
  unfoldable pub select_around :
      DiffHunk F → List (DiffHunk F) → List (DiffHunk F) → ℕ → List (DiffHunk F) × List (DiffHunk F)
  select_around first middle last remaining_slots =
      let middle_sorted = sort_by higher_score middle in
      (
        sort_by earlier (first ∷ (take remaining_slots middle_sorted ++ last)),
        drop remaining_slots middle_sorted,
      )

  unfoldable pub select_capped : List (DiffHunk F) → ℕ → List (DiffHunk F) × List (DiffHunk F)
  select_capped [] max_per_file = ([], [])
  select_capped (first ∷ rest) max_per_file = elim (split_last rest) [
    | none ↦ select_around first [] [] (max_per_file - 1)
    | some (middle, last) ↦ select_around first middle (last ∷ []) (max_per_file - 2)
  ]

  unfoldable pub select_hunks : List (DiffHunk F) → ℕ → List (DiffHunk F) × List (DiffHunk F)
  select_hunks hunks max_per_file =
      if leb (length hunks) max_per_file then (hunks, []) else select_capped hunks max_per_file

append-split_last :
    {A : Type 0} (xs : List A)
    → ((split_last xs ≡ none) × (xs ≡ []))
      ⊎ ((init : List A) × (last : A) × (split_last xs ≡ some (init, last))
          × (xs ≡ init ++ last ∷ []))
unfolding split_last
append-split_last [] = inl (refl, refl)
append-split_last (x ∷ xs) = elim (append-split_last xs) [
  | inl (gone, empty) ↦ rw (empty) (inr ([], x, refl, refl))
  | inr (init, last, found, same) ↦ rw (found) (inr (x ∷ init, last, refl, ap (◌∷◌ x) same))
]

-- Two pieces at the end change places.
tail_to_middle : {A : Type 0} (k l d : List A) → Perm ((k ++ l) ++ d) ((k ++ d) ++ l)
tail_to_middle k l d =
    subst (λ x. Perm x ((k ++ d) ++ l)) (sym (append_assoc k l d))
      (subst (λ x. Perm (k ++ (l ++ d)) x) (sym (append_assoc k d l))
        (Perm.append_left k (perm_append_comm l d)))

module _ {F : Type 0} (digit_width : Bytes → ℕ) (greater : F → F → Bool) where
  -- What `select_around` keeps and drops is what it was given.
  select_around-Perm :
      (first : DiffHunk F) (middle last : List (DiffHunk F)) (slots : ℕ)
      → Perm
          ((select_around digit_width greater first middle last slots).0
            ++ (select_around digit_width greater first middle last slots).1)
          (first ∷ (middle ++ last))
  unfolding select_around
  select_around-Perm first middle last slots =
      let sorted = sort_by (higher_score digit_width greater) middle in
      Perm.trans
        (Perm.append_right (drop slots sorted)
          (sort_by-Perm (earlier digit_width greater) (first ∷ (take slots sorted ++ last))))
        (Perm.cons first (
          Perm.trans (tail_to_middle (take slots sorted) last (drop slots sorted)) (
            Perm.append_right last (
              rw (take-append-drop slots sorted)
                (sort_by-Perm (higher_score digit_width greater) middle)))))

  length-select_around :
      (first : DiffHunk F) (middle last : List (DiffHunk F)) (slots : ℕ)
      → length (select_around digit_width greater first middle last slots).0
        ≡ min slots (length middle) + length last + 1
  unfolding select_around
  length-select_around first middle last slots =
      let sorted = sort_by (higher_score digit_width greater) middle in
      omega (
        arith,
        length-sort_by (earlier digit_width greater) (first ∷ (take slots sorted ++ last)),
        length-append (take slots sorted) last,
        length-take slots sorted,
        length-sort_by (higher_score digit_width greater) middle,
      )

  select_capped-Perm :
      (hunks : List (DiffHunk F)) (max_per_file : ℕ)
      → Perm
          ((select_capped digit_width greater hunks max_per_file).0
            ++ (select_capped digit_width greater hunks max_per_file).1)
          hunks
        × (length (select_capped digit_width greater hunks max_per_file).0 ≤ max max_per_file 2)
  unfolding select_capped
  select_capped-Perm [] n = (Perm.refl [], omega arith)
  select_capped-Perm (first ∷ rest) n = elim (append-split_last rest) [
    | inl (gone, empty) ↦
        rw (gone, select_capped)
          (
            subst
                (λ x.
                  Perm
                    ((select_around digit_width greater first [] [] (n - 1)).0
                      ++ (select_around digit_width greater first [] [] (n - 1)).1)
                    (first ∷ x))
                (sym empty) (select_around-Perm first [] [] (n - 1)),
            omega (arith, length-select_around first [] [] (n - 1)),
          )
    | inr (middle, last, found, same) ↦
        rw (found, select_capped)
          (
            subst
                (λ x.
                  Perm
                    ((select_around digit_width greater first middle (last ∷ []) (n - 2)).0
                      ++ (select_around digit_width greater first middle (last ∷ []) (n - 2)).1)
                    (first ∷ x))
                (sym same) (select_around-Perm first middle (last ∷ []) (n - 2)),
            omega (arith, length-select_around first middle (last ∷ []) (n - 2)),
          )
  ]

  length-dropped_around :
      (first : DiffHunk F) (middle last : List (DiffHunk F)) (slots : ℕ)
      → length (select_around digit_width greater first middle last slots).1 ≡ length middle - slots
  unfolding select_around
  length-dropped_around first middle last slots = omega (
    arith,
    length-drop slots (sort_by (higher_score digit_width greater) middle),
    length-sort_by (higher_score digit_width greater) middle,
  )

  length-select_capped :
      (hunks : List (DiffHunk F)) (n : ℕ)
      → length (select_capped digit_width greater hunks n).0
          + length (select_capped digit_width greater hunks n).1
        ≡ length hunks
  unfolding select_capped
  length-select_capped [] n = omega arith
  length-select_capped (first ∷ rest) n = elim (append-split_last rest) [
    | inl (gone, empty) ↦
        rw (gone, select_capped)
          (omega (
            arith,
            length-select_around first [] [] (n - 1),
            length-dropped_around first [] [] (n - 1),
            ap length empty,
          ))
    | inr (middle, last, found, same) ↦
        rw (found, select_capped)
          (omega (
            arith,
            length-select_around first middle (last ∷ []) (n - 2),
            length-dropped_around first middle (last ∷ []) (n - 2),
            ap length same,
            length-append middle (last ∷ []),
          ))
  ]

  pub length-select_hunks :
      (hunks : List (DiffHunk F)) (n : ℕ)
      → length (select_hunks digit_width greater hunks n).0
          + length (select_hunks digit_width greater hunks n).1
        ≡ length hunks
  unfolding select_hunks
  length-select_hunks hunks n = elim (Bool-cases (leb (length hunks) n)) [
    | inl fits ↦ rw (fits) (omega arith)
    | inr over ↦ rw (over) (length-select_capped hunks n)
  ]

  -- The hunks that are kept and those that are dropped are together the hunks of the file, none lost
  -- and none doubled; no more are kept than the cap allows, or than two where the cap is below two; and
  -- where the file has no more hunks than the cap, all are kept in their order.
  pub select_hunks-Perm :
      (hunks : List (DiffHunk F)) (max_per_file : ℕ)
      → Perm
          ((select_hunks digit_width greater hunks max_per_file).0
            ++ (select_hunks digit_width greater hunks max_per_file).1)
          hunks
        × (length (select_hunks digit_width greater hunks max_per_file).0 ≤ max max_per_file 2)
        × ((max_per_file < length hunks)
            ⊎ ((select_hunks digit_width greater hunks max_per_file).0 ≡ hunks))
  unfolding select_hunks
  select_hunks-Perm hunks n = elim (Bool-cases (leb (length hunks) n)) [
    | inl fits ↦ rw (fits) (
      subst (λ x. Perm x hunks) (sym (append_nil hunks)) (Perm.refl hunks),
      ground arith,
      inr refl,
    )
    | inr over ↦
        rw (over)
          ((select_capped-Perm hunks n).0, (select_capped-Perm hunks n).1, inl (ground arith))
  ]
