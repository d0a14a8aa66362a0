-- ===== src/Diff/Context.antt =====
-- `reduce_context`: the lines of a hunk that stand near a change. The set of indices to keep is the
-- test of an index, and going through it in order is going through the lines.
use lm_resizer.Base.{
  ℕ, zero, suc, ◌+◌, ◌-◌, ◌≤◌, min, ◌≡◌, refl, ◌∙◌, ap, sym, In, length-take, inl, inr, Bool, true,
  ◌&&◌, ◌||◌, not, List, [], ◌∷◌, any, filter, length, take, Bytes, codes, starts_with, leb,
  is_empty, if◌then◌else◌, Bool-cases, arith,
}
use lm_resizer.Diff.{DiffHunk}

abbrev pub is_change : Bytes → Bool
is_change line = starts_with (codes "+") line || starts_with (codes "-") line

abbrev pub is_marker : Bytes → Bool
is_marker line = starts_with (codes "\\") line

-- The indices of the change lines, the first line's being `i`.
unfoldable pub change_positions : ℕ → List Bytes → List ℕ
change_positions i [] = []
change_positions i (line ∷ lines) =
    let rest = change_positions (suc i) lines in if is_change line then i ∷ rest else rest

-- `keep.contains(i)` for the ranges around the changes.
abbrev pub is_near : ℕ → List ℕ → ℕ → Bool
is_near max_context positions i =
    any (λ pos. leb (pos - max_context) i && leb i (pos + max_context)) positions

unfoldable pub keep_lines : ℕ → List ℕ → ℕ → List Bytes → List Bytes
keep_lines max_context positions i [] = []
keep_lines max_context positions i (line ∷ lines) =
    let rest = keep_lines max_context positions (suc i) lines in
    if is_near max_context positions i || is_marker line then line ∷ rest else rest

unfoldable pub count : (Bytes → Bool) → List Bytes → ℕ
count p [] = 0
count p (line ∷ lines) = let rest = count p lines in if p line then suc rest else rest

module _ {F : Type 0} where
  unfoldable pub reduce_context : DiffHunk F → ℕ → DiffHunk F
  reduce_context hunk max_context =
      if is_empty (change_positions 0 hunk.lines)
      then record hunk {
        lines = take (min max_context (length hunk.lines)) hunk.lines;
        additions = 0;
        deletions = 0;
        context_lines = min max_context (length hunk.lines);
      }
      else let new_lines = keep_lines max_context (change_positions 0 hunk.lines) 0 hunk.lines in
        record hunk {
          lines = new_lines;
          additions = count (starts_with (codes "+")) new_lines;
          deletions = count (starts_with (codes "-")) new_lines;
          context_lines = count (λ line. not (is_change line)) new_lines;
        }

near-In :
    (max_context : ℕ) (positions : List ℕ) (pos : ℕ)
    → In pos positions
    → is_near max_context positions pos ≡ true
near-In c [] pos h = absurd h
near-In c (p ∷ ps) pos (inl same) = ground arith
near-In c (p ∷ ps) pos (inr later) = ground (arith, near-In c ps pos later)

-- The positions of the later lines are among those of all.
later_positions :
    (i : ℕ) (line : Bytes) (lines : List Bytes) (pos : ℕ)
    → In pos (change_positions (suc i) lines)
    → In pos (change_positions i (line ∷ lines))
unfolding change_positions
later_positions i line lines pos h = elim (Bool-cases (is_change line)) [
  | inl change ↦ rw (change, change_positions) (inr h)
  | inr plain ↦ rw (plain, change_positions) h
]

first_position :
    (i : ℕ) (line : Bytes) (lines : List Bytes)
    → is_change line ≡ true
    → In i (change_positions i (line ∷ lines))
unfolding change_positions
first_position i line lines change = rw (change, change_positions) (inl refl)

-- No change line is lost where every change stands near a position.
filter-keep_lines :
    (max_context : ℕ) (positions : List ℕ) (i : ℕ) (lines : List Bytes)
    → ((pos : ℕ) → In pos (change_positions i lines) → is_near max_context positions pos ≡ true)
    → filter is_change (keep_lines max_context positions i lines) ≡ filter is_change lines
unfolding keep_lines
filter-keep_lines c ps i [] h = refl
filter-keep_lines c ps i (line ∷ lines) h =
    let rest =
      filter-keep_lines c ps (suc i) lines (λ pos p. h pos (later_positions i line lines pos p)) in
    elim (Bool-cases (is_change line)) [
      | inl change ↦ ground (arith, change, h i (first_position i line lines change), rest)
      | inr plain ↦ ground (arith, plain, rest)
    ]

no_change :
    (i n : ℕ) (lines : List Bytes)
    → is_empty (change_positions i lines) ≡ true
    → (filter is_change (take n lines) ≡ []) × (filter is_change lines ≡ [])
unfolding change_positions
no_change i zero [] h = (refl, refl)
no_change i (suc n) [] h = (refl, refl)
no_change i zero (line ∷ lines) h = ground (arith, h, no_change (suc i) zero lines)
no_change i (suc n) (line ∷ lines) h = ground (arith, h, no_change (suc i) n lines)

count-filter :
    (p : Bytes → Bool) (lines : List Bytes)
    → ((line : Bytes) → p line ≡ true → is_change line ≡ true)
    → count p (filter is_change lines) ≡ count p lines
unfolding count
count-filter p [] h = refl
count-filter p (line ∷ lines) h = ground (arith, count-filter p lines h, h line)

count_three :
    (lines : List Bytes)
    → count (starts_with (codes "+")) lines
        + count (starts_with (codes "-")) lines
        + count (λ line. not (is_change line)) lines
      ≡ length lines
unfolding count
count_three [] = omega arith
count_three ([] ∷ lines) = ground (arith, count_three lines)
count_three ((c ∷ line) ∷ lines) = ground (arith, count_three lines)

length-keep_lines :
    (max_context : ℕ) (positions : List ℕ) (i : ℕ) (lines : List Bytes)
    → length (keep_lines max_context positions i lines) ≤ length lines
unfolding keep_lines
length-keep_lines c ps i [] = omega arith
length-keep_lines c ps i (line ∷ lines) = ground (arith, length-keep_lines c ps (suc i) lines)

module _ {F : Type 0} where
  -- The trimmed hunk has the change lines of the hunk, all of them and in their order, and no more
  -- lines than the hunk; its three counts add up to its lines, and its additions and deletions are
  -- the lines of the hunk that begin with a plus and with a minus.
  pub reduce_context_lem :
      (hunk : DiffHunk F) (max_context : ℕ)
      → (filter is_change (reduce_context hunk max_context).lines ≡ filter is_change hunk.lines)
        × (length (reduce_context hunk max_context).lines ≤ length hunk.lines)
        × ((reduce_context hunk max_context).additions
              + (reduce_context hunk max_context).deletions
              + (reduce_context hunk max_context).context_lines
            ≡ length (reduce_context hunk max_context).lines)
        × ((reduce_context hunk max_context).additions ≡ count (starts_with (codes "+")) hunk.lines)
        × ((reduce_context hunk max_context).deletions ≡ count (starts_with (codes "-")) hunk.lines)
  unfolding reduce_context count
  reduce_context_lem hunk c =
      let add : (line : Bytes) → starts_with (codes "+") line ≡ true → is_change line ≡ true =
        λ line h. ground arith in
      let del : (line : Bytes) → starts_with (codes "-") line ≡ true → is_change line ≡ true =
        λ line h. ground arith in
      elim (Bool-cases (is_empty (change_positions 0 hunk.lines))) [
        | inl none_here ↦
            let (taken, whole) = no_change 0 (min c (length hunk.lines)) hunk.lines none_here in
            rw (none_here) (
              taken ∙ sym whole,
              omega (arith, length-take (min c (length hunk.lines)) hunk.lines),
              omega (arith, length-take (min c (length hunk.lines)) hunk.lines),
              ap (count (starts_with (codes "+"))) (sym whole) ∙ count-filter _ hunk.lines add,
              ap (count (starts_with (codes "-"))) (sym whole) ∙ count-filter _ hunk.lines del,
            )
        | inr some_here ↦
            let ps = change_positions 0 hunk.lines in
            let kept = keep_lines c ps 0 hunk.lines in
            let same = filter-keep_lines c ps 0 hunk.lines (λ pos p. near-In c ps pos p) in
            rw (some_here) (
              same,
              length-keep_lines c ps 0 hunk.lines,
              count_three kept,
              sym (count-filter (starts_with (codes "+")) kept add)
                  ∙ ap (count (starts_with (codes "+"))) same
                  ∙ count-filter (starts_with (codes "+")) hunk.lines add,
              sym (count-filter (starts_with (codes "-")) kept del)
                  ∙ ap (count (starts_with (codes "-"))) same
                  ∙ count-filter (starts_with (codes "-")) hunk.lines del,
            )
      ]
