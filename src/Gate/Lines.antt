-- ===== src/Gate/Lines.antt =====
-- How the lines of a text go together: what `text.lines()` gives for a text with more put after it.
use lm_resizer.Gate.{add_first, lines_of}
use lm_resizer.Base.{
  ℕ, ◌≡◌, refl, ap, inl, inr, Bool, true, false, ◌&&◌, List, [], ◌∷◌, ◌++◌, Bytes, starts_with,
  ◌==◌, if◌then◌else◌, Bool-cases, arith, All, any, subst,
}

-- A line without the carriage return at its end.
abbrev pub chomp : Bytes → Bytes
chomp [] = []
chomp (c ∷ []) = if c == 13 then [] else c ∷ []
chomp (c ∷ d ∷ line) = c ∷ chomp (d ∷ line)

abbrev has_line_feed : Bytes → Bool
has_line_feed line = any (λ c. c == 10) line

abbrev pub OneLine : Bytes → Type 0
OneLine line = has_line_feed line ≡ false

pub lines_of-line :
    (line s : Bytes) → OneLine line → lines_of (line ++ (10 ∷ s)) ≡ chomp line ∷ lines_of s
unfolding lines_of
lines_of-line [] s h = refl
lines_of-line (c ∷ []) s h = ground (arith, h)
lines_of-line (c ∷ d ∷ line) s h = ground (arith, h, lines_of-line (d ∷ line) s)

OneLine-add_first :
    (c : ℕ) (lines : List Bytes)
    → (c == 10) ≡ false
    → All OneLine lines
    → All OneLine (add_first c lines)
OneLine-add_first c [] h all = (ground (arith, h), tt)
OneLine-add_first c (line ∷ lines) h (here, all) = (ground (arith, h, here), all)

pub OneLine-lines_of : (s : Bytes) → All OneLine (lines_of s)
unfolding lines_of
OneLine-lines_of [] = tt
OneLine-lines_of (c ∷ s) = elim (Bool-cases (c == 10)) [
  | inl feed ↦ rw (feed, lines_of) (refl, OneLine-lines_of s)
  | inr other ↦ elim (Bool-cases (c == 13 && starts_with (10 ∷ []) s)) [
    | inl return ↦ rw (other, return, lines_of) (OneLine-lines_of s)
    | inr plain ↦
        rw (other, plain, lines_of) (OneLine-add_first c (lines_of s) other (OneLine-lines_of s))
  ]
]

same_start :
    (v s : Bytes) → starts_with (10 ∷ []) (v ++ (10 ∷ s)) ≡ starts_with (10 ∷ []) (v ++ (10 ∷ []))
same_start [] s = refl
same_start (c ∷ v) s = refl

-- A text that ends with a line feed, and what stands after it.
pub record Joined (v s : Bytes) : Type 0 where
  pub first : Bytes
  pub others : List Bytes
  pub alone : lines_of (v ++ (10 ∷ [])) ≡ first ∷ others
  pub both : lines_of (v ++ (10 ∷ s)) ≡ first ∷ (others ++ lines_of s)

pub lines_of-Joined : (v s : Bytes) → Joined v s
unfolding lines_of
lines_of-Joined [] s = record { first = []; others = []; alone = refl; both = refl }
lines_of-Joined (c ∷ v) s = elim (Bool-cases (c == 10)) [
  | inl feed ↦
      let j = lines_of-Joined v s in
      record {
        first = [];
        others = j.first ∷ j.others;
        alone = rw (feed) (ap (◌∷◌ []) j.alone);
        both = rw (feed) (ap (◌∷◌ []) j.both);
      }
  | inr other ↦
      let j = lines_of-Joined v s in
      elim (Bool-cases (c == 13 && starts_with (10 ∷ []) (v ++ (10 ∷ [])))) [
        | inl return ↦ record {
          first = j.first;
          others = j.others;
          alone = rw (other, return) j.alone;
          both = rw (other, same_start v s) (rw (return) j.both);
        }
        | inr plain ↦ record {
          first = c ∷ j.first;
          others = j.others;
          alone = rw (other, plain) (ap (add_first c) j.alone);
          both = rw (other, same_start v s) (rw (plain) (ap (add_first c) j.both));
        }
      ]
]

-- The lines of a text, and those of the text with one more line feed.
pub data Closes : List Bytes → List Bytes → Type 0 where
  at_end : Closes [] ([] ∷ [])
  last_line : (c : ℕ) (line : Bytes) → Closes ((c ∷ line) ∷ []) (chomp (c ∷ line) ∷ [])
  earlier_line : (line : Bytes) {xs ys : List Bytes} → Closes xs ys → Closes (line ∷ xs) (line ∷ ys)

abbrev no_lines : List Bytes → Bool
no_lines [] = true
no_lines (line ∷ lines) = false

Closes-add_first :
    (c : ℕ) (xs ys : List Bytes)
    → no_lines xs ≡ false
    → Closes xs ys
    → Closes (add_first c xs) (add_first c ys)
Closes-add_first c _ _ some at_end = cc
Closes-add_first c _ _ some (last_line d line) = last_line c (d ∷ line)
Closes-add_first c _ _ some (earlier_line line closes) = earlier_line (c ∷ line) closes

started-add_first : (c : ℕ) (xs : List Bytes) → no_lines (add_first c xs) ≡ false
started-add_first c [] = refl
started-add_first c (x ∷ xs) = refl

started : (c : ℕ) (s : Bytes) → no_lines (lines_of (c ∷ s)) ≡ false
unfolding lines_of
started c [] = ground arith
started c (d ∷ s) = ground (arith, started d s, started-add_first c (lines_of (d ∷ s)))

single : (c : ℕ) → (c == 10) ≡ false → Closes (lines_of (c ∷ [])) (lines_of (c ∷ 10 ∷ []))
unfolding lines_of
single c other = elim (Bool-cases (c == 13)) [
  | inl return ↦
      let bare : chomp (c ∷ []) ≡ [] = ground (arith, return) in
      rw (other, return) (subst (λ l. Closes ((c ∷ []) ∷ []) (l ∷ [])) bare (last_line c []))
  | inr plain ↦
      let kept : chomp (c ∷ []) ≡ c ∷ [] = ground (arith, plain) in
      rw (other, plain) (subst (λ l. Closes ((c ∷ []) ∷ []) (l ∷ [])) kept (last_line c []))
]

pub lines_of-Closes : (u : Bytes) → Closes (lines_of u) (lines_of (u ++ (10 ∷ [])))
unfolding lines_of
lines_of-Closes [] = at_end
lines_of-Closes (c ∷ []) = elim (Bool-cases (c == 10)) [
  | inl feed ↦ rw (feed) (earlier_line [] at_end)
  | inr other ↦ single c other
]
lines_of-Closes (c ∷ d ∷ u) = elim (Bool-cases (c == 10)) [
  | inl feed ↦ rw (feed) (earlier_line [] (lines_of-Closes (d ∷ u)))
  | inr other ↦ elim (Bool-cases (c == 13 && starts_with (10 ∷ []) (d ∷ u))) [
    | inl return ↦ rw (other, return) (lines_of-Closes (d ∷ u))
    | inr plain ↦
        rw (other, plain)
          (Closes-add_first c (lines_of (d ∷ u)) (lines_of (d ∷ (u ++ (10 ∷ [])))) (started d u)
            (lines_of-Closes (d ∷ u)))
  ]
]
