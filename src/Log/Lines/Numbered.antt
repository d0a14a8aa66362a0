-- ===== src/Log/Lines/Numbered.antt =====
-- log_compressor.rs: the lines that `parse_lines` gives are those of the text, by their numbers.
use lm_resizer.Base.{
  ℕ, zero, suc, ◌+◌, ◌-◌, ◌≤◌, ◌≡◌, refl, sym, ap, ◌∙◌, some, none, List, [], ◌∷◌, map, length,
  get_elem?, All, All-map, Bytes, length-map, arith,
}
use lm_resizer.Log.{LogLine, LogCompressorConfig}
use lm_resizer.Log.Patterns.{Matchers}
use lm_resizer.Log.Lines.{Scores, Trace, step_trace, classified, parse_from, parse_lines}

-- The line is the one of the log that has its number.
abbrev pub IsLineOf : {F : Type 0} → List (LogLine F) → LogLine F → Type 0
IsLineOf log_lines l = get_elem? log_lines l.line_number ≡ some l

module _ {F : Type 0} where
  abbrev pub Numbered : ℕ → List (LogLine F) → Type 0
  Numbered i [] = Unit {0}
  Numbered i (l ∷ ls) = (l.line_number ≡ i) × Numbered (suc i) ls

  abbrev At : ℕ → List (LogLine F) → LogLine F → Type 0
  At i ls l = (i ≤ l.line_number) × (get_elem? ls (l.line_number - i) ≡ some l)

  At-later :
      (i : ℕ) (k : LogLine F) (ls : List (LogLine F)) (l : LogLine F)
      → At (suc i) ls l
      → At i (k ∷ ls) l
  At-later i k ls l (above, at) =
      let step : l.line_number - i ≡ suc (l.line_number - suc i) = omega arith in
      (omega arith, ap (get_elem? (k ∷ ls)) step ∙ at)

  Numbered-At : (i : ℕ) (ls : List (LogLine F)) → Numbered i ls → All (At i ls) ls
  Numbered-At i [] h = tt
  Numbered-At i (l ∷ ls) (here, h) =
      let none_before : l.line_number - i ≡ 0 = omega arith in
      (
        (omega arith, ap (get_elem? (l ∷ ls)) none_before),
        All-map ls (λ k at. At-later i l ls k at) (Numbered-At (suc i) ls h),
      )

  pub Numbered-number :
      (i j : ℕ) (ls : List (LogLine F)) (l : LogLine F)
      → Numbered i ls
      → get_elem? ls j ≡ some l
      → l.line_number ≡ i + j
  Numbered-number i j [] l h e = cc
  Numbered-number i zero (k ∷ ls) l (here, h) e =
      let same : k ≡ l = cc in omega (arith, here, ap (λ x. x.line_number) same)
  Numbered-number i (suc j) (k ∷ ls) l (here, h) e =
      omega (arith, Numbered-number (suc i) j ls l h e)

  pub Numbered-IsLineOf : (ls : List (LogLine F)) → Numbered 0 ls → All (IsLineOf ls) ls
  Numbered-IsLineOf ls h =
      All-map ls
        (λ l at.
          ap (get_elem? ls) (let e : l.line_number ≡ l.line_number - 0 = omega arith in e) ∙ at.1)
        (Numbered-At 0 ls h)

module _ {F : Type 0} (f : Scores F) (p : Matchers) (config : LogCompressorConfig) where
  pub parse_from-Numbered :
      (i : ℕ) (active : Trace) (lines : List Bytes)
      → Numbered i (parse_from f p config i active lines)
  unfolding parse_from classified
  parse_from-Numbered i active [] = tt
  parse_from-Numbered i active (line ∷ lines) =
      (refl, parse_from-Numbered (suc i) (step_trace f p config active line).0 lines)

  content-parse_from :
      (i : ℕ) (active : Trace) (lines : List Bytes)
      → map (λ l. l.content) (parse_from f p config i active lines) ≡ lines
  unfolding parse_from classified
  content-parse_from i active [] = refl
  content-parse_from i active (line ∷ lines) =
      ap (◌∷◌ line) (content-parse_from (suc i) (step_trace f p config active line).0 lines)

  pub content-parse_lines :
      (lines : List Bytes) → map (λ l. l.content) (parse_lines f p config lines) ≡ lines
  unfolding parse_lines
  content-parse_lines lines = content-parse_from 0 (none, 0) lines

  pub length-parse_lines :
      (lines : List Bytes) → length (parse_lines f p config lines) ≡ length lines
  length-parse_lines lines =
      sym (length-map (λ l. l.content) (parse_lines f p config lines))
      ∙ ap length (content-parse_lines lines)

  pub parse_lines-Numbered : (lines : List Bytes) → Numbered 0 (parse_lines f p config lines)
  unfolding parse_lines
  parse_lines-Numbered lines = parse_from-Numbered 0 (none, 0) lines

  pub parse_lines-IsLineOf :
      (lines : List Bytes)
      → All (IsLineOf (parse_lines f p config lines)) (parse_lines f p config lines)
  parse_lines-IsLineOf lines = Numbered-IsLineOf _ (parse_lines-Numbered lines)

get_elem?-map :
    {A B : Type 0} (g : A → B) (xs : List A) (i : ℕ) (x : A)
    → get_elem? xs i ≡ some x
    → get_elem? (map g xs) i ≡ some (g x)
get_elem?-map g [] i x h = cc
get_elem?-map g (y ∷ xs) zero x h = cc
get_elem?-map g (y ∷ xs) (suc i) x h = get_elem?-map g xs i x h

-- A line of the log has the text of the line with its number.
pub IsLineOf-content :
    {F : Type 0} (f : Scores F) (p : Matchers) (config : LogCompressorConfig) (lines : List Bytes)
    (l : LogLine F)
    → IsLineOf (parse_lines f p config lines) l
    → get_elem? lines l.line_number ≡ some l.content
IsLineOf-content f p config lines l h =
    ap (λ ls. get_elem? ls l.line_number) (sym (content-parse_lines f p config lines))
    ∙ get_elem?-map (λ k. k.content) (parse_lines f p config lines) l.line_number l h
