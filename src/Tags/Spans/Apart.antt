-- ===== src/Tags/Spans/Apart.antt =====
-- Spans that stand in order and apart from one another, and the stack of open tags among them.
use lm_resizer.Base.{
  ℕ, suc, ◌≤◌, ◌<◌, ◌⊎◌, inl, inr, List, [], ◌∷◌, ◌++◌, arith, All, All-append, All-filter, All-map,
  ltb, Bool-cases,
}
use lm_resizer.Tags.Spans.{OpenTag, Span, Walk, retain_before}

-- From `lo` to `hi` the spans follow one another without overlap, and none is empty.
abbrev pub Apart : ℕ → List Span → ℕ → Type 0
Apart lo [] hi = lo ≤ hi
Apart lo (s ∷ ss) hi = (lo ≤ s.start) × (s.start < s.end) × Apart s.end ss hi

-- No span reaches over the position `o`.
abbrev pub Clear : ℕ → List Span → Type 0
Clear o = All (λ s. (s.end ≤ o) ⊎ (o ≤ s.start))

-- The open tags stand in order below `hi`, the top last.
abbrev pub Stacked : List OpenTag → ℕ → Type 0
Stacked [] hi = Unit
Stacked (o ∷ os) hi = (o.open_start < hi) × Stacked os o.open_start

pub Apart-le : (lo hi : ℕ) (ss : List Span) → Apart lo ss hi → lo ≤ hi
Apart-le lo hi [] h = h
Apart-le lo hi (s ∷ ss) h = omega (arith, Apart-le s.end hi ss h.2)

pub Apart-lower : (lo lo' hi : ℕ) (ss : List Span) → lo' ≤ lo → Apart lo ss hi → Apart lo' ss hi
Apart-lower lo lo' hi [] le h = omega arith
Apart-lower lo lo' hi (s ∷ ss) le h = (omega arith, h.1, h.2)

pub Apart-upper : (lo hi hi' : ℕ) (ss : List Span) → hi ≤ hi' → Apart lo ss hi → Apart lo ss hi'
Apart-upper lo hi hi' [] le h = omega arith
Apart-upper lo hi hi' (s ∷ ss) le h = (h.0, h.1, Apart-upper s.end hi hi' ss le h.2)

pub Apart-append_last :
    (lo hi hi' : ℕ) (ss : List Span) (s : Span)
    → Apart lo ss hi
    → hi ≤ s.start
    → s.start < s.end
    → s.end ≤ hi'
    → Apart lo (ss ++ s ∷ []) hi'
Apart-append_last lo hi hi' [] s h a b c = (omega arith, b, c)
Apart-append_last lo hi hi' (r ∷ ss) s h a b c =
    (h.0, h.1, Apart-append_last r.end hi hi' ss s h.2 a b c)

-- What `retain` keeps ends before the position that no span reaches over.
pub Apart-retain_before :
    (lo hi o : ℕ) (ss : List Span)
    → Apart lo ss hi
    → Clear o ss
    → lo ≤ o
    → Apart lo (retain_before o ss) o
unfolding retain_before
Apart-retain_before lo hi o [] h c le = le
Apart-retain_before lo hi o (s ∷ ss) h (inl early, c) le = elim (Bool-cases (ltb s.start o)) [
  | inl kept ↦ rw kept (h.0, h.1, Apart-retain_before s.end hi o ss h.2 c early)
  | inr gone ↦ absurd (ground arith)
]
Apart-retain_before lo hi o (s ∷ ss) h (inr late, c) le = elim (Bool-cases (ltb s.start o)) [
  | inl kept ↦ absurd (ground arith)
  | inr gone ↦
      rw gone (Apart-retain_before lo hi o ss (Apart-lower s.end lo hi ss (omega arith) h.2) c le)
]

pub Clear-late : (o hi lo : ℕ) (ss : List Span) → Apart lo ss hi → hi ≤ o → Clear o ss
Clear-late o hi lo [] h le = tt
Clear-late o hi lo (s ∷ ss) h le =
    (inl (omega (arith, Apart-le s.end hi ss h.2)), Clear-late o hi s.end ss h.2 le)

pub record IsOrdered (n : ℕ) (w : Walk) : Type 0 where
  pub inside : w.i ≤ n
  pub apart : Apart 0 w.spans w.i
  pub stacked : Stacked w.stack w.i
  pub clear : All (λ o. Clear o.open_start w.spans) w.stack

pub Stacked-upper : (hi hi' : ℕ) (os : List OpenTag) → hi ≤ hi' → Stacked os hi → Stacked os hi'
Stacked-upper hi hi' [] le h = tt
Stacked-upper hi hi' (o ∷ os) le h = (omega arith, h.1)

pub Stacked-lt : (hi : ℕ) (os : List OpenTag) → Stacked os hi → All (λ o. o.open_start < hi) os
Stacked-lt hi [] h = tt
Stacked-lt hi (o ∷ os) h = (h.0, All-map os (λ p lt. omega arith) (Stacked-lt o.open_start os h.1))

-- A span that starts at or after every open tag keeps the stack clear.
pub Clear-append :
    (ss : List Span) (s : Span) (os : List OpenTag)
    → All (λ o. o.open_start < suc s.start) os
    → All (λ o. Clear o.open_start ss) os
    → All (λ o. Clear o.open_start (ss ++ s ∷ [])) os
Clear-append ss s [] below c = tt
Clear-append ss s (o ∷ os) below c = (
  All-append (λ r. (r.end ≤ o.open_start) ⊎ (o.open_start ≤ r.start)) ss (s ∷ []) c.0
      (inr (omega arith), tt),
  Clear-append ss s os below.1 c.1,
)

pub Clear-retain_before :
    (p : ℕ) (ss : List Span) (os : List OpenTag)
    → All (λ o. Clear o.open_start ss) os
    → All (λ o. Clear o.open_start (retain_before p ss)) os
unfolding retain_before
Clear-retain_before p ss [] c = tt
Clear-retain_before p ss (o ∷ os) c = (
  All-filter (λ r. (r.end ≤ o.open_start) ⊎ (o.open_start ≤ r.start)) _ ss c.0,
  Clear-retain_before p ss os c.1,
)
