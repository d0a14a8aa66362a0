-- ===== src/Tags/Protect/Pieces.antt =====
-- `emit_output` cuts the text into pieces: between two texts that it copies stands a span, which a
-- placeholder takes the place of.
use lm_resizer.Base.{
  ℕ, zero, suc, ◌+◌, ◌-◌, ◌≤◌, ◌≡◌, refl, sym, ◌∙◌, some, List, [], ◌∷◌, ◌++◌, arith, drop, Bytes,
  ltb, Bool-cases, inl, inr, take-append-drop,
}
use mathlib.Core.List.{append_assoc, append-nil}
use lm_resizer.Tags.Spans.{Span, slice}
use lm_resizer.Tags.Spans.Apart.{Apart}
use lm_resizer.Tags.Protect.{Blocks, placeholder, emit_from}

-- A copied text and the span after it.
abbrev pub Pieces : Type 0
Pieces = List (Bytes × Bytes)

-- The text itself.
abbrev pub joined : Pieces → Bytes → Bytes
joined [] rest = rest
joined ((lit, original) ∷ ps) rest = lit ++ (original ++ joined ps rest)

-- The text with placeholders, numbered from `counter` on.
abbrev pub cleaned_of : Bytes → ℕ → Pieces → Bytes → Bytes
cleaned_of prefix counter [] rest = rest
cleaned_of prefix counter ((lit, original) ∷ ps) rest =
    lit ++ (placeholder prefix counter ++ cleaned_of prefix (counter + 1) ps rest)

abbrev pub blocks_of : Bytes → ℕ → Pieces → Blocks
blocks_of prefix counter [] = []
blocks_of prefix counter ((lit, original) ∷ ps) =
    (placeholder prefix counter, original) ∷ blocks_of prefix (counter + 1) ps

-- The pieces of a text from `cursor` on.
abbrev pub pieces : Bytes → ℕ → List Span → Pieces
pieces text cursor [] = []
pieces text cursor (s ∷ ss) =
    (slice text cursor s.start, slice text s.start s.end) ∷ pieces text s.end ss

abbrev pub last_end : ℕ → List Span → ℕ
last_end cursor [] = cursor
last_end cursor (s ∷ ss) = last_end s.end ss

drop-nil : (k : ℕ) → drop {A = ℕ} k [] ≡ []
drop-nil zero = refl
drop-nil (suc k) = refl

drop-split : (a b : ℕ) (text : Bytes) → a ≤ b → drop b text ≡ drop (b - a) (drop a text)
drop-split zero b text le = let e : b - 0 ≡ b = omega arith in rw e
drop-split (suc a) zero text le = absurd (omega arith)
drop-split (suc a) (suc b) [] le = sym (drop-nil (suc b - suc a))
drop-split (suc a) (suc b) (c ∷ text) le =
    let e : suc b - suc a ≡ b - a = omega arith in rw e (drop-split a b text (omega arith))

slice-append-drop : (text : Bytes) (a b : ℕ) → a ≤ b → slice text a b ++ drop b text ≡ drop a text
slice-append-drop text a b le = rw (drop-split a b text le) (take-append-drop (b - a) (drop a text))

pub joined-pieces :
    (text : Bytes) (cursor hi : ℕ) (ss : List Span)
    → Apart cursor ss hi
    → joined (pieces text cursor ss) (drop (last_end cursor ss) text) ≡ drop cursor text
joined-pieces text cursor hi [] h = refl
joined-pieces text cursor hi (s ∷ ss) h =
    rw (joined-pieces text s.end hi ss h.2, slice-append-drop text s.start s.end (omega arith))
      (slice-append-drop text cursor s.start h.0)

pub emit_from-pieces :
    (text prefix : Bytes) (counter cursor hi : ℕ) (ss : List Span) (out : Bytes) (blocks : Blocks)
    → Apart cursor ss hi
    → emit_from text prefix counter cursor ss out blocks
      ≡ some (
        out ++ cleaned_of prefix counter (pieces text cursor ss) (drop (last_end cursor ss) text),
        blocks ++ blocks_of prefix counter (pieces text cursor ss),
      )
unfolding emit_from
emit_from-pieces text prefix k cursor hi [] out blocks h = rw append-nil
emit_from-pieces text prefix k cursor hi (s ∷ ss) out blocks h =
    elim (Bool-cases (ltb s.start cursor)) [
      | inl over ↦ absurd (ground arith)
      | inr fits ↦
          rw fits (emit_from-pieces text prefix (k + 1) s.end hi ss _ _ h.2 ∙ simp append_assoc)
    ]
