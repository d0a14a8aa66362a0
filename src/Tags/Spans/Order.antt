-- ===== src/Tags/Spans/Order.antt =====
-- `identify_spans` ends, with spans in order, apart from one another, and within the text.
use lm_resizer.Base.{
  ℕ, zero, suc, ◌+◌, ◌≤◌, ◌<◌, ◌≡◌, inl, inr, refl, Bool, true, false, Option, none, some, List, [],
  ◌∷◌, arith, length, drop, Bytes, ltb, ◌==◌, Bool-cases, length-drop, to_ascii_lowercase,
}
use lm_resizer.Tags.Html.{is_known_html_tag}
use lm_resizer.Tags.Parse.{TagParse, open_tag, close_tag, not_tag, InText, parse_tag_at-InText}
use lm_resizer.Tags.Spans.{
  ProtectStats, OpenTag, self_closing, block, open_marker, close_marker, Walk, find_lt, open_custom,
  open_step, close_match, close_step, tag_step, step, walk, initial, identify_spans,
}
use lm_resizer.Tags.Spans.Apart.{Apart, Apart-upper, IsOrdered}
use lm_resizer.Tags.Spans.Moves.{
  IsFound, pop_to-IsFound, move-IsOrdered, push_span-IsOrdered, push_open-IsOrdered,
  push_marker-IsOrdered, close_block-IsOrdered, close_marker-IsOrdered, pop_top-IsOrdered,
}

-- A round goes on, and keeps the order.
abbrev GoesOn : ℕ → Walk → Walk → Type 0
GoesOn n w w' = (w.i < w'.i) × IsOrdered n w'

open_custom-GoesOn :
    (c : Bool) (n : ℕ) (w : Walk) (name : Bytes) (tag_end : ℕ) (sc : Bool)
    → w.i < tag_end
    → tag_end ≤ n
    → IsOrdered n w
    → GoesOn n w (open_custom c w name tag_end sc)
unfolding open_custom
open_custom-GoesOn c n w name e true lt fit h =
    (lt, push_span-IsOrdered n e w _ self_closing lt fit h)
open_custom-GoesOn true n w name e false lt fit h =
    (lt, push_marker-IsOrdered n e w _ _ open_marker lt fit h)
open_custom-GoesOn false n w name e false lt fit h = (lt, push_open-IsOrdered n e w _ _ lt fit h)

open_step-GoesOn :
    (c : Bool) (n : ℕ) (w : Walk) (name : Bytes) (tag_end : ℕ) (sc : Bool)
    → w.i < tag_end
    → tag_end ≤ n
    → IsOrdered n w
    → GoesOn n w (open_step c w name tag_end sc)
unfolding open_step
open_step-GoesOn c n w name e sc lt fit h = elim (Bool-cases (is_known_html_tag name)) [
  | inl known ↦ rw known (lt, move-IsOrdered n e w _ (omega arith) fit h)
  | inr custom ↦ rw custom (open_custom-GoesOn c n w name e sc lt fit h)
]

close_match-GoesOn :
    (c : Bool) (n : ℕ) (w : Walk) (tag_end : ℕ) (found : Option (OpenTag × List OpenTag))
    → w.i < tag_end
    → tag_end ≤ n
    → IsOrdered n w
    → ((o : OpenTag) (below : List OpenTag) → found ≡ some (o, below) → IsFound w.spans w.i o below)
    → GoesOn n w (close_match c w tag_end found)
unfolding close_match
close_match-GoesOn c n w e none lt fit h f = (lt, move-IsOrdered n e w _ (omega arith) fit h)
close_match-GoesOn true n w e (some (o, below)) lt fit h f = (
  lt,
  pop_top-IsOrdered n _ (
      close_marker-IsOrdered n e w (record w.stats { tags_seen = w.stats.tags_seen + 1 }) o below
        close_marker lt fit h (f o below refl)),
)
close_match-GoesOn false n w e (some (o, below)) lt fit h f =
    (lt, close_block-IsOrdered n e w _ o below block lt fit h (f o below refl))

close_step-GoesOn :
    (c : Bool) (n : ℕ) (w : Walk) (name : Bytes) (tag_end : ℕ)
    → w.i < tag_end
    → tag_end ≤ n
    → IsOrdered n w
    → GoesOn n w (close_step c w name tag_end)
unfolding close_step
close_step-GoesOn c n w name e lt fit h = elim (Bool-cases (is_known_html_tag name)) [
  | inl known ↦ rw known (lt, move-IsOrdered n e w _ (omega arith) fit h)
  | inr custom ↦ rw custom (
      close_match-GoesOn c n w e _ lt fit h (λ o below found.
        pop_to-IsFound (to_ascii_lowercase name) w.spans w.i w.stack h.stacked h.clear found))
]

tag_step-GoesOn :
    (c : Bool) (text : Bytes) (n : ℕ) (w : Walk) (tag : TagParse)
    → w.i < n
    → InText w.i n tag
    → IsOrdered n w
    → GoesOn n w (tag_step c text w tag)
unfolding tag_step
tag_step-GoesOn c text n w not_tag lt t h =
    (omega arith, move-IsOrdered n (w.i + 1) w w.stats (omega arith) (omega arith) h)
tag_step-GoesOn c text n w (open_tag ne te sc) lt t h =
    open_step-GoesOn c n w _ te sc (omega arith) t.2 h
tag_step-GoesOn c text n w (close_tag ne te) lt t h =
    close_step-GoesOn c n w _ te (omega arith) t.2 h

find_lt-le : (bytes : Bytes) → find_lt bytes ≤ length bytes
unfolding find_lt
find_lt-le [] = omega arith
find_lt-le (b ∷ rest) = ground (arith, find_lt-le rest)

find_lt-pos : (b : ℕ) (rest : Bytes) → (b == b'<') ≡ false → 0 < find_lt (b ∷ rest)
unfolding find_lt
find_lt-pos b rest h = ground arith

step-GoesOn :
    (c : Bool) (text : Bytes) (n : ℕ) (w : Walk) (bytes : Bytes)
    → 0 < length bytes
    → w.i + length bytes ≡ n
    → IsOrdered n w
    → GoesOn n w (step c text w bytes)
unfolding step
step-GoesOn c text n w [] some_byte e h = absurd (omega arith)
step-GoesOn c text n w (b ∷ rest) some_byte e h = elim (Bool-cases (b == b'<')) [
  | inl lt ↦
      rw lt (
        tag_step-GoesOn c text n w _ (omega arith) (parse_tag_at-InText w.i n rest (omega arith)) h)
  | inr other ↦
      let pos = find_lt-pos b rest other in
      let le = find_lt-le (b ∷ rest) in
      rw other (
        omega arith,
        move-IsOrdered n (w.i + find_lt (b ∷ rest)) w w.stats (omega arith) (omega arith) h,
      )
]

walk-IsOrdered :
    (c : Bool) (text : Bytes) (fuel : ℕ) (w : Walk)
    → length text < w.i + fuel
    → IsOrdered (length text) w
    → (w' : Walk) × (walk c text fuel w ≡ some w') × IsOrdered (length text) w'
unfolding walk
walk-IsOrdered c text zero w enough h = absurd (omega (arith, h.inside))
walk-IsOrdered c text (suc fuel) w enough h = elim (Bool-cases (ltb w.i (length text))) [
  | inr done ↦ (w, rw (done, walk), h)
  | inl more ↦
      let left = length-drop w.i text in
      let (on, h') =
        step-GoesOn c text (length text) w (drop w.i text) (ground arith) (ground arith) h in
      rw (more, walk) (walk-IsOrdered c text fuel (step c text w (drop w.i text)) (omega arith) h')
]

-- The walk over a text ends with the fuel that it is given, in both modes, and its spans stand in
-- order, none empty and none over another, from the text's start to its end.
pub identify_spans-Apart :
    (text : Bytes) (compress_tagged_content : Bool) (stats : ProtectStats)
    → (w : Walk) × (identify_spans text compress_tagged_content stats ≡ some w)
      × Apart 0 w.spans (length text)
unfolding identify_spans
identify_spans-Apart text c stats =
    let (w, ends, h) =
      walk-IsOrdered c text (length text + 1) (initial stats) (omega arith)
        (record { inside = omega arith; apart = omega arith; stacked = tt; clear = tt }) in
    (w, ends, Apart-upper 0 w.i (length text) w.spans h.inside h.apart)
