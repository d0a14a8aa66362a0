-- ===== src/Tags/Spans.antt =====
-- `identify_spans`: the byte ranges of a text that placeholders stand in for. The stack of open
-- tags has its top first; the walk takes fuel, and `Order` proves that the text's length is enough.
pub mod Apart
pub mod Moves
pub mod Order
pub mod Markers
use lm_resizer.Base.{
  ℕ, zero, suc, ◌+◌, ◌-◌, Bool, true, false, Option, none, some, List, [], ◌∷◌, ◌++◌, length, take,
  drop, filter, Bytes, ltb, ◌==◌, if◌then◌else◌, to_ascii_lowercase, bytes_eq,
}
use lm_resizer.Tags.Html.{is_known_html_tag}
use lm_resizer.Tags.Parse.{TagParse, open_tag, close_tag, not_tag, parse_tag_at}

pub record ProtectStats : Type 0 where
  pub tags_seen : ℕ
  pub html_tags_skipped : ℕ
  pub custom_blocks_protected : ℕ
  pub self_closing_protected : ℕ
  pub orphan_closes : ℕ
  pub placeholder_collision_avoided : Bool

pub record OpenTag : Type 0 where
  pub name_lower : Bytes
  pub open_start : ℕ

pub data SpanKind : Type 0 where
  block self_closing open_marker close_marker : SpanKind

pub record Span : Type 0 where
  pub start : ℕ
  pub end : ℕ
  pub kind : SpanKind

-- The variables of the loop.
pub record Walk : Type 0 where
  pub i : ℕ
  pub spans : List Span
  pub stack : List OpenTag
  pub stats : ProtectStats

-- `&text[a..b]`.
abbrev pub slice : Bytes → ℕ → ℕ → Bytes
slice text a b = take (b - a) (drop a text)

-- `memchr(b'<', bytes)`, with the bytes' length where there is none.
unfoldable pub find_lt : Bytes → ℕ
find_lt [] = 0
find_lt (b ∷ rest) = let further = find_lt rest in if b == b'<' then 0 else suc further

-- The last open tag of a name (`rposition`), and the stack below it (`truncate`).
unfoldable pub pop_to : Bytes → List OpenTag → Option (OpenTag × List OpenTag)
pop_to name [] = none
pop_to name (top ∷ stack) =
    let below = pop_to name stack in
    if bytes_eq top.name_lower name then some (top, stack) else below

-- `spans.retain(|s| s.start < open_start)`.
unfoldable pub retain_before : ℕ → List Span → List Span
retain_before o = filter (λ s. ltb s.start o)

abbrev saw_tag : ProtectStats → ProtectStats
saw_tag st = record st { tags_seen = st.tags_seen + 1 }

abbrev skip_html : Walk → ℕ → Walk
skip_html w tag_end =
    let st = saw_tag w.stats in
    record w { i = tag_end; stats = record st { html_tags_skipped = st.html_tags_skipped + 1 } }

-- A custom opening tag: one that closes itself, or one that goes on the stack.
unfoldable pub open_custom : Bool → Walk → Bytes → ℕ → Bool → Walk
open_custom compress_tagged_content w name tag_end true =
    let st = saw_tag w.stats in
    record w {
      i = tag_end;
      spans = w.spans ++ record { start = w.i; end = tag_end; kind = self_closing } ∷ [];
      stats = record st { self_closing_protected = st.self_closing_protected + 1 };
    }
open_custom compress_tagged_content w name tag_end false = record {
  i = tag_end;
  spans =
      if compress_tagged_content
      then w.spans ++ record { start = w.i; end = tag_end; kind = open_marker } ∷ []
      else w.spans;
  stack = record { name_lower = to_ascii_lowercase name; open_start = w.i } ∷ w.stack;
  stats = saw_tag w.stats;
}

-- The `TagParse::Open` branch, for a tag of the given name.
unfoldable pub open_step : Bool → Walk → Bytes → ℕ → Bool → Walk
open_step compress_tagged_content w name tag_end is_self_closing =
    if is_known_html_tag name
    then skip_html w tag_end
    else open_custom compress_tagged_content w name tag_end is_self_closing

-- `stack.pop()`.
abbrev pub pop_top : List OpenTag → List OpenTag
pop_top [] = []
pop_top (top ∷ stack) = stack

-- The `match matching` of the `TagParse::Close` branch. In the marker mode the code truncates the
-- stack below the matched tag, and then pops once more.
unfoldable pub close_match : Bool → Walk → ℕ → Option (OpenTag × List OpenTag) → Walk
close_match compress_tagged_content w tag_end none =
    let st = saw_tag w.stats in
    record w { i = tag_end; stats = record st { orphan_closes = st.orphan_closes + 1 } }
close_match true w tag_end (some (opening, below)) = record {
  i = tag_end;
  spans = w.spans ++ record { start = w.i; end = tag_end; kind = close_marker } ∷ [];
  stack = pop_top below;
  stats = saw_tag w.stats;
}
close_match false w tag_end (some (opening, below)) =
    let st = saw_tag w.stats in
    record {
      i = tag_end;
      spans =
          retain_before opening.open_start w.spans
          ++ record { start = opening.open_start; end = tag_end; kind = block } ∷ [];
      stack = below;
      stats = record st { custom_blocks_protected = st.custom_blocks_protected + 1 };
    }

-- The `TagParse::Close` branch, for a tag of the given name.
unfoldable pub close_step : Bool → Walk → Bytes → ℕ → Walk
close_step compress_tagged_content w name tag_end =
    if is_known_html_tag name
    then skip_html w tag_end
    else close_match compress_tagged_content w tag_end (pop_to (to_ascii_lowercase name) w.stack)

unfoldable pub tag_step : Bool → Bytes → Walk → TagParse → Walk
tag_step compress_tagged_content text w not_tag = record w { i = w.i + 1 }
tag_step compress_tagged_content text w (open_tag name_end tag_end is_self_closing) =
    open_step compress_tagged_content w (slice text (w.i + 1) name_end) tag_end is_self_closing
tag_step compress_tagged_content text w (close_tag name_end tag_end) =
    close_step compress_tagged_content w (slice text (w.i + 2) name_end) tag_end

-- One round of the loop at `bytes[i..]`.
unfoldable pub step : Bool → Bytes → Walk → Bytes → Walk
step compress_tagged_content text w [] = w
step compress_tagged_content text w (b ∷ rest) =
    if b == b'<'
    then tag_step compress_tagged_content text w (parse_tag_at w.i rest)
    else record w { i = w.i + find_lt (b ∷ rest) }

-- `while i < n`; `none` means that the fuel ran out.
unfoldable pub walk : Bool → Bytes → ℕ → Walk → Option Walk
walk compress_tagged_content text zero w = none
walk compress_tagged_content text (suc fuel) w = elim (ltb w.i (length text)) [
  | false ↦ some w
  | true ↦
      walk compress_tagged_content text fuel (step compress_tagged_content text w (drop w.i text))
]

abbrev pub initial : ProtectStats → Walk
initial stats = record { i = 0; spans = []; stack = []; stats = stats }

unfoldable pub identify_spans : Bytes → Bool → ProtectStats → Option Walk
identify_spans text compress_tagged_content stats =
    walk compress_tagged_content text (length text + 1) (initial stats)
