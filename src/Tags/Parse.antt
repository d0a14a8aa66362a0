-- ===== src/Tags/Parse.antt =====
-- `parse_tag_at`: one tag, from the byte after its `<`. A position `i` goes with `bytes[i..]`.
use lm_resizer.Base.{
  ℕ, ◌+◌, ◌≤◌, ◌<◌, ◌≡◌, ◌∙◌, Bool, true, false, ◌||◌, Option, none, some, [], ◌∷◌, arith, length,
  Bytes, ◌==◌, if◌then◌else◌, is_ascii_alphabetic, is_ascii_alphanumeric, is_ascii_whitespace,
  Bool-cases, inl, inr,
}

pub data TagParse : Type 0 where
  open_tag : ℕ → ℕ → Bool → TagParse
  close_tag : ℕ → ℕ → TagParse
  not_tag : TagParse

unfoldable pub is_name_start : ℕ → Bool
is_name_start b = is_ascii_alphabetic b || b == b'_'

unfoldable pub is_name_cont : ℕ → Bool
is_name_cont b = is_ascii_alphanumeric b || b == b'_' || b == b'-' || b == b'.' || b == b':'

-- `while i < n && test(bytes[i]) { i += 1 }`: the position, and the bytes from there.
unfoldable pub skip_while : (ℕ → Bool) → ℕ → Bytes → ℕ × Bytes
skip_while test i [] = (i, [])
skip_while test i (b ∷ rest) =
    let further = skip_while test (i + 1) rest in if test b then further else (i, b ∷ rest)

abbrev is_quote : ℕ → Bool
is_quote b = b == 34 || b == 39

-- The attribute lexer. `quote` is the quote that the inner loop looks for, while it runs.
unfoldable pub attributes : ℕ → ℕ → Bool → Option ℕ → Bytes → TagParse
attributes name_end i self_closing quote [] = not_tag
attributes name_end i self_closing (some q) (b ∷ rest) =
    attributes name_end (i + 1) (if b == q then false else self_closing)
      (if b == q then none else some q) rest
attributes name_end i self_closing none (b ∷ rest) =
    let further =
      attributes name_end (i + 1)
        (if b == b'/' then true else if is_ascii_whitespace b then false else self_closing)
        (if is_quote b then some b else none) rest in
    if b == b'>' then open_tag name_end (i + 1) self_closing else further

-- The close of `</name`, after optional whitespace.
unfoldable pub close_end : ℕ → ℕ × Bytes → TagParse
close_end name_end (i, []) = not_tag
close_end name_end (i, b ∷ rest) = if b == b'>' then close_tag name_end (i + 1) else not_tag

-- What follows a name: the rest of a closing tag, or the attributes of an opening one.
unfoldable pub after_name : Bool → ℕ × Bytes → TagParse
after_name true (name_end, after) =
    close_end name_end (skip_while is_ascii_whitespace name_end after)
after_name false (name_end, after) = attributes name_end name_end false none after

-- From the first byte of a name on.
unfoldable pub parse_name : Bool → ℕ → Bytes → TagParse
parse_name is_close i [] = not_tag
parse_name is_close i (b ∷ rest) =
    if is_name_start b then after_name is_close (skip_while is_name_cont (i + 1) rest) else not_tag

-- `rest` is `bytes[start + 1..]`, and `bytes[start]` is `<`.
unfoldable pub parse_tag_at : ℕ → Bytes → TagParse
parse_tag_at start [] = not_tag
parse_tag_at start (b ∷ rest) =
    if b == b'/' then parse_name true (start + 2) rest else parse_name false (start + 1) (b ∷ rest)

-- A tag ends in the text, after its name, which has a byte at least.
abbrev pub InText : ℕ → ℕ → TagParse → Type 0
InText lo hi not_tag = Unit
InText lo hi (open_tag name_end tag_end _) =
    (lo + 1 < name_end) × (name_end < tag_end) × (tag_end ≤ hi)
InText lo hi (close_tag name_end tag_end) =
    (lo + 2 < name_end) × (name_end < tag_end) × (tag_end ≤ hi)

skip_while-bounds :
    (test : ℕ → Bool) (i : ℕ) (bytes : Bytes)
    → (i ≤ (skip_while test i bytes).0)
      × ((skip_while test i bytes).0 + length (skip_while test i bytes).1 ≡ i + length bytes)
unfolding skip_while
skip_while-bounds test i [] = omega arith
skip_while-bounds test i (b ∷ rest) = ground (arith, skip_while-bounds test (i + 1) rest)

attributes-InText :
    (lo hi name_end i : ℕ) (sc : Bool) (q : Option ℕ) (bytes : Bytes)
    → lo + 1 < name_end
    → name_end ≤ i
    → i + length bytes ≡ hi
    → InText lo hi (attributes name_end i sc q bytes)
unfolding attributes
attributes-InText lo hi ne i sc q [] a b e = tt
attributes-InText lo hi ne i sc (some q) (c ∷ rest) a b e =
    attributes-InText lo hi ne (i + 1) _ _ rest a (omega arith) (omega arith)
attributes-InText lo hi ne i sc none (c ∷ rest) a b e = elim (Bool-cases (c == b'>')) [
  | inl end ↦ rw end (omega arith)
  | inr more ↦ rw more (attributes-InText lo hi ne (i + 1) _ _ rest a (omega arith) (omega arith))
]

close_end-InText :
    (lo hi name_end i : ℕ) (bytes : Bytes)
    → lo + 2 < name_end
    → name_end ≤ i
    → i + length bytes ≡ hi
    → InText lo hi (close_end name_end (i, bytes))
unfolding close_end
close_end-InText lo hi ne i [] a b e = tt
close_end-InText lo hi ne i (c ∷ rest) a b e = elim (Bool-cases (c == b'>')) [
  | inl end ↦ rw end (omega arith)
  | inr other ↦ rw other tt
]

after_name-InText :
    (is_close : Bool) (lo hi ne : ℕ) (bytes : Bytes)
    → lo + (if is_close then 2 else 1) < ne
    → ne + length bytes ≡ hi
    → InText lo hi (after_name is_close (ne, bytes))
unfolding after_name
after_name-InText false lo hi ne bytes a e =
    attributes-InText lo hi ne ne false none bytes a (omega arith) e
after_name-InText true lo hi ne bytes a e =
    let (later, same) = skip_while-bounds is_ascii_whitespace ne bytes in
    close_end-InText lo hi ne _ _ a later (same ∙ e)

parse_name-InText :
    (is_close : Bool) (lo hi i : ℕ) (bytes : Bytes)
    → i ≡ lo + (if is_close then 2 else 1)
    → i + length bytes ≡ hi
    → InText lo hi (parse_name is_close i bytes)
unfolding parse_name
parse_name-InText is_close lo hi i [] a e = tt
parse_name-InText is_close lo hi i (b ∷ rest) a e = elim (Bool-cases (is_name_start b)) [
  | inl yes_name ↦
      let (later, same) = skip_while-bounds is_name_cont (i + 1) rest in
      rw yes_name (after_name-InText is_close lo hi _ _ (omega arith) (omega arith))
  | inr other ↦ rw other tt
]

-- Where a tag is found at `start`, its name has at least one byte after the `<` or the `</`, it
-- ends after its name, and within the text.
pub parse_tag_at-InText :
    (start hi : ℕ) (rest : Bytes)
    → start + 1 + length rest ≡ hi
    → InText start hi (parse_tag_at start rest)
unfolding parse_tag_at
parse_tag_at-InText start hi [] e = tt
parse_tag_at-InText start hi (b ∷ rest) e = elim (Bool-cases (b == b'/')) [
  | inl slash ↦
      rw slash (parse_name-InText true start hi (start + 2) rest (omega arith) (omega arith))
  | inr other ↦ rw other (parse_name-InText false start hi (start + 1) (b ∷ rest) (omega arith) e)
]
