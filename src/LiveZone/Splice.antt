-- ===== src/LiveZone/Splice.antt =====
-- live_zone.rs: `apply_replacements`, which puts new text in the place of ranges of bytes.
pub mod Kept
use lm_resizer.Base.{
  ℕ, ◌-◌, ◌&&◌, Option, none, some, List, [], ◌∷◌, ◌++◌, length, take, drop, Bytes, leb,
  if◌then◌else◌, ◌>>=◌,
}
use lm_resizer.Base.Sort.{sort_by}
use lm_resizer.Base.Sort.Keys.{lower_key}

pub record Replacement : Type 0 where
  pub range : ℕ × ℕ
  pub replacement : Bytes

-- `s[from..to]`; `none` where it panics.
unfoldable pub slice : Bytes → ℕ → ℕ → Option Bytes
slice s from to =
    if leb from to && leb to (length s) then some (take (to - from) (drop from s)) else none

-- What the loop writes from `cursor` on.
unfoldable pub splice_from : Bytes → ℕ → List Replacement → Option Bytes
splice_from original cursor [] = slice original cursor (length original)
splice_from original cursor (r ∷ rs) = slice original cursor r.range.0 >>= λ kept.
    splice_from original r.range.1 rs >>= λ rest. some (kept ++ (r.replacement ++ rest))

abbrev pub start_of : Replacement → ℕ
start_of r = r.range.0

unfoldable pub apply_replacements : Bytes → List Replacement → Option Bytes
apply_replacements original replacements =
    splice_from original 0 (sort_by (lower_key start_of) replacements)
