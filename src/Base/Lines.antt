-- ===== src/Base/Lines.antt =====
-- Rust's `split('\n')` and `join` on lists of bytes.
use mathlib.Core.List.{List, [], ◌∷◌, ◌++◌}
use lm_resizer.Base.Tests.{◌==◌, if◌then◌else◌}
use lm_resizer.Base.Text.{Bytes}

-- `content.split('\n').collect()`.
unfoldable pub split_lines : Bytes → List Bytes
split_lines [] = [] ∷ []
split_lines (c ∷ s) =
    let rest = split_lines s in
    if c == 10
    then [] ∷ rest
    else elim rest [ [] ↦ (c ∷ []) ∷ [] | line ∷ lines ↦ (c ∷ line) ∷ lines ]

-- `lines.join(separator)`.
unfoldable pub join : Bytes → List Bytes → Bytes
join separator [] = []
join separator (line ∷ []) = line
join separator (line ∷ next ∷ lines) = line ++ (separator ++ join separator (next ∷ lines))
