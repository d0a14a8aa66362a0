-- ===== src/Search/Compress/Failures.antt =====
-- search_compressor.rs: a text that reports a failure outside its matches.
use lm_resizer.Base.{◌≡◌, ◌⊎◌, List, [], ◌∷◌, ◌++◌, Bytes}

-- Each of the lines is one of the parts, in the same order, less a carriage return at its end.
abbrev Chomps : List Bytes → List Bytes → Type 0
Chomps [] parts = Unit {0}
Chomps (l ∷ ls) [] = ⊥
Chomps (l ∷ ls) (p ∷ ps) = ((p ≡ l) ⊎ (p ≡ l ++ 13 ∷ [])) × Chomps ls ps
