-- ===== src/Tags/Protect/Restore.antt =====
-- `restore_tags` on a text with placeholders, piece by piece.
use lm_resizer.Base.{
  ℕ, ◌+◌, ◌<◌, ◌≡◌, ◌≢◌, inl, inr, refl, sym, ap, ◌∙◌, true, false, [], ◌∷◌, ◌++◌, arith, Bytes,
  contains, starts_with, All, All-map, All-append, Bool-cases,
}
use mathlib.Core.List.{append_assoc, append-nil}
use lm_resizer.Base.Decimal.{decimal, IsDigit, digits-decimal, decimal-injective}
use lm_resizer.Base.Search.{
  replace, Quiet, replace-Quiet, replace-all-Quiet, Quiet-append, Quiet-longer, replace_hit,
  starts_with_self, contains-starts_with, contains-append_right, absent_left, absent_right,
  Quiet-absent, Quiet-absent_end, Quiet-tail, Quiet-other,
}
use lm_resizer.Tags.Protect.{placeholder_suffix, placeholder, restore_tags}
use lm_resizer.Tags.Protect.Pieces.{Pieces, joined, cleaned_of, blocks_of}
use lm_resizer.Tags.Protect.Prefix.{IsPrefix}

-- Digits up to a brace are read back in one way.
digits_agree :
    (u v x y : Bytes)
    → All IsDigit u
    → All IsDigit v
    → starts_with (u ++ 125 ∷ x) (v ++ 125 ∷ y) ≡ true
    → u ≡ v
digits_agree [] [] x y du dv h = refl
digits_agree [] (d ∷ v) x y du dv h = absurd (ground arith)
digits_agree (c ∷ u) [] x y du dv h = absurd (ground arith)
digits_agree (c ∷ u) (d ∷ v) x y du dv h = ground (arith, digits_agree u v x y du.1 dv.1)

starts_with-cancel : (p u v : Bytes) → starts_with (p ++ u) (p ++ v) ≡ starts_with u v
starts_with-cancel [] u v = refl
starts_with-cancel (c ∷ p) u v = ground (arith, starts_with-cancel p u v)

-- The placeholder of one counter does not start where that of another does.
placeholder-differs :
    (prefix : Bytes) (k j : ℕ) (w : Bytes)
    → k ≢ j
    → starts_with (placeholder prefix k) (placeholder prefix j ++ w) ≡ false
unfolding placeholder
placeholder-differs prefix k j w ne =
    elim (Bool-cases (starts_with (placeholder prefix k) (placeholder prefix j ++ w))) [
      | inr no_hit ↦ no_hit
      | inl hit ↦
          let apart : starts_with (prefix ++ (decimal k ++ placeholder_suffix))
                (prefix ++ (decimal j ++ (placeholder_suffix ++ w)))
              ≡ true =
            rw
              (
                ← append_assoc (decimal j) placeholder_suffix w,
                ← append_assoc prefix (decimal j ++ placeholder_suffix) w,
              )
              hit in
          absurd (
            ne (
              decimal-injective k j (
                digits_agree (decimal k) (decimal j) _ (125 ∷ w) (digits-decimal k)
                  (digits-decimal j)
                  (sym (
                      starts_with-cancel prefix (decimal k ++ placeholder_suffix)
                        (decimal j ++ (placeholder_suffix ++ w)))
                    ∙ apart))))
    ]

-- Inside and after its prefix, no placeholder starts in another.
placeholder-Quiet :
    (prefix : Bytes) (k j : ℕ) (w : Bytes)
    → IsPrefix prefix
    → k ≢ j
    → Quiet (placeholder prefix k) (placeholder prefix j) w
unfolding placeholder
placeholder-Quiet [] k j w b ne = absurd b
placeholder-Quiet (c ∷ q) k j w b ne = (
  placeholder-differs (c ∷ q) k j w ne,
  Quiet-longer (c ∷ q) (decimal k ++ placeholder_suffix) (q ++ (decimal j ++ placeholder_suffix)) w
      (Quiet-append (c ∷ q) q (decimal j ++ placeholder_suffix) w
        (Quiet-tail (c ∷ q) q _ (omega arith) b.1)
        (Quiet-other c q _ w (
          All-append (λ d. c ≢ d) (decimal j) placeholder_suffix
            (All-map (decimal j) (λ d h. omega (arith, b.0)) (digits-decimal j))
            (omega (arith, b.0))))),
)

-- A text without the prefix is quiet before a placeholder.
text-Quiet :
    (prefix : Bytes) (k j : ℕ) (u w : Bytes)
    → IsPrefix prefix
    → contains prefix u ≡ false
    → Quiet (placeholder prefix k) u (placeholder prefix j ++ w)
unfolding placeholder
text-Quiet [] k j u w b absent = absurd b
text-Quiet (c ∷ q) k j u w b absent = Quiet-longer (c ∷ q) _ u _ (
    rw (append_assoc (c ∷ q) (decimal j ++ placeholder_suffix) w)
      (Quiet-absent (c ∷ q) u _ b.1 absent))

text-Quiet_end :
    (prefix : Bytes) (k : ℕ) (u : Bytes)
    → contains prefix u ≡ false
    → Quiet (placeholder prefix k) u []
unfolding placeholder
text-Quiet_end prefix k u absent = Quiet-longer prefix _ u [] (Quiet-absent_end prefix u absent)

cleaned-Quiet :
    (prefix : Bytes) (k j : ℕ) (ps : Pieces) (tail : Bytes)
    → IsPrefix prefix
    → k < j
    → contains prefix (joined ps tail) ≡ false
    → Quiet (placeholder prefix k) (cleaned_of prefix j ps tail) []
cleaned-Quiet prefix k j [] tail b lt absent = text-Quiet_end prefix k tail absent
cleaned-Quiet prefix k j ((lit, original) ∷ ps) tail b lt absent =
    let rest = cleaned_of prefix (j + 1) ps tail in
    let after = absent_right prefix lit (original ++ joined ps tail) absent in
    Quiet-append (placeholder prefix k) lit (placeholder prefix j ++ rest) []
      (rw append-nil (text-Quiet prefix k j lit rest b (absent_left prefix lit _ absent)))
      (Quiet-append (placeholder prefix k) (placeholder prefix j) rest []
        (placeholder-Quiet prefix k j (rest ++ []) b (omega arith))
        (cleaned-Quiet prefix k (j + 1) ps tail b (omega arith)
          (absent_right prefix original (joined ps tail) after)))

replace-placeholder :
    (prefix : Bytes) (k : ℕ) (original w : Bytes)
    → IsPrefix prefix
    → replace (placeholder prefix k) original (placeholder prefix k ++ w)
      ≡ original ++ replace (placeholder prefix k) original w
unfolding placeholder
replace-placeholder [] k original w b = absurd b
replace-placeholder (c ∷ q) k original w b = replace_hit c _ original w

replace_piece :
    (prefix : Bytes) (k : ℕ) (u original : Bytes) (ps : Pieces) (tail : Bytes)
    → IsPrefix prefix
    → contains prefix u ≡ false
    → contains prefix (joined ps tail) ≡ false
    → replace
        (placeholder prefix k)
        original
        (u ++ (placeholder prefix k ++ cleaned_of prefix (k + 1) ps tail))
      ≡ u ++ (original ++ cleaned_of prefix (k + 1) ps tail)
replace_piece prefix k u original ps tail b before after =
    let rest = cleaned_of prefix (k + 1) ps tail in
    replace-Quiet (placeholder prefix k) original u (placeholder prefix k ++ rest)
      (text-Quiet prefix k k u rest b before)
    ∙ ap (λ z. u ++ z)
        (replace-placeholder prefix k original rest b
          ∙ ap (λ z. original ++ z)
              (replace-all-Quiet (placeholder prefix k) original rest
                (cleaned-Quiet prefix k (k + 1) ps tail b (omega arith) after)))

pub restore-pieces :
    (prefix : Bytes) (k : ℕ) (u : Bytes) (ps : Pieces) (tail : Bytes)
    → IsPrefix prefix
    → contains prefix (u ++ joined ps tail) ≡ false
    → restore_tags (u ++ cleaned_of prefix k ps tail) (blocks_of prefix k ps) ≡ u ++ joined ps tail
unfolding restore_tags
restore-pieces prefix k u [] tail b absent = refl
restore-pieces prefix k u ((lit, original) ∷ ps) tail b absent =
    let rest = cleaned_of prefix (k + 1) ps tail in
    let ph = placeholder prefix k in
    let u' = u ++ lit in
    let absent' : contains prefix (u' ++ (original ++ joined ps tail)) ≡ false =
      rw append_assoc absent in
    let here : contains ph (u ++ (lit ++ (ph ++ rest))) ≡ true =
      contains-append_right ph u _
        (contains-append_right ph lit _ (contains-starts_with ph _ (starts_with_self ph rest))) in
    let swap =
      replace_piece prefix k u' original ps tail b (absent_left prefix u' _ absent')
        (absent_right prefix original _ (absent_right prefix u' _ absent')) in
    let on : contains prefix ((u' ++ original) ++ joined ps tail) ≡ false =
      rw append_assoc absent' in
    rw (here, restore_tags)
      (ap (λ z. restore_tags z (blocks_of prefix (k + 1) ps))
          (ap (replace ph original) (sym (append_assoc u lit (ph ++ rest)))
            ∙ (swap ∙ sym (append_assoc u' original rest)))
        ∙ (restore-pieces prefix (k + 1) (u' ++ original) ps tail b on
            ∙ (append_assoc u' original (joined ps tail)
                ∙ append_assoc u lit (original ++ joined ps tail))))
