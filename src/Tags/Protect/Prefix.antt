-- ===== src/Tags/Protect/Prefix.antt =====
-- The prefix that `protect_tags` picks for its placeholders.
use lm_resizer.Base.{
  ==_iff, subst, ℕ, zero, suc, ◌+◌, ◌≤◌, ◌<◌, ◌≡◌, ◌⊎◌, inl, inr, refl, Bool, true, false, ◌&&◌,
  not, [], ◌∷◌, arith, Bytes, contains, Bool-cases, ◌==◌,
}
use lm_resizer.Base.Decimal.{decimal}
use lm_resizer.Base.Search.{no_border}
use lm_resizer.Tags.Protect.{
  default_prefix, fallback_prefix, salted_prefix, pick_salted, pick_placeholder_prefix,
}

-- A prefix that starts with a brace and does not overlap itself.
abbrev pub IsPrefix : Bytes → Type 0
IsPrefix [] = ⊥
IsPrefix (c ∷ q) = (c ≡ 123) × (no_border (c ∷ q) q ≡ true)

abbrev is_prefix : Bytes → Bool
is_prefix [] = false
is_prefix (c ∷ q) = c == 123 && no_border (c ∷ q) q

is_prefix→IsPrefix : (p : Bytes) → is_prefix p ≡ true → IsPrefix p
is_prefix→IsPrefix [] h = absurd (ground arith)
is_prefix→IsPrefix (c ∷ q) h = (ground arith, ground arith)

-- The test at `salt` and at as many numbers after it as there are further rounds.
unfoldable pub in_rounds : (ℕ → Bool) → ℕ → ℕ → Bool
in_rounds test salt zero = true
in_rounds test salt (suc rounds) = test salt && in_rounds test (salt + 1) rounds

in_rounds_at :
    (test : ℕ → Bool) (salt rounds k : ℕ)
    → in_rounds test salt rounds ≡ true
    → salt ≤ k
    → k < salt + rounds
    → test k ≡ true
unfolding in_rounds
in_rounds_at test salt zero k all lo hi = absurd (omega arith)
in_rounds_at test salt (suc rounds) k all lo hi = elim (Bool-cases (salt == k)) [
  | inl here ↦ subst (λ x. test x ≡ true) ((==_iff salt k).0 here) (ground arith)
  | inr other ↦ in_rounds_at test (salt + 1) rounds k (ground arith) (ground arith) (omega arith)
]

salted_table : in_rounds (λ salt. is_prefix (salted_prefix salt)) 0 16 ≡ true
unfolding in_rounds salted_prefix decimal
salted_table = refl

pick_salted-IsPrefix :
    (rounds salt : ℕ) (text : Bytes) → rounds + salt ≡ 16 → IsPrefix (pick_salted rounds salt text)
unfolding pick_salted
pick_salted-IsPrefix zero salt text e = (refl, refl)
pick_salted-IsPrefix (suc rounds) salt text e =
    elim (Bool-cases (not (contains (salted_prefix salt) text))) [
      | inl free ↦
          rw (free, pick_salted)
            (is_prefix→IsPrefix (salted_prefix salt) (
              in_rounds_at (λ n. is_prefix (salted_prefix n)) 0 16 salt salted_table (omega arith)
                (omega arith)))
      | inr taken ↦
          rw (taken, pick_salted) (pick_salted-IsPrefix rounds (salt + 1) text (omega arith))
    ]

pub pick-IsPrefix : (text : Bytes) → IsPrefix (pick_placeholder_prefix text).0
unfolding pick_placeholder_prefix
pick-IsPrefix text = elim (Bool-cases (not (contains default_prefix text))) [
  | inl free ↦ rw (free, pick_placeholder_prefix) (refl, refl)
  | inr taken ↦ rw (taken, pick_placeholder_prefix) (pick_salted-IsPrefix 16 0 text refl)
]

pick_salted-fresh :
    (rounds salt : ℕ) (text : Bytes)
    → (contains (pick_salted rounds salt text) text ≡ false)
      ⊎ (pick_salted rounds salt text ≡ fallback_prefix)
        × (in_rounds (λ s. contains (salted_prefix s) text) salt rounds ≡ true)
unfolding pick_salted in_rounds
pick_salted-fresh zero salt text = inr (refl, refl)
pick_salted-fresh (suc rounds) salt text =
    elim (Bool-cases (not (contains (salted_prefix salt) text))) [
      | inl free ↦ rw (free, pick_salted) (inl (ground arith))
      | inr taken ↦
          rw (taken, pick_salted)
            (elim (pick_salted-fresh rounds (salt + 1) text) [
              | inl free ↦ inl free
              | inr (fallback, later) ↦ inr (fallback, ground arith)
            ])
    ]

-- The prefix that is picked does not occur in the text; or the default prefix and the salted ones
-- of all sixteen rounds occur in it, and the pick is the fallback.
pub pick-fresh :
    (text : Bytes)
    → (contains (pick_placeholder_prefix text).0 text ≡ false)
      ⊎ ((pick_placeholder_prefix text).0 ≡ fallback_prefix)
        × (contains default_prefix text ≡ true)
        × (in_rounds (λ salt. contains (salted_prefix salt) text) 0 16 ≡ true)
unfolding pick_placeholder_prefix
pick-fresh text = elim (Bool-cases (not (contains default_prefix text))) [
  | inl free ↦ rw (free, pick_placeholder_prefix) (inl (ground arith))
  | inr taken ↦
      rw (taken, pick_placeholder_prefix)
        (elim (pick_salted-fresh 16 0 text) [
          | inl free ↦ inl free
          | inr (fallback, all) ↦ inr (fallback, ground arith, all)
        ])
]
