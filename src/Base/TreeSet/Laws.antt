-- ===== src/Base/TreeSet/Laws.antt =====
-- A set stays in strict order, and holds what was added.
use Prim.Native.Nat.{ℕ, ◌<◌}
use mathlib.Core.Path.{◌≡◌, sym, ◌∙◌}
use mathlib.Core.Logic.{◌⊎◌, inl, inr}
use mathlib.Core.Bool.{true, false}
use mathlib.Core.List.{List, [], ◌∷◌}
use native.Mathlib.Omega.{arith}
use lm_resizer.Base.Tests.{ltb, ◌==◌, ==_iff, ltb→lt, if◌then◌else◌, Bool-cases}
use lm_resizer.Base.Lists.{All, All-map}
use lm_resizer.Base.TreeSet.{add, add_all}

module _ {A : Type 0} (key : A → ℕ) where
  abbrev pub IsStrict : List A → Type 0
  IsStrict [] = Unit {0}
  IsStrict (x ∷ xs) = All (λ y. key x < key y) xs × IsStrict xs

  pub All-add : (P : A → Type 0) (x : A) (set : List A) → P x → All P set → All P (add key x set)
  unfolding add
  All-add P x [] hx h = (hx, tt)
  All-add P x (y ∷ set) hx (hy, h) = elim (Bool-cases (key x == key y)) [
    | inl same ↦ rw (same) (hy, h)
    | inr other ↦ rw (other) (elim (Bool-cases (ltb (key x) (key y))) [
      | inl before ↦ rw (before) (hx, (hy, h))
      | inr after ↦ rw (after) (hy, All-add P x set hx h)
    ])
  ]

  pub add-IsStrict : (x : A) (set : List A) → IsStrict set → IsStrict (add key x set)
  unfolding add
  add-IsStrict x [] h = (tt, tt)
  add-IsStrict x (y ∷ set) (above, h) = elim (Bool-cases (key x == key y)) [
    | inl same ↦ rw (same) (above, h)
    | inr other ↦ rw (other) (elim (Bool-cases (ltb (key x) (key y))) [
      | inl before ↦
          let lt = ltb→lt _ _ before in
          rw (before) ((lt, All-map set (λ z hz. omega (arith, hz, lt)) above), (above, h))
      | inr after ↦
          rw (after) (All-add (λ z. key y < key z) x set (ground arith) above, add-IsStrict x set h)
    ])
  ]

  -- Some element has the key.
  abbrev pub HasKey : ℕ → List A → Type 0
  HasKey k [] = ⊥
  HasKey k (x ∷ xs) = (key x ≡ k) ⊎ HasKey k xs

  pub HasKey-add :
      (k : ℕ) (x : A) (set : List A) → HasKey k (add key x set) → (key x ≡ k) ⊎ HasKey k set
  unfolding add
  HasKey-add k x [] h = h
  HasKey-add k x (y ∷ set) h =
      elim (key x == key y)
          as (λ b.
            HasKey k (
              if b then y ∷ set else if ltb (key x) (key y) then x ∷ y ∷ set else y ∷ add key x set)
            → (key x ≡ k) ⊎ HasKey k (y ∷ set)) [
              | true ↦ λ g. inr g
              | false ↦
                  elim (ltb (key x) (key y))
                    as (λ b.
                      HasKey k (if b then x ∷ y ∷ set else y ∷ add key x set)
                      → (key x ≡ k) ⊎ HasKey k (y ∷ set)) [
                        | true ↦ λ g. g
                        | false ↦ λ g. elim g [
                          | inl here ↦ inr (inl here)
                          | inr later ↦ elim (HasKey-add k x set later) [
                            | inl e ↦ inl e
                            | inr old ↦ inr (inr old)
                          ]
                        ]
                      ]
            ]
        h

  pub add-HasKey :
      (k : ℕ) (x : A) (set : List A) → (key x ≡ k) ⊎ HasKey k set → HasKey k (add key x set)
  unfolding add
  add-HasKey k x [] h = h
  add-HasKey k x (y ∷ set) h = elim (Bool-cases (key x == key y)) [
    | inl same ↦
        rw (same)
          (elim h [ inl e ↦ inl (sym ((==_iff (key x) (key y)).0 same) ∙ e) | inr old ↦ old ])
    | inr other ↦ rw (other) (elim (Bool-cases (ltb (key x) (key y))) [
      | inl before ↦ rw (before) h
      | inr after ↦ rw (after) (elim h [
        | inl e ↦ inr (add-HasKey k x set (inl e))
        | inr (inl here) ↦ inl here
        | inr (inr old) ↦ inr (add-HasKey k x set (inr old))
      ])
    ])
  ]

  pub All-add_all :
      (P : A → Type 0) (xs set : List A) → All P xs → All P set → All P (add_all key xs set)
  unfolding add_all
  All-add_all P [] set hx h = h
  All-add_all P (x ∷ xs) set (hx, hxs) h =
      All-add_all P xs (add key x set) hxs (All-add P x set hx h)

  pub add_all-IsStrict : (xs set : List A) → IsStrict set → IsStrict (add_all key xs set)
  unfolding add_all
  add_all-IsStrict [] set h = h
  add_all-IsStrict (x ∷ xs) set h = add_all-IsStrict xs (add key x set) (add-IsStrict x set h)

  pub HasKey-add_all :
      (k : ℕ) (xs set : List A) → HasKey k (add_all key xs set) → HasKey k xs ⊎ HasKey k set
  unfolding add_all
  HasKey-add_all k [] set h = inr h
  HasKey-add_all k (x ∷ xs) set h = elim (HasKey-add_all k xs (add key x set) h) [
    | inl later ↦ inl (inr later)
    | inr at ↦ elim (HasKey-add k x set at) [ inl here ↦ inl (inl here) | inr old ↦ inr old ]
  ]

  pub add_all-HasKey :
      (k : ℕ) (xs set : List A) → HasKey k xs ⊎ HasKey k set → HasKey k (add_all key xs set)
  unfolding add_all
  add_all-HasKey k [] set (inl h) = absurd h
  add_all-HasKey k [] set (inr h) = h
  add_all-HasKey k (x ∷ xs) set (inl (inl e)) =
      add_all-HasKey k xs (add key x set) (inr (add-HasKey k x set (inl e)))
  add_all-HasKey k (x ∷ xs) set (inl (inr h)) = add_all-HasKey k xs (add key x set) (inl h)
  add_all-HasKey k (x ∷ xs) set (inr h) =
      add_all-HasKey k xs (add key x set) (inr (add-HasKey k x set (inr h)))
