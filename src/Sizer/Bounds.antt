-- ===== src/Sizer/Bounds.antt =====
-- adaptive_sizer.rs: the range of the number of items, and of the knee.
use lm_resizer.Base.{
  ℕ, suc, ◌+◌, ◌≤◌, ◌<◌, ◌≡◌, ◌⊎◌, Bool, true, false, Option, none, some, List, [], ◌∷◌, length,
  take, ◌-◌, Bytes, if◌then◌else◌, unwrap_or, arith,
}
use lm_resizer.Sizer.{
  Floats, Texts, last_or, knee_from, find_knee, optimal_k_by_knee, compute_optimal_k,
}

module _ {F : Type 0} (f : Floats F) where
  -- An index, where there is one, lies below `n`.
  abbrev Within : ℕ → Option ℕ → Type 0
  Within n none = Unit {0}
  Within n (some i) = i < n

  Within-if :
      (b : Bool) (n i : ℕ) (o : Option ℕ) → i < n → Within n o → Within n (if b then some i else o)
  Within-if true n i o h g = h
  Within-if false n i o h g = g

  knee_from-Within :
      (x y z : F) (n i : ℕ) (ys : List ℕ) (d : F) (o : Option ℕ)
      → i + length ys ≡ n
      → Within n o
      → Within n (knee_from f x y z i ys d o).1
  unfolding knee_from
  knee_from-Within x y z n i [] d o e h = h
  knee_from-Within x y z n i (v ∷ ys) d o e h =
      knee_from-Within x y z n (suc i) ys _ _ (omega arith) (Within-if _ n i o (omega arith) h)

  found-le :
      (n : ℕ) (o : Option ℕ) (k : ℕ)
      → Within n o
      → elim o [ none ↦ none | some i ↦ some (i + 1) ] ≡ some k
      → (1 ≤ k) × (k ≤ n)
  found-le n none k w h = cc
  found-le n (some i) k w h = ground arith

  -- The knee is the number of some of the entries: one at least, and at most all.
  pub find_knee_bounds :
      (curve : List ℕ) (k : ℕ) → find_knee f curve ≡ some k → (1 ≤ k) × (k ≤ length curve)
  unfolding find_knee
  find_knee_bounds curve k h =
      let x = f.of_nat (length curve - 1) in
      let y = f.of_nat (last_or f 0 (take 1 curve)) in
      let z = f.sub (f.of_nat (last_or f 0 curve)) y in
      ground (
        arith,
        found-le (length curve) (knee_from f x y z 0 curve f.minus_one none).1 k
            (knee_from-Within x y z (length curve) 0 curve f.minus_one none (omega arith) tt),
      )

  pub compute_optimal_k_bounds :
      (t : Texts) (items : List Bytes) (bias : F) (min_k : ℕ) (max_k : Option ℕ)
      → min_k ≤ unwrap_or max_k (length items)
      → ((length items ≤ 8) × (compute_optimal_k f t items bias min_k max_k ≡ length items))
        ⊎ ((8 < length items)
            × (min_k ≤ compute_optimal_k f t items bias min_k max_k)
            × (compute_optimal_k f t items bias min_k max_k ≤ unwrap_or max_k (length items)))
  unfolding compute_optimal_k optimal_k_by_knee
  compute_optimal_k_bounds t items bias min_k max_k h = ground arith
