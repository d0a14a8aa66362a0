-- ===== src/LiveZone/Splice/Kept.antt =====
-- live_zone.rs: the bytes outside the replaced ranges are kept.
use lm_resizer.Base.{
  ℕ, zero, suc, ◌+◌, ◌-◌, ◌≤◌, ◌≡◌, refl, sym, ap, ◌∙◌, some, List, [], ◌∷◌, ◌++◌, map, length,
  take, drop, Bytes, append_assoc, take-append-drop, length-drop, arith,
}
use lm_resizer.Base.Sort.{sort_by, insert_sorted}
use lm_resizer.Base.Sort.Keys.{lower_key}
use lm_resizer.LiveZone.Splice.{Replacement, slice, splice_from, start_of, apply_replacements}

-- Ranges from `lo` to `hi`, in order and apart.
abbrev pub Chain : ℕ → ℕ → List (ℕ × ℕ) → Type 0
Chain lo hi [] = lo ≤ hi
Chain lo hi (range ∷ ranges) = (lo ≤ range.0) × (range.0 ≤ range.1) × Chain range.1 hi ranges

pub Chain-lower :
    (lo low hi : ℕ) (ranges : List (ℕ × ℕ)) → low ≤ lo → Chain lo hi ranges → Chain low hi ranges
Chain-lower lo low hi [] h chain = omega arith
Chain-lower lo low hi (range ∷ ranges) h (a, b, chain) = (omega (arith, h, a), b, chain)

pub Chain-upper :
    (lo hi high : ℕ) (ranges : List (ℕ × ℕ)) → hi ≤ high → Chain lo hi ranges → Chain lo high ranges
Chain-upper lo hi high [] h chain = omega (arith, h, chain)
Chain-upper lo hi high (range ∷ ranges) h (a, b, chain) =
    (a, b, Chain-upper range.1 hi high ranges h chain)

pub Chain-le : (lo hi : ℕ) (ranges : List (ℕ × ℕ)) → Chain lo hi ranges → lo ≤ hi
Chain-le lo hi [] h = h
Chain-le lo hi (range ∷ ranges) (a, b, chain) =
    omega (arith, a, b, Chain-le range.1 hi ranges chain)

abbrev pub range_of : Replacement → ℕ × ℕ
range_of r = r.range

module _ {A : Type 0} where
  -- The elements from `a` up to `b`.
  abbrev pub between : ℕ → ℕ → List A → List A
  between a b xs = take (b - a) (drop a xs)

  drop_nil : (n : ℕ) → drop {A = A} n [] ≡ []
  drop_nil zero = refl
  drop_nil (suc n) = refl

  drop-drop : (a b : ℕ) (xs : List A) → a ≤ b → drop (b - a) (drop a xs) ≡ drop b xs
  drop-drop zero b xs h = ap (λ n. drop n xs) (omega arith)
  drop-drop (suc a) zero xs h = absurd (omega (arith, h))
  drop-drop (suc a) (suc b) [] h = drop_nil (suc b - suc a)
  drop-drop (suc a) (suc b) (x ∷ xs) h =
      ap (λ n. drop n (drop a xs)) (omega arith) ∙ drop-drop a b xs (omega (arith, h))

  take_nil : (n : ℕ) → take {A = A} n [] ≡ []
  take_nil zero = refl
  take_nil (suc n) = refl

  take-append-take : (n m : ℕ) (xs : List A) → take n xs ++ take m (drop n xs) ≡ take (n + m) xs
  take-append-take zero m xs = ap (λ k. take k xs) (omega arith)
  take-append-take (suc n) m [] = take_nil m ∙ sym (take_nil (suc n + m))
  take-append-take (suc n) m (x ∷ xs) =
      let e : suc (n + m) ≡ suc n + m = omega arith in
      ap (λ t. x ∷ t) (take-append-take n m xs) ∙ ap (λ k. take k (x ∷ xs)) e

  pub between-append :
      (a b c : ℕ) (xs : List A) → a ≤ b → b ≤ c → between a b xs ++ between b c xs ≡ between a c xs
  between-append a b c xs h k =
      ap (λ t. between a b xs ++ take (c - b) t) (sym (drop-drop a b xs h))
      ∙ take-append-take (b - a) (c - b) (drop a xs)
      ∙ ap (λ n. take n (drop a xs)) (omega (arith, h, k))

  pub between-rest : (a b : ℕ) (xs : List A) → a ≤ b → between a b xs ++ drop b xs ≡ drop a xs
  between-rest a b xs h =
      ap (λ t. between a b xs ++ t) (sym (drop-drop a b xs h))
      ∙ take-append-drop (b - a) (drop a xs)

  take_all : (n : ℕ) (xs : List A) → length xs ≤ n → take n xs ≡ xs
  take_all zero [] h = refl
  take_all zero (x ∷ xs) h = absurd (omega (arith, h))
  take_all (suc n) [] h = refl
  take_all (suc n) (x ∷ xs) h = ap (λ t. x ∷ t) (take_all n xs (omega (arith, h)))

between_start : (b : ℕ) (s : Bytes) → between zero b s ≡ take b s
between_start b s = ap (λ n. take n s) (omega arith)

pub slice_lem : (s : Bytes) (a b : ℕ) → a ≤ b → b ≤ length s → slice s a b ≡ some (between a b s)
unfolding slice
slice_lem s a b h k = ground (arith, h, k)

slice_rest :
    (s : Bytes) (a b : ℕ)
    → a ≤ b
    → b ≤ length s
    → slice s a (length s) ≡ some (between a b s ++ drop b s)
unfolding slice
slice_rest s a b h k =
    slice_lem s a (length s) (omega (arith, h, k)) (omega arith)
    ∙ ap some (
        take_all (length s - a) (drop a s) (omega (arith, length-drop a s))
        ∙ sym (between-rest a b s h))

insert_first :
    (r q : Replacement) (rs : List Replacement)
    → start_of r ≤ start_of q
    → insert_sorted (lower_key start_of) r (q ∷ rs) ≡ r ∷ q ∷ rs
unfolding insert_sorted
insert_first r q rs h = ground (arith, h)

pub sort_by-Chain :
    (lo hi : ℕ) (rs : List Replacement)
    → Chain lo hi (map range_of rs)
    → sort_by (lower_key start_of) rs ≡ rs
unfolding sort_by insert_sorted
sort_by-Chain lo hi [] chain = refl
sort_by-Chain lo hi (r ∷ []) chain = refl
sort_by-Chain lo hi (r ∷ q ∷ rs) (a, b, chain) =
    ap (insert_sorted (lower_key start_of) r) (sort_by-Chain r.range.1 hi (q ∷ rs) chain)
    ∙ insert_first r q rs (omega (arith, b, chain.0))

pub splice_from-Chain :
    (s : Bytes) (cursor hi : ℕ) (rs : List Replacement)
    → Chain cursor hi (map range_of rs)
    → hi ≤ length s
    → (middle : Bytes) × (splice_from s cursor rs ≡ some (middle ++ drop hi s))
unfolding splice_from
splice_from-Chain s cursor hi [] chain h = (between cursor hi s, slice_rest s cursor hi chain h)
splice_from-Chain s cursor hi (r ∷ rs) (a, b, chain) h =
    let (middle, e) = splice_from-Chain s r.range.1 hi rs chain h in
    (
      between cursor r.range.0 s ++ (r.replacement ++ middle),
      rw (slice_lem s cursor r.range.0 a (omega (arith, b, h, Chain-le _ _ _ chain)), e)
          (ap some (
            ap (λ t. between cursor r.range.0 s ++ t)
              (sym (append_assoc r.replacement middle (drop hi s)))
            ∙ sym
                (append_assoc (between cursor r.range.0 s) (r.replacement ++ middle) (drop hi s)))),
    )

first_kept :
    (s : Bytes) (lo hi : ℕ) (r : Replacement) (rs : List Replacement) (middle : Bytes)
    → lo ≤ r.range.0
    → r.range.0 ≤ length s
    → splice_from s r.range.1 rs ≡ some (middle ++ drop hi s)
    → splice_from s zero (r ∷ rs)
      ≡ some (take lo s ++ ((between lo r.range.0 s ++ (r.replacement ++ middle)) ++ drop hi s))
unfolding splice_from
first_kept s lo hi r rs middle a h e =
    rw
      (
        slice_lem s zero r.range.0 (omega arith) h,
        e,
        ← between-append zero lo r.range.0 s (omega arith) a,
      )
      (ap some (simp (append_assoc, between_start)))

-- Ranges that are in order and apart are replaced without a panic, and the bytes before `lo` and from
-- `hi` on stay as they are.
pub apply_replacements-Chain :
    (s : Bytes) (lo hi : ℕ) (rs : List Replacement)
    → Chain lo hi (map range_of rs)
    → hi ≤ length s
    → (middle : Bytes) × (apply_replacements s rs ≡ some (take lo s ++ (middle ++ drop hi s)))
unfolding apply_replacements splice_from sort_by
apply_replacements-Chain s lo hi [] chain h = (
  between lo hi s,
  slice_rest s zero hi (omega arith) h
      ∙ ap some (
          ap (λ t. t ++ drop hi s) (sym (between-append zero lo hi s (omega arith) chain))
          ∙ append_assoc (between zero lo s) (between lo hi s) (drop hi s)
          ∙ ap (λ t. t ++ (between lo hi s ++ drop hi s)) (between_start lo s)),
)
apply_replacements-Chain s lo hi (r ∷ rs) (a, b, chain) h =
    let (middle, e) = splice_from-Chain s r.range.1 hi rs chain h in
    let rest = r.replacement ++ middle in
    (
      between lo r.range.0 s ++ rest,
      ap (splice_from s zero) (sort_by-Chain lo hi (r ∷ rs) (a, b, chain))
          ∙ first_kept s lo hi r rs middle a (omega (arith, b, h, Chain-le _ _ _ chain)) e,
    )
