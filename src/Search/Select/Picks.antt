-- ===== src/Search/Select/Picks.antt =====
-- search_compressor.rs: what the picks of a file are at any time.
use lm_resizer.Base.{
  ℕ, zero, suc, ◌≤◌, ◌<◌, ◌≡◌, refl, inl, inr, Bool, true, false, ◌&&◌, Option, none, some, List,
  [], ◌∷◌, ◌++◌, length, any, All, All-append, In, In-append_left, In-append_right, length-append,
  leb, ltb, if◌then◌else◌, Bool-cases, arith,
}
use lm_resizer.Base.Pigeonhole.{Unique}
use lm_resizer.Search.{SearchMatch}
use lm_resizer.Search.Select.{Ranking, first, last, same_key, push_unique, keep, fill}

module _ {F D : Type 0} (r : Ranking F D) where
  abbrev pub Match : Type 0
  Match = SearchMatch F

  pub same_key_self : (m : Match) → same_key r m m ≡ true
  same_key_self m = ground arith

  -- What the picks of a file are at any time: no more than there is room for, no two of them with one
  -- key, and matches of the file.
  pub record IsPicked (remaining_cap : ℕ) (matches kept : List Match) : Type 0 where
    pub few : length kept ≤ remaining_cap
    pub unique : Unique (same_key r) same_key_self kept
    pub from : All (λ m. In m matches) kept

  any_fresh :
      (m : Match) (kept : List Match)
      → any (same_key r m) kept ≡ false
      → All (λ x. same_key r m x ≡ false) kept
  any_fresh m [] h = tt
  any_fresh m (x ∷ kept) h = (ground arith, any_fresh m kept (ground arith))

  Unique-append_last :
      (m : Match) (kept : List Match)
      → All (λ x. same_key r m x ≡ false) kept
      → Unique (same_key r) same_key_self kept
      → Unique (same_key r) same_key_self (kept ++ m ∷ [])
  Unique-append_last m [] fresh h = (tt, tt)
  Unique-append_last m (x ∷ kept) (ne, fresh) (apart, h) = (
    All-append (λ y. same_key r y x ≡ false) kept (m ∷ []) apart (ne, tt),
    Unique-append_last m kept fresh h,
  )

  push_unique-IsPicked :
      (n : ℕ) (matches kept : List Match) (m : Match)
      → In m matches
      → length kept < n
      → IsPicked n matches kept
      → IsPicked n matches (push_unique r m kept)
  unfolding push_unique
  push_unique-IsPicked n matches kept m at room p = elim (Bool-cases (any (same_key r m) kept)) [
    | inl old ↦ rw (old) p
    | inr new ↦ rw (new) (record {
      few = omega (arith, length-append kept (m ∷ []));
      unique = Unique-append_last m kept (any_fresh m kept new) p.unique;
      from = All-append (λ x. In x matches) kept (m ∷ []) p.from (at, tt);
    })
  ]

  pub keep-IsPicked :
      (n : ℕ) (matches kept : List Match) (o : Option Match)
      → ((m : Match) → o ≡ some m → In m matches)
      → IsPicked n matches kept
      → IsPicked n matches (keep r n o kept)
  unfolding keep
  keep-IsPicked n matches kept none at p = p
  keep-IsPicked n matches kept (some m) at p = elim (Bool-cases (ltb (length kept) n)) [
    | inl room ↦ rw (room) (push_unique-IsPicked n matches kept m (at m refl) (ground arith) p)
    | inr full ↦ rw (full) p
  ]

  pub fill-IsPicked :
      (n : ℕ) (matches ms kept : List Match)
      → All (λ m. In m matches) ms
      → IsPicked n matches kept
      → IsPicked n matches (fill r n ms kept)
  unfolding fill
  fill-IsPicked n matches [] kept at p = p
  fill-IsPicked n matches (m ∷ ms) kept (here, at) p = elim (Bool-cases (leb n (length kept))) [
    | inl full ↦ rw (full) p
    | inr room ↦ rw (room) (
        fill-IsPicked n matches ms (push_unique r m kept) at
          (push_unique-IsPicked n matches kept m here (ground arith) p))
  ]

  pub first-In : (ms : List Match) (m : Match) → first ms ≡ some m → In m ms
  first-In [] m h = cc
  first-In (x ∷ ms) m h = inl (cc)

  pub last-In : (ms : List Match) (m : Match) → last ms ≡ some m → In m ms
  last-In [] m h = cc
  last-In (x ∷ []) m h = inl (cc)
  last-In (x ∷ y ∷ ms) m h = inr (last-In (y ∷ ms) m h)

  push_unique-In : (m x : Match) (kept : List Match) → In x kept → In x (push_unique r m kept)
  unfolding push_unique
  push_unique-In m x kept h =
      elim (any (same_key r m) kept) as (λ b. In x (if b then kept else kept ++ m ∷ [])) [
        | true ↦ h
        | false ↦ In-append_left x kept (m ∷ []) h
      ]

  pub keep-In :
      (n : ℕ) (o : Option Match) (x : Match) (kept : List Match)
      → In x kept
      → In x (keep r n o kept)
  unfolding keep
  keep-In n none x kept h = h
  keep-In n (some m) x kept h =
      elim (ltb (length kept) n) as (λ b. In x (if b then push_unique r m kept else kept)) [
        | true ↦ push_unique-In m x kept h
        | false ↦ h
      ]

  pub fill-In : (n : ℕ) (x : Match) (ms kept : List Match) → In x kept → In x (fill r n ms kept)
  unfolding fill
  fill-In n x [] kept h = h
  fill-In n x (m ∷ ms) kept h =
      elim (leb n (length kept))
        as (λ b. In x (if b then kept else fill r n ms (push_unique r m kept))) [
          | true ↦ h
          | false ↦ fill-In n x ms (push_unique r m kept) (push_unique-In m x kept h)
        ]

  -- Some kept match has the key of `m`.
  abbrev pub HasKey : Match → List Match → Type 0
  HasKey m kept = (x : Match) × In x kept × (same_key r m x ≡ true)

  any-HasKey : (m : Match) (kept : List Match) → any (same_key r m) kept ≡ true → HasKey m kept
  any-HasKey m [] h = cc
  any-HasKey m (x ∷ kept) h = elim (Bool-cases (same_key r m x)) [
    | inl same ↦ (x, inl refl, same)
    | inr other ↦ let (y, at, same) = any-HasKey m kept (ground arith) in (y, inr at, same)
  ]

  push_unique-HasKey : (m : Match) (kept : List Match) → HasKey m (push_unique r m kept)
  unfolding push_unique
  push_unique-HasKey m kept = elim (Bool-cases (any (same_key r m) kept)) [
    | inl old ↦ rw (old) (any-HasKey m kept old)
    | inr new ↦ rw (new) (m, In-append_right m kept (m ∷ []) (inl refl), same_key_self m)
  ]

  -- The match is kept, where the flag is set and there is one.
  abbrev pub Keeps : Bool → Option Match → List Match → Type 0
  Keeps true (some m) kept = In m kept
  Keeps true none kept = Unit {0}
  Keeps false o kept = Unit {0}

  -- Likewise, or another one with its line number and hash.
  abbrev pub KeepsKey : Bool → Option Match → List Match → Type 0
  KeepsKey true (some m) kept = HasKey m kept
  KeepsKey true none kept = Unit {0}
  KeepsKey false o kept = Unit {0}

  pub Keeps-more :
      (b : Bool) (o : Option Match) (kept more : List Match)
      → ((x : Match) → In x kept → In x more)
      → Keeps b o kept
      → Keeps b o more
  Keeps-more true (some m) kept more grow h = grow m h
  Keeps-more true none kept more grow h = tt
  Keeps-more false o kept more grow h = tt

  pub KeepsKey-more :
      (b : Bool) (o : Option Match) (kept more : List Match)
      → ((x : Match) → In x kept → In x more)
      → KeepsKey b o kept
      → KeepsKey b o more
  KeepsKey-more true (some m) kept more grow (x, at, same) = (x, grow x at, same)
  KeepsKey-more true none kept more grow h = tt
  KeepsKey-more false o kept more grow h = tt

  keep-Keeps : (n : ℕ) (o : Option Match) → 0 < n → Keeps true o (keep r n o [])
  unfolding keep push_unique
  keep-Keeps zero o h = absurd (omega arith)
  keep-Keeps (suc n) none h = tt
  keep-Keeps (suc n) (some m) h =
      let room : ltb 0 (suc n) ≡ true = ground arith in rw (room) (inl refl)

  keep-KeepsKey :
      (n : ℕ) (o : Option Match) (kept : List Match)
      → length kept < n
      → KeepsKey true o (keep r n o kept)
  unfolding keep
  keep-KeepsKey n none kept h = tt
  keep-KeepsKey n (some m) kept h =
      let room : ltb (length kept) n ≡ true = ground arith in rw (room) (push_unique-HasKey m kept)

  pub Keeps-if :
      (b : Bool) (n : ℕ) (o : Option Match)
      → Keeps (b && ltb 0 n) o (if b then keep r n o [] else [])
  Keeps-if true n o = elim (Bool-cases (ltb 0 n)) [
    | inl room ↦ rw (room) (keep-Keeps n o (ground arith))
    | inr full ↦ rw (full) tt
  ]
  Keeps-if false n o = tt

  pub KeepsKey-if :
      (b : Bool) (n : ℕ) (o : Option Match) (kept : List Match)
      → length kept ≤ 1
      → KeepsKey (b && ltb 1 n) o (if b then keep r n o kept else kept)
  KeepsKey-if true n o kept h = elim (Bool-cases (ltb 1 n)) [
    | inl room ↦ rw (room) (keep-KeepsKey n o kept (ground arith))
    | inr full ↦ rw (full) tt
  ]
  KeepsKey-if false n o kept h = tt
