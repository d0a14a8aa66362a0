-- ===== src/Sizer/Clusters.antt =====
-- adaptive_sizer.rs: greedy clustering of fingerprints.
use lm_resizer.Base.{
  ℕ, zero, suc, ◌≤◌, ◌<◌, ◌≡◌, refl, ◌⊎◌, inl, inr, Bool, true, false, List, [], ◌∷◌, ◌++◌, map,
  length, any, All, All-append, In, In-append, In-append_left, In-append_right, Bytes, leb, leb→le,
  if◌then◌else◌, Bool-cases, arith,
}
use lm_resizer.Sizer.{
  Texts, simhash, hamming_distance, differing, clusters_from, count_unique_simhash,
}

module _ (threshold : ℕ) where
  -- A list of representatives, each of them far from those before it.
  abbrev pub Apart : List ℕ → Type 0
  Apart [] = Unit {0}
  Apart (c ∷ cs) = All (λ d. threshold < hamming_distance d c) cs × Apart cs

  -- Some representative is near.
  abbrev pub Covered : List ℕ → ℕ → Type 0
  Covered cs fp = (c : ℕ) × In c cs × (hamming_distance fp c ≤ threshold)

  Apart-append_last :
      (cs : List ℕ) (fp : ℕ)
      → All (λ c. threshold < hamming_distance fp c) cs
      → Apart cs
      → Apart (cs ++ fp ∷ [])
  Apart-append_last [] fp far apart = (tt, tt)
  Apart-append_last (c ∷ cs) fp far apart = (
    All-append (λ d. threshold < hamming_distance d c) cs (fp ∷ []) apart.0 (far.0, tt),
    Apart-append_last cs fp far.1 apart.1,
  )

  any-Covered :
      (fp : ℕ) (cs : List ℕ)
      → any (λ rep. leb (hamming_distance fp rep) threshold) cs ≡ true
      → Covered cs fp
  any-Covered fp [] h = cc
  any-Covered fp (c ∷ cs) h = elim (Bool-cases (leb (hamming_distance fp c) threshold)) [
    | inl near ↦ (c, inl refl, leb→le _ _ near)
    | inr far ↦ let (d, at, near) = any-Covered fp cs (ground arith) in (d, inr at, near)
  ]

  any_far :
      (fp : ℕ) (cs : List ℕ)
      → any (λ rep. leb (hamming_distance fp rep) threshold) cs ≡ false
      → All (λ c. threshold < hamming_distance fp c) cs
  any_far fp [] h = tt
  any_far fp (c ∷ cs) h = (ground arith, any_far fp cs (ground arith))

  differing_self : (n a : ℕ) → differing n a a ≡ 0
  unfolding differing
  differing_self zero a = refl
  differing_self (suc j) a = ground (arith, differing_self j a)

  hamming_distance_self : (a : ℕ) → hamming_distance a a ≡ 0
  unfolding hamming_distance
  hamming_distance_self a = differing_self 64 a

  Covered-more : (cs ds : List ℕ) (fp : ℕ) → Covered cs fp → Covered (cs ++ ds) fp
  Covered-more cs ds fp (c, at, near) = (c, In-append_left c cs ds at, near)

  Covered-last : (cs : List ℕ) (fp : ℕ) → Covered (cs ++ fp ∷ []) fp
  Covered-last cs fp =
      (fp, In-append_right fp cs (fp ∷ []) (inl refl), omega (arith, hamming_distance_self fp))

  -- What the loop makes of its clusters: they stay, and each new one is a fingerprint.
  Goal : List ℕ → List ℕ → List ℕ → Type 0
  Goal cs fps rs =
      Apart rs
      × ((fp : ℕ) → Covered cs fp → Covered rs fp)
      × All (Covered rs) fps
      × ((r : ℕ) → In r rs → In r cs ⊎ In r fps)

  source :
      (cs fps : List ℕ) (fp r : ℕ) → In r (cs ++ fp ∷ []) ⊎ In r fps → In r cs ⊎ In r (fp ∷ fps)
  source cs fps fp r (inl h) = elim (In-append r cs (fp ∷ []) h) [
    | inl old ↦ inl old
    | inr (inl e) ↦ inr (inl e)
    | inr (inr none_left) ↦ absurd none_left
  ]
  source cs fps fp r (inr h) = inr (inr h)

  clusters_from-step :
      (cs fps : List ℕ) (fp : ℕ) (b : Bool)
      → any (λ rep. leb (hamming_distance fp rep) threshold) cs ≡ b
      → ((ds : List ℕ) → Apart ds → Goal ds fps (clusters_from threshold ds fps))
      → Apart cs
      → Goal cs (fp ∷ fps) (clusters_from threshold (if b then cs else cs ++ (fp ∷ [])) fps)
  unfolding Goal
  clusters_from-step cs fps fp true near later apart =
      let (apart', more, covered, from) = later cs apart in
      (
        apart',
        more,
        (more fp (any-Covered fp cs near), covered),
        λ r h. elim (from r h) [ inl old ↦ inl old | inr new ↦ inr (inr new) ],
      )
  clusters_from-step cs fps fp false far later apart =
      let (apart', more, covered, from) =
        later (cs ++ fp ∷ []) (Apart-append_last cs fp (any_far fp cs far) apart) in
      (
        apart',
        λ q h. more q (Covered-more cs (fp ∷ []) q h),
        (more fp (Covered-last cs fp), covered),
        λ r h. source cs fps fp r (from r h),
      )

  clusters_from_lem : (cs fps : List ℕ) → Apart cs → Goal cs fps (clusters_from threshold cs fps)
  unfolding clusters_from Goal
  clusters_from_lem cs [] apart = (apart, λ fp h. h, tt, λ r h. inl h)
  clusters_from_lem cs (fp ∷ fps) apart =
      clusters_from-step cs fps fp _ refl (λ ds. clusters_from_lem ds fps) apart

module _ (t : Texts) where
  -- The items fall into as many groups as are counted: there are as many representatives, which are
  -- fingerprints of items, no two of them within the threshold, and every item's fingerprint is
  -- within the threshold of one of them.
  pub count_unique_simhash_lem :
      (items : List Bytes) (threshold : ℕ)
      → (reps : List ℕ) × (length reps ≡ count_unique_simhash t items threshold)
        × ((r : ℕ) → In r reps → In r (map (simhash t) items))
        × Apart threshold reps
        × All (Covered threshold reps) (map (simhash t) items)
  unfolding count_unique_simhash Goal
  count_unique_simhash_lem items threshold =
      let fps = map (simhash t) items in
      let (apart, more, covered, from) = clusters_from_lem threshold [] fps tt in
      (
        clusters_from threshold [] fps,
        refl,
        λ r h. elim (from r h) [ inl old ↦ absurd old | inr new ↦ new ],
        apart,
        covered,
      )
