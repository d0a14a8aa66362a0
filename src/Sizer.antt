-- ===== src/Sizer.antt =====
-- crates/lm-resizer-core/src/transforms/adaptive_sizer.rs: how many items are enough. `F` is `f64`.
-- Case folding, the split into words and characters, MD5 and zlib are parameters.
pub mod Bounds
pub mod Clusters
use lm_resizer.Base.{
  ℕ, zero, suc, ◌+◌, ◌-◌, ◌*◌, ◌/◌, ◌%◌, ◌^◌, min, max, Bool, true, false, ◌&&◌, ◌||◌, not, Option,
  none, some, List, [], ◌∷◌, ◌++◌, map, length, take, drop, any, Bytes, bytes_eq, is_empty, ltb,
  leb, ◌==◌, if◌then◌else◌, unwrap_or,
}
use lm_resizer.Base.Lines.{join}

-- What the code uses of `f64`. `ratio a b` is the literal a/b, and `trunc` is `as usize`.
pub record Floats (F : Type 0) : Type 0 where
  pub of_nat : ℕ → F
  pub ratio : ℕ → ℕ → F
  pub minus_one : F
  pub epsilon : F
  pub add : F → F → F
  pub sub : F → F → F
  pub mul : F → F → F
  pub div : F → F → F
  pub abs : F → F
  pub lt : F → F → Bool
  pub trunc : F → ℕ

pub record Texts : Type 0 where
  -- `s.to_lowercase()`, split at whitespace, and as its characters.
  pub lower_words : Bytes → List Bytes
  pub lower_chars : Bytes → List ℕ
  -- The first eight bytes of the MD5 digest of the characters' UTF-8, big-endian.
  pub md5_u64 : List ℕ → ℕ
  -- The length of the zlib stream at level 1.
  pub zlib_compressed_len : Bytes → ℕ

-- Bit `j` of a word.
abbrev pub bit : ℕ → ℕ → Bool
bit h j = (h / 2 ^ j) % 2 == 1

-- A counter of votes is the pair of its steps up and its steps down, and is positive where there
-- are more steps up.
unfoldable pub votes_up : ℕ → List ℕ → ℕ
votes_up j [] = 0
votes_up j (h ∷ hs) = let rest = votes_up j hs in if bit h j then suc rest else rest

unfoldable pub votes_down : ℕ → List ℕ → ℕ
votes_down j [] = 0
votes_down j (h ∷ hs) = let rest = votes_down j hs in if bit h j then rest else suc rest

-- The bits below `n` that have a majority.
unfoldable pub majority : ℕ → List ℕ → ℕ
majority zero hs = 0
majority (suc j) hs = majority j hs + (if ltb (votes_down j hs) (votes_up j hs) then 2 ^ j else 0)

-- `(a ^ b).count_ones()`, over the bits below `n`.
unfoldable pub differing : ℕ → ℕ → ℕ → ℕ
differing zero a b = 0
differing (suc j) a b = differing j a b + (if (a / 2 ^ j) % 2 == (b / 2 ^ j) % 2 then 0 else 1)

unfoldable pub hamming_distance : ℕ → ℕ → ℕ
hamming_distance a b = differing 64 a b

-- The windows of four characters, `n` of them.
unfoldable pub windows : ℕ → List ℕ → List (List ℕ)
windows zero chars = []
windows (suc n) chars = take 4 chars ∷ windows n (drop 1 chars)

abbrev pub iter_count : ℕ → ℕ
iter_count n = if leb n 3 then 1 else n - 3

-- The loop over the fingerprints: a new cluster where no representative is near.
unfoldable pub clusters_from : ℕ → List ℕ → List ℕ → List ℕ
clusters_from threshold clusters [] = clusters
clusters_from threshold clusters (fp ∷ fps) =
    clusters_from threshold
      (if any (λ rep. leb (hamming_distance fp rep) threshold) clusters
        then clusters
        else clusters ++ (fp ∷ []))
      fps

abbrev pub pair_eq : Bytes × Bytes → Bytes × Bytes → Bool
pair_eq p q = bytes_eq p.0 q.0 && bytes_eq p.1 q.1

-- `seen.insert(p)`, on a set as a list without repetition.
unfoldable pub add_pair : List (Bytes × Bytes) → Bytes × Bytes → List (Bytes × Bytes)
add_pair seen p = if any (pair_eq p) seen then seen else p ∷ seen

unfoldable pub add_bigrams : List (Bytes × Bytes) → List Bytes → List (Bytes × Bytes)
add_bigrams seen [] = seen
add_bigrams seen (x ∷ []) = seen
add_bigrams seen (x ∷ y ∷ words) = add_bigrams (add_pair seen (x, y)) (y ∷ words)

unfoldable pub add_words : List (Bytes × Bytes) → List Bytes → List (Bytes × Bytes)
add_words seen [] = add_pair seen ([], [])
add_words seen (x ∷ []) = add_pair seen (x, [])
add_words seen (x ∷ y ∷ words) = add_bigrams seen (x ∷ y ∷ words)

module _ (t : Texts) where
  unfoldable pub simhash : Bytes → ℕ
  simhash text =
      let chars = t.lower_chars text in
      majority 64 (map t.md5_u64 (windows (iter_count (length chars)) chars))

  unfoldable pub count_unique_simhash : List Bytes → ℕ → ℕ
  count_unique_simhash items threshold = length (clusters_from threshold [] (map simhash items))

  unfoldable pub curve_from : List (Bytes × Bytes) → List Bytes → List ℕ
  curve_from seen [] = []
  curve_from seen (item ∷ items) =
      let seen' = add_words seen (t.lower_words item) in length seen' ∷ curve_from seen' items

  unfoldable pub compute_unique_bigram_curve : List Bytes → List ℕ
  compute_unique_bigram_curve items = curve_from [] items

module _ {F : Type 0} (f : Floats F) where
  -- The loop for the largest gap above the diagonal: the gap, and where it was first met.
  unfoldable pub knee_from : F → F → F → ℕ → List ℕ → F → Option ℕ → F × Option ℕ
  knee_from x_range y_min y_range i [] max_diff knee_idx = (max_diff, knee_idx)
  knee_from x_range y_min y_range i (y ∷ ys) max_diff knee_idx =
      let diff = f.sub (f.div (f.sub (f.of_nat y) y_min) y_range) (f.div (f.of_nat i) x_range) in
      let better = f.lt max_diff diff in
      knee_from x_range y_min y_range (suc i) ys (if better then diff else max_diff)
        (if better then some i else knee_idx)

  abbrev pub last_or : ℕ → List ℕ → ℕ
  last_or d [] = d
  last_or d (y ∷ ys) = last_or y ys

  unfoldable pub find_knee : List ℕ → Option ℕ
  find_knee curve =
      let n = length curve in
      let y_min = f.of_nat (last_or 0 (take 1 curve)) in
      let y_max = f.of_nat (last_or 0 curve) in
      let found = knee_from (f.of_nat (n - 1)) y_min (f.sub y_max y_min) 0 curve f.minus_one none in
      if ltb n 3
      then none
      else if f.lt (f.abs (f.sub y_max y_min)) f.epsilon
      then some 1
      else if f.lt found.0 (f.ratio 5 100)
      then none
      else elim found.1 [ none ↦ none | some i ↦ some (i + 1) ]

  -- `n * (0.3 + 0.7 * diversity_ratio)`, cut to an integer, and no less than `min_k`.
  unfoldable pub diversity_floor : ℕ → ℕ → F → ℕ
  diversity_floor n min_k diversity_ratio =
      max min_k
        (f.trunc (f.mul (f.of_nat n) (f.add (f.ratio 3 10) (f.mul (f.ratio 7 10) diversity_ratio))))

  unfoldable pub adjust_knee : ℕ → ℕ → F → Option ℕ → ℕ
  adjust_knee n min_k diversity_ratio none = diversity_floor n min_k diversity_ratio
  adjust_knee n min_k diversity_ratio (some k) =
      if f.lt (f.ratio 7 10) diversity_ratio
      then max k (diversity_floor n min_k diversity_ratio)
      else k

  module _ (t : Texts) where
    -- The compression ratio of a text.
    unfoldable pub ratio_of : Bytes → F
    ratio_of text =
        if is_empty text
        then f.of_nat 1
        else f.div (f.of_nat (t.zlib_compressed_len text)) (f.of_nat (length text))

    unfoldable pub validate_with_zlib : List Bytes → ℕ → ℕ → F → ℕ
    validate_with_zlib items k max_k tolerance =
        let full_text = join (10 ∷ []) items in
        let ratio_diff =
          f.abs (f.sub (ratio_of full_text) (ratio_of (join (10 ∷ []) (take k items)))) in
        if leb (length items) k || leb max_k k
        then k
        else if ltb (length full_text) 200
        then k
        else if f.lt tolerance ratio_diff
        then min (f.trunc (f.mul (f.of_nat k) (f.ratio 12 10))) max_k
        else k

    -- From the curve on: more than eight items, in more than three groups.
    unfoldable pub optimal_k_by_knee : List Bytes → F → ℕ → ℕ → ℕ → ℕ
    optimal_k_by_knee items bias min_k effective_max unique_count =
        let n = length items in
        let knee =
          adjust_knee n min_k (f.div (f.of_nat unique_count) (f.of_nat n))
            (find_knee (compute_unique_bigram_curve t items)) in
        let k = min (max min_k (f.trunc (f.mul (f.of_nat knee) bias))) effective_max in
        max min_k (min (validate_with_zlib items k effective_max (f.ratio 15 100)) effective_max)

    unfoldable pub compute_optimal_k : List Bytes → F → ℕ → Option ℕ → ℕ
    compute_optimal_k items bias min_k max_k =
        let n = length items in
        let effective_max = unwrap_or max_k n in
        let unique_count = count_unique_simhash t items 3 in
        if leb n 8
        then n
        else if leb unique_count 3
        then min (max min_k unique_count) effective_max
        else optimal_k_by_knee items bias min_k effective_max unique_count
