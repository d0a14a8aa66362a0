-- ===== src/Base/Search.antt =====
-- Rust's `str::replace`, and where a pattern does not occur.
use Prim.Native.Nat.{ℕ, zero, suc, ◌-◌, ◌≤◌, ◌<◌}
use mathlib.Core.Path.{◌≡◌, refl, sym, ap, ◌∙◌}
use mathlib.Core.Logic.{◌≢◌, ◌⊎◌, inl, inr}
use mathlib.Core.Bool.{Bool, true, false, ◌&&◌, not}
use mathlib.Core.List.{[], ◌∷◌, ◌++◌, append_assoc, append-nil}
use native.Mathlib.Omega.{arith}
use lm_resizer.Base.Tests.{if◌then◌else◌, Bool-cases}
use lm_resizer.Base.Lists.{All, length, length-append}
use lm_resizer.Base.Text.{Bytes, starts_with, contains}

-- The scan of `replace`, which passes over `skip` more bytes of a match.
pub replace_from : Bytes → Bytes → ℕ → Bytes → Bytes
replace_from p r skip [] = []
replace_from p r (suc skip) (c ∷ s) = replace_from p r skip s
replace_from p r zero (c ∷ s) =
    let hit = r ++ replace_from p r (length p - 1) s in
    let miss = c ∷ replace_from p r 0 s in if starts_with p (c ∷ s) then hit else miss

-- `s.replace(p, r)` for a pattern `p` that is not empty.
unfoldable pub replace : Bytes → Bytes → Bytes → Bytes
unfolding replace_from
replace p r s = replace_from p r 0 s

-- No occurrence of `p` starts in `u` where `w` follows it.
abbrev pub Quiet : Bytes → Bytes → Bytes → Type 0
Quiet p [] w = Unit
Quiet p (c ∷ u) w = (starts_with p (c ∷ (u ++ w)) ≡ false) × Quiet p u w

pub replace-Quiet : (p r u w : Bytes) → Quiet p u w → replace p r (u ++ w) ≡ u ++ replace p r w
unfolding replace
replace-Quiet p r [] w q = refl
replace-Quiet p r (c ∷ u) w q = rw q.0 (ap (◌∷◌ c) (replace-Quiet p r u w q.1))

pub Quiet-append : (p u v w : Bytes) → Quiet p u (v ++ w) → Quiet p v w → Quiet p (u ++ v) w
Quiet-append p [] v w q k = k
Quiet-append p (c ∷ u) v w q k = (rw (append_assoc u v w) q.0, Quiet-append p u v w q.1 k)

-- What starts with a longer pattern starts with a shorter one.
starts_with-append : (p x s : Bytes) → starts_with p s ≡ false → starts_with (p ++ x) s ≡ false
starts_with-append [] x s h = cc
starts_with-append (c ∷ p) x [] h = refl
starts_with-append (c ∷ p) x (d ∷ s) h = ground (arith, starts_with-append p x s)

pub Quiet-longer : (p x u w : Bytes) → Quiet p u w → Quiet (p ++ x) u w
Quiet-longer p x [] w q = tt
Quiet-longer p x (c ∷ u) w q = (starts_with-append p x (c ∷ (u ++ w)) q.0, Quiet-longer p x u w q.1)

pub starts_with_self : (p w : Bytes) → starts_with p (p ++ w) ≡ true
starts_with_self [] w = refl
starts_with_self (c ∷ p) w = ground (arith, starts_with_self p w)

-- A pattern found in `u ++ w` lies in `u`, or reaches into `w`.
pub starts_with-split :
    (p u w : Bytes)
    → starts_with p (u ++ w) ≡ true
    → (starts_with p u ≡ true) ⊎ ((v : Bytes) × (p ≡ u ++ v) × (v ≢ []) × (starts_with v w ≡ true))
starts_with-split [] u w h = inl refl
starts_with-split (c ∷ p) [] w h = inr (c ∷ p, refl, (λ e. cc), h)
starts_with-split (c ∷ p) (d ∷ u) w h = elim (starts_with-split p u w (ground arith)) [
  | inl inside ↦ inl (ground arith)
  | inr (v, e, some_byte, over) ↦
      inr (v, (let e' : c ≡ d = ground arith in rw (e', e)), some_byte, over)
]

replace_from-skip : (p r u w : Bytes) → replace_from p r (length u) (u ++ w) ≡ replace_from p r 0 w
unfolding replace_from
replace_from-skip p r [] [] = refl
replace_from-skip p r [] (c ∷ w) = refl
replace_from-skip p r (c ∷ u) w = replace_from-skip p r u w

-- The replacement stands where the pattern stood.
pub replace_hit :
    (c : ℕ) (p r w : Bytes) → replace (c ∷ p) r ((c ∷ p) ++ w) ≡ r ++ replace (c ∷ p) r w
unfolding replace
replace_hit c p r w =
    let e : length (c ∷ p) - 1 ≡ length p = omega arith in
    rw (starts_with_self (c ∷ p) w, e) (ap (λ z. r ++ z) (replace_from-skip (c ∷ p) r p w))

pub contains-starts_with : (p s : Bytes) → starts_with p s ≡ true → contains p s ≡ true
contains-starts_with p [] h = h
contains-starts_with p (c ∷ s) h = rw h

pub contains-append_right : (p u w : Bytes) → contains p w ≡ true → contains p (u ++ w) ≡ true
contains-append_right p [] w h = h
contains-append_right p (c ∷ u) w h = ground (arith, contains-append_right p u w h)

starts_with-append_right : (p u w : Bytes) → starts_with p u ≡ true → starts_with p (u ++ w) ≡ true
starts_with-append_right [] u w h = refl
starts_with-append_right (c ∷ p) [] w h = cc
starts_with-append_right (c ∷ p) (d ∷ u) w h = ground (arith, starts_with-append_right p u w)

pub contains-append_left : (p u w : Bytes) → contains p u ≡ true → contains p (u ++ w) ≡ true
contains-append_left p [] w h = contains-starts_with p w (starts_with-append_right p [] w h)
contains-append_left p (c ∷ u) w h =
    ground (arith, starts_with-append_right p (c ∷ u) w, contains-append_left p u w)

-- What a text does not contain, no part of it contains.
pub absent_left : (p u w : Bytes) → contains p (u ++ w) ≡ false → contains p u ≡ false
absent_left p u w h = ground (arith, contains-append_left p u w)

pub absent_right : (p u w : Bytes) → contains p (u ++ w) ≡ false → contains p w ≡ false
absent_right p u w h = ground (arith, contains-append_right p u w)

-- No proper part of `p` from `q` on starts `p`: a row without this property overlaps itself.
abbrev pub no_border : Bytes → Bytes → Bool
no_border p [] = true
no_border p (c ∷ q) = not (starts_with (c ∷ q) p) && no_border p q

abbrev pub Unbordered : Bytes → Type 0
Unbordered [] = ⊥
Unbordered (c ∷ q) = no_border (c ∷ q) q ≡ true

no_border-tail : (p u v : Bytes) → no_border p (u ++ v) ≡ true → v ≢ [] → starts_with v p ≡ false
no_border-tail p [] [] h n = absurd (n refl)
no_border-tail p [] (c ∷ v) h n = ground arith
no_border-tail p (c ∷ u) v h n = no_border-tail p u v (ground arith) n

-- A shorter row that starts `p ++ z` starts `p`.
starts_with-shorter :
    (v p z : Bytes) → length v ≤ length p → starts_with v (p ++ z) ≡ true → starts_with v p ≡ true
starts_with-shorter [] p z le h = refl
starts_with-shorter (c ∷ v) [] z le h = absurd (omega arith)
starts_with-shorter (c ∷ v) (d ∷ p) z le h = ground (arith, starts_with-shorter v p z (omega arith))

-- No occurrence of an unbordered pattern reaches from a text without it into one that it starts.
overlap_absent :
    (p : Bytes) (c : ℕ) (u z : Bytes)
    → Unbordered p
    → contains p (c ∷ u) ≡ false
    → starts_with p (c ∷ (u ++ (p ++ z))) ≡ false
overlap_absent [] c u z b h = absurd b
overlap_absent (d ∷ q) c u z b h =
    elim (Bool-cases (starts_with (d ∷ q) (c ∷ (u ++ ((d ∷ q) ++ z))))) [
      | inr no_hit ↦ no_hit
      | inl hit ↦ elim (starts_with-split (d ∷ q) (c ∷ u) ((d ∷ q) ++ z) hit) [
        | inl inside ↦ cc (contains-starts_with (d ∷ q) (c ∷ u) inside)
        | inr (v, e, some_byte, over) ↦
            let tail : q ≡ u ++ v = cc in
            let quiet = no_border-tail (d ∷ q) u v (rw (← tail) b) some_byte in
            let short : length v ≤ length (d ∷ q) =
              omega (arith, ap (length {A = ℕ}) tail, length-append {0} u v) in
            cc (starts_with-shorter v (d ∷ q) z short over)
      ]
    ]

-- A text without an unbordered pattern is quiet before an occurrence of it, and at the end.
pub Quiet-absent : (p u z : Bytes) → Unbordered p → contains p u ≡ false → Quiet p u (p ++ z)
Quiet-absent p [] z b h = tt
Quiet-absent p (c ∷ u) z b h = (overlap_absent p c u z b h, Quiet-absent p u z b (ground arith))

pub Quiet-absent_end : (p u : Bytes) → contains p u ≡ false → Quiet p u []
Quiet-absent_end p [] h = tt
Quiet-absent_end p (c ∷ u) h = (rw append-nil (ground arith), Quiet-absent_end p u (ground arith))

starts_with-length : (p s : Bytes) → starts_with p s ≡ true → length p ≤ length s
starts_with-length [] s h = omega arith
starts_with-length (c ∷ p) [] h = cc
starts_with-length (c ∷ p) (d ∷ s) h = omega (arith, starts_with-length p s (ground arith))

starts_with-of_append : (x v p : Bytes) → p ≡ x ++ v → starts_with x p ≡ true
starts_with-of_append x v p e = rw e (starts_with_self x v)

-- An unbordered pattern does not start inside an occurrence of itself.
pub Quiet-tail : (p q z : Bytes) → length q < length p → no_border p q ≡ true → Quiet p q z
Quiet-tail p [] z short b = tt
Quiet-tail p (c ∷ q) z short b = (
  elim (Bool-cases (starts_with p (c ∷ (q ++ z)))) [
    | inr no_hit ↦ no_hit
    | inl hit ↦ elim (starts_with-split p (c ∷ q) z hit) [
      | inl inside ↦ absurd (omega (arith, starts_with-length p (c ∷ q) inside))
      | inr (v, e, _, _) ↦ let own = starts_with-of_append (c ∷ q) v p e in ground (arith, own, b)
    ]
  ],
  Quiet-tail p q z (omega arith) (ground arith),
)

-- Nothing starts at a byte that is not the pattern's first.
pub Quiet-other : (d : ℕ) (p u w : Bytes) → All (λ c. d ≢ c) u → Quiet (d ∷ p) u w
Quiet-other d p [] w h = tt
Quiet-other d p (c ∷ u) w h = (ground (arith, h.0), Quiet-other d p u w h.1)

replace_nil : (p r : Bytes) → replace p r [] ≡ []
unfolding replace
replace_nil p r = refl

-- Where the pattern does not occur, nothing is replaced.
pub replace-all-Quiet : (p r u : Bytes) → Quiet p u [] → replace p r u ≡ u
replace-all-Quiet p r u q =
    ap (replace p r) (sym (append-nil u))
    ∙ (replace-Quiet p r u [] q ∙ (ap (λ z. u ++ z) (replace_nil p r) ∙ append-nil u))
