-- ===== src/LiveZone/Manifest/Saved.antt =====
-- live_zone.rs: a manifest with a compressed block has saved tokens.
use lm_resizer.Base.{ℕ, ◌+◌, ◌<◌, ◌≡◌, Bool, true, false, ◌||◌, not, List, [], ◌∷◌, All, any, arith}
use lm_resizer.LiveZone.{
  BlockAction, no_compression_applied, compressed, compressor_error, rejected_not_smaller,
  below_byte_threshold, excluded, BlockOutcome,
}
use lm_resizer.LiveZone.Manifest.{is_compressed, saved_by, saved_by_all}

-- A compressed block has fewer tokens.
abbrev pub Shrinks : BlockAction → Type 0
Shrinks (compressed strategy original_bytes compressed_bytes original_tokens compressed_tokens) =
    compressed_tokens < original_tokens
Shrinks action = Unit

pub compressed_of : (a b : Bool) → (not a || b) ≡ false → a ≡ true
compressed_of a b h = ground (arith, h)

saved_by-Shrinks :
    (action : BlockAction) (more : Bool) (n : ℕ)
    → Shrinks action
    → (is_compressed action || more) ≡ true
    → (more ≡ true → 0 < n)
    → 0 < saved_by action + n
saved_by-Shrinks (compressed strategy b c t u) more n h e k = omega (arith, h)
saved_by-Shrinks (no_compression_applied content_type) more n h e k = omega (arith, k e)
saved_by-Shrinks (compressor_error strategy error) more n h e k = omega (arith, k e)
saved_by-Shrinks (rejected_not_smaller strategy b c t u) more n h e k = omega (arith, k e)
saved_by-Shrinks (below_byte_threshold content_type b c) more n h e k = omega (arith, k e)
saved_by-Shrinks (excluded reason) more n h e k = omega (arith, k e)

-- Where a block is compressed, tokens are saved.
pub saved_by_all-Shrinks :
    (os : List BlockOutcome)
    → All (λ o. Shrinks o.action) os
    → any (λ o. is_compressed o.action) os ≡ true
    → 0 < saved_by_all os
unfolding saved_by_all
saved_by_all-Shrinks [] h e = ground arith
saved_by_all-Shrinks (o ∷ os) (h, hs) e =
    saved_by-Shrinks o.action (any (λ q. is_compressed q.action) os) (saved_by_all os) h e
      (saved_by_all-Shrinks os hs)
