-- ===== src/Safety/Pairs/Exact.antt =====
-- `tool_pair_indices` lists each pair of a call and a response once, and no other pair.
use lm_resizer.Base.{
  ℕ, String, ◌≡◌, refl, Bool, false, Option, none, some, List, [], ◌∷◌, arith, any, get_elem?,
  if◌then◌else◌, Option-cases, inl, inr,
}
use lm_resizer.Safety.Pairs.Calls.{last_announcer, lookup-announced}
use lm_resizer.Safety.Pairs.Listed.{
  count_pair, is_at, any_at, responds, seen-scan, scan-IsSync, seen_from-at,
}
use lm_resizer.Json.{JsonView}
use lm_resizer.Safety.{contains_pair, PairScan, announce, tool_pair_indices}

module _ {V : Type 0} (j : JsonView V) where
  -- The message responds j to a call whose last announcer is `a`.
  abbrev pub answers : List V → V → ℕ → Bool
  answers ms msg a = any (λ id. is_at (last_announcer j 0 ms id) a) (responds j msg)

  any_at-announced :
      (ms : List V) (ids : List String) (a : ℕ)
      → any_at (announce j 0 [] ms) ids a ≡ any (λ id. is_at (last_announcer j 0 ms id) a) ids
  any_at-announced ms [] a = refl
  any_at-announced ms (id ∷ ids) a =
      ground (arith, lookup-announced j ms id, any_at-announced ms ids a)

  -- The message at the index, if there is one, answers a call announced last at `a`.
  abbrev pub answered_at : List V → Option V → ℕ → Bool
  answered_at ms none a = false
  answered_at ms (some m) a = answers ms m a

  -- A pair of indices is listed exactly once if the message at the response index responds j to some
  -- call whose last announcing assistant message stands at the assistant index, and is not listed
  -- otherwise.
  pub tool_pair_indices_lem :
      (ms : List V) (a i : ℕ)
      → count_pair (tool_pair_indices j ms) a i
        ≡ (if answered_at ms (get_elem? ms i) a then 1 else 0)
  unfolding tool_pair_indices contains_pair
  tool_pair_indices_lem ms a i =
      let an = announce j 0 [] ms in
      let s : PairScan = record { pairs = []; seen = [] } in
      elim (Option-cases (get_elem? ms i)) [
        | inl past ↦ ground (
          arith,
          past,
          (scan-IsSync j an 0 s ms (record { once = λ b k. refl })).once a i,
          seen-scan j an 0 s ms a i,
          seen_from-at j an 0 i ms a i (omega arith),
        )
        | inr (m, at) ↦ ground (
          arith,
          at,
          (scan-IsSync j an 0 s ms (record { once = λ b k. refl })).once a i,
          seen-scan j an 0 s ms a i,
          seen_from-at j an 0 i ms a i (omega arith),
          any_at-announced ms (responds j m) a,
        )
      ]
