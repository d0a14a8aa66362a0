-- ===== src/Safety/Pairs/Listed.antt =====
-- What `tool_pair_indices` has listed and seen: the two agree, and hold what was responded to.
use lm_resizer.Base.{
  ℕ, zero, suc, ◌+◌, ◌<◌, String, ◌≡◌, refl, Bool, false, ◌&&◌, ◌||◌, Option, none, some, List, [],
  ◌∷◌, ◌++◌, arith, eq_iff, get_elem?, ◌==◌, if◌then◌else◌, unwrap_or, Option-cases, Bool-cases,
  inl, inr,
}
use lm_resizer.Json.{JsonView, get_array, get_str, is_str}
use lm_resizer.Safety.{
  ToolPair, Announced, lookup, contains_pair, PairScan, record_pair, respond, respond_blocks,
  scan_tool, scan_user, scan,
}

-- How often a pair is listed.
abbrev pub count_pair : List ToolPair → ℕ → ℕ → ℕ
count_pair [] a i = 0
count_pair (p ∷ ps) a i =
    let rest = count_pair ps a i in
    if p.assistant_index == a && p.response_index == i then suc rest else rest

abbrev pub is_at : Option ℕ → ℕ → Bool
is_at none a = false
is_at (some b) a = b == a

count-append :
    (ps : List ToolPair) (p : ToolPair) (a i : ℕ)
    → count_pair (ps ++ p ∷ []) a i ≡ (
        if p.assistant_index == a && p.response_index == i
        then suc (count_pair ps a i)
        else count_pair ps a i)
count-append [] p a i = refl
count-append (q ∷ ps) p a i = ground (arith, count-append ps p a i)

-- A pair is listed once if it has been seen, and never otherwise.
pub record IsSync (s : PairScan) : Type 0 where
  pub once : (a i : ℕ) → count_pair s.pairs a i ≡ (if contains_pair s.seen a i then 1 else 0)

record_pair-IsSync : (s : PairScan) (b k : ℕ) → IsSync s → IsSync (record_pair s b k)
unfolding record_pair contains_pair
record_pair-IsSync s b k h = record {
  once = λ a i. ground (
    arith,
    h.once a i,
    h.once b k,
    count-append s.pairs (record { assistant_index = b; response_index = k }) a i,
  );
}

respond-IsSync :
    (an : Announced) (k : ℕ) (s : PairScan) (id : String) → IsSync s → IsSync (respond an k s id)
unfolding respond
respond-IsSync an k s id h = elim (Option-cases (lookup an id)) [
  | inl miss ↦ rw (miss, respond) h
  | inr (b, hit) ↦ rw (hit, respond) (record_pair-IsSync s b k h)
]

seen-record_pair :
    (s : PairScan) (b k a i : ℕ)
    → contains_pair (record_pair s b k).seen a i ≡ (contains_pair s.seen a i || (b == a && k == i))
unfolding record_pair contains_pair
seen-record_pair s b k a i = ground arith

seen-respond :
    (an : Announced) (k : ℕ) (s : PairScan) (id : String) (a i : ℕ)
    → contains_pair (respond an k s id).seen a i
      ≡ (contains_pair s.seen a i || (k == i && is_at (lookup an id) a))
unfolding respond
seen-respond an k s id a i = elim (Option-cases (lookup an id)) [
  | inl miss ↦ ground (arith, miss)
  | inr (b, hit) ↦ ground (arith, hit, seen-record_pair s b k a i)
]

-- The responses of one message, one after the other.
abbrev respond_all : Announced → ℕ → PairScan → List String → PairScan
respond_all an k s [] = s
respond_all an k s (id ∷ ids) = respond_all an k (respond an k s id) ids

abbrev pub any_at : Announced → List String → ℕ → Bool
any_at an [] a = false
any_at an (id ∷ ids) a = is_at (lookup an id) a || any_at an ids a

seen-respond_all :
    (an : Announced) (k : ℕ) (s : PairScan) (ids : List String) (a i : ℕ)
    → contains_pair (respond_all an k s ids).seen a i
      ≡ (contains_pair s.seen a i || (k == i && any_at an ids a))
seen-respond_all an k s [] a i = ground arith
seen-respond_all an k s (id ∷ ids) a i =
    ground (arith, seen-respond_all an k (respond an k s id) ids a i, seen-respond an k s id a i)

respond_all-IsSync :
    (an : Announced) (k : ℕ) (s : PairScan) (ids : List String)
    → IsSync s
    → IsSync (respond_all an k s ids)
respond_all-IsSync an k s [] h = h
respond_all-IsSync an k s (id ∷ ids) h =
    respond_all-IsSync an k (respond an k s id) ids (respond-IsSync an k s id h)

respond_all-append :
    (an : Announced) (k : ℕ) (s : PairScan) (ids jds : List String)
    → respond_all an k s (ids ++ jds) ≡ respond_all an k (respond_all an k s ids) jds
respond_all-append an k s [] jds = refl
respond_all-append an k s (id ∷ ids) jds = respond_all-append an k (respond an k s id) ids jds

contains-or : (a b c : Bool) → ((a || b) || c) ≡ (a || (b || c))
contains-or a b c = ground arith

module _ {V : Type 0} (j : JsonView V) where
  -- The ids of the calls that a message responds to.
  abbrev pub tool_result_ids : List V → List String
  tool_result_ids [] = []
  tool_result_ids (b ∷ bs) =
      let rest = tool_result_ids bs in
      if is_str (get_str j b "type") "tool_result"
      then elim (get_str j b "tool_use_id") [ none ↦ rest | some id ↦ id ∷ rest ]
      else rest

  abbrev pub responds : V → List String
  responds msg =
      (if is_str (get_str j msg "role") "tool"
        then elim (get_str j msg "tool_call_id") [ none ↦ [] | some id ↦ id ∷ [] ]
        else [])
      ++ (if is_str (get_str j msg "role") "user"
          then tool_result_ids (unwrap_or (get_array j msg "content") [])
          else [])

  respond_blocks-eq :
      (an : Announced) (k : ℕ) (s : PairScan) (bs : List V)
      → respond_blocks j an k s bs ≡ respond_all an k s (tool_result_ids bs)
  unfolding respond_blocks
  respond_blocks-eq an k s [] = refl
  respond_blocks-eq an k s (b ∷ bs) =
      elim (Bool-cases (is_str (get_str j b "type") "tool_result")) [
        | inr other ↦ rw (other, respond_blocks) (respond_blocks-eq an k s bs)
        | inl result ↦ elim (Option-cases (get_str j b "tool_use_id")) [
          | inl miss ↦ rw (result, miss, respond_blocks) (respond_blocks-eq an k s bs)
          | inr (id, hit) ↦
              rw (result, hit, respond_blocks) (respond_blocks-eq an k (respond an k s id) bs)
        ]
      ]

  scan_message-eq :
      (an : Announced) (k : ℕ) (s : PairScan) (msg : V)
      → scan_user j an k (scan_tool j an k s msg) msg ≡ respond_all an k s (responds msg)
  unfolding scan_user scan_tool
  scan_message-eq an k s msg = rw respond_all-append (
      ground (
        arith,
        respond_blocks-eq an k s (unwrap_or (get_array j msg "content") []),
        respond_blocks-eq an k (scan_tool j an k s msg) (unwrap_or (get_array j msg "content") []),
        eq_iff "tool" "user",
      ))

  -- Some message from the `k`-th on, at index `i`, responds to a call announced at `a`.
  abbrev pub seen_from : Announced → ℕ → List V → ℕ → ℕ → Bool
  seen_from an k [] a i = false
  seen_from an k (m ∷ ms) a i = (k == i && any_at an (responds m) a) || seen_from an (suc k) ms a i

  pub seen-scan :
      (an : Announced) (k : ℕ) (s : PairScan) (ms : List V) (a i : ℕ)
      → contains_pair (scan j an k s ms).seen a i
        ≡ (contains_pair s.seen a i || seen_from an k ms a i)
  unfolding scan
  seen-scan an k s [] a i = ground arith
  seen-scan an k s (m ∷ ms) a i =
      let s' = respond_all an k s (responds m) in
      rw (scan_message-eq an k s m, scan)
        (ground (arith, seen-scan an (suc k) s' ms a i, seen-respond_all an k s (responds m) a i))

  pub scan-IsSync :
      (an : Announced) (k : ℕ) (s : PairScan) (ms : List V) → IsSync s → IsSync (scan j an k s ms)
  unfolding scan
  scan-IsSync an k s [] h = h
  scan-IsSync an k s (m ∷ ms) h = rw (scan_message-eq an k s m) (
      scan-IsSync an (suc k) (respond_all an k s (responds m)) ms
        (respond_all-IsSync an k s (responds m) h))

  seen_from-early :
      (an : Announced) (k : ℕ) (ms : List V) (a i : ℕ) → i < k → seen_from an k ms a i ≡ false
  seen_from-early an k [] a i h = refl
  seen_from-early an k (m ∷ ms) a i h =
      ground (arith, seen_from-early an (suc k) ms a i (omega arith))

  -- The message at an index, if there is one, answers a call announced at `a`.
  abbrev pub at_index : Announced → Option V → ℕ → Bool
  at_index an none a = false
  at_index an (some m) a = any_at an (responds m) a

  pub seen_from-at :
      (an : Announced) (k n : ℕ) (ms : List V) (a i : ℕ)
      → k + n ≡ i
      → seen_from an k ms a i ≡ at_index an (get_elem? ms n) a
  seen_from-at an k n [] a i e = refl
  seen_from-at an k zero (m ∷ ms) a i e =
      ground (arith, seen_from-early an (suc k) ms a i (omega arith))
  seen_from-at an k (suc n) (m ∷ ms) a i e =
      ground (arith, seen_from-at an (suc k) n ms a i (omega arith))
