-- ===== src/Tags/Spans/Moves.antt =====
-- Each way in which `identify_spans` moves on keeps its spans in order.
use lm_resizer.Base.{
  ℕ, ◌≤◌, ◌<◌, ◌≡◌, ◌⊎◌, inl, inr, some, List, [], ◌∷◌, ◌++◌, arith, All, All-append, All-map,
  Bytes, Bool-cases, bytes_eq,
}
use lm_resizer.Tags.Spans.{
  ProtectStats, OpenTag, SpanKind, Span, Walk, pop_to, pop_top, retain_before,
}
use lm_resizer.Tags.Spans.Apart.{
  Clear, Stacked, IsOrdered, Apart-upper, Apart-append_last, Apart-retain_before, Clear-late,
  Stacked-upper, Stacked-lt, Clear-append, Clear-retain_before,
}

Stacked-pop_top : (hi : ℕ) (os : List OpenTag) → Stacked os hi → Stacked (pop_top os) hi
Stacked-pop_top hi [] h = tt
Stacked-pop_top hi (o ∷ os) h = Stacked-upper o.open_start hi os (omega (arith, h.0)) h.1

All-pop_top : (P : OpenTag → Type 0) (os : List OpenTag) → All P os → All P (pop_top os)
All-pop_top P [] h = tt
All-pop_top P (o ∷ os) h = h.1

-- What `pop_to` finds: an open tag of the stack, with the part of the stack below it.
pub record IsFound (ss : List Span) (hi : ℕ) (o : OpenTag) (below : List OpenTag) : Type 0 where
  pub before : o.open_start < hi
  pub under : Stacked below o.open_start
  pub clear_here : Clear o.open_start ss
  pub clear_below : All (λ p. Clear p.open_start ss) below

pub pop_to-IsFound :
    (name : Bytes) (ss : List Span) (hi : ℕ) (os : List OpenTag) {o : OpenTag}
    {below : List OpenTag}
    → Stacked os hi
    → All (λ p. Clear p.open_start ss) os
    → pop_to name os ≡ some (o, below)
    → IsFound ss hi o below
unfolding pop_to
pop_to-IsFound name ss hi [] st c = λ e. cc
pop_to-IsFound name ss hi (p ∷ os) {o} {below} st c =
    elim (Bool-cases (bytes_eq p.name_lower name)) [
      | inl same ↦ rw same (λ e.
          let eo : p ≡ o = cc in
          let eb : os ≡ below = cc in
          rw (← eo, ← eb)
            (record { before = st.0; under = st.1; clear_here = c.0; clear_below = c.1 }))
      | inr other ↦ rw other (λ e.
          let f = pop_to-IsFound name ss p.open_start os {o = o} {below = below} st.1 c.1 e in
          record {
            before = omega (arith, f.before, st.0);
            under = f.under;
            clear_here = f.clear_here;
            clear_below = f.clear_below;
          })
    ]

-- Moving on without a new span or a new open tag.
pub move-IsOrdered :
    (n k : ℕ) (w : Walk) (st : ProtectStats)
    → w.i ≤ k
    → k ≤ n
    → IsOrdered n w
    → IsOrdered n (record w { i = k; stats = st })
move-IsOrdered n k w st le fit h = record {
  inside = fit;
  apart = Apart-upper 0 w.i k w.spans le h.apart;
  stacked = Stacked-upper w.i k w.stack le h.stacked;
  clear = h.clear;
}

pub push_span-IsOrdered :
    (n k : ℕ) (w : Walk) (st : ProtectStats) (kind : SpanKind)
    → w.i < k
    → k ≤ n
    → IsOrdered n w
    → IsOrdered n (record w {
      i = k;
      spans = w.spans ++ record { start = w.i; end = k; kind = kind } ∷ [];
      stats = st;
    })
push_span-IsOrdered n k w st kind lt fit h = record {
  inside = fit;
  apart = Apart-append_last 0 w.i k w.spans _ h.apart (omega arith) lt (omega arith);
  stacked = Stacked-upper w.i k w.stack (omega arith) h.stacked;
  clear =
      Clear-append w.spans _ w.stack
        (All-map w.stack (λ o l. omega arith) (Stacked-lt w.i w.stack h.stacked)) h.clear;
}

pub push_open-IsOrdered :
    (n k : ℕ) (w : Walk) (st : ProtectStats) (name : Bytes)
    → w.i < k
    → k ≤ n
    → IsOrdered n w
    → IsOrdered n (record w {
      i = k;
      stack = record { name_lower = name; open_start = w.i } ∷ w.stack;
      stats = st;
    })
push_open-IsOrdered n k w st name lt fit h = record {
  inside = fit;
  apart = Apart-upper 0 w.i k w.spans (omega arith) h.apart;
  stacked = (lt, h.stacked);
  clear = (Clear-late w.i w.i 0 w.spans h.apart (omega arith), h.clear);
}

pub push_marker-IsOrdered :
    (n k : ℕ) (w : Walk) (st : ProtectStats) (name : Bytes) (kind : SpanKind)
    → w.i < k
    → k ≤ n
    → IsOrdered n w
    → IsOrdered n (record {
      i = k;
      spans = w.spans ++ record { start = w.i; end = k; kind = kind } ∷ [];
      stack = record { name_lower = name; open_start = w.i } ∷ w.stack;
      stats = st;
    })
push_marker-IsOrdered n k w st name kind lt fit h =
    let s : Span = record { start = w.i; end = k; kind = kind } in
    let p = push_span-IsOrdered n k w st kind lt fit h in
    record {
      inside = fit;
      apart = p.apart;
      stacked = (lt, h.stacked);
      clear = (
        All-append (λ r. (r.end ≤ w.i) ⊎ (w.i ≤ r.start)) w.spans (s ∷ [])
            (Clear-late w.i w.i 0 w.spans h.apart (omega arith)) (inr (omega arith), tt),
        p.clear,
      );
    }

pub close_block-IsOrdered :
    (n k : ℕ) (w : Walk) (st : ProtectStats) (o : OpenTag) (below : List OpenTag) (kind : SpanKind)
    → w.i < k
    → k ≤ n
    → IsOrdered n w
    → IsFound w.spans w.i o below
    → IsOrdered n (record {
      i = k;
      spans =
          retain_before o.open_start w.spans
          ++ record { start = o.open_start; end = k; kind = kind } ∷ [];
      stack = below;
      stats = st;
    })
close_block-IsOrdered n k w st o below kind lt fit h f =
    let kept = Apart-retain_before 0 w.i o.open_start w.spans h.apart f.clear_here (omega arith) in
    record {
      inside = fit;
      apart =
          Apart-append_last 0 o.open_start k _ _ kept (omega arith) (omega (arith, f.before))
            (omega arith);
      stacked = Stacked-upper o.open_start k below (omega (arith, f.before)) f.under;
      clear =
          Clear-append (retain_before o.open_start w.spans) _ below
            (All-map below (λ p l. omega arith) (Stacked-lt o.open_start below f.under))
            (Clear-retain_before o.open_start w.spans below f.clear_below);
    }

-- A stack that loses its top.
pub pop_top-IsOrdered :
    (n : ℕ) (w : Walk) → IsOrdered n w → IsOrdered n (record w { stack = pop_top w.stack })
pop_top-IsOrdered n w h = record {
  inside = h.inside;
  apart = h.apart;
  stacked = Stacked-pop_top w.i w.stack h.stacked;
  clear = All-pop_top (λ o. Clear o.open_start w.spans) w.stack h.clear;
}

pub close_marker-IsOrdered :
    (n k : ℕ) (w : Walk) (st : ProtectStats) (o : OpenTag) (below : List OpenTag) (kind : SpanKind)
    → w.i < k
    → k ≤ n
    → IsOrdered n w
    → IsFound w.spans w.i o below
    → IsOrdered n (record {
      i = k;
      spans = w.spans ++ record { start = w.i; end = k; kind = kind } ∷ [];
      stack = below;
      stats = st;
    })
close_marker-IsOrdered n k w st o below kind lt fit h f = record {
  inside = fit;
  apart = Apart-append_last 0 w.i k w.spans _ h.apart (omega arith) lt (omega arith);
  stacked = Stacked-upper o.open_start k below (omega (arith, f.before)) f.under;
  clear =
      Clear-append w.spans _ below
        (All-map below (λ p l. omega (arith, f.before)) (Stacked-lt o.open_start below f.under))
        f.clear_below;
}
