-- ===== src/Ccr/InMemory/Eviction.antt =====
-- The sweep is first in, first out: what it evicts was inserted before all that it leaves.
use lm_resizer.Base.{
  ℕ, ◌+◌, ◌^◌, ◌<◌, String, ◌≡◌, ◌≢◌, ◌⊎◌, inl, inr, none, some, [], ◌∷◌, ◌++◌, arith, eq_iff,
  Bool-cases, Option-cases, leb, All, All-append, All-map,
}
use native.Mathlib.Nat.{mod-eq_of_lt}
use lm_resizer.Ccr.ShardMap.{ShardMap, Laws}
use lm_resizer.Ccr.InMemory.{
  Entry, Queue, InMemoryCcrStore, sweep, evict, evict_until_under_capacity, make_room, refresh,
  insert_entry, put,
}
use lm_resizer.Ccr.InMemory.Reads.{get-insert_ne}
use lm_resizer.Ccr.InMemory.Capacity.{InQueue, IsCovered, sweep-IsCovered, evict-IsCovered}

-- The generations along the queue go up.
abbrev pub Ascending : Queue → Type 0
Ascending [] = Unit
Ascending ((k, g) ∷ q) = All (λ x. g < x.1) q × Ascending q

pub record IsOrdered {M : Type 0} (s : InMemoryCcrStore M) : Type 0 where
  pub ascending : Ascending s.order
  pub issued : All (λ x. x.1 < s.next_generation) s.order

Ascending-append_last :
    (q : Queue) (k : String) (g : ℕ)
    → Ascending q
    → All (λ x. x.1 < g) q
    → Ascending (q ++ (k, g) ∷ [])
Ascending-append_last [] k g a i = (tt, tt)
Ascending-append_last ((j, h) ∷ q) k g (up, a) (lt, i) =
    (All-append (λ x. h < x.1) q ((k, g) ∷ []) up (lt, tt), Ascending-append_last q k g a i)

lt_of_InQueue : (k : String) (g h : ℕ) (q : Queue) → All (λ x. h < x.1) q → InQueue k g q → h < g
lt_of_InQueue k g h [] a m = elim m [ ]
lt_of_InQueue k g h ((j, i) ∷ q) (lt, a) (inl (_, e)) = omega arith
lt_of_InQueue k g h ((j, i) ∷ q) (lt, a) (inr m) = lt_of_InQueue k g h q a m

module _ {M : Type 0} (d : ShardMap Entry M) (laws : Laws d) where
  -- What the sweep leaves in the queue stood there before.
  InQueue-evict :
      (capacity : ℕ) (m : M) (q : Queue) (k : String) (g : ℕ)
      → InQueue k g (evict d capacity m q).1
      → InQueue k g q
  unfolding evict
  InQueue-evict capacity m [] k g = λ h. h
  InQueue-evict capacity m ((j, i) ∷ q) k g = elim (Bool-cases (leb capacity (d.len m))) [
    | inl full ↦ rw (full, evict) (λ h. inr (InQueue-evict capacity (sweep d m j i) q k g h))
    | inr room ↦ rw (room, evict) (λ h. h)
  ]

  All-evict :
      (P : String × ℕ → Type 0) (capacity : ℕ) (m : M) (q : Queue)
      → All P q
      → All P (evict d capacity m q).1
  unfolding evict
  All-evict P capacity m [] a = a
  All-evict P capacity m ((j, i) ∷ q) a = elim (Bool-cases (leb capacity (d.len m))) [
    | inl full ↦ rw (full, evict) (All-evict P capacity (sweep d m j i) q a.1)
    | inr room ↦ rw (room, evict) a
  ]

  Ascending-evict :
      (capacity : ℕ) (m : M) (q : Queue) → Ascending q → Ascending (evict d capacity m q).1
  unfolding evict
  Ascending-evict capacity m [] a = a
  Ascending-evict capacity m ((j, i) ∷ q) a = elim (Bool-cases (leb capacity (d.len m))) [
    | inl full ↦ rw (full, evict) (Ascending-evict capacity (sweep d m j i) q a.1)
    | inr room ↦ rw (room, evict) a
  ]

  -- The sweep takes a live entry out only at its own place in the queue.
  get-sweep :
      (m : M) (j k : String) (g : ℕ) (e : Entry)
      → d.get m j ≡ some e
      → (d.get (sweep d m k g) j ≡ some e) ⊎ ((d.get (sweep d m k g) j ≡ none) × (g ≡ e.generation))
  get-sweep m j k g e h = elim (Option-cases (d.get m k)) [
    | inl miss ↦ ground (arith, miss, h)
    | inr (old, hit) ↦ ground (arith, hit, h, laws.get-remove m k j, eq_iff k j)
  ]

  evict-oldest :
      (capacity : ℕ) (m : M) (q : Queue) (j k : String) (e f : Entry)
      → Ascending q
      → IsCovered d laws m q
      → d.get m j ≡ some e
      → d.get (evict d capacity m q).0 j ≡ none
      → d.get (evict d capacity m q).0 k ≡ some f
      → e.generation < f.generation
  unfolding evict
  evict-oldest capacity m [] j k e f a c here = λ gone stays. cc
  evict-oldest capacity m ((i, g) ∷ q) j k e f a c here =
      elim (Bool-cases (leb capacity (d.len m))) [
        | inl full ↦
            rw (full, evict)
              (λ gone stays. elim (get-sweep m j i g e here) [
                | inl still ↦
                    evict-oldest capacity (sweep d m i g) q j k e f a.1
                      (sweep-IsCovered d laws m i g q c) still gone stays
                | inr (out, same) ↦
                    let left =
                      (evict-IsCovered d laws capacity (sweep d m i g) q
                          (sweep-IsCovered d laws m i g q c)).queued
                        k f stays in
                    omega (
                      arith,
                      lt_of_InQueue k f.generation g q a.0
                          (InQueue-evict capacity (sweep d m i g) q k f.generation left),
                    )
              ])
        | inr room ↦ rw (room, evict) (λ gone stays. cc)
      ]

  evict-IsOrdered :
      (s : InMemoryCcrStore M) → IsOrdered s → IsOrdered (evict_until_under_capacity d s)
  unfolding evict_until_under_capacity
  evict-IsOrdered s o = record {
    ascending = Ascending-evict s.capacity s.map s.order o.ascending;
    issued = All-evict (λ x. x.1 < s.next_generation) s.capacity s.map s.order o.issued;
  }

  insert_entry-IsOrdered :
      (s : InMemoryCcrStore M) (k v : String) (now : ℕ)
      → s.next_generation + 1 < 2 ^ 64
      → IsOrdered s
      → IsOrdered (insert_entry d s k v now)
  unfolding insert_entry
  insert_entry-IsOrdered s k v now small o = elim (Option-cases (d.get s.map k)) [
    | inr (old, hit) ↦
        rw (hit, insert_entry) (record { ascending = o.ascending; issued = o.issued })
    | inl miss ↦
        rw (miss, insert_entry)
          (record {
            ascending = Ascending-append_last s.order k s.next_generation o.ascending o.issued;
            issued = rw (mod-eq_of_lt small) (
                All-append (λ x. x.1 < s.next_generation + 1) s.order ((k, s.next_generation) ∷ [])
                  (All-map s.order (λ x h. omega arith) o.issued) (omega arith, tt));
          })
  ]

  next_generation-make_room :
      (s : InMemoryCcrStore M) → (make_room d s).next_generation ≡ s.next_generation
  unfolding make_room evict_until_under_capacity
  next_generation-make_room s = ground arith

  make_room-IsOrdered : (s : InMemoryCcrStore M) → IsOrdered s → IsOrdered (make_room d s)
  unfolding make_room
  make_room-IsOrdered s o = elim (Bool-cases (leb s.capacity (d.len s.map))) [
    | inl full ↦ rw (full, make_room) (evict-IsOrdered s o)
    | inr room ↦ rw (room, make_room) o
  ]

  pub put-IsOrdered :
      (s : InMemoryCcrStore M) (k v : String) (now : ℕ)
      → s.next_generation + 1 < 2 ^ 64
      → IsOrdered s
      → IsOrdered (put d s k v now)
  unfolding put
  put-IsOrdered s k v now small o = elim (Option-cases (d.get s.map k)) [
    | inl miss ↦
        rw (miss, put)
          (insert_entry-IsOrdered (make_room d s) k v now (rw next_generation-make_room small)
            (make_room-IsOrdered s o))
    | inr (old, hit) ↦ rw (hit, put) (record { ascending = o.ascending; issued = o.issued })
  ]

  get-insert_entry_ne :
      (s : InMemoryCcrStore M) (k j v : String) (now : ℕ)
      → k ≢ j
      → d.get (insert_entry d s k v now).map j ≡ d.get s.map j
  unfolding insert_entry
  get-insert_entry_ne s k j v now ne = elim (Option-cases (d.get s.map k)) [
    | inl miss ↦
        let e : Entry = record { payload = v; inserted = now; generation = s.next_generation } in
        rw (miss, insert_entry) (get-insert_ne d laws s.map k j e ne)
    | inr (old, hit) ↦
        rw (hit, insert_entry) (get-insert_ne d laws s.map k j (refresh d old v now) ne)
  ]

  make_room-oldest :
      (s : InMemoryCcrStore M) (j i : String) (e f : Entry)
      → IsOrdered s
      → IsCovered d laws s.map s.order
      → d.get s.map j ≡ some e
      → d.get (make_room d s).map j ≡ none
      → d.get (make_room d s).map i ≡ some f
      → e.generation < f.generation
  unfolding make_room evict_until_under_capacity
  make_room-oldest s j i e f o c here = elim (Bool-cases (leb s.capacity (d.len s.map))) [
    | inl full ↦
        rw (full, make_room) (evict-oldest s.capacity s.map s.order j i e f o.ascending c here)
    | inr room ↦ rw (room, make_room) (λ gone stays. cc)
  ]

  -- Eviction is first in, first out: an entry that `put` of another key takes out of a covered
  -- store with an ascending queue was inserted before every entry that it leaves in.
  pub put_evicts_oldest :
      (s : InMemoryCcrStore M) (k v : String) (now : ℕ) (j i : String) (e f : Entry)
      → IsOrdered s
      → IsCovered d laws s.map s.order
      → k ≢ j
      → k ≢ i
      → d.get s.map j ≡ some e
      → d.get (put d s k v now).map j ≡ none
      → d.get (put d s k v now).map i ≡ some f
      → e.generation < f.generation
  unfolding put
  put_evicts_oldest s k v now j i e f o c nj ni here = elim (Option-cases (d.get s.map k)) [
    | inl miss ↦
        rw (miss, put)
          (rw (get-insert_entry_ne (make_room d s) k j v now nj) (
            rw (get-insert_entry_ne (make_room d s) k i v now ni)
              (make_room-oldest s j i e f o c here)))
    | inr (old, hit) ↦
        rw (hit, put)
          (λ gone stays.
            ground (arith, eq_iff k j, laws.get-insert s.map k j (refresh d old v now)))
  ]
