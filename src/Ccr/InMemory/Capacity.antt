-- ===== src/Ccr/InMemory/Capacity.antt =====
-- The store stays within its capacity: every live entry stands in the order queue, so the sweep
-- can always make room.
use lm_resizer.Base.{
  ℕ, ◌≤◌, ◌<◌, max, String, ◌≡◌, ◌⊎◌, inl, inr, refl, some, [], ◌∷◌, ◌++◌, arith, eq_iff,
  Bool-cases, Option-cases, leb,
}
use lm_resizer.Ccr.ShardMap.{ShardMap, Laws}
use lm_resizer.Ccr.InMemory.{
  Entry, Queue, InMemoryCcrStore, sweep, evict, evict_until_under_capacity, make_room, refresh,
  insert_entry, put, get,
}

abbrev pub InQueue : String → ℕ → Queue → Type 0
InQueue k g [] = ⊥
InQueue k g ((j, h) ∷ q) = ((j ≡ k) × (h ≡ g)) ⊎ InQueue k g q

InQueue-append_left : (k : String) (g : ℕ) (q r : Queue) → InQueue k g q → InQueue k g (q ++ r)
InQueue-append_left k g [] r m = elim m [ ]
InQueue-append_left k g ((j, h) ∷ q) r (inl e) = inl e
InQueue-append_left k g ((j, h) ∷ q) r (inr m) = inr (InQueue-append_left k g q r m)

InQueue-append_last : (k : String) (g : ℕ) (q : Queue) → InQueue k g (q ++ (k, g) ∷ [])
InQueue-append_last k g [] = inl (refl, refl)
InQueue-append_last k g (e ∷ q) = inr (InQueue-append_last k g q)

module _ {M : Type 0} (d : ShardMap Entry M) (laws : Laws d) where
  pub record IsCovered (m : M) (q : Queue) : Type 0 where
    pub queued : (k : String) (e : Entry) → d.get m k ≡ some e → InQueue k e.generation q

  pub record IsValid (s : InMemoryCcrStore M) : Type 0 where
    pub covered : IsCovered s.map s.order
    pub bounded : d.len s.map ≤ max s.capacity 1

  -- One round of the sweep keeps the rest of the queue a cover.
  pub sweep-IsCovered :
      (m : M) (k : String) (g : ℕ) (q : Queue)
      → IsCovered m ((k, g) ∷ q)
      → IsCovered (sweep d m k g) q
  sweep-IsCovered m k g q c = record {
    queued = λ j e h. elim (Option-cases (d.get m k)) [
      | inl miss ↦ ground (arith, miss, c.queued j e, eq_iff k j)
      | inr (old, hit) ↦ ground (arith, hit, laws.get-remove m k j, c.queued j e, eq_iff k j)
    ];
  }

  pub evict-IsCovered :
      (capacity : ℕ) (m : M) (q : Queue)
      → IsCovered m q
      → IsCovered (evict d capacity m q).0 (evict d capacity m q).1
  unfolding evict
  evict-IsCovered capacity m [] c = c
  evict-IsCovered capacity m ((k, g) ∷ q) c = elim (Bool-cases (leb capacity (d.len m))) [
    | inl full ↦ rw full (evict-IsCovered capacity (sweep d m k g) q (sweep-IsCovered m k g q c))
    | inr room ↦ rw room c
  ]

  -- A covered map has room after the sweep, or is empty.
  evict-has-room :
      (capacity : ℕ) (m : M) (q : Queue)
      → IsCovered m q
      → (d.len (evict d capacity m q).0 < capacity) ⊎ (d.len (evict d capacity m q).0 ≡ 0)
  unfolding evict
  evict-has-room capacity m [] c = inr (
      laws.len-of_none m (λ k. elim (Option-cases (d.get m k)) [
        | inl miss ↦ miss
        | inr (e, hit) ↦ absurd (c.queued k e hit)
      ]))
  evict-has-room capacity m ((k, g) ∷ q) c = elim (Bool-cases (leb capacity (d.len m))) [
    | inl full ↦ rw full (evict-has-room capacity (sweep d m k g) q (sweep-IsCovered m k g q c))
    | inr room ↦ rw room (inl (ground arith))
  ]

  make_room-IsCovered :
      (s : InMemoryCcrStore M)
      → IsCovered s.map s.order
      → IsCovered (make_room d s).map (make_room d s).order
  unfolding make_room evict_until_under_capacity
  make_room-IsCovered s c = elim (Bool-cases (leb s.capacity (d.len s.map))) [
    | inl full ↦ rw full (evict-IsCovered s.capacity s.map s.order c)
    | inr room ↦ rw room c
  ]

  make_room-has-room :
      (s : InMemoryCcrStore M)
      → IsCovered s.map s.order
      → (d.len (make_room d s).map < s.capacity) ⊎ (d.len (make_room d s).map ≡ 0)
  unfolding make_room evict_until_under_capacity
  make_room-has-room s c = elim (Bool-cases (leb s.capacity (d.len s.map))) [
    | inl full ↦ rw full (evict-has-room s.capacity s.map s.order c)
    | inr room ↦ rw room (inl (ground arith))
  ]

  pub capacity-make_room : (s : InMemoryCcrStore M) → (make_room d s).capacity ≡ s.capacity
  unfolding make_room evict_until_under_capacity
  capacity-make_room s = ground arith

  insert_entry-IsCovered :
      (s : InMemoryCcrStore M) (k v : String) (now : ℕ)
      → IsCovered s.map s.order
      → IsCovered (insert_entry d s k v now).map (insert_entry d s k v now).order
  unfolding insert_entry
  insert_entry-IsCovered s k v now c = record {
    queued = λ j e h. elim (Option-cases (d.get s.map k)) [
      | inl miss ↦ ground (
        arith,
        miss,
        laws.get-insert s.map k j
            (record { payload = v; inserted = now; generation = s.next_generation }),
        c.queued j e,
        eq_iff k j,
        InQueue-append_left j e.generation s.order ((k, s.next_generation) ∷ []),
        InQueue-append_last k s.next_generation s.order,
      )
      | inr (old, hit) ↦ ground (
        arith,
        hit,
        laws.get-insert s.map k j (refresh d old v now),
        c.queued j e,
        c.queued k old,
        eq_iff k j,
      )
    ];
  }

  len-insert_entry-le :
      (s : InMemoryCcrStore M) (k v : String) (now : ℕ)
      → (d.len s.map < s.capacity) ⊎ (d.len s.map ≡ 0)
      → d.len (insert_entry d s k v now).map ≤ max s.capacity 1
  unfolding insert_entry
  len-insert_entry-le s k v now room = elim (Option-cases (d.get s.map k)) [
    | inl miss ↦ ground (
      arith,
      miss,
      room,
      laws.len-insert_new s.map k
          (record { payload = v; inserted = now; generation = s.next_generation }) miss,
    )
    | inr (old, hit) ↦
        ground (arith, hit, room, laws.len-insert_old s.map k (refresh d old v now) old hit)
  ]

  capacity-insert_entry :
      (s : InMemoryCcrStore M) (k v : String) (now : ℕ)
      → (insert_entry d s k v now).capacity ≡ s.capacity
  unfolding insert_entry
  capacity-insert_entry s k v now = ground arith

  pub capacity-put :
      (s : InMemoryCcrStore M) (k v : String) (now : ℕ) → (put d s k v now).capacity ≡ s.capacity
  unfolding put
  capacity-put s k v now =
      ground (arith, capacity-insert_entry (make_room d s) k v now, capacity-make_room s)

  put-IsCovered :
      (s : InMemoryCcrStore M) (k v : String) (now : ℕ)
      → IsCovered s.map s.order
      → IsCovered (put d s k v now).map (put d s k v now).order
  unfolding put
  put-IsCovered s k v now c = elim (Option-cases (d.get s.map k)) [
    | inl miss ↦
        rw (miss, put) (insert_entry-IsCovered (make_room d s) k v now (make_room-IsCovered s c))
    | inr (old, hit) ↦
        rw (hit, put)
          (record {
            queued = λ j e h. ground (
              arith,
              laws.get-insert s.map k j (refresh d old v now),
              c.queued j e,
              c.queued k old,
              eq_iff k j,
            );
          })
  ]

  len-put-le :
      (s : InMemoryCcrStore M) (k v : String) (now : ℕ)
      → IsValid s
      → d.len (put d s k v now).map ≤ max s.capacity 1
  unfolding put
  len-put-le s k v now h = elim (Option-cases (d.get s.map k)) [
    | inl miss ↦ ground (
      arith,
      miss,
      capacity-make_room s,
      len-insert_entry-le (make_room d s) k v now
          (rw capacity-make_room (make_room-has-room s h.covered)),
    )
    | inr (old, hit) ↦
        ground (arith, hit, h.bounded, laws.len-insert_old s.map k (refresh d old v now) old hit)
  ]

  pub put-IsValid :
      (s : InMemoryCcrStore M) (k v : String) (now : ℕ) → IsValid s → IsValid (put d s k v now)
  put-IsValid s k v now h = record {
    covered = put-IsCovered s k v now h.covered;
    bounded = rw capacity-put (len-put-le s k v now h);
  }

  pub capacity-get :
      (s : InMemoryCcrStore M) (k : String) (now now' : ℕ)
      → (get d s k now now').0.capacity ≡ s.capacity
  unfolding get
  capacity-get s k now now' = ground arith

  -- A read either leaves the store as it is or takes out the entry that it found expired.
  pub get-cases :
      (s : InMemoryCcrStore M) (k : String) (now now' : ℕ)
      → ((get d s k now now').0 ≡ s)
        ⊎ ((e : Entry) × (d.get s.map k ≡ some e)
            × ((get d s k now now').0 ≡ record s { map = d.remove s.map k }))
  unfolding get
  get-cases s k now now' = ground arith

  pub get-IsValid :
      (s : InMemoryCcrStore M) (k : String) (now now' : ℕ)
      → IsValid s
      → IsValid (get d s k now now').0
  get-IsValid s k now now' h = elim (get-cases s k now now') [
    | inl same ↦ rw same h
    | inr (e, hit, gone) ↦ rw gone (record {
      covered = record {
        queued = λ j e' p. ground (arith, laws.get-remove s.map k j, h.covered.queued j e');
      };
      bounded = omega (arith, laws.len-remove_hit s.map k e hit, h.bounded);
    })
  ]
