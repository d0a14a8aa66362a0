-- ===== src/Ccr/InMemory/Sessions.antt =====
-- Whole sessions on a store that began empty.
use lm_resizer.Base.{
  ℕ, ◌+◌, ◌^◌, ◌<◌, ◌≤◌, String, ◌≡◌, ◌≢◌, inl, inr, none, some, List, [], ◌∷◌, arith, length, refl,
  ◌∙◌, max,
}
use lm_resizer.Ccr.ShardMap.{ShardMap, Laws}
use lm_resizer.Ccr.InMemory.{
  Entry, InMemoryCcrStore, Call, put_call, get_call, with_capacity_and_ttl, make_room, insert_entry,
  evict_until_under_capacity, put, get, len, run,
}
use lm_resizer.Ccr.InMemory.Capacity.{
  IsValid, InQueue, put-IsValid, get-IsValid, capacity-put, capacity-get, get-cases,
}
use lm_resizer.Ccr.InMemory.Eviction.{IsOrdered, put-IsOrdered, put_evicts_oldest}

module _ {M : Type 0} (d : ShardMap Entry M) (laws : Laws d) where
  run-IsValid :
      (calls : List Call) (s : InMemoryCcrStore M)
      → IsValid d laws s
      → IsValid d laws (run d calls s) × ((run d calls s).capacity ≡ s.capacity)
  unfolding run
  run-IsValid [] s h = (h, refl)
  run-IsValid (put_call k v now ∷ calls) s h =
      let (valid, same) = run-IsValid calls (put d s k v now) (put-IsValid d laws s k v now h) in
      (valid, same ∙ capacity-put d laws s k v now)
  run-IsValid (get_call k now now' ∷ calls) s h =
      let (valid, same) =
        run-IsValid calls (get d s k now now').0 (get-IsValid d laws s k now now' h) in
      (valid, same ∙ capacity-get d laws s k now now')

  capacity-new : (capacity ttl : ℕ) → (with_capacity_and_ttl d capacity ttl).capacity ≡ capacity
  unfolding with_capacity_and_ttl
  capacity-new capacity ttl = refl

  new-IsValid : (capacity ttl : ℕ) → IsValid d laws (with_capacity_and_ttl d capacity ttl)
  unfolding with_capacity_and_ttl
  new-IsValid capacity ttl = record {
    covered = record { queued = λ k e h. cc (laws.get-empty k) };
    bounded = omega (arith, laws.len-of_none d.empty laws.get-empty);
  }

  -- Whatever one thread puts and gets, the store holds at most its capacity, or one entry where the
  -- capacity is 0.
  pub len-run-le :
      (capacity ttl : ℕ) (calls : List Call)
      → len d (run d calls (with_capacity_and_ttl d capacity ttl)) ≤ max capacity 1
  unfolding len
  len-run-le capacity ttl calls =
      let (valid, same) = run-IsValid calls _ (new-IsValid capacity ttl) in
      omega (arith, valid.bounded, same, capacity-new capacity ttl)

  -- After any session on an empty store, every entry of the map stands in the order queue under its
  -- own generation, so that a sweep can reach it.
  pub run-InQueue :
      (capacity ttl : ℕ) (calls : List Call) (k : String) (e : Entry)
      → d.get (run d calls (with_capacity_and_ttl d capacity ttl)).map k ≡ some e
      → InQueue k e.generation (run d calls (with_capacity_and_ttl d capacity ttl)).order
  run-InQueue capacity ttl calls k e here =
      (run-IsValid calls _ (new-IsValid capacity ttl)).0.covered.queued k e here

  next_generation-put :
      (s : InMemoryCcrStore M) (k v : String) (now : ℕ)
      → s.next_generation + 1 < 2 ^ 64
      → (put d s k v now).next_generation ≤ s.next_generation + 1
  unfolding put insert_entry make_room evict_until_under_capacity
  next_generation-put s k v now small = ground arith

  next_generation-get :
      (s : InMemoryCcrStore M) (k : String) (now now' : ℕ)
      → (get d s k now now').0.next_generation ≡ s.next_generation
  unfolding get
  next_generation-get s k now now' = ground arith

  get-IsOrdered :
      (s : InMemoryCcrStore M) (k : String) (now now' : ℕ)
      → IsOrdered s
      → IsOrdered (get d s k now now').0
  unfolding get
  get-IsOrdered s k now now' o = elim (get-cases d laws s k now now') [
    | inl same ↦ rw same o
    | inr (e, hit, gone) ↦ rw gone (record { ascending = o.ascending; issued = o.issued })
  ]

  run-IsOrdered :
      (calls : List Call) (s : InMemoryCcrStore M)
      → s.next_generation + length calls < 2 ^ 64
      → IsOrdered s
      → IsOrdered (run d calls s)
  unfolding run
  run-IsOrdered [] s small o = o
  run-IsOrdered (put_call k v now ∷ calls) s small o =
      run-IsOrdered calls (put d s k v now)
        (omega (arith, next_generation-put s k v now (omega arith)))
        (put-IsOrdered d laws s k v now (omega arith) o)
  run-IsOrdered (get_call k now now' ∷ calls) s small o =
      run-IsOrdered calls (get d s k now now').0
        ((rw (next_generation-get s k now now') (omega arith))) (get-IsOrdered s k now now' o)

  new-IsOrdered : (capacity ttl : ℕ) → IsOrdered (with_capacity_and_ttl d capacity ttl)
  unfolding with_capacity_and_ttl
  new-IsOrdered capacity ttl = record { ascending = tt; issued = tt }

  next_generation-new :
      (capacity ttl : ℕ) → (with_capacity_and_ttl d capacity ttl).next_generation ≡ 0
  unfolding with_capacity_and_ttl
  next_generation-new capacity ttl = refl

  -- Eviction is first in, first out in every session of fewer than 2 ^ 64 calls: an entry that a
  -- `put` of another key takes out of the store was inserted before every entry that it leaves in.
  pub session_evicts_oldest :
      (capacity ttl : ℕ) (calls : List Call) (k v : String) (now : ℕ) (j i : String) (e f : Entry)
      → length calls < 2 ^ 64
      → k ≢ j
      → k ≢ i
      → d.get (run d calls (with_capacity_and_ttl d capacity ttl)).map j ≡ some e
      → d.get (put d (run d calls (with_capacity_and_ttl d capacity ttl)) k v now).map j ≡ none
      → d.get (put d (run d calls (with_capacity_and_ttl d capacity ttl)) k v now).map i ≡ some f
      → e.generation < f.generation
  session_evicts_oldest capacity ttl calls k v now j i e f small nj ni =
      let s = with_capacity_and_ttl d capacity ttl in
      put_evicts_oldest d laws (run d calls s) k v now j i e f
        (run-IsOrdered calls s (rw (next_generation-new capacity ttl) (omega arith))
          (new-IsOrdered capacity ttl))
        (run-IsValid calls s (new-IsValid capacity ttl)).0.covered nj ni
