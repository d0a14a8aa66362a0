-- ===== src/Ccr/InMemory/Reads.antt =====
-- What a reader of the in-memory store sees after a write, and when an entry expires.
use lm_resizer.Base.{
  ℕ, ◌-◌, ◌≤◌, ◌<◌, String, ◌≡◌, ◌≢◌, ◌⊎◌, inl, inr, true, Option, none, some, arith, ◌∙◌, eq_iff,
  Option-cases, leb, if◌then◌else◌, is_some,
}
use text.Mathlib.Text.{◌==◌ as str_eq}
use text.Mathlib.TextPositions.{eq_refl}
use lm_resizer.Ccr.ShardMap.{ShardMap, Laws}
use lm_resizer.Ccr.InMemory.{
  Entry, InMemoryCcrStore, evict_until_under_capacity, make_room, refresh, insert_entry, put, get,
}

-- What a read at `now` sees of an entry.
abbrev pub live : ℕ → ℕ → Option Entry → Option String
live ttl now none = none
live ttl now (some e) = if leb (now - e.inserted) ttl then some e.payload else none

module _ {M : Type 0} (d : ShardMap Entry M) (laws : Laws d) where
  -- A read whose second clock reading is not before the first returns the payload of an entry
  -- that is at most `ttl` old, and nothing else; it drops the entry that it found expired, and
  -- leaves all others and the queue alone.
  pub get_lem :
      (s : InMemoryCcrStore M) (k : String) (now now' : ℕ)
      → now ≤ now'
      → ((get d s k now now').1 ≡ live s.ttl now (d.get s.map k))
        × ((get d s k now now').0.order ≡ s.order)
        × ((j : String)
            → d.get (get d s k now now').0.map j ≡ (
                if str_eq k j
                then (if is_some (live s.ttl now (d.get s.map k)) then d.get s.map k else none)
                else d.get s.map j))
  unfolding get
  get_lem s k now now' h =
      (ground arith, ground arith, λ j. ground (arith, laws.get-remove s.map k j, eq_iff k j))

  -- A read is under the same key or under another.
  pub get-insert_self : (m : M) (k : String) (e : Entry) → d.get (d.insert m k e) k ≡ some e
  get-insert_self m k e = ground (arith, laws.get-insert m k k e, eq_refl k)

  pub get-insert_ne :
      (m : M) (k j : String) (e : Entry) → k ≢ j → d.get (d.insert m k e) j ≡ d.get m j
  get-insert_ne m k j e h = ground (arith, laws.get-insert m k j e, eq_iff k j)

  live-insert_entry :
      (s : InMemoryCcrStore M) (k v : String) (at now ttl : ℕ)
      → now - at ≤ ttl
      → live ttl now (d.get (insert_entry d s k v at).map k) ≡ some v
  unfolding insert_entry
  live-insert_entry s k v at now ttl h = elim (Option-cases (d.get s.map k)) [
    | inl miss ↦
        let e : Entry = record { payload = v; inserted = at; generation = s.next_generation } in
        rw (miss, insert_entry) (rw (get-insert_self s.map k e) (ground arith))
    | inr (old, hit) ↦
        rw (hit, insert_entry) (rw (get-insert_self s.map k (refresh d old v at)) (ground arith))
  ]

  ttl-put : (s : InMemoryCcrStore M) (k v : String) (at : ℕ) → (put d s k v at).ttl ≡ s.ttl
  unfolding put insert_entry make_room evict_until_under_capacity
  ttl-put s k v at = ground arith

  live-put :
      (s : InMemoryCcrStore M) (k v : String) (at now : ℕ)
      → now - at ≤ s.ttl
      → live s.ttl now (d.get (put d s k v at).map k) ≡ some v
  unfolding put
  live-put s k v at now h = elim (Option-cases (d.get s.map k)) [
    | inl miss ↦ rw (miss, put) (live-insert_entry (make_room d s) k v at now s.ttl h)
    | inr (old, hit) ↦
        rw (hit, put) (rw (get-insert_self s.map k (refresh d old v at)) (ground arith))
  ]

  -- The payload that `put` wrote is what `get` returns, whatever was evicted to make room and
  -- whatever stood under the key, as long as the entry is at most `ttl` old at the read.
  pub get-put_self :
      (s : InMemoryCcrStore M) (k v : String) (at now now' : ℕ)
      → now - at ≤ s.ttl
      → now ≤ now'
      → (get d (put d s k v at) k now now').1 ≡ some v
  get-put_self s k v at now now' fresh later =
      (get_lem (put d s k v at) k now now' later).0
      ∙ rw (ttl-put s k v at) (live-put s k v at now fresh)

  -- Where the key is already stored, or the store has room, `put` leaves every other entry alone.
  pub get-put_ne :
      (s : InMemoryCcrStore M) (k j v : String) (at : ℕ)
      → (is_some (d.get s.map k) ≡ true) ⊎ (d.len s.map < s.capacity)
      → k ≢ j
      → d.get (put d s k v at).map j ≡ d.get s.map j
  unfolding put make_room insert_entry
  get-put_ne s k j v at room ne = elim (Option-cases (d.get s.map k)) [
    | inl miss ↦
        let e : Entry = record { payload = v; inserted = at; generation = s.next_generation } in
        ground (arith, miss, get-insert_ne s.map k j e ne)
    | inr (old, hit) ↦ ground (arith, hit, get-insert_ne s.map k j (refresh d old v at) ne)
  ]
