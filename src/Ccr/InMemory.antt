-- ===== src/Ccr/InMemory.antt =====
-- crates/lm-resizer-core/src/ccr/backends/in_memory.rs, called by one thread at a time.
-- Times are ticks of the monotonic clock, taken as arguments; the generation counter wraps at 64 bits.
pub mod Capacity
pub mod Reads
pub mod Eviction
pub mod Growth
pub mod Sessions
use lm_resizer.Base.{
  ℕ, ◌+◌, ◌-◌, ◌%◌, ◌^◌, String, Bool, true, false, Option, none, some, List, [], ◌∷◌, ◌++◌, ltb,
  leb, ◌==◌, if◌then◌else◌, is_some,
}
use lm_resizer.Ccr.ShardMap.{ShardMap}

pub record Entry : Type 0 where
  pub payload : String
  pub inserted : ℕ
  pub generation : ℕ

abbrev pub Queue : Type 0
Queue = List (String × ℕ)

pub record InMemoryCcrStore (M : Type 0) : Type 0 where
  pub map : M
  pub order : Queue
  pub ttl : ℕ
  pub capacity : ℕ
  pub next_generation : ℕ

-- `inserted.elapsed()` at the time `now`.
abbrev pub elapsed : Entry → ℕ → ℕ
elapsed e now = now - e.inserted

-- A call of the trait's operations, with the clock readings that it makes.
pub data Call : Type 0 where
  put_call : String → String → ℕ → Call
  get_call : String → ℕ → ℕ → Call

module _ {M : Type 0} (d : ShardMap Entry M) where
  unfoldable pub with_capacity_and_ttl : ℕ → ℕ → InMemoryCcrStore M
  with_capacity_and_ttl capacity ttl = record {
    map = d.empty;
    order = [];
    ttl = ttl;
    capacity = capacity;
    next_generation = 0;
  }

  -- `DashMap::remove_if`: the map afterwards, and whether an entry was removed.
  abbrev pub remove_if : M → String → (Entry → Bool) → M × Bool
  remove_if m k p = elim (d.get m k) [
    | none ↦ (m, false)
    | some e ↦ if p e then (d.remove m k, true) else (m, false)
  ]

  -- One `remove_if` of the sweep.
  abbrev pub sweep : M → String → ℕ → M
  sweep m oldest gen = (remove_if m oldest (λ e. e.generation == gen)).0

  -- The loop of `evict_until_under_capacity` over the queue; it breaks on an empty queue.
  unfoldable pub evict : ℕ → M → Queue → M × Queue
  evict capacity m [] = (m, [])
  evict capacity m ((oldest, gen) ∷ q) =
      let rest = evict capacity (sweep m oldest gen) q in
      if leb capacity (d.len m) then rest else (m, (oldest, gen) ∷ q)

  unfoldable pub evict_until_under_capacity : InMemoryCcrStore M → InMemoryCcrStore M
  evict_until_under_capacity s =
      let (m, q) = evict s.capacity s.map s.order in record s { map = m; order = q }

  unfoldable pub make_room : InMemoryCcrStore M → InMemoryCcrStore M
  make_room s = if leb s.capacity (d.len s.map) then evict_until_under_capacity s else s

  -- An entry whose payload and time are written anew, under its old generation.
  abbrev pub refresh : Entry → String → ℕ → Entry
  refresh e payload now = record e { payload = payload; inserted = now }

  -- The `entry` match of `put`: occupied, or vacant.
  unfoldable pub insert_entry : InMemoryCcrStore M → String → String → ℕ → InMemoryCcrStore M
  insert_entry s hash payload now = elim (d.get s.map hash) [
    | some existing ↦ record s { map = d.insert s.map hash (refresh existing payload now) }
    | none ↦
        let gen = s.next_generation in
        record s {
          map =
              d.insert s.map hash (record { payload = payload; inserted = now; generation = gen });
          order = s.order ++ (hash, gen) ∷ [];
          next_generation = (gen + 1) % 2 ^ 64;
        }
  ]

  unfoldable pub put : InMemoryCcrStore M → String → String → ℕ → InMemoryCcrStore M
  put s hash payload now = elim (d.get s.map hash) [
    | some existing ↦ record s { map = d.insert s.map hash (refresh existing payload now) }
    | none ↦ insert_entry (make_room s) hash payload now
  ]

  -- The two times are those of the read under the read lock and of the re-check in `remove_if`.
  unfoldable pub get : InMemoryCcrStore M → String → ℕ → ℕ → InMemoryCcrStore M × Option String
  get s hash now now' = elim (d.get s.map hash) [
    | none ↦ (s, none)
    | some entry ↦
        if leb (elapsed entry now) s.ttl
        then (s, some entry.payload)
        else let (m, was_removed) = remove_if s.map hash (λ e. ltb s.ttl (elapsed e now')) in
          if was_removed
          then (record s { map = m }, none)
          else (record s { map = m }, elim (d.get m hash) [ none ↦ none | some e ↦ some e.payload ])
  ]

  unfoldable pub len : InMemoryCcrStore M → ℕ
  len s = d.len s.map

  -- What one thread does with the store, call by call.
  unfoldable pub run : List Call → InMemoryCcrStore M → InMemoryCcrStore M
  run [] s = s
  run (put_call hash payload now ∷ calls) s = run calls (put s hash payload now)
  run (get_call hash now now' ∷ calls) s = run calls (get s hash now now').0
