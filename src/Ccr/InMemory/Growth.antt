-- ===== src/Ccr/InMemory/Growth.antt =====
-- The order queue of the in-memory store is trimmed only by a sweep at capacity.
use lm_resizer.Base.{ℕ, zero, suc, ◌<◌, String, ◌≡◌, none, List, [], ◌∷◌, length}
use lm_resizer.Ccr.ShardMap.{ShardMap, Laws}
use lm_resizer.Ccr.InMemory.{Entry, InMemoryCcrStore, Call, put_call, get_call, get, len}

-- A session that stores one text again and again, and each time reads it when it has expired.
abbrev pub rounds : ℕ → String → String → ℕ → ℕ → List Call
rounds zero k v at now = []
rounds (suc n) k v at now = put_call k v at ∷ get_call k now now ∷ rounds n k v at now

module _ {M : Type 0} (d : ShardMap Entry M) (laws : Laws d) (k v : String) (at now : ℕ) where
  record IsIdle (s : InMemoryCcrStore M) (ttl n : ℕ) : Type 0 where
    absent : d.get s.map k ≡ none
    hollow : d.len s.map ≡ 0
    has_room : 0 < s.capacity
    lifetime : s.ttl ≡ ttl
    queued : length s.order ≡ n

  abbrev stored : InMemoryCcrStore M → Entry
  stored s = record { payload = v; inserted = at; generation = s.next_generation }
