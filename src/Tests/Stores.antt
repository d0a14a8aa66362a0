-- ===== src/Tests/Stores.antt =====
-- Sessions on crates/lm-resizer-core/src/ccr/backends/in_memory.rs over an association list.
use lm_resizer.Ccr.InMemory.{
  Entry, InMemoryCcrStore, Call, with_capacity_and_ttl, evict, evict_until_under_capacity,
  make_room, insert_entry, put, get, len, run, put_call,
}
use lm_resizer.Base.{
  eq_iff, false, ◌<◌, ◌≤◌, String, ◌≡◌, ◌≢◌, refl, none, some, List, [], ◌∷◌, inr, arith,
  if◌then◌else◌,
}
use text.Mathlib.Text.{◌==◌ as str_eq}
use lm_resizer.Ccr.ShardMap.{assoc, assoc-Laws}
use lm_resizer.Ccr.InMemory.Capacity.{InQueue}
use lm_resizer.Ccr.InMemory.Reads.{get_lem, get-put_self, get-put_ne}
use lm_resizer.Ccr.InMemory.Sessions.{len-run-le, run-InQueue, session_evicts_oldest}

different : (k j : String) → str_eq k j ≡ false → k ≢ j
different k j apart same = ground (arith, eq_iff k j)

abbrev Store : Type 0
Store = InMemoryCcrStore (List (String × Entry))

abbrev fresh : Store
fresh = record { map = []; order = []; ttl = 300; capacity = 2; next_generation = 0 }

abbrev three_puts : List Call
three_puts = put_call "a" "one" 10 ∷ put_call "b" "two" 20 ∷ put_call "c" "three" 30 ∷ []

abbrev first_entry : Entry
first_entry = record { payload = "one"; inserted = 10; generation = 0 }

abbrev second_entry : Entry
second_entry = record { payload = "two"; inserted = 20; generation = 1 }

-- The third key evicts the first.
first_evicted : (get assoc (run assoc three_puts fresh) "a" 40 40).1 ≡ none
unfolding run put get make_room evict_until_under_capacity evict insert_entry
first_evicted = refl

second_stays : (get assoc (run assoc three_puts fresh) "b" 40 40).1 ≡ some "two"
unfolding run put get make_room evict_until_under_capacity evict insert_entry
second_stays = refl

-- An entry older than the lifetime is dropped at the read.
old_expires : (get assoc (run assoc three_puts fresh) "b" 321 321).1 ≡ none
unfolding run put get make_room evict_until_under_capacity evict insert_entry
old_expires = refl

len-run-le_example : len assoc (run assoc three_puts (with_capacity_and_ttl assoc 2 300)) ≤ 2
len-run-le_example = len-run-le assoc assoc-Laws 2 300 three_puts

run-InQueue_example : InQueue "b" 1 (run assoc three_puts (with_capacity_and_ttl assoc 2 300)).order
unfolding run put get make_room evict_until_under_capacity evict insert_entry with_capacity_and_ttl
run-InQueue_example = run-InQueue assoc assoc-Laws 2 300 three_puts "b" second_entry refl

abbrev two_puts : List Call
two_puts = put_call "a" "one" 10 ∷ put_call "b" "two" 20 ∷ []

session_evicts_oldest_example : first_entry.generation < second_entry.generation
unfolding run put get make_room evict_until_under_capacity evict insert_entry with_capacity_and_ttl
session_evicts_oldest_example =
    session_evicts_oldest assoc assoc-Laws 2 300 two_puts "c" "three" 30 "a" "b" first_entry
      second_entry (omega arith) (different "c" "a" refl) (different "c" "b" refl) refl refl refl

get-put_self_example : (get assoc (put assoc fresh "a" "one" 10) "a" 300 300).1 ≡ some "one"
get-put_self_example =
    get-put_self assoc assoc-Laws fresh "a" "one" 10 300 300 (omega arith) (omega arith)

get-put_ne_example : (assoc {V = Entry}).get (put assoc fresh "a" "one" 10).map "b" ≡ none
get-put_ne_example =
    get-put_ne assoc assoc-Laws fresh "a" "b" "one" 10 (inr (omega arith)) (different "a" "b" refl)

get_lem_example :
    ((get assoc (record fresh { map = ("a", first_entry) ∷ [] }) "a" 311 312).1 ≡ none)
    × ((get assoc (record fresh { map = ("a", first_entry) ∷ [] }) "a" 311 312).0.order ≡ [])
    × ((j : String)
        → (assoc {V = Entry}).get
            (get assoc (record fresh { map = ("a", first_entry) ∷ [] }) "a" 311 312).0.map
            j
          ≡ (if str_eq "a" j then none else (assoc {V = Entry}).get (("a", first_entry) ∷ []) j))
get_lem_example =
    get_lem assoc assoc-Laws (record fresh { map = ("a", first_entry) ∷ [] }) "a" 311 312
      (omega arith)
