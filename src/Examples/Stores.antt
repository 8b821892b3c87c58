-- ===== src/Examples/Stores.antt =====
-- The store and the shards on a few keys.
use torua.Shard.Snapshot.{
  Part, counts_get, counts_put, stores, get_stats_beside, get_stats_beside_lem,
}
use torua.Shard.Interleaved.{
  Turn, puts, deletes_next, no_put, run_range, others, only_own, delete_range_interleaved,
}
use torua.Base.{
  ◌≡◌, ◌&&◌, refl, Str, [], ◌∷◌, none, true, ascii, pos, length, keep, contains, str_eq, int_eq,
  arith, put, ◌≤◌, false, List, str_beq, str_lt, ◌<◌, ◌^◌, not,
}
use torua.Storage.{
  MemoryStore, failed, key_not_found, is_found, memory_store, new_memory_store, memory_put,
  memory_get, memory_delete, memory_list, memory_stats,
}
use torua.Storage.Laws.{memory_laws, IsValid}
use torua.Storage.Refinement.{get_call, put_call, answers, spec_answers, answers-refine}
use torua.Shard.{
  Shard, new_shard, key_in_range, list_keys_in_range, delete_range, sort_strings, insert_sorted,
  get_stats,
}
use torua.Shard.Range.{list_keys_in_range_lem, IsSorted}
use torua.Shard.Counts.{run, get_op, counters_lem, IsBounded}

abbrev stored_b : MemoryStore
stored_b = (memory_put new_memory_store (ascii "b") (ascii "12")).0

abbrev stored_ab : MemoryStore
stored_ab = (memory_put stored_b (ascii "a") (ascii "3")).0

new_memory_store-IsValid : IsValid new_memory_store
unfolding new_memory_store
new_memory_store-IsValid = tt

answers-refine_example :
    answers new_memory_store (put_call (ascii "k") (ascii "v") ∷ get_call (ascii "k") ∷ [])
    ≡ spec_answers (λ k. none) (put_call (ascii "k") (ascii "v") ∷ get_call (ascii "k") ∷ [])
answers-refine_example =
    answers-refine (put_call (ascii "k") (ascii "v") ∷ get_call (ascii "k") ∷ [])

abbrev shard_ab : Shard MemoryStore
shard_ab = new_shard memory_store stored_ab (pos 1) true

list_keys_in_range_lem_example :
    IsSorted (list_keys_in_range memory_store shard_ab (ascii "a") (ascii "c"))
    × ((k : Str)
        → contains (list_keys_in_range memory_store shard_ab (ascii "a") (ascii "c")) k ≡ (
            not (str_lt k (ascii "a"))
            && str_lt k (ascii "c")
            && is_found (memory_get shard_ab.store k)))
list_keys_in_range_lem_example =
    list_keys_in_range_lem memory_store memory_laws shard_ab (ascii "a") (ascii "c")

memory_delete_total : (s : MemoryStore) (k : Str) → (memory_delete s k).1 ≡ none
unfolding memory_delete
memory_delete_total s k = refl

memory_put_total : (s : MemoryStore) (k v : Str) → (memory_put s k v).1 ≡ none
unfolding memory_put
memory_put_total s k v = refl

-- Key "aa" is stored and key "b" is changed before the loop deletes key "a".
abbrev meanwhile : List Turn
meanwhile = puts (ascii "aa") (ascii "9") ∷ puts (ascii "b") (ascii "8") ∷ deletes_next ∷ []

abbrev listed_a : List Str
listed_a = list_keys_in_range memory_store shard_ab (ascii "a") (ascii "b")

one_listed : length listed_a ≤ 1
unfolding list_keys_in_range new_shard new_memory_store memory_put put memory_list str_beq keep
    key_in_range sort_strings insert_sorted str_lt
one_listed = omega arith

delete_range_interleaved_example :
    ((j : Str)
      → (key_in_range (ascii "a") (ascii "b") j && is_found (memory_get shard_ab.store j)) ≡ true
      → no_put j meanwhile ≡ true
      → memory_get (run_range memory_store shard_ab listed_a meanwhile).0.store j
        ≡ failed key_not_found)
    × ((j : Str)
        → (key_in_range (ascii "a") (ascii "b") j && is_found (memory_get shard_ab.store j)) ≡ false
        → memory_get (run_range memory_store shard_ab listed_a meanwhile).0.store j
          ≡ memory_get (others memory_store shard_ab meanwhile).store j)
    × ((delete_range memory_store shard_ab (ascii "a") (ascii "b")).1 ≡ length listed_a)
    × ((delete_range memory_store shard_ab (ascii "a") (ascii "b")).0
        ≡ (run_range memory_store shard_ab listed_a (only_own listed_a)).0)
delete_range_interleaved_example =
    delete_range_interleaved memory_store memory_laws memory_put_total memory_delete_total shard_ab
      (ascii "a") (ascii "b") meanwhile one_listed

counters_lem_example :
    IsBounded memory_store
      (run memory_store shard_ab (get_op (ascii "a") ∷ get_op (ascii "z") ∷ []))
    × ((run memory_store shard_ab (get_op (ascii "a") ∷ get_op (ascii "z") ∷ [])).stats.ops.gets
        ≡ 2)
    × ((run memory_store shard_ab (get_op (ascii "a") ∷ get_op (ascii "z") ∷ [])).stats.ops.puts
        ≡ 0)
    × ((run memory_store shard_ab (get_op (ascii "a") ∷ get_op (ascii "z") ∷ [])).stats.ops.deletes
        ≡ 0)
unfolding new_shard
counters_lem_example =
    counters_lem memory_store shard_ab (get_op (ascii "a") ∷ get_op (ascii "z") ∷ []) (omega arith)

-- Between the first load and the second someone gets a key and puts one: the statistics count the PUT
-- and not the GET before it, nor the key that it stored.
abbrev between : List Part
between = counts_get ∷ counts_put ∷ stores (ascii "c") (ascii "1") ∷ []

get_stats_beside_lem_example :
    (let (stats, t) = get_stats_beside memory_store shard_ab [] between [] in
      (stats.storage ≡ memory_stats shard_ab.store)
      × (stats.ops.gets ≡ 0)
      × (stats.ops.puts ≡ 1)
      × (stats.ops.deletes ≡ 0)
      × (1 < 2 ^ 64 → (0 ≤ stats.ops.gets) × (stats.ops.gets ≤ t.stats.ops.gets))
      × (1 < 2 ^ 64 → (0 ≤ stats.ops.puts) × (stats.ops.puts ≤ t.stats.ops.puts))
      × (0 < 2 ^ 64 → (0 ≤ stats.ops.deletes) × (stats.ops.deletes ≤ t.stats.ops.deletes))
      × ((get_stats_beside memory_store shard_ab [] [] []).0 ≡ get_stats memory_store shard_ab))
unfolding new_shard
get_stats_beside_lem_example =
    get_stats_beside_lem memory_store shard_ab [] between [] (omega arith)
