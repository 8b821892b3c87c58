-- ===== src/Examples/Concurrency.antt =====
-- Two requests at the same time.
use mathlib.Core.Path.{subst}
use mathlib.Core.List.{Mem, mem-cons_self, mem-cons_of_mem}
use torua.Node.Race.Cells.Parts.{all_answered}
use torua.Node.Race.Cells.Reads.{run_all-WasPut}
use torua.Node.Race.Cells.Runs.{IsRun, run_all-IsRun, empty_heap, not_begun}
use torua.Node.Race.Cells.{Cell}
use torua.Node.Race.Many.{run_all, advance_at}
use torua.Node.Race.Lost.{Turn, first, second, run_two, visible, lost_write}
use torua.Base.{
  ◌≡◌, refl, [], ◌∷◌, some, ascii, pos, get, int_eq, List, sym, has_prefix, trim_prefix, str_beq,
  put,
}
use torua.Storage.{failed, key_not_found, new_memory_store, memory_get, memory_put}
use torua.Shard.{new_shard, shard_get, shard_put}
use torua.Http.{put_method, get_method}
use torua.Node.{
  shard_operation, NodeReply, plain, store_operation, key_operation, handle_get, handle_put,
  get_reply, written_reply,
}
use torua.Node.Race.{Heap, Call, ready, done, advance, begin_operation, operate, empty_shard}

abbrev put_k : Call
put_k = record { id = pos 2; path = ascii "store/k"; method = put_method; body = some (ascii "v") }

abbrev get_k : Call
get_k = record { id = pos 2; path = ascii "store/k"; method = get_method; body = some [] }

abbrev no_shards : Heap
no_shards = record { cells = []; table = [] }

abbrev two_turns : List Turn
two_turns = first ∷ second ∷ first ∷ first ∷ first ∷ first ∷ first ∷ second ∷ []

lost_write_example :
    ((run_two put_k get_k two_turns no_shards ready ready).1.0
      ≡ done
          (shard_operation (empty_shard (pos 2)) (ascii "store/k") put_method (some (ascii "v"))).1)
    × (visible (run_two put_k get_k two_turns no_shards ready ready).0 (pos 2) (ascii "k")
        ≡ failed key_not_found)
unfolding get
lost_write_example = lost_write no_shards put_k get_k (ascii "k") refl refl

-- For another shard.
abbrev get_3 : Call
get_3 = record { id = pos 3; path = ascii "store/k"; method = get_method; body = some [] }

-- Three requests to a new node: two for shard 2, which each of them creates, and one for shard 3.
run_all-IsRun_example :
    (xs : List Cell) × IsRun
      (run_all empty_heap
        (not_begun (put_k ∷ get_k ∷ get_3 ∷ []))
        (0 ∷ 1 ∷ 2 ∷ 0 ∷ 0 ∷ 1 ∷ 2 ∷ 1 ∷ 2 ∷ [])).0
      (run_all empty_heap
        (not_begun (put_k ∷ get_k ∷ get_3 ∷ []))
        (0 ∷ 1 ∷ 2 ∷ 0 ∷ 0 ∷ 1 ∷ 2 ∷ 1 ∷ 2 ∷ [])).1
      xs
run_all-IsRun_example =
    run_all-IsRun (put_k ∷ get_k ∷ get_3 ∷ []) (0 ∷ 1 ∷ 2 ∷ 0 ∷ 0 ∷ 1 ∷ 2 ∷ 1 ∷ 2 ∷ [])

-- The GET finds the shard that the PUT has created, and reads behind it.
abbrev seen : List (Call × NodeReply)
seen =
    all_answered
      (run_all empty_heap (not_begun (put_k ∷ get_k ∷ [])) (0 ∷ 0 ∷ 1 ∷ 0 ∷ 0 ∷ 1 ∷ 1 ∷ [])).1

seen_lem : seen ≡ (put_k, plain 204 []) ∷ (get_k, plain 200 (ascii "v")) ∷ []
unfolding run_all advance_at advance begin_operation operate new_shard new_memory_store
    shard_operation store_operation key_operation handle_get handle_put shard_get shard_put
    memory_get memory_put get put has_prefix trim_prefix str_beq get_reply written_reply
seen_lem = refl

run_all-WasPut_example : Mem (put_k, plain 204 []) seen
run_all-WasPut_example =
    run_all-WasPut (pos 2) b'k' [] (ascii "v") (some []) (put_k ∷ get_k ∷ [])
      (0 ∷ 0 ∷ 1 ∷ 0 ∷ 0 ∷ 1 ∷ 1 ∷ [])
      (subst (Mem (get_k, plain 200 (ascii "v"))) (sym seen_lem) (mem-cons_of_mem _ mem-cons_self))
