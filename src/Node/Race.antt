-- ===== src/Node/Race.antt =====
-- `handleShardRequest` of cmd/node/main.go in its parts, for requests that run at the same time.
-- Shards are cells of a heap, and the node's map holds pointers to them. GetShard and AddShard take
-- the node's lock, each for itself. Get, Put and Delete of a shard (internal/shard/shard.go) add to
-- their counter first, and go to the store, which has a lock of its own, in a part of their own;
-- GetStats asks the store and then loads the three counters one by one.
pub mod Effects
pub mod Many
pub mod Cells
pub mod Lost
use torua.Base.{
  ℕ, zero, suc, Str, List, [], ◌∷◌, ◌++◌, Option, none, some, Bool, true, false, ◌&&◌, length,
  get_elem?, Map, get, put, ℤ, int_eq, set, if◌then◌else◌, ◌==◌, str_eq, ascii,
}
use torua.Storage.{StoreStats, memory_store, new_memory_store, memory_stats}
use torua.Shard.{new_shard, OperationStats}
use torua.Http.{Method, get_method}
use torua.Node.{MemoryShard, NodeReply, shard_operation, stats_reply}

pub record Heap : Type 0 where
  pub cells : List MemoryShard
  pub table : Map ℤ ℕ

-- How far a request is: before GetShard; after it has found nothing; with a pointer to a shard; with
-- its operation counted; in GetStats, with the store's statistics, then the gets, then the puts; or
-- answered.
pub data Phase : Type 0 where
  ready missed : Phase
  holds counted : ℕ → Phase
  sized : ℕ → StoreStats → Phase
  loaded_gets : ℕ → StoreStats → ℕ → Phase
  loaded_puts : ℕ → StoreStats → ℕ → ℕ → Phase
  done : NodeReply → Phase

pub record Call : Type 0 where
  pub id : ℤ
  pub path : Str
  pub method : Method
  pub body : Option Str

abbrev pub looked : Option ℕ → Phase
looked none = missed
looked (some p) = holds p

abbrev pub empty_shard : ℤ → MemoryShard
empty_shard id = new_shard memory_store new_memory_store id true

-- `shard.NewShard` and `node.AddShard`
pub create : Heap → ℤ → Heap
create h id = record {
  cells = h.cells ++ empty_shard id ∷ [];
  table = put h.table id (length h.cells);
}

abbrev pub is_get : Method → Bool
is_get get_method = true
is_get _ = false

-- Does the request get to `handleShardStats`?
abbrev pub is_stats : Call → Bool
is_stats c = c.path == ascii "stats" && is_get c.method

-- The whole operation on a shard, as it is with no other beside it.
abbrev pub perform : Call → MemoryShard → MemoryShard × NodeReply
perform c s = shard_operation s c.path c.method c.body

-- Its part on the counters: `atomic.AddUint64` for a Get, a Put or a Delete, and nothing for others.
abbrev pub count : Call → MemoryShard → MemoryShard
count c s = record s { stats = (perform c s).0.stats }

-- Its part on the store, with the answer.
abbrev pub act : Call → MemoryShard → MemoryShard × NodeReply
act c s = (record (perform c s).0 { stats = s.stats }, (perform c s).1)

-- The first part on the shard that the request holds: `s.Store.Stats()`, or the counter.
unfoldable pub begin_operation : Heap → ℕ → Call → Option MemoryShard → Heap × Phase
begin_operation h p c none = (h, holds p)
begin_operation h p c (some s) =
    if is_stats c
    then (h, sized p (memory_stats s.store))
    else (record h { cells = set h.cells p (count c s) }, counted p)

-- The call of the store.
unfoldable pub operate : Heap → ℕ → Call → Option MemoryShard → Heap × Phase
operate h p c none = (h, counted p)
operate h p c (some s) =
    let (s', answer) = act c s in (record h { cells = set h.cells p s' }, done answer)

-- The three loads of GetStats, and the answer with what they give.
unfoldable pub load_gets : ℕ → StoreStats → Option MemoryShard → Phase
load_gets p size none = sized p size
load_gets p size (some s) = loaded_gets p size s.stats.ops.gets

unfoldable pub load_puts : ℕ → StoreStats → ℕ → Option MemoryShard → Phase
load_puts p size gets none = loaded_gets p size gets
load_puts p size gets (some s) = loaded_puts p size gets s.stats.ops.puts

unfoldable pub load_deletes : ℕ → StoreStats → ℕ → ℕ → Option MemoryShard → Phase
load_deletes p size gets puts none = loaded_puts p size gets puts
load_deletes p size gets puts (some s) = done (
    stats_reply s.id (record { gets = gets; puts = puts; deletes = s.stats.ops.deletes }) size.keys
      size.bytes)

-- The next part of a request.
unfoldable pub advance : Heap → Call → Phase → Heap × Phase
unfolding create begin_operation operate load_gets load_puts load_deletes
advance h c ready = (h, looked (get h.table c.id))
advance h c missed = (create h c.id, holds (length h.cells))
advance h c (holds p) = begin_operation h p c (get_elem? h.cells p)
advance h c (counted p) = operate h p c (get_elem? h.cells p)
advance h c (sized p size) = (h, load_gets p size (get_elem? h.cells p))
advance h c (loaded_gets p size gets) = (h, load_puts p size gets (get_elem? h.cells p))
advance h c (loaded_puts p size gets puts) =
    (h, load_deletes p size gets puts (get_elem? h.cells p))
advance h c (done answer) = (h, done answer)
