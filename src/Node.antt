-- ===== src/Node.antt =====
-- cmd/node/main.go: a node's shards and its endpoints. A handler that runs alone is one function
-- from the node to the node and the reply. A shard is reached through a pointer in the map, so a
-- change is written back.
pub mod Path
pub mod Endpoints
pub mod Session
pub mod Serve
pub mod Mismatch
pub mod Race
pub mod Startup
pub mod Process
use torua.Base.{
  ℕ, suc, ◌+◌, Str, List, [], ◌∷◌, Option, none, some, Bool, true, false, length, take, drop, Map,
  get, put, ℤ, atoi, ascii, has_prefix, trim_prefix, index_byte, if◌then◌else◌, ◌==◌, str_eq,
  int_eq, ◌||◌,
}
use torua.Storage.{
  MemoryStore, memory_store, new_memory_store, StoreError, Lookup, found, failed, key_not_found,
  backend_error,
}
use torua.Shard.{
  Shard, ShardInfo, OperationStats, new_shard, shard_get, shard_put, shard_delete, list_keys,
  get_stats, info,
}
use torua.Http.{Method, get_method, put_method, delete_method, post_method, other, Request}

abbrev pub MemoryShard : Type 0
MemoryShard = Shard MemoryStore

pub record Node : Type 0 where
  pub shards : Map ℤ MemoryShard
  pub id : Str

-- What a handler writes: a status with a text, or one of the three JSON answers.
pub data NodeReply : Type 0 where
  plain : ℕ → Str → NodeReply
  keys_reply : List Str → ℕ → NodeReply
  stats_reply : ℤ → OperationStats → ℕ → ℕ → NodeReply
  info_reply : Str → List ShardInfo → ℕ → NodeReply

unfoldable pub new_node : Str → Node
new_node id = record { shards = []; id = id }

unfoldable pub add_shard : Node → MemoryShard → Node
add_shard n s = record n { shards = put n.shards s.id s }

unfoldable pub node_get_shard : Node → ℤ → Option MemoryShard
node_get_shard n id = get n.shards id

error_text : StoreError → Str
error_text key_not_found = ascii "key not found"
error_text (backend_error e) = e

unfoldable pub get_reply : Lookup → NodeReply
unfolding error_text
get_reply (found value) = plain 200 value
get_reply (failed e) =
    if error_text e == ascii "key not found"
    then plain 404 (ascii "key not found")
    else plain 500 (error_text e)

unfoldable pub handle_get : MemoryShard → Str → MemoryShard × NodeReply
unfolding get_reply
handle_get s key = let (s', r) = shard_get memory_store s key in (s', get_reply r)

unfoldable pub written_reply : Option StoreError → NodeReply
unfolding error_text
written_reply none = plain 204 []
written_reply (some e) = plain 500 (error_text e)

unfoldable pub handle_put : MemoryShard → Str → Option Str → MemoryShard × NodeReply
unfolding written_reply
handle_put s key none = (s, plain 400 (ascii "failed to read body"))
handle_put s key (some body) =
    let (s', e) = shard_put memory_store s key body in (s', written_reply e)

unfoldable pub handle_delete : MemoryShard → Str → MemoryShard × NodeReply
unfolding written_reply
handle_delete s key = let (s', e) = shard_delete memory_store s key in (s', written_reply e)

unfoldable pub handle_list_keys : MemoryShard → NodeReply
handle_list_keys s = let keys = list_keys memory_store s in keys_reply keys (length keys)

unfoldable pub handle_shard_stats : MemoryShard → NodeReply
handle_shard_stats s =
    let stats = get_stats memory_store s in
    stats_reply s.id stats.ops stats.storage.keys stats.storage.bytes

infos : Map ℤ MemoryShard → List ShardInfo
infos [] = []
infos ((id, s) ∷ m) = info memory_store s ∷ infos m

unfoldable pub handle_node_info : Node → NodeReply
unfolding infos
handle_node_info n = let l = infos n.shards in info_reply n.id l (length l)

unfoldable pub handle_control : Option Str → NodeReply
handle_control none = plain 400 (ascii "read error")
handle_control (some body) = plain 204 []

abbrev pub not_found : NodeReply
not_found = plain 404 (ascii "not found")

-- `switch r.Method` on a key.
unfoldable pub key_operation : MemoryShard → Str → Method → Option Str → MemoryShard × NodeReply
unfolding handle_get handle_put handle_delete
key_operation s key get_method body = handle_get s key
key_operation s key put_method body = handle_put s key body
key_operation s key delete_method body = handle_delete s key
key_operation s key _ body = (s, plain 405 (ascii "method not allowed"))

abbrev pub only_get : Method → NodeReply → NodeReply
only_get get_method answer = answer
only_get _ answer = not_found

-- What follows "store" in the path.
unfoldable pub store_operation : MemoryShard → Str → Method → Option Str → MemoryShard × NodeReply
store_operation s store_path method body =
    if store_path == [] || store_path == ascii "/"
    then (s, only_get method (handle_list_keys s))
    else if has_prefix store_path (ascii "/")
    then key_operation s (trim_prefix store_path (ascii "/")) method body
    else (s, not_found)

-- What follows the shard's number in the path.
unfoldable pub shard_operation : MemoryShard → Str → Method → Option Str → MemoryShard × NodeReply
shard_operation s rest method body =
    if has_prefix rest (ascii "store")
    then store_operation s (trim_prefix rest (ascii "store")) method body
    else if rest == ascii "stats"
    then (s, only_get method (handle_shard_stats s))
    else (s, not_found)

-- The shard with the number: the one of the map, or a new one, which is then in the map.
unfoldable pub find_or_create : Node → ℤ → Node × MemoryShard
unfolding add_shard node_get_shard new_shard new_memory_store
find_or_create n id = elim (node_get_shard n id) [
  | some s ↦ (n, s)
  | none ↦ let s = new_shard memory_store new_memory_store id true in (add_shard n s, s)
]

-- The request at a shard, with the shard written back under its number.
unfoldable pub at_shard : Node → ℤ → Str → Method → Option Str → Node × NodeReply
at_shard n id rest method body =
    let (n', s) = find_or_create n id in
    let (s', answer) = shard_operation s rest method body in
    (record n' { shards = put n'.shards id s' }, answer)

-- The path behind "/shard/".
unfoldable pub shard_path : Node → Str → Method → Option Str → Node × NodeReply
shard_path n path method body = elim (index_byte path b'/') [
  | none ↦ (n, plain 400 (ascii "invalid path format"))
  | some slash ↦ elim (atoi (take slash path)) [
    | none ↦ (n, plain 400 (ascii "invalid shard ID"))
    | some id ↦ at_shard n id (drop (suc slash) path) method body
  ]
]

unfoldable pub handle_shard_request : Node → Request → Node × NodeReply
handle_shard_request n r = shard_path n (trim_prefix r.path (ascii "/shard/")) r.method r.body
