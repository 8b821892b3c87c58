-- ===== src/Registry.antt =====
-- internal/coordinator/shard_registry.go: the assignment of shards to nodes. Each method holds the
-- registry's lock, so it is one step; copies of assignments are values.
pub mod Laws
pub mod Routing
pub mod Rebalance
pub mod Balance
pub mod View
pub mod Answers
pub mod Rebuilt
use torua.Base.{
  ℕ, zero, suc, ◌+◌, ◌%◌, Str, List, [], ◌∷◌, Option, none, some, Bool, true, false, not, length,
  get_elem?, Map, get, put, remove, ℤ, pos, in_range, rounds, if◌then◌else◌, ◌==◌, int_eq, str_eq,
  keep, show_int, ascii, ◌++◌,
}
use torua.Fnv.{sum32, go_rem}

pub record ShardAssignment : Type 0 where
  pub node_id : Str
  pub is_primary : Bool
  pub shard_id : ℤ

pub data RegistryError : Type 0 where
  invalid_shard_id : ℤ → ℤ → RegistryError
  empty_node_id : RegistryError
  not_assigned : ℤ → RegistryError
  no_nodes : RegistryError
  -- not an error value but Go's panic on a division by zero
  division_by_zero : RegistryError

-- `err.Error()`
unfoldable pub message : RegistryError → Str
unfolding show_int
message (invalid_shard_id i n) =
    ascii "invalid shard ID "
    ++ (show_int i ++ (ascii ", must be in range [0, " ++ (show_int n ++ ascii ")")))
message empty_node_id = ascii "node ID cannot be empty"
message (not_assigned i) = ascii "shard " ++ (show_int i ++ ascii " is not assigned to any node")
message no_nodes = ascii "cannot rebalance with no nodes"
message division_by_zero = []

pub record ShardRegistry : Type 0 where
  pub assignments : Map ℤ ShardAssignment
  pub num_shards : ℤ

unfoldable pub new_shard_registry : ℤ → ShardRegistry
new_shard_registry num_shards = record { assignments = []; num_shards = num_shards }

abbrev pub set_assignment : ShardRegistry → ℤ → Str → Bool → ShardRegistry
set_assignment r shard_id node_id is_primary = record r {
  assignments =
      put r.assignments shard_id
        (record { node_id = node_id; is_primary = is_primary; shard_id = shard_id });
}

unfoldable pub assign_shard : ShardRegistry → ℤ → Str → Bool → ShardRegistry × Option RegistryError
assign_shard r shard_id node_id is_primary =
    if not (in_range shard_id r.num_shards)
    then (r, some (invalid_shard_id shard_id r.num_shards))
    else if node_id == []
    then (r, some empty_node_id)
    else (set_assignment r shard_id node_id is_primary, none)

unfoldable pub remove_shard : ShardRegistry → ℤ → ShardRegistry × Option RegistryError
remove_shard r shard_id =
    if not (in_range shard_id r.num_shards)
    then (r, some (invalid_shard_id shard_id r.num_shards))
    else (record r { assignments = remove r.assignments shard_id }, none)

unfoldable pub get_assignment : ShardRegistry → ℤ → Option ShardAssignment
get_assignment r shard_id = get r.assignments shard_id

unfoldable pub values : Map ℤ ShardAssignment → List ShardAssignment
values [] = []
values ((k, a) ∷ m) = a ∷ values m

unfoldable pub get_all_assignments : ShardRegistry → List ShardAssignment
unfolding values
get_all_assignments r = values r.assignments

-- `none` is the panic of a registry with no shards.
unfoldable pub get_shard_for_key : ShardRegistry → Str → Option ℤ
get_shard_for_key r key = go_rem (sum32 key) r.num_shards

pub data Routed : Type 0 where
  to_node : Str → Routed
  failed : RegistryError → Routed

node_of : ℤ → Option ShardAssignment → Routed
node_of shard_id none = failed (not_assigned shard_id)
node_of shard_id (some a) = to_node a.node_id

unfoldable pub get_node_for_key : ShardRegistry → Str → Routed
unfolding node_of
get_node_for_key r key = elim (get_shard_for_key r key) [
  | none ↦ failed division_by_zero
  | some shard_id ↦ node_of shard_id (get r.assignments shard_id)
]

-- The numbers of the shards whose assignment names the node.
shards_of : Str → Map ℤ ShardAssignment → List ℤ
shards_of node_id [] = []
shards_of node_id ((shard_id, a) ∷ m) =
    let rest = shards_of node_id m in if a.node_id == node_id then shard_id ∷ rest else rest

unfoldable pub get_node_shards : ShardRegistry → Str → List ℤ
unfolding shards_of
get_node_shards r node_id = shards_of node_id r.assignments

-- `nodes[shardID%len(nodes)]`, the loop's index taken within the slice
node_at : List Str → ℕ → Str
node_at nodes i = elim (get_elem? nodes i) [ none ↦ [] | some node_id ↦ node_id ]

-- The loop from `shard_id`, with the rounds that are left.
rebalance_from : ShardRegistry → List Str → ℕ → ℕ → ShardRegistry
unfolding node_at
rebalance_from r nodes shard_id zero = r
rebalance_from r nodes shard_id (suc left) =
    rebalance_from (set_assignment r (pos shard_id) (node_at nodes (shard_id % length nodes)) true)
      nodes (shard_id + 1) left

unfoldable pub rebalance_shards : ShardRegistry → List Str → ShardRegistry × Option RegistryError
unfolding rebalance_from
rebalance_shards r [] = (r, some no_nodes)
rebalance_shards r (n ∷ ns) = (rebalance_from r (n ∷ ns) 0 (rounds r.num_shards), none)
