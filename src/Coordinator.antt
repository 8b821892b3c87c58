-- ===== src/Coordinator.antt =====
-- cmd/coordinator/main.go: the coordinator's state and its management endpoints. A handler holds
-- the server's lock where the code does, so it is one step; decoded JSON is an argument, `none`
-- where the decoder fails.
pub mod AssignLoop
pub mod AutoAssign
pub mod Nodes
pub mod Invariant
pub mod Steps
pub mod Redistribution
pub mod Exclusion
pub mod FirstNode
pub mod Listing
pub mod Broadcast
pub mod Serve
pub mod Threads
use torua.Base.{
  ℕ, zero, suc, ◌+◌, ◌%◌, Str, List, [], ◌∷◌, ◌++◌, Option, none, some, Bool, true, false, not,
  ◌&&◌, ◌||◌, length, get_elem?, keep, contains, Map, get, ℤ, pos, rounds, if◌then◌else◌, ◌==◌,
  str_eq, int_eq, ascii, map,
}
use torua.Cluster.{NodeInfo, RegisterRequest}
use torua.Registry.{
  ShardAssignment, ShardRegistry, new_shard_registry, assign_shard, get_all_assignments,
  RegistryError, message,
}
use torua.Health.{
  HealthMonitor, NodeHealth, new_health_monitor, set_on_unhealthy, get_all_node_health, status_text,
  unhealthy, unknown,
}
use torua.Http.{Method, get_method, post_method, Reply, reply}

pub record Server : Type 0 where
  pub registry : ShardRegistry
  pub monitor : HealthMonitor
  pub nodes : List NodeInfo

-- `healthStatusUnhealthy`
abbrev pub unhealthy_text : Str
unhealthy_text = ascii "unhealthy"

-- `newServer`. The environment's value and `time.ParseDuration` are arguments.
unfoldable pub new_server : (Str → Option ℤ) → Str → Server
unfolding new_shard_registry new_health_monitor set_on_unhealthy
new_server parse_duration env =
    let given : Option ℤ = if not (env == []) then parse_duration env else none in
    let interval : ℤ = elim given [ none ↦ pos 5_000_000_000 | some d ↦ d ] in
    record {
      registry = new_shard_registry (pos 4);
      monitor = set_on_unhealthy (new_health_monitor interval);
      nodes = [];
    }

-- Is there a node with the ID? The search of `handleShardAssign`, and `idx >= 0` for the index that
-- `slices.IndexFunc` finds in `handleRegister`.
unfoldable pub node_exists : List NodeInfo → Str → Bool
node_exists [] id = false
node_exists (n ∷ ns) id = let rest = node_exists ns id in if n.id == id then true else rest

-- `s.nodes[idx] = node`, at the first node with that ID
unfoldable pub replace_node : List NodeInfo → NodeInfo → List NodeInfo
replace_node [] node = []
replace_node (n ∷ ns) node =
    let rest = replace_node ns node in if n.id == node.id then node ∷ ns else n ∷ rest

abbrev pub is_eligible : NodeInfo → Bool
is_eligible n = not (n.status == unhealthy_text)

-- `assignedShards[a.ShardID] = true`
unfoldable pub assigned_shards : List ShardAssignment → List ℤ
assigned_shards [] = []
assigned_shards (a ∷ l) = a.shard_id ∷ assigned_shards l

-- `healthyNodes[nodeIndex].ID`, the index within the slice
unfoldable pub id_at : List NodeInfo → ℕ → Str
id_at nodes i = elim (get_elem? nodes i) [ none ↦ [] | some n ↦ n.id ]

-- The loop from `shard_id`, with the rounds that are left.
unfoldable pub assign_from : ShardRegistry → List NodeInfo → List ℤ → ℕ → ℕ → ℕ → ShardRegistry
assign_from r healthy assigned node_index shard_id zero = r
assign_from r healthy assigned node_index shard_id (suc left) =
    let skip = contains assigned (pos shard_id) in
    assign_from
      (if skip then r else (assign_shard r (pos shard_id) (id_at healthy node_index) true).0)
      healthy assigned (if skip then node_index else (node_index + 1) % length healthy)
      (shard_id + 1) left

unfoldable pub auto_assign_registry : ShardRegistry → List NodeInfo → ShardRegistry
auto_assign_registry r [] = r
auto_assign_registry r (n ∷ ns) =
    assign_from r (n ∷ ns) (assigned_shards (get_all_assignments r)) 0 0 (rounds r.num_shards)

-- `autoAssignShards`
unfoldable pub auto_assign_shards : Server → Server
auto_assign_shards s = record s {
  registry = auto_assign_registry s.registry (keep is_eligible s.nodes);
}

unfoldable pub handle_register : Server → Option RegisterRequest → Server × Reply
handle_register s none = (s, reply 400 (ascii "bad json"))
handle_register s (some req) =
    if req.node.id == [] || req.node.addr == []
    then (s, reply 400 (ascii "missing id/addr"))
    else if node_exists s.nodes req.node.id
    then (record s { nodes = replace_node s.nodes req.node }, reply 204 [])
    else (auto_assign_shards (record s { nodes = s.nodes ++ req.node ∷ [] }), reply 204 [])

unfoldable pub mark_in : List NodeInfo → Str → List NodeInfo
mark_in [] id = []
mark_in (n ∷ ns) id =
    let rest = mark_in ns id in
    if n.id == id then record n { status = unhealthy_text } ∷ ns else n ∷ rest

unfoldable pub mark_node_unhealthy : Server → Str → Server
unfolding mark_in
mark_node_unhealthy s id = record s { nodes = mark_in s.nodes id }

-- The callback that `newServer` gives to the health monitor.
unfoldable pub on_unhealthy : Server → Str → Server
on_unhealthy s id = auto_assign_shards (mark_node_unhealthy s id)

-- The copy of a node in the reply of `handleListNodes`.
unfoldable pub listed : Map Str NodeHealth → NodeInfo → NodeInfo
unfolding status_text
listed health node =
    if is_eligible node
    then elim (get health node.id) [
      | some h ↦ record node { status = status_text h.status; last_health_check = h.last_check }
      | none ↦ record node { status = status_text unknown }
    ]
    else node

unfoldable pub handle_list_nodes : Server → List NodeInfo
unfolding listed
handle_list_nodes s = map (listed (get_all_node_health s.monitor)) s.nodes

-- The body of GET /shards, or the error.
unfoldable pub handle_shards : Server → Method → Option (List ShardAssignment × ℤ) × ℕ
handle_shards s get_method = (some (get_all_assignments s.registry, s.registry.num_shards), 200)
handle_shards s _ = (none, 405)

pub record AssignRequest : Type 0 where
  pub node_id : Str
  pub is_primary : Bool
  pub shard_id : ℤ

unfoldable pub assign_request : Server → Option AssignRequest → Server × Reply
unfolding node_exists message
assign_request s none = (s, reply 400 (ascii "bad json"))
assign_request s (some req) =
    if not (node_exists s.nodes req.node_id)
    then (s, reply 400 (ascii "node " ++ (req.node_id ++ ascii " not found in cluster")))
    else let (r, err) = assign_shard s.registry req.shard_id req.node_id req.is_primary in
      elim err [
        | some e ↦ (s, reply 400 (message e))
        | none ↦ (record s { registry = r }, reply 200 [])
      ]

-- `handleShardAssign`
unfoldable pub handle_shard_assign : Server → Method → Option AssignRequest → Server × Reply
unfolding assign_request
handle_shard_assign s post_method body = assign_request s body
handle_shard_assign s _ body = (s, reply 405 (ascii "method not allowed"))
