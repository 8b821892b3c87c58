-- ===== src/Registry/Rebalance.antt =====
-- The placement of shards by RebalanceShards, internal/coordinator/shard_registry.go.
use torua.Base.{
  ℕ, zero, suc, ◌+◌, ◌%◌, ◌<◌, ◌≡◌, refl, Str, List, ◌∷◌, none, some, Bool, true, false, get-put,
  pos, rounds, length, get_elem?, get_elem?_in, if◌then◌else◌, int_eq, str_eq, arith, ltb,
}
use torua.Registry.{
  ShardAssignment, ShardRegistry, get_assignment, set_assignment, rebalance_from, rebalance_shards,
  node_at,
}

abbrev placed : List Str → ℕ → ShardAssignment
placed nodes i = record {
  node_id = node_at nodes (i % length nodes);
  is_primary = true;
  shard_id = pos i;
}

-- Is `from <= i < from + left`?
abbrev within : ℕ → ℕ → ℕ → Bool
within from left i = if ltb i from then false else ltb i (from + left)

get-rebalance_from :
    (r : ShardRegistry) (nodes : List Str) (from left i : ℕ)
    → get_assignment (rebalance_from r nodes from left) (pos i)
      ≡ (if within from left i then some (placed nodes i) else get_assignment r (pos i))
unfolding rebalance_from get_assignment
get-rebalance_from r nodes from zero i = ground arith
get-rebalance_from r nodes from (suc left) i = ground (
  arith,
  get-rebalance_from (set_assignment r (pos from) (node_at nodes (from % length nodes)) true) nodes
      (from + 1) left i,
  get-put r.assignments (pos from) (pos i) (placed nodes from),
)

-- The shard's assignment after RebalanceShards, by the node's place in the list.
abbrev pub assigned_to : Str → ℕ → ShardAssignment
assigned_to node i = record { node_id = node; is_primary = true; shard_id = pos i }

node_at_lem :
    (nodes : List Str) (i : ℕ)
    → 0 < length nodes
    → (node : Str) × (get_elem? nodes (i % length nodes) ≡ some node)
      × (node_at nodes (i % length nodes) ≡ node)
unfolding node_at
node_at_lem nodes i h =
    let (node, e) = get_elem?_in nodes (i % length nodes) (omega arith) in
    (node, e, rw (e, node_at))

-- RebalanceShards over a list of nodes that is not empty succeeds. Then every shard i in
-- [0, numShards) is a primary of nodes[i % len(nodes)], and every other i keeps what it had.
pub get-rebalance_shards :
    (r : ShardRegistry) (n : Str) (ns : List Str) (i : ℕ)
    → (node : Str) × (get_elem? (n ∷ ns) (i % length (n ∷ ns)) ≡ some node)
      × ((rebalance_shards r (n ∷ ns)).1 ≡ none)
      × (get_assignment (rebalance_shards r (n ∷ ns)).0 (pos i) ≡ (
          if ltb i (rounds r.num_shards)
          then some (assigned_to node i)
          else get_assignment r (pos i)))
unfolding rebalance_shards
get-rebalance_shards r n ns i =
    let (node, at, e) = node_at_lem (n ∷ ns) i (omega arith) in
    (node, at, refl, ground (arith, get-rebalance_from r (n ∷ ns) 0 (rounds r.num_shards) i))
