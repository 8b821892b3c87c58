-- ===== src/Registry/Routing.antt =====
-- Routing a key to a shard and a node: GetShardForKey and GetNodeForKey of
-- internal/coordinator/shard_registry.go.
use torua.Base.{
  ℕ, suc, ◌≡◌, ap, ◌∙◌, not, ◌⊎◌, inl, inr, Option-cases, ◌%◌, Str, [], none, some, true, contains,
  ℤ, pos, in_range, ◌↔◌, ◌==◌, int_eq, str_eq, arith, lt→ltb, ==_refl,
}
use torua.Fnv.{sum32, go_rem}
use torua.Shard.{owns_key}
use torua.Shard.Keys.{owns_key_iff}
use torua.Registry.{
  ShardRegistry, to_node, failed, not_assigned, get_assignment, get_shard_for_key, get_node_for_key,
  get_node_shards, node_of,
}
use torua.Registry.Laws.{IsValid, holds, contains-get_node_shards}

-- With a positive number of shards, GetShardForKey gives the one number in [0, numShards) whose
-- shard answers OwnsKey with true.
pub get_shard_for_key_lem :
    (r : ShardRegistry) (key : Str) (n : ℕ)
    → r.num_shards ≡ pos (suc n)
    → (i : ℤ) × (get_shard_for_key r key ≡ some i)
      × (in_range i r.num_shards ≡ true)
      × ((j : ℤ) → (owns_key j key r.num_shards ≡ true) ↔ (j ≡ i))
unfolding get_shard_for_key
get_shard_for_key_lem r key n e = (
  pos (sum32 key % suc n),
  ap (go_rem (sum32 key)) e,
  ap (in_range (pos (sum32 key % suc n))) e ∙ lt→ltb _ _ (omega arith),
  (λ j. ((λ h. ground (arith, owns_key_iff j key n)), (λ h. ground (arith, owns_key_iff j key n)))),
)

-- In a well-formed registry, where GetShardForKey gives shard i: GetNodeForKey fails with "shard i
-- is not assigned" when GetAssignment gives nothing for i. Otherwise it gives a node, whose ID is
-- not empty and for which GetNodeShards lists i.
pub get_node_for_key_lem :
    (r : ShardRegistry) (key : Str) (i : ℤ)
    → IsValid r
    → get_shard_for_key r key ≡ some i
    → ((get_assignment r i ≡ none) × (get_node_for_key r key ≡ failed (not_assigned i)))
      ⊎ ((node : Str) × (get_node_for_key r key ≡ to_node node)
          × (not (node == []) ≡ true)
          × (contains (get_node_shards r node) i ≡ true))
get_node_for_key_lem r key i v h = elim (Option-cases (get_assignment r i)) [
  | inl e ↦ inl (e, unfold get_node_for_key node_of get_assignment in ground arith)
  | inr (a, e) ↦ inr (
    a.node_id,
    (unfold get_node_for_key node_of get_assignment in ground arith),
    (v.at_shard i a e).2,
    contains-get_node_shards r a.node_id i v ∙ ap (holds a.node_id) e ∙ ==_refl a.node_id,
  )
]
