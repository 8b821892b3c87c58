-- ===== src/Coordinator/Invariant.antt =====
-- The coordinator's invariant, and what keeps its part on the registry (cmd/coordinator/main.go).
use torua.Base.{
  ℕ, zero, suc, ◌+◌, ◌%◌, ◌≡◌, ◌∙◌, Str, List, [], ◌∷◌, some, Bool, true, not, keep, contains,
  length, ℤ, pos, rounds, ◌==◌, str_eq, int_eq, arith, Bool-cases, inl, inr,
}
use torua.Cluster.{NodeInfo}
use torua.Registry.{
  ShardAssignment, ShardRegistry, assign_shard, get_assignment, get_all_assignments,
}
use torua.Registry.Laws.{
  assign_shard_lem, assign_shard-IsValid, new_shard_registry-IsValid, accepts,
}
use torua.Registry.Laws
use torua.Coordinator.{
  Server, node_exists, is_eligible, id_at, assign_from, auto_assign_registry, auto_assign_shards,
  assigned_shards,
}
use torua.Coordinator.Nodes.{IsComplete, IsDistinct, node_exists-keep, node_exists-id_at}

-- A well-formed registry of four shards, whose assignments name nodes that satisfy the test.
pub record IsPlaced (known : Str → Bool) (r : ShardRegistry) : Type 0 where
  pub valid : Laws.IsValid r
  pub four : r.num_shards ≡ pos 4
  pub members : (j : ℤ) (a : ShardAssignment) → get_assignment r j ≡ some a → known a.node_id ≡ true

pub record IsValid (s : Server) : Type 0 where
  pub placed : IsPlaced (node_exists s.nodes) s.registry
  pub complete : IsComplete s.nodes
  pub distinct : IsDistinct s.nodes

-- An assignment to a known node, or one that is refused for its empty ID, keeps this.
pub assign_shard-IsPlaced :
    (known : Str → Bool) (r : ShardRegistry) (i : ℤ) (id : Str) (p : Bool)
    → (not (id == []) ≡ true → known id ≡ true)
    → IsPlaced known r
    → IsPlaced known (assign_shard r i id p).0
assign_shard-IsPlaced known r i id p k h = record {
  valid = assign_shard-IsValid r i id p h.valid;
  four = (assign_shard_lem r i id p).1 ∙ h.four;
  members = λ j a e. ground (arith, (assign_shard_lem r i id p).2 j, h.members j a, k);
}

assign_from-IsPlaced :
    (known : Str → Bool) (healthy : List NodeInfo) (assigned : List ℤ)
    → ((i : ℕ) → not (id_at healthy i == []) ≡ true → known (id_at healthy i) ≡ true)
    → (r : ShardRegistry) (index i left : ℕ) → IsPlaced known r
    → IsPlaced known (assign_from r healthy assigned index i left)
unfolding assign_from
assign_from-IsPlaced known healthy assigned k r index i zero h = h
assign_from-IsPlaced known healthy assigned k r index i (suc left) h =
    elim (Bool-cases (contains assigned (pos i))) [
      | inl e ↦ rw e (assign_from-IsPlaced known healthy assigned k r index (i + 1) left h)
      | inr e ↦ rw e (
          assign_from-IsPlaced known healthy assigned k
            (assign_shard r (pos i) (id_at healthy index) true).0 ((index + 1) % length healthy)
            (i + 1) left
            (assign_shard-IsPlaced known r (pos i) (id_at healthy index) true (k index) h))
    ]

auto_assign_registry-IsPlaced :
    (known : Str → Bool) (r : ShardRegistry) (healthy : List NodeInfo)
    → ((i : ℕ) → not (id_at healthy i == []) ≡ true → known (id_at healthy i) ≡ true)
    → IsPlaced known r
    → IsPlaced known (auto_assign_registry r healthy)
unfolding auto_assign_registry
auto_assign_registry-IsPlaced known r [] k h = h
auto_assign_registry-IsPlaced known r (n ∷ ns) k h =
    assign_from-IsPlaced known (n ∷ ns) (assigned_shards (get_all_assignments r)) k r 0 0
      (rounds r.num_shards) h

pub auto_assign_shards-IsValid : (s : Server) → IsValid s → IsValid (auto_assign_shards s)
unfolding auto_assign_shards
auto_assign_shards-IsValid s v = record {
  placed =
      auto_assign_registry-IsPlaced (node_exists s.nodes) s.registry (keep is_eligible s.nodes)
        (λ i h.
          node_exists-keep is_eligible s.nodes (id_at (keep is_eligible s.nodes) i)
            (node_exists-id_at (keep is_eligible s.nodes) i h))
        v.placed;
  complete = v.complete;
  distinct = v.distinct;
}

-- More nodes keep the placement.
pub IsPlaced_mono :
    (p q : Str → Bool) (r : ShardRegistry)
    → ((k : Str) → p k ≡ true → q k ≡ true)
    → IsPlaced p r
    → IsPlaced q r
IsPlaced_mono p q r up h = record {
  valid = h.valid;
  four = h.four;
  members = λ j a e. up a.node_id (h.members j a e);
}
