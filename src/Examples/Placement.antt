-- ===== src/Examples/Placement.antt =====
-- The coordinator's theorems on two nodes.
use torua.Coordinator.FirstNode.{first_node_keeps_all, handle_all, registers, marks, reassigns}
use torua.Coordinator.Exclusion.{on_unhealthy_excludes}
use torua.Base.{
  ◌≡◌, refl, [], none, some, ascii, false, str_beq, pos, keep, contains, get, put, ◌⊎◌, ◌==◌,
  str_eq, int_eq, arith, true, ℕ, ◌∷◌,
}
use torua.Coordinator.Steps.{Reach-IsValid, here, next, register, handle_register-IsValid}
use torua.Coordinator.Redistribution.{IsCovered, Reach-IsCovered, handle_register_covers}
use torua.Coordinator.Invariant.{IsValid}
use torua.Coordinator.{
  new_server, handle_register, on_unhealthy, mark_node_unhealthy, node_exists, Server, replace_node,
  auto_assign_shards, auto_assign_registry, assign_from, assigned_shards, id_at, is_eligible,
}
use torua.Examples.Data.{fresh, one, two, register_a, register_b, sick, node_a, node_b}
use torua.Registry.{
  ShardAssignment, get_assignment, get_all_assignments, assign_shard, values, new_shard_registry,
}

Reach-IsValid_example : IsValid two
Reach-IsValid_example =
    Reach-IsValid (λ d. none) []
      (next (next here (register fresh (some register_a))) (register one (some register_b)))

pub fresh-IsValid : IsValid fresh
fresh-IsValid = Reach-IsValid (λ d. none) [] here

pub one-IsValid : IsValid one
one-IsValid = handle_register-IsValid fresh (some register_a) fresh-IsValid

pub two-IsValid : IsValid two
two-IsValid = handle_register-IsValid one (some register_b) one-IsValid

fresh_has_no_a : node_exists fresh.nodes register_a.node.id ≡ false
unfolding new_server node_exists
fresh_has_no_a = refl

fresh_has_no_nodes : keep is_eligible fresh.nodes ≡ []
unfolding new_server keep
fresh_has_no_nodes = refl

fresh_has_no_shards : (j : ℕ) → get_assignment fresh.registry (pos j) ≡ none
unfolding new_server new_shard_registry get_assignment get
fresh_has_no_shards j = refl

pub one-IsCovered : IsCovered one.registry
unfolding str_beq
one-IsCovered = handle_register_covers fresh register_a fresh-IsValid refl refl fresh_has_no_a refl

pub two-IsCovered : IsCovered two.registry
two-IsCovered =
    (Reach-IsCovered one-IsValid one-IsCovered (next here (register one (some register_b)))).1

-- Two nodes that register as unhealthy and again as healthy hold no shard.
abbrev idle_nodes : Server
idle_nodes =
    (handle_register
      (handle_register
        (handle_register (handle_register fresh (some (sick node_a))).0 (some (sick node_b))).0
        (some register_a)).0
      (some register_b)).0

idle_nodes-IsValid : IsValid idle_nodes
idle_nodes-IsValid = handle_register-IsValid _ (some register_b) (
    handle_register-IsValid _ (some register_a) (
      handle_register-IsValid _ (some (sick node_b))
        (handle_register-IsValid fresh (some (sick node_a)) fresh-IsValid)))

abbrev b_primary_0 : ShardAssignment
b_primary_0 = record { node_id = ascii "b"; is_primary = true; shard_id = pos 0 }

assigned_to_b :
    get_assignment (on_unhealthy idle_nodes (ascii "a")).registry (pos 0) ≡ some b_primary_0
unfolding new_server handle_register node_exists replace_node auto_assign_shards
    auto_assign_registry assign_from assigned_shards id_at keep get_all_assignments assign_shard
    get_assignment on_unhealthy mark_node_unhealthy str_beq contains get put values
    new_shard_registry
assigned_to_b = refl

on_unhealthy_excludes_example :
    (get_assignment idle_nodes.registry (pos 0) ≡ some b_primary_0)
    ⊎ ((get_assignment idle_nodes.registry (pos 0) ≡ none) × ((ascii "b" == ascii "a") ≡ false))
on_unhealthy_excludes_example =
    on_unhealthy_excludes idle_nodes (ascii "a") 0 b_primary_0 idle_nodes-IsValid (omega arith)
      assigned_to_b

-- Node b comes later and node a is marked as unhealthy.
first_node_keeps_all_example :
    get_assignment
      (handle_all one (registers (some register_b) ∷ marks (ascii "a") ∷ reassigns ∷ [])).registry
      (pos 2)
    ≡ some (record { node_id = ascii "a"; is_primary = true; shard_id = pos 2 })
unfolding str_beq
first_node_keeps_all_example =
    first_node_keeps_all fresh register_a
      (registers (some register_b) ∷ marks (ascii "a") ∷ reassigns ∷ []) 2 fresh-IsValid
      fresh_has_no_nodes fresh_has_no_shards refl refl fresh_has_no_a refl (omega arith)
