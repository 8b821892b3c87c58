-- ===== src/Examples/Registries.antt =====
-- The registry's theorems on four shards and two nodes.
use torua.Registry.Answers.{
  Call, assigns, asks, locates, removes, registry_answers, table_answers, registry_answers-refine,
}
use torua.Base.{
  zero, suc, ◌≡◌, ◌%◌, ◌↔◌, refl, [], ◌∷◌, some, true, ascii, ℤ, pos, in_range, str_beq,
  if◌then◌else◌, str_eq, int_eq, arith, List, none, false,
}
use torua.Fnv.{sum32}
use torua.Registry.{
  ShardRegistry, new_shard_registry, assign_shard, get_assignment, get_shard_for_key,
  rebalance_shards,
}
use torua.Registry.Laws.{IsValid, new_shard_registry-IsValid, assign_shard-IsValid}
use torua.Registry.Routing.{get_shard_for_key_lem}
use torua.Registry.Balance.{load-rebalance_shards, IsDistinct, load}
use torua.Coordinator.{auto_assign_registry}
use torua.Coordinator.AssignLoop.{is_assigned, auto}
use torua.Coordinator.AutoAssign.{auto_assign_registry_lem, unassigned_below}
use torua.Shard.{owns_key}
use torua.Examples.Data.{node_a, node_b}

abbrev pub four_shards : ShardRegistry
four_shards = new_shard_registry (pos 4)

-- Shard 1 at node b.
abbrev pub one_at_b : ShardRegistry
one_at_b = (assign_shard four_shards (pos 1) (ascii "b") true).0

pub one_at_b-IsValid : IsValid one_at_b
one_at_b-IsValid =
    assign_shard-IsValid four_shards (pos 1) (ascii "b") true (new_shard_registry-IsValid (pos 4))

get_shard_for_key_lem_example :
    (i : ℤ) × (get_shard_for_key four_shards (ascii "k") ≡ some i)
    × (in_range i (pos 4) ≡ true)
    × ((j : ℤ) → (owns_key j (ascii "k") (pos 4) ≡ true) ↔ (j ≡ i))
unfolding new_shard_registry
get_shard_for_key_lem_example = get_shard_for_key_lem four_shards (ascii "k") 3 refl

routed_shard : get_shard_for_key one_at_b [] ≡ some (pos 1)
unfolding get_shard_for_key new_shard_registry assign_shard str_beq sum32
routed_shard = refl

auto_assign_registry_lem_example :
    get_assignment (auto_assign_registry one_at_b (node_a ∷ node_b ∷ [])) (pos 2) ≡ (
      if is_assigned (get_assignment one_at_b (pos 2))
      then get_assignment one_at_b (pos 2)
      else some (auto (node_a ∷ node_b ∷ []) (unassigned_below one_at_b 2 % 2) 2))
unfolding new_shard_registry assign_shard str_beq
auto_assign_registry_lem_example =
    auto_assign_registry_lem one_at_b node_a (node_b ∷ []) 2 one_at_b-IsValid (refl, (refl, tt))
      (omega arith)

a_a2-IsDistinct : IsDistinct (ascii "a" ∷ ascii "a2" ∷ [])
a_a2-IsDistinct zero zero x e f = refl
a_a2-IsDistinct zero (suc zero) x e f = cc
a_a2-IsDistinct zero (suc (suc j)) x e f = cc
a_a2-IsDistinct (suc zero) zero x e f = cc
a_a2-IsDistinct (suc zero) (suc zero) x e f = refl
a_a2-IsDistinct (suc zero) (suc (suc j)) x e f = cc
a_a2-IsDistinct (suc (suc i)) j x e f = cc

load-rebalance_shards_example :
    load (rebalance_shards four_shards (ascii "a" ∷ ascii "a2" ∷ [])).0 (ascii "a2") 4 ≡ 2
unfolding new_shard_registry
load-rebalance_shards_example =
    load-rebalance_shards four_shards (ascii "a") (ascii "a2" ∷ []) 1 (ascii "a2") a_a2-IsDistinct
      refl

-- Shard 2 is given to a node and then to another, and shard 9 is refused.
abbrev registry_calls : List Call
registry_calls =
    assigns (pos 2) (ascii "a") true
    ∷ assigns (pos 9) (ascii "b") true
    ∷ assigns (pos 2) (ascii "b") false
    ∷ asks (pos 2)
    ∷ locates (ascii "k")
    ∷ removes (pos 2)
    ∷ locates (ascii "k")
    ∷ []

registry_answers-refine_example :
    registry_answers (new_shard_registry (pos 4)) registry_calls
    ≡ table_answers 4 (λ i. none) registry_calls
registry_answers-refine_example = registry_answers-refine 4 registry_calls
