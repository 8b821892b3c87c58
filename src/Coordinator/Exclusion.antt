-- ===== src/Coordinator/Exclusion.antt =====
-- The node that a callback marks, in the assignment that follows (cmd/coordinator/main.go).
use torua.Base.{
  Option-cases, ℕ, zero, suc, ◌%◌, ◌<◌, ◌≡◌, refl, sym, ap, ◌∙◌, Str, List, [], ◌∷◌, none, some,
  Bool, false, keep, length, pos, rounds, ◌==◌, str_eq, str_beq_iff, arith, Bool-cases, inl, inr,
  ==_refl, int_eq, ◌⊎◌,
}
use torua.Cluster.{NodeInfo}
use torua.Registry.Laws
use torua.Registry.{ShardAssignment, ShardRegistry, get_assignment}
use torua.Coordinator.{
  Server, node_exists, is_eligible, id_at, auto_assign_registry, auto_assign_shards, mark_in,
  mark_node_unhealthy, on_unhealthy, unhealthy_text,
}
use torua.Coordinator.AssignLoop.{IsNamed}
use torua.Coordinator.AutoAssign.{auto_assign_registry_lem, unassigned_below}
use torua.Coordinator.Nodes.{IsDistinct, keep-IsComplete, mark_in-IsComplete, node_exists-keep}
use torua.Coordinator.Redistribution.{complete-IsNamed}
use torua.Coordinator.Invariant.{IsValid}

absent_after_keep :
    (p : NodeInfo → Bool) (ns : List NodeInfo) (k : Str)
    → node_exists ns k ≡ false
    → node_exists (keep p ns) k ≡ false
absent_after_keep p ns k h = ground (arith, node_exists-keep p ns k)

-- A marked node is not among the eligible ones.
marked_not_eligible :
    (ns : List NodeInfo) (id : Str)
    → IsDistinct ns
    → node_exists (keep is_eligible (mark_in ns id)) id ≡ false
unfolding keep node_exists mark_in
marked_not_eligible [] id d = refl
marked_not_eligible (n ∷ ns) id d = elim (Bool-cases (n.id == id)) [
  | inl e ↦ rw e (
      rw (==_refl unhealthy_text)
        (absent_after_keep is_eligible ns id (ground (arith, (str_beq_iff n.id id).0 e))))
  | inr e ↦ rw e (ground (arith, marked_not_eligible ns id d.1))
]

id_at_absent :
    (ns : List NodeInfo) (i : ℕ) (id : Str)
    → node_exists ns id ≡ false
    → i < length ns
    → (id_at ns i == id) ≡ false
unfolding node_exists id_at
id_at_absent [] i id h lt = elim lt [ ]
id_at_absent (n ∷ ns) zero id h lt = ground arith
id_at_absent (n ∷ ns) (suc i) id h lt = id_at_absent ns i id (ground arith) (omega arith)

auto_assign_excludes :
    (r : ShardRegistry) (l : List NodeInfo) (id : Str) (i : ℕ) (a : ShardAssignment)
    → Laws.IsValid r
    → IsNamed l
    → node_exists l id ≡ false
    → i < rounds r.num_shards
    → get_assignment r (pos i) ≡ none
    → get_assignment (auto_assign_registry r l) (pos i) ≡ some a
    → (a.node_id == id) ≡ false
unfolding auto_assign_registry
auto_assign_excludes r [] id i a v named absent h before after = cc
auto_assign_excludes r (n ∷ ns) id i a v named absent h before after = ground (
  arith,
  auto_assign_registry_lem r n ns i v named h,
  id_at_absent (n ∷ ns) (unassigned_below r i % length (n ∷ ns)) id absent (omega arith),
)

auto_assign_keeps :
    (r : ShardRegistry) (l : List NodeInfo) (i : ℕ) (b : ShardAssignment)
    → Laws.IsValid r
    → IsNamed l
    → i < rounds r.num_shards
    → get_assignment r (pos i) ≡ some b
    → get_assignment (auto_assign_registry r l) (pos i) ≡ some b
unfolding auto_assign_registry
auto_assign_keeps r [] i b v named h before = before
auto_assign_keeps r (n ∷ ns) i b v named h before =
    ground (arith, auto_assign_registry_lem r n ns i v named h)

-- In a state that satisfies the invariant, an assignment after the callback for an unhealthy node is
-- one that the shard had, or the shard had none and the assignment names another node.
pub on_unhealthy_excludes :
    (s : Server) (id : Str) (i : ℕ) (a : ShardAssignment)
    → IsValid s
    → i < 4
    → get_assignment (on_unhealthy s id).registry (pos i) ≡ some a
    → (get_assignment s.registry (pos i) ≡ some a)
      ⊎ ((get_assignment s.registry (pos i) ≡ none) × ((a.node_id == id) ≡ false))
unfolding on_unhealthy auto_assign_shards mark_node_unhealthy
on_unhealthy_excludes s id i a v h after =
    let marked = mark_in s.nodes id in
    let named =
      complete-IsNamed (keep is_eligible marked)
        (keep-IsComplete is_eligible marked (mark_in-IsComplete s.nodes id v.complete)) in
    let inside : i < rounds s.registry.num_shards = omega (arith, ap rounds v.placed.four) in
    elim (Option-cases (get_assignment s.registry (pos i))) [
      | inl e ↦ inr (
        e,
        auto_assign_excludes s.registry (keep is_eligible marked) id i a v.placed.valid named
            (marked_not_eligible s.nodes id v.distinct) inside e after,
      )
      | inr (b, e) ↦ inl (
          e
          ∙ sym (
              auto_assign_keeps s.registry (keep is_eligible marked) i b v.placed.valid named inside
                e)
          ∙ after)
    ]
