-- ===== src/Registry/Rebuilt.antt =====
-- What RebalanceShards of internal/coordinator/shard_registry.go leaves of the placement that was there.
use mathlib.Core.Quot
use torua.Base.{
  ◌≡◌, refl, Str, List, ◌∷◌, none, true, false, ℤ, pos, negsuc, in_range, ℕ, zero, suc, ◌+◌, ◌%◌,
  length, rounds, ltb, int_eq, str_eq, arith, get-put, Option-cases, inl, inr, sym, ◌∙◌,
}
use torua.Registry.{
  ShardRegistry, get_assignment, set_assignment, rebalance_from, rebalance_shards, node_at,
}
use torua.Registry.Laws.{IsValid}
use torua.Registry.Rebalance.{get-rebalance_shards, assigned_to}
use torua.Registry.View.{view}

num_shards-rebalance_from :
    (r : ShardRegistry) (nodes : List Str) (from left : ℕ)
    → (rebalance_from r nodes from left).num_shards ≡ r.num_shards
unfolding rebalance_from
num_shards-rebalance_from r nodes from zero = refl
num_shards-rebalance_from r nodes from (suc left) =
    num_shards-rebalance_from
      (set_assignment r (pos from) (node_at nodes (from % length nodes)) true) nodes (from + 1) left

get-rebalance_below :
    (r : ShardRegistry) (nodes : List Str) (from left i : ℕ)
    → get_assignment (rebalance_from r nodes from left) (negsuc i) ≡ get_assignment r (negsuc i)
unfolding rebalance_from get_assignment
get-rebalance_below r nodes from zero i = refl
get-rebalance_below r nodes from (suc left) i = ground (
  arith,
  get-rebalance_below (set_assignment r (pos from) (node_at nodes (from % length nodes)) true) nodes
      (from + 1) left i,
  get-put r.assignments (pos from) (negsuc i)
      (assigned_to (node_at nodes (from % length nodes)) from),
)

-- A well-formed registry has no assignment outside [0, numShards).
outside :
    (r : ShardRegistry) (j : ℤ)
    → IsValid r
    → in_range j r.num_shards ≡ false
    → get_assignment r j ≡ none
outside r j v h = elim (Option-cases (get_assignment r j)) [
  | inl e ↦ e
  | inr (a, e) ↦ cc ((v.at_shard j a e).0)
]

-- The loop's bound, as the test on a shard number.
in_range-pos : (i : ℕ) (n : ℤ) → ltb i (rounds n) ≡ in_range (pos i) n
in_range-pos i (pos n) = refl
in_range-pos i (negsuc n) = ground arith

-- One shard after RebalanceShards.
rebuilt_at :
    (r s : ShardRegistry) (n : Str) (ns : List Str) (j : ℤ)
    → IsValid r
    → IsValid s
    → r.num_shards ≡ s.num_shards
    → get_assignment (rebalance_shards r (n ∷ ns)).0 j
      ≡ get_assignment (rebalance_shards s (n ∷ ns)).0 j
rebuilt_at r s n ns (pos i) v w h =
    let (a, at, _, e) = get-rebalance_shards r n ns i in
    let (b, bt, _, f) = get-rebalance_shards s n ns i in
    ground (
      arith,
      at,
      bt,
      e,
      f,
      in_range-pos i r.num_shards,
      in_range-pos i s.num_shards,
      outside r (pos i) v,
      outside s (pos i) w,
    )
rebuilt_at r s n ns (negsuc i) v w h =
    unfold rebalance_shards in
    (get-rebalance_below r (n ∷ ns) 0 (rounds r.num_shards) i
      ∙ outside r (negsuc i) v refl
      ∙ sym (outside s (negsuc i) w refl)
      ∙ sym (get-rebalance_below s (n ∷ ns) 0 (rounds s.num_shards) i))

rebuilt-num_shards :
    (r s : ShardRegistry) (n : Str) (ns : List Str)
    → r.num_shards ≡ s.num_shards
    → (rebalance_shards r (n ∷ ns)).0.num_shards ≡ (rebalance_shards s (n ∷ ns)).0.num_shards
unfolding rebalance_shards
rebuilt-num_shards r s n ns h =
    num_shards-rebalance_from r (n ∷ ns) 0 (rounds r.num_shards)
    ∙ h
    ∙ sym (num_shards-rebalance_from s (n ∷ ns) 0 (rounds s.num_shards))

-- RebalanceShards over a list of nodes that is not empty gives any two well-formed registries with
-- the same number of shards the same view, whatever was assigned in them.
pub rebalance_shards_forgets :
    (r s : ShardRegistry) (n : Str) (ns : List Str)
    → IsValid r
    → IsValid s
    → r.num_shards ≡ s.num_shards
    → view (rebalance_shards r (n ∷ ns)).0 ≡ view (rebalance_shards s (n ∷ ns)).0
rebalance_shards_forgets r s n ns v w h =
    Quot.sound (rebuilt-num_shards r s n ns h, (λ j. rebuilt_at r s n ns j v w h))
