-- ===== src/Coordinator/AutoAssign.antt =====
-- autoAssignShards of cmd/coordinator/main.go: which node each unassigned shard gets.
use native.Mathlib.Nat.{zero-add}
use torua.Base.{
  IsMap, ==_refl, ℕ, ◌%◌, ◌<◌, ◌≡◌, refl, ◌∙◌, List, [], ◌∷◌, none, some, length, contains, get, ℤ,
  pos, rounds, if◌then◌else◌, int_eq, int_beq_iff, str_eq, arith, Map,
}
use torua.Cluster.{NodeInfo}
use torua.Registry.{ShardAssignment, ShardRegistry, get_assignment, get_all_assignments, values}
use torua.Registry.Laws.{IsValid}
use torua.Coordinator.{auto_assign_registry, assigned_shards}
use torua.Coordinator.AssignLoop.{IsNamed, is_assigned, auto, gap, get-assign_from}

-- Each entry carries its key.
abbrev IsTagged : Map ℤ ShardAssignment → Type 0
IsTagged m = (j : ℤ) (a : ShardAssignment) → get m j ≡ some a → a.shard_id ≡ j

IsTagged-head :
    (k : ℤ) (a : ShardAssignment) (m : Map ℤ ShardAssignment)
    → IsTagged ((k, a) ∷ m)
    → a.shard_id ≡ k
unfolding get
IsTagged-head k a m t = t k a (ground (arith, ==_refl k))

IsTagged-tail :
    (k : ℤ) (a : ShardAssignment) (m : Map ℤ ShardAssignment)
    → get m k ≡ none
    → IsTagged ((k, a) ∷ m)
    → IsTagged m
unfolding get
IsTagged-tail k a m fresh t j b h = t j b (ground (arith, int_beq_iff k j))

contains-values :
    (m : Map ℤ ShardAssignment) (i : ℤ)
    → IsMap m
    → IsTagged m
    → contains (assigned_shards (values m)) i ≡ is_assigned (get m i)
unfolding values assigned_shards contains get
contains-values [] i u t = refl
contains-values ((k, a) ∷ m) i u t = ground (
  arith,
  contains-values m i u.1 (IsTagged-tail k a m u.0 t),
  IsTagged-head k a m t,
  int_beq_iff k i,
)

-- In a well-formed registry the map `assignedShards` has the shards that are assigned.
pub contains-assigned :
    (r : ShardRegistry) (i : ℤ)
    → IsValid r
    → contains (assigned_shards (get_all_assignments r)) i ≡ is_assigned (get_assignment r i)
unfolding get_all_assignments get_assignment
contains-assigned r i v = contains-values r.assignments i v.unique (λ j a h. (v.at_shard j a h).1)

-- How many of the shards 0, ..., i - 1 are not assigned.
pub unassigned_below : ShardRegistry → ℕ → ℕ
unassigned_below r i = gap (assigned_shards (get_all_assignments r)) 0 i

-- In a well-formed registry, with at least one eligible node and none of them with an empty ID:
-- autoAssignShards keeps every assignment. A shard in [0, numShards) without one becomes a primary
-- of the eligible node whose place is, modulo their number, the number of unassigned shards before
-- it.
pub auto_assign_registry_lem :
    (r : ShardRegistry) (n : NodeInfo) (ns : List NodeInfo) (i : ℕ)
    → IsValid r
    → IsNamed (n ∷ ns)
    → i < rounds r.num_shards
    → get_assignment (auto_assign_registry r (n ∷ ns)) (pos i) ≡ (
        if is_assigned (get_assignment r (pos i))
        then get_assignment r (pos i)
        else some (auto (n ∷ ns) (unassigned_below r i % length (n ∷ ns)) i))
unfolding auto_assign_registry unassigned_below
auto_assign_registry_lem r n ns i v named h =
    get-assign_from (n ∷ ns) (assigned_shards (get_all_assignments r)) r 0 0 (rounds r.num_shards) i
      i named (omega arith) (omega arith) h (omega arith)
    ∙ rw (contains-assigned r (pos i) v) (rw zero-add)
