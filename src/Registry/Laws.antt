-- ===== src/Registry/Laws.antt =====
-- AssignShard, RemoveShard and GetNodeShards, internal/coordinator/shard_registry.go.
use torua.Base.{
  ◌≡◌, refl, Str, [], ◌∷◌, Option, none, some, Bool, true, false, not, ◌&&◌, Map, get, get-put,
  get-remove, put-IsMap, remove-IsMap, IsMap, contains, ℤ, in_range, if◌then◌else◌, ◌==◌, int_eq,
  int_beq_iff, str_eq, arith,
}
use torua.Registry.{
  ShardAssignment, ShardRegistry, RegistryError, assign_shard, remove_shard, get_assignment,
  new_shard_registry, get_node_shards, shards_of,
}

abbrev pub is_none : Option RegistryError → Bool
is_none none = true
is_none (some e) = false

-- The inputs that AssignShard accepts.
abbrev pub accepts : ShardRegistry → ℤ → Str → Bool
accepts r i n = in_range i r.num_shards && not (n == [])

-- AssignShard succeeds exactly on a shard number in [0, numShards) and a node ID that is not empty.
-- Then the shard has the new assignment and every other shard the one it had. On an error every
-- shard has the assignment it had. The number of shards stays.
pub assign_shard_lem :
    (r : ShardRegistry) (i : ℤ) (n : Str) (p : Bool)
    → (is_none (assign_shard r i n p).1 ≡ accepts r i n)
      × ((assign_shard r i n p).0.num_shards ≡ r.num_shards)
      × ((j : ℤ)
          → get_assignment (assign_shard r i n p).0 j ≡ (
              if accepts r i n && i == j
              then some (record { node_id = n; is_primary = p; shard_id = i })
              else get_assignment r j))
unfolding assign_shard get_assignment
assign_shard_lem r i n p = (
  ground arith,
  ground arith,
  (λ j.
      ground
        (arith, get-put r.assignments i j (record { node_id = n; is_primary = p; shard_id = i }))),
)

-- RemoveShard succeeds exactly on a shard number in [0, numShards), assigned or not. Then the shard
-- has no assignment. Every other shard keeps the one it had, as all do on an error.
pub remove_shard_lem :
    (r : ShardRegistry) (i : ℤ)
    → (is_none (remove_shard r i).1 ≡ in_range i r.num_shards)
      × ((j : ℤ)
          → get_assignment (remove_shard r i).0 j
            ≡ (if in_range i r.num_shards && i == j then none else get_assignment r j))
unfolding remove_shard get_assignment
remove_shard_lem r i = (ground arith, (λ j. ground (arith, get-remove r.assignments i j)))

-- No shard has two assignments; an assigned shard lies in [0, numShards), its assignment carries
-- its number, and names a node.
pub record IsValid (r : ShardRegistry) : Type 0 where
  pub unique : IsMap r.assignments
  pub at_shard :
      (j : ℤ) (a : ShardAssignment)
      → get_assignment r j ≡ some a
      → (in_range j r.num_shards ≡ true) × (a.shard_id ≡ j) × (not (a.node_id == []) ≡ true)

pub new_shard_registry-IsValid : (n : ℤ) → IsValid (new_shard_registry n)
unfolding new_shard_registry get_assignment get
new_shard_registry-IsValid n = record { unique = tt; at_shard = λ j a h. cc }

assign_shard_unique :
    (r : ShardRegistry) (i : ℤ) (n : Str) (p : Bool)
    → IsMap r.assignments
    → IsMap (assign_shard r i n p).0.assignments
unfolding assign_shard
assign_shard_unique r i n p u =
    ground
      (arith, put-IsMap r.assignments i (record { node_id = n; is_primary = p; shard_id = i }) u)

-- AssignShard keeps the registry well-formed, also where it refuses.
pub assign_shard-IsValid :
    (r : ShardRegistry) (i : ℤ) (n : Str) (p : Bool) → IsValid r → IsValid (assign_shard r i n p).0
assign_shard-IsValid r i n p v = record {
  unique = assign_shard_unique r i n p v.unique;
  at_shard = λ j a h. ground (
    arith,
    (assign_shard_lem r i n p).1,
    (assign_shard_lem r i n p).2 j,
    v.at_shard j a,
    int_beq_iff i j,
  );
}

remove_shard_unique :
    (r : ShardRegistry) (i : ℤ) → IsMap r.assignments → IsMap (remove_shard r i).0.assignments
unfolding remove_shard
remove_shard_unique r i u = ground (arith, remove-IsMap r.assignments i u)

pub num_shards-remove_shard :
    (r : ShardRegistry) (i : ℤ) → (remove_shard r i).0.num_shards ≡ r.num_shards
unfolding remove_shard
num_shards-remove_shard r i = ground arith

pub remove_shard-IsValid : (r : ShardRegistry) (i : ℤ) → IsValid r → IsValid (remove_shard r i).0
remove_shard-IsValid r i v = record {
  unique = remove_shard_unique r i v.unique;
  at_shard = λ j a h. ground (
    arith,
    (remove_shard_lem r i).1 j,
    num_shards-remove_shard r i,
    v.at_shard j a,
    int_beq_iff i j,
  );
}

-- Is the shard assigned to the node?
abbrev pub holds : Str → Option ShardAssignment → Bool
holds node none = false
holds node (some a) = a.node_id == node

shards_of_fresh :
    (node : Str) (m : Map ℤ ShardAssignment) (i : ℤ)
    → get m i ≡ none
    → contains (shards_of node m) i ≡ false
unfolding shards_of get contains
shards_of_fresh node [] i h = refl
shards_of_fresh node ((k, a) ∷ m) i h = ground (arith, shards_of_fresh node m i)

contains-shards_of :
    (node : Str) (m : Map ℤ ShardAssignment) (i : ℤ)
    → IsMap m
    → contains (shards_of node m) i ≡ holds node (get m i)
unfolding shards_of get contains
contains-shards_of node [] i h = refl
contains-shards_of node ((k, a) ∷ m) i h =
    ground (arith, int_beq_iff k i, contains-shards_of node m i h.1, shards_of_fresh node m i)

-- In a registry with one assignment to a shard, GetNodeShards(node) lists a shard exactly when
-- GetAssignment gives the node for it.
pub contains-get_node_shards :
    (r : ShardRegistry) (node : Str) (i : ℤ)
    → IsValid r
    → contains (get_node_shards r node) i ≡ holds node (get_assignment r i)
unfolding get_node_shards get_assignment
contains-get_node_shards r node i v = contains-shards_of node r.assignments i v.unique
