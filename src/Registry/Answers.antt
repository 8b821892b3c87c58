-- ===== src/Registry/Answers.antt =====
-- Sequences of calls to the registry of internal/coordinator/shard_registry.go, against a table from
-- shard numbers to a node and the primary flag.
use torua.Base.{
  ◌≡◌, refl, ap, ◌∙◌, ℕ, suc, ◌%◌, Str, List, [], ◌∷◌, Option, none, some, Bool, false, ltb, ℤ, pos,
  negsuc, if◌then◌else◌, ◌==◌, int_eq, str_eq, arith, get, get-put, get-remove, in_range,
  int_beq_iff, zero, str_beq,
}
use torua.Fnv.{sum32}
use torua.Registry.{
  ShardRegistry, ShardAssignment, RegistryError, invalid_shard_id, empty_node_id, not_assigned,
  new_shard_registry, assign_shard, remove_shard, get_assignment, get_node_for_key,
  get_shard_for_key, Routed, to_node, failed, node_of, division_by_zero,
}

pub data Call : Type 0 where
  assigns : ℤ → Str → Bool → Call
  removes : ℤ → Call
  asks : ℤ → Call
  locates : Str → Call

-- What a caller gets.
pub data Answer : Type 0 where
  finished : Option RegistryError → Answer
  shown : Option ShardAssignment → Answer
  located : Routed → Answer

unfoldable pub serve : ShardRegistry → Call → ShardRegistry × Answer
serve r (assigns i n p) = let (r', e) = assign_shard r i n p in (r', finished e)
serve r (removes i) = let (r', e) = remove_shard r i in (r', finished e)
serve r (asks i) = (r, shown (get_assignment r i))
serve r (locates key) = (r, located (get_node_for_key r key))

unfoldable pub registry_answers : ShardRegistry → List Call → List Answer
unfolding serve
registry_answers r [] = []
registry_answers r (c ∷ cs) = let (r', a) = serve r c in a ∷ registry_answers r' cs

-- The node and the primary flag of each shard that is assigned.
abbrev pub Table : Type 0
Table = ℤ → Option (Str × Bool)

abbrev is_shard : ℕ → ℤ → Bool
is_shard n (pos k) = ltb k n
is_shard n (negsuc k) = false

abbrev entry : ℤ → Option (Str × Bool) → Option ShardAssignment
entry i none = none
entry i (some (n, p)) = some (record { node_id = n; is_primary = p; shard_id = i })

abbrev owner : ℤ → Option (Str × Bool) → Routed
owner i none = failed (not_assigned i)
owner i (some (n, p)) = to_node n

pub table_step : ℕ → Table → Call → Table × Answer
table_step m f (assigns i [] p) =
    if is_shard m i
    then (f, finished (some empty_node_id))
    else (f, finished (some (invalid_shard_id i (pos m))))
table_step m f (assigns i (c ∷ n) p) =
    if is_shard m i
    then ((λ j. if i == j then some (c ∷ n, p) else f j), finished none)
    else (f, finished (some (invalid_shard_id i (pos m))))
table_step m f (removes i) =
    if is_shard m i
    then ((λ j. if i == j then none else f j), finished none)
    else (f, finished (some (invalid_shard_id i (pos m))))
table_step m f (asks i) = (f, shown (entry i (f i)))
table_step zero f (locates key) = (f, located (failed division_by_zero))
table_step (suc m) f (locates key) =
    (f, located (owner (pos (sum32 key % suc m)) (f (pos (sum32 key % suc m)))))

pub table_answers : ℕ → Table → List Call → List Answer
table_answers m f [] = []
table_answers m f (c ∷ cs) = (table_step m f c).1 ∷ table_answers m (table_step m f c).0 cs

node_of-entry : (i : ℤ) (o : Option (Str × Bool)) → node_of i (entry i o) ≡ owner i o
unfolding node_of
node_of-entry i none = refl
node_of-entry i (some (n, p)) = refl

record Represents (m : ℕ) (r : ShardRegistry) (f : Table) : Type 0 where
  size : r.num_shards ≡ pos m
  holds : (j : ℤ) → get r.assignments j ≡ entry j (f j)

in_range-is_shard : (m : ℕ) (i : ℤ) → in_range i (pos m) ≡ is_shard m i
in_range-is_shard m (pos k) = refl
in_range-is_shard m (negsuc k) = refl

step-Represents :
    (m : ℕ) (r : ShardRegistry) (f : Table) (c : Call)
    → Represents m r f
    → Represents m (serve r c).0 (table_step m f c).0 × ((serve r c).1 ≡ (table_step m f c).1)
unfolding serve table_step assign_shard remove_shard get_assignment get_node_for_key
    get_shard_for_key str_beq
step-Represents m r f (assigns i [] p) h =
    let inside : in_range i r.num_shards ≡ is_shard m i =
      ap (in_range i) h.size ∙ in_range-is_shard m i in
    (
      record {
        size = ground (arith, inside, h.size);
        holds = λ j. ground (arith, inside, h.holds j);
      },
      ground (arith, inside, h.size),
    )
step-Represents m r f (assigns i (c ∷ n) p) h =
    let inside : in_range i r.num_shards ≡ is_shard m i =
      ap (in_range i) h.size ∙ in_range-is_shard m i in
    let one : ShardAssignment = record { node_id = c ∷ n; is_primary = p; shard_id = i } in
    (
      record {
        size = ground (arith, inside, h.size);
        holds =
            λ j. ground (arith, inside, h.holds j, get-put r.assignments i j one, int_beq_iff i j);
      },
      ground (arith, inside, h.size),
    )
step-Represents m r f (removes i) h =
    let inside : in_range i r.num_shards ≡ is_shard m i =
      ap (in_range i) h.size ∙ in_range-is_shard m i in
    (
      record {
        size = ground (arith, inside, h.size);
        holds =
            λ j. ground (arith, inside, h.holds j, get-remove r.assignments i j, int_beq_iff i j);
      },
      ground (arith, inside, h.size),
    )
step-Represents m r f (asks i) h = (h, ap shown (h.holds i))
step-Represents zero r f (locates key) h = (h, rw h.size refl)
step-Represents (suc m) r f (locates key) h =
    let i = pos (sum32 key % suc m) in
    (h, rw h.size (rw (h.holds i) (ap located (node_of-entry i (f i)))))

answers_of :
    (m : ℕ) (r : ShardRegistry) (f : Table) (cs : List Call)
    → Represents m r f
    → registry_answers r cs ≡ table_answers m f cs
unfolding registry_answers table_answers
answers_of m r f [] h = refl
answers_of m r f (c ∷ cs) h =
    let (kept, same) = step-Represents m r f c h in
    cc (same, answers_of m (serve r c).0 (table_step m f c).0 cs kept)

-- A new registry of any number of shards answers every sequence of AssignShard, RemoveShard,
-- GetAssignment and GetNodeForKey as an empty table from shard numbers to a node and the primary flag
-- does. A shard number that is negative or not below the number of shards is refused with that number,
-- and else an empty node ID; a call that is refused changes nothing. An accepted AssignShard sets the
-- entry of its shard, whatever it was, and an accepted RemoveShard clears it. GetAssignment shows the
-- entry. GetNodeForKey gives the node of the entry at the FNV-1a hash of the key modulo the number of
-- shards, an error if there is none, and panics if the number of shards is zero.
pub registry_answers-refine :
    (m : ℕ) (cs : List Call)
    → registry_answers (new_shard_registry (pos m)) cs ≡ table_answers m (λ i. none) cs
unfolding new_shard_registry get
registry_answers-refine m cs =
    answers_of m (new_shard_registry (pos m)) (λ i. none) cs
      (record { size = refl; holds = λ j. refl })
