-- ===== src/Registry/Balance.antt =====
-- How evenly RebalanceShards spreads the shards, internal/coordinator/shard_registry.go.
use native.Mathlib.Nat.{suc-mod, mod-eq_of_lt, mod-lt, mod_self, div-add-mod', div-eq_of_lt-le}
use torua.Base.{
  ◌∷◌, ◌⊎◌, ltb→lt, lt_of_get_elem?, ℕ, zero, suc, ◌+◌, ◌%◌, ◌/◌, ◌<◌, ◌≡◌, refl, ap, ◌∙◌, Str,
  List, some, Bool, pos, get_elem?, if◌then◌else◌, str_eq, arith, ltb, nat_beq, Bool-cases, inl,
  inr, rounds, length, str_beq_iff, lt→ltb,
}
use torua.Registry.{ShardRegistry, get_assignment, rebalance_shards}
use torua.Registry.Laws.{holds}
use torua.Registry.Rebalance.{get-rebalance_shards}

-- How many numbers below n satisfy the test.
pub count_below : (ℕ → Bool) → ℕ → ℕ
count_below p zero = 0
count_below p (suc n) = let rest = count_below p n in if p n then suc rest else rest

count_below_ext :
    (p q : ℕ → Bool) (n : ℕ) → ((i : ℕ) → i < n → p i ≡ q i) → count_below p n ≡ count_below q n
unfolding count_below
count_below_ext p q zero h = refl
count_below_ext p q (suc n) h =
    ground (arith, h n, count_below_ext p q n (λ i k. h i (omega arith)))

-- One more in a division by suc m.
mod_step :
    (n m : ℕ)
    → ((n % suc m ≡ m) × (suc n % suc m ≡ 0) × (suc n / suc m ≡ n / suc m + 1))
      ⊎ ((n % suc m < m) × (suc n % suc m ≡ n % suc m + 1) × (suc n / suc m ≡ n / suc m))
mod_step n m = elim (Bool-cases (ltb (n % suc m) m)) [
  | inl e ↦ inr (
    ltb→lt _ _ e,
    suc-mod n (suc m) ∙ mod-eq_of_lt (omega (arith, ltb→lt (n % suc m) m e)) ∙ omega arith,
    div-eq_of_lt-le (suc m) (omega (arith, div-add-mod' n (suc m)))
        (omega (arith, div-add-mod' n (suc m), ltb→lt (n % suc m) m e)),
  )
  | inr e ↦
      let full : n % suc m ≡ m = ground (arith, mod-lt n {m = suc m} (omega arith)) in
      inl (
        full,
        suc-mod n (suc m) ∙ ap (λ r. suc r % suc m) full ∙ mod_self (suc m),
        div-eq_of_lt-le (suc m) (omega (arith, div-add-mod' n (suc m), full))
            (omega (arith, div-add-mod' n (suc m), full)),
      )
]

-- The numbers below n with remainder j modulo suc m.
count-mod :
    (m j n : ℕ)
    → j < suc m
    → count_below (λ i. nat_beq (i % suc m) j) n ≡ n / suc m + (if ltb j (n % suc m) then 1 else 0)
unfolding count_below
count-mod m j zero h = ground arith
count-mod m j (suc n) h = ground (arith, mod_step n m, count-mod m j n h)

-- `nodes` holds no ID twice: the place of an ID is unique.
abbrev pub IsDistinct : List Str → Type 0
IsDistinct nodes =
    (i j : ℕ) (a : Str) → get_elem? nodes i ≡ some a → get_elem? nodes j ≡ some a → i ≡ j

-- How many of the shards 0 .. n - 1 are assigned to the node.
abbrev pub load : ShardRegistry → Str → ℕ → ℕ
load r node n = count_below (λ i. holds node (get_assignment r (pos i))) n

-- Placement by the test of the remainder.
holds-rebalance_shards :
    (r : ShardRegistry) (n : Str) (ns : List Str) (j i : ℕ) (node : Str)
    → IsDistinct (n ∷ ns)
    → get_elem? (n ∷ ns) j ≡ some node
    → i < rounds r.num_shards
    → holds node (get_assignment (rebalance_shards r (n ∷ ns)).0 (pos i))
      ≡ nat_beq (i % suc (length ns)) j
holds-rebalance_shards r n ns j i node d at h =
    let (found, found_at, fine, e) = get-rebalance_shards r n ns i in
    ground (
      arith,
      e,
      lt→ltb i (rounds r.num_shards) h,
      str_beq_iff found node,
      d (i % suc (length ns)) j node,
      at,
      found_at,
    )

-- After RebalanceShards over distinct node IDs, the node at place j of the list has
-- numShards / len(nodes) shards, and one more exactly when j < numShards % len(nodes).
pub load-rebalance_shards :
    (r : ShardRegistry) (n : Str) (ns : List Str) (j : ℕ) (node : Str)
    → IsDistinct (n ∷ ns)
    → get_elem? (n ∷ ns) j ≡ some node
    → load (rebalance_shards r (n ∷ ns)).0 node (rounds r.num_shards)
      ≡ rounds r.num_shards / length (n ∷ ns)
        + (if ltb j (rounds r.num_shards % length (n ∷ ns)) then 1 else 0)
load-rebalance_shards r n ns j node d at =
    count_below_ext _ (λ i. nat_beq (i % suc (length ns)) j) (rounds r.num_shards)
      (λ i h. holds-rebalance_shards r n ns j i node d at h)
    ∙ count-mod (length ns) j (rounds r.num_shards) (lt_of_get_elem? (n ∷ ns) j node at)
