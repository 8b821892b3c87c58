-- ===== src/Coordinator/AssignLoop.antt =====
-- The loop of autoAssignShards, cmd/coordinator/main.go.
use native.Mathlib.Nat.{mod-eq_of_lt, mod-add-mod, mod-lt}
use torua.Base.{
  ℕ, zero, suc, ◌+◌, ◌%◌, ◌≤◌, ◌<◌, ◌≡◌, ◌≢◌, refl, ap, ◌∙◌, List, [], ◌∷◌, Option, none, some,
  Bool, true, false, not, length, contains, All, ℤ, pos, negsuc, rounds, in_range, if◌then◌else◌,
  ◌==◌, int_eq, int_beq_iff, str_eq, arith, lt→ltb, Bool-cases, inl, inr,
}
use torua.Cluster.{NodeInfo}
use torua.Registry.{ShardAssignment, ShardRegistry, assign_shard, get_assignment}
use torua.Registry.Laws.{assign_shard_lem}
use torua.Coordinator.{id_at, assign_from}

abbrev pub IsNamed : List NodeInfo → Type 0
IsNamed = All (λ n. not (n.id == []) ≡ true)

pub id_at-named :
    (nodes : List NodeInfo) (i : ℕ)
    → IsNamed nodes
    → i < length nodes
    → not (id_at nodes i == []) ≡ true
unfolding id_at
id_at-named [] i h lt = elim lt [ ]
id_at-named (n ∷ ns) zero h lt = h.0
id_at-named (n ∷ ns) (suc i) h lt = id_at-named ns i h.1 (omega arith)

pub in_range_of_lt : (i : ℕ) (n : ℤ) → i < rounds n → in_range (pos i) n ≡ true
in_range_of_lt i (pos n) h = lt→ltb i n h
in_range_of_lt i (negsuc n) h = elim h [ ]

abbrev pub is_assigned : Option ShardAssignment → Bool
is_assigned none = false
is_assigned (some a) = true

-- One round of the loop.
abbrev step_registry : ShardRegistry → List NodeInfo → List ℤ → ℕ → ℕ → ShardRegistry
step_registry r healthy assigned index i =
    if contains assigned (pos i) then r else (assign_shard r (pos i) (id_at healthy index) true).0

-- What a round writes.
abbrev pub auto : List NodeInfo → ℕ → ℕ → ShardAssignment
auto healthy index i = record { node_id = id_at healthy index; is_primary = true; shard_id = pos i }

-- How many of the shards from, ..., from + k - 1 are not assigned.
pub gap : List ℤ → ℕ → ℕ → ℕ
gap assigned from zero = 0
gap assigned from (suc k) =
    let rest = gap assigned (from + 1) k in if contains assigned (pos from) then rest else suc rest

module _ (healthy : List NodeInfo) (assigned : List ℤ) where
  num_shards-step :
      (r : ShardRegistry) (index i : ℕ)
      → (step_registry r healthy assigned index i).num_shards ≡ r.num_shards
  num_shards-step r index i =
      ground (arith, (assign_shard_lem r (pos i) (id_at healthy index) true).1)

  get-step_other :
      (r : ShardRegistry) (index i : ℕ) (j : ℤ)
      → j ≢ pos i
      → get_assignment (step_registry r healthy assigned index i) j ≡ get_assignment r j
  get-step_other r index i j ne =
      ground
        (arith, (assign_shard_lem r (pos i) (id_at healthy index) true).2 j, int_beq_iff (pos i) j)

  get-step_self :
      (r : ShardRegistry) (index i : ℕ)
      → IsNamed healthy
      → index < length healthy
      → i < rounds r.num_shards
      → get_assignment (step_registry r healthy assigned index i) (pos i) ≡ (
          if contains assigned (pos i)
          then get_assignment r (pos i)
          else some (auto healthy index i))
  get-step_self r index i named lt inside = ground (
    arith,
    (assign_shard_lem r (pos i) (id_at healthy index) true).2 (pos i),
    id_at-named healthy index named lt,
    in_range_of_lt i r.num_shards inside,
  )

  abbrev next_index : ℕ → ℕ → ℕ
  next_index index i = if contains assigned (pos i) then index else (index + 1) % length healthy

  -- The loop writes only to the shards that it visits.
  pub get-assign_from_outside :
      (r : ShardRegistry) (index from left : ℕ) (j : ℤ)
      → ((k : ℕ) → from ≤ k → k < from + left → j ≢ pos k)
      → get_assignment (assign_from r healthy assigned index from left) j ≡ get_assignment r j
  unfolding assign_from
  get-assign_from_outside r index from zero j out = refl
  get-assign_from_outside r index from (suc left) j out =
      get-assign_from_outside (step_registry r healthy assigned index from) (next_index index from)
        (from + 1) left j (λ k a b. out k (omega arith) (omega arith))
      ∙ get-step_other r index from j (out from (omega arith) (omega arith))

  next_index-lt : (index i : ℕ) → index < length healthy → next_index index i < length healthy
  next_index-lt index i h = ground (arith, mod-lt (index + 1) {m = length healthy} (omega arith))

  -- The index for the shard that lies k places on, seen from this place and from the next.
  gap_step :
      (index from k : ℕ)
      → (next_index index from + gap assigned (from + 1) k) % length healthy
        ≡ (index + gap assigned from (suc k)) % length healthy
  unfolding gap
  gap_step index from k = elim (Bool-cases (contains assigned (pos from))) [
    | inl e ↦ rw e
    | inr e ↦ rw e (
        mod-add-mod (index + 1) (length healthy) (gap assigned (from + 1) k)
        ∙ ap (λ x. x % length healthy) (omega arith))
  ]

  index_zero :
      (index from : ℕ)
      → index < length healthy
      → (index + gap assigned from 0) % length healthy ≡ index
  unfolding gap
  index_zero index from h = ap (λ x. x % length healthy) (omega arith) ∙ mod-eq_of_lt h

  pub get-assign_from :
      (r : ShardRegistry) (index from left k i : ℕ)
      → IsNamed healthy
      → index < length healthy
      → from + left ≤ rounds r.num_shards
      → k < left
      → i ≡ from + k
      → get_assignment (assign_from r healthy assigned index from left) (pos i) ≡ (
          if contains assigned (pos i)
          then get_assignment r (pos i)
          else some (auto healthy ((index + gap assigned from k) % length healthy) i))
  unfolding assign_from
  get-assign_from r index from zero k i named lt room h e = elim h [ ]
  get-assign_from r index from (suc left) zero i named lt room h e =
      let here : i ≡ from = omega arith in
      rw here (
        get-assign_from_outside (step_registry r healthy assigned index from)
          (next_index index from) (from + 1) left (pos from) (λ k a b eq. ground arith)
        ∙ get-step_self r index from named lt (omega arith)
        ∙ rw (index_zero index from lt))
  get-assign_from r index from (suc left) (suc k) i named lt room h e =
      get-assign_from (step_registry r healthy assigned index from) (next_index index from)
        (from + 1) left k i named (next_index-lt index from lt)
        (omega (arith, ap rounds (num_shards-step r index from))) (omega arith) (omega arith)
      ∙ rw (get-step_other r index from (pos i) (λ eq. ground arith), gap_step index from k)
