-- ===== src/Coordinator/Threads/Progress.antt =====
-- What one part of a job leaves done, of `autoAssignShards` in cmd/coordinator/main.go.
use torua.Coordinator.Invariant.{IsValid}
use torua.Coordinator.Nodes.{keep-IsComplete}
use torua.Base.{
  ℕ, zero, suc, ◌+◌, ◌<◌, ◌≡◌, ◌∙◌, ap, sym, Str, List, [], ◌∷◌, Bool, true, All, length, keep,
  contains, ℤ, pos, rounds, str_eq, int_eq, arith, Bool-cases, inl, inr, either_branch, ltb, ltb→lt,
}
use torua.Cluster.{NodeInfo}
use torua.Registry.{ShardRegistry, assign_shard, get_assignment}
use torua.Registry.Laws.{assign_shard_lem}
use torua.Coordinator.{Server, is_eligible, id_at}
use torua.Coordinator.AssignLoop.{IsNamed, is_assigned, id_at-named}
use torua.Coordinator.AutoAssign.{contains-assigned}
use torua.Coordinator.Redistribution.{complete-IsNamed}
use torua.Coordinator.Threads.{
  Job, waiting, chosen, looping, checked, proceed, assign_one, chosen_nodes, next_index,
}

-- The shards of the registry of which it is known that they have an assignment.
abbrev pub Has : ShardRegistry → ℕ → Type 0
Has r j = is_assigned (get_assignment r (pos j)) ≡ true

-- A job has named nodes, an index among them, a snapshot that is still right, and has assigned every
-- shard that it has passed.
pub record IsOnTrack (r : ShardRegistry) (healthy : List NodeInfo) (assigned : List ℤ)
    (index i left : ℕ) : Type 0 where
  pub named : IsNamed healthy
  pub within : index < length healthy
  pub ends : i + left ≡ 4
  pub right : (j : ℕ) → contains assigned (pos j) ≡ true → Has r j
  pub passed : (j : ℕ) → j < i → Has r j

abbrev pub IsGood : ShardRegistry → Job → Type 0
IsGood r waiting = Unit
IsGood r (chosen healthy) = IsNamed healthy × (0 < length healthy)
IsGood r (looping healthy assigned index i left) = IsOnTrack r healthy assigned index i left
IsGood r (checked req) = Unit

-- One registry has all the assignments that another has.
abbrev pub Keeps : ShardRegistry → ShardRegistry → Type 0
Keeps r t = (j : ℕ) → Has r j → Has t j

pub IsGood-mono : (r t : ShardRegistry) (j : Job) → Keeps r t → IsGood r j → IsGood t j
IsGood-mono r t waiting k h = tt
IsGood-mono r t (chosen healthy) k h = h
IsGood-mono r t (looping healthy assigned index i left) k h = record {
  named = h.named;
  within = h.within;
  ends = h.ends;
  right = λ j e. k j (h.right j e);
  passed = λ j e. k j (h.passed j e);
}
IsGood-mono r t (checked req) k h = tt

assign_shard-Keeps :
    (r : ShardRegistry) (i : ℤ) (id : Str) (p : Bool) → Keeps r (assign_shard r i id p).0
assign_shard-Keeps r i id p j h = ground (arith, (assign_shard_lem r i id p).2 (pos j), h)

pub proceed-Keeps : (s : Server) (j : Job) → Keeps s.registry (proceed s j).0.registry
unfolding proceed
proceed-Keeps s waiting k h = h
proceed-Keeps s (chosen healthy) k h = h
proceed-Keeps s (looping healthy assigned index i zero) k h = h
proceed-Keeps s (looping healthy assigned index i (suc left)) k h =
    either_branch (λ (t : Server). Has t.registry k) (contains assigned (pos i)) h
      (assign_shard-Keeps s.registry (pos i) (id_at healthy index) true k h)
proceed-Keeps s (checked req) k h =
    assign_shard-Keeps s.registry req.shard_id req.node_id req.is_primary k h

chosen_nodes-IsGood :
    (r : ShardRegistry) (ns : List NodeInfo) → IsNamed ns → All (IsGood r) (chosen_nodes ns)
unfolding chosen_nodes
chosen_nodes-IsGood r [] h = tt
chosen_nodes-IsGood r (n ∷ ns) h = ((h, omega arith), tt)

-- A round leaves the shard that it visits with an assignment.
assign_one-Has :
    (s : Server) (healthy : List NodeInfo) (assigned : List ℤ) (index i left : ℕ)
    → s.registry.num_shards ≡ pos 4
    → IsOnTrack s.registry healthy assigned index i (suc left)
    → Has (assign_one s healthy assigned index i).registry i
unfolding assign_one
assign_one-Has s healthy assigned index i left four h =
    let named = id_at-named healthy index h.named h.within in
    let small : i < 4 = omega (arith, h.ends) in
    elim (Bool-cases (contains assigned (pos i))) [
      | inl e ↦ rw e (h.right i e)
      | inr e ↦ rw e (
          ground (
            arith,
            (assign_shard_lem s.registry (pos i) (id_at healthy index) true).2 (pos i),
            named,
            small,
            four,
          ))
    ]

next_index-lt :
    (healthy : List NodeInfo) (assigned : List ℤ) (index i : ℕ)
    → index < length healthy
    → next_index healthy assigned index i < length healthy
unfolding next_index
next_index-lt healthy assigned index i h =
    either_branch (λ x. x < length healthy) (contains assigned (pos i)) h (omega arith)

pub proceed-IsGood :
    (s : Server) (j : Job)
    → IsValid s
    → IsGood s.registry j
    → All (IsGood (proceed s j).0.registry) (proceed s j).1
unfolding proceed
proceed-IsGood s waiting v h =
    chosen_nodes-IsGood s.registry (keep is_eligible s.nodes)
      (complete-IsNamed _ (keep-IsComplete is_eligible s.nodes v.complete))
proceed-IsGood s (chosen healthy) v h = (
  record {
    named = h.0;
    within = h.1;
    ends = omega (arith, ap rounds v.placed.four);
    right = λ j e. sym (contains-assigned s.registry (pos j) v.placed.valid) ∙ e;
    passed = λ j e. elim e [ ];
  },
  tt,
)
proceed-IsGood s (looping healthy assigned index i zero) v h = tt
proceed-IsGood s (looping healthy assigned index i (suc left)) v h =
    let keeps = proceed-Keeps s (looping healthy assigned index i (suc left)) in
    let visited = assign_one-Has s healthy assigned index i left v.placed.four h in
    (
      record {
        named = h.named;
        within = next_index-lt healthy assigned index i h.within;
        ends = omega (arith, h.ends);
        right = λ j e. keeps j (h.right j e);
        passed = λ j e. elim (Bool-cases (ltb j i)) [
          | inl lt ↦ keeps j (h.passed j (ltb→lt j i lt))
          | inr ge ↦ let same : j ≡ i = ground arith in rw same visited
        ];
      },
      tt,
    )
proceed-IsGood s (checked req) v h = tt

pub All-IsGood_mono :
    (r t : ShardRegistry) (jobs : List Job) → Keeps r t → All (IsGood r) jobs → All (IsGood t) jobs
All-IsGood_mono r t [] k h = tt
All-IsGood_mono r t (j ∷ jobs) k h = (IsGood-mono r t j k h.0, All-IsGood_mono r t jobs k h.1)
