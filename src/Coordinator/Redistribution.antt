-- ===== src/Coordinator/Redistribution.antt =====
-- When registrations and the callback for unhealthy nodes change the registry
-- (cmd/coordinator/main.go).
use torua.Base.{
  Option-cases, int_eq, ℕ, zero, suc, ◌+◌, ◌<◌, ◌≡◌, refl, sym, ap, ◌∙◌, Str, List, [], ◌∷◌, ◌++◌,
  Option, none, some, Bool, true, false, not, contains, keep, length, ℤ, pos, rounds, ◌==◌, str_eq,
  arith, Bool-cases, inl, inr,
}
use torua.Cluster.{NodeInfo, RegisterRequest}
use torua.Registry.{ShardRegistry, assign_shard, get_assignment, get_all_assignments}
use torua.Registry.Laws.{assign_shard_lem}
use torua.Registry.Laws
use torua.Http.{Method, get_method, put_method, delete_method, post_method, other}
use torua.Coordinator.{
  Server, AssignRequest, node_exists, is_eligible, assign_from, auto_assign_registry,
  auto_assign_shards, assigned_shards, handle_register, mark_node_unhealthy, on_unhealthy,
  handle_shard_assign, assign_request,
}
use torua.Coordinator.AssignLoop.{IsNamed, is_assigned}
use torua.Coordinator.AutoAssign.{auto_assign_registry_lem, contains-assigned}
use torua.Coordinator.Nodes.{IsComplete, keep-IsComplete, append-IsComplete}
use torua.Coordinator.Invariant.{IsValid}
use torua.Coordinator.Steps.{
  handle_register-IsValid, Step-IsValid, Step, Reach, register, assign, mark, assign_rest,
  health_round, here, next,
}

-- Every shard has an assignment.
abbrev pub IsCovered : ShardRegistry → Type 0
IsCovered r = (i : ℕ) → i < rounds r.num_shards → is_assigned (get_assignment r (pos i)) ≡ true

-- The loop does nothing where every shard that it visits is assigned.
assign_from_idle :
    (r : ShardRegistry) (healthy : List NodeInfo) (assigned : List ℤ) (index from left : ℕ)
    → ((i : ℕ) → i < from + left → contains assigned (pos i) ≡ true)
    → assign_from r healthy assigned index from left ≡ r
unfolding assign_from
assign_from_idle r healthy assigned index from zero h = refl
assign_from_idle r healthy assigned index from (suc left) h =
    rw (h from (omega arith))
      (assign_from_idle r healthy assigned index (from + 1) left (λ i k. h i (omega arith)))

pub auto_assign_idle :
    (r : ShardRegistry) (healthy : List NodeInfo)
    → Laws.IsValid r
    → IsCovered r
    → auto_assign_registry r healthy ≡ r
unfolding auto_assign_registry
auto_assign_idle r [] v c = refl
auto_assign_idle r (n ∷ ns) v c =
    assign_from_idle r (n ∷ ns) (assigned_shards (get_all_assignments r)) 0 0 (rounds r.num_shards)
      (λ i h. contains-assigned r (pos i) v ∙ c i (omega arith))

-- Once every shard is assigned, the callback for an unhealthy node changes no assignment: the
-- shards of that node stay with it. The node is only marked.
pub on_unhealthy_keeps_registry :
    (s : Server) (id : Str)
    → IsValid s
    → IsCovered s.registry
    → on_unhealthy s id ≡ mark_node_unhealthy s id
unfolding on_unhealthy auto_assign_shards mark_node_unhealthy
on_unhealthy_keeps_registry s id v c =
    ap (λ (r : ShardRegistry). record (mark_node_unhealthy s id) { registry = r })
      (auto_assign_idle s.registry (keep is_eligible (mark_node_unhealthy s id).nodes)
        v.placed.valid c)

-- Once every shard is assigned, no registration changes an assignment: a node that joins then gets
-- no shard.
pub handle_register_keeps_registry :
    (s : Server) (req : Option RegisterRequest)
    → IsValid s
    → IsCovered s.registry
    → (handle_register s req).0.registry ≡ s.registry
unfolding handle_register auto_assign_shards
handle_register_keeps_registry s none v c = refl
handle_register_keeps_registry s (some req) v c = ground (
  arith,
  auto_assign_idle s.registry (keep is_eligible (s.nodes ++ req.node ∷ [])) v.placed.valid c,
)

pub complete-IsNamed : (ns : List NodeInfo) → IsComplete ns → IsNamed ns
complete-IsNamed [] c = tt
complete-IsNamed (n ∷ ns) c = (c.0.0, complete-IsNamed ns c.1)

keep-append_pos :
    (p : NodeInfo → Bool) (ns : List NodeInfo) (n : NodeInfo)
    → p n ≡ true
    → 0 < length (keep p (ns ++ n ∷ []))
unfolding keep
keep-append_pos p [] n h = ground arith
keep-append_pos p (m ∷ ns) n h = ground (arith, keep-append_pos p ns n h)

auto_assign_covers :
    (r : ShardRegistry) (l : List NodeInfo) (i : ℕ)
    → Laws.IsValid r
    → IsNamed l
    → 0 < length l
    → i < rounds r.num_shards
    → is_assigned (get_assignment (auto_assign_registry r l) (pos i)) ≡ true
auto_assign_covers r [] i v named some_node h = elim some_node [ ]
auto_assign_covers r (n ∷ ns) i v named some_node h =
    ground (arith, auto_assign_registry_lem r n ns i v named h)

pub handle_register_new :
    (s : Server) (req : RegisterRequest)
    → not (req.node.id == []) ≡ true
    → not (req.node.addr == []) ≡ true
    → node_exists s.nodes req.node.id ≡ false
    → (handle_register s (some req)).0
      ≡ auto_assign_shards (record s { nodes = s.nodes ++ req.node ∷ [] })
unfolding handle_register
handle_register_new s req id addr new = ground arith

-- A new node that registers with an ID, an address and any status but "unhealthy" leaves every
-- shard assigned, whatever was assigned before.
pub handle_register_covers :
    (s : Server) (req : RegisterRequest)
    → IsValid s
    → not (req.node.id == []) ≡ true
    → not (req.node.addr == []) ≡ true
    → node_exists s.nodes req.node.id ≡ false
    → is_eligible req.node ≡ true
    → IsCovered (handle_register s (some req)).0.registry
handle_register_covers s req v id addr new ok =
    let t : Server = record s { nodes = s.nodes ++ req.node ∷ [] } in
    let four : (auto_assign_shards t).registry.num_shards ≡ pos 4 =
      ap (λ (u : Server). u.registry.num_shards) (sym (handle_register_new s req id addr new))
      ∙ (handle_register-IsValid s (some req) v).placed.four in
    rw (handle_register_new s req id addr new) (λ i h.
      unfold auto_assign_shards in
      auto_assign_covers s.registry (keep is_eligible (s.nodes ++ req.node ∷ [])) i v.placed.valid
        (complete-IsNamed _ (
          keep-IsComplete is_eligible (s.nodes ++ req.node ∷ [])
            (append-IsComplete s.nodes req.node id addr v.complete)))
        (keep-append_pos is_eligible s.nodes req.node ok)
        (omega (arith, ap rounds four, ap rounds v.placed.four)))

pub assign_shard-IsCovered :
    (r : ShardRegistry) (i : ℤ) (id : Str) (p : Bool)
    → IsCovered r
    → IsCovered (assign_shard r i id p).0
assign_shard-IsCovered r i id p c = λ j h.
    let same = (assign_shard_lem r i id p).1 in
    let old = c j (omega (arith, ap rounds same)) in
    ground (arith, (assign_shard_lem r i id p).2 (pos j), old)

assign_request-IsCovered :
    (s : Server) (req : Option AssignRequest)
    → IsCovered s.registry
    → IsCovered (assign_request s req).0.registry
unfolding assign_request
assign_request-IsCovered s none c = c
assign_request-IsCovered s (some req) c = elim (Bool-cases (node_exists s.nodes req.node_id)) [
  | inr e ↦ rw e c
  | inl e ↦
      rw e
        (elim (Option-cases (assign_shard s.registry req.shard_id req.node_id req.is_primary).1) [
          | inr (x, bad) ↦ rw bad c
          | inl fine ↦
              rw fine (assign_shard-IsCovered s.registry req.shard_id req.node_id req.is_primary c)
        ])
]

handle_shard_assign-IsCovered :
    (s : Server) (m : Method) (req : Option AssignRequest)
    → IsCovered s.registry
    → IsCovered (handle_shard_assign s m req).0.registry
unfolding handle_shard_assign
handle_shard_assign-IsCovered s post_method req c = assign_request-IsCovered s req c
handle_shard_assign-IsCovered s get_method req c = c
handle_shard_assign-IsCovered s put_method req c = c
handle_shard_assign-IsCovered s delete_method req c = c
handle_shard_assign-IsCovered s other req c = c

Step-IsCovered : {s t : Server} → Step s t → IsValid s → IsCovered s.registry → IsCovered t.registry
unfolding auto_assign_shards mark_node_unhealthy
Step-IsCovered (register s req) v c = rw (handle_register_keeps_registry s req v c) c
Step-IsCovered (assign s m req) v c = handle_shard_assign-IsCovered s m req c
Step-IsCovered (mark s id) v c = c
Step-IsCovered (assign_rest s) v c =
    rw (auto_assign_idle s.registry (keep is_eligible s.nodes) v.placed.valid c) c
Step-IsCovered (health_round s h) v c = c

-- From a state that satisfies the invariant and has every shard assigned, no sequence of
-- registrations, manual assignments, callbacks and health rounds leaves a shard unassigned.
pub Reach-IsCovered :
    {s t : Server} → IsValid s → IsCovered s.registry → Reach s t → IsValid t × IsCovered t.registry
Reach-IsCovered v c here = (v, c)
Reach-IsCovered v c (next r st) =
    let (v', c') = Reach-IsCovered v c r in (Step-IsValid st v', Step-IsCovered st v' c')
