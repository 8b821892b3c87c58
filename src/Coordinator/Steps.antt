-- ===== src/Coordinator/Steps.antt =====
-- The coordinator's invariant over sequences of requests, callbacks and health rounds. A callback
-- takes the server's lock to mark the node and gives it up before it assigns shards, so these are
-- two steps, with any others between them. `handleShardAssign` is one step, since no node is ever
-- taken from the list between its search and its call of AssignShard.
use torua.Base.{
  get, ◌∙◌, Option-cases, refl, Str, [], ◌∷◌, ◌++◌, Option, none, some, ◌||◌, ℤ, pos, ◌==◌, str_eq,
  arith, Bool-cases, inl, inr, ◌∙◌, ◌≡◌, false,
}
use torua.Cluster.{RegisterRequest}
use torua.Registry.{assign_shard, get_assignment}
use torua.Registry.Laws.{new_shard_registry-IsValid}
use torua.Health.{HealthMonitor}
use torua.Http.{Method, get_method, put_method, delete_method, post_method, other}
use torua.Coordinator.{
  Server, AssignRequest, replace_node, mark_in, new_server, node_exists, auto_assign_shards,
  handle_register, mark_node_unhealthy, handle_shard_assign, assign_request,
}
use torua.Coordinator.Nodes.{
  node_exists-mark_in, mark_in-IsComplete, mark_in-IsDistinct, node_exists-replace_node,
  replace_node-IsComplete, replace_node-IsDistinct, node_exists-append, append-IsComplete,
  append-IsDistinct,
}
use torua.Coordinator.Invariant.{
  IsValid, auto_assign_shards-IsValid, IsPlaced_mono, assign_shard-IsPlaced,
}

pub new_server-IsValid : (parse : Str → Option ℤ) (env : Str) → IsValid (new_server parse env)
unfolding new_server get_assignment get
new_server-IsValid parse env = record {
  placed = record {
    valid = new_shard_registry-IsValid (pos 4);
    four = refl;
    members = λ j a e. ground arith;
  };
  complete = tt;
  distinct = tt;
}

pub mark_node_unhealthy-IsValid :
    (s : Server) (id : Str) → IsValid s → IsValid (mark_node_unhealthy s id)
unfolding mark_node_unhealthy
mark_node_unhealthy-IsValid s id v = record {
  placed =
      IsPlaced_mono (node_exists s.nodes) (node_exists (mark_in s.nodes id)) s.registry
        (λ k h. node_exists-mark_in s.nodes id k ∙ h) v.placed;
  complete = mark_in-IsComplete s.nodes id v.complete;
  distinct = mark_in-IsDistinct s.nodes id v.distinct;
}

-- The two changes of the node list by a registration that is accepted.
pub replaced-IsValid :
    (s : Server) (req : RegisterRequest)
    → (req.node.id == [] || req.node.addr == []) ≡ false
    → IsValid s
    → IsValid (record s { nodes = replace_node s.nodes req.node })
replaced-IsValid s req e v = record {
  placed =
      IsPlaced_mono (node_exists s.nodes) (node_exists (replace_node s.nodes req.node)) s.registry
        (λ k h. node_exists-replace_node s.nodes req.node k ∙ h) v.placed;
  complete = replace_node-IsComplete s.nodes req.node (ground arith) (ground arith) v.complete;
  distinct = replace_node-IsDistinct s.nodes req.node v.distinct;
}

pub appended-IsValid :
    (s : Server) (req : RegisterRequest)
    → (req.node.id == [] || req.node.addr == []) ≡ false
    → node_exists s.nodes req.node.id ≡ false
    → IsValid s
    → IsValid (record s { nodes = s.nodes ++ req.node ∷ [] })
appended-IsValid s req e new v = record {
  placed =
      IsPlaced_mono (node_exists s.nodes) (node_exists (s.nodes ++ req.node ∷ [])) s.registry
        (λ k h. node_exists-append s.nodes req.node k ∙ ground arith) v.placed;
  complete = append-IsComplete s.nodes req.node (ground arith) (ground arith) v.complete;
  distinct = append-IsDistinct s.nodes req.node new v.distinct;
}

pub handle_register-IsValid :
    (s : Server) (req : Option RegisterRequest) → IsValid s → IsValid (handle_register s req).0
unfolding handle_register
handle_register-IsValid s none v = v
handle_register-IsValid s (some req) v =
    elim (Bool-cases (req.node.id == [] || req.node.addr == [])) [
      | inl e ↦ rw e v
      | inr e ↦ rw e (elim (Bool-cases (node_exists s.nodes req.node.id)) [
        | inl old ↦ rw old (replaced-IsValid s req e v)
        | inr new ↦ rw new (auto_assign_shards-IsValid _ (appended-IsValid s req e new v))
      ])
    ]

assign_request-IsValid :
    (s : Server) (req : Option AssignRequest) → IsValid s → IsValid (assign_request s req).0
unfolding assign_request
assign_request-IsValid s none v = v
assign_request-IsValid s (some req) v = elim (Bool-cases (node_exists s.nodes req.node_id)) [
  | inr e ↦ rw e v
  | inl e ↦
      rw e
        (elim (Option-cases (assign_shard s.registry req.shard_id req.node_id req.is_primary).1) [
          | inr (x, bad) ↦ rw bad v
          | inl fine ↦ rw fine (record {
            placed =
                assign_shard-IsPlaced (node_exists s.nodes) s.registry req.shard_id req.node_id
                  req.is_primary (λ _. e) v.placed;
            complete = v.complete;
            distinct = v.distinct;
          })
        ])
]

pub handle_shard_assign-IsValid :
    (s : Server) (m : Method) (req : Option AssignRequest)
    → IsValid s
    → IsValid (handle_shard_assign s m req).0
unfolding handle_shard_assign
handle_shard_assign-IsValid s post_method req v = assign_request-IsValid s req v
handle_shard_assign-IsValid s get_method req v = v
handle_shard_assign-IsValid s put_method req v = v
handle_shard_assign-IsValid s delete_method req v = v
handle_shard_assign-IsValid s other req v = v

-- What may happen to the coordinator. `mark` and `assign_rest` are the two parts of the callback;
-- `health_round` stands for any change of the monitor's records.
pub data Step : Server → Server → Type 0 where
  register : (s : Server) (req : Option RegisterRequest) → Step s (handle_register s req).0
  assign :
      (s : Server) (m : Method) (req : Option AssignRequest)
      → Step s (handle_shard_assign s m req).0
  mark : (s : Server) (id : Str) → Step s (mark_node_unhealthy s id)
  assign_rest : (s : Server) → Step s (auto_assign_shards s)
  health_round : (s : Server) (h : HealthMonitor) → Step s (record s { monitor = h })

pub data Reach (s : Server) : Server → Type 0 where
  here : Reach s s
  next : {t u : Server} → Reach s t → Step t u → Reach s u

pub Step-IsValid : {s t : Server} → Step s t → IsValid s → IsValid t
Step-IsValid (register s req) v = handle_register-IsValid s req v
Step-IsValid (assign s m req) v = handle_shard_assign-IsValid s m req v
Step-IsValid (mark s id) v = mark_node_unhealthy-IsValid s id v
Step-IsValid (assign_rest s) v = auto_assign_shards-IsValid s v
Step-IsValid (health_round s h) v = record {
  placed = v.placed;
  complete = v.complete;
  distinct = v.distinct;
}

-- Whatever registrations, manual assignments, callbacks and health rounds a new coordinator goes
-- through, in any order: the registry is well-formed over four shards, every assignment names a
-- registered node, node IDs are distinct, and no node lacks an ID or an address.
pub Reach-IsValid :
    (parse : Str → Option ℤ) (env : Str) {s : Server} → Reach (new_server parse env) s → IsValid s
Reach-IsValid parse env here = new_server-IsValid parse env
Reach-IsValid parse env (next r st) = Step-IsValid st (Reach-IsValid parse env r)

pub Reach_from-IsValid : {s t : Server} → Reach s t → IsValid s → IsValid t
Reach_from-IsValid here v = v
Reach_from-IsValid (next r st) v = Step-IsValid st (Reach_from-IsValid r v)
