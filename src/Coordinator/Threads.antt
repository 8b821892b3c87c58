-- ===== src/Coordinator/Threads.antt =====
-- The coordinator's handlers and callbacks in their locked parts, cmd/coordinator/main.go. The
-- callback runs `autoAssignShards` without the server's lock, and `handleShardAssign` gives it up
-- before it calls AssignShard, so the calls of the registry mix in any order. `handleRegister` holds
-- the lock over its `autoAssignShards`; here others may mix with that too.
pub mod Safety
pub mod Progress
pub mod Coverage
use torua.Health.{HealthMonitor}
use torua.Base.{
  ℕ, zero, suc, ◌+◌, ◌%◌, ◌≡◌, Str, List, [], ◌∷◌, ◌++◌, Option, none, some, Bool, not, ◌||◌,
  length, keep, contains, ℤ, pos, rounds, if◌then◌else◌, ◌==◌, str_eq, int_eq, true,
}
use torua.Cluster.{NodeInfo, RegisterRequest}
use torua.Registry.{assign_shard, get_all_assignments}
use torua.Coordinator.{
  Server, AssignRequest, node_exists, replace_node, is_eligible, assigned_shards, id_at,
  mark_node_unhealthy,
}

-- What is left of a handler or a callback: `autoAssignShards` before it reads the nodes, before it
-- reads the assignments, and in its loop; `handleShardAssign` before AssignShard.
pub data Job : Type 0 where
  waiting : Job
  chosen : List NodeInfo → Job
  looping : List NodeInfo → List ℤ → ℕ → ℕ → ℕ → Job
  checked : AssignRequest → Job

pub record Machine : Type 0 where
  pub server : Server
  pub jobs : List Job

chosen_nodes : List NodeInfo → List Job
chosen_nodes [] = []
chosen_nodes (n ∷ ns) = chosen (n ∷ ns) ∷ []

-- One round of the loop.
assign_one : Server → List NodeInfo → List ℤ → ℕ → ℕ → Server
assign_one s healthy assigned index i =
    if contains assigned (pos i)
    then s
    else record s { registry = (assign_shard s.registry (pos i) (id_at healthy index) true).0 }

next_index : List NodeInfo → List ℤ → ℕ → ℕ → ℕ
next_index healthy assigned index i =
    if contains assigned (pos i) then index else (index + 1) % length healthy

-- The next locked part of a job: the server after it, and what is left to do.
unfoldable pub proceed : Server → Job → Server × List Job
unfolding chosen_nodes assign_one next_index
proceed s waiting = (s, chosen_nodes (keep is_eligible s.nodes))
proceed s (chosen healthy) = (
  s,
  looping healthy (assigned_shards (get_all_assignments s.registry)) 0 0
        (rounds s.registry.num_shards)
      ∷ [],
)
proceed s (looping healthy assigned index i zero) = (s, [])
proceed s (looping healthy assigned index i (suc left)) = (
  assign_one s healthy assigned index i,
  looping healthy assigned (next_index healthy assigned index i) (i + 1) left ∷ [],
)
proceed s (checked req) = (
  record s { registry = (assign_shard s.registry req.shard_id req.node_id req.is_primary).0 },
  [],
)

-- `handleRegister` up to its call of `autoAssignShards`.
unfoldable pub begin_register : Server → Option RegisterRequest → Server × List Job
begin_register s none = (s, [])
begin_register s (some req) =
    if req.node.id == [] || req.node.addr == []
    then (s, [])
    else if node_exists s.nodes req.node.id
    then (record s { nodes = replace_node s.nodes req.node }, [])
    else (record s { nodes = s.nodes ++ req.node ∷ [] }, waiting ∷ [])

-- `handleShardAssign` up to its call of AssignShard.
unfoldable pub begin_assign : Server → AssignRequest → List Job
begin_assign s req = if node_exists s.nodes req.node_id then checked req ∷ [] else []

abbrev pub with_jobs : Server × List Job → List Job → Machine
with_jobs (s, new) jobs = record { server = s; jobs = new ++ jobs }

-- A request arrives, a node is marked, a job goes on by one part, or the monitor's records change.
pub data Step : Machine → Machine → Type 0 where
  register :
      (m : Machine) (req : Option RegisterRequest)
      → Step m (with_jobs (begin_register m.server req) m.jobs)
  assign :
      (m : Machine) (req : AssignRequest)
      → Step m (with_jobs (m.server, begin_assign m.server req) m.jobs)
  mark :
      (m : Machine) (id : Str)
      → Step m (with_jobs (mark_node_unhealthy m.server id, waiting ∷ []) m.jobs)
  go :
      (m : Machine) (before after : List Job) (j : Job)
      → m.jobs ≡ before ++ j ∷ after
      → Step m (with_jobs (proceed m.server j) (before ++ after))
  check :
      (m : Machine) (h : HealthMonitor)
      → Step m (with_jobs (record m.server { monitor = h }, []) m.jobs)

pub data Reach (m : Machine) : Machine → Type 0 where
  here : Reach m m
  next : {t u : Machine} → Reach m t → Step t u → Reach m u
