-- ===== src/Coordinator/Threads/Coverage.antt =====
-- What a run of `autoAssignShards` achieves while others mix with it, cmd/coordinator/main.go.
use torua.Coordinator.Steps.{new_server-IsValid}
use torua.Coordinator.Threads.Safety.{IsSafe, Step-IsSafe, All-append, All-middle}
use mathlib.Core.Path.{subst}
use torua.Base.{
  ℕ, ◌≡◌, refl, ap, Str, List, [], ◌∷◌, ◌++◌, Option, none, some, All, ℤ, rounds, ◌==◌, str_eq,
  int_eq, arith, either_branch, ◌||◌,
}
use torua.Cluster.{NodeInfo, RegisterRequest}
use torua.Registry.{ShardRegistry}
use torua.Coordinator.{Server, AssignRequest, mark_node_unhealthy, node_exists, new_server}
use torua.Coordinator.Redistribution.{IsCovered}
use torua.Coordinator.Threads.{
  Job, looping, Machine, proceed, begin_register, begin_assign, Step, register, assign, mark, go,
  Reach, here, next, check,
}
use torua.Coordinator.Threads.Progress.{
  IsGood, Keeps, proceed-Keeps, proceed-IsGood, All-IsGood_mono,
}

record IsRunning (m : Machine) : Type 0 where
  safe : IsSafe m
  good : All (IsGood m.server.registry) m.jobs

registry-begin_register :
    (s : Server) (req : Option RegisterRequest) → (begin_register s req).0.registry ≡ s.registry
unfolding begin_register
registry-begin_register s none = refl
registry-begin_register s (some req) = ground arith

-- What a request starts has done nothing yet.
begin_register-IsGood :
    (r : ShardRegistry) (s : Server) (req : Option RegisterRequest)
    → All (IsGood r) (begin_register s req).1
unfolding begin_register
begin_register-IsGood r s none = tt
begin_register-IsGood r s (some req) =
    let P : Server × List Job → Type 0 = λ x. All (IsGood r) x.1 in
    either_branch P (req.node.id == [] || req.node.addr == []) tt
      (either_branch P (node_exists s.nodes req.node.id) tt (tt, tt))

begin_assign-IsGood :
    (r : ShardRegistry) (s : Server) (req : AssignRequest) → All (IsGood r) (begin_assign s req)
unfolding begin_assign
begin_assign-IsGood r s req =
    either_branch (All (IsGood r)) (node_exists s.nodes req.node_id) (tt, tt) tt

-- A step keeps every assignment of a shard, to whatever node.
Step-Keeps : {m n : Machine} → Step m n → Keeps m.server.registry n.server.registry
unfolding mark_node_unhealthy
Step-Keeps (register m req) = λ j h. rw (registry-begin_register m.server req) h
Step-Keeps (assign m req) = λ j h. h
Step-Keeps (mark m id) = λ j h. h
Step-Keeps (check m mon) = λ j h. h
Step-Keeps (go m before after j e) = proceed-Keeps m.server j

Step-IsGood : {m n : Machine} → Step m n → IsRunning m → All (IsGood n.server.registry) n.jobs
unfolding mark_node_unhealthy
Step-IsGood (register m req) h =
    let r = (begin_register m.server req).0.registry in
    All-append (IsGood r) (begin_register m.server req).1 m.jobs
      (begin_register-IsGood r m.server req) (rw (registry-begin_register m.server req) h.good)
Step-IsGood (assign m req) h =
    All-append (IsGood m.server.registry) (begin_assign m.server req) m.jobs
      (begin_assign-IsGood m.server.registry m.server req) h.good
Step-IsGood (mark m id) h = (tt, h.good)
Step-IsGood (check m mon) h = h.good
Step-IsGood (go m before after j e) h =
    let r = m.server.registry in
    let (one, rest) = All-middle (IsGood r) before j after (subst (All (IsGood r)) e h.good) in
    All-append (IsGood (proceed m.server j).0.registry) (proceed m.server j).1 (before ++ after)
      (proceed-IsGood m.server j h.safe.valid one)
      (All-IsGood_mono r (proceed m.server j).0.registry (before ++ after)
        (proceed-Keeps m.server j) rest)

Step-IsRunning : {m n : Machine} → Step m n → IsRunning m → IsRunning n
Step-IsRunning st h = record { safe = Step-IsSafe st h.safe; good = Step-IsGood st h }

Reach-IsRunning : {m n : Machine} → IsRunning m → Reach m n → IsRunning n
Reach-IsRunning h here = h
Reach-IsRunning h (next r st) = Step-IsRunning st (Reach-IsRunning h r)

Reach-Keeps : {m n : Machine} → Reach m n → Keeps m.server.registry n.server.registry
Reach-Keeps here j h = h
Reach-Keeps (next r st) j h = Step-Keeps st j (Reach-Keeps r j h)

-- Once the loop of any run of autoAssignShards is over, every shard has an assignment, in whatever
-- way other handlers and callbacks of a new coordinator have mixed with it, and so from then on.
pub loop_end-IsCovered :
    (parse : Str → Option ℤ) (env : Str) {m n : Machine}
    → Reach (record { server = new_server parse env; jobs = [] }) m
    → (before after : List Job) (healthy : List NodeInfo) (assigned : List ℤ) (index i : ℕ)
    → m.jobs ≡ before ++ looping healthy assigned index i 0 ∷ after
    → Reach m n
    → IsCovered n.server.registry
loop_end-IsCovered parse env {m} {n} r before after healthy assigned index i e later =
    let running =
      Reach-IsRunning
        (record { safe = record { valid = new_server-IsValid parse env; sound = tt }; good = tt })
        r in
    let track =
      (All-middle (IsGood m.server.registry) before (looping healthy assigned index i 0) after
        (subst (All (IsGood m.server.registry)) e running.good)).0 in
    let four = (Reach-IsRunning running later).safe.valid.placed.four in
    λ j h. Reach-Keeps later j (track.passed j (omega (arith, track.ends, ap rounds four)))
