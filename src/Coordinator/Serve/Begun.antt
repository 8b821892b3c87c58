-- ===== src/Coordinator/Serve/Begun.antt =====
-- A request of cmd/coordinator/main.go up to the first place where others may come between: the
-- routes of main, with the handlers that change the server taken apart as in Coordinator/Threads.
pub mod Alone
use torua.Base.{
  ◌≡◌, refl, Str, List, [], Option, none, some, ◌==◌, str_eq, arith, either_branch, ascii,
  if◌then◌else◌,
}
use torua.Cluster.{RegisterRequest}
use torua.Http.{Request, Method, get_method, put_method, delete_method, post_method, other}
use torua.Mux.{Matched, redirect, no_pattern, to_pattern, find_handler}
use torua.Coordinator.{Server, AssignRequest}
use torua.Coordinator.Threads.{
  Machine, Job, Reach, here, next, register, assign, begin_register, begin_assign, with_jobs,
}
use torua.Coordinator.Serve.{Outside, server_patterns}

begin_shard_assign : Server → Method → Option AssignRequest → Server × List Job
begin_shard_assign s post_method (some req) = (s, begin_assign s req)
begin_shard_assign s _ _ = (s, [])

begin_dispatch : Outside → Server → Request → Str → Server × List Job
unfolding begin_shard_assign
begin_dispatch o s r pattern =
    if pattern == ascii "/register"
    then begin_register s (o.decode_register r.body)
    else if pattern == ascii "/nodes"
    then (s, [])
    else if pattern == ascii "/broadcast"
    then (s, [])
    else if pattern == ascii "/health"
    then (s, [])
    else if pattern == ascii "/data/"
    then (s, [])
    else if pattern == ascii "/shards"
    then (s, [])
    else begin_shard_assign s r.method (o.decode_assign r.body)

begin_answer : Outside → Server → Request → Matched → Server × List Job
unfolding begin_dispatch
begin_answer o s r redirect = (s, [])
begin_answer o s r no_pattern = (s, [])
begin_answer o s r (to_pattern p) = begin_dispatch o s r p

unfoldable pub begin_request : Outside → Server → Request → Server × List Job
unfolding begin_answer find_handler
begin_request o s r = begin_answer o s r (find_handler server_patterns r.path)

module _ (o : Outside) (m : Machine) (r : Request) where
  IsBegun : Server × List Job → Type 0
  IsBegun x = Reach m (with_jobs x m.jobs) × (x.0.monitor ≡ m.server.monitor)

  begin_shard_assign-IsBegun :
      (method : Method) (req : Option AssignRequest)
      → IsBegun (begin_shard_assign m.server method req)
  unfolding begin_shard_assign IsBegun
  begin_shard_assign-IsBegun post_method (some req) = (next here (assign m req), refl)
  begin_shard_assign-IsBegun post_method none = (here, refl)
  begin_shard_assign-IsBegun get_method req = (here, refl)
  begin_shard_assign-IsBegun put_method req = (here, refl)
  begin_shard_assign-IsBegun delete_method req = (here, refl)
  begin_shard_assign-IsBegun other req = (here, refl)

  monitor-begin_register :
      (s : Server) (req : Option RegisterRequest) → (begin_register s req).0.monitor ≡ s.monitor
  unfolding begin_register
  monitor-begin_register s none = refl
  monitor-begin_register s (some req) = ground arith

  begin_dispatch-IsBegun : (p : Str) → IsBegun (begin_dispatch o m.server r p)
  unfolding begin_dispatch
  begin_dispatch-IsBegun p =
      let idle : IsBegun (m.server, []) = unfold IsBegun in (here, refl) in
      either_branch IsBegun (p == ascii "/register")
        (unfold IsBegun in
          (
            next here (register m (o.decode_register r.body)),
            monitor-begin_register m.server (o.decode_register r.body),
          ))
        (either_branch IsBegun (p == ascii "/nodes") idle (
          either_branch IsBegun (p == ascii "/broadcast") idle (
            either_branch IsBegun (p == ascii "/health") idle (
              either_branch IsBegun (p == ascii "/data/") idle (
                either_branch IsBegun (p == ascii "/shards") idle
                  (begin_shard_assign-IsBegun r.method (o.decode_assign r.body)))))))

  begun : IsBegun (begin_request o m.server r)
  unfolding begin_request begin_answer
  begun =
      elim (find_handler server_patterns r.path) as (λ x. IsBegun (begin_answer o m.server r x)) [
        | redirect ↦ unfold IsBegun in (here, refl)
        | no_pattern ↦ unfold IsBegun in (here, refl)
        | to_pattern p ↦ begin_dispatch-IsBegun p
      ]

  -- The first part of a request is a step of the machine, or none, and changes no health record.
  pub begin_request-Reach :
      Reach m (with_jobs (begin_request o m.server r) m.jobs)
      × ((begin_request o m.server r).0.monitor ≡ m.server.monitor)
  unfolding IsBegun
  begin_request-Reach = begun
