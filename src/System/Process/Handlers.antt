-- ===== src/System/Process/Handlers.antt =====
-- The handlers and the callbacks within the coordinator's process (cmd/coordinator/main.go).
use torua.Cluster.{NodeInfo}
use torua.Fnv.{sum32}
use torua.Proxy.Forward.{proxied}
use torua.Proxy.Route.{data_url}
use torua.Base.{◌≡◌, false, Str, [], Option, some, ℤ, ◌==◌, str_eq, ascii, ℕ, pos, ◌%◌, get_elem?}
use torua.Http.{Request, HttpClient}
use torua.Registry.{ShardAssignment, get_assignment}
use torua.Coordinator.Serve.{Outside}
use torua.Coordinator.Serve.Begun.{begin_request-Reach}
use torua.Coordinator.Threads
use torua.Coordinator.Threads.{go, mark}
use torua.Proxy.Parts.{begin_data, finish_data, routed}
use torua.Proxy.Interrupted.{Reach-append, finish_data_forwards}
use torua.System.Process.{
  Process, start, check, Step, listens, listen_fails, arrives, goes_on, begins, ticker_panics,
  ticks, checks, monitor_ends, calls_back, notifies, kills, signals, stop_returns, shutdown_returns,
  Reach, here, next,
}

module _ (o : Outside) where
  -- What a step of the process does to the server and its jobs.
  Step-machine : {p q : Process} → Step o p q → Threads.Reach p.machine q.machine
  unfolding check
  Step-machine (listens p a) = Threads.here
  Step-machine (listen_fails p a) = Threads.here
  Step-machine (arrives p r a l) = (begin_request-Reach o p.machine r).0
  Step-machine (goes_on p xs ys j a e) = Threads.next Threads.here (go p.machine xs ys j e)
  Step-machine (begins p a e i) = Threads.here
  Step-machine (ticker_panics p a e i) = Threads.here
  Step-machine (ticks p a e) = Threads.here
  Step-machine (checks p probe r a e) = Threads.next Threads.here (Threads.check p.machine _)
  Step-machine (monitor_ends p a e c) = Threads.here
  Step-machine (calls_back p xs ys id a e) = Threads.next Threads.here (mark p.machine id)
  Step-machine (notifies p e) = Threads.here
  Step-machine (kills p e) = Threads.here
  Step-machine (signals p e) = Threads.here
  Step-machine (stop_returns p e d) = Threads.here
  Step-machine (shutdown_returns p e) = Threads.here

  pub Reach-machine : {p q : Process} → Reach o p q → Threads.Reach p.machine q.machine
  Reach-machine here = Threads.here
  Reach-machine (next r st) = Reach-append (Reach-machine r) (Step-machine st)

  -- Whatever a coordinator's process goes through before and after the first part of a request for
  -- data: if that part finds a node, the second part forwards the request, at whatever later time it
  -- runs. The key's shard is the FNV-1a hash of the key modulo four; the node is the one that this
  -- shard had at the time of the first part. Its entry in the list of nodes at the time of the second
  -- part has an address that is not empty, and the client gets what `proxied` tells for the URL
  -- {that address}/shards/{shard}/data/{key} and the request's method.
  pub data_forwarded :
      (env : Str → Str) (parse : Str → Option ℤ) {p q : Process} (client : HttpClient) (r : Request)
      (key node_id : Str)
      → Reach o (start env parse) p
      → begin_data p.machine.server r ≡ routed key node_id
      → Reach o p q
      → (i : ℤ) × (a : ShardAssignment) × (k : ℕ) × (n : NodeInfo) × (i ≡ pos (sum32 key % 4))
        × (get_assignment p.machine.server.registry i ≡ some a)
        × (a.node_id ≡ node_id)
        × (get_elem? q.machine.server.nodes k ≡ some n)
        × (n.id ≡ node_id)
        × ((n.addr == []) ≡ false)
        × (finish_data client q.machine.server r (begin_data p.machine.server r)
            ≡ proxied client (data_url n.addr i key) r r.method)
  unfolding start
  data_forwarded env parse client r key node_id before e later =
      finish_data_forwards parse (env (ascii "HEALTH_CHECK_INTERVAL")) client r key node_id
        (Reach-machine before) e (Reach-machine later)
