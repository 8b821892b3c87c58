-- ===== src/Proxy/Interrupted.antt =====
-- Requests for data that run at the same time as registrations, manual assignments and callbacks
-- (cmd/coordinator/main.go).
use torua.Proxy.Forward.{proxied}
use torua.Fnv.{go_rem, sum32}
use torua.Proxy.Route.{node_addr_is, forward-target_url, data_url, get_shard_for_key_four}
use torua.Base.{
  ◌≡◌, ◌∙◌, refl, ap, Str, [], Option, none, some, true, false, ℤ, ◌==◌, str_eq, arith, inl, inr,
  List, sym, Option-cases, get, int_eq, ℕ, pos, ◌%◌, get_elem?,
}
use torua.Cluster.{NodeInfo, RegisterRequest}
use torua.Registry.{
  ShardAssignment, get_assignment, get_shard_for_key, get_node_for_key, to_node, ShardRegistry,
}
use torua.Http.{Request, HttpClient}
use torua.Coordinator.{Server, node_exists, new_server, mark_node_unhealthy}
use torua.Coordinator.Nodes.{node_exists-mark_in, node_exists-replace_node, node_exists-append}
use torua.Coordinator.Threads.{
  Machine, Step, Reach, here, next, register, assign, mark, go, begin_register, check,
}
use torua.Coordinator.Threads.Safety.{nodes-proceed, Reach-IsSafe}
use torua.Proxy.{target_url, node_addr, forward, route}
use torua.Proxy.Parts.{
  routed, begin_data, finish_data, begin_data-routed, begin_data-is_data_method,
}

begin_register-node_exists :
    (s : Server) (req : Option RegisterRequest) (k : Str)
    → node_exists s.nodes k ≡ true
    → node_exists (begin_register s req).0.nodes k ≡ true
unfolding begin_register
begin_register-node_exists s none k h = h
begin_register-node_exists s (some req) k h =
    ground
      (arith, node_exists-replace_node s.nodes req.node k, node_exists-append s.nodes req.node k, h)

-- No step takes a node from the list.
Step-node_exists :
    {m n : Machine} (k : Str)
    → Step m n
    → node_exists m.server.nodes k ≡ true
    → node_exists n.server.nodes k ≡ true
unfolding mark_node_unhealthy
Step-node_exists k (register m req) h = begin_register-node_exists m.server req k h
Step-node_exists k (assign m req) h = h
Step-node_exists k (check m mon) h = h
Step-node_exists k (mark m id) h = node_exists-mark_in m.server.nodes id k ∙ h
Step-node_exists k (go m before after j e) h =
    ap (λ (ns : List NodeInfo). node_exists ns k) (nodes-proceed m.server j) ∙ h

Reach-node_exists :
    {m n : Machine} (k : Str)
    → Reach m n
    → node_exists m.server.nodes k ≡ true
    → node_exists n.server.nodes k ≡ true
Reach-node_exists k here h = h
Reach-node_exists k (next r st) h = Step-node_exists k st (Reach-node_exists k r h)

pub Reach-append : {l m n : Machine} → Reach l m → Reach m n → Reach l n
Reach-append r here = r
Reach-append r (next r' st) = next (Reach-append r r') st

get_node_for_key-to_node :
    (r : ShardRegistry) (key node_id : Str)
    → get_node_for_key r key ≡ to_node node_id
    → (i : ℤ) × (a : ShardAssignment) × (get_shard_for_key r key ≡ some i)
      × (get_assignment r i ≡ some a)
      × (a.node_id ≡ node_id)
unfolding get_node_for_key get_assignment
get_node_for_key-to_node r key node_id e = elim (Option-cases (get_shard_for_key r key)) [
  | inl none_at ↦ absurd (ground (arith, none_at, e))
  | inr (i, shard) ↦ elim (Option-cases (get r.assignments i)) [
    | inl unassigned ↦ absurd (ground (arith, shard, unassigned, e))
    | inr (a, at) ↦ (i, a, shard, at, ground (arith, shard, at, e))
  ]
]

-- The shard of a key depends on the number of shards only.
get_shard_for_key_same :
    (r t : ShardRegistry) (key : Str)
    → r.num_shards ≡ t.num_shards
    → get_shard_for_key r key ≡ get_shard_for_key t key
unfolding get_shard_for_key
get_shard_for_key_same r t key e = ap (go_rem (sum32 key)) e

-- However registrations, manual assignments, callbacks and their loops mix with the requests for data
-- of a new coordinator: if the first part of a request finds a node, then its second part forwards it,
-- at whatever later time that runs, to the node that the key's shard had at the time of the first, at
-- an address that the list of nodes has for this node at the time of the second.
pub finish_data_forwards :
    (parse : Str → Option ℤ) (env : Str) {m n : Machine} (client : HttpClient) (r : Request)
    (key node_id : Str)
    → Reach (record { server = new_server parse env; jobs = [] }) m
    → begin_data m.server r ≡ routed key node_id
    → Reach m n
    → (i : ℤ) × (a : ShardAssignment) × (p : ℕ) × (x : NodeInfo) × (i ≡ pos (sum32 key % 4))
      × (get_assignment m.server.registry i ≡ some a)
      × (a.node_id ≡ node_id)
      × (get_elem? n.server.nodes p ≡ some x)
      × (x.id ≡ node_id)
      × ((x.addr == []) ≡ false)
      × (finish_data client n.server r (begin_data m.server r)
          ≡ proxied client (data_url x.addr i key) r r.method)
unfolding finish_data route
finish_data_forwards parse env {m} {n} client r key node_id before e later =
    let here_valid = Reach-IsSafe parse env before in
    let there_valid = Reach-IsSafe parse env (Reach-append before later) in
    let (i, a, shard, at, named) =
      get_node_for_key-to_node m.server.registry key node_id
        (begin_data-routed m.server r key node_id e) in
    let known =
      Reach-node_exists node_id later
        (ap (node_exists m.server.nodes) (sym named) ∙ here_valid.placed.members i a at) in
    let same =
      get_shard_for_key_same n.server.registry m.server.registry key
        (there_valid.placed.four ∙ sym here_valid.placed.four) in
    let (p, x, there, id, full, addr) =
      node_addr_is n.server.nodes node_id there_valid.complete known in
    let known_addr : (node_addr n.server.nodes node_id == []) ≡ false =
      ap (λ y. y == []) addr ∙ full in
    let sent : finish_data client n.server r (begin_data m.server r)
        ≡ forward client (target_url x.addr i key) r r.method =
      rw (e, known_addr) (rw (same ∙ shard) (rw addr refl)) in
    let method = begin_data-is_data_method m.server r key node_id e in
    (
      i,
      a,
      p,
      x,
      get_shard_for_key_four m.server.registry key i here_valid.placed.four shard,
      at,
      named,
      there,
      id,
      full,
      sent ∙ forward-target_url client r x.addr i key method full,
    )
