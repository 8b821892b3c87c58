-- ===== src/Proxy/Route.antt =====
-- Where `handleData` sends a request, and when it refuses.
use torua.Proxy.Forward.{forward_lem, proxied}
use torua.Fnv.{sum32}
use torua.Base.{
  ◌⊎◌, inl, inr, str_beq, negsuc, in_range, ltb→lt, ℕ, ◌<◌, ◌≡◌, refl, ap, ◌∙◌, Str, List, [], ◌∷◌,
  ◌++◌, Option, none, some, true, false, has_prefix, ℤ, pos, rounds, if◌then◌else◌, ◌==◌, str_eq,
  arith, inl, inr, Bool-cases, suc, get_elem?, ◌%◌, ascii, str_beq_iff, show_int,
}
use torua.Cluster.{NodeInfo}
use torua.Registry.{
  ShardAssignment, get_assignment, get_shard_for_key, get_node_for_key, to_node, failed,
  not_assigned, ShardRegistry,
}
use torua.Registry.Routing.{get_shard_for_key_lem}
use torua.Http.{Request, Reply, reply, panicked, HttpClient}
use torua.Coordinator.{Server, node_exists}
use torua.Coordinator.Nodes.{IsComplete}
use torua.Coordinator.Invariant.{IsValid}
use torua.Coordinator.Redistribution.{IsCovered}
use torua.Coordinator.AssignLoop.{is_assigned}
use torua.Proxy.{
  node_addr, target_url, is_data_method, forward, route, handle_key, data_prefix, handle_data,
  handle_path,
}

-- A registered node has an address.
pub node_addr_found :
    (ns : List NodeInfo) (id : Str)
    → IsComplete ns
    → node_exists ns id ≡ true
    → (node_addr ns id == []) ≡ false
unfolding node_addr node_exists
node_addr_found [] id c h = cc
node_addr_found (n ∷ ns) id c h = ground (arith, node_addr_found ns id c.1)

-- The address of a registered node is that of an entry of the list with the node's ID.
pub node_addr_is :
    (ns : List NodeInfo) (id : Str)
    → IsComplete ns
    → node_exists ns id ≡ true
    → (p : ℕ) × (n : NodeInfo) × (get_elem? ns p ≡ some n)
      × (n.id ≡ id)
      × ((n.addr == []) ≡ false)
      × (node_addr ns id ≡ n.addr)
unfolding node_addr node_exists
node_addr_is [] id c h = cc
node_addr_is (n ∷ ns) id c h = elim (Bool-cases (n.id == id)) [
  | inl same ↦ (0, n, refl, (str_beq_iff n.id id).0 same, ground (arith, same, c.0), rw same refl)
  | inr other ↦
      let (p, m, at, named, full, addr) = node_addr_is ns id c.1 (ground (arith, other, h)) in
      (suc p, m, at, named, full, rw other addr)
]

-- The URL of a key at a shard of the node with the address.
abbrev pub data_url : Str → ℤ → Str → Str
data_url addr i key = addr ++ (ascii "/shards/" ++ (show_int i ++ (ascii "/data/" ++ key)))

append-IsLong : (xs ys : Str) → (xs == []) ≡ false → ((xs ++ ys) == []) ≡ false
unfolding str_beq
append-IsLong [] ys h = cc
append-IsLong (x ∷ xs) ys h = refl

-- Forwarding to a node with an address.
pub forward-target_url :
    (client : HttpClient) (r : Request) (addr : Str) (i : ℤ) (key : Str)
    → is_data_method r.method ≡ true
    → (addr == []) ≡ false
    → forward client (target_url addr i key) r r.method
      ≡ proxied client (data_url addr i key) r r.method
unfolding target_url
forward-target_url client r addr i key m h =
    forward_lem client (data_url addr i key) r r.method m (append-IsLong addr _ h)

-- The handler on a path that has the prefix and more.
handle_path-append :
    (client : HttpClient) (s : Server) (r : Request) (c : ℕ) (key : Str)
    → handle_path client s r (data_prefix ++ c ∷ key) ≡ handle_key client s r (c ∷ key)
unfolding handle_path
handle_path-append client s r c key = ground arith

lt_of_in_range : (i n : ℤ) → in_range i n ≡ true → (k : ℕ) × (i ≡ pos k) × (k < rounds n)
lt_of_in_range (pos k) (pos n) h = (k, refl, ltb→lt k n h)
lt_of_in_range (pos k) (negsuc n) h = cc
lt_of_in_range (negsuc k) (pos n) h = cc
lt_of_in_range (negsuc k) (negsuc n) h = cc

assignment_of :
    (o : Option ShardAssignment) → is_assigned o ≡ true → (a : ShardAssignment) × (o ≡ some a)
assignment_of none h = cc
assignment_of (some a) h = (a, refl)

node_for_key :
    (s : Server) (key : Str) (i : ℤ) (a : ShardAssignment)
    → get_shard_for_key s.registry key ≡ some i
    → get_assignment s.registry i ≡ some a
    → get_node_for_key s.registry key ≡ to_node a.node_id
unfolding get_node_for_key get_assignment
node_for_key s key i a h e = ground arith

-- With four shards the shard is the hash modulo four.
pub get_shard_for_key_four :
    (r : ShardRegistry) (key : Str) (i : ℤ)
    → r.num_shards ≡ pos 4
    → get_shard_for_key r key ≡ some i
    → i ≡ pos (sum32 key % 4)
unfolding get_shard_for_key
get_shard_for_key_four r key i four h = ground (arith, four, h)

handle_data_forwards :
    (client : HttpClient) (s : Server) (r : Request) (c : ℕ) (key : Str) (i : ℤ)
    (a : ShardAssignment)
    → r.path ≡ data_prefix ++ c ∷ key
    → is_data_method r.method ≡ true
    → get_shard_for_key s.registry (c ∷ key) ≡ some i
    → get_assignment s.registry i ≡ some a
    → (node_addr s.nodes a.node_id == []) ≡ false
    → handle_data client s r
      ≡ forward client (target_url (node_addr s.nodes a.node_id) i (c ∷ key)) r r.method
unfolding handle_data
handle_data_forwards client s r c key i a path m shard at addr =
    ap (handle_path client s r) path
    ∙ handle_path-append client s r c key
    ∙ unfold handle_key route str_beq in ground (arith, node_for_key s (c ∷ key) i a shard at)

-- Where the handler sends the request, with its own search for the address.
pub handle_data_reaches :
    (client : HttpClient) (s : Server) (r : Request) (c : ℕ) (key : Str)
    → IsValid s
    → IsCovered s.registry
    → r.path ≡ data_prefix ++ c ∷ key
    → is_data_method r.method ≡ true
    → (i : ℤ) × (a : ShardAssignment) × (get_shard_for_key s.registry (c ∷ key) ≡ some i)
      × (get_assignment s.registry i ≡ some a)
      × (node_exists s.nodes a.node_id ≡ true)
      × ((node_addr s.nodes a.node_id == []) ≡ false)
      × (handle_data client s r
          ≡ forward client (target_url (node_addr s.nodes a.node_id) i (c ∷ key)) r r.method)
handle_data_reaches client s r c key v cov path m =
    let (i, shard, inside, owners) = get_shard_for_key_lem s.registry (c ∷ key) 3 v.placed.four in
    let (k, e, lt) = lt_of_in_range i s.registry.num_shards inside in
    let (a, at) =
      assignment_of (get_assignment s.registry i)
        (ap (λ x. is_assigned (get_assignment s.registry x)) e ∙ cov k lt) in
    let known = v.placed.members i a at in
    let addr = node_addr_found s.nodes a.node_id v.complete known in
    (i, a, shard, at, known, addr, handle_data_forwards client s r c key i a path m shard at addr)

-- In a state that satisfies the invariant and has every shard assigned: a GET, PUT or DELETE of
-- /data/{key}, with a key that is not empty. The key's shard is the FNV-1a hash of the key modulo four.
-- Its assignment names a node of the server's list whose address is not empty, and the client gets
-- what `proxied` tells for the URL {address of that node}/shards/{shard}/data/{key} and the request's
-- method.
pub handle_data_routes :
    (client : HttpClient) (s : Server) (r : Request) (c : ℕ) (key : Str)
    → IsValid s
    → IsCovered s.registry
    → r.path ≡ data_prefix ++ c ∷ key
    → is_data_method r.method ≡ true
    → (i : ℤ) × (a : ShardAssignment) × (p : ℕ) × (n : NodeInfo) × (i ≡ pos (sum32 (c ∷ key) % 4))
      × (get_assignment s.registry i ≡ some a)
      × (get_elem? s.nodes p ≡ some n)
      × (n.id ≡ a.node_id)
      × ((n.addr == []) ≡ false)
      × (handle_data client s r ≡ proxied client (data_url n.addr i (c ∷ key)) r r.method)
handle_data_routes client s r c key v cov path m =
    let (i, a, shard, at, known, addr, sent) = handle_data_reaches client s r c key v cov path m in
    let (p, n, there, named, full, same) = node_addr_is s.nodes a.node_id v.complete known in
    (
      i,
      a,
      p,
      n,
      get_shard_for_key_four s.registry (c ∷ key) i v.placed.four shard,
      at,
      there,
      named,
      full,
      sent
          ∙ ap (λ x. forward client (target_url x i (c ∷ key)) r r.method) same
          ∙ forward-target_url client r n.addr i (c ∷ key) m full,
    )

abbrev pub status_of : Reply → Option ℕ
status_of (reply code text) = some code
status_of panicked = none

no_node_for_key :
    (s : Server) (key : Str) (i : ℤ)
    → get_shard_for_key s.registry key ≡ some i
    → get_assignment s.registry i ≡ none
    → get_node_for_key s.registry key ≡ failed (not_assigned i)
unfolding get_node_for_key get_assignment
no_node_for_key s key i h e = ground arith

-- A request for a key whose shard is not assigned is answered 503 if its method is GET, PUT or
-- DELETE, and 405 if it is another.
pub handle_data_refuses :
    (client : HttpClient) (s : Server) (r : Request) (c : ℕ) (key : Str) (i : ℤ)
    → r.path ≡ data_prefix ++ c ∷ key
    → get_shard_for_key s.registry (c ∷ key) ≡ some i
    → get_assignment s.registry i ≡ none
    → status_of (handle_data client s r) ≡ (if is_data_method r.method then some 503 else some 405)
unfolding handle_data
handle_data_refuses client s r c key i path shard at =
    ap (λ p. status_of (handle_path client s r p)) path
    ∙ ap status_of (handle_path-append client s r c key)
    ∙ unfold handle_key str_beq in ground (arith, no_node_for_key s (c ∷ key) i shard at)

-- A path without the prefix /data/, and the prefix alone, are answered 400 for every method.
pub handle_data_bad_path :
    (client : HttpClient) (s : Server) (r : Request)
    → (has_prefix r.path data_prefix ≡ false) ⊎ (r.path ≡ data_prefix)
    → status_of (handle_data client s r) ≡ some 400
unfolding handle_data
handle_data_bad_path client s r (inl h) = unfold handle_path in ground arith
handle_data_bad_path client s r (inr h) = ap (λ p. status_of (handle_path client s r p)) h
