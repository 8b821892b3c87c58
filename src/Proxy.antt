-- ===== src/Proxy.antt =====
-- cmd/coordinator/main.go, `handleData` and the three functions that forward a request to a node.
-- The nodes are read under the server's lock, and the registry under its own.
pub mod Forward
pub mod Route
pub mod Parts
pub mod Interrupted
use torua.Base.{
  ℕ, suc, ◌+◌, Str, List, [], ◌∷◌, ◌++◌, Option, none, some, Bool, true, false, not, ◌||◌, length,
  drop, leb, has_prefix, ℤ, pos, negsuc, itoa, ascii, if◌then◌else◌, ◌==◌, str_eq, show_int,
}
use torua.Cluster.{NodeInfo, Response}
use torua.Registry.{
  Routed, to_node, failed, get_node_for_key, get_shard_for_key, RegistryError, division_by_zero,
  message,
}
use torua.Http.{
  Method, get_method, put_method, delete_method, post_method, other, Request, Reply, reply,
  panicked, Outgoing, HttpClient,
}
use torua.Coordinator.{Server}

-- The answer of `http.DefaultClient.Do`, passed on with its body or without.
unfoldable pub pass_on : Bool → Option Response → Reply
pass_on with_body none = reply 502 (ascii "failed to forward request")
pass_on with_body (some resp) = reply resp.status_code (if with_body then resp.body else [])

no_node : Reply
no_node = reply 503 (ascii "no node available for this shard")

unfoldable pub forward_get : HttpClient → Str → Reply
unfolding pass_on no_node
forward_get client url =
    if url == []
    then no_node
    else if not (client.request_ok url)
    then reply 500 (ascii "failed to create request")
    else pass_on true
        (client.send (record { method = get_method; url = url; body = []; content_type = [] }))

unfoldable pub forward_put : HttpClient → Str → Request → Reply
unfolding pass_on no_node
forward_put client url r = if url == [] then no_node else elim r.body [
  | none ↦ reply 400 (ascii "failed to read body")
  | some body ↦
      if not (client.request_ok url)
      then reply 500 (ascii "failed to create request")
      else pass_on true (
          client.send
            (record { method = put_method; url = url; body = body; content_type = r.content_type }))
]

unfoldable pub forward_delete : HttpClient → Str → Reply
unfolding pass_on no_node
forward_delete client url =
    if url == []
    then no_node
    else if not (client.request_ok url)
    then reply 500 (ascii "failed to create request")
    else pass_on false
        (client.send (record { method = delete_method; url = url; body = []; content_type = [] }))

-- The address of the first node with the ID, and "" where there is none.
unfoldable pub node_addr : List NodeInfo → Str → Str
node_addr [] id = []
node_addr (n ∷ ns) id = let rest = node_addr ns id in if n.id == id then n.addr else rest

-- `fmt.Sprintf("%s/shards/%d/data/%s", nodeAddr, shardID, key)`
unfoldable pub target_url : Str → ℤ → Str → Str
target_url addr shard_id key =
    addr ++ (ascii "/shards/" ++ (show_int shard_id ++ (ascii "/data/" ++ key)))

abbrev pub is_data_method : Method → Bool
is_data_method get_method = true
is_data_method put_method = true
is_data_method delete_method = true
is_data_method _ = false

-- The last `switch` on the method.
unfoldable pub forward : HttpClient → Str → Request → Method → Reply
unfolding forward_get forward_put forward_delete
forward client url r get_method = forward_get client url
forward client url r put_method = forward_put client url r
forward client url r delete_method = forward_delete client url
forward client url r _ = reply 200 []

-- What follows once the node is known.
unfoldable pub route : HttpClient → Server → Request → Str → Str → Reply
unfolding forward node_addr
route client s r key node_id =
    let addr = node_addr s.nodes node_id in
    if addr == []
    then reply 503 (ascii "node " ++ (node_id ++ ascii " not found"))
    else elim (get_shard_for_key s.registry key) [
      | none ↦ panicked
      | some shard_id ↦ forward client (target_url addr shard_id key) r r.method
    ]

unfoldable pub handle_key : HttpClient → Server → Request → Str → Reply
unfolding route message
handle_key client s r key =
    if key == []
    then reply 400 (ascii "key required")
    else if not (is_data_method r.method)
    then reply 405 (ascii "method not allowed")
    else elim (get_node_for_key s.registry key) [
      | failed division_by_zero ↦ panicked
      | failed e ↦ reply 503 (ascii "no node assigned for key: " ++ message e)
      | to_node node_id ↦ route client s r key node_id
    ]

abbrev pub data_prefix : Str
data_prefix = ascii "/data/"

unfoldable pub handle_path : HttpClient → Server → Request → Str → Reply
unfolding has_prefix handle_key
handle_path client s r path =
    if not (has_prefix path data_prefix) || leb (length path) (length data_prefix)
    then reply 400 (ascii "key required")
    else handle_key client s r (drop (length data_prefix) path)

unfoldable pub handle_data : HttpClient → Server → Request → Reply
unfolding handle_path
handle_data client s r = handle_path client s r r.path
