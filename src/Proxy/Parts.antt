-- ===== src/Proxy/Parts.antt =====
-- `handleData` of cmd/coordinator/main.go in its two parts: up to GetNodeForKey, which reads the
-- registry under the registry's lock, and from the search for the node under the server's lock on.
-- What other requests and callbacks do comes before, between and after them.
use torua.Base.{
  Str, [], not, ◌||◌, ◌≡◌, length, drop, leb, has_prefix, if◌then◌else◌, ◌==◌, str_eq, ascii, ◌++◌,
  arith, true,
}
use torua.Http.{Request, Reply, reply, panicked, HttpClient}
use torua.Registry.{to_node, failed, division_by_zero, get_node_for_key, message}
use torua.Coordinator.{Server}
use torua.Proxy.{is_data_method, data_prefix, route, handle_key, handle_path, handle_data}

-- The handler has answered, or it knows the key's node.
pub data Part : Type 0 where
  answered : Reply → Part
  routed : Str → Str → Part

begin_key : Server → Request → Str → Part
begin_key s r key =
    if key == []
    then answered (reply 400 (ascii "key required"))
    else if not (is_data_method r.method)
    then answered (reply 405 (ascii "method not allowed"))
    else elim (get_node_for_key s.registry key) [
      | failed division_by_zero ↦ answered panicked
      | failed e ↦ answered (reply 503 (ascii "no node assigned for key: " ++ message e))
      | to_node node_id ↦ routed key node_id
    ]

unfoldable pub begin_data : Server → Request → Part
unfolding begin_key
begin_data s r =
    if not (has_prefix r.path data_prefix) || leb (length r.path) (length data_prefix)
    then answered (reply 400 (ascii "key required"))
    else begin_key s r (drop (length data_prefix) r.path)

unfoldable pub finish_data : HttpClient → Server → Request → Part → Reply
finish_data client s r (answered a) = a
finish_data client s r (routed key node_id) = route client s r key node_id

-- With nothing between its parts the handler is `handle_data`.
finish_data-begin_data :
    (client : HttpClient) (s : Server) (r : Request)
    → finish_data client s r (begin_data s r) ≡ handle_data client s r
unfolding begin_data finish_data handle_data handle_path handle_key
finish_data-begin_data client s r = ground arith

-- What the first part has found.
pub begin_data-routed :
    (s : Server) (r : Request) (key node_id : Str)
    → begin_data s r ≡ routed key node_id
    → get_node_for_key s.registry key ≡ to_node node_id
unfolding begin_data
begin_data-routed s r key node_id e = ground (arith, e)

pub begin_data-is_data_method :
    (s : Server) (r : Request) (key node_id : Str)
    → begin_data s r ≡ routed key node_id
    → is_data_method r.method ≡ true
unfolding begin_data
begin_data-is_data_method s r key node_id e = ground (arith, e)
