-- ===== src/Coordinator/Serve.antt =====
-- The routes that `main` of cmd/coordinator/main.go registers, and the requests that they take. The
-- JSON decoders, the HTTP client and `PostJSON` to a node are arguments.
pub mod Requests
pub mod Begun
use torua.Base.{
  ℕ, ◌≡◌, refl, Str, List, [], ◌∷◌, Option, none, some, ascii, ℤ, if◌then◌else◌, ◌==◌, str_eq,
  Bool-cases, inl, inr,
}
use torua.Cluster.{NodeInfo, RegisterRequest, BroadcastRequest}
use torua.Registry.{ShardAssignment}
use torua.Http.{Request, Reply, reply, HttpClient}
use torua.Mux.{Matched, to_pattern, redirect, no_pattern, find_handler}
use torua.Coordinator.{
  Server, AssignRequest, handle_register, handle_list_nodes, handle_shards, handle_shard_assign,
}
use torua.Coordinator.Broadcast.{BroadcastReply, handle_broadcast}
use torua.Proxy.{handle_data}

-- `json.NewDecoder(r.Body).Decode` into the three kinds of request. The argument is `none` where the
-- body cannot be read.
pub record Outside : Type 0 where
  pub decode_register : Option Str → Option RegisterRequest
  pub decode_broadcast : Option Str → Option BroadcastRequest
  pub decode_assign : Option Str → Option AssignRequest
  pub client : HttpClient
  pub post : Str → Str → Option Str

-- What a handler writes.
pub data ServerReply : Type 0 where
  replied : Reply → ServerReply
  nodes_reply : List NodeInfo → ServerReply
  broadcast_reply : BroadcastReply → ServerReply
  shards_reply : Option (List ShardAssignment × ℤ) → ℕ → ServerReply

abbrev pub server_patterns : List Str
server_patterns =
    ascii "/register"
    ∷ ascii "/nodes"
    ∷ ascii "/broadcast"
    ∷ ascii "/health"
    ∷ ascii "/data/"
    ∷ ascii "/shards"
    ∷ ascii "/shards/assign"
    ∷ []

registered : Server × Reply → Server × ServerReply
registered (s, r) = (s, replied r)

listed_shards : Option (List ShardAssignment × ℤ) × ℕ → ServerReply
listed_shards (body, code) = shards_reply body code

dispatch : Outside → Server → Request → Str → Server × ServerReply
unfolding registered listed_shards
dispatch o s r pattern =
    if pattern == ascii "/register"
    then registered (handle_register s (o.decode_register r.body))
    else if pattern == ascii "/nodes"
    then (s, nodes_reply (handle_list_nodes s))
    else if pattern == ascii "/broadcast"
    then (s, broadcast_reply (handle_broadcast o.post s (o.decode_broadcast r.body)))
    else if pattern == ascii "/health"
    then (s, replied (reply 200 []))
    else if pattern == ascii "/data/"
    then (s, replied (handle_data o.client s r))
    else if pattern == ascii "/shards"
    then (s, listed_shards (handle_shards s r.method))
    else registered (handle_shard_assign s r.method (o.decode_assign r.body))

unfoldable pub answer : Outside → Server → Request → Matched → Server × ServerReply
unfolding dispatch
answer o s r redirect = (s, replied (reply 301 []))
answer o s r no_pattern = (s, replied (reply 404 (ascii "404 page not found")))
answer o s r (to_pattern p) = dispatch o s r p

unfoldable pub serve : Outside → Server → Request → Server × ServerReply
unfolding answer find_handler
serve o s r = answer o s r (find_handler server_patterns r.path)

-- A sequence of requests, one after the other.
unfoldable pub serve_all : Outside → Server → List Request → Server
unfolding serve
serve_all o s [] = s
serve_all o s (r ∷ rs) = serve_all o (serve o s r).0 rs
