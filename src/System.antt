-- ===== src/System.antt =====
-- The two programs together: what a node or a client sends arrives at the other program's router. A
-- message that arrives is answered; a URL's path is what follows the address of the program.
pub mod Join
pub mod Data
pub mod Monitor
pub mod Process
use torua.Base.{ℕ, Str, [], Option, none, some, trim_prefix, true, false}
use torua.Cluster.{RegisterRequest, ClientError, marshal_error, Response, Transport, post_json}
use torua.Http.{Method, post_method, get_method, Request, Reply, reply, panicked, Outgoing}
use torua.Coordinator.{Server}
use torua.Coordinator.Broadcast.{BroadcastReply, bad_request, sent}
use torua.Coordinator.Serve.{
  Outside, ServerReply, replied, nodes_reply, broadcast_reply, shards_reply, serve,
}
use torua.Node.Startup.{register_url}

-- The status code that the coordinator sends, if it sends an answer.
status_of : ServerReply → Option ℕ
status_of (replied (reply code text)) = some code
status_of (replied panicked) = none
status_of (nodes_reply nodes) = some 200
status_of (broadcast_reply (bad_request text)) = some 400
status_of (broadcast_reply (sent out n)) = some 200
status_of (shards_reply body code) = some code

response_of : Option ℕ → Option Response
response_of none = none
response_of (some code) = some (record { status_code = code; body = [] })

-- PostJSON's transport, for a coordinator that gives this answer.
answering : (RegisterRequest → Option Str) → ServerReply → Transport RegisterRequest Str
unfolding status_of response_of
answering marshal a = record {
  marshal = marshal;
  request_ok = λ url. true;
  do_post = λ url bytes. response_of (status_of a);
  do_get = λ url. none;
  decode = some;
}

-- The request of PostJSON, as the coordinator at the address sees it.
arriving : Str → Str → Str → Request
arriving address url bytes = record {
  method = post_method;
  path = trim_prefix url address;
  body = some bytes;
  content_type = [];
}

-- One call of PostJSON in a node's `register`, to the coordinator at its address.
unfoldable pub send_register :
    Outside
    → (RegisterRequest → Option Str)
    → Str
    → Str
    → RegisterRequest
    → Server
    → Server × Option ClientError
unfolding answering arriving
send_register o marshal address coord req s = elim (marshal req) [
  | none ↦ (s, some marshal_error)
  | some bytes ↦
      let (s', a) = serve o s (arriving address (register_url coord) bytes) in
      (s', (post_json (answering marshal a) (register_url coord) req false).1)
]
