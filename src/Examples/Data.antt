-- ===== src/Examples/Data.antt =====
-- A coordinator with two nodes, a node, and the requests of the examples.
use torua.Base.{Str, [], none, some, ascii, true, false}
use torua.Cluster.{NodeInfo, RegisterRequest}
use torua.Http.{get_method, Request, HttpClient}
use torua.Coordinator.{Server, new_server, handle_register}
use torua.Node.{Node, new_node}
use torua.Health.{Probe}

abbrev pub node_a : NodeInfo
node_a = record {
  last_health_check = 0;
  id = ascii "a";
  addr = ascii "http://a:1";
  status = ascii "healthy";
}

abbrev pub node_b : NodeInfo
node_b = record {
  last_health_check = 0;
  id = ascii "b";
  addr = ascii "http://b:1";
  status = ascii "healthy";
}

abbrev pub register_a : RegisterRequest
register_a = record { node = node_a }

abbrev pub register_b : RegisterRequest
register_b = record { node = node_b }

-- A new coordinator, and the coordinator with its first node.
abbrev pub fresh : Server
fresh = new_server (λ d. none) []

abbrev pub one : Server
one = (handle_register fresh (some register_a)).0

abbrev pub two : Server
two = (handle_register one (some register_b)).0

-- A GET of the path, without a body.
abbrev pub get_of : Str → Request
get_of path = record { method = get_method; path = path; body = some []; content_type = [] }

-- Nodes that answer 200 to everything.
abbrev pub echo : HttpClient
echo = record {
  request_ok = λ url. true;
  send = λ o. some (record { status_code = 200; body = ascii "v" });
}

abbrev pub new_n : Node
new_n = new_node (ascii "n")

abbrev pub failing : Probe
failing = record {
  succeeds = false;
  created_check = 1;
  created_healthy = 2;
  checked = 3;
  healthy_at = 4;
}

abbrev pub passing : Probe
passing = record {
  succeeds = true;
  created_check = 1;
  created_healthy = 2;
  checked = 3;
  healthy_at = 4;
}

-- The registration of a node that says of itself that it is unhealthy.
abbrev pub sick : NodeInfo → RegisterRequest
sick n = record { node = record n { status = ascii "unhealthy" } }
