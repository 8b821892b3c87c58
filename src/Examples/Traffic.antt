-- ===== src/Examples/Traffic.antt =====
-- Requests to the coordinator and to a node.
use torua.Cluster.Client.{post_json_lem, IsTaken}
use torua.Node.Session.{
  Place, read, write, erase, node_answers, node_answers-refine, table_answers, read_back,
  node_after, request_of, is_untouched,
}
use torua.Base.{
  ◌≡◌, refl, Str, [], Option, none, some, true, false, ascii, ℤ, pos, str_beq, ◌==◌, str_eq, int_eq,
  arith, ◌∷◌, ℕ, ◌%◌, get_elem?, ◌↔◌,
}
use torua.Cluster.{BroadcastRequest, Transport, NodeInfo, post_json, Response}
use torua.Http.{get_method, put_method, delete_method, Request}
use torua.Registry.{ShardAssignment, get_shard_for_key, get_assignment, new_shard_registry}
use torua.Coordinator.{new_server}
use torua.Proxy.{handle_data, forward}
use torua.Proxy.Forward.{forward_lem, proxied}
use torua.Proxy.Route.{handle_data_routes, data_url}
use torua.Node.{plain, handle_shard_request, new_node}
use torua.Fnv.{sum32}
use torua.Examples.Data.{fresh, two, get_of, echo, new_n}
use torua.Examples.Placement.{two-IsValid, two-IsCovered}

handle_data_routes_example :
    (i : ℤ) × (a : ShardAssignment) × (p : ℕ) × (n : NodeInfo) × (i ≡ pos (sum32 (ascii "k") % 4))
    × (get_assignment two.registry i ≡ some a)
    × (get_elem? two.nodes p ≡ some n)
    × (n.id ≡ a.node_id)
    × ((n.addr == []) ≡ false)
    × (handle_data echo two (get_of (ascii "/data/k"))
        ≡ proxied echo (data_url n.addr i (ascii "k")) (get_of (ascii "/data/k")) get_method)
handle_data_routes_example =
    handle_data_routes echo two (get_of (ascii "/data/k")) b'k' [] two-IsValid two-IsCovered refl
      refl

shard_of_k : get_shard_for_key fresh.registry (ascii "k") ≡ some (pos 2)
unfolding get_shard_for_key new_server new_shard_registry str_beq sum32
shard_of_k = refl

forward_lem_example :
    forward echo (ascii "http://a:1/shards/0/data/k") (get_of (ascii "/data/k")) delete_method
    ≡ proxied echo (ascii "http://a:1/shards/0/data/k") (get_of (ascii "/data/k")) delete_method
unfolding str_beq
forward_lem_example =
    forward_lem echo (ascii "http://a:1/shards/0/data/k") (get_of (ascii "/data/k")) delete_method
      refl refl

abbrev store_path : Str
store_path = ascii "/shard/2/store/k"

abbrev put_of : Str → Request
put_of v = record { method = put_method; path = store_path; body = some v; content_type = [] }

abbrev delete_of_k : Request
delete_of_k = record { method = delete_method; path = store_path; body = none; content_type = [] }

abbrev refresh : BroadcastRequest
refresh = record { path = ascii "/control"; payload = ascii "{}" }

abbrev unreachable : Str → Str → Option Str
unreachable url payload = some (ascii "no route")

-- A transport whose servers answer 503.
abbrev busy : Transport Str Str
busy = record {
  marshal = λ b. some b;
  request_ok = λ url. true;
  do_post = λ url b. some (record { status_code = 503; body = [] });
  do_get = λ url. none;
  decode = λ b. some b;
}

abbrev k_of_2 : Place
k_of_2 = record { shard = 2; head = b'k'; tail = [] }

abbrev k_of_3 : Place
k_of_3 = record { shard = 3; head = b'k'; tail = [] }

node_answers-refine_example :
    node_answers
      (new_node (ascii "n"))
      (write k_of_2 (ascii "v") ∷ read k_of_3 ∷ read k_of_2 ∷ erase k_of_2 ∷ [])
    ≡ table_answers
        (λ j k. none)
        (write k_of_2 (ascii "v") ∷ read k_of_3 ∷ read k_of_2 ∷ erase k_of_2 ∷ [])
node_answers-refine_example =
    node_answers-refine (ascii "n")
      (write k_of_2 (ascii "v") ∷ read k_of_3 ∷ read k_of_2 ∷ erase k_of_2 ∷ [])
      (omega arith, (omega arith, (omega arith, (omega arith, tt))))

read_back_example :
    (handle_shard_request
      (node_after
        (handle_shard_request new_n (request_of (write k_of_2 (ascii "v")))).0
        (erase k_of_3 ∷ read k_of_2 ∷ []))
      (request_of (read k_of_2))).1
    ≡ plain 200 (ascii "v")
unfolding is_untouched str_beq
read_back_example =
    read_back new_n k_of_2 (ascii "v") (erase k_of_3 ∷ read k_of_2 ∷ []) (omega arith)
      (omega arith, (omega arith, tt)) refl

post_json_lem_example :
    ((post_json busy (ascii "http://a:1/register") (ascii "{}") true).1 ≡ none) ↔ (
      (bytes : Str) × (resp : Response) × (busy.marshal (ascii "{}") ≡ some bytes)
      × (busy.request_ok (ascii "http://a:1/register") ≡ true)
      × (busy.do_post (ascii "http://a:1/register") bytes ≡ some resp)
      × IsTaken busy true resp)
post_json_lem_example = post_json_lem busy (ascii "http://a:1/register") (ascii "{}") true
