-- ===== src/System/Data.antt =====
-- A client's request for a key, through `handleData` of cmd/coordinator/main.go, to the router of
-- cmd/node/main.go, and back.
use torua.Registry.{get_shard_for_key}
use torua.Base.{
  ℕ, ◌≡◌, refl, ap, ◌∙◌, Str, [], ◌∷◌, ◌++◌, Option, none, some, true, false, ascii, ℤ, ◌==◌,
  str_eq, str_beq, show_int,
}
use torua.Cluster.{Response}
use torua.Http.{
  Method, get_method, put_method, delete_method, post_method, other, Request, HttpClient,
}
use torua.Mux.{clean_path}
use torua.Coordinator.{Server, node_exists}
use torua.Coordinator.Invariant.{IsValid}
use torua.Coordinator.Redistribution.{IsCovered}
use torua.Proxy.{
  target_url, node_addr, forward, is_data_method, pass_on, data_prefix, handle_data, forward_get,
  forward_put, forward_delete,
}
use torua.Proxy.Route.{status_of, handle_data_reaches}
use torua.Node.{Node, NodeReply, plain, keys_reply, stats_reply, info_reply}
use torua.Node.Serve.{serve}
use torua.Node.Mismatch.{serve_forwarded}

-- What a node's answer is on the wire; the text of the JSON answers is left out.
node_response : NodeReply → Response
node_response (plain code text) = record { status_code = code; body = text }
node_response (keys_reply keys n) = record { status_code = 200; body = [] }
node_response (stats_reply id ops keys bytes) = record { status_code = 200; body = [] }
node_response (info_reply id shards n) = record { status_code = 200; body = [] }

-- A client whose requests arrive at the nodes. `locate` gives the node that a URL leads to, and the
-- URL's path; a URL that leads nowhere is not answered.
pub network : (Str → Option (Node × Str)) → HttpClient
unfolding node_response
network locate = record {
  request_ok = λ url. true;
  send = λ out. elim (locate out.url) [
    | none ↦ none
    | some (n, path) ↦ some (
        node_response
          (serve n (record {
            method = out.method;
            path = path;
            body = some out.body;
            content_type = out.content_type;
          })).1)
  ];
}

-- What the coordinator's URL has behind the node's address.
abbrev pub data_path : ℤ → Str → Str
data_path i key = ascii "/shards/" ++ (show_int i ++ (ascii "/data/" ++ key))

forward-network :
    (locate : Str → Option (Node × Str)) (url : Str) (r : Request) (m : Method) (n : Node)
    (path body : Str)
    → is_data_method m ≡ true
    → (url == []) ≡ false
    → r.body ≡ some body
    → locate url ≡ some (n, path)
    → ((q : Request) → q.path ≡ path → (serve n q).1 ≡ plain 404 (ascii "404 page not found"))
    → status_of (forward (network locate) url r m) ≡ some 404
unfolding forward network pass_on
forward-network locate url r get_method n path body d u b l h =
    rw (u, forward_get)
      (rw (l, pass_on)
        (rw
          (h (record { method = get_method; path = path; body = some []; content_type = [] }) refl)
          refl))
forward-network locate url r put_method n path body d u b l h =
    rw (u, forward_put)
      (rw (b, forward_put)
        (rw (l, pass_on)
          (rw
            (h
              (record {
                method = put_method;
                path = path;
                body = some body;
                content_type = r.content_type;
              })
              refl)
            refl)))
forward-network locate url r delete_method n path body d u b l h =
    rw (u, forward_delete)
      (rw (l, pass_on)
        (rw
          (h (record { method = delete_method; path = path; body = some []; content_type = [] })
            refl)
          refl))
forward-network locate url r post_method n path body d u b l h = cc
forward-network locate url r other n path body d u b l h = cc

target_url_found : (addr : Str) (i : ℤ) (key : Str) → (target_url addr i key == []) ≡ false
unfolding target_url str_beq
target_url_found [] i key = refl
target_url_found (x ∷ addr) i key = refl

serve-data_path :
    (n : Node) (q : Request) (i : ℤ) (key : Str)
    → (clean_path (data_path i key) == data_path i key) ≡ true
    → q.path ≡ data_path i key
    → (serve n q).1 ≡ plain 404 (ascii "404 page not found")
serve-data_path n q i key clean p =
    ap (λ (x : Node × NodeReply). x.1) (serve_forwarded n q [] i key (unfold target_url in p))
    ∙ rw (ap (λ (x : Str). clean_path x == x) p ∙ clean) refl

-- With the invariant, every shard assigned, and a network that leads each registered node's URLs to
-- that node: a GET, PUT or DELETE of /data/{key}, with a key that is not empty and leaves the
-- forwarded path clean, and a body that can be read, is answered 404, whatever the nodes hold.
pub client_gets_404 :
    (locate : Str → Option (Node × Str)) (node_at : Str → Node) (s : Server) (r : Request) (c : ℕ)
    (key body : Str)
    → IsValid s
    → IsCovered s.registry
    → ((id path : Str)
        → node_exists s.nodes id ≡ true
        → locate (node_addr s.nodes id ++ b'/' ∷ path) ≡ some (node_at id, b'/' ∷ path))
    → ((i : ℤ)
        → get_shard_for_key s.registry (c ∷ key) ≡ some i
        → (clean_path (data_path i (c ∷ key)) == data_path i (c ∷ key)) ≡ true)
    → r.path ≡ data_prefix ++ c ∷ key
    → is_data_method r.method ≡ true
    → r.body ≡ some body
    → status_of (handle_data (network locate) s r) ≡ some 404
client_gets_404 locate node_at s r c key body v cov leads clean path m b =
    let (i, a, shard, at, known, addr, sent) =
      handle_data_reaches (network locate) s r c key v cov path m in
    ap status_of sent
    ∙ forward-network locate (target_url (node_addr s.nodes a.node_id) i (c ∷ key)) r r.method
        (node_at a.node_id) (data_path i (c ∷ key)) body m
        (target_url_found (node_addr s.nodes a.node_id) i (c ∷ key)) b
        (unfold target_url in
          leads a.node_id (ascii "shards/" ++ (show_int i ++ (ascii "/data/" ++ c ∷ key))) known)
        (λ q p. serve-data_path (node_at a.node_id) q i (c ∷ key) (clean i shard) p)
