-- ===== src/Examples/Whole.antt =====
-- The programs together: HTTP requests to the coordinator, a node that joins, the monitor.
use torua.Mux.{clean_path}
use torua.Fnv.{sum32}
use torua.Registry.{get_shard_for_key, new_shard_registry, assign_shard, get_all_assignments}
use torua.Health.History.{failures}
use torua.Base.{
  ◌≡◌, refl, ℕ, Str, List, [], ◌∷◌, Option, none, some, ascii, true, trim_prefix, str_beq,
  str_beq_iff, arith, ◌==◌, str_eq, ◌⊎◌, ℤ, pos, if◌then◌else◌, nat_beq, get, itoa, ◌++◌, ◌+◌, keep,
  contains, put, show_int,
}
use torua.Cluster.{RegisterRequest, ClientError, marshal_error}
use torua.Coordinator.{
  Server, node_exists, handle_register, new_server, auto_assign_shards, auto_assign_registry,
  assign_from, assigned_shards, id_at,
}
use torua.Coordinator.Invariant.{IsValid}
use torua.Coordinator.Redistribution.{IsCovered}
use torua.Coordinator.Serve.{Outside, serve_all}
use torua.Coordinator.Serve.Requests.{serve_all-IsCovered}
use torua.Coordinator.Listing.{shown, find_node}
use torua.Node.{Node}
use torua.Node.Startup.{register, register_body, joined, read_config}
use torua.Node.Startup.Retry.{Ends, register-Ends}
use torua.System.{send_register}
use torua.System.Join.{register_joins}
use torua.System.Data.{network, client_gets_404, data_path}
use torua.System.Monitor.{tick_all}
use torua.System.Monitor.Strikes.{shown-tick_all}
use torua.System.Monitor.Marks.{has_reached, checks_of}
use torua.Storage.{new_memory_store, found}
use torua.Storage.Refinement.{answers, put_call, get_call, finished, looked_up}
use torua.Storage.Buffers.{Event, make, write, call_put, call_get, history, no_slices}
use torua.Storage.Buffers.Isolation.{calls, replies, history_lem}
use torua.Proxy.{handle_data, node_addr}
use torua.Proxy.Route.{status_of}
use torua.Examples.Data.{fresh, one, get_of, new_n, echo, failing, passing}
use torua.Examples.Placement.{fresh-IsValid, one-IsValid, one-IsCovered}

-- Decoders that take every body for the registration of one node.
abbrev pub always_c : Outside
always_c = record {
  decode_register = λ body. some (register_body (ascii "c") (ascii "http://c:1"));
  decode_broadcast = λ body. none;
  decode_assign = λ body. none;
  client = echo;
  post = λ url payload. none;
}

abbrev encode_c : RegisterRequest → Option Str
encode_c req = some (ascii "{}")

serve_all-IsCovered_example :
    IsValid (serve_all always_c one (get_of (ascii "/register") ∷ get_of (ascii "/nodes") ∷ []))
    × IsCovered
        (serve_all always_c one
          (get_of (ascii "/register") ∷ get_of (ascii "/nodes") ∷ [])).registry
serve_all-IsCovered_example =
    serve_all-IsCovered always_c one (get_of (ascii "/register") ∷ get_of (ascii "/nodes") ∷ [])
      one-IsValid one-IsCovered

register_joins_example :
    (t : Server) × (register
        (send_register always_c encode_c
          (ascii "http://coord")
          (ascii "http://coord")
          (register_body (ascii "c") (ascii "http://c:1")))
        fresh
      ≡ record { world = t; outcome = joined; attempts = 1; slept = 0 })
    × (node_exists t.nodes (ascii "c") ≡ true)
    × ((node_exists fresh.nodes (ascii "c") ≡ true) ⊎ IsCovered t.registry)
    × IsValid t
unfolding str_beq
register_joins_example =
    register_joins always_c encode_c fresh (ascii "http://coord") (ascii "c") (ascii "http://c:1")
      (ascii "{}") fresh-IsValid refl refl refl refl

-- A coordinator that answers the third request.
abbrev third : ℕ → ℕ × Option ClientError
third n = (n + 1, if nat_beq n 2 then none else some marshal_error)

register-Ends_example : Ends third 10 0 0 0 (register third 0)
register-Ends_example = register-Ends third 0

-- The caller writes into the slice that it has stored, and into the one that it has got.
abbrev scribbles : List Event
scribbles =
    make (ascii "v")
    ∷ call_put (ascii "k") 0
    ∷ write 0 (ascii "x")
    ∷ call_get (ascii "k")
    ∷ write 2 (ascii "y")
    ∷ call_get (ascii "k")
    ∷ []

history_lem_example :
    answers new_memory_store (calls (history no_slices scribbles))
    ≡ replies (history no_slices scribbles)
history_lem_example = history_lem scribbles

shown-tick_all_example :
    shown
      (tick_all one ((λ id. passing) ∷ (λ id. failing) ∷ (λ id. failing) ∷ (λ id. failing) ∷ []))
      (ascii "a")
    ≡ some (ascii "unhealthy")
unfolding handle_register str_beq node_exists new_server auto_assign_shards find_node get
    has_reached checks_of failures
shown-tick_all_example =
    shown-tick_all one (ascii "a") (ascii "healthy") (omega arith) refl one-IsValid.distinct refl
      refl refl refl ((λ id. passing) ∷ (λ id. failing) ∷ (λ id. failing) ∷ (λ id. failing) ∷ [])

-- Every URL leads to the first node.
abbrev all_to_a : Str → Option (Node × Str)
all_to_a url = some (new_n, trim_prefix url (ascii "http://a:1"))

shard_of_k : get_shard_for_key one.registry (ascii "k") ≡ some (pos 2)
unfolding get_shard_for_key handle_register new_server new_shard_registry auto_assign_shards
    auto_assign_registry assign_from assign_shard str_beq sum32 node_exists keep contains
    assigned_shards get_all_assignments id_at
shard_of_k = refl

only_a : (id : Str) → node_exists one.nodes id ≡ true → id ≡ ascii "a"
unfolding handle_register node_exists new_server auto_assign_shards
only_a id e = ground (arith, str_beq_iff (ascii "a") id)

all_to_a_lem :
    (id path : Str)
    → node_exists one.nodes id ≡ true
    → all_to_a (node_addr one.nodes id ++ b'/' ∷ path) ≡ some (new_n, b'/' ∷ path)
unfolding handle_register node_exists new_server auto_assign_shards node_addr str_beq trim_prefix
all_to_a_lem id path e = rw (only_a id e) refl

clean_k :
    (i : ℤ)
    → get_shard_for_key one.registry (ascii "k") ≡ some i
    → (clean_path (data_path i (ascii "k")) == data_path i (ascii "k")) ≡ true
unfolding clean_path show_int itoa str_beq
clean_k i e = let same : i ≡ pos 2 = cc (e, shard_of_k) in rw same refl

client_gets_404_example :
    status_of (handle_data (network all_to_a) one (get_of (ascii "/data/k"))) ≡ some 404
client_gets_404_example =
    client_gets_404 all_to_a (λ id. new_n) one (get_of (ascii "/data/k")) b'k' [] [] one-IsValid
      one-IsCovered all_to_a_lem clean_k refl refl refl

-- The caller's write after the Put, and its write to what Get returned, are not seen.
isolated :
    history no_slices (
      make (ascii "v")
      ∷ call_put (ascii "k") 0
      ∷ write 0 (ascii "x")
      ∷ call_get (ascii "k")
      ∷ write 2 (ascii "y")
      ∷ call_get (ascii "k")
      ∷ [])
    ≡ (put_call (ascii "k") (ascii "v"), finished none)
      ∷ (get_call (ascii "k"), looked_up (found (ascii "v")))
      ∷ (get_call (ascii "k"), looked_up (found (ascii "v")))
      ∷ []
unfolding history contains get put str_beq
isolated = refl

no_id : read_config (λ k. []) ≡ none
unfolding read_config str_beq
no_id = refl
