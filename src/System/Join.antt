-- ===== src/System/Join.antt =====
-- A node's `register` (cmd/node/main.go) at the coordinator's router and `handleRegister`
-- (cmd/coordinator/main.go).
use torua.Node.Startup.Retry.{register_once}
use torua.Coordinator.Invariant.{IsValid}
use torua.Coordinator.Steps.{handle_register-IsValid}
use torua.Coordinator.Redistribution.{IsCovered, handle_register_covers}
use torua.Base.{
  ◌≡◌, refl, [], some, true, not, ascii, ◌==◌, str_eq, str_beq, ==_refl, arith, Option, Str, ap,
  ◌∙◌, none, trim_prefix-append, ◌⊎◌, inl, inr, Bool-cases,
}
use torua.Cluster.{RegisterRequest, post_json}
use torua.Http.{reply, Request}
use torua.Mux.{find_handler, to_pattern}
use torua.Coordinator.{Server, node_exists, handle_register, auto_assign_shards}
use torua.Node.Startup.{register_url, register, register_body, joined}
use torua.System.{send_register, arriving, register_url}
use torua.Coordinator.Nodes.{node_exists-replace_node, node_exists-append}
use torua.Coordinator.Serve.{Outside, serve, answer, server_patterns, replied}

register_route : find_handler server_patterns (ascii "/register") ≡ to_pattern (ascii "/register")
unfolding find_handler str_beq
register_route = refl

handle_register_accepts :
    (s : Server) (req : RegisterRequest)
    → not (req.node.id == []) ≡ true
    → not (req.node.addr == []) ≡ true
    → ((handle_register s (some req)).1 ≡ reply 204 [])
      × (node_exists (handle_register s (some req)).0.nodes req.node.id ≡ true)
unfolding handle_register auto_assign_shards
handle_register_accepts s req a b = ground (
  arith,
  node_exists-replace_node s.nodes req.node req.node.id,
  node_exists-append s.nodes req.node req.node.id,
  ==_refl req.node.id,
)

serve-register :
    (o : Outside) (s : Server) (r : Request)
    → r.path ≡ ascii "/register"
    → serve o s r ≡ (
      (handle_register s (o.decode_register r.body)).0,
      replied (handle_register s (o.decode_register r.body)).1,
    )
unfolding serve
serve-register o s r path =
    ap (λ p. answer o s r (find_handler server_patterns p)) path
    ∙ ap (answer o s r) register_route
    ∙ unfold answer str_beq in refl

module _ (o : Outside) (marshal : RegisterRequest → Option Str) where
  send_register_lem :
      (s : Server) (coord bytes : Str) (req : RegisterRequest)
      → marshal req ≡ some bytes
      → o.decode_register (some bytes) ≡ some req
      → not (req.node.id == []) ≡ true
      → not (req.node.addr == []) ≡ true
      → send_register o marshal coord coord req s ≡ ((handle_register s (some req)).0, none)
  unfolding send_register arriving register_url
  send_register_lem s coord bytes req m d a b =
      let arrives : serve o s (arriving coord (register_url coord) bytes)
          ≡ ((handle_register s (some req)).0, replied (reply 204 [])) =
        serve-register o s (arriving coord (register_url coord) bytes)
          (trim_prefix-append coord (ascii "/register"))
        ∙ rw (d, (handle_register_accepts s req a b).0) refl in
      rw (m, arrives, send_register) (unfold post_json in rw (m, post_json) refl)

  -- A node whose ID and address are not empty, and whose registration can be encoded and is decoded
  -- as it was, joins a coordinator at the address it is given by one request, with no pause. Then the
  -- coordinator has the node in its list. If it was new, every shard has an assignment; in any case
  -- the invariant is kept.
  pub register_joins :
      (s : Server) (coord id addr bytes : Str)
      → IsValid s
      → not (id == []) ≡ true
      → not (addr == []) ≡ true
      → marshal (register_body id addr) ≡ some bytes
      → o.decode_register (some bytes) ≡ some (register_body id addr)
      → (t : Server) × (register (send_register o marshal coord coord (register_body id addr)) s
          ≡ record { world = t; outcome = joined; attempts = 1; slept = 0 })
        × (node_exists t.nodes id ≡ true)
        × ((node_exists s.nodes id ≡ true) ⊎ IsCovered t.registry)
        × IsValid t
  unfolding register_body register
  register_joins s coord id addr bytes v a b m d =
      let req = register_body id addr in
      (
        (handle_register s (some req)).0,
        register_once (send_register o marshal coord coord req) s (handle_register s (some req)).0
            (send_register_lem s coord bytes req m d a b),
        (handle_register_accepts s req a b).1,
        elim (Bool-cases (node_exists s.nodes id)) [
          | inl old ↦ inl old
          | inr new ↦ inr (handle_register_covers s req v a b new (unfold str_beq in refl))
        ],
        handle_register-IsValid s (some req) v,
      )
