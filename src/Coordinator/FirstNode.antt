-- ===== src/Coordinator/FirstNode.antt =====
-- What the coordinator (cmd/coordinator/main.go) does with its shards by itself, when no one calls
-- POST /shards/assign.
use torua.Base.{
  ℕ, ◌<◌, ◌≡◌, refl, ap, ◌∙◌, Str, List, [], ◌∷◌, ◌++◌, Option, none, some, Bool, true, false, not,
  keep, pos, rounds, ◌==◌, str_eq, arith, ◌%◌,
}
use torua.Cluster.{NodeInfo, RegisterRequest}
use torua.Registry.{get_assignment, ShardRegistry}
use torua.Health.{HealthMonitor}
use torua.Coordinator.{
  Server, handle_register, mark_node_unhealthy, auto_assign_shards, is_eligible, node_exists,
  auto_assign_registry, id_at,
}
use torua.Coordinator.Invariant.{IsValid}
use torua.Coordinator.AutoAssign.{auto_assign_registry_lem, unassigned_below}
use torua.Coordinator.Steps.{
  handle_register-IsValid, Step-IsValid, register, mark, assign_rest, health_round,
}
use torua.Coordinator.Redistribution.{
  IsCovered, handle_register_covers, handle_register_keeps_registry, handle_register_new,
  auto_assign_idle,
}

-- A request to register, the two parts of a callback, and a health round.
pub data Occurrence : Type 0 where
  registers : Option RegisterRequest → Occurrence
  marks : Str → Occurrence
  reassigns : Occurrence
  checks : HealthMonitor → Occurrence

pub handle : Server → Occurrence → Server
handle s (registers req) = (handle_register s req).0
handle s (marks id) = mark_node_unhealthy s id
handle s reassigns = auto_assign_shards s
handle s (checks h) = record s { monitor = h }

pub handle_all : Server → List Occurrence → Server
unfolding handle
handle_all s [] = s
handle_all s (e ∷ es) = handle_all (handle s e) es

handle-registry :
    (s : Server) (e : Occurrence)
    → IsValid s
    → IsCovered s.registry
    → IsValid (handle s e) × ((handle s e).registry ≡ s.registry)
unfolding handle auto_assign_shards mark_node_unhealthy
handle-registry s (registers req) v c =
    (Step-IsValid (register s req) v, handle_register_keeps_registry s req v c)
handle-registry s (marks id) v c = (Step-IsValid (mark s id) v, refl)
handle-registry s reassigns v c = (
  Step-IsValid (assign_rest s) v,
  auto_assign_idle s.registry (keep is_eligible s.nodes) v.placed.valid c,
)
handle-registry s (checks h) v c = (Step-IsValid (health_round s h) v, refl)

handle_all-registry :
    (s : Server) (es : List Occurrence)
    → IsValid s
    → IsCovered s.registry
    → (handle_all s es).registry ≡ s.registry
unfolding handle_all
handle_all-registry s [] v c = refl
handle_all-registry s (e ∷ es) v c =
    let (v', same) = handle-registry s e v c in
    handle_all-registry (handle s e) es v' (rw same c) ∙ same

keep-append_none :
    (p : NodeInfo → Bool) (ns : List NodeInfo) (n : NodeInfo)
    → keep p ns ≡ []
    → p n ≡ true
    → keep p (ns ++ n ∷ []) ≡ n ∷ []
unfolding keep
keep-append_none p [] n e h = rw h refl
keep-append_none p (m ∷ ns) n e h = ground (arith, keep-append_none p ns n, e)

-- The first eligible node gets every shard.
auto_assign_single :
    (s : Server) (n : NodeInfo) (i : ℕ)
    → IsValid s
    → not (n.id == []) ≡ true
    → get_assignment s.registry (pos i) ≡ none
    → i < 4
    → get_assignment (auto_assign_registry s.registry (n ∷ [])) (pos i)
      ≡ some (record { node_id = n.id; is_primary = true; shard_id = pos i })
unfolding id_at
auto_assign_single s n i v named unassigned lt =
    auto_assign_registry_lem s.registry n [] i v.placed.valid (named, tt)
      (omega (arith, ap rounds v.placed.four))
    ∙ (let only : unassigned_below s.registry i % 1 ≡ 0 = omega arith in rw (unassigned, only) refl)

-- In a state that satisfies the invariant, with no eligible node and no shard assigned: a new node
-- that is eligible, with an ID and an address that are not empty, gets all four shards when it
-- registers. It then keeps all four, as primary, whatever follows of registrations, of callbacks
-- (for this node too) and of health rounds: without a manual assignment the coordinator gives no
-- other node a shard.
pub first_node_keeps_all :
    (s : Server) (req : RegisterRequest) (es : List Occurrence) (i : ℕ)
    → IsValid s
    → keep is_eligible s.nodes ≡ []
    → ((j : ℕ) → get_assignment s.registry (pos j) ≡ none)
    → not (req.node.id == []) ≡ true
    → not (req.node.addr == []) ≡ true
    → node_exists s.nodes req.node.id ≡ false
    → is_eligible req.node ≡ true
    → i < 4
    → get_assignment (handle_all (handle_register s (some req)).0 es).registry (pos i)
      ≡ some (record { node_id = req.node.id; is_primary = true; shard_id = pos i })
unfolding auto_assign_shards
first_node_keeps_all s req es i v alone unassigned named addr new ok lt =
    ap (λ (r : ShardRegistry). get_assignment r (pos i))
      (handle_all-registry (handle_register s (some req)).0 es
        (handle_register-IsValid s (some req) v) (handle_register_covers s req v named addr new ok))
    ∙ ap (λ (t : Server). get_assignment t.registry (pos i))
        (handle_register_new s req named addr new)
    ∙ ap (λ ns. get_assignment (auto_assign_registry s.registry ns) (pos i))
        (keep-append_none is_eligible s.nodes req.node alone ok)
    ∙ auto_assign_single s req.node i v named (unassigned i) lt
