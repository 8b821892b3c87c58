-- ===== src/Coordinator/Serve/Begun/Alone.antt =====
-- The handlers of cmd/coordinator/main.go in their locked parts (Coordinator/Threads), with nothing
-- between the parts, against the handlers as a whole.
use torua.Base.{
  ℕ, zero, suc, ◌+◌, ◌≡◌, refl, ◌∙◌, sym, ap, Str, List, [], ◌∷◌, ◌++◌, Option, none, some, Bool,
  true, false, ◌==◌, str_eq, int_eq, arith, ascii, if◌then◌else◌, ◌||◌, keep, contains, rounds, ℤ,
  pos, length, ◌%◌, Bool-cases, inl, inr, ◌<◌, Option-cases,
}
use torua.Cluster.{NodeInfo, RegisterRequest}
use torua.Http.{Request, Method, get_method, put_method, delete_method, post_method, other}
use torua.Mux.{Matched, redirect, no_pattern, to_pattern, find_handler}
use torua.Registry.{ShardRegistry, assign_shard, get_all_assignments, RegistryError}
use torua.Coordinator.{
  Server, AssignRequest, handle_register, handle_shard_assign, assign_request, auto_assign_shards,
  auto_assign_registry, assign_from, assigned_shards, is_eligible, id_at, node_exists, replace_node,
}
use torua.Coordinator.Threads.{Job, waiting, chosen, looping, proceed, begin_register, begin_assign}
use torua.Coordinator.Serve.{Outside, serve, dispatch, answer, server_patterns, ServerReply}
use torua.Coordinator.Serve.Begun.{begin_request, begin_shard_assign, begin_answer, begin_dispatch}

-- The first job goes on, as long as there is one, for so many parts.
pub finish : ℕ → Server × List Job → Server × List Job
finish zero x = x
finish (suc k) (s, []) = (s, [])
finish (suc k) (s, j ∷ js) = let (s', new) = proceed s j in finish k (s', new ++ js)

finish_done : (k : ℕ) (s : Server) → finish k (s, []) ≡ (s, [])
unfolding finish
finish_done zero s = refl
finish_done (suc k) s = refl

chosen_jobs : List NodeInfo → List Job
chosen_jobs [] = []
chosen_jobs (n ∷ ns) = chosen (n ∷ ns) ∷ []

finish_loop :
    (n : ℕ) (s : Server) (healthy : List NodeInfo) (assigned : List ℤ) (index i left : ℕ)
    → left < n
    → finish n (s, looping healthy assigned index i left ∷ [])
      ≡ (record s { registry = assign_from s.registry healthy assigned index i left }, [])
unfolding finish proceed assign_from
finish_loop zero s healthy assigned index i left lt = absurd (omega (arith, lt))
finish_loop (suc n) s healthy assigned index i zero lt = finish_done n s
finish_loop (suc n) s healthy assigned index i (suc left) lt =
    elim (Bool-cases (contains assigned (pos i))) [
      | inl e ↦ rw e (finish_loop n s healthy assigned index (i + 1) left (omega (arith, lt)))
      | inr e ↦ rw e (
          finish_loop n
            (record s { registry = (assign_shard s.registry (pos i) (id_at healthy index) true).0 })
            healthy assigned ((index + 1) % length healthy) (i + 1) left (omega (arith, lt)))
    ]

finish_chosen :
    (n : ℕ) (s : Server) (nodes : List NodeInfo)
    → rounds s.registry.num_shards + 1 < n
    → finish n (s, chosen_jobs nodes)
      ≡ (record s { registry = auto_assign_registry s.registry nodes }, [])
unfolding finish proceed auto_assign_registry chosen_jobs
finish_chosen n s [] lt = finish_done n s
finish_chosen zero s (m ∷ ms) lt = absurd (omega (arith, lt))
finish_chosen (suc n) s (m ∷ ms) lt =
    finish_loop n s (m ∷ ms) (assigned_shards (get_all_assignments s.registry)) 0 0
      (rounds s.registry.num_shards) (omega (arith, lt))

-- `autoAssignShards` alone.
finish_waiting :
    (n : ℕ) (s : Server)
    → rounds s.registry.num_shards + 2 < n
    → finish n (s, waiting ∷ []) ≡ (auto_assign_shards s, [])
unfolding finish proceed auto_assign_shards auto_assign_registry
finish_waiting zero s lt = absurd (omega (arith, lt))
finish_waiting (suc n) s lt =
    let P : List NodeInfo → Type 0 = λ ns.
      finish n (s, (elim ns [ [] ↦ [] | m ∷ ms ↦ chosen (m ∷ ms) ∷ [] ]) ++ [])
      ≡ (record s { registry = auto_assign_registry s.registry ns }, []) in
    elim (keep is_eligible s.nodes) as P [
      | [] ↦ finish_done n s
      | m ∷ ms ↦ unfold chosen_jobs in finish_chosen n s (m ∷ ms) (omega (arith, lt))
    ]

register_alone :
    (n : ℕ) (s : Server) (req : Option RegisterRequest)
    → rounds s.registry.num_shards + 2 < n
    → finish n (begin_register s req) ≡ ((handle_register s req).0, [])
unfolding begin_register handle_register
register_alone n s none lt = finish_done n s
register_alone n s (some req) lt = elim (Bool-cases (req.node.id == [] || req.node.addr == [])) [
  | inl e ↦ rw e (finish_done n s)
  | inr e ↦ elim (Bool-cases (node_exists s.nodes req.node.id)) [
    | inl f ↦ rw (e, f) (finish_done n (record s { nodes = replace_node s.nodes req.node }))
    | inr f ↦ rw (e, f) (finish_waiting n (record s { nodes = s.nodes ++ req.node ∷ [] }) lt)
  ]
]

-- On an error AssignShard leaves the registry.
assign_shard_error :
    (r : ShardRegistry) (i : ℤ) (id : Str) (p : Bool) (e : RegistryError)
    → (assign_shard r i id p).1 ≡ some e
    → (assign_shard r i id p).0 ≡ r
unfolding assign_shard
assign_shard_error r i id p e h = ground (arith, h)

assigned_alone :
    (s : Server) (req : AssignRequest)
    → node_exists s.nodes req.node_id ≡ true
    → (assign_request s (some req)).0
      ≡ record s { registry = (assign_shard s.registry req.shard_id req.node_id req.is_primary).0 }
unfolding assign_request
assigned_alone s req known =
    elim (Option-cases (assign_shard s.registry req.shard_id req.node_id req.is_primary).1) [
      | inl fine ↦ rw (known, fine) refl
      | inr (e, refused) ↦
          rw (known, refused)
            (ap (λ (r : ShardRegistry). record s { registry = r })
              (sym
                (assign_shard_error s.registry req.shard_id req.node_id req.is_primary e refused)))
    ]

unknown_alone :
    (s : Server) (req : AssignRequest)
    → node_exists s.nodes req.node_id ≡ false
    → (assign_request s (some req)).0 ≡ s
unfolding assign_request
unknown_alone s req unknown = rw unknown refl

assign_alone :
    (n : ℕ) (s : Server) (req : AssignRequest)
    → 1 < n
    → finish n (s, begin_assign s req) ≡ ((assign_request s (some req)).0, [])
unfolding begin_assign finish proceed
assign_alone zero s req lt = absurd (omega (arith, lt))
assign_alone (suc n) s req lt = elim (Bool-cases (node_exists s.nodes req.node_id)) [
  | inl e ↦ rw e (
      finish_done n (record s {
        registry = (assign_shard s.registry req.shard_id req.node_id req.is_primary).0;
      })
      ∙ ap (λ (t : Server). (t, [])) (sym (assigned_alone s req e)))
  | inr e ↦ rw e (ap (λ (t : Server). (t, [])) (sym (unknown_alone s req e)))
]

shard_assign_alone :
    (n : ℕ) (s : Server) (m : Method) (req : Option AssignRequest)
    → 1 < n
    → finish n (begin_shard_assign s m req) ≡ ((handle_shard_assign s m req).0, [])
unfolding begin_shard_assign handle_shard_assign
shard_assign_alone n s post_method (some req) lt = assign_alone n s req lt
shard_assign_alone n s post_method none lt = unfold assign_request in finish_done n s
shard_assign_alone n s get_method req lt = finish_done n s
shard_assign_alone n s put_method req lt = finish_done n s
shard_assign_alone n s delete_method req lt = finish_done n s
shard_assign_alone n s other req lt = finish_done n s

-- Two choices by one test.
both_branches {ℓ κ μ} :
    {A : Type ℓ} {B : Type κ} (P : A → B → Type μ) (b : Bool) {x y : A} {u v : B}
    → P x u
    → P y v
    → P (if b then x else y) (if b then u else v)
both_branches P true p q = p
both_branches P false p q = q

dispatch_alone :
    (o : Outside) (n : ℕ) (s : Server) (r : Request) (p : Str)
    → rounds s.registry.num_shards + 2 < n
    → finish n (begin_dispatch o s r p) ≡ ((dispatch o s r p).0, [])
unfolding begin_dispatch dispatch
dispatch_alone o n s r p lt =
    let Q : Server × List Job → Server × ServerReply → Type 0 = λ x y. finish n x ≡ (y.0, []) in
    both_branches Q (p == ascii "/register") (register_alone n s (o.decode_register r.body) lt) (
      both_branches Q (p == ascii "/nodes") (finish_done n s) (
        both_branches Q (p == ascii "/broadcast") (finish_done n s) (
          both_branches Q (p == ascii "/health") (finish_done n s) (
            both_branches Q (p == ascii "/data/") (finish_done n s) (
              both_branches Q (p == ascii "/shards") (finish_done n s)
                (shard_assign_alone n s r.method (o.decode_assign r.body) (omega (arith, lt))))))))

-- A request to the coordinator that is taken apart into its locked parts, with nothing between them,
-- leaves the server as the whole handler does, and nothing to do: whatever its path, method and
-- body, after at most as many parts as there are shards and three more.
pub begin_request-serve :
    (o : Outside) (n : ℕ) (s : Server) (r : Request)
    → rounds s.registry.num_shards + 2 < n
    → finish n (begin_request o s r) ≡ ((serve o s r).0, [])
unfolding begin_request begin_answer begin_dispatch serve answer dispatch
begin_request-serve o n s r lt =
    let Q : Matched → Type 0 = λ x. finish n (begin_answer o s r x) ≡ ((answer o s r x).0, []) in
    elim (find_handler server_patterns r.path) as Q [
      | redirect ↦ finish_done n s
      | no_pattern ↦ finish_done n s
      | to_pattern p ↦ dispatch_alone o n s r p lt
    ]
