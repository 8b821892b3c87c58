-- ===== src/Coordinator/Threads/Safety.antt =====
-- The coordinator's invariant under every mix of handlers and callbacks.
use mathlib.Core.Path.{subst}
use torua.Base.{
  zero, suc, ◌≡◌, ◌∙◌, refl, Str, List, [], ◌∷◌, ◌++◌, Option, none, some, Bool, true, not, ◌||◌,
  All, keep, contains, ℤ, pos, ◌==◌, str_eq, int_eq, arith, Bool-cases, inl, inr, either_branch, ap,
  sym,
}
use torua.Cluster.{NodeInfo, RegisterRequest}
use torua.Registry.{assign_shard}
use torua.Coordinator.{
  Server, AssignRequest, node_exists, replace_node, is_eligible, id_at, mark_node_unhealthy,
  mark_in, new_server,
}
use torua.Coordinator.Nodes.{
  node_exists-mark_in, node_exists-replace_node, node_exists-append, node_exists-keep,
  node_exists-id_at,
}
use torua.Coordinator.Invariant.{IsValid, assign_shard-IsPlaced}
use torua.Coordinator.Steps.{
  mark_node_unhealthy-IsValid, new_server-IsValid, replaced-IsValid, appended-IsValid,
}
use torua.Coordinator.Threads.{
  Job, waiting, chosen, looping, checked, Machine, proceed, chosen_nodes, begin_register,
  begin_assign, Step, register, assign, mark, go, Reach, here, next, check,
}

-- The nodes that a job will assign shards to are registered.
abbrev Knows : (Str → Bool) → List NodeInfo → Type 0
Knows known ns = (k : Str) → node_exists ns k ≡ true → known k ≡ true

abbrev IsSound : (Str → Bool) → Job → Type 0
IsSound known waiting = Unit
IsSound known (chosen healthy) = Knows known healthy
IsSound known (looping healthy assigned index i left) = Knows known healthy
IsSound known (checked req) = known req.node_id ≡ true

pub All-append {ℓ κ} :
    {A : Type ℓ} (P : A → Type κ) (xs ys : List A) → All P xs → All P ys → All P (xs ++ ys)
All-append P [] ys hx hy = hy
All-append P (x ∷ xs) ys hx hy = (hx.0, All-append P xs ys hx.1 hy)

pub All-middle {ℓ κ} :
    {A : Type ℓ} (P : A → Type κ) (xs : List A) (y : A) (ys : List A)
    → All P (xs ++ y ∷ ys)
    → P y × All P (xs ++ ys)
All-middle P [] y ys h = h
All-middle P (x ∷ xs) y ys h = let (p, rest) = All-middle P xs y ys h.1 in (p, (h.0, rest))

All-mono {ℓ κ} :
    {A : Type ℓ} (P Q : A → Type κ) (xs : List A) → ((x : A) → P x → Q x) → All P xs → All Q xs
All-mono P Q [] f h = tt
All-mono P Q (x ∷ xs) f h = (f x h.0, All-mono P Q xs f h.1)

IsSound-mono :
    (p q : Str → Bool) (j : Job) → ((k : Str) → p k ≡ true → q k ≡ true) → IsSound p j → IsSound q j
IsSound-mono p q waiting up h = tt
IsSound-mono p q (chosen healthy) up h = λ k e. up k (h k e)
IsSound-mono p q (looping healthy assigned index i left) up h = λ k e. up k (h k e)
IsSound-mono p q (checked req) up h = up req.node_id h

pub record IsSafe (m : Machine) : Type 0 where
  pub valid : IsValid m.server
  pub sound : All (IsSound (node_exists m.server.nodes)) m.jobs

-- A registry that keeps the placement keeps the server's invariant.
with_registry-IsValid :
    (s : Server) (i : ℤ) (id : Str) (p : Bool)
    → (not (id == []) ≡ true → node_exists s.nodes id ≡ true)
    → IsValid s
    → IsValid (record s { registry = (assign_shard s.registry i id p).0 })
with_registry-IsValid s i id p k v = record {
  placed = assign_shard-IsPlaced (node_exists s.nodes) s.registry i id p k v.placed;
  complete = v.complete;
  distinct = v.distinct;
}

proceed-IsValid :
    (s : Server) (j : Job) → IsSound (node_exists s.nodes) j → IsValid s → IsValid (proceed s j).0
unfolding proceed
proceed-IsValid s waiting h v = v
proceed-IsValid s (chosen healthy) h v = v
proceed-IsValid s (looping healthy assigned index i zero) h v = v
proceed-IsValid s (looping healthy assigned index i (suc left)) h v =
    either_branch IsValid (contains assigned (pos i)) v (
      with_registry-IsValid s (pos i) (id_at healthy index) true
        (λ e. h (id_at healthy index) (node_exists-id_at healthy index e)) v)
proceed-IsValid s (checked req) h v =
    with_registry-IsValid s req.shard_id req.node_id req.is_primary (λ e. h) v

-- No part of a job changes the nodes.
pub nodes-proceed : (s : Server) (j : Job) → (proceed s j).0.nodes ≡ s.nodes
unfolding proceed
nodes-proceed s waiting = refl
nodes-proceed s (chosen healthy) = refl
nodes-proceed s (looping healthy assigned index i zero) = refl
nodes-proceed s (looping healthy assigned index i (suc left)) = ground arith
nodes-proceed s (checked req) = refl

chosen_nodes-IsSound :
    (known : Str → Bool) (ns : List NodeInfo)
    → Knows known ns
    → All (IsSound known) (chosen_nodes ns)
unfolding chosen_nodes
chosen_nodes-IsSound known [] h = tt
chosen_nodes-IsSound known (n ∷ ns) h = (h, tt)

proceed-IsSound :
    (s : Server) (j : Job)
    → IsSound (node_exists s.nodes) j
    → All (IsSound (node_exists s.nodes)) (proceed s j).1
unfolding proceed
proceed-IsSound s waiting h =
    chosen_nodes-IsSound (node_exists s.nodes) (keep is_eligible s.nodes)
      (λ k e. node_exists-keep is_eligible s.nodes k e)
proceed-IsSound s (chosen healthy) h = (h, tt)
proceed-IsSound s (looping healthy assigned index i zero) h = tt
proceed-IsSound s (looping healthy assigned index i (suc left)) h = (h, tt)
proceed-IsSound s (checked req) h = tt

-- The jobs stay sound where more nodes are known, and so do new ones.
with_jobs-IsSafe :
    (s t : Server) (jobs new : List Job)
    → ((k : Str) → node_exists s.nodes k ≡ true → node_exists t.nodes k ≡ true)
    → IsValid t
    → All (IsSound (node_exists s.nodes)) jobs
    → All (IsSound (node_exists t.nodes)) new
    → IsSafe (record { server = t; jobs = new ++ jobs })
with_jobs-IsSafe s t jobs new up v old fresh = record {
  valid = v;
  sound = All-append (IsSound (node_exists t.nodes)) new jobs fresh (
      All-mono (IsSound (node_exists s.nodes)) (IsSound (node_exists t.nodes)) jobs
        (λ j h. IsSound-mono (node_exists s.nodes) (node_exists t.nodes) j up h) old);
}

begin_register-IsSafe :
    (s : Server) (jobs : List Job) (req : Option RegisterRequest)
    → IsValid s
    → All (IsSound (node_exists s.nodes)) jobs
    → IsSafe (record { server = (begin_register s req).0; jobs = (begin_register s req).1 ++ jobs })
unfolding begin_register
begin_register-IsSafe s jobs none v h = record { valid = v; sound = h }
begin_register-IsSafe s jobs (some req) v h =
    elim (Bool-cases (req.node.id == [] || req.node.addr == [])) [
      | inl e ↦ rw e (record { valid = v; sound = h })
      | inr e ↦ rw e (elim (Bool-cases (node_exists s.nodes req.node.id)) [
        | inl old ↦ rw old (
            with_jobs-IsSafe s (record s { nodes = replace_node s.nodes req.node }) jobs []
              (λ k known. node_exists-replace_node s.nodes req.node k ∙ known)
              (replaced-IsValid s req e v) h tt)
        | inr new ↦ rw new (
            with_jobs-IsSafe s (record s { nodes = s.nodes ++ req.node ∷ [] }) jobs (waiting ∷ [])
              (λ k known. node_exists-append s.nodes req.node k ∙ rw known refl)
              (appended-IsValid s req e new v) h (tt, tt))
      ])
    ]

begin_assign-IsSound :
    (s : Server) (req : AssignRequest) → All (IsSound (node_exists s.nodes)) (begin_assign s req)
unfolding begin_assign
begin_assign-IsSound s req = elim (Bool-cases (node_exists s.nodes req.node_id)) [
  | inl e ↦ rw e (e, tt)
  | inr e ↦ rw e tt
]

pub Step-IsSafe : {m n : Machine} → Step m n → IsSafe m → IsSafe n
unfolding mark_node_unhealthy mark_in
Step-IsSafe (register m req) h = begin_register-IsSafe m.server m.jobs req h.valid h.sound
Step-IsSafe (assign m req) h =
    with_jobs-IsSafe m.server m.server m.jobs (begin_assign m.server req) (λ k e. e) h.valid h.sound
      (begin_assign-IsSound m.server req)
Step-IsSafe (check m mon) h = record {
  valid = record {
    placed = h.valid.placed;
    complete = h.valid.complete;
    distinct = h.valid.distinct;
  };
  sound = h.sound;
}
Step-IsSafe (mark m id) h =
    with_jobs-IsSafe m.server (mark_node_unhealthy m.server id) m.jobs (waiting ∷ [])
      (λ k e. node_exists-mark_in m.server.nodes id k ∙ e)
      (mark_node_unhealthy-IsValid m.server id h.valid) h.sound (tt, tt)
Step-IsSafe (go m before after j e) h =
    let sound = subst (All (IsSound (node_exists m.server.nodes))) e h.sound in
    let (one, rest) = All-middle (IsSound (node_exists m.server.nodes)) before j after sound in
    with_jobs-IsSafe m.server (proceed m.server j).0 (before ++ after) (proceed m.server j).1
      (λ k known. ap (λ (ns : List NodeInfo). node_exists ns k) (nodes-proceed m.server j) ∙ known)
      (proceed-IsValid m.server j one h.valid) rest
      (subst (λ (ns : List NodeInfo). All (IsSound (node_exists ns)) (proceed m.server j).1)
        (sym (nodes-proceed m.server j)) (proceed-IsSound m.server j one))

pub Reach-IsSafe_from : {m n : Machine} → IsSafe m → Reach m n → IsSafe n
Reach-IsSafe_from h here = h
Reach-IsSafe_from h (next r st) = Step-IsSafe st (Reach-IsSafe_from h r)

-- In any mix of handlers and callbacks that a new coordinator runs: the registry is well-formed over
-- four shards, every assignment names a registered node, node IDs are distinct, and no node lacks an
-- ID or an address.
pub Reach-IsSafe :
    (parse : Str → Option ℤ) (env : Str) {m : Machine}
    → Reach (record { server = new_server parse env; jobs = [] }) m
    → IsValid m.server
Reach-IsSafe parse env r =
    (Reach-IsSafe_from (record { valid = new_server-IsValid parse env; sound = tt }) r).valid
