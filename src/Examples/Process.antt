-- ===== src/Examples/Process.antt =====
-- A coordinator's process: it listens, takes a registration, checks its nodes and gets a signal.
use torua.Cluster.{NodeInfo}
use torua.Proxy.Forward.{proxied}
use torua.Proxy.Route.{data_url}
use torua.System.Process.Handlers.{data_forwarded}
use torua.Fnv.{sum32}
use torua.Registry.{
  get_all_assignments, values, new_shard_registry, get_shard_for_key, get_node_for_key,
  assign_shard, ShardAssignment, get_assignment,
}
use torua.Proxy.Parts.{begin_data, routed, finish_data}
use torua.Http.{Request}
use torua.Node.Startup.{register_body}
use torua.Coordinator.{new_server, node_exists, assigned_shards, id_at}
use torua.Coordinator.Serve.Begun.{begin_request}
use torua.Coordinator.Threads.{waiting, proceed, with_jobs, begin_register, Job}
use torua.Base.{
  ◌≡◌, refl, Str, [], none, some, ascii, true, ◌++◌, ◌∷◌, str_beq, ℕ, zero, suc, List, keep,
  contains, get, put, has_prefix, ℤ, ◌==◌, str_eq, false, pos, ◌%◌, get_elem?,
}
use torua.Health.{Probe, is_positive, new_health_monitor, set_on_unhealthy}
use torua.Health.Parts.{begin_round}
use torua.System.Process.Exits.{Exits}
use torua.System.Process.{
  Process, Reach, Step, start, here, next, listens, arrives, goes_on, begins, checks, check,
  with_round, not_started, notifies, signals, stopping, awaiting, is_alive, ended, shutting,
}
use torua.System.Process.Shutdown.{IsSound, Reach-IsSound}
use torua.System.Process.Progress.{shutdown_ends, Lowers, Keeps}
use torua.Examples.Data.{get_of, passing, failing, echo}
use torua.Examples.Whole.{always_c}

abbrev pub no_env : Str → Str
no_env k = []

abbrev pub begun : Process
begun = start no_env (λ d. none)

abbrev listening : Process
listening = record begun { is_listening = true }

abbrev pub joined : Process
joined = record listening {
  machine =
      with_jobs (begin_request always_c listening.machine.server (get_of (ascii "/register"))) [];
}

-- The handler is about to read the nodes; it has done so.
one_job : joined.machine.jobs ≡ [] ++ waiting ∷ []
unfolding start begin_request begin_register new_server node_exists str_beq register_body
one_job = refl

abbrev chosen : Process
chosen = record joined { machine = with_jobs (proceed joined.machine.server waiting) [] }

-- The monitor has begun, and its first check is out.
abbrev asked : Process
asked = check (with_round chosen) passing (begin_round chosen.machine.server.nodes)

abbrev signalled : Process
signalled = record asked { main = stopping; is_cancelled = true }

chosen-is_positive : is_positive chosen.machine.server.monitor.interval ≡ true
unfolding start begin_request begin_register new_server node_exists str_beq register_body proceed
    new_health_monitor set_on_unhealthy
chosen-is_positive = refl

to_signal : Reach always_c begun signalled
unfolding start check
to_signal =
    let heard = next here (listens begun refl) in
    let came = next heard (arrives listening (get_of (ascii "/register")) refl refl) in
    let read = next came (goes_on joined [] [] waiting refl one_job) in
    let looks = next read (begins chosen refl refl chosen-is_positive) in
    let asks = next looks (checks (with_round chosen) passing _ refl refl) in
    next (next asks (notifies asked refl)) (signals (record asked { main = awaiting }) refl)

Reach-IsSound_example : IsSound signalled
Reach-IsSound_example = Reach-IsSound always_c no_env (λ d. none) to_signal

signalled-IsSound : IsSound signalled
signalled-IsSound = Reach-IsSound always_c no_env (λ d. none) to_signal

shutdown_ends_example :
    ((probe : Probe) → Exits always_c signalled)
    × ((probe : Probe) → (q : Process) × Step always_c signalled q × Lowers signalled q)
    × ((q : Process) → Step always_c signalled q → Keeps signalled q)
shutdown_ends_example = shutdown_ends always_c signalled signalled-IsSound refl refl

-- The first job goes on by one part.
go_on : Process → Process
go_on p = elim p.machine.jobs [
  | [] ↦ p
  | j ∷ js ↦ record p { machine = with_jobs (proceed p.machine.server j) js }
]

go_on-Reach :
    {u : Process} (p : Process)
    → is_alive p.main ≡ true
    → Reach always_c u p
    → Reach always_c u (go_on p) × (is_alive (go_on p).main ≡ true)
unfolding go_on
go_on-Reach {u} p a r =
    let G : List Job → Process = λ jobs. elim jobs [
      | [] ↦ p
      | j ∷ js ↦ record p { machine = with_jobs (proceed p.machine.server j) js }
    ] in
    let P : List Job → Type 0 =
      λ jobs. p.machine.jobs ≡ jobs → Reach always_c u (G jobs) × (is_alive (G jobs).main ≡ true) in
    elim p.machine.jobs as P [
      | [] ↦ λ e. (r, a)
      | j ∷ js ↦ λ e. (next r (goes_on p [] js j a e), a)
    ]
      refl

go_on_times : ℕ → Process → Process
go_on_times zero p = p
go_on_times (suc k) p = go_on (go_on_times k p)

go_on_times-Reach :
    {u : Process} (k : ℕ) (p : Process)
    → is_alive p.main ≡ true
    → Reach always_c u p
    → Reach always_c u (go_on_times k p) × (is_alive (go_on_times k p).main ≡ true)
unfolding go_on_times
go_on_times-Reach zero p a r = (r, a)
go_on_times-Reach (suc k) p a r =
    let (r', a') = go_on_times-Reach k p a r in go_on-Reach (go_on_times k p) a' r'

pub joined-Reach : Reach always_c begun joined
unfolding start
joined-Reach =
    next (next here (listens begun refl)) (arrives listening (get_of (ascii "/register")) refl refl)

-- The node has all shards.
abbrev ready : Process
ready = go_on_times 7 joined

ready-Reach : Reach always_c begun ready
unfolding start
ready-Reach = (go_on_times-Reach 7 joined refl joined-Reach).0

-- The monitor begins a round and asks a node between the two parts of a request for data.
abbrev later : Process
later = check (with_round ready) failing (begin_round ready.machine.server.nodes)

ready_lem :
    (is_alive ready.main ≡ true)
    × ((ready.monitor_phase ≡ not_started)
        × (is_positive ready.machine.server.monitor.interval ≡ true))
unfolding go_on_times go_on start begin_request begin_register new_server node_exists str_beq
    register_body proceed keep assigned_shards get_all_assignments values new_shard_registry
    contains new_health_monitor set_on_unhealthy
ready_lem = (refl, (refl, refl))

later-Reach : Reach always_c ready later
later-Reach =
    next (next here (begins ready ready_lem.0 ready_lem.1.0 ready_lem.1.1))
      (checks (with_round ready) failing _ ready_lem.0 refl)

abbrev get_k : Request
get_k = get_of (ascii "/data/k")

finds_c : begin_data ready.machine.server get_k ≡ routed (ascii "k") (ascii "c")
unfolding go_on_times go_on start begin_request begin_register new_server node_exists str_beq
    register_body proceed keep assigned_shards get_all_assignments values new_shard_registry
    contains begin_data get_shard_for_key get_node_for_key sum32 get put id_at assign_shard
    has_prefix
finds_c = refl

data_forwarded_example :
    (i : ℤ) × (a : ShardAssignment) × (k : ℕ) × (n : NodeInfo) × (i ≡ pos (sum32 (ascii "k") % 4))
    × (get_assignment ready.machine.server.registry i ≡ some a)
    × (a.node_id ≡ ascii "c")
    × (get_elem? later.machine.server.nodes k ≡ some n)
    × (n.id ≡ ascii "c")
    × ((n.addr == []) ≡ false)
    × (finish_data echo later.machine.server get_k (begin_data ready.machine.server get_k)
        ≡ proxied echo (data_url n.addr i (ascii "k")) get_k get_k.method)
data_forwarded_example =
    data_forwarded always_c no_env (λ d. none) echo get_k (ascii "k") (ascii "c") ready-Reach
      finds_c later-Reach

-- The monitor has ended, and Stop returns.
abbrev quiet : Process
quiet = record signalled { monitor_phase = ended }

abbrev closing : Process
closing = record quiet { main = shutting }
