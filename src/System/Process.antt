-- ===== src/System/Process.antt =====
-- The process of the coordinator, `main` of cmd/coordinator/main.go: its own thread, the goroutine
-- that listens, the one of the health monitor, the callbacks that it starts and the HTTP requests.
-- The handlers and the callbacks go on in their locked parts, as in Coordinator/Threads, and so does a
-- round of checks, as in Health/Parts. A request is taken only while the process lives and listens, so it may still
-- end after Shutdown has been called, which waits five seconds at most.
pub mod Handlers
pub mod Panics
pub mod Shutdown
pub mod Final
pub mod Exits
pub mod Callbacks
pub mod Progress
use torua.Coordinator.Serve.Begun.{begin_request}
use torua.Coordinator.Threads.{Machine, Job, proceed, with_jobs, waiting}
use torua.Base.{
  ◌≡◌, Str, List, [], ◌∷◌, ◌++◌, Option, none, some, Bool, true, false, not, ℕ, ascii, ℤ,
  if◌then◌else◌, ◌==◌, str_eq,
}
use torua.Health.{Probe, is_positive}
use torua.Health.Parts.{Round, begin_round, check_part}
use torua.Http.{Request}
use torua.Coordinator.{Server, on_unhealthy, new_server, mark_node_unhealthy}
use torua.Coordinator.Serve.{Outside, serve}

-- `os.Getenv` is a function that gives "" for a variable that is not set.
unfoldable pub getenv : (Str → Str) → Str → Str → Str
getenv env k def = if not (env k == []) then env k else def

-- Where `main` stands: before `signal.Notify`, at `<-stop`, in `healthMonitor.Stop()`, in
-- `httpSrv.Shutdown(ctx)`, and the ways to end: the return, `log.Fatalf`, the signal that Go's
-- runtime takes where no one is notified, and a panic that nothing recovers.
pub data Main : Type 0 where
  starting awaiting stopping shutting stopped failed killed panicked : Main

-- Before Start; in the `select` of Start; in a round; and after Start has returned.
pub data MonitorPhase : Type 0 where
  not_started selecting : MonitorPhase
  checking : Round → MonitorPhase
  ended : MonitorPhase

pub record Process : Type 0 where
  pub addr : Str
  -- the server, and what is left of its handlers and callbacks
  pub machine : Machine
  pub is_listening : Bool
  pub monitor_phase : MonitorPhase
  -- Is the monitor's own context cancelled?
  pub is_cancelled : Bool
  -- the callbacks that have been started and have not yet marked their nodes
  pub callbacks : List Str
  pub main : Main

-- The first lines of `main`.
unfoldable pub start : (Str → Str) → (Str → Option ℤ) → Process
unfolding getenv
start env parse_duration = record {
  addr = getenv env (ascii "COORDINATOR_ADDR") (ascii ":8080");
  machine = record {
    server = new_server parse_duration (env (ascii "HEALTH_CHECK_INTERVAL"));
    jobs = [];
  };
  is_listening = false;
  monitor_phase = not_started;
  is_cancelled = false;
  callbacks = [];
  main = starting;
}

pub exit_code : Main → Option ℕ
exit_code stopped = some 0
exit_code failed = some 1
exit_code panicked = some 2
exit_code _ = none

abbrev pub is_alive : Main → Bool
is_alive stopped = false
is_alive failed = false
is_alive killed = false
is_alive panicked = false
is_alive _ = true

-- Has Shutdown not been called?
abbrev pub is_open : Main → Bool
is_open starting = true
is_open awaiting = true
is_open stopping = true
is_open _ = false

-- Does `h.wg` count a Start?
abbrev pub is_running : MonitorPhase → Bool
is_running not_started = false
is_running selecting = true
is_running (checking r) = true
is_running ended = false

abbrev pub after_part : Option Round → MonitorPhase
after_part none = selecting
after_part (some r) = checking r

-- The next part of the round `r`.
unfoldable pub check : Process → Probe → Round → Process
check p probe r =
    let ((h, ids), left) = check_part p.machine.server.monitor probe r in
    record p {
      machine = with_jobs (record p.machine.server { monitor = h }, []) p.machine.jobs;
      callbacks = p.callbacks ++ ids;
      monitor_phase = after_part left;
    }

-- `h.checkAllNodes(nodeProvider())` up to its loop: the provider of `main` copies the nodes.
abbrev pub with_round : Process → Process
with_round p = record p { monitor_phase = checking (begin_round p.machine.server.nodes) }

pub data Step (o : Outside) : Process → Process → Type 0 where
  listens : (p : Process) → is_open p.main ≡ true → Step o p (record p { is_listening = true })
  listen_fails : (p : Process) → is_open p.main ≡ true → Step o p (record p { main = failed })
  arrives :
      (p : Process) (r : Request)
      → is_alive p.main ≡ true
      → p.is_listening ≡ true
      → Step o p
          (record p { machine = with_jobs (begin_request o p.machine.server r) p.machine.jobs })
  goes_on :
      (p : Process) (before after : List Job) (j : Job)
      → is_alive p.main ≡ true
      → p.machine.jobs ≡ before ++ j ∷ after
      → Step o p (record p { machine = with_jobs (proceed p.machine.server j) (before ++ after) })
  begins :
      (p : Process)
      → is_alive p.main ≡ true
      → p.monitor_phase ≡ not_started
      → is_positive p.machine.server.monitor.interval ≡ true
      → Step o p (with_round p)
  -- `time.NewTicker` panics for an interval that is not positive.
  ticker_panics :
      (p : Process)
      → is_alive p.main ≡ true
      → p.monitor_phase ≡ not_started
      → is_positive p.machine.server.monitor.interval ≡ false
      → Step o p (record p { main = panicked })
  -- The select may take a tick that is there although the context is done.
  ticks :
      (p : Process) → is_alive p.main ≡ true → p.monitor_phase ≡ selecting → Step o p (with_round p)
  checks :
      (p : Process) (probe : Probe) (r : Round)
      → is_alive p.main ≡ true
      → p.monitor_phase ≡ checking r
      → Step o p (check p probe r)
  monitor_ends :
      (p : Process)
      → is_alive p.main ≡ true
      → p.monitor_phase ≡ selecting
      → p.is_cancelled ≡ true
      → Step o p (record p { monitor_phase = ended })
  calls_back :
      (p : Process) (before after : List Str) (id : Str)
      → is_alive p.main ≡ true
      → p.callbacks ≡ before ++ id ∷ after
      → Step o p (record p {
        machine = with_jobs (mark_node_unhealthy p.machine.server id, waiting ∷ []) p.machine.jobs;
        callbacks = before ++ after;
      })
  notifies : (p : Process) → p.main ≡ starting → Step o p (record p { main = awaiting })
  kills : (p : Process) → p.main ≡ starting → Step o p (record p { main = killed })
  -- `<-stop`, and `h.cancel()` in Stop
  signals :
      (p : Process)
      → p.main ≡ awaiting
      → Step o p (record p { main = stopping; is_cancelled = true })
  -- `h.wg.Wait()` waits for a Start that has begun.
  stop_returns :
      (p : Process)
      → p.main ≡ stopping
      → is_running p.monitor_phase ≡ false
      → Step o p (record p { main = shutting })
  -- with an error after five seconds, or with none
  shutdown_returns : (p : Process) → p.main ≡ shutting → Step o p (record p { main = stopped })

pub data Reach (o : Outside) (p : Process) : Process → Type 0 where
  here : Reach o p p
  next : {q u : Process} → Reach o p q → Step o q u → Reach o p u
