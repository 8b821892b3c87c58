-- ===== src/Node/Process.antt =====
-- The process of a node, `main` and `register` of cmd/node/main.go: its own thread, the goroutine
-- that listens, and the HTTP requests, which the node serves as soon as it listens, registered or
-- not. A request for a shard goes on in its locked parts, as in Node/Race; the others change nothing.
-- A call of PostJSON in `register` is one step.
pub mod Requests
pub mod Exit
use torua.Base.{
  List, [], ◌++◌, ◌<◌, length, ◌≡◌, Str, ℕ, suc, zero, Option, none, some, Bool, true, false,
}
use torua.Cluster.{ClientError}
use torua.Http.{Request}
use torua.Node.Race.{Heap, Call, Phase}
use torua.Node.Race.Many.{advance_at}
use torua.Node.Race.Cells.Runs.{empty_heap, not_begun}
use torua.Node.Serve.Begun.{begin_call}
use torua.Node.Startup.{Config, read_config}

-- Where `main` stands: in `register`, with so many rounds of its loop left; before `signal.Notify`;
-- at `<-stop`; in `s.Shutdown(ctx)`; and the ways to end: the return, `log.Fatalf`, and the signal
-- that Go's runtime takes where no one is notified.
pub data Main : Type 0 where
  registering : ℕ → Main
  registered waiting shutting stopped failed killed : Main

pub record Process : Type 0 where
  pub config : Config
  -- the node's map and the shards, and the requests for shards that have arrived
  pub heap : Heap
  pub calls : List (Call × Phase)
  pub is_listening : Bool
  pub main : Main

-- `main` up to the goroutine; `none` is the end of the program, with "missing env".
unfoldable pub start : (Str → Str) → Option Process
start env = elim (read_config env) [
  | none ↦ none
  | some config ↦ some (record {
    config = config;
    heap = empty_heap;
    calls = [];
    is_listening = false;
    main = registering 10;
  })
]

pub exit_code : Main → Option ℕ
exit_code stopped = some 0
exit_code failed = some 1
exit_code _ = none

abbrev pub is_alive : Main → Bool
is_alive stopped = false
is_alive failed = false
is_alive killed = false
is_alive _ = true

-- Has Shutdown not been called?
abbrev pub is_open : Main → Bool
is_open shutting = false
is_open m = is_alive m

-- Behind a call of PostJSON, with the rounds that are left.
abbrev pub after_post : ℕ → Option ClientError → Main
after_post left none = registered
after_post left (some e) = registering left

pub data Step : Process → Process → Type 0 where
  listens : (p : Process) → is_open p.main ≡ true → Step p (record p { is_listening = true })
  listen_fails : (p : Process) → is_open p.main ≡ true → Step p (record p { main = failed })
  arrives :
      (p : Process) (r : Request)
      → is_alive p.main ≡ true
      → p.is_listening ≡ true
      → Step p (record p { calls = p.calls ++ not_begun (begin_call r) })
  goes_on :
      (p : Process) (k : ℕ)
      → is_alive p.main ≡ true
      → k < length p.calls
      → Step p (record p {
        heap = (advance_at p.heap p.calls k).0;
        calls = (advance_at p.heap p.calls k).1;
      })
  posts :
      (p : Process) (left : ℕ) (err : Option ClientError)
      → p.main ≡ registering (suc left)
      → Step p (record p { main = after_post left err })
  gives_up : (p : Process) → p.main ≡ registering zero → Step p (record p { main = failed })
  notifies : (p : Process) → p.main ≡ registered → Step p (record p { main = waiting })
  kills_early :
      (p : Process) (left : ℕ) → p.main ≡ registering left → Step p (record p { main = killed })
  kills : (p : Process) → p.main ≡ registered → Step p (record p { main = killed })
  signals : (p : Process) → p.main ≡ waiting → Step p (record p { main = shutting })
  shutdown_returns : (p : Process) → p.main ≡ shutting → Step p (record p { main = stopped })

pub data Reach (p : Process) : Process → Type 0 where
  here : Reach p p
  next : {q u : Process} → Reach p q → Step q u → Reach p u
