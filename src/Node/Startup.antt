-- ===== src/Node/Startup.antt =====
-- The start of a node, cmd/node/main.go: its configuration, and the loop that registers it. The
-- environment is a function that gives "" for a variable that is not set. A call of PostJSON is a
-- function on the state of the world around the node; `log.Fatalf` ends the program.
pub mod Retry
use torua.Base.{
  ℕ, zero, suc, ◌+◌, ◌≡◌, refl, Str, [], Option, none, some, ascii, not, if◌then◌else◌, ◌==◌,
  str_eq, str_beq, ◌++◌,
}
use torua.Cluster.{NodeInfo, RegisterRequest, ClientError}
use torua.Node.{Node, new_node}

unfoldable pub getenv : (Str → Str) → Str → Str → Str
getenv env k def = if not (env k == []) then env k else def

-- `none` is the end of the program, with "missing env".
unfoldable pub must_getenv : (Str → Str) → Str → Option Str
must_getenv env k = if not (env k == []) then some (env k) else none

pub record Config : Type 0 where
  pub node_id : Str
  pub listen : Str
  pub public : Str
  pub coord : Str

-- The first lines of `main`.
unfoldable pub read_config : (Str → Str) → Option Config
unfolding getenv must_getenv
read_config env = elim (must_getenv env (ascii "NODE_ID")) [
  | none ↦ none
  | some node_id ↦ elim (must_getenv env (ascii "COORDINATOR_ADDR")) [
    | none ↦ none
    | some coord ↦ some (record {
      node_id = node_id;
      listen = getenv env (ascii "NODE_LISTEN") (ascii ":8081");
      public = getenv env (ascii "NODE_ADDR") (ascii "http://127.0.0.1:8081");
      coord = coord;
    })
  ]
]

-- How `register` ends: it returns, or the program does, with the last error.
pub data Outcome : Type 0 where
  joined : Outcome
  gave_up : Option ClientError → Outcome

pub record Registration (W : Type 0) : Type 0 where
  pub world : W
  pub outcome : Outcome
  pub attempts : ℕ
  -- milliseconds
  pub slept : ℕ

-- `body`
unfoldable pub register_body : Str → Str → RegisterRequest
register_body id addr = record {
  node = record { last_health_check = 0; id = id; addr = addr; status = [] };
}

unfoldable pub register_url : Str → Str
register_url coord = coord ++ ascii "/register"

module _ {W : Type 0} (post : W → W × Option ClientError) where
  -- The loop, with the rounds that are left.
  unfoldable pub register_from : ℕ → W → Option ClientError → ℕ → ℕ → Registration W
  register_from zero w last_err attempts slept = record {
    world = w;
    outcome = gave_up last_err;
    attempts = attempts;
    slept = slept;
  }
  register_from (suc left) w last_err attempts slept =
      let (w', err) = post w in
      elim err [
        | none ↦ record { world = w'; outcome = joined; attempts = attempts + 1; slept = slept }
        | some e ↦ register_from left w' (some e) (attempts + 1) (slept + 400)
      ]

  -- `register`
  unfoldable pub register : W → Registration W
  unfolding register_from
  register w = register_from 10 w none 0 0
