-- ===== src/Node/Serve/Begun.antt =====
-- Requests to a node up to the first part of `handleShardRequest` that reads its state
-- (cmd/node/main.go). The other handlers change nothing.
use torua.Base.{
  Str, List, [], ◌∷◌, Option, none, some, ascii, index_byte, atoi, take, drop, suc, trim_prefix,
  if◌then◌else◌, ◌==◌, str_eq,
}
use torua.Http.{Request, Method}
use torua.Mux.{Matched, to_pattern, redirect, no_pattern, find_handler}
use torua.Node.Serve.{node_patterns}
use torua.Node.Race.{Call}

-- The path behind "/shard/".
unfoldable pub begin_shard_path : Str → Method → Option Str → List Call
begin_shard_path path method body = elim (index_byte path b'/') [
  | none ↦ []
  | some slash ↦ elim (atoi (take slash path)) [
    | none ↦ []
    | some id ↦ record { id = id; path = drop (suc slash) path; method = method; body = body } ∷ []
  ]
]

unfoldable pub begin_answer : Request → Matched → List Call
begin_answer r redirect = []
begin_answer r no_pattern = []
begin_answer r (to_pattern p) =
    if p == ascii "/shard/"
    then begin_shard_path (trim_prefix r.path (ascii "/shard/")) r.method r.body
    else []

unfoldable pub begin_call : Request → List Call
unfolding begin_answer begin_shard_path find_handler
begin_call r = begin_answer r (find_handler node_patterns r.path)
