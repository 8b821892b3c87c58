-- ===== src/Node/Serve.antt =====
-- The routes that `main` of cmd/node/main.go registers.
pub mod Begun
use torua.Base.{Str, List, [], ◌∷◌, ascii, if◌then◌else◌, ◌==◌, str_eq}
use torua.Http.{Request}
use torua.Mux.{Matched, to_pattern, redirect, no_pattern, find_handler}
use torua.Node.{Node, NodeReply, plain, handle_control, handle_shard_request, handle_node_info}

abbrev pub node_patterns : List Str
node_patterns = ascii "/health" ∷ ascii "/control" ∷ ascii "/shard/" ∷ ascii "/info" ∷ []

dispatch : Node → Request → Str → Node × NodeReply
dispatch n r pattern =
    if pattern == ascii "/health"
    then (n, plain 200 [])
    else if pattern == ascii "/control"
    then (n, handle_control r.body)
    else if pattern == ascii "/shard/"
    then handle_shard_request n r
    else (n, handle_node_info n)

unfoldable pub answer : Node → Request → Matched → Node × NodeReply
unfolding dispatch
answer n r redirect = (n, plain 301 [])
answer n r no_pattern = (n, plain 404 (ascii "404 page not found"))
answer n r (to_pattern p) = dispatch n r p

unfoldable pub serve : Node → Request → Node × NodeReply
unfolding answer find_handler
serve n r = answer n r (find_handler node_patterns r.path)
