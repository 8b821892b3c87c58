-- ===== src/Coordinator/Serve/Requests.antt =====
-- Sequences of HTTP requests to the coordinator (cmd/coordinator/main.go).
use torua.Base.{Str, List, [], ◌∷◌, ascii, ◌==◌, str_eq, either_branch}
use torua.Http.{Request}
use torua.Mux.{to_pattern, redirect, no_pattern}
use torua.Coordinator.{Server}
use torua.Coordinator.Invariant.{IsValid}
use torua.Coordinator.Redistribution.{IsCovered, Reach-IsCovered}
use torua.Coordinator.Steps.{Reach, here, next, register, assign}
use torua.Coordinator.Serve.{
  Outside, dispatch, answer, serve, serve_all, find_handler, ServerReply, server_patterns,
}

-- A request is no step, a registration or a manual assignment.
dispatch-Reach : (o : Outside) (s : Server) (r : Request) (p : Str) → Reach s (dispatch o s r p).0
unfolding dispatch
dispatch-Reach o s r p =
    let P : Server × ServerReply → Type 0 = λ x. Reach s x.0 in
    either_branch P (p == ascii "/register") (next here (register s (o.decode_register r.body))) (
      either_branch P (p == ascii "/nodes") here (
        either_branch P (p == ascii "/broadcast") here (
          either_branch P (p == ascii "/health") here (
            either_branch P (p == ascii "/data/") here (
              either_branch P (p == ascii "/shards") here
                (next here (assign s r.method (o.decode_assign r.body))))))))

pub serve-Reach : (o : Outside) (s : Server) (r : Request) → Reach s (serve o s r).0
unfolding serve answer
serve-Reach o s r =
    elim (find_handler server_patterns r.path) as (λ m. Reach s (answer o s r m).0) [
      | redirect ↦ here
      | no_pattern ↦ here
      | to_pattern p ↦ dispatch-Reach o s r p
    ]

-- No sequence of HTTP requests, whatever their paths, methods and bodies, breaks the coordinator's
-- invariant or leaves a shard without an assignment once every shard has one.
pub serve_all-IsCovered :
    (o : Outside) (s : Server) (rs : List Request)
    → IsValid s
    → IsCovered s.registry
    → IsValid (serve_all o s rs) × IsCovered (serve_all o s rs).registry
unfolding serve_all
serve_all-IsCovered o s [] v c = (v, c)
serve_all-IsCovered o s (r ∷ rs) v c =
    let (v', c') = Reach-IsCovered v c (serve-Reach o s r) in
    serve_all-IsCovered o (serve o s r).0 rs v' c'
