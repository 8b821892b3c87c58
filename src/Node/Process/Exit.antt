-- ===== src/Node/Process/Exit.antt =====
-- How a node's process comes to its end, and what it holds (cmd/node/main.go).
use torua.Base.{
  ◌≡◌, refl, sym, Str, List, [], ◌∷◌, ℕ, suc, ◌+◌, ◌<◌, Option, none, some, Bool, true, false,
  arith, length, Option-cases, inl, inr,
}
use mathlib.Core.Path.{subst}
use torua.Cluster.{ClientError}
use torua.Node.Race.Many.{run_all}
use torua.Node.Race.Cells.Runs.{empty_heap, not_begun}
use torua.Node.Process.Requests.{arrived, turns, run_arrived}
use torua.Node.Startup.{read_config}
use torua.Node.Process.{
  Main, registering, registered, waiting, shutting, stopped, failed, killed, Process, start,
  after_post, Step, listens, listen_fails, arrives, goes_on, posts, gives_up, notifies, kills_early,
  kills, signals, shutdown_returns, Reach, here, next,
}

-- What the calls of PostJSON in a run return, the newest first.
pub answers : {p q : Process} → Reach p q → List (Option ClientError)
answers here = []
answers (next r (posts p left err e)) = err ∷ answers r
answers (next r _) = answers r

-- Do all the calls fail?
pub all_fail : List (Option ClientError) → Bool
all_fail [] = true
all_fail (none ∷ l) = false
all_fail (some e ∷ l) = all_fail l

-- One success, behind fewer than ten failures.
abbrev pub HasJoined : List (Option ClientError) → Type 0
HasJoined [] = ⊥
HasJoined (a ∷ l) = (a ≡ none) × (all_fail l ≡ true) × (length l < 10)

-- What `main` knows of the calls where it stands.
abbrev pub Agrees : Main → List (Option ClientError) → Type 0
Agrees (registering left) l = (length l + left ≡ 10) × (all_fail l ≡ true)
Agrees registered l = HasJoined l
Agrees waiting l = HasJoined l
Agrees shutting l = HasJoined l
Agrees stopped l = HasJoined l
Agrees failed l = Unit
Agrees killed l = Unit

posts-Agrees :
    (left : ℕ) (err : Option ClientError) (l : List (Option ClientError))
    → Agrees (registering (suc left)) l
    → Agrees (after_post left err) (err ∷ l)
unfolding all_fail
posts-Agrees left none l (n, f) = (refl, f, omega arith)
posts-Agrees left (some e) l (n, f) = (omega arith, f)

Step-Agrees :
    {p q u : Process} (r : Reach p q) (st : Step q u)
    → Agrees q.main (answers r)
    → Agrees u.main (answers (next r st))
unfolding answers
Step-Agrees r (listens p a) h = h
Step-Agrees r (listen_fails p a) h = tt
Step-Agrees r (arrives p x a l) h = h
Step-Agrees r (goes_on p k a l) h = h
Step-Agrees r (posts p left err e) h =
    posts-Agrees left err (answers r) (subst (λ m. Agrees m (answers r)) e h)
Step-Agrees r (gives_up p e) h = tt
Step-Agrees r (notifies p e) h = subst (λ m. Agrees m (answers r)) e h
Step-Agrees r (kills_early p left e) h = tt
Step-Agrees r (kills p e) h = tt
Step-Agrees r (signals p e) h = subst (λ m. Agrees m (answers r)) e h
Step-Agrees r (shutdown_returns p e) h = subst (λ m. Agrees m (answers r)) e h

run_Agrees : {p q : Process} → p.main ≡ registering 10 → (r : Reach p q) → Agrees q.main (answers r)
unfolding answers all_fail
run_Agrees e here = subst (λ m. Agrees m []) (sym e) (refl, refl)
run_Agrees e (next r st) = Step-Agrees r st (run_Agrees e r)

start_lem :
    (env : Str → Str) (p : Process)
    → start env ≡ some p
    → (p.main ≡ registering 10) × (p.heap ≡ empty_heap) × (p.calls ≡ [])
unfolding start
start_lem env p h = elim (Option-cases (read_config env)) [
  | inl e ↦ ground arith
  | inr (c, e) ↦ ground arith
]

-- Whatever requests, answers of the coordinator and signals a node's process goes through, in any
-- order, once it has read its configuration, and in whatever way the locked parts of its requests
-- mix: its heap and its requests are those of running the requests that have arrived, in the order
-- of the parts, on a new node. `main` is in `register` only while at most ten calls of PostJSON have
-- failed and none has succeeded. It comes to wait for the signal, to shut down and to the exit code 0
-- only if the last call has succeeded, behind fewer than ten that failed.
pub Reach-Agrees :
    (env : Str → Str) {p q : Process}
    → start env ≡ some p
    → (r : Reach p q)
    → ((q.heap, q.calls) ≡ run_all empty_heap (not_begun (arrived r)) (turns r))
      × Agrees q.main (answers r)
Reach-Agrees env {p} h r = let (e, f, g) = start_lem env p h in (run_arrived f g r, run_Agrees e r)
