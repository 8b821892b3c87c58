-- ===== src/System/Process/Callbacks.antt =====
-- When the coordinator's process calls back for a node (cmd/coordinator/main.go and checkNode of
-- internal/coordinator/health_monitor.go).
use torua.System.Monitor.Rounds.{contains-append_ids}
use mathlib.Core.Path.{subst}
use torua.Base.{
  ℕ, ◌≡◌, refl, ◌∙◌, ap, sym, Str, List, ◌∷◌, ◌++◌, Option, Bool, true, false, ◌||◌, ℤ, leb,
  contains, get, str_eq, arith, ==_refl,
}
use torua.Health.{HealthMonitor, Probe, new_health_monitor, set_on_unhealthy}
use torua.Health.Parts.{Round, check_part}
use torua.Health.Counted.{failures_after, IsCounted, check_part-IsStruck}
use torua.Coordinator.{mark_node_unhealthy, new_server}
use torua.Coordinator.Serve.{Outside}
use torua.Coordinator.Serve.Begun.{begin_request-Reach}
use torua.System.Process.{
  Process, check, start, Step, listens, listen_fails, arrives, goes_on, begins, ticker_panics,
  ticks, checks, monitor_ends, calls_back, notifies, kills, signals, stop_returns, shutdown_returns,
  Reach, here, next, is_alive, checking,
}
use torua.System.Process.Final.{monitor-proceed}

contains-middle :
    (xs ys : List Str) (id j : Str)
    → contains (xs ++ ys) j ≡ true
    → contains (xs ++ id ∷ ys) j ≡ true
unfolding contains
contains-middle xs ys id j h =
    ground (arith, contains-append_ids xs ys j, contains-append_ids xs (id ∷ ys) j, h)

contains-here : (xs ys : List Str) (id : Str) → contains (xs ++ id ∷ ys) id ≡ true
unfolding contains
contains-here xs ys id = ground (arith, contains-append_ids xs (id ∷ ys) id, ==_refl id)

module _ (o : Outside) where
  -- How many checks of each node have failed since the last that succeeded, behind a step.
  step_failures : {p q : Process} → Step o p q → (Str → ℕ) → Str → ℕ
  step_failures (checks p probe r a e) f = failures_after probe r f
  step_failures (listens p a) f = f
  step_failures (listen_fails p a) f = f
  step_failures (arrives p r a l) f = f
  step_failures (goes_on p xs ys j a e) f = f
  step_failures (begins p a e i) f = f
  step_failures (ticker_panics p a e i) f = f
  step_failures (ticks p a e) f = f
  step_failures (monitor_ends p a e c) f = f
  step_failures (calls_back p xs ys id a e) f = f
  step_failures (notifies p e) f = f
  step_failures (kills p e) f = f
  step_failures (signals p e) f = f
  step_failures (stop_returns p e d) f = f
  step_failures (shutdown_returns p e) f = f

  pub run_failures : {p q : Process} → Reach o p q → Str → ℕ
  run_failures here = λ k. 0
  run_failures (next r st) = step_failures st (run_failures r)

  -- Had, at some time of the run, so many checks of the node in a row failed?
  pub had_failed : {p q : Process} → ℕ → Str → Reach o p q → Bool
  had_failed limit k here = false
  had_failed limit k (next r st) = leb limit (run_failures (next r st) k) || had_failed limit k r

  record IsKeptBy {p q : Process} (r : Reach o p q) : Type 0 where
    counted : IsCounted q.machine.server.monitor (run_failures r)
    limit : q.machine.server.monitor.max_failures ≡ 3
    calls : (k : Str) → contains q.callbacks k ≡ true → had_failed 3 k r ≡ true

  -- A step that checks no node.
  others_keep :
      {p q u : Process} (r : Reach o p q) (st : Step o q u)
      → IsKeptBy r
      → step_failures st (run_failures r) ≡ run_failures r
      → u.machine.server.monitor ≡ q.machine.server.monitor
      → ((k : Str) → contains u.callbacks k ≡ true → contains q.callbacks k ≡ true)
      → IsKeptBy (next r st)
  unfolding run_failures had_failed
  others_keep {q = q} r st k same monitor fewer = record {
    counted =
        subst (λ (h : HealthMonitor). IsCounted h (step_failures st (run_failures r))) (sym monitor)
          (subst (IsCounted q.machine.server.monitor) (sym same) k.counted);
    limit = ap (λ (h : HealthMonitor). h.max_failures) monitor ∙ k.limit;
    calls = λ id e. ground (arith, k.calls id (fewer id e));
  }

  check_keeps :
      {s p : Process} (r : Reach o s p) (probe : Probe) (round : Round) (a : is_alive p.main ≡ true)
      (e : p.monitor_phase ≡ checking round)
      → IsKeptBy r
      → IsKeptBy (next r (checks p probe round a e))
  unfolding check run_failures step_failures had_failed
  check_keeps {s} {p} r probe round a e k =
      let part =
        check_part-IsStruck p.machine.server.monitor probe round (run_failures r) k.counted in
      record {
        counted = part.counted;
        limit = part.limit ∙ k.limit;
        calls = λ id e. ground (
          arith,
          e,
          contains-append_ids p.callbacks (check_part p.machine.server.monitor probe round).0.1 id,
          k.calls id,
          part.struck id,
          k.limit,
        );
      }

  Step-IsKeptBy :
      {s p q : Process} (r : Reach o s p) (st : Step o p q) → IsKeptBy r → IsKeptBy (next r st)
  unfolding step_failures mark_node_unhealthy
  Step-IsKeptBy r (listens p a) k = others_keep r (listens p a) k refl refl (λ id e. e)
  Step-IsKeptBy r (listen_fails p a) k = others_keep r (listen_fails p a) k refl refl (λ id e. e)
  Step-IsKeptBy r (arrives p x a l) k =
      others_keep r (arrives p x a l) k refl (begin_request-Reach o p.machine x).1 (λ id e. e)
  Step-IsKeptBy r (goes_on p xs ys j a e) k =
      others_keep r (goes_on p xs ys j a e) k refl (monitor-proceed p.machine.server j) (λ id e. e)
  Step-IsKeptBy r (begins p a e i) k = others_keep r (begins p a e i) k refl refl (λ id e. e)
  Step-IsKeptBy r (ticker_panics p a e i) k =
      others_keep r (ticker_panics p a e i) k refl refl (λ id e. e)
  Step-IsKeptBy r (ticks p a e) k = others_keep r (ticks p a e) k refl refl (λ id e. e)
  Step-IsKeptBy r (checks p probe round a e) k = check_keeps r probe round a e k
  Step-IsKeptBy r (monitor_ends p a e c) k =
      others_keep r (monitor_ends p a e c) k refl refl (λ id e. e)
  Step-IsKeptBy r (calls_back p xs ys id a e) k =
      others_keep r (calls_back p xs ys id a e) k refl refl
        (λ j h. rw e (contains-middle xs ys id j h))
  Step-IsKeptBy r (notifies p e) k = others_keep r (notifies p e) k refl refl (λ id e. e)
  Step-IsKeptBy r (kills p e) k = others_keep r (kills p e) k refl refl (λ id e. e)
  Step-IsKeptBy r (signals p e) k = others_keep r (signals p e) k refl refl (λ id e. e)
  Step-IsKeptBy r (stop_returns p e d) k =
      others_keep r (stop_returns p e d) k refl refl (λ id e. e)
  Step-IsKeptBy r (shutdown_returns p e) k =
      others_keep r (shutdown_returns p e) k refl refl (λ id e. e)

  Reach-IsKeptBy :
      (env : Str → Str) (parse : Str → Option ℤ) {p : Process} (r : Reach o (start env parse) p)
      → IsKeptBy r
  unfolding start new_server new_health_monitor set_on_unhealthy get contains
  Reach-IsKeptBy env parse here = record { counted = λ k n e. cc; limit = refl; calls = λ k e. cc }
  Reach-IsKeptBy env parse (next r st) = Step-IsKeptBy r st (Reach-IsKeptBy env parse r)

  -- Whatever a coordinator's process goes through, and in whatever way the parts of its rounds mix
  -- with its handlers, callbacks and signals: a callback that has been started and not yet run is for
  -- a node of which, at some time of the run, the last three checks had failed, none of them having
  -- succeeded in between.
  pub callback_after_failures :
      (env : Str → Str) (parse : Str → Option ℤ) {p : Process} (r : Reach o (start env parse) p)
      (before after : List Str) (id : Str)
      → p.callbacks ≡ before ++ id ∷ after
      → had_failed 3 id r ≡ true
  callback_after_failures env parse r before after id e =
      (Reach-IsKeptBy env parse r).calls id (rw e (contains-here before after id))
