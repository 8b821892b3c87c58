-- ===== src/System/Process/Panics.antt =====
-- A coordinator whose check interval is not positive (`newServer` and `main` of
-- cmd/coordinator/main.go, Start of internal/coordinator/health_monitor.go).
use torua.Base.{
  ◌≡◌, refl, sym, ap, ◌∙◌, Str, List, [], ◌∷◌, ◌++◌, Option, some, true, false, ℤ, ascii, ◌==◌,
  str_eq,
}
use torua.Health.{HealthMonitor, is_positive, new_health_monitor, set_on_unhealthy}
use torua.Coordinator.{new_server, mark_node_unhealthy}
use torua.Coordinator.Serve.{Outside}
use torua.Coordinator.Serve.Begun.{begin_request-Reach}
use torua.System.Process.Final.{monitor-proceed}
use torua.System.Process.{
  Process, start, exit_code, is_alive, not_started, Step, listens, listen_fails, arrives, goes_on,
  begins, ticker_panics, ticks, checks, monitor_ends, calls_back, notifies, kills, signals,
  stop_returns, shutdown_returns, Reach, here, next,
}

-- The monitor is as it was made.
record IsIdle (h : HealthMonitor) (p : Process) : Type 0 where
  phase : p.monitor_phase ≡ not_started
  monitor : p.machine.server.monitor ≡ h
  callbacks : p.callbacks ≡ []

no_callback : (xs ys : List Str) (id : Str) → xs ++ id ∷ ys ≡ [] → ⊥
no_callback [] ys id e = cc e
no_callback (x ∷ xs) ys id e = cc e

module _ (o : Outside) (h : HealthMonitor) (zero_or_less : is_positive h.interval ≡ false) where
  Step-IsIdle : {p q : Process} → Step o p q → IsIdle h p → IsIdle h q
  unfolding mark_node_unhealthy
  Step-IsIdle (listens p a) k = record {
    phase = k.phase;
    monitor = k.monitor;
    callbacks = k.callbacks;
  }
  Step-IsIdle (listen_fails p a) k = record {
    phase = k.phase;
    monitor = k.monitor;
    callbacks = k.callbacks;
  }
  Step-IsIdle (arrives p r a l) k = record {
    phase = k.phase;
    monitor = (begin_request-Reach o p.machine r).1 ∙ k.monitor;
    callbacks = k.callbacks;
  }
  Step-IsIdle (goes_on p xs ys j a e) k = record {
    phase = k.phase;
    monitor = monitor-proceed p.machine.server j ∙ k.monitor;
    callbacks = k.callbacks;
  }
  Step-IsIdle (begins p a e i) k =
      absurd (cc (i, zero_or_less, ap (λ (m : HealthMonitor). is_positive m.interval) k.monitor))
  Step-IsIdle (ticker_panics p a e i) k = record {
    phase = k.phase;
    monitor = k.monitor;
    callbacks = k.callbacks;
  }
  Step-IsIdle (ticks p a e) k = absurd (cc (e, k.phase))
  Step-IsIdle (checks p probe r a e) k = absurd (cc (e, k.phase))
  Step-IsIdle (monitor_ends p a e c) k = absurd (cc (e, k.phase))
  Step-IsIdle (calls_back p xs ys id a e) k = absurd (no_callback xs ys id (sym e ∙ k.callbacks))
  Step-IsIdle (notifies p e) k = record {
    phase = k.phase;
    monitor = k.monitor;
    callbacks = k.callbacks;
  }
  Step-IsIdle (kills p e) k = record {
    phase = k.phase;
    monitor = k.monitor;
    callbacks = k.callbacks;
  }
  Step-IsIdle (signals p e) k = record {
    phase = k.phase;
    monitor = k.monitor;
    callbacks = k.callbacks;
  }
  Step-IsIdle (stop_returns p e d) k = record {
    phase = k.phase;
    monitor = k.monitor;
    callbacks = k.callbacks;
  }
  Step-IsIdle (shutdown_returns p e) k = record {
    phase = k.phase;
    monitor = k.monitor;
    callbacks = k.callbacks;
  }

  Reach-IsIdle : {p q : Process} → Reach o p q → IsIdle h p → IsIdle h q
  Reach-IsIdle here k = k
  Reach-IsIdle (next r st) k = Step-IsIdle st (Reach-IsIdle r k)

module _ (o : Outside) where
  -- HEALTH_CHECK_INTERVAL may be set to a duration that is parsed and not positive, like "0s". Then,
  -- whatever the coordinator's process goes through, no node is ever checked and no callback started,
  -- and as long as the process lives the ticker's panic is possible, which ends it with exit code 2.
  pub ticker_crashes :
      (env : Str → Str) (parse : Str → Option ℤ) (d : ℤ) {p : Process}
      → (env (ascii "HEALTH_CHECK_INTERVAL") == []) ≡ false
      → parse (env (ascii "HEALTH_CHECK_INTERVAL")) ≡ some d
      → is_positive d ≡ false
      → Reach o (start env parse) p
      → (p.machine.server.monitor.nodes ≡ [])
        × (p.callbacks ≡ [])
        × (is_alive p.main ≡ true → (q : Process) × Step o p q × (exit_code q.main ≡ some 2))
  unfolding start new_server new_health_monitor set_on_unhealthy exit_code
  ticker_crashes env parse d {p} given parsed low r =
      let h = (start env parse).machine.server.monitor in
      let interval : h.interval ≡ d = rw (given, parsed) refl in
      let k =
        Reach-IsIdle o h (ap is_positive interval ∙ low) r
          (record { phase = refl; monitor = refl; callbacks = refl }) in
      (
        ap (λ (m : HealthMonitor). m.nodes) k.monitor,
        k.callbacks,
        (λ a. (
          _,
          ticker_panics p a k.phase (
              ap (λ (m : HealthMonitor). is_positive m.interval) k.monitor
              ∙ ap is_positive interval
              ∙ low),
          refl,
        )),
      )
