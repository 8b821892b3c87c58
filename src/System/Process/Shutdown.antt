-- ===== src/System/Process/Shutdown.antt =====
-- How the coordinator's process ends (`main` of cmd/coordinator/main.go, Stop of
-- internal/coordinator/health_monitor.go).
use mathlib.Core.Path.{subst}
use torua.Coordinator.Threads
use torua.Health.Parts.{Round, check_part, IsAsked, check_part-IsAsked}
use torua.System.Process.Final.{monitor-proceed}
use torua.Base.{sym, ◌≡◌, refl, ◌∙◌, Str, Option, none, some, Bool, true, false, str_eq, ℤ, ap}
use torua.Coordinator.Steps.{new_server-IsValid}
use torua.Coordinator.Threads.{go, mark}
use torua.Coordinator.Threads.Safety.{IsSafe, Step-IsSafe, Reach-IsSafe_from}
use torua.Coordinator.Serve.Begun.{begin_request-Reach}
use torua.Coordinator.Serve.{Outside}
use torua.Coordinator.{mark_node_unhealthy}
use torua.System.Process.{
  Process, Main, starting, awaiting, stopping, shutting, stopped, failed, killed, panicked, start,
  check, after_part, MonitorPhase, checking, ended, Step, listens, listen_fails, arrives, goes_on,
  begins, ticker_panics, ticks, checks, monitor_ends, calls_back, notifies, kills, signals,
  stop_returns, shutdown_returns, Reach, here, next,
}

-- Does the monitor's context stand as `main` leaves it? Only Stop cancels it, before Shutdown.
abbrev pub has_stopped : Main → Option Bool
has_stopped starting = some false
has_stopped awaiting = some false
has_stopped stopping = some true
has_stopped shutting = some true
has_stopped stopped = some true
has_stopped failed = none
has_stopped killed = some false
has_stopped panicked = none

abbrev pub left_over : MonitorPhase → Option Round
left_over (checking r) = some r
left_over _ = none

pub record IsSound (p : Process) : Type 0 where
  pub safe : IsSafe p.machine
  pub cancels : (b : Bool) → has_stopped p.main ≡ some b → p.is_cancelled ≡ b
  pub monitors : p.monitor_phase ≡ ended → p.is_cancelled ≡ true
  pub asks : IsAsked p.machine.server.monitor (left_over p.monitor_phase)

after_part-ended : (left : Option Round) → after_part left ≡ ended → ⊥
after_part-ended none e = cc
after_part-ended (some r) e = cc

left_over-after_part : (left : Option Round) → left_over (after_part left) ≡ left
left_over-after_part none = refl
left_over-after_part (some r) = refl

module _ (o : Outside) where
  Step-IsSound : {p q : Process} → Step o p q → IsSound p → IsSound q
  unfolding check mark_node_unhealthy
  Step-IsSound (listens p a) s = record {
    safe = s.safe;
    cancels = s.cancels;
    monitors = s.monitors;
    asks = s.asks;
  }
  Step-IsSound (listen_fails p a) s = record {
    safe = s.safe;
    cancels = λ b h. cc;
    monitors = s.monitors;
    asks = s.asks;
  }
  Step-IsSound (arrives p r a l) s = record {
    safe = Reach-IsSafe_from s.safe (begin_request-Reach o p.machine r).0;
    cancels = s.cancels;
    monitors = s.monitors;
    asks =
        subst (λ h. IsAsked h (left_over p.monitor_phase))
          (sym (begin_request-Reach o p.machine r).1) s.asks;
  }
  Step-IsSound (goes_on p xs ys j a e) s = record {
    safe = Step-IsSafe (go p.machine xs ys j e) s.safe;
    cancels = s.cancels;
    monitors = s.monitors;
    asks =
        subst (λ h. IsAsked h (left_over p.monitor_phase))
          (sym (monitor-proceed p.machine.server j)) s.asks;
  }
  Step-IsSound (begins p a e i) s = record {
    safe = s.safe;
    cancels = s.cancels;
    monitors = λ h. cc;
    asks = tt;
  }
  Step-IsSound (ticker_panics p a e i) s = record {
    safe = s.safe;
    cancels = λ b h. cc;
    monitors = s.monitors;
    asks = s.asks;
  }
  Step-IsSound (ticks p a e) s = record {
    safe = s.safe;
    cancels = s.cancels;
    monitors = λ h. cc;
    asks = tt;
  }
  Step-IsSound (checks p probe r a e) s = record {
    safe = Step-IsSafe (Threads.check p.machine _) s.safe;
    cancels = s.cancels;
    monitors = λ h. elim (after_part-ended (check_part p.machine.server.monitor probe r).1 h) [ ];
    asks =
        subst (IsAsked (check_part p.machine.server.monitor probe r).0.0)
          (sym (left_over-after_part (check_part p.machine.server.monitor probe r).1))
          (check_part-IsAsked p.machine.server.monitor probe r);
  }
  Step-IsSound (monitor_ends p a e c) s = record {
    safe = s.safe;
    cancels = s.cancels;
    monitors = λ h. c;
    asks = tt;
  }
  Step-IsSound (calls_back p xs ys id a e) s = record {
    safe = Step-IsSafe (mark p.machine id) s.safe;
    cancels = s.cancels;
    monitors = s.monitors;
    asks = s.asks;
  }
  Step-IsSound (notifies p e) s = record {
    safe = s.safe;
    cancels = λ b h. s.cancels b (ap has_stopped e ∙ h);
    monitors = s.monitors;
    asks = s.asks;
  }
  Step-IsSound (kills p e) s = record {
    safe = s.safe;
    cancels = λ b h. s.cancels b (ap has_stopped e ∙ h);
    monitors = s.monitors;
    asks = s.asks;
  }
  Step-IsSound (signals p e) s = record {
    safe = s.safe;
    cancels = λ b h. cc;
    monitors = λ h. refl;
    asks = s.asks;
  }
  Step-IsSound (stop_returns p e d) s = record {
    safe = s.safe;
    cancels = λ b h. s.cancels b (ap has_stopped e ∙ h);
    monitors = s.monitors;
    asks = s.asks;
  }
  Step-IsSound (shutdown_returns p e) s = record {
    safe = s.safe;
    cancels = λ b h. s.cancels b (ap has_stopped e ∙ h);
    monitors = s.monitors;
    asks = s.asks;
  }

  -- Whatever requests, rounds of checks, callbacks and signals a coordinator's process goes
  -- through, and in whatever way the locked parts of its handlers, callbacks and rounds mix: its
  -- server keeps the invariant. The monitor's context is cancelled once the process has taken a
  -- signal behind signal.Notify, so whenever its exit code is 0, and not before, so as long as
  -- `main` waits for the signal the monitor has not ended. While a node is asked, the monitor has a
  -- record of it.
  pub Reach-IsSound :
      (env : Str → Str) (parse : Str → Option ℤ) {p : Process}
      → Reach o (start env parse) p
      → IsSound p
  unfolding start
  Reach-IsSound env parse here = record {
    safe = record { valid = new_server-IsValid parse _; sound = tt };
    cancels = λ b h. cc;
    monitors = λ h. cc;
    asks = tt;
  }
  Reach-IsSound env parse (next r st) = Step-IsSound st (Reach-IsSound env parse r)
