-- ===== src/System/Process/Progress.antt =====
-- The steps that the coordinator's process has left behind its signal (cmd/coordinator/main.go).
use torua.Base.{Option, none, ◌≡◌, refl, ◌+◌, ◌<◌, ◌≤◌, ℕ, true, ap, arith, some}
use torua.Health.{Probe}
use torua.Health.Parts.{Round, check_part}
use torua.Coordinator.Serve.{Outside}
use torua.System.Process.{
  Process, Main, starting, awaiting, stopping, shutting, stopped, failed, killed, panicked,
  is_alive, check, MonitorPhase, not_started, selecting, checking, ended, after_part, Step, listens,
  listen_fails, arrives, goes_on, begins, ticker_panics, ticks, checks, monitor_ends, calls_back,
  notifies, kills, signals, stop_returns, shutdown_returns,
}
use torua.System.Process.Exits.{round_left, round_left-check_part, exits, Exits}
use torua.System.Process.Shutdown.{IsSound, has_stopped}

-- How many steps of its own `main` has left, at most.
abbrev main_left : Main → ℕ
main_left starting = 4
main_left awaiting = 3
main_left stopping = 2
main_left shutting = 1
main_left _ = 0

abbrev phase_left : MonitorPhase → ℕ
phase_left not_started = 2
phase_left selecting = 1
phase_left (checking r) = 1
phase_left ended = 0

abbrev pub left : Process → ℕ
left p = main_left p.main + phase_left p.monitor_phase

abbrev pub parts_left : Process → ℕ
parts_left p = round_left p.monitor_phase

phase_left-check_part : (left : Option Round) → phase_left (after_part left) ≡ 1
phase_left-check_part none = refl
phase_left-check_part (some r) = refl

-- A step that comes closer to the end.
pub data Lowers (p q : Process) : Type 0 where
  fewer : left q < left p → Lowers p q
  further : left q ≤ left p → parts_left q < parts_left p → Lowers p q

-- A step of the others, and the one with which the select takes a tick.
pub data Keeps (p q : Process) : Type 0 where
  level : left q ≤ left p → parts_left q ≤ parts_left p → Keeps p q
  lowers : Lowers p q → Keeps p q
  takes_tick : p.monitor_phase ≡ selecting → left q ≤ left p → Keeps p q

module _ (o : Outside) where
  check-Lowers :
      (p : Process) (probe : Probe) (r : Round)
      → p.monitor_phase ≡ checking r
      → Lowers p (check p probe r)
  unfolding check
  check-Lowers p probe r e =
      further
        (omega (
          arith,
          phase_left-check_part (check_part p.machine.server.monitor probe r).1,
          ap phase_left e,
        ))
        (omega (arith, round_left-check_part p.machine.server.monitor probe r, ap round_left e))

  Step-Keeps : {p q : Process} → Step o p q → Keeps p q
  Step-Keeps (listens p a) = level (omega arith) (omega arith)
  Step-Keeps (listen_fails p a) = level (omega arith) (omega arith)
  Step-Keeps (arrives p r a l) = level (omega arith) (omega arith)
  Step-Keeps (goes_on p xs ys j a e) = level (omega arith) (omega arith)
  Step-Keeps (begins p a e i) = lowers (fewer (ground (arith, e)))
  Step-Keeps (ticker_panics p a e i) = level (omega arith) (omega arith)
  Step-Keeps (ticks p a e) = takes_tick e (ground (arith, e))
  Step-Keeps (checks p probe r a e) = lowers (check-Lowers p probe r e)
  Step-Keeps (monitor_ends p a e c) = lowers (fewer (ground (arith, e)))
  Step-Keeps (calls_back p xs ys id a e) = level (omega arith) (omega arith)
  Step-Keeps (notifies p e) = lowers (fewer (ground (arith, e)))
  Step-Keeps (kills p e) = lowers (fewer (ground (arith, e)))
  Step-Keeps (signals p e) = lowers (fewer (ground (arith, e)))
  Step-Keeps (stop_returns p e d) = lowers (fewer (ground (arith, e)))
  Step-Keeps (shutdown_returns p e) = lowers (fewer (ground (arith, e)))

  -- The step of `main` that is next, or the monitor's that it waits for, where a check returns what
  -- `probe` tells.
  next_step :
      (probe : Probe) (p : Process) (m : Main) (h : MonitorPhase)
      → p.main ≡ m
      → p.monitor_phase ≡ h
      → is_alive m ≡ true
      → IsSound p
      → has_stopped m ≡ some true
      → (q : Process) × Step o p q × Lowers p q
  next_step probe p stopping not_started e f a s t =
      (_, stop_returns p e (rw f refl), fewer (ground (arith, e, f)))
  next_step probe p stopping selecting e f a s t = (
    _,
    monitor_ends p (rw e refl) f (s.cancels true (ap has_stopped e)),
    fewer (ground (arith, e, f)),
  )
  next_step probe p stopping (checking r) e f a s t =
      (_, checks p probe r (rw e refl) f, check-Lowers p probe r f)
  next_step probe p stopping ended e f a s t =
      (_, stop_returns p e (rw f refl), fewer (ground (arith, e, f)))
  next_step probe p shutting h e f a s t = (_, shutdown_returns p e, fewer (ground (arith, e, f)))
  next_step probe p starting h e f a s t = cc
  next_step probe p awaiting h e f a s t = cc
  next_step probe p stopped h e f a s t = cc
  next_step probe p failed h e f a s t = cc
  next_step probe p killed h e f a s t = cc
  next_step probe p panicked h e f a s t = cc

  -- A coordinator's process that is sound, has taken its signal and lives can always go on to the
  -- exit code 0, with the jobs, the nodes and the assignments as they are. Whatever a check returns
  -- next, a step of `main`, or the monitor's that it waits for, is possible and comes closer to the
  -- end: it lowers the number of steps that are left, or it leaves that number and lowers the
  -- number of the round's parts that are left. No step raises the first number, and only a tick that
  -- the select takes raises the second and leaves the first.
  pub shutdown_ends :
      (p : Process)
      → IsSound p
      → is_alive p.main ≡ true
      → has_stopped p.main ≡ some true
      → ((probe : Probe) → Exits o p)
        × ((probe : Probe) → (q : Process) × Step o p q × Lowers p q)
        × ((q : Process) → Step o p q → Keeps p q)
  shutdown_ends p s a t = (
    (λ probe. exits o probe p p.main p.monitor_phase refl refl a s t),
    (λ probe. next_step probe p p.main p.monitor_phase refl refl a s t),
    (λ q st. Step-Keeps st),
  )
