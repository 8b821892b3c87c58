-- ===== src/System/Process/Exits.antt =====
-- The steps of the coordinator's process that lead from its signal to the exit code 0
-- (cmd/coordinator/main.go).
use torua.Base.{
  zero, suc, ◌*◌, length, Option, none, [], ◌∷◌, ◌≡◌, refl, ◌+◌, ◌≤◌, ℕ, true, ap, arith, some, ◌∙◌,
  false,
}
use torua.Health.{HealthMonitor, Probe}
use torua.Health.Parts.{Round, visiting, asking, check_part}
use torua.Coordinator.Serve.{Outside}
use torua.System.Process.{
  Process, Main, starting, awaiting, stopping, shutting, stopped, failed, killed, panicked,
  is_alive, check, MonitorPhase, not_started, selecting, checking, ended, after_part, Step, checks,
  monitor_ends, stop_returns, shutdown_returns, Reach, here, next, exit_code, is_running,
}
use torua.System.Process.Shutdown.{IsSound, has_stopped}

-- The parts of a round that are left.
abbrev pub round_left : MonitorPhase → ℕ
round_left not_started = 0
round_left selecting = 0
round_left (checking (visiting nodes seen)) = 2 * length nodes + 1
round_left (checking (asking node rest seen)) = 2 * length rest + 2
round_left ended = 0

pub round_left-check_part :
    (h : HealthMonitor) (probe : Probe) (r : Round)
    → round_left (after_part (check_part h probe r).1) + 1 ≡ round_left (checking r)
unfolding check_part
round_left-check_part h probe (visiting [] seen) = refl
round_left-check_part h probe (visiting (node ∷ rest) seen) = omega arith
round_left-check_part h probe (asking node rest seen) = omega arith

-- What the way to the exit leaves alone.
abbrev pub SameWork : Process → Process → Type 0
SameWork q p =
    (q.machine.jobs ≡ p.machine.jobs)
    × (q.machine.server.registry ≡ p.machine.server.registry)
    × (q.machine.server.nodes ≡ p.machine.server.nodes)

SameWork-trans : (p q u : Process) → SameWork u q → SameWork q p → SameWork u p
SameWork-trans p q u (a, b, c) (a', b', c') = (a ∙ a', b ∙ b', c ∙ c')

module _ (o : Outside) where
  Reach-after : {p q u : Process} → Step o p q → Reach o q u → Reach o p u
  Reach-after st here = next here st
  Reach-after st (next r last) = next (Reach-after st r) last

  -- What is left of a round comes to its end.
  round_ends :
      (probe : Probe) (fuel : ℕ) (p : Process) (r : Option Round)
      → p.monitor_phase ≡ after_part r
      → is_alive p.main ≡ true
      → round_left (after_part r) ≤ fuel
      → (q : Process) × Reach o p q
        × (q.monitor_phase ≡ selecting)
        × (q.main ≡ p.main)
        × (q.is_cancelled ≡ p.is_cancelled)
        × SameWork q p
  unfolding check
  round_ends probe fuel p none e a f = (p, here, e, refl, refl, (refl, refl, refl))
  round_ends probe zero p (some r) e a f =
      let none_left : ⊥ =
        omega (arith, f, round_left-check_part p.machine.server.monitor probe r) in
      elim none_left [ ]
  round_ends probe (suc fuel) p (some r) e a f =
      let (q, way, f', e', c', same) =
        round_ends probe fuel (check p probe r) (check_part p.machine.server.monitor probe r).1 refl
          a (omega (arith, f, round_left-check_part p.machine.server.monitor probe r)) in
      (q, Reach-after (checks p probe r a e) way, f', e', c', same)

  Reach-append : {p q u : Process} → Reach o p q → Reach o q u → Reach o p u
  Reach-append r here = r
  Reach-append r (next later st) = next (Reach-append r later) st

  abbrev pub Exits : Process → Type 0
  Exits p = (q : Process) × Reach o p q × (exit_code q.main ≡ some 0) × SameWork q p

  -- `h.wg.Wait()` returns, and then Shutdown.
  stop-Exits : (p : Process) → p.main ≡ stopping → is_running p.monitor_phase ≡ false → Exits p
  unfolding exit_code
  stop-Exits p e f =
      (_, next (next here (stop_returns p e f)) (shutdown_returns _ refl), refl, (refl, refl, refl))

  selecting-Exits :
      (p : Process)
      → p.main ≡ stopping
      → p.monitor_phase ≡ selecting
      → p.is_cancelled ≡ true
      → Exits p
  selecting-Exits p e f c =
      let st = monitor_ends p (rw e refl) f c in
      let (q, way, x, same) = stop-Exits (record p { monitor_phase = ended }) e refl in
      (q, Reach-after st way, x, same)

  checking-Exits :
      (probe : Probe) (p : Process) (r : Round)
      → p.main ≡ stopping
      → p.monitor_phase ≡ checking r
      → p.is_cancelled ≡ true
      → Exits p
  checking-Exits probe p r e f c =
      let (q, way, f', e', c', same) =
        round_ends probe (round_left (checking r)) p (some r) f (rw e refl) (omega arith) in
      let (u, way', x, same') = selecting-Exits q (e' ∙ e) f' (c' ∙ c) in
      (u, Reach-append way way', x, SameWork-trans p q u same' same)

  -- The steps that are left to the exit code 0, if each check returns what `probe` tells.
  pub exits :
      (probe : Probe) (p : Process) (m : Main) (h : MonitorPhase)
      → p.main ≡ m
      → p.monitor_phase ≡ h
      → is_alive m ≡ true
      → IsSound p
      → has_stopped m ≡ some true
      → Exits p
  unfolding exit_code
  exits probe p shutting h e f a s t =
      (_, next here (shutdown_returns p e), refl, (refl, refl, refl))
  exits probe p stopping not_started e f a s t = stop-Exits p e (rw f refl)
  exits probe p stopping ended e f a s t = stop-Exits p e (rw f refl)
  exits probe p stopping selecting e f a s t =
      selecting-Exits p e f (s.cancels true (ap has_stopped e))
  exits probe p stopping (checking r) e f a s t =
      checking-Exits probe p r e f (s.cancels true (ap has_stopped e))
  exits probe p starting h e f a s t = cc
  exits probe p awaiting h e f a s t = cc
  exits probe p stopped h e f a s t = cc
  exits probe p failed h e f a s t = cc
  exits probe p killed h e f a s t = cc
  exits probe p panicked h e f a s t = cc
