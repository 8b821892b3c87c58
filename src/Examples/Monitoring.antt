-- ===== src/Examples/Monitoring.antt =====
-- A coordinator's process whose only node fails three checks in a row.
use torua.System.Process.Panics.{ticker_crashes}
use torua.Examples.Process.{no_env, begun, joined, joined-Reach}
use torua.Examples.Data.{failing}
use torua.Examples.Whole.{always_c}
use torua.System.Process.Callbacks.{had_failed, callback_after_failures}
use torua.System.Process.{
  Process, Reach, start, next, begins, checks, check, with_round, not_started, is_alive,
  MonitorPhase, selecting, checking, ended, ticks, Step, here, listens, exit_code,
}
use torua.Health.{
  is_positive, new_record, update_record, record_failure, drop_missing, new_health_monitor,
  set_on_unhealthy,
}
use torua.Health.Parts.{check_part, ensure_record, finish_check}
use torua.Coordinator.{new_server, node_exists}
use torua.Coordinator.Serve.Begun.{begin_request}
use torua.Coordinator.Threads.{begin_register}
use torua.Node.Startup.{register_body}
use torua.Base.{
  ◌≡◌, refl, [], none, ascii, true, ◌++◌, ◌∷◌, str_beq, ℕ, zero, suc, contains, get, put, str_eq,
  Str, if◌then◌else◌, ◌==◌, some, pos,
}

-- The monitor goes on by one step behind its start, and every check fails.
monitor_step : Process → MonitorPhase → Process
monitor_step p not_started = p
monitor_step p selecting = with_round p
monitor_step p (checking r) = check p failing r
monitor_step p ended = p

monitor_step-Reach :
    {u : Process} (p : Process) (h : MonitorPhase)
    → p.monitor_phase ≡ h
    → is_alive p.main ≡ true
    → Reach always_c u p
    → Reach always_c u (monitor_step p h) × (is_alive (monitor_step p h).main ≡ true)
unfolding monitor_step check
monitor_step-Reach p not_started e a r = (r, a)
monitor_step-Reach p selecting e a r = (next r (ticks p a e), a)
monitor_step-Reach p (checking c) e a r = (next r (checks p failing c a e), a)
monitor_step-Reach p ended e a r = (r, a)

monitor_steps : ℕ → Process → Process
monitor_steps zero p = p
monitor_steps (suc k) p = monitor_step (monitor_steps k p) (monitor_steps k p).monitor_phase

monitor_steps-Reach :
    {u : Process} (k : ℕ) (p : Process)
    → is_alive p.main ≡ true
    → Reach always_c u p
    → Reach always_c u (monitor_steps k p) × (is_alive (monitor_steps k p).main ≡ true)
unfolding monitor_steps
monitor_steps-Reach zero p a r = (r, a)
monitor_steps-Reach (suc k) p a r =
    let (r', a') = monitor_steps-Reach k p a r in
    monitor_step-Reach (monitor_steps k p) (monitor_steps k p).monitor_phase refl a' r'

-- Two rounds, and the third up to the check of node c.
abbrev struck : Process
struck = monitor_steps 10 (with_round joined)

joined-is_positive : is_positive joined.machine.server.monitor.interval ≡ true
unfolding start begin_request begin_register new_server node_exists str_beq register_body
    new_health_monitor set_on_unhealthy
joined-is_positive = refl

struck-Reach : Reach always_c begun struck
unfolding start
struck-Reach =
    (monitor_steps-Reach 10 (with_round joined) refl
      (next joined-Reach (begins joined refl refl joined-is_positive))).0

calls_c : struck.callbacks ≡ [] ++ ascii "c" ∷ []
unfolding start monitor_steps monitor_step check begin_request begin_register new_server node_exists
    str_beq register_body check_part ensure_record finish_check new_record update_record
    record_failure drop_missing contains get put new_health_monitor set_on_unhealthy
calls_c = refl

callback_after_failures_example : had_failed always_c 3 (ascii "c") struck-Reach ≡ true
callback_after_failures_example =
    callback_after_failures always_c no_env (λ d. none) struck-Reach [] [] (ascii "c") calls_c

-- A coordinator with HEALTH_CHECK_INTERVAL=0s that has begun to listen.
abbrev zero_env : Str → Str
zero_env k = if k == ascii "HEALTH_CHECK_INTERVAL" then ascii "0s" else []

abbrev zero_listening : Process
zero_listening = record (start zero_env (λ d. some (pos 0))) { is_listening = true }

ticker_crashes_example :
    (zero_listening.machine.server.monitor.nodes ≡ [])
    × (zero_listening.callbacks ≡ [])
    × (is_alive zero_listening.main ≡ true
        → (q : Process) × Step always_c zero_listening q × (exit_code q.main ≡ some 2))
unfolding start str_beq
ticker_crashes_example =
    ticker_crashes always_c zero_env (λ d. some (pos 0)) (pos 0) refl refl refl
      (next here (listens (start zero_env (λ d. some (pos 0))) refl))
