-- ===== src/Examples/Checks.antt =====
-- The health monitor on short histories.
use torua.Health.Lifecycle.{Service, begin_start}
use torua.Base.{◌≡◌, ◌<◌, refl, [], ◌∷◌, true, false, ascii, pos, str_eq, arith, none}
use torua.Health.{HealthMonitor, new_health_monitor, set_on_unhealthy, new_record, unhealthy}
use torua.Health.History.{record_after, record_after_lem, failures, status_of}
use torua.Examples.Data.{failing, passing}

abbrev monitor : HealthMonitor
monitor = set_on_unhealthy (new_health_monitor (pos 5_000_000_000))

positive : 0 < monitor.max_failures
unfolding new_health_monitor set_on_unhealthy
positive = omega arith

record_after_lem_example :
    ((record_after monitor
        (new_record (ascii "a") failing)
        (failing ∷ failing ∷ failing ∷ passing ∷ [])).consecutive_fails
      ≡ 3)
    × ((record_after monitor
          (new_record (ascii "a") failing)
          (failing ∷ failing ∷ failing ∷ passing ∷ [])).status
        ≡ unhealthy)
unfolding new_health_monitor set_on_unhealthy failures status_of
record_after_lem_example =
    record_after_lem monitor (ascii "a") failing positive
      (failing ∷ failing ∷ failing ∷ passing ∷ [])

-- A monitor whose interval is zero does not start.
abbrev idle_service : HealthMonitor → Service
idle_service h = record { monitor = h; check_func = none; is_cancelled = false; running = 0 }

no_ticker : begin_start (λ addr. true) (idle_service (new_health_monitor (pos 0))) [] ≡ none
unfolding begin_start new_health_monitor
no_ticker = refl
