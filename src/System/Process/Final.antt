-- ===== src/System/Process/Final.antt =====
-- What is left to happen once the coordinator's monitor has ended (cmd/coordinator/main.go and Stop
-- of internal/coordinator/health_monitor.go).
use torua.Coordinator.Threads.{Job, waiting, chosen, looping, checked, proceed}
use torua.Base.{◌≡◌, refl, str_eq, arith, zero, suc}
use torua.Coordinator.{Server}
use torua.System.Process.{Process}

pub monitor-proceed : (s : Server) (j : Job) → (proceed s j).0.monitor ≡ s.monitor
unfolding proceed
monitor-proceed s waiting = refl
monitor-proceed s (chosen healthy) = refl
monitor-proceed s (looping healthy assigned index i zero) = refl
monitor-proceed s (looping healthy assigned index i (suc left)) = ground arith
monitor-proceed s (checked req) = refl
