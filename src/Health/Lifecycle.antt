-- ===== src/Health/Lifecycle.antt =====
-- The start and the end of the health monitor, internal/coordinator/health_monitor.go: Start in its
-- goroutine, with Stop and SetCheckFunction beside it. A check function is taken as a
-- test of the node's address: does it return nil?
use torua.Base.{
  ℕ, Str, List, Option, none, some, Bool, true, map, suc, ◌-◌, if◌then◌else◌, ◌==◌, nat_eq,
}
use torua.Cluster.{NodeInfo}
use torua.Health.{HealthMonitor, Probe, check_all_nodes, is_positive}

abbrev pub Check : Type 0
Check = Str → Bool

-- The clock in the check of a node.
pub record Readings : Type 0 where
  pub created_check : ℕ
  pub created_healthy : ℕ
  pub checked : ℕ
  pub healthy_at : ℕ

pub record Service : Type 0 where
  pub monitor : HealthMonitor
  pub check_func : Option Check
  pub is_cancelled : Bool
  -- the counter of `wg`
  pub running : ℕ

unfoldable pub set_check_function : Service → Check → Service
set_check_function v f = record v { check_func = some f }

-- Stop, up to `h.wg.Wait()`
unfoldable pub begin_stop : Service → Service
begin_stop v = record v { is_cancelled = true }

abbrev pub check_or : Check → Option Check → Check
check_or default_check none = default_check
check_or default_check (some f) = f

abbrev pub probed : Check → NodeInfo × Readings → NodeInfo × Probe
probed f (node, r) = (
  node,
  record {
    succeeds = f node.addr;
    created_check = r.created_check;
    created_healthy = r.created_healthy;
    checked = r.checked;
    healthy_at = r.healthy_at;
  },
)

-- `h.checkAllNodes(nodeProvider())`
unfoldable pub round : Service → Check → List (NodeInfo × Readings) → Service
round v f nodes = record v { monitor = (check_all_nodes v.monitor (map (probed f) nodes)).0 }

-- Start up to its loop; `none` where `time.NewTicker` panics.
unfoldable pub begin_start : Check → Service → List (NodeInfo × Readings) → Option Service
unfolding round
begin_start default_check v nodes =
    let f = check_or default_check v.check_func in
    if is_positive v.monitor.interval
    then some (round (record v { check_func = some f; running = suc v.running }) f nodes)
    else none

-- The deferred `h.wg.Done()`, at the end of Start.
unfoldable pub end_start : Service → Service
end_start v = record v { running = v.running - 1 }

-- Does `h.wg.Wait()` return, and with it Stop?
unfoldable pub stop_returns : Service → Bool
stop_returns v = v.running == 0
