-- ===== src/Health.antt =====
-- internal/coordinator/health_monitor.go: health checks of the registered nodes. A step of the
-- monitor takes from outside what `checkFunc` returns and the readings of the clock; the callback
-- that it starts in a goroutine comes back as the node's ID. `ConsecutiveFails` is an `int` that
-- would need 2^63 failed checks to wrap, and is a number here.
pub mod History
pub mod Tracking
pub mod Parts
pub mod Counted
pub mod Check
pub mod Lifecycle
use torua.Base.{
  ℤ, pos, ℕ, zero, suc, ◌+◌, Str, List, [], ◌∷◌, ◌++◌, Option, none, some, Bool, true, false, not,
  ◌&&◌, ◌||◌, Map, get, put, contains, keep, leb, if◌then◌else◌, ◌==◌, str_eq, nat_eq, ascii,
  has_prefix, reverse, negsuc,
}
use torua.Cluster.{NodeInfo}

pub data Status : Type 0 where
  healthy unhealthy unknown : Status

-- The constants of the file, as the texts that they are.
unfoldable pub status_text : Status → Str
status_text healthy = ascii "healthy"
status_text unhealthy = ascii "unhealthy"
status_text unknown = ascii "unknown"

abbrev pub is_unhealthy : Status → Bool
is_unhealthy unhealthy = true
is_unhealthy _ = false

abbrev pub is_status_healthy : Status → Bool
is_status_healthy healthy = true
is_status_healthy _ = false

pub record NodeHealth : Type 0 where
  pub last_check : ℕ
  pub last_healthy : ℕ
  pub node_id : Str
  pub status : Status
  pub consecutive_fails : ℕ

-- The client, the contexts, the lock and the wait group hold no data of their own.
-- `has_callback` is `onUnhealthy != nil`. Durations are in nanoseconds.
pub record HealthMonitor : Type 0 where
  pub nodes : Map Str NodeHealth
  pub has_callback : Bool
  pub interval : ℤ
  pub timeout : ℤ
  pub max_failures : ℕ

unfoldable pub new_health_monitor : ℤ → HealthMonitor
new_health_monitor interval = record {
  nodes = [];
  has_callback = false;
  interval = interval;
  timeout = pos 2_000_000_000;
  max_failures = 3;
}

unfoldable pub set_on_unhealthy : HealthMonitor → HealthMonitor
set_on_unhealthy h = record h { has_callback = true }

-- One call of `checkFunc`, and the four readings of the clock in the order of the code.
pub record Probe : Type 0 where
  pub succeeds : Bool
  pub created_check : ℕ
  pub created_healthy : ℕ
  pub checked : ℕ
  pub healthy_at : ℕ

unfoldable pub new_record : Str → Probe → NodeHealth
new_record id p = record {
  last_check = p.created_check;
  last_healthy = p.created_healthy;
  node_id = id;
  status = unknown;
  consecutive_fails = 0;
}

-- The branch `err != nil`. The flag says whether the callback is started.
unfoldable pub record_failure : HealthMonitor → NodeHealth → NodeHealth × Bool
record_failure h n =
    let fails = n.consecutive_fails + 1 in
    if leb h.max_failures fails
    then (
      record n { status = unhealthy; consecutive_fails = fails },
      not (is_unhealthy n.status) && h.has_callback,
    )
    else (record n { consecutive_fails = fails }, false)

unfoldable pub record_success : NodeHealth → ℕ → NodeHealth
record_success n now = record n { status = healthy; consecutive_fails = 0; last_healthy = now }

-- `checkNode` on the node's record, behind the call of `checkFunc`.
unfoldable pub update_record : HealthMonitor → NodeHealth → Probe → NodeHealth × Bool
unfolding record_failure record_success
update_record h n p =
    let n' = record n { last_check = p.checked } in
    if p.succeeds then (record_success n' p.healthy_at, false) else record_failure h n'

unfoldable pub find_or_new : Option NodeHealth → Str → Probe → NodeHealth
unfolding new_record
find_or_new none id p = new_record id p
find_or_new (some n) id p = n

abbrev pub callback_for : Bool → Str → List Str
callback_for true id = id ∷ []
callback_for false id = []

-- `checkNode`. The record is reached through a pointer, so the update is a write to the map.
unfoldable pub check_node : HealthMonitor → NodeInfo → Probe → HealthMonitor × List Str
unfolding find_or_new update_record
check_node h node p =
    let (n, started) = update_record h (find_or_new (get h.nodes node.id) node.id p) p in
    (record h { nodes = put h.nodes node.id n }, callback_for started node.id)

-- The loop over the nodes.
unfoldable pub check_each : HealthMonitor → List (NodeInfo × Probe) → HealthMonitor × List Str
unfolding check_node
check_each h [] = (h, [])
check_each h ((node, p) ∷ rest) =
    let (h', ids) = check_node h node p in
    let (h'', more) = check_each h' rest in (h'', ids ++ more)

unfoldable pub node_ids : List (NodeInfo × Probe) → List Str
node_ids [] = []
node_ids ((node, p) ∷ rest) = node.id ∷ node_ids rest

-- `delete(h.nodes, nodeID)` for each key that is not current.
unfoldable pub drop_missing : List Str → Map Str NodeHealth → Map Str NodeHealth
drop_missing current [] = []
drop_missing current ((id, n) ∷ m) =
    let rest = drop_missing current m in if contains current id then (id, n) ∷ rest else rest

unfoldable pub check_all_nodes : HealthMonitor → List (NodeInfo × Probe) → HealthMonitor × List Str
unfolding check_each node_ids drop_missing
check_all_nodes h nodes =
    let (h', ids) = check_each h nodes in
    (record h' { nodes = drop_missing (node_ids nodes) h'.nodes }, ids)

-- What the `select` of `Start` receives.
pub data Signal : Type 0 where
  tick : List (NodeInfo × Probe) → Signal
  context_done : Signal
  monitor_done : Signal

-- The `for` loop of `Start`, over the signals in the order in which the select takes them.
unfoldable pub loop : HealthMonitor → List Signal → HealthMonitor × List Str
unfolding check_all_nodes
loop h [] = (h, [])
loop h (context_done ∷ rest) = (h, [])
loop h (monitor_done ∷ rest) = (h, [])
loop h (tick nodes ∷ rest) =
    let (h', ids) = check_all_nodes h nodes in let (h'', more) = loop h' rest in (h'', ids ++ more)

-- `time.NewTicker` panics for a duration that is not positive.
abbrev pub is_positive : ℤ → Bool
is_positive (pos zero) = false
is_positive (pos (suc n)) = true
is_positive (negsuc n) = false

-- `Start`: one round at once, then the loop; `none` where the ticker panics.
unfoldable pub start :
    HealthMonitor → List (NodeInfo × Probe) → List Signal → Option (HealthMonitor × List Str)
unfolding loop
start h first signals =
    let (h', ids) = check_all_nodes h first in
    let (h'', more) = loop h' signals in
    if is_positive h.interval then some (h'', ids ++ more) else none

unfoldable pub get_node_health : HealthMonitor → Str → Option NodeHealth
get_node_health h id = get h.nodes id

unfoldable pub get_all_node_health : HealthMonitor → Map Str NodeHealth
get_all_node_health h = h.nodes

unfoldable pub is_healthy : HealthMonitor → Str → Bool
is_healthy h id = elim (get h.nodes id) [ none ↦ false | some n ↦ is_status_healthy n.status ]
