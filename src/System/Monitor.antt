-- ===== src/System/Monitor.antt =====
-- The health monitor of internal/coordinator/health_monitor.go on the nodes of cmd/coordinator/main.go:
-- a round checks the nodes that the provider in `main` copies, and each callback that it starts runs
-- before the next round.
pub mod Rounds
pub mod Marks
pub mod Strikes
use torua.Base.{Str, List, [], ◌∷◌, map}
use torua.Cluster.{NodeInfo}
use torua.Health.{Probe, check_all_nodes}
use torua.Coordinator.{Server, on_unhealthy}

-- What the round's checks of the nodes return.
unfoldable pub paired : (Str → Probe) → List NodeInfo → List (NodeInfo × Probe)
paired probe = map (λ n. (n, probe n.id))

unfoldable pub fire : Server → List Str → Server
fire s [] = s
fire s (id ∷ ids) = fire (on_unhealthy s id) ids

-- One tick of the monitor.
unfoldable pub tick : Server → (Str → Probe) → Server
unfolding paired fire
tick s probe =
    let (h, ids) = check_all_nodes s.monitor (paired probe s.nodes) in
    fire (record s { monitor = h }) ids

-- The ticks of a list, the newest first.
unfoldable pub tick_all : Server → List (Str → Probe) → Server
unfolding tick
tick_all s [] = s
tick_all s (probe ∷ older) = tick (tick_all s older) probe
