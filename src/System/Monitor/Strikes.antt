-- ===== src/System/Monitor/Strikes.antt =====
-- What GET /nodes shows of a node, against the history of the monitor's checks of it.
use torua.Base.{
  ◌≡◌, ◌∙◌, ℕ, ◌<◌, nat_beq, refl, Str, List, [], ◌∷◌, none, some, true, false, get, contains,
  if◌then◌else◌, ◌==◌, str_eq, arith, ascii, ap, Bool-cases, inl, inr, sym, ==_refl,
}
use torua.Health.{Probe, status_text, check_all_nodes, get_all_node_health}
use torua.Health.History.{failures, status_of, any_success}
use torua.Health.Tracking.{check_each_settings}
use torua.Coordinator.{Server, node_exists, unhealthy_text}
use torua.Coordinator.Nodes.{IsDistinct}
use torua.Coordinator.Listing.{find_node, status_at, shown, shown_lem}
use torua.System.Monitor.{paired, tick, tick_all}
use torua.System.Monitor.Rounds.{check_all_nodes-registered}
use torua.System.Monitor.Marks.{
  has_reached, checks_of, fails_of, recorded, update_record_lem, reached_now, has_reached_lem,
  fire-IsMarked, shown-found,
}

-- After the ticks: the settings, the nodes' IDs, the monitor's record of the node, and its mark.
record IsTracking (s s' : Server) (k : Str) (ps : List Probe) : Type 0 where
  limit : s'.monitor.max_failures ≡ s.monitor.max_failures
  callback : s'.monitor.has_callback ≡ true
  distinct : IsDistinct s'.nodes
  exists : node_exists s'.nodes k ≡ true
  fails : fails_of (get s'.monitor.nodes k) ≡ failures ps
  state : recorded (get s'.monitor.nodes k) ≡ status_of s.monitor.max_failures ps
  marked : status_at (find_node s'.nodes k) ≡ (
      if has_reached s.monitor.max_failures ps
      then some unhealthy_text
      else status_at (find_node s.nodes k))

tick-IsTracking :
    (s s' : Server) (k : Str) (probe : Str → Probe) (ps : List Probe)
    → 0 < s.monitor.max_failures
    → IsTracking s s' k ps
    → IsTracking s (tick s' probe) k (probe k ∷ ps)
unfolding tick check_all_nodes
tick-IsTracking s s' k probe ps m t =
    let round = check_all_nodes-registered probe k s'.nodes s'.monitor t.distinct t.exists in
    let settings = check_each_settings (paired probe s'.nodes) s'.monitor in
    let step =
      update_record_lem s'.monitor k (get s'.monitor.nodes k) (probe k) ps (rw t.limit m) t.fails
        (t.state ∙ ap (λ x. status_of x ps) (sym t.limit)) in
    let fired : contains (check_all_nodes s'.monitor (paired probe s'.nodes)).1 k
        ≡ nat_beq (failures (probe k ∷ ps)) s.monitor.max_failures =
      round.1 ∙ step.2 ∙ rw t.callback (ap (nat_beq (failures (probe k ∷ ps))) t.limit) in
    let marks =
      fire-IsMarked (check_all_nodes s'.monitor (paired probe s'.nodes)).1
        (record s' { monitor = (check_all_nodes s'.monitor (paired probe s'.nodes)).0 }) k
        t.distinct t.exists in
    record {
      limit = ap (λ h. h.max_failures) marks.monitor ∙ settings.0 ∙ t.limit;
      callback = ap (λ h. h.has_callback) marks.monitor ∙ settings.1 ∙ t.callback;
      distinct = marks.distinct;
      exists = marks.exists;
      fails = ap (λ h. fails_of (get h.nodes k)) marks.monitor ∙ ap fails_of round.0 ∙ step.0;
      state =
          ap (λ h. recorded (get h.nodes k)) marks.monitor
          ∙ ap recorded round.0
          ∙ step.1
          ∙ ap (λ x. status_of x (probe k ∷ ps)) t.limit;
      marked =
          marks.status
          ∙ rw fired
              (ground (arith, has_reached_lem s.monitor.max_failures (probe k) ps m, t.marked));
    }

tick_all-IsTracking :
    (s : Server) (k : Str)
    → 0 < s.monitor.max_failures
    → s.monitor.has_callback ≡ true
    → IsDistinct s.nodes
    → node_exists s.nodes k ≡ true
    → get s.monitor.nodes k ≡ none
    → (ticks : List (Str → Probe)) → IsTracking s (tick_all s ticks) k (checks_of k ticks)
unfolding tick_all checks_of failures status_of any_success has_reached
tick_all-IsTracking s k m c d e new [] = record {
  limit = refl;
  callback = c;
  distinct = d;
  exists = e;
  fails = ap fails_of new;
  state = ap recorded new ∙ ground arith;
  marked = refl;
}
tick_all-IsTracking s k m c d e new (probe ∷ older) =
    tick-IsTracking s (tick_all s older) k probe (checks_of k older) m
      (tick_all-IsTracking s k m c d e new older)

unreached_text :
    (max : ℕ) (ps : List Probe)
    → 0 < max
    → has_reached max ps ≡ false
    → status_text (status_of max ps) ≡ (if any_success ps then ascii "healthy" else ascii "unknown")
unfolding status_of status_text
unreached_text max ps m safe = ground (arith, reached_now max ps m)

-- After any ticks of the monitor, GET /nodes shows a node as "unhealthy" exactly if at some time
-- since the monitor started to check it maxFailures checks in a row had failed, and then for good:
-- checks that succeed later do not change it. A node that never reached the limit is shown as
-- "healthy" if some check of it succeeded, and as "unknown" if none did. The conditions: maxFailures
-- is positive, the callback is set, the node is registered under an ID of its own and not as
-- "unhealthy", the monitor has no record of it yet, and nothing is registered during the ticks.
pub shown-tick_all :
    (s : Server) (k t : Str)
    → 0 < s.monitor.max_failures
    → s.monitor.has_callback ≡ true
    → IsDistinct s.nodes
    → node_exists s.nodes k ≡ true
    → status_at (find_node s.nodes k) ≡ some t
    → (t == unhealthy_text) ≡ false
    → get s.monitor.nodes k ≡ none
    → (ticks : List (Str → Probe))
    → shown (tick_all s ticks) k
      ≡ some (
          if has_reached s.monitor.max_failures (checks_of k ticks)
          then unhealthy_text
          else if any_success (checks_of k ticks)
          then ascii "healthy"
          else ascii "unknown")
unfolding get_all_node_health
shown-tick_all s k t m c d e st ok new ticks =
    let w = tick_all-IsTracking s k m c d e new ticks in
    shown_lem (tick_all s ticks) k
    ∙ elim (Bool-cases (has_reached s.monitor.max_failures (checks_of k ticks))) [
      | inl struck ↦
          shown-found (get_all_node_health (tick_all s ticks).monitor) (tick_all s ticks).nodes k
            unhealthy_text (w.marked ∙ rw struck refl)
          ∙ rw (==_refl unhealthy_text) (rw struck refl)
      | inr safe ↦
          shown-found (get_all_node_health (tick_all s ticks).monitor) (tick_all s ticks).nodes k t
            (w.marked ∙ rw safe st)
          ∙ rw ok (
              ap (λ x. some (status_text x)) w.state
              ∙ ap some
                  (unreached_text s.monitor.max_failures (checks_of k ticks) m safe ∙ rw safe refl))
    ]
