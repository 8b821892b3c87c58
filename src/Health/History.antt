-- ===== src/Health/History.antt =====
-- The health record of a node against the history of its checks.
use torua.Base.{
  ℕ, suc, ◌≡◌, Str, List, [], ◌∷◌, Bool, true, false, leb, nat_beq, if◌then◌else◌, arith, ◌<◌,
}
use torua.Health.{
  Status, healthy, unhealthy, unknown, NodeHealth, HealthMonitor, Probe, new_record, update_record,
}

-- How many checks at the end of the history failed. The newest check stands first.
unfoldable pub failures : List Probe → ℕ
failures [] = 0
failures (p ∷ ps) = let n = failures ps in if p.succeeds then 0 else suc n

unfoldable pub any_success : List Probe → Bool
any_success [] = false
any_success (p ∷ ps) = let rest = any_success ps in if p.succeeds then true else rest

-- The record of a node after the checks of its history.
pub record_after : HealthMonitor → NodeHealth → List Probe → NodeHealth
record_after h n [] = n
record_after h n (p ∷ ps) = (update_record h (record_after h n ps) p).0

-- The status that the history calls for.
unfoldable pub status_of : ℕ → List Probe → Status
status_of max ps =
    if leb max (failures ps) then unhealthy else if any_success ps then healthy else unknown

module _ (h : HealthMonitor) (id : Str) (first : Probe) (positive : 0 < h.max_failures) where
  -- After any history of checks of a new node: ConsecutiveFails counts the failures since the last
  -- success, and Status is "unhealthy" exactly when that reaches maxFailures; otherwise it is
  -- "healthy" if some check succeeded, and "unknown" if none did.
  pub record_after_lem :
      (ps : List Probe)
      → ((record_after h (new_record id first) ps).consecutive_fails ≡ failures ps)
        × ((record_after h (new_record id first) ps).status ≡ status_of h.max_failures ps)
  unfolding record_after new_record update_record status_of failures any_success
  record_after_lem [] = ground arith
  record_after_lem (p ∷ ps) = ground (arith, record_after_lem ps)

  -- A check starts the callback exactly when the failures since the last success reach maxFailures
  -- by it, if a callback is set. So a run of failures starts it once.
  pub callback_lem :
      (p : Probe) (ps : List Probe)
      → (update_record h (record_after h (new_record id first) ps) p).1
        ≡ (if h.has_callback then nat_beq (failures (p ∷ ps)) h.max_failures else false)
  unfolding update_record status_of failures
  callback_lem p ps = ground (arith, record_after_lem ps)
